-- ===== src/MdnsResponder/Probing.antt =====
-- Probing for names and announcing them: src/discovery/MdnsResponder.cpp. The clock's `elapsed()` and
-- the random delays are arguments.
pub mod Progress
pub mod Order
use air_show.Prelude.{
  ℕ, suc, ◌+◌, Bool, true, false, not, ◌||◌, List, [], ◌∷◌, none, some, if◌then◌else◌, ltb, ◌==◌,
  any,
}
use air_show.Dns.Message.{Question, Record, Message, type_any, class_in}
use air_show.MdnsResponder.State.{
  Group, Service, Iface, host, Action, announce_host, announce_service, reply, Core, send_to,
  multicast, multicast_all, single_shot, find_service, set_service, iface_by_index,
}
use air_show.MdnsResponder.Records.{
  host_fqdn, instance_name, enum_ptr, instance_ptr, srv, txt, host_records, host_probe_records,
  service_probe_records, empty_message, response,
}

-- `kProbeCount` and `kProbeIntervalMs`.
abbrev pub probe_count : ℕ
probe_count = 3

abbrev pub probe_interval : ℕ
probe_interval = 250

-- `beginProbing`, on the group; the callers start the timer.
unfoldable pub begin_probing : ℕ → ℕ → Group → Group
begin_probing now delay g = record {
  probes_sent = 0;
  announced = false;
  next_probe_at = now + delay;
  generation = suc g.generation;
}

-- The message of `announceHost` for an interface.
unfoldable pub host_announcement : Core → Iface → Message
unfolding host_records
host_announcement c iface = record response { answers = host_records c (some iface) }

-- The message of `announceService` for an interface.
unfoldable pub service_announcement : Core → Service → Iface → Message
unfolding host_records enum_ptr instance_ptr srv txt
service_announcement c s iface = record response {
  answers = enum_ptr s ∷ instance_ptr s ∷ srv c s ∷ txt s ∷ [];
  additionals = if c.host.announced then host_records c (some iface) else [];
}

-- What a lambda does when it runs: the two announcements, if they are not stale, and a reply.
unfoldable pub fire : Action → Core → Core
unfolding host_announcement service_announcement multicast_all find_service send_to iface_by_index
fire (announce_host generation) c =
    if not c.host.announced || not (c.host.generation == generation)
    then c
    else multicast_all (host_announcement c) c.ifaces c
fire (announce_service id generation) c = elim (find_service id c.services) [
  | none ↦ c
  | some s ↦
      if not s.group.announced || not (s.group.generation == generation)
      then c
      else multicast_all (service_announcement c s) c.ifaces c
]
fire (reply resp from port unicast if_index) c =
    if unicast then send_to resp (host from port) c else elim if_index [
      | none ↦ multicast_all (λ i. resp) c.ifaces c
      | some index ↦ elim (iface_by_index index c.ifaces) [
        | none ↦ multicast_all (λ i. resp) c.ifaces c
        | some i ↦ multicast resp i c
      ]
    ]

-- `repeat`: now, after one second, and after three.
unfoldable pub repeat : Action → Core → Core
unfolding fire
repeat action c = single_shot 3000 action (single_shot 1000 action (fire action c))

-- `announceService`.
unfoldable pub start_service : ℕ → Core → Core
unfolding repeat find_service
start_service id c = elim (find_service id c.services) [
  | none ↦ c
  | some s ↦ repeat (announce_service id s.group.generation) c
]

-- The loop at the end of `announceHost`.
unfoldable pub start_services : List Service → Core → Core
unfolding start_service
start_services [] c = c
start_services (s ∷ ss) c =
    start_services ss (if s.group.announced then start_service s.id c else c)

-- `announceHost`.
unfoldable pub start_host : Core → Core
unfolding repeat start_services
start_host c = start_services c.services (repeat (announce_host c.host.generation) c)

abbrev pub probe_for : List Record → Question → Message
probe_for ours question = record empty_message { questions = question ∷ []; authorities = ours }

-- The message of `sendHostProbe` for an interface.
unfoldable pub host_probe : Core → Iface → Message
unfolding host_fqdn host_probe_records
host_probe c i =
    probe_for (host_probe_records c (some i))
      (record { name = host_fqdn c; type = type_any; rrclass = class_in; unicast_response = false })

unfoldable pub send_host_probe : Core → Core
unfolding multicast_all host_probe
send_host_probe c = multicast_all (host_probe c) c.ifaces c

-- The message of `sendServiceProbe`, the same for every interface.
unfoldable pub service_probe : Core → Service → Iface → Message
unfolding instance_name service_probe_records
service_probe c s i = probe_for (service_probe_records c s) (record {
  name = instance_name s;
  type = type_any;
  rrclass = class_in;
  unicast_response = false;
})

unfoldable pub send_service_probe : Service → Core → Core
unfolding multicast_all service_probe
send_service_probe s c = multicast_all (service_probe c s) c.ifaces c

-- What the lambda `step` of `probeTick` does with a group.
pub data Turn : Type 0 where
  idle probe go_live : Turn

unfoldable pub turn : ℕ → Group → Bool → Turn
turn now g can_announce =
    if g.announced
    then idle
    else if ltb now g.next_probe_at
    then idle
    else if ltb g.probes_sent probe_count
    then probe
    else if can_announce
    then go_live
    else idle

unfoldable pub turned : ℕ → Turn → Group → Group
turned now idle g = g
turned now probe g = record g {
  probes_sent = suc g.probes_sent;
  next_probe_at = now + probe_interval;
}
turned now go_live g = record g { announced = true }

unfoldable pub step_host : ℕ → Core → Core
unfolding turn turned send_host_probe start_host
step_host now c = elim (turn now c.host true) [
  | idle ↦ c
  | probe ↦ record (send_host_probe c) { host = turned now probe c.host }
  | go_live ↦ start_host (record c { host = turned now go_live c.host })
]

unfoldable pub step_service : ℕ → Service → Core → Core
unfolding turn turned send_service_probe start_service set_service
step_service now s c = elim (turn now s.group c.host.announced) [
  | idle ↦ c
  | probe ↦ record (send_service_probe s c) {
    services = set_service s.id (record s { group = turned now probe s.group }) c.services;
  }
  | go_live ↦ start_service s.id (record c {
    services = set_service s.id (record s { group = turned now go_live s.group }) c.services;
  })
]

unfoldable pub step_services : ℕ → List Service → Core → Core
unfolding step_service
step_services now [] c = c
step_services now (s ∷ ss) c = step_services now ss (step_service now s c)

abbrev pub is_probing : Service → Bool
is_probing s = not s.group.announced

unfoldable pub probe_tick : ℕ → Core → Core
unfolding step_host step_services
probe_tick now c =
    let done = step_services now c.services (step_host now c) in
    if not c.host.announced || any is_probing c.services
    then done
    else record done { probe_timer = false }
