-- ===== src/MdnsResponder/Machine/Probed.antt =====
-- The probes that a responder has really sent for its host name, and the ticks that send them.
pub mod Events
use air_show.Prelude.{
  ◌⊎◌, ◌≡◌, refl, ◌∙◌, sym, ap, ℕ, suc, ◌≤◌, Bool, true, false, not, ◌&&◌, ◌||◌, List, [], ◌∷◌,
  ◌++◌, Option, some, if◌then◌else◌, ◌==◌, Bytes, same_bytes, is_empty, arith, inl, inr, Bool-cases,
  Option-cases, any,
}
use mathlib.Core.List.{append_assoc, append-nil}
use air_show.Dns.Name.{Read, ok, malformed, out_of_fuel}
use air_show.Dns.Message.{Message, is_response}
use air_show.Dns.Reader.{parse}
use air_show.MdnsResponder.State.{
  Iface, Datagram, Group, Core, Sent, group, Service, write_all, send_to, multicast_all,
  find_service, host,
}
use air_show.MdnsResponder.Packets.{to_packets}
use air_show.MdnsResponder.Probing.{
  begin_probing, idle, probe, go_live, turn, turned, host_probe, send_host_probe, start_host,
  step_host, step_services, probe_tick, start_service, is_probing,
}
use air_show.MdnsResponder.Probing.Progress.{step_services-host}
use air_show.MdnsResponder.Services.{
  add_service, rename_all, update_txt, update_service, update_services, shutdown,
}
use air_show.MdnsResponder.Interfaces.{
  NetworkInterface, rescan_interfaces, adopt, is_own_address, iface_for, all_addresses,
}
use air_show.MdnsResponder.Conflicts.{
  resolve_simultaneous_probe, on_host_conflict, on_service_conflicts, handle_response, gives_way,
  find_conflicts,
}
use air_show.MdnsResponder.Records.{current_records, host_fqdn, host_probe_records}
use air_show.MdnsResponder.Answers.{
  answers_to, response_to, answer_query, handle_query, send_response, Answering, legacy,
}
use air_show.MdnsResponder.Quiet.{
  send_to-Quiet, start_host-Quiet, start_service-Quiet, goodbyes-Quiet, fire-Quiet,
}
use air_show.MdnsResponder.Machine.{
  created, start, take_timer, Event, ticked, timed_out, rescanned, received, advertised, renamed,
  updated, stopped, read_datagram, apply, run,
}

-- The packets of a message that goes to the group over each of the interfaces.
abbrev pub group_packets : (Iface → Message) → List Iface → List Sent
group_packets m [] = []
group_packets m (i ∷ is) = write_all (group i) (to_packets (m i)) ++ group_packets m is

-- A history that leads to this state, in which so many probes for the host name went out over all the
-- interfaces since probing for the name began last; the name is announced behind the third one only.
pub data HostProbes : ℕ → Core → Type 0 where
  begun : (port : ℕ) (label : Bytes) → HostProbes 0 (created port label)
  stays : {n : ℕ} (c d : Core) → HostProbes n c → d.host ≡ c.host → HostProbes n d
  bumped :
      {n : ℕ} (c d : Core)
      → HostProbes n c
      → c.host.announced ≡ true
      → d.host ≡ record c.host { generation = suc c.host.generation }
      → HostProbes n d
  restarted :
      {n : ℕ} (c d : Core)
      → HostProbes n c
      → d.host.announced ≡ false
      → d.host.generation ≡ suc c.host.generation
      → HostProbes 0 d
  probed :
      {n : ℕ} (c d : Core)
      → HostProbes n c
      → c.host.announced ≡ false
      → d.host.announced ≡ false
      → d.host.generation ≡ c.host.generation
      → d.sent ≡ c.sent ++ group_packets (host_probe c) c.ifaces
      → HostProbes (suc n) d
  live :
      (c d : Core) → HostProbes 3 c → d.host ≡ record c.host { announced = true } → HostProbes 3 d

-- The counter of the group is the number of these probes.
pub record Counted (c : Core) : Type 0 where
  pub history : HostProbes c.host.probes_sent c
  pub at_most : c.host.probes_sent ≤ 3
  pub announced : c.host.announced ≡ true → c.host.probes_sent ≡ 3

pub recount : {n m : ℕ} (c : Core) → n ≡ m → HostProbes n c → HostProbes m c
recount c e h = rw⁻¹ e h

pub stays-Counted : (c d : Core) → d.host ≡ c.host → Counted c → Counted d
stays-Counted c d e h = record {
  history = recount d (ap (λ g. g.probes_sent) (sym e)) (stays c d h.history e);
  at_most = omega (arith, h.at_most, ap (λ g. g.probes_sent) e);
  announced = λ a. ap (λ g. g.probes_sent) e ∙ h.announced (ap (λ g. g.announced) (sym e) ∙ a);
}

multicast_all-sent :
    (m : Iface → Message) (is : List Iface) (c : Core)
    → (multicast_all m is c).sent ≡ c.sent ++ group_packets m is
unfolding multicast_all send_to
multicast_all-sent m [] c = sym (append-nil c.sent)
multicast_all-sent m (i ∷ is) c =
    multicast_all-sent m is (send_to (m i) (group i) c)
    ∙ append_assoc c.sent (write_all (group i) (to_packets (m i))) (group_packets m is)

turn-cases :
    (now : ℕ) (g : Group)
    → (turn now g true ≡ idle)
      ⊎ ((turn now g true ≡ probe) × (g.announced ≡ false) × (g.probes_sent ≤ 2))
      ⊎ ((turn now g true ≡ go_live) × (3 ≤ g.probes_sent))
unfolding turn
turn-cases now g = ground arith

step_host-Counted : (now : ℕ) (c : Core) → Counted c → Counted (step_host now c)
unfolding step_host turned send_host_probe
step_host-Counted now c h = elim (turn-cases now c.host) [
  | inl e ↦ rw (e, step_host) h
  | inr (inl (e, waits, few)) ↦
      rw (e, step_host)
        (let d = record (send_host_probe c) { host = turned now probe c.host } in
          record {
            history =
                probed c d h.history waits waits refl
                  (multicast_all-sent (host_probe c) c.ifaces c);
            at_most = omega (arith, few);
            announced = λ a. absurd (ground (arith, a, waits));
          })
  | inr (inr (e, many)) ↦
      rw (e, step_host)
        (let d = record c { host = turned now go_live c.host } in
          let three : c.host.probes_sent ≡ 3 = omega (arith, many, h.at_most) in
          let old : HostProbes 3 c = recount c three h.history in
          stays-Counted d (start_host d) (start_host-Quiet d).host (record {
            history = recount d (sym three) (live c d old refl);
            at_most = h.at_most;
            announced = λ a. three;
          }))
]

timer-host :
    (b : Bool) (d : Core) → (if b then d else record d { probe_timer = false }).host ≡ d.host
timer-host true d = refl
timer-host false d = refl

pub probe_tick-Counted : (now : ℕ) (c : Core) → Counted c → Counted (probe_tick now c)
unfolding probe_tick
probe_tick-Counted now c h =
    let d = step_host now c in
    stays-Counted d (probe_tick now c)
      (timer-host (not c.host.announced || any is_probing c.services)
          (step_services now c.services d)
        ∙ step_services-host now c.services d)
      (step_host-Counted now c h)

pub Counted-either : (b : Bool) (c d : Core) → Counted c → Counted d → Counted (if b then c else d)
Counted-either true c d h k = h
Counted-either false c d h k = k

Counted-both :
    (b : Bool) (c d : Core) → (b ≡ true → Counted c) → Counted d → Counted (if b then c else d)
Counted-both true c d h k = h refl
Counted-both false c d h k = k

-- A state in which the host begins to probe again.
pub restarted-Counted :
    (now delay : ℕ) (c d : Core) → d.host ≡ begin_probing now delay c.host → Counted c → Counted d
unfolding begin_probing
restarted-Counted now delay c d e h = record {
  history =
      recount d (ap (λ g. g.probes_sent) (sym e))
        (restarted c d h.history (ap (λ g. g.announced) e) (ap (λ g. g.generation) e));
  at_most = omega (arith, ap (λ g. g.probes_sent) e);
  announced = λ a. absurd (ground (arith, a, ap (λ g. g.announced) e));
}

pub adopt-Counted :
    (changed : Bool) (found : List Iface) (joined : List ℕ) (c : Core)
    → Counted c
    → Counted (adopt changed found joined c)
unfolding adopt
adopt-Counted changed found joined c h =
    let updated = record c {
      ifaces = found;
      own_addresses = all_addresses found;
      joined = joined;
    } in
    let d = record updated { host = record c.host { generation = suc c.host.generation } } in
    Counted-both (changed && c.host.announced) (start_host d) updated
      (λ yes.
        let was : c.host.announced ≡ true = ground (arith, yes) in
        stays-Counted d (start_host d) (start_host-Quiet d).host (record {
          history = bumped c d h.history was refl;
          at_most = h.at_most;
          announced = h.announced;
        }))
      (stays-Counted c updated refl h)
