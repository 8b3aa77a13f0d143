-- ===== src/MdnsResponder/Quiet.antt =====
-- What sending leaves alone: everything but the socket's output and the timers.
use air_show.Prelude.{
  ◌≡◌, refl, ◌∙◌, ℕ, Bool, true, false, List, [], ◌∷◌, none, some, if◌then◌else◌, inl, inr,
  Option-cases,
}
use air_show.Dns.Message.{Message}
use air_show.MdnsResponder.State.{
  Service, Iface, Action, announce_host, announce_service, reply, Destination, Core, send_to,
  multicast_all, single_shot, find_service, iface_by_index,
}
use air_show.MdnsResponder.Probing.{
  fire, repeat, start_service, start_services, start_host, send_host_probe, send_service_probe,
  host_probe, service_probe, host_announcement, service_announcement,
}
use air_show.MdnsResponder.Services.{goodbye, send_goodbye, goodbyes}

-- The two states differ at most in what has been sent and in the timers.
pub record Quiet (c d : Core) : Type 0 where
  pub host_suffix : d.host_suffix ≡ c.host_suffix
  pub host : d.host ≡ c.host
  pub services : d.services ≡ c.services
  pub next_id : d.next_id ≡ c.next_id

pub Quiet-refl : (c : Core) → Quiet c c
Quiet-refl c = record { host_suffix = refl; host = refl; services = refl; next_id = refl }

pub Quiet-trans : {c d e : Core} → Quiet c d → Quiet d e → Quiet c e
Quiet-trans h k = record {
  host_suffix = k.host_suffix ∙ h.host_suffix;
  host = k.host ∙ h.host;
  services = k.services ∙ h.services;
  next_id = k.next_id ∙ h.next_id;
}

Quiet-either : (b : Bool) (c d e : Core) → Quiet c d → Quiet c e → Quiet c (if b then d else e)
Quiet-either true c d e h k = h
Quiet-either false c d e h k = k

pub send_to-Quiet : (m : Message) (to : Destination) (c : Core) → Quiet c (send_to m to c)
unfolding send_to
send_to-Quiet m to c = record { host_suffix = refl; host = refl; services = refl; next_id = refl }

pub single_shot-Quiet :
    (delay : ℕ) (action : Action) (c : Core) → Quiet c (single_shot delay action c)
single_shot-Quiet delay action c = record {
  host_suffix = refl;
  host = refl;
  services = refl;
  next_id = refl;
}

pub multicast_all-Quiet :
    (m : Iface → Message) (is : List Iface) (c : Core) → Quiet c (multicast_all m is c)
unfolding multicast_all
multicast_all-Quiet m [] c = Quiet-refl c
multicast_all-Quiet m (i ∷ is) c =
    Quiet-trans (send_to-Quiet (m i) _ c) (multicast_all-Quiet m is _)

pub fire-Quiet : (action : Action) (c : Core) → Quiet c (fire action c)
unfolding fire
fire-Quiet (announce_host generation) c =
    Quiet-either _ c _ _ (Quiet-refl c) (multicast_all-Quiet (host_announcement c) c.ifaces c)
fire-Quiet (announce_service id generation) c = elim (Option-cases (find_service id c.services)) [
  | inl e ↦ rw (e, fire) (Quiet-refl c)
  | inr (s, e) ↦
      rw (e, fire)
        (Quiet-either _ c _ _ (Quiet-refl c)
          (multicast_all-Quiet (service_announcement c s) c.ifaces c))
]
fire-Quiet (reply resp from port unicast none) c =
    Quiet-either unicast c _ _ (send_to-Quiet resp _ c) (multicast_all-Quiet (λ i. resp) c.ifaces c)
fire-Quiet (reply resp from port unicast (some index)) c =
    Quiet-either unicast c _ _ (send_to-Quiet resp _ c)
      (elim (Option-cases (iface_by_index index c.ifaces)) [
        | inl e ↦ rw e (multicast_all-Quiet (λ i. resp) c.ifaces c)
        | inr (i, e) ↦ rw e (send_to-Quiet resp _ c)
      ])

repeat-Quiet : (action : Action) (c : Core) → Quiet c (repeat action c)
unfolding repeat
repeat-Quiet action c =
    Quiet-trans (fire-Quiet action c)
      (Quiet-trans (single_shot-Quiet 1000 action _) (single_shot-Quiet 3000 action _))

pub start_service-Quiet : (id : ℕ) (c : Core) → Quiet c (start_service id c)
unfolding start_service
start_service-Quiet id c = elim (Option-cases (find_service id c.services)) [
  | inl e ↦ rw (e, start_service) (Quiet-refl c)
  | inr (s, e) ↦ rw (e, start_service) (repeat-Quiet (announce_service id s.group.generation) c)
]

start_services-Quiet : (ss : List Service) (c : Core) → Quiet c (start_services ss c)
unfolding start_services
start_services-Quiet [] c = Quiet-refl c
start_services-Quiet (s ∷ ss) c =
    Quiet-trans (Quiet-either s.group.announced c _ _ (start_service-Quiet s.id c) (Quiet-refl c))
      (start_services-Quiet ss _)

pub start_host-Quiet : (c : Core) → Quiet c (start_host c)
unfolding start_host
start_host-Quiet c =
    Quiet-trans (repeat-Quiet (announce_host c.host.generation) c)
      (start_services-Quiet c.services _)

pub send_host_probe-Quiet : (c : Core) → Quiet c (send_host_probe c)
unfolding send_host_probe
send_host_probe-Quiet c = multicast_all-Quiet (host_probe c) c.ifaces c

pub send_service_probe-Quiet : (s : Service) (c : Core) → Quiet c (send_service_probe s c)
unfolding send_service_probe
send_service_probe-Quiet s c = multicast_all-Quiet (service_probe c s) c.ifaces c

pub goodbyes-Quiet : (ss : List Service) (c : Core) → Quiet c (goodbyes ss c)
unfolding goodbyes send_goodbye
goodbyes-Quiet [] c = Quiet-refl c
goodbyes-Quiet (s ∷ ss) c =
    Quiet-trans
      (Quiet-either s.group.announced c (send_goodbye s c) c
        (multicast_all-Quiet (goodbye c s) c.ifaces c) (Quiet-refl c))
      (goodbyes-Quiet ss _)
