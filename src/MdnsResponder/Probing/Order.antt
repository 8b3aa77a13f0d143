-- ===== src/MdnsResponder/Probing/Order.antt =====
-- A tick announces no service before the host name that its SRV record points at.
use air_show.Prelude.{
  ◌≡◌, refl, ◌∙◌, sym, ap, ℕ, Bool, true, false, not, ◌&&◌, ◌||◌, ◌==◌, List, [], ◌∷◌, All, arith,
  if◌then◌else◌, inl, inr, any,
}
use air_show.MdnsResponder.State.{Group, Service, Core, set_service}
use air_show.MdnsResponder.Probing.{
  probe, go_live, turn, turned, step_host, step_service, step_services, probe_tick, is_probing,
}
use air_show.MdnsResponder.Probing.Progress.{
  Turn-cases, probe_tick-advance, step_host-advance, step_service-host,
}
use air_show.MdnsResponder.Quiet.{start_host-Quiet, send_host_probe-Quiet}

-- The service has another number, or is not announced.
abbrev pub IsSilent : ℕ → Service → Type 0
IsSilent k s = (s.id == k && s.group.announced) ≡ false

step_host-services : (now : ℕ) (c : Core) → (step_host now c).services ≡ c.services
unfolding step_host
step_host-services now c = elim (Turn-cases (turn now c.host true)) [
  | inl e ↦ rw (e, step_host) refl
  | inr (inl e) ↦ rw (e, step_host) (send_host_probe-Quiet c).services
  | inr (inr e) ↦
      rw (e, step_host) (start_host-Quiet (record c { host = turned now go_live c.host })).services
]

pub set_service-IsSilent :
    (k id : ℕ) (v : Service) (ss : List Service)
    → IsSilent k v
    → All (IsSilent k) ss
    → All (IsSilent k) (set_service id v ss)
unfolding set_service
set_service-IsSilent k id v [] p h = tt
set_service-IsSilent k id v (s ∷ ss) p h = ground (arith, p, h, set_service-IsSilent k id v ss p)

not_live : (now : ℕ) (g : Group) → turn now g false ≡ go_live → ⊥
unfolding turn
not_live now g e = ground (arith, e)

step_service-IsSilent :
    (k now : ℕ) (s : Service) (c : Core)
    → c.host.announced ≡ false
    → IsSilent k s
    → All (IsSilent k) c.services
    → All (IsSilent k) (step_service now s c).services
unfolding step_service turned
step_service-IsSilent k now s c waits silent h =
    elim (Turn-cases (turn now s.group c.host.announced)) [
      | inl e ↦ rw (e, step_service) h
      | inr (inl e) ↦
          rw (e, step_service)
            (set_service-IsSilent k s.id (record s { group = turned now probe s.group }) c.services
              silent h)
      | inr (inr e) ↦ absurd (not_live now s.group (ap (turn now s.group) (sym waits) ∙ e))
    ]

step_services-IsSilent :
    (k now : ℕ) (ss : List Service) (c : Core)
    → c.host.announced ≡ false
    → All (IsSilent k) ss
    → All (IsSilent k) c.services
    → All (IsSilent k) (step_services now ss c).services
unfolding step_services
step_services-IsSilent k now [] c waits silent h = h
step_services-IsSilent k now (s ∷ ss) c waits silent h =
    step_services-IsSilent k now ss (step_service now s c)
      (ap (λ g. g.announced) (step_service-host now s c) ∙ waits) silent.1
      (step_service-IsSilent k now s c waits silent.0 h)

either-services :
    (b : Bool) (d : Core)
    → (if b then d else record d { probe_timer = false }).services ≡ d.services
either-services true d = refl
either-services false d = refl

pub probe_tick-IsSilent :
    (k now : ℕ) (c : Core)
    → (probe_tick now c).host.announced ≡ false
    → All (IsSilent k) c.services
    → All (IsSilent k) (probe_tick now c).services
unfolding probe_tick
probe_tick-IsSilent k now c waits silent =
    rw
      (either-services (not c.host.announced || any is_probing c.services)
        (step_services now c.services (step_host now c)))
      (step_services-IsSilent k now c.services (step_host now c)
        (ap (λ g. g.announced) (step_host-advance now c ∙ sym (probe_tick-advance now c)) ∙ waits)
        silent (rw (step_host-services now c) silent))
