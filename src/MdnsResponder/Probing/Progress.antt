-- ===== src/MdnsResponder/Probing/Progress.antt =====
-- How long probing takes, at least and at most.
use air_show.Prelude.{
  leb, ◌⊎◌, ◌≡◌, refl, ◌∙◌, ap, ℕ, zero, suc, ◌+◌, ◌-◌, ◌*◌, ◌≤◌, Bool, true, false, List, [], ◌∷◌,
  arith, ltb, if◌then◌else◌, inl, inr, Bool-cases, any, not, ◌||◌,
}
use air_show.MdnsResponder.State.{Group, new_group, Service, Core, set_service}
use air_show.MdnsResponder.Probing.{
  begin_probing, probe_count, Turn, idle, probe, go_live, turn, turned, step_host, step_service,
  step_services, probe_tick, is_probing,
}
use air_show.MdnsResponder.Quiet.{start_host-Quiet, send_service_probe-Quiet, start_service-Quiet}

-- What a tick makes of a group that may be announced.
abbrev pub advance : ℕ → Group → Group
advance now g = turned now (turn now g true) g

pub Turn-cases : (t : Turn) → (t ≡ idle) ⊎ (t ≡ probe) ⊎ (t ≡ go_live)
Turn-cases idle = inl refl
Turn-cases probe = inr (inl refl)
Turn-cases go_live = inr (inr refl)

pub step_host-advance : (now : ℕ) (c : Core) → (step_host now c).host ≡ advance now c.host
unfolding step_host turned
step_host-advance now c = elim (Turn-cases (turn now c.host true)) [
  | inl e ↦ rw (e, step_host) refl
  | inr (inl e) ↦ rw (e, step_host) refl
  | inr (inr e) ↦
      rw (e, step_host) (start_host-Quiet (record c { host = turned now go_live c.host })).host
]

pub step_service-host : (now : ℕ) (s : Service) (c : Core) → (step_service now s c).host ≡ c.host
unfolding step_service
step_service-host now s c = elim (Turn-cases (turn now s.group c.host.announced)) [
  | inl e ↦ rw (e, step_service) refl
  | inr (inl e) ↦ rw (e, step_service) (send_service_probe-Quiet s c).host
  | inr (inr e) ↦
      rw (e, step_service)
        (start_service-Quiet s.id (record c {
          services = set_service s.id (record s { group = turned now go_live s.group }) c.services;
        })).host
]

pub step_services-host :
    (now : ℕ) (ss : List Service) (c : Core) → (step_services now ss c).host ≡ c.host
unfolding step_services
step_services-host now [] c = refl
step_services-host now (s ∷ ss) c = step_services-host now ss _ ∙ step_service-host now s c

pub probe_tick-advance : (now : ℕ) (c : Core) → (probe_tick now c).host ≡ advance now c.host
unfolding probe_tick
probe_tick-advance now c =
    either (not c.host.announced || any is_probing c.services)
      (step_services now c.services (step_host now c))
    ∙ step_services-host now c.services (step_host now c)
    ∙ step_host-advance now c
  where
    either :
        (b : Bool) (d : Core) → (if b then d else record d { probe_timer = false }).host ≡ d.host
    either true d = refl
    either false d = refl

-- Ticks, 25 ms apart.
abbrev pub tick_interval : ℕ
tick_interval = 25

abbrev pub ticks : ℕ → ℕ → Core → Core
ticks zero now c = c
ticks (suc n) now c = ticks n (now + tick_interval) (probe_tick now c)

abbrev advances : ℕ → ℕ → Group → Group
advances zero now g = g
advances (suc n) now g = advances n (now + tick_interval) (advance now g)

ticks-advances : (n now : ℕ) (c : Core) → (ticks n now c).host ≡ advances n now c.host
ticks-advances zero now c = refl
ticks-advances (suc n) now c =
    ticks-advances n (now + tick_interval) (probe_tick now c)
    ∙ ap (advances n (now + tick_interval)) (probe_tick-advance now c)

pub advance-done : (now : ℕ) (g : Group) → g.announced ≡ true → turn now g true ≡ idle
unfolding turn
advance-done now g h = ground (arith, h)

advance-early :
    (now : ℕ) (g : Group)
    → g.announced ≡ false
    → ltb now g.next_probe_at ≡ true
    → turn now g true ≡ idle
unfolding turn
advance-early now g h k = ground (arith, h)

advance-probe :
    (now : ℕ) (g : Group)
    → g.announced ≡ false
    → ltb now g.next_probe_at ≡ false
    → ltb g.probes_sent probe_count ≡ true
    → turn now g true ≡ probe
unfolding turn
advance-probe now g h k l = ground (arith, h)

advance-go_live :
    (now : ℕ) (g : Group)
    → g.announced ≡ false
    → ltb now g.next_probe_at ≡ false
    → ltb g.probes_sent probe_count ≡ false
    → turn now g true ≡ go_live
unfolding turn
advance-go_live now g h k l = ground (arith, h)

advances-by :
    (n now : ℕ) (g : Group) (t : Turn)
    → turn now g true ≡ t
    → (advances n (now + tick_interval) (turned now t g)).announced ≡ true
    → (advances (suc n) now g).announced ≡ true
advances-by n now g t e h =
    ap (λ x. (advances n (now + tick_interval) (turned now x g)).announced) e ∙ h

advances-announced :
    (n now : ℕ) (g : Group) → g.announced ≡ true → (advances n now g).announced ≡ true
unfolding turned
advances-announced zero now g h = h
advances-announced (suc n) now g h =
    advances-by n now g idle (advance-done now g h) (advances-announced n (now + tick_interval) g h)

-- With the next probe due by a deadline, the ticks are enough.
advances-finish :
    (n now deadline : ℕ) (g : Group)
    → g.next_probe_at ≤ deadline
    → now ≤ deadline + 24
    → deadline + 275 * (probe_count - g.probes_sent) + 25 ≤ now + 25 * n
    → (advances n now g).announced ≡ true
unfolding turned
advances-finish zero now deadline g due late enough = absurd (omega arith)
advances-finish (suc n) now deadline g due late enough = elim (Bool-cases g.announced) [
  | inl e ↦ advances-announced (suc n) now g e
  | inr fresh ↦ elim (Bool-cases (ltb now g.next_probe_at)) [
    | inl early ↦
        advances-by n now g idle (advance-early now g fresh early)
          (advances-finish n (now + 25) deadline g due (ground arith) (ground arith))
    | inr on_time ↦ elim (Bool-cases (ltb g.probes_sent probe_count)) [
      | inl more ↦ advances-by n now g probe (advance-probe now g fresh on_time more) (
          advances-finish n (now + 25) (deadline + 275) (turned now probe g) (ground arith)
            (ground arith) (ground arith))
      | inr done ↦
          advances-by n now g go_live (advance-go_live now g fresh on_time done)
            (advances-announced n (now + 25) (turned now go_live g) refl)
    ]
  ]
]

-- A host whose probing begins `delay` after `start`, and whose name nobody contests, is announced by
-- ticks 25 ms apart, the first of them in time for the first probe, that go on for 825 ms behind it.
pub ticks-announced :
    (n now start delay : ℕ) (c : Core)
    → c.host ≡ begin_probing start delay new_group
    → now ≤ start + delay
    → start + delay + 825 ≤ now + tick_interval * n - tick_interval
    → (ticks n now c).host.announced ≡ true
unfolding begin_probing
ticks-announced n now start delay c fresh late enough =
    ap (λ g. g.announced) (ticks-advances n now c)
    ∙ rw fresh (
        advances-finish n now (start + delay) (begin_probing start delay new_group) (omega arith)
          (omega arith) (omega arith))

-- Ticks at any times.
abbrev pub ticks_at : List ℕ → Core → Core
ticks_at [] c = c
ticks_at (now ∷ times) c = ticks_at times (probe_tick now c)

abbrev pub has_from : ℕ → List ℕ → Bool
has_from t times = any (λ now. leb t now) times

advance-waits :
    (now from : ℕ) (g : Group)
    → g.announced ≡ false
    → from + 250 * g.probes_sent ≤ g.next_probe_at
    → ((advance now g).announced ≡ true × from + 750 ≤ now)
      ⊎ ((advance now g).announced ≡ false
          × from + 250 * (advance now g).probes_sent ≤ (advance now g).next_probe_at)
unfolding turn turned
advance-waits now from g h k = elim (Bool-cases (ltb now g.next_probe_at)) [
  | inl early ↦ rw (advance-early now g h early) (inr (h, k))
  | inr on_time ↦ elim (Bool-cases (ltb g.probes_sent probe_count)) [
    | inl more ↦ rw (advance-probe now g h on_time more) (inr (h, ground arith))
    | inr done ↦ rw (advance-go_live now g h on_time done) (inl (refl, ground arith))
  ]
]

probing-takes :
    (times : List ℕ) (from : ℕ) (c : Core)
    → c.host.announced ≡ false
    → from + 250 * c.host.probes_sent ≤ c.host.next_probe_at
    → (ticks_at times c).host.announced ≡ true
    → has_from (from + 750) times ≡ true
probing-takes [] from c h k announced = absurd (ground arith)
probing-takes (now ∷ times) from c h k announced = elim (advance-waits now from c.host h k) [
  | inl (live, late) ↦ ground (arith, late)
  | inr (waits, next) ↦ ground (
    arith,
    probing-takes times from (probe_tick now c)
        (ap (λ g. g.announced) (probe_tick-advance now c) ∙ waits)
        (rw (probe_tick-advance now c) next) announced,
  )
]

-- A host that has begun to probe at a time is not announced by any ticks, at whatever times they
-- come, before one that comes 750 ms or more behind that time.
pub ticks-wait :
    (times : List ℕ) (start delay : ℕ) (g : Group) (c : Core)
    → c.host ≡ begin_probing start delay g
    → (ticks_at times c).host.announced ≡ true
    → has_from (start + delay + 750) times ≡ true
unfolding begin_probing
ticks-wait times start delay g c fresh announced =
    probing-takes times (start + delay) c (rw fresh refl) (rw fresh (omega arith)) announced
