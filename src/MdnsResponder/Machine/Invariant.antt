-- ===== src/MdnsResponder/Machine/Invariant.antt =====
-- What holds of the responder's groups whatever happens.
use air_show.Prelude.{
  ◌⊎◌, ◌≡◌, refl, ℕ, suc, ◌≤◌, ◌<◌, Bool, true, false, List, [], ◌∷◌, if◌then◌else◌, All, arith,
  inl, inr,
}
use air_show.MdnsResponder.State.{Group, Service, Core, set_service}
use air_show.MdnsResponder.Probing.{
  begin_probing, probe_count, Turn, idle, probe, go_live, turn, turned, step_host, step_service,
}
use air_show.MdnsResponder.Quiet.{
  Quiet, start_host-Quiet, send_host_probe-Quiet, send_service_probe-Quiet, start_service-Quiet,
}

-- A group has sent at most three probes, and three when it is announced.
pub record IsProbed (g : Group) : Type 0 where
  pub at_most : g.probes_sent ≤ probe_count
  pub announced : g.announced ≡ true → g.probes_sent ≡ probe_count

-- The services' numbers ascend.
abbrev pub Ascending : ℕ → List Service → Type 0
Ascending from [] = Unit
Ascending from (s ∷ ss) = (from ≤ s.id) × Ascending (suc s.id) ss

abbrev pub IsService : ℕ → Service → Type 0
IsService next_id s = IsProbed s.group × (s.id < next_id)

pub record IsValid (g : Group) (ss : List Service) (next_id : ℕ) : Type 0 where
  pub host : IsProbed g
  pub services : All (IsService next_id) ss
  pub ids : Ascending 0 ss

abbrev pub WellFormed : Core → Type 0
WellFormed c = IsValid c.host c.services c.next_id

pub Quiet-WellFormed : (c d : Core) → Quiet c d → WellFormed c → WellFormed d
Quiet-WellFormed c d q h = rw (q.host, q.services, q.next_id) h

pub begin_probing-IsProbed : (now delay : ℕ) (g : Group) → IsProbed (begin_probing now delay g)
unfolding begin_probing
begin_probing-IsProbed now delay g = record {
  at_most = omega arith;
  announced = λ e. absurd (ground arith);
}

Turn-cases :
    (now : ℕ) (g : Group) (can : Bool)
    → (turn now g can ≡ idle)
      ⊎ ((turn now g can ≡ probe) × (g.probes_sent < probe_count))
      ⊎ ((turn now g can ≡ go_live) × (probe_count ≤ g.probes_sent))
unfolding turn
Turn-cases now g can = ground arith

turned-IsProbed :
    (now : ℕ) (t : Turn) (g : Group) (can : Bool)
    → turn now g can ≡ t
    → IsProbed g
    → IsProbed (turned now t g)
unfolding turned turn
turned-IsProbed now idle g can e h = h
turned-IsProbed now probe g can e h = record {
  at_most = ground (arith, e);
  announced = λ a. absurd (ground (arith, e, h.announced a));
}
turned-IsProbed now go_live g can e h = record {
  at_most = h.at_most;
  announced = λ a. ground (arith, e, h.at_most);
}

set_service-All :
    (P : Service → Type 0) (id : ℕ) (v : Service) (ss : List Service)
    → P v
    → All P ss
    → All P (set_service id v ss)
unfolding set_service
set_service-All P id v [] p h = tt
set_service-All P id v (s ∷ ss) p h = ground (arith, p, h, set_service-All P id v ss p)

set_service-Ascending :
    (id : ℕ) (v : Service) (ss : List Service) (from : ℕ)
    → v.id ≡ id
    → Ascending from ss
    → Ascending from (set_service id v ss)
unfolding set_service
set_service-Ascending id v [] from e h = tt
set_service-Ascending id v (s ∷ ss) from e h =
    ground (arith, e, h, set_service-Ascending id v ss (suc s.id) e)

pub set_service-IsValid :
    (id : ℕ) (v : Service) (g : Group) (ss : List Service) (next_id : ℕ)
    → v.id ≡ id
    → IsService next_id v
    → IsValid g ss next_id
    → IsValid g (set_service id v ss) next_id
set_service-IsValid id v g ss next_id same ok h = record {
  host = h.host;
  services = set_service-All (IsService next_id) id v ss ok h.services;
  ids = set_service-Ascending id v ss 0 same h.ids;
}

-- A step that keeps the state well-formed and hands out no number.
pub record Kept (c d : Core) : Type 0 where
  pub valid : WellFormed d
  pub next_id : d.next_id ≡ c.next_id

pub Quiet-Kept : (c d : Core) → Quiet c d → WellFormed c → Kept c d
Quiet-Kept c d q h = record { valid = Quiet-WellFormed c d q h; next_id = q.next_id }

pub Kept-either : (b : Bool) (c d e : Core) → Kept c d → Kept c e → Kept c (if b then d else e)
Kept-either true c d e h k = h
Kept-either false c d e h k = k

pub step_host-Kept : (now : ℕ) (c : Core) → WellFormed c → Kept c (step_host now c)
unfolding step_host
step_host-Kept now c h = elim (Turn-cases now c.host true) [
  | inl e ↦ rw (e, step_host) (record { valid = h; next_id = refl })
  | inr (inl (e, few)) ↦
      rw (e, step_host)
        (let q = send_host_probe-Quiet c in
          record {
            valid =
                rw (q.services, q.next_id)
                  (record {
                    host = turned-IsProbed now probe c.host true e h.host;
                    services = h.services;
                    ids = h.ids;
                  });
            next_id = q.next_id;
          })
  | inr (inr (e, many)) ↦
      rw (e, step_host)
        (let d = record c { host = turned now go_live c.host } in
          let q = start_host-Quiet d in
          record {
            valid = Quiet-WellFormed d _ q (record {
              host = turned-IsProbed now go_live c.host true e h.host;
              services = h.services;
              ids = h.ids;
            });
            next_id = q.next_id;
          })
]

pub step_service-Kept :
    (now : ℕ) (s : Service) (c : Core)
    → IsService c.next_id s
    → WellFormed c
    → Kept c (step_service now s c)
unfolding step_service
step_service-Kept now s c ok h = elim (Turn-cases now s.group c.host.announced) [
  | inl e ↦ rw (e, step_service) (record { valid = h; next_id = refl })
  | inr (inl (e, few)) ↦
      rw (e, step_service)
        (let q = send_service_probe-Quiet s c in
          record {
            valid =
                rw (q.host, q.next_id)
                  (set_service-IsValid s.id (record s { group = turned now probe s.group }) c.host
                    c.services c.next_id refl
                    (turned-IsProbed now probe s.group c.host.announced e ok.0, ok.1) h);
            next_id = q.next_id;
          })
  | inr (inr (e, many)) ↦
      rw (e, step_service)
        (let v = record s { group = turned now go_live s.group } in
          let d = record c { services = set_service s.id v c.services } in
          let q = start_service-Quiet s.id d in
          record {
            valid = Quiet-WellFormed d _ q (
                set_service-IsValid s.id v c.host c.services c.next_id refl
                  (turned-IsProbed now go_live s.group c.host.announced e ok.0, ok.1) h);
            next_id = q.next_id;
          })
]

pub WellFormed-either :
    (b : Bool) (c d : Core) → WellFormed c → WellFormed d → WellFormed (if b then c else d)
WellFormed-either true c d h k = h
WellFormed-either false c d h k = k
