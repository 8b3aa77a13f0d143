-- ===== src/MdnsResponder/Conflicts/Response.antt =====
-- What a response of another device does to the host name.
use air_show.Prelude.{
  ◌≡◌, refl, ◌∙◌, ap, ℕ, suc, Bool, true, false, not, ◌&&◌, ◌||◌, List, [], ◌∷◌, ◌++◌,
  if◌then◌else◌, ◌==◌, any, inl, inr, Bool-cases, Option-cases,
}
use air_show.Dns.Message.{Record, Message}
use air_show.MdnsResponder.State.{Datagram, Core, find_service}
use air_show.MdnsResponder.Probing.{begin_probing}
use air_show.MdnsResponder.Interfaces.{is_own_address}
use air_show.MdnsResponder.Conflicts.{
  Conflicts, host_clashes, find_conflicts, on_host_conflict, on_service_conflicts, handle_response,
}

-- A record that is not being withdrawn and gives our name an address that is none of ours.
abbrev pub takes_name : Core → Record → Bool
takes_name c r = not (r.ttl == 0) && host_clashes c r

or_assoc : (a b c : Bool) → ((a || b) || c) ≡ (a || (b || c))
or_assoc true b c = refl
or_assoc false b c = refl

or-false : (a : Bool) → a ≡ (a || false)
or-false true = refl
or-false false = refl

any-append : (p : Record → Bool) (xs ys : List Record) → (any p xs || any p ys) ≡ any p (xs ++ ys)
any-append p [] ys = refl
any-append p (x ∷ xs) ys =
    or_assoc (p x) (any p xs) (any p ys) ∙ ap (λ b. p x || b) (any-append p xs ys)

-- One record of the loop.
round-host :
    (c : Core) (r : Record) (ids : List ℕ) (found : Conflicts)
    → (if r.ttl == 0
        then found
        else record { host = found.host || host_clashes c r; services = ids }).host
      ≡ (found.host || takes_name c r)
round-host c r ids found = elim (Bool-cases (r.ttl == 0)) [
  | inl e ↦ rw e (or-false found.host)
  | inr e ↦ rw e refl
]

find_conflicts-host :
    (c : Core) (rs : List Record) (found : Conflicts)
    → (find_conflicts c rs found).host ≡ (found.host || any (takes_name c) rs)
unfolding find_conflicts
find_conflicts-host c [] found = or-false found.host
find_conflicts-host c (r ∷ rs) found =
    find_conflicts-host c rs _
    ∙ ap (λ b. b || any (takes_name c) rs) (round-host c r _ found)
    ∙ or_assoc found.host (takes_name c r) (any (takes_name c) rs)

taken :
    (c : Core) (answers additionals : List Record)
    → (find_conflicts c additionals
        (find_conflicts c answers (record { host = false; services = [] }))).host
      ≡ any (takes_name c) (answers ++ additionals)
taken c answers additionals =
    find_conflicts-host c additionals _
    ∙ ap (λ b. b || any (takes_name c) additionals) (find_conflicts-host c answers _)
    ∙ any-append (takes_name c) answers additionals

on_service_conflicts-host :
    (now : ℕ) (ids : List ℕ) (c : Core)
    → ((on_service_conflicts now ids c).host ≡ c.host)
      × ((on_service_conflicts now ids c).host_suffix ≡ c.host_suffix)
unfolding on_service_conflicts
on_service_conflicts-host now [] c = (refl, refl)
on_service_conflicts-host now (id ∷ ids) c = elim (Option-cases (find_service id c.services)) [
  | inl e ↦ rw (e, on_service_conflicts) (on_service_conflicts-host now ids c)
  | inr (s, e) ↦ rw (e, on_service_conflicts) (on_service_conflicts-host now ids _)
]

conflict-host :
    (now : ℕ) (ids : List ℕ) (c : Core) (b : Bool)
    → ((on_service_conflicts now ids (if b then on_host_conflict now c else c)).host
        ≡ (if b then begin_probing now 0 c.host else c.host))
      × ((on_service_conflicts now ids (if b then on_host_conflict now c else c)).host_suffix
          ≡ (if b && not c.host.announced then suc c.host_suffix else c.host_suffix))
unfolding on_host_conflict
conflict-host now ids c false = on_service_conflicts-host now ids c
conflict-host now ids c true = (
  (on_service_conflicts-host now ids (on_host_conflict now c)).0,
  (on_service_conflicts-host now ids (on_host_conflict now c)).1 ∙ flip c.host.announced,
)
  where
    flip :
        (b : Bool)
        → (if b then c.host_suffix else suc c.host_suffix)
          ≡ (if not b then suc c.host_suffix else c.host_suffix)
    flip true = refl
    flip false = refl

-- A response is ignored that comes from an address of our own; of any other the host probes for its
-- name again if and only if some record takes the name, once however many do, and takes the next name
-- if it had not announced this one.
pub handle_response-host :
    (now : ℕ) (m : Message) (dg : Datagram) (c : Core)
    → ((handle_response now m dg c).host ≡ (
        if not (is_own_address dg.sender c) && any (takes_name c) (m.answers ++ m.additionals)
        then begin_probing now 0 c.host
        else c.host))
      × ((handle_response now m dg c).host_suffix ≡ (
          if not (is_own_address dg.sender c)
            && any (takes_name c) (m.answers ++ m.additionals)
            && not c.host.announced
          then suc c.host_suffix
          else c.host_suffix))
unfolding handle_response
handle_response-host now m dg c = elim (Bool-cases (is_own_address dg.sender c)) [
  | inl e ↦ rw (e, handle_response) (refl, refl)
  | inr e ↦
      rw (e, handle_response) (rw⁻¹ (taken c m.answers m.additionals) (conflict-host now _ c _))
]
