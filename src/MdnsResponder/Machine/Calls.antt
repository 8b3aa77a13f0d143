-- ===== src/MdnsResponder/Machine/Calls.antt =====
-- The ticks, the rescan and the queued calls keep the responder well-formed.
use air_show.Prelude.{
  ◌≡◌, refl, ◌∙◌, ℕ, suc, ◌≤◌, Bool, not, ◌&&◌, ◌||◌, List, [], ◌∷◌, ◌++◌, map, same_bytes, Bytes,
  All, All-append, arith, any,
}
use air_show.MdnsResponder.State.{new_group, Service, Core, TxtRecord, Iface}
use air_show.MdnsResponder.Probing.{
  step_host, step_services, probe_tick, start_service, start_host, is_probing,
}
use air_show.MdnsResponder.Services.{
  add_service, rename_all, with_name, update_service, update_services, shutdown,
}
use air_show.MdnsResponder.Interfaces.{NetworkInterface, rescan_interfaces, adopt, all_addresses}
use air_show.MdnsResponder.Quiet.{start_service-Quiet, start_host-Quiet, goodbyes-Quiet}
use air_show.MdnsResponder.Machine.Invariant.{
  IsProbed, Ascending, IsService, WellFormed, begin_probing-IsProbed, set_service-IsValid, Kept,
  Quiet-Kept, Kept-either, step_host-Kept, step_service-Kept,
}

Kept-refl : (c : Core) → WellFormed c → Kept c c
Kept-refl c h = record { valid = h; next_id = refl }

Kept-trans : {c d e : Core} → Kept c d → Kept d e → Kept c e
Kept-trans h k = record { valid = k.valid; next_id = k.next_id ∙ h.next_id }

step_services-Kept :
    (now : ℕ) (ss : List Service) (c : Core)
    → All (IsService c.next_id) ss
    → WellFormed c
    → Kept c (step_services now ss c)
unfolding step_services
step_services-Kept now [] c k h = Kept-refl c h
step_services-Kept now (s ∷ ss) c k h =
    let first = step_service-Kept now s c k.0 h in
    Kept-trans first (step_services-Kept now ss _ (rw (first.next_id) k.1) first.valid)

pub probe_tick-Kept : (now : ℕ) (c : Core) → WellFormed c → Kept c (probe_tick now c)
unfolding probe_tick
probe_tick-Kept now c h =
    let first = step_host-Kept now c h in
    let all = Kept-trans first (
      step_services-Kept now c.services (step_host now c) (rw first.next_id h.services)
        first.valid) in
    Kept-either (not c.host.announced || any is_probing c.services) c _ _ all
      (record { valid = all.valid; next_id = all.next_id })

start_host-Kept : (c d : Core) → WellFormed d → d.next_id ≡ c.next_id → Kept c (start_host d)
start_host-Kept c d h e =
    Kept-trans (record { valid = h; next_id = e })
      (Quiet-Kept d (start_host d) (start_host-Quiet d) h)

start_service-Kept :
    (id : ℕ) (c d : Core) → WellFormed d → d.next_id ≡ c.next_id → Kept c (start_service id d)
start_service-Kept id c d h e =
    Kept-trans (record { valid = h; next_id = e })
      (Quiet-Kept d (start_service id d) (start_service-Quiet id d) h)

adopt-Kept :
    (changed : Bool) (found : List Iface) (joined : List ℕ) (c : Core)
    → WellFormed c
    → Kept c (adopt changed found joined c)
unfolding adopt
adopt-Kept changed found joined c h =
    let scanned = record c {
      ifaces = found;
      own_addresses = all_addresses found;
      joined = joined;
    } in
    let bumped = record scanned { host = record c.host { generation = suc c.host.generation } } in
    Kept-either (changed && c.host.announced) c (start_host bumped) scanned
      (start_host-Kept c bumped
        (record {
          host = record { at_most = h.host.at_most; announced = h.host.announced };
          services = h.services;
          ids = h.ids;
        })
        refl)
      (record { valid = h; next_id = refl })

pub rescan_interfaces-Kept :
    (nets : List NetworkInterface) (c : Core) → WellFormed c → Kept c (rescan_interfaces nets c)
unfolding rescan_interfaces
rescan_interfaces-Kept nets c h = adopt-Kept _ _ _ c h

pub map-IsService :
    (f : Service → Service) (next_id : ℕ) (ss : List Service)
    → ((s : Service) → (f s).id ≡ s.id)
    → ((s : Service) → IsProbed s.group → IsProbed (f s).group)
    → All (IsService next_id) ss
    → All (IsService next_id) (map f ss)
map-IsService f next_id [] same probed h = tt
map-IsService f next_id (s ∷ ss) same probed h =
    ((probed s h.0.0, omega (arith, same s, h.0.1)), map-IsService f next_id ss same probed h.1)

pub map-Ascending :
    (f : Service → Service) (ss : List Service) (from : ℕ)
    → ((s : Service) → (f s).id ≡ s.id)
    → Ascending from ss
    → Ascending from (map f ss)
map-Ascending f [] from same h = tt
map-Ascending f (s ∷ ss) from same h = rw (same s) (h.0, map-Ascending f ss (suc s.id) same h.1)

pub rename_all-WellFormed :
    (name : Bytes) (now : ℕ) (delay : ℕ → ℕ) (c : Core)
    → WellFormed c
    → WellFormed (rename_all name now delay c)
unfolding rename_all
rename_all-WellFormed name now delay c h =
    let q = goodbyes-Quiet c.services c in
    rw (q.host, q.next_id)
      (record {
        host = h.host;
        services =
            map-IsService (with_name name now delay) c.next_id c.services (λ s. refl)
              (λ s p. begin_probing-IsProbed now (delay s.id) s.group) h.services;
        ids = map-Ascending (with_name name now delay) c.services 0 (λ s. refl) h.ids;
      })

more-services :
    (next_id : ℕ) (ss : List Service)
    → All (IsService next_id) ss
    → All (IsService (suc next_id)) ss
more-services next_id [] h = tt
more-services next_id (s ∷ ss) h = ((h.0.0, omega (arith, h.0.1)), more-services next_id ss h.1)

Ascending-snoc :
    (v : Service) (ss : List Service) (from : ℕ)
    → from ≤ v.id
    → All (IsService v.id) ss
    → Ascending from ss
    → Ascending from (ss ++ (v ∷ []))
Ascending-snoc v [] from le h k = (le, tt)
Ascending-snoc v (s ∷ ss) from le h k =
    (k.0, Ascending-snoc v ss (suc s.id) (omega (arith, h.0.1)) h.1 k.1)

pub add_service-WellFormed :
    (type name : Bytes) (port : ℕ) (entries : List TxtRecord) (now delay : ℕ) (c : Core)
    → WellFormed c
    → WellFormed (add_service type name port entries now delay c)
unfolding add_service
add_service-WellFormed type name port entries now delay c h = record {
  host = h.host;
  services =
      All-append (IsService (suc c.next_id)) c.services _
        (more-services c.next_id c.services h.services)
        ((begin_probing-IsProbed now delay new_group, omega arith), tt);
  ids = Ascending-snoc _ c.services 0 (omega arith) h.services h.ids;
}

update_service-Kept :
    (key value : Bytes) (s : Service) (c : Core)
    → IsService c.next_id s
    → WellFormed c
    → Kept c (update_service key value s c)
unfolding update_service
update_service-Kept key value s c k h =
    Kept-either s.group.announced c _ _
      (start_service-Kept s.id c _
        (set_service-IsValid s.id _ c.host c.services c.next_id refl
          (record { at_most = k.0.at_most; announced = k.0.announced }, k.1) h)
        refl)
      (record {
        valid = set_service-IsValid s.id _ c.host c.services c.next_id refl k h;
        next_id = refl;
      })

pub update_services-Kept :
    (type key value : Bytes) (ss : List Service) (c : Core)
    → All (IsService c.next_id) ss
    → WellFormed c
    → Kept c (update_services type key value ss c)
unfolding update_services
update_services-Kept type key value [] c k h = Kept-refl c h
update_services-Kept type key value (s ∷ ss) c k h =
    let first =
      Kept-either (same_bytes s.type type) c _ _ (update_service-Kept key value s c k.0 h)
        (Kept-refl c h) in
    Kept-trans first (update_services-Kept type key value ss _ (rw (first.next_id) k.1) first.valid)

pub shutdown-WellFormed : (c : Core) → WellFormed c → WellFormed (shutdown c)
unfolding shutdown
shutdown-WellFormed c h = record {
  host = rw (goodbyes-Quiet c.services c).host h.host;
  services = tt;
  ids = tt;
}
