-- ===== src/MdnsResponder/Conflicts.antt =====
-- Names that others use too: `resolveSimultaneousProbe`, `handleResponse` and `onConflict` of
-- src/discovery/MdnsResponder.cpp.
pub mod Response
use air_show.Prelude.{
  ℕ, suc, Bool, true, false, not, ◌&&◌, ◌||◌, List, [], ◌∷◌, ◌++◌, map, Option, none, some,
  if◌then◌else◌, ◌==◌, any, is_empty,
}
use air_show.Dns.Name.{Name, same_name}
use air_show.Dns.Message.{Record, Message, type_a, type_srv, type_txt, same_as}
use air_show.MdnsResponder.Compare.{we_lose, tie, we_win, compare_record_sets}
use air_show.MdnsResponder.State.{Group, Service, Iface, Datagram, Core, find_service, set_service}
use air_show.MdnsResponder.Records.{
  host_fqdn, instance_name, srv, txt, host_probe_records, service_probe_records,
}
use air_show.MdnsResponder.Probing.{begin_probing}
use air_show.MdnsResponder.Interfaces.{is_own_address, is_own_a_record}

unfoldable pub theirs_for : Name → List Record → List Record
unfolding same_name
theirs_for name [] = []
theirs_for name (r ∷ rs) =
    if same_name r.name name then r ∷ theirs_for name rs else theirs_for name rs

-- The lambda `check` of `resolveSimultaneousProbe`: whether the group has to wait.
unfoldable pub gives_way : Message → Group → Name → List Record → Bool
unfolding theirs_for compare_record_sets
gives_way q g name ours =
    if g.announced
    then false
    else if is_empty (theirs_for name q.authorities)
    then false
    else elim (compare_record_sets ours (theirs_for name q.authorities)) [
      | we_lose ↦ true
      | tie ↦ false
      | we_win ↦ false
    ]

unfoldable pub service_gives_way : Message → Core → Service → Bool
unfolding gives_way instance_name service_probe_records
service_gives_way q c s = gives_way q s.group (instance_name s) (service_probe_records c s)

unfoldable pub check_service : ℕ → Message → Core → Service → Service
unfolding service_gives_way begin_probing
check_service now q c s =
    if service_gives_way q c s then record s { group = begin_probing now 1000 s.group } else s

unfoldable pub resolve_simultaneous_probe : ℕ → Message → Option Iface → Core → Core
unfolding gives_way host_fqdn host_probe_records check_service begin_probing service_gives_way
resolve_simultaneous_probe now q iface c =
    let waits = gives_way q c.host (host_fqdn c) (host_probe_records c iface) in
    record c {
      host = if waits then begin_probing now 1000 c.host else c.host;
      services = map (check_service now q c) c.services;
      probe_timer = c.probe_timer || waits || any (service_gives_way q c) c.services;
    }

-- `hostConflict` and `serviceConflicts`.
pub record Conflicts : Type 0 where
  pub host : Bool
  pub services : List ℕ

-- A record that clashes with a service's own.
unfoldable pub clashes : Core → Record → Service → Bool
unfolding same_name instance_name srv txt same_as
clashes c r s =
    same_name r.name (instance_name s)
    && ((r.type == type_srv && not (same_as r (srv c s)))
        || (r.type == type_txt && not (same_as r (txt s))))

unfoldable pub service_conflicts : Core → Record → List Service → List ℕ → List ℕ
unfolding clashes
service_conflicts c r [] ids = ids
service_conflicts c r (s ∷ ss) ids =
    service_conflicts c r ss
      (if clashes c r s && not (any (λ id. id == s.id) ids) then ids ++ (s.id ∷ []) else ids)

unfoldable pub host_clashes : Core → Record → Bool
unfolding same_name host_fqdn is_own_a_record
host_clashes c r = r.type == type_a && same_name r.name (host_fqdn c) && not (is_own_a_record r c)

unfoldable pub find_conflicts : Core → List Record → Conflicts → Conflicts
unfolding host_clashes service_conflicts
find_conflicts c [] found = found
find_conflicts c (r ∷ rs) found = find_conflicts c rs (
    if r.ttl == 0 then found else record {
      host = found.host || host_clashes c r;
      services = service_conflicts c r c.services found.services;
    })

-- `onConflict` for the host name.
unfoldable pub on_host_conflict : ℕ → Core → Core
unfolding begin_probing
on_host_conflict now c = record c {
  host_suffix = if c.host.announced then c.host_suffix else suc c.host_suffix;
  host = begin_probing now 0 c.host;
  probe_timer = true;
}

-- `onConflict` for the services that were found.
unfoldable pub on_service_conflicts : ℕ → List ℕ → Core → Core
unfolding find_service set_service begin_probing
on_service_conflicts now [] c = c
on_service_conflicts now (id ∷ ids) c = elim (find_service id c.services) [
  | none ↦ on_service_conflicts now ids c
  | some s ↦ on_service_conflicts now ids (record c {
    services =
        set_service id
          (record s {
            suffix = if s.group.announced then s.suffix else suc s.suffix;
            group = begin_probing now 0 s.group;
          })
          c.services;
    probe_timer = true;
  })
]

unfoldable pub handle_response : ℕ → Message → Datagram → Core → Core
unfolding is_own_address find_conflicts on_host_conflict on_service_conflicts
handle_response now m dg c =
    let found =
      find_conflicts c m.additionals
        (find_conflicts c m.answers (record { host = false; services = [] })) in
    if is_own_address dg.sender c
    then c
    else on_service_conflicts now found.services (if found.host then on_host_conflict now c else c)
