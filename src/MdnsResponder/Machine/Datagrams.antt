-- ===== src/MdnsResponder/Machine/Datagrams.antt =====
-- Datagrams keep the responder well-formed.
use air_show.Prelude.{
  ◌≡◌, ℕ, Bool, true, false, not, ◌&&◌, List, [], ◌∷◌, Option, some, if◌then◌else◌, ◌==◌, Bytes,
  All, arith, inl, inr, Bool-cases, Option-cases, is_empty,
}
use air_show.Dns.Name.{Read, ok, malformed, out_of_fuel}
use air_show.Dns.Message.{Message, is_response}
use air_show.Dns.Reader.{parse}
use air_show.MdnsResponder.State.{Group, Service, Core, find_service, Datagram, Iface, host}
use air_show.MdnsResponder.Probing.{begin_probing}
use air_show.MdnsResponder.Interfaces.{is_own_address, iface_for}
use air_show.MdnsResponder.Conflicts.{
  resolve_simultaneous_probe, check_service, service_gives_way, on_host_conflict,
  on_service_conflicts, handle_response,
}
use air_show.MdnsResponder.Records.{current_records, host_fqdn}
use air_show.MdnsResponder.Answers.{
  Answering, answer_query, answers_to, response_to, handle_query, send_response, legacy,
}
use air_show.MdnsResponder.Quiet.{send_to-Quiet}
use air_show.MdnsResponder.Machine.{read_datagram}
use air_show.MdnsResponder.Machine.Invariant.{
  WellFormed-either, IsProbed, IsService, WellFormed, Quiet-WellFormed, begin_probing-IsProbed,
  set_service-IsValid,
}
use air_show.MdnsResponder.Machine.Calls.{map-IsService, map-Ascending}

-- A group that is left as it is, or begins to probe again.
begin_probing-either :
    (b : Bool) (now delay : ℕ) (g : Group)
    → IsProbed g
    → IsProbed (if b then begin_probing now delay g else g)
begin_probing-either true now delay g h = begin_probing-IsProbed now delay g
begin_probing-either false now delay g h = h

check_service-same :
    (now : ℕ) (q : Message) (c : Core) (s : Service) → (check_service now q c s).id ≡ s.id
unfolding check_service
check_service-same now q c s = ground arith

check_service-IsProbed :
    (now : ℕ) (q : Message) (c : Core) (s : Service)
    → IsProbed s.group
    → IsProbed (check_service now q c s).group
unfolding check_service
check_service-IsProbed now q c s h = elim (Bool-cases (service_gives_way q c s)) [
  | inl e ↦ rw (e, check_service) (begin_probing-IsProbed now 1000 s.group)
  | inr e ↦ rw (e, check_service) h
]

resolve_simultaneous_probe-WellFormed :
    (now : ℕ) (q : Message) (iface : Option Iface) (c : Core)
    → WellFormed c
    → WellFormed (resolve_simultaneous_probe now q iface c)
unfolding resolve_simultaneous_probe
resolve_simultaneous_probe-WellFormed now q iface c h = record {
  host = begin_probing-either _ now 1000 c.host h.host;
  services =
      map-IsService (check_service now q c) c.next_id c.services (check_service-same now q c)
        (check_service-IsProbed now q c) h.services;
  ids = map-Ascending (check_service now q c) c.services 0 (check_service-same now q c) h.ids;
}

send_response-WellFormed :
    (q : Message) (dg : Datagram) (random : ℕ × ℕ) (iface : Option Iface) (a : Answering)
    (resp : Message) (c : Core)
    → WellFormed c
    → WellFormed (send_response q dg random iface a resp c)
unfolding send_response
send_response-WellFormed q dg random iface a resp c h =
    WellFormed-either (is_empty resp.answers) _ _ h (
      WellFormed-either (not (dg.sender_port == c.own_port)) _ _
        (Quiet-WellFormed c _ (send_to-Quiet (legacy q resp) (host dg.sender dg.sender_port) c) h)
        h)

answer_query-WellFormed :
    (random : ℕ × ℕ) (q : Message) (dg : Datagram) (iface : Option Iface) (c : Core)
    → WellFormed c
    → WellFormed (answer_query random q dg iface c)
unfolding answer_query
answer_query-WellFormed random q dg iface c h =
    let records = current_records c iface in
    send_response-WellFormed q dg random iface (answers_to q (host_fqdn c) records)
      (response_to q (host_fqdn c) records) c h

handle_query-WellFormed :
    (now : ℕ) (random : ℕ × ℕ) (q : Message) (dg : Datagram) (c : Core)
    → WellFormed c
    → WellFormed (handle_query now random q dg c)
unfolding handle_query
handle_query-WellFormed now random q dg c h =
    answer_query-WellFormed random q dg (iface_for dg c)
      (if not (is_empty q.authorities) && not (is_own_address dg.sender c)
        then resolve_simultaneous_probe now q (iface_for dg c) c
        else c)
      (WellFormed-either (not (is_empty q.authorities) && not (is_own_address dg.sender c)) _ _
        (resolve_simultaneous_probe-WellFormed now q (iface_for dg c) c h) h)

found_here :
    {id next_id : ℕ} (x s : Service)
    → x ≡ s
    → IsService next_id x
    → x.id ≡ id
    → IsService next_id s × (s.id ≡ id)
found_here x s e h same = rw⁻¹ e (h, same)

find_service-IsService :
    (id next_id : ℕ) (ss : List Service) (s : Service)
    → All (IsService next_id) ss
    → find_service id ss ≡ some s
    → IsService next_id s × (s.id ≡ id)
unfolding find_service
find_service-IsService id next_id [] s h e = absurd (ground arith)
find_service-IsService id next_id (x ∷ ss) s h e = elim (Bool-cases (x.id == id)) [
  | inl same ↦ found_here x s (ground (arith, e)) h.0 (ground arith)
  | inr other ↦ find_service-IsService id next_id ss s h.1 (ground (arith, e))
]

on_service_conflicts-WellFormed :
    (now : ℕ) (ids : List ℕ) (c : Core) → WellFormed c → WellFormed (on_service_conflicts now ids c)
unfolding on_service_conflicts
on_service_conflicts-WellFormed now [] c h = h
on_service_conflicts-WellFormed now (id ∷ ids) c h =
    elim (Option-cases (find_service id c.services)) [
      | inl e ↦ rw (e, on_service_conflicts) (on_service_conflicts-WellFormed now ids c h)
      | inr (s, e) ↦
          rw (e, on_service_conflicts)
            (let k = find_service-IsService id c.next_id c.services s h.services e in
              on_service_conflicts-WellFormed now ids _ (
                set_service-IsValid id _ c.host c.services c.next_id k.1
                  (begin_probing-IsProbed now 0 s.group, k.0.1) h))
    ]

handle_response-WellFormed :
    (now : ℕ) (m : Message) (dg : Datagram) (c : Core)
    → WellFormed c
    → WellFormed (handle_response now m dg c)
unfolding handle_response on_host_conflict
handle_response-WellFormed now m dg c h = WellFormed-either (is_own_address dg.sender c) _ _ h (
    on_service_conflicts-WellFormed now _ _ (
      WellFormed-either _ _ _
        (record { host = begin_probing-IsProbed now 0 c.host; services = h.services; ids = h.ids })
        h))

pub read_datagram-WellFormed :
    (now : ℕ) (random : ℕ × ℕ) (bytes : Bytes) (dg : Datagram) (c : Core)
    → WellFormed c
    → WellFormed (read_datagram now random bytes dg c)
unfolding read_datagram
read_datagram-WellFormed now random bytes dg c h = go (parse bytes)
  where
    go :
        (r : Read Message)
        → WellFormed (elim r [
          | malformed ↦ c
          | out_of_fuel ↦ c
          | ok m ↦
              if is_response m then handle_response now m dg c else handle_query now random m dg c
        ])
    go malformed = h
    go out_of_fuel = h
    go (ok m) =
        WellFormed-either (is_response m) _ _ (handle_response-WellFormed now m dg c h)
          (handle_query-WellFormed now random m dg c h)
