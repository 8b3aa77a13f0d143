-- ===== src/MdnsResponder/Machine/Order.antt =====
-- No service is announced before the host name that its SRV record points at, whatever happens.
use air_show.Prelude.{
  ◌≡◌, refl, ℕ, Bool, true, false, not, ◌&&◌, List, [], ◌∷◌, map, Option, suc, if◌then◌else◌, ◌==◌,
  Bytes, same_bytes, is_empty, All, All-append, arith, inl, inr, Bool-cases, Option-cases,
}
use air_show.Dns.Name.{Read, ok, malformed, out_of_fuel}
use air_show.Dns.Message.{Message, is_response}
use air_show.Dns.Reader.{parse}
use air_show.MdnsResponder.State.{Datagram, Core, Service, Iface, host, find_service, set_service}
use air_show.MdnsResponder.Probing.{start_host, start_service, probe_tick, fire}
use air_show.MdnsResponder.Probing.Order.{IsSilent, set_service-IsSilent, probe_tick-IsSilent}
use air_show.MdnsResponder.Services.{
  add_service, rename_all, with_name, update_txt, update_service, update_services, shutdown,
  set_txt,
}
use air_show.MdnsResponder.Interfaces.{
  rescan_interfaces, adopt, is_own_address, iface_for, all_addresses,
}
use air_show.MdnsResponder.Conflicts.{
  check_service, service_gives_way, resolve_simultaneous_probe, on_host_conflict,
  on_service_conflicts, handle_response, find_conflicts,
}
use air_show.MdnsResponder.Records.{current_records, host_fqdn}
use air_show.MdnsResponder.Answers.{
  Answering, answers_to, response_to, answer_query, handle_query, send_response, legacy,
}
use air_show.MdnsResponder.Quiet.{send_to-Quiet, start_host-Quiet, start_service-Quiet, fire-Quiet}
use air_show.MdnsResponder.Machine.{
  take_timer, Event, ticked, timed_out, rescanned, received, advertised, renamed, updated, stopped,
  read_datagram, apply, run,
}

module _ (k : ℕ) where
  abbrev pub AllSilent : Core → Type 0
  AllSilent c = All (IsSilent k) c.services

  same : (c d : Core) → d.services ≡ c.services → AllSilent c → AllSilent d
  same c d e h = rw e h

  either : (b : Bool) (c d : Core) → AllSilent c → AllSilent d → AllSilent (if b then c else d)
  either true c d h i = h
  either false c d h i = i

  map-IsSilent :
      (f : Service → Service) (ss : List Service)
      → ((s : Service) → IsSilent k s → IsSilent k (f s))
      → All (IsSilent k) ss
      → All (IsSilent k) (map f ss)
  map-IsSilent f [] keeps h = tt
  map-IsSilent f (s ∷ ss) keeps h = (keeps s h.0, map-IsSilent f ss keeps h.1)

  unannounced : (b : Bool) → (b && false) ≡ false
  unannounced b = ground arith

  check_service-IsSilent :
      (now : ℕ) (q : Message) (c : Core) (s : Service)
      → IsSilent k s
      → IsSilent k (check_service now q c s)
  unfolding check_service
  check_service-IsSilent now q c s h = elim (Bool-cases (service_gives_way q c s)) [
    | inl e ↦ rw (e, check_service) (unannounced (s.id == k))
    | inr e ↦ rw (e, check_service) h
  ]

  on_service_conflicts-silent :
      (now : ℕ) (ids : List ℕ) (c : Core) → AllSilent c → AllSilent (on_service_conflicts now ids c)
  unfolding on_service_conflicts
  on_service_conflicts-silent now [] c h = h
  on_service_conflicts-silent now (id ∷ ids) c h =
      elim (Option-cases (find_service id c.services)) [
        | inl e ↦ rw (e, on_service_conflicts) (on_service_conflicts-silent now ids c h)
        | inr (s, e) ↦
            rw (e, on_service_conflicts)
              (on_service_conflicts-silent now ids _
                (set_service-IsSilent k id _ c.services (unannounced (s.id == k)) h))
      ]

  handle_response-silent :
      (now : ℕ) (m : Message) (dg : Datagram) (c : Core)
      → AllSilent c
      → AllSilent (handle_response now m dg c)
  unfolding handle_response on_host_conflict
  handle_response-silent now m dg c h =
      let found =
        find_conflicts c m.additionals
          (find_conflicts c m.answers (record { host = false; services = [] })) in
      let d = if found.host then on_host_conflict now c else c in
      either (is_own_address dg.sender c) c (on_service_conflicts now found.services d) h (
        on_service_conflicts-silent now found.services d
          (either found.host (on_host_conflict now c) c h h))

  resolve_simultaneous_probe-silent :
      (now : ℕ) (q : Message) (iface : Option Iface) (c : Core)
      → AllSilent c
      → AllSilent (resolve_simultaneous_probe now q iface c)
  unfolding resolve_simultaneous_probe
  resolve_simultaneous_probe-silent now q iface c h =
      map-IsSilent (check_service now q c) c.services (check_service-IsSilent now q c) h

  send_response-services :
      (q : Message) (dg : Datagram) (random : ℕ × ℕ) (iface : Option Iface) (a : Answering)
      (resp : Message) (c : Core)
      → (send_response q dg random iface a resp c).services ≡ c.services
  unfolding send_response
  send_response-services q dg random iface a resp c = elim (Bool-cases (is_empty resp.answers)) [
    | inl e ↦ rw (e, send_response) refl
    | inr e ↦ elim (Bool-cases (not (dg.sender_port == c.own_port))) [
      | inl f ↦
          rw (e, f, send_response)
            (send_to-Quiet (legacy q resp) (host dg.sender dg.sender_port) c).services
      | inr f ↦ rw (e, f, send_response) refl
    ]
  ]

  send_response-silent :
      (q : Message) (dg : Datagram) (random : ℕ × ℕ) (iface : Option Iface) (a : Answering)
      (resp : Message) (c : Core)
      → AllSilent c
      → AllSilent (send_response q dg random iface a resp c)
  send_response-silent q dg random iface a resp c h =
      same c (send_response q dg random iface a resp c)
        (send_response-services q dg random iface a resp c) h

  handle_query-silent :
      (now : ℕ) (random : ℕ × ℕ) (q : Message) (dg : Datagram) (c : Core)
      → AllSilent c
      → AllSilent (handle_query now random q dg c)
  unfolding handle_query answer_query
  handle_query-silent now random q dg c h =
      let iface = iface_for dg c in
      let contested = not (is_empty q.authorities) && not (is_own_address dg.sender c) in
      let d = if contested then resolve_simultaneous_probe now q iface c else c in
      let resp = response_to q (host_fqdn d) (current_records d iface) in
      let k' : AllSilent d =
        either contested (resolve_simultaneous_probe now q iface c) c
          (resolve_simultaneous_probe-silent now q iface c h) h in
      send_response-silent q dg random iface (answers_to q (host_fqdn d) (current_records d iface))
        resp d k'

  read_datagram-silent :
      (now : ℕ) (random : ℕ × ℕ) (bytes : Bytes) (dg : Datagram) (c : Core)
      → AllSilent c
      → AllSilent (read_datagram now random bytes dg c)
  unfolding read_datagram
  read_datagram-silent now random bytes dg c h = go (parse bytes)
    where
      go :
          (r : Read Message)
          → AllSilent (elim r [
            | malformed ↦ c
            | out_of_fuel ↦ c
            | ok m ↦
                if is_response m then handle_response now m dg c else handle_query now random m dg c
          ])
      go malformed = h
      go out_of_fuel = h
      go (ok m) =
          either (is_response m) (handle_response now m dg c) (handle_query now random m dg c)
            (handle_response-silent now m dg c h) (handle_query-silent now random m dg c h)

  adopt-silent :
      (changed : Bool) (found : List Iface) (joined : List ℕ) (c : Core)
      → AllSilent c
      → AllSilent (adopt changed found joined c)
  unfolding adopt
  adopt-silent changed found joined c h =
      let updated = record c {
        ifaces = found;
        own_addresses = all_addresses found;
        joined = joined;
      } in
      let d = record updated { host = record c.host { generation = suc c.host.generation } } in
      either (changed && c.host.announced) (start_host d) updated
        (same d (start_host d) (start_host-Quiet d).services h) h

  update_service-silent :
      (key value : Bytes) (s : Service) (c : Core)
      → IsSilent k s
      → AllSilent c
      → AllSilent (update_service key value s c)
  unfolding update_service
  update_service-silent key value s c silent h =
      let u = record s { txt = set_txt key value s.txt } in
      let v = record u { group = record s.group { generation = suc s.group.generation } } in
      let d = record c { services = set_service s.id v c.services } in
      either s.group.announced (start_service s.id d)
        (record c { services = set_service s.id u c.services })
        (same d (start_service s.id d) (start_service-Quiet s.id d).services
          (set_service-IsSilent k s.id v c.services silent h))
        (set_service-IsSilent k s.id u c.services silent h)

  update_services-silent :
      (type key value : Bytes) (ss : List Service) (c : Core)
      → All (IsSilent k) ss
      → AllSilent c
      → AllSilent (update_services type key value ss c)
  unfolding update_services
  update_services-silent type key value [] c silent h = h
  update_services-silent type key value (s ∷ ss) c silent h =
      let d = if same_bytes s.type type then update_service key value s c else c in
      update_services-silent type key value ss d silent.1 (
        either (same_bytes s.type type) (update_service key value s c) c
          (update_service-silent key value s c silent.0 h) h)

  tick-silent :
      (running : Bool) (now : ℕ) (c : Core)
      → AllSilent c
      → (if running then probe_tick now c else c).host.announced ≡ false
      → AllSilent (if running then probe_tick now c else c)
  tick-silent true now c h waits = probe_tick-IsSilent k now c waits h
  tick-silent false now c h waits = h

  apply-silent :
      (e : Event) (c : Core)
      → AllSilent c
      → (apply e c).host.announced ≡ false
      → AllSilent (apply e c)
  unfolding apply update_txt add_service rename_all shutdown rescan_interfaces
  apply-silent (ticked now) c h waits = tick-silent c.probe_timer now c h waits
  apply-silent (timed_out i) c h waits = elim (Option-cases (take_timer i c.timers)) [
    | inl e ↦ rw (e, apply) h
    | inr ((t, ts), e) ↦
        rw (e, apply)
          (same c (fire t.action (record c { timers = ts }))
            (fire-Quiet t.action (record c { timers = ts })).services h)
  ]
  apply-silent (rescanned all) c h waits = adopt-silent _ _ _ c h
  apply-silent (received now random bytes dg) c h waits =
      read_datagram-silent now random bytes dg c h
  apply-silent (advertised type name port entries now delay) c h waits =
      All-append (IsSilent k) c.services _ h (unannounced (c.next_id == k), tt)
  apply-silent (renamed name now delay) c h waits =
      map-IsSilent (with_name name now delay) c.services (λ s p. unannounced (s.id == k)) h
  apply-silent (updated type key value) c h waits =
      update_services-silent type key value c.services c h h
  apply-silent stopped c h waits = tt

  -- The host name is not announced behind any of the events.
  abbrev pub Waits : List Event → Core → Type 0
  Waits [] c = Unit
  Waits (e ∷ es) c = ((apply e c).host.announced ≡ false) × Waits es (apply e c)

  -- Whatever ticks, timers, datagrams and calls come: while the host name is not announced, no service is
  -- announced that was not announced before, be the others announced or not.
  pub run-silent : (es : List Event) (c : Core) → AllSilent c → Waits es c → AllSilent (run es c)
  run-silent [] c h waits = h
  run-silent (e ∷ es) c h waits = run-silent es (apply e c) (apply-silent e c h waits.0) waits.1
