-- ===== src/MdnsResponder/Machine/Preserved.antt =====
-- Every event keeps the responder well-formed.
use air_show.Prelude.{ℕ, Bool, true, false, List, [], ◌∷◌, Bytes, arith, inl, inr, Option-cases}
use air_show.MdnsResponder.State.{Core}
use air_show.MdnsResponder.Services.{update_txt}
use air_show.MdnsResponder.Interfaces.{NetworkInterface, rescan_interfaces}
use air_show.MdnsResponder.Quiet.{fire-Quiet}
use air_show.MdnsResponder.Machine.{
  renamed, created, start, take_timer, Event, ticked, timed_out, rescanned, received, advertised,
  updated, stopped, apply, run,
}
use air_show.MdnsResponder.Machine.Invariant.{
  WellFormed-either, WellFormed, Quiet-WellFormed, begin_probing-IsProbed,
}
use air_show.MdnsResponder.Machine.Calls.{
  probe_tick-Kept, rescan_interfaces-Kept, rename_all-WellFormed, add_service-WellFormed,
  update_services-Kept, shutdown-WellFormed,
}
use air_show.MdnsResponder.Machine.Datagrams.{read_datagram-WellFormed}

apply-WellFormed : (e : Event) (c : Core) → WellFormed c → WellFormed (apply e c)
unfolding apply update_txt
apply-WellFormed (ticked now) c h =
    WellFormed-either c.probe_timer _ _ (probe_tick-Kept now c h).valid h
apply-WellFormed (timed_out i) c h = elim (Option-cases (take_timer i c.timers)) [
  | inl e ↦ rw (e, apply) h
  | inr ((t, ts), e) ↦
      rw (e, apply) (Quiet-WellFormed (record c { timers = ts }) _ (fire-Quiet t.action _) h)
]
apply-WellFormed (rescanned all) c h = (rescan_interfaces-Kept all c h).valid
apply-WellFormed (received now random bytes dg) c h =
    read_datagram-WellFormed now random bytes dg c h
apply-WellFormed (advertised type name port entries now delay) c h =
    add_service-WellFormed type name port entries now delay c h
apply-WellFormed (renamed name now delay) c h = rename_all-WellFormed name now delay c h
apply-WellFormed (updated type key value) c h =
    (update_services-Kept type key value c.services c h.services h).valid
apply-WellFormed stopped c h = shutdown-WellFormed c h

run-WellFormed : (es : List Event) (c : Core) → WellFormed c → WellFormed (run es c)
run-WellFormed [] c h = h
run-WellFormed (e ∷ es) c h = run-WellFormed es (apply e c) (apply-WellFormed e c h)

created-WellFormed : (port : ℕ) (label : Bytes) → WellFormed (created port label)
created-WellFormed port label = record {
  host = record { at_most = omega arith; announced = λ e. absurd (ground arith) };
  services = tt;
  ids = tt;
}

-- Whatever ticks, timers, datagrams and calls come after the responder has started, and in whatever
-- order: its host name and every service count at most three probes, and exactly three when
-- announced, and the services' numbers ascend and stay below the next one.
pub start-run-WellFormed :
    (port : ℕ) (label : Bytes) (bound : Bool) (nets : List NetworkInterface) (now delay : ℕ)
    (es : List Event)
    → WellFormed (run es (start bound nets now delay (created port label)).1)
unfolding start
start-run-WellFormed port label false nets now delay es =
    run-WellFormed es _ (created-WellFormed port label)
start-run-WellFormed port label true nets now delay es =
    let scanned =
      rescan_interfaces-Kept nets (created port label) (created-WellFormed port label) in
    run-WellFormed es _ (record {
      host = begin_probing-IsProbed now delay (rescan_interfaces nets (created port label)).host;
      services = scanned.valid.services;
      ids = scanned.valid.ids;
    })
