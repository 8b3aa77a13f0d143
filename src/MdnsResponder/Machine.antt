-- ===== src/MdnsResponder/Machine.antt =====
-- The responder as a state machine: `start`, `readPending`, the timers and the calls of `MdnsResponder`
-- of src/discovery/MdnsResponder.cpp, which Qt runs one after another on the responder's thread.
pub mod Invariant
pub mod Calls
pub mod Datagrams
pub mod Preserved
pub mod Probed
pub mod Order
use air_show.Prelude.{
  ℕ, zero, suc, ◌+◌, Bool, true, false, not, ◌&&◌, ◌||◌, List, [], ◌∷◌, ◌++◌, Option, none, some,
  if◌then◌else◌, Bytes,
}
use air_show.Dns.Name.{Read, ok, malformed, out_of_fuel}
use air_show.Dns.Message.{Message, is_response}
use air_show.Dns.Reader.{parse}
use air_show.MdnsResponder.State.{
  TxtRecord, Group, new_group, HostAddress, Datagram, Action, Timer, Core,
}
use air_show.MdnsResponder.Probing.{begin_probing, fire, probe_tick}
use air_show.MdnsResponder.Services.{add_service, rename_all, update_txt, shutdown}
use air_show.MdnsResponder.Interfaces.{NetworkInterface, rescan_interfaces}
use air_show.MdnsResponder.Conflicts.{handle_response}
use air_show.MdnsResponder.Answers.{handle_query}

-- `MdnsResponderCore` as its constructor leaves it.
abbrev pub created : ℕ → Bytes → Core
created port host_label = record {
  own_port = port;
  host_label = host_label;
  host_suffix = 1;
  host = new_group;
  services = [];
  next_id = 1;
  ifaces = [];
  own_addresses = [];
  joined = [];
  probe_timer = false;
  sent = [];
  timers = [];
}

-- `start`. Whether the socket can be bound is the first argument; the result becomes `m_available`.
unfoldable pub start : Bool → List NetworkInterface → (now delay : ℕ) → Core → Bool × Core
unfolding rescan_interfaces begin_probing
start bound all now delay c =
    let scanned = rescan_interfaces all c in
    if bound
    then (true, record scanned { host = begin_probing now delay scanned.host; probe_timer = true })
    else (false, c)

-- A round of the loop of `readPending`.
unfoldable pub read_datagram : ℕ → (random : ℕ × ℕ) → Bytes → Datagram → Core → Core
unfolding parse is_response handle_response handle_query
read_datagram now random bytes dg c = elim (parse bytes) [
  | malformed ↦ c
  | out_of_fuel ↦ c
  | ok m ↦ if is_response m then handle_response now m dg c else handle_query now random m dg c
]

-- The timer at a place of the list, and the others.
abbrev pub take_timer : ℕ → List Timer → Option (Timer × List Timer)
take_timer i [] = none
take_timer zero (t ∷ ts) = some (t, ts)
take_timer (suc i) (t ∷ ts) = elim (take_timer i ts) [
  | none ↦ none
  | some (u, us) ↦ some (u, t ∷ us)
]

-- What the thread's event loop runs: a tick of the probe timer, a single-shot timer, the rescan timer,
-- a datagram, and the calls that `MdnsResponder` has queued.
pub data Event : Type 0 where
  ticked : ℕ → Event
  timed_out : ℕ → Event
  rescanned : List NetworkInterface → Event
  received : ℕ → ℕ × ℕ → Bytes → Datagram → Event
  advertised : Bytes → Bytes → ℕ → List TxtRecord → ℕ → ℕ → Event
  renamed : Bytes → ℕ → (ℕ → ℕ) → Event
  updated : Bytes → Bytes → Bytes → Event
  stopped : Event

unfoldable pub apply : Event → Core → Core
unfolding probe_tick fire rescan_interfaces read_datagram add_service rename_all update_txt shutdown
apply (ticked now) c = if c.probe_timer then probe_tick now c else c
apply (timed_out i) c = elim (take_timer i c.timers) [
  | none ↦ c
  | some (t, ts) ↦ fire t.action (record c { timers = ts })
]
apply (rescanned all) c = rescan_interfaces all c
apply (received now random bytes dg) c = read_datagram now random bytes dg c
apply (advertised type name port entries now delay) c =
    add_service type name port entries now delay c
apply (renamed name now delay) c = rename_all name now delay c
apply (updated type key value) c = update_txt type key value c
apply stopped c = shutdown c

abbrev pub run : List Event → Core → Core
run [] c = c
run (e ∷ es) c = run es (apply e c)

-- A call of `advertise`, `rename`, `stop` or `updateTxtRecord`: nothing is queued, and the result is
-- false, where the socket could not be opened.
unfoldable pub call : Bool → Event → Core → Bool × Core
unfolding apply
call available e c = if available then (true, apply e c) else (false, c)
