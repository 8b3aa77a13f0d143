-- ===== src/MiracastHandler/Sessions.antt =====
-- The sessions of src/protocol/MiracastHandler.cpp: what its events, in any order, make of the socket and
-- the state.
use air_show.Prelude.{
  not, ◌||◌, none, some, if◌then◌else◌, some, suc, ℕ, ◌+◌, ◌+◌, ℕ, ℕ, ℕ, arith, arith, arith, Bool,
  true, false, List, [], ◌∷◌, ◌≡◌, refl, Bytes, Option,
}
use air_show.Settings.{Text}
use air_show.MiracastHandler.{
  emit_if, drop_rtsp, use_parsed, parse_mice_message, no_info, Effect, connect, ask, State, idle,
  waiting_source_ready, connecting_to_source, negotiating_m1, negotiating_m2, negotiating_m3,
  negotiating_m4, negotiating_m5, sending_setup, sending_play, streaming, tearing_down, Handler,
  Library, process_in, process_message, start, stop, on_mice_connection, on_mice_data, on_approval,
  on_rtsp_connected, on_rtsp_disconnected, on_rtsp_disconnected_in, teardown, send_rtsp_request,
  with_source, connect_to_source, refuse_source,
}
use air_show.MiracastHandler.Rtsp.{RtspMessage}
use air_show.MiracastHandler.SourceReady.{
  Parsed, unended, refused, parsed, parse_source_ready, SourceReadyInfo,
}

-- The states in which the handler talks to a source.
abbrev pub in_session : State → Bool
in_session idle = false
in_session waiting_source_ready = false
in_session tearing_down = false
in_session s = true

-- A session has its socket.
abbrev pub HasSocket : Handler → Type 0
HasSocket h = (not (in_session h.state) || h.rtsp_socket) ≡ true

-- The events. The signals of the RTSP socket come while it is there.
pub data Step (lib : Library) : Handler → Handler → Type 0 where
  started : {h : Handler} (listens : Bool) → Step lib h (start listens h).0
  stopped : {h : Handler} → Step lib h (stop h)
  mice_connection : {h : Handler} (addr : Option Text) → Step lib h (on_mice_connection addr h)
  mice_data : {h : Handler} (bytes : Bytes) → Step lib h (on_mice_data lib bytes h)
  approval : {h : Handler} (approved : Bool) → Step lib h (on_approval approved h)
  rtsp_connected : {h : Handler} → h.rtsp_socket ≡ true → Step lib h (on_rtsp_connected h)
  rtsp_disconnected : {h : Handler} → h.rtsp_socket ≡ true → Step lib h (on_rtsp_disconnected h)
  rtsp_message :
      {h : Handler} (msg : RtspMessage)
      → h.rtsp_socket ≡ true
      → Step lib h (process_message lib msg h)

pub data Steps (lib : Library) : Handler → Handler → Type 0 where
  here : {h : Handler} → Steps lib h h
  after : {h h1 h2 : Handler} → Steps lib h h1 → Step lib h1 h2 → Steps lib h h2

if-either : (P : Handler → Type 0) (c : Bool) (x y : Handler) → P x → P y → P (if c then x else y)
if-either P true x y px py = px
if-either P false x y px py = py

on_rtsp_disconnected_in-HasSocket :
    (s : State) (h : Handler) → HasSocket (on_rtsp_disconnected_in s h)
unfolding on_rtsp_disconnected_in teardown
on_rtsp_disconnected_in-HasSocket idle h = ground arith
on_rtsp_disconnected_in-HasSocket waiting_source_ready h = ground arith
on_rtsp_disconnected_in-HasSocket connecting_to_source h = ground arith
on_rtsp_disconnected_in-HasSocket tearing_down h = ground arith
on_rtsp_disconnected_in-HasSocket negotiating_m1 h = ground arith
on_rtsp_disconnected_in-HasSocket negotiating_m2 h = ground arith
on_rtsp_disconnected_in-HasSocket negotiating_m3 h = ground arith
on_rtsp_disconnected_in-HasSocket negotiating_m4 h = ground arith
on_rtsp_disconnected_in-HasSocket negotiating_m5 h = ground arith
on_rtsp_disconnected_in-HasSocket sending_setup h = ground arith
on_rtsp_disconnected_in-HasSocket sending_play h = ground arith
on_rtsp_disconnected_in-HasSocket streaming h = ground arith

process_in-HasSocket :
    (lib : Library) (s : State) (m : RtspMessage) (h : Handler)
    → h.rtsp_socket ≡ true
    → HasSocket h
    → HasSocket (process_in lib s m h)
unfolding process_in teardown send_rtsp_request
process_in-HasSocket lib idle m h socket has = ground arith
process_in-HasSocket lib waiting_source_ready m h socket has = ground arith
process_in-HasSocket lib connecting_to_source m h socket has = ground arith
process_in-HasSocket lib tearing_down m h socket has = ground arith
process_in-HasSocket lib negotiating_m1 m h socket has = ground arith
process_in-HasSocket lib negotiating_m2 m h socket has = ground arith
process_in-HasSocket lib negotiating_m3 m h socket has = ground arith
process_in-HasSocket lib negotiating_m4 m h socket has = ground arith
process_in-HasSocket lib negotiating_m5 m h socket has = ground arith
process_in-HasSocket lib sending_setup m h socket has = ground arith
process_in-HasSocket lib sending_play m h socket has = ground arith
process_in-HasSocket lib streaming m h socket has = ground arith

with_source-HasSocket :
    (lib : Library) (info : SourceReadyInfo) (h : Handler)
    → HasSocket h
    → HasSocket (with_source lib info h)
unfolding with_source connect_to_source refuse_source
with_source-HasSocket lib info h has = ground arith

use_parsed-HasSocket :
    (lib : Library) (r : Parsed) (h : Handler) → HasSocket h → HasSocket (use_parsed lib r h)
unfolding use_parsed
use_parsed-HasSocket lib unended h has = has
use_parsed-HasSocket lib refused h has = has
use_parsed-HasSocket lib (parsed info) h has = with_source-HasSocket lib info h has

parse_mice_message-HasSocket :
    (lib : Library) (bytes : Bytes) (h : Handler)
    → HasSocket h
    → HasSocket (parse_mice_message lib bytes h)
unfolding parse_mice_message
parse_mice_message-HasSocket lib bytes h has =
    use_parsed-HasSocket lib (parse_source_ready lib.decoders bytes no_info) h has

on_mice_data-HasSocket :
    (lib : Library) (bytes : Bytes) (h : Handler)
    → HasSocket h
    → HasSocket (on_mice_data lib bytes h)
unfolding on_mice_data parse_mice_message
on_mice_data-HasSocket lib bytes h has =
    if-either HasSocket h.mice_client (parse_mice_message lib bytes h) h
      (parse_mice_message-HasSocket lib bytes h has) has

Step-HasSocket : (lib : Library) (h h' : Handler) → Step lib h h' → HasSocket h → HasSocket h'
unfolding start stop on_mice_connection on_approval connect_to_source refuse_source
    on_rtsp_connected on_rtsp_disconnected process_message
Step-HasSocket lib h _ (started listens) has = ground arith
Step-HasSocket lib h _ stopped has = ground arith
Step-HasSocket lib h _ (mice_connection none) has = has
Step-HasSocket lib h _ (mice_connection (some addr)) has = ground arith
Step-HasSocket lib h _ (mice_data bytes) has = on_mice_data-HasSocket lib bytes h has
Step-HasSocket lib h _ (approval approved) has = ground arith
Step-HasSocket lib h _ (rtsp_connected e) has = e
Step-HasSocket lib h _ (rtsp_disconnected e) has = on_rtsp_disconnected_in-HasSocket h.state h
Step-HasSocket lib h _ (rtsp_message msg e) has = process_in-HasSocket lib h.state msg h e has

-- Whatever comes and in whatever order, the handler negotiates and streams only while its RTSP socket is
-- there, if it did so at first.
pub Steps-HasSocket : (lib : Library) (h h' : Handler) → Steps lib h h' → HasSocket h → HasSocket h'
Steps-HasSocket lib h _ here has = has
Steps-HasSocket lib h h' (after {h1 = h1} steps step) has =
    Step-HasSocket lib h1 h' step (Steps-HasSocket lib h h1 steps has)

-- The connections that were opened to a source.
abbrev pub connections : List Effect → ℕ
connections [] = 0
connections (connect addr port ∷ es) = suc (connections es)
connections (e ∷ es) = connections es

-- The positive answers among the events.
abbrev pub approves : {lib : Library} {h h' : Handler} → Step lib h h' → ℕ
approves (approval true) = 1
approves s = 0

abbrev pub approvals : {lib : Library} {h h' : Handler} → Steps lib h h' → ℕ
approvals here = 0
approvals (after steps step) = approvals steps + approves step

-- A change that opens no connection, and leaves the security manager in place.
abbrev Quiet : Handler → Handler → Type 0
Quiet h h' = (h'.has_security ≡ h.has_security) × (connections h'.effects ≡ connections h.effects)

on_rtsp_disconnected_in-Quiet : (s : State) (h : Handler) → Quiet h (on_rtsp_disconnected_in s h)
unfolding on_rtsp_disconnected_in teardown
on_rtsp_disconnected_in-Quiet idle h = ground arith
on_rtsp_disconnected_in-Quiet waiting_source_ready h = ground arith
on_rtsp_disconnected_in-Quiet connecting_to_source h = ground arith
on_rtsp_disconnected_in-Quiet tearing_down h = ground arith
on_rtsp_disconnected_in-Quiet negotiating_m1 h = ground arith
on_rtsp_disconnected_in-Quiet negotiating_m2 h = ground arith
on_rtsp_disconnected_in-Quiet negotiating_m3 h = ground arith
on_rtsp_disconnected_in-Quiet negotiating_m4 h = ground arith
on_rtsp_disconnected_in-Quiet negotiating_m5 h = ground arith
on_rtsp_disconnected_in-Quiet sending_setup h = ground arith
on_rtsp_disconnected_in-Quiet sending_play h = ground arith
on_rtsp_disconnected_in-Quiet streaming h = ground arith

process_in-Quiet :
    (lib : Library) (s : State) (m : RtspMessage) (h : Handler) → Quiet h (process_in lib s m h)
unfolding process_in teardown send_rtsp_request
process_in-Quiet lib idle m h = ground arith
process_in-Quiet lib waiting_source_ready m h = ground arith
process_in-Quiet lib connecting_to_source m h = ground arith
process_in-Quiet lib tearing_down m h = ground arith
process_in-Quiet lib negotiating_m1 m h = ground arith
process_in-Quiet lib negotiating_m2 m h = ground arith
process_in-Quiet lib negotiating_m3 m h = ground arith
process_in-Quiet lib negotiating_m4 m h = ground arith
process_in-Quiet lib negotiating_m5 m h = ground arith
process_in-Quiet lib sending_setup m h = ground arith
process_in-Quiet lib sending_play m h = ground arith
process_in-Quiet lib streaming m h = ground arith

with_source-Quiet :
    (lib : Library) (info : SourceReadyInfo) (h : Handler)
    → h.has_security ≡ true
    → Quiet h (with_source lib info h)
unfolding with_source refuse_source
with_source-Quiet lib info h has = ground arith

use_parsed-Quiet :
    (lib : Library) (r : Parsed) (h : Handler)
    → h.has_security ≡ true
    → Quiet h (use_parsed lib r h)
unfolding use_parsed
use_parsed-Quiet lib unended h has = (refl, refl)
use_parsed-Quiet lib refused h has = (refl, refl)
use_parsed-Quiet lib (parsed info) h has = with_source-Quiet lib info h has

parse_mice_message-Quiet :
    (lib : Library) (bytes : Bytes) (h : Handler)
    → h.has_security ≡ true
    → Quiet h (parse_mice_message lib bytes h)
unfolding parse_mice_message
parse_mice_message-Quiet lib bytes h has =
    use_parsed-Quiet lib (parse_source_ready lib.decoders bytes no_info) h has

on_mice_data-Quiet :
    (lib : Library) (bytes : Bytes) (h : Handler)
    → h.has_security ≡ true
    → Quiet h (on_mice_data lib bytes h)
unfolding on_mice_data
on_mice_data-Quiet lib bytes h has =
    if-either (Quiet h) h.mice_client (parse_mice_message lib bytes h) h
      (parse_mice_message-Quiet lib bytes h has) (refl, refl)

Step-connections :
    (lib : Library) (h h' : Handler) (step : Step lib h h')
    → h.has_security ≡ true
    → (h'.has_security ≡ true) × (connections h'.effects ≡ connections h.effects + approves step)
unfolding start stop on_mice_connection on_approval connect_to_source refuse_source
    on_rtsp_connected on_rtsp_disconnected process_message
Step-connections lib h _ (started listens) has = ground arith
Step-connections lib h _ stopped has = ground arith
Step-connections lib h _ (mice_connection none) has = ground arith
Step-connections lib h _ (mice_connection (some addr)) has = ground arith
Step-connections lib h _ (mice_data bytes) has = ground (arith, on_mice_data-Quiet lib bytes h has)
Step-connections lib h _ (approval true) has = ground arith
Step-connections lib h _ (approval false) has = ground arith
Step-connections lib h _ (rtsp_connected e) has = ground arith
Step-connections lib h _ (rtsp_disconnected e) has =
    ground (arith, on_rtsp_disconnected_in-Quiet h.state h)
Step-connections lib h _ (rtsp_message msg e) has =
    ground (arith, process_in-Quiet lib h.state msg h)

-- With a security manager, each connection to a source goes with one positive answer to the prompt.
pub Steps-connections :
    (lib : Library) (h h' : Handler) (steps : Steps lib h h')
    → h.has_security ≡ true
    → (h'.has_security ≡ true) × (connections h'.effects ≡ connections h.effects + approvals steps)
Steps-connections lib h _ here has = (has, omega arith)
Steps-connections lib h h' (after {h1 = h1} steps step) has =
    let a = Steps-connections lib h h1 steps has in
    let b = Step-connections lib h1 h' step a.0 in (b.0, omega (arith, a, b))

-- With a security manager, a SOURCE_READY of a local source `asked` shows a prompt with that address. When
-- `other` connects before the user says yes, that yes opens a connection to `other`.
pub on_approval-other_source :
    (lib : Library) (info : SourceReadyInfo) (h : Handler) (asked other : Text)
    → h.has_security ≡ true
    → h.source_addr ≡ asked
    → lib.is_local_network asked ≡ true
    → ((with_source lib info h).effects ≡ ask info.friendly_name asked ∷ h.effects)
      × ((port : ℕ) × (es : List Effect) × ((on_approval true
              (on_mice_connection (some other) (with_source lib info h))).effects
            ≡ connect other port ∷ es))
unfolding with_source on_approval on_mice_connection connect_to_source
on_approval-other_source lib info h asked other has e local =
    let later = on_mice_connection (some other) (with_source lib info h) in
    (
      ground (arith, e, local, has),
      (later.rtsp_port, (emit_if later.rtsp_socket drop_rtsp later).effects, refl),
    )
