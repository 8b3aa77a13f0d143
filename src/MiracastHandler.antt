-- ===== src/MiracastHandler.antt =====
-- The Miracast receiver: src/protocol/MiracastHandler.cpp, a TCP server for SOURCE_READY messages and an
-- RTSP client that negotiates the stream. Its state is a record; what it does to sockets, the pipeline,
-- the display and the approval prompt is a list of effects, latest first.
pub mod SourceReady
pub mod Rtsp
pub mod Loop
pub mod Exchange
pub mod Sessions
mod Names
pub use Names.*
use air_show.Prelude.{
  ℕ, zero, suc, ◌+◌, Bool, true, false, List, [], ◌∷◌, ◌++◌, Option, none, some, if◌then◌else◌, ltb,
  ◌==◌, ◌&&◌, not, Bytes, same_bytes,
}
use air_show.Settings.{Text}
use air_show.MiracastHandler.SourceReady.{
  Decoders, SourceReadyInfo, Parsed, unended, refused, parsed, parse_source_ready,
}
use air_show.MiracastHandler.Rtsp.{
  Texts, RtspMessage, parse_next_message, build_rtsp_response, rtsp_request, cseq_header,
  server_header, crlf,
}

pub data State : Type 0 where
  idle waiting_source_ready connecting_to_source : State
  negotiating_m1 negotiating_m2 negotiating_m3 negotiating_m4 negotiating_m5 : State
  sending_setup sending_play streaming tearing_down : State

-- What is done to the world. `ask` is the call of `checkConnectionAsync`, whose answer is an event of
-- its own; `connect` is `connectToHost` and what stands in front of it.
pub data Effect : Type 0 where
  write : Text → Effect
  connect : Text → ℕ → Effect
  drop_rtsp : Effect
  drop_mice : Effect
  ask : Text → Text → Effect
  init_pipeline : ℕ → Effect
  play : Effect
  stop_pipeline : Effect
  connected : Text → Effect
  disconnected : Effect

pub record Library : Type 0 where
  pub decoders : Decoders
  pub texts : Texts
  pub is_local_network : Text → Bool

-- `rtsp_socket` and `mice_client` say whether the socket is there, an address is its text, and the
-- three `has_` fields are the collaborators' pointers.
pub record Handler : Type 0 where
  pub running : Bool
  pub state : State
  pub mice_client : Bool
  pub rtsp_socket : Bool
  pub rtsp_buffer : Bytes
  pub source_name : Text
  pub source_id : Text
  pub source_addr : Text
  pub rtsp_port : ℕ
  pub udp_port : ℕ
  pub cseq : ℕ
  pub has_pipeline : Bool
  pub has_bridge : Bool
  pub has_security : Bool
  pub effects : List Effect

abbrev pub emit : Effect → Handler → Handler
emit e h = record h { effects = e ∷ h.effects }

abbrev pub emit_if : Bool → Effect → Handler → Handler
emit_if c e h = if c then emit e h else h

unfoldable pub is_request_of : Text → RtspMessage → Bool
is_request_of method msg = msg.is_request && same_bytes msg.method method

unfoldable pub is_ok : RtspMessage → Bool
is_ok msg = not msg.is_request && msg.status_code == 200

-- `start`, where `listens` says whether the port could be opened.
unfoldable pub start : Bool → Handler → Handler × Bool
start listens h =
    if h.running
    then (h, true)
    else if listens
    then (record h { running = true; state = waiting_source_ready }, true)
    else (h, false)

unfoldable pub stop : Handler → Handler
stop h =
    let h1 = emit_if h.rtsp_socket drop_rtsp h in
    let h2 = emit_if h.mice_client drop_mice h1 in
    let h3 = emit_if h.has_pipeline stop_pipeline h2 in
    if not h.running
    then h
    else record h3 { running = false; state = idle; rtsp_socket = false; mice_client = false }

abbrev pub rest_state : Handler → State
rest_state h = if h.running then waiting_source_ready else idle

unfoldable pub teardown : Handler → Handler
teardown h =
    let h1 = emit_if h.has_pipeline stop_pipeline h in
    let h2 = emit_if h.has_bridge disconnected h1 in
    let h3 = emit_if h.rtsp_socket drop_rtsp h2 in
    let h4 = emit_if h.mice_client drop_mice h3 in
    record h4 {
      rtsp_socket = false;
      mice_client = false;
      rtsp_buffer = [];
      source_name = [];
      source_id = [];
      cseq = 1;
      state = rest_state h;
    }

-- `onMiceConnection`, for the address of the socket that `nextPendingConnection` gives.
unfoldable pub on_mice_connection : Option Text → Handler → Handler
on_mice_connection none h = h
on_mice_connection (some addr) h = record (emit_if h.mice_client drop_mice h) {
  source_addr = addr;
  mice_client = true;
  state = waiting_source_ready;
}

unfoldable pub connect_to_source : Handler → Handler
connect_to_source h =
    emit (connect h.source_addr h.rtsp_port) (record (emit_if h.rtsp_socket drop_rtsp h) {
      rtsp_buffer = [];
      cseq = 1;
      rtsp_socket = true;
      state = connecting_to_source;
    })

-- The refusal of a source, in `parseMiceMessage` and in the callback of the approval.
unfoldable pub refuse_source : Handler → Handler
refuse_source h = record (emit_if h.mice_client drop_mice h) { state = waiting_source_ready }

-- The callback that `parseMiceMessage` gives to `checkConnectionAsync`.
unfoldable pub on_approval : Bool → Handler → Handler
unfolding connect_to_source refuse_source
on_approval approved h = if approved then connect_to_source h else refuse_source h

unfoldable pub on_rtsp_connected : Handler → Handler
on_rtsp_connected h = record h { state = negotiating_m1 }

unfoldable pub on_rtsp_disconnected_in : State → Handler → Handler
unfolding teardown
on_rtsp_disconnected_in streaming h = teardown h
on_rtsp_disconnected_in s h = record h {
  rtsp_socket = false;
  rtsp_buffer = [];
  state = rest_state h;
}

unfoldable pub on_rtsp_disconnected : Handler → Handler
unfolding on_rtsp_disconnected_in
on_rtsp_disconnected h = on_rtsp_disconnected_in h.state h

abbrev pub with_info : SourceReadyInfo → Handler → Handler
with_info info h = record h {
  source_name = info.friendly_name;
  rtsp_port = if ltb 0 info.rtsp_port then info.rtsp_port else rtsp_port_default;
  source_id = info.source_id;
}

abbrev pub no_info : SourceReadyInfo
no_info = record { friendly_name = []; rtsp_port = 0; source_id = [] }

module _ (lib : Library) where
  unfoldable pub with_source : SourceReadyInfo → Handler → Handler
  unfolding connect_to_source refuse_source
  with_source info h =
      let h1 = with_info info h in
      if h.has_security
      then (if lib.is_local_network h.source_addr
          then emit (ask info.friendly_name h.source_addr) h1
          else refuse_source h1)
      else connect_to_source h1

  -- `parseMiceMessage`, behind the parser.
  unfoldable pub use_parsed : Parsed → Handler → Handler
  unfolding with_source
  use_parsed unended h = h
  use_parsed refused h = h
  use_parsed (parsed info) h = with_source info h

  -- `parseMiceMessage`.
  unfoldable pub parse_mice_message : Bytes → Handler → Handler
  unfolding use_parsed parse_source_ready
  parse_mice_message bytes h = use_parsed (parse_source_ready lib.decoders bytes no_info) h

  -- `onMiceData`, for the bytes that `readAll` gives.
  unfoldable pub on_mice_data : Bytes → Handler → Handler
  unfolding parse_mice_message
  on_mice_data bytes h = if h.mice_client then parse_mice_message bytes h else h

  -- `sendRtspRequest`, without a body as all its calls are.
  unfoldable pub send_rtsp_request : Text → Text → Text → Handler → Handler
  unfolding rtsp_request
  send_rtsp_request method uri extra_headers h =
      if h.rtsp_socket
      then emit (write (rtsp_request lib.texts method uri h.cseq extra_headers []))
          (record h { cseq = suc h.cseq })
      else h

  abbrev pub respond : RtspMessage → Text → Handler → Handler
  respond msg body h = emit (write (build_rtsp_response lib.texts msg.cseq 200 body)) h

  abbrev pub m1_response : ℕ → Text
  m1_response cseq =
      status_line
      ++ cseq_header
      ++ lib.texts.number cseq
      ++ crlf
      ++ server_header
      ++ public_header
      ++ crlf

  abbrev pub rtsp_uri : Handler → Text
  rtsp_uri h = rtsp_scheme ++ h.source_addr ++ (b':' ∷ lib.texts.number h.rtsp_port) ++ stream_path

  abbrev pub transport_header : Handler → Text
  transport_header h = transport_text ++ lib.texts.number h.udp_port ++ crlf

  -- One round of the loop of `onRtspData`: the `switch` on the state.
  unfoldable pub process_in : State → RtspMessage → Handler → Handler
  unfolding is_request_of is_ok teardown send_rtsp_request
  process_in negotiating_m1 msg h =
      if is_request_of options_text msg
      then record (send_rtsp_request options_text star_text require_header
          (emit (write (m1_response msg.cseq)) h)) { state = negotiating_m2 }
      else h
  process_in negotiating_m2 msg h = if is_ok msg then record h { state = negotiating_m3 } else h
  process_in negotiating_m3 msg h =
      if is_request_of get_parameter_text msg
      then record (respond msg wfd_capability_response h) { state = negotiating_m4 }
      else h
  process_in negotiating_m4 msg h =
      if is_request_of set_parameter_text msg
      then record (respond msg [] h) { state = negotiating_m5 }
      else h
  process_in negotiating_m5 msg h =
      if is_request_of set_parameter_text msg
      then record (send_rtsp_request setup_text (rtsp_uri h) (transport_header h)
          (respond msg [] h)) { state = sending_setup }
      else h
  process_in sending_setup msg h =
      if is_ok msg
      then record (send_rtsp_request play_text (rtsp_uri h) []
          (emit_if h.has_pipeline (init_pipeline h.udp_port) h)) { state = sending_play }
      else h
  process_in sending_play msg h =
      if is_ok msg
      then record (emit_if h.has_bridge (connected h.source_name) (emit_if h.has_pipeline play h)) {
        state = streaming;
      }
      else h
  process_in streaming msg h =
      if is_request_of get_parameter_text msg
      then respond msg [] h
      else if is_request_of teardown_text msg
      then teardown (respond msg [] h)
      else h
  process_in s msg h = h

  unfoldable pub process_message : RtspMessage → Handler → Handler
  unfolding process_in
  process_message msg h = process_in h.state msg h

  -- The loop of `onRtspData` on fuel: `none` is a loop that has not ended.
  unfoldable pub process_messages : ℕ → Handler → Option Handler
  unfolding process_message parse_next_message
  process_messages zero h = none
  process_messages (suc fuel) h = elim (parse_next_message lib.texts h.rtsp_buffer) [
    | none ↦ some h
    | some (msg, rest) ↦
        process_messages fuel (process_message msg (record h { rtsp_buffer = rest }))
  ]

  -- `onRtspData`, for the bytes that `readAll` gives.
  unfoldable pub on_rtsp_data : ℕ → Bytes → Handler → Option Handler
  unfolding process_messages
  on_rtsp_data fuel bytes h =
      if h.rtsp_socket
      then process_messages fuel (record h { rtsp_buffer = h.rtsp_buffer ++ bytes })
      else some h
