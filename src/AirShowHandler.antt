-- ===== src/AirShowHandler.antt =====
-- The receiver of the AirShow protocol: src/protocol/AirShowHandler.cpp. Its state is a record, and what
-- it does to the socket, the pipeline and the display is a list of effects, latest first.
-- Qt's JSON reader and GStreamer are parameters.
pub mod Frames
use air_show.Prelude.{
  ℕ, zero, suc, ◌+◌, ◌*◌, ◌/◌, ◌%◌, ◌^◌, Bool, true, false, not, ◌&&◌, ◌||◌, List, [], ◌∷◌, ◌++◌,
  Option, none, some, if◌then◌else◌, ltb, ◌==◌, Bytes, length, is_empty, take, drop, same_bytes,
}
use air_show.Settings.{Text}
use air_show.Dns.Wire.{byte_at, slice, be32}

pub data State : Type 0 where
  idle handshake streaming : State

-- `pts` is the 64-bit pattern of the signed time stamp, which is handed on as a GstClockTime.
pub record FrameHeader : Type 0 where
  pub type : ℕ
  pub flags : ℕ
  pub length : ℕ
  pub pts : ℕ

abbrev pub type_video_nal : ℕ
type_video_nal = 1

abbrev pub type_audio : ℕ
type_audio = 2

abbrev pub frame_header_size : ℕ
frame_header_size = 16

unfoldable pub parse_frame_header : Bytes → Option FrameHeader
parse_frame_header bytes =
    if ltb (length bytes) frame_header_size
    then none
    else some (record {
      type = byte_at bytes 0;
      flags = byte_at bytes 1;
      length = be32 bytes 2;
      pts = be32 bytes 6 * 2 ^ 32 + be32 bytes 10;
    })

-- The fields of a HELLO that the handler reads; `version` is the number under that key if it is a
-- natural number. `Value` is a JSON value that is passed on unread.
pub record Hello (Value : Type 0) : Type 0 where
  pub type : Text
  pub version : ℕ
  pub device_name : Text
  pub max_resolution : Value
  pub target_bitrate : Value
  pub fps : Value

pub data Effect (Value : Type 0) : Type 0 where
  hello_ack : Value → Value → Value → Effect Value
  init_pipeline : Effect Value
  connected : Text → Effect Value
  disconnected : Effect Value
  dropped : ℕ → Effect Value
  set_audio_caps : Effect Value
  push_video : ℕ → Bytes → Effect Value
  push_audio : ℕ → Bytes → Effect Value

-- Whether the pipeline has its two sources.
pub record Pipeline : Type 0 where
  pub video_appsrc : Bool
  pub audio_appsrc : Bool

-- What is not under src/: `from_json` gives the HELLO that Qt reads from a line, or nothing where the
-- line is no JSON object; `init_appsrc` is what initialising leaves; `allocates` says whether GStreamer
-- gives a buffer of that size.
pub record Library (Value : Type 0) : Type 0 where
  pub from_json : Bytes → Option (Hello Value)
  pub init_appsrc : Pipeline → Pipeline
  pub allocates : ℕ → Bool

-- `client` is the connected socket; the display (`m_connectionBridge`) is taken to be there.
pub record Handler (Value : Type 0) : Type 0 where
  pub running : Bool
  pub client : Option ℕ
  pub pipeline : Option Pipeline
  pub state : State
  pub audio_cap_set : Bool
  pub read_buffer : Bytes
  pub client_device_name : Text
  pub effects : List (Effect Value)

abbrev pub hello_text : Text
hello_text = b'H' ∷ b'E' ∷ b'L' ∷ b'L' ∷ b'O' ∷ []

-- 16 + (int) length, as a 32-bit pattern: 2 ^ 31 and above are the negative numbers.
abbrev pub frame_total : ℕ → ℕ
frame_total len = (frame_header_size + len) % 2 ^ 32

-- One round of the loop of `handleStreamingData`: the frame that is cut off, and what stays. With a
-- negative count `left` is empty and `remove` removes nothing.
unfoldable pub next_frame : Bytes → Option (Bytes × Bytes)
next_frame buffer =
    if ltb (length buffer) frame_header_size
    then none
    else if ltb (frame_total (be32 buffer 2)) (2 ^ 31)
    then (if ltb (length buffer) (frame_total (be32 buffer 2))
        then none
        else some
            (take (frame_total (be32 buffer 2)) buffer, drop (frame_total (be32 buffer 2)) buffer))
    else some ([], buffer)

abbrev pub has_video : Option Pipeline → Bool
has_video none = false
has_video (some p) = p.video_appsrc

abbrev pub has_audio : Option Pipeline → Bool
has_audio none = false
has_audio (some p) = p.audio_appsrc

module _ {Value : Type 0} where
  abbrev pub emit : Effect Value → Handler Value → Handler Value
  emit e h = record h { effects = e ∷ h.effects }

  -- `disconnectClient`.
  unfoldable pub disconnect_client : Handler Value → Handler Value
  disconnect_client h = record h {
    client = none;
    read_buffer = [];
    audio_cap_set = false;
    state = idle;
    effects = disconnected ∷ (elim h.client [ none ↦ h.effects | some c ↦ dropped c ∷ h.effects ]);
  }

  module _ (lib : Library Value) where
    unfoldable pub push_video_frame : FrameHeader → Bytes → Handler Value → Handler Value
    push_video_frame f payload h =
        if has_video h.pipeline && lib.allocates f.length
        then emit (push_video f.pts payload) h
        else h

    unfoldable pub push_audio_frame : FrameHeader → Bytes → Handler Value → Handler Value
    push_audio_frame f payload h =
        let caps =
          if h.audio_cap_set then h else emit set_audio_caps (record h { audio_cap_set = true }) in
        if has_audio h.pipeline
        then (if lib.allocates f.length then emit (push_audio f.pts payload) caps else caps)
        else h

    -- The `switch` of `processFrame`.
    unfoldable pub process_typed : FrameHeader → Bytes → Handler Value → Handler Value
    unfolding push_video_frame push_audio_frame
    process_typed f payload h =
        if f.type == type_video_nal
        then push_video_frame f payload h
        else if f.type == type_audio
        then push_audio_frame f payload h
        else h

    unfoldable pub process_frame : Bytes → Handler Value → Handler Value
    unfolding process_typed parse_frame_header
    process_frame frame h = elim (parse_frame_header frame) [
      | none ↦ h
      | some f ↦ process_typed f (slice frame frame_header_size f.length) h
    ]

    -- `handleStreamingData` on fuel; `none` is a loop that has not ended.
    unfoldable pub handle_streaming_data : ℕ → Handler Value → Option (Handler Value)
    handle_streaming_data zero h = none
    handle_streaming_data (suc fuel) h = elim (next_frame h.read_buffer) [
      | none ↦ some h
      | some (frame, rest) ↦
          handle_streaming_data fuel (process_frame frame (record h { read_buffer = rest }))
    ]

    -- The line in front of the first newline, and what stands behind it.
    unfoldable pub first_line : Bytes → Bytes → Option (Bytes × Bytes)
    first_line line [] = none
    first_line line (c ∷ rest) =
        if c == b'\n' then some (line, rest) else first_line (line ++ (c ∷ [])) rest

    -- `handleHandshake` from a valid HELLO up to where the rest of the buffer is looked at.
    unfoldable pub accept_hello : Hello Value → Handler Value → Handler Value
    accept_hello hello h =
        let h1 =
          emit (hello_ack hello.max_resolution hello.target_bitrate hello.fps)
            (record h { client_device_name = hello.device_name; state = streaming }) in
        let h2 : Handler Value = elim h.pipeline [
          | none ↦ h1
          | some p ↦
              if p.video_appsrc
              then h1
              else emit init_pipeline (record h1 { pipeline = some (lib.init_appsrc p) })
        ] in
        emit (connected hello.device_name) h2

    abbrev pub is_hello : Hello Value → Bool
    is_hello hello = same_bytes hello.type hello_text && hello.version == 1

    unfoldable pub handle_handshake : ℕ → Handler Value → Option (Handler Value)
    unfolding accept_hello
    handle_handshake fuel h = elim (first_line [] h.read_buffer) [
      | none ↦ some h
      | some (line, rest) ↦
          let h1 : Handler Value = record h { read_buffer = rest } in
          elim (lib.from_json line) [
            | none ↦ some (disconnect_client h1)
            | some hello ↦
                if is_hello hello
                then (if not (is_empty rest)
                    then handle_streaming_data fuel (accept_hello hello h1)
                    else some (accept_hello hello h1))
                else some (disconnect_client h1)
          ]
    ]

    -- The dispatch of `onReadyRead` on the state.
    unfoldable pub on_data : ℕ → State → Handler Value → Option (Handler Value)
    on_data fuel idle h = some h
    on_data fuel handshake h = handle_handshake fuel h
    on_data fuel streaming h = handle_streaming_data fuel h

    -- `onReadyRead`, for the bytes that `readAll` gives.
    unfoldable pub on_ready_read : ℕ → Bytes → Handler Value → Option (Handler Value)
    unfolding on_data
    on_ready_read fuel bytes h = elim h.client [
      | none ↦ some h
      | some c ↦ on_data fuel h.state (record h { read_buffer = h.read_buffer ++ bytes })
    ]

  -- `onNewConnection`, for the socket that `nextPendingConnection` gives.
  unfoldable pub on_new_connection : Option ℕ → Handler Value → Handler Value
  unfolding disconnect_client
  on_new_connection none h = h
  on_new_connection (some incoming) h =
      let h1 : Handler Value = elim h.client [ none ↦ h | some c ↦ disconnect_client h ] in
      record h1 { client = some incoming; state = handshake; read_buffer = [] }

  unfoldable pub on_disconnected : Handler Value → Handler Value
  unfolding disconnect_client
  on_disconnected h = disconnect_client h

  -- `start`, where `listens` says whether the port could be opened.
  unfoldable pub start : Bool → Handler Value → Handler Value × Bool
  start listens h =
      if h.running
      then (h, true)
      else if listens
      then (record h { running = true }, true)
      else (h, false)

  unfoldable pub stop : Handler Value → Handler Value
  unfolding disconnect_client
  stop h =
      if not h.running
      then h
      else (let h1 : Handler Value = elim h.client [ none ↦ h | some c ↦ disconnect_client h ] in
          record h1 { running = false })
