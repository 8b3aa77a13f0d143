-- ===== src/CastSession/Handlers.antt =====
-- The handlers of the namespaces: src/protocol/CastSession.cpp.
use air_show.Prelude.{
  ◌%◌, ◌^◌, Bool, true, false, not, ◌&&◌, ◌||◌, [], ◌++◌, Option, none, some, if◌then◌else◌, Bytes,
  same_bytes, is_empty, length,
}
use air_show.Dns.Wire.{put32}
use air_show.Settings.{Text}
use air_show.CastStreamingOffer.{
  ℤ, pos, negsuc, CastStream, CastSelection, parse_offer, select_streams, selected, gst_caps,
  build_answer, build_error_reply,
}
use air_show.CastSession.{
  PayloadType, string, binary, CastMessage, Body, pong, receiver_status, empty_media_status,
  invalid_request, buffering, webrtc_error, webrtc_answer, Env, wrote, connected, disconnected,
  play_uri, start_streaming, stop_cast, finished, Session, emit,
}
use air_show.CastSession.Names.{
  ns_device_auth, ns_heartbeat, ns_receiver, ns_media, ns_webrtc, app_id_chrome_mirror,
  app_id_default_media, app_id_audio_mirror, receiver_0, cast_sender, type_key, user_agent_key,
  name_key, request_id_key, app_id_key, media_key, content_id_key, seq_num_key, connect_type,
  close_type, ping_type, get_status_type, launch_type, stop_type, load_type, get_capabilities_type,
  offer_type, capabilities_response_type, answer_type, remoting_text, no_streams_text, failed_text,
}

-- `static_cast<uint32_t>(size)` in front of the message.
abbrev pub frame : Bytes → Bytes
frame bytes = put32 (length bytes % 2 ^ 32) ++ bytes

abbrev pub is_string : PayloadType → Bool
is_string string = true
is_string binary = false

module _ {Json : Type 0} (env : Env Json) where
  unfoldable pub send_message : CastMessage → Session → Session
  unfolding put32
  send_message m s = elim (env.serialize m) [ none ↦ s | some bytes ↦ emit (wrote (frame bytes)) s ]

  -- `makeJsonMsg`.
  unfoldable pub make_json_msg : Bytes → Bytes → Bytes → Body Json → CastMessage
  make_json_msg src dst ns body = record {
    source_id = src;
    destination_id = dst;
    namespace = ns;
    payload_type = string;
    payload_utf8 = env.to_json body;
    payload_binary = [];
  }

  abbrev pub member : CastMessage → Text → Text
  member m key = env.qt.to_string (env.qt.value (env.object m.payload_utf8) key)

  abbrev pub type_of : CastMessage → Text
  type_of m = member m type_key

  abbrev pub request_id : CastMessage → ℤ
  request_id m = env.qt.to_int (env.qt.value (env.object m.payload_utf8) request_id_key) (pos 0)

  -- A payload that is text and, but for the last handler, a JSON document.
  abbrev pub is_json : CastMessage → Bool
  is_json m = is_string m.payload_type && not (env.is_null m.payload_utf8)

  unfoldable pub on_device_auth : CastMessage → Session → Session
  unfolding send_message
  on_device_auth m s =
      if is_string m.payload_type then s else elim (env.has_challenge m.payload_binary) [
        | none ↦ s
        | some false ↦ s
        | some true ↦ elim (env.signature env.window_secs) [
          | none ↦ s
          | some signature ↦
              send_message
                (record {
                  source_id = receiver_0;
                  destination_id = m.source_id;
                  namespace = ns_device_auth;
                  payload_type = binary;
                  payload_utf8 = [];
                  payload_binary = env.auth_response signature;
                })
                s
        ]
      ]

  unfoldable pub stop_streaming : Session → Session
  stop_streaming s =
      let t = record s { streaming = false } in
      if not s.streaming then s else if s.has_pipeline then emit stop_cast t else t

  abbrev pub sender_of : CastMessage → Text
  sender_of m =
      if not (is_empty (member m user_agent_key))
      then member m user_agent_key
      else if not (is_empty (member m name_key))
      then member m name_key
      else cast_sender

  -- The branch of CONNECT.
  unfoldable pub take_connect : CastMessage → Session → Session
  take_connect m s =
      let named = record s { sender_name = sender_of m } in
      let active = record named { did_connect = true } in
      if same_bytes m.destination_id s.transport_id
      then (if s.has_bridge then emit (connected (sender_of m)) active else active)
      else named

  -- The branch of CLOSE.
  unfoldable pub take_close : Session → Session
  unfolding stop_streaming
  take_close s =
      let stopped = stop_streaming s in
      emit finished (if s.did_connect && s.has_bridge then emit disconnected stopped else stopped)

  unfoldable pub on_connection : CastMessage → Session → Session
  unfolding take_connect take_close
  on_connection m s =
      if not (is_json m)
      then s
      else if same_bytes (type_of m) connect_type
      then take_connect m s
      else if same_bytes (type_of m) close_type
      then take_close s
      else s

  unfoldable pub on_heartbeat : CastMessage → Session → Session
  unfolding send_message make_json_msg
  on_heartbeat m s =
      if not (is_json m)
      then s
      else if same_bytes (type_of m) ping_type
      then send_message (make_json_msg m.destination_id m.source_id ns_heartbeat pong) s
      else s

  -- `buildReceiverStatus`.
  unfoldable pub build_receiver_status : ℤ → Session → Body Json
  build_receiver_status id s =
      receiver_status id
        (if s.app_launched && not (is_empty s.launched_app_id)
          then some s.launched_app_id
          else none)
        s.transport_id

  unfoldable pub send_status : CastMessage → Session → Session
  unfolding send_message make_json_msg build_receiver_status
  send_status m s =
      send_message
        (make_json_msg receiver_0 m.source_id ns_receiver (build_receiver_status (request_id m) s))
        s

  abbrev pub is_app : Text → Bool
  is_app id =
      same_bytes id app_id_chrome_mirror
      || same_bytes id app_id_audio_mirror
      || same_bytes id app_id_default_media

  unfoldable pub on_receiver : CastMessage → Session → Session
  unfolding send_status stop_streaming
  on_receiver m s =
      if not (is_json m)
      then s
      else if same_bytes (type_of m) get_status_type
      then send_status m s
      else if same_bytes (type_of m) launch_type
      then send_status m (
          if is_app (member m app_id_key)
          then record s { app_launched = true; launched_app_id = member m app_id_key }
          else s)
      else if same_bytes (type_of m) stop_type
      then send_status m (stop_streaming (record s { app_launched = false; launched_app_id = [] }))
      else s

  abbrev pub media_of : CastMessage → Json
  media_of m = env.qt.value (env.object m.payload_utf8) media_key

  unfoldable pub send_media : CastMessage → Body Json → Session → Session
  unfolding send_message make_json_msg
  send_media m body s = send_message (make_json_msg s.transport_id m.source_id ns_media body) s

  -- The branch of LOAD.
  unfoldable pub take_load : CastMessage → Session → Session
  unfolding send_media
  take_load m s =
      let content_id = env.qt.to_string (env.qt.value (media_of m) content_id_key) in
      if is_empty content_id
      then send_media m (invalid_request (request_id m)) s
      else send_media m (buffering (request_id m) (env.now_ms % 2 ^ 31) (media_of m))
          (if s.has_pipeline && env.init_uri_pipeline then emit (play_uri content_id) s else s)

  unfoldable pub on_media : CastMessage → Session → Session
  unfolding send_media take_load
  on_media m s =
      if not (is_json m)
      then s
      else if same_bytes (type_of m) get_status_type
      then send_media m (empty_media_status (request_id m)) s
      else if same_bytes (type_of m) load_type
      then take_load m s
      else s

  unfoldable pub reply : CastMessage → Body Json → Session → Session
  unfolding send_message make_json_msg
  reply m body s = send_message (make_json_msg m.destination_id m.source_id ns_webrtc body) s

  unfoldable pub refuse : CastMessage → Text → ℤ → Text → Session → Session
  unfolding reply build_error_reply
  refuse m type seq_num text s =
      reply m (webrtc_error (build_error_reply type seq_num (negsuc 0) text)) s

  abbrev pub caps_of : Option CastStream → Text
  caps_of none = []
  caps_of (some stream) = gst_caps env.qt stream

  -- An offer with a selection: the receiver and the pipeline are started, and the offer is answered.
  unfoldable pub take_selection : CastMessage → ℤ → CastSelection → Session → Session
  unfolding stop_streaming refuse reply build_answer gst_caps
  take_selection m seq_num selection s =
      let streams = selected selection in
      let started = record (emit (start_streaming streams) (stop_streaming s)) {
        streaming = true;
      } in
      if not (env.starts streams)
        || not (env.init_cast_pipeline (caps_of selection.video) (caps_of selection.audio))
      then refuse m answer_type seq_num failed_text (stop_streaming started)
      else reply m (webrtc_answer (build_answer seq_num env.udp_port selection)) started

  unfoldable pub on_webrtc : CastMessage → Session → Session
  unfolding refuse parse_offer select_streams take_selection
  on_webrtc m s =
      let seq_num =
        env.qt.to_int (env.qt.value (env.object m.payload_utf8) seq_num_key) (negsuc 0) in
      if not (is_string m.payload_type)
      then s
      else if same_bytes (type_of m) get_capabilities_type
      then refuse m capabilities_response_type seq_num remoting_text s
      else if not (same_bytes (type_of m) offer_type)
      then s
      else elim (parse_offer env.qt (env.object m.payload_utf8)) [
        | none ↦ s
        | some offer ↦
            let selection = select_streams env.qt env.can_decode offer in
            if is_empty (selected selection) || not s.has_pipeline
            then refuse m answer_type offer.seq_num no_streams_text s
            else take_selection m offer.seq_num selection s
      ]
