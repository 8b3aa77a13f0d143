-- ===== src/Tests/Miracast.antt =====
-- The Miracast receiver of src/protocol/MiracastHandler.cpp at concrete inputs.
use air_show.Prelude.{
  ℕ, ◌<◌, ◌+◌, ◌^◌, ◌≤◌, ◌≡◌, ◌≢◌, refl, true, false, List, [], ◌∷◌, ◌++◌, none, some, Bytes,
  length, take, arith,
}
use air_show.Dns.Wire.{put16}
use air_show.Settings.{Text}
use air_show.MiracastHandler.{
  Handler, Library, State, streaming, sending_play, negotiating_m3, Effect, ask, connect,
  on_approval, on_mice_connection, with_source, is_ok, is_request_of, teardown_text,
  process_message, process_in, process_messages,
}
use air_show.MiracastHandler.SourceReady.{SourceReadyInfo, parsed, unended, parse_source_ready}
use air_show.MiracastHandler.SourceReady.Tlvs.{
  encode_tlvs, Tlv, encode_source_ready, take_tlvs, parse_source_ready-encode,
  parse_source_ready-ends,
}
use air_show.MiracastHandler.Rtsp.{RtspMessage, parse_headers, index_of, crlf, message_end}
use air_show.MiracastHandler.Exchange.{Exchange, script, process_list, process_list-Exchange}
use air_show.MiracastHandler.Sessions.{
  Steps, here, after, approval, HasSocket, Steps-HasSocket, Steps-connections, connections,
  approvals, on_approval-other_source,
}
use air_show.MiracastHandler.Loop.{process_messages-negative}

abbrev lib : Library
lib = record {
  decoders = record { utf16_le = λ b. b; from_utf8 = λ b. b };
  texts = record {
    from_utf8 = λ b. b;
    trimmed = λ t. t;
    to_lower = λ t. t;
    to_int = λ t. 4294966296;
    number = λ n. n ∷ [];
  };
  is_local_network = λ a. true;
}

abbrev handler_in : State → Bytes → Handler
handler_in s buffer = record {
  running = true;
  state = s;
  mice_client = true;
  rtsp_socket = true;
  rtsp_buffer = buffer;
  source_name = [];
  source_id = [];
  source_addr = 1 ∷ [];
  rtsp_port = 7236;
  udp_port = 1028;
  cseq = 1;
  has_pipeline = true;
  has_bridge = true;
  has_security = true;
  effects = [];
}

abbrev info : SourceReadyInfo
info = record { friendly_name = 80 ∷ []; rtsp_port = 0; source_id = [] }

abbrev tlvs : List Tlv
tlvs = record { type = 1; value = 80 ∷ 67 ∷ [] } ∷ record { type = 2; value = 28 ∷ 68 ∷ [] } ∷ []

tlvs_small : length (encode_tlvs tlvs) < 65532
unfolding put16
tlvs_small = omega arith

parse_source_ready-encode_example :
    parse_source_ready lib.decoders (encode_source_ready 1 tlvs ++ (5 ∷ [])) info
    ≡ parsed (take_tlvs lib.decoders tlvs info)
parse_source_ready-encode_example =
    parse_source_ready-encode lib.decoders 1 tlvs (5 ∷ []) info
      ((omega arith, omega arith), ((omega arith, omega arith), tt)) tlvs_small

parse_source_ready-ends_example :
    parse_source_ready lib.decoders (0 ∷ 9 ∷ 1 ∷ 1 ∷ 0 ∷ []) info ≢ unended
parse_source_ready-ends_example = parse_source_ready-ends lib.decoders (0 ∷ 9 ∷ 1 ∷ 1 ∷ 0 ∷ []) info

abbrev ok_message : RtspMessage
ok_message = record {
  method = [];
  uri = [];
  status_code = 200;
  cseq = 3;
  content_type = [];
  content_length = 0;
  body = [];
  is_request = false;
}

played : (process_list lib (ok_message ∷ []) (handler_in sending_play [])).state ≡ streaming
unfolding process_message process_in is_ok
played = refl

process_list-Exchange_example : Exchange (script sending_play) (ok_message ∷ [])
process_list-Exchange_example =
    process_list-Exchange lib (ok_message ∷ []) (handler_in sending_play []) played

abbrev after_approval : Handler
after_approval = on_approval true (handler_in negotiating_m3 [])

abbrev approved_steps : Steps lib (handler_in negotiating_m3 []) after_approval
approved_steps = after here (approval true)

Steps-HasSocket_example : HasSocket after_approval
Steps-HasSocket_example =
    Steps-HasSocket lib (handler_in negotiating_m3 []) after_approval approved_steps refl

Steps-connections_example :
    (after_approval.has_security ≡ true)
    × (connections after_approval.effects ≡ 0 + approvals approved_steps)
Steps-connections_example =
    Steps-connections lib (handler_in negotiating_m3 []) after_approval approved_steps refl

abbrev asked : Text
asked = 1 ∷ []

abbrev other : Text
other = 2 ∷ []

on_approval-other_source_example :
    ((with_source lib info (handler_in negotiating_m3 [])).effects ≡ ask (80 ∷ []) asked ∷ [])
    × ((port : ℕ) × (es : List Effect) × ((on_approval true (
            on_mice_connection
              (some other)
              (with_source lib info (handler_in negotiating_m3 [])))).effects
          ≡ connect other port ∷ es))
on_approval-other_source_example =
    on_approval-other_source lib info (handler_in negotiating_m3 []) asked other refl refl refl

-- A request with a negative Content-Length.
abbrev negative_request : Bytes
negative_request =
    b'A' ∷ 10 ∷ b'c' ∷ b'o' ∷ b'n' ∷ b't' ∷ b'e' ∷ b'n' ∷ b't' ∷ b'-' ∷ b'l' ∷ b'e' ∷ b'n' ∷ b'g'
    ∷ b't' ∷ b'h' ∷ b':' ∷ b'x' ∷ 13 ∷ 10 ∷ 13 ∷ 10 ∷ []

negative_found : index_of (crlf ++ crlf) negative_request 0 ≡ some 18
unfolding index_of
negative_found = refl

negative_length : 2 ^ 31 ≤ (parse_headers lib.texts (take 18 negative_request)).content_length
unfolding parse_headers
negative_length = omega arith

negative_end :
    2 ^ 31 ≤ message_end lib.texts 18 (parse_headers lib.texts (take 18 negative_request))
unfolding parse_headers
negative_end = omega arith

negative_other :
    is_request_of teardown_text (parse_headers lib.texts (take 18 negative_request)) ≡ false
unfolding parse_headers is_request_of
negative_other = refl

process_messages-negative_example :
    process_messages lib 50 (handler_in streaming negative_request) ≡ none
process_messages-negative_example =
    process_messages-negative lib 50 18 (handler_in streaming negative_request) negative_found
      negative_length negative_end negative_other
