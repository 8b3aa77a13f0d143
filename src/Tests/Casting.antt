-- ===== src/Tests/Casting.antt =====
-- A CASTV2 connection at concrete inputs.
use air_show.Prelude.{
  ◌≡◌, refl, true, false, List, [], ◌∷◌, ◌++◌, Option, none, some, if◌then◌else◌, ◌==◌, Bytes,
  same_bytes, arith, get_or, drop,
}
use air_show.CastStreamingOffer.{Qt}
use air_show.CastSession.{string, CastMessage, Env, Session, new_session}
use air_show.CastSession.Names.{
  app_id_key, app_id_chrome_mirror, ns_media, ns_receiver, receiver_0, type_key, launch_type,
  get_status_type, load_type,
}
use air_show.CastSession.Framing.{on_ready_read, take_payload}
use air_show.CastSession.Framing.Whole.{after, frames_of, take_all, on_ready_read-frames}
use air_show.CastSession.Dispatch.{on_approval_resolved}
use air_show.CastSession.Dispatch.Idle.{IsIdle}
use air_show.CastSession.Dispatch.Consent.{
  Event, payload, answered, dropped, run, new_session-IsIdle,
}

-- Objects that are no more than their type.
abbrev qt : Qt Bytes
qt = record {
  value = λ object key.
      if same_bytes key type_key
      then object
      else if same_bytes key app_id_key
      then app_id_chrome_mirror
      else [];
  to_string = λ json. json;
  is_double = λ json. false;
  to_int = λ json default. default;
  to_uint32 = λ json. 0;
  to_array = λ json. [];
  trimmed = λ text. text;
  to_lower = λ text. text;
  parse_int = λ text. none;
  parse_hex = λ text. none;
  number = λ n. [];
}

-- A message whose first byte is its namespace.
abbrev parse : Bytes → Option CastMessage
parse bytes = some (record {
  source_id = b's' ∷ [];
  destination_id = receiver_0;
  namespace = if get_or bytes 0 0 == 1 then ns_media else ns_receiver;
  payload_type = string;
  payload_utf8 = drop 1 bytes;
  payload_binary = [];
})

abbrev env : Env Bytes
env = record {
  qt = qt;
  parse = parse;
  serialize = λ m. some (2 ∷ m.payload_utf8);
  is_null = λ bytes. false;
  object = λ bytes. bytes;
  to_json = λ body. [];
  has_challenge = λ bytes. none;
  window_secs = 0;
  signature = λ secs. none;
  auth_response = λ bytes. bytes;
  can_decode = λ codec. false;
  starts = λ streams. true;
  init_cast_pipeline = λ video audio. true;
  udp_port = 5000;
  init_uri_pipeline = true;
  now_ms = 0;
  admits_at_once = false;
}

abbrev fresh : Session
fresh = new_session true true true (b'a' ∷ b'b' ∷ [])

abbrev events : List (Env Bytes × Event)
events =
    (env, payload (2 ∷ get_status_type))
    ∷ (env, payload (2 ∷ launch_type))
    ∷ (env, payload (1 ∷ load_type))
    ∷ (env, answered false)
    ∷ (env, payload (2 ∷ launch_type))
    ∷ (env, dropped)
    ∷ []

new_session-IsIdle_example : IsIdle (run events fresh)
new_session-IsIdle_example = new_session-IsIdle true true (b'a' ∷ b'b' ∷ []) events refl

on_ready_read-frames_example :
    on_ready_read env
      (frames_of ((2 ∷ launch_type) ∷ (2 ∷ get_status_type) ∷ []) ++ (0 ∷ 0 ∷ []))
      (after 0 [])
      fresh
    ≡ (after 11 (0 ∷ 0 ∷ []), take_all env ((2 ∷ launch_type) ∷ (2 ∷ get_status_type) ∷ []) fresh)
unfolding air_show.Dns.Wire.put32
on_ready_read-frames_example =
    on_ready_read-frames env 0 ((2 ∷ launch_type) ∷ (2 ∷ get_status_type) ∷ []) (0 ∷ 0 ∷ []) fresh
      (omega arith, (omega arith, tt)) (omega arith) (omega arith)

-- A LAUNCH is held until the answer, and replayed then.
launched :
    (on_approval_resolved env true (take_payload env (2 ∷ launch_type) fresh)).app_launched ≡ true
unfolding on_approval_resolved take_payload new_session
launched = refl
