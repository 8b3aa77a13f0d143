-- ===== src/CastSession.antt =====
-- A CASTV2 connection: src/protocol/CastSession.cpp. The session is a record; what it does to the
-- socket, the pipeline, the display, the security manager and the streaming receiver is a list of
-- effects, latest first.
pub mod Names
pub mod Framing
pub mod Handlers
pub mod Dispatch
use air_show.Prelude.{ℕ, Bool, true, false, not, List, [], ◌∷◌, ◌++◌, Option, Bytes, same_bytes}
use air_show.Settings.{Text}
use air_show.CastStreamingOffer.{Qt, ℤ, CastStream, Answer, ErrorReply}
use air_show.CastSession.Names.{transport_prefix}

pub data PayloadType : Type 0 where
  string binary : PayloadType

-- `CastMessage`, of the protobuf description.
pub record CastMessage : Type 0 where
  pub source_id : Bytes
  pub destination_id : Bytes
  pub namespace : Bytes
  pub payload_type : PayloadType
  pub payload_utf8 : Bytes
  pub payload_binary : Bytes

-- The JSON objects that replies carry.
pub data Body (Json : Type 0) : Type 0 where
  pong : Body Json
  receiver_status : ℤ → Option Text → Text → Body Json
  empty_media_status : ℤ → Body Json
  invalid_request : ℤ → Body Json
  buffering : ℤ → ℕ → Json → Body Json
  webrtc_error : ErrorReply → Body Json
  webrtc_answer : Answer → Body Json

-- What the code relies on, as it answers at one event: protobuf, JSON, the certificate and the table
-- of signatures, GStreamer, the pipeline, the streaming receiver, the clock, and whether the security
-- manager admits the sender at once.
pub record Env (Json : Type 0) : Type 0 where
  pub qt : Qt Json
  pub parse : Bytes → Option CastMessage
  pub serialize : CastMessage → Option Bytes
  pub is_null : Bytes → Bool
  pub object : Bytes → Json
  pub to_json : Body Json → Bytes
  pub has_challenge : Bytes → Option Bool
  pub window_secs : ℕ
  pub signature : ℕ → Option Bytes
  pub auth_response : Bytes → Bytes
  pub can_decode : Text → Bool
  pub starts : List CastStream → Bool
  pub init_cast_pipeline : Text → Text → Bool
  pub udp_port : ℕ
  pub init_uri_pipeline : Bool
  pub now_ms : ℕ
  pub admits_at_once : Bool

pub data Effect : Type 0 where
  wrote : Bytes → Effect
  asked : Text → Effect
  connected : Text → Effect
  disconnected : Effect
  play_uri : Text → Effect
  start_streaming : List CastStream → Effect
  stop_cast : Effect
  finished : Effect

pub record Session : Type 0 where
  pub has_bridge : Bool
  pub has_pipeline : Bool
  pub approved : Bool
  pub approval_pending : Bool
  pub rejected : Bool
  pub held_messages : List Bytes
  pub did_connect : Bool
  pub transport_id : Bytes
  pub app_launched : Bool
  pub launched_app_id : Text
  pub sender_name : Text
  pub streaming : Bool
  pub effects : List Effect

-- The constructor; `uuid` is the part of the identifier that is drawn.
unfoldable pub new_session : Bool → Bool → Bool → Bytes → Session
new_session has_bridge has_pipeline has_security uuid = record {
  has_bridge = has_bridge;
  has_pipeline = has_pipeline;
  approved = not has_security;
  approval_pending = false;
  rejected = false;
  held_messages = [];
  did_connect = false;
  transport_id = transport_prefix ++ uuid;
  app_launched = false;
  launched_app_id = [];
  sender_name = [];
  streaming = false;
  effects = [];
}

abbrev pub emit : Effect → Session → Session
emit e s = record s { effects = e ∷ s.effects }
