-- ===== src/CastStreamingOffer.antt =====
-- The negotiation of a Cast session: src/cast/CastStreamingOffer.cpp. A text is the list of its characters.
-- Qt's JSON values and its reading of numbers are parameters.
pub mod Selection
pub mod Streams
mod Names
pub use Names.*
use air_show.Prelude.{
  ℕ, zero, suc, ◌+◌, ◌*◌, ◌%◌, ◌^◌, Bool, true, false, List, [], ◌∷◌, ◌++◌, Option, none, some,
  if◌then◌else◌, ltb, leb, ◌==◌, ◌&&◌, ◌||◌, not, Bytes, length, is_empty, take, drop, same_bytes,
}
use air_show.Settings.{Text}
use air_show.MiracastHandler.Rtsp.{split}

-- An `int`.
pub data ℤ : Type 0 where
  pos : ℕ → ℤ
  negsuc : ℕ → ℤ

-- `value` is the member of an object, undefined where there is none. `to_int` takes the number that stands
-- for what is no integer, `to_uint32` is the double cut to 32 bits, `parse_int` and `parse_hex` read a text
-- to the base of 10 and 16, `number` is the decimal text, and `to_lower` goes to a byte string.
pub record Qt (Json : Type 0) : Type 0 where
  pub value : Json → Text → Json
  pub to_string : Json → Text
  pub is_double : Json → Bool
  pub to_int : Json → ℤ → ℤ
  pub to_uint32 : Json → ℕ
  pub to_array : Json → List Json
  pub trimmed : Text → Text
  pub to_lower : Text → Text
  pub parse_int : Text → Option ℤ
  pub parse_hex : Text → Option ℕ
  pub number : ℤ → Text

pub data Kind : Type 0 where
  audio video : Kind

abbrev pub is_audio : Kind → Bool
is_audio audio = true
is_audio video = false

pub record CastStream : Type 0 where
  pub kind : Kind
  pub index : ℤ
  pub codec : Text
  pub sender_ssrc : ℕ
  pub rtp_payload_type : ℤ
  pub rtp_timebase : ℕ
  pub channels : ℤ
  pub target_delay_ms : ℕ
  pub aes_key : Bytes
  pub aes_iv_mask : Bytes

pub record CastOffer : Type 0 where
  pub seq_num : ℤ
  pub streams : List CastStream

pub record CastSelection : Type 0 where
  pub audio : Option CastStream
  pub video : Option CastStream

unfoldable pub receiver_ssrc : CastStream → ℕ
receiver_ssrc s = (s.sender_ssrc + 1) % 2 ^ 32

abbrev pub one_or_two : ℤ → Bool
one_or_two (pos n) = leb 1 n && leb n 2
one_or_two (negsuc n) = false

abbrev pub timebase_of : Option ℤ → ℕ
timebase_of none = 0
timebase_of (some (negsuc n)) = 0
timebase_of (some (pos n)) = if leb 16000 n && leb n 90000 then n else 0

abbrev pub delay_of : ℤ → ℕ
delay_of (pos n) = if ltb 0 n && leb n 5000 then n else 400
delay_of (negsuc n) = 400

abbrev pub is_negative : ℤ → Bool
is_negative (pos n) = false
is_negative (negsuc n) = true

abbrev pub kind_of : Text → Option Kind
kind_of type =
    if same_bytes type audio_source_text
    then some audio
    else if same_bytes type video_source_text
    then some video
    else none

abbrev pub with_keys : CastStream → Option Bytes → Option Bytes → Option CastStream
with_keys s none iv = none
with_keys s (some key) none = none
with_keys s (some key) (some iv) =
    if is_negative s.index || (is_empty s.codec || s.rtp_timebase == 0)
    then none
    else some (record s { aes_key = key; aes_iv_mask = iv })

-- The first stream with a property, as the loops that `break` find it.
unfoldable pub first_stream : (CastStream → Bool) → List CastStream → Option CastStream
first_stream p [] = none
first_stream p (s ∷ ss) = if p s then some s else first_stream p ss

abbrev pub codecs : List Text
codecs = vp8_codec ∷ vp9_codec ∷ h264_codec ∷ []

module _ {Json : Type 0} (qt : Qt Json) where
  -- The pairs of digits of `parseHex128`.
  unfoldable pub parse_hex_pairs : ℕ → Text → Option Bytes
  parse_hex_pairs zero hex = some []
  parse_hex_pairs (suc n) hex =
      let rest = parse_hex_pairs n (drop 2 hex) in
      elim (qt.parse_hex (take 2 hex)) [
        | none ↦ none
        | some v ↦ elim rest [ none ↦ none | some bytes ↦ some (v % 256 ∷ bytes) ]
      ]

  unfoldable pub parse_hex128 : Text → Option Bytes
  unfolding parse_hex_pairs
  parse_hex128 hex = if length hex == 32 then parse_hex_pairs 16 hex else none

  -- `parseTimebase`: two parts exactly, the first of which is 1.
  abbrev pub timebase_parts : Text × List Text → ℕ
  timebase_parts (first, []) = 0
  timebase_parts (first, second ∷ []) =
      if same_bytes (qt.trimmed first) one_text
      then timebase_of (qt.parse_int (qt.trimmed second))
      else 0
  timebase_parts (first, second ∷ third ∷ more) = 0

  unfoldable pub parse_timebase : Text → ℕ
  unfolding split
  parse_timebase s = timebase_parts (split b'/' s)

  -- The numbers and texts of a stream, with the keys still to come.
  abbrev pub fields_of : Kind → Json → CastStream
  fields_of kind o = record {
    kind = kind;
    index = qt.to_int (qt.value o index_key) (pos 0);
    codec = qt.to_lower (qt.to_string (qt.value o codec_name_key));
    sender_ssrc = qt.to_uint32 (qt.value o ssrc_key);
    rtp_payload_type = qt.to_int (qt.value o rtp_payload_type_key) (pos 0);
    rtp_timebase = parse_timebase (qt.to_string (qt.value o time_base_key));
    channels = qt.to_int (qt.value o channels_key) (pos (if is_audio kind then 2 else 1));
    target_delay_ms = delay_of (qt.to_int (qt.value o target_delay_key) (pos 400));
    aes_key = [];
    aes_iv_mask = [];
  }

  unfoldable pub parse_stream : Json → Option CastStream
  unfolding parse_hex128 parse_timebase
  parse_stream o = elim (kind_of (qt.to_string (qt.value o type_key))) [
    | none ↦ none
    | some kind ↦
        if not (qt.is_double (qt.value o index_key))
          || (not (qt.is_double (qt.value o ssrc_key))
              || not (qt.is_double (qt.value o rtp_payload_type_key)))
        then none
        else with_keys (fields_of kind o) (parse_hex128 (qt.to_string (qt.value o aes_key_key)))
            (parse_hex128 (qt.to_string (qt.value o aes_iv_mask_key)))
  ]

  unfoldable pub parse_streams : List Json → List CastStream
  unfolding parse_stream
  parse_streams [] = []
  parse_streams (v ∷ vs) = elim (parse_stream v) [
    | none ↦ parse_streams vs
    | some s ↦ s ∷ parse_streams vs
  ]

  unfoldable pub parse_offer : Json → Option CastOffer
  unfolding parse_streams
  parse_offer message =
      if not (same_bytes (qt.to_string (qt.value message type_key)) offer_type)
        || not (qt.is_double (qt.value message seq_num_key))
      then none
      else some (record {
        seq_num = qt.to_int (qt.value message seq_num_key) (pos 0);
        streams =
            parse_streams
              (qt.to_array (qt.value (qt.value message offer_key) supported_streams_key));
      })

  unfoldable pub gst_caps : CastStream → Text
  gst_caps s =
      if not (is_audio s.kind)
      then (if same_bytes s.codec vp8_codec
          then vp8_caps
          else if same_bytes s.codec vp9_codec
          then vp9_caps
          else if same_bytes s.codec h264_codec
          then h264_caps
          else [])
      else if same_bytes s.codec opus_codec && one_or_two s.channels
      then opus_caps ++ qt.number s.channels ++ rate_caps ++ qt.number (pos s.rtp_timebase)
      else []

  module _ (can_decode : Text → Bool) where
    unfoldable pub usable : CastStream → Bool
    unfolding gst_caps
    usable s = not (is_empty (gst_caps s)) && can_decode s.codec

    -- The test of the inner loop over the streams, for one codec.
    unfoldable pub usable_video : Text → CastStream → Bool
    unfolding usable
    usable_video codec s = not (is_audio s.kind) && (same_bytes s.codec codec && usable s)

    unfoldable pub usable_audio : CastStream → Bool
    unfolding usable
    usable_audio s = is_audio s.kind && usable s

    -- The loop over the codecs, in the order of preference.
    unfoldable pub first_video : List Text → List CastStream → Option CastStream
    unfolding first_stream usable_video
    first_video [] ss = none
    first_video (codec ∷ codecs) ss = elim (first_stream (usable_video codec) ss) [
      | none ↦ first_video codecs ss
      | some s ↦ some s
    ]

    unfoldable pub select_streams : CastOffer → CastSelection
    unfolding first_video usable_audio
    select_streams offer = record {
      video = first_video codecs offer.streams;
      audio = first_stream usable_audio offer.streams;
    }

-- The members of an ANSWER, in the order of the source.
pub record Answer : Type 0 where
  pub seq_num : ℤ
  pub udp_port : ℕ
  pub send_indexes : List ℤ
  pub ssrcs : List ℕ

abbrev pub selected : CastSelection → List CastStream
selected sel =
    let video : List CastStream = elim sel.video [ none ↦ [] | some s ↦ s ∷ [] ] in
    elim sel.audio [ none ↦ video | some s ↦ s ∷ video ]

abbrev pub indexes_of : List CastStream → List ℤ
indexes_of [] = []
indexes_of (s ∷ ss) = s.index ∷ indexes_of ss

unfoldable pub ssrcs_of : List CastStream → List ℕ
unfolding receiver_ssrc
ssrcs_of [] = []
ssrcs_of (s ∷ ss) = receiver_ssrc s ∷ ssrcs_of ss

unfoldable pub build_answer : ℤ → ℕ → CastSelection → Answer
unfolding ssrcs_of
build_answer seq_num udp_port selection = record {
  seq_num = seq_num;
  udp_port = udp_port;
  send_indexes = indexes_of (selected selection);
  ssrcs = ssrcs_of (selected selection);
}

-- The members of an error reply.
pub record ErrorReply : Type 0 where
  pub type : Text
  pub seq_num : ℤ
  pub code : ℤ
  pub description : Text

unfoldable pub build_error_reply : Text → ℤ → ℤ → Text → ErrorReply
build_error_reply type seq_num code description = record {
  type = type;
  seq_num = seq_num;
  code = code;
  description = description;
}
