-- ===== src/CastStreamingOffer/Names.antt =====
-- The codecs, the caps and the members of offers that src/cast/CastStreamingOffer.cpp names.
use air_show.Prelude.{[], ◌∷◌}
use air_show.Settings.{Text}

abbrev pub vp8_codec : Text
vp8_codec = b'v' ∷ b'p' ∷ b'8' ∷ []

abbrev pub vp9_codec : Text
vp9_codec = b'v' ∷ b'p' ∷ b'9' ∷ []

abbrev pub h264_codec : Text
h264_codec = b'h' ∷ b'2' ∷ b'6' ∷ b'4' ∷ []

abbrev pub opus_codec : Text
opus_codec = b'o' ∷ b'p' ∷ b'u' ∷ b's' ∷ []

abbrev pub vp8_caps : Text
vp8_caps = b'v' ∷ b'i' ∷ b'd' ∷ b'e' ∷ b'o' ∷ b'/' ∷ b'x' ∷ b'-' ∷ b'v' ∷ b'p' ∷ b'8' ∷ []

abbrev pub vp9_caps : Text
vp9_caps = b'v' ∷ b'i' ∷ b'd' ∷ b'e' ∷ b'o' ∷ b'/' ∷ b'x' ∷ b'-' ∷ b'v' ∷ b'p' ∷ b'9' ∷ []

abbrev pub h264_caps : Text
h264_caps =
    b'v' ∷ b'i' ∷ b'd' ∷ b'e' ∷ b'o' ∷ b'/' ∷ b'x' ∷ b'-' ∷ b'h' ∷ b'2' ∷ b'6' ∷ b'4' ∷ b',' ∷ b's'
    ∷ b't' ∷ b'r' ∷ b'e' ∷ b'a' ∷ b'm' ∷ b'-' ∷ b'f' ∷ b'o' ∷ b'r' ∷ b'm' ∷ b'a' ∷ b't' ∷ b'='
    ∷ b'b' ∷ b'y' ∷ b't' ∷ b'e' ∷ b'-' ∷ b's' ∷ b't' ∷ b'r' ∷ b'e' ∷ b'a' ∷ b'm' ∷ b',' ∷ b'a'
    ∷ b'l' ∷ b'i' ∷ b'g' ∷ b'n' ∷ b'm' ∷ b'e' ∷ b'n' ∷ b't' ∷ b'=' ∷ b'a' ∷ b'u' ∷ []

abbrev pub opus_caps : Text
opus_caps =
    b'a' ∷ b'u' ∷ b'd' ∷ b'i' ∷ b'o' ∷ b'/' ∷ b'x' ∷ b'-' ∷ b'o' ∷ b'p' ∷ b'u' ∷ b's' ∷ b',' ∷ b'c'
    ∷ b'h' ∷ b'a' ∷ b'n' ∷ b'n' ∷ b'e' ∷ b'l' ∷ b'-' ∷ b'm' ∷ b'a' ∷ b'p' ∷ b'p' ∷ b'i' ∷ b'n'
    ∷ b'g' ∷ b'-' ∷ b'f' ∷ b'a' ∷ b'm' ∷ b'i' ∷ b'l' ∷ b'y' ∷ b'=' ∷ b'0' ∷ b',' ∷ b'c' ∷ b'h'
    ∷ b'a' ∷ b'n' ∷ b'n' ∷ b'e' ∷ b'l' ∷ b's' ∷ b'=' ∷ []

abbrev pub rate_caps : Text
rate_caps = b',' ∷ b'r' ∷ b'a' ∷ b't' ∷ b'e' ∷ b'=' ∷ []

abbrev pub one_text : Text
one_text = b'1' ∷ []

abbrev pub audio_source_text : Text
audio_source_text =
    b'a' ∷ b'u' ∷ b'd' ∷ b'i' ∷ b'o' ∷ b'_' ∷ b's' ∷ b'o' ∷ b'u' ∷ b'r' ∷ b'c' ∷ b'e' ∷ []

abbrev pub video_source_text : Text
video_source_text =
    b'v' ∷ b'i' ∷ b'd' ∷ b'e' ∷ b'o' ∷ b'_' ∷ b's' ∷ b'o' ∷ b'u' ∷ b'r' ∷ b'c' ∷ b'e' ∷ []

abbrev pub offer_type : Text
offer_type = b'O' ∷ b'F' ∷ b'F' ∷ b'E' ∷ b'R' ∷ []

abbrev pub type_key : Text
type_key = b't' ∷ b'y' ∷ b'p' ∷ b'e' ∷ []

abbrev pub index_key : Text
index_key = b'i' ∷ b'n' ∷ b'd' ∷ b'e' ∷ b'x' ∷ []

abbrev pub ssrc_key : Text
ssrc_key = b's' ∷ b's' ∷ b'r' ∷ b'c' ∷ []

abbrev pub rtp_payload_type_key : Text
rtp_payload_type_key =
    b'r' ∷ b't' ∷ b'p' ∷ b'P' ∷ b'a' ∷ b'y' ∷ b'l' ∷ b'o' ∷ b'a' ∷ b'd' ∷ b'T' ∷ b'y' ∷ b'p' ∷ b'e'
    ∷ []

abbrev pub codec_name_key : Text
codec_name_key = b'c' ∷ b'o' ∷ b'd' ∷ b'e' ∷ b'c' ∷ b'N' ∷ b'a' ∷ b'm' ∷ b'e' ∷ []

abbrev pub time_base_key : Text
time_base_key = b't' ∷ b'i' ∷ b'm' ∷ b'e' ∷ b'B' ∷ b'a' ∷ b's' ∷ b'e' ∷ []

abbrev pub channels_key : Text
channels_key = b'c' ∷ b'h' ∷ b'a' ∷ b'n' ∷ b'n' ∷ b'e' ∷ b'l' ∷ b's' ∷ []

abbrev pub target_delay_key : Text
target_delay_key = b't' ∷ b'a' ∷ b'r' ∷ b'g' ∷ b'e' ∷ b't' ∷ b'D' ∷ b'e' ∷ b'l' ∷ b'a' ∷ b'y' ∷ []

abbrev pub aes_key_key : Text
aes_key_key = b'a' ∷ b'e' ∷ b's' ∷ b'K' ∷ b'e' ∷ b'y' ∷ []

abbrev pub aes_iv_mask_key : Text
aes_iv_mask_key = b'a' ∷ b'e' ∷ b's' ∷ b'I' ∷ b'v' ∷ b'M' ∷ b'a' ∷ b's' ∷ b'k' ∷ []

abbrev pub seq_num_key : Text
seq_num_key = b's' ∷ b'e' ∷ b'q' ∷ b'N' ∷ b'u' ∷ b'm' ∷ []

abbrev pub offer_key : Text
offer_key = b'o' ∷ b'f' ∷ b'f' ∷ b'e' ∷ b'r' ∷ []

abbrev pub supported_streams_key : Text
supported_streams_key =
    b's' ∷ b'u' ∷ b'p' ∷ b'p' ∷ b'o' ∷ b'r' ∷ b't' ∷ b'e' ∷ b'd' ∷ b'S' ∷ b't' ∷ b'r' ∷ b'e' ∷ b'a'
    ∷ b'm' ∷ b's' ∷ []
