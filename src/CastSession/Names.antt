-- ===== src/CastSession/Names.antt =====
-- The namespaces, message types and members of CASTV2: the constants of src/protocol/CastSession.cpp.
use air_show.Prelude.{[], ◌∷◌}
use air_show.Settings.{Text}

abbrev pub ns_device_auth : Text
ns_device_auth =
    b'u' ∷ b'r' ∷ b'n' ∷ b':' ∷ b'x' ∷ b'-' ∷ b'c' ∷ b'a' ∷ b's' ∷ b't' ∷ b':' ∷ b'c' ∷ b'o' ∷ b'm'
    ∷ b'.' ∷ b'g' ∷ b'o' ∷ b'o' ∷ b'g' ∷ b'l' ∷ b'e' ∷ b'.' ∷ b'c' ∷ b'a' ∷ b's' ∷ b't' ∷ b'.'
    ∷ b't' ∷ b'p' ∷ b'.' ∷ b'd' ∷ b'e' ∷ b'v' ∷ b'i' ∷ b'c' ∷ b'e' ∷ b'a' ∷ b'u' ∷ b't' ∷ b'h' ∷ []

abbrev pub ns_connection : Text
ns_connection =
    b'u' ∷ b'r' ∷ b'n' ∷ b':' ∷ b'x' ∷ b'-' ∷ b'c' ∷ b'a' ∷ b's' ∷ b't' ∷ b':' ∷ b'c' ∷ b'o' ∷ b'm'
    ∷ b'.' ∷ b'g' ∷ b'o' ∷ b'o' ∷ b'g' ∷ b'l' ∷ b'e' ∷ b'.' ∷ b'c' ∷ b'a' ∷ b's' ∷ b't' ∷ b'.'
    ∷ b't' ∷ b'p' ∷ b'.' ∷ b'c' ∷ b'o' ∷ b'n' ∷ b'n' ∷ b'e' ∷ b'c' ∷ b't' ∷ b'i' ∷ b'o' ∷ b'n' ∷ []

abbrev pub ns_heartbeat : Text
ns_heartbeat =
    b'u' ∷ b'r' ∷ b'n' ∷ b':' ∷ b'x' ∷ b'-' ∷ b'c' ∷ b'a' ∷ b's' ∷ b't' ∷ b':' ∷ b'c' ∷ b'o' ∷ b'm'
    ∷ b'.' ∷ b'g' ∷ b'o' ∷ b'o' ∷ b'g' ∷ b'l' ∷ b'e' ∷ b'.' ∷ b'c' ∷ b'a' ∷ b's' ∷ b't' ∷ b'.'
    ∷ b't' ∷ b'p' ∷ b'.' ∷ b'h' ∷ b'e' ∷ b'a' ∷ b'r' ∷ b't' ∷ b'b' ∷ b'e' ∷ b'a' ∷ b't' ∷ []

abbrev pub ns_receiver : Text
ns_receiver =
    b'u' ∷ b'r' ∷ b'n' ∷ b':' ∷ b'x' ∷ b'-' ∷ b'c' ∷ b'a' ∷ b's' ∷ b't' ∷ b':' ∷ b'c' ∷ b'o' ∷ b'm'
    ∷ b'.' ∷ b'g' ∷ b'o' ∷ b'o' ∷ b'g' ∷ b'l' ∷ b'e' ∷ b'.' ∷ b'c' ∷ b'a' ∷ b's' ∷ b't' ∷ b'.'
    ∷ b'r' ∷ b'e' ∷ b'c' ∷ b'e' ∷ b'i' ∷ b'v' ∷ b'e' ∷ b'r' ∷ []

abbrev pub ns_media : Text
ns_media =
    b'u' ∷ b'r' ∷ b'n' ∷ b':' ∷ b'x' ∷ b'-' ∷ b'c' ∷ b'a' ∷ b's' ∷ b't' ∷ b':' ∷ b'c' ∷ b'o' ∷ b'm'
    ∷ b'.' ∷ b'g' ∷ b'o' ∷ b'o' ∷ b'g' ∷ b'l' ∷ b'e' ∷ b'.' ∷ b'c' ∷ b'a' ∷ b's' ∷ b't' ∷ b'.'
    ∷ b'm' ∷ b'e' ∷ b'd' ∷ b'i' ∷ b'a' ∷ []

abbrev pub ns_webrtc : Text
ns_webrtc =
    b'u' ∷ b'r' ∷ b'n' ∷ b':' ∷ b'x' ∷ b'-' ∷ b'c' ∷ b'a' ∷ b's' ∷ b't' ∷ b':' ∷ b'c' ∷ b'o' ∷ b'm'
    ∷ b'.' ∷ b'g' ∷ b'o' ∷ b'o' ∷ b'g' ∷ b'l' ∷ b'e' ∷ b'.' ∷ b'c' ∷ b'a' ∷ b's' ∷ b't' ∷ b'.'
    ∷ b'w' ∷ b'e' ∷ b'b' ∷ b'r' ∷ b't' ∷ b'c' ∷ []

abbrev pub app_id_chrome_mirror : Text
app_id_chrome_mirror = b'0' ∷ b'F' ∷ b'5' ∷ b'0' ∷ b'9' ∷ b'6' ∷ b'E' ∷ b'8' ∷ []

abbrev pub app_id_default_media : Text
app_id_default_media = b'C' ∷ b'C' ∷ b'1' ∷ b'A' ∷ b'D' ∷ b'8' ∷ b'4' ∷ b'5' ∷ []

abbrev pub app_id_audio_mirror : Text
app_id_audio_mirror = b'8' ∷ b'5' ∷ b'C' ∷ b'D' ∷ b'B' ∷ b'2' ∷ b'2' ∷ b'F' ∷ []

abbrev pub receiver_0 : Text
receiver_0 = b'r' ∷ b'e' ∷ b'c' ∷ b'e' ∷ b'i' ∷ b'v' ∷ b'e' ∷ b'r' ∷ b'-' ∷ b'0' ∷ []

abbrev pub transport_prefix : Text
transport_prefix =
    b'c' ∷ b'a' ∷ b's' ∷ b't' ∷ b'-' ∷ b't' ∷ b'r' ∷ b'a' ∷ b'n' ∷ b's' ∷ b'p' ∷ b'o' ∷ b'r' ∷ b't'
    ∷ b'-' ∷ []

abbrev pub cast_sender : Text
cast_sender = b'C' ∷ b'a' ∷ b's' ∷ b't' ∷ 32 ∷ b'S' ∷ b'e' ∷ b'n' ∷ b'd' ∷ b'e' ∷ b'r' ∷ []

abbrev pub type_key : Text
type_key = b't' ∷ b'y' ∷ b'p' ∷ b'e' ∷ []

abbrev pub user_agent_key : Text
user_agent_key = b'u' ∷ b's' ∷ b'e' ∷ b'r' ∷ b'A' ∷ b'g' ∷ b'e' ∷ b'n' ∷ b't' ∷ []

abbrev pub name_key : Text
name_key = b'n' ∷ b'a' ∷ b'm' ∷ b'e' ∷ []

abbrev pub request_id_key : Text
request_id_key = b'r' ∷ b'e' ∷ b'q' ∷ b'u' ∷ b'e' ∷ b's' ∷ b't' ∷ b'I' ∷ b'd' ∷ []

abbrev pub app_id_key : Text
app_id_key = b'a' ∷ b'p' ∷ b'p' ∷ b'I' ∷ b'd' ∷ []

abbrev pub media_key : Text
media_key = b'm' ∷ b'e' ∷ b'd' ∷ b'i' ∷ b'a' ∷ []

abbrev pub content_id_key : Text
content_id_key = b'c' ∷ b'o' ∷ b'n' ∷ b't' ∷ b'e' ∷ b'n' ∷ b't' ∷ b'I' ∷ b'd' ∷ []

abbrev pub seq_num_key : Text
seq_num_key = b's' ∷ b'e' ∷ b'q' ∷ b'N' ∷ b'u' ∷ b'm' ∷ []

abbrev pub connect_type : Text
connect_type = b'C' ∷ b'O' ∷ b'N' ∷ b'N' ∷ b'E' ∷ b'C' ∷ b'T' ∷ []

abbrev pub close_type : Text
close_type = b'C' ∷ b'L' ∷ b'O' ∷ b'S' ∷ b'E' ∷ []

abbrev pub ping_type : Text
ping_type = b'P' ∷ b'I' ∷ b'N' ∷ b'G' ∷ []

abbrev pub get_status_type : Text
get_status_type = b'G' ∷ b'E' ∷ b'T' ∷ b'_' ∷ b'S' ∷ b'T' ∷ b'A' ∷ b'T' ∷ b'U' ∷ b'S' ∷ []

abbrev pub launch_type : Text
launch_type = b'L' ∷ b'A' ∷ b'U' ∷ b'N' ∷ b'C' ∷ b'H' ∷ []

abbrev pub stop_type : Text
stop_type = b'S' ∷ b'T' ∷ b'O' ∷ b'P' ∷ []

abbrev pub load_type : Text
load_type = b'L' ∷ b'O' ∷ b'A' ∷ b'D' ∷ []

abbrev pub get_capabilities_type : Text
get_capabilities_type =
    b'G' ∷ b'E' ∷ b'T' ∷ b'_' ∷ b'C' ∷ b'A' ∷ b'P' ∷ b'A' ∷ b'B' ∷ b'I' ∷ b'L' ∷ b'I' ∷ b'T' ∷ b'I'
    ∷ b'E' ∷ b'S' ∷ []

abbrev pub offer_type : Text
offer_type = b'O' ∷ b'F' ∷ b'F' ∷ b'E' ∷ b'R' ∷ []

abbrev pub capabilities_response_type : Text
capabilities_response_type =
    b'C' ∷ b'A' ∷ b'P' ∷ b'A' ∷ b'B' ∷ b'I' ∷ b'L' ∷ b'I' ∷ b'T' ∷ b'I' ∷ b'E' ∷ b'S' ∷ b'_' ∷ b'R'
    ∷ b'E' ∷ b'S' ∷ b'P' ∷ b'O' ∷ b'N' ∷ b'S' ∷ b'E' ∷ []

abbrev pub answer_type : Text
answer_type = b'A' ∷ b'N' ∷ b'S' ∷ b'W' ∷ b'E' ∷ b'R' ∷ []

abbrev pub remoting_text : Text
remoting_text =
    b'R' ∷ b'e' ∷ b'm' ∷ b'o' ∷ b't' ∷ b'i' ∷ b'n' ∷ b'g' ∷ 32 ∷ b'i' ∷ b's' ∷ 32 ∷ b'n' ∷ b'o'
    ∷ b't' ∷ 32 ∷ b's' ∷ b'u' ∷ b'p' ∷ b'p' ∷ b'o' ∷ b'r' ∷ b't' ∷ b'e' ∷ b'd' ∷ []

abbrev pub no_streams_text : Text
no_streams_text =
    b'N' ∷ b'o' ∷ 32 ∷ b's' ∷ b'u' ∷ b'p' ∷ b'p' ∷ b'o' ∷ b'r' ∷ b't' ∷ b'e' ∷ b'd' ∷ 32 ∷ b's'
    ∷ b't' ∷ b'r' ∷ b'e' ∷ b'a' ∷ b'm' ∷ b's' ∷ []

abbrev pub failed_text : Text
failed_text =
    b'R' ∷ b'e' ∷ b'c' ∷ b'e' ∷ b'i' ∷ b'v' ∷ b'e' ∷ b'r' ∷ 32 ∷ b'f' ∷ b'a' ∷ b'i' ∷ b'l' ∷ b'e'
    ∷ b'd' ∷ 32 ∷ b't' ∷ b'o' ∷ 32 ∷ b's' ∷ b't' ∷ b'a' ∷ b'r' ∷ b't' ∷ []
