-- ===== src/MiracastHandler/Names.antt =====
-- The texts of src/protocol/MiracastHandler.cpp and the capabilities that it announces.
use air_show.Prelude.{ℕ, [], ◌∷◌}
use air_show.Settings.{Text}

abbrev pub rtsp_port_default : ℕ
rtsp_port_default = 7236

abbrev pub options_text : Text
options_text = b'O' ∷ b'P' ∷ b'T' ∷ b'I' ∷ b'O' ∷ b'N' ∷ b'S' ∷ []

abbrev pub get_parameter_text : Text
get_parameter_text =
    b'G' ∷ b'E' ∷ b'T' ∷ b'_' ∷ b'P' ∷ b'A' ∷ b'R' ∷ b'A' ∷ b'M' ∷ b'E' ∷ b'T' ∷ b'E' ∷ b'R' ∷ []

abbrev pub set_parameter_text : Text
set_parameter_text =
    b'S' ∷ b'E' ∷ b'T' ∷ b'_' ∷ b'P' ∷ b'A' ∷ b'R' ∷ b'A' ∷ b'M' ∷ b'E' ∷ b'T' ∷ b'E' ∷ b'R' ∷ []

abbrev pub setup_text : Text
setup_text = b'S' ∷ b'E' ∷ b'T' ∷ b'U' ∷ b'P' ∷ []

abbrev pub play_text : Text
play_text = b'P' ∷ b'L' ∷ b'A' ∷ b'Y' ∷ []

abbrev pub teardown_text : Text
teardown_text = b'T' ∷ b'E' ∷ b'A' ∷ b'R' ∷ b'D' ∷ b'O' ∷ b'W' ∷ b'N' ∷ []

abbrev pub star_text : Text
star_text = b'*' ∷ []

abbrev pub require_header : Text
require_header =
    b'R' ∷ b'e' ∷ b'q' ∷ b'u' ∷ b'i' ∷ b'r' ∷ b'e' ∷ b':' ∷ 32 ∷ b'o' ∷ b'r' ∷ b'g' ∷ b'.' ∷ b'w'
    ∷ b'f' ∷ b'a' ∷ b'.' ∷ b'w' ∷ b'f' ∷ b'd' ∷ b'1' ∷ b'.' ∷ b'0' ∷ 13 ∷ 10 ∷ []

abbrev pub public_header : Text
public_header =
    b'P' ∷ b'u' ∷ b'b' ∷ b'l' ∷ b'i' ∷ b'c' ∷ b':' ∷ 32 ∷ b'o' ∷ b'r' ∷ b'g' ∷ b'.' ∷ b'w' ∷ b'f'
    ∷ b'a' ∷ b'.' ∷ b'w' ∷ b'f' ∷ b'd' ∷ b'1' ∷ b'.' ∷ b'0' ∷ b',' ∷ 32 ∷ b'G' ∷ b'E' ∷ b'T' ∷ b'_'
    ∷ b'P' ∷ b'A' ∷ b'R' ∷ b'A' ∷ b'M' ∷ b'E' ∷ b'T' ∷ b'E' ∷ b'R' ∷ b',' ∷ 32 ∷ b'S' ∷ b'E' ∷ b'T'
    ∷ b'_' ∷ b'P' ∷ b'A' ∷ b'R' ∷ b'A' ∷ b'M' ∷ b'E' ∷ b'T' ∷ b'E' ∷ b'R' ∷ b',' ∷ 32 ∷ b'S' ∷ b'E'
    ∷ b'T' ∷ b'U' ∷ b'P' ∷ b',' ∷ 32 ∷ b'P' ∷ b'L' ∷ b'A' ∷ b'Y' ∷ b',' ∷ 32 ∷ b'P' ∷ b'A' ∷ b'U'
    ∷ b'S' ∷ b'E' ∷ b',' ∷ 32 ∷ b'T' ∷ b'E' ∷ b'A' ∷ b'R' ∷ b'D' ∷ b'O' ∷ b'W' ∷ b'N' ∷ 13 ∷ 10 ∷ []

abbrev pub status_line : Text
status_line =
    b'R' ∷ b'T' ∷ b'S' ∷ b'P' ∷ b'/' ∷ b'1' ∷ b'.' ∷ b'0' ∷ 32 ∷ b'2' ∷ b'0' ∷ b'0' ∷ 32 ∷ b'O'
    ∷ b'K' ∷ 13 ∷ 10 ∷ []

abbrev pub rtsp_scheme : Text
rtsp_scheme = b'r' ∷ b't' ∷ b's' ∷ b'p' ∷ b':' ∷ b'/' ∷ b'/' ∷ []

abbrev pub stream_path : Text
stream_path =
    b'/' ∷ b'w' ∷ b'f' ∷ b'd' ∷ b'1' ∷ b'.' ∷ b'0' ∷ b'/' ∷ b's' ∷ b't' ∷ b'r' ∷ b'e' ∷ b'a' ∷ b'm'
    ∷ b'i' ∷ b'd' ∷ b'=' ∷ b'0' ∷ []

abbrev pub transport_text : Text
transport_text =
    b'T' ∷ b'r' ∷ b'a' ∷ b'n' ∷ b's' ∷ b'p' ∷ b'o' ∷ b'r' ∷ b't' ∷ b':' ∷ 32 ∷ b'R' ∷ b'T' ∷ b'P'
    ∷ b'/' ∷ b'A' ∷ b'V' ∷ b'P' ∷ b'/' ∷ b'U' ∷ b'D' ∷ b'P' ∷ b';' ∷ b'u' ∷ b'n' ∷ b'i' ∷ b'c'
    ∷ b'a' ∷ b's' ∷ b't' ∷ b';' ∷ b'c' ∷ b'l' ∷ b'i' ∷ b'e' ∷ b'n' ∷ b't' ∷ b'_' ∷ b'p' ∷ b'o'
    ∷ b'r' ∷ b't' ∷ b'=' ∷ []

abbrev pub wfd_capability_response : Text
wfd_capability_response =
    b'w' ∷ b'f' ∷ b'd' ∷ b'_' ∷ b'v' ∷ b'i' ∷ b'd' ∷ b'e' ∷ b'o' ∷ b'_' ∷ b'f' ∷ b'o' ∷ b'r' ∷ b'm'
    ∷ b'a' ∷ b't' ∷ b's' ∷ b':' ∷ 32 ∷ b'0' ∷ b'0' ∷ 32 ∷ b'0' ∷ b'0' ∷ 32 ∷ b'0' ∷ b'2' ∷ 32 ∷ b'1'
    ∷ b'0' ∷ 32 ∷ b'0' ∷ b'0' ∷ b'0' ∷ b'1' ∷ b'F' ∷ b'E' ∷ b'F' ∷ b'F' ∷ 32 ∷ b'3' ∷ b'F' ∷ b'F'
    ∷ b'F' ∷ b'F' ∷ b'F' ∷ b'F' ∷ b'F' ∷ 32 ∷ b'0' ∷ b'0' ∷ b'0' ∷ b'0' ∷ b'0' ∷ b'F' ∷ b'F' ∷ b'F'
    ∷ 32 ∷ b'0' ∷ b'0' ∷ 32 ∷ b'0' ∷ b'0' ∷ b'0' ∷ b'0' ∷ 32 ∷ b'0' ∷ b'0' ∷ b'0' ∷ b'0' ∷ 32 ∷ b'0'
    ∷ b'0' ∷ 32 ∷ b'n' ∷ b'o' ∷ b'n' ∷ b'e' ∷ 32 ∷ b'n' ∷ b'o' ∷ b'n' ∷ b'e' ∷ 13 ∷ 10 ∷ b'w' ∷ b'f'
    ∷ b'd' ∷ b'_' ∷ b'a' ∷ b'u' ∷ b'd' ∷ b'i' ∷ b'o' ∷ b'_' ∷ b'c' ∷ b'o' ∷ b'd' ∷ b'e' ∷ b'c'
    ∷ b's' ∷ b':' ∷ 32 ∷ b'L' ∷ b'P' ∷ b'C' ∷ b'M' ∷ 32 ∷ b'0' ∷ b'0' ∷ b'0' ∷ b'0' ∷ b'0' ∷ b'0'
    ∷ b'0' ∷ b'3' ∷ 32 ∷ b'0' ∷ b'0' ∷ b',' ∷ 32 ∷ b'A' ∷ b'A' ∷ b'C' ∷ 32 ∷ b'0' ∷ b'0' ∷ b'0'
    ∷ b'0' ∷ b'0' ∷ b'0' ∷ b'0' ∷ b'1' ∷ 32 ∷ b'0' ∷ b'0' ∷ 13 ∷ 10 ∷ b'w' ∷ b'f' ∷ b'd' ∷ b'_'
    ∷ b'c' ∷ b'l' ∷ b'i' ∷ b'e' ∷ b'n' ∷ b't' ∷ b'_' ∷ b'r' ∷ b't' ∷ b'p' ∷ b'_' ∷ b'p' ∷ b'o'
    ∷ b'r' ∷ b't' ∷ b's' ∷ b':' ∷ 32 ∷ b'R' ∷ b'T' ∷ b'P' ∷ b'/' ∷ b'A' ∷ b'V' ∷ b'P' ∷ b'/' ∷ b'U'
    ∷ b'D' ∷ b'P' ∷ b';' ∷ b'u' ∷ b'n' ∷ b'i' ∷ b'c' ∷ b'a' ∷ b's' ∷ b't' ∷ 32 ∷ b'1' ∷ b'0' ∷ b'2'
    ∷ b'8' ∷ 32 ∷ b'0' ∷ 32 ∷ b'm' ∷ b'o' ∷ b'd' ∷ b'e' ∷ b'=' ∷ b'p' ∷ b'l' ∷ b'a' ∷ b'y' ∷ 13 ∷ 10
    ∷ b'w' ∷ b'f' ∷ b'd' ∷ b'_' ∷ b'c' ∷ b'o' ∷ b'n' ∷ b't' ∷ b'e' ∷ b'n' ∷ b't' ∷ b'_' ∷ b'p'
    ∷ b'r' ∷ b'o' ∷ b't' ∷ b'e' ∷ b'c' ∷ b't' ∷ b'i' ∷ b'o' ∷ b'n' ∷ b':' ∷ 32 ∷ b'n' ∷ b'o' ∷ b'n'
    ∷ b'e' ∷ 13 ∷ 10 ∷ b'w' ∷ b'f' ∷ b'd' ∷ b'_' ∷ b'd' ∷ b'i' ∷ b's' ∷ b'p' ∷ b'l' ∷ b'a' ∷ b'y'
    ∷ b'_' ∷ b'e' ∷ b'd' ∷ b'i' ∷ b'd' ∷ b':' ∷ 32 ∷ b'n' ∷ b'o' ∷ b'n' ∷ b'e' ∷ 13 ∷ 10 ∷ b'w'
    ∷ b'f' ∷ b'd' ∷ b'_' ∷ b'c' ∷ b'o' ∷ b'n' ∷ b'n' ∷ b'e' ∷ b'c' ∷ b't' ∷ b'o' ∷ b'r' ∷ b'_'
    ∷ b't' ∷ b'y' ∷ b'p' ∷ b'e' ∷ b':' ∷ 32 ∷ b'0' ∷ b'5' ∷ 13 ∷ 10 ∷ []
