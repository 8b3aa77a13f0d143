-- ===== src/MiracastHandler/Rtsp.antt =====
-- RTSP messages: `parseNextRtspMessage`, `buildRtspResponse` and the text of `sendRtspRequest` in
-- src/protocol/MiracastHandler.cpp. A text is its UTF-8 bytes; what Qt does to a text is a parameter.
use air_show.Prelude.{
  ℕ, zero, suc, ◌+◌, ◌^◌, ◌%◌, Bool, true, false, List, [], ◌∷◌, ◌++◌, Option, none, some,
  if◌then◌else◌, ltb, leb, ◌==◌, ◌&&◌, Bytes, length, take, drop, is_empty, same_bytes,
}
use air_show.Settings.{Text}
use air_show.Dns.Wire.{slice}

-- `to_int` is the 32-bit pattern of the number a text stands for, 0 where it stands for none, and
-- `number` the decimal text of such a pattern.
pub record Texts : Type 0 where
  pub from_utf8 : Bytes → Text
  pub trimmed : Text → Text
  pub to_lower : Text → Text
  pub to_int : Text → ℕ
  pub number : ℕ → Text

abbrev pub crlf : Text
crlf = 13 ∷ 10 ∷ []

abbrev pub rtsp_version : Text
rtsp_version = b'R' ∷ b'T' ∷ b'S' ∷ b'P' ∷ b'/' ∷ b'1' ∷ b'.' ∷ b'0' ∷ []

abbrev pub cseq_key : Text
cseq_key = b'c' ∷ b's' ∷ b'e' ∷ b'q' ∷ []

abbrev pub content_length_key : Text
content_length_key =
    b'c' ∷ b'o' ∷ b'n' ∷ b't' ∷ b'e' ∷ b'n' ∷ b't' ∷ b'-' ∷ b'l' ∷ b'e' ∷ b'n' ∷ b'g' ∷ b't' ∷ b'h'
    ∷ []

abbrev pub content_type_key : Text
content_type_key =
    b'c' ∷ b'o' ∷ b'n' ∷ b't' ∷ b'e' ∷ b'n' ∷ b't' ∷ b'-' ∷ b't' ∷ b'y' ∷ b'p' ∷ b'e' ∷ []

abbrev pub cseq_header : Text
cseq_header = b'C' ∷ b'S' ∷ b'e' ∷ b'q' ∷ b':' ∷ 32 ∷ []

abbrev pub server_header : Text
server_header =
    b'S' ∷ b'e' ∷ b'r' ∷ b'v' ∷ b'e' ∷ b'r' ∷ b':' ∷ 32 ∷ b'A' ∷ b'i' ∷ b'r' ∷ b'S' ∷ b'h' ∷ b'o'
    ∷ b'w' ∷ b'/' ∷ b'1' ∷ b'.' ∷ b'0' ∷ 13 ∷ 10 ∷ []

abbrev pub content_headers : Text
content_headers =
    b'C' ∷ b'o' ∷ b'n' ∷ b't' ∷ b'e' ∷ b'n' ∷ b't' ∷ b'-' ∷ b'T' ∷ b'y' ∷ b'p' ∷ b'e' ∷ b':' ∷ 32
    ∷ b't' ∷ b'e' ∷ b'x' ∷ b't' ∷ b'/' ∷ b'p' ∷ b'a' ∷ b'r' ∷ b'a' ∷ b'm' ∷ b'e' ∷ b't' ∷ b'e'
    ∷ b'r' ∷ b's' ∷ 13 ∷ 10 ∷ b'C' ∷ b'o' ∷ b'n' ∷ b't' ∷ b'e' ∷ b'n' ∷ b't' ∷ b'-' ∷ b'L' ∷ b'e'
    ∷ b'n' ∷ b'g' ∷ b't' ∷ b'h' ∷ b':' ∷ 32 ∷ []

-- `content_length` is a 32-bit pattern: 2 ^ 31 and above are the negative numbers.
pub record RtspMessage : Type 0 where
  pub method : Text
  pub uri : Text
  pub status_code : ℕ
  pub cseq : ℕ
  pub content_type : Text
  pub content_length : ℕ
  pub body : Bytes
  pub is_request : Bool

abbrev pub blank : RtspMessage
blank = record {
  method = [];
  uri = [];
  status_code = 0;
  cseq = 0;
  content_type = [];
  content_length = 0;
  body = [];
  is_request = false;
}

abbrev pub starts_with : Bytes → Bytes → Bool
starts_with [] text = true
starts_with (c ∷ word) [] = false
starts_with (c ∷ word) (d ∷ text) = c == d && starts_with word text

-- `indexOf`, with the place that is looked at.
unfoldable pub index_of : Bytes → Bytes → ℕ → Option ℕ
index_of word [] i = if is_empty word then some i else none
index_of word (c ∷ text) i =
    if starts_with word (c ∷ text) then some i else index_of word text (suc i)

-- `split`: the first piece, and the others.
unfoldable pub split : ℕ → Bytes → Bytes × List Bytes
split separator [] = ([], [])
split separator (c ∷ text) =
    let rest = split separator text in
    if c == separator then ([], rest.0 ∷ rest.1) else (c ∷ rest.0, rest.1)

unfoldable pub skip_empty : List Bytes → List Bytes
skip_empty [] = []
skip_empty (p ∷ ps) = if is_empty p then skip_empty ps else p ∷ skip_empty ps

abbrev pub text_at : List Text → ℕ → Text
text_at [] i = []
text_at (t ∷ ts) zero = t
text_at (t ∷ ts) (suc i) = text_at ts i

abbrev pub ok_text : Text
ok_text = b'O' ∷ b'K' ∷ []

abbrev pub bad_request_text : Text
bad_request_text = b'B' ∷ b'a' ∷ b'd' ∷ 32 ∷ b'R' ∷ b'e' ∷ b'q' ∷ b'u' ∷ b'e' ∷ b's' ∷ b't' ∷ []

abbrev pub not_found_text : Text
not_found_text = b'N' ∷ b'o' ∷ b't' ∷ 32 ∷ b'F' ∷ b'o' ∷ b'u' ∷ b'n' ∷ b'd' ∷ []

abbrev pub session_not_found_text : Text
session_not_found_text =
    b'S' ∷ b'e' ∷ b's' ∷ b's' ∷ b'i' ∷ b'o' ∷ b'n' ∷ 32 ∷ b'N' ∷ b'o' ∷ b't' ∷ 32 ∷ b'F' ∷ b'o'
    ∷ b'u' ∷ b'n' ∷ b'd' ∷ []

abbrev pub internal_error_text : Text
internal_error_text =
    b'I' ∷ b'n' ∷ b't' ∷ b'e' ∷ b'r' ∷ b'n' ∷ b'a' ∷ b'l' ∷ 32 ∷ b'S' ∷ b'e' ∷ b'r' ∷ b'v' ∷ b'e'
    ∷ b'r' ∷ 32 ∷ b'E' ∷ b'r' ∷ b'r' ∷ b'o' ∷ b'r' ∷ []

abbrev pub unknown_text : Text
unknown_text = b'U' ∷ b'n' ∷ b'k' ∷ b'n' ∷ b'o' ∷ b'w' ∷ b'n' ∷ []

abbrev pub status_text : ℕ → Text
status_text code =
    if code == 200
    then ok_text
    else if code == 400
    then bad_request_text
    else if code == 404
    then not_found_text
    else if code == 454
    then session_not_found_text
    else if code == 500
    then internal_error_text
    else unknown_text

module _ (texts : Texts) where
  unfoldable pub parse_first_line : Text → RtspMessage
  unfolding split skip_empty
  parse_first_line line =
      let pieces = split 32 line in
      let parts = skip_empty (pieces.0 ∷ pieces.1) in
      if starts_with rtsp_version line
      then record blank {
        status_code = if leb 2 (length parts) then texts.to_int (text_at parts 1) else 0;
      }
      else record blank { is_request = true; method = text_at parts 0; uri = text_at parts 1 }

  unfoldable pub parse_header_line : Bytes → RtspMessage → RtspMessage
  unfolding index_of
  parse_header_line bytes msg =
      let line = texts.trimmed (texts.from_utf8 bytes) in
      elim (index_of (b':' ∷ []) line 0) [
        | none ↦ msg
        | some i ↦
            let key = texts.to_lower (texts.trimmed (take i line)) in
            let value = texts.trimmed (drop (suc i) line) in
            if same_bytes key cseq_key
            then record msg { cseq = texts.to_int value }
            else if same_bytes key content_length_key
            then record msg { content_length = texts.to_int value }
            else if same_bytes key content_type_key
            then record msg { content_type = value }
            else msg
      ]

  unfoldable pub parse_header_lines : List Bytes → RtspMessage → RtspMessage
  unfolding parse_header_line
  parse_header_lines [] msg = msg
  parse_header_lines (l ∷ ls) msg = parse_header_lines ls (parse_header_line l msg)

  unfoldable pub parse_headers : Bytes → RtspMessage
  unfolding split parse_first_line parse_header_lines
  parse_headers block =
      let lines = split 10 block in
      parse_header_lines lines.1 (parse_first_line (texts.trimmed (texts.from_utf8 lines.0)))

  -- The size of the message as a 32-bit pattern.
  abbrev pub message_end : ℕ → RtspMessage → ℕ
  message_end header_end msg = (header_end + 4 + msg.content_length) % 2 ^ 32

  -- `parseNextRtspMessage`: the message, and what stays in the buffer. A negative size is not above the
  -- size of the buffer, and `remove` removes nothing then.
  unfoldable pub parse_next_message : Bytes → Option (RtspMessage × Bytes)
  unfolding index_of parse_headers
  parse_next_message buffer = elim (index_of (crlf ++ crlf) buffer 0) [
    | none ↦ none
    | some header_end ↦
        let msg = parse_headers (take header_end buffer) in
        let end = message_end header_end msg in
        let whole =
          if ltb 0 msg.content_length && ltb msg.content_length (2 ^ 31)
          then record msg { body = slice buffer (header_end + 4) msg.content_length }
          else msg in
        if ltb end (2 ^ 31)
        then (if ltb (length buffer) end then none else some (whole, drop end buffer))
        else some (whole, buffer)
  ]

  -- The end of the headers and the body.
  unfoldable pub with_body : Text → Text
  with_body body =
      if is_empty body
      then crlf
      else content_headers ++ (texts.number (length body) ++ (crlf ++ (crlf ++ body)))

  unfoldable pub build_rtsp_response : ℕ → ℕ → Text → Text
  unfolding with_body
  build_rtsp_response cseq status_code body =
      rtsp_version
      ++ (32 ∷ texts.number status_code)
      ++ (32 ∷ status_text status_code)
      ++ crlf
      ++ cseq_header
      ++ texts.number cseq
      ++ crlf
      ++ server_header
      ++ with_body body

  -- The text that `sendRtspRequest` writes.
  unfoldable pub rtsp_request : Text → Text → ℕ → Text → Text → Text
  unfolding with_body
  rtsp_request method uri cseq extra_headers body =
      method
      ++ (32 ∷ uri)
      ++ (32 ∷ rtsp_version)
      ++ crlf
      ++ cseq_header
      ++ texts.number cseq
      ++ crlf
      ++ extra_headers
      ++ with_body body
