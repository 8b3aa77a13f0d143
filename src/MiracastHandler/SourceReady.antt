-- ===== src/MiracastHandler/SourceReady.antt =====
-- The SOURCE_READY message: `parseSourceReady` of src/protocol/MiracastHandler.cpp. Qt's text decoders
-- are parameters.
pub mod Tlvs
use air_show.Prelude.{
  ℕ, zero, suc, ◌+◌, ◌≤◌, ◌<◌, min, Bool, Option, none, some, if◌then◌else◌, ltb, leb, ◌==◌, not,
  Bytes, length,
}
use air_show.Settings.{Text}
use air_show.Dns.Wire.{byte_at, be16, slice}

pub record Decoders : Type 0 where
  pub utf16_le : Bytes → Text
  pub from_utf8 : Bytes → Text

pub record SourceReadyInfo : Type 0 where
  pub friendly_name : Text
  pub rtsp_port : ℕ
  pub source_id : Text

-- The `switch` on the type of a TLV.
unfoldable pub take_tlv : Decoders → ℕ → Bytes → SourceReadyInfo → SourceReadyInfo
take_tlv decoders type value out =
    if type == 1
    then record out { friendly_name = decoders.utf16_le value }
    else if type == 2
    then (if leb 2 (length value) then record out { rtsp_port = be16 value 0 } else out)
    else if type == 3
    then record out { source_id = decoders.from_utf8 value }
    else out

-- The loop over the TLVs, on fuel: `none` is a loop that has not ended.
unfoldable pub read_tlvs :
    Decoders → (bytes : Bytes) (parse_len fuel pos : ℕ) → SourceReadyInfo → Option SourceReadyInfo
read_tlvs decoders bytes parse_len zero pos out = none
read_tlvs decoders bytes parse_len (suc fuel) pos out =
    let len = be16 bytes (pos + 2) in
    let next = pos + 4 + len in
    let rest =
      read_tlvs decoders bytes parse_len fuel next
        (take_tlv decoders (be16 bytes pos) (slice bytes (pos + 4) len) out) in
    if ltb parse_len (pos + 4) then some out else if ltb parse_len next then some out else rest

pub data Parsed : Type 0 where
  unended : Parsed
  refused : Parsed
  parsed : SourceReadyInfo → Parsed

abbrev pub to_parsed : Option SourceReadyInfo → Parsed
to_parsed none = unended
to_parsed (some info) = parsed info

-- Each TLV takes four bytes at least, so that one round for each byte is enough.
unfoldable pub parse_source_ready : Decoders → Bytes → SourceReadyInfo → Parsed
parse_source_ready decoders bytes out =
    if ltb (length bytes) 4
    then refused
    else if not (byte_at bytes 3 == 1)
    then refused
    else to_parsed
        (read_tlvs decoders bytes (min (be16 bytes 0) (length bytes)) (length bytes) 4 out)
