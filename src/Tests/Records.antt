-- ===== src/Tests/Records.antt =====
-- The TXT records of src/airplay/airshow_dnssd.c and the offers of src/cast/CastStreamingOffer.cpp at
-- concrete inputs.
use air_show.Prelude.{
  if◌then◌else◌, ◌==◌, ℕ, ◌≤◌, ◌≡◌, ◌≢◌, refl, true, false, List, [], ◌∷◌, none, some, Bytes,
  length, All, ◌⊎◌, same_bytes_iff, arith,
}
use air_show.Settings.{Text}
use air_show.Dnssd.{
  Globals, Dnssd, txt_set, build_raop_txt, build_airplay_txt, raop_sets, airplay_sets, sf_key,
  true_text,
}
use air_show.Dnssd.Txt.{IsTxt, encode_entries, set_entry, set_all, lookup, txt_set-encode_entries}
use air_show.Dnssd.Records.{
  lookup-set_entry, lookup-set_entry_other, build_raop_txt-encode_entries,
  build_airplay_txt-encode_entries, raop-status_flags,
}
use air_show.CastStreamingOffer.{
  video_source_text, Qt, CastStream, CastOffer, video, pos, select_streams, parse_stream, vp8_codec,
  vp9_codec,
}
use air_show.CastStreamingOffer.Selection.{
  IsOneOf, playable, rank, select_streams-video, select_streams-no_video,
}
use air_show.CastStreamingOffer.Streams.{IsStream, parse_stream-IsStream}

-- `a=1` and `b=2`.
abbrev two_entries : List Bytes
two_entries = (97 ∷ 61 ∷ 49 ∷ []) ∷ (98 ∷ 61 ∷ 50 ∷ []) ∷ []

txt_set-encode_entries_example :
    txt_set (97 ∷ []) (51 ∷ []) (encode_entries two_entries)
    ≡ some (encode_entries (set_entry (97 ∷ []) (51 ∷ []) two_entries))
txt_set-encode_entries_example =
    txt_set-encode_entries (97 ∷ []) (51 ∷ []) two_entries (refl, tt)
      (omega arith, (omega arith, tt))

lookup-set_entry_run :
    (lookup (97 ∷ []) (set_entry (97 ∷ []) (51 ∷ []) two_entries) ≡ some (51 ∷ []))
    ⊎ (lookup (97 ∷ []) (set_entry (97 ∷ []) (51 ∷ []) two_entries) ≡ none)
lookup-set_entry_run = lookup-set_entry (97 ∷ []) (51 ∷ []) two_entries (refl, tt)

abbrev key_a : Bytes
key_a = 97 ∷ []

abbrev key_b : Bytes
key_b = 98 ∷ []

keys_differ : key_b ≢ key_a
keys_differ = λ e. absurd (ground (arith, (same_bytes_iff key_b key_a).1 e))

lookup-set_entry_other_run :
    lookup (98 ∷ []) (set_entry (97 ∷ []) (51 ∷ []) two_entries) ≡ lookup (98 ∷ []) two_entries
lookup-set_entry_other_run =
    lookup-set_entry_other (98 ∷ []) (97 ∷ []) (51 ∷ []) two_entries (refl, tt) keys_differ

abbrev globals : Globals
globals = record {
  raop_ch = 50 ∷ [];
  raop_cn = 48 ∷ [];
  raop_da = true_text;
  raop_et = 48 ∷ [];
  raop_vv = 50 ∷ [];
  global_model = 65 ∷ [];
  raop_md = 48 ∷ [];
  raop_rhd = 53 ∷ [];
  raop_sf = 48 ∷ [];
  raop_sr = 52 ∷ [];
  raop_ss = 49 ∷ [];
  raop_sv = 102 ∷ [];
  raop_tp = 85 ∷ [];
  raop_txtvers = 49 ∷ [];
  raop_vs = 50 ∷ [];
  raop_vn = 54 ∷ [];
  airplay_pi = 50 ∷ [];
  airplay_srcvers = 50 ∷ [];
  airplay_vv = 50 ∷ [];
  features_1 = 7;
  features_2 = 0;
  hex = λ n. 48 ∷ [];
  hwaddr_airplay = λ b. none;
}

-- A server that asks for a pin.
abbrev pin_server : Dnssd
pin_server = record {
  name = 65 ∷ [];
  hw_addr = 1 ∷ 2 ∷ [];
  pk = none;
  features1 = 7;
  features2 = 0;
  pin_pw = 1;
}

build_raop_txt-encode_entries_example :
    (build_raop_txt globals pin_server
      ≡ some (encode_entries (set_all (raop_sets globals pin_server) [])))
    × IsTxt (set_all (raop_sets globals pin_server) [])
build_raop_txt-encode_entries_example = build_raop_txt-encode_entries globals pin_server

build_airplay_txt-encode_entries_run :
    (build_airplay_txt globals pin_server
      ≡ some (encode_entries (set_all (airplay_sets globals pin_server) [])))
    × IsTxt (set_all (airplay_sets globals pin_server) [])
build_airplay_txt-encode_entries_run = build_airplay_txt-encode_entries globals pin_server

raop-status_flags_example :
    (lookup sf_key (set_all (raop_sets globals pin_server) []) ≡ some (48 ∷ []))
    ⊎ (lookup sf_key (set_all (raop_sets globals pin_server) []) ≡ none)
raop-status_flags_example = raop-status_flags globals pin_server

abbrev digits : Text
digits =
    b'0' ∷ b'1' ∷ b'2' ∷ b'3' ∷ b'4' ∷ b'5' ∷ b'6' ∷ b'7' ∷ b'8' ∷ b'9' ∷ b'a' ∷ b'b' ∷ b'c' ∷ b'd'
    ∷ b'e' ∷ b'f' ∷ b'0' ∷ b'1' ∷ b'2' ∷ b'3' ∷ b'4' ∷ b'5' ∷ b'6' ∷ b'7' ∷ b'8' ∷ b'9' ∷ b'a'
    ∷ b'b' ∷ b'c' ∷ b'd' ∷ b'e' ∷ b'f' ∷ []

-- A JSON reader that knows a member by the length of its key: every number is 1, and the texts are those
-- of a stream.
abbrev text_of : ℕ → Text
text_of v = if v == 4 then video_source_text else if v == 8 then 49 ∷ 47 ∷ 50 ∷ [] else digits

abbrev qt : Qt ℕ
qt = record {
  value = λ o key. length key;
  to_string = text_of;
  is_double = λ v. true;
  to_int = λ v d. pos 1;
  to_uint32 = λ v. 1;
  to_array = λ v. [];
  trimmed = λ t. t;
  to_lower = λ t. t;
  parse_int = λ t. some (pos 48000);
  parse_hex = λ t. some 17;
  number = λ z. 49 ∷ [];
}

abbrev stream_of : Text → CastStream
stream_of codec = record {
  kind = video;
  index = pos 0;
  codec = codec;
  sender_ssrc = 10;
  rtp_payload_type = pos 96;
  rtp_timebase = 90000;
  channels = pos 1;
  target_delay_ms = 400;
  aes_key = [];
  aes_iv_mask = [];
}

abbrev offer : CastOffer
offer = record { seq_num = pos 3; streams = stream_of vp9_codec ∷ stream_of vp8_codec ∷ [] }

offer_video : (select_streams qt (λ c. true) offer).video ≡ some (stream_of vp8_codec)
unfolding select_streams
offer_video = refl

select_streams-video_example :
    IsOneOf (playable qt (λ c. true)) offer.streams (stream_of vp8_codec)
    × All (λ t. playable qt (λ c. true) t ≡ true → rank vp8_codec ≤ rank t.codec) offer.streams
select_streams-video_example =
    select_streams-video qt (λ c. true) offer (stream_of vp8_codec) offer_video

offer_no_video : (select_streams qt (λ c. false) offer).video ≡ none
unfolding select_streams
offer_no_video = refl

select_streams-no_video_run : All (λ t. playable qt (λ c. false) t ≡ false) offer.streams
select_streams-no_video_run = select_streams-no_video qt (λ c. false) offer offer_no_video

abbrev sixteen : Bytes
sixteen = 17 ∷ 17 ∷ 17 ∷ 17 ∷ 17 ∷ 17 ∷ 17 ∷ 17 ∷ 17 ∷ 17 ∷ 17 ∷ 17 ∷ 17 ∷ 17 ∷ 17 ∷ 17 ∷ []

abbrev parsed_stream : CastStream
parsed_stream = record {
  kind = video;
  index = pos 1;
  codec = digits;
  sender_ssrc = 1;
  rtp_payload_type = pos 1;
  rtp_timebase = 48000;
  channels = pos 1;
  target_delay_ms = 1;
  aes_key = sixteen;
  aes_iv_mask = sixteen;
}

abbrev any_object : ℕ
any_object = 0

parsed : parse_stream qt any_object ≡ some parsed_stream
unfolding parse_stream
parsed = refl

parse_stream-IsStream_example : IsStream parsed_stream
parse_stream-IsStream_example = parse_stream-IsStream qt any_object parsed_stream parsed
