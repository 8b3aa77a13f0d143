-- ===== src/CastStreamingOffer/Streams.antt =====
-- What a stream of an offer is known to be once `parseStream` of src/cast/CastStreamingOffer.cpp took it.
use mathlib.Core.Path.{subst}
use air_show.Settings.{Text}
use air_show.MiracastHandler.Rtsp.{split}
use air_show.Prelude.{
  none_not_some, some_injective, not, ◌||◌, ◌%◌, ◌==◌, same_bytes, take, drop, sym, ◌∙◌, ℕ, zero,
  suc, ◌≤◌, ◌<◌, ◌≡◌, refl, true, false, List, [], ◌∷◌, Option, none, some, length, All, is_empty,
  arith, Bool-cases, Option-cases, inl, inr, Bytes,
}
use air_show.CastStreamingOffer.{
  target_delay_key, time_base_key, aes_iv_mask_key, aes_iv_mask_key, aes_key_key, aes_key_key,
  fields_of, fields_of, rtp_payload_type_key, rtp_payload_type_key, rtp_payload_type_key, ssrc_key,
  ssrc_key, ssrc_key, index_key, index_key, index_key, type_key, type_key, type_key, one_text,
  kind_of, Kind, Kind, timebase_parts, with_keys, timebase_of, delay_of, parse_timebase, ℤ, pos,
  negsuc, Qt, CastStream, is_negative, parse_stream, parse_hex128, parse_hex_pairs,
}

-- A key of 16 bytes.
abbrev pub IsAesKey : Bytes → Type 0
IsAesKey key = (length key ≡ 16) × All (λ b. b < 256) key

pub record IsStream (s : CastStream) : Type 0 where
  pub index : is_negative s.index ≡ false
  pub codec : is_empty s.codec ≡ false
  pub timebase_low : 16000 ≤ s.rtp_timebase
  pub timebase_high : s.rtp_timebase ≤ 90000
  pub delay_low : 0 < s.target_delay_ms
  pub delay_high : s.target_delay_ms ≤ 5000
  pub key : IsAesKey s.aes_key
  pub iv_mask : IsAesKey s.aes_iv_mask

delay_of-bounds : (z : ℤ) → (0 < delay_of z) × (delay_of z ≤ 5000)
delay_of-bounds (pos n) = ground arith
delay_of-bounds (negsuc n) = ground arith

timebase_of-bounds :
    (z : Option ℤ)
    → (timebase_of z == 0) ≡ false
    → (16000 ≤ timebase_of z) × (timebase_of z ≤ 90000)
timebase_of-bounds none e = ground (arith, e)
timebase_of-bounds (some (negsuc n)) e = ground (arith, e)
timebase_of-bounds (some (pos n)) e = ground (arith, e)

-- What `with_keys` needs to give a stream.
with_keys-IsStream :
    (s r : CastStream) (key iv : Option Bytes)
    → with_keys s key iv ≡ some r
    → ((k : Bytes) → key ≡ some k → IsAesKey k)
    → ((k : Bytes) → iv ≡ some k → IsAesKey k)
    → ((s.rtp_timebase == 0) ≡ false → (16000 ≤ s.rtp_timebase) × (s.rtp_timebase ≤ 90000))
    → (0 < s.target_delay_ms) × (s.target_delay_ms ≤ 5000)
    → IsStream r
with_keys-IsStream s r none iv e k i t d = absurd (none_not_some e)
with_keys-IsStream s r (some key) none e k i t d = absurd (none_not_some e)
with_keys-IsStream s r (some key) (some iv) e k i t d =
    elim (Bool-cases (is_negative s.index || (is_empty s.codec || s.rtp_timebase == 0))) [
      | inl x ↦ ground (arith, e, x)
      | inr x ↦
          let whole : record s { aes_key = key; aes_iv_mask = iv } ≡ r =
            some_injective (sym (rw x refl) ∙ e) in
          let bounds = t (ground (arith, x)) in
          subst IsStream whole (record {
            index = ground (arith, x);
            codec = ground (arith, x);
            timebase_low = bounds.0;
            timebase_high = bounds.1;
            delay_low = d.0;
            delay_high = d.1;
            key = k key refl;
            iv_mask = i iv refl;
          })
    ]

module _ {Json : Type 0} (qt : Qt Json) where
  timebase_parts-bounds :
      (p : Text × List Text)
      → (timebase_parts qt p == 0) ≡ false
      → (16000 ≤ timebase_parts qt p) × (timebase_parts qt p ≤ 90000)
  timebase_parts-bounds (first, []) e = ground (arith, e)
  timebase_parts-bounds (first, second ∷ []) e =
      elim (Bool-cases (same_bytes (qt.trimmed first) one_text)) [
        | inl x ↦ rw x (timebase_of-bounds (qt.parse_int (qt.trimmed second)) (sym (rw x refl) ∙ e))
        | inr x ↦ ground (arith, e, x)
      ]
  timebase_parts-bounds (first, second ∷ third ∷ more) e = ground (arith, e)

  parse_timebase-bounds :
      (s : Text)
      → (parse_timebase qt s == 0) ≡ false
      → (16000 ≤ parse_timebase qt s) × (parse_timebase qt s ≤ 90000)
  unfolding parse_timebase
  parse_timebase-bounds s e = timebase_parts-bounds (split b'/' s) e

  pairs-none :
      (n : ℕ) (hex : Text) (v : ℕ)
      → qt.parse_hex (take 2 hex) ≡ some v
      → parse_hex_pairs qt n (drop 2 hex) ≡ none
      → parse_hex_pairs qt (suc n) hex ≡ none
  unfolding parse_hex_pairs
  pairs-none n hex v x y = rw (x, y, parse_hex_pairs) refl

  pairs-some :
      (n : ℕ) (hex : Text) (v : ℕ) (bytes : Bytes)
      → qt.parse_hex (take 2 hex) ≡ some v
      → parse_hex_pairs qt n (drop 2 hex) ≡ some bytes
      → parse_hex_pairs qt (suc n) hex ≡ some (v % 256 ∷ bytes)
  unfolding parse_hex_pairs
  pairs-some n hex v bytes x y = rw (x, y, parse_hex_pairs) refl

  parse_hex_pairs-IsKey :
      (n : ℕ) (hex key : Bytes)
      → parse_hex_pairs qt n hex ≡ some key
      → (length key ≡ n) × All (λ b. b < 256) key
  unfolding parse_hex_pairs
  parse_hex_pairs-IsKey zero hex key e =
      subst (λ k. (length k ≡ 0) × All (λ b. b < 256) k) (some_injective e) (refl, tt)
  parse_hex_pairs-IsKey (suc n) hex key e = elim (Option-cases (qt.parse_hex (take 2 hex))) [
    | inl x ↦ absurd (none_not_some (sym (rw (x, parse_hex_pairs) refl) ∙ e))
    | inr (v, x) ↦ elim (Option-cases (parse_hex_pairs qt n (drop 2 hex))) [
      | inl y ↦ absurd (none_not_some (sym (pairs-none n hex v x y) ∙ e))
      | inr (bytes, y) ↦
          let rest = parse_hex_pairs-IsKey n (drop 2 hex) bytes y in
          let whole : v % 256 ∷ bytes ≡ key =
            some_injective (sym (pairs-some n hex v bytes x y) ∙ e) in
          subst (λ k. (length k ≡ suc n) × All (λ b. b < 256) k) whole
            (omega (arith, rest.0), (omega arith, rest.1))
    ]
  ]

  parse_hex128-IsAesKey : (hex key : Bytes) → parse_hex128 qt hex ≡ some key → IsAesKey key
  unfolding parse_hex128
  parse_hex128-IsAesKey hex key e = elim (Bool-cases (length hex == 32)) [
    | inl x ↦ parse_hex_pairs-IsKey 16 hex key (sym (rw x refl) ∙ e)
    | inr x ↦ absurd (none_not_some (sym (rw x refl) ∙ e))
  ]

  refused :
      (o : Json) (kind : Kind)
      → kind_of (qt.to_string (qt.value o type_key)) ≡ some kind
      → (not (qt.is_double (qt.value o index_key))
          || (not (qt.is_double (qt.value o ssrc_key))
              || not (qt.is_double (qt.value o rtp_payload_type_key))))
        ≡ true
      → parse_stream qt o ≡ none
  unfolding parse_stream
  refused o kind x y = rw (x, parse_stream) (rw y refl)

  accepted :
      (o : Json) (kind : Kind)
      → kind_of (qt.to_string (qt.value o type_key)) ≡ some kind
      → (not (qt.is_double (qt.value o index_key))
          || (not (qt.is_double (qt.value o ssrc_key))
              || not (qt.is_double (qt.value o rtp_payload_type_key))))
        ≡ false
      → parse_stream qt o
        ≡ with_keys
            (fields_of qt kind o)
            (parse_hex128 qt (qt.to_string (qt.value o aes_key_key)))
            (parse_hex128 qt (qt.to_string (qt.value o aes_iv_mask_key)))
  unfolding parse_stream
  accepted o kind x y = rw (x, parse_stream) (rw y refl)

  -- A stream that is taken has a codec, an index, a time base and a delay in their ranges, and two keys of
  -- 16 bytes.
  pub parse_stream-IsStream : (o : Json) (s : CastStream) → parse_stream qt o ≡ some s → IsStream s
  unfolding parse_stream
  parse_stream-IsStream o s e = elim (Option-cases (kind_of (qt.to_string (qt.value o type_key)))) [
    | inl x ↦ absurd (none_not_some (sym (rw (x, parse_stream) refl) ∙ e))
    | inr (kind, x) ↦
        elim (Bool-cases (
          not (qt.is_double (qt.value o index_key))
          || (not (qt.is_double (qt.value o ssrc_key))
              || not (qt.is_double (qt.value o rtp_payload_type_key))))) [
                | inl y ↦ absurd (none_not_some (sym (refused o kind x y) ∙ e))
                | inr y ↦
                    with_keys-IsStream (fields_of qt kind o) s
                      (parse_hex128 qt (qt.to_string (qt.value o aes_key_key)))
                      (parse_hex128 qt (qt.to_string (qt.value o aes_iv_mask_key)))
                      (sym (accepted o kind x y) ∙ e)
                      (parse_hex128-IsAesKey (qt.to_string (qt.value o aes_key_key)))
                      (parse_hex128-IsAesKey (qt.to_string (qt.value o aes_iv_mask_key)))
                      (parse_timebase-bounds (qt.to_string (qt.value o time_base_key)))
                      (delay_of-bounds (qt.to_int (qt.value o target_delay_key) (pos 400)))
              ]
  ]
