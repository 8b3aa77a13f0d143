-- ===== src/MiracastHandler/SourceReady/Tlvs.antt =====
-- The records of a SOURCE_READY message: the loop of `parseSourceReady` ends, and reads what was encoded.
use air_show.Prelude.{
  ap, ◌≢◌, ℕ, zero, suc, ◌+◌, ◌*◌, ◌≤◌, ◌<◌, min, ◌≡◌, refl, ◌∙◌, List, [], ◌∷◌, ◌++◌, some, ltb,
  Bytes, length, All, arith, Bool-cases, inl, inr, length-append,
}
use mathlib.Core.Path.{subst}
use air_show.Dns.Wire.{be16, byte_at, slice, put16}
use air_show.Dns.Wire.At.{At, At-left, At-right, At-behind16, At-be16, At-slice}
use air_show.MiracastHandler.SourceReady.{
  to_parsed, Decoders, SourceReadyInfo, take_tlv, read_tlvs, parsed, unended, parse_source_ready,
}

-- The loop ends: a round goes on only while its record lies inside the part that is parsed.
read_tlvs-ends :
    (decoders : Decoders) (bytes : Bytes) (parse_len fuel pos : ℕ) (out : SourceReadyInfo)
    → 0 < fuel
    → parse_len < pos + 4 * fuel
    → (info : SourceReadyInfo) × (read_tlvs decoders bytes parse_len fuel pos out ≡ some info)
unfolding read_tlvs
read_tlvs-ends decoders bytes parse_len zero pos out more enough = elim more [ ]
read_tlvs-ends decoders bytes parse_len (suc fuel) pos out more enough =
    let len = be16 bytes (pos + 2) in
    let next = pos + 4 + len in
    let out' = take_tlv decoders (be16 bytes pos) (slice bytes (pos + 4) len) out in
    elim (Bool-cases (ltb parse_len (pos + 4))) [
      | inl e ↦ (out, rw e refl)
      | inr e ↦ elim (Bool-cases (ltb parse_len next)) [
        | inl e' ↦ (out, rw (e, e') refl)
        | inr e' ↦
            let rest =
              read_tlvs-ends decoders bytes parse_len fuel next out' (ground (arith, e'))
                (ground arith) in
            (rest.0, rw (e, e') rest.1)
      ]
    ]

-- Every input is refused or parsed: the rounds that are given to the loop are enough.
pub parse_source_ready-ends :
    (decoders : Decoders) (bytes : Bytes) (out : SourceReadyInfo)
    → parse_source_ready decoders bytes out ≢ unended
unfolding parse_source_ready
parse_source_ready-ends decoders bytes out = λ e.
    let n = length bytes in
    elim (Bool-cases (ltb n 4)) [
      | inl small ↦ ground (arith, e, small)
      | inr room ↦
          let done =
            read_tlvs-ends decoders bytes (min (be16 bytes 0) n) n 4 out (ground (arith, room))
              (ground (arith, room)) in
          ground (arith, e, room, done.1)
    ]

pub record Tlv : Type 0 where
  pub type : ℕ
  pub value : Bytes

abbrev pub IsTlv : Tlv → Type 0
IsTlv t = (t.type < 65536) × (length t.value < 65536)

abbrev pub encode_tlv : Tlv → Bytes
encode_tlv t = put16 t.type ++ (put16 (length t.value) ++ t.value)

abbrev pub encode_tlvs : List Tlv → Bytes
encode_tlvs [] = []
encode_tlvs (t ∷ ts) = encode_tlv t ++ encode_tlvs ts

-- A message with its version and its command, which is 1.
abbrev pub encode_source_ready : ℕ → List Tlv → Bytes
encode_source_ready version ts =
    put16 (4 + length (encode_tlvs ts)) ++ (version ∷ 1 ∷ encode_tlvs ts)

abbrev pub take_tlvs : Decoders → List Tlv → SourceReadyInfo → SourceReadyInfo
take_tlvs decoders [] out = out
take_tlvs decoders (t ∷ ts) out = take_tlvs decoders ts (take_tlv decoders t.type t.value out)

length-encode_tlv : (t : Tlv) → length (encode_tlv t) ≡ 4 + length t.value
unfolding put16
length-encode_tlv t = omega arith

-- A round takes a record that lies inside the part that is parsed.
read_tlvs-step :
    (decoders : Decoders) (bytes : Bytes) (parse_len fuel pos : ℕ) (out : SourceReadyInfo) (t : Tlv)
    → be16 bytes pos ≡ t.type
    → be16 bytes (pos + 2) ≡ length t.value
    → slice bytes (pos + 4) (length t.value) ≡ t.value
    → pos + 4 + length t.value ≤ parse_len
    → read_tlvs decoders bytes parse_len (suc fuel) pos out
      ≡ read_tlvs decoders bytes parse_len fuel
          (pos + 4 + length t.value)
          (take_tlv decoders t.type t.value out)
unfolding read_tlvs
read_tlvs-step decoders bytes parse_len fuel pos out t e1 e2 e3 fits =
    rw (e1, e2, e3) (ground (arith, fits))

pos_4 : (pos : ℕ) → pos + 4 ≡ pos + 2 + 2
pos_4 pos = omega arith

read_tlvs-encode_tlvs :
    (decoders : Decoders) (bytes : Bytes) (ts : List Tlv) (fuel pos : ℕ) (out : SourceReadyInfo)
    → At bytes pos (encode_tlvs ts)
    → All IsTlv ts
    → length ts < fuel
    → read_tlvs decoders bytes (pos + length (encode_tlvs ts)) fuel pos out
      ≡ some (take_tlvs decoders ts out)
unfolding read_tlvs
read_tlvs-encode_tlvs decoders bytes ts zero pos out at good enough = elim enough [ ]
read_tlvs-encode_tlvs decoders bytes [] (suc fuel) pos out at good enough = ground arith
read_tlvs-encode_tlvs decoders bytes (t ∷ ts) (suc fuel) pos out at good enough =
    let here = At-left (encode_tlv t) (encode_tlvs ts) at in
    let type_at : be16 bytes pos ≡ t.type =
      At-be16 t.type good.0.0 (At-left (put16 t.type) (put16 (length t.value) ++ t.value) here) in
    let behind = At-behind16 t.type (put16 (length t.value) ++ t.value) here in
    let len_at : be16 bytes (pos + 2) ≡ length t.value =
      At-be16 (length t.value) good.0.1 (At-left (put16 (length t.value)) t.value behind) in
    let value_at : slice bytes (pos + 4) (length t.value) ≡ t.value =
      rw (pos_4 pos) (At-slice t.value (At-behind16 (length t.value) t.value behind)) in
    let size = length-encode_tlv t in
    let all = length-append (encode_tlv t) (encode_tlvs ts) in
    let next_at : At bytes (pos + 4 + length t.value) (encode_tlvs ts) =
      subst (λ p. At bytes p (encode_tlvs ts)) (omega (arith, size))
        (At-right (encode_tlv t) (encode_tlvs ts) at) in
    let len : pos + length (encode_tlvs (t ∷ ts))
        ≡ pos + 4 + length t.value + length (encode_tlvs ts) =
      omega (arith, size, all) in
    read_tlvs-step decoders bytes (pos + length (encode_tlvs (t ∷ ts))) fuel pos out t type_at
      len_at value_at (omega (arith, size, all))
    ∙ rw len (
        read_tlvs-encode_tlvs decoders bytes ts fuel (pos + 4 + length t.value)
          (take_tlv decoders t.type t.value out) next_at good.1 (omega arith))

length_le : (ts : List Tlv) → length ts ≤ length (encode_tlvs ts)
length_le [] = omega arith
length_le (t ∷ ts) =
    omega (arith, length_le ts, length-encode_tlv t, length-append (encode_tlv t) (encode_tlvs ts))

parse_source_ready-at :
    (decoders : Decoders) (bytes : Bytes) (out : SourceReadyInfo) (parse_len : ℕ)
    → 4 ≤ length bytes
    → byte_at bytes 3 ≡ 1
    → min (be16 bytes 0) (length bytes) ≡ parse_len
    → parse_source_ready decoders bytes out
      ≡ to_parsed (read_tlvs decoders bytes parse_len (length bytes) 4 out)
unfolding parse_source_ready
parse_source_ready-at decoders bytes out parse_len room command part =
    rw (command, part) (ground (arith, room))

-- What a source encodes is read back record by record, whatever version it names and whatever follows
-- the message in the buffer: each record does what its type says, and later ones of a type win.
pub parse_source_ready-encode :
    (decoders : Decoders) (version : ℕ) (ts : List Tlv) (tail : Bytes) (out : SourceReadyInfo)
    → All IsTlv ts
    → length (encode_tlvs ts) < 65532
    → parse_source_ready decoders (encode_source_ready version ts ++ tail) out
      ≡ parsed (take_tlvs decoders ts out)
unfolding parse_source_ready put16
parse_source_ready-encode decoders version ts tail out good small =
    let m = encode_tlvs ts in
    let bytes = encode_source_ready version ts ++ tail in
    let size : be16 bytes 0 ≡ 4 + length m =
      At-be16 (4 + length m) (omega arith)
        (record { before = []; after = (version ∷ 1 ∷ m) ++ tail; splits = refl; placed = refl }) in
    let at : At bytes 4 m = record {
      before = put16 (4 + length m) ++ (version ∷ 1 ∷ []);
      after = tail;
      splits = refl;
      placed = refl;
    } in
    let all = length-append m tail in
    let read =
      read_tlvs-encode_tlvs decoders bytes ts (length bytes) 4 out at good
        (omega (arith, all, length_le ts)) in
    let part : min (be16 bytes 0) (length bytes) ≡ 4 + length m = rw size (omega (arith, all)) in
    parse_source_ready-at decoders bytes out (4 + length m) (omega (arith, all)) refl part
    ∙ ap to_parsed read
