-- ===== src/Dns/Name/Bounds.antt =====
-- `readName` ends, stays in the packet and keeps to the length limits.
use air_show.Prelude.{
  ap, ℕ, zero, suc, ◌+◌, ◌-◌, ◌≤◌, ◌<◌, ◌≡◌, ◌≢◌, refl, ◌⊎◌, inl, inr, true, false, [], ◌∷◌, ◌++◌,
  arith, Bytes, drop, length, All, All-append, length-take, length-drop,
}
use air_show.Dns.Wire.{byte_at, slice}
use air_show.Dns.Name.{
  Name, ok, out_of_fuel, Cursor, Round, fail, finish, more, read_round, read_labels, read_name,
  name_fuel, cursor_at,
}

Round-cases :
    (r : Round)
    → (r ≡ fail) ⊎ (((n : Name) × (e : ℕ) × (r ≡ finish n e)) ⊎ ((c : Cursor) × (r ≡ more c)))
Round-cases fail = inl refl
Round-cases (finish n e) = inr (inl (n, e, refl))
Round-cases (more c) = inr (inr (c, refl))

-- What is left to the loop: jumps that may still be made, and bytes that may still be read.
abbrev budget : Cursor → ℕ
budget c = 32 - c.jumps + (255 - c.total)

read_round-budget :
    (bytes : Bytes) (c c' : Cursor) → read_round bytes c ≡ more c' → budget c' < budget c
unfolding read_round
read_round-budget bytes c c' h = ground arith

read_labels-ne-out_of_fuel :
    (fuel : ℕ) (bytes : Bytes) (c : Cursor)
    → budget c < fuel
    → read_labels fuel bytes c ≢ out_of_fuel
unfolding read_labels
read_labels-ne-out_of_fuel zero bytes c h = elim h [ ]
read_labels-ne-out_of_fuel (suc fuel) bytes c h = elim (Round-cases (read_round bytes c)) [
  | inl e ↦ λ f. ground (arith, e)
  | inr (inl (n, p, e)) ↦ λ f. ground (arith, e)
  | inr (inr (c', e)) ↦ λ f.
      read_labels-ne-out_of_fuel fuel bytes c' (omega (arith, read_round-budget bytes c c' e))
        (rw (e, read_labels) at f)
]

-- `readName` always comes to an answer, compression loops included: the fuel is never used up.
pub read_name-total : (bytes : Bytes) (pos : ℕ) → read_name bytes pos ≢ out_of_fuel
unfolding read_name
read_name-total bytes pos = read_labels-ne-out_of_fuel name_fuel bytes (cursor_at pos) (omega arith)

-- What holds at the end of the loop, from what one round keeps.
pub read_labels_inv {ℓ} :
    (P : Cursor → Type ℓ) (bytes : Bytes)
    → ((c c' : Cursor) → read_round bytes c ≡ more c' → P c → P c')
    → (fuel : ℕ) (c : Cursor) {n : Name} {e : ℕ} → P c
    → read_labels fuel bytes c ≡ ok (n, e)
    → (last : Cursor) × P last × (read_round bytes last ≡ finish n e)
unfolding read_labels
read_labels_inv P bytes keep zero c h r = absurd (ground arith)
read_labels_inv P bytes keep (suc fuel) c {n} {e} h r = elim (Round-cases (read_round bytes c)) [
  | inl f ↦ absurd (ground (arith, f))
  | inr (inl (n', e', f)) ↦ (c, h, ground (arith, f))
  | inr (inr (c', f)) ↦
      read_labels_inv P bytes keep fuel c' (keep c c' f h) (rw (f, read_labels) at r)
]

abbrev pub IsLabel : Bytes → Type 0
IsLabel l = (0 < length l) × (length l ≤ 63)

-- The bytes that the labels take in plain wire form, without the final zero.
abbrev pub wire_size : Name → ℕ
wire_size [] = 0
wire_size (l ∷ n) = length l + 1 + wire_size n

wire_size-append : (a b : Name) → wire_size (a ++ b) ≡ wire_size a + wire_size b
wire_size-append [] b = omega arith
wire_size-append (l ∷ a) b = omega (arith, wire_size-append a b)

length-slice :
    (bytes : Bytes) (p len : ℕ) → p + len ≤ length bytes → length (slice bytes p len) ≡ len
length-slice bytes p len h = omega (arith, length-take len (drop p bytes), length-drop p bytes)

-- What the loop keeps, for a name that starts at `start`.
record Inside (bytes : Bytes) (start : ℕ) (c : Cursor) : Type 0 where
  early : c.jumped ≡ false → start ≤ c.p
  late : c.jumped ≡ true → (start < c.pos) × (c.pos ≤ length bytes)
  counted : c.total ≡ wire_size c.out
  capped : c.total ≤ 255
  labels : All IsLabel c.out

read_round-Inside :
    (bytes : Bytes) (start : ℕ) (c c' : Cursor)
    → read_round bytes c ≡ more c'
    → Inside bytes start c
    → Inside bytes start c'
unfolding read_round
read_round-Inside bytes start c c' h i =
    let len = byte_at bytes c.p in
    let label = slice bytes (c.p + 1) len in
    ground (
      arith,
      wire_size-append c.out (label ∷ []),
      length-slice bytes (c.p + 1) len,
      All-append IsLabel c.out (label ∷ []),
    )

read_round-finish :
    (bytes : Bytes) (start : ℕ) (c : Cursor) (n : Name) (e : ℕ)
    → Inside bytes start c
    → read_round bytes c ≡ finish n e
    → (c.out ≡ n) × (start < e) × (e ≤ length bytes)
unfolding read_round
read_round-finish bytes start c n e i h = ground arith

-- A name that `readName` accepts at `pos` ends behind `pos` and inside the packet. Each of its labels
-- has 1 to 63 bytes, and they take at most 255 bytes together, length bytes counted.
pub read_name_bounds :
    (bytes : Bytes) (pos : ℕ) (n : Name) (e : ℕ)
    → read_name bytes pos ≡ ok (n, e)
    → (pos < e) × (e ≤ length bytes) × All IsLabel n × (wire_size n ≤ 255)
unfolding read_name
read_name_bounds bytes pos n e h =
    let first : Inside bytes pos (cursor_at pos) = ground arith in
    let (last, i, f) =
      read_labels_inv (Inside bytes pos) bytes (read_round-Inside bytes pos) name_fuel
        (cursor_at pos) first h in
    let (same, lo, hi) = read_round-finish bytes pos last n e i f in
    (lo, hi, rw same at i.labels, omega (arith, i.counted, i.capped, ap wire_size same))
