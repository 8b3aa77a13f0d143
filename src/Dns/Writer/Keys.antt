-- ===== src/Dns/Writer/Keys.antt =====
-- The suffix keys of the compression map: they determine the name up to letter case.
use air_show.Prelude.{
  ℕ, ◌≤◌, ◌<◌, ◌≡◌, refl, ap, [], ◌∷◌, ◌++◌, some, Bytes, length, take, arith, All, same_bytes,
  same_bytes_iff, Bool-cases, inl, inr, length-append, min,
}
use air_show.Dns.Name.{Name, cut, max_label}
use air_show.Dns.Name.Bounds.{IsLabel, wire_size}
use air_show.Dns.Name.Fold.{fold, fold_label, length-fold_label}
use air_show.Dns.Writer.{Offsets, find, suffix_key}

take-all : (l : Bytes) → take (length l) l ≡ l
take-all [] = refl
take-all (c ∷ l) = ap (◌∷◌ c) (take-all l)

-- A label within the limit is not cut.
pub cut-eq : (l : Bytes) → length l ≤ 63 → cut l ≡ l
cut-eq l h = let e : min (length l) max_label ≡ length l = omega arith in rw e (take-all l)

-- A name as `Name` holds it on the wire: labels of 1 to 63 bytes, at most 255 together, and at most 32
-- of them, since the reader follows at most 32 jumps.
pub record IsName (n : Name) : Type 0 where
  pub labels : All IsLabel n
  pub size : wire_size n ≤ 255
  pub few : length n ≤ 32

pub IsName-tail : (l : Bytes) (n : Name) → IsName (l ∷ n) → IsName n
IsName-tail l n h = record {
  labels = h.labels.1;
  size = omega (arith, h.size);
  few = omega (arith, h.few);
}

pub suffix_key-cons :
    (l : Bytes) (n : Name)
    → IsLabel l
    → suffix_key (l ∷ n) ≡ (length l ∷ fold_label l) ++ suffix_key n
unfolding suffix_key
suffix_key-cons [] n h = absurd (omega arith)
suffix_key-cons (c ∷ l) n h = rw (cut-eq (c ∷ l) h.1)

append-cancel : (a b x y : Bytes) → length a ≡ length b → a ++ x ≡ b ++ y → (a ≡ b) × (x ≡ y)
append-cancel [] [] x y h e = (refl, e)
append-cancel [] (q ∷ b) x y h e = absurd (omega arith)
append-cancel (p ∷ a) [] x y h e = absurd (omega arith)
append-cancel (p ∷ a) (q ∷ b) x y h e = ground (arith, append-cancel a b x y)

-- Names with one key are equal but for letter case.
pub fold-eq_of_suffix_key :
    (a b : Name) → All IsLabel a → All IsLabel b → suffix_key a ≡ suffix_key b → fold a ≡ fold b
fold-eq_of_suffix_key [] [] ha hb h = refl
fold-eq_of_suffix_key [] (y ∷ b) ha hb h =
    absurd (unfold suffix_key in ground (arith, suffix_key-cons y b hb.0))
fold-eq_of_suffix_key (x ∷ a) [] ha hb h =
    absurd (unfold suffix_key in ground (arith, suffix_key-cons x a ha.0))
fold-eq_of_suffix_key (x ∷ a) (y ∷ b) ha hb h = ground (
  arith,
  suffix_key-cons x a ha.0,
  suffix_key-cons y b hb.0,
  length-fold_label x,
  length-fold_label y,
  append-cancel (fold_label x) (fold_label y) (suffix_key a) (suffix_key b),
  fold-eq_of_suffix_key a b ha.1 hb.1,
)

pub length-suffix_key-cons :
    (l : Bytes) (n : Name) → IsLabel l → length (suffix_key n) < length (suffix_key (l ∷ n))
length-suffix_key-cons l n h =
    omega (arith, ap length (suffix_key-cons l n h), length-append (fold_label l) (suffix_key n))

-- An entry with a longer key does not hide what stands behind it.
pub find-longer :
    (key k : Bytes) (off : ℕ) (rest : Offsets)
    → length key < length k
    → find key ((k, off) ∷ rest) ≡ find key rest
unfolding find
find-longer key k off rest h = elim (Bool-cases (same_bytes key k)) [
  | inl e ↦ absurd (omega (arith, ap length ((same_bytes_iff key k).0 e)))
  | inr e ↦ rw e
]

-- Whatever `find` returns was entered under this very key.
pub find-All {ℓ} :
    (P : Bytes → ℕ → Type ℓ) (key : Bytes) (table : Offsets) {off : ℕ}
    → All (λ e. P e.0 e.1) table
    → find key table ≡ some off
    → P key off
unfolding find
find-All P key [] h e = absurd (ground arith)
find-All P key ((k, o) ∷ rest) {off} h e = elim (Bool-cases (same_bytes key k)) [
  | inl s ↦
      let same : key ≡ k = (same_bytes_iff key k).0 s in
      let here : o ≡ off = ground (arith, s) in rw (same, ← here) h.0
  | inr s ↦ find-All P key rest h.1 (rw s at e)
]
