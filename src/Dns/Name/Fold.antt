-- ===== src/Dns/Name/Fold.antt =====
-- Names that differ in letter case only, and `sameName`.
use air_show.Prelude.{
  ℕ, ◌+◌, ◌≤◌, ◌⊎◌, ◌==◌, List, suc, ◌≡◌, ◌↔◌, refl, ap, true, [], ◌∷◌, map, Bytes, length, arith,
}
use air_show.Dns.Wire.{lower}
use air_show.Dns.Name.{Name, same_label, same_name}
use air_show.Dns.Name.Bounds.{wire_size}

abbrev pub fold_label : Bytes → Bytes
fold_label = map lower

abbrev pub fold : Name → Name
fold = map fold_label

same_label_iff : (a b : Bytes) → (same_label a b ≡ true) ↔ (fold_label a ≡ fold_label b)
unfolding same_label
same_label_iff [] [] = ground arith
same_label_iff [] (y ∷ b) = ground arith
same_label_iff (x ∷ a) [] = ground arith
same_label_iff (x ∷ a) (y ∷ b) = ground (arith, same_label_iff a b)

pub same_name-fold : (a b : Name) → (same_name a b ≡ true) ↔ (fold a ≡ fold b)
unfolding same_name
same_name-fold [] [] = ground arith
same_name-fold [] (y ∷ b) = ground arith
same_name-fold (x ∷ a) [] = ground arith
same_name-fold (x ∷ a) (y ∷ b) = ground (arith, same_label_iff x y, same_name-fold a b)

-- A capital letter of ASCII, 'A' to 'Z', and its small letter, 'a' to 'z'.
abbrev pub IsCapitalOf : ℕ → ℕ → Type 0
IsCapitalOf a b = (65 ≤ a) × (a ≤ 90) × (b ≡ a + 32)

abbrev pub SameLetter : ℕ → ℕ → Type 0
SameLetter a b = (a ≡ b) ⊎ IsCapitalOf a b ⊎ IsCapitalOf b a

abbrev pub Pointwise : {A : Type 0} → (A → A → Type 0) → List A → List A → Type 0
Pointwise R [] [] = Unit
Pointwise R [] (y ∷ ys) = ⊥
Pointwise R (x ∷ xs) [] = ⊥
Pointwise R (x ∷ xs) (y ∷ ys) = R x y × Pointwise R xs ys

abbrev pub SameLabel : Bytes → Bytes → Type 0
SameLabel = Pointwise SameLetter

same_letter : (a b : ℕ) → (lower a == lower b) ≡ true ↔ SameLetter a b
unfolding lower
same_letter a b = ground arith

same_label-SameLabel : (a b : Bytes) → (same_label a b ≡ true) ↔ SameLabel a b
unfolding same_label
same_label-SameLabel [] [] = (λ e. tt, λ u. refl)
same_label-SameLabel [] (y ∷ b) = ground arith
same_label-SameLabel (x ∷ a) [] = ground arith
same_label-SameLabel (x ∷ a) (y ∷ b) = ground (arith, same_letter x y, same_label-SameLabel a b)

-- `sameName` holds exactly for names with as many labels, of as many bytes, whose bytes at each place
-- are equal, or the capital and the small one of the same letter of ASCII.
pub same_name_iff : (a b : Name) → (same_name a b ≡ true) ↔ Pointwise SameLabel a b
unfolding same_name
same_name_iff [] [] = (λ e. tt, λ u. refl)
same_name_iff [] (y ∷ b) = ground arith
same_name_iff (x ∷ a) [] = ground arith
same_name_iff (x ∷ a) (y ∷ b) = ground (arith, same_label-SameLabel x y, same_name_iff a b)

pub length-fold_label : (l : Bytes) → length (fold_label l) ≡ length l
length-fold_label [] = refl
length-fold_label (c ∷ l) = ap suc (length-fold_label l)

pub length-eq_of_fold : (a b : Name) → fold a ≡ fold b → length a ≡ length b
length-eq_of_fold [] [] h = refl
length-eq_of_fold [] (y ∷ b) h = absurd (ground arith)
length-eq_of_fold (x ∷ a) [] h = absurd (ground arith)
length-eq_of_fold (x ∷ a) (y ∷ b) h = ground (arith, length-eq_of_fold a b)

pub wire_size-eq_of_fold : (a b : Name) → fold a ≡ fold b → wire_size a ≡ wire_size b
wire_size-eq_of_fold [] [] h = refl
wire_size-eq_of_fold [] (y ∷ b) h = absurd (ground arith)
wire_size-eq_of_fold (x ∷ a) [] h = absurd (ground arith)
wire_size-eq_of_fold (x ∷ a) (y ∷ b) h =
    ground (arith, wire_size-eq_of_fold a b, length-fold_label x, length-fold_label y)
