-- ===== src/MdnsResponder/Compare/Antisymmetry.antt =====
-- The order of record sets is the same seen from both sides.
use air_show.Prelude.{ℕ, ◌≡◌, refl, true, false, List, [], ◌∷◌, Bytes, arith, map}
use air_show.Dns.Message.{Record, canonical_rdata}
use air_show.MdnsResponder.Compare.{
  bytes_less, by_key, sort, Verdict, we_lose, tie, we_win, pairwise, compare_record_sets,
}

bytes_less-asym : (a b : Bytes) → bytes_less a b ≡ true → bytes_less b a ≡ false
unfolding bytes_less
bytes_less-asym a [] h = absurd (ground arith)
bytes_less-asym [] (y ∷ b) h = refl
bytes_less-asym (x ∷ a) (y ∷ b) h = ground (arith, bytes_less-asym a b)

bytes_less-connected : (a b : Bytes) → bytes_less a b ≡ false → bytes_less b a ≡ false → a ≡ b
unfolding bytes_less
bytes_less-connected [] [] h k = refl
bytes_less-connected (x ∷ a) [] h k = absurd (ground arith)
bytes_less-connected [] (y ∷ b) h k = absurd (ground arith)
bytes_less-connected (x ∷ a) (y ∷ b) h k = ground (arith, bytes_less-connected a b)

by_key-asym : (a b : Record) → by_key a b ≡ true → by_key b a ≡ false
unfolding by_key
by_key-asym a b h = ground (arith, bytes_less-asym (canonical_rdata a) (canonical_rdata b))

-- The other side's view of a verdict.
abbrev pub opposite : Verdict → Verdict
opposite we_lose = we_win
opposite tie = tie
opposite we_win = we_lose

pairwise-opposite : (xs ys : List Record) → pairwise ys xs ≡ opposite (pairwise xs ys)
unfolding pairwise
pairwise-opposite [] [] = refl
pairwise-opposite [] (y ∷ ys) = refl
pairwise-opposite (x ∷ xs) [] = refl
pairwise-opposite (x ∷ xs) (y ∷ ys) =
    ground (arith, by_key-asym x y, by_key-asym y x, pairwise-opposite xs ys)

-- Two hosts that compare the same two sets of records, each from its own side, come to opposite
-- verdicts: if one loses the other wins, and a tie is a tie for both.
pub compare_record_sets-opposite :
    (ours theirs : List Record)
    → compare_record_sets theirs ours ≡ opposite (compare_record_sets ours theirs)
unfolding compare_record_sets
compare_record_sets-opposite ours theirs = pairwise-opposite (sort ours) (sort theirs)

abbrev pub Key : Type 0
Key = ℕ × ℕ × Bytes

abbrev pub key : Record → Key
key r = (r.rrclass, r.type, canonical_rdata r)

by_key-connected : (a b : Record) → by_key a b ≡ false → by_key b a ≡ false → key a ≡ key b
unfolding by_key
by_key-connected a b h k =
    ground (arith, bytes_less-connected (canonical_rdata a) (canonical_rdata b))

-- A tie means that the two sorted sets agree in class, type and data, record by record.
pub tie-keys : (xs ys : List Record) → pairwise xs ys ≡ tie → map key xs ≡ map key ys
unfolding pairwise
tie-keys [] [] h = refl
tie-keys [] (y ∷ ys) h = absurd (ground arith)
tie-keys (x ∷ xs) [] h = absurd (ground arith)
tie-keys (x ∷ xs) (y ∷ ys) h = ground (arith, tie-keys xs ys, by_key-connected x y)
