-- ===== src/MdnsResponder/Compare.antt =====
-- Two probers for one name: `compareRecordSets` of src/discovery/MdnsResponder.cpp.
pub mod Antisymmetry
use air_show.Prelude.{
  ℕ, Bool, true, false, ◌&&◌, ◌||◌, List, [], ◌∷◌, if◌then◌else◌, ltb, ◌==◌, Bytes,
}
use air_show.Dns.Message.{Record, canonical_rdata}

-- `<` of `std::vector<uint8_t>`.
unfoldable pub bytes_less : Bytes → Bytes → Bool
bytes_less xs [] = false
bytes_less [] (y ∷ ys) = true
bytes_less (x ∷ xs) (y ∷ ys) = ltb x y || (x == y && bytes_less xs ys)

-- `byKey`: `<` of the tuples of class, type and rdata.
unfoldable pub by_key : Record → Record → Bool
unfolding bytes_less canonical_rdata
by_key a b =
    ltb a.rrclass b.rrclass
    || (a.rrclass == b.rrclass
        && (ltb a.type b.type
            || (a.type == b.type && bytes_less (canonical_rdata a) (canonical_rdata b))))

-- `std::sort`.
unfoldable pub insert : Record → List Record → List Record
unfolding by_key
insert r [] = r ∷ []
insert r (x ∷ xs) = let rest = insert r xs in if by_key x r then x ∷ rest else r ∷ x ∷ xs

unfoldable pub sort : List Record → List Record
unfolding insert
sort [] = []
sort (r ∷ rs) = insert r (sort rs)

-- The result of the comparison: below zero, zero, above zero.
pub data Verdict : Type 0 where
  we_lose tie we_win : Verdict

-- The loop over the pairs, and the comparison of the sizes behind it.
unfoldable pub pairwise : List Record → List Record → Verdict
unfolding by_key
pairwise [] [] = tie
pairwise [] (y ∷ ys) = we_lose
pairwise (x ∷ xs) [] = we_win
pairwise (x ∷ xs) (y ∷ ys) =
    let rest = pairwise xs ys in if by_key x y then we_lose else if by_key y x then we_win else rest

unfoldable pub compare_record_sets : List Record → List Record → Verdict
unfolding pairwise sort
compare_record_sets ours theirs = pairwise (sort ours) (sort theirs)
