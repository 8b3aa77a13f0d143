-- ===== src/Dns/Writer/Items.antt =====
-- What it means that a written item is read back, and the loop over a section of items.
use air_show.Prelude.{ℕ, ◌≡◌, refl, sym, ap, ◌∙◌, List, [], ◌∷◌, ◌++◌, Bytes, length, All}
use mathlib.Core.List.{append-nil, append_assoc}
use air_show.Dns.Name.{Read, ok}
use air_show.Dns.Reader.{read_section}
use air_show.Dns.Writer.{Writer, write_all}
use air_show.Dns.Writer.Names.{IsTable}

abbrev pub HasTable : Writer → Type 0
HasTable w = IsTable w.out w.offsets

-- Writing `x` takes `w` to `w'`: the output grows, its map stays right, and whatever follows, the
-- reader finds a value that stands for `x` where `w` ended, and stops where `w'` ends.
pub record Item {A : Type 0} (Same : A → A → Type 0) (reader : Bytes → ℕ → Read (A × ℕ))
    (w : Writer) (x : A) (w' : Writer) : Type 0 where
  pub chunk : Bytes
  pub grows : w'.out ≡ w.out ++ chunk
  pub table : HasTable w'
  pub value : A
  pub same : Same x value
  pub reads : (rest : Bytes) → reader (w'.out ++ rest) (length w.out) ≡ ok (value, length w'.out)

-- Two lists of one length, related element by element.
abbrev pub SameAll : {A : Type 0} → (A → A → Type 0) → List A → List A → Type 0
SameAll Same [] [] = Unit
SameAll Same (x ∷ xs) (y ∷ ys) = Same x y × SameAll Same xs ys
SameAll Same _ _ = ⊥

module _ {A : Type 0} (Same : A → A → Type 0) (IsGood : A → Type 0)
    (reader : Bytes → ℕ → Read (A × ℕ)) (write : Writer → A → Writer)
    (step : (w : Writer) (x : A) → HasTable w → IsGood x → Item Same reader w x (write w x)) where
  pub write_all-Item :
      (w : Writer) (xs : List A)
      → HasTable w
      → All IsGood xs
      → Item
          (SameAll Same)
          (λ bytes p. read_section reader bytes (length xs) p)
          w
          xs
          (write_all write w xs)
  unfolding write_all read_section
  write_all-Item w [] t good = record {
    chunk = [];
    grows = sym (append-nil w.out);
    table = t;
    value = [];
    same = tt;
    reads = λ rest. refl;
  }
  write_all-Item w (x ∷ xs) t good =
      let i = step w x t good.0 in
      let j = write_all-Item (write w x) xs i.table good.1 in
      record {
        chunk = i.chunk ++ j.chunk;
        grows = j.grows ∙ ap (λ b. b ++ j.chunk) i.grows ∙ append_assoc w.out i.chunk j.chunk;
        table = j.table;
        value = i.value ∷ j.value;
        same = (i.same, j.same);
        reads = λ rest.
            let e : (write_all write (write w x) xs).out ++ rest
                ≡ (write w x).out ++ (j.chunk ++ rest) =
              ap (λ b. b ++ rest) j.grows ∙ append_assoc (write w x).out j.chunk rest in
            let first = ap (λ b. reader b (length w.out)) e ∙ i.reads (j.chunk ++ rest) in
            rw first (rw (j.reads rest) refl);
      }
