-- ===== src/Dns/Writer/Names.antt =====
-- What `Writer::name` appends: it depends on the offsets and on the size of the output only, and it
-- decodes to the name that was written, up to letter case.
use native.Mathlib.Nat.{add_assoc}
use air_show.Prelude.{
  ltb→lt, ℕ, suc, ◌+◌, ◌%◌, ◌≤◌, ◌<◌, ◌≡◌, refl, ap, ◌∙◌, [], ◌∷◌, ◌++◌, none, some, Bytes, length,
  arith, All, All-append, Bool-cases, Option-cases, inl, inr, length-append, ltb, if◌then◌else◌,
}
use mathlib.Core.List.{append_assoc}
use air_show.Dns.Wire.{put16}
use air_show.Dns.Wire.At.{At-last, At-last, At-here, length-put16}
use air_show.Dns.Name.{Name}
use air_show.Dns.Name.Bounds.{IsLabel, wire_size}
use air_show.Dns.Name.Fold.{fold, fold_label, length-eq_of_fold}
use air_show.Dns.Name.Decode.{Decodes, root, label, jump, Decodes-more}
use air_show.Dns.Writer.{Offsets, Writer, append, find, suffix_key, write_name}
use air_show.Dns.Writer.Keys.{
  cut-eq, IsName, fold-eq_of_suffix_key, length-suffix_key-cons, find-longer, find-All,
}

-- What is appended to an output of `size` bytes under the map `table`, and the new entries. The
-- entries made on the way are longer than what is looked up later, so `table` serves throughout.
pub emit : Offsets → ℕ → Name → Bytes × Offsets
emit table size [] = (0 ∷ [], [])
emit table size (l ∷ rest) = elim (find (suffix_key (l ∷ rest)) table) [
  | some off ↦ (put16 (0xC000 + off % 0x4000), [])
  | none ↦
      let (chunk, news) = emit table (size + length (length l ∷ l)) rest in
      (
        (length l ∷ l) ++ chunk,
        news ++ (if ltb size 0x3FFF then (suffix_key (l ∷ rest), size) ∷ [] else []),
      )
]

-- The entries that are too long for the key of `n`.
abbrev pub Longer : Name → Offsets → Type 0
Longer n = All (λ e. length (suffix_key n) < length e.0)

find-append :
    (n : Name) (pending table : Offsets)
    → Longer n pending
    → find (suffix_key n) (pending ++ table) ≡ find (suffix_key n) table
find-append n [] table h = refl
find-append n ((k, off) ∷ pending) table h =
    find-longer (suffix_key n) k off (pending ++ table) h.0 ∙ find-append n pending table h.1

Longer-tail :
    (l : Bytes) (n : Name) (pending : Offsets)
    → IsLabel l
    → Longer (l ∷ n) pending
    → Longer n pending
Longer-tail l n [] il h = tt
Longer-tail l n (e ∷ pending) il h =
    (omega (arith, h.0, length-suffix_key-cons l n il), Longer-tail l n pending il h.1)

-- The entry for a label, if it lies within reach of a pointer.
abbrev entry : ℕ → Bytes → Offsets
entry size key = if ltb size 0x3FFF then (key, size) ∷ [] else []

Longer-entry :
    (size : ℕ) (l : Bytes) (n : Name) → IsLabel l → Longer n (entry size (suffix_key (l ∷ n)))
Longer-entry size l n il = elim (Bool-cases (ltb size 0x3FFF)) [
  | inl e ↦ rw e (length-suffix_key-cons l n il, tt)
  | inr e ↦ rw e tt
]

write_name-cons :
    (w : Writer) (l : Bytes) (rest : Name)
    → IsLabel l
    → find (suffix_key (l ∷ rest)) w.offsets ≡ none
    → write_name w (l ∷ rest)
      ≡ write_name
          (record {
            out = w.out ++ (length l ∷ l);
            offsets = entry (length w.out) (suffix_key (l ∷ rest)) ++ w.offsets;
          })
          rest
unfolding write_name
write_name-cons w [] rest il h = absurd (omega arith)
write_name-cons w (c ∷ l) rest il h = elim (Bool-cases (ltb (length w.out) 0x3FFF)) [
  | inl e ↦ rw (h, write_name) (rw (cut-eq (c ∷ l) il.1) (rw e refl))
  | inr e ↦ rw (h, write_name) (rw (cut-eq (c ∷ l) il.1) (rw e refl))
]

write_name-found :
    (w : Writer) (l : Bytes) (rest : Name) (off : ℕ)
    → IsLabel l
    → find (suffix_key (l ∷ rest)) w.offsets ≡ some off
    → write_name w (l ∷ rest) ≡ append w (put16 (0xC000 + off % 0x4000))
unfolding write_name
write_name-found w [] rest off il h = absurd (omega arith)
write_name-found w (c ∷ l) rest off il h = rw (h, write_name)

pub emit-found :
    (table : Offsets) (size : ℕ) (l : Bytes) (rest : Name) (off : ℕ)
    → find (suffix_key (l ∷ rest)) table ≡ some off
    → emit table size (l ∷ rest) ≡ (put16 (0xC000 + off % 0x4000), [])
unfolding emit
emit-found table size l rest off h = rw (h, emit)

pub emit-cons :
    (table : Offsets) (size : ℕ) (l : Bytes) (rest : Name)
    → find (suffix_key (l ∷ rest)) table ≡ none
    → emit table size (l ∷ rest) ≡ (
      (length l ∷ l) ++ (emit table (size + length (length l ∷ l)) rest).0,
      (emit table (size + length (length l ∷ l)) rest).1 ++ entry size (suffix_key (l ∷ rest)),
    )
unfolding emit
emit-cons table size l rest h = rw (h, emit)

pub write_name-emit :
    (n : Name) (out : Bytes) (pending table : Offsets)
    → All IsLabel n
    → Longer n pending
    → write_name (record { out = out; offsets = pending ++ table }) n ≡ record {
      out = out ++ (emit table (length out) n).0;
      offsets = (emit table (length out) n).1 ++ (pending ++ table);
    }
write_name-emit [] out pending table il h = unfold write_name emit in refl
write_name-emit (l ∷ rest) out pending table il h =
    elim (Option-cases (find (suffix_key (l ∷ rest)) table)) [
      | inr (off, e) ↦
          write_name-found _ l rest off il.0 (find-append (l ∷ rest) pending table h ∙ e)
          ∙ rw (emit-found table (length out) l rest off e) refl
      | inl e ↦
          let size' = length out + length (length l ∷ l) in
          let grown : length (out ++ (length l ∷ l)) ≡ size' = length-append out (length l ∷ l) in
          let mine = entry (length out) (suffix_key (l ∷ rest)) in
          write_name-cons _ l rest il.0 (find-append (l ∷ rest) pending table h ∙ e)
          ∙ rw (emit-cons table (length out) l rest e) (
              rw (← append_assoc mine pending table) (
                write_name-emit rest (out ++ (length l ∷ l)) (mine ++ pending) table il.1 (
                  All-append (λ x. length (suffix_key rest) < length x.0) mine pending
                    (Longer-entry (length out) l rest il.0) (Longer-tail l rest pending il.0 h))
                ∙ rw grown (simp append_assoc)))
    ]

-- What an entry of the map promises of the bytes written so far: its position means a name with the
-- entry's key, reached by fewer jumps than the name has labels.
pub record Entry (bytes key : Bytes) (off : ℕ) : Type 0 where
  pub source : Name
  pub labels : All IsLabel source
  pub keyed : key ≡ suffix_key source
  pub found : Name
  pub folds : fold source ≡ fold found
  pub jumps : ℕ
  pub end : ℕ
  pub decodes : Decodes bytes off found jumps end
  pub fewer : jumps < length source
  pub near : off < 0x4000

abbrev pub IsTable : Bytes → Offsets → Type 0
IsTable bytes = All (λ e. Entry bytes e.0 e.1)

pub IsTable-more :
    (bytes more : Bytes) (table : Offsets) → IsTable bytes table → IsTable (bytes ++ more) table
IsTable-more bytes more [] h = tt
IsTable-more bytes more ((key, off) ∷ table) h = (
  record {
    source = h.0.source;
    labels = h.0.labels;
    keyed = h.0.keyed;
    found = h.0.found;
    folds = h.0.folds;
    jumps = h.0.jumps;
    end = h.0.end;
    decodes = Decodes-more more h.0.decodes;
    fewer = h.0.fewer;
    near = h.0.near;
  },
  IsTable-more bytes more table h.1,
)

-- A chunk and new entries, as they stand behind `bytes`, for the name `n`.
pub record Written (bytes : Bytes) (n : Name) (chunk : Bytes) (news : Offsets) : Type 0 where
  pub found : Name
  pub folds : fold n ≡ fold found
  pub jumps : ℕ
  pub decodes : Decodes (bytes ++ chunk) (length bytes) found jumps (length bytes + length chunk)
  pub few : jumps ≤ length n
  pub entries : IsTable (bytes ++ chunk) news

entry-IsTable :
    (size : ℕ) (key bytes : Bytes)
    → (size < 0x4000 → Entry bytes key size)
    → IsTable bytes (entry size key)
entry-IsTable size key bytes make = elim (Bool-cases (ltb size 0x3FFF)) [
  | inl e ↦ rw e (make (omega (arith, ltb→lt size 0x3FFF e)), tt)
  | inr e ↦ rw e tt
]

Written-root : (bytes : Bytes) → Written bytes [] (0 ∷ []) []
Written-root bytes = record {
  found = [];
  folds = refl;
  jumps = 0;
  decodes = root (At-last bytes (0 ∷ [])) refl;
  few = omega arith;
  entries = tt;
}

Written-pointer :
    (bytes : Bytes) (n : Name) (off : ℕ)
    → All IsLabel n
    → Entry bytes (suffix_key n) off
    → Written bytes n (put16 (0xC000 + off % 0x4000)) []
Written-pointer bytes n off il e =
    let pointer = put16 (0xC000 + off) in
    let folds : fold n ≡ fold e.source = fold-eq_of_suffix_key n e.source il e.labels e.keyed in
    let exact : off % 0x4000 ≡ off = omega (arith, e.near) in
    rw exact (record {
      found = e.found;
      folds = folds ∙ e.folds;
      jumps = suc e.jumps;
      decodes =
          jump {d = e.end} off e.near (At-last bytes pointer)
            (omega (arith, length-put16 (0xC000 + off))) (Decodes-more pointer e.decodes);
      few = omega (arith, e.fewer, length-eq_of_fold n e.source folds);
      entries = tt;
    })

Written-label :
    (bytes l : Bytes) (rest : Name) (chunk : Bytes) (news : Offsets)
    → IsLabel l
    → All IsLabel rest
    → Written (bytes ++ (length l ∷ l)) rest chunk news
    → Written bytes
        (l ∷ rest)
        ((length l ∷ l) ++ chunk)
        (news ++ entry (length bytes) (suffix_key (l ∷ rest)))
Written-label bytes l rest chunk news il ils w =
    let item = length l ∷ l in
    let same : (bytes ++ item) ++ chunk ≡ bytes ++ (item ++ chunk) =
      append_assoc bytes item chunk in
    let grown = length-append bytes item in
    let d : Decodes (bytes ++ (item ++ chunk)) (length bytes) (l ∷ w.found) w.jumps
        (length bytes + length (item ++ chunk)) =
      label {q = length (bytes ++ item)} l il (At-here bytes item chunk) (omega (arith, grown)) (
        rw (length-append item chunk) (
          rw (← add_assoc (length bytes) (length item) (length chunk))
            (rw (← grown) (rw (← same) w.decodes)))) in
    record {
      found = l ∷ w.found;
      folds = ap (◌∷◌ (fold_label l)) w.folds;
      jumps = w.jumps;
      decodes = d;
      few = omega (arith, w.few);
      entries =
          All-append (λ e. Entry (bytes ++ (item ++ chunk)) e.0 e.1) news
            (entry (length bytes) (suffix_key (l ∷ rest))) (rw (← same) w.entries)
            (entry-IsTable (length bytes) (suffix_key (l ∷ rest)) _ (λ near. record {
              source = l ∷ rest;
              labels = (il, ils);
              keyed = refl;
              found = l ∷ w.found;
              folds = ap (◌∷◌ (fold_label l)) w.folds;
              jumps = w.jumps;
              end = length bytes + length (item ++ chunk);
              decodes = d;
              fewer = omega (arith, w.few);
              near = near;
            }));
    }

-- What `Writer::name` appends decodes to the name, up to letter case, and the map stays right.
pub emit-Written :
    (n : Name) (bytes : Bytes) (table : Offsets)
    → All IsLabel n
    → IsTable bytes table
    → Written bytes n (emit table (length bytes) n).0 (emit table (length bytes) n).1
unfolding emit
emit-Written [] bytes table il t = Written-root bytes
emit-Written (l ∷ rest) bytes table il t =
    elim (Option-cases (find (suffix_key (l ∷ rest)) table)) [
      | inr (off, e) ↦ rw (emit-found table (length bytes) l rest off e) (
          Written-pointer bytes (l ∷ rest) off il
            (find-All (Entry bytes) (suffix_key (l ∷ rest)) table t e))
      | inl e ↦ rw (emit-cons table (length bytes) l rest e) (
          rw (← length-append bytes (length l ∷ l)) (
            Written-label bytes l rest _ _ il.0 il.1 (
              emit-Written rest (bytes ++ (length l ∷ l)) table il.1
                (IsTable-more bytes (length l ∷ l) table t))))
    ]

pub write_name-eq :
    (w : Writer) (n : Name)
    → IsName n
    → write_name w n ≡ record {
      out = w.out ++ (emit w.offsets (length w.out) n).0;
      offsets = (emit w.offsets (length w.out) n).1 ++ w.offsets;
    }
write_name-eq w n g = write_name-emit n w.out [] w.offsets g.labels tt

-- A written name takes at least one byte, and at most what it takes without compression, plus one.
pub length-emit :
    (table : Offsets) (size : ℕ) (n : Name)
    → All IsLabel n
    → (1 ≤ length (emit table size n).0) × (length (emit table size n).0 ≤ wire_size n + 1)
unfolding emit
length-emit table size [] il = omega arith
length-emit table size (l ∷ rest) il = elim (Option-cases (find (suffix_key (l ∷ rest)) table)) [
  | inr (off, e) ↦
      rw (emit-found table size l rest off e)
        (omega (arith, length-put16 (0xC000 + off % 0x4000), il.0))
  | inl e ↦ rw (emit-cons table size l rest e) (
      omega (
        arith,
        length-append (length l ∷ l) (emit table (size + length (length l ∷ l)) rest).0,
        length-emit table (size + length (length l ∷ l)) rest il.1,
      ))
]
