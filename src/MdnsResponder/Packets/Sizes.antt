-- ===== src/MdnsResponder/Packets/Sizes.antt =====
-- What a message is split into.
use mathlib.Core.List.{append-nil, append-nil, append-nil, map-append, append_assoc, append_assoc}
use air_show.Prelude.{
  ap, ◌∙◌, ◌&&◌, sym, sym, sym, ◌≤◌, ◌≡◌, ◌⊎◌, inl, inr, refl, Bool, true, false, List, [], ◌∷◌,
  ◌++◌, map, Bytes, length, ltb, leb, is_empty, if◌then◌else◌, All, All-append, arith, Bool-cases,
}
use air_show.Dns.Message.{Record, Message}
use air_show.Dns.Writer.{serialize}
use air_show.MdnsResponder.Packets.{
  max_packet, Packing, base_of, push, count, add, add_all, to_packets,
}

abbrev pub answers_of : List Message → List Record
answers_of [] = []
answers_of (m ∷ ms) = m.answers ++ answers_of ms

abbrev pub additionals_of : List Message → List Record
additionals_of [] = []
additionals_of (m ∷ ms) = m.additionals ++ additionals_of ms

-- A part of `m`: its header and questions are those of `m`, and it is too large only when it
-- carries a single record.
pub record IsPart (m part : Message) : Type 0 where
  pub id : part.id ≡ m.id
  pub flags : part.flags ≡ m.flags
  pub questions : part.questions ≡ m.questions
  pub authorities : part.authorities ≡ m.authorities
  pub size : (count part ≤ 1) ⊎ (length (serialize part) ≤ max_packet)

-- What has been packed: the parts, the last one still open, hold these records.
record Packed (m : Message) (answers additionals : List Record) (p : Packing) : Type 0 where
  parts : List Message
  bytes : p.packets ≡ map serialize parts
  closed : All (IsPart m) parts
  opened : IsPart m p.cur
  answers_kept : answers_of parts ++ p.cur.answers ≡ answers
  additionals_kept : additionals_of parts ++ p.cur.additionals ≡ additionals

answers_of-append : (ms ns : List Message) → answers_of (ms ++ ns) ≡ answers_of ms ++ answers_of ns
answers_of-append [] ns = refl
answers_of-append (m ∷ ms) ns = simp (answers_of-append ms ns, append_assoc)

additionals_of-append :
    (ms ns : List Message) → additionals_of (ms ++ ns) ≡ additionals_of ms ++ additionals_of ns
additionals_of-append [] ns = refl
additionals_of-append (m ∷ ms) ns = simp (additionals_of-append ms ns, append_assoc)

-- The open part is closed, and another one takes its place.
close :
    (m cur : Message) (xs ys : List Record) (p : Packing)
    → (h : Packed m xs ys p) → IsPart m cur
    → Packed m
        (xs ++ cur.answers)
        (ys ++ cur.additionals)
        (record { packets = p.packets ++ (serialize p.cur ∷ []); cur = cur })
close m cur xs ys p h next = record {
  parts = h.parts ++ (p.cur ∷ []);
  bytes = rw (h.bytes, map-append) refl;
  closed = All-append (IsPart m) h.parts (p.cur ∷ []) h.closed (h.opened, tt);
  opened = next;
  answers_kept = simp (answers_of-append, append-nil, h.answers_kept);
  additionals_kept = simp (additionals_of-append, append-nil, h.additionals_kept);
}

-- The open part takes the record in.
extend :
    (m : Message) (additional : Bool) (r : Record) (xs ys : List Record) (p : Packing)
    → (h : Packed m xs ys p)
    → (count (push additional r p.cur) ≤ 1)
      ⊎ (length (serialize (push additional r p.cur)) ≤ max_packet)
    → Packed m
        (xs ++ (push additional r (base_of m)).answers)
        (ys ++ (push additional r (base_of m)).additionals)
        (record p { cur = push additional r p.cur })
extend m true r xs ys p h fits = record {
  parts = h.parts;
  bytes = h.bytes;
  closed = h.closed;
  opened = record {
    id = h.opened.id;
    flags = h.opened.flags;
    questions = h.opened.questions;
    authorities = h.opened.authorities;
    size = fits;
  };
  answers_kept = simp (h.answers_kept, append-nil);
  additionals_kept = simp (sym h.additionals_kept, append_assoc);
}
extend m false r xs ys p h fits = record {
  parts = h.parts;
  bytes = h.bytes;
  closed = h.closed;
  opened = record {
    id = h.opened.id;
    flags = h.opened.flags;
    questions = h.opened.questions;
    authorities = h.opened.authorities;
    size = fits;
  };
  answers_kept = simp (sym h.answers_kept, append_assoc);
  additionals_kept = simp (h.additionals_kept, append-nil);
}

push-IsPart :
    (m : Message) (additional : Bool) (r : Record) → IsPart m (push additional r (base_of m))
push-IsPart m true r = record {
  id = refl;
  flags = refl;
  questions = refl;
  authorities = refl;
  size = inl (omega arith);
}
push-IsPart m false r = record {
  id = refl;
  flags = refl;
  questions = refl;
  authorities = refl;
  size = inl (omega arith);
}

add-Packed :
    (m : Message) (additional : Bool) (r : Record) (xs ys : List Record) (p : Packing)
    → Packed m xs ys p
    → Packed m
        (xs ++ (push additional r (base_of m)).answers)
        (ys ++ (push additional r (base_of m)).additionals)
        (add (base_of m) additional r p)
unfolding add
add-Packed m additional r xs ys p h = elim (Bool-cases (ltb 1 (count (push additional r p.cur)))) [
  | inr small ↦ rw small (extend m additional r xs ys p h (inl (ground arith)))
  | inl many ↦ elim (Bool-cases (ltb max_packet (length (serialize (push additional r p.cur))))) [
    | inr fits ↦ rw (many, fits) (extend m additional r xs ys p h (inr (ground arith)))
    | inl large ↦
        rw (many, large)
          (close m (push additional r (base_of m)) xs ys p h (push-IsPart m additional r))
  ]
]

add_all-answers :
    (m : Message) (rs xs ys : List Record) (p : Packing)
    → Packed m xs ys p
    → Packed m (xs ++ rs) ys (add_all (base_of m) false rs p)
unfolding add_all
add_all-answers m [] xs ys p h = rw (append-nil xs) h
add_all-answers m (r ∷ rs) xs ys p h = rw (sym (append_assoc xs (r ∷ []) rs)) (
    add_all-answers m rs (xs ++ (r ∷ [])) ys (add (base_of m) false r p)
      (rw (sym (append-nil ys)) (add-Packed m false r xs ys p h)))

add_all-additionals :
    (m : Message) (rs xs ys : List Record) (p : Packing)
    → Packed m xs ys p
    → Packed m xs (ys ++ rs) (add_all (base_of m) true rs p)
unfolding add_all
add_all-additionals m [] xs ys p h = rw (append-nil ys) h
add_all-additionals m (r ∷ rs) xs ys p h = rw (sym (append_assoc ys (r ∷ []) rs)) (
    add_all-additionals m rs xs (ys ++ (r ∷ [])) (add (base_of m) true r p)
      (rw (sym (append-nil xs)) (add-Packed m true r xs ys p h)))

-- What a message is split into: packets that are the serialized parts of it.
abbrev pub Splits : Message → List Bytes → Type 0
Splits m packets =
    (parts : List Message) × (packets ≡ map serialize parts)
    × All (IsPart m) parts
    × (answers_of parts ≡ m.answers)
    × (additionals_of parts ≡ m.additionals)

without : (xs ys zs : List Record) → is_empty ys ≡ true → xs ++ ys ≡ zs → xs ≡ zs
without xs [] zs empty e = sym (append-nil xs) ∙ e
without xs (y ∷ ys) zs empty e = absurd (ground arith)

Packed-closed :
    (m : Message) (p : Packing)
    → Packed m m.answers m.additionals p
    → Splits m (
        if is_empty p.cur.answers && is_empty p.cur.additionals
        then p.packets
        else p.packets ++ (serialize p.cur ∷ []))
Packed-closed m p h = elim (Bool-cases (is_empty p.cur.answers && is_empty p.cur.additionals)) [
  | inl e ↦ rw e (
    h.parts,
    h.bytes,
    h.closed,
    without (answers_of h.parts) p.cur.answers m.answers (ground arith) h.answers_kept,
    without (additionals_of h.parts) p.cur.additionals m.additionals (ground arith)
        h.additionals_kept,
  )
  | inr e ↦ rw e (
    h.parts ++ (p.cur ∷ []),
    rw (h.bytes, map-append) refl,
    All-append (IsPart m) h.parts (p.cur ∷ []) h.closed (h.opened, tt),
    simp (answers_of-append, append-nil, h.answers_kept),
    simp (additionals_of-append, append-nil, h.additionals_kept),
  )
]

-- A message without authorities is split into parts that carry its answers and its additionals, all
-- of them, once and in order; a part has the message's header and questions and at most 1400 bytes,
-- or a single record.
pub to_packets-Splits : (m : Message) → m.authorities ≡ [] → Splits m (to_packets m)
unfolding to_packets
to_packets-Splits m empty = elim (Bool-cases (leb (length (serialize m)) max_packet)) [
  | inl e ↦ rw e (
    m ∷ [],
    refl,
    (
      record {
        id = refl;
        flags = refl;
        questions = refl;
        authorities = refl;
        size = inr (ground arith);
      },
      tt,
    ),
    append-nil m.answers,
    append-nil m.additionals,
  )
  | inr e ↦
      rw (e, ap is_empty empty)
        (Packed-closed m _ (
          add_all-additionals m m.additionals m.answers [] _ (
            add_all-answers m m.answers [] [] _ (record {
              parts = [];
              bytes = refl;
              closed = tt;
              opened = record {
                id = refl;
                flags = refl;
                questions = refl;
                authorities = refl;
                size = inl (omega arith);
              };
              answers_kept = refl;
              additionals_kept = refl;
            }))))
]
