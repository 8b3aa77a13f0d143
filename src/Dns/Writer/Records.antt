-- ===== src/Dns/Writer/Records.antt =====
-- Names, questions and records are read back from what `Writer` makes of them.
use air_show.Prelude.{
  le→leb, ℕ, ◌+◌, ◌%◌, ◌≤◌, ◌<◌, ◌≡◌, refl, ap, ◌∙◌, Bool, true, false, [], ◌∷◌, ◌++◌, Bytes,
  length, arith, length-append,
}
use mathlib.Core.List.{append_assoc}
use air_show.Dns.Wire.{be16, put16}
use air_show.Dns.Wire.At.{At-behind16, At, At-last, At-more, At-left, At-le, At-be16, length-put16}
use air_show.Dns.Name.{Name, ok, read_name, same_name}
use air_show.Dns.Name.Fold.{same_name-fold, length-eq_of_fold, wire_size-eq_of_fold}
use air_show.Dns.Name.Decode.{Decodes-more, read_name-Decodes}
use air_show.Dns.Message.{Question}
use air_show.Dns.Reader.{read_question, top_bit}
use air_show.Dns.Writer.{Offsets, Writer, append, write_name, write_question, with_top_bit}
use air_show.Dns.Writer.Keys.{IsName}
use air_show.Dns.Writer.Names.{write_name-eq, emit, emit-Written, Written, IsTable, IsTable-more}
use air_show.Dns.Writer.Items.{HasTable, Item}

abbrev pub SameName : Name → Name → Type 0
SameName a b = same_name a b ≡ true

pub IsTable-append :
    (bytes : Bytes) (a b : Offsets) → IsTable bytes a → IsTable bytes b → IsTable bytes (a ++ b)
IsTable-append bytes [] b ha hb = hb
IsTable-append bytes (e ∷ a) b ha hb = (ha.0, IsTable-append bytes a b ha.1 hb)

-- The writer behind a name.
abbrev pub named : Writer → Name → Writer
named w n = record {
  out = w.out ++ (emit w.offsets (length w.out) n).0;
  offsets = (emit w.offsets (length w.out) n).1 ++ w.offsets;
}

pub named-Item :
    (w : Writer) (n : Name) → HasTable w → IsName n → Item SameName read_name w n (named w n)
named-Item w n t g =
    let chunk = (emit w.offsets (length w.out) n).0 in
    let news = (emit w.offsets (length w.out) n).1 in
    let d : Written w.out n chunk news = emit-Written n w.out w.offsets g.labels t in
    record {
      chunk = chunk;
      grows = refl;
      table =
          IsTable-append (w.out ++ chunk) news w.offsets d.entries
            (IsTable-more w.out chunk w.offsets t);
      value = d.found;
      same = (same_name-fold n d.found).1 d.folds;
      reads = λ rest.
          read_name-Decodes (Decodes-more rest d.decodes)
            (omega (arith, g.few, length-eq_of_fold n d.found d.folds))
            (omega (arith, g.few, d.few))
            (omega (arith, g.size, wire_size-eq_of_fold n d.found d.folds))
          ∙ rw (length-append w.out chunk) refl;
    }

-- A written name is read back, up to letter case.
pub write_name-Item :
    (w : Writer) (n : Name) → HasTable w → IsName n → Item SameName read_name w n (write_name w n)
write_name-Item w n t g = rw (write_name-eq w n g) (named-Item w n t g)

-- Appending bytes that are no name keeps the map right.
pub append-HasTable : (w : Writer) (bytes : Bytes) → HasTable w → HasTable (append w bytes)
append-HasTable w bytes t = IsTable-more w.out bytes w.offsets t

abbrev pub IsQuestion : Question → Type 0
IsQuestion q = IsName q.name × (q.type < 65536) × (q.rrclass < 32768)

-- Equal but for the letter case of the name.
pub record SameQuestion (a b : Question) : Type 0 where
  pub name : SameName a.name b.name
  pub type : a.type ≡ b.type
  pub rrclass : a.rrclass ≡ b.rrclass
  pub unicast_response : a.unicast_response ≡ b.unicast_response

pub with_top_bit_lt : (w : ℕ) (flag : Bool) → w < 32768 → with_top_bit w flag < 65536
with_top_bit_lt w true h = omega arith
with_top_bit_lt w false h = omega arith

pub with_top_bit-split :
    (w : ℕ) (flag : Bool)
    → w < 32768
    → (with_top_bit w flag % 32768 ≡ w) × (top_bit (with_top_bit w flag) ≡ flag)
with_top_bit-split w true h = ground arith
with_top_bit-split w false h = ground arith

pub write_question-Item :
    (w : Writer) (q : Question)
    → HasTable w
    → IsQuestion q
    → Item SameQuestion read_question w q (write_question w q)
unfolding write_question read_question
write_question-Item w q t g =
    let i = write_name-Item w q.name t g.0 in
    let w1 = write_name w q.name in
    let class = with_top_bit q.rrclass q.unicast_response in
    let fixed = put16 q.type ++ put16 class in
    record {
      chunk = i.chunk ++ fixed;
      grows = rw i.grows (append_assoc w.out i.chunk fixed);
      table = append-HasTable w1 fixed i.table;
      value = record {
        name = i.value;
        type = q.type;
        rrclass = q.rrclass;
        unicast_response = q.unicast_response;
      };
      same = record { name = i.same; type = refl; rrclass = refl; unicast_response = refl };
      reads = λ rest.
          let bytes = (w1.out ++ fixed) ++ rest in
          let h = length w1.out in
          let here : At bytes h fixed = At-more rest (At-last w1.out fixed) in
          let type_is : be16 bytes h ≡ q.type =
            At-be16 q.type g.1 (At-left (put16 q.type) (put16 class) here) in
          let class_is : be16 bytes (h + 2) ≡ class =
            At-be16 class (with_top_bit_lt q.rrclass q.unicast_response g.2)
              (At-behind16 q.type (put16 class) here) in
          let name_is : read_name bytes (length w.out) ≡ ok (i.value, h) =
            ap (λ b. read_name b (length w.out)) (append_assoc w1.out fixed rest)
            ∙ i.reads (fixed ++ rest) in
          let room : h + 4 ≤ length bytes = omega (
            arith,
            At-le fixed here,
            length-append (put16 q.type) (put16 class),
            length-put16 q.type,
            length-put16 class,
          ) in
          rw (name_is, le→leb (h + 4) (length bytes) room, type_is, class_is)
            (ground (
              arith,
              with_top_bit-split q.rrclass q.unicast_response g.2,
              length-append w1.out fixed,
              length-append (put16 q.type) (put16 class),
              length-put16 q.type,
              length-put16 class,
            ));
    }
