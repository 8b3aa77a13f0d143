-- ===== src/Dns/RoundTrip.antt =====
-- `parse` reads back what `serialize` writes, name compression included.
use air_show.Prelude.{
  ℕ, ◌%◌, ◌≤◌, ◌<◌, ◌≡◌, refl, sym, ap, ◌∙◌, List, [], ◌++◌, Bytes, length, All, arith,
  length-append, le→leb,
}
use mathlib.Core.List.{append-nil, append_assoc}
use air_show.Dns.Wire.{be16, put16}
use air_show.Dns.Wire.At.{At, At-last, At-more, At-left, At-behind16, At-be16}
use air_show.Dns.Name.{ok}
use air_show.Dns.Message.{Record, Message}
use air_show.Dns.Reader.{read_question, read_record, read_section, parse}
use air_show.Dns.Writer.{Writer, write_question, write_record, write_all, header, serialize}
use air_show.Dns.Writer.Items.{HasTable, Item, SameAll, write_all-Item}
use air_show.Dns.Writer.Records.{IsQuestion, SameQuestion, write_question-Item}
use air_show.Dns.Writer.Reads.{IsRecord, SameRecord, write_record-Item}

-- A message whose words fit their width and whose names a packet can hold.
pub record IsMessage (m : Message) : Type 0 where
  pub id_fits : m.id < 65536
  pub flags_fit : m.flags < 65536
  pub questions_fit : length m.questions < 65536
  pub answers_fit : length m.answers < 65536
  pub authorities_fit : length m.authorities < 65536
  pub additionals_fit : length m.additionals < 65536
  pub questions : All IsQuestion m.questions
  pub answers : All IsRecord m.answers
  pub authorities : All IsRecord m.authorities
  pub additionals : All IsRecord m.additionals

-- Equal but for the letter case of names.
pub record SameMessage (a b : Message) : Type 0 where
  pub id : a.id ≡ b.id
  pub flags : a.flags ≡ b.flags
  pub questions : SameAll SameQuestion a.questions b.questions
  pub answers : SameAll SameRecord a.answers b.answers
  pub authorities : SameAll SameRecord a.authorities b.authorities
  pub additionals : SameAll SameRecord a.additionals b.additionals

record HeaderRead (bytes : Bytes) (m : Message) : Type 0 where
  id : be16 bytes 0 ≡ m.id
  flags : be16 bytes 2 ≡ m.flags
  questions : be16 bytes 4 ≡ length m.questions
  answers : be16 bytes 6 ≡ length m.answers
  authorities : be16 bytes 8 ≡ length m.authorities
  additionals : be16 bytes 10 ≡ length m.additionals

length-header : (m : Message) → length (header m) ≡ 12
unfolding header put16
length-header m = refl

be16-count :
    {bytes : Bytes} {p : ℕ} (n : ℕ) → n < 65536 → At bytes p (put16 (n % 65536)) → be16 bytes p ≡ n
be16-count n h a = At-be16 (n % 65536) (omega arith) a ∙ omega arith

header_read : (m : Message) (rest : Bytes) → IsMessage m → HeaderRead (header m ++ rest) m
unfolding header
header_read m rest g =
    let a0 = At-more rest (At-last [] (header m)) in
    let a1 = At-behind16 m.id _ a0 in
    let a2 = At-behind16 m.flags _ a1 in
    let a3 = At-behind16 (length m.questions % 65536) _ a2 in
    let a4 = At-behind16 (length m.answers % 65536) _ a3 in
    let a5 = At-behind16 (length m.authorities % 65536) _ a4 in
    record {
      id = At-be16 m.id g.id_fits (At-left _ _ a0);
      flags = At-be16 m.flags g.flags_fit (At-left _ _ a1);
      questions = be16-count (length m.questions) g.questions_fit (At-left _ _ a2);
      answers = be16-count (length m.answers) g.answers_fit (At-left _ _ a3);
      authorities = be16-count (length m.authorities) g.authorities_fit (At-left _ _ a4);
      additionals = be16-count (length m.additionals) g.additionals_fit a5;
    }

-- The writer behind the header and behind each section.
abbrev after_header : Message → Writer
after_header m = record { out = header m; offsets = [] }

abbrev after_questions : Message → Writer
after_questions m = write_all write_question (after_header m) m.questions

abbrev after_answers : Message → Writer
after_answers m = write_all write_record (after_questions m) m.answers

abbrev after_authorities : Message → Writer
after_authorities m = write_all write_record (after_answers m) m.authorities

abbrev after_additionals : Message → Writer
after_additionals m = write_all write_record (after_authorities m) m.additionals

-- The section of records `xs` written by `w`.
records-Item :
    (w : Writer) (xs : List Record)
    → HasTable w
    → All IsRecord xs
    → Item
        (SameAll SameRecord)
        (λ bytes p. read_section read_record bytes (length xs) p)
        w
        xs
        (write_all write_record w xs)
records-Item = write_all-Item SameRecord IsRecord read_record write_record write_record-Item

parse-eq :
    (bytes : Bytes) (m m' : Message) (p q r s : ℕ)
    → HeaderRead bytes m
    → 12 ≤ length bytes
    → m.id ≡ m'.id
    → m.flags ≡ m'.flags
    → read_section read_question bytes (length m.questions) 12 ≡ ok (m'.questions, p)
    → read_section read_record bytes (length m.answers) p ≡ ok (m'.answers, q)
    → read_section read_record bytes (length m.authorities) q ≡ ok (m'.authorities, r)
    → read_section read_record bytes (length m.additionals) r ≡ ok (m'.additionals, s)
    → parse bytes ≡ ok m'
unfolding parse
parse-eq bytes m m' p q r s h room same_id same_flags rq ra rn rx =
    rw (le→leb 12 (length bytes) room) (
      rw (h.questions, h.answers, h.authorities, h.additionals, h.id, h.flags)
        (rw rq (rw ra (rw rn (rw rx (rw (same_id, same_flags) refl))))))

-- `parse` accepts what `serialize` writes for such a message, and gives the message back: the header
-- words, the sections in their order, and every field of every record. Names come back equal up to
-- letter case, since a compression pointer may lead to another spelling.
pub parse-serialize :
    (m : Message) → IsMessage m → (m' : Message) × (parse (serialize m) ≡ ok m') × SameMessage m m'
unfolding serialize
parse-serialize m g =
    let q =
      write_all-Item SameQuestion IsQuestion read_question write_question write_question-Item
        (after_header m) m.questions tt g.questions in
    let a = records-Item (after_questions m) m.answers q.table g.answers in
    let n = records-Item (after_answers m) m.authorities a.table g.authorities in
    let x = records-Item (after_authorities m) m.additionals n.table g.additionals in
    let out = (after_additionals m).out in
    let e3 : out ≡ (after_authorities m).out ++ x.chunk = x.grows in
    let e2 : out ≡ (after_answers m).out ++ (n.chunk ++ x.chunk) =
      e3 ∙ ap (λ b. b ++ x.chunk) n.grows ∙ append_assoc _ n.chunk x.chunk in
    let e1 : out ≡ (after_questions m).out ++ (a.chunk ++ (n.chunk ++ x.chunk)) =
      e2
      ∙ ap (λ b. b ++ (n.chunk ++ x.chunk)) a.grows
      ∙ append_assoc _ a.chunk (n.chunk ++ x.chunk) in
    let e0 : out ≡ header m ++ (q.chunk ++ (a.chunk ++ (n.chunk ++ x.chunk))) =
      e1
      ∙ ap (λ b. b ++ (a.chunk ++ (n.chunk ++ x.chunk))) q.grows
      ∙ append_assoc _ q.chunk (a.chunk ++ (n.chunk ++ x.chunk)) in
    let h : HeaderRead out m = rw e0 (header_read m _ g) in
    let m' : Message = record {
      id = m.id;
      flags = m.flags;
      questions = q.value;
      answers = a.value;
      authorities = n.value;
      additionals = x.value;
    } in
    let rq =
      ap (λ b. read_section read_question b (length m.questions) 12) e1
      ∙ rw (length-header m) at (q.reads (a.chunk ++ (n.chunk ++ x.chunk))) in
    let ra =
      ap (λ b. read_section read_record b (length m.answers) (length (after_questions m).out)) e2
      ∙ a.reads (n.chunk ++ x.chunk) in
    let rn =
      ap (λ b. read_section read_record b (length m.authorities) (length (after_answers m).out)) e3
      ∙ n.reads x.chunk in
    let rx =
      ap (λ b. read_section read_record b (length m.additionals) (length (after_authorities m).out))
        (sym (append-nil out))
      ∙ x.reads [] in
    let room : 12 ≤ length out = omega (
      arith,
      ap length e0,
      length-header m,
      length-append (header m) (q.chunk ++ (a.chunk ++ (n.chunk ++ x.chunk))),
    ) in
    (
      m',
      parse-eq out m m' _ _ _ _ h room refl refl rq ra rn rx,
      record {
        id = refl;
        flags = refl;
        questions = q.same;
        answers = a.same;
        authorities = n.same;
        additionals = x.same;
      },
    )
