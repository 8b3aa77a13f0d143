-- ===== src/MdnsResponder/Answers/Sound.antt =====
-- Which records a query is answered with.
use air_show.Prelude.{
  ◌≡◌, ◌⊎◌, inl, inr, Bool, true, false, not, ◌&&◌, ◌||◌, List, [], ◌∷◌, ◌++◌, if◌then◌else◌, ◌==◌,
  any, All, All-append, arith, Bool-cases,
}
use air_show.Dns.Name.{Name, same_name}
use air_show.Dns.Message.{Question, Record, Message, type_nsec, type_any, class_in, class_any}
use air_show.MdnsResponder.Records.{contains_record}
use air_show.MdnsResponder.Answers.{
  is_known_answer, Found, match_record, match_records, add_nsec, Answering, answer_question,
  answer_questions, answers_to,
}

-- The question is of the record's name, of the Internet's class or of any.
abbrev pub names : Record → Question → Bool
names r question =
    (question.rrclass == class_in || question.rrclass == class_any)
    && same_name r.name question.name

abbrev pub asks : Record → Question → Bool
asks r question = names r question && (question.type == r.type || question.type == type_any)

-- An answer: asked for and not known to the querier, or an NSEC record of a name asked for.
abbrev pub IsAnswer : Message → Record → Type 0
IsAnswer q r =
    ((any (asks r) q.questions ≡ true) × (is_known_answer q.answers r ≡ false))
    ⊎ ((any (names r) q.questions ≡ true) × (r.type ≡ type_nsec))

-- The same of one question, which is among those of the query.
abbrev Fits : Message → Question → Record → Type 0
Fits q question r =
    ((asks r question ≡ true) × (is_known_answer q.answers r ≡ false))
    ⊎ ((names r question ≡ true) × (r.type ≡ type_nsec))

-- Where the loop over the records begins.
abbrev started : Answering → Found
started a = record {
  answers = a.answers;
  shared = a.shared;
  name_known = false;
  type_known = false;
}

module _ (q : Message) (question : Question) (Q : Record → Type 0) where
  match_record-All :
      (r : Record) (f : Found)
      → (question.rrclass == class_in || question.rrclass == class_any) ≡ true
      → (Fits q question r → Q r)
      → All Q f.answers
      → All Q (match_record q question r f).answers
  unfolding match_record
  match_record-All r f class fits h = elim (Bool-cases (same_name r.name question.name)) [
    | inr e ↦ rw e h
    | inl e ↦ elim (Bool-cases (question.type == r.type || question.type == type_any)) [
      | inr t ↦ ground (arith, h, e)
      | inl t ↦ elim (Bool-cases (is_known_answer q.answers r || contains_record f.answers r)) [
        | inl k ↦ ground (arith, h, e)
        | inr k ↦ ground (
          arith,
          e,
          All-append Q f.answers (r ∷ []) h (fits (inl (ground arith, ground arith)), tt),
        )
      ]
    ]
  ]

  match_records-All :
      (rs : List Record) (f : Found)
      → (question.rrclass == class_in || question.rrclass == class_any) ≡ true
      → All (λ r. Fits q question r → Q r) rs
      → All Q f.answers
      → All Q (match_records q question rs f).answers
  unfolding match_records
  match_records-All [] f class fits h = h
  match_records-All (r ∷ rs) f class fits h =
      match_records-All rs (match_record q question r f) class fits.1
        (match_record-All r f class fits.0 h)

  add_nsec-All :
      (rs answers : List Record)
      → (question.rrclass == class_in || question.rrclass == class_any) ≡ true
      → All (λ r. Fits q question r → Q r) rs
      → All Q answers
      → All Q (add_nsec question rs answers)
  unfolding add_nsec
  add_nsec-All [] answers class fits h = h
  add_nsec-All (r ∷ rs) answers class fits h =
      elim (Bool-cases (
        r.type == type_nsec && same_name r.name question.name && not (contains_record answers r))) [
          | inl e ↦ rw e (
              add_nsec-All rs (answers ++ (r ∷ [])) class fits.1
                (All-append Q answers (r ∷ []) h (fits.0 (inr (ground arith, ground arith)), tt)))
          | inr e ↦ rw e (add_nsec-All rs answers class fits.1 h)
        ]

  All-either : (xs ys : List Record) (b : Bool) → All Q xs → All Q ys → All Q (if b then ys else xs)
  All-either xs ys true h k = k
  All-either xs ys false h k = h

  answer_question-All :
      (host_name : Name) (records : List Record) (a : Answering)
      → All (λ r. Fits q question r → Q r) records
      → All Q a.answers
      → All Q (answer_question q host_name records question a).answers
  unfolding answer_question
  answer_question-All host_name records a fits h =
      elim (Bool-cases (question.rrclass == class_in || question.rrclass == class_any)) [
        | inr e ↦ ground (arith, h)
        | inl e ↦
            let f = started a in
            let h' = match_records-All records f e fits h in
            ground (
              arith,
              All-either (match_records q question records f).answers
                  (add_nsec question records (match_records q question records f).answers)
                  ((match_records q question records f).name_known
                    && not (match_records q question records f).type_known
                    && same_name question.name host_name)
                  h' (add_nsec-All records _ e fits h'),
            )
      ]

module _ (q : Message) (host_name : Name) (P : Record → Type 0) where
  fitting :
      (question : Question) (records : List Record)
      → ((r : Record) → asks r question ≡ true → any (asks r) q.questions ≡ true)
      → ((r : Record) → names r question ≡ true → any (names r) q.questions ≡ true)
      → All P records
      → All (λ r. Fits q question r → P r × IsAnswer q r) records
  fitting question [] asked named h = tt
  fitting question (r ∷ records) asked named h = (
    λ fits. (h.0, elim fits [ inl (a, k) ↦ inl (asked r a, k) | inr (n, t) ↦ inr (named r n, t) ]),
    fitting question records asked named h.1,
  )

  answer_questions-All :
      (records : List Record) (questions : List Question) (a : Answering)
      → ((r : Record) → any (asks r) questions ≡ true → any (asks r) q.questions ≡ true)
      → ((r : Record) → any (names r) questions ≡ true → any (names r) q.questions ≡ true)
      → All P records
      → All (λ r. P r × IsAnswer q r) a.answers
      → All (λ r. P r × IsAnswer q r) (answer_questions q host_name records questions a).answers
  unfolding answer_questions
  answer_questions-All records [] a asked named h k = k
  answer_questions-All records (question ∷ rest) a asked named h k =
      answer_questions-All records rest (answer_question q host_name records question a)
        (λ r e. asked r (ground arith)) (λ r e. named r (ground arith)) h
        (answer_question-All q question (λ r. P r × IsAnswer q r) host_name records a
          (fitting question records (λ r e. asked r (ground arith)) (λ r e. named r (ground arith))
            h)
          k)

  -- Every answer is one of the records the responder has, so that it has every property that they
  -- all have; a question of the query is of its name, and either of its type, and then the querier
  -- has not listed it as known, or it is an NSEC record.
  pub answers_to-All :
      (records : List Record)
      → All P records
      → All (λ r. P r × IsAnswer q r) (answers_to q host_name records).answers
  unfolding answers_to
  answers_to-All records h = answer_questions-All records q.questions _ (λ r e. e) (λ r e. e) h tt
