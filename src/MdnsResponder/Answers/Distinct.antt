-- ===== src/MdnsResponder/Answers/Distinct.antt =====
-- No record is sent twice in a response.
use mathlib.Core.List.{append_assoc, append-nil}
use air_show.Prelude.{
  ℕ, ◌≡◌, refl, sym, inl, inr, Bool, true, false, not, ◌&&◌, ◌||◌, List, [], ◌∷◌, ◌++◌, ◌==◌, any,
  arith, Bool-cases,
}
use air_show.Dns.Name.{Name}
use air_show.Dns.Message.{
  type_ptr, Question, Record, Message, type_a, type_nsec, type_srv, type_txt,
}
use air_show.MdnsResponder.Records.{contains_record}
use air_show.MdnsResponder.Answers.{
  response_to, is_of, Found, match_record, match_records, add_nsec, Answering, answer_question,
  answer_questions, answers_to, add_matching, add_services, add_hosts, additionals_for,
}

-- No record is the same as one that has been seen or that stands before it.
abbrev pub no_repeats : List Record → List Record → Bool
no_repeats seen [] = true
no_repeats seen (r ∷ rs) = not (contains_record seen r) && no_repeats (seen ++ (r ∷ [])) rs

no_repeats-snoc :
    (seen xs : List Record) (r : Record)
    → no_repeats seen xs ≡ true
    → contains_record (seen ++ xs) r ≡ false
    → no_repeats seen (xs ++ (r ∷ [])) ≡ true
no_repeats-snoc seen [] r h fresh = ground (arith, append-nil seen)
no_repeats-snoc seen (x ∷ xs) r h fresh =
    ground (arith, no_repeats-snoc (seen ++ (x ∷ [])) xs r, append_assoc seen (x ∷ []) xs)

match_record-no_repeats :
    (q : Message) (question : Question) (r : Record) (f : Found)
    → no_repeats [] f.answers ≡ true
    → no_repeats [] (match_record q question r f).answers ≡ true
unfolding match_record
match_record-no_repeats q question r f h = ground (arith, no_repeats-snoc [] f.answers r)

match_records-no_repeats :
    (q : Message) (question : Question) (rs : List Record) (f : Found)
    → no_repeats [] f.answers ≡ true
    → no_repeats [] (match_records q question rs f).answers ≡ true
unfolding match_records
match_records-no_repeats q question [] f h = h
match_records-no_repeats q question (r ∷ rs) f h =
    match_records-no_repeats q question rs (match_record q question r f)
      (match_record-no_repeats q question r f h)

add_nsec-no_repeats :
    (question : Question) (rs answers : List Record)
    → no_repeats [] answers ≡ true
    → no_repeats [] (add_nsec question rs answers) ≡ true
unfolding add_nsec
add_nsec-no_repeats question [] answers h = h
add_nsec-no_repeats question (r ∷ rs) answers h =
    add_nsec-no_repeats question rs _ (ground (arith, h, no_repeats-snoc [] answers r h))

answer_question-no_repeats :
    (q : Message) (host_name : Name) (records : List Record) (question : Question) (a : Answering)
    → no_repeats [] a.answers ≡ true
    → no_repeats [] (answer_question q host_name records question a).answers ≡ true
unfolding answer_question
answer_question-no_repeats q host_name records question a h = ground (
  arith,
  h,
  match_records-no_repeats q question records
      (record { answers = a.answers; shared = a.shared; name_known = false; type_known = false }) h,
  add_nsec-no_repeats question records
      (match_records q question records (record {
        answers = a.answers;
        shared = a.shared;
        name_known = false;
        type_known = false;
      })).answers,
)

answer_questions-no_repeats :
    (q : Message) (host_name : Name) (records : List Record) (questions : List Question)
    (a : Answering)
    → no_repeats [] a.answers ≡ true
    → no_repeats [] (answer_questions q host_name records questions a).answers ≡ true
unfolding answer_questions
answer_questions-no_repeats q host_name records [] a h = h
answer_questions-no_repeats q host_name records (question ∷ rest) a h =
    answer_questions-no_repeats q host_name records rest
      (answer_question q host_name records question a)
      (answer_question-no_repeats q host_name records question a h)

contains_record-append :
    (xs ys : List Record) (r : Record)
    → contains_record (xs ++ ys) r ≡ (contains_record xs r || contains_record ys r)
unfolding contains_record
contains_record-append [] ys r = refl
contains_record-append (x ∷ xs) ys r = ground (arith, contains_record-append xs ys r)

add_matching-no_repeats :
    (type : ℕ) (name : Name) (answers rs additionals : List Record)
    → no_repeats [] (answers ++ additionals) ≡ true
    → no_repeats [] (answers ++ add_matching type name answers rs additionals) ≡ true
unfolding add_matching
add_matching-no_repeats type name answers [] additionals h = h
add_matching-no_repeats type name answers (r ∷ rs) additionals h =
    add_matching-no_repeats type name answers rs _
      (elim (Bool-cases (
        is_of type name r
        && not (contains_record answers r)
        && not (contains_record additionals r))) [
          | inr e ↦ rw e h
          | inl e ↦ rw e (
              rw (sym (append_assoc answers additionals (r ∷ []))) (
                no_repeats-snoc [] (answers ++ additionals) r h
                  (ground (arith, contains_record-append answers additionals r))))
        ])

add_services-no_repeats :
    (records answers todo : List Record) (done : List Record × List Name)
    → no_repeats [] (answers ++ done.0) ≡ true
    → no_repeats [] (answers ++ (add_services records answers todo done).0) ≡ true
unfolding add_services
add_services-no_repeats records answers [] done h = h
add_services-no_repeats records answers (a ∷ todo) (additionals, hosts) h =
    add_services-no_repeats records answers todo _
      (elim (Bool-cases (a.type == type_ptr && any (is_of type_srv a.target) records)) [
        | inr e ↦ rw e h
        | inl e ↦ rw e (
            add_matching-no_repeats type_txt a.target answers records _
              (add_matching-no_repeats type_srv a.target answers records additionals h))
      ])

add_hosts-no_repeats :
    (records answers : List Record) (hosts : List Name) (additionals : List Record)
    → no_repeats [] (answers ++ additionals) ≡ true
    → no_repeats [] (answers ++ add_hosts records answers hosts additionals) ≡ true
unfolding add_hosts
add_hosts-no_repeats records answers [] additionals h = h
add_hosts-no_repeats records answers (name ∷ hosts) additionals h =
    add_hosts-no_repeats records answers hosts _ (
      add_matching-no_repeats type_nsec name answers records _
        (add_matching-no_repeats type_a name answers records additionals h))

-- No two records of a response, its answers and its additionals taken together, are the same.
pub response_to-no_repeats :
    (q : Message) (host_name : Name) (records : List Record)
    → no_repeats []
        ((response_to q host_name records).answers ++ (response_to q host_name records).additionals)
      ≡ true
unfolding response_to additionals_for answers_to
response_to-no_repeats q host_name records =
    let answers = (answers_to q host_name records).answers in
    add_hosts-no_repeats records answers (add_services records answers answers ([], [])).1 _ (
      add_services-no_repeats records answers answers ([], [])
        (rw (append-nil answers)
          (answer_questions-no_repeats q host_name records q.questions _ refl)))
