-- ===== src/MdnsResponder/Answers.antt =====
-- Answers to a query: `handleQuery` and `addAdditionals` of src/discovery/MdnsResponder.cpp.
pub mod Sound
pub mod Distinct
use air_show.Prelude.{
  ℕ, ◌+◌, ◌/◌, ◌%◌, min, Bool, true, false, not, ◌&&◌, ◌||◌, List, [], ◌∷◌, ◌++◌, map, Option, none,
  some, if◌then◌else◌, leb, ◌==◌, any, is_empty,
}
use air_show.Dns.Name.{Name, same_name}
use air_show.Dns.Message.{
  Question, Record, Message, type_a, type_ptr, type_srv, type_txt, type_nsec, type_any, class_in,
  class_any, same_as,
}
use air_show.MdnsResponder.State.{host, Datagram, Iface, Core, send_to, single_shot, reply}
use air_show.MdnsResponder.Records.{
  is_unique, contains_record, host_fqdn, current_records, legacy_ttl, response,
}
use air_show.MdnsResponder.Interfaces.{iface_for, is_own_address}
use air_show.MdnsResponder.Conflicts.{resolve_simultaneous_probe}

-- `isKnownAnswer`, of the answers of the query.
unfoldable pub is_known_answer : List Record → Record → Bool
unfolding same_as
is_known_answer known r = any (λ k. same_as k r && leb (r.ttl / 2) k.ttl) known

-- What the two loops over the questions and the records change.
pub record Found : Type 0 where
  pub answers : List Record
  pub shared : Bool
  pub name_known : Bool
  pub type_known : Bool

unfoldable pub match_record : Message → Question → Record → Found → Found
unfolding same_name is_known_answer contains_record is_unique
match_record q question r f =
    if not (same_name r.name question.name)
    then f
    else if not (question.type == r.type) && not (question.type == type_any)
    then record f { name_known = true }
    else if is_known_answer q.answers r || contains_record f.answers r
    then record f { name_known = true; type_known = true }
    else record {
      answers = f.answers ++ (r ∷ []);
      shared = f.shared || not (is_unique r);
      name_known = true;
      type_known = true;
    }

unfoldable pub match_records : Message → Question → List Record → Found → Found
unfolding match_record
match_records q question [] f = f
match_records q question (r ∷ rs) f = match_records q question rs (match_record q question r f)

-- The loop that answers with the NSEC.
unfoldable pub add_nsec : Question → List Record → List Record → List Record
unfolding same_name contains_record
add_nsec question [] answers = answers
add_nsec question (r ∷ rs) answers = add_nsec question rs (
    if r.type == type_nsec && same_name r.name question.name && not (contains_record answers r)
    then answers ++ (r ∷ [])
    else answers)

-- `resp.answers`, `allUnicast` and `shared`.
pub record Answering : Type 0 where
  pub answers : List Record
  pub all_unicast : Bool
  pub shared : Bool

unfoldable pub answer_question : Message → Name → List Record → Question → Answering → Answering
unfolding match_records add_nsec same_name
answer_question q host_name records question a =
    let all_unicast = a.all_unicast && question.unicast_response in
    let f =
      match_records q question records (record {
        answers = a.answers;
        shared = a.shared;
        name_known = false;
        type_known = false;
      }) in
    if not (question.rrclass == class_in) && not (question.rrclass == class_any)
    then record a { all_unicast = all_unicast }
    else record {
      answers =
          if f.name_known && not f.type_known && same_name question.name host_name
          then add_nsec question records f.answers
          else f.answers;
      all_unicast = all_unicast;
      shared = f.shared;
    }

unfoldable pub answer_questions :
    Message → Name → List Record → List Question → Answering → Answering
unfolding answer_question
answer_questions q host_name records [] a = a
answer_questions q host_name records (question ∷ rest) a =
    answer_questions q host_name records rest (answer_question q host_name records question a)

-- The answers to a query out of the records.
unfoldable pub answers_to : Message → Name → List Record → Answering
unfolding answer_questions
answers_to q host_name records =
    answer_questions q host_name records q.questions
      (record { answers = []; all_unicast = not (is_empty q.questions); shared = false })

-- The test of the lambda `addMatching`.
unfoldable pub is_of : ℕ → Name → Record → Bool
unfolding same_name
is_of type name r = r.type == type && same_name r.name name

-- `addMatching`: the additionals with the records of this type and name.
unfoldable pub add_matching : ℕ → Name → List Record → List Record → List Record → List Record
unfolding is_of contains_record
add_matching type name answers [] additionals = additionals
add_matching type name answers (r ∷ rs) additionals = add_matching type name answers rs (
    if is_of type name r && not (contains_record answers r) && not (contains_record additionals r)
    then additionals ++ (r ∷ [])
    else additionals)

unfoldable pub targets : Name → List Record → List Name
unfolding is_of
targets name [] = []
targets name (r ∷ rs) =
    if is_of type_srv name r then r.target ∷ targets name rs else targets name rs

-- The loop over the answers, with `hosts`.
unfoldable pub add_services :
    (records answers todo : List Record) → List Record × List Name → List Record × List Name
unfolding add_matching targets is_of
add_services records answers [] done = done
add_services records answers (a ∷ todo) (additionals, hosts) =
    let (more, found) =
      if a.type == type_ptr && any (is_of type_srv a.target) records
      then (
        add_matching type_txt a.target answers records
            (add_matching type_srv a.target answers records additionals),
        hosts ++ targets a.target records,
      )
      else (additionals, hosts) in
    add_services records answers todo
      (more, if a.type == type_srv then found ++ (a.target ∷ []) else found)

unfoldable pub add_hosts : (records answers : List Record) → List Name → List Record → List Record
unfolding add_matching
add_hosts records answers [] additionals = additionals
add_hosts records answers (h ∷ hosts) additionals =
    add_hosts records answers hosts
      (add_matching type_nsec h answers records (add_matching type_a h answers records additionals))

-- `addAdditionals`: the additionals for these answers.
unfoldable pub additionals_for : (records answers : List Record) → List Record
unfolding add_services add_hosts
additionals_for records answers =
    let (additionals, hosts) = add_services records answers answers ([], []) in
    add_hosts records answers hosts additionals

-- The records and questions of a legacy reply.
abbrev pub legacy_record : Record → Record
legacy_record r = record r { cache_flush = false; ttl = min r.ttl legacy_ttl }

abbrev pub legacy_question : Question → Question
legacy_question question = record question { unicast_response = false }

unfoldable pub legacy : Message → Message → Message
legacy q resp = record resp {
  id = q.id;
  questions = map legacy_question q.questions;
  answers = map legacy_record resp.answers;
  additionals = map legacy_record resp.additionals;
}

-- The response before it is sent.
unfoldable pub response_to : Message → Name → List Record → Message
unfolding answers_to additionals_for
response_to q host_name records = record response {
  answers = (answers_to q host_name records).answers;
  additionals = additionals_for records (answers_to q host_name records).answers;
}

abbrev pub index_of : Option Iface → Option ℕ
index_of none = none
index_of (some i) = some i.index

-- `q.flags & kFlagTruncated`.
abbrev pub is_truncated : Message → Bool
is_truncated q = q.flags / 512 % 2 == 1

-- What `handleQuery` does with the response, `iface` the interface and `random` the two numbers
-- below 101 that it draws.
unfoldable pub send_response :
    Message → Datagram → (random : ℕ × ℕ) → Option Iface → Answering → Message → Core → Core
unfolding legacy send_to
send_response q dg random iface a resp c =
    let unicast =
      is_empty q.authorities
      && (a.all_unicast || (not dg.destination.is_null && not dg.destination.is_multicast)) in
    let delay = if is_truncated q then 400 + random.1 else if a.shared then 20 + random.0 else 0 in
    if is_empty resp.answers
    then c
    else if not (dg.sender_port == c.own_port)
    then send_to (legacy q resp) (host dg.sender dg.sender_port) c
    else single_shot delay (reply resp dg.sender dg.sender_port unicast (index_of iface)) c

-- `handleQuery` behind the probes.
unfoldable pub answer_query : (random : ℕ × ℕ) → Message → Datagram → Option Iface → Core → Core
unfolding current_records host_fqdn answers_to response_to send_response
answer_query random q dg iface c =
    let records = current_records c iface in
    send_response q dg random iface (answers_to q (host_fqdn c) records)
      (response_to q (host_fqdn c) records) c

unfoldable pub handle_query : ℕ → (random : ℕ × ℕ) → Message → Datagram → Core → Core
unfolding iface_for is_own_address resolve_simultaneous_probe answer_query
handle_query now random q dg c =
    let iface = iface_for dg c in
    answer_query random q dg iface (
      if not (is_empty q.authorities) && not (is_own_address dg.sender c)
      then resolve_simultaneous_probe now q iface c
      else c)
