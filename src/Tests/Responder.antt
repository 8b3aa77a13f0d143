-- ===== src/Tests/Responder.antt =====
-- The mDNS responder at concrete inputs.
use air_show.Prelude.{
  ltb, ℕ, ◌≡◌, refl, true, false, not, ◌&&◌, List, map, [], ◌∷◌, ◌++◌, some, All, any,
  if◌then◌else◌, suc, Bytes, arith,
}
use air_show.Dns.Name.{Name}
use air_show.Dns.Message.{
  Question, Record, Message, type_ptr, type_srv, type_txt, type_a, type_any, class_in, make_a,
  make_ptr, make_srv, make_txt,
}
use air_show.MdnsResponder.Labels.{default_label}
use air_show.MdnsResponder.Packets.{to_packets}
use air_show.MdnsResponder.Packets.Sizes.{Splits, to_packets-Splits}
use air_show.MdnsResponder.Compare.{compare_record_sets}
use air_show.MdnsResponder.Compare.Antisymmetry.{opposite, compare_record_sets-opposite}
use air_show.MdnsResponder.State.{Service, new_group, HostAddress, Datagram, Core}
use air_show.MdnsResponder.Records.{response, empty_message}
use air_show.MdnsResponder.Probing.{is_probing, begin_probing, probe_tick}
use air_show.MdnsResponder.Probing.Progress.{ticks, ticks_at, has_from, ticks-announced, ticks-wait}
use air_show.MdnsResponder.Probing.Order.{IsSilent}
use air_show.MdnsResponder.Machine.Order.{run-silent}
use air_show.MdnsResponder.Services.{add_service}
use air_show.MdnsResponder.Interfaces.{NetworkInterface, is_own_address}
use air_show.MdnsResponder.Conflicts.{handle_response}
use air_show.MdnsResponder.Conflicts.Response.{takes_name, handle_response-host}
use air_show.MdnsResponder.Answers.{answers_to, response_to}
use air_show.MdnsResponder.Answers.Sound.{IsAnswer, answers_to-All}
use air_show.MdnsResponder.Answers.Distinct.{no_repeats, response_to-no_repeats}
use air_show.MdnsResponder.Machine.{
  created, start, Event, ticked, received, advertised, stopped, timed_out, run, apply,
}
use air_show.MdnsResponder.Machine.Invariant.{WellFormed}
use air_show.MdnsResponder.Machine.Preserved.{start-run-WellFormed}

abbrev lan : NetworkInterface
lan = record {
  is_up = true;
  is_running = true;
  can_multicast = true;
  is_loop_back = false;
  index = 2;
  address_entries = (true, record { ip = 3232235786; prefix_length = 24 }) ∷ [];
}

abbrev peer : HostAddress
peer = record {
  to_ipv4_address = some 3232235800;
  is_null = false;
  is_multicast = false;
  is_in_subnet = λ ip prefix. true;
}

abbrev from_peer : Datagram
from_peer = record { sender = peer; sender_port = 5353; destination = peer; interface_index = 2 }

-- "_airplay._tcp".
abbrev airplay : Bytes
airplay =
    b'_' ∷ b'a' ∷ b'i' ∷ b'r' ∷ b'p' ∷ b'l' ∷ b'a' ∷ b'y' ∷ 46 ∷ b'_' ∷ b't' ∷ b'c' ∷ b'p' ∷ []

abbrev events : List Event
events =
    advertised airplay (b'T' ∷ b'V' ∷ []) 7000 [] 10 50
    ∷ ticked 100
    ∷ ticked 400
    ∷ ticked 700
    ∷ ticked 1000
    ∷ timed_out 0
    ∷ received 1100 (1, 2) (0 ∷ 0 ∷ []) from_peer
    ∷ stopped
    ∷ []

WellFormed-run : WellFormed (run events (start true (lan ∷ []) 0 20 (created 5353 default_label)).1)
WellFormed-run = start-run-WellFormed 5353 default_label true (lan ∷ []) 0 20 events

abbrev announcing : List Event
announcing = ticked 100 ∷ ticked 400 ∷ ticked 700 ∷ ticked 1000 ∷ []

abbrev host_name : Name
host_name = default_label ∷ (b'l' ∷ b'o' ∷ b'c' ∷ b'a' ∷ b'l' ∷ []) ∷ []

abbrev ours : List Record
ours = make_a host_name 3232235786 120 ∷ make_ptr host_name (default_label ∷ host_name) 4500 ∷ []

abbrev theirs : List Record
theirs = make_a host_name 3232235800 120 ∷ []

abbrev query : Message
query = record empty_message {
  questions =
      record { name = host_name; type = type_any; rrclass = class_in; unicast_response = false }
      ∷ [];
  answers = make_ptr host_name (default_label ∷ host_name) 4500 ∷ [];
}

abbrev IsTimed : Record → Type 0
IsTimed r = ltb 0 r.ttl ≡ true

answers_to-All_example :
    All (λ r. IsTimed r × IsAnswer query r) (answers_to query host_name ours).answers
unfolding make_a make_ptr
answers_to-All_example = answers_to-All query host_name IsTimed ours (refl, (refl, tt))

answered : (answers_to query host_name ours).answers ≡ make_a host_name 3232235786 120 ∷ []
unfolding answers_to make_a make_ptr air_show.Dns.Wire.lower air_show.Dns.Message.canonical_rdata
answered = refl

response_to-no_repeats_example :
    no_repeats []
      ((response_to query host_name ours).answers ++ (response_to query host_name ours).additionals)
    ≡ true
response_to-no_repeats_example = response_to-no_repeats query host_name ours

to_packets-Splits_example :
    Splits (record response { answers = ours }) (to_packets (record response { answers = ours }))
to_packets-Splits_example = to_packets-Splits (record response { answers = ours }) refl

compare_record_sets-opposite_example :
    compare_record_sets theirs ours ≡ opposite (compare_record_sets ours theirs)
compare_record_sets-opposite_example = compare_record_sets-opposite ours theirs

abbrev probing : Core
probing = record (created 5353 default_label) { host = begin_probing 0 100 new_group }

ticks-announced_example : (ticks 39 0 probing).host.announced ≡ true
ticks-announced_example = ticks-announced 39 0 0 100 probing refl (omega arith) (omega arith)

abbrev times : List ℕ
times = 50 ∷ 100 ∷ 360 ∷ 620 ∷ 900 ∷ []

announced_then : (ticks_at times probing).host.announced ≡ true
unfolding probe_tick begin_probing
announced_then = refl

ticks-wait_example : has_from 850 times ≡ true
ticks-wait_example = ticks-wait times 0 100 new_group probing refl announced_then

abbrev serving : Core
serving = add_service airplay (b'T' ∷ b'V' ∷ []) 7000 [] 0 0 probing

abbrev announce : Service → Service
announce s = record s { group = record s.group { announced = true } }

-- The host name is probed for anew while a service is announced, as behind a conflict.
abbrev contested : Core
contested = record probing {
  services = map announce serving.services;
  next_id = 2;
  probe_timer = true;
}

abbrev early : List Event
early =
    ticked 50 ∷ advertised airplay (b'T' ∷ b'V' ∷ []) 7001 [] 60 0 ∷ ticked 100 ∷ ticked 360 ∷ []

run-silent_example : All (IsSilent 2) (run early contested).services
unfolding apply add_service
run-silent_example = run-silent 2 early contested (refl, tt) (refl, (refl, (refl, (refl, tt))))

announced_throughout : map is_probing (run early contested).services ≡ false ∷ true ∷ []
unfolding apply add_service
announced_throughout = refl

abbrev claim : Message
claim = record response { answers = theirs }

handle_response-host_example :
    ((handle_response 500 claim from_peer probing).host ≡ (
      if not (is_own_address peer probing) && any (takes_name probing) (theirs ++ [])
      then begin_probing 500 0 probing.host
      else probing.host))
    × ((handle_response 500 claim from_peer probing).host_suffix ≡ (
        if not (is_own_address peer probing)
          && any (takes_name probing) (theirs ++ [])
          && not probing.host.announced
        then suc probing.host_suffix
        else probing.host_suffix))
handle_response-host_example = handle_response-host 500 claim from_peer probing

renamed_host : (handle_response 500 claim from_peer probing).host_suffix ≡ 2
unfolding handle_response make_a air_show.Dns.Wire.lower
renamed_host = refl
