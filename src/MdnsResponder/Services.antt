-- ===== src/MdnsResponder/Services.antt =====
-- The services of the responder: `addService`, `renameAll`, `updateTxt` and `shutdown` of
-- src/discovery/MdnsResponder.cpp, and what `MdnsResponder` passes on to them. A delay that the code
-- draws for a service is a function of the service's number.
use air_show.Prelude.{
  ℕ, suc, true, not, ◌||◌, List, [], ◌∷◌, ◌++◌, map, if◌then◌else◌, Bytes, is_empty, same_bytes,
}
use air_show.Dns.Name.{to_string}
use air_show.Dns.Message.{Message, Record}
use air_show.MdnsResponder.State.{
  Iface, TxtRecord, new_group, Service, Core, multicast_all, set_service,
}
use air_show.MdnsResponder.Records.{instance_ptr, srv, txt, response, host_fqdn, instance_label}
use air_show.MdnsResponder.Probing.{begin_probing, start_service}

unfoldable pub add_service : Bytes → Bytes → ℕ → List TxtRecord → (now delay : ℕ) → Core → Core
unfolding begin_probing
add_service type name port entries now delay c = record c {
  services =
      c.services
      ++ (record {
        id = c.next_id;
        type = type;
        base_name = name;
        suffix = 1;
        port = port;
        txt = entries;
        group = begin_probing now delay new_group;
      }
          ∷ []);
  next_id = suc c.next_id;
  probe_timer = true;
}

-- `r.ttl = 0`.
abbrev pub expired : Record → Record
expired r = record r { ttl = 0 }

-- The message of `sendGoodbye`, the same for every interface.
unfoldable pub goodbye : Core → Service → Iface → Message
unfolding instance_ptr srv txt
goodbye c s i = record response { answers = map expired (instance_ptr s ∷ srv c s ∷ txt s ∷ []) }

unfoldable pub send_goodbye : Service → Core → Core
unfolding multicast_all goodbye
send_goodbye s c = multicast_all (goodbye c s) c.ifaces c

-- The goodbyes of a loop over the services. They change no service.
unfoldable pub goodbyes : List Service → Core → Core
unfolding send_goodbye
goodbyes [] c = c
goodbyes (s ∷ ss) c = goodbyes ss (if s.group.announced then send_goodbye s c else c)

abbrev pub with_name : Bytes → ℕ → (ℕ → ℕ) → Service → Service
with_name name now delay s = record s {
  base_name = name;
  suffix = 1;
  group = begin_probing now (delay s.id) s.group;
}

unfoldable pub rename_all : Bytes → (now : ℕ) → (delay : ℕ → ℕ) → Core → Core
unfolding goodbyes begin_probing
rename_all name now delay c = record (goodbyes c.services c) {
  services = map (with_name name now delay) c.services;
  probe_timer = c.probe_timer || not (is_empty c.services);
}

-- The `find_if` over the TXT records, and the push where there is none.
unfoldable pub set_txt : Bytes → Bytes → List TxtRecord → List TxtRecord
set_txt key value [] = record { key = key; value = value } ∷ []
set_txt key value (r ∷ rs) =
    if same_bytes r.key key then record r { value = value } ∷ rs else r ∷ set_txt key value rs

unfoldable pub update_service : Bytes → Bytes → Service → Core → Core
unfolding set_txt set_service start_service
update_service key value s c =
    let updated = record s { txt = set_txt key value s.txt } in
    let bumped = record updated {
      group = record s.group { generation = suc s.group.generation };
    } in
    if s.group.announced
    then start_service s.id (record c { services = set_service s.id bumped c.services })
    else record c { services = set_service s.id updated c.services }

unfoldable pub update_services : Bytes → Bytes → Bytes → List Service → Core → Core
unfolding update_service
update_services type key value [] c = c
update_services type key value (s ∷ ss) c =
    update_services type key value ss
      (if same_bytes s.type type then update_service key value s c else c)

unfoldable pub update_txt : Bytes → Bytes → Bytes → Core → Core
unfolding update_services
update_txt type key value c = update_services type key value c.services c

unfoldable pub shutdown : Core → Core
unfolding goodbyes
shutdown c = record (goodbyes c.services c) { services = [] }

unfoldable pub host_name : Core → Bytes
unfolding host_fqdn to_string
host_name c = to_string (host_fqdn c)

unfoldable pub instance_names : Bytes → List Service → List Bytes
unfolding instance_label
instance_names type [] = []
instance_names type (s ∷ ss) =
    if same_bytes s.type type
    then instance_label s ∷ instance_names type ss
    else instance_names type ss
