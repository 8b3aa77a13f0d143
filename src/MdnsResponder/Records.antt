-- ===== src/MdnsResponder/Records.antt =====
-- The names and records of the responder: src/discovery/MdnsResponder.cpp.
use air_show.Prelude.{
  ℕ, Bool, true, false, not, List, [], ◌∷◌, ◌++◌, map, Option, none, some, if◌then◌else◌, ◌==◌,
  Bytes, any,
}
use air_show.Dns.Name.{Name, parse_name}
use air_show.Dns.Message.{
  Record, Message, type_a, type_ptr, make_ptr, make_srv, make_txt, make_a, make_nsec, same_as,
}
use air_show.MdnsResponder.Labels.{suffixed, label_of}
use air_show.MdnsResponder.State.{TxtRecord, Service, AddressEntry, Iface, Core}

-- `kHostTtl`, `kOtherTtl` and `kLegacyTtl`.
abbrev pub host_ttl : ℕ
host_ttl = 120

abbrev pub other_ttl : ℕ
other_ttl = 4500

abbrev pub legacy_ttl : ℕ
legacy_ttl = 10

-- "local".
abbrev pub local : Bytes
local = b'l' ∷ b'o' ∷ b'c' ∷ b'a' ∷ b'l' ∷ []

-- "_services._dns-sd._udp.local".
abbrev pub services_name : Bytes
services_name =
    b'_' ∷ b's' ∷ b'e' ∷ b'r' ∷ b'v' ∷ b'i' ∷ b'c' ∷ b'e' ∷ b's' ∷ b'.' ∷ b'_' ∷ b'd' ∷ b'n' ∷ b's'
    ∷ b'-' ∷ b's' ∷ b'd' ∷ b'.' ∷ b'_' ∷ b'u' ∷ b'd' ∷ b'p' ∷ b'.' ∷ b'l' ∷ b'o' ∷ b'c' ∷ b'a'
    ∷ b'l' ∷ []

unfoldable pub is_unique : Record → Bool
is_unique r = not (r.type == type_ptr)

unfoldable pub contains_record : List Record → Record → Bool
unfolding same_as
contains_record records r = any (λ x. same_as x r) records

unfoldable pub host_fqdn : Core → Name
unfolding suffixed
host_fqdn c = suffixed c.host_label c.host_suffix ∷ local ∷ []

unfoldable pub type_name : Service → Name
unfolding parse_name
type_name s = parse_name s.type ++ (local ∷ [])

unfoldable pub instance_label : Service → Bytes
unfolding label_of
instance_label s = label_of s.base_name s.suffix

unfoldable pub instance_name : Service → Name
unfolding instance_label type_name
instance_name s = instance_label s ∷ type_name s

unfoldable pub enum_ptr : Service → Record
unfolding make_ptr parse_name type_name
enum_ptr s = make_ptr (parse_name services_name) (type_name s) other_ttl

unfoldable pub instance_ptr : Service → Record
unfolding make_ptr type_name instance_name
instance_ptr s = make_ptr (type_name s) (instance_name s) other_ttl

unfoldable pub srv : Core → Service → Record
unfolding make_srv instance_name host_fqdn
srv c s = record (make_srv (instance_name s) s.port (host_fqdn c) host_ttl) { cache_flush = true }

-- `t.key + "=" + t.value`.
abbrev pub txt_entry : TxtRecord → Bytes
txt_entry t = t.key ++ (b'=' ∷ t.value)

unfoldable pub txt : Service → Record
unfolding make_txt instance_name
txt s = record (make_txt (instance_name s) (map txt_entry s.txt) other_ttl) { cache_flush = true }

-- The lambda `addFrom` of `hostRecords`.
unfoldable pub add_from : Core → List AddressEntry → List Record → List Record
unfolding make_a host_fqdn contains_record
add_from c [] out = out
add_from c (e ∷ es) out =
    let a = record (make_a (host_fqdn c) e.ip host_ttl) { cache_flush = true } in
    add_from c es (if contains_record out a then out else out ++ (a ∷ []))

unfoldable pub add_from_all : Core → List Iface → List Record → List Record
unfolding add_from
add_from_all c [] out = out
add_from_all c (i ∷ is) out = add_from_all c is (add_from c i.v4 out)

unfoldable pub host_nsec : Core → Record
unfolding make_nsec host_fqdn
host_nsec c = record (make_nsec (host_fqdn c) (type_a ∷ []) host_ttl) { cache_flush = true }

-- `hostRecords`, of one interface or of all.
unfoldable pub host_records : Core → Option Iface → List Record
unfolding add_from add_from_all host_nsec
host_records c (some iface) = add_from c iface.v4 [] ++ (host_nsec c ∷ [])
host_records c none = add_from_all c c.ifaces [] ++ (host_nsec c ∷ [])

-- The loop of `currentRecords`.
unfoldable pub service_records : Core → List Service → List Record → List Record
unfolding contains_record enum_ptr instance_ptr srv txt
service_records c [] out = out
service_records c (s ∷ ss) out = service_records c ss (
    if s.group.announced
    then (if contains_record out (enum_ptr s) then out else out ++ (enum_ptr s ∷ []))
      ++ (instance_ptr s ∷ srv c s ∷ txt s ∷ [])
    else out)

unfoldable pub current_records : Core → Option Iface → List Record
unfolding host_records service_records
current_records c iface =
    service_records c c.services (if c.host.announced then host_records c iface else [])

-- The loop of `hostProbeRecords`.
unfoldable pub unflushed_a : List Record → List Record
unflushed_a [] = []
unflushed_a (r ∷ rs) =
    if r.type == type_a then record r { cache_flush = false } ∷ unflushed_a rs else unflushed_a rs

unfoldable pub host_probe_records : Core → Option Iface → List Record
unfolding unflushed_a host_records
host_probe_records c iface = unflushed_a (host_records c iface)

unfoldable pub service_probe_records : Core → Service → List Record
unfolding srv txt
service_probe_records c s =
    record (srv c s) { cache_flush = false } ∷ record (txt s) { cache_flush = false } ∷ []

-- `Message m;`.
abbrev pub empty_message : Message
empty_message = record {
  id = 0;
  flags = 0;
  questions = [];
  answers = [];
  authorities = [];
  additionals = [];
}

-- `kFlagResponse | kFlagAuthoritative`.
abbrev pub response : Message
response = record empty_message { flags = 0x8400 }
