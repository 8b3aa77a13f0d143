-- ===== src/MdnsResponder/Interfaces.antt =====
-- The network interfaces of the responder: src/discovery/MdnsResponder.cpp.
use air_show.Prelude.{
  ℕ, suc, ◌+◌, ◌*◌, Bool, true, false, not, ◌&&◌, ◌||◌, List, [], ◌∷◌, ◌++◌, map, Option, none,
  some, if◌then◌else◌, ◌==◌, Bytes, any, is_empty, same_bytes,
}
use air_show.Dns.Message.{Record}
use air_show.MdnsResponder.State.{AddressEntry, Iface, HostAddress, Datagram, Core, iface_by_index}
use air_show.MdnsResponder.Probing.{start_host}

-- A `QNetworkInterface`: its flags, its index and its address entries, each with whether it is one of
-- IPv4.
pub record NetworkInterface : Type 0 where
  pub is_up : Bool
  pub is_running : Bool
  pub can_multicast : Bool
  pub is_loop_back : Bool
  pub index : ℕ
  pub address_entries : List (Bool × AddressEntry)

unfoldable pub v4_entries : List (Bool × AddressEntry) → List AddressEntry
v4_entries [] = []
v4_entries ((is_v4, e) ∷ es) = if is_v4 then e ∷ v4_entries es else v4_entries es

-- The first loop of `rescanInterfaces`.
unfoldable pub usable : List NetworkInterface → List Iface
unfolding v4_entries
usable [] = []
usable (net ∷ nets) =
    let rest = usable nets in
    if not net.is_up || not net.is_running || not net.can_multicast || net.is_loop_back
    then rest
    else if is_empty (v4_entries net.address_entries)
    then rest
    else record { index = net.index; v4 = v4_entries net.address_entries } ∷ rest

abbrev pub address : AddressEntry → ℕ
address e = e.ip

unfoldable pub addresses : Iface → List ℕ
addresses i = map address i.v4

-- The second loop: whether anything is new, and the groups to join.
unfoldable pub join_new : List Iface → List Iface → Bool × List ℕ → Bool × List ℕ
unfolding iface_by_index addresses
join_new old [] (changed, joined) = (changed, joined)
join_new old (i ∷ is) (changed, joined) = elim (iface_by_index i.index old) [
  | none ↦ join_new old is (true, joined ++ (i.index ∷ []))
  | some o ↦ join_new old is (changed || not (same_bytes (addresses o) (addresses i)), joined)
]

abbrev pub has_index : ℕ → Iface → Bool
has_index index i = i.index == index

unfoldable pub leave : ℕ → List ℕ → List ℕ
leave index [] = []
leave index (j ∷ joined) = if j == index then joined else j ∷ leave index joined

-- The third loop, over the interfaces known before.
unfoldable pub leave_gone : List Iface → List Iface → Bool × List ℕ → Bool × List ℕ
unfolding leave
leave_gone found [] (changed, joined) = (changed, joined)
leave_gone found (o ∷ old) (changed, joined) =
    if any (has_index o.index) found
    then leave_gone found old (changed, joined)
    else leave_gone found old (true, leave o.index joined)

-- The last loop.
unfoldable pub all_addresses : List Iface → List ℕ
unfolding addresses
all_addresses [] = []
all_addresses (i ∷ is) = addresses i ++ all_addresses is

-- The end of `rescanInterfaces`.
unfoldable pub adopt : Bool → List Iface → List ℕ → Core → Core
unfolding all_addresses start_host
adopt changed found joined c =
    let updated = record c {
      ifaces = found;
      own_addresses = all_addresses found;
      joined = joined;
    } in
    if changed && c.host.announced
    then start_host (record updated { host = record c.host { generation = suc c.host.generation } })
    else updated

unfoldable pub rescan_interfaces : List NetworkInterface → Core → Core
unfolding usable join_new leave_gone adopt
rescan_interfaces all c =
    let found = usable all in
    let (changed, joined) = leave_gone found c.ifaces (join_new c.ifaces found (false, c.joined)) in
    adopt changed found joined c

unfoldable pub entry_holds : HostAddress → List AddressEntry → Bool
entry_holds sender [] = false
entry_holds sender (e ∷ es) = sender.is_in_subnet e.ip e.prefix_length || entry_holds sender es

unfoldable pub iface_of_subnet : HostAddress → List Iface → Option Iface
unfolding entry_holds
iface_of_subnet sender [] = none
iface_of_subnet sender (i ∷ is) =
    if entry_holds sender i.v4 then some i else iface_of_subnet sender is

unfoldable pub iface_for : Datagram → Core → Option Iface
unfolding iface_by_index iface_of_subnet
iface_for dg c =
    elim (if dg.interface_index == 0 then none else iface_by_index dg.interface_index c.ifaces) [
      | some i ↦ some i
      | none ↦ iface_of_subnet dg.sender c.ifaces
    ]

abbrev pub contains_address : List ℕ → ℕ → Bool
contains_address own a = any (λ x. x == a) own

unfoldable pub is_own_address : HostAddress → Core → Bool
is_own_address a c = elim a.to_ipv4_address [
  | none ↦ false
  | some v4 ↦ contains_address c.own_addresses v4
]

-- `isOwnARecord`, on the bytes of the record.
unfoldable pub is_own_a : Bytes → List ℕ → Bool
is_own_a (a ∷ b ∷ c ∷ d ∷ []) own = contains_address own (a * 16777216 + b * 65536 + c * 256 + d)
is_own_a [] own = false
is_own_a (a ∷ []) own = false
is_own_a (a ∷ b ∷ []) own = false
is_own_a (a ∷ b ∷ c ∷ []) own = false
is_own_a (a ∷ b ∷ c ∷ d ∷ e ∷ es) own = false

unfoldable pub is_own_a_record : Record → Core → Bool
unfolding is_own_a
is_own_a_record r c = is_own_a r.rdata c.own_addresses
