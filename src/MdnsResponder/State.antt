-- ===== src/MdnsResponder/State.antt =====
-- The state of `MdnsResponderCore` and what it asks of the socket and of the event loop:
-- src/discovery/MdnsResponder.cpp. The socket's output and the single-shot timers are part of the
-- state, as lists of what has been handed to Qt, oldest first.
use air_show.Prelude.{
  ℕ, Bool, false, List, [], ◌∷◌, ◌++◌, Option, none, some, if◌then◌else◌, ◌==◌, Bytes,
}
use air_show.Dns.Message.{Message}
use air_show.MdnsResponder.Packets.{to_packets}

pub record TxtRecord : Type 0 where
  pub key : Bytes
  pub value : Bytes

pub record Group : Type 0 where
  pub probes_sent : ℕ
  pub announced : Bool
  pub next_probe_at : ℕ
  pub generation : ℕ

-- `Group` as a declaration leaves it.
abbrev pub new_group : Group
new_group = record { probes_sent = 0; announced = false; next_probe_at = 0; generation = 0 }

pub record Service : Type 0 where
  pub id : ℕ
  pub type : Bytes
  pub base_name : Bytes
  pub suffix : ℕ
  pub port : ℕ
  pub txt : List TxtRecord
  pub group : Group

-- A `QNetworkAddressEntry` of protocol IPv4: `ip().toIPv4Address()` and `prefixLength()`.
pub record AddressEntry : Type 0 where
  pub ip : ℕ
  pub prefix_length : ℕ

-- `net.index()` and `v4`.
pub record Iface : Type 0 where
  pub index : ℕ
  pub v4 : List AddressEntry

-- A `QHostAddress`, by what the responder asks it: `toIPv4Address`, `isNull`, `isMulticast` and
-- `isInSubnet`.
pub record HostAddress : Type 0 where
  pub to_ipv4_address : Option ℕ
  pub is_null : Bool
  pub is_multicast : Bool
  pub is_in_subnet : ℕ → ℕ → Bool

-- Where a packet goes: to the mDNS group over an interface, or to one host.
pub data Destination : Type 0 where
  group : Iface → Destination
  host : HostAddress → ℕ → Destination

pub record Sent : Type 0 where
  pub destination : Destination
  pub packet : Bytes

-- What a single-shot timer runs: the lambdas of `announceHost`, `announceService` and `handleQuery`
-- with what they have captured.
pub data Action : Type 0 where
  announce_host : ℕ → Action
  announce_service : ℕ → ℕ → Action
  reply : Message → HostAddress → ℕ → Bool → Option ℕ → Action

pub record Timer : Type 0 where
  pub delay : ℕ
  pub action : Action

-- A received `QNetworkDatagram`.
pub record Datagram : Type 0 where
  pub sender : HostAddress
  pub sender_port : ℕ
  pub destination : HostAddress
  pub interface_index : ℕ

-- `joined` holds the indices of the interfaces that the code has asked the socket to join the mDNS
-- group on, and not to leave it since. `probe_timer` says whether that timer is active.
pub record Core : Type 0 where
  pub own_port : ℕ
  pub host_label : Bytes
  pub host_suffix : ℕ
  pub host : Group
  pub services : List Service
  pub next_id : ℕ
  pub ifaces : List Iface
  pub own_addresses : List ℕ
  pub joined : List ℕ
  pub probe_timer : Bool
  pub sent : List Sent
  pub timers : List Timer

-- `sendTo`, over a destination.
unfoldable pub write_all : Destination → List Bytes → List Sent
write_all to [] = []
write_all to (p ∷ ps) = record { destination = to; packet = p } ∷ write_all to ps

unfoldable pub send_to : Message → Destination → Core → Core
unfolding write_all to_packets
send_to m to c = record c { sent = c.sent ++ write_all to (to_packets m) }

abbrev pub multicast : Message → Iface → Core → Core
multicast m iface c = send_to m (group iface) c

-- `for (const auto& iface : m_ifaces) multicast(m, iface)`.
unfoldable pub multicast_all : (Iface → Message) → List Iface → Core → Core
unfolding send_to
multicast_all m [] c = c
multicast_all m (i ∷ is) c = multicast_all m is (multicast (m i) i c)

-- `QTimer::singleShot`.
abbrev pub single_shot : ℕ → Action → Core → Core
single_shot delay action c = record c {
  timers = c.timers ++ (record { delay = delay; action = action } ∷ []);
}

unfoldable pub find_service : ℕ → List Service → Option Service
find_service id [] = none
find_service id (s ∷ ss) = if s.id == id then some s else find_service id ss

-- A write through the pointer that `findService` returns.
unfoldable pub set_service : ℕ → Service → List Service → List Service
set_service id v [] = []
set_service id v (s ∷ ss) = if s.id == id then v ∷ ss else s ∷ set_service id v ss

unfoldable pub iface_by_index : ℕ → List Iface → Option Iface
iface_by_index index [] = none
iface_by_index index (i ∷ is) = if i.index == index then some i else iface_by_index index is
