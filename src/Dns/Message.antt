-- ===== src/Dns/Message.antt =====
-- Questions, records and messages, and the builders of src/discovery/DnsMessage.cpp.
use air_show.Prelude.{
  ℕ, zero, suc, ◌+◌, ◌/◌, ◌%◌, max, Bool, true, false, ◌&&◌, List, [], ◌∷◌, ◌++◌, if◌then◌else◌,
  leb, ltb, ◌==◌, Bytes, length, is_empty, same_bytes, take,
}
use Prim.Native.Nat.{bit_or}
use air_show.Dns.Wire.{put16, put32}
use air_show.Dns.Name.{Name, put_plain_name, same_name}

-- `enum Type` and the class and flag constants of src/discovery/DnsMessage.h.
abbrev pub type_a : ℕ
type_a = 1

abbrev pub type_ptr : ℕ
type_ptr = 12

abbrev pub type_txt : ℕ
type_txt = 16

abbrev pub type_srv : ℕ
type_srv = 33

abbrev pub type_nsec : ℕ
type_nsec = 47

abbrev pub type_any : ℕ
type_any = 255

abbrev pub class_in : ℕ
class_in = 1

abbrev pub class_any : ℕ
class_any = 255

pub record Question : Type 0 where
  pub name : Name
  pub type : ℕ
  pub rrclass : ℕ
  pub unicast_response : Bool

pub record Record : Type 0 where
  pub name : Name
  pub type : ℕ
  pub rrclass : ℕ
  pub cache_flush : Bool
  pub ttl : ℕ
  pub target : Name
  pub priority : ℕ
  pub weight : ℕ
  pub port : ℕ
  pub rdata : Bytes

pub record Message : Type 0 where
  pub id : ℕ
  pub flags : ℕ
  pub questions : List Question
  pub answers : List Record
  pub authorities : List Record
  pub additionals : List Record

-- `flags & kFlagResponse`.
unfoldable pub is_response : Message → Bool
is_response m = m.flags / 32768 % 2 == 1

unfoldable pub canonical_rdata : Record → Bytes
unfolding put16 put_plain_name
canonical_rdata r =
    if r.type == type_ptr
    then put_plain_name r.target true
    else if r.type == type_srv
    then put16 r.priority ++ (put16 r.weight ++ (put16 r.port ++ put_plain_name r.target true))
    else r.rdata

unfoldable pub same_as : Record → Record → Bool
same_as r other =
    r.type == other.type
    && r.rrclass == other.rrclass
    && same_name r.name other.name
    && same_bytes (canonical_rdata r) (canonical_rdata other)

-- `Record r;` with a name, a type and a TTL.
abbrev pub blank : Name → ℕ → ℕ → Record
blank name type ttl = record {
  name = name;
  type = type;
  rrclass = class_in;
  cache_flush = false;
  ttl = ttl;
  target = [];
  priority = 0;
  weight = 0;
  port = 0;
  rdata = [];
}

unfoldable pub make_ptr : Name → Name → ℕ → Record
make_ptr name target ttl = record (blank name type_ptr ttl) { target = target }

unfoldable pub make_srv : Name → ℕ → Name → ℕ → Record
make_srv name port target ttl = record (blank name type_srv ttl) { port = port; target = target }

-- The loop of `makeTxt`.
unfoldable pub txt_entries : List Bytes → Bytes
txt_entries [] = []
txt_entries (e ∷ rest) =
    if ltb 255 (length e) then txt_entries rest else (length e ∷ e) ++ txt_entries rest

unfoldable pub make_txt : Name → List Bytes → ℕ → Record
unfolding txt_entries
make_txt name entries ttl = record (blank name type_txt ttl) {
  rdata = if is_empty (txt_entries entries) then 0 ∷ [] else txt_entries entries;
}

unfoldable pub make_a : Name → ℕ → ℕ → Record
unfolding put32
make_a name ipv4 ttl = record (blank name type_a ttl) { rdata = put32 ipv4 }

-- `bitmap[i] |= bits`.
unfoldable pub or_at : Bytes → ℕ → ℕ → Bytes
or_at [] i bits = []
or_at (x ∷ xs) zero bits = bit_or x bits ∷ xs
or_at (x ∷ xs) (suc i) bits = x ∷ or_at xs i bits

-- `0x80 >> bit`, for a bit below 8.
unfoldable pub shifted_0x80 : ℕ → ℕ
shifted_0x80 zero = 0x80
shifted_0x80 (suc bit) = shifted_0x80 bit / 2

-- The loop of `makeNsec` over `bitmap` and `used`.
unfoldable pub nsec_bits : List ℕ → Bytes → ℕ → Bytes × ℕ
unfolding or_at shifted_0x80
nsec_bits [] bitmap used = (bitmap, used)
nsec_bits (t ∷ types) bitmap used =
    nsec_bits types (if leb 256 t then bitmap else or_at bitmap (t / 8) (shifted_0x80 (t % 8)))
      (if leb 256 t then used else max used (t / 8 + 1))

zeros : ℕ → Bytes
zeros zero = []
zeros (suc n) = 0 ∷ zeros n

unfoldable pub make_nsec : Name → List ℕ → ℕ → Record
unfolding nsec_bits zeros put_plain_name
make_nsec name types ttl =
    let (bitmap, used) = nsec_bits types (zeros 32) 0 in
    record (blank name type_nsec ttl) {
      rdata = put_plain_name name false ++ (0 ∷ used ∷ take used bitmap);
    }
