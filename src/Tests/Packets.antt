-- ===== src/Tests/Packets.antt =====
-- The DNS messages of src/discovery/DnsMessage.cpp at concrete inputs.
use air_show.Prelude.{◌↔◌, ◌≤◌, ◌<◌, ◌≡◌, ◌≢◌, refl, true, [], ◌∷◌, ◌++◌, Bytes, length, All, arith}
use air_show.Dns.Wire.{put16}
use air_show.Dns.Wire.At.{At}
use air_show.Dns.Name.{read_round, Name, ok, out_of_fuel, read_name, same_name}
use air_show.Dns.Name.Bounds.{IsLabel, wire_size, read_name_bounds, read_name-total}
use air_show.Dns.Name.Fold.{SameLabel, Pointwise, same_name_iff}
use air_show.Dns.Name.Decode.{Decodes, root, label, jump, read_name-Decodes}
use air_show.Dns.Message.{Message, make_ptr}
use air_show.Dns.Reader.{parse}
use air_show.Dns.Reader.Total.{parse-total}
use air_show.Dns.Writer.{serialize}
use air_show.Dns.Writer.Keys.{IsName}
use air_show.Dns.Writer.Rdata.{ptr}
use air_show.Dns.Writer.Reads.{IsRecord}
use air_show.Dns.RoundTrip.{IsMessage, SameMessage, parse-serialize}

-- `a.b` and `c.a.b`, of which the second ends with a pointer to the first on the wire.
abbrev name_ab : Name
name_ab = (97 ∷ []) ∷ (98 ∷ []) ∷ []

abbrev name_cab : Name
name_cab = (99 ∷ []) ∷ name_ab

abbrev announcement : Message
announcement = record {
  id = 7;
  flags = 0x8400;
  questions = [];
  answers = make_ptr name_ab name_cab 120 ∷ [];
  authorities = [];
  additionals = [];
}

name_ab-IsName : IsName name_ab
name_ab-IsName = record {
  labels = ((omega arith, omega arith), ((omega arith, omega arith), tt));
  size = omega arith;
  few = omega arith;
}

name_cab-IsName : IsName name_cab
name_cab-IsName = record {
  labels =
      ((omega arith, omega arith), ((omega arith, omega arith), ((omega arith, omega arith), tt)));
  size = omega arith;
  few = omega arith;
}

ptr-IsRecord : IsRecord (make_ptr name_ab name_cab 120)
unfolding make_ptr
ptr-IsRecord = record {
  name_fits = name_ab-IsName;
  type_fits = omega arith;
  class_fits = omega arith;
  ttl_fits = omega arith;
  shape = ptr refl name_cab-IsName refl refl refl refl;
}

announcement-IsMessage : IsMessage announcement
announcement-IsMessage = record {
  id_fits = omega arith;
  flags_fit = omega arith;
  questions_fit = omega arith;
  answers_fit = omega arith;
  authorities_fit = omega arith;
  additionals_fit = omega arith;
  questions = tt;
  answers = (ptr-IsRecord, tt);
  authorities = tt;
  additionals = tt;
}

parse-serialize_example :
    (m : Message) × (parse (serialize announcement) ≡ ok m) × SameMessage announcement m
parse-serialize_example = parse-serialize announcement announcement-IsMessage

-- The bytes of `a.b` with a header of three other bytes, and a pointer that jumps to itself.
abbrev name_bytes : Bytes
name_bytes = 9 ∷ 9 ∷ 9 ∷ 1 ∷ 97 ∷ 1 ∷ 98 ∷ 0 ∷ 0xC0 ∷ 3 ∷ []

abbrev loop_bytes : Bytes
loop_bytes = 0xC0 ∷ 0 ∷ []

read_name-total_run : read_name loop_bytes 0 ≢ out_of_fuel
read_name-total_run = read_name-total loop_bytes 0

parse-total_example : parse (1 ∷ 2 ∷ 3 ∷ []) ≢ out_of_fuel
parse-total_example = parse-total (1 ∷ 2 ∷ 3 ∷ [])

read_name_bytes : read_name name_bytes 8 ≡ ok (name_ab, 10)
unfolding read_name read_round
read_name_bytes = refl

read_name_bounds_example :
    (8 < 10) × (10 ≤ length name_bytes) × All IsLabel name_ab × (wire_size name_ab ≤ 255)
read_name_bounds_example = read_name_bounds name_bytes 8 name_ab 10 read_name_bytes

At-bytes : (before chunk after : Bytes) → At (before ++ (chunk ++ after)) (length before) chunk
At-bytes before chunk after = record {
  before = before;
  after = after;
  splits = refl;
  placed = refl;
}

name_bytes-Decodes : Decodes name_bytes 8 name_ab 1 10
unfolding put16
name_bytes-Decodes =
    jump 3 (omega arith) (At-bytes (9 ∷ 9 ∷ 9 ∷ 1 ∷ 97 ∷ 1 ∷ 98 ∷ 0 ∷ []) (0xC0 ∷ 3 ∷ []) []) refl (
      label (97 ∷ []) (omega arith, omega arith)
        (At-bytes (9 ∷ 9 ∷ 9 ∷ []) (1 ∷ 97 ∷ []) (1 ∷ 98 ∷ 0 ∷ 0xC0 ∷ 3 ∷ [])) refl
        (label (98 ∷ []) (omega arith, omega arith)
          (At-bytes (9 ∷ 9 ∷ 9 ∷ 1 ∷ 97 ∷ []) (1 ∷ 98 ∷ []) (0 ∷ 0xC0 ∷ 3 ∷ [])) refl
          (root (At-bytes (9 ∷ 9 ∷ 9 ∷ 1 ∷ 97 ∷ 1 ∷ 98 ∷ []) (0 ∷ []) (0xC0 ∷ 3 ∷ [])) refl)))

read_name-Decodes_example : read_name name_bytes 8 ≡ ok (name_ab, 10)
read_name-Decodes_example =
    read_name-Decodes name_bytes-Decodes (omega arith) (omega arith) (omega arith)

same_name_iff_example :
    (same_name name_ab ((65 ∷ []) ∷ (98 ∷ []) ∷ []) ≡ true)
    ↔ Pointwise SameLabel name_ab ((65 ∷ []) ∷ (98 ∷ []) ∷ [])
same_name_iff_example = same_name_iff name_ab ((65 ∷ []) ∷ (98 ∷ []) ∷ [])
