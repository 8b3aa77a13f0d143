-- ===== src/Dns/Wire.antt =====
-- Big-endian words in byte strings: the helpers at the top of src/discovery/DnsMessage.cpp.
-- A byte is a number below 256; an index past the end reads as 0, and every caller tests first.
pub mod At
use air_show.Prelude.{
  ℕ, ◌+◌, ◌*◌, ◌/◌, ◌%◌, ◌<◌, ◌≡◌, ◌∷◌, [], ◌++◌, if◌then◌else◌, leb, ◌&&◌, arith, Bytes, get_or,
  take, drop,
}

abbrev pub byte_at : Bytes → ℕ → ℕ
byte_at bytes p = get_or bytes p 0

abbrev pub IsByte : ℕ → Type 0
IsByte b = b < 256

-- `bytes + from`, `len` bytes.
abbrev pub slice : Bytes → ℕ → ℕ → Bytes
slice bytes from len = take len (drop from bytes)

unfoldable pub lower : ℕ → ℕ
lower c = if leb b'A' c && leb c b'Z' then c + 32 else c

unfoldable pub be16 : Bytes → ℕ → ℕ
be16 bytes p = byte_at bytes p * 256 + byte_at bytes (p + 1)

unfoldable pub be32 : Bytes → ℕ → ℕ
be32 bytes p =
    byte_at bytes p * 16777216
    + byte_at bytes (p + 1) * 65536
    + byte_at bytes (p + 2) * 256
    + byte_at bytes (p + 3)

-- What `put16` appends.
unfoldable pub put16 : ℕ → Bytes
put16 v = (v / 256 % 256) ∷ (v % 256) ∷ []

unfoldable pub put32 : ℕ → Bytes
unfolding put16
put32 v = put16 (v / 65536 % 65536) ++ put16 (v % 65536)

-- `lower` changes nothing the second time.
pub lower-lower : (c : ℕ) → lower (lower c) ≡ lower c
unfolding lower
lower-lower c = ground arith
