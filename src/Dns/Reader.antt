-- ===== src/Dns/Reader.antt =====
-- `readRecord` and `parse` of src/discovery/DnsMessage.cpp.
pub mod Total
use air_show.Prelude.{
  ℕ, zero, suc, ◌+◌, ◌/◌, ◌%◌, Bool, List, [], ◌∷◌, if◌then◌else◌, leb, ◌==◌, Bytes, length,
}
use air_show.Dns.Wire.{be16, be32, slice}
use air_show.Dns.Name.{Read, ok, ◌>>=◌, ◌>>◌, guard, read_name}
use air_show.Dns.Message.{Question, Record, Message, type_ptr, type_srv, blank}

-- The part of `readRecord` that depends on the type, from `p = *pos` on.
unfoldable pub read_rdata : Bytes → ℕ → ℕ → Record → Read Record
read_rdata bytes p rdlen r =
    if r.type == type_ptr
    then (do
      (target, q) ← read_name bytes p
      guard (leb q (p + rdlen))
      ok (record r { target = target }))
    else if r.type == type_srv
    then (do
      guard (leb 7 rdlen)
      (target, q) ← read_name bytes (p + 6)
      guard (leb q (p + rdlen))
      ok (record r {
        priority = be16 bytes p;
        weight = be16 bytes (p + 2);
        port = be16 bytes (p + 4);
        target = target;
      }))
    else ok (record r { rdata = slice bytes p rdlen })

-- `w & 0x8000` is `w / 32768 % 2`, `w & 0x7FFF` is `w % 32768`.
abbrev pub top_bit : ℕ → Bool
top_bit w = w / 32768 % 2 == 1

unfoldable pub read_record : Bytes → ℕ → Read (Record × ℕ)
read_record bytes pos = do
  (name, h) ← read_name bytes pos
  guard (leb (h + 10) (length bytes))
  let rdlen = be16 bytes (h + 8)
  guard (leb (h + 10 + rdlen) (length bytes))
  r ← read_rdata bytes (h + 10) rdlen (record (blank name (be16 bytes h) (be32 bytes (h + 4))) {
    cache_flush = top_bit (be16 bytes (h + 2));
    rrclass = be16 bytes (h + 2) % 32768;
  })
  ok (r, h + 10 + rdlen)

unfoldable pub read_question : Bytes → ℕ → Read (Question × ℕ)
read_question bytes pos = do
  (name, h) ← read_name bytes pos
  guard (leb (h + 4) (length bytes))
  ok (
    record {
      name = name;
      type = be16 bytes h;
      rrclass = be16 bytes (h + 2) % 32768;
      unicast_response = top_bit (be16 bytes (h + 2));
    },
    h + 4,
  )

-- The loop over `count` items of a section; each is appended to the section's vector.
unfoldable pub read_section {ℓ} :
    {A : Type ℓ} → (Bytes → ℕ → Read (A × ℕ)) → Bytes → ℕ → ℕ → Read (List A × ℕ)
read_section item bytes zero pos = ok ([], pos)
read_section item bytes (suc count) pos = do
  (x, p) ← item bytes pos
  (xs, q) ← read_section item bytes count p
  ok (x ∷ xs, q)

unfoldable pub parse : Bytes → Read Message
unfolding read_section
parse bytes = do
  guard (leb 12 (length bytes))
  (questions, p) ← read_section read_question bytes (be16 bytes 4) 12
  (answers, q) ← read_section read_record bytes (be16 bytes 6) p
  (authorities, r) ← read_section read_record bytes (be16 bytes 8) q
  (additionals, s) ← read_section read_record bytes (be16 bytes 10) r
  ok (record {
    id = be16 bytes 0;
    flags = be16 bytes 2;
    questions = questions;
    answers = answers;
    authorities = authorities;
    additionals = additionals;
  })
