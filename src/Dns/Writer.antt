-- ===== src/Dns/Writer.antt =====
-- `Writer` and `serialize` of src/discovery/DnsMessage.cpp: names with RFC 1035 compression.
pub mod Keys
pub mod Names
pub mod Items
pub mod Rdata
pub mod Records
pub mod Reads
use air_show.Prelude.{
  ℕ, zero, suc, ◌+◌, ◌-◌, ◌/◌, ◌%◌, Bool, List, [], ◌∷◌, ◌++◌, map, Option, none, some,
  if◌then◌else◌, ltb, ◌==◌, Bytes, length, same_bytes,
}
use air_show.Dns.Wire.{put16, put32, lower}
use air_show.Dns.Name.{Name, cut}
use air_show.Dns.Message.{Question, Record, Message, type_ptr, type_srv}

-- `m_offsets`: where each suffix stands.
abbrev pub Offsets : Type 0
Offsets = List (Bytes × ℕ)

pub record Writer : Type 0 where
  pub out : Bytes
  pub offsets : Offsets

unfoldable pub find : Bytes → Offsets → Option ℕ
find key [] = none
find key ((k, off) ∷ rest) = if same_bytes key k then some off else find key rest

-- `suffixKey` from the head of the list on.
unfoldable pub suffix_key : Name → Bytes
suffix_key [] = []
suffix_key ([] ∷ rest) = suffix_key rest
suffix_key ((c ∷ l) ∷ rest) = (length (cut (c ∷ l)) ∷ map lower (cut (c ∷ l))) ++ suffix_key rest

abbrev pub append : Writer → Bytes → Writer
append w bytes = record w { out = w.out ++ bytes }

-- `Writer::name`. `0xC000 | off` is `0xC000 + off % 0x4000`.
unfoldable pub write_name : Writer → Name → Writer
write_name w [] = append w (0 ∷ [])
write_name w ([] ∷ rest) = write_name w rest
write_name w ((c ∷ l) ∷ rest) = elim (find (suffix_key ((c ∷ l) ∷ rest)) w.offsets) [
  | some off ↦ append w (put16 (0xC000 + off % 0x4000))
  | none ↦
      write_name
        (record {
          out = w.out ++ (length (cut (c ∷ l)) ∷ cut (c ∷ l));
          offsets =
              if ltb (length w.out) 0x3FFF
              then (suffix_key ((c ∷ l) ∷ rest), length w.out) ∷ w.offsets
              else w.offsets;
        })
        rest
]

-- `w | 0x8000` where the flag is set.
abbrev pub with_top_bit : ℕ → Bool → ℕ
with_top_bit w flag = if flag then w % 32768 + 32768 else w

-- The part of `Writer::record` between the length field and its patch.
unfoldable pub write_rdata : Writer → Record → Writer
unfolding write_name
write_rdata w r =
    if r.type == type_ptr
    then write_name w r.target
    else if r.type == type_srv
    then write_name (append w (put16 r.priority ++ (put16 r.weight ++ put16 r.port))) r.target
    else append w r.rdata

-- `out[at] = v`.
unfoldable pub set_byte : Bytes → ℕ → ℕ → Bytes
set_byte [] at v = []
set_byte (x ∷ xs) zero v = v ∷ xs
set_byte (x ∷ xs) (suc at) v = x ∷ set_byte xs at v

unfoldable pub write_record : Writer → Record → Writer
unfolding write_name write_rdata set_byte
write_record w r =
    let head =
      append (write_name w r.name)
        (put16 r.type ++ (put16 (with_top_bit r.rrclass r.cache_flush) ++ put32 r.ttl)) in
    let len_at = length head.out in
    let done = write_rdata (append head (put16 0)) r in
    let rdlen = length done.out - len_at - 2 in
    record done {
      out = set_byte (set_byte done.out len_at (rdlen / 256 % 256)) (len_at + 1) (rdlen % 256);
    }

unfoldable pub write_question : Writer → Question → Writer
unfolding write_name
write_question w q =
    append (write_name w q.name) (put16 q.type ++ put16 (with_top_bit q.rrclass q.unicast_response))

unfoldable pub write_all {ℓ} : {A : Type ℓ} → (Writer → A → Writer) → Writer → List A → Writer
write_all item w [] = w
write_all item w (x ∷ xs) = write_all item (item w x) xs

-- The header: the counts are cut to 16 bits.
unfoldable pub header : Message → Bytes
header m =
    put16 m.id
    ++ (put16 m.flags
        ++ (put16 (length m.questions % 65536)
            ++ (put16 (length m.answers % 65536)
                ++ (put16 (length m.authorities % 65536) ++ put16 (length m.additionals % 65536)))))

unfoldable pub serialize : Message → Bytes
unfolding write_all write_question write_record header
serialize m =
    let w0 : Writer = record { out = header m; offsets = [] } in
    let w1 = write_all write_question w0 m.questions in
    let w2 = write_all write_record w1 m.answers in
    let w3 = write_all write_record w2 m.authorities in
    (write_all write_record w3 m.additionals).out
