-- ===== src/Dns/Writer/Rdata.antt =====
-- The record data that `Writer::record` writes between the length field and its patch, and the patch.
use air_show.Prelude.{
  ℕ, ◌+◌, ◌-◌, ◌/◌, ◌%◌, ◌<◌, ◌≡◌, ◌≢◌, refl, ap, ◌∙◌, false, [], ◌∷◌, ◌++◌, Bytes, length, arith,
  length-append, ◌==◌, ==_iff,
}
use mathlib.Core.List.{append_assoc}
use air_show.Dns.Wire.{put16}
use air_show.Dns.Wire.At.{length-put16}
use air_show.Dns.Message.{Record, type_ptr, type_srv}
use air_show.Dns.Writer.{
  Offsets, Writer, append, write_name, write_rdata, write_record, with_top_bit, set_byte,
}
use air_show.Dns.Wire.{put32}
use air_show.Dns.Writer.Keys.{IsName}
use air_show.Dns.Writer.Names.{emit, length-emit, write_name-eq}

abbrev pub numbers : Record → Bytes
numbers r = put16 r.priority ++ (put16 r.weight ++ put16 r.port)

pub length-numbers : (r : Record) → length (numbers r) ≡ 6
unfolding put16
length-numbers r = refl

-- Which of the three forms the data of a record has, and that the fields of the other forms are unused.
pub data Shape (r : Record) : Type 0 where
  ptr :
      r.type ≡ type_ptr
      → IsName r.target
      → r.priority ≡ 0
      → r.weight ≡ 0
      → r.port ≡ 0
      → r.rdata ≡ []
      → Shape r
  srv :
      r.type ≡ type_srv
      → IsName r.target
      → r.priority < 65536
      → r.weight < 65536
      → r.port < 65536
      → r.rdata ≡ []
      → Shape r
  raw :
      r.type ≢ type_ptr
      → r.type ≢ type_srv
      → r.target ≡ []
      → r.priority ≡ 0
      → r.weight ≡ 0
      → r.port ≡ 0
      → length r.rdata < 65536
      → Shape r

-- The data of the record and the new map entries, for an output of `size` bytes.
unfoldable pub rdata_of : Offsets → ℕ → (r : Record) → Shape r → Bytes × Offsets
rdata_of table size r (ptr _ _ _ _ _ _) = emit table size r.target
rdata_of table size r (srv _ _ _ _ _ _) =
    (numbers r ++ (emit table (size + 6) r.target).0, (emit table (size + 6) r.target).1)
rdata_of table size r (raw _ _ _ _ _ _ _) = (r.rdata, [])

pub write_rdata-eq :
    (w : Writer) (r : Record) (s : Shape r)
    → write_rdata w r ≡ record {
      out = w.out ++ (rdata_of w.offsets (length w.out) r s).0;
      offsets = (rdata_of w.offsets (length w.out) r s).1 ++ w.offsets;
    }
unfolding write_rdata rdata_of
write_rdata-eq w r (ptr e n _ _ _ _) =
    rw ((==_iff r.type type_ptr).1 e) (write_name-eq w r.target n)
write_rdata-eq w r (srv e n _ _ _ _) =
    let not_ptr : (r.type == type_ptr) ≡ false = ground arith in
    let grown : length (w.out ++ numbers r) ≡ length w.out + 6 =
      omega (arith, length-append w.out (numbers r), length-numbers r) in
    rw not_ptr (
      rw ((==_iff r.type type_srv).1 e) (
        write_name-eq (append w (numbers r)) r.target n
        ∙ rw grown (rw (append_assoc w.out (numbers r)) refl)))
write_rdata-eq w r (raw p q _ _ _ _ _) =
    let not_ptr : (r.type == type_ptr) ≡ false = ground arith in
    let not_srv : (r.type == type_srv) ≡ false = ground arith in rw not_ptr (rw not_srv refl)

pub length-rdata_of :
    (table : Offsets) (size : ℕ) (r : Record) (s : Shape r)
    → length (rdata_of table size r s).0 < 65536
unfolding rdata_of
length-rdata_of table size r (ptr _ n _ _ _ _) =
    omega (arith, length-emit table size r.target n.labels, n.size)
length-rdata_of table size r (srv _ n _ _ _ _) = omega (
  arith,
  length-append (numbers r) (emit table (size + 6) r.target).0,
  length-numbers r,
  length-emit table (size + 6) r.target n.labels,
  n.size,
)
length-rdata_of table size r (raw _ _ _ _ _ _ h) = h

set_byte-append :
    (a : Bytes) (x : ℕ) (b : Bytes) (v : ℕ) → set_byte (a ++ (x ∷ b)) (length a) v ≡ a ++ (v ∷ b)
unfolding set_byte
set_byte-append [] x b v = refl
set_byte-append (c ∷ a) x b v = ap (◌∷◌ c) (set_byte-append a x b v)

-- The patch overwrites the two placeholder bytes by the length.
pub patch :
    (a b : Bytes) (v : ℕ)
    → set_byte (set_byte ((a ++ put16 0) ++ b) (length a) (v / 256 % 256)) (length a + 1) (v % 256)
      ≡ (a ++ put16 v) ++ b
unfolding put16
patch a b v =
    let hi = v / 256 % 256 in
    let lo = v % 256 in
    let grown : length a + 1 ≡ length (a ++ (hi ∷ [])) = omega (arith, length-append a (hi ∷ [])) in
    rw (append_assoc a (0 ∷ 0 ∷ []) b) (
      rw (set_byte-append a 0 (0 ∷ b) hi) (
        rw (grown, ← append_assoc a (hi ∷ []) (0 ∷ b))
          (set_byte-append (a ++ (hi ∷ [])) 0 b lo ∙ simp append_assoc)))

abbrev pub fixed : Record → Bytes
fixed r = put16 r.type ++ (put16 (with_top_bit r.rrclass r.cache_flush) ++ put32 r.ttl)

-- The writer in front of the length field.
abbrev pub head_of : Writer → Record → Writer
head_of w r = append (write_name w r.name) (fixed r)

abbrev pub body_of : Writer → (r : Record) → Shape r → Bytes × Offsets
body_of w r s = rdata_of (head_of w r).offsets (length (head_of w r).out + 2) r s

-- `Writer::record`: the length field holds the length of the data behind it.
pub write_record-eq :
    (w : Writer) (r : Record) (s : Shape r)
    → write_record w r ≡ record {
      out = ((head_of w r).out ++ put16 (length (body_of w r s).0)) ++ (body_of w r s).0;
      offsets = (body_of w r s).1 ++ (head_of w r).offsets;
    }
unfolding write_record
write_record-eq w r s =
    let h = (head_of w r).out in
    let body = (body_of w r s).0 in
    let grown : length (h ++ put16 0) ≡ length h + 2 =
      omega (arith, length-append h (put16 0), length-put16 0) in
    let done : write_rdata (append (head_of w r) (put16 0)) r ≡ record {
      out = (h ++ put16 0) ++ body;
      offsets = (body_of w r s).1 ++ (head_of w r).offsets;
    } =
      write_rdata-eq (append (head_of w r) (put16 0)) r s ∙ rw grown refl in
    let size : length ((h ++ put16 0) ++ body) - length h - 2 ≡ length body =
      omega (arith, grown, length-append (h ++ put16 0) body) in
    rw done (rw size (rw (patch h body (length body)) refl))
