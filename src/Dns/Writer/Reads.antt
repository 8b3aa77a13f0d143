-- ===== src/Dns/Writer/Reads.antt =====
-- Records are read back from what `Writer::record` makes of them.
use air_show.Prelude.{
  leb, ℕ, ◌+◌, ◌≤◌, ◌<◌, ◌≡◌, refl, sym, ap, ◌∙◌, true, false, [], ◌++◌, Bytes, length, arith,
  length-append, le→leb, ==_iff, ◌==◌,
}
use mathlib.Core.List.{append_assoc}
use air_show.Dns.Wire.{be16, be32, put16, put32}
use air_show.Dns.Wire.At.{
  At, At-last, At-more, At-left, At-right, At-behind16, At-le, At-be16, At-be32, At-slice,
  length-put16, length-put32,
}
use air_show.Dns.Name.{Name, ok, read_name, same_name}
use air_show.Dns.Message.{Record, type_ptr, type_srv, blank}
use air_show.Dns.Reader.{read_rdata, read_record}
use air_show.Dns.Writer.{Writer, append, write_name, write_record, with_top_bit}
use air_show.Dns.Writer.Keys.{IsName}
use air_show.Dns.Writer.Names.{emit, length-emit, IsTable, IsTable-more}
use air_show.Dns.Writer.Items.{HasTable, Item}
use air_show.Dns.Writer.Rdata.{
  Shape, ptr, srv, raw, rdata_of, numbers, length-numbers, length-rdata_of, fixed, head_of, body_of,
  write_record-eq,
}
use air_show.Dns.Writer.Records.{
  SameName, named-Item, write_name-Item, append-HasTable, with_top_bit_lt, with_top_bit-split,
}

-- The record as `readRecord` has it when it comes to the data.
abbrev pub before_data : Name → Record → Record
before_data name r = record (blank name r.type r.ttl) {
  cache_flush = r.cache_flush;
  rrclass = r.rrclass;
}

-- The data of a record is read back: the target up to letter case, all else exactly.
record DataRead (w : Writer) (r : Record) (s : Shape r) : Type 0 where
  table :
      IsTable
        (w.out ++ (rdata_of w.offsets (length w.out) r s).0)
        ((rdata_of w.offsets (length w.out) r s).1 ++ w.offsets)
  target : Name
  same : SameName r.target target
  reads :
      (name : Name) (rest : Bytes)
      → let body = (rdata_of w.offsets (length w.out) r s).0 in
        read_rdata ((w.out ++ body) ++ rest) (length w.out) (length body) (before_data name r)
        ≡ ok (record r { name = name; target = target })

leb_append : (a b : Bytes) → leb (length (a ++ b)) (length a + length b) ≡ true
leb_append a b = le→leb (length (a ++ b)) (length a + length b) (omega (arith, length-append a b))

data_read : (w : Writer) (r : Record) (s : Shape r) → HasTable w → DataRead w r s
unfolding rdata_of read_rdata same_name
data_read w r (ptr is_ptr n p q o d) t =
    let i = named-Item w r.target t n in
    record {
      table = i.table;
      target = i.value;
      same = i.same;
      reads = λ name rest. rw ((==_iff r.type type_ptr).1 is_ptr) (
          rw (i.reads rest)
            (rw (leb_append w.out (emit w.offsets (length w.out) r.target).0) (ground arith)));
    }
data_read w r (srv is_srv n p q o d) t =
    let at = append w (numbers r) in
    let i = named-Item at r.target (append-HasTable w (numbers r) t) n in
    let grown : length (w.out ++ numbers r) ≡ length w.out + 6 =
      omega (arith, length-append w.out (numbers r), length-numbers r) in
    let not_ptr : (r.type == type_ptr) ≡ false = ground arith in
    record {
      table =
          rw (← append_assoc w.out (numbers r) (emit w.offsets (length w.out + 6) r.target).0)
            (rw grown at i.table);
      target = i.value;
      same = i.same;
      reads = λ name rest.
          let tail = (emit w.offsets (length w.out + 6) r.target).0 in
          let bytes = (w.out ++ (numbers r ++ tail)) ++ rest in
          let here : At bytes (length w.out) (numbers r) =
            At-left (numbers r) tail (At-more rest (At-last w.out (numbers r ++ tail))) in
          let later = At-behind16 r.priority _ here in
          let priority_is : be16 bytes (length w.out) ≡ r.priority =
            At-be16 _ p (At-left _ _ here) in
          let weight_is : be16 bytes (length w.out + 2) ≡ r.weight =
            At-be16 _ q (At-left _ _ later) in
          let four : length w.out + 2 + 2 ≡ length w.out + 4 = omega arith in
          let port_is : be16 bytes (length w.out + 4) ≡ r.port =
            rw four at (At-be16 r.port o (At-behind16 r.weight _ later)) in
          let regroup : bytes ≡ ((w.out ++ numbers r) ++ tail) ++ rest =
            ap (λ b. b ++ rest) (sym (append_assoc w.out (numbers r) tail)) in
          let found : read_name (((w.out ++ numbers r) ++ tail) ++ rest) (length w.out + 6)
              ≡ ok (i.value, length ((w.out ++ numbers r) ++ tail)) =
            rw grown at (i.reads rest) in
          let stop : length ((w.out ++ numbers r) ++ tail)
              ≡ length w.out + length (numbers r ++ tail) =
            omega (
              arith,
              length-append (w.out ++ numbers r) tail,
              length-append w.out (numbers r),
              length-append (numbers r) tail,
            ) in
          let name_is : read_name bytes (length w.out + 6)
              ≡ ok (i.value, length w.out + length (numbers r ++ tail)) =
            ap (λ b. read_name b (length w.out + 6)) regroup
            ∙ found
            ∙ ap (λ q. ok (i.value, q)) stop in
          let seven : 7 ≤ length (numbers r ++ tail) = omega (
            arith,
            length-append (numbers r) tail,
            length-numbers r,
            length-emit w.offsets (length w.out + 6) r.target n.labels,
          ) in
          rw not_ptr (
            rw ((==_iff r.type type_srv).1 is_srv) (
              rw (le→leb 7 (length (numbers r ++ tail)) seven)
                (rw name_is (ground (arith, priority_is, weight_is, port_is)))));
    }
data_read w r (raw np ns no_target p q o few) t =
    let not_ptr : (r.type == type_ptr) ≡ false = ground arith in
    let not_srv : (r.type == type_srv) ≡ false = ground arith in
    record {
      table = IsTable-more w.out r.rdata w.offsets t;
      target = [];
      same = rw no_target refl;
      reads = λ name rest. rw not_ptr (
          rw not_srv (rw (At-slice r.rdata (At-more rest (At-last w.out r.rdata))) (ground arith)));
    }

-- What `Writer::record` writes without loss: the words fit their width.
pub record IsRecord (r : Record) : Type 0 where
  pub name_fits : IsName r.name
  pub type_fits : r.type < 65536
  pub class_fits : r.rrclass < 32768
  pub ttl_fits : r.ttl < 4294967296
  pub shape : Shape r

-- Equal but for the letter case of the two names.
pub record SameRecord (a b : Record) : Type 0 where
  pub name : SameName a.name b.name
  pub target : SameName a.target b.target
  pub type : a.type ≡ b.type
  pub rrclass : a.rrclass ≡ b.rrclass
  pub cache_flush : a.cache_flush ≡ b.cache_flush
  pub ttl : a.ttl ≡ b.ttl
  pub priority : a.priority ≡ b.priority
  pub weight : a.weight ≡ b.weight
  pub port : a.port ≡ b.port
  pub rdata : a.rdata ≡ b.rdata

-- The ten fixed bytes behind the name.
record FixedRead (bytes : Bytes) (h : ℕ) (r : Record) (len : ℕ) : Type 0 where
  room : h + 10 ≤ length bytes
  type_is : be16 bytes h ≡ r.type
  class_is : be16 bytes (h + 2) ≡ with_top_bit r.rrclass r.cache_flush
  ttl_is : be32 bytes (h + 4) ≡ r.ttl
  len_is : be16 bytes (h + 8) ≡ len

length-fixed : (r : Record) → length (fixed r) ≡ 8
length-fixed r = omega (
  arith,
  length-append (put16 r.type) (put16 (with_top_bit r.rrclass r.cache_flush) ++ put32 r.ttl),
  length-append (put16 (with_top_bit r.rrclass r.cache_flush)) (put32 r.ttl),
  length-put16 r.type,
  length-put16 (with_top_bit r.rrclass r.cache_flush),
  length-put32 r.ttl,
)

fixed_read :
    (bytes : Bytes) (h : ℕ) (r : Record) (len : ℕ)
    → IsRecord r
    → len < 65536
    → At bytes h (fixed r ++ put16 len)
    → FixedRead bytes h r len
fixed_read bytes h r len g lt at =
    let class = with_top_bit r.rrclass r.cache_flush in
    let front = At-left (fixed r) (put16 len) at in
    let later = At-behind16 r.type (put16 class ++ put32 r.ttl) front in
    let four : h + 2 + 2 ≡ h + 4 = omega arith in
    record {
      room = omega (
        arith,
        At-le (fixed r ++ put16 len) at,
        length-append (fixed r) (put16 len),
        length-fixed r,
        length-put16 len,
      );
      type_is = At-be16 r.type g.type_fits (At-left _ _ front);
      class_is =
          At-be16 class (with_top_bit_lt r.rrclass r.cache_flush g.class_fits) (At-left _ _ later);
      ttl_is = rw four at (At-be32 r.ttl g.ttl_fits (At-behind16 class (put32 r.ttl) later));
      len_is = At-be16 len lt (rw length-fixed at (At-right (fixed r) (put16 len) at));
    }

read_record-eq :
    (bytes : Bytes) (pos h : ℕ) (name : Name) (r r' : Record) (len : ℕ)
    → r.rrclass < 32768
    → read_name bytes pos ≡ ok (name, h)
    → FixedRead bytes h r len
    → h + 10 + len ≤ length bytes
    → read_rdata bytes (h + 10) len (before_data name r) ≡ ok r'
    → read_record bytes pos ≡ ok (r', h + 10 + len)
unfolding read_record
read_record-eq bytes pos h name r r' len lt name_is f fits data_is =
    let (class_is, flush_is) = with_top_bit-split r.rrclass r.cache_flush lt in
    rw name_is (
      rw (le→leb (h + 10) (length bytes) f.room) (
        rw (f.len_is, f.type_is, f.ttl_is, f.class_is)
          (rw (le→leb (h + 10 + len) (length bytes) fits)
            (rw (class_is, flush_is) (rw data_is refl)))))

-- A record is read back, names up to letter case, whatever follows it in the packet.
pub write_record-Item :
    (w : Writer) (r : Record)
    → HasTable w
    → IsRecord r
    → Item SameRecord read_record w r (write_record w r)
write_record-Item w r t g =
    let s = g.shape in
    let i = write_name-Item w r.name t g.name_fits in
    let w1 = write_name w r.name in
    let body = (body_of w r s).0 in
    let len = length body in
    let h = (head_of w r).out in
    let at : Writer = record { out = h ++ put16 len; offsets = w1.offsets } in
    let t' : HasTable at =
      append-HasTable (append w1 (fixed r)) (put16 len) (append-HasTable w1 (fixed r) i.table) in
    let d = data_read at r s t' in
    let grown : length (h ++ put16 len) ≡ length h + 2 =
      omega (arith, length-append h (put16 len), length-put16 len) in
    let read : Record = record r { name = i.value; target = d.target } in
    rw (write_record-eq w r s) (record {
      chunk = i.chunk ++ (fixed r ++ (put16 len ++ body));
      grows = ap (λ b. ((b ++ fixed r) ++ put16 len) ++ body) i.grows ∙ simp append_assoc;
      table = rw grown at d.table;
      value = read;
      same = record {
        name = i.same;
        target = d.same;
        type = refl;
        rrclass = refl;
        cache_flush = refl;
        ttl = refl;
        priority = refl;
        weight = refl;
        port = refl;
        rdata = refl;
      };
      reads = λ rest.
          let tail = fixed r ++ (put16 len ++ (body ++ rest)) in
          let bytes = ((h ++ put16 len) ++ body) ++ rest in
          let regroup : bytes ≡ w1.out ++ tail = simp append_assoc in
          let name_is : read_name bytes (length w.out) ≡ ok (i.value, length w1.out) =
            ap (λ b. read_name b (length w.out)) regroup ∙ i.reads tail in
          let lt : len < 65536 = length-rdata_of (head_of w r).offsets (length h + 2) r s in
          let here : At bytes (length w1.out) (fixed r ++ put16 len) = At-more rest (
            At-more body (
              rw (append_assoc w1.out (fixed r) (put16 len))
                (At-last w1.out (fixed r ++ put16 len)))) in
          let f = fixed_read bytes (length w1.out) r len g lt here in
          let total : length w1.out + 10 + len ≡ length ((h ++ put16 len) ++ body) = omega (
            arith,
            length-append (h ++ put16 len) body,
            grown,
            length-append w1.out (fixed r),
            length-fixed r,
          ) in
          let start : length h + 2 ≡ length w1.out + 10 =
            omega (arith, length-append w1.out (fixed r), length-fixed r) in
          read_record-eq bytes (length w.out) (length w1.out) i.value r read len g.class_fits
            name_is f (omega (arith, total, length-append ((h ++ put16 len) ++ body) rest))
            (rw (← start) (rw grown at (d.reads i.value rest)))
          ∙ ap (λ q. ok (read, q)) total;
    })
