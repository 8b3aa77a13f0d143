-- ===== src/Dns/Wire/At.antt =====
-- Reading back what stands at a position of a byte string.
use air_show.Prelude.{
  sym, ℕ, ◌+◌, ◌*◌, ◌/◌, ◌%◌, ◌≤◌, ◌<◌, ◌≡◌, refl, ap, ◌∙◌, [], ◌∷◌, ◌++◌, Bytes, length, get_or,
  arith, length-append, take-append, drop-append,
}
use mathlib.Core.List.{append-nil, append_assoc}
use air_show.Dns.Wire.{byte_at, slice, be16, be32, put16, put32}

-- `chunk` stands in `bytes` at position `p`.
pub record At (bytes : Bytes) (p : ℕ) (chunk : Bytes) : Type 0 where
  pub before : Bytes
  pub after : Bytes
  pub splits : bytes ≡ before ++ (chunk ++ after)
  pub placed : length before ≡ p

pub At-here : (before chunk after : Bytes) → At (before ++ (chunk ++ after)) (length before) chunk
At-here before chunk after = record { before = before; after = after; splits = refl; placed = refl }

pub At-last : (before chunk : Bytes) → At (before ++ chunk) (length before) chunk
At-last before chunk = record {
  before = before;
  after = [];
  splits = ap (◌++◌ before) (sym (append-nil chunk));
  placed = refl;
}

pub At-more :
    {bytes : Bytes} {p : ℕ} {chunk : Bytes} (more : Bytes)
    → At bytes p chunk
    → At (bytes ++ more) p chunk
At-more {chunk = chunk} more a = record {
  before = a.before;
  after = a.after ++ more;
  splits = rw a.splits (simp append_assoc);
  placed = a.placed;
}

pub At-left : {bytes : Bytes} {p : ℕ} (a b : Bytes) → At bytes p (a ++ b) → At bytes p a
At-left a b h = record {
  before = h.before;
  after = b ++ h.after;
  splits = h.splits ∙ simp append_assoc;
  placed = h.placed;
}

pub At-right :
    {bytes : Bytes} {p : ℕ} (a b : Bytes) → At bytes p (a ++ b) → At bytes (p + length a) b
At-right a b h = record {
  before = h.before ++ a;
  after = h.after;
  splits = h.splits ∙ simp append_assoc;
  placed = omega (arith, length-append h.before a, h.placed);
}

pub At-le :
    {bytes : Bytes} {p : ℕ} (chunk : Bytes) → At bytes p chunk → p + length chunk ≤ length bytes
At-le chunk h = omega (
  arith,
  ap length h.splits,
  length-append h.before (chunk ++ h.after),
  length-append chunk h.after,
  h.placed,
)

get_or-append :
    (before : Bytes) (x : ℕ) (after : Bytes) → get_or (before ++ (x ∷ after)) (length before) 0 ≡ x
get_or-append [] x after = refl
get_or-append (b ∷ before) x after = get_or-append before x after

pub At-byte : {bytes : Bytes} {p : ℕ} (x : ℕ) → At bytes p (x ∷ []) → byte_at bytes p ≡ x
At-byte x h = rw (h.splits, ← h.placed) (get_or-append h.before x h.after)

pub At-slice :
    {bytes : Bytes} {p : ℕ} (chunk : Bytes)
    → At bytes p chunk
    → slice bytes p (length chunk) ≡ chunk
At-slice chunk h =
    rw (h.splits, ← h.placed)
      (rw (drop-append h.before (chunk ++ h.after)) (take-append chunk h.after))

pub At-be16 : {bytes : Bytes} {p : ℕ} (v : ℕ) → v < 65536 → At bytes p (put16 v) → be16 bytes p ≡ v
unfolding be16 put16
At-be16 v lt h =
    rw (At-byte (v / 256 % 256) (At-left (v / 256 % 256 ∷ []) (v % 256 ∷ []) h))
      (rw (At-byte (v % 256) (At-right (v / 256 % 256 ∷ []) (v % 256 ∷ []) h)) (omega arith))

be32-be16 : (bytes : Bytes) (p : ℕ) → be32 bytes p ≡ be16 bytes p * 65536 + be16 bytes (p + 2)
unfolding be16 be32
be32-be16 bytes p = let e : p + 2 + 1 ≡ p + 3 = omega arith in rw e (omega arith)

pub length-put16 : (v : ℕ) → length (put16 v) ≡ 2
unfolding put16
length-put16 v = refl

pub length-put32 : (v : ℕ) → length (put32 v) ≡ 4
unfolding put32
length-put32 v = refl

pub At-be32 :
    {bytes : Bytes} {p : ℕ} (v : ℕ) → v < 4294967296 → At bytes p (put32 v) → be32 bytes p ≡ v
unfolding put32
At-be32 {bytes} {p} v lt h =
    let hi = At-be16 (v / 65536 % 65536) (omega arith) (At-left (put16 _) (put16 (v % 65536)) h) in
    let lo = At-be16 (v % 65536) (omega arith) (At-right (put16 (v / 65536 % 65536)) (put16 _) h) in
    omega (arith, be32-be16 bytes p, hi, lo)

pub At-behind16 :
    {bytes : Bytes} {p : ℕ} (v : ℕ) (b : Bytes) → At bytes p (put16 v ++ b) → At bytes (p + 2) b
unfolding put16
At-behind16 v b h = At-right (v / 256 % 256 ∷ v % 256 ∷ []) b h
