-- ===== src/Dns/Name/Decode.antt =====
-- What a position of a packet means as a name, compression pointers included, and that `readName`
-- reads just that.
use mathlib.Core.List.{append_assoc, append-nil}
use air_show.Prelude.{
  zero, ◌∙◌, refl, ℕ, suc, ◌+◌, ◌/◌, ◌%◌, ◌≤◌, ◌<◌, ◌≡◌, true, [], ◌∷◌, ◌++◌, Bytes, length, arith,
  if◌then◌else◌,
}
use air_show.Dns.Wire.{put16}
use air_show.Dns.Wire.At.{At, At-more, At-byte, At-slice, At-left, At-right, At-le}
use air_show.Dns.Name.{
  cursor_at, name_fuel, ok, ok, read_name, read_labels, Name, Cursor, finish, more, read_round,
}
use air_show.Dns.Name.Bounds.{wire_size, wire_size, IsLabel}

-- The name `n` is read at `p` with `k` jumps; what stands at `p` itself ends at `e`.
pub data Decodes (bytes : Bytes) : ℕ → Name → ℕ → ℕ → Type 0 where
  root : {p e : ℕ} → At bytes p (0 ∷ []) → e ≡ p + 1 → Decodes bytes p [] 0 e
  label :
      {p q k e : ℕ} {n : Name} (l : Bytes)
      → IsLabel l
      → At bytes p (length l ∷ l)
      → q ≡ p + 1 + length l
      → Decodes bytes q n k e
      → Decodes bytes p (l ∷ n) k e
  jump :
      {p k e d : ℕ} {n : Name} (t : ℕ)
      → t < 0x4000
      → At bytes p (put16 (0xC000 + t))
      → e ≡ p + 2
      → Decodes bytes t n k d
      → Decodes bytes p n (suc k) e

pub Decodes-more :
    {bytes : Bytes} {p k e : ℕ} {n : Name} (rest : Bytes)
    → Decodes bytes p n k e
    → Decodes (bytes ++ rest) p n k e
Decodes-more rest (root a h) = root (At-more rest a) h
Decodes-more rest (label l il a h d) = label l il (At-more rest a) h (Decodes-more rest d)
Decodes-more rest (jump t lt a h d) = jump t lt (At-more rest a) h (Decodes-more rest d)

-- One round of the reader at each of the three forms.
read_round-root :
    (bytes : Bytes) (c : Cursor)
    → At bytes c.p (0 ∷ [])
    → read_round bytes c ≡ finish c.out (if c.jumped then c.pos else c.p + 1)
unfolding read_round
read_round-root bytes c a = ground (arith, At-byte 0 a, At-le (0 ∷ []) a)

read_round-label :
    (bytes : Bytes) (c : Cursor) (l : Bytes)
    → IsLabel l
    → At bytes c.p (length l ∷ l)
    → c.total + (length l + 1) ≤ 255
    → read_round bytes c
      ≡ more (record c {
        p = c.p + 1 + length l;
        total = c.total + (length l + 1);
        out = c.out ++ (l ∷ []);
      })
unfolding read_round
read_round-label bytes c l il a h =
    rw (At-byte (length l) (At-left (length l ∷ []) l a))
      (rw (At-slice l (At-right (length l ∷ []) l a)) (ground (arith, At-le (length l ∷ l) a)))

read_round-jump :
    (bytes : Bytes) (c : Cursor) (t : ℕ)
    → t < 0x4000
    → At bytes c.p (put16 (0xC000 + t))
    → c.jumps < 32
    → read_round bytes c
      ≡ more (record c {
        p = t;
        pos = if c.jumped then c.pos else c.p + 2;
        jumped = true;
        jumps = c.jumps + 1;
      })
unfolding read_round put16
read_round-jump bytes c t lt a h =
    let hi = (0xC000 + t) / 256 % 256 in
    let lo = (0xC000 + t) % 256 in
    rw (At-byte hi (At-left (hi ∷ []) (lo ∷ []) a))
      (rw (At-byte lo (At-right (hi ∷ []) (lo ∷ []) a)) (ground (arith, At-le (hi ∷ lo ∷ []) a)))

after_label : Cursor → Bytes → Cursor
after_label c l = record c {
  p = c.p + 1 + length l;
  total = c.total + (length l + 1);
  out = c.out ++ (l ∷ []);
}

after_jump : Cursor → ℕ → Cursor
after_jump c t = record c {
  p = t;
  pos = if c.jumped then c.pos else c.p + 2;
  jumped = true;
  jumps = c.jumps + 1;
}

read_labels-Decodes :
    (bytes : Bytes) (fuel : ℕ) (p k e : ℕ) (n : Name) (c : Cursor)
    → Decodes bytes p n k e
    → c.p ≡ p
    → length n + k < fuel
    → c.jumps + k ≤ 32
    → c.total + wire_size n ≤ 255
    → read_labels fuel bytes c ≡ ok (c.out ++ n, if c.jumped then c.pos else e)
unfolding read_labels after_label after_jump
read_labels-Decodes bytes zero p k e n c d at f j t = elim f [ ]
read_labels-Decodes bytes (suc fuel) p k e n c (root a h) at f j t =
    rw (read_round-root bytes c (rw at a), read_labels) (ground (arith, append-nil c.out))
read_labels-Decodes bytes (suc fuel) p k e n c (label {q = q} {n = n'} l il a h d) at f j t =
    rw (read_round-label bytes c l il (rw at a) (omega arith), read_labels)
      (read_labels-Decodes bytes fuel q k e n' (after_label c l) d (omega arith) (omega arith) j
          (omega arith)
        ∙ rw (append_assoc c.out (l ∷ []) n'))
read_labels-Decodes bytes (suc fuel) p k e n c (jump {k = k'} {d = e'} t lt a h d) at f j tot =
    rw (read_round-jump bytes c t lt (rw at a) (omega arith), read_labels)
      (read_labels-Decodes bytes fuel t k' e' n (after_jump c t) d refl (omega arith) (omega arith)
          tot
        ∙ ground arith)

-- A position that means a name of at most 255 bytes through at most 32 jumps is read as that name.
pub read_name-Decodes :
    {bytes : Bytes} {p k e : ℕ} {n : Name}
    → Decodes bytes p n k e
    → length n ≤ 127
    → k ≤ 32
    → wire_size n ≤ 255
    → read_name bytes p ≡ ok (n, e)
unfolding read_name
read_name-Decodes {bytes} {p} {k} {e} {n} d few j t =
    read_labels-Decodes bytes name_fuel p k e n (cursor_at p) d refl (omega arith) (omega arith)
      (omega arith)
