-- ===== src/Dns/Name.antt =====
-- Domain names as their labels, and their wire form: src/discovery/DnsMessage.cpp.
-- The reader runs on fuel; `Read` keeps "out of fuel" apart from "malformed".
pub mod Bounds
pub mod Fold
pub mod Decode
use air_show.Prelude.{
  ℕ, zero, suc, ◌+◌, ◌*◌, ◌/◌, ◌%◌, min, Bool, true, false, not, ◌&&◌, ◌||◌, List, [], ◌∷◌, ◌++◌,
  map, if◌then◌else◌, leb, ltb, ◌==◌, Bytes, length, is_empty, take, drop,
}
use air_show.Dns.Wire.{byte_at, slice, lower}

abbrev pub Name : Type 0
Name = List Bytes

abbrev pub max_label : ℕ
max_label = 63

-- What a label is cut to on the wire.
abbrev pub cut : Bytes → Bytes
cut label = take (min (length label) max_label) label

-- `putPlainName`: what it appends.
unfoldable pub put_plain_name : Name → Bool → Bytes
put_plain_name [] fold = 0 ∷ []
put_plain_name (label ∷ rest) fold =
    if min (length label) max_label == 0
    then put_plain_name rest fold
    else (min (length label) max_label ∷ (if fold then map lower (cut label) else cut label))
      ++ put_plain_name rest fold

pub data Read {ℓ} (A : Type ℓ) : Type ℓ where
  ok : A → Read A
  malformed : Read A
  out_of_fuel : Read A

infixl 5 ◌>>=◌
abbrev pub ◌>>=◌ {ℓ κ} : {A : Type ℓ} {B : Type κ} → Read A → (A → Read B) → Read B
ok a >>= f = f a
malformed >>= f = malformed
out_of_fuel >>= f = out_of_fuel

-- `if (!b) return false;`
abbrev pub guard : Bool → Read (Unit {0})
guard true = ok tt
guard false = malformed

infixl 5 ◌>>◌
abbrev pub ◌>>◌ {ℓ} : {B : Type ℓ} → Read (Unit {0}) → Read B → Read B
m >> k = m >>= λ _. k

-- The locals of `readName`, `*pos` and `*out` among them.
pub record Cursor : Type 0 where
  pub p : ℕ
  pub pos : ℕ
  pub jumped : Bool
  pub jumps : ℕ
  pub total : ℕ
  pub out : Name

-- What one round of the loop does: `return false`, `return true`, or go on.
pub data Round : Type 0 where
  fail : Round
  finish : Name → ℕ → Round
  more : Cursor → Round

-- One round of `readName`. `len & 0xC0` is `len / 64 % 4 * 64`, `len & 0x3F` is `len % 64`.
unfoldable pub read_round : Bytes → Cursor → Round
read_round bytes c =
    let len = byte_at bytes c.p in
    if leb (length bytes) c.p
    then fail
    else if len / 64 % 4 * 64 == 0xC0
    then (if leb (length bytes) (c.p + 1) || ltb 32 (c.jumps + 1)
        then fail
        else more (record c {
          p = len % 64 * 256 + byte_at bytes (c.p + 1);
          pos = if c.jumped then c.pos else c.p + 2;
          jumped = true;
          jumps = c.jumps + 1;
        }))
    else if not (len / 64 % 4 * 64 == 0)
    then fail
    else if len == 0
    then finish c.out (if c.jumped then c.pos else c.p + 1)
    else if ltb (length bytes) (c.p + 1 + len) || ltb 255 (c.total + (len + 1))
    then fail
    else more (record c {
      p = c.p + 1 + len;
      total = c.total + (len + 1);
      out = c.out ++ (slice bytes (c.p + 1) len ∷ []);
    })

unfoldable pub read_labels : ℕ → Bytes → Cursor → Read (Name × ℕ)
read_labels zero bytes c = out_of_fuel
read_labels (suc fuel) bytes c = elim (read_round bytes c) [
  | fail ↦ malformed
  | finish name pos ↦ ok (name, pos)
  | more c' ↦ read_labels fuel bytes c'
]

-- At most 32 jumps and 255 bytes of labels: 288 rounds are enough.
abbrev pub name_fuel : ℕ
name_fuel = 288

abbrev pub cursor_at : ℕ → Cursor
cursor_at pos = record { p = pos; pos = pos; jumped = false; jumps = 0; total = 0; out = [] }

-- `readName` at `pos`: the labels, and the position behind them.
unfoldable pub read_name : Bytes → ℕ → Read (Name × ℕ)
unfolding read_labels
read_name bytes pos = read_labels name_fuel bytes (cursor_at pos)

-- `toString`.
join : Bytes → Name → Bytes
join s [] = s
join s (label ∷ rest) = join ((if not (is_empty s) then s ++ (b'.' ∷ []) else s) ++ label) rest

unfoldable pub to_string : Name → Bytes
unfolding join
to_string = join []

-- Labels compare ASCII case-insensitively.
unfoldable pub same_label : Bytes → Bytes → Bool
same_label [] [] = true
same_label (x ∷ a) (y ∷ b) = lower x == lower y && same_label a b
same_label _ _ = false

unfoldable pub same_name : Name → Name → Bool
unfolding same_label
same_name [] [] = true
same_name (x ∷ a) (y ∷ b) = same_label x y && same_name a b
same_name _ _ = false

-- `parseName`: `current` is the text since `start`; the end of the text ends a label too.
split_dots : Bytes → Bytes → Name
split_dots current [] = if is_empty current then [] else current ∷ []
split_dots current (c ∷ rest) =
    let after = split_dots [] rest in
    if c == b'.'
    then (if is_empty current then after else current ∷ after)
    else split_dots (current ++ (c ∷ [])) rest

unfoldable pub parse_name : Bytes → Name
unfolding split_dots
parse_name = split_dots []
