-- ===== src/MdnsResponder/Labels.antt =====
-- Labels that fit: `fitUtf8` and the numbers of src/discovery/MdnsResponder.cpp.
use air_show.Prelude.{
  not, ◌&&◌, ◌&&◌, refl, inl, false, ◌⊎◌, ◌-◌, Bool, ℕ, zero, suc, ◌+◌, ◌/◌, ◌%◌, ◌^◌, ◌≤◌, ◌≡◌,
  refl, ◌⊎◌, inl, inr, Bool, false, List, [], ◌∷◌, ◌++◌, if◌then◌else◌, ltb, leb, ◌==◌, Bytes,
  length, get_or, take, is_empty, arith, length-take, length-append, Bool-cases,
}
use air_show.Dns.Name.{max_label}

-- `(s[n] & 0xC0) == 0x80`: a byte inside a character.
unfoldable pub is_continuation : ℕ → Bool
is_continuation b = b / 64 % 4 == 2

-- The loop of `fitUtf8`: from n down to where a character begins.
unfoldable pub char_start : ℕ → Bytes → ℕ
unfolding is_continuation
char_start zero s = zero
char_start (suc n) s =
    let rest = char_start n s in if is_continuation (get_or s (suc n) 0) then rest else suc n

unfoldable pub fit_utf8 : Bytes → ℕ → Bytes
unfolding char_start
fit_utf8 s max_bytes = if leb (length s) max_bytes then s else take (char_start max_bytes s) s

-- `std::to_string` of an `int`, which has at most ten digits.
unfoldable pub decimal : ℕ → ℕ → Bytes
decimal zero n = []
decimal (suc digits) n =
    let rest = decimal digits (n / 10) in
    if ltb n 10 then (48 + n) ∷ [] else rest ++ ((48 + n % 10) ∷ [])

unfoldable pub to_string : ℕ → Bytes
unfolding decimal
to_string n = decimal 10 n

-- The suffix of `instanceLabel`: " (2)" after a conflict.
unfoldable pub label_suffix : ℕ → Bytes
unfolding to_string
label_suffix suffix = if suffix == 1 then [] else 32 ∷ b'(' ∷ to_string suffix ++ (b')' ∷ [])

-- "AirShow".
abbrev pub default_label : Bytes
default_label = b'A' ∷ b'i' ∷ b'r' ∷ b'S' ∷ b'h' ∷ b'o' ∷ b'w' ∷ []

-- `instanceLabel`, of the requested name and the suffix. The subtraction is one of `size_t`.
unfoldable pub label_of : Bytes → ℕ → Bytes
unfolding fit_utf8 label_suffix
label_of base_name suffix =
    fit_utf8 (if is_empty base_name then default_label else base_name)
      ((max_label + (2 ^ 64 - length (label_suffix suffix))) % 2 ^ 64)
    ++ label_suffix suffix

char_start-le : (n : ℕ) (s : Bytes) → char_start n s ≤ n
unfolding char_start
char_start-le zero s = omega arith
char_start-le (suc n) s = ground (arith, char_start-le n s)

char_start-begins :
    (n : ℕ) (s : Bytes)
    → (char_start n s ≡ 0) ⊎ (is_continuation (get_or s (char_start n s) 0) ≡ false)
unfolding char_start
char_start-begins zero s = inl refl
char_start-begins (suc n) s = elim (Bool-cases (is_continuation (get_or s (suc n) 0))) [
  | inl e ↦ rw e (char_start-begins n s)
  | inr e ↦ rw e (inr e)
]

-- A text cut to a number of bytes has at most that many.
pub length-fit_utf8 : (s : Bytes) (n : ℕ) → length (fit_utf8 s n) ≤ n
unfolding fit_utf8
length-fit_utf8 s n = ground (arith, length-take (char_start n s) s, char_start-le n s)

-- A text that is cut is cut in front of a byte that begins a character, or to nothing.
pub fit_utf8-whole_characters :
    (s : Bytes) (n : ℕ)
    → (fit_utf8 s n ≡ s)
      ⊎ ((k : ℕ) × (fit_utf8 s n ≡ take k s) × ((k ≡ 0) ⊎ (is_continuation (get_or s k 0) ≡ false)))
unfolding fit_utf8
fit_utf8-whole_characters s n = elim (Bool-cases (leb (length s) n)) [
  | inl e ↦ inl (rw e refl)
  | inr e ↦ inr (char_start n s, rw e refl, char_start-begins n s)
]

length-decimal : (digits n : ℕ) → length (decimal digits n) ≤ digits
unfolding decimal
length-decimal zero n = omega arith
length-decimal (suc digits) n = ground (
  arith,
  length-decimal digits (n / 10),
  length-append (decimal digits (n / 10)) ((48 + n % 10) ∷ []),
)

length-label_suffix : (suffix : ℕ) → length (label_suffix suffix) ≤ 13
unfolding label_suffix to_string
length-label_suffix suffix =
    ground (arith, length-decimal 10 suffix, length-append (decimal 10 suffix) (b')' ∷ []))

label_of-size :
    (base suffix : Bytes)
    → length suffix ≤ 13
    → length (fit_utf8 base ((max_label + (2 ^ 64 - length suffix)) % 2 ^ 64) ++ suffix) ≤ max_label
label_of-size base suffix short = omega (
  arith,
  short,
  length-append (fit_utf8 base ((max_label + (2 ^ 64 - length suffix)) % 2 ^ 64)) suffix,
  length-fit_utf8 base ((max_label + (2 ^ 64 - length suffix)) % 2 ^ 64),
)

-- An instance name is a DNS label: whatever name was requested and however often it was changed, it
-- has at most 63 bytes, and it ends in the suffix that tells it from the names before.
pub label_of-fits :
    (base_name : Bytes) (suffix : ℕ)
    → (length (label_of base_name suffix) ≤ max_label)
      × ((start : Bytes) × (label_of base_name suffix ≡ start ++ label_suffix suffix))
unfolding label_of
label_of-fits base_name suffix = (
  label_of-size (if is_empty base_name then default_label else base_name) (label_suffix suffix)
      (length-label_suffix suffix),
  (_, refl),
)

-- The last byte of a label, 0 for none.
abbrev last : Bytes → ℕ
last [] = 0
last (x ∷ []) = x
last (x ∷ y ∷ xs) = last (y ∷ xs)

-- The body of the loop of `defaultHostLabel`, for one UTF-16 unit of the host name. Whether it is a
-- letter or a number is what Qt says.
unfoldable pub add_char : (ℕ → Bool) → ℕ → Bytes → Bytes
add_char is_letter_or_number c label =
    if ltb c 128 && is_letter_or_number c
    then label ++ (c ∷ [])
    else if not (is_empty label) && not (last label == b'-')
    then label ++ (b'-' ∷ [])
    else label

unfoldable pub reduce : (ℕ → Bool) → List ℕ → Bytes → Bytes
unfolding add_char
reduce is_letter_or_number [] label = label
reduce is_letter_or_number (c ∷ host) label =
    let rest = reduce is_letter_or_number host (add_char is_letter_or_number c label) in
    if leb 40 (length (add_char is_letter_or_number c label))
    then add_char is_letter_or_number c label
    else rest

-- The loop that takes hyphens off the end.
unfoldable pub strip : Bytes → Bytes
strip [] = []
strip (x ∷ xs) = let rest = strip xs in if is_empty rest && x == b'-' then [] else x ∷ rest

-- `defaultHostLabel`, `host` being `machineHostName().section('.', 0, 0)`.
unfoldable pub default_host_label : (ℕ → Bool) → List ℕ → Bytes
unfolding reduce strip
default_host_label is_letter_or_number host =
    let label = strip (reduce is_letter_or_number host []) in
    if is_empty label then default_label else label ++ (b'-' ∷ default_label)

-- The label of `hostFqdn`.
unfoldable pub suffixed : Bytes → ℕ → Bytes
unfolding to_string
suffixed host_label host_suffix =
    if host_suffix == 1 then host_label else host_label ++ (b'-' ∷ to_string host_suffix)

length-add_char :
    (p : ℕ → Bool) (c : ℕ) (label : Bytes) → length (add_char p c label) ≤ suc (length label)
unfolding add_char
length-add_char p c label =
    ground (arith, length-append label (c ∷ []), length-append label (b'-' ∷ []))

length-reduce :
    (p : ℕ → Bool) (host : List ℕ) (label : Bytes)
    → length label ≤ 39
    → length (reduce p host label) ≤ 40
unfolding reduce
length-reduce p [] label h = omega (arith, h)
length-reduce p (c ∷ host) label h =
    ground (arith, length-reduce p host (add_char p c label), length-add_char p c label)

length-strip : (label : Bytes) → length (strip label) ≤ length label
unfolding strip
length-strip [] = omega arith
length-strip (x ∷ xs) = ground (arith, length-strip xs)

length-default_host_label : (p : ℕ → Bool) (host : List ℕ) → length (default_host_label p host) ≤ 48
unfolding default_host_label
length-default_host_label p host = ground (
  arith,
  length-strip (reduce p host []),
  length-reduce p host [] (omega arith),
  length-append (strip (reduce p host [])) (b'-' ∷ default_label),
)

-- Whatever the machine's name and however often it had to change, the host name's label has at most
-- 63 bytes.
pub suffixed-fits :
    (p : ℕ → Bool) (host : List ℕ) (host_suffix : ℕ)
    → length (suffixed (default_host_label p host) host_suffix) ≤ max_label
unfolding suffixed to_string
suffixed-fits p host host_suffix = ground (
  arith,
  length-default_host_label p host,
  length-decimal 10 host_suffix,
  length-append (default_host_label p host) (b'-' ∷ decimal 10 host_suffix),
)
