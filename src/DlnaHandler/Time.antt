-- ===== src/DlnaHandler/Time.antt =====
-- Times as texts: `parseTimeString` and `formatGstTime` of src/protocol/DlnaHandler.cpp. An `int` is its
-- 32-bit pattern and a `gint64` its 64-bit pattern; the reading of "%d:%d:%d" by `sscanf` is a parameter.
use air_show.Prelude.{
  ℕ, ◌+◌, ◌-◌, ◌*◌, ◌≤◌, suc, zero, length, All, All-append, length-append, ◌/◌, ◌%◌, ◌^◌, ◌<◌, ◌≡◌,
  false, Bool-cases, inl, inr, ltb, refl, ap, ◌∙◌, [], ◌∷◌, ◌++◌, Option, none, some, if◌then◌else◌,
  leb, Bytes, arith,
}
use air_show.MdnsResponder.Labels.{decimal, to_string}
use air_show.DlnaHandler.Names.{no_time_text}

abbrev pub second : ℕ
second = 1000000000

-- An `int` as a `gint64`.
abbrev pub widened : ℕ → ℕ
widened v = if leb (2 ^ 31) v then v + (2 ^ 64 - 2 ^ 32) else v

unfoldable pub parse_time_string : (Bytes → Option (ℕ × ℕ × ℕ)) → Bytes → ℕ
parse_time_string scan text = elim (scan text) [
  | none ↦ 0
  | some (h, m, s) ↦ widened ((h * 3600 + m * 60 + s) % 2 ^ 32) * second % 2 ^ 64
]

-- "%02d" of a number below 100.
abbrev pub two_digits : ℕ → Bytes
two_digits n = (48 + n / 10) ∷ (48 + n % 10) ∷ []

-- "%d:%02d:%02d".
unfoldable pub time_text : ℕ → ℕ → ℕ → Bytes
unfolding to_string
time_text h m s = to_string h ++ (b':' ∷ two_digits m ++ (b':' ∷ two_digits s))

unfoldable pub format_gst_time : ℕ → Bytes
unfolding time_text
format_gst_time ns =
    let total = ns / second in
    if leb (2 ^ 63) ns
    then no_time_text
    else time_text (total / 3600) (total % 3600 / 60) (total % 60)

parse_time_string-read :
    (scan : Bytes → Option (ℕ × ℕ × ℕ)) (text : Bytes) (h m s : ℕ)
    → scan text ≡ some (h, m, s)
    → parse_time_string scan text ≡ widened ((h * 3600 + m * 60 + s) % 2 ^ 32) * second % 2 ^ 64
unfolding parse_time_string
parse_time_string-read scan text h m s read = rw (parse_time_string, read) refl

widened-small : (n : ℕ) → n < 2 ^ 31 → widened n * second % 2 ^ 64 ≡ n * second
widened-small n small = ground arith

-- What `sscanf` makes of decimal digits.
abbrev pub value_from : ℕ → Bytes → ℕ
value_from n [] = n
value_from n (c ∷ cs) = value_from (n * 10 + (c - 48)) cs

abbrev pub IsDigit : ℕ → Type 0
IsDigit c = (48 ≤ c) × (c ≤ 57)

abbrev pub IsNumber : Bytes → Type 0
IsNumber text = All IsDigit text × (0 < length text)

-- "%d:%d:%d" reads three numbers with colons between, and stores each as an `int`.
abbrev pub IsScanf : (Bytes → Option (ℕ × ℕ × ℕ)) → Type 0
IsScanf scan =
    (x y z : Bytes)
    → IsNumber x
    → IsNumber y
    → IsNumber z
    → value_from 0 x < 2 ^ 31
    → value_from 0 y < 2 ^ 31
    → value_from 0 z < 2 ^ 31
    → scan (x ++ (b':' ∷ y ++ (b':' ∷ z))) ≡ some (value_from 0 x, value_from 0 y, value_from 0 z)

value_from-append :
    (n : ℕ) (x : Bytes) (c : ℕ) → value_from n (x ++ (c ∷ [])) ≡ value_from n x * 10 + (c - 48)
value_from-append n [] c = refl
value_from-append n (d ∷ x) c = value_from-append (n * 10 + (d - 48)) x c

-- The digits of a number are read as the number.
value_from-decimal : (digits n : ℕ) → n < 10 ^ digits → value_from 0 (decimal digits n) ≡ n
unfolding decimal
value_from-decimal zero n fits = omega (arith, fits)
value_from-decimal (suc digits) n fits =
    let rest = value_from-decimal digits (n / 10) (omega (arith, fits)) in
    elim (Bool-cases (ltb n 10)) [
      | inl e ↦ rw (e, decimal) (omega arith)
      | inr e ↦
          rw (e, decimal)
            (value_from-append 0 (decimal digits (n / 10)) (48 + n % 10) ∙ omega (arith, rest))
    ]

decimal-All : (digits n : ℕ) → All IsDigit (decimal digits n)
unfolding decimal
decimal-All zero n = tt
decimal-All (suc digits) n = elim (Bool-cases (ltb n 10)) [
  | inl e ↦ rw (e, decimal) (((omega arith, ground (arith, e)), tt))
  | inr e ↦
      rw (e, decimal)
        (All-append IsDigit (decimal digits (n / 10)) _ (decimal-All digits (n / 10))
          ((omega arith, omega arith), tt))
]

decimal-some : (digits n : ℕ) → 0 < length (decimal (suc digits) n)
unfolding decimal
decimal-some digits n = ground (arith, length-append (decimal digits (n / 10)) ((48 + n % 10) ∷ []))

two_digits-IsNumber : (n : ℕ) → n < 100 → IsNumber (two_digits n)
two_digits-IsNumber n small =
    (((omega arith, omega arith), ((omega arith, omega arith), tt)), omega arith)

-- A text of hours, minutes and seconds is read as these.
time_text-reads :
    (scan : Bytes → Option (ℕ × ℕ × ℕ)) (h m s : ℕ)
    → IsScanf scan
    → h < 2 ^ 31
    → m < 100
    → s < 100
    → scan (time_text h m s) ≡ some (h, m, s)
unfolding time_text to_string
time_text-reads scan h m s reads hs ms ss =
    let hour = value_from-decimal 10 h (omega (arith, hs)) in
    let minute : value_from 0 (two_digits m) ≡ m = omega arith in
    let sec : value_from 0 (two_digits s) ≡ s = omega arith in
    reads (to_string h) (two_digits m) (two_digits s) (decimal-All 10 h, decimal-some 9 h)
      (two_digits-IsNumber m ms) (two_digits-IsNumber s ss) (omega (arith, hour, hs)) (omega arith)
      (omega arith)
    ∙ ap (λ v. some (v, value_from 0 (two_digits m), value_from 0 (two_digits s))) hour
    ∙ ap (λ v. some (h, v, value_from 0 (two_digits s))) minute
    ∙ ap (λ v. some (h, m, v)) sec

-- For every function that reads "%d:%d:%d" as `sscanf` does, a time that is written and read back is the
-- time to the second, for all times below 2 ^ 31 seconds.
pub parse_time_string-format_gst_time :
    (scan : Bytes → Option (ℕ × ℕ × ℕ)) (ns : ℕ)
    → IsScanf scan
    → ns < 2 ^ 31 * second
    → parse_time_string scan (format_gst_time ns) ≡ ns / second * second
unfolding format_gst_time
parse_time_string-format_gst_time scan ns reads small =
    let total = ns / second in
    let h = total / 3600 in
    let m = total % 3600 / 60 in
    let s = total % 60 in
    let fits : leb (2 ^ 63) ns ≡ false = ground arith in
    let sum : (h * 3600 + m * 60 + s) % 2 ^ 32 ≡ total = omega arith in
    ap (λ b. parse_time_string scan (if b then no_time_text else time_text h m s)) fits
    ∙ parse_time_string-read scan (time_text h m s) h m s
        (time_text-reads scan h m s reads (omega arith) (omega arith) (omega arith))
    ∙ ap (λ n. widened n * second % 2 ^ 64) sum
    ∙ widened-small total (omega arith)
