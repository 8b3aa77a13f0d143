-- ===== src/CastSession/Framing/Whole.antt =====
-- The stream is cut into exactly the messages that were sent.
use air_show.Prelude.{
  ◌≡◌, refl, ◌∙◌, ap, ℕ, zero, suc, ◌+◌, ◌%◌, false, ◌≤◌, ◌<◌, true, List, [], ◌∷◌, ◌++◌, some, ltb,
  Bytes, length, length-append, take-append, drop-append, All, arith,
}
use mathlib.Core.List.{append_assoc}
use air_show.Dns.Wire.{be32, put32}
use air_show.Dns.Wire.At.{At-be32}
use air_show.CastSession.{Env, Session}
use air_show.CastSession.Framing.{
  Input, reading_header, reading_payload, read_header, read_payload, take_payload, read_loop,
  on_ready_read, as_int,
}

-- What the sender writes for a message of so many bytes.
abbrev pub frame_of : Bytes → Bytes
frame_of payload = put32 (length payload) ++ payload

abbrev pub frames_of : List Bytes → Bytes
frames_of [] = []
frames_of (p ∷ ps) = frame_of p ++ frames_of ps

-- Between two messages, with these bytes read.
abbrev pub between : Bytes → Input
between bytes = record { buffer = bytes; read_state = reading_header; expected_len = 0 }

frame-size : (p rest : Bytes) → length p < 4294967296 → be32 (frame_of p ++ rest) 0 ≡ length p
frame-size p rest h = At-be32 (length p) h (record {
  before = [];
  after = p ++ rest;
  splits = append_assoc (put32 (length p)) p rest;
  placed = refl;
})

-- The state is between messages; what was expected last plays no part.
abbrev pub after : ℕ → Bytes → Input
after last bytes = record { buffer = bytes; read_state = reading_header; expected_len = last }

read_header-frame :
    (p rest : Bytes) (last : ℕ)
    → length p < 4294967296
    → read_header (after last (frame_of p ++ rest))
      ≡ some (record { buffer = p ++ rest; read_state = reading_payload; expected_len = length p })
unfolding read_header put32
read_header-frame p rest last h =
    let enough : ltb (length (frame_of p ++ rest)) 4 ≡ false = ground arith in
    rw (enough, read_header) (rw (frame-size p rest h) refl)

read_payload-whole :
    (p rest : Bytes)
    → length p < 2147483648
    → length (p ++ rest) < 4294967296
    → read_payload
        (record { buffer = p ++ rest; read_state = reading_payload; expected_len = length p })
      ≡ some (p, after (length p) rest)
unfolding read_payload
read_payload-whole p rest small fits =
    let whole : ltb (length (p ++ rest) % 4294967296) (length p) ≡ false =
      ground (arith, length-append p rest) in
    let int : as_int (length p) ≡ length p = ground arith in
    rw (whole, read_payload) (rw int (rw (take-append p rest, drop-append p rest) refl))

-- The length that was expected last.
abbrev pub last_of : ℕ → List Bytes → ℕ
last_of last [] = last
last_of last (p ∷ ps) = last_of (length p) ps

-- A length that is positive as an `int`.
abbrev pub IsMessage : Bytes → Type 0
IsMessage p = length p < 2147483648

length-frames_of : (ps : List Bytes) → length ps ≤ length (frames_of ps)
unfolding put32
length-frames_of [] = omega arith
length-frames_of (p ∷ ps) = omega (arith, length-frames_of ps, length-append p (frames_of ps))

length-frame_of :
    (p more rest : Bytes)
    → length ((frame_of p ++ more) ++ rest) ≡ 4 + length p + length (more ++ rest)
unfolding put32
length-frame_of p more rest =
    omega (
      arith,
      length-append (frame_of p ++ more) rest,
      length-append p more,
      length-append more rest,
    )

module _ {Json : Type 0} (env : Env Json) where
  abbrev pub take_all : List Bytes → Session → Session
  take_all [] s = s
  take_all (p ∷ ps) s = take_all ps (take_payload env p s)

  read_loop-frame :
      (fuel last : ℕ) (p rest : Bytes) (s : Session)
      → IsMessage p
      → length (p ++ rest) < 4294967296
      → read_loop env (suc fuel) (after last (frame_of p ++ rest)) s
        ≡ read_loop env fuel (after (length p) rest) (take_payload env p s)
  unfolding read_loop
  read_loop-frame fuel last p rest s h fits =
      rw (read_header-frame p rest last (omega (arith, h)), read_loop)
        (rw (read_payload-whole p rest h fits) refl)

  read_loop-frames :
      (fuel last : ℕ) (ps : List Bytes) (rest : Bytes) (s : Session)
      → All IsMessage ps
      → length ps < fuel
      → length rest < 4
      → length (frames_of ps ++ rest) < 4294967296
      → read_loop env fuel (after last (frames_of ps ++ rest)) s
        ≡ (after (last_of last ps) rest, take_all ps s)
  unfolding read_loop read_header
  read_loop-frames zero last ps rest s h some_fuel short fits = absurd (omega (arith, some_fuel))
  read_loop-frames (suc fuel) last [] rest s h some_fuel short fits =
      let stops : ltb (length rest) 4 ≡ true = ground (arith, short) in rw (stops, read_loop) refl
  read_loop-frames (suc fuel) last (p ∷ ps) rest s h some_fuel short fits =
      let sizes = length-frame_of p (frames_of ps) rest in
      let p_size = length-append p (frames_of ps ++ rest) in
      ap (λ b. read_loop env (suc fuel) (after last b) s)
        (append_assoc (frame_of p) (frames_of ps) rest)
      ∙ read_loop-frame fuel last p (frames_of ps ++ rest) s h.0
          (omega (arith, fits, sizes, p_size))
      ∙ read_loop-frames fuel (length p) ps rest (take_payload env p s) h.1
          (omega (arith, some_fuel)) short (omega (arith, fits, sizes, p_size))

  -- What comes in at once as whole messages below 2 ^ 31 bytes and less than a header, below 2 ^ 32 bytes
  -- in all, is dispatched message by message, in order and to the end, and what is left waits in the
  -- buffer.
  pub on_ready_read-frames :
      (last : ℕ) (ps : List Bytes) (rest : Bytes) (s : Session)
      → All IsMessage ps
      → length rest < 4
      → length (frames_of ps ++ rest) < 4294967296
      → on_ready_read env (frames_of ps ++ rest) (after last []) s
        ≡ (after (last_of last ps) rest, take_all ps s)
  unfolding on_ready_read
  on_ready_read-frames last ps rest s h short fits =
      read_loop-frames (suc (length (frames_of ps ++ rest))) last ps rest s h
        (omega (arith, length-frames_of ps, length-append (frames_of ps) rest)) short fits
