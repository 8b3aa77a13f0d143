-- ===== src/AirShowHandler/Frames.antt =====
-- The framing of the stream: how the read buffer is cut into frames, and when the loop ends.
use air_show.Prelude.{
  none_not_some, take-append-drop, length-take, some_injective, take-append_le, drop-append_le,
  get_or-append_lt, ◌⊎◌, ℕ, zero, suc, ◌+◌, ◌^◌, ◌≤◌, ◌<◌, ◌≡◌, refl, sym, ap, ◌∙◌, List, [], ◌∷◌,
  ◌++◌, none, some, ltb, Bytes, length, All, arith, length-append, length-drop, take-append,
  drop-append, Bool-cases, Option-cases, inl, inr,
}
use mathlib.Core.List.{append_assoc}
use air_show.Dns.Wire.{be32, put32}
use air_show.Dns.Wire.At.{At-be32}
use air_show.AirShowHandler.{
  FrameHeader, push_audio_frame, slice, push_video_frame, Library, Handler, frame_total, next_frame,
  frame_header_size, process_frame, process_typed, parse_frame_header, handle_streaming_data,
}

-- A frame on the wire: the header, whose last two bytes are reserved, and the payload.
pub record Frame : Type 0 where
  pub type : ℕ
  pub flags : ℕ
  pub pts_high : ℕ
  pub pts_low : ℕ
  pub payload : Bytes

-- A payload below 2 ^ 31 - 16 bytes: the size of the frame is a positive `int`.
abbrev pub IsFrame : Frame → Type 0
IsFrame f = length f.payload < 2147483632

abbrev pub encode : Frame → Bytes
encode f =
    (f.type ∷ f.flags ∷ [])
    ++ (put32 (length f.payload) ++ (put32 f.pts_high ++ (put32 f.pts_low ++ (0 ∷ 0 ∷ f.payload))))

abbrev pub encode_all : List Frame → Bytes
encode_all [] = []
encode_all (f ∷ fs) = encode f ++ encode_all fs

length-encode : (f : Frame) → length (encode f) ≡ 16 + length f.payload
unfolding put32
length-encode f = omega arith

encode-size : (f : Frame) (rest : Bytes) → IsFrame f → be32 (encode f ++ rest) 2 ≡ length f.payload
encode-size f rest h = At-be32 (length f.payload) (omega arith) (record {
  before = f.type ∷ f.flags ∷ [];
  after = (put32 f.pts_high ++ (put32 f.pts_low ++ (0 ∷ 0 ∷ f.payload))) ++ rest;
  splits = simp append_assoc;
  placed = refl;
})

-- The first frame of the buffer is cut off exactly, whatever stands behind it.
pub next_frame-encode :
    (f : Frame) (rest : Bytes) → IsFrame f → next_frame (encode f ++ rest) ≡ some (encode f, rest)
unfolding next_frame
next_frame-encode f rest h =
    let n = length f.payload in
    let size = length-encode f in
    let all = length-append (encode f) rest in
    let total : frame_total n ≡ length (encode f) = omega (arith, size) in
    rw (encode-size f rest h) (
      rw total (
        rw (take-append (encode f) rest)
          (rw (drop-append (encode f) rest) (ground (arith, all, size)))))

-- A round of the loop shortens the buffer or leaves all as it is.
next_frame-cases :
    (buffer frame rest : Bytes)
    → next_frame buffer ≡ some (frame, rest)
    → (length rest < length buffer) ⊎ ((frame ≡ []) × (rest ≡ buffer))
unfolding next_frame
next_frame-cases buffer frame rest e = elim (Bool-cases (ltb (length buffer) frame_header_size)) [
  | inl small ↦ ground (arith, e, small)
  | inr room ↦ ground (arith, length-drop (frame_total (be32 buffer 2)) buffer, room)
]

next_frame-pieces :
    (buffer frame rest : Bytes) → next_frame buffer ≡ some (frame, rest) → frame ++ rest ≡ buffer
unfolding next_frame
next_frame-pieces buffer frame rest e =
    ground (arith, e, take-append-drop (frame_total (be32 buffer 2)) buffer)

-- A round that takes nothing off the buffer has found a size that is no positive `int`.
next_frame-huge :
    (buffer rest : Bytes)
    → next_frame buffer ≡ some ([], rest)
    → (16 ≤ length buffer) × (2147483632 ≤ be32 buffer 2)
unfolding next_frame
next_frame-huge buffer rest e =
    let n = frame_total (be32 buffer 2) in ground (arith, e, length-take n buffer)

-- Somewhere in the buffer stands what reads as a header with a payload of 2 ^ 31 - 16 bytes or more.
abbrev pub HasHuge : Bytes → Type 0
HasHuge buffer =
    (front : Bytes) × (back : Bytes) × (front ++ back ≡ buffer)
    × (16 ≤ length back)
    × (2147483632 ≤ be32 back 2)

HasHuge-later : (frame rest buffer : Bytes) → frame ++ rest ≡ buffer → HasHuge rest → HasHuge buffer
HasHuge-later frame rest buffer e (front, back, splits, room, huge) = (
  frame ++ front,
  back,
  append_assoc frame front back ∙ ap (λ l. frame ++ l) splits ∙ e,
  room,
  huge,
)

be32-append : (x y : Bytes) (k : ℕ) → k + 3 < length x → be32 (x ++ y) k ≡ be32 x k
unfolding be32
be32-append x y k lt =
    rw
      (
        get_or-append_lt k x y 0 (omega arith),
        get_or-append_lt (k + 1) x y 0 (omega arith),
        get_or-append_lt (k + 2) x y 0 (omega arith),
        get_or-append_lt (k + 3) x y 0 (omega arith),
      )
      refl

-- A frame is cut off the same whatever more bytes follow.
next_frame-append :
    (x y frame rest : Bytes)
    → next_frame x ≡ some (frame, rest)
    → next_frame (x ++ y) ≡ some (frame, rest ++ y)
unfolding next_frame
next_frame-append x y frame rest e =
    let room : 16 ≤ length x = ground (arith, e) in
    let n = frame_total (be32 x 2) in
    let all = length-append x y in
    rw (be32-append x y 2 (omega (arith, room))) (elim (Bool-cases (ltb n (2 ^ 31))) [
      | inl positive ↦
          let fits : n ≤ length x = ground (arith, e, positive, room) in
          rw (take-append_le n x y fits, drop-append_le n x y fits)
            (ground (arith, e, all, positive, room, fits))
      | inr negative ↦ ground (arith, e, all, negative, room)
    ])

module _ {Value : Type 0} (lib : Library Value) where
  -- The frames in their order, each with what follows it left in the buffer.
  pub process_all : List Frame → Bytes → Handler Value → Handler Value
  process_all [] tail h = record h { read_buffer = tail }
  process_all (f ∷ fs) tail h =
      process_all fs tail
        (process_frame lib (encode f) (record h { read_buffer = encode_all fs ++ tail }))

  process_typed-buffer :
      (f : FrameHeader) (payload buffer : Bytes) (h : Handler Value)
      → process_typed lib f payload (record h { read_buffer = buffer })
        ≡ record (process_typed lib f payload h) { read_buffer = buffer }
  unfolding process_typed push_video_frame push_audio_frame
  process_typed-buffer f payload buffer h = ground arith

  -- A frame is processed without a look at the read buffer, which it leaves alone.
  process_frame-buffer :
      (frame buffer : Bytes) (h : Handler Value)
      → process_frame lib frame (record h { read_buffer = buffer })
        ≡ record (process_frame lib frame h) { read_buffer = buffer }
  unfolding process_frame
  process_frame-buffer frame buffer h = elim (Option-cases (parse_frame_header frame)) [
    | inl e ↦ rw (e, process_frame) refl
    | inr (f, e) ↦ rw (e, process_frame) (process_typed-buffer f (slice frame 16 f.length) buffer h)
  ]

  handle-more :
      (fuel : ℕ) (h : Handler Value) (frame rest : Bytes)
      → next_frame h.read_buffer ≡ some (frame, rest)
      → handle_streaming_data lib (suc fuel) h
        ≡ handle_streaming_data lib fuel (process_frame lib frame (record h { read_buffer = rest }))
  unfolding handle_streaming_data
  handle-more fuel h frame rest e = rw (e, handle_streaming_data) refl

  handle-stop :
      (fuel : ℕ) (h : Handler Value)
      → next_frame h.read_buffer ≡ none
      → handle_streaming_data lib (suc fuel) h ≡ some h
  unfolding handle_streaming_data
  handle-stop fuel h e = rw (e, handle_streaming_data) refl

  -- A buffer that holds whole frames and an incomplete one is taken apart into just these frames, each
  -- processed once and in order, and the incomplete frame stays for the bytes still to come.
  pub handle_streaming_data-encode_all :
      (fs : List Frame) (tail : Bytes) (fuel : ℕ) (h : Handler Value)
      → All IsFrame fs
      → next_frame tail ≡ none
      → length fs < fuel
      → h.read_buffer ≡ encode_all fs ++ tail
      → handle_streaming_data lib fuel h ≡ some (process_all fs tail h)
  unfolding process_all
  handle_streaming_data-encode_all fs tail zero h good stop lt at = elim lt [ ]
  handle_streaming_data-encode_all [] tail (suc fuel) h good stop lt at =
      handle-stop fuel h (rw at stop) ∙ ground arith
  handle_streaming_data-encode_all (f ∷ fs) tail (suc fuel) h good stop lt at =
      let rest = encode_all fs ++ tail in
      let h1 = process_frame lib (encode f) (record h { read_buffer = rest }) in
      let split : next_frame h.read_buffer ≡ some (encode f, rest) =
        rw (at, append_assoc (encode f) (encode_all fs) tail) (next_frame-encode f rest good.0) in
      let kept : h1.read_buffer ≡ rest =
        ap (λ (x : Handler Value). x.read_buffer) (process_frame-buffer (encode f) rest h) in
      handle-more fuel h (encode f) rest split
      ∙ handle_streaming_data-encode_all fs tail fuel h1 good.1 stop (omega arith) kept

  process_frame-nil : (h : Handler Value) → process_frame lib [] h ≡ h
  unfolding process_frame parse_frame_header
  process_frame-nil h = refl

  handle-zero : (h : Handler Value) → handle_streaming_data lib zero h ≡ none
  unfolding handle_streaming_data
  handle-zero h = refl

  stuck :
      (fuel : ℕ) (h : Handler Value)
      → next_frame h.read_buffer ≡ some ([], h.read_buffer)
      → handle_streaming_data lib fuel h ≡ none
  unfolding handle_streaming_data
  stuck zero h e = refl
  stuck (suc fuel) h e =
      handle-more fuel h [] h.read_buffer e ∙ rw process_frame-nil (stuck fuel h e)

  -- A header that announces between 2 ^ 31 - 16 and 2 ^ 32 - 16 bytes makes the loop run for ever: the
  -- size of the frame is 0 or negative as an `int`, so nothing is taken off the buffer.
  pub handle_streaming_data-huge :
      (fuel : ℕ) (h : Handler Value)
      → 16 ≤ length h.read_buffer
      → 2147483632 ≤ be32 h.read_buffer 2
      → be32 h.read_buffer 2 ≤ 4294967280
      → handle_streaming_data lib fuel h ≡ none
  unfolding next_frame
  handle_streaming_data-huge fuel h room lo hi = stuck fuel h (ground arith)

  -- More fuel than the buffer has bytes brings the loop to its end, unless sixteen bytes somewhere in the
  -- buffer, read as a header, announce a payload of 2 ^ 31 - 16 bytes or more.
  pub handle_streaming_data-ends :
      (fuel : ℕ) (h : Handler Value)
      → length h.read_buffer < fuel
      → ((h' : Handler Value) × (handle_streaming_data lib fuel h ≡ some h'))
        ⊎ HasHuge h.read_buffer
  handle_streaming_data-ends zero h lt = elim lt [ ]
  handle_streaming_data-ends (suc fuel) h lt = elim (Option-cases (next_frame h.read_buffer)) [
    | inl e ↦ inl (h, handle-stop fuel h e)
    | inr ((frame, rest), e) ↦ elim (next_frame-cases h.read_buffer frame rest e) [
      | inl shorter ↦
          let h1 = process_frame lib frame (record h { read_buffer = rest }) in
          let kept : h1.read_buffer ≡ rest =
            ap (λ (x : Handler Value). x.read_buffer) (process_frame-buffer frame rest h) in
          elim (handle_streaming_data-ends fuel h1 (rw kept (omega (arith, shorter)))) [
            | inl (h2, ends) ↦ inl (h2, handle-more fuel h frame rest e ∙ ends)
            | inr huge ↦ inr (
                HasHuge-later frame rest h.read_buffer
                  (next_frame-pieces h.read_buffer frame rest e) (rw⁻¹ kept huge))
          ]
      | inr (nil, same) ↦
          let huge = next_frame-huge h.read_buffer rest (e ∙ rw nil refl) in
          inr ([], h.read_buffer, refl, huge.0, huge.1)
    ]
  ]

  -- Bytes that come in two pieces do what they do in one: where the loop ends on the first piece, and on
  -- what it left with the second behind it, it ends in the same way on both together.
  pub handle_streaming_data-append :
      (f1 f2 : ℕ) (h h1 h2 : Handler Value) (more : Bytes)
      → handle_streaming_data lib f1 h ≡ some h1
      → handle_streaming_data lib f2 (record h1 { read_buffer = h1.read_buffer ++ more }) ≡ some h2
      → (n : ℕ) × (handle_streaming_data lib n (record h { read_buffer = h.read_buffer ++ more })
          ≡ some h2)
  handle_streaming_data-append zero f2 h h1 h2 more a b =
      absurd (none_not_some (sym (handle-zero h) ∙ a))
  handle_streaming_data-append (suc f1) f2 h h1 h2 more a b =
      elim (Option-cases (next_frame h.read_buffer)) [
        | inl e ↦
            let same : h ≡ h1 = some_injective (sym (handle-stop f1 h e) ∙ a) in (f2, rw same b)
        | inr ((frame, rest), e) ↦
            let hr : Handler Value = record h { read_buffer = rest } in
            let again =
              handle_streaming_data-append f1 f2 (process_frame lib frame hr) h1 h2 more
                (sym (handle-more f1 h frame rest e) ∙ a) b in
            let kept : process_frame lib frame (record h { read_buffer = rest ++ more })
                ≡ record (process_frame lib frame hr) {
                  read_buffer = (process_frame lib frame hr).read_buffer ++ more;
                } =
              process_frame-buffer frame (rest ++ more) h
              ∙ sym (
                  ap (λ (x : Handler Value). record x { read_buffer = x.read_buffer ++ more })
                    (process_frame-buffer frame rest h)) in
            (
              suc again.0,
              handle-more again.0 (record h { read_buffer = h.read_buffer ++ more }) frame
                    (rest ++ more) (next_frame-append h.read_buffer more frame rest e)
                  ∙ rw kept again.1,
            )
      ]
