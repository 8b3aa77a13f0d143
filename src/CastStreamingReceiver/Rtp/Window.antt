-- ===== src/CastStreamingReceiver/Rtp/Window.antt =====
-- The window of frames: what is pending lies behind the checkpoint and within 120 frames of it.
use air_show.Prelude.{
  ◌∙◌, ℕ, zero, suc, ◌+◌, ◌%◌, ◌≤◌, ◌<◌, ◌≡◌, refl, Bool, true, false, List, [], ◌∷◌, Option, none,
  some, Bytes, length, get_or, arith, ltb, ◌==◌, if◌then◌else◌, inl, inr, Bool-cases,
}
use air_show.CastStreamingReceiver.{
  PendingFrame, Frames, expand_frame_id, find_frame, set_frame, erase_frame,
}
use air_show.CastStreamingReceiver.Rtp.{replicate, set_at, pending_frame, add_packet}

-- A frame identifier is recovered from its low eight bits whenever it lies in the window of the
-- reference, 128 below to 127 above, the reference being at least 129 as stored.
pub expand_frame_id-low_byte :
    (reference id : ℕ)
    → 129 ≤ reference
    → reference ≤ id + 128
    → id ≤ reference + 127
    → expand_frame_id reference (id % 256) ≡ id
unfolding expand_frame_id
expand_frame_id-low_byte reference id old low high = ground (arith, old, low, high)

-- How many packets of a frame are there.
abbrev pub present : List Bool → ℕ
present [] = 0
present (x ∷ xs) = (if x then 1 else 0) + present xs

-- The vectors of a pending frame have the length that its packets announce, and `received` counts
-- what is there.
pub record IsFrame (f : PendingFrame) : Type 0 where
  pub last : ℕ
  pub announced : f.max_packet_id ≡ some last
  pub have : length f.have ≡ suc last
  pub chunks : length f.chunks ≡ suc last
  pub received : f.received ≡ present f.have

-- The keys ascend, from `low` to `high`.
abbrev pub Within : ℕ → ℕ → Frames → Type 0
Within low high [] = Unit
Within low high ((k, f) ∷ rest) = (low ≤ k) × (k ≤ high) × IsFrame f × Within (suc k) high rest

pub Within-more :
    (low high top : ℕ) (frames : Frames)
    → high ≤ top
    → Within low high frames
    → Within low top frames
Within-more low high top [] le h = tt
Within-more low high top ((k, f) ∷ rest) le (a, b, c, h) =
    (a, omega (arith, le, b), c, Within-more (suc k) high top rest le h)

pub Within-low :
    (low down high : ℕ) (frames : Frames)
    → down ≤ low
    → Within low high frames
    → Within down high frames
Within-low low down high [] le h = tt
Within-low low down high ((k, f) ∷ rest) le (a, b, c, h) = (omega (arith, le, a), b, c, h)

pub set_frame-Within :
    (id : ℕ) (g : PendingFrame) (low high : ℕ) (frames : Frames)
    → low ≤ id
    → id ≤ high
    → IsFrame g
    → Within low high frames
    → Within low high (set_frame id g frames)
unfolding set_frame
set_frame-Within id g low high [] a b ok h = (a, b, ok, tt)
set_frame-Within id g low high ((k, f) ∷ rest) a b ok (c, d, e, h) = elim (Bool-cases (ltb id k)) [
  | inl before ↦ rw before (a, b, ok, (ground arith, d, e, h))
  | inr behind ↦ elim (Bool-cases (k == id)) [
    | inl same ↦ rw (behind, same) (c, d, ok, h)
    | inr other ↦
        rw (behind, other) (c, d, e, set_frame-Within id g (suc k) high rest (ground arith) b ok h)
  ]
]

pub find_frame-IsFrame :
    (id low high : ℕ) (frames : Frames) (f : PendingFrame)
    → Within low high frames
    → find_frame id frames ≡ some f
    → IsFrame f × (id ≤ high)
unfolding find_frame
find_frame-IsFrame id low high [] f h e = absurd (ground arith)
find_frame-IsFrame id low high ((k, g) ∷ rest) f (a, b, c, h) e = elim (Bool-cases (k == id)) [
  | inl same ↦ found_here g f (ground (arith, e)) (c, ground arith)
  | inr other ↦ find_frame-IsFrame id (suc k) high rest f h (ground (arith, e))
]
  where
    found_here : (x y : PendingFrame) → x ≡ y → IsFrame x × (id ≤ high) → IsFrame y × (id ≤ high)
    found_here x y same p = rw⁻¹ same p

pub erase_frame-Within :
    (low high : ℕ) (frames : Frames)
    → Within low high frames
    → Within (suc low) high (erase_frame low frames)
unfolding erase_frame
erase_frame-Within low high [] h = tt
erase_frame-Within low high ((k, f) ∷ rest) (a, b, c, h) = elim (Bool-cases (k == low)) [
  | inl same ↦ rw same (Within-low (suc k) (suc low) high rest (ground arith) h)
  | inr other ↦ rw other (ground arith, b, c, rw (erase-other low k high rest (ground arith) h) h)
]
  where
    erase-other :
        (low k high : ℕ) (rest : Frames)
        → low ≤ k
        → Within (suc k) high rest
        → erase_frame low rest ≡ rest
    erase-other low k high [] le h = refl
    erase-other low k high ((j, g) ∷ rest) le (a, b, c, h) =
        ground (arith, le, a, erase-other low j high rest (omega (arith, le, a)) h)

length-replicate : {A : Type 0} (n : ℕ) (x : A) → length (replicate n x) ≡ n
unfolding replicate
length-replicate zero x = refl
length-replicate (suc n) x = omega (arith, length-replicate n x)

present-replicate : (n : ℕ) → present (replicate n false) ≡ 0
unfolding replicate
present-replicate zero = refl
present-replicate (suc n) = omega (arith, present-replicate n)

length-set_at : {A : Type 0} (i : ℕ) (v : A) (xs : List A) → length (set_at i v xs) ≡ length xs
unfolding set_at
length-set_at i v [] = refl
length-set_at zero v (x ∷ xs) = refl
length-set_at (suc i) v (x ∷ xs) = omega (arith, length-set_at i v xs)

present-set_at :
    (i : ℕ) (xs : List Bool)
    → i < length xs
    → get_or xs i false ≡ false
    → present (set_at i true xs) ≡ suc (present xs)
unfolding set_at
present-set_at i [] lt h = elim lt [ ]
present-set_at zero (x ∷ xs) lt h = ground (arith, h)
present-set_at (suc i) (x ∷ xs) lt h = omega (arith, present-set_at i xs (omega (arith, lt)) h)

pub pending_frame-IsFrame :
    (m : ℕ) (o : Option PendingFrame)
    → ((f : PendingFrame) → o ≡ some f → IsFrame f)
    → IsFrame (pending_frame m o)
unfolding pending_frame
pending_frame-IsFrame m none h = record {
  last = m;
  announced = refl;
  have = omega (arith, length-replicate (m + 1) false);
  chunks = omega (arith, length-replicate {A = Bytes} (m + 1) []);
  received = omega (arith, present-replicate (m + 1));
}
pending_frame-IsFrame m (some f) h = h f refl

pub add_packet-IsFrame :
    (packet_id : ℕ) (key : Bool) (chunk : Bytes) (f : PendingFrame)
    → (h : IsFrame f) → packet_id ≤ h.last
    → IsFrame (add_packet packet_id key chunk f)
unfolding add_packet
add_packet-IsFrame packet_id key chunk f h le = elim (Bool-cases (get_or f.have packet_id false)) [
  | inl e ↦ rw e (record {
    last = h.last;
    announced = h.announced;
    have = h.have;
    chunks = h.chunks;
    received = h.received;
  })
  | inr e ↦ rw e (record {
    last = h.last;
    announced = h.announced;
    have = length-set_at packet_id true f.have ∙ h.have;
    chunks = length-set_at packet_id chunk f.chunks ∙ h.chunks;
    received =
        omega (arith, h.received, present-set_at packet_id f.have (omega (arith, le, h.have)) e);
  })
]
