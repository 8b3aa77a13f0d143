-- ===== src/CastStreamingReceiver/Rtp.antt =====
-- RTP packets: `handleRtp` of src/cast/CastStreamingReceiver.cpp.
pub mod Window
use air_show.Prelude.{
  ℕ, zero, suc, ◌+◌, ◌-◌, ◌*◌, ◌/◌, ◌%◌, ◌^◌, max, Bool, true, false, not, ◌&&◌, ◌||◌, List, [],
  ◌∷◌, ◌++◌, Option, none, some, if◌then◌else◌, ltb, leb, ◌==◌, Bytes, length, get_or, drop,
}
use air_show.Dns.Wire.{byte_at, be16}
use air_show.CastStreamingReceiver.{
  PendingFrame, complete, StreamState, Link, Clock, expand_frame_id, max_frames_ahead, find_frame,
  set_frame,
}
use air_show.CastStreamingReceiver.Frames.{Decrypt, deliver_ready_frames}

-- The statistics of the sequence numbers.
unfoldable pub count_seq : ℕ → StreamState → StreamState
count_seq seq s =
    if not s.have_seq
    then record s { have_seq = true; max_seq = seq }
    else if ltb ((seq + 65536 - s.max_seq) % 65536) 0x8000
    then record s {
      seq_cycles = if ltb seq s.max_seq then (s.seq_cycles + 1) % 2 ^ 32 else s.seq_cycles;
      max_seq = seq;
    }
    else s

-- The loop over the extensions: where the payload begins.
unfoldable pub skip_extensions : ℕ → Bytes → ℕ → ℕ → Option ℕ
unfolding be16
skip_extensions zero d n off = if ltb n off then none else some off
skip_extensions (suc count) d n off =
    let rest = skip_extensions count d n (off + (2 + be16 d off % 1024)) in
    if ltb n (off + 2) then none else rest

unfoldable pub replicate {ℓ} : {A : Type ℓ} → ℕ → A → List A
replicate zero x = []
replicate (suc n) x = x ∷ replicate n x

unfoldable pub set_at {ℓ} : {A : Type ℓ} → ℕ → A → List A → List A
set_at i v [] = []
set_at zero v (x ∷ xs) = v ∷ xs
set_at (suc i) v (x ∷ xs) = x ∷ set_at i v xs

-- The frame of the map, with its vectors sized at its first packet.
unfoldable pub pending_frame : ℕ → Option PendingFrame → PendingFrame
unfolding replicate
pending_frame max_packet_id none = record {
  max_packet_id = some max_packet_id;
  chunks = replicate (max_packet_id + 1) [];
  have = replicate (max_packet_id + 1) false;
  received = 0;
  key_frame = false;
}
pending_frame max_packet_id (some f) = f

abbrev pub has_max : PendingFrame → ℕ → Bool
has_max f m = elim f.max_packet_id [ none ↦ false | some k ↦ k == m ]

-- A packet of a frame.
unfoldable pub add_packet : ℕ → Bool → Bytes → PendingFrame → PendingFrame
unfolding set_at
add_packet packet_id key_frame chunk f =
    let key = if packet_id == 0 then key_frame else f.key_frame in
    if get_or f.have packet_id false then record f { key_frame = key } else record f {
      key_frame = key;
      have = set_at packet_id true f.have;
      chunks = set_at packet_id chunk f.chunks;
      received = suc f.received;
    }

-- The stream with the frame in its map, `f` as it was found and `g` with the packet.
unfoldable pub store : (id max_packet_id : ℕ) → (f g : PendingFrame) → StreamState → StreamState
unfolding set_frame
store id max_packet_id f g s = record s {
  highest_frame_id = max s.highest_frame_id id;
  frames = if has_max f max_packet_id then set_frame id g s.frames else s.frames;
}

-- `handleRtp` behind the checks of the header.
unfoldable pub take_packet :
    Decrypt
    → Clock
    → (id packet_id max_packet_id : ℕ) → Bool
    → Bytes
    → StreamState × Link
    → StreamState × Link
unfolding find_frame pending_frame add_packet store complete deliver_ready_frames
take_packet decrypt clock id packet_id max_packet_id key_frame chunk (s, link) =
    let f = pending_frame max_packet_id (find_frame id s.frames) in
    let g = add_packet packet_id key_frame chunk f in
    let t = store id max_packet_id f g s in
    if has_max f max_packet_id
      && not (get_or f.have packet_id false)
      && complete g
      && id == suc s.checkpoint
    then deliver_ready_frames decrypt clock (t, link)
    else (t, link)

unfoldable pub handle_rtp : Decrypt → Clock → Bytes → StreamState × Link → StreamState × Link
unfolding count_seq skip_extensions expand_frame_id take_packet be16
handle_rtp decrypt clock d (s, link) =
    let t = count_seq (be16 d 2) s in
    let flags = byte_at d 12 in
    let id = expand_frame_id t.highest_frame_id (byte_at d 13) in
    if be16 d 16 == 0xFFFF || ltb (be16 d 16) (be16 d 14)
    then (t, link)
    else elim (skip_extensions (flags % 64) d (length d) (18 + flags / 64 % 2)) [
      | none ↦ (t, link)
      | some off ↦
          if leb id t.checkpoint || ltb (t.checkpoint + max_frames_ahead) id
          then (t, link)
          else take_packet decrypt clock id (be16 d 14) (be16 d 16) (flags / 128 % 2 == 1)
              (drop off d) (t, link)
    ]
