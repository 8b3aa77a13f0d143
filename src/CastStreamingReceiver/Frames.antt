-- ===== src/CastStreamingReceiver/Frames.antt =====
-- Delivery of frames: `deliverReadyFrames`, `deliver` and `skipStalledFrames` of
-- src/cast/CastStreamingReceiver.cpp. OpenSSL's AES-128-CTR is a parameter, with nothing for a failure.
pub mod Order
use air_show.Prelude.{
  ℕ, zero, suc, ◌+◌, ◌-◌, ◌*◌, ◌/◌, ◌%◌, ◌^◌, max, Bool, true, false, not, ◌&&◌, ◌||◌, List, [],
  ◌∷◌, ◌++◌, Option, none, some, if◌then◌else◌, ltb, leb, ◌==◌, Bytes, length, is_empty, take, drop,
}
use Prim.Native.Nat.{bit_xor}
use air_show.Dns.Wire.{put32}
use air_show.CastStreamingOffer.{Kind, audio, video, is_audio, CastStream}
use air_show.CastStreamingReceiver.{
  PendingFrame, complete, Frames, StreamState, Delivered, Link, Clock, find_frame, erase_frame,
}
use air_show.CastStreamingReceiver.Rtcp.{send_rtcp}

-- Key, counter block and data.
abbrev pub Decrypt : Type 0
Decrypt = Bytes → Bytes → Bytes → Option Bytes

unfoldable pub concat : List Bytes → Bytes
concat [] = []
concat (chunk ∷ chunks) = chunk ++ concat chunks

unfoldable pub xor_all : Bytes → Bytes → Bytes
xor_all [] ys = []
xor_all (x ∷ xs) [] = []
xor_all (x ∷ xs) (y ∷ ys) = bit_xor x y ∷ xor_all xs ys

-- `iv`: of the mask and the 32 bits of the frame's identifier.
unfoldable pub counter_block : Bytes → ℕ → Bytes
unfolding xor_all put32
counter_block mask id =
    xor_all mask (
      0 ∷ 0 ∷ 0 ∷ 0 ∷ 0 ∷ 0 ∷ 0 ∷ 0 ∷ put32 ((id + (2 ^ 32 - 256)) % 2 ^ 32)
      ++ (0 ∷ 0 ∷ 0 ∷ 0 ∷ []))

-- What has been decrypted is counted and given to the callback; after a failure nothing is.
unfoldable pub give : Option Bytes → ℕ → PendingFrame → StreamState × Link → StreamState × Link
give none id f p = p
give (some out) id f (s, link) = (
  record s { delivered = suc s.delivered },
  record link {
    output =
        record { kind = s.config.kind; frame_id = id; bytes = out; key_frame = f.key_frame }
        ∷ link.output;
  },
)

unfoldable pub deliver : Decrypt → ℕ → PendingFrame → StreamState × Link → StreamState × Link
unfolding concat counter_block give
deliver decrypt id f (s, link) =
    give (decrypt s.config.aes_key (counter_block s.config.aes_iv_mask id) (concat f.chunks)) id f
      (s, link)

-- The frame behind the checkpoint, when all of it is there.
unfoldable pub ready : StreamState → Option PendingFrame
unfolding find_frame complete
ready s = elim (find_frame (suc s.checkpoint) s.frames) [
  | none ↦ none
  | some f ↦ if complete f then some f else none
]

-- The rest of a round of the loop of `deliverReadyFrames`.
unfoldable pub move_on : PendingFrame → StreamState × Link → StreamState × Link
unfolding erase_frame
move_on f (s, link) = (
  record s {
    pli_pending = if f.key_frame then false else s.pli_pending;
    checkpoint = suc s.checkpoint;
    frames = erase_frame (suc s.checkpoint) s.frames;
  },
  link,
)

unfoldable pub deliver_one : Decrypt → PendingFrame → StreamState × Link → StreamState × Link
unfolding deliver move_on
deliver_one decrypt f (s, link) = move_on f (deliver decrypt (suc s.checkpoint) f (s, link))

-- The loop, on fuel: as many rounds as there are frames are enough, since each takes one away.
unfoldable pub deliver_loop : Decrypt → ℕ → StreamState × Link → StreamState × Link
unfolding ready deliver_one
deliver_loop decrypt zero p = p
deliver_loop decrypt (suc fuel) p = elim (ready p.0) [
  | none ↦ p
  | some f ↦ deliver_loop decrypt fuel (deliver_one decrypt f p)
]

unfoldable pub deliver_ready_frames : Decrypt → Clock → StreamState × Link → StreamState × Link
unfolding ready deliver_loop send_rtcp
deliver_ready_frames decrypt clock (s, link) =
    let (t, out) = deliver_loop decrypt (length s.frames) (s, link) in
    elim (ready s) [
      | none ↦ (t, out)
      | some f ↦ send_rtcp clock (record t { stalled_since = 0 }, out)
    ]

-- `blocked`: the next frame is not complete while later ones are there.
unfoldable pub is_blocked : StreamState → Bool
unfolding ready
is_blocked s = elim (ready s) [
  | some f ↦ false
  | none ↦ not (is_empty s.frames) && ltb (suc s.checkpoint) s.highest_frame_id
]

-- The loop of `skipStalledFrames`: the frames from the first on that can be skipped to.
unfoldable pub skip_to : Bool → Frames → Frames
unfolding complete
skip_to is_video [] = []
skip_to is_video ((id, f) ∷ rest) =
    if complete f && (not is_video || f.key_frame) then (id, f) ∷ rest else skip_to is_video rest

-- `skipStalledFrames` where the limit has been reached.
unfoldable pub skip_frames : Decrypt → Clock → StreamState × Link → StreamState × Link
unfolding skip_to deliver_ready_frames send_rtcp
skip_frames decrypt clock (s, link) =
    let is_video = not (is_audio s.config.kind) in
    elim (skip_to is_video s.frames) [
      | (id, f) ∷ rest ↦
          deliver_ready_frames decrypt clock
            (record s { frames = (id, f) ∷ rest; checkpoint = id - 1 }, link)
      | [] ↦
          if is_video && not s.pli_pending
          then send_rtcp clock (record s { pli_pending = true }, link)
          else (s, link)
    ]

unfoldable pub skip_stalled_frames : Decrypt → Clock → StreamState × Link → StreamState × Link
unfolding is_blocked skip_frames
skip_stalled_frames decrypt clock (s, link) =
    if not (is_blocked s)
    then (record s { stalled_since = 0 }, link)
    else if s.stalled_since == 0
    then (record s { stalled_since = clock.now }, link)
    else if ltb (clock.now - s.stalled_since) (max s.config.target_delay_ms 250 * 1000)
    then (s, link)
    else skip_frames decrypt clock (s, link)
