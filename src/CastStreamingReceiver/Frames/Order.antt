-- ===== src/CastStreamingReceiver/Frames/Order.antt =====
-- Frames are given to the callback in their order, and what waits stays in the window.
use air_show.Prelude.{
  ℕ, zero, suc, ◌+◌, ◌-◌, ◌*◌, ◌≤◌, ◌<◌, ◌≡◌, refl, ◌∙◌, sym, max, Bool, true, false, not, ◌&&◌,
  ◌||◌, List, [], ◌∷◌, Option, none, some, Bytes, length, arith, ltb, ◌==◌, if◌then◌else◌, inl, inr,
  none_not_some, Bool-cases, Option-cases,
}
use air_show.CastStreamingOffer.{is_audio}
use air_show.CastStreamingReceiver.{
  PendingFrame, complete, Frames, StreamState, Delivered, Link, Clock, max_frames_ahead, find_frame,
}
use air_show.CastStreamingReceiver.Rtcp.{send_rtcp}
use air_show.CastStreamingReceiver.Frames.{
  Decrypt, deliver, give, move_on, ready, deliver_one, deliver_loop, deliver_ready_frames,
  is_blocked, skip_to, skip_frames, skip_stalled_frames,
}
use air_show.CastStreamingReceiver.Rtp.Window.{
  Within, Within-low, find_frame-IsFrame, erase_frame-Within,
}

-- The latest frame first, each later than the one before it, all below a bound.
abbrev pub Descending : ℕ → List Delivered → Type 0
Descending bound [] = Unit
Descending bound (d ∷ ds) = (d.frame_id < bound) × Descending d.frame_id ds

Descending-more :
    (bound top : ℕ) (ds : List Delivered) → bound ≤ top → Descending bound ds → Descending top ds
Descending-more bound top [] le h = tt
Descending-more bound top (d ∷ ds) le (a, h) = (omega (arith, le, a), h)

-- A stream and what it has delivered, with the frames that wait in a window of 120 frames behind the
-- checkpoint, and nothing delivered beyond it.
pub record IsOrdered (checkpoint highest : ℕ) (frames : Frames) (output : List Delivered)
    : Type 0 where
  pub window : Within (suc checkpoint) highest frames
  pub started : 255 ≤ checkpoint
  pub reached : checkpoint ≤ highest
  pub ahead : highest ≤ checkpoint + max_frames_ahead
  pub order : Descending (suc checkpoint) output

abbrev pub Ordered : StreamState × Link → Type 0
Ordered p = IsOrdered p.0.checkpoint p.0.highest_frame_id p.0.frames p.1.output

pub send_rtcp-Ordered :
    (clock : Clock) (p : StreamState × Link) → Ordered p → Ordered (send_rtcp clock p)
unfolding send_rtcp
send_rtcp-Ordered clock (s, link) h =
    elim (Bool-cases (not link.has_socket || link.sender_port == 0)) [
      | inl e ↦ rw e h
      | inr e ↦ rw e h
    ]

ready-none : (s : StreamState) → find_frame (suc s.checkpoint) s.frames ≡ none → ready s ≡ none
unfolding ready
ready-none s n = rw (n, ready) refl

ready-some :
    (s : StreamState) (g : PendingFrame)
    → find_frame (suc s.checkpoint) s.frames ≡ some g
    → ready s ≡ (if complete g then some g else none)
unfolding ready
ready-some s g n = rw (n, ready) refl

some-if : (b : Bool) (f g : PendingFrame) → (if b then some g else none) ≡ some f → some g ≡ some f
some-if true f g e = e
some-if false f g e = absurd (none_not_some e)

ready-find :
    (s : StreamState) (f : PendingFrame)
    → ready s ≡ some f
    → find_frame (suc s.checkpoint) s.frames ≡ some f
unfolding ready
ready-find s f e = elim (Option-cases (find_frame (suc s.checkpoint) s.frames)) [
  | inl n ↦ absurd (none_not_some (sym (ready-none s n) ∙ e))
  | inr (g, n) ↦ n ∙ some-if (complete g) f g (sym (ready-some s g n) ∙ e)
]

move_on-Ordered :
    (f : PendingFrame) (s : StreamState) (link : Link)
    → Within (suc s.checkpoint) s.highest_frame_id s.frames
    → 255 ≤ s.checkpoint
    → suc s.checkpoint ≤ s.highest_frame_id
    → s.highest_frame_id ≤ s.checkpoint + max_frames_ahead
    → Descending (suc (suc s.checkpoint)) link.output
    → Ordered (move_on f (s, link))
unfolding move_on
move_on-Ordered f s link w start reach ahead order = record {
  window = erase_frame-Within (suc s.checkpoint) s.highest_frame_id s.frames w;
  started = omega (arith, start);
  reached = reach;
  ahead = omega (arith, ahead);
  order = order;
}

give-move_on-Ordered :
    (o : Option Bytes) (f : PendingFrame) (s : StreamState) (link : Link)
    → suc s.checkpoint ≤ s.highest_frame_id
    → Ordered (s, link)
    → Ordered (move_on f (give o (suc s.checkpoint) f (s, link)))
unfolding give
give-move_on-Ordered none f s link reach h =
    move_on-Ordered f s link h.window h.started reach h.ahead (
      Descending-more (suc s.checkpoint) (suc (suc s.checkpoint)) link.output (omega arith) h.order)
give-move_on-Ordered (some out) f s link reach h =
    move_on-Ordered f _ _ h.window h.started reach h.ahead (omega arith, h.order)

deliver_one-Ordered :
    (decrypt : Decrypt) (f : PendingFrame) (p : StreamState × Link)
    → ready p.0 ≡ some f
    → Ordered p
    → Ordered (deliver_one decrypt f p)
unfolding deliver_one deliver
deliver_one-Ordered decrypt f (s, link) r h =
    give-move_on-Ordered _ f s link
      (find_frame-IsFrame (suc s.checkpoint) (suc s.checkpoint) s.highest_frame_id s.frames f
        h.window (ready-find s f r)).1
      h

deliver_loop-Ordered :
    (decrypt : Decrypt) (fuel : ℕ) (p : StreamState × Link)
    → Ordered p
    → Ordered (deliver_loop decrypt fuel p)
unfolding deliver_loop
deliver_loop-Ordered decrypt zero p h = h
deliver_loop-Ordered decrypt (suc fuel) p h = elim (Option-cases (ready p.0)) [
  | inl e ↦ rw (e, deliver_loop) h
  | inr (f, e) ↦
      rw (e, deliver_loop)
        (deliver_loop-Ordered decrypt fuel (deliver_one decrypt f p)
          (deliver_one-Ordered decrypt f p e h))
]

pub deliver_ready_frames-Ordered :
    (decrypt : Decrypt) (clock : Clock) (p : StreamState × Link)
    → Ordered p
    → Ordered (deliver_ready_frames decrypt clock p)
unfolding deliver_ready_frames
deliver_ready_frames-Ordered decrypt clock (s, link) h =
    let k = deliver_loop-Ordered decrypt (length s.frames) (s, link) h in
    elim (Option-cases (ready s)) [
      | inl e ↦ rw (e, deliver_ready_frames) k
      | inr (f, e) ↦
          rw (e, deliver_ready_frames)
            (send_rtcp-Ordered clock
              (
                record (deliver_loop decrypt (length s.frames) (s, link)).0 { stalled_since = 0 },
                (deliver_loop decrypt (length s.frames) (s, link)).1,
              )
              k)
    ]

skip_to-Within :
    (is_video : Bool) (low high : ℕ) (frames : Frames)
    → Within low high frames
    → Within low high (skip_to is_video frames)
unfolding skip_to
skip_to-Within is_video low high [] h = tt
skip_to-Within is_video low high ((k, f) ∷ rest) (a, b, c, h) =
    elim (Bool-cases (complete f && (not is_video || f.key_frame))) [
      | inl e ↦ rw e (a, b, c, h)
      | inr e ↦ rw e (
          Within-low (suc k) low high _ (omega (arith, a))
            (skip_to-Within is_video (suc k) high rest h))
    ]

pub skip_frames-Ordered :
    (decrypt : Decrypt) (clock : Clock) (p : StreamState × Link)
    → Ordered p
    → Ordered (skip_frames decrypt clock p)
unfolding skip_frames
skip_frames-Ordered decrypt clock (s, link) h =
    go (skip_to (not (is_audio s.config.kind)) s.frames) (
      skip_to-Within (not (is_audio s.config.kind)) (suc s.checkpoint) s.highest_frame_id s.frames
        h.window)
  where
    go :
        (frames : Frames)
        → Within (suc s.checkpoint) s.highest_frame_id frames
        → Ordered (elim frames [
          | (id, f) ∷ rest ↦
              deliver_ready_frames decrypt clock
                (record s { frames = (id, f) ∷ rest; checkpoint = id - 1 }, link)
          | [] ↦
              if not (is_audio s.config.kind) && not s.pli_pending
              then send_rtcp clock (record s { pli_pending = true }, link)
              else (s, link)
        ])
    go [] w = elim (Bool-cases (not (is_audio s.config.kind) && not s.pli_pending)) [
      | inl e ↦ rw e (send_rtcp-Ordered clock (record s { pli_pending = true }, link) h)
      | inr e ↦ rw e h
    ]
    go ((id, f) ∷ rest) (a, b, c, w) =
        deliver_ready_frames-Ordered decrypt clock
          (record s { frames = (id, f) ∷ rest; checkpoint = id - 1 }, link)
          (record {
            window = (omega (arith, a), b, c, w);
            started = omega (arith, a, h.started);
            reached = omega (arith, b);
            ahead = omega (arith, a, h.ahead);
            order =
                Descending-more (suc s.checkpoint) (suc (id - 1)) link.output (omega (arith, a))
                  h.order;
          })

pub skip_stalled_frames-Ordered :
    (decrypt : Decrypt) (clock : Clock) (p : StreamState × Link)
    → Ordered p
    → Ordered (skip_stalled_frames decrypt clock p)
unfolding skip_stalled_frames
skip_stalled_frames-Ordered decrypt clock (s, link) h = elim (Bool-cases (not (is_blocked s))) [
  | inl e ↦ rw e h
  | inr e ↦ elim (Bool-cases (s.stalled_since == 0)) [
    | inl z ↦ rw (e, z) h
    | inr z ↦
        elim (Bool-cases
          (ltb (clock.now - s.stalled_since) (max s.config.target_delay_ms 250 * 1000))) [
            | inl l ↦ rw (e, z, l) h
            | inr l ↦ rw (e, z, l) (skip_frames-Ordered decrypt clock (s, link) h)
          ]
  ]
]
