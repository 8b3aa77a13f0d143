-- ===== src/CastStreamingReceiver/Session/Order.antt =====
-- The order of delivery over everything that can happen to a stream.
use air_show.Prelude.{
  ℕ, suc, ◌+◌, ◌*◌, ◌-◌, ◌/◌, ◌%◌, ◌≤◌, ◌<◌, ◌≡◌, Bool, true, false, not, ◌||◌, List, [], ◌∷◌,
  Bytes, length, drop, arith, ltb, leb, ◌==◌, if◌then◌else◌, inl, inr, Bool-cases, Option-cases,
}
use air_show.Dns.Wire.{byte_at, be16}
use air_show.CastStreamingOffer.{CastStream}
use air_show.CastStreamingReceiver.{
  PendingFrame, StreamState, new_stream, Link, Clock, expand_frame_id, max_frames_ahead, find_frame,
}
use air_show.CastStreamingReceiver.Rtcp.{send_rtcp}
use air_show.CastStreamingReceiver.Frames.{Decrypt, deliver_ready_frames, skip_stalled_frames}
use air_show.CastStreamingReceiver.Frames.Order.{
  Ordered, send_rtcp-Ordered, deliver_ready_frames-Ordered, skip_stalled_frames-Ordered,
}
use air_show.CastStreamingReceiver.Rtp.{
  count_seq, skip_extensions, pending_frame, has_max, add_packet, store, take_packet, handle_rtp,
}
use air_show.CastStreamingReceiver.Rtp.Window.{
  IsFrame, Within-more, set_frame-Within, find_frame-IsFrame, pending_frame-IsFrame,
  add_packet-IsFrame, expand_frame_id-low_byte,
}
use air_show.CastStreamingReceiver.Session.{
  take_rtp, take_report, tick_stream, ask_key_frame, learn,
}

has_max-last : (f : PendingFrame) (m : ℕ) (h : IsFrame f) → has_max f m ≡ true → h.last ≡ m
has_max-last f m h e = ground (arith, h.announced, e)

Ordered-either :
    (b : Bool) (p q : StreamState × Link) → Ordered p → Ordered q → Ordered (if b then p else q)
Ordered-either true p q h k = h
Ordered-either false p q h k = k

store-Ordered :
    (id m packet_id : ℕ) (key : Bool) (chunk : Bytes) (f : PendingFrame) (s : StreamState)
    (link : Link)
    → IsFrame f
    → packet_id ≤ m
    → suc s.checkpoint ≤ id
    → id ≤ s.checkpoint + max_frames_ahead
    → Ordered (s, link)
    → Ordered (store id m f (add_packet packet_id key chunk f) s, link)
unfolding store
store-Ordered id m packet_id key chunk f s link ok in_frame low high h = record {
  window = elim (Bool-cases (has_max f m)) [
    | inr e ↦
        rw e (Within-more (suc s.checkpoint) s.highest_frame_id _ s.frames (omega arith) h.window)
    | inl e ↦ rw e (
        set_frame-Within id _ (suc s.checkpoint) _ s.frames low (omega arith)
          (add_packet-IsFrame packet_id key chunk f ok
            (omega (arith, in_frame, has_max-last f m ok e)))
          (Within-more (suc s.checkpoint) s.highest_frame_id _ s.frames (omega arith) h.window))
  ];
  started = h.started;
  reached = omega (arith, h.reached);
  ahead = omega (arith, h.ahead, high);
  order = h.order;
}

-- A packet of a frame in the window.
take_packet-Ordered :
    (decrypt : Decrypt) (clock : Clock) (id packet_id max_packet_id : ℕ) (key : Bool)
    (chunk : Bytes) (s : StreamState) (link : Link)
    → packet_id ≤ max_packet_id
    → suc s.checkpoint ≤ id
    → id ≤ s.checkpoint + max_frames_ahead
    → Ordered (s, link)
    → Ordered (take_packet decrypt clock id packet_id max_packet_id key chunk (s, link))
unfolding take_packet
take_packet-Ordered decrypt clock id packet_id max_packet_id key chunk s link in_frame low high h =
    let f = pending_frame max_packet_id (find_frame id s.frames) in
    let t = store id max_packet_id f (add_packet packet_id key chunk f) s in
    let stored =
      store-Ordered id max_packet_id packet_id key chunk f s link
        (pending_frame-IsFrame max_packet_id (find_frame id s.frames) (λ g e.
          (find_frame-IsFrame id (suc s.checkpoint) s.highest_frame_id s.frames g h.window e).0))
        in_frame low high h in
    Ordered-either _ (deliver_ready_frames decrypt clock (t, link)) (t, link)
      (deliver_ready_frames-Ordered decrypt clock (t, link) stored) stored

count_seq-Ordered :
    (seq : ℕ) (s : StreamState) (link : Link) → Ordered (s, link) → Ordered (count_seq seq s, link)
unfolding count_seq
count_seq-Ordered seq s link h = elim (Bool-cases (not s.have_seq)) [
  | inl e ↦ rw e h
  | inr e ↦ elim (Bool-cases (ltb ((seq + 65536 - s.max_seq) % 65536) 0x8000)) [
    | inl l ↦ rw (e, l) h
    | inr l ↦ rw (e, l) h
  ]
]

handle_rtp-Ordered :
    (decrypt : Decrypt) (clock : Clock) (d : Bytes) (p : StreamState × Link)
    → Ordered p
    → Ordered (handle_rtp decrypt clock d p)
unfolding handle_rtp
handle_rtp-Ordered decrypt clock d (s, link) h =
    let t = count_seq (be16 d 2) s in
    let k = count_seq-Ordered (be16 d 2) s link h in
    let id = expand_frame_id t.highest_frame_id (byte_at d 13) in
    elim (Bool-cases (be16 d 16 == 0xFFFF || ltb (be16 d 16) (be16 d 14))) [
      | inl e ↦ rw (e, handle_rtp) k
      | inr e ↦
          elim (Option-cases
            (skip_extensions (byte_at d 12 % 64) d (length d) (18 + byte_at d 12 / 64 % 2))) [
              | inl n ↦ rw (e, n, handle_rtp) k
              | inr (off, n) ↦
                  elim (Bool-cases
                    (leb id t.checkpoint || ltb (t.checkpoint + max_frames_ahead) id)) [
                      | inl o ↦ rw (e, n, o, handle_rtp) k
                      | inr o ↦
                          rw (e, n, o, handle_rtp)
                            (take_packet-Ordered decrypt clock id (be16 d 14) (be16 d 16)
                              (byte_at d 12 / 128 % 2 == 1) (drop off d) t link (ground arith)
                              (ground arith) (ground arith) k)
                    ]
            ]
    ]

-- What can happen to a stream: a packet of its own, a sender report, a tick, a wish for a key frame.
pub data Event : Type 0 where
  rtp : ℕ → ℕ → Bytes → Event
  report : ℕ → ℕ → Bytes → ℕ → Event
  tick : Event
  key_frame_wanted : Event

abbrev pub apply : Decrypt → Clock × Event → StreamState × Link → StreamState × Link
apply decrypt (clock, rtp from port d) p = take_rtp decrypt clock from port d p
apply decrypt (clock, report from port d off) p = take_report clock from port d off p
apply decrypt (clock, tick) p = tick_stream decrypt clock p
apply decrypt (clock, key_frame_wanted) p = ask_key_frame clock p

abbrev pub run : Decrypt → List (Clock × Event) → StreamState × Link → StreamState × Link
run decrypt [] p = p
run decrypt (e ∷ es) p = run decrypt es (apply decrypt e p)

tick_stream-Ordered :
    (decrypt : Decrypt) (clock : Clock) (p : StreamState × Link)
    → Ordered p
    → Ordered (tick_stream decrypt clock p)
unfolding tick_stream
tick_stream-Ordered decrypt clock p h =
    let k = skip_stalled_frames-Ordered decrypt clock p h in
    Ordered-either _ (send_rtcp clock (skip_stalled_frames decrypt clock p))
      (skip_stalled_frames decrypt clock p)
      (send_rtcp-Ordered clock (skip_stalled_frames decrypt clock p) k) k

ask_key_frame-Ordered :
    (clock : Clock) (p : StreamState × Link) → Ordered p → Ordered (ask_key_frame clock p)
unfolding ask_key_frame
ask_key_frame-Ordered clock (s, link) h =
    Ordered-either _ (send_rtcp clock (record s { pli_pending = true }, link)) (s, link)
      (send_rtcp-Ordered clock (record s { pli_pending = true }, link) h) h

apply-Ordered :
    (decrypt : Decrypt) (e : Clock × Event) (p : StreamState × Link)
    → Ordered p
    → Ordered (apply decrypt e p)
unfolding take_rtp take_report
apply-Ordered decrypt (clock, rtp from port d) (s, link) h =
    handle_rtp-Ordered decrypt clock d (s, learn from port link) h
apply-Ordered decrypt (clock, report from port d off) (s, link) h =
    send_rtcp-Ordered clock
      (
        record s {
          have_sr = true;
          last_sr_ntp_middle = be16 d (off + 10) * 65536 + be16 d (off + 12);
          last_sr_arrival = clock.now;
        },
        learn from port link,
      )
      h
apply-Ordered decrypt (clock, tick) p h = tick_stream-Ordered decrypt clock p h
apply-Ordered decrypt (clock, key_frame_wanted) p h = ask_key_frame-Ordered clock p h

-- Whatever packets, reports, ticks and wishes come to a new stream, and in whatever order: the frames
-- are given to the callback in strictly ascending order, none twice, and the frames that wait stand
-- behind the checkpoint, at most 120 beyond it, each with vectors of its announced length.
pub run-Ordered :
    (decrypt : Decrypt) (config : CastStream) (link : Link) (es : List (Clock × Event))
    → link.output ≡ []
    → Ordered (run decrypt es (new_stream config, link))
run-Ordered decrypt config link es empty =
    go es (new_stream config, link)
      (record {
        window = tt;
        started = omega arith;
        reached = omega arith;
        ahead = omega arith;
        order = rw empty tt;
      })
  where
    go :
        (es : List (Clock × Event)) (p : StreamState × Link)
        → Ordered p
        → Ordered (run decrypt es p)
    go [] p h = h
    go (e ∷ es) p h = go es (apply decrypt e p) (apply-Ordered decrypt e p h)

-- At every time of a session a packet of any frame in the window of 120 behind the checkpoint is
-- taken for the frame it belongs to, its identifier recovered from one byte.
pub run-expand_frame_id :
    (decrypt : Decrypt) (config : CastStream) (link : Link) (es : List (Clock × Event)) (id : ℕ)
    → link.output ≡ []
    → (run decrypt es (new_stream config, link)).0.checkpoint < id
    → id ≤ (run decrypt es (new_stream config, link)).0.checkpoint + max_frames_ahead
    → expand_frame_id (run decrypt es (new_stream config, link)).0.highest_frame_id (id % 256) ≡ id
run-expand_frame_id decrypt config link es id empty low high =
    let h = run-Ordered decrypt config link es empty in
    expand_frame_id-low_byte _ id (omega (arith, h.started, h.reached))
      (omega (arith, low, high, h.ahead)) (omega (arith, high, h.reached))
