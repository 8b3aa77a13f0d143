-- ===== src/CastStreamingReceiver/Session.antt =====
-- The receiver as a whole: `start`, `stop`, `onReadyRead`, `handleRtcp`, `onTick` and
-- `requestKeyFrame` of src/cast/CastStreamingReceiver.cpp. A sender's address is a number; whether it
-- is the expected one is a test that the receiver is given.
pub mod Order
use air_show.Prelude.{
  ℕ, zero, suc, ◌+◌, ◌-◌, ◌*◌, ◌/◌, ◌%◌, ◌^◌, Bool, true, false, not, ◌&&◌, ◌||◌, List, [], ◌∷◌,
  ◌++◌, map, Option, none, some, if◌then◌else◌, ltb, leb, ◌==◌, Bytes, length, is_empty,
}
use air_show.Dns.Wire.{byte_at, be16, be32}
use air_show.CastStreamingOffer.{Kind, audio, video, is_audio, CastStream}
use air_show.CastStreamingReceiver.{
  StreamState, new_stream, Link, Clock, looks_like_rtp, looks_like_rtcp,
}
use air_show.CastStreamingReceiver.Rtcp.{send_rtcp}
use air_show.CastStreamingReceiver.Frames.{Decrypt, skip_stalled_frames}
use air_show.CastStreamingReceiver.Rtp.{handle_rtp}

pub record Receiver : Type 0 where
  pub is_expected : ℕ → Bool
  pub has_tick : Bool
  pub streams : List StreamState
  pub link : Link

-- `streamBySenderSsrc`: what `f` does to the first stream of this sender, if there is one.
unfoldable pub with_stream :
    ℕ
    → (StreamState × Link → StreamState × Link)
    → List StreamState
    → Link
    → List StreamState × Link
with_stream ssrc f [] link = ([], link)
with_stream ssrc f (s ∷ ss) link =
    let (t, out) = f (s, link) in
    let (rest, other) = with_stream ssrc f ss link in
    if s.config.sender_ssrc == ssrc then (t ∷ ss, out) else (s ∷ rest, other)

-- The endpoint that media or a sender report has come from.
abbrev pub learn : ℕ → ℕ → Link → Link
learn from port link = record link { sender_address = from; sender_port = port }

-- A sender report for a stream.
unfoldable pub take_report :
    Clock → (from port : ℕ) → Bytes → ℕ → StreamState × Link → StreamState × Link
unfolding be32 be16 send_rtcp
take_report clock from port d off (s, link) = send_rtcp clock (
  record s {
    have_sr = true;
    last_sr_ntp_middle = be16 d (off + 10) * 65536 + be16 d (off + 12);
    last_sr_arrival = clock.now;
  },
  learn from port link,
)

-- The loop of `handleRtcp`, on fuel: a packet has four bytes at least.
unfoldable pub walk_rtcp :
    Clock → (from port : ℕ) → Bytes → ℕ → ℕ → List StreamState × Link → List StreamState × Link
unfolding be16 be32 with_stream take_report
walk_rtcp clock from port d zero off p = p
walk_rtcp clock from port d (suc fuel) off (streams, link) =
    let len = (be16 d (off + 2) + 1) * 4 in
    let after =
      if byte_at d (off + 1) == 200 && leb 28 len
      then with_stream (be32 d (off + 4)) (take_report clock from port d off) streams link
      else (streams, link) in
    let rest = walk_rtcp clock from port d fuel (off + len) after in
    if ltb (length d) (off + 4)
    then (streams, link)
    else if not (byte_at d off / 64 == 2) || ltb (length d) (off + len)
    then (streams, link)
    else rest

unfoldable pub handle_rtcp :
    Clock → (from port : ℕ) → Bytes → List StreamState × Link → List StreamState × Link
unfolding walk_rtcp
handle_rtcp clock from port d p = walk_rtcp clock from port d (suc (length d)) 0 p

abbrev pub put : Receiver → List StreamState × Link → Receiver
put r (streams, link) = record r { streams = streams; link = link }

-- An RTP packet of a stream.
unfoldable pub take_rtp :
    Decrypt → Clock → (from port : ℕ) → Bytes → StreamState × Link → StreamState × Link
unfolding handle_rtp
take_rtp decrypt clock from port d (s, link) = handle_rtp decrypt clock d (s, learn from port link)

-- A round of the loop of `onReadyRead`.
unfoldable pub receive : Decrypt → Clock → (from port : ℕ) → Bytes → Receiver → Receiver
unfolding looks_like_rtp looks_like_rtcp with_stream take_rtp handle_rtcp be32
receive decrypt clock from port d r =
    if is_empty d || not (r.is_expected from)
    then r
    else if looks_like_rtp d (length d)
    then put r (with_stream (be32 d 8) (take_rtp decrypt clock from port d) r.streams r.link)
    else if looks_like_rtcp d (length d)
    then put r (handle_rtcp clock from port d (r.streams, r.link))
    else r

-- A round of the loop of `onTick`.
unfoldable pub tick_stream : Decrypt → Clock → StreamState × Link → StreamState × Link
unfolding skip_stalled_frames send_rtcp
tick_stream decrypt clock p =
    let (s, link) = skip_stalled_frames decrypt clock p in
    if leb s.next_rtcp clock.now then send_rtcp clock (s, link) else (s, link)

-- A loop over the streams.
unfoldable pub each :
    (StreamState × Link → StreamState × Link) → List StreamState → Link → List StreamState × Link
each f [] link = ([], link)
each f (s ∷ ss) link =
    let (t, out) = f (s, link) in let (rest, last) = each f ss out in (t ∷ rest, last)

unfoldable pub on_tick : Decrypt → Clock → Receiver → Receiver
unfolding each tick_stream
on_tick decrypt clock r = put r (each (tick_stream decrypt clock) r.streams r.link)

unfoldable pub ask_key_frame : Clock → StreamState × Link → StreamState × Link
unfolding send_rtcp
ask_key_frame clock (s, link) =
    if not (is_audio s.config.kind) && not s.pli_pending
    then send_rtcp clock (record s { pli_pending = true }, link)
    else (s, link)

unfoldable pub request_key_frame : Clock → Receiver → Receiver
unfolding each ask_key_frame
request_key_frame clock r = put r (each (ask_key_frame clock) r.streams r.link)

unfoldable pub stop : Receiver → Receiver
stop r = record r {
  has_tick = false;
  streams = [];
  link = record r.link { has_socket = false; sender_address = 0; sender_port = 0 };
}

-- `start`. Whether the port can be bound is an argument; the result is false where nothing begins.
unfoldable pub start : List CastStream → Bool → Receiver → Bool × Receiver
unfolding stop
start streams bound r =
    let r = stop r in
    if is_empty streams || not bound then (false, r) else (
      true,
      record r {
        has_tick = true;
        streams = map new_stream streams;
        link = record r.link { has_socket = true };
      },
    )

abbrev pub same_kind : Kind → Kind → Bool
same_kind audio audio = true
same_kind audio video = false
same_kind video audio = false
same_kind video video = true

unfoldable pub frames_delivered : Kind → List StreamState → ℕ
frames_delivered kind [] = 0
frames_delivered kind (s ∷ ss) =
    (if same_kind s.config.kind kind then s.delivered else 0) + frames_delivered kind ss
