-- ===== src/CastStreamingReceiver.antt =====
-- The receiver of a Cast Streaming session: src/cast/CastStreamingReceiver.cpp. Frame identifiers are
-- stored 256 higher than in the source, so that the -1 before the first frame is 255; the arithmetic
-- on them is the same, and their low bytes are. A `time_point` is a number of microseconds, 0 for a
-- default one, and the clocks' readings are arguments.
pub mod Frames
pub mod Rtcp
pub mod Rtp
pub mod Session
use air_show.Prelude.{
  ℕ, zero, suc, ◌+◌, ◌-◌, ◌/◌, ◌%◌, ◌^◌, max, Bool, true, false, not, ◌&&◌, ◌||◌, List, [], ◌∷◌,
  ◌++◌, Option, none, some, if◌then◌else◌, ltb, leb, ◌==◌, Bytes,
}
use air_show.Dns.Wire.{byte_at, be16}
use air_show.CastStreamingOffer.{Kind, CastStream}

abbrev pub max_frames_ahead : ℕ
max_frames_ahead = 120

-- `maxPacketId` is `none` for -1.
pub record PendingFrame : Type 0 where
  pub max_packet_id : Option ℕ
  pub chunks : List Bytes
  pub have : List Bool
  pub received : ℕ
  pub key_frame : Bool

unfoldable pub complete : PendingFrame → Bool
complete f = elim f.max_packet_id [ none ↦ false | some m ↦ f.received == m + 1 ]

-- `std::map<int64_t, PendingFrame>`, in the order of the keys.
abbrev pub Frames : Type 0
Frames = List (ℕ × PendingFrame)

pub record StreamState : Type 0 where
  pub config : CastStream
  pub highest_frame_id : ℕ
  pub checkpoint : ℕ
  pub frames : Frames
  pub stalled_since : ℕ
  pub have_sr : Bool
  pub last_sr_ntp_middle : ℕ
  pub last_sr_arrival : ℕ
  pub have_seq : Bool
  pub max_seq : ℕ
  pub seq_cycles : ℕ
  pub pli_pending : Bool
  pub feedback_count : ℕ
  pub next_rtcp : ℕ
  pub delivered : ℕ

-- `StreamState` as `start` makes it.
abbrev pub new_stream : CastStream → StreamState
new_stream config = record {
  config = config;
  highest_frame_id = 256;
  checkpoint = 255;
  frames = [];
  stalled_since = 0;
  have_sr = false;
  last_sr_ntp_middle = 0;
  last_sr_arrival = 0;
  have_seq = false;
  max_seq = 0;
  seq_cycles = 0;
  pli_pending = false;
  feedback_count = 0;
  next_rtcp = 0;
  delivered = 0;
}

-- What the frame callback is given, with the frame's identifier.
pub record Delivered : Type 0 where
  pub kind : Kind
  pub frame_id : ℕ
  pub bytes : Bytes
  pub key_frame : Bool

-- The rest of the receiver that the handling of one stream reads and writes: whether there is a
-- socket, the endpoint learned from the sender, `m_lastNtp`, the packets written and the frames given
-- to the callback, latest first.
pub record Link : Type 0 where
  pub has_socket : Bool
  pub sender_address : ℕ
  pub sender_port : ℕ
  pub last_ntp : ℕ
  pub packets : List Bytes
  pub output : List Delivered

-- The readings of the steady and of the system clock, in microseconds.
pub record Clock : Type 0 where
  pub now : ℕ
  pub since_epoch : ℕ

unfoldable pub expand_frame_id : ℕ → ℕ → ℕ
expand_frame_id reference truncated =
    let top = reference + 127 in
    let result = top - top % 256 + truncated in if ltb top result then result - 256 else result

unfoldable pub looks_like_rtp : Bytes → ℕ → Bool
looks_like_rtp d n =
    let pt = byte_at d 1 % 128 in
    if ltb n 18 || not (byte_at d 0 == 0x80) then false else leb 96 pt && leb pt 104 || pt == 127

unfoldable pub looks_like_rtcp : Bytes → ℕ → Bool
looks_like_rtcp d n =
    leb 8 n && byte_at d 0 / 32 == 4 && leb 200 (byte_at d 1) && leb (byte_at d 1) 207

unfoldable pub find_frame : ℕ → Frames → Option PendingFrame
find_frame id [] = none
find_frame id ((k, f) ∷ rest) = if k == id then some f else find_frame id rest

-- `frames[id] = f`.
unfoldable pub set_frame : ℕ → PendingFrame → Frames → Frames
set_frame id f [] = (id, f) ∷ []
set_frame id f ((k, g) ∷ rest) =
    let more = set_frame id f rest in
    if ltb id k then (id, f) ∷ (k, g) ∷ rest else if k == id then (k, f) ∷ rest else (k, g) ∷ more

unfoldable pub erase_frame : ℕ → Frames → Frames
erase_frame id [] = []
erase_frame id ((k, f) ∷ rest) = if k == id then rest else (k, f) ∷ erase_frame id rest
