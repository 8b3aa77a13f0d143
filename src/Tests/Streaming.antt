-- ===== src/Tests/Streaming.antt =====
-- A stream of Cast Streaming at concrete inputs.
use air_show.Prelude.{◌%◌, ℕ, ◌≡◌, refl, true, List, [], ◌∷◌, some, Bytes, arith, map}
use air_show.CastStreamingOffer.{CastStream, video, vp8_codec, pos}
use air_show.CastStreamingReceiver.{new_stream, Link, Clock, expand_frame_id, Delivered}
use air_show.CastStreamingReceiver.Session.{ask_key_frame, take_rtp, tick_stream}
use air_show.CastStreamingReceiver.Session.Order.{
  Event, rtp, tick, key_frame_wanted, run, run-Ordered, run-expand_frame_id,
}
use air_show.CastStreamingReceiver.Frames.Order.{Ordered}
use air_show.CastStreamingReceiver.Frames.{Decrypt}

abbrev stream : CastStream
stream = record {
  kind = video;
  index = pos 0;
  codec = vp8_codec;
  sender_ssrc = 1000;
  rtp_payload_type = pos 96;
  rtp_timebase = 90000;
  channels = pos 1;
  target_delay_ms = 400;
  aes_key = [];
  aes_iv_mask = [];
}

abbrev open_link : Link
open_link = record {
  has_socket = true;
  sender_address = 0;
  sender_port = 0;
  last_ntp = 0;
  packets = [];
  output = [];
}

-- A cipher that leaves the data as it is.
abbrev plain : Decrypt
plain key block bytes = some bytes

-- A packet of a frame: its number, and the last packet's.
abbrev packet : ℕ → ℕ → ℕ → Bytes → Bytes
packet frame id last payload =
    0x80 ∷ 96 ∷ 0 ∷ id ∷ 0 ∷ 0 ∷ 0 ∷ 0 ∷ 0 ∷ 0 ∷ 3 ∷ 232 ∷ 0x80 ∷ frame ∷ 0 ∷ id ∷ 0 ∷ last
    ∷ payload

abbrev clock : Clock
clock = record { now = 1000; since_epoch = 1000000 }

-- The second frame comes first; then the first one, its packets the wrong way round.
abbrev packets : List (Clock × Event)
packets =
    (clock, rtp 7 5000 (packet 1 0 0 (20 ∷ [])))
    ∷ (clock, rtp 7 5000 (packet 0 1 1 (11 ∷ [])))
    ∷ (clock, tick)
    ∷ (clock, rtp 7 5000 (packet 0 0 1 (10 ∷ [])))
    ∷ (clock, key_frame_wanted)
    ∷ []

abbrev bytes_of : Delivered → Bytes
bytes_of d = d.bytes

in_order :
    map bytes_of (run plain packets (new_stream stream, open_link)).1.output
    ≡ (20 ∷ []) ∷ (10 ∷ 11 ∷ []) ∷ []
unfolding ask_key_frame take_rtp tick_stream
in_order = refl

run-Ordered_example : Ordered (run plain packets (new_stream stream, open_link))
run-Ordered_example = run-Ordered plain stream open_link packets refl

checkpoint_then : (run plain packets (new_stream stream, open_link)).0.checkpoint ≡ 257
unfolding ask_key_frame take_rtp tick_stream
checkpoint_then = refl

run-expand_frame_id_example :
    expand_frame_id
      (run plain packets (new_stream stream, open_link)).0.highest_frame_id
      (300 % 256)
    ≡ 300
run-expand_frame_id_example =
    run-expand_frame_id plain stream open_link packets 300 refl (omega (arith, checkpoint_then))
      (omega (arith, checkpoint_then))
