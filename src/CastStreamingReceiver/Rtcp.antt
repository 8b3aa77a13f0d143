-- ===== src/CastStreamingReceiver/Rtcp.antt =====
-- The RTCP packets of the receiver: `nextNtpTimestamp` and `sendRtcp` of
-- src/cast/CastStreamingReceiver.cpp.
pub mod Feedback
use air_show.Prelude.{
  ℕ, zero, suc, ◌+◌, ◌-◌, ◌*◌, ◌/◌, ◌%◌, ◌^◌, max, Bool, true, false, not, ◌&&◌, ◌||◌, List, [],
  ◌∷◌, ◌++◌, Option, none, some, if◌then◌else◌, ltb, leb, ◌==◌, Bytes, length, is_empty,
}
use Prim.Native.Nat.{bit_or}
use air_show.Dns.Wire.{put16, put32}
use air_show.CastStreamingOffer.{CastStream, receiver_ssrc}
use air_show.CastStreamingReceiver.{
  PendingFrame, complete, Frames, StreamState, Link, Clock, find_frame,
}

unfoldable pub put64 : ℕ → Bytes
unfolding put32
put64 v = put32 (v / 2 ^ 32 % 2 ^ 32) ++ put32 (v % 2 ^ 32)

-- The timestamp of the clock, 64 bits: seconds since 1900 and a fraction.
unfoldable pub ntp_of : ℕ → ℕ
ntp_of since_epoch =
    (since_epoch / 1000000 + 2208988800) % 2 ^ 32 * 2 ^ 32
    + since_epoch % 1000000 * 2 ^ 32 / 1000000

-- `nextNtpTimestamp`, of `m_lastNtp`.
unfoldable pub next_ntp_timestamp : ℕ → ℕ → ℕ
unfolding ntp_of
next_ntp_timestamp since_epoch last_ntp =
    if leb (ntp_of since_epoch) last_ntp then (last_ntp + 1) % 2 ^ 64 else ntp_of since_epoch

pub record Loss : Type 0 where
  pub frame : ℕ
  pub packet : ℕ
  pub bits : ℕ

-- The bit vector: the missing ones of the next packets.
unfoldable pub missing_bits : ℕ → ℕ → List Bool → ℕ
missing_bits zero weight have = 0
missing_bits (suc i) weight [] = 0
missing_bits (suc i) weight (h ∷ hs) = (if h then 0 else weight) + missing_bits i (weight * 2) hs

-- The loop over the packets of a frame, `have` from `pid` on; `skipped` of them are covered by a bit
-- vector.
unfoldable pub packet_losses : (frame pid skipped : ℕ) → List Bool → List Loss → List Loss
unfolding missing_bits
packet_losses frame pid skipped [] losses = losses
packet_losses frame pid (suc skipped) (h ∷ hs) losses =
    packet_losses frame (suc pid) skipped hs losses
packet_losses frame pid zero (h ∷ hs) losses =
    if h || leb 255 (length losses)
    then packet_losses frame (suc pid) 0 hs losses
    else packet_losses frame (suc pid) 8 hs (
        losses
        ++ (record { frame = frame % 256; packet = pid % 65536; bits = missing_bits 8 1 hs } ∷ []))

-- The loop over the frames: `count` identifiers from `id` on.
unfoldable pub frame_losses : (count id : ℕ) → Frames → List Loss → List Loss
unfolding packet_losses find_frame
frame_losses zero id frames losses = losses
frame_losses (suc count) id frames losses = frame_losses count (suc id) frames (
    if leb 255 (length losses) then losses else elim (find_frame id frames) [
      | none ↦ losses ++ (record { frame = id % 256; packet = 0xFFFF; bits = 0 } ∷ [])
      | some f ↦ packet_losses id 0 0 f.have losses
    ])

unfoldable pub losses_of : StreamState → List Loss
unfolding frame_losses
losses_of s = frame_losses (s.highest_frame_id - (s.checkpoint + 1)) (s.checkpoint + 1) s.frames []

-- `acks`, as one number with the first octet low.
unfoldable pub acks_of : ℕ → Frames → ℕ → ℕ
unfolding complete
acks_of checkpoint [] acks = acks
acks_of checkpoint ((id, f) ∷ rest) acks = acks_of checkpoint rest (
    if leb (checkpoint + 2) id && ltb id (checkpoint + 18) && complete f
    then bit_or acks (2 ^ (id - (checkpoint + 2)))
    else acks)

-- A packet of one kind: `finishRtcpPacket` writes the number of words behind the first into it.
unfoldable pub rtcp_packet : (first kind : ℕ) → Bytes → Bytes
unfolding put16
rtcp_packet first kind body = first ∷ kind ∷ put16 ((length body + 4) / 4 - 1) ++ body

unfoldable pub receiver_report : Clock → StreamState → Bytes
unfolding rtcp_packet put32 receiver_ssrc
receiver_report clock s =
    let block =
      if s.have_sr
      then put32 s.config.sender_ssrc
        ++ (put32 0
            ++ (put32 (s.seq_cycles * 65536 % 2 ^ 32 + s.max_seq)
                ++ (put32 0
                    ++ (put32 s.last_sr_ntp_middle
                        ++ put32 (
                            (clock.now - s.last_sr_arrival) * 65536 % 2 ^ 64 / 1000000 % 2 ^ 32)))))
      else [] in
    rtcp_packet (if s.have_sr then 0x81 else 0x80) 201 (put32 (receiver_ssrc s.config) ++ block)

unfoldable pub extended_report : ℕ → StreamState → Bytes
unfolding rtcp_packet put32 put64 put16 receiver_ssrc
extended_report ntp s =
    rtcp_packet 0x80 207 (put32 (receiver_ssrc s.config) ++ (4 ∷ 0 ∷ put16 2 ++ put64 ntp))

unfoldable pub picture_loss : StreamState → Bytes
unfolding rtcp_packet put32 receiver_ssrc
picture_loss s =
    if s.pli_pending
    then rtcp_packet 0x81 206 (put32 (receiver_ssrc s.config) ++ put32 s.config.sender_ssrc)
    else []

unfoldable pub put_losses : List Loss → Bytes
unfolding put16
put_losses [] = []
put_losses (l ∷ ls) = l.frame ∷ put16 l.packet ++ (l.bits ∷ put_losses ls)

-- "CAST" and "CST2".
unfoldable pub cast_feedback : StreamState → Bytes
unfolding rtcp_packet put16 put32 put_losses losses_of acks_of receiver_ssrc
cast_feedback s =
    let acks = acks_of s.checkpoint s.frames 0 in
    rtcp_packet 0x8F 206 (
      put32 (receiver_ssrc s.config)
      ++ (put32 s.config.sender_ssrc
          ++ (put32 0x43415354
              ++ (s.checkpoint % 256
                    ∷ length (losses_of s) % 256
                    ∷ put16 (max s.config.target_delay_ms 1 % 65536)
                  ++ (put_losses (losses_of s)
                      ++ (put32 0x43535432
                          ++ (s.feedback_count ∷ 2 ∷ acks % 256 ∷ acks / 256 ∷ [])))))))

unfoldable pub send_rtcp : Clock → StreamState × Link → StreamState × Link
unfolding receiver_report extended_report picture_loss cast_feedback next_ntp_timestamp losses_of
send_rtcp clock (s, link) =
    let ntp = next_ntp_timestamp clock.since_epoch link.last_ntp in
    if not link.has_socket || link.sender_port == 0 then (s, link) else (
      record s {
        feedback_count = (s.feedback_count + 1) % 256;
        next_rtcp = clock.now + (if is_empty (losses_of s) then 500000 else 30000);
      },
      record link {
        last_ntp = ntp;
        packets =
            (receiver_report clock s
              ++ (extended_report ntp s ++ (picture_loss s ++ cast_feedback s)))
            ∷ link.packets;
      },
    )
