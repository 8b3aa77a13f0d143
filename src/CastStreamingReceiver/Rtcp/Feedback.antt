-- ===== src/CastStreamingReceiver/Rtcp/Feedback.antt =====
-- The fields of the RTCP packets stay in their widths, and their time moves on.
use air_show.Prelude.{
  ℕ, zero, suc, ◌+◌, ◌-◌, ◌*◌, ◌%◌, ◌^◌, ◌≤◌, ◌<◌, Bool, List, [], ◌∷◌, length, length-append, All,
  All-append, arith, leb, ◌||◌, inl, inr, Bool-cases, Option-cases,
}
use air_show.CastStreamingReceiver.{Frames, StreamState, find_frame}
use air_show.CastStreamingReceiver.Rtcp.{
  Loss, missing_bits, packet_losses, frame_losses, losses_of, next_ntp_timestamp, ntp_of,
}

-- The time of a report is behind that of the report before, whatever the clock says.
pub next_ntp_timestamp-increases :
    (since_epoch last_ntp : ℕ)
    → last_ntp + 1 < 2 ^ 64
    → last_ntp < next_ntp_timestamp since_epoch last_ntp
unfolding next_ntp_timestamp
next_ntp_timestamp-increases since_epoch last_ntp h =
    elim (Bool-cases (leb (ntp_of since_epoch) last_ntp)) [
      | inl e ↦ rw e (omega (arith, h))
      | inr e ↦ rw e (ground arith)
    ]

-- A loss that fits its fields: a byte, two bytes and a byte.
pub record IsLoss (l : Loss) : Type 0 where
  pub frame : l.frame < 256
  pub packet : l.packet < 65536
  pub bits : l.bits < 256

-- Doubled so often.
abbrev doubled : ℕ → ℕ → ℕ
doubled zero weight = weight
doubled (suc n) weight = doubled n (weight * 2)

weight-doubled : (n weight : ℕ) → weight ≤ doubled n weight
weight-doubled zero weight = omega arith
weight-doubled (suc n) weight = omega (arith, weight-doubled n (weight * 2))

missing_bits-doubled :
    (n weight : ℕ) (have : List Bool) → missing_bits n weight have + weight ≤ doubled n weight
unfolding missing_bits
missing_bits-doubled zero weight have = omega arith
missing_bits-doubled (suc n) weight [] = omega (arith, weight-doubled n (weight * 2))
missing_bits-doubled (suc n) weight (h ∷ have) =
    ground (arith, missing_bits-doubled n (weight * 2) have)

packet_losses-IsLoss :
    (frame pid skipped : ℕ) (have : List Bool) (losses : List Loss)
    → (length losses ≤ 255) × All IsLoss losses
    → (length (packet_losses frame pid skipped have losses) ≤ 255)
      × All IsLoss (packet_losses frame pid skipped have losses)
unfolding packet_losses
packet_losses-IsLoss frame pid skipped [] losses h = h
packet_losses-IsLoss frame pid (suc skipped) (x ∷ have) losses h =
    packet_losses-IsLoss frame (suc pid) skipped have losses h
packet_losses-IsLoss frame pid zero (x ∷ have) losses h =
    elim (Bool-cases (x || leb 255 (length losses))) [
      | inl e ↦ rw e (packet_losses-IsLoss frame (suc pid) 0 have losses h)
      | inr e ↦ rw e (
          packet_losses-IsLoss frame (suc pid) 8 have _ (
            ground (
              arith,
              length-append losses (
                  record { frame = frame % 256; packet = pid % 65536; bits = missing_bits 8 1 have }
                  ∷ []),
            ),
            All-append IsLoss losses _ h.1 (
              record {
                frame = omega arith;
                packet = omega arith;
                bits = omega (arith, missing_bits-doubled 8 1 have);
              },
              tt,
            ),
          ))
    ]

frame_losses-IsLoss :
    (count id : ℕ) (frames : Frames) (losses : List Loss)
    → (length losses ≤ 255) × All IsLoss losses
    → (length (frame_losses count id frames losses) ≤ 255)
      × All IsLoss (frame_losses count id frames losses)
unfolding frame_losses
frame_losses-IsLoss zero id frames losses h = h
frame_losses-IsLoss (suc count) id frames losses h =
    frame_losses-IsLoss count (suc id) frames _ (elim (Bool-cases (leb 255 (length losses))) [
      | inl e ↦ rw e h
      | inr e ↦ elim (Option-cases (find_frame id frames)) [
        | inl n ↦
            rw (e, n)
              (
                ground (
                  arith,
                  length-append losses
                      (record { frame = id % 256; packet = 0xFFFF; bits = 0 } ∷ []),
                ),
                All-append IsLoss losses _ h.1
                    (record { frame = omega arith; packet = omega arith; bits = omega arith }, tt),
              )
        | inr (f, n) ↦ rw (e, n) (packet_losses-IsLoss id 0 0 f.have losses h)
      ]
    ])

-- The losses that a feedback packet lists are at most 255, and each fits its fields.
pub losses_of-IsLoss : (s : StreamState) → (length (losses_of s) ≤ 255) × All IsLoss (losses_of s)
unfolding losses_of
losses_of-IsLoss s =
    frame_losses-IsLoss (s.highest_frame_id - (s.checkpoint + 1)) (s.checkpoint + 1) s.frames []
      (omega arith, tt)
