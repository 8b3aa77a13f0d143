-- ===== src/MiracastHandler/Loop.antt =====
-- The loop of `onRtspData` in src/protocol/MiracastHandler.cpp: how much it takes off its buffer.
use air_show.Prelude.{
  ℕ, zero, suc, ◌≤◌, ◌^◌, ◌≡◌, refl, ◌∙◌, false, none, some, Bytes, ◌++◌, take, arith,
}
use air_show.MiracastHandler.{
  State, idle, waiting_source_ready, connecting_to_source, negotiating_m1, negotiating_m2,
  negotiating_m3, negotiating_m4, negotiating_m5, sending_setup, sending_play, streaming,
  tearing_down, Handler, Library, is_request_of, teardown_text, process_in, process_message,
  process_messages, send_rtsp_request,
}
use air_show.MiracastHandler.Rtsp.{
  RtspMessage, parse_next_message, parse_headers, index_of, crlf, message_end,
}

module _ (lib : Library) where
  process_in-buffer :
      (s : State) (m : RtspMessage) (h : Handler)
      → is_request_of teardown_text m ≡ false
      → (process_in lib s m h).rtsp_buffer ≡ h.rtsp_buffer
  unfolding process_in send_rtsp_request
  process_in-buffer idle m h other = ground (arith, other)
  process_in-buffer waiting_source_ready m h other = ground (arith, other)
  process_in-buffer connecting_to_source m h other = ground (arith, other)
  process_in-buffer tearing_down m h other = ground (arith, other)
  process_in-buffer negotiating_m1 m h other = ground (arith, other)
  process_in-buffer negotiating_m2 m h other = ground (arith, other)
  process_in-buffer negotiating_m3 m h other = ground (arith, other)
  process_in-buffer negotiating_m4 m h other = ground (arith, other)
  process_in-buffer negotiating_m5 m h other = ground (arith, other)
  process_in-buffer sending_setup m h other = ground (arith, other)
  process_in-buffer sending_play m h other = ground (arith, other)
  process_in-buffer streaming m h other = ground (arith, other)

  loop-more :
      (fuel : ℕ) (h : Handler) (m : RtspMessage) (rest : Bytes)
      → parse_next_message lib.texts h.rtsp_buffer ≡ some (m, rest)
      → process_messages lib (suc fuel) h
        ≡ process_messages lib fuel (process_message lib m (record h { rtsp_buffer = rest }))
  unfolding process_messages
  loop-more fuel h m rest e = rw (e, process_messages) refl

  loop-stuck :
      (fuel : ℕ) (h : Handler) (m : RtspMessage) (buffer : Bytes)
      → is_request_of teardown_text m ≡ false
      → h.rtsp_buffer ≡ buffer
      → parse_next_message lib.texts buffer ≡ some (m, buffer)
      → process_messages lib fuel h ≡ none
  unfolding process_messages process_message
  loop-stuck zero h m buffer other at e = refl
  loop-stuck (suc fuel) h m buffer other at e =
      let h0 = record h { rtsp_buffer = buffer } in
      loop-more fuel h m buffer (rw at e)
      ∙ loop-stuck fuel (process_message lib m h0) m buffer other
          (process_in-buffer h.state m h0 other) e

  -- A message with a negative Content-Length that makes the size of the message negative is handled again
  -- and again: nothing is taken off the buffer, and the loop does not end, if the message is no TEARDOWN.
  pub process_messages-negative :
      (fuel header_end : ℕ) (h : Handler)
      → index_of (crlf ++ crlf) h.rtsp_buffer 0 ≡ some header_end
      → 2 ^ 31 ≤ (parse_headers lib.texts (take header_end h.rtsp_buffer)).content_length
      → 2 ^ 31
        ≤ message_end lib.texts header_end (parse_headers lib.texts (take header_end h.rtsp_buffer))
      → is_request_of teardown_text (parse_headers lib.texts (take header_end h.rtsp_buffer))
        ≡ false
      → process_messages lib fuel h ≡ none
  unfolding parse_next_message
  process_messages-negative fuel header_end h found below negative other =
      loop-stuck fuel h (parse_headers lib.texts (take header_end h.rtsp_buffer)) h.rtsp_buffer
        other refl (rw (found, parse_next_message) (ground (arith, below, negative)))
