-- ===== src/Tests/Sessions.antt =====
-- The receivers of src/protocol at concrete inputs.
use air_show.Prelude.{ℕ, ◌≡◌, ◌≤◌, refl, true, false, [], ◌∷◌, ◌++◌, none, some, Bytes, ◌⊎◌, arith}
use air_show.Dns.Wire.{be32}
use air_show.AirShowHandler.{
  process_frame, Handler, Library, streaming, handle_streaming_data, next_frame,
}
use air_show.AirShowHandler.Frames.{
  Frame, encode_all, process_all, handle_streaming_data-encode_all, handle_streaming_data-append,
  HasHuge, handle_streaming_data-ends, handle_streaming_data-huge,
}

abbrev qt : Library ℕ
qt = record { from_json = λ line. none; init_appsrc = λ p. p; allocates = λ n. true }

abbrev video_frame : Frame
video_frame = record { type = 1; flags = 0; pts_high = 0; pts_low = 5; payload = 11 ∷ 12 ∷ [] }

abbrev with_buffer : Bytes → Handler ℕ
with_buffer bytes = record {
  running = true;
  client = some 3;
  pipeline = some (record { video_appsrc = true; audio_appsrc = true });
  state = streaming;
  audio_cap_set = false;
  read_buffer = bytes;
  client_device_name = [];
  effects = [];
}

abbrev two_frames : Bytes
two_frames = encode_all (video_frame ∷ video_frame ∷ []) ++ (1 ∷ 0 ∷ [])

two_frames_tail : next_frame (1 ∷ 0 ∷ []) ≡ none
unfolding next_frame
two_frames_tail = refl

handle_streaming_data-encode_all_example :
    handle_streaming_data qt 5 (with_buffer two_frames)
    ≡ some (process_all qt (video_frame ∷ video_frame ∷ []) (1 ∷ 0 ∷ []) (with_buffer two_frames))
handle_streaming_data-encode_all_example =
    handle_streaming_data-encode_all qt (video_frame ∷ video_frame ∷ []) (1 ∷ 0 ∷ []) 5
      (with_buffer two_frames) (omega arith, (omega arith, tt)) two_frames_tail (omega arith) refl

abbrev short_frame : Bytes
short_frame = 9 ∷ 0 ∷ 0 ∷ 0 ∷ 0 ∷ 1 ∷ 0 ∷ 0 ∷ 0 ∷ 0 ∷ 0 ∷ 0 ∷ 0 ∷ 0 ∷ 0 ∷ 0 ∷ []

first_piece : handle_streaming_data qt 1 (with_buffer short_frame) ≡ some (with_buffer short_frame)
unfolding handle_streaming_data next_frame be32
first_piece = refl

second_piece :
    handle_streaming_data qt 2 (with_buffer (short_frame ++ (7 ∷ []))) ≡ some (with_buffer [])
unfolding handle_streaming_data next_frame be32 process_frame
second_piece = refl

handle_streaming_data-append_example :
    (n : ℕ) × (handle_streaming_data qt n (with_buffer (short_frame ++ (7 ∷ [])))
      ≡ some (with_buffer []))
handle_streaming_data-append_example =
    handle_streaming_data-append qt 1 2 (with_buffer short_frame) (with_buffer short_frame)
      (with_buffer []) (7 ∷ []) first_piece second_piece

handle_streaming_data-ends_example :
    ((h' : Handler ℕ) × (handle_streaming_data qt 20 (with_buffer short_frame) ≡ some h'))
    ⊎ HasHuge short_frame
handle_streaming_data-ends_example =
    handle_streaming_data-ends qt 20 (with_buffer short_frame) (omega arith)

abbrev huge_frame : Bytes
huge_frame = 1 ∷ 0 ∷ 255 ∷ 255 ∷ 255 ∷ 0 ∷ 0 ∷ 0 ∷ 0 ∷ 0 ∷ 0 ∷ 0 ∷ 0 ∷ 0 ∷ 0 ∷ 0 ∷ []

huge_low : 2147483632 ≤ be32 huge_frame 2
unfolding be32
huge_low = omega arith

huge_high : be32 huge_frame 2 ≤ 4294967280
unfolding be32
huge_high = omega arith

handle_streaming_data-huge_example : handle_streaming_data qt 99 (with_buffer huge_frame) ≡ none
handle_streaming_data-huge_example =
    handle_streaming_data-huge qt 99 (with_buffer huge_frame) (omega arith) huge_low huge_high
