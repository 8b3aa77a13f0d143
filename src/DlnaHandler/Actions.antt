-- ===== src/DlnaHandler/Actions.antt =====
-- The SOAP actions: `handleSoapAction` and the handlers that it calls, src/protocol/DlnaHandler.cpp.
-- The request's document, the pipeline's answers and the answer of `checkConnection` come with the
-- request.
use air_show.Prelude.{
  ℕ, ◌-◌, ◌^◌, Bool, false, not, ◌&&◌, ◌||◌, List, [], ◌∷◌, Option, none, some, if◌then◌else◌, leb,
  min, Bytes, same_bytes, is_empty,
}
use air_show.Settings.{Text}
use air_show.MdnsResponder.Labels.{to_string}
use air_show.DlnaHandler.{
  stopped, playing, paused, set_uri_job, play_job, stop_job, pause_job, seek_job, volume_job,
  mute_job, Handler, enqueue, is_stopped, transport_state_string,
}
use air_show.DlnaHandler.Time.{parse_time_string, format_gst_time}
use air_show.DlnaHandler.Names.{
  current_uri_text, current_uri_meta_data_text, unit_text, target_text, desired_volume_text,
  desired_mute_text, actions_text, current_transport_state_text, current_transport_status_text,
  current_speed_text, track_text, track_duration_text, track_meta_data_text, track_uri_text,
  rel_time_text, abs_time_text, rel_count_text, abs_count_text, nr_tracks_text, media_duration_text,
  next_uri_text, next_uri_meta_data_text, play_medium_text, record_medium_text, write_status_text,
  current_volume_text, current_mute_text, source_text, sink_text, network_text,
  not_implemented_text, ok_text, all_actions_text, zero_text, one_text, true_text,
  capital_true_text, count_text, sink_protocol_info, rel_time_unit,
}

pub data Service : Type 0 where
  av_transport rendering_control connection_manager : Service

-- `getArgValue` on the request's document, an address that is not null, and what the calls of
-- the pipeline, of `checkConnection`, `stoi` and `sscanf` answer. Numbers are patterns: 64 bits for the
-- times, 32 for the volume, which is `(int)(volume * 100 + 0.5)`.
pub record Request (Address : Type 0) : Type 0 where
  pub action : Text
  pub get_arg_value : Text → Text
  pub client_addr : Option Address
  pub check_connection : Bool
  pub query_position : ℕ
  pub query_duration : ℕ
  pub volume : ℕ
  pub is_muted : Bool
  pub stoi : Text → Option ℕ
  pub scan : Bytes → Option (ℕ × ℕ × ℕ)

-- The code of `set_ErrCode`, or the arguments of the response, which has the action's name.
pub data Reply : Type 0 where
  refused : ℕ → Reply
  response : Service → List (Text × Text) → Reply

-- `max(0, min(100, v))`.
abbrev pub clamp : ℕ → ℕ
clamp v = if leb (2 ^ 31) v then 0 else min 100 v

-- 100 where `stoi` throws.
abbrev pub raw_volume : Option ℕ → ℕ
raw_volume none = 100
raw_volume (some v) = v

abbrev pub negative_time : ℕ
negative_time = 2 ^ 64 - 1

abbrev pub duration_text : ℕ → Text
duration_text ns = if leb (2 ^ 63) ns then not_implemented_text else format_gst_time ns

module _ {Address : Type 0} (r : Request Address) where
  unfoldable pub on_set_av_transport_uri : Handler → Reply × Handler
  on_set_av_transport_uri h =
      let uri = r.get_arg_value current_uri_text in
      let metadata = r.get_arg_value current_uri_meta_data_text in
      let stored = record h {
        current_uri = uri;
        current_metadata = metadata;
        transport_state = stopped;
      } in
      (response av_transport [], enqueue (set_uri_job uri) stored)

  unfoldable pub on_play : Handler → Reply × Handler
  on_play h = (response av_transport [], record (enqueue play_job h) { transport_state = playing })

  unfoldable pub on_stop : Handler → Reply × Handler
  on_stop h = (response av_transport [], record (enqueue stop_job h) { transport_state = stopped })

  unfoldable pub on_pause : Handler → Reply × Handler
  on_pause h = (response av_transport [], record (enqueue pause_job h) { transport_state = paused })

  unfoldable pub on_seek : Handler → Reply × Handler
  unfolding parse_time_string
  on_seek h =
      if not (same_bytes (r.get_arg_value unit_text) rel_time_unit) then (refused 710, h) else (
        response av_transport [],
        enqueue (seek_job (parse_time_string r.scan (r.get_arg_value target_text))) h,
      )

  unfoldable pub on_get_transport_info : Handler → Reply
  unfolding transport_state_string
  on_get_transport_info h = response av_transport (
      (current_transport_state_text, transport_state_string h.transport_state)
      ∷ (current_transport_status_text, ok_text)
      ∷ (current_speed_text, one_text)
      ∷ [])

  unfoldable pub on_get_position_info : Handler → Reply
  unfolding format_gst_time
  on_get_position_info h =
      let position = if h.has_pipeline then r.query_position else negative_time in
      let duration = if h.has_pipeline then r.query_duration else negative_time in
      let unloaded = is_stopped h.transport_state && is_empty h.current_uri in
      response av_transport (
        (track_text, if unloaded then zero_text else one_text)
        ∷ (track_duration_text, duration_text duration)
        ∷ (track_meta_data_text, h.current_metadata)
        ∷ (track_uri_text, h.current_uri)
        ∷ (rel_time_text, format_gst_time position)
        ∷ (abs_time_text, not_implemented_text)
        ∷ (rel_count_text, count_text)
        ∷ (abs_count_text, count_text)
        ∷ [])

  unfoldable pub on_get_media_info : Handler → Reply
  unfolding format_gst_time
  on_get_media_info h =
      let duration = if h.has_pipeline then r.query_duration else negative_time in
      response av_transport (
        (nr_tracks_text, if is_empty h.current_uri then zero_text else one_text)
        ∷ (media_duration_text, duration_text duration)
        ∷ (current_uri_text, h.current_uri)
        ∷ (current_uri_meta_data_text, h.current_metadata)
        ∷ (next_uri_text, [])
        ∷ (next_uri_meta_data_text, [])
        ∷ (play_medium_text, network_text)
        ∷ (record_medium_text, not_implemented_text)
        ∷ (write_status_text, not_implemented_text)
        ∷ [])

  unfoldable pub on_set_volume : Handler → Reply × Handler
  on_set_volume h =
      let raw = raw_volume (r.stoi (r.get_arg_value desired_volume_text)) in
      (response rendering_control [], enqueue (volume_job (clamp raw)) h)

  unfoldable pub on_get_volume : Handler → Reply
  unfolding to_string
  on_get_volume h =
      let percent = if h.has_pipeline then clamp r.volume else 100 in
      response rendering_control ((current_volume_text, to_string percent) ∷ [])

  unfoldable pub on_set_mute : Handler → Reply × Handler
  on_set_mute h =
      let text = r.get_arg_value desired_mute_text in
      let mute =
        same_bytes text one_text
        || same_bytes text true_text
        || same_bytes text capital_true_text in
      (response rendering_control [], enqueue (mute_job mute) h)

  unfoldable pub on_get_mute : Handler → Reply
  on_get_mute h =
      let muted = if h.has_pipeline then r.is_muted else false in
      response rendering_control ((current_mute_text, if muted then one_text else zero_text) ∷ [])

  unfoldable pub on_get_protocol_info : Reply
  on_get_protocol_info =
      response connection_manager ((source_text, []) ∷ (sink_text, sink_protocol_info) ∷ [])

  abbrev pub current_transport_actions : Handler → Reply
  current_transport_actions h = response av_transport (
      (
        actions_text,
        if is_stopped h.transport_state && is_empty h.current_uri then [] else all_actions_text,
      )
      ∷ [])
