-- ===== src/DlnaHandler/Names.antt =====
-- The action names, argument names and values of src/protocol/DlnaHandler.cpp.
use air_show.Prelude.{[], ◌∷◌}
use air_show.Settings.{Text}

abbrev pub set_av_transport_uri_text : Text
set_av_transport_uri_text =
    b'S' ∷ b'e' ∷ b't' ∷ b'A' ∷ b'V' ∷ b'T' ∷ b'r' ∷ b'a' ∷ b'n' ∷ b's' ∷ b'p' ∷ b'o' ∷ b'r' ∷ b't'
    ∷ b'U' ∷ b'R' ∷ b'I' ∷ []

abbrev pub play_text : Text
play_text = b'P' ∷ b'l' ∷ b'a' ∷ b'y' ∷ []

abbrev pub stop_text : Text
stop_text = b'S' ∷ b't' ∷ b'o' ∷ b'p' ∷ []

abbrev pub pause_text : Text
pause_text = b'P' ∷ b'a' ∷ b'u' ∷ b's' ∷ b'e' ∷ []

abbrev pub seek_text : Text
seek_text = b'S' ∷ b'e' ∷ b'e' ∷ b'k' ∷ []

abbrev pub get_transport_info_text : Text
get_transport_info_text =
    b'G' ∷ b'e' ∷ b't' ∷ b'T' ∷ b'r' ∷ b'a' ∷ b'n' ∷ b's' ∷ b'p' ∷ b'o' ∷ b'r' ∷ b't' ∷ b'I' ∷ b'n'
    ∷ b'f' ∷ b'o' ∷ []

abbrev pub get_position_info_text : Text
get_position_info_text =
    b'G' ∷ b'e' ∷ b't' ∷ b'P' ∷ b'o' ∷ b's' ∷ b'i' ∷ b't' ∷ b'i' ∷ b'o' ∷ b'n' ∷ b'I' ∷ b'n' ∷ b'f'
    ∷ b'o' ∷ []

abbrev pub get_media_info_text : Text
get_media_info_text =
    b'G' ∷ b'e' ∷ b't' ∷ b'M' ∷ b'e' ∷ b'd' ∷ b'i' ∷ b'a' ∷ b'I' ∷ b'n' ∷ b'f' ∷ b'o' ∷ []

abbrev pub get_device_capabilities_text : Text
get_device_capabilities_text =
    b'G' ∷ b'e' ∷ b't' ∷ b'D' ∷ b'e' ∷ b'v' ∷ b'i' ∷ b'c' ∷ b'e' ∷ b'C' ∷ b'a' ∷ b'p' ∷ b'a' ∷ b'b'
    ∷ b'i' ∷ b'l' ∷ b'i' ∷ b't' ∷ b'i' ∷ b'e' ∷ b's' ∷ []

abbrev pub get_transport_settings_text : Text
get_transport_settings_text =
    b'G' ∷ b'e' ∷ b't' ∷ b'T' ∷ b'r' ∷ b'a' ∷ b'n' ∷ b's' ∷ b'p' ∷ b'o' ∷ b'r' ∷ b't' ∷ b'S' ∷ b'e'
    ∷ b't' ∷ b't' ∷ b'i' ∷ b'n' ∷ b'g' ∷ b's' ∷ []

abbrev pub get_current_transport_actions_text : Text
get_current_transport_actions_text =
    b'G' ∷ b'e' ∷ b't' ∷ b'C' ∷ b'u' ∷ b'r' ∷ b'r' ∷ b'e' ∷ b'n' ∷ b't' ∷ b'T' ∷ b'r' ∷ b'a' ∷ b'n'
    ∷ b's' ∷ b'p' ∷ b'o' ∷ b'r' ∷ b't' ∷ b'A' ∷ b'c' ∷ b't' ∷ b'i' ∷ b'o' ∷ b'n' ∷ b's' ∷ []

abbrev pub set_volume_text : Text
set_volume_text = b'S' ∷ b'e' ∷ b't' ∷ b'V' ∷ b'o' ∷ b'l' ∷ b'u' ∷ b'm' ∷ b'e' ∷ []

abbrev pub get_volume_text : Text
get_volume_text = b'G' ∷ b'e' ∷ b't' ∷ b'V' ∷ b'o' ∷ b'l' ∷ b'u' ∷ b'm' ∷ b'e' ∷ []

abbrev pub set_mute_text : Text
set_mute_text = b'S' ∷ b'e' ∷ b't' ∷ b'M' ∷ b'u' ∷ b't' ∷ b'e' ∷ []

abbrev pub get_mute_text : Text
get_mute_text = b'G' ∷ b'e' ∷ b't' ∷ b'M' ∷ b'u' ∷ b't' ∷ b'e' ∷ []

abbrev pub list_presets_text : Text
list_presets_text = b'L' ∷ b'i' ∷ b's' ∷ b't' ∷ b'P' ∷ b'r' ∷ b'e' ∷ b's' ∷ b'e' ∷ b't' ∷ b's' ∷ []

abbrev pub select_preset_text : Text
select_preset_text =
    b'S' ∷ b'e' ∷ b'l' ∷ b'e' ∷ b'c' ∷ b't' ∷ b'P' ∷ b'r' ∷ b'e' ∷ b's' ∷ b'e' ∷ b't' ∷ []

abbrev pub get_protocol_info_text : Text
get_protocol_info_text =
    b'G' ∷ b'e' ∷ b't' ∷ b'P' ∷ b'r' ∷ b'o' ∷ b't' ∷ b'o' ∷ b'c' ∷ b'o' ∷ b'l' ∷ b'I' ∷ b'n' ∷ b'f'
    ∷ b'o' ∷ []

abbrev pub get_current_connection_i_ds_text : Text
get_current_connection_i_ds_text =
    b'G' ∷ b'e' ∷ b't' ∷ b'C' ∷ b'u' ∷ b'r' ∷ b'r' ∷ b'e' ∷ b'n' ∷ b't' ∷ b'C' ∷ b'o' ∷ b'n' ∷ b'n'
    ∷ b'e' ∷ b'c' ∷ b't' ∷ b'i' ∷ b'o' ∷ b'n' ∷ b'I' ∷ b'D' ∷ b's' ∷ []

abbrev pub get_current_connection_info_text : Text
get_current_connection_info_text =
    b'G' ∷ b'e' ∷ b't' ∷ b'C' ∷ b'u' ∷ b'r' ∷ b'r' ∷ b'e' ∷ b'n' ∷ b't' ∷ b'C' ∷ b'o' ∷ b'n' ∷ b'n'
    ∷ b'e' ∷ b'c' ∷ b't' ∷ b'i' ∷ b'o' ∷ b'n' ∷ b'I' ∷ b'n' ∷ b'f' ∷ b'o' ∷ []

abbrev pub current_uri_text : Text
current_uri_text = b'C' ∷ b'u' ∷ b'r' ∷ b'r' ∷ b'e' ∷ b'n' ∷ b't' ∷ b'U' ∷ b'R' ∷ b'I' ∷ []

abbrev pub current_uri_meta_data_text : Text
current_uri_meta_data_text =
    b'C' ∷ b'u' ∷ b'r' ∷ b'r' ∷ b'e' ∷ b'n' ∷ b't' ∷ b'U' ∷ b'R' ∷ b'I' ∷ b'M' ∷ b'e' ∷ b't' ∷ b'a'
    ∷ b'D' ∷ b'a' ∷ b't' ∷ b'a' ∷ []

abbrev pub unit_text : Text
unit_text = b'U' ∷ b'n' ∷ b'i' ∷ b't' ∷ []

abbrev pub target_text : Text
target_text = b'T' ∷ b'a' ∷ b'r' ∷ b'g' ∷ b'e' ∷ b't' ∷ []

abbrev pub desired_volume_text : Text
desired_volume_text =
    b'D' ∷ b'e' ∷ b's' ∷ b'i' ∷ b'r' ∷ b'e' ∷ b'd' ∷ b'V' ∷ b'o' ∷ b'l' ∷ b'u' ∷ b'm' ∷ b'e' ∷ []

abbrev pub desired_mute_text : Text
desired_mute_text = b'D' ∷ b'e' ∷ b's' ∷ b'i' ∷ b'r' ∷ b'e' ∷ b'd' ∷ b'M' ∷ b'u' ∷ b't' ∷ b'e' ∷ []

abbrev pub play_media_text : Text
play_media_text = b'P' ∷ b'l' ∷ b'a' ∷ b'y' ∷ b'M' ∷ b'e' ∷ b'd' ∷ b'i' ∷ b'a' ∷ []

abbrev pub rec_media_text : Text
rec_media_text = b'R' ∷ b'e' ∷ b'c' ∷ b'M' ∷ b'e' ∷ b'd' ∷ b'i' ∷ b'a' ∷ []

abbrev pub rec_quality_modes_text : Text
rec_quality_modes_text =
    b'R' ∷ b'e' ∷ b'c' ∷ b'Q' ∷ b'u' ∷ b'a' ∷ b'l' ∷ b'i' ∷ b't' ∷ b'y' ∷ b'M' ∷ b'o' ∷ b'd' ∷ b'e'
    ∷ b's' ∷ []

abbrev pub play_mode_text : Text
play_mode_text = b'P' ∷ b'l' ∷ b'a' ∷ b'y' ∷ b'M' ∷ b'o' ∷ b'd' ∷ b'e' ∷ []

abbrev pub rec_quality_mode_text : Text
rec_quality_mode_text =
    b'R' ∷ b'e' ∷ b'c' ∷ b'Q' ∷ b'u' ∷ b'a' ∷ b'l' ∷ b'i' ∷ b't' ∷ b'y' ∷ b'M' ∷ b'o' ∷ b'd' ∷ b'e'
    ∷ []

abbrev pub actions_text : Text
actions_text = b'A' ∷ b'c' ∷ b't' ∷ b'i' ∷ b'o' ∷ b'n' ∷ b's' ∷ []

abbrev pub current_preset_name_list_text : Text
current_preset_name_list_text =
    b'C' ∷ b'u' ∷ b'r' ∷ b'r' ∷ b'e' ∷ b'n' ∷ b't' ∷ b'P' ∷ b'r' ∷ b'e' ∷ b's' ∷ b'e' ∷ b't' ∷ b'N'
    ∷ b'a' ∷ b'm' ∷ b'e' ∷ b'L' ∷ b'i' ∷ b's' ∷ b't' ∷ []

abbrev pub connection_i_ds_text : Text
connection_i_ds_text =
    b'C' ∷ b'o' ∷ b'n' ∷ b'n' ∷ b'e' ∷ b'c' ∷ b't' ∷ b'i' ∷ b'o' ∷ b'n' ∷ b'I' ∷ b'D' ∷ b's' ∷ []

abbrev pub rcs_id_text : Text
rcs_id_text = b'R' ∷ b'c' ∷ b's' ∷ b'I' ∷ b'D' ∷ []

abbrev pub av_transport_id_text : Text
av_transport_id_text =
    b'A' ∷ b'V' ∷ b'T' ∷ b'r' ∷ b'a' ∷ b'n' ∷ b's' ∷ b'p' ∷ b'o' ∷ b'r' ∷ b't' ∷ b'I' ∷ b'D' ∷ []

abbrev pub protocol_info_text : Text
protocol_info_text =
    b'P' ∷ b'r' ∷ b'o' ∷ b't' ∷ b'o' ∷ b'c' ∷ b'o' ∷ b'l' ∷ b'I' ∷ b'n' ∷ b'f' ∷ b'o' ∷ []

abbrev pub peer_connection_manager_text : Text
peer_connection_manager_text =
    b'P' ∷ b'e' ∷ b'e' ∷ b'r' ∷ b'C' ∷ b'o' ∷ b'n' ∷ b'n' ∷ b'e' ∷ b'c' ∷ b't' ∷ b'i' ∷ b'o' ∷ b'n'
    ∷ b'M' ∷ b'a' ∷ b'n' ∷ b'a' ∷ b'g' ∷ b'e' ∷ b'r' ∷ []

abbrev pub peer_connection_id_text : Text
peer_connection_id_text =
    b'P' ∷ b'e' ∷ b'e' ∷ b'r' ∷ b'C' ∷ b'o' ∷ b'n' ∷ b'n' ∷ b'e' ∷ b'c' ∷ b't' ∷ b'i' ∷ b'o' ∷ b'n'
    ∷ b'I' ∷ b'D' ∷ []

abbrev pub direction_text : Text
direction_text = b'D' ∷ b'i' ∷ b'r' ∷ b'e' ∷ b'c' ∷ b't' ∷ b'i' ∷ b'o' ∷ b'n' ∷ []

abbrev pub status_text : Text
status_text = b'S' ∷ b't' ∷ b'a' ∷ b't' ∷ b'u' ∷ b's' ∷ []

abbrev pub current_transport_state_text : Text
current_transport_state_text =
    b'C' ∷ b'u' ∷ b'r' ∷ b'r' ∷ b'e' ∷ b'n' ∷ b't' ∷ b'T' ∷ b'r' ∷ b'a' ∷ b'n' ∷ b's' ∷ b'p' ∷ b'o'
    ∷ b'r' ∷ b't' ∷ b'S' ∷ b't' ∷ b'a' ∷ b't' ∷ b'e' ∷ []

abbrev pub current_transport_status_text : Text
current_transport_status_text =
    b'C' ∷ b'u' ∷ b'r' ∷ b'r' ∷ b'e' ∷ b'n' ∷ b't' ∷ b'T' ∷ b'r' ∷ b'a' ∷ b'n' ∷ b's' ∷ b'p' ∷ b'o'
    ∷ b'r' ∷ b't' ∷ b'S' ∷ b't' ∷ b'a' ∷ b't' ∷ b'u' ∷ b's' ∷ []

abbrev pub current_speed_text : Text
current_speed_text =
    b'C' ∷ b'u' ∷ b'r' ∷ b'r' ∷ b'e' ∷ b'n' ∷ b't' ∷ b'S' ∷ b'p' ∷ b'e' ∷ b'e' ∷ b'd' ∷ []

abbrev pub track_text : Text
track_text = b'T' ∷ b'r' ∷ b'a' ∷ b'c' ∷ b'k' ∷ []

abbrev pub track_duration_text : Text
track_duration_text =
    b'T' ∷ b'r' ∷ b'a' ∷ b'c' ∷ b'k' ∷ b'D' ∷ b'u' ∷ b'r' ∷ b'a' ∷ b't' ∷ b'i' ∷ b'o' ∷ b'n' ∷ []

abbrev pub track_meta_data_text : Text
track_meta_data_text =
    b'T' ∷ b'r' ∷ b'a' ∷ b'c' ∷ b'k' ∷ b'M' ∷ b'e' ∷ b't' ∷ b'a' ∷ b'D' ∷ b'a' ∷ b't' ∷ b'a' ∷ []

abbrev pub track_uri_text : Text
track_uri_text = b'T' ∷ b'r' ∷ b'a' ∷ b'c' ∷ b'k' ∷ b'U' ∷ b'R' ∷ b'I' ∷ []

abbrev pub rel_time_text : Text
rel_time_text = b'R' ∷ b'E' ∷ b'L' ∷ b'_' ∷ b'T' ∷ b'I' ∷ b'M' ∷ b'E' ∷ []

abbrev pub abs_time_text : Text
abs_time_text = b'A' ∷ b'b' ∷ b's' ∷ b'T' ∷ b'i' ∷ b'm' ∷ b'e' ∷ []

abbrev pub rel_count_text : Text
rel_count_text = b'R' ∷ b'e' ∷ b'l' ∷ b'C' ∷ b'o' ∷ b'u' ∷ b'n' ∷ b't' ∷ []

abbrev pub abs_count_text : Text
abs_count_text = b'A' ∷ b'b' ∷ b's' ∷ b'C' ∷ b'o' ∷ b'u' ∷ b'n' ∷ b't' ∷ []

abbrev pub nr_tracks_text : Text
nr_tracks_text = b'N' ∷ b'r' ∷ b'T' ∷ b'r' ∷ b'a' ∷ b'c' ∷ b'k' ∷ b's' ∷ []

abbrev pub media_duration_text : Text
media_duration_text =
    b'M' ∷ b'e' ∷ b'd' ∷ b'i' ∷ b'a' ∷ b'D' ∷ b'u' ∷ b'r' ∷ b'a' ∷ b't' ∷ b'i' ∷ b'o' ∷ b'n' ∷ []

abbrev pub next_uri_text : Text
next_uri_text = b'N' ∷ b'e' ∷ b'x' ∷ b't' ∷ b'U' ∷ b'R' ∷ b'I' ∷ []

abbrev pub next_uri_meta_data_text : Text
next_uri_meta_data_text =
    b'N' ∷ b'e' ∷ b'x' ∷ b't' ∷ b'U' ∷ b'R' ∷ b'I' ∷ b'M' ∷ b'e' ∷ b't' ∷ b'a' ∷ b'D' ∷ b'a' ∷ b't'
    ∷ b'a' ∷ []

abbrev pub play_medium_text : Text
play_medium_text = b'P' ∷ b'l' ∷ b'a' ∷ b'y' ∷ b'M' ∷ b'e' ∷ b'd' ∷ b'i' ∷ b'u' ∷ b'm' ∷ []

abbrev pub record_medium_text : Text
record_medium_text =
    b'R' ∷ b'e' ∷ b'c' ∷ b'o' ∷ b'r' ∷ b'd' ∷ b'M' ∷ b'e' ∷ b'd' ∷ b'i' ∷ b'u' ∷ b'm' ∷ []

abbrev pub write_status_text : Text
write_status_text = b'W' ∷ b'r' ∷ b'i' ∷ b't' ∷ b'e' ∷ b'S' ∷ b't' ∷ b'a' ∷ b't' ∷ b'u' ∷ b's' ∷ []

abbrev pub current_volume_text : Text
current_volume_text =
    b'C' ∷ b'u' ∷ b'r' ∷ b'r' ∷ b'e' ∷ b'n' ∷ b't' ∷ b'V' ∷ b'o' ∷ b'l' ∷ b'u' ∷ b'm' ∷ b'e' ∷ []

abbrev pub current_mute_text : Text
current_mute_text = b'C' ∷ b'u' ∷ b'r' ∷ b'r' ∷ b'e' ∷ b'n' ∷ b't' ∷ b'M' ∷ b'u' ∷ b't' ∷ b'e' ∷ []

abbrev pub source_text : Text
source_text = b'S' ∷ b'o' ∷ b'u' ∷ b'r' ∷ b'c' ∷ b'e' ∷ []

abbrev pub sink_text : Text
sink_text = b'S' ∷ b'i' ∷ b'n' ∷ b'k' ∷ []

abbrev pub network_text : Text
network_text = b'N' ∷ b'E' ∷ b'T' ∷ b'W' ∷ b'O' ∷ b'R' ∷ b'K' ∷ []

abbrev pub not_implemented_text : Text
not_implemented_text =
    b'N' ∷ b'O' ∷ b'T' ∷ b'_' ∷ b'I' ∷ b'M' ∷ b'P' ∷ b'L' ∷ b'E' ∷ b'M' ∷ b'E' ∷ b'N' ∷ b'T' ∷ b'E'
    ∷ b'D' ∷ []

abbrev pub normal_text : Text
normal_text = b'N' ∷ b'O' ∷ b'R' ∷ b'M' ∷ b'A' ∷ b'L' ∷ []

abbrev pub factory_defaults_text : Text
factory_defaults_text =
    b'F' ∷ b'a' ∷ b'c' ∷ b't' ∷ b'o' ∷ b'r' ∷ b'y' ∷ b'D' ∷ b'e' ∷ b'f' ∷ b'a' ∷ b'u' ∷ b'l' ∷ b't'
    ∷ b's' ∷ []

abbrev pub input_text : Text
input_text = b'I' ∷ b'n' ∷ b'p' ∷ b'u' ∷ b't' ∷ []

abbrev pub ok_text : Text
ok_text = b'O' ∷ b'K' ∷ []

abbrev pub stopped_text : Text
stopped_text = b'S' ∷ b'T' ∷ b'O' ∷ b'P' ∷ b'P' ∷ b'E' ∷ b'D' ∷ []

abbrev pub playing_text : Text
playing_text = b'P' ∷ b'L' ∷ b'A' ∷ b'Y' ∷ b'I' ∷ b'N' ∷ b'G' ∷ []

abbrev pub paused_playback_text : Text
paused_playback_text =
    b'P' ∷ b'A' ∷ b'U' ∷ b'S' ∷ b'E' ∷ b'D' ∷ b'_' ∷ b'P' ∷ b'L' ∷ b'A' ∷ b'Y' ∷ b'B' ∷ b'A' ∷ b'C'
    ∷ b'K' ∷ []

abbrev pub transitioning_text : Text
transitioning_text =
    b'T' ∷ b'R' ∷ b'A' ∷ b'N' ∷ b'S' ∷ b'I' ∷ b'T' ∷ b'I' ∷ b'O' ∷ b'N' ∷ b'I' ∷ b'N' ∷ b'G' ∷ []

abbrev pub all_actions_text : Text
all_actions_text =
    b'P' ∷ b'l' ∷ b'a' ∷ b'y' ∷ b',' ∷ b'S' ∷ b't' ∷ b'o' ∷ b'p' ∷ b',' ∷ b'P' ∷ b'a' ∷ b'u' ∷ b's'
    ∷ b'e' ∷ b',' ∷ b'S' ∷ b'e' ∷ b'e' ∷ b'k' ∷ []

abbrev pub zero_text : Text
zero_text = b'0' ∷ []

abbrev pub one_text : Text
one_text = b'1' ∷ []

abbrev pub minus_one_text : Text
minus_one_text = b'-' ∷ b'1' ∷ []

abbrev pub true_text : Text
true_text = b't' ∷ b'r' ∷ b'u' ∷ b'e' ∷ []

abbrev pub capital_true_text : Text
capital_true_text = b'T' ∷ b'r' ∷ b'u' ∷ b'e' ∷ []

abbrev pub count_text : Text
count_text = b'2' ∷ b'1' ∷ b'4' ∷ b'7' ∷ b'4' ∷ b'8' ∷ b'3' ∷ b'6' ∷ b'4' ∷ b'7' ∷ []

abbrev pub no_time_text : Text
no_time_text = b'0' ∷ b':' ∷ b'0' ∷ b'0' ∷ b':' ∷ b'0' ∷ b'0' ∷ []

abbrev pub controller_text : Text
controller_text =
    b'D' ∷ b'L' ∷ b'N' ∷ b'A' ∷ 32 ∷ b'C' ∷ b'o' ∷ b'n' ∷ b't' ∷ b'r' ∷ b'o' ∷ b'l' ∷ b'l' ∷ b'e'
    ∷ b'r' ∷ []

abbrev pub sink_protocol_info : Text
sink_protocol_info =
    b'h' ∷ b't' ∷ b't' ∷ b'p' ∷ b'-' ∷ b'g' ∷ b'e' ∷ b't' ∷ b':' ∷ b'*' ∷ b':' ∷ b'v' ∷ b'i' ∷ b'd'
    ∷ b'e' ∷ b'o' ∷ b'/' ∷ b'm' ∷ b'p' ∷ b'4' ∷ b':' ∷ b'*' ∷ b',' ∷ b'h' ∷ b't' ∷ b't' ∷ b'p'
    ∷ b'-' ∷ b'g' ∷ b'e' ∷ b't' ∷ b':' ∷ b'*' ∷ b':' ∷ b'v' ∷ b'i' ∷ b'd' ∷ b'e' ∷ b'o' ∷ b'/'
    ∷ b'm' ∷ b'p' ∷ b'e' ∷ b'g' ∷ b':' ∷ b'*' ∷ b',' ∷ b'h' ∷ b't' ∷ b't' ∷ b'p' ∷ b'-' ∷ b'g'
    ∷ b'e' ∷ b't' ∷ b':' ∷ b'*' ∷ b':' ∷ b'v' ∷ b'i' ∷ b'd' ∷ b'e' ∷ b'o' ∷ b'/' ∷ b'x' ∷ b'-'
    ∷ b'm' ∷ b'a' ∷ b't' ∷ b'r' ∷ b'o' ∷ b's' ∷ b'k' ∷ b'a' ∷ b':' ∷ b'*' ∷ b',' ∷ b'h' ∷ b't'
    ∷ b't' ∷ b'p' ∷ b'-' ∷ b'g' ∷ b'e' ∷ b't' ∷ b':' ∷ b'*' ∷ b':' ∷ b'v' ∷ b'i' ∷ b'd' ∷ b'e'
    ∷ b'o' ∷ b'/' ∷ b'a' ∷ b'v' ∷ b'i' ∷ b':' ∷ b'*' ∷ b',' ∷ b'h' ∷ b't' ∷ b't' ∷ b'p' ∷ b'-'
    ∷ b'g' ∷ b'e' ∷ b't' ∷ b':' ∷ b'*' ∷ b':' ∷ b'v' ∷ b'i' ∷ b'd' ∷ b'e' ∷ b'o' ∷ b'/' ∷ b'x'
    ∷ b'-' ∷ b'm' ∷ b's' ∷ b'v' ∷ b'i' ∷ b'd' ∷ b'e' ∷ b'o' ∷ b':' ∷ b'*' ∷ b',' ∷ b'h' ∷ b't'
    ∷ b't' ∷ b'p' ∷ b'-' ∷ b'g' ∷ b'e' ∷ b't' ∷ b':' ∷ b'*' ∷ b':' ∷ b'a' ∷ b'u' ∷ b'd' ∷ b'i'
    ∷ b'o' ∷ b'/' ∷ b'm' ∷ b'p' ∷ b'e' ∷ b'g' ∷ b':' ∷ b'*' ∷ b',' ∷ b'h' ∷ b't' ∷ b't' ∷ b'p'
    ∷ b'-' ∷ b'g' ∷ b'e' ∷ b't' ∷ b':' ∷ b'*' ∷ b':' ∷ b'a' ∷ b'u' ∷ b'd' ∷ b'i' ∷ b'o' ∷ b'/'
    ∷ b'm' ∷ b'p' ∷ b'4' ∷ b':' ∷ b'*' ∷ b',' ∷ b'h' ∷ b't' ∷ b't' ∷ b'p' ∷ b'-' ∷ b'g' ∷ b'e'
    ∷ b't' ∷ b':' ∷ b'*' ∷ b':' ∷ b'a' ∷ b'u' ∷ b'd' ∷ b'i' ∷ b'o' ∷ b'/' ∷ b'f' ∷ b'l' ∷ b'a'
    ∷ b'c' ∷ b':' ∷ b'*' ∷ b',' ∷ b'h' ∷ b't' ∷ b't' ∷ b'p' ∷ b'-' ∷ b'g' ∷ b'e' ∷ b't' ∷ b':'
    ∷ b'*' ∷ b':' ∷ b'a' ∷ b'u' ∷ b'd' ∷ b'i' ∷ b'o' ∷ b'/' ∷ b'w' ∷ b'a' ∷ b'v' ∷ b':' ∷ b'*'
    ∷ b',' ∷ b'h' ∷ b't' ∷ b't' ∷ b'p' ∷ b'-' ∷ b'g' ∷ b'e' ∷ b't' ∷ b':' ∷ b'*' ∷ b':' ∷ b'a'
    ∷ b'u' ∷ b'd' ∷ b'i' ∷ b'o' ∷ b'/' ∷ b'x' ∷ b'-' ∷ b'w' ∷ b'a' ∷ b'v' ∷ b':' ∷ b'*' ∷ b','
    ∷ b'h' ∷ b't' ∷ b't' ∷ b'p' ∷ b'-' ∷ b'g' ∷ b'e' ∷ b't' ∷ b':' ∷ b'*' ∷ b':' ∷ b'a' ∷ b'u'
    ∷ b'd' ∷ b'i' ∷ b'o' ∷ b'/' ∷ b'x' ∷ b'-' ∷ b'm' ∷ b's' ∷ b'-' ∷ b'w' ∷ b'm' ∷ b'a' ∷ b':'
    ∷ b'*' ∷ b',' ∷ b'h' ∷ b't' ∷ b't' ∷ b'p' ∷ b'-' ∷ b'g' ∷ b'e' ∷ b't' ∷ b':' ∷ b'*' ∷ b':'
    ∷ b'a' ∷ b'u' ∷ b'd' ∷ b'i' ∷ b'o' ∷ b'/' ∷ b'L' ∷ b'1' ∷ b'6' ∷ b':' ∷ b'*' ∷ b',' ∷ b'h'
    ∷ b't' ∷ b't' ∷ b'p' ∷ b'-' ∷ b'g' ∷ b'e' ∷ b't' ∷ b':' ∷ b'*' ∷ b':' ∷ b'v' ∷ b'i' ∷ b'd'
    ∷ b'e' ∷ b'o' ∷ b'/' ∷ b'x' ∷ b'-' ∷ b'f' ∷ b'l' ∷ b'v' ∷ b':' ∷ b'*' ∷ b',' ∷ b'h' ∷ b't'
    ∷ b't' ∷ b'p' ∷ b'-' ∷ b'g' ∷ b'e' ∷ b't' ∷ b':' ∷ b'*' ∷ b':' ∷ b'v' ∷ b'i' ∷ b'd' ∷ b'e'
    ∷ b'o' ∷ b'/' ∷ b'3' ∷ b'g' ∷ b'p' ∷ b'p' ∷ b':' ∷ b'*' ∷ []

abbrev pub rel_time_unit : Text
rel_time_unit = b'R' ∷ b'E' ∷ b'L' ∷ b'_' ∷ b'T' ∷ b'I' ∷ b'M' ∷ b'E' ∷ []
