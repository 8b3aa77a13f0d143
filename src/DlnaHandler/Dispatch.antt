-- ===== src/DlnaHandler/Dispatch.antt =====
-- The choice of an action's handler: `handleSoapAction` of src/protocol/DlnaHandler.cpp.
use air_show.Prelude.{not, ◌&&◌, List, [], ◌∷◌, none, some, if◌then◌else◌, same_bytes}
use air_show.Settings.{Text}
use air_show.Security.Network.{Addresses, is_local_network}
use air_show.DlnaHandler.{Handler}
use air_show.DlnaHandler.Names.{
  set_av_transport_uri_text, play_text, stop_text, pause_text, seek_text, get_transport_info_text,
  get_position_info_text, get_media_info_text, get_device_capabilities_text,
  get_transport_settings_text, get_current_transport_actions_text, set_volume_text, get_volume_text,
  set_mute_text, get_mute_text, list_presets_text, select_preset_text, get_protocol_info_text,
  get_current_connection_i_ds_text, get_current_connection_info_text, play_media_text,
  rec_media_text, rec_quality_modes_text, play_mode_text, rec_quality_mode_text,
  current_preset_name_list_text, connection_i_ds_text, rcs_id_text, av_transport_id_text,
  protocol_info_text, peer_connection_manager_text, peer_connection_id_text, direction_text,
  status_text, network_text, not_implemented_text, normal_text, factory_defaults_text, input_text,
  ok_text, zero_text, minus_one_text,
}
use air_show.DlnaHandler.Actions.{
  on_set_av_transport_uri, on_play, on_stop, on_pause, on_seek, on_get_transport_info,
  on_get_position_info, on_get_media_info, on_set_volume, on_get_volume, on_set_mute, on_get_mute,
  on_get_protocol_info, current_transport_actions, Request, refused, response, av_transport,
  rendering_control, connection_manager, Reply,
}

-- The chain of tests: the first name that is the action's.
unfoldable pub choose : {A : Type 0} → Text → List (Text × A) → A → A
choose action [] other = other
choose action ((name, outcome) ∷ more) other =
    if same_bytes action name then outcome else choose action more other

module _ {Address : Type 0} where
  -- The handlers in the order in which the names are compared.
  unfoldable pub actions : Request Address → Handler → List (Text × (Reply × Handler))
  unfolding on_set_av_transport_uri on_play on_stop on_pause on_seek on_get_transport_info
      on_get_position_info on_get_media_info on_set_volume on_get_volume on_set_mute on_get_mute
      on_get_protocol_info
  actions r h =
      (set_av_transport_uri_text, on_set_av_transport_uri r h)
      ∷ (play_text, on_play r h)
      ∷ (stop_text, on_stop r h)
      ∷ (pause_text, on_pause r h)
      ∷ (seek_text, on_seek r h)
      ∷ (get_transport_info_text, (on_get_transport_info r h, h))
      ∷ (get_position_info_text, (on_get_position_info r h, h))
      ∷ (get_media_info_text, (on_get_media_info r h, h))
      ∷ (
        get_device_capabilities_text,
        (
          response av_transport (
              (play_media_text, network_text)
              ∷ (rec_media_text, not_implemented_text)
              ∷ (rec_quality_modes_text, not_implemented_text)
              ∷ []),
          h,
        ),
      )
      ∷ (
        get_transport_settings_text,
        (
          response av_transport
              ((play_mode_text, normal_text) ∷ (rec_quality_mode_text, not_implemented_text) ∷ []),
          h,
        ),
      )
      ∷ (get_current_transport_actions_text, (current_transport_actions r h, h))
      ∷ (set_volume_text, on_set_volume r h)
      ∷ (get_volume_text, (on_get_volume r h, h))
      ∷ (set_mute_text, on_set_mute r h)
      ∷ (get_mute_text, (on_get_mute r h, h))
      ∷ (
        list_presets_text,
        (
          response rendering_control ((current_preset_name_list_text, factory_defaults_text) ∷ []),
          h,
        ),
      )
      ∷ (select_preset_text, (response rendering_control [], h))
      ∷ (get_protocol_info_text, (on_get_protocol_info r, h))
      ∷ (
        get_current_connection_i_ds_text,
        (response connection_manager ((connection_i_ds_text, zero_text) ∷ []), h),
      )
      ∷ (
        get_current_connection_info_text,
        (
          response connection_manager (
              (rcs_id_text, zero_text)
              ∷ (av_transport_id_text, zero_text)
              ∷ (protocol_info_text, [])
              ∷ (peer_connection_manager_text, [])
              ∷ (peer_connection_id_text, minus_one_text)
              ∷ (direction_text, input_text)
              ∷ (status_text, ok_text)
              ∷ []),
          h,
        ),
      )
      ∷ []

  unfoldable pub run_action : Request Address → Handler → Reply × Handler
  unfolding actions choose
  run_action r h = choose r.action (actions r h) (refused 401, h)

  -- A request whose peer has no address of IPv4 or IPv6 is not checked.
  unfoldable pub handle_soap_action :
      Addresses Address → Request Address → Handler → Reply × Handler
  unfolding is_local_network run_action
  handle_soap_action qt r h =
      let taken = run_action r h in
      elim r.client_addr [
        | none ↦ taken
        | some a ↦
            if not (is_local_network qt a)
            then (refused 401, h)
            else if h.has_security && not r.check_connection
            then (refused 401, h)
            else taken
      ]
