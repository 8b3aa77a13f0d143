-- ===== src/CastSession/Dispatch.antt =====
-- Approval and dispatch: src/protocol/CastSession.cpp.
pub mod Idle
pub mod Approval
pub mod Consent
use air_show.Prelude.{
  ℕ, Bool, true, false, not, ◌&&◌, ◌||◌, List, [], ◌∷◌, ◌++◌, Option, none, some, if◌then◌else◌,
  Bytes, same_bytes, is_empty,
}
use air_show.CastSession.{CastMessage, Env, asked, disconnected, finished, Session, emit}
use air_show.CastSession.Names.{
  ns_device_auth, ns_connection, ns_heartbeat, ns_receiver, ns_media, ns_webrtc, receiver_0,
  cast_sender, connect_type, launch_type,
}
use air_show.CastSession.Handlers.{
  is_string, type_of, on_device_auth, on_connection, on_heartbeat, on_receiver, on_media, on_webrtc,
  stop_streaming,
}

module _ {Json : Type 0} (env : Env Json) where
  unfoldable pub requires_approval : CastMessage → Bool
  requires_approval m =
      if same_bytes m.namespace ns_device_auth || same_bytes m.namespace ns_heartbeat
      then false
      else if same_bytes m.namespace ns_media || same_bytes m.namespace ns_webrtc
      then true
      else if not (same_bytes m.namespace ns_connection) && not (same_bytes m.namespace ns_receiver)
      then false
      else if not (is_string m.payload_type)
      then false
      else if same_bytes m.namespace ns_connection
      then same_bytes (type_of env m) connect_type && not (same_bytes m.destination_id receiver_0)
      else same_bytes (type_of env m) launch_type

  -- The chain of namespaces in `dispatchMessage`.
  unfoldable pub route : CastMessage → Session → Session
  unfolding on_device_auth on_connection on_heartbeat on_receiver on_media on_webrtc
  route m s =
      if same_bytes m.namespace ns_device_auth
      then on_device_auth env m s
      else if same_bytes m.namespace ns_connection
      then on_connection env m s
      else if same_bytes m.namespace ns_heartbeat
      then on_heartbeat env m s
      else if same_bytes m.namespace ns_receiver
      then on_receiver env m s
      else if same_bytes m.namespace ns_media
      then on_media env m s
      else if same_bytes m.namespace ns_webrtc
      then on_webrtc env m s
      else s

  -- The replay of the messages held, once approved, when `dispatchMessage` holds none of them.
  unfoldable pub replay : List Bytes → Session → Session
  unfolding route
  replay [] s = s
  replay (bytes ∷ held) s = elim (env.parse bytes) [
    | none ↦ replay held s
    | some m ↦ replay held (if s.rejected then s else route m s)
  ]

  unfoldable pub on_approval_resolved : Bool → Session → Session
  unfolding replay
  on_approval_resolved approved s =
      if not approved
      then emit finished
          (record s { approval_pending = false; rejected = true; held_messages = [] })
      else replay s.held_messages
          (record s { approval_pending = false; approved = true; held_messages = [] })

  -- `requestApproval`: the security manager answers at once, or later by `on_approval_resolved`.
  unfoldable pub request_approval : Session → Session
  unfolding on_approval_resolved
  request_approval s =
      let name = if is_empty s.sender_name then cast_sender else s.sender_name in
      let pending = emit (asked name) (record s { approval_pending = true }) in
      if s.approval_pending
      then s
      else if env.admits_at_once
      then on_approval_resolved true pending
      else pending

  unfoldable pub hold : CastMessage → Session → Session
  hold m s = elim (env.serialize m) [
    | none ↦ record s { held_messages = s.held_messages ++ ([] ∷ []) }
    | some bytes ↦ record s { held_messages = s.held_messages ++ (bytes ∷ []) }
  ]

  unfoldable pub dispatch_message : CastMessage → Session → Session
  unfolding requires_approval route request_approval hold
  dispatch_message m s =
      if s.rejected
      then s
      else if not s.approved && requires_approval m
      then request_approval (hold m s)
      else route m s

  unfoldable pub on_disconnected : Session → Session
  unfolding stop_streaming
  on_disconnected s =
      let stopped = stop_streaming env s in
      emit finished (if s.did_connect && s.has_bridge then emit disconnected stopped else stopped)
