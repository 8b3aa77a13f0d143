-- ===== src/CastSession/Dispatch/Approval.antt =====
-- Nothing of a cast begins at a message that needs no approval.
use air_show.Prelude.{
  ◌≡◌, refl, sym, ◌∙◌, ap, Bool, true, false, not, ◌&&◌, List, [], if◌then◌else◌, Bytes, same_bytes,
  same_bytes_iff, arith, inl, inr, Bool-cases, Option-cases,
}
use air_show.CastSession.{CastMessage, Env, asked, disconnected, finished, Session}
use air_show.CastSession.Names.{
  ns_device_auth, ns_connection, ns_heartbeat, ns_receiver, ns_media, ns_webrtc, receiver_0,
  connect_type, launch_type,
}
use air_show.CastSession.Handlers.{
  is_string, is_json, type_of, on_connection, on_receiver, take_connect, take_close, send_status,
}
use air_show.CastSession.Dispatch.{
  requires_approval, route, on_approval_resolved, request_approval, hold, dispatch_message,
  on_disconnected,
}
use air_show.CastSession.Framing.{take_payload}
use air_show.CastSession.Dispatch.Idle.{
  IsIdle, emit-IsIdle, IsIdle-either, IsIdle-gate, send_message-IsIdle, stop_streaming-IsIdle,
  on_device_auth-IsIdle, on_heartbeat-IsIdle,
}

module _ {Json : Type 0} (env : Env Json) where
  requires-connection :
      (m : CastMessage)
      → m.namespace ≡ ns_connection
      → requires_approval env m ≡ (
          is_string m.payload_type
          && (same_bytes (type_of env m) connect_type
              && not (same_bytes m.destination_id receiver_0)))
  unfolding requires_approval
  requires-connection m e = rw (e, requires_approval) (flip (is_string m.payload_type) _)
    where
      flip : (b c : Bool) → (if not b then false else c) ≡ (b && c)
      flip true c = refl
      flip false c = refl

  named-IsIdle : (name : Bytes) (s : Session) → IsIdle s → IsIdle (record s { sender_name = name })
  named-IsIdle name s h = record {
    approved = h.approved;
    effects = h.effects;
    app_launched = h.app_launched;
    did_connect = h.did_connect;
    streaming = h.streaming;
    transport = h.transport;
  }

  -- CONNECT to the receiver itself starts nothing.
  take_connect-IsIdle :
      (m : CastMessage) (s : Session)
      → m.destination_id ≡ receiver_0
      → IsIdle s
      → IsIdle (take_connect env m s)
  unfolding take_connect
  take_connect-IsIdle m s e h =
      rw (ap (λ d. same_bytes d s.transport_id) e ∙ h.transport) (named-IsIdle _ s h)

  take_close-IsIdle : (s : Session) → IsIdle s → IsIdle (take_close env s)
  unfolding take_close
  take_close-IsIdle s h = emit-IsIdle finished _ refl (
      IsIdle-either _ _ _ (emit-IsIdle disconnected _ refl (stop_streaming-IsIdle env s h))
        (stop_streaming-IsIdle env s h))

  on_connection-IsIdle :
      (m : CastMessage) (s : Session)
      → m.namespace ≡ ns_connection
      → requires_approval env m ≡ false
      → IsIdle s
      → IsIdle (on_connection env m s)
  unfolding on_connection
  on_connection-IsIdle m s ns free h = elim (Bool-cases (is_json env m)) [
    | inr e ↦ rw (e, on_connection) h
    | inl e ↦ elim (Bool-cases (same_bytes (type_of env m) connect_type)) [
      | inr t ↦ rw (e, t, on_connection) (IsIdle-either _ _ _ (take_close-IsIdle s h) h)
      | inl t ↦
          rw (e, t, on_connection)
            (take_connect-IsIdle m s
              ((same_bytes_iff m.destination_id receiver_0).0
                (ground (arith, sym (requires-connection m ns) ∙ free, e, t)))
              h)
    ]
  ]

  requires-receiver :
      (m : CastMessage)
      → m.namespace ≡ ns_receiver
      → requires_approval env m
        ≡ (is_string m.payload_type && same_bytes (type_of env m) launch_type)
  unfolding requires_approval
  requires-receiver m e = rw (e, requires_approval) (flip (is_string m.payload_type) _)
    where
      flip : (b c : Bool) → (if not b then false else c) ≡ (b && c)
      flip true c = refl
      flip false c = refl

  send_status-IsIdle : (m : CastMessage) (s : Session) → IsIdle s → IsIdle (send_status env m s)
  unfolding send_status
  send_status-IsIdle m s h = send_message-IsIdle env _ s h

  on_receiver-IsIdle :
      (m : CastMessage) (s : Session)
      → m.namespace ≡ ns_receiver
      → requires_approval env m ≡ false
      → IsIdle s
      → IsIdle (on_receiver env m s)
  unfolding on_receiver
  on_receiver-IsIdle m s ns free h = elim (Bool-cases (is_json env m)) [
    | inr e ↦ rw (e, on_receiver) h
    | inl e ↦ elim (Bool-cases (same_bytes (type_of env m) launch_type)) [
      | inl t ↦ absurd (ground (arith, sym (requires-receiver m ns) ∙ free, e, t))
      | inr t ↦
          rw (e, t, on_receiver)
            (IsIdle-either _ _ _ (send_status-IsIdle m s h) (
              IsIdle-either _ _ _
                (send_status-IsIdle m _ (
                  stop_streaming-IsIdle env _ (record {
                    approved = h.approved;
                    effects = h.effects;
                    app_launched = refl;
                    did_connect = h.did_connect;
                    streaming = h.streaming;
                    transport = h.transport;
                  })))
                h))
    ]
  ]

  requires-media : (m : CastMessage) → m.namespace ≡ ns_media → requires_approval env m ≡ true
  unfolding requires_approval
  requires-media m e = rw (e, requires_approval) refl

  requires-webrtc : (m : CastMessage) → m.namespace ≡ ns_webrtc → requires_approval env m ≡ true
  unfolding requires_approval
  requires-webrtc m e = rw (e, requires_approval) refl

  ns_is : (m : CastMessage) (ns : Bytes) → same_bytes m.namespace ns ≡ true → m.namespace ≡ ns
  ns_is m ns e = (same_bytes_iff m.namespace ns).0 e

  route-IsIdle :
      (m : CastMessage) (s : Session)
      → requires_approval env m ≡ false
      → IsIdle s
      → IsIdle (route env m s)
  unfolding route
  route-IsIdle m s free h = elim (Bool-cases (same_bytes m.namespace ns_device_auth)) [
    | inl a ↦ rw (a, route) (on_device_auth-IsIdle env m s h)
    | inr a ↦ elim (Bool-cases (same_bytes m.namespace ns_connection)) [
      | inl b ↦ rw (a, b, route) (on_connection-IsIdle m s (ns_is m ns_connection b) free h)
      | inr b ↦ elim (Bool-cases (same_bytes m.namespace ns_heartbeat)) [
        | inl c ↦ rw (a, b, c, route) (on_heartbeat-IsIdle env m s h)
        | inr c ↦ elim (Bool-cases (same_bytes m.namespace ns_receiver)) [
          | inl d ↦ rw (a, b, c, d, route) (on_receiver-IsIdle m s (ns_is m ns_receiver d) free h)
          | inr d ↦ elim (Bool-cases (same_bytes m.namespace ns_media)) [
            | inl e ↦ absurd (ground (arith, sym (requires-media m (ns_is m ns_media e)) ∙ free))
            | inr e ↦ elim (Bool-cases (same_bytes m.namespace ns_webrtc)) [
              | inl f ↦
                  absurd (ground (arith, sym (requires-webrtc m (ns_is m ns_webrtc f)) ∙ free))
              | inr f ↦ rw (a, b, c, d, e, f, route) h
            ]
          ]
        ]
      ]
    ]
  ]

  -- The fields that approval itself changes.
  waiting-IsIdle :
      (pending rejected : Bool) (held : List Bytes) (s : Session)
      → IsIdle s
      → IsIdle (record s { approval_pending = pending; rejected = rejected; held_messages = held })
  waiting-IsIdle pending rejected held s h = record {
    approved = h.approved;
    effects = h.effects;
    app_launched = h.app_launched;
    did_connect = h.did_connect;
    streaming = h.streaming;
    transport = h.transport;
  }

  hold-IsIdle : (m : CastMessage) (s : Session) → IsIdle s → IsIdle (hold env m s)
  unfolding hold
  hold-IsIdle m s h = elim (Option-cases (env.serialize m)) [
    | inl e ↦ rw (e, hold) (waiting-IsIdle s.approval_pending s.rejected _ s h)
    | inr (bytes, e) ↦ rw (e, hold) (waiting-IsIdle s.approval_pending s.rejected _ s h)
  ]

  request_approval-IsIdle :
      (s : Session) → env.admits_at_once ≡ false → IsIdle s → IsIdle (request_approval env s)
  unfolding request_approval
  request_approval-IsIdle s later h = rw later (
      IsIdle-either s.approval_pending s _ h (
        emit-IsIdle (asked _) (record s { approval_pending = true }) refl
          (waiting-IsIdle true s.rejected s.held_messages s h)))

  dispatch_message-IsIdle :
      (m : CastMessage) (s : Session)
      → env.admits_at_once ≡ false
      → IsIdle s
      → IsIdle (dispatch_message env m s)
  unfolding dispatch_message
  dispatch_message-IsIdle m s later h = IsIdle-either s.rejected s _ h (
      IsIdle-gate s.approved (requires_approval env m) _ _ h.approved
        (request_approval-IsIdle (hold env m s) later (hold-IsIdle m s h))
        (λ free. route-IsIdle m s free h))

  pub take_payload-IsIdle :
      (bytes : Bytes) (s : Session)
      → env.admits_at_once ≡ false
      → IsIdle s
      → IsIdle (take_payload env bytes s)
  unfolding take_payload
  take_payload-IsIdle bytes s later h = elim (Option-cases (env.parse bytes)) [
    | inl e ↦ rw (e, take_payload) h
    | inr (m, e) ↦ rw (e, take_payload) (dispatch_message-IsIdle m s later h)
  ]

  pub on_disconnected-IsIdle : (s : Session) → IsIdle s → IsIdle (on_disconnected env s)
  unfolding on_disconnected
  on_disconnected-IsIdle s h = emit-IsIdle finished _ refl (
      IsIdle-either _ _ _ (emit-IsIdle disconnected _ refl (stop_streaming-IsIdle env s h))
        (stop_streaming-IsIdle env s h))

  pub refusal-IsIdle : (s : Session) → IsIdle s → IsIdle (on_approval_resolved env false s)
  unfolding on_approval_resolved
  refusal-IsIdle s h = emit-IsIdle finished _ refl (waiting-IsIdle false true [] s h)
