-- ===== src/CastSession/Dispatch/Idle.antt =====
-- A session in which no part of a cast has begun, and what leaves it so.
use air_show.Prelude.{
  ◌≡◌, refl, Bool, true, false, not, ◌&&◌, if◌then◌else◌, same_bytes, any, arith, inl, inr,
  Bool-cases, Option-cases,
}
use air_show.CastSession.{
  CastMessage, Env, Effect, wrote, asked, connected, disconnected, play_uri, start_streaming,
  stop_cast, finished, Session, emit,
}
use air_show.CastSession.Names.{receiver_0}
use air_show.CastSession.Handlers.{
  is_string, send_message, on_device_auth, on_heartbeat, stop_streaming,
}

-- What a cast does to the display, the pipeline and the network.
abbrev pub is_cast : Effect → Bool
is_cast (wrote bytes) = false
is_cast (asked name) = false
is_cast (connected name) = true
is_cast disconnected = false
is_cast (play_uri uri) = true
is_cast (start_streaming streams) = true
is_cast stop_cast = false
is_cast finished = false

-- No part of a cast has begun.
pub record IsIdle (s : Session) : Type 0 where
  pub approved : s.approved ≡ false
  pub effects : any is_cast s.effects ≡ false
  pub app_launched : s.app_launched ≡ false
  pub did_connect : s.did_connect ≡ false
  pub streaming : s.streaming ≡ false
  pub transport : same_bytes receiver_0 s.transport_id ≡ false

pub emit-IsIdle : (e : Effect) (s : Session) → is_cast e ≡ false → IsIdle s → IsIdle (emit e s)
emit-IsIdle e s quiet h = record {
  approved = h.approved;
  effects = ground (arith, quiet, h.effects);
  app_launched = h.app_launched;
  did_connect = h.did_connect;
  streaming = h.streaming;
  transport = h.transport;
}

pub IsIdle-either : (b : Bool) (s t : Session) → IsIdle s → IsIdle t → IsIdle (if b then s else t)
IsIdle-either true s t h k = h
IsIdle-either false s t h k = k

pub IsIdle-gate :
    (approved required : Bool) (s t : Session)
    → approved ≡ false
    → IsIdle s
    → (required ≡ false → IsIdle t)
    → IsIdle (if not approved && required then s else t)
IsIdle-gate true required s t e h k = absurd (ground arith)
IsIdle-gate false true s t e h k = h
IsIdle-gate false false s t e h k = k refl

module _ {Json : Type 0} (env : Env Json) where
  pub send_message-IsIdle :
      (m : CastMessage) (s : Session) → IsIdle s → IsIdle (send_message env m s)
  unfolding send_message
  send_message-IsIdle m s h = elim (Option-cases (env.serialize m)) [
    | inl e ↦ rw (e, send_message) h
    | inr (bytes, e) ↦ rw (e, send_message) (emit-IsIdle (wrote _) s refl h)
  ]

  pub stop_streaming-IsIdle : (s : Session) → IsIdle s → IsIdle (stop_streaming env s)
  unfolding stop_streaming
  stop_streaming-IsIdle s h =
      let t : IsIdle (record s { streaming = false }) = record {
        approved = h.approved;
        effects = h.effects;
        app_launched = h.app_launched;
        did_connect = h.did_connect;
        streaming = refl;
        transport = h.transport;
      } in
      IsIdle-either (not s.streaming) s _ h (
        IsIdle-either s.has_pipeline (emit stop_cast (record s { streaming = false }))
          (record s { streaming = false })
          (emit-IsIdle stop_cast (record s { streaming = false }) refl t) t)

  pub on_device_auth-IsIdle :
      (m : CastMessage) (s : Session) → IsIdle s → IsIdle (on_device_auth env m s)
  unfolding on_device_auth
  on_device_auth-IsIdle m s h = elim (Bool-cases (is_string m.payload_type)) [
    | inl e ↦ rw (e, on_device_auth) h
    | inr e ↦ elim (Option-cases (env.has_challenge m.payload_binary)) [
      | inl c ↦ rw (e, c, on_device_auth) h
      | inr (b, c) ↦ elim (Bool-cases b) [
        | inr t ↦ rw (e, c, t, on_device_auth) h
        | inl t ↦ elim (Option-cases (env.signature env.window_secs)) [
          | inl n ↦ rw (e, c, t, n, on_device_auth) h
          | inr (signature, n) ↦ rw (e, c, t, n, on_device_auth) (send_message-IsIdle _ s h)
        ]
      ]
    ]
  ]

  pub on_heartbeat-IsIdle :
      (m : CastMessage) (s : Session) → IsIdle s → IsIdle (on_heartbeat env m s)
  unfolding on_heartbeat
  on_heartbeat-IsIdle m s h =
      IsIdle-either _ _ _ h (IsIdle-either _ _ _ (send_message-IsIdle _ s h) h)
