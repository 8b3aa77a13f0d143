-- ===== src/CastSession/Dispatch/Consent.antt =====
-- Nothing of a cast begins before a yes, over everything that can happen to a connection.
use air_show.Prelude.{◌≡◌, refl, Bool, true, false, List, [], ◌∷◌, Bytes, any, arith}
use air_show.CastSession.{Env, Session, new_session}
use air_show.CastSession.Dispatch.{on_approval_resolved, on_disconnected}
use air_show.CastSession.Dispatch.Idle.{IsIdle}
use air_show.CastSession.Dispatch.Approval.{
  take_payload-IsIdle, on_disconnected-IsIdle, refusal-IsIdle,
}
use air_show.CastSession.Framing.{take_payload}

-- What can happen to a session: a message, the answer to the prompt, the end of the connection.
pub data Event : Type 0 where
  payload : Bytes → Event
  answered : Bool → Event
  dropped : Event

module _ {Json : Type 0} where
  abbrev pub apply : Env Json × Event → Session → Session
  apply (env, payload bytes) s = take_payload env bytes s
  apply (env, answered b) s = on_approval_resolved env b s
  apply (env, dropped) s = on_disconnected env s

  abbrev pub run : List (Env Json × Event) → Session → Session
  run [] s = s
  run (e ∷ es) s = run es (apply e s)

  -- A yes: of the user, or of a security manager that admits the sender at once.
  abbrev pub says_yes : Env Json × Event → Bool
  says_yes (env, payload bytes) = env.admits_at_once
  says_yes (env, answered b) = b
  says_yes (env, dropped) = false

  apply-IsIdle :
      (e : Env Json × Event) (s : Session) → says_yes e ≡ false → IsIdle s → IsIdle (apply e s)
  apply-IsIdle (env, payload bytes) s refused h = take_payload-IsIdle env bytes s refused h
  apply-IsIdle (env, answered true) s refused h = absurd (ground arith)
  apply-IsIdle (env, answered false) s refused h = refusal-IsIdle env s h
  apply-IsIdle (env, dropped) s refused h = on_disconnected-IsIdle env s h

  run-IsIdle :
      (es : List (Env Json × Event)) (s : Session)
      → any says_yes es ≡ false
      → IsIdle s
      → IsIdle (run es s)
  run-IsIdle [] s refused h = h
  run-IsIdle (e ∷ es) s refused h =
      run-IsIdle es (apply e s) (ground arith) (apply-IsIdle e s (ground arith) h)

  -- With a security manager and until it, or the user, has said yes, whatever messages come: nothing is
  -- played or streamed, the display shows no connection, and no application counts as launched.
  pub new_session-IsIdle :
      (has_bridge has_pipeline : Bool) (uuid : Bytes) (es : List (Env Json × Event))
      → any says_yes es ≡ false
      → IsIdle (run es (new_session has_bridge has_pipeline true uuid))
  unfolding new_session
  new_session-IsIdle has_bridge has_pipeline uuid es refused =
      run-IsIdle es (new_session has_bridge has_pipeline true uuid) refused (record {
        approved = refl;
        effects = refl;
        app_launched = refl;
        did_connect = refl;
        streaming = refl;
        transport = refl;
      })
