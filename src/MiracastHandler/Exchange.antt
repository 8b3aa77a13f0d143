-- ===== src/MiracastHandler/Exchange.antt =====
-- The negotiation of the stream, as a property of the messages: `onRtspData` of
-- src/protocol/MiracastHandler.cpp reaches the streaming state over the whole exchange only.
use air_show.Prelude.{sym, Bool, true, false, List, [], ◌∷◌, ◌≡◌, refl, Bool-cases, inl, inr}
use air_show.MiracastHandler.{
  State, idle, waiting_source_ready, connecting_to_source, negotiating_m1, negotiating_m2,
  negotiating_m3, negotiating_m4, negotiating_m5, sending_setup, sending_play, streaming,
  tearing_down, Handler, Library, is_ok, is_request_of, options_text, get_parameter_text,
  set_parameter_text, process_in, process_message,
}
use mathlib.Core.Path.{subst}
use air_show.MiracastHandler.Rtsp.{RtspMessage}

-- The messages that a state still waits for; a state outside the negotiation waits for none that exists.
abbrev play_script : List (RtspMessage → Bool)
play_script = is_ok ∷ []

abbrev setup_script : List (RtspMessage → Bool)
setup_script = is_ok ∷ play_script

abbrev m5_script : List (RtspMessage → Bool)
m5_script = is_request_of set_parameter_text ∷ setup_script

abbrev m4_script : List (RtspMessage → Bool)
m4_script = is_request_of set_parameter_text ∷ m5_script

abbrev m3_script : List (RtspMessage → Bool)
m3_script = is_request_of get_parameter_text ∷ m4_script

abbrev m2_script : List (RtspMessage → Bool)
m2_script = is_ok ∷ m3_script

abbrev m1_script : List (RtspMessage → Bool)
m1_script = is_request_of options_text ∷ m2_script

abbrev never : List (RtspMessage → Bool)
never = (λ msg. false) ∷ []

abbrev pub script : State → List (RtspMessage → Bool)
script negotiating_m1 = m1_script
script negotiating_m2 = m2_script
script negotiating_m3 = m3_script
script negotiating_m4 = m4_script
script negotiating_m5 = m5_script
script sending_setup = setup_script
script sending_play = play_script
script streaming = []
script s = never

-- The messages hold the expected ones, in their order and with any others between them.
pub data Exchange : List (RtspMessage → Bool) → List RtspMessage → Type 0 where
  done : {ms : List RtspMessage} → Exchange [] ms
  taken :
      {p : RtspMessage → Bool} {ps : List (RtspMessage → Bool)} {m : RtspMessage}
      {ms : List RtspMessage}
      → p m ≡ true
      → Exchange ps ms
      → Exchange (p ∷ ps) (m ∷ ms)
  other :
      {ps : List (RtspMessage → Bool)} {m : RtspMessage} {ms : List RtspMessage}
      → Exchange ps ms
      → Exchange ps (m ∷ ms)

module _ (lib : Library) where
  abbrev pub process_list : List RtspMessage → Handler → Handler
  process_list [] h = h
  process_list (m ∷ ms) h = process_list ms (process_message lib m h)

  -- A message that a state waits for takes it on; any other leaves it.
  go_on :
      (s s' t : State) (m : RtspMessage) (ms : List RtspMessage) (p : RtspMessage → Bool)
      → script s ≡ p ∷ script t
      → (p m ≡ true → s' ≡ t)
      → (p m ≡ false → s' ≡ s)
      → Exchange (script s') ms
      → Exchange (script s) (m ∷ ms)
  go_on s s' t m ms p whole on stays x = elim (Bool-cases (p m)) [
    | inl e ↦
        subst (λ l. Exchange l (m ∷ ms)) (sym whole)
          (taken e (subst (λ r. Exchange (script r) ms) (on e) x))
    | inr e ↦ other (subst (λ r. Exchange (script r) ms) (stays e) x)
  ]

  advance :
      (s : State) (m : RtspMessage) (h : Handler) (ms : List RtspMessage)
      → h.state ≡ s
      → Exchange (script (process_in lib s m h).state) ms
      → Exchange (script s) (m ∷ ms)
  unfolding process_in
  advance negotiating_m1 m h ms e x =
      go_on negotiating_m1 (process_in lib negotiating_m1 m h).state negotiating_m2 m ms
        (is_request_of options_text) refl (λ t. rw t refl) (λ t. rw t e) x
  advance negotiating_m2 m h ms e x =
      go_on negotiating_m2 (process_in lib negotiating_m2 m h).state negotiating_m3 m ms (is_ok)
        refl (λ t. rw t refl) (λ t. rw t e) x
  advance negotiating_m3 m h ms e x =
      go_on negotiating_m3 (process_in lib negotiating_m3 m h).state negotiating_m4 m ms
        (is_request_of get_parameter_text) refl (λ t. rw t refl) (λ t. rw t e) x
  advance negotiating_m4 m h ms e x =
      go_on negotiating_m4 (process_in lib negotiating_m4 m h).state negotiating_m5 m ms
        (is_request_of set_parameter_text) refl (λ t. rw t refl) (λ t. rw t e) x
  advance negotiating_m5 m h ms e x =
      go_on negotiating_m5 (process_in lib negotiating_m5 m h).state sending_setup m ms
        (is_request_of set_parameter_text) refl (λ t. rw t refl) (λ t. rw t e) x
  advance sending_setup m h ms e x =
      go_on sending_setup (process_in lib sending_setup m h).state sending_play m ms (is_ok) refl
        (λ t. rw t refl) (λ t. rw t e) x
  advance sending_play m h ms e x =
      go_on sending_play (process_in lib sending_play m h).state streaming m ms (is_ok) refl
        (λ t. rw t refl) (λ t. rw t e) x
  advance streaming m h ms e x = done
  advance idle m h ms e x = other (subst (λ r. Exchange (script r) ms) e x)
  advance waiting_source_ready m h ms e x = other (subst (λ r. Exchange (script r) ms) e x)
  advance connecting_to_source m h ms e x = other (subst (λ r. Exchange (script r) ms) e x)
  advance tearing_down m h ms e x = other (subst (λ r. Exchange (script r) ms) e x)

  reaches : (s : State) → s ≡ streaming → Exchange (script s) []
  reaches s e = rw e done

  -- From any state, messages that lead to the streaming state hold the rest of the exchange, in its order.
  pub process_list-Exchange :
      (ms : List RtspMessage) (h : Handler)
      → (process_list ms h).state ≡ streaming
      → Exchange (script h.state) ms
  unfolding process_message
  process_list-Exchange [] h e = reaches h.state e
  process_list-Exchange (m ∷ ms) h e =
      advance h.state m h ms refl (process_list-Exchange ms (process_message lib m h) e)
