-- ===== src/Tests/Renderer.antt =====
-- A DLNA renderer at concrete inputs.
use air_show.Prelude.{
  ℕ, ◌+◌, ◌-◌, ◌*◌, ◌≡◌, ◌∙◌, ap, ◌++◌, All, Bool-cases, inl, inr, refl, true, false, List, [], ◌∷◌,
  Option, none, some, if◌then◌else◌, ◌==◌, Bytes, arith,
}
use air_show.Settings.{Text}
use air_show.Security.Network.{Addresses}
use air_show.DlnaHandler.{stopped, Handler, new_handler, start, stop}
use air_show.DlnaHandler.Names.{play_text, pause_text, stop_text}
use air_show.DlnaHandler.Time.{
  parse_time_string, format_gst_time, second, IsDigit, value_from, IsScanf,
  parse_time_string-format_gst_time,
}
use air_show.DlnaHandler.Actions.{Request, refused}
use air_show.DlnaHandler.Dispatch.{handle_soap_action}
use air_show.DlnaHandler.Sync.{replay}
use air_show.MediaPipeline.{gst_playing}
use air_show.DlnaHandler.Transport.{Step, received, turn, run_steps}

-- Three numbers with colons between.
abbrev scan_from : ℕ → Bytes → List ℕ
scan_from n [] = n ∷ []
scan_from n (c ∷ cs) = if c == 58 then n ∷ scan_from 0 cs else scan_from (n * 10 + (c - 48)) cs

abbrev triple : List ℕ → Option (ℕ × ℕ × ℕ)
triple [] = none
triple (h ∷ []) = none
triple (h ∷ m ∷ []) = none
triple (h ∷ m ∷ s ∷ rest) = some (h, m, s)

abbrev scan : Bytes → Option (ℕ × ℕ × ℕ)
scan text = triple (scan_from 0 text)

scan_from-number :
    (n : ℕ) (x rest : Bytes)
    → All IsDigit x
    → scan_from n (x ++ (b':' ∷ rest)) ≡ value_from n x ∷ scan_from 0 rest
scan_from-number n [] rest h = refl
scan_from-number n (c ∷ x) rest h = elim (Bool-cases (c == 58)) [
  | inl e ↦ absurd (ground (arith, e, h.0))
  | inr e ↦ rw e (scan_from-number (n * 10 + (c - 48)) x rest h.1)
]

scan_from-last : (n : ℕ) (x : Bytes) → All IsDigit x → scan_from n x ≡ value_from n x ∷ []
scan_from-last n [] h = refl
scan_from-last n (c ∷ x) h = elim (Bool-cases (c == 58)) [
  | inl e ↦ absurd (ground (arith, e, h.0))
  | inr e ↦ rw e (scan_from-last (n * 10 + (c - 48)) x h.1)
]

scan-IsScanf : IsScanf scan
scan-IsScanf x y z hx hy hz vx vy vz = ap triple (
    scan_from-number 0 x (y ++ (b':' ∷ z)) hx.0
    ∙ ap (λ l. value_from 0 x ∷ l) (scan_from-number 0 y z hy.0)
    ∙ ap (λ l. value_from 0 x ∷ value_from 0 y ∷ l) (scan_from-last 0 z hz.0))

-- Addresses are numbers: those below 100 are local.
abbrev addresses : Addresses ℕ
addresses = record {
  is_loopback = λ a. a == 1;
  is_private_use = λ a. a == 10;
  is_link_local = λ a. false;
}

abbrev asks : Text → ℕ → Request ℕ
asks action from = record {
  action = action;
  get_arg_value = λ name. [];
  client_addr = some from;
  check_connection = true;
  query_position = 0;
  query_duration = 0;
  volume = 100;
  is_muted = false;
  stoi = λ text. none;
  scan = scan;
}

abbrev requests : List (Step ℕ)
requests =
    received (asks play_text 10)
    ∷ received (asks stop_text 99)
    ∷ turn
    ∷ received (asks pause_text 1)
    ∷ turn
    ∷ []

foreign_run :
    (handle_soap_action addresses (asks stop_text 99) (new_handler true true)).0 ≡ refused 401
unfolding handle_soap_action
foreign_run = refl

-- A request to play that comes behind `stop`, before its lambda has run: the pipeline plays, and the state
-- says that it has stopped.
abbrev late_play : Handler
late_play =
    run_steps addresses (received (asks play_text 10) ∷ turn ∷ turn ∷ [])
      (stop (start (new_handler true true)).1)

late_play_run :
    (late_play.transport_state ≡ stopped) × ((replay late_play.effects).state ≡ gst_playing)
unfolding run_steps start stop replay
late_play_run = (refl, refl)

parse_time_string-format_gst_time_example :
    parse_time_string scan (format_gst_time 3725999999999) ≡ 3725 * second
parse_time_string-format_gst_time_example =
    parse_time_string-format_gst_time scan 3725999999999 scan-IsScanf (omega arith)
