-- ===== src/DlnaHandler.antt =====
-- The DLNA renderer: src/protocol/DlnaHandler.cpp. SOAP actions come on a thread of libupnp; what they
-- want of the pipeline and the display is queued for the Qt thread. The state holds the queue, and what
-- its jobs have done, latest first.
pub mod Names
pub mod Time
pub mod Actions
pub mod Dispatch
pub mod Sync
pub mod Transport
use air_show.Prelude.{
  ℕ, Bool, true, false, not, List, [], ◌∷◌, ◌++◌, Option, none, some, if◌then◌else◌,
}
use air_show.Settings.{Text}
use air_show.DlnaHandler.Names.{
  stopped_text, playing_text, paused_playback_text, transitioning_text, controller_text,
}

pub data TransportState : Type 0 where
  stopped playing paused transitioning : TransportState

-- The lambdas queued by the actions and by `stop`.
pub data Job : Type 0 where
  set_uri_job : Text → Job
  play_job stop_job pause_job : Job
  seek_job : ℕ → Job
  volume_job : ℕ → Job
  mute_job : Bool → Job
  shutdown_job : Job

-- What the pipeline and the display are told. A volume is a percentage, a position the 64-bit pattern
-- of its nanoseconds.
pub data Effect : Type 0 where
  set_uri : Text → Effect
  play_uri stop_uri pause_uri : Effect
  seek_uri : ℕ → Effect
  set_volume : ℕ → Effect
  set_muted : Bool → Effect
  connected : Text → Effect
  disconnected : Effect

pub record Handler : Type 0 where
  pub has_pipeline : Bool
  pub has_bridge : Bool
  pub has_security : Bool
  pub running : Bool
  pub transport_state : TransportState
  pub current_uri : Text
  pub current_metadata : Text
  pub queued : List Job
  pub effects : List Effect

abbrev pub enqueue : Job → Handler → Handler
enqueue job h = record h { queued = h.queued ++ (job ∷ []) }

abbrev pub emit_if : Bool → Effect → Handler → Handler
emit_if b e h = record h { effects = if b then e ∷ h.effects else h.effects }

-- A handler whose pipeline is set, and whose display and security manager may be.
abbrev pub new_handler : Bool → Bool → Handler
new_handler bridge security = record {
  has_pipeline = true;
  has_bridge = bridge;
  has_security = security;
  running = false;
  transport_state = stopped;
  current_uri = [];
  current_metadata = [];
  queued = [];
  effects = [];
}

unfoldable pub start : Handler → Bool × Handler
start h = (true, record h { running = true })

unfoldable pub stop : Handler → Handler
stop h = if h.running then record (enqueue shutdown_job h) { running = false } else h

abbrev pub is_stopped : TransportState → Bool
is_stopped stopped = true
is_stopped playing = false
is_stopped paused = false
is_stopped transitioning = false

-- The lambda of `stop`.
unfoldable pub shut_down : Handler → Handler
shut_down h =
    let cleared = record h { transport_state = stopped; current_uri = []; current_metadata = [] } in
    emit_if h.has_bridge disconnected
      (if h.has_pipeline then emit_if (not (is_stopped h.transport_state)) stop_uri cleared else h)

unfoldable pub do_job : Job → Handler → Handler
unfolding shut_down
do_job (set_uri_job uri) h = emit_if h.has_pipeline (set_uri uri) h
do_job play_job h =
    emit_if h.has_bridge (connected controller_text) (emit_if h.has_pipeline play_uri h)
do_job stop_job h = emit_if h.has_bridge disconnected (emit_if h.has_pipeline stop_uri h)
do_job pause_job h = emit_if h.has_pipeline pause_uri h
do_job (seek_job position) h = emit_if h.has_pipeline (seek_uri position) h
do_job (volume_job volume) h = emit_if h.has_pipeline (set_volume volume) h
do_job (mute_job mute) h = emit_if h.has_pipeline (set_muted mute) h
do_job shutdown_job h = shut_down h

-- The Qt thread takes the first of the queue.
unfoldable pub run_queued : List Job → Handler → Handler
unfolding do_job
run_queued [] h = h
run_queued (job ∷ rest) h = do_job job (record h { queued = rest })

unfoldable pub transport_state_string : TransportState → Text
transport_state_string stopped = stopped_text
transport_state_string playing = playing_text
transport_state_string paused = paused_playback_text
transport_state_string transitioning = transitioning_text
