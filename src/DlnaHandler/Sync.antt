-- ===== src/DlnaHandler/Sync.antt =====
-- What the jobs and the calls of src/protocol/DlnaHandler.cpp make of the pipeline.
use air_show.Prelude.{
  Bool, true, false, List, [], ◌∷◌, ◌++◌, Option, none, some, if◌then◌else◌, ◌≡◌, ◌≢◌, refl, ap,
  ◌∙◌, arith,
}
use air_show.MediaPipeline.{
  GstState, gst_null, gst_paused, gst_playing, UriPipeline, initialised, set_state, IsReady,
  set_uri-ready, play_uri-ready, pause_uri-ready, stop_uri-ready,
}
use air_show.MediaPipeline
use air_show.DlnaHandler.{
  TransportState, stopped, playing, paused, transitioning, Job, set_uri_job, play_job, stop_job,
  pause_job, seek_job, volume_job, mute_job, shutdown_job, Effect, set_uri, play_uri, stop_uri,
  pause_uri, seek_uri, set_volume, set_muted, connected, disconnected, Handler, enqueue, run_queued,
}
use air_show.DlnaHandler.Names.{controller_text}
use air_show.Settings.{Text}

-- The pipeline's part in an effect. A seek, a volume and the display leave its state alone.
unfoldable pub called : Effect → UriPipeline → UriPipeline
unfolding MediaPipeline.set_uri MediaPipeline.play_uri MediaPipeline.stop_uri
    MediaPipeline.pause_uri
called (set_uri uri) p = MediaPipeline.set_uri uri p
called play_uri p = MediaPipeline.play_uri p
called stop_uri p = MediaPipeline.stop_uri p
called pause_uri p = MediaPipeline.pause_uri p
called (seek_uri position) p = p
called (set_volume volume) p = p
called (set_muted mute) p = p
called (connected name) p = p
called disconnected p = p

-- The pipeline behind these calls, the latest of which comes first.
unfoldable pub replay : List Effect → UriPipeline
unfolding called
replay [] = initialised
replay (e ∷ es) = called e (replay es)

-- What a job makes of the pipeline; the job of `stop` is left out.
unfoldable pub next : Job → UriPipeline → Option UriPipeline
unfolding called
next (set_uri_job uri) p = some (called (set_uri uri) p)
next play_job p = some (called play_uri p)
next stop_job p = some (called stop_uri p)
next pause_job p = some (called pause_uri p)
next (seek_job position) p = some p
next (volume_job volume) p = some p
next (mute_job mute) p = some p
next shutdown_job p = none

-- The pipeline behind a queue of jobs.
unfoldable pub settled : UriPipeline → List Job → Option UriPipeline
unfolding next
settled p [] = some p
settled p (job ∷ rest) = elim (next job p) [ none ↦ none | some q ↦ settled q rest ]

-- What a transport state says of the pipeline: it plays, it is paused, or it does not play, whether it
-- is down or has a new URI prerolled.
abbrev pub IsShown : TransportState → GstState → Type 0
IsShown stopped g = g ≢ gst_playing
IsShown playing g = g ≡ gst_playing
IsShown paused g = g ≡ gst_paused
IsShown transitioning g = ⊥

-- The queue brings the pipeline to what the transport state says.
pub record InSync (h : Handler) : Type 0 where
  pub has_pipeline : h.has_pipeline ≡ true
  pub final : UriPipeline
  pub settles : settled (replay h.effects) h.queued ≡ some final
  pub ready : IsReady final
  pub shown : IsShown h.transport_state final.state

settled-append :
    (p q : UriPipeline) (jobs : List Job) (job : Job)
    → settled p jobs ≡ some q
    → settled p (jobs ++ (job ∷ [])) ≡ settled q (job ∷ [])
unfolding settled
settled-append p q [] job e = cc
settled-append p q (j ∷ jobs) job e =
    let Goal : Option UriPipeline → Type 0 = λ o.
      (elim o as (λ x. Option UriPipeline) [ none ↦ none | some s ↦ settled s jobs ]) ≡ some q
      → (elim o as (λ x. Option UriPipeline) [
        | none ↦ none
        | some s ↦ settled s (jobs ++ (job ∷ []))
      ])
        ≡ settled q (job ∷ []) in
    (elim (next j p) as Goal [ none ↦ λ bad. cc | some s ↦ λ e'. settled-append s q jobs job e' ]) e

replay-called :
    (b : Bool) (e : Effect) (es : List Effect)
    → b ≡ true
    → replay (if b then e ∷ es else es) ≡ called e (replay es)
unfolding replay
replay-called true e es on = refl
replay-called false e es on = cc

replay-quiet :
    (b : Bool) (e : Effect) (es : List Effect)
    → ((p : UriPipeline) → called e p ≡ p)
    → replay (if b then e ∷ es else es) ≡ replay es
unfolding replay
replay-quiet true e es quiet = quiet (replay es)
replay-quiet false e es quiet = refl

-- A handler whose calls and queue lead to the same pipeline, with the same transport state.
pub InSync-moved :
    (h d : Handler)
    → d.has_pipeline ≡ h.has_pipeline
    → d.transport_state ≡ h.transport_state
    → settled (replay d.effects) d.queued ≡ settled (replay h.effects) h.queued
    → InSync h
    → InSync d
InSync-moved h d has state e sync = record {
  has_pipeline = has ∙ sync.has_pipeline;
  final = sync.final;
  settles = e ∙ sync.settles;
  ready = sync.ready;
  shown = rw state sync.shown;
}

pub run_queued-InSync :
    (h : Handler) (q : List Job)
    → InSync (record h { queued = q })
    → InSync (run_queued q (record h { queued = q }))
unfolding run_queued settled next called
run_queued-InSync h [] s = s
run_queued-InSync h (set_uri_job uri ∷ q) s =
    InSync-moved (record h { queued = set_uri_job uri ∷ q }) _ refl refl
      (ap (λ p. settled p q) (replay-called h.has_pipeline (set_uri uri) h.effects s.has_pipeline))
      s
run_queued-InSync h (play_job ∷ q) s =
    let es = if h.has_pipeline then play_uri ∷ h.effects else h.effects in
    InSync-moved (record h { queued = play_job ∷ q }) _ refl refl
      (ap (λ p. settled p q)
        (replay-quiet h.has_bridge (connected controller_text) es (λ p. refl)
          ∙ replay-called h.has_pipeline play_uri h.effects s.has_pipeline))
      s
run_queued-InSync h (stop_job ∷ q) s =
    let es = if h.has_pipeline then stop_uri ∷ h.effects else h.effects in
    InSync-moved (record h { queued = stop_job ∷ q }) _ refl refl
      (ap (λ p. settled p q)
        (replay-quiet h.has_bridge disconnected es (λ p. refl)
          ∙ replay-called h.has_pipeline stop_uri h.effects s.has_pipeline))
      s
run_queued-InSync h (pause_job ∷ q) s =
    InSync-moved (record h { queued = pause_job ∷ q }) _ refl refl
      (ap (λ p. settled p q) (replay-called h.has_pipeline pause_uri h.effects s.has_pipeline)) s
run_queued-InSync h (seek_job position ∷ q) s =
    InSync-moved (record h { queued = seek_job position ∷ q }) _ refl refl
      (ap (λ p. settled p q)
        (replay-quiet h.has_pipeline (seek_uri position) h.effects (λ p. refl)))
      s
run_queued-InSync h (volume_job volume ∷ q) s =
    InSync-moved (record h { queued = volume_job volume ∷ q }) _ refl refl
      (ap (λ p. settled p q)
        (replay-quiet h.has_pipeline (set_volume volume) h.effects (λ p. refl)))
      s
run_queued-InSync h (mute_job mute ∷ q) s =
    InSync-moved (record h { queued = mute_job mute ∷ q }) _ refl refl
      (ap (λ p. settled p q) (replay-quiet h.has_pipeline (set_muted mute) h.effects (λ p. refl))) s
run_queued-InSync h (shutdown_job ∷ q) s = let e : none ≡ some s.final = s.settles in cc

-- A job that brings every pipeline that one transport state shows to one that another shows.
pub record Leads (job : Job) (s t : TransportState) : Type 0 where
  pub after : UriPipeline → UriPipeline
  pub is_next : (p : UriPipeline) → IsReady p → next job p ≡ some (after p)
  pub ready : (p : UriPipeline) → IsReady p → IsReady (after p)
  pub shown : (p : UriPipeline) → IsShown s p.state → IsShown t (after p).state

pub set_uri-Leads : (uri : Text) (s : TransportState) → Leads (set_uri_job uri) s stopped
unfolding next called
set_uri-Leads uri s = record {
  after = λ p. record p { uri = uri; state = gst_paused };
  is_next = λ p r. ap some (set_uri-ready uri p r);
  ready = λ p r. r;
  shown = λ p sh e. ground (arith, e);
}

pub play-Leads : (s : TransportState) → Leads play_job s playing
unfolding next called
play-Leads s = record {
  after = set_state gst_playing;
  is_next = λ p r. ap some (play_uri-ready p r);
  ready = λ p r. r;
  shown = λ p sh. refl;
}

pub stop-Leads : (s : TransportState) → Leads stop_job s stopped
unfolding next called
stop-Leads s = record {
  after = set_state gst_null;
  is_next = λ p r. ap some (stop_uri-ready p r);
  ready = λ p r. r;
  shown = λ p sh e. ground (arith, e);
}

pub pause-Leads : (s : TransportState) → Leads pause_job s paused
unfolding next called
pause-Leads s = record {
  after = set_state gst_paused;
  is_next = λ p r. ap some (pause_uri-ready p r);
  ready = λ p r. r;
  shown = λ p sh. refl;
}

-- A job that leaves the pipeline's state alone.
pub same-Leads :
    (job : Job) (s : TransportState) → ((p : UriPipeline) → next job p ≡ some p) → Leads job s s
same-Leads job s same = record {
  after = λ p. p;
  is_next = λ p r. same p;
  ready = λ p r. r;
  shown = λ p sh. sh;
}

-- A job that is queued with the transport state it leads to.
pub enqueue-InSync :
    (h : Handler) (job : Job) (t : TransportState)
    → Leads job h.transport_state t
    → InSync h
    → InSync (record (enqueue job h) { transport_state = t })
unfolding settled
enqueue-InSync h job t leads sync = record {
  has_pipeline = sync.has_pipeline;
  final = leads.after sync.final;
  settles =
      settled-append (replay h.effects) sync.final h.queued job sync.settles
      ∙ ap (λ o. elim o as (λ x. Option UriPipeline) [ none ↦ none | some q ↦ some q ])
          (leads.is_next sync.final sync.ready);
  ready = leads.ready sync.final sync.ready;
  shown = leads.shown sync.final sync.shown;
}
