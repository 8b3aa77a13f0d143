-- ===== src/MediaPipeline.antt =====
-- The URI pipeline of src/pipeline/MediaPipeline.cpp, with the state that was asked of GStreamer last.
use air_show.Prelude.{Bool, true, not, ◌||◌, [], if◌then◌else◌, ◌≡◌, ap, ◌∙◌}
use air_show.Settings.{Text}

-- `GST_STATE_NULL`, `GST_STATE_PAUSED` and `GST_STATE_PLAYING`.
pub data GstState : Type 0 where
  gst_null gst_paused gst_playing : GstState

-- Whether `m_uriPipeline` and `m_uriDecodebin` are there, the property "uri" and the state.
pub record UriPipeline : Type 0 where
  pub has_pipeline : Bool
  pub has_decodebin : Bool
  pub uri : Text
  pub state : GstState

-- As `initUriPipeline` leaves it where it succeeds.
abbrev pub initialised : UriPipeline
initialised = record { has_pipeline = true; has_decodebin = true; uri = []; state = gst_null }

abbrev pub set_state : GstState → UriPipeline → UriPipeline
set_state s p = record p { state = s }

-- `setUri`: down to NULL, then PAUSED, which prerolls.
unfoldable pub set_uri : Text → UriPipeline → UriPipeline
set_uri uri p =
    if not p.has_pipeline || not p.has_decodebin
    then p
    else set_state gst_paused (record (set_state gst_null p) { uri = uri })

unfoldable pub play_uri : UriPipeline → UriPipeline
play_uri p = if p.has_pipeline then set_state gst_playing p else p

unfoldable pub pause_uri : UriPipeline → UriPipeline
pause_uri p = if p.has_pipeline then set_state gst_paused p else p

unfoldable pub stop_uri : UriPipeline → UriPipeline
stop_uri p = if p.has_pipeline then set_state gst_null p else p

abbrev pub IsReady : UriPipeline → Type 0
IsReady p = (p.has_pipeline ≡ true) × (p.has_decodebin ≡ true)

pub set_uri-ready :
    (uri : Text) (p : UriPipeline)
    → IsReady p
    → set_uri uri p ≡ record p { uri = uri; state = gst_paused }
unfolding set_uri
set_uri-ready uri p (has, bin) =
    let after = record p { uri = uri; state = gst_paused } in
    ap (λ b. if not b || not p.has_decodebin then p else after) has
    ∙ ap (λ b. if not b then p else after) bin

pub play_uri-ready : (p : UriPipeline) → IsReady p → play_uri p ≡ set_state gst_playing p
unfolding play_uri
play_uri-ready p (has, bin) = ap (λ b. if b then set_state gst_playing p else p) has

pub pause_uri-ready : (p : UriPipeline) → IsReady p → pause_uri p ≡ set_state gst_paused p
unfolding pause_uri
pause_uri-ready p (has, bin) = ap (λ b. if b then set_state gst_paused p else p) has

pub stop_uri-ready : (p : UriPipeline) → IsReady p → stop_uri p ≡ set_state gst_null p
unfolding stop_uri
stop_uri-ready p (has, bin) = ap (λ b. if b then set_state gst_null p else p) has
