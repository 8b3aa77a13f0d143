-- ===== src/DlnaHandler/Transport.antt =====
-- The transport state that the actions store is the one that the pipeline comes to.
use air_show.Prelude.{List, [], ◌∷◌}
use air_show.Security.Network.{Addresses}
use air_show.DlnaHandler.{Handler, run_queued}
use air_show.DlnaHandler.Actions.{Request, Reply}
use air_show.DlnaHandler.Sync.{InSync}
use air_show.DlnaHandler.Dispatch.{handle_soap_action}

-- A request on a thread of libupnp, which runs as a whole, or a turn of the Qt thread.
pub data Step (Address : Type 0) : Type 0 where
  received : Request Address → Step Address
  turn : Step Address

module _ {Address : Type 0} (qt : Addresses Address) where
  unfoldable pub step : Step Address → Handler → Handler
  unfolding handle_soap_action run_queued
  step (received r) h = (handle_soap_action qt r h).1
  step turn h = run_queued h.queued h

  unfoldable pub run_steps : List (Step Address) → Handler → Handler
  unfolding step
  run_steps [] h = h
  run_steps (s ∷ more) h = run_steps more (step s h)

module _ {Address : Type 0} (r : Request Address) (h : Handler) (sync : InSync h) where
  abbrev Kept : Reply × Handler → Type 0
  Kept result = InSync result.1
