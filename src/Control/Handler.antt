-- ===== src/Control/Handler.antt =====
-- `Handler.ServeHTTP` of internal/operations/control/controller.go, of a request whose path and body
-- are read: what it does to the controller and the status that it answers.
use tradeedge.Prelude.{Text, ℕ, Bool, true, false, Option, none, some}
use tradeedge.Control.{
  stop_new_exposure, eod_close, Snapshot, Controller, Answer, accepted, conflict, refused, command,
}

pub data Method : Type 0 where
  get post other_method : Method

-- The body, if it decodes.
pub record Body : Type 0 where
  pub request_id : Text
  pub reason : Text

-- The paths that are served, with or without the prefix `/api/v1/operations`.
pub data Route : Type 0 where
  status_route stop_route close_route other_route : Route

-- `StopNewExposure`
unfoldable pub stop_exposure :
    (Snapshot → ℕ) → Bool → Bool → Text → Text → ℕ → Controller → Controller × Answer
stop_exposure seal written stopped id reason now c =
    command seal written stopped false id stop_new_exposure reason now c

-- `RequestEOD`
unfoldable pub request_eod :
    (Snapshot → ℕ) → Bool → Bool → Text → Text → ℕ → Controller → Controller × Answer
request_eod seal written stopped id reason now c =
    command seal written stopped true id eod_close reason now c

-- The status for what a command answers.
unfoldable pub status_code : Answer → ℕ
status_code (conflict _) = 409
status_code (refused _) = 503
status_code (accepted _) = 202

unfoldable pub answer_post :
    (Snapshot → ℕ) → Bool → Bool → Route → Option Body → ℕ → Controller → Controller × ℕ
answer_post seal written stopped route none now c = (c, 400)
answer_post seal written stopped stop_route (some b) now c =
    let (t, a) = stop_exposure seal written stopped b.request_id b.reason now c in
    (t, status_code a)
answer_post seal written stopped close_route (some b) now c =
    let (t, a) = request_eod seal written stopped b.request_id b.reason now c in (t, status_code a)
answer_post seal written stopped status_route (some b) now c = (c, 404)
answer_post seal written stopped other_route (some b) now c = (c, 404)

-- `ServeHTTP`
unfoldable pub serve :
    (Snapshot → ℕ) → Bool → Bool → Method → Route → Option Body → ℕ → Controller → Controller × ℕ
serve seal written stopped get status_route body now c = (c, 200)
serve seal written stopped get stop_route body now c = (c, 405)
serve seal written stopped get close_route body now c = (c, 405)
serve seal written stopped get other_route body now c = (c, 405)
serve seal written stopped other_method route body now c = (c, 405)
serve seal written stopped post route body now c = answer_post seal written stopped route body now c
