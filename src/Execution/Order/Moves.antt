-- ===== src/Execution/Order/Moves.antt =====
-- The moves of an order of internal/execution/model/order.go, described by the phases of its life and
-- apart from the tables `legalTransition`, `staleTransition` and `reportTarget`.
pub mod Tables
use tradeedge.Execution.State.{OrderState, ReportType}

-- The order has not been sent.
pub data IsUnsent : OrderState → Type 0 where
  new_unsent : IsUnsent OrderState.created
  planned_unsent : IsUnsent OrderState.planned

-- It has been sent and nothing has ended it, as far as is known.
pub data IsOpen : OrderState → Type 0 where
  sending_open : IsOpen OrderState.submission_pending
  submitted_open : IsOpen OrderState.submitted
  acknowledged_open : IsOpen OrderState.acknowledged
  partly_open : IsOpen OrderState.partially_filled
  cancelling_open : IsOpen OrderState.cancel_pending

-- It is over, and not by being filled.
pub data IsEnded : OrderState → Type 0 where
  cancelled_ended : IsEnded OrderState.cancelled
  rejected_ended : IsEnded OrderState.rejected
  expired_ended : IsEnded OrderState.expired
  failed_ended : IsEnded OrderState.failed

-- The broker works on it, so a cancellation can be asked for.
pub data IsWorking : OrderState → Type 0 where
  submitted_working : IsWorking OrderState.submitted
  acknowledged_working : IsWorking OrderState.acknowledged
  partly_working : IsWorking OrderState.partially_filled
  unknown_working : IsWorking OrderState.unknown

-- The broker may fill it: it was sent, and neither filled nor refused.
pub data IsFillable : OrderState → Type 0 where
  open_fillable : {s : OrderState} → IsOpen s → IsFillable s
  cancelled_fillable : IsFillable OrderState.cancelled
  unknown_fillable : IsFillable OrderState.unknown

-- One stage of the life comes before another.
pub data Precedes : OrderState → OrderState → Type 0 where
  before_planned : Precedes OrderState.created OrderState.planned
  before_sending : Precedes OrderState.planned OrderState.submission_pending
  before_submitted : Precedes OrderState.submission_pending OrderState.submitted
  before_acknowledged : Precedes OrderState.submitted OrderState.acknowledged
  before_partly : Precedes OrderState.acknowledged OrderState.partially_filled
  before_cancelling : Precedes OrderState.partially_filled OrderState.cancel_pending
  before_ended : {s : OrderState} → IsEnded s → Precedes OrderState.cancel_pending s
  among_ended : {s t : OrderState} → IsEnded s → IsEnded t → Precedes s t
  before_filled : {s : OrderState} → IsEnded s → Precedes s OrderState.filled

-- A state is at a stage, or past it.
pub data HasReached : OrderState → OrderState → Type 0 where
  at : {s : OrderState} → HasReached s s
  past : {s t u : OrderState} → Precedes s t → HasReached t u → HasReached s u

-- The stage that a report tells of. A fill or a lost outcome tells of none.
pub data Announces : ReportType → OrderState → Type 0 where
  tells_planned : Announces ReportType.planned OrderState.planned
  tells_sending : Announces ReportType.submission_pending OrderState.submission_pending
  tells_submitted : Announces ReportType.submitted OrderState.submitted
  tells_acknowledged : Announces ReportType.acknowledged OrderState.acknowledged
  tells_cancelling : Announces ReportType.cancel_pending OrderState.cancel_pending
  tells_cancelled : Announces ReportType.cancelled OrderState.cancelled
  tells_rejected : Announces ReportType.rejected OrderState.rejected
  tells_expired : Announces ReportType.expired OrderState.expired
  tells_failed : Announces ReportType.failed OrderState.failed

-- What a report of a type makes of a state.
pub data Moves : ReportType → OrderState → OrderState → Type 0 where
  plan : Moves ReportType.planned OrderState.created OrderState.planned
  send : Moves ReportType.submission_pending OrderState.planned OrderState.submission_pending
  submit : Moves ReportType.submitted OrderState.submission_pending OrderState.submitted
  submit_found : Moves ReportType.submitted OrderState.unknown OrderState.submitted
  acknowledge_sent :
      Moves ReportType.acknowledged OrderState.submission_pending OrderState.acknowledged
  acknowledge : Moves ReportType.acknowledged OrderState.submitted OrderState.acknowledged
  acknowledge_found : Moves ReportType.acknowledged OrderState.unknown OrderState.acknowledged
  fill_part :
      {s : OrderState} → IsFillable s → Moves ReportType.partial_fill s OrderState.partially_filled
  fill_whole : {s : OrderState} → IsFillable s → Moves ReportType.fill s OrderState.filled
  ask_cancel :
      {s : OrderState} → IsWorking s → Moves ReportType.cancel_pending s OrderState.cancel_pending
  withdraw : Moves ReportType.cancelled OrderState.planned OrderState.cancelled
  cancel : Moves ReportType.cancelled OrderState.cancel_pending OrderState.cancelled
  cancel_found : Moves ReportType.cancelled OrderState.unknown OrderState.cancelled
  reject : {s : OrderState} → IsOpen s → Moves ReportType.rejected s OrderState.rejected
  reject_found : Moves ReportType.rejected OrderState.unknown OrderState.rejected
  expire : {s : OrderState} → IsUnsent s → Moves ReportType.expired s OrderState.expired
  fail : {s : OrderState} → IsUnsent s → Moves ReportType.failed s OrderState.failed
  lose : {s : OrderState} → IsOpen s → Moves ReportType.unknown s OrderState.unknown
  late :
      {kind : ReportType} {stage s : OrderState}
      → Announces kind stage
      → HasReached stage s
      → Moves kind s s

ruleset phases = (
  new_unsent, planned_unsent, sending_open, submitted_open, acknowledged_open, partly_open,
  cancelling_open, cancelled_ended, rejected_ended, expired_ended, failed_ended, submitted_working,
  acknowledged_working, partly_working, unknown_working, open_fillable, cancelled_fillable,
  unknown_fillable,
)

ruleset stages = (
  before_planned, before_sending, before_submitted, before_acknowledged, before_partly,
  before_cancelling, before_ended, among_ended, before_filled,
)

ruleset announcements = (
  tells_planned, tells_sending, tells_submitted, tells_acknowledged, tells_cancelling,
  tells_cancelled, tells_rejected, tells_expired, tells_failed,
)

ruleset moves = (
  plan, send, submit, submit_found, acknowledge_sent, acknowledge, acknowledge_found, fill_part,
  fill_whole, ask_cancel, withdraw, cancel, cancel_found, reject, reject_found, expire, fail, lose,
)
