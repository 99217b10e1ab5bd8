-- ===== src/Execution/State.antt =====
-- The state machine of an order, in internal/execution/model/order.go: states, report types,
-- transition reasons and the two tables of transitions. `other` is any string that is none of the
-- constants, the empty one included.
use tradeedge.Prelude.{ℕ, Bool, true, false, ◌&&◌, Option, none, some, leb, ltb}

pub data OrderState : Type 0 where
  created planned submission_pending submitted acknowledged partially_filled filled : OrderState
  cancel_pending cancelled rejected expired failed unknown other : OrderState

pub data ReportType : Type 0 where
  planned submission_pending submitted acknowledged partial_fill fill cancel_pending : ReportType
  cancelled rejected expired failed unknown other : ReportType

pub data TransitionReason : Type 0 where
  plan_accepted submission_started broker_accepted broker_acknowledged : TransitionReason
  broker_fill cancellation_requested broker_cancelled broker_rejected : TransitionReason
  authority_expired internal_failure submission_outcome_unknown other : TransitionReason

-- `OrderState.Validate`
abbrev pub is_known_state : OrderState → Bool
is_known_state OrderState.other = false
is_known_state _ = true

-- `OrderState.Terminal`
abbrev pub terminal : OrderState → Bool
terminal OrderState.filled = true
terminal OrderState.cancelled = true
terminal OrderState.rejected = true
terminal OrderState.expired = true
terminal OrderState.failed = true
terminal _ = false

-- Tests `state == OrderFilled` and `state == OrderPartiallyFilled`.
abbrev pub is_filled : OrderState → Bool
is_filled OrderState.filled = true
is_filled _ = false

abbrev pub is_partially_filled : OrderState → Bool
is_partially_filled OrderState.partially_filled = true
is_partially_filled _ = false

-- `validTransitionReason`
abbrev pub valid_transition_reason : TransitionReason → Bool
valid_transition_reason TransitionReason.other = false
valid_transition_reason _ = true

-- `expectedReason`
unfoldable pub expected_reason : ReportType → TransitionReason
expected_reason ReportType.planned = TransitionReason.plan_accepted
expected_reason ReportType.submission_pending = TransitionReason.submission_started
expected_reason ReportType.submitted = TransitionReason.broker_accepted
expected_reason ReportType.acknowledged = TransitionReason.broker_acknowledged
expected_reason ReportType.partial_fill = TransitionReason.broker_fill
expected_reason ReportType.fill = TransitionReason.broker_fill
expected_reason ReportType.cancel_pending = TransitionReason.cancellation_requested
expected_reason ReportType.cancelled = TransitionReason.broker_cancelled
expected_reason ReportType.rejected = TransitionReason.broker_rejected
expected_reason ReportType.expired = TransitionReason.authority_expired
expected_reason ReportType.failed = TransitionReason.internal_failure
expected_reason ReportType.unknown = TransitionReason.submission_outcome_unknown
expected_reason ReportType.other = TransitionReason.other

-- `reportTarget`
unfoldable pub report_target : ReportType → Option OrderState
report_target ReportType.planned = some OrderState.planned
report_target ReportType.submission_pending = some OrderState.submission_pending
report_target ReportType.submitted = some OrderState.submitted
report_target ReportType.acknowledged = some OrderState.acknowledged
report_target ReportType.partial_fill = some OrderState.partially_filled
report_target ReportType.fill = some OrderState.filled
report_target ReportType.cancel_pending = some OrderState.cancel_pending
report_target ReportType.cancelled = some OrderState.cancelled
report_target ReportType.rejected = some OrderState.rejected
report_target ReportType.expired = some OrderState.expired
report_target ReportType.failed = some OrderState.failed
report_target ReportType.unknown = some OrderState.unknown
report_target ReportType.other = none

-- The rows of the table `allowed` of `legalTransition`.
abbrev from_created : OrderState → Bool
from_created OrderState.planned = true
from_created OrderState.expired = true
from_created OrderState.failed = true
from_created _ = false

abbrev from_planned : OrderState → Bool
from_planned OrderState.submission_pending = true
from_planned OrderState.expired = true
from_planned OrderState.cancelled = true
from_planned OrderState.failed = true
from_planned _ = false

abbrev from_submission_pending : OrderState → Bool
from_submission_pending OrderState.submitted = true
from_submission_pending OrderState.acknowledged = true
from_submission_pending OrderState.partially_filled = true
from_submission_pending OrderState.filled = true
from_submission_pending OrderState.rejected = true
from_submission_pending OrderState.unknown = true
from_submission_pending _ = false

abbrev from_submitted : OrderState → Bool
from_submitted OrderState.acknowledged = true
from_submitted OrderState.partially_filled = true
from_submitted OrderState.filled = true
from_submitted OrderState.cancel_pending = true
from_submitted OrderState.rejected = true
from_submitted OrderState.unknown = true
from_submitted _ = false

abbrev from_acknowledged : OrderState → Bool
from_acknowledged OrderState.partially_filled = true
from_acknowledged OrderState.filled = true
from_acknowledged OrderState.cancel_pending = true
from_acknowledged OrderState.rejected = true
from_acknowledged OrderState.unknown = true
from_acknowledged _ = false

abbrev from_cancel_pending : OrderState → Bool
from_cancel_pending OrderState.cancelled = true
from_cancel_pending OrderState.partially_filled = true
from_cancel_pending OrderState.filled = true
from_cancel_pending OrderState.rejected = true
from_cancel_pending OrderState.unknown = true
from_cancel_pending _ = false

abbrev from_cancelled : OrderState → Bool
from_cancelled OrderState.partially_filled = true
from_cancelled OrderState.filled = true
from_cancelled _ = false

abbrev from_unknown : OrderState → Bool
from_unknown OrderState.submitted = true
from_unknown OrderState.acknowledged = true
from_unknown OrderState.partially_filled = true
from_unknown OrderState.filled = true
from_unknown OrderState.cancel_pending = true
from_unknown OrderState.cancelled = true
from_unknown OrderState.rejected = true
from_unknown _ = false

-- `legalTransition`. The rows of ACKNOWLEDGED and PARTIALLY_FILLED are alike.
unfoldable pub legal_transition : OrderState → OrderState → Bool
legal_transition OrderState.created to = from_created to
legal_transition OrderState.planned to = from_planned to
legal_transition OrderState.submission_pending to = from_submission_pending to
legal_transition OrderState.submitted to = from_submitted to
legal_transition OrderState.acknowledged to = from_acknowledged to
legal_transition OrderState.partially_filled to = from_acknowledged to
legal_transition OrderState.cancel_pending to = from_cancel_pending to
legal_transition OrderState.cancelled to = from_cancelled to
legal_transition OrderState.unknown to = from_unknown to
legal_transition _ to = false

-- The table `rank`, 0 where it has no entry.
abbrev pub rank : OrderState → ℕ
rank OrderState.created = 1
rank OrderState.planned = 2
rank OrderState.submission_pending = 3
rank OrderState.submitted = 4
rank OrderState.acknowledged = 5
rank OrderState.partially_filled = 6
rank OrderState.cancel_pending = 7
rank OrderState.cancelled = 8
rank OrderState.rejected = 8
rank OrderState.expired = 8
rank OrderState.failed = 8
rank OrderState.filled = 9
rank OrderState.unknown = 0
rank OrderState.other = 0

-- `staleTransition`
unfoldable pub stale_transition : OrderState → OrderState → Bool
stale_transition from OrderState.partially_filled = false
stale_transition from OrderState.filled = false
stale_transition from to = ltb 0 (rank to) && leb (rank to) (rank from)
