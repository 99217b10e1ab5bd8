-- ===== src/Execution/Order.antt =====
-- Orders, reports and fills of internal/execution/model/order.go, with the operation that applies a
-- report to an order. An identifier is the number that its 32 bytes write, so the zero identifier is
-- 0. A time is in nanoseconds since the zero time. The canonical JSON that a value caches is left
-- out: it is a function of the other fields, and no operation reads it.
pub mod Validity
pub mod Apply
pub mod Moves
pub mod Lifecycle
pub mod History
mod Tests
use tradeedge.Prelude.{
  ltb, ◌==◌, if◌then◌else◌, ℤ, pos, ◌+ℤ◌, ◌-ℤ◌, ltb_ℤ, eqb_ℤ, max_int64, wrap64, wrap_u64, Result,
  ok, err, ◌>>=◌, ◌>>◌, reject_if, Text, is_empty, text_eq, trim_space, ℕ, ◌+◌, Bool, true, false,
  not, ◌&&◌, ◌||◌, Option, none, some, List,
}
use tradeedge.Execution.State.{
  OrderState, ReportType, TransitionReason, is_known_state, is_filled, is_partially_filled,
  report_target, legal_transition, stale_transition,
}
use tradeedge.Domain.{Price, Side}

pub data Error : Type 0 where
  invalid_order invalid_transition overfill non_monotonic_fill : Error
  report_order_mismatch invalid_identity : Error

pub record OrderLeg : Type 0 where
  pub id : ℕ
  pub instrument_id : ℕ
  pub side : Side
  pub quantity : ℤ
  pub limit_price : Price
  pub protective : Bool
  pub depends_on : List ℕ
  pub reducing_exposure : Bool

pub record OrderSpec : Type 0 where
  pub schema_version : Text
  pub plan_id : ℕ
  pub leg : OrderLeg
  pub state : OrderState
  pub revision : ℕ
  pub filled_quantity : ℤ
  pub broker_order_id : Text
  pub created_at : ℕ
  pub updated_at : ℕ

pub record Order : Type 0 where
  pub id : ℕ
  pub client_id : ℕ
  pub spec : OrderSpec

-- The guard of `newOrderValue`, in its order and in three parts: identity, quantity and times, and
-- the quantity that a state wants.
unfoldable pub lacks_identity : ℕ → ℕ → OrderSpec → Bool
lacks_identity id client_id s =
    (id == 0)
    || (client_id == 0)
    || is_empty (trim_space s.schema_version)
    || (s.plan_id == 0)
    || (s.leg.id == 0)
    || not (is_known_state s.state)
    || (s.revision == 0)

unfoldable pub out_of_range : OrderSpec → Bool
out_of_range s =
    ltb_ℤ s.filled_quantity (pos 0)
    || ltb_ℤ s.leg.quantity s.filled_quantity
    || (s.created_at == 0)
    || ltb s.updated_at s.created_at

unfoldable pub disagrees_with_state : OrderSpec → Bool
disagrees_with_state s =
    (is_filled s.state && not (eqb_ℤ s.filled_quantity s.leg.quantity))
    || (is_partially_filled s.state
        && (eqb_ℤ s.filled_quantity (pos 0) || eqb_ℤ s.filled_quantity s.leg.quantity))

unfoldable pub is_invalid_order : ℕ → ℕ → OrderSpec → Bool
is_invalid_order id client_id s =
    lacks_identity id client_id s || out_of_range s || disagrees_with_state s

-- `newOrderValue`
unfoldable pub new_order_value : ℕ → ℕ → OrderSpec → Result Error Order
new_order_value id client_id s = do
  reject_if (is_invalid_order id client_id s) invalid_order
  ok (record {
    id = id;
    client_id = client_id;
    spec = record s { broker_order_id = trim_space s.broker_order_id };
  })

pub record ExecutionReportSpec : Type 0 where
  pub schema_version : Text
  pub source : Text
  pub source_event_id : Text
  pub order_id : ℕ
  pub client_order_id : ℕ
  pub broker_order_id : Text
  pub kind : ReportType
  pub reason : TransitionReason
  pub cumulative_filled : ℤ
  pub occurred_at : ℕ
  pub received_at : ℕ

pub record ExecutionReport : Type 0 where
  pub id : ℕ
  pub spec : ExecutionReportSpec

pub record FillSpec : Type 0 where
  pub schema_version : Text
  pub source : Text
  pub source_execution_id : Text
  pub order_id : ℕ
  pub report_id : ℕ
  pub quantity : ℤ
  pub price : Price
  pub occurred_at : ℕ

pub record Fill : Type 0 where
  pub id : ℕ
  pub spec : FillSpec

-- The identity checks at the head of `ApplyExecutionReport`.
pub check_report : Order → ExecutionReport → Result Error (Unit {0})
check_report current report = do
  reject_if
      ((current.id == 0)
        || (report.id == 0)
        || not (report.spec.order_id == current.id)
        || not (report.spec.client_order_id == current.client_id))
      report_order_mismatch
  reject_if (ltb_ℤ report.spec.cumulative_filled current.spec.filled_quantity) non_monotonic_fill
  reject_if (ltb_ℤ current.spec.leg.quantity report.spec.cumulative_filled) overfill

or_error : Option OrderState → Error → Result Error OrderState
or_error none e = err e
or_error (some target) e = ok target

-- A fill has to name the order and the report; its quantity, 0 without a fill.
pub fill_quantity_of : Order → ExecutionReport → Option Fill → Result Error ℤ
fill_quantity_of current report none = ok (pos 0)
fill_quantity_of current report (some fill) = do
  reject_if
      (not (fill.spec.order_id == current.id)
        || not (fill.spec.report_id == report.id)
        || not (text_eq fill.spec.price.currency current.spec.leg.limit_price.currency))
      report_order_mismatch
  ok fill.spec.quantity

is_absent : Option Fill → Bool
is_absent none = true
is_absent (some _) = false

-- The quantities of a report that fills: the fill makes up the difference, and the report completes
-- the order exactly if it says so.
check_filling : Order → ExecutionReport → Option Fill → ℤ → OrderState → Result Error (Unit {0})
unfolding is_absent
check_filling current report fill fill_quantity target = do
  reject_if
      (is_absent fill
        || ltb_ℤ (wrap64 (max_int64 -ℤ current.spec.filled_quantity)) fill_quantity
        || not (
            eqb_ℤ (wrap64 (current.spec.filled_quantity +ℤ fill_quantity))
              report.spec.cumulative_filled))
      non_monotonic_fill
  reject_if
      (is_partially_filled target && eqb_ℤ report.spec.cumulative_filled current.spec.leg.quantity)
      invalid_transition
  reject_if
      (is_filled target && not (eqb_ℤ report.spec.cumulative_filled current.spec.leg.quantity))
      invalid_transition

-- A report that does not fill has no fill and leaves the quantity.
check_not_filling : Order → ExecutionReport → Option Fill → Result Error (Unit {0})
unfolding is_absent
check_not_filling current report fill =
    reject_if
      (not (is_absent fill)
        || not (eqb_ℤ report.spec.cumulative_filled current.spec.filled_quantity))
      non_monotonic_fill

pub check_quantities :
    Order → ExecutionReport → Option Fill → ℤ → OrderState → Result Error (Unit {0})
unfolding check_filling check_not_filling
check_quantities current report fill fill_quantity target =
    if is_partially_filled target || is_filled target
    then check_filling current report fill fill_quantity target
    else check_not_filling current report fill

-- A legal target is entered; a stale one leaves the state.
pub next_state : OrderState → OrderState → Result Error OrderState
next_state current target =
    if legal_transition current target
    then ok target
    else if stale_transition current target
    then ok current
    else err invalid_transition

-- The broker's order identifier is set once.
pub next_broker_id : Text → Text → Result Error Text
next_broker_id current reported =
    if is_empty reported
    then ok current
    else if not (is_empty current) && not (text_eq current reported)
    then err report_order_mismatch
    else ok reported

-- The next specification of an order: the revision is a `uint64`.
pub advance : Order → ExecutionReport → OrderState → Text → OrderSpec
advance current report state broker_id = record (current.spec) {
  state = state;
  revision = wrap_u64 (current.spec.revision + 1);
  filled_quantity = report.spec.cumulative_filled;
  updated_at =
      if ltb current.spec.updated_at report.spec.received_at
      then report.spec.received_at
      else current.spec.updated_at;
  broker_order_id = broker_id;
}

-- `ApplyExecutionReport`
pub apply_execution_report : Order → ExecutionReport → Option Fill → Result Error Order
apply_execution_report current report fill = do
  check_report current report
  target ← or_error (report_target report.spec.kind) invalid_transition
  fill_quantity ← fill_quantity_of current report fill
  check_quantities current report fill fill_quantity target
  state ← next_state current.spec.state target
  broker_id ← next_broker_id current.spec.broker_order_id report.spec.broker_order_id
  new_order_value current.id current.client_id (advance current report state broker_id)
