-- ===== src/Execution/Order/Apply.antt =====
-- What one successful `ApplyExecutionReport` of internal/execution/model/order.go has done.
use tradeedge.Prelude.{
  ltb, if◌then◌else◌, Bool-cases, Option-cases, ℤ, pos, negsuc, ◌+ℤ◌, ◌-ℤ◌, ◌≤ℤ◌, ◌<ℤ◌, eq_of_parts,
  max_int64, IsInt64, wrap64, wrap_u64, Result, ok, >>=-eq-ok, Text, ℕ, ◌+◌, ◌≤◌, ◌≡◌, refl, sym,
  inl, inr, false, ◌||◌, Option, none, some, arith,
}
use tradeedge.Execution.State.{OrderState, is_filled, is_partially_filled, report_target}
use tradeedge.Execution.Order.{
  Error, Order, is_invalid_order, ExecutionReport, Fill, check_report, or_error, fill_quantity_of,
  is_absent, check_filling, check_not_filling, check_quantities, next_state, next_broker_id,
  advance, apply_execution_report,
}
use tradeedge.Execution.Order.Validity.{IsValid, stored, new_order_value-eq-ok, stored-IsValid}

-- The facts that the checks of a successful call establish.
pub record Accepted (current : Order) (report : ExecutionReport) (fill : Option Fill) (next : Order)
    : Type 0 where
  pub target : OrderState
  pub fill_quantity : ℤ
  pub state : OrderState
  pub broker_id : Text
  pub checked : check_report current report ≡ ok tt
  pub targeted : report_target report.spec.kind ≡ some target
  pub quantity : fill_quantity_of current report fill ≡ ok fill_quantity
  pub quantities : check_quantities current report fill fill_quantity target ≡ ok tt
  pub entered : next_state current.spec.state target ≡ ok state
  pub named : next_broker_id current.spec.broker_order_id report.spec.broker_order_id ≡ ok broker_id
  pub well_formed :
      is_invalid_order current.id current.client_id (advance current report state broker_id) ≡ false
  pub result : next ≡ stored current.id current.client_id (advance current report state broker_id)

or_error-eq-ok :
    (o : Option OrderState) (e : Error) (t : OrderState) → or_error o e ≡ ok t → o ≡ some t
unfolding or_error
or_error-eq-ok o e t h = ground arith

unit_eq : (m : Result Error (Unit {0})) (u : Unit {0}) → m ≡ ok u → m ≡ ok tt
unit_eq m tt h = h

pub accepted :
    (current : Order) (report : ExecutionReport) (fill : Option Fill) {next : Order}
    → apply_execution_report current report fill ≡ ok next
    → Accepted current report fill next
unfolding apply_execution_report
accepted current report fill h =
    let (u, h1, k1) = >>=-eq-ok (check_report current report) _ h in
    let (t, h2, k2) = >>=-eq-ok _ _ k1 in
    let (q, h3, k3) = >>=-eq-ok _ _ k2 in
    let (v, h4, k4) = >>=-eq-ok _ _ k3 in
    let (s, h5, k5) = >>=-eq-ok _ _ k4 in
    let (b, h6, k6) = >>=-eq-ok _ _ k5 in
    let (fine, e) = new_order_value-eq-ok _ _ _ k6 in
    record {
      target = t;
      fill_quantity = q;
      state = s;
      broker_id = b;
      checked = unit_eq _ u h1;
      targeted = or_error-eq-ok _ _ _ h2;
      quantity = h3;
      quantities = unit_eq _ v h4;
      entered = h5;
      named = h6;
      well_formed = fine;
      result = e;
    }

-- The quantity that a report's fill adds.
abbrev pub fill_amount : Option Fill → ℤ
fill_amount none = pos 0
fill_amount (some fill) = fill.spec.quantity

fill_quantity-eq-amount :
    (current : Order) (report : ExecutionReport) (fill : Option Fill) (q : ℤ)
    → fill_quantity_of current report fill ≡ ok q
    → q ≡ fill_amount fill
unfolding fill_quantity_of
fill_quantity-eq-amount current report none q h = cc
fill_quantity-eq-amount current report (some fill) q h = ground arith

pub check_report_bounds :
    (current : Order) (report : ExecutionReport)
    → check_report current report ≡ ok tt
    → (current.spec.filled_quantity ≤ℤ report.spec.cumulative_filled)
      × (report.spec.cumulative_filled ≤ℤ current.spec.leg.quantity)
unfolding check_report
check_report_bounds current report h = ground arith

-- A sum that the code's test lets through does not wrap.
no_wrap :
    (a b : ℤ)
    → IsInt64 a
    → IsInt64 b
    → pos 0 ≤ℤ a
    → ¬ (wrap64 (max_int64 -ℤ a) <ℤ b)
    → wrap64 (a +ℤ b) ≡ a +ℤ b
unfolding wrap64 ◌+ℤ◌ ◌-ℤ◌
no_wrap (pos m) (pos n) h k p q = ground arith
no_wrap (pos m) (negsuc n) h k p q = ground arith
no_wrap (negsuc m) b h k p q = absurd (omega arith)

module _ (current : Order) (report : ExecutionReport) (fill : Option Fill) where
  filling_sum :
      (q : ℤ) (target : OrderState)
      → check_filling current report fill q target ≡ ok tt
      → IsInt64 current.spec.filled_quantity
      → IsInt64 q
      → pos 0 ≤ℤ current.spec.filled_quantity
      → current.spec.filled_quantity +ℤ q ≡ report.spec.cumulative_filled
  unfolding check_filling
  filling_sum q target h i k p =
      let filled = current.spec.filled_quantity in
      ground
        (arith, no_wrap filled q, eq_of_parts (wrap64 (filled +ℤ q)) report.spec.cumulative_filled)

  no_fill_sum :
      check_not_filling current report none ≡ ok tt
      → current.spec.filled_quantity +ℤ pos 0 ≡ report.spec.cumulative_filled
  unfolding check_not_filling is_absent ◌+ℤ◌
  no_fill_sum h = ground arith

  has_fill : (f : Fill) → ¬ (check_not_filling current report (some f) ≡ ok tt)
  unfolding check_not_filling is_absent
  has_fill f h = cc

  not_filling_sum :
      check_not_filling current report fill ≡ ok tt
      → current.spec.filled_quantity +ℤ fill_amount fill ≡ report.spec.cumulative_filled
  unfolding check_not_filling is_absent
  not_filling_sum h = elim (Option-cases fill) [
    | inl e ↦ rw (e, fill_amount) (no_fill_sum (rw e at h))
    | inr (f, e) ↦ absurd (has_fill f (rw e at h))
  ]

-- The quantities that go into a call are 64-bit integers.
pub record Fits (current : Order) (fill : Option Fill) : Type 0 where
  pub filled_fits : IsInt64 current.spec.filled_quantity
  pub amount_fits : IsInt64 (fill_amount fill)

module _ (current : Order) (report : ExecutionReport) (fill : Option Fill) where
  quantities_sum :
      (q : ℤ) (target : OrderState)
      → check_quantities current report fill q target ≡ ok tt
      → q ≡ fill_amount fill
      → IsInt64 current.spec.filled_quantity
      → IsInt64 q
      → pos 0 ≤ℤ current.spec.filled_quantity
      → current.spec.filled_quantity +ℤ fill_amount fill ≡ report.spec.cumulative_filled
  unfolding check_quantities
  quantities_sum q target h e i k p =
      rw (← e) (elim (Bool-cases (is_partially_filled target || is_filled target)) [
        | inl fills ↦ filling_sum current report fill q target (rw fills at h) i k p
        | inr other ↦ rw e (not_filling_sum current report fill (rw other at h))
      ])

-- What a successful call has done: a well-formed order with the same identity and leg, one revision
-- further, whose filled quantity has grown by exactly the fill, and whose time has not gone back.
pub record Advances (current : Order) (fill : Option Fill) (next : Order) : Type 0 where
  pub valid : IsValid next
  pub same_id : next.id ≡ current.id
  pub same_client : next.client_id ≡ current.client_id
  pub same_plan : next.spec.plan_id ≡ current.spec.plan_id
  pub same_leg : next.spec.leg ≡ current.spec.leg
  pub same_creation : next.spec.created_at ≡ current.spec.created_at
  pub one_revision : next.spec.revision ≡ wrap_u64 (current.spec.revision + 1)
  pub grown : next.spec.filled_quantity ≡ current.spec.filled_quantity +ℤ fill_amount fill
  pub monotonic : current.spec.filled_quantity ≤ℤ next.spec.filled_quantity
  pub later : current.spec.updated_at ≤ next.spec.updated_at

later_lem : (a b : ℕ) → a ≤ (if ltb a b then b else a)
later_lem a b = ground arith

-- A report applied with success to a well-formed order, of 64-bit filled quantity and fill, keeps
-- it well formed, moves its `uint64` revision by one and its filled quantity by exactly the quantity
-- of the fill, not down, and its time not back, and changes neither its identity nor its leg.
pub apply_execution_report-Advances :
    (current : Order) (report : ExecutionReport) (fill : Option Fill) {next : Order}
    → IsValid current
    → Fits current fill
    → apply_execution_report current report fill ≡ ok next
    → Advances current fill next
unfolding advance
apply_execution_report-Advances current report fill {next} v fits h =
    let a = accepted current report fill h in
    let amount = fill_quantity-eq-amount current report fill a.fill_quantity a.quantity in
    let sum =
      quantities_sum current report fill a.fill_quantity a.target a.quantities amount
        fits.filled_fits (rw amount fits.amount_fits) v.filled_nonneg in
    rw a.result (record {
      valid = stored-IsValid current.id current.client_id _ a.well_formed;
      same_id = refl;
      same_client = refl;
      same_plan = refl;
      same_leg = refl;
      same_creation = refl;
      one_revision = refl;
      grown = sym sum;
      monotonic = (check_report_bounds current report a.checked).0;
      later = later_lem current.spec.updated_at report.spec.received_at;
    })
