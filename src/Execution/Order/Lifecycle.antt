-- ===== src/Execution/Order/Lifecycle.antt =====
-- The life of an order of internal/execution/model/order.go: which states a report leads to, which
-- states are final, and when an order is filled.
use tradeedge.Prelude.{
  Bool-cases, subst, sym, ℤ, eq_of_parts, ok, Text, is_empty, text_eq→eq, ◌≡◌, refl, ◌∙◌, ◌↔◌, inl,
  inr, Bool, true, false, ◌||◌, Option, arith,
}
use tradeedge.Execution.State.{
  OrderState, is_filled, is_partially_filled, legal_transition, stale_transition,
}
use tradeedge.Execution.Order.{
  Order, ExecutionReport, Fill, check_filling, check_not_filling, check_quantities, next_state,
  next_broker_id, advance, apply_execution_report,
}
use tradeedge.Execution.Order.Moves.{Moves}
use tradeedge.Execution.Order.Moves.Tables.{Enters, entered_once, tables_agree}
use tradeedge.Execution.Order.Validity.{IsValid, stored-IsValid}
use tradeedge.Execution.Order.Apply.{Accepted, accepted}

-- The states that no report leaves. CANCELLED is terminal in the code and is not among them: a late
-- fill leaves it.
abbrev pub is_final : OrderState → Bool
is_final OrderState.filled = true
is_final OrderState.rejected = true
is_final OrderState.expired = true
is_final OrderState.failed = true
is_final _ = false

final-next_state :
    (from to : OrderState) {s : OrderState}
    → is_final from ≡ true
    → next_state from to ≡ ok s
    → s ≡ from
unfolding next_state legal_transition
final-next_state OrderState.filled to f h = ground arith
final-next_state OrderState.rejected to f h = ground arith
final-next_state OrderState.expired to f h = ground arith
final-next_state OrderState.failed to f h = ground arith
final-next_state _ to f h = cc

state-apply :
    (current : Order) (report : ExecutionReport) (fill : Option Fill) {next : Order}
    → (a : Accepted current report fill next) → next.spec.state ≡ a.state
unfolding advance
state-apply current report fill a = rw a.result

-- After a report applied with success the order's state is the one, and the only one, that the phases
-- of an order allow a report of that type to lead to from its state.
pub apply_execution_report-Moves :
    (current : Order) (report : ExecutionReport) (fill : Option Fill) {next : Order}
    → apply_execution_report current report fill ≡ ok next
    → (s : OrderState) → (next.spec.state ≡ s) ↔ Moves report.spec.kind current.spec.state s
apply_execution_report-Moves current report fill {next} h s =
    let a = accepted current report fill h in
    let led : Enters report.spec.kind current.spec.state next.spec.state = (
      a.target,
      a.targeted,
      subst (λ t. next_state current.spec.state a.target ≡ ok t)
          (sym (state-apply current report fill a)) a.entered,
    ) in
    let (to, from) = tables_agree report.spec.kind current.spec.state s in
    (
      λ e. to (subst (Enters report.spec.kind current.spec.state) e led),
      λ m. entered_once report.spec.kind current.spec.state led (from m),
    )

-- A filled, rejected, expired or failed order keeps its state, whatever report is applied to it with
-- success.
pub final_state_absorbs :
    (current : Order) (report : ExecutionReport) (fill : Option Fill) {next : Order}
    → is_final current.spec.state ≡ true
    → apply_execution_report current report fill ≡ ok next
    → next.spec.state ≡ current.spec.state
final_state_absorbs current report fill f h =
    let a = accepted current report fill h in
    state-apply current report fill a ∙ final-next_state current.spec.state a.target f a.entered

-- An order is filled exactly when its whole quantity is.
abbrev pub FilledIffComplete : Order → Type 0
FilledIffComplete o =
    (is_filled o.spec.state ≡ true) ↔ (o.spec.filled_quantity ≡ o.spec.leg.quantity)

fill_entered :
    (from to : OrderState) {s : OrderState}
    → is_filled to ≡ true
    → next_state from to ≡ ok s
    → is_filled s ≡ true
unfolding next_state stale_transition
fill_entered from OrderState.filled f h = ground arith
fill_entered from _ f h = cc

filling_target :
    (current : Order) (report : ExecutionReport) (fill : Option Fill) (q : ℤ) (target : OrderState)
    → check_filling current report fill q target ≡ ok tt
    → report.spec.cumulative_filled ≡ current.spec.leg.quantity
    → (is_partially_filled target || is_filled target) ≡ true
    → is_filled target ≡ true
unfolding check_filling
filling_target current report fill q target h c f = ground arith

kept_quantity :
    (current : Order) (report : ExecutionReport) (fill : Option Fill)
    → check_not_filling current report fill ≡ ok tt
    → current.spec.filled_quantity ≡ report.spec.cumulative_filled
unfolding check_not_filling
kept_quantity current report fill h =
    ground (arith, eq_of_parts current.spec.filled_quantity report.spec.cumulative_filled)

kept_name :
    (known reported : Text) {name : Text}
    → is_empty known ≡ false
    → next_broker_id known reported ≡ ok name
    → name ≡ known
unfolding next_broker_id
kept_name known reported k h = ground (arith, text_eq→eq known reported)

filled→final : (s : OrderState) → is_filled s ≡ true → is_final s ≡ true
filled→final OrderState.filled h = refl
filled→final _ h = cc

complete-state :
    (current : Order) (report : ExecutionReport) (fill : Option Fill) (q : ℤ) (target : OrderState)
    {s : OrderState}
    → FilledIffComplete current
    → check_quantities current report fill q target ≡ ok tt
    → next_state current.spec.state target ≡ ok s
    → report.spec.cumulative_filled ≡ current.spec.leg.quantity
    → is_filled s ≡ true
unfolding check_quantities
complete-state current report fill q target inv h e c =
    elim (Bool-cases (is_partially_filled target || is_filled target)) [
      | inl fills ↦
          fill_entered current.spec.state target
            (filling_target current report fill q target (rw fills at h) c fills) e
      | inr not_fills ↦
          let kept = kept_quantity current report fill (rw not_fills at h) in
          let full = inv.1 (kept ∙ c) in
          rw (final-next_state current.spec.state target (filled→final current.spec.state full) e)
            full
    ]

-- Applying a report keeps an order filled exactly when its whole quantity is.
pub apply_execution_report-FilledIffComplete :
    (current : Order) (report : ExecutionReport) (fill : Option Fill) {next : Order}
    → FilledIffComplete current
    → apply_execution_report current report fill ≡ ok next
    → FilledIffComplete next
unfolding advance
apply_execution_report-FilledIffComplete current report fill {next} inv h =
    let a = accepted current report fill h in
    let valid = stored-IsValid current.id current.client_id _ a.well_formed in
    rw a.result (
      valid.full_if_filled,
      λ c. complete-state current report fill a.fill_quantity a.target inv a.quantities a.entered c,
    )

-- A report applied with success to a well-formed order whose broker's identifier is known leaves that
-- identifier.
pub broker_id_kept :
    (current : Order) (report : ExecutionReport) (fill : Option Fill) {next : Order}
    → IsValid current
    → is_empty current.spec.broker_order_id ≡ false
    → apply_execution_report current report fill ≡ ok next
    → next.spec.broker_order_id ≡ current.spec.broker_order_id
unfolding advance
broker_id_kept current report fill {next} v known h =
    let a = accepted current report fill h in
    rw (a.result, kept_name current.spec.broker_order_id report.spec.broker_order_id known a.named)
      v.broker_trimmed
