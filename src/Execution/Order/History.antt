-- ===== src/Execution/Order/History.antt =====
-- Sequences of reports applied to an order of internal/execution/model/order.go. A report that is
-- refused leaves the order, so a history keeps the calls that succeed.
use tradeedge.Prelude.{ℤ, pos, ◌+ℤ◌, int_laws, ok, ◌≡◌, refl, ◌∙◌, Option}
use tradeedge.Execution.Order.{Order, ExecutionReport, Fill, apply_execution_report}
use tradeedge.Execution.Order.Validity.{IsValid}
use tradeedge.Execution.Order.Apply.{fill_amount, Fits, apply_execution_report-Advances}
use tradeedge.Execution.Order.Lifecycle.{
  FilledIffComplete, apply_execution_report-FilledIffComplete,
}

-- From `o` to the order by successful calls, with the sum of their fills.
pub data History (o : Order) : ℤ → Order → Type 0 where
  start : History o (pos 0) o
  apply :
      {sum : ℤ} {current : Order}
      → History o sum current
      → (report : ExecutionReport) (fill : Option Fill) {next : Order} → Fits current fill
      → apply_execution_report current report fill ≡ ok next
      → History o (sum +ℤ fill_amount fill) next

-- What holds of every order in a history.
pub record Tracks (o : Order) (sum : ℤ) (current : Order) : Type 0 where
  pub valid : IsValid current
  pub complete : FilledIffComplete current
  pub same_id : current.id ≡ o.id
  pub same_leg : current.spec.leg ≡ o.spec.leg
  pub accounted : current.spec.filled_quantity ≡ o.spec.filled_quantity +ℤ sum

zero_sum : (a : ℤ) → a ≡ a +ℤ pos 0
zero_sum a = omega int_laws

add_sum : (a b c d e : ℤ) → d ≡ a +ℤ b → e ≡ d +ℤ c → e ≡ a +ℤ (b +ℤ c)
add_sum a b c d e h k = rw (k, h) (omega int_laws)

-- Take a well-formed order that is FILLED exactly if its filled quantity is its leg's, and any
-- sequence of reports that are applied to it with success, the fills of 64-bit quantities. The
-- order that results is well formed, with the same identity and leg; its filled quantity is the one
-- at the start and the sum of the fills, and it is FILLED exactly if that is the leg's quantity.
pub history-Tracks :
    (o : Order) {sum : ℤ} {current : Order}
    → IsValid o
    → FilledIffComplete o
    → History o sum current
    → Tracks o sum current
history-Tracks o v c start = record {
  valid = v;
  complete = c;
  same_id = refl;
  same_leg = refl;
  accounted = zero_sum o.spec.filled_quantity;
}
history-Tracks o v c
      (apply {sum = sum} {current = current} before report fill {next = next} fits h) =
    let t = history-Tracks o v c before in
    let a = apply_execution_report-Advances current report fill t.valid fits h in
    record {
      valid = a.valid;
      complete = apply_execution_report-FilledIffComplete current report fill t.complete h;
      same_id = a.same_id ∙ t.same_id;
      same_leg = a.same_leg ∙ t.same_leg;
      accounted =
          add_sum o.spec.filled_quantity sum (fill_amount fill) current.spec.filled_quantity
            next.spec.filled_quantity t.accounted a.grown;
    }
