-- ===== src/Execution/Order/Tests.antt =====
-- Runs of the order model on one order, an acknowledged buy of 10 units, and its theorems there.
use tradeedge.Prelude.{
  ◌↔◌, pos, ◌+ℤ◌, ◌-ℤ◌, wrap64, ok, ascii, text_eq, trim_space, ℕ, ◌≡◌, refl, false, none, some, [],
  arith,
}
use tradeedge.Execution.State.{
  OrderState, ReportType, TransitionReason, report_target, legal_transition, stale_transition,
}
use tradeedge.Execution.Order.{
  OrderLeg, Order, lacks_identity, out_of_range, disagrees_with_state, is_invalid_order,
  new_order_value, ExecutionReport, Fill, check_report, or_error, fill_quantity_of,
  check_quantities, next_state, next_broker_id, advance, apply_execution_report,
}
use tradeedge.Execution.Order.Moves.{Moves}
use tradeedge.Execution.Order.Moves.Tables.{Enters, tables_agree}
use tradeedge.Execution.Order.Validity.{IsValid, new_order_value-IsValid}
use tradeedge.Execution.Order.Apply.{Fits, Advances, apply_execution_report-Advances}
use tradeedge.Execution.Order.Lifecycle.{
  apply_execution_report-Moves, final_state_absorbs, FilledIffComplete, broker_id_kept,
}
use tradeedge.Execution.Order.History.{start, apply, Tracks, history-Tracks}
use tradeedge.Domain.{Currency, Side}

abbrev rupees : Currency
rupees = ascii "INR"

abbrev leg : OrderLeg
leg = record {
  id = 5;
  instrument_id = 6;
  side = Side.buy;
  quantity = pos 10;
  limit_price = record { minor = pos 250; currency = rupees };
  protective = false;
  depends_on = [];
  reducing_exposure = false;
}

abbrev live : Order
live = record {
  id = 7;
  client_id = 8;
  spec = record {
    schema_version = ascii "order/v1";
    plan_id = 9;
    leg = leg;
    state = OrderState.acknowledged;
    revision = 4;
    filled_quantity = pos 0;
    broker_order_id = ascii "B-1";
    created_at = 100;
    updated_at = 120;
  };
}

abbrev report_of : ReportType → TransitionReason → ℕ → ℕ → ExecutionReport
report_of kind reason cumulative received = record {
  id = 11;
  spec = record {
    schema_version = ascii "report/v1";
    source = ascii "broker";
    source_event_id = ascii "e-1";
    order_id = 7;
    client_order_id = 8;
    broker_order_id = ascii "B-1";
    kind = kind;
    reason = reason;
    cumulative_filled = pos cumulative;
    occurred_at = received;
    received_at = received;
  };
}

abbrev fill_of : ℕ → Fill
fill_of quantity = record {
  id = 12;
  spec = record {
    schema_version = ascii "fill/v1";
    source = ascii "broker";
    source_execution_id = ascii "x-1";
    order_id = 7;
    report_id = 11;
    quantity = pos quantity;
    price = record { minor = pos 249; currency = rupees };
    occurred_at = 130;
  };
}

abbrev partly : Order
partly = record live {
  spec = record (live.spec) {
    state = OrderState.partially_filled;
    revision = 5;
    filled_quantity = pos 4;
    updated_at = 130;
  };
}

abbrev full : Order
full = record live {
  spec = record (live.spec) {
    state = OrderState.filled;
    revision = 6;
    filled_quantity = pos 10;
    updated_at = 130;
  };
}

abbrev first_report : ExecutionReport
first_report = report_of ReportType.partial_fill TransitionReason.broker_fill 4 130

abbrev last_report : ExecutionReport
last_report = report_of ReportType.fill TransitionReason.broker_fill 10 125

first_run : apply_execution_report live first_report (some (fill_of 4)) ≡ ok partly
unfolding apply_execution_report check_report or_error report_target fill_quantity_of
    check_quantities next_state legal_transition next_broker_id new_order_value is_invalid_order
    lacks_identity out_of_range disagrees_with_state advance text_eq trim_space wrap64 ◌+ℤ◌ ◌-ℤ◌
first_run = refl

last_run : apply_execution_report partly last_report (some (fill_of 6)) ≡ ok full
unfolding apply_execution_report check_report or_error report_target fill_quantity_of
    check_quantities next_state legal_transition next_broker_id new_order_value is_invalid_order
    lacks_identity out_of_range disagrees_with_state advance text_eq trim_space wrap64 ◌+ℤ◌ ◌-ℤ◌
last_run = refl

abbrev late_report : ExecutionReport
late_report = report_of ReportType.cancelled TransitionReason.broker_cancelled 10 140

abbrev full_after : Order
full_after = record full { spec = record (full.spec) { revision = 7; updated_at = 140 } }

-- A cancellation that comes after the last fill is stale.
late_run : apply_execution_report full late_report none ≡ ok full_after
unfolding apply_execution_report check_report or_error report_target fill_quantity_of
    check_quantities next_state legal_transition stale_transition next_broker_id new_order_value
    is_invalid_order lacks_identity out_of_range disagrees_with_state advance text_eq trim_space
    wrap64 ◌+ℤ◌ ◌-ℤ◌
late_run = refl

created : new_order_value 7 8 (live.spec) ≡ ok live
unfolding new_order_value is_invalid_order lacks_identity out_of_range disagrees_with_state
    trim_space
created = refl

live-IsValid : IsValid live
live-IsValid = new_order_value-IsValid 7 8 (live.spec) created

live-FilledIffComplete : FilledIffComplete live
live-FilledIffComplete = (λ e. cc, λ e. cc)

live-Fits : Fits live (some (fill_of 4))
live-Fits = record { filled_fits = omega arith; amount_fits = omega arith }

partly-Fits : Fits partly (some (fill_of 6))
partly-Fits = record { filled_fits = omega arith; amount_fits = omega arith }

apply_execution_report-Advances_example : Advances live (some (fill_of 4)) partly
apply_execution_report-Advances_example =
    apply_execution_report-Advances live first_report (some (fill_of 4)) live-IsValid live-Fits
      first_run

history-Tracks_example : Tracks live (pos 0 +ℤ pos 4 +ℤ pos 6) full
history-Tracks_example = history-Tracks live live-IsValid live-FilledIffComplete (
    apply (apply start first_report (some (fill_of 4)) live-Fits first_run) last_report
      (some (fill_of 6)) partly-Fits last_run)

final_state_absorbs_example : full_after.spec.state ≡ full.spec.state
final_state_absorbs_example = final_state_absorbs full late_report none refl late_run

apply_execution_report-Moves_example :
    (partly.spec.state ≡ OrderState.partially_filled)
    ↔ Moves ReportType.partial_fill OrderState.acknowledged OrderState.partially_filled
apply_execution_report-Moves_example =
    apply_execution_report-Moves live first_report (some (fill_of 4)) first_run
      OrderState.partially_filled

tables_agree_example :
    Enters ReportType.fill OrderState.cancelled OrderState.filled
    ↔ Moves ReportType.fill OrderState.cancelled OrderState.filled
tables_agree_example = tables_agree ReportType.fill OrderState.cancelled OrderState.filled

broker_id_kept_example : partly.spec.broker_order_id ≡ live.spec.broker_order_id
broker_id_kept_example =
    broker_id_kept live first_report (some (fill_of 4)) live-IsValid refl first_run
