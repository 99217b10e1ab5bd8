-- ===== src/Execution/Tests.antt =====
-- Runs of the constructors and of the health of execution.
use tradeedge.Prelude.{pos, ok, ascii, trim_space, ◌+◌, ◌≡◌, refl, true, false, [], ◌∷◌}
use tradeedge.Execution.Order.{
  OrderLeg, Order, lacks_identity, out_of_range, disagrees_with_state, is_invalid_order,
  new_order_value,
}
use tradeedge.Execution.State.{OrderState}
use tradeedge.Domain.{Side}
use tradeedge.Execution.Order.Validity.{IsValid}
use tradeedge.Execution.Reports.{IdDigests, select_leg, new_order, new_order-IsValid}
use tradeedge.Execution.Health.{
  Coordinator, Oms, PaperBroker, Reconciliation, is_healthy, aggregate, aggregate_healthy,
}

abbrev toy_ids : IdDigests
toy_ids = record {
  order_id = λ plan leg. plan + leg;
  client_order_id = λ id. id;
  report_id = λ s e. ok 1;
  fill_id = λ s e. ok 2;
}

abbrev one_leg : OrderLeg
one_leg = record {
  id = 5;
  instrument_id = 6;
  side = Side.buy;
  quantity = pos 10;
  limit_price = record { minor = pos 250; currency = ascii "INR" };
  protective = false;
  depends_on = [];
  reducing_exposure = false;
}

abbrev new_one : Order
new_one = record {
  id = 14;
  client_id = 14;
  spec = record {
    schema_version = ascii "order/v1";
    plan_id = 9;
    leg = one_leg;
    state = OrderState.created;
    revision = 1;
    filled_quantity = pos 0;
    broker_order_id = [];
    created_at = 100;
    updated_at = 100;
  };
}

new_order_run : new_order toy_ids 9 (one_leg ∷ []) 5 100 ≡ ok new_one
unfolding new_order select_leg new_order_value is_invalid_order lacks_identity out_of_range
    disagrees_with_state trim_space
new_order_run = refl

new_order-IsValid_example :
    IsValid new_one
    × (new_one.spec.state ≡ OrderState.created)
    × (new_one.spec.revision ≡ 1)
    × (new_one.spec.filled_quantity ≡ pos 0)
    × (new_one.spec.leg.id ≡ 5)
    × (new_one.spec.plan_id ≡ 9)
new_order-IsValid_example = new_order-IsValid toy_ids 9 (one_leg ∷ []) 5 100 new_order_run

abbrev idle_coordinator : Coordinator
idle_coordinator = record {
  closed = false;
  available = true;
  in_flight_plans = pos 0;
  keyed_orders = pos 0;
  maximum_plans = pos 4;
  broker_timeout = pos 5;
  cursor = 0;
}

abbrev idle_oms : Oms
idle_oms = record {
  available = true;
  plans = pos 0;
  orders = pos 0;
  publications = pos 0;
  reports = pos 0;
  fills = pos 0;
  unknown_orders = pos 0;
  plan_limit = pos 9;
  order_limit = pos 9;
  publication_limit = pos 9;
  report_limit = pos 9;
  fill_limit = pos 9;
}

abbrev idle_paper : PaperBroker
idle_paper = record {
  available = true;
  scenario_index = pos 0;
  scenario_count = pos 0;
  active_orders = pos 0;
  scheduled_events = pos 0;
  delivered_events = pos 0;
  unavailable_attempts = pos 0;
}

abbrev reconciled : Reconciliation
reconciled = record {
  available = true;
  running = false;
  blocked = false;
  last_attempt = 5;
  last_success = 5;
  repairs = pos 0;
  issue_counts = [];
  last_error = [];
}

-- One unknown order is enough.
aggregate_healthy_example :
    is_healthy (aggregate idle_coordinator idle_oms idle_paper reconciled (pos 1)).state ≡ false
aggregate_healthy_example =
    aggregate_healthy idle_coordinator idle_oms idle_paper reconciled (pos 1)
