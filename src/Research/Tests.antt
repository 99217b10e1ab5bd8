-- ===== src/Research/Tests.antt =====
-- A run on four observations of one instrument, as in internal/research/backtest/engine_test.go, and
-- sums and costs at the limits.
use tradeedge.Prelude.{
  ℤ, pos, ◌+ℤ◌, ◌-ℤ◌, ◌*ℤ◌, max_int64, wrap64, add_overflows, find_at, err, ok, Text, ascii,
  text_eq, trim_left, trim_right, trim_space, ℕ, ◌+◌, ◌-◌, ◌≡◌, refl, ◌⊎◌, true, false, none, some,
  List, [], ◌∷◌, ◌++◌, map, arith,
}
use tradeedge.Research.Backtest.Rounds.{
  decision_side, new_order, decide, by_id, known_instrument, consult, evaluate, step, rounds,
  initial,
}
use tradeedge.Research.Backtest.Engine.{
  Parts, PendingOrder, RunState, closable, leave, enter, apply_fill, take_fill, settle,
}
use tradeedge.Research.Backtest.{
  Fill, Position, is_invalid_decision, control_choice, control_evaluate,
}
use tradeedge.Research.Backtest.Ledger.{
  money_add_minor, cost_input, cost_for_fill, apply_cash, combine_part, combine_costs, unit_gain,
  close_trade, equity_from,
}
use tradeedge.Research.Backtest.Filling.{
  is_unfillable, book_of, liquid, slipped, spread_per_unit, fill,
}
use tradeedge.Research.Backtest.Books.{IsBooked, run-IsBooked}
use tradeedge.Research.Backtest.Chronology.{Extends, no_look_ahead}
use tradeedge.Research.Backtest.Exits.{no_underflow}
use tradeedge.Research.Backtest.Baseline.{fill-IsFillModel}
use tradeedge.Research.Arithmetic.{
  checked_add, checked_sub, checked_mul, divided, mul_div, exact, checked_mul-exact,
}
use tradeedge.Research.Rounding.{mul_div_exact}
use tradeedge.Research.Cost.{
  Base, Rounding, Rate, Config, Input, Breakdown, base_value, charge, sum_from, add_up, calculate,
}
use tradeedge.Research.Cost.Balance.{IsBalanced}
use tradeedge.Research.Cost.Total.{calculate-IsBalanced}
use tradeedge.Research.Observation.{
  ResearchInstrument, is_available_at, Observation, observation_less,
}
use tradeedge.Research.Features.{
  PointInTimeView, is_out_of_view, bad_after, bad_observations, new_point_in_time_view, text_less,
  insert_value, sort_values, bad_values, new_feature_frame, last_two, return_value, build,
}
use tradeedge.Research.Features.Past.{IsPast, new_view-IsPast}
use tradeedge.Domain.Instrument.{Exchange, Segment, InstrumentType, OptionType, no_date, no_price}
use tradeedge.Domain.{new_currency, new_money, add, Price, new_price, Side}

abbrev rupees : ℤ → Price
rupees n = record { minor = n; currency = ascii "INR" }

abbrev test_instrument : ResearchInstrument
test_instrument = record {
  instrument = record {
    id = 3;
    exchange = Exchange.nse;
    segment = Segment.cash_segment;
    underlying_id = ascii "TEST";
    kind = InstrumentType.equity_type;
    exchange_symbol = ascii "TEST";
    expiry = no_date;
    strike = no_price;
    option_kind = OptionType.no_option;
    lot_size = pos 1;
    tick_size = rupees (pos 1);
    currency = ascii "INR";
  };
  available_from = 1;
}

abbrev seen_at : ℕ → ℕ → Observation
seen_at at last = record {
  id = at;
  instrument_id = 3;
  exchange_time = at;
  price = rupees (pos last);
  bid = some (rupees (pos (last - 1)));
  ask = some (rupees (pos (last + 1)));
  volume = pos 1;
  open_interest = none;
}

abbrev no_charge : Rate
no_charge = record {
  numerator = pos 0;
  denominator = pos 1;
  base = Base.total_notional;
  rounding = Rounding.floor;
}

abbrev costs_of : Rate → Config
costs_of brokerage = record {
  schema_ok = true;
  version = ascii "V";
  brokerage = brokerage;
  stt = no_charge;
  exchange_charges = no_charge;
  gst = no_charge;
  stamp_duty = no_charge;
  regulatory_charges = no_charge;
}

abbrev fill_digest : Text → ℕ → Text
fill_digest order observation = observation ∷ order

abbrev fixture : Parts
fixture = record {
  dataset_version = ascii "D";
  strategy_version = ascii "S";
  instruments = test_instrument ∷ [];
  features = build;
  strategy = control_evaluate Side.buy;
  fills = fill fill_digest (pos 0);
  costs = calculate (costs_of no_charge);
  starting_capital = record { minor = pos 100000; currency = ascii "INR" };
  quantity = pos 1;
  is_done = λ n. false;
  order_digest = λ at id side version. at ∷ [];
  trade_digest = λ id entry leaving. entry ∷ leaving ∷ [];
}

abbrev first_three : List Observation
first_three = seen_at 2 100 ∷ seen_at 3 110 ∷ seen_at 4 120 ∷ []

abbrev last_one : List Observation
last_one = seen_at 5 130 ∷ []

abbrev state_after : List Observation → RunState
state_after os = elim (rounds fixture os (initial fixture)) [ err f ↦ initial fixture | ok s ↦ s ]

abbrev after_three : RunState
after_three = state_after first_three

abbrev after_four : RunState
after_four = state_after (first_three ++ last_one)

four_run : rounds fixture (first_three ++ last_one) (initial fixture) ≡ ok after_four
unfolding rounds initial step settle evaluate consult known_instrument by_id is_available_at
    new_point_in_time_view bad_observations is_out_of_view bad_after build last_two return_value
    new_feature_frame bad_values sort_values insert_value text_less observation_less add
    new_currency new_money new_price ◌*ℤ◌ ◌+ℤ◌ ◌-ℤ◌ add_overflows wrap64 text_eq trim_left
    trim_right trim_space checked_add checked_mul checked_sub divided mul_div apply_fill closable
    enter leave take_fill apply_cash close_trade combine_costs combine_part cost_for_fill cost_input
    equity_from money_add_minor unit_gain decide decision_side new_order control_evaluate
    control_choice is_invalid_decision fill is_unfillable book_of liquid slipped spread_per_unit
    calculate charge base_value sum_from add_up
four_run = refl

one_trade : map (λ t. t.net_pnl_minor) after_four.trades ≡ pos 8 ∷ []
unfolding rounds initial step settle evaluate consult known_instrument by_id is_available_at
    new_point_in_time_view bad_observations is_out_of_view bad_after build last_two return_value
    new_feature_frame bad_values sort_values insert_value text_less observation_less add
    new_currency new_money new_price ◌*ℤ◌ ◌+ℤ◌ ◌-ℤ◌ add_overflows wrap64 text_eq trim_left
    trim_right trim_space checked_add checked_mul checked_sub divided mul_div apply_fill closable
    enter leave take_fill apply_cash close_trade combine_costs combine_part cost_for_fill cost_input
    equity_from money_add_minor unit_gain decide decision_side new_order control_evaluate
    control_choice is_invalid_decision fill is_unfillable book_of liquid slipped spread_per_unit
    calculate charge base_value sum_from add_up
one_trade = refl

-- The context is not done, so the loop reaches its end over three observations as over four.
three_run : rounds fixture first_three (initial fixture) ≡ ok after_three
unfolding rounds initial step settle evaluate consult known_instrument by_id is_available_at
    new_point_in_time_view bad_observations is_out_of_view bad_after build last_two return_value
    new_feature_frame bad_values sort_values insert_value text_less observation_less add
    new_currency new_money new_price ◌*ℤ◌ ◌+ℤ◌ ◌-ℤ◌ add_overflows wrap64 text_eq trim_left
    trim_right trim_space checked_add checked_mul checked_sub divided mul_div apply_fill closable
    enter leave take_fill apply_cash close_trade combine_costs combine_part cost_for_fill cost_input
    equity_from money_add_minor unit_gain decide decision_side new_order control_evaluate
    control_choice is_invalid_decision fill is_unfillable book_of liquid slipped spread_per_unit
    calculate charge base_value sum_from add_up
three_run = refl

run-IsBooked_example : IsBooked after_four
run-IsBooked_example =
    run-IsBooked fixture (first_three ++ last_one) (fill-IsFillModel fill_digest (pos 0)) four_run

no_look_ahead_example :
    (s : RunState) × (rounds fixture first_three (initial fixture) ≡ ok s) × Extends s after_four
no_look_ahead_example = no_look_ahead fixture first_three last_one four_run

-- The exit that waits after three observations.
abbrev waiting_exit : PendingOrder
waiting_exit = record {
  order = record {
    id = 4 ∷ [];
    signal_time = 4;
    order_time = 4;
    instrument_id = 3;
    side = Side.sell;
    quantity = pos 1;
    strategy_version = ascii "S";
  };
  leaves = true;
}

exit_waits : find_at 3 after_three.pending ≡ some waiting_exit
unfolding rounds initial step settle evaluate consult known_instrument by_id is_available_at
    new_point_in_time_view bad_observations is_out_of_view bad_after build last_two return_value
    new_feature_frame bad_values sort_values insert_value text_less observation_less add
    new_currency new_money new_price ◌*ℤ◌ ◌+ℤ◌ ◌-ℤ◌ add_overflows wrap64 text_eq trim_left
    trim_right trim_space checked_add checked_mul checked_sub divided mul_div apply_fill closable
    enter leave take_fill apply_cash close_trade combine_costs combine_part cost_for_fill cost_input
    equity_from money_add_minor unit_gain decide decision_side new_order control_evaluate
    control_choice is_invalid_decision fill is_unfillable book_of liquid slipped spread_per_unit
    calculate charge base_value sum_from add_up
exit_waits = refl

abbrev exit_fill : Fill
exit_fill = record {
  id = 5 ∷ 4 ∷ [];
  order_id = 4 ∷ [];
  signal_time = 4;
  order_time = 4;
  fill_time = 5;
  instrument_id = 3;
  side = Side.sell;
  quantity = pos 1;
  reference_price = rupees (pos 130);
  fill_price = rupees (pos 129);
  slippage_minor = pos 0;
  spread_impact_minor = pos 1;
}

exit_filled : fill fill_digest (pos 0) waiting_exit.order (seen_at 5 130) ≡ ok exit_fill
unfolding rounds initial step settle evaluate consult known_instrument by_id is_available_at
    new_point_in_time_view bad_observations is_out_of_view bad_after build last_two return_value
    new_feature_frame bad_values sort_values insert_value text_less observation_less add
    new_currency new_money new_price ◌*ℤ◌ ◌+ℤ◌ ◌-ℤ◌ add_overflows wrap64 text_eq trim_left
    trim_right trim_space checked_add checked_mul checked_sub divided mul_div apply_fill closable
    enter leave take_fill apply_cash close_trade combine_costs combine_part cost_for_fill cost_input
    equity_from money_add_minor unit_gain decide decision_side new_order control_evaluate
    control_choice is_invalid_decision fill is_unfillable book_of liquid slipped spread_per_unit
    calculate charge base_value sum_from add_up
exit_filled = refl

no_underflow_example :
    ((true ≡ false) × (find_at 3 after_three.positions ≡ none))
    ⊎ ((p : Position) × (true ≡ true)
        × (closable (find_at 3 after_three.positions) exit_fill ≡ ok p))
no_underflow_example =
    no_underflow fixture first_three 3 waiting_exit (seen_at 5 130)
      (fill-IsFillModel fill_digest (pos 0)) three_run exit_waits exit_filled

checked_mul-exact_example : checked_mul max_int64 (pos 2) ≡ exact (max_int64 *ℤ pos 2)
checked_mul-exact_example = checked_mul-exact max_int64 (pos 2) (omega arith)

-- 3 thirds of 10, rounded up.
mul_div_exact_example : mul_div (pos 10) (pos 3) (pos 4) true ≡ ok (pos 8)
mul_div_exact_example = mul_div_exact 10 3 3 true (omega arith)

abbrev one_percent : Rate
one_percent = record {
  numerator = pos 1;
  denominator = pos 100;
  base = Base.total_notional;
  rounding = Rounding.ceil;
}

abbrev test_input : Input
test_input = record {
  buy_notional_minor = pos 250;
  sell_notional_minor = pos 0;
  gross_pnl = pos 10;
  slippage = pos 2;
  spread_impact = pos 1;
}

abbrev test_breakdown : Breakdown
test_breakdown = record {
  gross_pnl = pos 10;
  brokerage = pos 3;
  stt = pos 0;
  exchange_charges = pos 0;
  gst = pos 0;
  stamp_duty = pos 0;
  regulatory_charges = pos 0;
  slippage = pos 2;
  spread_impact = pos 1;
  total_costs = pos 6;
  net_pnl = pos 4;
}

charged : calculate (costs_of one_percent) test_input ≡ ok test_breakdown
unfolding rounds initial step settle evaluate consult known_instrument by_id is_available_at
    new_point_in_time_view bad_observations is_out_of_view bad_after build last_two return_value
    new_feature_frame bad_values sort_values insert_value text_less observation_less add
    new_currency new_money new_price ◌*ℤ◌ ◌+ℤ◌ ◌-ℤ◌ add_overflows wrap64 text_eq trim_left
    trim_right trim_space checked_add checked_mul checked_sub divided mul_div apply_fill closable
    enter leave take_fill apply_cash close_trade combine_costs combine_part cost_for_fill cost_input
    equity_from money_add_minor unit_gain decide decision_side new_order control_evaluate
    control_choice is_invalid_decision fill is_unfillable book_of liquid slipped spread_per_unit
    calculate charge base_value sum_from add_up
charged = refl

calculate-IsBalanced_example : IsBalanced test_breakdown × (test_breakdown.gross_pnl ≡ pos 10)
calculate-IsBalanced_example =
    calculate-IsBalanced (costs_of one_percent) test_input
      (record {
        buy = omega arith;
        sell = omega arith;
        gross = omega arith;
        slippage = omega arith;
        spread_impact = omega arith;
      })
      charged

abbrev test_view : PointInTimeView
test_view = record { as_of = 4; instrument = test_instrument; observations = first_three }

viewed : new_point_in_time_view 4 test_instrument first_three ≡ ok test_view
unfolding rounds initial step settle evaluate consult known_instrument by_id is_available_at
    new_point_in_time_view bad_observations is_out_of_view bad_after build last_two return_value
    new_feature_frame bad_values sort_values insert_value text_less observation_less add
    new_currency new_money new_price ◌*ℤ◌ ◌+ℤ◌ ◌-ℤ◌ add_overflows wrap64 text_eq trim_left
    trim_right trim_space checked_add checked_mul checked_sub divided mul_div apply_fill closable
    enter leave take_fill apply_cash close_trade combine_costs combine_part cost_for_fill cost_input
    equity_from money_add_minor unit_gain decide decision_side new_order control_evaluate
    control_choice is_invalid_decision fill is_unfillable book_of liquid slipped spread_per_unit
    calculate charge base_value sum_from add_up
viewed = refl

new_view-IsPast_example :
    IsPast test_view × (test_view.observations ≡ first_three) × (test_view.as_of ≡ 4)
new_view-IsPast_example = new_view-IsPast 4 test_instrument first_three viewed
