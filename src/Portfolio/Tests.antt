-- ===== src/Portfolio/Tests.antt =====
-- An allocation of two packages of two legs, each package of 200, under a cap of 450.
use tradeedge.Prelude.{
  ℤ, pos, ◌+ℤ◌, ◌-ℤ◌, ◌*ℤ◌, wrap64, ok, ascii, text_eq, trim_left, trim_right, trim_space, ◌≡◌,
  refl, false, [], arith, ◌∷◌,
}
use tradeedge.Portfolio.Bounded.{IsApproved, evaluate_capital-IsApproved}
use tradeedge.Portfolio.Least.{IsLeast}
use tradeedge.Portfolio.Exact.{IsShare, IsSound, IsLeft}
use tradeedge.Portfolio.Exact.Package.{TotalCost}
use tradeedge.Portfolio.{
  checked_mul, Limits, AllocationInput, requested, available_after_reserve, lower, leg_cost,
  package_cost, Approval, approve, evaluate_capital,
}
use tradeedge.Portfolio.Controls.{
  ControlScope, KillSwitchState, all_reason_chars, matches_reason, new_control_reason, KillSwitch,
  lacks_scope, bad_switch_state, new_kill_switch, IsEvidenced, new_kill_switch-IsEvidenced,
}
use tradeedge.Domain.Instrument.{
  Exchange, Segment, InstrumentType, OptionType, no_date, Instrument, no_price,
}
use tradeedge.Instruments.{find_instrument}

abbrev traded : Instrument
traded = record {
  id = 3;
  exchange = Exchange.nse;
  segment = Segment.cash_segment;
  underlying_id = ascii "X";
  kind = InstrumentType.equity_type;
  exchange_symbol = ascii "X";
  expiry = no_date;
  strike = no_price;
  option_kind = OptionType.no_option;
  lot_size = pos 1;
  tick_size = record { minor = pos 5; currency = ascii "INR" };
  currency = ascii "INR";
}

abbrev small_limits : Limits
small_limits = record {
  total_capital = pos 1000000;
  reserve_bps = pos 1000;
  emergency_reserve_bps = pos 500;
  maximum_strategy = pos 9000;
  maximum_instrument = pos 450;
  maximum_underlying = pos 9000;
  maximum_exposure_group = pos 9000;
  strategy_limit = pos 100000;
  strategy_remaining = pos 8000;
  available = pos 160000;
}

abbrev small_input : AllocationInput
small_input = record {
  is_refused = false;
  limits = small_limits;
  sizing_bps = pos 500;
  base_currency = ascii "INR";
  instruments = traded ∷ [];
  legs =
      record { instrument_id = 3; ratio = pos 1; reference_price = pos 100 }
      ∷ record { instrument_id = 3; ratio = pos 2; reference_price = pos 50 }
      ∷ [];
}

abbrev two_packages : Approval
two_packages = record {
  requested_minor = pos 5000;
  approved_minor = pos 400;
  remainder_minor = pos 4600;
  cost = pos 200;
  packages = pos 2;
}

approved : evaluate_capital small_input ≡ ok two_packages
unfolding evaluate_capital requested available_after_reserve approve package_cost leg_cost
    checked_mul lower find_instrument text_eq ◌*ℤ◌ ◌+ℤ◌ ◌-ℤ◌ wrap64
approved = refl

limits-IsSound : IsSound small_limits
limits-IsSound = record {
  reserve_nonneg = omega arith;
  reserve_ratio = omega arith;
  emergency_nonneg = omega arith;
  emergency_ratio = omega arith;
  available_nonneg = omega arith;
  available_int64 = omega arith;
}

evaluate_capital-IsApproved_example :
    (asked : ℤ) × (free : ℤ) × (bound : ℤ) × IsShare (pos 100000) (pos 500) asked
    × IsLeft small_limits free
    × IsLeast small_limits asked free bound
    × IsApproved asked bound two_packages
    × TotalCost small_input (small_input.legs) (pos 200)
evaluate_capital-IsApproved_example =
    evaluate_capital-IsApproved small_input limits-IsSound approved

abbrev halted : KillSwitch
halted = record {
  id = 1;
  scope = ControlScope.global;
  scope_subject = ascii "ALL";
  state = KillSwitchState.active;
  reason_code = ascii "MANUAL_HALT";
  activation_evidence = 5;
  activated_at = 10;
  expires_at = 20;
  configuration_id = 2;
  configuration_hash = 3;
  state_revision = 1;
  schema_version = ascii "V";
}

halt_made : new_kill_switch halted ≡ ok halted
unfolding new_kill_switch new_control_reason matches_reason all_reason_chars lacks_scope
    bad_switch_state trim_space trim_left trim_right
halt_made = refl

new_kill_switch-IsEvidenced_example : IsEvidenced halted
new_kill_switch-IsEvidenced_example = new_kill_switch-IsEvidenced halted halt_made
