-- ===== src/Accounting/Engine/Tests.antt =====
-- Runs of the accounting model: a position bought, then sold past zero, and the theorems there.
use tradeedge.Prelude.{
  pos, negsuc, ◌+ℤ◌, ◌-ℤ◌, ◌*ℤ◌, wrap64, add_overflows, ok, Text, ascii, text_eq, trim_space, ℕ,
  ◌+◌, ◌≡◌, refl, false, some, arith,
}
use tradeedge.Domain.{new_currency, Money, new_money, add, Side}
use tradeedge.Accounting.Transition.{
  multiply, checked_add, checked_subtract, add_nonnegative, magnitude, Change, signed_quantity,
  extend, allocate, realize, settle, close, reduce, same_direction, trade, transition,
}
use tradeedge.Accounting.Transition.DoubleEntry.{signed_basis, IsPosition}
use tradeedge.Accounting.Transition.Entries.{Entry, transition-Entry}
use tradeedge.Accounting.Position.{
  PositionState, PositionSnapshotSpec, PositionSnapshot, lacks_evidence, mixes_currencies,
  has_negative_amount, state_of, bad_shape, new_position_snapshot,
}
use tradeedge.Accounting.Position.Validity.{IsChecked, new_position_snapshot-IsChecked}
use tradeedge.Accounting.Fill.{AccountingFill, compare_keys, new_fill_application}
use tradeedge.Accounting.Engine.{
  Applied, EngineDigests, money_or_zero, add_money, check_position, base_spec, accumulate,
  place_lot, application_spec, updated, posted, apply,
}
use tradeedge.Accounting.Engine.Conservation.{IsBooked, apply-IsBooked}

abbrev rupees : Text
rupees = ascii "INR"

abbrev inr_of : ℕ → Money
inr_of n = record { minor = pos n; currency = rupees }

-- Digests that are easy to follow.
abbrev toy : EngineDigests
toy = record {
  positions = record { position_id = λ p i. p + i; position_checksum = λ s state. s.revision };
  applied_checksum = λ previous fill. previous + 1;
  application_id = λ position fill. position + fill;
  application_checksum = λ s. 1;
}

abbrev trade_fill : ℕ → Side → ℕ → ℕ → ℕ → AccountingFill
trade_fill id side quantity price at = record {
  spec = record {
    schema_version = ascii "fill/v1";
    fill = record {
      id = id;
      spec = record {
        schema_version = ascii "fill/v1";
        source = ascii "paper";
        source_execution_id = ascii "x";
        order_id = 3;
        report_id = 4;
        quantity = pos quantity;
        price = record { minor = pos price; currency = rupees };
        occurred_at = at;
      };
    };
    portfolio_id = 20;
    instrument_id = 22;
    side = side;
    received_at = at + 1;
  };
  position = 42;
  ordering = record { occurred_at = at; received_at = at + 1; fill_id = id };
  checksum = 77;
}

abbrev bought : AccountingFill
bought = trade_fill 5 Side.buy 10 7 100

abbrev sold : AccountingFill
sold = trade_fill 6 Side.sell 15 9 200

abbrev long_spec : PositionSnapshotSpec
long_spec = record {
  schema_version = ascii "position-snapshot/v1";
  position_id = 42;
  portfolio_id = 20;
  instrument_id = 22;
  revision = 1;
  net_quantity = pos 10;
  open_lot = some (record {
    side = Side.buy;
    quantity = pos 10;
    total_basis = inr_of 70;
    average_numerator = pos 70;
    average_denominator = pos 10;
    opened_at = 100;
  });
  open_cost_basis = inr_of 70;
  cumulative_bought_quantity = pos 10;
  cumulative_bought_value = inr_of 70;
  cumulative_sold_quantity = pos 0;
  cumulative_sold_value = inr_of 0;
  gross_realized_pnl = inr_of 0;
  authoritative_charges = inr_of 0;
  charges_available = false;
  last_ordering_key = bought.ordering;
  last_fill_id = 5;
  applied_fill_count = 1;
  applied_fill_checksum = 1;
  opened_at = 100;
  updated_at = 100;
  flat_at = 0;
}

abbrev long_position : PositionSnapshot
long_position = record { spec = long_spec; state = PositionState.open_long; checksum = 1 }

-- The short position that selling 15 of 10 leaves: 5 units, with a gain of 20 on the 10 closed.
abbrev short_spec : PositionSnapshotSpec
short_spec = record long_spec {
  revision = 2;
  net_quantity = negsuc 4;
  open_lot = some (record {
    side = Side.sell;
    quantity = pos 5;
    total_basis = inr_of 45;
    average_numerator = pos 45;
    average_denominator = pos 5;
    opened_at = 200;
  });
  open_cost_basis = inr_of 45;
  cumulative_sold_quantity = pos 15;
  cumulative_sold_value = inr_of 135;
  gross_realized_pnl = inr_of 20;
  last_ordering_key = sold.ordering;
  last_fill_id = 6;
  applied_fill_count = 2;
  applied_fill_checksum = 2;
  opened_at = 200;
  updated_at = 200;
}

abbrev short_position : PositionSnapshot
short_position = record { spec = short_spec; state = PositionState.open_short; checksum = 2 }

abbrev crossing : Change
crossing = record {
  net = negsuc 4;
  basis = pos 45;
  closed = pos 10;
  opened = pos 5;
  allocated = pos 70;
  realized = pos 20;
}

abbrev crossed : Applied
crossed = record {
  snapshot = short_position;
  application = record {
    spec = record {
      schema_version = ascii "fill-application/v1";
      id = 48;
      position_id = 42;
      fill_id = 6;
      fill_checksum = 77;
      ordering_key = sold.ordering;
      previous_revision = 1;
      previous_snapshot_checksum = 1;
      next_revision = 2;
      next_snapshot_checksum = 2;
      closed_quantity = pos 10;
      opened_quantity = pos 5;
      allocated_closing_basis = inr_of 70;
      gross_realized_delta = inr_of 20;
      applied_at = 201;
    };
    checksum = 1;
  };
}

transition_run : transition (pos 10) (pos 70) Side.sell (pos 15) (pos 9) ≡ ok crossing
unfolding transition trade same_direction extend reduce close allocate realize settle
    signed_quantity magnitude multiply checked_add checked_subtract add_overflows wrap64 ◌+ℤ◌ ◌-ℤ◌
    ◌*ℤ◌
transition_run = refl

apply_run : apply toy (some long_position) sold ≡ ok crossed
unfolding apply check_position compare_keys base_spec accumulate add_money money_or_zero new_money
    new_currency add add_nonnegative posted updated place_lot application_spec new_position_snapshot
    new_fill_application lacks_evidence mixes_currencies has_negative_amount state_of bad_shape
    transition trade same_direction extend reduce close allocate realize settle signed_quantity
    magnitude multiply checked_add checked_subtract add_overflows wrap64 text_eq trim_space ◌+ℤ◌
    ◌-ℤ◌ ◌*ℤ◌
apply_run = refl

long-IsPosition : IsPosition (pos 10) (pos 70)
long-IsPosition = record {
  net_fits = omega arith;
  net_above = λ e. cc;
  basis_fits = omega arith;
  basis_nonneg = omega arith;
  open_iff = (λ e. cc, λ e. cc);
}

long-IsBooked : IsBooked long_spec
unfolding ◌+ℤ◌ ◌-ℤ◌ signed_basis
long-IsBooked = record {
  position = long-IsPosition;
  bought_fits = omega arith;
  sold_fits = omega arith;
  spent_fits = omega arith;
  received_fits = omega arith;
  realized_fits = omega arith;
  quantities = refl;
  money = refl;
}

transition-Entry_example : Entry (pos 10) (pos 70) Side.sell (pos 15) (pos 9) crossing
transition-Entry_example =
    transition-Entry (pos 10) 70 Side.sell 15 9 (omega arith) (omega arith) (omega arith) (λ e. cc)
      transition_run

apply-IsBooked_example : IsBooked short_spec
apply-IsBooked_example =
    apply-IsBooked toy (some long_position) sold long-IsBooked
      (record { quantity_fits = omega arith; price_fits = omega arith }) apply_run

rebuilt_run : new_position_snapshot (toy.positions) long_spec ≡ ok long_position
unfolding new_position_snapshot lacks_evidence mixes_currencies has_negative_amount state_of
    bad_shape text_eq trim_space magnitude
rebuilt_run = refl

new_position_snapshot-IsChecked_example : IsChecked long_spec long_position
new_position_snapshot-IsChecked_example =
    new_position_snapshot-IsChecked (toy.positions) long_spec rebuilt_run
