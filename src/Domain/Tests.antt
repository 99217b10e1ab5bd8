-- ===== src/Domain/Tests.antt =====
-- Runs of the money of internal/domain/primitives.go, and of a call option built by `NewInstrument` of
-- internal/domain/instrument.go.
use tradeedge.Prelude.{
  ℤ, pos, ◌+ℤ◌, max_int64, err, ok, ascii, text_eq, trim_left, trim_right, trim_space, ◌≡◌, refl,
  some, arith,
}
use tradeedge.Domain.Traded.{IsOf, IsTradable, new_instrument-IsTradable}
use tradeedge.Domain.Instrument.{
  Exchange, Segment, InstrumentType, OptionType, InstrumentSpec, Instrument, lacks_trading_terms,
  is_observation_only, bad_sizes, terms_of, new_instrument, option_terms,
}
use tradeedge.Domain.Arithmetic.{add_exact}
use tradeedge.Domain.{money_overflow, Price, Money, add}

abbrev rupees : ℤ → Money
rupees n = record { minor = n; currency = ascii "INR" }

-- One paisa over the largest amount.
add_exact_example : add (rupees max_int64) (rupees (pos 1)) ≡ err money_overflow
unfolding ◌+ℤ◌
add_exact_example =
    add_exact (rupees max_int64) (rupees (pos 1)) (omega arith) (omega arith) refl refl

abbrev strike_price : Price
strike_price = record { minor = pos 2500000; currency = ascii "INR" }

abbrev call_spec : InstrumentSpec
call_spec = record {
  exchange = Exchange.nse;
  segment = Segment.options_segment;
  underlying_id = ascii "X";
  kind = InstrumentType.option_type;
  exchange_symbol = ascii " x25000ce";
  derivative = some (record {
    expiry = record { year = pos 2026; month = pos 7; day = pos 30 };
    strike = strike_price;
    option_kind = OptionType.call_option;
  });
  lot_size = pos 75;
  tick_size = record { minor = pos 5; currency = ascii "INR" };
  currency = ascii "INR";
}

abbrev call : Instrument
call = record {
  id = 3;
  exchange = Exchange.nse;
  segment = Segment.options_segment;
  underlying_id = ascii "X";
  kind = InstrumentType.option_type;
  exchange_symbol = ascii "X25000CE";
  expiry = record { year = pos 2026; month = pos 7; day = pos 30 };
  strike = strike_price;
  option_kind = OptionType.call_option;
  lot_size = pos 75;
  tick_size = record { minor = pos 5; currency = ascii "INR" };
  currency = ascii "INR";
}

call_made : new_instrument (λ s. 3) call_spec ≡ ok call
unfolding new_instrument lacks_trading_terms bad_sizes is_observation_only terms_of option_terms
    trim_space trim_left trim_right text_eq
call_made = refl

new_instrument-IsTradable_example : IsOf call_spec call × IsTradable call
new_instrument-IsTradable_example = new_instrument-IsTradable (λ s. 3) call_spec call_made
