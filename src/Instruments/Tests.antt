-- ===== src/Instruments/Tests.antt =====
-- A master of one instrument, mapped by one token from 10 to 20.
use tradeedge.Prelude.{pos, ok, ascii, text_eq, trim_space, ℕ, ◌≡◌, refl, List, [], ◌∷◌}
use tradeedge.Domain.Instrument.{
  Exchange, Segment, InstrumentType, OptionType, no_date, Instrument, no_price,
  ProviderInstrumentRef, is_invalid_ref, is_valid_at,
}
use tradeedge.Instruments.{
  Master, find_instrument, add_instruments, check_mappings, conflicts_with, any_conflict, stamp,
  new_master, resolve, resolve_instrument_from, resolve_instrument,
}
use tradeedge.Instruments.Lookup.{first_match}
use tradeedge.Instruments.Made.{resolve_exact, resolve_instrument-resolve}

abbrev one_instrument : Instrument
one_instrument = record {
  id = 3;
  exchange = Exchange.nse;
  segment = Segment.cash_segment;
  underlying_id = ascii "X";
  kind = InstrumentType.equity_type;
  exchange_symbol = ascii "X";
  expiry = no_date;
  strike = no_price;
  option_kind = OptionType.no_option;
  lot_size = pos 1;
  tick_size = record { minor = pos 5; currency = ascii "INR" };
  currency = ascii "INR";
}

abbrev mapped_until : ℕ → ProviderInstrumentRef
mapped_until version = record {
  provider = ascii "Z";
  token = ascii "77";
  trading_symbol = ascii "X";
  instrument_id = 3;
  valid_from = 10;
  valid_until = 20;
  master_version = version;
}

abbrev digest_of : ℕ → List Instrument → List ProviderInstrumentRef → ℕ
digest_of as_of is ms = 9

abbrev small_master : Master
small_master = record {
  version = 9;
  as_of = 5;
  instruments = one_instrument ∷ [];
  mappings = mapped_until 9 ∷ [];
}

made : new_master digest_of 5 (one_instrument ∷ []) (mapped_until 0 ∷ []) ≡ ok small_master
unfolding new_master add_instruments find_instrument check_mappings is_invalid_ref any_conflict
    conflicts_with stamp trim_space
made = refl

resolve_exact_example : resolve (ascii "Z") (ascii " 77") 15 small_master ≡ ok 3
unfolding first_match is_valid_at text_eq trim_space
resolve_exact_example =
    resolve_exact digest_of 5 (one_instrument ∷ []) (mapped_until 0 ∷ []) (ascii "Z") (ascii " 77")
      15 made

found : resolve_instrument (ascii "Z") 3 15 small_master ≡ ok (mapped_until 9)
unfolding resolve_instrument resolve_instrument_from is_valid_at text_eq
found = refl

resolve_instrument-resolve_example : resolve (ascii "Z") (ascii "77") 15 small_master ≡ ok 3
unfolding trim_space
resolve_instrument-resolve_example =
    resolve_instrument-resolve digest_of 5 (one_instrument ∷ []) (mapped_until 0 ∷ []) (ascii "Z") 3
      15 made found refl
