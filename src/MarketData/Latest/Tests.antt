-- ===== src/MarketData/Latest/Tests.antt =====
-- A store of one instrument, and three of its quotes, the last of them late.
use tradeedge.Prelude.{
  pos, find_at, ok, ascii, text_eq, ℕ, ◌≡◌, refl, true, false, none, List, [], ◌∷◌, map,
}
use tradeedge.MarketData.Latest.Tracks.{IsLatest}
use tradeedge.MarketData.Latest.Runs.{new_store-IsLatest}
use tradeedge.MarketData.Latest.{
  Requirement, Store, is_unsuitable, allow, new_store, observe, store_value, accepted, accept_all,
  insert_value, snapshot,
}
use tradeedge.MarketData.Event.{EventKind, Event, quote}
use tradeedge.Domain.Instrument.{
  Exchange, Segment, InstrumentType, OptionType, no_date, Instrument, no_price,
}
use tradeedge.Instruments.{find_instrument}

abbrev listed : Instrument
listed = record {
  id = 1;
  exchange = Exchange.nse;
  segment = Segment.cash_segment;
  underlying_id = ascii "X";
  kind = InstrumentType.equity_type;
  exchange_symbol = ascii "X";
  expiry = no_date;
  strike = no_price;
  option_kind = OptionType.no_option;
  lot_size = pos 1;
  tick_size = record { minor = pos 5; currency = ascii "INR" };
  currency = ascii "INR";
}

abbrev required_quote : Requirement
required_quote = record {
  provider = ascii "P";
  instrument_id = 1;
  exchange = Exchange.nse;
  segment = Segment.cash_segment;
  event_kind = EventKind.quote_kind;
  required = true;
}

abbrev priced_at : ℕ → ℕ → Event
priced_at price time = quote (record {
  id = time;
  spec = record {
    instrument_id = 1;
    last_price = record { minor = pos price; currency = ascii "INR" };
    best_bid = none;
    best_ask = none;
    volume = pos 0;
    open_interest = none;
    exchange_time = time;
    ingested_at = time;
    provenance = record {
      provider = ascii "P";
      provider_token = ascii "T";
      master_version = ascii "M";
      source_sequence = 0;
      has_sequence = false;
      dataset_revision = [];
    };
  };
})

abbrev three_quotes : List Event
three_quotes = priced_at 100 20 ∷ priced_at 101 30 ∷ priced_at 99 25 ∷ []

abbrev new_one : Store
new_one = record {
  allowed = (1, record { provider = ascii "P"; instrument = listed }) ∷ [];
  values = [];
}

made : new_store (listed ∷ []) (required_quote ∷ []) ≡ ok new_one
unfolding new_store allow is_unsuitable find_instrument
made = refl

late_ignored :
    map (λ v. v.latest_price_minor) (snapshot (accept_all three_quotes new_one).values)
    ≡ pos 101 ∷ []
unfolding snapshot insert_value accept_all accepted store_value observe text_eq
late_ignored = refl

new_store-IsLatest_example :
    IsLatest new_one.allowed 1 three_quotes (find_at 1 (accept_all three_quotes new_one).values)
new_store-IsLatest_example =
    new_store-IsLatest (listed ∷ []) (required_quote ∷ []) three_quotes 1 made
