-- ===== src/MarketData/Tests.antt =====
-- The order of three quotes of one time.
use tradeedge.Prelude.{pos, ascii, ℕ, ◌≡◌, refl, Bool, true, false, none, [], arith}
use tradeedge.MarketData.Event.{Event, quote, key_less, event_less}
use tradeedge.MarketData.Order.{event_less_trans, event_less_cycle}

abbrev sequenced : ℕ → Bool → ℕ → Event
sequenced id has_sequence sequence = quote (record {
  id = id;
  spec = record {
    instrument_id = 1;
    last_price = record { minor = pos 100; currency = ascii "INR" };
    best_bid = none;
    best_ask = none;
    volume = pos 0;
    open_interest = none;
    exchange_time = 50;
    ingested_at = 51;
    provenance = record {
      provider = ascii "P";
      provider_token = ascii "T";
      master_version = ascii "M";
      source_sequence = sequence;
      has_sequence = has_sequence;
      dataset_revision = [];
    };
  };
})

event_less_cycle_example :
    (event_less (sequenced 1 true 9) (sequenced 2 false 0) ≡ true)
    × (event_less (sequenced 2 false 0) (sequenced 3 true 4) ≡ true)
    × (event_less (sequenced 3 true 4) (sequenced 1 true 9) ≡ true)
event_less_cycle_example =
    event_less_cycle (sequenced 1 true 9) (sequenced 2 false 0) (sequenced 3 true 4) refl refl refl
      refl refl (omega arith) (omega arith) (omega arith)

event_less_trans_example : event_less (sequenced 1 true 3) (sequenced 2 true 9) ≡ true
unfolding event_less key_less
event_less_trans_example =
    event_less_trans (sequenced 1 true 3) (sequenced 5 true 4) (sequenced 2 true 9) refl refl refl
      refl
