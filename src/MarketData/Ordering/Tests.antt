-- ===== src/MarketData/Ordering/Tests.antt =====
-- Two quotes that come in the wrong order through a buffer with a tolerance of 5.
use mathlib.Core.List.{Perm}
use tradeedge.Prelude.{
  if◌then◌else◌, pos, All, IsSortedBy, ascii, ℕ, ◌≤◌, ◌≡◌, refl, false, none, some, List, [], ◌∷◌,
  ◌++◌, arith,
}
use tradeedge.MarketData.Event.{Event, quote, exchange_time, key_less, event_less}
use tradeedge.MarketData.Ordering.{
  push_accepted, Orderer, PushResult, pushed, emitted, is_accepted, new_orderer, heap_push, is_seen,
  ready_through, left_after, forget_all, flush_through, raise_watermark, advance_time, admit, push,
  far_future, flush,
}
use tradeedge.MarketData.Ordering.Stream.{Fed, start, feed, flush-IsSorted}

abbrev quote_at : ℕ → ℕ → Event
quote_at id time = quote (record {
  id = id;
  spec = record {
    instrument_id = 1;
    last_price = record { minor = pos 100; currency = ascii "INR" };
    best_bid = none;
    best_ask = none;
    volume = pos 0;
    open_interest = none;
    exchange_time = time;
    ingested_at = time;
    provenance = record {
      provider = ascii "P";
      provider_token = ascii "T";
      master_version = ascii "M";
      source_sequence = 0;
      has_sequence = false;
      dataset_revision = [];
    };
  };
})

abbrev empty_buffer : Orderer
empty_buffer = record {
  allowed_lateness = 5;
  capacity = 2;
  max_time = 0;
  watermark = 0;
  buffer = [];
  seen = [];
}

abbrev first_push : Orderer × PushResult
first_push = push (quote_at 7 20) empty_buffer

abbrev second_push : Orderer × PushResult
second_push = push (quote_at 8 16) first_push.0

second_run : second_push ≡ (
  record {
    allowed_lateness = 5;
    capacity = 2;
    max_time = 20;
    watermark = 15;
    buffer = quote_at 8 16 ∷ quote_at 7 20 ∷ [];
    seen = 8 ∷ 7 ∷ [];
  },
  pushed [] push_accepted,
)
unfolding push advance_time admit flush_through raise_watermark heap_push event_less key_less
    ready_through left_after forget_all is_seen
second_run = refl

abbrev accepted_events : List Event
accepted_events =
    if is_accepted second_push.1
    then quote_at 8 16 ∷ (if is_accepted first_push.1 then quote_at 7 20 ∷ [] else [])
    else (if is_accepted first_push.1 then quote_at 7 20 ∷ [] else [])

abbrev emitted_events : List Event
emitted_events = ([] ++ emitted first_push.1) ++ emitted second_push.1

run_of_two : Fed empty_buffer accepted_events emitted_events second_push.0
run_of_two = feed (feed start (quote_at 7 20) (omega arith)) (quote_at 8 16) (omega arith)

made : new_orderer (pos 5) (pos 2) ≡ some empty_buffer
unfolding new_orderer
made = refl

early : All (λ e. exchange_time e ≤ far_future) second_push.0.buffer
early = rw second_run (omega arith)

flush-IsSorted_example :
    IsSortedBy exchange_time (emitted_events ++ (flush second_push.0).1)
    × Perm (emitted_events ++ (flush second_push.0).1) accepted_events
    × ((flush second_push.0).0.buffer ≡ [])
flush-IsSorted_example = flush-IsSorted (pos 5) (pos 2) made run_of_two early
