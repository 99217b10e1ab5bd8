-- ===== src/MarketData/Event.antt =====
-- internal/marketdata/model/event.go, quote.go and candle.go: events, their constructors and their
-- order. An event's identifier is the number that its 32 bytes write; the payload that it hashes is
-- a function of the specification, so the digest of a specification is a parameter. A time is in
-- nanoseconds since the zero time.
use tradeedge.Prelude.{
  ltb, ◌==◌, if◌then◌else◌, ℤ, pos, ltb_ℤ, Result, err, ok, reject_if, ◌>>◌, Text, is_empty,
  text_eq, ℕ, ◌-◌, Bool, true, false, not, ◌&&◌, ◌||◌, Option, none, some,
}
use tradeedge.Domain.{Price, is_zero_price}

pub data EventError : Type 0 where
  invalid_event event_currency_mismatch : EventError

pub data EventKind : Type 0 where
  quote_kind candle_kind : EventKind

pub record Provenance : Type 0 where
  pub provider : Text
  pub provider_token : Text
  pub master_version : Text
  pub source_sequence : ℕ
  pub has_sequence : Bool
  pub dataset_revision : Text

-- `Provenance.Validate`
unfoldable pub is_invalid_provenance : Provenance → Bool
is_invalid_provenance p =
    is_empty p.provider || is_empty p.provider_token || is_empty p.master_version

pub record BookLevel : Type 0 where
  pub price : Price
  pub quantity : ℤ

pub record QuoteSpec : Type 0 where
  pub instrument_id : ℕ
  pub last_price : Price
  pub best_bid : Option BookLevel
  pub best_ask : Option BookLevel
  pub volume : ℤ
  pub open_interest : Option ℤ
  pub exchange_time : ℕ
  pub ingested_at : ℕ
  pub provenance : Provenance

pub record QuoteEvent : Type 0 where
  pub id : ℕ
  pub spec : QuoteSpec

-- `validateLevel`
unfoldable pub is_invalid_level : Option BookLevel → Text → Bool
is_invalid_level none currency = false
is_invalid_level (some level) currency =
    is_zero_price level.price
    || not (text_eq level.price.currency currency)
    || ltb_ℤ level.quantity (pos 0)

abbrev pub is_negative_interest : Option ℤ → Bool
is_negative_interest none = false
is_negative_interest (some n) = ltb_ℤ n (pos 0)

-- The first guard of `NewQuoteEvent`.
unfoldable pub lacks_quote_evidence : QuoteSpec → Bool
lacks_quote_evidence s =
    (s.instrument_id == 0)
    || is_zero_price s.last_price
    || (s.exchange_time == 0)
    || (s.ingested_at == 0)
    || ltb_ℤ s.volume (pos 0)
    || is_invalid_provenance s.provenance

-- `NewQuoteEvent`
unfoldable pub new_quote_event : (QuoteSpec → ℕ) → QuoteSpec → Result EventError QuoteEvent
new_quote_event digest s = do
  reject_if (lacks_quote_evidence s) invalid_event
  reject_if (is_negative_interest s.open_interest) invalid_event
  reject_if (is_invalid_level s.best_bid s.last_price.currency) invalid_event
  reject_if (is_invalid_level s.best_ask s.last_price.currency) invalid_event
  ok (record { id = digest s; spec = s })

pub data CandleInterval : Type 0 where
  one_minute five_minutes fifteen_minutes one_day other_interval : CandleInterval

-- `CandleInterval.Duration`, in nanoseconds.
unfoldable pub interval_duration : CandleInterval → Option ℕ
interval_duration one_minute = some 60000000000
interval_duration five_minutes = some 300000000000
interval_duration fifteen_minutes = some 900000000000
interval_duration one_day = some 0
interval_duration other_interval = none

abbrev pub is_day : CandleInterval → Bool
is_day one_day = true
is_day _ = false

pub record CandleSpec : Type 0 where
  pub instrument_id : ℕ
  pub interval : CandleInterval
  pub open_time : ℕ
  pub close_time : ℕ
  pub open_price : Price
  pub high_price : Price
  pub low_price : Price
  pub close_price : Price
  pub volume : ℤ
  pub event_count : ℤ
  pub open_interest : Option ℤ
  pub ingested_at : ℕ
  pub provenance : Provenance

pub record CompletedCandleEvent : Type 0 where
  pub id : ℕ
  pub spec : CandleSpec

-- The first guard of `NewCompletedCandleEvent`, of a known interval.
unfoldable pub lacks_candle_evidence : CandleSpec → Bool
lacks_candle_evidence s =
    (s.instrument_id == 0)
    || not (ltb s.open_time s.close_time)
    || (s.ingested_at == 0)
    || ltb_ℤ s.volume (pos 0)
    || ltb_ℤ s.event_count (pos 0)
    || is_invalid_provenance s.provenance

abbrev differs : Price → Text → Bool
differs p currency = is_zero_price p || not (text_eq p.currency currency)

-- The loop over the four prices.
unfoldable pub mixes_prices : CandleSpec → Bool
mixes_prices s =
    let currency = s.open_price.currency in
    differs s.open_price currency
    || differs s.high_price currency
    || differs s.low_price currency
    || differs s.close_price currency

unfoldable pub bad_range : ℤ → ℤ → ℤ → ℤ → Bool
bad_range open_ high low close_ =
    ltb_ℤ high open_
    || ltb_ℤ high close_
    || ltb_ℤ high low
    || ltb_ℤ open_ low
    || ltb_ℤ close_ low
    || ltb_ℤ high low

-- `NewCompletedCandleEvent`, of an interval with the duration given.
unfoldable pub new_candle_of :
    (CandleSpec → ℕ) → CandleSpec → ℕ → Result EventError CompletedCandleEvent
new_candle_of digest s duration = do
  reject_if (lacks_candle_evidence s) invalid_event
  reject_if (not (is_day s.interval) && not ((s.close_time - s.open_time) == duration))
      invalid_event
  reject_if (is_negative_interest s.open_interest) invalid_event
  reject_if (mixes_prices s) event_currency_mismatch
  reject_if (bad_range s.open_price.minor s.high_price.minor s.low_price.minor s.close_price.minor)
      invalid_event
  ok (record { id = digest s; spec = s })

unfoldable pub new_completed_candle_event :
    (CandleSpec → ℕ) → CandleSpec → Result EventError CompletedCandleEvent
new_completed_candle_event digest s = elim (interval_duration s.interval) [
  | none ↦ err invalid_event
  | some duration ↦ new_candle_of digest s duration
]

-- The interface `Event` and its two implementations.
pub data Event : Type 0 where
  quote : QuoteEvent → Event
  candle : CompletedCandleEvent → Event

abbrev pub event_id : Event → ℕ
event_id (quote q) = q.id
event_id (candle c) = c.id

abbrev pub event_kind : Event → EventKind
event_kind (quote q) = quote_kind
event_kind (candle c) = candle_kind

abbrev pub event_instrument : Event → ℕ
event_instrument (quote q) = q.spec.instrument_id
event_instrument (candle c) = c.spec.instrument_id

-- `ExchangeTime`: of a candle, the time at which it closes.
abbrev pub exchange_time : Event → ℕ
exchange_time (quote q) = q.spec.exchange_time
exchange_time (candle c) = c.spec.close_time

abbrev pub event_ingested_at : Event → ℕ
event_ingested_at (quote q) = q.spec.ingested_at
event_ingested_at (candle c) = c.spec.ingested_at

abbrev pub event_provenance : Event → Provenance
event_provenance (quote q) = q.spec.provenance
event_provenance (candle c) = c.spec.provenance

-- `EventLess`, by what it reads of each event: the time, whether there is a sequence and which, and
-- the identifier.
unfoldable pub key_less : ℕ → Bool → ℕ → ℕ → ℕ → Bool → ℕ → ℕ → Bool
key_less t has_s s i u has_r r j =
    if not (t == u) then ltb t u else if has_s && has_r && not (s == r) then ltb s r else ltb i j

unfoldable pub event_less : Event → Event → Bool
unfolding key_less
event_less left right =
    let lp = event_provenance left in
    let rp = event_provenance right in
    key_less (exchange_time left) lp.has_sequence lp.source_sequence (event_id left)
      (exchange_time right) rp.has_sequence rp.source_sequence (event_id right)
