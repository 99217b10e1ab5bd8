-- ===== src/MarketData/Latest.antt =====
-- internal/marketdata/latest/store.go: the latest quote of every instrument of a watchlist. The lock is
-- held over each write. Two exchanges, or two segments, that are no constant are taken as the same.
pub mod Tracks
pub mod Runs
mod Tests
use tradeedge.Prelude.{
  ltb, leb, ◌==◌, if◌then◌else◌, ℤ, length, find_at, put_at, Result, err, ok, reject_if, ◌>>=◌,
  ◌>>◌, Text, text_eq, ℕ, Bool, true, false, not, ◌||◌, Option, none, some, List, [], ◌∷◌,
}
use tradeedge.MarketData.Event.{EventKind, quote_kind, candle_kind, Event, quote, candle}
use tradeedge.Domain.Instrument.{
  Exchange, nse, other_exchange, Segment, cash_segment, index_segment, futures_segment,
  options_segment, other_segment, Instrument,
}
use tradeedge.Instruments.{find_instrument}

pub data LatestError : Type 0 where
  invalid_configuration : LatestError

-- `Requirement` of internal/marketdata/readiness/types.go, without its interval.
pub record Requirement : Type 0 where
  pub provider : Text
  pub instrument_id : ℕ
  pub exchange : Exchange
  pub segment : Segment
  pub event_kind : EventKind
  pub required : Bool

pub record LatestObservation : Type 0 where
  pub provider : Text
  pub provider_token : Text
  pub instrument_id : ℕ
  pub symbol : Text
  pub exchange : Exchange
  pub segment : Segment
  pub kind : EventKind
  pub latest_price_minor : ℤ
  pub currency : Text
  pub exchange_timestamp : ℕ
  pub ingested_timestamp : ℕ

pub record Descriptor : Type 0 where
  pub provider : Text
  pub instrument : Instrument

pub record Store : Type 0 where
  pub allowed : List (ℕ × Descriptor)
  pub values : List (ℕ × LatestObservation)

abbrev same_exchange : Exchange → Exchange → Bool
same_exchange nse nse = true
same_exchange other_exchange other_exchange = true
same_exchange _ _ = false

abbrev segment_number : Segment → ℕ
segment_number cash_segment = 0
segment_number index_segment = 1
segment_number futures_segment = 2
segment_number options_segment = 3
segment_number other_segment = 4

abbrev is_quote_kind : EventKind → Bool
is_quote_kind quote_kind = true
is_quote_kind candle_kind = false

-- The guard of `New` on one requirement and the instrument that the master has for it.
unfoldable pub is_unsuitable : Requirement → Instrument → Bool
is_unsuitable r i =
    not (is_quote_kind r.event_kind)
    || not r.required
    || not (same_exchange i.exchange r.exchange)
    || not (segment_number i.segment == segment_number r.segment)

abbrev is_listed : ℕ → List (ℕ × Descriptor) → Bool
is_listed id allowed = elim (find_at id allowed) [ none ↦ false | some d ↦ true ]

-- The loop of `New`, with the descriptors so far.
unfoldable pub allow :
    List Instrument
    → List (ℕ × Descriptor)
    → List Requirement
    → Result LatestError (List (ℕ × Descriptor))
allow instruments allowed [] = ok allowed
allow instruments allowed (r ∷ rs) = elim (find_instrument r.instrument_id instruments) [
  | none ↦ err invalid_configuration
  | some i ↦ do
    reject_if (is_unsuitable r i || is_listed r.instrument_id allowed) invalid_configuration
    allow instruments
        (put_at r.instrument_id (record { provider = r.provider; instrument = i }) allowed) rs
]

-- `New`, on the instruments of a master.
unfoldable pub new_store : List Instrument → List Requirement → Result LatestError Store
new_store instruments requirements = do
  reject_if ((length requirements == 0) || ltb 250 (length requirements)) invalid_configuration
  allowed ← allow instruments [] requirements
  ok (record { allowed = allowed; values = [] })

-- The value that `Accepted` makes of an event, if it is a quote of a listed instrument by its provider.
unfoldable pub observe : List (ℕ × Descriptor) → Event → Option LatestObservation
observe allowed (candle c) = none
observe allowed (quote q) = elim (find_at q.spec.instrument_id allowed) [
  | none ↦ none
  | some d ↦
      if not (text_eq q.spec.provenance.provider d.provider)
      then none
      else some (record {
        provider = q.spec.provenance.provider;
        provider_token = q.spec.provenance.provider_token;
        instrument_id = q.spec.instrument_id;
        symbol = d.instrument.exchange_symbol;
        exchange = d.instrument.exchange;
        segment = d.instrument.segment;
        kind = quote_kind;
        latest_price_minor = q.spec.last_price.minor;
        currency = q.spec.last_price.currency;
        exchange_timestamp = q.spec.exchange_time;
        ingested_timestamp = q.spec.ingested_at;
      })
]

-- `!found || !value.ExchangeTimestamp.Before(current.ExchangeTimestamp)`
abbrev pub replaces : LatestObservation → Option LatestObservation → Bool
replaces v none = true
replaces v (some current) = not (ltb v.exchange_timestamp current.exchange_timestamp)

-- The write of `Accepted`.
unfoldable pub store_value : LatestObservation → Store → Store
store_value v s =
    if replaces v (find_at v.instrument_id s.values)
    then record s { values = put_at v.instrument_id v s.values }
    else s

-- `Accepted`
unfoldable pub accepted : Event → Store → Store
accepted e s = elim (observe s.allowed e) [ none ↦ s | some v ↦ store_value v s ]

-- The events that reach `Accepted`, one after the other.
unfoldable pub accept_all : List Event → Store → Store
accept_all [] s = s
accept_all (e ∷ es) s = accept_all es (accepted e s)

-- `Snapshot`: the values, sorted by instrument.
unfoldable pub insert_value : LatestObservation → List LatestObservation → List LatestObservation
insert_value v [] = v ∷ []
insert_value v (w ∷ ws) =
    let rest = insert_value v ws in
    if leb v.instrument_id w.instrument_id then v ∷ w ∷ ws else w ∷ rest

unfoldable pub snapshot : List (ℕ × LatestObservation) → List LatestObservation
snapshot [] = []
snapshot ((id, v) ∷ m) = insert_value v (snapshot m)
