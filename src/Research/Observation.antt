-- ===== src/Research/Observation.antt =====
-- internal/research/model/model.go: instruments and observations of a dataset. A time is a number, 0
-- for the zero time; an identifier is the number that its bytes write, which its hexadecimal text
-- orders as numbers do.
use tradeedge.Prelude.{
  ltb, leb, ◌==◌, if◌then◌else◌, ℤ, pos, ltb_ℤ, Result, ok, reject_if, ◌>>◌, Text, text_eq, ℕ, ◌≡◌,
  Bool, true, false, not, ◌||◌, Option, none, some, arith,
}
use tradeedge.Research.{ResearchError, invalid_instrument, invalid_observation}
use tradeedge.Domain.Instrument.{Instrument}
use tradeedge.Domain.{Price, is_zero_price}

pub record ResearchInstrument : Type 0 where
  pub instrument : Instrument
  pub available_from : ℕ

-- `ResearchInstrument.AvailableAt`
unfoldable pub is_available_at : ResearchInstrument → ℕ → Bool
is_available_at i at = leb i.available_from at

pub record ObservationSpec : Type 0 where
  pub instrument_id : ℕ
  pub exchange_time : ℕ
  pub price : Price
  pub bid : Option Price
  pub ask : Option Price
  pub volume : ℤ
  pub open_interest : Option ℤ

pub record Observation : Type 0 where
  pub id : ℕ
  pub instrument_id : ℕ
  pub exchange_time : ℕ
  pub price : Price
  pub bid : Option Price
  pub ask : Option Price
  pub volume : ℤ
  pub open_interest : Option ℤ

-- `NewResearchInstrument`; an instrument is zero when its identifier is.
unfoldable pub new_research_instrument : Instrument → ℕ → Result ResearchError ResearchInstrument
new_research_instrument instrument available_from = do
  reject_if ((instrument.id == 0) || (available_from == 0)) invalid_instrument
  ok (record { instrument = instrument; available_from = available_from })

abbrev is_negative_option : Option ℤ → Bool
is_negative_option none = false
is_negative_option (some n) = ltb_ℤ n (pos 0)

-- One round of the loop over the two sides of the book.
abbrev is_bad_side : Text → Option Price → Bool
is_bad_side currency none = false
is_bad_side currency (some p) =
    is_zero_price p || ltb_ℤ p.minor (pos 0) || not (text_eq p.currency currency)

abbrev is_crossed : Option Price → Option Price → Bool
is_crossed (some bid) (some ask) = ltb_ℤ ask.minor bid.minor
is_crossed _ _ = false

-- `NewObservation`: the identifier is a digest of the specification.
unfoldable pub new_observation :
    (ObservationSpec → ℕ) → ObservationSpec → Result ResearchError Observation
new_observation digest s = do
  reject_if
      ((s.instrument_id == 0)
        || (s.exchange_time == 0)
        || is_zero_price s.price
        || ltb_ℤ s.price.minor (pos 0)
        || ltb_ℤ s.volume (pos 0)
        || is_negative_option s.open_interest)
      invalid_observation
  reject_if (is_bad_side s.price.currency s.bid || is_bad_side s.price.currency s.ask)
      invalid_observation
  reject_if (is_crossed s.bid s.ask) invalid_observation
  ok (record {
    id = digest s;
    instrument_id = s.instrument_id;
    exchange_time = s.exchange_time;
    price = s.price;
    bid = s.bid;
    ask = s.ask;
    volume = s.volume;
    open_interest = s.open_interest;
  })

-- `ObservationLess`
unfoldable pub observation_less : Observation → Observation → Bool
observation_less a b =
    if not (a.exchange_time == b.exchange_time)
    then ltb a.exchange_time b.exchange_time
    else ltb a.id b.id

pub observation_less_trans :
    (a b c : Observation)
    → observation_less a b ≡ true
    → observation_less b c ≡ true
    → observation_less a c ≡ true
unfolding observation_less
observation_less_trans a b c h k = ground arith
