-- ===== src/Domain/Instrument.antt =====
-- internal/domain/instrument.go: instruments, their constructor, and a provider's reference to one. An
-- identifier is the number that its 32 bytes write; the canonical key that it hashes is a function of
-- the specification, so the digest of a specification is a parameter. Of a month, the number.
use tradeedge.Prelude.{
  ltb, leb, ◌==◌, if◌then◌else◌, ℤ, pos, leb_ℤ, eqb_ℤ, Result, err, ok, reject_if, ◌>>=◌, ◌>>◌,
  Text, is_empty, text_eq, trim_space, to_upper, ℕ, Bool, true, false, not, ◌&&◌, ◌||◌, Option,
  none, some, [],
}
use tradeedge.Domain.{is_valid_quantity, Price, is_zero_price}

pub data InstrumentError : Type 0 where
  invalid_instrument : InstrumentError

-- `other` is any string that is none of the constants.
pub data Exchange : Type 0 where
  nse other_exchange : Exchange

pub data Segment : Type 0 where
  cash_segment index_segment futures_segment options_segment other_segment : Segment

pub data InstrumentType : Type 0 where
  equity_type index_type future_type option_type other_type : InstrumentType

pub data OptionType : Type 0 where
  no_option call_option put_option other_option : OptionType

pub record CivilDate : Type 0 where
  pub year : ℤ
  pub month : ℤ
  pub day : ℤ

-- `CivilDate{}` and `CivilDate.IsZero`.
abbrev pub no_date : CivilDate
no_date = record { year = pos 0; month = pos 0; day = pos 0 }

abbrev pub is_zero_date : CivilDate → Bool
is_zero_date d = eqb_ℤ d.year (pos 0)

pub record DerivativeSpec : Type 0 where
  pub expiry : CivilDate
  pub strike : Price
  pub option_kind : OptionType

pub record InstrumentSpec : Type 0 where
  pub exchange : Exchange
  pub segment : Segment
  pub underlying_id : Text
  pub kind : InstrumentType
  pub exchange_symbol : Text
  pub derivative : Option DerivativeSpec
  pub lot_size : ℤ
  pub tick_size : Price
  pub currency : Text

pub record Instrument : Type 0 where
  pub id : ℕ
  pub exchange : Exchange
  pub segment : Segment
  pub underlying_id : Text
  pub kind : InstrumentType
  pub exchange_symbol : Text
  pub expiry : CivilDate
  pub strike : Price
  pub option_kind : OptionType
  pub lot_size : ℤ
  pub tick_size : Price
  pub currency : Text

abbrev is_nse : Exchange → Bool
is_nse nse = true
is_nse other_exchange = false

abbrev pub is_index_type : InstrumentType → Bool
is_index_type index_type = true
is_index_type _ = false

abbrev is_no_option : OptionType → Bool
is_no_option no_option = true
is_no_option _ = false

-- `NewUnderlyingID`
unfoldable pub new_underlying_id : Text → Option Text
new_underlying_id given =
    let value = to_upper (trim_space given) in if is_empty value then none else some value

-- The first two guards of `NewInstrument`, of a specification whose symbol is in its final form.
unfoldable pub lacks_trading_terms : InstrumentSpec → Bool
lacks_trading_terms s =
    not (is_nse s.exchange)
    || is_empty s.underlying_id
    || is_empty s.exchange_symbol
    || is_zero_price s.tick_size
    || is_empty s.currency
    || not (text_eq s.tick_size.currency s.currency)

unfoldable pub is_observation_only : InstrumentSpec → Bool
is_observation_only s =
    is_index_type s.kind && eqb_ℤ s.lot_size (pos 0) && eqb_ℤ s.tick_size.minor (pos 0)

unfoldable pub bad_sizes : InstrumentSpec → Bool
unfolding is_observation_only
bad_sizes s =
    not (is_observation_only s)
    && (not (is_valid_quantity s.lot_size) || leb_ℤ s.tick_size.minor (pos 0))

-- What the switch over the types yields.
pub record Terms : Type 0 where
  pub expiry : CivilDate
  pub strike : Price
  pub option_kind : OptionType

-- `Price{}`
abbrev pub no_price : Price
no_price = record { minor = pos 0; currency = [] }

abbrev pub no_terms : Terms
no_terms = record { expiry = no_date; strike = no_price; option_kind = no_option }

unfoldable pub future_terms : DerivativeSpec → Result InstrumentError Terms
future_terms d =
    if is_zero_date d.expiry || not (is_no_option d.option_kind) || not (is_zero_price d.strike)
    then err invalid_instrument
    else ok (record no_terms { expiry = d.expiry })

abbrev is_call_or_put : OptionType → Bool
is_call_or_put call_option = true
is_call_or_put put_option = true
is_call_or_put _ = false

unfoldable pub option_terms : Text → DerivativeSpec → Result InstrumentError Terms
option_terms currency d =
    if is_zero_date d.expiry
      || is_zero_price d.strike
      || not (text_eq d.strike.currency currency)
      || leb_ℤ d.strike.minor (pos 0)
      || not (is_call_or_put d.option_kind)
    then err invalid_instrument
    else ok (record { expiry = d.expiry; strike = d.strike; option_kind = d.option_kind })

-- The switch over the types, each with the segment that it wants.
unfoldable pub terms_of :
    InstrumentType → Segment → Text → Option DerivativeSpec → Result InstrumentError Terms
unfolding future_terms option_terms
terms_of equity_type cash_segment currency none = ok no_terms
terms_of index_type index_segment currency none = ok no_terms
terms_of future_type futures_segment currency (some d) = future_terms d
terms_of option_type options_segment currency (some d) = option_terms currency d
terms_of _ _ _ _ = err invalid_instrument

-- `NewInstrument`
unfoldable pub new_instrument :
    (InstrumentSpec → ℕ) → InstrumentSpec → Result InstrumentError Instrument
new_instrument digest given =
    let s : InstrumentSpec = record given {
      exchange_symbol = to_upper (trim_space (given.exchange_symbol));
    } in
    do
      reject_if (lacks_trading_terms s) invalid_instrument
      reject_if (bad_sizes s) invalid_instrument
      terms ← terms_of s.kind s.segment s.currency s.derivative
      ok (record {
        id = digest s;
        exchange = s.exchange;
        segment = s.segment;
        underlying_id = s.underlying_id;
        kind = s.kind;
        exchange_symbol = s.exchange_symbol;
        expiry = terms.expiry;
        strike = terms.strike;
        option_kind = terms.option_kind;
        lot_size = s.lot_size;
        tick_size = s.tick_size;
        currency = s.currency;
      })

pub record ProviderInstrumentRef : Type 0 where
  pub provider : Text
  pub token : Text
  pub trading_symbol : Text
  pub instrument_id : ℕ
  pub valid_from : ℕ
  pub valid_until : ℕ
  pub master_version : ℕ

-- `ProviderInstrumentRef.Validate`
unfoldable pub is_invalid_ref : ProviderInstrumentRef → Bool
is_invalid_ref r =
    is_empty (trim_space r.provider)
    || is_empty (trim_space r.token)
    || (r.instrument_id == 0)
    || (r.valid_from == 0)
    || not (ltb r.valid_from r.valid_until)
    || is_empty (trim_space r.trading_symbol)

-- `ProviderInstrumentRef.ValidAt`
unfoldable pub is_valid_at : ProviderInstrumentRef → ℕ → Bool
is_valid_at r at = leb r.valid_from at && ltb at r.valid_until
