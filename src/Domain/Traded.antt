-- ===== src/Domain/Traded.antt =====
-- What `NewInstrument` of internal/domain/instrument.go guarantees.
use tradeedge.Prelude.{
  subst, refl, Bool-cases, pos, ◌<ℤ◌, leb_ℤ, eq_of_parts, ok, reject_if-eq-ok, >>=-eq-ok, Text,
  text_eq→eq, trim_space, to_upper, ℕ, ◌≡◌, ◌⊎◌, ◌↔◌, inl, inr, true, false, not, ◌||◌, Option,
  none, some, arith,
}
use tradeedge.Domain.{is_valid_quantity}
use tradeedge.Domain.Instrument.{
  invalid_instrument, Segment, cash_segment, index_segment, futures_segment, options_segment,
  other_segment, future_type, option_type, InstrumentType, equity_type, index_type, other_type,
  call_option, put_option, is_zero_date, DerivativeSpec, InstrumentSpec, Instrument, is_index_type,
  lacks_trading_terms, is_observation_only, bad_sizes, Terms, future_terms, option_terms, terms_of,
  new_instrument,
}

sized_lem :
    (s : InstrumentSpec)
    → bad_sizes s ≡ false
    → ((is_index_type s.kind ≡ true) × (s.lot_size ≡ pos 0) × (s.tick_size.minor ≡ pos 0))
      ⊎ ((pos 0 <ℤ s.lot_size) × (pos 0 <ℤ s.tick_size.minor))
unfolding bad_sizes
sized_lem s h = elim (Bool-cases (is_observation_only s)) [
  | inl only ↦ inl (observed s only)
  | inr traded ↦ inr (traded_lem s (rw traded at h))
]
  where
    observed :
        (s : InstrumentSpec)
        → is_observation_only s ≡ true
        → (is_index_type s.kind ≡ true) × (s.lot_size ≡ pos 0) × (s.tick_size.minor ≡ pos 0)
    observed s h =
        ground (arith, eq_of_parts s.lot_size (pos 0), eq_of_parts s.tick_size.minor (pos 0))

    traded_lem :
        (s : InstrumentSpec)
        → (not (is_valid_quantity s.lot_size) || leb_ℤ s.tick_size.minor (pos 0)) ≡ false
        → (pos 0 <ℤ s.lot_size) × (pos 0 <ℤ s.tick_size.minor)
    traded_lem s h = ground arith

-- The segment in which an instrument of a type is traded.
abbrev segment_of : InstrumentType → Segment
segment_of equity_type = cash_segment
segment_of index_type = index_segment
segment_of future_type = futures_segment
segment_of option_type = options_segment
segment_of other_type = other_segment

-- The terms that suit a type: a strike above zero, in the instrument's currency, and a call or a put for
-- an option and for nothing else; an expiry for a future and an option and for nothing else.
pub record AreFit (kind : InstrumentType) (segment : Segment) (currency : Text) (t : Terms)
    : Type 0 where
  pub known : ¬ (kind ≡ other_type)
  pub placed : segment ≡ segment_of kind
  pub struck : (pos 0 <ℤ t.strike.minor) ↔ (kind ≡ option_type)
  pub called : ((t.option_kind ≡ call_option) ⊎ (t.option_kind ≡ put_option)) ↔ (kind ≡ option_type)
  pub dated : (is_zero_date t.expiry ≡ false) ↔ ((kind ≡ future_type) ⊎ (kind ≡ option_type))
  pub priced : kind ≡ option_type → t.strike.currency ≡ currency

option_terms-AreFit :
    (currency : Text) (d : DerivativeSpec) {t : Terms}
    → option_terms currency d ≡ ok t
    → AreFit option_type options_segment currency t
unfolding option_terms
option_terms-AreFit currency d h = ground (arith, text_eq→eq d.strike.currency currency)

future_terms-AreFit :
    (currency : Text) (d : DerivativeSpec) {t : Terms}
    → future_terms d ≡ ok t
    → AreFit future_type futures_segment currency t
unfolding future_terms
future_terms-AreFit currency d h = ground arith

terms_of-AreFit :
    (kind : InstrumentType) (segment : Segment) (currency : Text)
    (derivative : Option DerivativeSpec) {t : Terms}
    → terms_of kind segment currency derivative ≡ ok t
    → AreFit kind segment currency t
unfolding terms_of
terms_of-AreFit equity_type cash_segment currency none h = ground arith
terms_of-AreFit index_type index_segment currency none h = ground arith
terms_of-AreFit future_type futures_segment currency (some d) h = future_terms-AreFit currency d h
terms_of-AreFit option_type options_segment currency (some d) h = option_terms-AreFit currency d h
terms_of-AreFit _ _ currency _ h = cc

tick_currency :
    (s : InstrumentSpec) → lacks_trading_terms s ≡ false → s.tick_size.currency ≡ s.currency
unfolding lacks_trading_terms
tick_currency s h = text_eq→eq _ _ (ground arith)

-- An instrument that can be traded or observed: an index to observe has no lot and no tick, any other
-- has a lot and a tick above zero.
pub record IsTradable (i : Instrument) : Type 0 where
  pub sized :
      ((is_index_type i.kind ≡ true) × (i.lot_size ≡ pos 0) × (i.tick_size.minor ≡ pos 0))
      ⊎ ((pos 0 <ℤ i.lot_size) × (pos 0 <ℤ i.tick_size.minor))
  pub terms :
      AreFit i.kind i.segment i.currency
        (record { expiry = i.expiry; strike = i.strike; option_kind = i.option_kind })
  pub same_currency : i.tick_size.currency ≡ i.currency

-- The fields of a specification that an instrument keeps, its symbol trimmed and in capitals. Of a
-- derivative it keeps the expiry, and for an option the strike and the right.
pub record IsOf (given : InstrumentSpec) (i : Instrument) : Type 0 where
  pub exchange_kept : i.exchange ≡ given.exchange
  pub segment_kept : i.segment ≡ given.segment
  pub kind_kept : i.kind ≡ given.kind
  pub underlying_kept : i.underlying_id ≡ given.underlying_id
  pub lot_kept : i.lot_size ≡ given.lot_size
  pub tick_kept : i.tick_size ≡ given.tick_size
  pub currency_kept : i.currency ≡ given.currency
  pub symbol_upper : i.exchange_symbol ≡ to_upper (trim_space given.exchange_symbol)
  pub expiry_kept : {d : DerivativeSpec} → given.derivative ≡ some d → i.expiry ≡ d.expiry
  pub option_kept :
      {d : DerivativeSpec}
      → given.derivative ≡ some d
      → i.kind ≡ option_type
      → (i.strike ≡ d.strike) × (i.option_kind ≡ d.option_kind)

expiry_lem :
    (kind : InstrumentType) (segment : Segment) (currency : Text) (d : DerivativeSpec) {t : Terms}
    → terms_of kind segment currency (some d) ≡ ok t
    → t.expiry ≡ d.expiry
unfolding terms_of future_terms option_terms
expiry_lem kind segment currency d h = ground arith

option_lem :
    (segment : Segment) (currency : Text) (d : DerivativeSpec) {t : Terms}
    → terms_of option_type segment currency (some d) ≡ ok t
    → (t.strike ≡ d.strike) × (t.option_kind ≡ d.option_kind)
unfolding terms_of option_terms
option_lem segment currency d h = ground arith

-- An instrument that `NewInstrument` returns keeps the fields of its specification, the symbol trimmed
-- and in capitals. An index to observe has no lot and no tick, any other a lot and a tick above zero.
-- An option, and nothing else, has a strike above zero and is a call or a put; an option or a future,
-- and nothing else, has an expiry. The type is a known one and is traded in its own segment; the tick
-- is in the currency of the instrument, and so is the strike of an option.
pub new_instrument-IsTradable :
    (digest : InstrumentSpec → ℕ) (given : InstrumentSpec) {i : Instrument}
    → new_instrument digest given ≡ ok i
    → IsOf given i × IsTradable i
unfolding new_instrument
new_instrument-IsTradable digest given {i} h =
    let s : InstrumentSpec = record given {
      exchange_symbol = to_upper (trim_space (given.exchange_symbol));
    } in
    let (e1, k1) = reject_if-eq-ok (lacks_trading_terms s) invalid_instrument _ h in
    let (e2, k2) = reject_if-eq-ok (bad_sizes s) invalid_instrument _ k1 in
    let (terms, e3, k3) = >>=-eq-ok (terms_of s.kind s.segment s.currency s.derivative) _ k2 in
    let made : i ≡ record {
      id = digest s;
      exchange = s.exchange;
      segment = s.segment;
      underlying_id = s.underlying_id;
      kind = s.kind;
      exchange_symbol = s.exchange_symbol;
      expiry = terms.expiry;
      strike = terms.strike;
      option_kind = terms.option_kind;
      lot_size = s.lot_size;
      tick_size = s.tick_size;
      currency = s.currency;
    } =
      cc in
    rw made (
      record {
        exchange_kept = refl;
        segment_kept = refl;
        kind_kept = refl;
        underlying_kept = refl;
        lot_kept = refl;
        tick_kept = refl;
        currency_kept = refl;
        symbol_upper = refl;
        expiry_kept = λ {d} e.
            expiry_lem s.kind s.segment s.currency d
              (subst (λ o. terms_of s.kind s.segment s.currency o ≡ ok terms) e e3);
        option_kept = λ {d} e k. option_lem s.segment s.currency d (
            subst (λ n. terms_of n s.segment s.currency (some d) ≡ ok terms) k
              (subst (λ o. terms_of s.kind s.segment s.currency o ≡ ok terms) e e3));
      },
      record {
        sized = sized_lem s e2;
        terms = terms_of-AreFit s.kind s.segment s.currency s.derivative e3;
        same_currency = tick_currency s e1;
      },
    )
