-- ===== src/Research/Cost.antt =====
-- internal/research/cost/cost.go: the cost model of a backtest. A version is a text.
pub mod Balance
pub mod Total
use tradeedge.Prelude.{
  ℤ, pos, ltb_ℤ, leb_ℤ, Result, err, ok, reject_if, ◌>>=◌, ◌>>◌, Text, is_empty, trim_space, Bool,
  true, false, not, ◌||◌, List, [], ◌∷◌,
}
use tradeedge.Research.{ResearchError, invalid_cost}
use tradeedge.Research.Arithmetic.{checked_add, checked_sub, mul_div}

-- `other` is any string that is none of the constants.
pub data Base : Type 0 where
  buy_notional sell_notional total_notional prior_charges other_base : Base

pub data Rounding : Type 0 where
  floor ceil other_rounding : Rounding

pub record Rate : Type 0 where
  pub numerator : ℤ
  pub denominator : ℤ
  pub base : Base
  pub rounding : Rounding

-- `schema_ok`: whether `SchemaVersion` is `SchemaV1`.
pub record Config : Type 0 where
  pub schema_ok : Bool
  pub version : Text
  pub brokerage : Rate
  pub stt : Rate
  pub exchange_charges : Rate
  pub gst : Rate
  pub stamp_duty : Rate
  pub regulatory_charges : Rate

pub record Input : Type 0 where
  pub buy_notional_minor : ℤ
  pub sell_notional_minor : ℤ
  pub gross_pnl : ℤ
  pub slippage : ℤ
  pub spread_impact : ℤ

pub record Breakdown : Type 0 where
  pub gross_pnl : ℤ
  pub brokerage : ℤ
  pub stt : ℤ
  pub exchange_charges : ℤ
  pub gst : ℤ
  pub stamp_duty : ℤ
  pub regulatory_charges : ℤ
  pub slippage : ℤ
  pub spread_impact : ℤ
  pub total_costs : ℤ
  pub net_pnl : ℤ

abbrev is_other_base : Base → Bool
is_other_base other_base = true
is_other_base _ = false

abbrev is_other_rounding : Rounding → Bool
is_other_rounding other_rounding = true
is_other_rounding _ = false

-- `rate.Rounding == RoundCeil`
abbrev pub is_ceil : Rounding → Bool
is_ceil ceil = true
is_ceil _ = false

-- `validateRate` returns an error.
unfoldable pub is_invalid_rate : Rate → Bool
is_invalid_rate r =
    ltb_ℤ r.numerator (pos 0)
    || leb_ℤ r.denominator (pos 0)
    || is_other_base r.base
    || is_other_rounding r.rounding

-- `New`: a `Model` is the configuration that it keeps.
unfoldable pub new_model : Config → Result ResearchError Config
new_model c = do
  reject_if (not c.schema_ok || is_empty (trim_space c.version)) invalid_cost
  reject_if
      (is_invalid_rate c.brokerage
        || is_invalid_rate c.stt
        || is_invalid_rate c.exchange_charges
        || is_invalid_rate c.gst
        || is_invalid_rate c.stamp_duty
        || is_invalid_rate c.regulatory_charges)
      invalid_cost
  ok c

-- `baseValue`
unfoldable pub base_value : Base → Input → ℤ → Result ResearchError ℤ
base_value buy_notional input prior = ok input.buy_notional_minor
base_value sell_notional input prior = ok input.sell_notional_minor
base_value total_notional input prior =
    checked_add input.buy_notional_minor input.sell_notional_minor
base_value prior_charges input prior = ok prior
base_value other_base input prior = err invalid_cost

-- One round of the loop of `Calculate` over the rates: the charge, and the charges so far with it.
unfoldable pub charge : Input → Rate → ℤ → Result ResearchError (ℤ × ℤ)
charge input rate prior = do
  base ← base_value rate.base input prior
  value ← mul_div base rate.numerator rate.denominator (is_ceil rate.rounding)
  sum ← checked_add prior value
  ok (value, sum)

-- The loop that adds up the charges.
unfoldable pub sum_from : ℤ → List ℤ → Result ResearchError ℤ
sum_from total [] = ok total
sum_from total (v ∷ vs) = do next ← checked_add total v; sum_from next vs

-- The parts that a total adds up, in the order of the source.
abbrev pub parts_of : Breakdown → List ℤ
parts_of b =
    b.brokerage ∷ b.stt ∷ b.exchange_charges ∷ b.gst ∷ b.stamp_duty ∷ b.regulatory_charges
    ∷ b.slippage ∷ b.spread_impact ∷ []

-- `Model.Calculate` after the loop over the rates.
unfoldable pub add_up : Breakdown → Result ResearchError Breakdown
add_up b = do
  total ← sum_from (pos 0) (parts_of b)
  net ← checked_sub b.gross_pnl total
  ok (record b { total_costs = total; net_pnl = net })

-- `Model.Calculate`
unfoldable pub calculate : Config → Input → Result ResearchError Breakdown
calculate c input = do
  reject_if
      (ltb_ℤ input.buy_notional_minor (pos 0)
        || ltb_ℤ input.sell_notional_minor (pos 0)
        || ltb_ℤ input.slippage (pos 0)
        || ltb_ℤ input.spread_impact (pos 0))
      invalid_cost
  brokerage ← charge input c.brokerage (pos 0)
  stt ← charge input c.stt brokerage.1
  exchange ← charge input c.exchange_charges stt.1
  regulatory ← charge input c.regulatory_charges exchange.1
  gst ← charge input c.gst regulatory.1
  stamp ← charge input c.stamp_duty gst.1
  add_up (record {
    gross_pnl = input.gross_pnl;
    brokerage = brokerage.0;
    stt = stt.0;
    exchange_charges = exchange.0;
    gst = gst.0;
    stamp_duty = stamp.0;
    regulatory_charges = regulatory.0;
    slippage = input.slippage;
    spread_impact = input.spread_impact;
    total_costs = pos 0;
    net_pnl = pos 0;
  })
