-- ===== src/Research/Backtest/Filling.antt =====
-- internal/research/backtest/fill.go: the baseline model of a simulated fill. Its digest of an order
-- and an observation is a parameter.
use tradeedge.Prelude.{
  ltb, ◌==◌, if◌then◌else◌, ℤ, pos, ◌-ℤ◌, ltb_ℤ, leb_ℤ, wrap64, Result, err, ok, reject_if, ◌>>=◌,
  ◌>>◌, Text, is_empty, ℕ, Bool, true, not, ◌||◌, Option, none, some,
}
use tradeedge.Research.{
  ResearchError, invalid_configuration, invalid_fill, no_liquidity, from_domain,
}
use tradeedge.Domain.{is_valid_quantity, Price, new_price, Side, buy, sell, other}
use tradeedge.Research.Arithmetic.{checked_add, checked_sub, checked_mul, mul_div}
use tradeedge.Research.Observation.{Observation}
use tradeedge.Research.Backtest.{SimulatedOrder, Fill}

-- `NewBaselineFillModel`, given whether the trimmed policy is `FillPolicyV1`: the model is its slippage
-- in basis points.
unfoldable pub new_baseline_fill_model : Bool → ℤ → Result ResearchError ℤ
new_baseline_fill_model policy_ok slippage_bps = do
  reject_if (not policy_ok || ltb_ℤ slippage_bps (pos 0) || ltb_ℤ (pos 10000) slippage_bps)
      invalid_configuration
  ok slippage_bps

-- The first guard of `Fill`.
unfoldable pub is_unfillable : SimulatedOrder → Observation → Bool
is_unfillable order o =
    is_empty order.id
    || (order.signal_time == 0)
    || ltb order.order_time order.signal_time
    || not (ltb order.order_time o.exchange_time)
    || not (o.instrument_id == order.instrument_id)
    || not (is_valid_quantity order.quantity)

-- The side of the book that an order trades against.
unfoldable pub book_of : Side → Observation → Result ResearchError (Option Price)
book_of buy o = ok o.ask
book_of sell o = ok o.bid
book_of other o = err invalid_fill

unfoldable pub liquid : Option Price → Result ResearchError Price
liquid none = err no_liquidity
liquid (some p) = do reject_if (leb_ℤ p.minor (pos 0)) no_liquidity; ok p

-- The price of the book made worse by the slippage.
unfoldable pub slipped : Side → ℤ → ℤ → Result ResearchError ℤ
slipped buy book adjustment = checked_add book adjustment
slipped _ book adjustment = do
  minor ← checked_sub book adjustment
  reject_if (ltb_ℤ minor (pos 0)) invalid_fill
  ok minor

unfoldable pub spread_per_unit : Side → ℤ → ℤ → ℤ
spread_per_unit buy book reference =
    if ltb_ℤ reference book then wrap64 (book -ℤ reference) else pos 0
spread_per_unit sell book reference =
    if ltb_ℤ book reference then wrap64 (reference -ℤ book) else pos 0
spread_per_unit other book reference = pos 0

-- `BaselineFillModel.Fill`
unfoldable pub fill :
    (Text → ℕ → Text) → ℤ → SimulatedOrder → Observation → Result ResearchError Fill
fill digest slippage_bps order o = do
  reject_if (is_unfillable order o) invalid_fill
  side_of_book ← book_of order.side o
  book ← liquid side_of_book
  adjustment ← mul_div book.minor slippage_bps (pos 10000) true
  fill_minor ← slipped order.side book.minor adjustment
  fill_price ← from_domain (new_price fill_minor book.currency)
  spread ← checked_mul (spread_per_unit order.side book.minor o.price.minor) order.quantity
  slippage ← checked_mul adjustment order.quantity
  ok (record {
    id = digest order.id o.id;
    order_id = order.id;
    signal_time = order.signal_time;
    order_time = order.order_time;
    fill_time = o.exchange_time;
    instrument_id = order.instrument_id;
    side = order.side;
    quantity = order.quantity;
    reference_price = o.price;
    fill_price = fill_price;
    slippage_minor = slippage;
    spread_impact_minor = spread;
  })
