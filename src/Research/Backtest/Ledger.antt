-- ===== src/Research/Backtest/Ledger.antt =====
-- The money of internal/research/backtest/engine.go: what a fill costs, what it moves in cash, and
-- what a trade earns. The digest of a trade is a parameter.
use tradeedge.Prelude.{
  if◌then◌else◌, ℤ, pos, ◌-ℤ◌, wrap64, find_at, Result, ok, ◌>>=◌, Text, ℕ, none, some, List, [],
  ◌∷◌,
}
use tradeedge.Research.{ResearchError, from_domain}
use tradeedge.Research.Backtest.{Fill, Position, Trade}
use tradeedge.Domain.{Money, new_money, add, Price, Side, buy, sell, same_side}
use tradeedge.Research.Arithmetic.{checked_add, checked_sub, checked_mul}
use tradeedge.Research.Cost.{Input, Breakdown}

-- `-x` on `int64`.
abbrev pub opposite : ℤ → ℤ
opposite a = wrap64 (pos 0 -ℤ a)

-- `moneyAddMinor`
unfoldable pub money_add_minor : Money → ℤ → Result ResearchError Money
money_add_minor value minor = from_domain do added ← new_money minor value.currency; add value added

-- The input of `costForFill`.
unfoldable pub cost_input : Fill → ℤ → Input
cost_input f notional = record {
  buy_notional_minor = if same_side f.side buy then notional else pos 0;
  sell_notional_minor = if same_side f.side buy then pos 0 else notional;
  gross_pnl = pos 0;
  slippage = f.slippage_minor;
  spread_impact = f.spread_impact_minor;
}

-- `costForFill`
unfoldable pub cost_for_fill :
    (Input → Result ResearchError Breakdown) → Fill → Result ResearchError Breakdown
cost_for_fill costs f = do
  notional ← checked_mul f.fill_price.minor f.quantity
  costs (cost_input f notional)

-- `applyCash`
unfoldable pub apply_cash : Money → Fill → ℤ → Result ResearchError Money
apply_cash cash f charges = do
  notional ← checked_mul f.fill_price.minor f.quantity
  delta ← checked_sub (if same_side f.side sell then notional else opposite notional) charges
  money_add_minor cash delta

-- The loop of `combineCosts` over one target: the sum, and the total so far.
unfoldable pub combine_part : ℤ → ℤ → ℤ → Result ResearchError (ℤ × ℤ)
combine_part left right total = do
  v ← checked_add left right
  next ← checked_add total v
  ok (v, next)

-- `combineCosts`
unfoldable pub combine_costs : Breakdown → Breakdown → ℤ → Result ResearchError Breakdown
combine_costs a b gross = do
  brokerage ← combine_part a.brokerage b.brokerage (pos 0)
  stt ← combine_part a.stt b.stt brokerage.1
  exchange ← combine_part a.exchange_charges b.exchange_charges stt.1
  gst ← combine_part a.gst b.gst exchange.1
  stamp ← combine_part a.stamp_duty b.stamp_duty gst.1
  regulatory ← combine_part a.regulatory_charges b.regulatory_charges stamp.1
  slippage ← combine_part a.slippage b.slippage regulatory.1
  spread ← combine_part a.spread_impact b.spread_impact slippage.1
  net ← checked_sub gross spread.1
  ok (record {
    gross_pnl = gross;
    brokerage = brokerage.0;
    stt = stt.0;
    exchange_charges = exchange.0;
    gst = gst.0;
    stamp_duty = stamp.0;
    regulatory_charges = regulatory.0;
    slippage = slippage.0;
    spread_impact = spread.0;
    total_costs = spread.1;
    net_pnl = net;
  })

-- The profit of one unit, signed by the side of the position.
unfoldable pub unit_gain : Side → ℤ → ℤ → Result ResearchError ℤ
unit_gain side entry leaving = do
  delta ← checked_sub leaving entry
  ok (if same_side side sell then opposite delta else delta)

-- `closeTrade`
unfoldable pub close_trade :
    (ℕ → ℕ → ℕ → Text) → Text → Position → Fill → Breakdown → Result ResearchError Trade
close_trade digest dataset_version p leaving exit_costs = do
  gain ← unit_gain p.side p.entry_reference_price.minor leaving.reference_price.minor
  gross ← checked_mul gain p.quantity
  combined ← combine_costs p.entry_costs exit_costs gross
  ok (record {
    id = digest p.instrument_id p.entry_fill_time leaving.fill_time;
    instrument_id = p.instrument_id;
    side = p.side;
    quantity = p.quantity;
    signal_time = p.entry_signal_time;
    order_time = p.entry_order_time;
    fill_time = p.entry_fill_time;
    exit_signal_time = leaving.signal_time;
    exit_order_time = leaving.order_time;
    exit_fill_time = leaving.fill_time;
    fill_price_minor = p.entry_fill_price.minor;
    exit_price_minor = leaving.fill_price.minor;
    gross_pnl_minor = gross;
    costs = combined;
    net_pnl_minor = combined.net_pnl;
    strategy_version = p.strategy_version;
    dataset_version = dataset_version;
  })

-- The price that a map of last prices holds, the zero `Price{}` where it has none.
abbrev pub price_minor_at : ℕ → List (ℕ × Price) → ℤ
price_minor_at id last = elim (find_at id last) [ none ↦ pos 0 | some p ↦ p.minor ]

-- The loop of `currentEquity`.
unfoldable pub equity_from : ℤ → List (ℕ × Position) → List (ℕ × Price) → Result ResearchError ℤ
equity_from value [] last = ok value
equity_from value ((id, p) ∷ rest) last = do
  notional ← checked_mul (price_minor_at id last) p.quantity
  next ← if same_side p.side buy then checked_add value notional else checked_sub value notional
  equity_from next rest last

-- `currentEquity`
abbrev pub current_equity : Money → List (ℕ × Position) → List (ℕ × Price) → Result ResearchError ℤ
current_equity cash positions last = equity_from cash.minor positions last

-- The loop of `Run` over what stays open.
unfoldable pub unrealized_from : ℤ → List (ℕ × Position) → List (ℕ × Price) → Result ResearchError ℤ
unrealized_from value [] last = ok value
unrealized_from value ((id, p) ∷ rest) last = do
  gain ← unit_gain p.side p.entry_fill_price.minor (price_minor_at id last)
  amount ← checked_mul gain p.quantity
  next ← checked_add value amount
  unrealized_from next rest last
