-- ===== src/Research/Backtest/Engine.antt =====
-- internal/research/backtest/engine.go: an engine, the variables of `Run`, and
-- what `Run` does with the order that waits for an instrument. Its
-- source, features, strategy, fills and costs are interfaces there: a record of functions here, with
-- the digests of an order and of a trade. Whether the context is done is read once for every
-- observation, which `is_done` numbers. A map is the list of its entries, which a loop over the map
-- takes in the order of the list.
use tradeedge.Prelude.{
  ltb, if◌then◌else◌, ℤ, pos, ◌+ℤ◌, ltb_ℤ, eqb_ℤ, wrap64, find_at, erase_at, put_at, Result, err,
  ok, reject_if, ◌>>=◌, ◌>>◌, Text, text_eq, ℕ, Bool, true, false, not, ◌||◌, Option, none, some,
  List, [], ◌∷◌, ◌++◌,
}
use tradeedge.Research.{
  ResearchError, invalid_configuration, invalid_decision, invalid_fill, no_liquidity,
  position_underflow,
}
use tradeedge.Research.Backtest.{Decision, SimulatedOrder, Fill, Position, Trade, RejectedFill}
use tradeedge.Research.Backtest.Ledger.{money_add_minor, cost_for_fill, apply_cash, close_trade}
use tradeedge.Domain.{Money, is_zero_money, is_valid_quantity, Price, Side, same_side}
use tradeedge.Research.Arithmetic.{checked_sub}
use tradeedge.Research.Cost.{Input, Breakdown}
use tradeedge.Research.Observation.{ResearchInstrument, Observation}
use tradeedge.Research.Features.{PointInTimeView, FeatureFrame}

-- `Engine`, with the values that its interfaces return.
pub record Parts : Type 0 where
  pub dataset_version : Text
  pub strategy_version : Text
  pub instruments : List ResearchInstrument
  pub features : PointInTimeView → Result ResearchError FeatureFrame
  pub strategy : FeatureFrame → Option Position → Result ResearchError Decision
  pub fills : SimulatedOrder → Observation → Result ResearchError Fill
  pub costs : Input → Result ResearchError Breakdown
  pub starting_capital : Money
  pub quantity : ℤ
  pub is_done : ℕ → Bool
  pub order_digest : ℕ → ℕ → Side → Text → Text
  pub trade_digest : ℕ → ℕ → ℕ → Text

-- The guard of `NewEngine` on the configuration, given whether its policy is `EnginePolicyV1`.
unfoldable pub new_engine : Bool → Parts → Result ResearchError Parts
new_engine policy_ok e = do
  reject_if
      (not policy_ok
        || is_zero_money e.starting_capital
        || ltb_ℤ e.starting_capital.minor (pos 0)
        || not (is_valid_quantity e.quantity))
      invalid_configuration
  ok e

pub record PendingOrder : Type 0 where
  pub order : SimulatedOrder
  pub leaves : Bool

-- The variables of `Run`.
pub record RunState : Type 0 where
  pub cash : Money
  pub realized_pnl : Money
  pub transaction_costs : Money
  pub evaluations : ℕ
  pub signals : ℕ
  pub trades : List Trade
  pub rejected_fills : List RejectedFill
  pub equity_curve : List ℤ
  pub history : List (ℕ × List Observation)
  pub positions : List (ℕ × Position)
  pub pending : List (ℕ × PendingOrder)
  pub seen_fills : List Text
  pub last_price : List (ℕ × Price)

abbrev pub is_seen : Text → List Text → Bool
is_seen id [] = false
is_seen id (s ∷ seen) = text_eq id s || is_seen id seen

-- `errors.Is(err, ErrNoLiquidity)`
abbrev pub is_no_liquidity : ResearchError → Bool
is_no_liquidity no_liquidity = true
is_no_liquidity _ = false

-- The position that an entry opens.
abbrev pub opened : Text → ℕ → Fill → Breakdown → Position
opened version id f costs = record {
  instrument_id = id;
  side = f.side;
  quantity = f.quantity;
  entry_signal_time = f.signal_time;
  entry_order_time = f.order_time;
  entry_fill_time = f.fill_time;
  entry_reference_price = f.reference_price;
  entry_fill_price = f.fill_price;
  entry_costs = costs;
  strategy_version = version;
}

-- The position that an exit may close.
unfoldable pub closable : Option Position → Fill → Result ResearchError Position
closable none f = err position_underflow
closable (some p) f = do
  reject_if (not (eqb_ℤ p.quantity f.quantity) || same_side p.side f.side) position_underflow
  ok p

-- A fill of an exit: the trade that it closes.
unfoldable pub leave : Parts → ℕ → Fill → Breakdown → RunState → Result ResearchError RunState
leave e id f costs s = do
  position ← closable (find_at id s.positions) f
  trade ← close_trade e.trade_digest e.dataset_version position f costs
  realized ← money_add_minor s.realized_pnl trade.net_pnl_minor
  ok (record s {
    trades = s.trades ++ (trade ∷ []);
    realized_pnl = realized;
    positions = erase_at id s.positions;
  })

-- A fill of an entry: the position that it opens.
unfoldable pub enter : Parts → ℕ → Fill → Breakdown → RunState → Result ResearchError RunState
enter e id f costs s = elim (find_at id s.positions) [
  | none ↦
      ok (record s { positions = put_at id (opened e.strategy_version id f costs) s.positions })
  | some p ↦ err invalid_decision
]

-- What `Run` does with a fill of the order `queued`.
unfoldable pub apply_fill :
    Parts → ℕ → PendingOrder → Fill → RunState → Result ResearchError RunState
apply_fill e id queued f s = do
  reject_if (is_seen f.id s.seen_fills) invalid_fill
  costs ← cost_for_fill e.costs f
  total ← money_add_minor s.transaction_costs costs.total_costs
  charges ← checked_sub costs.total_costs (wrap64 (costs.slippage +ℤ costs.spread_impact))
  cash ← apply_cash s.cash f charges
  let t : RunState = record s {
    seen_fills = f.id ∷ s.seen_fills;
    transaction_costs = total;
    cash = cash;
  } in
      if queued.leaves then leave e id f costs t else enter e id f costs t

-- What `Run` does with the result of `Fill`.
unfoldable pub take_fill :
    Parts
    → Observation
    → PendingOrder
    → Result ResearchError Fill
    → RunState
    → Result ResearchError RunState
take_fill e o queued (ok f) s = apply_fill e o.instrument_id queued f s
take_fill e o queued (err x) s =
    if is_no_liquidity x
    then ok (record s {
      rejected_fills =
          s.rejected_fills ++ (record { order_id = queued.order.id; at = o.exchange_time } ∷ []);
    })
    else err x

-- The first half of a round: an order that waits for this instrument.
unfoldable pub settle : Parts → Observation → RunState → Result ResearchError RunState
settle e o s = elim (find_at o.instrument_id s.pending) [
  | none ↦ ok s
  | some queued ↦
      if ltb queued.order.order_time o.exchange_time
      then take_fill e o queued (e.fills queued.order o)
          (record s { pending = erase_at o.instrument_id s.pending })
      else ok s
]
