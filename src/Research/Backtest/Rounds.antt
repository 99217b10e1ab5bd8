-- ===== src/Research/Backtest/Rounds.antt =====
-- internal/research/backtest/engine.go: the decisions of `Run`, its loop and its result.
-- `decisionSide`: the side of the order, and whether it leaves the position.
use tradeedge.Prelude.{
  leb, if◌then◌else◌, pos, find_at, put_at, Result, err, ok, reject_if, ◌>>=◌, ◌>>◌, ℕ, suc, Bool,
  true, false, not, Option, none, some, List, [], ◌∷◌, ◌++◌,
}
use tradeedge.Research.{
  ResearchError, invalid_dataset, invalid_configuration, invalid_decision, context_done,
}
use tradeedge.Research.Backtest.Engine.{Parts, RunState, settle}
use tradeedge.Research.Backtest.{
  DecisionKind, no_action, long, short, exit, Decision, SimulatedOrder, Position,
}
use tradeedge.Research.Backtest.Ledger.{current_equity, unrealized_from}
use tradeedge.Domain.{Money, Side, buy, sell, same_side}
use tradeedge.Research.Observation.{ResearchInstrument, is_available_at, Observation}
use tradeedge.Research.Features.{new_point_in_time_view}

unfoldable pub decision_side : DecisionKind → Option Position → Result ResearchError (Side × Bool)
decision_side long none = ok (buy, false)
decision_side short none = ok (sell, false)
decision_side exit (some p) = ok ((if same_side p.side buy then sell else buy), true)
decision_side _ _ = err invalid_decision

-- `newOrder`
unfoldable pub new_order : Parts → Decision → Side → SimulatedOrder
new_order e d side = record {
  id = e.order_digest d.timestamp d.instrument_id side e.strategy_version;
  signal_time = d.timestamp;
  order_time = d.timestamp;
  instrument_id = d.instrument_id;
  side = side;
  quantity = e.quantity;
  strategy_version = e.strategy_version;
}

abbrev pub is_no_action : DecisionKind → Bool
is_no_action no_action = true
is_no_action _ = false

abbrev pub is_present {ℓ} : {A : Type ℓ} → Option A → Bool
is_present none = false
is_present (some a) = true

-- What `Run` does with a decision.
unfoldable pub decide : Parts → ℕ → Decision → RunState → Result ResearchError RunState
decide e id d s = if is_no_action d.kind then ok s else do
  reject_if (is_present (find_at id s.pending)) invalid_decision
  choice ← decision_side d.kind (find_at id s.positions)
  ok (record s {
    signals = suc s.signals;
    pending = put_at id (record { order = new_order e d choice.0; leaves = choice.1 }) s.pending;
  })

-- The map from identifiers to instruments, in which the last of two equal ones stays.
unfoldable pub by_id : List ResearchInstrument → List (ℕ × ResearchInstrument)
by_id [] = []
by_id (i ∷ is) =
    let rest = by_id is in
    if is_present (find_at i.instrument.id rest) then rest else (i.instrument.id, i) ∷ rest

-- `byID[id]`, and its availability.
unfoldable pub known_instrument : Parts → Observation → Result ResearchError ResearchInstrument
known_instrument e o = elim (find_at o.instrument_id (by_id e.instruments)) [
  | none ↦ err invalid_dataset
  | some i ↦ do reject_if (not (is_available_at i o.exchange_time)) invalid_dataset; ok i
]

-- `history[id]`
abbrev pub history_at : ℕ → List (ℕ × List Observation) → List Observation
history_at id m = elim (find_at id m) [ none ↦ [] | some os ↦ os ]

-- What the strategy decides on the observations so far.
unfoldable pub consult : Parts → Observation → RunState → Result ResearchError Decision
consult e o s = do
  instrument ← known_instrument e o
  view ← new_point_in_time_view o.exchange_time instrument (history_at o.instrument_id s.history)
  frame ← e.features view
  e.strategy frame (find_at o.instrument_id s.positions)

-- The second half of a round.
unfoldable pub evaluate : Parts → Observation → RunState → Result ResearchError RunState
evaluate e o given =
    let id = o.instrument_id in
    let s : RunState = record given {
      history = put_at id (history_at id given.history ++ (o ∷ [])) given.history;
    } in
    do
      decision ← consult e o s
      t ← decide e id decision (record s { evaluations = suc s.evaluations })
      equity ← current_equity t.cash t.positions t.last_price
      ok (record t { equity_curve = t.equity_curve ++ (equity ∷ []) })

-- One round of the loop; a context that is done ends the run.
unfoldable pub step : Parts → Observation → RunState → Result ResearchError RunState
step e o s = do
  reject_if (e.is_done s.evaluations) context_done
  t ← settle e o (record s { last_price = put_at o.instrument_id o.price s.last_price })
  evaluate e o t

-- The loop.
unfoldable pub rounds : Parts → List Observation → RunState → Result ResearchError RunState
rounds e [] s = ok s
rounds e (o ∷ os) s = do t ← step e o s; rounds e os t

-- The variables of `Run` before its loop.
unfoldable pub initial : Parts → RunState
initial e =
    let none_yet : Money = record { minor = pos 0; currency = e.starting_capital.currency } in
    record {
      cash = e.starting_capital;
      realized_pnl = none_yet;
      transaction_costs = none_yet;
      evaluations = 0;
      signals = 0;
      trades = [];
      rejected_fills = [];
      equity_curve = [];
      history = [];
      positions = [];
      pending = [];
      seen_fills = [];
      last_price = [];
    }

pub record BacktestResult : Type 0 where
  pub end : RunState
  pub open_positions : List (ℕ × Position)
  pub unrealized_pnl : Money

-- `sort.Strings` of the identifiers.
unfoldable pub insert_position : ℕ × Position → List (ℕ × Position) → List (ℕ × Position)
insert_position p [] = p ∷ []
insert_position p (q ∷ qs) =
    let rest = insert_position p qs in if leb p.0 q.0 then p ∷ q ∷ qs else q ∷ rest

unfoldable pub sort_positions : List (ℕ × Position) → List (ℕ × Position)
sort_positions [] = []
sort_positions (p ∷ ps) = insert_position p (sort_positions ps)

-- `Run`
unfoldable pub run : Parts → List Observation → Result ResearchError BacktestResult
run e [] = err invalid_configuration
run e (o ∷ os) = do
  s ← rounds e (o ∷ os) (initial e)
  unrealized ← unrealized_from (pos 0) s.positions s.last_price
  ok (record {
    end = s;
    open_positions = sort_positions s.positions;
    unrealized_pnl = record { minor = unrealized; currency = e.starting_capital.currency };
  })
