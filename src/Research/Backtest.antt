-- ===== src/Research/Backtest.antt =====
-- internal/research/backtest/contracts.go and control.go: decisions, orders, fills, positions and
-- trades, and the control strategy. A context that is done is a flag.
pub mod Filling
pub mod Ledger
pub mod Engine
pub mod Rounds
pub mod Steps
pub mod Decisions
pub mod Coherent
pub mod Exits
pub mod Chronology
pub mod Baseline
pub mod Amounts
pub mod Books
use tradeedge.Prelude.{
  leb, ◌==◌, if◌then◌else◌, ℤ, pos, leb_ℤ, length, Result, err, ok, reject_if, ◌>>=◌, ◌>>◌, Text,
  ascii, is_empty, ℕ, Bool, true, false, not, ◌||◌, Option, none, some,
}
use tradeedge.Research.{ResearchError, invalid_configuration, invalid_decision}
use tradeedge.Domain.{Price, Side, buy, sell, other, same_side}
use tradeedge.Research.Cost.{Breakdown}
use tradeedge.Research.Features.{FeatureFrame}

-- `other_decision` is any string that is none of the constants.
pub data DecisionKind : Type 0 where
  no_action long short exit other_decision : DecisionKind

-- Of a score, its scale.
pub record Decision : Type 0 where
  pub kind : DecisionKind
  pub timestamp : ℕ
  pub instrument_id : ℕ
  pub reason : Text
  pub score_scale : Option ℤ

pub record SimulatedOrder : Type 0 where
  pub id : Text
  pub signal_time : ℕ
  pub order_time : ℕ
  pub instrument_id : ℕ
  pub side : Side
  pub quantity : ℤ
  pub strategy_version : Text

pub record Fill : Type 0 where
  pub id : Text
  pub order_id : Text
  pub signal_time : ℕ
  pub order_time : ℕ
  pub fill_time : ℕ
  pub instrument_id : ℕ
  pub side : Side
  pub quantity : ℤ
  pub reference_price : Price
  pub fill_price : Price
  pub slippage_minor : ℤ
  pub spread_impact_minor : ℤ

pub record Position : Type 0 where
  pub instrument_id : ℕ
  pub side : Side
  pub quantity : ℤ
  pub entry_signal_time : ℕ
  pub entry_order_time : ℕ
  pub entry_fill_time : ℕ
  pub entry_reference_price : Price
  pub entry_fill_price : Price
  pub entry_costs : Breakdown
  pub strategy_version : Text

pub record Trade : Type 0 where
  pub id : Text
  pub instrument_id : ℕ
  pub side : Side
  pub quantity : ℤ
  pub signal_time : ℕ
  pub order_time : ℕ
  pub fill_time : ℕ
  pub exit_signal_time : ℕ
  pub exit_order_time : ℕ
  pub exit_fill_time : ℕ
  pub fill_price_minor : ℤ
  pub exit_price_minor : ℤ
  pub gross_pnl_minor : ℤ
  pub costs : Breakdown
  pub net_pnl_minor : ℤ
  pub strategy_version : Text
  pub dataset_version : Text

pub record RejectedFill : Type 0 where
  pub order_id : Text
  pub at : ℕ

-- `validateDecision`
unfoldable pub is_invalid_decision : Decision → FeatureFrame → Bool
is_invalid_decision d frame =
    (d.timestamp == 0)
    || not (d.timestamp == frame.as_of)
    || not (d.instrument_id == frame.instrument.instrument.id)
    || is_empty d.reason
    || is_other_kind d.kind
    || is_bad_score d.score_scale
  where
    is_other_kind : DecisionKind → Bool
    is_other_kind other_decision = true
    is_other_kind _ = false

    is_bad_score : Option ℤ → Bool
    is_bad_score none = false
    is_bad_score (some scale) = leb_ℤ scale (pos 0)

-- `NewControlStrategy`: the strategy is its direction.
unfoldable pub new_control_strategy : Side → Result ResearchError Side
new_control_strategy buy = ok buy
new_control_strategy sell = ok sell
new_control_strategy other = err invalid_configuration

-- The kind and the reason that `ControlStrategy.Evaluate` picks.
unfoldable pub control_choice : Side → Option Position → ℕ → DecisionKind × Text
control_choice direction none seen =
    let kind = if same_side direction buy then long else short in
    if seen == 2
    then (kind, ascii "CONTROL_SECOND_OBSERVATION_ENTRY")
    else (no_action, ascii "CONTROL_WAIT")
control_choice direction (some position) seen =
    if leb 3 seen
    then (exit, ascii "CONTROL_NEXT_EVALUATION_EXIT")
    else (no_action, ascii "CONTROL_WAIT")

-- `ControlStrategy.Evaluate`
unfoldable pub control_evaluate :
    Side → FeatureFrame → Option Position → Result ResearchError Decision
control_evaluate direction frame position =
    let choice = control_choice direction position (length frame.sources) in
    let decision : Decision = record {
      kind = choice.0;
      timestamp = frame.as_of;
      instrument_id = frame.instrument.instrument.id;
      reason = choice.1;
      score_scale = none;
    } in
    do reject_if (is_invalid_decision decision frame) invalid_decision; ok decision
