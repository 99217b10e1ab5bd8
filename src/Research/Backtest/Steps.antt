-- ===== src/Research/Backtest/Steps.antt =====
-- The rounds of `Run` in internal/research/backtest/engine.go as a relation: what one successful round
-- can do to the variables of the loop.
use tradeedge.Prelude.{
  ltb, if◌then◌else◌, ltb→lt, Bool-cases, Option-cases, ◌+ℤ◌, wrap64, find_at, erase_at, put_at,
  Result, err, ok, reject_if-eq-ok, >>=-eq-ok, ok_injective, err-neq-ok, ◌<◌, ◌≡◌, refl, ap, subst,
  inl, inr, true, false, Option, none, some, List, [], ◌∷◌, ◌++◌,
}
use tradeedge.Research.{ResearchError, invalid_fill}
use tradeedge.Research.Backtest.Engine.{
  Parts, PendingOrder, RunState, is_seen, is_no_liquidity, opened, closable, leave, enter,
  apply_fill, take_fill, settle,
}
use tradeedge.Research.Backtest.{Fill, Position, Trade, RejectedFill}
use tradeedge.Research.Backtest.Ledger.{money_add_minor, cost_for_fill, apply_cash, close_trade}
use tradeedge.Domain.{Money}
use tradeedge.Research.Arithmetic.{checked_sub}
use tradeedge.Research.Cost.{Breakdown}
use tradeedge.Research.Observation.{Observation}

-- The state after the fill `f` of `q` is paid for.
abbrev pub paid : Observation → PendingOrder → Fill → Money → Money → RunState → RunState
paid o q f total cash s = record s {
  pending = erase_at o.instrument_id s.pending;
  seen_fills = f.id ∷ s.seen_fills;
  transaction_costs = total;
  cash = cash;
}

-- What `settle` does when it succeeds: it waits, drops an order that finds no liquidity, opens a
-- position, or closes one.
pub data Settled (e : Parts) (o : Observation) (s : RunState) : RunState → Type 0 where
  waits : Settled e o s s
  drops :
      (q : PendingOrder) (r : List RejectedFill)
      → find_at o.instrument_id s.pending ≡ some q
      → Settled e o s (record s {
        pending = erase_at o.instrument_id s.pending;
        rejected_fills = s.rejected_fills ++ r;
      })
  enters :
      (q : PendingOrder) (f : Fill) (costs : Breakdown) (total cash : Money)
      → find_at o.instrument_id s.pending ≡ some q
      → q.order.order_time < o.exchange_time
      → e.fills q.order o ≡ ok f
      → q.leaves ≡ false
      → find_at o.instrument_id s.positions ≡ none
      → Settled e o s (record (paid o q f total cash s) {
        positions =
            put_at o.instrument_id (opened e.strategy_version o.instrument_id f costs) s.positions;
      })
  leaves :
      (q : PendingOrder) (f : Fill) (costs : Breakdown) (total cash : Money) (p : Position)
      (trade : Trade) (realized : Money)
      → find_at o.instrument_id s.pending ≡ some q
      → q.order.order_time < o.exchange_time
      → e.fills q.order o ≡ ok f
      → q.leaves ≡ true
      → find_at o.instrument_id s.positions ≡ some p
      → close_trade e.trade_digest e.dataset_version p f costs ≡ ok trade
      → money_add_minor s.realized_pnl trade.net_pnl_minor ≡ ok realized
      → Settled e o s (record (paid o q f total cash s) {
        trades = s.trades ++ (trade ∷ []);
        realized_pnl = realized;
        positions = erase_at o.instrument_id s.positions;
      })

closable-eq-ok :
    (given : Option Position) (f : Fill) {p : Position} → closable given f ≡ ok p → given ≡ some p
unfolding closable
closable-eq-ok none f h = err-neq-ok h
closable-eq-ok (some p) f h = ap some (ok_injective (reject_if-eq-ok _ _ _ h).1)

module _ (e : Parts) (o : Observation) (s : RunState) (q : PendingOrder) (f : Fill)
    (found : find_at o.instrument_id s.pending ≡ some q)
    (later : q.order.order_time < o.exchange_time) (filled : e.fills q.order o ≡ ok f) where
  enter-Settled :
      (costs : Breakdown) (total cash : Money) {t : RunState}
      → q.leaves ≡ false
      → enter e o.instrument_id f costs (paid o q f total cash s) ≡ ok t
      → Settled e o s t
  unfolding enter
  enter-Settled costs total cash {t} stays h =
      elim (Option-cases (find_at o.instrument_id s.positions)) [
        | inl free ↦
            let k = rw (enter, free) at h in
            subst (Settled e o s) (ok_injective k)
              (enters q f costs total cash found later filled stays free)
        | inr (p, held) ↦ err-neq-ok (rw (enter, held) at h)
      ]

  leave-Settled :
      (costs : Breakdown) (total cash : Money) {t : RunState}
      → q.leaves ≡ true
      → leave e o.instrument_id f costs (paid o q f total cash s) ≡ ok t
      → Settled e o s t
  unfolding leave
  leave-Settled costs total cash {t} goes h =
      let (p, ep, k1) = >>=-eq-ok (closable (find_at o.instrument_id s.positions) f) _ h in
      let (trade, et, k2) =
        >>=-eq-ok (close_trade e.trade_digest e.dataset_version p f costs) _ k1 in
      let (r, er, k3) = >>=-eq-ok (money_add_minor s.realized_pnl trade.net_pnl_minor) _ k2 in
      let held = closable-eq-ok (find_at o.instrument_id s.positions) f ep in
      subst (Settled e o s) (ok_injective k3)
        (leaves q f costs total cash p trade r found later filled goes held et er)

  book-Settled :
      (costs : Breakdown) (total cash : Money) {t : RunState}
      → (if q.leaves
          then leave e o.instrument_id f costs (paid o q f total cash s)
          else enter e o.instrument_id f costs (paid o q f total cash s))
        ≡ ok t
      → Settled e o s t
  book-Settled costs total cash h = elim (Bool-cases q.leaves) [
    | inl goes ↦ leave-Settled costs total cash goes (rw goes at h)
    | inr stays ↦ enter-Settled costs total cash stays (rw stays at h)
  ]

  apply_fill-Settled :
      {t : RunState}
      → apply_fill e o.instrument_id q f (record s { pending = erase_at o.instrument_id s.pending })
        ≡ ok t
      → Settled e o s t
  unfolding apply_fill
  apply_fill-Settled {t} h =
      let (_, k0) = reject_if-eq-ok (is_seen f.id s.seen_fills) invalid_fill _ h in
      let (costs, _, k1) = >>=-eq-ok (cost_for_fill e.costs f) _ k0 in
      let (total, _, k2) = >>=-eq-ok (money_add_minor s.transaction_costs costs.total_costs) _ k1 in
      let (charges, _, k3) =
        >>=-eq-ok (checked_sub costs.total_costs (wrap64 (costs.slippage +ℤ costs.spread_impact))) _
          k2 in
      let (cash, _, k4) = >>=-eq-ok (apply_cash s.cash f charges) _ k3 in
      book-Settled costs total cash k4

take_fill-Settled :
    (e : Parts) (o : Observation) (s : RunState) (q : PendingOrder)
    → find_at o.instrument_id s.pending ≡ some q
    → q.order.order_time < o.exchange_time
    → (r : Result ResearchError Fill) → e.fills q.order o ≡ r
    → {t : RunState}
    → take_fill e o q r (record s { pending = erase_at o.instrument_id s.pending }) ≡ ok t
    → Settled e o s t
unfolding take_fill
take_fill-Settled e o s q found later (ok f) filled h =
    apply_fill-Settled e o s q f found later filled h
take_fill-Settled e o s q found later (err x) filled h = elim (Bool-cases (is_no_liquidity x)) [
  | inl dry ↦ subst (Settled e o s) (ok_injective (rw dry at h)) (drops q _ found)
  | inr bad ↦ err-neq-ok (rw bad at h)
]

pub settle-Settled :
    (e : Parts) (o : Observation) (s : RunState) {t : RunState}
    → settle e o s ≡ ok t
    → Settled e o s t
unfolding settle
settle-Settled e o s {t} h = elim (Option-cases (find_at o.instrument_id s.pending)) [
  | inl free ↦ subst (Settled e o s) (ok_injective (rw (settle, free) at h)) waits
  | inr (q, found) ↦ elim (Bool-cases (ltb q.order.order_time o.exchange_time)) [
    | inl later ↦
        take_fill-Settled e o s q found (ltb→lt _ _ later) (e.fills q.order o) refl
          (rw (settle, found, later) at h)
    | inr early ↦ subst (Settled e o s) (ok_injective (rw (settle, found, early) at h)) waits
  ]
]
