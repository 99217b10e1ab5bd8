-- ===== src/Research/Backtest/Decisions.antt =====
-- The second half of a round of `Run` in internal/research/backtest/engine.go as a relation, and whole
-- rounds.
use tradeedge.Prelude.{
  Bool-cases, ℤ, find_at, put_at, ok, reject_if-eq-ok, >>=-eq-ok, ok_injective, ℕ, suc, ◌≡◌, refl,
  subst, inl, inr, Bool, false, Option, none, some, [], ◌∷◌, ◌++◌, arith,
}
use tradeedge.Research.{invalid_decision, context_done}
use tradeedge.Research.Backtest.Steps.{Settled, settle-Settled}
use tradeedge.Research.Backtest.Rounds.{
  decision_side, new_order, is_no_action, is_present, decide, history_at, consult, evaluate, step,
}
use tradeedge.Research.Backtest.Engine.{Parts, RunState, settle}
use tradeedge.Research.Backtest.{Decision}
use tradeedge.Research.Backtest.Ledger.{current_equity}
use tradeedge.Domain.{Side}
use tradeedge.Research.Observation.{Observation}

-- What `decide` does when it succeeds: nothing, or it queues an order for an instrument that has none.
pub data Decided (e : Parts) (id : ℕ) (d : Decision) (s : RunState) : RunState → Type 0 where
  idles : Decided e id d s s
  queues :
      (side : Side) (goes : Bool)
      → find_at id s.pending ≡ none
      → decision_side d.kind (find_at id s.positions) ≡ ok (side, goes)
      → Decided e id d s (record s {
        signals = suc s.signals;
        pending = put_at id (record { order = new_order e d side; leaves = goes }) s.pending;
      })

absent : {A : Type 0} (o : Option A) → is_present o ≡ false → o ≡ none
absent none h = refl
absent (some a) h = ground (arith, h)

pub decide-Decided :
    (e : Parts) (id : ℕ) (d : Decision) (s : RunState) {t : RunState}
    → decide e id d s ≡ ok t
    → Decided e id d s t
unfolding decide
decide-Decided e id d s {t} h = elim (Bool-cases (is_no_action d.kind)) [
  | inl idle ↦ subst (Decided e id d s) (ok_injective (rw (decide, idle) at h)) idles
  | inr acts ↦
      let (free, k) =
        reject_if-eq-ok (is_present (find_at id s.pending)) invalid_decision _
          (rw (decide, acts) at h) in
      let ((side, goes), ec, k2) = >>=-eq-ok (decision_side d.kind (find_at id s.positions)) _ k in
      subst (Decided e id d s) (ok_injective k2)
        (queues side goes (absent (find_at id s.pending) free) ec)
]

-- The state that a round shows to the strategy, and the one from which it decides.
abbrev pub remembered : Observation → RunState → RunState
remembered o s = record s {
  history = put_at o.instrument_id (history_at o.instrument_id s.history ++ (o ∷ [])) s.history;
}

abbrev pub observed : Observation → RunState → RunState
observed o s = record (remembered o s) { evaluations = suc s.evaluations }

-- A successful round: it settles, decides and marks the equity.
pub record Round (e : Parts) (o : Observation) (s t : RunState) : Type 0 where
  pub settled : RunState
  pub decision : Decision
  pub decided : RunState
  pub equity : ℤ
  pub settles :
      Settled e o (record s { last_price = put_at o.instrument_id o.price s.last_price }) settled
  pub consults : consult e o (remembered o settled) ≡ ok decision
  pub decides : Decided e o.instrument_id decision (observed o settled) decided
  pub marks : current_equity decided.cash decided.positions decided.last_price ≡ ok equity
  pub ends : record decided { equity_curve = decided.equity_curve ++ (equity ∷ []) } ≡ t

pub step-Round :
    (e : Parts) (o : Observation) (s : RunState) {t : RunState} → step e o s ≡ ok t → Round e o s t
unfolding step evaluate
step-Round e o s h =
    let (_, k0) = reject_if-eq-ok (e.is_done s.evaluations) context_done _ h in
    let (u, eu, k1) =
      >>=-eq-ok (settle e o (record s { last_price = put_at o.instrument_id o.price s.last_price }))
        _ k0 in
    let (d, ed, k2) = >>=-eq-ok (consult e o (remembered o u)) _ k1 in
    let (v, ev, k3) = >>=-eq-ok (decide e o.instrument_id d (observed o u)) _ k2 in
    let (q, eq, k4) = >>=-eq-ok (current_equity v.cash v.positions v.last_price) _ k3 in
    record {
      settled = u;
      decision = d;
      decided = v;
      equity = q;
      settles = settle-Settled e o _ eu;
      consults = ed;
      decides = decide-Decided e o.instrument_id d (observed o u) ev;
      marks = eq;
      ends = ok_injective k4;
    }
