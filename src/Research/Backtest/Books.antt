-- ===== src/Research/Backtest/Books.antt =====
-- The records of `Run` in internal/research/backtest/engine.go: the profit is that of its trades, each
-- trade is in order of time, and the curve has a mark for every evaluation.
use tradeedge.Prelude.{
  ◌==◌, Bool-cases, ℤ, pos, ◌+ℤ◌, int_laws, IsInt64, length, length-append, All, All-append,
  find_at, erase_at, put_at, find-erase_other, find-put_other, ok, >>=-eq-ok, ok_injective, ℕ, suc,
  ◌<◌, ◌≡◌, refl, sym, ap, subst, ◌∙◌, inl, inr, false, some, List, [], ◌∷◌, ◌++◌, arith,
}
use tradeedge.Research.Backtest.Steps.{Settled, waits, drops, enters, leaves}
use tradeedge.Research.Backtest.Decisions.{Decided, idles, queues, Round, step-Round}
use tradeedge.Research.Backtest.Coherent.{IsFillModel, other_key, none-neq-some, gone, written}
use tradeedge.Research.Backtest.Amounts.{money_add_minor-Exact, close_trade-Closes}
use tradeedge.Research.Backtest.Rounds.{step, rounds, initial}
use tradeedge.Research.Backtest.Engine.{Parts, PendingOrder, RunState, opened}
use tradeedge.Research.Backtest.{Decision, Fill, Position, Trade}
use tradeedge.Research.Observation.{Observation}

-- Both orders of a trade are filled after they are placed.
abbrev pub IsTimely : Trade → Type 0
IsTimely t = (t.order_time < t.fill_time) × (t.exit_order_time < t.exit_fill_time)

-- The sum of the net profits.
abbrev pub profit_of : List Trade → ℤ
profit_of [] = pos 0
profit_of (t ∷ ts) = t.net_pnl_minor +ℤ profit_of ts

pub record IsBooked (s : RunState) : Type 0 where
  pub held :
      (id : ℕ) (p : Position)
      → find_at id s.positions ≡ some p
      → p.entry_order_time < p.entry_fill_time
  pub timely : All IsTimely s.trades
  pub profit : s.realized_pnl.minor ≡ profit_of s.trades
  pub profit_fits : IsInt64 s.realized_pnl.minor
  pub marked : length s.equity_curve ≡ s.evaluations

profit_of-append :
    (ts : List Trade) (t : Trade) → profit_of (ts ++ (t ∷ [])) ≡ profit_of ts +ℤ t.net_pnl_minor
profit_of-append [] t = omega int_laws
profit_of-append (u ∷ ts) t = rw (profit_of-append ts t) (omega int_laws)

-- The fill of an order that waited is later than the order.
fill_later :
    (e : Parts) (o : Observation) (q : PendingOrder) (f : Fill)
    → IsFillModel e.fills
    → q.order.order_time < o.exchange_time
    → e.fills q.order o ≡ ok f
    → f.order_time < f.fill_time
fill_later e o q f law later filled =
    let (a, b) = law.timed q.order o filled in
    subst (λ x. x < f.fill_time) (sym a) (subst (λ x. q.order.order_time < x) (sym b) later)

-- A property of the positions after those of one instrument changed.
held_after :
    (P : Position → Type 0) (at : ℕ) (before after : List (ℕ × Position))
    → ((i : ℕ) (p : Position) → find_at i before ≡ some p → P p)
    → ((i : ℕ) → (i == at) ≡ false → find_at i after ≡ find_at i before)
    → ((p : Position) → find_at at after ≡ some p → P p)
    → (i : ℕ) (p : Position) → find_at i after ≡ some p
    → P p
held_after P at before after old same here i p h = elim (Bool-cases (i == at)) [
  | inl e ↦ here p (subst (λ j. find_at j after ≡ some p) (other_key i at e) h)
  | inr e ↦ old i p (sym (same i e) ∙ h)
]

abbrev IsFilledLater : Position → Type 0
IsFilledLater p = p.entry_order_time < p.entry_fill_time

-- A state with the same records and positions.
unchanged :
    (s t : RunState)
    → IsBooked s
    → t.positions ≡ s.positions
    → t.trades ≡ s.trades
    → t.realized_pnl ≡ s.realized_pnl
    → length t.equity_curve ≡ t.evaluations
    → IsBooked t
unchanged s t b ps ts r marked = record {
  held = λ i p h. b.held i p (ap (find_at i) (sym ps) ∙ h);
  timely = subst (All IsTimely) (sym ts) b.timely;
  profit = ap (λ m. m.minor) r ∙ b.profit ∙ ap profit_of (sym ts);
  profit_fits = subst (λ m. IsInt64 m.minor) (sym r) b.profit_fits;
  marked = marked;
}

Settled-IsBooked :
    (e : Parts) (o : Observation) (s t : RunState)
    → IsFillModel e.fills
    → IsBooked s
    → Settled e o s t
    → IsBooked t × (length t.equity_curve ≡ t.evaluations)
Settled-IsBooked e o s t law b waits = (b, b.marked)
Settled-IsBooked e o s t law b (drops q r found) =
    (unchanged s t b refl refl refl b.marked, b.marked)
Settled-IsBooked e o s t law b (enters q f costs total cash found later filled stays free) =
    let at = o.instrument_id in
    let new = opened e.strategy_version at f costs in
    let later_fill = fill_later e o q f law later filled in
    (
      record {
        held =
            held_after IsFilledLater at s.positions (put_at at new s.positions) b.held
              (λ i h. find-put_other i at new s.positions h)
              (λ p h. subst IsFilledLater (written at new s.positions h) later_fill);
        timely = b.timely;
        profit = b.profit;
        profit_fits = b.profit_fits;
        marked = b.marked;
      },
      b.marked,
    )
Settled-IsBooked e o s t law b
      (leaves q f costs total cash p trade realized found later filled goes held closes pays) =
    let c = close_trade-Closes e.trade_digest e.dataset_version p f costs closes in
    let (sum, sum_fits) =
      money_add_minor-Exact s.realized_pnl trade.net_pnl_minor b.profit_fits c.profit pays in
    let at = o.instrument_id in
    let entry : trade.order_time < trade.fill_time =
      subst (λ x. x < trade.fill_time) (sym c.order_time)
        (subst (λ x. p.entry_order_time < x) (sym c.fill_time) (b.held at p held)) in
    let leaving : trade.exit_order_time < trade.exit_fill_time =
      subst (λ x. x < trade.exit_fill_time) (sym c.exit_order_time)
        (subst (λ x. f.order_time < x) (sym c.exit_fill_time)
          (fill_later e o q f law later filled)) in
    (
      record {
        held =
            held_after IsFilledLater at s.positions (erase_at at s.positions) b.held
              (λ i h. find-erase_other i at s.positions h) (λ p h. gone at s.positions h);
        timely = All-append IsTimely s.trades (trade ∷ []) b.timely ((entry, leaving), tt);
        profit =
            sum
            ∙ ap (λ x. x +ℤ trade.net_pnl_minor) b.profit
            ∙ sym (profit_of-append s.trades trade);
        profit_fits = sum_fits;
        marked = b.marked;
      },
      b.marked,
    )

length_snoc : {A : Type 0} (xs : List A) (x : A) → length (xs ++ (x ∷ [])) ≡ suc (length xs)
length_snoc xs x = length-append xs (x ∷ []) ∙ omega arith

-- A decision keeps the records, and `observed` counts the evaluation.
Decided-mark :
    (e : Parts) (id : ℕ) (d : Decision) (s t : RunState)
    → Decided e id d s t
    → (t.positions ≡ s.positions)
      × (t.trades ≡ s.trades)
      × (t.realized_pnl ≡ s.realized_pnl)
      × (length t.equity_curve ≡ length s.equity_curve)
      × (t.evaluations ≡ s.evaluations)
Decided-mark e id d s t idles = (refl, refl, refl, refl, refl)
Decided-mark e id d s t (queues side goes free chosen) = (refl, refl, refl, refl, refl)

-- One round: the mark of equity comes with the evaluation.
Round-IsBooked :
    (e : Parts) (o : Observation) (s t : RunState)
    → IsFillModel e.fills
    → IsBooked s
    → Round e o s t
    → IsBooked t
Round-IsBooked e o s t law b r =
    let b0 =
      unchanged s (record s { last_price = put_at o.instrument_id o.price s.last_price }) b refl
        refl refl b.marked in
    let (b1, m) = Settled-IsBooked e o _ r.settled law b0 r.settles in
    let n = Decided-mark e o.instrument_id r.decision _ r.decided r.decides in
    let last = length_snoc r.decided.equity_curve r.equity ∙ ap suc (n.3 ∙ m) ∙ sym n.4 in
    subst IsBooked r.ends (
      unchanged r.settled
        (record r.decided { equity_curve = r.decided.equity_curve ++ (r.equity ∷ []) }) b1 n.0 n.1
        n.2 last)

pub rounds-IsBooked :
    (e : Parts) (os : List Observation) (s : RunState) {t : RunState}
    → IsFillModel e.fills
    → IsBooked s
    → rounds e os s ≡ ok t
    → IsBooked t
unfolding rounds
rounds-IsBooked e [] s law b h = subst IsBooked (ok_injective h) b
rounds-IsBooked e (o ∷ os) s law b h =
    let (u, eu, k) = >>=-eq-ok (step e o s) _ h in
    rounds-IsBooked e os u law (Round-IsBooked e o s u law b (step-Round e o s eu)) k

initial-IsBooked : (e : Parts) → IsBooked (initial e)
unfolding initial
initial-IsBooked e = record {
  held = λ id p h. none-neq-some h;
  timely = tt;
  profit = refl;
  profit_fits = omega arith;
  marked = refl;
}

-- At the end of the loop of `Run`, on fills that answer their orders: the realized profit is exactly
-- the sum of the net profits of the trades, each trade fills both its orders after they were placed,
-- each open position was filled after its order, and the curve has one mark for each evaluation.
pub run-IsBooked :
    (e : Parts) (os : List Observation) {t : RunState}
    → IsFillModel e.fills
    → rounds e os (initial e) ≡ ok t
    → IsBooked t
run-IsBooked e os law h = rounds-IsBooked e os (initial e) law (initial-IsBooked e) h
