-- ===== src/Research/Backtest/Coherent.antt =====
-- The positions and the waiting orders of `Run` in internal/research/backtest/engine.go: an order that
-- leaves a position finds it, and an order that enters finds none.
use tradeedge.Prelude.{
  ◌==◌, if◌then◌else◌, Bool-cases, find_at, erase_at, put_at, find-erase_same, find-erase_other,
  find-put_same, find-put_other, Result, ok, ok_injective, err-neq-ok, ℕ, ◌≡◌, refl, sym, ap, subst,
  ◌∙◌, ◌⊎◌, inl, inr, Bool, true, false, Option, none, some, List, arith,
}
use tradeedge.Research.{ResearchError}
use tradeedge.Research.Backtest.Steps.{Settled, waits, drops, enters, leaves}
use tradeedge.Research.Backtest.Decisions.{Decided, idles, queues, observed, Round}
use tradeedge.Research.Backtest.Rounds.{decision_side, new_order}
use tradeedge.Research.Backtest.Engine.{Parts, PendingOrder, RunState, opened}
use tradeedge.Research.Backtest.{
  DecisionKind, no_action, long, short, exit, other_decision, Decision, SimulatedOrder, Fill,
  Position,
}
use tradeedge.Domain.{Side, buy, sell, other, same_side}
use tradeedge.Research.Observation.{Observation}

-- What `Run` needs of the fills: a fill answers the order it was made for, at the observation's time.
pub record IsFillModel (fills : SimulatedOrder → Observation → Result ResearchError Fill)
    : Type 0 where
  pub answers :
      (q : SimulatedOrder) (o : Observation) {f : Fill}
      → fills q o ≡ ok f
      → (f.side ≡ q.side) × (f.quantity ≡ q.quantity)
  pub timed :
      (q : SimulatedOrder) (o : Observation) {f : Fill}
      → fills q o ≡ ok f
      → (f.order_time ≡ q.order_time) × (f.fill_time ≡ o.exchange_time)

-- An order that waits for an instrument and what is held of it.
abbrev pub Waits : PendingOrder → Option Position → Type 0
Waits q held =
    ((q.leaves ≡ false) × (held ≡ none))
    ⊎ ((p : Position) × (q.leaves ≡ true)
        × (held ≡ some p)
        × (same_side p.side q.order.side ≡ false))

pub record IsCoherent (e : Parts) (s : RunState) : Type 0 where
  pub waiting :
      (id : ℕ) (q : PendingOrder)
      → find_at id s.pending ≡ some q
      → Waits q (find_at id s.positions) × (q.order.quantity ≡ e.quantity)
  pub held : (id : ℕ) (p : Position) → find_at id s.positions ≡ some p → p.quantity ≡ e.quantity

pub other_key : (i j : ℕ) → (i == j) ≡ true → i ≡ j
other_key i j h = ground (arith, h)

-- A state whose orders and positions of one instrument changed.
changed :
    (e : Parts) (at : ℕ) (s t : RunState)
    → IsCoherent e s
    → ((i : ℕ) → (i == at) ≡ false → find_at i t.pending ≡ find_at i s.pending)
    → ((i : ℕ) → (i == at) ≡ false → find_at i t.positions ≡ find_at i s.positions)
    → ((q : PendingOrder)
        → find_at at t.pending ≡ some q
        → Waits q (find_at at t.positions) × (q.order.quantity ≡ e.quantity))
    → ((p : Position) → find_at at t.positions ≡ some p → p.quantity ≡ e.quantity)
    → IsCoherent e t
changed e at s t c pend posn here_q here_p = record {
  waiting = λ id q h. elim (Bool-cases (id == at)) [
    | inl same ↦
        subst (λ i. Waits q (find_at i t.positions) × (q.order.quantity ≡ e.quantity))
          (sym (other_key id at same))
          (here_q q (subst (λ i. find_at i t.pending ≡ some q) (other_key id at same) h))
    | inr away ↦
        subst (λ x. Waits q x × (q.order.quantity ≡ e.quantity)) (sym (posn id away))
          (c.waiting id q (sym (pend id away) ∙ h))
  ];
  held = λ id p h. elim (Bool-cases (id == at)) [
    | inl same ↦ here_p p (subst (λ i. find_at i t.positions ≡ some p) (other_key id at same) h)
    | inr away ↦ c.held id p (sym (posn id away) ∙ h)
  ];
}

some_injective : {A : Type 0} {a b : A} → some a ≡ some b → a ≡ b
some_injective h = cc

pub none-neq-some : {A : Type 0} {C : Type 0} {a : A} → none ≡ some a → C
none-neq-some h = cc

pub gone :
    {V : Type 0} {C : Type 0} (at : ℕ) (m : List (ℕ × V)) {v : V}
    → find_at at (erase_at at m) ≡ some v
    → C
gone at m h = none-neq-some (sym (find-erase_same at m) ∙ h)

pub written :
    {V : Type 0} (at : ℕ) (v : V) (m : List (ℕ × V)) {w : V}
    → find_at at (put_at at v m) ≡ some w
    → v ≡ w
written at v m h = some_injective (sym (find-put_same at v m) ∙ h)

Settled-IsCoherent :
    (e : Parts) (o : Observation) (s : RunState) (t : RunState)
    → IsFillModel e.fills
    → IsCoherent e s
    → Settled e o s t
    → IsCoherent e t
Settled-IsCoherent e o s t law c waits = c
Settled-IsCoherent e o s t law c (drops q r found) =
    changed e o.instrument_id s t c (λ i h. find-erase_other i o.instrument_id s.pending h)
      (λ i h. refl) (λ q h. gone o.instrument_id s.pending h) (λ p h. c.held o.instrument_id p h)
Settled-IsCoherent e o s t law c (enters q f costs total cash found later filled stays free) =
    let at = o.instrument_id in
    let new = opened e.strategy_version at f costs in
    let same = (law.answers q.order o filled).1 ∙ (c.waiting at q found).1 in
    changed e at s t c (λ i h. find-erase_other i at s.pending h)
      (λ i h. find-put_other i at new s.positions h) (λ q h. gone at s.pending h)
      (λ p h. subst (λ p. p.quantity ≡ e.quantity) (written at new s.positions h) same)
Settled-IsCoherent e o s t law c
      (leaves q f costs total cash p trade realized found later filled goes held closes pays) =
    let at = o.instrument_id in
    changed e at s t c (λ i h. find-erase_other i at s.pending h)
      (λ i h. find-erase_other i at s.positions h) (λ q h. gone at s.pending h)
      (λ p h. gone at s.positions h)

leaving_side : (a : Side) → same_side a (if same_side a buy then sell else buy) ≡ false
leaving_side buy = refl
leaving_side sell = refl
leaving_side other = refl

-- The order that a decision queues suits what is held.
decision_side-Waits :
    (e : Parts) (d : Decision) (kind : DecisionKind) (held : Option Position) (side : Side)
    (goes : Bool)
    → decision_side kind held ≡ ok (side, goes)
    → Waits (record { order = new_order e d side; leaves = goes }) held
unfolding decision_side new_order
decision_side-Waits e d long none side goes h = inl (ap (λ x. x.1) (sym (ok_injective h)), refl)
decision_side-Waits e d short none side goes h = inl (ap (λ x. x.1) (sym (ok_injective h)), refl)
decision_side-Waits e d exit (some p) side goes h =
    let same = ok_injective h in
    inr (
      p,
      ap (λ x. x.1) (sym same),
      refl,
      subst (λ x. same_side p.side x.0 ≡ false) same (leaving_side p.side),
    )
decision_side-Waits e d no_action none side goes h = err-neq-ok h
decision_side-Waits e d no_action (some p) side goes h = err-neq-ok h
decision_side-Waits e d long (some p) side goes h = err-neq-ok h
decision_side-Waits e d short (some p) side goes h = err-neq-ok h
decision_side-Waits e d exit none side goes h = err-neq-ok h
decision_side-Waits e d other_decision none side goes h = err-neq-ok h
decision_side-Waits e d other_decision (some p) side goes h = err-neq-ok h

quantity_of : (e : Parts) (d : Decision) (side : Side) → (new_order e d side).quantity ≡ e.quantity
unfolding new_order
quantity_of e d side = refl

Decided-IsCoherent :
    (e : Parts) (id : ℕ) (d : Decision) (s : RunState) (t : RunState)
    → IsCoherent e s
    → Decided e id d s t
    → IsCoherent e t
Decided-IsCoherent e id d s t c idles = c
Decided-IsCoherent e id d s t c (queues side goes free chosen) =
    let new : PendingOrder = record { order = new_order e d side; leaves = goes } in
    let suits = decision_side-Waits e d d.kind (find_at id s.positions) side goes chosen in
    changed e id s t c (λ i h. find-put_other i id new s.pending h) (λ i h. refl)
      (λ q h.
        subst (λ q. Waits q (find_at id s.positions) × (q.order.quantity ≡ e.quantity))
          (written id new s.pending h) (suits, quantity_of e d side))
      (λ p h. c.held id p h)

pub Round-IsCoherent :
    (e : Parts) (o : Observation) (s t : RunState)
    → IsFillModel e.fills
    → IsCoherent e s
    → Round e o s t
    → IsCoherent e t
Round-IsCoherent e o s t law c r =
    let c0 : IsCoherent e (record s { last_price = put_at o.instrument_id o.price s.last_price }) =
      record { waiting = c.waiting; held = c.held } in
    let c1 = Settled-IsCoherent e o _ r.settled law c0 r.settles in
    let c2 : IsCoherent e (observed o r.settled) = record {
      waiting = c1.waiting;
      held = c1.held;
    } in
    let c3 = Decided-IsCoherent e o.instrument_id r.decision _ r.decided c2 r.decides in
    subst (IsCoherent e) r.ends (record { waiting = c3.waiting; held = c3.held })
