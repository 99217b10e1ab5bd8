-- ===== src/Execution/Order/Moves/Tables.antt =====
-- The tables `legalTransition`, `staleTransition` and `reportTarget` of
-- internal/execution/model/order.go agree with the phases of an order.
use tradeedge.Prelude.{
  ◌↔◌, sym, ◌⊎◌, leb, some, false, ◌≤◌, subst, refl, ◌&&◌, Bool-cases, inl, inr, ltb, ok, ◌≡◌, true,
  ◌+◌, arith,
}
use tradeedge.Execution.State.{
  OrderState, ReportType, rank, report_target, legal_transition, stale_transition,
}
use tradeedge.Execution.Order.{next_state}
use native.Mathlib.Nat
use tradeedge.Execution.Order.Moves.{
  IsEnded, Precedes, HasReached, Announces, Moves, phases, announcements, moves, new_unsent,
  sending_open, cancelled_ended, rejected_ended, expired_ended, failed_ended, submitted_working,
  open_fillable, before_planned, before_sending, before_submitted, before_acknowledged,
  before_partly, before_cancelling, before_ended, among_ended, before_filled, at, past,
  tells_planned, tells_sending, tells_submitted, tells_acknowledged, tells_cancelling,
  tells_cancelled, tells_rejected, tells_expired, tells_failed, fill_part, fill_whole, ask_cancel,
  reject, expire, fail, lose, late,
}

reached_ended : (s m : OrderState) → IsEnded m → leb 8 (rank s) ≡ true → HasReached m s
reached_ended OrderState.cancelled m e h = past (among_ended e cancelled_ended) at
reached_ended OrderState.rejected m e h = past (among_ended e rejected_ended) at
reached_ended OrderState.expired m e h = past (among_ended e expired_ended) at
reached_ended OrderState.failed m e h = past (among_ended e failed_ended) at
reached_ended OrderState.filled m e h = past (before_filled e) at
reached_ended _ m e h = cc

same_stage :
    (m s : OrderState)
    → (ltb 0 (rank m) && ltb (rank m) 8) ≡ true
    → leb (rank m) (rank s) ≡ true
    → leb (rank m + 1) (rank s) ≡ false
    → m ≡ s
same_stage m s early h k = ground arith

-- Who has not reached the next stage is at this one.
module _ (s : OrderState) where
  reached_from :
      {m n : OrderState}
      → Precedes m n
      → (ltb 0 (rank m) && ltb (rank m) 8) ≡ true
      → (leb (rank m + 1) (rank s) ≡ true → HasReached n s)
      → leb (rank m) (rank s) ≡ true
      → HasReached m s
  reached_from {m} p early further h = elim (Bool-cases (leb (rank m + 1) (rank s))) [
    | inl more ↦ past p (further more)
    | inr less ↦ subst (HasReached m) (same_stage m s early h less) at
  ]

  reached_cancelling : leb 7 (rank s) ≡ true → HasReached OrderState.cancel_pending s
  reached_cancelling =
      reached_from (before_ended cancelled_ended) refl
        (reached_ended s OrderState.cancelled cancelled_ended)

  reached_partly : leb 6 (rank s) ≡ true → HasReached OrderState.partially_filled s
  reached_partly = reached_from before_cancelling refl reached_cancelling

  reached_acknowledged : leb 5 (rank s) ≡ true → HasReached OrderState.acknowledged s
  reached_acknowledged = reached_from before_partly refl reached_partly

  reached_submitted : leb 4 (rank s) ≡ true → HasReached OrderState.submitted s
  reached_submitted = reached_from before_acknowledged refl reached_acknowledged

  reached_sending : leb 3 (rank s) ≡ true → HasReached OrderState.submission_pending s
  reached_sending = reached_from before_submitted refl reached_submitted

  reached_planned : leb 2 (rank s) ≡ true → HasReached OrderState.planned s
  reached_planned = reached_from before_sending refl reached_sending

ended_rank : {s : OrderState} → IsEnded s → rank s ≡ 8
ended_rank cancelled_ended = refl
ended_rank rejected_ended = refl
ended_rank expired_ended = refl
ended_rank failed_ended = refl

-- A stage that the order has reached is not above it in the table.
Precedes-rank : {s t : OrderState} → Precedes s t → rank s ≤ rank t
Precedes-rank before_planned = omega arith
Precedes-rank before_sending = omega arith
Precedes-rank before_submitted = omega arith
Precedes-rank before_acknowledged = omega arith
Precedes-rank before_partly = omega arith
Precedes-rank before_cancelling = omega arith
Precedes-rank (before_ended e) = ground (arith, ended_rank e)
Precedes-rank (among_ended e f) = ground (arith, ended_rank e, ended_rank f)
Precedes-rank (before_filled e) = ground (arith, ended_rank e)

HasReached-rank : {s t : OrderState} → HasReached s t → rank s ≤ rank t
HasReached-rank at = omega arith
HasReached-rank (past p r) = Nat.le_trans (Precedes-rank p) (HasReached-rank r)

next_state-cases :
    (from to : OrderState) {s : OrderState}
    → next_state from to ≡ ok s
    → ((s ≡ to) × (legal_transition from to ≡ true))
      ⊎ ((s ≡ from) × (stale_transition from to ≡ true))
unfolding next_state
next_state-cases from to h = ground arith

stale_reached :
    (s m : OrderState)
    → (leb (rank m) (rank s) ≡ true → HasReached m s)
    → stale_transition s m ≡ true
    → HasReached m s
unfolding stale_transition
stale_reached s m r h = ground (arith, r)

legal_Moves :
    (kind : ReportType) (s : OrderState) {t : OrderState}
    → report_target kind ≡ some t
    → legal_transition s t ≡ true
    → Moves kind s t
unfolding report_target legal_transition
legal_Moves kind s e h = grind (arith, moves, phases)

stale-Announces :
    (kind : ReportType) (s : OrderState) {m : OrderState}
    → report_target kind ≡ some m
    → stale_transition s m ≡ true
    → Announces kind m
unfolding report_target stale_transition
stale-Announces kind s e h = grind (arith, announcements)

Announces-report_target :
    {kind : ReportType} {m : OrderState} → Announces kind m → report_target kind ≡ some m
unfolding report_target
Announces-report_target tells_planned = refl
Announces-report_target _ = refl

rank-HasReached :
    {kind : ReportType} {m : OrderState} (s : OrderState)
    → Announces kind m
    → leb (rank m) (rank s) ≡ true
    → HasReached m s
rank-HasReached s tells_planned h = reached_planned s h
rank-HasReached s tells_sending h = reached_sending s h
rank-HasReached s tells_submitted h = reached_submitted s h
rank-HasReached s tells_acknowledged h = reached_acknowledged s h
rank-HasReached s tells_cancelling h = reached_cancelling s h
rank-HasReached s tells_cancelled h = reached_ended s OrderState.cancelled cancelled_ended h
rank-HasReached s tells_rejected h = reached_ended s OrderState.rejected rejected_ended h
rank-HasReached s tells_expired h = reached_ended s OrderState.expired expired_ended h
rank-HasReached s tells_failed h = reached_ended s OrderState.failed failed_ended h

-- What a report of a stage that is reached does to the state: nothing.
reached-next_state :
    {kind : ReportType} {m : OrderState} (s : OrderState)
    → Announces kind m
    → rank m ≤ rank s
    → next_state s m ≡ ok s
unfolding next_state legal_transition stale_transition
reached-next_state s tells_planned h = ground arith
reached-next_state s _ h = ground arith

-- What the code makes of a type and a state: the target of the type, and the state entered.
abbrev pub Enters : ReportType → OrderState → OrderState → Type 0
Enters kind s t =
    (target : OrderState) × (report_target kind ≡ some target) × (next_state s target ≡ ok t)

Moves-Enters : {kind : ReportType} {s t : OrderState} → Moves kind s t → Enters kind s t
unfolding report_target next_state legal_transition stale_transition
Moves-Enters (late {s = s} a r) =
    (_, Announces-report_target a, reached-next_state s a (HasReached-rank r))
Moves-Enters (fill_part (open_fillable sending_open)) = (_, refl, refl)
Moves-Enters (fill_whole (open_fillable sending_open)) = (_, refl, refl)
Moves-Enters (ask_cancel submitted_working) = (_, refl, refl)
Moves-Enters (reject sending_open) = (_, refl, refl)
Moves-Enters (expire new_unsent) = (_, refl, refl)
Moves-Enters (fail new_unsent) = (_, refl, refl)
Moves-Enters (lose sending_open) = (_, refl, refl)
Moves-Enters _ = (_, refl, refl)

Enters-Moves :
    (kind : ReportType) (s : OrderState) {t : OrderState} → Enters kind s t → Moves kind s t
Enters-Moves kind s {t} (m, told, h) = elim (next_state-cases s m h) [
  | inl (same, legal) ↦ subst (Moves kind s) (sym same) (legal_Moves kind s told legal)
  | inr (same, stale) ↦
      let a = stale-Announces kind s told stale in
      let moved = late a (stale_reached s m (rank-HasReached s a) stale) in
      subst (Moves kind s) (sym same) moved
]

-- A report's type leads from a state to another in the code (the type's target is a legal one, or one
-- that the state has passed) exactly when the phases of an order allow that move.
pub tables_agree : (kind : ReportType) (s t : OrderState) → Enters kind s t ↔ Moves kind s t
tables_agree kind s t = (Enters-Moves kind s, Moves-Enters)

pub entered_once :
    (kind : ReportType) (s : OrderState) {t u : OrderState}
    → Enters kind s t
    → Enters kind s u
    → t ≡ u
entered_once kind s (m, e, h) (n, f, k) = cc
