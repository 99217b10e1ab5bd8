-- ===== src/Research/Backtest/Exits.antt =====
-- The states that the loop of `Run` in internal/research/backtest/engine.go reaches, and the fills of
-- the orders that wait in them.
use tradeedge.Prelude.{
  eqb_ℤ-refl, find_at, ok, >>=-eq-ok, ok_injective, ℕ, ◌≡◌, refl, sym, ap, subst, ◌∙◌, ◌⊎◌, inl,
  inr, true, false, none, some, List, [], ◌∷◌,
}
use tradeedge.Research.Backtest.Decisions.{step-Round}
use tradeedge.Research.Backtest.Coherent.{IsFillModel, IsCoherent, none-neq-some, Round-IsCoherent}
use tradeedge.Research.Backtest.Rounds.{step, rounds, initial}
use tradeedge.Research.Backtest.Engine.{Parts, PendingOrder, RunState, closable}
use tradeedge.Research.Backtest.{Fill, Position}
use tradeedge.Domain.{same_side}
use tradeedge.Research.Observation.{Observation}

pub rounds-IsCoherent :
    (e : Parts) (os : List Observation) (s : RunState) {t : RunState}
    → IsFillModel e.fills
    → IsCoherent e s
    → rounds e os s ≡ ok t
    → IsCoherent e t
unfolding rounds
rounds-IsCoherent e [] s law c h = subst (IsCoherent e) (ok_injective h) c
rounds-IsCoherent e (o ∷ os) s law c h =
    let (u, eu, k) = >>=-eq-ok (step e o s) _ h in
    rounds-IsCoherent e os u law (Round-IsCoherent e o s u law c (step-Round e o s eu)) k

pub initial-IsCoherent : (e : Parts) → IsCoherent e (initial e)
unfolding initial
initial-IsCoherent e = record {
  waiting = λ id q h. none-neq-some h;
  held = λ id p h. none-neq-some h;
}

fits :
    (p : Position) (f : Fill)
    → p.quantity ≡ f.quantity
    → same_side p.side f.side ≡ false
    → closable (some p) f ≡ ok p
unfolding closable
fits p f amount apart = rw (sym amount, eqb_ℤ-refl p.quantity, apart) refl

-- In every state that `Run` reaches, a fill of a waiting order suits what is held: an exit finds the
-- position that it closes, and an entry finds none.
pub no_underflow :
    (e : Parts) (os : List Observation) {s : RunState} (id : ℕ) (q : PendingOrder) (o : Observation)
    {f : Fill}
    → IsFillModel e.fills
    → rounds e os (initial e) ≡ ok s
    → find_at id s.pending ≡ some q
    → e.fills q.order o ≡ ok f
    → ((q.leaves ≡ false) × (find_at id s.positions ≡ none))
      ⊎ ((p : Position) × (q.leaves ≡ true) × (closable (find_at id s.positions) f ≡ ok p))
no_underflow e os {s} id q o {f} law reached found filled =
    let c = rounds-IsCoherent e os (initial e) law (initial-IsCoherent e) reached in
    let (suits, amount) = c.waiting id q found in
    let (side, filled_amount) = law.answers q.order o filled in
    elim suits [
      | inl first ↦ inl first
      | inr (p, goes, held, apart) ↦
          let same = c.held id p held ∙ sym (filled_amount ∙ amount) in
          inr (
            p,
            goes,
            ap (λ x. closable x f) held
                ∙ fits p f same (subst (λ x. same_side p.side x ≡ false) (sym side) apart),
          )
    ]
