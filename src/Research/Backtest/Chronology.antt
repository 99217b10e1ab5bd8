-- ===== src/Research/Backtest/Chronology.antt =====
-- What `Run` of internal/research/backtest/engine.go records, and that later observations change
-- nothing of it.
use mathlib.Core.List.{append-nil, append_assoc}
use tradeedge.Prelude.{
  ℤ, Result, err, ok, ◌>>=◌, >>=-eq-ok, ok_injective, ℕ, ◌≡◌, refl, sym, ap, subst, ◌∙◌, List, [],
  ◌∷◌, ◌++◌,
}
use tradeedge.Research.{ResearchError}
use tradeedge.Research.Backtest.Steps.{Settled, waits, drops, enters, leaves}
use tradeedge.Research.Backtest.Decisions.{Decided, idles, queues, Round, step-Round}
use tradeedge.Research.Backtest.Rounds.{step, rounds, initial}
use tradeedge.Research.Backtest.Engine.{Parts, RunState}
use tradeedge.Research.Backtest.{Decision, Trade, RejectedFill}
use tradeedge.Research.Observation.{Observation}

-- `t` keeps what `s` recorded and adds to it.
pub record Extends (s t : RunState) : Type 0 where
  pub more_trades : (more : List Trade) × (t.trades ≡ s.trades ++ more)
  pub more_rejected : (more : List RejectedFill) × (t.rejected_fills ≡ s.rejected_fills ++ more)
  pub more_curve : (more : List ℤ) × (t.equity_curve ≡ s.equity_curve ++ more)

more_trans :
    {A : Type 0} (xs : List A) {ys zs : List A}
    → ((more : List A) × (ys ≡ xs ++ more))
    → ((more : List A) × (zs ≡ ys ++ more))
    → (more : List A) × (zs ≡ xs ++ more)
more_trans xs (a, p) (b, q) = (a ++ b, q ∙ ap (λ l. l ++ b) p ∙ append_assoc xs a b)

pub Extends-trans : (s t u : RunState) → Extends s t → Extends t u → Extends s u
Extends-trans s t u a b = record {
  more_trades = more_trans s.trades a.more_trades b.more_trades;
  more_rejected = more_trans s.rejected_fills a.more_rejected b.more_rejected;
  more_curve = more_trans s.equity_curve a.more_curve b.more_curve;
}

-- Equal records extend each other.
same_records :
    (s t : RunState)
    → t.trades ≡ s.trades
    → t.rejected_fills ≡ s.rejected_fills
    → t.equity_curve ≡ s.equity_curve
    → Extends s t
same_records s t a b c = record {
  more_trades = ([], a ∙ sym (append-nil s.trades));
  more_rejected = ([], b ∙ sym (append-nil s.rejected_fills));
  more_curve = ([], c ∙ sym (append-nil s.equity_curve));
}

Settled-Extends : (e : Parts) (o : Observation) (s t : RunState) → Settled e o s t → Extends s t
Settled-Extends e o s t waits = same_records s s refl refl refl
Settled-Extends e o s t (drops q r found) = record {
  more_trades = ([], sym (append-nil s.trades));
  more_rejected = (r, refl);
  more_curve = ([], sym (append-nil s.equity_curve));
}
Settled-Extends e o s t (enters q f costs total cash found later filled stays free) =
    same_records s t refl refl refl
Settled-Extends e o s t
      (leaves q f costs total cash p trade realized found later filled goes held closes pays) =
    record {
      more_trades = (trade ∷ [], refl);
      more_rejected = ([], sym (append-nil s.rejected_fills));
      more_curve = ([], sym (append-nil s.equity_curve));
    }

Decided-Extends :
    (e : Parts) (id : ℕ) (d : Decision) (s t : RunState) → Decided e id d s t → Extends s t
Decided-Extends e id d s t idles = same_records s s refl refl refl
Decided-Extends e id d s t (queues side goes free chosen) = same_records s t refl refl refl

Round-Extends : (e : Parts) (o : Observation) (s t : RunState) → Round e o s t → Extends s t
Round-Extends e o s t r =
    let a = Settled-Extends e o _ r.settled r.settles in
    let b = Decided-Extends e o.instrument_id r.decision _ r.decided r.decides in
    subst (Extends s) r.ends (record {
      more_trades = more_trans s.trades a.more_trades b.more_trades;
      more_rejected = more_trans s.rejected_fills a.more_rejected b.more_rejected;
      more_curve =
          more_trans s.equity_curve (more_trans s.equity_curve a.more_curve b.more_curve)
            (r.equity ∷ [], refl);
    })

rounds-Extends :
    (e : Parts) (os : List Observation) (s : RunState) {t : RunState}
    → rounds e os s ≡ ok t
    → Extends s t
unfolding rounds
rounds-Extends e [] s {t} h = subst (Extends s) (ok_injective h) (same_records s s refl refl refl)
rounds-Extends e (o ∷ os) s {t} h =
    let (u, eu, k) = >>=-eq-ok (step e o s) _ h in
    Extends-trans s u t (Round-Extends e o s u (step-Round e o s eu)) (rounds-Extends e os u k)

-- The loop over the first observations, then over the rest.
rounds-append :
    (e : Parts) (xs ys : List Observation) (s : RunState)
    → rounds e (xs ++ ys) s ≡ (rounds e xs s >>= rounds e ys)
unfolding rounds
rounds-append e [] ys s = refl
rounds-append e (x ∷ xs) ys s = after (step e x s) (rounds-append e xs ys)
  where
    after :
        (r : Result ResearchError RunState)
        → ((t : RunState) → rounds e (xs ++ ys) t ≡ (rounds e xs t >>= rounds e ys))
        → (r >>= rounds e (xs ++ ys)) ≡ ((r >>= rounds e xs) >>= rounds e ys)
    after (err f) each = refl
    after (ok t) each = each t

-- A run over more observations is the run over the first ones, continued: every trade, rejected fill
-- and mark of equity that the first observations give stands unchanged, in its place, whatever
-- follows.
pub no_look_ahead :
    (e : Parts) (xs ys : List Observation) {t : RunState}
    → rounds e (xs ++ ys) (initial e) ≡ ok t
    → (s : RunState) × (rounds e xs (initial e) ≡ ok s) × Extends s t
no_look_ahead e xs ys {t} h =
    let (s, es, k) =
      >>=-eq-ok (rounds e xs (initial e)) (rounds e ys)
        (sym (rounds-append e xs ys (initial e)) ∙ h) in
    (s, es, rounds-Extends e ys s k)
