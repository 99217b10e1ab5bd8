-- ===== src/Portfolio/Least.antt =====
-- The loop over the caps in `Evaluate` of internal/portfolio/allocation/engine.go finds the least amount.
use tradeedge.Prelude.{
  ◌⊎◌, Bool-cases, ℤ, ◌≤ℤ◌, ltb_ℤ, All, ◌≡◌, refl, subst, inl, inr, List, [], ◌∷◌, arith,
}
use tradeedge.Portfolio.{Limits, lower, caps}

pub ≤ℤ_trans : (a b c : ℤ) → a ≤ℤ b → b ≤ℤ c → a ≤ℤ c
≤ℤ_trans a b c h k = omega arith

-- `r` is below a bound and every value.
abbrev IsBelow : ℤ → ℤ → List ℤ → Type 0
IsBelow r bound vs = (r ≤ℤ bound) × All (λ v. r ≤ℤ v) vs

lower-IsBelow : (bound : ℤ) (vs : List ℤ) → IsBelow (lower bound vs) bound vs
unfolding lower
lower-IsBelow bound [] = (omega arith, tt)
lower-IsBelow bound (v ∷ vs) = elim (Bool-cases (ltb_ℤ v bound)) [
  | inl less ↦
      let (a, b) = lower-IsBelow v vs in
      let v-le : v ≤ℤ bound = ground (arith, less) in
      let same : lower v vs ≡ lower bound (v ∷ vs) = rw (lower, less) refl in
      subst (λ r. IsBelow r bound (v ∷ vs)) same (≤ℤ_trans (lower v vs) v bound a v-le, (a, b))
  | inr more ↦
      let (a, b) = lower-IsBelow bound vs in
      let bound-le : bound ≤ℤ v = ground (arith, more) in
      let same : lower bound vs ≡ lower bound (v ∷ vs) = rw (lower, more) refl in
      subst (λ r. IsBelow r bound (v ∷ vs)) same
        (a, (≤ℤ_trans (lower bound vs) bound v a bound-le, b))
]

-- `v` is one of the values.
abbrev pub Among : ℤ → List ℤ → Type 0
Among v [] = ⊥
Among v (x ∷ xs) = (v ≡ x) ⊎ Among v xs

lower-Among : (bound : ℤ) (vs : List ℤ) → Among (lower bound vs) (bound ∷ vs)
unfolding lower
lower-Among bound [] = inl refl
lower-Among bound (v ∷ vs) = elim (Bool-cases (ltb_ℤ v bound)) [
  | inl less ↦
      let same : lower v vs ≡ lower bound (v ∷ vs) = rw (lower, less) refl in
      inr (subst (λ r. Among r (v ∷ vs)) same (lower-Among v vs))
  | inr more ↦
      let same : lower bound vs ≡ lower bound (v ∷ vs) = rw (lower, more) refl in
      subst (λ r. Among r (bound ∷ v ∷ vs)) same (skip_second bound v vs (lower-Among bound vs))
]
  where
    skip_second :
        (bound v : ℤ) (vs : List ℤ) {r : ℤ} → Among r (bound ∷ vs) → Among r (bound ∷ v ∷ vs)
    skip_second bound v vs (inl e) = inl e
    skip_second bound v vs (inr m) = inr (inr m)

-- The least of the amount asked for, what the reserves leave, what remains to the strategy and the
-- maxima of the policy.
pub record IsLeast (l : Limits) (asked free bound : ℤ) : Type 0 where
  pub asked_for : bound ≤ℤ asked
  pub remaining : bound ≤ℤ l.strategy_remaining
  pub after_reserve : bound ≤ℤ free
  pub of_strategy : bound ≤ℤ l.maximum_strategy
  pub of_instrument : bound ≤ℤ l.maximum_instrument
  pub of_underlying : bound ≤ℤ l.maximum_underlying
  pub of_group : bound ≤ℤ l.maximum_exposure_group
  pub attained : Among bound (
      asked ∷ l.strategy_remaining ∷ free ∷ l.maximum_strategy ∷ l.maximum_instrument
      ∷ l.maximum_underlying ∷ l.maximum_exposure_group ∷ [])

pub lower-IsLeast : (l : Limits) (asked free : ℤ) → IsLeast l asked free (lower asked (caps l free))
lower-IsLeast l asked free =
    let (a, rest) = lower-IsBelow asked (caps l free) in
    record {
      asked_for = a;
      remaining = rest.0;
      after_reserve = rest.1.0;
      of_strategy = rest.1.1.0;
      of_instrument = rest.1.1.1.0;
      of_underlying = rest.1.1.1.1.0;
      of_group = rest.1.1.1.1.1.0;
      attained = lower-Among asked (caps l free);
    }
