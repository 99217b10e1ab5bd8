-- ===== src/Portfolio/Bounded.antt =====
-- The capital that `Evaluate` of internal/portfolio/allocation/engine.go approves stays within every
-- bound.
use native.Mathlib.Nat
use tradeedge.Prelude.{
  ℤ, pos, negsuc, ◌+ℤ◌, ◌*ℤ◌, ◌-ℤ◌, IsInt64-of_bounds, ◌≤ℤ◌, ◌<ℤ◌, leb_ℤ, int_laws, half_range,
  max_int64, wrap64, wrap64_of_IsInt64, wrap64-IsInt64, IsInt64_bounds, quo, pos_times, ok,
  reject_if-eq-ok, >>=-eq-ok, ok_injective, >>=-then, ℕ, zero, suc, ◌+◌, ◌*◌, ◌/◌, ◌≤◌, ◌<◌, ◌≡◌,
  refl, sym, ap, subst, ◌∙◌, false, arith,
}
use tradeedge.Portfolio.Exact.Package.{TotalCost, package_cost-TotalCost_whole}
use tradeedge.Portfolio.Exact.{
  IsShare, IsLeft, IsSound, checked_mul-IsProduct, product_value, requested-IsShare,
  available_after_reserve-IsLeft, checked_mul-value,
}
use tradeedge.Portfolio.Least.{≤ℤ_trans, IsLeast, lower-IsLeast}
use tradeedge.Portfolio.{
  allocation_failed, checked_mul, AllocationInput, requested, available_after_reserve, lower, caps,
  package_cost, Approval, approve, evaluate_capital,
}

-- A positive number.
positive : (a : ℤ) → leb_ℤ a (pos 0) ≡ false → (n : ℕ) × (a ≡ pos (suc n))
positive (pos zero) h = ground (arith, h)
positive (pos (suc n)) h = (n, refl)
positive (negsuc n) h = ground (arith, h)

-- What an approval is, of the amount asked for and the bound.
pub record IsApproved (asked bound : ℤ) (a : Approval) : Type 0 where
  pub positive_capital : pos 0 <ℤ a.approved_minor
  pub within : a.approved_minor ≤ℤ bound
  pub maximal : bound <ℤ a.approved_minor +ℤ a.cost
  pub whole_packages : a.approved_minor ≡ a.cost *ℤ a.packages
  pub recorded : a.requested_minor ≡ asked
  pub rest_left : a.remainder_minor ≡ asked -ℤ a.approved_minor

-- The whole packages that a bound holds.
abbrev capital_of : ℕ → ℕ → ℤ
capital_of b c = pos (suc c * (suc b / suc c))

whole_packages :
    (b c : ℕ) {v : ℤ}
    → suc b < half_range
    → checked_mul (pos (suc c)) (wrap64 (quo (pos (suc b)) (pos (suc c)))) ≡ ok v
    → v ≡ capital_of b c
whole_packages b c {v} fits h =
    let small = Nat.lt_of_le_of_lt (Nat.div-le_self (suc b) (suc c)) fits in
    let product = Nat.lt_of_le_of_lt (Nat.mul-div-le (suc b) (suc c)) fits in
    let (_, k) = checked_mul-value (pos (suc c)) (pos (suc b / suc c)) (
      subst (λ x. checked_mul (pos (suc c)) x ≡ ok v)
        (wrap64_of_IsInt64 (pos (suc b / suc c)) small) h) in
    k ∙ ap wrap64 (pos_times (suc c) (suc b / suc c)) ∙ wrap64_of_IsInt64 (capital_of b c) product

packages_lem :
    (b c q : ℕ)
    → leb_ℤ (pos q) (pos 0) ≡ false
    → suc c * q ≤ suc b
    → suc b < suc c * (q + 1)
    → (pos 0 <ℤ pos (suc c * q))
      × (pos (suc c * q) ≤ℤ pos (suc b))
      × (pos (suc b) <ℤ pos (suc c * q) +ℤ pos (suc c))
packages_lem b c q h le lt =
    let some_package : 0 < q = ground (arith, h) in (omega arith, omega arith, omega int_laws)

no_bound : (a : ℤ) → leb_ℤ a (pos 0) ≡ false → pos 0 <ℤ a
no_bound a h = ground (arith, h)

within_lem :
    (bound cost : ℤ) {v : ℤ}
    → bound ≤ℤ max_int64
    → leb_ℤ bound (pos 0) ≡ false
    → leb_ℤ cost (pos 0) ≡ false
    → leb_ℤ (wrap64 (quo bound cost)) (pos 0) ≡ false
    → checked_mul cost (wrap64 (quo bound cost)) ≡ ok v
    → (pos 0 <ℤ v) × (v ≤ℤ bound) × (bound <ℤ v +ℤ cost)
within_lem (pos zero) cost small g1 g2 g3 h = ground (arith, g1)
within_lem (negsuc b) cost small g1 g2 g3 h = ground (arith, g1)
within_lem (pos (suc b)) (pos zero) small g1 g2 g3 h = ground (arith, g2)
within_lem (pos (suc b)) (negsuc c) small g1 g2 g3 h = ground (arith, g2)
within_lem (pos (suc b)) (pos (suc c)) {v} small g1 g2 g3 h =
    let fits : suc b < half_range = omega arith in
    let one_fits = Nat.lt_of_le_of_lt (Nat.div-le_self (suc b) (suc c)) fits in
    let some_package =
      subst (λ x. leb_ℤ x (pos 0) ≡ false) (wrap64_of_IsInt64 (pos (suc b / suc c)) one_fits) g3 in
    let (p, q, r) =
      packages_lem b c (suc b / suc c) some_package (Nat.mul-div-le (suc b) (suc c))
        (Nat.lt-mul-div-succ (suc b) {b = suc c} (omega arith)) in
    let same = sym (whole_packages b c fits h) in
    (
      subst (λ x. pos 0 <ℤ x) same p,
      subst (λ x. x ≤ℤ pos (suc b)) same q,
      subst (λ x. pos (suc b) <ℤ x +ℤ pos (suc c)) same r,
    )

remainder_exact :
    (asked v : ℤ) → pos 0 <ℤ v → v ≤ℤ asked → asked ≤ℤ max_int64 → wrap64 (asked -ℤ v) ≡ asked -ℤ v
remainder_exact asked v p q r =
    wrap64_of_IsInt64 (asked -ℤ v)
      (IsInt64-of_bounds (asked -ℤ v) (omega int_laws) (omega int_laws))

approve-IsApproved :
    (i : AllocationInput) (asked bound : ℤ) {a : Approval}
    → bound ≤ℤ asked
    → asked ≤ℤ max_int64
    → approve i asked bound ≡ ok a
    → IsApproved asked bound a × TotalCost i i.legs a.cost
unfolding approve
approve-IsApproved i asked bound {a} below small h =
    let (g1, k1) = reject_if-eq-ok (leb_ℤ bound (pos 0)) allocation_failed _ h in
    >>=-then (package_cost i (pos 0) i.legs) _ k1 λ cost ec k2.
      let (g2, k3) = reject_if-eq-ok (leb_ℤ cost (pos 0)) allocation_failed _ k2 in
      let (g3, k4) =
        reject_if-eq-ok (leb_ℤ (wrap64 (quo bound cost)) (pos 0)) allocation_failed _ k3 in
      >>=-then (checked_mul cost (wrap64 (quo bound cost))) _ k4 λ v ev k5.
        let fits = ≤ℤ_trans bound asked max_int64 below small in
        let (p, q, r) = within_lem bound cost fits g1 g2 g3 ev in
        subst (λ a. IsApproved asked bound a × TotalCost i i.legs a.cost) (ok_injective k5)
          (
            record {
              positive_capital = p;
              within = q;
              maximal = r;
              whole_packages =
                  product_value (checked_mul-IsProduct cost (wrap64 (quo bound cost)) ev);
              recorded = refl;
              rest_left = remainder_exact asked v p (≤ℤ_trans v bound asked q below) small;
            },
            package_cost-TotalCost_whole i ec,
          )

requested-small : (i : AllocationInput) {v : ℤ} → requested i ≡ ok v → v ≤ℤ max_int64
unfolding requested
requested-small i h =
    let (p, _, k) = >>=-eq-ok (checked_mul i.limits.strategy_limit i.sizing_bps) _ h in
    let word = wrap64-IsInt64 (quo p (pos 10000)) in
    subst (λ v. v ≤ℤ max_int64) (ok_injective k) (IsInt64_bounds _ word).1

-- Of limits whose reserves are ratios and whose available capital is no debt, the capital that `Evaluate`
-- approves is above zero, whole packages, and within the least of the amount asked for, what remains to
-- the strategy, what the reserves leave of the available capital, and the maxima of the policy; one
-- more package would exceed that least amount. The amount asked for is the exact share that the sizing
-- takes of the strategy's limit, the reserves are their exact share of the total capital, and the cost
-- of a package is the exact sum over all its legs of the price of the units in their lots.
pub evaluate_capital-IsApproved :
    (i : AllocationInput) {a : Approval}
    → IsSound i.limits
    → evaluate_capital i ≡ ok a
    → (asked : ℤ) × (free : ℤ) × (bound : ℤ) × IsShare i.limits.strategy_limit i.sizing_bps asked
      × IsLeft i.limits free
      × IsLeast i.limits asked free bound
      × IsApproved asked bound a
      × TotalCost i i.legs a.cost
unfolding evaluate_capital
evaluate_capital-IsApproved i {a} sound h =
    let (_, k0) = reject_if-eq-ok i.is_refused allocation_failed _ h in
    >>=-then (requested i) _ k0 λ asked ea k1.
      >>=-then (available_after_reserve i.limits) _ k1 λ free ef k2.
        let bound = lower asked (caps i.limits free) in
        let least = lower-IsLeast i.limits asked free in
        let (done, priced) =
          approve-IsApproved i asked bound least.asked_for (requested-small i ea) k2 in
        (
          asked,
          free,
          bound,
          requested-IsShare i ea,
          available_after_reserve-IsLeft i.limits sound ef,
          least,
          done,
          priced,
        )
