-- ===== src/Portfolio/Exact/Package.antt =====
-- The cost of a package of internal/portfolio/allocation/engine.go over integers without bounds, and
-- that `packageCost` is that.
use tradeedge.Prelude.{
  eq_of_parts, IsInt64-of_bounds, ℤ, pos, ◌+ℤ◌, ◌-ℤ◌, ◌*ℤ◌, ◌≤ℤ◌, ltb_ℤ, int_laws, max_int64,
  wrap64, wrap64_of_IsInt64, ok, reject_if-eq-ok, ok_injective, err-neq-ok, >>=-then, text_eq,
  text_eq→eq, ◌≡◌, sym, ap, subst, ◌∙◌, inl, inr, false, not, List, [], ◌∷◌, arith, Option-cases,
  some,
}
use tradeedge.Domain.Instrument.{Instrument}
use tradeedge.Instruments.{find_instrument}
use tradeedge.Portfolio.{
  allocation_failed, arithmetic_overflow, checked_mul, Leg, AllocationInput, leg_cost, package_cost,
}
use tradeedge.Portfolio.Exact.{
  checked_mul-IsProduct, product_value, product_range, difference_exact,
}

-- The price of a leg is that of all the units in its lots, in the currency of the account.
abbrev pub CostsOf : AllocationInput → Leg → ℤ → Type 0
CostsOf i leg cost =
    (x : Instrument) × (find_instrument leg.instrument_id i.instruments ≡ some x)
    × (x.currency ≡ i.base_currency)
    × (cost ≡ leg.reference_price *ℤ (leg.ratio *ℤ x.lot_size))

-- The cost of a package is the sum of the costs of all its legs.
pub data TotalCost (i : AllocationInput) : List Leg → ℤ → Type 0 where
  no_legs : TotalCost i [] (pos 0)
  with_leg :
      {leg : Leg} {legs : List Leg} {cost rest : ℤ}
      → CostsOf i leg cost
      → TotalCost i legs rest
      → TotalCost i (leg ∷ legs) (cost +ℤ rest)

leg_cost-CostsOf :
    (i : AllocationInput) (leg : Leg) {cost : ℤ}
    → leg_cost i leg ≡ ok cost
    → CostsOf i leg cost × (pos 0 ≤ℤ cost) × (cost ≤ℤ max_int64)
unfolding leg_cost
leg_cost-CostsOf i leg {cost} h =
    elim (Option-cases (find_instrument leg.instrument_id i.instruments)) [
      | inl missing ↦ err-neq-ok (rw (leg_cost, missing) at h)
      | inr (x, found) ↦
          let (foreign, k) =
            reject_if-eq-ok (not (text_eq x.currency i.base_currency)) allocation_failed _
              (rw (leg_cost, found) at h) in
          >>=-then (checked_mul leg.ratio x.lot_size) _ k λ units e k1.
            let u = checked_mul-IsProduct leg.ratio x.lot_size e in
            let c = checked_mul-IsProduct leg.reference_price units k1 in
            let (low, top) = product_range c in
            let exact = product_value c ∙ ap (λ n. leg.reference_price *ℤ n) (product_value u) in
            let local = text_eq→eq x.currency i.base_currency (ground (arith, foreign)) in
            ((x, found, local, exact), low, top)
    ]

sum_exact :
    (a b : ℤ)
    → pos 0 ≤ℤ a
    → a ≤ℤ max_int64
    → pos 0 ≤ℤ b
    → b ≤ℤ max_int64
    → ltb_ℤ (wrap64 (max_int64 -ℤ b)) a ≡ false
    → (wrap64 (a +ℤ b) ≡ a +ℤ b) × (pos 0 ≤ℤ a +ℤ b) × (a +ℤ b ≤ℤ max_int64)
sum_exact a b h1 h2 h3 h4 guard =
    let same = difference_exact max_int64 b (omega arith) (omega arith) h3 h4 in
    let le : a ≤ℤ max_int64 -ℤ b = ground (arith, subst (λ x. ltb_ℤ x a ≡ false) same guard) in
    let top : a +ℤ b ≤ℤ max_int64 = omega int_laws in
    let low : pos 0 ≤ℤ a +ℤ b = omega int_laws in
    (wrap64_of_IsInt64 (a +ℤ b) (IsInt64-of_bounds (a +ℤ b) (omega arith) top), low, top)

-- From a total of earlier legs.
package_cost-TotalCost :
    (i : AllocationInput) (total : ℤ) (legs : List Leg) {cost : ℤ}
    → pos 0 ≤ℤ total
    → total ≤ℤ max_int64
    → package_cost i total legs ≡ ok cost
    → (rest : ℤ) × TotalCost i legs rest × (cost ≡ total +ℤ rest)
unfolding package_cost
package_cost-TotalCost i total [] low top h =
    (pos 0, no_legs, sym (ok_injective h) ∙ eq_of_parts total (total +ℤ pos 0) (omega int_laws))
package_cost-TotalCost i total (leg ∷ legs) {cost = whole} low top h =
    >>=-then (leg_cost i leg) _ h λ cost e k.
      let (guard, k1) =
        reject_if-eq-ok (ltb_ℤ (wrap64 (max_int64 -ℤ cost)) total) arithmetic_overflow _ k in
      let (priced, clow, ctop) = leg_cost-CostsOf i leg e in
      let (same, slow, stop) = sum_exact total cost low top clow ctop guard in
      let (rest, sum, value) =
        package_cost-TotalCost i (total +ℤ cost) legs slow stop
          (subst (λ t. package_cost i t legs ≡ ok whole) same k1) in
      (
        cost +ℤ rest,
        with_leg priced sum,
        value ∙ eq_of_parts (total +ℤ cost +ℤ rest) (total +ℤ (cost +ℤ rest)) (omega int_laws),
      )

-- The cost of a package is the sum of what its legs cost, all of them.
pub package_cost-TotalCost_whole :
    (i : AllocationInput) {cost : ℤ}
    → package_cost i (pos 0) i.legs ≡ ok cost
    → TotalCost i i.legs cost
package_cost-TotalCost_whole i {cost} h =
    let (rest, sum, value) =
      package_cost-TotalCost i (pos 0) i.legs (omega arith) (omega arith) h in
    let same : rest ≡ cost = eq_of_parts rest (pos 0 +ℤ rest) (omega int_laws) ∙ sym value in
    subst (TotalCost i i.legs) same sum
