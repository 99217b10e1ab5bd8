-- ===== src/Research/Cost/Total.antt =====
-- The totals that `Calculate` of internal/research/cost/cost.go returns.
use tradeedge.Prelude.{
  ℤ, pos, ◌+ℤ◌, ◌-ℤ◌, int_laws, min_int64, IsInt64, All, ok, reject_if-eq-ok, >>=-eq-ok,
  ok_injective, ◌≡◌, refl, sym, subst, ◌∙◌, ◌≢◌, Bool, false, ◌||◌, List, [], ◌∷◌, arith,
}
use tradeedge.Research.{invalid_cost}
use tradeedge.Research.Arithmetic.{checked_add, checked_sub, checked_sub_lem}
use tradeedge.Research.Cost.{
  Config, Input, Breakdown, charge, sum_from, parts_of, add_up, calculate,
}
use tradeedge.Research.Cost.Balance.{
  IsAmount, sum_ℤ, IsAmount→IsInt64, exact-eq-ok, checked_add-IsAmount, IsBalanced, IsInput,
  IsAmount-of, charge-IsAmount,
}

pub sum_from-IsAmount :
    (t : ℤ) (vs : List ℤ) {r : ℤ}
    → IsAmount t
    → All IsAmount vs
    → sum_from t vs ≡ ok r
    → IsAmount r × (r ≡ t +ℤ sum_ℤ vs)
unfolding sum_from
sum_from-IsAmount t [] h all e =
    (subst IsAmount (ok_injective e) h, sym (ok_injective e) ∙ omega int_laws)
sum_from-IsAmount t (v ∷ vs) h (hv, all) e =
    let (n, en, k) = >>=-eq-ok (checked_add t v) _ e in
    let (next-Is, n-Sum) = checked_add-IsAmount t v h hv en in
    let (r-Is, r-Sum) = sum_from-IsAmount n vs next-Is all k in
    (r-Is, r-Sum ∙ (rw n-Sum (omega int_laws)))

amount_not_least : (a : ℤ) → IsAmount a → a ≢ min_int64
amount_not_least a (n, e, h) k = ground (arith, sym e ∙ k)

-- A breakdown of which no part is negative gets the exact totals.
pub add_up-IsBalanced :
    (b : Breakdown) {c : Breakdown}
    → IsInt64 b.gross_pnl
    → All IsAmount (parts_of b)
    → add_up b ≡ ok c
    → IsBalanced c × (c.gross_pnl ≡ b.gross_pnl) × (parts_of c ≡ parts_of b)
unfolding add_up
add_up-IsBalanced b {c} g all e =
    let (t, et, k) = >>=-eq-ok (sum_from (pos 0) (parts_of b)) _ e in
    let (n, en, k1) = >>=-eq-ok (checked_sub b.gross_pnl t) _ k in
    let (t-Is, t-Sum) = sum_from-IsAmount (pos 0) (parts_of b) (0, refl, omega arith) all et in
    let fits = IsAmount→IsInt64 t t-Is in
    let n-Is =
      (exact-eq-ok (b.gross_pnl -ℤ t)
        (sym (checked_sub_lem b.gross_pnl t g fits (amount_not_least t t-Is)) ∙ en)).0 in
    let done : IsBalanced (record b { total_costs = t; net_pnl = n }) = record {
      parts = all;
      total = t-Sum ∙ omega int_laws;
      net = rw n-Is (omega int_laws);
    } in
    subst (λ c. IsBalanced c × (c.gross_pnl ≡ b.gross_pnl) × (parts_of c ≡ parts_of b))
      (ok_injective k1) (done, refl, refl)

guard_parts :
    (a b c d : Bool)
    → (a || b || c || d) ≡ false
    → (a ≡ false) × (b ≡ false) × (c ≡ false) × (d ≡ false)
guard_parts a b c d e = ground arith

-- When `Calculate` succeeds on 64-bit inputs, the total is the exact sum of the eight charges, none of
-- them negative, the net profit and the total make up the gross profit, and that is the gross profit
-- given.
pub calculate-IsBalanced :
    (c : Config) (i : Input) {b : Breakdown}
    → IsInput i
    → calculate c i ≡ ok b
    → IsBalanced b × (b.gross_pnl ≡ i.gross_pnl)
unfolding calculate
calculate-IsBalanced c i inp e =
    let (guard, k) = reject_if-eq-ok _ invalid_cost _ e in
    let (g1, g2, g3, g4) = guard_parts _ _ _ _ guard in
    let buy = IsAmount-of i.buy_notional_minor inp.buy g1 in
    let sell = IsAmount-of i.sell_notional_minor inp.sell g2 in
    let zero-Is : IsAmount (pos 0) = (0, refl, omega arith) in
    let (v1, e1, k1) = >>=-eq-ok (charge i c.brokerage (pos 0)) _ k in
    let a1 = charge-IsAmount i c.brokerage (pos 0) buy sell zero-Is e1 in
    let (v2, e2, k2) = >>=-eq-ok (charge i c.stt v1.1) _ k1 in
    let a2 = charge-IsAmount i c.stt v1.1 buy sell a1.1 e2 in
    let (v3, e3, k3) = >>=-eq-ok (charge i c.exchange_charges v2.1) _ k2 in
    let a3 = charge-IsAmount i c.exchange_charges v2.1 buy sell a2.1 e3 in
    let (v4, e4, k4) = >>=-eq-ok (charge i c.regulatory_charges v3.1) _ k3 in
    let a4 = charge-IsAmount i c.regulatory_charges v3.1 buy sell a3.1 e4 in
    let (v5, e5, k5) = >>=-eq-ok (charge i c.gst v4.1) _ k4 in
    let a5 = charge-IsAmount i c.gst v4.1 buy sell a4.1 e5 in
    let (v6, e6, k6) = >>=-eq-ok (charge i c.stamp_duty v5.1) _ k5 in
    let a6 = charge-IsAmount i c.stamp_duty v5.1 buy sell a5.1 e6 in
    let slip = IsAmount-of i.slippage inp.slippage g3 in
    let spread = IsAmount-of i.spread_impact inp.spread_impact g4 in
    let r =
      add_up-IsBalanced _ inp.gross
        (a1.0, (a2.0, (a3.0, (a5.0, (a6.0, (a4.0, (slip, (spread, tt)))))))) k6 in
    (r.0, r.1)
