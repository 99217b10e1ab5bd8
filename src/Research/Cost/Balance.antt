-- ===== src/Research/Cost/Balance.antt =====
-- What `Calculate` of internal/research/cost/cost.go adds up.
use native.Mathlib.Nat
use tradeedge.Prelude.{
  ltb, if◌then◌else◌, ltb→lt, Bool-cases, ℤ, pos, negsuc, ◌+ℤ◌, ltb_ℤ, half_range, in_int64,
  IsInt64, in_int64→IsInt64, All, err, ok, >>=-eq-ok, ok_injective, err-neq-ok, ℕ, zero, suc, ◌+◌,
  ◌*◌, ◌<◌, ◌≡◌, refl, sym, subst, ◌∙◌, inl, inr, Bool, false, List, [], ◌∷◌, arith,
}
use tradeedge.Research.{arithmetic_overflow}
use tradeedge.Research.Arithmetic.{checked_add, mul_div, exact, checked_add_lem}
use tradeedge.Research.Rounding.{rounded, mul_div_exact, rounded-le}
use tradeedge.Research.Cost.{
  Base, buy_notional, sell_notional, total_notional, prior_charges, other_base, Rate, Input,
  Breakdown, is_ceil, base_value, charge, parts_of,
}

-- An amount: an `int64` that is not negative.
abbrev pub IsAmount : ℤ → Type 0
IsAmount a = (n : ℕ) × (a ≡ pos n) × (n < half_range)

-- The exact sum.
abbrev pub sum_ℤ : List ℤ → ℤ
sum_ℤ [] = pos 0
sum_ℤ (v ∷ vs) = v +ℤ sum_ℤ vs

pub IsAmount→IsInt64 : (a : ℤ) → IsAmount a → IsInt64 a
IsAmount→IsInt64 a (n, e, h) = subst IsInt64 (sym e) h

pub exact-eq-ok : (a : ℤ) {c : ℤ} → exact a ≡ ok c → (c ≡ a) × IsInt64 a
exact-eq-ok a e = elim (Bool-cases (in_int64 a)) [
  | inl h ↦ (ground (arith, e, h), in_int64→IsInt64 a h)
  | inr h ↦ ground (arith, e, h)
]

pos_sum : (m n : ℕ) → pos m +ℤ pos n ≡ pos (m + n)
unfolding ◌+ℤ◌
pos_sum m n = ground arith

pub checked_add-IsAmount :
    (a b : ℤ) {c : ℤ} → IsAmount a → IsAmount b → checked_add a b ≡ ok c → IsAmount c × (c ≡ a +ℤ b)
checked_add-IsAmount a b h k e =
    let x =
      exact-eq-ok (a +ℤ b)
        (sym (checked_add_lem a b (IsAmount→IsInt64 a h) (IsAmount→IsInt64 b k)) ∙ e) in
    let s : a +ℤ b ≡ pos (h.0 + k.0) = rw (h.1, k.1) (pos_sum h.0 k.0) in
    ((h.0 + k.0, x.0 ∙ s, subst IsInt64 s x.1), x.0)

no_division :
    (v : ℕ) (n d : ℤ) (c : Bool) {r : ℤ}
    → mul_div (pos v) n d c ≡ ok r
    → (m k : ℕ) × (n ≡ pos m) × (d ≡ pos (suc k))
unfolding mul_div
no_division v (pos m) (pos zero) c e = ground (arith, e)
no_division v (pos m) (pos (suc k)) c e = (m, k, refl, refl)
no_division v (pos m) (negsuc k) c e = ground (arith, e)
no_division v (negsuc m) d c e = ground (arith, e)

quotient-IsAmount :
    (p k : ℕ) (c : Bool) {r : ℤ}
    → (if ltb p half_range then ok (pos (rounded p (suc k) c)) else err arithmetic_overflow) ≡ ok r
    → IsAmount r
quotient-IsAmount p k c {r} e = elim (Bool-cases (ltb p half_range)) [
  | inl h ↦
      let small = Nat.lt_of_le_of_lt (rounded-le p k c) (ltb→lt p half_range h) in
      (rounded p (suc k) c, sym (ok_injective (rw h at e)), small)
  | inr h ↦ err-neq-ok (rw h at e)
]

pub mul_div-IsAmount :
    (v n d : ℤ) (c : Bool) {r : ℤ} → IsAmount v → mul_div v n d c ≡ ok r → IsAmount r
mul_div-IsAmount v n d c {r} (w, v-Is, fits) e =
    let f = subst (λ x. mul_div x n d c ≡ ok r) v-Is e in
    let (m, k, n-Is, d-Is) = no_division w n d c f in
    quotient-IsAmount (w * m) k c (sym (mul_div_exact w m k c fits) ∙ (rw (n-Is, d-Is) at f))

-- A breakdown that balances: no part is negative, and the exact sums hold.
pub record IsBalanced (b : Breakdown) : Type 0 where
  pub parts : All IsAmount (parts_of b)
  pub total : b.total_costs ≡ sum_ℤ (parts_of b)
  pub net : b.net_pnl +ℤ b.total_costs ≡ b.gross_pnl

-- The fields of an input are 64-bit words.
pub record IsInput (i : Input) : Type 0 where
  pub buy : IsInt64 i.buy_notional_minor
  pub sell : IsInt64 i.sell_notional_minor
  pub gross : IsInt64 i.gross_pnl
  pub slippage : IsInt64 i.slippage
  pub spread_impact : IsInt64 i.spread_impact

pub IsAmount-of : (a : ℤ) → IsInt64 a → ltb_ℤ a (pos 0) ≡ false → IsAmount a
IsAmount-of (pos n) h e = (n, refl, h)
IsAmount-of (negsuc n) h e = ground (arith, e)

base_value-IsAmount :
    (b : Base) (i : Input) (prior : ℤ) {v : ℤ}
    → IsAmount i.buy_notional_minor
    → IsAmount i.sell_notional_minor
    → IsAmount prior
    → base_value b i prior ≡ ok v
    → IsAmount v
unfolding base_value
base_value-IsAmount buy_notional i prior buy sell h e = subst IsAmount (ok_injective e) buy
base_value-IsAmount sell_notional i prior buy sell h e = subst IsAmount (ok_injective e) sell
base_value-IsAmount total_notional i prior buy sell h e = (checked_add-IsAmount _ _ buy sell e).0
base_value-IsAmount prior_charges i prior buy sell h e = subst IsAmount (ok_injective e) h
base_value-IsAmount other_base i prior buy sell h e = err-neq-ok e

pub charge-IsAmount :
    (i : Input) (r : Rate) (prior : ℤ) {c : ℤ × ℤ}
    → IsAmount i.buy_notional_minor
    → IsAmount i.sell_notional_minor
    → IsAmount prior
    → charge i r prior ≡ ok c
    → IsAmount c.0 × IsAmount c.1
unfolding charge
charge-IsAmount i r prior {c} buy sell h e =
    let (b, eb, k) = >>=-eq-ok (base_value r.base i prior) _ e in
    let (v, ev, k1) = >>=-eq-ok (mul_div b r.numerator r.denominator (is_ceil r.rounding)) _ k in
    let (s, es, k2) = >>=-eq-ok (checked_add prior v) _ k1 in
    let amount = mul_div-IsAmount b _ _ _ (base_value-IsAmount r.base i prior buy sell h eb) ev in
    let sum = (checked_add-IsAmount prior v h amount es).0 in
    subst (λ c. IsAmount c.0 × IsAmount c.1) (ok_injective k2) (amount, sum)
