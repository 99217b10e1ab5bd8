-- ===== src/Research/Rounding.antt =====
-- `MulDiv` of internal/research/model/arithmetic.go against the exact quotient.
use native.Mathlib.Nat
-- `MulDiv` on what its guard lets through: the quotient of the exact product, rounded down or up.
use tradeedge.Prelude.{
  ltb, if◌then◌else◌, ltb→lt, Bool-cases, pos, ◌+ℤ◌, ◌-ℤ◌, ltb_ℤ, leb_ℤ, eqb_ℤ, half_range, wrap64,
  wrap64_of_IsInt64, add_overflows, rem, pos_times, err, ok, ℕ, suc, ◌+◌, ◌-◌, ◌*◌, ◌/◌, ◌%◌, ◌≤◌,
  ◌<◌, ◌≡◌, refl, sym, ap, ◌∙◌, ◌≢◌, inl, inr, Bool, true, false, ◌||◌, arith,
}
use tradeedge.Research.{arithmetic_overflow}
use tradeedge.Research.Arithmetic.{checked_add, divided, mul_div, checked_mul-exact}

abbrev pub rounded : ℕ → ℕ → Bool → ℕ
rounded product denominator ceil =
    if ceil then (product + (denominator - 1)) / denominator else product / denominator

rounded_up : (p d : ℕ) → p % suc d ≢ 0 → (p + d) / suc d ≡ suc (p / suc d)
rounded_up p d h =
    let q = Nat.div-add-mod' p (suc d) in
    let r = Nat.mod-lt p {m = suc d} (omega arith) in
    Nat.div-eq_of_lt-le (suc d) (omega arith) (omega arith)

rounded_even : (p d : ℕ) → p % suc d ≡ 0 → (p + d) / suc d ≡ p / suc d
rounded_even p d h =
    let q = Nat.div-add-mod' p (suc d) in Nat.div-eq_of_lt-le (suc d) (omega arith) (omega arith)

room : (p d : ℕ) → p % suc d ≢ 0 → suc (p / suc d) ≤ p
room p d h = let q = Nat.div-add-mod' p (suc d) in omega arith

one_less : (d : ℕ) → suc d - 1 ≡ d
one_less d = omega arith

zero_rem : (p d : ℕ) → eqb_ℤ (pos (p % suc d)) (pos 0) ≡ true → p % suc d ≡ 0
zero_rem p d e = ground (arith, e)

some_rem : (p d : ℕ) → eqb_ℤ (pos (p % suc d)) (pos 0) ≡ false → p % suc d ≢ 0
some_rem p d e k = ground (arith, e, k)

-- One more than a quotient rounded down still fits.
plus_one : (q : ℕ) → suc q < half_range → checked_add (pos q) (pos 1) ≡ ok (pos (suc q))
unfolding checked_add wrap64 add_overflows ◌+ℤ◌ ◌-ℤ◌
plus_one q h = ground arith

divided_lem :
    (p d : ℕ) (ceil : Bool)
    → p < half_range
    → divided (pos p) (pos (suc d)) ceil ≡ ok (pos (rounded p (suc d) ceil))
unfolding divided
divided_lem p d false h =
    ap ok (wrap64_of_IsInt64 (pos (p / suc d)) (Nat.lt_of_le_of_lt (Nat.div-le_self p (suc d)) h))
divided_lem p d true h = elim (Bool-cases (eqb_ℤ (rem (pos p) (pos (suc d))) (pos 0))) [
  | inl e ↦
      rw
        (
          e,
          wrap64_of_IsInt64 (pos (p / suc d)) small,
          one_less d,
          rounded_even p d (zero_rem p d e),
        )
        refl
  | inr e ↦
      rw (e, wrap64_of_IsInt64 (pos (p / suc d)) small, one_less d)
        (plus_one _ (Nat.lt_of_le_of_lt (room p d (some_rem p d e)) h)
          ∙ ap (λ n. ok (pos n)) (sym (rounded_up p d (some_rem p d e))))
]
  where
    small : p / suc d < half_range
    small = Nat.lt_of_le_of_lt (Nat.div-le_self p (suc d)) h

amounts_pass :
    (v n d : ℕ)
    → (ltb_ℤ (pos v) (pos 0) || ltb_ℤ (pos n) (pos 0) || leb_ℤ (pos (suc d)) (pos 0)) ≡ false
amounts_pass v n d = ground arith

-- `MulDiv` of a 64-bit amount, not negative, by a numerator and a positive denominator is the quotient
-- of the exact product, rounded down or up as asked, and an overflow exactly if 64 bits do not hold
-- that product.
pub mul_div_exact :
    (v n d : ℕ) (ceil : Bool)
    → v < half_range
    → mul_div (pos v) (pos n) (pos (suc d)) ceil ≡ (
        if ltb (v * n) half_range
        then ok (pos (rounded (v * n) (suc d) ceil))
        else err arithmetic_overflow)
unfolding mul_div
mul_div_exact v n d ceil hv = elim (Bool-cases (ltb (v * n) half_range)) [
  | inl e ↦
      rw (amounts_pass v n d, checked_mul-exact (pos v) (pos n) hv, pos_times v n, e)
        (divided_lem (v * n) d ceil (ltb→lt _ _ e))
  | inr e ↦ rw (amounts_pass v n d, checked_mul-exact (pos v) (pos n) hv, pos_times v n, e) refl
]

pub rounded-le : (p d : ℕ) (ceil : Bool) → rounded p (suc d) ceil ≤ p
rounded-le p d false = Nat.div-le_self p (suc d)
rounded-le p d true = elim (Bool-cases (eqb_ℤ (rem (pos p) (pos (suc d))) (pos 0))) [
  | inl e ↦ rw (one_less d, rounded_even p d (zero_rem p d e)) (Nat.div-le_self p (suc d))
  | inr e ↦ rw (one_less d, rounded_up p d (some_rem p d e)) (room p d (some_rem p d e))
]
