-- ===== src/Prelude/Division.antt =====
-- Go's integer division, and its test that a product did not wrap: `value/right == left`.
use Prim.Native.Nat.{ℕ, zero, suc, ◌*◌, ◌/◌, ◌%◌, ◌≤◌}
use mathlib.Core.Path.{◌≡◌, refl, ap, sym, subst, ◌∙◌}
use mathlib.Core.Logic.{◌≢◌, inl, inr}
use mathlib.Core.Bool.{Bool, true, false}
use native.Mathlib.Omega.{arith}
use native.Mathlib.Nat
use tradeedge.Prelude.Tests.{Bool-cases}
use tradeedge.Prelude.Int.{ℤ, pos, negsuc, neg, ◌*ℤ◌, eqb_ℤ, eq_of_parts}
use tradeedge.Prelude.Int64.{
  half_range, min_int64, in_int64, IsInt64, wrap64, wrap64_of_IsInt64, wrap64_of_in_int64,
}

-- Division towards zero, as that of `int64` and `big.Int.Quo`.
abbrev pub quo : ℤ → ℤ → ℤ
quo (pos a) (pos b) = pos (a / b)
quo (pos a) (negsuc b) = neg (a / suc b)
quo (negsuc a) (pos b) = neg (suc a / b)
quo (negsuc a) (negsuc b) = pos (suc a / suc b)

-- `%` on `int64`: the remainder has the sign of the dividend.
abbrev pub rem : ℤ → ℤ → ℤ
rem (pos a) (pos b) = pos (a % b)
rem (pos a) (negsuc b) = pos (a % suc b)
rem (negsuc a) (pos b) = neg (suc a % b)
rem (negsuc a) (negsuc b) = neg (suc a % suc b)

-- The absolute value.
abbrev pub mag : ℤ → ℕ
mag (pos n) = n
mag (negsuc n) = suc n

mag-neg : (n : ℕ) → mag (neg n) ≡ n
mag-neg zero = refl
mag-neg (suc n) = refl

mag-quo : (v r : ℤ) → mag (quo v r) ≡ mag v / mag r
mag-quo (pos a) (pos b) = refl
mag-quo (pos a) (negsuc b) = mag-neg (a / suc b)
mag-quo (negsuc a) (pos b) = mag-neg (suc a / b)
mag-quo (negsuc a) (negsuc b) = refl

mag-*ℤ : (l r : ℤ) → mag (l *ℤ r) ≡ mag l * mag r
unfolding ◌*ℤ◌
mag-*ℤ (pos a) (pos b) = ground arith
mag-*ℤ (pos a) (negsuc b) = ground arith
mag-*ℤ (negsuc a) (pos b) = ground arith
mag-*ℤ (negsuc a) (negsuc b) = ground arith

mag-wrap64-le : (a : ℤ) → mag (wrap64 a) ≤ half_range
unfolding wrap64
mag-wrap64-le (pos n) = ground arith
mag-wrap64-le (negsuc n) = ground arith

mul-div : (a b : ℕ) → a * suc b / suc b ≡ a
mul-div a b = Nat.mul-div_cancel a {n = suc b} (omega arith)

-- Products by the signs of their factors.
neg_times : (a b : ℕ) → pos a *ℤ negsuc b ≡ neg (a * suc b)
unfolding ◌*ℤ◌
neg_times zero b = ground arith
neg_times (suc a) b = ground arith

times_neg : (a b : ℕ) → negsuc a *ℤ pos b ≡ neg (suc a * b)
unfolding ◌*ℤ◌
times_neg a zero = ground arith
times_neg a (suc b) = ground arith

pub pos_times : (a b : ℕ) → pos a *ℤ pos b ≡ pos (a * b)
unfolding ◌*ℤ◌
pos_times a b = ground arith

neg_neg : (a b : ℕ) → negsuc a *ℤ negsuc b ≡ pos (suc a * suc b)
unfolding ◌*ℤ◌
neg_neg a b = ground arith

quo-neg : (n b : ℕ) → quo (neg n) (negsuc b) ≡ pos (n / suc b)
quo-neg zero b = ap neg (Nat.zero-div (suc b)) ∙ ap pos (sym (Nat.zero-div (suc b)))
quo-neg (suc n) b = refl

quo-neg_pos : (n b : ℕ) → quo (neg n) (pos (suc b)) ≡ neg (n / suc b)
quo-neg_pos zero b = ap pos (Nat.zero-div (suc b)) ∙ ap neg (sym (Nat.zero-div (suc b)))
quo-neg_pos (suc n) b = refl

-- A product divided by one of its factors.
quo-*ℤ : (l r : ℤ) → r ≢ pos 0 → quo (l *ℤ r) r ≡ l
quo-*ℤ l (pos zero) h = absurd (h refl)
quo-*ℤ (pos a) (pos (suc b)) h =
    ap (λ p. quo p (pos (suc b))) (pos_times a (suc b)) ∙ ap pos (mul-div a b)
quo-*ℤ (pos a) (negsuc b) h =
    ap (λ p. quo p (negsuc b)) (neg_times a b) ∙ quo-neg (a * suc b) b ∙ ap pos (mul-div a b)
quo-*ℤ (negsuc a) (pos (suc b)) h =
    ap (λ p. quo p (pos (suc b))) (times_neg a (suc b))
    ∙ quo-neg_pos (suc a * suc b) b
    ∙ ap neg (mul-div (suc a) b)
quo-*ℤ (negsuc a) (negsuc b) h =
    ap (λ p. quo p (negsuc b)) (neg_neg a b) ∙ ap neg (mul-div (suc a) b)

mag-wrap64 : (a : ℤ) → mag a ≤ half_range → mag (wrap64 a) ≡ mag a
unfolding wrap64
mag-wrap64 (pos n) h = ground arith
mag-wrap64 (negsuc n) h = ground arith

wrap64_half : wrap64 (pos half_range) ≡ min_int64
unfolding wrap64
wrap64_half = refl

not_half : {n : ℕ} → pos n ≢ pos half_range → n ≢ half_range
not_half k e = k (ap pos e)

in_int64-of_mag : (a : ℤ) → mag a ≤ half_range → a ≢ pos half_range → in_int64 a ≡ true
in_int64-of_mag (pos n) h k = ground (arith, not_half k)
in_int64-of_mag (negsuc n) h k = ground arith

neg_sign : (d a : ℕ) → d ≤ half_range → wrap64 (neg d) ≡ pos a → a ≡ 0
unfolding wrap64
neg_sign zero a h w = ground arith
neg_sign (suc d) a h w = ground arith

pos_sign : (d a : ℕ) → d ≤ half_range → wrap64 (pos d) ≡ negsuc a → (d ≡ half_range) × (suc a ≡ d)
unfolding wrap64
pos_sign d a h w = ground arith

neg_not_pos : (n k : ℕ) → neg n ≢ pos (suc k)
neg_not_pos zero k e = ground arith
neg_not_pos (suc n) k e = ground arith

whole : (b : ℕ) → half_range / suc b ≡ half_range → b ≡ 0
whole b h =
    let j = subst (λ d. d * suc b ≤ half_range) h (Nat.div-mul-le_self half_range (suc b)) in
    omega arith

-- At the one product whose absolute value is in range and which is not, the quotient is of another
-- sign than `left`.
half_fails :
    (l r : ℤ)
    → (r ≡ negsuc 0 → l ≢ min_int64)
    → l *ℤ r ≡ pos half_range
    → wrap64 (quo min_int64 r) ≢ l
half_fails (pos a) (pos b) ex e w =
    let m = ap mag (sym (pos_times a b) ∙ e) in
    let z = neg_sign (half_range / b) a (Nat.div-le_self half_range b) w in
    let k = subst (λ x. x * b ≡ half_range) z m in omega arith
half_fails (pos a) (negsuc b) ex e w = neg_not_pos (a * suc b) _ (sym (neg_times a b) ∙ e)
half_fails (negsuc a) (pos b) ex e w = neg_not_pos (suc a * b) _ (sym (times_neg a b) ∙ e)
half_fails (negsuc a) (negsuc b) ex e w =
    let d = pos_sign (half_range / suc b) a (Nat.div-le_self half_range (suc b)) w in
    ex (ap negsuc (whole b d.0)) (ap neg (d.1 ∙ d.0))

mag_bound : (l r v : ℤ) → mag v ≤ half_range → wrap64 (quo v r) ≡ l → mag (l *ℤ r) ≤ half_range
mag_bound l r v h w =
    let m = mag-quo v r in
    let k = Nat.div-le_self (mag v) (mag r) in
    let j = mag-wrap64 (quo v r) (subst (λ q. q ≤ half_range) (sym m) (Nat.le_trans k h)) in
    let e = sym (ap mag w) ∙ j ∙ m in
    subst (λ n. n ≤ half_range) (sym (mag-*ℤ l r ∙ ap (λ n. n * mag r) e))
      (Nat.le_trans (Nat.div-mul-le_self (mag v) (mag r)) h)

pub eqb_ℤ-refl : (a : ℤ) → eqb_ℤ a a ≡ true
eqb_ℤ-refl a = ground arith

-- The quotient of a product that does not wrap, and the converse.
back_of_exact :
    (l r : ℤ)
    → IsInt64 l
    → r ≢ pos 0
    → in_int64 (l *ℤ r) ≡ true
    → wrap64 (quo (wrap64 (l *ℤ r)) r) ≡ l
back_of_exact l r h nz e =
    ap (λ v. wrap64 (quo v r)) (wrap64_of_in_int64 (l *ℤ r) e)
    ∙ ap wrap64 (quo-*ℤ l r nz)
    ∙ wrap64_of_IsInt64 l h

exact_of_back :
    (l r : ℤ)
    → (r ≡ negsuc 0 → l ≢ min_int64)
    → wrap64 (quo (wrap64 (l *ℤ r)) r) ≡ l
    → in_int64 (l *ℤ r) ≡ true
exact_of_back l r ex w =
    in_int64-of_mag (l *ℤ r) (mag_bound l r (wrap64 (l *ℤ r)) (mag-wrap64-le (l *ℤ r)) w)
      (λ e. half_fails l r ex e (ap (λ v. wrap64 (quo v r)) (sym (ap wrap64 e ∙ wrap64_half)) ∙ w))

pub eqb_ℤ→≡ : (a b : ℤ) → eqb_ℤ a b ≡ true → a ≡ b
eqb_ℤ→≡ a b e = eq_of_parts a b (ground arith)

eqb_ℤ-of_iff : (a b : ℤ) (c : Bool) → (a ≡ b → c ≡ true) → (c ≡ true → a ≡ b) → eqb_ℤ a b ≡ c
eqb_ℤ-of_iff a b true f g = ap (eqb_ℤ a) (sym (g refl)) ∙ eqb_ℤ-refl a
eqb_ℤ-of_iff a b false f g = elim (Bool-cases (eqb_ℤ a b)) [
  | inl e ↦ e ∙ sym (f (eqb_ℤ→≡ a b e))
  | inr e ↦ e
]

-- Go's test `value/right == left` of `value := left * right` is exact.
pub product_survives :
    (l r : ℤ)
    → IsInt64 l
    → r ≢ pos 0
    → (r ≡ negsuc 0 → l ≢ min_int64)
    → eqb_ℤ (wrap64 (quo (wrap64 (l *ℤ r)) r)) l ≡ in_int64 (l *ℤ r)
product_survives l r h nz ex =
    eqb_ℤ-of_iff _ l (in_int64 (l *ℤ r)) (exact_of_back l r ex) (back_of_exact l r h nz)
