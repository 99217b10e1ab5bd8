-- ===== src/Research/Arithmetic.antt =====
-- internal/research/model/arithmetic.go: checked arithmetic on 64-bit integers.
use tradeedge.Prelude.{
  if◌then◌else◌, Bool-cases, ℤ, pos, negsuc, ◌+ℤ◌, ◌-ℤ◌, ◌*ℤ◌, ltb_ℤ, leb_ℤ, eqb_ℤ, eq_of_parts,
  min_int64, in_int64, IsInt64, wrap64, wrap64_of_IsInt64, wrap64_of_in_int64, add_overflows,
  add_overflows_lem, opposite_fits, add_opposite, quo, rem, eqb_ℤ→≡, product_survives, Result, err,
  ok, reject_if, ◌>>=◌, ◌>>◌, zero, suc, ◌≡◌, refl, ap, ◌∙◌, ◌≢◌, inl, inr, Bool, true, false, not,
  ◌&&◌, ◌||◌, arith,
}
use tradeedge.Research.{ResearchError, arithmetic_overflow}

-- `CheckedAdd`
unfoldable pub checked_add : ℤ → ℤ → Result ResearchError ℤ
checked_add left right =
    if add_overflows left right then err arithmetic_overflow else ok (wrap64 (left +ℤ right))

-- `CheckedSub`
unfoldable pub checked_sub : ℤ → ℤ → Result ResearchError ℤ
checked_sub left right =
    if eqb_ℤ right min_int64
    then err arithmetic_overflow
    else checked_add left (wrap64 (pos 0 -ℤ right))

-- `CheckedMul`
unfoldable pub checked_mul : ℤ → ℤ → Result ResearchError ℤ
checked_mul left right =
    if eqb_ℤ left (pos 0) || eqb_ℤ right (pos 0)
    then ok (pos 0)
    else if (eqb_ℤ left (negsuc 0) && eqb_ℤ right min_int64)
        || (eqb_ℤ right (negsuc 0) && eqb_ℤ left min_int64)
    then err arithmetic_overflow
    else let value = wrap64 (left *ℤ right) in
      if not (eqb_ℤ (wrap64 (quo value right)) left) then err arithmetic_overflow else ok value

-- `MulDiv` after its multiplication.
unfoldable pub divided : ℤ → ℤ → Bool → Result ResearchError ℤ
divided product denominator ceil =
    let result = wrap64 (quo product denominator) in
    if ceil && not (eqb_ℤ (rem product denominator) (pos 0))
    then checked_add result (pos 1)
    else ok result

-- `MulDiv`
unfoldable pub mul_div : ℤ → ℤ → ℤ → Bool → Result ResearchError ℤ
mul_div value numerator denominator ceil = do
  reject_if (ltb_ℤ value (pos 0) || ltb_ℤ numerator (pos 0) || leb_ℤ denominator (pos 0))
      arithmetic_overflow
  product ← checked_mul value numerator
  divided product denominator ceil

-- An exact result, if 64 bits hold it.
abbrev pub exact : ℤ → Result ResearchError ℤ
exact a = if in_int64 a then ok a else err arithmetic_overflow

pub checked_add_lem : (l r : ℤ) → IsInt64 l → IsInt64 r → checked_add l r ≡ exact (l +ℤ r)
unfolding checked_add
checked_add_lem l r h k = ground (arith, add_overflows_lem l r h k, wrap64_of_in_int64 (l +ℤ r))

pub checked_sub_lem :
    (l r : ℤ) → IsInt64 l → IsInt64 r → r ≢ min_int64 → checked_sub l r ≡ exact (l -ℤ r)
unfolding checked_sub
checked_sub_lem l r h k ne =
    let fits = opposite_fits r k ne in
    ground (
      arith,
      checked_add_lem l (pos 0 -ℤ r) h fits,
      wrap64_of_IsInt64 (pos 0 -ℤ r) fits,
      add_opposite l r,
      eq_of_parts r min_int64,
    )

zero_product : (l r : ℤ) → (eqb_ℤ l (pos 0) || eqb_ℤ r (pos 0)) ≡ true → l *ℤ r ≡ pos 0
unfolding ◌*ℤ◌
zero_product (pos zero) r h = ground arith
zero_product (pos (suc m)) (pos zero) h = ground arith
zero_product (pos (suc m)) (pos (suc n)) h = ground arith
zero_product (pos (suc m)) (negsuc n) h = ground arith
zero_product (negsuc m) (pos zero) h = ground arith
zero_product (negsuc m) (pos (suc n)) h = ground arith
zero_product (negsuc m) (negsuc n) h = ground arith

-- The two products that the second guard refuses.
abbrev least_negated : ℤ → ℤ → Bool
least_negated l r =
    (eqb_ℤ l (negsuc 0) && eqb_ℤ r min_int64) || (eqb_ℤ r (negsuc 0) && eqb_ℤ l min_int64)

least_pair : (a b l r : ℤ) → (eqb_ℤ l a && eqb_ℤ r b) ≡ true → l *ℤ r ≡ a *ℤ b
least_pair a b l r h = rw (eqb_ℤ→≡ l a (ground (arith, h)), eqb_ℤ→≡ r b (ground (arith, h))) refl

over : in_int64 (negsuc 0 *ℤ min_int64) ≡ false
unfolding ◌*ℤ◌
over = refl

over_swapped : in_int64 (min_int64 *ℤ negsuc 0) ≡ false
unfolding ◌*ℤ◌
over_swapped = refl

least_overflows : (l r : ℤ) → least_negated l r ≡ true → in_int64 (l *ℤ r) ≡ false
least_overflows l r h = elim (Bool-cases (eqb_ℤ l (negsuc 0) && eqb_ℤ r min_int64)) [
  | inl e ↦ ap in_int64 (least_pair (negsuc 0) min_int64 l r e) ∙ over
  | inr e ↦ ap in_int64 (least_pair min_int64 (negsuc 0) l r (ground (arith, h, e))) ∙ over_swapped
]

not_zero : (l r : ℤ) → (eqb_ℤ l (pos 0) || eqb_ℤ r (pos 0)) ≡ false → r ≢ pos 0
not_zero l r h e = ground (arith, h, e)

exact_kept :
    (a : ℤ) → (if not (in_int64 a) then err arithmetic_overflow else ok (wrap64 a)) ≡ exact a
exact_kept a = ground (arith, wrap64_of_in_int64 a)

least_only : (l r : ℤ) → least_negated l r ≡ false → r ≡ negsuc 0 → l ≢ min_int64
least_only l r h e k = ground (arith, e, k)

-- `CheckedMul`, which has no wider integer to compare with, refuses exactly the products that 64 bits
-- do not hold, and returns the others exactly.
pub checked_mul-exact : (l r : ℤ) → IsInt64 l → checked_mul l r ≡ exact (l *ℤ r)
unfolding checked_mul
checked_mul-exact l r h = elim (Bool-cases (eqb_ℤ l (pos 0) || eqb_ℤ r (pos 0))) [
  | inl z ↦ rw (z, zero_product l r z) refl
  | inr nz ↦ rw nz (elim (Bool-cases (least_negated l r)) [
    | inl x ↦ rw (x, least_overflows l r x) refl
    | inr nx ↦
        let s = product_survives l r h (not_zero l r nz) (least_only l r nx) in
        rw (nx, s) (exact_kept (l *ℤ r))
  ])
]
