-- ===== src/Accounting/Transition/Checked.antt =====
-- The checked operations of internal/accounting/engine/engine.go on 64-bit integers: each returns the
-- exact integer or reports the overflow.
use tradeedge.Prelude.{
  if◌then◌else◌, ℤ, pos, negsuc, ◌+ℤ◌, ◌-ℤ◌, ◌*ℤ◌, eq_of_parts, half_range, min_int64, in_int64,
  IsInt64, wrap64, wrap64_of_IsInt64, wrap64_of_in_int64, add_overflows_lem, opposite_fits,
  add_opposite, Result, err, ok, ℕ, suc, ◌*◌, ◌/◌, ◌≤◌, ◌<◌, ◌≡◌, ◌≢◌, arith,
}
use tradeedge.Accounting.Transition.{
  Error, arithmetic_overflow, proportional_basis, multiply, checked_add, checked_subtract,
  magnitude,
}

-- An exact result, if 64 bits hold it.
abbrev pub exact : ℤ → Result Error ℤ
exact a = if in_int64 a then ok a else err arithmetic_overflow

pub multiply_lem : (l r : ℤ) → multiply l r ≡ exact (l *ℤ r)
unfolding multiply
multiply_lem l r = ground arith

pub checked_add_lem : (l r : ℤ) → IsInt64 l → IsInt64 r → checked_add l r ≡ exact (l +ℤ r)
unfolding checked_add
checked_add_lem l r h k = ground (arith, add_overflows_lem l r h k, wrap64_of_in_int64 (l +ℤ r))

pub checked_subtract_lem :
    (l r : ℤ) → IsInt64 l → IsInt64 r → r ≢ min_int64 → checked_subtract l r ≡ exact (l -ℤ r)
unfolding checked_subtract
checked_subtract_lem l r h k ne =
    let fits = opposite_fits r k ne in
    ground (
      arith,
      checked_add_lem l (pos 0 -ℤ r) h fits,
      wrap64_of_IsInt64 (pos 0 -ℤ r) fits,
      add_opposite l r,
      eq_of_parts r min_int64,
    )

pub magnitude_pos : (n : ℕ) → magnitude (pos n) ≡ pos n
unfolding magnitude
magnitude_pos n = ground arith

pub magnitude_negsuc : (n : ℕ) → suc n < half_range → magnitude (negsuc n) ≡ pos (suc n)
unfolding magnitude wrap64 ◌-ℤ◌
magnitude_negsuc n h = ground arith

pub pos-*ℤ-pos : (a b : ℕ) → pos a *ℤ pos b ≡ pos (a * b)
unfolding ◌*ℤ◌
pos-*ℤ-pos a b = ground arith

pub share-le : (a c o : ℕ) → 0 < o → c ≤ o → a * c / o ≤ a
share-le a c o h k = grind arith

pub proportional_basis_lem :
    (basis closed open_quantity : ℕ)
    → 0 < open_quantity
    → closed ≤ open_quantity
    → IsInt64 (pos basis)
    → proportional_basis (pos basis) (pos closed) (pos open_quantity)
      ≡ ok (pos (basis * closed / open_quantity))
unfolding proportional_basis
proportional_basis_lem basis closed open_quantity h k l =
    rw (pos-*ℤ-pos basis closed) (ground (arith, share-le basis closed open_quantity h k))
