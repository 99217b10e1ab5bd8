-- ===== src/Portfolio/Exact.antt =====
-- The amounts of internal/portfolio/allocation/engine.go over integers without bounds, and that the code
-- computes them: a product, a share in basis points, what the reserves leave.
pub mod Package
use native.Mathlib.Nat
use tradeedge.Prelude.{
  ◌⊎◌, Bool-cases, eq_of_parts, if◌then◌else◌, IsInt64-of_bounds, ℤ, pos, negsuc, ◌+ℤ◌, ◌-ℤ◌, ◌*ℤ◌,
  ◌≤ℤ◌, ◌<ℤ◌, ltb_ℤ, leb_ℤ, eqb_ℤ, int_laws, half_range, max_int64, IsInt64, wrap64,
  wrap64_of_IsInt64, wrap64-IsInt64, IsInt64_bounds, quo, pos_times, All, ok, reject_if-eq-ok,
  >>=-eq-ok, ok_injective, err-neq-ok, >>=-then, ℕ, zero, suc, ◌+◌, Text, text_eq, text_eq→eq, ◌*◌,
  ◌/◌, ◌≤◌, ◌<◌, ◌≡◌, refl, sym, ap, subst, ◌∙◌, inl, inr, Bool, false, true, not, ◌&&◌, ◌||◌, List,
  [], ◌∷◌, arith, Option-cases, some, none,
}
use tradeedge.Domain.Instrument.{Instrument}
use tradeedge.Instruments.{find_instrument}
use tradeedge.Portfolio.{
  allocation_failed, arithmetic_overflow, checked_mul, Leg, AllocationInput, requested, Limits,
  available_after_reserve, leg_cost, package_cost,
}

-- A product of two amounts, neither of them negative, that an `int64` holds.
pub record IsProduct (left right v : ℤ) : Type 0 where
  pub times : ℕ
  pub factor : ℕ
  pub left_is : left ≡ pos times
  pub right_is : right ≡ pos factor
  pub exact : v ≡ pos (times * factor)
  pub fits : times * factor < half_range

-- `part` is `bps` ten-thousandths of `amount`, the fraction dropped.
abbrev pub IsShare : ℤ → ℤ → ℤ → Type 0
IsShare amount bps part =
    (a : ℕ) × (b : ℕ) × (amount ≡ pos a) × (bps ≡ pos b) × (part ≡ pos (a * b / 10000))

-- The guard of `checkedMul` refuses a product that an `int64` does not hold.
guarded-fits :
    (a b : ℕ)
    → (not (eqb_ℤ (pos a) (pos 0)) && ltb_ℤ (wrap64 (quo max_int64 (pos a))) (pos b)) ≡ false
    → a * b < half_range
guarded-fits zero b h = omega arith
guarded-fits (suc a) b h =
    let word : 9223372036854775807 / suc a < half_range =
      Nat.lt_of_le_of_lt (Nat.div-le_self 9223372036854775807 (suc a)) (omega arith) in
    let same : wrap64 (pos (9223372036854775807 / suc a)) ≡ pos (9223372036854775807 / suc a) =
      wrap64_of_IsInt64 (pos (9223372036854775807 / suc a)) word in
    let le : b ≤ 9223372036854775807 / suc a = ground (arith, h, same) in
    let product : suc a * b ≤ 9223372036854775807 =
      subst (λ x. x ≤ 9223372036854775807) (Nat.mul_comm b (suc a))
        ((Nat.le-div_iff_mul-le (omega arith)).0 le) in
    let top : 9223372036854775807 < half_range = omega arith in Nat.lt_of_le_of_lt product top

-- The test of the guard.
abbrev is_outside : ℤ → ℤ → Bool
is_outside left right =
    ltb_ℤ left (pos 0)
    || ltb_ℤ right (pos 0)
    || (not (eqb_ℤ left (pos 0)) && ltb_ℤ (wrap64 (quo max_int64 left)) right)

pub checked_mul-value :
    (l r : ℤ) {v : ℤ} → checked_mul l r ≡ ok v → (is_outside l r ≡ false) × (v ≡ wrap64 (l *ℤ r))
unfolding checked_mul
checked_mul-value l r h = elim (Bool-cases (is_outside l r)) [
  | inl bad ↦ err-neq-ok (rw bad at h)
  | inr good ↦ (good, sym (ok_injective (rw good at h)))
]

pub checked_mul-IsProduct : (l r : ℤ) {v : ℤ} → checked_mul l r ≡ ok v → IsProduct l r v
checked_mul-IsProduct (negsuc a) r h = ground (arith, (checked_mul-value (negsuc a) r h).0)
checked_mul-IsProduct (pos a) (negsuc b) h =
    ground (arith, (checked_mul-value (pos a) (negsuc b) h).0)
checked_mul-IsProduct (pos a) (pos b) {v} h =
    let (guard, value) = checked_mul-value (pos a) (pos b) h in
    let small = guarded-fits a b (ground (arith, guard)) in
    record {
      times = a;
      factor = b;
      left_is = refl;
      right_is = refl;
      exact = value ∙ ap wrap64 (pos_times a b) ∙ wrap64_of_IsInt64 (pos (a * b)) small;
      fits = small;
    }

-- A checked product over ten thousand is a share.
share_lem :
    (amount bps : ℤ) {product : ℤ}
    → checked_mul amount bps ≡ ok product
    → IsShare amount bps (wrap64 (quo product (pos 10000)))
      × IsInt64 (wrap64 (quo product (pos 10000)))
share_lem amount bps h =
    let p = checked_mul-IsProduct amount bps h in
    let small = Nat.lt_of_le_of_lt (Nat.div-le_self (p.times * p.factor) 10000) p.fits in
    (
      (
        p.times,
        p.factor,
        p.left_is,
        p.right_is,
        ap (λ x. wrap64 (quo x (pos 10000))) p.exact
            ∙ wrap64_of_IsInt64 (pos (p.times * p.factor / 10000)) small,
      ),
      wrap64-IsInt64 _,
    )

-- `requestedMinor` is a share of the strategy's limit.
pub requested-IsShare :
    (i : AllocationInput) {asked : ℤ}
    → requested i ≡ ok asked
    → IsShare i.limits.strategy_limit i.sizing_bps asked
unfolding requested
requested-IsShare i h =
    >>=-then (checked_mul i.limits.strategy_limit i.sizing_bps) _ h λ product e k.
      subst (IsShare i.limits.strategy_limit i.sizing_bps) (ok_injective k)
        (share_lem i.limits.strategy_limit i.sizing_bps e).0

-- The policy's reserves are ratios up to 10000, and what is available is an amount of no debt.
pub record IsSound (l : Limits) : Type 0 where
  pub reserve_nonneg : pos 0 ≤ℤ l.reserve_bps
  pub reserve_ratio : l.reserve_bps ≤ℤ pos 10000
  pub emergency_nonneg : pos 0 ≤ℤ l.emergency_reserve_bps
  pub emergency_ratio : l.emergency_reserve_bps ≤ℤ pos 10000
  pub available_nonneg : pos 0 ≤ℤ l.available
  pub available_int64 : l.available ≤ℤ max_int64

-- What the reserves leave of the capital that is available: nothing when they exceed it.
abbrev pub IsLeft : Limits → ℤ → Type 0
IsLeft l free =
    (kept : ℤ) × IsShare l.total_capital (l.reserve_bps +ℤ l.emergency_reserve_bps) kept
    × (((kept ≤ℤ l.available) × (free ≡ l.available -ℤ kept))
        ⊎ ((l.available <ℤ kept) × (free ≡ pos 0)))

ratios_exact :
    (a b : ℤ) → pos 0 ≤ℤ a → a ≤ℤ pos 10000 → pos 0 ≤ℤ b → b ≤ℤ pos 10000 → wrap64 (a +ℤ b) ≡ a +ℤ b
ratios_exact a b h1 h2 h3 h4 =
    wrap64_of_IsInt64 (a +ℤ b) (IsInt64-of_bounds (a +ℤ b) (omega int_laws) (omega int_laws))

-- What `available_after_reserve` makes of the difference.
abbrev or_nothing : ℤ → ℤ
or_nothing left = if ltb_ℤ left (pos 0) then pos 0 else left

left_exact :
    (available kept : ℤ)
    → ((kept ≤ℤ available) × (or_nothing (available -ℤ kept) ≡ available -ℤ kept))
      ⊎ ((available <ℤ kept) × (or_nothing (available -ℤ kept) ≡ pos 0))
left_exact available kept = elim (Bool-cases (ltb_ℤ (available -ℤ kept) (pos 0))) [
  | inl less ↦
      let below : available -ℤ kept <ℤ pos 0 = ground (arith, less) in
      inr (omega int_laws, rw less refl)
  | inr more ↦
      let above : pos 0 ≤ℤ available -ℤ kept = ground (arith, more) in
      inl (omega int_laws, rw more refl)
]

difference_exact :
    (a b : ℤ) → pos 0 ≤ℤ a → a ≤ℤ max_int64 → pos 0 ≤ℤ b → b ≤ℤ max_int64 → wrap64 (a -ℤ b) ≡ a -ℤ b
difference_exact a b h1 h2 h3 h4 =
    wrap64_of_IsInt64 (a -ℤ b) (IsInt64-of_bounds (a -ℤ b) (omega int_laws) (omega int_laws))

share_nonneg : (amount bps : ℤ) {part : ℤ} → IsShare amount bps part → pos 0 ≤ℤ part
share_nonneg amount bps (a, b, e, f, g) = rw g (omega arith)

pub available_after_reserve-IsLeft :
    (l : Limits) {free : ℤ} → IsSound l → available_after_reserve l ≡ ok free → IsLeft l free
unfolding available_after_reserve
available_after_reserve-IsLeft l {free} s h =
    let bps = l.reserve_bps +ℤ l.emergency_reserve_bps in
    let sum =
      ratios_exact l.reserve_bps l.emergency_reserve_bps s.reserve_nonneg s.reserve_ratio
        s.emergency_nonneg s.emergency_ratio in
    >>=-then (checked_mul l.total_capital (wrap64 bps)) _ h λ product e k.
      let kept = wrap64 (quo product (pos 10000)) in
      let (share, word) =
        share_lem l.total_capital bps
          (subst (λ b. checked_mul l.total_capital b ≡ ok product) sum e) in
      let same =
        difference_exact l.available kept s.available_nonneg s.available_int64
          (share_nonneg l.total_capital bps share) (IsInt64_bounds kept word).1 in
      let got : or_nothing (l.available -ℤ kept) ≡ free =
        subst (λ x. or_nothing x ≡ free) same (ok_injective k) in
      (
        kept,
        share,
        subst
            (λ f.
              ((kept ≤ℤ l.available) × (f ≡ l.available -ℤ kept))
              ⊎ ((l.available <ℤ kept) × (f ≡ pos 0)))
            got (left_exact l.available kept),
      )

pub product_value : {left right v : ℤ} → IsProduct left right v → v ≡ left *ℤ right
product_value p = rw (p.exact, p.left_is, p.right_is) (sym (pos_times p.times p.factor))

product_range : {left right v : ℤ} → IsProduct left right v → (pos 0 ≤ℤ v) × (v ≤ℤ max_int64)
product_range p = ground (arith, p.exact, p.fits)
