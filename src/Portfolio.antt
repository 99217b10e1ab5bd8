-- ===== src/Portfolio.antt =====
-- internal/portfolio/allocation/engine.go: how much of its capital `Evaluate` gives to a proposal. Of
-- its input, what the sizing reads; whether the guards on states and times hold is a flag.
pub mod Exact
pub mod Least
pub mod Bounded
pub mod Controls
mod Tests
use tradeedge.Prelude.{
  if◌then◌else◌, ℤ, pos, ◌+ℤ◌, ◌-ℤ◌, ◌*ℤ◌, ltb_ℤ, leb_ℤ, eqb_ℤ, max_int64, wrap64, quo, Result, err,
  ok, reject_if, ◌>>=◌, ◌>>◌, Text, text_eq, ℕ, Bool, not, ◌&&◌, ◌||◌, none, some, List, [], ◌∷◌,
}
use tradeedge.Domain.Instrument.{Instrument}
use tradeedge.Instruments.{find_instrument}

pub data AllocationError : Type 0 where
  allocation_failed arithmetic_overflow : AllocationError

-- `checkedMul`
unfoldable pub checked_mul : ℤ → ℤ → Result AllocationError ℤ
checked_mul left right =
    if ltb_ℤ left (pos 0)
      || ltb_ℤ right (pos 0)
      || (not (eqb_ℤ left (pos 0)) && ltb_ℤ (wrap64 (quo max_int64 left)) right)
    then err arithmetic_overflow
    else ok (wrap64 (left *ℤ right))

-- The amounts of `Limits` of the policy, of the strategy's allocation and of the snapshot's capital, in
-- minor units.
pub record Limits : Type 0 where
  pub total_capital : ℤ
  pub reserve_bps : ℤ
  pub emergency_reserve_bps : ℤ
  pub maximum_strategy : ℤ
  pub maximum_instrument : ℤ
  pub maximum_underlying : ℤ
  pub maximum_exposure_group : ℤ
  pub strategy_limit : ℤ
  pub strategy_remaining : ℤ
  pub available : ℤ

-- A leg of the proposal.
pub record Leg : Type 0 where
  pub instrument_id : ℕ
  pub ratio : ℤ
  pub reference_price : ℤ

pub record AllocationInput : Type 0 where
  pub is_refused : Bool
  pub limits : Limits
  pub sizing_bps : ℤ
  pub base_currency : Text
  pub instruments : List Instrument
  pub legs : List Leg

-- `requestedMinor`
unfoldable pub requested : AllocationInput → Result AllocationError ℤ
requested i = do
  product ← checked_mul i.limits.strategy_limit i.sizing_bps
  ok (wrap64 (quo product (pos 10000)))

-- `availableAfterReserve`
unfoldable pub available_after_reserve : Limits → Result AllocationError ℤ
available_after_reserve l = do
  product ← checked_mul l.total_capital (wrap64 (l.reserve_bps +ℤ l.emergency_reserve_bps))
  let left = wrap64 (l.available -ℤ wrap64 (quo product (pos 10000))) in
      ok (if ltb_ℤ left (pos 0) then pos 0 else left)

-- The loop that lowers `bound`.
unfoldable pub lower : ℤ → List ℤ → ℤ
lower bound [] = bound
lower bound (value ∷ values) = lower (if ltb_ℤ value bound then value else bound) values

abbrev pub caps : Limits → ℤ → List ℤ
caps l free =
    l.strategy_remaining ∷ free ∷ l.maximum_strategy ∷ l.maximum_instrument ∷ l.maximum_underlying
    ∷ l.maximum_exposure_group ∷ []

-- The cost of one leg of a package, and the lot of its instrument.
unfoldable pub leg_cost : AllocationInput → Leg → Result AllocationError ℤ
leg_cost i leg = elim (find_instrument leg.instrument_id i.instruments) [
  | none ↦ err allocation_failed
  | some instrument ↦ do
    reject_if (not (text_eq instrument.currency i.base_currency)) allocation_failed
    units ← checked_mul leg.ratio instrument.lot_size
    checked_mul leg.reference_price units
]

-- The loop that adds up `packageCost`.
unfoldable pub package_cost : AllocationInput → ℤ → List Leg → Result AllocationError ℤ
package_cost i total [] = ok total
package_cost i total (leg ∷ legs) = do
  cost ← leg_cost i leg
  reject_if (ltb_ℤ (wrap64 (max_int64 -ℤ cost)) total) arithmetic_overflow
  package_cost i (wrap64 (total +ℤ cost)) legs

-- The capital that `Evaluate` approves, with what it asked for, the cost of one package and their
-- number.
pub record Approval : Type 0 where
  pub requested_minor : ℤ
  pub approved_minor : ℤ
  pub remainder_minor : ℤ
  pub cost : ℤ
  pub packages : ℤ

-- `Evaluate` once the bound is known.
unfoldable pub approve : AllocationInput → ℤ → ℤ → Result AllocationError Approval
approve i asked bound = do
  reject_if (leb_ℤ bound (pos 0)) allocation_failed
  cost ← package_cost i (pos 0) i.legs
  reject_if (leb_ℤ cost (pos 0)) allocation_failed
  let packages = wrap64 (quo bound cost) in
      do
        reject_if (leb_ℤ packages (pos 0)) allocation_failed
        approved ← checked_mul cost packages
        ok (record {
          requested_minor = asked;
          approved_minor = approved;
          remainder_minor = wrap64 (asked -ℤ approved);
          cost = cost;
          packages = packages;
        })

-- `Evaluate` up to `approvedMinor`.
unfoldable pub evaluate_capital : AllocationInput → Result AllocationError Approval
evaluate_capital i = do
  reject_if i.is_refused allocation_failed
  asked ← requested i
  free ← available_after_reserve i.limits
  approve i asked (lower asked (caps i.limits free))
