-- ===== src/Research/Backtest/Baseline.antt =====
-- The baseline fills of internal/research/backtest/fill.go are what `Run` needs of fills.
use tradeedge.Prelude.{
  ℤ, pos, ok, reject_if-eq-ok, >>=-eq-ok, ok_injective, Text, ℕ, ◌<◌, ◌≡◌, refl, subst, true, false,
  arith,
}
use tradeedge.Research.{invalid_fill, from_domain}
use tradeedge.Research.Backtest.Filling.{
  is_unfillable, book_of, liquid, slipped, spread_per_unit, fill,
}
use tradeedge.Research.Backtest.Coherent.{IsFillModel}
use tradeedge.Research.Backtest.{SimulatedOrder, Fill}
use tradeedge.Domain.{new_price}
use tradeedge.Research.Arithmetic.{checked_mul, mul_div}
use tradeedge.Research.Observation.{Observation}

-- What a fill of `BaselineFillModel` copies from its order and its observation.
pub record Copies (q : SimulatedOrder) (o : Observation) (f : Fill) : Type 0 where
  pub side : f.side ≡ q.side
  pub quantity : f.quantity ≡ q.quantity
  pub order_time : f.order_time ≡ q.order_time
  pub fill_time : f.fill_time ≡ o.exchange_time
  pub later : q.order_time < o.exchange_time

fillable_later :
    (q : SimulatedOrder) (o : Observation)
    → is_unfillable q o ≡ false
    → q.order_time < o.exchange_time
unfolding is_unfillable
fillable_later q o h = ground (arith, h)

pub fill-Copies :
    (digest : Text → ℕ → Text) (bps : ℤ) (q : SimulatedOrder) (o : Observation) {f : Fill}
    → fill digest bps q o ≡ ok f
    → Copies q o f
unfolding fill
fill-Copies digest bps q o h =
    let (guard, k0) = reject_if-eq-ok (is_unfillable q o) invalid_fill _ h in
    let (_, _, k1) = >>=-eq-ok (book_of q.side o) _ k0 in
    let (book, _, k2) = >>=-eq-ok (liquid _) _ k1 in
    let (adjustment, _, k3) = >>=-eq-ok (mul_div book.minor bps (pos 10000) true) _ k2 in
    let (minor, _, k4) = >>=-eq-ok (slipped q.side book.minor adjustment) _ k3 in
    let (price, _, k5) = >>=-eq-ok (from_domain (new_price minor book.currency)) _ k4 in
    let (spread, _, k6) =
      >>=-eq-ok (checked_mul (spread_per_unit q.side book.minor o.price.minor) q.quantity) _ k5 in
    let (slippage, _, k7) = >>=-eq-ok (checked_mul adjustment q.quantity) _ k6 in
    subst (Copies q o) (ok_injective k7) (record {
      side = refl;
      quantity = refl;
      order_time = refl;
      fill_time = refl;
      later = fillable_later q o guard;
    })

-- So the engine may run on the baseline fills.
pub fill-IsFillModel : (digest : Text → ℕ → Text) (bps : ℤ) → IsFillModel (fill digest bps)
fill-IsFillModel digest bps = record {
  answers = λ q o h. let c = fill-Copies digest bps q o h in (c.side, c.quantity);
  timed = λ q o h. let c = fill-Copies digest bps q o h in (c.order_time, c.fill_time);
}
