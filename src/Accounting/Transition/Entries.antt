-- ===== src/Accounting/Transition/Entries.antt =====
-- The books after one fill: what `transition` of internal/accounting/engine/engine.go returns, for
-- every position, side, quantity and price that it accepts.
use tradeedge.Prelude.{
  lt→ltb, ge→ltb, ℤ, pos, negsuc, ◌+ℤ◌, ◌-ℤ◌, ◌≤ℤ◌, int_laws, half_range, min_int64, IsInt64, ok, ℕ,
  zero, suc, ◌+◌, ◌-◌, ◌*◌, ◌/◌, ◌≤◌, ◌<◌, ◌≡◌, refl, ◌≢◌, true, false, arith, dec_lt,
}
use tradeedge.Accounting.Transition.DoubleEntry.{
  signed_basis, movement, trade_value, sell_delta, split_product, signed_of_nonneg, signed_of_neg,
  extend_long, extend_short, reduce_long_part, reduce_short_part, reduce_long_past,
  reduce_short_past,
}
use tradeedge.Accounting.Transition.Books.{
  extended, part, share, reduced, extend_exact, share-le_basis, reduce_exact,
}
use tradeedge.Accounting.Transition.Checked.{magnitude_pos, magnitude_negsuc, pos-*ℤ-pos, share-le}
use tradeedge.Accounting.Transition.{Change, signed_quantity, same_direction, trade, transition}
use tradeedge.Domain.{Side}

-- The entry that a fill makes in the books of a position.
pub record Entry (net basis : ℤ) (side : Side) (quantity price : ℤ) (c : Change) : Type 0 where
  pub moved : c.net ≡ net +ℤ movement side quantity
  pub balanced :
      signed_basis c.net c.basis
      ≡ signed_basis net basis +ℤ trade_value side quantity price +ℤ c.realized
  pub split : c.closed +ℤ c.opened ≡ quantity
  pub within : c.allocated ≤ℤ basis

sell_fits : (q : ℕ) → IsInt64 (pos q) → IsInt64 (pos 0 -ℤ pos q)
unfolding ◌-ℤ◌
sell_fits q h = ground arith

long_buy : (n q : ℕ) → 0 < q → same_direction (pos n) (pos q) ≡ true
unfolding same_direction
long_buy n q h = ground arith

flat_any : (delta : ℤ) → same_direction (pos 0) delta ≡ true
unfolding same_direction
flat_any delta = refl

long_sell : (n q : ℕ) → 0 < q → same_direction (pos (suc n)) (pos 0 -ℤ pos q) ≡ false
unfolding same_direction ◌-ℤ◌
long_sell n q h = ground arith

short_sell : (n q : ℕ) → 0 < q → same_direction (negsuc n) (pos 0 -ℤ pos q) ≡ true
unfolding same_direction ◌-ℤ◌
short_sell n q h = ground arith

short_buy : (n q : ℕ) → 0 < q → same_direction (negsuc n) (pos q) ≡ false
unfolding same_direction
short_buy n q h = ground arith

part_split : (q n : ℕ) → pos (part q n) +ℤ pos (q - n) ≡ pos q
part_split q n = elim (dec_lt q n) [
  | yes less ↦ rw (lt→ltb q n less) (omega int_laws)
  | no more ↦ rw (ge→ltb q n (omega arith)) (omega int_laws)
]

share_within : (b q n : ℕ) → 0 < n → pos (share b q n) ≤ℤ pos b
share_within b q n h = omega (arith, share-le_basis b q n h)

past_product : (p q n : ℕ) → n ≤ q → p * n + p * (q - n) ≡ p * q
past_product p q n h = rw (ge→ltb q n h) at (split_product p q n)

left_at_even : (p q n : ℕ) → q ≡ n → p * (q - n) ≡ 0
left_at_even p q n h = ground arith

module _ (b q p : ℕ) (hq : 0 < q) where
  long_extended :
      (n : ℕ)
      → Entry (pos n) (pos b) Side.buy (pos q) (pos p) (extended (pos n) (pos b) q p (pos q))
  long_extended n = record {
    moved = refl;
    balanced =
        rw (pos-*ℤ-pos, signed_of_nonneg (pos n) (pos b) (omega arith)) (extend_long n b q (p * q));
    split = omega int_laws;
    within = omega arith;
  }

  short_extended :
      (net : ℤ)
      → net ≤ℤ pos 0
      → signed_basis net (pos b) ≡ pos 0 -ℤ pos b
      → Entry net (pos b) Side.sell (pos q) (pos p) (extended net (pos b) q p (pos 0 -ℤ pos q))
  short_extended net h e = record {
    moved = refl;
    balanced = rw (e, pos-*ℤ-pos) (extend_short net b q (p * q) hq h);
    split = omega int_laws;
    within = omega arith;
  }

  long_reduced :
      (n : ℕ)
      → Entry
          (pos (suc n))
          (pos b)
          Side.sell
          (pos q)
          (pos p)
          (reduced (pos (suc n)) (suc n) b q p (pos 0 -ℤ pos q))
  long_reduced n = record {
    moved = refl;
    balanced =
        rw (pos-*ℤ-pos, signed_of_nonneg (pos (suc n)) (pos b) (omega arith))
          (balance (dec_lt q (suc n)));
    split = part_split q (suc n);
    within = share_within b q (suc n) (omega arith);
  }
    where
      balance :
          Dec (q < suc n)
          → signed_basis
              (reduced (pos (suc n)) (suc n) b q p (pos 0 -ℤ pos q)).net
              (reduced (pos (suc n)) (suc n) b q p (pos 0 -ℤ pos q)).basis
            ≡ pos b
              +ℤ (pos 0 -ℤ pos (p * q))
              +ℤ (reduced (pos (suc n)) (suc n) b q p (pos 0 -ℤ pos q)).realized
      balance (yes less) = rw (lt→ltb q (suc n) less) (
          reduce_long_part (suc n) b q (b * q / suc n) (p * q) 0 (p * q) (omega arith)
            (share-le b q (suc n) (omega arith) (omega arith)) less refl)
      balance (no more) = rw (ge→ltb q (suc n) (omega arith)) (
          reduce_long_past (suc n) b q (p * suc n) (p * (q - suc n)) (p * q)
            (past_product p q (suc n) (omega arith)) (omega arith) (left_at_even p q (suc n)))

  short_reduced :
      (n : ℕ)
      → Entry (negsuc n) (pos b) Side.buy (pos q) (pos p) (reduced (negsuc n) (suc n) b q p (pos q))
  short_reduced n = record {
    moved = refl;
    balanced =
        rw (pos-*ℤ-pos, signed_of_neg (negsuc n) (pos b) (omega arith))
          (balance (dec_lt q (suc n)));
    split = part_split q (suc n);
    within = share_within b q (suc n) (omega arith);
  }
    where
      balance :
          Dec (q < suc n)
          → signed_basis
              (reduced (negsuc n) (suc n) b q p (pos q)).net
              (reduced (negsuc n) (suc n) b q p (pos q)).basis
            ≡ (pos 0 -ℤ pos b) +ℤ pos (p * q) +ℤ (reduced (negsuc n) (suc n) b q p (pos q)).realized
      balance (yes less) = rw (lt→ltb q (suc n) less) (
          reduce_short_part n b q (b * q / suc n) (p * q) 0 (p * q) (omega arith)
            (share-le b q (suc n) (omega arith) (omega arith)) less refl)
      balance (no more) = rw (ge→ltb q (suc n) (omega arith)) (
          reduce_short_past n b q (p * suc n) (p * (q - suc n)) (p * q)
            (past_product p q (suc n) (omega arith)) (omega arith))

module _ (net basis : ℤ) (q p : ℕ) {c : Change} where
  guarded :
      (side : Side)
      → transition net basis side (pos q) (pos p) ≡ ok c
      → (0 < q)
        × (side ≢ Side.other)
        × (pos 0 ≤ℤ basis)
        × (net ≢ min_int64)
        × (trade net basis (pos q) (pos p) (signed_quantity side (pos q)) ≡ ok c)
  unfolding transition
  guarded side h = ground arith

above : (n : ℕ) → IsInt64 (negsuc n) → negsuc n ≢ min_int64 → suc n < half_range
above n h ne = ground arith

signed_of_zero : (b : ℕ) → b ≡ 0 → signed_basis (pos 0) (pos b) ≡ pos 0 -ℤ pos b
signed_of_zero b z = rw (z, signed_of_nonneg (pos 0) (pos 0) (omega arith)) (omega int_laws)

module _ (b q p : ℕ) (hb : IsInt64 (pos b)) (fits : IsInt64 (pos q)) {c : Change} where
  flat-Entry :
      (side : Side)
      → side ≢ Side.other
      → 0 < q
      → b ≡ 0
      → trade (pos 0) (pos b) (pos q) (pos p) (signed_quantity side (pos q)) ≡ ok c
      → Entry (pos 0) (pos b) side (pos q) (pos p) c
  unfolding trade signed_quantity
  flat-Entry Side.buy s h z e =
      rw
        (extend_exact (pos 0) (pos b) q p (pos q) (omega arith) hb fits
          (rw (flat_any (pos q)) at e))
        (long_extended b q p h 0)
  flat-Entry Side.sell s h z e =
      let e' = rw (sell_delta q fits, flat_any (pos 0 -ℤ pos q)) at e in
      rw (extend_exact (pos 0) (pos b) q p (pos 0 -ℤ pos q) (omega arith) hb (sell_fits q fits) e')
        (short_extended b q p h (pos 0) (omega arith) (signed_of_zero b z))
  flat-Entry Side.other s h z e = absurd (s refl)

  long-Entry :
      (n : ℕ) (side : Side)
      → side ≢ Side.other
      → 0 < q
      → IsInt64 (pos (suc n))
      → trade (pos (suc n)) (pos b) (pos q) (pos p) (signed_quantity side (pos q)) ≡ ok c
      → Entry (pos (suc n)) (pos b) side (pos q) (pos p) c
  unfolding trade signed_quantity
  long-Entry n Side.buy s h hn e =
      rw
        (extend_exact (pos (suc n)) (pos b) q p (pos q) hn hb fits (rw (long_buy (suc n) q h) at e))
        (long_extended b q p h (suc n))
  long-Entry n Side.sell s h hn e =
      let e' = rw (sell_delta q fits, long_sell n q h) at e in
      rw
        (reduce_exact (pos (suc n)) (suc n) b q p (pos 0 -ℤ pos q) (magnitude_pos (suc n))
          (omega arith) hn hb fits (sell_fits q fits) e')
        (long_reduced b q p h n)
  long-Entry n Side.other s h hn e = absurd (s refl)

  short-Entry :
      (n : ℕ) (side : Side)
      → side ≢ Side.other
      → 0 < q
      → IsInt64 (negsuc n)
      → negsuc n ≢ min_int64
      → trade (negsuc n) (pos b) (pos q) (pos p) (signed_quantity side (pos q)) ≡ ok c
      → Entry (negsuc n) (pos b) side (pos q) (pos p) c
  unfolding trade signed_quantity
  short-Entry n Side.buy s h hn ne e =
      rw
        (reduce_exact (negsuc n) (suc n) b q p (pos q) (magnitude_negsuc n (above n hn ne))
          (omega arith) hn hb fits fits (rw (short_buy n q h) at e))
        (short_reduced b q p h n)
  short-Entry n Side.sell s h hn ne e =
      let e' = rw (sell_delta q fits, short_sell n q h) at e in
      rw (extend_exact (negsuc n) (pos b) q p (pos 0 -ℤ pos q) hn hb (sell_fits q fits) e') (
        short_extended b q p h (negsuc n) (omega arith)
          (signed_of_neg (negsuc n) (pos b) (omega arith)))
  short-Entry n Side.other s h hn ne e = absurd (s refl)

-- Whatever fill of 64-bit quantity `transition` accepts on a position of 64-bit net quantity and
-- basis, with no basis if flat: the net quantity moves by exactly the fill, the signed basis by
-- exactly its cash value and the gain realized, the closing and the opening part are the fill, and
-- the basis allocated is within the basis.
pub transition-Entry :
    (net : ℤ) (b : ℕ) (side : Side) (q p : ℕ) {c : Change}
    → IsInt64 net
    → IsInt64 (pos b)
    → IsInt64 (pos q)
    → (net ≡ pos 0 → b ≡ 0)
    → transition net (pos b) side (pos q) (pos p) ≡ ok c
    → Entry net (pos b) side (pos q) (pos p) c
transition-Entry (pos zero) b side q p hn hb hq z h =
    let (g, s, _, ne, e) = guarded (pos 0) (pos b) q p side h in
    flat-Entry b q p hb hq side s g (z refl) e
transition-Entry (pos (suc n)) b side q p hn hb hq z h =
    let (g, s, _, ne, e) = guarded (pos (suc n)) (pos b) q p side h in
    long-Entry b q p hb hq n side s g hn e
transition-Entry (negsuc n) b side q p hn hb hq z h =
    let (g, s, _, ne, e) = guarded (negsuc n) (pos b) q p side h in
    short-Entry b q p hb hq n side s g hn ne e
