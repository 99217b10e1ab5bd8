-- ===== src/Accounting/Transition/DoubleEntry.antt =====
-- The double entry behind `transition` of internal/accounting/engine/engine.go: what a fill does to
-- the signed basis of a position is its cash value and its realized gain, to the last minor unit.
use tradeedge.Prelude.{
  ltb, if◌then◌else◌, Bool-cases, ℤ, pos, negsuc, ◌+ℤ◌, ◌-ℤ◌, ◌*ℤ◌, ◌≤ℤ◌, ◌<ℤ◌, ltb_ℤ, int_laws,
  min_int64, IsInt64, wrap64, ℕ, suc, ◌+◌, ◌-◌, ◌*◌, ◌/◌, ◌≤◌, ◌<◌, ◌≡◌, ◌≢◌, ◌↔◌, inl, inr, arith,
  dec_lt,
}
use tradeedge.Accounting.Transition.Books.{part}
use tradeedge.Domain.{Side}

-- The basis of a short position counts as negative.
unfoldable pub signed_basis : ℤ → ℤ → ℤ
signed_basis net basis = if ltb_ℤ net (pos 0) then pos 0 -ℤ basis else basis

-- A position that `transition` may meet: 64-bit values, and a basis exactly where something is open.
pub record IsPosition (net basis : ℤ) : Type 0 where
  pub net_fits : IsInt64 net
  pub net_above : net ≢ min_int64
  pub basis_fits : IsInt64 basis
  pub basis_nonneg : pos 0 ≤ℤ basis
  pub open_iff : (net ≡ pos 0) ↔ (basis ≡ pos 0)

-- What a trade does to the net quantity.
abbrev pub movement : Side → ℤ → ℤ
movement Side.sell quantity = pos 0 -ℤ quantity
movement _ quantity = quantity

-- The cash value of a trade, spent by a buyer and received by a seller.
abbrev pub trade_value : Side → ℤ → ℤ → ℤ
trade_value Side.sell quantity price = pos 0 -ℤ price *ℤ quantity
trade_value _ quantity price = price *ℤ quantity

pub sell_delta : (q : ℕ) → IsInt64 (pos q) → wrap64 (pos 0 -ℤ pos q) ≡ pos 0 -ℤ pos q
unfolding wrap64 ◌-ℤ◌
sell_delta q h = ground arith

pub split_product : (p q n : ℕ) → p * part q n + p * (q - n) ≡ p * q
split_product p q n = elim (Bool-cases (ltb q n)) [
  | inl less ↦ rw less (ground arith)
  | inr more ↦ rw more (grind arith)
]

pub share-lt : (b q n : ℕ) → 0 < b → q < n → b * q / n < b
share-lt b q n h k = grind arith

pub signed_of_nonneg : (net basis : ℤ) → pos 0 ≤ℤ net → signed_basis net basis ≡ basis
unfolding signed_basis
signed_of_nonneg net basis h = ground arith

pub signed_of_neg : (net basis : ℤ) → net <ℤ pos 0 → signed_basis net basis ≡ pos 0 -ℤ basis
unfolding signed_basis
signed_of_neg net basis h = ground arith

-- The identity for each way in which a fill meets a position, the products as unknowns.
pub extend_long :
    (n b q x : ℕ) → signed_basis (pos n +ℤ pos q) (pos b +ℤ pos x) ≡ pos b +ℤ pos x +ℤ pos 0
extend_long n b q x =
    rw (signed_of_nonneg (pos n +ℤ pos q) (pos b +ℤ pos x) (omega int_laws)) (omega int_laws)

pub extend_short :
    (net : ℤ) (b q x : ℕ)
    → 0 < q
    → net ≤ℤ pos 0
    → signed_basis (net +ℤ (pos 0 -ℤ pos q)) (pos b +ℤ pos x)
      ≡ (pos 0 -ℤ pos b) +ℤ (pos 0 -ℤ pos x) +ℤ pos 0
extend_short net b q x h k =
    rw (signed_of_neg (net +ℤ (pos 0 -ℤ pos q)) (pos b +ℤ pos x) (omega int_laws)) (omega int_laws)

module _ (n b q s x y z : ℕ) (sum : x + y ≡ z) (within : s ≤ b) where
  pub reduce_long_part :
      q < n
      → y ≡ 0
      → signed_basis (pos n +ℤ (pos 0 -ℤ pos q)) (pos (b - s))
        ≡ pos b +ℤ (pos 0 -ℤ pos z) +ℤ (pos x -ℤ pos s)
  reduce_long_part less none_left =
      rw (signed_of_nonneg (pos n +ℤ (pos 0 -ℤ pos q)) (pos (b - s)) (omega int_laws))
        (omega int_laws)

  pub reduce_short_part :
      q < suc n
      → y ≡ 0
      → signed_basis (negsuc n +ℤ pos q) (pos (b - s))
        ≡ (pos 0 -ℤ pos b) +ℤ pos z +ℤ (pos s -ℤ pos x)
  reduce_short_part less none_left =
      rw (signed_of_neg (negsuc n +ℤ pos q) (pos (b - s)) (omega int_laws)) (omega int_laws)

module _ (n b q x y z : ℕ) (sum : x + y ≡ z) where
  pub reduce_long_past :
      n ≤ q
      → (q ≡ n → y ≡ 0)
      → signed_basis (pos n +ℤ (pos 0 -ℤ pos q)) (pos y)
        ≡ pos b +ℤ (pos 0 -ℤ pos z) +ℤ (pos x -ℤ pos b)
  reduce_long_past more even = elim (dec_lt n q) [
    | yes past ↦
        rw (signed_of_neg (pos n +ℤ (pos 0 -ℤ pos q)) (pos y) (omega int_laws)) (omega int_laws)
    | no same ↦
        let y0 = even (omega arith) in
        rw (signed_of_nonneg (pos n +ℤ (pos 0 -ℤ pos q)) (pos y) (omega int_laws)) (omega int_laws)
  ]

  pub reduce_short_past :
      suc n ≤ q
      → signed_basis (negsuc n +ℤ pos q) (pos y) ≡ (pos 0 -ℤ pos b) +ℤ pos z +ℤ (pos b -ℤ pos x)
  reduce_short_past more =
      rw (signed_of_nonneg (negsuc n +ℤ pos q) (pos y) (omega int_laws)) (omega int_laws)
