-- ===== src/Accounting/Transition.antt =====
-- The arithmetic core of internal/accounting/engine/engine.go: `transition`, which takes a net
-- quantity and its cost basis through one fill, and the checked operations on int64 that it uses.
-- `big.Int` products are exact integers.
pub mod Checked
pub mod Books
pub mod DoubleEntry
pub mod Entries
pub mod Ranges
use tradeedge.Prelude.{
  if◌then◌else◌, ℤ, pos, ◌+ℤ◌, ◌-ℤ◌, ◌*ℤ◌, ltb_ℤ, leb_ℤ, eqb_ℤ, min_int64, in_int64, wrap64,
  add_overflows, quo, Result, err, ok, reject_if, ◌>>=◌, ◌>>◌, Bool, true, false, not, ◌&&◌, ◌||◌,
}
use tradeedge.Domain.{Side}

pub data Error : Type 0 where
  invalid_input position_mismatch out_of_order_fill arithmetic_overflow : Error
  currency_mismatch invalid_position invalid_fill_application : Error

-- `proportionalBasis`
unfoldable pub proportional_basis : ℤ → ℤ → ℤ → Result Error ℤ
proportional_basis basis closed open_quantity =
    let product = quo (basis *ℤ closed) open_quantity in
    if not (in_int64 product) then err arithmetic_overflow else ok product

unfoldable pub multiply : ℤ → ℤ → Result Error ℤ
multiply left right =
    let value = left *ℤ right in if not (in_int64 value) then err arithmetic_overflow else ok value

-- `checkedAdd`
unfoldable pub checked_add : ℤ → ℤ → Result Error ℤ
checked_add left right =
    if add_overflows left right then err arithmetic_overflow else ok (wrap64 (left +ℤ right))

-- `checkedSubtract`
unfoldable pub checked_subtract : ℤ → ℤ → Result Error ℤ
unfolding checked_add
checked_subtract left right =
    if eqb_ℤ right min_int64
    then err arithmetic_overflow
    else checked_add left (wrap64 (pos 0 -ℤ right))

-- `addNonnegative`
unfoldable pub add_nonnegative : ℤ → ℤ → Result Error ℤ
unfolding checked_add
add_nonnegative left right = do
  value ← checked_add left right
  reject_if (ltb_ℤ value (pos 0)) arithmetic_overflow
  ok value

-- `magnitude`, and `abs` of internal/accounting/model/position.go.
unfoldable pub magnitude : ℤ → ℤ
magnitude value = if ltb_ℤ value (pos 0) then wrap64 (pos 0 -ℤ value) else value

-- The results of `transition`.
pub record Change : Type 0 where
  pub net : ℤ
  pub basis : ℤ
  pub closed : ℤ
  pub opened : ℤ
  pub allocated : ℤ
  pub realized : ℤ

abbrev pub is_trade_side : Side → Bool
is_trade_side Side.buy = true
is_trade_side Side.sell = true
is_trade_side Side.other = false

-- The change of the net quantity that a trade makes.
unfoldable pub signed_quantity : Side → ℤ → ℤ
signed_quantity Side.sell quantity = wrap64 (pos 0 -ℤ quantity)
signed_quantity _ quantity = quantity

-- The quantity is opened, in the direction of the position.
unfoldable pub extend : ℤ → ℤ → ℤ → ℤ → ℤ → Result Error Change
extend net basis quantity price delta = do
  new_net ← checked_add net delta
  value ← multiply price quantity
  new_basis ← checked_add basis value
  ok (record {
    net = new_net;
    basis = new_basis;
    closed = pos 0;
    opened = quantity;
    allocated = pos 0;
    realized = pos 0;
  })

-- The basis of the part that is closed.
unfoldable pub allocate : ℤ → ℤ → ℤ → Result Error ℤ
allocate basis closed open_quantity =
    if eqb_ℤ closed open_quantity then ok basis else proportional_basis basis closed open_quantity

unfoldable pub realize : ℤ → ℤ → ℤ → Result Error ℤ
realize net closing_value allocated =
    if ltb_ℤ (pos 0) net
    then checked_subtract closing_value allocated
    else checked_subtract allocated closing_value

-- What is left of the basis, and what is opened on the other side.
unfoldable pub settle : ℤ → ℤ → ℤ → ℤ → ℤ → ℤ → ℤ → ℤ → Result Error Change
settle basis quantity price open_quantity new_net closed allocated realized =
    if ltb_ℤ quantity open_quantity
    then ok (record {
      net = new_net;
      basis = wrap64 (basis -ℤ allocated);
      closed = closed;
      opened = pos 0;
      allocated = allocated;
      realized = realized;
    })
    else if eqb_ℤ quantity open_quantity
    then ok (record {
      net = new_net;
      basis = pos 0;
      closed = closed;
      opened = pos 0;
      allocated = allocated;
      realized = realized;
    })
    else do
      new_basis ← multiply price (wrap64 (quantity -ℤ open_quantity))
      ok (record {
        net = new_net;
        basis = new_basis;
        closed = closed;
        opened = wrap64 (quantity -ℤ open_quantity);
        allocated = allocated;
        realized = realized;
      })

-- The part of a fill that closes, and what follows from it.
unfoldable pub close : ℤ → ℤ → ℤ → ℤ → ℤ → ℤ → ℤ → Result Error Change
close net basis quantity price delta open_quantity closed = do
  allocated ← allocate basis closed open_quantity
  closing_value ← multiply price closed
  realized ← realize net closing_value allocated
  new_net ← checked_add net delta
  settle basis quantity price open_quantity new_net closed allocated realized

-- The quantity closes the position, in part, in full, or past it.
unfoldable pub reduce : ℤ → ℤ → ℤ → ℤ → ℤ → Result Error Change
reduce net basis quantity price delta =
    let open_quantity = magnitude net in
    close net basis quantity price delta open_quantity
      (if ltb_ℤ quantity open_quantity then quantity else open_quantity)

-- The fill opens if there is no position or it goes the same way.
unfoldable pub same_direction : ℤ → ℤ → Bool
same_direction net delta =
    eqb_ℤ net (pos 0)
    || (ltb_ℤ (pos 0) net && ltb_ℤ (pos 0) delta)
    || (ltb_ℤ net (pos 0) && ltb_ℤ delta (pos 0))

unfoldable pub trade : ℤ → ℤ → ℤ → ℤ → ℤ → Result Error Change
trade net basis quantity price delta =
    if same_direction net delta
    then extend net basis quantity price delta
    else reduce net basis quantity price delta

-- `transition`
unfoldable pub transition : ℤ → ℤ → Side → ℤ → ℤ → Result Error Change
transition net basis side quantity price = do
  reject_if
      (leb_ℤ quantity (pos 0)
        || leb_ℤ price (pos 0)
        || not (is_trade_side side)
        || ltb_ℤ basis (pos 0)
        || eqb_ℤ net min_int64)
      invalid_input
  trade net basis quantity price (signed_quantity side quantity)
