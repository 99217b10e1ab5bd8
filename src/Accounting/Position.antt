-- ===== src/Accounting/Position.antt =====
-- internal/accounting/model/position.go: the snapshot of a position and the checks of
-- `NewPositionSnapshot`. The canonical JSON of a snapshot is left out; its checksum is a parameter.
pub mod Validity
use tradeedge.Prelude.{
  ltb, ◌==◌, if◌then◌else◌, ℤ, pos, ltb_ℤ, leb_ℤ, eqb_ℤ, min_int64, Result, ok, ◌>>=◌, ◌>>◌,
  reject_if, Text, is_empty, text_eq, trim_space, ℕ, Bool, true, false, not, ◌||◌, Option, none,
  some,
}
use tradeedge.Accounting.Transition.{Error, currency_mismatch, invalid_position, magnitude}
use tradeedge.Domain.{Money, is_zero_money, Side, same_side}

pub data PositionState : Type 0 where
  open_long open_short flat : PositionState

pub record PositionLot : Type 0 where
  pub side : Side
  pub quantity : ℤ
  pub total_basis : Money
  pub average_numerator : ℤ
  pub average_denominator : ℤ
  pub opened_at : ℕ

pub record FillOrderingKey : Type 0 where
  pub occurred_at : ℕ
  pub received_at : ℕ
  pub fill_id : ℕ

-- `FillOrderingKey.IsZero`
abbrev pub is_zero_key : FillOrderingKey → Bool
is_zero_key k = (k.occurred_at == 0) || (k.received_at == 0) || (k.fill_id == 0)

pub record PositionSnapshotSpec : Type 0 where
  pub schema_version : Text
  pub position_id : ℕ
  pub portfolio_id : ℕ
  pub instrument_id : ℕ
  pub revision : ℕ
  pub net_quantity : ℤ
  pub open_lot : Option PositionLot
  pub open_cost_basis : Money
  pub cumulative_bought_quantity : ℤ
  pub cumulative_bought_value : Money
  pub cumulative_sold_quantity : ℤ
  pub cumulative_sold_value : Money
  pub gross_realized_pnl : Money
  pub authoritative_charges : Money
  pub charges_available : Bool
  pub last_ordering_key : FillOrderingKey
  pub last_fill_id : ℕ
  pub applied_fill_count : ℕ
  pub applied_fill_checksum : ℕ
  pub opened_at : ℕ
  pub updated_at : ℕ
  pub flat_at : ℕ

pub record PositionSnapshot : Type 0 where
  pub spec : PositionSnapshotSpec
  pub state : PositionState
  pub checksum : ℕ

-- What the code derives with SHA-256, of identifiers or of the canonical JSON of a value.
pub record Digests : Type 0 where
  pub position_id : ℕ → ℕ → ℕ
  pub position_checksum : PositionSnapshotSpec → PositionState → ℕ

-- The first guard of `NewPositionSnapshot`: evidence that every snapshot carries.
unfoldable pub lacks_evidence : PositionSnapshotSpec → Bool
lacks_evidence s =
    is_empty s.schema_version
    || (s.position_id == 0)
    || (s.portfolio_id == 0)
    || (s.instrument_id == 0)
    || (s.revision == 0)
    || ltb_ℤ s.cumulative_bought_quantity (pos 0)
    || ltb_ℤ s.cumulative_sold_quantity (pos 0)
    || is_zero_money s.cumulative_bought_value
    || is_zero_money s.cumulative_sold_value
    || is_zero_money s.gross_realized_pnl
    || is_zero_money s.open_cost_basis
    || is_zero_money s.authoritative_charges
    || is_zero_key s.last_ordering_key
    || (s.last_fill_id == 0)
    || not (s.last_fill_id == s.last_ordering_key.fill_id)
    || (s.applied_fill_count == 0)
    || (s.applied_fill_checksum == 0)
    || (s.opened_at == 0)
    || (s.updated_at == 0)

-- The loop over the amounts, which have to be in the currency of the open basis.
unfoldable pub mixes_currencies : PositionSnapshotSpec → Bool
mixes_currencies s =
    let currency = s.open_cost_basis.currency in
    not (text_eq s.cumulative_bought_value.currency currency)
    || not (text_eq s.cumulative_sold_value.currency currency)
    || not (text_eq s.gross_realized_pnl.currency currency)
    || not (text_eq s.authoritative_charges.currency currency)

unfoldable pub has_negative_amount : PositionSnapshotSpec → Bool
has_negative_amount s =
    ltb_ℤ s.open_cost_basis.minor (pos 0)
    || ltb_ℤ s.cumulative_bought_value.minor (pos 0)
    || ltb_ℤ s.cumulative_sold_value.minor (pos 0)
    || ltb_ℤ s.authoritative_charges.minor (pos 0)
    || ltb s.updated_at s.opened_at

-- The state that the sign of a net quantity says.
unfoldable pub state_of : ℤ → PositionState
state_of net =
    if ltb_ℤ net (pos 0) then open_short else if ltb_ℤ (pos 0) net then open_long else flat

is_absent : Option PositionLot → Bool
is_absent none = true
is_absent (some _) = false

-- A flat position has no lot, no basis, and the time at which it went flat.
bad_flat : PositionSnapshotSpec → Bool
unfolding is_absent
bad_flat s =
    not (is_absent s.open_lot)
    || not (eqb_ℤ s.open_cost_basis.minor (pos 0))
    || (s.flat_at == 0)
    || ltb s.updated_at s.flat_at

-- An open position has a basis, and one lot that agrees with the net quantity and the basis.
disagrees : PositionSnapshotSpec → Side → PositionLot → Bool
disagrees s side lot =
    leb_ℤ s.open_cost_basis.minor (pos 0)
    || not (s.flat_at == 0)
    || not (lot.opened_at == s.opened_at)
    || not (eqb_ℤ lot.quantity (magnitude s.net_quantity))
    || not (eqb_ℤ lot.total_basis.minor s.open_cost_basis.minor)
    || not (text_eq lot.total_basis.currency s.open_cost_basis.currency)
    || not (eqb_ℤ lot.average_numerator s.open_cost_basis.minor)
    || not (eqb_ℤ lot.average_denominator (magnitude s.net_quantity))
    || leb_ℤ lot.quantity (pos 0)
    || not (same_side lot.side side)

bad_open : PositionSnapshotSpec → Side → Bool
unfolding disagrees
bad_open s side = elim (s.open_lot) [ none ↦ true | some lot ↦ disagrees s side lot ]

unfoldable pub bad_shape : PositionSnapshotSpec → PositionState → Bool
unfolding bad_flat bad_open
bad_shape s flat = bad_flat s
bad_shape s open_long = bad_open s Side.buy
bad_shape s open_short = bad_open s Side.sell

-- `NewPositionSnapshot`
unfoldable pub new_position_snapshot :
    Digests → PositionSnapshotSpec → Result Error PositionSnapshot
new_position_snapshot d given =
    let s = record given { schema_version = trim_space (given.schema_version) } in
    let state = state_of s.net_quantity in
    do
      reject_if (lacks_evidence s) invalid_position
      reject_if (not (d.position_id s.portfolio_id s.instrument_id == s.position_id))
          invalid_position
      reject_if (mixes_currencies s) currency_mismatch
      reject_if (has_negative_amount s) invalid_position
      reject_if (eqb_ℤ s.net_quantity min_int64) invalid_position
      reject_if (bad_shape s state) invalid_position
      ok (record { spec = s; state = state; checksum = d.position_checksum s state })
