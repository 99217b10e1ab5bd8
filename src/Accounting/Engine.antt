-- ===== src/Accounting/Engine.antt =====
-- internal/accounting/engine/engine.go: `Apply`, which takes the snapshot of a position, or none,
-- through one fill.
pub mod Books
pub mod Conservation
mod Tests
use tradeedge.Domain.{Error as MoneyError}
use tradeedge.Prelude.{
  ◌==◌, if◌then◌else◌, ℤ, pos, ltb_ℤ, eqb_ℤ, max_uint64, wrap_u64, Result, ok, err, ◌>>=◌, ◌>>◌,
  reject_if, Text, ascii, text_eq, Ordering, ℕ, ◌+◌, Bool, true, false, not, ◌&&◌, ◌||◌, Option,
  none, some,
}
use tradeedge.Accounting.Transition.{
  Error, invalid_input, position_mismatch, out_of_order_fill, arithmetic_overflow,
  currency_mismatch, multiply, add_nonnegative, magnitude, Change, transition,
}
use tradeedge.Accounting.Position.{
  PositionSnapshotSpec, PositionSnapshot, Digests, new_position_snapshot,
}
use tradeedge.Accounting.Fill.{
  AccountingFill, compare_keys, is_zero_fill, FillApplicationSpec, FillApplication,
  new_fill_application,
}
use tradeedge.Domain.{Money, no_money, new_money, add, Side}

pub record Applied : Type 0 where
  pub snapshot : PositionSnapshot
  pub application : FillApplication

-- What the engine derives with SHA-256: the digests of positions, the chain of applied fills, and the
-- identifier and the checksum of an application.
pub record EngineDigests : Type 0 where
  pub positions : Digests
  pub applied_checksum : ℕ → AccountingFill → ℕ
  pub application_id : ℕ → ℕ → ℕ
  pub application_checksum : FillApplicationSpec → ℕ

-- `domain.NewMoney` with its error dropped.
unfoldable pub money_or_zero : ℤ → Text → Money
money_or_zero minor currency = elim (new_money minor currency) [ ok m ↦ m | err _ ↦ no_money ]

-- `addMoney`: every error of `Money.Add` is reported as an overflow.
abbrev overflow_if_failed : Result MoneyError Money → Result Error Money
overflow_if_failed (ok m) = ok m
overflow_if_failed (err _) = err arithmetic_overflow

pub add_money : Money → ℤ → Result Error Money
add_money value delta = overflow_if_failed (add value (money_or_zero delta value.currency))

-- The fill has to belong to the position and to follow the fills applied.
pub check_position : Option PositionSnapshot → AccountingFill → Result Error (Unit {0})
check_position none fill = ok tt
check_position (some current) fill = do
  reject_if ((current.spec.position_id == 0) || not (current.spec.position_id == fill.position))
      position_mismatch
  reject_if
      (elim (compare_keys fill.ordering current.spec.last_ordering_key) [
        | Ordering.gt ↦ false
        | _ ↦ true
      ])
      out_of_order_fill

-- The specification of a position that no fill has touched.
pub fresh_spec : AccountingFill → Money → PositionSnapshotSpec
fresh_spec fill zero_money = record {
  schema_version = ascii "position-snapshot/v1";
  position_id = fill.position;
  portfolio_id = fill.spec.portfolio_id;
  instrument_id = fill.spec.instrument_id;
  revision = 0;
  net_quantity = pos 0;
  open_lot = none;
  open_cost_basis = zero_money;
  cumulative_bought_quantity = pos 0;
  cumulative_bought_value = zero_money;
  cumulative_sold_quantity = pos 0;
  cumulative_sold_value = zero_money;
  gross_realized_pnl = zero_money;
  authoritative_charges = zero_money;
  charges_available = false;
  last_ordering_key = record { occurred_at = 0; received_at = 0; fill_id = 0 };
  last_fill_id = 0;
  applied_fill_count = 0;
  applied_fill_checksum = 0;
  opened_at = 0;
  updated_at = 0;
  flat_at = 0;
}

-- Where the fill starts from: the specification, and the checksum of the snapshot before.
pub base_spec :
    Option PositionSnapshot → AccountingFill → Money → Result Error (PositionSnapshotSpec × ℕ)
base_spec none fill zero_money = ok (fresh_spec fill zero_money, 0)
base_spec (some current) fill zero_money = do
  reject_if (current.spec.revision == max_uint64) arithmetic_overflow
  reject_if (not (text_eq current.spec.open_cost_basis.currency fill.spec.fill.spec.price.currency))
      currency_mismatch
  ok (current.spec, current.checksum)

-- The cumulative quantity and value of the side of the fill.
pub accumulate_buy : PositionSnapshotSpec → ℤ → ℤ → Result Error PositionSnapshotSpec
accumulate_buy s quantity value = do
  bought ← add_nonnegative s.cumulative_bought_quantity quantity
  spent ← add_money s.cumulative_bought_value value
  ok (record s { cumulative_bought_quantity = bought; cumulative_bought_value = spent })

pub accumulate_sell : PositionSnapshotSpec → ℤ → ℤ → Result Error PositionSnapshotSpec
accumulate_sell s quantity value = do
  sold ← add_nonnegative s.cumulative_sold_quantity quantity
  received ← add_money s.cumulative_sold_value value
  ok (record s { cumulative_sold_quantity = sold; cumulative_sold_value = received })

pub accumulate : Side → PositionSnapshotSpec → ℤ → ℤ → Result Error PositionSnapshotSpec
unfolding accumulate_buy accumulate_sell
accumulate Side.buy s quantity value = accumulate_buy s quantity value
accumulate _ s quantity value = accumulate_sell s quantity value

-- `signsDiffer`
abbrev signs_differ : ℤ → ℤ → Bool
signs_differ left right =
    not (eqb_ℤ left (pos 0))
    && not (eqb_ℤ right (pos 0))
    && not (same_truth (ltb_ℤ left (pos 0)) (ltb_ℤ right (pos 0)))
  where
    same_truth : Bool → Bool → Bool
    same_truth true b = b
    same_truth false b = not b

-- The lot and the times of the position after the fill.
pub place_lot : PositionSnapshotSpec → ℤ → Change → ℕ → Text → PositionSnapshotSpec
place_lot s old_net c now currency =
    if eqb_ℤ c.net (pos 0)
    then record s { open_lot = none; flat_at = now; opened_at = opened (s.opened_at) }
    else let opened_at =
        if eqb_ℤ old_net (pos 0) || signs_differ old_net c.net then now else s.opened_at in
      record s {
        opened_at = opened opened_at;
        flat_at = 0;
        open_lot = some (record {
          side = if ltb_ℤ c.net (pos 0) then Side.sell else Side.buy;
          quantity = magnitude c.net;
          total_basis = money_or_zero c.basis currency;
          average_numerator = c.basis;
          average_denominator = magnitude c.net;
          opened_at = opened_at;
        });
      }
  where
    opened : ℕ → ℕ
    opened at = if at == 0 then now else at

-- The record of the application of a fill.
pub application_spec :
    EngineDigests
    → AccountingFill
    → PositionSnapshotSpec
    → ℕ
    → PositionSnapshot
    → Change
    → Text
    → FillApplicationSpec
application_spec d fill base previous_checksum next c currency = record {
  schema_version = ascii "fill-application/v1";
  id = d.application_id fill.position fill.spec.fill.id;
  position_id = fill.position;
  fill_id = fill.spec.fill.id;
  fill_checksum = fill.checksum;
  ordering_key = fill.ordering;
  previous_revision = base.revision;
  previous_snapshot_checksum = previous_checksum;
  next_revision = next.spec.revision;
  next_snapshot_checksum = next.checksum;
  closed_quantity = c.closed;
  opened_quantity = c.opened;
  allocated_closing_basis = money_or_zero c.allocated currency;
  gross_realized_delta = money_or_zero c.realized currency;
  applied_at = fill.ordering.received_at;
}

-- The specification after a fill that made the change `c`, before the lot is placed.
pub updated :
    EngineDigests
    → AccountingFill
    → PositionSnapshotSpec
    → Money
    → Change
    → Text
    → PositionSnapshotSpec
updated d fill s gross c currency = record s {
  gross_realized_pnl = gross;
  open_cost_basis = money_or_zero c.basis currency;
  net_quantity = c.net;
  revision = wrap_u64 (s.revision + 1);
  last_ordering_key = fill.ordering;
  last_fill_id = fill.spec.fill.id;
  applied_fill_count = wrap_u64 (s.applied_fill_count + 1);
  applied_fill_checksum = d.applied_checksum s.applied_fill_checksum fill;
  updated_at = fill.ordering.occurred_at;
}

pub posted :
    EngineDigests
    → AccountingFill
    → PositionSnapshotSpec
    → Money
    → ℤ
    → Change
    → Text
    → PositionSnapshotSpec
posted d fill s gross old_net c currency =
    place_lot (updated d fill s gross c currency) old_net c fill.ordering.occurred_at currency

-- `Apply`
pub apply : EngineDigests → Option PositionSnapshot → AccountingFill → Result Error Applied
apply d current fill =
    let quantity = fill.spec.fill.spec.quantity in
    let price = fill.spec.fill.spec.price in
    do
      reject_if (is_zero_fill fill) invalid_input
      check_position current fill
      value ← multiply price.minor quantity
      (base, previous_checksum) ← base_spec current fill (money_or_zero (pos 0) price.currency)
      c ←
          transition base.net_quantity base.open_cost_basis.minor fill.spec.side quantity
            price.minor
      sided ← accumulate fill.spec.side base quantity value
      gross ← add_money sided.gross_realized_pnl c.realized
      reject_if (sided.applied_fill_count == max_uint64) arithmetic_overflow
      next ←
          new_position_snapshot d.positions
            (posted d fill sided gross base.net_quantity c price.currency)
      application ←
          new_fill_application d.application_checksum
            (application_spec d fill base previous_checksum next c price.currency)
      ok (record { snapshot = next; application = application })
