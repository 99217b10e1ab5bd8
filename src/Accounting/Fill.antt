-- ===== src/Accounting/Fill.antt =====
-- internal/accounting/model/fill.go and application.go: fills as the accounts see them, their
-- canonical order, and the record of one application.
use tradeedge.Prelude.{
  ltb, ◌==◌, if◌then◌else◌, ℤ, pos, ltb_ℤ, leb_ℤ, wrap_u64, Result, ok, ◌>>=◌, ◌>>◌, reject_if,
  Text, is_empty, text_eq, trim_space, compare, Ordering, ℕ, ◌+◌, Bool, not, ◌||◌,
}
use tradeedge.Accounting.Transition.{Error, invalid_fill_application, is_trade_side}
use tradeedge.Accounting.Position.{FillOrderingKey, is_zero_key, Digests}
use tradeedge.Execution.Order.{Fill}
use tradeedge.Domain.{Money, is_zero_money, is_valid_quantity, is_zero_price, Side}

pub record AccountingFillSpec : Type 0 where
  pub schema_version : Text
  pub fill : Fill
  pub portfolio_id : ℕ
  pub instrument_id : ℕ
  pub side : Side
  pub received_at : ℕ

pub record AccountingFill : Type 0 where
  pub spec : AccountingFillSpec
  pub position : ℕ
  pub ordering : FillOrderingKey
  pub checksum : ℕ

pub data FillError : Type 0 where
  invalid_accounting_fill unorderable_fill : FillError

-- `NewFillOrderingKey`
unfoldable pub new_fill_ordering_key : ℕ → ℕ → ℕ → Result FillError FillOrderingKey
new_fill_ordering_key occurred_at received_at fill_id = do
  reject_if ((occurred_at == 0) || (received_at == 0) || (fill_id == 0)) unorderable_fill
  ok (record { occurred_at = occurred_at; received_at = received_at; fill_id = fill_id })

-- `FillOrderingKey.Compare`: by the time of the trade, the time of receipt, and the fill. The hex
-- strings of two identifiers compare as the identifiers do.
unfoldable pub compare_keys : FillOrderingKey → FillOrderingKey → Ordering
compare_keys k l =
    if ltb k.occurred_at l.occurred_at
    then Ordering.lt
    else if ltb l.occurred_at k.occurred_at
    then Ordering.gt
    else if ltb k.received_at l.received_at
    then Ordering.lt
    else if ltb l.received_at k.received_at
    then Ordering.gt
    else compare k.fill_id l.fill_id

-- `NewAccountingFill`; the checksum of its canonical JSON is a parameter.
unfoldable pub new_accounting_fill :
    Digests → (AccountingFillSpec → ℕ) → AccountingFillSpec → Result FillError AccountingFill
unfolding new_fill_ordering_key
new_accounting_fill d fill_checksum given =
    let s = record given { schema_version = trim_space (given.schema_version) } in
    do
      reject_if
          (is_empty s.schema_version
            || (s.fill.id == 0)
            || (s.portfolio_id == 0)
            || (s.instrument_id == 0)
            || not (is_trade_side s.side)
            || (s.received_at == 0)
            || is_zero_price s.fill.spec.price
            || leb_ℤ s.fill.spec.price.minor (pos 0)
            || not (is_valid_quantity s.fill.spec.quantity))
          invalid_accounting_fill
      ordering ← new_fill_ordering_key s.fill.spec.occurred_at s.received_at s.fill.id
      ok (record {
        spec = s;
        position = d.position_id s.portfolio_id s.instrument_id;
        ordering = ordering;
        checksum = fill_checksum s;
      })

-- `AccountingFill.IsZero`
abbrev pub is_zero_fill : AccountingFill → Bool
is_zero_fill f = (f.position == 0) || (f.spec.fill.id == 0)

pub record FillApplicationSpec : Type 0 where
  pub schema_version : Text
  pub id : ℕ
  pub position_id : ℕ
  pub fill_id : ℕ
  pub fill_checksum : ℕ
  pub ordering_key : FillOrderingKey
  pub previous_revision : ℕ
  pub previous_snapshot_checksum : ℕ
  pub next_revision : ℕ
  pub next_snapshot_checksum : ℕ
  pub closed_quantity : ℤ
  pub opened_quantity : ℤ
  pub allocated_closing_basis : Money
  pub gross_realized_delta : Money
  pub applied_at : ℕ

pub record FillApplication : Type 0 where
  pub spec : FillApplicationSpec
  pub checksum : ℕ

-- `NewFillApplication`
unfoldable pub new_fill_application :
    (FillApplicationSpec → ℕ) → FillApplicationSpec → Result Error FillApplication
new_fill_application checksum s = do
  reject_if
      (is_empty s.schema_version
        || (s.id == 0)
        || (s.position_id == 0)
        || (s.fill_id == 0)
        || (s.fill_checksum == 0)
        || is_zero_key s.ordering_key
        || not (s.ordering_key.fill_id == s.fill_id)
        || (s.next_revision == 0)
        || not (s.next_revision == wrap_u64 (s.previous_revision + 1))
        || (s.next_snapshot_checksum == 0)
        || ltb_ℤ s.closed_quantity (pos 0)
        || ltb_ℤ s.opened_quantity (pos 0)
        || is_zero_money s.allocated_closing_basis
        || is_zero_money s.gross_realized_delta
        || not (text_eq s.allocated_closing_basis.currency s.gross_realized_delta.currency)
        || ltb_ℤ s.allocated_closing_basis.minor (pos 0)
        || (s.applied_at == 0))
      invalid_fill_application
  reject_if
      (if s.previous_revision == 0
        then not (s.previous_snapshot_checksum == 0)
        else s.previous_snapshot_checksum == 0)
      invalid_fill_application
  ok (record { spec = s; checksum = checksum s })
