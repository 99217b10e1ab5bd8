-- ===== src/Accounting/Engine/Books.antt =====
-- The amounts of a snapshot after `Apply` of internal/accounting/engine/engine.go: what a successful
-- call has added to each.
use tradeedge.Domain.{Error as MoneyError}
use tradeedge.Prelude.{
  Bool-cases, ℤ, pos, ◌+ℤ◌, ltb_ℤ, eqb_ℤ, IsInt64, in_int64→IsInt64, wrap64_of_in_int64,
  add_overflows_lem, Result, ok, err, >>=-eq-ok, reject_if-eq-ok, Text, is_empty, ℕ, ◌≡◌, refl, sym,
  ap, ◌∙◌, inl, inr, false, arith,
}
use tradeedge.Accounting.Transition.{arithmetic_overflow, checked_add, add_nonnegative, Change}
use tradeedge.Accounting.Transition.Checked.{checked_add_lem}
use tradeedge.Accounting.Transition.Books.{exact-eq-ok}
use tradeedge.Accounting.Position.{PositionSnapshotSpec, PositionSnapshot}
use tradeedge.Accounting.Position.Validity.{IsChecked}
use tradeedge.Accounting.Fill.{AccountingFill}
use tradeedge.Accounting.Engine.{
  EngineDigests, money_or_zero, overflow_if_failed, add_money, place_lot, updated, posted,
}
use tradeedge.Domain.{Money, new_money, add}

pub money_or_zero_minor :
    (minor : ℤ) (currency : Text)
    → is_empty (money_or_zero minor currency).currency ≡ false
    → (money_or_zero minor currency).minor ≡ minor
unfolding money_or_zero new_money
money_or_zero_minor minor currency h = ground arith

add_currency : (m n : Money) {r : Money} → add m n ≡ ok r → is_empty n.currency ≡ false
unfolding add
add_currency m n h = ground arith

add_minor :
    (m n : Money) {r : Money}
    → IsInt64 m.minor
    → IsInt64 n.minor
    → add m n ≡ ok r
    → (r.minor ≡ m.minor +ℤ n.minor) × IsInt64 r.minor
unfolding add
add_minor m n hm hn h = ground (
  arith,
  add_overflows_lem m.minor n.minor hm hn,
  wrap64_of_in_int64 (m.minor +ℤ n.minor),
  in_int64→IsInt64 (m.minor +ℤ n.minor),
)

not_failed : (r : Result MoneyError Money) {m : Money} → overflow_if_failed r ≡ ok m → r ≡ ok m
not_failed (ok m) h = cc
not_failed (err e) h = cc

-- An amount that was added is added exactly.
pub add_money-exact :
    (value : Money) (delta : ℤ) {m : Money}
    → IsInt64 value.minor
    → IsInt64 delta
    → add_money value delta ≡ ok m
    → (m.minor ≡ value.minor +ℤ delta) × IsInt64 m.minor
unfolding add_money
add_money-exact value delta {m} hv hd h =
    let amount = money_or_zero delta value.currency in
    let sum = not_failed (add value amount) h in
    let exact_amount = money_or_zero_minor delta value.currency (add_currency value amount sum) in
    let (e, fits) = add_minor value amount hv (rw exact_amount hd) sum in
    (e ∙ ap (λ x. value.minor +ℤ x) exact_amount, fits)

pub add_nonnegative-exact :
    (l r : ℤ) {v : ℤ}
    → IsInt64 l
    → IsInt64 r
    → add_nonnegative l r ≡ ok v
    → (v ≡ l +ℤ r) × IsInt64 v
unfolding add_nonnegative
add_nonnegative-exact l r {v} hl hr h =
    let (w, e, k) = >>=-eq-ok (checked_add l r) _ h in
    let (_, k2) = reject_if-eq-ok (ltb_ℤ w (pos 0)) arithmetic_overflow (ok w) k in
    let same : w ≡ v = cc in
    let (exactly, fits) = exact-eq-ok (l +ℤ r) (sym (checked_add_lem l r hl hr) ∙ e) in
    let eq = sym same ∙ exactly in (eq, rw eq (in_int64→IsInt64 (l +ℤ r) fits))

-- The amounts of a snapshot that the books are about.
pub record Ledger : Type 0 where
  pub net : ℤ
  pub basis : ℤ
  pub bought : ℤ
  pub sold : ℤ
  pub spent : ℤ
  pub received : ℤ
  pub realized : ℤ

abbrev pub ledger_of : PositionSnapshotSpec → Ledger
ledger_of s = record {
  net = s.net_quantity;
  basis = s.open_cost_basis.minor;
  bought = s.cumulative_bought_quantity;
  sold = s.cumulative_sold_quantity;
  spent = s.cumulative_bought_value.minor;
  received = s.cumulative_sold_value.minor;
  realized = s.gross_realized_pnl.minor;
}

-- Placing the lot leaves the books.
pub ledger-place_lot :
    (s : PositionSnapshotSpec) (old : ℤ) (c : Change) (now : ℕ) (currency : Text)
    → (ledger_of (place_lot s old c now currency) ≡ ledger_of s)
      × ((place_lot s old c now currency).open_cost_basis ≡ s.open_cost_basis)
unfolding place_lot
ledger-place_lot s old c now currency = elim (Bool-cases (eqb_ℤ c.net (pos 0))) [
  | inl e ↦ rw e (refl, refl)
  | inr e ↦ rw e (refl, refl)
]

-- The books of the specification that `Apply` hands to `NewPositionSnapshot`.
abbrev pub posted_ledger : PositionSnapshotSpec → Money → Change → Text → Ledger
posted_ledger s gross c currency = record {
  net = c.net;
  basis = (money_or_zero c.basis currency).minor;
  bought = s.cumulative_bought_quantity;
  sold = s.cumulative_sold_quantity;
  spent = s.cumulative_bought_value.minor;
  received = s.cumulative_sold_value.minor;
  realized = gross.minor;
}

pub ledger-posted :
    (d : EngineDigests) (fill : AccountingFill) (s : PositionSnapshotSpec) (gross : Money) (old : ℤ)
    (c : Change) (currency : Text)
    → (ledger_of (posted d fill s gross old c currency) ≡ posted_ledger s gross c currency)
      × ((posted d fill s gross old c currency).open_cost_basis ≡ money_or_zero c.basis currency)
unfolding posted updated
ledger-posted d fill s gross old c currency =
    ledger-place_lot (updated d fill s gross c currency) old c fill.ordering.occurred_at currency

-- The books of a snapshot that was checked, whose basis is the one that the fill left.
pub checked_ledger :
    (d : EngineDigests) (fill : AccountingFill) (s : PositionSnapshotSpec) (gross : Money) (old : ℤ)
    (c : Change) (currency : Text) {snapshot : PositionSnapshot}
    → IsChecked (posted d fill s gross old c currency) snapshot
    → ledger_of snapshot.spec ≡ record {
      net = c.net;
      basis = c.basis;
      bought = s.cumulative_bought_quantity;
      sold = s.cumulative_sold_quantity;
      spent = s.cumulative_bought_value.minor;
      received = s.cumulative_sold_value.minor;
      realized = gross.minor;
    }
checked_ledger d fill s gross old c currency {snapshot} k =
    let (e, m) = ledger-posted d fill s gross old c currency in
    let basis = money_or_zero_minor c.basis currency (rw m at (k.has_currency)) in
    ap ledger_of k.same ∙ e ∙ rw basis
