-- ===== src/Accounting/Engine/Conservation.antt =====
-- The books of a position under `Apply` of internal/accounting/engine/engine.go: quantities and money
-- are conserved by every fill.
use tradeedge.Prelude.{
  ◌==◌, ℤ, pos, negsuc, pos_part, neg_part, ◌+ℤ◌, ◌-ℤ◌, ◌*ℤ◌, ◌≤ℤ◌, ◌<ℤ◌, int_laws, max_uint64,
  IsInt64, in_int64→IsInt64, Result, ok, err, ◌>>=◌, >>=-eq-ok, reject_if-eq-ok, Text, ℕ, ◌≡◌, refl,
  sym, ap, subst, ◌∙◌, ◌≢◌, Option, none, some, arith,
}
use tradeedge.Accounting.Transition.{
  Error, invalid_input, arithmetic_overflow, multiply, add_nonnegative, Change, trade, transition,
}
use tradeedge.Accounting.Transition.DoubleEntry.{
  signed_basis, IsPosition, movement, trade_value, signed_of_nonneg,
}
use tradeedge.Accounting.Transition.Entries.{Entry, transition-Entry}
use tradeedge.Accounting.Transition.Ranges.{ChangeFits, transition-fits}
use tradeedge.Accounting.Transition.Checked.{multiply_lem}
use tradeedge.Accounting.Transition.Books.{exact-eq-ok}
use tradeedge.Accounting.Position.{PositionSnapshotSpec, PositionSnapshot, new_position_snapshot}
use tradeedge.Accounting.Position.Validity.{IsChecked, new_position_snapshot-IsChecked}
use tradeedge.Accounting.Fill.{AccountingFill, is_zero_fill, FillApplication}
use tradeedge.Accounting.Engine.{
  Applied, EngineDigests, money_or_zero, add_money, check_position, fresh_spec, base_spec,
  accumulate, posted, apply,
}
use tradeedge.Accounting.Engine.Books.{
  money_or_zero_minor, add_money-exact, add_nonnegative-exact, Ledger, ledger_of, ledger-posted,
  checked_ledger,
}
use tradeedge.Domain.{Money, new_money, Side}

-- The books balance: the net quantity is what was bought less what was sold, and the gross realized
-- gain is the signed basis, with what was received, less what was spent.
pub record IsBalanced (l : Ledger) : Type 0 where
  pub position : IsPosition l.net l.basis
  pub bought_fits : IsInt64 l.bought
  pub sold_fits : IsInt64 l.sold
  pub spent_fits : IsInt64 l.spent
  pub received_fits : IsInt64 l.received
  pub realized_fits : IsInt64 l.realized
  pub quantities : l.net ≡ l.bought -ℤ l.sold
  pub money : l.realized +ℤ l.spent ≡ signed_basis l.net l.basis +ℤ l.received

abbrev pub IsBooked : PositionSnapshotSpec → Type 0
IsBooked s = IsBalanced (ledger_of s)

-- What the side of a fill adds to the cumulative amounts.
record Sided (side : Side) (s t : PositionSnapshotSpec) (quantity value : ℤ) : Type 0 where
  bought_fits : IsInt64 t.cumulative_bought_quantity
  sold_fits : IsInt64 t.cumulative_sold_quantity
  spent_fits : IsInt64 t.cumulative_bought_value.minor
  received_fits : IsInt64 t.cumulative_sold_value.minor
  realized_fits : IsInt64 t.gross_realized_pnl.minor
  same_realized : t.gross_realized_pnl ≡ s.gross_realized_pnl
  quantities :
      t.cumulative_bought_quantity -ℤ t.cumulative_sold_quantity
      ≡ s.cumulative_bought_quantity -ℤ s.cumulative_sold_quantity +ℤ movement side quantity
  money :
      t.cumulative_bought_value.minor -ℤ t.cumulative_sold_value.minor
      ≡ s.cumulative_bought_value.minor -ℤ s.cumulative_sold_value.minor +ℤ movement side value

bought_more : (a b c d : ℤ) → d ≡ a +ℤ c → d -ℤ b ≡ a -ℤ b +ℤ c
bought_more a b c d h = rw h (omega int_laws)

sold_more : (a b c d : ℤ) → d ≡ b +ℤ c → a -ℤ d ≡ a -ℤ b +ℤ (pos 0 -ℤ c)
sold_more a b c d h = rw h (omega int_laws)

accumulate-Sided :
    (side : Side) (s : PositionSnapshotSpec) (quantity value : ℤ) {t : PositionSnapshotSpec}
    → side ≢ Side.other
    → IsBooked s
    → IsInt64 quantity
    → IsInt64 value
    → accumulate side s quantity value ≡ ok t
    → Sided side s t quantity value
unfolding accumulate
accumulate-Sided Side.buy s quantity value {t} trade b hq hv h =
    let (x, e1, k1) = >>=-eq-ok (add_nonnegative s.cumulative_bought_quantity quantity) _ h in
    let (m, e2, k2) = >>=-eq-ok (add_money s.cumulative_bought_value value) _ k1 in
    let (ex, fx) =
      add_nonnegative-exact s.cumulative_bought_quantity quantity b.bought_fits hq e1 in
    let (em, fm) = add_money-exact s.cumulative_bought_value value b.spent_fits hv e2 in
    let made : record s { cumulative_bought_quantity = x; cumulative_bought_value = m } ≡ t = cc in
    subst (λ u. Sided Side.buy s u quantity value) made
      (record {
        bought_fits = fx;
        sold_fits = b.sold_fits;
        spent_fits = fm;
        received_fits = b.received_fits;
        realized_fits = b.realized_fits;
        same_realized = refl;
        quantities = bought_more _ _ _ _ ex;
        money = bought_more _ _ _ _ em;
      })
accumulate-Sided Side.sell s quantity value {t} trade b hq hv h =
    let (x, e1, k1) = >>=-eq-ok (add_nonnegative s.cumulative_sold_quantity quantity) _ h in
    let (m, e2, k2) = >>=-eq-ok (add_money s.cumulative_sold_value value) _ k1 in
    let (ex, fx) = add_nonnegative-exact s.cumulative_sold_quantity quantity b.sold_fits hq e1 in
    let (em, fm) = add_money-exact s.cumulative_sold_value value b.received_fits hv e2 in
    let made : record s { cumulative_sold_quantity = x; cumulative_sold_value = m } ≡ t = cc in
    subst (λ u. Sided Side.sell s u quantity value) made
      (record {
        bought_fits = b.bought_fits;
        sold_fits = fx;
        spent_fits = b.spent_fits;
        received_fits = fm;
        realized_fits = b.realized_fits;
        same_realized = refl;
        quantities = sold_more _ _ _ _ ex;
        money = sold_more _ _ _ _ em;
      })
accumulate-Sided Side.other s quantity value trade b hq hv h = absurd (trade refl)

-- What a fill brings in: 64-bit numbers.
pub record FillFits (fill : AccountingFill) : Type 0 where
  pub quantity_fits : IsInt64 fill.spec.fill.spec.quantity
  pub price_fits : IsInt64 fill.spec.fill.spec.price.minor

shift :
    (g b s b' s' r o m : ℤ)
    → g +ℤ b ≡ o +ℤ s
    → b' -ℤ s' ≡ b -ℤ s +ℤ m
    → g +ℤ r +ℤ b' ≡ o +ℤ m +ℤ r +ℤ s'
shift g b s b' s' r o m h k =
    omega (int_laws, ap pos_part h, ap neg_part h, ap pos_part k, ap neg_part k)

value_moves :
    (side : Side) (quantity price : ℤ)
    → side ≢ Side.other
    → trade_value side quantity price ≡ movement side (price *ℤ quantity)
value_moves Side.buy quantity price h = refl
value_moves Side.sell quantity price h = refl
value_moves Side.other quantity price h = refl

net_moves : (net k m n : ℤ) → net ≡ k → n ≡ net +ℤ m → n ≡ k +ℤ m
net_moves net k m n h e = rw (← h) e

-- The books after a fill, from those before it.
posted-IsBooked :
    (d : EngineDigests) (fill : AccountingFill) (base sided : PositionSnapshotSpec) (c : Change)
    (gross : Money) (currency : Text) (side : Side) (quantity price : ℤ)
    {snapshot : PositionSnapshot}
    → side ≢ Side.other
    → Entry base.net_quantity base.open_cost_basis.minor side quantity price c
    → ChangeFits c
    → IsBooked base
    → Sided side base sided quantity (price *ℤ quantity)
    → (gross.minor ≡ sided.gross_realized_pnl.minor +ℤ c.realized) × IsInt64 gross.minor
    → IsChecked (posted d fill sided gross base.net_quantity c currency) snapshot
    → IsBooked snapshot.spec
posted-IsBooked d fill base sided c gross currency side quantity price {snapshot} trade e f b s g
      k =
    let l = checked_ledger d fill sided gross base.net_quantity c currency k in
    let (p, m) = ledger-posted d fill sided gross base.net_quantity c currency in
    let n : (posted d fill sided gross base.net_quantity c currency).net_quantity ≡ c.net =
      ap (λ x. x.net) p in
    let basis : (posted d fill sided gross base.net_quantity c currency).open_cost_basis.minor
        ≡ c.basis =
      ap (λ (x : Money). x.minor) m
      ∙ money_or_zero_minor c.basis currency (rw m at (k.has_currency)) in
    subst IsBalanced (sym l) (record {
      position = record {
        net_fits = f.net_fits;
        net_above = rw n at (k.not_minimal);
        basis_fits = f.basis_fits;
        basis_nonneg = rw basis at (k.basis_nonneg);
        open_iff = rw (n, basis) at (k.open_iff);
      };
      bought_fits = s.bought_fits;
      sold_fits = s.sold_fits;
      spent_fits = s.spent_fits;
      received_fits = s.received_fits;
      realized_fits = g.1;
      quantities = net_moves _ _ _ _ b.quantities e.moved ∙ sym s.quantities;
      money =
          rw (e.balanced, value_moves side quantity price trade, g.0, s.same_realized)
            (shift _ _ _ _ _ c.realized _ _ b.money s.money);
    })

zero_minor : (currency : Text) → (money_or_zero (pos 0) currency).minor ≡ pos 0
unfolding money_or_zero new_money
zero_minor currency = ground arith

-- The books of a position that no fill has touched.
fresh-IsBooked :
    (fill : AccountingFill) (currency : Text)
    → IsBooked (fresh_spec fill (money_or_zero (pos 0) currency))
unfolding fresh_spec
fresh-IsBooked fill currency = rw (zero_minor currency) zero_books
  where
    zero_books : IsBalanced (record {
      net = pos 0;
      basis = pos 0;
      bought = pos 0;
      sold = pos 0;
      spent = pos 0;
      received = pos 0;
      realized = pos 0;
    })
    zero_books = record {
      position = record {
        net_fits = omega arith;
        net_above = λ e. cc;
        basis_fits = omega arith;
        basis_nonneg = omega arith;
        open_iff = (λ e. e, λ e. e);
      };
      bought_fits = omega arith;
      sold_fits = omega arith;
      spent_fits = omega arith;
      received_fits = omega arith;
      realized_fits = omega arith;
      quantities = omega int_laws;
      money = rw (signed_of_nonneg (pos 0) (pos 0) (omega arith)) refl;
    }

-- The books of a snapshot, those of no snapshot being empty.
abbrev pub AreBooked : Option PositionSnapshot → Type 0
AreBooked none = Unit
AreBooked (some snapshot) = IsBooked snapshot.spec

base-IsBooked :
    (current : Option PositionSnapshot) (fill : AccountingFill) (currency : Text)
    {base : PositionSnapshotSpec} {checksum : ℕ}
    → AreBooked current
    → base_spec current fill (money_or_zero (pos 0) currency) ≡ ok (base, checksum)
    → IsBooked base
unfolding base_spec
base-IsBooked none fill currency {base} b h =
    let same : fresh_spec fill (money_or_zero (pos 0) currency) ≡ base = cc in
    subst IsBooked same (fresh-IsBooked fill currency)
base-IsBooked (some current) fill currency {base} b h =
    let same : current.spec ≡ base = ground arith in subst IsBooked same b

-- What `transition` accepts: a trade in some quantity at some price.
transition_guards :
    (net basis : ℤ) (side : Side) (quantity price : ℤ) {c : Change}
    → transition net basis side quantity price ≡ ok c
    → (side ≢ Side.other) × (pos 0 ≤ℤ basis) × (pos 0 <ℤ quantity) × (pos 0 <ℤ price)
unfolding transition
transition_guards net basis side quantity price h = ground arith

transition-Entry-ℤ :
    (net basis : ℤ) (side : Side) (quantity price : ℤ) {c : Change}
    → IsPosition net basis
    → IsInt64 quantity
    → transition net basis side quantity price ≡ ok c
    → (side ≢ Side.other) × Entry net basis side quantity price c
transition-Entry-ℤ net (pos b) side (pos q) (pos p) i hq h =
    let (trade, _, _, _) = transition_guards net (pos b) side (pos q) (pos p) h in
    let flat = λ (e : net ≡ pos 0). ap pos_part (i.open_iff.0 e) in
    (trade, transition-Entry net b side q p i.net_fits i.basis_fits hq flat h)
transition-Entry-ℤ net (negsuc b) side quantity price i hq h =
    absurd (omega (arith, (transition_guards net (negsuc b) side quantity price h).1))
transition-Entry-ℤ net (pos b) side (negsuc q) price i hq h =
    absurd (omega (arith, (transition_guards net (pos b) side (negsuc q) price h).2))
transition-Entry-ℤ net (pos b) side (pos q) (negsuc p) i hq h =
    absurd (omega (arith, (transition_guards net (pos b) side (pos q) (negsuc p) h).3))

-- The steps of a successful call.
record Posting (d : EngineDigests) (current : Option PositionSnapshot) (fill : AccountingFill)
    (snapshot : PositionSnapshot) : Type 0 where
  value : ℤ
  base : PositionSnapshotSpec
  checksum : ℕ
  change : Change
  sided : PositionSnapshotSpec
  gross : Money
  valued : multiply fill.spec.fill.spec.price.minor fill.spec.fill.spec.quantity ≡ ok value
  started :
      base_spec current fill (money_or_zero (pos 0) fill.spec.fill.spec.price.currency)
      ≡ ok (base, checksum)
  changed :
      transition base.net_quantity base.open_cost_basis.minor fill.spec.side
        fill.spec.fill.spec.quantity fill.spec.fill.spec.price.minor
      ≡ ok change
  accumulated : accumulate fill.spec.side base fill.spec.fill.spec.quantity value ≡ ok sided
  realized : add_money sided.gross_realized_pnl change.realized ≡ ok gross
  stored :
      new_position_snapshot d.positions
        (posted d fill sided gross base.net_quantity change fill.spec.fill.spec.price.currency)
      ≡ ok snapshot

applied_snapshot :
    (m : Result Error FillApplication) (next : PositionSnapshot) {r : Applied}
    → (m >>= λ application. ok (record { snapshot = next; application = application })) ≡ ok r
    → r.snapshot ≡ next
applied_snapshot (ok application) next h = cc
applied_snapshot (err e) next h = cc

apply-Posting :
    (d : EngineDigests) (current : Option PositionSnapshot) (fill : AccountingFill) {r : Applied}
    → apply d current fill ≡ ok r
    → Posting d current fill r.snapshot
unfolding apply
apply-Posting d current fill {r} h =
    let quantity = fill.spec.fill.spec.quantity in
    let price = fill.spec.fill.spec.price in
    let (_, k1) = reject_if-eq-ok (is_zero_fill fill) invalid_input _ h in
    let (_, _, k2) = >>=-eq-ok (check_position current fill) _ k1 in
    let (value, e3, k3) = >>=-eq-ok (multiply price.minor quantity) _ k2 in
    let (started, e4, k4) =
      >>=-eq-ok (base_spec current fill (money_or_zero (pos 0) price.currency)) _ k3 in
    let (c, e5, k5) =
      >>=-eq-ok
        (transition started.0.net_quantity started.0.open_cost_basis.minor fill.spec.side quantity
          price.minor)
        _ k4 in
    let (sided, e6, k6) = >>=-eq-ok (accumulate fill.spec.side started.0 quantity value) _ k5 in
    let (gross, e7, k7) = >>=-eq-ok (add_money sided.gross_realized_pnl c.realized) _ k6 in
    let (_, k8) =
      reject_if-eq-ok (sided.applied_fill_count == max_uint64) arithmetic_overflow _ k7 in
    let (next, e9, k9) =
      >>=-eq-ok
        (new_position_snapshot d.positions
          (posted d fill sided gross started.0.net_quantity c price.currency))
        _ k8 in
    subst (Posting d current fill) (sym (applied_snapshot _ next k9)) (record {
      value = value;
      base = started.0;
      checksum = started.1;
      change = c;
      sided = sided;
      gross = gross;
      valued = e3;
      started = e4;
      changed = e5;
      accumulated = e6;
      realized = e7;
      stored = e9;
    })

-- A fill of 64-bit quantity and price that `Apply` accepts, for a new position or for one whose books
-- balance, leaves books that balance: the net quantity is what was bought less what was sold, and
-- the signed cost basis is what was spent less what was received, with the gain realized.
pub apply-IsBooked :
    (d : EngineDigests) (current : Option PositionSnapshot) (fill : AccountingFill) {r : Applied}
    → AreBooked current
    → FillFits fill
    → apply d current fill ≡ ok r
    → IsBooked r.snapshot.spec
apply-IsBooked d current fill {r} b f h =
    let p = apply-Posting d current fill h in
    let quantity = fill.spec.fill.spec.quantity in
    let price = fill.spec.fill.spec.price.minor in
    let booked = base-IsBooked current fill fill.spec.fill.spec.price.currency b p.started in
    let (trade, entry) =
      transition-Entry-ℤ p.base.net_quantity p.base.open_cost_basis.minor fill.spec.side quantity
        price booked.position f.quantity_fits p.changed in
    let fits =
      transition-fits p.base.net_quantity p.base.open_cost_basis.minor fill.spec.side quantity price
        p.changed in
    let (ev, in_range) =
      exact-eq-ok (price *ℤ quantity) (sym (multiply_lem price quantity) ∙ p.valued) in
    let s =
      accumulate-Sided fill.spec.side p.base quantity (price *ℤ quantity) trade booked
        f.quantity_fits (in_int64→IsInt64 (price *ℤ quantity) in_range)
        (rw ev at (p.accumulated)) in
    let g =
      add_money-exact p.sided.gross_realized_pnl p.change.realized s.realized_fits
        fits.realized_fits p.realized in
    posted-IsBooked d fill p.base p.sided p.change p.gross fill.spec.fill.spec.price.currency
      fill.spec.side quantity price trade entry fits booked s g
      (new_position_snapshot-IsChecked d.positions _ p.stored)
