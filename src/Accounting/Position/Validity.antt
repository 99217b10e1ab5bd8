-- ===== src/Accounting/Position/Validity.antt =====
-- What `NewPositionSnapshot` of internal/accounting/model/position.go checks.
use tradeedge.Prelude.{
  ◌==◌, Option-cases, ℤ, pos, negsuc, pos_part, ◌≤ℤ◌, ◌<ℤ◌, eqb_ℤ, eq_of_parts, min_int64, ok,
  reject_if-eq-ok, is_empty, trim_space, ℕ, zero, suc, ◌≡◌, refl, ap, ◌≢◌, ◌↔◌, inl, inr, true,
  false, not, arith,
}
use tradeedge.Accounting.Transition.{currency_mismatch, invalid_position}
use tradeedge.Accounting.Position.{
  PositionState, PositionLot, PositionSnapshotSpec, PositionSnapshot, Digests, lacks_evidence,
  mixes_currencies, has_negative_amount, state_of, bad_flat, disagrees, bad_open, bad_shape,
  new_position_snapshot,
}
use tradeedge.Domain.{Side}

-- A snapshot that the constructor returns has the specification given, but for the trimmed schema
-- version, with a basis in some currency, not negative, and above zero exactly if the position is
-- open.
pub record IsChecked (given : PositionSnapshotSpec) (snapshot : PositionSnapshot) : Type 0 where
  pub same : snapshot.spec ≡ record given { schema_version = trim_space given.schema_version }
  pub state_agrees : snapshot.state ≡ state_of given.net_quantity
  pub has_currency : is_empty given.open_cost_basis.currency ≡ false
  pub basis_nonneg : pos 0 ≤ℤ given.open_cost_basis.minor
  pub not_minimal : given.net_quantity ≢ min_int64
  pub open_iff : (given.net_quantity ≡ pos 0) ↔ (given.open_cost_basis.minor ≡ pos 0)

evidence_currency :
    (s : PositionSnapshotSpec)
    → lacks_evidence s ≡ false
    → is_empty s.open_cost_basis.currency ≡ false
unfolding lacks_evidence
evidence_currency s h = ground arith

basis_sign :
    (s : PositionSnapshotSpec) → has_negative_amount s ≡ false → pos 0 ≤ℤ s.open_cost_basis.minor
unfolding has_negative_amount
basis_sign s h = ground arith

flat_basis : (s : PositionSnapshotSpec) → bad_flat s ≡ false → s.open_cost_basis.minor ≡ pos 0
unfolding bad_flat
flat_basis s h = ground (arith, eq_of_parts s.open_cost_basis.minor (pos 0))

lot_basis :
    (s : PositionSnapshotSpec) (side : Side) (lot : PositionLot)
    → disagrees s side lot ≡ false
    → pos 0 <ℤ s.open_cost_basis.minor
unfolding disagrees
lot_basis s side lot h = ground arith

open_basis :
    (s : PositionSnapshotSpec) (side : Side)
    → bad_open s side ≡ false
    → pos 0 <ℤ s.open_cost_basis.minor
unfolding bad_open
open_basis s side h = elim (Option-cases s.open_lot) [
  | inl e ↦ absurd (no_lot (rw (e, bad_open) at h))
  | inr (lot, e) ↦ lot_basis s side lot (rw (e, bad_open) at h)
]
  where
    no_lot : true ≡ false → ⊥
    no_lot h = cc

state_of_long : (n : ℕ) → state_of (pos (suc n)) ≡ PositionState.open_long
unfolding state_of
state_of_long n = ground arith

state_of_short : (n : ℕ) → state_of (negsuc n) ≡ PositionState.open_short
unfolding state_of
state_of_short n = ground arith

iff_of_open : (net basis : ℤ) → net ≢ pos 0 → pos 0 <ℤ basis → (net ≡ pos 0) ↔ (basis ≡ pos 0)
iff_of_open net basis h k = (λ e. absurd (h e), λ e. absurd (omega (arith, ap pos_part e)))

shape_iff :
    (s : PositionSnapshotSpec) (net : ℤ)
    → bad_shape s (state_of net) ≡ false
    → (net ≡ pos 0) ↔ (s.open_cost_basis.minor ≡ pos 0)
unfolding bad_shape
shape_iff s (pos zero) h = (λ _. flat_basis s (unfold state_of bad_shape in h), λ _. refl)
shape_iff s (pos (suc n)) h =
    iff_of_open (pos (suc n)) s.open_cost_basis.minor (λ e. cc)
      (open_basis s Side.buy (rw state_of_long at h))
shape_iff s (negsuc n) h =
    iff_of_open (negsuc n) s.open_cost_basis.minor (λ e. cc)
      (open_basis s Side.sell (rw state_of_short at h))

not_min : (net : ℤ) → net ≡ min_int64 → ¬ (eqb_ℤ net min_int64 ≡ false)
not_min net e h = ground arith

-- A snapshot that `NewPositionSnapshot` returns has the specification given, but for the trimmed
-- schema version, and the state that its quantity has; its basis has a currency, is not negative and
-- is zero exactly if the position is flat, and the quantity is not the least int64.
pub new_position_snapshot-IsChecked :
    (d : Digests) (given : PositionSnapshotSpec) {snapshot : PositionSnapshot}
    → new_position_snapshot d given ≡ ok snapshot
    → IsChecked given snapshot
unfolding new_position_snapshot
new_position_snapshot-IsChecked d given {snapshot} h =
    let s : PositionSnapshotSpec = record given {
      schema_version = trim_space (given.schema_version);
    } in
    let (e1, k1) = reject_if-eq-ok (lacks_evidence s) invalid_position _ h in
    let (e2, k2) =
      reject_if-eq-ok (not (d.position_id s.portfolio_id s.instrument_id == s.position_id))
        invalid_position _ k1 in
    let (e3, k3) = reject_if-eq-ok (mixes_currencies s) currency_mismatch _ k2 in
    let (e4, k4) = reject_if-eq-ok (has_negative_amount s) invalid_position _ k3 in
    let (e5, k5) = reject_if-eq-ok (eqb_ℤ s.net_quantity min_int64) invalid_position _ k4 in
    let (e6, k6) = reject_if-eq-ok (bad_shape s (state_of s.net_quantity)) invalid_position _ k5 in
    let made : snapshot ≡ record {
      spec = s;
      state = state_of s.net_quantity;
      checksum = d.position_checksum s (state_of s.net_quantity);
    } =
      cc in
    record {
      same = rw made;
      state_agrees = rw made;
      has_currency = evidence_currency s e1;
      basis_nonneg = basis_sign s e4;
      not_minimal = λ e. not_min given.net_quantity e e5;
      open_iff = shape_iff s given.net_quantity e6;
    }
