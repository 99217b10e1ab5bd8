-- ===== src/Research/Backtest/Amounts.antt =====
-- The amounts of internal/research/backtest/engine.go: `moneyAddMinor` adds exactly, and a closed trade
-- has a 64-bit profit.
use tradeedge.Prelude.{
  Bool-cases, ℤ, pos, ◌+ℤ◌, ◌-ℤ◌, eqb_ℤ, min_int64, in_int64, IsInt64, wrap64, wrap64-IsInt64,
  in_int64→IsInt64, wrap64_of_in_int64, add_overflows, add_overflows_lem, Result, err, ok,
  reject_if-eq-ok, >>=-eq-ok, ok_injective, err-neq-ok, >>=-then, Text, ℕ, ◌≡◌, refl, sym, ap,
  subst, ◌∙◌, inl, inr, Bool, true, false, not, arith,
}
use tradeedge.Research.{from_domain}
use tradeedge.Research.Backtest.{Fill, Position, Trade}
use tradeedge.Research.Backtest.Ledger.{
  money_add_minor, combine_part, combine_costs, unit_gain, close_trade,
}
use tradeedge.Domain.{Error, currency_mismatch, money_overflow, new_currency, Money, new_money, add}
use tradeedge.Research.Arithmetic.{checked_add, checked_sub, checked_mul}
use tradeedge.Research.Cost.{Breakdown}

pub checked_add-IsInt64 : (l r : ℤ) {v : ℤ} → checked_add l r ≡ ok v → IsInt64 v
unfolding checked_add
checked_add-IsInt64 l r h = elim (Bool-cases (add_overflows l r)) [
  | inl bad ↦ err-neq-ok (rw bad at h)
  | inr good ↦ subst IsInt64 (ok_injective (rw good at h)) (wrap64-IsInt64 (l +ℤ r))
]

pub checked_sub-IsInt64 : (l r : ℤ) {v : ℤ} → checked_sub l r ≡ ok v → IsInt64 v
unfolding checked_sub
checked_sub-IsInt64 l r h = elim (Bool-cases (eqb_ℤ r min_int64)) [
  | inl bad ↦ err-neq-ok (rw bad at h)
  | inr good ↦ checked_add-IsInt64 l (wrap64 (pos 0 -ℤ r)) (rw good at h)
]

from_domain-eq-ok : {A : Type 0} (r : Result Error A) {a : A} → from_domain r ≡ ok a → r ≡ ok a
from_domain-eq-ok (err e) h = err-neq-ok h
from_domain-eq-ok (ok a) h = ap ok (ok_injective h)

new_money-minor : (m : ℤ) (c : Text) {v : Money} → new_money m c ≡ ok v → v.minor ≡ m
unfolding new_money
new_money-minor m c h =
    let (p, _, k) = >>=-eq-ok (new_currency c) _ h in ap (λ v. v.minor) (sym (ok_injective k))

fits_of : (a b : Bool) → a ≡ not b → a ≡ false → b ≡ true
fits_of a b e h = ground (arith, e, h)

add-minor :
    (m n : Money) {v : Money}
    → IsInt64 m.minor
    → IsInt64 n.minor
    → add m n ≡ ok v
    → (v.minor ≡ m.minor +ℤ n.minor) × IsInt64 v.minor
unfolding add
add-minor m n hm hn h =
    let (_, k) = reject_if-eq-ok _ currency_mismatch _ h in
    let (over, k1) = reject_if-eq-ok (add_overflows m.minor n.minor) money_overflow _ k in
    let fits : in_int64 (m.minor +ℤ n.minor) ≡ true =
      fits_of _ _ (add_overflows_lem m.minor n.minor hm hn) over in
    let same = ap (λ v. v.minor) (sym (ok_injective k1)) ∙ wrap64_of_in_int64 _ fits in
    (same, subst IsInt64 (sym same) (in_int64→IsInt64 _ fits))

-- `moneyAddMinor` on 64-bit amounts.
pub money_add_minor-Exact :
    (v : Money) (m : ℤ) {r : Money}
    → IsInt64 v.minor
    → IsInt64 m
    → money_add_minor v m ≡ ok r
    → (r.minor ≡ v.minor +ℤ m) × IsInt64 r.minor
unfolding money_add_minor
money_add_minor-Exact v m hv hm h =
    let (a, ea, k) = >>=-eq-ok (new_money m v.currency) _ (from_domain-eq-ok _ h) in
    let same = new_money-minor m v.currency ea in
    let (sum, fits) = add-minor v a hv (subst IsInt64 (sym same) hm) k in
    (sum ∙ ap (λ x. v.minor +ℤ x) same, fits)

-- What a closed trade copies.
pub record Closes (p : Position) (f : Fill) (t : Trade) : Type 0 where
  pub order_time : t.order_time ≡ p.entry_order_time
  pub fill_time : t.fill_time ≡ p.entry_fill_time
  pub exit_order_time : t.exit_order_time ≡ f.order_time
  pub exit_fill_time : t.exit_fill_time ≡ f.fill_time
  pub profit : IsInt64 t.net_pnl_minor

combine_costs-IsInt64 :
    (a b : Breakdown) (gross : ℤ) {c : Breakdown}
    → combine_costs a b gross ≡ ok c
    → IsInt64 c.net_pnl
unfolding combine_costs
combine_costs-IsInt64 a b gross {c} h =
    >>=-then (combine_part a.brokerage b.brokerage (pos 0)) _ h λ v1 _ k1.
      >>=-then (combine_part a.stt b.stt v1.1) _ k1 λ v2 _ k2.
        >>=-then (combine_part a.exchange_charges b.exchange_charges v2.1) _ k2 λ v3 _ k3.
          >>=-then (combine_part a.gst b.gst v3.1) _ k3 λ v4 _ k4.
            >>=-then (combine_part a.stamp_duty b.stamp_duty v4.1) _ k4 λ v5 _ k5.
              >>=-then (combine_part a.regulatory_charges b.regulatory_charges v5.1) _ k5 λ v6 _ k6.
                >>=-then (combine_part a.slippage b.slippage v6.1) _ k6 λ v7 _ k7.
                  >>=-then (combine_part a.spread_impact b.spread_impact v7.1) _ k7 λ v8 _ k8.
                    >>=-then (checked_sub gross v8.1) _ k8 λ n e k9.
                      subst (λ c. IsInt64 c.net_pnl) (ok_injective k9)
                        (checked_sub-IsInt64 gross v8.1 e)

pub close_trade-Closes :
    (digest : ℕ → ℕ → ℕ → Text) (version : Text) (p : Position) (f : Fill) (c : Breakdown)
    {t : Trade}
    → close_trade digest version p f c ≡ ok t
    → Closes p f t
unfolding close_trade
close_trade-Closes digest version p f c h =
    let (g, _, k1) =
      >>=-eq-ok (unit_gain p.side p.entry_reference_price.minor f.reference_price.minor) _ h in
    let (gross, _, k2) = >>=-eq-ok (checked_mul g p.quantity) _ k1 in
    let (b, eb, k3) = >>=-eq-ok (combine_costs p.entry_costs c gross) _ k2 in
    subst (Closes p f) (ok_injective k3) (record {
      order_time = refl;
      fill_time = refl;
      exit_order_time = refl;
      exit_fill_time = refl;
      profit = combine_costs-IsInt64 p.entry_costs c gross eb;
    })
