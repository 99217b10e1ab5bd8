-- ===== src/Accounting/Transition/Ranges.antt =====
-- The results of `transition` of internal/accounting/engine/engine.go are 64-bit integers.
use tradeedge.Prelude.{
  if◌then◌else◌, Bool-cases, ℤ, pos, ◌+ℤ◌, ◌-ℤ◌, ◌*ℤ◌, ltb_ℤ, eqb_ℤ, IsInt64, wrap64,
  wrap64-IsInt64, in_int64→IsInt64, ok, >>=-eq-ok, reject_if-eq-ok, ◌≡◌, subst, inl, inr, arith,
}
use tradeedge.Accounting.Transition.{
  multiply, checked_add, checked_subtract, magnitude, Change, signed_quantity, extend, allocate,
  realize, settle, close, reduce, same_direction, trade, transition,
}
use tradeedge.Domain.{Side}

checked_add-fits : (l r : ℤ) {v : ℤ} → checked_add l r ≡ ok v → IsInt64 v
unfolding checked_add
checked_add-fits l r h = ground (arith, wrap64-IsInt64 (l +ℤ r))

multiply-fits : (l r : ℤ) {v : ℤ} → multiply l r ≡ ok v → IsInt64 v
unfolding multiply
multiply-fits l r h = ground (arith, in_int64→IsInt64 (l *ℤ r))

checked_subtract-fits : (l r : ℤ) {v : ℤ} → checked_subtract l r ≡ ok v → IsInt64 v
unfolding checked_subtract
checked_subtract-fits l r h = ground (arith, wrap64-IsInt64 (l +ℤ wrap64 (pos 0 -ℤ r)))

realize-fits : (net v a : ℤ) {r : ℤ} → realize net v a ≡ ok r → IsInt64 r
unfolding realize
realize-fits net v a {r} h =
    ground (arith, checked_subtract-fits v a {v = r}, checked_subtract-fits a v {v = r})

-- The values that go back into a position, and the gain.
pub record ChangeFits (c : Change) : Type 0 where
  pub net_fits : IsInt64 c.net
  pub basis_fits : IsInt64 c.basis
  pub realized_fits : IsInt64 c.realized

extend-fits :
    (net basis q p delta : ℤ) {c : Change} → extend net basis q p delta ≡ ok c → ChangeFits c
unfolding extend
extend-fits net basis q p delta {c} h =
    let (m, e1, k1) = >>=-eq-ok (checked_add net delta) _ h in
    let (v, e2, k2) = >>=-eq-ok (multiply p q) _ k1 in
    let (w, e3, k3) = >>=-eq-ok (checked_add basis v) _ k2 in
    let n = checked_add-fits net delta e1 in
    let b = checked_add-fits basis v e3 in
    let made : record {
      net = m;
      basis = w;
      closed = pos 0;
      opened = q;
      allocated = pos 0;
      realized = pos 0;
    }
        ≡ c =
      cc in
    subst ChangeFits made (record { net_fits = n; basis_fits = b; realized_fits = omega arith })

settle-fits :
    (basis q p open_quantity new_net closed allocated realized : ℤ) {c : Change}
    → IsInt64 new_net
    → IsInt64 realized
    → settle basis q p open_quantity new_net closed allocated realized ≡ ok c
    → ChangeFits c
unfolding settle
settle-fits basis q p o n k a r {c} hn hr h = elim (Bool-cases (ltb_ℤ q o)) [
  | inl less ↦ ground (arith, wrap64-IsInt64 (basis -ℤ a))
  | inr more ↦ elim (Bool-cases (eqb_ℤ q o)) [
    | inl same ↦ ground arith
    | inr past ↦
        let (b, e, k1) = >>=-eq-ok (multiply p (wrap64 (q -ℤ o))) _ (rw (more, past) at h) in
        let fits = multiply-fits p (wrap64 (q -ℤ o)) e in ground arith
  ]
]

close-fits :
    (net basis q p delta o k : ℤ) {c : Change} → close net basis q p delta o k ≡ ok c → ChangeFits c
unfolding close
close-fits net basis q p delta o k {c} h =
    let (a, e1, k1) = >>=-eq-ok (allocate basis k o) _ h in
    let (v, e2, k2) = >>=-eq-ok (multiply p k) _ k1 in
    let (r, e3, k3) = >>=-eq-ok (realize net v a) _ k2 in
    let (m, e4, k4) = >>=-eq-ok (checked_add net delta) _ k3 in
    settle-fits basis q p o m k a r (checked_add-fits net delta e4) (realize-fits net v a e3) k4

pub transition-fits :
    (net basis : ℤ) (side : Side) (q p : ℤ) {c : Change}
    → transition net basis side q p ≡ ok c
    → ChangeFits c
unfolding transition trade reduce
transition-fits net basis side q p {c} h =
    let delta = signed_quantity side q in
    let (_, k) = reject_if-eq-ok _ _ (trade net basis q p delta) h in
    elim (Bool-cases (same_direction net delta)) [
      | inl same ↦ extend-fits net basis q p delta (rw same at k)
      | inr against ↦
          close-fits net basis q p delta (magnitude net)
            (if ltb_ℤ q (magnitude net) then q else magnitude net) (rw against at k)
    ]
