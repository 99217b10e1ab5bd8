-- ===== src/Accounting/Transition/Books.antt =====
-- `transition` of internal/accounting/engine/engine.go against exact arithmetic: what a fill opens,
-- closes, allocates and realizes.
use tradeedge.Prelude.{
  ltb, ◌==◌, if◌then◌else◌, ltb→lt, Bool-cases, ℤ, pos, negsuc, ◌+ℤ◌, ◌-ℤ◌, ◌*ℤ◌, ltb_ℤ, min_int64,
  in_int64, IsInt64, wrap64, in_int64→IsInt64, ok, >>=-eq-ok, ℕ, zero, suc, ◌-◌, ◌*◌, ◌/◌, ◌≤◌, ◌<◌,
  ◌≡◌, sym, subst, ◌∙◌, ◌≢◌, inl, inr, true, false, arith,
}
use tradeedge.Accounting.Transition.Checked.{
  exact, multiply_lem, checked_add_lem, checked_subtract_lem, pos-*ℤ-pos, share-le,
  proportional_basis_lem,
}
use tradeedge.Accounting.Transition.{
  multiply, checked_add, checked_subtract, magnitude, Change, extend, allocate, realize, settle,
  close, reduce,
}

-- The change of a fill that extends a position, in exact integers.
abbrev pub extended : ℤ → ℤ → ℕ → ℕ → ℤ → Change
extended net basis quantity price delta = record {
  net = net +ℤ delta;
  basis = basis +ℤ pos (price * quantity);
  closed = pos 0;
  opened = pos quantity;
  allocated = pos 0;
  realized = pos 0;
}

-- What `quantity` closes of `n` units.
abbrev pub part : ℕ → ℕ → ℕ
part quantity n = if ltb quantity n then quantity else n

-- The share of a basis that closing `quantity` out of `n` takes.
abbrev pub share : ℕ → ℕ → ℕ → ℕ
share basis quantity n = if ltb quantity n then basis * quantity / n else basis

-- The gain of closing: proceeds less basis for a long position, basis less cost for a short one.
abbrev pub gain : ℤ → ℕ → ℕ → ℤ
gain (pos zero) value allocated = pos allocated -ℤ pos value
gain (pos (suc _)) value allocated = pos value -ℤ pos allocated
gain (negsuc _) value allocated = pos allocated -ℤ pos value

-- The change of a fill against a position of `n` units, in exact integers.
abbrev pub reduced : ℤ → ℕ → ℕ → ℕ → ℕ → ℤ → Change
reduced net n basis quantity price delta = record {
  net = net +ℤ delta;
  basis = pos (if ltb quantity n then basis - share basis quantity n else price * (quantity - n));
  closed = pos (part quantity n);
  opened = pos (quantity - n);
  allocated = pos (share basis quantity n);
  realized = gain net (price * part quantity n) (share basis quantity n);
}

pub exact-eq-ok : (a : ℤ) {b : ℤ} → exact a ≡ ok b → (b ≡ a) × (in_int64 a ≡ true)
exact-eq-ok a h = ground arith

module _ (a b : ℤ) {c : ℤ} where
  added : IsInt64 a → IsInt64 b → checked_add a b ≡ ok c → c ≡ a +ℤ b
  added h k e = (exact-eq-ok (a +ℤ b) (sym (checked_add_lem a b h k) ∙ e)).0

  multiplied : multiply a b ≡ ok c → (c ≡ a *ℤ b) × (in_int64 (a *ℤ b) ≡ true)
  multiplied e = exact-eq-ok (a *ℤ b) (sym (multiply_lem a b) ∙ e)

  subtracted : IsInt64 a → IsInt64 b → b ≢ min_int64 → checked_subtract a b ≡ ok c → c ≡ a -ℤ b
  subtracted h k n e = (exact-eq-ok (a -ℤ b) (sym (checked_subtract_lem a b h k n) ∙ e)).0

-- A product of natural numbers.
product :
    (p q : ℕ) {c : ℤ} → multiply (pos p) (pos q) ≡ ok c → (c ≡ pos (p * q)) × IsInt64 (pos (p * q))
product p q e =
    let (v, fits) = multiplied (pos p) (pos q) e in
    (v ∙ pos-*ℤ-pos p q, in_int64→IsInt64 (pos (p * q)) (rw (pos-*ℤ-pos p q) at fits))

pub extend_exact :
    (net basis : ℤ) (q p : ℕ) (delta : ℤ) {c : Change}
    → IsInt64 net
    → IsInt64 basis
    → IsInt64 delta
    → extend net basis (pos q) (pos p) delta ≡ ok c
    → c ≡ extended net basis q p delta
unfolding extend
extend_exact net basis q p delta {c} hn hb hd h =
    let (m, e1, k1) = >>=-eq-ok (checked_add net delta) _ h in
    let (v, e2, k2) = >>=-eq-ok (multiply (pos p) (pos q)) _ k1 in
    let (ev, fits) = product p q e2 in
    let (w, e3, k3) = >>=-eq-ok (checked_add basis v) _ k2 in
    let ew = added basis (pos (p * q)) hb fits (rw ev at e3) in
    let em = added net delta hn hd e1 in cc

realize_exact :
    (net : ℤ) (v a : ℕ) {r : ℤ}
    → IsInt64 (pos v)
    → IsInt64 (pos a)
    → realize net (pos v) (pos a) ≡ ok r
    → r ≡ gain net v a
unfolding realize
realize_exact (pos zero) v a hv ha h = subtracted (pos a) (pos v) ha hv (λ e. cc) h
realize_exact (pos (suc n)) v a hv ha h =
    let long : ltb_ℤ (pos 0) (pos (suc n)) ≡ true = ground arith in
    subtracted (pos v) (pos a) hv ha (λ e. cc) (rw long at h)
realize_exact (negsuc n) v a hv ha h =
    let short : ltb_ℤ (pos 0) (negsuc n) ≡ false = ground arith in
    subtracted (pos a) (pos v) ha hv (λ e. cc) (rw short at h)

allocate_exact :
    (b q n : ℕ) {a : ℤ}
    → 0 < n
    → IsInt64 (pos b)
    → allocate (pos b) (pos (part q n)) (pos n) ≡ ok a
    → a ≡ pos (share b q n)
unfolding allocate
allocate_exact b q n h k e = elim (Bool-cases (ltb q n)) [
  | inl less ↦ ground (arith, proportional_basis_lem b q n h (omega (arith, ltb→lt q n less)) k)
  | inr more ↦ ground arith
]

part-le : (q n : ℕ) → (part q n ≤ q) × (part q n ≤ n)
part-le q n = ground arith

share-fits : (b q n : ℕ) → 0 < n → IsInt64 (pos b) → IsInt64 (pos (share b q n))
share-fits b q n h k = elim (Bool-cases (ltb q n)) [
  | inl less ↦ rw less (omega (arith, share-le b q n h (omega (arith, ltb→lt q n less))))
  | inr more ↦ rw more k
]

wrap_sub : (a b : ℕ) → b ≤ a → IsInt64 (pos a) → wrap64 (pos a -ℤ pos b) ≡ pos (a - b)
unfolding wrap64 ◌-ℤ◌
wrap_sub a b h k = ground arith

pub share-le_basis : (b q n : ℕ) → 0 < n → share b q n ≤ b
share-le_basis b q n h = elim (Bool-cases (ltb q n)) [
  | inl less ↦ rw less (share-le b q n h (omega (arith, ltb→lt q n less)))
  | inr more ↦ rw more (omega arith)
]

settle-part :
    (b q p n : ℕ) (new_net realized : ℤ) {c : Change}
    → ltb q n ≡ true
    → IsInt64 (pos b)
    → share b q n ≤ b
    → settle (pos b) (pos q) (pos p) (pos n) new_net (pos (part q n)) (pos (share b q n)) realized
      ≡ ok c
    → c ≡ record {
      net = new_net;
      basis = pos (if ltb q n then b - share b q n else p * (q - n));
      closed = pos (part q n);
      opened = pos (q - n);
      allocated = pos (share b q n);
      realized = realized;
    }
unfolding settle
settle-part b q p n new_net realized {c} less hb le e =
    ground (arith, wrap_sub b (share b q n) le hb)

settle_exact :
    (b q p n : ℕ) (new_net realized : ℤ) {c : Change}
    → 0 < n
    → IsInt64 (pos b)
    → IsInt64 (pos q)
    → settle (pos b) (pos q) (pos p) (pos n) new_net (pos (part q n)) (pos (share b q n)) realized
      ≡ ok c
    → c ≡ record {
      net = new_net;
      basis = pos (if ltb q n then b - share b q n else p * (q - n));
      closed = pos (part q n);
      opened = pos (q - n);
      allocated = pos (share b q n);
      realized = realized;
    }
unfolding settle
settle_exact b q p n new_net realized {c} h hb hq e = elim (Bool-cases (ltb q n)) [
  | inl less ↦ settle-part b q p n new_net realized less hb (share-le_basis b q n h) e
  | inr more ↦ elim (Bool-cases (q == n)) [
    | inl same ↦ ground arith
    | inr past ↦ ground (
      arith,
      wrap_sub q n (ground arith) hq,
      multiply_lem (pos p) (pos (q - n)),
      pos-*ℤ-pos p (q - n),
    )
  ]
]

pub close_exact :
    (net : ℤ) (n b q p : ℕ) (delta : ℤ) {c : Change}
    → 0 < n
    → IsInt64 net
    → IsInt64 (pos b)
    → IsInt64 (pos q)
    → IsInt64 delta
    → close net (pos b) (pos q) (pos p) delta (pos n) (pos (part q n)) ≡ ok c
    → c ≡ reduced net n b q p delta
unfolding close
close_exact net n b q p delta {c} h hn hb hq hd e =
    let (a, e1, k1) = >>=-eq-ok (allocate (pos b) (pos (part q n)) (pos n)) _ e in
    let (v, e2, k2) = >>=-eq-ok (multiply (pos p) (pos (part q n))) _ k1 in
    let (r, e3, k3) = >>=-eq-ok (realize net v a) _ k2 in
    let (m, e4, k4) = >>=-eq-ok (checked_add net delta) _ k3 in
    let ea = allocate_exact b q n h hb e1 in
    let (ev, fits) = product p (part q n) e2 in
    let fa = share-fits b q n h hb in
    let er = realize_exact net (p * part q n) (share b q n) fits fa (rw (ev, ea) at e3) in
    let em = added net delta hn hd e4 in
    let ec =
      settle_exact b q p n (net +ℤ delta) (gain net (p * part q n) (share b q n)) h hb hq
        (rw (em, ea, er) at k4) in
    ec

pub reduce_exact :
    (net : ℤ) (n b q p : ℕ) (delta : ℤ) {c : Change}
    → magnitude net ≡ pos n
    → 0 < n
    → IsInt64 net
    → IsInt64 (pos b)
    → IsInt64 (pos q)
    → IsInt64 delta
    → reduce net (pos b) (pos q) (pos p) delta ≡ ok c
    → c ≡ reduced net n b q p delta
unfolding reduce
reduce_exact net n b q p delta {c} m h hn hb hq hd e =
    let closed : (if ltb_ℤ (pos q) (pos n) then pos q else pos n) ≡ pos (part q n) = ground arith in
    close_exact net n b q p delta h hn hb hq hd (
      subst (λ x. close net (pos b) (pos q) (pos p) delta (pos n) x ≡ ok c) closed
        (subst
          (λ x.
            close net (pos b) (pos q) (pos p) delta x (if ltb_ℤ (pos q) x then pos q else x) ≡ ok c)
          m e))
