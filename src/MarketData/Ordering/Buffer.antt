-- ===== src/MarketData/Ordering/Buffer.antt =====
-- The buffer of internal/marketdata/ingest/ordering.go: what an insertion and a flush do to its order.
use mathlib.Core.List.{Perm}
use mathlib.Core.List.Perm
use tradeedge.Prelude.{
  leb, leb→le, Bool-cases, length, All, All-map, IsSortedBy, ℕ, suc, ◌≤◌, ◌<◌, ◌≡◌, refl, ap, inl,
  inr, Bool, true, false, List, [], ◌∷◌, ◌++◌, arith,
}
use tradeedge.MarketData.Event.{
  Event, event_id, exchange_time, event_provenance, key_less, event_less,
}
use tradeedge.MarketData.Ordering.{heap_push, ready_through, left_after}

key_less-le :
    (t : ℕ) (has_s : Bool) (s i u : ℕ) (has_r : Bool) (r j : ℕ)
    → key_less t has_s s i u has_r r j ≡ true
    → t ≤ u
unfolding key_less
key_less-le t has_s s i u has_r r j h = ground arith

not-key_less-le :
    (t : ℕ) (has_s : Bool) (s i u : ℕ) (has_r : Bool) (r j : ℕ)
    → key_less t has_s s i u has_r r j ≡ false
    → u ≤ t
unfolding key_less
not-key_less-le t has_s s i u has_r r j h = ground arith

-- The order of events refines that of their times.
pub event_less-le : (a b : Event) → event_less a b ≡ true → exchange_time a ≤ exchange_time b
unfolding event_less
event_less-le a b h =
    key_less-le (exchange_time a) (event_provenance a).has_sequence
      (event_provenance a).source_sequence (event_id a) (exchange_time b)
      (event_provenance b).has_sequence (event_provenance b).source_sequence (event_id b) h

pub not-event_less-le : (a b : Event) → event_less a b ≡ false → exchange_time b ≤ exchange_time a
unfolding event_less
not-event_less-le a b h =
    not-key_less-le (exchange_time a) (event_provenance a).has_sequence
      (event_provenance a).source_sequence (event_id a) (exchange_time b)
      (event_provenance b).has_sequence (event_provenance b).source_sequence (event_id b) h

pub All-heap_push :
    (P : Event → Type 0) (e : Event) (es : List Event) → P e → All P es → All P (heap_push e es)
unfolding heap_push
All-heap_push P e [] p h = (p, tt)
All-heap_push P e (x ∷ xs) p h = elim (Bool-cases (event_less e x)) [
  | inl first ↦ rw first (p, h)
  | inr later ↦ rw later (h.0, All-heap_push P e xs p h.1)
]

pub heap_push-IsSorted :
    (e : Event) (es : List Event)
    → IsSortedBy exchange_time es
    → IsSortedBy exchange_time (heap_push e es)
unfolding heap_push
heap_push-IsSorted e [] s = (tt, tt)
heap_push-IsSorted e (x ∷ xs) s = elim (Bool-cases (event_less e x)) [
  | inl first ↦
      let le = event_less-le e x first in
      rw first ((le, All-map _ _ xs (λ y p. omega arith) s.0), s)
  | inr later ↦
      rw later (All-heap_push _ e xs (not-event_less-le e x later) s.0, heap_push-IsSorted e xs s.1)
]

pub heap_push-perm : (e : Event) (es : List Event) → Perm (heap_push e es) (e ∷ es)
unfolding heap_push
heap_push-perm e [] = Perm.refl (e ∷ [])
heap_push-perm e (x ∷ xs) = elim (Bool-cases (event_less e x)) [
  | inl first ↦ rw first (Perm.refl (e ∷ x ∷ xs))
  | inr later ↦ rw later (Perm.trans (Perm.cons x (heap_push-perm e xs)) (Perm.swap e x xs))
]

pub length-heap_push : (e : Event) (es : List Event) → length (heap_push e es) ≡ suc (length es)
unfolding heap_push
length-heap_push e [] = refl
length-heap_push e (x ∷ xs) = ground (arith, length-heap_push e xs)

module _ (w : ℕ) where
  pub ready-left : (es : List Event) → ready_through w es ++ left_after w es ≡ es
  unfolding ready_through left_after
  ready-left [] = refl
  ready-left (e ∷ es) = elim (Bool-cases (leb (exchange_time e) w)) [
    | inl on ↦ rw on (ap (◌∷◌ e) (ready-left es))
    | inr off ↦ rw off refl
  ]

  pub ready-le : (es : List Event) → All (λ e. exchange_time e ≤ w) (ready_through w es)
  unfolding ready_through
  ready-le [] = tt
  ready-le (e ∷ es) = elim (Bool-cases (leb (exchange_time e) w)) [
    | inl on ↦ rw on (omega (arith, leb→le _ _ on), ready-le es)
    | inr off ↦ rw off tt
  ]

  pub left-lt :
      (es : List Event)
      → IsSortedBy exchange_time es
      → All (λ e. w < exchange_time e) (left_after w es)
  unfolding left_after
  left-lt [] s = tt
  left-lt (e ∷ es) s = elim (Bool-cases (leb (exchange_time e) w)) [
    | inl on ↦ rw on (left-lt es s.1)
    | inr off ↦
        let over : w < exchange_time e = ground arith in
        rw off (over, All-map _ (λ x. w < exchange_time x) es (λ x p. omega arith) s.0)
  ]

  pub All-ready : (P : Event → Type 0) (es : List Event) → All P es → All P (ready_through w es)
  unfolding ready_through
  All-ready P [] h = tt
  All-ready P (e ∷ es) h = elim (Bool-cases (leb (exchange_time e) w)) [
    | inl on ↦ rw on (h.0, All-ready P es h.1)
    | inr off ↦ rw off tt
  ]

  pub All-left : (P : Event → Type 0) (es : List Event) → All P es → All P (left_after w es)
  unfolding left_after
  All-left P [] h = tt
  All-left P (e ∷ es) h = elim (Bool-cases (leb (exchange_time e) w)) [
    | inl on ↦ rw on (All-left P es h.1)
    | inr off ↦ rw off h
  ]

  pub ready-IsSorted :
      (es : List Event)
      → IsSortedBy exchange_time es
      → IsSortedBy exchange_time (ready_through w es)
  unfolding ready_through
  ready-IsSorted [] s = tt
  ready-IsSorted (e ∷ es) s = elim (Bool-cases (leb (exchange_time e) w)) [
    | inl on ↦ rw on (All-ready _ es s.0, ready-IsSorted es s.1)
    | inr off ↦ rw off tt
  ]

  pub left-IsSorted :
      (es : List Event) → IsSortedBy exchange_time es → IsSortedBy exchange_time (left_after w es)
  unfolding left_after
  left-IsSorted [] s = tt
  left-IsSorted (e ∷ es) s = elim (Bool-cases (leb (exchange_time e) w)) [
    | inl on ↦ rw on (left-IsSorted es s.1)
    | inr off ↦ rw off s
  ]

  pub length-left : (es : List Event) → length (left_after w es) ≤ length es
  unfolding left_after
  length-left [] = omega arith
  length-left (e ∷ es) = ground (arith, length-left es)
