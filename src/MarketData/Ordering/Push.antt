-- ===== src/MarketData/Ordering/Push.antt =====
-- One call of `Push` in internal/marketdata/ingest/ordering.go.
use mathlib.Core.List.{Perm, perm_middle, append_assoc}
use mathlib.Core.List.Perm
use tradeedge.Prelude.{
  ltb, leb, ◌==◌, if◌then◌else◌, leb→gt, Bool-cases, length, All, All-append, All-take_left,
  All-map, IsSortedBy, IsSortedBy-append, ◌-◌, ◌≤◌, ◌<◌, ◌≡◌, refl, subst, inl, inr, true, false,
  not, ◌&&◌, ◌||◌, List, ◌∷◌, ◌++◌, arith,
}
use tradeedge.MarketData.Event.{Event, event_id, exchange_time}
use tradeedge.MarketData.Ordering.{
  Orderer, emitted, is_accepted, heap_push, is_seen, ready_through, left_after, advance_time, admit,
  push,
}
use tradeedge.MarketData.Ordering.Buffer.{
  All-heap_push, heap_push-IsSorted, heap_push-perm, length-heap_push, ready-left, ready-le,
  left-lt, All-ready, ready-IsSorted, left-IsSorted, length-left,
}

-- The buffer is in order of time and lies after the watermark, which trails the latest time by the
-- tolerance.
pub record IsOrdered (o : Orderer) : Type 0 where
  pub sorted : IsSortedBy exchange_time o.buffer
  pub waiting : All (λ e. o.watermark < exchange_time e) o.buffer
  pub trailing : o.watermark ≡ o.max_time - o.allowed_lateness
  pub within : length o.buffer ≤ o.capacity

-- What the first part of `Push` leaves for the event `e`.
pub record Advanced (e : Event) (o t : Orderer) (ready : List Event) : Type 0 where
  pub sorted : IsSortedBy exchange_time t.buffer
  pub trailing : t.watermark ≡ t.max_time - t.allowed_lateness
  pub same_lateness : t.allowed_lateness ≡ o.allowed_lateness
  pub same_capacity : t.capacity ≡ o.capacity
  pub split : ready ++ t.buffer ≡ o.buffer
  pub ready_sorted : IsSortedBy exchange_time ready
  pub ready_below : All (λ x. exchange_time x ≤ t.watermark) ready
  pub left_above : All (λ x. t.watermark < exchange_time x) t.buffer
  pub rising : o.watermark ≤ t.watermark
  pub reached : t.watermark ≤ exchange_time e

pub advance_time-Advanced :
    (e : Event) (o : Orderer)
    → IsOrdered o
    → o.watermark < exchange_time e
    → Advanced e o (advance_time e o).0 (advance_time e o).1
unfolding advance_time
advance_time-Advanced e o inv fresh =
    elim (Bool-cases ((o.max_time == 0) || ltb o.max_time (exchange_time e))) [
      | inl later ↦
          let w = exchange_time e - o.allowed_lateness in
          let up : o.watermark ≤ w = ground (arith, inv.trailing) in
          let top : (if ltb o.watermark w then w else o.watermark) ≡ w = ground arith in
          rw later (record {
            sorted = left-IsSorted w o.buffer inv.sorted;
            trailing = top;
            same_lateness = refl;
            same_capacity = refl;
            split = ready-left w o.buffer;
            ready_sorted = ready-IsSorted w o.buffer inv.sorted;
            ready_below = rw top (ready-le w o.buffer);
            left_above = rw top (left-lt w o.buffer inv.sorted);
            rising = rw top up;
            reached = rw top (omega arith);
          })
      | inr earlier ↦ rw earlier (record {
        sorted = inv.sorted;
        trailing = inv.trailing;
        same_lateness = refl;
        same_capacity = refl;
        split = refl;
        ready_sorted = tt;
        ready_below = tt;
        left_above = inv.waiting;
        rising = omega arith;
        reached = omega arith;
      })
    ]

-- What a push that is accepted does: it emits a sorted list of events, after the old watermark and
-- not after the new one, that with the buffer left holds the old buffer and the event, each once.
pub record IsPushed (e : Event) (o t : Orderer) (out : List Event) : Type 0 where
  pub ordered : IsOrdered t
  pub kept : Perm (out ++ t.buffer) (e ∷ o.buffer)
  pub out_sorted : IsSortedBy exchange_time out
  pub out_above : All (λ x. o.watermark < exchange_time x) out
  pub out_below : All (λ x. exchange_time x ≤ t.watermark) out
  pub rising : o.watermark ≤ t.watermark

admit-IsPushed :
    (e : Event) (o t : Orderer) (ready : List Event)
    → IsOrdered o
    → o.watermark < exchange_time e
    → Advanced e o t ready
    → leb t.capacity (length t.buffer) ≡ false
    → IsPushed e o (admit e t ready).0 (emitted (admit e t ready).1)
unfolding admit
admit-IsPushed e o t ready inv fresh a room =
    let w = t.max_time - t.allowed_lateness in
    let top : (if ltb t.watermark w then w else t.watermark) ≡ w = ground (arith, a.trailing) in
    let buf = heap_push e t.buffer in
    let more = ready_through w buf in
    let buf_sorted = heap_push-IsSorted e t.buffer a.sorted in
    let after_new : All (λ x. t.watermark ≤ exchange_time x) buf =
      All-heap_push _ e t.buffer a.reached
        (All-map _ _ t.buffer (λ x p. omega arith) a.left_above) in
    let after_old : All (λ x. o.watermark < exchange_time x) buf =
      All-heap_push _ e t.buffer fresh (
        All-map (λ x. t.watermark < exchange_time x) _ t.buffer (λ x p. omega (arith, a.rising))
          a.left_above) in
    let old_ready : All (λ x. o.watermark < exchange_time x) ready =
      All-take_left _ ready t.buffer (rw a.split inv.waiting) in
    let entered : Perm (ready ++ buf) (e ∷ o.buffer) =
      Perm.trans (Perm.append_left ready (heap_push-perm e t.buffer)) (
        subst (λ l. Perm (ready ++ (e ∷ t.buffer)) (e ∷ l)) a.split
          (perm_middle {a = e} ready t.buffer)) in
    let kept : Perm ((ready ++ more) ++ left_after w buf) (e ∷ o.buffer) =
      rw (append_assoc, ready-left w buf) entered in
    rw room (record {
      ordered = record {
        sorted = left-IsSorted w buf buf_sorted;
        waiting = rw top (left-lt w buf buf_sorted);
        trailing = top;
        within = omega (arith, length-left w buf, length-heap_push e t.buffer, leb→gt _ _ room);
      };
      kept = kept;
      out_sorted =
          IsSortedBy-append exchange_time t.watermark ready more a.ready_sorted
            (ready-IsSorted w buf buf_sorted) a.ready_below
            (All-ready w (λ x. t.watermark ≤ exchange_time x) buf after_new);
      out_above =
          All-append _ ready more old_ready
            (All-ready w (λ x. o.watermark < exchange_time x) buf after_old);
      out_below = rw top (
          All-append (λ x. exchange_time x ≤ w) ready more (rw a.trailing at a.ready_below)
            (ready-le w buf));
      rising = rw top (omega (arith, a.rising, a.trailing));
    })

admitted :
    (e : Event) (t : Orderer) (ready : List Event)
    → is_accepted (admit e t ready).1 ≡ true
    → leb t.capacity (length t.buffer) ≡ false
unfolding admit
admitted e t ready h = ground arith

pub fresh_lem :
    (e : Event) (o : Orderer)
    → 0 < exchange_time e
    → (not (o.watermark == 0) && leb (exchange_time e) o.watermark) ≡ false
    → o.watermark < exchange_time e
fresh_lem e o p h = ground arith

-- A push that is accepted keeps the buffer in order and emits in order; see `IsPushed`.
pub push-IsPushed :
    (e : Event) (o : Orderer)
    → IsOrdered o
    → 0 < exchange_time e
    → is_accepted (push e o).1 ≡ true
    → IsPushed e o (push e o).0 (emitted (push e o).1)
unfolding push
push-IsPushed e o inv p h = elim (Bool-cases (is_seen (event_id e) o.seen)) [
  | inl old ↦ absurd (no (rw old at h))
  | inr new ↦ elim (Bool-cases (not (o.watermark == 0) && leb (exchange_time e) o.watermark)) [
    | inl late ↦ absurd (no (rw (new, late) at h))
    | inr timely ↦
        let fresh = fresh_lem e o p timely in
        let a = advance_time-Advanced e o inv fresh in
        rw (new, timely)
          (admit-IsPushed e o (advance_time e o).0 (advance_time e o).1 inv fresh a
            (admitted e (advance_time e o).0 (advance_time e o).1 (rw (new, timely) at h)))
  ]
]
  where
    no : false ≡ true → ⊥
    no e = cc
