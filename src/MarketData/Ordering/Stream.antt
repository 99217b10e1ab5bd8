-- ===== src/MarketData/Ordering/Stream.antt =====
-- The stream that leaves the buffer of internal/marketdata/ingest/ordering.go, over any run of pushes.
use mathlib.Core.List.{Perm, perm_middle, append-nil, append_assoc}
use mathlib.Core.List.Perm
use tradeedge.Prelude.{
  leb, ◌==◌, if◌then◌else◌, leb→le, Bool-cases, ℤ, length, length-append, All, All-append, All-map,
  IsSortedBy, IsSortedBy-append, ℕ, ◌≤◌, ◌<◌, ◌≡◌, refl, ap, inl, inr, true, false, not, ◌&&◌, some,
  List, [], ◌∷◌, ◌++◌, arith,
}
use tradeedge.MarketData.Event.{Event, event_id, exchange_time}
use tradeedge.MarketData.Ordering.{
  PushDisposition, push_duplicate, push_late, Orderer, PushResult, pushed, emitted, is_accepted,
  new_orderer, is_seen, ready_through, left_after, advance_time, admit, push, far_future, flush,
}
use tradeedge.MarketData.Ordering.Push.{
  IsOrdered, Advanced, advance_time-Advanced, fresh_lem, push-IsPushed,
}

-- A push that is not accepted emits nothing and keeps the buffer; if it is refused for capacity, the
-- latest time and the watermark may have moved.
pub record IsRefused (o t : Orderer) (r : PushResult) : Type 0 where
  pub ordered : IsOrdered t
  pub nothing : emitted r ≡ []
  pub same_buffer : t.buffer ≡ o.buffer
  pub rising : o.watermark ≤ t.watermark

no_ready : (ready rest es : List Event) → ready ++ rest ≡ es → length es ≤ length rest → rest ≡ es
no_ready [] rest es e h = e
no_ready (x ∷ ready) rest es e h = absurd (omega (arith, ap length e, length-append ready rest))

overfull-IsRefused :
    (e : Event) (o t : Orderer) (ready : List Event)
    → IsOrdered o
    → Advanced e o t ready
    → is_accepted (admit e t ready).1 ≡ false
    → IsRefused o (admit e t ready).0 (admit e t ready).1
unfolding admit
overfull-IsRefused e o t ready inv a h = elim (Bool-cases (leb t.capacity (length t.buffer))) [
  | inl full ↦
      let le = leb→le _ _ full in
      rw full (record {
        ordered = record {
          sorted = a.sorted;
          waiting = a.left_above;
          trailing = a.trailing;
          within =
              omega (
                arith,
                inv.within,
                ap length a.split,
                length-append ready t.buffer,
                a.same_capacity,
              );
        };
        nothing = refl;
        same_buffer =
            no_ready ready t.buffer o.buffer a.split
              (omega (arith, le, inv.within, a.same_capacity));
        rising = a.rising;
      })
  | inr room ↦ absurd (no (rw room at h))
]
  where
    no : true ≡ false → ⊥
    no e = cc

pub push-IsRefused :
    (e : Event) (o : Orderer)
    → IsOrdered o
    → 0 < exchange_time e
    → is_accepted (push e o).1 ≡ false
    → IsRefused o (push e o).0 (push e o).1
unfolding push
push-IsRefused e o inv p h = elim (Bool-cases (is_seen (event_id e) o.seen)) [
  | inl old ↦ rw old (unmoved push_duplicate)
  | inr new ↦ elim (Bool-cases (not (o.watermark == 0) && leb (exchange_time e) o.watermark)) [
    | inl late ↦ rw (new, late) (unmoved push_late)
    | inr timely ↦
        let a = advance_time-Advanced e o inv (fresh_lem e o p timely) in
        rw (new, timely)
          (overfull-IsRefused e o (advance_time e o).0 (advance_time e o).1 inv a
            (rw (new, timely) at h))
  ]
]
  where
    unmoved : (d : PushDisposition) → IsRefused o o (pushed [] d)
    unmoved d = record { ordered = inv; nothing = refl; same_buffer = refl; rising = omega arith }

-- A run of pushes from `o`: the events accepted, the latest first, and the events emitted, in order.
pub data Fed (o : Orderer) : List Event → List Event → Orderer → Type 0 where
  start : Fed o [] [] o
  feed :
      {accepted out : List Event} {t : Orderer}
      → Fed o accepted out t
      → (e : Event) → 0 < exchange_time e
      → Fed o
          (if is_accepted (push e t).1 then e ∷ accepted else accepted)
          (out ++ emitted (push e t).1)
          (push e t).0

-- What holds of a run from an empty buffer.
pub record IsStream (accepted out : List Event) (t : Orderer) : Type 0 where
  pub ordered : IsOrdered t
  pub out_sorted : IsSortedBy exchange_time out
  pub out_below : All (λ x. exchange_time x ≤ t.watermark) out
  pub kept : Perm (out ++ t.buffer) accepted

feed-IsStream :
    {accepted out : List Event} {t : Orderer} (e : Event)
    → IsStream accepted out t
    → 0 < exchange_time e
    → IsStream
        (if is_accepted (push e t).1 then e ∷ accepted else accepted)
        (out ++ emitted (push e t).1)
        (push e t).0
feed-IsStream {accepted} {out} {t} e s p = elim (Bool-cases (is_accepted (push e t).1)) [
  | inl in_ ↦
      let u = push-IsPushed e t s.ordered p in_ in
      let more = emitted (push e t).1 in
      let old_below : All (λ x. exchange_time x ≤ (push e t).0.watermark) out =
        All-map (λ x. exchange_time x ≤ t.watermark) _ out (λ x q. omega (arith, u.rising))
          s.out_below in
      let all : Perm (out ++ (more ++ (push e t).0.buffer)) (e ∷ accepted) =
        Perm.trans (Perm.append_left out u.kept)
          (Perm.trans (perm_middle {a = e} out t.buffer) (Perm.cons e s.kept)) in
      rw in_ (record {
        ordered = u.ordered;
        out_sorted =
            IsSortedBy-append exchange_time t.watermark out more s.out_sorted u.out_sorted
              s.out_below
              (All-map (λ x. t.watermark < exchange_time x) _ more (λ x q. omega arith)
                u.out_above);
        out_below = All-append _ out more old_below u.out_below;
        kept = rw append_assoc all;
      })
  | inr not_in ↦
      let r = push-IsRefused e t s.ordered p not_in in
      rw (not_in, r.nothing, append-nil)
        (record {
          ordered = r.ordered;
          out_sorted = s.out_sorted;
          out_below =
              All-map (λ x. exchange_time x ≤ t.watermark) _ out (λ x q. omega (arith, r.rising))
                s.out_below;
          kept = rw r.same_buffer s.kept;
        })
]

-- Take an orderer with nothing in its buffer and its watermark at the tolerance behind its latest
-- time, and any run of pushes of events of positive time, whatever becomes of each.
pub Fed-IsStream :
    (o : Orderer) {accepted out : List Event} {t : Orderer}
    → IsOrdered o
    → o.buffer ≡ []
    → Fed o accepted out t
    → IsStream accepted out t
Fed-IsStream o inv e start = record {
  ordered = inv;
  out_sorted = tt;
  out_below = tt;
  kept = rw e (Perm.refl []);
}
Fed-IsStream o inv e (feed before x p) = feed-IsStream x (Fed-IsStream o inv e before) p

ready-All : (w : ℕ) (es : List Event) → All (λ e. exchange_time e ≤ w) es → ready_through w es ≡ es
unfolding ready_through
ready-All w [] h = refl
ready-All w (e ∷ es) h =
    let on : leb (exchange_time e) w ≡ true = ground arith in
    rw on (ap (◌∷◌ e) (ready-All w es h.1))

left-none : (w : ℕ) (es : List Event) → All (λ e. exchange_time e ≤ w) es → left_after w es ≡ []
unfolding left_after
left-none w [] h = refl
left-none w (e ∷ es) h =
    let on : leb (exchange_time e) w ≡ true = ground arith in rw on (left-none w es h.1)

new_orderer-IsOrdered :
    (allowed_lateness capacity : ℤ) {o : Orderer}
    → new_orderer allowed_lateness capacity ≡ some o
    → IsOrdered o × (o.buffer ≡ [])
unfolding new_orderer
new_orderer-IsOrdered allowed_lateness capacity h = ground arith

-- Push any events of positive time, no later than the time that `Flush` flushes through, to a new
-- orderer, whatever becomes of each push, and flush it. What was emitted in all is the events
-- accepted, each once, in order of time; and the buffer is empty.
pub flush-IsSorted :
    (allowed_lateness capacity : ℤ) {o t : Orderer} {accepted out : List Event}
    → new_orderer allowed_lateness capacity ≡ some o
    → Fed o accepted out t
    → All (λ e. exchange_time e ≤ far_future) t.buffer
    → IsSortedBy exchange_time (out ++ (flush t).1)
      × Perm (out ++ (flush t).1) accepted
      × ((flush t).0.buffer ≡ [])
unfolding flush
flush-IsSorted allowed_lateness capacity {o} {t} {accepted} {out} made run early =
    let (inv, none_yet) = new_orderer-IsOrdered allowed_lateness capacity made in
    let s = Fed-IsStream o inv none_yet run in
    rw (ready-All far_future t.buffer early) (
      IsSortedBy-append exchange_time t.watermark out t.buffer s.out_sorted s.ordered.sorted
          s.out_below
          (All-map (λ x. t.watermark < exchange_time x) _ t.buffer (λ x q. omega arith)
            s.ordered.waiting),
      s.kept,
      left-none far_future t.buffer early,
    )
