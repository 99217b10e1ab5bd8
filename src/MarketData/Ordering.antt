-- ===== src/MarketData/Ordering.antt =====
-- internal/marketdata/ingest/ordering.go: the buffer that puts events in order while they are late by
-- no more than a tolerance. `container/heap` keeps a least event on top; here the buffer is the list
-- in which they come off it. The time of an event is above zero, so a watermark before the zero time
-- holds nothing back and lets nothing through, as 0 does.
pub mod Buffer
pub mod Push
pub mod Stream
mod Tests
use tradeedge.Prelude.{
  ltb, leb, ◌==◌, if◌then◌else◌, ℤ, pos, pos_part, ltb_ℤ, leb_ℤ, length, ℕ, ◌+◌, ◌-◌, Bool, true,
  false, not, ◌&&◌, ◌||◌, Option, none, some, List, [], ◌∷◌, ◌++◌,
}
use tradeedge.MarketData.Event.{Event, event_id, exchange_time, event_less}

pub data PushDisposition : Type 0 where
  push_accepted push_duplicate push_late : PushDisposition

pub record Orderer : Type 0 where
  pub allowed_lateness : ℕ
  pub capacity : ℕ
  pub max_time : ℕ
  pub watermark : ℕ
  pub buffer : List Event
  pub seen : List ℕ

-- What `Push` returns: events and what became of the one pushed, or `ErrReorderCapacity`.
pub data PushResult : Type 0 where
  pushed : List Event → PushDisposition → PushResult
  over_capacity : PushResult

abbrev pub emitted : PushResult → List Event
emitted (pushed events _) = events
emitted over_capacity = []

abbrev pub is_accepted : PushResult → Bool
is_accepted (pushed _ push_accepted) = true
is_accepted _ = false

-- `NewOrderer`
unfoldable pub new_orderer : ℤ → ℤ → Option Orderer
new_orderer allowed_lateness capacity =
    if ltb_ℤ allowed_lateness (pos 0) || leb_ℤ capacity (pos 0)
    then none
    else some (record {
      allowed_lateness = pos_part allowed_lateness;
      capacity = pos_part capacity;
      max_time = 0;
      watermark = 0;
      buffer = [];
      seen = [];
    })

-- `heap.Push`
unfoldable pub heap_push : Event → List Event → List Event
heap_push e [] = e ∷ []
heap_push e (x ∷ xs) = if event_less e x then e ∷ x ∷ xs else x ∷ heap_push e xs

unfoldable pub is_seen : ℕ → List ℕ → Bool
is_seen id [] = false
is_seen id (x ∷ xs) = (x == id) || is_seen id xs

-- `delete(o.seen, id)`
unfoldable pub forget : ℕ → List ℕ → List ℕ
forget id [] = []
forget id (x ∷ xs) = let rest = forget id xs in if x == id then rest else x ∷ rest

-- The events that the loop of `flushThrough` pops, and what it leaves.
unfoldable pub ready_through : ℕ → List Event → List Event
ready_through w [] = []
ready_through w (e ∷ es) =
    let rest = ready_through w es in if leb (exchange_time e) w then e ∷ rest else []

unfoldable pub left_after : ℕ → List Event → List Event
left_after w [] = []
left_after w (e ∷ es) =
    let rest = left_after w es in if leb (exchange_time e) w then rest else e ∷ es

unfoldable pub forget_all : List Event → List ℕ → List ℕ
unfolding forget
forget_all [] seen = seen
forget_all (e ∷ es) seen = forget_all es (forget (event_id e) seen)

-- `flushThrough`
unfoldable pub flush_through : ℕ → Orderer → Orderer × List Event
unfolding ready_through left_after forget_all
flush_through w o =
    let ready = ready_through w o.buffer in
    (record o { buffer = left_after w (o.buffer); seen = forget_all ready (o.seen) }, ready)

unfoldable pub raise_watermark : ℕ → Orderer → Orderer
raise_watermark w o = record o { watermark = if ltb (o.watermark) w then w else o.watermark }

-- The first part of `Push`: a time that is the latest yet moves the watermark.
unfoldable pub advance_time : Event → Orderer → Orderer × List Event
unfolding flush_through raise_watermark
advance_time e o =
    let w = exchange_time e - o.allowed_lateness in
    let (t, ready) = flush_through w (record o { max_time = exchange_time e }) in
    if (o.max_time == 0) || ltb o.max_time (exchange_time e)
    then (raise_watermark w t, ready)
    else (o, [])

-- The second part: the event enters the buffer.
unfoldable pub admit : Event → Orderer → List Event → Orderer × PushResult
unfolding flush_through raise_watermark
admit e o ready =
    let w = o.max_time - o.allowed_lateness in
    let entered : Orderer = record o {
      buffer = heap_push e (o.buffer);
      seen = event_id e ∷ o.seen;
    } in
    let (t, more) = flush_through w entered in
    if leb o.capacity (length o.buffer)
    then (o, over_capacity)
    else (raise_watermark w t, pushed (ready ++ more) push_accepted)

-- `Push`
unfoldable pub push : Event → Orderer → Orderer × PushResult
unfolding advance_time admit
push e o =
    let (t, ready) = advance_time e o in
    if is_seen (event_id e) o.seen
    then (o, pushed [] push_duplicate)
    else if not (o.watermark == 0) && leb (exchange_time e) o.watermark
    then (o, pushed [] push_late)
    else admit e t ready

-- `time.Unix(1<<62, 0)`, in nanoseconds since the zero time.
abbrev pub far_future : ℕ
far_future = 4611686018427387904000000000 + 62135596800000000000

-- `Flush`
unfoldable pub flush : Orderer → Orderer × List Event
unfolding flush_through
flush o = flush_through far_future o
