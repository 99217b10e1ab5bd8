-- ===== src/MarketData/Order.antt =====
-- `EventLess` of internal/marketdata/model/event.go.
use tradeedge.Prelude.{ℕ, ◌<◌, ◌≡◌, Bool, true, false, arith}
use tradeedge.MarketData.Event.{
  Event, event_id, exchange_time, event_provenance, key_less, event_less,
}

key_less_trans :
    (has_s : Bool) (t s i u r j v q k : ℕ)
    → key_less t has_s s i u has_s r j ≡ true
    → key_less u has_s r j v has_s q k ≡ true
    → key_less t has_s s i v has_s q k ≡ true
unfolding key_less
key_less_trans true t s i u r j v q k h l = ground arith
key_less_trans false t s i u r j v q k h l = ground arith

key_less_cycle :
    (t s i j q k : ℕ)
    → q < s
    → i < j
    → j < k
    → (r : ℕ)
    → (key_less t true s i t false r j ≡ true)
      × (key_less t false r j t true q k ≡ true)
      × (key_less t true q k t true s i ≡ true)
unfolding key_less
key_less_cycle t s i j q k h l m r = ground arith

-- `EventLess` is transitive on events that all carry a sequence number, or all carry none.
pub event_less_trans :
    (a b c : Event)
    → (event_provenance a).has_sequence ≡ (event_provenance b).has_sequence
    → (event_provenance b).has_sequence ≡ (event_provenance c).has_sequence
    → event_less a b ≡ true
    → event_less b c ≡ true
    → event_less a c ≡ true
unfolding event_less
event_less_trans a b c e f =
    rw (e, f)
      (key_less_trans (event_provenance c).has_sequence (exchange_time a)
        (event_provenance a).source_sequence (event_id a) (exchange_time b)
        (event_provenance b).source_sequence (event_id b) (exchange_time c)
        (event_provenance c).source_sequence (event_id c))

-- It is not where some do and some do not: of three events at one time, the first with the later
-- sequence and the least identifier, the second with no sequence, and the third with the earlier
-- sequence and the greatest identifier, each is less than the next, round in a cycle.
pub event_less_cycle :
    (a b c : Event)
    → exchange_time a ≡ exchange_time b
    → exchange_time b ≡ exchange_time c
    → (event_provenance a).has_sequence ≡ true
    → (event_provenance b).has_sequence ≡ false
    → (event_provenance c).has_sequence ≡ true
    → (event_provenance c).source_sequence < (event_provenance a).source_sequence
    → event_id a < event_id b
    → event_id b < event_id c
    → (event_less a b ≡ true) × (event_less b c ≡ true) × (event_less c a ≡ true)
unfolding event_less
event_less_cycle a b c at_b at_c in_a in_b in_c sq ij jk =
    rw (at_b, at_c, in_a, in_b, in_c)
      (key_less_cycle (exchange_time c) (event_provenance a).source_sequence (event_id a)
        (event_id b) (event_provenance c).source_sequence (event_id c) sq ij jk
        (event_provenance b).source_sequence)
