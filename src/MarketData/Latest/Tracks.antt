-- ===== src/MarketData/Latest/Tracks.antt =====
-- What the store of internal/marketdata/latest/store.go holds after a run of events.
use mathlib.Core.List.{append_assoc}
use native.Mathlib.Nat
use tradeedge.Prelude.{
  ◌==◌, if◌then◌else◌, Bool-cases, All, All-append, All-map, ℕ, ◌≤◌, ◌<◌, ◌≡◌, refl, sym, ap, subst,
  ◌∙◌, inl, inr, true, false, Option, none, some, List, [], ◌∷◌, ◌++◌, arith,
}
use tradeedge.MarketData.Latest.{LatestObservation, Descriptor, observe, replaces}
use tradeedge.MarketData.Event.{Event}

-- The value that an event gives for the instrument `id`.
abbrev pub value_for : List (ℕ × Descriptor) → ℕ → Event → Option LatestObservation
value_for allowed id e = elim (observe allowed e) [
  | none ↦ none
  | some v ↦ if id == v.instrument_id then some v else none
]

module _ (allowed : List (ℕ × Descriptor)) (id : ℕ) where
  -- The values of the events are not later than `t`; or are earlier.
  abbrev pub AllUpTo : ℕ → List Event → Type 0
  AllUpTo t es =
      All
        (λ e. (v : LatestObservation) → value_for allowed id e ≡ some v → v.exchange_timestamp ≤ t)
        es

  abbrev pub AllBefore : ℕ → List Event → Type 0
  AllBefore t es =
      All
        (λ e. (v : LatestObservation) → value_for allowed id e ≡ some v → v.exchange_timestamp < t)
        es

  -- `held` is what a run of events leaves for the instrument: nothing if no event gives it a value, and
  -- else the value of the last event among those of the latest time.
  abbrev pub IsLatest : List Event → Option LatestObservation → Type 0
  IsLatest es none = All (λ e. value_for allowed id e ≡ none) es
  IsLatest es (some v) =
      (before : List Event) × (e : Event) × (after : List Event) × (es ≡ before ++ (e ∷ after))
      × (value_for allowed id e ≡ some v)
      × AllUpTo v.exchange_timestamp before
      × AllBefore v.exchange_timestamp after

  -- What one more value does.
  abbrev pub update : Option LatestObservation → Option LatestObservation → Option LatestObservation
  update held none = held
  update held (some v) = if replaces v held then some v else held

  none-neq : {C : Type 0} {v : LatestObservation} → none ≡ some v → C
  none-neq h = cc

  same_some : {v w : LatestObservation} → some v ≡ some w → v ≡ w
  same_some h = cc

  AllBefore-snoc :
      (t : ℕ) (es : List Event) (e : Event)
      → AllBefore t es
      → ((v : LatestObservation) → value_for allowed id e ≡ some v → v.exchange_timestamp < t)
      → AllBefore t (es ++ (e ∷ []))
  AllBefore-snoc t es e h k = All-append _ es (e ∷ []) h (k, tt)

  -- An event with no value.
  idle-IsLatest :
      (es : List Event) (e : Event) (held : Option LatestObservation)
      → IsLatest es held
      → value_for allowed id e ≡ none
      → IsLatest (es ++ (e ∷ [])) held
  idle-IsLatest es e none h k = All-append _ es (e ∷ []) h (k, tt)
  idle-IsLatest es e (some v) (before, x, after, split, gives, up, down) k = (
    before,
    x,
    after ++ (e ∷ []),
    ap (λ l. l ++ (e ∷ [])) split ∙ append_assoc before (x ∷ after) (e ∷ []),
    gives,
    up,
    AllBefore-snoc v.exchange_timestamp after e down (λ w h. none-neq (sym k ∙ h)),
  )

  -- An event whose value replaces what is held.
  new-IsLatest :
      (es : List Event) (e : Event) (v : LatestObservation)
      → value_for allowed id e ≡ some v
      → AllUpTo v.exchange_timestamp es
      → IsLatest (es ++ (e ∷ [])) (some v)
  new-IsLatest es e v gives up = (es, e, [], refl, gives, up, tt)

  IsLatest-AllUpTo :
      (es : List Event) (held : Option LatestObservation) (v : LatestObservation)
      → IsLatest es held
      → replaces v held ≡ true
      → AllUpTo v.exchange_timestamp es
  IsLatest-AllUpTo es none v h k = All-map _ _ es (λ e n w g. none-neq (sym n ∙ g)) h
  IsLatest-AllUpTo es (some u) v (before, x, after, split, gives, up, down) k =
      let later : u.exchange_timestamp ≤ v.exchange_timestamp = ground (arith, k) in
      subst (AllUpTo v.exchange_timestamp) (sym split) (
        All-append _ before (x ∷ after)
          (All-map _ _ before (λ e h w g. Nat.le_trans (h w g) later) up)
          (
            (λ w g.
                subst (λ y. y.exchange_timestamp ≤ v.exchange_timestamp) (same_some (sym gives ∙ g))
                  later),
            All-map _ _ after (λ e h w g. Nat.le_trans (Nat.le_of_lt (h w g)) later) down,
          ))

  -- An event whose value is earlier than what is held.
  kept-IsLatest :
      (es : List Event) (e : Event) (held : Option LatestObservation) (v : LatestObservation)
      → IsLatest es held
      → value_for allowed id e ≡ some v
      → replaces v held ≡ false
      → IsLatest (es ++ (e ∷ [])) held
  kept-IsLatest es e none v h k r = ground (arith, r)
  kept-IsLatest es e (some u) v (before, x, after, split, gives, up, down) k r =
      let earlier : v.exchange_timestamp < u.exchange_timestamp = ground (arith, r) in
      (
        before,
        x,
        after ++ (e ∷ []),
        ap (λ l. l ++ (e ∷ [])) split ∙ append_assoc before (x ∷ after) (e ∷ []),
        gives,
        up,
        AllBefore-snoc u.exchange_timestamp after e down (λ w h.
            subst (λ y. y.exchange_timestamp < u.exchange_timestamp) (same_some (sym k ∙ h))
              earlier),
      )

  pub update-IsLatest :
      (es : List Event) (e : Event) (held : Option LatestObservation)
      → IsLatest es held
      → (given : Option LatestObservation) → value_for allowed id e ≡ given
      → IsLatest (es ++ (e ∷ [])) (update held given)
  update-IsLatest es e held h none k = idle-IsLatest es e held h k
  update-IsLatest es e held h (some v) k = elim (Bool-cases (replaces v held)) [
    | inl r ↦ rw r (new-IsLatest es e v k (IsLatest-AllUpTo es held v h r))
    | inr r ↦ rw r (kept-IsLatest es e held v h k r)
  ]
