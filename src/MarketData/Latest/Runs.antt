-- ===== src/MarketData/Latest/Runs.antt =====
-- The store of internal/marketdata/latest/store.go over a run of events.
use mathlib.Core.List.{append_assoc, append-nil}
use tradeedge.Prelude.{
  ◌==◌, if◌then◌else◌, Bool-cases, Option-cases, find_at, find-put_same, find-put_other, ok,
  reject_if-eq-ok, >>=-eq-ok, ok_injective, ℕ, ◌≡◌, refl, sym, ap, subst, ◌∙◌, inl, inr, true,
  false, none, some, List, [], ◌∷◌, ◌++◌, arith,
}
use tradeedge.MarketData.Latest.Tracks.{value_for, IsLatest, update, update-IsLatest}
use tradeedge.MarketData.Latest.{
  invalid_configuration, Requirement, LatestObservation, Descriptor, Store, allow, new_store,
  observe, replaces, store_value, accepted, accept_all,
}
use tradeedge.MarketData.Event.{Event}
use tradeedge.Domain.Instrument.{Instrument}

same_key : (i j : ℕ) → (i == j) ≡ true → i ≡ j
same_key i j h = ground (arith, h)

find-store_here :
    (v : LatestObservation) (s : Store)
    → find_at v.instrument_id (store_value v s).values ≡ (
        if replaces v (find_at v.instrument_id s.values)
        then some v
        else find_at v.instrument_id s.values)
unfolding store_value
find-store_here v s = elim (Bool-cases (replaces v (find_at v.instrument_id s.values))) [
  | inl r ↦ rw r (find-put_same v.instrument_id v s.values)
  | inr r ↦ rw r refl
]

find-store_away :
    (v : LatestObservation) (s : Store) (id : ℕ)
    → (id == v.instrument_id) ≡ false
    → find_at id (store_value v s).values ≡ find_at id s.values
unfolding store_value
find-store_away v s id away = elim (Bool-cases (replaces v (find_at v.instrument_id s.values))) [
  | inl r ↦ rw r (find-put_other id v.instrument_id v s.values away)
  | inr r ↦ rw r refl
]

store_value-allowed : (v : LatestObservation) (s : Store) → (store_value v s).allowed ≡ s.allowed
unfolding store_value
store_value-allowed v s = elim (Bool-cases (replaces v (find_at v.instrument_id s.values))) [
  | inl r ↦ rw r refl
  | inr r ↦ rw r refl
]

-- What the store holds after one observation.
find-store_value :
    (v : LatestObservation) (s : Store) (id : ℕ)
    → find_at id (store_value v s).values
      ≡ update s.allowed id (find_at id s.values) (if id == v.instrument_id then some v else none)
find-store_value v s id = elim (Bool-cases (id == v.instrument_id)) [
  | inl here ↦ rw here (
      subst
        (λ i.
          find_at i (store_value v s).values
          ≡ (if replaces v (find_at i s.values) then some v else find_at i s.values))
        (sym (same_key id v.instrument_id here)) (find-store_here v s))
  | inr away ↦ rw away (find-store_away v s id away)
]

accepted-IsLatest :
    (es : List Event) (e : Event) (s : Store) (id : ℕ)
    → IsLatest s.allowed id es (find_at id s.values)
    → IsLatest s.allowed id (es ++ (e ∷ [])) (find_at id (accepted e s).values)
      × ((accepted e s).allowed ≡ s.allowed)
unfolding accepted
accepted-IsLatest es e s id h = elim (Option-cases (observe s.allowed e)) [
  | inl nothing ↦
      let same : s ≡ accepted e s = rw (accepted, nothing) refl in
      let none_for : value_for s.allowed id e ≡ none = rw (value_for, nothing) refl in
      subst kept same (update-IsLatest s.allowed id es e _ h none none_for, refl)
  | inr (v, seen) ↦
      let same : store_value v s ≡ accepted e s = rw (accepted, seen) refl in
      let some_for : value_for s.allowed id e ≡ (if id == v.instrument_id then some v else none) =
        rw (value_for, seen) refl in
      subst kept same (
        subst (IsLatest s.allowed id (es ++ (e ∷ []))) (sym (find-store_value v s id))
            (update-IsLatest s.allowed id es e _ h _ some_for),
        store_value-allowed v s,
      )
]
  where
    kept : Store → Type 0
    kept t = IsLatest s.allowed id (es ++ (e ∷ [])) (find_at id t.values) × (t.allowed ≡ s.allowed)

accept_all-IsLatest :
    (es seen : List Event) (s : Store) (id : ℕ) (allowed : List (ℕ × Descriptor))
    → s.allowed ≡ allowed
    → IsLatest allowed id seen (find_at id s.values)
    → IsLatest allowed id (seen ++ es) (find_at id (accept_all es s).values)
unfolding accept_all
accept_all-IsLatest [] seen s id allowed same h =
    subst (λ l. IsLatest allowed id l (find_at id s.values)) (sym (append-nil seen)) h
accept_all-IsLatest (e ∷ es) seen s id allowed same h =
    let (k, keeps) =
      accepted-IsLatest seen e s id
        (subst (λ a. IsLatest a id seen (find_at id s.values)) (sym same) h) in
    subst (λ l. IsLatest allowed id l (find_at id (accept_all es (accepted e s)).values))
      (append_assoc seen (e ∷ []) es)
      (accept_all-IsLatest es (seen ++ (e ∷ [])) (accepted e s) id allowed (keeps ∙ same)
        (subst (λ a. IsLatest a id (seen ++ (e ∷ [])) (find_at id (accepted e s).values)) same k))

-- After any run of events through a new store, it holds for each instrument the value of the last
-- quote among those of the latest exchange time that its provider gave for it, and nothing for an
-- instrument with no such quote.
pub new_store-IsLatest :
    (instruments : List Instrument) (rs : List Requirement) (es : List Event) (id : ℕ) {s : Store}
    → new_store instruments rs ≡ ok s
    → IsLatest s.allowed id es (find_at id (accept_all es s).values)
unfolding new_store
new_store-IsLatest instruments rs es id {s} h =
    let (_, k) = reject_if-eq-ok _ invalid_configuration _ h in
    let (allowed, _, k1) = >>=-eq-ok (allow instruments [] rs) _ k in
    let empty : find_at id s.values ≡ none =
      ap (λ t. find_at id t.values) (sym (ok_injective k1)) in
    accept_all-IsLatest es [] s id s.allowed refl (subst (IsLatest s.allowed id []) (sym empty) tt)
