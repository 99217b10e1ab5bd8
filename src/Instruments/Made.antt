-- ===== src/Instruments/Made.antt =====
-- A master that `New` of internal/instrumentmaster/master.go made: its lookups are exact.
use tradeedge.Prelude.{
  ◌==◌, Bool-cases, All, Result, err, ok, reject_if-eq-ok, >>=-eq-ok, Text, text_eq_refl,
  trim_space, ℕ, ◌≡◌, refl, sym, subst, ◌∙◌, inl, inr, Bool, true, false, not, ◌||◌, Option, none,
  some, List, [], ◌∷◌, arith,
}
use tradeedge.Domain.Instrument.{Instrument, ProviderInstrumentRef, is_invalid_ref}
use tradeedge.Instruments.{
  MasterError, invalid_master, ambiguous_mapping, Master, is_known, add_instruments, check_mappings,
  conflict, conflicts_with, any_conflict, is_nil, stamp, new_master, matches_token, resolve,
  matches_instrument, resolve_instrument,
}
use tradeedge.Instruments.Lookup.{
  IsMapped, token-conflict, conflicts_with-All, or_false, first_match, answer, resolve_from-first,
  resolve_instrument_from-first,
}

module _ (v : ℕ) where
  conflicts_with-stamp :
      (m : ProviderInstrumentRef) (ms : List ProviderInstrumentRef)
      → conflicts_with (record m { master_version = v }) (stamp v ms) ≡ conflicts_with m ms
  unfolding conflicts_with conflict stamp
  conflicts_with-stamp m [] = refl
  conflicts_with-stamp m (r ∷ rs) = rw (conflicts_with-stamp m rs) refl

  any_conflict-stamp :
      (ms : List ProviderInstrumentRef) → any_conflict (stamp v ms) ≡ any_conflict ms
  unfolding any_conflict stamp
  any_conflict-stamp [] = refl
  any_conflict-stamp (m ∷ ms) = rw (conflicts_with-stamp m ms, any_conflict-stamp ms) refl

  All-stamp :
      (ms : List ProviderInstrumentRef)
      → All (λ m. is_invalid_ref m ≡ false) ms
      → All (λ m. is_invalid_ref m ≡ false) (stamp v ms)
  unfolding is_invalid_ref stamp
  All-stamp [] h = tt
  All-stamp (m ∷ ms) h = (h.0, All-stamp ms h.1)

check_mappings-All :
    (is : List Instrument) (ms : List ProviderInstrumentRef)
    → check_mappings is ms ≡ ok tt
    → All (λ m. is_invalid_ref m ≡ false) ms
unfolding check_mappings
check_mappings-All is [] h = tt
check_mappings-All is (m ∷ ms) h =
    elim (Bool-cases (is_invalid_ref m || not (is_known m.instrument_id is))) [
      | inl bad ↦ absurd (no (rw bad at h))
      | inr fine ↦ ((or_false _ _ fine).0, check_mappings-All is ms (rw fine at h))
    ]
  where
    no : ◌≡◌ {A = Result MasterError (Unit {0})} (err invalid_master) (ok tt) → ⊥
    no e = cc

pub new_master-IsMapped :
    (digest : ℕ → List Instrument → List ProviderInstrumentRef → ℕ) (as_of : ℕ)
    (instruments : List Instrument) (mappings : List ProviderInstrumentRef) {m : Master}
    → new_master digest as_of instruments mappings ≡ ok m
    → IsMapped m.mappings
unfolding new_master
new_master-IsMapped digest as_of instruments mappings {m} h =
    let (_, k1) = reject_if-eq-ok ((as_of == 0) || is_nil instruments) invalid_master _ h in
    let (known, _, k2) = >>=-eq-ok (add_instruments [] instruments) _ k1 in
    let (u, checked, k3) = >>=-eq-ok (check_mappings known mappings) _ k2 in
    let (apart, k4) = reject_if-eq-ok (any_conflict mappings) ambiguous_mapping _ k3 in
    let version = digest as_of instruments mappings in
    let same : m.mappings ≡ stamp version mappings = cc in
    rw same (record {
      valid = All-stamp version mappings (check_mappings-All known mappings checked);
      apart = any_conflict-stamp version mappings ∙ apart;
    })

-- In a master that `New` made, `Resolve` answers with the instrument of the first mapping for the
-- provider and the trimmed token that is valid at the time, or that there is none; never that the
-- mapping is ambiguous.
pub resolve_exact :
    (digest : ℕ → List Instrument → List ProviderInstrumentRef → ℕ) (as_of : ℕ)
    (instruments : List Instrument) (mappings : List ProviderInstrumentRef) (provider token : Text)
    (at : ℕ) {m : Master}
    → new_master digest as_of instruments mappings ≡ ok m
    → resolve provider token at m
      ≡ answer
          (λ r. r.instrument_id)
          (first_match (matches_token provider (trim_space token) at) m.mappings)
unfolding resolve
resolve_exact digest as_of instruments mappings provider token at {m} h =
    let k = new_master-IsMapped digest as_of instruments mappings h in
    resolve_from-first provider (trim_space token) at m.mappings k.valid k.apart

some_inj : {a b : ProviderInstrumentRef} → some a ≡ some b → a ≡ b
some_inj e = cc

first_match-All :
    (p : ProviderInstrumentRef → Bool) (q : ProviderInstrumentRef → Type 0)
    (ms : List ProviderInstrumentRef) {r : ProviderInstrumentRef}
    → All q ms
    → first_match p ms ≡ some r
    → q r × (p r ≡ true)
unfolding first_match
first_match-All p q [] a h = cc
first_match-All p q (m ∷ ms) {r} a h = elim (Bool-cases (p m)) [
  | inl hit ↦
      let here : m ≡ r = some_inj (rw hit at h) in subst (λ x. q x × (p x ≡ true)) here (a.0, hit)
  | inr miss ↦ first_match-All p q ms a.1 (rw miss at h)
]

own_token :
    (provider : Text) (id at : ℕ) (m : ProviderInstrumentRef)
    → matches_instrument provider id at m ≡ true
    → matches_token provider m.token at m ≡ true
own_token provider id at m h = ground (arith, text_eq_refl m.token)

own_id :
    (provider : Text) (id at : ℕ) (m : ProviderInstrumentRef)
    → matches_instrument provider id at m ≡ true
    → m.instrument_id ≡ id
own_id provider id at m h = ground arith

other_token :
    (provider : Text) (id at : ℕ) (m r : ProviderInstrumentRef)
    → conflict m r ≡ false
    → matches_instrument provider id at r ≡ true
    → matches_token provider r.token at m ≡ false
other_token provider id at m r c h =
    ground (arith, token-conflict provider r.token at m r c, own_token provider id at r h)

answered :
    (o : Option ProviderInstrumentRef) {r : ProviderInstrumentRef}
    → answer (λ m. m) o ≡ ok r
    → o ≡ some r
answered none h = cc
answered (some m) h = cc

-- The mapping that an instrument has is the one that its token has.
same_match :
    (provider : Text) (id at : ℕ) (ms : List ProviderInstrumentRef) {r : ProviderInstrumentRef}
    → any_conflict ms ≡ false
    → first_match (matches_instrument provider id at) ms ≡ some r
    → first_match (matches_token provider r.token at) ms ≡ some r
unfolding any_conflict first_match
same_match provider id at [] c h = cc
same_match provider id at (m ∷ ms) {r} c h =
    let (apart, c') = or_false (conflicts_with m ms) (any_conflict ms) c in
    elim (Bool-cases (matches_instrument provider id at m)) [
      | inl hit ↦
          let here : m ≡ r = some_inj (rw hit at h) in
          subst (λ x. first_match (matches_token provider x.token at) (m ∷ ms) ≡ some x) here
            (rw (first_match, own_token provider id at m hit) refl)
      | inr miss ↦
          let h' = rw miss at h in
          let (clear, hit) =
            first_match-All (matches_instrument provider id at) (λ x. conflict m x ≡ false) ms
              (conflicts_with-All m ms apart) h' in
          rw (first_match, other_token provider id at m r clear hit)
            (same_match provider id at ms c' h')
    ]

-- An instrument that a provider maps at a time, by a token with no white space round it, is the one
-- that the token resolves to.
pub resolve_instrument-resolve :
    (digest : ℕ → List Instrument → List ProviderInstrumentRef → ℕ) (as_of : ℕ)
    (instruments : List Instrument) (mappings : List ProviderInstrumentRef) (provider : Text)
    (id at : ℕ) {m : Master} {r : ProviderInstrumentRef}
    → new_master digest as_of instruments mappings ≡ ok m
    → resolve_instrument provider id at m ≡ ok r
    → trim_space r.token ≡ r.token
    → resolve provider r.token at m ≡ ok id
unfolding resolve resolve_instrument
resolve_instrument-resolve digest as_of instruments mappings provider id at {m} {r} made h trimmed =
    let k = new_master-IsMapped digest as_of instruments mappings made in
    let found =
      answered _
        (sym (resolve_instrument_from-first provider id at m.mappings k.valid k.apart) ∙ h) in
    let (_, hit) =
      first_match-All (matches_instrument provider id at) (λ x. is_invalid_ref x ≡ false) m.mappings
        k.valid found in
    rw
      (
        trimmed,
        resolve_from-first provider r.token at m.mappings k.valid k.apart,
        same_match provider id at m.mappings k.apart found,
        own_id provider id at r hit,
      )
      refl
