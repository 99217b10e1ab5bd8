-- ===== src/Instruments/Lookup.antt =====
-- The lookups of internal/instrumentmaster/master.go in a master that `New` made.
use tradeedge.Prelude.{
  if◌then◌else◌, Bool-cases, All, All-map, Result, err, ok, Text, is_empty, text_eq, text_eq→eq,
  text_eq_refl, trim_space, ℕ, ◌<◌, ◌≡◌, refl, inl, inr, Bool, true, false, ◌||◌, Option, none,
  some, List, [], ◌∷◌, arith,
}
use tradeedge.Domain.Instrument.{ProviderInstrumentRef, is_invalid_ref, is_valid_at}
use tradeedge.Instruments.{
  MasterError, instrument_not_found, conflict, conflicts_with, any_conflict, matches_token,
  resolve_from, matches_instrument, resolve_instrument_from,
}

-- What the loops of `New` leave true of the mappings: each is valid, and no two conflict.
pub record IsMapped (ms : List ProviderInstrumentRef) : Type 0 where
  pub valid : All (λ m. is_invalid_ref m ≡ false) ms
  pub apart : any_conflict ms ≡ false

same_text : (a b c : Text) → text_eq a c ≡ true → text_eq b c ≡ true → text_eq a b ≡ true
same_text a b c h k = rw (text_eq→eq a c h, text_eq→eq b c k) (text_eq_refl c)

-- Two mappings that both match a token, or both match an instrument, at one time are in conflict.
pub token-conflict :
    (provider token : Text) (at : ℕ) (l r : ProviderInstrumentRef)
    → conflict l r ≡ false
    → matches_token provider token at l ≡ true
    → matches_token provider token at r ≡ false
unfolding conflict is_valid_at
token-conflict provider token at l r c h =
    ground (arith, same_text l.provider r.provider provider, same_text l.token r.token token)

instrument-conflict :
    (provider : Text) (id at : ℕ) (l r : ProviderInstrumentRef)
    → conflict l r ≡ false
    → matches_instrument provider id at l ≡ true
    → matches_instrument provider id at r ≡ false
unfolding conflict is_valid_at
instrument-conflict provider id at l r c h =
    ground (arith, same_text l.provider r.provider provider)

pub conflicts_with-All :
    (l : ProviderInstrumentRef) (rs : List ProviderInstrumentRef)
    → conflicts_with l rs ≡ false
    → All (λ r. conflict l r ≡ false) rs
unfolding conflicts_with
conflicts_with-All l [] h = tt
conflicts_with-All l (r ∷ rs) h = elim (Bool-cases (conflict l r)) [
  | inl bad ↦ absurd (no (rw bad at h))
  | inr fine ↦ (fine, conflicts_with-All l rs (rw fine at h))
]
  where
    no : true ≡ false → ⊥
    no e = cc

pub or_false : (a b : Bool) → (a || b) ≡ false → (a ≡ false) × (b ≡ false)
or_false a b h = ground arith

has_instrument : (m : ProviderInstrumentRef) → is_invalid_ref m ≡ false → 0 < m.instrument_id
unfolding is_invalid_ref
has_instrument m h = ground arith

not_empty : (s : Text) → is_empty (trim_space s) ≡ false → is_empty s ≡ false
unfolding trim_space
not_empty [] h = h
not_empty (c ∷ s) h = refl

mapped_token : (m : ProviderInstrumentRef) → is_invalid_ref m ≡ false → is_empty m.token ≡ false
unfolding is_invalid_ref
mapped_token m h = not_empty m.token (ground arith)

-- The first mapping for which a test holds.
unfoldable pub first_match :
    (ProviderInstrumentRef → Bool) → List ProviderInstrumentRef → Option ProviderInstrumentRef
first_match p [] = none
first_match p (m ∷ ms) = if p m then some m else first_match p ms

-- What a lookup answers, of the first mapping that matches.
abbrev pub answer {ℓ} :
    {A : Type ℓ} → (ProviderInstrumentRef → A) → Option ProviderInstrumentRef → Result MasterError A
answer f none = err instrument_not_found
answer f (some m) = ok (f m)

module _ (provider token : Text) (at : ℕ) where
  no_more_tokens :
      (found : ℕ) (ms : List ProviderInstrumentRef)
      → 0 < found
      → All (λ r. matches_token provider token at r ≡ false) ms
      → resolve_from provider token at found ms ≡ ok found
  unfolding resolve_from
  no_more_tokens found [] p h = ground arith
  no_more_tokens found (m ∷ ms) p h = rw (h.0) (no_more_tokens found ms p h.1)

  pub resolve_from-first :
      (ms : List ProviderInstrumentRef)
      → All (λ m. is_invalid_ref m ≡ false) ms
      → any_conflict ms ≡ false
      → resolve_from provider token at 0 ms
        ≡ answer (λ m. m.instrument_id) (first_match (matches_token provider token at) ms)
  unfolding resolve_from first_match any_conflict
  resolve_from-first [] v c = refl
  resolve_from-first (m ∷ ms) v c =
      let (apart, c') = or_false (conflicts_with m ms) (any_conflict ms) c in
      elim (Bool-cases (matches_token provider token at m)) [
        | inl hit ↦
            let others : All (λ r. matches_token provider token at r ≡ false) ms =
              All-map (λ r. conflict m r ≡ false) _ ms
                (λ r d. token-conflict provider token at m r d hit)
                (conflicts_with-All m ms apart) in
            rw hit (no_more_tokens m.instrument_id ms (has_instrument m v.0) others)
        | inr miss ↦ rw miss (resolve_from-first ms v.1 c')
      ]

module _ (provider : Text) (id at : ℕ) where
  no_more_mappings :
      (found : ProviderInstrumentRef) (ms : List ProviderInstrumentRef)
      → is_empty found.token ≡ false
      → All (λ r. matches_instrument provider id at r ≡ false) ms
      → resolve_instrument_from provider id at (some found) ms ≡ ok found
  unfolding resolve_instrument_from
  no_more_mappings found [] p h = rw p refl
  no_more_mappings found (m ∷ ms) p h = rw (h.0) (no_more_mappings found ms p h.1)

  pub resolve_instrument_from-first :
      (ms : List ProviderInstrumentRef)
      → All (λ m. is_invalid_ref m ≡ false) ms
      → any_conflict ms ≡ false
      → resolve_instrument_from provider id at none ms
        ≡ answer (λ m. m) (first_match (matches_instrument provider id at) ms)
  unfolding resolve_instrument_from first_match any_conflict
  resolve_instrument_from-first [] v c = refl
  resolve_instrument_from-first (m ∷ ms) v c =
      let (apart, c') = or_false (conflicts_with m ms) (any_conflict ms) c in
      elim (Bool-cases (matches_instrument provider id at m)) [
        | inl hit ↦
            let others : All (λ r. matches_instrument provider id at r ≡ false) ms =
              All-map (λ r. conflict m r ≡ false) _ ms
                (λ r d. instrument-conflict provider id at m r d hit)
                (conflicts_with-All m ms apart) in
            rw hit (no_more_mappings m ms (mapped_token m v.0) others)
        | inr miss ↦ rw miss (resolve_instrument_from-first ms v.1 c')
      ]
