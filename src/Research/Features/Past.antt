-- ===== src/Research/Features/Past.antt =====
-- What a view of internal/research/features/features.go can hold.
use tradeedge.Prelude.{
  ◌==◌, All, All-map, ok, reject_if-eq-ok, ok_injective, ℕ, ◌≤◌, ◌≡◌, refl, subst, Bool, true,
  false, not, ◌||◌, List, [], ◌∷◌, arith,
}
use tradeedge.Research.{invalid_frame}
use tradeedge.Research.Observation.{
  ResearchInstrument, is_available_at, Observation, observation_less, observation_less_trans,
}
use tradeedge.Research.Features.{
  PointInTimeView, is_out_of_view, bad_after, bad_observations, new_point_in_time_view,
}

-- Every observation is of the instrument and not later than the time of the view, and the list rises.
abbrev pub Rises : List Observation → Type 0
Rises [] = Unit
Rises (o ∷ os) = All (λ p. observation_less o p ≡ true) os × Rises os

pub record IsPast (v : PointInTimeView) : Type 0 where
  pub of_instrument : All (λ o. o.instrument_id ≡ v.instrument.instrument.id) v.observations
  pub not_later : All (λ o. o.exchange_time ≤ v.as_of) v.observations
  pub known : v.instrument.available_from ≤ v.as_of
  pub rising : Rises v.observations

pub bad_after-false :
    (i : ResearchInstrument) (at : ℕ) (p : Observation) (os : List Observation)
    → bad_after i at p os ≡ false
    → All (λ o. is_out_of_view i at o ≡ false) os
      × All (λ o. observation_less p o ≡ true) os
      × Rises os
unfolding bad_after
bad_after-false i at p [] h = (tt, tt, tt)
bad_after-false i at p (o ∷ os) h =
    let (seen, less, tail) = parts (is_out_of_view i at o) (observation_less p o) _ h in
    let (a, b, c) = bad_after-false i at o os tail in
    let above = All-map _ _ os (λ q k. observation_less_trans p o q less k) b in
    ((seen, a), (less, above), (b, c))
  where
    parts : (a b c : Bool) → (a || not b || c) ≡ false → (a ≡ false) × (b ≡ true) × (c ≡ false)
    parts a b c e = ground arith

in_view :
    (i : ResearchInstrument) (at : ℕ) (o : Observation)
    → is_out_of_view i at o ≡ false
    → (o.instrument_id ≡ i.instrument.id) × (o.exchange_time ≤ at)
unfolding is_out_of_view
in_view i at o h = ground arith

bad_observations-false :
    (i : ResearchInstrument) (at : ℕ) (os : List Observation)
    → bad_observations i at os ≡ false
    → All (λ o. is_out_of_view i at o ≡ false) os × Rises os
unfolding bad_observations
bad_observations-false i at [] h = (tt, tt)
bad_observations-false i at (o ∷ os) h =
    let seen : is_out_of_view i at o ≡ false = ground arith in
    let (a, b, c) = bad_after-false i at o os (ground arith) in ((seen, a), (b, c))

available :
    (i : ResearchInstrument) (at : ℕ)
    → ((at == 0) || not (is_available_at i at)) ≡ false
    → i.available_from ≤ at
unfolding is_available_at
available i at h = ground arith

-- What `NewPointInTimeView` returns holds the observations given, and nothing of a later time.
pub new_view-IsPast :
    (at : ℕ) (i : ResearchInstrument) (os : List Observation) {v : PointInTimeView}
    → new_point_in_time_view at i os ≡ ok v
    → IsPast v × (v.observations ≡ os) × (v.as_of ≡ at)
unfolding new_point_in_time_view
new_view-IsPast at i os {v} e =
    let (g1, k1) = reject_if-eq-ok _ invalid_frame _ e in
    let (g2, k2) = reject_if-eq-ok _ invalid_frame _ k1 in
    let (a, b) = bad_observations-false i at os g2 in
    let past : IsPast (record { as_of = at; instrument = i; observations = os }) = record {
      of_instrument = All-map _ _ os (λ o h. (in_view i at o h).0) a;
      not_later = All-map _ _ os (λ o h. (in_view i at o h).1) a;
      known = available i at g1;
      rising = b;
    } in
    subst (λ v. IsPast v × (v.observations ≡ os) × (v.as_of ≡ at)) (ok_injective k2)
      (past, refl, refl)
