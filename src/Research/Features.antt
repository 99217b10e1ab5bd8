-- ===== src/Research/Features.antt =====
-- internal/research/features/features.go: what a strategy may see of a dataset at one time, and the
-- features computed from it.
pub mod Past
use tradeedge.Prelude.{
  ltb, ◌==◌, if◌then◌else◌, ℤ, pos, leb_ℤ, wrap64, quo, Result, ok, reject_if, ◌>>=◌, ◌>>◌, Text,
  ascii, is_empty, text_eq, ℕ, Bool, true, false, not, ◌||◌, Option, none, some, List, [], ◌∷◌, map,
}
use tradeedge.Research.{ResearchError, invalid_frame}
use tradeedge.Research.Arithmetic.{checked_sub, checked_mul}
use tradeedge.Research.Observation.{
  ResearchInstrument, is_available_at, Observation, observation_less,
}

pub data FeatureUnit : Type 0 where
  minor_units ppm : FeatureUnit

pub record Value : Type 0 where
  pub name : Text
  pub value : ℤ
  pub scale : ℤ
  pub unit : FeatureUnit

abbrev pub feature_last_price : Text
feature_last_price = ascii "LAST_PRICE"

abbrev pub feature_return : Text
feature_return = ascii "RETURN"

pub record PointInTimeView : Type 0 where
  pub as_of : ℕ
  pub instrument : ResearchInstrument
  pub observations : List Observation

-- The loop of `NewPointInTimeView` after the observation `previous`.
unfoldable pub is_out_of_view : ResearchInstrument → ℕ → Observation → Bool
is_out_of_view instrument as_of o =
    not (o.instrument_id == instrument.instrument.id) || ltb as_of o.exchange_time

unfoldable pub bad_after : ResearchInstrument → ℕ → Observation → List Observation → Bool
bad_after instrument as_of previous [] = false
bad_after instrument as_of previous (o ∷ os) =
    is_out_of_view instrument as_of o
    || not (observation_less previous o)
    || bad_after instrument as_of o os

unfoldable pub bad_observations : ResearchInstrument → ℕ → List Observation → Bool
bad_observations instrument as_of [] = false
bad_observations instrument as_of (o ∷ os) =
    is_out_of_view instrument as_of o || bad_after instrument as_of o os

-- `NewPointInTimeView`
unfoldable pub new_point_in_time_view :
    ℕ → ResearchInstrument → List Observation → Result ResearchError PointInTimeView
new_point_in_time_view as_of instrument observations = do
  reject_if ((as_of == 0) || not (is_available_at instrument as_of)) invalid_frame
  reject_if (bad_observations instrument as_of observations) invalid_frame
  ok (record { as_of = as_of; instrument = instrument; observations = observations })

pub record FeatureFrame : Type 0 where
  pub as_of : ℕ
  pub instrument : ResearchInstrument
  pub sources : List ℕ
  pub values : List Value

-- `<` on texts.
unfoldable pub text_less : Text → Text → Bool
text_less [] [] = false
text_less [] (c ∷ t) = true
text_less (c ∷ s) [] = false
text_less (c ∷ s) (d ∷ t) = let rest = text_less s t in if c == d then rest else ltb c d

-- `sort.Slice` by name: of two equal names, either order is refused afterwards.
unfoldable pub insert_value : Value → List Value → List Value
insert_value v [] = v ∷ []
insert_value v (w ∷ ws) =
    let rest = insert_value v ws in if text_less w.name v.name then w ∷ rest else v ∷ w ∷ ws

unfoldable pub sort_values : List Value → List Value
sort_values [] = []
sort_values (v ∷ vs) = insert_value v (sort_values vs)

abbrev is_bad_value : Value → Bool
is_bad_value v = is_empty v.name || leb_ℤ v.scale (pos 0)

-- The loop of `NewFeatureFrame`.
unfoldable pub bad_values : List Value → Bool
bad_values [] = false
bad_values (v ∷ []) = is_bad_value v
bad_values (v ∷ w ∷ vs) = is_bad_value v || text_eq v.name w.name || bad_values (w ∷ vs)

-- `NewFeatureFrame`
unfoldable pub new_feature_frame : PointInTimeView → List Value → Result ResearchError FeatureFrame
new_feature_frame view given =
    let values = sort_values given in
    do
      reject_if (view.as_of == 0) invalid_frame
      reject_if (bad_values values) invalid_frame
      ok (record {
        as_of = view.as_of;
        instrument = view.instrument;
        sources = map (λ o. o.id) view.observations;
        values = values;
      })

-- The last observation and the one before it.
unfoldable pub last_two : List Observation → Option (Observation × Option Observation)
last_two [] = none
last_two (o ∷ []) = some (o, none)
last_two (p ∷ o ∷ []) = some (o, some p)
last_two (q ∷ p ∷ o ∷ os) = last_two (p ∷ o ∷ os)

-- The values that `Build` computes.
unfoldable pub return_value : Observation → Option Observation → Result ResearchError (List Value)
return_value last none = ok []
return_value last (some p) =
    let previous = p.price.minor in
    if leb_ℤ previous (pos 0) then ok [] else do
      delta ← checked_sub last.price.minor previous
      scaled ← checked_mul delta (pos 1000000)
      ok (
          record {
            name = feature_return;
            value = wrap64 (quo scaled previous);
            scale = pos 1000000;
            unit = ppm;
          }
          ∷ [])

-- `Engine.Build`
unfoldable pub build : PointInTimeView → Result ResearchError FeatureFrame
build view = elim (last_two view.observations) [
  | none ↦ new_feature_frame view []
  | some (last, previous) ↦ do
    more ← return_value last previous
    new_feature_frame view (
        record {
          name = feature_last_price;
          value = last.price.minor;
          scale = pos 1;
          unit = minor_units;
        }
        ∷ more)
]
