-- ===== src/Instruments.antt =====
-- internal/instrumentmaster/master.go: the master of instruments, and the mappings of a provider's tokens
-- to them over time. The version is the digest of the contents, a parameter. `Instruments` and
-- `Mappings`, which copy what the master holds, are left out.
pub mod Lookup
pub mod Made
mod Tests
use tradeedge.Prelude.{
  ltb, ◌==◌, if◌then◌else◌, Result, err, ok, reject_if, ◌>>=◌, ◌>>◌, Text, is_empty, text_eq,
  trim_space, ℕ, Bool, true, false, not, ◌&&◌, ◌||◌, Option, none, some, List, [], ◌∷◌, ◌++◌,
}
use tradeedge.Domain.Instrument.{Instrument, ProviderInstrumentRef, is_invalid_ref, is_valid_at}

pub data MasterError : Type 0 where
  invalid_master instrument_not_found ambiguous_mapping : MasterError

pub record Master : Type 0 where
  pub version : ℕ
  pub as_of : ℕ
  pub instruments : List Instrument
  pub mappings : List ProviderInstrumentRef

-- `Master.Instrument`
unfoldable pub find_instrument : ℕ → List Instrument → Option Instrument
find_instrument id [] = none
find_instrument id (i ∷ is) = if i.id == id then some i else find_instrument id is

abbrev pub is_known : ℕ → List Instrument → Bool
is_known id is = elim (find_instrument id is) [ none ↦ false | some _ ↦ true ]

-- The loop over the instruments, with those that came before.
unfoldable pub add_instruments :
    List Instrument → List Instrument → Result MasterError (List Instrument)
add_instruments known [] = ok known
add_instruments known (i ∷ is) =
    let rest = add_instruments (known ++ (i ∷ [])) is in
    if (i.id == 0) || is_known i.id known then err invalid_master else rest

-- The loop over the mappings.
unfoldable pub check_mappings :
    List Instrument → List ProviderInstrumentRef → Result MasterError (Unit {0})
check_mappings is [] = ok tt
check_mappings is (m ∷ ms) =
    let rest = check_mappings is ms in
    if is_invalid_ref m || not (is_known m.instrument_id is) then err invalid_master else rest

-- `intervalsOverlap`
unfoldable pub intervals_overlap : ℕ → ℕ → ℕ → ℕ → Bool
intervals_overlap left_from left_until right_from right_until =
    ltb left_from right_until && ltb right_from left_until

-- The body of the loop over the pairs.
unfoldable pub conflict : ProviderInstrumentRef → ProviderInstrumentRef → Bool
unfolding intervals_overlap
conflict l r =
    text_eq l.provider r.provider
    && intervals_overlap l.valid_from l.valid_until r.valid_from r.valid_until
    && (text_eq l.token r.token || (l.instrument_id == r.instrument_id))

unfoldable pub conflicts_with : ProviderInstrumentRef → List ProviderInstrumentRef → Bool
conflicts_with l [] = false
conflicts_with l (r ∷ rs) = conflict l r || conflicts_with l rs

unfoldable pub any_conflict : List ProviderInstrumentRef → Bool
any_conflict [] = false
any_conflict (m ∷ ms) = conflicts_with m ms || any_conflict ms

abbrev pub is_nil {ℓ} : {A : Type ℓ} → List A → Bool
is_nil [] = true
is_nil (_ ∷ _) = false

-- The copies of the mappings carry the version.
unfoldable pub stamp : ℕ → List ProviderInstrumentRef → List ProviderInstrumentRef
stamp version [] = []
stamp version (m ∷ ms) = record m { master_version = version } ∷ stamp version ms

-- `New`
unfoldable pub new_master :
    (ℕ → List Instrument → List ProviderInstrumentRef → ℕ)
    → ℕ
    → List Instrument
    → List ProviderInstrumentRef
    → Result MasterError Master
new_master digest as_of instruments mappings = do
  reject_if ((as_of == 0) || is_nil instruments) invalid_master
  known ← add_instruments [] instruments
  check_mappings known mappings
  reject_if (any_conflict mappings) ambiguous_mapping
  let version = digest as_of instruments mappings
  ok (record {
    version = version;
    as_of = as_of;
    instruments = known;
    mappings = stamp version mappings;
  })

abbrev pub matches_token : Text → Text → ℕ → ProviderInstrumentRef → Bool
matches_token provider token at m =
    text_eq m.provider provider && text_eq m.token token && is_valid_at m at

-- The loop of `Resolve`, with the identifier found so far.
unfoldable pub resolve_from :
    Text → Text → ℕ → ℕ → List ProviderInstrumentRef → Result MasterError ℕ
resolve_from provider token at found [] = if found == 0 then err instrument_not_found else ok found
resolve_from provider token at found (m ∷ ms) =
    let matched = resolve_from provider token at m.instrument_id ms in
    let skipped = resolve_from provider token at found ms in
    if matches_token provider token at m
    then (if not (found == 0) && not (found == m.instrument_id)
        then err ambiguous_mapping
        else matched)
    else skipped

-- `Resolve`
unfoldable pub resolve : Text → Text → ℕ → Master → Result MasterError ℕ
resolve provider token at m = resolve_from provider (trim_space token) at 0 m.mappings

abbrev pub matches_instrument : Text → ℕ → ℕ → ProviderInstrumentRef → Bool
matches_instrument provider id at m =
    text_eq m.provider provider && (m.instrument_id == id) && is_valid_at m at

abbrev pub has_token : Option ProviderInstrumentRef → Bool
has_token none = false
has_token (some m) = not (is_empty m.token)

-- The loop of `ResolveInstrument`; nothing found is the zero mapping.
unfoldable pub resolve_instrument_from :
    Text
    → ℕ
    → ℕ
    → Option ProviderInstrumentRef
    → List ProviderInstrumentRef
    → Result MasterError ProviderInstrumentRef
resolve_instrument_from provider id at none [] = err instrument_not_found
resolve_instrument_from provider id at (some m) [] =
    if is_empty m.token then err instrument_not_found else ok m
resolve_instrument_from provider id at found (m ∷ ms) =
    let matched = resolve_instrument_from provider id at (some m) ms in
    let skipped = resolve_instrument_from provider id at found ms in
    if matches_instrument provider id at m
    then (if has_token found then err ambiguous_mapping else matched)
    else skipped

-- `ResolveInstrument`
unfoldable pub resolve_instrument : Text → ℕ → ℕ → Master → Result MasterError ProviderInstrumentRef
resolve_instrument provider id at m = resolve_instrument_from provider id at none m.mappings
