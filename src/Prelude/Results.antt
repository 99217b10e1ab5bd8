-- ===== src/Prelude/Results.antt =====
-- Go's `(value, error)` results. An error is its kind alone: the sentinel values that the code
-- compares with `errors.Is`.
use mathlib.Core.Path.{◌≡◌, refl}
use mathlib.Core.Bool.{Bool, true, false}

pub data Result {κ ℓ} (Failure : Type κ) (Value : Type ℓ) : Type (κ ⊔ ℓ) where
  err : Failure → Result Failure Value
  ok : Value → Result Failure Value

-- `if bad { return error }`
abbrev pub reject_if {κ} : {Failure : Type κ} → Bool → Failure → Result Failure (Unit {0})
reject_if false e = ok tt
reject_if true e = err e

-- `value, err := f(); if err != nil { return err }`, and the same where there is no value.
infixl 5 ◌>>=◌ ◌>>◌
abbrev pub ◌>>=◌ {κ ℓ μ} :
    {Failure : Type κ} {V : Type ℓ} {W : Type μ}
    → Result Failure V
    → (V → Result Failure W)
    → Result Failure W
err e >>= next = err e
ok v >>= next = next v

abbrev pub ◌>>◌ {κ μ} :
    {Failure : Type κ} {W : Type μ}
    → Result Failure (Unit {0})
    → Result Failure W
    → Result Failure W
check >> rest = check >>= λ _. rest

-- A guard that let the rest succeed was not met.
pub reject_if-eq-ok {κ ℓ} :
    {Failure : Type κ} {V : Type ℓ} (bad : Bool) (e : Failure) (rest : Result Failure V) {v : V}
    → (reject_if bad e >> rest) ≡ ok v
    → (bad ≡ false) × (rest ≡ ok v)
reject_if-eq-ok false e rest succeeds = (refl, succeeds)
reject_if-eq-ok true e rest succeeds = cc

pub >>=-eq-ok {κ ℓ μ} :
    {Failure : Type κ} {V : Type ℓ} {W : Type μ} (first : Result Failure V)
    (next : V → Result Failure W) {w : W}
    → (first >>= next) ≡ ok w
    → (v : V) × (first ≡ ok v) × (next v ≡ ok w)
>>=-eq-ok (err e) next succeeds = cc
>>=-eq-ok (ok v) next succeeds = (v, refl, succeeds)

-- Equal results have equal values, and an error is no value.
pub ok_injective {κ ℓ} :
    {Failure : Type κ} {V : Type ℓ} {v w : V} → ◌≡◌ {A = Result Failure V} (ok v) (ok w) → v ≡ w
ok_injective e = cc

pub err-neq-ok {κ ℓ μ} :
    {Failure : Type κ} {V : Type ℓ} {C : Type μ} {f : Failure} {v : V}
    → ◌≡◌ {A = Result Failure V} (err f) (ok v)
    → C
err-neq-ok e = cc

-- The same, for a proof that goes on from the value.
pub >>=-then {κ ℓ μ ν} :
    {Failure : Type κ} {V : Type ℓ} {C : Type ν} {W : Type μ} (first : Result Failure V)
    (next : V → Result Failure W) {w : W}
    → (first >>= next) ≡ ok w
    → ((v : V) → first ≡ ok v → next v ≡ ok w → C)
    → C
>>=-then (err e) next succeeds go = err-neq-ok succeeds
>>=-then (ok v) next succeeds go = go v refl succeeds
