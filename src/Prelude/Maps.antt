-- ===== src/Prelude/Maps.antt =====
-- Go's maps with numbers as keys, as lists of entries: reading, writing and `delete`.
use Prim.Native.Nat.{ℕ}
use mathlib.Core.Path.{◌≡◌, refl, ap}
use mathlib.Core.Logic.{inl, inr}
use mathlib.Core.Bool.{false}
use mathlib.Core.Option.{Option, none, some}
use mathlib.Core.List.{List, [], ◌∷◌}
use native.Mathlib.Omega.{arith}
use tradeedge.Prelude.Tests.{◌==◌, if◌then◌else◌, Bool-cases}

module _ {ℓ} {V : Type ℓ} where
  abbrev pub find_at : ℕ → List (ℕ × V) → Option V
  find_at k [] = none
  find_at k ((j, v) ∷ m) = if k == j then some v else find_at k m

  abbrev pub erase_at : ℕ → List (ℕ × V) → List (ℕ × V)
  erase_at k [] = []
  erase_at k ((j, v) ∷ m) = let rest = erase_at k m in if k == j then rest else (j, v) ∷ rest

  -- The written entry stands first.
  abbrev pub put_at : ℕ → V → List (ℕ × V) → List (ℕ × V)
  put_at k v m = (k, v) ∷ erase_at k m

  pub find-erase_same : (k : ℕ) (m : List (ℕ × V)) → find_at k (erase_at k m) ≡ none
  find-erase_same k [] = refl
  find-erase_same k ((j, v) ∷ m) = elim (Bool-cases (k == j)) [
    | inl e ↦ rw e (find-erase_same k m)
    | inr e ↦ rw (e, e) (find-erase_same k m)
  ]

  pub find-erase_other :
      (k j : ℕ) (m : List (ℕ × V)) → (k == j) ≡ false → find_at k (erase_at j m) ≡ find_at k m
  find-erase_other k j [] h = refl
  find-erase_other k j ((i, v) ∷ m) h = elim (Bool-cases (j == i)) [
    | inl e ↦
        let away : (k == i) ≡ false = ground (arith, h, e) in
        rw (e, away) (find-erase_other k j m h)
    | inr e ↦ rw e (ap (λ rest. if k == i then some v else rest) (find-erase_other k j m h))
  ]

  pub find-put_same : (k : ℕ) (v : V) (m : List (ℕ × V)) → find_at k (put_at k v m) ≡ some v
  find-put_same k v m = ground arith

  pub find-put_other :
      (k j : ℕ) (v : V) (m : List (ℕ × V))
      → (k == j) ≡ false
      → find_at k (put_at j v m) ≡ find_at k m
  find-put_other k j v m h = rw h (find-erase_other k j m h)
