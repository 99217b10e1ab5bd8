-- ===== src/Prelude/Lists.antt =====
-- Lists by native numbers, a predicate on all members, and order by a numeric key.
use Prim.Native.Nat.{ℕ, suc, ◌+◌, ◌≤◌}
use mathlib.Core.Path.{◌≡◌}
use mathlib.Core.List.{List, [], ◌∷◌, ◌++◌}
use native.Mathlib.Omega.{arith}

module _ {ℓ} {A : Type ℓ} where
  abbrev pub length : List A → ℕ
  length [] = 0
  length (x ∷ xs) = suc (length xs)

  pub length-append : (xs ys : List A) → length (xs ++ ys) ≡ length xs + length ys
  length-append [] ys = omega arith
  length-append (x ∷ xs) ys = omega (arith, length-append xs ys)

  abbrev pub All {κ} : (A → Type κ) → List A → Type κ
  All P [] = Unit
  All P (x ∷ xs) = P x × All P xs

  pub All-append {κ} : (P : A → Type κ) (xs ys : List A) → All P xs → All P ys → All P (xs ++ ys)
  All-append P [] ys h k = k
  All-append P (x ∷ xs) ys h k = (h.0, All-append P xs ys h.1 k)

  pub All-take_left {κ} : (P : A → Type κ) (xs ys : List A) → All P (xs ++ ys) → All P xs
  All-take_left P [] ys h = tt
  All-take_left P (x ∷ xs) ys h = (h.0, All-take_left P xs ys h.1)

  pub All-map {κ μ} :
      (P : A → Type κ) (Q : A → Type μ) (xs : List A) → ((x : A) → P x → Q x) → All P xs → All Q xs
  All-map P Q [] f h = tt
  All-map P Q (x ∷ xs) f h = (f x h.0, All-map P Q xs f h.1)

  -- The keys do not fall along the list.
  abbrev pub IsSortedBy : (A → ℕ) → List A → Type 0
  IsSortedBy key [] = Unit
  IsSortedBy key (x ∷ xs) = All (λ y. key x ≤ key y) xs × IsSortedBy key xs

  pub IsSortedBy-append :
      (key : A → ℕ) (bound : ℕ) (xs ys : List A)
      → IsSortedBy key xs
      → IsSortedBy key ys
      → All (λ x. key x ≤ bound) xs
      → All (λ y. bound ≤ key y) ys
      → IsSortedBy key (xs ++ ys)
  IsSortedBy-append key bound [] ys s t h k = t
  IsSortedBy-append key bound (x ∷ xs) ys s t h k = (
    All-append (λ y. key x ≤ key y) xs ys s.0
        (All-map (λ y. bound ≤ key y) (λ y. key x ≤ key y) ys (λ y p. omega arith) k),
    IsSortedBy-append key bound xs ys s.1 t h.1 k,
  )
