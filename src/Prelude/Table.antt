-- ===== src/Prelude/Table.antt =====
-- A Go map from strings as the list of its values, each of which knows its key.
use Prim.Native.Nat.{◌≤◌}
use mathlib.Core.Path.{◌≡◌, refl}
use mathlib.Core.Option.{Option, none, some}
use mathlib.Core.List.{List, [], ◌∷◌}
use native.Mathlib.Omega.{arith}
use dvpnd.Prelude.Tests.{if◌then◌else◌}
use dvpnd.Prelude.Lists.{length}
use dvpnd.Prelude.Strings.{Bytes, bytes_eq, bytes_eq_iff}

module _ {ℓ} {A : Type ℓ} (key : A → Bytes) where
  -- `v, ok := m[k]`
  unfoldable pub lookup : Bytes → List A → Option A
  lookup k [] = none
  lookup k (x ∷ xs) = if bytes_eq (key x) k then some x else lookup k xs

  -- `delete(m, k)`
  unfoldable pub erase : Bytes → List A → List A
  erase k [] = []
  erase k (x ∷ xs) = let rest = erase k xs in if bytes_eq (key x) k then rest else x ∷ rest

  pub lookup-erase :
      (k j : Bytes) (xs : List A)
      → lookup j (erase k xs) ≡ (if bytes_eq k j then none else lookup j xs)
  unfolding lookup erase
  lookup-erase k j [] = ground arith
  lookup-erase k j (x ∷ xs) =
      ground (
        arith,
        lookup-erase k j xs,
        bytes_eq_iff (key x) k,
        bytes_eq_iff k j,
        bytes_eq_iff (key x) j,
      )

  pub lookup-key : (k : Bytes) (xs : List A) (x : A) → lookup k xs ≡ some x → key x ≡ k
  unfolding lookup
  lookup-key k [] x h = cc
  lookup-key k (y ∷ xs) x h = ground (arith, lookup-key k xs x, bytes_eq_iff (key y) k)

  pub length-erase : (k : Bytes) (xs : List A) → length (erase k xs) ≤ length xs
  unfolding erase
  length-erase k [] = omega arith
  length-erase k (x ∷ xs) = ground (arith, length-erase k xs)

  -- Keys are distinct.
  abbrev pub Distinct : List A → Type ℓ
  Distinct [] = Unit {ℓ}
  Distinct (x ∷ xs) = (lookup (key x) xs ≡ none) × Distinct xs

  pub erase-absent : (k : Bytes) (xs : List A) → lookup k xs ≡ none → erase k xs ≡ xs
  unfolding lookup erase
  erase-absent k [] h = refl
  erase-absent k (x ∷ xs) h = ground (arith, erase-absent k xs)

  pub erase-Distinct : (k : Bytes) (xs : List A) → Distinct xs → Distinct (erase k xs)
  unfolding erase
  erase-Distinct k [] d = tt
  erase-Distinct k (x ∷ xs) d =
      ground (arith, erase-Distinct k xs d.1, lookup-erase k (key x) xs, bytes_eq_iff k (key x))
