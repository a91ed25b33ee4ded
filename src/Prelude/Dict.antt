-- ===== src/Prelude/Dict.antt =====
-- `std::unordered_map` with number keys (pointers and indices) as an association list: `find` and
-- `at` are `lookup`, `m[k] = v` is `insert`, and `erase`. Meant to be used qualified.
use Prim.Native.Nat.{ℕ}
use mathlib.Core.Path.{◌≡◌, refl}
use mathlib.Core.List.{List, [], ◌∷◌}
use mathlib.Core.Option.{Option, none, some}
use native.Mathlib.Omega.{arith}
use microjit.Prelude.Tests.{◌==◌, if◌then◌else◌}

module _ {ℓ} {Entry : Type ℓ} where
  unfoldable pub erase : ℕ → List (ℕ × Entry) → List (ℕ × Entry)
  erase key [] = []
  erase key (first ∷ entries) =
      if first.0 == key then erase key entries else first ∷ erase key entries

  unfoldable pub lookup : ℕ → List (ℕ × Entry) → Option Entry
  lookup key [] = none
  lookup key (first ∷ entries) = if first.0 == key then some first.1 else lookup key entries

  unfoldable pub insert : ℕ → Entry → List (ℕ × Entry) → List (ℕ × Entry)
  insert key entry [] = (key, entry) ∷ []
  insert key entry (first ∷ entries) =
      if first.0 == key then (key, entry) ∷ entries else first ∷ insert key entry entries

  pub lookup-erase :
      (erased key : ℕ) (entries : List (ℕ × Entry))
      → lookup key (erase erased entries) ≡ (if erased == key then none else lookup key entries)
  unfolding lookup erase
  lookup-erase erased key [] = ground arith
  lookup-erase erased key (first ∷ entries) = ground (arith, lookup-erase erased key entries)

  pub lookup-insert :
      (new key : ℕ) (entry : Entry) (entries : List (ℕ × Entry))
      → lookup key (insert new entry entries)
        ≡ (if new == key then some entry else lookup key entries)
  unfolding lookup insert
  lookup-insert new key entry [] = refl
  lookup-insert new key entry (first ∷ entries) =
      ground (arith, lookup-insert new key entry entries)
