-- ===== src/Prelude/Maps.antt =====
-- `BTreeMap` and `HashMap` with numbers for keys, as association lists in ascending order of the
-- keys.
use mirrorscope.Prelude.Tests.{ltb, ◌==◌, if◌then◌else◌}
use Prim.Native.Nat.{ℕ}
use mathlib.Core.Path.{◌≡◌, refl}
use mathlib.Core.Bool.{Bool, true, false}
use mathlib.Core.List.{List, [], ◌∷◌}
use mathlib.Core.Option.{Option, none, some}
use native.Mathlib.Omega.{arith}

abbrev pub Map {ℓ} : Type ℓ → Type ℓ
Map V = List (ℕ × V)

abbrev pub keys {ℓ} : {V : Type ℓ} → Map V → List ℕ
keys [] = []
keys ((k, v) ∷ m) = k ∷ keys m

module _ {ℓ} {V : Type ℓ} where
  unfoldable pub lookup : ℕ → Map V → Option V
  lookup k [] = none
  lookup k ((j, v) ∷ m) = if k == j then some v else lookup k m

  unfoldable pub contains_key : ℕ → Map V → Bool
  contains_key k [] = false
  contains_key k ((j, v) ∷ m) = if k == j then true else contains_key k m

  unfoldable pub insert : ℕ → V → Map V → Map V
  insert k v [] = (k, v) ∷ []
  insert k v ((j, w) ∷ m) =
      let later = insert k v m in
      if ltb k j then (k, v) ∷ (j, w) ∷ m else if k == j then (k, v) ∷ m else (j, w) ∷ later

  unfoldable pub remove : ℕ → Map V → Map V
  remove k [] = []
  remove k ((j, w) ∷ m) = let rest = remove k m in if k == j then rest else (j, w) ∷ rest

  pub lookup-insert :
      (k j : ℕ) (v : V) (m : Map V)
      → lookup j (insert k v m) ≡ (if k == j then some v else lookup j m)
  unfolding lookup insert
  lookup-insert k j v [] = ground arith
  lookup-insert k j v ((i, w) ∷ m) = ground (arith, lookup-insert k j v m)

  pub lookup-remove :
      (k j : ℕ) (m : Map V) → lookup j (remove k m) ≡ (if k == j then none else lookup j m)
  unfolding lookup remove
  lookup-remove k j [] = ground arith
  lookup-remove k j ((i, w) ∷ m) = ground (arith, lookup-remove k j m)

  pub contains_key-lookup :
      (k : ℕ) (m : Map V) → contains_key k m ≡ elim (lookup k m) [ none ↦ false | some _ ↦ true ]
  unfolding lookup contains_key
  contains_key-lookup k [] = refl
  contains_key-lookup k ((j, v) ∷ m) = ground (arith, contains_key-lookup k m)

  pub contains_key-insert :
      (k j : ℕ) (v : V) (m : Map V)
      → contains_key j (insert k v m) ≡ (if k == j then true else contains_key j m)
  contains_key-insert k j v m =
      ground (
        arith,
        contains_key-lookup j (insert k v m),
        contains_key-lookup j m,
        lookup-insert k j v m,
      )

  pub contains_key-remove :
      (k j : ℕ) (m : Map V)
      → contains_key j (remove k m) ≡ (if k == j then false else contains_key j m)
  contains_key-remove k j m =
      ground
        (arith, contains_key-lookup j (remove k m), contains_key-lookup j m, lookup-remove k j m)
