-- ===== src/Prelude/Maps.antt =====
-- `HashSet` and `HashMap` as lists. The order of the list stands for the iteration order.
use Prim.Native.Nat.{◌+◌, ◌≤◌}
use mathlib.Core.Path.{◌≡◌, refl}
use mathlib.Core.Bool.{Bool, false, ◌||◌}
use mathlib.Core.List.{List, [], ◌∷◌}
use mathlib.Core.Option.{Option, none, some}
use native.Mathlib.Omega.{arith}
use shield_ghita.Prelude.Tests.{if◌then◌else◌}
use shield_ghita.Prelude.Lists.{length}
use shield_ghita.Prelude.Keys.{Key, ◌==◌}

module _ {ℓ} {A : Type ℓ} ⦃e : Key A⦄ where
  abbrev pub contains : List A → A → Bool
  contains [] a = false
  contains (x ∷ xs) a = x == a || contains xs a

  abbrev pub set_insert : A → List A → List A
  set_insert a xs = if contains xs a then xs else a ∷ xs

  abbrev pub set_remove : A → List A → List A
  set_remove a [] = []
  set_remove a (x ∷ xs) = let rest = set_remove a xs in if x == a then rest else x ∷ rest

module _ {ℓ κ} {K : Type ℓ} {V : Type κ} ⦃e : Key K⦄ where
  abbrev pub get : List (K × V) → K → Option V
  get [] k = none
  get ((j, v) ∷ m) k = if j == k then some v else get m k

  abbrev pub remove : K → List (K × V) → List (K × V)
  remove k [] = []
  remove k ((j, v) ∷ m) = let rest = remove k m in if j == k then rest else (j, v) ∷ rest

  -- An update keeps the entry's place; a new entry goes to the end.
  abbrev pub insert : K → V → List (K × V) → List (K × V)
  insert k v [] = (k, v) ∷ []
  insert k v ((j, w) ∷ m) = if j == k then (k, v) ∷ m else (j, w) ∷ insert k v m

  pub get-insert :
      (k j : K) (v : V) (m : List (K × V))
      → get (insert k v m) j ≡ (if k == j then some v else get m j)
  get-insert k j v [] = refl
  get-insert k j v ((i, w) ∷ m) =
      ground (arith, e.same_iff i k, e.same_iff i j, e.same_iff k j, get-insert k j v m)

  pub get-remove :
      (k j : K) (m : List (K × V)) → get (remove k m) j ≡ (if k == j then none else get m j)
  get-remove k j [] = ground arith
  get-remove k j ((i, w) ∷ m) =
      ground (arith, e.same_iff i k, e.same_iff i j, e.same_iff k j, get-remove k j m)

  pub length-insert-le : (k : K) (v : V) (m : List (K × V)) → length (insert k v m) ≤ length m + 1
  length-insert-le k v [] = omega arith
  length-insert-le k v ((j, w) ∷ m) = ground (arith, length-insert-le k v m)

  pub length-remove-le : (k : K) (m : List (K × V)) → length (remove k m) ≤ length m
  length-remove-le k [] = omega arith
  length-remove-le k ((j, w) ∷ m) = ground (arith, length-remove-le k m)
