-- ===== src/Prelude/Eviction.antt =====
-- Maps that shed their oldest entries: the keys sorted by a number, and some of them removed.
use Prim.Native.Nat.{ℕ, suc, ◌≤◌, ◌<◌}
use mathlib.Core.Path.{◌≡◌, refl, sym, ap, ◌∙◌}
use mathlib.Core.Logic.{◌⊎◌, inl, inr}
use mathlib.Core.List.{List, [], ◌∷◌}
use native.Mathlib.Omega.{arith}
use shield_ghita.Prelude.Tests.{if◌then◌else◌, Bool-cases, leb}
use shield_ghita.Prelude.Lists.{length, take}
use shield_ghita.Prelude.Keys.{Key}
use shield_ghita.Prelude.Maps.{remove, length-remove-le}
use shield_ghita.Prelude.Members.{IsIn}
use shield_ghita.Prelude.Entries.{IsUnique, remove-IsIn, remove-IsUnique}

module _ {K : Type 0} where
  abbrev pub insert_by_rank : K × ℕ → List (K × ℕ) → List (K × ℕ)
  insert_by_rank x [] = x ∷ []
  insert_by_rank x (y ∷ ys) = if leb x.1 y.1 then x ∷ y ∷ ys else y ∷ insert_by_rank x ys

  -- `keys.sort_by_key`, a stable sort.
  abbrev pub sort_by_rank : List (K × ℕ) → List (K × ℕ)
  sort_by_rank [] = []
  sort_by_rank (x ∷ xs) = insert_by_rank x (sort_by_rank xs)

  pub length-insert_by_rank :
      (x : K × ℕ) (xs : List (K × ℕ)) → length (insert_by_rank x xs) ≡ suc (length xs)
  length-insert_by_rank x [] = refl
  length-insert_by_rank x (y ∷ ys) = ground (arith, length-insert_by_rank x ys)

  pub insert_by_rank-IsIn :
      (x : K × ℕ) (xs : List (K × ℕ)) (y : K × ℕ)
      → IsIn y (insert_by_rank x xs)
      → (y ≡ x) ⊎ IsIn y xs
  insert_by_rank-IsIn x [] y (inl same) = inl same
  insert_by_rank-IsIn x [] y (inr i) = absurd i
  insert_by_rank-IsIn x (z ∷ zs) y i = elim (Bool-cases (leb x.1 z.1)) [
    | inl first ↦ rw first at i
    | inr later ↦ elim (rw later at i) [
      | inl same ↦ inr (inl same)
      | inr j ↦ elim (insert_by_rank-IsIn x zs y j) [ inl same ↦ inl same | inr k ↦ inr (inr k) ]
    ]
  ]

  pub length-sort_by_rank : (xs : List (K × ℕ)) → length (sort_by_rank xs) ≡ length xs
  length-sort_by_rank [] = refl
  length-sort_by_rank (x ∷ xs) =
      length-insert_by_rank x (sort_by_rank xs) ∙ ap suc (length-sort_by_rank xs)

  pub sort_by_rank-IsIn : (xs : List (K × ℕ)) (y : K × ℕ) → IsIn y (sort_by_rank xs) → IsIn y xs
  sort_by_rank-IsIn [] y i = i
  sort_by_rank-IsIn (x ∷ xs) y i = elim (insert_by_rank-IsIn x (sort_by_rank xs) y i) [
    | inl same ↦ inl same
    | inr j ↦ inr (sort_by_rank-IsIn xs y j)
  ]

module _ {K V : Type 0} ⦃e : Key K⦄ where
  abbrev pub remove_all : List (K × ℕ) → List (K × V) → List (K × V)
  remove_all [] hist = hist
  remove_all (key ∷ keys) hist = remove_all keys (remove key.0 hist)

  pub length-remove-lt :
      (k : K) (ts : V) (m : List (K × V)) → IsIn (k, ts) m → length (remove k m) < length m
  length-remove-lt k ts [] i = absurd i
  length-remove-lt k ts ((j, us) ∷ m) (inl same) = here (ap (λ x. x.0) same)
    where
      here : k ≡ j → length (remove k ((j, us) ∷ m)) < suc (length m)
      here s = ground (arith, (e.same_iff j k).1 (sym s), length-remove-le k m)
  length-remove-lt k ts ((j, us) ∷ m) (inr i) = ground (arith, length-remove-lt k ts m i)

  pub length-remove_all-le :
      (keys : List (K × ℕ)) (m : List (K × V)) → length (remove_all keys m) ≤ length m
  length-remove_all-le [] m = omega arith
  length-remove_all-le (key ∷ keys) m =
      omega (arith, length-remove_all-le keys (remove key.0 m), length-remove-le key.0 m)

  -- Removing some of the keys of a map makes it smaller.
  pub remove_some :
      (count : ℕ) (keys : List (K × ℕ)) (m : List (K × V))
      → ((y : K × ℕ) → IsIn y keys → (ts : V) × IsIn (y.0, ts) m)
      → 0 < length keys
      → length (remove_all (take (suc count) keys) m) < length m
  remove_some count [] m known more = absurd (omega (arith, more))
  remove_some count (key ∷ keys) m known more =
      let (ts, i) = known key (inl refl) in
      omega (
        arith,
        length-remove_all-le (take count keys) (remove key.0 m),
        length-remove-lt key.0 ts m i,
      )

  pub remove_all-IsIn :
      (keys : List (K × ℕ)) (m : List (K × V)) (x : K × V) → IsIn x (remove_all keys m) → IsIn x m
  remove_all-IsIn [] m x i = i
  remove_all-IsIn (key ∷ keys) m x i =
      remove-IsIn key.0 m x (remove_all-IsIn keys (remove key.0 m) x i)

  pub remove_all-IsUnique :
      (keys : List (K × ℕ)) (m : List (K × V)) → IsUnique m → IsUnique (remove_all keys m)
  remove_all-IsUnique [] m u = u
  remove_all-IsUnique (key ∷ keys) m u =
      remove_all-IsUnique keys (remove key.0 m) (remove-IsUnique key.0 m u)
