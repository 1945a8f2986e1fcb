-- ===== src/Prelude/Entries.antt =====
-- The entries of a map: each key stands once, and what the operations keep of them.
use mathlib.Core.Path.{◌≡◌, refl, sym, ap, ◌∙◌}
use mathlib.Core.Logic.{◌⊎◌, inl, inr}
use mathlib.Core.Bool.{Bool}
use mathlib.Core.List.{List, [], ◌∷◌}
use mathlib.Core.Option.{none, some}
use native.Mathlib.Omega.{arith}
use shield_ghita.Prelude.Tests.{Bool-cases}
use shield_ghita.Prelude.Lists.{retain}
use shield_ghita.Prelude.Keys.{Key, ◌==◌, ==_refl}
use shield_ghita.Prelude.Maps.{get, insert, remove, get-insert, get-remove}
use shield_ghita.Prelude.Members.{IsIn}

module _ {K V : Type 0} ⦃e : Key K⦄ where
  -- No key has two entries.
  abbrev pub IsUnique : List (K × V) → Type 0
  IsUnique [] = Unit
  IsUnique ((k, v) ∷ m) = (get m k ≡ none) × IsUnique m

  pub insert-IsIn :
      (k : K) (v : V) (m : List (K × V)) (x : K × V)
      → IsIn x (insert k v m)
      → (x ≡ (k, v)) ⊎ IsIn x m
  insert-IsIn k v [] x (inl same) = inl same
  insert-IsIn k v [] x (inr i) = absurd i
  insert-IsIn k v ((j, w) ∷ m) x i = elim (Bool-cases (j == k)) [
    | inl here ↦ elim (rw here at i) [ inl same ↦ inl same | inr old ↦ inr (inr old) ]
    | inr there ↦ elim (rw there at i) [
      | inl same ↦ inr (inl same)
      | inr later ↦ elim (insert-IsIn k v m x later) [
        | inl same ↦ inl same
        | inr old ↦ inr (inr old)
      ]
    ]
  ]

  pub remove-IsIn : (k : K) (m : List (K × V)) (x : K × V) → IsIn x (remove k m) → IsIn x m
  remove-IsIn k [] x i = i
  remove-IsIn k ((j, w) ∷ m) x i = elim (Bool-cases (j == k)) [
    | inl here ↦ inr (remove-IsIn k m x (rw here at i))
    | inr there ↦ elim (rw there at i) [
      | inl same ↦ inl same
      | inr old ↦ inr (remove-IsIn k m x old)
    ]
  ]

  pub get-IsIn : (m : List (K × V)) (k : K) (v : V) → get m k ≡ some v → IsIn (k, v) m
  get-IsIn [] k v h = cc
  get-IsIn ((j, w) ∷ m) k v h = elim (Bool-cases (j == k)) [
    | inl here ↦ inl (first ((e.same_iff j k).0 here) (rw here at h))
    | inr there ↦ inr (get-IsIn m k v (rw there at h))
  ]
    where
      first : j ≡ k → some w ≡ some v → ◌≡◌ {A = K × V} (k, v) (j, w)
      first same same' = cc

  -- A key that has no entry has none to be found.
  get-IsIn-none : (m : List (K × V)) (k : K) (v : V) → get m k ≡ none → IsIn (k, v) m → ⊥
  get-IsIn-none [] k v h i = i
  get-IsIn-none ((j, w) ∷ m) k v h (inl same) = clash (ap (λ x. x.0) same)
    where
      clash : k ≡ j → ⊥
      clash s = let t = rw (sym s, ==_refl k) at h in cc
  get-IsIn-none ((j, w) ∷ m) k v h (inr i) = elim (Bool-cases (j == k)) [
    | inl here ↦ let t = rw here at h in cc
    | inr there ↦ get-IsIn-none m k v (rw there at h) i
  ]

  pub IsIn-get : (m : List (K × V)) (k : K) (v : V) → IsUnique m → IsIn (k, v) m → get m k ≡ some v
  IsIn-get [] k v u i = absurd i
  IsIn-get ((j, w) ∷ m) k v u (inl same) = found (ap (λ x. x.0) same) (ap (λ x. x.1) same)
    where
      found : k ≡ j → v ≡ w → get ((j, w) ∷ m) k ≡ some v
      found s t = rw (s, ==_refl j) (ap some (sym t))
  IsIn-get ((j, w) ∷ m) k v (new, u) (inr i) = elim (Bool-cases (j == k)) [
    | inl here ↦ absurd (get-IsIn-none m k v (rw (sym ((e.same_iff j k).0 here)) new) i)
    | inr there ↦ rw there (IsIn-get m k v u i)
  ]

  pub insert-IsUnique : (k : K) (v : V) (m : List (K × V)) → IsUnique m → IsUnique (insert k v m)
  insert-IsUnique k v [] u = (refl, tt)
  insert-IsUnique k v ((j, w) ∷ m) (new, u) = elim (Bool-cases (j == k)) [
    | inl here ↦ rw here (rw (sym ((e.same_iff j k).0 here)) new, u)
    | inr there ↦ rw there (
      get-insert k j v m ∙ ground (arith, there, new, e.same_iff k j, e.same_iff j k),
      insert-IsUnique k v m u,
    )
  ]

  pub remove-IsUnique : (k : K) (m : List (K × V)) → IsUnique m → IsUnique (remove k m)
  remove-IsUnique k [] u = u
  remove-IsUnique k ((j, w) ∷ m) (new, u) = elim (Bool-cases (j == k)) [
    | inl here ↦ rw here (remove-IsUnique k m u)
    | inr there ↦ rw there (get-remove k j m ∙ rw new (ground arith), remove-IsUnique k m u)
  ]

  get-retain-none :
      (p : K × V → Bool) (m : List (K × V)) (k : K) → get m k ≡ none → get (retain p m) k ≡ none
  get-retain-none p [] k h = refl
  get-retain-none p ((j, w) ∷ m) k h = ground (arith, get-retain-none p m k)

  pub retain-IsUnique : (p : K × V → Bool) (m : List (K × V)) → IsUnique m → IsUnique (retain p m)
  retain-IsUnique p [] u = u
  retain-IsUnique p ((j, w) ∷ m) (new, u) = elim (Bool-cases (p (j, w))) [
    | inl y ↦ rw y (get-retain-none p m j new, retain-IsUnique p m u)
    | inr n ↦ rw n (retain-IsUnique p m u)
  ]
