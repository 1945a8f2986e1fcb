-- ===== src/Prelude/Members.antt =====
-- Membership in a list as a type, and what the Boolean searches say about it.
use mathlib.Core.Path.{◌≡◌, refl, sym, ap, ◌∙◌}
use mathlib.Core.Logic.{◌⊎◌, inl, inr}
use mathlib.Core.Bool.{Bool, true, ◌||◌, ◌&&◌, not}
use mathlib.Core.List.{List, [], ◌∷◌, map}
use native.Mathlib.Omega.{arith}
use shield_ghita.Prelude.Tests.{Bool-cases, ||-eq-true, &&-eq-true}
use shield_ghita.Prelude.Lists.{any, all, retain}
use shield_ghita.Prelude.Keys.{Key, ◌==◌}
use shield_ghita.Prelude.Maps.{contains, set_insert, set_remove}

module _ {A : Type 0} where
  abbrev pub IsIn : A → List A → Type 0
  IsIn a [] = ⊥
  IsIn a (x ∷ xs) = (a ≡ x) ⊎ IsIn a xs

  pub any-intro : (p : A → Bool) (a : A) (xs : List A) → IsIn a xs → p a ≡ true → any p xs ≡ true
  any-intro p a [] i h = absurd i
  any-intro p a (x ∷ xs) (inl e) h = ground (arith, ap p e)
  any-intro p a (x ∷ xs) (inr i) h = ground (arith, any-intro p a xs i h)

  pub any-elim : (p : A → Bool) (xs : List A) → any p xs ≡ true → (a : A) × IsIn a xs × (p a ≡ true)
  any-elim p [] h = cc
  any-elim p (x ∷ xs) h = elim (||-eq-true _ _ h) [
    | inl here ↦ (x, inl refl, here)
    | inr there ↦ let (a, i, e) = any-elim p xs there in (a, inr i, e)
  ]

  pub all-elim : (p : A → Bool) (a : A) (xs : List A) → all p xs ≡ true → IsIn a xs → p a ≡ true
  all-elim p a [] h i = absurd i
  all-elim p a (x ∷ xs) h (inl e) = ground (arith, ap p e)
  all-elim p a (x ∷ xs) h (inr i) = all-elim p a xs (&&-eq-true _ _ h).1 i

  pub IsIn-retain :
      (p : A → Bool) (a : A) (xs : List A) → IsIn a xs → p a ≡ true → IsIn a (retain p xs)
  IsIn-retain p a [] i h = i
  IsIn-retain p a (x ∷ xs) (inl e) h = rw (ap p (sym e), h) (inl e)
  IsIn-retain p a (x ∷ xs) (inr i) h = elim (Bool-cases (p x)) [
    | inl y ↦ rw y (inr (IsIn-retain p a xs i h))
    | inr n ↦ rw n (IsIn-retain p a xs i h)
  ]

  pub retain-IsIn :
      (p : A → Bool) (a : A) (xs : List A) → IsIn a (retain p xs) → IsIn a xs × (p a ≡ true)
  retain-IsIn p a [] i = absurd i
  retain-IsIn p a (x ∷ xs) i = elim (Bool-cases (p x)) [
    | inl y ↦ kept y (retain-IsIn p a xs) (rw y at i)
    | inr n ↦ let t = retain-IsIn p a xs (rw n at i) in (inr t.0, t.1)
  ]
    where
      kept :
          p x ≡ true
          → (IsIn a (retain p xs) → IsIn a xs × (p a ≡ true))
          → IsIn a (x ∷ retain p xs)
          → IsIn a (x ∷ xs) × (p a ≡ true)
      kept y ih (inl e) = (inl e, ap p e ∙ y)
      kept y ih (inr j) = (inr (ih j).0, (ih j).1)

module _ {A B : Type 0} where
  pub IsIn-map : (f : A → B) (a : A) (xs : List A) → IsIn a xs → IsIn (f a) (map f xs)
  IsIn-map f a [] i = absurd i
  IsIn-map f a (x ∷ xs) (inl e) = inl (ap f e)
  IsIn-map f a (x ∷ xs) (inr i) = inr (IsIn-map f a xs i)

  pub map-IsIn :
      (f : A → B) (b : B) (xs : List A) → IsIn b (map f xs) → (a : A) × IsIn a xs × (b ≡ f a)
  map-IsIn f b [] i = absurd i
  map-IsIn f b (x ∷ xs) (inl e) = (x, inl refl, e)
  map-IsIn f b (x ∷ xs) (inr i) = let (a, j, e) = map-IsIn f b xs i in (a, inr j, e)

module _ {A : Type 0} ⦃e : Key A⦄ where
  pub contains-IsIn : (xs : List A) (a : A) → contains xs a ≡ true → IsIn a xs
  contains-IsIn [] a h = cc
  contains-IsIn (x ∷ xs) a h = elim (||-eq-true _ _ h) [
    | inl here ↦ inl (sym ((e.same_iff x a).0 here))
    | inr there ↦ inr (contains-IsIn xs a there)
  ]

  pub IsIn-contains : (xs : List A) (a : A) → IsIn a xs → contains xs a ≡ true
  IsIn-contains [] a i = absurd i
  IsIn-contains (x ∷ xs) a (inl p) = ground (arith, (e.same_iff x a).1 (sym p))
  IsIn-contains (x ∷ xs) a (inr i) = ground (arith, IsIn-contains xs a i)

  -- Membership in a `HashSet` after an insertion or a removal.
  pub contains-set_insert :
      (a b : A) (xs : List A) → contains (set_insert a xs) b ≡ (a == b || contains xs b)
  contains-set_insert a b xs = elim (Bool-cases (contains xs a)) [
    | inl old ↦ rw old (ground (arith, e.same_iff a b, moved))
    | inr new ↦ rw new refl
  ]
    where
      moved : a ≡ b → contains xs a ≡ contains xs b
      moved p = ap (contains xs) p

  pub contains-set_remove :
      (a b : A) (xs : List A) → contains (set_remove a xs) b ≡ (not (a == b) && contains xs b)
  contains-set_remove a b [] = ground arith
  contains-set_remove a b (x ∷ xs) =
      ground (arith, e.same_iff x a, e.same_iff x b, e.same_iff a b, contains-set_remove a b xs)
