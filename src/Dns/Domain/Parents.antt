-- ===== src/Dns/Domain/Parents.antt =====
-- What the walk over a domain's parents in src/modules/dns/mod.rs reaches.
use shield_ghita.Prelude.{
  ℕ, suc, ◌<◌, ◌≡◌, refl, ap, ◌⊎◌, ◌≢◌, inl, inr, true, false, not, ◌&&◌, List, [], ◌∷◌, ◌++◌,
  arith, Bytes, ◌==◌, nat_eq, bytes_eq, length, is_empty, contains, IsIn, any-intro, any-elim,
  Bool-cases, nat_beq_iff, ||-eq-true,
}
use shield_ghita.Text.{dot}
use shield_ghita.Dns.Domain.{parents, match_domain_hierarchy}

-- `domain` ends in a dot and then `rest`.
abbrev pub IsParent : Bytes → Bytes → Type 0
IsParent domain rest = (label : Bytes) × (domain ≡ label ++ (dot ∷ rest))

pub parents-cons_dot : (s : Bytes) → parents (dot ∷ s) ≡ s ∷ parents s
parents-cons_dot s = refl

pub IsIn-parents_cons : (b : ℕ) (r s : Bytes) → IsIn r (parents s) → IsIn r (parents (b ∷ s))
IsIn-parents_cons b r s i = elim (Bool-cases (b == dot)) [ inl y ↦ rw y (inr i) | inr n ↦ rw n i ]

pub IsParent-IsIn : (label r : Bytes) → IsIn r (parents (label ++ (dot ∷ r)))
IsParent-IsIn [] r = inl refl
IsParent-IsIn (b ∷ label) r = IsIn-parents_cons b r (label ++ (dot ∷ r)) (IsParent-IsIn label r)

pub IsIn-IsParent : (r d : Bytes) → IsIn r (parents d) → IsParent d r
IsIn-IsParent r [] i = absurd i
IsIn-IsParent r (b ∷ s) i = elim (Bool-cases (b == dot)) [
  | inl y ↦ at_dot y (IsIn-IsParent r s) (rw y at i)
  | inr n ↦ let (label, e) = IsIn-IsParent r s (rw n at i) in (b ∷ label, ap (λ t. b ∷ t) e)
]
  where
    at_dot :
        (b == dot) ≡ true
        → (IsIn r (parents s) → IsParent s r)
        → IsIn r (s ∷ parents s)
        → IsParent (b ∷ s) r
    at_dot y ih (inl e) = ([], ground (arith, nat_beq_iff b dot))
    at_dot y ih (inr j) = let (label, e) = ih j in (b ∷ label, ap (λ t. b ∷ t) e)

pub parents_trans : (q r d : Bytes) → IsIn q (parents r) → IsIn r (parents d) → IsIn q (parents d)
parents_trans q r [] i j = absurd j
parents_trans q r (b ∷ s) i j = elim (Bool-cases (b == dot)) [
  | inl y ↦ rw y (at_dot (parents_trans q r s i) (rw y at j))
  | inr n ↦ rw n (parents_trans q r s i (rw n at j))
]
  where
    at_dot :
        (IsIn r (parents s) → IsIn q (parents s)) → IsIn r (s ∷ parents s) → IsIn q (s ∷ parents s)
    at_dot ih (inl e) = inr (rw e at i)
    at_dot ih (inr k) = inr (ih k)

pub length-parent-lt : (r d : Bytes) → IsIn r (parents d) → length r < length d
length-parent-lt r [] i = absurd i
length-parent-lt r (b ∷ s) i = elim (Bool-cases (b == dot)) [
  | inl y ↦ at_dot (length-parent-lt r s) (rw y at i)
  | inr n ↦ omega (arith, length-parent-lt r s (rw n at i))
]
  where
    at_dot :
        (IsIn r (parents s) → length r < length s)
        → IsIn r (s ∷ parents s)
        → length r < suc (length s)
    at_dot ih (inl e) = omega (arith, ap length e)
    at_dot ih (inr k) = omega (arith, ih k)

-- A domain is reached by itself and by each nonempty parent.
abbrev pub Reaches : Bytes → Bytes → Type 0
Reaches domain rest = (rest ≡ domain) ⊎ (IsIn rest (parents domain) × (rest ≢ []))

pub not_empty : (r : Bytes) → r ≢ [] → is_empty r ≡ false
not_empty [] h = absurd (h refl)
not_empty (b ∷ r) h = refl

pub ne_of_not_empty : (r : Bytes) → is_empty r ≡ false → r ≢ []
ne_of_not_empty [] h e = cc
ne_of_not_empty (b ∷ r) h e = cc

pub match-intro :
    (d r : Bytes) (set : List Bytes)
    → Reaches d r
    → contains set r ≡ true
    → match_domain_hierarchy d set ≡ true
unfolding match_domain_hierarchy
match-intro d r set (inl e) h = ground (arith, ap (contains set) e)
match-intro d r set (inr (i, ne)) h = ground (
  arith,
  any-intro (λ rest. not (is_empty rest) && contains set rest) r (parents d) i
      (ground (arith, not_empty r ne)),
)

pub match-elim :
    (d : Bytes) (set : List Bytes)
    → match_domain_hierarchy d set ≡ true
    → (r : Bytes) × Reaches d r × (contains set r ≡ true)
unfolding match_domain_hierarchy
match-elim d set h = elim (||-eq-true _ _ h) [
  | inl here ↦ (d, inl refl, here)
  | inr up ↦
      let (r, i, e) = any-elim (λ rest. not (is_empty rest) && contains set rest) (parents d) up in
      (r, inr (i, ne_of_not_empty r (ground arith)), ground arith)
]
