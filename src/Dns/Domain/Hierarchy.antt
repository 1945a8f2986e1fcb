-- ===== src/Dns/Domain/Hierarchy.antt =====
-- `match_domain_hierarchy` and `compact_covered_domains` of src/modules/dns/mod.rs: which names a
-- rule set covers, and that compaction keeps the cover.
use shield_ghita.Prelude.{
  ℕ, zero, suc, ◌+◌, ◌-◌, ◌≤◌, ◌<◌, ◌≡◌, refl, sym, ap, ◌∙◌, ◌↔◌, ◌⊎◌, ◌≢◌, inl, inr, Bool, true,
  false, List, [], ◌∷◌, ◌++◌, map, arith, Bytes, nat_eq, bytes_eq, if◌then◌else◌, length, is_empty,
  contains, set_insert, retain, IsIn, contains-IsIn, IsIn-contains, IsIn-retain, retain-IsIn,
  Bool-cases, length-retain-le,
}
use shield_ghita.Text.{dot, is_dot, to_lowercase, trim_end_matches}
use shield_ghita.Dns.Domain.{parents, match_domain_hierarchy}
use shield_ghita.Dns.Domain.Parents.{
  Reaches, IsParent-IsIn, IsIn-IsParent, parents_trans, length-parent-lt, match-intro, match-elim,
  ne_of_not_empty,
}

-- The names that a rule set covers: its own, and every name below one of them.
abbrev pub Covers : List Bytes → Bytes → Type 0
Covers set domain =
    (contains set domain ≡ true)
    ⊎ ((label : Bytes) × (rest : Bytes) × (domain ≡ label ++ (dot ∷ rest))
        × (rest ≢ [])
        × (contains set rest ≡ true))

-- The matcher accepts exactly the names that the set covers: those it holds, and those that end in
-- a dot and a nonempty name which it holds.
pub match_domain_hierarchy-Covers :
    (domain : Bytes) (set : List Bytes)
    → (match_domain_hierarchy domain set ≡ true) ↔ Covers set domain
match_domain_hierarchy-Covers domain set = (there, back)
  where
    found : (r : Bytes) → Reaches domain r → contains set r ≡ true → Covers set domain
    found r (inl e) h = inl (rw (sym e) h)
    found r (inr (i, ne)) h = let (label, e) = IsIn-IsParent r domain i in inr (label, r, e, ne, h)

    there : match_domain_hierarchy domain set ≡ true → Covers set domain
    there h = let (r, reach, e) = match-elim domain set h in found r reach e

    back : Covers set domain → match_domain_hierarchy domain set ≡ true
    back (inl h) = match-intro domain domain set (inl refl) h
    back (inr (label, rest, e, ne, h)) =
        match-intro domain rest set (inr (rw e (IsParent-IsIn label rest), ne)) h

-- The filter's loop: a domain is kept unless one of its parents is in the set.
unfoldable pub is_kept : List Bytes → List Bytes → Bool
is_kept all_domains [] = true
is_kept all_domains (rest ∷ more) =
    let continued = is_kept all_domains more in
    if is_empty rest then true else if contains all_domains rest then false else continued

-- `collect()` into a `HashSet`.
unfoldable pub to_set : List Bytes → List Bytes
to_set [] = []
to_set (d ∷ ds) = set_insert d (to_set ds)

abbrev pub canonical : Bytes → Bytes
canonical d = to_lowercase (trim_end_matches is_dot d)

unfoldable pub compact_covered_domains : List Bytes → List Bytes × ℕ
unfolding is_kept to_set
compact_covered_domains domains =
    let all_domains = to_set (map canonical domains) in
    let kept = retain (λ domain. is_kept all_domains (parents domain)) all_domains in
    (kept, length domains - length kept)

-- A domain that is dropped has a nonempty parent in the set.
not_kept :
    (set rs : List Bytes)
    → is_kept set rs ≡ false
    → (r : Bytes) × IsIn r rs × (r ≢ []) × (contains set r ≡ true)
unfolding is_kept
not_kept set [] h = cc
not_kept set (r ∷ rs) h = elim (Bool-cases (is_empty r)) [
  | inl y ↦ absurd (ground arith)
  | inr n ↦ elim (Bool-cases (contains set r)) [
    | inl c ↦ (r, inl refl, ne_of_not_empty r n, c)
    | inr c ↦ let (q, i, ne, e) = not_kept set rs (ground arith) in (q, inr i, ne, e)
  ]
]

-- The set that the filter keeps.
abbrev kept_of : List Bytes → List Bytes
kept_of set = retain (λ domain. is_kept set (parents domain)) set

Reaches-trans : (q r d : Bytes) → Reaches r q → Reaches d r → Reaches d q
Reaches-trans q r d (inl e) (inl k) = inl (e ∙ k)
Reaches-trans q r d (inl e) (inr (i, ne)) = inr (rw e i, rw e ne)
Reaches-trans q r d (inr (i, ne)) (inl k) = inr (rw k at i, ne)
Reaches-trans q r d (inr (i, ne)) (inr (j, _)) = inr (parents_trans q r d i j, ne)

-- From a domain of the set, one that is kept can be reached.
kept_above :
    (n : ℕ) (set : List Bytes) (d : Bytes)
    → length d < n
    → contains set d ≡ true
    → (r : Bytes) × Reaches d r × (contains (kept_of set) r ≡ true)
kept_above zero set d small h = elim small [ ]
kept_above (suc n) set d small h = elim (Bool-cases (is_kept set (parents d))) [
  | inl y ↦ (
    d,
    inl refl,
    IsIn-contains (kept_of set) d
        (IsIn-retain (λ x. is_kept set (parents x)) d set (contains-IsIn set d h) y),
  )
  | inr n' ↦
      let (r, i, ne, e) = not_kept set (parents d) n' in
      let (q, up, e') = kept_above n set r (omega (arith, length-parent-lt r d i)) e in
      (q, Reaches-trans q r d up (inr (i, ne)), e')
]

kept_in_set :
    (set : List Bytes) (r : Bytes) → contains (kept_of set) r ≡ true → contains set r ≡ true
kept_in_set set r h =
    IsIn-contains set r
      (retain-IsIn (λ x. is_kept set (parents x)) r set (contains-IsIn (kept_of set) r h)).0

true_iff : (a b : Bool) → (a ≡ true → b ≡ true) → (b ≡ true → a ≡ true) → a ≡ b
true_iff true b f g = sym (f refl)
true_iff false true f g = g refl
true_iff false false f g = refl

match-kept :
    (set : List Bytes) (d : Bytes)
    → match_domain_hierarchy d (kept_of set) ≡ match_domain_hierarchy d set
match-kept set d = true_iff _ _ fewer more
  where
    fewer : match_domain_hierarchy d (kept_of set) ≡ true → match_domain_hierarchy d set ≡ true
    fewer h =
        let (r, reach, e) = match-elim d (kept_of set) h in
        match-intro d r set reach (kept_in_set set r e)

    more : match_domain_hierarchy d set ≡ true → match_domain_hierarchy d (kept_of set) ≡ true
    more h =
        let (r, reach, e) = match-elim d set h in
        let (q, up, e') = kept_above (suc (length r)) set r (omega arith) e in
        match-intro d q (kept_of set) (Reaches-trans q r d up reach) e'

-- Compaction loses no coverage: every name is blocked by the compacted set exactly if the set of
-- all the normalized domains blocks it.
pub match-compact_covered_domains :
    (domains : List Bytes) (d : Bytes)
    → match_domain_hierarchy d (compact_covered_domains domains).0
      ≡ match_domain_hierarchy d (to_set (map canonical domains))
unfolding compact_covered_domains
match-compact_covered_domains domains d = match-kept (to_set (map canonical domains)) d

length-to_set-le : (ds : List Bytes) → length (to_set ds) ≤ length ds
unfolding to_set
length-to_set-le [] = omega arith
length-to_set-le (d ∷ ds) = ground (arith, length-to_set-le ds)

length-map : (ds : List Bytes) → length (map canonical ds) ≡ length ds
length-map [] = refl
length-map (d ∷ ds) = ap suc (length-map ds)

-- The subtraction that counts the dropped domains does not underflow: kept and dropped domains add
-- up to the input.
pub compact_covered_domains_count :
    (domains : List Bytes)
    → length (compact_covered_domains domains).0 + (compact_covered_domains domains).1
      ≡ length domains
unfolding compact_covered_domains
compact_covered_domains_count domains = omega (
  arith,
  length-retain-le (λ d. is_kept (to_set (map canonical domains)) (parents d))
      (to_set (map canonical domains)),
  length-to_set-le (map canonical domains),
  length-map domains,
)
