-- ===== src/Dns/Domain/Minimal.antt =====
-- The compacted set of src/modules/dns/mod.rs holds no domain below another one of it.
use shield_ghita.Prelude.{
  ℕ, ◌≡◌, refl, sym, ap, ◌∙◌, inl, inr, true, false, ◌&&◌, List, [], ◌∷◌, map, arith, Bytes, ◌==◌,
  nat_eq, bytes_eq, is_empty, contains, retain, IsIn, contains-IsIn, IsIn-contains, retain-IsIn,
  Bool-cases, ||-eq-true, map-IsIn, contains-set_insert,
}
use shield_ghita.Text.{dot, is_dot, lower_byte, to_lowercase, trim_end_matches}
use shield_ghita.Dns.Domain.{parents}
use shield_ghita.Dns.Domain.Hierarchy.{canonical, is_kept, to_set, compact_covered_domains}

lower_byte-dot : (b : ℕ) → (lower_byte b == dot) ≡ (b == dot)
lower_byte-dot b = ground arith

parents-to_lowercase : (s : Bytes) → parents (to_lowercase s) ≡ map to_lowercase (parents s)
parents-to_lowercase [] = refl
parents-to_lowercase (b ∷ s) = elim (Bool-cases (b == dot)) [
  | inl y ↦ rw (lower_byte-dot b ∙ y, y) (ap (λ t. to_lowercase s ∷ t) (parents-to_lowercase s))
  | inr n ↦ rw (lower_byte-dot b ∙ n, n) (parents-to_lowercase s)
]

trimmed_no_empty_parent : (s : Bytes) → IsIn [] (parents (trim_end_matches is_dot s)) → ⊥
trimmed_no_empty_parent [] i = i
trimmed_no_empty_parent (b ∷ s) i =
    elim (Bool-cases (is_dot b && is_empty (trim_end_matches is_dot s))) [
      | inl y ↦ rw y at i
      | inr n ↦ go n (trimmed_no_empty_parent s) (rw n at i)
    ]
  where
    at_dot :
        is_empty (trim_end_matches is_dot s) ≡ false
        → (IsIn [] (parents (trim_end_matches is_dot s)) → ⊥)
        → IsIn [] (trim_end_matches is_dot s ∷ parents (trim_end_matches is_dot s))
        → ⊥
    at_dot ne ih (inl e) = cc (ap is_empty e)
    at_dot ne ih (inr j) = ih j

    go :
        (is_dot b && is_empty (trim_end_matches is_dot s)) ≡ false
        → (IsIn [] (parents (trim_end_matches is_dot s)) → ⊥)
        → IsIn [] (parents (b ∷ trim_end_matches is_dot s))
        → ⊥
    go n ih j = elim (Bool-cases (b == dot)) [
      | inl y ↦ at_dot (ground arith) ih (rw y at j)
      | inr n' ↦ ih (rw n' at j)
    ]

canonical_no_empty_parent : (d : Bytes) → IsIn [] (parents (canonical d)) → ⊥
canonical_no_empty_parent d i =
    let t = trim_end_matches is_dot d in
    let (q, j, e) = map-IsIn to_lowercase [] (parents t) (rw parents-to_lowercase at i) in
    trimmed_no_empty_parent d (at_empty q j e)
  where
    at_empty :
        (q : Bytes)
        → IsIn q (parents (trim_end_matches is_dot d))
        → [] ≡ to_lowercase q
        → IsIn [] (parents (trim_end_matches is_dot d))
    at_empty [] j e = j
    at_empty (b ∷ q) j e = absurd (cc)

contains-to_set : (ds : List Bytes) (d : Bytes) → contains (to_set ds) d ≡ true → IsIn d ds
unfolding to_set
contains-to_set [] d h = cc
contains-to_set (x ∷ ds) d h =
    elim (||-eq-true (x == d) (contains (to_set ds) d)
      (sym (contains-set_insert x d (to_set ds)) ∙ h)) [
        | inl e ↦ inl (sym ((bytes_eq.same_iff x d).0 e))
        | inr i ↦ inr (contains-to_set ds d i)
      ]

kept_no_parent :
    (set rs : List Bytes) (r : Bytes)
    → (IsIn [] rs → ⊥)
    → is_kept set rs ≡ true
    → IsIn r rs
    → contains set r ≡ false
unfolding is_kept
kept_no_parent set [] r ne h i = absurd i
kept_no_parent set ([] ∷ rs) r ne h i = absurd (ne (inl refl))
kept_no_parent set ((b ∷ q) ∷ rs) r ne h (inl e) = rw e (ground arith)
kept_no_parent set ((b ∷ q) ∷ rs) r ne h (inr i) =
    kept_no_parent set rs r (λ k. ne (inr k)) (ground arith) i

-- No domain that compaction keeps lies below another one that it keeps.
pub compact_covered_domains_minimal :
    (domains : List Bytes) (d r : Bytes)
    → contains (compact_covered_domains domains).0 d ≡ true
    → IsIn r (parents d)
    → contains (compact_covered_domains domains).0 r ≡ false
unfolding compact_covered_domains
compact_covered_domains_minimal domains d r h i =
    let set = to_set (map canonical domains) in
    let (old, stays) = retain-IsIn (λ x. is_kept set (parents x)) d set (contains-IsIn _ d h) in
    let (x, _, e) =
      map-IsIn canonical d domains
        (contains-to_set (map canonical domains) d (IsIn-contains set d old)) in
    let fresh : contains set r ≡ false =
      kept_no_parent set (parents d) r (λ j. canonical_no_empty_parent x (rw e at j)) stays i in
    elim (Bool-cases (contains (retain (λ x. is_kept set (parents x)) set) r)) [
      | inl y ↦ absurd (
          cc (
            IsIn-contains set r
              (retain-IsIn (λ x. is_kept set (parents x)) r set (contains-IsIn _ r y)).0))
      | inr n ↦ n
    ]
