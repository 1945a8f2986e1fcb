-- ===== src/Dns/Filter/Exact.antt =====
-- When the answer of `should_block` in src/modules/dns/mod.rs is what the rules say, cache included.
use shield_ghita.Prelude.{
  ◌<◌, ◌≡◌, refl, ap, ◌∙◌, ◌≢◌, inl, inr, Bool, true, false, not, ◌&&◌, ◌||◌, Option, none, some,
  List, [], ◌∷◌, arith, Bytes, ◌==◌, nat_eq, bytes_eq, pair_eq, Bool-cases, is_empty, any, length,
  contains, set_insert, IsIn, contains-set_insert, nat_beq_iff,
}
use shield_ghita.Text.{dot, is_dot, trim_end_matches}
use shield_ghita.Dns.Domain.{ok, validate_domain, match_domain_hierarchy, parents}
use shield_ghita.Dns.Domain.Parents.{length-parent-lt}
use shield_ghita.Dns.FastCache.{
  FastDomainCache, FastDomainCache_new, hash_domain, cache_get, cache_insert, cache_clear,
  hash_domain-lt, cache_get-insert, cache_get-new,
}
use shield_ghita.Dns.Filter.{
  Disk, DnsFilter, check_parents, check_disk_hierarchy, cached_disk_check, clean_name, is_allowed,
  is_listed, should_block, add_custom_domain,
}

-- A parent that the disk holds.
abbrev pub holds_parent : Disk → List Bytes → Bool
holds_parent disk = any (λ rest. not (is_empty rest) && disk.holds rest)

-- The disk list covers the name: it holds the name or one of its parents.
abbrev pub disk_covers : Option Disk → Bytes → Bool
disk_covers none name = false
disk_covers (some disk) name = disk.holds name || holds_parent disk (parents name)

-- What the rules say of a name, with no cache.
abbrev pub policy : DnsFilter → Bytes → Bool
policy f domain =
    not (is_empty (trim_end_matches is_dot domain))
    && not (is_allowed f (clean_name domain))
    && (is_listed f (clean_name domain) || disk_covers f.disk_store (clean_name domain))

-- What the cache says of a name of the list is what the disk list says.
abbrev pub IsExactFor : Option Disk → FastDomainCache → List Bytes → Type 0
IsExactFor disk cache names =
    (r : Bytes) (b : Bool)
    → IsIn r names
    → cache_get cache (hash_domain r) ≡ some b
    → b ≡ disk_covers disk r

-- No two names of the list have one hash.
abbrev pub IsCollisionFree : List Bytes → Type 0
IsCollisionFree names =
    (r q : Bytes) → IsIn r names → IsIn q names → hash_domain r ≡ hash_domain q → r ≡ q

-- An insertion changes what is cached for no name of another hash, except that it may evict it.
pub cache_get-insert_ne :
    (cache : FastDomainCache) (r q : Bytes) (b c : Bool)
    → hash_domain r ≢ hash_domain q
    → cache_get (cache_insert cache (hash_domain r) b) (hash_domain q) ≡ some c
    → cache_get cache (hash_domain q) ≡ some c
cache_get-insert_ne cache r q b c ne h = ground (
  arith,
  nat_beq_iff (hash_domain r) (hash_domain q),
  cache_get-insert cache (hash_domain r) (hash_domain q) b (hash_domain-lt r) (hash_domain-lt q),
)

check_parents_step :
    (disk : Disk) (cache : FastDomainCache) (t : Bytes)
    → IsExactFor (some disk) cache (t ∷ parents t)
    → ((cache' : FastDomainCache)
        → IsExactFor (some disk) cache' (parents t)
        → (check_parents disk cache' (parents t)).0 ≡ holds_parent disk (parents t))
    → ((r : Bytes) → IsIn r (parents t) → hash_domain t ≢ hash_domain r)
    → (check_parents disk cache (t ∷ parents t)).0 ≡ holds_parent disk (t ∷ parents t)
unfolding check_parents
check_parents_step disk cache t exact ih apart = ground (
  arith,
  exact t true (inl refl),
  exact t false (inl refl),
  ih cache (λ r b i. exact r b (inr i)),
  ih (cache_insert cache (hash_domain t) (disk.holds t))
      (λ r b i h. exact r b (inr i) (cache_get-insert_ne cache t r (disk.holds t) b (apart r i) h)),
)

ne_of_shorter : (r t : Bytes) → length r < length t → t ≢ r
ne_of_shorter r t lt e = absurd (omega (arith, ap length e))

check_parents_exact :
    (disk : Disk) (cache : FastDomainCache) (s : Bytes)
    → IsCollisionFree (parents s)
    → IsExactFor (some disk) cache (parents s)
    → (check_parents disk cache (parents s)).0 ≡ holds_parent disk (parents s)
check_parents_exact disk cache [] free exact = unfold check_parents in refl
check_parents_exact disk cache (b ∷ t) free exact = elim (Bool-cases (b == dot)) [
  | inl y ↦
      rw y (at_dot (λ cache'. check_parents_exact disk cache' t) (rw y at free) (rw y at exact))
  | inr n ↦ rw n (check_parents_exact disk cache t (rw n at free) (rw n at exact))
]
  where
    at_dot :
        ((cache' : FastDomainCache)
          → IsCollisionFree (parents t)
          → IsExactFor (some disk) cache' (parents t)
          → (check_parents disk cache' (parents t)).0 ≡ holds_parent disk (parents t))
        → IsCollisionFree (t ∷ parents t)
        → IsExactFor (some disk) cache (t ∷ parents t)
        → (check_parents disk cache (t ∷ parents t)).0 ≡ holds_parent disk (t ∷ parents t)
    at_dot ih fr ex =
        check_parents_step disk cache t ex
          (λ cache' ex'. ih cache' (λ r q i j. fr r q (inr i) (inr j)) ex')
          (λ r i e. ne_of_shorter r t (length-parent-lt r t i) (fr t r (inl refl) (inr i) e))

pub cached_disk_check_exact :
    (disk : Option Disk) (cache : FastDomainCache) (name : Bytes)
    → IsCollisionFree (parents name)
    → IsExactFor disk cache (name ∷ parents name)
    → (cached_disk_check disk cache name).0 ≡ disk_covers disk name
unfolding cached_disk_check check_disk_hierarchy
cached_disk_check_exact none cache name free exact =
    ground (arith, exact name true (inl refl), exact name false (inl refl))
cached_disk_check_exact (some disk) cache name free exact = ground (
  arith,
  exact name true (inl refl),
  exact name false (inl refl),
  check_parents_exact disk cache name free (λ r b i. exact r b (inr i)),
)

-- Where no two parents of the name share a hash, and what the cache holds of the name and its
-- parents is what the disk list says of them, the decision is the one of the rules: not allowed, and
-- listed or covered by the disk list.
pub should_block-policy :
    (f : DnsFilter) (domain : Bytes)
    → IsCollisionFree (parents (clean_name domain))
    → IsExactFor f.disk_store f.fast_cache (clean_name domain ∷ parents (clean_name domain))
    → (should_block f domain).0 ≡ policy f domain
unfolding should_block
should_block-policy f domain free exact =
    ground (arith, cached_disk_check_exact f.disk_store f.fast_cache (clean_name domain) free exact)

any-or : (p q : Bytes → Bool) (xs : List Bytes) → any (λ x. p x || q x) xs ≡ (any p xs || any q xs)
any-or p q [] = refl
any-or p q (x ∷ xs) = ground (arith, any-or p q xs)

any-ext : (p q : Bytes → Bool) (xs : List Bytes) → ((x : Bytes) → p x ≡ q x) → any p xs ≡ any q xs
any-ext p q [] h = refl
any-ext p q (x ∷ xs) h = ground (arith, h x, any-ext p q xs h)

match-set_insert :
    (name d : Bytes) (set : List Bytes)
    → match_domain_hierarchy name (set_insert d set)
      ≡ (match_domain_hierarchy name (d ∷ []) || match_domain_hierarchy name set)
unfolding match_domain_hierarchy
match-set_insert name d set = ground (
  arith,
  contains-set_insert d name set,
  any-ext (λ r. not (is_empty r) && contains (set_insert d set) r)
      (λ r. not (is_empty r) && contains (d ∷ []) r || not (is_empty r) && contains set r)
      (parents name) (λ r. ground (arith, contains-set_insert d r set)),
  any-or (λ r. not (is_empty r) && contains (d ∷ []) r) (λ r. not (is_empty r) && contains set r)
      (parents name),
)

pub IsExactFor-new :
    (disk : Option Disk) (names : List Bytes) → IsExactFor disk FastDomainCache_new names
IsExactFor-new disk names r b i h = cc (cache_get-new (hash_domain r))

abbrev with_rule : DnsFilter → Bytes → DnsFilter
with_rule f d = record f {
  custom_blocked = set_insert d f.custom_blocked;
  fast_cache = FastDomainCache_new;
}

add_custom_domain-accepted :
    (f : DnsFilter) (rule d : Bytes)
    → validate_domain rule ≡ ok d
    → (add_custom_domain f rule).0 ≡ with_rule f d
unfolding add_custom_domain cache_clear
add_custom_domain-accepted f rule d valid = rw (valid, add_custom_domain)

policy-with_rule :
    (f : DnsFilter) (d name : Bytes)
    → policy (with_rule f d) name ≡ (
        not (is_empty (trim_end_matches is_dot name))
        && not (is_allowed f (clean_name name))
        && (match_domain_hierarchy (clean_name name) (d ∷ [])
            || is_listed f (clean_name name)
            || disk_covers f.disk_store (clean_name name)))
unfolding is_allowed is_listed
policy-with_rule f d name = ground (arith, match-set_insert (clean_name name) d f.custom_blocked)

-- After a custom rule is accepted, the next decision on any name takes it into account, for the name
-- of the rule and all names below it, whatever the cache held before. No two parents of the name may
-- share a hash.
pub add_custom_domain-should_block :
    (f : DnsFilter) (rule d name : Bytes)
    → validate_domain rule ≡ ok d
    → IsCollisionFree (parents (clean_name name))
    → (should_block (add_custom_domain f rule).0 name).0 ≡ (
        not (is_empty (trim_end_matches is_dot name))
        && not (is_allowed f (clean_name name))
        && (match_domain_hierarchy (clean_name name) (d ∷ [])
            || is_listed f (clean_name name)
            || disk_covers f.disk_store (clean_name name)))
add_custom_domain-should_block f rule d name valid free =
    rw (add_custom_domain-accepted f rule d valid) (
      should_block-policy (with_rule f d) name free
        (IsExactFor-new f.disk_store (clean_name name ∷ parents (clean_name name)))
      ∙ policy-with_rule f d name)
