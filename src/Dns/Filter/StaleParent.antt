-- ===== src/Dns/Filter/StaleParent.antt =====
-- A stale cache entry of `should_block` in src/modules/dns/mod.rs: the walk over the parents stores exact
-- lookups under the key under which `should_block` looks for the decision on a whole name.
use shield_ghita.Prelude.{
  ◌≡◌, refl, ap, ◌∙◌, inl, inr, Bool, true, false, not, some, List, [], ◌∷◌, ◌++◌, arith, Bytes,
  ◌==◌, nat_eq, bytes_eq, pair_eq, Bool-cases, is_empty, all,
}
use shield_ghita.Text.{dot, is_dot, trim_end_matches, contains_byte}
use shield_ghita.Dns.Domain.{parents}
use shield_ghita.Dns.FastCache.{
  FastDomainCache, FastDomainCache_new, hash_domain, slot, cache_get, cache_insert, hash_domain-lt,
  cache_get-insert, cache_get-new,
}
use shield_ghita.Dns.Filter.{
  Disk, DnsFilter, check_parents, check_disk_hierarchy, cached_disk_check, clean_name, is_allowed,
  is_listed, should_block,
}
use shield_ghita.Dns.Filter.Exact.{
  holds_parent, policy, IsCollisionFree, IsExactFor-new, should_block-policy,
}

-- No name of the list shares the cache slot of `name`.
abbrev pub apart_from : Bytes → List Bytes → Bool
apart_from name = all (λ r. not (slot (hash_domain r) == slot (hash_domain name)))

cache_get-insert_apart :
    (cache : FastDomainCache) (r name : Bytes) (b : Bool)
    → (slot (hash_domain r) == slot (hash_domain name)) ≡ false
    → cache_get (cache_insert cache (hash_domain r) b) (hash_domain name)
      ≡ cache_get cache (hash_domain name)
cache_get-insert_apart cache r name b h = ground (
  arith,
  ap slot,
  cache_get-insert cache (hash_domain r) (hash_domain name) b (hash_domain-lt r)
      (hash_domain-lt name),
)

check_parents_apart :
    (disk : Disk) (cache : FastDomainCache) (rs : List Bytes) (name : Bytes)
    → apart_from name rs ≡ true
    → cache_get (check_parents disk cache rs).1 (hash_domain name)
      ≡ cache_get cache (hash_domain name)
unfolding check_parents
check_parents_apart disk cache [] name h = refl
check_parents_apart disk cache (r ∷ rs) name h = ground (
  arith,
  cache_get-insert_apart cache r name (disk.holds r),
  check_parents_apart disk cache rs name,
  check_parents_apart disk (cache_insert cache (hash_domain r) (disk.holds r)) rs name,
)

parents-label :
    (label m : Bytes)
    → contains_byte dot label ≡ false
    → parents (label ++ (dot ∷ m)) ≡ m ∷ parents m
parents-label [] m h = refl
parents-label (b ∷ label) m h = elim (Bool-cases (b == dot)) [
  | inl y ↦ absurd (ground arith)
  | inr n ↦ rw n (parents-label label m (ground arith))
]

-- The filter just after the cache was cleared, over the given disk list.
abbrev pub cleared : DnsFilter → Disk → DnsFilter
cleared f disk = record f { disk_store = some disk; fast_cache = FastDomainCache_new }

-- The rule sets say nothing of the name, which is in normal form.
pub record IsUnlisted (f : DnsFilter) (name : Bytes) : Type 0 where
  pub clean : clean_name name ≡ name
  pub nonempty : is_empty (trim_end_matches is_dot name) ≡ false
  pub not_allowed : is_allowed f name ≡ false
  pub not_listed : is_listed f name ≡ false

module _ (disk : Disk) (d m : Bytes) (direct : parents d ≡ m ∷ parents m)
    (nonempty : is_empty m ≡ false) (not_held : disk.holds d ≡ false)
    (parent_not_held : disk.holds m ≡ false) (apart : apart_from m (d ∷ parents m) ≡ true) where
  -- The walk from the second parent on, with the exact result for the first one in the cache.
  abbrev rest_of_walk : Bool × FastDomainCache
  rest_of_walk =
      check_parents disk (cache_insert FastDomainCache_new (hash_domain m) false) (parents m)

  first_parent : check_parents disk FastDomainCache_new (m ∷ parents m) ≡ rest_of_walk
  unfolding check_parents
  first_parent = rw (nonempty, cache_get-new (hash_domain m), parent_not_held) refl

  whole_walk : check_disk_hierarchy (some disk) FastDomainCache_new d ≡ rest_of_walk
  unfolding check_disk_hierarchy
  whole_walk = rw (not_held) (ap (check_parents disk FastDomainCache_new) direct ∙ first_parent)

  after_check :
      cached_disk_check (some disk) FastDomainCache_new d
      ≡ (rest_of_walk.0, cache_insert rest_of_walk.1 (hash_domain d) rest_of_walk.0)
  unfolding cached_disk_check
  after_check = ground (arith, whole_walk, cache_get-new (hash_domain d))

  pub stale_entry :
      cache_get (cached_disk_check (some disk) FastDomainCache_new d).1 (hash_domain m) ≡ some false
  stale_entry = rw after_check (
      cache_get-insert_apart rest_of_walk.1 d m rest_of_walk.0 (ground arith)
      ∙ check_parents_apart disk (cache_insert FastDomainCache_new (hash_domain m) false)
          (parents m) m (ground arith)
      ∙ ground (
        arith,
        cache_get-insert FastDomainCache_new (hash_domain m) (hash_domain m) false
            (hash_domain-lt m) (hash_domain-lt m),
      ))

holds_parent_of :
    (disk : Disk) (d m : Bytes)
    → parents d ≡ m ∷ parents m
    → holds_parent disk (parents m) ≡ true
    → holds_parent disk (parents d) ≡ true
holds_parent_of disk d m e h = rw e (ground arith)

-- For a name in normal form that no rule set mentions, the decision is the disk list's.
unlisted_policy :
    (f : DnsFilter) (disk : Disk) (name : Bytes)
    → IsUnlisted (cleared f disk) name
    → holds_parent disk (parents name) ≡ true
    → policy (cleared f disk) name ≡ true
unlisted_policy f disk name u h =
    rw (u.clean, u.nonempty, u.not_allowed, u.not_listed) (ground arith)

unlisted_cached :
    (f : DnsFilter) (cache : FastDomainCache) (name : Bytes) (b : Bool)
    → IsUnlisted f name
    → cache_get cache (hash_domain name) ≡ some b
    → (should_block (record f { fast_cache = cache }) name).0 ≡ b
unfolding should_block is_allowed is_listed cached_disk_check
unlisted_cached f cache name b u h =
    ground (arith, u.clean, u.nonempty, u.not_allowed, u.not_listed)

unlisted_step :
    (f : DnsFilter) (name : Bytes)
    → IsUnlisted f name
    → (should_block f name).1
      ≡ record f { fast_cache = (cached_disk_check f.disk_store f.fast_cache name).1 }
unfolding should_block is_allowed is_listed
unlisted_step f name u = simp (u.clean, u.nonempty, u.not_allowed, u.not_listed)

cleared_blocks :
    (f : DnsFilter) (disk : Disk) (name : Bytes)
    → IsUnlisted (cleared f disk) name
    → holds_parent disk (parents name) ≡ true
    → IsCollisionFree (parents name)
    → (should_block (cleared f disk) name).0 ≡ true
cleared_blocks f disk name u h free =
    should_block-policy (cleared f disk) name (rw u.clean free)
      (IsExactFor-new (some disk) (clean_name name ∷ parents (clean_name name)))
    ∙ unlisted_policy f disk name u h

-- A name `m` that the disk list covers only through one of its parents is blocked, and so is a name
-- `d` of one more label. But once `d` was asked for, `m` is let through: the walk for `d` stored for
-- `m` that the disk does not hold `m` itself, and the next question for `m` takes this for the
-- decision. (The cache was cleared before; no rule set mentions the two names; the names of the walk
-- have different hashes, and none but `m` falls into its cache slot.)
pub should_block_stale_parent :
    (f : DnsFilter) (disk : Disk) (label m : Bytes)
    → contains_byte dot label ≡ false
    → is_empty m ≡ false
    → IsUnlisted (cleared f disk) (label ++ (dot ∷ m))
    → IsUnlisted (cleared f disk) m
    → disk.holds (label ++ (dot ∷ m)) ≡ false
    → disk.holds m ≡ false
    → holds_parent disk (parents m) ≡ true
    → IsCollisionFree (parents (label ++ (dot ∷ m)))
    → apart_from m ((label ++ (dot ∷ m)) ∷ parents m) ≡ true
    → ((should_block (cleared f disk) m).0 ≡ true)
      × ((should_block (cleared f disk) (label ++ (dot ∷ m))).0 ≡ true)
      × ((should_block (should_block (cleared f disk) (label ++ (dot ∷ m))).1 m).0 ≡ false)
should_block_stale_parent f disk label m one_label ne ud um nd nm covered free apart = (
  cleared_blocks f disk m um covered (λ r q i j. free r q (rw direct (inr i)) (rw direct (inr j))),
  cleared_blocks f disk (label ++ (dot ∷ m)) ud
      (holds_parent_of disk (label ++ (dot ∷ m)) m direct covered) free,
  rw (unlisted_step (cleared f disk) (label ++ (dot ∷ m)) ud) (
      unlisted_cached (cleared f disk)
        (cached_disk_check (some disk) FastDomainCache_new (label ++ (dot ∷ m))).1 m false um
        (stale_entry disk (label ++ (dot ∷ m)) m direct ne nd nm apart)),
)
  where
    direct : parents (label ++ (dot ∷ m)) ≡ m ∷ parents m
    direct = parents-label label m one_label
