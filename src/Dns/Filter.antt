-- ===== src/Dns/Filter.antt =====
-- The rule sets of `DnsBlocker` and its decision `should_block`, from src/modules/dns/mod.rs. A method
-- on `&self` returns the new filter beside its result; the locks are taken whole and never poisoned.
pub mod Exact
pub mod StaleParent
use shield_ghita.Prelude.{
  ℕ, zero, suc, ◌+◌, ◌-◌, ◌*◌, ◌%◌, ◌^◌, ◌≤◌, ◌<◌, ◌≡◌, refl, sym, ap, ◌∙◌, ◌↔◌, ◌⊎◌, ◌≢◌, inl, inr,
  Bool, true, false, not, ◌&&◌, ◌||◌, Option, none, some, List, [], ◌∷◌, ◌++◌, map, arith, Bytes,
  ◌==◌, nat_eq, bytes_eq, ltb, leb, if◌then◌else◌, Bool-cases, is_empty, any, max, length, contains,
  set_insert, set_remove,
}
use shield_ghita.Text.{codes, dot, is_dot, trim, trim_end_matches, to_lowercase}
use shield_ghita.Dns.Domain.{
  Validated, ok, err, DomainError, validate_domain, match_domain_hierarchy, parents,
}
use shield_ghita.Dns.Domain.Hierarchy.{to_set}
use shield_ghita.Dns.Builtin.{builtin_ad_domains}
use shield_ghita.Dns.FastCache.{
  FastDomainCache, FastDomainCache_new, hash_domain, cache_get, cache_insert, cache_clear,
}

-- What the filter uses of an opened `DiskBlocklist`: its exact lookup and its size.
pub record Disk : Type 0 where
  pub holds : Bytes → Bool
  pub total_domains : ℕ

pub record DnsFilter : Type 0 where
  pub disk_store : Option Disk
  pub fast_cache : FastDomainCache
  pub builtin_domains : List Bytes
  pub allowed_domains : List Bytes
  pub custom_blocked : List Bytes
  pub custom_allowed : List Bytes
  pub rules_count : ℕ

-- `DnsBlocker::new`, with what opening the disk store gave.
unfoldable pub DnsFilter_new : Option Disk → DnsFilter
DnsFilter_new disk_store = record {
  disk_store = disk_store;
  fast_cache = FastDomainCache_new;
  builtin_domains = to_set builtin_ad_domains;
  allowed_domains = [];
  custom_blocked = [];
  custom_allowed = [];
  rules_count = elim disk_store [ none ↦ 0 | some disk ↦ disk.total_domains ];
}

-- `iter().filter_map(|s| validate_domain(s).ok())`
abbrev pub valid_domains : List Bytes → List Bytes
valid_domains [] = []
valid_domains (s ∷ rules) =
    let rest = valid_domains rules in elim (validate_domain s) [ ok d ↦ d ∷ rest | err e ↦ rest ]

unfoldable pub set_custom_rules : DnsFilter → List Bytes → List Bytes → DnsFilter
set_custom_rules f blocked allowed = record f {
  custom_blocked = to_set (valid_domains blocked);
  custom_allowed = to_set (valid_domains allowed);
  fast_cache = cache_clear f.fast_cache;
}

-- The result is the error, if there is one.
unfoldable pub add_custom_domain : DnsFilter → Bytes → DnsFilter × Option DomainError
add_custom_domain f domain = elim (validate_domain domain) [
  | ok d ↦ (
    record f {
      custom_blocked = set_insert d f.custom_blocked;
      fast_cache = cache_clear f.fast_cache;
    },
    none,
  )
  | err e ↦ (f, some e)
]

unfoldable pub remove_custom_domain : DnsFilter → Bytes → DnsFilter
remove_custom_domain f domain = record f {
  custom_blocked = set_remove (to_lowercase (trim domain)) f.custom_blocked;
  fast_cache = cache_clear f.fast_cache;
}

unfoldable pub add_allowed_domain : DnsFilter → Bytes → DnsFilter × Option DomainError
add_allowed_domain f domain = elim (validate_domain domain) [
  | ok d ↦ (
    record f {
      custom_allowed = set_insert d f.custom_allowed;
      fast_cache = cache_clear f.fast_cache;
    },
    none,
  )
  | err e ↦ (f, some e)
]

unfoldable pub remove_allowed_domain : DnsFilter → Bytes → DnsFilter
remove_allowed_domain f domain = record f {
  custom_allowed = set_remove (to_lowercase (trim domain)) f.custom_allowed;
  fast_cache = cache_clear f.fast_cache;
}

unfoldable pub get_rules_count : DnsFilter → ℕ
get_rules_count f = max f.rules_count (length f.builtin_domains) + length f.custom_blocked

-- The loop over the parents in `check_disk_hierarchy`: an exact lookup of each, through the cache.
unfoldable pub check_parents : Disk → FastDomainCache → List Bytes → Bool × FastDomainCache
check_parents disk cache [] = (false, cache)
check_parents disk cache (rest ∷ more) =
    let skipped = check_parents disk cache more in
    let blocked = disk.holds rest in
    let updated = cache_insert cache (hash_domain rest) blocked in
    let probed = check_parents disk updated more in
    if is_empty rest then skipped else elim (cache_get cache (hash_domain rest)) [
      | some cached ↦ if cached then (true, cache) else skipped
      | none ↦ if blocked then (true, updated) else probed
    ]

unfoldable pub check_disk_hierarchy : Option Disk → FastDomainCache → Bytes → Bool × FastDomainCache
unfolding check_parents
check_disk_hierarchy none cache domain = (false, cache)
check_disk_hierarchy (some disk) cache domain =
    if disk.holds domain then (true, cache) else check_parents disk cache (parents domain)

-- Steps 4 and 5 of `should_block`: the cache, then the disk.
unfoldable pub cached_disk_check : Option Disk → FastDomainCache → Bytes → Bool × FastDomainCache
cached_disk_check disk cache clean = elim (cache_get cache (hash_domain clean)) [
  | some res ↦ (res, cache)
  | none ↦
      let (is_blocked, walked) = check_disk_hierarchy disk cache clean in
      (is_blocked, cache_insert walked (hash_domain clean) is_blocked)
]

abbrev is_uppercase : ℕ → Bool
is_uppercase b = leb b'A' b && leb b b'Z'

-- `trim_end_matches('.')`, and lower case where the text has a capital.
unfoldable pub clean_name : Bytes → Bytes
clean_name domain =
    let trimmed = trim_end_matches is_dot domain in
    if any is_uppercase trimmed then to_lowercase trimmed else trimmed

unfoldable pub is_allowed : DnsFilter → Bytes → Bool
is_allowed f clean =
    match_domain_hierarchy clean f.custom_allowed || match_domain_hierarchy clean f.allowed_domains

unfoldable pub is_listed : DnsFilter → Bytes → Bool
is_listed f clean =
    match_domain_hierarchy clean f.custom_blocked || match_domain_hierarchy clean f.builtin_domains

unfoldable pub should_block : DnsFilter → Bytes → Bool × DnsFilter
should_block f domain =
    let clean = clean_name domain in
    if is_empty (trim_end_matches is_dot domain)
    then (false, f)
    else if is_allowed f clean
    then (false, f)
    else if is_listed f clean
    then (true, f)
    else let (blocked, cache) = cached_disk_check f.disk_store f.fast_cache clean in
      (blocked, record f { fast_cache = cache })
