-- ===== src/Dns/Blocklist.antt =====
-- The block lists of src/modules/dns/mod.rs: `parse_line`, `load_cache` and `load_blocklists`. What the
-- sources answer, in the order in which the tasks end, and what the files hold are arguments.
pub mod Rounds
pub mod Listed
pub mod Covers
use shield_ghita.Prelude.{
  ℕ, zero, suc, ◌+◌, ◌-◌, ◌*◌, ◌/◌, ◌%◌, ◌^◌, ◌≤◌, ◌<◌, ◌≡◌, refl, sym, ap, ◌∙◌, ◌↔◌, ◌⊎◌, ◌≢◌, inl,
  inr, Bool, true, false, not, ◌&&◌, ◌||◌, Option, none, some, List, [], ◌∷◌, ◌++◌, map, arith,
  Bytes, Key, ◌==◌, nat_eq, bytes_eq, pair_eq, ltb, leb, if◌then◌else◌, Bool-cases, Option-cases,
  is_empty, any, all, max, min, length, take, drop, get_elem?, contains, set_insert, set_remove,
  retain, IsIn, any-intro, any-elim, contains-IsIn, IsIn-contains, IsIn-retain, retain-IsIn,
  contains-set_insert, contains-set_remove, nat_beq_iff, bytes_beq_iff, ==_refl, ||-eq-true,
  &&-eq-true, get, insert, remove, get-insert, get-remove, length-insert-le, length-remove-le,
  length-retain-le, length-append, length-take, length-drop, tests, take-append_length,
  drop-append_length, insert_by_rank, sort_by_rank, remove_all, length-insert_by_rank,
  insert_by_rank-IsIn, length-sort_by_rank, sort_by_rank-IsIn, length-remove-lt,
  length-remove_all-le, remove_some, remove_all-IsIn, remove_all-IsUnique, not_ltb→le, not_leb→lt,
  ltb→lt, le→leb, IsUnique, insert-IsIn, remove-IsIn, get-IsIn, IsIn-get, insert-IsUnique,
  remove-IsUnique, retain-IsUnique, map-IsIn, IsIn-map,
}
use shield_ghita.Text.{
  codes, is_dot, is_space, dot, lower_byte, to_lowercase, trim, trim_end_matches,
  trim_start_matches, split, starts_with, ends_with, contains_byte,
}
use shield_ghita.Dns.ListLine.{parse_line}
use shield_ghita.Dns.FastCache.{FastDomainCache_new}
use shield_ghita.Dns.Builtin.{builtin_ad_domains}
use shield_ghita.Dns.Domain.{is_safe_blocklist_domain}
use shield_ghita.Dns.Domain.Hierarchy.{compact_covered_domains}
use shield_ghita.Dns.Filter.{Disk, DnsFilter, get_rules_count}

-- What `load_cache` finds at the path of the store.
pub data StoreFile : Type 0 where
  no_file unreadable : StoreFile
  stored : Disk → StoreFile

-- The files: the store, the legacy cache, and whether a store that is built can be written and opened.
pub record Files : Type 0 where
  pub store : StoreFile
  pub legacy : Option Bytes
  pub can_write : Bool
  pub can_open : Bool

-- The store that is built from a list, as it answers: without the case of letters.
abbrev pub disk_of : List Bytes → ℕ → Disk
disk_of domains count = record {
  holds = λ d. not (is_empty d) && any (λ x. to_lowercase x == to_lowercase d) domains;
  total_domains = count;
}

abbrev pub distinct_domains : List Bytes → List Bytes
distinct_domains [] = []
distinct_domains (d ∷ domains) = set_insert d (distinct_domains domains)

abbrev pub use_disk : DnsFilter → Disk → ℕ → DnsFilter
use_disk f disk count = record f {
  disk_store = some disk;
  fast_cache = FastDomainCache_new;
  rules_count = count;
}

abbrev pub legacy_domains : Bytes → List Bytes
legacy_domains content =
    retain (λ l. not (is_empty l)) (map (λ l. to_lowercase (trim l)) (split 10 content))
    ++ builtin_ad_domains

abbrev pub migrate : DnsFilter → Files → Option Bytes → DnsFilter
migrate f files none = f
migrate f files (some content) =
    let domains = distinct_domains (legacy_domains content) in
    if files.can_write && files.can_open
    then use_disk f (disk_of domains (length domains)) (length domains)
    else f

unfoldable pub load_cache : DnsFilter → Files → DnsFilter
load_cache f files = elim files.store [
  | stored disk ↦ use_disk f disk disk.total_domains
  | unreadable ↦ f
  | no_file ↦ migrate f files files.legacy
]

-- How the task of a source ends: HTTP 304, a body with its ETag, an error text, or a panic of the task.
pub data Fetch : Type 0 where
  not_modified : Bytes → Fetch
  body : Bytes → Bytes → Option Bytes → Fetch
  fetch_error : Bytes → Fetch
  crashed : Fetch

pub record Round : Type 0 where
  pub domains : List Bytes
  pub unchanged : ℕ
  pub fetched : ℕ
  pub failures : ℕ
  pub failed_urls : List Bytes
  pub new_etags : List (Bytes × Bytes)

abbrev pub set_etag : Bytes → Option Bytes → List (Bytes × Bytes) → List (Bytes × Bytes)
set_etag url none etags = remove url etags
set_etag url (some tag) etags = insert url tag etags

-- The first URL that the error text starts with.
abbrev pub failed_url : List Bytes → Bytes → List Bytes
failed_url [] e = []
failed_url (u ∷ urls) e = if starts_with u e then u ∷ [] else failed_url urls e

pub data LoadResult : Type 0 where
  loaded : ℕ → LoadResult
  build_error : LoadResult

pub record Blocklists : Type 0 where
  pub filter : DnsFilter
  pub etag_cache : List (Bytes × Bytes)

-- Whether a text is an IP address is a parameter.
module _ (is_ip : Bytes → Bool) where
  abbrev pub safe_domain : Option Bytes → List Bytes → List Bytes
  safe_domain none domains = domains
  safe_domain (some d) domains =
      if is_safe_blocklist_domain d then set_insert d domains else domains

  unfoldable pub add_lines : List Bytes → List Bytes → List Bytes
  add_lines [] domains = domains
  add_lines (line ∷ lines) domains = add_lines lines (safe_domain (parse_line is_ip line) domains)

  unfoldable pub take_result : List Bytes → Round → Fetch → Round
  take_result urls r (not_modified url) = record r { unchanged = r.unchanged + 1 }
  take_result urls r (body url text etag) = record r {
    fetched = r.fetched + 1;
    new_etags = set_etag url etag r.new_etags;
    domains = add_lines (split 10 text) r.domains;
  }
  take_result urls r (fetch_error e) = record r {
    failures = r.failures + 1;
    failed_urls = r.failed_urls ++ failed_url urls e;
  }
  take_result urls r crashed = record r { failures = r.failures + 1 }

  abbrev pub take_results : List Bytes → Round → List Fetch → Round
  take_results urls r [] = r
  take_results urls r (fetch ∷ fetches) = take_results urls (take_result urls r fetch) fetches

abbrev pub start_round : List (Bytes × Bytes) → Round
start_round etags = record {
  domains = distinct_domains builtin_ad_domains;
  unchanged = 0;
  fetched = 0;
  failures = 0;
  failed_urls = [];
  new_etags = etags;
}

-- When every source answered, the tags of the sources that are still listed are kept.
abbrev pub keep_etags : List Bytes → Round → Blocklists → Round × Blocklists
keep_etags urls r b =
    let kept = retain (λ entry. contains urls entry.0) r.new_etags in
    if r.unchanged + r.fetched == length urls
    then (record r { new_etags = kept }, record b { etag_cache = kept })
    else (r, b)

abbrev pub without_urls : List Bytes → List (Bytes × Bytes) → List (Bytes × Bytes)
without_urls [] etags = etags
without_urls (url ∷ urls) etags = without_urls urls (remove url etags)

abbrev pub rebuild : List Bytes → Files → Blocklists → Blocklists × LoadResult
rebuild domains files b =
    let compacted = (compact_covered_domains domains).0 in
    if not files.can_write
    then (b, build_error)
    else if files.can_open
    then (
      record b {
        filter = use_disk b.filter (disk_of compacted (length compacted)) (length compacted);
      },
      loaded (length compacted),
    )
    else (b, loaded (length compacted))

unfoldable pub finish_round : List Bytes → Round → Files → Blocklists → Blocklists × LoadResult
finish_round urls r files b =
    let count = get_rules_count b.filter in
    let cleared = without_urls r.failed_urls r.new_etags in
    if ltb 0 r.unchanged && r.fetched == 0 && r.unchanged == length urls && ltb 0 count
    then (b, loaded count)
    else if ltb 0 r.unchanged || ltb 0 r.failures
    then (if ltb 0 r.fetched then record b { etag_cache = cleared } else b, loaded count)
    else if ltb 0 (length r.domains) && ltb 0 r.fetched
    then rebuild r.domains files b
    else (b, loaded (length r.domains))

unfoldable pub load_blocklists :
    (Bytes → Bool) → Blocklists → List Bytes → List Fetch → Files → Blocklists × LoadResult
load_blocklists is_ip b urls fetches files =
    let cached = record b { filter = load_cache b.filter files } in
    let r = take_results is_ip urls (start_round b.etag_cache) fetches in
    let (kept, after) = keep_etags urls r cached in finish_round urls kept files after
