-- ===== src/Dns/ListExamples.antt =====
-- Tests and examples of the block lists and their store, src/modules/dns/mod.rs and
-- src/modules/dns/disk_store.rs.
use shield_ghita.Prelude.{
  ◌&&◌, is_empty, not, any, leb, ℕ, zero, suc, ◌≤◌, ◌<◌, ◌≡◌, refl, Bool, true, false, none, some,
  List, [], ◌∷◌, ◌++◌, map, arith, Bytes, nat_eq, bytes_eq, pair_eq, length, get, ltb→lt, ◌*◌,
  get_elem?, take, drop,
}
use shield_ghita.Text.{codes}
use shield_ghita.Dns.Examples.{filter}
use shield_ghita.Dns.Domain.{match_domain_hierarchy}
use shield_ghita.Dns.Domain.Hierarchy.{canonical}
use shield_ghita.Dns.Filter.{get_rules_count}
use shield_ghita.Dns.Filter.Exact.{disk_covers}
use shield_ghita.Dns.DiskStore.{
  header_size, record_size, bucket_end, get_range, disk_contains, DiskBlocklist, to_le, check_match,
  find_in_bucket, opened, open_file,
}
use shield_ghita.Dns.DiskStore.Build.{build_file, file_of, index_fits}
use shield_ghita.Dns.FastCache.{hash_domain}
use shield_ghita.Dns.DiskStore.Build.Lookup.{same_name}
use shield_ghita.Dns.DiskStore.Build.RoundTrip.{build_file-disk_contains}
use shield_ghita.Dns.DiskStore.Search.{any_from, record_hash, IsBucket, find_in_bucket-any_from}
use shield_ghita.Dns.DiskStore.Reads.{open_file-get_range}
use shield_ghita.Dns.DiskStore.Build.Header.{built_store, items_of, open_file-file_of}
use shield_ghita.Dns.ListLine.{parse_line}
use shield_ghita.Dns.Blocklist.{
  Files, no_file, load_cache, Fetch, body, fetch_error, Blocklists, loaded, load_blocklists,
}
use shield_ghita.Dns.Blocklist.Rounds.{
  after_change, after_rest, load_blocklists_incomplete, load_blocklists_stale,
}
use shield_ghita.Dns.Blocklist.Covers.{load_blocklists-match}
use shield_ghita.Dns.Blocklist.Listed.{listed_domains}

abbrev no_address : Bytes → Bool
no_address line = false

hosts_line :
    parse_line no_address (codes "0.0.0.0 Ads.Example.com # ads") ≡ some (codes "ads.example.com")
unfolding parse_line
hosts_line = refl

adblock_line :
    parse_line no_address (codes "||Tracker.net^$third-party") ≡ some (codes "tracker.net")
unfolding parse_line
adblock_line = refl

comment_line : parse_line no_address (codes "  ! title") ≡ none
unfolding parse_line
comment_line = refl

abbrev files : Files
files = record { store = no_file; legacy = none; can_write = true; can_open = true }

abbrev lists : Blocklists
lists = record { filter = filter; etag_cache = [] }

abbrev feed_url : Bytes
feed_url = codes "https://a.example/hosts"

abbrev other_url : Bytes
other_url = codes "https://b.example/hosts"

abbrev urls : List Bytes
urls = feed_url ∷ other_url ∷ []

abbrev feed_body : Fetch
feed_body = body feed_url (codes "||tracker.net^") (some (codes "v2"))

load_blocklists_incomplete_example :
    ((load_blocklists no_address lists urls (feed_body ∷ fetch_error other_url ∷ []) files).0.filter
      ≡ load_cache filter files)
    × ((load_blocklists no_address lists urls (feed_body ∷ fetch_error other_url ∷ []) files).1
        ≡ loaded (get_rules_count (load_cache filter files)))
load_blocklists_incomplete_example =
    load_blocklists_incomplete no_address lists urls (feed_body ∷ fetch_error other_url ∷ []) files
      refl

abbrev changed : Blocklists
changed =
    after_change no_address lists feed_url other_url (codes "||tracker.net^") (codes "v2") files

load_blocklists_stale_example :
    (get changed.etag_cache feed_url ≡ some (codes "v2"))
    × (changed.filter ≡ load_cache filter files)
    × ((after_rest no_address changed feed_url other_url files).filter
        ≡ load_cache (load_cache filter files) files)
load_blocklists_stale_example =
    load_blocklists_stale no_address lists feed_url other_url (codes "||tracker.net^") (codes "v2")
      files

load_blocklists-match_example :
    disk_covers
      (load_blocklists no_address lists urls
        (feed_body ∷ body other_url [] none ∷ [])
        files).0.filter.disk_store
      (codes "a.tracker.net")
    ≡ match_domain_hierarchy
        (codes "a.tracker.net")
        (map canonical (listed_domains no_address (feed_body ∷ body other_url [] none ∷ [])))
load_blocklists-match_example =
    load_blocklists-match no_address lists urls (feed_body ∷ body other_url [] none ∷ []) files
      (codes "a.tracker.net") refl refl refl refl refl refl

-- A record of a hash, the offset of a string and its length.
abbrev disk_record : ℕ → ℕ → ℕ → Bytes
disk_record hash offset length = to_le 8 hash ++ to_le 4 offset ++ to_le 2 length

abbrev bucket : Bytes
bucket = disk_record 5 0 3 ++ disk_record 7 3 2

abbrev store : DiskBlocklist
store = record {
  file = codes "adsio";
  total_domains = 2;
  buckets = (0, 2) ∷ [];
  strings_base_offset = 0;
}

bucket_sorted : IsBucket store bucket (codes "ads") 7 2
bucket_sorted = record { whole = refl; sorted = sorted }
  where
    sorted :
        (i j : ℕ)
        → i ≤ j
        → j < 2
        → record_hash store bucket (codes "ads") 7 2 i
          ≤ record_hash store bucket (codes "ads") 7 2 j
    sorted zero zero h k = omega arith
    sorted zero (suc zero) h k = omega (arith, ltb→lt 5 7 refl)
    sorted (suc zero) (suc zero) h k = omega arith
    sorted (suc i) zero h k = absurd (omega (arith, h))
    sorted (suc (suc i)) (suc zero) h k = absurd (omega (arith, h))
    sorted i (suc (suc j)) h k = absurd (omega (arith, k))

find_in_bucket-any_from_example :
    find_in_bucket store bucket (codes "ads") 7 2
    ≡ any_from 2 0 (check_match store bucket (codes "ads") 7)
find_in_bucket-any_from_example =
    find_in_bucket-any_from store bucket (codes "ads") 7 2 bucket_sorted

abbrev domains : List Bytes
domains = codes "ads.example.com" ∷ codes "TRACKER.io" ∷ []

build_file-disk_contains_example :
    (file : Bytes) × (d : DiskBlocklist) × (build_file domains ≡ some (file, d.total_domains))
    × (open_file file ≡ opened d)
    × (disk_contains d (codes "tracker.io") ≡ (
        not (is_empty (codes "tracker.io"))
        && any (λ domain. same_name domain (codes "tracker.io")) domains))
build_file-disk_contains_example =
    build_file-disk_contains domains (codes "tracker.io") (under _ _ refl) refl (ltb→lt _ _ refl)
  where
    under : (a b : ℕ) → leb a b ≡ true → a ≤ b
    under a b h = ground (arith, h)

-- The file of one domain.
abbrev small_file : Bytes
small_file = file_of (codes "ads.io" ∷ [])

small_fits : index_fits header_size (items_of (codes "ads.io" ∷ [])) ≡ true
unfolding hash_domain
small_fits = refl

open_file-get_range_example :
    (b : ℕ × ℕ) × (c : ℕ × ℕ) × (get_elem? (built_store (codes "ads.io" ∷ [])).buckets 0 ≡ some b)
    × (get_elem? (built_store (codes "ads.io" ∷ [])).buckets 255 ≡ some c)
    × (header_size ≤ b.0)
    × (bucket_end b ≤ c.0)
    × (bucket_end c ≤ (built_store (codes "ads.io" ∷ [])).strings_base_offset)
    × (get_range small_file b.0 (b.1 * record_size)
        ≡ some (take (b.1 * record_size) (drop b.0 small_file)))
    × (get_range small_file c.0 (c.1 * record_size)
        ≡ some (take (c.1 * record_size) (drop c.0 small_file)))
open_file-get_range_example =
    open_file-get_range small_file (built_store (codes "ads.io" ∷ [])) 0 255
      (open_file-file_of (codes "ads.io" ∷ []) (ltb→lt _ _ refl) small_fits refl) (ltb→lt _ _ refl)
      (ltb→lt _ _ refl)
