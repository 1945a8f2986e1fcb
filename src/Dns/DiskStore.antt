-- ===== src/Dns/DiskStore.antt =====
-- `DiskBlocklist` of src/modules/dns/disk_store.rs: the file's layout, `open` and `contains`. A file is
-- its bytes, and a read that meets its end fails. The products of the 32-bit fields fit in 64 bits.
pub mod Search
pub mod Opening
pub mod Reads
pub mod Build
use shield_ghita.Prelude.{
  ℕ, zero, suc, ◌+◌, ◌-◌, ◌*◌, ◌/◌, ◌%◌, ◌^◌, ◌≤◌, ◌<◌, ◌≡◌, refl, sym, ap, ◌∙◌, ◌↔◌, ◌⊎◌, ◌≢◌, inl,
  inr, Bool, true, false, not, ◌&&◌, ◌||◌, Option, none, some, List, [], ◌∷◌, ◌++◌, map, arith,
  Bytes, Key, ◌==◌, nat_eq, bytes_eq, pair_eq, ltb, leb, if◌then◌else◌, Bool-cases, Option-cases,
  is_empty, any, all, max, min, length, take, drop, get_elem?, contains, set_insert, set_remove,
  retain, IsIn, any-intro, any-elim, contains-IsIn, IsIn-contains, IsIn-retain, retain-IsIn,
  contains-set_insert, contains-set_remove, nat_beq_iff, bytes_beq_iff, ==_refl, ||-eq-true,
  &&-eq-true, get, insert, remove, get-insert, get-remove, length-insert-le, length-remove-le,
  length-retain-le, length-append, length-take, length-drop, tests, take-append_length,
  drop-append_length, insert_by_rank, sort_by_rank, remove_all, length-insert_by_rank,
  insert_by_rank-IsIn, length-sort_by_rank, sort_by_rank-IsIn, length-remove-lt,
  length-remove_all-le, remove_some, remove_all-IsIn, remove_all-IsUnique, not_ltb→le, not_leb→lt,
  ltb→lt, le→leb, IsUnique, insert-IsIn, remove-IsIn, get-IsIn, IsIn-get, insert-IsUnique,
  remove-IsUnique, retain-IsUnique, map-IsIn, IsIn-map,
}
use shield_ghita.Text.{codes, to_lowercase}
use shield_ghita.Dns.FastCache.{hash_domain}

-- `u32::from_le_bytes` and its kin.
abbrev pub from_le : Bytes → ℕ
from_le [] = 0
from_le (b ∷ s) = b + from_le s * 256

-- `n.to_le_bytes()`, of this many bytes.
abbrev pub to_le : ℕ → ℕ → Bytes
to_le zero n = []
to_le (suc k) n = n % 256 ∷ to_le k (n / 256)

-- `buf.get(p..p + n)`, and a seek to `p` with a `read_exact` of `n` bytes.
abbrev pub get_range : Bytes → ℕ → ℕ → Option Bytes
get_range buf p n = if leb (p + n) (length buf) then some (take n (drop p buf)) else none

abbrev pub header_size : ℕ
header_size = 4096

abbrev pub record_size : ℕ
record_size = 14

abbrev pub bucket_count : ℕ
bucket_count = 256

abbrev pub magic : Bytes
magic = codes "SGBL"

pub data OpenError : Type 0 where
  missing too_small bad_magic bad_version truncated bad_sum below_header past_strings
        not_monotonic :
      OpenError

pub record DiskBlocklist : Type 0 where
  pub file : Bytes
  pub total_domains : ℕ
  pub buckets : List (ℕ × ℕ)
  pub strings_base_offset : ℕ

pub data Opened : Type 0 where
  failed : OpenError → Opened
  opened : DiskBlocklist → Opened

abbrev pub u32_at : Bytes → ℕ → ℕ
u32_at s p = from_le (take 4 (drop p s))

abbrev pub read_buckets : ℕ → Bytes → ℕ → List (ℕ × ℕ)
read_buckets zero header pos = []
read_buckets (suc n) header pos =
    (u32_at header pos, u32_at header (pos + 4)) ∷ read_buckets n header (pos + 8)

abbrev pub sum_counts : List (ℕ × ℕ) → ℕ
sum_counts [] = 0
sum_counts (bucket ∷ buckets) = bucket.1 + sum_counts buckets

abbrev pub bucket_end : ℕ × ℕ → ℕ
bucket_end bucket = bucket.0 + bucket.1 * record_size

abbrev pub starts_before : ℕ → Option ℕ → Bool
starts_before off none = false
starts_before off (some end) = ltb off end

unfoldable pub check_buckets : ℕ → Option ℕ → List (ℕ × ℕ) → Option OpenError
check_buckets base prev_end [] = none
check_buckets base prev_end (bucket ∷ buckets) =
    let rest = check_buckets base (some (bucket_end bucket)) buckets in
    if ltb bucket.0 header_size
    then some below_header
    else if ltb base (bucket_end bucket)
    then some past_strings
    else if starts_before bucket.0 prev_end
    then some not_monotonic
    else rest

abbrev pub finish_open : DiskBlocklist → Option OpenError → Opened
finish_open d none = opened d
finish_open d (some e) = failed e

-- The store that a header describes.
abbrev pub store_of : Bytes → DiskBlocklist
store_of file =
    let header = take header_size file in
    record {
      file = file;
      total_domains = u32_at header 8;
      buckets = read_buckets bucket_count header 16;
      strings_base_offset = header_size + u32_at header 8 * record_size;
    }

unfoldable pub open_file : Bytes → Opened
open_file file =
    let header = take header_size file in
    let d = store_of file in
    if ltb (length file) header_size
    then failed too_small
    else if not (take 4 header == magic)
    then failed bad_magic
    else if not (u32_at header 4 == 1)
    then failed bad_version
    else if ltb (length file) d.strings_base_offset
    then failed truncated
    else if not (sum_counts d.buckets == d.total_domains)
    then failed bad_sum
    else finish_open d (check_buckets d.strings_base_offset none d.buckets)

-- `DiskBlocklist::open`, of the file at the path, if there is one.
abbrev pub open_store : Option Bytes → Opened
open_store none = failed missing
open_store (some file) = open_file file

abbrev pub hash_at : Bytes → ℕ → Option ℕ
hash_at buf i = elim (get_range buf (i * record_size) 8) [ none ↦ none | some s ↦ some (from_le s) ]

pub data SearchResult : Type 0 where
  malformed absent unfinished : SearchResult
  found : ℕ → SearchResult

-- The binary search, with a number of rounds.
unfoldable pub search_hash : ℕ → Bytes → ℕ → ℕ → ℕ → SearchResult
search_hash zero buf target low high = if ltb low high then unfinished else absent
search_hash (suc rounds) buf target low high =
    let mid = low + (high - low) / 2 in
    let right = search_hash rounds buf target (mid + 1) high in
    let left = search_hash rounds buf target low mid in
    if not (ltb low high) then absent else elim (hash_at buf mid) [
      | none ↦ malformed
      | some mid_hash ↦
          if mid_hash == target then found mid else if ltb mid_hash target then right else left
    ]

-- The string of a record, compared without the case of ASCII letters.
abbrev pub same_string : DiskBlocklist → Bytes → Option Bytes → Option Bytes → Bool
same_string d domain (some str_off) (some str_len) =
    if not (from_le str_len == length domain)
    then false
    else elim (get_range d.file (d.strings_base_offset + from_le str_off) (from_le str_len)) [
      | none ↦ false
      | some s ↦ to_lowercase s == to_lowercase domain
    ]
same_string d domain _ _ = false

unfoldable pub check_match : DiskBlocklist → Bytes → Bytes → ℕ → ℕ → Bool
check_match d buf domain target i = elim (hash_at buf i) [
  | none ↦ false
  | some h ↦
      if not (h == target)
      then false
      else same_string d domain (get_range buf (i * record_size + 8) 4)
          (get_range buf (i * record_size + 12) 2)
]

-- The buffer holds whole records, so that no hash is missing in the scans.
module _ (buf : Bytes) (target : ℕ) (check : ℕ → Bool) where
  unfoldable pub scan_back : ℕ → Bool
  scan_back zero = false
  scan_back (suc i) =
      let rest = scan_back i in
      elim (hash_at buf i) [
        | none ↦ false
        | some h ↦ if not (h == target) then false else if check i then true else rest
      ]

  -- From `j` on, so many records.
  unfoldable pub scan_on : ℕ → ℕ → Bool
  scan_on zero j = false
  scan_on (suc n) j =
      let rest = scan_on n (j + 1) in
      elim (hash_at buf j) [
        | none ↦ false
        | some h ↦ if not (h == target) then false else if check j then true else rest
      ]

  abbrev pub match_near : ℕ → SearchResult → Bool
  match_near count (found i) =
      if check i then true else if scan_back i then true else scan_on (count - (i + 1)) (i + 1)
  match_near count malformed = false
  match_near count absent = false
  match_near count unfinished = false

unfoldable pub find_in_bucket : DiskBlocklist → Bytes → Bytes → ℕ → ℕ → Bool
find_in_bucket d buf domain target count =
    match_near buf target (check_match d buf domain target) count
      (search_hash count buf target 0 count)

abbrev pub or_empty : Option (ℕ × ℕ) → ℕ × ℕ
or_empty none = (0, 0)
or_empty (some bucket) = bucket

abbrev pub find_in_read : DiskBlocklist → Bytes → ℕ → Option Bytes → Bool
find_in_read d domain count none = false
find_in_read d domain count (some buf) = find_in_bucket d buf domain (hash_domain domain) count

-- At most 64 MiB are read.
abbrev pub search_bucket : DiskBlocklist → Bytes → ℕ × ℕ → Bool
search_bucket d domain (offset, count) =
    if count == 0 || ltb d.total_domains count || ltb 67108864 (count * record_size)
    then false
    else if ltb offset header_size || ltb d.strings_base_offset (bucket_end (offset, count))
    then false
    else find_in_read d domain count (get_range d.file offset (count * record_size))

unfoldable pub disk_contains : DiskBlocklist → Bytes → Bool
disk_contains d domain =
    if d.total_domains == 0 || is_empty domain
    then false
    else search_bucket d domain (or_empty (get_elem? d.buckets (hash_domain domain / 2 ^ 56)))
