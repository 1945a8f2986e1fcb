-- ===== src/Dns/DiskStore/Build.antt =====
-- `DiskBlocklist::build` of src/modules/dns/disk_store.rs: the file that it leaves at the path, if no
-- check fails. Writing and renaming are taken to succeed, and an error is `none` whichever check finds it.
pub mod Layout
pub mod Sorting
pub mod Buckets
pub mod Strings
pub mod Header
pub mod Lookup
pub mod Room
pub mod RoundTrip
use shield_ghita.Prelude.{
  ℕ, zero, suc, ◌+◌, ◌-◌, ◌*◌, ◌/◌, ◌%◌, ◌^◌, ◌≤◌, ◌<◌, ◌≡◌, refl, sym, ap, ◌∙◌, ◌↔◌, ◌⊎◌, ◌≢◌, inl,
  inr, Bool, true, false, not, ◌&&◌, ◌||◌, Option, none, some, List, [], ◌∷◌, ◌++◌, map, arith,
  Bytes, Key, ◌==◌, nat_eq, bytes_eq, pair_eq, ltb, leb, if◌then◌else◌, Bool-cases, Option-cases,
  is_empty, any, all, max, min, length, take, drop, get_elem?, contains, set_insert, set_remove,
  retain, IsIn, any-intro, any-elim, contains-IsIn, IsIn-contains, IsIn-retain, retain-IsIn,
  contains-set_insert, contains-set_remove, nat_beq_iff, bytes_beq_iff, ==_refl, ||-eq-true,
  &&-eq-true, get, insert, remove, get-insert, get-remove, length-insert-le, length-remove-le,
  length-retain-le, length-append, length-take, length-drop, tests, take-append_length,
  drop-append_length, insert_by_rank, sort_by_rank, remove_all, length-insert_by_rank,
  insert_by_rank-IsIn, length-sort_by_rank, sort_by_rank-IsIn, length-remove-lt,
  length-remove_all-le, remove_some, remove_all-IsIn, remove_all-IsUnique, not_ltb→le, not_leb→lt,
  ltb→lt, le→leb, IsUnique, insert-IsIn, remove-IsIn, get-IsIn, IsIn-get, insert-IsUnique,
  remove-IsUnique, retain-IsUnique, map-IsIn, IsIn-map,
}
use shield_ghita.Dns.FastCache.{hash_domain}
use shield_ghita.Dns.DiskStore.{to_le, header_size, record_size, bucket_count, magic}

module _ {A : Type 0} where
  -- A stable sort by a test that says what may come first.
  abbrev pub insert_by : (A → A → Bool) → A → List A → List A
  insert_by first x [] = x ∷ []
  insert_by first x (y ∷ ys) = if first x y then x ∷ y ∷ ys else y ∷ insert_by first x ys

  abbrev pub sort_by : (A → A → Bool) → List A → List A
  sort_by first [] = []
  sort_by first (x ∷ xs) = insert_by first x (sort_by first xs)

  abbrev pub concat_map : (A → Bytes) → List A → Bytes
  concat_map f [] = []
  concat_map f (x ∷ xs) = f x ++ concat_map f xs

-- `a <= b`, of strings.
abbrev pub text_le : Bytes → Bytes → Bool
text_le [] b = true
text_le (x ∷ a) [] = false
text_le (x ∷ a) (y ∷ b) = let rest = text_le a b in if x == y then rest else ltb x y

-- `Vec::dedup`
abbrev pub dedup : List Bytes → List Bytes
dedup [] = []
dedup (x ∷ []) = x ∷ []
dedup (x ∷ y ∷ ys) = let rest = dedup (y ∷ ys) in if x == y then rest else x ∷ rest

abbrev pub hash_le : Bytes → Bytes → Bool
hash_le a b =
    if hash_domain a == hash_domain b then text_le a b else ltb (hash_domain a) (hash_domain b)

unfoldable pub prepare : List Bytes → List Bytes
prepare domains = sort_by hash_le (dedup (sort_by text_le domains))

-- What the index says of a domain.
pub record Placed : Type 0 where
  pub hash : ℕ
  pub offset : ℕ
  pub size : ℕ

-- The strings stand one after another.
abbrev pub place : ℕ → List Bytes → List Placed
place off [] = []
place off (d ∷ ds) =
    record { hash = hash_domain d; offset = off; size = length d } ∷ place (off + length d) ds

abbrev pub strings_fit : ℕ → List Bytes → Bool
strings_fit off [] = true
strings_fit off (d ∷ ds) =
    ltb off (2 ^ 32) && ltb (length d) (2 ^ 16) && strings_fit (off + length d) ds

abbrev pub bucket_of : Placed → ℕ
bucket_of p = p.hash / 2 ^ 56

-- The items of so many buckets, from this one on.
abbrev pub bucket_items : ℕ → ℕ → List Placed → List (List Placed)
bucket_items zero b placed = []
bucket_items (suc n) b placed =
    retain (λ p. bucket_of p == b) placed ∷ bucket_items n (b + 1) placed

abbrev pub lay_buckets : ℕ → List (List Placed) → List (ℕ × ℕ)
lay_buckets off [] = []
lay_buckets off (items ∷ buckets) =
    (off, length items) ∷ lay_buckets (off + length items * record_size) buckets

abbrev pub index_fits : ℕ → List (List Placed) → Bool
index_fits off [] = true
index_fits off (items ∷ buckets) =
    ltb (length items) (2 ^ 32)
    && ltb (length items * record_size) (2 ^ 32)
    && ltb (off + length items * record_size) (2 ^ 32)
    && index_fits (off + length items * record_size) buckets

abbrev pub record_bytes : Placed → Bytes
record_bytes p = to_le 8 p.hash ++ (to_le 4 p.offset ++ to_le 2 p.size)

abbrev pub bucket_bytes : ℕ × ℕ → Bytes
bucket_bytes bucket = to_le 4 bucket.0 ++ to_le 4 bucket.1

abbrev pub padding : ℕ → Bytes
padding zero = []
padding (suc n) = 0 ∷ padding n

unfoldable pub header_of : ℕ → List (ℕ × ℕ) → Bytes
header_of total buckets =
    magic
    ++ (to_le 4 1
        ++ (to_le 4 total
            ++ (to_le 4 bucket_count ++ (concat_map bucket_bytes buckets ++ padding 2032))))

unfoldable pub file_of : List Bytes → Bytes
file_of domains =
    let placed = place 0 domains in
    let items = bucket_items bucket_count 0 placed in
    header_of (length domains) (lay_buckets header_size items)
    ++ (concat_map (concat_map record_bytes) items ++ concat_map (λ d. d) domains)

-- The file and the number of its domains.
unfoldable pub build_file : List Bytes → Option (Bytes × ℕ)
build_file domains =
    let prepared = prepare domains in
    if ltb (length prepared) (2 ^ 32)
      && index_fits header_size (bucket_items bucket_count 0 (place 0 prepared))
      && strings_fit 0 prepared
    then some (file_of prepared, length prepared)
    else none
