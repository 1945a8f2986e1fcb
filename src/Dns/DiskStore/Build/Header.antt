-- ===== src/Dns/DiskStore/Build/Header.antt =====
-- The header that a build of src/modules/dns/disk_store.rs writes, as `open` reads it.
use shield_ghita.Prelude.{
  ℕ, zero, suc, ◌+◌, ◌*◌, ◌^◌, ◌≤◌, ◌<◌, ◌≡◌, refl, sym, ap, ◌∙◌, true, List, ◌++◌, arith, Bytes,
  nat_eq, bytes_eq, pair_eq, length, take, length-append, take-append_length, ltb→lt,
}
use shield_ghita.Dns.DiskStore.{
  to_le, header_size, record_size, bucket_count, magic, DiskBlocklist, opened, u32_at, read_buckets,
  store_of, open_file,
}
use shield_ghita.Dns.DiskStore.Opening.{IsStore, open_file-IsStore}
use shield_ghita.Dns.DiskStore.Build.{
  concat_map, Placed, place, strings_fit, bucket_of, bucket_items, lay_buckets, index_fits,
  record_bytes, bucket_bytes, padding, header_of, file_of,
}
use shield_ghita.Dns.DiskStore.Build.Layout.{
  from_le-to_le_4, length-concat_map, AreSmall, read_buckets-concat_map,
}
use shield_ghita.Dns.DiskStore.Build.Buckets.{
  total_items, length-bucket_items, length-lay_buckets, total_items_all, sum_counts-lay_buckets,
  length-sections, lay_buckets-AreLaid, lay_buckets-AreSmall,
}
use shield_ghita.Dns.DiskStore.Build.Strings.{HasRoom, place-HasRoom, length-place}

length-padding : (n : ℕ) → length (padding n) ≡ n
length-padding zero = refl
length-padding (suc n) = ap (λ i. suc i) (length-padding n)

module _ (total : ℕ) (buckets : List (ℕ × ℕ)) where
  length-header_of : length buckets ≡ bucket_count → length (header_of total buckets) ≡ header_size
  unfolding header_of
  length-header_of whole = omega (
    arith,
    length-append (concat_map bucket_bytes buckets) (padding 2032),
    length-padding 2032,
    length-concat_map bucket_bytes 8 (λ b. refl) buckets,
    whole,
  )

  header_of-magic : take 4 (header_of total buckets) ≡ magic
  unfolding header_of
  header_of-magic = refl

  header_of_version : u32_at (header_of total buckets) 4 ≡ 1
  unfolding header_of
  header_of_version = refl

  header_of_total : total < 2 ^ 32 → u32_at (header_of total buckets) 8 ≡ total
  unfolding header_of
  header_of_total small = from_le-to_le_4 total small

  header_of_buckets :
      length buckets ≡ bucket_count
      → AreSmall buckets
      → read_buckets bucket_count (header_of total buckets) 16 ≡ buckets
  unfolding header_of
  header_of_buckets whole small =
      ap (λ n. read_buckets n (header_of total buckets) 16) (sym whole)
      ∙ read_buckets-concat_map buckets
          (magic ++ (to_le 4 1 ++ (to_le 4 total ++ to_le 4 bucket_count))) (padding 2032) small

holds_header :
    (file header behind : ℕ) → file ≡ header + behind → header ≡ header_size → header_size ≤ file
holds_header file header behind e h = omega (arith, e, h)

holds_index :
    (file header behind records strings total n : ℕ)
    → file ≡ header + behind
    → header ≡ header_size
    → behind ≡ records + strings
    → records ≡ total * record_size
    → total ≡ n
    → header_size + n * record_size ≤ file
holds_index file header behind records strings total n e h b r t = omega (arith, e, h, b, r, t)

ends_at :
    (total n : ℕ) → total ≡ n → header_size + total * record_size ≤ header_size + n * record_size
ends_at total n t = omega (arith, t)

starts_there : header_size ≤ header_size
starts_there = omega arith

starts_after : 0 ≤ header_size
starts_after = omega arith

module _ (ds : List Bytes) where
  abbrev pub items_of : List (List Placed)
  items_of = bucket_items bucket_count 0 (place 0 ds)

  abbrev pub table_of : List (ℕ × ℕ)
  table_of = lay_buckets header_size items_of

  abbrev pub base_of : ℕ
  base_of = header_size + length ds * record_size

  abbrev pub behind_header : Bytes
  behind_header = concat_map (concat_map record_bytes) items_of ++ concat_map (λ d. d) ds

  -- The store of a file that is built.
  abbrev pub built_store : DiskBlocklist
  built_store = record {
    file = file_of ds;
    total_domains = length ds;
    buckets = table_of;
    strings_base_offset = base_of;
  }

  pub length-table_of : length table_of ≡ bucket_count
  length-table_of =
      length-lay_buckets header_size items_of ∙ length-bucket_items bucket_count 0 (place 0 ds)

  pub length-header : length (header_of (length ds) table_of) ≡ header_size
  length-header = length-header_of (length ds) table_of length-table_of

  module _ (strings : strings_fit 0 ds ≡ true) where
    pub total_items-items_of : total_items items_of ≡ length ds
    total_items-items_of =
        total_items_all bucket_count (place 0 ds) (λ p i. small (place-HasRoom 0 ds p strings i))
        ∙ length-place 0 ds
      where
        small : {p : Placed} → HasRoom p → bucket_of p < bucket_count
        small room = omega (arith, room.hash)

  module _ (few : length ds < 2 ^ 32) (fits : index_fits header_size items_of ≡ true)
      (strings : strings_fit 0 ds ≡ true) where
    pub store_of-file_of : store_of (file_of ds) ≡ built_store
    unfolding file_of
    store_of-file_of =
        let header = header_of (length ds) table_of in
        let first : take header_size (file_of ds) ≡ header =
          ap (λ n. take n (header ++ behind_header)) (sym length-header)
          ∙ take-append_length header behind_header in
        rw
          (
            first,
            header_of_total (length ds) table_of few,
            header_of_buckets (length ds) table_of length-table_of
                (lay_buckets-AreSmall header_size items_of (ltb→lt _ _ refl) fits),
          )
          refl

    pub file_of-IsStore : IsStore (file_of ds) built_store
    unfolding file_of
    file_of-IsStore =
        let header = header_of (length ds) table_of in
        let first : take header_size (file_of ds) ≡ header =
          ap (λ n. take n (header ++ behind_header)) (sym length-header)
          ∙ take-append_length header behind_header in
        let all_bytes : length (file_of ds) ≡ length header + length behind_header =
          length-append header behind_header in
        let indexed =
          length-append (concat_map (concat_map record_bytes) items_of) (concat_map (λ d. d) ds) in
        let records = length-sections items_of in
        record {
          long = holds_header _ _ _ all_bytes length-header;
          marked = ap (take 4) first ∙ header_of-magic (length ds) table_of;
          version = ap (λ s. u32_at s 4) first ∙ header_of_version (length ds) table_of;
          whole =
              holds_index _ _ _ _ _ _ _ all_bytes length-header indexed records
                (total_items-items_of strings);
          counts = sum_counts-lay_buckets header_size items_of ∙ (total_items-items_of strings);
          laid =
              lay_buckets-AreLaid base_of 0 header_size items_of starts_there starts_after
                (ends_at _ _ (total_items-items_of strings));
          read = sym store_of-file_of;
        }

    pub open_file-file_of : open_file (file_of ds) ≡ opened built_store
    open_file-file_of = (open_file-IsStore (file_of ds) built_store).1 file_of-IsStore
