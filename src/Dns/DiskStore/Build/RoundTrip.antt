-- ===== src/Dns/DiskStore/Build/RoundTrip.antt =====
-- What `build` of src/modules/dns/disk_store.rs writes, `open` opens and `contains` finds.
use shield_ghita.Prelude.{
  ℕ, ◌+◌, ◌-◌, ◌*◌, ◌/◌, ◌^◌, ◌≤◌, ◌<◌, ◌≡◌, refl, sym, ap, ◌∙◌, inl, inr, Bool, true, false, not,
  ◌&&◌, ◌||◌, some, List, [], ◌∷◌, ◌++◌, arith, Bytes, ◌==◌, nat_eq, bytes_eq, pair_eq, ltb,
  if◌then◌else◌, Bool-cases, is_empty, any, length, take, drop, get_elem?, retain, retain-IsIn,
  nat_beq_iff, length-retain-le, length-append, le→leb, lt→ltb,
}
use shield_ghita.Dns.FastCache.{u64_mod, hash_domain, hash_domain-lt}
use shield_ghita.Dns.DiskStore.{
  get_range, header_size, record_size, bucket_count, DiskBlocklist, opened, open_file, find_in_read,
  search_bucket, or_empty, disk_contains,
}
use shield_ghita.Dns.DiskStore.Build.{
  concat_map, prepare, Placed, place, strings_fit, bucket_of, index_fits, record_bytes, header_of,
  file_of, build_file,
}
use shield_ghita.Dns.DiskStore.Build.Sorting.{
  any-prepare, length-prepare-le, prepare-IsAscending, IsAscending, IsAscending-retain,
}
use shield_ghita.Dns.DiskStore.Build.Layout.{append_assoc, drop-append}
use shield_ghita.Dns.DiskStore.Build.Buckets.{
  get_elem?-bucket_items, get_elem?-lay_buckets, length-sections,
}
use shield_ghita.Dns.DiskStore.Build.Strings.{place-HasRoom, length-place, any-place, any-retain}
use shield_ghita.Dns.DiskStore.Build.Header.{
  items_of, table_of, base_of, behind_header, built_store, length-header, total_items-items_of,
  open_file-file_of,
}
use shield_ghita.Dns.DiskStore.Build.Room.{
  total_size, is_long, total_size-prepare-le, strings_fit_if, index_fits_if,
}
use shield_ghita.Dns.DiskStore.Build.Lookup.{
  same_name, item_matches, item_matches-IsPlaced, find_in_bucket-any,
}

or_no_bytes :
    (s : Bytes) (n at : ℕ) → at + n ≤ length s → get_range s at n ≡ some (take n (drop at s))
or_no_bytes s n at h = rw (le→leb _ _ h) refl

-- The guards of a lookup, when each of them would be right to answer no.
guards :
    (a b c x r : Bool)
    → (a ≡ true → r ≡ false)
    → (b ≡ true → r ≡ false)
    → c ≡ false
    → x ≡ r
    → (if a then false else if b then false else if c then false else x) ≡ r
guards true b c x r h k n e = sym (h refl)
guards false true c x r h k n e = sym (k refl)
guards false false c x r h k n e = rw n e

none_counted : {A : Type 0} (p : A → Bool) (xs : List A) → length xs ≡ 0 → any p xs ≡ false
none_counted p [] h = refl
none_counted p (x ∷ xs) h = absurd (omega (arith, h))

not_under : (a b : ℕ) → b ≤ a → ltb a b ≡ false
not_under a b h = ground (arith, h)

or_false_twice : (a : Bool) → (a || false) ≡ true → (a || false || false) ≡ true
or_false_twice a h = ground arith

only_first : (a b c : Bool) → b ≡ false → c ≡ false → (a || b || c) ≡ true → a ≡ true
only_first a b c h k e = ground arith

module _ (ds : List Bytes) (few : length ds < 2 ^ 32)
    (fits : index_fits header_size (items_of ds) ≡ true) (strings : strings_fit 0 ds ≡ true)
    (name : Bytes) where
  bucket_number : ℕ
  bucket_number = hash_domain name / 2 ^ 56

  abbrev bucket_list : List Placed
  bucket_list = retain (λ p. bucket_of p == 0 + hash_domain name / 2 ^ 56) (place 0 ds)

  abbrev passes : Placed → Bool
  passes = item_matches (file_of ds) (base_of ds) name

  list_of_bucket : get_elem? (items_of ds) (hash_domain name / 2 ^ 56) ≡ some bucket_list
  list_of_bucket =
      get_elem?-bucket_items bucket_count 0 (hash_domain name / 2 ^ 56) (place 0 ds)
        (below _ (hash_domain-lt name))
    where
      below : (h : ℕ) → h < u64_mod → h / 2 ^ 56 < bucket_count
      below h lt = omega (arith, lt)

  any-bucket_list : any passes bucket_list ≡ any (λ d. same_name d name) ds
  unfolding file_of
  any-bucket_list =
      let front =
        header_of (length ds) (table_of ds) ++ concat_map (concat_map record_bytes) (items_of ds) in
      any-retain passes (λ p. bucket_of p == 0 + hash_domain name / 2 ^ 56) (place 0 ds)
      ∙ any-place (file_of ds) (base_of ds)
          (λ p. bucket_of p == 0 + hash_domain name / 2 ^ 56 && passes p) (λ d. same_name d name)
          (λ p d v. item_matches-IsPlaced (file_of ds) (base_of ds) name p d v) 0 front ds
          (sym (
            append_assoc (header_of (length ds) (table_of ds))
              (concat_map (concat_map record_bytes) (items_of ds)) (concat_map (λ d. d) ds)))
          (at_base _ _ _ _ _
            (length-append (header_of (length ds) (table_of ds))
              (concat_map (concat_map record_bytes) (items_of ds)))
            (length-header ds) (length-sections (items_of ds)) (total_items-items_of ds strings))
    where
      at_base :
          (front header records total n : ℕ)
          → front ≡ header + records
          → header ≡ header_size
          → records ≡ total * record_size
          → total ≡ n
          → front ≡ header_size + n * record_size + 0
      at_base front header records total n e h r t = omega (arith, e, h, r, t)

  -- Where the bucket of the name stands, and what is read there.
  bucket_read :
      (at : ℕ) × (get_elem? (table_of ds) (hash_domain name / 2 ^ 56)
        ≡ some (at, length bucket_list))
      × (header_size ≤ at)
      × (at + length bucket_list * record_size ≤ base_of ds)
      × (get_range (file_of ds) at (length bucket_list * record_size)
          ≡ some (concat_map record_bytes bucket_list))
  unfolding file_of
  bucket_read =
      let header = header_of (length ds) (table_of ds) in
      let n = length bucket_list * record_size in
      let (at, found, low, high, bytes) =
        get_elem?-lay_buckets header_size (hash_domain name / 2 ^ 56) (items_of ds) bucket_list
          (concat_map (λ d. d) ds) list_of_bucket in
      let before : at + n ≤ base_of ds =
        ends_before _ _ _ _ (total_items-items_of ds strings) high in
      let inside : at + n ≤ length (file_of ds) =
        in_file _ _ _ _ _ _ _ _ (length-append header (behind_header ds)) (length-header ds)
          (length-append (concat_map (concat_map record_bytes) (items_of ds))
            (concat_map (λ d. d) ds))
          (length-sections (items_of ds)) high in
      let split : at ≡ length header + (at - header_size) = behind _ _ (length-header ds) low in
      (
        at,
        found,
        low,
        before,
        or_no_bytes (file_of ds) n at inside
            ∙ ap (λ k. some (take n (drop k (file_of ds)))) split
            ∙ ap (λ s. some (take n s)) (drop-append (at - header_size) header (behind_header ds))
            ∙ ap (λ s. some s) bytes,
      )
    where
      ends_before :
          (at n total count : ℕ)
          → total ≡ count
          → at + n ≤ header_size + total * record_size
          → at + n ≤ header_size + count * record_size
      ends_before at n total count e h = omega (arith, e, h)

      in_file :
          (at n file header behind records strings total : ℕ)
          → file ≡ header + behind
          → header ≡ header_size
          → behind ≡ records + strings
          → records ≡ total * record_size
          → at + n ≤ header_size + total * record_size
          → at + n ≤ file
      in_file at n file header behind records strings total e h b r i = omega (arith, e, h, b, r, i)

      behind :
          (at header : ℕ)
          → header ≡ header_size
          → header_size ≤ at
          → at ≡ header + (at - header_size)
      behind at header e h = omega (arith, e, h)

  disk_contains-built_store :
      length ds * record_size ≤ 67108864
      → is_empty name ≡ false
      → IsAscending (λ p. p.hash) 0 (place 0 ds)
      → disk_contains (built_store ds) name ≡ any (λ d. same_name d name) ds
  unfolding disk_contains
  disk_contains-built_store small some_name ascending =
      let (at, found, low, before, read) = bucket_read in
      let total : length bucket_list ≤ length ds =
        shorter _ _ _
          (length-retain-le (λ p. bucket_of p == 0 + hash_domain name / 2 ^ 56) (place 0 ds))
          (length-place 0 ds) in
      let searched =
        find_in_bucket-any bucket_list
          (λ p i. place-HasRoom 0 ds p strings (retain-IsIn _ p (place 0 ds) i).0) (built_store ds)
          name 0
          (IsAscending-retain (λ p. p.hash) (λ p. bucket_of p == 0 + hash_domain name / 2 ^ 56) 0
            (place 0 ds) ascending) in
      ap
        (λ e.
          if length ds == 0 || e
          then false
          else search_bucket (built_store ds) name
              (or_empty (get_elem? (table_of ds) (hash_domain name / 2 ^ 56))))
        some_name
      ∙ ap
          (λ o.
            if length ds == 0 || false
            then false
            else search_bucket (built_store ds) name (or_empty o))
          found
      ∙ ap
          (λ r.
            guarded_lookup at (length bucket_list)
              (find_in_read (built_store ds) name (length bucket_list) r))
          read
      ∙ (guards _ _ _ _ _ (λ e. none_counted _ ds (no_domain _ e))
          (λ e. sym any-bucket_list ∙ none_counted passes bucket_list (no_item _ _ total small e))
          (laid _ _ _ low before) (searched ∙ any-bucket_list))
    where
      guarded_lookup : ℕ → ℕ → Bool → Bool
      guarded_lookup offset count answer =
          if length ds == 0 || false
          then false
          else if count == 0 || ltb (length ds) count || ltb 67108864 (count * record_size)
          then false
          else if ltb offset header_size || ltb (base_of ds) (offset + count * record_size)
          then false
          else answer

      shorter : (a b c : ℕ) → a ≤ b → b ≡ c → a ≤ c
      shorter a b c h e = omega (arith, h, e)

      no_domain : (n : ℕ) → (n == 0 || false) ≡ true → n ≡ 0
      no_domain n h =
          (nat_beq_iff n 0).0
            (only_first (n == 0) false false refl refl (or_false_twice (n == 0) h))

      no_item :
          (k n : ℕ)
          → k ≤ n
          → n * record_size ≤ 67108864
          → (k == 0 || ltb n k || ltb 67108864 (k * record_size)) ≡ true
          → k ≡ 0
      no_item k n h small e =
          let enough : ltb n k ≡ false = not_under n k h in
          let short : ltb 67108864 (k * record_size) ≡ false =
            not_under 67108864 (k * record_size) (omega (arith, h, small)) in
          (nat_beq_iff k 0).0 (only_first _ _ _ enough short e)

      laid :
          (at k base : ℕ)
          → header_size ≤ at
          → at + k * record_size ≤ base
          → (ltb at header_size || ltb base (at + k * record_size)) ≡ false
      laid at k base low high =
          rw (not_under at header_size low, not_under base (at + k * record_size) high) refl

disk_contains-empty :
    (d : DiskBlocklist) (name : Bytes) → is_empty name ≡ true → disk_contains d name ≡ false
unfolding disk_contains
disk_contains-empty d name empty = rw empty (either_way (d.total_domains == 0) _)
  where
    either_way : (a b : Bool) → (if a || true then false else b) ≡ false
    either_way a b = ground arith

-- A list with at most 64 MiB of records, whose strings have less than 64 KiB each and less than 4 GiB
-- altogether, is built; the file is opened, and the lookup of a name finds it exactly if it is not empty
-- and a domain of the list is equal to it but for the case of letters.
pub build_file-disk_contains :
    (domains : List Bytes) (name : Bytes)
    → length domains * record_size ≤ 67108864
    → any is_long domains ≡ false
    → total_size domains < 2 ^ 32
    → (file : Bytes) × (d : DiskBlocklist) × (build_file domains ≡ some (file, d.total_domains))
      × (open_file file ≡ opened d)
      × (disk_contains d name
          ≡ (not (is_empty name) && any (λ domain. same_name domain name) domains))
unfolding build_file
build_file-disk_contains domains name small short light =
    let ds = prepare domains in
    let strings =
      strings_fit_if 0 ds (any-prepare is_long domains ∙ short)
        (lighter _ _ (total_size-prepare-le domains) light) in
    let count = length-prepare-le domains in
    let fits =
      index_fits_if header_size (items_of ds)
        (indexed _ _ _ (total_items-items_of ds strings) count small) in
    let few = fewer _ _ count small in
    let few_test : ltb (length ds) (2 ^ 32) ≡ true = lt→ltb _ _ few in
    (
      file_of ds,
      built_store ds,
      rw (few_test, fits, strings) refl,
      open_file-file_of ds few fits strings,
      elim (Bool-cases (is_empty name)) [
        | inl empty ↦ rw empty (disk_contains-empty (built_store ds) name empty)
        | inr some_name ↦ rw some_name (
            disk_contains-built_store ds few fits strings name (still_small _ _ count small)
              some_name (prepare-IsAscending domains)
            ∙ any-prepare (λ domain. same_name domain name) domains)
      ],
    )
  where
    lighter : (a b : ℕ) → a ≤ b → b < 2 ^ 32 → 0 + a < 2 ^ 32
    lighter a b h k = omega (arith, h, k)

    indexed :
        (t n m : ℕ)
        → t ≡ n
        → n ≤ m
        → m * record_size ≤ 67108864
        → header_size + t * record_size < 2 ^ 32
    indexed t n m e h k = omega (arith, e, h, k)

    fewer : (n m : ℕ) → n ≤ m → m * record_size ≤ 67108864 → n < 2 ^ 32
    fewer n m h k = omega (arith, h, k)

    still_small : (n m : ℕ) → n ≤ m → m * record_size ≤ 67108864 → n * record_size ≤ 67108864
    still_small n m h k = omega (arith, h, k)
