-- ===== src/Dns/DiskStore/Build/Lookup.antt =====
-- A lookup in a store that src/modules/dns/disk_store.rs has built.
use shield_ghita.Prelude.{
  ℕ, zero, suc, ◌+◌, ◌*◌, ◌/◌, ◌^◌, ◌≤◌, ◌<◌, ◌≡◌, refl, sym, ap, ◌∙◌, inl, inr, Bool, true, false,
  not, ◌&&◌, Option, none, some, List, [], ◌∷◌, ◌++◌, arith, Bytes, ◌==◌, nat_eq, bytes_eq, pair_eq,
  leb, if◌then◌else◌, Bool-cases, any, length, take, drop, get_elem?, IsIn, nat_beq_iff,
  bytes_beq_iff, le→leb,
}
use shield_ghita.Text.{to_lowercase}
use shield_ghita.Dns.FastCache.{u64_mod, hash_domain, hash_domain-to_lowercase}
use shield_ghita.Dns.DiskStore.{
  from_le, to_le, get_range, record_size, DiskBlocklist, hash_at, check_match, find_in_bucket,
}
use shield_ghita.Dns.DiskStore.Search.{find_in_bucket-any_from}
use shield_ghita.Dns.DiskStore.Build.{concat_map, Placed, bucket_of, record_bytes}
use shield_ghita.Dns.DiskStore.Build.Sorting.{IsAscending, IsAscending-get_elem?}
use shield_ghita.Dns.DiskStore.Build.Layout.{
  from_le-to_le, from_le-to_le_4, range_item, length-concat_map, length-record_bytes,
}
use shield_ghita.Dns.DiskStore.Build.Strings.{
  IsPlaced, HasRoom, get_elem?-IsIn, get_elem?-some, any_from-any,
}

-- Equal but for the case of letters.
abbrev pub same_name : Bytes → Bytes → Bool
same_name a b = to_lowercase a == to_lowercase b

abbrev string_matches : Bytes → Option Bytes → Bool
string_matches name none = false
string_matches name (some s) = same_name s name

-- The test that a record passes, on the item that it holds.
abbrev pub item_matches : Bytes → ℕ → Bytes → Placed → Bool
item_matches file base name p =
    if not (p.hash == hash_domain name)
    then false
    else if not (p.size == length name)
    then false
    else string_matches name (get_range file (base + p.offset) p.size)

length-to_lowercase : (s : Bytes) → length (to_lowercase s) ≡ length s
length-to_lowercase [] = refl
length-to_lowercase (b ∷ s) = ap (λ i. suc i) (length-to_lowercase s)

-- An item passes if it stands for the name.
pub item_matches-IsPlaced :
    (file : Bytes) (base : ℕ) (name : Bytes) (p : Placed) (d : Bytes)
    → IsPlaced file base p d
    → (bucket_of p == 0 + hash_domain name / 2 ^ 56 && item_matches file base name p)
      ≡ same_name d name
item_matches-IsPlaced file base name p d v = elim (Bool-cases (same_name d name)) [
  | inl same ↦
      let lower : to_lowercase d ≡ to_lowercase name = (bytes_beq_iff _ _).0 same in
      let hash : p.hash ≡ hash_domain name =
        v.hash
        ∙ sym (hash_domain-to_lowercase d)
        ∙ ap hash_domain lower
        ∙ hash_domain-to_lowercase name in
      let size : p.size ≡ length name =
        v.size
        ∙ sym (length-to_lowercase d)
        ∙ ap (λ s. length s) lower
        ∙ length-to_lowercase name in
      let here : (bucket_of p == 0 + hash_domain name / 2 ^ 56) ≡ true =
        (nat_beq_iff _ _).1 (ap (λ h. h / 2 ^ 56) hash ∙ zero_plus _) in
      let hash_same : (p.hash == hash_domain name) ≡ true = (nat_beq_iff _ _).1 hash in
      let size_same : (p.size == length name) ≡ true = (nat_beq_iff _ _).1 size in
      rw (here, hash_same, size_same, v.string, same) refl
  | inr other ↦ rw (v.string, other) (fails (bucket_of p == _) (p.hash == _) (p.size == _))
]
  where
    zero_plus : (n : ℕ) → n ≡ 0 + n
    zero_plus n = omega arith

    fails :
        (a b c : Bool) → (a && (if not b then false else if not c then false else false)) ≡ false
    fails a b c = ground arith

append_nil : (s : Bytes) → s ++ [] ≡ s
append_nil [] = refl
append_nil (b ∷ s) = ap (λ t. b ∷ t) (append_nil s)

module _ (items : List Placed) (room : (p : Placed) → IsIn p items → HasRoom p) where
  abbrev pub bucket_data : Bytes
  bucket_data = concat_map record_bytes items

  length-bucket_data : length bucket_data ≡ length items * record_size
  length-bucket_data = length-concat_map record_bytes record_size length-record_bytes items

  -- A field of a record.
  record_field :
      (i n o : ℕ) (p : Placed)
      → get_elem? items i ≡ some p
      → i < length items
      → o + n ≤ record_size
      → get_range bucket_data (i * record_size + o) n ≡ some (take n (drop o (record_bytes p)))
  record_field i n o p e h fits =
      let inside : leb (i * record_size + o + n) (length bucket_data) ≡ true =
        le→leb _ _ (within i n o _ _ length-bucket_data h fits) in
      let bytes =
        ap (λ s. take n (drop (i * record_size + o) s)) (sym (append_nil bucket_data))
        ∙ range_item record_bytes record_size length-record_bytes items i n o p [] e fits in
      rw (inside, bytes) refl
    where
      within :
          (i n o size count : ℕ)
          → size ≡ count * record_size
          → i < count
          → o + n ≤ record_size
          → i * record_size + o + n ≤ size
      within i n o size count e h fits = omega (arith, e, h, fits)

  get_elem?-lt :
      {A : Type 0} (xs : List A) (i : ℕ) (x : A) → get_elem? xs i ≡ some x → i < length xs
  get_elem?-lt [] i x e = absurd (cc e)
  get_elem?-lt (y ∷ ys) zero x e = omega arith
  get_elem?-lt (y ∷ ys) (suc i) x e = omega (arith, get_elem?-lt ys i x e)

  hash_bytes :
      (i : ℕ) (p : Placed)
      → get_elem? items i ≡ some p
      → take 8 (drop (i * record_size) bucket_data) ≡ to_le 8 p.hash
  hash_bytes i p e =
      ap (λ k. take 8 (drop k bucket_data)) (no_more (i * record_size))
      ∙ ap (λ s. take 8 (drop (i * record_size + 0) s)) (sym (append_nil bucket_data))
      ∙ range_item record_bytes record_size length-record_bytes items i 8 0 p [] e (omega arith)
    where
      no_more : (n : ℕ) → n ≡ n + 0
      no_more n = omega arith

  hash_read :
      (i : ℕ) (p : Placed)
      → get_elem? items i ≡ some p
      → from_le (take 8 (drop (i * record_size) bucket_data)) ≡ p.hash
  hash_read i p e =
      ap from_le (hash_bytes i p e)
      ∙ from_le-to_le 8 p.hash (word _ (room p (get_elem?-IsIn items i p e)).hash)
    where
      word : (n : ℕ) → n < u64_mod → n < 256 ^ 8
      word n h = omega (arith, h)

  hash_at_item :
      (i : ℕ) (p : Placed) → get_elem? items i ≡ some p → hash_at bucket_data i ≡ some p.hash
  hash_at_item i p e =
      let here : get_range bucket_data (i * record_size) 8 ≡ some (to_le 8 p.hash) =
        ap (λ k. get_range bucket_data k 8) (no_more (i * record_size))
        ∙ record_field i 8 0 p e (get_elem?-lt items i p e) (omega arith) in
      rw (here, hash_at)
        (ap (λ h. some h)
          (from_le-to_le 8 p.hash (word _ (room p (get_elem?-IsIn items i p e)).hash)))
    where
      word : (n : ℕ) → n < u64_mod → n < 256 ^ 8
      word n h = omega (arith, h)

      no_more : (n : ℕ) → n ≡ n + 0
      no_more n = omega arith

  module _ (d : DiskBlocklist) (name : Bytes) where
    check_match_item :
        (i : ℕ) (p : Placed)
        → get_elem? items i ≡ some p
        → check_match d bucket_data name (hash_domain name) i
          ≡ item_matches d.file d.strings_base_offset name p
    unfolding check_match
    check_match_item i p e =
        let small = room p (get_elem?-IsIn items i p e) in
        let off = record_field i 4 8 p e (get_elem?-lt items i p e) (omega arith) in
        let size = record_field i 2 12 p e (get_elem?-lt items i p e) (omega arith) in
        let offset_read : from_le (to_le 4 p.offset) ≡ p.offset =
          from_le-to_le_4 p.offset small.offset in
        let size_read : from_le (to_le 2 p.size) ≡ p.size =
          from_le-to_le 2 p.size (half _ small.size) in
        rw (hash_at_item i p e, check_match) (rw (off, size) (rw (offset_read, size_read) refl))
      where
        half : (n : ℕ) → n < 2 ^ 16 → n < 256 ^ 2
        half n h = omega (arith, h)

    -- The search in the bucket looks at the items.
    pub find_in_bucket-any :
        (low : ℕ)
        → IsAscending (λ p. p.hash) low items
        → find_in_bucket d bucket_data name (hash_domain name) (length items)
          ≡ any (item_matches d.file d.strings_base_offset name) items
    find_in_bucket-any low ascending =
        find_in_bucket-any_from d bucket_data name (hash_domain name) (length items)
          (record { whole = length-bucket_data; sorted = sorted })
        ∙ any_from-any (check_match d bucket_data name (hash_domain name))
            (item_matches d.file d.strings_base_offset name) items 0
            (λ i p e.
              ap (check_match d bucket_data name (hash_domain name)) (plain i)
              ∙ check_match_item i p e)
      where
        plain : (i : ℕ) → 0 + i ≡ i
        plain i = omega arith

        sorted :
            (i j : ℕ)
            → i ≤ j
            → j < length items
            → from_le (take 8 (drop (i * record_size) bucket_data))
              ≤ from_le (take 8 (drop (j * record_size) bucket_data))
        sorted i j h inside =
            let (p, at) = get_elem?-some items i (omega (arith, h, inside)) in
            let (q, there) = get_elem?-some items j inside in
            rw (hash_read i p at, hash_read j q there)
              (IsAscending-get_elem? (λ p. p.hash) low items i j p q ascending h at there)
