-- ===== src/Dns/DiskStore/Build/Room.antt =====
-- When every check of a build of src/modules/dns/disk_store.rs passes.
use shield_ghita.Prelude.{
  ℕ, ◌+◌, ◌*◌, ◌^◌, ◌≤◌, ◌<◌, ◌≡◌, refl, ap, ◌∙◌, Bool, true, false, ◌||◌, List, [], ◌∷◌, arith,
  Bytes, nat_eq, bytes_eq, pair_eq, ltb, leb, any, length, not_leb→lt, lt→ltb,
}
use shield_ghita.Dns.DiskStore.{record_size}
use shield_ghita.Dns.DiskStore.Build.{
  insert_by, sort_by, dedup, text_le, hash_le, prepare, Placed, strings_fit, index_fits,
}
use shield_ghita.Dns.DiskStore.Build.Buckets.{total_items}

abbrev pub total_size : List Bytes → ℕ
total_size [] = 0
total_size (d ∷ ds) = length d + total_size ds

abbrev pub is_long : Bytes → Bool
is_long d = leb (2 ^ 16) (length d)

total_size-insert_by :
    (le : Bytes → Bytes → Bool) (x : Bytes) (xs : List Bytes)
    → total_size (insert_by le x xs) ≡ length x + total_size xs
total_size-insert_by le x [] = refl
total_size-insert_by le x (y ∷ ys) = ground (arith, total_size-insert_by le x ys)

total_size-sort_by :
    (le : Bytes → Bytes → Bool) (xs : List Bytes) → total_size (sort_by le xs) ≡ total_size xs
total_size-sort_by le [] = refl
total_size-sort_by le (x ∷ xs) =
    total_size-insert_by le x (sort_by le xs) ∙ ap (λ n. length x + n) (total_size-sort_by le xs)

total_size-dedup-le : (xs : List Bytes) → total_size (dedup xs) ≤ total_size xs
total_size-dedup-le [] = omega arith
total_size-dedup-le (x ∷ []) = omega arith
total_size-dedup-le (x ∷ y ∷ ys) = ground (arith, total_size-dedup-le (y ∷ ys))

pub total_size-prepare-le :
    (domains : List Bytes) → total_size (prepare domains) ≤ total_size domains
unfolding prepare
total_size-prepare-le domains = omega (
  arith,
  total_size-sort_by hash_le (dedup (sort_by text_le domains)),
  total_size-dedup-le (sort_by text_le domains),
  total_size-sort_by text_le domains,
)

pub strings_fit_if :
    (off : ℕ) (ds : List Bytes)
    → any is_long ds ≡ false
    → off + total_size ds < 2 ^ 32
    → strings_fit off ds ≡ true
strings_fit_if off [] short h = refl
strings_fit_if off (d ∷ ds) short h =
    let (here, rest) = neither (is_long d) (any is_long ds) short in
    let near : ltb off (2 ^ 32) ≡ true = lt→ltb _ _ (omega (arith, h)) in
    let small : ltb (length d) (2 ^ 16) ≡ true = lt→ltb _ _ (not_leb→lt _ _ here) in
    rw (near, small) (strings_fit_if (off + length d) ds rest (omega (arith, h)))
  where
    neither : (a b : Bool) → (a || b) ≡ false → (a ≡ false) × (b ≡ false)
    neither a b h = ground arith

pub index_fits_if :
    (off : ℕ) (buckets : List (List Placed))
    → off + total_items buckets * record_size < 2 ^ 32
    → index_fits off buckets ≡ true
index_fits_if off [] h = refl
index_fits_if off (items ∷ buckets) h =
    let few : ltb (length items) (2 ^ 32) ≡ true = lt→ltb _ _ (omega (arith, h)) in
    let bytes : ltb (length items * record_size) (2 ^ 32) ≡ true = lt→ltb _ _ (omega (arith, h)) in
    let end : ltb (off + length items * record_size) (2 ^ 32) ≡ true =
      lt→ltb _ _ (omega (arith, h)) in
    rw (few, bytes, end)
      (index_fits_if (off + length items * record_size) buckets (omega (arith, h)))
