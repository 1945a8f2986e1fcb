-- ===== src/Dns/DiskStore/Build/Buckets.antt =====
-- The buckets that a build of src/modules/dns/disk_store.rs lays out.
use shield_ghita.Prelude.{
  ℕ, zero, suc, ◌+◌, ◌-◌, ◌*◌, ◌^◌, ◌≤◌, ◌<◌, ◌≡◌, refl, sym, ap, ◌∙◌, inl, inr, true, ◌&&◌, some,
  List, [], ◌∷◌, ◌++◌, arith, Bytes, ◌==◌, nat_eq, bytes_eq, pair_eq, ltb, leb, if◌then◌else◌,
  length, take, drop, get_elem?, retain, IsIn, &&-eq-true, length-append, take-append_length,
  ltb→lt,
}
use shield_ghita.Dns.DiskStore.{header_size, record_size, sum_counts}
use shield_ghita.Dns.DiskStore.Opening.{AreLaid}
use shield_ghita.Dns.DiskStore.Build.{
  concat_map, Placed, bucket_of, bucket_items, lay_buckets, index_fits, record_bytes,
}
use shield_ghita.Dns.DiskStore.Build.Layout.{
  append_assoc, drop-append, length-concat_map, length-record_bytes, AreSmall,
}

abbrev pub total_items : List (List Placed) → ℕ
total_items [] = 0
total_items (items ∷ buckets) = length items + total_items buckets

pub length-bucket_items : (n b : ℕ) (placed : List Placed) → length (bucket_items n b placed) ≡ n
length-bucket_items zero b placed = refl
length-bucket_items (suc n) b placed = ap (λ i. suc i) (length-bucket_items n (b + 1) placed)

pub length-lay_buckets :
    (off : ℕ) (buckets : List (List Placed)) → length (lay_buckets off buckets) ≡ length buckets
length-lay_buckets off [] = refl
length-lay_buckets off (items ∷ buckets) =
    ap (λ i. suc i) (length-lay_buckets (off + length items * record_size) buckets)

pub get_elem?-bucket_items :
    (n b i : ℕ) (placed : List Placed)
    → i < n
    → get_elem? (bucket_items n b placed) i ≡ some (retain (λ p. bucket_of p == b + i) placed)
get_elem?-bucket_items zero b i placed h = absurd (omega (arith, h))
get_elem?-bucket_items (suc n) b zero placed h =
    ap (λ k. some (retain (λ p. bucket_of p == k) placed)) (omega arith)
get_elem?-bucket_items (suc n) b (suc i) placed h =
    get_elem?-bucket_items n (b + 1) i placed (omega (arith, h))
    ∙ ap (λ k. some (retain (λ p. bucket_of p == k) placed)) (omega arith)

total_items-none : (n b : ℕ) → total_items (bucket_items n b []) ≡ 0
total_items-none zero b = refl
total_items-none (suc n) b = omega (arith, total_items-none n (b + 1))

-- An item is counted in one bucket.
total_items_bump :
    (n b : ℕ) (p : Placed) (placed : List Placed)
    → total_items (bucket_items n b (p ∷ placed))
      ≡ total_items (bucket_items n b placed)
        + (if leb b (bucket_of p) && ltb (bucket_of p) (b + n) then 1 else 0)
total_items_bump zero b p placed = ground arith
total_items_bump (suc n) b p placed = bump (bucket_of p) _ _ (total_items_bump n (b + 1) p placed)
  where
    bump :
        (k t u : ℕ)
        → t ≡ u + (if leb (b + 1) k && ltb k (b + 1 + n) then 1 else 0)
        → length (
              if k == b
              then p ∷ retain (λ p. bucket_of p == b) placed
              else retain (λ p. bucket_of p == b) placed)
            + t
          ≡ length (retain (λ p. bucket_of p == b) placed)
            + u
            + (if leb b k && ltb k (b + suc n) then 1 else 0)
    bump k t u h = ground (arith, h)

pub total_items_all :
    (n : ℕ) (placed : List Placed)
    → ((p : Placed) → IsIn p placed → bucket_of p < n)
    → total_items (bucket_items n 0 placed) ≡ length placed
total_items_all n [] h = total_items-none n 0
total_items_all n (p ∷ placed) h =
    total_items_bump n 0 p placed
    ∙ counted (bucket_of p) (h p (inl refl)) (total_items_all n placed (λ q i. h q (inr i)))
  where
    counted :
        (k : ℕ) {t : ℕ}
        → k < n
        → t ≡ length placed
        → t + (if leb 0 k && ltb k (0 + n) then 1 else 0) ≡ suc (length placed)
    counted k h e = ground (arith, h, e)

pub sum_counts-lay_buckets :
    (off : ℕ) (buckets : List (List Placed))
    → sum_counts (lay_buckets off buckets) ≡ total_items buckets
sum_counts-lay_buckets off [] = refl
sum_counts-lay_buckets off (items ∷ buckets) =
    ap (λ n. length items + n) (sum_counts-lay_buckets (off + length items * record_size) buckets)

pub length-sections :
    (buckets : List (List Placed))
    → length (concat_map (concat_map record_bytes) buckets) ≡ total_items buckets * record_size
length-sections [] = refl
length-sections (items ∷ buckets) =
    let here = length-concat_map record_bytes record_size length-record_bytes items in
    omega (
      arith,
      length-append (concat_map record_bytes items) (concat_map (concat_map record_bytes) buckets),
      here,
      length-sections buckets,
    )

pub lay_buckets-AreLaid :
    (base start off : ℕ) (buckets : List (List Placed))
    → header_size ≤ off
    → start ≤ off
    → off + total_items buckets * record_size ≤ base
    → AreLaid base start (lay_buckets off buckets)
lay_buckets-AreLaid base start off [] low after inside = tt
lay_buckets-AreLaid base start off (items ∷ buckets) low after inside = (
  low,
  after,
  omega (arith, inside),
  lay_buckets-AreLaid base (off + length items * record_size) (off + length items * record_size)
      buckets (omega (arith, low)) (omega arith) (omega (arith, inside)),
)

pub lay_buckets-AreSmall :
    (off : ℕ) (buckets : List (List Placed))
    → off < 2 ^ 32
    → index_fits off buckets ≡ true
    → AreSmall (lay_buckets off buckets)
lay_buckets-AreSmall off [] small fits = tt
lay_buckets-AreSmall off (items ∷ buckets) small fits =
    let (here, rest) = &&-eq-true _ _ fits in
    let (counted, end) = &&-eq-true _ _ here in
    let (few, bytes) = &&-eq-true _ _ counted in
    (
      small,
      ltb→lt _ _ few,
      lay_buckets-AreSmall (off + length items * record_size) buckets (ltb→lt _ _ end) rest,
    )

-- The bytes of a bucket stand where the table says.
pub get_elem?-lay_buckets :
    (off b : ℕ) (buckets : List (List Placed)) (items : List Placed) (tail : Bytes)
    → get_elem? buckets b ≡ some items
    → (at : ℕ) × (get_elem? (lay_buckets off buckets) b ≡ some (at, length items))
      × (off ≤ at)
      × (at + length items * record_size ≤ off + total_items buckets * record_size)
      × (take
            (length items * record_size)
            (drop (at - off) (concat_map (concat_map record_bytes) buckets ++ tail))
          ≡ concat_map record_bytes items)
get_elem?-lay_buckets off b [] items tail e = absurd (cc e)
get_elem?-lay_buckets off zero (first ∷ buckets) items tail e =
    let same : first ≡ items = cc e in
    let size = length-concat_map record_bytes record_size length-record_bytes first in
    let start : off - off ≡ 0 = omega arith in
    let here : take (length first * record_size) (
          drop (off - off) (
            (concat_map record_bytes first ++ concat_map (concat_map record_bytes) buckets)
            ++ tail))
        ≡ concat_map record_bytes first =
      rw
        (
          start,
          append_assoc (concat_map record_bytes first)
              (concat_map (concat_map record_bytes) buckets) tail,
        )
        (ap
            (λ n. take n (
              concat_map record_bytes first
              ++ (concat_map (concat_map record_bytes) buckets ++ tail)))
            (sym size)
          ∙ take-append_length (concat_map record_bytes first) _) in
    rw (sym same) (off, refl, omega arith, omega arith, here)
get_elem?-lay_buckets off (suc b) (first ∷ buckets) items tail e =
    let next = off + length first * record_size in
    let (at, found, low, high, bytes) = get_elem?-lay_buckets next b buckets items tail e in
    let size = length-concat_map record_bytes record_size length-record_bytes first in
    let split : at - off ≡ length (concat_map record_bytes first) + (at - next) =
      omega (arith, low, size) in
    let there : take (length items * record_size) (
          drop (at - off) (
            (concat_map record_bytes first ++ concat_map (concat_map record_bytes) buckets)
            ++ tail))
        ≡ concat_map record_bytes items =
      rw
        (
          split,
          append_assoc (concat_map record_bytes first)
              (concat_map (concat_map record_bytes) buckets) tail,
        )
        (ap (take (length items * record_size))
            (drop-append (at - next) (concat_map record_bytes first) _)
          ∙ bytes) in
    (at, found, omega (arith, low), omega (arith, high), there)
