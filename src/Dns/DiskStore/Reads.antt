-- ===== src/Dns/DiskStore/Reads.antt =====
-- Where the buckets of a store lie that `open` of src/modules/dns/disk_store.rs accepts, and that they
-- can be read.
use shield_ghita.Prelude.{
  ℕ, zero, suc, ◌+◌, ◌*◌, ◌≤◌, ◌<◌, ◌≡◌, refl, sym, ap, ◌∙◌, some, List, [], ◌∷◌, arith, Bytes,
  nat_eq, bytes_eq, pair_eq, length, take, drop, get_elem?, le→leb,
}
use shield_ghita.Dns.DiskStore.{
  header_size, record_size, bucket_count, get_range, DiskBlocklist, opened, read_buckets,
  bucket_end, open_file,
}
use shield_ghita.Dns.DiskStore.Opening.{AreLaid, open_file-IsStore}

length-read_buckets : (n : ℕ) (header : Bytes) (pos : ℕ) → length (read_buckets n header pos) ≡ n
length-read_buckets zero header pos = refl
length-read_buckets (suc n) header pos = ap (λ i. suc i) (length-read_buckets n header (pos + 8))

-- A bucket of laid ones is behind the header and the start, and before the strings.
AreLaid-bounds :
    (base start : ℕ) (buckets : List (ℕ × ℕ)) (j : ℕ) (c : ℕ × ℕ)
    → AreLaid base start buckets
    → get_elem? buckets j ≡ some c
    → (header_size ≤ c.0) × (start ≤ c.0) × (bucket_end c ≤ base)
AreLaid-bounds base start [] j c v e = absurd (cc e)
AreLaid-bounds base start (bucket ∷ buckets) zero c (low, after, inside, rest) e =
    let same : bucket ≡ c = cc e in rw (sym same) (low, after, inside)
AreLaid-bounds base start (bucket ∷ buckets) (suc j) c (low, after, inside, rest) e =
    let (low', after', inside') = AreLaid-bounds base (bucket_end bucket) buckets j c rest e in
    (low', omega (arith, after, after'), inside')

AreLaid-order :
    (base start : ℕ) (buckets : List (ℕ × ℕ)) (i j : ℕ) (b c : ℕ × ℕ)
    → AreLaid base start buckets
    → i < j
    → get_elem? buckets i ≡ some b
    → get_elem? buckets j ≡ some c
    → bucket_end b ≤ c.0
AreLaid-order base start [] i j b c v h e k = absurd (cc e)
AreLaid-order base start (bucket ∷ buckets) i zero b c v h e k = absurd (omega (arith, h))
AreLaid-order base start (bucket ∷ buckets) zero (suc j) b c (low, after, inside, rest) h e k =
    let same : bucket ≡ b = cc e in
    rw (sym same) (AreLaid-bounds base (bucket_end bucket) buckets j c rest k).1
AreLaid-order base start (bucket ∷ buckets) (suc i) (suc j) b c (low, after, inside, rest) h e k =
    AreLaid-order base (bucket_end bucket) buckets i j b c rest (omega (arith, h)) e k

numbered :
    (buckets : List (ℕ × ℕ)) (i : ℕ)
    → i < length buckets
    → (b : ℕ × ℕ) × (get_elem? buckets i ≡ some b)
numbered [] i h = absurd (omega (arith, h))
numbered (b ∷ buckets) zero h = (b, refl)
numbered (b ∷ buckets) (suc i) h = numbered buckets i (omega (arith, h))

readable :
    (s file : Bytes) (n at : ℕ)
    → s ≡ file
    → at + n ≤ length file
    → get_range s at n ≡ some (take n (drop at file))
readable s file n at same h = rw (same, le→leb _ _ h) refl

-- In a file that is opened, the table has a bucket for each of the 256 numbers; of any two buckets,
-- the one with the lower number ends before the other starts, both lie behind the header and before the
-- strings, and the records of both can be read from the file.
pub open_file-get_range :
    (file : Bytes) (d : DiskBlocklist) (i j : ℕ)
    → open_file file ≡ opened d
    → i < j
    → j < bucket_count
    → (b : ℕ × ℕ) × (c : ℕ × ℕ) × (get_elem? d.buckets i ≡ some b)
      × (get_elem? d.buckets j ≡ some c)
      × (header_size ≤ b.0)
      × (bucket_end b ≤ c.0)
      × (bucket_end c ≤ d.strings_base_offset)
      × (get_range d.file b.0 (b.1 * record_size) ≡ some (take (b.1 * record_size) (drop b.0 file)))
      × (get_range d.file c.0 (c.1 * record_size) ≡ some (take (c.1 * record_size) (drop c.0 file)))
open_file-get_range file d i j e order last =
    let v = (open_file-IsStore file d).0 e in
    let same : d.file ≡ file = ap (λ x. x.file) v.read in
    let count : length d.buckets ≡ bucket_count =
      ap (λ x. length x.buckets) v.read
      ∙ length-read_buckets bucket_count (take header_size file) 16 in
    let (b, at_i) = numbered d.buckets i (below _ _ _ _ count order last) in
    let (c, at_j) = numbered d.buckets j (within _ _ _ count last) in
    let (low, after, inside) = AreLaid-bounds d.strings_base_offset 0 d.buckets i b v.laid at_i in
    let (low', after', inside') =
      AreLaid-bounds d.strings_base_offset 0 d.buckets j c v.laid at_j in
    (
      b,
      c,
      at_i,
      at_j,
      low,
      AreLaid-order d.strings_base_offset 0 d.buckets i j b c v.laid order at_i at_j,
      inside',
      readable d.file file (b.1 * record_size) b.0 same (fits _ _ _ inside v.whole),
      readable d.file file (c.1 * record_size) c.0 same (fits _ _ _ inside' v.whole),
    )
  where
    below : (i j n m : ℕ) → n ≡ m → i < j → j < m → i < n
    below i j n m e h k = omega (arith, e, h, k)

    within : (j n m : ℕ) → n ≡ m → j < m → j < n
    within j n m e k = omega (arith, e, k)

    fits : (a base size : ℕ) → a ≤ base → base ≤ size → a ≤ size
    fits a base size h k = omega (arith, h, k)
