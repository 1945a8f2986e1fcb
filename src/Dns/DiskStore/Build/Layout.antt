-- ===== src/Dns/DiskStore/Build/Layout.antt =====
-- The bytes that src/modules/dns/disk_store.rs writes: numbers in little endian, and items of one size.
use shield_ghita.Prelude.{
  ℕ, zero, suc, ◌+◌, ◌*◌, ◌/◌, ◌^◌, ◌≤◌, ◌<◌, ◌≡◌, refl, sym, ap, ◌∙◌, some, List, [], ◌∷◌, ◌++◌,
  arith, Bytes, nat_eq, bytes_eq, pair_eq, length, take, drop, get_elem?, length-append,
}
use shield_ghita.Dns.DiskStore.{from_le, to_le, record_size, u32_at, read_buckets}
use shield_ghita.Dns.DiskStore.Build.{concat_map, Placed, record_bytes, bucket_bytes}

pub from_le-to_le : (k n : ℕ) → n < 256 ^ k → from_le (to_le k n) ≡ n
from_le-to_le zero n h = omega (arith, h)
from_le-to_le (suc k) n h =
    let wide : 256 ^ suc k ≡ 256 * 256 ^ k = omega arith in
    let rest = from_le-to_le k (n / 256) (omega (arith, h, wide)) in omega (arith, rest)

pub from_le-to_le_4 : (n : ℕ) → n < 2 ^ 32 → from_le (to_le 4 n) ≡ n
from_le-to_le_4 n h = from_le-to_le 4 n (omega (arith, h))

pub length-to_le : (k n : ℕ) → length (to_le k n) ≡ k
length-to_le zero n = refl
length-to_le (suc k) n = ap (λ i. suc i) (length-to_le k (n / 256))

module _ {A : Type 0} where
  pub append_assoc : (a b c : List A) → ((a ++ b) ++ c) ≡ (a ++ (b ++ c))
  append_assoc [] b c = refl
  append_assoc (x ∷ a) b c = ap (λ s. x ∷ s) (append_assoc a b c)

  take-append-le : (n : ℕ) (a b : List A) → n ≤ length a → take n (a ++ b) ≡ take n a
  take-append-le zero a b h = refl
  take-append-le (suc n) [] b h = absurd (omega (arith, h))
  take-append-le (suc n) (x ∷ a) b h = ap (λ s. x ∷ s) (take-append-le n a b (omega (arith, h)))

  -- A range inside the first of two parts.
  pub range_first :
      (n o : ℕ) (a b : List A) → o + n ≤ length a → take n (drop o (a ++ b)) ≡ take n (drop o a)
  range_first n zero a b h = take-append-le n a b (omega (arith, h))
  range_first n (suc o) [] b h = absurd (omega (arith, h))
  range_first n (suc o) (x ∷ a) b h = range_first n o a b (omega (arith, h))

  -- A range inside the second of two parts.
  pub drop-append : (k : ℕ) (a b : List A) → drop (length a + k) (a ++ b) ≡ drop k b
  drop-append k [] b = ap (λ i. drop i b) (omega arith)
  drop-append k (x ∷ a) b = ap (λ i. drop i (x ∷ (a ++ b))) next ∙ drop-append k a b
    where
      next : suc (length a) + k ≡ suc (length a + k)
      next = omega arith

module _ {A : Type 0} (f : A → Bytes) (w : ℕ) where
  module _ (size : (x : A) → length (f x) ≡ w) where
    pub length-concat_map : (xs : List A) → length (concat_map f xs) ≡ length xs * w
    length-concat_map [] = omega arith
    length-concat_map (x ∷ xs) =
        let more : suc (length xs) * w ≡ w + length xs * w = ring_step (length xs) w in
        length-append (f x) (concat_map f xs) ∙ rw (size x, length-concat_map xs, more) refl
      where
        ring_step : (n m : ℕ) → suc n * m ≡ m + n * m
        ring_step n m = omega arith

    -- A range inside one of the items.
    pub range_item :
        (xs : List A) (i n o : ℕ) (x : A) (tail : Bytes)
        → get_elem? xs i ≡ some x
        → o + n ≤ w
        → take n (drop (i * w + o) (concat_map f xs ++ tail)) ≡ take n (drop o (f x))
    range_item [] i n o x tail e h = absurd (cc e)
    range_item (y ∷ ys) zero n o x tail e h =
        let same : y ≡ x = cc e in
        let at : 0 * w + o ≡ o = omega arith in
        rw (append_assoc (f y) (concat_map f ys) tail, at)
          (range_first n o (f y) (concat_map f ys ++ tail) (omega (arith, h, size y))
            ∙ ap (λ z. take n (drop o (f z))) same)
    range_item (y ∷ ys) (suc i) n o x tail e h =
        let at : suc i * w + o ≡ length (f y) + (i * w + o) = rw (size y) (step i w o) in
        rw (append_assoc (f y) (concat_map f ys) tail, at)
          (ap (take n) (drop-append (i * w + o) (f y) (concat_map f ys ++ tail))
            ∙ range_item ys i n o x tail e h)
      where
        step : (i w o : ℕ) → suc i * w + o ≡ w + (i * w + o)
        step i w o = omega arith

pub length-record_bytes : (p : Placed) → length (record_bytes p) ≡ record_size
length-record_bytes p = refl

-- Every number of the table fits in four bytes.
abbrev pub AreSmall : List (ℕ × ℕ) → Type 0
AreSmall [] = Unit
AreSmall (bucket ∷ buckets) = (bucket.0 < 2 ^ 32) × (bucket.1 < 2 ^ 32) × AreSmall buckets

-- The table of the buckets is read as it was written.
pub read_buckets-concat_map :
    (buckets : List (ℕ × ℕ)) (front tail : Bytes)
    → AreSmall buckets
    → read_buckets
        (length buckets)
        (front ++ (concat_map bucket_bytes buckets ++ tail))
        (length front)
      ≡ buckets
read_buckets-concat_map [] front tail v = refl
read_buckets-concat_map ((off, count) ∷ buckets) front tail (small, few, rest) =
    let whole = concat_map bucket_bytes ((off, count) ∷ buckets) ++ tail in
    let start : length front + 0 ≡ length front = omega arith in
    let offset : u32_at (front ++ whole) (length front) ≡ off =
      ap (λ i. u32_at (front ++ whole) i) (sym start)
      ∙ ap (λ s. from_le (take 4 s)) (drop-append 0 front whole)
      ∙ from_le-to_le_4 off small in
    let number : u32_at (front ++ whole) (length front + 4) ≡ count =
      ap (λ s. from_le (take 4 s)) (drop-append 4 front whole) ∙ from_le-to_le_4 count few in
    let longer : length front + 8 ≡ length (front ++ bucket_bytes (off, count)) =
      sym (length-append front (bucket_bytes (off, count))) in
    let later : read_buckets (length buckets) (front ++ whole) (length front + 8) ≡ buckets =
      rw longer (
        ap (λ s. read_buckets (length buckets) s (length (front ++ bucket_bytes (off, count))))
          (sym (
            append_assoc front (bucket_bytes (off, count))
              (concat_map bucket_bytes buckets ++ tail)))
        ∙ read_buckets-concat_map buckets (front ++ bucket_bytes (off, count)) tail rest) in
    rw (offset, number, later) refl
