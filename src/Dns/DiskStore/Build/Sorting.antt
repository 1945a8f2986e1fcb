-- ===== src/Dns/DiskStore/Build/Sorting.antt =====
-- The sort of src/modules/dns/disk_store.rs before a build: what it keeps, and the order it leaves.
use shield_ghita.Prelude.{
  ℕ, zero, suc, ◌+◌, ◌≤◌, ◌≡◌, refl, sym, ap, ◌∙◌, inl, inr, Bool, ◌||◌, some, List, [], ◌∷◌, arith,
  Bytes, ◌==◌, nat_eq, bytes_eq, pair_eq, Bool-cases, any, length, get_elem?, retain, bytes_beq_iff,
}
use shield_ghita.Dns.FastCache.{hash_domain}
use shield_ghita.Dns.DiskStore.Build.{insert_by, sort_by, text_le, dedup, hash_le, prepare, place}

module _ {A : Type 0} where
  any-insert_by :
      (le : A → A → Bool) (p : A → Bool) (x : A) (xs : List A)
      → any p (insert_by le x xs) ≡ (p x || any p xs)
  any-insert_by le p x [] = refl
  any-insert_by le p x (y ∷ ys) = ground (arith, any-insert_by le p x ys)

  any-sort_by : (le : A → A → Bool) (p : A → Bool) (xs : List A) → any p (sort_by le xs) ≡ any p xs
  any-sort_by le p [] = refl
  any-sort_by le p (x ∷ xs) = any-insert_by le p x (sort_by le xs) ∙ rw (any-sort_by le p xs) refl

  length-insert_by :
      (le : A → A → Bool) (x : A) (xs : List A) → length (insert_by le x xs) ≡ suc (length xs)
  length-insert_by le x [] = refl
  length-insert_by le x (y ∷ ys) = ground (arith, length-insert_by le x ys)

  length-sort_by : (le : A → A → Bool) (xs : List A) → length (sort_by le xs) ≡ length xs
  length-sort_by le [] = refl
  length-sort_by le (x ∷ xs) =
      length-insert_by le x (sort_by le xs) ∙ rw (length-sort_by le xs) refl

  -- The numbers of the items go up, from this one on.
  abbrev pub IsAscending : (A → ℕ) → ℕ → List A → Type 0
  IsAscending key low [] = Unit
  IsAscending key low (x ∷ xs) = (low ≤ key x) × IsAscending key (key x) xs

  IsAscending-weaken :
      (key : A → ℕ) (low high : ℕ) (xs : List A)
      → low ≤ high
      → IsAscending key high xs
      → IsAscending key low xs
  IsAscending-weaken key low high [] h v = tt
  IsAscending-weaken key low high (x ∷ xs) h (first, rest) = (omega (arith, first), rest)

  pub IsAscending-retain :
      (key : A → ℕ) (p : A → Bool) (low : ℕ) (xs : List A)
      → IsAscending key low xs
      → IsAscending key low (retain p xs)
  IsAscending-retain key p low [] v = tt
  IsAscending-retain key p low (x ∷ xs) (first, rest) = elim (Bool-cases (p x)) [
    | inl kept ↦ rw kept (first, IsAscending-retain key p (key x) xs rest)
    | inr dropped ↦ rw dropped (
        IsAscending-weaken key low (key x) (retain p xs) first
          (IsAscending-retain key p (key x) xs rest))
  ]

  pub IsAscending-bound :
      (key : A → ℕ) (low : ℕ) (xs : List A) (j : ℕ) (y : A)
      → IsAscending key low xs
      → get_elem? xs j ≡ some y
      → low ≤ key y
  IsAscending-bound key low [] j y v e = absurd (cc e)
  IsAscending-bound key low (x ∷ xs) zero y (first, rest) e =
      let same : x ≡ y = cc e in rw (sym same) first
  IsAscending-bound key low (x ∷ xs) (suc j) y (first, rest) e =
      omega (arith, first, IsAscending-bound key (key x) xs j y rest e)

  pub IsAscending-get_elem? :
      (key : A → ℕ) (low : ℕ) (xs : List A) (i j : ℕ) (x y : A)
      → IsAscending key low xs
      → i ≤ j
      → get_elem? xs i ≡ some x
      → get_elem? xs j ≡ some y
      → key x ≤ key y
  IsAscending-get_elem? key low [] i j x y v h e f = absurd (cc e)
  IsAscending-get_elem? key low (z ∷ zs) zero zero x y v h e f =
      let same : x ≡ y = cc (e, f) in rw same (omega arith)
  IsAscending-get_elem? key low (z ∷ zs) zero (suc j) x y (first, rest) h e f =
      let same : z ≡ x = cc e in rw (sym same) (IsAscending-bound key (key z) zs j y rest f)
  IsAscending-get_elem? key low (z ∷ zs) (suc i) zero x y v h e f = absurd (omega (arith, h))
  IsAscending-get_elem? key low (z ∷ zs) (suc i) (suc j) x y (first, rest) h e f =
      IsAscending-get_elem? key (key z) zs i j x y rest (omega (arith, h)) e f

any-dedup : (p : Bytes → Bool) (xs : List Bytes) → any p (dedup xs) ≡ any p xs
any-dedup p [] = refl
any-dedup p (x ∷ []) = refl
any-dedup p (x ∷ y ∷ ys) = elim (Bool-cases (x == y)) [
  | inl same ↦
      rw (same, any-dedup p (y ∷ ys), ap p ((bytes_beq_iff x y).0 same)) (again (p y) (any p ys))
  | inr other ↦ rw (other, any-dedup p (y ∷ ys)) refl
]
  where
    again : (a b : Bool) → (a || b) ≡ (a || (a || b))
    again a b = ground arith

length-dedup-le : (xs : List Bytes) → length (dedup xs) ≤ length xs
length-dedup-le [] = omega arith
length-dedup-le (x ∷ []) = omega arith
length-dedup-le (x ∷ y ∷ ys) = ground (arith, length-dedup-le (y ∷ ys))

-- What is prepared passes the same tests.
pub any-prepare :
    (p : Bytes → Bool) (domains : List Bytes) → any p (prepare domains) ≡ any p domains
unfolding prepare
any-prepare p domains = any-sort_by hash_le p _ ∙ any-dedup p _ ∙ any-sort_by text_le p domains

pub length-prepare-le : (domains : List Bytes) → length (prepare domains) ≤ length domains
unfolding prepare
length-prepare-le domains = omega (
  arith,
  length-sort_by hash_le (dedup (sort_by text_le domains)),
  length-dedup-le (sort_by text_le domains),
  length-sort_by text_le domains,
)

insert_by-IsAscending :
    (low : ℕ) (x : Bytes) (xs : List Bytes)
    → low ≤ hash_domain x
    → IsAscending hash_domain low xs
    → IsAscending hash_domain low (insert_by hash_le x xs)
insert_by-IsAscending low x [] h v = (h, tt)
insert_by-IsAscending low x (y ∷ ys) h (first, rest) = elim (Bool-cases (hash_le x y)) [
  | inl before ↦
      let order : hash_domain x ≤ hash_domain y = ground (arith, before) in
      rw before (h, (order, rest))
  | inr after ↦
      let order : hash_domain y ≤ hash_domain x = ground (arith, after) in
      rw after (first, insert_by-IsAscending (hash_domain y) x ys order rest)
]

sort_by-IsAscending : (xs : List Bytes) → IsAscending hash_domain 0 (sort_by hash_le xs)
sort_by-IsAscending [] = tt
sort_by-IsAscending (x ∷ xs) =
    insert_by-IsAscending 0 x (sort_by hash_le xs) (omega arith) (sort_by-IsAscending xs)

place-IsAscending :
    (low off : ℕ) (ds : List Bytes)
    → IsAscending hash_domain low ds
    → IsAscending (λ p. p.hash) low (place off ds)
place-IsAscending low off [] v = tt
place-IsAscending low off (d ∷ ds) (first, rest) =
    (first, place-IsAscending (hash_domain d) (off + length d) ds rest)

-- The placed domains stand in the order of their hashes.
pub prepare-IsAscending :
    (domains : List Bytes) → IsAscending (λ p. p.hash) 0 (place 0 (prepare domains))
unfolding prepare
prepare-IsAscending domains =
    place-IsAscending 0 0 _ (sort_by-IsAscending (dedup (sort_by text_le domains)))
