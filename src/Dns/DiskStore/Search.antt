-- ===== src/Dns/DiskStore/Search.antt =====
-- The search in a bucket of src/modules/dns/disk_store.rs finds what a look at every record finds.
use shield_ghita.Prelude.{
  ℕ, zero, suc, ◌+◌, ◌-◌, ◌*◌, ◌/◌, ◌≤◌, ◌<◌, ◌≡◌, refl, sym, ap, ◌∙◌, ◌≢◌, inl, inr, Bool, true,
  false, ◌||◌, some, arith, Bytes, ◌==◌, nat_eq, bytes_eq, pair_eq, ltb, leb, if◌then◌else◌,
  Bool-cases, length, take, drop, nat_beq_iff, not_ltb→le, ltb→lt,
}
use shield_ghita.Dns.DiskStore.{
  DiskBlocklist, record_size, from_le, hash_at, SearchResult, malformed, absent, unfinished, found,
  search_hash, check_match, scan_back, scan_on, match_near, find_in_bucket,
}

-- Whether some of the numbers `j`, …, `j + n - 1` passes the test.
abbrev pub any_from : ℕ → ℕ → (ℕ → Bool) → Bool
any_from zero j p = false
any_from (suc n) j p = p j || any_from n (j + 1) p

any_from_none :
    (n j : ℕ) (p : ℕ → Bool) → ((i : ℕ) → j ≤ i → i < j + n → p i ≡ false) → any_from n j p ≡ false
any_from_none zero j p h = refl
any_from_none (suc n) j p h =
    let here : p j ≡ false = h j (omega arith) (omega arith) in
    let rest =
      any_from_none n (j + 1) p (λ i low high. h i (omega (arith, low)) (omega (arith, high))) in
    rw (here, rest) refl

any_from_append :
    (a b j : ℕ) (p : ℕ → Bool) → any_from (a + b) j p ≡ (any_from a j p || any_from b (j + a) p)
any_from_append zero b j p =
    let same : j + 0 ≡ j = omega arith in
    let plain : 0 + b ≡ b = omega arith in rw (same, plain) refl
any_from_append (suc a) b j p =
    let more : suc a + b ≡ suc (a + b) = omega arith in
    let next : j + 1 + a ≡ j + suc a = omega arith in
    rw (more, any_from_append a b (j + 1) p, next) (or_assoc (p j) _ _)
  where
    or_assoc : (x y z : Bool) → (x || (y || z)) ≡ ((x || y) || z)
    or_assoc x y z = ground arith

any_from_snoc : (i : ℕ) (p : ℕ → Bool) → any_from (suc i) 0 p ≡ (any_from i 0 p || p i)
any_from_snoc i p =
    let more : suc i ≡ i + 1 = omega arith in
    let at : 0 + i ≡ i = omega arith in
    ap (λ n. any_from n 0 p) more ∙ any_from_append i 1 0 p ∙ rw at (last (any_from i 0 p) (p i))
  where
    last : (a b : Bool) → (a || (b || false)) ≡ (a || b)
    last a b = ground arith

swap : (a b : Bool) → (if a then true else b) ≡ (b || a)
swap a b = ground arith

either : (a b : Bool) → (if a then true else b) ≡ (a || b)
either a b = ground arith

near : (a b c : Bool) → (if a then true else if b then true else c) ≡ (b || (a || c))
near a b c = ground arith

module _ (d : DiskBlocklist) (buf domain : Bytes) (target count : ℕ) where
  -- The hash of a record.
  abbrev pub record_hash : ℕ → ℕ
  record_hash i = from_le (take 8 (drop (i * record_size) buf))

  -- A bucket: its records, whose hashes go up.
  pub record IsBucket : Type 0 where
    pub whole : length buf ≡ count * record_size
    pub sorted : (i j : ℕ) → i ≤ j → j < count → record_hash i ≤ record_hash j

  module _ (v : IsBucket) where
    hash_at-some : (i : ℕ) → i < count → hash_at buf i ≡ some (record_hash i)
    hash_at-some i h =
        let inside : leb (i * record_size + 8) (length buf) ≡ true = ground (arith, v.whole) in
        rw (inside, hash_at) refl

    -- What a search must find.
    abbrev Answers : SearchResult → Type 0
    Answers (found i) = (i < count) × (record_hash i ≡ target)
    Answers absent = (i : ℕ) → i < count → record_hash i ≢ target
    Answers malformed = ⊥
    Answers unfinished = ⊥

    differs : (i : ℕ) → (record_hash i == target) ≡ false → record_hash i ≢ target
    differs i other e = ground (arith, other, (nat_beq_iff (record_hash i) target).1 e)

    nowhere :
        (low high : ℕ)
        → high ≤ low
        → ((i : ℕ) → i < low → record_hash i < target)
        → ((i : ℕ) → high ≤ i → i < count → target < record_hash i)
        → (i : ℕ) → i < count
        → record_hash i ≢ target
    nowhere low high met below above i h e = elim (Bool-cases (ltb i low)) [
      | inl under ↦ absurd (omega (arith, below i (ltb→lt _ _ under), e))
      | inr over ↦ absurd (omega (arith, above i (omega (arith, met, not_ltb→le _ _ over)) h, e))
    ]

    search_hash-Answers :
        (rounds low high : ℕ)
        → high ≤ count
        → low ≤ high
        → high - low ≤ rounds
        → ((i : ℕ) → i < low → record_hash i < target)
        → ((i : ℕ) → high ≤ i → i < count → target < record_hash i)
        → Answers (search_hash rounds buf target low high)
    unfolding search_hash
    search_hash-Answers zero low high in_count le fuel below above =
        elim (Bool-cases (ltb low high)) [
          | inl more ↦ absurd (omega (arith, fuel, ltb→lt _ _ more))
          | inr met ↦ rw met (nowhere low high (not_ltb→le _ _ met) below above)
        ]
    search_hash-Answers (suc rounds) low high in_count le fuel below above =
        elim (Bool-cases (ltb low high)) [
          | inr met ↦ rw met (nowhere low high (not_ltb→le _ _ met) below above)
          | inl more ↦
              let lt = ltb→lt _ _ more in
              let mid = low + (high - low) / 2 in
              let inside : mid < count = omega (arith, lt, in_count) in
              elim (Bool-cases (record_hash mid == target)) [
                | inl same ↦
                    rw (more, hash_at-some mid inside, same) (inside, (nat_beq_iff _ _).0 same)
                | inr other ↦ elim (Bool-cases (ltb (record_hash mid) target)) [
                  | inl small ↦
                      rw (more, hash_at-some mid inside, other, small)
                        (search_hash-Answers rounds (mid + 1) high in_count (omega (arith, lt))
                          (omega (arith, lt, fuel))
                          (λ i h.
                            omega
                              (arith, v.sorted i mid (omega (arith, h)) inside, ltb→lt _ _ small))
                          above)
                  | inr large ↦
                      rw (more, hash_at-some mid inside, other, large)
                        (search_hash-Answers rounds low mid (omega (arith, inside)) (omega arith)
                          (omega (arith, lt, fuel)) below
                          (λ i h k.
                            omega
                              (arith, v.sorted mid i h k, not_ltb→le _ _ large, differs mid other)))
                ]
              ]
        ]

    abbrev check : ℕ → Bool
    check = check_match d buf domain target

    check_other : (i : ℕ) → i < count → record_hash i ≢ target → check i ≡ false
    unfolding check_match
    check_other i h ne = elim (Bool-cases (record_hash i == target)) [
      | inl same ↦ absurd (ne ((nat_beq_iff _ _).0 same))
      | inr other ↦ rw (hash_at-some i h, other, check_match) refl
    ]

    scan_back-any_from :
        (at : ℕ) (i : ℕ)
        → record_hash at ≡ target
        → at < count
        → i ≤ at
        → scan_back buf target check i ≡ any_from i 0 check
    unfolding scan_back
    scan_back-any_from at zero e inside le = refl
    scan_back-any_from at (suc i) e inside le =
        let here : i < count = omega (arith, inside, le) in
        let rest = scan_back-any_from at i e inside (omega (arith, le)) in
        elim (Bool-cases (record_hash i == target)) [
          | inl same ↦
              rw (hash_at-some i here, same, rest, scan_back, any_from_snoc i check)
                (swap (check i) _)
          | inr other ↦
              let small : record_hash i < target =
                omega (arith, v.sorted i at (omega (arith, le)) inside, e, differs i other) in
              let none_below = any_from_none i 0 check (λ k low high.
                let k_in : k < count = omega (arith, high, here) in
                check_other k k_in
                  (λ same. omega (arith, v.sorted k i (omega (arith, high)) here, small, same))) in
              rw
                (
                  hash_at-some i here,
                  other,
                  scan_back,
                  any_from_snoc i check,
                  none_below,
                  check_other i here (λ same. omega (arith, small, same)),
                )
                refl
        ]

    scan_on-any_from :
        (at n j : ℕ)
        → record_hash at ≡ target
        → at < j
        → j + n ≤ count
        → scan_on buf target check n j ≡ any_from n j check
    unfolding scan_on
    scan_on-any_from at zero j e after le = refl
    scan_on-any_from at (suc n) j e after le =
        let here : j < count = omega (arith, le) in
        let rest = scan_on-any_from at n (j + 1) e (omega (arith, after)) (omega (arith, le)) in
        elim (Bool-cases (record_hash j == target)) [
          | inl same ↦ rw (hash_at-some j here, same, rest, scan_on) (either (check j) _)
          | inr other ↦
              let large : target < record_hash j =
                omega (arith, v.sorted at j (omega (arith, after)) here, e, differs j other) in
              let none_above = any_from_none (suc n) j check (λ k low high.
                let k_in : k < count = omega (arith, high, le) in
                check_other k k_in (λ same. omega (arith, v.sorted j k low k_in, large, same))) in
              rw (hash_at-some j here, other, scan_on) (sym none_above)
        ]

    match_near-any_from :
        (result : SearchResult)
        → Answers result
        → match_near buf target check count result ≡ any_from count 0 check
    match_near-any_from (found i) (inside, e) =
        let after = count - (i + 1) in
        let split : i + suc after ≡ count = omega (arith, inside) in
        let at : 0 + i ≡ i = omega arith in
        let whole : any_from count 0 check
            ≡ (any_from i 0 check || (check i || any_from after (i + 1) check)) =
          ap (λ n. any_from n 0 check) (sym split)
          ∙ any_from_append i (suc after) 0 check
          ∙ rw at refl in
        rw
          (
            whole,
            scan_back-any_from i i e inside (omega arith),
            scan_on-any_from i after (i + 1) e (omega arith) (omega (arith, inside)),
          )
          (near (check i) _ _)
    match_near-any_from absent none_equal = sym (
        any_from_none count 0 check
          (λ k low high. check_other k (omega (arith, high)) (none_equal k (omega (arith, high)))))
    match_near-any_from malformed never = absurd never
    match_near-any_from unfinished never = absurd never

    -- In a bucket whose hashes go up, the binary search with its scans finds a domain exactly if one of
    -- the records matches it: no matching record is missed, even among equal hashes.
    pub find_in_bucket-any_from :
        find_in_bucket d buf domain target count
        ≡ any_from count 0 (check_match d buf domain target)
    unfolding find_in_bucket
    find_in_bucket-any_from = match_near-any_from (search_hash count buf target 0 count) (
        search_hash-Answers count 0 count (omega arith) (omega arith) (omega arith)
          (λ i h. absurd (omega (arith, h))) (λ i h k. absurd (omega (arith, h, k))))
