-- ===== src/Dns/ResponseCache/Bounds.antt =====
-- How many answers the cache of src/modules/dns/mod.rs holds.
use shield_ghita.Prelude.{
  ℕ, suc, ◌-◌, ◌≤◌, ◌<◌, ◌≡◌, refl, ap, inl, inr, Bool, [], ◌∷◌, map, arith, Bytes, nat_eq,
  bytes_eq, pair_eq, ltb, Bool-cases, length, retain, length-retain-le, sort_by_rank, remove_all,
  length-sort_by_rank, sort_by_rank-IsIn, remove_some, not_ltb→le, ltb→lt, map-IsIn,
}
use shield_ghita.Dns.ResponseCache.{
  CachedResponse, ResponseCache, stays_live, oldest_entries, shed_entries,
}

length-ranks :
    (m : ResponseCache) (f : (Bytes × ℕ) × CachedResponse → (Bytes × ℕ) × ℕ)
    → length (map f m) ≡ length m
length-ranks [] f = refl
length-ranks (x ∷ m) f = ap suc (length-ranks m f)

-- Over 5500 entries at least one goes.
remove_oldest :
    (live : ResponseCache)
    → 5000 < length live
    → length (remove_all (oldest_entries live) live) < length live
remove_oldest live many =
    let aged : (Bytes × ℕ) × CachedResponse → (Bytes × ℕ) × ℕ =
      λ entry. (entry.0, entry.1.inserted) in
    let sorted = sort_by_rank (map aged live) in
    let (n, e) = some_excess in
    rw e (
      remove_some n sorted live
        (λ y i.
          let (entry, j, same) = map-IsIn aged y live (sort_by_rank-IsIn (map aged live) y i) in
          (entry.1, rw (ap (λ x. x.0) same) j))
        (omega (arith, many, length-sort_by_rank (map aged live), length-ranks live aged)))
  where
    some_excess : (n : ℕ) × (length live - 5000 ≡ suc n)
    some_excess = (length live - 5001, omega (arith, many))

pub length-shed_entries-le :
    (cache : ResponseCache) (now : ℕ) → length cache ≤ 5501 → length (shed_entries cache now) ≤ 5500
unfolding shed_entries
length-shed_entries-le cache now bound =
    let fresh : (Bytes × ℕ) × CachedResponse → Bool = λ entry. stays_live now entry.1 in
    elim (Bool-cases (ltb 5000 (length cache))) [
      | inr small ↦ rw small (omega (arith, not_ltb→le _ _ small))
      | inl large ↦ elim (Bool-cases (ltb 5500 (length (retain fresh cache)))) [
        | inr few ↦ rw (large, few) (not_ltb→le _ _ few)
        | inl many ↦
            rw (large, many)
              (omega (
                arith,
                bound,
                length-retain-le fresh cache,
                remove_oldest (retain fresh cache) (omega (arith, ltb→lt _ _ many)),
              ))
      ]
    ]
