-- ===== src/Security/Flood/Eviction.antt =====
-- How many sources the histories of src/modules/security/mod.rs hold.
use shield_ghita.Prelude.{
  ℕ, suc, ◌≤◌, ◌<◌, ◌≡◌, refl, ap, inl, inr, false, List, [], ◌∷◌, map, arith, Bytes, nat_eq,
  bytes_eq, pair_eq, ltb, leb, Bool-cases, any, length, retain, length-insert-le, length-retain-le,
  sort_by_rank, length-sort_by_rank, sort_by_rank-IsIn, remove_some, not_ltb→le, ltb→lt, map-IsIn,
}
use shield_ghita.Security.Flood.{
  is_recent, newest, evict_oldest_ips, prune_history, recent_queries, keep_after, count_query,
}

length-map :
    (m : List (Bytes × List ℕ)) (f : Bytes × List ℕ → Bytes × ℕ) → length (map f m) ≡ length m
length-map [] f = refl
length-map (x ∷ m) f = ap suc (length-map m f)

length-evict_oldest_ips-lt :
    (hist : List (Bytes × List ℕ)) (count : ℕ)
    → suc count < length hist
    → length (evict_oldest_ips hist (suc count)) < length hist
unfolding evict_oldest_ips
length-evict_oldest_ips-lt hist count large =
    let aged : Bytes × List ℕ → Bytes × ℕ = λ entry. (entry.0, newest entry.1) in
    let sorted = sort_by_rank (map aged hist) in
    rw (not_small large) (
      remove_some count sorted hist
        (λ y i.
          let (entry, j, same) = map-IsIn aged y hist (sort_by_rank-IsIn (map aged hist) y i) in
          (entry.1, rw (ap (λ x. x.0) same) j))
        (omega (arith, large, length-sort_by_rank (map aged hist), length-map hist aged)))
  where
    not_small : suc count < length hist → leb (length hist) (suc count) ≡ false
    not_small lt = ground (arith, lt)

length-prune_history-le :
    (hist : List (Bytes × List ℕ)) (now : ℕ)
    → length hist ≤ 1001
    → length (prune_history hist now) ≤ 1000
unfolding prune_history
length-prune_history-le hist now bound =
    let live = retain (λ entry. any (is_recent now) entry.1) hist in
    elim (Bool-cases (ltb 1000 (length hist))) [
      | inr small ↦ rw small (not_ltb→le _ _ small)
      | inl large ↦ elim (Bool-cases (ltb 1000 (length live))) [
        | inr few ↦ rw (large, few) (not_ltb→le _ _ few)
        | inl many ↦
            rw (large, many)
              (omega (
                arith,
                bound,
                length-retain-le (λ entry. any (is_recent now) entry.1) hist,
                length-evict_oldest_ips-lt live 255 (omega (arith, ltb→lt _ _ many)),
              ))
      ]
    ]

pub length-count_query-le :
    (limit : ℕ) (hist : List (Bytes × List ℕ)) (ip : Bytes) (now : ℕ)
    → length hist ≤ 1001
    → length (count_query limit hist ip now).0 ≤ 1001
unfolding count_query
length-count_query-le limit hist ip now bound = omega (
  arith,
  length-prune_history-le hist now bound,
  length-insert-le ip (keep_after limit (recent_queries (prune_history hist now) ip now))
      (prune_history hist now),
)
