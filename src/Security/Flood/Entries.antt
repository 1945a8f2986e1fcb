-- ===== src/Security/Flood/Entries.antt =====
-- The entries that a counted query leaves in a history of src/modules/security/mod.rs.
use shield_ghita.Prelude.{
  ℕ, ◌≡◌, ◌⊎◌, inl, inr, Bool, List, Bytes, nat_eq, bytes_eq, pair_eq, ltb, leb, Bool-cases, any,
  length, retain, IsIn, retain-IsIn, remove_all-IsIn, remove_all-IsUnique, IsUnique, insert-IsIn,
  insert-IsUnique, retain-IsUnique,
}
use shield_ghita.Security.Flood.{
  is_recent, oldest_keys, evict_oldest_ips, prune_history, recent_queries, keep_after, count_query,
}

evict_oldest_ips-IsIn :
    (hist : List (Bytes × List ℕ)) (count : ℕ) (x : Bytes × List ℕ)
    → IsIn x (evict_oldest_ips hist count)
    → IsIn x hist
unfolding evict_oldest_ips
evict_oldest_ips-IsIn hist count x i = elim (Bool-cases (leb (length hist) count)) [
  | inl small ↦ rw small at i
  | inr large ↦ remove_all-IsIn (oldest_keys hist count) hist x (rw large at i)
]

evict_oldest_ips-IsUnique :
    (hist : List (Bytes × List ℕ)) (count : ℕ)
    → IsUnique hist
    → IsUnique (evict_oldest_ips hist count)
unfolding evict_oldest_ips
evict_oldest_ips-IsUnique hist count u = elim (Bool-cases (leb (length hist) count)) [
  | inl small ↦ rw small u
  | inr large ↦ rw large (remove_all-IsUnique (oldest_keys hist count) hist u)
]

pub prune_history-IsIn :
    (hist : List (Bytes × List ℕ)) (now : ℕ) (x : Bytes × List ℕ)
    → IsIn x (prune_history hist now)
    → IsIn x hist
unfolding prune_history
prune_history-IsIn hist now x i =
    let live : Bytes × List ℕ → Bool = λ entry. any (is_recent now) entry.1 in
    elim (Bool-cases (ltb 1000 (length hist))) [
      | inr small ↦ rw small at i
      | inl large ↦ elim (Bool-cases (ltb 1000 (length (retain live hist)))) [
        | inr few ↦ (retain-IsIn live x hist (rw (large, few) at i)).0
        | inl many ↦
            (retain-IsIn live x hist (evict_oldest_ips-IsIn _ 256 x (rw (large, many) at i))).0
      ]
    ]

pub prune_history-IsUnique :
    (hist : List (Bytes × List ℕ)) (now : ℕ) → IsUnique hist → IsUnique (prune_history hist now)
unfolding prune_history
prune_history-IsUnique hist now u =
    let live : Bytes × List ℕ → Bool = λ entry. any (is_recent now) entry.1 in
    elim (Bool-cases (ltb 1000 (length hist))) [
      | inr small ↦ rw small u
      | inl large ↦ elim (Bool-cases (ltb 1000 (length (retain live hist)))) [
        | inr few ↦ rw (large, few) (retain-IsUnique live hist u)
        | inl many ↦
            rw (large, many) (evict_oldest_ips-IsUnique _ 256 (retain-IsUnique live hist u))
      ]
    ]

-- The entry of the source is new, and every other was there.
pub count_query-IsIn :
    (limit : ℕ) (hist : List (Bytes × List ℕ)) (ip : Bytes) (now : ℕ) (x : Bytes × List ℕ)
    → IsIn x (count_query limit hist ip now).0
    → (x ≡ (ip, keep_after limit (recent_queries (prune_history hist now) ip now))) ⊎ IsIn x hist
unfolding count_query
count_query-IsIn limit hist ip now x i =
    elim (insert-IsIn ip (keep_after limit (recent_queries (prune_history hist now) ip now))
      (prune_history hist now) x i) [
        | inl same ↦ inl same
        | inr old ↦ inr (prune_history-IsIn hist now x old)
      ]

pub count_query-IsUnique :
    (limit : ℕ) (hist : List (Bytes × List ℕ)) (ip : Bytes) (now : ℕ)
    → IsUnique hist
    → IsUnique (count_query limit hist ip now).0
unfolding count_query
count_query-IsUnique limit hist ip now u =
    insert-IsUnique ip (keep_after limit (recent_queries (prune_history hist now) ip now))
      (prune_history hist now) (prune_history-IsUnique hist now u)
