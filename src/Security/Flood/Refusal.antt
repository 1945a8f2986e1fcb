-- ===== src/Security/Flood/Refusal.antt =====
-- What the histories of src/modules/security/mod.rs hold at most, and what follows a refused query.
use shield_ghita.Prelude.{
  ℕ, ◌-◌, ◌≤◌, inl, inr, List, [], ◌∷◌, arith, Bytes, nat_eq, bytes_eq, pair_eq, Bool-cases, length,
  IsIn, length-drop, IsUnique,
}
use shield_ghita.Security.Engine.{is_loopback}
use shield_ghita.Security.Flood.{
  prune_history, recent_queries, keep_after, count_query, started_with, hard_limit,
}
use shield_ghita.Security.Flood.Entries.{count_query-IsIn, count_query-IsUnique}
use shield_ghita.Security.Flood.Eviction.{length-count_query-le}
use shield_ghita.Security.Flood.Fair.{after_queries, enforce-history, after_queries-same_limit}

-- The histories of a started engine: at most 1001 sources, each once and with no more queries than
-- its limit.
pub record IsBounded (base : ℕ) (hist : List (Bytes × List ℕ)) : Type 0 where
  pub sources : length hist ≤ 1001
  pub unique : IsUnique hist
  pub queries : (x : Bytes × List ℕ) → IsIn x hist → length x.1 ≤ hard_limit base x.0

pub hard_limit-ge : (base : ℕ) (ip : Bytes) → 200 ≤ hard_limit base ip
unfolding hard_limit
hard_limit-ge base ip = elim (Bool-cases (is_loopback ip)) [
  | inl h ↦ rw h (omega arith)
  | inr h ↦ rw h (omega arith)
]

length-keep_after-le : (limit : ℕ) (ts : List ℕ) → 10 ≤ limit → length (keep_after limit ts) ≤ limit
length-keep_after-le limit ts h = ground (arith, length-drop (length ts - 10) ts)

count_query-IsBounded :
    (base : ℕ) (hist : List (Bytes × List ℕ)) (ip : Bytes) (now : ℕ)
    → IsBounded base hist
    → IsBounded base (count_query (hard_limit base ip) hist ip now).0
count_query-IsBounded base hist ip now b = record {
  sources = length-count_query-le (hard_limit base ip) hist ip now b.sources;
  unique = count_query-IsUnique (hard_limit base ip) hist ip now b.unique;
  queries = λ x i. elim (count_query-IsIn (hard_limit base ip) hist ip now x i) [
    | inl same ↦ rw same (
        length-keep_after-le (hard_limit base ip) (recent_queries (prune_history hist now) ip now)
          (omega (arith, hard_limit-ge base ip)))
    | inr old ↦ b.queries x old
  ];
}

-- Whatever queries the engine has seen since it started, its hard history holds at most 1001 sources,
-- each once, and for none of them more queries than the source's limit.
pub after_queries-IsBounded :
    (base : ℕ) (log : List (Bytes × ℕ))
    → IsBounded base (after_queries (started_with base) log).hard_query_history
unfolding after_queries
after_queries-IsBounded base [] = record {
  sources = omega arith;
  unique = tt;
  queries = λ x i. absurd i;
}
after_queries-IsBounded base ((ip, now) ∷ log) =
    let start = started_with base in
    let e = after_queries start log in
    rw ((enforce-history e ip now).0, after_queries-same_limit start log)
      (count_query-IsBounded base e.hard_query_history ip now (after_queries-IsBounded base log))
