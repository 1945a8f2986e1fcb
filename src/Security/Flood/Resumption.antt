-- ===== src/Security/Flood/Resumption.antt =====
-- How many queries pass in src/modules/security/mod.rs after one that was refused.
use shield_ghita.Prelude.{
  ℕ, ◌+◌, ◌-◌, ◌≤◌, ◌<◌, ◌≡◌, refl, sym, ap, ◌∙◌, inl, inr, true, false, List, [], ◌∷◌, arith,
  Bytes, ◌==◌, nat_eq, bytes_eq, pair_eq, Bool-cases, Option-cases, length, bytes_beq_iff, ==_refl,
  get, get-insert, length-retain-le, length-drop, ltb→lt, IsUnique, get-IsIn, IsIn-get,
}
use shield_ghita.Security.Engine.{SecurityEngine}
use shield_ghita.Security.Flood.{
  is_recent, prune_history, or_default, recent_queries, keep_after, count_query, started_with,
  hard_limit, enforce_hard_rate_limit,
}
use shield_ghita.Security.Flood.Entries.{prune_history-IsIn, count_query-IsUnique}
use shield_ghita.Security.Flood.Fair.{
  after_queries, enforce-history, after_queries-same_limit, recent_queries-recent,
}
use shield_ghita.Security.Flood.Refusal.{after_queries-IsBounded, hard_limit-ge}

-- The number of queries that a history holds of a source.
abbrev held : List (Bytes × List ℕ) → Bytes → ℕ
held hist ip = length (or_default (get hist ip))

held-prune_history-le :
    (hist : List (Bytes × List ℕ)) (now : ℕ) (ip : Bytes)
    → IsUnique hist
    → held (prune_history hist now) ip ≤ held hist ip
held-prune_history-le hist now ip u = elim (Option-cases (get (prune_history hist now) ip)) [
  | inl e ↦ rw e (omega arith)
  | inr (ts, e) ↦
      rw (e, IsIn-get hist ip ts u (prune_history-IsIn hist now _ (get-IsIn _ ip ts e)))
        (omega arith)
]

length-recent_queries-le :
    (hist : List (Bytes × List ℕ)) (now : ℕ) (ip : Bytes)
    → length (recent_queries hist ip now) ≤ held hist ip + 1
length-recent_queries-le hist now ip = omega (
  arith,
  recent_queries-recent hist ip now,
  length-retain-le (is_recent now) (or_default (get hist ip)),
)

length-keep_after-shrinks : (limit : ℕ) (ts : List ℕ) → length (keep_after limit ts) ≤ length ts
length-keep_after-shrinks limit ts = ground (arith, length-drop (length ts - 10) ts)

-- A counted query adds at most one to what is held of any source.
held-count_query-le :
    (limit : ℕ) (hist : List (Bytes × List ℕ)) (source ip : Bytes) (now : ℕ)
    → IsUnique hist
    → held (count_query limit hist source now).0 ip ≤ held hist ip + 1
unfolding count_query
held-count_query-le limit hist source ip now u =
    let pruned = prune_history hist now in
    let counted = recent_queries pruned source now in
    elim (Bool-cases (source == ip)) [
      | inr other ↦
          rw (get-insert source ip (keep_after limit counted) pruned, other)
            (omega (arith, held-prune_history-le hist now ip u))
      | inl same ↦
          rw (get-insert source ip (keep_after limit counted) pruned, same)
            (omega (
              arith,
              length-keep_after-shrinks limit counted,
              length-recent_queries-le pruned now source,
              held-prune_history-le hist now source u,
              ap (held hist) ((bytes_beq_iff source ip).0 same),
            ))
    ]

held-refused :
    (limit : ℕ) (hist : List (Bytes × List ℕ)) (ip : Bytes) (now : ℕ)
    → 10 ≤ limit
    → (count_query limit hist ip now).2 ≡ true
    → held (count_query limit hist ip now).0 ip ≤ 10
unfolding count_query
held-refused limit hist ip now enough refused =
    let pruned = prune_history hist now in
    let counted = recent_queries pruned ip now in
    rw (get-insert ip ip (keep_after limit counted) pruned, ==_refl ip, refused)
      (omega (arith, enough, ltb→lt _ _ refused, length-drop (length counted - 10) counted))

after_queries-IsUnique :
    (e : SecurityEngine) (log : List (Bytes × ℕ))
    → IsUnique e.hard_query_history
    → IsUnique (after_queries e log).hard_query_history
unfolding after_queries
after_queries-IsUnique e [] u = u
after_queries-IsUnique e ((ip, now) ∷ log) u =
    let e' = after_queries e log in
    rw ((enforce-history e' ip now).0) (
      count_query-IsUnique (hard_limit e'.dns_flood_rate_limit ip) e'.hard_query_history ip now
        (after_queries-IsUnique e log u))

held-after_queries-le :
    (e : SecurityEngine) (log : List (Bytes × ℕ)) (ip : Bytes)
    → IsUnique e.hard_query_history
    → held (after_queries e log).hard_query_history ip ≤ held e.hard_query_history ip + length log
unfolding after_queries
held-after_queries-le e [] ip u = omega arith
held-after_queries-le e ((source, now) ∷ log) ip u =
    let e' = after_queries e log in
    rw ((enforce-history e' source now).0) (
      omega (
        arith,
        held-count_query-le (hard_limit e'.dns_flood_rate_limit source) e'.hard_query_history source
            ip now (after_queries-IsUnique e log u),
        held-after_queries-le e log ip u,
      ))

accepts_few :
    (limit : ℕ) (hist : List (Bytes × List ℕ)) (ip : Bytes) (now : ℕ)
    → IsUnique hist
    → held hist ip < limit
    → (count_query limit hist ip now).2 ≡ false
unfolding count_query
accepts_few limit hist ip now u few = ground (
  arith,
  few,
  length-recent_queries-le (prune_history hist now) now ip,
  held-prune_history-le hist now ip u,
)

enforce_hard_rate_limit-refusal :
    (e : SecurityEngine) (ip : Bytes) (now : ℕ)
    → (enforce_hard_rate_limit e ip now).1
      ≡ (count_query (hard_limit e.dns_flood_rate_limit ip) e.hard_query_history ip now).2
unfolding enforce_hard_rate_limit
enforce_hard_rate_limit-refusal e ip now = refl

-- After a refusal of any engine whose history has each source once.
resumes_from :
    (e : SecurityEngine) (later : List (Bytes × ℕ)) (ip : Bytes) (now t : ℕ)
    → IsUnique e.hard_query_history
    → (enforce_hard_rate_limit e ip now).1 ≡ true
    → length later + 10 < hard_limit e.dns_flood_rate_limit ip
    → (enforce_hard_rate_limit (after_queries (enforce_hard_rate_limit e ip now).0 later) ip t).1
      ≡ false
resumes_from e later ip now t u refused few =
    let limit = hard_limit e.dns_flood_rate_limit ip in
    let next = (enforce_hard_rate_limit e ip now).0 in
    let (same_history, same_limit) = enforce-history e ip now in
    let unique : IsUnique next.hard_query_history =
      rw same_history (count_query-IsUnique limit e.hard_query_history ip now u) in
    let ten : held next.hard_query_history ip ≤ 10 = rw same_history (
      held-refused limit e.hard_query_history ip now
        (omega (arith, hard_limit-ge e.dns_flood_rate_limit ip)) refused') in
    let after = after_queries next later in
    enforce_hard_rate_limit-refusal after ip t
    ∙ rw (after_queries-same_limit next later, same_limit)
        (accepts_few limit after.hard_query_history ip t (after_queries-IsUnique next later unique)
          (omega (arith, few, ten, held-after_queries-le next later ip unique)))
  where
    refused' :
        (count_query (hard_limit e.dns_flood_rate_limit ip) e.hard_query_history ip now).2 ≡ true
    refused' = sym (enforce_hard_rate_limit-refusal e ip now) ∙ refused

-- Of the queries that follow a refused query of a source, none of the source is refused until as many
-- queries have come as the limit less ten, at whatever times and from whichever sources. A source
-- that is not blocked, such as the loopback address, so has all but one in so many pass.
pub enforce_hard_rate_limit_resumes :
    (base : ℕ) (log later : List (Bytes × ℕ)) (ip : Bytes) (now t : ℕ)
    → (enforce_hard_rate_limit (after_queries (started_with base) log) ip now).1 ≡ true
    → length later + 10 < hard_limit base ip
    → (enforce_hard_rate_limit
        (after_queries
          (enforce_hard_rate_limit (after_queries (started_with base) log) ip now).0
          later)
        ip
        t).1
      ≡ false
enforce_hard_rate_limit_resumes base log later ip now t refused few =
    let e = after_queries (started_with base) log in
    resumes_from e later ip now t (after_queries-IsBounded base log).unique refused
      (rw (after_queries-same_limit (started_with base) log) few)
