-- ===== src/Security/Flood/Fair.antt =====
-- A source that stays under its limit is never refused by src/modules/security/mod.rs.
use shield_ghita.Prelude.{
  ℕ, zero, suc, ◌+◌, ◌-◌, ◌%◌, ◌≤◌, ◌<◌, ◌≡◌, refl, ap, ◌∙◌, inl, inr, Bool, false, ◌&&◌, List, [],
  ◌∷◌, ◌++◌, arith, Bytes, ◌==◌, nat_eq, bytes_eq, pair_eq, if◌then◌else◌, Bool-cases, Option-cases,
  length, drop, retain, IsIn, ==_refl, get, length-append, get-IsIn,
}
use shield_ghita.Security.Engine.{SecurityEngine, is_loopback, block_ip_temporarily}
use shield_ghita.Security.Flood.{
  is_recent, prune_history, or_default, recent_queries, keep_after, count_query, started_with,
  hard_limit, in_cooldown, note_alert, refuse_query, enforce_hard_rate_limit,
}
use shield_ghita.Security.Flood.Entries.{prune_history-IsIn, count_query-IsIn}

-- The queries of a source in a log that are recent at an instant. The newest query stands first.
unfoldable pub queries_of : Bytes → ℕ → List (Bytes × ℕ) → ℕ
queries_of ip now log = length (retain (λ query. query.0 == ip && is_recent now query.1) log)

-- The history holds no query that the log does not hold.
abbrev IsWithin : List (Bytes × List ℕ) → List (Bytes × ℕ) → Type 0
IsWithin hist log =
    (ip : Bytes) (ts : List ℕ) (now : ℕ)
    → IsIn (ip, ts) hist
    → length (retain (is_recent now) ts) ≤ queries_of ip now log

length-retain-retain-le :
    (p r : ℕ → Bool) (ts : List ℕ) → length (retain p (retain r ts)) ≤ length (retain p ts)
length-retain-retain-le p r [] = omega arith
length-retain-retain-le p r (t ∷ ts) = ground (arith, length-retain-retain-le p r ts)

length-retain-drop-le :
    (p : ℕ → Bool) (n : ℕ) (ts : List ℕ) → length (retain p (drop n ts)) ≤ length (retain p ts)
length-retain-drop-le p zero ts = omega arith
length-retain-drop-le p (suc n) [] = omega arith
length-retain-drop-le p (suc n) (t ∷ ts) = ground (arith, length-retain-drop-le p n ts)

length-retain_snoc :
    (p : ℕ → Bool) (ts : List ℕ) (t : ℕ)
    → length (retain p (ts ++ t ∷ [])) ≡ length (retain p ts) + (if p t then 1 else 0)
length-retain_snoc p [] t = ground arith
length-retain_snoc p (u ∷ ts) t = ground (arith, length-retain_snoc p ts t)

length-retain-keep_after-le :
    (p : ℕ → Bool) (limit : ℕ) (ts : List ℕ)
    → length (retain p (keep_after limit ts)) ≤ length (retain p ts)
length-retain-keep_after-le p limit ts = ground (arith, length-retain-drop-le p (length ts - 10) ts)

queries_of-cons_self :
    (ip : Bytes) (t now : ℕ) (log : List (Bytes × ℕ))
    → queries_of ip now ((ip, t) ∷ log) ≡ queries_of ip now log + (if is_recent now t then 1 else 0)
unfolding queries_of
queries_of-cons_self ip t now log = rw (==_refl ip) (ground arith)

queries_of-cons_le :
    (ip : Bytes) (now : ℕ) (query : Bytes × ℕ) (log : List (Bytes × ℕ))
    → queries_of ip now log ≤ queries_of ip now (query ∷ log)
unfolding queries_of
queries_of-cons_le ip now query log = ground arith

-- What the history holds of a source is in the log.
recent-within :
    (hist : List (Bytes × List ℕ)) (log : List (Bytes × ℕ)) (ip : Bytes) (now t : ℕ)
    → IsWithin hist log
    → length (retain (is_recent now) (or_default (get (prune_history hist t) ip)))
      ≤ queries_of ip now log
recent-within hist log ip now t w = elim (Option-cases (get (prune_history hist t) ip)) [
  | inl e ↦ rw e (omega arith)
  | inr (ts, e) ↦ rw e (w ip ts now (prune_history-IsIn hist t _ (get-IsIn _ ip ts e)))
]

recent_queries-within :
    (hist : List (Bytes × List ℕ)) (log : List (Bytes × ℕ)) (ip : Bytes) (now t : ℕ)
    → IsWithin hist log
    → length (retain (is_recent now) (recent_queries (prune_history hist t) ip t))
      ≤ queries_of ip now ((ip, t) ∷ log)
unfolding recent_queries
recent_queries-within hist log ip now t w =
    let held = or_default (get (prune_history hist t) ip) in
    omega (
      arith,
      queries_of-cons_self ip t now log,
      recent-within hist log ip now t w,
      length-retain_snoc (is_recent now) (retain (is_recent t) held) t,
      length-retain-retain-le (is_recent now) (is_recent t) held,
    )

count_query-IsWithin :
    (limit : ℕ) (hist : List (Bytes × List ℕ)) (log : List (Bytes × ℕ)) (ip : Bytes) (t : ℕ)
    → IsWithin hist log
    → IsWithin (count_query limit hist ip t).0 ((ip, t) ∷ log)
count_query-IsWithin limit hist log ip t w other ts now i =
    let counted = recent_queries (prune_history hist t) ip t in
    elim (count_query-IsIn limit hist ip t (other, ts) i) [
      | inl same ↦
          rw (ap (λ x. x.0) same, ap (λ x. x.1) same)
            (omega (
              arith,
              length-retain-keep_after-le (is_recent now) limit counted,
              recent_queries-within hist log ip now t w,
            ))
      | inr old ↦ omega (arith, w other ts now old, queries_of-cons_le other now (ip, t) log)
    ]

-- A snoc of a recent query keeps only recent ones.
pub recent_queries-recent :
    (hist : List (Bytes × List ℕ)) (ip : Bytes) (now : ℕ)
    → length (recent_queries hist ip now)
      ≡ length (retain (is_recent now) (or_default (get hist ip))) + 1
unfolding recent_queries
recent_queries-recent hist ip now =
    omega (arith, length-append (retain (is_recent now) (or_default (get hist ip))) (now ∷ []))

-- The engine after the queries of a log.
unfoldable pub after_queries : SecurityEngine → List (Bytes × ℕ) → SecurityEngine
after_queries e [] = e
after_queries e ((ip, now) ∷ log) = (enforce_hard_rate_limit (after_queries e log) ip now).0

-- A refusal leaves the history and the limit as they are.
record SameCounts (e e' : SecurityEngine) : Type 0 where
  same_history : e'.hard_query_history ≡ e.hard_query_history
  same_limit : e'.dns_flood_rate_limit ≡ e.dns_flood_rate_limit

block_ip_temporarily-SameCounts :
    (e : SecurityEngine) (ip : Bytes) (duration now : ℕ)
    → SameCounts e (block_ip_temporarily e ip duration now)
unfolding block_ip_temporarily
block_ip_temporarily-SameCounts e ip duration now = elim (Bool-cases (is_loopback ip)) [
  | inl h ↦ rw h (record { same_history = refl; same_limit = refl })
  | inr h ↦ rw h (record { same_history = refl; same_limit = refl })
]

refuse_query-SameCounts :
    (e : SecurityEngine) (ip : Bytes) (now : ℕ) → SameCounts e (refuse_query e ip now)
unfolding refuse_query
refuse_query-SameCounts e ip now =
    elim (Bool-cases (in_cooldown 60000 now (get e.hard_flood_alert_cooldown ip))) [
      | inl h ↦ rw h (record { same_history = refl; same_limit = refl })
      | inr h ↦
          let b =
            block_ip_temporarily-SameCounts
              (record e {
                hard_drop_count = (e.hard_drop_count + 1) % 0x10000000000000000;
                hard_flood_alert_cooldown = note_alert 60000 e.hard_flood_alert_cooldown ip now;
              })
              ip 60000 now in
          rw h (record { same_history = b.same_history; same_limit = b.same_limit })
    ]

pub enforce-history :
    (e : SecurityEngine) (ip : Bytes) (now : ℕ)
    → ((enforce_hard_rate_limit e ip now).0.hard_query_history
        ≡ (count_query (hard_limit e.dns_flood_rate_limit ip) e.hard_query_history ip now).0)
      × ((enforce_hard_rate_limit e ip now).0.dns_flood_rate_limit ≡ e.dns_flood_rate_limit)
unfolding enforce_hard_rate_limit
enforce-history e ip now =
    let counted = count_query (hard_limit e.dns_flood_rate_limit ip) e.hard_query_history ip now in
    elim (Bool-cases counted.2) [
      | inl h ↦
          let r = refuse_query-SameCounts (record e { hard_query_history = counted.0 }) ip now in
          rw h (r.same_history, r.same_limit)
      | inr h ↦ rw h (refl, refl)
    ]

pub after_queries-same_limit :
    (e : SecurityEngine) (log : List (Bytes × ℕ))
    → (after_queries e log).dns_flood_rate_limit ≡ e.dns_flood_rate_limit
unfolding after_queries
after_queries-same_limit e [] = refl
after_queries-same_limit e ((ip, now) ∷ log) =
    (enforce-history (after_queries e log) ip now).1 ∙ after_queries-same_limit e log

after_queries-IsWithin :
    (base : ℕ) (log : List (Bytes × ℕ))
    → IsWithin (after_queries (started_with base) log).hard_query_history log
unfolding after_queries
after_queries-IsWithin base [] = λ ip ts now i. absurd i
after_queries-IsWithin base ((ip, t) ∷ log) =
    let e = after_queries (started_with base) log in
    rw ((enforce-history e ip t).0) (
      count_query-IsWithin (hard_limit e.dns_flood_rate_limit ip) e.hard_query_history log ip t
        (after_queries-IsWithin base log))

count_query-accepts :
    (limit : ℕ) (hist : List (Bytes × List ℕ)) (log : List (Bytes × ℕ)) (ip : Bytes) (now : ℕ)
    → IsWithin hist log
    → queries_of ip now log < limit
    → (count_query limit hist ip now).2 ≡ false
unfolding count_query
count_query-accepts limit hist log ip now w few = ground (
  arith,
  few,
  recent_queries-recent (prune_history hist now) ip now,
  recent-within hist log ip now now w,
)

-- A source is never refused while it stays under its limit: when, of the queries that the engine has
-- seen since it started, fewer than the limit are of this source and in the two seconds before, the
-- next one passes, whatever other sources sent, and whatever was evicted meanwhile.
pub enforce_hard_rate_limit_fair :
    (base : ℕ) (log : List (Bytes × ℕ)) (ip : Bytes) (now : ℕ)
    → queries_of ip now log < hard_limit base ip
    → (enforce_hard_rate_limit (after_queries (started_with base) log) ip now).1 ≡ false
unfolding enforce_hard_rate_limit
enforce_hard_rate_limit_fair base log ip now few =
    let start = started_with base in
    let e = after_queries start log in
    count_query-accepts (hard_limit e.dns_flood_rate_limit ip) e.hard_query_history log ip now
      (after_queries-IsWithin base log) (rw (after_queries-same_limit start log) few)
