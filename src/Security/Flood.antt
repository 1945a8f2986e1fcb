-- ===== src/Security/Flood.antt =====
-- The hard limit on the queries of a source in src/modules/security/mod.rs.
pub mod Eviction
pub mod Entries
pub mod Fair
pub mod Refusal
pub mod Isolation
pub mod Resumption
use shield_ghita.Prelude.{
  ℕ, zero, suc, ◌+◌, ◌-◌, ◌*◌, ◌/◌, ◌%◌, ◌^◌, ◌≤◌, ◌<◌, ◌≡◌, refl, sym, ap, ◌∙◌, ◌↔◌, ◌⊎◌, ◌≢◌, inl,
  inr, Bool, true, false, not, ◌&&◌, ◌||◌, Option, none, some, List, [], ◌∷◌, ◌++◌, map, arith,
  Bytes, Key, ◌==◌, nat_eq, bytes_eq, pair_eq, ltb, leb, if◌then◌else◌, Bool-cases, Option-cases,
  is_empty, any, all, max, min, length, take, drop, get_elem?, contains, set_insert, set_remove,
  retain, IsIn, any-intro, any-elim, contains-IsIn, IsIn-contains, IsIn-retain, retain-IsIn,
  contains-set_insert, contains-set_remove, nat_beq_iff, bytes_beq_iff, ==_refl, ||-eq-true,
  &&-eq-true, get, insert, remove, get-insert, get-remove, length-insert-le, length-remove-le,
  length-retain-le, length-append, length-take, length-drop, tests, take-append_length,
  drop-append_length, insert_by_rank, sort_by_rank, remove_all, length-insert_by_rank,
  insert_by_rank-IsIn, length-sort_by_rank, sort_by_rank-IsIn, length-remove-lt,
  length-remove_all-le, remove_some, remove_all-IsIn, remove_all-IsUnique, not_ltb→le, not_leb→lt,
  ltb→lt, le→leb, IsUnique, insert-IsIn, remove-IsIn, get-IsIn, IsIn-get, insert-IsUnique,
  remove-IsUnique, retain-IsUnique, map-IsIn, IsIn-map,
}
use shield_ghita.Security.Engine.{
  SecurityEngine, SecurityEngine_new, is_loopback, block_ip_temporarily, is_ip_temporarily_blocked,
  clamp,
}

-- `now.duration_since(t) < 2 s`: an instant that lies ahead counts as now.
abbrev pub is_recent : ℕ → ℕ → Bool
is_recent now t = ltb (now - t) 2000

-- The order of `Option<Instant>`: no instant comes first.
abbrev pub newest : List ℕ → ℕ
newest [] = 0
newest (t ∷ ts) = max (suc t) (newest ts)

-- The keys that go first.
abbrev pub oldest_keys : List (Bytes × List ℕ) → ℕ → List (Bytes × ℕ)
oldest_keys hist count = take count (sort_by_rank (map (λ entry. (entry.0, newest entry.1)) hist))

unfoldable pub evict_oldest_ips : List (Bytes × List ℕ) → ℕ → List (Bytes × List ℕ)
evict_oldest_ips hist count =
    if leb (length hist) count then hist else remove_all (oldest_keys hist count) hist

-- What both limits do first with a history: over 1000 sources, those without a recent query go, then
-- the 256 oldest.
unfoldable pub prune_history : List (Bytes × List ℕ) → ℕ → List (Bytes × List ℕ)
prune_history hist now =
    let live = retain (λ entry. any (is_recent now) entry.1) hist in
    if ltb 1000 (length hist)
    then (if ltb 1000 (length live) then evict_oldest_ips live 256 else live)
    else hist

abbrev pub or_default : Option (List ℕ) → List ℕ
or_default none = []
or_default (some ts) = ts

-- The recent queries of a source, this one included.
unfoldable pub recent_queries : List (Bytes × List ℕ) → Bytes → ℕ → List ℕ
recent_queries hist ip now = retain (is_recent now) (or_default (get hist ip)) ++ now ∷ []

-- Only the last ten stay when the limit is exceeded.
abbrev pub keep_after : ℕ → List ℕ → List ℕ
keep_after limit ts = if ltb limit (length ts) then drop (length ts - 10) ts else ts

-- A query counted: the new history, the number of recent queries, and whether it exceeds the limit.
unfoldable pub count_query :
    ℕ → List (Bytes × List ℕ) → Bytes → ℕ → List (Bytes × List ℕ) × ℕ × Bool
count_query limit hist ip now =
    let pruned = prune_history hist now in
    let ts = recent_queries pruned ip now in
    (insert ip (keep_after limit ts) pruned, length ts, ltb limit (length ts))

-- The multiplications of `u32` saturate.
unfoldable pub hard_limit : ℕ → Bytes → ℕ
hard_limit base ip =
    if is_loopback ip
    then clamp 200 2000 (min (base * 10) 0xFFFFFFFF)
    else max (min (base * 4) 0xFFFFFFFF) 200

abbrev pub in_cooldown : ℕ → ℕ → Option ℕ → Bool
in_cooldown cooldown now none = false
in_cooldown cooldown now (some last) = ltb (now - last) cooldown

-- An alert noted in a cooldown map: over 1024 sources, those whose cooldown is over go first.
abbrev pub note_alert : ℕ → List (Bytes × ℕ) → Bytes → ℕ → List (Bytes × ℕ)
note_alert cooldown cd ip now =
    let live =
      if ltb 1024 (length cd) then retain (λ entry. ltb (now - cooldown) entry.1) cd else cd in
    insert ip now live

-- Each source is alerted on and blocked at most once a minute.
unfoldable pub refuse_query : SecurityEngine → Bytes → ℕ → SecurityEngine
refuse_query e ip now =
    let counted = record e { hard_drop_count = (e.hard_drop_count + 1) % 0x10000000000000000 } in
    if in_cooldown 60000 now (get e.hard_flood_alert_cooldown ip)
    then counted
    else block_ip_temporarily
        (record counted {
          hard_flood_alert_cooldown = note_alert 60000 e.hard_flood_alert_cooldown ip now;
        })
        ip 60000 now

-- The result is true when the query is refused.
unfoldable pub enforce_hard_rate_limit : SecurityEngine → Bytes → ℕ → SecurityEngine × Bool
enforce_hard_rate_limit e ip now =
    let (hist, count, exceeded) =
      count_query (hard_limit e.dns_flood_rate_limit ip) e.hard_query_history ip now in
    let counted = record e { hard_query_history = hist } in
    (if exceeded then refuse_query counted ip now else counted, exceeded)

-- A new engine whose limit is then set.
abbrev pub started_with : ℕ → SecurityEngine
started_with base = record SecurityEngine_new { dns_flood_rate_limit = base }
