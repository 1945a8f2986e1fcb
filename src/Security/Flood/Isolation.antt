-- ===== src/Security/Flood/Isolation.antt =====
-- The block of a source that exceeds the hard limit of src/modules/security/mod.rs.
use shield_ghita.Prelude.{
  ℕ, ◌+◌, ◌%◌, ◌≤◌, ◌≡◌, refl, sym, ap, ◌∙◌, inl, inr, Bool, true, false, not, ◌&&◌, arith, Bytes,
  ◌==◌, nat_eq, bytes_eq, pair_eq, ltb, if◌then◌else◌, Bool-cases, get, IsUnique,
}
use shield_ghita.Security.Engine.{SecurityEngine, is_loopback, block_ip_temporarily}
use shield_ghita.Security.Engine.Blocks.{
  blocked_at, block_ip_temporarily-blocked_at, blocked_at-get,
}
use shield_ghita.Security.Flood.{
  count_query, hard_limit, in_cooldown, note_alert, refuse_query, enforce_hard_rate_limit,
}

-- The source is not loopback and had no alert in the last minute.
abbrev pub is_alerted : SecurityEngine → Bytes → ℕ → Bool
is_alerted e ip now =
    not (is_loopback ip) && not (in_cooldown 60000 now (get e.hard_flood_alert_cooldown ip))

blocked_at-same :
    (e e' : SecurityEngine) (ip : Bytes) (t : ℕ)
    → e.blocked_ips ≡ e'.blocked_ips
    → blocked_at e ip t ≡ blocked_at e' ip t
blocked_at-same e e' ip t same = blocked_at-get e ip t ∙ rw same (sym (blocked_at-get e' ip t))

refuse_query_unalerted :
    (e : SecurityEngine) (ip : Bytes) (now : ℕ)
    → is_alerted e ip now ≡ false
    → (refuse_query e ip now).blocked_ips ≡ e.blocked_ips
unfolding refuse_query block_ip_temporarily
refuse_query_unalerted e ip now quiet = ground (arith, quiet)

alerted_cases :
    (e : SecurityEngine) (ip : Bytes) (now : ℕ)
    → is_alerted e ip now ≡ true
    → (is_loopback ip ≡ false)
      × (in_cooldown 60000 now (get e.hard_flood_alert_cooldown ip) ≡ false)
alerted_cases e ip now h = ground (arith, h)

refuse_query-blocked_at :
    (e : SecurityEngine) (ip other : Bytes) (now t : ℕ)
    → IsUnique e.blocked_ips
    → now ≤ t
    → blocked_at (refuse_query e ip now) other t
      ≡ (if is_alerted e ip now && ip == other then ltb t (now + 60000) else blocked_at e other t)
unfolding refuse_query
refuse_query-blocked_at e ip other now t u h = elim (Bool-cases (is_alerted e ip now)) [
  | inr quiet ↦
      rw quiet
        (blocked_at-same (refuse_query e ip now) e other t (refuse_query_unalerted e ip now quiet))
  | inl loud ↦
      rw (loud, refuse_query, (alerted_cases e ip now loud).1)
        (let alerted = record e {
          hard_drop_count = (e.hard_drop_count + 1) % 0x10000000000000000;
          hard_flood_alert_cooldown = note_alert 60000 e.hard_flood_alert_cooldown ip now;
        } in
          block_ip_temporarily-blocked_at alerted ip other 60000 now t u
            (alerted_cases e ip now loud).0 h
          ∙ ap (λ b. if ip == other then ltb t (now + 60000) else b)
              (blocked_at-same alerted e other t refl))
]

-- When a query is refused, its source is blocked for the next minute if it is not loopback and had no
-- alert in the minute before. Every other source, and each source after a query that passes, is
-- blocked later exactly if it was before.
pub enforce_hard_rate_limit-blocked_at :
    (e : SecurityEngine) (ip other : Bytes) (now t : ℕ)
    → IsUnique e.blocked_ips
    → now ≤ t
    → blocked_at (enforce_hard_rate_limit e ip now).0 other t ≡ (
        if (enforce_hard_rate_limit e ip now).1 && (is_alerted e ip now && ip == other)
        then ltb t (now + 60000)
        else blocked_at e other t)
unfolding enforce_hard_rate_limit
enforce_hard_rate_limit-blocked_at e ip other now t u h =
    let counted = count_query (hard_limit e.dns_flood_rate_limit ip) e.hard_query_history ip now in
    let e' = record e { hard_query_history = counted.0 } in
    elim (Bool-cases counted.2) [
      | inl over ↦ rw over (
          refuse_query-blocked_at e' ip other now t u h
          ∙ ap (λ b. if is_alerted e ip now && ip == other then ltb t (now + 60000) else b)
              (blocked_at-same e' e other t refl))
      | inr under ↦ rw under (blocked_at-same e' e other t refl)
    ]
