-- ===== src/Security/Inspection/Uniqueness.antt =====
-- The temporary blocks of src/modules/security/mod.rs have one entry for each source.
use shield_ghita.Prelude.{
  ℕ, ◌+◌, inl, inr, Bool, true, false, not, Option, none, Bytes, nat_eq, bytes_eq, pair_eq, ltb,
  if◌then◌else◌, Bool-cases, Option-cases, get, length, IsUnique, remove-IsUnique, insert-IsUnique,
  retain-IsUnique,
}
use shield_ghita.Security.Engine.{
  SecurityEngine, SecurityIncident, is_loopback, block_ip_temporarily, is_ip_temporarily_blocked,
  record_incident,
}
use shield_ghita.Security.Flood.{enforce_hard_rate_limit, refuse_query, count_query, note_alert}
use shield_ghita.Security.Names.{Float64, is_dga_domain, is_darknet_pseudo_tld}
use shield_ghita.Security.Inspection.{
  mitigate, report_flood, find_tunnel, subdomains, judge_name, inspect_dns_query,
}

-- The blocks have one entry for each source.
abbrev pub AreUnique : SecurityEngine → Type 0
AreUnique e = IsUnique e.blocked_ips

AreUnique-if :
    (b : Bool) (x y : SecurityEngine) → AreUnique x → AreUnique y → AreUnique (if b then x else y)
AreUnique-if true x y h k = h
AreUnique-if false x y h k = k

pub block_ip_temporarily-AreUnique :
    (e : SecurityEngine) (ip : Bytes) (duration now : ℕ)
    → AreUnique e
    → AreUnique (block_ip_temporarily e ip duration now)
unfolding block_ip_temporarily
block_ip_temporarily-AreUnique e ip duration now u =
    AreUnique-if (is_loopback ip) e _ u (elim (Bool-cases (ltb 500 (length e.blocked_ips))) [
      | inl many ↦
          rw many (insert-IsUnique ip (now + duration) _ (retain-IsUnique _ e.blocked_ips u))
      | inr few ↦ rw few (insert-IsUnique ip (now + duration) e.blocked_ips u)
    ])

refuse_query-AreUnique :
    (e : SecurityEngine) (ip : Bytes) (now : ℕ) → AreUnique e → AreUnique (refuse_query e ip now)
unfolding refuse_query
refuse_query-AreUnique e ip now u =
    AreUnique-if _ _ _ u (block_ip_temporarily-AreUnique _ ip 60000 now u)

pub enforce_hard_rate_limit-AreUnique :
    (e : SecurityEngine) (ip : Bytes) (now : ℕ)
    → AreUnique e
    → AreUnique (enforce_hard_rate_limit e ip now).0
unfolding enforce_hard_rate_limit
enforce_hard_rate_limit-AreUnique e ip now u =
    AreUnique-if _ _ _ (refuse_query-AreUnique _ ip now u) u

pub is_ip_temporarily_blocked-AreUnique :
    (e : SecurityEngine) (ip : Bytes) (now : ℕ)
    → AreUnique e
    → AreUnique (is_ip_temporarily_blocked e ip now).0
unfolding is_ip_temporarily_blocked
is_ip_temporarily_blocked-AreUnique e ip now u = elim (Option-cases (get e.blocked_ips ip)) [
  | inl free ↦ rw (free, is_ip_temporarily_blocked) u
  | inr (expiry, held) ↦ elim (Bool-cases (ltb now expiry)) [
    | inl live ↦ rw (held, live, is_ip_temporarily_blocked) u
    | inr over ↦ rw (held, over, is_ip_temporarily_blocked) (remove-IsUnique ip e.blocked_ips u)
  ]
]

mitigate-AreUnique :
    (e : SecurityEngine) (ip : Bytes) (duration now : ℕ)
    → AreUnique e
    → AreUnique (mitigate e ip duration now)
mitigate-AreUnique e ip duration now u =
    AreUnique-if e.auto_block_enabled _ e (block_ip_temporarily-AreUnique e ip duration now u) u

-- The engine of a result.
AreUnique-either :
    (b : Bool) (x y : SecurityEngine × Option SecurityIncident)
    → AreUnique x.0
    → AreUnique y.0
    → AreUnique (if b then x else y).0
AreUnique-either true x y h k = h
AreUnique-either false x y h k = k

judge_name-AreUnique :
    (f : Float64) (e : SecurityEngine) (ip domain : Bytes) (now : ℕ)
    → AreUnique e
    → AreUnique (judge_name f e ip domain now).0
unfolding judge_name record_incident
judge_name-AreUnique f e ip domain now u = elim (Option-cases (find_tunnel f (subdomains domain))) [
  | inr (sub, found) ↦ rw (found, judge_name) (mitigate-AreUnique e ip 180000 now u)
  | inl clear ↦
      rw (clear, judge_name)
        (AreUnique-either (is_dga_domain f domain) _ _ (mitigate-AreUnique e ip 120000 now u)
          (AreUnique-either (is_darknet_pseudo_tld domain) _ (e, none) u u))
]

pub inspect_dns_query-AreUnique :
    (f : Float64) (e : SecurityEngine) (ip domain : Bytes) (now : ℕ)
    → AreUnique e
    → AreUnique (inspect_dns_query f e ip domain now).0
unfolding inspect_dns_query report_flood record_incident
inspect_dns_query-AreUnique f e ip domain now u =
    let counted = count_query e.dns_flood_rate_limit e.ip_query_history ip now in
    let e' = record e { ip_query_history = counted.0 } in
    let noted = record e' {
      flood_alert_cooldown = note_alert 60000 e'.flood_alert_cooldown ip now;
    } in
    AreUnique-either (not e.attack_detection_enabled) (e, none) _ u
      (AreUnique-either counted.2 _ _
        (AreUnique-either _ (e', none) _ u (mitigate-AreUnique noted ip 300000 now u))
        (judge_name-AreUnique f e' ip domain now u))
