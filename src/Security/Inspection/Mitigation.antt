-- ===== src/Security/Inspection/Mitigation.antt =====
-- The blocks that an inspection of src/modules/security/mod.rs puts on a source.
use shield_ghita.Prelude.{
  ℕ, ◌+◌, ◌≤◌, ◌≡◌, refl, sym, ap, ◌∙◌, inl, inr, Bool, true, false, not, ◌&&◌, Option, none, some,
  arith, Bytes, ◌==◌, nat_eq, bytes_eq, pair_eq, ltb, if◌then◌else◌, Bool-cases, Option-cases,
  IsUnique,
}
use shield_ghita.Security.Engine.{
  SecurityEngine, SecurityIncident, Cause, flood, tunnel, dga, darknet, Severity, high, critical,
  is_loopback, block_ip_temporarily, record_incident,
}
use shield_ghita.Security.Engine.Blocks.{
  blocked_at, blocked_at-get, block_ip_temporarily-blocked_at,
}
use shield_ghita.Security.Flood.{count_query, note_alert}
use shield_ghita.Security.Names.{Float64, is_dga_domain, is_darknet_pseudo_tld}
use shield_ghita.Security.Inspection.{
  report, mitigate, report_flood, find_tunnel, subdomains, judge_name, inspect_dns_query,
}

-- How long an attack of this kind blocks its source, in milliseconds.
abbrev pub cause_time : Cause → Option ℕ
cause_time (flood count limit auto) = some 300000
cause_time (tunnel sub auto) = some 180000
cause_time (dga domain auto) = some 120000
cause_time _ = none

abbrev pub block_time : Option SecurityIncident → Option ℕ
block_time none = none
block_time (some incident) = cause_time incident.cause

-- Whether a source is stopped later, after an inspection with this result.
abbrev pub stopped_later : SecurityEngine → Bytes → ℕ → Bytes → ℕ → Option ℕ → Bool
stopped_later e ip now other t none = blocked_at e other t
stopped_later e ip now other t (some duration) =
    if e.auto_block_enabled && not (is_loopback ip) && ip == other
    then ltb t (now + duration)
    else blocked_at e other t

loopback_free :
    (e : SecurityEngine) (ip : Bytes) (duration now : ℕ)
    → is_loopback ip ≡ true
    → block_ip_temporarily e ip duration now ≡ e
unfolding block_ip_temporarily
loopback_free e ip duration now lo = rw lo refl

mitigate_if :
    (e : SecurityEngine) (b : Bool) (ip : Bytes) (duration now : ℕ)
    → e.auto_block_enabled ≡ b
    → mitigate e ip duration now ≡ (if b then block_ip_temporarily e ip duration now else e)
mitigate_if e b ip duration now mode =
    ap (λ c. if c then block_ip_temporarily e ip duration now else e) mode

module _ (e : SecurityEngine) (ip other : Bytes) (now t : ℕ) where
  abbrev Stops : SecurityEngine × Option SecurityIncident → Type 0
  Stops r = blocked_at r.0 other t ≡ stopped_later e ip now other t (block_time r.1)

  -- A state with the same blocks, in the same mode.
  abbrev pub IsAlike : SecurityEngine → Type 0
  IsAlike e' = (e'.blocked_ips ≡ e.blocked_ips) × (e'.auto_block_enabled ≡ e.auto_block_enabled)

  Stops-if :
      (b : Bool) (x y : SecurityEngine × Option SecurityIncident)
      → Stops x
      → Stops y
      → Stops (if b then x else y)
  Stops-if true x y h k = h
  Stops-if false x y h k = k

  alike-blocked_at :
      (e' : SecurityEngine) → IsAlike e' → blocked_at e' other t ≡ blocked_at e other t
  alike-blocked_at e' (same, mode) =
      blocked_at-get e' other t ∙ rw same (sym (blocked_at-get e other t))

  block-later :
      (e' : SecurityEngine) (duration : ℕ)
      → IsAlike e'
      → IsUnique e.blocked_ips
      → now ≤ t
      → blocked_at (block_ip_temporarily e' ip duration now) other t ≡ (
          if not (is_loopback ip) && ip == other
          then ltb t (now + duration)
          else blocked_at e other t)
  block-later e' duration (same, mode) u h = elim (Bool-cases (is_loopback ip)) [
    | inl lo ↦ rw (loopback_free e' ip duration now lo, lo) (alike-blocked_at e' (same, mode))
    | inr far ↦
        block_ip_temporarily-blocked_at e' ip other duration now t (rw same u) far h
        ∙ rw (far, alike-blocked_at e' (same, mode)) refl
  ]

  mitigate-later :
      (e' : SecurityEngine) (duration : ℕ)
      → IsAlike e'
      → IsUnique e.blocked_ips
      → now ≤ t
      → blocked_at (mitigate e' ip duration now) other t
        ≡ stopped_later e ip now other t (some duration)
  mitigate-later e' duration (same, mode) u h = elim (Bool-cases e.auto_block_enabled) [
    | inl ips ↦
        ap (λ r. blocked_at r other t) (mitigate_if e' true ip duration now (mode ∙ ips))
        ∙ block-later e' duration (same, mode) u h
        ∙ rw ips refl
    | inr ids ↦
        ap (λ r. blocked_at r other t) (mitigate_if e' false ip duration now (mode ∙ ids))
        ∙ alike-blocked_at e' (same, mode)
        ∙ rw ids refl
  ]

  report-Stops :
      (noted : SecurityEngine) (cause : Cause) (severity : Severity)
      → blocked_at noted other t ≡ stopped_later e ip now other t (cause_time cause)
      → Stops (report noted cause ip severity)
  unfolding record_incident
  report-Stops noted cause severity h =
      blocked_at-get (record_incident noted cause ip severity).0 other t
      ∙ sym (blocked_at-get noted other t)
      ∙ h

  module _ (u : IsUnique e.blocked_ips) (h : now ≤ t) where
    report_flood-Stops :
        (e' : SecurityEngine) (count : ℕ) → IsAlike e' → Stops (report_flood e' ip count now)
    unfolding report_flood
    report_flood-Stops e' count alike =
        let noted = record e' {
          flood_alert_cooldown = note_alert 60000 e'.flood_alert_cooldown ip now;
        } in
        Stops-if _ (e', none) _ (alike-blocked_at e' alike)
          (report-Stops (mitigate noted ip 300000 now)
            (flood count e'.dns_flood_rate_limit e'.auto_block_enabled) critical
            (mitigate-later noted 300000 alike u h))

    judge_name-Stops :
        (f : Float64) (e' : SecurityEngine) (domain : Bytes)
        → IsAlike e'
        → Stops (judge_name f e' ip domain now)
    unfolding judge_name
    judge_name-Stops f e' domain alike = elim (Option-cases (find_tunnel f (subdomains domain))) [
      | inr (sub, found) ↦
          rw (found, judge_name)
            (report-Stops (mitigate e' ip 180000 now) (tunnel sub e'.auto_block_enabled) high
              (mitigate-later e' 180000 alike u h))
      | inl clear ↦
          rw (clear, judge_name)
            (Stops-if (is_dga_domain f domain) _ _
              (report-Stops (mitigate e' ip 120000 now) (dga domain e'.auto_block_enabled) high
                (mitigate-later e' 120000 alike u h))
              (Stops-if (is_darknet_pseudo_tld domain) _ (e', none)
                (report-Stops e' (darknet domain) high (alike-blocked_at e' alike))
                (alike-blocked_at e' alike)))
    ]

-- The state is in the same mode.
abbrev IsSameMode : SecurityEngine → SecurityEngine → Type 0
IsSameMode e e' = e'.auto_block_enabled ≡ e.auto_block_enabled

IsSameMode-if :
    (e : SecurityEngine) (b : Bool) (x y : SecurityEngine × Option SecurityIncident)
    → IsSameMode e x.0
    → IsSameMode e y.0
    → IsSameMode e (if b then x else y).0
IsSameMode-if e true x y h k = h
IsSameMode-if e false x y h k = k

mitigate-IsSameMode :
    (e : SecurityEngine) (ip : Bytes) (duration now : ℕ) → IsSameMode e (mitigate e ip duration now)
unfolding block_ip_temporarily
mitigate-IsSameMode e ip duration now = ground arith

judge_name-IsSameMode :
    (f : Float64) (e : SecurityEngine) (ip domain : Bytes) (now : ℕ)
    → IsSameMode e (judge_name f e ip domain now).0
unfolding judge_name record_incident
judge_name-IsSameMode f e ip domain now = elim (Option-cases (find_tunnel f (subdomains domain))) [
  | inr (sub, found) ↦ rw (found, judge_name) (mitigate-IsSameMode e ip 180000 now)
  | inl clear ↦
      rw (clear, judge_name)
        (IsSameMode-if e (is_dga_domain f domain) _ _ (mitigate-IsSameMode e ip 120000 now)
          (IsSameMode-if e (is_darknet_pseudo_tld domain) _ (e, none) refl refl))
]

-- An inspection leaves the mode as it was.
pub inspect_dns_query-IsSameMode :
    (f : Float64) (e : SecurityEngine) (ip domain : Bytes) (now : ℕ)
    → (inspect_dns_query f e ip domain now).0.auto_block_enabled ≡ e.auto_block_enabled
unfolding inspect_dns_query report_flood record_incident
inspect_dns_query-IsSameMode f e ip domain now =
    let counted = count_query e.dns_flood_rate_limit e.ip_query_history ip now in
    let e' = record e { ip_query_history = counted.0 } in
    let noted = record e' {
      flood_alert_cooldown = note_alert 60000 e'.flood_alert_cooldown ip now;
    } in
    IsSameMode-if e (not e.attack_detection_enabled) (e, none) _ refl
      (IsSameMode-if e counted.2 _ _
        (IsSameMode-if e _ (e', none) _ refl (mitigate-IsSameMode noted ip 300000 now))
        (judge_name-IsSameMode f e' ip domain now))

-- When an inspection reports a flood, a tunnel or a generated name in IPS mode, its source, unless it is
-- loopback, is blocked for the next 300, 180 or 120 seconds. Every other source, and each source after
-- any other inspection, is blocked later exactly if it was before.
pub inspect_dns_query-blocked_at :
    (f : Float64) (e : SecurityEngine) (ip domain other : Bytes) (now t : ℕ)
    → IsUnique e.blocked_ips
    → now ≤ t
    → blocked_at (inspect_dns_query f e ip domain now).0 other t
      ≡ stopped_later e ip now other t (block_time (inspect_dns_query f e ip domain now).1)
unfolding inspect_dns_query
inspect_dns_query-blocked_at f e ip domain other now t u h =
    let counted = count_query e.dns_flood_rate_limit e.ip_query_history ip now in
    let e' = record e { ip_query_history = counted.0 } in
    Stops-if e ip other now t (not e.attack_detection_enabled) (e, none) _ refl
      (Stops-if e ip other now t counted.2 _ _
        (report_flood-Stops e ip other now t u h e' counted.1 (refl, refl))
        (judge_name-Stops e ip other now t u h f e' domain (refl, refl)))
