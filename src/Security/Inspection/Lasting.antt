-- ===== src/Security/Inspection/Lasting.antt =====
-- A block of src/modules/security/mod.rs lasts while other packets are handled.
use shield_ghita.Prelude.{
  ℕ, ◌+◌, ◌≤◌, ◌<◌, ◌≡◌, refl, sym, ap, ◌∙◌, inl, inr, Bool, true, false, ◌&&◌, Option, none, some,
  arith, Bytes, ◌==◌, nat_eq, bytes_eq, pair_eq, ltb, if◌then◌else◌, Bool-cases, Option-cases, get,
  remove, get-remove, bytes_beq_iff, lt→ltb,
}
use shield_ghita.Security.Engine.{
  SecurityEngine, SecurityIncident, Cause, is_ip_temporarily_blocked, flood, tunnel, dga, darknet,
  dns_quarantine, rogue_dhcp, arp_spoof, gateway_changed, port_scan, rebinding, hosts_tamper,
  other_cause,
}
use shield_ghita.Security.Engine.Blocks.{blocked_at, blocked_at-get}
use shield_ghita.Security.Flood.{enforce_hard_rate_limit}
use shield_ghita.Security.Flood.Isolation.{is_alerted, enforce_hard_rate_limit-blocked_at}
use shield_ghita.Security.Names.{Float64}
use shield_ghita.Security.Inspection.{inspect_dns_query}
use shield_ghita.Security.Inspection.Mitigation.{
  block_time, cause_time, stopped_later, inspect_dns_query-blocked_at,
}
use shield_ghita.Security.Inspection.Uniqueness.{
  AreUnique, enforce_hard_rate_limit-AreUnique, is_ip_temporarily_blocked-AreUnique,
  inspect_dns_query-AreUnique,
}

-- A source stays blocked at a time.
abbrev pub IsStopped : Bytes → ℕ → SecurityEngine → Type 0
IsStopped ip t e = AreUnique e × (blocked_at e ip t ≡ true)

true-if : (b : Bool) (x y : Bool) → (b ≡ true → x ≡ true) → y ≡ true → (if b then x else y) ≡ true
true-if true x y h k = h refl
true-if false x y h k = k

-- A packet comes before a time, and if it is of the source itself, at most a minute before.
abbrev pub IsNear : Bytes → ℕ → Bytes → ℕ → Type 0
IsNear ip t other now = (now ≤ t) × (other ≡ ip → t < now + 60000)

last-same : (b : Bool) (other ip : Bytes) → (b && other == ip) ≡ true → other ≡ ip
last-same b other ip h = (bytes_beq_iff other ip).0 (ground (arith, h))

cause_time_least : (cause : Cause) (d : ℕ) → cause_time cause ≡ some d → 60000 ≤ d
cause_time_least (flood a b c) d e = ground (arith, e)
cause_time_least (tunnel a b) d e = ground (arith, e)
cause_time_least (dga a b) d e = ground (arith, e)
cause_time_least dns_quarantine d e = absurd (cc e)
cause_time_least (rogue_dhcp a b) d e = absurd (cc e)
cause_time_least (darknet a) d e = absurd (cc e)
cause_time_least (arp_spoof a b) d e = absurd (cc e)
cause_time_least (gateway_changed a b c) d e = absurd (cc e)
cause_time_least (port_scan a b c) d e = absurd (cc e)
cause_time_least (rebinding a) d e = absurd (cc e)
cause_time_least (hosts_tamper a) d e = absurd (cc e)
cause_time_least (other_cause a) d e = absurd (cc e)

block_time_least : (i : Option SecurityIncident) (d : ℕ) → block_time i ≡ some d → 60000 ≤ d
block_time_least none d e = absurd (cc e)
block_time_least (some incident) d e = cause_time_least incident.cause d e

module _ (ip : Bytes) (t : ℕ) where
  -- The blocks are the same.
  pub same-IsStopped :
      (e e' : SecurityEngine)
      → e'.blocked_ips ≡ e.blocked_ips
      → IsStopped ip t e
      → IsStopped ip t e'
  same-IsStopped e e' same (u, stopped) =
      (rw same u, blocked_at-get e' ip t ∙ rw same (sym (blocked_at-get e ip t)) ∙ stopped)

  pub enforce_hard_rate_limit-IsStopped :
      (e : SecurityEngine) (other : Bytes) (now : ℕ)
      → IsNear ip t other now
      → IsStopped ip t e
      → IsStopped ip t (enforce_hard_rate_limit e other now).0
  enforce_hard_rate_limit-IsStopped e other now (past, soon) (u, stopped) = (
    enforce_hard_rate_limit-AreUnique e other now u,
    enforce_hard_rate_limit-blocked_at e other ip now t u past
        ∙ true-if _ _ _
            (λ h.
              lt→ltb t (now + 60000)
                (soon (last-same (is_alerted e other now) other ip (ground (arith, h)))))
            stopped,
  )

  -- A block that is over does not stop its source later.
  over-free :
      (e : SecurityEngine) (expiry now : ℕ)
      → now ≤ t
      → get e.blocked_ips ip ≡ some expiry
      → ltb now expiry ≡ false
      → blocked_at e ip t ≡ false
  over-free e expiry now past held over =
      blocked_at-get e ip t ∙ rw held (ground (arith, past, over))

  checked-stopped :
      (e : SecurityEngine) (other : Bytes) (now : ℕ)
      → now ≤ t
      → blocked_at e ip t ≡ true
      → blocked_at (is_ip_temporarily_blocked e other now).0 ip t ≡ true
  unfolding is_ip_temporarily_blocked
  checked-stopped e other now past stopped = elim (Option-cases (get e.blocked_ips other)) [
    | inl free ↦ rw (free, is_ip_temporarily_blocked) stopped
    | inr (expiry, held) ↦ elim (Bool-cases (ltb now expiry)) [
      | inl live ↦ rw (held, live, is_ip_temporarily_blocked) stopped
      | inr over ↦
          rw (held, over, is_ip_temporarily_blocked)
            (elim (Bool-cases (other == ip)) [
              | inl same ↦
                  let free =
                    over-free e expiry now past
                      (ap (get e.blocked_ips) (sym ((bytes_beq_iff other ip).0 same)) ∙ held)
                      over in
                  absurd (cc (free, stopped))
              | inr others ↦
                  blocked_at-get (record e { blocked_ips = remove other e.blocked_ips }) ip t
                  ∙ rw (get-remove other ip e.blocked_ips, others) (sym (blocked_at-get e ip t))
                  ∙ stopped
            ])
    ]
  ]

  pub is_ip_temporarily_blocked-IsStopped :
      (e : SecurityEngine) (other : Bytes) (now : ℕ)
      → IsNear ip t other now
      → IsStopped ip t e
      → IsStopped ip t (is_ip_temporarily_blocked e other now).0
  is_ip_temporarily_blocked-IsStopped e other now (past, soon) (u, stopped) =
      (is_ip_temporarily_blocked-AreUnique e other now u, checked-stopped e other now past stopped)

  -- Each of the blocks lasts two minutes at least.
  later-stopped :
      (e : SecurityEngine) (other : Bytes) (now : ℕ) (incident : Option SecurityIncident)
      → IsNear ip t other now
      → blocked_at e ip t ≡ true
      → stopped_later e other now ip t (block_time incident) ≡ true
  later-stopped e other now incident (past, soon) stopped =
      elim (Option-cases (block_time incident)) [
        | inl unblocked ↦ rw unblocked stopped
        | inr (duration, found) ↦ rw found (
            true-if _ _ _
              (λ h. lt→ltb t (now + duration) (
                more duration (soon (last-same _ other ip h))
                  (block_time_least incident duration found)))
              stopped)
      ]
    where
      more : (d : ℕ) → t < now + 60000 → 60000 ≤ d → t < now + d
      more d h k = omega arith

  pub inspect_dns_query-IsStopped :
      (f : Float64) (e : SecurityEngine) (other domain : Bytes) (now : ℕ)
      → IsNear ip t other now
      → IsStopped ip t e
      → IsStopped ip t (inspect_dns_query f e other domain now).0
  inspect_dns_query-IsStopped f e other domain now (past, soon) (u, stopped) = (
    inspect_dns_query-AreUnique f e other domain now u,
    inspect_dns_query-blocked_at f e other domain ip now t u past
        ∙ later-stopped e other now (inspect_dns_query f e other domain now).1 (past, soon) stopped,
  )
