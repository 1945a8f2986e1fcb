-- ===== src/Dns/Handler/Silence.antt =====
-- What an attack does to the later packets of its source, `handle_dns_packet` of src/modules/dns/mod.rs.
use shield_ghita.Prelude.{
  ℕ, ◌+◌, ◌%◌, ◌≤◌, ◌<◌, ◌≡◌, refl, sym, ap, ◌∙◌, inl, inr, Bool, true, false, Option, none, some,
  List, arith, Bytes, Key, ◌==◌, nat_eq, bytes_eq, pair_eq, Bool-cases, ==_refl, lt→ltb, IsUnique,
}
use shield_ghita.Outcome.{ret, Ensures, Ensures-if, Ensures-weaken}
use shield_ghita.Security.Engine.{
  SecurityEngine, SecurityIncident, is_loopback, is_ip_temporarily_blocked,
}
use shield_ghita.Security.Engine.Blocks.{blocked_at, blocked_at-get}
use shield_ghita.Security.Quarantine.{is_quarantined}
use shield_ghita.Security.Flood.{enforce_hard_rate_limit}
use shield_ghita.Security.Names.{Float64, is_darknet_pseudo_tld}
use shield_ghita.Security.Inspection.{inspect_dns_query}
use shield_ghita.Security.Inspection.Lasting.{IsStopped}
use shield_ghita.Security.Inspection.Uniqueness.{
  is_ip_temporarily_blocked-AreUnique, inspect_dns_query-AreUnique,
}
use shield_ghita.Dns.Handler.Bounds.Packets.{after_packets}
use shield_ghita.Dns.Handler.Silenced.{IsSilenced}
use shield_ghita.Dns.Handler.Lasting.{AreNear, after_packets-IsSilenced}
use shield_ghita.Security.Inspection.Mitigation.{
  block_time, inspect_dns_query-blocked_at, inspect_dns_query-IsSameMode,
}
use shield_ghita.Dns.Wire.{parse_query_info}
use shield_ghita.Dns.Handler.{Shield, Outside, set_security, add_log}
use shield_ghita.Dns.Handler.Route.{after_inspection, admit_query, handle_query, handle_dns_packet}
use shield_ghita.Dns.Handler.Admission.{
  stopped, admitted, admission, enforce_hard_rate_limit_passes, checked-quarantine, Treats,
  handle_dns_packet-Treats,
}
use shield_ghita.Dns.Handler.Blocking.{handle_parsed-some}

-- The security engine when a query of an admitted source is inspected.
abbrev pub entered : SecurityEngine → Bytes → ℕ → SecurityEngine
entered e ip now = (is_ip_temporarily_blocked (enforce_hard_rate_limit e ip now).0 ip now).0

admission_cases :
    (e : SecurityEngine) (ip : Bytes) (now : ℕ)
    → admission e ip now ≡ admitted
    → ((enforce_hard_rate_limit e ip now).1 ≡ false)
      × (blocked_at e ip now ≡ false)
      × (is_quarantined e.quarantine ip ≡ false)
admission_cases e ip now h = elim (Bool-cases (enforce_hard_rate_limit e ip now).1) [
  | inl refused ↦ absurd (cc (rw refused at h))
  | inr passes ↦ elim (Bool-cases (blocked_at e ip now)) [
    | inl blocked ↦ absurd (cc (rw (passes, blocked) at h))
    | inr free ↦ elim (Bool-cases (is_quarantined e.quarantine ip)) [
      | inl alone ↦ absurd (cc (rw (passes, free, alone) at h))
      | inr at_large ↦ (passes, free, at_large)
    ]
  ]
]

checked_mode :
    (e : SecurityEngine) (ip : Bytes) (now : ℕ)
    → (is_ip_temporarily_blocked e ip now).0.auto_block_enabled ≡ e.auto_block_enabled
unfolding is_ip_temporarily_blocked
checked_mode e ip now = ground arith

module _ {Address : Type 0} ⦃key : Key Address⦄ (f : Float64) (show_address : Address → Bytes)
    (is_loopback_address : Address → Bool) where
  admitted-handle_query :
      (s : Shield Address) (o : Outside) (src : Address) (name : Bytes) (qtype : ℕ) (pkt : Bytes)
      → admission s.security (show_address src) o.now ≡ admitted
      → handle_query f show_address is_loopback_address s o src name qtype pkt
        ≡ admit_query f show_address is_loopback_address
            (set_security s (entered s.security (show_address src) o.now))
            o
            src
            name
            qtype
            pkt
  unfolding handle_query
  admitted-handle_query s o src name qtype pkt h =
      let ip = show_address src in
      let limited = enforce_hard_rate_limit s.security ip o.now in
      let (passes, free, at_large) = admission_cases s.security ip o.now h in
      let (blocks, quarantine, mode) = enforce_hard_rate_limit_passes s.security ip o.now passes in
      let same : (is_ip_temporarily_blocked limited.0 ip o.now).1 ≡ false =
        blocked_at-get limited.0 ip o.now
        ∙ rw blocks (sym (blocked_at-get s.security ip o.now))
        ∙ free in
      let kept : (is_ip_temporarily_blocked limited.0 ip o.now).0.quarantine
          ≡ s.security.quarantine =
        checked-quarantine limited.0 ip o.now ∙ quarantine in
      rw (passes, same, kept, at_large) refl

  after_inspection-security :
      (s : Shield Address) (incident : Option SecurityIncident) (o : Outside) (src : Address)
      (name : Bytes) (qtype : ℕ) (pkt : Bytes) (duration : ℕ)
      → block_time incident ≡ some duration
      → s.security.auto_block_enabled ≡ true
      → Ensures
          (after_inspection f show_address is_loopback_address (s, incident) o src name qtype pkt)
          (λ r. r.0.security ≡ s.security)
  unfolding add_log
  after_inspection-security s none o src name qtype pkt duration found ips = absurd (cc found)
  after_inspection-security s (some incident) o src name qtype pkt duration found ips =
      Ensures-if s.security.auto_block_enabled _ _ (λ r. r.0.security ≡ s.security)
        (λ y. (_, refl, refl)) (λ n. absurd (cc (ips, n)))

  admit_query-security :
      (s : Shield Address) (o : Outside) (src : Address) (name : Bytes) (qtype : ℕ) (pkt : Bytes)
      (duration : ℕ)
      → block_time (inspect_dns_query f s.security (show_address src) name o.now).1 ≡ some duration
      → s.security.auto_block_enabled ≡ true
      → Ensures
          (admit_query f show_address is_loopback_address s o src name qtype pkt)
          (λ r. r.0.security ≡ (inspect_dns_query f s.security (show_address src) name o.now).0)
  unfolding admit_query add_log
  admit_query-security s o src name qtype pkt duration found ips =
      let inspected = inspect_dns_query f s.security (show_address src) name o.now in
      let counted = record s {
        total_queries = (s.total_queries + 1) % 0x10000000000000000;
        security = inspected.0;
      } in
      Ensures-if (is_darknet_pseudo_tld name) _ _ (λ r. r.0.security ≡ inspected.0)
        (λ y. (_, refl, refl))
        (λ n.
          after_inspection-security counted inspected.1 o src name qtype pkt duration found
            (inspect_dns_query-IsSameMode f s.security (show_address src) name o.now ∙ ips))

  -- A packet of a source that is blocked has no reply.
  blocked_at-handle_dns_packet :
      (s : Shield Address) (o : Outside) (src : Address) (pkt : Bytes)
      → blocked_at s.security (show_address src) o.now ≡ true
      → Ensures (handle_dns_packet f show_address is_loopback_address s o src pkt) (λ r. r.1 ≡ none)
  blocked_at-handle_dns_packet s o src pkt blocked =
      let (info, e, treated) =
        handle_dns_packet-Treats f show_address is_loopback_address s o src pkt in
      Ensures-weaken _ (Treats s o (show_address src) pkt info) (λ r. r.1 ≡ none) treated
        (unanswered info)
    where
      stops : admission s.security (show_address src) o.now ≡ stopped
      stops = elim (Bool-cases (enforce_hard_rate_limit s.security (show_address src) o.now).1) [
        | inl refused ↦ rw refused refl
        | inr passes ↦ rw (passes, blocked) refl
      ]

      unanswered :
          (info : Option (Bytes × ℕ)) (r : Shield Address × Option Bytes)
          → Treats s o (show_address src) pkt info r
          → r.1 ≡ none
      unanswered none r same = ap (λ p. p.1) same
      unanswered (some (name, qtype)) r ends = rw stops at ends

  -- After a query of an admitted source, not loopback, for which the inspection reports a flood, a
  -- tunnel or a generated name in IPS mode, every packet of that source within the next 300, 180 or 120
  -- seconds has no reply, whatever packets of other sources are handled between the two, and whatever
  -- packets of the source itself that come less than a minute before it.
  pub handle_dns_packet_silences :
      (s : Shield Address) (o o' : Outside) (src : Address) (pkt pkt' name : Bytes)
      (qtype duration : ℕ) (packets : List (Outside × Address × Bytes))
      → IsUnique s.security.blocked_ips
      → parse_query_info pkt ≡ ret (some (name, qtype))
      → admission s.security (show_address src) o.now ≡ admitted
      → s.security.auto_block_enabled ≡ true
      → is_loopback (show_address src) ≡ false
      → block_time
          (inspect_dns_query f
            (entered s.security (show_address src) o.now)
            (show_address src)
            name
            o.now).1
        ≡ some duration
      → o.now ≤ o'.now
      → o'.now < o.now + duration
      → AreNear show_address (show_address src) o'.now packets
      → Ensures (handle_dns_packet f show_address is_loopback_address s o src pkt) (λ first.
        Ensures (after_packets f show_address is_loopback_address first.0 packets) (λ later.
          Ensures
            (handle_dns_packet f show_address is_loopback_address later o' src pkt')
            (λ last. last.1 ≡ none)))
  handle_dns_packet_silences s o o' src pkt pkt' name qtype duration packets u e enters ips far
        attack after before near =
      let ip = show_address src in
      let (passes, free, at_large) = admission_cases s.security ip o.now enters in
      let (blocks, quarantine, mode) = enforce_hard_rate_limit_passes s.security ip o.now passes in
      let limited = (enforce_hard_rate_limit s.security ip o.now).0 in
      let inside = entered s.security ip o.now in
      let unique : IsUnique inside.blocked_ips =
        is_ip_temporarily_blocked-AreUnique limited ip o.now (rw blocks u) in
      let mode' : inside.auto_block_enabled ≡ true = checked_mode limited ip o.now ∙ mode ∙ ips in
      let stopped : IsStopped ip o'.now (inspect_dns_query f inside ip name o.now).0 = (
        inspect_dns_query-AreUnique f inside ip name o.now unique,
        inspect_dns_query-blocked_at f inside ip name ip o.now o'.now unique after
            ∙ rw (attack, mode', far, bytes_same ip) (lt→ltb _ _ before),
      ) in
      let Q : Shield Address → Type 0 = λ later.
        Ensures (handle_dns_packet f show_address is_loopback_address later o' src pkt')
          (λ last. last.1 ≡ none) in
      let P : Shield Address × Option Bytes → Type 0 =
        λ first. Ensures (after_packets f show_address is_loopback_address first.0 packets) Q in
      handle_parsed-some f show_address is_loopback_address s o src pkt (name, qtype) P e
        (rw (admitted-handle_query s o src name qtype pkt enters) (
          Ensures-weaken _ _ P
            (admit_query-security (set_security s inside) o src name qtype pkt duration attack
              mode')
            (λ first kept.
              Ensures-weaken _ (λ later. IsSilenced ip o'.now later) Q
                (after_packets-IsSilenced f show_address is_loopback_address ip o'.now packets
                  first.0 near (rw kept stopped))
                (λ later w. blocked_at-handle_dns_packet later o' src pkt' w.1))))
    where
      bytes_same : (ip : Bytes) → (ip == ip) ≡ true
      bytes_same ip = ==_refl ip
