-- ===== src/Dns/Handler/Admission.antt =====
-- Which sources `handle_dns_packet` of src/modules/dns/mod.rs answers, and what each packet gets.
use shield_ghita.Prelude.{
  ℕ, ◌≤◌, ◌≡◌, refl, sym, ◌∙◌, inl, inr, Bool, false, ◌||◌, Option, none, some, arith, Bytes, Key,
  nat_eq, bytes_eq, pair_eq, if◌then◌else◌, Bool-cases, length,
}
use shield_ghita.Outcome.{ret, Ensures}
use shield_ghita.Security.Engine.{SecurityEngine, is_ip_temporarily_blocked}
use shield_ghita.Security.Engine.Blocks.{blocked_at, blocked_at-get}
use shield_ghita.Security.Quarantine.{is_quarantined}
use shield_ghita.Security.Flood.{enforce_hard_rate_limit}
use shield_ghita.Security.Names.{Float64}
use shield_ghita.Dns.Wire.{parse_query_info}
use shield_ghita.Dns.Wire.Query.{parse_query_info-Returns}
use shield_ghita.Dns.Reply.{build_nxdomain}
use shield_ghita.Dns.Handler.{Shield, Outside, set_security}
use shield_ghita.Dns.Handler.Route.{handle_query, handle_parsed, handle_dns_packet}
use shield_ghita.Dns.Handler.Parts.{build_nxdomain-IsSome, parse_query_info-long}
use shield_ghita.Dns.Handler.Replies.{Sends, Replies, admit_query-Replies}

pub data Admission : Type 0 where
  stopped isolated admitted : Admission

-- What the state says of a source: stopped by the hard limit or a block, isolated by the quarantine, or
-- neither.
abbrev pub admission : SecurityEngine → Bytes → ℕ → Admission
admission e ip now =
    if (enforce_hard_rate_limit e ip now).1 || blocked_at e ip now
    then stopped
    else if is_quarantined e.quarantine ip
    then isolated
    else admitted

-- A query that passes the hard limit changes neither the blocks nor the quarantine.
pub enforce_hard_rate_limit_passes :
    (e : SecurityEngine) (ip : Bytes) (now : ℕ)
    → (enforce_hard_rate_limit e ip now).1 ≡ false
    → ((enforce_hard_rate_limit e ip now).0.blocked_ips ≡ e.blocked_ips)
      × ((enforce_hard_rate_limit e ip now).0.quarantine ≡ e.quarantine)
      × ((enforce_hard_rate_limit e ip now).0.auto_block_enabled ≡ e.auto_block_enabled)
unfolding enforce_hard_rate_limit
enforce_hard_rate_limit_passes e ip now passes = rw passes (refl, refl, refl)

pub checked-quarantine :
    (e : SecurityEngine) (ip : Bytes) (now : ℕ)
    → (is_ip_temporarily_blocked e ip now).0.quarantine ≡ e.quarantine
unfolding is_ip_temporarily_blocked
checked-quarantine e ip now = ground arith

module _ {Address : Type 0} where
  -- How a query of a source with this admission ends.
  abbrev pub Ends :
      Admission
      → Shield Address
      → Outside
      → Bytes
      → ℕ
      → Bytes
      → Shield Address × Option Bytes
      → Type 0
  Ends stopped s o name qtype pkt result = result.1 ≡ none
  Ends isolated s o name qtype pkt result = Sends (λ r. build_nxdomain pkt ≡ some r) result
  Ends admitted s o name qtype pkt result = Replies s o name qtype pkt result

  abbrev pub Treats :
      Shield Address
      → Outside
      → Bytes
      → Bytes
      → Option (Bytes × ℕ)
      → Shield Address × Option Bytes
      → Type 0
  Treats s o src_ip pkt none result = result ≡ (s, none)
  Treats s o src_ip pkt (some (name, qtype)) result =
      Ends (admission s.security src_ip o.now) s o name qtype pkt result

module _ {Address : Type 0} ⦃key : Key Address⦄ (f : Float64) (show_address : Address → Bytes)
    (is_loopback_address : Address → Bool) where
  handle_query-Ends :
      (s : Shield Address) (o : Outside) (src : Address) (name : Bytes) (qtype : ℕ) (pkt : Bytes)
      → 12 ≤ length pkt
      → Ensures
          (handle_query f show_address is_loopback_address s o src name qtype pkt)
          (Ends (admission s.security (show_address src) o.now) s o name qtype pkt)
  unfolding handle_query
  handle_query-Ends s o src name qtype pkt long =
      let ip = show_address src in
      let limited = enforce_hard_rate_limit s.security ip o.now in
      let checked = is_ip_temporarily_blocked limited.0 ip o.now in
      elim (Bool-cases limited.1) [
        | inl refused ↦ rw refused (_, refl, refl)
        | inr passes ↦
            let (blocks, quarantine, mode) =
              enforce_hard_rate_limit_passes s.security ip o.now passes in
            let same : checked.1 ≡ blocked_at s.security ip o.now =
              blocked_at-get limited.0 ip o.now
              ∙ rw blocks (sym (blocked_at-get s.security ip o.now)) in
            let kept : checked.0.quarantine ≡ s.security.quarantine =
              checked-quarantine limited.0 ip o.now ∙ quarantine in
            elim (Bool-cases (blocked_at s.security ip o.now)) [
              | inl blocked ↦ rw (passes, same, blocked) (_, refl, refl)
              | inr free ↦ elim (Bool-cases (is_quarantined s.security.quarantine ip)) [
                | inl alone ↦
                    let (nx, e) = build_nxdomain-IsSome pkt long in
                    rw (passes, same, free, kept, alone) (_, refl, (nx, e, e))
                | inr at_large ↦
                    rw (passes, same, free, kept, at_large)
                      (admit_query-Replies f show_address is_loopback_address o src name qtype pkt
                        long (set_security s checked.0))
              ]
            ]
      ]

  -- Every packet is treated to its end. One that is no query changes nothing and has no reply, and a
  -- source that is over the hard limit or blocked has none. A quarantined source is sent NXDOMAIN, and
  -- every other query is sent a reply: NXDOMAIN, a sinkhole's answer, SERVFAIL when no upstream body
  -- answers the query, or an answer of the cache or of the first such body in which the rebinding guard
  -- finds nothing.
  pub handle_dns_packet-Treats :
      (s : Shield Address) (o : Outside) (src : Address) (pkt : Bytes)
      → (info : Option (Bytes × ℕ)) × (parse_query_info pkt ≡ ret info)
        × Ensures
            (handle_dns_packet f show_address is_loopback_address s o src pkt)
            (Treats s o (show_address src) pkt info)
  unfolding handle_dns_packet
  handle_dns_packet-Treats s o src pkt =
      let (info, e) = parse_query_info-Returns pkt in (info, e, rw e (parsed info e))
    where
      parsed :
          (info : Option (Bytes × ℕ))
          → parse_query_info pkt ≡ ret info
          → Ensures
              (handle_parsed f show_address is_loopback_address s o src pkt info)
              (Treats s o (show_address src) pkt info)
      parsed none e = ((s, none), refl, refl)
      parsed (some (name, qtype)) e =
          handle_query-Ends s o src name qtype pkt (parse_query_info-long pkt (name, qtype) e)
