-- ===== src/Dns/Handler/Route.antt =====
-- `handle_dns_packet` of src/modules/dns/mod.rs: what one packet does to the state of the filter, of the
-- security engine and of the monitor, and the reply that is sent, if any.
use shield_ghita.Prelude.{
  ℕ, ◌+◌, ◌%◌, Bool, false, not, Option, none, some, Bytes, Key, nat_eq, bytes_eq, pair_eq,
  if◌then◌else◌,
}
use shield_ghita.Outcome.{Outcome, ret, ◌>>=◌}
use shield_ghita.Security.Engine.{SecurityIncident, is_ip_temporarily_blocked}
use shield_ghita.Security.Quarantine.{is_quarantined}
use shield_ghita.Security.Flood.{enforce_hard_rate_limit}
use shield_ghita.Security.Names.{Float64, is_darknet_pseudo_tld}
use shield_ghita.Security.Inspection.{inspect_dns_query}
use shield_ghita.Dns.Filter.{should_block}
use shield_ghita.Dns.ClientPolicy.{
  ClientMode, default_mode, trusted, strict, is_paused, mode_for_client,
}
use shield_ghita.Dns.Wire.{parse_query_info}
use shield_ghita.Dns.Reply.{build_nxdomain}
use shield_ghita.Dns.Handler.{
  Shield, Outside, sinkhole_response, sinkhole_override, set_security, add_log, note_threat,
  apply_response_policy, resolve, block_query, block_ad, with_reply,
}

-- Addresses are a type with their printing and `is_loopback`.
module _ {Address : Type 0} ⦃key : Key Address⦄ (f : Float64) (show_address : Address → Bytes)
    (is_loopback_address : Address → Bool) where
  abbrev pub judge_client : Shield Address → Address → Bytes → ClientMode → Bool × Shield Address
  judge_client s src name trusted = (false, s)
  judge_client s src name strict = (not (is_loopback_address src), s)
  judge_client s src name default_mode =
      let (blocked, filter) = should_block s.filter name in (blocked, record s { filter = filter })

  -- `ad_enforced`
  unfoldable pub judge_ad : Shield Address → Outside → Address → Bytes → Bool × Shield Address
  judge_ad s o src name =
      if is_paused s.adblock o.wall
      then (false, s)
      else judge_client s src name (mode_for_client s.adblock src)

  unfoldable pub filter_query :
      Shield Address
      → Outside
      → Address
      → Bytes
      → ℕ
      → Bytes
      → Outcome (Shield Address × Option Bytes)
  filter_query s o src name qtype pkt =
      let (ad_enforced, judged) = judge_ad s o src name in
      if ad_enforced
      then with_reply (block_ad judged o name (show_address src))
          (sinkhole_response pkt qtype (sinkhole_override judged.silent_sinkhole))
      else resolve (add_log judged o name (show_address src) false) o name qtype pkt
          (show_address src)

  unfoldable pub apply_policy :
      Shield Address
      → Outside
      → Address
      → Bytes
      → ℕ
      → Bytes
      → Outcome (Shield Address × Option Bytes)
  apply_policy s o src name qtype pkt =
      elim (apply_response_policy s (show_address src) name qtype) [
        | some over ↦ with_reply s (sinkhole_response pkt qtype over)
        | none ↦ filter_query s o src name qtype pkt
      ]

  abbrev pub after_inspection :
      Shield Address × Option SecurityIncident
      → Outside
      → Address
      → Bytes
      → ℕ
      → Bytes
      → Outcome (Shield Address × Option Bytes)
  after_inspection (s, none) o src name qtype pkt = apply_policy s o src name qtype pkt
  after_inspection (s, some incident) o src name qtype pkt =
      let noted = note_threat s o name (show_address src) in
      if s.security.auto_block_enabled
      then ret (block_query noted o name (show_address src), build_nxdomain pkt)
      else apply_policy noted o src name qtype pkt

  abbrev pub inspect :
      Shield Address → Outside → Address → Bytes → Shield Address × Option SecurityIncident
  inspect s o src name =
      let (security, incident) = inspect_dns_query f s.security (show_address src) name o.now in
      (set_security s security, incident)

  -- A query of a source that may ask.
  unfoldable pub admit_query :
      Shield Address
      → Outside
      → Address
      → Bytes
      → ℕ
      → Bytes
      → Outcome (Shield Address × Option Bytes)
  admit_query s o src name qtype pkt =
      let counted = record s { total_queries = (s.total_queries + 1) % 0x10000000000000000 } in
      let inspected = inspect counted o src name in
      if is_darknet_pseudo_tld name
      then ret (
        block_query (note_threat inspected.0 o name (show_address src)) o name (show_address src),
        build_nxdomain pkt,
      )
      else after_inspection inspected o src name qtype pkt

  unfoldable pub handle_query :
      Shield Address
      → Outside
      → Address
      → Bytes
      → ℕ
      → Bytes
      → Outcome (Shield Address × Option Bytes)
  handle_query s o src name qtype pkt =
      let (limited, refused) = enforce_hard_rate_limit s.security (show_address src) o.now in
      let (checked, blocked) = is_ip_temporarily_blocked limited (show_address src) o.now in
      if refused
      then ret (set_security s limited, none)
      else if blocked
      then ret (set_security s checked, none)
      else if is_quarantined checked.quarantine (show_address src)
      then ret (set_security s checked, build_nxdomain pkt)
      else admit_query (set_security s checked) o src name qtype pkt

  abbrev pub handle_parsed :
      Shield Address
      → Outside
      → Address
      → Bytes
      → Option (Bytes × ℕ)
      → Outcome (Shield Address × Option Bytes)
  handle_parsed s o src pkt none = ret (s, none)
  handle_parsed s o src pkt (some (name, qtype)) = handle_query s o src name qtype pkt

  unfoldable pub handle_dns_packet :
      Shield Address → Outside → Address → Bytes → Outcome (Shield Address × Option Bytes)
  handle_dns_packet s o src pkt = do info ← parse_query_info pkt; handle_parsed s o src pkt info
