-- ===== src/Dns/Handler.antt =====
-- The state that a packet reaches, the replies of `handle_dns_packet` of src/modules/dns/mod.rs and the
-- answer to a query that nothing blocks.
pub mod Route
pub mod Parts
pub mod Replies
pub mod Admission
pub mod Blocking
pub mod Silenced
pub mod Lasting
pub mod Silence
pub mod Bounds
use shield_ghita.Prelude.{
  ℕ, zero, suc, ◌+◌, ◌-◌, ◌*◌, ◌/◌, ◌%◌, ◌^◌, ◌≤◌, ◌<◌, ◌≡◌, refl, sym, ap, ◌∙◌, ◌↔◌, ◌⊎◌, ◌≢◌, inl,
  inr, Bool, true, false, not, ◌&&◌, ◌||◌, Option, none, some, List, [], ◌∷◌, ◌++◌, map, arith,
  Bytes, Key, ◌==◌, nat_eq, bytes_eq, pair_eq, ltb, leb, if◌then◌else◌, Bool-cases, Option-cases,
  is_empty, any, all, max, min, length, take, drop, get_elem?, contains, set_insert, set_remove,
  retain, IsIn, any-intro, any-elim, contains-IsIn, IsIn-contains, IsIn-retain, retain-IsIn,
  contains-set_insert, contains-set_remove, nat_beq_iff, bytes_beq_iff, ==_refl, ||-eq-true,
  &&-eq-true, get, insert, remove, get-insert, get-remove, length-insert-le, length-remove-le,
  length-retain-le, length-append, length-take, length-drop, tests, take-append_length,
  drop-append_length, insert_by_rank, sort_by_rank, remove_all, length-insert_by_rank,
  insert_by_rank-IsIn, length-sort_by_rank, sort_by_rank-IsIn, length-remove-lt,
  length-remove_all-le, remove_some, remove_all-IsIn, remove_all-IsUnique, not_ltb→le, not_leb→lt,
  ltb→lt, le→leb, IsUnique, insert-IsIn, remove-IsIn, get-IsIn, IsIn-get, insert-IsUnique,
  remove-IsUnique, retain-IsUnique, map-IsIn, IsIn-map,
}
use shield_ghita.Text.{codes}
use shield_ghita.Outcome.{Outcome, ret, panic, out_of_fuel, ◌>>=◌}
use shield_ghita.Security.Engine.{
  SecurityEngine, SecurityIncident, rebinding, critical, is_ip_temporarily_blocked, record_incident,
}
use shield_ghita.Security.Quarantine.{is_quarantined}
use shield_ghita.Security.Flood.{enforce_hard_rate_limit}
use shield_ghita.Security.Names.{Float64, is_darknet_pseudo_tld}
use shield_ghita.Security.Inspection.{inspect_dns_query}
use shield_ghita.Monitor.Logs.{QueryLog, LogEntry, push_log}
use shield_ghita.Monitor.Activity.{ActivityMap, record_activity}
use shield_ghita.Monitor.Stats.{BlockStats, Today, record_stats_block}
use shield_ghita.Dns.Filter.{DnsFilter, should_block}
use shield_ghita.Dns.ClientPolicy.{
  ClientMode, default_mode, trusted, strict, AdBlockControls, is_paused, mode_for_client,
  record_block,
}
use shield_ghita.Dns.Wire.{parse_query_info}
use shield_ghita.Dns.Reply.{
  build_nxdomain, build_servfail, build_sinkhole_a_record, build_sinkhole_aaaa_record,
  response_matches_query,
}
use shield_ghita.Dns.Rebinding.{forwarded_answer_hits_private_space}
use shield_ghita.Dns.Rebinding.Incidents.{RebindCooldown, take_rebind_incident_slot}
use shield_ghita.Dns.ResponseCache.{ResponseCache, cached_response_for, store_cache_response}

pub record ResponseOverride : Type 0 where
  pub ipv4 : Bytes
  pub ipv6 : Bytes

-- The state that a packet reaches, of `DnsBlocker` and `NetworkMonitor`.
pub record Shield (Address : Type 0) : Type 0 where
  pub filter : DnsFilter
  pub adblock : AdBlockControls Address
  pub response_policy : Option (Bytes → Bytes → ℕ → Option ResponseOverride)
  pub cache : ResponseCache
  pub rebind_cooldown : RebindCooldown
  pub silent_sinkhole : Bool
  pub total_queries : ℕ
  pub blocked_count : ℕ
  pub security : SecurityEngine
  pub log : QueryLog
  pub activity : ActivityMap
  pub block_stats : BlockStats

-- What the handler reads of the outside: the clocks before and after the upstream's answer, the
-- calendar, and the bodies that the upstream resolvers return in time, in the order of their arrival.
pub record Outside : Type 0 where
  pub now : ℕ
  pub wall : ℕ
  pub today : Today
  pub time : Bytes
  pub answered : ℕ
  pub bodies : List Bytes

abbrev or_nxdomain : Bytes → Option Bytes → Option Bytes
or_nxdomain pkt none = build_nxdomain pkt
or_nxdomain pkt (some r) = some r

-- The reply to an A query has the address of 4 bytes, to an AAAA query the one of 16, and to any other
-- query neither.
abbrev pub or_else_nxdomain : Bytes → Outcome (Option Bytes) → Outcome (Option Bytes)
or_else_nxdomain pkt built = do r ← built; ret (or_nxdomain pkt r)

unfoldable pub sinkhole_response : Bytes → ℕ → ResponseOverride → Outcome (Option Bytes)
sinkhole_response pkt qtype over =
    if qtype == 1
    then or_else_nxdomain pkt (build_sinkhole_a_record pkt over.ipv4)
    else if qtype == 28
    then or_else_nxdomain pkt (build_sinkhole_aaaa_record pkt over.ipv6)
    else ret (build_nxdomain pkt)

abbrev pub zeros : ℕ → Bytes
zeros zero = []
zeros (suc n) = 0 ∷ zeros n

abbrev pub sinkhole_override : Bool → ResponseOverride
sinkhole_override silent = record {
  ipv4 = if silent then 127 ∷ 0 ∷ 0 ∷ 1 ∷ [] else zeros 4;
  ipv6 = zeros 16;
}

-- `forward_parallel_racing`: the first body of at most 64 KiB that answers the query.
unfoldable pub first_answer : List Bytes → Bytes → Outcome (Option Bytes)
first_answer [] pkt = ret none
first_answer (body ∷ bodies) pkt = do
  rest ← first_answer bodies pkt
  matches ← response_matches_query body pkt
  ret (if leb (length body) 65536 && matches then some body else rest)

module _ {Address : Type 0} where
  abbrev pub set_security : Shield Address → SecurityEngine → Shield Address
  set_security s e = record s { security = e }

  unfoldable pub add_log : Shield Address → Outside → Bytes → Bytes → Bool → Shield Address
  add_log s o domain source_ip is_blocked = record s {
    activity = record_activity s.activity source_ip domain is_blocked false o.time;
    log = push_log s.log (record {
      timestamp = o.time;
      domain = domain;
      source_ip = source_ip;
      is_blocked = is_blocked;
    });
  }

  abbrev pub note_threat : Shield Address → Outside → Bytes → Bytes → Shield Address
  note_threat s o domain source_ip = record s {
    activity = record_activity s.activity source_ip domain true true o.time;
  }

  abbrev pub count_block : Shield Address → Shield Address
  count_block s = record s { blocked_count = (s.blocked_count + 1) % 0x10000000000000000 }

  unfoldable pub record_rebind_incident : Shield Address → Bytes → Bytes → ℕ → Shield Address
  record_rebind_incident s src_ip query_name now =
      let (cooldown, granted) = take_rebind_incident_slot s.rebind_cooldown src_ip query_name now in
      record s {
        rebind_cooldown = cooldown;
        security =
            if granted
            then (record_incident s.security (rebinding query_name) src_ip critical).0
            else s.security;
      }

  abbrev pub apply_response_policy : Shield Address → Bytes → Bytes → ℕ → Option ResponseOverride
  apply_response_policy s src_ip name qtype = elim s.response_policy [
    | none ↦ none
    | some policy ↦ policy src_ip name qtype
  ]

  abbrev pub withhold : Shield Address → Bytes → Bytes → ℕ → Bytes → Shield Address × Option Bytes
  withhold s src_ip name now pkt = (record_rebind_incident s src_ip name now, build_nxdomain pkt)

  abbrev pub store_and_send :
      Shield Address → Outside → Bytes → ℕ → Bytes → Outcome (Shield Address × Option Bytes)
  store_and_send s o name qtype resp = do
    cache ← store_cache_response s.cache name qtype resp o.answered
    ret (record s { cache = cache }, some resp)

  -- `resp` stays what it was when no NXDOMAIN can be built.
  abbrev pub withhold_answer :
      Shield Address → Bytes → Bytes → ℕ → Bytes → Bytes → Shield Address × Option Bytes
  withhold_answer s src_ip name now pkt resp = (
    record_rebind_incident s src_ip name now,
    elim (build_nxdomain pkt) [ none ↦ some resp | some nx ↦ some nx ],
  )

  unfoldable pub deliver :
      Shield Address
      → Outside
      → Bytes
      → ℕ
      → Bytes
      → Bytes
      → Bytes
      → Outcome (Shield Address × Option Bytes)
  deliver s o name qtype pkt src_ip resp = do
    private ← forwarded_answer_hits_private_space s.filter.custom_allowed name resp
    if private
        then ret (withhold_answer s src_ip name o.answered pkt resp)
        else store_and_send s o name qtype resp

  abbrev pub forward :
      Shield Address
      → Outside
      → Bytes
      → ℕ
      → Bytes
      → Bytes
      → Option Bytes
      → Outcome (Shield Address × Option Bytes)
  forward s o name qtype pkt src_ip none = ret (s, build_servfail pkt)
  forward s o name qtype pkt src_ip (some resp) = deliver s o name qtype pkt src_ip resp

  abbrev pub serve_cached :
      Shield Address
      → Outside
      → Bytes
      → Bytes
      → Bytes
      → Bytes
      → Outcome (Shield Address × Option Bytes)
  serve_cached s o name pkt src_ip resp = do
    private ← forwarded_answer_hits_private_space s.filter.custom_allowed name resp
    ret (if private then withhold s src_ip name o.now pkt else (s, some resp))

  abbrev pub ask_upstream :
      Shield Address → Outside → Bytes → ℕ → Bytes → Bytes → Outcome (Shield Address × Option Bytes)
  ask_upstream s o name qtype pkt src_ip = do
    answer ← first_answer o.bodies pkt
    forward s o name qtype pkt src_ip answer

  -- The answer to a query that nothing blocks.
  unfoldable pub resolve :
      Shield Address → Outside → Bytes → ℕ → Bytes → Bytes → Outcome (Shield Address × Option Bytes)
  resolve s o name qtype pkt src_ip = do
    cached ← cached_response_for s.cache name qtype pkt o.now
    elim cached [
      | some resp ↦ serve_cached s o name pkt src_ip resp
      | none ↦ ask_upstream s o name qtype pkt src_ip
    ]

  abbrev pub block_query : Shield Address → Outside → Bytes → Bytes → Shield Address
  block_query s o name src_ip = add_log (count_block s) o name src_ip true

  -- A query for a name that the rules block.
  unfoldable pub block_ad : Shield Address → Outside → Bytes → Bytes → Shield Address
  block_ad s o name src_ip =
      let counted =
        block_query (record s { adblock = record_block s.adblock name src_ip o.wall }) o name
          src_ip in
      record counted { block_stats = record_stats_block counted.block_stats o.today }

  abbrev pub with_reply :
      Shield Address → Outcome (Option Bytes) → Outcome (Shield Address × Option Bytes)
  with_reply s reply = do r ← reply; ret (s, r)
