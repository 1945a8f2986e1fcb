-- ===== src/Dns/Handler/Bounds.antt =====
-- The memory that `handle_dns_packet` of src/modules/dns/mod.rs takes, and its counters.
pub mod Stages
pub mod Packets
use shield_ghita.Prelude.{
  ℕ, zero, suc, ◌+◌, ◌-◌, ◌*◌, ◌/◌, ◌%◌, ◌^◌, ◌≤◌, ◌<◌, ◌≡◌, refl, sym, ap, ◌∙◌, ◌↔◌, ◌⊎◌, ◌≢◌, inl,
  inr, Bool, true, false, not, ◌&&◌, ◌||◌, Option, none, some, List, [], ◌∷◌, ◌++◌, map, arith,
  Bytes, Key, ◌==◌, nat_eq, bytes_eq, pair_eq, ltb, leb, if◌then◌else◌, Bool-cases, Option-cases,
  is_empty, any, all, max, min, length, take, drop, get_elem?, contains, set_insert, set_remove,
  retain, IsIn, any-intro, any-elim, contains-IsIn, IsIn-contains, IsIn-retain, retain-IsIn,
  contains-set_insert, contains-set_remove, nat_beq_iff, bytes_beq_iff, ==_refl, ||-eq-true,
  &&-eq-true, get, insert, remove, get-insert, get-remove, length-insert-le, length-remove-le,
  length-retain-le, length-append, length-take, length-drop, tests, take-append_length,
  drop-append_length, insert_by_rank, sort_by_rank, remove_all, length-insert_by_rank,
  insert_by_rank-IsIn, length-sort_by_rank, sort_by_rank-IsIn, length-remove-lt,
  length-remove_all-le, remove_some, remove_all-IsIn, remove_all-IsUnique, not_ltb→le, not_leb→lt,
  ltb→lt, le→leb, IsUnique, insert-IsIn, remove-IsIn, get-IsIn, IsIn-get, insert-IsUnique,
  remove-IsUnique, retain-IsUnique, map-IsIn, IsIn-map,
}
use shield_ghita.Text.{to_lowercase}
use shield_ghita.Outcome.{
  Outcome, ret, panic, out_of_fuel, ◌>>=◌, Returns, Ensures, Ensures-bind, Ensures-if,
  Ensures-weaken,
}
use shield_ghita.Security.Engine.{
  SecurityEngine, SecurityIncident, is_ip_temporarily_blocked, record_incident, rebinding, critical,
}
use shield_ghita.Security.Quarantine.{is_quarantined}
use shield_ghita.Security.Flood.{enforce_hard_rate_limit}
use shield_ghita.Security.Names.{Float64, is_darknet_pseudo_tld}
use shield_ghita.Security.Inspection.{inspect_dns_query}
use shield_ghita.Security.Inspection.Reports.{
  Reports, quiet, reported, inspect_dns_query-Reports, enforce_hard_rate_limit-IsQuiet,
  is_ip_temporarily_blocked-IsQuiet,
}
use shield_ghita.Monitor.Logs.{LogEntry, QueryLog, push_log}
use shield_ghita.Monitor.Activity.{ActivityMap, Activity, shed_activity, record_activity}
use shield_ghita.Dns.Filter.{should_block}
use shield_ghita.Dns.ClientPolicy.{
  ClientMode, default_mode, trusted, strict, AdBlockControls, record_block, is_paused,
  mode_for_client,
}
use shield_ghita.Dns.ClientPolicy.Counters.{IsCapped, record_block-IsCapped}
use shield_ghita.Dns.Wire.{parse_query_info}
use shield_ghita.Dns.Wire.Query.{parse_query_info-Returns}
use shield_ghita.Dns.Reply.{build_nxdomain}
use shield_ghita.Dns.Rebinding.{forwarded_answer_hits_private_space}
use shield_ghita.Dns.Rebinding.Incidents.{
  RebindCooldown, take_rebind_incident_slot, take_rebind_incident_slot_cap,
}
use shield_ghita.Dns.ResponseCache.{
  ResponseCache, CachedResponse, shed_entries, cached_response_for, store_cache_response,
}
use shield_ghita.Dns.ResponseCache.Bounds.{length-shed_entries-le}
use shield_ghita.Dns.ResponseCache.Store.{Stored, store_cache_response-insert}
use shield_ghita.Dns.Handler.{
  Shield, Outside, ResponseOverride, set_security, add_log, note_threat, count_block, block_query,
  block_ad, record_rebind_incident, withhold_answer, store_and_send, deliver, forward, serve_cached,
  ask_upstream, resolve, first_answer, with_reply, sinkhole_response, sinkhole_override,
  apply_response_policy,
}
use shield_ghita.Dns.Handler.Route.{
  judge_client, judge_ad, filter_query, apply_policy, after_inspection, admit_query, handle_query,
  handle_parsed, handle_dns_packet,
}
use shield_ghita.Dns.Handler.Parts.{
  sinkhole_response-IsSome, first_answer-Returns, forwarded-Returns, cached_response_for-Returns,
  parse_query_info-long,
}

-- Every map and list that a packet may add to stays within its limit, and the filter has blocked no more
-- queries than it has counted, `spare` fewer at least.
pub record IsBounded {Address : Type 0} (spare queries : ℕ) (s : Shield Address) : Type 0 where
  pub log : length s.log.logs ≤ s.log.max_logs
  pub devices : length s.activity ≤ 4097
  pub answers : length s.cache ≤ 5501
  pub rebinds : length s.rebind_cooldown ≤ 1024
  pub incidents : length s.security.incidents ≤ 500
  pub statistics : IsCapped s.adblock
  pub counted : s.total_queries ≤ queries
  pub blocked : s.blocked_count + spare ≤ s.total_queries

pub length-record_activity-le :
    (m : ActivityMap) (ip domain : Bytes) (is_blocked is_threat : Bool) (time : Bytes)
    → length m ≤ 4097
    → length (record_activity m ip domain is_blocked is_threat time) ≤ 4097
unfolding record_activity shed_activity
length-record_activity-le m ip domain is_blocked is_threat time bound =
    elim (Bool-cases (ltb 4096 (length m))) [
      | inl full ↦ rw full (
          omega (
            arith,
            length-insert-le ip _ (drop (length m - 3072) m),
            length-drop (length m - 3072) m,
          ))
      | inr room ↦ rw room (omega (arith, length-insert-le ip _ m, not_ltb→le _ _ room))
    ]

pub length-push_log-le :
    (l : QueryLog) (entry : LogEntry) → length (push_log l entry).logs ≤ (push_log l entry).max_logs
unfolding push_log
length-push_log-le l entry = omega (arith, length-take l.max_logs (entry ∷ l.logs))

pub few-Reports :
    (e e' : SecurityEngine) → Reports e e' → length e.incidents ≤ 500 → length e'.incidents ≤ 500
few-Reports e e' (quiet same next) few = rw same few
few-Reports e e' (reported incident id same next) few =
    rw same (omega (arith, length-take 500 (incident ∷ e.incidents)))

module _ {Address : Type 0} (queries : ℕ) (s : Shield Address) where
  pub set_security-IsBounded :
      (spare : ℕ) (e : SecurityEngine)
      → length e.incidents ≤ 500
      → IsBounded spare queries s
      → IsBounded spare queries (set_security s e)
  set_security-IsBounded spare e few v = record {
    log = v.log;
    devices = v.devices;
    answers = v.answers;
    rebinds = v.rebinds;
    incidents = few;
    statistics = v.statistics;
    counted = v.counted;
    blocked = v.blocked;
  }

  pub add_log-IsBounded :
      (spare : ℕ) (o : Outside) (domain ip : Bytes) (is_blocked : Bool)
      → IsBounded spare queries s
      → IsBounded spare queries (add_log s o domain ip is_blocked)
  unfolding add_log
  add_log-IsBounded spare o domain ip is_blocked v = record {
    log = length-push_log-le s.log _;
    devices = length-record_activity-le s.activity ip domain is_blocked false o.time v.devices;
    answers = v.answers;
    rebinds = v.rebinds;
    incidents = v.incidents;
    statistics = v.statistics;
    counted = v.counted;
    blocked = v.blocked;
  }

  pub note_threat-IsBounded :
      (spare : ℕ) (o : Outside) (domain ip : Bytes)
      → IsBounded spare queries s
      → IsBounded spare queries (note_threat s o domain ip)
  note_threat-IsBounded spare o domain ip v = record {
    log = v.log;
    devices = length-record_activity-le s.activity ip domain true true o.time v.devices;
    answers = v.answers;
    rebinds = v.rebinds;
    incidents = v.incidents;
    statistics = v.statistics;
    counted = v.counted;
    blocked = v.blocked;
  }

  pub count_block-IsBounded :
      queries < 0x10000000000000000 → IsBounded 1 queries s → IsBounded 0 queries (count_block s)
  count_block-IsBounded room v = record {
    log = v.log;
    devices = v.devices;
    answers = v.answers;
    rebinds = v.rebinds;
    incidents = v.incidents;
    statistics = v.statistics;
    counted = v.counted;
    blocked = omega (arith, v.blocked, v.counted, room);
  }

  pub spared : IsBounded 1 queries s → IsBounded 0 queries s
  spared v = record {
    log = v.log;
    devices = v.devices;
    answers = v.answers;
    rebinds = v.rebinds;
    incidents = v.incidents;
    statistics = v.statistics;
    counted = v.counted;
    blocked = omega (arith, v.blocked);
  }

  pub record_rebind_incident-IsBounded :
      (ip name : Bytes) (now : ℕ)
      → IsBounded 0 queries s
      → IsBounded 0 queries (record_rebind_incident s ip name now)
  unfolding record_rebind_incident record_incident
  record_rebind_incident-IsBounded ip name now v = record {
    log = v.log;
    devices = v.devices;
    answers = v.answers;
    rebinds = take_rebind_incident_slot_cap s.rebind_cooldown ip name now v.rebinds;
    incidents = recorded (take_rebind_incident_slot s.rebind_cooldown ip name now).1;
    statistics = v.statistics;
    counted = v.counted;
    blocked = v.blocked;
  }
    where
      recorded :
          (granted : Bool)
          → length
              (if granted
                then (record_incident s.security (rebinding name) ip critical).0
                else s.security).incidents
            ≤ 500
      recorded true = omega (
        arith,
        length-take 500
            ((record_incident s.security (rebinding name) ip critical).1 ∷ s.security.incidents),
      )
      recorded false = v.incidents

  pub store-IsBounded :
      (cache : ResponseCache)
      → length cache ≤ 5501
      → IsBounded 0 queries s
      → IsBounded 0 queries (record s { cache = cache })
  store-IsBounded cache few v = record {
    log = v.log;
    devices = v.devices;
    answers = few;
    rebinds = v.rebinds;
    incidents = v.incidents;
    statistics = v.statistics;
    counted = v.counted;
    blocked = v.blocked;
  }

  pub record_block-IsBounded :
      (domain ip : Bytes) (wall : ℕ)
      → IsBounded 1 queries s
      → IsBounded 1 queries (record s { adblock = record_block s.adblock domain ip wall })
  record_block-IsBounded domain ip wall v = record {
    log = v.log;
    devices = v.devices;
    answers = v.answers;
    rebinds = v.rebinds;
    incidents = v.incidents;
    statistics = record_block-IsCapped s.adblock domain ip wall v.statistics;
    counted = v.counted;
    blocked = v.blocked;
  }
