-- ===== src/Security/Engine.antt =====
-- The state of `SecurityEngine` in src/modules/security/mod.rs, its incidents, its temporary blocks
-- and its score. An instant is a number of milliseconds, and instants that a call reads are its
-- arguments. The localized texts of an incident are its cause.
pub mod Blocks
use shield_ghita.Prelude.{
  ℕ, zero, suc, ◌+◌, ◌-◌, ◌*◌, ◌/◌, ◌%◌, ◌^◌, ◌≤◌, ◌<◌, ◌≡◌, refl, sym, ap, ◌∙◌, ◌↔◌, ◌⊎◌, ◌≢◌, inl,
  inr, Bool, true, false, not, ◌&&◌, ◌||◌, Option, none, some, List, [], ◌∷◌, ◌++◌, map, arith,
  Bytes, Key, ◌==◌, nat_eq, bytes_eq, pair_eq, ltb, leb, if◌then◌else◌, Bool-cases, Option-cases,
  is_empty, any, all, max, min, length, take, drop, get_elem?, contains, set_insert, set_remove,
  retain, IsIn, any-intro, any-elim, contains-IsIn, IsIn-contains, IsIn-retain, retain-IsIn,
  contains-set_insert, contains-set_remove, nat_beq_iff, bytes_beq_iff, ==_refl, ||-eq-true,
  &&-eq-true, get, insert, remove, get-insert, get-remove, length-insert-le, length-remove-le,
  length-retain-le, length-append, length-take, length-drop, tests, take-append_length,
  drop-append_length, insert_by_rank, sort_by_rank, remove_all, length-insert_by_rank,
  insert_by_rank-IsIn, length-sort_by_rank, sort_by_rank-IsIn, length-remove-lt,
  length-remove_all-le, remove_some, remove_all-IsIn, remove_all-IsUnique, not_ltb→le, not_leb→lt,
  ltb→lt, le→leb, IsUnique, insert-IsIn, remove-IsIn, get-IsIn, IsIn-get, insert-IsUnique,
  remove-IsUnique, retain-IsUnique, map-IsIn, IsIn-map,
}
use shield_ghita.Text.{codes}
use shield_ghita.Security.Address.{show_ipv4}
use shield_ghita.Security.Quarantine.{
  QuarantineInventory, QuarantineInventory_default, Requested, refused, already, added,
  quarantine_ip,
}

pub data Severity : Type 0 where
  info high critical : Severity

-- What an incident's type, details and mitigation say, with the values that its details show.
pub data Cause : Type 0 where
  dns_quarantine : Cause
  rogue_dhcp : Bytes → Bytes → Cause
  flood : ℕ → ℕ → Bool → Cause
  tunnel : Bytes → Bool → Cause
  dga : Bytes → Bool → Cause
  darknet : Bytes → Cause
  arp_spoof : Bytes → Bytes → Cause
  gateway_changed : Bytes → Bytes → Bytes → Cause
  port_scan : ℕ → ℕ → Bool → Cause
  rebinding : Bytes → Cause
  hosts_tamper : Bytes → Cause
  -- What other modules report, by its title.
  other_cause : Bytes → Cause

pub record SecurityIncident : Type 0 where
  pub id : ℕ
  pub cause : Cause
  pub source_ip : Bytes
  pub severity : Severity

pub record SecurityEngine : Type 0 where
  pub attack_detection_enabled : Bool
  pub auto_block_enabled : Bool
  pub arp_spoof_detection_enabled : Bool
  pub dns_flood_rate_limit : ℕ
  pub ip_query_history : List (Bytes × List ℕ)
  pub hard_query_history : List (Bytes × List ℕ)
  pub hard_drop_count : ℕ
  pub blocked_ips : List (Bytes × ℕ)
  pub incidents : List SecurityIncident
  pub incident_counter : ℕ
  pub last_known_gateway : Option (Bytes × Bytes)
  pub quarantine : QuarantineInventory
  pub port_probe_history : List (Bytes × List (ℕ × ℕ))
  pub port_scan_alert_cooldown : List (Bytes × ℕ)
  pub hard_flood_alert_cooldown : List (Bytes × ℕ)
  pub flood_alert_cooldown : List (Bytes × ℕ)

abbrev pub SecurityEngine_new : SecurityEngine
SecurityEngine_new = record {
  attack_detection_enabled = false;
  auto_block_enabled = false;
  arp_spoof_detection_enabled = false;
  dns_flood_rate_limit = 80;
  ip_query_history = [];
  hard_query_history = [];
  hard_drop_count = 0;
  blocked_ips = [];
  incidents = [];
  incident_counter = 1;
  last_known_gateway = none;
  quarantine = QuarantineInventory_default;
  port_probe_history = [];
  port_scan_alert_cooldown = [];
  hard_flood_alert_cooldown = [];
  flood_alert_cooldown = [];
}

abbrev pub set_detection_enabled : SecurityEngine → Bool → SecurityEngine
set_detection_enabled e enabled = record e { attack_detection_enabled = enabled }

abbrev pub set_auto_block : SecurityEngine → Bool → SecurityEngine
set_auto_block e enabled = record e { auto_block_enabled = enabled }

abbrev pub set_arp_detection : SecurityEngine → Bool → SecurityEngine
set_arp_detection e enabled = record e { arp_spoof_detection_enabled = enabled }

abbrev pub is_loopback : Bytes → Bool
is_loopback ip = ip == codes "127.0.0.1" || ip == codes "::1"

-- An expired block is removed.
unfoldable pub is_ip_temporarily_blocked : SecurityEngine → Bytes → ℕ → SecurityEngine × Bool
is_ip_temporarily_blocked e ip now = elim (get e.blocked_ips ip) [
  | none ↦ (e, false)
  | some expiry ↦
      if ltb now expiry
      then (e, true)
      else (record e { blocked_ips = remove ip e.blocked_ips }, false)
]

unfoldable pub block_ip_temporarily : SecurityEngine → Bytes → ℕ → ℕ → SecurityEngine
block_ip_temporarily e ip duration now =
    let live =
      if ltb 500 (length e.blocked_ips)
      then retain (λ entry. ltb now entry.1) e.blocked_ips
      else e.blocked_ips in
    if is_loopback ip then e else record e { blocked_ips = insert ip (now + duration) live }

abbrev pub unblock_ip : SecurityEngine → Bytes → SecurityEngine
unblock_ip e ip = record e { blocked_ips = remove ip e.blocked_ips }

-- The newest incident stands first, and at most 500 are kept.
unfoldable pub record_incident :
    SecurityEngine → Cause → Bytes → Severity → SecurityEngine × SecurityIncident
record_incident e cause source_ip severity =
    let incident : SecurityIncident = record {
      id = e.incident_counter;
      cause = cause;
      source_ip = source_ip;
      severity = severity;
    } in
    (
      record e {
        incidents = take 500 (incident ∷ e.incidents);
        incident_counter = (e.incident_counter + 1) % 0x10000000000000000;
      },
      incident,
    )

abbrev pub clear_incidents : SecurityEngine → SecurityEngine
clear_incidents e = record e { incidents = [] }

abbrev pub clamp : ℕ → ℕ → ℕ → ℕ
clamp least most n = max least (min most n)

-- The subtraction stops at 0 where the source goes below it, and the clamp makes them equal.
unfoldable pub get_security_score : SecurityEngine → ℕ
get_security_score e =
    let detection = if e.attack_detection_enabled then 0 else 25 in
    let auto_block = if e.auto_block_enabled then 0 else 15 in
    clamp 10 100 (100 - detection - auto_block - length e.incidents * 5)

-- The incident of a request: a new quarantine has one.
abbrev pub record_quarantine : SecurityEngine → Requested → SecurityEngine
record_quarantine e (refused reason) = e
record_quarantine e already = e
record_quarantine e (added address) = (record_incident e dns_quarantine (show_ipv4 address) high).0

-- The whole of `quarantine_ip`, on the engine.
unfoldable pub request_quarantine : SecurityEngine → Bytes → ℕ → SecurityEngine × Requested
request_quarantine e ip now =
    let asked = quarantine_ip e.quarantine ip now in
    (record_quarantine (record e { quarantine = asked.0 }) asked.1, asked.1)
