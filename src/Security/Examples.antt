-- ===== src/Security/Examples.antt =====
-- Concrete runs of the intrusion detection of src/modules/security/mod.rs.
use shield_ghita.Prelude.{
  ℕ, zero, suc, ◌+◌, ◌<◌, ◌≡◌, refl, ◌↔◌, true, false, ◌&&◌, ◌||◌, none, some, List, [], ◌∷◌, map,
  arith, Bytes, ◌==◌, nat_eq, bytes_eq, pair_eq, ltb, if◌then◌else◌, length, take, contains, get,
  insert,
}
use shield_ghita.Text.{codes}
use shield_ghita.Security.Address.{show_ipv4, parse_ipv4, is_reserved, normalize_mac}
use shield_ghita.Security.Quarantine.{
  QuarantineInventory, QuarantineInventory_default, update_quarantine_inventory, observe,
  observe_all, normalized_ips, quarantine_ip, quarantine_address, bind_mac, unquarantine_ip,
  is_quarantined, added, refused, gateway_address,
}
use shield_ghita.Security.Quarantine.Laws.{
  updates, requests, releases, quarantine_calls, IsGuarded, quarantine_calls-IsGuarded,
}
use shield_ghita.Security.Quarantine.Requests.{
  CanBind, names_address, quarantine_ip_adds, is_quarantined-quarantine_ip,
}
use shield_ghita.Security.Quarantine.Release.{
  update_quarantine_inventory-get, other_owner, last_owner,
}
use shield_ghita.Security.Engine.{
  SecurityEngine_new, request_quarantine, record_incident, block_ip_temporarily,
}
use shield_ghita.Security.Engine.Blocks.{blocked_at}
use shield_ghita.Security.Flood.{
  prune_history, recent_queries, count_query, started_with, hard_limit, refuse_query,
  enforce_hard_rate_limit,
}
use shield_ghita.Security.Flood.Fair.{queries_of, after_queries, enforce_hard_rate_limit_fair}
use shield_ghita.Security.Flood.Refusal.{IsBounded, after_queries-IsBounded}
use shield_ghita.Security.Flood.Resumption.{enforce_hard_rate_limit_resumes}
use shield_ghita.Security.Flood.Isolation.{is_alerted, enforce_hard_rate_limit-blocked_at}

parsed_address : parse_ipv4 (codes " 192.168.1.50 ") ≡ some 0xC0A80132
unfolding parse_ipv4
parsed_address = refl

parsed_mac : normalize_mac (codes "aa-bb-cc-dd-ee-0f") ≡ some (codes "AA:BB:CC:DD:EE:0F")
unfolding normalize_mac
parsed_mac = refl

abbrev client : Bytes
client = codes "192.168.1.50"

abbrev host : List Bytes
host = codes "192.168.1.10" ∷ []

abbrev gateway : List Bytes
gateway = codes "192.168.1.1" ∷ []

abbrev arp_table : List (Bytes × Bytes)
arp_table = (client, codes "aa-bb-cc-dd-ee-0f") ∷ []

abbrev observed : QuarantineInventory
observed = record {
  entries = [];
  inventory = (0xC0A80132, codes "AA:BB:CC:DD:EE:0F") ∷ [];
  self_ips = 0xC0A8010A ∷ [];
  gateways = 0xC0A80101 ∷ [];
  observed_at = some 1000;
}

observed_test :
    update_quarantine_inventory QuarantineInventory_default arp_table host gateway 1000 ≡ observed
unfolding update_quarantine_inventory observe_all observe parse_ipv4 normalize_mac
observed_test = refl

client_binds : CanBind observed 0xC0A80132 2000 (codes "AA:BB:CC:DD:EE:0F")
unfolding is_reserved
client_binds = record {
  unreserved = refl;
  not_self = refl;
  not_gateway = refl;
  fresh = omega arith;
  has_self = refl;
  has_gateway = refl;
  known = refl;
  unbound = refl;
  room = omega arith;
}

client_added : (quarantine_ip observed client 2000).1 ≡ added 0xC0A80132
unfolding quarantine_ip quarantine_address bind_mac parse_ipv4 is_reserved
client_added = refl

gateway_refused : (quarantine_ip observed (codes "192.168.1.1") 2000).1 ≡ refused gateway_address
unfolding quarantine_ip quarantine_address parse_ipv4 is_reserved
gateway_refused = refl

quarantine_calls-IsGuarded_example : IsGuarded (
    quarantine_calls QuarantineInventory_default (
      (1000, updates arp_table host gateway)
      ∷ (2000, requests client)
      ∷ (3000, releases client)
      ∷ []))
quarantine_calls-IsGuarded_example = quarantine_calls-IsGuarded (
    (1000, updates arp_table host gateway) ∷ (2000, requests client) ∷ (3000, releases client) ∷ [])

quarantine_ip_adds_example :
    (((quarantine_ip observed client 2000).1 ≡ added 0xC0A80132)
      ↔ (◌≡◌ {A = ℕ} 0xC0A80132 0xC0A80132 × ((m : Bytes) × CanBind observed 0xC0A80132 2000 m)))
    × ((quarantine_ip observed client 2000 ≡ (
      record observed { entries = insert 0xC0A80132 (codes "AA:BB:CC:DD:EE:0F") observed.entries },
      added 0xC0A80132,
    ))
        ↔ CanBind observed 0xC0A80132 2000 (codes "AA:BB:CC:DD:EE:0F"))
unfolding parse_ipv4
quarantine_ip_adds_example =
    quarantine_ip_adds observed client 2000 0xC0A80132 0xC0A80132 (codes "AA:BB:CC:DD:EE:0F") refl

is_quarantined-quarantine_ip_example :
    (is_quarantined (quarantine_ip observed client 2000).0 client
      ≡ (names_address (parse_ipv4 client) 0xC0A80132 || is_quarantined observed client))
    × (is_quarantined (unquarantine_ip (quarantine_ip observed client 2000).0 client) client
        ≡ is_quarantined observed client)
is_quarantined-quarantine_ip_example =
    is_quarantined-quarantine_ip observed client client 2000 0xC0A80132 client_added

update_quarantine_inventory-get_example :
    get (update_quarantine_inventory observed arp_table host gateway 5000).entries 0xC0A80132 ≡ (
      if other_owner
          (get observed.entries 0xC0A80132)
          (last_owner 0xC0A80132 none (take 4096 arp_table))
        || contains (normalized_ips host) 0xC0A80132
        || contains (normalized_ips gateway) 0xC0A80132
      then none
      else get observed.entries 0xC0A80132)
update_quarantine_inventory-get_example =
    update_quarantine_inventory-get observed arp_table host gateway 5000 0xC0A80132

abbrev repeat : ℕ → Bytes × ℕ → List (Bytes × ℕ)
repeat zero query = []
repeat (suc n) query = query ∷ repeat n query

abbrev loopback : Bytes
loopback = codes "127.0.0.1"

few_queries : queries_of loopback 900 (repeat 199 (loopback, 500)) < hard_limit 1 loopback
unfolding queries_of hard_limit
few_queries = omega arith

enforce_hard_rate_limit_fair_example :
    (enforce_hard_rate_limit
      (after_queries (started_with 1) (repeat 199 (loopback, 500)))
      loopback
      900).1
    ≡ false
enforce_hard_rate_limit_fair_example =
    enforce_hard_rate_limit_fair 1 (repeat 199 (loopback, 500)) loopback 900 few_queries

flood_refused :
    (enforce_hard_rate_limit
      (after_queries (started_with 1) (repeat 200 (loopback, 500)))
      loopback
      900).1
    ≡ true
unfolding enforce_hard_rate_limit after_queries count_query prune_history recent_queries hard_limit
    refuse_query block_ip_temporarily
flood_refused = refl

many_later : length (repeat 189 (loopback, 900)) + 10 < hard_limit 1 loopback
unfolding hard_limit
many_later = omega arith

enforce_hard_rate_limit_resumes_example :
    (enforce_hard_rate_limit
      (after_queries
        (enforce_hard_rate_limit
          (after_queries (started_with 1) (repeat 200 (loopback, 500)))
          loopback
          900).0
        (repeat 189 (loopback, 900)))
      loopback
      900).1
    ≡ false
enforce_hard_rate_limit_resumes_example =
    enforce_hard_rate_limit_resumes 1 (repeat 200 (loopback, 500)) (repeat 189 (loopback, 900))
      loopback 900 900 flood_refused many_later

after_queries-IsBounded_example :
    IsBounded 1 (after_queries (started_with 1) (repeat 3 (client, 500))).hard_query_history
after_queries-IsBounded_example = after_queries-IsBounded 1 (repeat 3 (client, 500))

enforce_hard_rate_limit-blocked_at_example :
    blocked_at (enforce_hard_rate_limit (started_with 1) client 900).0 loopback 1000 ≡ (
      if (enforce_hard_rate_limit (started_with 1) client 900).1
        && (is_alerted (started_with 1) client 900 && client == loopback)
      then ltb 1000 (900 + 60000)
      else blocked_at (started_with 1) loopback 1000)
enforce_hard_rate_limit-blocked_at_example =
    enforce_hard_rate_limit-blocked_at (started_with 1) client loopback 900 1000 tt (omega arith)

quarantine_recorded :
    map
      (λ incident. incident.source_ip)
      (request_quarantine
        (record SecurityEngine_new { quarantine = observed })
        (codes " 192.168.1.50")
        2000).0.incidents
    ≡ client ∷ []
unfolding request_quarantine record_incident quarantine_ip quarantine_address bind_mac parse_ipv4
    is_reserved show_ipv4
quarantine_recorded = refl
