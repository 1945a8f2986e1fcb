-- ===== src/Dns/PolicyExamples.antt =====
-- Concrete rules and statistics, for src/modules/dns/client_policy.rs.
use shield_ghita.Prelude.{
  ℕ, ◌≡◌, refl, ◌↔◌, Bool, true, false, not, Option, none, some, List, [], ◌∷◌, ◌++◌, Bytes, Key,
  ◌==◌, nat_eq, bytes_eq, pair_eq, if◌then◌else◌,
}
use shield_ghita.Text.{codes, trim}
use shield_ghita.Dns.ClientPolicy.{
  trusted, strict, from_str, AdBlockControls, AdBlockControls_new, mode_for_client, rules_config,
  load_rules, load_rules_config, split_once, pause_minutes, is_paused, top_entries, bump_entry,
  ClientMode_id, ClientMode_from_id,
}
use shield_ghita.Dns.ClientPolicy.Rules.{IsAddressText, load_rules_config-rules_config}
use shield_ghita.Dns.ClientPolicy.Counters.{after_blocks, IsCapped, record_block_counters}

-- Two addresses stand for all.
abbrev same_host : Bool → Bool → Bool
same_host true b = b
same_host false b = not b

same_host_iff : (a b : Bool) → (same_host a b ≡ true) ↔ (a ≡ b)
same_host_iff true true = (λ h. refl, λ h. refl)
same_host_iff true false = (λ h. cc, λ h. cc)
same_host_iff false true = (λ h. cc, λ h. cc)
same_host_iff false false = (λ h. refl, λ h. refl)

instance abbrev host_eq : Key Bool
host_eq = record { same = same_host; same_iff = same_host_iff }

abbrev show_host : Bool → Bytes
show_host true = codes "192.168.1.10"
show_host false = codes "::1"

abbrev parse_host : Bytes → Option Bool
parse_host s =
    if s == codes "192.168.1.10" then some true else if s == codes "::1" then some false else none

show_host_parses : (ip : Bool) → parse_host (trim (show_host ip)) ≡ some ip
show_host_parses true = refl
show_host_parses false = refl

show_host_no_bar :
    (ip : Bool) (s : Bytes) → split_once b'|' (show_host ip ++ (b'|' ∷ s)) ≡ some (show_host ip, s)
show_host_no_bar true s = refl
show_host_no_bar false s = refl

host_text : IsAddressText show_host parse_host
host_text = record { parses = show_host_parses; no_bar = show_host_no_bar }

abbrev new_controls : AdBlockControls Bool
new_controls = AdBlockControls_new

abbrev controls : AdBlockControls Bool
controls = record new_controls { client_rules = (true, strict) ∷ (false, trusted) ∷ [] }

written :
    rules_config show_host parse_host controls
    ≡ codes "192.168.1.10|strict" ∷ codes "::1|trusted" ∷ []
unfolding rules_config
written = refl

bad_entries_skipped :
    load_rules show_host parse_host
      (codes "no bar" ∷ codes " ::1 | trusted " ∷ codes "::1|bogus" ∷ [])
      []
    ≡ (false, trusted) ∷ []
unfolding load_rules from_str
bad_entries_skipped = refl

paused :
    (is_paused (pause_minutes new_controls 5 1000) 300000 ≡ true)
    × (is_paused (pause_minutes new_controls 5 1000) 301000 ≡ false)
paused = (refl, refl)

mode_ids : (ClientMode_from_id (ClientMode_id strict) ≡ some strict) × (ClientMode_from_id 3 ≡ none)
mode_ids = (refl, refl)

top_two :
    top_entries
      (bump_entry (bump_entry (bump_entry [] (codes "a") 4) (codes "b") 4) (codes "b") 4)
      1
    ≡ (codes "b", 2) ∷ []
unfolding top_entries bump_entry
top_two = refl

load_rules_config-rules_config_example :
    mode_for_client
      (load_rules_config show_host parse_host new_controls
        (rules_config show_host parse_host controls))
      true
    ≡ mode_for_client controls true
load_rules_config-rules_config_example =
    load_rules_config-rules_config show_host parse_host host_text controls new_controls true
      (refl, (refl, tt))

abbrev blocks : List (Bytes × Bytes × ℕ)
blocks =
    (codes "ads.vn", codes "10.0.0.2", 86400900)
    ∷ (codes "ads.vn", codes "10.0.0.3", 86400800)
    ∷ (codes "t.co", codes "10.0.0.2", 700)
    ∷ []

record_block_counters_example :
    IsCapped {Address = Bool} (after_blocks AdBlockControls_new blocks)
    × ((after_blocks {Address = Bool} AdBlockControls_new blocks).stats_day ≡ 1)
    × ((after_blocks {Address = Bool} AdBlockControls_new blocks).total_blocked ≡ 2)
record_block_counters_example = record_block_counters {Address = Bool} blocks
