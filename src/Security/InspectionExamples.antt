-- ===== src/Security/InspectionExamples.antt =====
-- Tests and examples of the inspections of src/modules/security/mod.rs.
use shield_ghita.Prelude.{
  ℕ, ◌-◌, ◌*◌, ◌/◌, ◌≡◌, refl, true, some, List, [], ◌∷◌, arith, Bytes, nat_eq, bytes_eq, pair_eq,
  leb, Bool, ◌++◌, map,
}
use shield_ghita.Text.{starts_with, codes}
use shield_ghita.Security.Engine.{
  SecurityEngine, SecurityEngine_new, record_incident, request_quarantine, block_ip_temporarily,
}
use shield_ghita.Security.Engine.Blocks.{blocked_at}
use shield_ghita.Security.Flood.{count_query, prune_history, recent_queries}
use shield_ghita.Security.Hosts.{inspect_hosts_file}
use shield_ghita.Security.Address.{parse_ipv4, is_reserved, normalize_mac}
use shield_ghita.Security.Quarantine.{
  quarantine_address, quarantine_ip, update_quarantine_inventory, observe_all,
}
use shield_ghita.Security.Names.{
  Float64, is_generated, is_dga_domain, is_darknet_pseudo_tld, tally_byte, tally_from,
}
use shield_ghita.Security.Inspection.{
  inspect_arp_gateway, inspect_dns_query, find_tunnel, judge_name,
}
use shield_ghita.Security.Inspection.Mitigation.{block_time, inspect_dns_query-blocked_at}
use shield_ghita.Security.Inspection.Numbers.{
  Call, query, gateway, request, observe, arp_detection, hosts_file, auto_block, detection,
  after_calls, IsNumbered, after_calls-IsNumbered,
}

-- Hundredths, as a small instance of the operations.
abbrev pub hundredths : Float64
hundredths = record {
  F = ℕ;
  literal = λ n. n;
  from_u32 = λ n. n * 100;
  sub = λ a b. a - b;
  mul = λ a b. a * b / 100;
  div = λ a b. a * 100 / b;
  log2 = λ a. 0;
  ge = λ a b. leb b a;
}

abbrev pub ips : SecurityEngine
ips = record SecurityEngine_new {
  attack_detection_enabled = true;
  auto_block_enabled = true;
  arp_spoof_detection_enabled = true;
}

abbrev pub bot : Bytes
bot = codes "192.168.1.66"

abbrev pub generated : Bytes
generated = codes "bcdfghjklm.com"

pub generated_test : is_dga_domain hundredths generated ≡ true
unfolding is_dga_domain is_generated tally_from tally_byte
generated_test = refl

pub generated_time :
    block_time (inspect_dns_query hundredths ips bot generated 5000).1 ≡ some 120000
unfolding inspect_dns_query count_query prune_history recent_queries judge_name find_tunnel
    is_dga_domain is_generated tally_from tally_byte record_incident
generated_time = refl

inspect_dns_query-blocked_at_example :
    blocked_at (inspect_dns_query hundredths ips bot generated 5000).0 bot 100000 ≡ true
unfolding inspect_dns_query count_query prune_history recent_queries judge_name find_tunnel
    is_dga_domain is_generated tally_from tally_byte record_incident
inspect_dns_query-blocked_at_example =
    inspect_dns_query-blocked_at hundredths ips bot generated bot 5000 100000 tt (omega arith)

darknet_test : is_darknet_pseudo_tld (codes "Shop.ONION.") ≡ true
unfolding is_darknet_pseudo_tld
darknet_test = refl

abbrev is_any_ip : Bytes → Bool
is_any_ip s = starts_with (codes "0.") s

-- The gateway's address changes, a device is put into quarantine, and the hosts file is tampered with.
abbrev calls : List Call
calls =
    hosts_file (some (codes "# hosts" ++ (10 ∷ codes "0.0.0.0 www.paypal.com")))
    ∷ request (codes "192.168.1.66") 2000
    ∷ observe ((bot, codes "AA:BB:CC:DD:EE:66") ∷ []) (codes "192.168.1.2" ∷ [])
        (codes "192.168.1.1" ∷ []) 1000
    ∷ gateway (codes "192.168.1.1") (codes "AA:BB:CC:DD:EE:02")
    ∷ gateway (codes "192.168.1.1") (codes "AA:BB:CC:DD:EE:01")
    ∷ arp_detection true
    ∷ query bot generated 5000
    ∷ auto_block true
    ∷ detection true
    ∷ []

after_calls-IsNumbered_example : IsNumbered 9 (after_calls hundredths is_any_ip calls)
after_calls-IsNumbered_example = after_calls-IsNumbered hundredths is_any_ip calls (omega arith)

-- Each of the four is reported.
four_incidents :
    map (λ incident. incident.id) (after_calls hundredths is_any_ip calls).incidents
    ≡ 4 ∷ 3 ∷ 2 ∷ 1 ∷ []
unfolding inspect_dns_query count_query prune_history recent_queries judge_name find_tunnel
    is_dga_domain is_generated tally_from tally_byte record_incident inspect_hosts_file
    request_quarantine quarantine_ip quarantine_address parse_ipv4 is_reserved
    update_quarantine_inventory observe_all shield_ghita.Security.Quarantine.observe normalize_mac
    inspect_arp_gateway block_ip_temporarily
four_incidents = refl
