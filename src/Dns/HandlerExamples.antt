-- ===== src/Dns/HandlerExamples.antt =====
-- Tests and examples of the packets that src/modules/dns/mod.rs handles.
use shield_ghita.Prelude.{
  ℕ, ◌≡◌, refl, ◌⊎◌, false, Option, none, some, List, [], ◌∷◌, ◌++◌, arith, Bytes, nat_eq, bytes_eq,
  pair_eq, length,
}
use shield_ghita.Text.{codes}
use shield_ghita.Outcome.{ret, Ensures, byte, slice}
use shield_ghita.Security.Engine.{record_incident, is_loopback, is_ip_temporarily_blocked}
use shield_ghita.Security.Quarantine.{is_quarantined}
use shield_ghita.Security.Address.{parse_ipv4, parse_octet}
use shield_ghita.Security.Flood.{
  enforce_hard_rate_limit, count_query, prune_history, recent_queries, hard_limit,
}
use shield_ghita.Security.Names.{
  is_darknet_pseudo_tld, is_dga_domain, is_generated, tally_from, tally_byte,
}
use shield_ghita.Security.Inspection.{inspect_dns_query, judge_name, find_tunnel}
use shield_ghita.Security.InspectionExamples.{hundredths, ips, bot, generated}
use shield_ghita.Monitor.Logs.{QueryLog_new}
use shield_ghita.Monitor.Stats.{Today, load_stats}
use shield_ghita.Dns.Domain.{validate_domain, match_domain_hierarchy}
use shield_ghita.Dns.Filter.{is_allowed, clean_name}
use shield_ghita.Dns.Examples.{filter, free, a_b_example_com, example_com}
use shield_ghita.Dns.ClientPolicy.{AdBlockControls_new}
use shield_ghita.Dns.Wire.{is_utf8, is_pointer, parse_query_info, read_labels, read_qtype}
use shield_ghita.Dns.Reply.{build_nxdomain}
use shield_ghita.Dns.Handler.{Shield, Outside}
use shield_ghita.Dns.Handler.Route.{handle_dns_packet}
use shield_ghita.Dns.Handler.Admission.{admission, admitted, Treats, handle_dns_packet-Treats}
use shield_ghita.Dns.Handler.Blocking.{
  IsRefusal, IsFiltered, add_rule, handle_dns_packet-darknet, add_custom_domain-handle_dns_packet,
}
use shield_ghita.Dns.Handler.Silence.{handle_dns_packet_silences}
use shield_ghita.Dns.Handler.Bounds.{IsBounded}
use shield_ghita.Dns.Handler.Bounds.Packets.{after_packets, after_packets-IsBounded}

abbrev today : Today
today = record { now = 5000; day = codes "2026-11-26"; week = 202648 }

abbrev outside : ℕ → Outside
outside now = record {
  now = now;
  wall = now;
  today = today;
  time = codes "13:00:00";
  answered = now;
  bodies = [];
}

abbrev shield : Shield Bytes
shield = record {
  filter = filter;
  adblock = AdBlockControls_new;
  response_policy = none;
  cache = [];
  rebind_cooldown = [];
  silent_sinkhole = false;
  total_queries = 0;
  blocked_count = 0;
  security = ips;
  log = QueryLog_new 200;
  activity = [];
  block_stats = load_stats none today;
}

abbrev show : Bytes → Bytes
show ip = ip

-- The query of `build_a_query`.
abbrev packet_for : List Bytes → Bytes
packet_for [] = 0x12 ∷ 0x34 ∷ 0x01 ∷ 0 ∷ 0 ∷ 1 ∷ 0 ∷ 0 ∷ 0 ∷ 0 ∷ 0 ∷ 0 ∷ []
packet_for (label ∷ labels) = packet_for labels ++ (length label ∷ label)

abbrev onion_packet : Bytes
onion_packet = packet_for (codes "onion" ∷ codes "shop" ∷ []) ++ (0 ∷ 0 ∷ 1 ∷ 0 ∷ 1 ∷ [])

abbrev bot_packet : Bytes
bot_packet = packet_for (codes "com" ∷ codes "bcdfghjklm" ∷ []) ++ (0 ∷ 0 ∷ 1 ∷ 0 ∷ 1 ∷ [])

abbrev ad_packet : Bytes
ad_packet =
    packet_for (codes "com" ∷ codes "example" ∷ codes "b" ∷ codes "a" ∷ [])
    ++ (0 ∷ 0 ∷ 1 ∷ 0 ∷ 1 ∷ [])

handle_dns_packet-Treats_example :
    (info : Option (Bytes × ℕ)) × (parse_query_info ad_packet ≡ ret info)
    × Ensures
        (handle_dns_packet hundredths show is_loopback shield (outside 5000) bot ad_packet)
        (Treats shield (outside 5000) bot ad_packet info)
handle_dns_packet-Treats_example =
    handle_dns_packet-Treats hundredths show is_loopback shield (outside 5000) bot ad_packet

onion_parsed : parse_query_info onion_packet ≡ ret (some (codes "shop.onion", 1))
unfolding parse_query_info read_labels read_qtype byte slice is_utf8 is_pointer
onion_parsed = refl

handle_dns_packet-darknet_example :
    Ensures
      (handle_dns_packet hundredths show is_loopback shield (outside 5000) bot onion_packet)
      (λ result. (result.1 ≡ none) ⊎ (result.1 ≡ build_nxdomain onion_packet))
unfolding is_darknet_pseudo_tld
handle_dns_packet-darknet_example =
    handle_dns_packet-darknet hundredths show is_loopback shield (outside 5000) bot onion_packet
      (codes "shop.onion") 1 onion_parsed refl

ad_parsed : parse_query_info ad_packet ≡ ret (some (a_b_example_com, 1))
unfolding parse_query_info read_labels read_qtype byte slice is_utf8 is_pointer
ad_parsed = refl

filtered : IsFiltered shield (outside 5000) bot
filtered = record { no_policy = refl; active = refl; mode = refl }

add_custom_domain-handle_dns_packet_example :
    Ensures
      (handle_dns_packet hundredths show is_loopback
        (add_rule shield (codes "Example.com"))
        (outside 5000)
        bot
        ad_packet)
      (IsRefusal shield ad_packet 1)
unfolding validate_domain clean_name is_allowed match_domain_hierarchy
add_custom_domain-handle_dns_packet_example =
    add_custom_domain-handle_dns_packet hundredths show is_loopback shield (outside 5000) bot
      ad_packet (codes "Example.com") example_com a_b_example_com 1 refl ad_parsed refl refl refl
      free filtered

bot_parsed : parse_query_info bot_packet ≡ ret (some (generated, 1))
unfolding parse_query_info read_labels read_qtype byte slice is_utf8 is_pointer
bot_parsed = refl

bot_enters : admission ips bot 5000 ≡ admitted
unfolding enforce_hard_rate_limit count_query prune_history recent_queries hard_limit
    is_ip_temporarily_blocked is_quarantined parse_ipv4 parse_octet
bot_enters = refl

-- A query of another source, and one of the blocked source itself.
abbrev between : List (Outside × Bytes × Bytes)
between = (outside 6000, codes "10.0.0.3", ad_packet) ∷ (outside 80000, bot, ad_packet) ∷ []

handle_dns_packet_silences_example :
    Ensures
      (handle_dns_packet hundredths show is_loopback shield (outside 5000) bot bot_packet)
      (λ first. Ensures (after_packets hundredths show is_loopback first.0 between) (λ later.
        Ensures
          (handle_dns_packet hundredths show is_loopback later (outside 90000) bot ad_packet)
          (λ last. last.1 ≡ none)))
unfolding enforce_hard_rate_limit is_ip_temporarily_blocked inspect_dns_query count_query
    prune_history recent_queries hard_limit judge_name find_tunnel is_dga_domain is_generated
    tally_from tally_byte record_incident
handle_dns_packet_silences_example =
    handle_dns_packet_silences hundredths show is_loopback shield (outside 5000) (outside 90000) bot
      bot_packet ad_packet generated 1 120000 between tt bot_parsed bot_enters refl refl refl
      (omega arith) (omega arith)
      ((omega arith, λ same. absurd (cc same)), ((omega arith, λ same. omega arith), tt))

shield-IsBounded : IsBounded 0 0 shield
shield-IsBounded = record {
  log = omega arith;
  devices = omega arith;
  answers = omega arith;
  rebinds = omega arith;
  incidents = omega arith;
  statistics = record { domains = omega arith; clients = omega arith; hours = omega arith };
  counted = omega arith;
  blocked = omega arith;
}

abbrev packets : List (Outside × Bytes × Bytes)
packets = (outside 5000, bot, bot_packet) ∷ (outside 90000, bot, ad_packet) ∷ []

after_packets-IsBounded_example :
    Ensures (after_packets hundredths show is_loopback shield packets) (λ s. IsBounded 0 2 s)
after_packets-IsBounded_example =
    after_packets-IsBounded hundredths show is_loopback packets 0 shield (omega arith)
      shield-IsBounded
