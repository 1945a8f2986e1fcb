-- ===== src/Security/Inspection.antt =====
-- The inspections of src/modules/security/mod.rs: of a query, of the gateway's address, of a probe of
-- a local port, and of a DHCP server. Each returns the incident that it records.
pub mod Reports
pub mod Mitigation
pub mod Uniqueness
pub mod Lasting
pub mod Numbers
use shield_ghita.Prelude.{
  ℕ, zero, suc, ◌+◌, ◌-◌, ◌*◌, ◌/◌, ◌%◌, ◌^◌, ◌≤◌, ◌<◌, ◌≡◌, refl, sym, ap, ◌∙◌, ◌↔◌, ◌⊎◌, ◌≢◌, inl,
  inr, Bool, true, false, not, ◌&&◌, ◌||◌, Option, none, some, List, [], ◌∷◌, ◌++◌, map, arith,
  Bytes, Key, ◌==◌, nat_eq, bytes_eq, pair_eq, ltb, leb, if◌then◌else◌, Bool-cases, Option-cases,
  is_empty, any, all, max, min, length, take, drop, get_elem?, contains, set_insert, set_remove,
  retain, IsIn, any-intro, any-elim, contains-IsIn, IsIn-contains, IsIn-retain, retain-IsIn,
  contains-set_insert, contains-set_remove, nat_beq_iff, bytes_beq_iff, ==_refl, ||-eq-true,
  &&-eq-true, get, insert, remove, get-insert, get-remove, length-insert-le, length-remove-le,
  length-retain-le, length-append, length-take, length-drop, tests, take-append_length,
  drop-append_length, insert_by_rank, sort_by_rank, remove_all, length-insert_by_rank,
  insert_by_rank-IsIn, length-sort_by_rank, sort_by_rank-IsIn, length-remove-lt,
  length-remove_all-le, remove_some, remove_all-IsIn, remove_all-IsUnique, not_ltb→le, not_leb→lt,
  ltb→lt, le→leb, IsUnique, insert-IsIn, remove-IsIn, get-IsIn, IsIn-get, insert-IsUnique,
  remove-IsUnique, retain-IsUnique, map-IsIn, IsIn-map,
}
use shield_ghita.Text.{codes, dot, split}
use shield_ghita.Security.Engine.{
  SecurityEngine, SecurityIncident, Cause, flood, tunnel, dga, darknet, rogue_dhcp, arp_spoof,
  gateway_changed, port_scan, Severity, info, high, critical, block_ip_temporarily, record_incident,
}
use shield_ghita.Security.Flood.{count_query, in_cooldown, note_alert}
use shield_ghita.Security.Names.{Float64, calc_entropy, is_dga_domain, is_darknet_pseudo_tld}

-- The incident, recorded and returned.
abbrev pub report :
    SecurityEngine → Cause → Bytes → Severity → SecurityEngine × Option SecurityIncident
report e cause source_ip severity =
    let (after, incident) = record_incident e cause source_ip severity in (after, some incident)

-- The source is blocked only in IPS mode.
abbrev pub mitigate : SecurityEngine → Bytes → ℕ → ℕ → SecurityEngine
mitigate e ip duration now =
    if e.auto_block_enabled then block_ip_temporarily e ip duration now else e

-- In IDS mode a source is alerted on once a minute.
unfoldable pub report_flood :
    SecurityEngine → Bytes → ℕ → ℕ → SecurityEngine × Option SecurityIncident
report_flood e ip count now =
    let noted = record e {
      flood_alert_cooldown = note_alert 60000 e.flood_alert_cooldown ip now;
    } in
    if not e.auto_block_enabled && in_cooldown 60000 now (get e.flood_alert_cooldown ip)
    then (e, none)
    else report (mitigate noted ip 300000 now)
        (flood count e.dns_flood_rate_limit e.auto_block_enabled) ip critical

-- The labels before the last two.
abbrev pub subdomains : Bytes → List Bytes
subdomains domain =
    let parts = split dot domain in
    if leb 3 (length parts) then take (length parts - 2) parts else []

module _ (f : Float64) where
  abbrev pub carries_payload : Bytes → Bool
  carries_payload sub = leb 28 (length sub) && f.ge (calc_entropy f sub) (f.literal 385)

  unfoldable pub find_tunnel : List Bytes → Option Bytes
  find_tunnel [] = none
  find_tunnel (sub ∷ subs) = if carries_payload sub then some sub else find_tunnel subs

  unfoldable pub judge_name :
      SecurityEngine → Bytes → Bytes → ℕ → SecurityEngine × Option SecurityIncident
  judge_name e ip domain now = elim (find_tunnel (subdomains domain)) [
    | some sub ↦ report (mitigate e ip 180000 now) (tunnel sub e.auto_block_enabled) ip high
    | none ↦
        if is_dga_domain f domain
        then report (mitigate e ip 120000 now) (dga domain e.auto_block_enabled) ip high
        else if is_darknet_pseudo_tld domain
        then report e (darknet domain) ip high
        else (e, none)
  ]

  unfoldable pub inspect_dns_query :
      SecurityEngine → Bytes → Bytes → ℕ → SecurityEngine × Option SecurityIncident
  inspect_dns_query e ip domain now =
      let (hist, count, is_flooding) =
        count_query e.dns_flood_rate_limit e.ip_query_history ip now in
      let counted = record e { ip_query_history = hist } in
      if not e.attack_detection_enabled
      then (e, none)
      else if is_flooding
      then report_flood counted ip count now
      else judge_name counted ip domain now

abbrev no_mac : Bytes
no_mac = codes "00:00:00:00:00:00"

abbrev pub is_known_mac : Bytes → Bool
is_known_mac mac = not (is_empty mac) && not (mac == no_mac)

abbrev pub set_gateway : SecurityEngine → Bytes → Bytes → SecurityEngine
set_gateway e ip mac = record e { last_known_gateway = some (ip, mac) }

abbrev pub update_gateway :
    SecurityEngine × Option SecurityIncident
    → Bytes
    → Bytes
    → SecurityEngine × Option SecurityIncident
update_gateway (e, incident) ip mac = (set_gateway e ip mac, incident)

abbrev pub compare_gateway :
    SecurityEngine
    → Bytes
    → Bytes
    → Option (Bytes × Bytes)
    → SecurityEngine × Option SecurityIncident
compare_gateway e ip mac none = if is_known_mac mac then (set_gateway e ip mac, none) else (e, none)
compare_gateway e ip mac (some (last_ip, last_mac)) =
    if last_ip == ip
    then (if not (last_mac == mac) && is_known_mac mac
        then update_gateway (report e (arp_spoof last_mac mac) ip critical) ip mac
        else (e, none))
    else report (set_gateway e ip mac) (gateway_changed last_ip last_mac mac) ip info

unfoldable pub inspect_arp_gateway :
    SecurityEngine → Bytes → Bytes → SecurityEngine × Option SecurityIncident
inspect_arp_gateway e gateway_ip current_gateway_mac =
    if not e.attack_detection_enabled || not e.arp_spoof_detection_enabled || is_empty gateway_ip
    then (e, none)
    else compare_gateway e gateway_ip current_gateway_mac e.last_known_gateway

-- `now.duration_since(t) < PORT_SCAN_WINDOW`
abbrev pub in_window : ℕ → ℕ × ℕ → Bool
in_window now probe = ltb (now - probe.1) 60000

abbrev pub or_no_probe : Option (List (ℕ × ℕ)) → List (ℕ × ℕ)
or_no_probe none = []
or_no_probe (some probes) = probes

-- The probes of a source in the window, one for each port.
unfoldable pub add_probe : List (ℕ × ℕ) → ℕ → ℕ → List (ℕ × ℕ)
add_probe probes port now =
    let live = retain (in_window now) probes in
    if any (λ probe. probe.0 == port) live then live else live ++ (port, now) ∷ []

abbrev pub prune_probes : List (Bytes × List (ℕ × ℕ)) → ℕ → List (Bytes × List (ℕ × ℕ))
prune_probes hist now =
    if ltb 512 (length hist) then retain (λ entry. any (in_window now) entry.1) hist else hist

-- The alert noted: over 500 sources, those whose cooldown is over go first, then the 128 oldest.
unfoldable pub note_scan : List (Bytes × ℕ) → Bytes → ℕ → List (Bytes × ℕ)
note_scan cd ip now =
    let live = retain (λ entry. ltb (now - entry.1) 600000) cd in
    let shed =
      if ltb 500 (length cd)
      then (if ltb 500 (length live) then remove_all (take 128 (sort_by_rank live)) live else live)
      else cd in
    insert ip now shed

unfoldable pub report_scan :
    SecurityEngine → Bytes → ℕ → ℕ → ℕ → SecurityEngine × Option SecurityIncident
report_scan e ip port distinct_ports now =
    let noted = record e {
      port_scan_alert_cooldown = note_scan e.port_scan_alert_cooldown ip now;
    } in
    if in_cooldown 600000 now (get e.port_scan_alert_cooldown ip)
    then (e, none)
    else report (mitigate noted ip 600000 now) (port_scan distinct_ports port e.auto_block_enabled)
        ip high

abbrev pub is_local_source : Bytes → Bool
is_local_source ip = ip == codes "127.0.0.1" || ip == codes "::1" || ip == codes "0.0.0.0"

unfoldable pub record_inbound_port_probe :
    SecurityEngine → Bytes → ℕ → ℕ → SecurityEngine × Option SecurityIncident
record_inbound_port_probe e remote_ip local_port now =
    let hist = prune_probes e.port_probe_history now in
    let probes = add_probe (or_no_probe (get hist remote_ip)) local_port now in
    let probed = record e { port_probe_history = insert remote_ip probes hist } in
    if not e.attack_detection_enabled || is_empty remote_ip || is_local_source remote_ip
    then (e, none)
    else if ltb (length probes) 10
    then (probed, none)
    else report_scan probed remote_ip local_port (length probes) now

unfoldable pub inspect_rogue_dhcp :
    SecurityEngine → Bytes → Bytes → Bytes → SecurityEngine × Option SecurityIncident
inspect_rogue_dhcp e server_ip server_mac expected_gateway =
    if not e.attack_detection_enabled
      || is_empty server_ip
      || server_ip == codes "0.0.0.0"
      || server_ip == codes "127.0.0.1"
    then (e, none)
    else if not (is_empty expected_gateway) && not (server_ip == expected_gateway)
    then report e (rogue_dhcp server_mac expected_gateway) server_ip critical
    else (e, none)
