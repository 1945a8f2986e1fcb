-- ===== src/Security/Inspection/Reports.antt =====
-- The incidents of src/modules/security/mod.rs: each call records at most one, with the next number.
use shield_ghita.Prelude.{
  ℕ, ◌+◌, ◌%◌, ◌≡◌, refl, ap, ◌∙◌, inl, inr, Bool, true, false, not, ◌||◌, Option, none, some, ◌∷◌,
  Bytes, ◌==◌, nat_eq, bytes_eq, pair_eq, ltb, if◌then◌else◌, Bool-cases, Option-cases, is_empty,
  length, take, get, insert,
}
use shield_ghita.Security.Address.{show_ipv4}
use shield_ghita.Security.Engine.{
  SecurityEngine, SecurityIncident, Cause, Severity, high, info, critical, dns_quarantine,
  arp_spoof, is_loopback, is_ip_temporarily_blocked, block_ip_temporarily, record_incident,
  request_quarantine, record_quarantine,
}
use shield_ghita.Security.Quarantine.{Requested, refused, already, added, quarantine_ip}
use shield_ghita.Security.Flood.{
  count_query, enforce_hard_rate_limit, refuse_query, in_cooldown, note_alert,
}
use shield_ghita.Security.Names.{Float64, is_dga_domain, is_darknet_pseudo_tld}
use shield_ghita.Security.Inspection.{
  report, mitigate, report_flood, find_tunnel, subdomains, judge_name, inspect_dns_query,
  compare_gateway, inspect_arp_gateway, set_gateway, update_gateway, is_known_mac, or_no_probe,
  prune_probes, add_probe, note_scan, is_local_source, report_scan, record_inbound_port_probe,
  inspect_rogue_dhcp,
}

-- A state after another: with the same incidents, or with one more in front, which has the number that
-- was next.
pub data Reports (e e' : SecurityEngine) : Type 0 where
  quiet : e'.incidents ≡ e.incidents → e'.incident_counter ≡ e.incident_counter → Reports e e'
  reported :
      (incident : SecurityIncident)
      → incident.id ≡ e.incident_counter
      → e'.incidents ≡ take 500 (incident ∷ e.incidents)
      → e'.incident_counter ≡ (e.incident_counter + 1) % 0x10000000000000000
      → Reports e e'

-- The incidents and their counter.
abbrev pub IsQuiet : SecurityEngine → SecurityEngine → Type 0
IsQuiet e e' = (e'.incidents ≡ e.incidents) × (e'.incident_counter ≡ e.incident_counter)

IsQuiet-if :
    (e : SecurityEngine) (b : Bool) (x y : SecurityEngine)
    → IsQuiet e x
    → IsQuiet e y
    → IsQuiet e (if b then x else y)
IsQuiet-if e true x y h k = h
IsQuiet-if e false x y h k = k

pub Reports-if :
    (e : SecurityEngine) (b : Bool) (x y : SecurityEngine × Option SecurityIncident)
    → Reports e x.0
    → Reports e y.0
    → Reports e (if b then x else y).0
Reports-if e true x y h k = h
Reports-if e false x y h k = k

pub block_ip_temporarily-IsQuiet :
    (e : SecurityEngine) (ip : Bytes) (duration now : ℕ)
    → IsQuiet e (block_ip_temporarily e ip duration now)
unfolding block_ip_temporarily
block_ip_temporarily-IsQuiet e ip duration now =
    IsQuiet-if e (is_loopback ip) e _ (refl, refl) (refl, refl)

-- A report after a block, on a state with the same incidents.
mitigated-Reports :
    (e noted : SecurityEngine) (cause : Cause) (ip : Bytes) (severity : Severity) (duration now : ℕ)
    → IsQuiet e noted
    → Reports e (report (mitigate noted ip duration now) cause ip severity).0
unfolding record_incident
mitigated-Reports e noted cause ip severity duration now (same, next) =
    let blocked = block_ip_temporarily-IsQuiet noted ip duration now in
    let (same', next') =
      IsQuiet-if e noted.auto_block_enabled _ noted (blocked.0 ∙ same, blocked.1 ∙ next)
        (same, next) in
    let incident = (record_incident (mitigate noted ip duration now) cause ip severity).1 in
    reported incident next' (ap (λ l. take 500 (incident ∷ l)) same')
      (ap (λ n. (n + 1) % 0x10000000000000000) next')

pub report-Reports :
    (e noted : SecurityEngine) (cause : Cause) (ip : Bytes) (severity : Severity)
    → IsQuiet e noted
    → Reports e (report noted cause ip severity).0
unfolding record_incident
report-Reports e noted cause ip severity (same, next) =
    let incident = (record_incident noted cause ip severity).1 in
    reported incident next (ap (λ l. take 500 (incident ∷ l)) same)
      (ap (λ n. (n + 1) % 0x10000000000000000) next)

report_flood-Reports :
    (e e' : SecurityEngine) (ip : Bytes) (count now : ℕ)
    → IsQuiet e e'
    → Reports e (report_flood e' ip count now).0
unfolding report_flood
report_flood-Reports e e' ip count now (same, next) =
    Reports-if e _ (e', none) _ (quiet same next)
      (mitigated-Reports e
        (record e' { flood_alert_cooldown = note_alert 60000 e'.flood_alert_cooldown ip now }) _ ip
        critical 300000 now (same, next))

module _ (f : Float64) where
  judge_name-Reports :
      (e e' : SecurityEngine) (ip domain : Bytes) (now : ℕ)
      → IsQuiet e e'
      → Reports e (judge_name f e' ip domain now).0
  unfolding judge_name
  judge_name-Reports e e' ip domain now (same, next) =
      elim (Option-cases (find_tunnel f (subdomains domain))) [
        | inr (sub, found) ↦
            rw (found, judge_name) (mitigated-Reports e e' _ ip high 180000 now (same, next))
        | inl clear ↦
            rw (clear, judge_name)
              (Reports-if e (is_dga_domain f domain) _ _
                (mitigated-Reports e e' _ ip high 120000 now (same, next))
                (Reports-if e (is_darknet_pseudo_tld domain) _ (e', none)
                  (report-Reports e e' _ ip high (same, next)) (quiet same next)))
      ]

  pub inspect_dns_query-Reports :
      (e : SecurityEngine) (ip domain : Bytes) (now : ℕ)
      → Reports e (inspect_dns_query f e ip domain now).0
  unfolding inspect_dns_query
  inspect_dns_query-Reports e ip domain now =
      let counted = count_query e.dns_flood_rate_limit e.ip_query_history ip now in
      let e' = record e { ip_query_history = counted.0 } in
      Reports-if e (not e.attack_detection_enabled) (e, none) _ (quiet refl refl)
        (Reports-if e counted.2 _ _ (report_flood-Reports e e' ip counted.1 now (refl, refl))
          (judge_name-Reports e e' ip domain now (refl, refl)))

pub inspect_arp_gateway-Reports :
    (e : SecurityEngine) (ip mac : Bytes) → Reports e (inspect_arp_gateway e ip mac).0
unfolding inspect_arp_gateway
inspect_arp_gateway-Reports e ip mac =
    Reports-if e _ (e, none) _ (quiet refl refl) (compared e.last_known_gateway)
  where
    compared : (last : Option (Bytes × Bytes)) → Reports e (compare_gateway e ip mac last).0
    compared none = Reports-if e (is_known_mac mac) _ (e, none) (quiet refl refl) (quiet refl refl)
    compared (some (last_ip, last_mac)) =
        Reports-if e (last_ip == ip) _ _
          (Reports-if e _ _ (e, none)
            (renamed (report e (arp_spoof last_mac mac) ip critical)
              (report-Reports e e _ ip critical (refl, refl)))
            (quiet refl refl))
          (report-Reports e (set_gateway e ip mac) _ ip info (refl, refl))
      where
        renamed :
            (r : SecurityEngine × Option SecurityIncident)
            → Reports e r.0
            → Reports e (update_gateway r ip mac).0
        renamed r (quiet same next) = quiet same next
        renamed r (reported incident id same next) = reported incident id same next

report_scan-Reports :
    (e e' : SecurityEngine) (ip : Bytes) (port count now : ℕ)
    → IsQuiet e e'
    → Reports e (report_scan e' ip port count now).0
unfolding report_scan
report_scan-Reports e e' ip port count now (same, next) =
    let noted = record e' {
      port_scan_alert_cooldown = note_scan e'.port_scan_alert_cooldown ip now;
    } in
    Reports-if e (in_cooldown 600000 now (get e'.port_scan_alert_cooldown ip)) (e', none) _
      (quiet same next) (mitigated-Reports e noted _ ip high 600000 now (same, next))

pub record_inbound_port_probe-Reports :
    (e : SecurityEngine) (ip : Bytes) (port now : ℕ)
    → Reports e (record_inbound_port_probe e ip port now).0
unfolding record_inbound_port_probe
record_inbound_port_probe-Reports e ip port now =
    let hist = prune_probes e.port_probe_history now in
    let probes = add_probe (or_no_probe (get hist ip)) port now in
    let probed = record e { port_probe_history = insert ip probes hist } in
    Reports-if e (not e.attack_detection_enabled || is_empty ip || is_local_source ip) (e, none) _
      (quiet refl refl)
      (Reports-if e (ltb (length probes) 10) (probed, none) _ (quiet refl refl)
        (report_scan-Reports e probed ip port (length probes) now (refl, refl)))

pub inspect_rogue_dhcp-Reports :
    (e : SecurityEngine) (ip mac gateway : Bytes)
    → Reports e (inspect_rogue_dhcp e ip mac gateway).0
unfolding inspect_rogue_dhcp
inspect_rogue_dhcp-Reports e ip mac gateway =
    Reports-if e _ (e, none) _ (quiet refl refl)
      (Reports-if e _ _ (e, none) (report-Reports e e _ ip critical (refl, refl)) (quiet refl refl))

pub request_quarantine-Reports :
    (e : SecurityEngine) (ip : Bytes) (now : ℕ) → Reports e (request_quarantine e ip now).0
unfolding request_quarantine
request_quarantine-Reports e ip now = recorded (quarantine_ip e.quarantine ip now).1
  where
    noted : SecurityEngine
    noted = record e { quarantine = (quarantine_ip e.quarantine ip now).0 }

    recorded : (asked : Requested) → Reports e (record_quarantine noted asked)
    recorded (refused reason) = quiet refl refl
    recorded already = quiet refl refl
    recorded (added address) =
        report-Reports e noted dns_quarantine (show_ipv4 address) high (refl, refl)

pub enforce_hard_rate_limit-IsQuiet :
    (e : SecurityEngine) (ip : Bytes) (now : ℕ) → IsQuiet e (enforce_hard_rate_limit e ip now).0
unfolding enforce_hard_rate_limit refuse_query
enforce_hard_rate_limit-IsQuiet e ip now =
    IsQuiet-if e _ _ _
      (IsQuiet-if e (in_cooldown 60000 now (get e.hard_flood_alert_cooldown ip)) _ _ (refl, refl)
        (block_ip_temporarily-IsQuiet _ ip 60000 now))
      (refl, refl)

pub is_ip_temporarily_blocked-IsQuiet :
    (e : SecurityEngine) (ip : Bytes) (now : ℕ) → IsQuiet e (is_ip_temporarily_blocked e ip now).0
unfolding is_ip_temporarily_blocked
is_ip_temporarily_blocked-IsQuiet e ip now = elim (Option-cases (get e.blocked_ips ip)) [
  | inl free ↦ rw (free, is_ip_temporarily_blocked) (refl, refl)
  | inr (expiry, held) ↦ elim (Bool-cases (ltb now expiry)) [
    | inl live ↦ rw (held, live, is_ip_temporarily_blocked) (refl, refl)
    | inr over ↦ rw (held, over, is_ip_temporarily_blocked) (refl, refl)
  ]
]
