-- ===== src/Security/Inspection/Numbers.antt =====
-- The incidents of src/modules/security/mod.rs over any sequence of its calls.
use shield_ghita.Prelude.{
  ℕ, zero, suc, ◌+◌, ◌%◌, ◌≤◌, ◌<◌, ◌≡◌, refl, ◌≢◌, Bool, Option, none, some, List, [], ◌∷◌, arith,
  Bytes, nat_eq, bytes_eq, pair_eq, length, take, length-take,
}
use shield_ghita.Security.Engine.{
  Cause, hosts_tamper, Severity, critical, block_ip_temporarily, unblock_ip, record_incident,
  set_arp_detection, SecurityEngine, SecurityEngine_new, SecurityIncident,
  is_ip_temporarily_blocked, request_quarantine, clear_incidents, set_auto_block,
  set_detection_enabled,
}
use shield_ghita.Text.{codes, split}
use shield_ghita.Security.Quarantine.{update_quarantine_inventory, unquarantine_ip}
use shield_ghita.Security.Hosts.{inspect_hosts_file, report_tampered, find_tampered}
use shield_ghita.Security.Flood.{enforce_hard_rate_limit}
use shield_ghita.Security.Names.{Float64}
use shield_ghita.Security.Inspection.{
  inspect_dns_query, inspect_arp_gateway, record_inbound_port_probe, inspect_rogue_dhcp,
}
use shield_ghita.Security.Inspection.Reports.{
  report-Reports, block_ip_temporarily-IsQuiet, Reports, quiet, reported, inspect_dns_query-Reports,
  inspect_arp_gateway-Reports, record_inbound_port_probe-Reports, inspect_rogue_dhcp-Reports,
  request_quarantine-Reports, enforce_hard_rate_limit-IsQuiet, is_ip_temporarily_blocked-IsQuiet,
}

-- A call of the engine that changes its state: the limits, the inspections, the quarantine, the blocks,
-- the switches, and an incident that another module records.
pub data Call : Type 0 where
  limit : Bytes → ℕ → Call
  check_block : Bytes → ℕ → Call
  query : Bytes → Bytes → ℕ → Call
  gateway : Bytes → Bytes → Call
  probe : Bytes → ℕ → ℕ → Call
  dhcp : Bytes → Bytes → Bytes → Call
  request : Bytes → ℕ → Call
  clear : Call
  detection : Bool → Call
  auto_block : Bool → Call
  arp_detection : Bool → Call
  observe : List (Bytes × Bytes) → List Bytes → List Bytes → ℕ → Call
  release : Bytes → Call
  block : Bytes → ℕ → ℕ → Call
  unblock : Bytes → Call
  hosts_file : Option Bytes → Call
  note_incident : Cause → Bytes → Severity → Call

module _ (f : Float64) (is_ip : Bytes → Bool) where
  abbrev pub call_engine : SecurityEngine → Call → SecurityEngine
  call_engine e (limit ip now) = (enforce_hard_rate_limit e ip now).0
  call_engine e (check_block ip now) = (is_ip_temporarily_blocked e ip now).0
  call_engine e (query ip domain now) = (inspect_dns_query f e ip domain now).0
  call_engine e (gateway ip mac) = (inspect_arp_gateway e ip mac).0
  call_engine e (probe ip port now) = (record_inbound_port_probe e ip port now).0
  call_engine e (dhcp ip mac expected) = (inspect_rogue_dhcp e ip mac expected).0
  call_engine e (request ip now) = (request_quarantine e ip now).0
  call_engine e clear = clear_incidents e
  call_engine e (detection enabled) = set_detection_enabled e enabled
  call_engine e (auto_block enabled) = set_auto_block e enabled
  call_engine e (arp_detection enabled) = set_arp_detection e enabled
  call_engine e (observe seen self_ips gateways now) = record e {
    quarantine = update_quarantine_inventory e.quarantine seen self_ips gateways now;
  }
  call_engine e (release ip) = record e { quarantine = unquarantine_ip e.quarantine ip }
  call_engine e (block ip duration now) = block_ip_temporarily e ip duration now
  call_engine e (unblock ip) = unblock_ip e ip
  call_engine e (hosts_file content) = (inspect_hosts_file is_ip e content).0
  call_engine e (note_incident cause ip severity) = (record_incident e cause ip severity).0

  -- The calls, the last one first.
  abbrev pub after_calls : List Call → SecurityEngine
  after_calls [] = SecurityEngine_new
  after_calls (call ∷ calls) = call_engine (after_calls calls) call

-- The numbers go down, all below a bound.
abbrev pub AreNumbered : ℕ → List SecurityIncident → Type 0
AreNumbered n [] = Unit
AreNumbered n (incident ∷ incidents) = (incident.id < n) × AreNumbered incident.id incidents

AreNumbered-take :
    (count n : ℕ) (incidents : List SecurityIncident)
    → AreNumbered n incidents
    → AreNumbered n (take count incidents)
AreNumbered-take zero n incidents v = tt
AreNumbered-take (suc count) n [] v = tt
AreNumbered-take (suc count) n (incident ∷ incidents) (low, v) =
    (low, AreNumbered-take count incident.id incidents v)

-- At most 500 incidents, numbered, and a counter that the calls so far bound.
pub record IsNumbered (calls : ℕ) (e : SecurityEngine) : Type 0 where
  pub counter : e.incident_counter ≤ suc calls
  pub numbered : AreNumbered e.incident_counter e.incidents
  pub few : length e.incidents ≤ 500

Reports-IsNumbered :
    (calls : ℕ) (e e' : SecurityEngine)
    → suc (suc calls) < 0x10000000000000000
    → Reports e e'
    → IsNumbered calls e
    → IsNumbered (suc calls) e'
Reports-IsNumbered calls e e' room (quiet same next) v = record {
  counter = omega (arith, next, v.counter);
  numbered = rw (next, same) v.numbered;
  few = rw same v.few;
}
Reports-IsNumbered calls e e' room (reported incident id same next) v =
    let plain : (e.incident_counter + 1) % 0x10000000000000000 ≡ e.incident_counter + 1 =
      omega (arith, v.counter, room) in
    record {
      counter = omega (arith, next, plain, v.counter);
      numbered =
          rw (next, plain, same)
            (AreNumbered-take 500 _ (incident ∷ e.incidents) (omega (arith, id), rw id v.numbered));
      few = rw same (omega (arith, length-take 500 (incident ∷ e.incidents)));
    }

report_tampered-Reports :
    (is_ip : Bytes → Bool) (e : SecurityEngine) (line : Option Bytes)
    → Reports e (report_tampered is_ip e line).0
report_tampered-Reports is_ip e none = quiet refl refl
report_tampered-Reports is_ip e (some line) =
    report-Reports e e (hosts_tamper line) (codes "127.0.0.1") critical (refl, refl)

inspect_hosts_file-Reports :
    (is_ip : Bytes → Bool) (e : SecurityEngine) (content : Option Bytes)
    → Reports e (inspect_hosts_file is_ip e content).0
unfolding inspect_hosts_file
inspect_hosts_file-Reports is_ip e none = quiet refl refl
inspect_hosts_file-Reports is_ip e (some content) =
    report_tampered-Reports is_ip e (find_tampered is_ip (split 10 content))

call_engine-Reports :
    (f : Float64) (is_ip : Bytes → Bool) (e : SecurityEngine) (call : Call)
    → call ≢ clear
    → Reports e (call_engine f is_ip e call)
call_engine-Reports f is_ip e (limit ip now) other =
    let (same, next) = enforce_hard_rate_limit-IsQuiet e ip now in quiet same next
call_engine-Reports f is_ip e (check_block ip now) other =
    let (same, next) = is_ip_temporarily_blocked-IsQuiet e ip now in quiet same next
call_engine-Reports f is_ip e (query ip domain now) other =
    inspect_dns_query-Reports f e ip domain now
call_engine-Reports f is_ip e (gateway ip mac) other = inspect_arp_gateway-Reports e ip mac
call_engine-Reports f is_ip e (probe ip port now) other =
    record_inbound_port_probe-Reports e ip port now
call_engine-Reports f is_ip e (dhcp ip mac expected) other =
    inspect_rogue_dhcp-Reports e ip mac expected
call_engine-Reports f is_ip e (request ip now) other = request_quarantine-Reports e ip now
call_engine-Reports f is_ip e clear other = absurd (other refl)
call_engine-Reports f is_ip e (detection enabled) other = quiet refl refl
call_engine-Reports f is_ip e (auto_block enabled) other = quiet refl refl
call_engine-Reports f is_ip e (arp_detection enabled) other = quiet refl refl
call_engine-Reports f is_ip e (observe seen self_ips gateways now) other = quiet refl refl
call_engine-Reports f is_ip e (release ip) other = quiet refl refl
call_engine-Reports f is_ip e (block ip duration now) other =
    let (same, next) = block_ip_temporarily-IsQuiet e ip duration now in quiet same next
call_engine-Reports f is_ip e (unblock ip) other = quiet refl refl
call_engine-Reports f is_ip e (hosts_file content) other =
    inspect_hosts_file-Reports is_ip e content
call_engine-Reports f is_ip e (note_incident cause ip severity) other =
    report-Reports e e cause ip severity (refl, refl)

call_engine-IsNumbered :
    (f : Float64) (is_ip : Bytes → Bool) (calls : ℕ) (e : SecurityEngine) (call : Call)
    → suc (suc calls) < 0x10000000000000000
    → IsNumbered calls e
    → IsNumbered (suc calls) (call_engine f is_ip e call)
call_engine-IsNumbered f is_ip calls e clear room v = record {
  counter = omega (arith, v.counter);
  numbered = tt;
  few = omega arith;
}
call_engine-IsNumbered f is_ip calls e call room v =
    Reports-IsNumbered calls e _ room (call_engine-Reports f is_ip e call (λ same. cc same)) v

-- After any calls of the engine that change its state, fewer than 2^64 of them, at most 500 incidents are kept, their numbers
-- go strictly down from the newest to the oldest, and all are below the counter.
pub after_calls-IsNumbered :
    (f : Float64) (is_ip : Bytes → Bool) (calls : List Call)
    → suc (length calls) < 0x10000000000000000
    → IsNumbered (length calls) (after_calls f is_ip calls)
after_calls-IsNumbered f is_ip [] room = record {
  counter = omega arith;
  numbered = tt;
  few = omega arith;
}
after_calls-IsNumbered f is_ip (call ∷ calls) room =
    call_engine-IsNumbered f is_ip (length calls) (after_calls f is_ip calls) call room
      (after_calls-IsNumbered f is_ip calls (omega (arith, room)))
