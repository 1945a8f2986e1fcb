-- ===== src/Dns/Handler/Bounds/Packets.antt =====
-- Whole packets, and any number of them, of `handle_dns_packet` of src/modules/dns/mod.rs.
use shield_ghita.Prelude.{
  ℕ, suc, ◌+◌, ◌%◌, ◌≤◌, ◌<◌, ◌≡◌, refl, Bool, Option, none, some, List, [], ◌∷◌, arith, Bytes, Key,
  nat_eq, bytes_eq, pair_eq, length,
}
use shield_ghita.Outcome.{Outcome, ret, ◌>>=◌, Ensures, Ensures-if}
use shield_ghita.Security.Engine.{is_ip_temporarily_blocked}
use shield_ghita.Security.Quarantine.{is_quarantined}
use shield_ghita.Security.Flood.{enforce_hard_rate_limit}
use shield_ghita.Security.Names.{Float64, is_darknet_pseudo_tld}
use shield_ghita.Security.Inspection.{inspect_dns_query}
use shield_ghita.Security.Inspection.Reports.{
  inspect_dns_query-Reports, enforce_hard_rate_limit-IsQuiet, is_ip_temporarily_blocked-IsQuiet,
}
use shield_ghita.Dns.Wire.{parse_query_info}
use shield_ghita.Dns.Wire.Query.{parse_query_info-Returns}
use shield_ghita.Dns.Handler.{Shield, Outside, set_security, note_threat}
use shield_ghita.Dns.Handler.Route.{admit_query, handle_query, handle_parsed, handle_dns_packet}
use shield_ghita.Dns.Handler.Parts.{parse_query_info-long}
use shield_ghita.Dns.Handler.Bounds.{
  IsBounded, set_security-IsBounded, few-Reports, note_threat-IsBounded,
}
use shield_ghita.Dns.Handler.Bounds.Stages.{Stays, block_query-IsBounded, after_inspection-Stays}

module _ {Address : Type 0} ⦃key : Key Address⦄ (f : Float64) (show_address : Address → Bytes)
    (is_loopback_address : Address → Bool) where
  module _ (queries : ℕ) (room : suc queries < 0x10000000000000000) (o : Outside)
      (src : Address) where
    counted-IsBounded :
        (s : Shield Address)
        → IsBounded 0 queries s
        → IsBounded 1
            (suc queries)
            (record s { total_queries = (s.total_queries + 1) % 0x10000000000000000 })
    counted-IsBounded s v = record {
      log = v.log;
      devices = v.devices;
      answers = v.answers;
      rebinds = v.rebinds;
      incidents = v.incidents;
      statistics = v.statistics;
      counted = omega (arith, v.counted, room);
      blocked = omega (arith, v.counted, v.blocked, room);
    }

    admit_query-Stays :
        (s : Shield Address) (name : Bytes) (qtype : ℕ) (pkt : Bytes)
        → 12 ≤ length pkt
        → IsBounded 0 queries s
        → Ensures
            (admit_query f show_address is_loopback_address s o src name qtype pkt)
            (Stays (suc queries))
    unfolding admit_query
    admit_query-Stays s name qtype pkt long v =
        let ip = show_address src in
        let inspected = inspect_dns_query f s.security ip name o.now in
        let counted = record s { total_queries = (s.total_queries + 1) % 0x10000000000000000 } in
        let seen = set_security counted inspected.0 in
        let few =
          few-Reports s.security inspected.0 (inspect_dns_query-Reports f s.security ip name o.now)
            v.incidents in
        let w =
          set_security-IsBounded (suc queries) counted 1 inspected.0 few (counted-IsBounded s v) in
        Ensures-if (is_darknet_pseudo_tld name) _ _ (Stays (suc queries))
          (λ y. (
            _,
            refl,
            block_query-IsBounded f show_address is_loopback_address (suc queries) room o src name
                qtype pkt long (note_threat seen o name ip)
                (note_threat-IsBounded (suc queries) seen 1 o name ip w),
          ))
          (λ n.
            after_inspection-Stays f show_address is_loopback_address (suc queries) room o src name
              qtype pkt long seen inspected.1 w)

    one_more : (s : Shield Address) → IsBounded 0 queries s → IsBounded 0 (suc queries) s
    one_more s v = record {
      log = v.log;
      devices = v.devices;
      answers = v.answers;
      rebinds = v.rebinds;
      incidents = v.incidents;
      statistics = v.statistics;
      counted = omega (arith, v.counted);
      blocked = v.blocked;
    }

    handle_query-Stays :
        (s : Shield Address) (name : Bytes) (qtype : ℕ) (pkt : Bytes)
        → 12 ≤ length pkt
        → IsBounded 0 queries s
        → Ensures
            (handle_query f show_address is_loopback_address s o src name qtype pkt)
            (Stays (suc queries))
    unfolding handle_query
    handle_query-Stays s name qtype pkt long v =
        let ip = show_address src in
        let limited = enforce_hard_rate_limit s.security ip o.now in
        let checked = is_ip_temporarily_blocked limited.0 ip o.now in
        let few : length limited.0.incidents ≤ 500 =
          rw (enforce_hard_rate_limit-IsQuiet s.security ip o.now).0 v.incidents in
        let few' : length checked.0.incidents ≤ 500 =
          rw (is_ip_temporarily_blocked-IsQuiet limited.0 ip o.now).0 few in
        let w = set_security-IsBounded queries s 0 limited.0 few v in
        let w' = set_security-IsBounded queries s 0 checked.0 few' v in
        Ensures-if limited.1 _ _ (Stays (suc queries)) (λ y. (_, refl, one_more _ w))
          (λ n.
            Ensures-if checked.1 _ _ (Stays (suc queries)) (λ y. (_, refl, one_more _ w'))
              (λ n'.
                Ensures-if (is_quarantined checked.0.quarantine ip) _ _ (Stays (suc queries))
                  (λ y. (_, refl, one_more _ w'))
                  (λ n''. admit_query-Stays (set_security s checked.0) name qtype pkt long w')))

    handle_dns_packet-Stays :
        (s : Shield Address) (pkt : Bytes)
        → IsBounded 0 queries s
        → Ensures
            (handle_dns_packet f show_address is_loopback_address s o src pkt)
            (Stays (suc queries))
    unfolding handle_dns_packet
    handle_dns_packet-Stays s pkt v =
        let (info, e) = parse_query_info-Returns pkt in rw e (parsed info e)
      where
        parsed :
            (info : Option (Bytes × ℕ))
            → parse_query_info pkt ≡ ret info
            → Ensures
                (handle_parsed f show_address is_loopback_address s o src pkt info)
                (Stays (suc queries))
        parsed none e = ((s, none), refl, one_more s v)
        parsed (some (name, qtype)) e =
            handle_query-Stays s name qtype pkt (parse_query_info-long pkt (name, qtype) e) v

  -- Packets one after another.
  unfoldable pub after_packets :
      Shield Address → List (Outside × Address × Bytes) → Outcome (Shield Address)
  after_packets s [] = ret s
  after_packets s ((o, src, pkt) ∷ packets) = do
    r ← handle_dns_packet f show_address is_loopback_address s o src pkt
    after_packets r.0 packets

  -- Whatever packets arrive, all of them are handled, and the state stays within its limits: the log
  -- within its own, 4097 devices, 5501 cached answers, 1024 rebinding cooldowns, 500 incidents and the
  -- capped statistics, and no more queries are blocked than are counted, while fewer than 2^64 are.
  pub after_packets-IsBounded :
      (packets : List (Outside × Address × Bytes)) (queries : ℕ) (s : Shield Address)
      → queries + length packets < 0x10000000000000000
      → IsBounded 0 queries s
      → Ensures (after_packets s packets) (λ s'. IsBounded 0 (queries + length packets) s')
  unfolding after_packets
  after_packets-IsBounded [] queries s room v = (s, refl, rw (sum queries) v)
    where
      sum : (n : ℕ) → n + 0 ≡ n
      sum n = omega arith
  after_packets-IsBounded ((o, src, pkt) ∷ packets) queries s room v =
      let (r, e, w) = handle_dns_packet-Stays queries (omega (arith, room)) o src s pkt v in
      let more : queries + length ((o, src, pkt) ∷ packets) ≡ suc queries + length packets =
        omega arith in
      rw (e, more) (after_packets-IsBounded packets (suc queries) r.0 (omega (arith, room)) w)
