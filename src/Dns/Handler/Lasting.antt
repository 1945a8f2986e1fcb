-- ===== src/Dns/Handler/Lasting.antt =====
-- What the stages and the packets of `handle_dns_packet` of src/modules/dns/mod.rs do to the blocks of
-- the security engine.
use shield_ghita.Prelude.{
  ℕ, ◌≤◌, ◌≡◌, refl, inl, inr, Bool, false, Option, none, some, List, [], ◌∷◌, Bytes, Key, nat_eq,
  bytes_eq, pair_eq, Bool-cases, Option-cases, length, ◌+◌, ◌%◌,
}
use shield_ghita.Outcome.{ret, Ensures, Ensures-if}
use shield_ghita.Security.Engine.{SecurityIncident, is_ip_temporarily_blocked}
use shield_ghita.Security.Quarantine.{is_quarantined}
use shield_ghita.Security.Flood.{enforce_hard_rate_limit}
use shield_ghita.Security.Names.{Float64, is_darknet_pseudo_tld}
use shield_ghita.Security.Inspection.{inspect_dns_query}
use shield_ghita.Security.Inspection.Lasting.{
  IsNear, enforce_hard_rate_limit-IsStopped, is_ip_temporarily_blocked-IsStopped,
  inspect_dns_query-IsStopped,
}
use shield_ghita.Dns.Wire.{parse_query_info}
use shield_ghita.Dns.Wire.Query.{parse_query_info-Returns}
use shield_ghita.Dns.ClientPolicy.{
  ClientMode, default_mode, trusted, strict, is_paused, mode_for_client,
}
use shield_ghita.Dns.Handler.{
  Shield, Outside, set_security, add_log, note_threat, block_ad, sinkhole_override,
  apply_response_policy,
}
use shield_ghita.Dns.Handler.Route.{
  judge_client, judge_ad, filter_query, apply_policy, after_inspection, admit_query, handle_query,
  handle_parsed, handle_dns_packet,
}
use shield_ghita.Dns.Handler.Parts.{parse_query_info-long}
use shield_ghita.Dns.Handler.Bounds.Packets.{after_packets}
use shield_ghita.Dns.Handler.Silenced.{
  IsSilenced, Silences, resolve-Silences, add_log-IsSilenced, block_ad-IsSilenced,
  sinkhole-Silences,
}

-- The packets come before a time, and those of one source at most a minute before it.
abbrev pub AreNear :
    {Address : Type 0} → (Address → Bytes) → Bytes → ℕ → List (Outside × Address × Bytes) → Type 0
AreNear show_address ip t [] = Unit
AreNear show_address ip t ((o, src, pkt) ∷ packets) =
    IsNear ip t (show_address src) o.now × AreNear show_address ip t packets

module _ {Address : Type 0} ⦃key : Key Address⦄ (f : Float64) (show_address : Address → Bytes)
    (is_loopback_address : Address → Bool) (ip : Bytes) (t : ℕ) where
  judge_client-IsSilenced :
      (s : Shield Address) (src : Address) (name : Bytes) (mode : ClientMode)
      → IsSilenced ip t s
      → IsSilenced ip t (judge_client f show_address is_loopback_address s src name mode).1
  judge_client-IsSilenced s src name trusted v = v
  judge_client-IsSilenced s src name strict v = v
  judge_client-IsSilenced s src name default_mode v = v

  judge_ad-IsSilenced :
      (s : Shield Address) (o : Outside) (src : Address) (name : Bytes)
      → IsSilenced ip t s
      → IsSilenced ip t (judge_ad f show_address is_loopback_address s o src name).1
  unfolding judge_ad
  judge_ad-IsSilenced s o src name v = elim (Bool-cases (is_paused s.adblock o.wall)) [
    | inl paused ↦ rw paused v
    | inr active ↦ rw active (judge_client-IsSilenced s src name (mode_for_client s.adblock src) v)
  ]

  module _ (o : Outside) (src : Address) (name : Bytes) (qtype : ℕ) (pkt : Bytes)
      (long : 12 ≤ length pkt) where
    filter_query-Silences :
        (s : Shield Address)
        → IsSilenced ip t s
        → Ensures
            (filter_query f show_address is_loopback_address s o src name qtype pkt)
            (Silences ip t)
    unfolding filter_query
    filter_query-Silences s v =
        let judged = judge_ad f show_address is_loopback_address s o src name in
        let w = judge_ad-IsSilenced s o src name v in
        let src_ip = show_address src in
        Ensures-if judged.0 _ _ (Silences ip t)
          (λ y.
            sinkhole-Silences ip t (block_ad judged.1 o name src_ip) pkt qtype
              (sinkhole_override judged.1.silent_sinkhole) long
              (block_ad-IsSilenced ip t judged.1 o name src_ip w))
          (λ n.
            resolve-Silences ip t (add_log judged.1 o name src_ip false) o name qtype pkt src_ip
              long (add_log-IsSilenced ip t judged.1 o name src_ip false w))

    apply_policy-Silences :
        (s : Shield Address)
        → IsSilenced ip t s
        → Ensures
            (apply_policy f show_address is_loopback_address s o src name qtype pkt)
            (Silences ip t)
    unfolding apply_policy
    apply_policy-Silences s v =
        elim (Option-cases (apply_response_policy s (show_address src) name qtype)) [
          | inl unset ↦ rw (unset, apply_policy) (filter_query-Silences s v)
          | inr (over, given) ↦
              rw (given, apply_policy) (sinkhole-Silences ip t s pkt qtype over long v)
        ]

    after_inspection-Silences :
        (s : Shield Address) (incident : Option SecurityIncident)
        → IsSilenced ip t s
        → Ensures
            (after_inspection f show_address is_loopback_address (s, incident) o src name qtype pkt)
            (Silences ip t)
    unfolding add_log
    after_inspection-Silences s none v = apply_policy-Silences s v
    after_inspection-Silences s (some incident) v =
        Ensures-if s.security.auto_block_enabled _ _ (Silences ip t) (λ y. (_, refl, v))
          (λ n. apply_policy-Silences (note_threat s o name (show_address src)) v)

    module _ (near : IsNear ip t (show_address src) o.now) where
      admit_query-Silences :
          (s : Shield Address)
          → IsSilenced ip t s
          → Ensures
              (admit_query f show_address is_loopback_address s o src name qtype pkt)
              (Silences ip t)
      unfolding admit_query add_log
      admit_query-Silences s v =
          let inspected = inspect_dns_query f s.security (show_address src) name o.now in
          let counted = record s { total_queries = (s.total_queries + 1) % 0x10000000000000000 } in
          let w =
            inspect_dns_query-IsStopped ip t f s.security (show_address src) name o.now near v in
          Ensures-if (is_darknet_pseudo_tld name) _ _ (Silences ip t) (λ y. (_, refl, w))
            (λ n. after_inspection-Silences (set_security counted inspected.0) inspected.1 w)

      handle_query-Silences :
          (s : Shield Address)
          → IsSilenced ip t s
          → Ensures
              (handle_query f show_address is_loopback_address s o src name qtype pkt)
              (Silences ip t)
      unfolding handle_query
      handle_query-Silences s v =
          let src_ip = show_address src in
          let limited = enforce_hard_rate_limit s.security src_ip o.now in
          let checked = is_ip_temporarily_blocked limited.0 src_ip o.now in
          let w = enforce_hard_rate_limit-IsStopped ip t s.security src_ip o.now near v in
          let w' = is_ip_temporarily_blocked-IsStopped ip t limited.0 src_ip o.now near w in
          Ensures-if limited.1 _ _ (Silences ip t) (λ y. (_, refl, w))
            (λ n.
              Ensures-if checked.1 _ _ (Silences ip t) (λ y. (_, refl, w'))
                (λ n'.
                  Ensures-if (is_quarantined checked.0.quarantine src_ip) _ _ (Silences ip t)
                    (λ y. (_, refl, w'))
                    (λ n''. admit_query-Silences (set_security s checked.0) w')))

  handle_dns_packet-Silences :
      (s : Shield Address) (o : Outside) (src : Address) (pkt : Bytes)
      → IsNear ip t (show_address src) o.now
      → IsSilenced ip t s
      → Ensures (handle_dns_packet f show_address is_loopback_address s o src pkt) (Silences ip t)
  unfolding handle_dns_packet
  handle_dns_packet-Silences s o src pkt near v =
      let (info, e) = parse_query_info-Returns pkt in rw e (parsed info e)
    where
      parsed :
          (info : Option (Bytes × ℕ))
          → parse_query_info pkt ≡ ret info
          → Ensures
              (handle_parsed f show_address is_loopback_address s o src pkt info)
              (Silences ip t)
      parsed none e = ((s, none), refl, v)
      parsed (some (name, qtype)) e =
          handle_query-Silences o src name qtype pkt (parse_query_info-long pkt (name, qtype) e)
            near s v

  -- A source that is stopped at a time stays so, whatever packets of others come, and whatever of its
  -- own in the minute before.
  pub after_packets-IsSilenced :
      (packets : List (Outside × Address × Bytes)) (s : Shield Address)
      → AreNear show_address ip t packets
      → IsSilenced ip t s
      → Ensures
          (after_packets f show_address is_loopback_address s packets)
          (λ s'. IsSilenced ip t s')
  unfolding after_packets
  after_packets-IsSilenced [] s near v = (s, refl, v)
  after_packets-IsSilenced ((o, src, pkt) ∷ packets) s (near, more) v =
      let (r, e, w) = handle_dns_packet-Silences s o src pkt near v in
      rw e (after_packets-IsSilenced packets r.0 more w)
