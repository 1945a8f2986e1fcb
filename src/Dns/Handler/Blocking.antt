-- ===== src/Dns/Handler/Blocking.antt =====
-- What `handle_dns_packet` of src/modules/dns/mod.rs never resolves.
use shield_ghita.Prelude.{
  ℕ, ◌+◌, ◌%◌, ◌≤◌, ◌≡◌, refl, ◌∙◌, ◌⊎◌, inl, inr, Bool, true, false, Option, none, some, [], ◌∷◌,
  Bytes, Key, nat_eq, bytes_eq, pair_eq, is_empty, length,
}
use shield_ghita.Text.{trim_end_matches, is_dot}
use shield_ghita.Outcome.{ret, Ensures, Ensures-bind, Ensures-if}
use shield_ghita.Security.Engine.{SecurityEngine, SecurityIncident, is_ip_temporarily_blocked}
use shield_ghita.Security.Quarantine.{is_quarantined}
use shield_ghita.Security.Flood.{enforce_hard_rate_limit}
use shield_ghita.Security.Names.{Float64, is_darknet_pseudo_tld}
use shield_ghita.Security.Inspection.{inspect_dns_query}
use shield_ghita.Dns.Domain.{ok, validate_domain, match_domain_hierarchy, parents}
use shield_ghita.Dns.Filter.{should_block, add_custom_domain, is_allowed, clean_name}
use shield_ghita.Dns.Filter.Exact.{IsCollisionFree, add_custom_domain-should_block}
use shield_ghita.Dns.ClientPolicy.{default_mode, is_paused, mode_for_client}
use shield_ghita.Dns.Wire.{parse_query_info}
use shield_ghita.Dns.Reply.{build_nxdomain}
use shield_ghita.Dns.Handler.{
  Shield, Outside, set_security, sinkhole_response, sinkhole_override, note_threat,
  apply_response_policy,
}
use shield_ghita.Dns.Handler.Route.{
  judge_ad, filter_query, apply_policy, after_inspection, admit_query, handle_query,
  handle_dns_packet,
}
use shield_ghita.Dns.Handler.Parts.{sinkhole_response-IsSome, parse_query_info-long}

module _ {Address : Type 0} where
  -- No reply, NXDOMAIN, or the answer of the sinkhole.
  abbrev pub IsRefusal : Shield Address → Bytes → ℕ → Shield Address × Option Bytes → Type 0
  IsRefusal s pkt qtype result =
      (result.1 ≡ none)
      ⊎ (result.1 ≡ build_nxdomain pkt)
      ⊎ (sinkhole_response pkt qtype (sinkhole_override s.silent_sinkhole) ≡ ret result.1)

  -- A rule that the user adds.
  abbrev pub add_rule : Shield Address → Bytes → Shield Address
  add_rule s rule = record s { filter = (add_custom_domain s.filter rule).0 }

module _ {Address : Type 0} ⦃key : Key Address⦄ where
  -- The client is under the rules, and nothing answers before them.
  pub record IsFiltered (s : Shield Address) (o : Outside) (src : Address) : Type 0 where
    pub no_policy : s.response_policy ≡ none
    pub active : is_paused s.adblock o.wall ≡ false
    pub mode : mode_for_client s.adblock src ≡ default_mode

module _ {Address : Type 0} ⦃key : Key Address⦄ (f : Float64) (show_address : Address → Bytes)
    (is_loopback_address : Address → Bool) where
  -- What holds of every packet holds of one without a reply, of one that is sent NXDOMAIN, and of every
  -- query that is admitted, whatever the security engine's state became.
  pub handle_query-admits :
      (s : Shield Address) (o : Outside) (src : Address) (name : Bytes) (qtype : ℕ) (pkt : Bytes)
      (P : Shield Address × Option Bytes → Type 0)
      → ((e : SecurityEngine) → P (set_security s e, none))
      → ((e : SecurityEngine) → P (set_security s e, build_nxdomain pkt))
      → ((e : SecurityEngine)
          → Ensures
              (admit_query f show_address is_loopback_address
                (set_security s e)
                o
                src
                name
                qtype
                pkt)
              P)
      → Ensures (handle_query f show_address is_loopback_address s o src name qtype pkt) P
  unfolding handle_query
  handle_query-admits s o src name qtype pkt P unanswered alone admits =
      let limited = enforce_hard_rate_limit s.security (show_address src) o.now in
      let checked = is_ip_temporarily_blocked limited.0 (show_address src) o.now in
      Ensures-if limited.1 _ _ P (λ y. (_, refl, unanswered limited.0))
        (λ n.
          Ensures-if checked.1 _ _ P (λ y. (_, refl, unanswered checked.0))
            (λ n'.
              Ensures-if (is_quarantined checked.0.quarantine (show_address src)) _ _ P
                (λ y. (_, refl, alone checked.0)) (λ n''. admits checked.0)))

  pub handle_parsed-some :
      (s : Shield Address) (o : Outside) (src : Address) (pkt : Bytes) (info : Bytes × ℕ)
      (P : Shield Address × Option Bytes → Type 0)
      → parse_query_info pkt ≡ ret (some info)
      → Ensures (handle_query f show_address is_loopback_address s o src info.0 info.1 pkt) P
      → Ensures (handle_dns_packet f show_address is_loopback_address s o src pkt) P
  unfolding handle_dns_packet
  handle_parsed-some s o src pkt info P e h = rw e h

  -- A query for a darknet name gets no reply or NXDOMAIN, whatever the settings are and whatever the
  -- cache, the response policy and the upstream resolvers hold.
  pub handle_dns_packet-darknet :
      (s : Shield Address) (o : Outside) (src : Address) (pkt name : Bytes) (qtype : ℕ)
      → parse_query_info pkt ≡ ret (some (name, qtype))
      → is_darknet_pseudo_tld name ≡ true
      → Ensures
          (handle_dns_packet f show_address is_loopback_address s o src pkt)
          (λ result. (result.1 ≡ none) ⊎ (result.1 ≡ build_nxdomain pkt))
  unfolding admit_query
  handle_dns_packet-darknet s o src pkt name qtype e dark =
      let P : Shield Address × Option Bytes → Type 0 =
        λ result. (result.1 ≡ none) ⊎ (result.1 ≡ build_nxdomain pkt) in
      handle_parsed-some s o src pkt (name, qtype) P e
        (handle_query-admits s o src name qtype pkt P (λ e'. inl refl) (λ e'. inr refl)
          (λ e'. rw dark (_, refl, inr refl)))

  module _ (o : Outside) (src : Address) (name : Bytes) (qtype : ℕ) (pkt : Bytes)
      (long : 12 ≤ length pkt) where
    filter_query-IsRefusal :
        (s : Shield Address)
        → IsFiltered s o src
        → (should_block s.filter name).0 ≡ true
        → Ensures
            (filter_query f show_address is_loopback_address s o src name qtype pkt)
            (IsRefusal s pkt qtype)
    unfolding filter_query judge_ad
    filter_query-IsRefusal s v listed =
        let (r, e, _) =
          sinkhole_response-IsSome pkt qtype (sinkhole_override s.silent_sinkhole) long in
        rw (v.active, v.mode, listed)
          (Ensures-bind _ _ (IsRefusal s pkt qtype) (r, e) (λ r' e'. (_, refl, inr (inr e'))))

    apply_policy-IsRefusal :
        (s : Shield Address)
        → IsFiltered s o src
        → (should_block s.filter name).0 ≡ true
        → Ensures
            (apply_policy f show_address is_loopback_address s o src name qtype pkt)
            (IsRefusal s pkt qtype)
    unfolding apply_policy
    apply_policy-IsRefusal s v listed =
        let unset : apply_response_policy s (show_address src) name qtype ≡ none =
          rw v.no_policy refl in
        rw (unset, apply_policy) (filter_query-IsRefusal s v listed)

    after_inspection-IsRefusal :
        (s : Shield Address) (incident : Option SecurityIncident)
        → IsFiltered s o src
        → (should_block s.filter name).0 ≡ true
        → Ensures
            (after_inspection f show_address is_loopback_address (s, incident) o src name qtype pkt)
            (IsRefusal s pkt qtype)
    after_inspection-IsRefusal s none v listed = apply_policy-IsRefusal s v listed
    after_inspection-IsRefusal s (some incident) v listed =
        Ensures-if s.security.auto_block_enabled _ _ (IsRefusal s pkt qtype)
          (λ y. (_, refl, inr (inl refl)))
          (λ n.
            apply_policy-IsRefusal (note_threat s o name (show_address src))
              (record { no_policy = v.no_policy; active = v.active; mode = v.mode }) listed)

    admit_query-IsRefusal :
        (s : Shield Address)
        → IsFiltered s o src
        → (should_block s.filter name).0 ≡ true
        → Ensures
            (admit_query f show_address is_loopback_address s o src name qtype pkt)
            (IsRefusal s pkt qtype)
    unfolding admit_query
    admit_query-IsRefusal s v listed =
        let inspected = inspect_dns_query f s.security (show_address src) name o.now in
        let counted = record s {
          total_queries = (s.total_queries + 1) % 0x10000000000000000;
          security = inspected.0;
        } in
        Ensures-if (is_darknet_pseudo_tld name) _ _ (IsRefusal s pkt qtype)
          (λ y. (_, refl, inr (inl refl)))
          (λ n.
            after_inspection-IsRefusal counted inspected.1
              (record { no_policy = v.no_policy; active = v.active; mode = v.mode }) listed)

  handle_dns_packet-IsRefusal :
      (s : Shield Address) (o : Outside) (src : Address) (pkt name : Bytes) (qtype : ℕ)
      → parse_query_info pkt ≡ ret (some (name, qtype))
      → IsFiltered s o src
      → (should_block s.filter name).0 ≡ true
      → Ensures
          (handle_dns_packet f show_address is_loopback_address s o src pkt)
          (IsRefusal s pkt qtype)
  handle_dns_packet-IsRefusal s o src pkt name qtype e v listed =
      let long = parse_query_info-long pkt (name, qtype) e in
      handle_parsed-some s o src pkt (name, qtype) (IsRefusal s pkt qtype) e
        (handle_query-admits s o src name qtype pkt (IsRefusal s pkt qtype) (λ e'. inl refl)
          (λ e'. inr (inl refl))
          (λ e'.
            admit_query-IsRefusal o src name qtype pkt long (set_security s e')
              (record { no_policy = v.no_policy; active = v.active; mode = v.mode }) listed))

  -- After a custom rule is accepted, a query for its name or a name below it, unless the name is
  -- allowed, is refused: it has no reply, NXDOMAIN or the sinkhole's answer, whatever the answer cache
  -- and the upstream resolvers hold. The client has no rule of its own, the filter is not paused and
  -- there is no response policy; no two parents of the name may share a hash.
  pub add_custom_domain-handle_dns_packet :
      (s : Shield Address) (o : Outside) (src : Address) (pkt rule d name : Bytes) (qtype : ℕ)
      → validate_domain rule ≡ ok d
      → parse_query_info pkt ≡ ret (some (name, qtype))
      → is_empty (trim_end_matches is_dot name) ≡ false
      → match_domain_hierarchy (clean_name name) (d ∷ []) ≡ true
      → is_allowed s.filter (clean_name name) ≡ false
      → IsCollisionFree (parents (clean_name name))
      → IsFiltered s o src
      → Ensures
          (handle_dns_packet f show_address is_loopback_address (add_rule s rule) o src pkt)
          (IsRefusal s pkt qtype)
  add_custom_domain-handle_dns_packet s o src pkt rule d name qtype valid e named below open_name
        free v =
      handle_dns_packet-IsRefusal (add_rule s rule) o src pkt name qtype e
        (record { no_policy = v.no_policy; active = v.active; mode = v.mode })
        (add_custom_domain-should_block s.filter rule d name valid free
          ∙ rw (named, open_name, below) refl)
