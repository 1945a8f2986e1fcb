-- ===== src/Dns/Handler/Replies.antt =====
-- The replies of `handle_dns_packet` of src/modules/dns/mod.rs to the query of a source that may ask.
use shield_ghita.Prelude.{
  ℕ, ◌+◌, ◌%◌, ◌≤◌, ◌≡◌, refl, ap, ◌∙◌, inl, inr, Bool, false, Option, none, some, List, arith,
  Bytes, Key, nat_eq, bytes_eq, pair_eq, Bool-cases, Option-cases, length,
}
use shield_ghita.Outcome.{Outcome, ret, Ensures, Ensures-bind, Ensures-if, Ensures-weaken}
use shield_ghita.Security.Engine.{SecurityIncident}
use shield_ghita.Security.Names.{Float64, is_darknet_pseudo_tld}
use shield_ghita.Security.Inspection.{inspect_dns_query}
use shield_ghita.Dns.Filter.{DnsFilter, should_block}
use shield_ghita.Dns.ClientPolicy.{
  ClientMode, default_mode, trusted, strict, is_paused, mode_for_client,
}
use shield_ghita.Dns.Rebinding.{forwarded_answer_hits_private_space}
use shield_ghita.Dns.Reply.{build_nxdomain, build_servfail}
use shield_ghita.Dns.ResponseCache.{ResponseCache, cached_response_for}
use shield_ghita.Dns.Handler.{
  ResponseOverride, Shield, Outside, sinkhole_response, first_answer, add_log, with_reply,
  withhold_answer, deliver, forward, serve_cached, resolve, apply_response_policy, note_threat,
}
use shield_ghita.Dns.Handler.Route.{
  judge_client, judge_ad, filter_query, apply_policy, after_inspection, admit_query,
}
use shield_ghita.Dns.Handler.Parts.{
  IsSome, build_nxdomain-IsSome, build_servfail-IsSome, sinkhole_response-IsSome,
  first_answer-Returns, forwarded-Returns, cached_response_for-Returns,
  store_cache_response-Returns,
}

-- What a query can be answered with: an error, the answer of a sinkhole, or an answer of the cache or of
-- an upstream resolver in which the rebinding guard finds nothing.
pub data IsReply (allowed : List Bytes) (cache : ResponseCache) (o : Outside) (name : Bytes)
    (qtype : ℕ) (pkt r : Bytes) : Type 0 where
  nxdomain : build_nxdomain pkt ≡ some r → IsReply allowed cache o name qtype pkt r
  servfail :
      first_answer o.bodies pkt ≡ ret none
      → build_servfail pkt ≡ some r
      → IsReply allowed cache o name qtype pkt r
  sinkhole :
      (over : ResponseOverride)
      → sinkhole_response pkt qtype over ≡ ret (some r)
      → IsReply allowed cache o name qtype pkt r
  cached :
      cached_response_for cache name qtype pkt o.now ≡ ret (some r)
      → forwarded_answer_hits_private_space allowed name r ≡ ret false
      → IsReply allowed cache o name qtype pkt r
  forwarded :
      first_answer o.bodies pkt ≡ ret (some r)
      → forwarded_answer_hits_private_space allowed name r ≡ ret false
      → IsReply allowed cache o name qtype pkt r

module _ {Address : Type 0} where
  -- A reply is sent.
  abbrev pub Sends : (Bytes → Type 0) → Shield Address × Option Bytes → Type 0
  Sends P result = (r : Bytes) × (result.1 ≡ some r) × P r

  with_reply-Sends :
      (s : Shield Address) (m : Outcome (Option Bytes)) (P : Bytes → Type 0)
      → Ensures m (λ r. IsSome r)
      → ((r : Bytes) → m ≡ ret (some r) → P r)
      → Ensures (with_reply s m) (Sends P)
  with_reply-Sends s m P (o, e, (r, k)) h =
      let sent : m ≡ ret (some r) = e ∙ ap (λ x. ret x) k in
      Ensures-bind m _ (Sends P) (some r, sent)
        (λ o' e'. ((s, o'), refl, (r, cc (sent, e'), h r sent)))

  module _ (s : Shield Address) (o : Outside) (name : Bytes) (qtype : ℕ) (pkt : Bytes) where
    abbrev pub Replies : Shield Address × Option Bytes → Type 0
    Replies = Sends (IsReply s.filter.custom_allowed s.cache o name qtype pkt)

    withheld-Replies :
        (src_ip : Bytes) (now : ℕ) (resp : Bytes)
        → 12 ≤ length pkt
        → Replies (withhold_answer s src_ip name now pkt resp)
    withheld-Replies src_ip now resp long =
        let (nx, e) = build_nxdomain-IsSome pkt long in
        (nx, rw (e, withhold_answer) refl, nxdomain e)

    deliver-Replies :
        (src_ip resp : Bytes)
        → 12 ≤ length pkt
        → first_answer o.bodies pkt ≡ ret (some resp)
        → Ensures (deliver s o name qtype pkt src_ip resp) Replies
    unfolding deliver
    deliver-Replies src_ip resp long first =
        Ensures-bind _ _ Replies (forwarded-Returns s.filter.custom_allowed name resp) (λ private e.
          Ensures-if private _ _ Replies
            (λ y. (
              withhold_answer s src_ip name o.answered pkt resp,
              refl,
              withheld-Replies src_ip o.answered resp long,
            ))
            (λ n.
              Ensures-bind _ _ Replies
                (store_cache_response-Returns s.cache name qtype resp o.answered)
                (λ cache e'. (_, refl, (resp, refl, forwarded first (e ∙ ap (λ b. ret b) n))))))

    forward-Replies :
        (src_ip : Bytes) (answer : Option Bytes)
        → 12 ≤ length pkt
        → first_answer o.bodies pkt ≡ ret answer
        → Ensures (forward s o name qtype pkt src_ip answer) Replies
    forward-Replies src_ip none long first =
        let (r, e) = build_servfail-IsSome pkt long in (_, refl, (r, e, servfail first e))
    forward-Replies src_ip (some resp) long first = deliver-Replies src_ip resp long first

    serve_cached-Replies :
        (src_ip resp : Bytes)
        → 12 ≤ length pkt
        → cached_response_for s.cache name qtype pkt o.now ≡ ret (some resp)
        → Ensures (serve_cached s o name pkt src_ip resp) Replies
    serve_cached-Replies src_ip resp long hit =
        Ensures-bind _ _ Replies (forwarded-Returns s.filter.custom_allowed name resp) (λ private e.
          elim (Bool-cases private) [
            | inl y ↦
                let (nx, k) = build_nxdomain-IsSome pkt long in (_, refl, (nx, rw y k, nxdomain k))
            | inr n ↦ (_, refl, (resp, rw n refl, cached hit (e ∙ ap (λ b. ret b) n)))
          ])

    pub resolve-Replies :
        (src_ip : Bytes) → 12 ≤ length pkt → Ensures (resolve s o name qtype pkt src_ip) Replies
    unfolding resolve
    resolve-Replies src_ip long =
        Ensures-bind _ _ Replies (cached_response_for-Returns s.cache name qtype pkt o.now long)
          (λ hit e. elim (Option-cases hit) [
            | inl miss ↦ rw miss (
                Ensures-bind _ _ Replies (first_answer-Returns o.bodies pkt)
                  (λ answer e'. forward-Replies src_ip answer long e'))
            | inr (resp, found) ↦
                rw found (serve_cached-Replies src_ip resp long (e ∙ ap (λ h. ret h) found))
          ])

should_block-custom_allowed :
    (f : DnsFilter) (name : Bytes) → (should_block f name).1.custom_allowed ≡ f.custom_allowed
unfolding should_block
should_block-custom_allowed f name = ground arith

module _ {Address : Type 0} ⦃key : Key Address⦄ (f : Float64) (show_address : Address → Bytes)
    (is_loopback_address : Address → Bool) where
  judge_client-keeps :
      (s : Shield Address) (src : Address) (name : Bytes) (mode : ClientMode)
      → ((judge_client f show_address is_loopback_address s src name mode).1.cache ≡ s.cache)
        × ((judge_client f show_address is_loopback_address s src name mode).1.filter.custom_allowed
            ≡ s.filter.custom_allowed)
  judge_client-keeps s src name trusted = (refl, refl)
  judge_client-keeps s src name strict = (refl, refl)
  judge_client-keeps s src name default_mode = (refl, should_block-custom_allowed s.filter name)

  judge_ad-keeps :
      (s : Shield Address) (o : Outside) (src : Address) (name : Bytes)
      → ((judge_ad f show_address is_loopback_address s o src name).1.cache ≡ s.cache)
        × ((judge_ad f show_address is_loopback_address s o src name).1.filter.custom_allowed
            ≡ s.filter.custom_allowed)
  unfolding judge_ad
  judge_ad-keeps s o src name = elim (Bool-cases (is_paused s.adblock o.wall)) [
    | inl paused ↦ rw paused (refl, refl)
    | inr active ↦ rw active (judge_client-keeps s src name (mode_for_client s.adblock src))
  ]

  module _ (o : Outside) (src : Address) (name : Bytes) (qtype : ℕ) (pkt : Bytes)
      (long : 12 ≤ length pkt) where
    sinkholed :
        (s s' : Shield Address) (over : ResponseOverride)
        → Ensures (with_reply s' (sinkhole_response pkt qtype over)) (Replies s o name qtype pkt)
    sinkholed s s' over =
        with_reply-Sends s' _ _ (sinkhole_response-IsSome pkt qtype over long)
          (λ r e. sinkhole over e)

    filter_query-Replies :
        (s : Shield Address)
        → Ensures
            (filter_query f show_address is_loopback_address s o src name qtype pkt)
            (Replies s o name qtype pkt)
    unfolding filter_query add_log
    filter_query-Replies s =
        let judged = judge_ad f show_address is_loopback_address s o src name in
        let (cache, allowed) = judge_ad-keeps s o src name in
        Ensures-if judged.0 _ _ (Replies s o name qtype pkt) (λ y. sinkholed s _ _)
          (λ n.
            let logged = add_log judged.1 o name (show_address src) false in
            Ensures-weaken _ (Replies logged o name qtype pkt) (Replies s o name qtype pkt)
              (resolve-Replies logged o name qtype pkt (show_address src) long)
              (λ result sent. rw (cache, allowed) at sent))

    apply_policy-Replies :
        (s : Shield Address)
        → Ensures
            (apply_policy f show_address is_loopback_address s o src name qtype pkt)
            (Replies s o name qtype pkt)
    unfolding apply_policy
    apply_policy-Replies s =
        elim (Option-cases (apply_response_policy s (show_address src) name qtype)) [
          | inl none_given ↦ rw (none_given, apply_policy) (filter_query-Replies s)
          | inr (over, given) ↦ rw (given, apply_policy) (sinkholed s s over)
        ]

    after_inspection-Replies :
        (s : Shield Address) (incident : Option SecurityIncident)
        → Ensures
            (after_inspection f show_address is_loopback_address (s, incident) o src name qtype pkt)
            (Replies s o name qtype pkt)
    after_inspection-Replies s none = apply_policy-Replies s
    after_inspection-Replies s (some incident) =
        let (nx, e) = build_nxdomain-IsSome pkt long in
        Ensures-if s.security.auto_block_enabled _ _ (Replies s o name qtype pkt)
          (λ y. (_, refl, (nx, e, nxdomain e)))
          (λ n. apply_policy-Replies (note_threat s o name (show_address src)))

    -- A query of a source that may ask is always answered.
    pub admit_query-Replies :
        (s : Shield Address)
        → Ensures
            (admit_query f show_address is_loopback_address s o src name qtype pkt)
            (Replies s o name qtype pkt)
    unfolding admit_query
    admit_query-Replies s =
        let (nx, e) = build_nxdomain-IsSome pkt long in
        let inspected = inspect_dns_query f s.security (show_address src) name o.now in
        let counted = record s {
          total_queries = (s.total_queries + 1) % 0x10000000000000000;
          security = inspected.0;
        } in
        Ensures-if (is_darknet_pseudo_tld name) _ _ (Replies s o name qtype pkt)
          (λ y. (_, refl, (nx, e, nxdomain e))) (λ n. after_inspection-Replies counted inspected.1)
