-- ===== src/Dns/Handler/Bounds/Stages.antt =====
-- The stages of `handle_dns_packet` of src/modules/dns/mod.rs keep the state within its limits.
use shield_ghita.Prelude.{
  ℕ, ◌≤◌, ◌<◌, refl, inl, inr, Bool, true, false, Option, none, some, arith, Bytes, Key, nat_eq,
  bytes_eq, pair_eq, Bool-cases, Option-cases, length, insert, length-insert-le,
}
use shield_ghita.Text.{to_lowercase}
use shield_ghita.Outcome.{Ensures, Ensures-bind, Ensures-if}
use shield_ghita.Security.Engine.{SecurityIncident}
use shield_ghita.Security.Names.{Float64}
use shield_ghita.Dns.ClientPolicy.{
  ClientMode, default_mode, trusted, strict, record_block, is_paused, mode_for_client,
}
use shield_ghita.Dns.ResponseCache.{CachedResponse, shed_entries}
use shield_ghita.Dns.ResponseCache.Bounds.{length-shed_entries-le}
use shield_ghita.Dns.ResponseCache.Store.{Stored, store_cache_response-insert}
use shield_ghita.Dns.Handler.{
  Shield, Outside, ResponseOverride, add_log, note_threat, count_block, block_query, block_ad,
  store_and_send, deliver, forward, serve_cached, ask_upstream, resolve, with_reply,
  sinkhole_response, sinkhole_override, apply_response_policy,
}
use shield_ghita.Dns.Handler.Route.{
  judge_client, judge_ad, filter_query, apply_policy, after_inspection,
}
use shield_ghita.Dns.Handler.Parts.{
  sinkhole_response-IsSome, first_answer-Returns, forwarded-Returns, cached_response_for-Returns,
}
use shield_ghita.Dns.Handler.Bounds.{
  IsBounded, add_log-IsBounded, note_threat-IsBounded, count_block-IsBounded, spared,
  record_rebind_incident-IsBounded, store-IsBounded, record_block-IsBounded,
}

module _ {Address : Type 0} (queries : ℕ) where
  abbrev pub Stays : Shield Address × Option Bytes → Type 0
  Stays r = IsBounded 0 queries r.0

  store_and_send-Stays :
      (s : Shield Address) (o : Outside) (name : Bytes) (qtype : ℕ) (resp : Bytes)
      → IsBounded 0 queries s
      → Ensures (store_and_send s o name qtype resp) Stays
  store_and_send-Stays s o name qtype resp v =
      let stored : Stored = record { name = name; qtype = qtype; resp = resp; time = o.answered } in
      let (ttl, e, low, high) = store_cache_response-insert s.cache stored in
      let shed = shed_entries s.cache o.answered in
      let entry : CachedResponse = record { response = resp; inserted = o.answered; ttl = ttl } in
      let cache = insert (to_lowercase name, qtype) entry shed in
      let few : length cache ≤ 5501 = omega (
        arith,
        length-shed_entries-le s.cache o.answered v.answers,
        length-insert-le (to_lowercase name, qtype) entry shed,
      ) in
      rw e ((record s { cache = cache }, some resp), refl, store-IsBounded queries s cache few v)

  pub resolve-Stays :
      (s : Shield Address) (o : Outside) (name : Bytes) (qtype : ℕ) (pkt ip : Bytes)
      → 12 ≤ length pkt
      → IsBounded 0 queries s
      → Ensures (resolve s o name qtype pkt ip) Stays
  unfolding resolve deliver
  resolve-Stays s o name qtype pkt ip long v =
      Ensures-bind _ _ Stays (cached_response_for-Returns s.cache name qtype pkt o.now long)
        (λ hit e. served hit)
    where
      upstream : (answer : Option Bytes) → Ensures (forward s o name qtype pkt ip answer) Stays
      upstream none = (_, refl, v)
      upstream (some resp) =
          Ensures-bind _ _ Stays (forwarded-Returns s.filter.custom_allowed name resp) (λ private e.
            Ensures-if private _ _ Stays
              (λ y. (_, refl, record_rebind_incident-IsBounded queries s ip name o.answered v))
              (λ n. store_and_send-Stays s o name qtype resp v))

      served :
          (hit : Option Bytes)
          → Ensures
              (elim hit [
                | some resp ↦ serve_cached s o name pkt ip resp
                | none ↦ ask_upstream s o name qtype pkt ip
              ])
              Stays
      served none =
          Ensures-bind _ _ Stays (first_answer-Returns o.bodies pkt) (λ answer e. upstream answer)
      served (some resp) =
          Ensures-bind _ _ Stays (forwarded-Returns s.filter.custom_allowed name resp) (λ private e.
            elim (Bool-cases private) [
              | inl y ↦ (_, refl, rw y (record_rebind_incident-IsBounded queries s ip name o.now v))
              | inr n ↦ (_, refl, rw n v)
            ])

module _ {Address : Type 0} ⦃key : Key Address⦄ (f : Float64) (show_address : Address → Bytes)
    (is_loopback_address : Address → Bool) where
  pub judge_client-IsBounded :
      (queries : ℕ) (s : Shield Address) (src : Address) (name : Bytes) (mode : ClientMode)
      → IsBounded 1 queries s
      → IsBounded 1 queries (judge_client f show_address is_loopback_address s src name mode).1
  judge_client-IsBounded queries s src name trusted v = v
  judge_client-IsBounded queries s src name strict v = v
  judge_client-IsBounded queries s src name default_mode v = record {
    log = v.log;
    devices = v.devices;
    answers = v.answers;
    rebinds = v.rebinds;
    incidents = v.incidents;
    statistics = v.statistics;
    counted = v.counted;
    blocked = v.blocked;
  }

  pub judge_ad-IsBounded :
      (queries : ℕ) (s : Shield Address) (o : Outside) (src : Address) (name : Bytes)
      → IsBounded 1 queries s
      → IsBounded 1 queries (judge_ad f show_address is_loopback_address s o src name).1
  unfolding judge_ad
  judge_ad-IsBounded queries s o src name v = elim (Bool-cases (is_paused s.adblock o.wall)) [
    | inl paused ↦ rw paused v
    | inr active ↦
        rw active (judge_client-IsBounded queries s src name (mode_for_client s.adblock src) v)
  ]

  module _ (queries : ℕ) (room : queries < 0x10000000000000000) (o : Outside) (src : Address)
      (name : Bytes) (qtype : ℕ) (pkt : Bytes) (long : 12 ≤ length pkt) where
    pub block_query-IsBounded :
        (s : Shield Address)
        → IsBounded 1 queries s
        → IsBounded 0 queries (block_query s o name (show_address src))
    block_query-IsBounded s v =
        add_log-IsBounded queries (count_block s) 0 o name (show_address src) true
          (count_block-IsBounded queries s room v)

    block_ad-IsBounded :
        (s : Shield Address)
        → IsBounded 1 queries s
        → IsBounded 0 queries (block_ad s o name (show_address src))
    unfolding block_ad
    block_ad-IsBounded s v =
        let recorded = record s {
          adblock = record_block s.adblock name (show_address src) o.wall;
        } in
        let w =
          block_query-IsBounded recorded
            (record_block-IsBounded queries s name (show_address src) o.wall v) in
        record {
          log = w.log;
          devices = w.devices;
          answers = w.answers;
          rebinds = w.rebinds;
          incidents = w.incidents;
          statistics = w.statistics;
          counted = w.counted;
          blocked = w.blocked;
        }

    sinkhole-Stays :
        (s : Shield Address) (over : ResponseOverride)
        → IsBounded 0 queries s
        → Ensures (with_reply s (sinkhole_response pkt qtype over)) (Stays queries)
    sinkhole-Stays s over v =
        let (r, e, _) = sinkhole_response-IsSome pkt qtype over long in
        Ensures-bind _ _ (Stays queries) (r, e) (λ r' e'. ((s, r'), refl, v))

    filter_query-Stays :
        (s : Shield Address)
        → IsBounded 1 queries s
        → Ensures
            (filter_query f show_address is_loopback_address s o src name qtype pkt)
            (Stays queries)
    unfolding filter_query
    filter_query-Stays s v =
        let judged = judge_ad f show_address is_loopback_address s o src name in
        let w = judge_ad-IsBounded queries s o src name v in
        Ensures-if judged.0 _ _ (Stays queries)
          (λ y.
            sinkhole-Stays (block_ad judged.1 o name (show_address src))
              (sinkhole_override judged.1.silent_sinkhole) (block_ad-IsBounded judged.1 w))
          (λ n.
            resolve-Stays queries (add_log judged.1 o name (show_address src) false) o name qtype
              pkt (show_address src) long
              (spared queries _
                (add_log-IsBounded queries judged.1 1 o name (show_address src) false w)))

    apply_policy-Stays :
        (s : Shield Address)
        → IsBounded 1 queries s
        → Ensures
            (apply_policy f show_address is_loopback_address s o src name qtype pkt)
            (Stays queries)
    unfolding apply_policy
    apply_policy-Stays s v =
        elim (Option-cases (apply_response_policy s (show_address src) name qtype)) [
          | inl unset ↦ rw (unset, apply_policy) (filter_query-Stays s v)
          | inr (over, given) ↦
              rw (given, apply_policy) (sinkhole-Stays s over (spared queries s v))
        ]

    pub after_inspection-Stays :
        (s : Shield Address) (incident : Option SecurityIncident)
        → IsBounded 1 queries s
        → Ensures
            (after_inspection f show_address is_loopback_address (s, incident) o src name qtype pkt)
            (Stays queries)
    after_inspection-Stays s none v = apply_policy-Stays s v
    after_inspection-Stays s (some incident) v =
        let noted = note_threat s o name (show_address src) in
        let w = note_threat-IsBounded queries s 1 o name (show_address src) v in
        Ensures-if s.security.auto_block_enabled _ _ (Stays queries)
          (λ y. (_, refl, block_query-IsBounded noted w)) (λ n. apply_policy-Stays noted w)
