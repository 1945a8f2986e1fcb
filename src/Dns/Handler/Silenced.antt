-- ===== src/Dns/Handler/Silenced.antt =====
-- What the parts that `handle_dns_packet` of src/modules/dns/mod.rs calls do to a source that is blocked.
use shield_ghita.Prelude.{
  ℕ, ◌≤◌, refl, inl, inr, Bool, Option, none, some, Bytes, nat_eq, bytes_eq, pair_eq, Bool-cases,
  length,
}
use shield_ghita.Outcome.{Ensures, Ensures-bind, Ensures-if}
use shield_ghita.Security.Engine.{record_incident}
use shield_ghita.Security.Inspection.Lasting.{IsStopped, same-IsStopped}
use shield_ghita.Dns.Rebinding.Incidents.{take_rebind_incident_slot}
use shield_ghita.Dns.Handler.{
  Shield, Outside, ResponseOverride, add_log, block_ad, deliver, forward, serve_cached,
  ask_upstream, resolve, record_rebind_incident, with_reply, sinkhole_response,
}
use shield_ghita.Dns.Handler.Parts.{
  sinkhole_response-IsSome, first_answer-Returns, forwarded-Returns, cached_response_for-Returns,
  store_cache_response-Returns,
}

module _ {Address : Type 0} (ip : Bytes) (t : ℕ) where
  -- A source is stopped at a time, in the engine of a state.
  abbrev pub IsSilenced : Shield Address → Type 0
  IsSilenced s = IsStopped ip t s.security

  abbrev pub Silences : Shield Address × Option Bytes → Type 0
  Silences r = IsSilenced r.0

  pub record_rebind_incident-IsSilenced :
      (s : Shield Address) (src_ip name : Bytes) (now : ℕ)
      → IsSilenced s
      → IsSilenced (record_rebind_incident s src_ip name now)
  unfolding record_rebind_incident record_incident
  record_rebind_incident-IsSilenced s src_ip name now v =
      elim (Bool-cases (take_rebind_incident_slot s.rebind_cooldown src_ip name now).1) [
        | inl granted ↦
            same-IsStopped ip t s.security (record_rebind_incident s src_ip name now).security
              (rw granted refl) v
        | inr spared ↦
            same-IsStopped ip t s.security (record_rebind_incident s src_ip name now).security
              (rw spared refl) v
      ]

  pub resolve-Silences :
      (s : Shield Address) (o : Outside) (name : Bytes) (qtype : ℕ) (pkt src_ip : Bytes)
      → 12 ≤ length pkt
      → IsSilenced s
      → Ensures (resolve s o name qtype pkt src_ip) Silences
  unfolding resolve deliver
  resolve-Silences s o name qtype pkt src_ip long v =
      Ensures-bind _ _ Silences (cached_response_for-Returns s.cache name qtype pkt o.now long)
        (λ hit e. served hit)
    where
      upstream :
          (answer : Option Bytes) → Ensures (forward s o name qtype pkt src_ip answer) Silences
      upstream none = (_, refl, v)
      upstream (some resp) =
          Ensures-bind _ _ Silences (forwarded-Returns s.filter.custom_allowed name resp)
            (λ private e.
              Ensures-if private _ _ Silences
                (λ y. (_, refl, record_rebind_incident-IsSilenced s src_ip name o.answered v))
                (λ n.
                  Ensures-bind _ _ Silences
                    (store_cache_response-Returns s.cache name qtype resp o.answered)
                    (λ cache e'. (_, refl, v))))

      served :
          (hit : Option Bytes)
          → Ensures
              (elim hit [
                | some resp ↦ serve_cached s o name pkt src_ip resp
                | none ↦ ask_upstream s o name qtype pkt src_ip
              ])
              Silences
      served none =
          Ensures-bind _ _ Silences (first_answer-Returns o.bodies pkt)
            (λ answer e. upstream answer)
      served (some resp) =
          Ensures-bind _ _ Silences (forwarded-Returns s.filter.custom_allowed name resp)
            (λ private e. elim (Bool-cases private) [
              | inl y ↦ (_, refl, rw y (record_rebind_incident-IsSilenced s src_ip name o.now v))
              | inr n ↦ (_, refl, rw n v)
            ])

  pub add_log-IsSilenced :
      (s : Shield Address) (o : Outside) (domain source_ip : Bytes) (is_blocked : Bool)
      → IsSilenced s
      → IsSilenced (add_log s o domain source_ip is_blocked)
  unfolding add_log
  add_log-IsSilenced s o domain source_ip is_blocked v = v

  pub block_ad-IsSilenced :
      (s : Shield Address) (o : Outside) (name src_ip : Bytes)
      → IsSilenced s
      → IsSilenced (block_ad s o name src_ip)
  unfolding block_ad add_log
  block_ad-IsSilenced s o name src_ip v = v

  pub sinkhole-Silences :
      (s : Shield Address) (pkt : Bytes) (qtype : ℕ) (over : ResponseOverride)
      → 12 ≤ length pkt
      → IsSilenced s
      → Ensures (with_reply s (sinkhole_response pkt qtype over)) Silences
  sinkhole-Silences s pkt qtype over long v =
      let (r, e, _) = sinkhole_response-IsSome pkt qtype over long in
      Ensures-bind _ _ Silences (r, e) (λ r' e'. ((s, r'), refl, v))
