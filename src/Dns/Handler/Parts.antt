-- ===== src/Dns/Handler/Parts.antt =====
-- The parts that `handle_dns_packet` of src/modules/dns/mod.rs calls return on every packet that was
-- parsed.
use shield_ghita.Prelude.{
  ℕ, ◌≤◌, ◌≡◌, refl, inl, inr, false, not, ◌&&◌, ◌||◌, Option, none, some, List, [], ◌∷◌, arith,
  Bytes, ◌==◌, nat_eq, bytes_eq, pair_eq, ltb, leb, Bool-cases, length, not_ltb→le,
}
use shield_ghita.Outcome.{
  Outcome, ret, ◌>>=◌, byte, byte-Returns, Returns, Returns-bind, Ensures, Ensures-bind, Ensures-if,
}
use shield_ghita.Dns.Rebinding.{
  forwarded_answer_hits_private_space, is_legit_local_domain, is_private_ip_record,
}
use shield_ghita.Dns.Rebinding.Total.{Returns-if, is_private_ip_record-Returns}
use shield_ghita.Dns.Wire.{parse_query_info}
use shield_ghita.Dns.Wire.Query.{parse_query_info-Returns}
use Prim.Native.Nat.{bit_and}
use shield_ghita.Dns.Reply.{
  same_question, build_error, build_nxdomain, build_servfail, response_matches_query,
}
use shield_ghita.Dns.Reply.Total.{build_sinkhole-Returns}
use shield_ghita.Dns.ResponseCache.{
  ResponseCache, CachedResponse, cache_ttl_seconds, answer_from, is_live, cached_response_for,
  store_cache_response,
}
use shield_ghita.Dns.ResponseCache.Ttl.{cache_ttl_seconds_bounds}
use shield_ghita.Dns.Handler.{
  ResponseOverride, or_nxdomain, or_else_nxdomain, sinkhole_response, first_answer,
}

-- There is a value.
abbrev pub IsSome : {A : Type 0} → Option A → Type 0
IsSome {A} o = (a : A) × (o ≡ some a)

build_error-IsSome : (code : ℕ) (pkt : Bytes) → 12 ≤ length pkt → IsSome (build_error code pkt)
unfolding build_error
build_error-IsSome code (a ∷ b ∷ c ∷ d ∷ e ∷ f ∷ g ∷ h ∷ i ∷ j ∷ k ∷ l ∷ body) long = (_, refl)
build_error-IsSome code [] long = absurd (omega (arith, long))
build_error-IsSome code (a ∷ []) long = absurd (omega (arith, long))
build_error-IsSome code (a ∷ b ∷ []) long = absurd (omega (arith, long))
build_error-IsSome code (a ∷ b ∷ c ∷ []) long = absurd (omega (arith, long))
build_error-IsSome code (a ∷ b ∷ c ∷ d ∷ []) long = absurd (omega (arith, long))
build_error-IsSome code (a ∷ b ∷ c ∷ d ∷ e ∷ []) long = absurd (omega (arith, long))
build_error-IsSome code (a ∷ b ∷ c ∷ d ∷ e ∷ f ∷ []) long = absurd (omega (arith, long))
build_error-IsSome code (a ∷ b ∷ c ∷ d ∷ e ∷ f ∷ g ∷ []) long = absurd (omega (arith, long))
build_error-IsSome code (a ∷ b ∷ c ∷ d ∷ e ∷ f ∷ g ∷ h ∷ []) long = absurd (omega (arith, long))
build_error-IsSome code (a ∷ b ∷ c ∷ d ∷ e ∷ f ∷ g ∷ h ∷ i ∷ []) long = absurd (omega (arith, long))
build_error-IsSome code (a ∷ b ∷ c ∷ d ∷ e ∷ f ∷ g ∷ h ∷ i ∷ j ∷ []) long =
    absurd (omega (arith, long))
build_error-IsSome code (a ∷ b ∷ c ∷ d ∷ e ∷ f ∷ g ∷ h ∷ i ∷ j ∷ k ∷ []) long =
    absurd (omega (arith, long))

pub build_nxdomain-IsSome : (pkt : Bytes) → 12 ≤ length pkt → IsSome (build_nxdomain pkt)
unfolding build_nxdomain
build_nxdomain-IsSome pkt long = build_error-IsSome 0x03 pkt long

pub build_servfail-IsSome : (pkt : Bytes) → 12 ≤ length pkt → IsSome (build_servfail pkt)
unfolding build_servfail
build_servfail-IsSome pkt long = build_error-IsSome 0x02 pkt long

-- A packet that is parsed has a whole header.
pub parse_query_info-long :
    (pkt : Bytes) (info : Bytes × ℕ) → parse_query_info pkt ≡ ret (some info) → 12 ≤ length pkt
unfolding parse_query_info
parse_query_info-long pkt info e = elim (Bool-cases (ltb (length pkt) 12)) [
  | inl short ↦ absurd (cc (rw short at e))
  | inr long ↦ not_ltb→le _ _ long
]

or_nxdomain-IsSome : (pkt : Bytes) (r : Option Bytes) → 12 ≤ length pkt → IsSome (or_nxdomain pkt r)
or_nxdomain-IsSome pkt none long = build_nxdomain-IsSome pkt long
or_nxdomain-IsSome pkt (some r) long = (r, refl)

or_else_nxdomain-Ensures :
    (pkt : Bytes) (m : Outcome (Option Bytes))
    → 12 ≤ length pkt
    → Returns m
    → Ensures (or_else_nxdomain pkt m) (λ r. IsSome r)
or_else_nxdomain-Ensures pkt m long total =
    Ensures-bind m _ (λ r. IsSome r) total
      (λ r e. (or_nxdomain pkt r, refl, or_nxdomain-IsSome pkt r long))

-- A sinkholed query always has a reply.
pub sinkhole_response-IsSome :
    (pkt : Bytes) (qtype : ℕ) (over : ResponseOverride)
    → 12 ≤ length pkt
    → Ensures (sinkhole_response pkt qtype over) (λ r. IsSome r)
unfolding sinkhole_response
sinkhole_response-IsSome pkt qtype over long =
    let (a, aaaa) = build_sinkhole-Returns pkt over.ipv4 over.ipv6 in
    Ensures-if (qtype == 1) _ _ (λ r. IsSome r) (λ y. or_else_nxdomain-Ensures pkt _ long a)
      (λ n.
        Ensures-if (qtype == 28) _ _ (λ r. IsSome r) (λ y. or_else_nxdomain-Ensures pkt _ long aaaa)
          (λ n'. (build_nxdomain pkt, refl, build_nxdomain-IsSome pkt long)))

same_question-Returns :
    (resp query : Bytes)
    → Returns (
        parse_query_info query >>= λ asked.
        parse_query_info resp >>= λ answered. ret (same_question asked answered))
same_question-Returns resp query =
    let (asked, e) = parse_query_info-Returns query in
    let (answered, e') = parse_query_info-Returns resp in
    (same_question asked answered, rw (e, e') refl)

response_matches_query-Returns : (resp query : Bytes) → Returns (response_matches_query resp query)
unfolding response_matches_query
response_matches_query-Returns resp query =
    Returns-if (ltb (length resp) 12 || ltb (length query) 12) (ret false) _
      (λ short. (false, refl))
      (λ long.
        let r : 12 ≤ length resp = ground (arith, long) in
        let q : 12 ≤ length query = ground (arith, long) in
        Returns-bind (byte resp 0) _ (byte-Returns resp 0 (omega (arith, r))) (λ r0 e0.
          Returns-bind (byte query 0) _ (byte-Returns query 0 (omega (arith, q))) (λ q0 e1.
            Returns-bind (byte resp 1) _ (byte-Returns resp 1 (omega (arith, r))) (λ r1 e2.
              Returns-bind (byte query 1) _ (byte-Returns query 1 (omega (arith, q))) (λ q1 e3.
                Returns-bind (byte resp 2) _ (byte-Returns resp 2 (omega (arith, r))) (λ flags e4.
                  Returns-if (not (r0 == q0) || not (r1 == q1)) (ret false) _ (λ y. (false, refl))
                    (λ n.
                      Returns-if (bit_and flags 0x80 == 0) (ret false) _ (λ y. (false, refl))
                        (λ n'. same_question-Returns resp query))))))))

pub first_answer-Returns : (bodies : List Bytes) (pkt : Bytes) → Returns (first_answer bodies pkt)
unfolding first_answer
first_answer-Returns [] pkt = (none, refl)
first_answer-Returns (body ∷ bodies) pkt =
    Returns-bind (first_answer bodies pkt) _ (first_answer-Returns bodies pkt) (λ rest e.
      Returns-bind (response_matches_query body pkt) _ (response_matches_query-Returns body pkt)
        (λ m e'. (_, refl)))

pub forwarded-Returns :
    (allowed : List Bytes) (name resp : Bytes)
    → Returns (forwarded_answer_hits_private_space allowed name resp)
unfolding forwarded_answer_hits_private_space
forwarded-Returns allowed name resp =
    Returns-if (is_legit_local_domain name) (ret false) _ (λ y. (false, refl))
      (λ n.
        Returns-bind (is_private_ip_record resp) _ (is_private_ip_record-Returns resp)
          (λ private e. (_, refl)))

answer_from-Returns :
    (c : Option CachedResponse) (pkt : Bytes) (now : ℕ)
    → 12 ≤ length pkt
    → Returns (answer_from c pkt now)
answer_from-Returns none pkt now long = (none, refl)
answer_from-Returns (some c) pkt now long =
    Returns-if (not (is_live now c && leb 12 (length c.response))) (ret none) _ (λ y. (none, refl))
      (λ n.
        Returns-bind (byte pkt 0) _ (byte-Returns pkt 0 (omega arith)) (λ i e.
          Returns-bind (byte pkt 1) _ (byte-Returns pkt 1 (omega arith)) (λ j e'. (_, refl))))

pub cached_response_for-Returns :
    (cache : ResponseCache) (name : Bytes) (qtype : ℕ) (pkt : Bytes) (now : ℕ)
    → 12 ≤ length pkt
    → Returns (cached_response_for cache name qtype pkt now)
unfolding cached_response_for
cached_response_for-Returns cache name qtype pkt now long = answer_from-Returns _ pkt now long

pub store_cache_response-Returns :
    (cache : ResponseCache) (name : Bytes) (qtype : ℕ) (resp : Bytes) (now : ℕ)
    → Returns (store_cache_response cache name qtype resp now)
unfolding store_cache_response
store_cache_response-Returns cache name qtype resp now =
    let (ttl, e, low, high) = cache_ttl_seconds_bounds resp in
    Returns-bind (cache_ttl_seconds resp) _ (ttl, e) (λ n k. (_, refl))
