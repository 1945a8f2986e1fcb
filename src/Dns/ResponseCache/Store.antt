-- ===== src/Dns/ResponseCache/Store.antt =====
-- For how long the cache of src/modules/dns/mod.rs serves an answer, and how many it holds.
use shield_ghita.Prelude.{
  Bool, true, false, List, ◌∙◌, ◌==◌, Option, max, min, ℕ, ◌-◌, ◌*◌, ◌≤◌, ◌≡◌, refl, inl, inr, ◌&&◌,
  none, some, ◌∷◌, arith, Bytes, nat_eq, bytes_eq, pair_eq, ltb, leb, if◌then◌else◌, Bool-cases,
  length, ==_refl, insert, get-insert, length-insert-le,
}
use shield_ghita.Text.{to_lowercase}
use shield_ghita.Outcome.{Outcome, ret, byte}
use shield_ghita.Dns.ResponseCache.{
  CachedResponse, ResponseCache, is_live, answer_from, cached_response_for, shed_entries,
  store_cache_response,
}
use shield_ghita.Dns.ResponseCache.{set_id, extract_min_ttl, cache_ttl_seconds, ttl_or_ten}
use shield_ghita.Dns.Rebinding.Answers.{WireAnswer}
use shield_ghita.Dns.Rebinding.Private.{WireResponse, IsWireResponse, encode_response}
use shield_ghita.Dns.ResponseCache.Least.{IsCacheable, least_ttl, extract_min_ttl-least_ttl}
use shield_ghita.Dns.ResponseCache.{known_ttl, max_u32}
use shield_ghita.Dns.ResponseCache.Ttl.{cache_ttl_seconds_bounds, cache_ttl_seconds-extract_min_ttl}
use shield_ghita.Dns.ResponseCache.Bounds.{length-shed_entries-le}

-- A response stored, with what it is stored under and when.
pub record Stored : Type 0 where
  pub name : Bytes
  pub qtype : ℕ
  pub resp : Bytes
  pub time : ℕ

abbrev pub store : ResponseCache → Stored → Outcome ResponseCache
store cache s = store_cache_response cache s.name s.qtype s.resp s.time

pub store_cache_response-insert :
    (cache : ResponseCache) (s : Stored)
    → (ttl : ℕ) × (store cache s
        ≡ ret (
            insert
              (to_lowercase s.name, s.qtype)
              (record { response = s.resp; inserted = s.time; ttl = ttl })
              (shed_entries cache s.time)))
      × (1 ≤ ttl)
      × (ttl ≤ 60)
unfolding store_cache_response
store_cache_response-insert cache s =
    let (ttl, e, low, high) = cache_ttl_seconds_bounds s.resp in (ttl, rw e refl, low, high)

served :
    (c : CachedResponse) (i j : ℕ) (rest : Bytes) (now : ℕ)
    → answer_from (some c) (i ∷ j ∷ rest) now ≡ (
        if is_live now c && leb 12 (length c.response)
        then ret (some (set_id i j c.response))
        else ret none)
unfolding byte
served c i j rest now = elim (Bool-cases (is_live now c && leb 12 (length c.response))) [
  | inl h ↦ rw h refl
  | inr h ↦ rw h refl
]

-- The entry that a response is stored as, with the least of the TTLs that are read from it.
abbrev pub entry_of : Stored → Option ℕ → CachedResponse
entry_of s least = record {
  response = s.resp;
  inserted = s.time;
  ttl = max 1 (min 60 (ttl_or_ten least));
}

store_cache_response-entry_of :
    (cache : ResponseCache) (s : Stored) (least : Option ℕ)
    → cache_ttl_seconds s.resp ≡ ret (max 1 (min 60 (ttl_or_ten least)))
    → store cache s
      ≡ ret (insert (to_lowercase s.name, s.qtype) (entry_of s least) (shed_entries cache s.time))
unfolding store_cache_response
store_cache_response-entry_of cache s least e = rw e refl

-- A response that is stored, with the TTL that is read from it.
stored-serves :
    (cache : ResponseCache) (s : Stored) (name : Bytes) (i j : ℕ) (rest : Bytes) (now : ℕ)
    → length cache ≤ 5501
    → to_lowercase name ≡ to_lowercase s.name
    → (least : Option ℕ) × (stored : ResponseCache) × (extract_min_ttl s.resp ≡ ret least)
      × (store cache s ≡ ret stored)
      × (length stored ≤ 5501)
      × (cached_response_for stored name s.qtype (i ∷ j ∷ rest) now ≡ (
          if ltb (now - s.time) (max 1 (min 60 (ttl_or_ten least)) * 1000) && leb 12 (length s.resp)
          then ret (some (set_id i j s.resp))
          else ret none))
unfolding cached_response_for
stored-serves cache s name i j rest now bound same =
    let (least, read, clamped) = cache_ttl_seconds-extract_min_ttl s.resp in
    let entry = entry_of s least in
    let shed = shed_entries cache s.time in
    let key : Bytes × ℕ = (to_lowercase s.name, s.qtype) in
    (
      least,
      insert key entry shed,
      read,
      store_cache_response-entry_of cache s least clamped,
      omega (arith, length-shed_entries-le cache s.time bound, length-insert-le key entry shed),
      rw (same, get-insert key key entry shed, ==_refl key) (served entry i j rest now),
    )

-- How many seconds a response with these answers is kept.
abbrev pub lifetime : List WireAnswer → ℕ
lifetime answers = if least_ttl answers == max_u32 then 10 else max 1 (min 60 (least_ttl answers))

lifetime-ttl_or_ten :
    (answers : List WireAnswer)
    → max 1 (min 60 (ttl_or_ten (known_ttl (some (least_ttl answers))))) ≡ lifetime answers
lifetime-ttl_or_ten answers = elim (Bool-cases (least_ttl answers == max_u32)) [
  | inl unknown ↦ rw unknown refl
  | inr known ↦ rw known refl
]

-- Storing a well-formed response with one question and no more labels and answers than the loops
-- allow returns, and leaves the cache with at most 5501 answers if it had no more. For as long as the
-- least TTL of its answers, held between one and sixty seconds, or for ten seconds if it has no answer
-- or each has the largest TTL, the response is served, with the identifier of the new query, for the
-- same type and the same name in any letter case. Afterwards it is not.
pub store_cache_response-serves :
    (cache : ResponseCache) (name asked : Bytes) (qtype time now : ℕ) (r : WireResponse) (i j : ℕ)
    (rest : Bytes)
    → IsWireResponse r
    → IsCacheable r
    → length cache ≤ 5501
    → to_lowercase asked ≡ to_lowercase name
    → (stored : ResponseCache) × (store_cache_response cache name qtype (encode_response r) time
        ≡ ret stored)
      × (length stored ≤ 5501)
      × (cached_response_for stored asked qtype (i ∷ j ∷ rest) now ≡ (
          if ltb (now - time) (lifetime r.answers * 1000)
          then ret (some (set_id i j (encode_response r)))
          else ret none))
store_cache_response-serves cache name asked qtype time now r i j rest w c bound same =
    let s : Stored = record { name = name; qtype = qtype; resp = encode_response r; time = time } in
    let (least, stored, read, kept, few, found) =
      stored-serves cache s asked i j rest now bound same in
    let known : least ≡ known_ttl (some (least_ttl r.answers)) =
      cc (read, extract_min_ttl-least_ttl r w c) in
    (
      stored,
      kept,
      few,
      found
          ∙ rw (known, lifetime-ttl_or_ten r.answers)
              (second-true (ltb (now - time) (lifetime r.answers * 1000)) _
                (ret (some (set_id i j (encode_response r)))) (ret none) long),
    )
  where
    long : leb 12 (length (encode_response r)) ≡ true
    long = ground arith

    second-true :
        {A : Type 0} (b c : Bool) (x y : A)
        → c ≡ true
        → (if b && c then x else y) ≡ (if b then x else y)
    second-true b true x y h = ground arith
    second-true b false x y h = absurd (cc h)
