-- ===== src/Dns/ReplyExamples.antt =====
-- Concrete responses, for the rebinding guard and the answer cache of src/modules/dns/mod.rs.
use shield_ghita.Prelude.{
  ◌-◌, ◌*◌, ◌≤◌, ◌≡◌, refl, true, none, some, [], ◌∷◌, arith, nat_eq, bytes_eq, pair_eq, ltb,
  if◌then◌else◌, any, length,
}
use shield_ghita.Text.{codes}
use shield_ghita.Outcome.{ret, byte, slice, Returns}
use shield_ghita.Dns.Wire.{is_pointer}
use shield_ghita.Dns.Domain.{match_domain_hierarchy}
use shield_ghita.Dns.Rebinding.{
  is_private_ipv4, is_private_rdata, skip_name, read_u16, skip_questions, scan_answers,
  is_private_ip_record, is_legit_local_domain, forwarded_answer_hits_private_space,
}
use shield_ghita.Dns.Rebinding.Answers.{WireName, WireAnswer, root, pointer, is_private_answer}
use shield_ghita.Dns.Rebinding.Private.{
  WireResponse, IsWireResponse, encode_response, is_private_ip_record-any,
}
use shield_ghita.Dns.Rebinding.Incidents.{RebindCooldown, take_rebind_incident_slot}
use shield_ghita.Dns.Rebinding.Total.{is_private_ip_record-Returns}
use shield_ghita.Dns.ResponseCache.{
  ResponseCache, store_cache_response, set_id, cached_response_for, cache_ttl_seconds,
  extract_min_ttl, skip_ttl_question, skip_ttl_name, skip_ttl_labels, min_ttl_from, read_u32,
}
use shield_ghita.Dns.ResponseCache.Store.{lifetime, store_cache_response-serves}
use shield_ghita.Dns.ResponseCache.Least.{IsCacheable}

abbrev question_name : WireName
question_name = record { labels = codes "ads" ∷ codes "vn" ∷ []; name_end = root }

-- An A record of 192.168.1.9 with a TTL of 300 seconds, its name a pointer to the question.
abbrev router : WireAnswer
router = record {
  name = record { labels = []; name_end = pointer 0xC0 12 };
  type_high = 0;
  type_low = 1;
  class_high = 0;
  class_low = 1;
  ttl0 = 0;
  ttl1 = 0;
  ttl2 = 1;
  ttl3 = 44;
  length_high = 0;
  length_low = 4;
  rdata = 192 ∷ 168 ∷ 1 ∷ 9 ∷ [];
}

abbrev poisoned : WireResponse
poisoned = record {
  id_high = 0x12;
  id_low = 0x34;
  flags_high = 0x81;
  flags_low = 0x80;
  questions_high = 0;
  questions_low = 1;
  answers_high = 0;
  answers_low = 1;
  other_counts = (0, 0, 0, 0);
  questions =
      record { name = question_name; type_high = 0; type_low = 1; class_high = 0; class_low = 1 }
      ∷ [];
  answers = router ∷ [];
  other_records = [];
}

poisoned-IsWireResponse : IsWireResponse poisoned
unfolding is_pointer
poisoned-IsWireResponse = record {
  question_count = refl;
  answer_count = refl;
  are_questions = (((refl, refl, (refl, refl, tt)), tt), tt);
  are_answers = (((tt, (refl, refl)), refl), tt);
}

router_private : is_private_answer router ≡ true
unfolding is_private_rdata is_private_ipv4
router_private = refl

withheld :
    forwarded_answer_hits_private_space
      (codes "example.com" ∷ [])
      (codes "ads.vn")
      (encode_response poisoned)
    ≡ ret true
unfolding forwarded_answer_hits_private_space is_legit_local_domain is_private_ip_record
    is_private_rdata is_private_ipv4 skip_name read_u16 skip_questions scan_answers
    match_domain_hierarchy byte slice is_pointer
withheld = refl

is_private_ip_record-any_example :
    is_private_ip_record (encode_response poisoned) ≡ ret (any is_private_answer (router ∷ []))
is_private_ip_record-any_example = is_private_ip_record-any poisoned poisoned-IsWireResponse

is_private_ip_record-Returns_example : Returns (is_private_ip_record (0 ∷ 1 ∷ []))
is_private_ip_record-Returns_example = is_private_ip_record-Returns (0 ∷ 1 ∷ [])

capped : cache_ttl_seconds (encode_response poisoned) ≡ ret 60
unfolding cache_ttl_seconds extract_min_ttl skip_ttl_question skip_ttl_name skip_ttl_labels
    min_ttl_from read_u32 read_u16 byte is_pointer
capped = refl

abbrev empty_cache : ResponseCache
empty_cache = []

poisoned-IsCacheable : IsCacheable poisoned
poisoned-IsCacheable = record {
  question = record {
    name = question_name;
    type_high = 0;
    type_low = 1;
    class_high = 0;
    class_low = 1;
  };
  asked = refl;
  few_labels = omega arith;
  few_answers = omega arith;
  short_names = ((tt, omega arith), tt);
}

store_cache_response-serves_example :
    (stored : ResponseCache) × (store_cache_response empty_cache
        (codes "Ads.vn")
        1
        (encode_response poisoned)
        5000
      ≡ ret stored)
    × (length stored ≤ 5501)
    × (cached_response_for stored (codes "ADS.VN") 1 (7 ∷ 9 ∷ []) 6000 ≡ (
        if ltb (6000 - 5000) (lifetime (router ∷ []) * 1000)
        then ret (some (set_id 7 9 (encode_response poisoned)))
        else ret none))
store_cache_response-serves_example =
    store_cache_response-serves empty_cache (codes "Ads.vn") (codes "ADS.VN") 1 5000 6000 poisoned 7
      9 [] poisoned-IsWireResponse poisoned-IsCacheable (omega arith) refl

-- The TTL of 300 seconds is held to one minute.
minute : lifetime (router ∷ []) ≡ 60
minute = refl

abbrev no_incidents : RebindCooldown
no_incidents = []

slot_granted :
    (take_rebind_incident_slot no_incidents (codes "10.0.0.2") (codes "ads.vn") 5000).1 ≡ true
unfolding take_rebind_incident_slot
slot_granted = refl
