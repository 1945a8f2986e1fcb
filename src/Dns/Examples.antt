-- ===== src/Dns/Examples.antt =====
-- Tests of the DNS modules, and the theorems at concrete inputs.
use shield_ghita.Prelude.{
  ℕ, ◌≡◌, refl, sym, ap, ◌∙◌, ◌↔◌, inl, inr, Bool, true, false, not, ◌&&◌, some, List, [], ◌∷◌,
  ◌++◌, map, arith, Bytes, ◌==◌, nat_eq, bytes_eq, pair_eq, is_empty, contains, IsIn-contains,
}
use shield_ghita.Prelude.{IsIn-map}
use shield_ghita.Text.{codes, is_dot, trim_end_matches}
use shield_ghita.Outcome.{ret, Returns, byte, slice}
use shield_ghita.Dns.Domain.{
  ok, normalize, validate_domain, is_safe_blocklist_domain, match_domain_hierarchy, parents,
}
use shield_ghita.Dns.Domain.Hierarchy.{
  Covers, match_domain_hierarchy-Covers, compact_covered_domains, match-compact_covered_domains,
  to_set, canonical,
}
use shield_ghita.Dns.Domain.Minimal.{compact_covered_domains_minimal}
use shield_ghita.Dns.Domain.Validators.{validate_domain-is_safe}
use shield_ghita.Dns.FastCache.{FastDomainCache_new, slot, hash_domain}
use shield_ghita.Dns.Filter.{
  Disk, DnsFilter, should_block, clean_name, is_allowed, is_listed, add_custom_domain,
}
use shield_ghita.Dns.Filter.Exact.{
  policy, IsCollisionFree, IsExactFor-new, should_block-policy, add_custom_domain-should_block,
}
use shield_ghita.Dns.Filter.StaleParent.{IsUnlisted, cleared, should_block_stale_parent}
use shield_ghita.Dns.Wire.{
  is_utf8, is_pointer, parse_query_info, read_labels, read_qtype, build_a_query, query_header,
}
use shield_ghita.Dns.Wire.Query.{IsQuery, parse_query_info-Returns, parse_query_info-IsQuery}
use shield_ghita.Dns.Wire.RoundTrip.{build_a_query-parse_query_info}
use shield_ghita.Dns.Reply.{
  build_sinkhole_a_record, response_matches_query, sinkhole_header, a_answer, skip_question,
  sinkhole_reply,
}
use shield_ghita.Dns.Reply.Sinkhole.{build_sinkhole-response_matches_query}

abbrev pub example_com : Bytes
example_com = codes "example.com"

abbrev b_example_com : Bytes
b_example_com = codes "b.example.com"

abbrev pub a_b_example_com : Bytes
a_b_example_com = codes "a.b.example.com"

validate_domain_test : validate_domain (codes " Ads.Example.com. ") ≡ ok (codes "ads.example.com")
unfolding validate_domain
validate_domain_test = refl

hierarchy_test : match_domain_hierarchy a_b_example_com (example_com ∷ []) ≡ true
unfolding match_domain_hierarchy
hierarchy_test = refl

match_domain_hierarchy-Covers_example :
    (match_domain_hierarchy b_example_com (example_com ∷ []) ≡ true)
    ↔ Covers (example_com ∷ []) b_example_com
match_domain_hierarchy-Covers_example =
    match_domain_hierarchy-Covers b_example_com (example_com ∷ [])

abbrev feed : List Bytes
feed = b_example_com ∷ example_com ∷ codes "Tracker.net." ∷ []

match-compact_covered_domains_example :
    match_domain_hierarchy a_b_example_com (compact_covered_domains feed).0
    ≡ match_domain_hierarchy a_b_example_com (to_set (map canonical feed))
match-compact_covered_domains_example = match-compact_covered_domains feed a_b_example_com

compact_test : (compact_covered_domains feed) ≡ (example_com ∷ codes "tracker.net" ∷ [], 1)
unfolding compact_covered_domains
compact_test = refl

compact_covered_domains_minimal_example :
    contains (compact_covered_domains feed).0 (codes "com") ≡ false
unfolding compact_covered_domains
compact_covered_domains_minimal_example =
    compact_covered_domains_minimal feed example_com (codes "com") refl (inl refl)

validate_domain-is_safe_example : (validate_domain (codes "Ads.vn.") ≡ ok (codes "ads.vn")) ↔ (
    (codes "ads.vn" ≡ normalize (codes "Ads.vn."))
    × (is_safe_blocklist_domain (codes "ads.vn") ≡ true))
validate_domain-is_safe_example = validate_domain-is_safe (codes "Ads.vn.") (codes "ads.vn")

-- Hashes that are pairwise different.
abbrev distinct : List ℕ → Bool
distinct [] = true
distinct (h ∷ hs) = not (contains hs h) && distinct hs

distinct-IsCollisionFree :
    (names : List Bytes) → distinct (map hash_domain names) ≡ true → IsCollisionFree names
distinct-IsCollisionFree [] h r q i j e = absurd i
distinct-IsCollisionFree (x ∷ xs) h r q (inl i) (inl j) e = i ∙ sym j
distinct-IsCollisionFree (x ∷ xs) h r q (inl i) (inr j) e = absurd (
    ground (
      arith,
      IsIn-contains (map hash_domain xs) (hash_domain x)
          (rw (sym (ap hash_domain i) ∙ e) (IsIn-map hash_domain q xs j)),
    ))
distinct-IsCollisionFree (x ∷ xs) h r q (inr i) (inl j) e = absurd (
    ground (
      arith,
      IsIn-contains (map hash_domain xs) (hash_domain x)
          (rw (sym (ap hash_domain j) ∙ sym e) (IsIn-map hash_domain r xs i)),
    ))
distinct-IsCollisionFree (x ∷ xs) h r q (inr i) (inr j) e =
    distinct-IsCollisionFree xs (ground arith) r q i j e

-- A disk list that holds example.com alone.
abbrev disk : Disk
disk = record { holds = λ name. name == example_com; total_domains = 1 }

abbrev pub filter : DnsFilter
filter = record {
  disk_store = some disk;
  fast_cache = FastDomainCache_new;
  builtin_domains = codes "doubleclick.net" ∷ [];
  allowed_domains = [];
  custom_blocked = [];
  custom_allowed = codes "good.vn" ∷ [];
  rules_count = 1;
}

pub free : IsCollisionFree (parents a_b_example_com)
unfolding hash_domain
free = distinct-IsCollisionFree (parents a_b_example_com) refl

should_block-policy_example :
    (should_block filter a_b_example_com).0 ≡ policy filter a_b_example_com
unfolding clean_name
should_block-policy_example =
    should_block-policy filter a_b_example_com free
      (IsExactFor-new (some disk) (a_b_example_com ∷ parents a_b_example_com))

policy_test : policy filter a_b_example_com ≡ true
unfolding clean_name is_allowed is_listed match_domain_hierarchy
policy_test = refl

add_custom_domain-should_block_example :
    (should_block (add_custom_domain filter (codes "Example.com")).0 a_b_example_com).0 ≡ true
unfolding clean_name is_allowed is_listed match_domain_hierarchy validate_domain
add_custom_domain-should_block_example =
    add_custom_domain-should_block filter (codes "Example.com") example_com a_b_example_com refl
      free

unlisted :
    (name : Bytes)
    → clean_name name ≡ name
    → is_empty (trim_end_matches is_dot name) ≡ false
    → is_allowed filter name ≡ false
    → is_listed filter name ≡ false
    → IsUnlisted (cleared filter disk) name
unlisted name c n a l = record { clean = c; nonempty = n; not_allowed = a; not_listed = l }

should_block_stale_parent_example :
    ((should_block (cleared filter disk) b_example_com).0 ≡ true)
    × ((should_block (cleared filter disk) a_b_example_com).0 ≡ true)
    × ((should_block (should_block (cleared filter disk) a_b_example_com).1 b_example_com).0
        ≡ false)
unfolding clean_name is_allowed is_listed match_domain_hierarchy hash_domain slot
should_block_stale_parent_example =
    should_block_stale_parent filter disk (codes "a") b_example_com refl refl
      (unlisted a_b_example_com refl refl refl refl) (unlisted b_example_com refl refl refl refl)
      refl refl refl free refl

abbrev question : Bytes
question = query_header ++ (3 ∷ 97 ∷ 100 ∷ 115 ∷ 2 ∷ 118 ∷ 110 ∷ 0 ∷ 0 ∷ 1 ∷ 0 ∷ 1 ∷ [])

question_test : build_a_query (codes " ads.vn.") ≡ some question
unfolding build_a_query
question_test = refl

parsed_question : parse_query_info question ≡ ret (some (codes "ads.vn", 1))
unfolding parse_query_info read_labels read_qtype byte slice is_utf8 is_pointer
parsed_question = refl

parse_query_info-Returns_example : Returns (parse_query_info (0 ∷ 1 ∷ 2 ∷ []))
parse_query_info-Returns_example = parse_query_info-Returns (0 ∷ 1 ∷ 2 ∷ [])

parse_query_info-IsQuery_example :
    (parse_query_info question ≡ ret (some (codes "ads.vn", 1)))
    ↔ IsQuery question (codes "ads.vn") 1
parse_query_info-IsQuery_example = parse_query_info-IsQuery question (codes "ads.vn") 1

build_a_query-parse_query_info_example : parse_query_info question ≡ ret (some (codes "ads.vn", 1))
unfolding is_utf8
build_a_query-parse_query_info_example =
    build_a_query-parse_query_info (codes " ads.vn.") question question_test refl (omega arith)

abbrev sunk : Bytes
sunk =
    0x12
    ∷ 0x34
    ∷ (sinkhole_header
        ++ (3 ∷ 97 ∷ 100 ∷ 115 ∷ 2 ∷ 118 ∷ 110 ∷ 0 ∷ 0 ∷ 1 ∷ 0 ∷ 1 ∷ a_answer (0 ∷ 0 ∷ 0 ∷ 0 ∷ [])))

sunk_test : build_sinkhole_a_record question (0 ∷ 0 ∷ 0 ∷ 0 ∷ []) ≡ ret (some sunk)
unfolding build_sinkhole_a_record skip_question sinkhole_reply byte slice is_pointer
sunk_test = refl

build_sinkhole-response_matches_query_example :
    (parse_query_info sunk ≡ ret (some (codes "ads.vn", 1)))
    × (response_matches_query sunk question ≡ ret true)
build_sinkhole-response_matches_query_example =
    build_sinkhole-response_matches_query question (0 ∷ 0 ∷ 0 ∷ 0 ∷ []) [] sunk (codes "ads.vn") 1
      parsed_question (inl sunk_test)

validated : validate_domain (codes " Ads.Example.com. ") ≡ ok (codes "ads.example.com")
unfolding validate_domain
validated = refl

matched : match_domain_hierarchy (codes "a.b.example.com") (codes "example.com" ∷ []) ≡ true
unfolding match_domain_hierarchy
matched = refl
