-- ===== src/Dns/Blocklist/Covers.antt =====
-- What the store covers after a round of `load_blocklists` of src/modules/dns/mod.rs in which every
-- source gave a body.
use shield_ghita.Prelude.{
  ℕ, ◌+◌, ◌≤◌, ◌<◌, ◌≡◌, refl, ap, ◌∙◌, inl, inr, Bool, true, false, not, ◌&&◌, ◌||◌, Option, none,
  some, List, [], ◌∷◌, map, arith, Bytes, ◌==◌, nat_eq, bytes_eq, pair_eq, ltb, Bool-cases,
  is_empty, any, length, drop, contains, retain, IsIn, retain-IsIn, ltb→lt, map-IsIn,
}
use shield_ghita.Text.{
  dot, to_lowercase, to_lowercase-to_lowercase, trim_end_matches, is_dot, split,
}
use shield_ghita.Dns.Domain.{parents, match_domain_hierarchy}
use shield_ghita.Dns.Domain.Hierarchy.{
  canonical, to_set, is_kept, compact_covered_domains, match-compact_covered_domains,
}
use shield_ghita.Dns.Builtin.{builtin_ad_domains}
use shield_ghita.Dns.Filter.Exact.{disk_covers, holds_parent}
use shield_ghita.Dns.ListLine.{parse_line}
use shield_ghita.Dns.Blocklist.{
  Files, load_cache, Fetch, not_modified, body, fetch_error, crashed, Round, Blocklists,
  take_result, take_results, start_round, safe_domain, add_lines, distinct_domains, disk_of,
  finish_round, load_blocklists,
}
use shield_ghita.Dns.Blocklist.Rounds.{is_bodiless}
use shield_ghita.Dns.Blocklist.Listed.{listed_domains, match-listed_domains}

-- Every text of the list is in lower case.
abbrev AreLower : List Bytes → Type 0
AreLower ds = (x : Bytes) → IsIn x ds → to_lowercase x ≡ x

to_set-IsIn : (x : Bytes) (ds : List Bytes) → IsIn x (to_set ds) → IsIn x ds
unfolding to_set
to_set-IsIn x [] i = i
to_set-IsIn x (d ∷ ds) i = elim (Bool-cases (contains (to_set ds) d)) [
  | inl there ↦ inr (to_set-IsIn x ds (rw there at i))
  | inr new ↦ elim (rw new at i) [ inl same ↦ inl same | inr later ↦ inr (to_set-IsIn x ds later) ]
]

compacted-AreLower : (domains : List Bytes) → AreLower (compact_covered_domains domains).0
unfolding compact_covered_domains
compacted-AreLower domains x i =
    let all_domains = to_set (map canonical domains) in
    let (j, kept) = retain-IsIn (λ domain. is_kept all_domains (parents domain)) x all_domains i in
    let (y, k, same) = map-IsIn canonical x domains (to_set-IsIn x (map canonical domains) j) in
    rw same (to_lowercase-to_lowercase (trim_end_matches is_dot y))

any_same-contains :
    (ds : List Bytes) (d : Bytes)
    → AreLower ds
    → to_lowercase d ≡ d
    → any (λ x. to_lowercase x == to_lowercase d) ds ≡ contains ds d
any_same-contains [] d low lower = refl
any_same-contains (x ∷ ds) d low lower =
    rw (low x (inl refl), any_same-contains ds d (λ y i. low y (inr i)) lower, lower) refl

parents-AreLower : (s : Bytes) → to_lowercase s ≡ s → AreLower (parents s)
parents-AreLower [] lower x i = absurd i
parents-AreLower (b ∷ s) lower x i =
    let rest : to_lowercase s ≡ s = ap (drop 1) lower in
    elim (Bool-cases (b == dot)) [
      | inr other ↦ parents-AreLower s rest x (rw other at i)
      | inl at_dot ↦ elim (rw at_dot at i) [
        | inl same ↦ rw same rest
        | inr later ↦ parents-AreLower s rest x later
      ]
    ]

holds_parent-match :
    (ds : List Bytes) (count : ℕ) (rs : List Bytes)
    → AreLower ds
    → AreLower rs
    → holds_parent (disk_of ds count) rs ≡ any (λ rest. not (is_empty rest) && contains ds rest) rs
holds_parent-match ds count [] low lower = refl
holds_parent-match ds count (r ∷ rs) low lower =
    rw
      (
        any_same-contains ds r low (lower r (inl refl)),
        holds_parent-match ds count rs low (λ x i. lower x (inr i)),
      )
      (twice (not (is_empty r)) (contains ds r) _)
  where
    twice : (a c o : Bool) → ((a && (a && c)) || o) ≡ ((a && c) || o)
    twice a c o = ground arith

-- The store of a list in lower case covers what the list covers.
disk_of-match :
    (ds : List Bytes) (count : ℕ) (name : Bytes)
    → AreLower ds
    → to_lowercase name ≡ name
    → is_empty name ≡ false
    → disk_covers (some (disk_of ds count)) name ≡ match_domain_hierarchy name ds
unfolding match_domain_hierarchy
disk_of-match ds count name low lower some_name =
    rw
      (
        some_name,
        any_same-contains ds name low lower,
        holds_parent-match ds count (parents name) low (parents-AreLower name lower),
      )
      refl

length-add_lines-ge :
    (is_ip : Bytes → Bool) (lines domains : List Bytes)
    → length domains ≤ length (add_lines is_ip lines domains)
unfolding add_lines
length-add_lines-ge is_ip [] domains = omega arith
length-add_lines-ge is_ip (line ∷ lines) domains = omega (
  arith,
  length-add_lines-ge is_ip lines (safe_domain is_ip (parse_line is_ip line) domains),
  grows (parse_line is_ip line),
)
  where
    grows : (d : Option Bytes) → length domains ≤ length (safe_domain is_ip d domains)
    grows none = omega arith
    grows (some d) = ground arith

-- A round in which every source gives a body.
take_results_complete :
    (is_ip : Bytes → Bool) (urls : List Bytes) (r : Round) (fetches : List Fetch)
    → any is_bodiless fetches ≡ false
    → ((take_results is_ip urls r fetches).unchanged ≡ r.unchanged)
      × ((take_results is_ip urls r fetches).failures ≡ r.failures)
      × ((take_results is_ip urls r fetches).fetched ≡ r.fetched + length fetches)
      × (length r.domains ≤ length (take_results is_ip urls r fetches).domains)
unfolding take_result
take_results_complete is_ip urls r [] h = (refl, refl, omega arith, omega arith)
take_results_complete is_ip urls r (not_modified url ∷ fetches) h = absurd (cc h)
take_results_complete is_ip urls r (fetch_error e ∷ fetches) h = absurd (cc h)
take_results_complete is_ip urls r (crashed ∷ fetches) h = absurd (cc h)
take_results_complete is_ip urls r (body url text etag ∷ fetches) h =
    let (u, f, n, d) =
      take_results_complete is_ip urls (take_result is_ip urls r (body url text etag)) fetches h in
    (u, f, omega (arith, n), omega (arith, d, length-add_lines-ge is_ip (split 10 text) r.domains))

finish_round-rebuilds :
    (urls : List Bytes) (r : Round) (files : Files) (b : Blocklists)
    → r.unchanged ≡ 0
    → r.failures ≡ 0
    → 0 < r.fetched
    → 0 < length r.domains
    → files.can_write ≡ true
    → files.can_open ≡ true
    → (finish_round urls r files b).0.filter.disk_store
      ≡ some (
          disk_of
            (compact_covered_domains r.domains).0
            (length (compact_covered_domains r.domains).0))
unfolding finish_round
finish_round-rebuilds urls r files b u f n d write opens =
    let some_fetched : ltb 0 r.fetched ≡ true = ground (arith, n) in
    let some_domain : ltb 0 (length r.domains) ≡ true = ground (arith, d) in
    rw (u, f, some_fetched, some_domain, write, opens) refl

some_builtin : 0 < length (distinct_domains builtin_ad_domains)
unfolding builtin_ad_domains
some_builtin = ltb→lt _ _ refl

-- When every source gives a body and the store can be written, the new store covers a name in lower
-- case exactly if the name or one of its parents is, in lower case and without dots at its end, a
-- built-in domain or a safe domain that a line of a body reads as.
pub load_blocklists-match :
    (is_ip : Bytes → Bool) (b : Blocklists) (urls : List Bytes) (fetches : List Fetch)
    (files : Files) (name : Bytes)
    → any is_bodiless fetches ≡ false
    → is_empty fetches ≡ false
    → files.can_write ≡ true
    → files.can_open ≡ true
    → to_lowercase name ≡ name
    → is_empty name ≡ false
    → disk_covers (load_blocklists is_ip b urls fetches files).0.filter.disk_store name
      ≡ match_domain_hierarchy name (map canonical (listed_domains is_ip fetches))
unfolding load_blocklists
load_blocklists-match is_ip b urls fetches files name bodies some_source write opens lower
      some_name =
    let r = take_results is_ip urls (start_round b.etag_cache) fetches in
    let (u, f, n, d) = take_results_complete is_ip urls (start_round b.etag_cache) fetches bodies in
    let fetched : 0 < r.fetched = omega (arith, n, length_of_some fetches some_source) in
    let domains : 0 < length r.domains = omega (arith, d, some_builtin) in
    let cached = record b { filter = load_cache b.filter files } in
    let kept = retain (λ entry. contains urls entry.0) r.new_etags in
    let compacted = (compact_covered_domains r.domains).0 in
    let store : (load_blocklists is_ip b urls fetches files).0.filter.disk_store
        ≡ some (disk_of compacted (length compacted)) =
      elim (Bool-cases (r.unchanged + r.fetched == length urls)) [
        | inl answered ↦ rw answered (
            finish_round-rebuilds urls (record r { new_etags = kept }) files
              (record cached { etag_cache = kept }) u f fetched domains write opens)
        | inr other ↦
            rw other (finish_round-rebuilds urls r files cached u f fetched domains write opens)
      ] in
    rw store (
      disk_of-match compacted (length compacted) name (compacted-AreLower r.domains) lower some_name
      ∙ match-compact_covered_domains r.domains name
      ∙ match-listed_domains is_ip urls b.etag_cache fetches name)
  where
    length_of_some : (fs : List Fetch) → is_empty fs ≡ false → 0 < length fs
    length_of_some [] h = absurd (cc h)
    length_of_some (x ∷ fs) h = omega arith
