-- ===== src/Dns/Blocklist/Rounds.antt =====
-- When a round of `load_blocklists` of src/modules/dns/mod.rs keeps the rules that are stored.
use shield_ghita.Prelude.{
  ◌+◌, ◌≤◌, ◌<◌, ◌≡◌, refl, ap, ◌∙◌, inl, inr, Bool, true, false, ◌&&◌, ◌||◌, none, some, List, [],
  ◌∷◌, arith, Bytes, ◌==◌, nat_eq, bytes_eq, pair_eq, ltb, if◌then◌else◌, Bool-cases, any, length,
  contains, retain, bytes_beq_iff, ==_refl, get, insert, get-insert,
}
use shield_ghita.Dns.Filter.{get_rules_count}
use shield_ghita.Dns.Blocklist.{
  Files, load_cache, Fetch, not_modified, body, fetch_error, crashed, Round, loaded, Blocklists,
  take_result, take_results, start_round, finish_round, load_blocklists,
}

-- The source gave no body.
abbrev pub is_bodiless : Fetch → Bool
is_bodiless (body url text etag) = false
is_bodiless _ = true

take_results-grow :
    (is_ip : Bytes → Bool) (urls : List Bytes) (r : Round) (fetches : List Fetch)
    → r.unchanged + r.failures
      ≤ (take_results is_ip urls r fetches).unchanged + (take_results is_ip urls r fetches).failures
unfolding take_result
take_results-grow is_ip urls r [] = omega arith
take_results-grow is_ip urls r (not_modified url ∷ fetches) =
    omega
      (arith, take_results-grow is_ip urls (take_result is_ip urls r (not_modified url)) fetches)
take_results-grow is_ip urls r (body url text etag ∷ fetches) =
    omega
      (arith, take_results-grow is_ip urls (take_result is_ip urls r (body url text etag)) fetches)
take_results-grow is_ip urls r (fetch_error e ∷ fetches) =
    omega (arith, take_results-grow is_ip urls (take_result is_ip urls r (fetch_error e)) fetches)
take_results-grow is_ip urls r (crashed ∷ fetches) =
    omega (arith, take_results-grow is_ip urls (take_result is_ip urls r crashed) fetches)

take_results-incomplete :
    (is_ip : Bytes → Bool) (urls : List Bytes) (r : Round) (fetches : List Fetch)
    → any is_bodiless fetches ≡ true
    → 0
      < (take_results is_ip urls r fetches).unchanged + (take_results is_ip urls r fetches).failures
unfolding take_result
take_results-incomplete is_ip urls r [] h = absurd (cc h)
take_results-incomplete is_ip urls r (not_modified url ∷ fetches) h =
    omega
      (arith, take_results-grow is_ip urls (take_result is_ip urls r (not_modified url)) fetches)
take_results-incomplete is_ip urls r (body url text etag ∷ fetches) h =
    take_results-incomplete is_ip urls (take_result is_ip urls r (body url text etag)) fetches h
take_results-incomplete is_ip urls r (fetch_error e ∷ fetches) h =
    omega (arith, take_results-grow is_ip urls (take_result is_ip urls r (fetch_error e)) fetches)
take_results-incomplete is_ip urls r (crashed ∷ fetches) h =
    omega (arith, take_results-grow is_ip urls (take_result is_ip urls r crashed) fetches)

finish_round-keeps :
    (urls : List Bytes) (r : Round) (files : Files) (b : Blocklists)
    → 0 < r.unchanged + r.failures
    → ((finish_round urls r files b).0.filter ≡ b.filter)
      × ((finish_round urls r files b).1 ≡ loaded (get_rules_count b.filter))
unfolding finish_round
finish_round-keeps urls r files b h =
    elim (Bool-cases (
      ltb 0 r.unchanged
      && r.fetched == 0
      && r.unchanged == length urls
      && ltb 0 (get_rules_count b.filter))) [
        | inl same ↦ rw same (refl, refl)
        | inr other ↦
            let incomplete : (ltb 0 r.unchanged || ltb 0 r.failures) ≡ true = ground arith in
            elim (Bool-cases (ltb 0 r.fetched)) [
              | inl y ↦ rw (other, incomplete, y) (refl, refl)
              | inr n ↦ rw (other, incomplete, n) (refl, refl)
            ]
      ]

-- When some source gives no body, because it has not changed or because it failed, no rule is lost: the
-- filter is the one that the stored list gives, and the result is its number of rules.
pub load_blocklists_incomplete :
    (is_ip : Bytes → Bool) (b : Blocklists) (urls : List Bytes) (fetches : List Fetch)
    (files : Files)
    → any is_bodiless fetches ≡ true
    → ((load_blocklists is_ip b urls fetches files).0.filter ≡ load_cache b.filter files)
      × ((load_blocklists is_ip b urls fetches files).1
          ≡ loaded (get_rules_count (load_cache b.filter files)))
unfolding load_blocklists
load_blocklists_incomplete is_ip b urls fetches files h =
    let r = take_results is_ip urls (start_round b.etag_cache) fetches in
    let some_missing = take_results-incomplete is_ip urls (start_round b.etag_cache) fetches h in
    let cached = record b { filter = load_cache b.filter files } in
    let kept = retain (λ entry. contains urls entry.0) r.new_etags in
    elim (Bool-cases (r.unchanged + r.fetched == length urls)) [
      | inl all_answered ↦ rw all_answered (
          finish_round-keeps urls (record r { new_etags = kept }) files
            (record cached { etag_cache = kept }) some_missing)
      | inr other ↦ rw other (finish_round-keeps urls r files cached some_missing)
    ]

get-retain_keys :
    (q : Bytes → Bool) (m : List (Bytes × Bytes)) (k : Bytes)
    → get (retain (λ entry. q entry.0) m) k ≡ (if q k then get m k else none)
get-retain_keys q [] k = ground arith
get-retain_keys q ((j, v) ∷ m) k =
    ground (arith, get-retain_keys q m k, (bytes_beq_iff j k).0, ap q)

-- A round in which one list has changed and the other has not.
abbrev pub after_change :
    (Bytes → Bool) → Blocklists → Bytes → Bytes → Bytes → Bytes → Files → Blocklists
after_change is_ip b url other text tag files =
    (load_blocklists is_ip b (url ∷ other ∷ []) (body url text (some tag) ∷ not_modified other ∷ [])
      files).0

-- A round in which neither list has changed.
abbrev pub after_rest : (Bytes → Bool) → Blocklists → Bytes → Bytes → Files → Blocklists
after_rest is_ip b url other files =
    (load_blocklists is_ip b (url ∷ other ∷ []) (not_modified url ∷ not_modified other ∷ [])
      files).0

tag_kept :
    (is_ip : Bytes → Bool) (b : Blocklists) (url other text tag : Bytes) (files : Files)
    → get (after_change is_ip b url other text tag files).etag_cache url ≡ some tag
unfolding load_blocklists take_result finish_round
tag_kept is_ip b url other text tag files =
    get-retain_keys (contains (url ∷ other ∷ [])) (insert url tag b.etag_cache) url
    ∙ rw (==_refl url) (get-insert url url tag b.etag_cache ∙ rw (==_refl url) refl)

-- When one of two lists has changed and the other has not, the new tag of the changed list is kept, but
-- the rules stay those of the stored list; the next round, in which neither list has changed, keeps
-- them again, so that the new rules of the changed list are not in the filter.
pub load_blocklists_stale :
    (is_ip : Bytes → Bool) (b : Blocklists) (url other text tag : Bytes) (files : Files)
    → (get (after_change is_ip b url other text tag files).etag_cache url ≡ some tag)
      × ((after_change is_ip b url other text tag files).filter ≡ load_cache b.filter files)
      × ((after_rest is_ip (after_change is_ip b url other text tag files) url other files).filter
          ≡ load_cache (load_cache b.filter files) files)
load_blocklists_stale is_ip b url other text tag files =
    let first = after_change is_ip b url other text tag files in
    let kept =
      (load_blocklists_incomplete is_ip b (url ∷ other ∷ [])
        (body url text (some tag) ∷ not_modified other ∷ []) files refl).0 in
    (
      tag_kept is_ip b url other text tag files,
      kept,
      (load_blocklists_incomplete is_ip first (url ∷ other ∷ [])
            (not_modified url ∷ not_modified other ∷ []) files refl).0
          ∙ ap (λ f. load_cache f files) kept,
    )
