-- ===== src/Dns/Blocklist/Listed.antt =====
-- The domains that a round of `load_blocklists` of src/modules/dns/mod.rs collects: the built-in ones,
-- and the safe domains of the lines of every body.
use shield_ghita.Prelude.{
  ◌≡◌, refl, sym, ap, ◌∙◌, inl, inr, Bool, true, false, not, ◌&&◌, ◌||◌, Option, none, some, List,
  [], ◌∷◌, ◌++◌, map, arith, Bytes, ◌==◌, nat_eq, bytes_eq, pair_eq, Bool-cases, is_empty, any,
  contains, set_insert, retain, any-intro, contains-IsIn,
}
use shield_ghita.Text.{split}
use shield_ghita.Dns.ListLine.{parse_line}
use shield_ghita.Dns.Domain.{parents, match_domain_hierarchy, is_safe_blocklist_domain}
use shield_ghita.Dns.Domain.Hierarchy.{canonical, to_set}
use shield_ghita.Dns.Builtin.{builtin_ad_domains}
use shield_ghita.Dns.Blocklist.{
  Fetch, not_modified, body, fetch_error, crashed, Round, safe_domain, add_lines, take_result,
  take_results, start_round, distinct_domains,
}

-- The lines of every body.
abbrev pub lines_of : List Fetch → List Bytes
lines_of [] = []
lines_of (body url text etag ∷ fetches) = split 10 text ++ lines_of fetches
lines_of (not_modified url ∷ fetches) = lines_of fetches
lines_of (fetch_error e ∷ fetches) = lines_of fetches
lines_of (crashed ∷ fetches) = lines_of fetches

-- The values that are there.
abbrev pub somes : List (Option Bytes) → List Bytes
somes [] = []
somes (none ∷ xs) = somes xs
somes (some x ∷ xs) = x ∷ somes xs

-- The safe domains of lines, each line read by itself.
abbrev pub safe_domains_of : (Bytes → Bool) → List Bytes → List Bytes
safe_domains_of is_ip lines = retain is_safe_blocklist_domain (somes (map (parse_line is_ip) lines))

-- What a round lists.
abbrev pub listed_domains : (Bytes → Bool) → List Fetch → List Bytes
listed_domains is_ip fetches = builtin_ad_domains ++ safe_domains_of is_ip (lines_of fetches)

any-append :
    {A : Type 0} (p : A → Bool) (xs ys : List A) → any p (xs ++ ys) ≡ (any p xs || any p ys)
any-append p [] ys = refl
any-append p (x ∷ xs) ys = ground (arith, any-append p xs ys)

any-set_insert :
    (p : Bytes → Bool) (d : Bytes) (ds : List Bytes) → any p (set_insert d ds) ≡ (p d || any p ds)
any-set_insert p d ds = elim (Bool-cases (contains ds d)) [
  | inl there ↦
      rw there (again (p d) (any p ds) (λ h. any-intro p d ds (contains-IsIn ds d there) h))
  | inr new ↦ rw new refl
]
  where
    again : (a b : Bool) → (a ≡ true → b ≡ true) → b ≡ (a || b)
    again true b h = h refl
    again false b h = refl

any-distinct_domains : (p : Bytes → Bool) (ds : List Bytes) → any p (distinct_domains ds) ≡ any p ds
any-distinct_domains p [] = refl
any-distinct_domains p (d ∷ ds) =
    any-set_insert p d (distinct_domains ds) ∙ rw (any-distinct_domains p ds) refl

any-to_set : (p : Bytes → Bool) (ds : List Bytes) → any p (to_set ds) ≡ any p ds
unfolding to_set
any-to_set p [] = refl
any-to_set p (d ∷ ds) = any-set_insert p d (to_set ds) ∙ rw (any-to_set p ds) refl

any-map :
    (p : Bytes → Bool) (f : Bytes → Bytes) (ds : List Bytes)
    → any p (map f ds) ≡ any (λ d. p (f d)) ds
any-map p f [] = refl
any-map p f (d ∷ ds) = ap (λ b. p (f d) || b) (any-map p f ds)

-- One more line.
any-safe_domain :
    (is_ip : Bytes → Bool) (p : Bytes → Bool) (parsed : Option Bytes) (rest domains : List Bytes)
    → (any p (safe_domain is_ip parsed domains) || any p rest)
      ≡ (any p domains || any p (retain is_safe_blocklist_domain (somes (parsed ∷ [])) ++ rest))
any-safe_domain is_ip p none rest domains = refl
any-safe_domain is_ip p (some d) rest domains = elim (Bool-cases (is_safe_blocklist_domain d)) [
  | inl safe ↦ rw (safe, any-set_insert p d domains) (swap (p d) (any p domains) (any p rest))
  | inr unsafe ↦ rw unsafe refl
]
  where
    swap : (a b c : Bool) → ((a || b) || c) ≡ (b || (a || c))
    swap a b c = ground arith

safe_domains_of-cons :
    (parsed : Option Bytes) (xs : List (Option Bytes))
    → retain is_safe_blocklist_domain (somes (parsed ∷ xs))
      ≡ retain is_safe_blocklist_domain (somes (parsed ∷ []))
        ++ retain is_safe_blocklist_domain (somes xs)
safe_domains_of-cons none xs = refl
safe_domains_of-cons (some d) xs = ground arith

any-add_lines :
    (is_ip : Bytes → Bool) (p : Bytes → Bool) (lines domains : List Bytes)
    → any p (add_lines is_ip lines domains) ≡ (any p domains || any p (safe_domains_of is_ip lines))
unfolding add_lines
any-add_lines is_ip p [] domains = or_false (any p domains)
  where
    or_false : (a : Bool) → a ≡ (a || false)
    or_false a = ground arith
any-add_lines is_ip p (line ∷ lines) domains =
    any-add_lines is_ip p lines (safe_domain is_ip (parse_line is_ip line) domains)
    ∙ any-safe_domain is_ip p (parse_line is_ip line) (safe_domains_of is_ip lines) domains
    ∙ ap (λ ds. any p domains || any p ds)
        (sym (safe_domains_of-cons (parse_line is_ip line) (map (parse_line is_ip) lines)))

safe_domains_of-append :
    (is_ip : Bytes → Bool) (p : Bytes → Bool) (xs ys : List Bytes)
    → any p (safe_domains_of is_ip (xs ++ ys))
      ≡ (any p (safe_domains_of is_ip xs) || any p (safe_domains_of is_ip ys))
safe_domains_of-append is_ip p [] ys = refl
safe_domains_of-append is_ip p (x ∷ xs) ys =
    let parsed = parse_line is_ip x in
    let one = retain is_safe_blocklist_domain (somes (parsed ∷ [])) in
    ap (any p) (safe_domains_of-cons parsed (map (parse_line is_ip) (xs ++ ys)))
    ∙ any-append p one (safe_domains_of is_ip (xs ++ ys))
    ∙ ap (λ b. any p one || b) (safe_domains_of-append is_ip p xs ys)
    ∙ assoc (any p one) (any p (safe_domains_of is_ip xs)) (any p (safe_domains_of is_ip ys))
    ∙ ap (λ b. b || any p (safe_domains_of is_ip ys))
        (sym (
          ap (any p) (safe_domains_of-cons parsed (map (parse_line is_ip) xs))
          ∙ any-append p one (safe_domains_of is_ip xs)))
  where
    assoc : (a b c : Bool) → (a || (b || c)) ≡ ((a || b) || c)
    assoc a b c = ground arith

any-take_results :
    (is_ip : Bytes → Bool) (p : Bytes → Bool) (urls : List Bytes) (r : Round) (fetches : List Fetch)
    → any p (take_results is_ip urls r fetches).domains
      ≡ (any p r.domains || any p (safe_domains_of is_ip (lines_of fetches)))
unfolding take_result
any-take_results is_ip p urls r [] = or_false (any p r.domains)
  where
    or_false : (a : Bool) → a ≡ (a || false)
    or_false a = ground arith
any-take_results is_ip p urls r (not_modified url ∷ fetches) =
    any-take_results is_ip p urls (take_result is_ip urls r (not_modified url)) fetches
any-take_results is_ip p urls r (fetch_error e ∷ fetches) =
    any-take_results is_ip p urls (take_result is_ip urls r (fetch_error e)) fetches
any-take_results is_ip p urls r (crashed ∷ fetches) =
    any-take_results is_ip p urls (take_result is_ip urls r crashed) fetches
any-take_results is_ip p urls r (body url text etag ∷ fetches) =
    any-take_results is_ip p urls (take_result is_ip urls r (body url text etag)) fetches
    ∙ ap (λ b. b || any p (safe_domains_of is_ip (lines_of fetches)))
        (any-add_lines is_ip p (split 10 text) r.domains)
    ∙ assoc (any p r.domains) _ _
    ∙ ap (λ b. any p r.domains || b)
        (sym (safe_domains_of-append is_ip p (split 10 text) (lines_of fetches)))
  where
    assoc : (a b c : Bool) → ((a || b) || c) ≡ (a || (b || c))
    assoc a b c = ground arith

-- The domains of a round pass the tests that the listed ones pass.
pub any-listed_domains :
    (is_ip : Bytes → Bool) (p : Bytes → Bool) (urls : List Bytes) (etags : List (Bytes × Bytes))
    (fetches : List Fetch)
    → any p (take_results is_ip urls (start_round etags) fetches).domains
      ≡ any p (listed_domains is_ip fetches)
any-listed_domains is_ip p urls etags fetches =
    any-take_results is_ip p urls (start_round etags) fetches
    ∙ ap (λ b. b || any p (safe_domains_of is_ip (lines_of fetches)))
        (any-distinct_domains p builtin_ad_domains)
    ∙ sym (any-append p builtin_ad_domains (safe_domains_of is_ip (lines_of fetches)))

match_from :
    (s t : List Bytes) (name : Bytes)
    → ((x : Bytes) → contains s x ≡ contains t x)
    → match_domain_hierarchy name s ≡ match_domain_hierarchy name t
unfolding match_domain_hierarchy
match_from s t name same = rw (same name) (ap (λ b. contains t name || b) (over (parents name)))
  where
    over :
        (rs : List Bytes)
        → any (λ rest. not (is_empty rest) && contains s rest) rs
          ≡ any (λ rest. not (is_empty rest) && contains t rest) rs
    over [] = refl
    over (r ∷ rs) = rw (same r, over rs) refl

contains-any : (ds : List Bytes) (x : Bytes) → contains ds x ≡ any (λ d. d == x) ds
contains-any [] x = refl
contains-any (d ∷ ds) x = ap (λ b. d == x || b) (contains-any ds x)

-- The set of a round covers what the listed domains cover.
pub match-listed_domains :
    (is_ip : Bytes → Bool) (urls : List Bytes) (etags : List (Bytes × Bytes)) (fetches : List Fetch)
    (name : Bytes)
    → match_domain_hierarchy name
        (to_set (map canonical (take_results is_ip urls (start_round etags) fetches).domains))
      ≡ match_domain_hierarchy name (map canonical (listed_domains is_ip fetches))
match-listed_domains is_ip urls etags fetches name =
    match_from
      (to_set (map canonical (take_results is_ip urls (start_round etags) fetches).domains))
      (map canonical (listed_domains is_ip fetches)) name
      (λ x.
        contains-any
          (to_set (map canonical (take_results is_ip urls (start_round etags) fetches).domains)) x
        ∙ any-to_set (λ d. d == x)
            (map canonical (take_results is_ip urls (start_round etags) fetches).domains)
        ∙ any-map (λ d. d == x) canonical
            (take_results is_ip urls (start_round etags) fetches).domains
        ∙ any-listed_domains is_ip (λ d. canonical d == x) urls etags fetches
        ∙ sym (any-map (λ d. d == x) canonical (listed_domains is_ip fetches))
        ∙ sym (contains-any (map canonical (listed_domains is_ip fetches)) x))
