-- ===== src/Dns/DiskStore/Opening.antt =====
-- Which files `DiskBlocklist::open` of src/modules/dns/disk_store.rs accepts.
use shield_ghita.Prelude.{
  ℕ, ◌≤◌, ◌≡◌, refl, sym, ap, ◌∙◌, ◌↔◌, inl, inr, Bool, true, false, not, Option, none, some, List,
  [], ◌∷◌, arith, Bytes, nat_eq, bytes_eq, pair_eq, ltb, if◌then◌else◌, Bool-cases, length, take,
  nat_beq_iff, bytes_beq_iff, not_ltb→le,
}
use mathlib.Core.Path.{subst}
use shield_ghita.Dns.DiskStore.{
  header_size, magic, OpenError, DiskBlocklist, Opened, failed, opened, u32_at, sum_counts,
  bucket_end, starts_before, check_buckets, finish_open, store_of, open_file,
}

-- The buckets lie one after another, behind the header and before the strings.
abbrev pub AreLaid : ℕ → ℕ → List (ℕ × ℕ) → Type 0
AreLaid base start [] = Unit
AreLaid base start (bucket ∷ buckets) =
    (header_size ≤ bucket.0)
    × (start ≤ bucket.0)
    × (bucket_end bucket ≤ base)
    × AreLaid base (bucket_end bucket) buckets

-- A whole store in a file.
pub record IsStore (file : Bytes) (d : DiskBlocklist) : Type 0 where
  pub long : header_size ≤ length file
  pub marked : take 4 (take header_size file) ≡ magic
  pub version : u32_at (take header_size file) 4 ≡ 1
  pub whole : d.strings_base_offset ≤ length file
  pub counts : sum_counts d.buckets ≡ d.total_domains
  pub laid : AreLaid d.strings_base_offset 0 d.buckets
  pub read : d ≡ store_of file

abbrev start_of : Option ℕ → ℕ
start_of none = 0
start_of (some end) = end

starts_after : (off : ℕ) (prev : Option ℕ) → starts_before off prev ≡ false → start_of prev ≤ off
starts_after off none h = omega arith
starts_after off (some end) h = not_ltb→le _ _ h

not_before : (off : ℕ) (prev : Option ℕ) → start_of prev ≤ off → starts_before off prev ≡ false
not_before off none h = refl
not_before off (some end) h = ground (arith, h)

check_buckets-AreLaid :
    (base : ℕ) (prev : Option ℕ) (buckets : List (ℕ × ℕ))
    → check_buckets base prev buckets ≡ none
    → AreLaid base (start_of prev) buckets
unfolding check_buckets
check_buckets-AreLaid base prev [] e = tt
check_buckets-AreLaid base prev (bucket ∷ buckets) e =
    elim (Bool-cases (ltb bucket.0 header_size)) [
      | inl low ↦ absurd (cc (rw low at e))
      | inr high_enough ↦ elim (Bool-cases (ltb base (bucket_end bucket))) [
        | inl past ↦ absurd (cc (rw (high_enough, past) at e))
        | inr inside ↦ elim (Bool-cases (starts_before bucket.0 prev)) [
          | inl back ↦ absurd (cc (rw (high_enough, inside, back) at e))
          | inr after ↦ (
            not_ltb→le _ _ high_enough,
            starts_after bucket.0 prev after,
            not_ltb→le _ _ inside,
            check_buckets-AreLaid base (some (bucket_end bucket)) buckets
                (rw (high_enough, inside, after) at e),
          )
        ]
      ]
    ]

AreLaid-check_buckets :
    (base : ℕ) (prev : Option ℕ) (buckets : List (ℕ × ℕ))
    → AreLaid base (start_of prev) buckets
    → check_buckets base prev buckets ≡ none
unfolding check_buckets
AreLaid-check_buckets base prev [] v = refl
AreLaid-check_buckets base prev (bucket ∷ buckets) (head, start, end, v) =
    let high_enough : ltb bucket.0 header_size ≡ false = ground (arith, head) in
    let inside : ltb base (bucket_end bucket) ≡ false = ground (arith, end) in
    rw (high_enough, inside, not_before bucket.0 prev start)
      (AreLaid-check_buckets base (some (bucket_end bucket)) buckets v)

finish_open-opened :
    (d d' : DiskBlocklist) (check : Option OpenError)
    → finish_open d check ≡ opened d'
    → (check ≡ none) × (d' ≡ d)
finish_open-opened d d' none e = (refl, cc e)
finish_open-opened d d' (some error) e = absurd (cc e)

if_failed :
    (b : Bool) (error : OpenError) (rest : Opened) (d : DiskBlocklist)
    → (if b then failed error else rest) ≡ opened d
    → (b ≡ false) × (rest ≡ opened d)
if_failed true error rest d e = absurd (cc e)
if_failed false error rest d e = (refl, e)

if_passes :
    (b : Bool) (error : OpenError) (rest : Opened)
    → b ≡ false
    → (if b then failed error else rest) ≡ rest
if_passes true error rest e = absurd (cc e)
if_passes false error rest e = refl

negated : (b : Bool) → b ≡ true → not b ≡ false
negated b h = ground arith

unnegated : (b : Bool) → not b ≡ false → b ≡ true
unnegated b h = ground arith

accepted : (file : Bytes) (d : DiskBlocklist) → open_file file ≡ opened d → IsStore file d
unfolding open_file
accepted file d e =
    let (long, e1) = if_failed _ _ _ d e in
    let (marked, e2) = if_failed _ _ _ d e1 in
    let (version, e3) = if_failed _ _ _ d e2 in
    let (whole, e4) = if_failed _ _ _ d e3 in
    let (counts, e5) = if_failed _ _ _ d e4 in
    let (laid, same) = finish_open-opened (store_of file) d _ e5 in
    rw same (record {
      long = not_ltb→le _ _ long;
      marked = (bytes_beq_iff _ _).0 (unnegated _ marked);
      version = (nat_beq_iff _ _).0 (unnegated _ version);
      whole = not_ltb→le _ _ whole;
      counts = (nat_beq_iff _ _).0 (unnegated _ counts);
      laid = check_buckets-AreLaid _ none _ laid;
      read = refl;
    })

not_under : (a b : ℕ) → b ≤ a → ltb a b ≡ false
not_under a b h = ground (arith, h)

accepts : (file : Bytes) → IsStore file (store_of file) → open_file file ≡ opened (store_of file)
unfolding open_file
accepts file v =
    if_passes _ _ _ (not_under (length file) header_size v.long)
    ∙ if_passes _ _ _ (negated _ ((bytes_beq_iff _ _).1 v.marked))
    ∙ if_passes _ _ _ (negated _ ((nat_beq_iff _ _).1 v.version))
    ∙ if_passes _ _ _ (not_under (length file) (store_of file).strings_base_offset v.whole)
    ∙ if_passes _ _ _ (negated _ ((nat_beq_iff _ _).1 v.counts))
    ∙ ap (finish_open (store_of file)) (
        AreLaid-check_buckets (store_of file).strings_base_offset none (store_of file).buckets
          v.laid)

-- A file is opened exactly if it holds a whole store: the header with its mark and version, counts that
-- add up, buckets one after another behind the header, and strings behind the last one.
pub open_file-IsStore :
    (file : Bytes) (d : DiskBlocklist) → (open_file file ≡ opened d) ↔ IsStore file d
open_file-IsStore file d = (
  accepted file d,
  λ v.
      subst (λ d'. open_file file ≡ opened d') (sym v.read)
        (accepts file (subst (IsStore file) v.read v)),
)
