-- ===== src/Dns/Wire/RoundTrip.antt =====
-- A query of `build_a_query` reads back through `parse_query_info` (src/modules/dns/mod.rs).
use shield_ghita.Prelude.{
  ℕ, ◌+◌, ◌*◌, ◌≤◌, ◌<◌, ◌≡◌, refl, sym, ap, ◌∙◌, ◌⊎◌, ◌≢◌, inl, inr, Bool, true, false, not, ◌||◌,
  Option, none, some, List, [], ◌∷◌, ◌++◌, arith, Bytes, ◌==◌, nat_eq, bytes_eq, pair_eq, ltb,
  Bool-cases, Option-cases, is_empty, length, nat_beq_iff, length-append,
}
use shield_ghita.Prelude.{all_below, all_below-elim}
use mathlib.Core.List.{append-nil, append_assoc}
use shield_ghita.Text.{dot, split, join, cons_head}
use shield_ghita.Outcome.{ret}
use shield_ghita.Dns.Wire.{
  is_pointer, is_utf8, Utf8, start, utf8_from, utf8_next, parse_query_info, build_a_query,
  push_labels, query_header, query_host,
}
use shield_ghita.Dns.Wire.Names.{encode, AreWireLabels}
use shield_ghita.Dns.Wire.Query.{parse_query_info-IsQuery}

no_pointer_table : all_below 64 (λ n. not (is_pointer n)) ≡ true
unfolding all_below is_pointer
no_pointer_table = refl

-- A length byte of a legal label is no pointer.
is_pointer_small : (n : ℕ) → n < 64 → is_pointer n ≡ false
is_pointer_small n h =
    ground (arith, all_below-elim 64 (λ n. not (is_pointer n)) n no_pointer_table h)

abbrev IsShort : Bytes → Type 0
IsShort label = (0 < length label) × (length label ≤ 63)

abbrev AreShort : List Bytes → Type 0
AreShort [] = Unit
AreShort (l ∷ ls) = IsShort l × AreShort ls

empty_length : (l : Bytes) → is_empty l ≡ false → 0 < length l
empty_length [] h = cc
empty_length (x ∷ l) h = omega arith

push_labels-encode :
    (query : Bytes) (labels : List Bytes) (q : Bytes)
    → push_labels query labels ≡ some q
    → (q ≡ query ++ encode labels) × AreShort labels
unfolding push_labels
push_labels-encode query [] q h = (cc (append-nil query), tt)
push_labels-encode query (l ∷ ls) q h = elim (Bool-cases (is_empty l || ltb 63 (length l))) [
  | inl y ↦ absurd (cc (rw y at h))
  | inr n ↦
      let (e, short) = push_labels-encode (query ++ (length l ∷ l)) ls q (rw n at h) in
      (
        e ∙ append_assoc query (length l ∷ l) (encode ls),
        ((empty_length l (ground arith), ground arith), short),
      )
]

join-cons_head :
    (b : ℕ) (labels : List Bytes)
    → labels ≢ []
    → join dot (cons_head b labels) ≡ b ∷ join dot labels
join-cons_head b [] h = absurd (h refl)
join-cons_head b (l ∷ []) h = refl
join-cons_head b (l ∷ m ∷ ls) h = refl

split-nonempty : (s : Bytes) → split dot s ≢ []
split-nonempty [] e = cc
split-nonempty (b ∷ s) e = elim (Bool-cases (b == dot)) [
  | inl y ↦ cc (rw y at e)
  | inr n ↦ head_nonempty (split dot s) (rw n at e)
]
  where
    head_nonempty : (labels : List Bytes) → cons_head b labels ≡ [] → ⊥
    head_nonempty [] k = cc
    head_nonempty (l ∷ ls) k = cc

join-nil_cons : (labels : List Bytes) → labels ≢ [] → join dot ([] ∷ labels) ≡ dot ∷ join dot labels
join-nil_cons [] h = absurd (h refl)
join-nil_cons (l ∷ ls) h = refl

join-split : (s : Bytes) → join dot (split dot s) ≡ s
join-split [] = refl
join-split (b ∷ s) = elim (Bool-cases (b == dot)) [
  | inl y ↦
      rw y (
        join-nil_cons (split dot s) (split-nonempty s) ∙ cc (join-split s, (nat_beq_iff b dot).0 y))
  | inr n ↦
      rw n (join-cons_head b (split dot s) (split-nonempty s) ∙ ap (λ t. b ∷ t) (join-split s))
]

abbrev AreUtf8 : List Bytes → Type 0
AreUtf8 [] = Unit
AreUtf8 (l ∷ ls) = (is_utf8 l ≡ true) × AreUtf8 ls

-- The first piece is read on from a state, the others from the start.
abbrev ReadsFrom : Utf8 → List Bytes → Type 0
ReadsFrom st [] = ⊥
ReadsFrom st (l ∷ ls) = (utf8_from st l ≡ true) × AreUtf8 ls

abbrev continues : Option Utf8 → Bytes → Bool
continues none s = false
continues (some next) s = utf8_from next s

utf8_from-cons :
    (st : Utf8) (b : ℕ) (s : Bytes) → utf8_from st (b ∷ s) ≡ continues (utf8_next st b) s
utf8_from-cons start b s = ground arith
utf8_from-cons st b s = ground arith

at_dot :
    (st : Utf8) (s : Bytes)
    → utf8_from st (dot ∷ s) ≡ true
    → (st ≡ start) × (utf8_from start s ≡ true)
at_dot start s h = (refl, h)
at_dot st s h = absurd (cc)

from_start : (labels : List Bytes) → ReadsFrom start labels → AreUtf8 labels
unfolding is_utf8
from_start [] r = absurd r
from_start (l ∷ ls) r = r

cons_head-ReadsFrom :
    (st : Utf8) (b : ℕ) (next : Utf8) (labels : List Bytes)
    → utf8_next st b ≡ some next
    → ReadsFrom next labels
    → ReadsFrom st (cons_head b labels)
cons_head-ReadsFrom st b next [] e r = absurd r
cons_head-ReadsFrom st b next (l ∷ ls) e r =
    (utf8_from-cons st b l ∙ ap (λ o. continues o l) e ∙ r.0, r.1)

split-ReadsFrom : (s : Bytes) (st : Utf8) → utf8_from st s ≡ true → ReadsFrom st (split dot s)
split-ReadsFrom [] st h = (h, tt)
split-ReadsFrom (b ∷ s) st h = elim (Bool-cases (b == dot)) [
  | inl y ↦
      rw y (piece_ends (at_dot st s (rw ((nat_beq_iff b dot).0 y) at h)) (split-ReadsFrom s start))
  | inr n ↦ rw n (
      piece_goes_on (Option-cases (utf8_next st b)) (sym (utf8_from-cons st b s) ∙ h)
        (split-ReadsFrom s))
]
  where
    piece_ends :
        (st ≡ start) × (utf8_from start s ≡ true)
        → (utf8_from start s ≡ true → ReadsFrom start (split dot s))
        → ReadsFrom st ([] ∷ split dot s)
    piece_ends (e, k) ih = (rw e refl, from_start (split dot s) (ih k))

    piece_goes_on :
        (utf8_next st b ≡ none) ⊎ ((next : Utf8) × (utf8_next st b ≡ some next))
        → continues (utf8_next st b) s ≡ true
        → ((next : Utf8) → utf8_from next s ≡ true → ReadsFrom next (split dot s))
        → ReadsFrom st (cons_head b (split dot s))
    piece_goes_on (inl e) k ih = absurd (cc (ap (λ o. continues o s) e))
    piece_goes_on (inr (next, e)) k ih =
        cons_head-ReadsFrom st b next (split dot s) e
          (ih next (sym (ap (λ o. continues o s) e) ∙ k))

-- The pieces of a text in UTF-8 between its dots are in UTF-8.
split-AreUtf8 : (s : Bytes) → is_utf8 s ≡ true → AreUtf8 (split dot s)
unfolding is_utf8
split-AreUtf8 s h = from_start (split dot s) (split-ReadsFrom s start h)

wire_labels : (labels : List Bytes) → AreShort labels → AreUtf8 labels → AreWireLabels labels
wire_labels [] short u = tt
wire_labels (l ∷ ls) short u = (
  record {
    not_root = ground arith;
    no_pointer = is_pointer_small (length l) (omega arith);
    utf8 = u.0;
  },
  wire_labels ls short.1 u.1,
)

length-join :
    (labels : List Bytes)
    → labels ≢ []
    → AreShort labels
    → 2 * length labels ≤ length (join dot labels) + 1
length-join [] ne short = omega arith
length-join (l ∷ []) ne short = omega arith
length-join (l ∷ m ∷ ls) ne short =
    omega (arith, length-append l (dot ∷ join dot (m ∷ ls)), length-join (m ∷ ls) (λ e. cc) short.1)

built :
    (host q : Bytes)
    → build_a_query host ≡ some q
    → (q ≡ (query_header ++ encode (split dot (query_host host))) ++ (0 ∷ 0 ∷ 1 ∷ 0 ∷ 1 ∷ []))
      × AreShort (split dot (query_host host))
unfolding build_a_query
built host q h = elim (Bool-cases (is_empty (query_host host))) [
  | inl y ↦ absurd (cc (rw y at h))
  | inr n ↦
      pushed (Option-cases (push_labels query_header (split dot (query_host host)))) (rw n at h)
]
  where
    labels : List Bytes
    labels = split dot (query_host host)

    tail_of : Option Bytes → Option Bytes
    tail_of none = none
    tail_of (some query) = some (query ++ (0 ∷ 0 ∷ 1 ∷ 0 ∷ 1 ∷ []))

    pushed :
        (push_labels query_header labels ≡ none)
          ⊎ ((query : Bytes) × (push_labels query_header labels ≡ some query))
        → tail_of (push_labels query_header labels) ≡ some q
        → (q ≡ (query_header ++ encode labels) ++ (0 ∷ 0 ∷ 1 ∷ 0 ∷ 1 ∷ [])) × AreShort labels
    pushed (inl e) k = absurd (cc (rw e at k))
    pushed (inr (query, e)) k =
        let (e', short) = push_labels-encode query_header labels query e in
        (cc (sym k ∙ ap tail_of e, e'), short)

empty_ne : (labels : List Bytes) → labels ≢ [] → is_empty labels ≡ false
empty_ne [] h = absurd (h refl)
empty_ne (l ∷ ls) h = refl

-- The query that is built for a host of at most 253 bytes is read back as a question for that host,
-- without the spaces around it and the dots behind it, of type A. (The host is UTF-8, as every
-- Rust string is.)
pub build_a_query-parse_query_info :
    (host q : Bytes)
    → build_a_query host ≡ some q
    → is_utf8 (query_host host) ≡ true
    → length (query_host host) ≤ 253
    → parse_query_info q ≡ ret (some (query_host host, 1))
build_a_query-parse_query_info host q h u fits =
    let labels = split dot (query_host host) in
    let (e, short) = built host q h in
    (parse_query_info-IsQuery q (query_host host) 1).1 (record {
      labels = labels;
      high = 0;
      low = 1;
      rest = 0 ∷ 1 ∷ [];
      are_labels = wire_labels labels short (split-AreUtf8 (query_host host) u);
      some_label = empty_ne labels (split-nonempty (query_host host));
      few = omega (
        arith,
        length-join labels (split-nonempty (query_host host)) short,
        ap length (join-split (query_host host)),
      );
      layout = rw e refl;
      named = sym (join-split (query_host host));
      typed = refl;
    })
