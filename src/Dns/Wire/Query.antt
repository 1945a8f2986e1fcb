-- ===== src/Dns/Wire/Query.antt =====
-- What `parse_query_info` of src/modules/dns/mod.rs accepts, on every packet, and that a query of
-- `build_a_query` reads back.
use shield_ghita.Prelude.{
  ℕ, zero, suc, ◌+◌, ◌*◌, ◌≤◌, ◌<◌, ◌≡◌, refl, sym, ap, ◌∙◌, ◌↔◌, inl, inr, false, ◌||◌, Option,
  none, some, List, [], ◌∷◌, ◌++◌, arith, Bytes, ◌==◌, nat_eq, bytes_eq, pair_eq, ltb, leb,
  Bool-cases, is_empty, length, take, drop, drop-append_length,
}
use shield_ghita.Text.{dot, join}
use shield_ghita.Outcome.{ret, Returns, byte-drop, drop-cons, drop-lt, drop-add, byte-Returns}
use shield_ghita.Dns.Wire.{is_pointer, is_utf8, read_labels, read_qtype, parse_query_info}
use shield_ghita.Dns.Wire.Names.{
  round, read_labels-round, encode, AreWireLabels, ReadFrom, read_labels-ReadFrom,
  read_labels-encode,
}

read_labels-Returns :
    (rounds : ℕ) (pkt : Bytes) (pos : ℕ) (labels : List Bytes)
    → Returns (read_labels rounds pkt pos labels)
read_labels-Returns zero pkt pos labels = elim (Bool-cases (leb (length pkt) pos)) [
  | inl y ↦ (some (labels, pos), unfold read_labels in rw y refl)
  | inr n ↦ (none, unfold read_labels in rw n refl)
]
read_labels-Returns (suc rounds) pkt pos labels = elim (Bool-cases (leb (length pkt) pos)) [
  | inl y ↦ (some (labels, pos), unfold read_labels in rw y refl)
  | inr n ↦
      let (len, s, left) = drop-cons pkt pos (ground arith) in
      rw (read_labels-round pkt pos left rounds labels)
        (go len s (read_labels-Returns rounds pkt (pos + 1 + len) (labels ++ (take len s ∷ []))))
]
  where
    go :
        (len : ℕ) (s : Bytes)
        → Returns (read_labels rounds pkt (pos + 1 + len) (labels ++ (take len s ∷ [])))
        → Returns (round rounds pkt pos labels len s)
    go len s ih = elim (Bool-cases (len == 0)) [
      | inl y ↦ (some (labels, pos + 1), rw y refl)
      | inr n ↦ elim (Bool-cases (is_pointer len)) [
        | inl y ↦ (none, rw (n, y) refl)
        | inr p ↦ elim (Bool-cases (ltb (length s) len)) [
          | inl y ↦ (none, rw (n, p, y) refl)
          | inr q ↦ elim (Bool-cases (is_utf8 (take len s))) [
            | inl y ↦ rw (n, p, q, y) ih
            | inr z ↦ (none, rw (n, p, q, z) refl)
          ]
        ]
      ]
    ]

read_qtype-Returns :
    (pkt : Bytes) (named : Option (List Bytes × ℕ)) → Returns (read_qtype pkt named)
unfolding read_qtype
read_qtype-Returns pkt none = (none, refl)
read_qtype-Returns pkt (some (labels, pos)) =
    elim (Bool-cases (is_empty labels || ltb (length pkt) (pos + 2))) [
      | inl y ↦ (none, rw y refl)
      | inr n ↦
          let (high, e) = byte-Returns pkt pos (ground arith) in
          let (low, e') = byte-Returns pkt (pos + 1) (ground arith) in
          (some (join dot labels, high * 256 + low), rw (n, e, e') refl)
    ]

-- The parser answers every packet, with no index out of range.
pub parse_query_info-Returns : (pkt : Bytes) → Returns (parse_query_info pkt)
unfolding parse_query_info
parse_query_info-Returns pkt = elim (Bool-cases (ltb (length pkt) 12)) [
  | inl y ↦ (none, rw y refl)
  | inr n ↦
      let (named, e) = read_labels-Returns 128 pkt 12 [] in
      let (r, e') = read_qtype-Returns pkt named in (r, rw (n, e) e')
]

-- A query: a header of twelve bytes, then a name of at most 127 labels, the root label, and the type.
pub record IsQuery (pkt name : Bytes) (qtype : ℕ) : Type 0 where
  pub labels : List Bytes
  pub high : ℕ
  pub low : ℕ
  pub rest : Bytes
  pub are_labels : AreWireLabels labels
  pub some_label : is_empty labels ≡ false
  pub few : length labels < 128
  pub layout : drop 12 pkt ≡ encode labels ++ (0 ∷ high ∷ low ∷ rest)
  pub named : name ≡ join dot labels
  pub typed : qtype ≡ high * 256 + low

-- The two bytes of the type, and what follows them.
after_name :
    (pkt : Bytes) (pos : ℕ)
    → pos + 2 ≤ length pkt
    → (high : ℕ) × (low : ℕ) × (rest : Bytes) × (drop pos pkt ≡ high ∷ low ∷ rest)
after_name pkt pos h =
    let (high, s, e) = drop-cons pkt pos (omega arith) in
    let (low, rest, e') = drop-cons pkt (pos + 1) (omega arith) in
    (high, low, rest, e ∙ ap (λ t. high ∷ t) (sym (drop-add pkt pos 1 e) ∙ e'))

read_qtype-drop :
    (pkt : Bytes) (pos : ℕ) (labels : List Bytes) {high low : ℕ} {rest : Bytes}
    → is_empty labels ≡ false
    → drop pos pkt ≡ high ∷ low ∷ rest
    → read_qtype pkt (some (labels, pos)) ≡ ret (some (join dot labels, high * 256 + low))
unfolding read_qtype
read_qtype-drop pkt pos labels {high} {low} {rest} ne e =
    let long : ltb (length pkt) (pos + 2) ≡ false = ground (arith, drop-lt pkt pos e) in
    rw (ne, long, byte-drop pkt pos e, byte-drop pkt (pos + 1) (drop-add pkt pos 1 e)) refl

read_qtype-inv :
    (pkt : Bytes) (pos : ℕ) (labels : List Bytes) (name : Bytes) (qtype : ℕ)
    → read_qtype pkt (some (labels, pos)) ≡ ret (some (name, qtype))
    → (is_empty labels ≡ false) × (pos + 2 ≤ length pkt)
unfolding read_qtype
read_qtype-inv pkt pos labels name qtype h =
    elim (Bool-cases (is_empty labels || ltb (length pkt) (pos + 2))) [
      | inl y ↦ absurd (cc (rw y at h))
      | inr n ↦ (ground arith, ground arith)
    ]

terminated :
    (pkt : Bytes) (labels : List Bytes) (pos : ℕ) (r : ReadFrom 128 pkt 12 [] labels pos)
    → pos + 2 ≤ length pkt
    → (length labels < 128) × (drop 12 pkt ≡ encode labels ++ (0 ∷ drop pos pkt))
terminated pkt labels pos r room = elim r.shape [
  | inl e ↦ absurd (omega arith)
  | inr (few, layout) ↦ (rw r.appended few, rw r.appended layout)
]

IsQuery-of :
    (pkt name : Bytes) (qtype : ℕ) (labels : List Bytes) (pos : ℕ)
    → 12 ≤ length pkt
    → read_labels 128 pkt 12 [] ≡ ret (some (labels, pos))
    → read_qtype pkt (some (labels, pos)) ≡ ret (some (name, qtype))
    → IsQuery pkt name qtype
IsQuery-of pkt name qtype labels pos long h k =
    let r = read_labels-ReadFrom 128 pkt 12 [] labels pos long h in
    let (ne, room) = read_qtype-inv pkt pos labels name qtype k in
    let (high, low, rest, e) = after_name pkt pos room in
    let same = sym (read_qtype-drop pkt pos labels ne e) ∙ k in
    let ended = terminated pkt labels pos r room in
    record {
      labels = labels;
      high = high;
      low = low;
      rest = rest;
      are_labels = rw r.appended r.are_labels;
      some_label = ne;
      few = ended.0;
      layout = ended.1 ∙ ap (λ t. encode labels ++ (0 ∷ t)) e;
      named = cc same;
      typed = cc same;
    }

named-IsQuery :
    (pkt name : Bytes) (qtype : ℕ) (named : Option (List Bytes × ℕ))
    → 12 ≤ length pkt
    → read_labels 128 pkt 12 [] ≡ ret named
    → read_qtype pkt named ≡ ret (some (name, qtype))
    → IsQuery pkt name qtype
named-IsQuery pkt name qtype none long h k = unfold read_qtype in cc
named-IsQuery pkt name qtype (some (labels, pos)) long h k =
    IsQuery-of pkt name qtype labels pos long h k

parse_query_info_sound :
    (pkt name : Bytes) (qtype : ℕ)
    → parse_query_info pkt ≡ ret (some (name, qtype))
    → IsQuery pkt name qtype
unfolding parse_query_info
parse_query_info_sound pkt name qtype h = elim (Bool-cases (ltb (length pkt) 12)) [
  | inl y ↦ absurd (cc (rw y at h))
  | inr n ↦
      let (named, e) = read_labels-Returns 128 pkt 12 [] in
      named-IsQuery pkt name qtype named (ground arith) e (rw (n, e) at h)
]

pub drop_long :
    (pkt : Bytes) (n : ℕ) {b : ℕ} {s : Bytes} → drop n pkt ≡ b ∷ s → ltb (length pkt) n ≡ false
drop_long pkt n e = ground (arith, drop-lt pkt n e)

pub encode_cons :
    (labels : List Bytes) (t : Bytes) → (b : ℕ) × (s : Bytes) × (encode labels ++ (0 ∷ t) ≡ b ∷ s)
encode_cons [] t = (0, t, refl)
encode_cons (l ∷ ls) t = (length l, (l ++ encode ls) ++ (0 ∷ t), refl)

parse_query_info_complete :
    (pkt name : Bytes) (qtype : ℕ)
    → IsQuery pkt name qtype
    → parse_query_info pkt ≡ ret (some (name, qtype))
unfolding parse_query_info
parse_query_info_complete pkt name qtype q =
    let (b, s, e) = encode_cons q.labels (q.high ∷ q.low ∷ q.rest) in
    let read =
      read_labels-encode q.labels 128 pkt 12 [] (q.high ∷ q.low ∷ q.rest) q.are_labels q.few
        q.layout in
    let left : drop (12 + length (encode q.labels) + 1) pkt ≡ q.high ∷ q.low ∷ q.rest =
      drop-add pkt (12 + length (encode q.labels)) 1 (
        drop-add pkt 12 (length (encode q.labels)) q.layout
        ∙ drop-append_length (encode q.labels) (0 ∷ q.high ∷ q.low ∷ q.rest)) in
    rw (drop_long pkt 12 (q.layout ∙ e), read)
      (read_qtype-drop pkt (12 + length (encode q.labels) + 1) q.labels q.some_label left
        ∙ cc (q.named, q.typed))

-- A packet is read as a query for a name and a type exactly if it has the layout of such a query: the
-- parser accepts nothing else, and refuses none.
pub parse_query_info-IsQuery :
    (pkt name : Bytes) (qtype : ℕ)
    → (parse_query_info pkt ≡ ret (some (name, qtype))) ↔ IsQuery pkt name qtype
parse_query_info-IsQuery pkt name qtype =
    (parse_query_info_sound pkt name qtype, parse_query_info_complete pkt name qtype)
