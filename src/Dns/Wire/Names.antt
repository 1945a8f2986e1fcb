-- ===== src/Dns/Wire/Names.antt =====
-- The grammar of the names that `parse_query_info` of src/modules/dns/mod.rs reads.
use shield_ghita.Prelude.{
  ℕ, zero, suc, ◌+◌, ◌≤◌, ◌<◌, ◌≡◌, refl, sym, ap, ◌∙◌, ◌⊎◌, inl, inr, true, false, Option, none,
  some, List, [], ◌∷◌, ◌++◌, arith, Bytes, ◌==◌, nat_eq, bytes_eq, pair_eq, ltb, leb, if◌then◌else◌,
  Bool-cases, length, take, drop, length-append, length-take, take-append_length,
  drop-append_length,
}
use mathlib.Core.List.{append-nil, append_assoc}
use shield_ghita.Outcome.{Outcome, ret, slice, byte-drop, drop-cons, drop-lt, drop-add, slice-drop}
use shield_ghita.Dns.Wire.{is_pointer, is_utf8, read_labels}

-- One round of the loop where `len ∷ s` is left.
abbrev pub round : ℕ → Bytes → ℕ → List Bytes → ℕ → Bytes → Outcome (Option (List Bytes × ℕ))
round rounds pkt pos labels len s =
    if len == 0
    then ret (some (labels, pos + 1))
    else if is_pointer len
    then ret none
    else if ltb (length s) len
    then ret none
    else if is_utf8 (take len s)
    then read_labels rounds pkt (pos + 1 + len) (labels ++ (take len s ∷ []))
    else ret none

module _ (pkt : Bytes) (pos : ℕ) {len : ℕ} {s : Bytes} (left : drop pos pkt ≡ len ∷ s) where
  inside : leb (length pkt) pos ≡ false
  inside = ground (arith, drop-lt pkt pos left)

  room : ltb (length pkt) (pos + 1 + len) ≡ ltb (length s) len
  room = ground (arith, drop-lt pkt pos left)

  after : drop (pos + 1) pkt ≡ s
  after = drop-add pkt pos 1 left

  label_slice : ltb (length s) len ≡ false → slice pkt (pos + 1) (pos + 1 + len) ≡ ret (take len s)
  label_slice h =
      slice-drop pkt (pos + 1) len after (omega (arith, drop-lt pkt pos left)) (ground arith)

  pub read_labels-round :
      (rounds : ℕ) (labels : List Bytes)
      → read_labels (suc rounds) pkt pos labels ≡ round rounds pkt pos labels len s
  unfolding read_labels
  read_labels-round rounds labels =
      rw (inside, byte-drop pkt pos left)
        (elim (Bool-cases (ltb (length s) len)) [
          | inl y ↦ rw (room ∙ y, y) refl
          | inr n ↦ rw (room ∙ n, n, label_slice n) refl
        ])

-- A name on the wire: each label behind its length. The root label that ends it is not included.
abbrev pub encode : List Bytes → Bytes
encode [] = []
encode (label ∷ labels) = length label ∷ (label ++ encode labels)

-- A label that the parser takes: not empty, its length no pointer, its bytes valid UTF-8.
pub record IsWireLabel (label : Bytes) : Type 0 where
  pub not_root : (length label == 0) ≡ false
  pub no_pointer : is_pointer (length label) ≡ false
  pub utf8 : is_utf8 label ≡ true

abbrev pub AreWireLabels : List Bytes → Type 0
AreWireLabels [] = Unit
AreWireLabels (label ∷ labels) = IsWireLabel label × AreWireLabels labels

pub take-append_drop : (n : ℕ) (xs : Bytes) → take n xs ++ drop n xs ≡ xs
take-append_drop zero xs = refl
take-append_drop (suc n) [] = refl
take-append_drop (suc n) (x ∷ xs) = ap (λ t. x ∷ t) (take-append_drop n xs)

-- What a result of the loop says of the packet: the loop read some more labels, and then met a root
-- label or the end of the packet.
pub record ReadFrom (rounds : ℕ) (pkt : Bytes) (pos : ℕ) (labels : List Bytes) (result : List Bytes)
    (pos' : ℕ) : Type 0 where
  pub new : List Bytes
  pub appended : result ≡ labels ++ new
  pub are_labels : AreWireLabels new
  pub bound : pos' ≤ length pkt
  pub shape :
      (pos' ≡ length pkt)
      ⊎ ((length new < rounds) × (drop pos pkt ≡ encode new ++ (0 ∷ drop pos' pkt)))

ended :
    (rounds : ℕ) (pkt : Bytes) (pos : ℕ) (labels result : List Bytes) (pos' : ℕ)
    → pos ≤ length pkt
    → leb (length pkt) pos ≡ true
    → ◌≡◌ {A = Outcome (Option (List Bytes × ℕ))}
        (ret (some (labels, pos)))
        (ret (some (result, pos')))
    → ReadFrom rounds pkt pos labels result pos'
ended rounds pkt pos labels result pos' inb y h = record {
  new = [];
  appended = ground (arith, append-nil labels);
  are_labels = tt;
  bound = ground arith;
  shape = inl (ground arith);
}

round_cases :
    (rounds : ℕ) (pkt : Bytes) (pos : ℕ) (labels : List Bytes) (len : ℕ) (s : Bytes)
    (result : List Bytes) (pos' : ℕ)
    → round rounds pkt pos labels len s ≡ ret (some (result, pos'))
    → ((len ≡ 0) × (result ≡ labels) × (pos' ≡ pos + 1))
      ⊎ (((len == 0) ≡ false)
          × (is_pointer len ≡ false)
          × (len ≤ length s)
          × (is_utf8 (take len s) ≡ true)
          × (read_labels rounds pkt (pos + 1 + len) (labels ++ (take len s ∷ []))
              ≡ ret (some (result, pos'))))
round_cases rounds pkt pos labels len s result pos' h = ground arith

module _ (pkt : Bytes) (pos : ℕ) {len : ℕ} {s : Bytes} (left : drop pos pkt ≡ len ∷ s) where
  root_left : {pos' : ℕ} → len ≡ 0 → pos' ≡ pos + 1 → drop pos pkt ≡ 0 ∷ drop pos' pkt
  root_left {pos'} z p = cc (after pkt pos left, ap (λ n. drop n pkt) p)

  label_left :
      (new : List Bytes) (rest : Bytes)
      → len ≤ length s
      → drop (pos + 1 + len) pkt ≡ encode new ++ (0 ∷ rest)
      → drop pos pkt ≡ encode (take len s ∷ new) ++ (0 ∷ rest)
  label_left new rest fits e =
      let width : length (take len s) ≡ len = omega (arith, length-take len s) in
      let more : drop len s ≡ encode new ++ (0 ∷ rest) =
        sym (drop-add pkt (pos + 1) len (after pkt pos left)) ∙ e in
      rw (width, append_assoc (take len s) (encode new) (0 ∷ rest), ← more, take-append_drop len s)
        left

pub read_labels-ReadFrom :
    (rounds : ℕ) (pkt : Bytes) (pos : ℕ) (labels result : List Bytes) (pos' : ℕ)
    → pos ≤ length pkt
    → read_labels rounds pkt pos labels ≡ ret (some (result, pos'))
    → ReadFrom rounds pkt pos labels result pos'
read_labels-ReadFrom zero pkt pos labels result pos' inb h =
    elim (Bool-cases (leb (length pkt) pos)) [
      | inl y ↦ ended zero pkt pos labels result pos' inb y (unfold read_labels in ground arith)
      | inr n ↦ absurd (unfold read_labels in ground arith)
    ]
read_labels-ReadFrom (suc rounds) pkt pos labels result pos' inb h =
    elim (Bool-cases (leb (length pkt) pos)) [
      | inl y ↦
          ended (suc rounds) pkt pos labels result pos' inb y (unfold read_labels in ground arith)
      | inr n ↦
          let (len, s, left) = drop-cons pkt pos (ground arith) in
          go len s left
            (λ inb' h'.
              read_labels-ReadFrom rounds pkt (pos + 1 + len) (labels ++ (take len s ∷ [])) result
                pos' inb' h')
            (round_cases rounds pkt pos labels len s result pos'
              (sym (read_labels-round pkt pos left rounds labels) ∙ h))
    ]
  where
    go :
        (len : ℕ) (s : Bytes)
        → drop pos pkt ≡ len ∷ s
        → (pos + 1 + len ≤ length pkt
            → read_labels rounds pkt (pos + 1 + len) (labels ++ (take len s ∷ []))
              ≡ ret (some (result, pos'))
            → ReadFrom rounds pkt (pos + 1 + len) (labels ++ (take len s ∷ [])) result pos')
        → ((len ≡ 0) × (result ≡ labels) × (pos' ≡ pos + 1))
          ⊎ (((len == 0) ≡ false)
              × (is_pointer len ≡ false)
              × (len ≤ length s)
              × (is_utf8 (take len s) ≡ true)
              × (read_labels rounds pkt (pos + 1 + len) (labels ++ (take len s ∷ []))
                  ≡ ret (some (result, pos'))))
        → ReadFrom (suc rounds) pkt pos labels result pos'
    go len s left ih (inl (z, e, p)) = record {
      new = [];
      appended = e ∙ sym (append-nil labels);
      are_labels = tt;
      bound = omega (arith, drop-lt pkt pos left);
      shape = inr (omega arith, root_left pkt pos left z p);
    }
    go len s left ih (inr (nz, np, fits, u, h')) =
        let r = ih (omega (arith, drop-lt pkt pos left)) h' in
        let width : length (take len s) ≡ len = omega (arith, length-take len s) in
        record {
          new = take len s ∷ r.new;
          appended = r.appended ∙ append_assoc labels (take len s ∷ []) r.new;
          are_labels =
              (record { not_root = rw width nz; no_pointer = rw width np; utf8 = u }, r.are_labels);
          bound = r.bound;
          shape = elim r.shape [
            | inl e ↦ inl e
            | inr (lt, e) ↦ inr (omega arith, label_left pkt pos left r.new (drop pos' pkt) fits e)
          ];
        }

pub length-append_le : (xs ys : Bytes) → length xs ≤ length (xs ++ ys)
length-append_le xs ys = omega (arith, length-append xs ys)

pub take-label :
    (label : Bytes) (t rest : Bytes) → take (length label) ((label ++ t) ++ rest) ≡ label
take-label label t rest = rw (append_assoc label t rest) (take-append_length label (t ++ rest))

pub read_labels-encode :
    (new : List Bytes) (rounds : ℕ) (pkt : Bytes) (pos : ℕ) (labels : List Bytes) (rest : Bytes)
    → AreWireLabels new
    → length new < rounds
    → drop pos pkt ≡ encode new ++ (0 ∷ rest)
    → read_labels rounds pkt pos labels ≡ ret (some (labels ++ new, pos + length (encode new) + 1))
read_labels-encode new zero pkt pos labels rest v h e = absurd (omega arith)
read_labels-encode [] (suc rounds) pkt pos labels rest v h e =
    rw (read_labels-round pkt pos e rounds labels, append-nil labels) (ground arith)
read_labels-encode (l ∷ ls) (suc rounds) pkt pos labels rest v h e =
    read_labels-round pkt pos e rounds labels
    ∙ one_label (
        read_labels-encode ls rounds pkt (pos + 1 + length l) (labels ++ (l ∷ [])) rest v.1
          (omega arith) moved)
  where
    s : Bytes
    s = (l ++ encode ls) ++ (0 ∷ rest)

    moved : drop (pos + 1 + length l) pkt ≡ encode ls ++ (0 ∷ rest)
    moved =
        drop-add pkt (pos + 1) (length l) (after pkt pos e)
        ∙ ap (drop (length l)) (append_assoc l (encode ls) (0 ∷ rest))
        ∙ drop-append_length l (encode ls ++ (0 ∷ rest))

    fits : ltb (length s) (length l) ≡ false
    fits = ground (arith, length-append (l ++ encode ls) (0 ∷ rest), length-append l (encode ls))

    width : pos + 1 + length l + length (encode ls) + 1 ≡ pos + length (encode (l ∷ ls)) + 1
    width = omega (arith, length-append l (encode ls))

    one_label :
        read_labels rounds pkt (pos + 1 + length l) (labels ++ (l ∷ []))
          ≡ ret (some ((labels ++ (l ∷ [])) ++ ls, pos + 1 + length l + length (encode ls) + 1))
        → round rounds pkt pos labels (length l) s
          ≡ ret (some (labels ++ (l ∷ ls), pos + length (encode (l ∷ ls)) + 1))
    one_label ih =
        rw (v.0.not_root, v.0.no_pointer, fits, take-label l (encode ls) (0 ∷ rest), v.0.utf8)
          (ih ∙ cc (append_assoc labels (l ∷ []) ls, width))
