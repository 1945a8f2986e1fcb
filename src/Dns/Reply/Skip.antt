-- ===== src/Dns/Reply/Skip.antt =====
-- How the sinkhole builders of src/modules/dns/mod.rs find the end of the question.
use shield_ghita.Prelude.{
  ℕ, zero, suc, ◌+◌, ◌≤◌, ◌<◌, ◌≡◌, refl, sym, ap, ◌∙◌, inl, inr, false, Option, none, some, List,
  [], ◌∷◌, ◌++◌, arith, Bytes, ◌==◌, nat_eq, bytes_eq, pair_eq, ltb, leb, if◌then◌else◌, Bool-cases,
  length, drop, length-append, drop-append_length,
}
use mathlib.Core.List.{append_assoc}
use shield_ghita.Outcome.{Outcome, ret, Returns, byte-drop, drop-cons, drop-lt, drop-add}
use shield_ghita.Dns.Wire.{is_pointer}
use shield_ghita.Dns.Wire.Names.{encode, AreWireLabels}
use shield_ghita.Dns.Reply.{skip_question}

abbrev pub skip_round : ℕ → Bytes → ℕ → ℕ → Bytes → Outcome (Option ℕ)
skip_round rounds q pos len s =
    if len == 0
    then ret (some (pos + 1))
    else if is_pointer len
    then ret (some (pos + 2))
    else if ltb (length s) len
    then ret none
    else skip_question rounds q (pos + 1 + len)

pub skip_question-round :
    (q : Bytes) (pos rounds : ℕ) {len : ℕ} {s : Bytes}
    → drop pos q ≡ len ∷ s
    → skip_question (suc rounds) q pos ≡ skip_round rounds q pos len s
unfolding skip_question
skip_question-round q pos rounds {len} {s} left =
    let inside : leb (length q) pos ≡ false = ground (arith, drop-lt q pos left) in
    let room : ltb (length q) (pos + 1 + len) ≡ ltb (length s) len =
      ground (arith, drop-lt q pos left) in
    rw (inside, byte-drop q pos left, room) refl

pub skip_question-encode :
    (labels : List Bytes) (rounds : ℕ) (q : Bytes) (pos : ℕ) (rest : Bytes)
    → AreWireLabels labels
    → length labels < rounds
    → drop pos q ≡ encode labels ++ (0 ∷ rest)
    → skip_question rounds q pos ≡ ret (some (pos + length (encode labels) + 1))
skip_question-encode labels zero q pos rest v h e = absurd (omega arith)
skip_question-encode [] (suc rounds) q pos rest v h e =
    rw (skip_question-round q pos rounds e) (ground arith)
skip_question-encode (l ∷ ls) (suc rounds) q pos rest v h e =
    skip_question-round q pos rounds e
    ∙ one_label (skip_question-encode ls rounds q (pos + 1 + length l) rest v.1 (omega arith) moved)
  where
    s : Bytes
    s = (l ++ encode ls) ++ (0 ∷ rest)

    moved : drop (pos + 1 + length l) q ≡ encode ls ++ (0 ∷ rest)
    moved =
        drop-add q (pos + 1) (length l) (drop-add q pos 1 e)
        ∙ ap (drop (length l)) (append_assoc l (encode ls) (0 ∷ rest))
        ∙ drop-append_length l (encode ls ++ (0 ∷ rest))

    fits : ltb (length s) (length l) ≡ false
    fits = ground (arith, length-append (l ++ encode ls) (0 ∷ rest), length-append l (encode ls))

    width : pos + 1 + length l + length (encode ls) + 1 ≡ pos + length (encode (l ∷ ls)) + 1
    width = omega (arith, length-append l (encode ls))

    one_label :
        skip_question rounds q (pos + 1 + length l)
          ≡ ret (some (pos + 1 + length l + length (encode ls) + 1))
        → skip_round rounds q pos (length l) s ≡ ret (some (pos + length (encode (l ∷ ls)) + 1))
    one_label ih = rw (v.0.not_root, v.0.no_pointer, fits) (ih ∙ cc width)

pub skip_question-Returns :
    (rounds : ℕ) (q : Bytes) (pos : ℕ) → Returns (skip_question rounds q pos)
skip_question-Returns zero q pos = elim (Bool-cases (leb (length q) pos)) [
  | inl y ↦ (some pos, unfold skip_question in rw y refl)
  | inr n ↦ (none, unfold skip_question in rw n refl)
]
skip_question-Returns (suc rounds) q pos = elim (Bool-cases (leb (length q) pos)) [
  | inl y ↦ (some pos, unfold skip_question in rw y refl)
  | inr n ↦
      let (len, s, left) = drop-cons q pos (ground arith) in
      rw (skip_question-round q pos rounds left)
        (go len s (skip_question-Returns rounds q (pos + 1 + len)))
]
  where
    go :
        (len : ℕ) (s : Bytes)
        → Returns (skip_question rounds q (pos + 1 + len))
        → Returns (skip_round rounds q pos len s)
    go len s ih = elim (Bool-cases (len == 0)) [
      | inl y ↦ (some (pos + 1), rw y refl)
      | inr n ↦ elim (Bool-cases (is_pointer len)) [
        | inl y ↦ (some (pos + 2), rw (n, y) refl)
        | inr p ↦ elim (Bool-cases (ltb (length s) len)) [
          | inl y ↦ (none, rw (n, p, y) refl)
          | inr r ↦ rw (n, p, r) ih
        ]
      ]
    ]

pub skip_question-ge :
    (rounds : ℕ) (q : Bytes) (pos pos' : ℕ)
    → skip_question rounds q pos ≡ ret (some pos')
    → pos ≤ pos'
skip_question-ge zero q pos pos' h = unfold skip_question in ground arith
skip_question-ge (suc rounds) q pos pos' h = elim (Bool-cases (leb (length q) pos)) [
  | inl y ↦ unfold skip_question in ground arith
  | inr n ↦
      let (len, s, left) = drop-cons q pos (ground arith) in
      ground (
        arith,
        sym (skip_question-round q pos rounds left) ∙ h,
        skip_question-ge rounds q (pos + 1 + len) pos',
      )
]
