-- ===== src/Dns/ResponseCache/Skips.antt =====
-- How src/modules/dns/mod.rs passes over the names of a response on the way to its TTLs.
use shield_ghita.Prelude.{
  ℕ, zero, suc, ◌+◌, ◌<◌, ◌≡◌, refl, ap, ◌∙◌, true, Option, some, List, [], ◌∷◌, ◌++◌, arith, Bytes,
  ◌==◌, nat_eq, bytes_eq, pair_eq, length, drop, length-append, drop-append_length,
}
use shield_ghita.Outcome.{Outcome, ret, byte-drop, drop-add}
use shield_ghita.Dns.Wire.{is_pointer}
use shield_ghita.Dns.Wire.Names.{encode}
use shield_ghita.Dns.Rebinding.Answers.{
  NameEnd, root, pointer, end_bytes, IsNameEnd, AreLabels, not_at_end, append_assoc3,
}
use shield_ghita.Dns.ResponseCache.{skip_ttl_question, skip_ttl_labels, skip_ttl_name}
use Prim.Native.Nat.{bit_and}

pub same_place :
    {p p' g g' : ℕ}
    → p ≡ p'
    → g ≡ g'
    → ◌≡◌ {A = Outcome (Option (ℕ × ℕ))} (ret (some (p, g))) (ret (some (p', g')))
same_place e e' = rw (e, e') refl

question_end :
    (rounds : ℕ) (resp : Bytes) (pos guard : ℕ) (e : NameEnd) (rest : Bytes)
    → IsNameEnd e
    → drop pos resp ≡ end_bytes e ++ rest
    → skip_ttl_question (suc rounds) resp pos guard
      ≡ ret (some (pos + length (end_bytes e), guard + 1))
unfolding skip_ttl_question is_pointer
question_end rounds resp pos guard root rest ok left =
    rw (not_at_end resp pos left, byte-drop resp pos left) refl
question_end rounds resp pos guard (pointer a b) rest (nonzero, is_one) left =
    rw (not_at_end resp pos left, byte-drop resp pos left, is_one) refl

pub question_labels :
    (labels : List Bytes) (e : NameEnd) (rounds : ℕ) (resp : Bytes) (pos guard : ℕ) (rest : Bytes)
    → AreLabels labels
    → IsNameEnd e
    → drop pos resp ≡ (encode labels ++ end_bytes e) ++ rest
    → length labels < rounds
    → skip_ttl_question rounds resp pos guard
      ≡ ret (some (pos + length (encode labels ++ end_bytes e), guard + suc (length labels)))
unfolding skip_ttl_question
question_labels labels e zero resp pos guard rest are ok left enough =
    absurd (omega (arith, enough))
question_labels [] e (suc rounds) resp pos guard rest are ok left enough =
    question_end rounds resp pos guard e rest ok left
question_labels (label ∷ labels) e (suc rounds) resp pos guard rest (nonzero, plain, are) ok left
      enough =
    let more = (encode labels ++ end_bytes e) ++ rest in
    let here : drop pos resp ≡ length label ∷ (label ++ more) =
      left ∙ ap (λ t. length label ∷ t) (append_assoc3 label (encode labels) (end_bytes e) rest) in
    let next : drop (pos + 1 + length label) resp ≡ more =
      drop-add resp (pos + 1) (length label) (drop-add resp pos 1 here)
      ∙ drop-append_length label more in
    rw (not_at_end resp pos here, byte-drop resp pos here, nonzero, plain)
      (question_labels labels e rounds resp (pos + 1 + length label) (guard + 1) rest are ok next
          (omega (arith, enough))
        ∙ same_place
            (omega (
              arith,
              length-append label (encode labels),
              length-append (label ++ encode labels) (end_bytes e),
              length-append (encode labels) (end_bytes e),
            ))
            (omega arith))

-- Lengths of labels without their two top bits.
abbrev pub AreShort : List Bytes → Type 0
AreShort [] = Unit
AreShort (label ∷ labels) = ((bit_and (length label) 0xC0 == 0) ≡ true) × AreShort labels

answer_end :
    (rounds : ℕ) (resp : Bytes) (pos : ℕ) (e : NameEnd) (rest : Bytes)
    → IsNameEnd e
    → drop pos resp ≡ end_bytes e ++ rest
    → skip_ttl_labels (suc rounds) resp pos ≡ ret (some (pos + length (end_bytes e)))
unfolding skip_ttl_labels is_pointer
answer_end rounds resp pos root rest ok left =
    rw (not_at_end resp pos left, byte-drop resp pos left) refl
answer_end rounds resp pos (pointer a b) rest (nonzero, is_one) left =
    rw (not_at_end resp pos left, byte-drop resp pos left, is_one) refl

answer_labels :
    (labels : List Bytes) (e : NameEnd) (rounds : ℕ) (resp : Bytes) (pos : ℕ) (rest : Bytes)
    → AreLabels labels
    → AreShort labels
    → IsNameEnd e
    → drop pos resp ≡ (encode labels ++ end_bytes e) ++ rest
    → length labels < rounds
    → skip_ttl_labels rounds resp pos ≡ ret (some (pos + length (encode labels ++ end_bytes e)))
unfolding skip_ttl_labels
answer_labels labels e zero resp pos rest are short ok left enough = absurd (omega (arith, enough))
answer_labels [] e (suc rounds) resp pos rest are short ok left enough =
    answer_end rounds resp pos e rest ok left
answer_labels (label ∷ labels) e (suc rounds) resp pos rest (nonzero, plain, are) (low, short) ok
      left enough =
    let more = (encode labels ++ end_bytes e) ++ rest in
    let here : drop pos resp ≡ length label ∷ (label ++ more) =
      left ∙ ap (λ t. length label ∷ t) (append_assoc3 label (encode labels) (end_bytes e) rest) in
    let next : drop (pos + 1 + length label) resp ≡ more =
      drop-add resp (pos + 1) (length label) (drop-add resp pos 1 here)
      ∙ drop-append_length label more in
    rw (not_at_end resp pos here, byte-drop resp pos here, plain, low, nonzero)
      (answer_labels labels e rounds resp (pos + 1 + length label) rest are short ok next
          (omega (arith, enough))
        ∙ ap (λ n. ret (some n))
            (omega (
              arith,
              length-append label (encode labels),
              length-append (label ++ encode labels) (end_bytes e),
              length-append (encode labels) (end_bytes e),
            )))

pub labels_from :
    (labels : List Bytes) (e : NameEnd) (resp : Bytes) (pos : ℕ) (rest : Bytes)
    → AreLabels labels
    → AreShort labels
    → IsNameEnd e
    → drop pos resp ≡ (encode labels ++ end_bytes e) ++ rest
    → length labels < 128
    → skip_ttl_name resp pos ≡ ret (some (pos + length (encode labels ++ end_bytes e)))
unfolding skip_ttl_name is_pointer
labels_from [] (pointer a b) resp pos rest are short (nonzero, is_one) left enough =
    rw (byte-drop resp pos left, is_one) refl
labels_from [] root resp pos rest are short ok left enough =
    rw (byte-drop resp pos left) (answer_labels [] root 128 resp pos rest are short ok left enough)
labels_from (label ∷ labels) e resp pos rest (nonzero, plain, are) short ok left enough =
    let here =
      left ∙ ap (λ t. length label ∷ t) (append_assoc3 label (encode labels) (end_bytes e) rest) in
    rw (byte-drop resp pos here, plain)
      (answer_labels (label ∷ labels) e 128 resp pos rest (nonzero, plain, are) short ok left
        enough)
