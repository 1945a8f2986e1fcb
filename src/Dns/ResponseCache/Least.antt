-- ===== src/Dns/ResponseCache/Least.antt =====
-- The TTL that src/modules/dns/mod.rs reads from a well-formed response.
use shield_ghita.Prelude.{
  ℕ, zero, suc, ◌+◌, ◌*◌, ◌≤◌, ◌<◌, ◌≡◌, refl, ap, ◌∙◌, false, Option, none, some, List, [], ◌∷◌,
  ◌++◌, arith, Bytes, ◌==◌, nat_eq, bytes_eq, pair_eq, ltb, leb, if◌then◌else◌, length, drop, min,
  length-append, length-drop, drop-append_length,
}
use shield_ghita.Outcome.{Outcome, ret, drop-add}
use shield_ghita.Dns.Rebinding.Answers.{
  encode_name, IsWireName, WireAnswer, fixed_part, encode_answer, IsWireAnswer, append_assoc2,
  read_u16-drop,
}
use shield_ghita.Dns.Rebinding.Private.{
  encode_answers, AreWireAnswers, IsWireResponse, WireQuestion, encode_question, WireResponse,
  encode_response, encode_questions, sections,
}
use shield_ghita.Dns.ResponseCache.{
  skip_ttl_question, read_u32, min_ttl_from, max_u32, known_ttl, ttl_after, extract_min_ttl,
}
use shield_ghita.Dns.ResponseCache.Skips.{AreShort, question_labels, labels_from, same_place}

read_u32-drop :
    (resp : Bytes) (pos : ℕ) {a b c d : ℕ} {s : Bytes}
    → drop pos resp ≡ a ∷ b ∷ c ∷ d ∷ s
    → read_u32 resp pos ≡ ret ((a * 256 + b) * 0x10000 + (c * 256 + d))
unfolding read_u32
read_u32-drop resp pos left =
    rw (read_u16-drop resp pos left, read_u16-drop resp (pos + 2) (drop-add resp pos 2 left)) refl

-- The TTL that an answer holds.
abbrev pub ttl_of : WireAnswer → ℕ
ttl_of a = (a.ttl0 * 256 + a.ttl1) * 0x10000 + (a.ttl2 * 256 + a.ttl3)

-- The least TTL of the answers, at most the largest one.
abbrev pub least_ttl : List WireAnswer → ℕ
least_ttl [] = max_u32
least_ttl (a ∷ answers) = min (ttl_of a) (least_ttl answers)

-- Fewer than 128 labels, each short.
abbrev pub HasShortName : WireAnswer → Type 0
HasShortName a = AreShort a.name.labels × (length a.name.labels < 128)

abbrev pub HaveShortNames : List WireAnswer → Type 0
HaveShortNames [] = Unit
HaveShortNames (a ∷ answers) = HasShortName a × HaveShortNames answers

-- One round of the loop over the answers.
min_ttl_from-encode_answer :
    (count : ℕ) (a : WireAnswer) (resp : Bytes) (pos guard least : ℕ) (rest : Bytes)
    → IsWireAnswer a
    → HasShortName a
    → guard < 256
    → drop pos resp ≡ encode_answer a ++ rest
    → min_ttl_from (suc count) resp pos guard least
      ≡ min_ttl_from count resp (pos + length (encode_answer a)) (guard + 1) (min least (ttl_of a))
unfolding min_ttl_from
min_ttl_from-encode_answer count a resp pos guard least rest ((are, ok), sized) (short, few) room
      left =
    let p = pos + length (encode_name a.name) in
    let size : length resp ≡ p + 10 + length (a.rdata ++ rest) = omega (
      arith,
      ap length left1,
      length-drop pos resp,
      length-append (encode_name a.name) (fixed_part a (a.rdata ++ rest)),
    ) in
    let inside : leb (length resp) pos ≡ false = ground (arith, size) in
    let allowed : leb 256 guard ≡ false = ground (arith, room) in
    let fixed : ltb (length resp) (p + 10) ≡ false = ground (arith, size) in
    let left2 : drop p resp ≡ fixed_part a (a.rdata ++ rest) =
      drop-add resp pos (length (encode_name a.name)) left1
      ∙ drop-append_length (encode_name a.name) (fixed_part a (a.rdata ++ rest)) in
    rw
      (
        allowed,
        inside,
        labels_from a.name.labels a.name.name_end resp pos (fixed_part a (a.rdata ++ rest)) are
            short ok left1 few,
        fixed,
        read_u32-drop resp (p + 4) (drop-add resp p 4 left2),
        read_u16-drop resp (p + 8) (drop-add resp p 8 left2),
        sized,
      )
      (ap (λ q. min_ttl_from count resp q (guard + 1) (min least (ttl_of a)))
        (omega (arith, length-append (encode_name a.name) (fixed_part a a.rdata))))
  where
    left1 : drop pos resp ≡ encode_name a.name ++ fixed_part a (a.rdata ++ rest)
    left1 = left ∙ append_assoc2 (encode_name a.name) (fixed_part a a.rdata) rest

min_assoc : (a b c : ℕ) → min (min a b) c ≡ min a (min b c)
min_assoc a b c = omega arith

min_below : (a b : ℕ) → a ≤ b → min a b ≡ a
min_below a b h = omega arith

min_above : (a b : ℕ) → a ≤ b → min b a ≡ a
min_above a b h = omega arith

min_le : (a b c : ℕ) → a ≤ c → min a b ≤ c
min_le a b c h = omega arith

min_le_right : (a b c : ℕ) → b ≤ c → min a b ≤ c
min_le_right a b c h = omega arith

least_ttl_bound : (answers : List WireAnswer) → least_ttl answers ≤ max_u32
least_ttl_bound [] = omega arith
least_ttl_bound (a ∷ answers) = min_le_right _ _ _ (least_ttl_bound answers)

no_more :
    (resp : Bytes) (pos guard least : ℕ) → min_ttl_from zero resp pos guard least ≡ ret (some least)
unfolding min_ttl_from
no_more resp pos guard least = refl

min_ttl_from-least_ttl :
    (answers : List WireAnswer) (resp : Bytes) (pos guard least : ℕ) (rest : Bytes)
    → AreWireAnswers answers
    → HaveShortNames answers
    → guard + length answers ≤ 256
    → least ≤ max_u32
    → drop pos resp ≡ encode_answers answers ++ rest
    → min_ttl_from (length answers) resp pos guard least
      ≡ ret (some (min least (least_ttl answers)))
min_ttl_from-least_ttl [] resp pos guard least rest ok short room low left =
    no_more resp pos guard least ∙ rw (min_below least max_u32 low) refl
min_ttl_from-least_ttl (a ∷ answers) resp pos guard least rest (ok, oks) (short, shorts) room low
      left =
    let here : drop pos resp ≡ encode_answer a ++ (encode_answers answers ++ rest) =
      left ∙ append_assoc2 (encode_answer a) (encode_answers answers) rest in
    let next : drop (pos + length (encode_answer a)) resp ≡ encode_answers answers ++ rest =
      drop-add resp pos (length (encode_answer a)) here
      ∙ drop-append_length (encode_answer a) (encode_answers answers ++ rest) in
    min_ttl_from-encode_answer (length answers) a resp pos guard least
      (encode_answers answers ++ rest) ok short (omega (arith, room)) here
    ∙ min_ttl_from-least_ttl answers resp (pos + length (encode_answer a)) (guard + 1)
        (min least (ttl_of a)) rest oks shorts (omega (arith, room))
        (min_le least (ttl_of a) max_u32 low) next
    ∙ ap (λ n. ret (some n)) (min_assoc least (ttl_of a) (least_ttl answers))

-- One question, and no more labels and answers than the loops allow.
pub record IsCacheable (r : WireResponse) : Type 0 where
  pub question : WireQuestion
  pub asked : r.questions ≡ question ∷ []
  pub few_labels : length question.name.labels < 128
  pub few_answers : suc (length question.name.labels) + length r.answers ≤ 256
  pub short_names : HaveShortNames r.answers

when_answered :
    (answers : List WireAnswer) (read : Outcome (Option ℕ))
    → read ≡ ret (known_ttl (some (least_ttl answers)))
    → (if length answers == 0 then ret none else read) ≡ ret (known_ttl (some (least_ttl answers)))
when_answered [] read h = refl
when_answered (a ∷ answers) read h = ground (arith, h)

module _ (q : WireQuestion) (resp more : Bytes)
    (left : drop 12 resp ≡ encode_questions (q ∷ []) ++ more) where
  name_left :
      drop 12 resp
      ≡ encode_name q.name ++ (q.type_high ∷ q.type_low ∷ q.class_high ∷ q.class_low ∷ more)
  name_left =
      left
      ∙ append_assoc2 (encode_question q) [] more
      ∙ append_assoc2 (encode_name q.name)
          (q.type_high ∷ q.type_low ∷ q.class_high ∷ q.class_low ∷ []) more

  answers_left : drop (12 + length (encode_name q.name) + 4) resp ≡ more
  answers_left = drop-add resp (12 + length (encode_name q.name)) 4 (
      drop-add resp 12 (length (encode_name q.name)) name_left
      ∙ drop-append_length (encode_name q.name)
          (q.type_high ∷ q.type_low ∷ q.class_high ∷ q.class_low ∷ more))

  question_skipped :
      IsWireName q.name
      → length q.name.labels < 128
      → skip_ttl_question 128 resp 12 0
        ≡ ret (some (12 + length (encode_name q.name), suc (length q.name.labels)))
  question_skipped (are, ok) few =
      question_labels q.name.labels q.name.name_end 128 resp 12 0
        (q.type_high ∷ q.type_low ∷ q.class_high ∷ q.class_low ∷ more) are ok name_left few
      ∙ same_place refl (omega arith)

  ttl_read :
      (answers : List WireAnswer) (others : Bytes)
      → more ≡ encode_answers answers ++ others
      → AreWireAnswers answers
      → HaveShortNames answers
      → suc (length q.name.labels) + length answers ≤ 256
      → ttl_after
          (length answers)
          resp
          (some (12 + length (encode_name q.name), suc (length q.name.labels)))
        ≡ ret (known_ttl (some (least_ttl answers)))
  ttl_read answers others same are short few =
      rw
        (
          min_ttl_from-least_ttl answers resp (12 + length (encode_name q.name) + 4)
              (suc (length q.name.labels)) max_u32 others are short few (omega arith)
              (answers_left ∙ same),
          min_above (least_ttl answers) max_u32 (least_ttl_bound answers),
        )
        refl

-- Of a well-formed response with one question, the least TTL of its answers is read, and none if there
-- is no answer or each has the largest TTL.
pub extract_min_ttl-least_ttl :
    (r : WireResponse)
    → IsWireResponse r
    → IsCacheable r
    → extract_min_ttl (encode_response r) ≡ ret (known_ttl (some (least_ttl r.answers)))
unfolding extract_min_ttl
extract_min_ttl-least_ttl r w c =
    rw
      (
        read_u16-drop (encode_response r) 6 {s = rest6} refl,
        w.answer_count,
        long,
        question_skipped c.question (encode_response r) more questions_left named c.few_labels,
      )
      (when_answered r.answers _ (
        ttl_read c.question (encode_response r) more questions_left r.answers r.other_records refl
          w.are_answers c.short_names c.few_answers))
  where
    rest6 : Bytes
    rest6 = r.other_counts.0 ∷ r.other_counts.1 ∷ r.other_counts.2 ∷ r.other_counts.3 ∷ sections r

    more : Bytes
    more = encode_answers r.answers ++ r.other_records

    long : ltb (length (encode_response r)) 12 ≡ false
    long = ground arith

    questions_left : drop 12 (encode_response r) ≡ encode_questions (c.question ∷ []) ++ more
    questions_left = ap (λ qs. encode_questions qs ++ more) c.asked

    named : IsWireName c.question.name
    named = (rw c.asked at w.are_questions).0
