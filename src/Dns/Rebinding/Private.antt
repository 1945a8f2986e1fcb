-- ===== src/Dns/Rebinding/Private.antt =====
-- Which responses the rebinding guard of src/modules/dns/mod.rs takes for private ones.
use shield_ghita.Prelude.{
  ℕ, zero, ◌+◌, ◌*◌, ◌≡◌, refl, sym, ap, ◌∙◌, Bool, true, false, ◌||◌, some, List, [], ◌∷◌, ◌++◌,
  arith, Bytes, ◌==◌, nat_eq, bytes_eq, pair_eq, ltb, if◌then◌else◌, any, length, drop,
  length-append, length-drop, drop-append_length,
}
use shield_ghita.Outcome.{Outcome, ret, drop-add}
use shield_ghita.Dns.Rebinding.{skip_questions, scan_answers, is_private_ip_record}
use shield_ghita.Dns.Rebinding.Answers.{
  WireName, IsWireName, encode_name, WireAnswer, IsWireAnswer, encode_answer, is_private_answer,
  skip_name-encode_name, append_assoc2, read_u16-drop, scan_answers-encode_answer,
}

abbrev pub encode_answers : List WireAnswer → Bytes
encode_answers [] = []
encode_answers (a ∷ answers) = encode_answer a ++ encode_answers answers

abbrev pub AreWireAnswers : List WireAnswer → Type 0
AreWireAnswers [] = Unit
AreWireAnswers (a ∷ answers) = IsWireAnswer a × AreWireAnswers answers

no_answers : (resp : Bytes) (pos : ℕ) → scan_answers zero resp pos ≡ ret false
unfolding scan_answers
no_answers resp pos = refl

scan_answers-encode_answers :
    (answers : List WireAnswer) (resp : Bytes) (pos : ℕ) (rest : Bytes)
    → AreWireAnswers answers
    → drop pos resp ≡ encode_answers answers ++ rest
    → scan_answers (length answers) resp pos ≡ ret (any is_private_answer answers)
scan_answers-encode_answers [] resp pos rest ok left = no_answers resp pos
scan_answers-encode_answers (a ∷ answers) resp pos rest (ok, oks) left =
    let here : drop pos resp ≡ encode_answer a ++ (encode_answers answers ++ rest) =
      left ∙ append_assoc2 (encode_answer a) (encode_answers answers) rest in
    let next : drop (pos + length (encode_answer a)) resp ≡ encode_answers answers ++ rest =
      drop-add resp pos (length (encode_answer a)) here
      ∙ drop-append_length (encode_answer a) (encode_answers answers ++ rest) in
    scan_answers-encode_answer (length answers) a resp pos (encode_answers answers ++ rest) ok here
    ∙ ap (λ o. if is_private_answer a then ret true else o)
        (scan_answers-encode_answers answers resp (pos + length (encode_answer a)) rest oks next)
    ∙ decided (is_private_answer a) (any is_private_answer answers)
  where
    decided : (b c : Bool) → ◌≡◌ {A = Outcome Bool} (if b then ret true else ret c) (ret (b || c))
    decided true c = refl
    decided false c = refl

-- A question on the wire: its name, type and class.
pub record WireQuestion : Type 0 where
  pub name : WireName
  pub type_high : ℕ
  pub type_low : ℕ
  pub class_high : ℕ
  pub class_low : ℕ

abbrev pub encode_question : WireQuestion → Bytes
encode_question q =
    encode_name q.name ++ (q.type_high ∷ q.type_low ∷ q.class_high ∷ q.class_low ∷ [])

abbrev pub encode_questions : List WireQuestion → Bytes
encode_questions [] = []
encode_questions (q ∷ questions) = encode_question q ++ encode_questions questions

abbrev pub AreWireQuestions : List WireQuestion → Type 0
AreWireQuestions [] = Unit
AreWireQuestions (q ∷ questions) = IsWireName q.name × AreWireQuestions questions

skip_questions-encode_questions :
    (questions : List WireQuestion) (resp : Bytes) (pos : ℕ) (rest : Bytes)
    → AreWireQuestions questions
    → drop pos resp ≡ encode_questions questions ++ rest
    → skip_questions (length questions) resp pos
      ≡ ret (some (pos + length (encode_questions questions)))
unfolding skip_questions
skip_questions-encode_questions [] resp pos rest ok left = ap (λ n. ret (some n)) (omega arith)
skip_questions-encode_questions (q ∷ questions) resp pos rest (ok, oks) left =
    let more = encode_questions questions ++ rest in
    let here : drop pos resp ≡ encode_question q ++ more =
      left ∙ append_assoc2 (encode_question q) (encode_questions questions) rest in
    let named =
      here
      ∙ append_assoc2 (encode_name q.name)
          (q.type_high ∷ q.type_low ∷ q.class_high ∷ q.class_low ∷ []) more in
    let four =
      length-append (encode_name q.name)
        (q.type_high ∷ q.type_low ∷ q.class_high ∷ q.class_low ∷ []) in
    let next : drop (pos + length (encode_question q)) resp ≡ more =
      drop-add resp pos (length (encode_question q)) here
      ∙ drop-append_length (encode_question q) more in
    let moved : pos + length (encode_question q) ≡ pos + length (encode_name q.name) + 4 =
      omega (arith, four) in
    let room : ltb (length resp) (pos + length (encode_name q.name) + 4) ≡ false =
      ground (
        arith,
        ap length here,
        length-drop pos resp,
        length-append (encode_question q) more,
        four,
      ) in
    rw (skip_name-encode_name q.name resp pos _ ok named, room, sym moved)
      (skip_questions-encode_questions questions resp (pos + length (encode_question q)) rest oks
          next
        ∙ ap (λ n. ret (some n))
            (omega (arith, length-append (encode_question q) (encode_questions questions))))

-- A response: its header, with the counts of questions and answers, and its sections.
pub record WireResponse : Type 0 where
  pub id_high : ℕ
  pub id_low : ℕ
  pub flags_high : ℕ
  pub flags_low : ℕ
  pub questions_high : ℕ
  pub questions_low : ℕ
  pub answers_high : ℕ
  pub answers_low : ℕ
  pub other_counts : ℕ × ℕ × ℕ × ℕ
  pub questions : List WireQuestion
  pub answers : List WireAnswer
  pub other_records : Bytes

abbrev pub sections : WireResponse → Bytes
sections r = encode_questions r.questions ++ (encode_answers r.answers ++ r.other_records)

abbrev pub encode_response : WireResponse → Bytes
encode_response r =
    r.id_high
    ∷ r.id_low
    ∷ r.flags_high
    ∷ r.flags_low
    ∷ r.questions_high
    ∷ r.questions_low
    ∷ r.answers_high
    ∷ r.answers_low
    ∷ r.other_counts.0
    ∷ r.other_counts.1
    ∷ r.other_counts.2
    ∷ r.other_counts.3
    ∷ sections r

-- The counts are those of the sections, and the sections are well formed.
pub record IsWireResponse (r : WireResponse) : Type 0 where
  pub question_count : r.questions_high * 256 + r.questions_low ≡ length r.questions
  pub answer_count : r.answers_high * 256 + r.answers_low ≡ length r.answers
  pub are_questions : AreWireQuestions r.questions
  pub are_answers : AreWireAnswers r.answers

when_counted :
    (answers : List WireAnswer) (scan : Outcome Bool)
    → scan ≡ ret (any is_private_answer answers)
    → (if length answers == 0 then ret false else scan) ≡ ret (any is_private_answer answers)
when_counted [] scan h = refl
when_counted (a ∷ answers) scan h = ground (arith, h)

-- In every well-formed response, with names that may end in compression pointers, the scan finds a
-- private address exactly when one of the answers holds one: an A record of a private IPv4 address,
-- or an AAAA record of a private IPv6 address. It returns, with no index out of range.
pub is_private_ip_record-any :
    (r : WireResponse)
    → IsWireResponse r
    → is_private_ip_record (encode_response r) ≡ ret (any is_private_answer r.answers)
unfolding is_private_ip_record
is_private_ip_record-any r w =
    rw
      (
        read_u16-drop (encode_response r) 6 {s = rest6} refl,
        read_u16-drop (encode_response r) 4 {s = rest4} refl,
        w.answer_count,
        w.question_count,
        long,
        skip_questions-encode_questions r.questions (encode_response r) 12
            (encode_answers r.answers ++ r.other_records) w.are_questions refl,
      )
      (when_counted r.answers (scan_answers (length r.answers) (encode_response r) after_questions)
        (scan_answers-encode_answers r.answers (encode_response r) after_questions r.other_records
          w.are_answers
          (drop-add (encode_response r) 12 (length (encode_questions r.questions)) {s = sections r}
              refl
            ∙ drop-append_length (encode_questions r.questions)
                (encode_answers r.answers ++ r.other_records))))
  where
    rest6 : Bytes
    rest6 = r.other_counts.0 ∷ r.other_counts.1 ∷ r.other_counts.2 ∷ r.other_counts.3 ∷ sections r

    after_questions : ℕ
    after_questions = 12 + length (encode_questions r.questions)

    long : ltb (length (encode_response r)) 12 ≡ false
    long = ground arith

    rest4 : Bytes
    rest4 = r.answers_high ∷ r.answers_low ∷ rest6
