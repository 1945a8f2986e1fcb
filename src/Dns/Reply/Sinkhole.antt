-- ===== src/Dns/Reply/Sinkhole.antt =====
-- The sinkhole replies of src/modules/dns/mod.rs answer the question that they were built for.
use shield_ghita.Prelude.{
  ℕ, ◌+◌, ◌≤◌, ◌≡◌, refl, sym, ap, ◌∙◌, ◌⊎◌, inl, inr, true, false, Option, some, [], ◌∷◌, ◌++◌,
  arith, Bytes, nat_eq, bytes_eq, pair_eq, ltb, Bool-cases, length, take, drop, ==_refl,
  length-append, length-drop, drop-append_length,
}
use Prim.Native.Nat.add
use shield_ghita.Prelude.{not_ltb→le}
use mathlib.Core.List.{append_assoc}
use shield_ghita.Text.{to_lowercase}
use shield_ghita.Outcome.{Outcome, ret, ◌>>=◌, byte, slice, byte-drop, drop-add, slice-drop}
use shield_ghita.Dns.Wire.{parse_query_info}
use shield_ghita.Dns.Wire.Names.{encode}
use shield_ghita.Dns.Wire.Query.{IsQuery, parse_query_info-IsQuery}
use shield_ghita.Dns.Reply.{
  skip_question, sinkhole_header, sinkhole_reply, a_answer, aaaa_answer, build_sinkhole_a_record,
  build_sinkhole_aaaa_record, same_question, response_matches_query,
}
use shield_ghita.Dns.Reply.Skip.{skip_question-encode}

two_bytes : (q : Bytes) → 12 ≤ length q → (a : ℕ) × (b : ℕ) × (t : Bytes) × (q ≡ a ∷ b ∷ t)
two_bytes [] h = absurd (omega arith)
two_bytes (a ∷ []) h = absurd (omega arith)
two_bytes (a ∷ b ∷ t) h = (a, b, t, refl)

four_bytes :
    (t : Bytes) (high low : ℕ) (rest : Bytes) (n : ℕ)
    → t ≡ high ∷ low ∷ rest
    → 4 ≤ length t
    → (c : ℕ) × (d : ℕ) × (rest' : Bytes) × (rest ≡ c ∷ d ∷ rest')
four_bytes t high low [] n e h = absurd (omega (arith, ap length e))
four_bytes t high low (c ∷ []) n e h = absurd (omega (arith, ap length e))
four_bytes t high low (c ∷ d ∷ rest) n e h = (c, d, rest, refl)

take-append_add : (xs ys : Bytes) (n : ℕ) → take (length xs + n) (xs ++ ys) ≡ xs ++ take n ys
take-append_add [] ys n = ap (λ m. take m ys) (omega arith)
take-append_add (x ∷ xs) ys n = rw add.suc (ap (λ t. x ∷ t) (take-append_add xs ys n))

-- A reply with the query's question behind the sinkhole header.
record IsReplyTo (q answer r : Bytes) (name : Bytes) (qtype : ℕ) : Type 0 where
  first : ℕ
  second : ℕ
  others : Bytes
  after_header : Bytes
  query_is : q ≡ first ∷ second ∷ others
  reply_is : r ≡ first ∷ second ∷ (sinkhole_header ++ after_header)
  asks : IsQuery r name qtype

module _ (q answer r name : Bytes) (qtype : ℕ) (long : 12 ≤ length q)
    (k : IsQuery q name qtype) where
  abbrev end_of_name : ℕ
  end_of_name = 12 + length (encode k.labels) + 1

  found : skip_question 128 q 12 ≡ ret (some end_of_name)
  found =
      skip_question-encode k.labels 128 q 12 (k.high ∷ k.low ∷ k.rest) k.are_labels k.few k.layout

  left : drop end_of_name q ≡ k.high ∷ k.low ∷ k.rest
  left = drop-add q (12 + length (encode k.labels)) 1 (
      drop-add q 12 (length (encode k.labels)) k.layout
      ∙ drop-append_length (encode k.labels) (0 ∷ k.high ∷ k.low ∷ k.rest))

  take-question :
      (c d : ℕ) (t : Bytes)
      → take (length (encode k.labels) + 5) (encode k.labels ++ (0 ∷ k.high ∷ k.low ∷ c ∷ d ∷ t))
        ≡ encode k.labels ++ (0 ∷ k.high ∷ k.low ∷ c ∷ d ∷ [])
  take-question c d t = take-append_add (encode k.labels) (0 ∷ k.high ∷ k.low ∷ c ∷ d ∷ t) 5

  -- The reply, where the packet has the four bytes of the question behind the name.
  replied :
      sinkhole_reply q answer (some end_of_name) ≡ ret (some r) → IsReplyTo q answer r name qtype
  unfolding sinkhole_reply
  replied h = elim (Bool-cases (ltb (length q) (end_of_name + 4))) [
    | inl y ↦ absurd (cc (rw y at h))
    | inr n ↦
        let (a, b, t, e) = two_bytes q long in
        let (c, d, rest', e') =
          four_bytes (drop end_of_name q) k.high k.low k.rest 0 left
            (omega (arith, length-drop end_of_name q, not_ltb→le (length q) (end_of_name + 4) n)) in
        let copied : slice q 12 (end_of_name + 4)
            ≡ ret (encode k.labels ++ (0 ∷ k.high ∷ k.low ∷ c ∷ d ∷ [])) =
          ap (slice q 12) (omega arith)
          ∙ slice-drop q 12 (length (encode k.labels) + 5)
              (k.layout ∙ ap (λ s. encode k.labels ++ (0 ∷ k.high ∷ k.low ∷ s)) e') long
              (omega (arith, length-append (encode k.labels) (0 ∷ k.high ∷ k.low ∷ c ∷ d ∷ rest')))
          ∙ ap ret (take-question c d rest') in
        let header : slice q 0 2 ≡ ret (a ∷ b ∷ []) =
          slice-drop q 0 2 e (omega arith) (omega arith) in
        built a b t c d e (sym (rw (n, header, copied) refl) ∙ h)
  ]
    where
      built :
          (a b : ℕ) (t : Bytes) (c d : ℕ)
          → q ≡ a ∷ b ∷ t
          → ◌≡◌ {A = Outcome (Option Bytes)}
              (ret (
                some (
                  a
                  ∷ b
                  ∷ (sinkhole_header
                      ++ ((encode k.labels ++ (0 ∷ k.high ∷ k.low ∷ c ∷ d ∷ [])) ++ answer)))))
              (ret (some r))
          → IsReplyTo q answer r name qtype
      built a b t c d e g = record {
        first = a;
        second = b;
        others = t;
        after_header = (encode k.labels ++ (0 ∷ k.high ∷ k.low ∷ c ∷ d ∷ [])) ++ answer;
        query_is = e;
        reply_is = cc g;
        asks = record {
          labels = k.labels;
          high = k.high;
          low = k.low;
          rest = c ∷ d ∷ answer;
          are_labels = k.are_labels;
          some_label = k.some_label;
          few = k.few;
          layout =
              rw (same g) (append_assoc (encode k.labels) (0 ∷ k.high ∷ k.low ∷ c ∷ d ∷ []) answer);
          named = k.named;
          typed = k.typed;
        };
      }
        where
          same :
              ◌≡◌ {A = Outcome (Option Bytes)}
                (ret (
                  some (
                    a
                    ∷ b
                    ∷ (sinkhole_header
                        ++ ((encode k.labels ++ (0 ∷ k.high ∷ k.low ∷ c ∷ d ∷ [])) ++ answer)))))
                (ret (some r))
              → r
                ≡ a
                  ∷ b
                  ∷ (sinkhole_header
                      ++ ((encode k.labels ++ (0 ∷ k.high ∷ k.low ∷ c ∷ d ∷ [])) ++ answer))
          same g' = cc g'

same_question_refl :
    (name : Bytes) (qtype : ℕ) → same_question (some (name, qtype)) (some (name, qtype)) ≡ true
same_question_refl name qtype = ground (arith, ==_refl (to_lowercase name), ==_refl qtype)

reply_matches :
    (q answer r name : Bytes) (qtype : ℕ)
    → 12 ≤ length q
    → parse_query_info q ≡ ret (some (name, qtype))
    → IsReplyTo q answer r name qtype
    → (parse_query_info r ≡ ret (some (name, qtype))) × (response_matches_query r q ≡ ret true)
unfolding response_matches_query
reply_matches q answer r name qtype long parsed k =
    let again = (parse_query_info-IsQuery r name qtype).1 k.asks in
    let long_r : ltb (length r) 12 ≡ false = rw k.reply_is (ground arith) in
    let long_q : ltb (length q) 12 ≡ false = ground arith in
    let r0 : byte r 0 ≡ ret k.first = byte-drop r 0 k.reply_is in
    let q0 : byte q 0 ≡ ret k.first = byte-drop q 0 k.query_is in
    let r1 : byte r 1 ≡ ret k.second = byte-drop r 1 (ap (drop 1) k.reply_is) in
    let q1 : byte q 1 ≡ ret k.second = byte-drop q 1 (ap (drop 1) k.query_is) in
    let r2 : byte r 2 ≡ ret 0x81 = byte-drop r 2 (ap (drop 2) k.reply_is) in
    (
      again,
      rw
          (
            long_r,
            long_q,
            r0,
            q0,
            r1,
            q1,
            r2,
            ==_refl k.first,
            ==_refl k.second,
            parsed,
            again,
            same_question_refl name qtype,
          )
          refl,
    )

replied_to :
    (q answer r name : Bytes) (qtype : ℕ)
    → 12 ≤ length q
    → parse_query_info q ≡ ret (some (name, qtype))
    → (skip_question 128 q 12 >>= λ end. sinkhole_reply q answer end) ≡ ret (some r)
    → (parse_query_info r ≡ ret (some (name, qtype))) × (response_matches_query r q ≡ ret true)
replied_to q answer r name qtype long parsed h =
    let k = (parse_query_info-IsQuery q name qtype).0 parsed in
    reply_matches q answer r name qtype long parsed (
      replied q answer r name qtype long k (sym (rw (found q answer r name qtype long k) refl) ∙ h))

-- A sinkhole reply of either kind asks the same question as the query it was built for, and passes
-- the check by which the forwarder pairs a reply with its query.
pub build_sinkhole-response_matches_query :
    (q ip ip6 r name : Bytes) (qtype : ℕ)
    → parse_query_info q ≡ ret (some (name, qtype))
    → (build_sinkhole_a_record q ip ≡ ret (some r))
      ⊎ (build_sinkhole_aaaa_record q ip6 ≡ ret (some r))
    → (parse_query_info r ≡ ret (some (name, qtype))) × (response_matches_query r q ≡ ret true)
unfolding build_sinkhole_a_record build_sinkhole_aaaa_record
build_sinkhole-response_matches_query q ip ip6 r name qtype parsed h =
    elim (Bool-cases (ltb (length q) 12)) [
      | inl y ↦ elim h [ inl e ↦ absurd (cc (rw y at e)) | inr e ↦ absurd (cc (rw y at e)) ]
      | inr n ↦ elim h [
        | inl e ↦ replied_to q (a_answer ip) r name qtype (ground arith) parsed (rw n at e)
        | inr e ↦ replied_to q (aaaa_answer ip6) r name qtype (ground arith) parsed (rw n at e)
      ]
    ]
