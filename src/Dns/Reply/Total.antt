-- ===== src/Dns/Reply/Total.antt =====
-- The sinkhole builders of src/modules/dns/mod.rs return on every packet.
use shield_ghita.Prelude.{
  ℕ, ◌+◌, ◌≤◌, ◌≡◌, refl, ap, ◌∙◌, inl, inr, Option, none, some, ◌++◌, arith, Bytes, nat_eq,
  bytes_eq, pair_eq, ltb, Bool-cases, length,
}
use shield_ghita.Outcome.{ret, ◌>>=◌, Returns, slice-Returns}
use shield_ghita.Dns.Reply.{
  skip_question, sinkhole_header, sinkhole_reply, a_answer, aaaa_answer, build_sinkhole_a_record,
  build_sinkhole_aaaa_record,
}
use shield_ghita.Dns.Reply.Skip.{skip_question-Returns, skip_question-ge}

pub sinkhole_reply-Returns :
    (q answer : Bytes) (end : Option ℕ)
    → 12 ≤ length q
    → ((pos : ℕ) → end ≡ some pos → 12 ≤ pos)
    → Returns (sinkhole_reply q answer end)
unfolding sinkhole_reply
sinkhole_reply-Returns q answer none long ge = (none, refl)
sinkhole_reply-Returns q answer (some pos) long ge = elim (Bool-cases (ltb (length q) (pos + 4))) [
  | inl y ↦ (none, rw y refl)
  | inr n ↦
      let (id, e) = slice-Returns q 0 2 (omega arith) (omega arith) in
      let far : 12 ≤ pos = ge pos refl in
      let (question, e') = slice-Returns q 12 (pos + 4) (omega arith) (ground arith) in
      (some (id ++ (sinkhole_header ++ (question ++ answer))), rw (n, e, e') refl)
]

pub reply-Returns :
    (q answer : Bytes)
    → 12 ≤ length q
    → Returns (skip_question 128 q 12 >>= λ end. sinkhole_reply q answer end)
reply-Returns q answer long =
    let (end, e) = skip_question-Returns 128 q 12 in
    rw e (
      sinkhole_reply-Returns q answer end long
        (λ pos k. skip_question-ge 128 q 12 pos (e ∙ ap (λ o. ret o) k)))

-- Both sinkhole builders answer every packet, with no index out of range.
pub build_sinkhole-Returns :
    (q ip ip6 : Bytes)
    → Returns (build_sinkhole_a_record q ip) × Returns (build_sinkhole_aaaa_record q ip6)
unfolding build_sinkhole_a_record build_sinkhole_aaaa_record
build_sinkhole-Returns q ip ip6 = elim (Bool-cases (ltb (length q) 12)) [
  | inl y ↦ ((none, rw y refl), (none, rw y refl))
  | inr n ↦ (
    rw n (reply-Returns q (a_answer ip) (ground arith)),
    rw n (reply-Returns q (aaaa_answer ip6) (ground arith)),
  )
]
