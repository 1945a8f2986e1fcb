-- ===== src/Dns/Reply.antt =====
-- The replies that src/modules/dns/mod.rs builds itself, and `response_matches_query`.
pub mod Skip
pub mod Total
pub mod Sinkhole
use shield_ghita.Prelude.{
  ℕ, zero, suc, ◌+◌, ◌-◌, ◌*◌, ◌/◌, ◌%◌, ◌^◌, ◌≤◌, ◌<◌, ◌≡◌, refl, sym, ap, ◌∙◌, ◌↔◌, ◌⊎◌, ◌≢◌, inl,
  inr, Bool, true, false, not, ◌&&◌, ◌||◌, Option, none, some, List, [], ◌∷◌, ◌++◌, map, arith,
  Bytes, Key, ◌==◌, nat_eq, bytes_eq, pair_eq, ltb, leb, if◌then◌else◌, Bool-cases, Option-cases,
  is_empty, any, all, max, min, length, take, drop, get_elem?, contains, set_insert, set_remove,
  retain, IsIn, any-intro, any-elim, contains-IsIn, IsIn-contains, IsIn-retain, retain-IsIn,
  contains-set_insert, contains-set_remove, nat_beq_iff, bytes_beq_iff, ==_refl, ||-eq-true,
  &&-eq-true, get, insert, remove, get-insert, get-remove, length-insert-le, length-remove-le,
  length-retain-le, length-append, length-take, length-drop, tests, take-append_length,
  drop-append_length,
}
use Prim.Native.Nat.{bit_and, bit_or}
use shield_ghita.Text.{to_lowercase}
use shield_ghita.Outcome.{Outcome, ret, panic, out_of_fuel, ◌>>=◌, byte, slice}
use shield_ghita.Dns.Wire.{is_pointer, parse_query_info}

-- A reply with an error code: the query with the response bit and the code set, and the counts of
-- answers zeroed. `none` for a packet that is shorter than a header.
unfoldable pub build_error : ℕ → Bytes → Option Bytes
build_error code (i ∷ j ∷ flags ∷ codes ∷ qd ∷ qd' ∷ _ ∷ _ ∷ _ ∷ _ ∷ _ ∷ _ ∷ body) = some (
    i
    ∷ j
    ∷ bit_or flags 0x80
    ∷ bit_or (bit_and codes 0xF0) code
    ∷ qd
    ∷ qd'
    ∷ 0
    ∷ 0
    ∷ 0
    ∷ 0
    ∷ 0
    ∷ 0
    ∷ body)
build_error code q = none

unfoldable pub build_nxdomain : Bytes → Option Bytes
unfolding build_error
build_nxdomain q = build_error 0x03 q

unfoldable pub build_servfail : Bytes → Option Bytes
unfolding build_error
build_servfail q = build_error 0x02 q

-- The loop over the question's name. The number is the rounds left before `loop_count > 128`.
unfoldable pub skip_question : ℕ → Bytes → ℕ → Outcome (Option ℕ)
skip_question zero q pos = if leb (length q) pos then ret (some pos) else ret none
skip_question (suc rounds) q pos = if leb (length q) pos then ret (some pos) else do
  len ← byte q pos
  if len == 0
      then ret (some (pos + 1))
      else if is_pointer len
      then ret (some (pos + 2))
      else if ltb (length q) (pos + 1 + len)
      then ret none
      else skip_question rounds q (pos + 1 + len)

-- The header of a sinkhole reply behind the query's identifier: QDCOUNT and ANCOUNT are 1.
abbrev pub sinkhole_header : Bytes
sinkhole_header = 0x81 ∷ 0x80 ∷ 0 ∷ 1 ∷ 0 ∷ 1 ∷ 0 ∷ 0 ∷ 0 ∷ 0 ∷ []

-- What follows the loop: the question is copied, and the answer is put behind it.
unfoldable pub sinkhole_reply : Bytes → Bytes → Option ℕ → Outcome (Option Bytes)
sinkhole_reply q answer none = ret none
sinkhole_reply q answer (some pos) = if ltb (length q) (pos + 4) then ret none else do
  id ← slice q 0 2
  question ← slice q 12 (pos + 4)
  ret (some (id ++ (sinkhole_header ++ (question ++ answer))))

abbrev pub a_answer : Bytes → Bytes
a_answer ip = 0xC0 ∷ 0x0C ∷ 0 ∷ 1 ∷ 0 ∷ 1 ∷ 0 ∷ 0 ∷ 0 ∷ 0x0A ∷ 0 ∷ 4 ∷ ip

abbrev pub aaaa_answer : Bytes → Bytes
aaaa_answer ip6 = 0xC0 ∷ 0x0C ∷ 0 ∷ 0x1C ∷ 0 ∷ 1 ∷ 0 ∷ 0 ∷ 0 ∷ 0x0A ∷ 0 ∷ 0x10 ∷ ip6

-- The address is a list of 4 bytes, or of 16.
unfoldable pub build_sinkhole_a_record : Bytes → Bytes → Outcome (Option Bytes)
build_sinkhole_a_record q ip =
    if ltb (length q) 12
    then ret none
    else do end ← skip_question 128 q 12; sinkhole_reply q (a_answer ip) end

unfoldable pub build_sinkhole_aaaa_record : Bytes → Bytes → Outcome (Option Bytes)
build_sinkhole_aaaa_record q ip6 =
    if ltb (length q) 12
    then ret none
    else do end ← skip_question 128 q 12; sinkhole_reply q (aaaa_answer ip6) end

abbrev pub same_question : Option (Bytes × ℕ) → Option (Bytes × ℕ) → Bool
same_question (some (q_name, q_type)) (some (r_name, r_type)) =
    to_lowercase r_name == to_lowercase q_name && r_type == q_type
same_question _ _ = false

unfoldable pub response_matches_query : Bytes → Bytes → Outcome Bool
response_matches_query resp query =
    if ltb (length resp) 12 || ltb (length query) 12 then ret false else do
      r0 ← byte resp 0
      q0 ← byte query 0
      r1 ← byte resp 1
      q1 ← byte query 1
      flags ← byte resp 2
      if not (r0 == q0) || not (r1 == q1)
          then ret false
          else if bit_and flags 0x80 == 0
          then ret false
          else do
            asked ← parse_query_info query
            answered ← parse_query_info resp
            ret (same_question asked answered)
