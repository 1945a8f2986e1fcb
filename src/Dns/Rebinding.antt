-- ===== src/Dns/Rebinding.antt =====
-- The rebinding guard of src/modules/dns/mod.rs: which answers hold a private address, and for which
-- names they are withheld.
pub mod Answers
pub mod Private
pub mod Total
pub mod Incidents
use shield_ghita.Prelude.{
  ℕ, zero, suc, ◌+◌, ◌-◌, ◌*◌, ◌/◌, ◌%◌, ◌^◌, ◌≤◌, ◌<◌, ◌≡◌, refl, sym, ap, ◌∙◌, ◌↔◌, ◌⊎◌, ◌≢◌, inl,
  inr, Bool, true, false, not, ◌&&◌, ◌||◌, Option, none, some, List, [], ◌∷◌, ◌++◌, map, arith,
  Bytes, Key, ◌==◌, nat_eq, bytes_eq, pair_eq, ltb, leb, if◌then◌else◌, Bool-cases, Option-cases,
  is_empty, any, all, max, min, length, take, drop, get_elem?, contains, set_insert, set_remove,
  retain, IsIn, any-intro, any-elim, contains-IsIn, IsIn-contains, IsIn-retain, retain-IsIn,
  contains-set_insert, contains-set_remove, nat_beq_iff, bytes_beq_iff, ==_refl, ||-eq-true,
  &&-eq-true, get, insert, remove, get-insert, get-remove, length-insert-le, length-remove-le,
  length-retain-le, length-append, length-take, length-drop, tests, take-append_length,
  drop-append_length, not_ltb→le, not_leb→lt, ltb→lt, le→leb, IsUnique, insert-IsIn, remove-IsIn,
  get-IsIn, IsIn-get, insert-IsUnique, remove-IsUnique, retain-IsUnique, map-IsIn, IsIn-map,
}
use Prim.Native.Nat.{bit_and}
use shield_ghita.Text.{codes, to_lowercase, trim_end_matches, is_dot, ends_with}
use shield_ghita.Outcome.{Outcome, ret, panic, out_of_fuel, ◌>>=◌, byte, slice}
use shield_ghita.Dns.Wire.{is_pointer}
use shield_ghita.Dns.Domain.{match_domain_hierarchy}

abbrev pub local_suffixes : List Bytes
local_suffixes =
    codes ".localhost"
    ∷ codes ".local"
    ∷ codes ".lan"
    ∷ codes ".home"
    ∷ codes ".internal"
    ∷ codes ".intranet"
    ∷ codes ".arpa"
    ∷ codes ".localdomain"
    ∷ []

unfoldable pub is_legit_local_domain : Bytes → Bool
is_legit_local_domain domain =
    let trimmed = trim_end_matches is_dot (to_lowercase domain) in
    trimmed == codes "localhost" || any (λ suffix. ends_with suffix trimmed) local_suffixes

unfoldable pub is_private_ipv4 : ℕ → ℕ → ℕ → ℕ → Bool
is_private_ipv4 a b c d =
    a == 0
    || a == 10
    || a == 127
    || a == 100 && bit_and b 0xC0 == 64
    || a == 169 && b == 254
    || a == 172 && (leb 16 b && leb b 31)
    || a == 192 && b == 168
    || a == 198 && (b == 18 || b == 19)
    || a == 192 && b == 0 && c == 0
    || a == 255 && b == 255 && c == 255 && d == 255

abbrev pub is_zero : ℕ → Bool
is_zero b = b == 0

abbrev pub is_ipv4_private : Bytes → Bool
is_ipv4_private (a ∷ b ∷ c ∷ d ∷ []) = is_private_ipv4 a b c d
is_ipv4_private _ = false

abbrev pub has_private_prefix : Bytes → Bool
has_private_prefix (a ∷ b ∷ s) = a == 0xFE && bit_and b 0xC0 == 0x80 || bit_and a 0xFE == 0xFC
has_private_prefix _ = false

-- The sixteen bytes of an IPv6 address: mapped IPv4, loopback, link-local, unique local.
unfoldable pub is_private_ipv6 : Bytes → Bool
is_private_ipv6 ip6 =
    if all is_zero (take 10 ip6) && take 2 (drop 10 ip6) == 0xFF ∷ 0xFF ∷ []
    then is_ipv4_private (drop 12 ip6)
    else (all is_zero (take 15 ip6) && drop 15 ip6 == 1 ∷ []) || has_private_prefix ip6

-- The test of one answer, by its type and its data.
unfoldable pub is_private_rdata : ℕ → Bytes → Bool
is_private_rdata rtype rdata =
    if rtype == 1 && length rdata == 4
    then is_ipv4_private rdata
    else if rtype == 28 && length rdata == 16
    then is_private_ipv6 rdata
    else false

-- The loop over a name. It moves on in each round, so that one round for each byte is enough.
unfoldable pub skip_name : ℕ → Bytes → ℕ → Outcome ℕ
skip_name zero resp pos = out_of_fuel
skip_name (suc rounds) resp pos = if leb (length resp) pos then ret pos else do
  len ← byte resp pos
  if len == 0
      then ret (pos + 1)
      else if is_pointer len
      then ret (pos + 2)
      else skip_name rounds resp (pos + 1 + len)

abbrev pub name_rounds : Bytes → ℕ
name_rounds resp = suc (length resp)

-- `u16::from_be_bytes`
unfoldable pub read_u16 : Bytes → ℕ → Outcome ℕ
read_u16 resp pos = do high ← byte resp pos; low ← byte resp (pos + 1); ret (high * 256 + low)

unfoldable pub skip_questions : ℕ → Bytes → ℕ → Outcome (Option ℕ)
skip_questions zero resp pos = ret (some pos)
skip_questions (suc count) resp pos = do
  pos' ← skip_name (name_rounds resp) resp pos
  if ltb (length resp) (pos' + 4) then ret none else skip_questions count resp (pos' + 4)

-- The data is read where the source reads it for two types only; the bounds are tested before.
unfoldable pub scan_answers : ℕ → Bytes → ℕ → Outcome Bool
scan_answers zero resp pos = ret false
scan_answers (suc count) resp pos = if leb (length resp) pos then ret false else do
  pos' ← skip_name (name_rounds resp) resp pos
  if ltb (length resp) (pos' + 10) then ret false else do
    rtype ← read_u16 resp pos'
    rdlength ← read_u16 resp (pos' + 8)
    if ltb (length resp) (pos' + 10 + rdlength) then ret false else do
      rdata ← slice resp (pos' + 10) (pos' + 10 + rdlength)
      if is_private_rdata rtype rdata
          then ret true
          else scan_answers count resp (pos' + 10 + rdlength)

abbrev pub scan_from : ℕ → Bytes → Option ℕ → Outcome Bool
scan_from count resp none = ret false
scan_from count resp (some pos) = scan_answers count resp pos

unfoldable pub is_private_ip_record : Bytes → Outcome Bool
is_private_ip_record resp = if ltb (length resp) 12 then ret false else do
  ancount ← read_u16 resp 6
  if ancount == 0 then ret false else do
    qdcount ← read_u16 resp 4
    answers ← skip_questions qdcount resp 12
    scan_from ancount resp answers

-- The administrator's allowed domains may answer with private addresses.
unfoldable pub forwarded_answer_hits_private_space : List Bytes → Bytes → Bytes → Outcome Bool
forwarded_answer_hits_private_space custom_allowed query_name resp =
    if is_legit_local_domain query_name then ret false else do
      private ← is_private_ip_record resp
      ret (
          if private
          then not (
              match_domain_hierarchy (to_lowercase (trim_end_matches is_dot query_name))
                custom_allowed)
          else false)
