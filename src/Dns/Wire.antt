-- ===== src/Dns/Wire.antt =====
-- The DNS wire format of src/modules/dns/mod.rs: the query parser, the reply builders and the check
-- that pairs a reply with its query. `pos` is an index into the packet, and a read out of range panics.
-- A byte is a number below 256.
pub mod Names
pub mod Query
pub mod RoundTrip
use shield_ghita.Prelude.{
  ℕ, zero, suc, ◌+◌, ◌-◌, ◌*◌, ◌/◌, ◌%◌, ◌^◌, ◌≤◌, ◌<◌, ◌≡◌, refl, sym, ap, ◌∙◌, ◌↔◌, ◌⊎◌, ◌≢◌, inl,
  inr, Bool, true, false, not, ◌&&◌, ◌||◌, Option, none, some, List, [], ◌∷◌, ◌++◌, map, arith,
  Bytes, Key, ◌==◌, nat_eq, bytes_eq, pair_eq, ltb, leb, if◌then◌else◌, Bool-cases, Option-cases,
  is_empty, any, all, max, min, length, take, drop, get_elem?, contains, set_insert, set_remove,
  retain, IsIn, any-intro, any-elim, contains-IsIn, IsIn-contains, IsIn-retain, retain-IsIn,
  contains-set_insert, contains-set_remove, nat_beq_iff, bytes_beq_iff, ==_refl, ||-eq-true,
  &&-eq-true, get, insert, remove, get-insert, get-remove, length-insert-le, length-remove-le,
  length-retain-le, length-append, length-take, length-drop, tests, take-append_length,
  drop-append_length,
}
use Prim.Native.Nat.{bit_and, bit_or}
use shield_ghita.Text.{codes, dot, is_dot, trim, trim_end_matches, split, join, to_lowercase}
use shield_ghita.Outcome.{Outcome, ret, panic, out_of_fuel, ◌>>=◌, byte, slice}

-- `len & 0xC0 == 0xC0`: the byte starts a compression pointer.
unfoldable pub is_pointer : ℕ → Bool
is_pointer b = bit_and b 0xC0 == 0xC0

-- `std::str::from_utf8`: what may follow, by the bytes read so far.
pub data Utf8 : Type 0 where
  start one two three after_e0 after_ed after_f0 after_f4 : Utf8

abbrev pub utf8_lead : ℕ → Option Utf8
utf8_lead b =
    if ltb b 0x80
    then some start
    else if ltb b 0xC2
    then none
    else if ltb b 0xE0
    then some one
    else if b == 0xE0
    then some after_e0
    else if b == 0xED
    then some after_ed
    else if ltb b 0xF0
    then some two
    else if b == 0xF0
    then some after_f0
    else if ltb b 0xF4
    then some three
    else if b == 0xF4
    then some after_f4
    else none

abbrev pub within : ℕ → ℕ → ℕ → Utf8 → Option Utf8
within low high b next = if leb low b && leb b high then some next else none

abbrev pub utf8_next : Utf8 → ℕ → Option Utf8
utf8_next start b = utf8_lead b
utf8_next one b = within 0x80 0xBF b start
utf8_next two b = within 0x80 0xBF b one
utf8_next three b = within 0x80 0xBF b two
utf8_next after_e0 b = within 0xA0 0xBF b one
utf8_next after_ed b = within 0x80 0x9F b one
utf8_next after_f0 b = within 0x90 0xBF b two
utf8_next after_f4 b = within 0x80 0x8F b two

abbrev pub utf8_from : Utf8 → Bytes → Bool
utf8_from start [] = true
utf8_from other [] = false
utf8_from state (b ∷ s) = elim (utf8_next state b) [ none ↦ false | some next ↦ utf8_from next s ]

unfoldable pub is_utf8 : Bytes → Bool
is_utf8 s = utf8_from start s

-- The loop of `parse_query_info`. The first number is the rounds left before `loop_count > 128`.
unfoldable pub read_labels : ℕ → Bytes → ℕ → List Bytes → Outcome (Option (List Bytes × ℕ))
read_labels zero pkt pos labels =
    if leb (length pkt) pos then ret (some (labels, pos)) else ret none
read_labels (suc rounds) pkt pos labels =
    if leb (length pkt) pos then ret (some (labels, pos)) else do
      len ← byte pkt pos
      if len == 0
          then ret (some (labels, pos + 1))
          else if is_pointer len
          then ret none
          else if ltb (length pkt) (pos + 1 + len)
          then ret none
          else do
            label ← slice pkt (pos + 1) (pos + 1 + len)
            if is_utf8 label
                then read_labels rounds pkt (pos + 1 + len) (labels ++ (label ∷ []))
                else ret none

-- The end of `parse_query_info`: the query type, and the name.
unfoldable pub read_qtype : Bytes → Option (List Bytes × ℕ) → Outcome (Option (Bytes × ℕ))
read_qtype pkt none = ret none
read_qtype pkt (some (labels, pos)) =
    if is_empty labels || ltb (length pkt) (pos + 2) then ret none else do
      high ← byte pkt pos
      low ← byte pkt (pos + 1)
      ret (some (join dot labels, high * 256 + low))

unfoldable pub parse_query_info : Bytes → Outcome (Option (Bytes × ℕ))
parse_query_info pkt =
    if ltb (length pkt) 12
    then ret none
    else do named ← read_labels 128 pkt 12 []; read_qtype pkt named

abbrev as_name : Option (Bytes × ℕ) → Option Bytes
as_name none = none
as_name (some (name, qtype)) = some name

unfoldable pub parse_query_name : Bytes → Outcome (Option Bytes)
unfolding parse_query_info
parse_query_name pkt = do info ← parse_query_info pkt; ret (as_name info)

-- The labels of `build_a_query`, each behind its length.
unfoldable pub push_labels : Bytes → List Bytes → Option Bytes
push_labels query [] = some query
push_labels query (label ∷ labels) =
    let next = push_labels (query ++ (length label ∷ label)) labels in
    if is_empty label || ltb 63 (length label) then none else next

abbrev pub query_header : Bytes
query_header = 0x12 ∷ 0x34 ∷ 0x01 ∷ 0 ∷ 0 ∷ 1 ∷ 0 ∷ 0 ∷ 0 ∷ 0 ∷ 0 ∷ 0 ∷ []

abbrev pub query_host : Bytes → Bytes
query_host host = trim_end_matches is_dot (trim host)

unfoldable pub build_a_query : Bytes → Option Bytes
unfolding push_labels
build_a_query host =
    if is_empty (query_host host)
    then none
    else elim (push_labels query_header (split dot (query_host host))) [
      | none ↦ none
      | some query ↦ some (query ++ (0 ∷ 0 ∷ 1 ∷ 0 ∷ 1 ∷ []))
    ]
