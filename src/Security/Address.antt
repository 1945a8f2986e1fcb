-- ===== src/Security/Address.antt =====
-- Addresses as src/modules/security/mod.rs normalizes them: `Ipv4Addr` by its 32-bit number, and MAC
-- addresses by their text.
use shield_ghita.Prelude.{
  ℕ, ◌+◌, ◌-◌, ◌*◌, ◌/◌, ◌%◌, Bool, false, not, ◌&&◌, ◌||◌, Option, none, some, List, [], ◌∷◌, map,
  Bytes, ◌==◌, nat_eq, bytes_eq, pair_eq, ltb, leb, if◌then◌else◌, is_empty, all, length, retain,
}
use shield_ghita.Text.{join, codes, dot, trim, split, is_digit, is_alphanumeric}

-- An octet of `Ipv4Addr::from_str`: one to three digits, no leading zero, at most 255.
abbrev digits_value : ℕ → Bytes → Option ℕ
digits_value acc [] = some acc
digits_value acc (b ∷ s) =
    let rest = digits_value (acc * 10 + (b - b'0')) s in if is_digit b then rest else none

abbrev has_leading_zero : Bytes → Bool
has_leading_zero (b ∷ c ∷ s) = b == b'0'
has_leading_zero s = false

abbrev at_most_255 : Option ℕ → Option ℕ
at_most_255 none = none
at_most_255 (some n) = if leb n 255 then some n else none

unfoldable pub parse_octet : Bytes → Option ℕ
parse_octet s =
    if is_empty s || ltb 3 (length s) || has_leading_zero s
    then none
    else at_most_255 (digits_value 0 s)

abbrev octets : Option ℕ → Option ℕ → Option ℕ → Option ℕ → Option ℕ
octets (some a) (some b) (some c) (some d) = some (((a * 256 + b) * 256 + c) * 256 + d)
octets _ _ _ _ = none

abbrev pub four_parts : List Bytes → Option ℕ
four_parts (a ∷ b ∷ c ∷ d ∷ []) =
    octets (parse_octet a) (parse_octet b) (parse_octet c) (parse_octet d)
four_parts _ = none

-- `ip.trim().parse::<Ipv4Addr>()`
unfoldable pub parse_ipv4 : Bytes → Option ℕ
unfolding parse_octet
parse_ipv4 ip = four_parts (split dot (trim ip))

-- `is_loopback`, `is_unspecified`, `is_multicast`, `is_broadcast`
abbrev pub first_octet : ℕ → ℕ
first_octet address = address / 0x1000000

unfoldable pub is_reserved : ℕ → Bool
is_reserved address =
    first_octet address == 127
    || address == 0
    || leb 224 (first_octet address) && leb (first_octet address) 239
    || address == 0xFFFFFFFF

abbrev pub upper_byte : ℕ → ℕ
upper_byte b = if leb b'a' b && leb b b'z' then b - 32 else b

abbrev pub is_hex_digit : ℕ → Bool
is_hex_digit b = is_digit b || leb b'a' b && leb b b'f' || leb b'A' b && leb b b'F'

-- The pairs of hexadecimal digits, joined by colons.
abbrev pub colon_pairs : Bytes → Bytes
colon_pairs (a ∷ b ∷ []) = a ∷ b ∷ []
colon_pairs (a ∷ b ∷ s) = a ∷ b ∷ b':' ∷ colon_pairs s
colon_pairs s = s

unfoldable pub normalize_mac : Bytes → Option Bytes
normalize_mac mac =
    let cleaned = retain is_alphanumeric (trim mac) in
    let upper = map upper_byte cleaned in
    if not (length cleaned == 12) || not (all is_hex_digit cleaned)
    then none
    else if upper == codes "000000000000" || upper == codes "FFFFFFFFFFFF"
    then none
    else some (colon_pairs upper)

-- `Ipv4Addr::to_string()`
abbrev pub show_octet : ℕ → Bytes
show_octet n =
    if ltb n 10
    then (b'0' + n) ∷ []
    else if ltb n 100
    then (b'0' + n / 10) ∷ (b'0' + n % 10) ∷ []
    else (b'0' + n / 100) ∷ (b'0' + n / 10 % 10) ∷ (b'0' + n % 10) ∷ []

unfoldable pub show_ipv4 : ℕ → Bytes
show_ipv4 address = join dot (
    show_octet (address / 0x1000000)
    ∷ show_octet (address / 0x10000 % 256)
    ∷ show_octet (address / 0x100 % 256)
    ∷ show_octet (address % 256)
    ∷ [])
