-- ===== src/Text.antt =====
-- Rust's `str` methods that the modules below call, over byte strings. `to_lowercase` and `trim` are
-- modelled on ASCII: a byte from 128 on is neither a capital nor a space.
use Prim.Native.Char.{code}
use Prim.Native.String.{String}
use shield_ghita.Prelude.{
  ℕ, ◌+◌, ◌≡◌, refl, Bool, true, false, ◌&&◌, ◌||◌, List, [], ◌∷◌, ◌++◌, map, arith, Bytes, ◌==◌,
  nat_eq, bytes_eq, leb, if◌then◌else◌, is_empty, any,
}

-- A string literal.
abbrev pub codes : String → Bytes
codes String.[] = []
codes (String.◌∷◌ c s) = code c ∷ codes s

abbrev pub dot : ℕ
dot = b'.'

abbrev pub lower_byte : ℕ → ℕ
lower_byte b = if leb b'A' b && leb b b'Z' then b + 32 else b

abbrev pub to_lowercase : Bytes → Bytes
to_lowercase = map lower_byte

abbrev pub is_space : ℕ → Bool
is_space b = b == 32 || leb 9 b && leb b 13

abbrev pub is_dot : ℕ → Bool
is_dot b = b == dot

abbrev pub trim_start_matches : (ℕ → Bool) → Bytes → Bytes
trim_start_matches p [] = []
trim_start_matches p (b ∷ s) = let rest = trim_start_matches p s in if p b then rest else b ∷ s

abbrev pub trim_end_matches : (ℕ → Bool) → Bytes → Bytes
trim_end_matches p [] = []
trim_end_matches p (b ∷ s) =
    let rest = trim_end_matches p s in if p b && is_empty rest then [] else b ∷ rest

abbrev pub trim : Bytes → Bytes
trim s = trim_end_matches is_space (trim_start_matches is_space s)

abbrev pub cons_head : ℕ → List Bytes → List Bytes
cons_head b [] = (b ∷ []) ∷ []
cons_head b (label ∷ labels) = (b ∷ label) ∷ labels

-- `s.split(c)`: always at least one piece.
abbrev pub split : ℕ → Bytes → List Bytes
split c [] = [] ∷ []
split c (b ∷ s) = let rest = split c s in if b == c then [] ∷ rest else cons_head b rest

-- `pieces.join(c)` with a separator of one byte.
abbrev pub join : ℕ → List Bytes → Bytes
join c [] = []
join c (s ∷ []) = s
join c (s ∷ t ∷ rest) = s ++ (c ∷ join c (t ∷ rest))

abbrev pub contains_byte : ℕ → Bytes → Bool
contains_byte c s = any (λ b. b == c) s

abbrev pub starts_with : Bytes → Bytes → Bool
starts_with [] s = true
starts_with (p ∷ ps) [] = false
starts_with (p ∷ ps) (b ∷ s) = p == b && starts_with ps s

-- `s.ends_with(p)`: `p` is `s` or one of the strings that are left when bytes are dropped.
abbrev pub ends_with : Bytes → Bytes → Bool
ends_with p [] = p == []
ends_with p (b ∷ s) = p == b ∷ s || ends_with p s

-- `s.contains(p)`
abbrev pub contains_text : Bytes → Bytes → Bool
contains_text p [] = p == []
contains_text p (b ∷ s) = starts_with p (b ∷ s) || contains_text p s

abbrev pub is_digit : ℕ → Bool
is_digit b = leb b'0' b && leb b b'9'

abbrev pub is_alphanumeric : ℕ → Bool
is_alphanumeric b = is_digit b || leb b'A' b && leb b b'Z' || leb b'a' b && leb b b'z'

pub lower_byte-lower_byte : (b : ℕ) → lower_byte (lower_byte b) ≡ lower_byte b
lower_byte-lower_byte b = ground arith

pub to_lowercase-to_lowercase : (s : Bytes) → to_lowercase (to_lowercase s) ≡ to_lowercase s
to_lowercase-to_lowercase [] = refl
to_lowercase-to_lowercase (b ∷ s) =
    ground (arith, lower_byte-lower_byte b, to_lowercase-to_lowercase s)

pub trim_end_matches-trim_end_matches :
    (p : ℕ → Bool) (s : Bytes) → trim_end_matches p (trim_end_matches p s) ≡ trim_end_matches p s
trim_end_matches-trim_end_matches p [] = refl
trim_end_matches-trim_end_matches p (b ∷ s) = ground (arith, trim_end_matches-trim_end_matches p s)
