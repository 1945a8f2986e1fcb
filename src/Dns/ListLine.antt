-- ===== src/Dns/ListLine.antt =====
-- A line of a block list, `parse_line` of src/modules/dns/mod.rs.
use shield_ghita.Prelude.{
  ℕ, ◌-◌, Bool, true, not, ◌&&◌, ◌||◌, Option, none, some, List, [], ◌∷◌, Bytes, ◌==◌, nat_eq,
  bytes_eq, pair_eq, ltb, if◌then◌else◌, is_empty, length, take, drop, contains,
}
use shield_ghita.Text.{
  codes, is_space, dot, to_lowercase, trim, trim_end_matches, trim_start_matches, starts_with,
  ends_with, contains_byte,
}

-- `s.split(c).next()`
abbrev pub first_piece : ℕ → Bytes → Bytes
first_piece c [] = []
first_piece c (b ∷ s) = let rest = first_piece c s in if b == c then [] else b ∷ rest

-- `s.trim_start_matches("||")`
abbrev pub strip_bars : Bytes → Bytes
strip_bars (a ∷ b ∷ s) =
    let rest = strip_bars s in if a == b'|' && b == b'|' then rest else a ∷ b ∷ s
strip_bars s = s

-- A text up to its first space, and the text from there on.
abbrev pub split_space : Bytes → Option (Bytes × Bytes)
split_space [] = none
split_space (b ∷ s) =
    let rest = split_space s in
    if is_space b
    then some ([], b ∷ s)
    else elim rest [ none ↦ none | some p ↦ some (b ∷ p.0, p.1) ]

abbrev word_until : Bytes → Bytes
word_until [] = []
word_until (b ∷ s) = let rest = word_until s in if is_space b then [] else b ∷ rest

-- `s.split_whitespace().next().unwrap_or("")`
abbrev pub first_word : Bytes → Bytes
first_word s = word_until (trim_start_matches is_space s)

abbrev pub null_addresses : List Bytes
null_addresses =
    codes "0.0.0.0" ∷ codes "127.0.0.1" ∷ codes "::" ∷ codes "::1" ∷ codes "0:0:0:0:0:0:0:0" ∷ []

abbrev star : ℕ
star = b'*'

abbrev pub hash_sign : ℕ
hash_sign = b'#'

-- `||domain^`, with a path, options or another separator after it.
abbrev pub parse_adblock : Bytes → Option Bytes
parse_adblock l =
    let d = trim_end_matches (λ b. b == b'^') (strip_bars l) in
    let d = first_piece b'^' (first_piece b'$' (first_piece b'/' d)) in
    if not (is_empty d) && not (contains_byte star d) then some (to_lowercase d) else none

-- `|domain|`
abbrev pub parse_exact : Bytes → Option Bytes
parse_exact d =
    if not (is_empty d) && not (contains_byte star d) && not (contains_byte b'/' d)
    then some (to_lowercase d)
    else none

-- A line of a hosts file: a null address, a name, and perhaps a comment.
abbrev pub parse_hosts : Bytes → Bytes → Option Bytes
parse_hosts ip rest =
    let d = first_word (first_piece hash_sign (trim rest)) in
    if contains null_addresses ip
      && not (is_empty d)
      && not (contains (codes "localhost" ∷ codes "broadcasthost" ∷ codes "local" ∷ []) d)
    then some (to_lowercase d)
    else none

abbrev pub parse_plain : Bytes → Option Bytes
parse_plain l =
    let d = trim (first_piece hash_sign l) in
    if not (contains_byte b'/' l)
      && not (contains_byte star l)
      && contains_byte dot l
      && not (is_empty d)
      && not (contains (codes "localhost" ∷ codes "broadcasthost" ∷ []) d)
    then some (to_lowercase d)
    else none

abbrev is_comment : Bytes → Bool
is_comment [] = true
is_comment (b ∷ s) = contains (codes "#![") b

-- Whether a text is an IP address is an argument.
unfoldable pub parse_line : (Bytes → Bool) → Bytes → Option Bytes
parse_line is_ip line =
    let l = trim line in
    if is_comment l || is_ip l
    then none
    else if starts_with (codes "||") l
    then parse_adblock l
    else if starts_with (codes "|") l && ends_with (codes "|") l && ltb 2 (length l)
    then parse_exact (take (length l - 2) (drop 1 l))
    else elim (split_space l) [ some (ip, rest) ↦ parse_hosts ip rest | none ↦ parse_plain l ]
