-- ===== src/Security/Names.antt =====
-- The judgements of src/modules/security/mod.rs on a name alone: its entropy, generated names, and
-- the darknet's pseudo top-level domains.
use shield_ghita.Prelude.{
  ℕ, zero, suc, ◌+◌, Bool, true, false, ◌&&◌, ◌||◌, Option, none, some, List, [], ◌∷◌, ◌++◌, map,
  Bytes, ◌==◌, nat_eq, bytes_eq, pair_eq, ltb, leb, if◌then◌else◌, is_empty, any, all, max, length,
  contains, get, insert,
}
use shield_ghita.Text.{
  codes, dot, is_dot, lower_byte, to_lowercase, trim, trim_end_matches, split, ends_with, is_digit,
}

-- The operations of `f64` that the code calls, and its literals by their hundredths.
pub record Float64 : Type 1 where
  pub F : Type 0
  pub literal : ℕ → F
  pub from_u32 : ℕ → F
  pub sub : F → F → F
  pub mul : F → F → F
  pub div : F → F → F
  pub log2 : F → F
  pub ge : F → F → Bool

abbrev is_continuation : ℕ → Bool
is_continuation b = leb 128 b && ltb b 192

-- The characters of a text in UTF-8, behind the continuation bytes that it may start with.
abbrev chars_from : Bytes → Bytes × List Bytes
chars_from [] = ([], [])
chars_from (b ∷ s) =
    let (pending, rest) = chars_from s in
    if is_continuation b then (b ∷ pending, rest) else ([], (b ∷ pending) ∷ rest)

abbrev pub chars : Bytes → List Bytes
chars s = (chars_from s).1

abbrev pub count_in : ℕ → Bytes → ℕ
count_in a [] = 0
count_in a (x ∷ xs) = if x == a then suc (count_in a xs) else count_in a xs

abbrev add_count : Bytes → List (Bytes × ℕ) → List (Bytes × ℕ)
add_count c counts = insert c (elim (get counts c) [ none ↦ 1 | some n ↦ suc n ]) counts

abbrev pub char_counts : List Bytes → List (Bytes × ℕ) → List (Bytes × ℕ)
char_counts [] counts = counts
char_counts (c ∷ cs) counts = char_counts cs (add_count c counts)

abbrev pub counts_below : ℕ → Bytes → List ℕ
counts_below zero s = []
counts_below (suc n) s = counts_below n s ++ (count_in n s ∷ [])

abbrev pub is_ascii : Bytes → Bool
is_ascii s = all (λ b. ltb b 128) s

module _ (f : Float64) where
  abbrev pub entropy_from : f.F → f.F → List ℕ → f.F
  entropy_from entropy len [] = entropy
  entropy_from entropy len (count ∷ counts) =
      let p = f.div (f.from_u32 count) len in
      entropy_from (if count == 0 then entropy else f.sub entropy (f.mul p (f.log2 p))) len counts

  -- The counts of the characters, in the order of the table or of the map.
  unfoldable pub calc_entropy : Bytes → f.F
  calc_entropy s =
      let cs = chars s in
      let len = f.from_u32 (length cs) in
      if is_empty cs
      then f.literal 0
      else entropy_from (f.literal 0) len
          (if is_ascii s then counts_below 128 s else map (λ entry. entry.1) (char_counts cs []))

abbrev pub is_vowel : ℕ → Bool
is_vowel b = contains (codes "aeiou") b

abbrev pub is_alphabetic : ℕ → Bool
is_alphabetic b = leb b'a' b && leb b b'z'

-- The counters of `is_dga_domain`.
pub record Tally : Type 0 where
  pub consonants : ℕ
  pub vowels : ℕ
  pub digits : ℕ
  pub max_run : ℕ
  pub run : ℕ

abbrev pub no_letters : Tally
no_letters = record { consonants = 0; vowels = 0; digits = 0; max_run = 0; run = 0 }

unfoldable pub tally_byte : Tally → ℕ → Tally
tally_byte t b =
    let lower = lower_byte b in
    if is_vowel lower
    then record t { vowels = t.vowels + 1; run = 0 }
    else if is_alphabetic lower
    then record t {
      consonants = t.consonants + 1;
      run = t.run + 1;
      max_run = max t.max_run (t.run + 1);
    }
    else if is_digit lower
    then record t { digits = t.digits + 1; run = 0 }
    else record t { run = 0 }

-- A byte of a character that is not ASCII only ends the run, as the character does.
unfoldable pub tally_from : Tally → Bytes → Tally
tally_from t [] = t
tally_from t (b ∷ s) = tally_from (tally_byte t b) s

-- `parts[parts.len() - 2]`
abbrev pub second_last : List Bytes → Option Bytes
second_last [] = none
second_last (a ∷ []) = none
second_last (a ∷ b ∷ []) = some a
second_last (a ∷ b ∷ c ∷ parts) = second_last (b ∷ c ∷ parts)

module _ (f : Float64) where
  unfoldable pub is_generated : Bytes → Bool
  is_generated sld =
      let t = tally_from no_letters sld in
      if ltb (length sld) 8 || ltb 36 (length sld)
      then false
      else if leb 6 t.max_run
      then true
      else if leb 12 (length sld) && t.vowels == 0
      then true
      else if leb 14 (length sld) && leb 3 t.digits && leb 7 t.consonants
      then f.ge (calc_entropy f sld) (f.literal 355)
      else false

  abbrev pub is_generated_part : Option Bytes → Bool
  is_generated_part none = false
  is_generated_part (some sld) = is_generated sld

  unfoldable pub is_dga_domain : Bytes → Bool
  is_dga_domain domain =
      is_generated_part (second_last (split dot (trim_end_matches is_dot (trim domain))))

abbrev pub darknet_tlds : List Bytes
darknet_tlds = codes "onion" ∷ codes "bit" ∷ codes "bazar" ∷ []

unfoldable pub is_darknet_pseudo_tld : Bytes → Bool
is_darknet_pseudo_tld domain =
    let lower = to_lowercase (trim_end_matches is_dot (trim domain)) in
    any (λ tld. ends_with (dot ∷ tld) lower || lower == tld) darknet_tlds
