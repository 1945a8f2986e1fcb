-- ===== src/Monitor/Csv.antt =====
-- Fields of an exported table, from src/modules/monitor/mod.rs and src/modules/security/mod.rs.
use shield_ghita.Prelude.{
  ℕ, Bool, false, List, [], ◌∷◌, ◌++◌, map, Bytes, ◌==◌, nat_eq, bytes_eq, pair_eq, if◌then◌else◌,
  contains,
}
use shield_ghita.Text.{codes, join}

abbrev pub quote : ℕ
quote = 34

-- What a spreadsheet takes as the start of a formula: the characters of the pattern, a tab and a
-- carriage return.
abbrev pub starts_formula : Bytes → Bool
starts_formula [] = false
starts_formula (b ∷ s) = contains (9 ∷ 13 ∷ codes "=+-@") b

-- `field.replace('"', "\"\"")`
abbrev pub double_quotes : Bytes → Bytes
double_quotes [] = []
double_quotes (b ∷ s) = if b == quote then quote ∷ quote ∷ double_quotes s else b ∷ double_quotes s

abbrev pub guard_formula : Bytes → Bytes → Bytes
guard_formula field s = if starts_formula field then b'\'' ∷ s else s

unfoldable pub csv_escape : Bytes → Bytes
csv_escape field = quote ∷ guard_formula field (double_quotes field) ++ quote ∷ []

-- A line of escaped fields, and some more text.
abbrev pub csv_line : List Bytes → List Bytes → Bytes
csv_line fields plain = join b',' (map csv_escape fields ++ plain) ++ 10 ∷ []
