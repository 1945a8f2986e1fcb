-- ===== src/Backup.antt =====
-- The configuration backups of src/modules/backup.rs. SHA-256, the key of the machine and the test that a
-- text is a configuration are parameters; a package is what the JSON of its file stands for.
pub mod Payload
pub mod Accepted
mod Examples
use Prim.Native.Nat.{bit_xor}
use shield_ghita.Prelude.{
  ℕ, zero, suc, ◌+◌, ◌-◌, ◌*◌, ◌/◌, ◌%◌, ◌^◌, ◌≤◌, ◌<◌, ◌≡◌, refl, sym, ap, ◌∙◌, ◌↔◌, ◌⊎◌, ◌≢◌, inl,
  inr, Bool, true, false, not, ◌&&◌, ◌||◌, Option, none, some, List, [], ◌∷◌, ◌++◌, map, arith,
  Bytes, Key, ◌==◌, nat_eq, bytes_eq, pair_eq, ltb, leb, if◌then◌else◌, Bool-cases, Option-cases,
  is_empty, any, all, max, min, length, take, drop, get_elem?, contains, set_insert, set_remove,
  retain, IsIn, any-intro, any-elim, contains-IsIn, IsIn-contains, IsIn-retain, retain-IsIn,
  contains-set_insert, contains-set_remove, nat_beq_iff, bytes_beq_iff, ==_refl, ||-eq-true,
  &&-eq-true, get, insert, remove, get-insert, get-remove, length-insert-le, length-remove-le,
  length-retain-le, length-append, length-take, length-drop, tests, take-append_length,
  drop-append_length, insert_by_rank, sort_by_rank, remove_all, length-insert_by_rank,
  insert_by_rank-IsIn, length-sort_by_rank, sort_by_rank-IsIn, length-remove-lt,
  length-remove_all-le, remove_some, remove_all-IsIn, remove_all-IsUnique, not_ltb→le, not_leb→lt,
  ltb→lt, le→leb, IsUnique, insert-IsIn, remove-IsIn, get-IsIn, IsIn-get, insert-IsUnique,
  remove-IsUnique, retain-IsUnique, map-IsIn, IsIn-map,
}
use shield_ghita.Text.{codes, to_lowercase}
use shield_ghita.Dns.DiskStore.{to_le}

pub record ShieldGhitaBackupPackage : Type 0 where
  pub app_version : Bytes
  pub created_at : Bytes
  pub config_toml : Bytes
  pub custom_blocked_domains : List Bytes
  pub custom_allowed_domains : List Bytes
  pub known_devices : List Bytes
  pub checksum : ℕ
  pub mac : Option Bytes

abbrev pub block_size : ℕ
block_size = 64

abbrev pub zero_bytes : ℕ → Bytes
zero_bytes zero = []
zero_bytes (suc n) = 0 ∷ zero_bytes n

-- A field with its length before it.
abbrev pub feed : Bytes → Bytes
feed bytes = to_le 8 (length bytes % 2 ^ 64) ++ bytes

abbrev pub feed_all : List Bytes → Bytes
feed_all [] = []
feed_all (s ∷ fields) = feed s ++ feed_all fields

abbrev pub rules_of : ShieldGhitaBackupPackage → List Bytes
rules_of pkg = pkg.custom_blocked_domains ++ (pkg.custom_allowed_domains ++ pkg.known_devices)

unfoldable pub mac_payload : ShieldGhitaBackupPackage → Bytes
mac_payload pkg =
    feed pkg.app_version
    ++ (feed pkg.created_at ++ (feed pkg.config_toml ++ feed_all (rules_of pkg)))

abbrev pub sum_byte : ℕ → ℕ → ℕ
sum_byte sum b = (sum + b) % 2 ^ 32 * 31 % 2 ^ 32

abbrev pub sum_bytes : ℕ → Bytes → ℕ
sum_bytes sum [] = sum
sum_bytes sum (b ∷ bytes) = sum_bytes (sum_byte sum b) bytes

abbrev pub sum_field : ℕ → Bytes → ℕ
sum_field sum bytes = sum_bytes (sum_byte sum (length bytes % 2 ^ 32)) bytes

abbrev pub sum_fields : ℕ → List Bytes → ℕ
sum_fields sum [] = sum
sum_fields sum (s ∷ fields) = sum_fields (sum_field sum s) fields

unfoldable pub checksum_of : ShieldGhitaBackupPackage → ℕ
checksum_of pkg = sum_fields 0 (pkg.config_toml ∷ rules_of pkg)

abbrev pub hex_digit : ℕ → ℕ
hex_digit n = if ltb n 10 then b'0' + n else b'a' + (n - 10)

-- `format!("{b:02x}")` of each byte.
abbrev pub hex_of : Bytes → Bytes
hex_of [] = []
hex_of (b ∷ bytes) = hex_digit (b / 16) ∷ hex_digit (b % 16) ∷ hex_of bytes

pub data LoadError : Type 0 where
  unreadable checksum_mismatch mac_mismatch invalid_config : LoadError

pub data Loaded : Type 0 where
  rejected : LoadError → Loaded
  accepted : ShieldGhitaBackupPackage → Loaded

-- How the creation of a new file ends.
pub data NewFile : Type 0 where
  created already_exists refused : NewFile

module _ (sha256 : Bytes → Bytes) where
  abbrev pub padded_key : Bytes → Bytes
  padded_key key =
      let k = if ltb block_size (length key) then sha256 key else key in
      k ++ zero_bytes (block_size - length k)

  unfoldable pub hmac_sha256 : Bytes → Bytes → Bytes
  hmac_sha256 key msg =
      let k = padded_key key in
      sha256 (map (bit_xor 0x5c) k ++ sha256 (map (bit_xor 0x36) k ++ msg))

  module _ (key : Bytes) where
    abbrev pub compute_mac : ShieldGhitaBackupPackage → Bytes
    compute_mac pkg = hex_of (hmac_sha256 key (mac_payload pkg))

    -- The package that `create_backup` writes.
    unfoldable pub create_package :
        Bytes → Bytes → Bytes → List Bytes → List Bytes → List Bytes → ShieldGhitaBackupPackage
    create_package version now cfg blocked allowed devices =
        let draft : ShieldGhitaBackupPackage = record {
          app_version = version;
          created_at = now;
          config_toml = cfg;
          custom_blocked_domains = blocked;
          custom_allowed_domains = allowed;
          known_devices = devices;
          checksum = 0;
          mac = none;
        } in
        record draft { checksum = checksum_of draft; mac = some (compute_mac draft) }

    -- Whether the MAC of a package is accepted; a package of an older version has none.
    abbrev pub has_valid_mac : ShieldGhitaBackupPackage → Option Bytes → Bool
    has_valid_mac pkg none = true
    has_valid_mac pkg (some expected) = to_lowercase expected == to_lowercase (compute_mac pkg)

    module _ (is_config : Bytes → Bool) where
      unfoldable pub check_package : ShieldGhitaBackupPackage → Loaded
      check_package pkg =
          if not (checksum_of pkg == pkg.checksum)
          then rejected checksum_mismatch
          else if not (has_valid_mac pkg pkg.mac)
          then rejected mac_mismatch
          else if not (is_config pkg.config_toml)
          then rejected invalid_config
          else accepted pkg

      abbrev pub load_backup : Option ShieldGhitaBackupPackage → Loaded
      load_backup none = rejected unreadable
      load_backup (some pkg) = check_package pkg

-- The number of the file name that `create_backup` takes, of the attempts that are left.
unfoldable pub allocate_name : ℕ → ℕ → (ℕ → NewFile) → Option ℕ
allocate_name zero attempt files = none
allocate_name (suc rounds) attempt files =
    let rest = allocate_name rounds (attempt + 1) files in
    elim (files attempt) [ created ↦ some attempt | already_exists ↦ rest | refused ↦ none ]

abbrev pub name_attempts : ℕ
name_attempts = 100
