-- ===== src/Backup/Examples.antt =====
-- Tests and examples of the backups, src/modules/backup.rs. The hash here is a short sum.
use shield_ghita.Prelude.{
  ℕ, ◌%◌, ◌≡◌, refl, ◌↔◌, inl, inr, Bool, true, none, some, List, [], ◌∷◌, Bytes, ◌==◌, nat_eq,
  bytes_eq, pair_eq, if◌then◌else◌, IsIn, ltb→lt,
}
use shield_ghita.Text.{codes}
use shield_ghita.Backup.{
  ShieldGhitaBackupPackage, rules_of, mac_payload, checksum_of, sum_field, accepted, rejected,
  checksum_mismatch, create_package, check_package, load_backup, hmac_sha256, NewFile, created,
  already_exists, allocate_name, name_attempts, hex_of,
}
use shield_ghita.Backup.Payload.{IsShort, AreShort, mac_payload_iff}
use shield_ghita.Backup.Accepted.{verdict_on, with_domains, load_backup_moved}

abbrev short_hash : Bytes → Bytes
short_hash s = sum_field 0 s % 256 ∷ sum_field 7 s % 256 ∷ []

abbrev any_config : Bytes → Bool
any_config s = true

abbrev machine_key : Bytes
machine_key = codes "machine"

abbrev saved : ShieldGhitaBackupPackage
saved =
    create_package short_hash machine_key (codes "0.1") (codes "2026-01-01")
      (codes "language = 'vi'") (codes "ads.io" ∷ codes "malware.org" ∷ []) [] []

abbrev moved : ShieldGhitaBackupPackage
moved = with_domains saved (codes "ads.io" ∷ []) (codes "malware.org" ∷ [])

-- The block rule of the package has become an allow rule.
moved-accepted : load_backup short_hash machine_key any_config (some moved) ≡ accepted moved
unfolding create_package check_package checksum_of mac_payload hmac_sha256
moved-accepted = refl

abbrev tampered : ShieldGhitaBackupPackage
tampered = record saved { config_toml = codes "language = 'en'" }

tampered-rejected :
    load_backup short_hash machine_key any_config (some tampered) ≡ rejected checksum_mismatch
unfolding create_package check_package checksum_of mac_payload hmac_sha256
tampered-rejected = refl

hex_bytes : hex_of (0x0a ∷ 0xff ∷ []) ≡ codes "0aff"
hex_bytes = refl

abbrev first_taken : ℕ → NewFile
first_taken attempt = if attempt == 0 then already_exists else created

second_name : allocate_name name_attempts 0 first_taken ≡ some 1
unfolding allocate_name
second_name = refl

load_backup_moved_example :
    load_backup short_hash machine_key any_config (some moved)
    ≡ verdict_on moved (
        load_backup short_hash machine_key any_config
          (some (with_domains saved (codes "ads.io" ∷ codes "malware.org" ∷ []) [])))
load_backup_moved_example =
    load_backup_moved short_hash machine_key any_config saved (codes "ads.io" ∷ []) []
      (codes "malware.org")

abbrev plain : List Bytes → List Bytes → ShieldGhitaBackupPackage
plain blocked allowed = record {
  app_version = codes "0.1";
  created_at = [];
  config_toml = codes "a";
  custom_blocked_domains = blocked;
  custom_allowed_domains = allowed;
  known_devices = [];
  checksum = 0;
  mac = none;
}

abbrev blocking : ShieldGhitaBackupPackage
blocking = plain (codes "ads.io" ∷ []) []

abbrev allowing : ShieldGhitaBackupPackage
allowing = plain [] (codes "ads.io" ∷ [])

rule-IsShort : (s : Bytes) → IsIn s (codes "ads.io" ∷ []) → IsShort s
rule-IsShort s (inl same) = rw same (ltb→lt _ _ refl)
rule-IsShort s (inr i) = absurd i

blocking-AreShort : AreShort blocking
blocking-AreShort = record {
  app_version = ltb→lt _ _ refl;
  created_at = ltb→lt _ _ refl;
  config_toml = ltb→lt _ _ refl;
  rules = rule-IsShort;
}

allowing-AreShort : AreShort allowing
allowing-AreShort = record {
  app_version = ltb→lt _ _ refl;
  created_at = ltb→lt _ _ refl;
  config_toml = ltb→lt _ _ refl;
  rules = rule-IsShort;
}

mac_payload_iff_example : (mac_payload blocking ≡ mac_payload allowing) ↔ (
    (blocking.app_version ≡ allowing.app_version)
    × (blocking.created_at ≡ allowing.created_at)
    × (blocking.config_toml ≡ allowing.config_toml)
    × (rules_of blocking ≡ rules_of allowing))
mac_payload_iff_example = mac_payload_iff blocking allowing blocking-AreShort allowing-AreShort
