-- ===== src/Backup/Accepted.antt =====
-- Which packages `load_backup` of src/modules/backup.rs accepts.
use shield_ghita.Prelude.{
  ◌≡◌, refl, ap, Bool, true, false, not, Option, none, some, List, [], ◌∷◌, ◌++◌, Bytes, ◌==◌,
  nat_eq, bytes_eq, pair_eq, if◌then◌else◌, ==_refl,
}
use shield_ghita.Text.{to_lowercase}
use shield_ghita.Dns.DiskStore.Build.Layout.{append_assoc}
use shield_ghita.Backup.{
  feed, feed_all, sum_fields, ShieldGhitaBackupPackage, rules_of, mac_payload, checksum_of,
  checksum_mismatch, mac_mismatch, invalid_config, Loaded, rejected, accepted, compute_mac,
  create_package, has_valid_mac, check_package, load_backup, hex_of, hmac_sha256,
}

-- The same verdict on another package.
abbrev pub verdict_on : ShieldGhitaBackupPackage → Loaded → Loaded
verdict_on pkg (rejected e) = rejected e
verdict_on pkg (accepted other) = accepted pkg

-- The package with other lists of domains.
abbrev pub with_domains :
    ShieldGhitaBackupPackage → List Bytes → List Bytes → ShieldGhitaBackupPackage
with_domains pkg blocked allowed = record pkg {
  custom_blocked_domains = blocked;
  custom_allowed_domains = allowed;
}

verdict_if :
    (c m g : Bool) (p q : ShieldGhitaBackupPackage)
    → (if not c
        then rejected checksum_mismatch
        else if not m
        then rejected mac_mismatch
        else if not g
        then rejected invalid_config
        else accepted q)
      ≡ verdict_on q (
          if not c
          then rejected checksum_mismatch
          else if not m
          then rejected mac_mismatch
          else if not g
          then rejected invalid_config
          else accepted p)
verdict_if false m g p q = refl
verdict_if true false g p q = refl
verdict_if true true false p q = refl
verdict_if true true true p q = refl

module _ (pkg : ShieldGhitaBackupPackage) (blocked allowed : List Bytes) (domain : Bytes) where
  rules_of-moved :
      rules_of (with_domains pkg (blocked ++ domain ∷ []) allowed)
      ≡ rules_of (with_domains pkg blocked (domain ∷ allowed))
  rules_of-moved = append_assoc blocked (domain ∷ []) (allowed ++ pkg.known_devices)

  checksum_of-moved :
      checksum_of (with_domains pkg (blocked ++ domain ∷ []) allowed)
      ≡ checksum_of (with_domains pkg blocked (domain ∷ allowed))
  unfolding checksum_of
  checksum_of-moved = ap (λ rules. sum_fields 0 (pkg.config_toml ∷ rules)) rules_of-moved

  mac_payload-moved :
      mac_payload (with_domains pkg (blocked ++ domain ∷ []) allowed)
      ≡ mac_payload (with_domains pkg blocked (domain ∷ allowed))
  unfolding mac_payload
  mac_payload-moved =
      ap
        (λ rules.
          feed pkg.app_version ++ (feed pkg.created_at ++ (feed pkg.config_toml ++ feed_all rules)))
        rules_of-moved

module _ (sha256 : Bytes → Bytes) (key : Bytes) (is_config : Bytes → Bool) where
  has_valid_mac_same :
      (p q : ShieldGhitaBackupPackage) (mac : Option Bytes)
      → mac_payload p ≡ mac_payload q
      → has_valid_mac sha256 key p mac ≡ has_valid_mac sha256 key q mac
  has_valid_mac_same p q none e = refl
  has_valid_mac_same p q (some expected) e =
      ap
        (λ payload. to_lowercase expected == to_lowercase (hex_of (hmac_sha256 sha256 key payload)))
        e

  -- A package that is created is loaded as it was written, if its configuration is one.
  pub create_package-load_backup :
      (version now cfg : Bytes) (blocked allowed devices : List Bytes)
      → is_config cfg ≡ true
      → load_backup sha256 key is_config
          (some (create_package sha256 key version now cfg blocked allowed devices))
        ≡ accepted (create_package sha256 key version now cfg blocked allowed devices)
  unfolding check_package create_package checksum_of mac_payload
  create_package-load_backup version now cfg blocked allowed devices valid =
      rw
        (
          valid,
          ==_refl (checksum_of (create_package sha256 key version now cfg blocked allowed devices)),
          ==_refl (
              to_lowercase (
                compute_mac sha256 key
                  (create_package sha256 key version now cfg blocked allowed devices))),
        )
        refl

  -- When a custom rule moves from the end of the blocked domains to the start of the allowed ones, and
  -- nothing else of the package changes, neither its checksum nor its MAC, the verdict is the same.
  pub load_backup_moved :
      (pkg : ShieldGhitaBackupPackage) (blocked allowed : List Bytes) (domain : Bytes)
      → load_backup sha256 key is_config (some (with_domains pkg blocked (domain ∷ allowed)))
        ≡ verdict_on (with_domains pkg blocked (domain ∷ allowed)) (
            load_backup sha256 key is_config
              (some (with_domains pkg (blocked ++ domain ∷ []) allowed)))
  unfolding check_package
  load_backup_moved pkg blocked allowed domain =
      let moved = with_domains pkg blocked (domain ∷ allowed) in
      let original = with_domains pkg (blocked ++ domain ∷ []) allowed in
      rw
        (
          checksum_of-moved pkg blocked allowed domain,
          has_valid_mac_same original moved pkg.mac (mac_payload-moved pkg blocked allowed domain),
        )
        (verdict_if (checksum_of moved == pkg.checksum) (has_valid_mac sha256 key moved pkg.mac)
          (is_config pkg.config_toml) original moved)
