-- ===== src/Backup/Payload.antt =====
-- What the MAC of a backup of src/modules/backup.rs stands for.
use shield_ghita.Prelude.{
  ℕ, ◌%◌, ◌^◌, ◌<◌, ◌≡◌, refl, sym, ap, ◌∙◌, ◌↔◌, inl, inr, List, [], ◌∷◌, ◌++◌, arith, Bytes,
  nat_eq, bytes_eq, pair_eq, length, take, drop, IsIn, take-append_length, drop-append_length,
}
use shield_ghita.Dns.DiskStore.{from_le, to_le}
use shield_ghita.Dns.DiskStore.Build.Layout.{from_le-to_le}
use shield_ghita.Backup.{ShieldGhitaBackupPackage, feed, feed_all, rules_of, mac_payload}

-- A text has fewer than 2^64 bytes.
abbrev pub IsShort : Bytes → Type 0
IsShort s = length s < 2 ^ 64

pub record AreShort (pkg : ShieldGhitaBackupPackage) : Type 0 where
  pub app_version : IsShort pkg.app_version
  pub created_at : IsShort pkg.created_at
  pub config_toml : IsShort pkg.config_toml
  pub rules : (s : Bytes) → IsIn s (rules_of pkg) → IsShort s

append_split : (x y r s : Bytes) → length x ≡ length y → x ++ r ≡ y ++ s → (x ≡ y) × (r ≡ s)
append_split x y r s same e = (
  sym (take-append_length x r)
      ∙ ap (take (length x)) e
      ∙ ap (λ n. take n (y ++ s)) same
      ∙ take-append_length y s,
  sym (drop-append_length x r)
      ∙ ap (drop (length x)) e
      ∙ ap (λ n. drop n (y ++ s)) same
      ∙ drop-append_length y s,
)

length_read : (x : Bytes) → IsShort x → from_le (to_le 8 (length x % 2 ^ 64)) ≡ length x
length_read x h = from_le-to_le 8 (length x % 2 ^ 64) (below (length x) h) ∙ whole (length x) h
  where
    below : (n : ℕ) → n < 2 ^ 64 → n % 2 ^ 64 < 256 ^ 8
    below n h = omega (arith, h)

    whole : (n : ℕ) → n < 2 ^ 64 → n % 2 ^ 64 ≡ n
    whole n h = omega (arith, h)

feed_split :
    (x y r s : Bytes) → IsShort x → IsShort y → feed x ++ r ≡ feed y ++ s → (x ≡ y) × (r ≡ s)
feed_split x y r s h k e =
    let lengths : length x ≡ length y =
      sym (length_read x h) ∙ ap (λ t. from_le (take 8 t)) e ∙ length_read y k in
    append_split x y r s lengths (ap (drop 8) e)

feed_all_split :
    (xs ys : List Bytes)
    → ((s : Bytes) → IsIn s xs → IsShort s)
    → ((s : Bytes) → IsIn s ys → IsShort s)
    → feed_all xs ≡ feed_all ys
    → xs ≡ ys
feed_all_split [] [] h k e = refl
feed_all_split [] (y ∷ ys) h k e = absurd (cc e)
feed_all_split (x ∷ xs) [] h k e = absurd (cc e)
feed_all_split (x ∷ xs) (y ∷ ys) h k e =
    let (first, rest) =
      feed_split x y (feed_all xs) (feed_all ys) (h x (inl refl)) (k y (inl refl)) e in
    let later = feed_all_split xs ys (λ s i. h s (inr i)) (λ s i. k s (inr i)) rest in
    rw (first, later) refl

-- Two packages have the same payload exactly if they agree in their version, their date, their
-- configuration, and in the blocked domains, the allowed domains and the devices as one list: where one
-- of the three lists ends is not protected.
pub mac_payload_iff :
    (a b : ShieldGhitaBackupPackage)
    → AreShort a
    → AreShort b
    → (mac_payload a ≡ mac_payload b) ↔ (
        (a.app_version ≡ b.app_version)
        × (a.created_at ≡ b.created_at)
        × (a.config_toml ≡ b.config_toml)
        × (rules_of a ≡ rules_of b))
unfolding mac_payload
mac_payload_iff a b v w = (forth, back)
  where
    forth :
        mac_payload a ≡ mac_payload b
        → (a.app_version ≡ b.app_version)
          × (a.created_at ≡ b.created_at)
          × (a.config_toml ≡ b.config_toml)
          × (rules_of a ≡ rules_of b)
    forth e =
        let (version, e1) =
          feed_split a.app_version b.app_version _ _ v.app_version w.app_version e in
        let (date, e2) = feed_split a.created_at b.created_at _ _ v.created_at w.created_at e1 in
        let (cfg, e3) = feed_split a.config_toml b.config_toml _ _ v.config_toml w.config_toml e2 in
        (version, date, cfg, feed_all_split (rules_of a) (rules_of b) v.rules w.rules e3)

    back :
        (a.app_version ≡ b.app_version)
          × (a.created_at ≡ b.created_at)
          × (a.config_toml ≡ b.config_toml)
          × (rules_of a ≡ rules_of b)
        → mac_payload a ≡ mac_payload b
    back (version, date, cfg, rules) =
        ap (λ s. feed s ++ (feed a.created_at ++ (feed a.config_toml ++ feed_all (rules_of a))))
          version
        ∙ ap (λ s. feed b.app_version ++ (feed s ++ (feed a.config_toml ++ feed_all (rules_of a))))
            date
        ∙ ap (λ s. feed b.app_version ++ (feed b.created_at ++ (feed s ++ feed_all (rules_of a))))
            cfg
        ∙ ap (λ s. feed b.app_version ++ (feed b.created_at ++ (feed b.config_toml ++ feed_all s)))
            rules
