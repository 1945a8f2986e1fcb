-- ===== src/Security/Hosts.antt =====
-- The check of the hosts file, `inspect_hosts_file` of src/modules/security/mod.rs. The text of the file,
-- if it can be read, and the test for an address are arguments.
use shield_ghita.Prelude.{
  Bool, false, not, ◌&&◌, ◌||◌, Option, none, some, List, [], ◌∷◌, ◌++◌, map, Bytes, ◌==◌, nat_eq,
  bytes_eq, pair_eq, if◌then◌else◌, is_empty, any, retain,
}
use shield_ghita.Text.{
  codes, dot, is_dot, is_space, trim, trim_end_matches, to_lowercase, split, cons_head, starts_with,
  ends_with, contains_text,
}
use shield_ghita.Dns.ListLine.{first_piece, hash_sign}
use shield_ghita.Security.Engine.{SecurityEngine, SecurityIncident, hosts_tamper, critical}
use shield_ghita.Security.Inspection.{report}

abbrev pub split_spaces : Bytes → List Bytes
split_spaces [] = [] ∷ []
split_spaces (b ∷ s) =
    let rest = split_spaces s in if is_space b then [] ∷ rest else cons_head b rest

-- `split_whitespace`
abbrev pub words : Bytes → List Bytes
words s = retain (λ w. not (is_empty w)) (split_spaces s)

abbrev pub sensitive_targets : List Bytes
sensitive_targets =
    codes "microsoft.com"
    ∷ codes "windowsupdate.com"
    ∷ codes "google.com"
    ∷ codes "bing.com"
    ∷ codes "kaspersky"
    ∷ codes "bitdefender"
    ∷ codes "symantec"
    ∷ codes "bank"
    ∷ codes "paypal"
    ∷ codes "binance"
    ∷ []

abbrev pub is_target : Bytes → Bytes → Bool
is_target hostname t =
    hostname == t
    || ends_with (dot ∷ t) hostname
    || starts_with (t ++ dot ∷ []) hostname
    || contains_text (dot ∷ (t ++ dot ∷ [])) hostname

abbrev pub is_sensitive : Bytes → Bool
is_sensitive hostname = not (is_empty hostname) && any (is_target hostname) sensitive_targets

abbrev pub host_name : Bytes → Bytes
host_name h = to_lowercase (trim_end_matches is_dot (trim h))

module _ (is_ip : Bytes → Bool) where
  abbrev pub redirects : List Bytes → Bool
  redirects [] = false
  redirects (ip ∷ hosts) = is_ip ip && any is_sensitive (map host_name hosts)

  -- Whether a line sends a sensitive name elsewhere.
  abbrev pub is_tampered : Bytes → Bool
  is_tampered trimmed =
      if starts_with (codes "#") trimmed || is_empty trimmed
      then false
      else redirects (words (trim (first_piece hash_sign trimmed)))

  abbrev pub find_tampered : List Bytes → Option Bytes
  find_tampered [] = none
  find_tampered (line ∷ lines) =
      let rest = find_tampered lines in if is_tampered (trim line) then some (trim line) else rest

  abbrev pub report_tampered :
      SecurityEngine → Option Bytes → SecurityEngine × Option SecurityIncident
  report_tampered e none = (e, none)
  report_tampered e (some line) = report e (hosts_tamper line) (codes "127.0.0.1") critical

  unfoldable pub inspect_hosts_file :
      SecurityEngine → Option Bytes → SecurityEngine × Option SecurityIncident
  inspect_hosts_file e none = (e, none)
  inspect_hosts_file e (some content) = report_tampered e (find_tampered (split 10 content))
