-- ===== src/Dns/ClientPolicy/Rules.antt =====
-- The client rules of src/modules/dns/client_policy.rs and their text in the configuration.
use shield_ghita.Prelude.{
  ◌≡◌, refl, sym, ap, ◌∙◌, Bool, true, false, Option, none, some, List, [], ◌∷◌, ◌++◌, map, Bytes,
  Key, ◌==◌, nat_eq, bytes_eq, pair_eq, if◌then◌else◌, get, insert, get-insert, get-remove,
  IsUnique,
}
use shield_ghita.Text.{trim}
use shield_ghita.Dns.ClientPolicy.{
  ClientMode, default_mode, trusted, strict, as_str, from_str, AdBlockControls, mode_for_client,
  mode_or_default, set_client_rule, rules_config, split_once, parse_rule, load_rules,
  load_rules_config,
}

from_str-as_str : (mode : ClientMode) → from_str (trim (as_str mode)) ≡ some mode
unfolding from_str
from_str-as_str default_mode = refl
from_str-as_str trusted = refl
from_str-as_str strict = refl

mode-if_none :
    (b : Bool) (o : Option ClientMode)
    → mode_or_default (if b then none else o) ≡ (if b then default_mode else mode_or_default o)
mode-if_none true o = refl
mode-if_none false o = refl

mode-if_some :
    (b : Bool) (mode : ClientMode) (o : Option ClientMode)
    → mode_or_default (if b then some mode else o) ≡ (if b then mode else mode_or_default o)
mode-if_some true mode o = refl
mode-if_some false mode o = refl

-- The rule that is found first, of the new ones and the earlier ones.
abbrev either : Option ClientMode → Option ClientMode → Option ClientMode
either none earlier = earlier
either (some mode) earlier = some mode

either-none : (o : Option ClientMode) → either o none ≡ o
either-none none = refl
either-none (some mode) = refl

either-moved :
    (same : Bool) (mode : ClientMode) (rest earlier : Option ClientMode)
    → (same ≡ true → rest ≡ none)
    → either rest (if same then some mode else earlier)
      ≡ either (if same then some mode else rest) earlier
either-moved true mode rest earlier h = rw (h refl) refl
either-moved false mode rest earlier h = refl

module _ {Address : Type 0} ⦃key : Key Address⦄ (show_address : Address → Bytes)
    (parse_address : Bytes → Option Address) where
  -- What the printing and the parsing of `IpAddr` are relied on for.
  pub record IsAddressText : Type 0 where
    pub parses : (ip : Address) → parse_address (trim (show_address ip)) ≡ some ip
    pub no_bar :
        (ip : Address) (s : Bytes)
        → split_once b'|' (show_address ip ++ (b'|' ∷ s)) ≡ some (show_address ip, s)

  parse_rule-shown :
      (text : IsAddressText) (ip : Address) (mode : ClientMode)
      → parse_rule show_address parse_address
          (split_once b'|' (show_address ip ++ (b'|' ∷ as_str mode)))
        ≡ some (ip, mode)
  parse_rule-shown text ip mode =
      rw (text.no_bar ip (as_str mode), text.parses ip, from_str-as_str mode) refl

  get-load_rules :
      (text : IsAddressText) (m : List (Address × ClientMode))
      (earlier : List (Address × ClientMode)) (ip : Address)
      → IsUnique m
      → get
          (load_rules show_address parse_address
            (map (λ rule. show_address rule.0 ++ (b'|' ∷ as_str rule.1)) m)
            earlier)
          ip
        ≡ either (get m ip) (get earlier ip)
  unfolding load_rules
  get-load_rules text [] earlier ip u = refl
  get-load_rules text ((j, mode) ∷ m) earlier ip (new, u) =
      rw (parse_rule-shown text j mode, load_rules)
        (get-load_rules text m (insert j mode earlier) ip u
          ∙ ap (either (get m ip)) (get-insert j ip mode earlier)
          ∙ either-moved (j == ip) mode (get m ip) (get earlier ip)
              (λ same. ap (get m) (sym ((key.same_iff j ip).0 same)) ∙ new))

  -- The rules that are written to the configuration give, when they are read again, each client the
  -- mode that it had, if printed addresses parse again and hold no bar.
  pub load_rules_config-rules_config :
      (text : IsAddressText) (c other : AdBlockControls Address) (ip : Address)
      → IsUnique c.client_rules
      → mode_for_client
          (load_rules_config show_address parse_address other
            (rules_config show_address parse_address c))
          ip
        ≡ mode_for_client c ip
  unfolding rules_config
  load_rules_config-rules_config text c other ip u =
      ap mode_or_default
        (get-load_rules text c.client_rules [] ip u ∙ either-none (get c.client_rules ip))

module _ {Address : Type 0} ⦃key : Key Address⦄ where
  -- A rule that is set gives its client the mode, the default mode included, and no other client a
  -- new one.
  pub set_client_rule-mode_for_client :
      (c : AdBlockControls Address) (ip other : Address) (mode : ClientMode)
      → mode_for_client (set_client_rule c ip mode) other
        ≡ (if ip == other then mode else mode_for_client c other)
  unfolding set_client_rule
  set_client_rule-mode_for_client c ip other default_mode =
      ap mode_or_default (get-remove ip other c.client_rules)
      ∙ mode-if_none (ip == other) (get c.client_rules other)
  set_client_rule-mode_for_client c ip other trusted =
      ap mode_or_default (get-insert ip other trusted c.client_rules)
      ∙ mode-if_some (ip == other) trusted (get c.client_rules other)
  set_client_rule-mode_for_client c ip other strict =
      ap mode_or_default (get-insert ip other strict c.client_rules)
      ∙ mode-if_some (ip == other) strict (get c.client_rules other)
