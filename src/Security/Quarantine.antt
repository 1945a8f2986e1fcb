-- ===== src/Security/Quarantine.antt =====
-- The MAC-bound DNS quarantine of src/modules/security/mod.rs. An instant is a number of milliseconds.
pub mod Laws
pub mod Requests
pub mod Release
use shield_ghita.Prelude.{
  ℕ, zero, suc, ◌+◌, ◌-◌, ◌*◌, ◌/◌, ◌%◌, ◌^◌, ◌≤◌, ◌<◌, ◌≡◌, refl, sym, ap, ◌∙◌, ◌↔◌, ◌⊎◌, ◌≢◌, inl,
  inr, Bool, true, false, not, ◌&&◌, ◌||◌, Option, none, some, List, [], ◌∷◌, ◌++◌, map, arith,
  Bytes, Key, ◌==◌, nat_eq, bytes_eq, pair_eq, ltb, leb, if◌then◌else◌, Bool-cases, Option-cases,
  is_empty, any, all, max, min, length, take, drop, get_elem?, contains, set_insert, set_remove,
  retain, IsIn, any-intro, any-elim, contains-IsIn, IsIn-contains, IsIn-retain, retain-IsIn,
  contains-set_insert, contains-set_remove, nat_beq_iff, bytes_beq_iff, ==_refl, ||-eq-true,
  &&-eq-true, get, insert, remove, get-insert, get-remove, length-insert-le, length-remove-le,
  length-retain-le, length-append, length-take, length-drop, tests, take-append_length,
  drop-append_length,
}
use shield_ghita.Security.Address.{parse_ipv4, is_reserved, normalize_mac}

pub data QuarantineRejection : Type 0 where
  invalid_address reserved_address self_address gateway_address identity_unknown :
      QuarantineRejection
  inventory_unavailable capacity_reached : QuarantineRejection

-- The keys are normalized addresses. An entry is the MAC address that it was bound to.
pub record QuarantineInventory : Type 0 where
  pub entries : List (ℕ × Bytes)
  pub inventory : List (ℕ × Bytes)
  pub self_ips : List ℕ
  pub gateways : List ℕ
  pub observed_at : Option ℕ

abbrev pub QuarantineInventory_default : QuarantineInventory
QuarantineInventory_default = record {
  entries = [];
  inventory = [];
  self_ips = [];
  gateways = [];
  observed_at = none;
}

abbrev pub max_quarantine_entries : ℕ
max_quarantine_entries = 256

abbrev pub quarantine_inventory_ttl : ℕ
quarantine_inventory_ttl = 300000

abbrev pub same_mac : Option Bytes → Bytes → Bool
same_mac none mac = false
same_mac (some known) mac = known == mac

-- The result is true for a new binding.
unfoldable pub observe : QuarantineInventory → Bytes → Bytes → QuarantineInventory × Bool
observe q ip mac = elim (normalize_mac mac) [
  | none ↦ (q, false)
  | some normalized_mac ↦ elim (parse_ipv4 ip) [
    | none ↦ (q, false)
    | some address ↦
        if same_mac (get q.inventory address) normalized_mac
        then (q, false)
        else (record q { inventory = insert address normalized_mac q.inventory }, true)
  ]
]

abbrev pub differs : Option Bytes → Option Bytes → Bool
differs (some entry) (some current) = not (current == entry)
differs _ _ = false

unfoldable pub owner_changed : QuarantineInventory → ℕ → Bool
owner_changed q address = differs (get q.entries address) (get q.inventory address)

abbrev pub normalized_ips : List Bytes → List ℕ
normalized_ips [] = []
normalized_ips (s ∷ rest) =
    let others = normalized_ips rest in
    elim (parse_ipv4 s) [ none ↦ others | some address ↦ set_insert address others ]

unfoldable pub observe_all : QuarantineInventory → List (Bytes × Bytes) → QuarantineInventory
observe_all q [] = q
observe_all q ((ip, mac) ∷ rest) = observe_all (observe q ip mac).0 rest

-- The entries that are released: another MAC answers now, or the address is this host or a gateway.
abbrev pub is_released : QuarantineInventory → ℕ → Bool
is_released q address =
    owner_changed q address || contains q.self_ips address || contains q.gateways address

unfoldable pub update_quarantine_inventory :
    QuarantineInventory → List (Bytes × Bytes) → List Bytes → List Bytes → ℕ → QuarantineInventory
update_quarantine_inventory q observations self_ips gateways now =
    let cleared = record q {
      inventory = [];
      self_ips = normalized_ips self_ips;
      gateways = normalized_ips gateways;
    } in
    let observed = record (observe_all cleared (take 4096 observations)) {
      observed_at = some now;
    } in
    record observed {
      entries = retain (λ entry. not (is_released observed entry.0)) observed.entries;
    }

-- What became of a request: refused, already there, or added for an address.
pub data Requested : Type 0 where
  refused : QuarantineRejection → Requested
  already : Requested
  added : ℕ → Requested

abbrev pub is_stale : Option ℕ → ℕ → Bool
is_stale none now = true
is_stale (some t) now = ltb quarantine_inventory_ttl (now - t)

-- From the MAC address on, the address being no host or gateway of the inventory.
unfoldable pub bind_mac : QuarantineInventory → ℕ → Option Bytes → QuarantineInventory × Requested
bind_mac q address none = (q, refused identity_unknown)
bind_mac q address (some mac) = elim (get q.entries address) [
  | some bound ↦ (q, already)
  | none ↦
      if leb max_quarantine_entries (length q.entries)
      then (q, refused capacity_reached)
      else (record q { entries = insert address mac q.entries }, added address)
]

unfoldable pub quarantine_address : QuarantineInventory → ℕ → ℕ → QuarantineInventory × Requested
unfolding bind_mac
quarantine_address q address now =
    if is_reserved address
    then (q, refused reserved_address)
    else if contains q.self_ips address
    then (q, refused self_address)
    else if contains q.gateways address
    then (q, refused gateway_address)
    else if is_stale q.observed_at now || is_empty q.self_ips || is_empty q.gateways
    then (q, refused inventory_unavailable)
    else bind_mac q address (get q.inventory address)

unfoldable pub quarantine_ip : QuarantineInventory → Bytes → ℕ → QuarantineInventory × Requested
unfolding quarantine_address
quarantine_ip q ip now = elim (parse_ipv4 ip) [
  | none ↦ (q, refused invalid_address)
  | some address ↦ quarantine_address q address now
]

unfoldable pub unquarantine_ip : QuarantineInventory → Bytes → QuarantineInventory
unquarantine_ip q ip = elim (parse_ipv4 ip) [
  | none ↦ q
  | some address ↦ record q { entries = remove address q.entries }
]

abbrev pub has_value : Option Bytes → Bool
has_value none = false
has_value (some mac) = true

unfoldable pub is_quarantined : QuarantineInventory → Bytes → Bool
is_quarantined q ip = elim (parse_ipv4 ip) [
  | none ↦ false
  | some address ↦ has_value (get q.entries address)
]
