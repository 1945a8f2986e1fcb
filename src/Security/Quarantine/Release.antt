-- ===== src/Security/Quarantine/Release.antt =====
-- Which quarantines an inventory update releases.
use shield_ghita.Prelude.{
  ℕ, ◌≡◌, refl, ap, ◌∙◌, inl, inr, Bool, true, false, not, ◌||◌, Option, none, some, List, [], ◌∷◌,
  arith, Bytes, ◌==◌, nat_eq, bytes_eq, pair_eq, if◌then◌else◌, Bool-cases, Option-cases, take,
  contains, bytes_beq_iff, get, get-insert,
}
use shield_ghita.Security.Address.{parse_ipv4, normalize_mac}
use shield_ghita.Security.Quarantine.{
  QuarantineInventory, observe, observe_all, normalized_ips, is_released,
  update_quarantine_inventory, owner_changed, same_mac,
}
use shield_ghita.Security.Quarantine.Laws.{get-retain, observe_all-SameButInventory}

-- The MAC address of the last usable observation of an address in a list, if there is one.
abbrev names_owner : Option ℕ → Option Bytes → ℕ → Option Bytes → Option Bytes
names_owner (some b) (some mac) address earlier = if b == address then some mac else earlier
names_owner _ _ address earlier = earlier

abbrev pub last_owner : ℕ → Option Bytes → List (Bytes × Bytes) → Option Bytes
last_owner address earlier [] = earlier
last_owner address earlier ((ip, mac) ∷ rest) =
    last_owner address (names_owner (parse_ipv4 ip) (normalize_mac mac) address earlier) rest

-- The test of an entry's MAC address against the current one.
abbrev pub other_owner : Option Bytes → Option Bytes → Bool
other_owner (some bound) (some current) = not (current == bound)
other_owner _ _ = false

same_mac-some : (o : Option Bytes) (mac : Bytes) → same_mac o mac ≡ true → o ≡ some mac
same_mac-some none mac h = cc
same_mac-some (some m) mac h = ap some ((bytes_beq_iff m mac).0 h)

kept_owner :
    (b address : ℕ) (m : Bytes) (seen : List (ℕ × Bytes))
    → get seen b ≡ some m
    → get seen address ≡ (if b == address then some m else get seen address)
kept_owner b address m seen h = ground (arith, moved)
  where
    moved : b ≡ address → get seen b ≡ get seen address
    moved e = ap (get seen) e

observe-get :
    (q : QuarantineInventory) (ip mac : Bytes) (address : ℕ)
    → get (observe q ip mac).0.inventory address
      ≡ names_owner (parse_ipv4 ip) (normalize_mac mac) address (get q.inventory address)
unfolding observe
observe-get q ip mac address = elim (Option-cases (normalize_mac mac)) [
  | inl e ↦ elim (Option-cases (parse_ipv4 ip)) [
    | inl p ↦ rw (e, p, observe) refl
    | inr (b, p) ↦ rw (e, p, observe) refl
  ]
  | inr (m, e) ↦ elim (Option-cases (parse_ipv4 ip)) [
    | inl p ↦ rw (e, p, observe) refl
    | inr (b, p) ↦ elim (Bool-cases (same_mac (get q.inventory b) m)) [
      | inl s ↦ rw (e, p, s, observe) (kept_owner b address m q.inventory (same_mac-some _ _ s))
      | inr s ↦ rw (e, p, s, observe) (get-insert b address m q.inventory)
    ]
  ]
]

observe_all-get :
    (q : QuarantineInventory) (seen : List (Bytes × Bytes)) (address : ℕ)
    → get (observe_all q seen).inventory address ≡ last_owner address (get q.inventory address) seen
unfolding observe_all
observe_all-get q [] address = refl
observe_all-get q ((ip, mac) ∷ seen) address =
    observe_all-get (observe q ip mac).0 seen address
    ∙ ap (λ earlier. last_owner address earlier seen) (observe-get q ip mac address)

owner_changed-other_owner :
    (q : QuarantineInventory) (address : ℕ)
    → owner_changed q address ≡ other_owner (get q.entries address) (get q.inventory address)
unfolding owner_changed
owner_changed-other_owner q address = ground arith

keep_or_drop :
    {A : Type 0} (b : Bool) (o : Option A) → (if not b then o else none) ≡ (if b then none else o)
keep_or_drop b o = ground arith

-- An inventory update keeps the quarantine of an address, with the MAC it is bound to, unless the
-- last of the first 4096 observations of the address that are usable names another MAC, or the
-- address is now one of this host or of a gateway. It adds none.
pub update_quarantine_inventory-get :
    (q : QuarantineInventory) (seen : List (Bytes × Bytes)) (self_ips gateways : List Bytes)
    (now address : ℕ)
    → get (update_quarantine_inventory q seen self_ips gateways now).entries address ≡ (
        if other_owner (get q.entries address) (last_owner address none (take 4096 seen))
          || contains (normalized_ips self_ips) address
          || contains (normalized_ips gateways) address
        then none
        else get q.entries address)
unfolding update_quarantine_inventory
update_quarantine_inventory-get q seen self_ips gateways now address =
    let cleared = record q {
      inventory = [];
      self_ips = normalized_ips self_ips;
      gateways = normalized_ips gateways;
    } in
    let observed = record (observe_all cleared (take 4096 seen)) { observed_at = some now } in
    let same = observe_all-SameButInventory cleared (take 4096 seen) in
    get-retain (λ k. not (is_released observed k)) address observed.entries
    ∙ keep_or_drop (is_released observed address) (get observed.entries address)
    ∙ ap
        (λ b.
          if b || contains observed.self_ips address || contains observed.gateways address
          then none
          else get observed.entries address)
        (owner_changed-other_owner observed address)
    ∙ rw
        (
          same.same_entries,
          same.same_self,
          same.same_gateways,
          observe_all-get cleared (take 4096 seen) address,
        )
        refl
