-- ===== src/Security/Quarantine/Laws.antt =====
-- What the quarantine of src/modules/security/mod.rs guarantees.
use shield_ghita.Prelude.{
  ℕ, ◌≤◌, ◌≡◌, refl, sym, ap, ◌∙◌, inl, inr, Bool, true, false, not, ◌||◌, Option, none, some, List,
  [], ◌∷◌, arith, Bytes, ◌==◌, nat_eq, bytes_eq, pair_eq, leb, if◌then◌else◌, Bool-cases,
  Option-cases, is_empty, length, take, contains, retain, nat_beq_iff, get, get-insert, get-remove,
  length-insert-le, length-remove-le, length-retain-le, tests, not_leb→lt,
}
use shield_ghita.Security.Address.{parse_ipv4, is_reserved}
use shield_ghita.Security.Quarantine.{
  QuarantineInventory, QuarantineInventory_default, max_quarantine_entries, observe, observe_all,
  normalized_ips, is_released, update_quarantine_inventory, is_stale, bind_mac, quarantine_address,
  quarantine_ip, unquarantine_ip,
}

-- A retained map, by a test on its keys.
pub get-retain :
    {V : Type 0} (p : ℕ → Bool) (k : ℕ) (m : List (ℕ × V))
    → get (retain (λ entry. p entry.0) m) k ≡ (if p k then get m k else none)
get-retain p k [] = ground arith
get-retain p k ((j, v) ∷ m) = ground (arith, nat_beq_iff j k, ap p, get-retain p k m)

pub record SameButInventory (q q' : QuarantineInventory) : Type 0 where
  pub same_entries : q'.entries ≡ q.entries
  pub same_self : q'.self_ips ≡ q.self_ips
  pub same_gateways : q'.gateways ≡ q.gateways

observe-SameButInventory :
    (q : QuarantineInventory) (ip mac : Bytes) → SameButInventory q (observe q ip mac).0
unfolding observe
observe-SameButInventory q ip mac = ground arith

pub observe_all-SameButInventory :
    (q : QuarantineInventory) (seen : List (Bytes × Bytes))
    → SameButInventory q (observe_all q seen)
unfolding observe_all
observe_all-SameButInventory q [] = record {
  same_entries = refl;
  same_self = refl;
  same_gateways = refl;
}
observe_all-SameButInventory q ((ip, mac) ∷ seen) =
    let first = observe-SameButInventory q ip mac in
    let rest = observe_all-SameButInventory (observe q ip mac).0 seen in
    record {
      same_entries = rest.same_entries ∙ first.same_entries;
      same_self = rest.same_self ∙ first.same_self;
      same_gateways = rest.same_gateways ∙ first.same_gateways;
    }

-- No more entries than the cap, and none for this host or a gateway.
pub record IsGuarded (q : QuarantineInventory) : Type 0 where
  pub bounded : length q.entries ≤ max_quarantine_entries
  pub protected :
      (address : ℕ) (mac : Bytes)
      → get q.entries address ≡ some mac
      → (contains q.self_ips address ≡ false) × (contains q.gateways address ≡ false)

-- The calls that change the inventory, each with its time.
pub data QuarantineCall : Type 0 where
  updates : List (Bytes × Bytes) → List Bytes → List Bytes → QuarantineCall
  requests : Bytes → QuarantineCall
  releases : Bytes → QuarantineCall

unfoldable pub quarantine_call : QuarantineInventory → ℕ × QuarantineCall → QuarantineInventory
quarantine_call q (now, updates seen self_ips gateways) =
    update_quarantine_inventory q seen self_ips gateways now
quarantine_call q (now, requests ip) = (quarantine_ip q ip now).0
quarantine_call q (now, releases ip) = unquarantine_ip q ip

unfoldable pub quarantine_calls :
    QuarantineInventory → List (ℕ × QuarantineCall) → QuarantineInventory
quarantine_calls q [] = q
quarantine_calls q (c ∷ cs) = quarantine_calls (quarantine_call q c) cs

if-none-some :
    {A : Type 0} (b : Bool) (o : Option A) (a : A)
    → (if b then o else none) ≡ some a
    → (b ≡ true) × (o ≡ some a)
if-none-some true o a h = (refl, h)
if-none-some false o a h = cc

-- What is retained of a map was in it.
get-retain-some :
    {V : Type 0} (p : ℕ → Bool) (k : ℕ) (v : V) (m : List (ℕ × V))
    → get (retain (λ entry. p entry.0) m) k ≡ some v
    → (p k ≡ true) × (get m k ≡ some v)
get-retain-some p k v m h = if-none-some _ _ _ (sym (get-retain p k m) ∙ h)

not_released :
    (q : QuarantineInventory) (address : ℕ)
    → not (is_released q address) ≡ true
    → (contains q.self_ips address ≡ false) × (contains q.gateways address ≡ false)
not_released q address h = ground arith

update-IsGuarded :
    (q : QuarantineInventory) (seen : List (Bytes × Bytes)) (self_ips gateways : List Bytes)
    (now : ℕ)
    → IsGuarded q
    → IsGuarded (update_quarantine_inventory q seen self_ips gateways now)
unfolding update_quarantine_inventory
update-IsGuarded q seen self_ips gateways now v =
    let cleared = record q {
      inventory = [];
      self_ips = normalized_ips self_ips;
      gateways = normalized_ips gateways;
    } in
    let observed = record (observe_all cleared (take 4096 seen)) { observed_at = some now } in
    record {
      bounded = omega (
        arith,
        v.bounded,
        length-retain-le (λ entry. not (is_released observed entry.0)) observed.entries,
        ap length (observe_all-SameButInventory cleared (take 4096 seen)).same_entries,
      );
      protected = λ address mac h.
          not_released observed address
            (get-retain-some (λ k. not (is_released observed k)) address mac observed.entries h).0;
    }

unquarantine-IsGuarded :
    (q : QuarantineInventory) (ip : Bytes) → IsGuarded q → IsGuarded (unquarantine_ip q ip)
unfolding unquarantine_ip
unquarantine-IsGuarded q ip v = elim (Option-cases (parse_ipv4 ip)) [
  | inl e ↦ rw (e, unquarantine_ip) v
  | inr (address, e) ↦
      rw (e, unquarantine_ip)
        (record {
          bounded = omega (arith, v.bounded, length-remove-le address q.entries);
          protected = λ a mac h. v.protected a mac (ground (arith, get-remove address a q.entries));
        })
]

bind_mac-IsGuarded :
    (q : QuarantineInventory) (address : ℕ) (known : Option Bytes)
    → contains q.self_ips address ≡ false
    → contains q.gateways address ≡ false
    → IsGuarded q
    → IsGuarded (bind_mac q address known).0
unfolding bind_mac
bind_mac-IsGuarded q address none s g v = v
bind_mac-IsGuarded q address (some mac) s g v = elim (Option-cases (get q.entries address)) [
  | inl e ↦ elim (Bool-cases (leb max_quarantine_entries (length q.entries))) [
    | inl full ↦ rw (e, full, bind_mac) v
    | inr room ↦
        rw (e, room, bind_mac)
          (record {
            bounded =
                omega (tests, room, length-insert-le address mac q.entries, not_leb→lt _ _ room);
            protected = λ a m h. elim (Bool-cases (address == a)) [
              | inl here ↦ rw (sym ((nat_beq_iff address a).0 here)) (s, g)
              | inr there ↦ v.protected a m (ground (arith, get-insert address a mac q.entries))
            ];
          })
  ]
  | inr (bound, e) ↦ rw (e, bind_mac) v
]

quarantine_address-IsGuarded :
    (q : QuarantineInventory) (address now : ℕ)
    → IsGuarded q
    → IsGuarded (quarantine_address q address now).0
unfolding quarantine_address
quarantine_address-IsGuarded q address now v = elim (Bool-cases (is_reserved address)) [
  | inl e ↦ rw e v
  | inr e ↦ elim (Bool-cases (contains q.self_ips address)) [
    | inl s ↦ rw (e, s) v
    | inr s ↦ elim (Bool-cases (contains q.gateways address)) [
      | inl g ↦ rw (e, s, g) v
      | inr g ↦
          elim (Bool-cases
            (is_stale q.observed_at now || is_empty q.self_ips || is_empty q.gateways)) [
              | inl o ↦ rw (e, s, g, o) v
              | inr o ↦
                  rw (e, s, g, o) (bind_mac-IsGuarded q address (get q.inventory address) s g v)
            ]
    ]
  ]
]

quarantine_ip-IsGuarded :
    (q : QuarantineInventory) (ip : Bytes) (now : ℕ)
    → IsGuarded q
    → IsGuarded (quarantine_ip q ip now).0
unfolding quarantine_ip
quarantine_ip-IsGuarded q ip now v = elim (Option-cases (parse_ipv4 ip)) [
  | inl e ↦ rw (e, quarantine_ip) v
  | inr (address, e) ↦ rw (e, quarantine_ip) (quarantine_address-IsGuarded q address now v)
]

pub quarantine_call-IsGuarded :
    (q : QuarantineInventory) (c : ℕ × QuarantineCall)
    → IsGuarded q
    → IsGuarded (quarantine_call q c)
unfolding quarantine_call
quarantine_call-IsGuarded q (now, updates seen self_ips gateways) v =
    update-IsGuarded q seen self_ips gateways now v
quarantine_call-IsGuarded q (now, requests ip) v = quarantine_ip-IsGuarded q ip now v
quarantine_call-IsGuarded q (now, releases ip) v = unquarantine-IsGuarded q ip v

quarantine_calls_from :
    (q : QuarantineInventory) (cs : List (ℕ × QuarantineCall))
    → IsGuarded q
    → IsGuarded (quarantine_calls q cs)
unfolding quarantine_calls
quarantine_calls_from q [] v = v
quarantine_calls_from q (c ∷ cs) v =
    quarantine_calls_from (quarantine_call q c) cs (quarantine_call-IsGuarded q c v)

-- Whatever inventory updates, quarantine requests and releases the engine has received since it
-- started, in any order and at any times, at most 256 addresses are quarantined, and none of them
-- is an address of this host or a gateway of the last inventory.
pub quarantine_calls-IsGuarded :
    (cs : List (ℕ × QuarantineCall)) → IsGuarded (quarantine_calls QuarantineInventory_default cs)
quarantine_calls-IsGuarded cs =
    quarantine_calls_from QuarantineInventory_default cs
      (record { bounded = omega arith; protected = λ a m h. cc })
