-- ===== src/Security/Quarantine/Requests.antt =====
-- When a quarantine request is granted, and what lifts a quarantine again.
use shield_ghita.Prelude.{
  ==_refl, List, [], ℕ, ◌+◌, ◌≤◌, ◌<◌, ◌≡◌, refl, sym, ap, ◌∙◌, ◌↔◌, inl, inr, Bool, true, false,
  not, ◌&&◌, ◌||◌, Option, none, some, arith, Bytes, ◌==◌, nat_eq, bytes_eq, pair_eq, if◌then◌else◌,
  Option-cases, is_empty, length, contains, nat_beq_iff, get, insert, remove, get-insert,
  get-remove, not_leb→lt, not_ltb→le,
}
use shield_ghita.Security.Address.{parse_ipv4, is_reserved}
use shield_ghita.Security.Quarantine.{
  QuarantineRejection, QuarantineInventory, max_quarantine_entries, quarantine_inventory_ttl,
  Requested, refused, added, is_stale, bind_mac, quarantine_address, quarantine_ip, unquarantine_ip,
  has_value, is_quarantined,
}

-- The inventory was observed at most five minutes ago.
abbrev pub IsFresh : Option ℕ → ℕ → Type 0
IsFresh none now = ⊥
IsFresh (some t) now = now ≤ t + quarantine_inventory_ttl

-- All that a new quarantine of an address needs.
pub record CanBind (q : QuarantineInventory) (address now : ℕ) (mac : Bytes) : Type 0 where
  pub unreserved : is_reserved address ≡ false
  pub not_self : contains q.self_ips address ≡ false
  pub not_gateway : contains q.gateways address ≡ false
  pub fresh : IsFresh q.observed_at now
  pub has_self : is_empty q.self_ips ≡ false
  pub has_gateway : is_empty q.gateways ≡ false
  pub known : get q.inventory address ≡ some mac
  pub unbound : get q.entries address ≡ none
  pub room : length q.entries < max_quarantine_entries

fresh_enough : (o : Option ℕ) (now : ℕ) → IsFresh o now → is_stale o now ≡ false
fresh_enough none now f = absurd f
fresh_enough (some t) now f = ground arith

not_stale : (o : Option ℕ) (now : ℕ) → is_stale o now ≡ false → IsFresh o now
not_stale none now e = cc
not_stale (some t) now e = omega (arith, not_ltb→le _ _ e)

bind_mac-adds :
    (q : QuarantineInventory) (address : ℕ) (mac : Bytes)
    → get q.entries address ≡ none
    → length q.entries < max_quarantine_entries
    → bind_mac q address (some mac)
      ≡ (record q { entries = insert address mac q.entries }, added address)
unfolding bind_mac
bind_mac-adds q address mac unbound room = rw (unbound, bind_mac) (ground (arith, room))

CanBind-adds :
    (q : QuarantineInventory) (address now : ℕ) (mac : Bytes)
    → CanBind q address now mac
    → quarantine_address q address now
      ≡ (record q { entries = insert address mac q.entries }, added address)
unfolding quarantine_address
CanBind-adds q address now mac c =
    rw
      (
        c.unreserved,
        c.not_self,
        c.not_gateway,
        fresh_enough _ _ c.fresh,
        c.has_self,
        c.has_gateway,
        c.known,
      )
      (bind_mac-adds q address mac c.unbound c.room)

not_refused :
    (b : Bool) (q : QuarantineInventory) (r : QuarantineRejection)
    (x : QuarantineInventory × Requested) (a : ℕ)
    → (if b then (q, refused r) else x).1 ≡ added a
    → (b ≡ false) × (x.1 ≡ added a)
not_refused true q r x a h = cc
not_refused false q r x a h = (refl, h)

adds_bind_mac :
    (q : QuarantineInventory) (address : ℕ) (known : Option Bytes) (a : ℕ)
    → (bind_mac q address known).1 ≡ added a
    → (mac : Bytes) × (known ≡ some mac)
      × (get q.entries address ≡ none)
      × (length q.entries < max_quarantine_entries)
      × (a ≡ address)
unfolding bind_mac
adds_bind_mac q address none a h = cc
adds_bind_mac q address (some mac) a h = elim (Option-cases (get q.entries address)) [
  | inl e ↦
      let (room, same) = not_refused _ _ _ _ _ (rw (e, bind_mac) at h) in
      (mac, refl, e, not_leb→lt _ _ room, cc)
  | inr (bound, e) ↦ absurd (let same = rw (e, bind_mac) at h in cc)
]

no_part : (a b c : Bool) → (a || b || c) ≡ false → (a ≡ false) × (b ≡ false) × (c ≡ false)
no_part a b c h = ground arith

adds-CanBind :
    (q : QuarantineInventory) (address now a : ℕ)
    → (quarantine_address q address now).1 ≡ added a
    → (mac : Bytes) × CanBind q address now mac × (a ≡ address)
unfolding quarantine_address
adds-CanBind q address now a h =
    let (unreserved, h1) = not_refused _ _ _ _ _ h in
    let (not_self, h2) = not_refused _ _ _ _ _ h1 in
    let (not_gateway, h3) = not_refused _ _ _ _ _ h2 in
    let (usable, h4) = not_refused _ _ _ _ _ h3 in
    let (mac, known, unbound, room, same) = adds_bind_mac _ _ _ _ h4 in
    (
      mac,
      record {
        unreserved = unreserved;
        not_self = not_self;
        not_gateway = not_gateway;
        fresh =
            not_stale q.observed_at now
              (no_part (is_stale q.observed_at now) (is_empty q.self_ips) (is_empty q.gateways)
                usable).0;
        has_self =
            (no_part (is_stale q.observed_at now) (is_empty q.self_ips) (is_empty q.gateways)
              usable).1;
        has_gateway =
            (no_part (is_stale q.observed_at now) (is_empty q.self_ips) (is_empty q.gateways)
              usable).2;
        known = known;
        unbound = unbound;
        room = room;
      },
      same,
    )

insert_same_mac :
    (entries : List (ℕ × Bytes)) (address : ℕ) (mac mac' : Bytes)
    → insert address mac entries ≡ insert address mac' entries
    → mac ≡ mac'
insert_same_mac entries address mac mac' h =
    some_inj (sym (found mac) ∙ ap (λ m. get m address) h ∙ found mac')
  where
    found : (m : Bytes) → get (insert address m entries) address ≡ some m
    found m = get-insert address address m entries ∙ rw (==_refl address) refl

    some_inj : some mac ≡ some mac' → mac ≡ mac'
    some_inj e = cc

-- A request for a text that parses as an address adds a quarantine exactly when the address is
-- neither reserved, nor of this host, nor a gateway, the inventory is at most five minutes old,
-- names this host and a gateway and the address's MAC, the address is not yet quarantined and fewer
-- than 256 are. The new entry then binds that MAC, and nothing else changes.
pub quarantine_ip_adds :
    (q : QuarantineInventory) (ip : Bytes) (now address a : ℕ) (mac : Bytes)
    → parse_ipv4 ip ≡ some address
    → (((quarantine_ip q ip now).1 ≡ added a)
        ↔ ((a ≡ address) × ((m : Bytes) × CanBind q address now m)))
      × ((quarantine_ip q ip now
            ≡ (record q { entries = insert address mac q.entries }, added address))
          ↔ CanBind q address now mac)
unfolding quarantine_ip
quarantine_ip_adds q ip now address a mac e =
    rw (e, quarantine_ip)
      (
        (
          λ h. let (m, c, same) = adds-CanBind q address now a h in (same, (m, c)),
          λ (same, (m, c)). ap (λ r. r.1) (CanBind-adds q address now m c) ∙ ap added (sym same),
        ),
        (
          λ h.
              let (m, c, same) = adds-CanBind q address now address (ap (λ r. r.1) h) in
              let entries =
                sym (ap (λ r. r.0) (CanBind-adds q address now m c)) ∙ ap (λ r. r.0) h in
              rw (sym (insert_same_mac q.entries address m mac (ap (λ r. r.entries) entries))) c,
          λ c. CanBind-adds q address now mac c,
        ),
      )

abbrev pub names_address : Option ℕ → ℕ → Bool
names_address none a = false
names_address (some b) a = a == b

adds_parses :
    (q : QuarantineInventory) (ip : Bytes) (now a : ℕ)
    → (quarantine_ip q ip now).1 ≡ added a
    → parse_ipv4 ip ≡ some a
unfolding quarantine_ip
adds_parses q ip now a h = elim (Option-cases (parse_ipv4 ip)) [
  | inl e ↦ absurd (let same = rw (e, quarantine_ip) at h in cc)
  | inr (b, e) ↦
      let (mac, c, same) = adds-CanBind q b now a (rw (e, quarantine_ip) at h) in
      e ∙ ap some (sym same)
]

has_value-if_some :
    (b : Bool) (mac : Bytes) (o : Option Bytes)
    → has_value (if b then some mac else o) ≡ (b || has_value o)
has_value-if_some b mac o = ground arith

has_value-if_none :
    (b : Bool) (o : Option Bytes) → has_value (if b then none else o) ≡ (not b && has_value o)
has_value-if_none b o = ground arith

is_quarantined-insert :
    (q : QuarantineInventory) (other mac : Bytes) (address : ℕ)
    → is_quarantined (record q { entries = insert address mac q.entries }) other
      ≡ (names_address (parse_ipv4 other) address || is_quarantined q other)
unfolding is_quarantined
is_quarantined-insert q other mac address = elim (Option-cases (parse_ipv4 other)) [
  | inl e ↦ rw (e, is_quarantined) refl
  | inr (b, e) ↦
      rw (e, is_quarantined, get-insert address b mac q.entries) (has_value-if_some _ _ _)
]

unquarantine_ip-remove :
    (q : QuarantineInventory) (ip : Bytes) (address : ℕ)
    → parse_ipv4 ip ≡ some address
    → unquarantine_ip q ip ≡ record q { entries = remove address q.entries }
unfolding unquarantine_ip
unquarantine_ip-remove q ip address p = rw (p, unquarantine_ip) refl

is_quarantined-remove :
    (q : QuarantineInventory) (other : Bytes) (address : ℕ)
    → is_quarantined (record q { entries = remove address q.entries }) other
      ≡ (not (names_address (parse_ipv4 other) address) && is_quarantined q other)
unfolding is_quarantined
is_quarantined-remove q other address = elim (Option-cases (parse_ipv4 other)) [
  | inl e ↦ rw (e, is_quarantined) refl
  | inr (b, e) ↦ rw (e, is_quarantined, get-remove address b q.entries) (has_value-if_none _ _)
]

is_quarantined-unbound :
    (q : QuarantineInventory) (other : Bytes) (address : ℕ)
    → get q.entries address ≡ none
    → names_address (parse_ipv4 other) address ≡ true
    → is_quarantined q other ≡ false
unfolding is_quarantined
is_quarantined-unbound q other address u h = elim (Option-cases (parse_ipv4 other)) [
  | inl e ↦ absurd (let names = rw e at h in cc)
  | inr (b, e) ↦ rw (e, is_quarantined, sym ((nat_beq_iff address b).0 (rw e at h)), u) refl
]

lifted : (names old : Bool) → (names ≡ true → old ≡ false) → (not names && (names || old)) ≡ old
lifted true old h = sym (h refl)
lifted false old h = refl

-- When a request has added a quarantine, the quarantined addresses are the old ones and the one
-- that the request named, and releasing that address restores exactly the old ones.
pub is_quarantined-quarantine_ip :
    (q : QuarantineInventory) (ip other : Bytes) (now address : ℕ)
    → (quarantine_ip q ip now).1 ≡ added address
    → (is_quarantined (quarantine_ip q ip now).0 other
        ≡ (names_address (parse_ipv4 other) address || is_quarantined q other))
      × (is_quarantined (unquarantine_ip (quarantine_ip q ip now).0 ip) other
          ≡ is_quarantined q other)
is_quarantined-quarantine_ip q ip other now address h =
    let parsed = adds_parses q ip now address h in
    let (mac, c) = ((quarantine_ip_adds q ip now address address [] parsed).0.0 h).1 in
    let bound = record q { entries = insert address mac q.entries } in
    rw ((quarantine_ip_adds q ip now address address mac parsed).1.1 c) (
      is_quarantined-insert q other mac address,
      ap (λ s. is_quarantined s other) (unquarantine_ip-remove bound ip address parsed)
          ∙ is_quarantined-remove bound other address
          ∙ ap (λ b. not (names_address (parse_ipv4 other) address) && b)
              (is_quarantined-insert q other mac address)
          ∙ lifted _ _ (is_quarantined-unbound q other address c.unbound),
    )
