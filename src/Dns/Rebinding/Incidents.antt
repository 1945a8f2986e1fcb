-- ===== src/Dns/Rebinding/Incidents.antt =====
-- How often the rebinding guard of src/modules/dns/mod.rs records an incident.
use shield_ghita.Prelude.{
  ℕ, suc, ◌-◌, ◌/◌, ◌≤◌, ◌<◌, ◌≡◌, refl, sym, ◌∙◌, inl, inr, Bool, true, false, not, Option, none,
  some, List, arith, Bytes, nat_eq, bytes_eq, pair_eq, ltb, leb, if◌then◌else◌, Bool-cases, length,
  take, retain, ==_refl, get, insert, get-insert, length-insert-le, length-retain-le, sort_by_rank,
  remove_all, length-sort_by_rank, sort_by_rank-IsIn, remove_some, not_leb→lt, leb→le,
}

-- The pairs of a source and a name, each with the instant of its last incident.
abbrev pub RebindCooldown : Type 0
RebindCooldown = List ((Bytes × Bytes) × ℕ)

abbrev pub rebind_incident_cooldown : ℕ
rebind_incident_cooldown = 60000

abbrev pub max_rebind_cooldowns : ℕ
max_rebind_cooldowns = 1024

abbrev pub is_cooling : ℕ → Option ℕ → Bool
is_cooling now none = false
is_cooling now (some last) = ltb (now - last) rebind_incident_cooldown

abbrev pub oldest_pairs : RebindCooldown → List ((Bytes × Bytes) × ℕ)
oldest_pairs cd = take (length cd / 4) (sort_by_rank cd)

-- A full map first loses the pairs whose cooldown is over, and then, if it is still full, its oldest
-- quarter.
unfoldable pub make_room : RebindCooldown → ℕ → RebindCooldown
make_room cd now =
    let cooling = retain (λ entry. ltb (now - entry.1) rebind_incident_cooldown) cd in
    if leb max_rebind_cooldowns (length cd)
    then (if leb max_rebind_cooldowns (length cooling)
        then remove_all (oldest_pairs cooling) cooling
        else cooling)
    else cd

-- The result is true when an incident may be recorded.
unfoldable pub take_rebind_incident_slot :
    RebindCooldown → Bytes → Bytes → ℕ → RebindCooldown × Bool
take_rebind_incident_slot cd src_ip query_name now =
    if is_cooling now (get cd (src_ip, query_name))
    then (cd, false)
    else (insert (src_ip, query_name) now (make_room cd now), true)

sheds :
    (cd : RebindCooldown)
    → max_rebind_cooldowns ≤ length cd
    → length (remove_all (oldest_pairs cd) cd) < length cd
sheds cd full = rw quarter (
    remove_some (length cd / 4 - 1) (sort_by_rank cd) cd (λ y i. (y.1, sort_by_rank-IsIn cd y i))
      (omega (arith, full, length-sort_by_rank cd)))
  where
    quarter : length cd / 4 ≡ suc (length cd / 4 - 1)
    quarter = omega (arith, full)

length-make_room-lt :
    (cd : RebindCooldown) (now : ℕ)
    → length cd ≤ max_rebind_cooldowns
    → length (make_room cd now) < max_rebind_cooldowns
unfolding make_room
length-make_room-lt cd now bound =
    let fresh : (Bytes × Bytes) × ℕ → Bool =
      λ entry. ltb (now - entry.1) rebind_incident_cooldown in
    elim (Bool-cases (leb max_rebind_cooldowns (length cd))) [
      | inr room ↦ rw room (not_leb→lt _ _ room)
      | inl full ↦ elim (Bool-cases (leb max_rebind_cooldowns (length (retain fresh cd)))) [
        | inr few ↦ rw (full, few) (not_leb→lt _ _ few)
        | inl many ↦
            rw (full, many)
              (omega (
                arith,
                bound,
                length-retain-le fresh cd,
                sheds (retain fresh cd) (leb→le _ _ many),
              ))
      ]
    ]

slot_free :
    (cd : RebindCooldown) (src_ip query_name : Bytes) (now : ℕ)
    → (take_rebind_incident_slot cd src_ip query_name now).1
      ≡ not (is_cooling now (get cd (src_ip, query_name)))
unfolding take_rebind_incident_slot
slot_free cd src_ip query_name now =
    elim (Bool-cases (is_cooling now (get cd (src_ip, query_name)))) [
      | inl cools ↦ rw cools refl
      | inr free ↦ rw free refl
    ]

slot_taken :
    (cd : RebindCooldown) (src_ip query_name : Bytes) (now : ℕ)
    → is_cooling now (get cd (src_ip, query_name)) ≡ false
    → (take_rebind_incident_slot cd src_ip query_name now).0
      ≡ insert (src_ip, query_name) now (make_room cd now)
unfolding take_rebind_incident_slot
slot_taken cd src_ip query_name now free = rw free refl

opposite_of_true : (b : Bool) → not b ≡ true → b ≡ false
opposite_of_true b h = ground arith

opposite : (elapsed : ℕ) → not (ltb elapsed 60000) ≡ leb 60000 elapsed
opposite elapsed = ground arith

pub take_rebind_incident_slot_cap :
    (cd : RebindCooldown) (src_ip query_name : Bytes) (now : ℕ)
    → length cd ≤ max_rebind_cooldowns
    → length (take_rebind_incident_slot cd src_ip query_name now).0 ≤ max_rebind_cooldowns
unfolding take_rebind_incident_slot
take_rebind_incident_slot_cap cd src_ip query_name now bound =
    elim (Bool-cases (is_cooling now (get cd (src_ip, query_name)))) [
      | inl cools ↦ rw cools bound
      | inr free ↦ rw free (
          omega (
            arith,
            length-make_room-lt cd now bound,
            length-insert-le (src_ip, query_name) now (make_room cd now),
          ))
    ]

-- The map of cooldowns never grows over its cap. After an incident for a source and a name, none is
-- recorded for the same pair in the cooldown that follows, if no other call comes between, and the
-- next one is afterwards.
pub take_rebind_incident_slot_once :
    (cd : RebindCooldown) (src_ip query_name : Bytes) (now t : ℕ)
    → length cd ≤ max_rebind_cooldowns
    → (take_rebind_incident_slot cd src_ip query_name now).1 ≡ true
    → (length (take_rebind_incident_slot cd src_ip query_name now).0 ≤ max_rebind_cooldowns)
      × ((take_rebind_incident_slot
            (take_rebind_incident_slot cd src_ip query_name now).0
            src_ip
            query_name
            t).1
          ≡ leb rebind_incident_cooldown (t - now))
take_rebind_incident_slot_once cd src_ip query_name now t bound granted =
    let pair : Bytes × Bytes = (src_ip, query_name) in
    let room = make_room cd now in
    let taken =
      slot_taken cd src_ip query_name now
        (opposite_of_true _ (sym (slot_free cd src_ip query_name now) ∙ granted)) in
    rw taken (
      omega (arith, length-make_room-lt cd now bound, length-insert-le pair now room),
      slot_free (insert pair now room) src_ip query_name t
          ∙ rw (get-insert pair pair now room, ==_refl pair) (opposite (t - now)),
    )
