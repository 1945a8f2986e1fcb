-- ===== src/Monitor/Activity.antt =====
-- The activity of each device, `activity_map` of src/modules/monitor/lan_scanner.rs.
use shield_ghita.Prelude.{
  ℕ, ◌+◌, ◌-◌, ◌%◌, Bool, true, false, Option, none, some, List, [], ◌∷◌, Bytes, nat_eq, bytes_eq,
  pair_eq, ltb, if◌then◌else◌, length, drop, get, insert,
}

pub record Activity : Type 0 where
  pub total_queries : ℕ
  pub blocked_queries : ℕ
  pub threats : ℕ
  pub last_domain : Bytes
  pub last_active : Bytes

abbrev pub ActivityMap : Type 0
ActivityMap = List (Bytes × Activity)

abbrev pub no_activity : Activity
no_activity = record {
  total_queries = 0;
  blocked_queries = 0;
  threats = 0;
  last_domain = b'-' ∷ [];
  last_active = b'-' ∷ [];
}

abbrev or_no_activity : Option Activity → Activity
or_no_activity none = no_activity
or_no_activity (some a) = a

abbrev pub add_one_if : Bool → ℕ → ℕ
add_one_if true n = (n + 1) % 0x10000000000000000
add_one_if false n = n

-- Over 4096 devices, the first ones in the iteration order go, down to 3072.
unfoldable pub shed_activity : ActivityMap → ActivityMap
shed_activity m = if ltb 4096 (length m) then drop (length m - 3072) m else m

unfoldable pub record_activity : ActivityMap → Bytes → Bytes → Bool → Bool → Bytes → ActivityMap
record_activity m ip domain is_blocked is_threat time =
    let shed = shed_activity m in
    let a = or_no_activity (get shed ip) in
    insert ip
      (record {
        total_queries = add_one_if true a.total_queries;
        blocked_queries = add_one_if is_blocked a.blocked_queries;
        threats = add_one_if is_threat a.threats;
        last_domain = domain;
        last_active = time;
      })
      shed
