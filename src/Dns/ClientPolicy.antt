-- ===== src/Dns/ClientPolicy.antt =====
-- The client modes, the pause and the block statistics of src/modules/dns/client_policy.rs. The
-- instants that a call reads, in milliseconds of Unix time, are its arguments.
pub mod Rules
pub mod Counters
use shield_ghita.Prelude.{
  ℕ, zero, suc, ◌+◌, ◌-◌, ◌*◌, ◌/◌, ◌%◌, ◌^◌, ◌≤◌, ◌<◌, ◌≡◌, refl, sym, ap, ◌∙◌, ◌↔◌, ◌⊎◌, ◌≢◌, inl,
  inr, Bool, true, false, not, ◌&&◌, ◌||◌, Option, none, some, List, [], ◌∷◌, ◌++◌, map, arith,
  Bytes, Key, ◌==◌, nat_eq, bytes_eq, pair_eq, ltb, leb, if◌then◌else◌, Bool-cases, Option-cases,
  is_empty, any, all, max, min, length, take, drop, get_elem?, contains, set_insert, set_remove,
  retain, IsIn, any-intro, any-elim, contains-IsIn, IsIn-contains, IsIn-retain, retain-IsIn,
  contains-set_insert, contains-set_remove, nat_beq_iff, bytes_beq_iff, ==_refl, ||-eq-true,
  &&-eq-true, get, insert, remove, get-insert, get-remove, length-insert-le, length-remove-le,
  length-retain-le, length-append, length-take, length-drop, tests, take-append_length,
  drop-append_length, insert_by_rank, sort_by_rank, remove_all, length-insert_by_rank,
  insert_by_rank-IsIn, length-sort_by_rank, sort_by_rank-IsIn, length-remove-lt,
  length-remove_all-le, remove_some, remove_all-IsIn, remove_all-IsUnique, not_ltb→le, not_leb→lt,
  ltb→lt, le→leb, IsUnique, insert-IsIn, remove-IsIn, get-IsIn, IsIn-get, insert-IsUnique,
  remove-IsUnique, retain-IsUnique, map-IsIn, IsIn-map,
}
use shield_ghita.Text.{codes, trim}

pub data ClientMode : Type 0 where
  default_mode trusted strict : ClientMode

abbrev pub ClientMode_id : ClientMode → ℕ
ClientMode_id default_mode = 0
ClientMode_id trusted = 1
ClientMode_id strict = 2

-- `from_id`, on identifiers that are not negative.
abbrev pub ClientMode_from_id : ℕ → Option ClientMode
ClientMode_from_id id =
    if id == 0
    then some default_mode
    else if id == 1
    then some trusted
    else if id == 2
    then some strict
    else none

abbrev pub as_str : ClientMode → Bytes
as_str default_mode = codes "default"
as_str trusted = codes "trusted"
as_str strict = codes "strict"

unfoldable pub from_str : Bytes → Option ClientMode
from_str value =
    if value == codes "default"
    then some default_mode
    else if value == codes "trusted"
    then some trusted
    else if value == codes "strict"
    then some strict
    else none

-- The keys of the rules stand for addresses, of a type with a test of equality.
pub record AdBlockControls (Address : Type 0) : Type 0 where
  pub pause_until_ms : ℕ
  pub client_rules : List (Address × ClientMode)
  pub total_blocked : ℕ
  pub stats_day : ℕ
  pub blocked_domains : List (Bytes × ℕ)
  pub blocked_clients : List (Bytes × ℕ)
  pub hourly : List (ℕ × ℕ)

abbrev pub max_u64 : ℕ
max_u64 = 0xFFFFFFFFFFFFFFFF

-- `u64::saturating_add` and `u64::saturating_mul`
abbrev pub saturating_add : ℕ → ℕ → ℕ
saturating_add a b = min (a + b) max_u64

abbrev pub saturating_mul : ℕ → ℕ → ℕ
saturating_mul a b = min (a * b) max_u64

abbrev insert_by_count : Bytes × ℕ → List (Bytes × ℕ) → List (Bytes × ℕ)
insert_by_count x [] = x ∷ []
insert_by_count x (y ∷ ys) = if leb y.1 x.1 then x ∷ y ∷ ys else y ∷ insert_by_count x ys

-- The largest counts first. The source's sort leaves the order of equal counts open.
abbrev pub sort_by_count : List (Bytes × ℕ) → List (Bytes × ℕ)
sort_by_count [] = []
sort_by_count (x ∷ xs) = insert_by_count x (sort_by_count xs)

abbrev pub count_of : Option ℕ → ℕ
count_of none = 0
count_of (some n) = n

-- Over the cap, the larger half stays.
unfoldable pub bump_entry : List (Bytes × ℕ) → Bytes → ℕ → List (Bytes × ℕ)
bump_entry m key cap =
    let bumped = insert key (saturating_add (count_of (get m key)) 1) m in
    if ltb cap (length bumped) then take (cap / 2) (sort_by_count bumped) else bumped

unfoldable pub top_entries : List (Bytes × ℕ) → ℕ → List (Bytes × ℕ)
top_entries m n = take n (sort_by_count m)

abbrev pub bump_hour : List (ℕ × ℕ) → ℕ → List (ℕ × ℕ)
bump_hour [] hour = []
bump_hour ((bucket, count) ∷ hourly) hour =
    if bucket == hour
    then (bucket, saturating_add count 1) ∷ hourly
    else (bucket, count) ∷ bump_hour hourly hour

abbrev pub add_hour : List (ℕ × ℕ) → ℕ → List (ℕ × ℕ)
add_hour hourly hour =
    let added = hourly ++ ((hour, 1) ∷ []) in if ltb 48 (length added) then drop 1 added else added

unfoldable pub count_hour : List (ℕ × ℕ) → ℕ → List (ℕ × ℕ)
count_hour hourly hour =
    if any (λ entry. entry.0 == hour) hourly then bump_hour hourly hour else add_hour hourly hour

abbrev pub mode_or_default : Option ClientMode → ClientMode
mode_or_default none = default_mode
mode_or_default (some mode) = mode

-- A rule of the configuration: the address as text, a bar, the mode.
abbrev pub split_once : ℕ → Bytes → Option (Bytes × Bytes)
split_once sep [] = none
split_once sep (b ∷ s) =
    let rest = split_once sep s in
    if b == sep then some ([], s) else elim rest [ none ↦ none | some p ↦ some (b ∷ p.0, p.1) ]

module _ {Address : Type 0} where
  abbrev pub AdBlockControls_new : AdBlockControls Address
  AdBlockControls_new = record {
    pause_until_ms = 0;
    client_rules = [];
    total_blocked = 0;
    stats_day = 0;
    blocked_domains = [];
    blocked_clients = [];
    hourly = [];
  }

  abbrev pub pause_minutes : AdBlockControls Address → ℕ → ℕ → AdBlockControls Address
  pause_minutes c minutes now = record c {
    pause_until_ms = saturating_add now (saturating_mul minutes 60000);
  }

  abbrev pub resume : AdBlockControls Address → AdBlockControls Address
  resume c = record c { pause_until_ms = 0 }

  abbrev pub pause_remaining_secs : AdBlockControls Address → ℕ → ℕ
  pause_remaining_secs c now = (c.pause_until_ms - now) / 1000

  abbrev pub is_paused : AdBlockControls Address → ℕ → Bool
  is_paused c now = ltb 0 (pause_remaining_secs c now)

  -- What a new day does to the statistics. The counts by domain go on.
  unfoldable pub start_day : AdBlockControls Address → ℕ → AdBlockControls Address
  start_day c day =
      if c.stats_day == day
      then c
      else record c { stats_day = day; total_blocked = 0; hourly = []; blocked_clients = [] }

  unfoldable pub record_block :
      AdBlockControls Address → Bytes → Bytes → ℕ → AdBlockControls Address
  record_block c domain client_ip now =
      let today = start_day c (now / 86400000) in
      record today {
        total_blocked = (today.total_blocked + 1) % 0x10000000000000000;
        hourly = count_hour today.hourly (now / 3600000);
        blocked_domains = bump_entry today.blocked_domains domain 512;
        blocked_clients = bump_entry today.blocked_clients client_ip 128;
      }

  abbrev pub clear_stats : AdBlockControls Address → AdBlockControls Address
  clear_stats c = record c {
    total_blocked = 0;
    blocked_domains = [];
    blocked_clients = [];
    hourly = [];
  }

module _ {Address : Type 0} ⦃key : Key Address⦄ where
  abbrev pub mode_for_client : AdBlockControls Address → Address → ClientMode
  mode_for_client c ip = mode_or_default (get c.client_rules ip)

  unfoldable pub set_client_rule :
      AdBlockControls Address → Address → ClientMode → AdBlockControls Address
  set_client_rule c ip default_mode = record c { client_rules = remove ip c.client_rules }
  set_client_rule c ip trusted = record c { client_rules = insert ip trusted c.client_rules }
  set_client_rule c ip strict = record c { client_rules = insert ip strict c.client_rules }

  abbrev pub remove_client_rule : AdBlockControls Address → Address → AdBlockControls Address
  remove_client_rule c ip = record c { client_rules = remove ip c.client_rules }

  -- `IpAddr`'s printing and parsing are parameters.
  module _ (show_address : Address → Bytes) (parse_address : Bytes → Option Address) where
    unfoldable pub rules_config : AdBlockControls Address → List Bytes
    rules_config c = map (λ rule. show_address rule.0 ++ (b'|' ∷ as_str rule.1)) c.client_rules

    abbrev pub parsed_rule : Option Address → Option ClientMode → Option (Address × ClientMode)
    parsed_rule (some ip) (some mode) = some (ip, mode)
    parsed_rule _ _ = none

    abbrev pub parse_rule : Option (Bytes × Bytes) → Option (Address × ClientMode)
    parse_rule none = none
    parse_rule (some (ip_part, mode_part)) =
        parsed_rule (parse_address (trim ip_part)) (from_str (trim mode_part))

    unfoldable pub load_rules :
        List Bytes → List (Address × ClientMode) → List (Address × ClientMode)
    load_rules [] rules = rules
    load_rules (entry ∷ entries) rules = elim (parse_rule (split_once b'|' entry)) [
      | none ↦ load_rules entries rules
      | some (ip, mode) ↦ load_rules entries (insert ip mode rules)
    ]

    abbrev pub load_rules_config : AdBlockControls Address → List Bytes → AdBlockControls Address
    load_rules_config c entries = record c { client_rules = load_rules entries [] }
