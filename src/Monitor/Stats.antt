-- ===== src/Monitor/Stats.antt =====
-- The counters of blocked queries by day and week, src/modules/stats.rs. The calendar and the instants
-- that a call reads are its arguments.
use shield_ghita.Prelude.{
  ℕ, ◌+◌, ◌-◌, ◌*◌, ◌%◌, Bool, true, false, not, Option, none, some, Bytes, ◌==◌, nat_eq, bytes_eq,
  pair_eq, ltb, if◌then◌else◌,
}

pub record BlockStats : Type 0 where
  pub current_day : Bytes
  pub current_week : ℕ
  pub day_count : ℕ
  pub week_count : ℕ
  pub dirty : Bool
  pub last_period_check : ℕ

-- What a call reads: the instant, the day, and the year and ISO week in one number.
pub record Today : Type 0 where
  pub now : ℕ
  pub day : Bytes
  pub week : ℕ

-- `week_key`, of the ISO year and week.
abbrev pub week_key : ℕ → ℕ → ℕ
week_key year week = year * 100 + week

pub record StatsFile : Type 0 where
  pub day : Bytes
  pub week : ℕ
  pub day_count : ℕ
  pub week_count : ℕ

abbrev pub saved_day_count : Today → Option StatsFile → ℕ
saved_day_count t none = 0
saved_day_count t (some saved) = if saved.day == t.day then saved.day_count else 0

abbrev pub saved_week_count : Today → Option StatsFile → ℕ
saved_week_count t none = 0
saved_week_count t (some saved) = if saved.week == t.week then saved.week_count else 0

-- The file as it was read and parsed.
unfoldable pub load_stats : Option StatsFile → Today → BlockStats
load_stats saved t = record {
  current_day = t.day;
  current_week = t.week;
  day_count = saved_day_count t saved;
  week_count = saved_week_count t saved;
  dirty = false;
  last_period_check = t.now - 2000;
}

abbrev pub roll_day : BlockStats → Bytes → BlockStats
roll_day s today =
    if s.current_day == today
    then s
    else record s { current_day = today; day_count = 0; dirty = true }

abbrev pub roll_week : BlockStats → ℕ → BlockStats
roll_week s week =
    if s.current_week == week
    then s
    else record s { current_week = week; week_count = 0; dirty = true }

-- The calendar is read at most once a second.
unfoldable pub roll_if_new_period : BlockStats → Today → BlockStats
roll_if_new_period s t =
    if ltb (t.now - s.last_period_check) 1000
    then s
    else roll_week (roll_day (record s { last_period_check = t.now }) t.day) t.week

unfoldable pub record_stats_block : BlockStats → Today → BlockStats
record_stats_block s t =
    let rolled = roll_if_new_period s t in
    record rolled {
      day_count = (rolled.day_count + 1) % 0x10000000000000000;
      week_count = (rolled.week_count + 1) % 0x10000000000000000;
      dirty = true;
    }

abbrev pub snapshot : BlockStats → StatsFile
snapshot s = record {
  day = s.current_day;
  week = s.current_week;
  day_count = s.day_count;
  week_count = s.week_count;
}

-- The file that is written, if any. A failed write leaves the counters dirty.
unfoldable pub flush_if_dirty : BlockStats → Bool → BlockStats × Option StatsFile
flush_if_dirty s write_succeeds =
    if not s.dirty
    then (s, none)
    else if write_succeeds
    then (record s { dirty = false }, some (snapshot s))
    else (s, none)
