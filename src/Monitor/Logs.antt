-- ===== src/Monitor/Logs.antt =====
-- The query log of src/modules/monitor/mod.rs: `logs`, the filtered view of it, and its exports.
use shield_ghita.Prelude.{
  ℕ, ◌+◌, ◌-◌, ◌%◌, Bool, true, false, not, ◌&&◌, ◌||◌, Option, none, some, List, [], ◌∷◌, ◌++◌,
  map, Bytes, nat_eq, bytes_eq, pair_eq, ltb, leb, if◌then◌else◌, is_empty, length, take, drop,
  retain, get, insert,
}
use shield_ghita.Text.{codes, trim, to_lowercase, contains_text}
use shield_ghita.Monitor.Csv.{csv_line}

pub record LogEntry : Type 0 where
  pub timestamp : Bytes
  pub domain : Bytes
  pub source_ip : Bytes
  pub is_blocked : Bool

-- The newest entry stands first.
pub record QueryLog : Type 0 where
  pub logs : List LogEntry
  pub filtered_cache : Option (List LogEntry)
  pub logs_version : ℕ
  pub max_logs : ℕ

abbrev pub QueryLog_new : ℕ → QueryLog
QueryLog_new max_logs = record {
  logs = [];
  filtered_cache = none;
  logs_version = 1;
  max_logs = max_logs;
}

abbrev pub next_version : QueryLog → ℕ
next_version l = (l.logs_version + 1) % 0x10000000000000000

-- Entries beyond the limit leave at the back.
unfoldable pub push_log : QueryLog → LogEntry → QueryLog
push_log l entry = record l {
  logs = take l.max_logs (entry ∷ l.logs);
  filtered_cache = none;
  logs_version = next_version l;
}

abbrev pub get_logs : QueryLog → List LogEntry
get_logs l = elim l.filtered_cache [ none ↦ l.logs | some filtered ↦ filtered ]

abbrev pub is_like : Option Bool → Bool → Bool
is_like none blocked = true
is_like (some b) blocked = if b then blocked else not blocked

abbrev pub passes_filter : Bytes → Bytes → Option Bool → LogEntry → Bool
passes_filter fd fip filter_blocked entry =
    (is_empty fd || contains_text fd (to_lowercase entry.domain))
    && (is_empty fip || contains_text fip entry.source_ip)
    && is_like filter_blocked entry.is_blocked

abbrev pub is_no_filter : Bytes → Bytes → Option Bool → Bool
is_no_filter filter_domain filter_ip none = is_empty filter_domain && is_empty filter_ip
is_no_filter filter_domain filter_ip (some b) = false

unfoldable pub apply_filter : QueryLog → Bytes → Bytes → Option Bool → QueryLog
apply_filter l filter_domain filter_ip filter_blocked =
    if is_no_filter filter_domain filter_ip filter_blocked
    then record l { filtered_cache = none }
    else record l {
      filtered_cache = some (
          retain (passes_filter (to_lowercase (trim filter_domain)) (trim filter_ip) filter_blocked)
            l.logs);
      logs_version = next_version l;
    }

abbrev pub clear_filter : QueryLog → QueryLog
clear_filter l = record l { filtered_cache = none }

abbrev pub clear_logs : QueryLog → QueryLog
clear_logs l = record l { logs = []; filtered_cache = none; logs_version = next_version l }

-- The entries of the file: the last ones stay.
abbrev pub load_logs : QueryLog → List LogEntry → QueryLog
load_logs l entries = record l { logs = drop (length entries - l.max_logs) entries }

abbrev show_flag : Bool → Bytes
show_flag true = codes "true"
show_flag false = codes "false"

abbrev pub log_lines : List LogEntry → Bytes
log_lines [] = []
log_lines (entry ∷ logs) =
    csv_line (entry.timestamp ∷ entry.domain ∷ entry.source_ip ∷ [])
      (show_flag entry.is_blocked ∷ [])
    ++ log_lines logs

abbrev pub log_header : Bytes
log_header = codes "timestamp,domain,source_ip,is_blocked" ++ 10 ∷ []

-- The text that `export_logs_csv` writes.
unfoldable pub logs_csv : QueryLog → Bytes
logs_csv l = log_header ++ log_lines l.logs

pub record DomainLogGroup : Type 0 where
  pub domain : Bytes
  pub total_queries : ℕ
  pub blocked_queries : ℕ
  pub is_blocked : Bool
  pub last_seen : Bytes
  pub last_ip : Bytes

pub record Tallied : Type 0 where
  pub total : ℕ
  pub blocked : ℕ
  pub last_seen : Bytes
  pub last_ip : Bytes

abbrev first_seen : LogEntry → Tallied
first_seen entry = record {
  total = 0;
  blocked = 0;
  last_seen = entry.timestamp;
  last_ip = entry.source_ip;
}

abbrev or_first : LogEntry → Option Tallied → Tallied
or_first entry none = first_seen entry
or_first entry (some t) = t

abbrev pub count_entry : LogEntry → Tallied → Tallied
count_entry entry t = record t {
  total = t.total + 1;
  blocked = if entry.is_blocked then t.blocked + 1 else t.blocked;
}

unfoldable pub tally_logs : List LogEntry → List (Bytes × Tallied) → List (Bytes × Tallied)
tally_logs [] groups = groups
tally_logs (entry ∷ logs) groups =
    tally_logs logs
      (insert entry.domain (count_entry entry (or_first entry (get groups entry.domain))) groups)

abbrev pub as_group : Bytes × Tallied → DomainLogGroup
as_group (domain, t) = record {
  domain = domain;
  total_queries = t.total;
  blocked_queries = t.blocked;
  is_blocked = ltb 0 t.blocked;
  last_seen = t.last_seen;
  last_ip = t.last_ip;
}

abbrev pub insert_group : DomainLogGroup → List DomainLogGroup → List DomainLogGroup
insert_group g [] = g ∷ []
insert_group g (h ∷ groups) =
    if leb h.total_queries g.total_queries then g ∷ h ∷ groups else h ∷ insert_group g groups

-- `sort_by_key(|g| Reverse(g.total_queries))`, a stable sort.
abbrev pub sort_groups : List DomainLogGroup → List DomainLogGroup
sort_groups [] = []
sort_groups (g ∷ groups) = insert_group g (sort_groups groups)

unfoldable pub get_grouped_logs : QueryLog → List DomainLogGroup
get_grouped_logs l = sort_groups (map as_group (tally_logs (get_logs l) []))
