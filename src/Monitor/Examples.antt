-- ===== src/Monitor/Examples.antt =====
-- Tests of the query log and its export, src/modules/monitor/mod.rs.
use shield_ghita.Prelude.{◌≡◌, refl, Bool, true, false, [], ◌∷◌, Bytes, none, some, length}
use shield_ghita.Text.{codes}
use shield_ghita.Monitor.Csv.{csv_escape}
use shield_ghita.Monitor.Logs.{LogEntry, QueryLog, QueryLog_new, push_log, get_logs, apply_filter}

escaped_formula : csv_escape (codes "=1") ≡ codes "\"'=1\""
unfolding csv_escape
escaped_formula = refl

escaped_quote : csv_escape (codes "a\"b") ≡ codes "\"a\"\"b\""
unfolding csv_escape
escaped_quote = refl

abbrev entry : Bytes → Bool → LogEntry
entry domain is_blocked = record {
  timestamp = codes "10:00:00";
  domain = domain;
  source_ip = codes "192.168.1.7";
  is_blocked = is_blocked;
}

abbrev log : QueryLog
log =
    push_log
      (push_log (push_log (QueryLog_new 2) (entry (codes "a.io") true))
        (entry (codes "b.io") false))
      (entry (codes "a.io") false)

-- The oldest entry is gone.
kept : get_logs log ≡ entry (codes "a.io") false ∷ entry (codes "b.io") false ∷ []
unfolding push_log
kept = refl

filtered : length (get_logs (apply_filter log (codes "B") [] none)) ≡ 1
unfolding push_log apply_filter
filtered = refl

only_blocked : get_logs (apply_filter log [] [] (some true)) ≡ []
unfolding push_log apply_filter
only_blocked = refl
