-- ===== src/QueryStats/Tests.antt =====
-- Tests and worked examples of the rolling counts (internal/querylog/rolling.go).
use irongrid_dns.Prelude.{ℕ, ◌*◌, List, [], ◌∷◌}
use irongrid_dns.QueryStats.{hour, blocked, Entry, new_rolling_agg}
use irongrid_dns.QueryStats.Totals.{IsRolling}
use irongrid_dns.QueryStats.Runs.{Event, adds_entry, reads_at, run, run-new-IsRolling}

-- A blocked query of one client in an hour.
abbrev entry_at : ℕ → Entry
entry_at h = record {
  time = h * hour;
  action = blocked;
  domain = 97 ∷ [];
  client = 98 ∷ [];
  response_time_ms = 3;
}

-- Two hours of entries, a late one, a day of silence and a new entry.
abbrev events : List Event
events =
    adds_entry (entry_at 100)
    ∷ adds_entry (entry_at 101)
    ∷ adds_entry (entry_at 90)
    ∷ reads_at (102 * hour)
    ∷ adds_entry (entry_at 130)
    ∷ []

run-new-IsRolling_example : IsRolling (run (λ t. t) new_rolling_agg events)
run-new-IsRolling_example = run-new-IsRolling (λ t. t) events
