-- ===== src/LoginGuard.antt =====
-- internal/api/loginguard.go: the lockout after failed dashboard logins.
pub mod Lockout
pub mod Growth
mod Tests
use irongrid_dns.Prelude.{
  ℕ, ◌+◌, ◌-◌, ◌*◌, Bool, true, false, List, [], ◌∷◌, Option, none, some, length, ltb, leb,
  if◌then◌else◌,
}
use irongrid_dns.Bytes.{GoString, is_empty}
use irongrid_dns.Clock.{minute, older_than}
use irongrid_dns.Shards.Table.{Table, Shards, lookup, insert, delete, delete_if, shard, set_shard}

abbrev pub login_max_failures : ℕ
login_max_failures = 5

abbrev pub login_failure_window : ℕ
login_failure_window = 5 * minute

abbrev pub login_lockout_for : ℕ
login_lockout_for = 10 * minute

abbrev pub login_guard_max_per_shard : ℕ
login_guard_max_per_shard = 4096

abbrev pub login_guard_idle_evict : ℕ
login_guard_idle_evict = 30 * minute

pub record LoginEntry : Type 0 where
  pub failures : ℕ
  pub first_failure : ℕ
  pub locked_until : ℕ
  pub last_seen : ℕ

pub record LoginGuard : Type 0 where
  pub shards : Shards LoginEntry

unfoldable pub new_login_guard : LoginGuard
new_login_guard = record { shards = λ _. [] }

-- `Locked`: whether, and for how much longer.
unfoldable pub locked : LoginGuard → GoString → ℕ → Bool × ℕ
locked g client now =
    if is_empty client then (false, 0) else elim (lookup client (shard g.shards client)) [
      | none ↦ (false, 0)
      | some e ↦ if ltb now e.locked_until then (true, e.locked_until - now) else (false, 0)
    ]

-- The eviction of `RecordFailure`: idle entries, once the shard is full.
unfoldable pub evict_idle : ℕ → Table LoginEntry → Table LoginEntry
evict_idle now m =
    if leb login_guard_max_per_shard (length m)
    then delete_if (λ e. older_than now e.last_seen login_guard_idle_evict) m
    else m

-- `&loginEntry{firstFailure: now}`
unfoldable pub fresh_entry : ℕ → LoginEntry
fresh_entry now = record { failures = 0; first_failure = now; locked_until = 0; last_seen = 0 }

-- The entry that a failure is counted in.
unfoldable pub window_entry : Option LoginEntry → ℕ → LoginEntry
unfolding fresh_entry
window_entry none now = fresh_entry now
window_entry (some e) now =
    if older_than now e.first_failure login_failure_window then fresh_entry now else e

-- The count, and the lockout at the threshold.
unfoldable pub fail_entry : LoginEntry → ℕ → LoginEntry
fail_entry e now = record {
  failures = e.failures + 1;
  first_failure = e.first_failure;
  locked_until =
      if leb login_max_failures (e.failures + 1) then now + login_lockout_for else e.locked_until;
  last_seen = now;
}

unfoldable pub record_failure_in : GoString → ℕ → Table LoginEntry → Table LoginEntry
record_failure_in client now m =
    let m' = evict_idle now m in
    insert client (fail_entry (window_entry (lookup client m') now) now) m'

unfoldable pub record_failure : LoginGuard → GoString → ℕ → LoginGuard
record_failure g client now = if is_empty client then g else record {
  shards = set_shard g.shards client (record_failure_in client now (shard g.shards client));
}

unfoldable pub record_success : LoginGuard → GoString → LoginGuard
record_success g client =
    if is_empty client
    then g
    else record { shards = set_shard g.shards client (delete client (shard g.shards client)) }
