-- ===== src/LoginGuard/Lockout.antt =====
-- Which failures lock a client out of the dashboard, and for how long
-- (internal/api/loginguard.go).
use irongrid_dns.Prelude.{
  ℕ, ◌+◌, ◌-◌, ◌≤◌, ◌<◌, ◌≡◌, refl, ap, subst, ◌∙◌, inl, inr, true, false, ◌&&◌, List, [], ◌∷◌,
  Option, none, some, arith, length, ltb, leb, if◌then◌else◌, Bool-cases,
}
use irongrid_dns.Bytes.{GoString, is_empty, str_eq_refl}
use irongrid_dns.Clock.{Ascending, Within, last_time, older_than}
use irongrid_dns.Shards.Table.{
  Table, IsTable, lookup, shard, lookup-written, shard-set_shard, lookup-delete, lookup-delete_if,
  lookup-delete_if_absent, insert-IsTable, delete-IsTable, delete_if-IsTable,
}
use irongrid_dns.LoginGuard.{
  LoginGuard, LoginEntry, login_max_failures, login_failure_window, login_lockout_for,
  login_guard_max_per_shard, login_guard_idle_evict, locked, evict_idle, fresh_entry, window_entry,
  fail_entry, record_failure_in, record_failure, record_success,
}

abbrev pub entry_of : LoginGuard → GoString → Option LoginEntry
entry_of g client = lookup client (shard g.shards client)

-- Failures of one client at the given times.
unfoldable pub fail_many : LoginGuard → GoString → List ℕ → LoginGuard
fail_many g client [] = g
fail_many g client (now ∷ times) = fail_many (record_failure g client now) client times

fail_entries : LoginEntry → List ℕ → LoginEntry
fail_entries e [] = e
fail_entries e (now ∷ times) = fail_entries (fail_entry e now) times

evict_idle-IsTable : (now : ℕ) (m : Table LoginEntry) → IsTable m → IsTable (evict_idle now m)
unfolding evict_idle
evict_idle-IsTable now m i = elim (Bool-cases (leb login_guard_max_per_shard (length m))) [
  | inl full ↦ rw (full, evict_idle) (delete_if-IsTable _ m i)
  | inr room ↦ rw (room, evict_idle) i
]

-- The eviction spares a client that was seen within the idle time.
evict_idle-lookup :
    (now : ℕ) (m : Table LoginEntry) (client : GoString) (e : LoginEntry)
    → IsTable m
    → lookup client m ≡ some e
    → now ≤ e.last_seen + login_guard_idle_evict
    → lookup client (evict_idle now m) ≡ some e
unfolding evict_idle
evict_idle-lookup now m client e i held h =
    elim (Bool-cases (leb login_guard_max_per_shard (length m))) [
      | inl full ↦
          rw (full, evict_idle)
            (lookup-delete_if
                (λ (x : LoginEntry). older_than now x.last_seen login_guard_idle_evict) client e m i
                held
              ∙ ground arith)
      | inr room ↦ rw (room, evict_idle) held
    ]

evict_idle_absent :
    (now : ℕ) (m : Table LoginEntry) (client : GoString)
    → lookup client m ≡ none
    → lookup client (evict_idle now m) ≡ none
unfolding evict_idle
evict_idle_absent now m client absent =
    elim (Bool-cases (leb login_guard_max_per_shard (length m))) [
      | inl full ↦ rw (full, evict_idle) (lookup-delete_if_absent _ client m absent)
      | inr room ↦ rw (room, evict_idle) absent
    ]

-- The lockout that an entry stands for.
abbrev Locks : LoginEntry → Type 0
Locks e =
    e.locked_until
    ≡ (if leb login_max_failures e.failures then e.last_seen + login_lockout_for else 0)

-- What one client's failures, all within the window of the first, come to.
record Counts (e : LoginEntry) (first n last : ℕ) : Type 0 where
  failures_eq : e.failures ≡ n
  first_eq : e.first_failure ≡ first
  last_eq : e.last_seen ≡ last
  locks : Locks e

fail-Counts :
    (e : LoginEntry) (first n last now : ℕ)
    → Counts e first n last
    → Counts (fail_entry e now) first (n + 1) now
unfolding fail_entry
fail-Counts e first n last now c = record {
  failures_eq = omega arith;
  first_eq = c.first_eq;
  last_eq = refl;
  locks = ground arith;
}

fresh-Counts : (now : ℕ) → Counts (fail_entry (fresh_entry now) now) now 1 now
unfolding fail_entry fresh_entry
fresh-Counts now = record { failures_eq = refl; first_eq = refl; last_eq = refl; locks = refl }

module _ (client : GoString) (named : is_empty client ≡ false) where
  fail-entry :
      (g : LoginGuard) (now : ℕ)
      → entry_of (record_failure g client now) client
        ≡ some (
            fail_entry
              (window_entry (lookup client (evict_idle now (shard g.shards client))) now)
              now)
  unfolding record_failure record_failure_in
  fail-entry g now = rw (named, record_failure) (lookup-written g.shards client _ _)

  fail-IsTable :
      (g : LoginGuard) (now : ℕ)
      → IsTable (shard g.shards client)
      → IsTable (shard (record_failure g client now).shards client)
  unfolding record_failure record_failure_in
  fail-IsTable g now i =
      rw (named, record_failure, shard-set_shard)
        (insert-IsTable client _ _ named (evict_idle-IsTable now (shard g.shards client) i))

  fail_tracked :
      (g : LoginGuard) (e : LoginEntry) (now : ℕ)
      → IsTable (shard g.shards client)
      → entry_of g client ≡ some e
      → now ≤ e.last_seen + login_guard_idle_evict
      → now ≤ e.first_failure + login_failure_window
      → entry_of (record_failure g client now) client ≡ some (fail_entry e now)
  unfolding window_entry
  fail_tracked g e now i held recent w =
      fail-entry g now
      ∙ ap (λ o. some (fail_entry (window_entry o now) now))
          (evict_idle-lookup now (shard g.shards client) client e i held recent)
      ∙ ground arith

  fail_new :
      (g : LoginGuard) (now : ℕ)
      → entry_of g client ≡ none
      → entry_of (record_failure g client now) client ≡ some (fail_entry (fresh_entry now) now)
  unfolding window_entry
  fail_new g now absent =
      fail-entry g now
      ∙ ap (λ o. some (fail_entry (window_entry o now) now))
          (evict_idle_absent now (shard g.shards client) client absent)

  many-Counts :
      (g : LoginGuard) (e : LoginEntry) (first n last : ℕ) (times : List ℕ)
      → IsTable (shard g.shards client)
      → entry_of g client ≡ some e
      → Counts e first n last
      → first ≤ last
      → Ascending last times
      → Within first login_failure_window times
      → (e' : LoginEntry) × (entry_of (fail_many g client times) client ≡ some e')
        × Counts e' first (n + length times) (last_time last times)
  unfolding fail_many
  many-Counts g e first n last [] i held c le asc w =
      (e, held, subst (λ k. Counts e first k last) (omega arith) c)
  many-Counts g e first n last (now ∷ times) i held c le asc w =
      let held' =
        fail_tracked g e now i held (omega (arith, c.last_eq, w.0))
          (omega (arith, c.first_eq, w.0)) in
      let (e', kept, c') =
        many-Counts (record_failure g client now) (fail_entry e now) first (n + 1) now times
          (fail-IsTable g now i) held' (fail-Counts e first n last now c) (omega (arith, asc.0))
          asc.1 w.1 in
      (e', kept, subst (λ k. Counts e' first k (last_time now times)) (omega arith) c')

  locked_by :
      (g : LoginGuard) (e : LoginEntry) (first n last now : ℕ)
      → entry_of g client ≡ some e
      → Counts e first n last
      → locked g client now ≡ (
          if leb login_max_failures n && ltb now (last + login_lockout_for)
          then (true, last + login_lockout_for - now)
          else (false, 0))
  unfolding locked
  locked_by g e first n last now held c =
      rw (named, held, locked) (ground (arith, c.failures_eq, c.last_eq, c.locks))

  -- A client without failures so far, whose failures from now on all lie within five minutes of
  -- the first and do not run backwards in time, is locked out exactly when they are five or more,
  -- and then until ten minutes after the last of them; `Locked` reports the time that is left.
  pub lockout :
      (g : LoginGuard) (first : ℕ) (times : List ℕ) (now : ℕ)
      → IsTable (shard g.shards client)
      → entry_of g client ≡ none
      → Ascending first times
      → Within first login_failure_window times
      → locked (fail_many g client (first ∷ times)) client now ≡ (
          if leb login_max_failures (length (first ∷ times))
            && ltb now (last_time first times + login_lockout_for)
          then (true, last_time first times + login_lockout_for - now)
          else (false, 0))
  unfolding fail_many
  lockout g first times now i absent asc w =
      let g' = record_failure g client first in
      let (e, held, c) =
        many-Counts g' (fail_entry (fresh_entry first) first) first 1 first times
          (fail-IsTable g first i) (fail_new g first absent) (fresh-Counts first) (omega arith) asc
          w in
      locked_by (fail_many g' client times) e first (1 + length times) (last_time first times) now
        held c
      ∙ ap
          (λ k.
            if leb login_max_failures k && ltb now (last_time first times + login_lockout_for)
            then (true, last_time first times + login_lockout_for - now)
            else (false, 0))
          (omega arith)

  success-entry : (g : LoginGuard) → entry_of (record_success g client) client ≡ none
  unfolding record_success
  success-entry g =
      rw (named, record_success, shard-set_shard)
        (ground (arith, lookup-delete client client (shard g.shards client), str_eq_refl client))

  success-IsTable :
      (g : LoginGuard)
      → IsTable (shard g.shards client)
      → IsTable (shard (record_success g client).shards client)
  unfolding record_success
  success-IsTable g i = rw (named, record_success, shard-set_shard) (delete-IsTable client _ i)

  -- A success wipes the record: whatever the client did before, the failures after it lock it out
  -- only when they are five by themselves.
  pub success_forgets :
      (g : LoginGuard) (first : ℕ) (times : List ℕ) (now : ℕ)
      → IsTable (shard g.shards client)
      → Ascending first times
      → Within first login_failure_window times
      → length (first ∷ times) < login_max_failures
      → locked (fail_many (record_success g client) client (first ∷ times)) client now ≡ (false, 0)
  success_forgets g first times now i asc w h =
      lockout (record_success g client) first times now (success-IsTable g i) (success-entry g) asc
        w
      ∙ ground arith
