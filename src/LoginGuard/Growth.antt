-- ===== src/LoginGuard/Growth.antt =====
-- The login guard's shards have no bound (internal/api/loginguard.go).
use irongrid_dns.Prelude.{
  ℕ, ◌+◌, ◌≡◌, refl, ap, ◌∙◌, inl, inr, false, none, length, leb, Bool-cases,
}
use irongrid_dns.Bytes.{GoString, is_empty}
use irongrid_dns.Clock.{older_than}
use irongrid_dns.Shards.Table.{
  Table, lookup, insert, shard, shard-set_shard, length-insert_new, delete_if_none, NoneDropped,
}
use irongrid_dns.LoginGuard.{
  LoginGuard, LoginEntry, login_guard_max_per_shard, login_guard_idle_evict, evict_idle, fail_entry,
  window_entry, record_failure_in, record_failure,
}

-- Every client of the shard was seen within the idle time.
abbrev pub AllActive : ℕ → Table LoginEntry → Type 0
AllActive now = NoneDropped (λ e. older_than now e.last_seen login_guard_idle_evict)

evict_idle_active : (now : ℕ) (m : Table LoginEntry) → AllActive now m → evict_idle now m ≡ m
unfolding evict_idle
evict_idle_active now m a = elim (Bool-cases (leb login_guard_max_per_shard (length m))) [
  | inl full ↦ rw (full, evict_idle) (delete_if_none _ m a)
  | inr room ↦ rw (room, evict_idle) refl
]

-- Where all clients of a shard are active, the failure of one more adds an entry, however many
-- there are: the cap of 4096 does not bound the map.
pub record_failure_grows :
    (g : LoginGuard) (client : GoString) (now : ℕ)
    → is_empty client ≡ false
    → lookup client (shard g.shards client) ≡ none
    → AllActive now (shard g.shards client)
    → length (shard (record_failure g client now).shards client)
      ≡ length (shard g.shards client) + 1
unfolding record_failure record_failure_in
record_failure_grows g client now named absent active =
    rw (named, record_failure, shard-set_shard)
      (ap (λ m. length (insert client (fail_entry (window_entry (lookup client m) now) now) m))
          (evict_idle_active now (shard g.shards client) active)
        ∙ length-insert_new client _ (shard g.shards client) absent)
