-- ===== src/RepeatGuard.antt =====
-- internal/dnsserver/repeatguard.go: the guard against a client that asks for one name over and
-- over.
pub mod Streak
pub mod Bounded
mod Tests
use irongrid_dns.Prelude.{
  ℕ, ◌+◌, ◌*◌, Bool, true, false, not, ◌||◌, List, [], ◌∷◌, Option, none, some, ltb, leb,
  if◌then◌else◌,
}
use irongrid_dns.Prelude.Int.{ℤ, pos, negsuc}
use irongrid_dns.Bytes.{GoString, is_empty, str_eq}
use irongrid_dns.Clock.{second, minute, is_zero, older_than, at_least, positive_or}
use irongrid_dns.Shards.Table.{Table, Shards, lookup, insert, shard, set_shard}
use irongrid_dns.Shards.Evict.{evict}

abbrev pub rq_max_per_shard : ℕ
rq_max_per_shard = 4096

abbrev pub rq_idle_evict : ℕ
rq_idle_evict = 10 * minute

pub record RqEntry : Type 0 where
  pub qname : GoString
  pub count : ℕ
  pub first_seen : ℕ
  pub blocked_until : ℕ

pub record RqLimits : Type 0 where
  pub threshold : ℕ
  pub window : ℕ

pub record RepeatGuard : Type 0 where
  pub limits : RqLimits
  pub open limits use *
  pub shards : Shards RqEntry

unfoldable pub new_repeat_guard : ℤ → ℤ → RepeatGuard
new_repeat_guard threshold window = record {
  limits = record { threshold = at_least 2 threshold; window = positive_or (10 * second) window };
  shards = λ _. [];
}

-- `Allow`
unfoldable pub allow : RepeatGuard → GoString → ℕ → Bool
allow g client now =
    if is_empty client then true else elim (lookup client (shard g.shards client)) [
      | none ↦ true
      | some e ↦ if is_zero e.blocked_until then true else ltb e.blocked_until now
    ]

-- A streak of one.
unfoldable pub new_streak : GoString → ℕ → RqEntry
new_streak qname now = record { qname = qname; count = 1; first_seen = now; blocked_until = 0 }

-- `NoteQuery` on the entry of a client: another name, or a window that has passed, starts over.
unfoldable pub note_entry : RqLimits → RqEntry → GoString → ℕ → RqEntry × Bool
unfolding new_streak
note_entry l e qname now =
    if not (str_eq e.qname qname) || older_than now e.first_seen l.window
    then (new_streak qname now, false)
    else (record e { count = e.count + 1 }, leb l.threshold (e.count + 1))

-- `evictRQLocked`
unfoldable pub evict_rq_locked : ℕ → Table RqEntry → Table RqEntry
evict_rq_locked now = evict (λ e. e.first_seen) rq_max_per_shard rq_idle_evict now

unfoldable pub note_query_in :
    RqLimits → GoString → GoString → ℕ → Table RqEntry → Table RqEntry × Bool
unfolding evict_rq_locked new_streak
note_query_in l client qname now m = elim (lookup client m) [
  | none ↦ (insert client (new_streak qname now) (evict_rq_locked now m), false)
  | some e ↦ let (e', tripped) = note_entry l e qname now in (insert client e' m, tripped)
]

unfoldable pub note_query : RepeatGuard → GoString → GoString → ℕ → RepeatGuard × Bool
unfolding note_query_in
note_query g client qname now =
    if is_empty client || is_empty qname
    then (g, false)
    else let (m, tripped) = note_query_in g.limits client qname now (shard g.shards client) in
      (record g { shards = set_shard g.shards client m }, tripped)

-- The entry that `ForceBlock` leaves.
unfoldable pub block_entry : ℕ → ℕ → RqEntry
block_entry d now = record { qname = []; count = 0; first_seen = now; blocked_until = now + d }

unfoldable pub force_block_in : GoString → ℕ → ℕ → Table RqEntry → Table RqEntry
unfolding evict_rq_locked block_entry
force_block_in client d now m = elim (lookup client m) [
  | none ↦ insert client (block_entry d now) (evict_rq_locked now m)
  | some e ↦ insert client (block_entry d now) m
]

unfoldable pub force_block : RepeatGuard → GoString → ℤ → ℕ → RepeatGuard
unfolding force_block_in
force_block g client (negsuc _) now = g
force_block g client (pos d) now = if is_empty client then g else if leb d 0 then g else record g {
  shards = set_shard g.shards client (force_block_in client d now (shard g.shards client));
}
