-- ===== src/NxGuard.antt =====
-- internal/dnsserver/nxguard.go: the guard against floods of NXDOMAIN answers, per client prefix.
pub mod Flood
pub mod Bounded
mod Tests
use irongrid_dns.Prelude.{
  ℕ, zero, suc, ◌+◌, ◌*◌, Bool, true, false, not, ◌&&◌, List, [], ◌∷◌, Option, none, some, ltb, leb,
  if◌then◌else◌,
}
use irongrid_dns.Prelude.Int.{ℤ}
use irongrid_dns.Bytes.{GoString, is_empty}
use irongrid_dns.Clock.{second, minute, is_zero, older_than, at_least, positive_or}
use irongrid_dns.Shards.Table.{Table, Shards, lookup, insert, shard, set_shard}
use irongrid_dns.Shards.Evict.{evict}

abbrev pub nx_max_per_shard : ℕ
nx_max_per_shard = 4096

abbrev pub nx_idle_evict : ℕ
nx_idle_evict = 10 * minute

pub record NxEntry : Type 0 where
  pub count : ℕ
  pub first_seen : ℕ
  pub blocked_until : ℕ

pub record NxLimits : Type 0 where
  pub threshold : ℕ
  pub window : ℕ
  pub block_for : ℕ

pub record NxGuard : Type 0 where
  pub limits : NxLimits
  pub open limits use *
  pub shards : Shards NxEntry

unfoldable pub new_nx_guard : ℤ → ℤ → ℤ → NxGuard
new_nx_guard threshold window block_for = record {
  limits = record {
    threshold = at_least 1 threshold;
    window = positive_or (30 * second) window;
    block_for = positive_or minute block_for;
  };
  shards = λ _. [];
}

-- `Allow`: a prefix is refused up to and at the end of its block.
unfoldable pub allow : NxGuard → GoString → ℕ → Bool
allow g prefix now =
    if is_empty prefix then true else elim (lookup prefix (shard g.shards prefix)) [
      | none ↦ true
      | some e ↦ if is_zero e.blocked_until then true else ltb e.blocked_until now
    ]

-- `NoteNX` on an entry that is there: a fresh window if the old one has passed, and the count.
unfoldable pub count_nx : NxLimits → NxEntry → ℕ → NxEntry
count_nx l e now =
    if older_than now e.first_seen l.window
    then record { count = 1; first_seen = now; blocked_until = 0 }
    else record e { count = e.count + 1 }

-- The threshold check that both paths share.
unfoldable pub check_threshold : NxLimits → NxEntry → ℕ → NxEntry
check_threshold l e now =
    if leb l.threshold e.count && is_zero e.blocked_until
    then record { count = 0; first_seen = now; blocked_until = now + l.block_for }
    else e

-- `evictNXLocked`
unfoldable pub evict_nx_locked : ℕ → Table NxEntry → Table NxEntry
evict_nx_locked now = evict (λ e. e.first_seen) nx_max_per_shard nx_idle_evict now

-- The first NXDOMAIN of a prefix.
unfoldable pub first_entry : ℕ → NxEntry
first_entry now = record { count = 1; first_seen = now; blocked_until = 0 }

-- `NoteNX` on the shard of a prefix.
unfoldable pub note_nx_in : NxLimits → GoString → ℕ → Table NxEntry → Table NxEntry
unfolding evict_nx_locked first_entry
note_nx_in l prefix now m = elim (lookup prefix m) [
  | none ↦ insert prefix (check_threshold l (first_entry now) now) (evict_nx_locked now m)
  | some e ↦ insert prefix (check_threshold l (count_nx l e now) now) m
]

unfoldable pub note_nx : NxGuard → GoString → ℕ → NxGuard
unfolding note_nx_in
note_nx g prefix now = if is_empty prefix then g else record g {
  shards = set_shard g.shards prefix (note_nx_in g.limits prefix now (shard g.shards prefix));
}
