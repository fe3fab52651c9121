-- ===== src/NxGuard/Bounded.antt =====
-- The memory bound of the NXDOMAIN guard, and its counters (internal/dnsserver/nxguard.go).
use irongrid_dns.Prelude.{
  ℕ, ◌<◌, ◌≡◌, ◌⊎◌, inl, inr, false, List, [], ◌∷◌, arith, Bool-cases, Option-cases,
}
use irongrid_dns.Prelude.Int.{ℤ}
use irongrid_dns.Bytes.{GoString, is_empty}
use irongrid_dns.Shards.Hash.{shard_index}
use irongrid_dns.Shards.Table.{Table, lookup, shard}
use irongrid_dns.Shards.Invariant.{
  IsShard, AllShards, empty-IsShard, insert_old-IsShard, insert_evicted-IsShard,
  set_shard-AllShards,
}
use irongrid_dns.NxGuard.{
  NxGuard, NxLimits, NxEntry, nx_max_per_shard, nx_idle_evict, new_nx_guard, count_nx,
  check_threshold, first_entry, note_nx_in, note_nx,
}

-- A prefix that has counted up to the threshold has been blocked.
pub record Counted (threshold : ℕ) (e : NxEntry) : Type 0 where
  pub tripped : (e.count < threshold) ⊎ (0 < e.blocked_until)

abbrev pub IsGuard : NxGuard → Type 0
IsGuard g = AllShards nx_max_per_shard (Counted g.threshold) g.shards

module _ (l : NxLimits) (some_block : 0 < l.block_for) where
  check-Counted : (e : NxEntry) (now : ℕ) → Counted l.threshold (check_threshold l e now)
  unfolding check_threshold
  check-Counted e now = record { tripped = ground arith }

  note_nx_in-IsShard :
      (prefix : GoString) (now : ℕ) (m : Table NxEntry)
      → is_empty prefix ≡ false
      → IsShard nx_max_per_shard (Counted l.threshold) m
      → IsShard nx_max_per_shard (Counted l.threshold) (note_nx_in l prefix now m)
  unfolding note_nx_in
  note_nx_in-IsShard prefix now m named s = elim (Option-cases (lookup prefix m)) [
    | inl absent ↦
        rw (absent, note_nx_in)
          (insert_evicted-IsShard nx_max_per_shard (Counted l.threshold)
            (λ (e : NxEntry). e.first_seen) nx_idle_evict now prefix _ m (omega arith) named absent
            (check-Counted (first_entry now) now) s)
    | inr (e, held) ↦
        rw (held, note_nx_in)
          (insert_old-IsShard nx_max_per_shard (Counted l.threshold) prefix _ e m named held
            (check-Counted (count_nx l e now) now) s)
  ]

module _ (g : NxGuard) (some_block : 0 < g.block_for) where
  note_nx-IsGuard : (prefix : GoString) (now : ℕ) → IsGuard g → IsGuard (note_nx g prefix now)
  unfolding note_nx shard
  note_nx-IsGuard prefix now all = elim (Bool-cases (is_empty prefix)) [
    | inl e ↦ rw (e, note_nx) all
    | inr named ↦
        rw (named, note_nx)
          (set_shard-AllShards nx_max_per_shard (Counted g.threshold) g.shards prefix _ all
            (note_nx_in-IsShard g.limits some_block prefix now _ named (all (shard_index prefix))))
  ]

-- The NXDOMAIN answers to the given prefixes at the given times.
pub note_all : NxGuard → List (GoString × ℕ) → NxGuard
note_all g [] = g
note_all g ((prefix, now) ∷ notes) = note_all (note_nx g prefix now) notes

note_nx-block_for :
    (g : NxGuard) (prefix : GoString) (now : ℕ) → (note_nx g prefix now).block_for ≡ g.block_for
unfolding note_nx
note_nx-block_for g prefix now = ground arith

note_all-IsGuard :
    (g : NxGuard) (notes : List (GoString × ℕ))
    → 0 < g.block_for
    → IsGuard g
    → IsGuard (note_all g notes)
unfolding note_all
note_all-IsGuard g [] p all = all
note_all-IsGuard g ((prefix, now) ∷ notes) p all =
    note_all-IsGuard (note_nx g prefix now) notes (omega (arith, note_nx-block_for g prefix now))
      (note_nx-IsGuard g p prefix now all)

new-block_for : (t w b : ℤ) → 0 < (new_nx_guard t w b).block_for
unfolding new_nx_guard
new-block_for t w b = ground arith

new-IsGuard : (t w b : ℤ) → IsGuard (new_nx_guard t w b)
unfolding new_nx_guard
new-IsGuard t w b i = empty-IsShard nx_max_per_shard (Counted _)

-- Whatever the guard is configured with and whatever answers it notes, no shard ever holds more
-- than 4096 prefixes or a prefix twice, and no prefix has a count at the threshold without a
-- block.
pub note_all-new-IsGuard :
    (threshold window block_for : ℤ) (notes : List (GoString × ℕ))
    → IsGuard (note_all (new_nx_guard threshold window block_for) notes)
note_all-new-IsGuard t w b notes =
    note_all-IsGuard _ notes (new-block_for t w b) (new-IsGuard t w b)
