-- ===== src/RepeatGuard/Bounded.antt =====
-- The memory bound of the repeat-query guard (internal/dnsserver/repeatguard.go).
use irongrid_dns.Prelude.{
  ℕ, ◌<◌, ◌≡◌, refl, sym, ap, ◌∙◌, ◌⊎◌, inl, inr, false, List, [], ◌∷◌, none, arith, leb,
  Bool-cases, Option-cases,
}
use irongrid_dns.Prelude.Int.{ℤ, pos, negsuc}
use irongrid_dns.Bytes.{GoString, is_empty, str_eq, str_eq_sound, is_empty-nil}
use irongrid_dns.Shards.Hash.{shard_index}
use irongrid_dns.Shards.Table.{Table, lookup, insert, shard}
use irongrid_dns.Shards.Invariant.{
  IsShard, AllShards, empty-IsShard, insert_old-IsShard, insert_evicted-IsShard,
  set_shard-AllShards,
}
use irongrid_dns.RepeatGuard.{
  RepeatGuard, RqLimits, RqEntry, rq_max_per_shard, rq_idle_evict, new_repeat_guard, note_entry,
  new_streak, block_entry, evict_rq_locked, note_query_in, note_query, force_block_in, force_block,
}

-- A streak that is counted has a name; a blocked client's streak is void.
pub record Named (e : RqEntry) : Type 0 where
  pub streak :
      ((e.count ≡ 0) × (e.qname ≡ []) × (0 < e.blocked_until))
      ⊎ ((0 < e.count) × (is_empty e.qname ≡ false) × (e.blocked_until ≡ 0))

abbrev pub IsGuard : RepeatGuard → Type 0
IsGuard g = AllShards rq_max_per_shard Named g.shards

empty-ne : (s t : GoString) → s ≡ [] → is_empty t ≡ false → str_eq s t ≡ false
empty-ne s t e ne = elim (Bool-cases (str_eq s t)) [
  | inr other ↦ other
  | inl same ↦ absurd (ground (arith, is_empty-nil, ap is_empty (sym e ∙ str_eq_sound s t same)))
]

-- Every streak has a name, and a client under a block has none.
note_entry-Named :
    (l : RqLimits) (e : RqEntry) (qname : GoString) (now : ℕ)
    → is_empty qname ≡ false
    → Named e
    → Named (note_entry l e qname now).0
unfolding note_entry
note_entry-Named l e qname now q n = record {
  streak = ground (arith, empty-ne e.qname qname, n.streak);
}

block_entry-Named : (d now : ℕ) → 0 < d → Named (block_entry d now)
unfolding block_entry
block_entry-Named d now p = record { streak = inl (refl, refl, omega arith) }

new_streak-Named :
    (qname : GoString) (now : ℕ) → is_empty qname ≡ false → Named (new_streak qname now)
unfolding new_streak
new_streak-Named qname now q = record { streak = inr (omega arith, q, refl) }

module _ (client : GoString) (now : ℕ) (m : Table RqEntry) (named : is_empty client ≡ false) where
  write_new :
      (e : RqEntry)
      → lookup client m ≡ none
      → Named e
      → IsShard rq_max_per_shard Named m
      → IsShard rq_max_per_shard Named (insert client e (evict_rq_locked now m))
  unfolding evict_rq_locked
  write_new e absent n s =
      insert_evicted-IsShard rq_max_per_shard Named (λ (e : RqEntry). e.first_seen) rq_idle_evict
        now client e m (omega arith) named absent n s

  note_query_in-IsShard :
      (l : RqLimits) (qname : GoString)
      → is_empty qname ≡ false
      → IsShard rq_max_per_shard Named m
      → IsShard rq_max_per_shard Named (note_query_in l client qname now m).0
  unfolding note_query_in
  note_query_in-IsShard l qname q s = elim (Option-cases (lookup client m)) [
    | inl absent ↦
        rw (absent, note_query_in)
          (write_new (new_streak qname now) absent (new_streak-Named qname now q) s)
    | inr (e, held) ↦
        rw (held, note_query_in)
          (insert_old-IsShard rq_max_per_shard Named client _ e m named held
            (note_entry-Named l e qname now q (s.entries client e held)) s)
  ]

  force_block_in-IsShard :
      (d : ℕ)
      → 0 < d
      → IsShard rq_max_per_shard Named m
      → IsShard rq_max_per_shard Named (force_block_in client d now m)
  unfolding force_block_in
  force_block_in-IsShard d p s = elim (Option-cases (lookup client m)) [
    | inl absent ↦
        rw (absent, force_block_in)
          (write_new (block_entry d now) absent (block_entry-Named d now p) s)
    | inr (e, held) ↦
        rw (held, force_block_in)
          (insert_old-IsShard rq_max_per_shard Named client _ e m named held
            (block_entry-Named d now p) s)
  ]

-- What the handler calls, at a time.
pub data Call : Type 0 where
  notes : GoString → GoString → ℕ → Call
  force_blocks : GoString → ℤ → ℕ → Call

pub step : RepeatGuard → Call → RepeatGuard
step g (notes client qname now) = (note_query g client qname now).0
step g (force_blocks client d now) = force_block g client d now

pub run : RepeatGuard → List Call → RepeatGuard
unfolding step
run g [] = g
run g (c ∷ cs) = run (step g c) cs

note_query-IsGuard :
    (g : RepeatGuard) (client qname : GoString) (now : ℕ)
    → IsGuard g
    → IsGuard (note_query g client qname now).0
unfolding note_query shard
note_query-IsGuard g client qname now all = elim (Bool-cases (is_empty client)) [
  | inl e ↦ rw (e, note_query) all
  | inr named ↦ elim (Bool-cases (is_empty qname)) [
    | inl e ↦ rw (named, e, note_query) all
    | inr q ↦
        rw (named, q, note_query)
          (set_shard-AllShards rq_max_per_shard Named g.shards client _ all
            (note_query_in-IsShard client now _ named g.limits qname q (all (shard_index client))))
  ]
]

force_block-IsGuard :
    (g : RepeatGuard) (client : GoString) (d : ℤ) (now : ℕ)
    → IsGuard g
    → IsGuard (force_block g client d now)
unfolding force_block shard
force_block-IsGuard g client (negsuc d) now all = all
force_block-IsGuard g client (pos d) now all = elim (Bool-cases (is_empty client)) [
  | inl e ↦ rw (e, force_block) all
  | inr named ↦ elim (Bool-cases (leb d 0)) [
    | inl z ↦ rw (named, z, force_block) all
    | inr p ↦
        rw (named, p, force_block)
          (set_shard-AllShards rq_max_per_shard Named g.shards client _ all
            (force_block_in-IsShard client now _ named d (ground arith) (all (shard_index client))))
  ]
]

step-IsGuard : (g : RepeatGuard) (c : Call) → IsGuard g → IsGuard (step g c)
unfolding step
step-IsGuard g (notes client qname now) all = note_query-IsGuard g client qname now all
step-IsGuard g (force_blocks client d now) all = force_block-IsGuard g client d now all

run-IsGuard : (g : RepeatGuard) (cs : List Call) → IsGuard g → IsGuard (run g cs)
unfolding run
run-IsGuard g [] all = all
run-IsGuard g (c ∷ cs) all = run-IsGuard (step g c) cs (step-IsGuard g c all)

new-IsGuard : (threshold window : ℤ) → IsGuard (new_repeat_guard threshold window)
unfolding new_repeat_guard
new-IsGuard threshold window i = empty-IsShard rq_max_per_shard Named

-- Whatever the configuration and the calls, no shard ever holds more than 4096 clients or a
-- client twice, and every client either has a streak of a name and no block, or a block and no
-- streak, so that the first query noted after a block starts over.
pub run-new-IsGuard :
    (threshold window : ℤ) (cs : List Call) → IsGuard (run (new_repeat_guard threshold window) cs)
run-new-IsGuard threshold window cs = run-IsGuard _ cs (new-IsGuard threshold window)
