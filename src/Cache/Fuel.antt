-- ===== src/Cache/Fuel.antt =====
-- internal/cache/l1.go: the loop of `evictToCap` ends, and where.
use irongrid_dns.Prelude.{
  ℕ, zero, suc, ◌+◌, ◌≤◌, ◌<◌, ◌≡◌, refl, sym, subst, ◌⊎◌, inl, inr, true, false, List, [], ◌∷◌,
  ◌++◌, none, some, arith, length, length-append, leb, if◌then◌else◌, Bool-cases, Option-cases,
}
use irongrid_dns.Shards.Table.{Table, lookup, insert, delete}
use irongrid_dns.Cache.{L1Key, L1Entry, L1Shard, evict_head, evict_to_cap}

-- The entries that have been read since they were last spared.
pub refs : Table L1Entry → ℕ
refs [] = 0
refs ((k, e) ∷ m) = if e.referenced then refs m + 1 else refs m

pub refs-le : (m : Table L1Entry) → refs m ≤ length m
unfolding refs
refs-le [] = omega arith
refs-le ((k, e) ∷ m) = ground (arith, refs-le m)

refs-insert_spared :
    (k : L1Key) (e : L1Entry) (m : Table L1Entry)
    → lookup k m ≡ some e
    → e.referenced ≡ true
    → refs (insert k (record e { referenced = false }) m) < refs m
unfolding refs lookup insert
refs-insert_spared k e [] h r = ground arith
refs-insert_spared k e ((j, d) ∷ m) h r = ground (arith, refs-insert_spared k e m)

refs-delete : (k : L1Key) (m : Table L1Entry) → refs (delete k m) ≤ refs m
unfolding refs delete
refs-delete k [] = omega arith
refs-delete k ((j, d) ∷ m) = ground (arith, refs-delete k m)

-- One round, by what the queue's head names.
module _ (k : L1Key) (q : List L1Key) (m : Table L1Entry) where
  evict_head_dead : lookup k m ≡ none → evict_head k q m ≡ record { m = m; queue = q }
  unfolding evict_head
  evict_head_dead absent = rw (absent, evict_head) refl

  evict_head_spared :
      (e : L1Entry)
      → lookup k m ≡ some e
      → e.referenced ≡ true
      → evict_head k q m
        ≡ record { m = insert k (record e { referenced = false }) m; queue = q ++ (k ∷ []) }
  unfolding evict_head
  evict_head_spared e held r = rw (held, evict_head, r) refl

  evict_head_evicted :
      (e : L1Entry)
      → lookup k m ≡ some e
      → e.referenced ≡ false
      → evict_head k q m ≡ record { m = delete k m; queue = q }
  unfolding evict_head
  evict_head_evicted e held u = rw (held, evict_head, u) refl

  -- Induction on what a round does.
  pub evict_head-ind :
      (P : L1Shard → Type 0)
      → (lookup k m ≡ none → P (record { m = m; queue = q }))
      → ((e : L1Entry)
          → lookup k m ≡ some e
          → e.referenced ≡ true
          → P (record { m = insert k (record e { referenced = false }) m; queue = q ++ (k ∷ []) }))
      → ((e : L1Entry)
          → lookup k m ≡ some e
          → e.referenced ≡ false
          → P (record { m = delete k m; queue = q }))
      → P (evict_head k q m)
  evict_head-ind P dead spared evicted = elim (Option-cases (lookup k m)) [
    | inl absent ↦ subst P (sym (evict_head_dead absent)) (dead absent)
    | inr (e, held) ↦ elim (Bool-cases e.referenced) [
      | inl r ↦ subst P (sym (evict_head_spared e held r)) (spared e held r)
      | inr u ↦ subst P (sym (evict_head_evicted e held u)) (evicted e held u)
    ]
  ]

-- The rounds that a shard still needs.
abbrev pub cost : Table L1Entry → List L1Key → ℕ
cost m queue = length queue + refs m

evict_head-cost :
    (k : L1Key) (q : List L1Key) (m : Table L1Entry)
    → cost (evict_head k q m).m (evict_head k q m).queue ≤ length q + refs m
evict_head-cost k q m =
    evict_head-ind k q m (λ s. cost s.m s.queue ≤ length q + refs m) (λ absent. omega arith)
      (λ e held r. omega (arith, length-append q (k ∷ []), refs-insert_spared k e m held r))
      (λ e held u. omega (arith, refs-delete k m))

-- With a round for each slot and each entry to spare, the loop of `evictToCap` runs to its own
-- end: the map is within the cap, or the queue is empty.
pub evict_to_cap-ends :
    (f cap : ℕ) (m : Table L1Entry) (q : List L1Key)
    → cost m q ≤ f
    → (length (evict_to_cap f cap m q).m ≤ cap) ⊎ ((evict_to_cap f cap m q).queue ≡ [])
unfolding evict_to_cap
evict_to_cap-ends zero cap m [] h = inr refl
evict_to_cap-ends zero cap m (k ∷ q) h = absurd (omega (arith, h))
evict_to_cap-ends (suc f) cap m [] h = inr refl
evict_to_cap-ends (suc f) cap m (k ∷ q) h = elim (Bool-cases (leb (length m) cap)) [
  | inl below ↦ rw (evict_to_cap, below) (inl (ground arith))
  | inr above ↦
      rw (evict_to_cap, above)
        (evict_to_cap-ends f cap _ _ (omega (arith, evict_head-cost k q m, h)))
]
