-- ===== src/Cache/Queue.antt =====
-- internal/cache/l1.go: every key of a shard keeps a slot in the queue.
use irongrid_dns.Prelude.{
  ℕ, zero, suc, ◌≤◌, ◌≡◌, refl, ap, subst, inl, inr, Bool, true, false, ◌||◌, List, [], ◌∷◌, ◌++◌,
  none, some, arith, length, leb, Bool-cases, Option-cases,
}
use irongrid_dns.Bytes.{str_eq, str_eq_iff, is_empty}
use irongrid_dns.Shards.Table.{
  Table, IsTable, lookup, insert, lookup-cons_self, lookup-insert, lookup-delete, insert-IsTable,
  delete-IsTable,
}
use irongrid_dns.Cache.{
  L1Key, L1Entry, L1Shard, evict_head, evict_to_cap, rounds, keep_live, compact,
}
use irongrid_dns.Cache.Fuel.{refs-le, evict_head-ind, evict_to_cap-ends}

pub has : L1Key → List L1Key → Bool
has k [] = false
has k (j ∷ q) = str_eq j k || has k q

has-append : (k : L1Key) (q r : List L1Key) → has k (q ++ r) ≡ (has k q || has k r)
unfolding has
has-append k [] r = refl
has-append k (j ∷ q) r = ground (arith, has-append k q r)

-- What holds of a shard with a cap throughout: the map is one, and each of its keys has a slot in
-- the queue.
pub record IsQueued (s : L1Shard) : Type 0 where
  pub table : IsTable s.m
  pub queued : (k : L1Key) (e : L1Entry) → lookup k s.m ≡ some e → has k s.queue ≡ true

absent-held :
    (k j : L1Key) (d : L1Entry) (m : Table L1Entry)
    → lookup k m ≡ none
    → lookup j m ≡ some d
    → str_eq k j ≡ false
absent-held k j d m absent held = elim (Bool-cases (str_eq k j)) [
  | inl same ↦ absurd (ground (arith, ap (λ i. lookup i m) ((str_eq_iff k j).0 same)))
  | inr apart ↦ apart
]

held-named :
    (k : L1Key) (e : L1Entry) (m : Table L1Entry)
    → IsTable m
    → lookup k m ≡ some e
    → is_empty k ≡ false
unfolding lookup
held-named k e [] t h = ground arith
held-named k e ((j, d) ∷ m) t h = elim (Bool-cases (str_eq j k)) [
  | inl same ↦ subst (λ i. is_empty i ≡ false) ((str_eq_iff j k).0 same) t.0
  | inr apart ↦ held-named k e m t.2 (ground arith)
]

module _ (k : L1Key) (q : List L1Key) (m : Table L1Entry) where
  pub append-IsQueued :
      (e : L1Entry)
      → is_empty k ≡ false
      → IsTable m
      → ((j : L1Key) (d : L1Entry) → lookup j m ≡ some d → str_eq k j ≡ false → has j q ≡ true)
      → IsQueued (record { m = insert k e m; queue = q ++ (k ∷ []) })
  unfolding has
  append-IsQueued e ne t old = record {
    table = insert-IsTable k e m ne t;
    queued = λ j d h. ground (arith, has-append j q (k ∷ []), lookup-insert k j e m, old j d);
  }

  evict_head-IsQueued : IsQueued (record { m = m; queue = k ∷ q }) → IsQueued (evict_head k q m)
  unfolding has
  evict_head-IsQueued i =
      evict_head-ind k q m IsQueued
        (λ absent. record {
          table = i.table;
          queued = λ j d h. ground (arith, i.queued j d h, absent-held k j d m absent h);
        })
        (λ e held r.
          append-IsQueued (record e { referenced = false }) (held-named k e m i.table held) i.table
            (λ j d h apart. ground (arith, i.queued j d h)))
        (λ e held u. record {
          table = delete-IsTable k m i.table;
          queued = λ j d h. ground (arith, lookup-delete k j m, i.queued j d);
        })

-- The loop keeps it, and so the queue can only be empty with the map.
pub evict_to_cap-IsQueued :
    (f cap : ℕ) (m : Table L1Entry) (q : List L1Key)
    → IsQueued (record { m = m; queue = q })
    → IsQueued (evict_to_cap f cap m q)
unfolding evict_to_cap
evict_to_cap-IsQueued zero cap m q i = i
evict_to_cap-IsQueued (suc f) cap m [] i = i
evict_to_cap-IsQueued (suc f) cap m (k ∷ q) i = elim (Bool-cases (leb (length m) cap)) [
  | inl below ↦ rw (evict_to_cap, below) i
  | inr above ↦
      rw (evict_to_cap, above) (evict_to_cap-IsQueued f cap _ _ (evict_head-IsQueued k q m i))
]

empty-IsQueued : (s : L1Shard) → IsQueued s → s.queue ≡ [] → s.m ≡ []
unfolding has lookup
empty-IsQueued s i e = go s.m i.table i.queued
  where
    go :
        (m : Table L1Entry)
        → IsTable m
        → ((k : L1Key) (d : L1Entry) → lookup k m ≡ some d → has k s.queue ≡ true)
        → m ≡ []
    go [] t queued = refl
    go ((k, d) ∷ m) t queued =
        absurd (ground (arith, queued k d (lookup-cons_self k d m), ap (has k) e))

pub evict_to_cap-le :
    (cap : ℕ) (m : Table L1Entry) (q : List L1Key)
    → IsQueued (record { m = m; queue = q })
    → length (evict_to_cap (rounds m q) cap m q).m ≤ cap
evict_to_cap-le cap m q i =
    elim (evict_to_cap-ends (rounds m q) cap m q (omega (arith, refs-le m))) [
      | inl below ↦ below
      | inr empty ↦
          rw (empty-IsQueued _ (evict_to_cap-IsQueued (rounds m q) cap m q i) empty) (omega arith)
    ]

keep_live-has :
    (m : Table L1Entry) (q : List L1Key) (k : L1Key) (e : L1Entry)
    → lookup k m ≡ some e
    → has k q ≡ true
    → has k (keep_live m q) ≡ true
unfolding has keep_live
keep_live-has m [] k e held h = h
keep_live-has m (j ∷ q) k e held h = elim (Option-cases (lookup j m)) [
  | inl absent ↦
      rw (absent, keep_live)
        (keep_live-has m q k e held (ground (arith, absent-held j k e m absent held)))
  | inr (d, live) ↦ rw (live, keep_live) (ground (arith, keep_live-has m q k e held))
]

pub compact-IsQueued : (s : L1Shard) → IsQueued s → IsQueued (compact s)
unfolding compact
compact-IsQueued s i = record {
  table = i.table;
  queued = λ k e held. keep_live-has s.m s.queue k e held (i.queued k e held);
}
