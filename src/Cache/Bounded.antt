-- ===== src/Cache/Bounded.antt =====
-- internal/cache/l1.go: the bound on the entries of a shard.
use irongrid_dns.Prelude.{
  ℕ, ◌*◌, ◌≤◌, ◌<◌, ◌≡◌, refl, sym, subst, inl, inr, Bool, true, false, ◌||◌, List, [], ◌∷◌, ◌++◌,
  some, arith, length, ltb, leb, ◌==◌, Bool-cases, Option-cases,
}
use irongrid_dns.Prelude.Int.{ℤ, pos, negsuc}
use irongrid_dns.Bytes.{str_eq, str_eq_iff, is_empty}
use irongrid_dns.Shards.Table.{
  lookup, insert, delete, lookup-nil, lookup-insert, lookup-delete, insert-IsTable, delete-IsTable,
  length-insert_old, length-delete-le,
}
use irongrid_dns.Cache.{
  L1Key, L1Entry, L1Shard, L1Cache, l1_key, evict_to_cap, rounds, compact, trim, add_new, set_in,
  set, get, del, mark, flush, new_l1, set_shard, shard_of, entry_of,
}
use irongrid_dns.Cache.Queue.{
  has, IsQueued, append-IsQueued, evict_to_cap-IsQueued, evict_to_cap-le, compact-IsQueued,
}

-- A shard of a cache with a cap.
pub record IsBounded (cap : ℕ) (s : L1Shard) : Type 0 where
  pub shard : IsQueued s
  pub bounded : length s.m ≤ cap

module _ (cap : ℕ) (k : L1Key) (e : L1Entry) (s : L1Shard) (ne : is_empty k ≡ false) where
  add_new-IsBounded : IsQueued s → IsBounded cap (add_new cap k e s)
  unfolding add_new trim compact
  add_new-IsBounded i =
      let m = insert k e s.m in
      let q = s.queue ++ (k ∷ []) in
      let added = append-IsQueued k s.queue s.m e ne i.table (λ j d h apart. i.queued j d h) in
      let kept = evict_to_cap-IsQueued (rounds m q) cap m q added in
      let small = evict_to_cap-le cap m q added in
      let r = evict_to_cap (rounds m q) cap m q in
      elim (Bool-cases (ltb (2 * cap) (length r.queue))) [
        | inl long ↦
            rw (add_new, trim, long) (record { shard = compact-IsQueued r kept; bounded = small })
        | inr short ↦ rw (add_new, trim, short) (record { shard = kept; bounded = small })
      ]

  overwrite-IsBounded :
      (old : L1Entry)
      → lookup k s.m ≡ some old
      → IsBounded cap s
      → IsBounded cap (record s { m = insert k e s.m })
  overwrite-IsBounded old held b = record {
    shard = record {
      table = insert-IsTable k e s.m ne b.shard.table;
      queued = λ j d h. elim (Bool-cases (str_eq k j)) [
        | inl same ↦
            subst (λ i. has i s.queue ≡ true) ((str_eq_iff k j).0 same) (b.shard.queued k old held)
        | inr apart ↦ b.shard.queued j d (ground (arith, lookup-insert k j e s.m))
      ];
    };
    bounded = omega (arith, length-insert_old k e old s.m held, b.bounded);
  }

  set_in-IsBounded : 0 < cap → IsBounded cap s → IsBounded cap (set_in (pos cap) k e s)
  unfolding set_in
  set_in-IsBounded c b = elim (Option-cases (lookup k s.m)) [
    | inl absent ↦ rw (set_in, positive cap c, absent) (add_new-IsBounded b.shard)
    | inr (old, held) ↦ rw (set_in, positive cap c, held) (overwrite-IsBounded old held b)
  ]
    where
      positive : (n : ℕ) → 0 < n → ltb 0 n ≡ true
      positive n h = ground arith

delete-IsBounded :
    (cap : ℕ) (k : L1Key) (s : L1Shard)
    → IsBounded cap s
    → IsBounded cap (record s { m = delete k s.m })
delete-IsBounded cap k s b = record {
  shard = record {
    table = delete-IsTable k s.m b.shard.table;
    queued = λ j d h. b.shard.queued j d (ground (arith, lookup-delete k j s.m));
  };
  bounded = omega (arith, length-delete-le k s.m, b.bounded);
}

pub record IsCache (cap : ℕ) (c : L1Cache) : Type 0 where
  pub cap_eq : c.cap ≡ pos cap
  pub shards : (i : ℕ) → IsBounded cap (c.shards i)

set_shard-IsCache :
    (cap : ℕ) (c : L1Cache) (h : ℕ) (s : L1Shard)
    → IsCache cap c
    → IsBounded cap s
    → IsCache cap (set_shard c h s)
unfolding set_shard
set_shard-IsCache cap c h s i b = record {
  cap_eq = i.cap_eq;
  shards = λ j. elim (Bool-cases (j == shard_of h)) [
    | inl here ↦ rw here b
    | inr there ↦ rw there (i.shards j)
  ];
}

l1_key-named : (h : ℕ) (neg : Bool) → is_empty (l1_key h neg) ≡ false
unfolding is_empty
l1_key-named h neg = refl

module _ (cap : ℕ) (c : L1Cache) (h : ℕ) (neg : Bool) (i : IsCache cap c) where
  del-IsCache : IsCache cap (del c h neg)
  unfolding del
  del-IsCache =
      set_shard-IsCache cap c h _ i (delete-IsBounded cap (l1_key h neg) _ (i.shards (shard_of h)))

  mark-IsCache :
      (e : L1Entry)
      → lookup (l1_key h neg) (c.shards (shard_of h)).m ≡ some e
      → IsCache cap (mark c h neg e)
  unfolding mark
  mark-IsCache e held = set_shard-IsCache cap c h _ i (
      overwrite-IsBounded cap (l1_key h neg) (record e { referenced = true })
        (c.shards (shard_of h)) (l1_key-named h neg) e held (i.shards (shard_of h)))

  set-IsCache :
      (raw : List ℕ) (ttl : ℤ) (now : ℕ) (ttl_off : List ℕ)
      → 0 < cap
      → IsCache cap (set c h neg raw ttl now ttl_off)
  unfolding set
  set-IsCache raw (negsuc ttl) now ttl_off p = i
  set-IsCache raw (pos ttl) now ttl_off p = elim (Bool-cases (leb ttl 0 || leb (length raw) 0)) [
    | inl unusable ↦ rw (set, unusable) i
    | inr usable ↦
        let k = l1_key h neg in
        let e = entry_of raw ttl_off ttl c.stale_ttl now in
        let s = c.shards (shard_of h) in
        rw (set, usable)
          (set_shard-IsCache cap c h _ i (
            subst (λ n. IsBounded cap (set_in n k e s)) (sym i.cap_eq)
              (set_in-IsBounded cap k e s (l1_key-named h neg) p (i.shards (shard_of h)))))
  ]

get-IsCache :
    (cap : ℕ) (c : L1Cache) (h : ℕ) (neg : Bool) (now : ℕ)
    → IsCache cap c
    → IsCache cap (get c h neg now).0
unfolding get
get-IsCache cap c h neg now i =
    elim (Option-cases (lookup (l1_key h neg) (c.shards (shard_of h)).m)) [
      | inl absent ↦ rw (get, absent) i
      | inr (e, held) ↦
          let marked = mark-IsCache cap c h neg i e held in
          elim (Bool-cases (ltb now e.expires)) [
            | inl fresh ↦ rw (get, held, fresh) marked
            | inr expired ↦ elim (Bool-cases (ltb now e.stale_until)) [
              | inl stale ↦ rw (get, held, expired, stale) marked
              | inr dead ↦
                  rw (get, held, expired, dead) (del-IsCache cap (mark c h neg e) h neg marked)
            ]
          ]
    ]

empty-IsBounded : (cap : ℕ) → IsBounded cap (record { m = []; queue = [] })
empty-IsBounded cap = record {
  shard = record {
    table = tt;
    queued = λ k e h. absurd (ground (arith, lookup-nil {V = L1Entry} k));
  };
  bounded = omega arith;
}

new_l1-IsCache : (cap stale_ttl : ℕ) → IsCache cap (new_l1 (pos cap) stale_ttl)
unfolding new_l1
new_l1-IsCache cap stale_ttl = record { cap_eq = refl; shards = λ j. empty-IsBounded cap }

flush-IsCache : (cap : ℕ) (c : L1Cache) → IsCache cap c → IsCache cap (flush c)
unfolding flush
flush-IsCache cap c i = record { cap_eq = i.cap_eq; shards = λ j. empty-IsBounded cap }

-- What the rest of the program may call.
pub data CacheCall : Type 0 where
  sets : ℕ → Bool → List ℕ → ℤ → ℕ → List ℕ → CacheCall
  gets : ℕ → Bool → ℕ → CacheCall
  deletes : ℕ → Bool → CacheCall
  flushes : CacheCall

pub step : L1Cache → CacheCall → L1Cache
step c (sets h neg raw ttl now ttl_off) = set c h neg raw ttl now ttl_off
step c (gets h neg now) = (get c h neg now).0
step c (deletes h neg) = del c h neg
step c flushes = flush c

pub run : L1Cache → List CacheCall → L1Cache
unfolding step
run c [] = c
run c (x ∷ xs) = run (step c x) xs

step-IsCache :
    (cap : ℕ) (c : L1Cache) (x : CacheCall) → 0 < cap → IsCache cap c → IsCache cap (step c x)
unfolding step
step-IsCache cap c (sets h neg raw ttl now ttl_off) p i =
    set-IsCache cap c h neg i raw ttl now ttl_off p
step-IsCache cap c (gets h neg now) p i = get-IsCache cap c h neg now i
step-IsCache cap c (deletes h neg) p i = del-IsCache cap c h neg i
step-IsCache cap c flushes p i = flush-IsCache cap c i

run-IsCache :
    (cap : ℕ) (c : L1Cache) (xs : List CacheCall) → 0 < cap → IsCache cap c → IsCache cap (run c xs)
unfolding run
run-IsCache cap c [] p i = i
run-IsCache cap c (x ∷ xs) p i = run-IsCache cap (step c x) xs p (step-IsCache cap c x p i)

-- A cache with a cap of at least 1 never has more entries in a shard than the cap, nor a key
-- twice, and every entry has a slot in the queue, whatever is set, got, deleted or flushed.
pub run-new-IsCache :
    (cap stale_ttl : ℕ) (xs : List CacheCall)
    → 0 < cap
    → IsCache cap (run (new_l1 (pos cap) stale_ttl) xs)
run-new-IsCache cap stale_ttl xs p =
    run-IsCache cap (new_l1 (pos cap) stale_ttl) xs p (new_l1-IsCache cap stale_ttl)
