-- ===== src/Cache/Tests.antt =====
-- Tests and worked examples of the in-process cache (internal/cache/l1.go).
use irongrid_dns.Prelude.{ℕ, ◌≤◌, ◌≡◌, refl, ◌⊎◌, true, false, List, [], ◌∷◌, some, arith, length}
use irongrid_dns.Prelude.Int.{pos}
use irongrid_dns.Bytes.{str_eq}
use irongrid_dns.Shards.Table.{lookup, insert, delete}
use irongrid_dns.Cache.{
  L1Entry, L1Cache, l1_key, evict_head, evict_to_cap, compact, trim, add_new, set, get, new_l1,
  shard_of, entry_of, empty_shard,
}
use irongrid_dns.Cache.Fuel.{refs-le, evict_to_cap-ends}
use irongrid_dns.Cache.Bounded.{
  CacheCall, sets, gets, deletes, flushes, run, IsCache, run-new-IsCache,
}
use irongrid_dns.Cache.Reads.{get-set}
use irongrid_dns.Cache.Duplicates.{come_back, queue_grows}

-- A cache with two places in each shard, and a body.
abbrev small : L1Cache
small = record { cap = pos 2; stale_ttl = 50; shards = λ _. empty_shard }

abbrev body : List ℕ
body = 7 ∷ []

abbrev old_entry : L1Entry
old_entry = entry_of body [] 100 50 1

abbrev read_entry : L1Entry
read_entry = record old_entry { referenced = true }

-- An entry that has been read is spared once, and the next one in the queue goes.
second_chance :
    evict_to_cap 6 1
      ((l1_key 0 false, read_entry) ∷ (l1_key 0 true, old_entry) ∷ [])
      (l1_key 0 false ∷ l1_key 0 true ∷ [])
    ≡ record { m = (l1_key 0 false, old_entry) ∷ []; queue = l1_key 0 false ∷ [] }
unfolding evict_to_cap evict_head lookup insert delete str_eq
second_chance = refl

-- Where every other entry has been read, the newest goes at once.
newest_goes :
    (add_new 1
      (l1_key 256 false)
      old_entry
      (record { m = (l1_key 0 false, read_entry) ∷ []; queue = l1_key 0 false ∷ [] })).m
    ≡ (l1_key 0 false, old_entry) ∷ []
unfolding add_new trim compact evict_to_cap evict_head lookup insert delete str_eq
newest_goes = refl

evict_to_cap-ends_example :
    (length
        (evict_to_cap 5 1
          ((l1_key 0 false, read_entry) ∷ (l1_key 0 true, old_entry) ∷ [])
          (l1_key 0 false ∷ l1_key 0 true ∷ [])).m
      ≤ 1)
    ⊎ ((evict_to_cap 5 1
          ((l1_key 0 false, read_entry) ∷ (l1_key 0 true, old_entry) ∷ [])
          (l1_key 0 false ∷ l1_key 0 true ∷ [])).queue
        ≡ [])
evict_to_cap-ends_example =
    evict_to_cap-ends 5 1 ((l1_key 0 false, read_entry) ∷ (l1_key 0 true, old_entry) ∷ [])
      (l1_key 0 false ∷ l1_key 0 true ∷ [])
      (omega (arith, refs-le ((l1_key 0 false, read_entry) ∷ (l1_key 0 true, old_entry) ∷ [])))

abbrev calls : List CacheCall
calls =
    sets 0 false body (pos 100) 1 []
    ∷ sets 256 false body (pos 100) 2 []
    ∷ gets 0 false 3
    ∷ sets 512 false body (pos 100) 4 []
    ∷ deletes 256 false
    ∷ flushes
    ∷ []

run-new-IsCache_example : IsCache 2 (run (new_l1 (pos 2) 50) calls)
run-new-IsCache_example = run-new-IsCache 2 50 calls (omega arith)

get-set_example :
    (get (set small 5 false body (pos 100) 1 []) 5 false 41).1
    ≡ some (record { raw = body; remaining = 60; stale = false; ttl_off = [] })
get-set_example =
    get-set 2 small 5 false body 100 1 [] 41 (refl, omega arith, omega arith, omega arith)

queue_grows_example :
    length
      ((come_back 5 false body 100 [] (new_l1 (pos 2) 50) (1 ∷ 200 ∷ 400 ∷ 600 ∷ 800 ∷ [])).shards
        (shard_of 5)).queue
    ≡ 5
queue_grows_example =
    queue_grows 2 50 5 false body 100 [] (1 ∷ 200 ∷ 400 ∷ 600 ∷ 800 ∷ []) (omega arith)
      (omega arith) (omega arith)
