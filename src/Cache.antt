-- ===== src/Cache.antt =====
-- internal/cache/l1.go: the in-process cache in front of the shared one. A key of the map
-- (`l1Key`) is the pair of the hash and the flag, spelled as a list of two numbers.
pub mod Fuel
pub mod Queue
pub mod Bounded
pub mod Reads
pub mod Duplicates
mod Tests
use irongrid_dns.Prelude.{
  ℕ, zero, suc, ◌+◌, ◌-◌, ◌*◌, ◌%◌, Bool, true, false, not, ◌||◌, List, [], ◌∷◌, ◌++◌, Option, none,
  some, length, ltb, leb, ◌==◌, if◌then◌else◌,
}
use irongrid_dns.Prelude.Int.{ℤ, pos, negsuc}
use irongrid_dns.Bytes.{GoString}
use irongrid_dns.Shards.Table.{Table, lookup, insert, delete}

abbrev pub l1_shards : ℕ
l1_shards = 256

abbrev pub L1Key : Type 0
L1Key = GoString

abbrev pub l1_key : ℕ → Bool → L1Key
l1_key h neg = h ∷ (if neg then 1 else 0) ∷ []

pub record L1Entry : Type 0 where
  pub raw : List ℕ
  pub ttl_off : List ℕ
  pub expires : ℕ
  pub stale_until : ℕ
  pub referenced : Bool

pub record L1Shard : Type 0 where
  pub m : Table L1Entry
  pub queue : List L1Key

-- A `cap` of 0 or less is no cap. The window of stale answers is not negative.
pub record L1Cache : Type 0 where
  pub cap : ℤ
  pub stale_ttl : ℕ
  pub shards : ℕ → L1Shard

abbrev pub empty_shard : L1Shard
empty_shard = record { m = []; queue = [] }

unfoldable pub new_l1 : ℤ → ℕ → L1Cache
new_l1 cap_per_shard stale_ttl = record {
  cap = cap_per_shard;
  stale_ttl = stale_ttl;
  shards = λ _. empty_shard;
}

-- `h & (l1Shards-1)`
abbrev pub shard_of : ℕ → ℕ
shard_of h = h % l1_shards

unfoldable pub set_shard : L1Cache → ℕ → L1Shard → L1Cache
set_shard c h s = record c { shards = λ i. if i == shard_of h then s else c.shards i }

-- One round of the loop of `evictToCap`, on the key at the head of the queue.
unfoldable pub evict_head : L1Key → List L1Key → Table L1Entry → L1Shard
evict_head k q m = elim (lookup k m) [
  | none ↦ record { m = m; queue = q }
  | some e ↦
      if e.referenced
      then record { m = insert k (record e { referenced = false }) m; queue = q ++ (k ∷ []) }
      else record { m = delete k m; queue = q }
]

-- `evictToCap`, for a number of rounds.
unfoldable pub evict_to_cap : ℕ → ℕ → Table L1Entry → List L1Key → L1Shard
unfolding evict_head
evict_to_cap zero cap m queue = record { m = m; queue = queue }
evict_to_cap (suc f) cap m [] = record { m = m; queue = [] }
evict_to_cap (suc f) cap m (k ∷ q) = elim (leb (length m) cap) [
  | true ↦ record { m = m; queue = k ∷ q }
  | false ↦ let next = evict_head k q m in evict_to_cap f cap next.m next.queue
]

-- Two passes over the queue: one round for each slot, and one more for each entry that is spared.
abbrev pub rounds : Table L1Entry → List L1Key → ℕ
rounds m queue = length queue + length m

-- The slots of the queue whose key is in the map.
unfoldable pub keep_live : Table L1Entry → List L1Key → List L1Key
keep_live m [] = []
keep_live m (k ∷ q) = elim (lookup k m) [ none ↦ keep_live m q | some e ↦ k ∷ keep_live m q ]

unfoldable pub compact : L1Shard → L1Shard
unfolding keep_live
compact s = record { m = s.m; queue = keep_live s.m s.queue }

-- The entry that `set` stores.
abbrev pub entry_of : List ℕ → List ℕ → ℕ → ℕ → ℕ → L1Entry
entry_of raw ttl_off ttl stale_ttl now = record {
  raw = raw;
  ttl_off = ttl_off;
  expires = now + ttl;
  stale_until = now + (ttl + stale_ttl);
  referenced = false;
}

-- The queue is compacted once it is more than twice the cap.
unfoldable pub trim : ℕ → L1Shard → L1Shard
unfolding compact
trim cap s = if ltb (2 * cap) (length s.queue) then compact s else s

-- `set` of a new key in a shard with a cap.
unfoldable pub add_new : ℕ → L1Key → L1Entry → L1Shard → L1Shard
unfolding evict_to_cap trim
add_new cap k e s =
    let m = insert k e s.m in
    let queue = s.queue ++ (k ∷ []) in trim cap (evict_to_cap (rounds m queue) cap m queue)

-- `set` on a shard, once the arguments are found usable.
unfoldable pub set_in : ℤ → L1Key → L1Entry → L1Shard → L1Shard
unfolding add_new
set_in (negsuc cap) k e s = record s { m = insert k e s.m }
set_in (pos cap) k e s =
    if ltb 0 cap
    then elim (lookup k s.m) [
      | none ↦ add_new cap k e s
      | some old ↦ record s { m = insert k e s.m }
    ]
    else record s { m = insert k e s.m }

unfoldable pub set : L1Cache → ℕ → Bool → List ℕ → ℤ → ℕ → List ℕ → L1Cache
unfolding set_in set_shard
set c h neg raw (negsuc ttl) now ttl_off = c
set c h neg raw (pos ttl) now ttl_off =
    if leb ttl 0 || leb (length raw) 0
    then c
    else set_shard c h (
        set_in c.cap (l1_key h neg) (entry_of raw ttl_off ttl c.stale_ttl now)
          (c.shards (shard_of h)))

unfoldable pub del : L1Cache → ℕ → Bool → L1Cache
unfolding set_shard
del c h neg =
    let s = c.shards (shard_of h) in set_shard c h (record s { m = delete (l1_key h neg) s.m })

-- What `get` returns with `ok`.
pub record Hit : Type 0 where
  pub raw : List ℕ
  pub remaining : ℕ
  pub stale : Bool
  pub ttl_off : List ℕ

-- The entry with its bit set, as `get` leaves it.
unfoldable pub mark : L1Cache → ℕ → Bool → L1Entry → L1Cache
unfolding set_shard
mark c h neg e =
    let s = c.shards (shard_of h) in
    set_shard c h (record s { m = insert (l1_key h neg) (record e { referenced = true }) s.m })

unfoldable pub get : L1Cache → ℕ → Bool → ℕ → L1Cache × Option Hit
unfolding mark del
get c h neg now = elim (lookup (l1_key h neg) (c.shards (shard_of h)).m) [
  | none ↦ (c, none)
  | some e ↦
      let c' = mark c h neg e in
      if ltb now e.expires
      then (
        c',
        some (record {
          raw = e.raw;
          remaining = e.expires - now;
          stale = false;
          ttl_off = e.ttl_off;
        }),
      )
      else if ltb now e.stale_until
      then (c', some (record { raw = e.raw; remaining = 0; stale = true; ttl_off = e.ttl_off }))
      else (del c' h neg, none)
]

unfoldable pub flush : L1Cache → L1Cache
flush c = record c { shards = λ _. empty_shard }
