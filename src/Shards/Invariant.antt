-- ===== src/Shards/Invariant.antt =====
-- The invariant that the guards share: each shard is a map of at most `cap` entries, and every
-- entry is well formed.
use irongrid_dns.Prelude.{
  ℕ, ◌≤◌, ◌<◌, ◌≡◌, subst, inl, inr, false, [], none, some, arith, length, ◌==◌, Bool-cases,
  Option-cases,
}
use irongrid_dns.Bytes.{GoString, str_eq, is_empty}
use irongrid_dns.Shards.Hash.{shard_index}
use irongrid_dns.Shards.Table.{
  Table, Shards, IsTable, lookup, insert, set_shard, lookup-nil, lookup-insert, insert-IsTable,
  length-insert_old, length-insert_new,
}
use irongrid_dns.Shards.Evict.{evict}
use irongrid_dns.Shards.Evict.Laws.{evict-IsTable, evict-lt, evict-lookup}

module _ {V : Type 0} (cap : ℕ) (P : V → Type 0) where
  pub record IsShard (m : Table V) : Type 0 where
    pub table : IsTable m
    pub bounded : length m ≤ cap
    pub entries : (k : GoString) (v : V) → lookup k m ≡ some v → P v

  abbrev pub AllShards : Shards V → Type 0
  AllShards shards = (i : ℕ) → IsShard (shards i)

  pub empty-IsShard : IsShard []
  empty-IsShard = record {
    table = tt;
    bounded = omega arith;
    entries = λ k v h. absurd (ground (arith, lookup-nil {V = V} k));
  }

  entries-insert :
      (k : GoString) (v : V) (m : Table V)
      → P v
      → ((j : GoString) (w : V) → lookup j m ≡ some w → P w)
      → (j : GoString) (w : V) → lookup j (insert k v m) ≡ some w
      → P w
  entries-insert k v m p all j w h = elim (Bool-cases (str_eq k j)) [
    | inl same ↦ subst P (ground (arith, lookup-insert k j v m)) p
    | inr other ↦ all j w (ground (arith, lookup-insert k j v m))
  ]

  -- A write to a key that is there.
  pub insert_old-IsShard :
      (k : GoString) (v w : V) (m : Table V)
      → is_empty k ≡ false
      → lookup k m ≡ some w
      → P v
      → IsShard m
      → IsShard (insert k v m)
  insert_old-IsShard k v w m ne held p s = record {
    table = insert-IsTable k v m ne s.table;
    bounded = omega (arith, length-insert_old k v w m held, s.bounded);
    entries = entries-insert k v m p s.entries;
  }

  -- A new key, after an eviction.
  pub insert_evicted-IsShard :
      (seen : V → ℕ) (idle now : ℕ) (k : GoString) (v : V) (m : Table V)
      → 0 < cap
      → is_empty k ≡ false
      → lookup k m ≡ none
      → P v
      → IsShard m
      → IsShard (insert k v (evict seen cap idle now m))
  insert_evicted-IsShard seen idle now k v m c ne absent p s =
      let m' = evict seen cap idle now m in
      let gone : lookup k m' ≡ none = elim (Option-cases (lookup k m')) [
        | inl none' ↦ none'
        | inr (w, h) ↦ absurd (ground (arith, evict-lookup seen cap idle now m k w s.table h))
      ] in
      record {
        table = insert-IsTable k v m' ne (evict-IsTable seen cap idle now m s.table);
        bounded =
            omega (arith, length-insert_new k v m' gone, evict-lt seen cap idle now m c s.table);
        entries =
            entries-insert k v m' p
              (λ j w h. s.entries j w (evict-lookup seen cap idle now m j w s.table h));
      }

  pub set_shard-AllShards :
      (shards : Shards V) (k : GoString) (m : Table V)
      → AllShards shards
      → IsShard m
      → AllShards (set_shard shards k m)
  unfolding set_shard
  set_shard-AllShards shards k m all s i = elim (Bool-cases (i == shard_index k)) [
    | inl here ↦ rw here s
    | inr elsewhere ↦ rw elsewhere (all i)
  ]
