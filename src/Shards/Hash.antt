-- ===== src/Shards/Hash.antt =====
-- internal/shardutil/shardutil.go: the 32-bit FNV-1a hash that picks a shard.
use irongrid_dns.Prelude.{ℕ, ◌-◌, ◌*◌, ◌%◌, ◌^◌, ◌≡◌, refl, [], ◌∷◌, bit_and, bit_xor}
use irongrid_dns.Bytes.{GoString, ascii}

-- The loop body, from the hash so far. `uint32` multiplication wraps.
fnv1a_from : ℕ → GoString → ℕ
fnv1a_from h [] = h
fnv1a_from h (c ∷ key) = fnv1a_from (bit_xor h c * 16777619 % 2 ^ 32) key

pub fnv1a : GoString → ℕ
unfolding fnv1a_from
fnv1a key = fnv1a_from 2166136261 key

-- Sixty-four shards in every guard.
abbrev pub shard_count : ℕ
shard_count = 64

unfoldable pub shard_index : GoString → ℕ
unfolding fnv1a
shard_index key = bit_and (fnv1a key) (shard_count - 1)

fnv1a_a : fnv1a (ascii "a") ≡ 0xe40c292c
unfolding fnv1a
fnv1a_a = refl
