-- ===== src/RateLimit.antt =====
-- internal/dnsserver/ratelimit.go: the per-client token bucket with the auto-block. A `float64` of
-- tokens is an integer number of billionths of a token, so that a refill is exact; the rounding
-- of floats is not modelled. The counters do not overflow.
pub mod Tokens
pub mod Rate
pub mod Client
pub mod Bounded
pub mod Touches
pub mod Isolated
pub mod Blocking
mod Tests
use irongrid_dns.Prelude.{
  ℕ, ◌+◌, ◌*◌, ◌-◌, Bool, true, false, not, ◌&&◌, List, [], ◌∷◌, ◌++◌, Option, none, some, ltb, leb,
  if◌then◌else◌,
}
use irongrid_dns.Prelude.Int.{ℤ, pos, negsuc}
use irongrid_dns.Bytes.{GoString, is_empty}
use irongrid_dns.Clock.{minute, is_zero, at_least, positive_or}
use irongrid_dns.Shards.Hash.{shard_count}
use irongrid_dns.Shards.Table.{Table, Shards, lookup, insert, shard, set_shard}
use irongrid_dns.Shards.Evict.{evict}
use Tokens.{Bucket, Limits, unit, allow_bucket}

abbrev pub rl_max_per_shard : ℕ
rl_max_per_shard = 4096

abbrev pub rl_idle_evict : ℕ
rl_idle_evict = 10 * minute

pub record RateLimiter : Type 0 where
  pub limits : Limits
  pub open limits use *
  pub shards : Shards Bucket

unfoldable pub new_rate_limiter : ℤ → ℤ → RateLimiter
new_rate_limiter qps burst =
    let q = at_least 1 qps in
    record {
      limits = record {
        qps = q;
        burst = at_least q burst;
        auto_block = false;
        block_after = 0;
        block_for = 0;
      };
      shards = λ _. [];
    }

unfoldable pub set_auto_block : RateLimiter → ℤ → ℤ → RateLimiter
set_auto_block rl after block_for = record rl {
  limits = record {
    qps = rl.qps;
    burst = rl.burst;
    auto_block = true;
    block_after = at_least 1 after;
    block_for = positive_or minute block_for;
  };
}

-- `config.RateLimitConfig`, as far as internal/dnsserver/policy.go reads it.
pub record RateLimitConfig : Type 0 where
  pub enabled : Bool
  pub qps : ℤ
  pub burst : ℤ
  pub auto_block : Bool
  pub block_after : ℤ
  pub block_for : ℤ

-- internal/dnsserver/policy.go, `BuildRateLimiter`: `none` is the nil of a disabled limiter.
unfoldable pub build_rate_limiter : RateLimitConfig → Option RateLimiter
unfolding new_rate_limiter set_auto_block
build_rate_limiter c =
    let lim = new_rate_limiter c.qps c.burst in
    if not c.enabled
    then none
    else if c.auto_block
    then some (set_auto_block lim c.block_after c.block_for)
    else some lim

-- `evictLocked`
unfoldable pub evict_locked : ℕ → Table Bucket → Table Bucket
evict_locked now = evict (λ b. b.last_seen) rl_max_per_shard rl_idle_evict now

-- The bucket of a client that is seen for the first time.
unfoldable pub first_bucket : Limits → ℕ → Bucket
first_bucket l now = record {
  tokens = pos ((l.burst - 1) * unit);
  last_seen = now;
  violations = 0;
  first_viol = 0;
  blocked_until = 0;
  queries = 1;
  blocks = 0;
  first_seen = now;
}

-- `Allow` on the shard of a client.
unfoldable pub allow_in : Limits → GoString → ℕ → Table Bucket → Table Bucket × Bool
unfolding evict_locked first_bucket
allow_in l client now m = elim (lookup client m) [
  | none ↦ (insert client (first_bucket l now) (evict_locked now m), true)
  | some b ↦ let (b', allowed) = allow_bucket l b now in (insert client b' m, allowed)
]

unfoldable pub allow : RateLimiter → GoString → ℕ → RateLimiter × Bool
unfolding allow_in
allow rl client now =
    if is_empty client
    then (rl, true)
    else let (m, allowed) = allow_in rl.limits client now (shard rl.shards client) in
      (record rl { shards = set_shard rl.shards client m }, allowed)

-- The bucket that `ForceBlock` makes for a client without one.
unfoldable pub empty_bucket : ℕ → Bucket
empty_bucket now = record {
  tokens = pos 0;
  last_seen = now;
  violations = 0;
  first_viol = 0;
  blocked_until = 0;
  queries = 0;
  blocks = 0;
  first_seen = now;
}

unfoldable pub block_bucket : Bucket → ℕ → ℕ → Bucket
block_bucket b d now = record b {
  blocked_until = now + d;
  violations = 0;
  first_viol = 0;
  blocks = b.blocks + 1;
  last_seen = now;
}

-- `ForceBlock` on the shard of a client.
unfoldable pub force_block_in : GoString → ℕ → ℕ → Table Bucket → Table Bucket
unfolding evict_locked empty_bucket block_bucket
force_block_in client d now m = elim (lookup client m) [
  | none ↦ insert client (block_bucket (empty_bucket now) d now) (evict_locked now m)
  | some b ↦ insert client (block_bucket b d now) m
]

unfoldable pub force_block : RateLimiter → GoString → ℤ → ℕ → RateLimiter
unfolding force_block_in
force_block rl client (negsuc _) now = rl
force_block rl client (pos d) now =
    if is_empty client then rl else if leb d 0 then rl else record rl {
      shards = set_shard rl.shards client (force_block_in client d now (shard rl.shards client));
    }

-- `!b.blockedUntil.IsZero() && now.Before(b.blockedUntil)`
unfoldable pub is_blocked : Bucket → ℕ → Bool
is_blocked b now = not (is_zero b.blocked_until) && ltb now b.blocked_until

unfoldable pub blocked : RateLimiter → GoString → ℕ → Bool × ℕ
unfolding is_blocked
blocked rl client now =
    if is_empty client then (false, 0) else elim (lookup client (shard rl.shards client)) [
      | none ↦ (false, 0)
      | some b ↦ if is_blocked b now then (true, b.blocked_until) else (false, 0)
    ]

unfoldable pub unblock_bucket : Limits → Bucket → ℕ → Bucket
unblock_bucket l b now = record b {
  blocked_until = 0;
  violations = 0;
  first_viol = 0;
  tokens = pos (l.burst * unit);
  last_seen = now;
}

unfoldable pub unblock_in : Limits → GoString → ℕ → Table Bucket → Table Bucket
unfolding unblock_bucket
unblock_in l client now m = elim (lookup client m) [
  | none ↦ m
  | some b ↦ insert client (unblock_bucket l b now) m
]

unfoldable pub unblock : RateLimiter → GoString → ℕ → RateLimiter
unfolding unblock_in
unblock rl client now = if is_empty client then rl else record rl {
  shards = set_shard rl.shards client (unblock_in rl.limits client now (shard rl.shards client));
}
