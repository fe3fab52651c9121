-- ===== src/ApiRate.antt =====
-- internal/api/apiratelimit.go: the token bucket in front of the REST API. Tokens are counted in
-- billionths, as in the DNS rate limiter.
pub mod Rate
pub mod Growth
mod Tests
use irongrid_dns.Prelude.{
  ℕ, ◌*◌, ◌-◌, Bool, true, false, List, [], ◌∷◌, Option, none, some, length, leb, if◌then◌else◌,
}
use irongrid_dns.Prelude.Int.{ℤ, pos, sub_ℕ, ◌-ℤ◌, ltb_ℤ}
use irongrid_dns.Bytes.{GoString, is_empty}
use irongrid_dns.Clock.{minute, older_than}
use irongrid_dns.Shards.Table.{Table, Shards, lookup, insert, delete_if, shard, set_shard}
use irongrid_dns.RateLimit.Tokens.{Limits, unit, refill}

abbrev pub api_rate_max_per_shard : ℕ
api_rate_max_per_shard = 4096

abbrev pub api_rate_idle_evict : ℕ
api_rate_idle_evict = 10 * minute

-- `apiRateQPS` and `apiRateBurst`. There is no auto-block.
abbrev pub api_limits : Limits
api_limits = record { qps = 25; burst = 60; auto_block = false; block_after = 0; block_for = 0 }

pub record ApiBucket : Type 0 where
  pub tokens : ℤ
  pub last_seen : ℕ

pub record ApiRateLimiter : Type 0 where
  pub shards : Shards ApiBucket

unfoldable pub new_api_rate_limiter : ApiRateLimiter
new_api_rate_limiter = record { shards = λ _. [] }

-- `evictIdleLocked`
unfoldable pub evict_idle : ℕ → Table ApiBucket → Table ApiBucket
evict_idle now m = delete_if (λ b. older_than now b.last_seen api_rate_idle_evict) m

-- `Allow` on a bucket that is there: the refill, the cap and the token.
unfoldable pub spend_api : ApiBucket → ℕ → ApiBucket × Bool
spend_api b now =
    let t = refill api_limits b.tokens (sub_ℕ now b.last_seen) in
    if ltb_ℤ t (pos unit)
    then (record { tokens = t; last_seen = now }, false)
    else (record { tokens = t -ℤ pos unit; last_seen = now }, true)

unfoldable pub first_bucket : ℕ → ApiBucket
first_bucket now = record { tokens = pos ((api_limits.burst - 1) * unit); last_seen = now }

unfoldable pub allow_in : GoString → ℕ → Table ApiBucket → Table ApiBucket × Bool
allow_in client now m = elim (lookup client m) [
  | none ↦ (
    insert client (first_bucket now)
        (if leb api_rate_max_per_shard (length m) then evict_idle now m else m),
    true,
  )
  | some b ↦ let (b', allowed) = spend_api b now in (insert client b' m, allowed)
]

unfoldable pub allow : ApiRateLimiter → GoString → ℕ → ApiRateLimiter × Bool
allow l client now =
    if is_empty client
    then (l, true)
    else let (m, allowed) = allow_in client now (shard l.shards client) in
      (record { shards = set_shard l.shards client m }, allowed)
