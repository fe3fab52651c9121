-- ===== src/ApiRate/Growth.antt =====
-- The API limiter's shards have no bound (internal/api/apiratelimit.go).
use irongrid_dns.Prelude.{
  ℕ, ◌+◌, ◌≡◌, refl, ap, ◌∙◌, inl, inr, false, none, length, leb, Bool-cases, if◌then◌else◌,
}
use irongrid_dns.Bytes.{GoString, is_empty}
use irongrid_dns.Clock.{older_than}
use irongrid_dns.Shards.Table.{
  Table, lookup, insert, shard, shard-set_shard, length-insert_new, delete_if_none, NoneDropped,
}
use irongrid_dns.ApiRate.{
  ApiRateLimiter, ApiBucket, api_rate_max_per_shard, api_rate_idle_evict, evict_idle, first_bucket,
  allow_in, allow,
}

-- Every client of the shard was seen within the idle time.
abbrev pub AllActive : ℕ → Table ApiBucket → Type 0
AllActive now = NoneDropped (λ b. older_than now b.last_seen api_rate_idle_evict)

kept :
    (now : ℕ) (m : Table ApiBucket)
    → AllActive now m
    → (if leb api_rate_max_per_shard (length m) then evict_idle now m else m) ≡ m
unfolding evict_idle
kept now m a = elim (Bool-cases (leb api_rate_max_per_shard (length m))) [
  | inl full ↦ rw (full, evict_idle) (delete_if_none _ m a)
  | inr room ↦ rw room refl
]

-- Where all clients of a shard are active, the request of one more adds a bucket, however many
-- there are: the cap of 4096 does not bound the map.
pub allow_grows :
    (l : ApiRateLimiter) (client : GoString) (now : ℕ)
    → is_empty client ≡ false
    → lookup client (shard l.shards client) ≡ none
    → AllActive now (shard l.shards client)
    → length (shard (allow l client now).0.shards client) ≡ length (shard l.shards client) + 1
unfolding allow allow_in
allow_grows l client now named absent active =
    rw (named, allow, shard-set_shard)
      (rw (absent, allow_in)
        (ap (λ m. length (insert client (first_bucket now) m))
            (kept now (shard l.shards client) active)
          ∙ length-insert_new client _ (shard l.shards client) absent))
