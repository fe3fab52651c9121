-- ===== src/ApiRate/Rate.antt =====
-- The API limiter admits at its rate (internal/api/apiratelimit.go).
use irongrid_dns.Prelude.{
  ℕ, ◌+◌, ◌-◌, ◌*◌, ◌≤◌, ◌≡◌, refl, sym, ap, ◌∙◌, false, List, [], ◌∷◌, Option, some, arith,
  if◌then◌else◌,
}
use irongrid_dns.Prelude.Int.{pos}
use irongrid_dns.Bytes.{GoString, is_empty}
use irongrid_dns.Clock.{Ascending, last_time}
use irongrid_dns.Shards.Table.{lookup, insert, shard, set_shard, lookup-written}
use irongrid_dns.RateLimit.Tokens.{Bucket, unit, allow_bucket, spend, record_violation}
use irongrid_dns.RateLimit.Rate.{admit, admit-le}
use irongrid_dns.ApiRate.{ApiRateLimiter, ApiBucket, api_limits, spend_api, allow_in, allow}

-- The calls of `Allow` for one client at the given times, and how many were admitted.
unfoldable pub allow_all : ApiRateLimiter → GoString → List ℕ → ApiRateLimiter × ℕ
allow_all l client [] = (l, 0)
allow_all l client (now ∷ times) =
    let (l', allowed) = allow l client now in
    let (l'', n) = allow_all l' client times in (l'', if allowed then n + 1 else n)

abbrev pub bucket_of : ApiRateLimiter → GoString → Option ApiBucket
bucket_of l client = lookup client (shard l.shards client)

-- The bucket of the DNS limiter that holds the same tokens, and has no block.
abbrev Same : ApiBucket → Bucket → Type 0
Same b d = (d.tokens ≡ b.tokens) × (d.last_seen ≡ b.last_seen) × (d.blocked_until ≡ 0)

spend-Same :
    (b : ApiBucket) (d : Bucket) (now : ℕ)
    → Same b d
    → ((allow_bucket api_limits d now).1 ≡ (spend_api b now).1)
      × Same (spend_api b now).0 (allow_bucket api_limits d now).0
unfolding allow_bucket spend record_violation spend_api
spend-Same b d now (t, s, o) = ground arith

allow_tracked :
    (l : ApiRateLimiter) (client : GoString) (b : ApiBucket) (now : ℕ)
    → is_empty client ≡ false
    → bucket_of l client ≡ some b
    → allow l client now ≡ (
      record {
        shards =
            set_shard l.shards client (insert client (spend_api b now).0 (shard l.shards client));
      },
      (spend_api b now).1,
    )
unfolding allow allow_in
allow_tracked l client b now named held = rw (named, held, allow, allow_in) refl

-- The limiter admits a client at the times at which the DNS limiter's bucket would, with a burst
-- of 60, 25 a second and no auto-block.
all-admit :
    (l : ApiRateLimiter) (client : GoString) (b : ApiBucket) (d : Bucket) (times : List ℕ)
    → is_empty client ≡ false
    → bucket_of l client ≡ some b
    → Same b d
    → (allow_all l client times).1 ≡ (admit api_limits d times).1
unfolding allow_all admit
all-admit l client b d [] named held same = refl
all-admit l client b d (now ∷ times) named held same =
    let (b', allowed) = spend_api b now in
    let l' : ApiRateLimiter = record {
      shards = set_shard l.shards client (insert client b' (shard l.shards client));
    } in
    let d' = (allow_bucket api_limits d now).0 in
    let (answer, same') = spend-Same b d now same in
    let step : allow l client now ≡ (l', allowed) = allow_tracked l client b now named held in
    let rest =
      all-admit l' client b' d' times named
        (lookup-written l.shards client b' (shard l.shards client)) same' in
    ap (λ r. if r.1 then (allow_all r.0 client times).1 + 1 else (allow_all r.0 client times).1)
      step
    ∙ ap (λ n. if allowed then n + 1 else n) rest
    ∙ ap (λ a. if a then (admit api_limits d' times).1 + 1 else (admit api_limits d' times).1)
        (sym answer)

-- A client that the limiter knows is admitted at most as often as the tokens it has left and 25
-- for each second that passes, at times that do not run backwards.
pub allow_all-le :
    (l : ApiRateLimiter) (client : GoString) (b : ApiBucket) (level : ℕ) (times : List ℕ)
    → is_empty client ≡ false
    → bucket_of l client ≡ some b
    → b.tokens ≡ pos level
    → level ≤ 60 * unit
    → Ascending b.last_seen times
    → (allow_all l client times).1 * unit ≤ level + (last_time b.last_seen times - b.last_seen) * 25
allow_all-le l client b level times named held e c asc =
    let d : Bucket = record {
      tokens = b.tokens;
      last_seen = b.last_seen;
      violations = 0;
      first_viol = 0;
      blocked_until = 0;
      queries = 0;
      blocks = 0;
      first_seen = 0;
    } in
    omega (
      arith,
      all-admit l client b d times named held (refl, refl, refl),
      admit-le api_limits d level times refl e c refl asc,
    )
