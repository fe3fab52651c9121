-- ===== src/RateLimit/Client.antt =====
-- The limiter as one client sees it whose calls follow one another
-- (internal/dnsserver/ratelimit.go).
use irongrid_dns.Prelude.{
  ℕ, ◌+◌, ◌<◌, ◌≡◌, refl, ap, ◌∙◌, ◌⊎◌, inl, inr, false, List, [], ◌∷◌, Option, none, some, arith,
  if◌then◌else◌, leb, Bool-cases, Option-cases,
}
use irongrid_dns.Prelude.Int.{pos}
use irongrid_dns.Bytes.{GoString, is_empty}
use irongrid_dns.Shards.Table.{
  Table, lookup, insert, shard, set_shard, lookup-insert_self, shard-set_shard,
}
use irongrid_dns.RateLimit.Tokens.{Bucket, allow_bucket}
use irongrid_dns.RateLimit.{
  RateLimiter, allow_in, force_block_in, unblock_in, allow, force_block, unblock, block_bucket,
  unblock_bucket, empty_bucket,
}
use irongrid_dns.RateLimit.Rate.{admit}

abbrev pub bucket_of : RateLimiter → GoString → Option Bucket
bucket_of rl client = lookup client (shard rl.shards client)

-- The limiter with one client's bucket written.
abbrev pub with_bucket : RateLimiter → GoString → Bucket → RateLimiter
with_bucket rl client b = record rl {
  shards = set_shard rl.shards client (insert client b (shard rl.shards client));
}

-- The calls of `Allow` for one client at the given times, and how many of them were admitted.
unfoldable pub allow_all : RateLimiter → GoString → List ℕ → RateLimiter × ℕ
allow_all rl client [] = (rl, 0)
allow_all rl client (now ∷ times) =
    let (rl', allowed) = allow rl client now in
    let (rl'', n) = allow_all rl' client times in (rl'', if allowed then n + 1 else n)

pub with_bucket-bucket_of :
    (rl : RateLimiter) (client : GoString) (b : Bucket)
    → bucket_of (with_bucket rl client b) client ≡ some b
with_bucket-bucket_of rl client b =
    ap (lookup client) (shard-set_shard rl.shards client _)
    ∙ lookup-insert_self client b (shard rl.shards client)

module _ (rl : RateLimiter) (client : GoString) (named : is_empty client ≡ false) where
  pub allow_tracked :
      (b : Bucket) (now : ℕ)
      → bucket_of rl client ≡ some b
      → allow rl client now
        ≡ (with_bucket rl client (allow_bucket rl.limits b now).0, (allow_bucket rl.limits b now).1)
  unfolding allow
  allow_tracked b now held = rw (named, held, allow, allow_in) refl

  pub unblock_tracked :
      (b : Bucket) (now : ℕ)
      → bucket_of rl client ≡ some b
      → unblock rl client now ≡ with_bucket rl client (unblock_bucket rl.limits b now)
  unfolding unblock
  unblock_tracked b now held = rw (named, held, unblock, unblock_in) refl

  pub force_block-bucket :
      (d now : ℕ)
      → 0 < d
      → (b : Bucket) × (bucket_of (force_block rl client (pos d) now) client ≡ some b)
        × (b.blocked_until ≡ now + d)
  unfolding force_block block_bucket
  force_block-bucket d now p = elim (Bool-cases (leb d 0)) [
    | inl z ↦ absurd (ground arith)
    | inr some_time ↦
        rw (named, some_time, force_block) (written (Option-cases (bucket_of rl client)))
  ]
    where
      m : Table Bucket
      m = shard rl.shards client

      written :
          (bucket_of rl client ≡ none) ⊎ ((b : Bucket) × (bucket_of rl client ≡ some b))
          → (b : Bucket) × (lookup client
                (shard (set_shard rl.shards client (force_block_in client d now m)) client)
              ≡ some b)
            × (b.blocked_until ≡ now + d)
      written (inl absent) = (
        block_bucket (empty_bucket now) d now,
        ap (lookup client) (shard-set_shard rl.shards client _)
            ∙ rw (absent, force_block_in) (lookup-insert_self client _ _),
        refl,
      )
      written (inr (b, held)) = (
        block_bucket b d now,
        ap (lookup client) (shard-set_shard rl.shards client _)
            ∙ rw (held, force_block_in) (lookup-insert_self client _ _),
        refl,
      )

-- The calls of a client with a bucket, seen from outside, are the calls on the bucket.
pub allow_all-bucket :
    (rl : RateLimiter) (client : GoString)
    → is_empty client ≡ false
    → (b : Bucket) (times : List ℕ) → bucket_of rl client ≡ some b
    → ((allow_all rl client times).1 ≡ (admit rl.limits b times).1)
      × (bucket_of (allow_all rl client times).0 client ≡ some (admit rl.limits b times).0)
unfolding allow_all admit
allow_all-bucket rl client named b [] held = (refl, held)
allow_all-bucket rl client named b (now ∷ times) held =
    let b' = (allow_bucket rl.limits b now).0 in
    let rest =
      allow_all-bucket (with_bucket rl client b') client named b' times
        (with_bucket-bucket_of rl client b') in
    rw (allow_tracked rl client named b now held, rest.0) (refl, rest.1)
