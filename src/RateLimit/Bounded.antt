-- ===== src/RateLimit/Bounded.antt =====
-- The memory bound of the limiter and the range of its buckets (internal/dnsserver/ratelimit.go).
use irongrid_dns.Prelude.{
  ℕ, ◌+◌, ◌*◌, ◌<◌, ◌≡◌, refl, sym, ap, ◌∙◌, ◌⊎◌, inl, inr, false, List, [], ◌∷◌, Option, none,
  some, arith, leb, Bool-cases, Option-cases,
}
use irongrid_dns.Prelude.Int.{ℤ, pos, negsuc, ◌≤ℤ◌, -ℤ_parts, sub_ℕ}
use irongrid_dns.Bytes.{GoString, is_empty}
use irongrid_dns.Shards.Hash.{shard_index}
use irongrid_dns.Shards.Table.{Table, Shards, lookup, insert, shard}
use irongrid_dns.Shards.Invariant.{
  IsShard, AllShards, empty-IsShard, insert_old-IsShard, insert_evicted-IsShard,
  set_shard-AllShards,
}
use irongrid_dns.RateLimit.Tokens.{
  Limits, Bucket, unit, refill, record_violation, spend, forgive, allow_bucket,
}
use irongrid_dns.RateLimit.{
  RateLimiter, rl_max_per_shard, rl_idle_evict, first_bucket, empty_bucket, block_bucket,
  unblock_bucket, allow_in, force_block_in, unblock_in, allow, force_block, unblock, evict_locked,
  RateLimitConfig, build_rate_limiter,
}

-- No bucket is over-full, and a count of violations stays below the threshold.
pub record Fits (l : Limits) (b : Bucket) : Type 0 where
  pub capped : b.tokens ≤ℤ pos (l.burst * unit)
  pub calm : (b.violations ≡ 0) ⊎ (b.violations < l.block_after)

module _ (l : Limits) where
  refill-le : (t e : ℤ) → refill l t e ≤ℤ pos (l.burst * unit)
  unfolding refill
  refill-le t e = ground arith

  record_violation-Fits : (b : Bucket) (now : ℕ) → Fits l b → Fits l (record_violation l b now)
  unfolding record_violation
  record_violation-Fits b now f = ground arith

  spend-Fits : (b : Bucket) (e : ℤ) (now : ℕ) → Fits l b → Fits l (spend l b e now).0
  unfolding spend
  spend-Fits b e now f = ground (
    arith,
    refill-le b.tokens e,
    -ℤ_parts (refill l b.tokens e) (pos unit),
    record_violation-Fits (record b { tokens = refill l b.tokens e }) now,
  )

  forgive-Fits : (b : Bucket) → Fits l (forgive l b)
  unfolding forgive
  forgive-Fits b = record { capped = omega arith; calm = inl refl }

  allow_bucket-Fits : (b : Bucket) (now : ℕ) → Fits l b → Fits l (allow_bucket l b now).0
  unfolding allow_bucket
  allow_bucket-Fits b now f =
      let e = sub_ℕ now b.last_seen in
      let seen : Bucket = record b { last_seen = now; queries = b.queries + 1 } in
      let seen_fits : Fits l seen = record { capped = f.capped; calm = f.calm } in
      let forgiven_fits : Fits l (forgive l seen) = forgive-Fits seen in
      ground (
        arith,
        spend-Fits seen e now seen_fits,
        spend-Fits (forgive l seen) e now forgiven_fits,
        seen_fits,
      )

  block_bucket-Fits : (b : Bucket) (d now : ℕ) → Fits l b → Fits l (block_bucket b d now)
  unfolding block_bucket
  block_bucket-Fits b d now f = record { capped = f.capped; calm = inl refl }

  first_bucket-Fits : (now : ℕ) → Fits l (first_bucket l now)
  unfolding first_bucket
  first_bucket-Fits now = record { capped = omega arith; calm = inl refl }

  empty_bucket-Fits : (now : ℕ) → Fits l (empty_bucket now)
  unfolding empty_bucket
  empty_bucket-Fits now = record { capped = omega arith; calm = inl refl }

  unblock_bucket-Fits : (b : Bucket) (now : ℕ) → Fits l (unblock_bucket l b now)
  unfolding unblock_bucket
  unblock_bucket-Fits b now = record { capped = omega arith; calm = inl refl }

  abbrev IsGood : Table Bucket → Type 0
  IsGood = IsShard rl_max_per_shard (Fits l)

  module _ (client : GoString) (now : ℕ) (m : Table Bucket) (named : is_empty client ≡ false) where
    admit_new :
        (b : Bucket)
        → lookup client m ≡ none
        → Fits l b
        → IsGood m
        → IsGood (insert client b (evict_locked now m))
    unfolding evict_locked
    admit_new b absent f s =
        insert_evicted-IsShard rl_max_per_shard (Fits l) (λ (e : Bucket). e.last_seen) rl_idle_evict
          now client b m (omega arith) named absent f s

    allow_in-IsShard : IsGood m → IsGood (allow_in l client now m).0
    unfolding allow_in
    allow_in-IsShard s = elim (Option-cases (lookup client m)) [
      | inl absent ↦
          rw (absent, allow_in) (admit_new (first_bucket l now) absent (first_bucket-Fits now) s)
      | inr (b, held) ↦
          rw (held, allow_in)
            (insert_old-IsShard rl_max_per_shard (Fits l) client _ b m named held
              (allow_bucket-Fits b now (s.entries client b held)) s)
    ]

    force_block_in-IsShard : (d : ℕ) → IsGood m → IsGood (force_block_in client d now m)
    unfolding force_block_in
    force_block_in-IsShard d s = elim (Option-cases (lookup client m)) [
      | inl absent ↦
          rw (absent, force_block_in)
            (admit_new (block_bucket (empty_bucket now) d now) absent
              (block_bucket-Fits (empty_bucket now) d now (empty_bucket-Fits now)) s)
      | inr (b, held) ↦
          rw (held, force_block_in)
            (insert_old-IsShard rl_max_per_shard (Fits l) client (block_bucket b d now) b m named
              held (block_bucket-Fits b d now (s.entries client b held)) s)
    ]

    unblock_in-IsShard : IsGood m → IsGood (unblock_in l client now m)
    unfolding unblock_in
    unblock_in-IsShard s = elim (Option-cases (lookup client m)) [
      | inl absent ↦ rw (absent, unblock_in) s
      | inr (b, held) ↦
          rw (held, unblock_in)
            (insert_old-IsShard rl_max_per_shard (Fits l) client (unblock_bucket l b now) b m named
              held (unblock_bucket-Fits b now) s)
    ]

-- The whole limiter: every shard within its bound, every bucket in range.
abbrev pub IsLimiter : RateLimiter → Type 0
IsLimiter rl = AllShards rl_max_per_shard (Fits rl.limits) rl.shards

-- What the rest of the program may call, at a time.
pub data Call : Type 0 where
  allows : GoString → ℕ → Call
  force_blocks : GoString → ℤ → ℕ → Call
  unblocks : GoString → ℕ → Call

unfoldable pub step : RateLimiter → Call → RateLimiter
step rl (allows client now) = (allow rl client now).0
step rl (force_blocks client d now) = force_block rl client d now
step rl (unblocks client now) = unblock rl client now

unfoldable pub run : RateLimiter → List Call → RateLimiter
unfolding step
run rl [] = rl
run rl (c ∷ cs) = run (step rl c) cs

allow-IsLimiter :
    (rl : RateLimiter) (client : GoString) (now : ℕ)
    → IsLimiter rl
    → IsLimiter (allow rl client now).0
unfolding allow shard
allow-IsLimiter rl client now all = elim (Bool-cases (is_empty client)) [
  | inl e ↦ rw (e, allow) all
  | inr named ↦
      rw (named, allow)
        (set_shard-AllShards rl_max_per_shard (Fits rl.limits) rl.shards client _ all
          (allow_in-IsShard rl.limits client now _ named (all (shard_index client))))
]

force_block-IsLimiter :
    (rl : RateLimiter) (client : GoString) (d : ℤ) (now : ℕ)
    → IsLimiter rl
    → IsLimiter (force_block rl client d now)
unfolding force_block shard
force_block-IsLimiter rl client (negsuc d) now all = all
force_block-IsLimiter rl client (pos d) now all = elim (Bool-cases (is_empty client)) [
  | inl e ↦ rw (e, force_block) all
  | inr named ↦ elim (Bool-cases (leb d 0)) [
    | inl z ↦ rw (named, z, force_block) all
    | inr p ↦
        rw (named, p, force_block)
          (set_shard-AllShards rl_max_per_shard (Fits rl.limits) rl.shards client _ all
            (force_block_in-IsShard rl.limits client now _ named d (all (shard_index client))))
  ]
]

unblock-IsLimiter :
    (rl : RateLimiter) (client : GoString) (now : ℕ)
    → IsLimiter rl
    → IsLimiter (unblock rl client now)
unfolding unblock shard
unblock-IsLimiter rl client now all = elim (Bool-cases (is_empty client)) [
  | inl e ↦ rw (e, unblock) all
  | inr named ↦
      rw (named, unblock)
        (set_shard-AllShards rl_max_per_shard (Fits rl.limits) rl.shards client _ all
          (unblock_in-IsShard rl.limits client now _ named (all (shard_index client))))
]

step-IsLimiter : (rl : RateLimiter) (c : Call) → IsLimiter rl → IsLimiter (step rl c)
unfolding step
step-IsLimiter rl (allows client now) all = allow-IsLimiter rl client now all
step-IsLimiter rl (force_blocks client d now) all = force_block-IsLimiter rl client d now all
step-IsLimiter rl (unblocks client now) all = unblock-IsLimiter rl client now all

run-IsLimiter : (rl : RateLimiter) (cs : List Call) → IsLimiter rl → IsLimiter (run rl cs)
unfolding run
run-IsLimiter rl [] all = all
run-IsLimiter rl (c ∷ cs) all = run-IsLimiter (step rl c) cs (step-IsLimiter rl c all)

abbrev shards_of : Option RateLimiter → Shards Bucket
shards_of none = λ _. []
shards_of (some rl) = rl.shards

built-empty : (c : RateLimitConfig) (i : ℕ) → shards_of (build_rate_limiter c) i ≡ []
unfolding build_rate_limiter
built-empty c i = elim (Bool-cases c.enabled) [
  | inr off ↦ rw (off, build_rate_limiter)
  | inl on ↦ elim (Bool-cases c.auto_block) [
    | inl auto ↦ rw (on, auto, build_rate_limiter)
    | inr plain ↦ rw (on, plain, build_rate_limiter)
  ]
]

built-IsLimiter :
    (c : RateLimitConfig) (rl : RateLimiter) → build_rate_limiter c ≡ some rl → IsLimiter rl
built-IsLimiter c rl e i =
    rw (ap (λ o. shards_of o i) (sym e) ∙ built-empty c i)
      (empty-IsShard rl_max_per_shard (Fits rl.limits))

-- Whatever is configured and whatever calls arrive in whatever order, no shard of the limiter
-- that is built ever holds more than 4096 clients or a client twice, no bucket holds more tokens
-- than the burst, and no count of violations reaches the threshold and stays.
pub run-build-IsLimiter :
    (c : RateLimitConfig) (rl : RateLimiter) (cs : List Call)
    → build_rate_limiter c ≡ some rl
    → IsLimiter (run rl cs)
run-build-IsLimiter c rl cs e = run-IsLimiter rl cs (built-IsLimiter c rl e)
