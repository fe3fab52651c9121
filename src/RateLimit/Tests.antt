-- ===== src/RateLimit/Tests.antt =====
-- Runs of the limiter, and its theorems at concrete inputs.
use irongrid_dns.Prelude.{◌+◌, ◌*◌, ◌-◌, ◌≤◌, ◌≡◌, refl, true, false, List, [], ◌∷◌, some, arith}
use irongrid_dns.Prelude.Int.{pos, ◌+ℤ◌, ◌-ℤ◌, ◌*ℤ◌}
use irongrid_dns.Bytes.{GoString, ascii, is_empty, str_eq}
use irongrid_dns.Clock.{second, last_time}
use irongrid_dns.Shards.Hash.{shard_index}
use irongrid_dns.Shards.Table.{lookup, shard, set_shard}
use irongrid_dns.RateLimit.Tokens.{
  Limits, Bucket, unit, refill, record_violation, spend, forgive, allow_bucket,
}
use irongrid_dns.RateLimit.{
  RateLimiter, RateLimitConfig, build_rate_limiter, allow, force_block, unblock, blocked,
}
use irongrid_dns.RateLimit.Rate.{admit, admit-le}
use irongrid_dns.RateLimit.Client.{bucket_of}
use irongrid_dns.RateLimit.Isolated.{own_calls, run-own_calls}
use irongrid_dns.RateLimit.Bounded.{
  Call, allows, force_blocks, unblocks, run, IsLimiter, run-build-IsLimiter,
}

abbrev client : GoString
client = ascii "10.0.0.7"

-- Two queries a second, three at once; two violations within ten seconds block for ten seconds.
abbrev limits : Limits
limits = record { qps = 2; burst = 3; auto_block = true; block_after = 2; block_for = 10 * second }

abbrev plain : Limits
plain = record limits { auto_block = false }

abbrev bucket : Bucket
bucket = record {
  tokens = pos (2 * unit);
  last_seen = 5 * second;
  violations = 0;
  first_viol = 0;
  blocked_until = 0;
  queries = 1;
  blocks = 0;
  first_seen = 5 * second;
}

abbrev limiter : RateLimiter
limiter = record { limits = limits; shards = λ _. (client, bucket) ∷ [] }

abbrev config : RateLimitConfig
config = record {
  enabled = true;
  qps = pos 2;
  burst = pos 0;
  auto_block = true;
  block_after = pos 2;
  block_for = pos 0;
}

program : Unit {0}
unfolding allow force_block unblock blocked lookup shard set_shard admit allow_bucket spend refill
    forgive record_violation ◌+ℤ◌ ◌-ℤ◌ ◌*ℤ◌ str_eq shard_index
program = tt

named : is_empty client ≡ false
unfolding is_empty
named = refl

-- Two tokens, then one more half a second later; the fourth call finds the bucket short.
admits_three :
    (admit plain bucket ((5 * second) ∷ (5 * second) ∷ (5 * second + 1) ∷ (6 * second) ∷ [])).1 ≡ 3
unfolding program
admits_three = refl

admit-le_example :
    (admit plain bucket ((5 * second) ∷ (6 * second) ∷ [])).1 * unit
    ≤ 2 * unit + (last_time (5 * second) ((5 * second) ∷ (6 * second) ∷ []) - 5 * second) * 2
admit-le_example =
    admit-le plain bucket (2 * unit) ((5 * second) ∷ (6 * second) ∷ []) refl refl (omega arith) refl
      (omega arith)

abbrev built : RateLimiter
built = record {
  limits = record {
    qps = 2;
    burst = 2;
    auto_block = true;
    block_after = 2;
    block_for = 60 * second;
  };
  shards = λ _. [];
}

abbrev calls : List Call
calls = allows client second ∷ force_blocks client (pos 7) second ∷ unblocks client second ∷ []

run-build-IsLimiter_example : IsLimiter (run built calls)
unfolding build_rate_limiter
run-build-IsLimiter_example = run-build-IsLimiter config built calls refl

-- Another client calls and is blocked, and the first one calls in between.
abbrev mixed : List Call
mixed =
    allows (ascii "10.0.0.8") (6 * second)
    ∷ allows client (6 * second)
    ∷ force_blocks (ascii "10.0.0.8") (pos second) (6 * second)
    ∷ []

run-own_calls_example :
    (bucket_of (run limiter mixed) client ≡ some (own_calls limits client mixed bucket))
    × ((allow (run limiter mixed) client (7 * second)).1
        ≡ (allow_bucket limits (own_calls limits client mixed bucket) (7 * second)).1)
unfolding lookup shard str_eq
run-own_calls_example =
    run-own_calls limiter client bucket mixed (7 * second) named refl (omega arith)
