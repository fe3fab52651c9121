-- ===== src/RateLimit/Blocking.antt =====
-- How a client comes to be blocked, stays blocked and is let in again
-- (internal/dnsserver/ratelimit.go).
use irongrid_dns.Prelude.{
  ℕ, ◌+◌, ◌*◌, ◌≤◌, ◌<◌, ◌≡◌, refl, ap, ◌∙◌, inl, inr, true, false, List, [], ◌∷◌, some, arith,
  length, ltb, if◌then◌else◌, Bool-cases,
}
use irongrid_dns.Prelude.Int.{pos, sub_ℕ}
use irongrid_dns.Bytes.{GoString, is_empty}
use irongrid_dns.Clock.{Within, Before, last_time}
use irongrid_dns.RateLimit.Tokens.{
  Limits, Bucket, unit, record_violation, allow_bucket, spend, refill,
}
use irongrid_dns.RateLimit.{RateLimiter, allow, force_block, unblock, blocked, unblock_bucket}
use irongrid_dns.RateLimit.Rate.{admit, refill-pos, allow_bucket_open}
use irongrid_dns.RateLimit.Client.{
  bucket_of, with_bucket, with_bucket-bucket_of, allow_all, allow_all-bucket, allow_tracked,
  unblock_tracked, force_block-bucket,
}

-- Violations at the given times, one after the other.
unfoldable pub violate : Limits → Bucket → List ℕ → Bucket
violate l b [] = b
violate l b (now ∷ times) = violate l (record_violation l b now) times

module _ (l : Limits) (auto : l.auto_block ≡ true) where
  count_again :
      (b : Bucket) (now : ℕ)
      → 0 < b.first_viol
      → now ≤ b.first_viol + l.block_for
      → b.violations + 1 < l.block_after
      → record_violation l b now ≡ record b { violations = b.violations + 1 }
  unfolding record_violation
  count_again b now f w h = ground arith

  trips_now :
      (b : Bucket) (now : ℕ)
      → 0 < b.first_viol
      → now ≤ b.first_viol + l.block_for
      → b.violations + 1 ≡ l.block_after
      → (record_violation l b now).blocked_until ≡ now + l.block_for
  unfolding record_violation
  trips_now b now f w h = ground arith

  count_first :
      (b : Bucket) (now : ℕ)
      → b.first_viol ≡ 0
      → 1 < l.block_after
      → record_violation l b now ≡ record b { first_viol = now; violations = 1 }
  unfolding record_violation
  count_first b now f h = ground arith

  trips_first :
      (b : Bucket) (now : ℕ)
      → b.first_viol ≡ 0
      → l.block_after ≡ 1
      → (record_violation l b now).blocked_until ≡ now + l.block_for
  unfolding record_violation
  trips_first b now f h = ground arith

  count-violate :
      (b : Bucket) (times : List ℕ)
      → 0 < b.first_viol
      → Within b.first_viol l.block_for times
      → b.violations + length times < l.block_after
      → (violate l b times).blocked_until ≡ b.blocked_until
  unfolding violate
  count-violate b [] f w h = refl
  count-violate b (now ∷ times) f w h =
      ap (λ r. (violate l r times).blocked_until) (count_again b now f w.0 (omega arith))
      ∙ count-violate (record b { violations = b.violations + 1 }) times f w.1 (omega arith)

  trip-violate :
      (b : Bucket) (now : ℕ) (times : List ℕ)
      → 0 < b.first_viol
      → Within b.first_viol l.block_for (now ∷ times)
      → b.violations + length (now ∷ times) ≡ l.block_after
      → (violate l b (now ∷ times)).blocked_until ≡ last_time now times + l.block_for
  unfolding violate
  trip-violate b now [] f w h = trips_now b now f w.0 (omega arith)
  trip-violate b now (next ∷ times) f w h =
      ap (λ r. (violate l r (next ∷ times)).blocked_until) (count_again b now f w.0 (omega arith))
      ∙ trip-violate (record b { violations = b.violations + 1 }) next times f w.1 (omega arith)

  trip_on :
      (b : Bucket) (first : ℕ) (times : List ℕ)
      → 0 < first
      → b.violations ≡ 0
      → b.first_viol ≡ 0
      → Within first l.block_for times
      → length (first ∷ times) ≡ l.block_after
      → (violate l b (first ∷ times)).blocked_until ≡ last_time first times + l.block_for
  unfolding violate
  trip_on b first [] p v f w e = trips_first b first f (omega arith)
  trip_on b first (u ∷ us) p v f w e =
      ap (λ r. (violate l r (u ∷ us)).blocked_until) (count_first b first f (omega arith))
      ∙ trip-violate (record b { first_viol = first; violations = 1 }) u us p w (omega arith)

  -- From a clean record, at most `block_after` violations that all fall within `block_for` of the
  -- first leave the client unblocked while they are fewer, and block it for `block_for` from the
  -- last one when they are `block_after`.
  pub violate_trips :
      (b : Bucket) (first : ℕ) (times : List ℕ)
      → 0 < first
      → b.violations ≡ 0
      → b.first_viol ≡ 0
      → Within first l.block_for times
      → length (first ∷ times) ≤ l.block_after
      → (violate l b (first ∷ times)).blocked_until ≡ (
          if ltb (length (first ∷ times)) l.block_after
          then b.blocked_until
          else last_time first times + l.block_for)
  unfolding violate
  violate_trips b first times p v f w h =
      elim (Bool-cases (ltb (length (first ∷ times)) l.block_after)) [
        | inl few ↦ rw few (
            ap (λ r. (violate l r times).blocked_until) (count_first b first f (ground arith))
            ∙ count-violate (record b { first_viol = first; violations = 1 }) times p w
                (ground arith))
        | inr enough ↦ rw enough (trip_on b first times p v f w (ground arith))
      ]

refused_bucket :
    (l : Limits) (b : Bucket) (u now : ℕ)
    → now < u
    → b.blocked_until ≡ u
    → ((allow_bucket l b now).1 ≡ false) × ((allow_bucket l b now).0.blocked_until ≡ u)
unfolding allow_bucket
refused_bucket l b u now h e = ground arith

admit_blocked :
    (l : Limits) (b : Bucket) (u : ℕ) (times : List ℕ)
    → b.blocked_until ≡ u
    → Before u times
    → ((admit l b times).1 ≡ 0) × ((admit l b times).0.blocked_until ≡ u)
unfolding admit
admit_blocked l b u [] e before = (refl, e)
admit_blocked l b u (now ∷ times) e before =
    let (no_entry, kept) = refused_bucket l b u now before.0 e in
    let (none_in, still) = admit_blocked l (allow_bucket l b now).0 u times kept before.1 in
    (rw (no_entry, none_in), still)

blocked_tracked :
    (rl : RateLimiter) (client : GoString) (b : Bucket) (u now : ℕ)
    → is_empty client ≡ false
    → bucket_of rl client ≡ some b
    → b.blocked_until ≡ u
    → now < u
    → blocked rl client now ≡ (true, u)
unfolding blocked
blocked_tracked rl client b u now named held e h = rw (named, held, blocked) (ground arith)

full_bucket_allows :
    (l : Limits) (b : Bucket) (now : ℕ)
    → b.tokens ≡ pos (l.burst * unit)
    → b.blocked_until ≡ 0
    → 1 ≤ l.burst
    → b.last_seen ≤ now
    → (allow_bucket l b now).1 ≡ true
unfolding spend
full_bucket_allows l b now full open_ c h =
    let e = sub_ℕ now b.last_seen in
    let refilled : refill l b.tokens e ≡ pos (l.burst * unit) =
      rw full (refill-pos l (l.burst * unit) now b.last_seen h ∙ ap pos (omega arith)) in
    ap (λ r. r.1) (allow_bucket_open l b now open_) ∙ rw (refilled, spend) (ground arith)

module _ (rl : RateLimiter) (client : GoString) (named : is_empty client ≡ false) where
  -- A client that `ForceBlock` blocks for `d` is refused at every time before the block runs out,
  -- however often it calls, and `Blocked` then still reports the same end of the block.
  pub force_block_refuses :
      (d now later : ℕ) (times : List ℕ)
      → 0 < d
      → Before (now + d) times
      → later < now + d
      → let rl' = force_block rl client (pos d) now in
        ((allow_all rl' client times).1 ≡ 0)
        × (blocked (allow_all rl' client times).0 client later ≡ (true, now + d))
  force_block_refuses d now later times p before h =
      let rl' = force_block rl client (pos d) now in
      let (b, tracked, until) = force_block-bucket rl client named d now p in
      let (none_in, still) = admit_blocked rl'.limits b (now + d) times until before in
      let (count, after) = allow_all-bucket rl' client named b times tracked in
      (
        count ∙ none_in,
        blocked_tracked (allow_all rl' client times).0 client _ (now + d) later named after still h,
      )

  -- After `Unblock`, the next call of a client with a bucket is let through, whenever it comes.
  pub unblock_readmits :
      (b : Bucket) (now later : ℕ)
      → bucket_of rl client ≡ some b
      → 1 ≤ rl.burst
      → now ≤ later
      → (allow (unblock rl client now) client later).1 ≡ true
  unfolding unblock_bucket
  unblock_readmits b now later tracked c h =
      let b' = unblock_bucket rl.limits b now in
      ap (λ r. (allow r client later).1) (unblock_tracked rl client named b now tracked)
      ∙ ap (λ r. r.1)
          (allow_tracked (with_bucket rl client b') client named b' later
            (with_bucket-bucket_of rl client b'))
      ∙ full_bucket_allows rl.limits b' later refl refl c h
