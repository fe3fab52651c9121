-- ===== src/RateLimit/Isolated.antt =====
-- One client among the calls for all of them (internal/dnsserver/ratelimit.go).
use irongrid_dns.Prelude.{
  ℕ, ◌+◌, ◌≤◌, ◌≡◌, ◌≢◌, refl, sym, ap, subst, ◌∙◌, ◌⊎◌, inl, inr, true, false, List, [], ◌∷◌, some,
  arith, length, leb, ◌==◌, if◌then◌else◌, Bool-cases,
}
use mathlib.Core.Bool.{false≢true}
use irongrid_dns.Prelude.Int.{pos, negsuc}
use irongrid_dns.Bytes.{GoString, is_empty, str_eq, str_eq_iff}
use irongrid_dns.Shards.Hash.{shard_index}
use irongrid_dns.Shards.Table.{Table, lookup, shard, set_shard}
use irongrid_dns.RateLimit.Tokens.{Bucket, Limits, allow_bucket}
use irongrid_dns.RateLimit.{
  RateLimiter, rl_max_per_shard, block_bucket, unblock_bucket, allow, force_block, unblock,
}
use irongrid_dns.RateLimit.Client.{bucket_of, allow_tracked}
use irongrid_dns.RateLimit.Bounded.{Call, step, run}
use irongrid_dns.RateLimit.Touches.{
  Touches, allow_in-Touches, force_block_in-Touches, unblock_in-Touches,
}

-- The client that a call is about.
unfoldable pub client_of : Call → GoString
client_of (Call.allows c _) = c
client_of (Call.force_blocks c _ _) = c
client_of (Call.unblocks c _) = c

-- What a call does to a bucket.
unfoldable pub own_call : Limits → Call → Bucket → Bucket
own_call l (Call.allows _ now) b = (allow_bucket l b now).0
own_call l (Call.force_blocks _ (negsuc _) _) b = b
own_call l (Call.force_blocks _ (pos d) now) b = if leb d 0 then b else block_bucket b d now
own_call l (Call.unblocks _ now) b = unblock_bucket l b now

-- The bucket of one client alone, under its own calls among all of them.
unfoldable pub own_calls : Limits → GoString → List Call → Bucket → Bucket
own_calls l client [] b = b
own_calls l client (c ∷ cs) b =
    own_calls l client cs (if str_eq (client_of c) client then own_call l c b else b)

module _ (client : GoString) where
  -- The client's bucket is `b`, the limits are `l`, and its shard has room for `n` more.
  abbrev Keeps : Limits → ℕ → Bucket → RateLimiter → Type 0
  Keeps l n b rl =
      (rl.limits ≡ l)
      × (bucket_of rl client ≡ some b)
      × (length (shard rl.shards client) + n ≤ rl_max_per_shard)

  set_shard-Keeps :
      (c : GoString) (f : Table Bucket → Table Bucket) (g : Bucket → Bucket) (rl : RateLimiter)
      (n : ℕ) (b : Bucket)
      → Touches c f g
      → Keeps rl.limits (n + 1) b rl
      → Keeps rl.limits n
          (if str_eq c client then g b else b)
          (record rl { shards = set_shard rl.shards c (f (shard rl.shards c)) })
  unfolding shard set_shard
  set_shard-Keeps c f g rl n b touches (_, held, room) =
      elim (Bool-cases (shard_index client == shard_index c)) [
        | inr apart ↦ rw (apart, other_client apart) (refl, held, omega (arith, room))
        | inl together ↦
            let m = rl.shards (shard_index client) in
            let same : rl.shards (shard_index c) ≡ m = ap rl.shards (ground (arith, together)) in
            let (frame, own, grown) = touches m (omega (arith, room)) in
            rw (together, same)
              (refl, seen frame own (Bool-cases (str_eq c client)), omega (arith, room, grown))
      ]
    where
      other_client : (shard_index client == shard_index c) ≡ false → str_eq c client ≡ false
      other_client apart = elim (Bool-cases (str_eq c client)) [
        | inr e ↦ e
        | inl e ↦ absurd (ground (arith, apart, ap shard_index ((str_eq_iff c client).0 e)))
      ]

      seen :
          ((j : GoString)
            → c ≢ j
            → lookup j (f (rl.shards (shard_index client)))
              ≡ lookup j (rl.shards (shard_index client)))
          → ((w : Bucket)
              → lookup c (rl.shards (shard_index client)) ≡ some w
              → lookup c (f (rl.shards (shard_index client))) ≡ some (g w))
          → (str_eq c client ≡ true) ⊎ (str_eq c client ≡ false)
          → lookup client (f (rl.shards (shard_index client)))
            ≡ some (if str_eq c client then g b else b)
      seen frame own (inr other) =
          rw other (frame client (λ e. false≢true (sym other ∙ (str_eq_iff c client).1 e)) ∙ held)
      seen frame own (inl same) =
          let e = (str_eq_iff c client).0 same in
          rw same (
            subst (λ k. lookup k (f (rl.shards (shard_index client))) ≡ some (g b)) e
              (own b (ap (λ k. lookup k (rl.shards (shard_index client))) e ∙ held)))

  -- A call that leaves the limiter alone, where it leaves the bucket alone too.
  idle-Keeps :
      (rl : RateLimiter) (n : ℕ) (b b' : Bucket)
      → b' ≡ b
      → Keeps rl.limits (n + 1) b rl
      → Keeps rl.limits n b' rl
  idle-Keeps rl n b b' same (_, held, room) = (refl, held ∙ ap some (sym same), omega (arith, room))

  -- A call without a name is for no client of ours.
  unnamed : (c : GoString) → is_empty client ≡ false → is_empty c ≡ true → str_eq c client ≡ false
  unnamed c named none_given = elim (Bool-cases (str_eq c client)) [
    | inr e ↦ e
    | inl e ↦ absurd (ground (arith, named, none_given, ap is_empty ((str_eq_iff c client).0 e)))
  ]

  module _ (named : is_empty client ≡ false) where
    allow-Keeps :
        (c : GoString) (now : ℕ) (rl : RateLimiter) (n : ℕ) (b : Bucket)
        → Keeps rl.limits (n + 1) b rl
        → Keeps rl.limits n
            (if str_eq c client then (allow_bucket rl.limits b now).0 else b)
            (allow rl c now).0
    unfolding allow
    allow-Keeps c now rl n b k = elim (Bool-cases (is_empty c)) [
      | inl e ↦ rw (e, allow) (idle-Keeps rl n b _ (rw (unnamed c named e) refl) k)
      | inr given ↦
          rw (given, allow) (set_shard-Keeps c _ _ rl n b (allow_in-Touches rl.limits c now) k)
    ]

    force_block-Keeps :
        (c : GoString) (d now : ℕ) (rl : RateLimiter) (n : ℕ) (b : Bucket)
        → Keeps rl.limits (n + 1) b rl
        → Keeps rl.limits n
            (if str_eq c client then (if leb d 0 then b else block_bucket b d now) else b)
            (force_block rl c (pos d) now)
    unfolding force_block
    force_block-Keeps c d now rl n b k = elim (Bool-cases (is_empty c)) [
      | inl e ↦ rw (e, force_block) (idle-Keeps rl n b _ (rw (unnamed c named e) refl) k)
      | inr given ↦ elim (Bool-cases (leb d 0)) [
        | inl z ↦ rw (given, z, force_block) (idle-Keeps rl n b _ (ground arith) k)
        | inr p ↦
            rw (given, p, force_block)
              (set_shard-Keeps c _ _ rl n b (force_block_in-Touches c d now) k)
      ]
    ]

    unblock-Keeps :
        (c : GoString) (now : ℕ) (rl : RateLimiter) (n : ℕ) (b : Bucket)
        → Keeps rl.limits (n + 1) b rl
        → Keeps rl.limits n
            (if str_eq c client then unblock_bucket rl.limits b now else b)
            (unblock rl c now)
    unfolding unblock
    unblock-Keeps c now rl n b k = elim (Bool-cases (is_empty c)) [
      | inl e ↦ rw (e, unblock) (idle-Keeps rl n b _ (rw (unnamed c named e) refl) k)
      | inr given ↦
          rw (given, unblock) (set_shard-Keeps c _ _ rl n b (unblock_in-Touches rl.limits c now) k)
    ]

    step-Keeps :
        (c : Call) (rl : RateLimiter) (n : ℕ) (b : Bucket)
        → Keeps rl.limits (n + 1) b rl
        → Keeps rl.limits n
            (if str_eq (client_of c) client then own_call rl.limits c b else b)
            (step rl c)
    unfolding step force_block own_call client_of
    step-Keeps (Call.allows c now) rl n b k = allow-Keeps c now rl n b k
    step-Keeps (Call.force_blocks c (negsuc d) now) rl n b k = idle-Keeps rl n b _ (ground arith) k
    step-Keeps (Call.force_blocks c (pos d) now) rl n b k = force_block-Keeps c d now rl n b k
    step-Keeps (Call.unblocks c now) rl n b k = unblock-Keeps c now rl n b k

    run-Keeps :
        (cs : List Call) (l : Limits) (rl : RateLimiter) (b : Bucket)
        → Keeps l (length cs) b rl
        → Keeps l 0 (own_calls l client cs b) (run rl cs)
    unfolding run own_calls
    run-Keeps [] l rl b k = k
    run-Keeps (c ∷ cs) l rl b (same, held, room) = run-Keeps cs l (step rl c) _ (
        subst
          (λ x.
            Keeps x (length cs) (if str_eq (client_of c) client then own_call x c b else b)
              (step rl c))
          same (step-Keeps c rl (length cs) b (refl, held, omega (arith, room))))

-- Whatever calls of `Allow`, `ForceBlock` and `Unblock` arrive for whatever clients in whatever
-- order, a client that has a bucket and a text that is not empty meets that bucket alone: where the
-- clients of its shard and the calls are at most 4096 together, its bucket is what its own calls
-- have made of it, and its next call is admitted or refused by that bucket.
pub run-own_calls :
    (rl : RateLimiter) (client : GoString) (b : Bucket) (cs : List Call) (now : ℕ)
    → is_empty client ≡ false
    → bucket_of rl client ≡ some b
    → length (shard rl.shards client) + length cs ≤ rl_max_per_shard
    → (bucket_of (run rl cs) client ≡ some (own_calls rl.limits client cs b))
      × ((allow (run rl cs) client now).1
          ≡ (allow_bucket rl.limits (own_calls rl.limits client cs b) now).1)
run-own_calls rl client b cs now named held room =
    let b' = own_calls rl.limits client cs b in
    let (same, after, _) = run-Keeps client named cs rl.limits rl b (refl, held, room) in
    (
      after,
      ap (λ x. x.1) (allow_tracked (run rl cs) client named b' now after)
          ∙ ap (λ l. (allow_bucket l b' now).1) same,
    )
