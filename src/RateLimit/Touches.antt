-- ===== src/RateLimit/Touches.antt =====
-- The operations on the shard of a client, where it has room (internal/dnsserver/ratelimit.go).
use irongrid_dns.Prelude.{
  ℕ, ◌+◌, ◌≤◌, ◌<◌, ◌≡◌, ◌≢◌, refl, sym, ap, subst, ◌∙◌, inl, inr, none, some, arith, length,
  Option-cases,
}
use irongrid_dns.Bytes.{GoString}
use irongrid_dns.Shards.Table.{
  Table, lookup, insert, lookup-insert_self, lookup-insert_ne, length-insert_new, length-insert_old,
}
use irongrid_dns.Shards.Evict.Laws.{evict_below}
use irongrid_dns.RateLimit.Tokens.{Bucket, Limits, allow_bucket}
use irongrid_dns.RateLimit.{
  rl_max_per_shard, rl_idle_evict, first_bucket, empty_bucket, block_bucket, unblock_bucket,
  allow_in, force_block_in, unblock_in, evict_locked,
}

-- A shard before and after an operation for `c`: the bucket of `c` has changed by `g`, no other has,
-- and there is at most one more.
abbrev pub Touched : GoString → (Bucket → Bucket) → Table Bucket → Table Bucket → Type 0
Touched c g m m' =
    ((j : GoString) → c ≢ j → lookup j m' ≡ lookup j m)
    × ((b : Bucket) → lookup c m ≡ some b → lookup c m' ≡ some (g b))
    × (length m' ≤ length m + 1)

abbrev pub Touches : GoString → (Table Bucket → Table Bucket) → (Bucket → Bucket) → Type 0
Touches c f g = (m : Table Bucket) → length m < rl_max_per_shard → Touched c g m (f m)

none≢some : {b : Bucket} → none ≢ some b
none≢some e = absurd (ground (arith, e))

new-Touched :
    (c : GoString) (now : ℕ) (b : Bucket) (g : Bucket → Bucket) (m : Table Bucket)
    → length m < rl_max_per_shard
    → lookup c m ≡ none
    → Touched c g m (insert c b (evict_locked now m))
unfolding evict_locked
new-Touched c now b g m room absent =
    rw (evict_below (λ (x : Bucket). x.last_seen) rl_max_per_shard rl_idle_evict now m room) (
      (λ j ne. lookup-insert_ne c j b m ne),
      (λ w held. absurd (none≢some (sym absent ∙ held))),
      omega (arith, length-insert_new c b m absent),
    )

old-Touched :
    (c : GoString) (g : Bucket → Bucket) (w : Bucket) (m : Table Bucket)
    → lookup c m ≡ some w
    → Touched c g m (insert c (g w) m)
old-Touched c g w m held = (
  (λ j ne. lookup-insert_ne c j (g w) m ne),
  (λ b h. lookup-insert_self c (g w) m ∙ same b (sym held ∙ h)),
  omega (arith, length-insert_old c (g w) w m held),
)
  where
    same : (b : Bucket) → some w ≡ some b → some (g w) ≡ some (g b)
    same b e = ap some (ap g (ground (arith, e)))

pub allow_in-Touches :
    (l : Limits) (c : GoString) (now : ℕ)
    → Touches c (λ m. (allow_in l c now m).0) (λ b. (allow_bucket l b now).0)
unfolding allow_in
allow_in-Touches l c now m room =
    let g : Bucket → Bucket = λ b. (allow_bucket l b now).0 in
    elim (Option-cases (lookup c m)) [
      | inl absent ↦
          subst (Touched c g m) (sym (rw (absent, allow_in) refl))
            (new-Touched c now (first_bucket l now) g m room absent)
      | inr (b, held) ↦
          subst (Touched c g m) (sym (rw (held, allow_in) refl)) (old-Touched c g b m held)
    ]

pub force_block_in-Touches :
    (c : GoString) (d now : ℕ) → Touches c (force_block_in c d now) (λ b. block_bucket b d now)
unfolding force_block_in
force_block_in-Touches c d now m room =
    let g : Bucket → Bucket = λ b. block_bucket b d now in
    elim (Option-cases (lookup c m)) [
      | inl absent ↦
          subst (Touched c g m) (sym (rw (absent, force_block_in) refl))
            (new-Touched c now (block_bucket (empty_bucket now) d now) g m room absent)
      | inr (b, held) ↦
          subst (Touched c g m) (sym (rw (held, force_block_in) refl)) (old-Touched c g b m held)
    ]

pub unblock_in-Touches :
    (l : Limits) (c : GoString) (now : ℕ)
    → Touches c (unblock_in l c now) (λ b. unblock_bucket l b now)
unfolding unblock_in
unblock_in-Touches l c now m room =
    let g : Bucket → Bucket = λ b. unblock_bucket l b now in
    elim (Option-cases (lookup c m)) [
      | inl absent ↦
          subst (Touched c g m) (sym (rw (absent, unblock_in) refl))
            ((λ j ne. refl), (λ b held. absurd (none≢some (sym absent ∙ held))), omega arith)
      | inr (b, held) ↦
          subst (Touched c g m) (sym (rw (held, unblock_in) refl)) (old-Touched c g b m held)
    ]
