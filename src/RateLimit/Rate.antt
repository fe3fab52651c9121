-- ===== src/RateLimit/Rate.antt =====
-- The rate that one bucket admits (internal/dnsserver/ratelimit.go, `Allow`).
use irongrid_dns.Prelude.{
  ℕ, ◌+◌, ◌*◌, ◌-◌, ◌≤◌, ◌≡◌, refl, sym, ap, subst, ◌∙◌, Bool, true, false, List, [], ◌∷◌, arith,
  if◌then◌else◌, ltb, Bool-cases, inl, inr, min,
}
use irongrid_dns.Prelude.Int.{ℤ, pos, sub_ℕ, sub_ℕ-pos, +ℤ-pos, -ℤ-pos, *ℤ-pos}
use irongrid_dns.Clock.{Ascending, last_time}
use irongrid_dns.RateLimit.Tokens.{
  Limits, Bucket, unit, allow_bucket, refill, spend, record_violation,
}

-- The calls of `Allow` for one client at the given times: the bucket, and how many were admitted.
unfoldable pub admit : Limits → Bucket → List ℕ → Bucket × ℕ
admit l b [] = (b, 0)
admit l b (now ∷ times) =
    let (b', allowed) = allow_bucket l b now in
    let (b'', n) = admit l b' times in (b'', if allowed then n + 1 else n)

pub refill-pos :
    (l : Limits) (level now last : ℕ)
    → last ≤ now
    → refill l (pos level) (sub_ℕ now last)
      ≡ pos (min (l.burst * unit) (level + (now - last) * l.qps))
unfolding refill
refill-pos l level now last h =
    rw (sub_ℕ-pos now last h, *ℤ-pos (now - last) l.qps, +ℤ-pos level ((now - last) * l.qps))
      (ground arith)

-- One call: what it takes from the bucket and what time has put in.
record Admits (l : Limits) (b : Bucket) (level now : ℕ) (r : Bucket × Bool) : Type 0 where
  left : ℕ
  tokens_eq : r.0.tokens ≡ pos left
  capped : left ≤ l.burst * unit
  unblocked : r.0.blocked_until ≡ 0
  last_seen_eq : r.0.last_seen ≡ now
  paid : (if r.1 then unit else 0) + left ≤ level + (now - b.last_seen) * l.qps

spend-pos :
    (l : Limits) (b : Bucket) (elapsed : ℤ) (now t : ℕ)
    → l.auto_block ≡ false
    → refill l b.tokens elapsed ≡ pos t
    → spend l b elapsed now ≡ (
        if ltb t unit
        then (record b { tokens = pos t }, false)
        else (record b { tokens = pos (t - unit) }, true))
unfolding spend record_violation
spend-pos l b elapsed now t off e = elim (Bool-cases (ltb t unit)) [
  | inl empty ↦ rw (e, off, empty) (ground arith)
  | inr some_left ↦ rw (e, some_left) (ground (arith, -ℤ-pos t unit))
]

pub allow_bucket_open :
    (l : Limits) (b : Bucket) (now : ℕ)
    → b.blocked_until ≡ 0
    → allow_bucket l b now
      ≡ spend l (record b { last_seen = now; queries = b.queries + 1 }) (sub_ℕ now b.last_seen) now
unfolding allow_bucket
allow_bucket_open l b now h = ground arith

spend-Admits :
    (l : Limits) (b seen : Bucket) (level now full : ℕ)
    → full ≤ l.burst * unit
    → full ≤ level + (now - b.last_seen) * l.qps
    → seen.blocked_until ≡ 0
    → seen.last_seen ≡ now
    → Admits l b level now (
        if ltb full unit
        then (record seen { tokens = pos full }, false)
        else (record seen { tokens = pos (full - unit) }, true))
spend-Admits l b seen level now full c paid open_ at = elim (Bool-cases (ltb full unit)) [
  | inl empty ↦ rw empty (record {
    left = full;
    tokens_eq = refl;
    capped = c;
    unblocked = open_;
    last_seen_eq = at;
    paid = omega arith;
  })
  | inr some_left ↦ rw some_left (record {
    left = full - unit;
    tokens_eq = refl;
    capped = omega arith;
    unblocked = open_;
    last_seen_eq = at;
    paid = ground arith;
  })
]

allow_bucket-Admits :
    (l : Limits) (b : Bucket) (level now : ℕ)
    → l.auto_block ≡ false
    → b.tokens ≡ pos level
    → level ≤ l.burst * unit
    → b.blocked_until ≡ 0
    → b.last_seen ≤ now
    → Admits l b level now (allow_bucket l b now)
allow_bucket-Admits l b level now off e c open_ h =
    let full = min (l.burst * unit) (level + (now - b.last_seen) * l.qps) in
    let seen : Bucket = record b { last_seen = now; queries = b.queries + 1 } in
    let refilled : refill l b.tokens (sub_ℕ now b.last_seen) ≡ pos full =
      rw e (refill-pos l level now b.last_seen h) in
    let result =
      allow_bucket_open l b now open_
      ∙ spend-pos l seen (sub_ℕ now b.last_seen) now full off refilled in
    subst (Admits l b level now) (sym result)
      (spend-Admits l b seen level now full (omega arith) (omega arith) open_ refl)

le-last_time : (t : ℕ) (us : List ℕ) → Ascending t us → t ≤ last_time t us
le-last_time t [] asc = omega arith
le-last_time t (u ∷ us) asc = omega (arith, le-last_time u us asc.1, asc.0)

split_elapsed : (a b c q : ℕ) → a ≤ b → b ≤ c → (b - a) * q + (c - b) * q ≡ (c - a) * q
split_elapsed a b c q h k =
    let e : (b - a) + (c - b) ≡ c - a = omega arith in omega (arith, ap (λ (x : ℕ). x * q) e)

-- A client is admitted at most `burst` times and `qps` times for each second that passes: over
-- any calls at times that do not run backwards, from a bucket that is not over-full, with
-- auto-block off.
pub admit-le :
    (l : Limits) (b : Bucket) (level : ℕ) (times : List ℕ)
    → l.auto_block ≡ false
    → b.tokens ≡ pos level
    → level ≤ l.burst * unit
    → b.blocked_until ≡ 0
    → Ascending b.last_seen times
    → (admit l b times).1 * unit ≤ level + (last_time b.last_seen times - b.last_seen) * l.qps
unfolding admit
admit-le l b level [] off e c open_ asc = omega arith
admit-le l b level (now ∷ times) off e c open_ asc =
    let a = allow_bucket-Admits l b level now off e c open_ asc.0 in
    let b' = (allow_bucket l b now).0 in
    let at : (last_time b'.last_seen times - b'.last_seen) ≡ last_time now times - now =
      rw a.last_seen_eq in
    let ih =
      admit-le l b' a.left times off a.tokens_eq a.capped a.unblocked (rw a.last_seen_eq asc.1) in
    let split =
      split_elapsed b.last_seen now (last_time now times) l.qps asc.0
        (le-last_time now times asc.1) in
    ground (arith, rw at at ih, split, a.paid)
