-- ===== src/RateLimit/Tokens.antt =====
-- internal/dnsserver/ratelimit.go: one client's bucket, and what a call of `Allow` does to it.
use irongrid_dns.Prelude.{ℕ, ◌+◌, ◌*◌, Bool, true, false, not, ◌||◌, ltb, leb, if◌then◌else◌}
use irongrid_dns.Prelude.Int.{ℤ, pos, sub_ℕ, ◌+ℤ◌, ◌-ℤ◌, ◌*ℤ◌, ltb_ℤ}
use irongrid_dns.Clock.{second, is_zero, older_than}

-- One token.
abbrev pub unit : ℕ
unit = second

pub record Limits : Type 0 where
  pub qps : ℕ
  pub burst : ℕ
  pub auto_block : Bool
  pub block_after : ℕ
  pub block_for : ℕ

pub record Bucket : Type 0 where
  pub tokens : ℤ
  pub last_seen : ℕ
  pub violations : ℕ
  pub first_viol : ℕ
  pub blocked_until : ℕ
  pub queries : ℕ
  pub blocks : ℕ
  pub first_seen : ℕ

-- The first half of `recordViolationLocked`: the window and the count.
unfoldable pub count_violation : Limits → Bucket → ℕ → Bucket
count_violation l b now =
    if is_zero b.first_viol || older_than now b.first_viol l.block_for
    then record b { first_viol = now; violations = 1 }
    else record b { violations = b.violations + 1 }

-- The second half: the block, once the threshold is reached.
unfoldable pub trip_block : Limits → Bucket → ℕ → Bucket
trip_block l b now =
    if leb l.block_after b.violations
    then record b {
      blocked_until = now + l.block_for;
      violations = 0;
      first_viol = 0;
      blocks = b.blocks + 1;
    }
    else b

unfoldable pub record_violation : Limits → Bucket → ℕ → Bucket
unfolding count_violation trip_block
record_violation l b now =
    if not l.auto_block then b else trip_block l (count_violation l b now) now

-- `b.tokens += elapsed * rl.qps`, and the cap of `burst`. `elapsed` is signed.
unfoldable pub refill : Limits → ℤ → ℤ → ℤ
refill l tokens elapsed =
    let t = tokens +ℤ elapsed *ℤ pos l.qps in
    if ltb_ℤ (pos (l.burst * unit)) t then pos (l.burst * unit) else t

-- From the refill to the end of `Allow`.
unfoldable pub spend : Limits → Bucket → ℤ → ℕ → Bucket × Bool
spend l b elapsed now =
    let t = refill l b.tokens elapsed in
    if ltb_ℤ t (pos unit)
    then (record_violation l (record b { tokens = t }) now, false)
    else (record b { tokens = t -ℤ pos unit }, true)

-- A clean slate once the cooldown is over.
unfoldable pub forgive : Limits → Bucket → Bucket
forgive l b = record b {
  blocked_until = 0;
  violations = 0;
  first_viol = 0;
  tokens = pos (l.burst * unit);
}

-- `Allow` on a client's bucket.
unfoldable pub allow_bucket : Limits → Bucket → ℕ → Bucket × Bool
allow_bucket l b now =
    let elapsed = sub_ℕ now b.last_seen in
    let seen = record b { last_seen = now; queries = b.queries + 1 } in
    if is_zero b.blocked_until
    then spend l seen elapsed now
    else if ltb now b.blocked_until
    then (seen, false)
    else spend l (forgive l seen) elapsed now
