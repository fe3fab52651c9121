-- ===== src/Clock.antt =====
-- `time.Time` and `time.Duration`. A time is a number of nanoseconds, and 0 is the zero time; a
-- duration is an integer number of them. Times are taken from the monotonic clock and do not
-- overflow.
use irongrid_dns.Prelude.{ℕ, ◌≤◌, ◌<◌, List, [], ◌∷◌, ◌+◌, ◌*◌, Bool, leb, ltb, ◌==◌, if◌then◌else◌}
use irongrid_dns.Prelude.Int.{ℤ, pos, negsuc}

abbrev pub second : ℕ
second = 1_000_000_000

abbrev pub minute : ℕ
minute = 60 * second

-- `t.IsZero()`
abbrev pub is_zero : ℕ → Bool
is_zero t = t == 0

-- `now.Sub(t) > d`, for `d` no less than 0.
abbrev pub older_than : ℕ → ℕ → ℕ → Bool
older_than now t d = ltb (t + d) now

-- `if x < lo { x = lo }`
abbrev pub at_least : ℕ → ℤ → ℕ
at_least lo (pos n) = if ltb n lo then lo else n
at_least lo (negsuc n) = lo

-- `if d <= 0 { d = default }`
abbrev pub positive_or : ℕ → ℤ → ℕ
positive_or default (pos n) = if leb n 0 then default else n
positive_or default (negsuc n) = default

-- Sequences of times: that do not run backwards from `t`, within `d` of `t`, before `u`, and the
-- last of them.
abbrev pub Ascending : ℕ → List ℕ → Type 0
Ascending t [] = Unit
Ascending t (u ∷ us) = (t ≤ u) × Ascending u us

abbrev pub Within : ℕ → ℕ → List ℕ → Type 0
Within t d [] = Unit
Within t d (u ∷ us) = (u ≤ t + d) × Within t d us

abbrev pub Before : ℕ → List ℕ → Type 0
Before u [] = Unit
Before u (t ∷ ts) = (t < u) × Before u ts

abbrev pub last_time : ℕ → List ℕ → ℕ
last_time t [] = t
last_time t (u ∷ us) = last_time u us
