-- ===== src/Dhcp/Addr.antt =====
-- internal/dhcp/pool.go: addresses of a pool as byte strings, most significant byte first.
use irongrid_dns.Prelude.{ℕ, ◌+◌, ◌-◌, ◌*◌, ◌/◌, ◌%◌, List, [], ◌∷◌, ◌++◌, ltb, ◌==◌, if◌then◌else◌}

-- The bytes from the last to the first, the order in which the loops go.
unfoldable pub backward : List ℕ → List ℕ
backward [] = []
backward (b ∷ bs) = backward bs ++ (b ∷ [])

-- The loop of `poolAt`, which stops once nothing is carried.
unfoldable pub add_from : List ℕ → ℕ → List ℕ
add_from [] carry = []
add_from (b ∷ bs) carry =
    if ltb 0 carry then (b + carry) % 256 ∷ add_from bs ((b + carry) / 256) else b ∷ bs

unfoldable pub pool_at : List ℕ → ℕ → List ℕ
unfolding backward add_from
pool_at base offset = backward (add_from (backward base) offset)

-- The loop of `incr`, which stops at the first byte that does not wrap to 0.
unfoldable pub incr_from : List ℕ → List ℕ
incr_from [] = []
incr_from (b ∷ bs) = let c = (b + 1) % 256 in if c == 0 then c ∷ incr_from bs else c ∷ bs

unfoldable pub incr : List ℕ → List ℕ
unfolding backward incr_from
incr ip = backward (incr_from (backward ip))

-- `a - b` on bytes.
abbrev pub byte_sub : ℕ → ℕ → ℕ
byte_sub a b = ((a + 256) - b) % 256

-- `total` of `nextFree4`, for two addresses of four bytes. It is never negative.
unfoldable pub pool_total : List ℕ → List ℕ → ℕ
pool_total (s0 ∷ s1 ∷ s2 ∷ s3 ∷ []) (e0 ∷ e1 ∷ e2 ∷ e3 ∷ []) =
    byte_sub e3 s3 + 256 * byte_sub e2 s2 + 65536 * byte_sub e1 s1 + 16777216 * byte_sub e0 s0
pool_total _ _ = 0

-- `idx` and `cand` of round `i`, from the cursor.
unfoldable pub candidate : List ℕ → List ℕ → ℕ → ℕ → List ℕ
candidate sb eb cursor i = pool_at sb ((cursor + i) % (pool_total sb eb + 1))
