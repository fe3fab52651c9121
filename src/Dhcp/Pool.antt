-- ===== src/Dhcp/Pool.antt =====
-- internal/dhcp/pool.go: which addresses `nextFree4` goes through.
use irongrid_dns.Prelude.{
  ℕ, ◌+◌, ◌*◌, ◌%◌, ◌≤◌, ◌<◌, ◌≡◌, ◌∙◌, List, [], ◌∷◌, arith, ltb, if◌then◌else◌,
}
use native.Mathlib.Nat.{mod-lt, mod-eq_of_lt}
use irongrid_dns.Dhcp.Addr.{backward, byte_sub, pool_total, candidate}
use irongrid_dns.Dhcp.Carry.{value, span, AreBytes, value-pool_at}

-- 1 where the second byte is the greater one.
abbrev pub borrow : ℕ → ℕ → ℕ
borrow e s = if ltb e s then 1 else 0

byte_sub_lem : (e s : ℕ) → e < 256 → s < 256 → s + byte_sub e s ≡ e + 256 * borrow e s
byte_sub_lem e s p q = ground arith

module _ (s0 s1 s2 s3 e0 e1 e2 e3 : ℕ) where
  abbrev pub start : List ℕ
  start = s0 ∷ s1 ∷ s2 ∷ s3 ∷ []

  abbrev pub stop : List ℕ
  stop = e0 ∷ e1 ∷ e2 ∷ e3 ∷ []

  -- What `total` comes to: the distance from the start to the end of the pool, and what each byte
  -- that is smaller at the end than at the start adds by wrapping around.
  pub value-pool_total :
      AreBytes start
      → AreBytes stop
      → value start + pool_total start stop
        ≡ value stop
          + 256 * borrow e3 s3
          + 65536 * borrow e2 s2
          + 16777216 * borrow e1 s1
          + 4294967296 * borrow e0 s0
  unfolding pool_total value backward
  value-pool_total s e = omega (
    arith,
    byte_sub_lem e0 s0 e.0 s.0,
    byte_sub_lem e1 s1 e.1.0 s.1.0,
    byte_sub_lem e2 s2 e.1.1.0 s.1.1.0,
    byte_sub_lem e3 s3 e.1.1.1.0 s.1.1.1.0,
  )

  in_space : AreBytes stop → value stop < span (backward start)
  unfolding value backward
  in_space c = omega (arith, c.0, c.1.0, c.1.1.0, c.1.1.1.0)

  -- `e0` is the first byte: below 255 there is room for 256 addresses more.
  room_above : AreBytes stop → e0 < 255 → value stop + 256 < span (backward start)
  unfolding value backward
  room_above c r = omega (arith, r, c.1.0, c.1.1.0, c.1.1.1.0)

  -- A candidate is as far from the start as its index.
  candidate_lem :
      (cursor i : ℕ)
      → value start + (cursor + i) % (pool_total start stop + 1) < span (backward start)
      → value (candidate start stop cursor i)
        ≡ value start + (cursor + i) % (pool_total start stop + 1)
  unfolding candidate
  candidate_lem cursor i fits =
      value-pool_at start ((cursor + i) % (pool_total start stop + 1)) fits

  index-le : (n m : ℕ) → n % (m + 1) ≤ m
  index-le n m = omega (arith, mod-lt n {m = m + 1} (omega arith))

  -- Where no byte of the end of the pool is smaller than that of the start, the candidates are
  -- addresses of the pool, whatever the cursor.
  pub candidate-within :
      (cursor i : ℕ)
      → AreBytes start
      → AreBytes stop
      → (s0 ≤ e0) × (s1 ≤ e1) × (s2 ≤ e2) × (s3 ≤ e3)
      → (value start ≤ value (candidate start stop cursor i))
        × (value (candidate start stop cursor i) ≤ value stop)
  candidate-within cursor i s e (l0, l1, l2, l3) =
      let total = value-pool_total s e in
      let index = index-le (cursor + i) (pool_total start stop) in
      let exact : value start + pool_total start stop ≡ value stop = ground (arith, total) in
      let same = candidate_lem cursor i (omega (arith, exact, index, in_space e)) in
      (omega (arith, same), omega (arith, same, exact, index))

  -- Where the last byte of the end is smaller than that of the start, and the others are not, the
  -- last candidate lies 256 addresses after the end of the pool.
  pub overrun :
      AreBytes start
      → AreBytes stop
      → e0 < 255
      → (s0 ≤ e0) × (s1 ≤ e1) × (s2 ≤ e2) × (e3 < s3)
      → value (candidate start stop 0 (pool_total start stop)) ≡ value stop + 256
  overrun s e room (l0, l1, l2, l3) =
      let total = value-pool_total s e in
      let past : value start + pool_total start stop ≡ value stop + 256 = ground (arith, total) in
      let last : (0 + pool_total start stop) % (pool_total start stop + 1) ≡ pool_total start stop =
        mod-eq_of_lt (omega arith) ∙ omega arith in
      candidate_lem 0 (pool_total start stop) (omega (arith, last, past, room_above e room))
      ∙ omega (arith, last, past)
