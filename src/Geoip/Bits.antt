-- ===== src/Geoip/Bits.antt =====
-- internal/geoip/asn.go: the bits of an address, for the split of a range into prefixes.
use irongrid_dns.Prelude.{
  ℕ, zero, suc, ◌+◌, ◌-◌, ◌*◌, ◌/◌, ◌%◌, ◌^◌, ◌≤◌, ◌<◌, ◌≡◌, refl, Bool, false, ◌&&◌, ◌==◌, arith,
  leb, ltb, if◌then◌else◌, inl, inr, Bool-cases,
}

unfoldable pub is_odd : ℕ → Bool
is_odd a = a % 2 == 1

-- `a & b`, on the low `n` bits.
unfoldable pub and_bits : ℕ → ℕ → ℕ → ℕ
and_bits zero a b = 0
and_bits (suc n) a b = (if is_odd a && is_odd b then 1 else 0) + 2 * and_bits n (a / 2) (b / 2)

-- `bits.TrailingZeros32`, with the 32 for `n`.
unfoldable pub trailing_zeros : ℕ → ℕ → ℕ
trailing_zeros zero a = 0
trailing_zeros (suc n) a = if is_odd a then 0 else suc (trailing_zeros n (a / 2))

-- Two addresses agree but for their low `k` bits.
unfoldable pub same_prefix : ℕ → ℕ → ℕ → Bool
same_prefix zero a b = a == b
same_prefix (suc k) a b = same_prefix k (a / 2) (b / 2)

-- The low `k` bits are zero.
abbrev pub IsAligned : ℕ → ℕ → Type 0
IsAligned zero a = Unit
IsAligned (suc k) a = (a % 2 ≡ 0) × IsAligned k (a / 2)

pub zero-IsAligned : (k : ℕ) → IsAligned k 0
zero-IsAligned zero = tt
zero-IsAligned (suc k) = (refl, zero-IsAligned k)

pub less-IsAligned : (k a : ℕ) → IsAligned (suc k) a → IsAligned k a
less-IsAligned zero a l = tt
less-IsAligned (suc k) a (e, l) = (e, less-IsAligned k (a / 2) l)

pub aligned_room : (n k a : ℕ) → IsAligned k a → k ≤ n → a < 2 ^ n → a + 2 ^ k ≤ 2 ^ n
aligned_room n zero a l kn lt = omega arith
aligned_room zero (suc k) a l kn lt = absurd (omega arith)
aligned_room (suc n) (suc k) a (e, l) kn lt =
    omega (arith, e, aligned_room n k (a / 2) l (omega arith) (omega arith))

-- An aligned block is a prefix.
pub same_prefix-block :
    (k a x : ℕ) → IsAligned k a → same_prefix k a x ≡ (leb a x && ltb x (a + 2 ^ k))
unfolding same_prefix
same_prefix-block zero a x l = ground arith
same_prefix-block (suc k) a x (e, l) = ground (arith, e, same_prefix-block k (a / 2) (x / 2) l)

-- A number and its complement share no bit.
and_bits-complement : (n a b : ℕ) → a + b + 1 ≡ 2 ^ n → and_bits n a b ≡ 0
unfolding and_bits is_odd
and_bits-complement zero a b e = refl
and_bits-complement (suc n) a b e =
    ground (arith, e, and_bits-complement n (a / 2) (b / 2) (omega (arith, e)))

pub trailing_zeros-IsAligned : (n a : ℕ) → IsAligned (trailing_zeros n a) a
unfolding trailing_zeros is_odd
trailing_zeros-IsAligned zero a = tt
trailing_zeros-IsAligned (suc n) a = elim (Bool-cases (a % 2 == 1)) [
  | inl odd ↦ rw (trailing_zeros, odd) tt
  | inr even ↦ rw (trailing_zeros, even) (ground (arith, even), trailing_zeros-IsAligned n (a / 2))
]

pub trailing_zeros-lt : (n a : ℕ) → 0 < a → a < 2 ^ n → trailing_zeros n a < n
unfolding trailing_zeros is_odd
trailing_zeros-lt zero a p lt = absurd (omega arith)
trailing_zeros-lt (suc n) a p lt = elim (Bool-cases (a % 2 == 1)) [
  | inl odd ↦ rw (trailing_zeros, odd) (omega arith)
  | inr even ↦
      rw (trailing_zeros, even)
        (omega (arith, trailing_zeros-lt n (a / 2) (ground (arith, even)) (omega arith)))
]

-- `a & -a` is the power of two of the trailing zeros.
pub and_bits-negated :
    (n a : ℕ) → 0 < a → a < 2 ^ n → and_bits n a (2 ^ n - a) ≡ 2 ^ trailing_zeros n a
unfolding and_bits trailing_zeros is_odd
and_bits-negated zero a p lt = absurd (omega arith)
and_bits-negated (suc n) a p lt = elim (Bool-cases (a % 2 == 1)) [
  | inl odd ↦
      rw (trailing_zeros, odd)
        (ground
          (arith, odd, and_bits-complement n (a / 2) ((2 ^ suc n - a) / 2) (ground (arith, odd))))
  | inr even ↦
      rw (trailing_zeros, even)
        (ground
          (arith, even, and_bits-negated n (a / 2) (ground (arith, even)) (omega arith), half even))
]
  where
    half : (a % 2 == 1) ≡ false → (2 ^ suc n - a) / 2 ≡ 2 ^ n - a / 2
    half even = ground (arith, even)

pub trailing_zeros-pow : (n k : ℕ) → k < n → trailing_zeros n (2 ^ k) ≡ k
unfolding trailing_zeros is_odd
trailing_zeros-pow zero k lt = absurd (omega arith)
trailing_zeros-pow (suc n) zero lt = refl
trailing_zeros-pow (suc n) (suc k) lt = ground (arith, trailing_zeros-pow n k (omega arith))
