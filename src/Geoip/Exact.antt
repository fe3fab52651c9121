-- ===== src/Geoip/Exact.antt =====
-- internal/geoip/asn.go: what the prefixes of a range hold.
use irongrid_dns.Prelude.{
  ℕ, zero, suc, ◌+◌, ◌-◌, ◌/◌, ◌%◌, ◌^◌, ◌≤◌, ◌<◌, ◌≡◌, refl, ap, ◌∙◌, true, false, ◌&&◌, arith,
  leb, ltb, List, [], ◌∷◌, Option, none, some, inl, inr, Bool-cases,
}
use irongrid_dns.Geoip.Ranges.{u32_mod}
use irongrid_dns.Geoip.Bits.{
  is_odd, and_bits, trailing_zeros, IsAligned, zero-IsAligned, less-IsAligned, aligned_room,
  same_prefix-block, trailing_zeros-IsAligned, trailing_zeros-lt, and_bits-negated,
  trailing_zeros-pow,
}
use irongrid_dns.Geoip.Cidrs.{
  Cidr, cidr_contains, aligned_size, shrink, next_size, add_cidr, cidrs4, holds,
}

-- A power of two, no larger than a half of all addresses, to which the start is aligned.
pub record IsBlock (start size : ℕ) : Type 0 where
  pub bits : ℕ
  pub small : bits ≤ 31
  pub aligned : IsAligned bits start
  pub power : size ≡ 2 ^ bits

pow_positive : (k : ℕ) → 1 ≤ 2 ^ k
pow_positive zero = omega arith
pow_positive (suc k) = omega (arith, pow_positive k)

-- A block does not run past the last address.
block_room : (start size : ℕ) → start < u32_mod → IsBlock start size → start + size ≤ u32_mod
block_room start size lt b =
    rw b.power (aligned_room 32 b.bits start b.aligned (omega (arith, b.small)) lt)

negated : (s : ℕ) → suc s < u32_mod → aligned_size (suc s) ≡ 2 ^ trailing_zeros 32 (suc s)
unfolding aligned_size
negated s lt =
    let p = pow_positive (trailing_zeros 32 (suc s)) in
    let same : (u32_mod - suc s) % u32_mod ≡ 2 ^ 32 - suc s = omega (arith, lt) in
    let bit = and_bits-negated 32 (suc s) (omega arith) lt in
    rw (aligned_size, same, bit) (ground (arith, p))

aligned_size-IsBlock : (start : ℕ) → start < u32_mod → IsBlock start (aligned_size start)
unfolding aligned_size and_bits is_odd
aligned_size-IsBlock zero lt = record {
  bits = 31;
  small = omega arith;
  aligned = zero-IsAligned 31;
  power = refl;
}
aligned_size-IsBlock (suc s) lt =
    let k = trailing_zeros 32 (suc s) in
    record {
      bits = k;
      small = omega (arith, trailing_zeros-lt 32 (suc s) (omega arith) lt);
      aligned = trailing_zeros-IsAligned 32 (suc s);
      power = negated s lt;
    }

-- `start+size-1` does not wrap around for a block.
last_of_block :
    (start k : ℕ)
    → k ≤ 31
    → start < u32_mod
    → IsAligned k start
    → (start + 2 ^ k + (u32_mod - 1)) % u32_mod + 1 ≡ start + 2 ^ k
last_of_block start k small lt l =
    omega (arith, pow_positive k, aligned_room 32 k start l (omega (arith, small)) lt)

-- The halving ends at a block that the range has room for.
shrink-IsBlock :
    (fuel start stop k : ℕ)
    → k ≤ fuel
    → k ≤ 31
    → start ≤ stop
    → stop < u32_mod
    → IsAligned k start
    → IsBlock start (shrink fuel start stop (2 ^ k))
      × (start + shrink fuel start stop (2 ^ k) ≤ stop + 1)
unfolding shrink
shrink-IsBlock zero start stop zero kf small le lt l =
    (record { bits = 0; small = small; aligned = l; power = refl }, omega arith)
shrink-IsBlock zero start stop (suc k) kf small le lt l = absurd (omega arith)
shrink-IsBlock (suc fuel) start stop zero kf small le lt l =
    let fits : ltb stop ((start + 2 ^ 0 + (u32_mod - 1)) % u32_mod) ≡ false =
      ground (arith, last_of_block start 0 small (omega arith) l) in
    rw (shrink, fits) (record { bits = 0; small = small; aligned = l; power = refl }, omega arith)
shrink-IsBlock (suc fuel) start stop (suc k) kf small le lt l =
    elim (Bool-cases (ltb stop ((start + 2 ^ suc k + (u32_mod - 1)) % u32_mod))) [
      | inr fits ↦
          rw (shrink, fits)
            (
              record { bits = suc k; small = small; aligned = l; power = refl },
              ground (arith, fits, last_of_block start (suc k) small (omega arith) l),
            )
      | inl over ↦
          let half : 2 ^ suc k / 2 ≡ 2 ^ k = omega arith in
          rw (shrink, over, half)
            (shrink-IsBlock fuel start stop k (omega arith) (omega arith) le lt
              (less-IsAligned k start l))
    ]

next_size-IsBlock :
    (start stop : ℕ)
    → start ≤ stop
    → stop < u32_mod
    → IsBlock start (next_size start stop) × (start + next_size start stop ≤ stop + 1)
unfolding next_size
next_size-IsBlock start stop le lt =
    let b = aligned_size-IsBlock start (omega arith) in
    rw b.power
      (shrink-IsBlock 32 start stop b.bits (omega (arith, b.small)) b.small le lt b.aligned)

-- The prefix that is put out for a block holds the block.
cidr_contains-block :
    (start size x : ℕ)
    → IsBlock start size
    → cidr_contains (record { addr = start; ones = 32 - trailing_zeros 32 size }) x
      ≡ (leb start x && ltb x (start + size))
unfolding cidr_contains
cidr_contains-block start size x b =
    let tz =
      ap (trailing_zeros 32) b.power ∙ trailing_zeros-pow 32 b.bits (omega (arith, b.small)) in
    let shift : 32 - (32 - trailing_zeros 32 size) ≡ b.bits = omega (arith, tz, b.small) in
    rw (shift, b.power) (same_prefix-block b.bits start x b.aligned)

-- The loop ended, and its prefixes hold the range and nothing else.
pub record IsSplit (start stop : ℕ) (result : Option (List Cidr)) : Type 0 where
  pub cidrs : List Cidr
  pub ended : result ≡ some cidrs
  pub exact : (x : ℕ) → holds cidrs x ≡ (leb start x && leb x stop)

block_then_rest :
    (start size stop : ℕ) (cs : List Cidr)
    → start ≤ stop
    → IsBlock start size
    → start + size ≤ stop + 1
    → ((x : ℕ) → holds cs x ≡ (leb (start + size) x && leb x stop))
    → (x : ℕ)
    → holds (record { addr = start; ones = 32 - trailing_zeros 32 size } ∷ cs) x
      ≡ (leb start x && leb x stop)
unfolding holds
block_then_rest start size stop cs le b fits rest x =
    rw (cidr_contains-block start size x b, rest x) (ground (arith, fits))

-- A range that ends before the last address, 255.255.255.255, is split in at most as many rounds
-- as it has addresses, and one, into prefixes that hold the addresses of the range and no others.
pub cidrs4-IsSplit :
    (fuel start stop : ℕ)
    → start ≤ stop + 1
    → stop + 1 < u32_mod
    → stop + 2 ≤ start + fuel
    → IsSplit start stop (cidrs4 fuel start stop)
unfolding cidrs4 add_cidr holds
cidrs4-IsSplit zero start stop le lt enough = absurd (omega arith)
cidrs4-IsSplit (suc fuel) start stop le lt enough = elim (Bool-cases (leb start stop)) [
  | inr over ↦
      rw (cidrs4, over) (record { cidrs = []; ended = refl; exact = λ x. none_left x over })
  | inl more ↦
      let (b, fits) = next_size-IsBlock start stop (ground (arith, more)) (omega arith) in
      let size = next_size start stop in
      let positive : 1 ≤ size = rw b.power (pow_positive b.bits) in
      let next : (start + size) % u32_mod ≡ start + size = omega arith in
      let rest = cidrs4-IsSplit fuel (start + size) stop fits lt (omega arith) in
      rw (cidrs4, more, next, rest.ended)
        (record {
          cidrs = record { addr = start; ones = 32 - trailing_zeros 32 size } ∷ rest.cidrs;
          ended = refl;
          exact =
              block_then_rest start size stop rest.cidrs (ground (arith, more)) b fits rest.exact;
        })
]
  where
    none_left : (x : ℕ) → leb start stop ≡ false → holds [] x ≡ (leb start x && leb x stop)
    none_left x over = ground (arith, over)

-- The split of a range that ends at the last address, 255.255.255.255, does not end: in no number
-- of rounds does it return.
cidrs4_never : (fuel start : ℕ) → start < u32_mod → cidrs4 fuel start (u32_mod - 1) ≡ none
unfolding cidrs4 add_cidr holds
cidrs4_never zero start lt = refl
cidrs4_never (suc fuel) start lt =
    let more : leb start (u32_mod - 1) ≡ true = ground (arith, lt) in
    rw
      (
        cidrs4,
        more,
        cidrs4_never fuel ((start + next_size start (u32_mod - 1)) % u32_mod) (omega arith),
      )
      refl
