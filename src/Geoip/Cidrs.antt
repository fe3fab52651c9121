-- ===== src/Geoip/Cidrs.antt =====
-- internal/geoip/asn.go: `cidrs4`, which splits a range of IPv4 addresses into prefixes.
use irongrid_dns.Prelude.{
  ℕ, zero, suc, ◌+◌, ◌-◌, ◌/◌, ◌%◌, ◌^◌, Bool, true, false, ◌||◌, ◌==◌, List, [], ◌∷◌, Option, none,
  some, leb, ltb, if◌then◌else◌,
}
use irongrid_dns.Geoip.Ranges.{u32_mod}
use irongrid_dns.Geoip.Bits.{and_bits, trailing_zeros, same_prefix}

-- A prefix of the standard library: the address and the number of its leading bits that count.
pub record Cidr : Type 0 where
  pub addr : ℕ
  pub ones : ℕ

-- Whether a prefix holds an address.
unfoldable pub cidr_contains : Cidr → ℕ → Bool
cidr_contains c x = same_prefix (32 - c.ones) c.addr x

-- `start & -start`, or `1 << 31` where it is 0.
unfoldable pub aligned_size : ℕ → ℕ
aligned_size start =
    let size = and_bits 32 start ((u32_mod - start) % u32_mod) in if size == 0 then 2 ^ 31 else size

-- `for start+size-1 > end { size >>= 1 }`, on fuel.
unfoldable pub shrink : ℕ → ℕ → ℕ → ℕ → ℕ
shrink zero start stop size = size
shrink (suc fuel) start stop size = elim (ltb stop ((start + size + (u32_mod - 1)) % u32_mod)) [
  | true ↦ shrink fuel start stop (size / 2)
  | false ↦ size
]

-- The size of the next prefix.
unfoldable pub next_size : ℕ → ℕ → ℕ
next_size start stop = shrink 32 start stop (aligned_size start)

unfoldable pub add_cidr : Cidr → Option (List Cidr) → Option (List Cidr)
add_cidr c none = none
add_cidr c (some cs) = some (c ∷ cs)

-- `cidrs4`, on fuel: `none` where the loop has not ended.
unfoldable pub cidrs4 : ℕ → ℕ → ℕ → Option (List Cidr)
cidrs4 zero start stop = none
cidrs4 (suc fuel) start stop =
    let size = next_size start stop in
    let rest = cidrs4 fuel ((start + size) % u32_mod) stop in
    if leb start stop
    then add_cidr (record { addr = start; ones = 32 - trailing_zeros 32 size }) rest
    else some []

-- Some prefix holds the address.
unfoldable pub holds : List Cidr → ℕ → Bool
holds [] x = false
holds (c ∷ cs) x = cidr_contains c x || holds cs x
