-- ===== src/Geoip/Nets.antt =====
-- internal/geoip/table.go: the table that is built from networks (`NewTableFromIPNets`). A network
-- is not nil, and its address has the size of its mask, as `net.ParseCIDR` gives it.
use irongrid_dns.Prelude.{
  ℕ, ◌+◌, ◌-◌, ◌%◌, ◌^◌, Bool, true, false, not, List, [], ◌∷◌, Option, none, some, if◌then◌else◌,
}
use irongrid_dns.Clients.Acl.{Net}
use irongrid_dns.Geoip.Ranges.{Range4, contains4}
use irongrid_dns.Geoip.Blocker.{GeoTable, sort_merge}

-- `*net.IPNet`: the size of its mask, 128 or 32 bits, its address as a number, the length of the
-- prefix, and its method `Contains`.
pub record IpNet : Type 0 where
  pub is_wide : Bool
  pub address : ℕ
  pub ones : ℕ
  pub has_ip : Net

-- `v4Range` and `v6Range`, for addresses of 32 and 128 bits.
unfoldable pub range_of : ℕ → IpNet → Range4
range_of bits n =
    let size = 2 ^ (bits - n.ones) in
    let start = n.address - n.address % size in record { start = start; stop = start + (size - 1) }

-- The ranges of the networks of 128 or of 32 bits.
unfoldable pub ranges_of : ℕ → Bool → List IpNet → List Range4
ranges_of bits wide [] = []
ranges_of bits wide (n ∷ ns) =
    let rest = ranges_of bits wide ns in
    if (if wide then n.is_wide else not n.is_wide) then range_of bits n ∷ rest else rest

-- `NewTableFromIPNets`
unfoldable pub table_of_nets : List IpNet → GeoTable
table_of_nets ns = sort_merge (record { v4 = ranges_of 32 false ns; v6 = ranges_of 128 true ns })

-- `Contains`, of an address that has an IPv4 form or not.
unfoldable pub table_contains : Option ℕ → ℕ → GeoTable → Bool
table_contains (some x) wide t = contains4 t.v4 x
table_contains none wide t = contains4 t.v6 wide
