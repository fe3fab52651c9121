-- ===== src/Dhcp/Offer.antt =====
-- internal/dhcp/pool.go: how `allocV4` picks an address. Addresses are in the four-byte form
-- (`To4`), and text that is compared without regard to case is ASCII.
use irongrid_dns.Prelude.{
  ℕ, ◌+◌, ◌-◌, Bool, true, false, not, ◌&&◌, ◌||◌, List, [], ◌∷◌, Option, none, some, bit_and,
  bit_or, ltb, leb, ◌==◌, if◌then◌else◌, length, length,
}
use irongrid_dns.Prelude.Int.{ℤ, pos, negsuc}
use irongrid_dns.Bytes.{GoString, str_eq, is_empty}
use irongrid_dns.Shards.Table.{Table, lookup}
use irongrid_dns.Dhcp.Leases.{
  Lease, Reservation, Server, in_use, next_free4, reserve, commit, renew, offered_hold,
}

-- A static reservation for IPv4.
pub record StaticLease : Type 0 where
  pub mac : GoString
  pub ip : GoString
  pub hostname : GoString

-- `Subnet`, with its address and mask.
pub record Subnet : Type 0 where
  pub net_ip : List ℕ
  pub mask : List ℕ

-- What `allocV4` reads of the configuration, besides the range.
pub record Config : Type 0 where
  pub subnet : Option Subnet
  pub static : List StaticLease

abbrev pub to_lower : GoString → GoString
to_lower [] = []
to_lower (b ∷ bs) = (if leb 65 b && leb b 90 then b + 32 else b) ∷ to_lower bs

-- `v4Key`, after the prefix `v4:`.
abbrev pub v4_key : GoString → GoString
v4_key mac = 118 ∷ 52 ∷ 58 ∷ to_lower mac

-- `staticForClientLocked`, for a hardware address.
unfoldable pub static_for : List StaticLease → GoString → Option StaticLease
static_for [] mac = none
static_for (st ∷ sts) mac =
    if not (is_empty st.mac) && str_eq (to_lower st.mac) (to_lower mac)
    then some st
    else static_for sts mac

-- `netw.Contains(a)`
unfoldable pub contains : List ℕ → List ℕ → List ℕ → Bool
contains [] [] [] = true
contains (n ∷ ns) (m ∷ ms) (a ∷ rest) = bit_and n m == bit_and a m && contains ns ms rest
contains _ _ _ = false

-- The broadcast address, each byte `netAddr[i] | ^netw.Mask[i]`.
unfoldable pub broadcast : List ℕ → List ℕ → List ℕ
broadcast (n ∷ ns) (m ∷ ms) = bit_or n (255 - m) ∷ broadcast ns ms
broadcast _ _ = []

-- `bytesCompare`, on addresses of one length.
unfoldable pub bytes_compare : List ℕ → List ℕ → ℤ
bytes_compare (a ∷ rest) (b ∷ bs) =
    if ltb a b then negsuc 0 else if ltb b a then pos 1 else bytes_compare rest bs
bytes_compare _ _ = pos 0

abbrev pub is_nonneg : ℤ → Bool
is_nonneg (pos _) = true
is_nonneg (negsuc _) = false

abbrev pub is_nonpos : ℤ → Bool
is_nonpos (pos n) = n == 0
is_nonpos (negsuc _) = true

-- `addrInPoolLocked`
unfoldable pub addr_in_pool : Server → Config → GoString → Bool
addr_in_pool s cfg a = elim cfg.subnet [
  | none ↦ false
  | some net ↦
      if not (contains net.net_ip net.mask a)
      then false
      else if str_eq a net.net_ip || str_eq a (broadcast net.net_ip net.mask)
      then false
      else is_nonneg (bytes_compare a s.range_start) && is_nonpos (bytes_compare a s.range_end)
]

-- The address that the client holds an offer for.
unfoldable pub find_held : Table Reservation → GoString → ℕ → Option GoString
find_held [] key now = none
find_held ((addr, r) ∷ m) key now =
    if str_eq r.key key && ltb now r.until then some addr else find_held m key now

-- Step 4 of `allocV4`.
unfoldable pub offer_next : Server → GoString → ℕ → Server × Option (GoString × Bool)
offer_next s key now =
    let (s', found) = next_free4 s key now in
    elim found [
      | none ↦ (s', none)
      | some ip ↦ (reserve s' ip key (now + offered_hold), some (ip, false))
    ]

-- Step 3, and what follows.
unfoldable pub offer_requested :
    Server → Config → GoString → Option GoString → ℕ → Server × Option (GoString × Bool)
offer_requested s cfg key none now = offer_next s key now
offer_requested s cfg key (some ip) now =
    let (s', used) = in_use s ip key now in
    elim (addr_in_pool s cfg ip) [
      | false ↦ offer_next s key now
      | true ↦ elim used [
        | true ↦ offer_next s' key now
        | false ↦ (reserve s' ip key (now + offered_hold), some (ip, false))
      ]
    ]

-- Step 2, and what follows.
unfoldable pub offer_again :
    Server → Config → GoString → Option GoString → GoString → ℕ → Server × Option (GoString × Bool)
offer_again s cfg key requested hostname now = elim (lookup key s.leases) [
  | some p ↦ (renew s p hostname now, some ((s.store p).ip, false))
  | none ↦ elim (find_held s.reserved key now) [
    | some ip ↦ (s, some (ip, false))
    | none ↦ offer_requested s cfg key requested now
  ]
]

-- `allocV4`, for a client with a hardware address: the address, and whether it is static.
unfoldable pub alloc_v4 :
    Server → Config → GoString → Option GoString → GoString → ℕ → Server × Option (GoString × Bool)
alloc_v4 s cfg mac requested hostname now =
    let key = v4_key mac in
    elim (static_for cfg.static mac) [
      | none ↦ offer_again s cfg key requested hostname now
      | some st ↦
          let l : Lease = record {
            key = key;
            ip = st.ip;
            hostname = if is_empty st.hostname then hostname else st.hostname;
            expires = 0;
            static = true;
          } in
          elim (length st.ip == 4) [
            | true ↦ (commit s l now, some (st.ip, true))
            | false ↦ offer_again s cfg key requested hostname now
          ]
    ]
