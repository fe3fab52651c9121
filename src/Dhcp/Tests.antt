-- ===== src/Dhcp/Tests.antt =====
-- Tests and worked examples of the DHCP pool (internal/dhcp/pool.go).
use irongrid_dns.Prelude.{◌+◌, ◌≡◌, refl, false, [], ◌∷◌, none, some, arith}
use irongrid_dns.Bytes.{GoString, str_eq, is_empty}
use irongrid_dns.Shards.Table.{lookup}
use irongrid_dns.Dhcp.Addr.{pool_total, candidate}
use irongrid_dns.Dhcp.Leases.{
  Lease, Server, is_reserved, reclaim, in_use, next_free_from, next_free4, commit, reserve,
}
use irongrid_dns.Dhcp.Addr.{backward, add_from, pool_at}
use irongrid_dns.Dhcp.Allocate.{Found, next_free4-Found}
use irongrid_dns.Dhcp.Orphan.{orphan}
use irongrid_dns.Dhcp.Offer.{
  Config, static_for, find_held, addr_in_pool, contains, broadcast, bytes_compare, offer_next,
  offer_requested, offer_again, alloc_v4, v4_key,
}
use irongrid_dns.Dhcp.NewClient.{IsOffer, alloc_v4-IsOffer}

-- 10.0.0.250 and ten more addresses.
across_octet : pool_at (10 ∷ 0 ∷ 0 ∷ 250 ∷ []) 10 ≡ 10 ∷ 0 ∷ 1 ∷ 4 ∷ []
unfolding pool_at backward add_from
across_octet = refl

-- The pool 10.0.0.200 to 10.0.1.50 goes on to 10.0.2.50.
overruns : candidate (10 ∷ 0 ∷ 0 ∷ 200 ∷ []) (10 ∷ 0 ∷ 1 ∷ 50 ∷ []) 0 362 ≡ 10 ∷ 0 ∷ 2 ∷ 50 ∷ []
unfolding candidate pool_total pool_at backward add_from
overruns = refl

-- Two clients, one of which has a lease on the first address.
abbrev alice : GoString
alice = 97 ∷ []

abbrev bob : GoString
bob = 98 ∷ []

abbrev first_ip : GoString
first_ip = 10 ∷ 0 ∷ 0 ∷ 250 ∷ []

abbrev last_ip : GoString
last_ip = 10 ∷ 0 ∷ 0 ∷ 252 ∷ []

abbrev lease_of_alice : Lease
lease_of_alice = record { key = alice; ip = first_ip; hostname = []; expires = 100; static = false }

abbrev server : GoString → Server
server range_end = record {
  range_start = first_ip;
  range_end = range_end;
  lease_time = 100;
  store = λ _. lease_of_alice;
  next = 1;
  leases = (alice, 0) ∷ [];
  by_ip = (first_ip, 0) ∷ [];
  reserved = [];
  cursor4 = 0;
  dirty = false;
}

next_free4-Found_example :
    Found
      (server last_ip)
      (next_free4 (server last_ip) bob 50).0
      (pool_total first_ip last_ip + 1)
      (10 ∷ 0 ∷ 0 ∷ 251 ∷ [])
      bob
      50
unfolding next_free4 next_free_from in_use reclaim is_reserved lookup str_eq candidate pool_total
    pool_at backward add_from
next_free4-Found_example = next_free4-Found bob 50 (server last_ip) (10 ∷ 0 ∷ 0 ∷ 251 ∷ []) refl

abbrev moved : Lease
moved = record { key = alice; ip = last_ip; hostname = []; expires = 0; static = false }

orphan_example :
    (lookup alice (in_use (commit (server last_ip) moved 90) first_ip bob 120).0.leases ≡ none)
    × (lookup last_ip (in_use (commit (server last_ip) moved 90) first_ip bob 120).0.by_ip ≡ some 1)
    × ((in_use (commit (server last_ip) moved 90) first_ip bob 120).0.store 1
        ≡ record moved { expires = 190 })
unfolding lookup str_eq
orphan_example =
    orphan (server last_ip) moved 90 120 0 first_ip bob refl (omega arith) refl refl (omega arith)
      refl refl refl

-- A subnet around the pool, without static reservations.
abbrev net : Config
net = record {
  subnet = some (record { net_ip = 10 ∷ 0 ∷ 0 ∷ 0 ∷ []; mask = 255 ∷ 255 ∷ 255 ∷ 0 ∷ [] });
  static = [];
}

-- The requested address is leased, so the next one is offered.
alloc_v4-IsOffer_example :
    IsOffer
      (server last_ip)
      (alloc_v4 (server last_ip) net bob (some first_ip) [] 50).0
      (10 ∷ 0 ∷ 0 ∷ 251 ∷ [])
      (v4_key bob)
      50
unfolding alloc_v4 offer_again offer_requested offer_next static_for find_held addr_in_pool contains
    broadcast bytes_compare reserve next_free4 next_free_from in_use reclaim is_reserved lookup
    str_eq is_empty candidate pool_total pool_at backward add_from
alloc_v4-IsOffer_example =
    alloc_v4-IsOffer (server last_ip) net bob (some first_ip) [] 50 (10 ∷ 0 ∷ 0 ∷ 251 ∷ []) false
      refl refl refl refl
