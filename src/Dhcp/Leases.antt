-- ===== src/Dhcp/Leases.antt =====
-- internal/dhcp/pool.go: the lease tables, for IPv4. The two tables point to the same lease
-- objects, which stand in a store. An address stands for its text as well: `ip.String()` and
-- `net.ParseIP` are inverse on addresses of four bytes.
use irongrid_dns.Prelude.{
  ℕ, zero, suc, ◌+◌, ◌*◌, ◌%◌, Bool, true, false, not, ◌&&◌, ◌||◌, [], Option, none, some, ltb,
  ◌==◌, if◌then◌else◌,
}
use irongrid_dns.Bytes.{GoString, str_eq, is_empty}
use irongrid_dns.Clock.{second, minute}
use irongrid_dns.Shards.Table.{Table, lookup, insert, delete}
use irongrid_dns.Dhcp.Addr.{pool_total, candidate}

abbrev pub offered_hold : ℕ
offered_hold = 90 * second

abbrev pub declined_hold : ℕ
declined_hold = 30 * minute

-- The hardware address of a lease is for display and left out; `expires` is 0 on a static lease.
pub record Lease : Type 0 where
  pub key : GoString
  pub ip : GoString
  pub hostname : GoString
  pub expires : ℕ
  pub static : Bool

pub record Reservation : Type 0 where
  pub key : GoString
  pub until : ℕ

-- The fields that the pool works on. `lease_time` is the effective one. The indexes of host names
-- are rebuilt from the leases after each change, and are left out.
pub record Server : Type 0 where
  pub range_start : GoString
  pub range_end : GoString
  pub lease_time : ℕ
  pub store : ℕ → Lease
  pub next : ℕ
  pub leases : Table ℕ
  pub by_ip : Table ℕ
  pub reserved : Table Reservation
  pub cursor4 : ℕ
  pub dirty : Bool

-- `r.until.After(now) && r.key != key`
unfoldable pub is_reserved : Server → GoString → GoString → ℕ → Bool
is_reserved s ip key now = elim (lookup ip s.reserved) [
  | none ↦ false
  | some r ↦ ltb now r.until && not (str_eq r.key key)
]

-- The lazy reclamation of an address whose lease `l` has expired.
unfoldable pub reclaim : Server → GoString → Lease → Server
reclaim s ip l = record s {
  leases = delete l.key s.leases;
  by_ip = delete ip s.by_ip;
  dirty = true;
}

-- `inUseLocked`
unfoldable pub in_use : Server → GoString → GoString → ℕ → Server × Bool
unfolding is_reserved reclaim
in_use s ip key now = elim (lookup ip s.by_ip) [
  | none ↦ (s, is_reserved s ip key now)
  | some p ↦
      let l = s.store p in
      if str_eq l.key key
      then (s, is_reserved s ip key now)
      else if l.static || ltb now l.expires
      then (s, true)
      else (reclaim s ip l, is_reserved s ip key now)
]

-- The rounds `i` of the loop of `nextFree4`.
unfoldable pub next_free_from : ℕ → ℕ → Server → GoString → ℕ → Server × Option GoString
next_free_from zero i s key now = (s, none)
next_free_from (suc n) i s key now =
    let total = pool_total s.range_start s.range_end in
    let cand = candidate s.range_start s.range_end s.cursor4 i in
    let (s', used) = in_use s cand key now in
    elim used [
      | true ↦ next_free_from n (i + 1) s' key now
      | false ↦
          (record s' { cursor4 = ((s.cursor4 + i) % (total + 1) + 1) % (total + 1) }, some cand)
    ]

unfoldable pub next_free4 : Server → GoString → ℕ → Server × Option GoString
unfolding next_free_from
next_free4 s key now = next_free_from (pool_total s.range_start s.range_end + 1) 0 s key now

-- `s.reserved[ip.String()] = reservation{key: key, until: now.Add(hold)}`
unfoldable pub reserve : Server → GoString → GoString → ℕ → Server
reserve s ip key until = record s {
  reserved = insert ip (record { key = key; until = until }) s.reserved;
}

-- The lease of another client that `commitLocked` finds on the address.
unfoldable pub drop_old : Server → GoString → GoString → Table ℕ
drop_old s ip key = elim (lookup ip s.by_ip) [
  | none ↦ s.leases
  | some p ↦ let old = s.store p in if str_eq old.key key then s.leases else delete old.key s.leases
]

-- `commitLocked` on a new object.
unfoldable pub commit : Server → Lease → ℕ → Server
unfolding drop_old
commit s l now =
    let l' = if l.static then l else record l { expires = now + s.lease_time } in
    record s {
      store = λ q. if q == s.next then l' else s.store q;
      next = s.next + 1;
      reserved = delete l.ip s.reserved;
      leases = insert l.key s.next (drop_old s l.ip l.key);
      by_ip = insert l.ip s.next s.by_ip;
      dirty = true;
    }

-- `renewLocked` on the object at `p`.
unfoldable pub renew : Server → ℕ → GoString → ℕ → Server
renew s p hostname now =
    let l = s.store p in
    if l.static then s else record s {
      store = λ q.
          if q == p
          then record l {
            expires = now + s.lease_time;
            hostname = if is_empty hostname then l.hostname else hostname;
          }
          else s.store q;
      reserved = delete l.ip s.reserved;
      dirty = true;
    }

-- `releaseLease`, with the nil address as `none`.
unfoldable pub release_lease : Server → GoString → Option GoString → Server × Bool
release_lease s key ip = elim (lookup key s.leases) [
  | none ↦ (s, false)
  | some p ↦
      let l = s.store p in
      let other : Bool = elim ip [ none ↦ false | some a ↦ not (str_eq a l.ip) ] in
      if other then (s, false) else (
        record s { leases = delete key s.leases; by_ip = delete l.ip s.by_ip; dirty = true },
        true,
      )
]

-- `declineLease`, for an address that is there.
unfoldable pub decline_lease : Server → GoString → ℕ → Server
unfolding reserve
decline_lease s ip now =
    let s' : Server = elim (lookup ip s.by_ip) [
      | none ↦ s
      | some p ↦ record s { leases = delete (s.store p).key s.leases; by_ip = delete ip s.by_ip }
    ] in
    record (reserve s' ip [] (now + declined_hold)) { dirty = true }
