-- ===== src/ConnLimit.antt =====
-- internal/dnsserver/connlimit.go: how many connections each client holds open.
pub mod Tracking
mod Tests
use irongrid_dns.Prelude.{
  ℕ, ◌+◌, ◌-◌, Bool, true, false, ◌||◌, List, [], ◌∷◌, Option, none, some, ltb, leb, if◌then◌else◌,
}
use irongrid_dns.Prelude.Int.{ℤ, pos, negsuc}
use irongrid_dns.Bytes.{GoString, is_empty}
use irongrid_dns.Shards.Table.{Table, Shards, lookup, insert, delete, shard, set_shard}

pub record ConnLimiter : Type 0 where
  pub cap : ℤ
  pub shards : Shards ℕ

unfoldable pub new_conn_limiter : ℤ → ConnLimiter
new_conn_limiter cap = record { cap = cap; shards = λ _. [] }

-- `s.conns[ip]`, which is 0 for an address without an entry.
unfoldable pub count_in : GoString → Table ℕ → ℕ
count_in ip m = elim (lookup ip m) [ none ↦ 0 | some n ↦ n ]

-- `cl.max <= 0`
abbrev pub is_off : ℤ → Bool
is_off (pos n) = leb n 0
is_off (negsuc n) = true

-- `s.conns[ip] >= cl.max`
abbrev pub at_cap : ℕ → ℤ → Bool
at_cap n (pos cap) = leb cap n
at_cap n (negsuc cap) = true

unfoldable pub acquire : ConnLimiter → GoString → ConnLimiter × Bool
unfolding count_in
acquire cl ip =
    if is_empty ip || is_off cl.cap
    then (cl, true)
    else let m = shard cl.shards ip in
      let n = count_in ip m in
      if at_cap n cl.cap
      then (cl, false)
      else (record cl { shards = set_shard cl.shards ip (insert ip (n + 1) m) }, true)

unfoldable pub release : ConnLimiter → GoString → ConnLimiter
unfolding count_in
release cl ip =
    if is_empty ip || is_off cl.cap
    then cl
    else let m = shard cl.shards ip in
      let n = count_in ip m in
      record cl {
        shards = set_shard cl.shards ip (if ltb 1 n then insert ip (n - 1) m else delete ip m);
      }

-- What `limitListener.Accept` hands to the server for an accepted connection: the connection with
-- its address, which releases its slot when it is closed, or one on which every operation fails.
pub data Conn : Type 0 where
  tracked : GoString → Conn
  rejected : Conn

-- `limitListener.Accept`, after a connection came in.
unfoldable pub accept : ConnLimiter → GoString → ConnLimiter × Conn
accept cl ip = let (cl', ok) = acquire cl ip in (cl', if ok then tracked ip else rejected)

-- `trackedConn.Close` and `rejectedConn.Close`
unfoldable pub close : ConnLimiter → Conn → ConnLimiter
close cl (tracked ip) = release cl ip
close cl rejected = cl
