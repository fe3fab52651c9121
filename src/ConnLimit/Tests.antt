-- ===== src/ConnLimit/Tests.antt =====
-- The theorem about the connection limiter at a concrete history.
use irongrid_dns.Prelude.{refl, [], ◌∷◌, arith}
use irongrid_dns.Prelude.Int.{pos}
use irongrid_dns.Bytes.{GoString, ascii}
use irongrid_dns.ConnLimit.{accept, close, new_conn_limiter}
use irongrid_dns.ConnLimit.Tracking.{Server, accepts, closes, here, next, Tracks, Reach-Tracks}

abbrev client : GoString
client = ascii "10.0.0.7"

abbrev start : Server
start = record { lim = new_conn_limiter (pos 1); open_conns = [] }

abbrev busy : Server
busy = record { lim = (accept start.lim client).0; open_conns = (accept start.lim client).1 ∷ [] }

abbrev quiet : Server
quiet = record { lim = close busy.lim (accept start.lim client).1; open_conns = [] }

Reach-Tracks_example : Tracks 1 quiet
Reach-Tracks_example =
    Reach-Tracks 1 (omega arith) quiet
      (next (next here (accepts start client)) (closes busy [] [] (accept start.lim client).1 refl))
