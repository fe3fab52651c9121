-- ===== src/Serve/Steps.antt =====
-- internal/dnsserver/handler.go: the queries that a handler serves, in any order.
use irongrid_dns.Prelude.{ℕ, ◌+◌, ◌-◌, ◌==◌, List, [], ◌∷◌, none, some, inl, inr, if◌then◌else◌}
use irongrid_dns.Serve.State.{Query, Settings, Handler, ServeLib}
use irongrid_dns.Serve.Answers.{Next, serve}
use irongrid_dns.Serve.Finish.{Finish, Resolved, serve_stale, finish_resolve}

-- The handler, the number of resolutions that have not ended, and the number of clients that were
-- answered from the cache while theirs went on.
pub record Server : Type 0 where
  pub handler : Handler
  pub pending : ℕ
  pub raced : ℕ

-- A query comes in; the time that a client waits for a resolution runs out; a resolution ends.
pub data Step : Type 0 where
  asks : Settings → Query → ℕ → Step
  waits : Finish → Step
  ends : Finish → Resolved → Step

unfoldable pub after_serve : Server → Handler × Next → Server
after_serve v (h, inl x) = record v { handler = h }
after_serve v (h, inr plan) = record v { handler = h; pending = v.pending + 1 }

-- The client is answered with what the cache has past its time, where it has that, and the
-- resolution goes on.
unfoldable pub after_grace : Finish → Server → Server
after_grace f v = elim f.plan.old [
  | none ↦ v
  | some hit ↦ record v { handler = (serve_stale f [] hit v.handler).0; raced = v.raced + 1 }
]

unfoldable pub after_end : ServeLib → Finish → Resolved → Server → Server
after_end lib f outcome v = record v {
  handler = (finish_resolve lib f outcome v.handler).0;
  pending = v.pending - 1;
}

unfoldable pub step : ServeLib → Step → Server → Server
step lib (asks s r now) v = after_serve v (serve lib s r now v.handler)
step lib (waits f) v = if v.pending == 0 then v else after_grace f v
step lib (ends f outcome) v = if v.pending == 0 then v else after_end lib f outcome v

unfoldable pub run : ServeLib → List Step → Server → Server
run lib [] v = v
run lib (a ∷ steps) v = run lib steps (step lib a v)

-- A handler where no resolution goes on.
unfoldable pub idle : Handler → Server
idle h = record { handler = h; pending = 0; raced = 0 }
