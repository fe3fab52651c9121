-- ===== src/Serve/Counted.antt =====
-- internal/dnsserver/handler.go: the counters of a handler.
use irongrid_dns.Prelude.{
  either_way, ℕ, ◌+◌, ◌-◌, ◌==◌, ◌≡◌, true, false, List, [], ◌∷◌, inl, inr, leb, arith, Bool-cases,
  ◌||◌,
}
use irongrid_dns.Serve.State.{
  Query, Settings, Stats, Handler, ServeLib, count_error, count_allowed, count_blocked,
  count_cached,
}
use irongrid_dns.Bytes.{is_empty}
use irongrid_dns.Banner.{Banner}
use irongrid_dns.Serve.Guards.{is_trusted, punish, count_honeypot}
use irongrid_dns.Serve.Answers.{Next, count_query, serve}
use irongrid_dns.Serve.Finish.{Finish, Resolved}
use irongrid_dns.Serve.Kept.{Closed, option_way, block_rate-keeps}
use irongrid_dns.Serve.KeptAnswers.{HoldsNext, serve-HoldsNext}
use irongrid_dns.Serve.KeptFinish.{serve_stale-keeps, finish_resolve-keeps}
use irongrid_dns.Serve.Steps.{
  Server, Step, asks, waits, ends, after_serve, after_grace, after_end, step, run, idle,
}

-- The queries that the counters of outcomes hold.
unfoldable pub counted : Stats → ℕ
counted st = st.errors + st.allowed + st.blocked + st.cached

-- Room in the total for `k` more outcomes, where `n` clients were answered before their resolution
-- ended.
unfoldable Room : ℕ → ℕ → Handler → Type 0
Room k n h = leb (counted h.stats + k) (h.stats.total + n) ≡ true

Room-Closed : (k n : ℕ) → Closed (Room (k + 1) n) (Room k n)
unfolding Room counted count_error count_allowed count_blocked count_cached count_honeypot
Room-Closed k n = record {
  rate = λ h o p. p;
  nx = λ h o p. p;
  repeat = λ h o p. p;
  router = λ h o p. p;
  nx_done = λ h o p. p;
  logged = λ h es p. p;
  cache = λ h ws p. p;
  stop = λ h p. ground (arith, p);
  error = λ h p. ground (arith, p);
  allowed = λ h p. ground (arith, p);
  blocked = λ h p. ground (arith, p);
  cached = λ h p. ground (arith, p);
  honeypot = λ h p. ground (arith, p);
}

punish-Room :
    (k n : ℕ) (lib : ServeLib) (s : Settings) (r : Query) (now : ℕ) (b : Banner) (h : Handler)
    → Room (k + 1) n h
    → Room (k + 1) n (punish lib s r now b h)
unfolding punish Room
punish-Room k n lib s r now b h p = either_way (Room (k + 1) n) (is_empty r.client) _ _ p (
    either_way (Room (k + 1) n) (is_trusted r.proto || s.trust_udp) _ _ p (
      block_rate-keeps (Room (k + 1) n) (Room k n) (Room-Closed k n) r.client s.honeypot_udp_block
        now h p))

-- A server whose counters leave room for each resolution that goes on.
abbrev HasRoom : Server → Type 0
HasRoom v = Room v.pending v.raced v.handler

after_serve-HasRoom :
    (v : Server) (x : Handler × Next)
    → HoldsNext (Room (v.pending + 1) v.raced) (Room v.pending v.raced) x
    → HasRoom (after_serve v x)
unfolding after_serve HoldsNext
after_serve-HasRoom v (h, inl x) p = p
after_serve-HasRoom v (h, inr plan) p = p

serve-HasRoom :
    (lib : ServeLib) (s : Settings) (r : Query) (now : ℕ) (v : Server)
    → HasRoom v
    → HasRoom (after_serve v (serve lib s r now v.handler))
unfolding Room counted count_query
serve-HasRoom lib s r now v p =
    let k = v.pending in
    let n = v.raced in
    after_serve-HasRoom v (serve lib s r now v.handler) (
      serve-HoldsNext (Room (k + 1) n) (Room k n) (Room-Closed k n) lib s r now
        (punish-Room k n lib s r now) v.handler (ground (arith, p)))

-- One resolution is open, of those that go on.
one_open : (k n : ℕ) (h : Handler) → (k == 0) ≡ false → Room k n h → Room (k - 1 + 1) n h
unfolding Room
one_open k n h some_open p = ground (arith, some_open, p)

after_grace-HasRoom :
    (f : Finish) (v : Server) → (v.pending == 0) ≡ false → HasRoom v → HasRoom (after_grace f v)
unfolding after_grace Room
after_grace-HasRoom f v some_open p = option_way HasRoom f.plan.old v _ p (λ hit.
    let k = v.pending - 1 in
    let kept =
      serve_stale-keeps (Room (k + 1) v.raced) (Room k v.raced) (Room-Closed k v.raced) f [] hit
        v.handler (one_open v.pending v.raced v.handler some_open p) in
    ground (arith, kept, some_open))

after_end-HasRoom :
    (lib : ServeLib) (f : Finish) (outcome : Resolved) (v : Server)
    → (v.pending == 0) ≡ false
    → HasRoom v
    → HasRoom (after_end lib f outcome v)
unfolding after_end
after_end-HasRoom lib f outcome v some_open p =
    let k = v.pending - 1 in
    finish_resolve-keeps (Room (k + 1) v.raced) (Room k v.raced) (Room-Closed k v.raced) lib f
      outcome v.handler (one_open v.pending v.raced v.handler some_open p)

step-HasRoom : (lib : ServeLib) (a : Step) (v : Server) → HasRoom v → HasRoom (step lib a v)
unfolding step
step-HasRoom lib (asks s r now) v p = serve-HasRoom lib s r now v p
step-HasRoom lib (waits f) v p = elim (Bool-cases (v.pending == 0)) [
  | inl none_open ↦ rw none_open p
  | inr some_open ↦ rw some_open (after_grace-HasRoom f v some_open p)
]
step-HasRoom lib (ends f outcome) v p = elim (Bool-cases (v.pending == 0)) [
  | inl none_open ↦ rw none_open p
  | inr some_open ↦ rw some_open (after_end-HasRoom lib f outcome v some_open p)
]

run-HasRoom :
    (lib : ServeLib) (steps : List Step) (v : Server) → HasRoom v → HasRoom (run lib steps v)
unfolding run
run-HasRoom lib [] v p = p
run-HasRoom lib (a ∷ steps) v p = run-HasRoom lib steps (step lib a v) (step-HasRoom lib a v p)

-- In every history of queries, of clients that are answered before their resolution ended, and of
-- resolutions that end, the counters of outcomes and the resolutions that go on are no more than
-- the queries and the clients answered early, where that is so of the counters at the start.
pub run-counted :
    (lib : ServeLib) (steps : List Step) (h : Handler)
    → leb (counted h.stats) h.stats.total ≡ true
    → leb
        (counted (run lib steps (idle h)).handler.stats + (run lib steps (idle h)).pending)
        ((run lib steps (idle h)).handler.stats.total + (run lib steps (idle h)).raced)
      ≡ true
unfolding Room idle
run-counted lib steps h p = run-HasRoom lib steps (idle h) (ground (arith, p))
