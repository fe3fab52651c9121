-- ===== src/Serve/Spoofed.antt =====
-- internal/dnsserver/handler.go: clients whose address may be forged.
use irongrid_dns.Prelude.{
  either_way, ℕ, ◌==◌, ◌≡◌, refl, Bool, true, false, not, ◌&&◌, ◌||◌, List, [], ◌∷◌, Option, inl,
  inr, arith,
}
use irongrid_dns.Bytes.{is_empty}
use irongrid_dns.Banner.{Banner}
use irongrid_dns.Serve.State.{
  Proto, udp, Query, Settings, Handler, ServeLib, count_error, count_allowed, count_blocked,
  count_cached,
}
use irongrid_dns.Serve.Guards.{is_udp, is_trusted, punish, count_honeypot}
use irongrid_dns.Serve.Answers.{Next, count_query, serve}
use irongrid_dns.Serve.Finish.{Finish}
use irongrid_dns.Serve.Kept.{Closed, option_way, block_rate-keeps}
use irongrid_dns.Serve.KeptAnswers.{HoldsNext, serve-HoldsNext}
use irongrid_dns.Serve.KeptFinish.{serve_stale-keeps, finish_resolve-keeps}
use irongrid_dns.Serve.Steps.{
  Server, Step, asks, waits, ends, after_serve, after_grace, after_end, step, run,
}

-- The banner of a handler.
abbrev pub Banned : Option Banner → Handler → Type 0
Banned o h = h.ip_banner ≡ o

pub Banned-Closed : (o : Option Banner) → Closed (Banned o) (Banned o)
unfolding count_error count_allowed count_blocked count_cached count_honeypot
Banned-Closed o = record {
  rate = λ h x p. p;
  nx = λ h x p. p;
  repeat = λ h x p. p;
  router = λ h x p. p;
  nx_done = λ h x p. p;
  logged = λ h es p. p;
  cache = λ h ws p. p;
  stop = λ h p. p;
  error = λ h p. p;
  allowed = λ h p. p;
  blocked = λ h p. p;
  cached = λ h p. p;
  honeypot = λ h p. p;
}

-- A query over UDP, where the settings do not trust its source address.
unfoldable pub is_spoofable : Settings → Query → Bool
is_spoofable s r = is_udp r.proto && not s.trust_udp

-- No query of the steps comes over a transport that is trusted.
unfoldable pub all_spoofable : List Step → Bool
all_spoofable [] = true
all_spoofable (asks s r now ∷ steps) = is_spoofable s r && all_spoofable steps
all_spoofable (waits f ∷ steps) = all_spoofable steps
all_spoofable (ends f outcome ∷ steps) = all_spoofable steps

not_trusted : (p : Proto) (t : Bool) → (is_udp p && not t) ≡ true → (is_trusted p || t) ≡ false
unfolding is_udp is_trusted
not_trusted udp t h = ground (arith, h)
not_trusted Proto.tcp t h = absurd (ground (arith, h))
not_trusted Proto.dot t h = absurd (ground (arith, h))
not_trusted Proto.doh t h = absurd (ground (arith, h))
not_trusted Proto.doh3 t h = absurd (ground (arith, h))
not_trusted Proto.doq t h = absurd (ground (arith, h))

punish-Banned :
    (o : Option Banner) (lib : ServeLib) (s : Settings) (r : Query) (now : ℕ)
    → is_spoofable s r ≡ true
    → (b : Banner) (h : Handler) → Banned o h
    → Banned o (punish lib s r now b h)
unfolding punish is_spoofable
punish-Banned o lib s r now forged b h p =
    rw (punish, not_trusted r.proto s.trust_udp forged)
      (either_way (Banned o) (is_empty r.client) _ _ p (
        block_rate-keeps (Banned o) (Banned o) (Banned-Closed o) r.client s.honeypot_udp_block now h
          p))

after_serve-Banned :
    (o : Option Banner) (v : Server) (x : Handler × Next)
    → HoldsNext (Banned o) (Banned o) x
    → Banned o (after_serve v x).handler
unfolding after_serve HoldsNext
after_serve-Banned o v (h, inl x) p = p
after_serve-Banned o v (h, inr plan) p = p

after_grace-Banned :
    (o : Option Banner) (f : Finish) (v : Server)
    → Banned o v.handler
    → Banned o (after_grace f v).handler
unfolding after_grace
after_grace-Banned o f v p =
    option_way (λ (w : Server). Banned o w.handler) f.plan.old v _ p
      (λ hit. serve_stale-keeps (Banned o) (Banned o) (Banned-Closed o) f [] hit v.handler p)

step-Banned :
    (o : Option Banner) (lib : ServeLib) (a : Step) (v : Server)
    → all_spoofable (a ∷ []) ≡ true
    → Banned o v.handler
    → Banned o (step lib a v).handler
unfolding step all_spoofable after_end count_query
step-Banned o lib (asks s r now) v forged p = after_serve-Banned o v (serve lib s r now v.handler) (
    serve-HoldsNext (Banned o) (Banned o) (Banned-Closed o) lib s r now
      (punish-Banned o lib s r now (ground (arith, forged))) v.handler p)
step-Banned o lib (waits f) v forged p =
    either_way (λ (w : Server). Banned o w.handler) (v.pending == 0) _ _ p
      (after_grace-Banned o f v p)
step-Banned o lib (ends f outcome) v forged p =
    either_way (λ (w : Server). Banned o w.handler) (v.pending == 0) _ _ p
      (finish_resolve-keeps (Banned o) (Banned o) (Banned-Closed o) lib f outcome v.handler p)

all_spoofable-tail :
    (a : Step) (steps : List Step)
    → all_spoofable (a ∷ steps) ≡ true
    → (all_spoofable (a ∷ []) ≡ true) × (all_spoofable steps ≡ true)
unfolding all_spoofable
all_spoofable-tail (asks s r now) steps h = (ground (arith, h), ground (arith, h))
all_spoofable-tail (waits f) steps h = (refl, h)
all_spoofable-tail (ends f outcome) steps h = (refl, h)

run-Banned :
    (o : Option Banner) (lib : ServeLib) (steps : List Step) (v : Server)
    → all_spoofable steps ≡ true
    → Banned o v.handler
    → Banned o (run lib steps v).handler
unfolding run
run-Banned o lib [] v forged p = p
run-Banned o lib (a ∷ steps) v forged p =
    let (first, more) = all_spoofable-tail a steps forged in
    run-Banned o lib steps (step lib a v) more (step-Banned o lib a v first p)

-- A history of queries that all come over UDP, where it is not trusted, and of their resolutions
-- leaves the banner as it is, whatever traps the queries ask for.
pub run-ip_banner :
    (lib : ServeLib) (steps : List Step) (v : Server)
    → all_spoofable steps ≡ true
    → (run lib steps v).handler.ip_banner ≡ v.handler.ip_banner
run-ip_banner lib steps v forged = run-Banned v.handler.ip_banner lib steps v forged refl
