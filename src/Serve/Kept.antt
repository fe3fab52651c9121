-- ===== src/Serve/Kept.antt =====
-- internal/dnsserver/handler.go: what the parts of `serve` keep of the handler.
use irongrid_dns.Prelude.{either_way, ℕ, Bool, List, [], ◌∷◌, ◌++◌, Option, none, some, ◌==◌}
use irongrid_dns.Prelude.Int.{ℤ}
use irongrid_dns.Bytes.{GoString, is_empty}
use irongrid_dns.RateLimit.{RateLimiter}
use irongrid_dns.NxGuard.{NxGuard}
use irongrid_dns.RepeatGuard.{RepeatGuard}
use irongrid_dns.Clients.Router.{ClientRouter}
use irongrid_dns.Banner.{Banner, canonical_domain}
use irongrid_dns.Serve.State.{
  Query, Question, Response, Settings, Handler, ServeLib, Stage, LogEntry, resume, chain,
  count_error, count_allowed, count_blocked, count_cached, log_entry,
}
use irongrid_dns.Serve.Guards.{
  refuse_unless, check_acl, check_edns, recover, compare_cookie, check_cookie, check_rate, check_nx,
  check_repeat, block_rate, block_repeat, note_repeat, refuse_blocked, check_client, punish,
  count_honeypot, check_honeypot, early_guards, guards, late_guards,
}

-- A property of a handler whose query is open and one of a handler whose query is answered, kept
-- by what a query changes.
pub record Closed (Open Done : Handler → Type 0) : Type 0 where
  pub rate : (h : Handler) (o : Option RateLimiter) → Open h → Open (record h { rate_limiter = o })
  pub nx : (h : Handler) (o : Option NxGuard) → Open h → Open (record h { nx_guard = o })
  pub repeat :
      (h : Handler) (o : Option RepeatGuard) → Open h → Open (record h { repeat_guard = o })
  pub router :
      (h : Handler) (o : Option ClientRouter) → Open h → Open (record h { client_router = o })
  pub nx_done : (h : Handler) (o : Option NxGuard) → Done h → Done (record h { nx_guard = o })
  pub logged : (h : Handler) (es : List LogEntry) → Done h → Done (record h { log = es })
  pub cache :
      (h : Handler) (ws : List (Question × ℕ)) → Done h → Done (record h { cache_writes = ws })
  pub stop : (h : Handler) → Open h → Done h
  pub error : (h : Handler) → Open h → Done (count_error h)
  pub allowed : (h : Handler) → Open h → Done (count_allowed h)
  pub blocked : (h : Handler) → Open h → Done (count_blocked h)
  pub cached : (h : Handler) → Open h → Done (count_cached h)
  pub honeypot : (h : Handler) → Open h → Done (count_honeypot h)

pub option_way :
    {A : Type 0}
    → {C : Type 0} → (P : C → Type 0) (o : Option A) (x : C) (f : A → C) → P x
    → ((a : A) → P (f a))
    → P (elim o [ none ↦ x | some a ↦ f a ])
option_way P none x f p q = p
option_way P (some a) x f p q = q a

module _ (Open Done : Handler → Type 0) where
  -- What holds after a stage: the query is open until it is answered.
  unfoldable pub Holds : Handler × Option Response → Type 0
  Holds (h, none) = Open h
  Holds (h, some x) = Done h

  pub still : (h : Handler) → Open h → Holds (h, none)
  unfolding Holds
  still h p = p

  pub over : (h : Handler) (x : Response) → Done h → Holds (h, some x)
  unfolding Holds
  over h x p = p

  abbrev pub Keeps : Stage → Type 0
  Keeps m = (h : Handler) → Open h → Holds (m h)

  abbrev pub AllKeep : List Stage → Type 0
  AllKeep [] = Unit
  AllKeep (m ∷ ms) = Keeps m × AllKeep ms

  resume-Holds :
      (p : Handler × Option Response) (next : Stage) → Holds p → Keeps next → Holds (resume p next)
  unfolding Holds
  resume-Holds (h, none) next k n = n h k
  resume-Holds (h, some x) next k n = k

  pub chain-Keeps : (ms : List Stage) → AllKeep ms → Keeps (chain ms)
  unfolding chain Holds
  chain-Keeps [] k h p = p
  chain-Keeps (m ∷ ms) (k, ks) h p = resume-Holds (m h) (chain ms) (k h p) (chain-Keeps ms ks)

  pub append-AllKeep : (ms ns : List Stage) → AllKeep ms → AllKeep ns → AllKeep (ms ++ ns)
  append-AllKeep [] ns a b = b
  append-AllKeep (m ∷ ms) ns (k, a) b = (k, append-AllKeep ms ns a b)

module _ (Open Done : Handler → Type 0) (c : Closed Open Done) where
  abbrev Kept : Handler × Option Response → Type 0
  Kept = Holds Open Done

  refuse_unless-Keeps : (r : Query) (ok : Bool) → Keeps Open Done (refuse_unless r ok)
  unfolding refuse_unless
  refuse_unless-Keeps r ok h p =
      either_way Kept ok _ _ (still Open Done h p) (over Open Done _ _ (c.error h p))

  check_edns-Keeps : (r : Query) → Keeps Open Done (check_edns r)
  unfolding check_edns
  check_edns-Keeps r h p =
      option_way Kept r.edns _ _ (still Open Done h p)
        (λ v. either_way Kept (v == 0) _ _ (still Open Done h p) (over Open Done h _ (c.stop h p)))

  compare_cookie-Keeps :
      (cookie expected : GoString) → Keeps Open Done (compare_cookie cookie expected)
  unfolding compare_cookie recover
  compare_cookie-Keeps cookie expected h p =
      either_way Kept _ _ _ (over Open Done _ _ (c.error h p))
        (either_way Kept _ _ _ (still Open Done h p) (over Open Done h _ (c.stop h p)))

  check_cookie-Keeps :
      (lib : ServeLib) (s : Settings) (r : Query) → Keeps Open Done (check_cookie lib s r)
  unfolding check_cookie
  check_cookie-Keeps lib s r h p =
      either_way Kept _ _ _ (compare_cookie-Keeps r.cookie _ h p) (still Open Done h p)

  check_rate-Keeps : (r : Query) (now : ℕ) → Keeps Open Done (check_rate r now)
  unfolding check_rate
  check_rate-Keeps r now h p =
      option_way Kept h.rate_limiter _ _ (still Open Done h p)
        (λ rl. refuse_unless-Keeps r _ _ (c.rate h _ p))

  check_nx-Keeps : (lib : ServeLib) (r : Query) (now : ℕ) → Keeps Open Done (check_nx lib r now)
  unfolding check_nx
  check_nx-Keeps lib r now h p =
      option_way Kept h.nx_guard _ _ (still Open Done h p) (λ g. refuse_unless-Keeps r _ h p)

  check_repeat-Keeps : (r : Query) (now : ℕ) → Keeps Open Done (check_repeat r now)
  unfolding check_repeat
  check_repeat-Keeps r now h p =
      option_way Kept h.repeat_guard _ _ (still Open Done h p) (λ g. refuse_unless-Keeps r _ h p)

  pub block_rate-keeps :
      (client : GoString) (d : ℤ) (now : ℕ) (h : Handler)
      → Open h
      → Open (block_rate client d now h)
  unfolding block_rate
  block_rate-keeps client d now h p = option_way Open h.rate_limiter h _ p (λ rl. c.rate h _ p)

  pub note_repeat-keeps :
      (s : Settings) (r : Query) (qname : GoString) (now : ℕ) (h : Handler)
      → Open h
      → Open (note_repeat s r qname now h)
  unfolding note_repeat block_repeat
  note_repeat-keeps s r qname now h p = option_way Open h.repeat_guard h _ p (λ g.
      either_way Open (is_empty r.client) _ _ p (
        either_way Open _ _ _ (block_rate-keeps r.client _ now _ (c.repeat h _ p))
          (c.repeat h _ p)))

  refuse_blocked-Keeps :
      (r : Query) (q : Question) (qname action reason : GoString)
      → Keeps Open Done (refuse_blocked r q qname action reason)
  unfolding refuse_blocked log_entry
  refuse_blocked-Keeps r q qname action reason h p =
      over Open Done _ _ (c.logged _ _ (c.blocked h p))

  check_client-Keeps :
      (lib : ServeLib) (s : Settings) (r : Query) (q : Question) (qname : GoString)
      → Keeps Open Done (check_client lib s r q qname)
  unfolding check_client
  check_client-Keeps lib s r q qname h p =
      either_way Kept (is_empty r.client) _ _ (still Open Done h p) (
        option_way Kept _ _ _
          (option_way Kept _ _ _ (still Open Done h p)
            (λ reason. refuse_blocked-Keeps r q qname _ reason h p))
          (λ reason. refuse_blocked-Keeps r q qname _ reason h p))

  check_honeypot-Keeps :
      (lib : ServeLib) (s : Settings) (r : Query) (qname : GoString) (now : ℕ)
      → ((b : Banner) (h : Handler) → Open h → Open (punish lib s r now b h))
      → Keeps Open Done (check_honeypot lib s r qname now)
  unfolding check_honeypot
  check_honeypot-Keeps lib s r qname now banned h p =
      option_way Kept h.ip_banner _ _ (still Open Done h p) (λ b.
        either_way Kept _ _ _ (over Open Done _ _ (c.honeypot _ (banned b h p)))
          (still Open Done h p))

  pub early_guards-AllKeep :
      (lib : ServeLib) (s : Settings) (r : Query) (now : ℕ)
      → AllKeep Open Done (early_guards lib s r now)
  unfolding check_acl
  early_guards-AllKeep lib s r now = (
    refuse_unless-Keeps r _,
    (
      check_edns-Keeps r,
      (
        check_cookie-Keeps lib s r,
        (check_rate-Keeps r now, (check_nx-Keeps lib r now, (check_repeat-Keeps r now, tt))),
      ),
    ),
  )

  late_guards-Keeps :
      (lib : ServeLib) (s : Settings) (r : Query) (q : Question) (qname : GoString) (now : ℕ)
      → ((b : Banner) (h : Handler) → Open h → Open (punish lib s r now b h))
      → Keeps Open Done (late_guards lib s r q qname now)
  unfolding late_guards
  late_guards-Keeps lib s r q qname now banned h p =
      chain-Keeps Open Done _
        (check_client-Keeps lib s r q qname, (check_honeypot-Keeps lib s r qname now banned, tt))
        (note_repeat s r qname now h) (note_repeat-keeps s r qname now h p)

  pub guards-AllKeep :
      (lib : ServeLib) (s : Settings) (r : Query) (q : Question) (now : ℕ)
      → ((b : Banner) (h : Handler) → Open h → Open (punish lib s r now b h))
      → AllKeep Open Done (guards lib s r q now)
  guards-AllKeep lib s r q now banned =
      append-AllKeep Open Done (early_guards lib s r now)
        (late_guards lib s r q (canonical_domain lib.prefix.unicode q.name) now ∷ [])
        (early_guards-AllKeep lib s r now)
        (late_guards-Keeps lib s r q (canonical_domain lib.prefix.unicode q.name) now banned, tt)
