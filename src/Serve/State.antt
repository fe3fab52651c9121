-- ===== src/Serve/State.antt =====
-- internal/dnsserver/handler.go: a query, what may be written for it, and the handler.
use irongrid_dns.Prelude.{ℕ, ◌+◌, Bool, List, [], ◌∷◌, Option, none, some}
use irongrid_dns.Prelude.Int.{ℤ}
use irongrid_dns.Bytes.{GoString}
use irongrid_dns.RateLimit.{RateLimiter}
use irongrid_dns.NxGuard.{NxGuard}
use irongrid_dns.RepeatGuard.{RepeatGuard}
use irongrid_dns.Clients.Acl.{NetLib, Acl}
use irongrid_dns.Clients.Router.{ClientPolicy, ClientRouter}
use irongrid_dns.Geoip.Blocker.{GeoLib, Blocker}
use irongrid_dns.Banner.{PrefixLib, Banner}
use irongrid_dns.Filter.Rules.{Env}
use irongrid_dns.Filter.State.{Engine}
use irongrid_dns.Filter.Rewrite.{Rewriter, Answer}
use irongrid_dns.Forward.Upstreams.{Upstream}
use irongrid_dns.Forward.Routes.{UpstreamRoute}

-- The protocol that a listener tags a query with.
pub data Proto : Type 0 where
  udp tcp dot doh doh3 doq : Proto

pub record Question : Type 0 where
  pub name : GoString
  pub qtype : ℕ

-- A message that asks: the first question, the version of its OPT record, and the hexadecimal text
-- of its COOKIE option, empty without one.
pub record Query : Type 0 where
  pub question : Option Question
  pub edns : Option ℕ
  pub cookie : GoString
  pub client : GoString
  pub proto : Proto

-- An answer of the cache: the packed message, with its header's rcode.
pub record Hit : Type 0 where
  pub raw : GoString
  pub rcode : ℕ
  pub is_negative : Bool
  pub is_stale : Bool

-- An answer of an upstream: the addresses and the aliases (owner and target) of its answer section.
pub record Reply : Type 0 where
  pub rcode : ℕ
  pub ips : List GoString
  pub cnames : List (GoString × GoString)
  pub answers : ℕ
  pub is_authenticated : Bool

-- What is written to the client; `none` for an address family that has no record is an answer
-- without records.
pub data Response : Type 0 where
  silent : Response
  error : ℕ → Response
  explained : ℕ → GoString → Response
  cookie_error : GoString → Response
  minimal_any : Response
  local_answer : Option (List Answer) → Response
  proxy_answer : GoString → Response
  host_answer : List GoString → Response
  host_name : GoString → Response
  block_page : GoString → Response
  cached : Hit → Response
  stale : Hit → Response
  passed_on : Reply → Response

-- `Stats`, of which the totals by protocol are left out.
pub record Stats : Type 0 where
  pub total : ℕ
  pub errors : ℕ
  pub allowed : ℕ
  pub blocked : ℕ
  pub cached : ℕ
  pub honeypot : ℕ

-- An entry of the query log.
pub record LogEntry : Type 0 where
  pub client : GoString
  pub domain : GoString
  pub qtype : ℕ
  pub action : GoString
  pub reason : GoString
  pub upstream : GoString

-- `handlerSettings`, without what a query changes.
pub record Settings : Type 0 where
  pub acl : Option Acl
  pub geo : Option Blocker
  pub rewriter : Option Rewriter
  pub routes : List UpstreamRoute
  pub upstreams : List Upstream
  pub engine : Engine
  pub trust_udp : Bool
  pub cookies_on : Bool
  pub honeypot_udp_block : ℤ
  pub repeat_query_block_for : ℤ
  pub repeat_query_udp_block_for : ℤ
  pub has_cache : Bool
  pub dnssec_enabled : Bool
  pub dnssec_require_ad : Bool
  pub dnssec_validate_locally : Bool
  pub cname_cloaking_protection : Bool

-- What a query may change: the counters, the guards, the banner, the router's cache, the log, and
-- the writes that were handed to the response cache.
pub record Handler : Type 0 where
  pub stats : Stats
  pub rate_limiter : Option RateLimiter
  pub nx_guard : Option NxGuard
  pub repeat_guard : Option RepeatGuard
  pub ip_banner : Option Banner
  pub client_router : Option ClientRouter
  pub log : List LogEntry
  pub cache_writes : List (Question × ℕ)

-- What the handler calls: package `net`, the filter's environment, `hmac` over SHA-256 in
-- hexadecimal, the mask of an address by /24 or /64, the text of an address, the addresses and the
-- names of the DHCP server, the proxy of the VPN, the policy of a group, and the response cache.
pub record ServeLib : Type 0 where
  pub net : NetLib
  pub geo : GeoLib
  pub prefix : PrefixLib
  pub filter : Env
  pub to4 : GoString → Option GoString
  pub hmac : GoString → GoString
  pub mask : GoString → GoString
  pub lookup_host : GoString → List GoString
  pub lookup_ptr : GoString → Option GoString
  pub proxy : Question → Option GoString
  pub ip_text : List ℕ → GoString
  pub policy_engine : ClientPolicy → Engine
  pub policy_upstreams : ClientPolicy → List Upstream
  pub cache_lookup : Question → Option Hit

-- A part of `serve`: it may answer the query, which ends the call, or pass it on.
abbrev pub Stage : Type 0
Stage = Handler → Handler × Option Response

abbrev pub resume : Handler × Option Response → Stage → Handler × Option Response
resume (h, some r) next = (h, some r)
resume (h, none) next = next h

-- Stages one after another, until one answers.
unfoldable pub chain : List Stage → Stage
chain [] h = (h, none)
chain (m ∷ ms) h = resume (m h) (chain ms)

unfoldable pub count_error : Handler → Handler
count_error h = record h { stats = record h.stats { errors = h.stats.errors + 1 } }

unfoldable pub count_allowed : Handler → Handler
count_allowed h = record h { stats = record h.stats { allowed = h.stats.allowed + 1 } }

unfoldable pub count_blocked : Handler → Handler
count_blocked h = record h { stats = record h.stats { blocked = h.stats.blocked + 1 } }

unfoldable pub count_cached : Handler → Handler
count_cached h = record h { stats = record h.stats { cached = h.stats.cached + 1 } }

-- `record`
unfoldable pub log_entry :
    Query → Question → GoString → GoString → GoString → GoString → Handler → Handler
log_entry r q qname action reason up h = record h {
  log =
      record {
        client = r.client;
        domain = qname;
        qtype = q.qtype;
        action = action;
        reason = reason;
        upstream = up;
      }
      ∷ h.log;
}
