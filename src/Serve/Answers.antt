-- ===== src/Serve/Answers.antt =====
-- internal/dnsserver/handler.go: what `serve` answers by itself, before it asks an upstream.
use irongrid_dns.Prelude.{
  ◌⊎◌, inl, inr, ℕ, ◌+◌, Bool, not, ◌&&◌, ◌||◌, ◌==◌, List, [], ◌∷◌, ◌++◌, Option, none, some,
  if◌then◌else◌, length,
}
use irongrid_dns.Bytes.{GoString, ascii}
use irongrid_dns.Text.{has_prefix}
use irongrid_dns.NxGuard.{note_nx}
use irongrid_dns.Clients.Router.{resolve}
use irongrid_dns.Banner.{canonical_domain}
use irongrid_dns.Filter.State.{Engine}
use irongrid_dns.Filter.Decide.{block, allow, decide_domain}
use irongrid_dns.Filter.Rewrite.{lookup_rules, build_answer}
use irongrid_dns.Forward.Upstreams.{Upstream}
use irongrid_dns.Forward.Routes.{route_match}
use irongrid_dns.Serve.State.{
  Question, Query, Hit, Response, Settings, Handler, ServeLib, Stage, chain, minimal_any,
  local_answer, proxy_answer, host_answer, host_name, block_page, cached, error, count_allowed,
  count_blocked, count_cached, log_entry,
}
use irongrid_dns.Serve.Reverse.{reverse_name_ip}
use irongrid_dns.Serve.Guards.{guards, client_prefix, rcode_format_error, rcode_name_error}

abbrev pub type_a : ℕ
type_a = 1

abbrev pub type_ptr : ℕ
type_ptr = 12

abbrev pub type_aaaa : ℕ
type_aaaa = 28

abbrev pub type_any : ℕ
type_any = 255

-- `isMetaQuery`: AXFR, IXFR, OPT, TSIG and ANY.
unfoldable pub is_meta_query : Question → Bool
is_meta_query q =
    q.qtype == 252 || q.qtype == 251 || q.qtype == 41 || q.qtype == 250 || q.qtype == type_any

-- An answer of the server's own is counted, logged and written.
unfoldable pub answer_with : Query → Question → GoString → GoString → GoString → Response → Stage
answer_with r q qname action reason response h =
    (log_entry r q qname action reason [] (count_allowed h), some response)

-- 0.7: ANY.
unfoldable pub answer_any : Query → Question → GoString → Stage
answer_any r q qname h =
    if q.qtype == type_any
    then answer_with r q qname (ascii "minimal") (ascii "rfc8482-any") minimal_any h
    else (h, none)

-- 1: the local records.
unfoldable pub answer_local : ServeLib → Settings → Query → Question → GoString → Stage
answer_local lib s r q qname h = elim s.rewriter [
  | none ↦ (h, none)
  | some rw' ↦ elim (lookup_rules lib.filter rw' q.name) [
    | none ↦ (h, none)
    | some rules ↦ elim (build_answer lib.to4 lib.net.parse_ip q.qtype rules) [
      | some ans ↦
          answer_with r q qname (ascii "rewrite") (ascii "local-dns") (local_answer (some ans)) h
      | none ↦
          answer_with r q qname (ascii "rewrite") (ascii "local-dns-nodata") (local_answer none) h
    ]
  ]
]

-- 1.4: the proxy of the VPN.
unfoldable pub answer_proxy : ServeLib → Query → Question → GoString → Stage
answer_proxy lib r q qname h = elim (lib.proxy q) [
  | none ↦ (h, none)
  | some ip ↦ answer_with r q qname (ascii "rewrite") (ascii "vpn-proxy") (proxy_answer ip) h
]

-- The addresses of the family that is asked for.
unfoldable pub of_family : ServeLib → ℕ → List GoString → List GoString
of_family lib qtype [] = []
of_family lib qtype (ip ∷ ips) = elim (lib.to4 ip) [
  | some v4 ↦ if qtype == type_a then v4 ∷ of_family lib qtype ips else of_family lib qtype ips
  | none ↦ if qtype == type_aaaa then ip ∷ of_family lib qtype ips else of_family lib qtype ips
]

-- 1.5: the names of DHCP clients.
unfoldable pub answer_host : ServeLib → Query → Question → GoString → Stage
answer_host lib r q qname h = elim (lib.lookup_host q.name) [
  | [] ↦ (h, none)
  | ip ∷ ips ↦
      let found = of_family lib q.qtype (ip ∷ ips) in
      answer_with r q qname (ascii "rewrite")
        (if length found == 0 then ascii "dhcp-host-nodata" else ascii "dhcp-host")
        (host_answer found) h
]

-- 1.6: the addresses of DHCP clients.
unfoldable pub answer_ptr : ServeLib → Query → Question → GoString → Stage
answer_ptr lib r q qname h =
    if q.qtype == type_ptr
    then elim (reverse_name_ip lib q.name) [
      | none ↦ (h, none)
      | some ip ↦ elim (lib.lookup_ptr (lib.ip_text ip)) [
        | none ↦ (h, none)
        | some host ↦
            answer_with r q qname (ascii "rewrite") (ascii "dhcp-host-ptr")
              (host_name (host ++ ascii ".")) h
      ]
    ]
    else (h, none)

-- All answers that come before the filter.
abbrev pub own_answers : ServeLib → Settings → Query → Question → GoString → List Stage
own_answers lib s r q qname =
    answer_any r q qname
    ∷ answer_local lib s r q qname
    ∷ answer_proxy lib r q qname
    ∷ answer_host lib r q qname
    ∷ answer_ptr lib r q qname
    ∷ []

-- What `serve` decides before it asks: the engine and the upstreams of the client, whether the
-- whitelist holds the name, and a cached answer past its time.
pub record Plan : Type 0 where
  pub engine : Engine
  pub upstreams : List Upstream
  pub whitelisted : Bool
  pub old : Option Hit

unfoldable pub or_else : List Upstream → List Upstream → List Upstream
or_else [] us = us
or_else (u ∷ us) _ = u ∷ us

-- 2: the policy of the client, with the router after the call.
unfoldable pub client_policy :
    ServeLib → Settings → Query → Handler → Handler × (Engine × List Upstream)
client_policy lib s r h = elim h.client_router [
  | none ↦ (h, (s.engine, s.upstreams))
  | some cr ↦ (
    record h { client_router = some (resolve lib.net r.client cr).0 },
    elim (resolve lib.net r.client cr).1 [
      | none ↦ (s.engine, s.upstreams)
      | some policy ↦ (lib.policy_engine policy, or_else (lib.policy_upstreams policy) s.upstreams)
    ],
  )
]

-- 2.5: the route of the name.
unfoldable pub route_upstreams : Settings → GoString → List Upstream → List Upstream
route_upstreams s qname us = elim (route_match s.routes qname) [
  | none ↦ us
  | some rt ↦ or_else rt.upstreams us
]

-- 3: a name that the filter blocks.
unfoldable pub block_name : Query → Question → GoString → GoString → Stage
block_name r q qname reason h =
    (log_entry r q qname (ascii "blocked") reason [] (count_blocked h), some (block_page reason))

unfoldable pub note_missing : ServeLib → Query → Hit → ℕ → Handler → Handler
note_missing lib r hit now h = elim h.nx_guard [
  | none ↦ h
  | some g ↦
      if hit.is_negative && hit.rcode == rcode_name_error
      then record h { nx_guard = some (note_nx g (client_prefix lib r.client) now) }
      else h
]

-- 4: a fresh answer of the cache.
unfoldable pub serve_hit : ServeLib → Query → Question → GoString → Hit → ℕ → Stage
serve_hit lib r q qname hit now h = (
  log_entry r q qname (ascii "cached")
      (if hit.is_negative then ascii "cache-negative" else ascii "cache") []
      (note_missing lib r hit now (count_cached h)),
  some (cached hit),
)

-- The answer that the cache has, where it is asked.
unfoldable pub lookup_hit : ServeLib → Settings → Question → Option Hit
lookup_hit lib s q = if s.has_cache && not (is_meta_query q) then lib.cache_lookup q else none

-- An answer, or the plan by which an upstream is asked.
abbrev pub Next : Type 0
Next = Response ⊎ Plan

unfoldable pub after_filter :
    ServeLib
    → Settings
    → Query
    → Question
    → GoString
    → ℕ
    → Engine
    → List Upstream
    → Bool
    → Handler
    → Handler × Next
after_filter lib s r q qname now engine us listed h = elim (lookup_hit lib s q) [
  | none ↦ (h, inr (record { engine = engine; upstreams = us; whitelisted = listed; old = none }))
  | some hit ↦
      if hit.is_stale
      then (
        h,
        inr (record { engine = engine; upstreams = us; whitelisted = listed; old = some hit }),
      )
      else ((serve_hit lib r q qname hit now h).0, inl (cached hit))
]

-- 2 to 4: the policy, the filter and the cache.
unfoldable pub filter_and_cache :
    ServeLib → Settings → Query → Question → GoString → ℕ → Handler → Handler × Next
filter_and_cache lib s r q qname now h =
    let (h', (engine, us)) = client_policy lib s r h in
    let d = decide_domain lib.filter engine.rs q.name in
    elim d.action [
      | block ↦ ((block_name r q qname d.reason h').0, inl (block_page d.reason))
      | allow ↦
          after_filter lib s r q qname now engine (route_upstreams s qname us)
            (has_prefix d.reason (ascii "whitelist")) h'
    ]

abbrev pub continue : Handler × Option Response → (Handler → Handler × Next) → Handler × Next
continue (h, some x) next = (h, inl x)
continue (h, none) next = next h

-- `serve` on a query with a question, up to the point where an upstream is asked.
unfoldable pub answer : ServeLib → Settings → Query → Question → ℕ → Handler → Handler × Next
answer lib s r q now h =
    let qname = canonical_domain lib.prefix.unicode q.name in
    continue (chain (guards lib s r q now ++ own_answers lib s r q qname) h)
      (filter_and_cache lib s r q qname now)

unfoldable pub count_query : Handler → Handler
count_query h = record h { stats = record h.stats { total = h.stats.total + 1 } }

-- A query without a question is a format error.
unfoldable pub serve_question :
    ServeLib → Settings → Query → ℕ → Option Question → Handler → Handler × Next
serve_question lib s r now none h = (h, inl (error rcode_format_error))
serve_question lib s r now (some q) h = answer lib s r q now h

-- `serve`, up to the point where an upstream is asked.
unfoldable pub serve : ServeLib → Settings → Query → ℕ → Handler → Handler × Next
serve lib s r now h = serve_question lib s r now r.question (count_query h)
