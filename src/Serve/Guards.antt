-- ===== src/Serve/Guards.antt =====
-- internal/dnsserver/handler.go: the guards of `serve`, in their order.
use irongrid_dns.Prelude.{
  ℕ, ◌+◌, ◌*◌, Bool, true, false, not, ◌&&◌, ◌||◌, ◌==◌, List, [], ◌∷◌, ◌++◌, Option, none, some,
  if◌then◌else◌, ltb, length, take,
}
use irongrid_dns.Prelude.Int.{ℤ, pos, negsuc}
use irongrid_dns.Bytes.{GoString, ascii, is_empty, str_eq}
use irongrid_dns.Text.{lower}
use irongrid_dns.RateLimit.{allow as rate_allow, force_block as rate_block}
use irongrid_dns.NxGuard.{allow as nx_allow}
use irongrid_dns.RepeatGuard.{
  RepeatGuard, note_query, allow as repeat_allow, force_block as repeat_block,
}
use irongrid_dns.Clients.Acl.{allowed}
use irongrid_dns.Geoip.Blocker.{geo_asn, geo_country, geo_blocked_as}
use irongrid_dns.Banner.{
  Banner, by_ip, by_asn, blocked_as, block, lookup_honeypot, canonical_domain,
}
use irongrid_dns.Serve.State.{
  Proto, udp, doh3, silent, error, explained, cookie_error, Question, Query, Response, Settings,
  Handler, ServeLib, Stage, chain, count_error, count_blocked, log_entry,
}

abbrev pub rcode_format_error : ℕ
rcode_format_error = 1

abbrev pub rcode_server_failure : ℕ
rcode_server_failure = 2

abbrev pub rcode_name_error : ℕ
rcode_name_error = 3

abbrev pub rcode_refused : ℕ
rcode_refused = 5

abbrev pub rcode_bad_vers : ℕ
rcode_bad_vers = 16

abbrev pub client_cookie_hex_len : ℕ
client_cookie_hex_len = 16

unfoldable pub is_udp : Proto → Bool
is_udp udp = true
is_udp _ = false

-- `proto == "tcp" || proto == "dot" || proto == "doh" || proto == "doq"`
unfoldable pub is_trusted : Proto → Bool
is_trusted udp = false
is_trusted doh3 = false
is_trusted _ = true

-- A refusal: over UDP nothing is written.
unfoldable pub refuse : Query → Response
refuse r = if is_udp r.proto then silent else error rcode_refused

-- A counted refusal, where `ok` does not hold.
unfoldable pub refuse_unless : Query → Bool → Stage
refuse_unless r ok h = if ok then (h, none) else (count_error h, some (refuse r))

-- 0.05: the access list.
unfoldable pub check_acl : ServeLib → Settings → Query → Stage
check_acl lib s r = refuse_unless r (is_empty r.client || allowed lib.net s.acl r.client)

-- 0.2: the version of EDNS.
unfoldable pub check_edns : Query → Stage
check_edns r h = elim r.edns [
  | none ↦ (h, none)
  | some v ↦ if v == 0 then (h, none) else (h, some (error rcode_bad_vers))
]

-- `serverCookie`
unfoldable pub server_cookie : ServeLib → GoString → GoString → GoString
server_cookie lib client client_cookie =
    take client_cookie_hex_len (lib.hmac (client ++ client_cookie))

-- The panic of a slice out of range, as the deferred function answers it.
unfoldable pub recover : Stage
recover h = (count_error h, some (error rcode_server_failure))

-- The comparison of a cookie that is longer than a client's part with the one that is expected.
unfoldable pub compare_cookie : GoString → GoString → Stage
compare_cookie cookie expected h =
    if ltb (length cookie) (2 * client_cookie_hex_len)
    then recover h
    else if str_eq (lower (take (2 * client_cookie_hex_len) cookie)) (lower expected)
    then (h, none)
    else (h, some (cookie_error expected))

-- 0.25: DNS cookies.
unfoldable pub check_cookie : ServeLib → Settings → Query → Stage
check_cookie lib s r h =
    let cc = take client_cookie_hex_len r.cookie in
    if s.cookies_on && not (is_empty r.client) && ltb client_cookie_hex_len (length r.cookie)
    then compare_cookie r.cookie (cc ++ server_cookie lib r.client cc) h
    else (h, none)

-- 0: the rate limiter.
unfoldable pub check_rate : Query → ℕ → Stage
check_rate r now h = elim h.rate_limiter [
  | none ↦ (h, none)
  | some rl ↦
      refuse_unless r (rate_allow rl r.client now).1
        (record h { rate_limiter = some (rate_allow rl r.client now).0 })
]

-- `clientPrefix`
unfoldable pub client_prefix : ServeLib → GoString → GoString
client_prefix lib ip = elim (lib.net.parse_ip ip) [ none ↦ ip | some a ↦ lib.mask a ]

-- 0.1: the guard against floods of missing names.
unfoldable pub check_nx : ServeLib → Query → ℕ → Stage
check_nx lib r now h = elim h.nx_guard [
  | none ↦ (h, none)
  | some g ↦ refuse_unless r (nx_allow g (client_prefix lib r.client) now) h
]

-- 0.15: the guard against repeated queries.
unfoldable pub check_repeat : Query → ℕ → Stage
check_repeat r now h = elim h.repeat_guard [
  | none ↦ (h, none)
  | some g ↦ refuse_unless r (repeat_allow g r.client now) h
]

-- The length of a block for a streak, 0 for none.
unfoldable pub repeat_block_for : Settings → Proto → ℤ
repeat_block_for s p =
    if is_trusted p || s.trust_udp
    then s.repeat_query_block_for
    else at_least_zero s.repeat_query_udp_block_for
  where
    at_least_zero : ℤ → ℤ
    at_least_zero (pos n) = pos n
    at_least_zero (negsuc n) = pos 0

unfoldable pub block_rate : GoString → ℤ → ℕ → Handler → Handler
block_rate client d now h = elim h.rate_limiter [
  | none ↦ h
  | some rl ↦ record h { rate_limiter = some (rate_block rl client d now) }
]

-- The block of a client for a streak; the guards ignore a length that is not positive.
unfoldable pub block_repeat : RepeatGuard → GoString → ℤ → ℕ → Handler → Handler
block_repeat g client d now h =
    block_rate client d now (record h { repeat_guard = some (repeat_block g client d now) })

-- 0.52: the count of repeated queries, which answers nothing.
unfoldable pub note_repeat : Settings → Query → GoString → ℕ → Handler → Handler
note_repeat s r qname now h = elim h.repeat_guard [
  | none ↦ h
  | some g ↦
      if is_empty r.client
      then h
      else let (g', tripped) = note_query g r.client qname now in
        if tripped
        then block_repeat g' r.client (repeat_block_for s r.proto) now h
        else record h { repeat_guard = some g' }
]

-- The reason for which the countries or the providers block a client.
unfoldable pub geo_reason : ServeLib → Settings → GoString → Option GoString
geo_reason lib s client = elim s.geo [
  | none ↦ none
  | some b ↦ elim (geo_blocked_as lib.geo b client) [
    | none ↦ none
    | some src ↦
        some (elim src [ geo_asn ↦ ascii "asn-blocked" | geo_country ↦ ascii "country-blocked" ])
  ]
]

-- The reason for which the banner blocks a client.
unfoldable pub banner_reason : ServeLib → Option Banner → GoString → Option GoString
banner_reason lib banner client = elim banner [
  | none ↦ none
  | some b ↦ elim (blocked_as lib.prefix b client) [
    | none ↦ none
    | some src ↦ some (elim src [ by_asn ↦ ascii "asn-blocked" | by_ip ↦ ascii "blocked-client" ])
  ]
]

-- A blocked client is refused over every protocol, and logged.
unfoldable pub refuse_blocked : Query → Question → GoString → GoString → GoString → Stage
refuse_blocked r q qname action reason h = (
  log_entry r q qname action reason [] (count_blocked h),
  some (elim r.edns [ none ↦ error rcode_refused | some _ ↦ explained rcode_refused reason ]),
)

-- 0.5: clients that are blocked; the banner's reason wins.
unfoldable pub check_client : ServeLib → Settings → Query → Question → GoString → Stage
check_client lib s r q qname h =
    if is_empty r.client then (h, none) else elim (banner_reason lib h.ip_banner r.client) [
      | some reason ↦ refuse_blocked r q qname (ascii "ip-blocked") reason h
      | none ↦ elim (geo_reason lib s r.client) [
        | some reason ↦ refuse_blocked r q qname (ascii "geo-blocked") reason h
        | none ↦ (h, none)
      ]
    ]

-- What a trap does to the client that asked for it.
unfoldable pub punish : ServeLib → Settings → Query → ℕ → Banner → Handler → Handler
punish lib s r now b h =
    if is_empty r.client
    then h
    else if is_trusted r.proto || s.trust_udp
    then record h { ip_banner = some (block lib.prefix r.client b).0 }
    else block_rate r.client s.honeypot_udp_block now h

unfoldable pub count_honeypot : Handler → Handler
count_honeypot h = record h {
  stats = record h.stats { blocked = h.stats.blocked + 1; honeypot = h.stats.honeypot + 1 };
}

-- 0.6: the traps.
unfoldable pub check_honeypot : ServeLib → Settings → Query → GoString → ℕ → Stage
check_honeypot lib s r qname now h = elim h.ip_banner [
  | none ↦ (h, none)
  | some b ↦
      if lookup_honeypot b qname
      then (count_honeypot (punish lib s r now b h), some (refuse r))
      else (h, none)
]

-- The guards that run before the name is looked at.
abbrev pub early_guards : ServeLib → Settings → Query → ℕ → List Stage
early_guards lib s r now =
    check_acl lib s r
    ∷ check_edns r
    ∷ check_cookie lib s r
    ∷ check_rate r now
    ∷ check_nx lib r now
    ∷ check_repeat r now
    ∷ []

-- The guards that look at the name and the client.
unfoldable pub late_guards : ServeLib → Settings → Query → Question → GoString → ℕ → Stage
late_guards lib s r q qname now h =
    chain (check_client lib s r q qname ∷ check_honeypot lib s r qname now ∷ [])
      (note_repeat s r qname now h)

-- All guards, from the name of the question on in its canonical form.
abbrev pub guards : ServeLib → Settings → Query → Question → ℕ → List Stage
guards lib s r q now =
    early_guards lib s r now
    ++ (late_guards lib s r q (canonical_domain lib.prefix.unicode q.name) now ∷ [])
