-- ===== src/Serve/Finish.antt =====
-- internal/dnsserver/handler.go: what `serve` does with the answer of an upstream.
use irongrid_dns.Prelude.{
  ℕ, Bool, true, false, not, ◌&&◌, ◌==◌, List, [], ◌∷◌, ◌++◌, Option, none, some, if◌then◌else◌,
}
use irongrid_dns.Bytes.{GoString, ascii, str_eq}
use irongrid_dns.NxGuard.{note_nx}
use irongrid_dns.Filter.State.{Engine}
use irongrid_dns.Filter.Decide.{block, allow, decide_domain, check_ips}
use irongrid_dns.Forward.Upstreams.{Upstream}
use irongrid_dns.Serve.State.{
  Question, Query, Hit, Reply, Response, Settings, Handler, ServeLib, Stage, chain, silent, error,
  explained, block_page, stale, passed_on, count_error, count_allowed, count_blocked, count_cached,
  log_entry,
}
use irongrid_dns.Serve.Guards.{client_prefix, rcode_server_failure, rcode_name_error}
use irongrid_dns.Serve.Answers.{Plan, is_meta_query}

-- What the resolution gives: an error, or a response with its upstream.
pub data Resolved : Type 0 where
  failed : GoString → GoString → Resolved
  resolved : Reply → GoString → Resolved

-- The outcome of `Validate`: an error, or whether the answer is signed and secure.
pub data Validity : Type 0 where
  incomplete : Validity
  unsigned : Validity
  insecure : Validity
  secure : Validity

-- A call of `finishResolve`, where a cached message can be decoded: `skip_write` stands for an
-- answer that has been given already, and `has_slot` for a free place among the writers of the
-- cache.
pub record Finish : Type 0 where
  pub settings : Settings
  pub query : Query
  pub question : Question
  pub qname : GoString
  pub plan : Plan
  pub validator : Option (Upstream → Reply → Validity)
  pub skip_write : Bool
  pub has_slot : Bool
  pub now : ℕ

unfoldable pub note_missing_reply : ServeLib → Finish → Reply → Handler → Handler
note_missing_reply lib f m h = elim h.nx_guard [
  | none ↦ h
  | some g ↦
      if m.rcode == rcode_name_error
      then record h { nx_guard = some (note_nx g (client_prefix lib f.query.client) f.now) }
      else h
]

-- An answer from the cache past its time.
unfoldable pub serve_stale : Finish → GoString → Hit → Stage
serve_stale f up hit h = (
  log_entry f.query f.question f.qname (ascii "cached") (ascii "stale") up (count_cached h),
  some (stale hit),
)

-- The write of a message into the cache; it is left out where no place is free.
unfoldable pub write_cache : Finish → ℕ → Handler → Handler
write_cache f rcode h =
    if f.settings.has_cache && not (is_meta_query f.question) && f.has_slot
    then record h { cache_writes = (f.question, rcode) ∷ h.cache_writes }
    else h

unfoldable pub has_edns : Query → Bool
has_edns r = elim r.edns [ none ↦ false | some _ ↦ true ]

-- A resolution that failed.
unfoldable pub serve_failure : Finish → GoString → GoString → Stage
serve_failure f err up h = elim f.plan.old [
  | some hit ↦ serve_stale f up hit h
  | none ↦ (
    write_cache f rcode_server_failure
        (log_entry f.query f.question f.qname (ascii "error") err up (count_error h)),
    some (
        if has_edns f.query
        then explained rcode_server_failure err
        else error rcode_server_failure),
  )
]

-- An answer that the checks of DNSSEC refuse.
unfoldable pub reject : Finish → GoString → GoString → Stage
reject f reason up h = (
  log_entry f.query f.question f.qname (ascii "error") reason up (count_error h),
  some (error rcode_server_failure),
)

-- 6b: the bit of the upstream.
unfoldable pub check_ad : Finish → GoString → Bool → Stage
check_ad f up ad h =
    if f.settings.dnssec_require_ad && not ad
    then reject f (ascii "dnssec: upstream did not authenticate the answer") up h
    else (h, none)

unfoldable pub judge_validity : Finish → GoString → Reply → Validity → Stage
judge_validity f up m incomplete h = check_ad f up m.is_authenticated h
judge_validity f up m unsigned h = check_ad f up m.is_authenticated h
judge_validity f up m insecure h =
    reject f (ascii "dnssec: local chain-of-trust validation failed") up h
judge_validity f up m secure h = check_ad f up true h

-- `upstreamByName`
unfoldable pub upstream_by_name : List Upstream → GoString → Option Upstream
upstream_by_name [] name = none
upstream_by_name (u ∷ us) name = if str_eq u.name name then some u else upstream_by_name us name

-- 6a: the validation, by the upstream of that name among the global ones.
unfoldable pub check_locally : Finish → GoString → Reply → Stage
check_locally f up m h = elim f.validator [
  | none ↦ check_ad f up m.is_authenticated h
  | some validate ↦ elim (upstream_by_name f.settings.upstreams up) [
    | none ↦ check_ad f up m.is_authenticated h
    | some u ↦ judge_validity f up m (validate u m) h
  ]
]

-- 6: DNSSEC.
unfoldable pub check_dnssec : Finish → GoString → Reply → Stage
check_dnssec f up m h =
    if not f.settings.dnssec_enabled
    then (h, none)
    else if f.settings.dnssec_validate_locally
    then check_locally f up m h
    else check_ad f up m.is_authenticated h

unfoldable pub block_answer : Finish → GoString → GoString → Stage
block_answer f reason up h = (
  log_entry f.query f.question f.qname (ascii "blocked") reason up (count_blocked h),
  some (block_page reason),
)

-- 7: the addresses of the answer.
unfoldable pub check_addresses : Finish → GoString → Reply → Stage
check_addresses f up m h =
    if f.plan.engine.has_ip_rules && not f.plan.whitelisted
    then elim (check_ips f.plan.engine.rs m.ips) [
      | none ↦ (h, none)
      | some reason ↦ block_answer f reason up h
    ]
    else (h, none)

-- `cnameCloakCheck`: the first alias whose target is blocked, with the reason.
unfoldable pub cname_cloak_check : ServeLib → Engine → List (GoString × GoString) → Option GoString
cname_cloak_check lib engine [] = none
cname_cloak_check lib engine ((owner, target) ∷ cs) =
    elim (decide_domain lib.filter engine.rs target).action [
      | block ↦ some (
          ascii "cname-cloaking:"
          ++ owner
          ++ ascii "->"
          ++ target
          ++ ascii ":"
          ++ (decide_domain lib.filter engine.rs target).reason)
      | allow ↦ cname_cloak_check lib engine cs
    ]

-- 7.5: the aliases of the answer.
unfoldable pub check_cnames : ServeLib → Finish → GoString → Reply → Stage
check_cnames lib f up m h =
    if f.settings.cname_cloaking_protection && not f.plan.whitelisted
    then elim (cname_cloak_check lib f.plan.engine m.cnames) [
      | none ↦ (h, none)
      | some reason ↦ block_answer f reason up h
    ]
    else (h, none)

-- 8: the answer is passed on and cached.
unfoldable pub pass_on : Finish → GoString → Reply → Stage
pass_on f up m h = (
  write_cache f m.rcode
      (log_entry f.query f.question f.qname (ascii "allowed") [] up (count_allowed h)),
  some (passed_on m),
)

unfoldable pub check_answer : ServeLib → Finish → GoString → Reply → Stage
check_answer lib f up m =
    chain
      (check_dnssec f up m ∷ check_addresses f up m ∷ check_cnames lib f up m ∷ pass_on f up m ∷ [])

-- An answer: a SERVFAIL gives way to what the cache has past its time.
unfoldable pub serve_reply : ServeLib → Finish → GoString → Reply → Stage
serve_reply lib f up m h = elim f.plan.old [
  | none ↦ check_answer lib f up m h
  | some hit ↦
      if m.rcode == rcode_server_failure then serve_stale f up hit h else check_answer lib f up m h
]

unfoldable pub finish_with : ServeLib → Finish → Resolved → Stage
finish_with lib f (failed err up) h = serve_failure f err up h
finish_with lib f (resolved m up) h = serve_reply lib f up m (note_missing_reply lib f m h)

unfoldable pub written : Finish → Option Response → Response
written f none = silent
written f (some x) = if f.skip_write then silent else x

-- `finishResolve`
unfoldable pub finish_resolve : ServeLib → Finish → Resolved → Handler → Handler × Response
finish_resolve lib f outcome h = let (h', x) = finish_with lib f outcome h in (h', written f x)
