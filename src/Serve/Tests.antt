-- ===== src/Serve/Tests.antt =====
-- Tests and worked examples of the path of a query (internal/dnsserver/handler.go).
use irongrid_dns.Prelude.{◌≡◌, ◌+◌, refl, true, false, not, inl, List, [], ◌∷◌, none, some, leb}
use irongrid_dns.Prelude.Int.{pos}
use irongrid_dns.Bytes.{ascii, str_eq, is_empty}
use irongrid_dns.Text.{
  Unicode, to_lower, is_ascii, trim_suffix, trim_space, trim_end, trim_start, is_space, lower,
  cut_prefix, has_prefix, last_index,
}
use irongrid_dns.Shards.Table.{lookup, insert}
use irongrid_dns.Filter.Decide.{has_name, find_parent, last_dot}
use irongrid_dns.Clients.Acl.{allowed, allowed_in, any_contains}
use irongrid_dns.Geoip.Nets.{table_of_nets, table_contains, ranges_of, range_of}
use irongrid_dns.Geoip.Ranges.{contains4, sort_merge4}
use irongrid_dns.Geoip.Blocker.{sort_merge}
use irongrid_dns.Banner.{
  host_ip_net, Banner, BlockSource, new_banner, blocked_as, in_asns, is_allowed, lookup_honeypot,
  set_asns, prune_auto, prune_each, rebuild_table, load_auto, trap_each, canonical_domain,
  allow_each, add_each,
}
use irongrid_dns.Banner.Invariant.{Call, call_all, call}
use irongrid_dns.Filter.State.{new_engine}
use irongrid_dns.Serve.State.{
  chain, Proto, Question, Query, Hit, Reply, Response, Settings, Handler, ServeLib, count_error,
}
use irongrid_dns.Serve.Guards.{
  check_acl, refuse_unless, refuse, is_udp, is_trusted, rcode_server_failure, check_honeypot,
}
use irongrid_dns.Serve.Answers.{serve_question, answer, count_query, serve}
use irongrid_dns.Serve.Finish.{
  written, serve_failure, has_edns, serve_reply, serve_stale, check_answer, check_dnssec, check_ad,
  reject, Finish, Resolved, finish_with, finish_resolve,
}
use irongrid_dns.Serve.Steps.{Step, run, idle}
use irongrid_dns.Serve.Counted.{counted, run-counted}
use irongrid_dns.Serve.Spoofed.{all_spoofable, is_spoofable, run-ip_banner}
use irongrid_dns.Serve.Banned.{is_refused, serve-is_refused}
use irongrid_dns.Serve.Trapped.{check_honeypot-is_refused}
use irongrid_dns.Serve.Answered.{is_written, finish_resolve-is_written}
use irongrid_dns.Serve.Cached.{due_writes, finish_with-cache_writes}
use irongrid_dns.Serve.Early.{serve-short_cookie}

abbrev narrow : Unicode
narrow = record { trim_wide = λ s. s; fields_wide = λ s. s ∷ []; lower_wide = λ s. s }

-- Every text is an address, whose IPv4 form for the banner is 7, a network is the text of its one
-- address, and nothing is cached.
abbrev plain : ServeLib
plain = record {
  net = record {
    parse_ip = λ s. some s;
    is_ip4 = λ _. true;
    parse_cidr = λ s. some (λ ip. str_eq s ip);
    host_net = λ s ip. str_eq s ip;
  };
  geo = record {
    unicode = narrow;
    upper_wide = λ s. s;
    parse_ip = λ s. some s;
    host_net = λ s ip. str_eq s ip;
    parse_cidr = λ _. none;
    to4 = λ _. none;
    to16 = λ _. 0;
  };
  prefix = record {
    unicode = narrow;
    parse_ip = λ s. some s;
    to4 = λ _. some 7;
    to16 = λ _. 0;
    host_net = λ s ip. str_eq s ip;
    parse_prefix = λ _. none;
  };
  filter = record {
    unicode = narrow;
    to_ascii = λ _. none;
    compile_regexp = λ _. none;
    parse_ip = λ s. some s;
  };
  to4 = λ s. some s;
  hmac = λ s. s;
  mask = λ s. s;
  lookup_host = λ _. [];
  lookup_ptr = λ _. none;
  proxy = λ _. none;
  ip_text = λ _. [];
  policy_engine = λ _. new_engine;
  policy_upstreams = λ _. [];
  cache_lookup = λ _. none;
}

-- Only the client `7` may ask.
abbrev settings : Settings
settings = record {
  acl = some (record { nets = (λ ip. str_eq (ascii "7") ip) ∷ [] });
  geo = none;
  rewriter = none;
  routes = [];
  upstreams = [];
  engine = new_engine;
  trust_udp = false;
  cookies_on = true;
  honeypot_udp_block = pos 60;
  repeat_query_block_for = pos 60;
  repeat_query_udp_block_for = pos 0;
  has_cache = true;
  dnssec_enabled = true;
  dnssec_require_ad = true;
  dnssec_validate_locally = false;
  cname_cloaking_protection = true;
}

abbrev trap_question : Question
trap_question = record { name = ascii "trap."; qtype = 1 }

abbrev trap_query : Query
trap_query = record {
  question = some trap_question;
  edns = some 0;
  cookie = [];
  client = ascii "7";
  proto = Proto.tcp;
}

abbrev forged_query : Query
forged_query = record trap_query { proto = Proto.udp }

abbrev trap_banner : Banner
trap_banner =
    call_all plain.prefix (Call.set_lists none none ∷ [])
      (new_banner plain.prefix (ascii "") [] [] [] (ascii "trap" ∷ []))

abbrev handler : Handler
handler = record {
  stats = record { total = 0; errors = 0; allowed = 0; blocked = 0; cached = 0; honeypot = 0 };
  rate_limiter = none;
  nx_guard = none;
  repeat_guard = none;
  ip_banner = some trap_banner;
  client_router = none;
  log = [];
  cache_writes = [];
}

abbrev old_hit : Hit
old_hit = record { raw = ascii "old"; rcode = 0; is_negative = false; is_stale = true }

abbrev finish : Finish
finish = record {
  settings = settings;
  query = trap_query;
  question = trap_question;
  qname = ascii "trap";
  plan = record { engine = new_engine; upstreams = []; whitelisted = false; old = some old_hit };
  validator = none;
  skip_write = false;
  has_slot = true;
  now = 3;
}

abbrev forged_steps : List Step
forged_steps =
    Step.asks settings forged_query 1
    ∷ Step.waits finish
    ∷ Step.ends finish (Resolved.failed (ascii "timeout") [])
    ∷ []

run-counted_example :
    leb
      (counted (run plain forged_steps (idle handler)).handler.stats
        + (run plain forged_steps (idle handler)).pending)
      ((run plain forged_steps (idle handler)).handler.stats.total
        + (run plain forged_steps (idle handler)).raced)
    ≡ true
unfolding counted
run-counted_example = run-counted plain forged_steps handler refl

run-ip_banner_example :
    (run plain forged_steps (idle handler)).handler.ip_banner ≡ (idle handler).handler.ip_banner
unfolding all_spoofable is_spoofable is_udp
run-ip_banner_example = run-ip_banner plain forged_steps (idle handler) refl

-- The network of the client `7` is banned.
abbrev banning : Banner
banning = record {
  table = table_of_nets (host_ip_net plain.prefix (ascii "7") ∷ []);
  raw = (ascii "7", tt) ∷ [];
  auto = [];
  honeypots = [];
  path = [];
  allow = [];
  asn_allow = none;
  asn_block = none;
  file = [];
}

serve-is_refused_example :
    is_refused (serve plain settings forged_query 4 (record handler { ip_banner = some banning })).1
    ≡ true
unfolding is_empty blocked_as in_asns any_contains str_eq table_contains contains4 table_of_nets
    sort_merge sort_merge4 ranges_of host_ip_net range_of
serve-is_refused_example =
    serve-is_refused plain settings forged_query 4 banning BlockSource.by_ip
      (record handler { ip_banner = some banning }) refl refl refl

check_honeypot-is_refused_example :
    is_refused
      (serve plain settings forged_query 9
        (run plain forged_steps
          (idle (check_honeypot plain settings trap_query (ascii "trap") 0 handler).0)).handler).1
    ≡ true
unfolding all_spoofable is_spoofable is_udp is_empty lookup_honeypot has_name lookup call_all call
    set_asns prune_auto prune_each new_banner rebuild_table load_auto trap_each canonical_domain
    to_lower is_ascii trim_suffix trim_space trim_end trim_start is_space lower cut_prefix
    has_prefix is_allowed in_asns any_contains find_parent last_dot last_index str_eq is_trusted
    allow_each insert add_each
check_honeypot-is_refused_example =
    check_honeypot-is_refused plain settings settings trap_query forged_query (ascii "trap") 0 9
      handler (ascii "") [] [] [] (ascii "trap" ∷ []) (Call.set_lists none none ∷ []) forged_steps
      refl refl refl refl (refl, refl, refl) refl refl refl

abbrev good_reply : Reply
good_reply = record {
  rcode = 0;
  ips = ascii "5" ∷ [];
  cnames = [];
  answers = 1;
  is_authenticated = true;
}

finish_resolve-is_written_example :
    is_written (finish_resolve plain finish (Resolved.resolved good_reply []) handler).1
    ≡ not finish.skip_write
finish_resolve-is_written_example =
    finish_resolve-is_written plain finish (Resolved.resolved good_reply []) handler

finish_with-cache_writes_example :
    (finish_with plain finish (Resolved.resolved good_reply []) handler).0.cache_writes
    ≡ due_writes finish (finish_with plain finish (Resolved.resolved good_reply []) handler).1 []
finish_with-cache_writes_example = finish_with-cache_writes plain finish good_reply [] handler

-- A cookie of 10 bytes.
abbrev short_cookie : Query
short_cookie = record trap_query { cookie = ascii "00112233445566778899" }

serve-short_cookie_example :
    serve plain settings short_cookie 1 handler
    ≡ (count_error (count_query handler), inl (Response.error rcode_server_failure))
unfolding is_empty allowed allowed_in any_contains str_eq
serve-short_cookie_example =
    serve-short_cookie plain settings short_cookie trap_question 1 handler refl refl refl refl refl
      refl refl

-- Over UDP a client that the access list does not name gets nothing.
stranger_ignored :
    (serve plain settings (record forged_query { client = ascii "8" }) 1 handler).1
    ≡ inl Response.silent
unfolding serve serve_question answer chain check_acl refuse_unless is_empty allowed allowed_in
    any_contains str_eq refuse is_udp
stranger_ignored = refl

-- Where no cached answer is at hand, a failed resolution is a SERVFAIL with its reason.
failure_explained :
    (finish_resolve plain
      (record finish { plan = record finish.plan { old = none } })
      (Resolved.failed (ascii "timeout") [])
      handler).1
    ≡ Response.explained rcode_server_failure (ascii "timeout")
unfolding finish_resolve written finish_with serve_failure has_edns
failure_explained = refl

-- With an answer past its time at hand, a SERVFAIL of an upstream is not passed on.
stale_preferred :
    (finish_resolve plain finish (Resolved.resolved (record good_reply { rcode = 2 }) []) handler).1
    ≡ Response.stale old_hit
unfolding finish_resolve written finish_with serve_reply serve_stale
stale_preferred = refl

-- An answer that its upstream did not authenticate is refused.
unsigned_refused :
    (finish_resolve plain finish
      (Resolved.resolved (record good_reply { is_authenticated = false }) [])
      handler).1
    ≡ Response.error rcode_server_failure
unfolding finish_resolve written finish_with serve_reply check_answer chain check_dnssec check_ad
    reject
unsigned_refused = refl
