-- ===== src/Filter/Engine.antt =====
-- internal/filter/engine.go: the operations that change the engine.
use irongrid_dns.Prelude.{
  ◌+◌, Bool, false, ◌||◌, List, [], ◌∷◌, ◌++◌, Option, none, some, ltb, if◌then◌else◌, length,
}
use irongrid_dns.Bytes.{GoString, is_empty}
use irongrid_dns.Shards.Table.{insert, delete}
use irongrid_dns.Filter.Rules.{Env, RegexRule, Rule, split_rule, parse_regex_rule}
use irongrid_dns.Filter.Parse.{add_name, ParseResult, Target, parse_content}
pub use irongrid_dns.Filter.State.{RuleSet, empty_rule_set, Engine}
unfoldable pub use irongrid_dns.Filter.State.{new_engine, reset}

-- The snapshot that `publishLocked` stores.
unfoldable pub snapshot : Engine → RuleSet
snapshot e = record {
  block_domains = e.block_domains;
  block_exact = e.block_exact;
  block_ips = e.block_ips;
  allow_domains = e.allow_domains;
  allow_exact = e.allow_exact;
  allow_ips = e.allow_ips;
  block_regex = e.block_regex;
  allow_regex = e.allow_regex;
  domain_list = e.domain_list;
  list_names = e.list_names;
  user_block_exact = e.user_block_exact;
  user_block_domains = e.user_block_domains;
  total_blocked_domains = e.total_blocked_domains;
  total_ip_rules = e.total_ip_rules;
  user_whitelist_len = length e.user_whitelist;
  user_blacklist_len = length e.user_blacklist;
}

unfoldable pub publish_locked : Engine → Engine
publish_locked e = record e { rs = snapshot e }

-- `syncIPFlag`
unfoldable pub sync_ip_flag : Engine → Engine
sync_ip_flag e = record e {
  has_ip_rules = ltb 0 (length e.block_ips) || ltb 0 (length e.allow_ips);
}

-- `parseUserRegexes`
unfoldable pub parse_user_regexes : Env → List GoString → List RegexRule
parse_user_regexes env [] = []
parse_user_regexes env (s ∷ ss) = elim (parse_regex_rule env s []) [
  | none ↦ parse_user_regexes env ss
  | some rr ↦ rr ∷ parse_user_regexes env ss
]

-- What `normalizeList` keeps of an entry that is not a regular expression.
unfoldable pub normal_entry : Option Rule → List GoString
normal_entry none = []
normal_entry (some r) =
    if r.is_exception then [] else (if r.exact_only then 61 ∷ r.domain else r.domain) ∷ []

-- `normalizeList`
unfoldable pub normalize_list : Env → List GoString → List GoString
normalize_list env [] = []
normalize_list env (s ∷ ss) = elim (parse_regex_rule env s []) [
  | some _ ↦ s ∷ normalize_list env ss
  | none ↦ normal_entry (split_rule env s) ++ normalize_list env ss
]

-- `SetUserLists`
unfoldable pub set_user_lists : Env → List GoString → List GoString → Engine → Engine
set_user_lists env blacklist whitelist e = record e {
  user_blacklist = normalize_list env blacklist;
  user_whitelist = normalize_list env whitelist;
  user_block_regex = parse_user_regexes env blacklist;
  user_allow_regex = parse_user_regexes env whitelist;
}

-- The sets that `LoadList` hands to `parseContent`.
unfoldable pub target : Engine → Target
target e = record {
  block = e.block_domains;
  block_exact = e.block_exact;
  block_ips = e.block_ips;
  allow = e.allow_domains;
  allow_exact = e.allow_exact;
  list_of = e.domain_list;
  block_regex = e.list_block_regex;
  allow_regex = e.list_allow_regex;
  res = record { domains = 0; exact_domains = 0; ips = 0; exceptions = 0; regexes = 0 };
}

-- The engine after `parseContent` has written to its sets, with the totals.
unfoldable pub absorb : Target → Engine → Engine
absorb t e = record e {
  block_domains = t.block;
  block_exact = t.block_exact;
  block_ips = t.block_ips;
  allow_domains = t.allow;
  allow_exact = t.allow_exact;
  domain_list = t.list_of;
  list_block_regex = t.block_regex;
  list_allow_regex = t.allow_regex;
  total_blocked_domains =
      e.total_blocked_domains + (t.res.domains + t.res.exact_domains + t.res.regexes);
  total_ip_rules = e.total_ip_rules + t.res.ips;
}

-- `LoadList`, with `none` for the error `list id required`.
unfoldable pub load_list :
    Env → GoString → GoString → GoString → Engine → Engine × Option ParseResult
load_list env id name content e =
    if is_empty id
    then (e, none)
    else let e = record e { list_names = insert id name e.list_names } in
      let t = parse_content env content id (target e) in (sync_ip_flag (absorb t e), some t.res)

-- The domain and `exactOnly` of `splitRule` where the caller does not look at `ok`.
unfoldable pub domain_of : Option Rule → GoString
domain_of none = []
domain_of (some r) = r.domain

unfoldable pub exact_of : Option Rule → Bool
exact_of none = false
exact_of (some r) = r.exact_only

-- One turn of the loop over the user's whitelist in `Compile`.
unfoldable pub whitelist_entry : Option Rule → Engine → Engine
whitelist_entry r e =
    if exact_of r
    then record e {
      allow_exact = add_name (domain_of r) e.allow_exact;
      block_exact = delete (domain_of r) e.block_exact;
    }
    else record e {
      allow_domains = add_name (domain_of r) e.allow_domains;
      block_domains = delete (domain_of r) e.block_domains;
      block_exact = delete (domain_of r) e.block_exact;
    }

unfoldable pub whitelist_entries : Env → List GoString → Engine → Engine
whitelist_entries env [] e = e
whitelist_entries env (d ∷ ds) e = whitelist_entries env ds (whitelist_entry (split_rule env d) e)

-- One turn of the loop over the user's blacklist.
unfoldable pub blacklist_entry : Option Rule → Engine → Engine
blacklist_entry r e =
    if exact_of r
    then record e { user_block_exact = add_name (domain_of r) e.user_block_exact }
    else record e { user_block_domains = add_name (domain_of r) e.user_block_domains }

unfoldable pub blacklist_entries : Env → List GoString → Engine → Engine
blacklist_entries env [] e = e
blacklist_entries env (d ∷ ds) e = blacklist_entries env ds (blacklist_entry (split_rule env d) e)

-- `Compile`, up to the first loop.
unfoldable pub merge_regexes : Engine → Engine
merge_regexes e = record e {
  block_regex = e.list_block_regex ++ e.user_block_regex;
  allow_regex = e.list_allow_regex ++ e.user_allow_regex;
}

-- The user's blacklist, built afresh.
unfoldable pub rebuild_blacklist : Env → Engine → Engine
rebuild_blacklist env e =
    blacklist_entries env e.user_blacklist
      (record e { user_block_exact = []; user_block_domains = [] })

-- `Compile`
unfoldable pub compile : Env → Engine → Engine
compile env e =
    let e = merge_regexes e in
    let e = whitelist_entries env e.user_whitelist e in
    publish_locked (sync_ip_flag (rebuild_blacklist env e))

-- `AddIPBlock`
unfoldable pub add_ip_block : Env → GoString → Engine → Engine
add_ip_block env ip e = elim (env.parse_ip ip) [
  | none ↦ e
  | some s ↦ publish_locked (sync_ip_flag (record e { block_ips = add_name s e.block_ips }))
]

-- `RemoveIPBlock`
unfoldable pub remove_ip_block : Env → GoString → Engine → Engine
remove_ip_block env ip e = elim (env.parse_ip ip) [
  | none ↦ e
  | some s ↦ publish_locked (sync_ip_flag (record e { block_ips = delete s e.block_ips }))
]
