-- ===== src/Filter/Decide.antt =====
-- internal/filter/engine.go: what the published rules decide.
use irongrid_dns.Prelude.{
  ℕ, zero, suc, Bool, true, false, ◌&&◌, List, [], ◌∷◌, ◌++◌, Option, none, some, ◌==◌,
  if◌then◌else◌,
}
use irongrid_dns.Bytes.{GoString, is_empty, ascii}
use irongrid_dns.Text.{last_index}
use irongrid_dns.Shards.Table.{Table, lookup}
use irongrid_dns.Filter.Rules.{Env, RegexRule, normalize_domain}
use irongrid_dns.Filter.Parse.{NameSet}
use irongrid_dns.Filter.Engine.{RuleSet}

-- `Action`
pub data Action : Type 0 where
  allow : Action
  block : Action

-- `Decision`
pub record Decision : Type 0 where
  pub action : Action
  pub reason : GoString
  pub list_name : GoString

-- `_, ok := m[k]`
unfoldable pub has_name : GoString → NameSet → Bool
has_name k m = elim (lookup k m) [ none ↦ false | some _ ↦ true ]

-- A string that is missing from a map of strings is empty.
unfoldable pub string_at : GoString → Table GoString → GoString
string_at k m = elim (lookup k m) [ none ↦ [] | some s ↦ s ]

-- `for i := range lastDot`: the first suffix behind a dot that is in the set.
unfoldable pub find_parent : NameSet → ℕ → GoString → Option GoString
find_parent m zero s = none
find_parent m (suc n) [] = none
find_parent m (suc n) (c ∷ s) = if c == 46 && has_name s m then some s else find_parent m n s

-- The bound of the loops: nothing is walked where there is no dot.
unfoldable pub last_dot : GoString → ℕ
last_dot s = elim (last_index s 46) [ none ↦ 0 | some i ↦ i ]

-- The entry that covers a name: of the exact names, of the domains, or of the domains above it.
unfoldable pub find_cover : NameSet → NameSet → GoString → Option GoString
find_cover exact domains q =
    if has_name q exact
    then some q
    else if has_name q domains
    then some q
    else find_parent domains (last_dot q) q

-- The first regular expression that matches.
unfoldable pub find_regex : List RegexRule → GoString → Option RegexRule
find_regex [] q = none
find_regex (rr ∷ rrs) q = if rr.matches q then some rr else find_regex rrs q

unfoldable pub list_name_of : RuleSet → GoString → GoString
list_name_of rs d = string_at (string_at d rs.domain_list) rs.list_names

abbrev pub allowed : GoString → Decision
allowed reason = record { action = allow; reason = reason; list_name = [] }

-- From the block regexes on.
unfoldable pub decide_regex : RuleSet → GoString → Decision
decide_regex rs q = elim (find_regex rs.block_regex q) [
  | none ↦ allowed []
  | some rr ↦ record {
    action = block;
    reason = ascii "blocklist:regex";
    list_name = string_at rr.list rs.list_names;
  }
]

-- From the block domains on.
unfoldable pub decide_subtree : RuleSet → GoString → Decision
decide_subtree rs q =
    if has_name q rs.block_domains
    then record { action = block; reason = ascii "blocklist:" ++ q; list_name = list_name_of rs q }
    else elim (find_parent rs.block_domains (last_dot q) q) [
      | some parent ↦ record {
        action = block;
        reason = ascii "blocklist:" ++ parent;
        list_name = list_name_of rs parent;
      }
      | none ↦ decide_regex rs q
    ]

-- From the exact block matches on.
unfoldable pub decide_blocklist : RuleSet → GoString → Decision
decide_blocklist rs q =
    if has_name q rs.block_exact
    then record { action = block; reason = ascii "blocklist:exact"; list_name = list_name_of rs q }
    else decide_subtree rs q

-- From the whitelist on.
unfoldable pub decide_whitelist : RuleSet → GoString → Decision
decide_whitelist rs q = elim (find_cover rs.allow_exact rs.allow_domains q) [
  | some d ↦ allowed (ascii "whitelist:" ++ d)
  | none ↦ elim (find_regex rs.allow_regex q) [
    | some _ ↦ allowed (ascii "whitelist:regex")
    | none ↦ decide_blocklist rs q
  ]
]

-- `DecideDomain` on the normalized name.
unfoldable pub decide_name : RuleSet → GoString → Decision
decide_name rs q = elim (find_cover rs.user_block_exact rs.user_block_domains q) [
  | some d ↦ record { action = block; reason = ascii "blacklist:" ++ d; list_name = [] }
  | none ↦ decide_whitelist rs q
]

-- `DecideDomain`
unfoldable pub decide_domain : Env → RuleSet → GoString → Decision
decide_domain env rs qname =
    let q = normalize_domain env qname in if is_empty q then allowed [] else decide_name rs q

-- `CheckIPs`, on the texts of the addresses: the reason, or `none` where nothing is blocked.
unfoldable pub check_ips : RuleSet → List GoString → Option GoString
check_ips rs [] = none
check_ips rs (s ∷ ss) =
    if has_name s rs.allow_ips
    then check_ips rs ss
    else if has_name s rs.block_ips
    then some (ascii "ip-blocklist:" ++ s)
    else check_ips rs ss
