-- ===== src/Filter/State.antt =====
-- internal/filter/engine.go: the state of the engine.
use irongrid_dns.Prelude.{ℕ, Bool, false, List, []}
use irongrid_dns.Bytes.{GoString}
use irongrid_dns.Shards.Table.{Table}
use irongrid_dns.Filter.Rules.{RegexRule}
use irongrid_dns.Filter.Parse.{NameSet}

-- `ruleSet`
pub record RuleSet : Type 0 where
  pub block_domains : NameSet
  pub block_exact : NameSet
  pub block_ips : NameSet
  pub allow_domains : NameSet
  pub allow_exact : NameSet
  pub allow_ips : NameSet
  pub block_regex : List RegexRule
  pub allow_regex : List RegexRule
  pub domain_list : Table GoString
  pub list_names : Table GoString
  pub user_block_exact : NameSet
  pub user_block_domains : NameSet
  pub total_blocked_domains : ℕ
  pub total_ip_rules : ℕ
  pub user_whitelist_len : ℕ
  pub user_blacklist_len : ℕ

abbrev pub empty_rule_set : RuleSet
empty_rule_set = record {
  block_domains = [];
  block_exact = [];
  block_ips = [];
  allow_domains = [];
  allow_exact = [];
  allow_ips = [];
  block_regex = [];
  allow_regex = [];
  domain_list = [];
  list_names = [];
  user_block_exact = [];
  user_block_domains = [];
  total_blocked_domains = 0;
  total_ip_rules = 0;
  user_whitelist_len = 0;
  user_blacklist_len = 0;
}

-- `Engine`, with the published snapshot `rs`.
pub record Engine : Type 0 where
  pub block_domains : NameSet
  pub block_exact : NameSet
  pub block_ips : NameSet
  pub allow_domains : NameSet
  pub allow_exact : NameSet
  pub allow_ips : NameSet
  pub block_regex : List RegexRule
  pub allow_regex : List RegexRule
  pub list_block_regex : List RegexRule
  pub list_allow_regex : List RegexRule
  pub user_block_regex : List RegexRule
  pub user_allow_regex : List RegexRule
  pub domain_list : Table GoString
  pub list_names : Table GoString
  pub user_blacklist : List GoString
  pub user_whitelist : List GoString
  pub user_block_exact : NameSet
  pub user_block_domains : NameSet
  pub total_blocked_domains : ℕ
  pub total_ip_rules : ℕ
  pub has_ip_rules : Bool
  pub rs : RuleSet

-- `NewEngine`
unfoldable pub new_engine : Engine
new_engine = record {
  block_domains = [];
  block_exact = [];
  block_ips = [];
  allow_domains = [];
  allow_exact = [];
  allow_ips = [];
  block_regex = [];
  allow_regex = [];
  list_block_regex = [];
  list_allow_regex = [];
  user_block_regex = [];
  user_allow_regex = [];
  domain_list = [];
  list_names = [];
  user_blacklist = [];
  user_whitelist = [];
  user_block_exact = [];
  user_block_domains = [];
  total_blocked_domains = 0;
  total_ip_rules = 0;
  has_ip_rules = false;
  rs = empty_rule_set;
}

-- `Reset`: the user's entries stay as they are.
unfoldable pub reset : Engine → Engine
reset e = record e {
  block_domains = [];
  block_exact = [];
  block_ips = [];
  allow_domains = [];
  allow_exact = [];
  allow_ips = [];
  block_regex = [];
  allow_regex = [];
  list_block_regex = [];
  list_allow_regex = [];
  user_block_regex = [];
  user_allow_regex = [];
  domain_list = [];
  list_names = [];
  user_block_exact = [];
  user_block_domains = [];
  total_blocked_domains = 0;
  total_ip_rules = 0;
  has_ip_rules = false;
  rs = empty_rule_set;
}
