-- ===== src/Filter/Tests.antt =====
-- Tests and worked examples of the filter (internal/filter).
use irongrid_dns.Prelude.{
  List, ◌≡◌, refl, ◌↔◌, ◌⊎◌, inl, inr, true, false, [], ◌∷◌, none, some, if◌then◌else◌,
}
use irongrid_dns.Prelude.Int.{pos}
use irongrid_dns.Bytes.{ascii, str_eq, is_empty}
use irongrid_dns.Shards.Table.{lookup}
use irongrid_dns.Text.{
  is_ascii, is_space, trim_start, trim_end, trim_space, lower, to_lower, cut_prefix, has_prefix,
  trim_prefix, trim_suffix, has_byte, contains_any, cut_at_any, split, add_to_first,
}
use irongrid_dns.Filter.Rules.{
  Env, Rule, normalize_domain, idna_or_same, has_domain_option, has_domain_part,
  has_domain_modifier, cut_marker, is_domain, strip_rule, finish_rule, split_rule,
}
use irongrid_dns.Filter.Engine.{
  load_list, absorb, sync_ip_flag, reset, Engine, RuleSet, empty_rule_set, new_engine,
  set_user_lists, normalize_list, compile,
}
use irongrid_dns.Filter.Decide.{Action, check_ips, decide_name}
use irongrid_dns.Filter.Verdict.{Blacklisted, Whitelisted, Listed, decide_name-block}
use irongrid_dns.Filter.Runs.{IsEngine}
use irongrid_dns.Filter.History.{Call, call, run, run-new-IsEngine, gate-check_ips}
use irongrid_dns.Filter.Precedence.{compile-no_blacklist}
use irongrid_dns.Filter.Survives.{is_reset, whitelist_survives}
use irongrid_dns.Filter.Lists.{
  ListManager, StoredList, new_list_manager, reload_all, fetch_one, store_fetched,
}
use irongrid_dns.Filter.Reload.{reload_all-regexes}
use irongrid_dns.Filter.Fetch.{Unharmed, fetch_one-Unharmed}

-- A regular expression that matches its own text, and one address.
abbrev plain_env : Env
plain_env = record {
  unicode = record { trim_wide = λ s. s; fields_wide = λ s. s ∷ []; lower_wide = λ s. s };
  to_ascii = λ _. none;
  compile_regexp = λ p. some (λ q. str_eq q p);
  parse_ip = λ s. if str_eq s (ascii "9.9.9.9") then some s else none;
}

abbrev ads_rule : Rule
ads_rule = record { domain = ascii "ads.com"; exact_only = false; is_exception = false }

-- `||Ads.com^`
ads_line : split_rule plain_env (ascii "||Ads.com^") ≡ some ads_rule
unfolding split_rule trim_space is_ascii trim_end trim_start is_space is_empty cut_marker has_prefix
    trim_prefix cut_prefix cut_at_any has_byte has_domain_modifier has_domain_part has_domain_option
    split add_to_first finish_rule strip_rule trim_suffix normalize_domain to_lower lower is_domain
    contains_any idna_or_same
ads_line = refl

-- A rule that is scoped to a page is no rule.
scoped_line : split_rule plain_env (ascii "||ads.com^$domain=a.com") ≡ none
unfolding split_rule trim_space is_ascii trim_end trim_start is_space is_empty cut_marker has_prefix
    trim_prefix cut_prefix cut_at_any has_byte has_domain_modifier has_domain_part has_domain_option
    split add_to_first finish_rule strip_rule trim_suffix normalize_domain to_lower lower is_domain
    contains_any idna_or_same
scoped_line = refl

ads_entry : split_rule plain_env (ascii "ads.com") ≡ some ads_rule
unfolding split_rule trim_space is_ascii trim_end trim_start is_space is_empty cut_marker has_prefix
    trim_prefix cut_prefix cut_at_any has_byte has_domain_modifier has_domain_part has_domain_option
    split add_to_first finish_rule strip_rule trim_suffix normalize_domain to_lower lower is_domain
    contains_any idna_or_same
ads_entry = refl

-- The list blocks `ads.com`.
abbrev ads_rules : RuleSet
ads_rules = record empty_rule_set { block_domains = (ascii "ads.com", tt) ∷ [] }

decide_name-block_example : ((decide_name ads_rules (ascii "x.ads.com")).action ≡ Action.block) ↔ (
    Blacklisted ads_rules (ascii "x.ads.com")
    ⊎ ((¬ Whitelisted ads_rules (ascii "x.ads.com")) × Listed ads_rules (ascii "x.ads.com")))
decide_name-block_example = decide_name-block ads_rules (ascii "x.ads.com")

run-new-IsEngine_example : IsEngine (
    run plain_env
      (Call.load (ascii "l") (ascii "List") (ascii "ads.com") ∷ Call.compile_all ∷ [])
      new_engine)
run-new-IsEngine_example =
    run-new-IsEngine plain_env
      (Call.load (ascii "l") (ascii "List") (ascii "ads.com") ∷ Call.compile_all ∷ [])

gate-check_ips_example :
    check_ips (run plain_env (Call.reset_all ∷ []) new_engine).rs (ascii "9.9.9.9" ∷ []) ≡ none
unfolding run call reset
gate-check_ips_example = gate-check_ips plain_env (Call.reset_all ∷ []) (ascii "9.9.9.9" ∷ []) refl

-- Only the whitelist names `ads.com`, and a list blocks it.
abbrev listed_engine : Engine
listed_engine = record new_engine {
  block_domains = (ascii "ads.com", tt) ∷ [];
  user_whitelist = ascii "ads.com" ∷ [];
}

free_of_blacklist : ¬ Blacklisted (compile plain_env listed_engine).rs (ascii "ads.com")
unfolding new_engine
free_of_blacklist = compile-no_blacklist plain_env listed_engine (ascii "ads.com") refl

-- The user's lists are emptied after they have been compiled, a list that blocks `ads.com` is loaded
-- again, and all is compiled.
abbrev emptying : List Call
emptying =
    Call.user_lists [] []
    ∷ Call.load (ascii "l") (ascii "List") (ascii "ads.com")
    ∷ Call.compile_all
    ∷ []

abbrev emptied : Engine
emptied = run plain_env emptying (compile plain_env listed_engine)

free_when_emptied : ¬ Blacklisted emptied.rs (ascii "ads.com")
unfolding run call load_list set_user_lists normalize_list absorb sync_ip_flag is_empty
free_when_emptied =
    compile-no_blacklist plain_env
      (call plain_env (Call.load (ascii "l") (ascii "List") (ascii "ads.com"))
        (set_user_lists plain_env [] [] (compile plain_env listed_engine)))
      (ascii "ads.com") refl

whitelist_survives_example : (decide_name emptied.rs (ascii "ads.com")).action ≡ Action.allow
unfolding new_engine is_reset
whitelist_survives_example =
    whitelist_survives plain_env ads_rule (ascii "ads.com") listed_engine emptying (ascii "ads.com")
      ads_entry (inl refl) (inl refl) (refl, (refl, (refl, tt))) free_when_emptied

-- The user's blacklist has a regular expression, and no list is configured.
abbrev regex_manager : ListManager
regex_manager = new_list_manager (set_user_lists plain_env (ascii "/ads/" ∷ []) [] new_engine) [] []

reload_all-regexes_example :
    ((reload_all plain_env regex_manager).engine.rs.block_regex
      ≡ (reload_all plain_env regex_manager).engine.list_block_regex)
    × ((reload_all plain_env regex_manager).engine.rs.allow_regex
        ≡ (reload_all plain_env regex_manager).engine.list_allow_regex)
reload_all-regexes_example = reload_all-regexes plain_env regex_manager

-- A list that was fetched once.
abbrev stored_ads : StoredList
stored_ads = record {
  spec = record { id = ascii "l"; name = ascii "List"; url = ascii "u"; enabled = true };
  content = some (ascii "ads.com");
  last_fetched = some 1;
  last_error = [];
  rule_count = 1;
}

abbrev ads_manager : ListManager
ads_manager = record {
  store = (ascii "l", stored_ads) ∷ [];
  engine = new_engine;
  dir = [];
  files = [];
  auto_update = pos 0;
}

fetch_one-Unharmed_example :
    Unharmed
      (ascii "l")
      (ascii "x")
      ads_manager
      (fetch_one (λ _. inr (ascii "x")) (λ _. inr (ascii "x")) (ascii "l") 2 ads_manager).0
unfolding fetch_one store_fetched lookup str_eq cut_prefix is_empty
fetch_one-Unharmed_example =
    fetch_one-Unharmed (λ _. inr (ascii "x")) (λ _. inr (ascii "x")) (ascii "l") (ascii "x") 2
      ads_manager refl
