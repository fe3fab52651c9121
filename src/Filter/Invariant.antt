-- ===== src/Filter/Invariant.antt =====
-- internal/filter/engine.go: what holds of the engine after any history of calls.
use irongrid_dns.Prelude.{
  either_way, ℕ, ◌+◌, ◌≤◌, ◌≡◌, inl, inr, true, [], ◌∷◌, Option, none, some, arith, length,
  Bool-cases, length-append,
}
use irongrid_dns.Bytes.{GoString, str_eq}
use irongrid_dns.Shards.Table.{insert, delete}
use irongrid_dns.Filter.Rules.{Env, RegexRule, Rule, is_domain}
use irongrid_dns.Filter.Parse.{
  NameSet, add_name, Target, add_block, add_exception, add_ip, add_block_regex, add_allow_regex,
  parse_content,
}
use irongrid_dns.Filter.Loads.{parse_content-ind}

-- Every name of the set is one that `splitRule` accepts.
abbrev pub AllDomains : NameSet → Type 0
AllDomains [] = Unit
AllDomains ((k, _) ∷ m) = (is_domain k ≡ true) × AllDomains m

insert-AllDomains :
    (k : GoString) (m : NameSet) → is_domain k ≡ true → AllDomains m → AllDomains (add_name k m)
unfolding insert
insert-AllDomains k [] d a = (d, tt)
insert-AllDomains k ((j, w) ∷ m) d a = elim (Bool-cases (str_eq j k)) [
  | inl same ↦ rw same (d, a.1)
  | inr other ↦ rw other (a.0, insert-AllDomains k m d a.1)
]

pub delete-AllDomains : (k : GoString) (m : NameSet) → AllDomains m → AllDomains (delete k m)
unfolding delete
delete-AllDomains k [] a = tt
delete-AllDomains k ((j, w) ∷ m) a = elim (Bool-cases (str_eq j k)) [
  | inl same ↦ rw same (delete-AllDomains k m a.1)
  | inr other ↦ rw other (a.0, delete-AllDomains k m a.1)
]

pub length-insert-le :
    (k : GoString) (m : NameSet)
    → (length m ≤ length (add_name k m)) × (length (add_name k m) ≤ length m + 1)
unfolding insert
length-insert-le k [] = (omega arith, omega arith)
length-insert-le k ((j, w) ∷ m) = ground (arith, length-insert-le k m)

-- The downloaded rules: accepted names, and no more of them than the total.
pub record IsRules (domains exact : NameSet) (regexes total : ℕ) : Type 0 where
  pub domain_names : AllDomains domains
  pub exact_names : AllDomains exact
  pub counted : length domains + length exact + regexes ≤ total

-- What reading a list keeps, with the totals before it.
pub record Kept (total ips : ℕ) (t : Target) : Type 0 where
  pub rules :
      IsRules t.block t.block_exact
        (length t.block_regex)
        (total + (t.res.domains + t.res.exact_domains + t.res.regexes))
  pub grown : ips ≤ length t.block_ips

module _ (total ips : ℕ) where
  add_block-Kept :
      (id : GoString) (r : Rule) (t : Target)
      → is_domain r.domain ≡ true
      → Kept total ips t
      → Kept total ips (add_block id r t)
  unfolding add_block
  add_block-Kept id r t d k =
      either_way (Kept total ips) r.exact_only _ _
        (record {
          rules = record {
            domain_names = k.rules.domain_names;
            exact_names = insert-AllDomains r.domain t.block_exact d k.rules.exact_names;
            counted = omega (arith, k.rules.counted, (length-insert-le r.domain t.block_exact).1);
          };
          grown = k.grown;
        })
        (record {
          rules = record {
            domain_names = insert-AllDomains r.domain t.block d k.rules.domain_names;
            exact_names = k.rules.exact_names;
            counted = omega (arith, k.rules.counted, (length-insert-le r.domain t.block).1);
          };
          grown = k.grown;
        })

  add_exception-Kept :
      (r : Rule) (t : Target)
      → is_domain r.domain ≡ true
      → Kept total ips t
      → Kept total ips (add_exception r t)
  unfolding add_exception
  add_exception-Kept r t d k =
      either_way (Kept total ips) r.exact_only _ _ (record { rules = k.rules; grown = k.grown })
        (record { rules = k.rules; grown = k.grown })

  add_ip-Kept : (s : GoString) (t : Target) → Kept total ips t → Kept total ips (add_ip s t)
  unfolding add_ip
  add_ip-Kept s t k = record {
    rules = k.rules;
    grown = omega (arith, k.grown, (length-insert-le s t.block_ips).0);
  }

  add_block_regex-Kept :
      (r : Option RegexRule) (t : Target) → Kept total ips t → Kept total ips (add_block_regex r t)
  unfolding add_block_regex
  add_block_regex-Kept none t k = k
  add_block_regex-Kept (some r) t k = record {
    rules = record {
      domain_names = k.rules.domain_names;
      exact_names = k.rules.exact_names;
      counted = omega (arith, k.rules.counted, length-append t.block_regex (r ∷ []));
    };
    grown = k.grown;
  }

  add_allow_regex-Kept :
      (r : Option RegexRule) (t : Target) → Kept total ips t → Kept total ips (add_allow_regex r t)
  unfolding add_allow_regex
  add_allow_regex-Kept none t k = k
  add_allow_regex-Kept (some r) t k = record { rules = k.rules; grown = k.grown }

  pub parse_content-Kept :
      (env : Env) (content id : GoString) (t : Target)
      → Kept total ips t
      → Kept total ips (parse_content env content id t)
  parse_content-Kept env content id t k =
      parse_content-ind env id (Kept total ips) (add_block-Kept id) add_exception-Kept add_ip-Kept
        add_block_regex-Kept add_allow_regex-Kept content t k
