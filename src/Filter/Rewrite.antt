-- ===== src/Filter/Rewrite.antt =====
-- internal/filter/rewrite.go: the local records. The TTL is that of the configuration.
use irongrid_dns.Prelude.{
  ℕ, ◌&&◌, ◌||◌, List, [], ◌∷◌, ◌++◌, Option, none, some, ◌==◌, if◌then◌else◌, length,
}
use irongrid_dns.Bytes.{GoString, is_empty, ascii, str_eq}
use irongrid_dns.Text.{upper, cut_prefix, split, join}
use irongrid_dns.Shards.Table.{Table, lookup, insert}
use irongrid_dns.Filter.Rules.{Env, normalize_domain}

-- `RewriteSpec`
pub record RewriteSpec : Type 0 where
  pub domain : GoString
  pub type : GoString
  pub value : GoString
  pub ttl : ℕ

-- `RewriteRule`
pub record RewriteRule : Type 0 where
  pub type : ℕ
  pub value : GoString
  pub ttl : ℕ

-- `dns.TypeA`, `dns.TypeCNAME` and `dns.TypeAAAA`.
abbrev pub type_a : ℕ
type_a = 1

abbrev pub type_cname : ℕ
type_cname = 5

abbrev pub type_aaaa : ℕ
type_aaaa = 28

abbrev pub RuleMap : Type 0
RuleMap = Table (List RewriteRule)

-- `Rewriter`
pub record Rewriter : Type 0 where
  pub exact : RuleMap
  pub wildcard : RuleMap

unfoldable pub new_rewriter : Rewriter
new_rewriter = record { exact = []; wildcard = [] }

-- The `switch` on the type.
unfoldable pub query_type : GoString → Option ℕ
query_type t =
    if str_eq (upper t) (ascii "A")
    then some type_a
    else if str_eq (upper t) (ascii "AAAA")
    then some type_aaaa
    else if str_eq (upper t) (ascii "CNAME")
    then some type_cname
    else none

unfoldable pub rules_at : GoString → RuleMap → List RewriteRule
rules_at k m = elim (lookup k m) [ none ↦ [] | some rules ↦ rules ]

-- `m[k] = append(m[k], rule)`
unfoldable pub append_rule : GoString → RewriteRule → RuleMap → RuleMap
append_rule k rule m = insert k (rules_at k m ++ (rule ∷ [])) m

unfoldable pub rule_of : RewriteSpec → ℕ → RewriteRule
rule_of s qtype = record { type = qtype; value = s.value; ttl = if s.ttl == 0 then 300 else s.ttl }

unfoldable pub add_compiled : GoString → RewriteRule → Rewriter → Rewriter
add_compiled domain rule rw' = elim (cut_prefix domain (ascii "*.")) [
  | some suffix ↦ record rw' { wildcard = append_rule suffix rule rw'.wildcard }
  | none ↦ record rw' { exact = append_rule domain rule rw'.exact }
]

-- One turn of the loop of `Set`.
unfoldable pub add_spec : Env → RewriteSpec → Rewriter → Rewriter
add_spec env s rw' =
    let domain = normalize_domain env s.domain in
    if is_empty domain || is_empty s.value then rw' else elim (query_type s.type) [
      | none ↦ rw'
      | some qtype ↦ add_compiled domain (rule_of s qtype) rw'
    ]

unfoldable pub add_specs : Env → List RewriteSpec → Rewriter → Rewriter
add_specs env [] rw' = rw'
add_specs env (s ∷ ss) rw' = add_specs env ss (add_spec env s rw')

-- `Set`
unfoldable pub set_rules : Env → List RewriteSpec → Rewriter → Rewriter
set_rules env specs rw' = add_specs env specs new_rewriter

-- The loop over the labels from the second on: the longest suffix first.
unfoldable pub find_suffix : RuleMap → List GoString → Option (List RewriteRule)
find_suffix m [] = none
find_suffix m (_ ∷ []) = none
find_suffix m (_ ∷ l ∷ ls) = elim (lookup (join (l ∷ ls) 46) m) [
  | some rules ↦ some rules
  | none ↦ find_suffix m (l ∷ ls)
]

-- `Lookup` on the normalized name.
unfoldable pub lookup_name : Rewriter → GoString → Option (List RewriteRule)
lookup_name rw' q =
    if length rw'.exact == 0 && length rw'.wildcard == 0 then none else elim (lookup q rw'.exact) [
      | some rules ↦ some rules
      | none ↦ find_suffix rw'.wildcard (split q 46)
    ]

-- `Lookup`
unfoldable pub lookup_rules : Env → Rewriter → GoString → Option (List RewriteRule)
lookup_rules env rw' qname =
    let q = normalize_domain env qname in if is_empty q then none else lookup_name rw' q

-- The answers of `BuildAnswer`: the address or the target that a record carries.
pub data Answer : Type 0 where
  cname : ℕ → GoString → Answer
  a : ℕ → GoString → Answer
  aaaa : ℕ → GoString → Answer

-- One rule, with `net.ParseIP` followed by `To4` and by the address itself as parameters.
unfoldable pub answer_of :
    (GoString → Option GoString) → (GoString → Option GoString) → ℕ → RewriteRule → List Answer
answer_of parse_ip4 parse_ip qtype rule =
    if rule.type == type_cname
    then cname rule.ttl rule.value ∷ []
    else if rule.type == type_a && qtype == type_a
    then elim (parse_ip4 rule.value) [ none ↦ [] | some ip ↦ a rule.ttl ip ∷ [] ]
    else if rule.type == type_aaaa && qtype == type_aaaa
    then elim (parse_ip rule.value) [ none ↦ [] | some ip ↦ aaaa rule.ttl ip ∷ [] ]
    else []

unfoldable pub answers_of :
    (GoString → Option GoString) → (GoString → Option GoString) → ℕ → List RewriteRule → List Answer
answers_of parse_ip4 parse_ip qtype [] = []
answers_of parse_ip4 parse_ip qtype (r ∷ rs) =
    answer_of parse_ip4 parse_ip qtype r ++ answers_of parse_ip4 parse_ip qtype rs

-- `BuildAnswer`: the answer section, or `none` where no rule matched.
unfoldable pub build_answer :
    (GoString → Option GoString)
    → (GoString → Option GoString)
    → ℕ
    → List RewriteRule
    → Option (List Answer)
build_answer parse_ip4 parse_ip qtype rules =
    let answers = answers_of parse_ip4 parse_ip qtype rules in
    if length answers == 0 then none else some answers
