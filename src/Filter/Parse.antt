-- ===== src/Filter/Parse.antt =====
-- internal/filter/parse.go: a list of rules is read into the sets of the engine.
use irongrid_dns.Prelude.{
  ℕ, ◌+◌, ◌||◌, List, [], ◌∷◌, ◌++◌, Option, none, some, ltb, ◌==◌, if◌then◌else◌, length,
}
use irongrid_dns.Bytes.{GoString, is_empty, ascii}
use irongrid_dns.Text.{trim_space, fields, has_prefix, trim_prefix, trim_suffix, add_to_first}
use irongrid_dns.Shards.Table.{Table, insert}
use irongrid_dns.Filter.Rules.{Env, RegexRule, Rule, split_rule, parse_regex_rule}

-- `map[string]struct{}`
abbrev pub NameSet : Type 0
NameSet = Table Unit

-- `m[k] = struct{}{}`
abbrev pub add_name : GoString → NameSet → NameSet
add_name k m = insert k tt m

-- `ParseResult`
pub record ParseResult : Type 0 where
  pub domains : ℕ
  pub exact_domains : ℕ
  pub ips : ℕ
  pub exceptions : ℕ
  pub regexes : ℕ

-- The sets that `parseContent` writes to, and what it counts.
pub record Target : Type 0 where
  pub block : NameSet
  pub block_exact : NameSet
  pub block_ips : NameSet
  pub allow : NameSet
  pub allow_exact : NameSet
  pub list_of : Table GoString
  pub block_regex : List RegexRule
  pub allow_regex : List RegexRule
  pub res : ParseResult

-- The longest line, with its end, that the scanner's buffer holds.
abbrev pub max_token : ℕ
max_token = 1048576

-- The lines of a text. A text that ends with a line feed has no empty line after it.
unfoldable pub cut_lines : GoString → List GoString
cut_lines [] = []
cut_lines (c ∷ s) = if c == 10 then [] ∷ cut_lines s else add_to_first c (cut_lines s)

-- `sc.Scan()` until it ends: a line that does not fit the buffer ends it.
unfoldable pub scan : List GoString → List GoString
scan [] = []
scan (l ∷ ls) = if ltb (length l) max_token then trim_suffix l 13 ∷ scan ls else []

-- `targetBlock[domain]` or `targetBlockExact[domain]`, its count, and `track`.
unfoldable pub add_block : GoString → Rule → Target → Target
add_block id r t =
    if r.exact_only
    then record t {
      block_exact = add_name r.domain t.block_exact;
      list_of = insert r.domain id t.list_of;
      res = record t.res { exact_domains = t.res.exact_domains + 1 };
    }
    else record t {
      block = add_name r.domain t.block;
      list_of = insert r.domain id t.list_of;
      res = record t.res { domains = t.res.domains + 1 };
    }

unfoldable pub add_exception : Rule → Target → Target
add_exception r t =
    if r.exact_only
    then record t {
      allow_exact = add_name r.domain t.allow_exact;
      res = record t.res { exceptions = t.res.exceptions + 1 };
    }
    else record t {
      allow = add_name r.domain t.allow;
      res = record t.res { exceptions = t.res.exceptions + 1 };
    }

unfoldable pub add_ip : GoString → Target → Target
add_ip ip t = record t {
  block_ips = add_name ip t.block_ips;
  res = record t.res { ips = t.res.ips + 1 };
}

unfoldable pub add_block_regex : Option RegexRule → Target → Target
add_block_regex none t = t
add_block_regex (some r) t = record t {
  block_regex = t.block_regex ++ (r ∷ []);
  res = record t.res { regexes = t.res.regexes + 1 };
}

unfoldable pub add_allow_regex : Option RegexRule → Target → Target
add_allow_regex none t = t
add_allow_regex (some r) t = record t {
  allow_regex = t.allow_regex ++ (r ∷ []);
  res = record t.res { exceptions = t.res.exceptions + 1 };
}

-- `for _, f := range fields[1:]`
unfoldable pub add_hosts : Env → GoString → List GoString → Target → Target
add_hosts env id [] t = t
add_hosts env id (f ∷ fs) t = elim (split_rule env f) [
  | none ↦ add_hosts env id fs t
  | some r ↦ add_hosts env id fs (add_block id r t)
]

-- A line that begins with an address: on its own it blocks the address. An address that
-- `net.ParseIP` reads has no space in it, so there is a first field.
unfoldable pub add_hosts_line : Env → GoString → GoString → List GoString → Target → Target
add_hosts_line env id ip [] t = t
add_hosts_line env id ip (f ∷ []) t = add_ip ip t
add_hosts_line env id ip (f ∷ g ∷ fs) t = add_hosts env id (g ∷ fs) t

-- A plain or an adblock rule.
unfoldable pub add_rule : GoString → Option Rule → Target → Target
add_rule id none t = t
add_rule id (some r) t = if r.is_exception then add_exception r t else add_block id r t

-- `firstField`
unfoldable pub first_field : GoString → GoString
first_field [] = []
first_field (c ∷ s) = if c == 32 || c == 9 then [] else c ∷ first_field s

-- A line that does not begin with an address.
unfoldable pub parse_rule : Env → GoString → GoString → Target → Target
parse_rule env id line t = elim (env.parse_ip line) [
  | some ip ↦ add_ip ip t
  | none ↦
      if has_prefix line (ascii "@@/")
      then add_allow_regex (parse_regex_rule env (trim_prefix line (ascii "@@")) id) t
      else if has_prefix line (ascii "/")
      then add_block_regex (parse_regex_rule env line id) t
      else add_rule id (split_rule env line) t
]

-- The body of the loop.
unfoldable pub parse_line : Env → GoString → GoString → Target → Target
parse_line env id text t =
    let line = trim_space env.unicode text in
    if is_empty line || has_prefix line (ascii "#") || has_prefix line (ascii "!")
    then t
    else elim (env.parse_ip (first_field line)) [
      | some ip ↦ add_hosts_line env id ip (fields env.unicode line) t
      | none ↦ parse_rule env id line t
    ]

unfoldable pub parse_lines : Env → GoString → List GoString → Target → Target
parse_lines env id [] t = t
parse_lines env id (l ∷ ls) t = parse_lines env id ls (parse_line env id l t)

-- `parseContent`
unfoldable pub parse_content : Env → GoString → GoString → Target → Target
parse_content env content id t = parse_lines env id (scan (cut_lines content)) t
