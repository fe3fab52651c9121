-- ===== src/Filter/Loads.antt =====
-- internal/filter/parse.go: what holds of the sets after a list has been read.
use irongrid_dns.Prelude.{
  either_way, ◌≡◌, refl, sym, ap, ◌∙◌, inl, inr, Bool, true, false, ◌||◌, List, [], ◌∷◌, Option,
  none, some, arith, Bool-cases, Option-cases, if◌then◌else◌,
}
use irongrid_dns.Bytes.{GoString, is_empty, ascii}
use irongrid_dns.Text.{trim_space, fields, has_prefix, trim_prefix}
use irongrid_dns.Filter.Rules.{Env, RegexRule, Rule, is_domain, finish_rule, split_rule, cut_marker}
use irongrid_dns.Filter.Parse.{
  Target, add_block, add_exception, add_ip, add_block_regex, add_allow_regex, add_hosts,
  add_hosts_line, add_rule, first_field, parse_rule, parse_line, parse_lines, parse_content, scan,
  cut_lines,
}

some_if :
    {A : Type 0} (b : Bool) (x y : A) → (if b then some x else none) ≡ some y → (b ≡ true) × (x ≡ y)
some_if true x y e = (refl, ground (arith, e))
some_if false x y e = ground (arith, e)

finish_rule-is_domain :
    (env : Env) (line : GoString) (exc : Bool) (r : Rule)
    → finish_rule env line exc ≡ some r
    → is_domain r.domain ≡ true
unfolding finish_rule
finish_rule-is_domain env line exc r e =
    let (ok, same) = some_if _ _ _ e in ap (λ (x : Rule). is_domain x.domain) (sym same) ∙ ok

-- Whatever `splitRule` accepts is a name with a dot and without the forbidden bytes.
pub split_rule-is_domain :
    (env : Env) (raw : GoString) (r : Rule)
    → split_rule env raw ≡ some r
    → is_domain r.domain ≡ true
unfolding split_rule
split_rule-is_domain env raw r e =
    let line = trim_space env.unicode raw in
    elim (Bool-cases (is_empty line)) [
      | inl nothing ↦ absurd (ground (arith, e, nothing))
      | inr given ↦ elim (Option-cases (cut_marker (trim_prefix line (ascii "@@")))) [
        | inl no_domain ↦ absurd (ground (arith, e, given, no_domain))
        | inr (rest, m) ↦
            finish_rule-is_domain env rest (has_prefix line (ascii "@@")) r
              (ground (arith, e, given, m))
      ]
    ]

-- What every write of `parseContent` keeps holds after it.
module _ (env : Env) (id : GoString) (P : Target → Type 0)
    (block : (r : Rule) (t : Target) → is_domain r.domain ≡ true → P t → P (add_block id r t))
    (except : (r : Rule) (t : Target) → is_domain r.domain ≡ true → P t → P (add_exception r t))
    (ip : (s : GoString) (t : Target) → P t → P (add_ip s t))
    (block_rx : (r : Option RegexRule) (t : Target) → P t → P (add_block_regex r t))
    (allow_rx : (r : Option RegexRule) (t : Target) → P t → P (add_allow_regex r t)) where
  add_hosts-ind : (fs : List GoString) (t : Target) → P t → P (add_hosts env id fs t)
  unfolding add_hosts
  add_hosts-ind [] t p = p
  add_hosts-ind (f ∷ fs) t p = elim (Option-cases (split_rule env f)) [
    | inl e ↦ rw (add_hosts, e) (add_hosts-ind fs t p)
    | inr (r, e) ↦
        rw (add_hosts, e)
          (add_hosts-ind fs (add_block id r t) (block r t (split_rule-is_domain env f r e) p))
  ]

  add_hosts_line-ind :
      (s : GoString) (fs : List GoString) (t : Target) → P t → P (add_hosts_line env id s fs t)
  unfolding add_hosts_line
  add_hosts_line-ind s [] t p = p
  add_hosts_line-ind s (f ∷ []) t p = ip s t p
  add_hosts_line-ind s (f ∷ g ∷ fs) t p = add_hosts-ind (g ∷ fs) t p

  add_rule-ind : (line : GoString) (t : Target) → P t → P (add_rule id (split_rule env line) t)
  unfolding add_rule
  add_rule-ind line t p = elim (Option-cases (split_rule env line)) [
    | inl e ↦ rw (add_rule, e) p
    | inr (r, e) ↦
        let ok = split_rule-is_domain env line r e in
        rw (add_rule, e) (either_way P r.is_exception _ _ (except r t ok p) (block r t ok p))
  ]

  parse_rule-ind : (line : GoString) (t : Target) → P t → P (parse_rule env id line t)
  unfolding parse_rule
  parse_rule-ind line t p = elim (Option-cases (env.parse_ip line)) [
    | inr (s, e) ↦ rw (parse_rule, e) (ip s t p)
    | inl e ↦ elim (Bool-cases (has_prefix line (ascii "@@/"))) [
      | inl a ↦ rw (parse_rule, e, a) (allow_rx _ t p)
      | inr a ↦ elim (Bool-cases (has_prefix line (ascii "/"))) [
        | inl b ↦ rw (parse_rule, e, a, b) (block_rx _ t p)
        | inr b ↦ rw (parse_rule, e, a, b) (add_rule-ind line t p)
      ]
    ]
  ]

  parse_line-ind : (text : GoString) (t : Target) → P t → P (parse_line env id text t)
  unfolding parse_line
  parse_line-ind text t p =
      let line = trim_space env.unicode text in
      elim (Bool-cases
        (is_empty line || has_prefix line (ascii "#") || has_prefix line (ascii "!"))) [
          | inl e ↦ rw (parse_line, e) p
          | inr e ↦ elim (Option-cases (env.parse_ip (first_field line))) [
            | inl no_ip ↦ rw (parse_line, e, no_ip) (parse_rule-ind line t p)
            | inr (s, is_ip) ↦
                rw (parse_line, e, is_ip) (add_hosts_line-ind s (fields env.unicode line) t p)
          ]
        ]

  parse_lines-ind : (ls : List GoString) (t : Target) → P t → P (parse_lines env id ls t)
  unfolding parse_lines
  parse_lines-ind [] t p = p
  parse_lines-ind (l ∷ ls) t p = parse_lines-ind ls (parse_line env id l t) (parse_line-ind l t p)

  pub parse_content-ind :
      (content : GoString) (t : Target) → P t → P (parse_content env content id t)
  unfolding parse_content
  parse_content-ind content t p = parse_lines-ind (scan (cut_lines content)) t p
