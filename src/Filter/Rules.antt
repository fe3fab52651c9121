-- ===== src/Filter/Rules.antt =====
-- internal/filter/rules.go: domain names and rule lines.
use irongrid_dns.Prelude.{
  zero, suc, ◌+◌, Bool, true, false, not, ◌&&◌, ◌||◌, List, [], ◌∷◌, ◌++◌, Option, none, some, ltb,
  ◌==◌, if◌then◌else◌, length, take, drop,
}
use irongrid_dns.Bytes.{GoString, is_empty, ascii}
use irongrid_dns.Text.{
  Unicode, is_ascii, trim_space, to_lower, cut_prefix, has_prefix, trim_prefix, trim_suffix,
  has_byte, contains_any, cut_at_any, last_index, split,
}

-- What the filter uses of code outside the repository: the tables of Unicode, `idna.Lookup.ToASCII`
-- (`none` for an error), `regexp.Compile` (`none` for an error, and the match of a whole name
-- otherwise), and `net.ParseIP` followed by `String`.
pub record Env : Type 0 where
  pub unicode : Unicode
  pub to_ascii : GoString → Option GoString
  pub compile_regexp : GoString → Option (GoString → Bool)
  pub parse_ip : GoString → Option GoString

-- `RegexRule`
pub record RegexRule : Type 0 where
  pub matches : GoString → Bool
  pub list : GoString

-- The results of `splitRule`, where it is `ok`.
pub record Rule : Type 0 where
  pub domain : GoString
  pub exact_only : Bool
  pub is_exception : Bool

-- `d, err := idna.Lookup.ToASCII(d)`, with `d` kept on an error.
unfoldable pub idna_or_same : Env → GoString → GoString
idna_or_same env d = elim (env.to_ascii d) [ some a ↦ a | none ↦ d ]

-- `normalizeDomain`
unfoldable pub normalize_domain : Env → GoString → GoString
normalize_domain env d =
    let d = to_lower env.unicode (trim_suffix (trim_space env.unicode d) 46) in
    if is_ascii d then d else idna_or_same env d

-- The options of one part of the modifiers.
unfoldable pub has_domain_option : List GoString → Bool
has_domain_option [] = false
has_domain_option (opt ∷ opts) =
    has_prefix (trim_prefix opt (ascii "~")) (ascii "domain=") || has_domain_option opts

unfoldable pub has_domain_part : List GoString → Bool
has_domain_part [] = false
has_domain_part (part ∷ parts) = has_domain_option (split part 44) || has_domain_part parts

-- `hasDomainModifier`
unfoldable pub has_domain_modifier : GoString → Bool
has_domain_modifier modifiers = has_domain_part (split modifiers 36)

-- The markers `||` and `|`: the rest of the line, or `none` for a line that is not a domain rule.
unfoldable pub cut_marker : GoString → Option GoString
cut_marker line = elim (cut_prefix line (ascii "||")) [
  | none ↦ if has_prefix line (ascii "|") then none else some line
  | some after ↦
      let (before, modifiers) = cut_at_any after (ascii "^$") in
      if has_domain_modifier modifiers then none else some before
]

-- The bytes that no domain has.
abbrev pub forbidden : GoString
forbidden = 32 ∷ 9 ∷ 47 ∷ 35 ∷ 42 ∷ 91 ∷ 93 ∷ 33 ∷ 64 ∷ 124 ∷ 36 ∷ 94 ∷ 61 ∷ 34 ∷ []

-- The test of `splitRule` on the normalized name.
unfoldable pub is_domain : GoString → Bool
is_domain domain = not (is_empty domain || contains_any domain forbidden) && has_byte domain 46

-- The end of `splitRule`, from `=` on.
unfoldable pub strip_rule : GoString → GoString
strip_rule line = trim_prefix (trim_prefix (trim_suffix line 94) (ascii "*.")) (ascii ".")

unfoldable pub finish_rule : Env → GoString → Bool → Option Rule
finish_rule env line exception =
    let exact = has_prefix line (ascii "=") in
    let domain = normalize_domain env (strip_rule (trim_prefix line (ascii "="))) in
    if is_domain domain
    then some (record { domain = domain; exact_only = exact; is_exception = exception })
    else none

-- `splitRule`, with `none` for a line that is not `ok`.
unfoldable pub split_rule : Env → GoString → Option Rule
split_rule env raw =
    let line = trim_space env.unicode raw in
    if is_empty line then none else elim (cut_marker (trim_prefix line (ascii "@@"))) [
      | none ↦ none
      | some rest ↦ finish_rule env rest (has_prefix line (ascii "@@"))
    ]

-- The flags behind the pattern: only `i`, `s` and `m`.
unfoldable pub are_flags : GoString → Bool
are_flags [] = true
are_flags (f ∷ fs) = (f == 105 || f == 115 || f == 109) && are_flags fs

-- The pattern with its flags written inline.
unfoldable pub with_flags : GoString → GoString → GoString
with_flags pattern flags =
    if is_empty flags then pattern else ascii "(?" ++ flags ++ ascii ")" ++ pattern

-- The line from its second byte on, cut at the last `/`.
unfoldable pub compile_rule : Env → GoString → GoString → GoString → Option RegexRule
compile_rule env pattern flags list_id =
    if not (are_flags flags) then none else elim (env.compile_regexp (with_flags pattern flags)) [
      | none ↦ none
      | some f ↦ some (record { matches = f; list = list_id })
    ]

-- `parseRegexRule`; the pattern is empty only where the last `/` is at 1.
unfoldable pub parse_regex_rule : Env → GoString → GoString → Option RegexRule
parse_regex_rule env raw list_id =
    let line = trim_space env.unicode raw in
    if ltb (length line) 3 || not (has_prefix line (ascii "/")) || has_prefix line (ascii "/*")
    then none
    else elim (last_index line 47) [
      | none ↦ none
      | some zero ↦ none
      | some (suc last) ↦
          if last == 0
          then none
          else compile_rule env (take last (drop 1 line)) (drop (last + 2) line) list_id
    ]
