-- ===== src/Filter/Local.antt =====
-- internal/filter/rewrite.go: which local records answer a name.
use irongrid_dns.Prelude.{
  ℕ, ◌≤◌, ◌≡◌, refl, sym, ap, subst, ◌∙◌, ◌⊎◌, inl, inr, ◌&&◌, List, [], ◌∷◌, ◌++◌, Option, none,
  some, arith, ◌==◌, if◌then◌else◌, length, length-append, Bool-cases, Option-cases,
}
use irongrid_dns.Bytes.{GoString}
use irongrid_dns.Text.{split, join, add_to_first}
use irongrid_dns.Text.Laws.{split-cons, join-split}
use irongrid_dns.Shards.Table.{lookup, lookup-nil}
use irongrid_dns.Filter.Rewrite.{RewriteRule, RuleMap, Rewriter, find_suffix, lookup_name}

-- What follows a dot of the name.
pub record IsSuffix (p q : GoString) : Type 0 where
  pub label : GoString
  pub split_at : q ≡ label ++ 46 ∷ p

abbrev or_else : Option (List RewriteRule) → Option (List RewriteRule) → Option (List RewriteRule)
or_else (some rules) o = some rules
or_else none o = o

-- The walk over the bytes of the name.
unfoldable first_suffix : RuleMap → GoString → Option (List RewriteRule)
first_suffix m [] = none
first_suffix m (c ∷ s) =
    let rest = first_suffix m s in if c == 46 then or_else (lookup s m) rest else rest

find_suffix-add_to_first :
    (m : RuleMap) (c : ℕ) (w : GoString) (ws : List GoString)
    → find_suffix m (add_to_first c (w ∷ ws)) ≡ find_suffix m (w ∷ ws)
unfolding find_suffix add_to_first
find_suffix-add_to_first m c w [] = refl
find_suffix-add_to_first m c w (v ∷ ws) = refl

find_suffix-nil_first :
    (m : RuleMap) (w : GoString) (ws : List GoString)
    → find_suffix m ([] ∷ w ∷ ws) ≡ or_else (lookup (join (w ∷ ws) 46) m) (find_suffix m (w ∷ ws))
unfolding find_suffix
find_suffix-nil_first m w ws = go (lookup (join (w ∷ ws) 46) m)
  where
    go :
        (o : Option (List RewriteRule))
        → (elim o as (λ _. Option (List RewriteRule)) [
          | some rules ↦ some rules
          | none ↦ find_suffix m (w ∷ ws)
        ])
          ≡ or_else o (find_suffix m (w ∷ ws))
    go none = refl
    go (some rules) = refl

find_suffix-empty : (m : RuleMap) → find_suffix m ([] ∷ []) ≡ none
unfolding find_suffix
find_suffix-empty m = refl

find_suffix-first_suffix :
    (m : RuleMap) (q : GoString) → find_suffix m (split q 46) ≡ first_suffix m q
unfolding split first_suffix
find_suffix-first_suffix m [] = find_suffix-empty m
find_suffix-first_suffix m (c ∷ s) =
    let (w, ws, e) = split-cons s 46 in
    let same = ap (λ x. join x 46) (sym e) ∙ join-split s 46 in
    let rest = ap (find_suffix m) (sym e) ∙ find_suffix-first_suffix m s in
    elim (Bool-cases (c == 46)) [
      | inl here ↦ rw here (
          ap (λ x. find_suffix m ([] ∷ x)) e
          ∙ find_suffix-nil_first m w ws
          ∙ ap (λ x. or_else (lookup x m) (find_suffix m (w ∷ ws))) same
          ∙ ap (or_else (lookup s m)) rest)
      | inr other ↦
          rw other (
            ap (λ x. find_suffix m (add_to_first c x)) e ∙ find_suffix-add_to_first m c w ws ∙ rest)
    ]

-- The rules of a suffix, and that no longer suffix has any.
pub record Closest (m : RuleMap) (q p : GoString) (rules : List RewriteRule) : Type 0 where
  pub suffix : IsSuffix p q
  pub found : lookup p m ≡ some rules
  pub longest :
      (r : GoString) (others : List RewriteRule)
      → IsSuffix r q
      → lookup r m ≡ some others
      → length r ≤ length p

-- No suffix has rules.
pub record NoSuffix (m : RuleMap) (q : GoString) : Type 0 where
  pub nothing : (p : GoString) → IsSuffix p q → lookup p m ≡ none

IsSuffix-cons : (c : ℕ) (p s : GoString) → IsSuffix p (c ∷ s) → ((c ≡ 46) × (p ≡ s)) ⊎ IsSuffix p s
IsSuffix-cons c p s h = go h.label h.split_at
  where
    go : (label : GoString) → c ∷ s ≡ label ++ 46 ∷ p → ((c ≡ 46) × (p ≡ s)) ⊎ IsSuffix p s
    go [] e = inl (ground arith)
    go (x ∷ l) e = inr (record { label = l; split_at = ground arith })

IsSuffix-shorter : (c : ℕ) (p s : GoString) → IsSuffix p (c ∷ s) → length p ≤ length s
IsSuffix-shorter c p s h = omega (arith, ap length h.split_at, length-append h.label (46 ∷ p))

tail-IsSuffix : (c : ℕ) (p s : GoString) → IsSuffix p s → IsSuffix p (c ∷ s)
tail-IsSuffix c p s h = record {
  label = c ∷ h.label;
  split_at = ap (λ (x : GoString). c ∷ x) h.split_at;
}

abbrev Search : RuleMap → GoString → Option (List RewriteRule) → Type 0
Search m q o =
    ((o ≡ none) × NoSuffix m q)
    ⊎ ((p : GoString) × (rules : List RewriteRule) × (o ≡ some rules) × Closest m q p rules)

-- A step over one byte, where what follows it is no name with rules.
skip :
    (m : RuleMap) (c : ℕ) (s : GoString) (o : Option (List RewriteRule))
    → ((p : GoString) → IsSuffix p (c ∷ s) → (lookup p m ≡ none) ⊎ IsSuffix p s)
    → Search m s o
    → Search m (c ∷ s) o
skip m c s o here (inl (e, n)) = inl (
  e,
  record { nothing = λ p h. elim (here p h) [ inl absent ↦ absent | inr up ↦ n.nothing p up ] },
)
skip m c s o here (inr (p, rules, e, cl)) = inr (
  p,
  rules,
  e,
  record {
    suffix = tail-IsSuffix c p s cl.suffix;
    found = cl.found;
    longest = λ r others h held. elim (here r h) [
      | inl absent ↦ absurd (ground (arith, absent, held))
      | inr up ↦ cl.longest r others up held
    ];
  },
)

first_suffix-Search : (m : RuleMap) (q : GoString) → Search m q (first_suffix m q)
unfolding first_suffix
first_suffix-Search m [] =
    inl (refl, record { nothing = λ p h. absurd (none_above p h.label h.split_at) })
  where
    none_above : (p l : GoString) → ¬ ([] ≡ l ++ 46 ∷ p)
    none_above p [] e = ground arith
    none_above p (x ∷ l) e = ground arith
first_suffix-Search m (c ∷ s) = elim (Bool-cases (c == 46)) [
  | inr other ↦ rw other (
      skip m c s _
        (λ p h. elim (IsSuffix-cons c p s h) [
          | inl (dot, same) ↦ absurd (ground (arith, other, dot))
          | inr up ↦ inr up
        ])
        (first_suffix-Search m s))
  | inl here ↦ elim (Option-cases (lookup s m)) [
    | inr (rules, found) ↦
        rw (here, found)
          (inr (
            s,
            rules,
            refl,
            record {
              suffix = record { label = []; split_at = ground (arith, here) };
              found = found;
              longest = λ r others h held. IsSuffix-shorter c r s h;
            },
          ))
    | inl absent ↦
        rw (here, absent)
          (skip m c s _
            (λ p h. elim (IsSuffix-cons c p s h) [
              | inl (dot, same) ↦ inl (ap (λ x. lookup x m) same ∙ absent)
              | inr up ↦ inr up
            ])
            (first_suffix-Search m s))
  ]
]

empty_map : (m : RuleMap) (k : GoString) → length m ≡ 0 → lookup k m ≡ none
empty_map [] k e = lookup-nil k
empty_map (x ∷ m) k e = ground arith

-- The rules that are found, or that there are none.
abbrev pub IsAnswer : Rewriter → GoString → Option (List RewriteRule) → Type 0
IsAnswer w q none = (lookup q w.exact ≡ none) × NoSuffix w.wildcard q
IsAnswer w q (some rules) =
    (lookup q w.exact ≡ some rules)
    ⊎ ((lookup q w.exact ≡ none) × ((p : GoString) × Closest w.wildcard q p rules))

Search-IsAnswer :
    (w : Rewriter) (q : GoString) (o : Option (List RewriteRule))
    → lookup q w.exact ≡ none
    → Search w.wildcard q o
    → IsAnswer w q o
Search-IsAnswer w q o absent (inl (e, n)) = rw e (absent, n)
Search-IsAnswer w q o absent (inr (p, rules, e, cl)) = rw e (inr (absent, (p, cl)))

-- The local records that answer a name are those of the name itself, or else those of the longest
-- suffix behind one of its dots for which there is a wildcard; nothing is answered exactly where
-- neither exists.
lookup_name-IsAnswer : (w : Rewriter) (q : GoString) → IsAnswer w q (lookup_name w q)
unfolding lookup_name
lookup_name-IsAnswer w q =
    let searched =
      subst (Search w.wildcard q) (sym (find_suffix-first_suffix w.wildcard q))
        (first_suffix-Search w.wildcard q) in
    elim (Bool-cases (length w.exact == 0 && length w.wildcard == 0)) [
      | inl empty ↦
          rw (lookup_name, empty)
            (
              empty_map w.exact q (ground (arith, empty)),
              record { nothing = λ p h. empty_map w.wildcard p (ground (arith, empty)) },
            )
      | inr filled ↦ elim (Option-cases (lookup q w.exact)) [
        | inr (rules, held) ↦ rw (lookup_name, filled, held) (inl held)
        | inl absent ↦ rw (lookup_name, filled, absent) (Search-IsAnswer w q _ absent searched)
      ]
    ]
