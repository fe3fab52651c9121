-- ===== src/Filter/Verdict.antt =====
-- internal/filter/engine.go: when `DecideDomain` blocks a name.
use irongrid_dns.Prelude.{
  ◌≡◌, refl, ◌↔◌, ◌⊎◌, inl, inr, Bool, true, false, List, [], ◌∷◌, Option, none, some, arith,
  Bool-cases, Option-cases,
}
use irongrid_dns.Bytes.{GoString}
use irongrid_dns.Filter.Rules.{RegexRule}
use irongrid_dns.Filter.Parse.{NameSet}
use irongrid_dns.Filter.Engine.{RuleSet}
use irongrid_dns.Filter.Decide.{
  Action, Decision, has_name, find_parent, last_dot, find_cover, find_regex, decide_regex,
  decide_subtree, decide_blocklist, decide_whitelist, decide_name,
}
use irongrid_dns.Filter.Parents.{Above, find_parent-Above, find_parent-closest}

-- Two sets cover a name: it stands in one of them, or a domain above it in the second.
abbrev pub Covered : NameSet → NameSet → GoString → Type 0
Covered exact domains q =
    (has_name q exact ≡ true) ⊎ (has_name q domains ≡ true) ⊎ ((p : GoString) × Above domains q p)

-- A regular expression of the list matches.
abbrev pub AnyMatch : List RegexRule → GoString → Type 0
AnyMatch [] q = ⊥
AnyMatch (rr ∷ rrs) q = (rr.matches q ≡ true) ⊎ AnyMatch rrs q

abbrev pub Blacklisted : RuleSet → GoString → Type 0
Blacklisted rs q = Covered rs.user_block_exact rs.user_block_domains q

abbrev pub Whitelisted : RuleSet → GoString → Type 0
Whitelisted rs q = Covered rs.allow_exact rs.allow_domains q ⊎ AnyMatch rs.allow_regex q

abbrev pub Listed : RuleSet → GoString → Type 0
Listed rs q = Covered rs.block_exact rs.block_domains q ⊎ AnyMatch rs.block_regex q

-- The outcome of a search, with what it means.
abbrev Found {ℓ} : {A : Type ℓ} → Option A → Type 0 → Type ℓ
Found {A = A} o P = ((o ≡ none) × ¬ P) ⊎ ((a : A) × (o ≡ some a) × P)

neither {ℓ κ} : {A : Type ℓ} {B : Type κ} → ¬ A → ¬ B → ¬ (A ⊎ B)
neither a b (inl x) = a x
neither a b (inr y) = b y

not_true : (b : Bool) → b ≡ false → ¬ (b ≡ true)
not_true b e h = ground arith

find_parent-Found :
    (m : NameSet) (q : GoString)
    → Found (find_parent m (last_dot q) q) ((p : GoString) × Above m q p)
find_parent-Found m q = elim (Option-cases (find_parent m (last_dot q) q)) [
  | inl nothing ↦ inl (
    nothing,
    λ (p, a). let (r, e, le) = find_parent-closest m q p a in ground (arith, nothing, e),
  )
  | inr (p, e) ↦ inr (p, e, (p, find_parent-Above m q p e))
]

pub find_cover-Found :
    (exact domains : NameSet) (q : GoString)
    → Found (find_cover exact domains q) (Covered exact domains q)
unfolding find_cover
find_cover-Found exact domains q = elim (Bool-cases (has_name q exact)) [
  | inl e ↦ inr (q, rw e refl, inl e)
  | inr e ↦ elim (Bool-cases (has_name q domains)) [
    | inl d ↦ inr (q, rw (e, d) refl, inr (inl d))
    | inr d ↦ elim (find_parent-Found domains q) [
      | inr (p, found, above) ↦ inr (p, rw (e, d) found, inr (inr above))
      | inl (found, nothing) ↦
          inl (rw (e, d) found, neither (not_true _ e) (neither (not_true _ d) nothing))
    ]
  ]
]

find_regex-Found : (rrs : List RegexRule) (q : GoString) → Found (find_regex rrs q) (AnyMatch rrs q)
unfolding find_regex
find_regex-Found [] q = inl (refl, λ n. n)
find_regex-Found (rr ∷ rrs) q = elim (Bool-cases (rr.matches q)) [
  | inl e ↦ inr (rr, rw e refl, inl e)
  | inr e ↦ elim (find_regex-Found rrs q) [
    | inr (r, found, m) ↦ inr (r, rw e found, inr m)
    | inl (found, nothing) ↦ inl (rw e found, neither (not_true _ e) nothing)
  ]
]

-- A decision blocks where a condition holds, and allows where it does not.
abbrev Outcome : Decision → Type 0 → Type 0
Outcome d P = ((d.action ≡ Action.block) × P) ⊎ ((d.action ≡ Action.allow) × ¬ P)

decide_regex-Outcome :
    (rs : RuleSet) (q : GoString) → Outcome (decide_regex rs q) (AnyMatch rs.block_regex q)
unfolding decide_regex
decide_regex-Outcome rs q = elim (find_regex-Found rs.block_regex q) [
  | inl (e, nothing) ↦ inr (rw (decide_regex, e) refl, nothing)
  | inr (rr, e, m) ↦ inl (rw (decide_regex, e) refl, m)
]

decide_blocklist-Outcome :
    (rs : RuleSet) (q : GoString) → Outcome (decide_blocklist rs q) (Listed rs q)
unfolding decide_blocklist decide_subtree
decide_blocklist-Outcome rs q = elim (Bool-cases (has_name q rs.block_exact)) [
  | inl e ↦ inl (rw (decide_blocklist, e) refl, inl (inl e))
  | inr e ↦ elim (Bool-cases (has_name q rs.block_domains)) [
    | inl d ↦ inl (rw (decide_blocklist, e, decide_subtree, d) refl, inl (inr (inl d)))
    | inr d ↦ elim (find_parent-Found rs.block_domains q) [
      | inr (p, found, above) ↦
          inl (rw (decide_blocklist, e, decide_subtree, d, found) refl, inl (inr (inr above)))
      | inl (found, nothing) ↦
          let none_covers = neither (not_true _ e) (neither (not_true _ d) nothing) in
          elim (decide_regex-Outcome rs q) [
            | inl (b, m) ↦ inl (rw (decide_blocklist, e, decide_subtree, d, found) b, inr m)
            | inr (a, no_match) ↦
                inr (
                  rw (decide_blocklist, e, decide_subtree, d, found) a,
                  neither none_covers no_match,
                )
          ]
    ]
  ]
]

-- What the whitelist leaves to the lists.
decide_whitelist-Outcome :
    (rs : RuleSet) (q : GoString)
    → Outcome (decide_whitelist rs q) ((¬ Whitelisted rs q) × Listed rs q)
unfolding decide_whitelist
decide_whitelist-Outcome rs q = elim (find_cover-Found rs.allow_exact rs.allow_domains q) [
  | inr (d, e, c) ↦ inr (rw (decide_whitelist, e) refl, λ b. b.0 (inl c))
  | inl (e, uncovered) ↦ elim (find_regex-Found rs.allow_regex q) [
    | inr (rr, r, m) ↦ inr (rw (decide_whitelist, e, r) refl, λ b. b.0 (inr m))
    | inl (r, unmatched) ↦ elim (decide_blocklist-Outcome rs q) [
      | inl (b, listed) ↦ inl (rw (decide_whitelist, e, r) b, (neither uncovered unmatched, listed))
      | inr (a, unlisted) ↦ inr (rw (decide_whitelist, e, r) a, λ b. unlisted b.1)
    ]
  ]
]

decide_name-Outcome :
    (rs : RuleSet) (q : GoString)
    → Outcome (decide_name rs q) (Blacklisted rs q ⊎ ((¬ Whitelisted rs q) × Listed rs q))
unfolding decide_name
decide_name-Outcome rs q = elim (find_cover-Found rs.user_block_exact rs.user_block_domains q) [
  | inr (d, e, c) ↦ inl (rw (decide_name, e) refl, inl c)
  | inl (e, uncovered) ↦ elim (decide_whitelist-Outcome rs q) [
    | inl (b, h) ↦ inl (rw (decide_name, e) b, inr h)
    | inr (a, h) ↦ inr (rw (decide_name, e) a, neither uncovered h)
  ]
]

outcome_iff : (d : Decision) (P : Type 0) → Outcome d P → (d.action ≡ Action.block) ↔ P
outcome_iff d P (inl (b, h)) = (λ _. h, λ _. b)
outcome_iff d P (inr (a, h)) = (λ b. absurd (ground (arith, a, b)), λ p. absurd (h p))

-- A name is blocked exactly where the user's blacklist covers it, or where a downloaded list
-- covers it and neither the whitelist nor one of its regular expressions does. A list covers a
-- name that stands in it, one below a domain in it that itself has a dot, and one that one of its
-- regular expressions matches.
pub decide_name-block :
    (rs : RuleSet) (q : GoString)
    → ((decide_name rs q).action ≡ Action.block)
      ↔ (Blacklisted rs q ⊎ ((¬ Whitelisted rs q) × Listed rs q))
decide_name-block rs q = outcome_iff (decide_name rs q) _ (decide_name-Outcome rs q)

pub decide_name-allow :
    (rs : RuleSet) (q : GoString)
    → ¬ Blacklisted rs q
    → Whitelisted rs q
    → (decide_name rs q).action ≡ Action.allow
decide_name-allow rs q free white = elim (decide_name-Outcome rs q) [
  | inr (a, h) ↦ a
  | inl (b, h) ↦ absurd (neither free (λ (x : (¬ Whitelisted rs q) × Listed rs q). x.0 white) h)
]

-- The search decides what is covered.
pub not_Covered :
    (exact domains : NameSet) (q : GoString)
    → find_cover exact domains q ≡ none
    → ¬ Covered exact domains q
not_Covered exact domains q e = elim (find_cover-Found exact domains q) [
  | inl (n, uncovered) ↦ uncovered
  | inr (d, s, c) ↦ absurd (ground (arith, e, s))
]
