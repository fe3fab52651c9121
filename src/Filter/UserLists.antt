-- ===== src/Filter/UserLists.antt =====
-- internal/filter/engine.go: the user's entries after `Compile`.
use irongrid_dns.Prelude.{
  either_way, ◌≡◌, refl, sym, subst, ◌∙◌, ◌⊎◌, inl, inr, Bool, true, false, ◌||◌, List, [], ◌∷◌,
  Option, some, arith, if◌then◌else◌,
}
use irongrid_dns.Bytes.{GoString, str_eq, str_eq_refl}
use irongrid_dns.Shards.Table.{lookup-insert}
use irongrid_dns.Filter.Rules.{Env, Rule, split_rule}
use irongrid_dns.Filter.Parse.{NameSet, add_name}
use irongrid_dns.Filter.Engine.{
  Engine, exact_of, domain_of, whitelist_entry, whitelist_entries, blacklist_entry,
  blacklist_entries,
}
use irongrid_dns.Filter.Decide.{has_name}
use irongrid_dns.Filter.Parents.{IsParent}
use irongrid_dns.Filter.Verdict.{Covered}

-- An entry stands in a list.
abbrev pub Member : GoString → List GoString → Type 0
Member s [] = ⊥
Member s (x ∷ xs) = (x ≡ s) ⊎ Member s xs

-- The names that a rule is about: its domain and, unless it is exact, those below it.
abbrev pub Applies : Rule → GoString → Type 0
Applies r q = (q ≡ r.domain) ⊎ ((r.exact_only ≡ false) × IsParent r.domain q)

-- The rule stands in the set for exact names or in that for domains.
abbrev pub Held : Rule → NameSet → NameSet → Type 0
Held r exact domains = has_name r.domain (if r.exact_only then exact else domains) ≡ true

has_name-add :
    (j k : GoString) (m : NameSet) → has_name j (add_name k m) ≡ (str_eq k j || has_name j m)
unfolding has_name
has_name-add j k m = ground (arith, lookup-insert k j tt m)

has_name-add_self : (k : GoString) (m : NameSet) → has_name k (add_name k m) ≡ true
has_name-add_self k m = ground (arith, has_name-add k k m, str_eq_refl k)

pub has_name-add_old :
    (j k : GoString) (m : NameSet) → has_name j m ≡ true → has_name j (add_name k m) ≡ true
has_name-add_old j k m h = ground (arith, has_name-add j k m, h)

-- What a rule that is held covers.
pub Held-Covered :
    (r : Rule) (exact domains : NameSet) (q : GoString)
    → Applies r q
    → Held r exact domains
    → Covered exact domains q
Held-Covered r exact domains q (inl same) h =
    go r.exact_only
      (subst (λ d. has_name d (if r.exact_only then exact else domains) ≡ true) (sym same) h)
  where
    go : (b : Bool) → has_name q (if b then exact else domains) ≡ true → Covered exact domains q
    go true h = inl h
    go false h = inr (inl h)
Held-Covered r exact domains q (inr (wide, p)) h = inr (
    inr (
      r.domain,
      record {
        parent = p;
        known = subst (λ b. has_name r.domain (if b then exact else domains) ≡ true) wide h;
      },
    ))

-- One turn of either loop over the user's entries, on the two sets.
abbrev add_exact : Option Rule → NameSet → NameSet
add_exact o m = if exact_of o then add_name (domain_of o) m else m

abbrev add_wide : Option Rule → NameSet → NameSet
add_wide o m = if exact_of o then m else add_name (domain_of o) m

module _ (r : Rule) (exact domains : NameSet) where
  Held-added : Held r (add_exact (some r) exact) (add_wide (some r) domains)
  unfolding exact_of domain_of
  Held-added = go r.exact_only
    where
      go :
          (b : Bool)
          → has_name r.domain (
              if b
              then (if b then add_name r.domain exact else exact)
              else (if b then domains else add_name r.domain domains))
            ≡ true
      go true = has_name-add_self r.domain exact
      go false = has_name-add_self r.domain domains

  Held-kept :
      (o : Option Rule) → Held r exact domains → Held r (add_exact o exact) (add_wide o domains)
  Held-kept o h = go r.exact_only (exact_of o) h
    where
      go :
          (b c : Bool)
          → has_name r.domain (if b then exact else domains) ≡ true
          → has_name r.domain (
              if b
              then (if c then add_name (domain_of o) exact else exact)
              else (if c then domains else add_name (domain_of o) domains))
            ≡ true
      go true true h = has_name-add_old r.domain (domain_of o) exact h
      go true false h = h
      go false true h = h
      go false false h = has_name-add_old r.domain (domain_of o) domains h

-- The rules that the user's blacklist and whitelist hold.
abbrev pub Blocks : Rule → Engine → Type 0
Blocks r e = Held r e.user_block_exact e.user_block_domains

abbrev pub Allows : Rule → Engine → Type 0
Allows r e = Held r e.allow_exact e.allow_domains

ap-if :
    {A : Type 0} {B : Type 0} (f : A → B) (b : Bool) (x y : A)
    → f (if b then x else y) ≡ (if b then f x else f y)
ap-if f true x y = refl
ap-if f false x y = refl

blacklist_entry-sets :
    (P : NameSet → NameSet → Type 0) (o : Option Rule) (e : Engine)
    → P (add_exact o e.user_block_exact) (add_wide o e.user_block_domains)
    → P (blacklist_entry o e).user_block_exact (blacklist_entry o e).user_block_domains
unfolding blacklist_entry
blacklist_entry-sets P o e p =
    rw (ap-if (λ (x : Engine). x.user_block_exact), ap-if (λ (x : Engine). x.user_block_domains)) p

whitelist_entry-sets :
    (P : NameSet → NameSet → Type 0) (o : Option Rule) (e : Engine)
    → P (add_exact o e.allow_exact) (add_wide o e.allow_domains)
    → P (whitelist_entry o e).allow_exact (whitelist_entry o e).allow_domains
unfolding whitelist_entry
whitelist_entry-sets P o e p =
    rw (ap-if (λ (x : Engine). x.allow_exact), ap-if (λ (x : Engine). x.allow_domains)) p

module _ (env : Env) (r : Rule) where
  blacklist_entries-keeps :
      (ds : List GoString) (e : Engine) → Blocks r e → Blocks r (blacklist_entries env ds e)
  unfolding blacklist_entries
  blacklist_entries-keeps [] e h = h
  blacklist_entries-keeps (d ∷ ds) e h = blacklist_entries-keeps ds _ (
      blacklist_entry-sets (Held r) (split_rule env d) e
        (Held-kept r e.user_block_exact e.user_block_domains (split_rule env d) h))

  pub whitelist_entries-keeps :
      (ds : List GoString) (e : Engine) → Allows r e → Allows r (whitelist_entries env ds e)
  unfolding whitelist_entries
  whitelist_entries-keeps [] e h = h
  whitelist_entries-keeps (d ∷ ds) e h = whitelist_entries-keeps ds _ (
      whitelist_entry-sets (Held r) (split_rule env d) e
        (Held-kept r e.allow_exact e.allow_domains (split_rule env d) h))

  module _ (raw : GoString) (rule : split_rule env raw ≡ some r) where
    pub blacklist_entries-Blocks :
        (ds : List GoString) (e : Engine) → Member raw ds → Blocks r (blacklist_entries env ds e)
    unfolding blacklist_entries
    blacklist_entries-Blocks [] e n = absurd n
    blacklist_entries-Blocks (d ∷ ds) e (inl same) = blacklist_entries-keeps ds _ (
        blacklist_entry-sets (Held r) (split_rule env d) e
          (rw (same, rule) (Held-added r e.user_block_exact e.user_block_domains)))
    blacklist_entries-Blocks (d ∷ ds) e (inr later) = blacklist_entries-Blocks ds _ later

    pub whitelist_entries-Allows :
        (ds : List GoString) (e : Engine) → Member raw ds → Allows r (whitelist_entries env ds e)
    unfolding whitelist_entries
    whitelist_entries-Allows [] e n = absurd n
    whitelist_entries-Allows (d ∷ ds) e (inl same) = whitelist_entries-keeps ds _ (
        whitelist_entry-sets (Held r) (split_rule env d) e
          (rw (same, rule) (Held-added r e.allow_exact e.allow_domains)))
    whitelist_entries-Allows (d ∷ ds) e (inr later) = whitelist_entries-Allows ds _ later

-- Neither loop touches what the other one reads.
pub whitelist_entries-user_blacklist :
    (env : Env) (ds : List GoString) (e : Engine)
    → (whitelist_entries env ds e).user_blacklist ≡ e.user_blacklist
unfolding whitelist_entries whitelist_entry
whitelist_entries-user_blacklist env [] e = refl
whitelist_entries-user_blacklist env (d ∷ ds) e =
    whitelist_entries-user_blacklist env ds (whitelist_entry (split_rule env d) e)
    ∙ ap-if (λ (x : Engine). x.user_blacklist) (exact_of (split_rule env d)) _ _
    ∙ same _
  where
    same : (b : Bool) → (if b then e.user_blacklist else e.user_blacklist) ≡ e.user_blacklist
    same true = refl
    same false = refl

pub blacklist_entries-Allows :
    (env : Env) (r : Rule) (ds : List GoString) (e : Engine)
    → Allows r e
    → Allows r (blacklist_entries env ds e)
unfolding blacklist_entries blacklist_entry
blacklist_entries-Allows env r [] e h = h
blacklist_entries-Allows env r (d ∷ ds) e h =
    blacklist_entries-Allows env r ds _
      (either_way (Allows r) (exact_of (split_rule env d)) _ _ h h)
