-- ===== src/Filter/Reload.antt =====
-- internal/filter/lists.go: what a reload publishes, and what a failed fetch leaves.
use irongrid_dns.Prelude.{
  either_way, ◌≡◌, refl, ap, ◌∙◌, inl, inr, not, List, [], ◌∷◌, ◌++◌, Option, none, some, arith,
  Bool-cases,
}
use irongrid_dns.Bytes.{GoString, is_empty}
use irongrid_dns.Shards.Table.{lookup}
use irongrid_dns.Filter.Rules.{Env, Rule, RegexRule, split_rule}
use irongrid_dns.Filter.Engine.{
  Engine, reset, snapshot, publish_locked, sync_ip_flag, absorb, load_list, exact_of,
  whitelist_entry, whitelist_entries, blacklist_entry, blacklist_entries, merge_regexes,
  rebuild_blacklist, compile,
}
use irongrid_dns.Filter.Lists.{
  ListSpec, StoredList, ListManager, reload_spec, reload_specs, reload_all, count_rules, specs_of,
  text_of,
}

-- What neither loop of `Compile` changes.
module _ {A : Type 0} (f : Engine → A) (env : Env) where
  whitelist_entries-frame :
      (same : (o : Option Rule) (e : Engine) → f (whitelist_entry o e) ≡ f e) (ds : List GoString)
      (e : Engine)
      → f (whitelist_entries env ds e) ≡ f e
  unfolding whitelist_entries
  whitelist_entries-frame same [] e = refl
  whitelist_entries-frame same (d ∷ ds) e =
      whitelist_entries-frame same ds _ ∙ same (split_rule env d) e

  blacklist_entries-frame :
      (same : (o : Option Rule) (e : Engine) → f (blacklist_entry o e) ≡ f e) (ds : List GoString)
      (e : Engine)
      → f (blacklist_entries env ds e) ≡ f e
  unfolding blacklist_entries
  blacklist_entries-frame same [] e = refl
  blacklist_entries-frame same (d ∷ ds) e =
      blacklist_entries-frame same ds _ ∙ same (split_rule env d) e

-- The regular expressions of an engine, by their sources.
abbrev regexes_of : Engine → List (List RegexRule)
regexes_of e = e.block_regex ∷ e.allow_regex ∷ e.list_block_regex ∷ e.list_allow_regex ∷ []

whitelist_entry-regexes_of :
    (o : Option Rule) (e : Engine) → regexes_of (whitelist_entry o e) ≡ regexes_of e
unfolding whitelist_entry
whitelist_entry-regexes_of o e =
    either_way (λ (x : Engine). regexes_of x ≡ regexes_of e) (exact_of o) _ _ refl refl

blacklist_entry-regexes_of :
    (o : Option Rule) (e : Engine) → regexes_of (blacklist_entry o e) ≡ regexes_of e
unfolding blacklist_entry
blacklist_entry-regexes_of o e =
    either_way (λ (x : Engine). regexes_of x ≡ regexes_of e) (exact_of o) _ _ refl refl

compile-regexes_of :
    (env : Env) (e : Engine)
    → ((compile env e).rs.block_regex
        ∷ (compile env e).rs.allow_regex
        ∷ (compile env e).list_block_regex
        ∷ (compile env e).list_allow_regex
        ∷ [])
      ≡ regexes_of (merge_regexes e)
unfolding compile publish_locked snapshot sync_ip_flag rebuild_blacklist
compile-regexes_of env e =
    blacklist_entries-frame regexes_of env blacklist_entry-regexes_of _ _
    ∙ whitelist_entries-frame regexes_of env whitelist_entry-regexes_of _ (merge_regexes e)

-- Reading lists leaves the user's regular expressions as they are.
abbrev user_regexes : Engine → List (List RegexRule)
user_regexes e = e.user_block_regex ∷ e.user_allow_regex ∷ []

load_list-user_regexes :
    (env : Env) (id name content : GoString) (e : Engine)
    → user_regexes (load_list env id name content e).0 ≡ user_regexes e
unfolding load_list absorb sync_ip_flag
load_list-user_regexes env id name content e = elim (Bool-cases (is_empty id)) [
  | inl bad ↦ rw (load_list, bad) refl
  | inr good ↦ rw (load_list, good) refl
]

count_rules-engine :
    (id : GoString) (stored : StoredList) (r : Engine × Option _) (m : ListManager)
    → (count_rules id stored r m).engine ≡ r.0
unfolding count_rules
count_rules-engine id stored (e, none) m = refl
count_rules-engine id stored (e, some res) m = refl

-- What reading lists keeps of the engine, the loop of `ReloadAll` keeps.
module _ (env : Env) (P : Engine → Type 0)
    (keeps : (id name content : GoString) (e : Engine)
      → P e
      → P (load_list env id name content e).0) where
  reload_spec-ind : (s : ListSpec) (m : ListManager) → P m.engine → P (reload_spec env s m).engine
  unfolding reload_spec
  reload_spec-ind s m p =
      either_way (λ (x : ListManager). P x.engine) (not s.enabled) _ _ p (go (lookup s.id m.store))
    where
      go :
          (o : Option StoredList)
          → P
              (elim o as (λ _. ListManager) [
                | none ↦ m
                | some stored ↦
                    count_rules s.id stored
                      (load_list env s.id s.name (text_of stored.content) m.engine)
                      m
              ]).engine
      go none = p
      go (some stored) =
          rw (count_rules-engine) (keeps s.id s.name (text_of stored.content) m.engine p)

  reload_specs-ind :
      (ss : List ListSpec) (m : ListManager) → P m.engine → P (reload_specs env ss m).engine
  unfolding reload_specs
  reload_specs-ind [] m p = p
  reload_specs-ind (s ∷ ss) m p = reload_specs-ind ss (reload_spec env s m) (reload_spec-ind s m p)

reset-user_regexes : (e : Engine) → user_regexes (reset e) ≡ [] ∷ [] ∷ []
unfolding reset
reset-user_regexes e = refl

append_nil : (rs : List RegexRule) → rs ++ [] ≡ rs
append_nil [] = refl
append_nil (r ∷ rs) = ap (λ (x : List RegexRule). r ∷ x) (append_nil rs)

compile_without_user :
    (env : Env) (e : Engine)
    → user_regexes e ≡ [] ∷ [] ∷ []
    → ((compile env e).rs.block_regex ≡ (compile env e).list_block_regex)
      × ((compile env e).rs.allow_regex ≡ (compile env e).list_allow_regex)
unfolding merge_regexes
compile_without_user env e none_left = ground (
  arith,
  none_left,
  compile-regexes_of env e,
  append_nil e.list_block_regex,
  append_nil e.list_allow_regex,
)

-- After `ReloadAll` the published regular expressions are those of the downloaded lists alone,
-- whatever regular expressions the user's lists had put into the engine before it.
pub reload_all-regexes :
    (env : Env) (m : ListManager)
    → ((reload_all env m).engine.rs.block_regex ≡ (reload_all env m).engine.list_block_regex)
      × ((reload_all env m).engine.rs.allow_regex ≡ (reload_all env m).engine.list_allow_regex)
unfolding reload_all
reload_all-regexes env m = compile_without_user env _ (
    reload_specs-ind env (λ e. user_regexes e ≡ [] ∷ [] ∷ [])
      (λ id name content e p. load_list-user_regexes env id name content e ∙ p) (specs_of m.store)
      (record m { engine = reset m.engine }) (reset-user_regexes m.engine))
