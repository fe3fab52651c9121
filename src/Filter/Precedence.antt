-- ===== src/Filter/Precedence.antt =====
-- internal/filter/engine.go: who wins after `Compile`.
use irongrid_dns.Prelude.{
  ℕ, zero, suc, ◌≡◌, refl, sym, ap, subst, ◌∙◌, inl, List, [], ◌∷◌, none, some, arith,
}
use irongrid_dns.Bytes.{GoString}
use irongrid_dns.Filter.Rules.{Env, Rule, split_rule}
use irongrid_dns.Filter.Engine.{
  Engine, snapshot, publish_locked, sync_ip_flag, whitelist_entries, blacklist_entries,
  merge_regexes, rebuild_blacklist, compile,
}
use irongrid_dns.Filter.Decide.{Action, decide_name, find_cover, find_parent, last_dot, has_name}
use irongrid_dns.Shards.Table.{lookup}
use irongrid_dns.Filter.Verdict.{Blacklisted, decide_name-block, decide_name-allow, not_Covered}
use irongrid_dns.Filter.UserLists.{
  Member, Applies, Blocks, Allows, Held, Held-Covered, blacklist_entries-Blocks,
  whitelist_entries-Allows, whitelist_entries-keeps, whitelist_entries-user_blacklist,
  blacklist_entries-Allows,
}

module _ (env : Env) (r : Rule) where
  -- A rule that holds before the publication holds in what is published.
  published-Blocks :
      (e : Engine)
      → Blocks r e
      → Held r
          (publish_locked (sync_ip_flag e)).rs.user_block_exact
          (publish_locked (sync_ip_flag e)).rs.user_block_domains
  unfolding publish_locked sync_ip_flag snapshot
  published-Blocks e h = h

  pub published-Allows :
      (e : Engine)
      → Allows r e
      → Held r
          (publish_locked (sync_ip_flag e)).rs.allow_exact
          (publish_locked (sync_ip_flag e)).rs.allow_domains
  unfolding publish_locked sync_ip_flag snapshot
  published-Allows e h = h

  pub compile-Allows :
      (e : Engine)
      → Allows r (whitelist_entries env e.user_whitelist (merge_regexes e))
      → Held r (compile env e).rs.allow_exact (compile env e).rs.allow_domains
  unfolding compile rebuild_blacklist merge_regexes
  compile-Allows e h = published-Allows _ (blacklist_entries-Allows env r _ _ h)

  pub compile-keeps : (e : Engine) → Allows r e → Allows r (compile env e)
  unfolding compile publish_locked sync_ip_flag rebuild_blacklist merge_regexes
  compile-keeps e h =
      blacklist_entries-Allows env r _ _
        (whitelist_entries-keeps env r e.user_whitelist (merge_regexes e) h)

  module _ (raw : GoString) (rule : split_rule env raw ≡ some r) (e : Engine) where
    compile-Blocks :
        Member raw e.user_blacklist
        → Held r (compile env e).rs.user_block_exact (compile env e).rs.user_block_domains
    unfolding compile rebuild_blacklist merge_regexes
    compile-Blocks m = published-Blocks _ (
        blacklist_entries-Blocks env r raw rule _ _
          (subst (Member raw) (sym (whitelist_entries-user_blacklist env _ (merge_regexes e))) m))

    -- An entry of the user's blacklist blocks its domain and, unless it is exact, every name below
    -- it, whatever the whitelist and the lists say.
    compile-blacklist :
        (q : GoString)
        → Member raw e.user_blacklist
        → Applies r q
        → (decide_name (compile env e).rs q).action ≡ Action.block
    compile-blacklist q m a =
        (decide_name-block (compile env e).rs q).1 (inl (Held-Covered r _ _ q a (compile-Blocks m)))

    -- An entry of the user's whitelist allows its domain and, unless it is exact, every name below
    -- it, whatever the downloaded lists say, where the user's blacklist does not cover the name.
    pub compile-whitelist :
        (q : GoString)
        → Member raw e.user_whitelist
        → Applies r q
        → ¬ Blacklisted (compile env e).rs q
        → (decide_name (compile env e).rs q).action ≡ Action.allow
    unfolding merge_regexes
    compile-whitelist q m a free = decide_name-allow (compile env e).rs q free (
        inl (
          Held-Covered r _ _ q a (
            compile-Allows e
              (whitelist_entries-Allows env r raw rule e.user_whitelist (merge_regexes e) m))))

    pub compile-still_Allows : Member raw e.user_whitelist → Allows r (compile env e)
    unfolding compile publish_locked sync_ip_flag rebuild_blacklist merge_regexes
    compile-still_Allows m =
        blacklist_entries-Allows env r _ _
          (whitelist_entries-Allows env r raw rule e.user_whitelist (merge_regexes e) m)

find_parent-nothing : (n : ℕ) (s : GoString) → find_parent [] n s ≡ none
unfolding find_parent has_name lookup
find_parent-nothing zero s = refl
find_parent-nothing (suc n) [] = refl
find_parent-nothing (suc n) (c ∷ s) = ground (arith, find_parent-nothing n s)

find_cover-nothing : (q : GoString) → find_cover [] [] q ≡ none
unfolding find_cover has_name lookup
find_cover-nothing q = find_parent-nothing (last_dot q) q

blacklist_entries-nothing :
    (env : Env) (ds : List GoString) (e : Engine) → ds ≡ [] → blacklist_entries env ds e ≡ e
unfolding blacklist_entries
blacklist_entries-nothing env ds e none_listed = rw none_listed refl

-- Without a blacklist nothing is on it.
pub compile-no_blacklist :
    (env : Env) (e : Engine) (q : GoString)
    → e.user_blacklist ≡ []
    → ¬ Blacklisted (compile env e).rs q
unfolding compile rebuild_blacklist merge_regexes publish_locked sync_ip_flag snapshot
compile-no_blacklist env e q none_listed =
    let e' = whitelist_entries env e.user_whitelist (merge_regexes e) in
    let x : Engine = record e' { user_block_exact = []; user_block_domains = [] } in
    not_Covered _ _ q (
      ap (λ (y : Engine). find_cover y.user_block_exact y.user_block_domains q)
        (blacklist_entries-nothing env e'.user_blacklist x
          (whitelist_entries-user_blacklist env _ (merge_regexes e) ∙ none_listed))
      ∙ find_cover-nothing q)
