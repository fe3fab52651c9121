-- ===== src/Filter/Survives.antt =====
-- internal/filter/engine.go: an entry of the whitelist after it has been compiled.
use irongrid_dns.Prelude.{
  either_way, ◌≡◌, inl, inr, Bool, true, false, List, [], ◌∷◌, Option, none, some, arith,
  Bool-cases, Option-cases,
}
use irongrid_dns.Bytes.{GoString, is_empty}
use irongrid_dns.Shards.Table.{insert}
use irongrid_dns.Filter.Rules.{Env, RegexRule, Rule, split_rule}
use irongrid_dns.Filter.Parse.{
  NameSet, add_name, Target, add_block, add_exception, add_ip, add_block_regex, add_allow_regex,
  parse_content,
}
use irongrid_dns.Filter.Loads.{parse_content-ind}
use irongrid_dns.Filter.Engine.{
  Engine, absorb, target, sync_ip_flag, publish_locked, snapshot, set_user_lists, load_list,
  compile, merge_regexes, add_ip_block, remove_ip_block,
}
use irongrid_dns.Filter.Decide.{Action, decide_name}
use irongrid_dns.Filter.Verdict.{Blacklisted, decide_name-allow}
use irongrid_dns.Filter.UserLists.{
  Member, Applies, Allows, Held, Held-Covered, has_name-add_old, whitelist_entries-keeps,
  whitelist_entries-Allows,
}
use irongrid_dns.Filter.Precedence.{compile-Allows, compile-still_Allows, compile-keeps}
use irongrid_dns.Filter.History.{Call, call, run}

-- The calls but `Reset`.
unfoldable pub is_reset : Call → Bool
is_reset Call.reset_all = true
is_reset (Call.user_lists _ _) = false
is_reset (Call.load _ _ _) = false
is_reset Call.compile_all = false
is_reset (Call.add_ip_rule _) = false
is_reset (Call.remove_ip_rule _) = false

abbrev pub NoReset : List Call → Type 0
NoReset [] = Unit
NoReset (c ∷ cs) = (is_reset c ≡ false) × NoReset cs

module _ (env : Env) (r : Rule) where
  -- The rule stands in the working sets and in those that are published.
  abbrev InForce : Engine → Type 0
  InForce e = Allows r e × Held r e.rs.allow_exact e.rs.allow_domains

  Held-add_exact :
      (k : GoString) (exact domains : NameSet)
      → Held r exact domains
      → Held r (add_name k exact) domains
  Held-add_exact k exact domains h = elim (Bool-cases r.exact_only) [
    | inl e ↦ rw e (has_name-add_old r.domain k exact (ground (arith, h, e)))
    | inr w ↦ rw w (ground (arith, h, w))
  ]

  Held-add_wide :
      (k : GoString) (exact domains : NameSet)
      → Held r exact domains
      → Held r exact (add_name k domains)
  Held-add_wide k exact domains h = elim (Bool-cases r.exact_only) [
    | inl e ↦ rw e (ground (arith, h, e))
    | inr w ↦ rw w (has_name-add_old r.domain k domains (ground (arith, h, w)))
  ]

  -- A list that is loaded takes no exception away.
  parse_content-Held :
      (id content : GoString) (t : Target)
      → Held r t.allow_exact t.allow
      → let t' = parse_content env content id t in Held r t'.allow_exact t'.allow
  unfolding add_block add_exception add_ip add_block_regex add_allow_regex
  parse_content-Held id content =
      parse_content-ind env id P (λ s t _ h. either_way P s.exact_only _ _ h h)
        (λ s t _ h.
          either_way P s.exact_only _ _ (Held-add_exact s.domain _ _ h)
            (Held-add_wide s.domain _ _ h))
        (λ s t h. h) block_rx allow_rx content
    where
      P : Target → Type 0
      P t = Held r t.allow_exact t.allow

      block_rx : (x : Option RegexRule) (t : Target) → P t → P (add_block_regex x t)
      block_rx none t h = h
      block_rx (some _) t h = h

      allow_rx : (x : Option RegexRule) (t : Target) → P t → P (add_allow_regex x t)
      allow_rx none t h = h
      allow_rx (some _) t h = h

  load_list-InForce :
      (id name content : GoString) (e : Engine)
      → InForce e
      → InForce (load_list env id name content e).0
  unfolding load_list absorb sync_ip_flag target
  load_list-InForce id name content e (held, out) = elim (Bool-cases (is_empty id)) [
    | inl no_id ↦ rw (load_list, no_id) (held, out)
    | inr given ↦
        rw (load_list, given)
          (
            parse_content-Held id content
                (target (record e { list_names = insert id name e.list_names })) held,
            out,
          )
  ]

  add_ip_block-InForce : (ip : GoString) (e : Engine) → InForce e → InForce (add_ip_block env ip e)
  unfolding add_ip_block publish_locked sync_ip_flag snapshot
  add_ip_block-InForce ip e (held, out) = elim (Option-cases (env.parse_ip ip)) [
    | inl bad ↦ rw (add_ip_block, bad) (held, out)
    | inr (s, good) ↦ rw (add_ip_block, good) (held, held)
  ]

  remove_ip_block-InForce :
      (ip : GoString) (e : Engine) → InForce e → InForce (remove_ip_block env ip e)
  unfolding remove_ip_block publish_locked sync_ip_flag snapshot
  remove_ip_block-InForce ip e (held, out) = elim (Option-cases (env.parse_ip ip)) [
    | inl bad ↦ rw (remove_ip_block, bad) (held, out)
    | inr (s, good) ↦ rw (remove_ip_block, good) (held, held)
  ]

  call-InForce : (c : Call) (e : Engine) → is_reset c ≡ false → InForce e → InForce (call env c e)
  unfolding call is_reset set_user_lists merge_regexes
  call-InForce (Call.user_lists bl wl) e n i = i
  call-InForce (Call.load id name content) e n i = load_list-InForce id name content e i
  call-InForce Call.compile_all e n i = (
    compile-keeps env r e i.0,
    compile-Allows env r e (whitelist_entries-keeps env r _ (merge_regexes e) i.0),
  )
  call-InForce Call.reset_all e n i = absurd (ground (arith, n))
  call-InForce (Call.add_ip_rule ip) e n i = add_ip_block-InForce ip e i
  call-InForce (Call.remove_ip_rule ip) e n i = remove_ip_block-InForce ip e i

  run-InForce : (cs : List Call) (e : Engine) → NoReset cs → InForce e → InForce (run env cs e)
  unfolding run
  run-InForce [] e n i = i
  run-InForce (c ∷ cs) e n i = run-InForce cs (call env c e) n.1 (call-InForce c e n.0 i)

-- An entry of the user's whitelist that has been compiled stays in force through any calls on the
-- engine other than a reset, whatever lists the user sets and however often they are compiled: the
-- names that it applies to are allowed, where the published blacklist does not cover them.
pub whitelist_survives :
    (env : Env) (r : Rule) (raw : GoString) (e : Engine) (cs : List Call) (q : GoString)
    → split_rule env raw ≡ some r
    → Member raw e.user_whitelist
    → Applies r q
    → NoReset cs
    → ¬ Blacklisted (run env cs (compile env e)).rs q
    → (decide_name (run env cs (compile env e)).rs q).action ≡ Action.allow
whitelist_survives env r raw e cs q rule m a no_reset free =
    let published =
      compile-Allows env r e (whitelist_entries-Allows env r raw rule _ (merge_regexes e) m) in
    let now =
      run-InForce env r cs (compile env e) no_reset
        (compile-still_Allows env r raw rule e m, published) in
    decide_name-allow (run env cs (compile env e)).rs q free (inl (Held-Covered r _ _ q a now.1))
