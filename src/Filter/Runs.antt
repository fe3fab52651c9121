-- ===== src/Filter/Runs.antt =====
-- internal/filter/engine.go: what each call keeps of the engine.
use irongrid_dns.Prelude.{
  either_way, ℕ, ◌<◌, ◌≡◌, refl, ap, ◌⊎◌, inl, inr, List, [], ◌∷◌, Option, arith, ltb, length,
  Bool-cases, Option-cases,
}
use irongrid_dns.Bytes.{GoString, is_empty}
use irongrid_dns.Shards.Table.{Table, insert, delete, length-delete-le}
use irongrid_dns.Filter.Rules.{Env, Rule, split_rule}
use irongrid_dns.Filter.Parse.{NameSet, add_name, Target, parse_content}
use irongrid_dns.Filter.Invariant.{IsRules, Kept, parse_content-Kept, delete-AllDomains}
use irongrid_dns.Filter.Engine.{
  Engine, new_engine, reset, snapshot, publish_locked, sync_ip_flag, set_user_lists, target, absorb,
  load_list, exact_of, domain_of, whitelist_entry, whitelist_entries, blacklist_entry,
  blacklist_entries, merge_regexes, rebuild_blacklist, compile, add_ip_block, remove_ip_block,
}

-- The working state.
pub record IsWorking (e : Engine) : Type 0 where
  pub rules :
      IsRules e.block_domains e.block_exact (length e.list_block_regex) e.total_blocked_domains
  pub no_allowed_ips : e.allow_ips ≡ []

-- The flag that lets the handler skip the addresses, and the snapshot.
pub record IsEngine (e : Engine) : Type 0 where
  pub working : IsWorking e
  pub flag : e.has_ip_rules ≡ ltb 0 (length e.block_ips)
  pub published : IsRules e.rs.block_domains e.rs.block_exact 0 e.rs.total_blocked_domains
  pub none_allowed : e.rs.allow_ips ≡ []
  pub gate : (0 < length e.block_ips) ⊎ (e.rs.block_ips ≡ [])

no-IsRules : (total : ℕ) → IsRules [] [] 0 total
no-IsRules total = record { domain_names = tt; exact_names = tt; counted = omega arith }

pub new_engine-IsEngine : IsEngine new_engine
unfolding new_engine
new_engine-IsEngine = record {
  working = record { rules = no-IsRules 0; no_allowed_ips = refl };
  flag = refl;
  published = no-IsRules 0;
  none_allowed = refl;
  gate = inr refl;
}

pub reset-IsEngine : (e : Engine) → IsEngine (reset e)
unfolding reset
reset-IsEngine e = record {
  working = record { rules = no-IsRules 0; no_allowed_ips = refl };
  flag = refl;
  published = no-IsRules 0;
  none_allowed = refl;
  gate = inr refl;
}

pub set_user_lists-IsEngine :
    (env : Env) (bl wl : List GoString) (e : Engine)
    → IsEngine e
    → IsEngine (set_user_lists env bl wl e)
unfolding set_user_lists
set_user_lists-IsEngine env bl wl e i = record {
  working = record { rules = i.working.rules; no_allowed_ips = i.working.no_allowed_ips };
  flag = i.flag;
  published = i.published;
  none_allowed = i.none_allowed;
  gate = i.gate;
}

filled_or_empty : (m : NameSet) → (0 < length m) ⊎ (m ≡ [])
filled_or_empty [] = inr refl
filled_or_empty (x ∷ m) = inl (omega arith)

-- Publishing a working state makes an engine of it.
published-IsEngine : (e : Engine) → IsWorking e → IsEngine (publish_locked (sync_ip_flag e))
unfolding publish_locked snapshot sync_ip_flag
published-IsEngine e w = record {
  working = record { rules = w.rules; no_allowed_ips = w.no_allowed_ips };
  flag = ground (arith, ap length w.no_allowed_ips);
  published = record {
    domain_names = w.rules.domain_names;
    exact_names = w.rules.exact_names;
    counted = omega (arith, w.rules.counted);
  };
  none_allowed = w.no_allowed_ips;
  gate = filled_or_empty e.block_ips;
}

pub add_ip_block-IsEngine :
    (env : Env) (ip : GoString) (e : Engine) → IsEngine e → IsEngine (add_ip_block env ip e)
unfolding add_ip_block
add_ip_block-IsEngine env ip e i = elim (Option-cases (env.parse_ip ip)) [
  | inl bad ↦ rw (add_ip_block, bad) i
  | inr (s, good) ↦
      rw (add_ip_block, good)
        (published-IsEngine (record e { block_ips = add_name s e.block_ips })
          (record { rules = i.working.rules; no_allowed_ips = i.working.no_allowed_ips }))
]

pub remove_ip_block-IsEngine :
    (env : Env) (ip : GoString) (e : Engine) → IsEngine e → IsEngine (remove_ip_block env ip e)
unfolding remove_ip_block
remove_ip_block-IsEngine env ip e i = elim (Option-cases (env.parse_ip ip)) [
  | inl bad ↦ rw (remove_ip_block, bad) i
  | inr (s, good) ↦
      rw (remove_ip_block, good)
        (published-IsEngine (record e { block_ips = delete s e.block_ips })
          (record { rules = i.working.rules; no_allowed_ips = i.working.no_allowed_ips }))
]

-- The sets of a working state, before a list is read into them.
target-Kept :
    (e : Engine) → IsWorking e → Kept e.total_blocked_domains (length e.block_ips) (target e)
unfolding target
target-Kept e w = record {
  rules = record {
    domain_names = w.rules.domain_names;
    exact_names = w.rules.exact_names;
    counted = omega (arith, w.rules.counted);
  };
  grown = omega arith;
}

absorb-IsEngine :
    (t : Target) (e : Engine)
    → Kept e.total_blocked_domains (length e.block_ips) t
    → IsEngine e
    → IsEngine (sync_ip_flag (absorb t e))
unfolding absorb sync_ip_flag
absorb-IsEngine t e k i = record {
  working = record { rules = k.rules; no_allowed_ips = i.working.no_allowed_ips };
  flag = ground (arith, ap length i.working.no_allowed_ips);
  published = i.published;
  none_allowed = i.none_allowed;
  gate = elim i.gate [
    | inl some_ip ↦ inl (omega (arith, some_ip, k.grown))
    | inr none_ip ↦ inr none_ip
  ];
}

named-IsEngine :
    (names : Table GoString) (e : Engine) → IsEngine e → IsEngine (record e { list_names = names })
named-IsEngine names e i = record {
  working = record { rules = i.working.rules; no_allowed_ips = i.working.no_allowed_ips };
  flag = i.flag;
  published = i.published;
  none_allowed = i.none_allowed;
  gate = i.gate;
}

pub load_list-IsEngine :
    (env : Env) (id name content : GoString) (e : Engine)
    → IsEngine e
    → IsEngine (load_list env id name content e).0
unfolding load_list
load_list-IsEngine env id name content e i = elim (Bool-cases (is_empty id)) [
  | inl bad ↦ rw (load_list, bad) i
  | inr good ↦
      let named : Engine = record e { list_names = insert id name e.list_names } in
      rw (load_list, good)
        (absorb-IsEngine (parse_content env content id (target named)) named
          (parse_content-Kept e.total_blocked_domains (length e.block_ips) env content id
            (target named)
            (target-Kept named (named-IsEngine (insert id name e.list_names) e i).working))
          (named-IsEngine (insert id name e.list_names) e i))
]

whitelist_entry-IsWorking :
    (r : Option Rule) (e : Engine) → IsWorking e → IsWorking (whitelist_entry r e)
unfolding whitelist_entry
whitelist_entry-IsWorking r e w =
    let k = domain_of r in
    let exact = delete-AllDomains k e.block_exact w.rules.exact_names in
    either_way IsWorking (exact_of r) _ _
      (record {
        rules = record {
          domain_names = w.rules.domain_names;
          exact_names = exact;
          counted = omega (arith, w.rules.counted, length-delete-le k e.block_exact);
        };
        no_allowed_ips = w.no_allowed_ips;
      })
      (record {
        rules = record {
          domain_names = delete-AllDomains k e.block_domains w.rules.domain_names;
          exact_names = exact;
          counted = omega (
            arith,
            w.rules.counted,
            length-delete-le k e.block_exact,
            length-delete-le k e.block_domains,
          );
        };
        no_allowed_ips = w.no_allowed_ips;
      })

whitelist_entries-IsWorking :
    (env : Env) (ds : List GoString) (e : Engine)
    → IsWorking e
    → IsWorking (whitelist_entries env ds e)
unfolding whitelist_entries
whitelist_entries-IsWorking env [] e w = w
whitelist_entries-IsWorking env (d ∷ ds) e w =
    whitelist_entries-IsWorking env ds _ (whitelist_entry-IsWorking (split_rule env d) e w)

blacklist_entry-IsWorking :
    (r : Option Rule) (e : Engine) → IsWorking e → IsWorking (blacklist_entry r e)
unfolding blacklist_entry
blacklist_entry-IsWorking r e w =
    either_way IsWorking (exact_of r) _ _
      (record { rules = w.rules; no_allowed_ips = w.no_allowed_ips })
      (record { rules = w.rules; no_allowed_ips = w.no_allowed_ips })

blacklist_entries-IsWorking :
    (env : Env) (ds : List GoString) (e : Engine)
    → IsWorking e
    → IsWorking (blacklist_entries env ds e)
unfolding blacklist_entries
blacklist_entries-IsWorking env [] e w = w
blacklist_entries-IsWorking env (d ∷ ds) e w =
    blacklist_entries-IsWorking env ds _ (blacklist_entry-IsWorking (split_rule env d) e w)

merge_regexes-IsWorking : (e : Engine) → IsWorking e → IsWorking (merge_regexes e)
unfolding merge_regexes
merge_regexes-IsWorking e w = record { rules = w.rules; no_allowed_ips = w.no_allowed_ips }

rebuild_blacklist-IsWorking :
    (env : Env) (e : Engine) → IsWorking e → IsWorking (rebuild_blacklist env e)
unfolding rebuild_blacklist
rebuild_blacklist-IsWorking env e w =
    blacklist_entries-IsWorking env e.user_blacklist _
      (record { rules = w.rules; no_allowed_ips = w.no_allowed_ips })

pub compile-IsEngine : (env : Env) (e : Engine) → IsWorking e → IsEngine (compile env e)
unfolding compile
compile-IsEngine env e w = published-IsEngine _ (
    rebuild_blacklist-IsWorking env _ (
      whitelist_entries-IsWorking env (merge_regexes e).user_whitelist _
        (merge_regexes-IsWorking e w)))
