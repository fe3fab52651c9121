-- ===== src/Filter/History.antt =====
-- internal/filter/engine.go: what holds of the engine after any history of calls.
use irongrid_dns.Prelude.{
  ◌≡◌, refl, ap, ◌∙◌, inl, inr, false, List, [], ◌∷◌, none, arith, Bool-cases,
}
use irongrid_dns.Bytes.{GoString}
use irongrid_dns.Filter.Rules.{Env}
use irongrid_dns.Filter.Engine.{
  Engine, RuleSet, new_engine, reset, set_user_lists, load_list, compile, add_ip_block,
  remove_ip_block,
}
use irongrid_dns.Filter.Decide.{check_ips, has_name}
use irongrid_dns.Filter.Runs.{
  IsEngine, new_engine-IsEngine, reset-IsEngine, set_user_lists-IsEngine, add_ip_block-IsEngine,
  remove_ip_block-IsEngine, load_list-IsEngine, compile-IsEngine,
}
use irongrid_dns.Shards.Table.{lookup}

-- The calls that change the engine.
pub data Call : Type 0 where
  user_lists : List GoString → List GoString → Call
  load : GoString → GoString → GoString → Call
  compile_all : Call
  reset_all : Call
  add_ip_rule : GoString → Call
  remove_ip_rule : GoString → Call

unfoldable pub call : Env → Call → Engine → Engine
call env (user_lists bl wl) e = set_user_lists env bl wl e
call env (load id name content) e = (load_list env id name content e).0
call env compile_all e = compile env e
call env reset_all e = reset e
call env (add_ip_rule ip) e = add_ip_block env ip e
call env (remove_ip_rule ip) e = remove_ip_block env ip e

unfoldable pub run : Env → List Call → Engine → Engine
run env [] e = e
run env (c ∷ cs) e = run env cs (call env c e)

call-IsEngine : (env : Env) (c : Call) (e : Engine) → IsEngine e → IsEngine (call env c e)
unfolding call
call-IsEngine env (user_lists bl wl) e i = set_user_lists-IsEngine env bl wl e i
call-IsEngine env (load id name content) e i = load_list-IsEngine env id name content e i
call-IsEngine env compile_all e i = compile-IsEngine env e i.working
call-IsEngine env reset_all e i = reset-IsEngine e
call-IsEngine env (add_ip_rule ip) e i = add_ip_block-IsEngine env ip e i
call-IsEngine env (remove_ip_rule ip) e i = remove_ip_block-IsEngine env ip e i

run-IsEngine : (env : Env) (cs : List Call) (e : Engine) → IsEngine e → IsEngine (run env cs e)
unfolding run
run-IsEngine env [] e i = i
run-IsEngine env (c ∷ cs) e i = run-IsEngine env cs (call env c e) (call-IsEngine env c e i)

-- After any history of calls on a new engine: the names of downloaded rules, in the working sets
-- and in the published ones, have a dot and none of the forbidden bytes; their number is at most
-- the total that is reported; the set of allowed addresses is empty; and the flag for address
-- rules says whether there are any.
pub run-new-IsEngine : (env : Env) (cs : List Call) → IsEngine (run env cs new_engine)
run-new-IsEngine env cs = run-IsEngine env cs new_engine new_engine-IsEngine

no_name : (s : GoString) → has_name s [] ≡ false
unfolding has_name lookup
no_name s = refl

check_ips-nothing :
    (rs : RuleSet) (ips : List GoString) → rs.block_ips ≡ [] → check_ips rs ips ≡ none
unfolding check_ips
check_ips-nothing rs [] none_blocked = refl
check_ips-nothing rs (s ∷ ss) none_blocked =
    let rest = check_ips-nothing rs ss none_blocked in
    let unblocked = ap (has_name s) none_blocked ∙ no_name s in
    elim (Bool-cases (has_name s rs.allow_ips)) [
      | inl allowed ↦ rw (allowed) rest
      | inr other ↦ rw (other, unblocked) rest
    ]

-- Where the flag says that there is no address rule, the check of the published rules that the
-- handler then leaves out would block nothing, after any history of calls.
pub gate-check_ips :
    (env : Env) (cs : List Call) (ips : List GoString)
    → (run env cs new_engine).has_ip_rules ≡ false
    → check_ips (run env cs new_engine).rs ips ≡ none
gate-check_ips env cs ips off =
    let i = run-new-IsEngine env cs in
    check_ips-nothing (run env cs new_engine).rs ips (elim i.gate [
      | inr none_blocked ↦ none_blocked
      | inl some_blocked ↦ absurd (ground (arith, off, i.flag, some_blocked))
    ])
