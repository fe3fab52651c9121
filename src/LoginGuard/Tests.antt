-- ===== src/LoginGuard/Tests.antt =====
-- The theorems about the login guard at concrete inputs.
use irongrid_dns.Prelude.{
  ◌+◌, ◌-◌, ◌*◌, ◌≡◌, refl, true, false, ◌&&◌, [], ◌∷◌, arith, ltb, leb, if◌then◌else◌,
}
use irongrid_dns.Bytes.{GoString, ascii, is_empty}
use irongrid_dns.Clock.{minute}
use irongrid_dns.Shards.Table.{lookup, shard}
use irongrid_dns.LoginGuard.{LoginGuard, login_lockout_for, login_max_failures, locked}
use irongrid_dns.LoginGuard.Lockout.{fail_many, lockout}

abbrev client : GoString
client = ascii "10.0.0.7"

named : is_empty client ≡ false
unfolding is_empty
named = refl

abbrev guard : LoginGuard
guard = record { shards = λ _. [] }

lockout_example :
    locked (fail_many guard client (1 ∷ 2 ∷ 3 ∷ 4 ∷ minute ∷ [])) client (2 * minute) ≡ (
      if leb login_max_failures 5 && ltb (2 * minute) (minute + login_lockout_for)
      then (true, minute + login_lockout_for - 2 * minute)
      else (false, 0))
unfolding lookup shard
lockout_example =
    lockout client named guard 1 (2 ∷ 3 ∷ 4 ∷ minute ∷ []) (2 * minute) tt refl (omega arith)
      (omega arith)
