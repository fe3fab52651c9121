-- ===== src/Banner/Invariant.antt =====
-- internal/geoip/banner.go: the table follows the entries.
use irongrid_dns.Prelude.{
  either_way, ◌≡◌, refl, sym, ap, ◌∙◌, inl, inr, Bool, true, false, not, List, [], ◌∷◌, Option,
  none, some, arith, Bool-cases, Option-cases,
}
use irongrid_dns.Bytes.{GoString, is_empty}
use irongrid_dns.Text.{trim_space}
use irongrid_dns.Shards.Table.{delete}
use irongrid_dns.Filter.Parse.{NameSet}
use irongrid_dns.Filter.Decide.{has_name}
use irongrid_dns.Clients.Acl.{Net}
use irongrid_dns.Geoip.Nets.{table_of_nets}
use irongrid_dns.Banner.{
  PrefixLib, Banner, nets_of, rebuild_table, prune_each, prune_auto, is_allowed, persist,
  new_banner, set_asns, block_address, block, unblock,
}

-- The table was built from the networks of the entries as they are.
pub record IsInSync (lib : PrefixLib) (b : Banner) : Type 0 where
  pub table : b.table ≡ table_of_nets (nets_of lib b.raw)

pub rebuild_table-IsInSync : (lib : PrefixLib) (b : Banner) → IsInSync lib (rebuild_table lib b)
unfolding rebuild_table
rebuild_table-IsInSync lib b = record { table = refl }

pub persist-IsInSync : (lib : PrefixLib) (b : Banner) → IsInSync lib b → IsInSync lib (persist b)
unfolding persist
persist-IsInSync lib b i =
    either_way (IsInSync lib) (is_empty b.path) _ _ i (record { table = i.table })

module _ (lib : PrefixLib) (k : GoString) (t : Unit) (auto : NameSet) (b : Banner)
    (changed : Bool) where
  no_address :
      lib.parse_ip k ≡ none
      → prune_each lib ((k, t) ∷ auto) b changed ≡ prune_each lib auto b changed
  unfolding prune_each
  no_address bad = rw (prune_each, bad) refl

  stays :
      (ip : GoString)
      → lib.parse_ip k ≡ some ip
      → is_allowed b ip ≡ false
      → prune_each lib ((k, t) ∷ auto) b changed ≡ prune_each lib auto b changed
  unfolding prune_each
  stays ip good off = rw (prune_each, good, off) refl

  goes :
      (ip : GoString)
      → lib.parse_ip k ≡ some ip
      → is_allowed b ip ≡ true
      → prune_each lib ((k, t) ∷ auto) b changed
        ≡ prune_each lib auto (record b { auto = delete k b.auto; raw = delete k b.raw }) true
  unfolding prune_each
  goes ip good on = rw (prune_each, good, on) refl

-- A change is reported at the end.
prune_each-changed :
    (lib : PrefixLib) (auto : NameSet) (b : Banner) → (prune_each lib auto b true).1 ≡ true
unfolding prune_each
prune_each-changed lib [] b = refl
prune_each-changed lib ((k, t) ∷ auto) b = elim (Option-cases (lib.parse_ip k)) [
  | inl bad ↦ ap (λ r. r.1) (no_address lib k t auto b true bad) ∙ prune_each-changed lib auto b
  | inr (ip, good) ↦ elim (Bool-cases (is_allowed b ip)) [
    | inr off ↦
        ap (λ r. r.1) (stays lib k t auto b true ip good off) ∙ prune_each-changed lib auto b
    | inl on ↦ ap (λ r. r.1) (goes lib k t auto b true ip good on) ∙ prune_each-changed lib auto _
  ]
]

-- A loop that reports no change has made none.
prune_each-unchanged :
    (lib : PrefixLib) (auto : NameSet) (b : Banner) (changed : Bool)
    → (prune_each lib auto b changed).1 ≡ false
    → (prune_each lib auto b changed).0 ≡ b
unfolding prune_each
prune_each-unchanged lib [] b changed e = refl
prune_each-unchanged lib ((k, t) ∷ auto) b changed e = elim (Option-cases (lib.parse_ip k)) [
  | inl bad ↦
      let same = no_address lib k t auto b changed bad in
      ap (λ r. r.0) same ∙ prune_each-unchanged lib auto b changed (sym (ap (λ r. r.1) same) ∙ e)
  | inr (ip, good) ↦ elim (Bool-cases (is_allowed b ip)) [
    | inr off ↦
        let same = stays lib k t auto b changed ip good off in
        ap (λ r. r.0) same ∙ prune_each-unchanged lib auto b changed (sym (ap (λ r. r.1) same) ∙ e)
    | inl on ↦ absurd (
        ground (
          arith,
          e,
          ap (λ r. r.1) (goes lib k t auto b changed ip good on),
          prune_each-changed lib auto (record b { auto = delete k b.auto; raw = delete k b.raw }),
        ))
  ]
]

prune_auto-IsInSync :
    (lib : PrefixLib) (b : Banner) → IsInSync lib b → IsInSync lib (prune_auto lib b)
unfolding prune_auto
prune_auto-IsInSync lib b i = elim (Bool-cases (prune_each lib b.auto b false).1) [
  | inl changed ↦ rw changed (rebuild_table-IsInSync lib _)
  | inr unchanged ↦ rw (unchanged, prune_each-unchanged lib b.auto b false unchanged) i
]

block_address-IsInSync :
    (lib : PrefixLib) (ip : GoString) (b : Banner)
    → IsInSync lib b
    → IsInSync lib (block_address lib ip b).0
unfolding block_address
block_address-IsInSync lib ip b i =
    either_way (λ (r : Banner × Bool). IsInSync lib r.0) (is_allowed b ip) _ _ i
      (either_way (λ (r : Banner × Bool). IsInSync lib r.0) (has_name ip b.raw) _ _ i
        (persist-IsInSync lib _ (rebuild_table-IsInSync lib _)))

-- The calls that change a banner.
pub data Call : Type 0 where
  set_lists : Option Net → Option Net → Call
  ban : GoString → Call
  pardon : GoString → Call

unfoldable pub call : PrefixLib → Call → Banner → Banner
call lib (set_lists allow asns) b = set_asns lib allow asns b
call lib (ban client) b = (block lib client b).0
call lib (pardon client) b = (unblock lib client b).0

unfoldable pub call_all : PrefixLib → List Call → Banner → Banner
call_all lib [] b = b
call_all lib (c ∷ cs) b = call_all lib cs (call lib c b)

call-IsInSync :
    (lib : PrefixLib) (c : Call) (b : Banner) → IsInSync lib b → IsInSync lib (call lib c b)
unfolding call set_asns block unblock
call-IsInSync lib (set_lists allow asns) b i =
    prune_auto-IsInSync lib _ (record { table = i.table })
call-IsInSync lib (ban client) b i =
    elim (Option-cases (lib.parse_ip (trim_space lib.unicode client))) [
      | inl bad ↦ rw (call, block, bad) i
      | inr (ip, good) ↦ rw (call, block, good) (block_address-IsInSync lib ip b i)
    ]
call-IsInSync lib (pardon client) b i =
    elim (Option-cases (lib.parse_ip (trim_space lib.unicode client))) [
      | inl bad ↦ rw (call, unblock, bad) i
      | inr (ip, good) ↦
          rw (call, unblock, good)
            (either_way (λ (r : Banner × Bool). IsInSync lib r.0) (not (has_name ip b.auto)) _ _ i
              (persist-IsInSync lib _ (rebuild_table-IsInSync lib _)))
    ]

call_all-IsInSync :
    (lib : PrefixLib) (cs : List Call) (b : Banner)
    → IsInSync lib b
    → IsInSync lib (call_all lib cs b)
unfolding call_all
call_all-IsInSync lib [] b i = i
call_all-IsInSync lib (c ∷ cs) b i = call_all-IsInSync lib cs _ (call-IsInSync lib c b i)

-- After any calls the table is the one of the networks of the entries.
pub run-new-IsInSync :
    (lib : PrefixLib) (path : GoString) (file allowlist ips honeypots : List GoString)
    (cs : List Call)
    → IsInSync lib (call_all lib cs (new_banner lib path file allowlist ips honeypots))
unfolding new_banner
run-new-IsInSync lib path file allowlist ips honeypots cs =
    call_all-IsInSync lib cs _ (rebuild_table-IsInSync lib _)
