-- ===== src/Banner/Bans.antt =====
-- internal/geoip/banner.go: a ban of an address.
use irongrid_dns.Prelude.{
  ℕ, Option, either_way, ◌≡◌, refl, sym, ap, subst, ◌∙◌, inl, inr, true, false, List, [], ◌∷◌, none,
  some, arith, Bool-cases, Option-cases,
}
use irongrid_dns.Bytes.{GoString, is_empty, str_eq, str_eq_iff}
use irongrid_dns.Text.{trim_space}
use irongrid_dns.Shards.Table.{lookup, lookup-insert_self}
use irongrid_dns.Filter.Parse.{NameSet, add_name}
use irongrid_dns.Filter.Decide.{has_name}
use irongrid_dns.Clients.Acl.{any_contains}
use irongrid_dns.Geoip.Nets.{IpNet, table_of_nets, table_contains}
use irongrid_dns.Geoip.Held.{Among, table_contains-narrow, table_contains-wide}
use irongrid_dns.Banner.{
  host_ip_net, PrefixLib, Banner, nets_of, parse_ban, rebuild_table, is_allowed, in_asns, add_raw,
  add_canonical, persist, BlockSource, new_banner, block, block_address, blocked_as,
}
use irongrid_dns.Banner.Invariant.{IsInSync, Call, call_all, run-new-IsInSync}

has_name-add_name : (k : GoString) (m : NameSet) → has_name k (add_name k m) ≡ true
unfolding has_name
has_name-add_name k m = ground (arith, lookup-insert_self k tt m)

allowed_parts :
    (b : Banner) (ip : GoString)
    → is_allowed b ip ≡ false
    → (any_contains b.allow ip ≡ false) × (in_asns b.asn_allow ip ≡ false)
unfolding is_allowed
allowed_parts b ip off = elim (Bool-cases (any_contains b.allow ip)) [
  | inl on ↦ absurd (ground (arith, on, off))
  | inr no_net ↦ (no_net, ground (arith, no_net, off))
]

-- An address in its own form.
abbrev pub IsHost : PrefixLib → GoString → Type 0
IsHost lib ip = (is_empty ip ≡ false) × (lib.parse_ip ip ≡ some ip) × (lib.parse_prefix ip ≡ none)

module _ (lib : PrefixLib) (ip : GoString) (host : IsHost lib ip) where
  parse_ban-host : parse_ban lib ip ≡ some (ip, host_ip_net lib ip)
  unfolding parse_ban
  parse_ban-host = rw (parse_ban, host.2, host.1) refl

  nets_of-host : (raw : NameSet) → Among (host_ip_net lib ip) (nets_of lib ((ip, tt) ∷ raw))
  unfolding nets_of
  nets_of-host raw = rw (nets_of, parse_ban-host) (inl refl)

  nets_of-later :
      (j : GoString) (t : Unit) (raw : NameSet)
      → Among (host_ip_net lib ip) (nets_of lib raw)
      → Among (host_ip_net lib ip) (nets_of lib ((j, t) ∷ raw))
  unfolding nets_of
  nets_of-later j t raw h = elim (Option-cases (parse_ban lib j)) [
    | inl bad ↦ rw (nets_of, bad) h
    | inr ((text, n), good) ↦ rw (nets_of, good) (inr h)
  ]

  nets_of-has :
      (raw : NameSet) → has_name ip raw ≡ true → Among (host_ip_net lib ip) (nets_of lib raw)
  unfolding has_name lookup
  nets_of-has [] there = absurd (ground (arith, there))
  nets_of-has ((j, t) ∷ raw) there = elim (Bool-cases (str_eq j ip)) [
    | inl same ↦
        subst (λ k. Among (host_ip_net lib ip) (nets_of lib ((k, tt) ∷ raw)))
          (sym ((str_eq_iff j ip).0 same)) (nets_of-host raw)
    | inr other ↦ nets_of-later j t raw (nets_of-has raw (ground (arith, there, other)))
  ]

  -- A table of networks among which the address is one finds it, in either family.
  table_of_nets-host :
      (ns : List IpNet)
      → Among (host_ip_net lib ip) ns
      → table_contains (lib.to4 ip) (lib.to16 ip) (table_of_nets ns) ≡ true
  unfolding host_ip_net
  table_of_nets-host ns m = elim (Option-cases (lib.to4 ip)) [
    | inl six ↦
        subst (λ o. table_contains o (lib.to16 ip) (table_of_nets ns) ≡ true) (sym six)
          (table_contains-wide (family none) ns (lib.to16 ip) refl refl refl
            (subst (λ o. Among (family o) ns) six m))
    | inr (x, four) ↦
        subst (λ o. table_contains o (lib.to16 ip) (table_of_nets ns) ≡ true) (sym four)
          (table_contains-narrow (family (some x)) ns x (lib.to16 ip) refl refl refl
            (subst (λ o. Among (family o) ns) four m))
  ]
    where
      family : Option ℕ → IpNet
      family o = elim o [
        | some x ↦ record { is_wide = false; address = x; ones = 32; has_ip = lib.host_net ip }
        | none ↦ record {
          is_wide = true;
          address = lib.to16 ip;
          ones = 128;
          has_ip = lib.host_net ip;
        }
      ]

  blocked_as-ip :
      (b : Banner)
      → is_allowed b ip ≡ false
      → table_contains (lib.to4 ip) (lib.to16 ip) b.table ≡ true
      → blocked_as lib b ip ≡ some BlockSource.by_ip
  unfolding blocked_as
  blocked_as-ip b off held =
      let (no_net, no_asn) = allowed_parts b ip off in
      rw (blocked_as, host.1, no_asn, no_net, held) refl

  add_raw-host :
      (b : Banner) → has_name ip b.raw ≡ false → (add_raw lib ip true b).raw ≡ add_name ip b.raw
  unfolding add_raw add_canonical
  add_raw-host b absent = rw (add_raw, add_canonical, host.0, parse_ban-host, absent) refl

  add_raw-is_allowed : (b : Banner) → is_allowed (add_raw lib ip true b) ip ≡ is_allowed b ip
  unfolding add_raw add_canonical is_allowed
  add_raw-is_allowed b =
      rw (add_raw, host.0, parse_ban-host)
        (either_way (λ c. is_allowed c ip ≡ is_allowed b ip) (has_name ip b.raw) _ _ refl refl)

  -- The table is built again, and the file is written or not.
  rebuilt :
      (a : Banner)
      → is_allowed a ip ≡ false
      → has_name ip a.raw ≡ true
      → blocked_as lib (persist (rebuild_table lib a)) ip ≡ some BlockSource.by_ip
  unfolding persist rebuild_table is_allowed
  rebuilt a off there =
      either_way (λ (c : Banner). blocked_as lib c ip ≡ some BlockSource.by_ip) (is_empty a.path) _
        _ (blocked_as-ip _ off (table_of_nets-host _ (nets_of-has a.raw there)))
        (blocked_as-ip _ off (table_of_nets-host _ (nets_of-has a.raw there)))

  fresh_ban :
      (b : Banner)
      → is_allowed b ip ≡ false
      → has_name ip b.raw ≡ false
      → blocked_as lib (persist (rebuild_table lib (add_raw lib ip true b))) ip
        ≡ some BlockSource.by_ip
  fresh_ban b off absent =
      rebuilt (add_raw lib ip true b) (add_raw-is_allowed b ∙ off)
        (ap (has_name ip) (add_raw-host b absent) ∙ has_name-add_name ip b.raw)

  block_address-blocked :
      (b : Banner)
      → IsInSync lib b
      → is_allowed b ip ≡ false
      → blocked_as lib (block_address lib ip b).0 ip ≡ some BlockSource.by_ip
  unfolding block_address
  block_address-blocked b i off = elim (Bool-cases (has_name ip b.raw)) [
    | inl there ↦
        rw (block_address, off, there)
          (blocked_as-ip b off (
            ap (table_contains (lib.to4 ip) (lib.to16 ip)) i.table
            ∙ table_of_nets-host _ (nets_of-has b.raw there)))
    | inr absent ↦ rw (block_address, off, absent) (fresh_ban b off absent)
  ]

-- After any calls, `Block` on an address that neither the allowlist nor an allowed provider holds
-- leaves it banned: `BlockedAs` finds it in the table of ranges and answers that its address is
-- blocked. The text of the address is not empty, `ParseIP` reads it as itself, and `ParseCIDR`
-- refuses it.
pub block-blocked_as :
    (lib : PrefixLib) (path : GoString) (file allowlist ips honeypots : List GoString)
    (cs : List Call) (client ip : GoString)
    → lib.parse_ip (trim_space lib.unicode client) ≡ some ip
    → IsHost lib ip
    → is_allowed (call_all lib cs (new_banner lib path file allowlist ips honeypots)) ip ≡ false
    → blocked_as lib
        (block lib client (call_all lib cs (new_banner lib path file allowlist ips honeypots))).0
        ip
      ≡ some BlockSource.by_ip
unfolding block
block-blocked_as lib path file allowlist ips honeypots cs client ip good host off =
    rw (block, good)
      (block_address-blocked lib ip host _
        (run-new-IsInSync lib path file allowlist ips honeypots cs) off)
