-- ===== src/Banner/Tests.antt =====
-- Tests and worked examples of the banner (internal/geoip/banner.go).
use irongrid_dns.Prelude.{
  ℕ, ◌≡◌, ◌==◌, ◌+◌, ◌*◌, ◌^◌, refl, true, false, [], ◌∷◌, Option, none, some, length,
  if◌then◌else◌,
}
use irongrid_dns.Bytes.{GoString, ascii, str_eq, is_empty}
use irongrid_dns.Text.{Unicode, trim_space, is_ascii, trim_end, trim_start, is_space}
use irongrid_dns.Clients.Acl.{any_contains}
use irongrid_dns.Shards.Table.{lookup}
use irongrid_dns.Filter.Decide.{has_name}
use irongrid_dns.Banner.{
  host_ip_net, PrefixLib, BlockSource, new_banner, block, blocked_as, is_allowed, in_asns, set_asns,
  prune_auto, prune_each, allow_each, add_allow, add_each, add_raw, add_canonical, parse_ban,
  load_auto, trap_each, rebuild_table,
}
use irongrid_dns.Geoip.Nets.{IpNet, ranges_of, range_of, table_of_nets, table_contains}
use irongrid_dns.Geoip.Ranges.{contains4, sort_merge4}
use irongrid_dns.Geoip.Blocker.{sort_merge}
use irongrid_dns.Banner.Invariant.{Call, call_all, call}
use irongrid_dns.Banner.Bans.{block-blocked_as}

abbrev narrow : Unicode
narrow = record { trim_wide = λ s. s; fields_wide = λ s. s ∷ []; lower_wide = λ s. s }

first_byte : GoString → Option ℕ
first_byte [] = none
first_byte (c ∷ s) = if c == 47 then none else some c

-- Every text is an address, of which the first byte is the IPv4 form and the text `/` has none, no
-- text is a prefix, and a network is its one address.
abbrev plain_prefix : PrefixLib
plain_prefix = record {
  unicode = narrow;
  parse_ip = λ s. some s;
  to4 = first_byte;
  to16 = λ s. length s;
  host_net = λ s ip. str_eq s ip;
  parse_prefix = λ _. none;
}

-- The call is one that sets no table of providers.
block-blocked_as_example :
    blocked_as plain_prefix
      (block plain_prefix (ascii " 1 ") (
        call_all plain_prefix
          (Call.set_lists none none ∷ [])
          (new_banner plain_prefix (ascii "") [] (ascii "9" ∷ []) (ascii "3" ∷ []) []))).0
      (ascii "1")
    ≡ some BlockSource.by_ip
unfolding is_allowed in_asns call_all call set_asns prune_auto prune_each new_banner any_contains
    trim_space is_ascii trim_end trim_start is_space is_empty str_eq allow_each add_allow add_each
    add_raw add_canonical parse_ban load_auto trap_each rebuild_table has_name lookup host_ip_net
    first_byte
block-blocked_as_example =
    block-blocked_as plain_prefix (ascii "") [] (ascii "9" ∷ []) (ascii "3" ∷ []) []
      (Call.set_lists none none ∷ []) (ascii " 1 ") (ascii "1") refl (refl, refl, refl) refl

-- The network `240.0.0.0/4`, which ends at the last address, and the address `250.1.1.1`.
abbrev top_net : IpNet
top_net = record { is_wide = false; address = 240 * 2 ^ 24; ones = 4; has_ip = λ _. true }

abbrev one_host : IpNet
one_host = record { is_wide = false; address = 250 * 2 ^ 24 + 65793; ones = 32; has_ip = λ _. true }

-- Beside the ban of the address, the network no longer bans `251.0.0.0`.
top_net_bans : table_contains (some (251 * 2 ^ 24)) 0 (table_of_nets (top_net ∷ [])) ≡ true
unfolding table_contains contains4 table_of_nets sort_merge sort_merge4 ranges_of range_of
top_net_bans = refl

top_net_hidden :
    table_contains (some (251 * 2 ^ 24)) 0 (table_of_nets (top_net ∷ one_host ∷ [])) ≡ false
unfolding table_contains contains4 table_of_nets sort_merge sort_merge4 ranges_of range_of
top_net_hidden = refl
