-- ===== src/Geoip/Tests.antt =====
-- Lookups in tables, and the theorems about them at concrete inputs.
use irongrid_dns.Prelude.{
  ◌≡◌, refl, true, not, ◌&&◌, ◌==◌, List, [], ◌∷◌, none, some, length, arith,
}
use irongrid_dns.Bytes.{ascii, str_eq, is_empty}
use irongrid_dns.Text.{is_ascii, trim_space, trim_end, trim_start, is_space, upper}
use irongrid_dns.Shards.Table.{lookup, insert}
use irongrid_dns.Filter.Decide.{has_name}
use irongrid_dns.Geoip.Ranges.{Range4, sort_merge4, contains4, covers}
use irongrid_dns.Geoip.Bits.{is_odd, and_bits, trailing_zeros}
use irongrid_dns.Geoip.Cidrs.{Cidr, aligned_size, shrink, next_size, add_cidr, cidrs4}
use irongrid_dns.Geoip.Exact.{IsSplit, cidrs4-IsSplit}
use irongrid_dns.Geoip.Blocker.{
  GeoLib, GeoTable, to_upper, allow_nets, country_set, set_config, rebuild_combined,
  rebuild_if_enabled, add_table, gather, join_table, new_blocker, geo_blocked_as,
}
use irongrid_dns.Geoip.Countries.{
  GeoCall, geo_call, geo_all, country_rule, geo_blocked_as-country_rule,
}
use irongrid_dns.Geoip.Asn.{ip4, load_asn_tables, asn_lookup}
use irongrid_dns.Geoip.Pruned.{names_only, asn_lookup-load_asn_tables}

-- 10.0.0.0/24, 9.0.0.0/24 and 10.0.1.0/24
abbrev blocks : List Range4
blocks =
    record { start = 0x0a000000; stop = 0x0a0000ff }
    ∷ record { start = 0x09000000; stop = 0x090000ff }
    ∷ record { start = 0x0a000100; stop = 0x0a0001ff }
    ∷ []

program : Unit {0}
unfolding sort_merge4 contains4 covers
program = tt

-- The adjacent blocks merge.
merged :
    sort_merge4 blocks
    ≡ record { start = 0x09000000; stop = 0x090000ff }
      ∷ record { start = 0x0a000000; stop = 0x0a0001ff }
      ∷ []
unfolding program
merged = refl

-- 10.0.0.3 to 10.0.0.8
cidrs4-IsSplit_example : IsSplit 0x0a000003 0x0a000008 (cidrs4 7 0x0a000003 0x0a000008)
cidrs4-IsSplit_example =
    cidrs4-IsSplit 7 0x0a000003 0x0a000008 (omega arith) (omega arith) (omega arith)

-- 10.0.0.3/32, 10.0.0.4/30 and 10.0.0.8/32
abbrev split_up : List Cidr
split_up =
    record { addr = 0x0a000003; ones = 32 }
    ∷ record { addr = 0x0a000004; ones = 30 }
    ∷ record { addr = 0x0a000008; ones = 32 }
    ∷ []

split_test : cidrs4 7 0x0a000003 0x0a000008 ≡ some split_up
unfolding cidrs4 next_size aligned_size and_bits is_odd shrink add_cidr trailing_zeros
split_test = refl

-- Every text is an address, by its length.
abbrev plain_geo : GeoLib
plain_geo = record {
  unicode = record { trim_wide = λ s. s; fields_wide = λ s. s ∷ []; lower_wide = λ s. s };
  upper_wide = λ s. s;
  parse_ip = λ s. some s;
  host_net = λ s ip. str_eq s ip;
  parse_cidr = λ _. none;
  to4 = λ s. some (length s);
  to16 = λ s. length s;
}

abbrev short_table : GeoTable
short_table = record { v4 = record { start = 1; stop = 4 } ∷ []; v6 = [] }

abbrev geo_calls : List GeoCall
geo_calls = GeoCall.install (ascii "IE") short_table ∷ GeoCall.configure (ascii "IE" ∷ []) [] ∷ []

geo_blocked_as-country_rule_example :
    geo_blocked_as plain_geo (geo_all plain_geo geo_calls new_blocker) (ascii "abc")
    ≡ country_rule (geo_all plain_geo geo_calls new_blocker) (ascii "abc") 3
unfolding geo_all geo_call set_config add_table allow_nets country_set rebuild_combined
    rebuild_if_enabled to_upper upper is_ascii trim_space trim_end trim_start is_space is_empty
    gather join_table lookup insert str_eq has_name new_blocker
geo_blocked_as-country_rule_example =
    geo_blocked_as-country_rule plain_geo geo_calls (ascii "abc") (ascii "abc") 3 refl refl
      (record { ordered = omega arith; below_top = omega arith }, tt)

-- Every text is the IPv4 address of its length.
asn_lookup-load_asn_tables_example :
    (names_only
        (λ n. n == 7)
        (asn_lookup plain_geo
          (load_asn_tables plain_geo
            (λ s. some (ip4 (length s)))
            (ascii "a aaa 7")
            []
            (λ n. n == 7)
            (λ n. n == 8)).0
          (ascii "bb"))
      ≡ true)
    × (names_only
          (λ n. not (n == 7) && n == 8)
          (asn_lookup plain_geo
            (load_asn_tables plain_geo
              (λ s. some (ip4 (length s)))
              (ascii "a aaa 7")
              []
              (λ n. n == 7)
              (λ n. n == 8)).1
            (ascii "bb"))
        ≡ true)
asn_lookup-load_asn_tables_example =
    asn_lookup-load_asn_tables plain_geo (λ s. some (ip4 (length s))) (ascii "a aaa 7") []
      (λ n. n == 7) (λ n. n == 8) (ascii "bb")
