-- ===== src/Geoip/Blocker.antt =====
-- internal/geoip/geoip.go: the blocker of countries.
use irongrid_dns.Prelude.{
  ℕ, ◌+◌, ◌%◌, ◌^◌, Bool, true, false, List, [], ◌∷◌, ◌++◌, Option, none, some, leb, ltb,
  if◌then◌else◌,
}
use irongrid_dns.Bytes.{GoString, is_empty}
use irongrid_dns.Text.{Unicode, trim_space, is_ascii, upper}
use irongrid_dns.Shards.Table.{Table, lookup, insert, delete}
use irongrid_dns.Filter.Parse.{NameSet, add_name}
use irongrid_dns.Filter.Decide.{has_name}
use irongrid_dns.Clients.Acl.{Net, any_contains}
use irongrid_dns.Clients.Router.{AsnTable}
use irongrid_dns.Geoip.Ranges.{Range4, sort_ranges, sort_merge4, contains4}

-- What the code uses of package `net`, and of `strings.ToUpper` on text that is not ASCII. An
-- address has its IPv4 form as a number, or is one of IPv6, a number below 2 ^ 128.
pub record GeoLib : Type 0 where
  pub unicode : Unicode
  pub upper_wide : GoString → GoString
  pub parse_ip : GoString → Option GoString
  pub host_net : GoString → Net
  pub parse_cidr : GoString → Option Net
  pub to4 : GoString → Option ℕ
  pub to16 : GoString → ℕ

-- `strings.ToUpper`
unfoldable pub to_upper : GeoLib → GoString → GoString
to_upper lib s = if is_ascii s then upper s else lib.upper_wide s

-- `Table`; the IPv6 ranges are ranges of numbers, whose order is that of `bytes.Compare`.
pub record GeoTable : Type 0 where
  pub v4 : List Range4
  pub v6 : List Range4

-- The loop of `mergeRanges6`: `addOne128` starts again at 0 after the last address.
unfoldable pub merge_from6 : Range4 → List Range4 → List Range4
merge_from6 last [] = last ∷ []
merge_from6 last (r ∷ rs) = elim (leb r.start ((last.stop + 1) % 2 ^ 128)) [
  | true ↦
      merge_from6
        (record { start = last.start; stop = if ltb last.stop r.stop then r.stop else last.stop })
        rs
  | false ↦ last ∷ merge_from6 r rs
]

unfoldable pub merge_ranges6 : List Range4 → List Range4
merge_ranges6 [] = []
merge_ranges6 (r ∷ rs) = merge_from6 r rs

-- `sortMerge`
unfoldable pub sort_merge : GeoTable → GeoTable
sort_merge t = record { v4 = sort_merge4 t.v4; v6 = merge_ranges6 (sort_ranges t.v6) }

-- `Contains`
unfoldable pub in_table : GeoLib → GeoTable → GoString → Bool
in_table lib t ip = elim (lib.to4 ip) [
  | some x ↦ contains4 t.v4 x
  | none ↦ contains4 t.v6 (lib.to16 ip)
]

-- `Blocker`
pub record Blocker : Type 0 where
  pub blocked : NameSet
  pub allowlist : List Net
  pub tables : Table GeoTable
  pub combined : GeoTable
  pub asn_allow : Option AsnTable
  pub asn_block : Option AsnTable

-- `NewBlocker`
unfoldable pub new_blocker : Blocker
new_blocker = record {
  blocked = [];
  allowlist = [];
  tables = [];
  combined = record { v4 = []; v6 = [] };
  asn_allow = none;
  asn_block = none;
}

-- The ranges of a country, where it has a table, in front of those of others.
unfoldable pub join_table : Option GeoTable → GeoTable → GeoTable
join_table none others = others
join_table (some t) others = record { v4 = t.v4 ++ others.v4; v6 = t.v6 ++ others.v6 }

-- The loop of `rebuildCombinedLocked`.
unfoldable pub gather : NameSet → Table GeoTable → GeoTable
gather [] tables = record { v4 = []; v6 = [] }
gather ((cc, _) ∷ ccs) tables = join_table (lookup cc tables) (gather ccs tables)

-- `rebuildCombinedLocked`
unfoldable pub rebuild_combined : Blocker → Blocker
rebuild_combined b = record b { combined = sort_merge (gather b.blocked b.tables) }

-- The allowlist of `SetConfig`, `none` for an entry that is not valid.
unfoldable pub allow_nets : GeoLib → List GoString → Option (List Net)
allow_nets lib [] = some []
allow_nets lib (entry ∷ entries) =
    let e = trim_space lib.unicode entry in
    let rest = allow_nets lib entries in
    if is_empty e then rest else elim (lib.parse_ip e) [
      | some ip ↦ add_net (lib.host_net ip) rest
      | none ↦ elim (lib.parse_cidr e) [ none ↦ none | some n ↦ add_net n rest ]
    ]
  where
    add_net : Net → Option (List Net) → Option (List Net)
    add_net n none = none
    add_net n (some ns) = some (n ∷ ns)

-- The set of the enabled countries.
unfoldable pub country_set : GeoLib → List GoString → NameSet → NameSet
country_set lib [] ccs = ccs
country_set lib (c ∷ cs) ccs =
    let cc = to_upper lib (trim_space lib.unicode c) in
    country_set lib cs (if is_empty cc then ccs else add_name cc ccs)

-- `SetConfig`, with `false` for the error.
unfoldable pub set_config : GeoLib → List GoString → List GoString → Blocker → Blocker × Bool
set_config lib countries allowlist b = elim (allow_nets lib allowlist) [
  | none ↦ (b, false)
  | some nets ↦ (
    rebuild_combined (record b { blocked = country_set lib countries []; allowlist = nets }),
    true,
  )
]

unfoldable pub rebuild_if_enabled : GoString → Blocker → Blocker
rebuild_if_enabled cc b = if has_name cc b.blocked then rebuild_combined b else b

-- `AddTable`
unfoldable pub add_table : GeoLib → GoString → GeoTable → Blocker → Blocker
add_table lib code t b =
    let cc = to_upper lib code in rebuild_if_enabled cc (record b { tables = insert cc t b.tables })

-- `RemoveTable`
unfoldable pub remove_table : GeoLib → GoString → Blocker → Blocker
remove_table lib code b =
    let cc = to_upper lib code in
    elim (lookup cc b.tables) [
      | none ↦ b
      | some _ ↦ rebuild_if_enabled cc (record b { tables = delete cc b.tables })
    ]

-- `Blocker.SetASNs`
unfoldable pub set_asn_tables : Option AsnTable → Option AsnTable → Blocker → Blocker
set_asn_tables allow block b = record b { asn_allow = allow; asn_block = block }

unfoldable pub asn_in : Option AsnTable → GoString → Option ℕ
asn_in none ip = none
asn_in (some table) ip = table ip

unfoldable pub has_owner : Option AsnTable → GoString → Bool
has_owner table ip = elim (asn_in table ip) [ none ↦ false | some _ ↦ true ]

-- `Blocker.ASNOf`
unfoldable pub blocker_asn_of : GoString → Blocker → Option ℕ
blocker_asn_of ip b = elim (asn_in b.asn_allow ip) [
  | some n ↦ some n
  | none ↦ asn_in b.asn_block ip
]

-- The source of a block.
pub data GeoSource : Type 0 where
  geo_asn : GeoSource
  geo_country : GeoSource

-- `Blocker.BlockedAs`
unfoldable pub geo_blocked_as : GeoLib → Blocker → GoString → Option GeoSource
geo_blocked_as lib b client = elim (lib.parse_ip client) [
  | none ↦ none
  | some ip ↦
      if has_owner b.asn_allow ip
      then none
      else if any_contains b.allowlist ip
      then none
      else if has_owner b.asn_block ip
      then some geo_asn
      else if in_table lib b.combined ip
      then some geo_country
      else none
]
