-- ===== src/Banner.antt =====
-- internal/geoip/banner.go: clients that are banned, and the honeypots that ban them.
pub mod Invariant
pub mod Bans
mod Tests
use irongrid_dns.Prelude.{
  ℕ, ◌≡◌, Bool, true, false, not, ◌&&◌, ◌||◌, List, [], ◌∷◌, ◌++◌, Option, none, some,
  if◌then◌else◌,
}
use irongrid_dns.Bytes.{GoString, is_empty, ascii}
use irongrid_dns.Text.{Unicode, trim_space, to_lower, trim_suffix, has_prefix, split, join}
use irongrid_dns.Shards.Table.{Table, lookup, insert, delete}
use irongrid_dns.Filter.Parse.{NameSet, add_name}
use irongrid_dns.Filter.Decide.{has_name, find_parent, last_dot}
use irongrid_dns.Clients.Acl.{Net, any_contains}
use irongrid_dns.Geoip.Blocker.{GeoTable}
use irongrid_dns.Geoip.Nets.{IpNet, table_of_nets, table_contains}

-- What the code uses of package `net`: `ParseIP` with `String`, the IPv4 form of an address or none,
-- its form of 128 bits, the method `Contains` of the network of one address, and `ParseCIDR` with
-- the text of the aligned prefix.
pub record PrefixLib : Type 0 where
  pub unicode : Unicode
  pub parse_ip : GoString → Option GoString
  pub to4 : GoString → Option ℕ
  pub to16 : GoString → ℕ
  pub host_net : GoString → Net
  pub parse_prefix : GoString → Option (GoString × IpNet)

-- `Banner`. A network of the allowlist and a table of ASNs are their method `Contains`; `file` is
-- what stands in the file of banned clients, without its comment.
pub record Banner : Type 0 where
  pub table : GeoTable
  pub raw : NameSet
  pub auto : NameSet
  pub honeypots : NameSet
  pub path : GoString
  pub allow : List Net
  pub asn_allow : Option Net
  pub asn_block : Option Net
  pub file : List GoString

-- `CanonicalDomain` of internal/dnsname/dnsname.go.
unfoldable pub canonical_domain : Unicode → GoString → GoString
canonical_domain u s = to_lower u (trim_suffix (trim_space u s) 46)

-- The network of one address.
unfoldable pub host_ip_net : PrefixLib → GoString → IpNet
host_ip_net lib ip = elim (lib.to4 ip) [
  | some x ↦ record { is_wide = false; address = x; ones = 32; has_ip = lib.host_net ip }
  | none ↦ record { is_wide = true; address = lib.to16 ip; ones = 128; has_ip = lib.host_net ip }
]

-- The canonical text and the network of an entry.
unfoldable pub parse_ban : PrefixLib → GoString → Option (GoString × IpNet)
parse_ban lib e = elim (lib.parse_prefix e) [
  | some n ↦ some n
  | none ↦ elim (lib.parse_ip e) [ none ↦ none | some ip ↦ some (ip, host_ip_net lib ip) ]
]

-- `addRaw`, from the test whether the entry is there on.
unfoldable pub add_canonical : GoString → Bool → Banner → Banner
add_canonical e runtime b =
    if has_name e b.raw
    then b
    else record b { raw = add_name e b.raw; auto = if runtime then add_name e b.auto else b.auto }

-- `addRaw`
unfoldable pub add_raw : PrefixLib → GoString → Bool → Banner → Banner
add_raw lib e runtime b =
    if is_empty e
    then b
    else elim (parse_ban lib e) [ none ↦ b | some (text, _) ↦ add_canonical text runtime b ]

-- The networks of the entries.
unfoldable pub nets_of : PrefixLib → NameSet → List IpNet
nets_of lib [] = []
nets_of lib ((e, _) ∷ raw) = elim (parse_ban lib e) [
  | none ↦ nets_of lib raw
  | some (_, n) ↦ n ∷ nets_of lib raw
]

-- `rebuildTableLocked`
unfoldable pub rebuild_table : PrefixLib → Banner → Banner
rebuild_table lib b = record b { table = table_of_nets (nets_of lib b.raw) }

-- `addAllow`
unfoldable pub add_allow : PrefixLib → GoString → Banner → Banner
add_allow lib entry b =
    let e = trim_space lib.unicode entry in
    if is_empty e then b else elim (parse_ban lib e) [
      | none ↦ b
      | some (_, n) ↦ record b { allow = b.allow ++ (n.has_ip ∷ []) }
    ]

unfoldable pub in_asns : Option Net → GoString → Bool
in_asns none ip = false
in_asns (some table) ip = table ip

-- `allowed` or `asnAllowed`
unfoldable pub is_allowed : Banner → GoString → Bool
is_allowed b ip = any_contains b.allow ip || in_asns b.asn_allow ip

-- The loop of `pruneAutoLocked`, with `changed`.
unfoldable pub prune_each : PrefixLib → NameSet → Banner → Bool → Banner × Bool
prune_each lib [] b changed = (b, changed)
prune_each lib ((e, _) ∷ auto) b changed = elim (lib.parse_ip e) [
  | none ↦ prune_each lib auto b changed
  | some ip ↦ elim (is_allowed b ip) [
    | false ↦ prune_each lib auto b changed
    | true ↦ prune_each lib auto (record b { auto = delete e b.auto; raw = delete e b.raw }) true
  ]
]

-- `pruneAutoLocked`
unfoldable pub prune_auto : PrefixLib → Banner → Banner
prune_auto lib b =
    let (b', changed) = prune_each lib b.auto b false in
    if changed then rebuild_table lib b' else b'

unfoldable pub add_each : PrefixLib → Bool → List GoString → Banner → Banner
add_each lib runtime [] b = b
add_each lib runtime (e ∷ es) b =
    add_each lib runtime es (add_raw lib (trim_space lib.unicode e) runtime b)

unfoldable pub allow_each : PrefixLib → List GoString → Banner → Banner
allow_each lib [] b = b
allow_each lib (e ∷ es) b = allow_each lib es (add_allow lib e b)

unfoldable pub trap_each : PrefixLib → List GoString → Banner → Banner
trap_each lib [] b = b
trap_each lib (d ∷ ds) b =
    let name = canonical_domain lib.unicode d in
    trap_each lib ds
      (if is_empty name then b else record b { honeypots = add_name name b.honeypots })

-- The lines of the file that are entries.
unfoldable pub entry_lines : PrefixLib → List GoString → List GoString
entry_lines lib [] = []
entry_lines lib (ln ∷ lns) =
    let e = trim_space lib.unicode ln in
    if is_empty e || has_prefix e (ascii "#") then entry_lines lib lns else e ∷ entry_lines lib lns

-- `loadAuto`, with the lines of the file, which are none where it cannot be read.
unfoldable pub load_auto : PrefixLib → Banner → Banner
load_auto lib b =
    if is_empty b.path then b else prune_auto lib (add_each lib true (entry_lines lib b.file) b)

-- `NewBanner`
unfoldable pub new_banner :
    PrefixLib → GoString → List GoString → List GoString → List GoString → List GoString → Banner
new_banner lib path file allowlist ips honeypots =
    let b : Banner = record {
      table = record { v4 = []; v6 = [] };
      raw = [];
      auto = [];
      honeypots = [];
      path = path;
      allow = [];
      asn_allow = none;
      asn_block = none;
      file = file;
    } in
    rebuild_table lib (
      load_auto lib (trap_each lib honeypots (add_each lib false ips (allow_each lib allowlist b))))

-- `SetASNs`
unfoldable pub set_asns : PrefixLib → Option Net → Option Net → Banner → Banner
set_asns lib allow block b = prune_auto lib (record b { asn_allow = allow; asn_block = block })

-- The source of a block.
pub data BlockSource : Type 0 where
  by_ip : BlockSource
  by_asn : BlockSource

-- `BlockedAs`
unfoldable pub blocked_as : PrefixLib → Banner → GoString → Option BlockSource
blocked_as lib b client = elim (lib.parse_ip client) [
  | none ↦ none
  | some ip ↦
      if in_asns b.asn_allow ip
      then none
      else if any_contains b.allow ip
      then none
      else if table_contains (lib.to4 ip) (lib.to16 ip) b.table
      then some by_ip
      else if in_asns b.asn_block ip
      then some by_asn
      else none
]

-- `LookupHoneypot`
unfoldable pub lookup_honeypot : Banner → GoString → Bool
lookup_honeypot b qname =
    if has_name qname b.honeypots
    then true
    else elim (find_parent b.honeypots (last_dot qname) qname) [ some _ ↦ true | none ↦ false ]

unfoldable pub names_of : NameSet → List GoString
names_of [] = []
names_of ((e, _) ∷ m) = e ∷ names_of m

-- `persist`, on a disk that takes the file. The order of the lines is not kept.
unfoldable pub persist : Banner → Banner
persist b = if is_empty b.path then b else record b { file = names_of b.auto }

-- `Block`, on the canonical address: the banner, and whether the address was added.
unfoldable pub block_address : PrefixLib → GoString → Banner → Banner × Bool
block_address lib ip b =
    if is_allowed b ip
    then (b, false)
    else if has_name ip b.raw
    then (b, false)
    else (persist (rebuild_table lib (add_raw lib ip true b)), true)

-- `Block`, with `none` for the error.
unfoldable pub block : PrefixLib → GoString → Banner → Banner × Option Bool
block lib client b = elim (lib.parse_ip (trim_space lib.unicode client)) [
  | none ↦ (b, none)
  | some ip ↦ let (b', added) = block_address lib ip b in (b', some added)
]

-- `Unblock`, with `false` for the error.
unfoldable pub unblock : PrefixLib → GoString → Banner → Banner × Bool
unblock lib client b = elim (lib.parse_ip (trim_space lib.unicode client)) [
  | none ↦ (b, false)
  | some ip ↦ if not (has_name ip b.auto) then (b, true) else (
    persist (rebuild_table lib (record b { auto = delete ip b.auto; raw = delete ip b.raw })),
    true,
  )
]
