-- ===== src/Geoip/Countries.antt =====
-- internal/geoip/geoip.go: what the blocker of countries answers.
use irongrid_dns.Prelude.{
  ℕ, ◌≡◌, refl, sym, ap, ◌∙◌, inl, inr, Bool, false, ◌||◌, List, [], ◌∷◌, ◌++◌, Option, none, some,
  arith, if◌then◌else◌, Bool-cases, Option-cases,
}
use irongrid_dns.Bytes.{GoString, str_eq, str_eq_iff}
use irongrid_dns.Shards.Table.{Table, lookup, lookup-insert, lookup-delete}
use irongrid_dns.Filter.Parse.{NameSet}
use irongrid_dns.Filter.Decide.{has_name}
use irongrid_dns.Clients.Acl.{any_contains}
use irongrid_dns.Clients.Router.{AsnTable}
use irongrid_dns.Geoip.Ranges.{Range4, covers, sort_merge4}
use irongrid_dns.Geoip.Merge.{AllRanges}
use irongrid_dns.Geoip.Lookup.{contains-sort_merge}
use irongrid_dns.Geoip.Blocker.{
  GeoLib, GeoTable, Blocker, GeoSource, to_upper, sort_merge, in_table, new_blocker, join_table,
  merge_ranges6, gather, rebuild_combined, allow_nets, set_config, rebuild_if_enabled, add_table,
  remove_table, set_asn_tables, has_owner, geo_blocked_as,
}

-- Some enabled country has a range that holds the address.
unfoldable pub country_covers : NameSet → Table GeoTable → ℕ → Bool
country_covers [] tables x = false
country_covers ((code, _) ∷ ccs) tables x = elim (lookup code tables) [
  | none ↦ country_covers ccs tables x
  | some t ↦ covers t.v4 x || country_covers ccs tables x
]

covers-append : (x : ℕ) (rs qs : List Range4) → covers (rs ++ qs) x ≡ (covers rs x || covers qs x)
unfolding covers
covers-append x [] qs = refl
covers-append x (r ∷ rs) qs = ground (arith, covers-append x rs qs)

covers-gather :
    (ccs : NameSet) (tables : Table GeoTable) (x : ℕ)
    → covers (gather ccs tables).v4 x ≡ country_covers ccs tables x
unfolding gather join_table country_covers covers
covers-gather [] tables x = refl
covers-gather ((code, _) ∷ ccs) tables x = elim (Option-cases (lookup code tables)) [
  | inl no_table ↦ rw (country_covers, no_table) (covers-gather ccs tables x)
  | inr (t, table) ↦
      rw (country_covers, table)
        (covers-append x t.v4 (gather ccs tables).v4
          ∙ ap (λ b. covers t.v4 x || b) (covers-gather ccs tables x))
]

-- A table of a country that is not enabled does not count.
gather-other :
    (cc : GoString) (ccs : NameSet) (tables tables' : Table GeoTable)
    → ((k : GoString) → str_eq cc k ≡ false → lookup k tables' ≡ lookup k tables)
    → has_name cc ccs ≡ false
    → gather ccs tables' ≡ gather ccs tables
unfolding gather has_name lookup
gather-other cc [] tables tables' same off = refl
gather-other cc ((k, t) ∷ ccs) tables tables' same off =
    let other : str_eq k cc ≡ false = ground (arith, off) in
    let same_table = same k (ground (arith, other, str_eq_iff k cc, str_eq_iff cc k)) in
    ap (λ t. join_table t (gather ccs tables')) same_table
    ∙ ap (join_table (lookup k tables))
        (gather-other cc ccs tables tables' same (ground (arith, off, other)))

-- The combined ranges are those of the enabled countries as they are.
pub record IsCombined (b : Blocker) : Type 0 where
  pub combined : b.combined ≡ sort_merge (gather b.blocked b.tables)

rebuild_combined-IsCombined : (b : Blocker) → IsCombined (rebuild_combined b)
unfolding rebuild_combined
rebuild_combined-IsCombined b = record { combined = refl }

module _ (cc : GoString) (b : Blocker) (tables : Table GeoTable) where
  rebuild_if_enabled-IsCombined :
      ((k : GoString) → str_eq cc k ≡ false → lookup k tables ≡ lookup k b.tables)
      → IsCombined b
      → IsCombined (rebuild_if_enabled cc (record b { tables = tables }))
  unfolding rebuild_if_enabled
  rebuild_if_enabled-IsCombined same i = elim (Bool-cases (has_name cc b.blocked)) [
    | inl on ↦ rw on (rebuild_combined-IsCombined _)
    | inr off ↦ rw off (record {
      combined =
          i.combined ∙ ap sort_merge (sym (gather-other cc b.blocked b.tables tables same off));
    })
  ]

-- The calls that change a blocker.
pub data GeoCall : Type 0 where
  configure : List GoString → List GoString → GeoCall
  install : GoString → GeoTable → GeoCall
  drop : GoString → GeoCall
  set_asns : Option AsnTable → Option AsnTable → GeoCall

unfoldable pub geo_call : GeoLib → GeoCall → Blocker → Blocker
geo_call lib (configure countries allowlist) b = (set_config lib countries allowlist b).0
geo_call lib (install code t) b = add_table lib code t b
geo_call lib (drop code) b = remove_table lib code b
geo_call lib (set_asns allow block) b = set_asn_tables allow block b

unfoldable pub geo_all : GeoLib → List GeoCall → Blocker → Blocker
geo_all lib [] b = b
geo_all lib (c ∷ cs) b = geo_all lib cs (geo_call lib c b)

geo_call-IsCombined :
    (lib : GeoLib) (c : GeoCall) (b : Blocker) → IsCombined b → IsCombined (geo_call lib c b)
unfolding geo_call set_config add_table remove_table set_asn_tables
geo_call-IsCombined lib (configure countries allowlist) b i =
    elim (Option-cases (allow_nets lib allowlist)) [
      | inl bad ↦ rw (geo_call, set_config, bad) i
      | inr (nets, good) ↦ rw (geo_call, set_config, good) (rebuild_combined-IsCombined _)
    ]
geo_call-IsCombined lib (install code t) b i =
    rebuild_if_enabled-IsCombined (to_upper lib code) b _
      (λ k other. ground (arith, lookup-insert (to_upper lib code) k t b.tables, other)) i
geo_call-IsCombined lib (drop code) b i =
    elim (Option-cases (lookup (to_upper lib code) b.tables)) [
      | inl no_table ↦ rw (geo_call, remove_table, no_table) i
      | inr (t, table) ↦
          rw (geo_call, remove_table, table)
            (rebuild_if_enabled-IsCombined (to_upper lib code) b _
              (λ k other. ground (arith, lookup-delete (to_upper lib code) k b.tables, other)) i)
    ]
geo_call-IsCombined lib (set_asns allow block) b i = record { combined = i.combined }

geo_all-IsCombined :
    (lib : GeoLib) (cs : List GeoCall) (b : Blocker) → IsCombined b → IsCombined (geo_all lib cs b)
unfolding geo_all
geo_all-IsCombined lib [] b i = i
geo_all-IsCombined lib (c ∷ cs) b i = geo_all-IsCombined lib cs _ (geo_call-IsCombined lib c b i)

new-IsCombined : IsCombined new_blocker
unfolding new_blocker gather sort_merge sort_merge4 merge_ranges6
new-IsCombined = record { combined = refl }

-- What the documentation of `BlockedAs` says of an IPv4 client.
unfoldable pub country_rule : Blocker → GoString → ℕ → Option GeoSource
country_rule b ip x =
    if has_owner b.asn_allow ip || any_contains b.allowlist ip
    then none
    else if has_owner b.asn_block ip
    then some GeoSource.geo_asn
    else if country_covers b.blocked b.tables x
    then some GeoSource.geo_country
    else none

in_table-country_covers :
    (lib : GeoLib) (b : Blocker) (ip : GoString) (x : ℕ)
    → IsCombined b
    → lib.to4 ip ≡ some x
    → AllRanges (gather b.blocked b.tables).v4
    → in_table lib b.combined ip ≡ country_covers b.blocked b.tables x
unfolding in_table sort_merge
in_table-country_covers lib b ip x i four ranges =
    ap (λ t. in_table lib t ip) i.combined
    ∙ rw (in_table, four)
        (contains-sort_merge (gather b.blocked b.tables).v4 x ranges
          ∙ covers-gather b.blocked b.tables x)

-- After any calls that configure the blocker, an IPv4 client is let through where an allowed
-- provider or the allowlist holds it; else it is blocked for its provider; else it is blocked
-- exactly where a range of an enabled country holds it, if no range of these ends at
-- 255.255.255.255.
pub geo_blocked_as-country_rule :
    (lib : GeoLib) (cs : List GeoCall) (client ip : GoString) (x : ℕ)
    → lib.parse_ip client ≡ some ip
    → lib.to4 ip ≡ some x
    → AllRanges (gather (geo_all lib cs new_blocker).blocked (geo_all lib cs new_blocker).tables).v4
    → geo_blocked_as lib (geo_all lib cs new_blocker) client
      ≡ country_rule (geo_all lib cs new_blocker) ip x
unfolding geo_blocked_as country_rule
geo_blocked_as-country_rule lib cs client ip x parsed four ranges =
    let b = geo_all lib cs new_blocker in
    let held =
      in_table-country_covers lib b ip x (geo_all-IsCombined lib cs new_blocker new-IsCombined) four
        ranges in
    rw (geo_blocked_as, parsed, held)
      (merged (has_owner b.asn_allow ip) (any_contains b.allowlist ip) _)
  where
    merged :
        {A : Type 0} (p q : Bool) (y : Option A)
        → (if p then none else if q then none else y) ≡ (if p || q then none else y)
    merged p q y = ground arith
