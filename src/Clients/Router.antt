-- ===== src/Clients/Router.antt =====
-- internal/dnsserver/clients.go: the policy of a client. A policy is the one of a group; the table
-- of autonomous systems is a lookup that may fail.
use irongrid_dns.Prelude.{
  ℕ, ◌+◌, Bool, false, ◌||◌, List, [], ◌∷◌, ◌++◌, Option, none, some, ltb, ◌==◌, if◌then◌else◌,
}
use irongrid_dns.Bytes.{GoString}
use irongrid_dns.Shards.Table.{Table, lookup, insert}
use irongrid_dns.Clients.Acl.{Net, NetLib, any_contains}

-- `ClientPolicy`, without its engine and its upstreams, which routing does not read.
pub record ClientPolicy : Type 0 where
  pub group_id : GoString
  pub group_name : GoString

-- `GroupCIDRs`, with `none` for a policy that is nil.
pub record GroupCidrs : Type 0 where
  pub cidrs : List GoString
  pub asns : List ℕ
  pub policy : Option ClientPolicy

-- `clientEntry`
pub record ClientEntry : Type 0 where
  pub nets : List Net
  pub asns : List ℕ
  pub policy : ClientPolicy

abbrev pub AsnTable : Type 0
AsnTable = GoString → Option ℕ

-- `clientEntries`
pub record ClientEntries : Type 0 where
  pub groups : List ClientEntry
  pub asn_table : Option AsnTable

-- `ClientRouter`; a cached `none` stands for a client of no group.
pub record ClientRouter : Type 0 where
  pub entries : ClientEntries
  pub cache : Table (Option ClientPolicy)
  pub cache_size : ℕ

abbrev pub max_policy_cache : ℕ
max_policy_cache = 4096

-- `NewClientRouter`
unfoldable pub new_client_router : ClientRouter
new_client_router = record {
  entries = record { groups = []; asn_table = none };
  cache = [];
  cache_size = 0;
}

-- The networks of a group: an entry that does not parse is left out.
unfoldable pub group_nets : NetLib → List GoString → List Net
group_nets lib [] = []
group_nets lib (c ∷ cs) = elim (lib.parse_cidr c) [
  | some net ↦ net ∷ group_nets lib cs
  | none ↦ elim (lib.parse_ip c) [
    | some ip ↦ lib.host_net ip ∷ group_nets lib cs
    | none ↦ group_nets lib cs
  ]
]

-- The entry of a group: none without a policy, and none that nothing could match.
unfoldable pub entry_of_nets : List Net → List ℕ → ClientPolicy → List ClientEntry
entry_of_nets [] [] policy = []
entry_of_nets nets asns policy = record { nets = nets; asns = asns; policy = policy } ∷ []

unfoldable pub group_entry : NetLib → GroupCidrs → List ClientEntry
group_entry lib g = elim g.policy [
  | none ↦ []
  | some policy ↦ entry_of_nets (group_nets lib g.cidrs) g.asns policy
]

unfoldable pub group_entries : NetLib → List GroupCidrs → List ClientEntry
group_entries lib [] = []
group_entries lib (g ∷ gs) = group_entry lib g ++ group_entries lib gs

-- `SetPolicies`
unfoldable pub set_policies :
    NetLib → List GroupCidrs → Option AsnTable → ClientRouter → ClientRouter
set_policies lib groups table r = record {
  entries = record { groups = group_entries lib groups; asn_table = table };
  cache = [];
  cache_size = 0;
}

unfoldable pub has_asn : List ℕ → ℕ → Bool
has_asn [] n = false
has_asn (a ∷ as') n = a == n || has_asn as' n

-- The match by the client's provider.
unfoldable pub asn_matches : List ℕ → Option AsnTable → GoString → Bool
asn_matches asns none ip = false
asn_matches asns (some table) ip = elim (table ip) [ none ↦ false | some asn ↦ has_asn asns asn ]

-- The loop over the groups.
unfoldable pub scan_groups : List ClientEntry → Option AsnTable → GoString → Option ClientPolicy
scan_groups [] table ip = none
scan_groups (e ∷ es) table ip =
    if any_contains e.nets ip
    then some e.policy
    else if asn_matches e.asns table ip
    then some e.policy
    else scan_groups es table ip

unfoldable pub scan : ClientEntries → GoString → Option ClientPolicy
scan entries ip = scan_groups entries.groups entries.asn_table ip

-- The end of `Resolve`: the result is stored; a cache that is full is cleared before.
unfoldable pub store_policy : GoString → Option ClientPolicy → ClientRouter → ClientRouter
store_policy client p r =
    if ltb max_policy_cache (r.cache_size + 1)
    then record r { cache = insert client p []; cache_size = 0 }
    else record r { cache = insert client p r.cache; cache_size = r.cache_size + 1 }

-- `Resolve`
unfoldable pub resolve : NetLib → GoString → ClientRouter → ClientRouter × Option ClientPolicy
resolve lib client r = elim (lookup client r.cache) [
  | some p ↦ (r, p)
  | none ↦ elim (lib.parse_ip client) [
    | none ↦ (r, none)
    | some ip ↦ let p = scan r.entries ip in (store_policy client p r, p)
  ]
]

-- `ASNOf`
unfoldable pub asn_of : NetLib → GoString → ClientRouter → Option ℕ
asn_of lib client r = elim (lib.parse_ip client) [
  | none ↦ none
  | some ip ↦ elim r.entries.asn_table [ none ↦ none | some table ↦ table ip ]
]

-- What a call of `Resolve` has read when another goroutine goes on.
pub record Pending : Type 0 where
  pub client : GoString
  pub ip : GoString
  pub entries : ClientEntries

-- `Resolve` up to `cr.entries.Load()`, where the client is not in the cache.
unfoldable pub begin_resolve : NetLib → GoString → ClientRouter → Option Pending
begin_resolve lib client r = elim (lookup client r.cache) [
  | some _ ↦ none
  | none ↦ elim (lib.parse_ip client) [
    | none ↦ none
    | some ip ↦ some (record { client = client; ip = ip; entries = r.entries })
  ]
]

-- `Resolve` from there on, on the router as it then is.
unfoldable pub finish_resolve : Pending → ClientRouter → ClientRouter × Option ClientPolicy
finish_resolve pending r =
    let p = scan pending.entries pending.ip in (store_policy pending.client p r, p)
