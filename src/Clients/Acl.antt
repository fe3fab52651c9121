-- ===== src/Clients/Acl.antt =====
-- internal/dnsserver/acl.go: the networks that may ask. A parsed network is the test of its
-- addresses, and a parsed address is the text of its bytes.
use irongrid_dns.Prelude.{
  ◌⊎◌, inl, inr, Bool, true, false, ◌||◌, List, [], ◌∷◌, ◌++◌, Option, none, some, if◌then◌else◌,
}
use irongrid_dns.Bytes.{GoString, is_empty, ascii}
use irongrid_dns.Text.{Unicode, trim_space, has_byte}

-- A network, as its method `Contains`.
abbrev pub Net : Type 0
Net = GoString → Bool

-- What the code uses of package `net`: `ParseIP`, whether `To4` is nil, and `ParseCIDR`, with
-- `none` for an error.
pub record NetLib : Type 0 where
  pub parse_ip : GoString → Option GoString
  pub is_ip4 : GoString → Bool
  pub parse_cidr : GoString → Option Net
  pub host_net : GoString → Net

-- `ACL`, with `none` for nil.
pub record Acl : Type 0 where
  pub nets : List Net

-- The entry as a prefix: `none` for an entry that is neither an address nor has a slash.
unfoldable pub as_cidr : NetLib → GoString → Option GoString
as_cidr lib spec = if has_byte spec 47 then some spec else elim (lib.parse_ip spec) [
  | none ↦ none
  | some ip ↦ some (spec ++ (if lib.is_ip4 ip then ascii "/32" else ascii "/128"))
]

-- The network of an entry, `none` for an error.
unfoldable pub parse_entry : NetLib → GoString → Option Net
parse_entry lib spec = elim (as_cidr lib spec) [ none ↦ none | some cidr ↦ lib.parse_cidr cidr ]

-- The loop of `BuildACL`: the networks, or the entry that is not valid.
unfoldable pub parse_nets : NetLib → Unicode → List GoString → List Net ⊎ GoString
parse_nets lib u [] = inl []
parse_nets lib u (raw ∷ raws) = elim (is_empty (trim_space u raw)) [
  | true ↦ parse_nets lib u raws
  | false ↦ elim (parse_entry lib (trim_space u raw)) [
    | none ↦ inr raw
    | some net ↦ elim (parse_nets lib u raws) [ inr bad ↦ inr bad | inl nets ↦ inl (net ∷ nets) ]
  ]
]

-- `BuildACL`
unfoldable pub build_acl : NetLib → Unicode → List GoString → Option Acl ⊎ GoString
build_acl lib u specs = elim (parse_nets lib u specs) [
  | inr bad ↦ inr bad
  | inl [] ↦ inl none
  | inl (net ∷ nets) ↦ inl (some (record { nets = net ∷ nets }))
]

unfoldable pub any_contains : List Net → GoString → Bool
any_contains [] ip = false
any_contains (n ∷ ns) ip = n ip || any_contains ns ip

-- `Allowed`, on an ACL that is not nil.
unfoldable pub allowed_in : NetLib → List Net → GoString → Bool
allowed_in lib [] client = true
allowed_in lib (n ∷ ns) client = elim (lib.parse_ip client) [
  | none ↦ false
  | some ip ↦ any_contains (n ∷ ns) ip
]

-- `Allowed`
unfoldable pub allowed : NetLib → Option Acl → GoString → Bool
allowed lib none client = true
allowed lib (some acl) client = allowed_in lib acl.nets client
