-- ===== src/Geoip/Asn.antt =====
-- internal/geoip/asn.go: the tables of providers.
use irongrid_dns.Prelude.{
  ℕ, ◌+◌, ◌-◌, ◌*◌, ◌/◌, ◌%◌, ◌^◌, Bool, true, false, not, ◌&&◌, ◌||◌, ◌==◌, List, [], ◌∷◌, ◌++◌,
  Option, none, some, leb, ltb, length, get_elem?, if◌then◌else◌,
}
use irongrid_dns.Bytes.{GoString, is_empty, ascii}
use irongrid_dns.Text.{trim_space, trim_prefix, fields, split}
use irongrid_dns.Geoip.Search.{search}
use irongrid_dns.Geoip.Blocker.{GeoLib, to_upper}

-- `netip.Addr`, as a number.
pub data NetipAddr : Type 0 where
  ip4 : ℕ → NetipAddr
  ip6 : ℕ → NetipAddr

-- `asnRange4` or `asnRange6`
pub record AsnRange : Type 0 where
  pub start : ℕ
  pub stop : ℕ
  pub asn : ℕ

-- `ASNTable`
pub record AsnRanges : Type 0 where
  pub v4 : List AsnRange
  pub v6 : List AsnRange

-- A line of the dataset: `parseIP2ASNLine`.
pub record AsnLine : Type 0 where
  pub first : NetipAddr
  pub last : NetipAddr
  pub owner : ℕ

unfoldable pub digits_from : ℕ → GoString → Option ℕ
digits_from n [] = some n
digits_from n (c ∷ s) =
    if leb 48 c && leb c 57 && ltb (n * 10 + (c - 48)) (2 ^ 32)
    then digits_from (n * 10 + (c - 48)) s
    else none

-- `strconv.ParseUint(s, 10, 32)`, with `none` for an error, and for the 0 that its callers refuse.
unfoldable pub parse_number : GoString → Option ℕ
parse_number s =
    if is_empty s
    then none
    else elim (digits_from 0 s) [ none ↦ none | some n ↦ if n == 0 then none else some n ]

unfoldable pub is4 : NetipAddr → Bool
is4 (ip4 n) = true
is4 (ip6 n) = false

-- `As16` as a number; an IPv4 address is mapped.
unfoldable pub as16 : NetipAddr → ℕ
as16 (ip4 n) = 65535 * 2 ^ 32 + n
as16 (ip6 n) = n

-- `addr4`: the last four bytes.
unfoldable pub addr4 : NetipAddr → ℕ
addr4 (ip4 n) = n
addr4 (ip6 n) = n % 2 ^ 32

-- `start.Is4() || start.Is4In6()`
unfoldable pub is4_in6 : NetipAddr → Bool
is4_in6 a = is4 a || as16 a / 2 ^ 32 == 65535

unfoldable pub parse_fields : (GoString → Option NetipAddr) → List GoString → Option AsnLine
parse_fields parse_addr (f0 ∷ f1 ∷ f2 ∷ _) = elim (parse_addr f0) [
  | none ↦ none
  | some s ↦ elim (parse_addr f1) [
    | none ↦ none
    | some e ↦ elim (parse_number f2) [
      | none ↦ none
      | some n ↦
          if (is4 s && is4 e) || not (is4 s || is4 e)
          then some (record { first = s; last = e; owner = n })
          else none
    ]
  ]
]
parse_fields parse_addr _ = none

-- `parseIP2ASNLine`
unfoldable pub parse_asn_line : GeoLib → (GoString → Option NetipAddr) → GoString → Option AsnLine
parse_asn_line lib parse_addr ln = parse_fields parse_addr (fields lib.unicode ln)

-- The append of a line to the table of its side.
unfoldable pub add_range : Bool → AsnLine → AsnRanges → AsnRanges
add_range wide l t =
    if wide
    then (if is4_in6 l.first then t else record t {
      v6 = t.v6 ++ (record { start = as16 l.first; stop = as16 l.last; asn = l.owner } ∷ []);
    })
    else (if not (is4 l.first) then t else record t {
      v4 = t.v4 ++ (record { start = addr4 l.first; stop = addr4 l.last; asn = l.owner } ∷ []);
    })

module _ (allow block : ℕ → Bool) where
  -- The choice of the side: the table of allowed providers, then that of blocked ones.
  unfoldable pub add_line : Bool → AsnLine → AsnRanges × AsnRanges → AsnRanges × AsnRanges
  add_line wide l (a, b) =
      if allow l.owner
      then (add_range wide l a, b)
      else if block l.owner
      then (a, add_range wide l b)
      else (a, b)

  -- The closure `parse`.
  unfoldable pub parse_dataset :
      GeoLib
      → (GoString → Option NetipAddr)
      → Bool
      → List GoString
      → AsnRanges × AsnRanges
      → AsnRanges × AsnRanges
  parse_dataset lib parse_addr wide [] ts = ts
  parse_dataset lib parse_addr wide (ln ∷ lns) ts = elim (parse_asn_line lib parse_addr ln) [
    | none ↦ parse_dataset lib parse_addr wide lns ts
    | some l ↦ parse_dataset lib parse_addr wide lns (add_line wide l ts)
  ]

-- `slices.SortFunc` by the start, as an insertion sort.
unfoldable pub insert_range : AsnRange → List AsnRange → List AsnRange
insert_range r [] = r ∷ []
insert_range r (q ∷ rs) = if leb r.start q.start then r ∷ q ∷ rs else q ∷ insert_range r rs

unfoldable pub sort_asns : List AsnRange → List AsnRange
sort_asns [] = []
sort_asns (r ∷ rs) = insert_range r (sort_asns rs)

-- `ASNTable.sort`
unfoldable pub sort_table : AsnRanges → AsnRanges
sort_table t = record { v4 = sort_asns t.v4; v6 = sort_asns t.v6 }

-- `LoadASNTables`
unfoldable pub load_asn_tables :
    GeoLib
    → (GoString → Option NetipAddr)
    → GoString
    → GoString
    → (ℕ → Bool)
    → (ℕ → Bool)
    → AsnRanges × AsnRanges
load_asn_tables lib parse_addr ipv4 ipv6 allow block =
    let none_yet : AsnRanges = record { v4 = []; v6 = [] } in
    let (a, b) =
      parse_dataset allow block lib parse_addr true (split ipv6 10)
        (parse_dataset allow block lib parse_addr false (split ipv4 10) (none_yet, none_yet)) in
    (sort_table a, sort_table b)

unfoldable pub asn_ends_after : List AsnRange → ℕ → ℕ → Bool
asn_ends_after rs x i = elim (get_elem? rs i) [ none ↦ false | some r ↦ leb x r.stop ]

-- One half of `Lookup`.
unfoldable pub lookup_half : List AsnRange → ℕ → Option ℕ
lookup_half rs x = elim (get_elem? rs (search (length rs) (asn_ends_after rs x))) [
  | none ↦ none
  | some r ↦ if leb r.start x then some r.asn else none
]

-- `Lookup`
unfoldable pub asn_lookup : GeoLib → AsnRanges → GoString → Option ℕ
asn_lookup lib t ip = elim (lib.to4 ip) [
  | some x ↦ lookup_half t.v4 x
  | none ↦ lookup_half t.v6 (lib.to16 ip)
]

-- `ParseASN`
unfoldable pub parse_asn : GeoLib → GoString → Option ℕ
parse_asn lib s = parse_number (trim_prefix (to_upper lib (trim_space lib.unicode s)) (ascii "AS"))
