-- ===== src/Geoip/Ranges.antt =====
-- internal/geoip/table.go: the IPv4 ranges of a table. An address is a number below 2 ^ 32.
use irongrid_dns.Prelude.{
  ℕ, ◌+◌, ◌%◌, ◌^◌, Bool, true, false, ◌&&◌, ◌||◌, List, [], ◌∷◌, none, some, ltb, leb, length,
  get_elem?, if◌then◌else◌,
}
use irongrid_dns.Geoip.Search.{search}

pub record Range4 : Type 0 where
  pub start : ℕ
  pub stop : ℕ

abbrev pub u32_mod : ℕ
u32_mod = 2 ^ 32

-- `slices.SortFunc` by the start address, as an insertion sort.
unfoldable pub insert_sorted : Range4 → List Range4 → List Range4
insert_sorted r [] = r ∷ []
insert_sorted r (q ∷ rs) = if leb r.start q.start then r ∷ q ∷ rs else q ∷ insert_sorted r rs

unfoldable pub sort_ranges : List Range4 → List Range4
unfolding insert_sorted
sort_ranges [] = []
sort_ranges (r ∷ rs) = insert_sorted r (sort_ranges rs)

-- The loop of `mergeRanges4`: `last` is the last range of `out`, which may still grow. The end of
-- a range plus one is a `uint32`.
unfoldable pub merge_from : Range4 → List Range4 → List Range4
merge_from last [] = last ∷ []
merge_from last (r ∷ rs) = elim (leb r.start ((last.stop + 1) % u32_mod)) [
  | true ↦
      merge_from
        (record { start = last.start; stop = if ltb last.stop r.stop then r.stop else last.stop })
        rs
  | false ↦ last ∷ merge_from r rs
]

unfoldable pub merge_ranges4 : List Range4 → List Range4
unfolding merge_from
merge_ranges4 [] = []
merge_ranges4 (r ∷ rs) = merge_from r rs

-- `sortMerge`, for the IPv4 half.
unfoldable pub sort_merge4 : List Range4 → List Range4
unfolding sort_ranges merge_ranges4
sort_merge4 rs = merge_ranges4 (sort_ranges rs)

-- `t.v4[i].end >= x`. The search asks only for indices in range.
unfoldable pub ends_after : List Range4 → ℕ → ℕ → Bool
ends_after rs x i = elim (get_elem? rs i) [ none ↦ false | some r ↦ leb x r.stop ]

-- `i < len(t.v4) && t.v4[i].start <= x`
unfoldable pub starts_before : List Range4 → ℕ → ℕ → Bool
starts_before rs x i = elim (get_elem? rs i) [ none ↦ false | some r ↦ leb r.start x ]

-- `Contains`, on the IPv4 half of a table.
unfoldable pub contains4 : List Range4 → ℕ → Bool
unfolding ends_after starts_before search
contains4 rs x = starts_before rs x (search (length rs) (ends_after rs x))

-- What the table is to answer: some range of the list holds the address.
unfoldable pub in_range4 : Range4 → ℕ → Bool
in_range4 r x = leb r.start x && leb x r.stop

unfoldable pub covers : List Range4 → ℕ → Bool
unfolding in_range4
covers [] x = false
covers (r ∷ rs) x = in_range4 r x || covers rs x
