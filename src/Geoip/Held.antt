-- ===== src/Geoip/Held.antt =====
-- internal/geoip/table.go: the search of a merged table for the address at which a range starts.
use irongrid_dns.Prelude.{
  either_way, ℕ, zero, suc, ◌+◌, ◌-◌, ◌/◌, ◌≤◌, ◌<◌, ◌≡◌, refl, sym, subst, ◌⊎◌, inl, inr, Bool,
  true, false, none, some, not, List, [], ◌∷◌, arith, ltb, length, if◌then◌else◌, Bool-cases,
}
use irongrid_dns.Geoip.Search.{search, search_from}
use irongrid_dns.Geoip.Ranges.{
  Range4, sort_ranges, sort_merge4, ends_after, starts_before, contains4,
}
use irongrid_dns.Geoip.Merge.{sort-Rising}
use irongrid_dns.Geoip.Starts.{
  Ordered, HasStart, AllEnd, Split, sort-Ordered, sort-HasStart, merge4-Split, merge6-Split,
}
use irongrid_dns.Geoip.Nets.{IpNet, range_of, ranges_of, table_of_nets, table_contains}
use irongrid_dns.Geoip.Blocker.{merge_ranges6, sort_merge}

-- The search, on a test that holds from some place on, ends there or before.
search_from-le :
    (f : ℕ → Bool) (n m fuel i j : ℕ)
    → ((k : ℕ) → m ≤ k → k < n → f k ≡ true)
    → m < n
    → j - i ≤ fuel
    → i ≤ m
    → j ≤ n
    → i ≤ j
    → search_from fuel f i j ≤ m
unfolding search_from
search_from-le f n m zero i j holds lt enough im jn ij = im
search_from-le f n m (suc fuel) i j holds lt enough im jn ij = elim (Bool-cases (ltb i j)) [
  | inr done ↦ rw (done, search_from) im
  | inl more ↦ elim (Bool-cases (f ((i + j) / 2))) [
    | inl hit ↦
        rw (more, hit, search_from)
          (search_from-le f n m fuel i ((i + j) / 2) holds lt (ground arith) im (ground arith)
            (ground arith))
    | inr miss ↦ elim (Bool-cases (ltb ((i + j) / 2) m)) [
      | inl before ↦
          rw (more, miss, search_from)
            (search_from-le f n m fuel ((i + j) / 2 + 1) j holds lt (ground arith) (ground arith) jn
              (ground arith))
      | inr after ↦ absurd (ground (arith, holds ((i + j) / 2) (ground arith) (ground arith), miss))
    ]
  ]
]

AllEnd-ends_after :
    (x : ℕ) (rs : List Range4) (k : ℕ) → AllEnd x rs → k < length rs → ends_after rs x k ≡ true
unfolding ends_after
AllEnd-ends_after x [] k a lt = absurd (omega arith)
AllEnd-ends_after x (r ∷ rs) zero a lt = ground (arith, a.0)
AllEnd-ends_after x (r ∷ rs) (suc k) a lt = AllEnd-ends_after x rs k a.1 (omega arith)

-- The place of a split, as an index.
record SplitsAt (x : ℕ) (rs : List Range4) : Type 0 where
  index : ℕ
  in_range : index < length rs
  ends : (k : ℕ) → index ≤ k → k < length rs → ends_after rs x k ≡ true
  starts : (k : ℕ) → k ≤ index → starts_before rs x k ≡ true

Split-SplitsAt : (x : ℕ) (rs : List Range4) → Split x rs → SplitsAt x rs
unfolding ends_after starts_before
Split-SplitsAt x [] s = absurd s
Split-SplitsAt x (r ∷ rs) (below, inl ends') = record {
  index = 0;
  in_range = ground arith;
  ends = λ k h lt. AllEnd-ends_after x (r ∷ rs) k ends' lt;
  starts = at;
}
  where
    at : (k : ℕ) → k ≤ 0 → starts_before (r ∷ rs) x k ≡ true
    at zero h = ground (arith, below)
    at (suc k) h = absurd (omega arith)
Split-SplitsAt x (r ∷ rs) (below, inr s) =
    let i = Split-SplitsAt x rs s in
    record {
      index = i.index + 1;
      in_range = omega (arith, i.in_range);
      ends = later i;
      starts = at i;
    }
  where
    later :
        (i : SplitsAt x rs) (k : ℕ)
        → i.index + 1 ≤ k
        → k < length (r ∷ rs)
        → ends_after (r ∷ rs) x k ≡ true
    later i zero h lt = absurd (omega arith)
    later i (suc k) h lt = i.ends k (omega arith) (omega arith)

    at : (i : SplitsAt x rs) (k : ℕ) → k ≤ i.index + 1 → starts_before (r ∷ rs) x k ≡ true
    at i zero h = ground (arith, below)
    at i (suc k) h = i.starts k (omega arith)

Split-contains : (x : ℕ) (rs : List Range4) → Split x rs → contains4 rs x ≡ true
unfolding contains4 search
Split-contains x rs s =
    let i = Split-SplitsAt x rs s in
    i.starts _ (
      search_from-le (ends_after rs x) (length rs) i.index (length rs) 0 (length rs) i.ends
        i.in_range (omega arith) (omega arith) (omega arith) (omega arith))

-- A table finds the first address of each of its ranges, however they overlap.
pub contains-HasStart4 :
    (x : ℕ) (rs : List Range4) → Ordered rs → HasStart x rs → contains4 (sort_merge4 rs) x ≡ true
unfolding sort_merge4
contains-HasStart4 x rs o m =
    Split-contains x _
      (merge4-Split x (sort_ranges rs) (sort-Rising rs) (sort-Ordered rs o) (sort-HasStart x rs m))

pub contains-HasStart6 :
    (x : ℕ) (rs : List Range4)
    → Ordered rs
    → HasStart x rs
    → contains4 (merge_ranges6 (sort_ranges rs)) x ≡ true
contains-HasStart6 x rs o m =
    Split-contains x _
      (merge6-Split x (sort_ranges rs) (sort-Rising rs) (sort-Ordered rs o) (sort-HasStart x rs m))

-- A network is one of the list.
abbrev pub Among : IpNet → List IpNet → Type 0
Among n [] = ⊥
Among n (m ∷ ns) = (m ≡ n) ⊎ Among n ns

ranges_of-Ordered : (bits : ℕ) (wide : Bool) (ns : List IpNet) → Ordered (ranges_of bits wide ns)
unfolding ranges_of range_of
ranges_of-Ordered bits wide [] = tt
ranges_of-Ordered bits wide (n ∷ ns) =
    either_way Ordered (if wide then n.is_wide else not n.is_wide) _ _
      (omega arith, ranges_of-Ordered bits wide ns) (ranges_of-Ordered bits wide ns)

ranges_of-HasStart :
    (bits : ℕ) (wide : Bool) (n : IpNet) (ns : List IpNet) (x : ℕ)
    → (if wide then n.is_wide else not n.is_wide) ≡ true
    → (range_of bits n).start ≡ x
    → Among n ns
    → HasStart x (ranges_of bits wide ns)
unfolding ranges_of
ranges_of-HasStart bits wide n [] x same at m = absurd m
ranges_of-HasStart bits wide n (k ∷ ns) x same at (inl e) =
    subst (λ (y : IpNet). HasStart x (ranges_of bits wide (y ∷ ns))) (sym e) (rw same (inl at))
ranges_of-HasStart bits wide n (k ∷ ns) x same at (inr m) =
    either_way (HasStart x) (if wide then k.is_wide else not k.is_wide) _ _
      (inr (ranges_of-HasStart bits wide n ns x same at m))
      (ranges_of-HasStart bits wide n ns x same at m)

-- The table of some networks finds an address that is one of them.
pub table_contains-narrow :
    (n : IpNet) (ns : List IpNet) (x wide : ℕ)
    → n.is_wide ≡ false
    → n.address ≡ x
    → n.ones ≡ 32
    → Among n ns
    → table_contains (some x) wide (table_of_nets ns) ≡ true
unfolding table_contains table_of_nets sort_merge range_of
table_contains-narrow n ns x wide family at whole m =
    contains-HasStart4 x (ranges_of 32 false ns) (ranges_of-Ordered 32 false ns)
      (ranges_of-HasStart 32 false n ns x (rw family refl) (rw (whole, at) (omega arith)) m)

pub table_contains-wide :
    (n : IpNet) (ns : List IpNet) (x : ℕ)
    → n.is_wide ≡ true
    → n.address ≡ x
    → n.ones ≡ 128
    → Among n ns
    → table_contains none x (table_of_nets ns) ≡ true
unfolding table_contains table_of_nets sort_merge range_of
table_contains-wide n ns x family at whole m =
    contains-HasStart6 x (ranges_of 128 true ns) (ranges_of-Ordered 128 true ns)
      (ranges_of-HasStart 128 true n ns x (rw family refl) (rw (whole, at) (omega arith)) m)
