-- ===== src/Geoip/Lookup.antt =====
-- The answers of `Contains` (internal/geoip/table.go).
use irongrid_dns.Prelude.{
  ℕ, zero, suc, ◌+◌, ◌≤◌, ◌<◌, ◌≡◌, refl, ◌∙◌, Bool, true, false, List, [], ◌∷◌, arith, leb, length,
  if◌then◌else◌, ◌-◌,
}
use irongrid_dns.Geoip.Search.{search, search_from, IsFirst, search-IsFirst}
use irongrid_dns.Geoip.Ranges.{
  Range4, u32_mod, insert_sorted, sort_ranges, merge_from, merge_ranges4, sort_merge4, in_range4,
  covers, ends_after, starts_before, contains4,
}
use irongrid_dns.Geoip.Merge.{AllRanges, Apart, sort_merge_lem}

-- The same question asked of the ranges one after the other.
first_end : List Range4 → ℕ → Bool
first_end [] x = false
first_end (r ∷ rs) x = if leb x r.stop then leb r.start x else first_end rs x

Apart-covers : (lo : ℕ) (rs : List Range4) (x : ℕ) → Apart lo rs → x < lo → covers rs x ≡ false
unfolding covers in_range4
Apart-covers lo [] x a h = refl
Apart-covers lo (r ∷ rs) x a h =
    ground (arith, Apart-covers (r.stop + 2) rs x a.2 (omega (arith, a.0, a.1)), a.0)

first_end-covers : (lo : ℕ) (rs : List Range4) (x : ℕ) → Apart lo rs → first_end rs x ≡ covers rs x
unfolding first_end covers in_range4
first_end-covers lo [] x a = refl
first_end-covers lo (r ∷ rs) x a =
    ground (arith, first_end-covers (r.stop + 2) rs x a.2, Apart-covers (r.stop + 2) rs x a.2)

all_after :
    (lo : ℕ) (rs : List Range4) (x j : ℕ)
    → Apart lo rs
    → x < lo
    → j < length rs
    → ends_after rs x j ≡ true
unfolding ends_after
all_after lo [] x j a h lt = absurd (omega arith)
all_after lo (r ∷ rs) x zero a h lt = ground (arith, a.0, a.1)
all_after lo (r ∷ rs) x (suc j) a h lt =
    all_after (r.stop + 2) rs x j a.2 (omega (arith, a.0, a.1)) (omega arith)

ends_after_mono :
    (lo : ℕ) (rs : List Range4) (x i j : ℕ)
    → Apart lo rs
    → i ≤ j
    → j < length rs
    → ends_after rs x i ≡ true
    → ends_after rs x j ≡ true
unfolding ends_after
ends_after_mono lo [] x i j a h lt hit = absurd (omega arith)
ends_after_mono lo (r ∷ rs) x zero zero a h lt hit = hit
ends_after_mono lo (r ∷ rs) x zero (suc j) a h lt hit =
    all_after (r.stop + 2) rs x j a.2 (ground arith) (omega arith)
ends_after_mono lo (r ∷ rs) x (suc i) zero a h lt hit = absurd (omega arith)
ends_after_mono lo (r ∷ rs) x (suc i) (suc j) a h lt hit =
    ends_after_mono (r.stop + 2) rs x i j a.2 (omega arith) (omega arith) hit

IsFirst-suc :
    (r : Range4) (rs : List Range4) (x k : ℕ)
    → IsFirst (length (r ∷ rs)) (ends_after (r ∷ rs) x) (suc k)
    → IsFirst (length rs) (ends_after rs x) k
unfolding ends_after
IsFirst-suc r rs x k f = record {
  in_range = omega (arith, f.in_range);
  before = λ i lt. f.before (suc i) (omega arith);
  at = λ lt. f.at (omega arith);
}

-- The first range that ends at the address or after it decides.
starts-first_end :
    (rs : List Range4) (x k : ℕ)
    → IsFirst (length rs) (ends_after rs x) k
    → starts_before rs x k ≡ first_end rs x
unfolding starts_before first_end ends_after
starts-first_end [] x k f = refl
starts-first_end (r ∷ rs) x zero f = rw (f.at (omega arith)) refl
starts-first_end (r ∷ rs) x (suc k) f =
    rw (f.before 0 (omega arith)) (starts-first_end rs x k (IsFirst-suc r rs x k f))

-- The table built from ranges that all end below 255.255.255.255 answers for every address
-- whether one of the ranges holds it, in no more rounds of the search than it has ranges.
pub contains-sort_merge :
    (rs : List Range4) (x : ℕ) → AllRanges rs → contains4 (sort_merge4 rs) x ≡ covers rs x
unfolding contains4
contains-sort_merge rs x a =
    let table = sort_merge4 rs in
    let (same, apart) = sort_merge_lem rs x a in
    starts-first_end table x (search (length table) (ends_after table x)) (
      search-IsFirst (length table) (ends_after table x)
        (λ i j h lt hit. ends_after_mono 0 table x i j apart h lt hit))
    ∙ first_end-covers 0 table x apart
    ∙ same

-- A range that ends at 255.255.255.255 hides itself behind a later one: with a second range
-- inside it, the table denies every address behind the second range, though the first holds it.
top_range_missed :
    (first second : Range4) (x : ℕ)
    → first.stop ≡ u32_mod - 1
    → first.start < second.start
    → second.start ≤ second.stop
    → second.stop < x
    → x < u32_mod
    → (covers (first ∷ second ∷ []) x ≡ true)
      × (contains4 (sort_merge4 (first ∷ second ∷ [])) x ≡ false)
unfolding contains4 sort_merge4 sort_ranges insert_sorted merge_ranges4 merge_from search
    search_from covers in_range4 ends_after starts_before
top_range_missed first second x top inside ordered behind lt = (ground arith, ground arith)
