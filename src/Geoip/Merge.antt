-- ===== src/Geoip/Merge.antt =====
-- Sorting and merging keep the addresses and leave the ranges disjoint (internal/geoip/table.go).
use irongrid_dns.Prelude.{
  ℕ, ◌+◌, ◌%◌, ◌≤◌, ◌<◌, ◌≡◌, refl, ap, ◌∙◌, inl, inr, ◌||◌, List, [], ◌∷◌, arith, ltb, leb,
  if◌then◌else◌, Bool-cases,
}
use irongrid_dns.Geoip.Ranges.{
  Range4, u32_mod, insert_sorted, sort_ranges, merge_from, merge_ranges4, sort_merge4, in_range4,
  covers,
}

-- A range that does not end at the last address, 255.255.255.255.
pub record IsRange (r : Range4) : Type 0 where
  pub ordered : r.start ≤ r.stop
  pub below_top : r.stop + 1 < u32_mod

abbrev pub AllRanges : List Range4 → Type 0
AllRanges [] = Unit
AllRanges (r ∷ rs) = IsRange r × AllRanges rs

-- Starts that do not fall, from `lo` on.
abbrev pub Rising : ℕ → List Range4 → Type 0
Rising lo [] = Unit
Rising lo (r ∷ rs) = (lo ≤ r.start) × Rising r.start rs

-- Ranges with a gap between any two, from `lo` on.
abbrev pub Apart : ℕ → List Range4 → Type 0
Apart lo [] = Unit
Apart lo (r ∷ rs) = (lo ≤ r.start) × (r.start ≤ r.stop) × Apart (r.stop + 2) rs

pub Rising-mono : (a b : ℕ) (rs : List Range4) → a ≤ b → Rising b rs → Rising a rs
Rising-mono a b [] h s = tt
Rising-mono a b (r ∷ rs) h s = (omega arith, s.1)

insert-Rising :
    (lo : ℕ) (r : Range4) (rs : List Range4)
    → lo ≤ r.start
    → Rising lo rs
    → Rising lo (insert_sorted r rs)
unfolding insert_sorted
insert-Rising lo r [] h s = (h, tt)
insert-Rising lo r (q ∷ rs) h s = elim (Bool-cases (leb r.start q.start)) [
  | inl before ↦ rw before (h, (ground arith, s.1))
  | inr after ↦ rw after (s.0, insert-Rising q.start r rs (ground arith) s.1)
]

insert-AllRanges :
    (r : Range4) (rs : List Range4) → IsRange r → AllRanges rs → AllRanges (insert_sorted r rs)
unfolding insert_sorted
insert-AllRanges r [] i a = (i, tt)
insert-AllRanges r (q ∷ rs) i a = elim (Bool-cases (leb r.start q.start)) [
  | inl before ↦ rw before (i, a)
  | inr after ↦ rw after (a.0, insert-AllRanges r rs i a.1)
]

insert-covers :
    (r : Range4) (rs : List Range4) (x : ℕ)
    → covers (insert_sorted r rs) x ≡ (in_range4 r x || covers rs x)
unfolding insert_sorted covers
insert-covers r [] x = refl
insert-covers r (q ∷ rs) x = ground (arith, insert-covers r rs x)

pub sort-Rising : (rs : List Range4) → Rising 0 (sort_ranges rs)
unfolding sort_ranges
sort-Rising [] = tt
sort-Rising (r ∷ rs) = insert-Rising 0 r (sort_ranges rs) (omega arith) (sort-Rising rs)

sort-AllRanges : (rs : List Range4) → AllRanges rs → AllRanges (sort_ranges rs)
unfolding sort_ranges
sort-AllRanges [] a = tt
sort-AllRanges (r ∷ rs) a = insert-AllRanges r (sort_ranges rs) a.0 (sort-AllRanges rs a.1)

sort-covers : (rs : List Range4) (x : ℕ) → covers (sort_ranges rs) x ≡ covers rs x
unfolding sort_ranges covers
sort-covers [] x = refl
sort-covers (r ∷ rs) x =
    insert-covers r (sort_ranges rs) x ∙ ap (λ b. in_range4 r x || b) (sort-covers rs x)

abbrev pub grow : Range4 → Range4 → Range4
grow last r = record {
  start = last.start;
  stop = if ltb last.stop r.stop then r.stop else last.stop;
}

grow-IsRange : (last r : Range4) → IsRange last → IsRange r → IsRange (grow last r)
grow-IsRange last r a b = record { ordered = ground arith; below_top = ground arith }

grow-in_range :
    (last r : Range4) (x : ℕ)
    → IsRange last
    → IsRange r
    → last.start ≤ r.start
    → r.start ≤ last.stop + 1
    → in_range4 (grow last r) x ≡ (in_range4 last x || in_range4 r x)
unfolding in_range4
grow-in_range last r x i j h k = ground arith

merge-covers :
    (last : Range4) (rs : List Range4) (x : ℕ)
    → IsRange last
    → AllRanges rs
    → Rising last.start rs
    → covers (merge_from last rs) x ≡ (in_range4 last x || covers rs x)
unfolding merge_from covers
merge-covers last [] x i a s = refl
merge-covers last (r ∷ rs) x i a s = elim (Bool-cases (leb r.start ((last.stop + 1) % u32_mod))) [
  | inl joined ↦
      rw (joined, merge_from)
        (merge-covers (grow last r) rs x (grow-IsRange last r i a.0) a.1
            (Rising-mono last.start r.start rs s.0 s.1)
          ∙ ground (arith, grow-in_range last r x i a.0 s.0 (ground arith)))
  | inr gap ↦
      rw (gap, merge_from) (ap (λ b. in_range4 last x || b) (merge-covers r rs x a.0 a.1 s.1))
]

merge-Apart :
    (lo : ℕ) (last : Range4) (rs : List Range4)
    → lo ≤ last.start
    → IsRange last
    → AllRanges rs
    → Rising last.start rs
    → Apart lo (merge_from last rs)
unfolding merge_from
merge-Apart lo last [] h i a s = (h, i.ordered, tt)
merge-Apart lo last (r ∷ rs) h i a s = elim (Bool-cases (leb r.start ((last.stop + 1) % u32_mod))) [
  | inl joined ↦
      rw (joined, merge_from)
        (merge-Apart lo (grow last r) rs h (grow-IsRange last r i a.0) a.1
          (Rising-mono last.start r.start rs s.0 s.1))
  | inr gap ↦
      rw (gap, merge_from)
        (h, i.ordered, merge-Apart (last.stop + 2) r rs (ground arith) a.0 a.1 s.1)
]

merge_ranges-covers :
    (rs : List Range4) (x : ℕ)
    → AllRanges rs
    → Rising 0 rs
    → covers (merge_ranges4 rs) x ≡ covers rs x
unfolding merge_ranges4 covers
merge_ranges-covers [] x a s = refl
merge_ranges-covers (r ∷ rs) x a s = merge-covers r rs x a.0 a.1 s.1

merge_ranges-Apart : (rs : List Range4) → AllRanges rs → Rising 0 rs → Apart 0 (merge_ranges4 rs)
unfolding merge_ranges4
merge_ranges-Apart [] a s = tt
merge_ranges-Apart (r ∷ rs) a s = merge-Apart 0 r rs s.0 a.0 a.1 s.1

-- Of ranges that all end below 255.255.255.255, the table keeps exactly the addresses, and its
-- own ranges rise with at least one address between any two.
pub sort_merge_lem :
    (rs : List Range4) (x : ℕ)
    → AllRanges rs
    → (covers (sort_merge4 rs) x ≡ covers rs x) × Apart 0 (sort_merge4 rs)
unfolding sort_merge4
sort_merge_lem rs x a =
    let sorted = sort-Rising rs in
    let valid = sort-AllRanges rs a in
    (
      merge_ranges-covers (sort_ranges rs) x valid sorted ∙ sort-covers rs x,
      merge_ranges-Apart (sort_ranges rs) valid sorted,
    )
