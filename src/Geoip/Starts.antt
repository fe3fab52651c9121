-- ===== src/Geoip/Starts.antt =====
-- internal/geoip/table.go: where a range starts and what becomes of its start in a merged table.
use irongrid_dns.Prelude.{
  ℕ, ◌+◌, ◌%◌, ◌^◌, ◌≤◌, ◌≡◌, refl, sym, ap, subst, ◌⊎◌, inl, inr, true, false, List, [], ◌∷◌,
  arith, ltb, leb, if◌then◌else◌, Bool-cases,
}
use irongrid_dns.Geoip.Ranges.{
  Range4, u32_mod, insert_sorted, sort_ranges, merge_from, merge_ranges4,
}
use irongrid_dns.Geoip.Merge.{Rising, Rising-mono, grow}
use irongrid_dns.Geoip.Blocker.{merge_from6, merge_ranges6}

-- Ranges that do not end before they start.
abbrev pub Ordered : List Range4 → Type 0
Ordered [] = Unit
Ordered (r ∷ rs) = (r.start ≤ r.stop) × Ordered rs

-- A range starts at the address.
abbrev pub HasStart : ℕ → List Range4 → Type 0
HasStart x [] = ⊥
HasStart x (r ∷ rs) = (r.start ≡ x) ⊎ HasStart x rs

Rising-HasStart : (lo x : ℕ) (rs : List Range4) → Rising lo rs → HasStart x rs → lo ≤ x
Rising-HasStart lo x [] s m = absurd m
Rising-HasStart lo x (r ∷ rs) s (inl e) = omega (arith, s.0, e)
Rising-HasStart lo x (r ∷ rs) s (inr m) = omega (arith, s.0, Rising-HasStart r.start x rs s.1 m)

insert-Ordered :
    (r : Range4) (rs : List Range4) → r.start ≤ r.stop → Ordered rs → Ordered (insert_sorted r rs)
unfolding insert_sorted
insert-Ordered r [] i a = (i, tt)
insert-Ordered r (q ∷ rs) i a = elim (Bool-cases (leb r.start q.start)) [
  | inl before ↦ rw before (i, a)
  | inr after ↦ rw after (a.0, insert-Ordered r rs i a.1)
]

insert-HasStart :
    (x : ℕ) (r : Range4) (rs : List Range4) → HasStart x (r ∷ rs) → HasStart x (insert_sorted r rs)
unfolding insert_sorted
insert-HasStart x r [] m = m
insert-HasStart x r (q ∷ rs) m = elim (Bool-cases (leb r.start q.start)) [
  | inl before ↦ rw before m
  | inr after ↦ rw after (later (insert-HasStart x r rs) m)
]
  where
    later :
        (HasStart x (r ∷ rs) → HasStart x (insert_sorted r rs))
        → HasStart x (r ∷ q ∷ rs)
        → HasStart x (q ∷ insert_sorted r rs)
    later rest (inl e) = inr (rest (inl e))
    later rest (inr (inl e)) = inl e
    later rest (inr (inr n)) = inr (rest (inr n))

pub sort-Ordered : (rs : List Range4) → Ordered rs → Ordered (sort_ranges rs)
unfolding sort_ranges
sort-Ordered [] a = tt
sort-Ordered (r ∷ rs) a = insert-Ordered r (sort_ranges rs) a.0 (sort-Ordered rs a.1)

pub sort-HasStart : (x : ℕ) (rs : List Range4) → HasStart x rs → HasStart x (sort_ranges rs)
unfolding sort_ranges
sort-HasStart x [] m = m
sort-HasStart x (r ∷ rs) (inl e) = insert-HasStart x r (sort_ranges rs) (inl e)
sort-HasStart x (r ∷ rs) (inr m) = insert-HasStart x r (sort_ranges rs) (inr (sort-HasStart x rs m))

-- The merge of either family, where an end plus one is taken modulo `w`.
unfoldable merge_at : ℕ → Range4 → List Range4 → List Range4
merge_at w last [] = last ∷ []
merge_at w last (r ∷ rs) = elim (leb r.start ((last.stop + 1) % w)) [
  | true ↦
      merge_at w
        (record { start = last.start; stop = if ltb last.stop r.stop then r.stop else last.stop })
        rs
  | false ↦ last ∷ merge_at w r rs
]

merge_from-merge_at :
    (last : Range4) (rs : List Range4) → merge_from last rs ≡ merge_at u32_mod last rs
unfolding merge_from merge_at
merge_from-merge_at last [] = refl
merge_from-merge_at last (r ∷ rs) = elim (Bool-cases (leb r.start ((last.stop + 1) % u32_mod))) [
  | inl joined ↦ rw (joined, merge_from, merge_at) (merge_from-merge_at (grow last r) rs)
  | inr gap ↦ rw (gap, merge_from, merge_at) (ap (λ t. last ∷ t) (merge_from-merge_at r rs))
]

merge_from6-merge_at :
    (last : Range4) (rs : List Range4) → merge_from6 last rs ≡ merge_at (2 ^ 128) last rs
unfolding merge_from6 merge_at
merge_from6-merge_at last [] = refl
merge_from6-merge_at last (r ∷ rs) = elim (Bool-cases (leb r.start ((last.stop + 1) % 2 ^ 128))) [
  | inl joined ↦ rw (joined, merge_from6, merge_at) (merge_from6-merge_at (grow last r) rs)
  | inr gap ↦ rw (gap, merge_from6, merge_at) (ap (λ t. last ∷ t) (merge_from6-merge_at r rs))
]

-- All ranges end at the address or after it.
abbrev pub AllEnd : ℕ → List Range4 → Type 0
AllEnd x [] = Unit
AllEnd x (r ∷ rs) = (x ≤ r.stop) × AllEnd x rs

-- A place where the ranges from there on end at the address or after it, and those up to there
-- start at it or before.
abbrev pub Split : ℕ → List Range4 → Type 0
Split x [] = ⊥
Split x (r ∷ rs) = (r.start ≤ x) × (((x ≤ r.stop) × AllEnd x rs) ⊎ Split x rs)

module _ (w x : ℕ) where
  merge-AllEnd :
      (last : Range4) (rs : List Range4)
      → x ≤ last.stop
      → Rising x rs
      → Ordered rs
      → AllEnd x (merge_at w last rs)
  unfolding merge_at
  merge-AllEnd last [] h s o = (h, tt)
  merge-AllEnd last (r ∷ rs) h s o = elim (Bool-cases (leb r.start ((last.stop + 1) % w))) [
    | inl joined ↦
        rw (joined, merge_at)
          (merge-AllEnd (grow last r) rs (ground arith) (Rising-mono x r.start rs s.0 s.1) o.1)
    | inr gap ↦
        rw (gap, merge_at)
          (h, merge-AllEnd r rs (omega (arith, s.0, o.0)) (Rising-mono x r.start rs s.0 s.1) o.1)
  ]

  -- The last range of the table so far holds the address.
  merge-held :
      (last : Range4) (rs : List Range4)
      → last.start ≤ x
      → x ≤ last.stop
      → Rising x rs
      → Ordered rs
      → Split x (merge_at w last rs)
  unfolding merge_at
  merge-held last [] a b s o = (a, inl (b, tt))
  merge-held last (r ∷ rs) a b s o = elim (Bool-cases (leb r.start ((last.stop + 1) % w))) [
    | inl joined ↦
        rw (joined, merge_at)
          (merge-held (grow last r) rs a (ground arith) (Rising-mono x r.start rs s.0 s.1) o.1)
    | inr gap ↦
        rw (gap, merge_at)
          (
            a,
            inl (
              b,
              merge-AllEnd r rs (omega (arith, s.0, o.0)) (Rising-mono x r.start rs s.0 s.1) o.1,
            ),
          )
  ]

  -- The table begins with a range, which starts at the address or leaves that to a later one.
  first-Split :
      (r : Range4) (rs : List Range4)
      → r.start ≤ r.stop
      → Rising r.start rs
      → Ordered rs
      → (HasStart x rs → Split x (merge_at w r rs))
      → HasStart x (r ∷ rs)
      → Split x (merge_at w r rs)
  first-Split r rs i s o rest (inl e) =
      merge-held r rs (omega (arith, e)) (omega (arith, e, i)) (subst (λ y. Rising y rs) e s) o
  first-Split r rs i s o rest (inr n) = rest n

  joined-Split :
      (last r : Range4) (rs : List Range4)
      → last.start ≤ x
      → r.start ≤ r.stop
      → Rising r.start rs
      → Ordered rs
      → (HasStart x rs → Split x (merge_at w (grow last r) rs))
      → HasStart x (r ∷ rs)
      → Split x (merge_at w (grow last r) rs)
  joined-Split last r rs below i s o rest (inl e) =
      merge-held (grow last r) rs below (ground (arith, e, i)) (subst (λ y. Rising y rs) e s) o
  joined-Split last r rs below i s o rest (inr n) = rest n

  merge-Split :
      (last : Range4) (rs : List Range4)
      → Rising last.start rs
      → Ordered rs
      → HasStart x rs
      → Split x (merge_at w last rs)
  unfolding merge_at
  merge-Split last [] s o m = absurd m
  merge-Split last (r ∷ rs) s o m =
      let below = Rising-HasStart last.start x (r ∷ rs) s m in
      elim (Bool-cases (leb r.start ((last.stop + 1) % w))) [
        | inl joined ↦
            rw (joined, merge_at)
              (joined-Split last r rs below o.0 s.1 o.1
                (merge-Split (grow last r) rs (Rising-mono last.start r.start rs s.0 s.1) o.1) m)
        | inr gap ↦
            rw (gap, merge_at)
              (below, inr (first-Split r rs o.0 s.1 o.1 (merge-Split r rs s.1 o.1) m))
      ]

pub merge4-Split :
    (x : ℕ) (rs : List Range4)
    → Rising 0 rs
    → Ordered rs
    → HasStart x rs
    → Split x (merge_ranges4 rs)
unfolding merge_ranges4
merge4-Split x [] s o m = absurd m
merge4-Split x (r ∷ rs) s o m =
    subst (Split x) (sym (merge_from-merge_at r rs))
      (first-Split u32_mod x r rs o.0 s.1 o.1 (merge-Split u32_mod x r rs s.1 o.1) m)

pub merge6-Split :
    (x : ℕ) (rs : List Range4)
    → Rising 0 rs
    → Ordered rs
    → HasStart x rs
    → Split x (merge_ranges6 rs)
unfolding merge_ranges6
merge6-Split x [] s o m = absurd m
merge6-Split x (r ∷ rs) s o m =
    subst (Split x) (sym (merge_from6-merge_at r rs))
      (first-Split (2 ^ 128) x r rs o.0 s.1 o.1 (merge-Split (2 ^ 128) x r rs s.1 o.1) m)
