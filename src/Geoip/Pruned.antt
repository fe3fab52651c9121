-- ===== src/Geoip/Pruned.antt =====
-- internal/geoip/asn.go: the tables hold the providers that they are for.
use irongrid_dns.Prelude.{
  either_way, ℕ, zero, suc, ◌≡◌, refl, sym, subst, ◌∙◌, inl, inr, Bool, true, false, not, ◌&&◌,
  List, [], ◌∷◌, ◌++◌, Option, none, some, arith, leb, length, get_elem?, Bool-cases, Option-cases,
}
use irongrid_dns.Bytes.{GoString}
use irongrid_dns.Text.{split}
use irongrid_dns.Geoip.Search.{search}
use irongrid_dns.Geoip.Blocker.{GeoLib}
use irongrid_dns.Geoip.Asn.{
  NetipAddr, AsnRange, AsnRanges, AsnLine, parse_asn_line, is4, is4_in6, add_range, add_line,
  parse_dataset, insert_range, sort_asns, sort_table, load_asn_tables, asn_ends_after, lookup_half,
  asn_lookup,
}

module _ (keep : ℕ → Type 0) where
  -- Every range is of a provider that is kept.
  abbrev pub AllKept : List AsnRange → Type 0
  AllKept [] = Unit
  AllKept (r ∷ rs) = keep r.asn × AllKept rs

  abbrev pub BothKept : AsnRanges → Type 0
  BothKept t = AllKept t.v4 × AllKept t.v6

  append-AllKept :
      (rs : List AsnRange) (r : AsnRange) → AllKept rs → keep r.asn → AllKept (rs ++ (r ∷ []))
  append-AllKept [] r a k = (k, tt)
  append-AllKept (q ∷ rs) r a k = (a.0, append-AllKept rs r a.1 k)

  insert_range-AllKept :
      (r : AsnRange) (rs : List AsnRange) → keep r.asn → AllKept rs → AllKept (insert_range r rs)
  unfolding insert_range
  insert_range-AllKept r [] k a = (k, tt)
  insert_range-AllKept r (q ∷ rs) k a =
      either_way AllKept (leb r.start q.start) _ _ (k, a) (a.0, insert_range-AllKept r rs k a.1)

  sort_asns-AllKept : (rs : List AsnRange) → AllKept rs → AllKept (sort_asns rs)
  unfolding sort_asns
  sort_asns-AllKept [] a = tt
  sort_asns-AllKept (r ∷ rs) a =
      insert_range-AllKept r (sort_asns rs) a.0 (sort_asns-AllKept rs a.1)

  get_elem?-AllKept :
      (rs : List AsnRange) (i : ℕ) (r : AsnRange)
      → AllKept rs
      → get_elem? rs i ≡ some r
      → keep r.asn
  get_elem?-AllKept [] i r a e = absurd (ground (arith, e))
  get_elem?-AllKept (q ∷ rs) zero r a e = subst (λ (s : Option AsnRange). kept s) e a.0
    where
      kept : Option AsnRange → Type 0
      kept none = Unit
      kept (some s) = keep s.asn
  get_elem?-AllKept (q ∷ rs) (suc i) r a e = get_elem?-AllKept rs i r a.1 e

  lookup_half-kept :
      (rs : List AsnRange) (x n : ℕ) → AllKept rs → lookup_half rs x ≡ some n → keep n
  unfolding lookup_half
  lookup_half-kept rs x n a e =
      let i = search (length rs) (asn_ends_after rs x) in
      elim (Option-cases (get_elem? rs i)) [
        | inl out ↦ absurd (ground (arith, e, out))
        | inr (r, found) ↦ elim (Bool-cases (leb r.start x)) [
          | inr before ↦ absurd (ground (arith, e, found, before))
          | inl within ↦
              subst keep (ground (arith, e, found, within)) (get_elem?-AllKept rs i r a found)
        ]
      ]

  asn_lookup-kept :
      (lib : GeoLib) (t : AsnRanges) (ip : GoString) (n : ℕ)
      → BothKept t
      → asn_lookup lib t ip ≡ some n
      → keep n
  unfolding asn_lookup
  asn_lookup-kept lib t ip n a e = elim (Option-cases (lib.to4 ip)) [
    | inl wide ↦ lookup_half-kept t.v6 (lib.to16 ip) n a.1 (sym (half_of_none wide) ∙ e)
    | inr (x, four) ↦ lookup_half-kept t.v4 x n a.0 (sym (half_of_some x four) ∙ e)
  ]
    where
      half_of_none : lib.to4 ip ≡ none → asn_lookup lib t ip ≡ lookup_half t.v6 (lib.to16 ip)
      half_of_none wide = rw (asn_lookup, wide) refl

      half_of_some : (x : ℕ) → lib.to4 ip ≡ some x → asn_lookup lib t ip ≡ lookup_half t.v4 x
      half_of_some x four = rw (asn_lookup, four) refl

  add_range-BothKept :
      (wide : Bool) (l : AsnLine) (t : AsnRanges)
      → keep l.owner
      → BothKept t
      → BothKept (add_range wide l t)
  unfolding add_range
  add_range-BothKept true l t k a =
      either_way BothKept (is4_in6 l.first) _ _ a (a.0, append-AllKept t.v6 _ a.1 k)
  add_range-BothKept false l t k a =
      either_way BothKept (not (is4 l.first)) _ _ a (append-AllKept t.v4 _ a.0 k, a.1)

module _ (allow block : ℕ → Bool) where
  -- The two tables hold what they are for; a provider that is on both lists is allowed.
  abbrev pub ArePruned : AsnRanges × AsnRanges → Type 0
  ArePruned (a, b) =
      BothKept (λ n. allow n ≡ true) a × BothKept (λ n. (allow n ≡ false) × (block n ≡ true)) b

  add_line-ArePruned :
      (wide : Bool) (l : AsnLine) (ts : AsnRanges × AsnRanges)
      → ArePruned ts
      → ArePruned (add_line allow block wide l ts)
  unfolding add_line
  add_line-ArePruned wide l (a, b) p = elim (Bool-cases (allow l.owner)) [
    | inl on ↦ rw on (add_range-BothKept (λ n. allow n ≡ true) wide l a on p.0, p.1)
    | inr off ↦ elim (Bool-cases (block l.owner)) [
      | inl bad ↦
          rw (off, bad)
            (
              p.0,
              add_range-BothKept (λ n. (allow n ≡ false) × (block n ≡ true)) wide l b (off, bad)
                  p.1,
            )
      | inr other ↦ rw (off, other) p
    ]
  ]

  parse_dataset-ArePruned :
      (lib : GeoLib) (parse_addr : GoString → Option NetipAddr) (wide : Bool) (lns : List GoString)
      (ts : AsnRanges × AsnRanges)
      → ArePruned ts
      → ArePruned (parse_dataset allow block lib parse_addr wide lns ts)
  unfolding parse_dataset
  parse_dataset-ArePruned lib parse_addr wide [] ts p = p
  parse_dataset-ArePruned lib parse_addr wide (ln ∷ lns) ts p =
      elim (Option-cases (parse_asn_line lib parse_addr ln)) [
        | inl bad ↦ rw (parse_dataset, bad) (parse_dataset-ArePruned lib parse_addr wide lns ts p)
        | inr (l, good) ↦
            rw (parse_dataset, good)
              (parse_dataset-ArePruned lib parse_addr wide lns _ (add_line-ArePruned wide l ts p))
      ]

  load_asn_tables-ArePruned :
      (lib : GeoLib) (parse_addr : GoString → Option NetipAddr) (ipv4 ipv6 : GoString)
      → ArePruned (load_asn_tables lib parse_addr ipv4 ipv6 allow block)
  unfolding load_asn_tables sort_table
  load_asn_tables-ArePruned lib parse_addr ipv4 ipv6 =
      let p =
        parse_dataset-ArePruned lib parse_addr true (split ipv6 10) _
          (parse_dataset-ArePruned lib parse_addr false (split ipv4 10) _ ((tt, tt), (tt, tt))) in
      let kept = λ (n : ℕ). allow n ≡ true in
      let cut = λ (n : ℕ). (allow n ≡ false) × (block n ≡ true) in
      (
        (sort_asns-AllKept kept _ p.0.0, sort_asns-AllKept kept _ p.0.1),
        (sort_asns-AllKept cut _ p.1.0, sort_asns-AllKept cut _ p.1.1),
      )

-- An answer that names no provider, or one that meets the test.
unfoldable pub names_only : (ℕ → Bool) → Option ℕ → Bool
names_only p none = true
names_only p (some n) = p n

names_only_lem :
    (p : ℕ → Bool) (o : Option ℕ) → ((n : ℕ) → o ≡ some n → p n ≡ true) → names_only p o ≡ true
unfolding names_only
names_only_lem p none f = refl
names_only_lem p (some n) f = f n refl

-- Whatever the datasets hold, the table of allowed providers attributes an address only to a
-- provider on the allow list, and the table of blocked ones only to a provider that is on the
-- block list and not on the allow list.
pub asn_lookup-load_asn_tables :
    (lib : GeoLib) (parse_addr : GoString → Option NetipAddr) (ipv4 ipv6 : GoString)
    (allow block : ℕ → Bool) (ip : GoString)
    → (names_only allow (asn_lookup lib (load_asn_tables lib parse_addr ipv4 ipv6 allow block).0 ip)
        ≡ true)
      × (names_only
            (λ n. not (allow n) && block n)
            (asn_lookup lib (load_asn_tables lib parse_addr ipv4 ipv6 allow block).1 ip)
          ≡ true)
asn_lookup-load_asn_tables lib parse_addr ipv4 ipv6 allow block ip =
    let p = load_asn_tables-ArePruned allow block lib parse_addr ipv4 ipv6 in
    (
      names_only_lem allow _ (λ n. asn_lookup-kept (λ m. allow m ≡ true) lib _ ip n p.0),
      names_only_lem (λ n. not (allow n) && block n) _
          (λ n e.
            cut n (asn_lookup-kept (λ m. (allow m ≡ false) × (block m ≡ true)) lib _ ip n p.1 e)),
    )
  where
    cut : (n : ℕ) → (allow n ≡ false) × (block n ≡ true) → (not (allow n) && block n) ≡ true
    cut n (off, bad) = rw (off, bad) refl
