-- ===== src/Geoip/Search.antt =====
-- `sort.Search` of the standard library: the binary search that internal/geoip/table.go calls.
use irongrid_dns.Prelude.{
  ℕ, zero, suc, ◌+◌, ◌-◌, ◌/◌, ◌≤◌, ◌<◌, ◌≡◌, inl, inr, Bool, true, false, arith, ltb, Bool-cases,
}

-- The loop, on fuel: `i` and `j` bound the index that is looked for.
unfoldable pub search_from : ℕ → (ℕ → Bool) → ℕ → ℕ → ℕ
search_from zero f i j = i
search_from (suc fuel) f i j =
    let h = (i + j) / 2 in
    elim (ltb i j) [
      | true ↦ elim (f h) [ true ↦ search_from fuel f i h | false ↦ search_from fuel f (h + 1) j ]
      | false ↦ i
    ]

-- A range of `n` places is halved at most `n` times.
unfoldable pub search : ℕ → (ℕ → Bool) → ℕ
unfolding search_from
search n f = search_from n f 0 n

-- The first index at which `f` holds, or `n`.
pub record IsFirst (n : ℕ) (f : ℕ → Bool) (r : ℕ) : Type 0 where
  pub in_range : r ≤ n
  pub before : (k : ℕ) → k < r → f k ≡ false
  pub at : r < n → f r ≡ true

module _ (n : ℕ) (f : ℕ → Bool) (mono : (a b : ℕ) → a ≤ b → b < n → f a ≡ true → f b ≡ true) where
  all_before : (h : ℕ) → h < n → f h ≡ false → (k : ℕ) → k < h + 1 → f k ≡ false
  all_before h lt no_hit k kh = elim (Bool-cases (f k)) [
    | inr miss ↦ miss
    | inl hit ↦ absurd (ground (arith, mono k h (omega arith) lt hit))
  ]

  search_from-IsFirst :
      (fuel i j : ℕ)
      → j - i ≤ fuel
      → i ≤ j
      → j ≤ n
      → ((k : ℕ) → k < i → f k ≡ false)
      → (j < n → f j ≡ true)
      → IsFirst n f (search_from fuel f i j)
  unfolding search_from
  search_from-IsFirst zero i j enough ij jn low high =
      let e : i ≡ j = omega arith in
      record { in_range = omega arith; before = low; at = λ lt. rw e (high (omega arith)) }
  search_from-IsFirst (suc fuel) i j enough ij jn low high = elim (Bool-cases (ltb i j)) [
    | inr done ↦
        rw (done, search_from)
          (let e : i ≡ j = ground arith in
            record { in_range = omega arith; before = low; at = λ lt. rw e (high (omega arith)) })
    | inl more ↦ elim (Bool-cases (f ((i + j) / 2))) [
      | inl hit ↦
          rw (more, hit, search_from)
            (search_from-IsFirst fuel i ((i + j) / 2) (ground arith) (ground arith) (ground arith)
              low (λ _. hit))
      | inr miss ↦
          rw (more, miss, search_from)
            (search_from-IsFirst fuel ((i + j) / 2 + 1) j (ground arith) (ground arith) jn
              (all_before ((i + j) / 2) (ground arith) miss) high)
    ]
  ]

  -- On a monotone test the search finds the first index that meets it, in `n` rounds at most.
  pub search-IsFirst : IsFirst n f (search n f)
  unfolding search
  search-IsFirst =
      search_from-IsFirst n 0 n (omega arith) (omega arith) (omega arith)
        (λ k lt. absurd (omega arith)) (λ lt. absurd (omega arith))
