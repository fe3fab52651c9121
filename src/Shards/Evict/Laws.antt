-- ===== src/Shards/Evict/Laws.antt =====
-- What eviction guarantees: the bound, and that the entries dropped are the idle ones and then
-- those last seen longest ago.
use irongrid_dns.Prelude.{
  ℕ, zero, suc, ◌+◌, ◌≤◌, ◌<◌, ◌≡◌, ◌⊎◌, inl, inr, [], ◌∷◌, none, some, arith, length, ltb, leb,
  Bool-cases,
}
use irongrid_dns.Bytes.{GoString, str_eq_iff}
use irongrid_dns.Shards.Table.{
  Table, lookup, delete, delete_if, IsTable, lookup-nil, lookup-delete, lookup-delete_if,
  delete-IsTable, delete_if-IsTable, lookup-delete_if-some,
}
use irongrid_dns.Shards.Evict.{
  is_idle, oldest_from, evict_oldest, evict, AtLeast-lookup, oldest_from-IsOldest, evict_oldest-lt,
}

module _ {V : Type 0} (seen : V → ℕ) where
  evict_oldest-IsTable : (f cap : ℕ) (m : Table V) → IsTable m → IsTable (evict_oldest seen f cap m)
  unfolding evict_oldest
  evict_oldest-IsTable zero cap m i = i
  evict_oldest-IsTable (suc f) cap m i =
      let o = oldest_from seen m [] 0 in
      elim (Bool-cases (leb cap (length m))) [
        | inl over ↦ rw over (evict_oldest-IsTable f cap (delete o m) (delete-IsTable o m i))
        | inr under ↦ rw under i
      ]

  evict_oldest-lookup :
      (f cap : ℕ) (m : Table V) (k : GoString) (w : V)
      → lookup k (evict_oldest seen f cap m) ≡ some w
      → lookup k m ≡ some w
  unfolding evict_oldest
  evict_oldest-lookup zero cap m k w h = h
  evict_oldest-lookup (suc f) cap m k w h = ground (
    arith,
    evict_oldest-lookup f cap (delete (oldest_from seen m [] 0) m) k w,
    lookup-delete (oldest_from seen m [] 0) k m,
  )

  evict_oldest_lru :
      (f cap : ℕ) (m : Table V) (k j : GoString) (e w : V)
      → IsTable m
      → lookup k m ≡ some e
      → lookup k (evict_oldest seen f cap m) ≡ none
      → lookup j (evict_oldest seen f cap m) ≡ some w
      → seen e ≤ seen w
  unfolding evict_oldest
  evict_oldest_lru zero cap m k j e w i held gone kept = ground arith
  evict_oldest_lru (suc f) cap [] k j e w i held gone kept =
      absurd (ground (arith, lookup-nil {V = V} k))
  evict_oldest_lru (suc f) cap (x ∷ m) k j e w i held gone kept =
      let o = oldest_from seen (x ∷ m) [] 0 in
      let (e', found, least) = oldest_from-IsOldest seen (x ∷ m) i (λ e. cc) in
      let in_table : lookup j (x ∷ m) ≡ some w = evict_oldest-lookup (suc f) cap (x ∷ m) j w kept in
      ground (
        arith,
        str_eq_iff o k,
        lookup-delete o k (x ∷ m),
        AtLeast-lookup seen (seen e') (x ∷ m) j w least in_table,
        evict_oldest_lru f cap (delete o (x ∷ m)) k j e w,
        delete-IsTable o (x ∷ m) i,
      )

  pub evict-IsTable :
      (cap idle now : ℕ) (m : Table V) → IsTable m → IsTable (evict seen cap idle now m)
  unfolding evict
  evict-IsTable cap idle now m i =
      let m' = delete_if (is_idle seen idle now) m in
      elim (Bool-cases (ltb (length m) cap)) [
        | inl under ↦ rw under i
        | inr over ↦ rw over (
            evict_oldest-IsTable (length m') cap m' (delete_if-IsTable (is_idle seen idle now) m i))
      ]

  -- The table is below its cap afterwards, whatever it held.
  pub evict-lt :
      (cap idle now : ℕ) (m : Table V)
      → 0 < cap
      → IsTable m
      → length (evict seen cap idle now m) < cap
  unfolding evict
  evict-lt cap idle now m c i =
      let m' = delete_if (is_idle seen idle now) m in
      ground (
        arith,
        evict_oldest-lt seen (length m') cap m' c,
        delete_if-IsTable (is_idle seen idle now) m i,
      )

  -- No entry is changed or made up.
  pub evict-lookup :
      (cap idle now : ℕ) (m : Table V) (k : GoString) (w : V)
      → IsTable m
      → lookup k (evict seen cap idle now m) ≡ some w
      → lookup k m ≡ some w
  unfolding evict
  evict-lookup cap idle now m k w i h =
      let drop = is_idle seen idle now in
      let m' = delete_if drop m in
      ground (arith, evict_oldest-lookup (length m') cap m' k w, lookup-delete_if-some drop k w m i)

  -- An entry that eviction drops either was idle for longer than the idle time, or was last seen no
  -- later than any entry that stays.
  pub evict_lru :
      (cap idle now : ℕ) (m : Table V) (k j : GoString) (e w : V)
      → IsTable m
      → lookup k m ≡ some e
      → lookup k (evict seen cap idle now m) ≡ none
      → lookup j (evict seen cap idle now m) ≡ some w
      → (seen e + idle < now) ⊎ (seen e ≤ seen w)
  unfolding evict
  evict_lru cap idle now m k j e w i held gone kept =
      let drop = is_idle seen idle now in
      let m' = delete_if drop m in
      ground (
        arith,
        evict_oldest_lru (length m') cap m' k j e w (delete_if-IsTable drop m i),
        lookup-delete_if drop k e m i held,
      )

  -- Below the cap nothing is evicted.
  pub evict_below :
      (cap idle now : ℕ) (m : Table V) → length m < cap → evict seen cap idle now m ≡ m
  unfolding evict
  evict_below cap idle now m h = ground arith
