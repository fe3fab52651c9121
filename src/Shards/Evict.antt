-- ===== src/Shards/Evict.antt =====
-- evictLocked, evictNXLocked and evictRQLocked (internal/dnsserver): the same routine three
-- times, over the time that an entry was last seen. A `time.Time` is a number of nanoseconds, and
-- 0 is the zero time.
pub mod Laws
use irongrid_dns.Prelude.{
  ℕ, zero, suc, ◌+◌, ◌≤◌, ◌<◌, ◌≡◌, refl, ◌≢◌, ◌⊎◌, inl, inr, Bool, true, false, ◌||◌, List, [],
  ◌∷◌, Option, none, some, arith, length, ltb, leb, if◌then◌else◌, Bool-cases,
}
use irongrid_dns.Bytes.{GoString, str_eq, is_empty, str_eq_iff, str_eq_refl}
use irongrid_dns.Shards.Table.{
  Table, lookup, delete, delete_if, IsTable, lookup-cons, lookup-cons_self, lookup-delete,
  lookup-delete_if, length-delete-lt, length-delete_if-le, delete-IsTable, delete_if-IsTable,
}

module _ {V : Type 0} (seen : V → ℕ) where
  -- `now.Sub(e.lastSeen) > idle`
  abbrev pub is_idle : ℕ → ℕ → V → Bool
  is_idle idle now e = ltb (seen e + idle) now

  -- The inner `range` loop, from the values of `oldest` and `oldestSeen`.
  unfoldable pub oldest_from : Table V → GoString → ℕ → GoString
  oldest_from [] oldest t = oldest
  oldest_from ((k, e) ∷ m) oldest t =
      let older = is_empty oldest || ltb (seen e) t in
      oldest_from m (if older then k else oldest) (if older then seen e else t)

  -- `for len(m) >= max { ... delete(m, oldest) }`, on fuel.
  unfoldable pub evict_oldest : ℕ → ℕ → Table V → Table V
  evict_oldest zero cap m = m
  evict_oldest (suc f) cap m =
      let rest = evict_oldest f cap (delete (oldest_from m [] 0) m) in
      if leb cap (length m) then rest else m

  unfoldable pub evict : ℕ → ℕ → ℕ → Table V → Table V
  unfolding evict_oldest
  evict cap idle now m =
      let m' = delete_if (is_idle idle now) m in
      if ltb (length m) cap then m else evict_oldest (length m') cap m'

  -- Every entry was last seen at `t` or later.
  abbrev pub AtLeast : ℕ → Table V → Type 0
  AtLeast t [] = Unit
  AtLeast t ((k, e) ∷ m) = (t ≤ seen e) × AtLeast t m

  AtLeast-mono : (s t : ℕ) (m : Table V) → s ≤ t → AtLeast t m → AtLeast s m
  AtLeast-mono s t [] h a = tt
  AtLeast-mono s t ((k, e) ∷ m) h a = (omega arith, AtLeast-mono s t m h a.1)

  pub AtLeast-lookup :
      (t : ℕ) (m : Table V) (j : GoString) (w : V) → AtLeast t m → lookup j m ≡ some w → t ≤ seen w
  unfolding lookup
  AtLeast-lookup t [] j w a h = ground arith
  AtLeast-lookup t ((k, e) ∷ m) j w a h = ground (arith, AtLeast-lookup t m j w a.1, a.0)

  -- `k` is a key with the least time.
  abbrev pub IsOldest : GoString → Table V → Type 0
  IsOldest k m = (e : V) × (lookup k m ≡ some e) × AtLeast (seen e) m

  oldest_from_cases :
      (m : Table V) (o : GoString) (t : ℕ)
      → is_empty o ≡ false
      → IsTable m
      → ((oldest_from m o t ≡ o) × AtLeast t m)
        ⊎ ((e : V) × (lookup (oldest_from m o t) m ≡ some e) × AtLeast (seen e) m × (seen e ≤ t))
  unfolding oldest_from
  oldest_from_cases [] o t ne i = inl (refl, tt)
  oldest_from_cases ((k, e) ∷ m) o t ne i = elim (Bool-cases (ltb (seen e) t)) [
    | inl lt ↦ elim (oldest_from_cases m k (seen e) i.0 i.2) [
      | inl (r, a) ↦
          inr (e, rw (ne, lt, r) (lookup-cons_self k e m), (omega arith, a), ground arith)
      | inr (w, h, a, l) ↦ inr (w, rw (ne, lt) (lookup-cons k _ e w m i.1 h), (l, a), ground arith)
    ]
    | inr ge ↦ elim (oldest_from_cases m o t ne i.2) [
      | inl (r, a) ↦ inl (rw (ne, ge) r, (ground arith, a))
      | inr (w, h, a, l) ↦ inr (w, rw (ne, ge) (lookup-cons k _ e w m i.1 h), (ground arith, a), l)
    ]
  ]

  pub oldest_from-IsOldest : (m : Table V) → IsTable m → m ≢ [] → IsOldest (oldest_from m [] 0) m
  unfolding oldest_from is_empty
  oldest_from-IsOldest [] i ne = absurd (ne refl)
  oldest_from-IsOldest ((k, e) ∷ m) i ne = elim (oldest_from_cases m k (seen e) i.0 i.2) [
    | inl (r, a) ↦ (e, rw r (lookup-cons_self k e m), (omega arith, a))
    | inr (w, h, a, l) ↦ (w, lookup-cons k _ e w m i.1 h, (l, a))
  ]

  -- Enough fuel is the number of entries: the loop ends by its test.
  pub evict_oldest-lt :
      (f cap : ℕ) (m : Table V)
      → 0 < cap
      → IsTable m
      → length m ≤ f
      → length (evict_oldest f cap m) < cap
  unfolding evict_oldest
  evict_oldest-lt zero cap [] c i h = omega arith
  evict_oldest-lt zero cap (x ∷ m) c i h = absurd (omega arith)
  evict_oldest-lt (suc f) cap [] c i h = ground arith
  evict_oldest-lt (suc f) cap (x ∷ m) c i h =
      let (w, found, _) = oldest_from-IsOldest (x ∷ m) i (λ e. cc) in
      ground (
        arith,
        evict_oldest-lt f cap (delete (oldest_from (x ∷ m) [] 0) (x ∷ m)),
        delete-IsTable (oldest_from (x ∷ m) [] 0) (x ∷ m) i,
        length-delete-lt (oldest_from (x ∷ m) [] 0) w (x ∷ m) found,
      )
