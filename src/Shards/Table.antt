-- ===== src/Shards/Table.antt =====
-- The Go maps inside a shard (`map[string]*entry`), as association lists, and the array of
-- shards. The order of the list stands for the order in which a `range` loop happens to run.
use irongrid_dns.Prelude.{
  ℕ, ◌+◌, ◌≤◌, ◌<◌, ◌≡◌, refl, sym, ap, subst, ◌∙◌, ◌≢◌, inl, inr, Bool, false, List, [], ◌∷◌,
  Option, none, some, arith, length, ◌==◌, if◌then◌else◌, Bool-cases, Option-cases,
}
use mathlib.Core.Bool.{false≢true}
use irongrid_dns.Bytes.{GoString, str_eq, is_empty, str_eq_iff, str_eq_refl}
use irongrid_dns.Shards.Hash.{shard_index}

abbrev pub Table {ℓ} : Type ℓ → Type ℓ
Table V = List (GoString × V)

module _ {ℓ} {V : Type ℓ} where
  -- `m[k]`, with its `ok`.
  unfoldable pub lookup : GoString → Table V → Option V
  lookup k [] = none
  lookup k ((j, v) ∷ m) = if str_eq j k then some v else lookup k m

  -- `m[k] = v`
  unfoldable pub insert : GoString → V → Table V → Table V
  insert k v [] = (k, v) ∷ []
  insert k v ((j, w) ∷ m) = if str_eq j k then (k, v) ∷ m else (j, w) ∷ insert k v m

  -- `delete(m, k)`
  unfoldable pub delete : GoString → Table V → Table V
  delete k [] = []
  delete k ((j, v) ∷ m) = if str_eq j k then delete k m else (j, v) ∷ delete k m

  -- `for k, e := range m { if drop(e) { delete(m, k) } }`
  unfoldable pub delete_if : (V → Bool) → Table V → Table V
  delete_if drop [] = []
  delete_if drop ((j, v) ∷ m) = if drop v then delete_if drop m else (j, v) ∷ delete_if drop m

  -- Every key is a non-empty string and stands once.
  abbrev pub IsTable : Table V → Type ℓ
  IsTable [] = Unit
  IsTable ((k, v) ∷ m) = (is_empty k ≡ false) × (lookup k m ≡ none) × IsTable m

  pub lookup-insert :
      (k j : GoString) (v : V) (m : Table V)
      → lookup j (insert k v m) ≡ (if str_eq k j then some v else lookup j m)
  unfolding lookup insert
  lookup-insert k j v [] = refl
  lookup-insert k j v ((i, w) ∷ m) =
      ground (arith, str_eq_iff k j, str_eq_iff i k, str_eq_iff i j, lookup-insert k j v m)

  pub lookup-nil : (k : GoString) → lookup k [] ≡ none
  unfolding lookup
  lookup-nil k = refl

  pub lookup-cons_self : (k : GoString) (e : V) (m : Table V) → lookup k ((k, e) ∷ m) ≡ some e
  unfolding lookup
  lookup-cons_self k e m = rw (str_eq_refl k)

  -- An entry in front hides none of a table that lacks its key.
  pub lookup-cons :
      (k j : GoString) (e w : V) (m : Table V)
      → lookup k m ≡ none
      → lookup j m ≡ some w
      → lookup j ((k, e) ∷ m) ≡ some w
  unfolding lookup
  lookup-cons k j e w m absent h = elim (Bool-cases (str_eq k j)) [
    | inl same ↦ absurd (ground (arith, ap (λ i. lookup i m) ((str_eq_iff k j).0 same)))
    | inr other ↦ rw other h
  ]

  pub lookup-delete :
      (k j : GoString) (m : Table V)
      → lookup j (delete k m) ≡ (if str_eq k j then none else lookup j m)
  unfolding lookup delete
  lookup-delete k j [] = ground arith
  lookup-delete k j ((i, w) ∷ m) =
      ground (arith, str_eq_iff k j, str_eq_iff i k, str_eq_iff i j, lookup-delete k j m)

  pub lookup-insert_self : (k : GoString) (v : V) (m : Table V) → lookup k (insert k v m) ≡ some v
  lookup-insert_self k v m = ground (arith, lookup-insert k k v m, str_eq_refl k)

  pub lookup-insert_ne :
      (k j : GoString) (v : V) (m : Table V) → k ≢ j → lookup j (insert k v m) ≡ lookup j m
  lookup-insert_ne k j v m ne = ground (arith, lookup-insert k j v m, str_eq_iff k j)

  pub length-insert_new :
      (k : GoString) (v : V) (m : Table V)
      → lookup k m ≡ none
      → length (insert k v m) ≡ length m + 1
  unfolding lookup insert
  length-insert_new k v [] h = omega arith
  length-insert_new k v ((j, w) ∷ m) h = ground (arith, length-insert_new k v m)

  pub length-insert_old :
      (k : GoString) (v w : V) (m : Table V)
      → lookup k m ≡ some w
      → length (insert k v m) ≡ length m
  unfolding lookup insert
  length-insert_old k v w [] h = ground arith
  length-insert_old k v w ((j, u) ∷ m) h = ground (arith, length-insert_old k v w m)

  pub length-delete-le : (k : GoString) (m : Table V) → length (delete k m) ≤ length m
  unfolding delete
  length-delete-le k [] = omega arith
  length-delete-le k ((j, v) ∷ m) = ground (arith, length-delete-le k m)

  pub length-delete_if-le : (drop : V → Bool) (m : Table V) → length (delete_if drop m) ≤ length m
  unfolding delete_if
  length-delete_if-le drop [] = omega arith
  length-delete_if-le drop ((j, v) ∷ m) = ground (arith, length-delete_if-le drop m)

  pub length-delete-lt :
      (k : GoString) (v : V) (m : Table V) → lookup k m ≡ some v → length (delete k m) < length m
  unfolding lookup delete
  length-delete-lt k v [] h = ground arith
  length-delete-lt k v ((j, w) ∷ m) h = ground (arith, length-delete-le k m, length-delete-lt k v m)

  -- Deleting by a condition keeps what does not meet it.
  pub lookup-delete_if_absent :
      (drop : V → Bool) (k : GoString) (m : Table V)
      → lookup k m ≡ none
      → lookup k (delete_if drop m) ≡ none
  unfolding lookup delete_if
  lookup-delete_if_absent drop k [] h = refl
  lookup-delete_if_absent drop k ((j, w) ∷ m) h = ground (arith, lookup-delete_if_absent drop k m)

  pub lookup-delete_if :
      (drop : V → Bool) (k : GoString) (v : V) (m : Table V)
      → IsTable m
      → lookup k m ≡ some v
      → lookup k (delete_if drop m) ≡ (if drop v then none else some v)
  unfolding lookup delete_if
  lookup-delete_if drop k v [] t h = ground arith
  lookup-delete_if drop k v ((j, w) ∷ m) t h = ground (
    arith,
    str_eq_iff j k,
    lookup-delete_if drop k v m t.2,
    lookup-delete_if_absent drop k m,
    ap-lookup j k m t.1,
  )
    where
      ap-lookup : (j k : GoString) (m : Table V) → lookup j m ≡ none → j ≡ k → lookup k m ≡ none
      ap-lookup j k m h e = rw (sym e) h

  pub lookup-delete_if-some :
      (drop : V → Bool) (k : GoString) (v : V) (m : Table V)
      → IsTable m
      → lookup k (delete_if drop m) ≡ some v
      → lookup k m ≡ some v
  lookup-delete_if-some drop k v m t h = elim (Option-cases (lookup k m)) [
    | inl absent ↦ absurd (ground (arith, lookup-delete_if_absent drop k m absent))
    | inr (w, held) ↦ ground (arith, lookup-delete_if drop k w m t held)
  ]

  -- No entry meets the condition, and then none is deleted.
  abbrev pub NoneDropped : (V → Bool) → Table V → Type 0
  NoneDropped drop [] = Unit
  NoneDropped drop ((j, v) ∷ m) = (drop v ≡ false) × NoneDropped drop m

  pub delete_if_none : (drop : V → Bool) (m : Table V) → NoneDropped drop m → delete_if drop m ≡ m
  unfolding delete_if
  delete_if_none drop [] h = refl
  delete_if_none drop ((j, v) ∷ m) h = rw (h.0, delete_if_none drop m h.1)

  pub insert-IsTable :
      (k : GoString) (v : V) (m : Table V) → is_empty k ≡ false → IsTable m → IsTable (insert k v m)
  unfolding insert lookup
  insert-IsTable k v [] ne t = (ne, refl, tt)
  insert-IsTable k v ((j, w) ∷ m) ne t = ground (
    arith,
    str_eq_iff j k,
    str_eq_iff k j,
    lookup-insert k j v m,
    insert-IsTable k v m ne t.2,
    t.0,
    t.1,
    t.2,
  )

  pub delete-IsTable : (k : GoString) (m : Table V) → IsTable m → IsTable (delete k m)
  unfolding delete
  delete-IsTable k [] t = tt
  delete-IsTable k ((j, w) ∷ m) t =
      ground (arith, lookup-delete k j m, delete-IsTable k m t.2, t.0, t.1)

  pub delete_if-IsTable : (drop : V → Bool) (m : Table V) → IsTable m → IsTable (delete_if drop m)
  unfolding delete_if
  delete_if-IsTable drop [] t = tt
  delete_if-IsTable drop ((j, w) ∷ m) t =
      ground (arith, lookup-delete_if_absent drop j m, delete_if-IsTable drop m t.2, t.0, t.1)

-- The array of shards, by index.
abbrev pub Shards {ℓ} : Type ℓ → Type ℓ
Shards V = ℕ → Table V

module _ {ℓ} {V : Type ℓ} where
  -- `s := g.shard(key)`
  unfoldable pub shard : Shards V → GoString → Table V
  shard shards key = shards (shard_index key)

  -- The shards after an operation on the shard of `key`.
  unfoldable pub set_shard : Shards V → GoString → Table V → Shards V
  set_shard shards key m i = if i == shard_index key then m else shards i

  pub shard-set_shard :
      (shards : Shards V) (key : GoString) (m : Table V) → shard (set_shard shards key m) key ≡ m
  unfolding shard set_shard
  shard-set_shard shards key m = ground arith

  -- What is written to a key is read back.
  pub lookup-written :
      (shards : Shards V) (key : GoString) (v : V) (m : Table V)
      → lookup key (shard (set_shard shards key (insert key v m)) key) ≡ some v
  lookup-written shards key v m =
      ap (lookup key) (shard-set_shard shards key (insert key v m)) ∙ lookup-insert_self key v m

  -- A write to the shard of one key that changes only that key is seen at that key alone, whether
  -- or not another key shares the shard.
  pub lookup-set_shard :
      (shards : Shards V) (k j : GoString) (m : Table V)
      → ((i : GoString) → k ≢ i → lookup i m ≡ lookup i (shard shards k))
      → lookup j (shard (set_shard shards k m) j)
        ≡ (if str_eq k j then lookup k m else lookup j (shard shards j))
  unfolding shard set_shard
  lookup-set_shard shards k j m frame = elim (Bool-cases (str_eq k j)) [
    | inl same ↦ rw same (
        subst (λ i. lookup i (shard (set_shard shards k m) i) ≡ lookup k m)
          ((str_eq_iff k j).0 same) (ap (lookup k) (shard-set_shard shards k m)))
    | inr other ↦ elim (Bool-cases (shard_index j == shard_index k)) [
      | inl together ↦
          rw (other, together)
            (frame j (λ e. false≢true (sym other ∙ (str_eq_iff k j).1 e))
              ∙ ap (λ i. lookup j (shards i)) (ground arith))
      | inr apart ↦ rw (other, apart)
    ]
  ]
