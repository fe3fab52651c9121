-- ===== src/Cache/Duplicates.antt =====
-- internal/cache/l1.go: keys that expire and come back take one slot of the queue each time.
use irongrid_dns.Prelude.{
  ℕ, zero, suc, ◌+◌, ◌*◌, ◌≤◌, ◌<◌, ◌≡◌, refl, ap, ◌∙◌, inl, inr, Bool, true, false, ◌||◌, List, [],
  ◌∷◌, ◌++◌, some, arith, length, replicate, length-replicate, ltb, leb, ◌==◌, if◌then◌else◌,
  Bool-cases,
}
use irongrid_dns.Prelude.Int.{pos}
use irongrid_dns.Bytes.{str_eq_refl}
use irongrid_dns.Shards.Table.{Table, lookup, insert, delete, lookup-cons_self}
use irongrid_dns.Cache.{
  L1Key, L1Entry, L1Shard, L1Cache, l1_key, evict_to_cap, rounds, keep_live, compact, trim, add_new,
  set_in, set, get, del, mark, new_l1, set_shard, shard_of, entry_of,
}
use irongrid_dns.Cache.Reads.{evict_to_cap_below}

-- A question that is stored at `t`, and next asked for when its entry is past its stale window.
pub comes_back : ℕ → Bool → List ℕ → ℕ → List ℕ → L1Cache → ℕ → L1Cache
comes_back h neg raw ttl off c t =
    (get (set c h neg raw (pos ttl) t off) h neg (t + (ttl + c.stale_ttl))).0

pub come_back : ℕ → Bool → List ℕ → ℕ → List ℕ → L1Cache → List ℕ → L1Cache
unfolding comes_back
come_back h neg raw ttl off c [] = c
come_back h neg raw ttl off c (t ∷ ts) =
    come_back h neg raw ttl off (comes_back h neg raw ttl off c t) ts

replicate_snoc : (n : ℕ) (k : L1Key) → replicate n k ++ (k ∷ []) ≡ replicate (suc n) k
replicate_snoc zero k = refl
replicate_snoc (suc n) k = ap (λ q. k ∷ q) (replicate_snoc n k)

-- Slots of a live key all stay, however many.
keep_live-replicate :
    (m : Table L1Entry) (k : L1Key) (e : L1Entry) (n : ℕ)
    → lookup k m ≡ some e
    → keep_live m (replicate n k) ≡ replicate n k
unfolding keep_live
keep_live-replicate m k e zero held = refl
keep_live-replicate m k e (suc n) held =
    rw (held, keep_live) (ap (λ q. k ∷ q) (keep_live-replicate m k e n held))

module _ (cap : ℕ) (k : L1Key) (e : L1Entry) (n : ℕ) (p : 0 < cap) where
  trim_live :
      trim cap (record { m = (k, e) ∷ []; queue = replicate n k })
      ≡ record { m = (k, e) ∷ []; queue = replicate n k }
  unfolding trim compact
  trim_live = elim (Bool-cases (ltb (2 * cap) (length (replicate n k)))) [
    | inl long ↦
        rw (trim, long)
          (ap (λ q. record { m = (k, e) ∷ []; queue = q })
            (keep_live-replicate ((k, e) ∷ []) k e n (lookup-cons_self k e [])))
    | inr short ↦ rw (trim, short) refl
  ]

-- A set of the key adds one more slot for it.
add_again :
    (cap : ℕ) (k : L1Key) (e : L1Entry) (n : ℕ)
    → 0 < cap
    → add_new cap k e (record { m = []; queue = replicate n k })
      ≡ record { m = (k, e) ∷ []; queue = replicate (suc n) k }
unfolding add_new insert
add_again cap k e n p =
    let m : Table L1Entry = (k, e) ∷ [] in
    ap (λ q. trim cap (evict_to_cap (rounds m q) cap m q)) (replicate_snoc n k)
    ∙ ap (trim cap) (
        evict_to_cap_below (rounds m (replicate (suc n) k)) cap m (replicate (suc n) k)
          (omega (arith, p)))
    ∙ trim_live cap k e (suc n) p

set_again :
    (cap : ℕ) (k : L1Key) (e : L1Entry) (n : ℕ)
    → 0 < cap
    → set_in (pos cap) k e (record { m = []; queue = replicate n k })
      ≡ record { m = (k, e) ∷ []; queue = replicate (suc n) k }
unfolding set_in lookup
set_again cap k e n p = rw (set_in, positive cap p) (add_again cap k e n p)
  where
    positive : (n : ℕ) → 0 < n → ltb 0 n ≡ true
    positive n h = ground arith

abbrev shard_with : Table L1Entry → List L1Key → L1Shard
shard_with m q = record { m = m; queue = q }

insert_only : (k : L1Key) (d e : L1Entry) → insert k e ((k, d) ∷ []) ≡ (k, e) ∷ []
unfolding insert
insert_only k d e = rw (str_eq_refl k) refl

delete_only : (k : L1Key) (e : L1Entry) → delete k ((k, e) ∷ []) ≡ []
unfolding delete
delete_only k e = rw (str_eq_refl k) refl

-- A cache with its configuration and the shard of a hash.
abbrev At : ℕ → ℕ → ℕ → L1Shard → L1Cache → Type 0
At cap stale_ttl h s c = (c.cap ≡ pos cap) × (c.stale_ttl ≡ stale_ttl) × (c.shards (shard_of h) ≡ s)

module _ (cap stale_ttl h : ℕ) where
  set_shard-At :
      (s t u : L1Shard) (c : L1Cache)
      → At cap stale_ttl h s c
      → t ≡ u
      → At cap stale_ttl h u (set_shard c h t)
  unfolding set_shard
  set_shard-At s t u c a e =
      (a.0, a.1, ap (λ b. if b then t else c.shards (shard_of h)) (same (shard_of h)) ∙ e)
    where
      same : (n : ℕ) → (n == n) ≡ true
      same n = ground arith

  module _ (neg : Bool) (raw : List ℕ) (ttl t : ℕ) (off : List ℕ) (p : 0 < cap) where
    abbrev stored : L1Entry
    stored = entry_of raw off ttl stale_ttl t

    set-At :
        (n : ℕ) (c : L1Cache)
        → 0 < ttl
        → 0 < length raw
        → At cap stale_ttl h (record { m = []; queue = replicate n (l1_key h neg) }) c
        → At cap stale_ttl h
            (record { m = (l1_key h neg, stored) ∷ []; queue = replicate (suc n) (l1_key h neg) })
            (set c h neg raw (pos ttl) t off)
    unfolding set
    set-At n c lives body a =
        let k = l1_key h neg in
        rw (set, usable)
          (set_shard-At _ _ _ c a (
            ap (λ z. set_in z k (entry_of raw off ttl c.stale_ttl t) (c.shards (shard_of h))) a.0
            ∙ ap (λ z. set_in (pos cap) k (entry_of raw off ttl z t) (c.shards (shard_of h))) a.1
            ∙ ap (set_in (pos cap) k stored) a.2
            ∙ set_again cap k stored n p))
      where
        usable : (leb ttl 0 || leb (length raw) 0) ≡ false
        usable = ground arith

  get-At :
      (neg : Bool) (e : L1Entry) (q : List L1Key) (now : ℕ) (c : L1Cache)
      → e.expires ≤ now
      → e.stale_until ≤ now
      → At cap stale_ttl h (record { m = (l1_key h neg, e) ∷ []; queue = q }) c
      → At cap stale_ttl h (record { m = []; queue = q }) (get c h neg now).0
  unfolding get mark del
  get-At neg e q now c x y a =
      let k = l1_key h neg in
      let e' : L1Entry = record e { referenced = true } in
      let one : L1Shard = record { m = (k, e') ∷ []; queue = q } in
      let none_left : L1Shard = record { m = []; queue = q } in
      let held = ap (λ (s : L1Shard). lookup k s.m) a.2 ∙ lookup-cons_self k e [] in
      let marked : At cap stale_ttl h one (mark c h neg e) = set_shard-At _ _ one c a (
        ap (λ (s : L1Shard). shard_with (insert k e' s.m) s.queue) a.2
        ∙ ap (λ m. shard_with m q) (insert_only k e e')) in
      rw (get, held, past now e.expires x, past now e.stale_until y)
        (set_shard-At _ _ none_left (mark c h neg e) marked (
          ap (λ (s : L1Shard). shard_with (delete k s.m) s.queue) marked.2
          ∙ ap (λ m. shard_with m q) (delete_only k e')))
    where
      past : (now u : ℕ) → u ≤ now → ltb now u ≡ false
      past now u h = ground arith

module _ (cap stale_ttl h : ℕ) (neg : Bool) (raw : List ℕ) (ttl : ℕ) (off : List ℕ) where
  come_back-grows :
      (n : ℕ) (c : L1Cache) (ts : List ℕ)
      → 0 < cap
      → 0 < ttl
      → 0 < length raw
      → At cap stale_ttl h (shard_with [] (replicate n (l1_key h neg))) c
      → length ((come_back h neg raw ttl off c ts).shards (shard_of h)).queue ≡ length ts + n
  unfolding come_back comes_back
  come_back-grows n c [] p lives body a =
      ap (λ (s : L1Shard). length s.queue) a.2 ∙ length-replicate n (l1_key h neg) ∙ omega arith
  come_back-grows n c (t ∷ ts) p lives body a =
      let stored : L1Entry = entry_of raw off ttl stale_ttl t in
      let c' = set c h neg raw (pos ttl) t off in
      let now = t + (ttl + c.stale_ttl) in
      let gone =
        get-At cap stale_ttl h neg stored (replicate (suc n) (l1_key h neg)) now c' (omega arith)
          (over t ttl c.stale_ttl stale_ttl a.1)
          (set-At cap stale_ttl h neg raw ttl t off p n c lives body a) in
      come_back-grows (suc n) (get c' h neg now).0 ts p lives body gone ∙ omega arith
    where
      over : (t ttl x y : ℕ) → x ≡ y → t + (ttl + y) ≤ t + (ttl + x)
      over t ttl x y e = omega (arith, e)

-- The queue of a shard has no bound: a single question that is stored, expires and is asked for
-- again takes one more slot each time, in a cache with any cap, and no slot is ever dropped while
-- nothing else happens in the shard.
pub queue_grows :
    (cap stale_ttl h : ℕ) (neg : Bool) (raw : List ℕ) (ttl : ℕ) (off ts : List ℕ)
    → 0 < cap
    → 0 < ttl
    → 0 < length raw
    → length
        ((come_back h neg raw ttl off (new_l1 (pos cap) stale_ttl) ts).shards (shard_of h)).queue
      ≡ length ts
unfolding new_l1
queue_grows cap stale_ttl h neg raw ttl off ts p lives body =
    come_back-grows cap stale_ttl h neg raw ttl off 0 (new_l1 (pos cap) stale_ttl) ts p lives body
      (refl, refl, refl)
    ∙ omega arith
