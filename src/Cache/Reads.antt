-- ===== src/Cache/Reads.antt =====
-- internal/cache/l1.go: what `get` returns, and after `set`.
use irongrid_dns.Prelude.{
  ℕ, zero, suc, ◌+◌, ◌-◌, ◌*◌, ◌≤◌, ◌<◌, ◌≡◌, refl, sym, ap, ◌∙◌, inl, inr, Bool, true, false, ◌||◌,
  List, [], ◌∷◌, ◌++◌, Option, none, some, arith, length, get_or, ltb, leb, ◌==◌, if◌then◌else◌,
  Bool-cases, Option-cases,
}
use irongrid_dns.Prelude.Int.{pos}
use irongrid_dns.Bytes.{str_eq, str_eq_iff, str_eq_refl}
use irongrid_dns.Shards.Table.{Table, lookup, insert, lookup-insert, length-insert_new}
use irongrid_dns.Cache.{
  L1Key, L1Entry, L1Shard, L1Cache, Hit, l1_key, evict_to_cap, rounds, compact, trim, add_new,
  set_in, set, get, set_shard, shard_of, entry_of,
}

-- What an entry is worth at a time.
abbrev pub hit_of : Option L1Entry → ℕ → Option Hit
hit_of none now = none
hit_of (some e) now =
    if ltb now e.expires
    then some
        (record { raw = e.raw; remaining = e.expires - now; stale = false; ttl_off = e.ttl_off })
    else if ltb now e.stale_until
    then some (record { raw = e.raw; remaining = 0; stale = true; ttl_off = e.ttl_off })
    else none

pub held_at : L1Cache → ℕ → Bool → Option L1Entry
held_at c h neg = lookup (l1_key h neg) (c.shards (shard_of h)).m

get-hit_of :
    (c : L1Cache) (h : ℕ) (neg : Bool) (now : ℕ)
    → (get c h neg now).1 ≡ hit_of (held_at c h neg) now
unfolding get held_at
get-hit_of c h neg now = elim (Option-cases (held_at c h neg)) [
  | inl absent ↦ rw (get, absent) refl
  | inr (e, held) ↦ elim (Bool-cases (ltb now e.expires)) [
    | inl fresh ↦ rw (get, held, fresh) refl
    | inr expired ↦ elim (Bool-cases (ltb now e.stale_until)) [
      | inl stale ↦ rw (get, held, expired, stale) refl
      | inr dead ↦ rw (get, held, expired, dead) refl
    ]
  ]
]

-- Within the cap nothing is evicted.
pub evict_to_cap_below :
    (f cap : ℕ) (m : Table L1Entry) (q : List L1Key)
    → length m ≤ cap
    → evict_to_cap f cap m q ≡ record { m = m; queue = q }
unfolding evict_to_cap
evict_to_cap_below zero cap m q h = refl
evict_to_cap_below (suc f) cap m [] h = refl
evict_to_cap_below (suc f) cap m (k ∷ q) h = rw (evict_to_cap, below (length m) cap h) refl
  where
    below : (n cap : ℕ) → n ≤ cap → leb n cap ≡ true
    below n cap h = ground arith

module _ (cap : ℕ) (k : L1Key) (e : L1Entry) (s : L1Shard) (room : length s.m < cap) where
  add_new_below : lookup k s.m ≡ none → (add_new cap k e s).m ≡ insert k e s.m
  unfolding add_new trim compact
  add_new_below absent =
      let m = insert k e s.m in
      let q = s.queue ++ (k ∷ []) in
      let same =
        evict_to_cap_below (rounds m q) cap m q (omega (arith, length-insert_new k e s.m absent)) in
      elim (Bool-cases (ltb (2 * cap) (length q))) [
        | inl long ↦ rw (add_new, same, trim, long) refl
        | inr short ↦ rw (add_new, same, trim, short) refl
      ]

  set_in_below : (set_in (pos cap) k e s).m ≡ insert k e s.m
  unfolding set_in
  set_in_below = elim (Bool-cases (ltb 0 cap)) [
    | inr off ↦ rw (set_in, off) refl
    | inl on ↦ elim (Option-cases (lookup k s.m)) [
      | inl absent ↦ rw (set_in, on, absent) (add_new_below absent)
      | inr (old, held) ↦ rw (set_in, on, held) refl
    ]
  ]

-- A write to the shard of a hash, seen at any shard.
pub set_shard_at :
    (c : L1Cache) (h i : ℕ) (s : L1Shard)
    → (set_shard c h s).shards i ≡ (if i == shard_of h then s else c.shards i)
unfolding set_shard
set_shard_at c h i s = refl

-- Keys in different shards differ.
other_shard :
    (h j : ℕ) (neg sign : Bool)
    → (shard_of j == shard_of h) ≡ false
    → str_eq (l1_key h neg) (l1_key j sign) ≡ false
other_shard h j neg sign apart = elim (Bool-cases (str_eq (l1_key h neg) (l1_key j sign))) [
  | inr e ↦ e
  | inl same ↦ absurd (ground (arith, ap (λ k. shard_of (get_or k 0 0)) ((str_eq_iff _ _).0 same)))
]

module _ (cap : ℕ) (c : L1Cache) (h : ℕ) (neg : Bool) (raw : List ℕ) (ttl now : ℕ)
    (off : List ℕ) where
  -- A `set` with a positive TTL and a body, on a shard with room.
  abbrev pub HasRoom : Type 0
  HasRoom =
      (c.cap ≡ pos cap) × (length (c.shards (shard_of h)).m < cap) × (0 < ttl) × (0 < length raw)

  abbrev pub stored : L1Entry
  stored = entry_of raw off ttl c.stale_ttl now

  set_below :
      (i : ℕ)
      → HasRoom
      → (set c h neg raw (pos ttl) now off).shards i ≡ (
          if i == shard_of h
          then set_in (pos cap) (l1_key h neg) stored (c.shards (shard_of h))
          else c.shards i)
  unfolding set
  set_below i (cap_eq, room, lives, body) =
      rw (set, usable)
        (set_shard_at c h i _
          ∙ ap
              (λ n.
                if i == shard_of h
                then set_in n (l1_key h neg) stored (c.shards (shard_of h))
                else c.shards i)
              cap_eq)
    where
      usable : (leb ttl 0 || leb (length raw) 0) ≡ false
      usable = ground arith

  held_after :
      (j : ℕ) (sign : Bool)
      → HasRoom
      → held_at (set c h neg raw (pos ttl) now off) j sign
        ≡ (if str_eq (l1_key h neg) (l1_key j sign) then some stored else held_at c j sign)
  unfolding held_at
  held_after j sign (cap_eq, room, lives, body) =
      let k = l1_key h neg in
      let s = c.shards (shard_of h) in
      ap (λ s. lookup (l1_key j sign) s.m) (set_below (shard_of j) (cap_eq, room, lives, body))
      ∙ elim (Bool-cases (shard_of j == shard_of h)) [
        | inl together ↦ rw together (
            ap (lookup (l1_key j sign)) (set_in_below cap k stored s room)
            ∙ lookup-insert k (l1_key j sign) stored s.m
            ∙ ap
                (λ i.
                  if str_eq k (l1_key j sign)
                  then some stored
                  else lookup (l1_key j sign) (c.shards i).m)
                (ground arith))
        | inr apart ↦ rw (apart, other_shard h j neg sign apart) refl
      ]

  -- What `set` stores is read back: fresh with the time that is left before the TTL is over, stale
  -- during the stale window, and not at all after it. The shard has room for one entry more.
  pub get-set :
      (later : ℕ)
      → HasRoom
      → (get (set c h neg raw (pos ttl) now off) h neg later).1 ≡ (
          if ltb later (now + ttl)
          then some
              (record { raw = raw; remaining = (now + ttl) - later; stale = false; ttl_off = off })
          else if ltb later (now + (ttl + c.stale_ttl))
          then some (record { raw = raw; remaining = 0; stale = true; ttl_off = off })
          else none)
  get-set later room =
      get-hit_of (set c h neg raw (pos ttl) now off) h neg later
      ∙ ap (λ o. hit_of o later)
          (held_after h neg room
            ∙ ap (λ b. if b then some stored else held_at c h neg) (str_eq_refl (l1_key h neg)))

  -- No other question is answered differently after `set`, whether or not it shares the shard,
  -- which has room for one entry more.
  pub get_other-set :
      (j : ℕ) (sign : Bool) (later : ℕ)
      → HasRoom
      → str_eq (l1_key h neg) (l1_key j sign) ≡ false
      → (get (set c h neg raw (pos ttl) now off) j sign later).1 ≡ (get c j sign later).1
  get_other-set j sign later room apart =
      get-hit_of (set c h neg raw (pos ttl) now off) j sign later
      ∙ ap (λ o. hit_of o later)
          (held_after j sign room ∙ ap (λ b. if b then some stored else held_at c j sign) apart)
      ∙ sym (get-hit_of c j sign later)
