-- ===== src/Clients/Stale.antt =====
-- internal/dnsserver/clients.go: a reload that comes in the middle of a resolution.
use irongrid_dns.Prelude.{
  ◌+◌, ◌≤◌, ◌<◌, ◌≡◌, ◌≢◌, refl, sym, ap, subst, ◌∙◌, inl, inr, List, [], ◌∷◌, Option, none, some,
  arith, length, ltb, Bool-cases, Option-cases,
}
use irongrid_dns.Bytes.{GoString}
use irongrid_dns.Shards.Table.{lookup, lookup-insert_self, lookup-insert_ne}
use irongrid_dns.Clients.Acl.{NetLib}
use irongrid_dns.Clients.Router.{
  ClientPolicy, ClientRouter, GroupCidrs, AsnTable, Pending, max_policy_cache, set_policies, scan,
  store_policy, resolve, begin_resolve, finish_resolve,
}
use irongrid_dns.Clients.Coherent.{policy_of}

lookup-store_policy :
    (client : GoString) (p : Option ClientPolicy) (r : ClientRouter)
    → lookup client (store_policy client p r).cache ≡ some p
unfolding store_policy
lookup-store_policy client p r = elim (Bool-cases (ltb max_policy_cache (r.cache_size + 1))) [
  | inl full ↦ rw full (lookup-insert_self client p [])
  | inr room ↦ rw room (lookup-insert_self client p r.cache)
]

resolve-cached :
    (lib : NetLib) (client : GoString) (p : Option ClientPolicy) (r : ClientRouter)
    → lookup client r.cache ≡ some p
    → (resolve lib client r).1 ≡ p
unfolding resolve
resolve-cached lib client p r hit = rw (resolve, hit) refl

begin_resolve-policy :
    (lib : NetLib) (client : GoString) (r : ClientRouter) (pending : Pending)
    → begin_resolve lib client r ≡ some pending
    → (pending.client ≡ client) × (scan pending.entries pending.ip ≡ policy_of lib r.entries client)
unfolding begin_resolve policy_of
begin_resolve-policy lib client r pending e = elim (Option-cases (lookup client r.cache)) [
  | inr (p, hit) ↦ absurd (ground (arith, e, hit))
  | inl miss ↦ elim (Option-cases (lib.parse_ip client)) [
    | inl bad ↦ absurd (ground (arith, e, miss, bad))
    | inr (ip, good) ↦
        let read : Pending = record { client = client; ip = ip; entries = r.entries } in
        let is_read : read ≡ pending = ground (arith, e, miss, good) in
        (
          sym (ap (λ (x : Pending). x.client) is_read),
          sym (ap (λ (x : Pending). scan x.entries x.ip) is_read) ∙ known ip good,
        )
  ]
]
  where
    known :
        (ip : GoString)
        → lib.parse_ip client ≡ some ip
        → scan r.entries ip ≡ policy_of lib r.entries client
    known ip good = rw (policy_of, good) refl

-- Calls of `Resolve`, one after another.
unfoldable pub ask_all : NetLib → List GoString → ClientRouter → ClientRouter
ask_all lib [] r = r
ask_all lib (c ∷ cs) r = ask_all lib cs (resolve lib c r).0

module _ (lib : NetLib) (client : GoString) (p : Option ClientPolicy) where
  -- While the cache has room, a result that is stored hides no other.
  store_policy-keeps :
      (c : GoString) (q : Option ClientPolicy) (r : ClientRouter)
      → lookup client r.cache ≡ some p
      → lookup c r.cache ≡ none
      → r.cache_size + 1 ≤ max_policy_cache
      → (lookup client (store_policy c q r).cache ≡ some p)
        × ((store_policy c q r).cache_size ≤ r.cache_size + 1)
  unfolding store_policy
  store_policy-keeps c q r held miss room =
      elim (Bool-cases (ltb max_policy_cache (r.cache_size + 1))) [
        | inl full ↦ absurd (ground (arith, full, room))
        | inr fits ↦
            rw fits (lookup-insert_ne c client q r.cache (other held miss) ∙ held, omega arith)
      ]
    where
      other : lookup client r.cache ≡ some p → lookup c r.cache ≡ none → c ≢ client
      other held miss same = absurd (ground (arith, held, miss, ap (λ k. lookup k r.cache) same))

  resolve-keeps :
      (c : GoString) (r : ClientRouter)
      → lookup client r.cache ≡ some p
      → r.cache_size + 1 ≤ max_policy_cache
      → (lookup client (resolve lib c r).0.cache ≡ some p)
        × ((resolve lib c r).0.cache_size ≤ r.cache_size + 1)
  unfolding resolve
  resolve-keeps c r held room = elim (Option-cases (lookup c r.cache)) [
    | inr (q, hit) ↦ rw (resolve, hit) (held, omega arith)
    | inl miss ↦ elim (Option-cases (lib.parse_ip c)) [
      | inl bad ↦ rw (resolve, miss, bad) (held, omega arith)
      | inr (ip, good) ↦
          rw (resolve, miss, good) (store_policy-keeps c (scan r.entries ip) r held miss room)
    ]
  ]

  ask_all-keeps :
      (cs : List GoString) (r : ClientRouter)
      → lookup client r.cache ≡ some p
      → r.cache_size + length cs ≤ max_policy_cache
      → lookup client (ask_all lib cs r).cache ≡ some p
  unfolding ask_all
  ask_all-keeps [] r held room = held
  ask_all-keeps (c ∷ cs) r held room =
      let (still, grown) = resolve-keeps c r held (omega (arith, room)) in
      ask_all-keeps cs (resolve lib c r).0 still (omega (arith, grown, room))

finish_resolve-cached :
    (lib : NetLib) (client : GoString) (r : ClientRouter) (pending : Pending)
    (groups : List GroupCidrs) (table : Option AsnTable)
    → begin_resolve lib client r ≡ some pending
    → let r' = (finish_resolve pending (set_policies lib groups table r)).0 in
      (lookup client r'.cache ≡ some (policy_of lib r.entries client)) × (r'.cache_size ≡ 1)
unfolding finish_resolve set_policies store_policy
finish_resolve-cached lib client r pending groups table e =
    let (same, old) = begin_resolve-policy lib client r pending e in
    let p = scan pending.entries pending.ip in
    let r' = set_policies lib groups table r in
    (
      subst (λ c. lookup client (store_policy c p r').cache ≡ some p) (sym same)
            (lookup-store_policy client p r')
          ∙ ap some old,
      refl,
    )

-- A resolution has read the groups before a reload and stores its result after it. Whichever
-- clients then ask, this one any number of times among them, and whatever the new groups say: where
-- these are at most 4095 resolutions, the client is still given the policy of the groups from
-- before the reload.
pub stale_after_reload :
    (lib : NetLib) (client : GoString) (r : ClientRouter) (pending : Pending)
    (groups : List GroupCidrs) (table : Option AsnTable) (asks : List GoString)
    → begin_resolve lib client r ≡ some pending
    → length asks < max_policy_cache
    → (resolve lib client
        (ask_all lib asks (finish_resolve pending (set_policies lib groups table r)).0)).1
      ≡ policy_of lib r.entries client
stale_after_reload lib client r pending groups table asks e few =
    let (held, one) = finish_resolve-cached lib client r pending groups table e in
    resolve-cached lib client _ _ (ask_all-keeps lib client _ asks _ held (omega (arith, one, few)))
