-- ===== src/Clients/Coherent.antt =====
-- internal/dnsserver/clients.go: the cache of policies, where calls run one after another.
use irongrid_dns.Prelude.{
  ◌+◌, ◌≤◌, ◌≡◌, refl, ap, inl, inr, List, [], ◌∷◌, Option, none, some, arith, length, ltb,
  Bool-cases, Option-cases,
}
use irongrid_dns.Bytes.{GoString, str_eq, str_eq_iff}
use irongrid_dns.Shards.Table.{Table, lookup, insert, lookup-insert, lookup-nil}
use irongrid_dns.Clients.Acl.{NetLib}
use irongrid_dns.Clients.Router.{
  ClientPolicy, ClientEntries, ClientRouter, GroupCidrs, AsnTable, max_policy_cache,
  new_client_router, set_policies, scan, store_policy, resolve,
}

-- The policy of a client, without the cache.
unfoldable pub policy_of : NetLib → ClientEntries → GoString → Option ClientPolicy
policy_of lib entries client = elim (lib.parse_ip client) [
  | none ↦ none
  | some ip ↦ scan entries ip
]

-- What is cached is what the groups say, and the cache is bounded.
pub record IsCoherent (lib : NetLib) (r : ClientRouter) : Type 0 where
  pub cached :
      (client : GoString) (p : Option ClientPolicy)
      → lookup client r.cache ≡ some p
      → p ≡ policy_of lib r.entries client
  pub bounded : length r.cache ≤ r.cache_size + 1
  pub small : r.cache_size ≤ max_policy_cache

pub new-IsCoherent : (lib : NetLib) → IsCoherent lib new_client_router
unfolding new_client_router lookup
new-IsCoherent lib = record {
  cached = λ client p held. absurd (ground (arith, held));
  bounded = omega arith;
  small = omega arith;
}

pub set_policies-IsCoherent :
    (lib : NetLib) (groups : List GroupCidrs) (table : Option AsnTable) (r : ClientRouter)
    → IsCoherent lib (set_policies lib groups table r)
unfolding set_policies lookup
set_policies-IsCoherent lib groups table r = record {
  cached = λ client p held. absurd (ground (arith, held));
  bounded = omega arith;
  small = omega arith;
}

length-insert-le :
    (k : GoString) (p : Option ClientPolicy) (m : Table (Option ClientPolicy))
    → length (insert k p m) ≤ length m + 1
unfolding insert
length-insert-le k p [] = omega arith
length-insert-le k p ((j, w) ∷ m) = ground (arith, length-insert-le k p m)

module _ (lib : NetLib) (client : GoString) (p : Option ClientPolicy) (r : ClientRouter)
    (right : p ≡ policy_of lib r.entries client) where
  -- An entry that says what the groups say keeps the cache right.
  insert-cached :
      (m : Table (Option ClientPolicy))
      → ((j : GoString) (q : Option ClientPolicy)
          → lookup j m ≡ some q
          → q ≡ policy_of lib r.entries j)
      → (j : GoString) (q : Option ClientPolicy) → lookup j (insert client p m) ≡ some q
      → q ≡ policy_of lib r.entries j
  insert-cached m cached j q held = elim (Bool-cases (str_eq client j)) [
    | inr other ↦ cached j q (ground (arith, held, lookup-insert client j p m, other))
    | inl same ↦ ground (
      arith,
      held,
      lookup-insert client j p m,
      same,
      right,
      ap (policy_of lib r.entries) ((str_eq_iff client j).0 same),
    )
  ]

  store_policy-IsCoherent : IsCoherent lib r → IsCoherent lib (store_policy client p r)
  unfolding store_policy
  store_policy-IsCoherent i = elim (Bool-cases (ltb max_policy_cache (r.cache_size + 1))) [
    | inl full ↦ rw full (record {
      cached =
          insert-cached []
            (λ j q held. absurd (ground (arith, held, lookup-nil {V = Option ClientPolicy} j)));
      bounded = length-insert-le client p [];
      small = omega arith;
    })
    | inr room ↦ rw room (record {
      cached = insert-cached r.cache i.cached;
      bounded = omega (arith, length-insert-le client p r.cache, i.bounded);
      small = ground (arith, room);
    })
  ]

-- Where the cache is right, so is the answer, and the cache stays right.
pub resolve-IsCoherent :
    (lib : NetLib) (client : GoString) (r : ClientRouter)
    → IsCoherent lib r
    → ((resolve lib client r).1 ≡ policy_of lib r.entries client)
      × IsCoherent lib (resolve lib client r).0
unfolding resolve policy_of
resolve-IsCoherent lib client r i = elim (Option-cases (lookup client r.cache)) [
  | inr (p, hit) ↦ rw (resolve, hit) (i.cached client p hit, i)
  | inl miss ↦ elim (Option-cases (lib.parse_ip client)) [
    | inl bad ↦ rw (resolve, policy_of, miss, bad) (refl, i)
    | inr (ip, good) ↦
        rw (resolve, policy_of, miss, good)
          (
            refl,
            store_policy-IsCoherent lib client (scan r.entries ip) r (rw (policy_of, good) refl) i,
          )
  ]
]

-- The calls of a router.
pub data Use : Type 0 where
  ask : GoString → Use
  configure : List GroupCidrs → Option AsnTable → Use

unfoldable pub use_router : NetLib → Use → ClientRouter → ClientRouter
use_router lib (ask client) r = (resolve lib client r).0
use_router lib (configure groups table) r = set_policies lib groups table r

unfoldable pub use_all : NetLib → List Use → ClientRouter → ClientRouter
use_all lib [] r = r
use_all lib (u ∷ us) r = use_all lib us (use_router lib u r)

use_all-IsCoherent :
    (lib : NetLib) (us : List Use) (r : ClientRouter)
    → IsCoherent lib r
    → IsCoherent lib (use_all lib us r)
unfolding use_all use_router
use_all-IsCoherent lib [] r i = i
use_all-IsCoherent lib (ask client ∷ us) r i =
    use_all-IsCoherent lib us _ (resolve-IsCoherent lib client r i).1
use_all-IsCoherent lib (configure groups table ∷ us) r i =
    use_all-IsCoherent lib us _ (set_policies-IsCoherent lib groups table r)

-- After any calls, one after another, a client gets the policy that the groups now configured give
-- it, as if there were no cache, and the cache holds at most 4097 clients.
pub resolve-use_all :
    (lib : NetLib) (us : List Use) (client : GoString)
    → ((resolve lib client (use_all lib us new_client_router)).1
        ≡ policy_of lib (use_all lib us new_client_router).entries client)
      × (length (use_all lib us new_client_router).cache ≤ 4097)
resolve-use_all lib us client =
    let i = use_all-IsCoherent lib us new_client_router (new-IsCoherent lib) in
    ((resolve-IsCoherent lib client _ i).0, omega (arith, i.bounded, i.small))
