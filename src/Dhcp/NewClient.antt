-- ===== src/Dhcp/NewClient.antt =====
-- internal/dhcp/pool.go: what `allocV4` offers to a client that has nothing yet.
use irongrid_dns.Prelude.{
  ℕ, ◌+◌, ◌≡◌, sym, ap, subst, ◌∙◌, inl, inr, Bool, false, [], Option, none, some, arith,
  Bool-cases, Option-cases,
}
use irongrid_dns.Bytes.{GoString}
use irongrid_dns.Shards.Table.{lookup, lookup-insert_self}
use irongrid_dns.Dhcp.Leases.{Server, in_use, next_free4, reserve}
use irongrid_dns.Dhcp.Leases.{offered_hold}
use irongrid_dns.Dhcp.Offer.{
  Config, static_for, find_held, addr_in_pool, offer_next, offer_requested, offer_again, alloc_v4,
  v4_key,
}
use irongrid_dns.Dhcp.Free.{
  is_taken, in_use-is_taken, Keeps, Keeps-refl, in_use-Keeps, is_taken-Keeps,
}
use irongrid_dns.Dhcp.Allocate.{next_free4-Found}

-- An offer that was made: the address was not taken before, and is held for the client now.
pub record IsOffer (s t : Server) (ip key : GoString) (now : ℕ) : Type 0 where
  pub untaken : is_taken s ip key now ≡ false
  pub held : lookup ip t.reserved ≡ some (record { key = key; until = now + offered_hold })

-- Whatever address a result names is an offer.
abbrev pub Offers : Server → GoString → ℕ → Server × Option (GoString × Bool) → Type 0
Offers s key now r =
    (ip : GoString) (static : Bool) → r.1 ≡ some (ip, static) → IsOffer s r.0 ip key now

address_of : Option (GoString × Bool) → GoString
address_of none = []
address_of (some (ip, static)) = ip

module _ (key : GoString) (now : ℕ) (o : Server) where
  nothing-Offers : (t : Server) → Offers o key now (t, none)
  nothing-Offers t ip static h = absurd (ground arith)

  reserve-Offers :
      (t : Server) (a : GoString)
      → is_taken o a key now ≡ false
      → Offers o key now (reserve t a key (now + offered_hold), some (a, false))
  unfolding reserve address_of
  reserve-Offers t a free ip static h =
      subst (λ i. IsOffer o (reserve t a key (now + offered_hold)) i key now) (ap address_of h)
        (record { untaken = free; held = lookup-insert_self a _ t.reserved })

  offer_next-Offers : (s : Server) → Keeps key now o s → Offers o key now (offer_next s key now)
  unfolding offer_next
  offer_next-Offers s k = elim (Option-cases (next_free4 s key now).1) [
    | inl nothing ↦ rw (offer_next, nothing) (nothing-Offers (next_free4 s key now).0)
    | inr (a, found) ↦
        let f = next_free4-Found key now s a found in
        rw (offer_next, found)
          (reserve-Offers (next_free4 s key now).0 a
            (sym (is_taken-Keeps o s a key now k) ∙ f.untaken))
  ]

module _ (key : GoString) (now : ℕ) (s : Server) (cfg : Config) where
  offer_requested-Offers :
      (requested : Option GoString) → Offers s key now (offer_requested s cfg key requested now)
  unfolding offer_requested
  offer_requested-Offers none = offer_next-Offers key now s s (Keeps-refl key now s)
  offer_requested-Offers (some ip) = elim (Bool-cases (addr_in_pool s cfg ip)) [
    | inr outside ↦
        rw (offer_requested, outside) (offer_next-Offers key now s s (Keeps-refl key now s))
    | inl inside ↦ elim (Bool-cases (in_use s ip key now).1) [
      | inl used ↦
          rw (offer_requested, inside, used)
            (offer_next-Offers key now s (in_use s ip key now).0 (in_use-Keeps s ip key now))
      | inr unused ↦
          rw (offer_requested, inside, unused)
            (reserve-Offers key now s (in_use s ip key now).0 ip
              (sym (in_use-is_taken s ip key now) ∙ unused))
    ]
  ]

-- A client without a static reservation, a lease or an offer is given an address that no other
-- client had a live lease on or held, and the address is held for it for 90 seconds from now,
-- whether it asked for the address or not.
pub alloc_v4-IsOffer :
    (s : Server) (cfg : Config) (mac : GoString) (requested : Option GoString) (hostname : GoString)
    (now : ℕ) (ip : GoString) (static : Bool)
    → static_for cfg.static mac ≡ none
    → lookup (v4_key mac) s.leases ≡ none
    → find_held s.reserved (v4_key mac) now ≡ none
    → (alloc_v4 s cfg mac requested hostname now).1 ≡ some (ip, static)
    → IsOffer s (alloc_v4 s cfg mac requested hostname now).0 ip (v4_key mac) now
unfolding alloc_v4 offer_again
alloc_v4-IsOffer s cfg mac requested hostname now ip static nothing_static unleased unheld =
    offers ip static
  where
    offers : Offers s (v4_key mac) now (alloc_v4 s cfg mac requested hostname now)
    offers =
        rw (alloc_v4, nothing_static, offer_again, unleased, unheld)
          (offer_requested-Offers (v4_key mac) now s cfg requested)
