-- ===== src/Dhcp/Orphan.antt =====
-- internal/dhcp/pool.go: a client that moves to another address leaves its old one behind.
use irongrid_dns.Prelude.{
  ℕ, ◌+◌, ◌≤◌, ◌<◌, ◌≡◌, refl, sym, ap, subst, ◌∙◌, true, false, none, some, arith, ltb, ◌==◌,
  if◌then◌else◌,
}
use irongrid_dns.Bytes.{GoString, str_eq, str_eq_iff}
use irongrid_dns.Shards.Table.{lookup, lookup-insert, lookup-insert_self, lookup-delete}
use irongrid_dns.Dhcp.Leases.{Lease, Server, reclaim, in_use, commit}

module _ (s : Server) (l : Lease) (now : ℕ) where
  commit-by_ip :
      (a : GoString) → str_eq l.ip a ≡ false → lookup a (commit s l now).by_ip ≡ lookup a s.by_ip
  unfolding commit
  commit-by_ip a other = ground (arith, lookup-insert l.ip a s.next s.by_ip)

  commit-by_ip_self : lookup l.ip (commit s l now).by_ip ≡ some s.next
  unfolding commit
  commit-by_ip_self = lookup-insert_self l.ip s.next s.by_ip

  commit-store_old : (p : ℕ) → p < s.next → (commit s l now).store p ≡ s.store p
  unfolding commit
  commit-store_old p old = ground arith

  commit-store_new :
      l.static ≡ false → (commit s l now).store s.next ≡ record l { expires = now + s.lease_time }
  unfolding commit
  commit-store_new dynamic =
      let l' : Lease = record l { expires = now + s.lease_time } in
      ap (λ b. if b then (if l.static then l else l') else s.store s.next) (same s.next)
      ∙ ap (λ b. if b then l else l') dynamic
    where
      same : (n : ℕ) → (n == n) ≡ true
      same n = ground arith

-- An expired lease of another client on the address makes way.
in_use-reclaims :
    (s : Server) (ip key : GoString) (now p : ℕ)
    → lookup ip s.by_ip ≡ some p
    → str_eq (s.store p).key key ≡ false
    → (s.store p).static ≡ false
    → (s.store p).expires ≤ now
    → (in_use s ip key now).0 ≡ reclaim s ip (s.store p)
unfolding in_use
in_use-reclaims s ip key now p held other dynamic expired =
    rw (in_use, held, other, dynamic, over now (s.store p).expires expired) refl
  where
    over : (now u : ℕ) → u ≤ now → ltb now u ≡ false
    over now u h = ground arith

module _ (s : Server) (ip : GoString) (old : Lease) where
  reclaim-leases : (key : GoString) → old.key ≡ key → lookup key (reclaim s ip old).leases ≡ none
  unfolding reclaim
  reclaim-leases key e = ground (arith, lookup-delete old.key key s.leases, str_eq_iff old.key key)

  reclaim-by_ip :
      (a : GoString) → str_eq ip a ≡ false → lookup a (reclaim s ip old).by_ip ≡ lookup a s.by_ip
  unfolding reclaim
  reclaim-by_ip a other = ground (arith, lookup-delete ip a s.by_ip)

  reclaim-store : (q : ℕ) → (reclaim s ip old).store q ≡ s.store q
  unfolding reclaim
  reclaim-store q = refl

-- A client that has a lease on `a` and is given another address loses its new lease to the old
-- one: once the old lease has run out, a look at `a` for another client takes the client out of
-- the table of leases, while its new lease still stands at its address, with its full time.
pub orphan :
    (s : Server) (l : Lease) (now later p : ℕ) (a key : GoString)
    → lookup a s.by_ip ≡ some p
    → p < s.next
    → (s.store p).key ≡ l.key
    → (s.store p).static ≡ false
    → (s.store p).expires ≤ later
    → l.static ≡ false
    → str_eq l.ip a ≡ false
    → str_eq l.key key ≡ false
    → (lookup l.key (in_use (commit s l now) a key later).0.leases ≡ none)
      × (lookup l.ip (in_use (commit s l now) a key later).0.by_ip ≡ some s.next)
      × ((in_use (commit s l now) a key later).0.store s.next
          ≡ record l { expires = now + s.lease_time })
orphan s l now later p a key held below same old_dynamic expired dynamic moved other =
    let c = commit s l now in
    let kept = commit-store_old s l now p below in
    let mine : (c.store p).key ≡ l.key = ap (λ (x : Lease). x.key) kept ∙ same in
    let after : (in_use c a key later).0 ≡ reclaim c a (c.store p) =
      in_use-reclaims c a key later p (commit-by_ip s l now a moved ∙ held)
        (ap (λ k. str_eq k key) mine ∙ other) (ap (λ (x : Lease). x.static) kept ∙ old_dynamic)
        (subst (λ (x : Lease). x.expires ≤ later) (sym kept) expired) in
    let apart : str_eq a l.ip ≡ false = ground (arith, str_eq_iff a l.ip, str_eq_iff l.ip a) in
    (
      ap (λ (x : Server). lookup l.key x.leases) after ∙ reclaim-leases c a (c.store p) l.key mine,
      ap (λ (x : Server). lookup l.ip x.by_ip) after
          ∙ reclaim-by_ip c a (c.store p) l.ip apart
          ∙ commit-by_ip_self s l now,
      ap (λ (x : Server). x.store s.next) after
          ∙ reclaim-store c a (c.store p) s.next
          ∙ commit-store_new s l now dynamic,
    )
