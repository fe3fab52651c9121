-- ===== src/Dhcp/Free.antt =====
-- internal/dhcp/pool.go: what `inUseLocked` answers, and what it changes.
use irongrid_dns.Prelude.{
  ℕ, ◌≡◌, ◌≢◌, refl, sym, ap, subst, ◌∙◌, inl, inr, Bool, true, false, not, ◌&&◌, ◌||◌, Option,
  none, some, arith, ltb, Bool-cases, Option-cases,
}
use irongrid_dns.Bytes.{GoString, str_eq, str_eq_refl, str_eq_iff}
use irongrid_dns.Shards.Table.{lookup, lookup-delete}
use irongrid_dns.Dhcp.Leases.{Lease, Server, is_reserved, reclaim, in_use}

-- No other client has a lease on the address, live or not, and none holds it.
pub record IsFree (s : Server) (ip key : GoString) (now : ℕ) : Type 0 where
  pub unleased : (p : ℕ) → lookup ip s.by_ip ≡ some p → str_eq (s.store p).key key ≡ true
  pub unreserved : is_reserved s ip key now ≡ false

-- Another client has a live lease on the address, or holds it.
abbrev pub is_live : Lease → GoString → ℕ → Bool
is_live l key now = not (str_eq l.key key) && (l.static || ltb now l.expires)

abbrev pub live_at : Server → GoString → ℕ → Option ℕ → Bool
live_at s key now none = false
live_at s key now (some p) = is_live (s.store p) key now

abbrev pub is_taken : Server → GoString → GoString → ℕ → Bool
is_taken s ip key now = is_reserved s ip key now || live_at s key now (lookup ip s.by_ip)

-- What `inUseLocked` does, by the lease on the address.
module _ (s : Server) (ip key : GoString) (now : ℕ) where
  in_use-ind :
      (P : Server × Bool → Type 0)
      → (lookup ip s.by_ip ≡ none → P (s, is_reserved s ip key now))
      → ((p : ℕ)
          → lookup ip s.by_ip ≡ some p
          → str_eq (s.store p).key key ≡ true
          → P (s, is_reserved s ip key now))
      → ((p : ℕ)
          → lookup ip s.by_ip ≡ some p
          → str_eq (s.store p).key key ≡ false
          → ((s.store p).static || ltb now (s.store p).expires) ≡ true
          → P (s, true))
      → ((p : ℕ)
          → lookup ip s.by_ip ≡ some p
          → str_eq (s.store p).key key ≡ false
          → ((s.store p).static || ltb now (s.store p).expires) ≡ false
          → P (reclaim s ip (s.store p), is_reserved s ip key now))
      → P (in_use s ip key now)
  unfolding in_use
  in_use-ind P unheld own live dead = elim (Option-cases (lookup ip s.by_ip)) [
    | inl absent ↦ rw (in_use, absent) (unheld absent)
    | inr (p, held) ↦ elim (Bool-cases (str_eq (s.store p).key key)) [
      | inl mine ↦ rw (in_use, held, mine) (own p held mine)
      | inr other ↦ elim (Bool-cases ((s.store p).static || ltb now (s.store p).expires)) [
        | inl alive ↦ rw (in_use, held, other, alive) (live p held other alive)
        | inr gone ↦ rw (in_use, held, other, gone) (dead p held other gone)
      ]
    ]
  ]

  -- The test agrees with the description.
  pub in_use-is_taken : (in_use s ip key now).1 ≡ is_taken s ip key now
  in_use-is_taken =
      in_use-ind (λ r. r.1 ≡ is_taken s ip key now) (λ absent. rw absent (ground arith))
        (λ p held mine. rw (held, mine) (ground arith))
        (λ p held other live. rw (held, other, live) (ground arith))
        (λ p held other gone. rw (held, other, gone) (ground arith))

  pub in_use-IsFree : (in_use s ip key now).1 ≡ false → IsFree (in_use s ip key now).0 ip key now
  unfolding reclaim is_reserved
  in_use-IsFree =
      in_use-ind (λ r. r.1 ≡ false → IsFree r.0 ip key now)
        (λ absent free. record { unleased = λ p h. ground arith; unreserved = free })
        (λ p held mine free. record {
          unleased =
              λ q h. subst (λ n. str_eq (s.store n).key key ≡ true) (ground (arith, held, h)) mine;
          unreserved = free;
        })
        (λ p held other live free. ground arith)
        (λ p held other gone free. record {
          unleased = λ q h. ground (arith, lookup-delete ip ip s.by_ip, str_eq_refl ip);
          unreserved = free;
        })

-- What a look at an address leaves as it was: all but expired leases of others.
pub record Keeps (key : GoString) (now : ℕ) (s t : Server) : Type 0 where
  pub start : t.range_start ≡ s.range_start
  pub stop : t.range_end ≡ s.range_end
  pub cursor : t.cursor4 ≡ s.cursor4
  pub store : (p : ℕ) → t.store p ≡ s.store p
  pub reserved : t.reserved ≡ s.reserved
  pub by_ip : (a : GoString) (p : ℕ) → lookup a t.by_ip ≡ some p → lookup a s.by_ip ≡ some p
  pub live :
      (a : GoString) (p : ℕ)
      → lookup a s.by_ip ≡ some p
      → is_live (s.store p) key now ≡ true
      → lookup a t.by_ip ≡ some p

pub Keeps-refl : (key : GoString) (now : ℕ) (s : Server) → Keeps key now s s
Keeps-refl key now s = record {
  start = refl;
  stop = refl;
  cursor = refl;
  store = λ p. refl;
  reserved = refl;
  by_ip = λ a p h. h;
  live = λ a p h l. h;
}

pub Keeps-trans :
    (key : GoString) (now : ℕ) (s t u : Server)
    → Keeps key now s t
    → Keeps key now t u
    → Keeps key now s u
Keeps-trans key now s t u x y = record {
  start = y.start ∙ x.start;
  stop = y.stop ∙ x.stop;
  cursor = y.cursor ∙ x.cursor;
  store = λ p. y.store p ∙ x.store p;
  reserved = y.reserved ∙ x.reserved;
  by_ip = λ a p h. x.by_ip a p (y.by_ip a p h);
  live = λ a p h l. y.live a p (x.live a p h l) (ap (λ e. is_live e key now) (x.store p) ∙ l);
}

not_dead :
    (l : Lease) (key : GoString) (now : ℕ)
    → (l.static || ltb now l.expires) ≡ false
    → is_live l key now ≢ true
not_dead l key now gone h = ground arith

pub in_use-Keeps :
    (s : Server) (ip key : GoString) (now : ℕ) → Keeps key now s (in_use s ip key now).0
unfolding reclaim
in_use-Keeps s ip key now =
    in_use-ind s ip key now (λ r. Keeps key now s r.0) (λ absent. Keeps-refl key now s)
      (λ p held mine. Keeps-refl key now s) (λ p held other live. Keeps-refl key now s)
      (λ p held other gone. record {
        start = refl;
        stop = refl;
        cursor = refl;
        store = λ q. refl;
        reserved = refl;
        by_ip = λ a q h. ground (arith, lookup-delete ip a s.by_ip);
        live = λ a q h l. elim (Bool-cases (str_eq ip a)) [
          | inl same ↦ absurd (
              let e : q ≡ p =
                ground (arith, ap (λ i. lookup i s.by_ip) ((str_eq_iff ip a).0 same), h, held) in
              not_dead (s.store p) key now gone
                (subst (λ n. is_live (s.store n) key now ≡ true) e l))
          | inr apart ↦ ground (arith, lookup-delete ip a s.by_ip)
        ];
      })

module _ (s t : Server) (ip key : GoString) (now : ℕ) (k : Keeps key now s t) where
  pub is_reserved-Keeps : is_reserved t ip key now ≡ is_reserved s ip key now
  unfolding is_reserved
  is_reserved-Keeps = rw k.reserved refl

  live_at-Keeps :
      (o : Option ℕ)
      → lookup ip t.by_ip ≡ o
      → live_at t key now o ≡ true
      → live_at s key now (lookup ip s.by_ip) ≡ true
  live_at-Keeps none e h = absurd (ground arith)
  live_at-Keeps (some p) e h =
      rw (k.by_ip ip p e) (ap (λ l. is_live l key now) (sym (k.store p)) ∙ h)

  live_at-kept :
      (o : Option ℕ)
      → lookup ip s.by_ip ≡ o
      → live_at s key now o ≡ true
      → live_at t key now (lookup ip t.by_ip) ≡ true
  live_at-kept none e h = absurd (ground arith)
  live_at-kept (some p) e h = rw (k.live ip p e h) (ap (λ l. is_live l key now) (k.store p) ∙ h)

  -- An address that is taken later was taken before, and stays taken.
  pub is_taken-Keeps : is_taken t ip key now ≡ is_taken s ip key now
  is_taken-Keeps = ground (
    arith,
    is_reserved-Keeps,
    live_at-Keeps (lookup ip t.by_ip) refl,
    live_at-kept (lookup ip s.by_ip) refl,
  )
