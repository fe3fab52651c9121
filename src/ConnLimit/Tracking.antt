-- ===== src/ConnLimit/Tracking.antt =====
-- The counters against the connections that are open (internal/dnsserver/connlimit.go).
use irongrid_dns.Prelude.{
  ℕ, ◌+◌, ◌-◌, ◌≤◌, ◌<◌, ◌≡◌, refl, ap, ◌∙◌, inl, inr, true, false, ◌||◌, List, [], ◌∷◌, ◌++◌,
  Option, none, some, arith, ltb, leb, if◌then◌else◌, Bool-cases,
}
use irongrid_dns.Prelude.Int.{pos}
use irongrid_dns.Bytes.{GoString, is_empty, str_eq, str_eq_iff, str_eq_refl, str_eq_sound}
use irongrid_dns.Shards.Table.{
  Table, Shards, lookup, insert, delete, shard, set_shard, lookup-delete, lookup-nil,
  lookup-set_shard, lookup-insert_self, lookup-insert_ne,
}
use irongrid_dns.ConnLimit.{
  ConnLimiter, Conn, tracked, rejected, is_off, at_cap, count_in, acquire, release, accept, close,
  new_conn_limiter,
}

-- The server: the limiter, and the connections that it has handed out and that are still open.
pub record Server : Type 0 where
  pub lim : ConnLimiter
  pub open_conns : List Conn

-- A connection comes in, or one that is open is closed.
pub data Step : Server → Server → Type 0 where
  accepts :
      (s : Server) (ip : GoString)
      → Step s
          (record { lim = (accept s.lim ip).0; open_conns = (accept s.lim ip).1 ∷ s.open_conns })
  closes :
      (s : Server) (before after : List Conn) (c : Conn)
      → s.open_conns ≡ before ++ c ∷ after
      → Step s (record { lim = close s.lim c; open_conns = before ++ after })

pub data Reach (s : Server) : Server → Type 0 where
  here : Reach s s
  next : {t u : Server} → Reach s t → Step t u → Reach s u

-- How many of the open connections are tracked for an address.
pub held : GoString → List Conn → ℕ
held ip [] = 0
held ip (rejected ∷ cs) = held ip cs
held ip (tracked j ∷ cs) = if str_eq j ip then held ip cs + 1 else held ip cs

-- The entry of an address that holds `n` connections: none at all for 0.
abbrev pub slot : ℕ → Option ℕ
slot n = if leb n 0 then none else some n

-- The counters of a server with a cap are the connections that it holds, and no more than the cap.
pub record Tracks (cap : ℕ) (s : Server) : Type 0 where
  pub cap_eq : s.lim.cap ≡ pos cap
  pub counted :
      (ip : GoString)
      → is_empty ip ≡ false
      → lookup ip (shard s.lim.shards ip) ≡ slot (held ip s.open_conns)
  pub within : (ip : GoString) → is_empty ip ≡ false → held ip s.open_conns ≤ cap

module _ (cl : ConnLimiter) (cap : ℕ) (cap_eq : cl.cap ≡ pos cap) (some_cap : 0 < cap)
    (ip : GoString) (named : is_empty ip ≡ false) where
  on : (is_empty ip || is_off cl.cap) ≡ false
  on = ground (arith, named, ap is_off cap_eq)

  acquire_full : cap ≤ count_in ip (shard cl.shards ip) → acquire cl ip ≡ (cl, false)
  unfolding acquire
  acquire_full h =
      rw (on, acquire) (ground (arith, ap (at_cap (count_in ip (shard cl.shards ip))) cap_eq))

  acquire_free :
      count_in ip (shard cl.shards ip) < cap
      → acquire cl ip ≡ (
        record cl {
          shards =
              set_shard cl.shards ip
                (insert ip (count_in ip (shard cl.shards ip) + 1) (shard cl.shards ip));
        },
        true,
      )
  unfolding acquire
  acquire_free h =
      let n = count_in ip (shard cl.shards ip) in
      let below : at_cap n cl.cap ≡ false = ap (at_cap n) cap_eq ∙ ground arith in
      rw (on, below, acquire)

  release_on : release cl ip ≡ record cl {
    shards = set_shard cl.shards ip (
        if ltb 1 (count_in ip (shard cl.shards ip))
        then insert ip (count_in ip (shard cl.shards ip) - 1) (shard cl.shards ip)
        else delete ip (shard cl.shards ip));
  }
  unfolding release
  release_on = rw (on, release)

abbrev slot_of : ConnLimiter → GoString → Option ℕ
slot_of cl ip = lookup ip (shard cl.shards ip)

-- The slots after a write of `ip`'s entry.
slot-insert :
    (shards : Shards ℕ) (ip j : GoString) (n : ℕ)
    → lookup j (shard (set_shard shards ip (insert ip (n + 1) (shard shards ip))) j)
      ≡ (if str_eq ip j then slot (n + 1) else lookup j (shard shards j))
slot-insert shards ip j n =
    lookup-set_shard shards ip j (insert ip (n + 1) (shard shards ip))
      (λ i ne. lookup-insert_ne ip i (n + 1) (shard shards ip) ne)
    ∙ ground (arith, lookup-insert_self ip (n + 1) (shard shards ip))

slot-release :
    (shards : Shards ℕ) (ip j : GoString) (n : ℕ)
    → lookup j (
        shard
          (set_shard shards ip
            (if ltb 1 n then insert ip (n - 1) (shard shards ip) else delete ip (shard shards ip)))
          j)
      ≡ (if str_eq ip j then slot (n - 1) else lookup j (shard shards j))
slot-release shards ip j n = elim (Bool-cases (ltb 1 n)) [
  | inl many ↦ rw many (
      lookup-set_shard shards ip j (insert ip (n - 1) (shard shards ip))
        (λ i ne. lookup-insert_ne ip i (n - 1) (shard shards ip) ne)
      ∙ ground (arith, lookup-insert_self ip (n - 1) (shard shards ip)))
  | inr last ↦ rw last (
      lookup-set_shard shards ip j (delete ip (shard shards ip))
        (λ i ne. ground (arith, lookup-delete ip i (shard shards ip), str_eq_iff ip i))
      ∙ ground (arith, lookup-delete ip ip (shard shards ip), str_eq_refl ip))
]

count-slot : (ip : GoString) (m : Table ℕ) (n : ℕ) → lookup ip m ≡ slot n → count_in ip m ≡ n
unfolding count_in
count-slot ip m n h = ground arith

-- An open connection in the middle of the list.
held-middle :
    (ip : GoString) (before after : List Conn) (c : Conn)
    → held ip (before ++ c ∷ after) ≡ held ip (c ∷ before ++ after)
unfolding held
held-middle ip [] after c = refl
held-middle ip (rejected ∷ before) after rejected = held-middle ip before after rejected
held-middle ip (rejected ∷ before) after (tracked j) = held-middle ip before after (tracked j)
held-middle ip (tracked i ∷ before) after rejected =
    ground (arith, held-middle ip before after rejected)
held-middle ip (tracked i ∷ before) after (tracked j) =
    ground (arith, held-middle ip before after (tracked j))

module _ (cap : ℕ) (some_cap : 0 < cap) where
  -- What `Tracks` says, of a limiter and the open connections.
  abbrev Counts : ConnLimiter → List Conn → Type 0
  Counts cl cs = Tracks cap (record { lim = cl; open_conns = cs })

  -- An accepted connection.
  accept_unnamed :
      (cl : ConnLimiter) (ip : GoString) → is_empty ip ≡ true → accept cl ip ≡ (cl, tracked ip)
  unfolding accept acquire
  accept_unnamed cl ip e = rw (e, accept, acquire)

  accept_full :
      (cl : ConnLimiter) (cs : List Conn) (ip : GoString)
      → is_empty ip ≡ false
      → Counts cl cs
      → cap ≤ held ip cs
      → accept cl ip ≡ (cl, rejected)
  unfolding accept
  accept_full cl cs ip named t h =
      let n = count-slot ip (shard cl.shards ip) (held ip cs) (t.counted ip named) in
      ap (λ r. (r.0, if r.1 then tracked ip else rejected))
        (acquire_full cl cap t.cap_eq some_cap ip named (omega (arith, n)))

  accept_free :
      (cl : ConnLimiter) (cs : List Conn) (ip : GoString)
      → is_empty ip ≡ false
      → Counts cl cs
      → held ip cs < cap
      → accept cl ip ≡ (
        record cl {
          shards = set_shard cl.shards ip (insert ip (held ip cs + 1) (shard cl.shards ip));
        },
        tracked ip,
      )
  unfolding accept
  accept_free cl cs ip named t h =
      let n = count-slot ip (shard cl.shards ip) (held ip cs) (t.counted ip named) in
      ap (λ r. (r.0, if r.1 then tracked ip else rejected))
        (acquire_free cl cap t.cap_eq some_cap ip named (omega (arith, n)))
      ∙ ap
          (λ k. (
            record cl { shards = set_shard cl.shards ip (insert ip (k + 1) (shard cl.shards ip)) },
            tracked ip,
          ))
          n

  unnamed-held :
      (ip j : GoString) (cs : List Conn)
      → is_empty ip ≡ true
      → is_empty j ≡ false
      → held j (tracked ip ∷ cs) ≡ held j cs
  unfolding held
  unnamed-held ip j cs e ne = elim (Bool-cases (str_eq ip j)) [
    | inl same ↦ absurd (ground (arith, ap is_empty (str_eq_sound ip j same)))
    | inr other ↦ rw other
  ]

  grown :
      (ip j : GoString) (cs : List Conn) (old : Option ℕ)
      → old ≡ slot (held j cs)
      → (if str_eq ip j then slot (held ip cs + 1) else old) ≡ slot (held j (tracked ip ∷ cs))
  unfolding held
  grown ip j cs old h = elim (Bool-cases (str_eq ip j)) [
    | inl same ↦ rw same (ap (λ i. slot (held i cs + 1)) ((str_eq_iff ip j).0 same))
    | inr other ↦ rw other h
  ]

  shrunk :
      (ip j : GoString) (cs : List Conn) (old : Option ℕ)
      → old ≡ slot (held j (tracked ip ∷ cs))
      → (if str_eq ip j then slot (held ip cs) else old) ≡ slot (held j cs)
  unfolding held
  shrunk ip j cs old h = elim (Bool-cases (str_eq ip j)) [
    | inl same ↦ rw same (ap (λ i. slot (held i cs)) ((str_eq_iff ip j).0 same))
    | inr other ↦ rw other (rw other at h)
  ]

  release_unnamed : (cl : ConnLimiter) (ip : GoString) → is_empty ip ≡ true → release cl ip ≡ cl
  unfolding release
  release_unnamed cl ip e = rw (e, release)

  held_one_more : (ip : GoString) (cs : List Conn) → held ip (tracked ip ∷ cs) ≡ held ip cs + 1
  unfolding held
  held_one_more ip cs = rw (str_eq_refl ip)

  fewer_held : (ip j : GoString) (cs : List Conn) → held j cs ≤ held j (tracked ip ∷ cs)
  unfolding held
  fewer_held ip j cs = ground arith

  release-held :
      (cl : ConnLimiter) (cs : List Conn) (ip j : GoString)
      → is_empty ip ≡ false
      → is_empty j ≡ false
      → Counts cl (tracked ip ∷ cs)
      → slot_of (release cl ip) j ≡ slot (held j cs)
  release-held cl cs ip j named ne t =
      let n = count_in ip (shard cl.shards ip) in
      let one_more : n ≡ held ip cs + 1 =
        count-slot ip (shard cl.shards ip) _ (t.counted ip named) ∙ held_one_more ip cs in
      ap (λ r. slot_of r j) (release_on cl cap t.cap_eq some_cap ip named)
      ∙ slot-release cl.shards ip j n
      ∙ ap (λ k. if str_eq ip j then slot k else slot_of cl j) (omega (arith, one_more))
      ∙ shrunk ip j cs (slot_of cl j) (t.counted j ne)

  release-cap : (cl : ConnLimiter) (ip : GoString) → (release cl ip).cap ≡ cl.cap
  unfolding release
  release-cap cl ip = ground arith

  accept-Counts :
      (cl : ConnLimiter) (cs : List Conn) (ip : GoString)
      → Counts cl cs
      → Counts (accept cl ip).0 ((accept cl ip).1 ∷ cs)
  unfolding held
  accept-Counts cl cs ip t = elim (Bool-cases (is_empty ip)) [
    | inl none_given ↦ rw (accept_unnamed cl ip none_given) (record {
      cap_eq = t.cap_eq;
      counted = λ j ne. rw (unnamed-held ip j cs none_given ne) (t.counted j ne);
      within = λ j ne. rw (unnamed-held ip j cs none_given ne) (t.within j ne);
    })
    | inr named ↦ elim (Bool-cases (leb cap (held ip cs))) [
      | inl full ↦
          rw (accept_full cl cs ip named t (ground arith))
            (record { cap_eq = t.cap_eq; counted = t.counted; within = t.within })
      | inr free ↦ rw (accept_free cl cs ip named t (ground arith)) (record {
        cap_eq = t.cap_eq;
        counted = λ j ne.
            slot-insert cl.shards ip j (held ip cs)
            ∙ grown ip j cs (lookup j (shard cl.shards j)) (t.counted j ne);
        within = λ j ne. elim (Bool-cases (str_eq ip j)) [
          | inl same ↦ rw same (ground (arith, ap (λ i. held i cs) ((str_eq_iff ip j).0 same)))
          | inr other ↦ rw other (t.within j ne)
        ];
      })
    ]
  ]

  close-Counts :
      (cl : ConnLimiter) (cs : List Conn) (c : Conn) → Counts cl (c ∷ cs) → Counts (close cl c) cs
  unfolding close held
  close-Counts cl cs rejected t = record {
    cap_eq = t.cap_eq;
    counted = t.counted;
    within = t.within;
  }
  close-Counts cl cs (tracked ip) t = record {
    cap_eq = release-cap cl ip ∙ t.cap_eq;
    counted = λ j ne. elim (Bool-cases (is_empty ip)) [
      | inl none_given ↦
          ap (λ r. slot_of r j) (release_unnamed cl ip none_given)
          ∙ t.counted j ne
          ∙ ap slot (unnamed-held ip j cs none_given ne)
      | inr named ↦ release-held cl cs ip j named ne t
    ];
    within = λ j ne. omega (arith, t.within j ne, fewer_held ip j cs);
  }

  Step-Tracks : {s t : Server} → Step s t → Tracks cap s → Tracks cap t
  Step-Tracks (accepts s ip) h = accept-Counts s.lim s.open_conns ip h
  Step-Tracks (closes s before after c e) h = close-Counts s.lim (before ++ after) c (record {
    cap_eq = h.cap_eq;
    counted = λ j ne.
        h.counted j ne ∙ ap (λ cs. slot (held j cs)) e ∙ ap slot (held-middle j before after c);
    within = λ j ne. omega (arith, h.within j ne, ap (held j) e, held-middle j before after c);
  })

  Tracks-kept : {s t : Server} → Reach s t → Tracks cap s → Tracks cap t
  Tracks-kept here h = h
  Tracks-kept (next r st) h = Step-Tracks st (Tracks-kept r h)

  -- However connections come and go, in any order, the counter of an address is the number of its
  -- connections that are open and tracked, an address without any has no entry, and no address
  -- ever holds more connections than the cap.
  pub Reach-Tracks :
      (s : Server)
      → Reach (record { lim = new_conn_limiter (pos cap); open_conns = [] }) s
      → Tracks cap s
  unfolding new_conn_limiter held shard
  Reach-Tracks s r =
      Tracks-kept r
        (record { cap_eq = refl; counted = λ ip ne. lookup-nil ip; within = λ ip ne. omega arith })
