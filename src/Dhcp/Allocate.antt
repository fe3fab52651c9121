-- ===== src/Dhcp/Allocate.antt =====
-- internal/dhcp/pool.go: what `nextFree4` finds is free, and what it means that it finds nothing.
use irongrid_dns.Prelude.{
  ℕ, zero, suc, ◌+◌, ◌≤◌, ◌<◌, ◌≡◌, refl, sym, ap, subst, ◌∙◌, inl, inr, true, false, Option, none,
  some, arith, ◌==◌, Bool-cases,
}
use irongrid_dns.Bytes.{GoString}
use irongrid_dns.Dhcp.Addr.{pool_total, candidate}
use irongrid_dns.Dhcp.Leases.{Server, is_reserved, in_use, next_free_from, next_free4}
use irongrid_dns.Dhcp.Free.{
  IsFree, is_taken, in_use-is_taken, in_use-IsFree, Keeps, Keeps-refl, Keeps-trans, in_use-Keeps,
  is_taken-Keeps,
}

-- The address of a round.
abbrev pub cand_at : Server → ℕ → GoString
cand_at s i = candidate s.range_start s.range_end s.cursor4 i

cand_at-Keeps :
    (key : GoString) (now : ℕ) (s t : Server) (i : ℕ)
    → Keeps key now s t
    → cand_at t i ≡ cand_at s i
cand_at-Keeps key now s t i k = rw (k.start, k.stop, k.cursor) refl

module _ (n i : ℕ) (s : Server) (key : GoString) (now : ℕ) where
  round_used :
      (in_use s (cand_at s i) key now).1 ≡ true
      → next_free_from (suc n) i s key now
        ≡ next_free_from n (i + 1) (in_use s (cand_at s i) key now).0 key now
  unfolding next_free_from
  round_used used = rw (next_free_from, used) refl

  round_free :
      (in_use s (cand_at s i) key now).1 ≡ false
      → (next_free_from (suc n) i s key now).1 ≡ some (cand_at s i)
  unfolding next_free_from
  round_free free = rw (next_free_from, free) refl

  unused-IsFree :
      (in_use s (cand_at s i) key now).1 ≡ false
      → IsFree (next_free_from (suc n) i s key now).0 (cand_at s i) key now
  unfolding next_free_from is_reserved
  unused-IsFree free =
      let f = in_use-IsFree s (cand_at s i) key now free in
      rw (next_free_from, free) (record { unleased = f.unleased; unreserved = f.unreserved })

no_round : (i : ℕ) (s : Server) (key : GoString) (now : ℕ) → (next_free_from 0 i s key now).1 ≡ none
unfolding next_free_from
no_round i s key now = refl

-- What is found: one of the candidates, not taken before, and free in the state that is left.
pub record Found (s t : Server) (rounds : ℕ) (ip key : GoString) (now : ℕ) : Type 0 where
  pub index : ℕ
  pub within : index < rounds
  pub is_candidate : ip ≡ cand_at s index
  pub untaken : is_taken s ip key now ≡ false
  pub free : IsFree t ip key now

module _ (key : GoString) (now : ℕ) where
  next_free_from-Found :
      (n i : ℕ) (s o : Server) (ip : GoString)
      → Keeps key now o s
      → (next_free_from n i s key now).1 ≡ some ip
      → Found o (next_free_from n i s key now).0 (i + n) ip key now
  next_free_from-Found zero i s o ip k h = absurd (ground (arith, no_round i s key now, h))
  next_free_from-Found (suc n) i s o ip k h = elim (Bool-cases (in_use s (cand_at s i) key now).1) [
    | inl used ↦
        let s' = (in_use s (cand_at s i) key now).0 in
        let e = round_used n i s key now used in
        let f =
          next_free_from-Found n (i + 1) s' o ip
            (Keeps-trans key now o s s' k (in_use-Keeps s (cand_at s i) key now))
            (ap (λ (r : Server × Option GoString). r.1) (sym e) ∙ h) in
        record {
          index = f.index;
          within = omega (arith, f.within);
          is_candidate = f.is_candidate;
          untaken = f.untaken;
          free = subst (λ (r : Server × Option GoString). IsFree r.0 ip key now) (sym e) f.free;
        }
    | inr unused ↦
        let same : ip ≡ cand_at s i = ground (arith, round_free n i s key now unused, h) in
        record {
          index = i;
          within = omega arith;
          is_candidate = same ∙ cand_at-Keeps key now o s i k;
          untaken =
              sym (is_taken-Keeps o s ip key now k)
              ∙ ap (λ a. is_taken s a key now) same
              ∙ sym (in_use-is_taken s (cand_at s i) key now)
              ∙ unused;
          free =
              subst (λ a. IsFree (next_free_from (suc n) i s key now).0 a key now) (sym same)
                (unused-IsFree n i s key now unused);
        }
  ]

  next_free_from-none :
      (n i : ℕ) (s o : Server)
      → Keeps key now o s
      → (next_free_from n i s key now).1 ≡ none
      → (j : ℕ) → i ≤ j
      → j < i + n
      → is_taken o (cand_at o j) key now ≡ true
  next_free_from-none zero i s o k h j lo hi = absurd (omega (arith, lo, hi))
  next_free_from-none (suc n) i s o k h j lo hi =
      elim (Bool-cases (in_use s (cand_at s i) key now).1) [
        | inr unused ↦ absurd (ground (arith, round_free n i s key now unused, h))
        | inl used ↦
            let s' = (in_use s (cand_at s i) key now).0 in
            let here : is_taken o (cand_at o i) key now ≡ true =
              subst (λ a. is_taken o a key now ≡ true) (cand_at-Keeps key now o s i k)
                (sym (is_taken-Keeps o s (cand_at s i) key now k)
                  ∙ sym (in_use-is_taken s (cand_at s i) key now)
                  ∙ used) in
            elim (Bool-cases (i == j)) [
              | inl now_here ↦
                  subst (λ n. is_taken o (cand_at o n) key now ≡ true) (ground arith) here
              | inr later ↦
                  next_free_from-none n (i + 1) s' o
                    (Keeps-trans key now o s s' k (in_use-Keeps s (cand_at s i) key now))
                    (ap (λ (r : Server × Option GoString). r.1)
                        (sym (round_used n i s key now used))
                      ∙ h)
                    j (ground arith) (omega (arith, hi))
            ]
      ]

  -- The address that `nextFree4` returns is one of the candidates; no other client had a live lease
  -- on it or held it before, and none has any lease on it or holds it in the state that is left.
  pub next_free4-Found :
      (s : Server) (ip : GoString)
      → (next_free4 s key now).1 ≡ some ip
      → Found s (next_free4 s key now).0 (pool_total s.range_start s.range_end + 1) ip key now
  unfolding next_free4
  next_free4-Found s ip h =
      let total = pool_total s.range_start s.range_end in
      let f = next_free_from-Found (total + 1) 0 s s ip (Keeps-refl key now s) h in
      record {
        index = f.index;
        within = omega (arith, f.within);
        is_candidate = f.is_candidate;
        untaken = f.untaken;
        free = f.free;
      }

  -- `nextFree4` returns nothing only when every candidate is taken: another client has a live
  -- lease on it, or holds it.
  pub next_free4-none :
      (s : Server) (j : ℕ)
      → (next_free4 s key now).1 ≡ none
      → j ≤ pool_total s.range_start s.range_end
      → is_taken s (cand_at s j) key now ≡ true
  unfolding next_free4
  next_free4-none s j h within =
      next_free_from-none (pool_total s.range_start s.range_end + 1) 0 s s (Keeps-refl key now s) h
        j (omega arith) (omega (arith, within))
