-- ===== src/RepeatGuard/Streak.antt =====
-- What trips the repeat-query guard, and what its blocks do (internal/dnsserver/repeatguard.go).
use irongrid_dns.Prelude.{
  ℕ, ◌+◌, ◌≤◌, ◌<◌, ◌≡◌, refl, ap, ◌∙◌, ◌≢◌, ◌⊎◌, inl, inr, Bool, false, List, [], ◌∷◌, Option,
  none, some, arith, length, ltb, leb, Bool-cases, Option-cases,
}
use irongrid_dns.Prelude.Int.{pos}
use irongrid_dns.Bytes.{GoString, is_empty, str_eq, str_eq_refl, str_eq_sound}
use irongrid_dns.Clock.{Within}
use irongrid_dns.Shards.Table.{Table, lookup, insert, shard, set_shard, lookup-written}
use irongrid_dns.RepeatGuard.{
  RepeatGuard, RqLimits, RqEntry, allow, note_entry, new_streak, block_entry, evict_rq_locked,
  note_query_in, note_query, force_block_in, force_block,
}

abbrev pub entry_of : RepeatGuard → GoString → Option RqEntry
entry_of g client = lookup client (shard g.shards client)

abbrev written : RepeatGuard → GoString → RqEntry → Table RqEntry → RepeatGuard
written g client e m = record g { shards = set_shard g.shards client (insert client e m) }

-- Queries of one client for one name at the given times, after one that was answered `last`: the
-- guard, and the answer to the last of them.
unfoldable pub note_many : RepeatGuard → GoString → GoString → List ℕ → Bool → RepeatGuard × Bool
note_many g client qname [] last = (g, last)
note_many g client qname (now ∷ times) last =
    let (g', tripped) = note_query g client qname now in note_many g' client qname times tripped

module _ (client qname : GoString) (named : is_empty client ≡ false)
    (asked : is_empty qname ≡ false) where
  note_tracked :
      (g : RepeatGuard) (e : RqEntry) (now : ℕ)
      → entry_of g client ≡ some e
      → note_query g client qname now ≡ (
        written g client (note_entry g.limits e qname now).0 (shard g.shards client),
        (note_entry g.limits e qname now).1,
      )
  unfolding note_query
  note_tracked g e now held = rw (named, asked, held, note_query, note_query_in) refl

  note_untracked :
      (g : RepeatGuard) (now : ℕ)
      → entry_of g client ≡ none
      → note_query g client qname now ≡ (
        written g client (new_streak qname now) (evict_rq_locked now (shard g.shards client)),
        false,
      )
  unfolding note_query
  note_untracked g now absent = rw (named, asked, absent, note_query, note_query_in) refl

  goes_on :
      (l : RqLimits) (e : RqEntry) (now : ℕ)
      → e.qname ≡ qname
      → now ≤ e.first_seen + l.window
      → note_entry l e qname now ≡ (record e { count = e.count + 1 }, leb l.threshold (e.count + 1))
  unfolding note_entry
  goes_on l e now same w = ground (arith, ap (λ s. str_eq s qname) same, str_eq_refl qname)

  streak-note_many :
      (g : RepeatGuard) (e : RqEntry) (times : List ℕ)
      → entry_of g client ≡ some e
      → e.qname ≡ qname
      → Within e.first_seen g.window times
      → (note_many g client qname times (leb g.threshold e.count)).1
        ≡ leb g.threshold (e.count + length times)
  unfolding note_many
  streak-note_many g e [] held same w = ap (leb g.threshold) (omega arith)
  streak-note_many g e (now ∷ times) held same w =
      let e' : RqEntry = record e { count = e.count + 1 } in
      let g' = written g client e' (shard g.shards client) in
      let step : note_query g client qname now ≡ (g', leb g.threshold (e.count + 1)) =
        note_tracked g e now held
        ∙ ap (λ r. (written g client r.0 (shard g.shards client), r.1))
            (goes_on g.limits e now same w.0) in
      ap (λ r. (note_many r.0 client qname times r.1).1) step
      ∙ streak-note_many g' e' times (lookup-written g.shards client e' (shard g.shards client))
          same w.1
      ∙ ap (leb g.threshold) (omega arith)

  -- A client that is new to the guard and asks for one name only, at times within the window of
  -- its first query, is reported at a query exactly when that query is at least the threshold-th.
  pub streak_trips :
      (g : RepeatGuard) (first : ℕ) (times : List ℕ)
      → entry_of g client ≡ none
      → 2 ≤ g.threshold
      → Within first g.window times
      → (note_many g client qname (first ∷ times) false).1
        ≡ leb g.threshold (length (first ∷ times))
  unfolding note_many new_streak
  streak_trips g first times absent two w =
      let e = new_streak qname first in
      let m = evict_rq_locked first (shard g.shards client) in
      ap (λ r. (note_many r.0 client qname times r.1).1) (note_untracked g first absent)
      ∙ ap (λ b. (note_many (written g client e m) client qname times b).1) (ground arith)
      ∙ streak-note_many (written g client e m) e times (lookup-written g.shards client e m) refl w
      ∙ ap (leb g.threshold) (omega arith)

  starts_over :
      (l : RqLimits) (e : RqEntry) (now : ℕ)
      → (e.qname ≢ qname) ⊎ (e.first_seen + l.window < now)
      → note_entry l e qname now ≡ (new_streak qname now, false)
  unfolding note_entry
  starts_over l e now (inl other) = elim (Bool-cases (str_eq e.qname qname)) [
    | inl same ↦ absurd (other (str_eq_sound e.qname qname same))
    | inr differs ↦ rw differs refl
  ]
  starts_over l e now (inr late) = ground arith

  -- A query for another name, or one after the window, is never reported and starts a streak of
  -- one with no block.
  pub streak_breaks :
      (g : RepeatGuard) (e : RqEntry) (now : ℕ)
      → entry_of g client ≡ some e
      → (e.qname ≢ qname) ⊎ (e.first_seen + g.window < now)
      → ((note_query g client qname now).1 ≡ false)
        × (entry_of (note_query g client qname now).0 client
            ≡ some (record { qname = qname; count = 1; first_seen = now; blocked_until = 0 }))
  unfolding new_streak
  streak_breaks g e now held broken =
      let fresh = new_streak qname now in
      let step : note_query g client qname now
          ≡ (written g client fresh (shard g.shards client), false) =
        note_tracked g e now held
        ∙ ap (λ r. (written g client r.0 (shard g.shards client), r.1))
            (starts_over g.limits e now broken) in
      (
        ap (λ r. r.1) step,
        ap (λ r. entry_of r.0 client) step
            ∙ lookup-written g.shards client fresh (shard g.shards client),
      )

force_block-entry :
    (g : RepeatGuard) (client : GoString) (d now : ℕ)
    → is_empty client ≡ false
    → 0 < d
    → entry_of (force_block g client (pos d) now) client ≡ some (block_entry d now)
unfolding force_block
force_block-entry g client d now named p = elim (Bool-cases (leb d 0)) [
  | inl z ↦ absurd (ground arith)
  | inr some_time ↦ elim (Option-cases (entry_of g client)) [
    | inl absent ↦
        rw (named, some_time, absent, force_block, force_block_in)
          (lookup-written g.shards client (block_entry d now) _)
    | inr (e, held) ↦
        rw (named, some_time, held, force_block, force_block_in)
          (lookup-written g.shards client (block_entry d now) _)
  ]
]

-- A block of `d` refuses the client up to `d` from now, that instant included, and no longer.
pub block_ends_after :
    (g : RepeatGuard) (client : GoString) (d now later : ℕ)
    → is_empty client ≡ false
    → 0 < d
    → allow (force_block g client (pos d) now) client later ≡ ltb (now + d) later
unfolding allow block_entry
block_ends_after g client d now later named p =
    rw (named, force_block-entry g client d now named p, allow) (ground arith)
