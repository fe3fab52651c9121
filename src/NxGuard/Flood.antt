-- ===== src/NxGuard/Flood.antt =====
-- When the NXDOMAIN guard blocks a prefix, and when it does not (internal/dnsserver/nxguard.go).
use irongrid_dns.Prelude.{
  ℕ, ◌+◌, ◌≤◌, ◌<◌, ◌≡◌, refl, sym, ap, ◌∙◌, inl, inr, true, false, List, [], ◌∷◌, Option, none,
  some, arith, length, ltb, Bool-cases,
}
use irongrid_dns.Bytes.{GoString, is_empty}
use irongrid_dns.Clock.{Within, last_time}
use irongrid_dns.Shards.Table.{
  Table, lookup, insert, shard, set_shard, lookup-insert_self, shard-set_shard,
}
use irongrid_dns.NxGuard.{
  NxGuard, NxLimits, NxEntry, allow, count_nx, check_threshold, evict_nx_locked, first_entry,
  note_nx_in, note_nx,
}

abbrev pub entry_of : NxGuard → GoString → Option NxEntry
entry_of g prefix = lookup prefix (shard g.shards prefix)

-- NXDOMAIN answers to one prefix at the given times.
unfoldable pub note_many : NxGuard → GoString → List ℕ → NxGuard
note_many g prefix [] = g
note_many g prefix (now ∷ times) = note_many (note_nx g prefix now) prefix times

-- The same, on the entry alone.
note_entries : NxLimits → NxEntry → List ℕ → NxEntry
note_entries l e [] = e
note_entries l e (now ∷ times) = note_entries l (check_threshold l (count_nx l e now) now) times

abbrev with_entry : NxGuard → GoString → Table NxEntry → NxGuard
with_entry g prefix m = record g { shards = set_shard g.shards prefix m }

module _ (g : NxGuard) (prefix : GoString) (named : is_empty prefix ≡ false) where
  note_tracked :
      (e : NxEntry) (now : ℕ)
      → entry_of g prefix ≡ some e
      → note_nx g prefix now
        ≡ with_entry g prefix (
            insert prefix
              (check_threshold g.limits (count_nx g.limits e now) now)
              (shard g.shards prefix))
  unfolding note_nx
  note_tracked e now held = rw (named, held, note_nx, note_nx_in) refl

  note_untracked :
      (now : ℕ)
      → entry_of g prefix ≡ none
      → note_nx g prefix now
        ≡ with_entry g prefix (
            insert prefix
              (check_threshold g.limits (first_entry now) now)
              (evict_nx_locked now (shard g.shards prefix)))
  unfolding note_nx
  note_untracked now absent = rw (named, absent, note_nx, note_nx_in) refl

  entry-insert :
      (e : NxEntry) (m : Table NxEntry)
      → entry_of (with_entry g prefix (insert prefix e m)) prefix ≡ some e
  entry-insert e m =
      ap (lookup prefix) (shard-set_shard g.shards prefix _) ∙ lookup-insert_self prefix e m

  allow_blocked :
      (e : NxEntry) (now : ℕ)
      → entry_of g prefix ≡ some e
      → 0 < e.blocked_until
      → now ≤ e.blocked_until
      → allow g prefix now ≡ false
  unfolding allow
  allow_blocked e now held p h = rw (named, held, allow) (ground arith)

  allow_after :
      (e : NxEntry) (now : ℕ)
      → entry_of g prefix ≡ some e
      → e.blocked_until < now
      → allow g prefix now ≡ true
  unfolding allow
  allow_after e now held h = rw (named, held, allow) (ground arith)

  allow_open :
      (e : NxEntry) (now : ℕ)
      → entry_of g prefix ≡ some e
      → e.blocked_until ≡ 0
      → allow g prefix now ≡ true
  unfolding allow
  allow_open e now held h = rw (named, held, allow) (ground arith)

-- A prefix with an entry meets that entry alone.
many-entries :
    (g : NxGuard) (prefix : GoString)
    → is_empty prefix ≡ false
    → (e : NxEntry) (times : List ℕ) → entry_of g prefix ≡ some e
    → entry_of (note_many g prefix times) prefix ≡ some (note_entries g.limits e times)
unfolding note_many note_entries
many-entries g prefix named e [] held = held
many-entries g prefix named e (now ∷ times) held =
    let e' = check_threshold g.limits (count_nx g.limits e now) now in
    let g' = with_entry g prefix (insert prefix e' (shard g.shards prefix)) in
    ap (λ r. entry_of (note_many r prefix times) prefix) (note_tracked g prefix named e now held)
    ∙ many-entries g' prefix named e' times (entry-insert g prefix named e' _)

module _ (l : NxLimits) where
  count_again :
      (e : NxEntry) (now : ℕ)
      → now ≤ e.first_seen + l.window
      → e.blocked_until ≡ 0
      → e.count + 1 < l.threshold
      → check_threshold l (count_nx l e now) now ≡ record e { count = e.count + 1 }
  unfolding check_threshold count_nx
  count_again e now w o h = ground arith

  trips_now :
      (e : NxEntry) (now : ℕ)
      → now ≤ e.first_seen + l.window
      → e.blocked_until ≡ 0
      → e.count + 1 ≡ l.threshold
      → (check_threshold l (count_nx l e now) now).blocked_until ≡ now + l.block_for
  unfolding check_threshold count_nx
  trips_now e now w o h = ground arith

  blocked_already :
      (e : NxEntry) (now : ℕ)
      → now ≤ e.first_seen + l.window
      → 0 < e.blocked_until
      → check_threshold l (count_nx l e now) now ≡ record e { count = e.count + 1 }
  unfolding check_threshold count_nx
  blocked_already e now w p = ground arith

  few-entries :
      (e : NxEntry) (times : List ℕ)
      → Within e.first_seen l.window times
      → e.blocked_until ≡ 0
      → e.count + length times < l.threshold
      → (note_entries l e times).blocked_until ≡ 0
  unfolding note_entries
  few-entries e [] w o h = o
  few-entries e (now ∷ times) w o h =
      ap (λ r. (note_entries l r times).blocked_until) (count_again e now w.0 o (omega arith))
      ∙ few-entries (record e { count = e.count + 1 }) times w.1 o (omega arith)

  trip-entries :
      (e : NxEntry) (now : ℕ) (times : List ℕ)
      → Within e.first_seen l.window (now ∷ times)
      → e.blocked_until ≡ 0
      → e.count + length (now ∷ times) ≡ l.threshold
      → (note_entries l e (now ∷ times)).blocked_until ≡ last_time now times + l.block_for
  unfolding note_entries
  trip-entries e now [] w o h = trips_now e now w.0 o (omega arith)
  trip-entries e now (next ∷ times) w o h =
      ap (λ r. (note_entries l r (next ∷ times)).blocked_until)
        (count_again e now w.0 o (omega arith))
      ∙ trip-entries (record e { count = e.count + 1 }) next times w.1 o (omega arith)

  blocked-entries :
      (e : NxEntry) (times : List ℕ)
      → Within e.first_seen l.window times
      → 0 < e.blocked_until
      → (note_entries l e times).blocked_until ≡ e.blocked_until
  unfolding note_entries
  blocked-entries e [] w p = refl
  blocked-entries e (now ∷ times) w p =
      ap (λ r. (note_entries l r times).blocked_until) (blocked_already e now w.0 p)
      ∙ blocked-entries (record e { count = e.count + 1 }) times w.1 p

  first_counts :
      (first : ℕ)
      → 1 < l.threshold
      → check_threshold l (first_entry first) first ≡ first_entry first
  unfolding check_threshold first_entry
  first_counts first h = ground arith

  first_trips :
      (first : ℕ)
      → l.threshold ≡ 1
      → (check_threshold l (first_entry first) first).blocked_until ≡ first + l.block_for
  unfolding check_threshold first_entry
  first_trips first h = ground arith

  -- The first answer and those that follow it within the window.
  few_from_first :
      (first : ℕ) (times : List ℕ)
      → Within first l.window times
      → length (first ∷ times) < l.threshold
      → (note_entries l (check_threshold l (first_entry first) first) times).blocked_until ≡ 0
  unfolding first_entry
  few_from_first first times w h =
      ap (λ r. (note_entries l r times).blocked_until) (first_counts first (omega arith))
      ∙ few-entries (first_entry first) times w refl (omega arith)

  trip_from_first :
      (first : ℕ) (times : List ℕ)
      → Within first l.window times
      → length (first ∷ times) ≡ l.threshold
      → (note_entries l (check_threshold l (first_entry first) first) times).blocked_until
        ≡ last_time first times + l.block_for
  unfolding note_entries first_entry
  trip_from_first first [] w h = first_trips first (omega arith)
  trip_from_first first (u ∷ us) w h =
      ap (λ r. (note_entries l r (u ∷ us)).blocked_until) (first_counts first (omega arith))
      ∙ trip-entries (first_entry first) u us w refl (omega arith)

module _ (g : NxGuard) (prefix : GoString) (named : is_empty prefix ≡ false) where
  after_first :
      (first : ℕ) (times : List ℕ)
      → entry_of g prefix ≡ none
      → entry_of (note_many g prefix (first ∷ times)) prefix
        ≡ some (note_entries g.limits (check_threshold g.limits (first_entry first) first) times)
  unfolding note_many
  after_first first times absent =
      let e = check_threshold g.limits (first_entry first) first in
      let m = evict_nx_locked first (shard g.shards prefix) in
      ap (λ r. entry_of (note_many r prefix times) prefix)
        (note_untracked g prefix named first absent)
      ∙ many-entries (with_entry g prefix (insert prefix e m)) prefix named e times
          (entry-insert g prefix named e m)

  -- A prefix that is new to the guard and has produced fewer NXDOMAINs than the threshold, all
  -- within the window of the first, is never refused.
  pub few-note_many :
      (first : ℕ) (times : List ℕ) (now : ℕ)
      → entry_of g prefix ≡ none
      → Within first g.window times
      → length (first ∷ times) < g.threshold
      → allow (note_many g prefix (first ∷ times)) prefix now ≡ true
  few-note_many first times now absent w h =
      allow_open (note_many g prefix (first ∷ times)) prefix named _ now
        (after_first first times absent) (few_from_first g.limits first times w h)

  -- The NXDOMAIN that reaches the threshold blocks the prefix: queries are refused up to
  -- `block_for` after it, that instant included, and let through from then on.
  pub trip-note_many :
      (first : ℕ) (times : List ℕ) (now : ℕ)
      → entry_of g prefix ≡ none
      → Within first g.window times
      → length (first ∷ times) ≡ g.threshold
      → 0 < g.block_for
      → allow (note_many g prefix (first ∷ times)) prefix now
        ≡ ltb (last_time first times + g.block_for) now
  trip-note_many first times now absent w h p =
      let until = trip_from_first g.limits first times w h in
      let held = after_first first times absent in
      let g' = note_many g prefix (first ∷ times) in
      elim (Bool-cases (ltb (last_time first times + g.block_for) now)) [
        | inl over ↦ allow_after g' prefix named _ now held (rw until (ground arith)) ∙ sym over
        | inr still ↦
            allow_blocked g' prefix named _ now held (omega (arith, until))
              (rw until (ground arith))
            ∙ sym still
      ]

  -- Where the window outlasts the block, a flood goes on unhindered from the end of the block to
  -- the end of the window: a prefix that was blocked until `blocked_until` and then produces any
  -- number of NXDOMAINs within the window of its trip is let through at every later time.
  pub flood_after_block :
      (e : NxEntry) (times : List ℕ) (now : ℕ)
      → entry_of g prefix ≡ some e
      → 0 < e.blocked_until
      → Within e.first_seen g.window times
      → e.blocked_until < now
      → allow (note_many g prefix times) prefix now ≡ true
  flood_after_block e times now held p w h =
      let until = blocked-entries g.limits e times w p in
      allow_after (note_many g prefix times) prefix named _ now
        (many-entries g prefix named e times held) (rw until h)
