-- ===== src/Forward/Breaker.antt =====
-- internal/upstream/upstream.go: the circuit breaker of an upstream.
use irongrid_dns.Prelude.{
  ℕ, ◌+◌, ◌-◌, ◌*◌, ◌≡◌, refl, inl, inr, Bool, true, ◌||◌, List, [], ◌∷◌, arith, leb, ltb,
  if◌then◌else◌, Bool-cases,
}
use irongrid_dns.Clock.{second}

abbrev pub circuit_open_fails : ℕ
circuit_open_fails = 3

abbrev pub circuit_cooldown : ℕ
circuit_cooldown = 20 * second

abbrev pub circuit_cooldown_jitter : ℕ
circuit_cooldown_jitter = 8 * second

-- The part of `Upstream` that the breaker keeps; 0 stands for no cooldown.
pub record Breaker : Type 0 where
  pub fails : ℕ
  pub cooldown_until : ℕ

-- The error of a query: nil, `context.Canceled`, or another.
pub data Ending : Type 0 where
  succeeded : Ending
  canceled : Ending
  failed : Ending

-- The end of a query, with the time and the number drawn below `2*circuitCooldownJitter`.
pub record Event : Type 0 where
  pub ending : Ending
  pub time : ℕ
  pub draw : ℕ

-- `time.Now().Add(circuitCooldown + jitter)`
unfoldable pub reopens_at : Event → ℕ
reopens_at e = (e.time + circuit_cooldown + e.draw) - circuit_cooldown_jitter

unfoldable pub mark_ending : Ending → Event → Breaker → Breaker
mark_ending succeeded e b = record { fails = 0; cooldown_until = 0 }
mark_ending canceled e b = b
mark_ending failed e b =
    if leb circuit_open_fails (b.fails + 1)
    then record { fails = b.fails + 1; cooldown_until = reopens_at e }
    else record b { fails = b.fails + 1 }

-- `markResult`
unfoldable pub mark_result : Event → Breaker → Breaker
mark_result e b = mark_ending e.ending e b

-- `Available`
unfoldable pub available : Breaker → ℕ → Bool
available b now = if ltb b.fails circuit_open_fails then true else leb b.cooldown_until now

-- The breaker after a history of events, the latest first.
unfoldable pub after_events : List Event → Breaker
after_events [] = record { fails = 0; cooldown_until = 0 }
after_events (e ∷ es) = mark_result e (after_events es)

-- The failures since the latest success; a canceled query is neither.
unfoldable pub streak_with : Ending → ℕ → ℕ
streak_with succeeded n = 0
streak_with canceled n = n
streak_with failed n = n + 1

unfoldable pub streak : List Event → ℕ
streak [] = 0
streak (e ∷ es) = streak_with e.ending (streak es)

-- The cooldown of the latest failure.
unfoldable pub reopen_with : Ending → Event → ℕ → ℕ
reopen_with succeeded e t = 0
reopen_with canceled e t = t
reopen_with failed e t = reopens_at e

unfoldable pub reopen : List Event → ℕ
reopen [] = 0
reopen (e ∷ es) = reopen_with e.ending e (reopen es)

-- The breaker counts the streak, and from the threshold on it keeps the cooldown.
record Follows (b : Breaker) (n t : ℕ) : Type 0 where
  counts : b.fails ≡ n
  keeps : leb circuit_open_fails n ≡ true → b.cooldown_until ≡ t

mark_ending-Follows :
    (d : Ending) (e : Event) (b : Breaker) (n t : ℕ)
    → Follows b n t
    → Follows (mark_ending d e b) (streak_with d n) (reopen_with d e t)
unfolding mark_ending streak_with reopen_with
mark_ending-Follows succeeded e b n t f = record { counts = refl; keeps = λ _. refl }
mark_ending-Follows canceled e b n t f = f
mark_ending-Follows failed e b n t f = elim (Bool-cases (leb circuit_open_fails (b.fails + 1))) [
  | inl trips ↦ rw trips (record { counts = ground (arith, f.counts); keeps = λ _. refl })
  | inr below ↦ rw below (record {
    counts = ground (arith, f.counts);
    keeps = λ h. absurd (ground (arith, f.counts, below, h));
  })
]

after_events-Follows : (es : List Event) → Follows (after_events es) (streak es) (reopen es)
unfolding after_events streak reopen mark_result
after_events-Follows [] = record { counts = refl; keeps = λ _. refl }
after_events-Follows (e ∷ es) = mark_ending-Follows e.ending e _ _ _ (after_events-Follows es)

-- After any history an upstream is available exactly where fewer than three queries have failed
-- since the latest success, canceled ones left out, or the cooldown of the latest failure is over.
pub available-after_events :
    (es : List Event) (now : ℕ)
    → available (after_events es) now ≡ (ltb (streak es) circuit_open_fails || leb (reopen es) now)
unfolding available
available-after_events es now =
    let f = after_events-Follows es in
    elim (Bool-cases (leb circuit_open_fails (streak es))) [
      | inl past ↦ ground (arith, f.counts, f.keeps past, past)
      | inr shut ↦ ground (arith, f.counts, shut)
    ]
