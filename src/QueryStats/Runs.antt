-- ===== src/QueryStats/Runs.antt =====
-- internal/querylog/rolling.go: the aggregate over its whole life.
use irongrid_dns.Prelude.{
  ℕ, ◌+◌, ◌*◌, not, ◌&&◌, refl, sym, ◌∙◌, inl, inr, List, [], ◌∷◌, leb, ◌==◌, if◌then◌else◌,
  Bool-cases,
}
use irongrid_dns.QueryStats.{
  agg_slots, hour, Entry, Counts, no_counts, count_entry, RollingAgg, new_rolling_agg, clear,
  reset_today, reset_today_if_needed, add_today, add,
}
use irongrid_dns.QueryStats.Sums.{sum_slots-empty, read-no_counts}
use irongrid_dns.QueryStats.Totals.{IsRolling, add_window-IsRolling}

-- What the writer and the readers do to the aggregate.
pub data Event : Type 0 where
  adds_entry : Entry → Event
  reads_at : ℕ → Event
  clears : Event

new-IsRolling : IsRolling new_rolling_agg
unfolding new_rolling_agg
new-IsRolling = record {
  slots_len = refl;
  hours = inl refl;
  sums = λ m. read-no_counts m ∙ sym (sum_slots-empty m agg_slots);
}

-- Today's counts are apart from the window.
keep_today :
    (a : RollingAgg) (date : ℕ) (c : Counts)
    → IsRolling a
    → IsRolling (record a { today_date = date; today = c })
keep_today a date c i = record {
  slots_len = i.slots_len;
  hours = elim i.hours [
    | inl fresh ↦ inl fresh
    | inr r ↦ inr (record { first = r.first; hours = r.hours; reaches = r.reaches })
  ];
  sums = i.sums;
}

module _ (midnight_of : ℕ → ℕ) where
  reset_today-IsRolling :
      (a : RollingAgg) (now : ℕ) → IsRolling a → IsRolling (reset_today midnight_of a now)
  unfolding reset_today
  reset_today-IsRolling a now i = keep_today a (midnight_of now) no_counts i

  add_today-IsRolling :
      (a : RollingAgg) (e : Entry) → IsRolling a → IsRolling (add_today midnight_of a e)
  unfolding add_today
  add_today-IsRolling a e i = elim (Bool-cases (leb (a.today_date + 24 * hour) e.time)) [
    | inl over ↦
        rw (add_today, over)
          (counted (reset_today midnight_of a e.time) (reset_today-IsRolling a e.time i))
    | inr same_day ↦ rw (add_today, same_day) (counted a i)
  ]
    where
      counted :
          (b : RollingAgg)
          → IsRolling b
          → IsRolling
              (if leb b.today_date e.time then record b { today = count_entry b.today e } else b)
      counted b j = elim (Bool-cases (leb b.today_date e.time)) [
        | inl today ↦ rw today (keep_today b b.today_date (count_entry b.today e) j)
        | inr before ↦ rw before j
      ]

  read-IsRolling :
      (a : RollingAgg) (now : ℕ) → IsRolling a → IsRolling (reset_today_if_needed midnight_of a now)
  unfolding reset_today_if_needed
  read-IsRolling a now i =
      elim (Bool-cases (not (a.today_date == 0) && leb (a.today_date + 24 * hour) now)) [
        | inl over ↦ rw (reset_today_if_needed, over) (reset_today-IsRolling a now i)
        | inr same_day ↦ rw (reset_today_if_needed, same_day) i
      ]

  pub step : RollingAgg → Event → RollingAgg
  step a (adds_entry e) = add midnight_of a e
  step a (reads_at now) = reset_today_if_needed midnight_of a now
  step a clears = clear a

  pub run : RollingAgg → List Event → RollingAgg
  unfolding step
  run a [] = a
  run a (x ∷ xs) = run (step a x) xs

  step-IsRolling : (a : RollingAgg) (x : Event) → IsRolling a → IsRolling (step a x)
  unfolding step add clear
  step-IsRolling a (adds_entry e) i =
      add_window-IsRolling (add_today midnight_of a e) e (add_today-IsRolling a e i)
  step-IsRolling a (reads_at now) i = read-IsRolling a now i
  step-IsRolling a clears i = new-IsRolling

  run-IsRolling : (a : RollingAgg) (xs : List Event) → IsRolling a → IsRolling (run a xs)
  unfolding run
  run-IsRolling a [] i = i
  run-IsRolling a (x ∷ xs) i = run-IsRolling (step a x) xs (step-IsRolling a x i)

  -- Whatever entries arrive in whatever order of their times, and whenever the totals are read or
  -- cleared, each running total of the window, for every domain and client too, is the sum of the
  -- 24 slots, and the slots stand for hours that follow one another.
  pub run-new-IsRolling : (xs : List Event) → IsRolling (run new_rolling_agg xs)
  run-new-IsRolling xs = run-IsRolling new_rolling_agg xs new-IsRolling
