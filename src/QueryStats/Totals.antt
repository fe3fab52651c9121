-- ===== src/QueryStats/Totals.antt =====
-- internal/querylog/rolling.go: the totals of the window are the sums of its slots.
use irongrid_dns.Prelude.{
  ℕ, zero, suc, ◌-◌, ◌/◌, ◌<◌, ◌≡◌, ◌⊎◌, refl, ap, ◌∙◌, inl, inr, true, List, [], ◌∷◌, min, Option,
  none, some, arith, length, length-append, length-drop, length-replicate, get_or, drop, replicate,
  ltb, leb, ◌==◌, Bool-cases,
}
use irongrid_dns.QueryStats.{
  agg_slots, hour, Entry, Counts, RollingAgg, roll_to, count_slot, anchor, advance, add_window,
}
use irongrid_dns.QueryStats.Sums.{
  Meter, read, sum_slots, sum_slots-append, sum_slots-empty, subtract_slots_lem, count_slot_lem,
  read-count_entry,
}
use irongrid_dns.QueryStats.Window.{Reaches, roll_to_fresh, roll_to_old, get_or-consecutive}

-- What holds throughout: 24 slots, hours that follow one another once there are entries, and
-- totals that are the sums of the slots, for every counter.
pub record IsRolling (a : RollingAgg) : Type 0 where
  pub slots_len : length a.slots ≡ agg_slots
  pub hours : ((get_or a.slot_hour 0 0 == 0) ≡ true) ⊎ Reaches 0 a
  pub sums : (m : Meter) → read m a.running ≡ sum_slots m a.slots

abbrev gap : Option Counts
gap = none

record IsSummed (a : RollingAgg) : Type 0 where
  slots_len : length a.slots ≡ agg_slots
  sums : (m : Meter) → read m a.running ≡ sum_slots m a.slots

roll_to-IsSummed : (a : RollingAgg) (h : ℕ) → IsSummed a → IsSummed (roll_to a h)
unfolding roll_to
roll_to-IsSummed a h i =
    let newest = get_or a.slot_hour (agg_slots - 1) 0 in
    let n = min (h - newest) agg_slots in
    elim (Bool-cases (get_or a.slot_hour 0 0 == 0)) [
      | inl fresh ↦ rw (roll_to, fresh) (record { slots_len = i.slots_len; sums = i.sums })
      | inr old ↦ elim (Bool-cases (leb h newest)) [
        | inl inside ↦ rw (roll_to, old, inside) i
        | inr beyond ↦
            rw (roll_to, old, beyond)
              (record {
                slots_len = omega (
                  arith,
                  length-append (drop n a.slots) (replicate n none),
                  length-drop n a.slots,
                  length-replicate n gap,
                  i.slots_len,
                );
                sums = λ m. omega (
                  arith,
                  subtract_slots_lem m n a.slots a.running 0 (omega (arith, i.sums m)),
                  sum_slots-append m (drop n a.slots) (replicate n none),
                  sum_slots-empty m n,
                );
              })
      ]
    ]

count_slot-length :
    (slots : List (Option Counts)) (i : ℕ) (e : Entry)
    → length (count_slot slots i e) ≡ length slots
unfolding count_slot
count_slot-length [] i e = refl
count_slot-length (none ∷ slots) zero e = refl
count_slot-length (some s ∷ slots) zero e = refl
count_slot-length (none ∷ slots) (suc i) e = ap suc (count_slot-length slots i e)
count_slot-length (some s ∷ slots) (suc i) e = ap suc (count_slot-length slots i e)

module _ (a : RollingAgg) (h : ℕ) where
  anchor-IsSummed : IsSummed a → IsSummed (anchor a h)
  unfolding anchor
  anchor-IsSummed i = elim (Bool-cases (get_or a.slot_hour 0 0 == 0)) [
    | inl fresh ↦ rw (anchor, fresh) (roll_to-IsSummed a h i)
    | inr old ↦ rw (anchor, old) i
  ]

  advance-IsSummed : IsSummed a → IsSummed (advance a h)
  unfolding advance
  advance-IsSummed i = elim (Bool-cases (ltb (get_or a.slot_hour (agg_slots - 1) 0) h)) [
    | inl newer ↦ rw (advance, newer) (roll_to-IsSummed a h i)
    | inr not_newer ↦ rw (advance, not_newer) i
  ]

  anchor-Reaches : ((get_or a.slot_hour 0 0 == 0) ≡ true) ⊎ Reaches 0 a → Reaches 0 (anchor a h)
  unfolding anchor
  anchor-Reaches hours = elim (Bool-cases (get_or a.slot_hour 0 0 == 0)) [
    | inl fresh ↦
        let r = roll_to_fresh a h fresh in
        rw (anchor, fresh) (record { first = r.first; hours = r.hours; reaches = omega arith })
    | inr old ↦ elim hours [ inl fresh ↦ absurd (ground arith) | inr r ↦ rw (anchor, old) r ]
  ]

  advance-Reaches : Reaches 0 a → Reaches h (advance a h)
  unfolding advance
  advance-Reaches r = elim (Bool-cases (ltb (get_or a.slot_hour (agg_slots - 1) 0) h)) [
    | inl newer ↦ elim (Bool-cases (get_or a.slot_hour 0 0 == 0)) [
      | inl fresh ↦ rw (advance, newer) (roll_to_fresh a h fresh)
      | inr old ↦ rw (advance, newer) (roll_to_old a h r.first r.hours old)
    ]
    | inr not_newer ↦
        let last =
          ap (λ l. get_or l (agg_slots - 1) 0) r.hours
          ∙ get_or-consecutive r.first agg_slots 23 (omega arith) in
        rw (advance, not_newer)
          (record { first = r.first; hours = r.hours; reaches = ground (arith, last) })
  ]

pub add_window-IsRolling : (a : RollingAgg) (e : Entry) → IsRolling a → IsRolling (add_window a e)
unfolding add_window
add_window-IsRolling a e i =
    let h = e.time / hour in
    let b = anchor a h in
    let c = advance b h in
    let b_sums = anchor-IsSummed a h (record { slots_len = i.slots_len; sums = i.sums }) in
    let b_hours = anchor-Reaches a h i.hours in
    let c_sums = advance-IsSummed b h b_sums in
    let c_hours = advance-Reaches b h b_hours in
    elim (Bool-cases (ltb h (get_or b.slot_hour 0 0))) [
      | inl early ↦
          rw (add_window, early)
            (record { slots_len = b_sums.slots_len; hours = inr b_hours; sums = b_sums.sums })
      | inr late ↦ elim (Bool-cases (ltb h (get_or c.slot_hour 0 0))) [
        | inl before ↦
            rw (add_window, late, before)
              (record {
                slots_len = c_sums.slots_len;
                hours = inr (record {
                  first = c_hours.first;
                  hours = c_hours.hours;
                  reaches = omega arith;
                });
                sums = c_sums.sums;
              })
        | inr within ↦
            let i = h - get_or c.slot_hour 0 0 in
            let start = ap (λ l. get_or l 0 0) c_hours.hours in
            let fits : i < length c.slots =
              omega (arith, c_hours.reaches, start, c_sums.slots_len) in
            rw (add_window, late, within)
              (record {
                slots_len = count_slot-length c.slots i e ∙ c_sums.slots_len;
                hours = inr (record {
                  first = c_hours.first;
                  hours = c_hours.hours;
                  reaches = omega arith;
                });
                sums = λ m. omega (
                  arith,
                  count_slot_lem m c.slots i e fits,
                  read-count_entry m c.running e,
                  c_sums.sums m,
                );
              })
      ]
    ]
