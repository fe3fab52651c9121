-- ===== src/QueryStats.antt =====
-- internal/querylog/rolling.go: the counts of the last 24 hours and of today.
pub mod Sums
pub mod Window
pub mod Totals
pub mod Runs
mod Tests
use irongrid_dns.Prelude.{
  ℕ, zero, suc, ◌+◌, ◌-◌, ◌*◌, ◌/◌, min, Bool, true, false, not, ◌&&◌, List, [], ◌∷◌, ◌++◌, Option,
  none, some, length, get_or, get_elem?, drop, replicate, ltb, leb, ◌==◌, if◌then◌else◌,
}
use irongrid_dns.Bytes.{GoString, str_eq}
use irongrid_dns.Clock.{second, minute}

abbrev pub agg_slots : ℕ
agg_slots = 24

abbrev pub hour : ℕ
hour = 60 * minute

pub data Action : Type 0 where
  allowed : Action
  blocked : Action
  cached : Action
  other : Action

-- What is counted of an entry.
pub record Entry : Type 0 where
  pub time : ℕ
  pub action : Action
  pub domain : GoString
  pub client : GoString
  pub response_time_ms : ℕ

-- The counters that a slot, the window and today each have. A map of counts gives 0 for a key that
-- it lacks, and an entry of 0 is deleted, so that it is a function here.
pub record Counts : Type 0 where
  pub total : ℕ
  pub allowed_count : ℕ
  pub blocked_count : ℕ
  pub cached_count : ℕ
  pub rt_sum : ℕ
  pub blocked_domains : GoString → ℕ
  pub clients : GoString → ℕ

abbrev pub no_counts : Counts
no_counts = record {
  total = 0;
  allowed_count = 0;
  blocked_count = 0;
  cached_count = 0;
  rt_sum = 0;
  blocked_domains = λ _. 0;
  clients = λ _. 0;
}

-- `m[k]++`
abbrev pub increment : (GoString → ℕ) → GoString → GoString → ℕ
increment m k j = if str_eq k j then m j + 1 else m j

-- The `switch` on the action of an entry.
unfoldable pub count_action : Counts → Action → GoString → Counts
count_action c allowed domain = record c { allowed_count = c.allowed_count + 1 }
count_action c blocked domain = record c {
  blocked_count = c.blocked_count + 1;
  blocked_domains = increment c.blocked_domains domain;
}
count_action c cached domain = record c { cached_count = c.cached_count + 1 }
count_action c other domain = c

-- One entry more.
unfoldable pub count_entry : Counts → Entry → Counts
count_entry c e =
    count_action
      (record c {
        total = c.total + 1;
        rt_sum = c.rt_sum + e.response_time_ms;
        clients = increment c.clients e.client;
      })
      e.action e.domain

-- The subtractions of `subtractSlotLocked`. A count here is a natural number: a subtraction stops at
-- 0, where the source would go below.
unfoldable pub subtract : Counts → Counts → Counts
subtract a s = record {
  total = a.total - s.total;
  allowed_count = a.allowed_count - s.allowed_count;
  blocked_count = a.blocked_count - s.blocked_count;
  cached_count = a.cached_count - s.cached_count;
  rt_sum = a.rt_sum - s.rt_sum;
  blocked_domains = λ d. a.blocked_domains d - s.blocked_domains d;
  clients = λ c. a.clients c - s.clients c;
}

-- `slotHour` and `slots` have 24 entries each; a slot is nil while it has no entries.
pub record RollingAgg : Type 0 where
  pub slot_hour : List ℕ
  pub slots : List (Option Counts)
  pub running : Counts
  pub today_date : ℕ
  pub today : Counts

unfoldable pub new_rolling_agg : RollingAgg
new_rolling_agg = record {
  slot_hour = replicate agg_slots 0;
  slots = replicate agg_slots none;
  running = no_counts;
  today_date = 0;
  today = no_counts;
}

-- `clear`
unfoldable pub clear : RollingAgg → RollingAgg
clear a = new_rolling_agg

-- The hours of a window that ends at `h`, from the `n`-th of them on.
unfoldable pub hours_to : ℕ → ℕ → ℕ → List ℕ
hours_to zero i h = []
hours_to (suc n) i h = (((h + 1) - agg_slots) + i) ∷ hours_to n (i + 1) h

-- `subtractSlotLocked` on the first `n` slots, and what is left of the totals.
unfoldable pub subtract_slots : ℕ → List (Option Counts) → Counts → Counts
subtract_slots zero slots a = a
subtract_slots (suc n) [] a = a
subtract_slots (suc n) (none ∷ slots) a = subtract_slots n slots a
subtract_slots (suc n) (some s ∷ slots) a = subtract_slots n slots (subtract a s)

-- `rollToLocked`
unfoldable pub roll_to : RollingAgg → ℕ → RollingAgg
unfolding hours_to
roll_to a h =
    let newest = get_or a.slot_hour (agg_slots - 1) 0 in
    let n = min (h - newest) agg_slots in
    if get_or a.slot_hour 0 0 == 0
    then record a { slot_hour = hours_to agg_slots 0 h }
    else if leb h newest
    then a
    else record a {
      slot_hour = drop n a.slot_hour ++ hours_to n (agg_slots - n) h;
      slots = drop n a.slots ++ replicate n none;
      running = subtract_slots n a.slots a.running;
    }

-- `s := a.slots[idx]`, made when it is nil, with the entry counted.
unfoldable pub count_slot : List (Option Counts) → ℕ → Entry → List (Option Counts)
unfolding count_entry
count_slot [] i e = []
count_slot (none ∷ slots) zero e = some (count_entry no_counts e) ∷ slots
count_slot (some s ∷ slots) zero e = some (count_entry s e) ∷ slots
count_slot (s ∷ slots) (suc i) e = s ∷ count_slot slots i e

-- The first entry sets the window, and a newer one moves it.
unfoldable pub anchor : RollingAgg → ℕ → RollingAgg
anchor a h = if get_or a.slot_hour 0 0 == 0 then roll_to a h else a

unfoldable pub advance : RollingAgg → ℕ → RollingAgg
advance a h = if ltb (get_or a.slot_hour (agg_slots - 1) 0) h then roll_to a h else a

-- The window's part of `addLocked`.
unfoldable pub add_window : RollingAgg → Entry → RollingAgg
add_window a e =
    let h = e.time / hour in
    let b = anchor a h in
    let c = advance b h in
    if ltb h (get_or b.slot_hour 0 0)
    then b
    else if ltb h (get_or c.slot_hour 0 0)
    then c
    else record c {
      slots = count_slot c.slots (h - get_or c.slot_hour 0 0) e;
      running = count_entry c.running e;
    }

-- The local midnight before a time is the time zone's.
module _ (midnight_of : ℕ → ℕ) where
  unfoldable pub reset_today : RollingAgg → ℕ → RollingAgg
  reset_today a now = record a { today_date = midnight_of now; today = no_counts }

  -- `resetTodayIfNeeded`
  unfoldable pub reset_today_if_needed : RollingAgg → ℕ → RollingAgg
  reset_today_if_needed a now =
      if not (a.today_date == 0) && leb (a.today_date + 24 * hour) now then reset_today a now else a

  -- Today's part of `addLocked`.
  unfoldable pub add_today : RollingAgg → Entry → RollingAgg
  add_today a e =
      let b = if leb (a.today_date + 24 * hour) e.time then reset_today a e.time else a in
      if leb b.today_date e.time then record b { today = count_entry b.today e } else b

  -- `addLocked`
  unfoldable pub add : RollingAgg → Entry → RollingAgg
  add a e = add_window (add_today a e) e
