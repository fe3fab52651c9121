-- ===== src/QueryStats/Sums.antt =====
-- internal/querylog/rolling.go: the running totals are the sums of the slots.
use irongrid_dns.Prelude.{
  ℕ, zero, suc, ◌+◌, ◌-◌, ◌<◌, ◌≡◌, refl, Bool, List, [], ◌∷◌, ◌++◌, Option, none, some, arith,
  length, drop, replicate, if◌then◌else◌,
}
use irongrid_dns.Bytes.{GoString, str_eq}
use irongrid_dns.QueryStats.{
  Action, allowed, blocked, cached, other, Entry, Counts, no_counts, increment, count_action,
  count_entry, subtract, subtract_slots, count_slot,
}

-- What can be read off a set of counters.
pub data Meter : Type 0 where
  all_queries : Meter
  allowed_queries : Meter
  blocked_queries : Meter
  cached_queries : Meter
  response_time : Meter
  blocked_for : GoString → Meter
  queries_of : GoString → Meter

abbrev pub read : Meter → Counts → ℕ
read all_queries c = c.total
read allowed_queries c = c.allowed_count
read blocked_queries c = c.blocked_count
read cached_queries c = c.cached_count
read response_time c = c.rt_sum
read (blocked_for d) c = c.blocked_domains d
read (queries_of k) c = c.clients k

abbrev pub one_if : Bool → ℕ
one_if b = if b then 1 else 0

-- What an entry adds to a reading, by its action and apart from it.
abbrev pub by_action : Meter → Action → GoString → ℕ
by_action allowed_queries allowed domain = 1
by_action blocked_queries blocked domain = 1
by_action cached_queries cached domain = 1
by_action (blocked_for d) blocked domain = one_if (str_eq domain d)
by_action m x domain = 0

abbrev pub in_any_case : Meter → Entry → ℕ
in_any_case all_queries e = 1
in_any_case response_time e = e.response_time_ms
in_any_case (queries_of k) e = one_if (str_eq e.client k)
in_any_case m e = 0

abbrev pub adds : Meter → Entry → ℕ
adds m e = in_any_case m e + by_action m e.action e.domain

read-subtract : (m : Meter) (a s : Counts) → read m (subtract a s) ≡ read m a - read m s
unfolding subtract
read-subtract all_queries a s = refl
read-subtract allowed_queries a s = refl
read-subtract blocked_queries a s = refl
read-subtract cached_queries a s = refl
read-subtract response_time a s = refl
read-subtract (blocked_for d) a s = refl
read-subtract (queries_of k) a s = refl

read-count_action :
    (m : Meter) (c : Counts) (x : Action) (domain : GoString)
    → read m (count_action c x domain) ≡ read m c + by_action m x domain
unfolding count_action
read-count_action all_queries c x domain = elim x [
  | allowed ↦ ground arith
  | blocked ↦ ground arith
  | cached ↦ ground arith
  | other ↦ ground arith
]
read-count_action allowed_queries c x domain = elim x [
  | allowed ↦ ground arith
  | blocked ↦ ground arith
  | cached ↦ ground arith
  | other ↦ ground arith
]
read-count_action blocked_queries c x domain = elim x [
  | allowed ↦ ground arith
  | blocked ↦ ground arith
  | cached ↦ ground arith
  | other ↦ ground arith
]
read-count_action cached_queries c x domain = elim x [
  | allowed ↦ ground arith
  | blocked ↦ ground arith
  | cached ↦ ground arith
  | other ↦ ground arith
]
read-count_action response_time c x domain = elim x [
  | allowed ↦ ground arith
  | blocked ↦ ground arith
  | cached ↦ ground arith
  | other ↦ ground arith
]
read-count_action (blocked_for f) c x domain = elim x [
  | allowed ↦ ground arith
  | blocked ↦ ground arith
  | cached ↦ ground arith
  | other ↦ ground arith
]
read-count_action (queries_of f) c x domain = elim x [
  | allowed ↦ ground arith
  | blocked ↦ ground arith
  | cached ↦ ground arith
  | other ↦ ground arith
]

-- The counts that do not depend on the action.
abbrev any_case : Counts → Entry → Counts
any_case c e = record c {
  total = c.total + 1;
  rt_sum = c.rt_sum + e.response_time_ms;
  clients = increment c.clients e.client;
}

pub read-count_entry :
    (m : Meter) (c : Counts) (e : Entry) → read m (count_entry c e) ≡ read m c + adds m e
unfolding count_entry
read-count_entry all_queries c e =
    ground (arith, read-count_action all_queries (any_case c e) e.action e.domain)
read-count_entry allowed_queries c e =
    ground (arith, read-count_action allowed_queries (any_case c e) e.action e.domain)
read-count_entry blocked_queries c e =
    ground (arith, read-count_action blocked_queries (any_case c e) e.action e.domain)
read-count_entry cached_queries c e =
    ground (arith, read-count_action cached_queries (any_case c e) e.action e.domain)
read-count_entry response_time c e =
    ground (arith, read-count_action response_time (any_case c e) e.action e.domain)
read-count_entry (blocked_for f) c e =
    ground (arith, read-count_action (blocked_for f) (any_case c e) e.action e.domain)
read-count_entry (queries_of f) c e =
    ground (arith, read-count_action (queries_of f) (any_case c e) e.action e.domain)

pub read-no_counts : (m : Meter) → read m no_counts ≡ 0
read-no_counts all_queries = refl
read-no_counts allowed_queries = refl
read-no_counts blocked_queries = refl
read-no_counts cached_queries = refl
read-no_counts response_time = refl
read-no_counts (blocked_for d) = refl
read-no_counts (queries_of k) = refl

-- A reading over all slots.
abbrev pub sum_slots : Meter → List (Option Counts) → ℕ
sum_slots m [] = 0
sum_slots m (none ∷ slots) = sum_slots m slots
sum_slots m (some s ∷ slots) = read m s + sum_slots m slots

pub sum_slots-append :
    (m : Meter) (xs ys : List (Option Counts))
    → sum_slots m (xs ++ ys) ≡ sum_slots m xs + sum_slots m ys
sum_slots-append m [] ys = omega arith
sum_slots-append m (none ∷ xs) ys = sum_slots-append m xs ys
sum_slots-append m (some s ∷ xs) ys = omega (arith, sum_slots-append m xs ys)

pub sum_slots-empty : (m : Meter) (n : ℕ) → sum_slots m (replicate n none) ≡ 0
sum_slots-empty m zero = refl
sum_slots-empty m (suc n) = sum_slots-empty m n

-- Taking the first slots out leaves the sum of the rest.
pub subtract_slots_lem :
    (m : Meter) (n : ℕ) (slots : List (Option Counts)) (a : Counts) (k : ℕ)
    → read m a ≡ sum_slots m slots + k
    → read m (subtract_slots n slots a) ≡ sum_slots m (drop n slots) + k
unfolding subtract_slots
subtract_slots_lem m zero slots a k h = h
subtract_slots_lem m (suc n) [] a k h = h
subtract_slots_lem m (suc n) (none ∷ slots) a k h = subtract_slots_lem m n slots a k h
subtract_slots_lem m (suc n) (some s ∷ slots) a k h =
    subtract_slots_lem m n slots (subtract a s) k (omega (arith, read-subtract m a s, h))

pub count_slot_lem :
    (m : Meter) (slots : List (Option Counts)) (i : ℕ) (e : Entry)
    → i < length slots
    → sum_slots m (count_slot slots i e) ≡ sum_slots m slots + adds m e
unfolding count_slot
count_slot_lem m [] i e h = absurd (omega (arith, h))
count_slot_lem m (none ∷ slots) zero e h =
    omega (arith, read-count_entry m no_counts e, read-no_counts m)
count_slot_lem m (some s ∷ slots) zero e h = omega (arith, read-count_entry m s e)
count_slot_lem m (none ∷ slots) (suc i) e h = count_slot_lem m slots i e (omega (arith, h))
count_slot_lem m (some s ∷ slots) (suc i) e h =
    omega (arith, count_slot_lem m slots i e (omega (arith, h)))
