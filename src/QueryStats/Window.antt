-- ===== src/QueryStats/Window.antt =====
-- internal/querylog/rolling.go: the window of 24 hours as entries arrive.
use irongrid_dns.Prelude.{
  ℕ, zero, suc, ◌+◌, ◌-◌, ◌<◌, ◌≡◌, refl, ap, ◌∙◌, inl, inr, true, false, List, [], ◌∷◌, ◌++◌, min,
  arith, get_or, drop, leb, ◌==◌, Bool-cases,
}
use irongrid_dns.QueryStats.{agg_slots, RollingAgg, hours_to, roll_to}

-- The hours from `s` on.
abbrev pub consecutive : ℕ → ℕ → List ℕ
consecutive s zero = []
consecutive s (suc n) = s ∷ consecutive (s + 1) n

hours_to-consecutive : (n i h : ℕ) → hours_to n i h ≡ consecutive (((h + 1) - agg_slots) + i) n
unfolding hours_to
hours_to-consecutive zero i h = refl
hours_to-consecutive (suc n) i h =
    ap (λ r. (((h + 1) - agg_slots) + i) ∷ r)
      (hours_to-consecutive n (i + 1) h ∙ ap (λ s. consecutive s n) (omega arith))

same_run : (s t n k : ℕ) → s ≡ t → n ≡ k → consecutive s n ≡ consecutive t k
same_run s t n k p q = rw (p, q) refl

empty_run : (s n : ℕ) → n ≡ 0 → consecutive s n ≡ []
empty_run s n e = rw e refl

drop-consecutive : (n s k : ℕ) → drop n (consecutive s k) ≡ consecutive (s + n) (k - n)
drop-consecutive zero s k = same_run s (s + 0) k (k - 0) (omega arith) (omega arith)
drop-consecutive (suc n) s zero = same_run (s + suc n) (s + suc n) 0 (0 - suc n) refl (omega arith)
drop-consecutive (suc n) s (suc k) =
    drop-consecutive n (s + 1) k
    ∙ same_run ((s + 1) + n) (s + suc n) (k - n) (suc k - suc n) (omega arith) (omega arith)

consecutive-append :
    (s t a b : ℕ) → t ≡ s + a → consecutive s a ++ consecutive t b ≡ consecutive s (a + b)
consecutive-append s t zero b e = same_run t s b (0 + b) (omega (arith, e)) (omega arith)
consecutive-append s t (suc a) b e =
    ap (λ r. s ∷ r) (consecutive-append (s + 1) t a b (omega (arith, e)))
    ∙ same_run s s (suc (a + b)) (suc a + b) refl (omega arith)

pub get_or-consecutive : (s n i : ℕ) → i < n → get_or (consecutive s n) i 0 ≡ s + i
get_or-consecutive s zero i h = absurd (omega (arith, h))
get_or-consecutive s (suc n) zero h = omega arith
get_or-consecutive s (suc n) (suc i) h =
    omega (arith, get_or-consecutive (s + 1) n i (omega (arith, h)))

-- The hours of the slots follow one another, and the last of them is `h` or later.
pub record Reaches (h : ℕ) (a : RollingAgg) : Type 0 where
  pub first : ℕ
  pub hours : a.slot_hour ≡ consecutive first agg_slots
  pub reaches : h < first + agg_slots

module _ (a : RollingAgg) (h : ℕ) where
  pub roll_to_fresh : (get_or a.slot_hour 0 0 == 0) ≡ true → Reaches h (roll_to a h)
  unfolding roll_to
  roll_to_fresh fresh =
      rw (roll_to, fresh)
        (record {
          first = ((h + 1) - agg_slots) + 0;
          hours = hours_to-consecutive agg_slots 0 h;
          reaches = omega arith;
        })

  pub roll_to_old :
      (f : ℕ)
      → a.slot_hour ≡ consecutive f agg_slots
      → (get_or a.slot_hour 0 0 == 0) ≡ false
      → Reaches h (roll_to a h)
  unfolding roll_to
  roll_to_old f e old =
      let newest = get_or a.slot_hour (agg_slots - 1) 0 in
      let last : newest ≡ f + 23 =
        ap (λ l. get_or l (agg_slots - 1) 0) e ∙ get_or-consecutive f agg_slots 23 (omega arith) in
      let n = min (h - newest) agg_slots in
      elim (Bool-cases (leb h newest)) [
        | inl inside ↦
            rw (roll_to, old, inside)
              (record { first = f; hours = e; reaches = ground (arith, last) })
        | inr beyond ↦
            let kept = ap (drop n) e ∙ drop-consecutive n f agg_slots in
            let fresh = hours_to-consecutive n (agg_slots - n) h in
            let t = ((h + 1) - agg_slots) + (agg_slots - n) in
            elim (Bool-cases (leb (h - newest) 24)) [
              | inl some_kept ↦
                  rw (roll_to, old, beyond)
                    (record {
                      first = f + n;
                      hours =
                          ap (λ l. l ++ hours_to n (agg_slots - n) h) kept
                          ∙ ap (λ l. consecutive (f + n) (agg_slots - n) ++ l) fresh
                          ∙ consecutive-append (f + n) t (agg_slots - n) n (ground (arith, last))
                          ∙ same_run (f + n) (f + n) ((agg_slots - n) + n) agg_slots refl
                              (ground arith);
                      reaches = ground (arith, last);
                    })
              | inr all_gone ↦
                  rw (roll_to, old, beyond)
                    (record {
                      first = t;
                      hours =
                          ap (λ l. l ++ hours_to n (agg_slots - n) h)
                            (kept ∙ empty_run (f + n) (agg_slots - n) (ground arith))
                          ∙ fresh
                          ∙ same_run t t n agg_slots refl (ground arith);
                      reaches = ground (arith, last);
                    })
            ]
      ]
