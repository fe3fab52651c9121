-- ===== src/Filter/Parents.antt =====
-- internal/filter/engine.go: the domains above a name, as the loops of `DecideDomain` walk them.
use irongrid_dns.Prelude.{
  ℕ, zero, suc, ◌≤◌, ◌≡◌, refl, sym, ap, ◌∙◌, ◌⊎◌, inl, inr, true, false, ◌&&◌, [], ◌∷◌, ◌++◌,
  Option, none, some, arith, ◌==◌, if◌then◌else◌, length, Bool-cases, length-append,
}
use irongrid_dns.Bytes.{GoString}
use irongrid_dns.Text.{last_index, has_byte}
use irongrid_dns.Filter.Parse.{NameSet}
use irongrid_dns.Filter.Decide.{has_name, find_parent, last_dot}

-- A domain above the name `q`: what follows one of its dots, with a dot of its own.
pub record IsParent (p q : GoString) : Type 0 where
  pub label : GoString
  pub split_at : q ≡ label ++ 46 ∷ p
  pub dotted : has_byte p 46 ≡ true

-- The walk without its bound.
unfoldable first_above : NameSet → GoString → Option GoString
first_above m [] = none
first_above m (c ∷ s) =
    if c == 46 && (has_byte s 46 && has_name s m) then some s else first_above m s

has_byte-last_index :
    (s : GoString) (b : ℕ)
    → ((has_byte s b ≡ false) × (last_index s b ≡ none))
      ⊎ ((i : ℕ) × (has_byte s b ≡ true) × (last_index s b ≡ some i))
unfolding has_byte last_index
has_byte-last_index [] b = inl (refl, refl)
has_byte-last_index (c ∷ s) b = elim (has_byte-last_index s b) [
  | inr (i, h, l) ↦ inr (suc i, ground (arith, h), rw l refl)
  | inl (h, l) ↦ elim (Bool-cases (c == b)) [
    | inl same ↦ inr (0, ground (arith, h, same), rw (l, same) refl)
    | inr other ↦ inl (ground (arith, h, other), rw (l, other) refl)
  ]
]

last_dot-cons :
    (c : ℕ) (s : GoString) → last_dot (c ∷ s) ≡ (if has_byte s 46 then suc (last_dot s) else 0)
unfolding last_dot last_index
last_dot-cons c s = elim (has_byte-last_index s 46) [
  | inr (i, h, l) ↦ rw (last_dot, l, h) refl
  | inl (h, l) ↦ elim (Bool-cases (c == 46)) [
    | inl same ↦ rw (last_dot, l, h, same) refl
    | inr other ↦ rw (last_dot, l, h, other) refl
  ]
]

first_above-undotted : (m : NameSet) (s : GoString) → has_byte s 46 ≡ false → first_above m s ≡ none
unfolding first_above has_byte
first_above-undotted m [] h = refl
first_above-undotted m (c ∷ s) h = ground (arith, first_above-undotted m s)

find_parent-first_above :
    (m : NameSet) (s : GoString) → find_parent m (last_dot s) s ≡ first_above m s
unfolding find_parent first_above
find_parent-first_above m [] = go (last_dot [])
  where
    go : (n : ℕ) → find_parent m n [] ≡ none
    go zero = refl
    go (suc n) = refl
find_parent-first_above m (c ∷ s) = elim (Bool-cases (has_byte s 46)) [
  | inl h ↦ rw (last_dot-cons, h, find_parent-first_above m s) refl
  | inr h ↦ rw (last_dot-cons, h, first_above-undotted m s h) (ground arith)
]

tail-IsParent : (c : ℕ) (p s : GoString) → IsParent p s → IsParent p (c ∷ s)
tail-IsParent c p s h = record {
  label = c ∷ h.label;
  split_at = ap (λ (x : GoString). c ∷ x) h.split_at;
  dotted = h.dotted;
}

here-IsParent :
    (c : ℕ) (p s : GoString) → c ≡ 46 → s ≡ p → has_byte s 46 ≡ true → IsParent p (c ∷ s)
here-IsParent c p s dot same h = record {
  label = [];
  split_at = ground (arith, dot, same);
  dotted = rw (sym same) h;
}

first_above-IsParent :
    (m : NameSet) (q p : GoString) → first_above m q ≡ some p → IsParent p q × (has_name p m ≡ true)
unfolding first_above
first_above-IsParent m [] p e = ground arith
first_above-IsParent m (c ∷ s) p e =
    elim (Bool-cases (c == 46 && (has_byte s 46 && has_name s m))) [
      | inl here ↦ (
        here-IsParent c p s (ground (arith, here)) (ground (arith, e, here)) (ground (arith, here)),
        ground (arith, e, here),
      )
      | inr not_here ↦
          let rest = first_above-IsParent m s p (ground (arith, e, not_here)) in
          (tail-IsParent c p s rest.0, rest.1)
    ]

-- The parents of a name: behind its first byte, or of what follows.
IsParent-cons :
    (c : ℕ) (p s : GoString)
    → IsParent p (c ∷ s)
    → ((c ≡ 46) × (p ≡ s) × (has_byte s 46 ≡ true)) ⊎ IsParent p s
IsParent-cons c p s h = go h.label h.split_at h.dotted
  where
    go :
        (label : GoString)
        → c ∷ s ≡ label ++ 46 ∷ p
        → has_byte p 46 ≡ true
        → ((c ≡ 46) × (p ≡ s) × (has_byte s 46 ≡ true)) ⊎ IsParent p s
    go [] e d = inl (ground arith)
    go (x ∷ l) e d = inr (record { label = l; split_at = ground arith; dotted = d })

-- A parent is shorter.
IsParent-shorter : (c : ℕ) (p s : GoString) → IsParent p (c ∷ s) → length p ≤ length s
IsParent-shorter c p s h = omega (arith, ap length h.split_at, length-append h.label (46 ∷ p))

-- A parent in the set is found, or one closer to the name is.
first_above-closest :
    (m : NameSet) (q p : GoString)
    → IsParent p q
    → has_name p m ≡ true
    → (r : GoString) × (first_above m q ≡ some r) × (length p ≤ length r)
unfolding first_above
first_above-closest m [] p h known = absurd (no_parent p h.label h.split_at)
  where
    no_parent : (p l : GoString) → ¬ ([] ≡ l ++ 46 ∷ p)
    no_parent p [] e = ground arith
    no_parent p (x ∷ l) e = ground arith
first_above-closest m (c ∷ s) p h known =
    elim (Bool-cases (c == 46 && (has_byte s 46 && has_name s m))) [
      | inl here ↦ (s, rw here refl, IsParent-shorter c p s h)
      | inr not_here ↦ elim (IsParent-cons c p s h) [
        | inl (dot, same, dotted) ↦
            absurd (ground (arith, dot, ap (λ x. has_name x m) same, known, dotted, not_here))
        | inr up ↦
            let (r, found, le) = first_above-closest m s p up known in (r, rw not_here found, le)
      ]
    ]

-- A domain above the name that is in the set.
pub record Above (m : NameSet) (q p : GoString) : Type 0 where
  pub parent : IsParent p q
  pub known : has_name p m ≡ true

-- The walk finds the closest domain above the name that is in the set.
pub find_parent-Above :
    (m : NameSet) (q p : GoString) → find_parent m (last_dot q) q ≡ some p → Above m q p
find_parent-Above m q p e =
    let found = first_above-IsParent m q p (sym (find_parent-first_above m q) ∙ e) in
    record { parent = found.0; known = found.1 }

pub find_parent-closest :
    (m : NameSet) (q p : GoString)
    → Above m q p
    → (r : GoString) × (find_parent m (last_dot q) q ≡ some r) × (length p ≤ length r)
find_parent-closest m q p a =
    let (r, found, le) = first_above-closest m q p a.parent a.known in
    (r, find_parent-first_above m q ∙ found, le)
