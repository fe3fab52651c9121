-- ===== src/Text/Laws.antt =====
-- Laws of the string functions.
use irongrid_dns.Prelude.{
  ℕ, ◌≡◌, refl, sym, ap, ◌∙◌, inl, inr, List, [], ◌∷◌, arith, ◌==◌, Bool-cases,
}
use irongrid_dns.Bytes.{GoString}
use irongrid_dns.Text.{split, join, add_to_first}

-- A split text has a first part.
pub split-cons :
    (s : GoString) (b : ℕ) → (w : GoString) × (ws : List GoString) × (split s b ≡ w ∷ ws)
unfolding split add_to_first
split-cons [] b = ([], [], refl)
split-cons (c ∷ s) b = elim (Bool-cases (c == b)) [
  | inl here ↦ ([], split s b, rw here refl)
  | inr other ↦ let (w, ws, e) = split-cons s b in (c ∷ w, ws, rw (other, e) refl)
]

join-add_to_first :
    (c b : ℕ) (w : GoString) (ws : List GoString)
    → join (add_to_first c (w ∷ ws)) b ≡ c ∷ join (w ∷ ws) b
unfolding join add_to_first
join-add_to_first c b w [] = refl
join-add_to_first c b w (v ∷ ws) = refl

join-nil_first :
    (b : ℕ) (w : GoString) (ws : List GoString) → join ([] ∷ w ∷ ws) b ≡ b ∷ join (w ∷ ws) b
unfolding join
join-nil_first b w ws = refl

join-empty : (b : ℕ) → join ([] ∷ []) b ≡ []
unfolding join
join-empty b = refl

-- Joining the parts gives the text back.
pub join-split : (s : GoString) (b : ℕ) → join (split s b) b ≡ s
unfolding split
join-split [] b = join-empty b
join-split (c ∷ s) b =
    let (w, ws, e) = split-cons s b in
    let same = ap (λ x. join x b) (sym e) ∙ join-split s b in
    elim (Bool-cases (c == b)) [
      | inl here ↦ rw (here, e, join-nil_first b w ws, same) (ground (arith, here))
      | inr other ↦ rw (other, e, join-add_to_first c b w ws, same) refl
    ]
