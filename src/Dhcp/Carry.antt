-- ===== src/Dhcp/Carry.antt =====
-- internal/dhcp/pool.go: the loops of `poolAt` and `incr` are addition on the address as a number.
use irongrid_dns.Prelude.{
  ℕ, ◌+◌, ◌*◌, ◌/◌, ◌%◌, ◌<◌, ◌≡◌, refl, sym, ap, ◌∙◌, inl, inr, true, false, List, [], ◌∷◌, ◌++◌,
  arith, ltb, ◌==◌, Bool-cases,
}
use irongrid_dns.Dhcp.Addr.{backward, add_from, pool_at, incr_from, incr}

-- The number that bytes stand for, the least significant first, and how many numbers fit.
abbrev pub value_from : List ℕ → ℕ
value_from [] = 0
value_from (b ∷ bs) = b + 256 * value_from bs

abbrev pub span : List ℕ → ℕ
span [] = 1
span (b ∷ bs) = 256 * span bs

abbrev pub AreBytes : List ℕ → Type 0
AreBytes [] = Unit
AreBytes (b ∷ bs) = (b < 256) × AreBytes bs

-- The number that an address stands for.
unfoldable pub value : List ℕ → ℕ
unfolding backward
value ip = value_from (backward ip)

add_from_lem :
    (bs : List ℕ) (carry : ℕ)
    → value_from bs + carry < span bs
    → value_from (add_from bs carry) ≡ value_from bs + carry
unfolding add_from
add_from_lem [] carry h = omega arith
add_from_lem (b ∷ bs) carry h = elim (Bool-cases (ltb 0 carry)) [
  | inl more ↦
      rw (add_from, more) (omega (arith, add_from_lem bs ((b + carry) / 256) (omega (arith, h))))
  | inr done ↦ rw (add_from, done) (ground arith)
]

add_from_zero : (bs : List ℕ) → add_from bs 0 ≡ bs
unfolding add_from
add_from_zero [] = refl
add_from_zero (b ∷ bs) = refl

incr-add_from : (bs : List ℕ) → AreBytes bs → incr_from bs ≡ add_from bs 1
unfolding add_from incr_from
incr-add_from [] t = refl
incr-add_from (b ∷ bs) t = elim (Bool-cases ((b + 1) % 256 == 0)) [
  | inl wraps ↦ rw wraps (
      ap (λ r. (b + 1) % 256 ∷ r)
        (incr-add_from bs t.1 ∙ ap (add_from bs) (one_carried b t.0 wraps)))
  | inr stays ↦ rw stays (
      ap (λ r. (b + 1) % 256 ∷ r)
        (sym (add_from_zero bs) ∙ ap (add_from bs) (none_carried b t.0 stays)))
]
  where
    one_carried : (b : ℕ) → b < 256 → ((b + 1) % 256 == 0) ≡ true → 1 ≡ (b + 1) / 256
    one_carried b h w = ground arith

    none_carried : (b : ℕ) → b < 256 → ((b + 1) % 256 == 0) ≡ false → 0 ≡ (b + 1) / 256
    none_carried b h w = ground arith

backward-snoc : (bs : List ℕ) (b : ℕ) → backward (bs ++ (b ∷ [])) ≡ b ∷ backward bs
unfolding backward
backward-snoc [] b = refl
backward-snoc (c ∷ bs) b = ap (λ r. r ++ (c ∷ [])) (backward-snoc bs b)

pub backward-backward : (bs : List ℕ) → backward (backward bs) ≡ bs
unfolding backward
backward-backward [] = refl
backward-backward (b ∷ bs) = backward-snoc (backward bs) b ∙ ap (λ r. b ∷ r) (backward-backward bs)

-- `poolAt` adds: the address `offset` places after the base, as a number, for every length of
-- address and as long as the sum fits the length.
pub value-pool_at :
    (base : List ℕ) (offset : ℕ)
    → value base + offset < span (backward base)
    → value (pool_at base offset) ≡ value base + offset
unfolding value pool_at
value-pool_at base offset fits =
    ap value_from (backward-backward (add_from (backward base) offset))
    ∙ add_from_lem (backward base) offset fits

-- `incr` is `poolAt` with an offset of 1, at the end of the address space too.
pub incr-pool_at : (ip : List ℕ) → AreBytes (backward ip) → incr ip ≡ pool_at ip 1
unfolding incr pool_at
incr-pool_at ip t = ap backward (incr-add_from (backward ip) t)
