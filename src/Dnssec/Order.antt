-- ===== src/Dnssec/Order.antt =====
-- internal/dnssec/denial.go: the canonical order of names, and what two records of a chain cover.
use irongrid_dns.Prelude.{◌≡◌, refl, true, false, List, [], ◌∷◌, arith}
use irongrid_dns.Bytes.{GoString, str_eq, str_eq_iff}
use irongrid_dns.Text.{lower}
use irongrid_dns.Dnssec.Keys.{DnsLib}
use irongrid_dns.Dnssec.Denial.{string_less, less_labels, reverse_onto, canonical_less, nsec_covers}

-- What is below a name is below what the name is not above.
string_less-le :
    (a b c : GoString) → string_less a b ≡ true → string_less c b ≡ false → string_less a c ≡ true
unfolding string_less
string_less-le [] [] c h k = ground (arith, h)
string_less-le [] (y ∷ b) [] h k = ground (arith, k)
string_less-le [] (y ∷ b) (z ∷ c) h k = refl
string_less-le (x ∷ a) [] c h k = ground (arith, h)
string_less-le (x ∷ a) (y ∷ b) [] h k = ground (arith, k)
string_less-le (x ∷ a) (y ∷ b) (z ∷ c) h k = ground (arith, string_less-le a b c, h, k)

string_less-connected :
    (a b : GoString) → string_less a b ≡ false → string_less b a ≡ false → str_eq a b ≡ true
unfolding string_less str_eq
string_less-connected [] [] h k = refl
string_less-connected [] (y ∷ b) h k = ground (arith, h)
string_less-connected (x ∷ a) [] h k = ground (arith, k)
string_less-connected (x ∷ a) (y ∷ b) h k = ground (arith, string_less-connected a b, h, k)

less_labels-le :
    (xs ys zs : List GoString)
    → less_labels xs ys ≡ true
    → less_labels zs ys ≡ false
    → less_labels xs zs ≡ true
unfolding less_labels
less_labels-le [] [] zs h k = ground (arith, h)
less_labels-le [] (y ∷ ys) [] h k = ground (arith, k)
less_labels-le [] (y ∷ ys) (z ∷ zs) h k = refl
less_labels-le (x ∷ xs) [] zs h k = ground (arith, h)
less_labels-le (x ∷ xs) (y ∷ ys) [] h k = ground (arith, k)
less_labels-le (x ∷ xs) (y ∷ ys) (z ∷ zs) h k = ground (
  arith,
  less_labels-le xs ys zs,
  h,
  k,
  str_eq_iff (lower x) (lower y),
  str_eq_iff (lower z) (lower y),
  str_eq_iff (lower x) (lower z),
  string_less-le (lower x) (lower y) (lower z),
  string_less-connected (lower z) (lower y),
)

canonical_less-le :
    (lib : DnsLib) (a b c : GoString)
    → canonical_less lib a b ≡ true
    → canonical_less lib c b ≡ false
    → canonical_less lib a c ≡ true
unfolding canonical_less
canonical_less-le lib a b c h k =
    less_labels-le (reverse_onto (lib.labels (lib.fqdn a)) [])
      (reverse_onto (lib.labels (lib.fqdn b)) []) (reverse_onto (lib.labels (lib.fqdn c)) []) h k

-- Two records of a chain, the second of which begins no earlier than the first ends, cover no name
-- together, where neither of them wraps around the end of the zone.
nsec_covers_once :
    (lib : DnsLib) (owner next owner' next' name : GoString)
    → canonical_less lib owner next ≡ true
    → canonical_less lib owner' next' ≡ true
    → canonical_less lib owner' next ≡ false
    → nsec_covers lib owner next name ≡ true
    → nsec_covers lib owner' next' name ≡ false
unfolding nsec_covers
nsec_covers_once lib owner next owner' next' name first second apart covered =
    let under = canonical_less-le lib name next owner' (ground (arith, covered, first)) apart in
    rw (second, under) refl
