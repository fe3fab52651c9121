-- ===== src/Serve/Reverse.antt =====
-- internal/dnsserver/handler.go: the address that a name of the reverse zones stands for.
use irongrid_dns.Prelude.{
  ℕ, ◌+◌, ◌-◌, ◌*◌, ◌&&◌, ◌==◌, List, [], ◌∷◌, Option, none, some, if◌then◌else◌, leb, length,
}
use irongrid_dns.Bytes.{GoString, ascii, is_empty, str_eq}
use irongrid_dns.Text.{split}
use irongrid_dns.Banner.{canonical_domain}
use irongrid_dns.Serve.State.{ServeLib}

unfoldable pub digits_value : ℕ → GoString → Option ℕ
digits_value n [] = some n
digits_value n (c ∷ s) = if leb 48 c && leb c 57 then digits_value (n * 10 + (c - 48)) s else none

unfoldable pub unsigned_value : GoString → Option ℕ
unsigned_value [] = none
unsigned_value (c ∷ s) = digits_value 0 (c ∷ s)

-- `strconv.Atoi`, with `none` for an error and for what is below 0.
unfoldable pub atoi : GoString → Option ℕ
atoi [] = none
atoi (c ∷ s) =
    if c == 43
    then unsigned_value s
    else if c == 45
    then elim (unsigned_value s) [ none ↦ none | some n ↦ if n == 0 then some 0 else none ]
    else unsigned_value (c ∷ s)

-- The bytes of an address from its labels, the least significant first.
unfoldable pub octets_of : List GoString → List ℕ → Option (List ℕ)
octets_of [] bs = some bs
octets_of (l ∷ ls) bs = elim (atoi l) [
  | none ↦ none
  | some v ↦ if leb v 255 then octets_of ls (v ∷ bs) else none
]

unfoldable pub hex_digit : ℕ → Option ℕ
hex_digit c =
    if leb 48 c && leb c 57
    then some (c - 48)
    else if leb 97 c && leb c 102
    then some (c - 87)
    else if leb 65 c && leb c 70
    then some (c - 55)
    else none

-- `strconv.ParseUint(s, 16, 4)` on the digits.
unfoldable pub nibble_from : ℕ → GoString → Option ℕ
nibble_from n [] = some n
nibble_from n (c ∷ s) = elim (hex_digit c) [
  | none ↦ none
  | some d ↦ if leb (n * 16 + d) 15 then nibble_from (n * 16 + d) s else none
]

unfoldable pub nibble_of : GoString → Option ℕ
nibble_of [] = none
nibble_of (c ∷ s) = nibble_from 0 (c ∷ s)

-- The bytes from the labels of nibbles, the low half of a byte before its high half.
unfoldable pub nibbles_of : List GoString → List ℕ → Option (List ℕ)
nibbles_of (lo ∷ hi ∷ ls) bs = elim (nibble_of lo) [
  | none ↦ none
  | some a ↦ elim (nibble_of hi) [ none ↦ none | some b ↦ nibbles_of ls ((b * 16 + a) ∷ bs) ]
]
nibbles_of _ bs = some bs

-- `strings.CutSuffix`
unfoldable pub cut_suffix : GoString → GoString → Option GoString
cut_suffix [] p = if is_empty p then some [] else none
cut_suffix (c ∷ s) p =
    if str_eq (c ∷ s) p
    then some []
    else elim (cut_suffix s p) [ none ↦ none | some before ↦ some (c ∷ before) ]

unfoldable pub reverse6 : GoString → Option (List ℕ)
reverse6 n = elim (cut_suffix n (ascii ".ip6.arpa")) [
  | none ↦ none
  | some before ↦ if length (split before 46) == 32 then nibbles_of (split before 46) [] else none
]

-- `reverseNameIP`, as the bytes of the address.
unfoldable pub reverse_name_ip : ServeLib → GoString → Option (List ℕ)
reverse_name_ip lib name =
    let n = canonical_domain lib.prefix.unicode name in
    elim (cut_suffix n (ascii ".in-addr.arpa")) [
      | some before ↦ if length (split before 46) == 4 then octets_of (split before 46) [] else none
      | none ↦ reverse6 n
    ]
