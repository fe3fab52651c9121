-- ===== src/Text.antt =====
-- What the code uses of Go's package `strings`. Bytes from 128 on are part of longer characters:
-- for a string that has one, the functions that look at whole characters are parameters.
pub mod Laws
mod Tests
use irongrid_dns.Prelude.{
  ℕ, zero, suc, ◌+◌, ◌-◌, Bool, true, false, not, ◌&&◌, ◌||◌, List, [], ◌∷◌, ◌++◌, Option, none,
  some, ltb, leb, ◌==◌, if◌then◌else◌,
}
use irongrid_dns.Bytes.{GoString, is_empty}

-- White space, and the cases of letters, of a string that is not ASCII: Unicode's tables.
pub record Unicode : Type 0 where
  pub trim_wide : GoString → GoString
  pub fields_wide : GoString → List GoString
  pub lower_wide : GoString → GoString

-- `isASCII` of internal/filter/rules.go.
unfoldable pub is_ascii : GoString → Bool
is_ascii [] = true
is_ascii (c ∷ s) = leb c 127 && is_ascii s

unfoldable pub is_space : ℕ → Bool
is_space c = (leb 9 c && leb c 13) || c == 32

unfoldable pub trim_start : GoString → GoString
trim_start [] = []
trim_start (c ∷ s) = if is_space c then trim_start s else c ∷ s

unfoldable pub trim_end : GoString → GoString
trim_end [] = []
trim_end (c ∷ s) = let rest = trim_end s in if is_space c && is_empty rest then [] else c ∷ rest

-- `strings.TrimSpace`
unfoldable pub trim_space : Unicode → GoString → GoString
trim_space u s = if is_ascii s then trim_end (trim_start s) else u.trim_wide s

-- `strings.ToLower` on ASCII.
unfoldable pub lower : GoString → GoString
lower [] = []
lower (c ∷ s) = (if leb 65 c && leb c 90 then c + 32 else c) ∷ lower s

unfoldable pub to_lower : Unicode → GoString → GoString
to_lower u s = if is_ascii s then lower s else u.lower_wide s

-- `strings.ToUpper` on ASCII.
unfoldable pub upper : GoString → GoString
upper [] = []
upper (c ∷ s) = (if leb 97 c && leb c 122 then c - 32 else c) ∷ upper s

unfoldable pub add_to_first : ℕ → List GoString → List GoString
add_to_first c [] = (c ∷ []) ∷ []
add_to_first c (w ∷ ws) = (c ∷ w) ∷ ws

-- The words of an ASCII string, in front of them an empty one where it begins with a space.
unfoldable pub words : GoString → List GoString
words [] = [] ∷ []
words (c ∷ s) = if is_space c then [] ∷ words s else add_to_first c (words s)

unfoldable pub drop_empty : List GoString → List GoString
drop_empty [] = []
drop_empty (w ∷ ws) = if is_empty w then drop_empty ws else w ∷ drop_empty ws

-- `strings.Fields`
unfoldable pub fields : Unicode → GoString → List GoString
fields u s = if is_ascii s then drop_empty (words s) else u.fields_wide s

-- `strings.CutPrefix`
unfoldable pub cut_prefix : GoString → GoString → Option GoString
cut_prefix s [] = some s
cut_prefix [] (p ∷ ps) = none
cut_prefix (c ∷ s) (p ∷ ps) = if c == p then cut_prefix s ps else none

unfoldable pub has_prefix : GoString → GoString → Bool
has_prefix s p = elim (cut_prefix s p) [ none ↦ false | some _ ↦ true ]

-- `strings.TrimPrefix`
unfoldable pub trim_prefix : GoString → GoString → GoString
trim_prefix s p = elim (cut_prefix s p) [ none ↦ s | some after ↦ after ]

-- `strings.TrimSuffix`, for one byte.
unfoldable pub trim_suffix : GoString → ℕ → GoString
trim_suffix [] b = []
trim_suffix (c ∷ []) b = if c == b then [] else c ∷ []
trim_suffix (c ∷ d ∷ s) b = c ∷ trim_suffix (d ∷ s) b

-- `strings.ContainsRune`, for one byte.
unfoldable pub has_byte : GoString → ℕ → Bool
has_byte [] b = false
has_byte (c ∷ s) b = c == b || has_byte s b

-- `strings.ContainsAny`
unfoldable pub contains_any : GoString → GoString → Bool
contains_any [] bs = false
contains_any (c ∷ s) bs = has_byte bs c || contains_any s bs

-- `s[:i]` and `s[i:]` for `i := strings.IndexAny(s, bs)`; the whole string and the empty one
-- where there is none.
unfoldable pub cut_at_any : GoString → GoString → GoString × GoString
cut_at_any [] bs = ([], [])
cut_at_any (c ∷ s) bs =
    let (before, from) = cut_at_any s bs in
    if has_byte bs c then ([], c ∷ s) else (c ∷ before, from)

-- `strings.LastIndexByte`, with `none` for -1.
unfoldable pub last_index : GoString → ℕ → Option ℕ
last_index [] b = none
last_index (c ∷ s) b = elim (last_index s b) [
  | some i ↦ some (suc i)
  | none ↦ if c == b then some 0 else none
]

-- `strings.Split`, at one byte.
unfoldable pub split : GoString → ℕ → List GoString
split [] b = [] ∷ []
split (c ∷ s) b = if c == b then [] ∷ split s b else add_to_first c (split s b)

-- `strings.Join`, with one byte between the parts.
unfoldable pub join : List GoString → ℕ → GoString
join [] b = []
join (w ∷ []) b = w
join (w ∷ v ∷ ws) b = w ++ b ∷ join (v ∷ ws) b
