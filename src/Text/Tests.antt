-- ===== src/Text/Tests.antt =====
-- Tests of the string functions.
use irongrid_dns.Prelude.{◌≡◌, refl, [], ◌∷◌}
use irongrid_dns.Bytes.{is_empty, ascii}
use irongrid_dns.Text.{words, drop_empty, add_to_first, is_space, join, split, trim_end, trim_start}

-- The words of ` a.b  c`.
two_words : drop_empty (words (ascii " a.b  c")) ≡ ascii "a.b" ∷ ascii "c" ∷ []
unfolding words drop_empty add_to_first is_space is_empty
two_words = refl

joined : join (split (ascii "a..b") 46) 46 ≡ ascii "a..b"
unfolding join split add_to_first
joined = refl

trimmed : trim_end (trim_start (ascii "  a b ")) ≡ ascii "a b"
unfolding trim_end trim_start is_space is_empty
trimmed = refl
