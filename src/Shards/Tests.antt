-- ===== src/Shards/Tests.antt =====
-- The theorems about eviction at concrete inputs.
use irongrid_dns.Prelude.{ℕ, refl, [], ◌∷◌}
use irongrid_dns.Bytes.{GoString, ascii, is_empty, str_eq}
use irongrid_dns.Shards.Table.{Table, IsTable, lookup, delete, delete_if}
use irongrid_dns.Shards.Evict.{evict, oldest_from}

abbrev a : GoString
a = ascii "a"

abbrev b : GoString
b = ascii "b"

-- Entries that are their own time.
abbrev seen : ℕ → ℕ
seen t = t

abbrev table : Table ℕ
table = (a, 7) ∷ (b, 5) ∷ []

table-IsTable : IsTable table
unfolding lookup is_empty str_eq
table-IsTable = (refl, refl, (refl, refl, tt))

program : Unit {0}
unfolding evict oldest_from lookup delete delete_if is_empty str_eq
program = tt
