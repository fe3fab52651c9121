-- ===== src/NxGuard/Tests.antt =====
-- The theorems about the NXDOMAIN guard at concrete inputs.
use irongrid_dns.Prelude.{◌*◌, ◌≡◌, refl, true, false, [], ◌∷◌, arith}
use irongrid_dns.Bytes.{GoString, ascii, is_empty, str_eq}
use irongrid_dns.Clock.{minute}
use irongrid_dns.Shards.Table.{lookup, shard}
use irongrid_dns.NxGuard.{NxGuard, NxEntry, allow}
use irongrid_dns.NxGuard.Flood.{note_many, flood_after_block}

abbrev prefix : GoString
prefix = ascii "10.0.0.0"

named : is_empty prefix ≡ false
unfolding is_empty
named = refl

-- Two NXDOMAINs within an hour block for a minute.
abbrev guard : NxGuard
guard = record {
  limits = record { threshold = 2; window = 60 * minute; block_for = minute };
  shards = λ _. [];
}

abbrev tripped : NxEntry
tripped = record { count = 0; first_seen = minute; blocked_until = 2 * minute }

flood_after_block_example :
    allow
      (note_many
        (record guard { shards = λ _. (prefix, tripped) ∷ [] })
        prefix
        ((3 * minute) ∷ (3 * minute) ∷ (3 * minute) ∷ []))
      prefix
      (4 * minute)
    ≡ true
unfolding lookup shard str_eq
flood_after_block_example =
    flood_after_block (record guard { shards = λ _. (prefix, tripped) ∷ [] }) prefix named tripped
      ((3 * minute) ∷ (3 * minute) ∷ (3 * minute) ∷ []) (4 * minute) refl (omega arith)
      (omega arith) (omega arith)
