-- ===== src/RepeatGuard/Tests.antt =====
-- The theorems about the repeat-query guard at concrete inputs.
use irongrid_dns.Prelude.{◌*◌, ◌≡◌, refl, false, [], ◌∷◌}
use irongrid_dns.Bytes.{GoString, ascii, is_empty}
use irongrid_dns.Clock.{second}
use irongrid_dns.RepeatGuard.{RepeatGuard, RqEntry}

abbrev client : GoString
client = ascii "10.0.0.7"

abbrev qname : GoString
qname = ascii "example.org"

named : is_empty client ≡ false
unfolding is_empty
named = refl

asked : is_empty qname ≡ false
unfolding is_empty
asked = refl

abbrev guard : RepeatGuard
guard = record { limits = record { threshold = 3; window = 10 * second }; shards = λ _. [] }

abbrev streak : RqEntry
streak = record { qname = qname; count = 2; first_seen = second; blocked_until = 0 }

abbrev busy : RepeatGuard
busy = record guard { shards = λ _. (client, streak) ∷ [] }
