-- ===== src/ApiRate/Tests.antt =====
-- The theorems about the API limiter at concrete inputs.
use irongrid_dns.Prelude.{◌≡◌, refl, false, [], ◌∷◌}
use irongrid_dns.Prelude.Int.{pos}
use irongrid_dns.Bytes.{GoString, ascii, is_empty}
use irongrid_dns.Clock.{second}
use irongrid_dns.RateLimit.Tokens.{unit}
use irongrid_dns.ApiRate.{ApiRateLimiter, ApiBucket}

abbrev client : GoString
client = ascii "10.0.0.7"

named : is_empty client ≡ false
unfolding is_empty
named = refl

abbrev bucket : ApiBucket
bucket = record { tokens = pos unit; last_seen = second }

abbrev limiter : ApiRateLimiter
limiter = record { shards = λ _. (client, bucket) ∷ [] }
