-- ===== src/Forward/Tests.antt =====
-- Tests and worked examples of the choice of an upstream (internal/dnsserver, internal/upstream).
use irongrid_dns.Prelude.{◌*◌, ◌≡◌, ◌||◌, false, [], ◌∷◌, leb, ltb, if◌then◌else◌}
use irongrid_dns.Bytes.{ascii, str_eq}
use irongrid_dns.Clock.{second}
use irongrid_dns.Forward.Breaker.{
  Ending, Event, circuit_open_fails, available, after_events, streak, reopen,
  available-after_events,
}
use irongrid_dns.Forward.Upstreams.{Upstream, Reply, World, Mode, available_of, query_upstreams}
use irongrid_dns.Forward.Failover.{sequential_rule, query_upstreams-sequential_rule}
use irongrid_dns.Forward.Routes.{
  UpstreamRoute, Covers, NoneLonger, route_match, route_match-NoneLonger,
}

abbrev a_failure : Event
a_failure = record { ending = Ending.failed; time = 9 * second; draw = 5 }

available-after_events_example :
    available (after_events (a_failure ∷ a_failure ∷ a_failure ∷ [])) (10 * second) ≡ (
      ltb (streak (a_failure ∷ a_failure ∷ a_failure ∷ [])) circuit_open_fails
      || leb (reopen (a_failure ∷ a_failure ∷ a_failure ∷ [])) (10 * second))
available-after_events_example =
    available-after_events (a_failure ∷ a_failure ∷ a_failure ∷ []) (10 * second)

abbrev primary : Upstream
primary = record { name = ascii "p"; breaker = record { fails = 0; cooldown_until = 0 } }

abbrev backup : Upstream
backup = record { name = ascii "b"; breaker = record { fails = 0; cooldown_until = 0 } }

-- The primary fails and the backup answers.
abbrev failing_primary : World
failing_primary = record {
  query = λ u.
      Reply.answered (record { rcode = if str_eq u.name (ascii "p") then 2 else 0; body = u.name });
  expired = λ _. false;
  arrival = λ us. us;
}

query_upstreams-sequential_rule_example :
    query_upstreams failing_primary Mode.sequential 1 (primary ∷ backup ∷ [])
    ≡ sequential_rule failing_primary (available_of 1 (primary ∷ backup ∷ []))
query_upstreams-sequential_rule_example =
    query_upstreams-sequential_rule failing_primary 1 primary backup []

abbrev corp : UpstreamRoute
corp = record { domain = ascii "corp"; upstreams = [] }

abbrev lab : UpstreamRoute
lab = record { domain = ascii "lab.corp"; upstreams = [] }

route_match-NoneLonger_example :
    Covers (ascii "x.lab.corp") (route_match (corp ∷ lab ∷ []) (ascii "x.lab.corp"))
    × NoneLonger
        (ascii "x.lab.corp")
        (route_match (corp ∷ lab ∷ []) (ascii "x.lab.corp"))
        (corp ∷ lab ∷ [])
route_match-NoneLonger_example = route_match-NoneLonger (corp ∷ lab ∷ []) (ascii "x.lab.corp")
