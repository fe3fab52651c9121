-- ===== src/Forward/Upstreams.antt =====
-- internal/dnsserver/handler.go: the query of the upstreams, one by one or all at once.
use irongrid_dns.Prelude.{
  ℕ, Bool, true, false, ◌==◌, List, [], ◌∷◌, Option, none, some, if◌then◌else◌,
}
use irongrid_dns.Bytes.{GoString}
use irongrid_dns.Forward.Breaker.{Breaker, available}

-- `Upstream`, by its name and its breaker.
pub record Upstream : Type 0 where
  pub name : GoString
  pub breaker : Breaker

-- A response.
pub record Msg : Type 0 where
  pub rcode : ℕ
  pub body : GoString

-- What a query returns: an error, neither an error nor a response, or a response. A panic is an
-- error.
pub data Reply : Type 0 where
  broke : GoString → Reply
  silent : Reply
  answered : Msg → Reply

-- The errors that are handed on.
pub data Failure : Type 0 where
  query_error : GoString → Failure
  no_response : GoString → Failure
  server_failure : GoString → Failure
  none_replied : Failure
  cooling_down : Failure

-- The results: a response with the name of its upstream, a failure with the name it is given, or
-- neither a response nor a failure.
pub data Outcome : Type 0 where
  got : Msg → GoString → Outcome
  gave_up : GoString → Failure → Outcome
  blank : GoString → Outcome

-- What goes on outside: what the query of an upstream returns, whether the deadline has passed when
-- its turn comes, and in which order the replies of a race arrive.
pub record World : Type 0 where
  pub query : Upstream → Reply
  pub expired : Upstream → Bool
  pub arrival : List Upstream → List Upstream

-- The mode; every text but "sequential" stands for the race.
pub data Mode : Type 0 where
  race : Mode
  sequential : Mode

abbrev pub rcode_server_failure : ℕ
rcode_server_failure = 2

-- The end of `sequentialUpstreams`.
unfoldable pub conclude : Option Failure → Option (Msg × GoString) → Outcome
conclude last_err (some (m, name)) = got m name
conclude (some err) none = gave_up [] err
conclude none none = gave_up [] none_replied

-- The loop of `sequentialUpstreams`.
unfoldable pub try_each : World → List Upstream → Option Failure → Option (Msg × GoString) → Outcome
try_each w [] last_err last_fail = conclude last_err last_fail
try_each w (u ∷ us) last_err last_fail = elim (w.expired u) [
  | true ↦ conclude last_err last_fail
  | false ↦ elim (w.query u) [
    | broke err ↦ try_each w us (some (query_error err)) last_fail
    | silent ↦ try_each w us (some (no_response u.name)) last_fail
    | answered m ↦ elim (m.rcode == rcode_server_failure) [
      | true ↦ try_each w us (some (server_failure u.name)) (some (m, u.name))
      | false ↦ got m u.name
    ]
  ]
]

-- `sequentialUpstreams`
unfoldable pub sequential_upstreams : World → List Upstream → Outcome
sequential_upstreams w us = try_each w us none none

-- The loop of `raceUpstreams` over the replies as they arrive.
unfoldable pub collect : World → List Upstream → Option Failure → Outcome
collect w [] last_err = conclude last_err none
collect w (u ∷ us) last_err = elim (w.query u) [
  | broke err ↦ collect w us (some (query_error err))
  | silent ↦ collect w us last_err
  | answered m ↦ got m u.name
]

-- `raceUpstreams`
unfoldable pub race_upstreams : World → List Upstream → Outcome
race_upstreams w us = collect w (w.arrival us) none

unfoldable pub query_one : World → ℕ → Upstream → Outcome
query_one w now u =
    if available u.breaker now
    then elim (w.query u) [
      | broke err ↦ gave_up [] (query_error err)
      | silent ↦ blank u.name
      | answered m ↦ got m u.name
    ]
    else gave_up u.name cooling_down

unfoldable pub available_of : ℕ → List Upstream → List Upstream
available_of now [] = []
available_of now (u ∷ us) =
    let rest = available_of now us in if available u.breaker now then u ∷ rest else rest

unfoldable pub query_available : World → Mode → List Upstream → Outcome
query_available w mode [] = gave_up [] cooling_down
query_available w sequential (u ∷ us) = sequential_upstreams w (u ∷ us)
query_available w race (u ∷ us) = race_upstreams w (u ∷ us)

-- `queryUpstreams`
unfoldable pub query_upstreams : World → Mode → ℕ → List Upstream → Outcome
query_upstreams w mode now (u ∷ []) = query_one w now u
query_upstreams w mode now us = query_available w mode (available_of now us)
