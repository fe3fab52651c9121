-- ===== src/Forward/Failover.antt =====
-- internal/dnsserver/handler.go: what the query of the upstreams answers.
use irongrid_dns.Prelude.{
  ℕ, ◌≡◌, refl, ◌⊎◌, inl, inr, Bool, not, ◌==◌, List, [], ◌∷◌, Option, none, some, if◌then◌else◌,
  Bool-cases,
}
use irongrid_dns.Bytes.{GoString}
use irongrid_dns.Forward.Upstreams.{
  broke, silent, answered, Upstream, Msg, Reply, Failure, Outcome, World, Mode,
  rcode_server_failure, conclude, try_each, sequential_upstreams, available_of, query_available,
  query_upstreams,
}

-- The upstreams whose turn comes before the deadline.
unfoldable pub in_time : World → List Upstream → List Upstream
in_time w [] = []
in_time w (u ∷ us) = if w.expired u then [] else u ∷ in_time w us

-- Whether a response is a real answer.
unfoldable pub is_answer : Msg → Bool
is_answer m = not (m.rcode == rcode_server_failure)

-- The first real answer.
unfoldable pub first_answer : World → List Upstream → Option (Msg × GoString)
first_answer w [] = none
first_answer w (u ∷ us) = elim (w.query u) [
  | broke err ↦ first_answer w us
  | silent ↦ first_answer w us
  | answered m ↦ if is_answer m then some (m, u.name) else first_answer w us
]

-- The last response of any kind, or what is given.
unfoldable pub last_response :
    World → List Upstream → Option (Msg × GoString) → Option (Msg × GoString)
last_response w [] before = before
last_response w (u ∷ us) before = elim (w.query u) [
  | broke err ↦ last_response w us before
  | silent ↦ last_response w us before
  | answered m ↦ last_response w us (some (m, u.name))
]

-- The error of the last upstream, or what is given.
unfoldable pub error_of : Upstream → Reply → Failure
error_of u (broke err) = Failure.query_error err
error_of u silent = Failure.no_response u.name
error_of u (answered m) = Failure.server_failure u.name

unfoldable pub last_error : World → List Upstream → Option Failure → Option Failure
last_error w [] before = before
last_error w (u ∷ us) before = last_error w us (some (error_of u (w.query u)))

-- An answer, else a failing response, else the error.
unfoldable pub failover :
    Option (Msg × GoString) → Option (Msg × GoString) → Option Failure → Outcome
failover (some (m, name)) response err = Outcome.got m name
failover none response err = conclude err response

Reply-cases :
    (r : Reply)
    → ((err : GoString) × (r ≡ broke err)) ⊎ ((r ≡ silent) ⊎ ((m : Msg) × (r ≡ answered m)))
Reply-cases (broke err) = inl (err, refl)
Reply-cases silent = inr (inl refl)
Reply-cases (answered m) = inr (inr (m, refl))

try_each-failover :
    (w : World) (us : List Upstream) (err : Option Failure) (response : Option (Msg × GoString))
    → try_each w us err response
      ≡ failover
          (first_answer w (in_time w us))
          (last_response w (in_time w us) response)
          (last_error w (in_time w us) err)
unfolding try_each failover first_answer last_response last_error in_time error_of is_answer
try_each-failover w [] err response = refl
try_each-failover w (u ∷ us) err response = elim (Bool-cases (w.expired u)) [
  | inl late ↦ rw (try_each, in_time, late) refl
  | inr soon ↦ elim (Reply-cases (w.query u)) [
    | inl (text, e) ↦
        rw
          (try_each, in_time, first_answer, last_response, last_error, error_of, is_answer, soon, e)
          (try_each-failover w us (some (Failure.query_error text)) response)
    | inr (inl e) ↦
        rw
          (try_each, in_time, first_answer, last_response, last_error, error_of, is_answer, soon, e)
          (try_each-failover w us (some (Failure.no_response u.name)) response)
    | inr (inr (m, e)) ↦ elim (Bool-cases (m.rcode == rcode_server_failure)) [
      | inl fails ↦
          rw
            (
              try_each, in_time, first_answer, last_response, last_error, error_of, is_answer, soon,
              e, fails,
            )
            (try_each-failover w us (some (Failure.server_failure u.name)) (some (m, u.name)))
      | inr real ↦
          rw
            (
              try_each, in_time, first_answer, last_response, last_error, error_of, is_answer, soon,
              e, real,
            )
            refl
    ]
  ]
]

-- What sequential mode is to answer.
unfoldable pub sequential_rule : World → List Upstream → Outcome
sequential_rule w [] = Outcome.gave_up [] Failure.cooling_down
sequential_rule w (u ∷ us) =
    let tried = in_time w (u ∷ us) in
    failover (first_answer w tried) (last_response w tried none) (last_error w tried none)

-- With two or more upstreams, sequential mode asks those whose breaker lets them, in order, until
-- the deadline: it answers with the first response that is no SERVFAIL, else with the last
-- SERVFAIL, and only without any response with the error of the last one, or that there was none.
pub query_upstreams-sequential_rule :
    (w : World) (now : ℕ) (u v : Upstream) (us : List Upstream)
    → query_upstreams w Mode.sequential now (u ∷ v ∷ us)
      ≡ sequential_rule w (available_of now (u ∷ v ∷ us))
unfolding query_upstreams query_available sequential_rule sequential_upstreams
query_upstreams-sequential_rule w now u v us = go (available_of now (u ∷ v ∷ us))
  where
    go : (as' : List Upstream) → query_available w Mode.sequential as' ≡ sequential_rule w as'
    go [] = refl
    go (a ∷ as') = try_each-failover w (a ∷ as') none none
