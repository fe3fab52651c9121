-- ===== src/Serve/Answered.antt =====
-- internal/dnsserver/handler.go: a resolution that ends is answered.
use irongrid_dns.Prelude.{
  either_way, ◌≡◌, refl, Bool, true, false, not, [], ◌∷◌, Option, none, some, inl, inr, arith,
  Bool-cases,
}
use irongrid_dns.Bytes.{GoString}
use irongrid_dns.Serve.State.{Response, silent, Handler, ServeLib, Stage, Hit, Reply}
use irongrid_dns.Serve.Finish.{
  Finish, Resolved, failed, resolved, note_missing_reply, serve_stale, serve_failure, reject,
  check_dnssec, block_answer, check_addresses, check_cnames, pass_on, check_answer, serve_reply,
  has_edns, finish_with, written, finish_resolve,
}
use irongrid_dns.Serve.Kept.{option_way, Holds, Keeps}
use irongrid_dns.Serve.Checks.{check_dnssec-After, check_addresses-After, check_cnames-After}
use irongrid_dns.Serve.Says.{
  Says, Answers, answers, quiet, written as says_written, answered, chain-Answers,
}

-- Something is written.
unfoldable pub is_written : Response → Bool
is_written silent = false
is_written _ = true

abbrev Loud : Handler × Option Response → Type 0
Loud = Says is_written

abbrev Replied : Handler × Option Response → Type 0
Replied = Answers is_written

reject-Says : (f : Finish) (reason up : GoString) (h : Handler) → Loud (reject f reason up h)
unfolding reject is_written
reject-Says f reason up h = says_written is_written _ _ refl

block_answer-Says :
    (f : Finish) (reason up : GoString) (h : Handler) → Loud (block_answer f reason up h)
unfolding block_answer is_written
block_answer-Says f reason up h = says_written is_written _ _ refl

-- Of a handler, nothing.
abbrev Any : Handler → Type 0
Any h = Unit

Any-Keeps : (m : Stage) → Keeps Any Any m
unfolding Holds
Any-Keeps m h p = of_pair (m h)
  where
    of_pair : (x : Handler × Option Response) → Holds Any Any x
    of_pair (h', none) = tt
    of_pair (h', some x) = tt

check_answer-Answers :
    (lib : ServeLib) (f : Finish) (up : GoString) (m : Reply) (h : Handler)
    → Replied (check_answer lib f up m h)
unfolding check_answer pass_on is_written
check_answer-Answers lib f up m h =
    chain-Answers is_written Any Any
      (check_dnssec f up m ∷ check_addresses f up m ∷ check_cnames lib f up m ∷ []) (pass_on f up m)
      [] (Any-Keeps _, (Any-Keeps _, (Any-Keeps _, tt)))
      (
        (λ h'. check_dnssec-After Any Loud f still refused shut up m h' tt),
        (
          (λ h'. check_addresses-After Any Loud f still refused shut up m h' tt),
          ((λ h'. check_cnames-After Any Loud f still refused shut lib up m h' tt), tt),
        ),
      )
      (λ h' p. answered is_written _ _ refl) h tt
  where
    still : (h' : Handler) → Any h' → Loud (h', none)
    still h' p = quiet is_written h'

    refused : (reason u : GoString) (h' : Handler) → Any h' → Loud (reject f reason u h')
    refused reason u h' p = reject-Says f reason u h'

    shut : (reason u : GoString) (h' : Handler) → Any h' → Loud (block_answer f reason u h')
    shut reason u h' p = block_answer-Says f reason u h'

serve_stale-Answers :
    (f : Finish) (up : GoString) (hit : Hit) (h : Handler) → Replied (serve_stale f up hit h)
unfolding serve_stale is_written
serve_stale-Answers f up hit h = answered is_written _ _ refl

serve_failure-Answers :
    (f : Finish) (err up : GoString) (h : Handler) → Replied (serve_failure f err up h)
unfolding serve_failure is_written
serve_failure-Answers f err up h =
    option_way Replied f.plan.old _ _
      (answered is_written _ _
        (either_way (λ (x : Response). is_written x ≡ true) (has_edns f.query) _ _ refl refl))
      (λ hit. serve_stale-Answers f up hit h)

finish_with-Answers :
    (lib : ServeLib) (f : Finish) (outcome : Resolved) (h : Handler)
    → Replied (finish_with lib f outcome h)
unfolding finish_with serve_reply
finish_with-Answers lib f (failed err up) h = serve_failure-Answers f err up h
finish_with-Answers lib f (resolved m up) h =
    let h' = note_missing_reply lib f m h in
    option_way Replied f.plan.old _ _ (check_answer-Answers lib f up m h') (λ hit.
      either_way Replied _ _ _ (serve_stale-Answers f up hit h')
        (check_answer-Answers lib f up m h'))

written-Answers :
    (f : Finish) (p : Handler × Option Response)
    → Replied p
    → is_written (written f p.1) ≡ not f.skip_write
unfolding Answers answers written is_written
written-Answers f (h, none) a = absurd (ground (arith, a))
written-Answers f (h, some x) a = elim (Bool-cases f.skip_write) [
  | inl skipped ↦ rw skipped refl
  | inr open' ↦ rw open' a
]

-- Each resolution that ends, with an answer or an error, whatever the checks of DNSSEC and of the
-- filter find, writes an answer, unless the client has been answered already; then it writes none.
pub finish_resolve-is_written :
    (lib : ServeLib) (f : Finish) (outcome : Resolved) (h : Handler)
    → is_written (finish_resolve lib f outcome h).1 ≡ not f.skip_write
unfolding finish_resolve
finish_resolve-is_written lib f outcome h =
    written-Answers f _ (finish_with-Answers lib f outcome h)
