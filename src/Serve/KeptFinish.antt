-- ===== src/Serve/KeptFinish.antt =====
-- internal/dnsserver/handler.go: what `finishResolve` keeps of the handler.
use irongrid_dns.Prelude.{either_way, ℕ, Option, none, some}
use irongrid_dns.Bytes.{GoString}
use irongrid_dns.Serve.State.{Response, Handler, ServeLib, Hit, Reply, log_entry}
use irongrid_dns.Serve.Finish.{
  Finish, Resolved, failed, resolved, note_missing_reply, serve_stale, write_cache, serve_failure,
  reject, block_answer, pass_on, check_answer, serve_reply, finish_with, finish_resolve,
}
use irongrid_dns.Serve.Kept.{Closed, option_way, Holds, still, over, Keeps, chain-Keeps}
use irongrid_dns.Serve.Checks.{check_dnssec-After, check_addresses-After, check_cnames-After}

module _ (Open Done : Handler → Type 0) (c : Closed Open Done) where
  abbrev Kept : Handler × Option Response → Type 0
  Kept = Holds Open Done

  note_missing_reply-keeps :
      (lib : ServeLib) (f : Finish) (m : Reply) (h : Handler)
      → Open h
      → Open (note_missing_reply lib f m h)
  unfolding note_missing_reply
  note_missing_reply-keeps lib f m h p =
      option_way Open h.nx_guard h _ p (λ g. either_way Open _ _ _ (c.nx h _ p) p)

  write_cache-keeps : (f : Finish) (rcode : ℕ) (h : Handler) → Done h → Done (write_cache f rcode h)
  unfolding write_cache
  write_cache-keeps f rcode h p = either_way Done _ _ _ (c.cache h _ p) p

  pub serve_stale-keeps :
      (f : Finish) (up : GoString) (hit : Hit) (h : Handler)
      → Open h
      → Done (serve_stale f up hit h).0
  unfolding serve_stale log_entry
  serve_stale-keeps f up hit h p = c.logged _ _ (c.cached h p)

  serve_stale-Keeps :
      (f : Finish) (up : GoString) (hit : Hit) → Keeps Open Done (serve_stale f up hit)
  unfolding serve_stale
  serve_stale-Keeps f up hit h p = over Open Done _ _ (serve_stale-keeps f up hit h p)

  serve_failure-Keeps : (f : Finish) (err up : GoString) → Keeps Open Done (serve_failure f err up)
  unfolding serve_failure log_entry
  serve_failure-Keeps f err up h p =
      option_way Kept f.plan.old _ _
        (over Open Done _ _ (write_cache-keeps f _ _ (c.logged _ _ (c.error h p))))
        (λ hit. serve_stale-Keeps f up hit h p)

  reject-Keeps : (f : Finish) (reason up : GoString) → Keeps Open Done (reject f reason up)
  unfolding reject log_entry
  reject-Keeps f reason up h p = over Open Done _ _ (c.logged _ _ (c.error h p))

  block_answer-Keeps :
      (f : Finish) (reason up : GoString) → Keeps Open Done (block_answer f reason up)
  unfolding block_answer log_entry
  block_answer-Keeps f reason up h p = over Open Done _ _ (c.logged _ _ (c.blocked h p))

  pass_on-Keeps : (f : Finish) (up : GoString) (m : Reply) → Keeps Open Done (pass_on f up m)
  unfolding pass_on log_entry
  pass_on-Keeps f up m h p =
      over Open Done _ _ (write_cache-keeps f m.rcode _ (c.logged _ _ (c.allowed h p)))

  check_answer-Keeps :
      (lib : ServeLib) (f : Finish) (up : GoString) (m : Reply)
      → Keeps Open Done (check_answer lib f up m)
  unfolding check_answer
  check_answer-Keeps lib f up m = chain-Keeps Open Done _ (
    check_dnssec-After Open Kept f (still Open Done) (reject-Keeps f) (block_answer-Keeps f) up m,
    (
      check_addresses-After Open Kept f (still Open Done) (reject-Keeps f) (block_answer-Keeps f) up
          m,
      (
        check_cnames-After Open Kept f (still Open Done) (reject-Keeps f) (block_answer-Keeps f) lib
            up m,
        (pass_on-Keeps f up m, tt),
      ),
    ),
  )

  serve_reply-Keeps :
      (lib : ServeLib) (f : Finish) (up : GoString) (m : Reply)
      → Keeps Open Done (serve_reply lib f up m)
  unfolding serve_reply
  serve_reply-Keeps lib f up m h p =
      option_way Kept f.plan.old _ _ (check_answer-Keeps lib f up m h p) (λ hit.
        either_way Kept _ _ _ (serve_stale-Keeps f up hit h p) (check_answer-Keeps lib f up m h p))

  finish_with-Keeps :
      (lib : ServeLib) (f : Finish) (outcome : Resolved)
      → Keeps Open Done (finish_with lib f outcome)
  unfolding finish_with
  finish_with-Keeps lib f (failed err up) h p = serve_failure-Keeps f err up h p
  finish_with-Keeps lib f (resolved m up) h p =
      serve_reply-Keeps lib f up m _ (note_missing_reply-keeps lib f m h p)

  Holds-done : (x : Handler × Option Response) → Kept x → Done x.0
  unfolding Holds
  Holds-done (h, none) p = c.stop h p
  Holds-done (h, some x) p = p

  -- What all that a resolution changes keeps, `finishResolve` keeps.
  pub finish_resolve-keeps :
      (lib : ServeLib) (f : Finish) (outcome : Resolved) (h : Handler)
      → Open h
      → Done (finish_resolve lib f outcome h).0
  unfolding finish_resolve
  finish_resolve-keeps lib f outcome h p = Holds-done _ (finish_with-Keeps lib f outcome h p)
