-- ===== src/Serve/Cached.antt =====
-- internal/dnsserver/handler.go: which answers are cached.
use irongrid_dns.Prelude.{
  either_way, ℕ, ◌≡◌, refl, ap, Bool, not, ◌&&◌, List, ◌∷◌, Option, none, some, if◌then◌else◌, inl,
  inr, Bool-cases,
}
use irongrid_dns.Bytes.{GoString}
use irongrid_dns.Serve.State.{
  Question, Response, passed_on, Handler, ServeLib, Stage, Reply, Hit, resume, chain, log_entry,
  count_allowed, count_blocked, count_cached, count_error,
}
use irongrid_dns.Serve.Answers.{is_meta_query}
use irongrid_dns.Serve.Finish.{
  Finish, resolved, note_missing_reply, serve_stale, write_cache, reject, block_answer, pass_on,
  check_answer, serve_reply, finish_with,
}
use irongrid_dns.Serve.Kept.{option_way}
use irongrid_dns.Serve.Checks.{check_dnssec-After, check_addresses-After, check_cnames-After}

-- Whether a resolution may write into the cache.
unfoldable pub may_write : Finish → Bool
may_write f = f.settings.has_cache && not (is_meta_query f.question) && f.has_slot

-- The writes after a response: one more where the answer is passed on.
unfoldable pub due_writes : Finish → Option Response → List (Question × ℕ) → List (Question × ℕ)
due_writes f (some (passed_on m)) ws = if may_write f then (f.question, m.rcode) ∷ ws else ws
due_writes f _ ws = ws

module _ (f : Finish) (ws : List (Question × ℕ)) where
  abbrev Before : Handler → Type 0
  Before h = h.cache_writes ≡ ws

  unfoldable After : Handler × Option Response → Type 0
  After p = p.0.cache_writes ≡ due_writes f p.1 ws

  quiet : (h : Handler) → Before h → After (h, none)
  unfolding After due_writes
  quiet h p = p

  rejected : (reason up : GoString) (h : Handler) → Before h → After (reject f reason up h)
  unfolding After due_writes reject log_entry count_error
  rejected reason up h p = p

  blocked : (reason up : GoString) (h : Handler) → Before h → After (block_answer f reason up h)
  unfolding After due_writes block_answer log_entry count_blocked
  blocked reason up h p = p

  serve_stale-After :
      (up : GoString) (hit : Hit) (h : Handler) → Before h → After (serve_stale f up hit h)
  unfolding After due_writes serve_stale log_entry count_cached
  serve_stale-After up hit h p = p

  pass_on-After : (up : GoString) (m : Reply) (h : Handler) → Before h → After (pass_on f up m h)
  unfolding After due_writes pass_on write_cache log_entry count_allowed may_write
  pass_on-After up m h p = elim (Bool-cases (may_write f)) [
    | inl free ↦ rw (write_cache, free) (ap (λ l. (f.question, m.rcode) ∷ l) p)
    | inr full ↦ rw (write_cache, full) p
  ]

  resume-After :
      (p : Handler × Option Response) (next : Stage)
      → After p
      → ((h : Handler) → Before h → After (next h))
      → After (resume p next)
  unfolding After due_writes
  resume-After (h, none) next a n = n h a
  resume-After (h, some x) next a n = a

  check_answer-After :
      (lib : ServeLib) (up : GoString) (m : Reply) (h : Handler)
      → Before h
      → After (check_answer lib f up m h)
  unfolding check_answer chain
  check_answer-After lib up m h p =
      resume-After _ _ (check_dnssec-After Before After f quiet rejected blocked up m h p) (λ h1 p1.
        resume-After _ _ (check_addresses-After Before After f quiet rejected blocked up m h1 p1)
          (λ h2 p2.
            resume-After _ _
              (check_cnames-After Before After f quiet rejected blocked lib up m h2 p2)
              (λ h3 p3. resume-After _ _ (pass_on-After up m h3 p3) quiet)))

  serve_reply-After :
      (lib : ServeLib) (up : GoString) (m : Reply) (h : Handler)
      → Before h
      → After (serve_reply lib f up m h)
  unfolding serve_reply
  serve_reply-After lib up m h p =
      option_way After f.plan.old _ _ (check_answer-After lib up m h p) (λ hit.
        either_way After _ _ _ (serve_stale-After up hit h p) (check_answer-After lib up m h p))

  note_missing_reply-Before :
      (lib : ServeLib) (m : Reply) (h : Handler) → Before h → Before (note_missing_reply lib f m h)
  unfolding note_missing_reply
  note_missing_reply-Before lib m h p =
      option_way Before h.nx_guard h _ p (λ g. either_way Before _ _ _ p p)

-- An answer of an upstream is written to the cache where it is passed on to the client, once and
-- with its own rcode, if a cache, an ordinary question and a free place for the write are there. An
-- answer that a check of DNSSEC or a rule on its addresses or aliases refuses, and one that gives
-- way to an old answer of the cache, is never written.
pub finish_with-cache_writes :
    (lib : ServeLib) (f : Finish) (m : Reply) (up : GoString) (h : Handler)
    → (finish_with lib f (resolved m up) h).0.cache_writes
      ≡ due_writes f (finish_with lib f (resolved m up) h).1 h.cache_writes
unfolding finish_with After
finish_with-cache_writes lib f m up h =
    serve_reply-After f h.cache_writes lib up m (note_missing_reply lib f m h)
      (note_missing_reply-Before f h.cache_writes lib m h refl)
