-- ===== src/Serve/Banned.antt =====
-- internal/dnsserver/handler.go, internal/geoip/banner.go: clients that are banned.
use irongrid_dns.Prelude.{
  either_way, ℕ, ◌==◌, ◌≡◌, refl, ap, ◌∙◌, Bool, true, false, [], ◌∷◌, Option, none, some, inl, inr,
  arith, ltb, length, take, ◌*◌,
}
use irongrid_dns.Bytes.{GoString, is_empty, ascii, str_eq}
use irongrid_dns.Text.{lower}
use irongrid_dns.Banner.{Banner, BlockSource, by_ip, by_asn, blocked_as, canonical_domain}
use irongrid_dns.Serve.State.{
  silent, error, explained, cookie_error, Query, Question, Response, Settings, Handler, ServeLib,
}
use irongrid_dns.Serve.Guards.{
  is_udp, refuse, refuse_unless, check_acl, check_edns, recover, compare_cookie, check_cookie,
  check_rate, check_nx, check_repeat, note_repeat, banner_reason, refuse_blocked, check_client,
  check_honeypot, early_guards, late_guards, client_cookie_hex_len,
}
use irongrid_dns.Serve.Answers.{
  Next, own_answers, filter_and_cache, continue, answer, count_query, serve_question, serve,
}
use irongrid_dns.Serve.Kept.{option_way, early_guards-AllKeep, note_repeat-keeps}
use irongrid_dns.Serve.Says.{
  Says, Answers, AllSay, answers, quiet, written, answered, chain-Answers,
}
use irongrid_dns.Serve.Spoofed.{Banned, Banned-Closed}

-- An answer that says only that there is none.
unfoldable pub is_refusal : Response → Bool
is_refusal silent = true
is_refusal (error rcode) = true
is_refusal (explained rcode reason) = true
is_refusal (cookie_error cookie) = true
is_refusal _ = false

unfoldable pub is_refused : Next → Bool
is_refused (inl x) = is_refusal x
is_refused (inr plan) = false

abbrev Declines : Handler × Option Response → Type 0
Declines = Says is_refusal

refuse_unless-Says : (r : Query) (ok : Bool) (h : Handler) → Declines (refuse_unless r ok h)
unfolding refuse_unless refuse is_refusal
refuse_unless-Says r ok h = either_way Declines ok _ _ (quiet is_refusal h) (
    written is_refusal _ _
      (either_way (λ (x : Response). is_refusal x ≡ true) (is_udp r.proto) _ _ refl refl))

check_edns-Says : (r : Query) (h : Handler) → Declines (check_edns r h)
unfolding check_edns is_refusal
check_edns-Says r h =
    option_way Declines r.edns _ _ (quiet is_refusal h)
      (λ v. either_way Declines (v == 0) _ _ (quiet is_refusal h) (written is_refusal h _ refl))

compare_cookie-Says :
    (cookie expected : GoString) (h : Handler) → Declines (compare_cookie cookie expected h)
unfolding compare_cookie recover is_refusal
compare_cookie-Says cookie expected h =
    either_way Declines (ltb (length cookie) (2 * client_cookie_hex_len)) _ _
      (written is_refusal (recover h).0 _ refl)
      (either_way Declines
        (str_eq (lower (take (2 * client_cookie_hex_len) cookie)) (lower expected)) _ _
        (quiet is_refusal h) (written is_refusal h _ refl))

check_cookie-Says :
    (lib : ServeLib) (s : Settings) (r : Query) (h : Handler) → Declines (check_cookie lib s r h)
unfolding check_cookie
check_cookie-Says lib s r h =
    either_way Declines _ _ _ (compare_cookie-Says r.cookie _ h) (quiet is_refusal h)

check_rate-Says : (r : Query) (now : ℕ) (h : Handler) → Declines (check_rate r now h)
unfolding check_rate
check_rate-Says r now h =
    option_way Declines h.rate_limiter _ _ (quiet is_refusal h) (λ rl. refuse_unless-Says r _ _)

check_nx-Says :
    (lib : ServeLib) (r : Query) (now : ℕ) (h : Handler) → Declines (check_nx lib r now h)
unfolding check_nx
check_nx-Says lib r now h =
    option_way Declines h.nx_guard _ _ (quiet is_refusal h) (λ g. refuse_unless-Says r _ h)

check_repeat-Says : (r : Query) (now : ℕ) (h : Handler) → Declines (check_repeat r now h)
unfolding check_repeat
check_repeat-Says r now h =
    option_way Declines h.repeat_guard _ _ (quiet is_refusal h) (λ g. refuse_unless-Says r _ h)

early_guards-AllSay :
    (lib : ServeLib) (s : Settings) (r : Query) (now : ℕ)
    → AllSay is_refusal (early_guards lib s r now)
unfolding check_acl
early_guards-AllSay lib s r now = (
  refuse_unless-Says r _,
  (
    check_edns-Says r,
    (
      check_cookie-Says lib s r,
      (check_rate-Says r now, (check_nx-Says lib r now, (check_repeat-Says r now, tt))),
    ),
  ),
)

refuse_blocked-Answers :
    (r : Query) (q : Question) (qname action reason : GoString) (h : Handler)
    → Answers is_refusal (refuse_blocked r q qname action reason h)
unfolding refuse_blocked is_refusal
refuse_blocked-Answers r q qname action reason h =
    answered is_refusal _ _
      (option_way (λ (x : Response). is_refusal x ≡ true) r.edns _ _ refl (λ v. refl))

banner_reason-blocked :
    (lib : ServeLib) (b : Banner) (client : GoString) (src : BlockSource)
    → blocked_as lib.prefix b client ≡ some src
    → (reason : GoString) × (banner_reason lib (some b) client ≡ some reason)
unfolding banner_reason
banner_reason-blocked lib b client by_ip held =
    (ascii "blocked-client", rw (banner_reason, held) refl)
banner_reason-blocked lib b client by_asn held =
    (ascii "asn-blocked", rw (banner_reason, held) refl)

check_client-Answers :
    (lib : ServeLib) (s : Settings) (r : Query) (q : Question) (qname : GoString) (b : Banner)
    (src : BlockSource) (h : Handler)
    → is_empty r.client ≡ false
    → blocked_as lib.prefix b r.client ≡ some src
    → Banned (some b) h
    → Answers is_refusal (check_client lib s r q qname h)
unfolding check_client
check_client-Answers lib s r q qname b src h named held kept =
    let (reason, why) = banner_reason-blocked lib b r.client src held in
    rw (check_client, named, ap (λ o. banner_reason lib o r.client) kept ∙ why)
      (refuse_blocked-Answers r q qname (ascii "ip-blocked") reason h)

late_guards-Answers :
    (lib : ServeLib) (s : Settings) (r : Query) (q : Question) (qname : GoString) (now : ℕ)
    (b : Banner) (src : BlockSource) (h : Handler)
    → is_empty r.client ≡ false
    → blocked_as lib.prefix b r.client ≡ some src
    → Banned (some b) h
    → Answers is_refusal (late_guards lib s r q qname now h)
unfolding late_guards
late_guards-Answers lib s r q qname now b src h named held kept =
    chain-Answers is_refusal (Banned (some b)) (Banned (some b)) [] (check_client lib s r q qname)
      (check_honeypot lib s r qname now ∷ []) tt tt
      (λ h' k. check_client-Answers lib s r q qname b src h' named held k)
      (note_repeat s r qname now h)
      (note_repeat-keeps (Banned (some b)) (Banned (some b)) (Banned-Closed (some b)) s r qname now
        h kept)

continue-is_refused :
    (p : Handler × Option Response) (next : Handler → Handler × Next)
    → Answers is_refusal p
    → is_refused (continue p next).1 ≡ true
unfolding Answers answers is_refused
continue-is_refused (h, none) next a = absurd (ground (arith, a))
continue-is_refused (h, some x) next a = a

answer-is_refused :
    (lib : ServeLib) (s : Settings) (r : Query) (q : Question) (now : ℕ) (b : Banner)
    (src : BlockSource) (h : Handler)
    → is_empty r.client ≡ false
    → blocked_as lib.prefix b r.client ≡ some src
    → Banned (some b) h
    → is_refused (answer lib s r q now h).1 ≡ true
unfolding answer
answer-is_refused lib s r q now b src h named held kept =
    let qname = canonical_domain lib.prefix.unicode q.name in
    continue-is_refused _ (filter_and_cache lib s r q qname now) (
      chain-Answers is_refusal (Banned (some b)) (Banned (some b)) (early_guards lib s r now)
        (late_guards lib s r q qname now) (own_answers lib s r q qname)
        (early_guards-AllKeep (Banned (some b)) (Banned (some b)) (Banned-Closed (some b)) lib s r
          now)
        (early_guards-AllSay lib s r now)
        (λ h' k. late_guards-Answers lib s r q qname now b src h' named held k) h kept)

-- A query of a client with an address that the banner blocks is refused, over every protocol and
-- whatever it asks: neither the records of the server, nor the filter, the cache or an upstream
-- answers it.
pub serve-is_refused :
    (lib : ServeLib) (s : Settings) (r : Query) (now : ℕ) (b : Banner) (src : BlockSource)
    (h : Handler)
    → is_empty r.client ≡ false
    → blocked_as lib.prefix b r.client ≡ some src
    → h.ip_banner ≡ some b
    → is_refused (serve lib s r now h).1 ≡ true
unfolding serve serve_question count_query is_refused is_refusal
serve-is_refused lib s r now b src h named held kept = of_question r.question
  where
    of_question :
        (o : Option Question) → is_refused (serve_question lib s r now o (count_query h)).1 ≡ true
    of_question none = refl
    of_question (some q) = answer-is_refused lib s r q now b src (count_query h) named held kept
