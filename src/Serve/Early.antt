-- ===== src/Serve/Early.antt =====
-- internal/dnsserver/handler.go: queries that the first guards of `serve` end.
use irongrid_dns.Prelude.{
  ℕ, ◌≡◌, refl, ap, ◌∙◌, true, false, ◌*◌, List, ◌∷◌, ◌++◌, none, some, inl, ltb, length,
}
use irongrid_dns.Bytes.{is_empty}
use irongrid_dns.Banner.{canonical_domain}
use irongrid_dns.Clients.Acl.{allowed}
use irongrid_dns.Serve.State.{
  Query, Question, Response, error, Settings, Handler, ServeLib, Stage, resume, chain, count_error,
}
use irongrid_dns.Serve.Guards.{
  refuse_unless, check_acl, check_edns, recover, compare_cookie, check_cookie, guards,
  client_cookie_hex_len, rcode_server_failure,
}
use irongrid_dns.Serve.Answers.{
  own_answers, filter_and_cache, continue, answer, count_query, serve_question, serve,
}

chain-passed :
    (m : Stage) (ms : List Stage) (h : Handler) → m h ≡ (h, none) → chain (m ∷ ms) h ≡ chain ms h
unfolding chain
chain-passed m ms h passed = ap (λ p. resume p (chain ms)) passed

chain-stopped :
    (m : Stage) (ms : List Stage) (h h' : Handler) (x : Response)
    → m h ≡ (h', some x)
    → chain (m ∷ ms) h ≡ (h', some x)
unfolding chain
chain-stopped m ms h h' x stopped = ap (λ p. resume p (chain ms)) stopped

-- Where the guards stop a query, `serve` does.
serve-stopped :
    (lib : ServeLib) (s : Settings) (r : Query) (q : Question) (now : ℕ) (h h' : Handler)
    (x : Response)
    → r.question ≡ some q
    → chain
        (guards lib s r q now ++ own_answers lib s r q (canonical_domain lib.prefix.unicode q.name))
        (count_query h)
      ≡ (h', some x)
    → serve lib s r now h ≡ (h', inl x)
unfolding serve serve_question answer
serve-stopped lib s r q now h h' x asked stopped =
    ap (λ o. serve_question lib s r now o (count_query h)) asked
    ∙ ap
        (λ p.
          continue p (filter_and_cache lib s r q (canonical_domain lib.prefix.unicode q.name) now))
        stopped

-- A DNS cookie that is longer than the part of a client and shorter than 16 bytes, in a question
-- with an OPT record of version 0, of a client with an address that the access list admits, ends the
-- query with a SERVFAIL, where cookies are on: it is cut to 32 digits that it does not have. The rate
-- limiter and the other guards do not see it.
pub serve-short_cookie :
    (lib : ServeLib) (s : Settings) (r : Query) (q : Question) (now : ℕ) (h : Handler)
    → r.question ≡ some q
    → r.edns ≡ some 0
    → is_empty r.client ≡ false
    → allowed lib.net s.acl r.client ≡ true
    → s.cookies_on ≡ true
    → ltb client_cookie_hex_len (length r.cookie) ≡ true
    → ltb (length r.cookie) (2 * client_cookie_hex_len) ≡ true
    → serve lib s r now h ≡ (count_error (count_query h), inl (error rcode_server_failure))
unfolding check_acl refuse_unless check_edns check_cookie compare_cookie recover
serve-short_cookie lib s r q now h asked edns named admitted on long short =
    serve-stopped lib s r q now h _ _ asked (
      chain-passed (check_acl lib s r) _ (count_query h) (rw (check_acl, named, admitted) refl)
      ∙ chain-passed (check_edns r) _ (count_query h) (rw (check_edns, edns) refl)
      ∙ chain-stopped (check_cookie lib s r) _ (count_query h) _ _
          (rw (check_cookie, on, named, long, compare_cookie, short) refl))
