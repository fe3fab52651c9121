-- ===== src/Serve/Trapped.antt =====
-- internal/dnsserver/handler.go, internal/geoip/banner.go: clients that ask for a trap.
use irongrid_dns.Prelude.{
  ℕ, ◌≡◌, refl, ap, ◌∙◌, true, false, ◌||◌, List, Option, none, some, if◌then◌else◌,
}
use irongrid_dns.Bytes.{GoString, is_empty}
use irongrid_dns.Text.{trim_space}
use irongrid_dns.Banner.{Banner, by_ip, blocked_as, block, is_allowed, lookup_honeypot, new_banner}
use irongrid_dns.Banner.Invariant.{Call, call_all}
use irongrid_dns.Banner.Bans.{IsHost, block-blocked_as}
use irongrid_dns.Serve.State.{Query, Response, Settings, Handler, ServeLib}
use irongrid_dns.Serve.Guards.{is_trusted, refuse, punish, count_honeypot, check_honeypot}
use irongrid_dns.Serve.Answers.{serve}
use irongrid_dns.Serve.Banned.{is_refused, serve-is_refused}
use irongrid_dns.Serve.Spoofed.{all_spoofable, run-ip_banner}
use irongrid_dns.Serve.Steps.{Step, run, idle}

-- What the part of `serve` about traps does with a banner.
abbrev sprung :
    ServeLib → Settings → Query → GoString → ℕ → Handler → Option Banner → Handler × Option Response
sprung lib s r qname now h o = elim o [
  | none ↦ (h, none)
  | some b ↦
      if lookup_honeypot b qname
      then (count_honeypot (punish lib s r now b h), some (refuse r))
      else (h, none)
]

module _ (lib : ServeLib) (s : Settings) (r : Query) (qname : GoString) (now : ℕ) (h : Handler)
    (b : Banner) where
  check_honeypot-ip_banner :
      is_empty r.client ≡ false
      → (is_trusted r.proto || s.trust_udp) ≡ true
      → lookup_honeypot b qname ≡ true
      → h.ip_banner ≡ some b
      → (check_honeypot lib s r qname now h).0.ip_banner ≡ some (block lib.prefix r.client b).0
  unfolding check_honeypot punish count_honeypot
  check_honeypot-ip_banner named trusted trap kept =
      ap (λ o. (sprung lib s r qname now h o).0.ip_banner) kept
      ∙ rw (trap, punish, named, trusted) refl

-- A client that asks for a trap over a transport that is trusted is refused from then on: after its
-- query was answered by the traps, and any queries over UDP, where it is not trusted, every query
-- of the same address is refused, over every protocol and with all settings. The address is in its
-- own form, and neither the allowlist of the banner nor an allowed provider holds it.
pub check_honeypot-is_refused :
    (lib : ServeLib) (s s' : Settings) (r r' : Query) (qname : GoString) (now later : ℕ)
    (h : Handler) (path : GoString) (file allowlist ips honeypots : List GoString) (cs : List Call)
    (steps : List Step)
    → h.ip_banner
      ≡ some (call_all lib.prefix cs (new_banner lib.prefix path file allowlist ips honeypots))
    → lookup_honeypot
        (call_all lib.prefix cs (new_banner lib.prefix path file allowlist ips honeypots))
        qname
      ≡ true
    → (is_trusted r.proto || s.trust_udp) ≡ true
    → trim_space lib.prefix.unicode r.client ≡ r.client
    → IsHost lib.prefix r.client
    → is_allowed
        (call_all lib.prefix cs (new_banner lib.prefix path file allowlist ips honeypots))
        r.client
      ≡ false
    → r'.client ≡ r.client
    → all_spoofable steps ≡ true
    → is_refused
        (serve lib s' r' later
          (run lib steps (idle (check_honeypot lib s r qname now h).0)).handler).1
      ≡ true
unfolding idle
check_honeypot-is_refused lib s s' r r' qname now later h path file allowlist ips honeypots cs steps
      kept trap trusted plain host off same forged =
    let b = call_all lib.prefix cs (new_banner lib.prefix path file allowlist ips honeypots) in
    serve-is_refused lib s' r' later (block lib.prefix r.client b).0 by_ip _
      (ap is_empty same ∙ host.0)
      (ap (blocked_as lib.prefix (block lib.prefix r.client b).0) same
        ∙ block-blocked_as lib.prefix path file allowlist ips honeypots cs r.client r.client
            (ap lib.prefix.parse_ip plain ∙ host.1) host off)
      (run-ip_banner lib steps (idle (check_honeypot lib s r qname now h).0) forged
        ∙ check_honeypot-ip_banner lib s r qname now h b host.0 trusted trap kept)
