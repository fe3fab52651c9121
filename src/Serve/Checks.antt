-- ===== src/Serve/Checks.antt =====
-- internal/dnsserver/handler.go: what holds after the checks of an answer.
use irongrid_dns.Prelude.{either_way, Bool, true, not, Option, none}
use irongrid_dns.Bytes.{GoString}
use irongrid_dns.Filter.Decide.{check_ips}
use irongrid_dns.Serve.State.{Response, Handler, ServeLib, Reply}
use irongrid_dns.Serve.Finish.{
  Finish, Validity, incomplete, unsigned, insecure, secure, reject, check_ad, judge_validity,
  upstream_by_name, check_locally, check_dnssec, block_answer, cname_cloak_check, check_addresses,
  check_cnames,
}
use irongrid_dns.Serve.Kept.{option_way}

-- What holds before a part, and what holds after it, where it passes the answer on, refuses it or
-- blocks it.
module _ (Before : Handler → Type 0) (After : Handler × Option Response → Type 0) (f : Finish)
    (quiet : (h : Handler) → Before h → After (h, none))
    (rejected : (reason up : GoString) (h : Handler) → Before h → After (reject f reason up h))
    (blocked : (reason up : GoString) (h : Handler)
      → Before h
      → After (block_answer f reason up h)) where
  check_ad-After : (up : GoString) (ad : Bool) (h : Handler) → Before h → After (check_ad f up ad h)
  unfolding check_ad
  check_ad-After up ad h p = either_way After _ _ _ (rejected _ up h p) (quiet h p)

  judge_validity-After :
      (up : GoString) (m : Reply) (v : Validity) (h : Handler)
      → Before h
      → After (judge_validity f up m v h)
  unfolding judge_validity
  judge_validity-After up m incomplete h p = check_ad-After up m.is_authenticated h p
  judge_validity-After up m unsigned h p = check_ad-After up m.is_authenticated h p
  judge_validity-After up m insecure h p = rejected _ up h p
  judge_validity-After up m secure h p = check_ad-After up true h p

  check_locally-After :
      (up : GoString) (m : Reply) (h : Handler) → Before h → After (check_locally f up m h)
  unfolding check_locally
  check_locally-After up m h p =
      option_way After f.validator _ _ (check_ad-After up m.is_authenticated h p) (λ validate.
        option_way After (upstream_by_name f.settings.upstreams up) _ _
          (check_ad-After up m.is_authenticated h p)
          (λ u. judge_validity-After up m (validate u m) h p))

  pub check_dnssec-After :
      (up : GoString) (m : Reply) (h : Handler) → Before h → After (check_dnssec f up m h)
  unfolding check_dnssec
  check_dnssec-After up m h p = either_way After (not f.settings.dnssec_enabled) _ _ (quiet h p) (
      either_way After f.settings.dnssec_validate_locally _ _ (check_locally-After up m h p)
        (check_ad-After up m.is_authenticated h p))

  pub check_addresses-After :
      (up : GoString) (m : Reply) (h : Handler) → Before h → After (check_addresses f up m h)
  unfolding check_addresses
  check_addresses-After up m h p =
      either_way After _ _ _
        (option_way After (check_ips f.plan.engine.rs m.ips) _ _ (quiet h p)
          (λ reason. blocked reason up h p))
        (quiet h p)

  pub check_cnames-After :
      (lib : ServeLib) (up : GoString) (m : Reply) (h : Handler)
      → Before h
      → After (check_cnames lib f up m h)
  unfolding check_cnames
  check_cnames-After lib up m h p =
      either_way After _ _ _
        (option_way After (cname_cloak_check lib f.plan.engine m.cnames) _ _ (quiet h p)
          (λ reason. blocked reason up h p))
        (quiet h p)
