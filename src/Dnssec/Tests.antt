-- ===== src/Dnssec/Tests.antt =====
-- Tests and worked examples of the DNSSEC validator (internal/dnssec).
use irongrid_dns.Prelude.{
  ℕ, ◌≡◌, refl, sym, ap, Option, inl, true, false, List, [], ◌∷◌, none, some, length, replicate,
  arith,
}
use irongrid_dns.Bytes.{ascii, str_eq}
use irongrid_dns.Text.{lower, split}
use irongrid_dns.Shards.Table.{lookup}
use irongrid_dns.Dnssec.Keys.{
  DnsLib, Dnskey, Ds, Rr, Rrsig, Msg, rr_type, keys_of, rrs_of, sigs_of, verify_with, verify_signed,
  verify_signed_any, is_digest_of, find_key,
}
use irongrid_dns.Dnssec.Anchors.{
  TrustAnchor, default_root_anchors, find_anchored, verify_against_anchors,
}
use irongrid_dns.Dnssec.Bundled.{IsSha256, bundled_never}
use irongrid_dns.Dnssec.Zones.{
  ZoneResult, cached_zone, is_nil, check_keys, fetch_zone_keys, zone_keys,
}
use irongrid_dns.Dnssec.Trust.{IsTrusting, IsSound, zone_keys-IsSound}
use irongrid_dns.Dnssec.Denial.{keys_at}
use irongrid_dns.Dnssec.Validate.{
  secure_answer, all_sigs, is_sig, by_type, judge, check_sigs, validate,
}
use irongrid_dns.Dnssec.Answers.{IsVerified, validate-CoverNothing, validate-IsVerified}

-- The key of the root, and its signature.
abbrev root_key : Dnskey
root_key = record { algorithm = 8; key_tag = 1; public_key = [] }

abbrev root_sig : Rrsig
root_sig = record {
  owner = ascii ".";
  type_covered = 48;
  algorithm = 8;
  key_tag = 1;
  signer_name = ascii ".";
  signature = [];
}

-- A digest of 64 digits for each key, signatures that all verify, and a root with its key.
abbrev plain_lib : DnsLib
plain_lib = record {
  to_ds = λ k t. some (record {
    key_tag = k.key_tag;
    algorithm = k.algorithm;
    digest_type = t;
    digest = replicate 64 48;
  });
  verify = λ _ _ _. true;
  in_period = λ _ _. true;
  match3 = λ _ _. false;
  cover3 = λ _ _. false;
  fqdn = λ s. s;
  labels = λ s. split s 46;
  query = λ zone t. some (record {
    rcode = 0;
    question = [];
    answer = Rr.dnskey_rr root_key 3600 ∷ Rr.rrsig_rr root_sig 3600 ∷ [];
    ns = [];
  });
}

abbrev root_anchors : List TrustAnchor
root_anchors =
    record {
      zone = ascii ".";
      key_tag = 1;
      algorithm = 8;
      digest_type = 2;
      digest = replicate 64 48;
    }
    ∷ []

plain_lib-IsSha256 : IsSha256 plain_lib
plain_lib-IsSha256 = record { digits = λ k ds e. same k ds e }
  where
    same : (k : Dnskey) (ds : Ds) → plain_lib.to_ds k 2 ≡ some ds → length ds.digest ≡ 64
    same k ds e = sym (ap digest_length e)
      where
        digest_length : Option Ds → ℕ
        digest_length none = 64
        digest_length (some d) = length d.digest

bundled_never_example :
    verify_against_anchors plain_lib 0 (root_key ∷ []) (root_sig ∷ []) [] default_root_anchors
    ≡ false
bundled_never_example =
    bundled_never plain_lib 0 (root_key ∷ []) (root_sig ∷ []) [] plain_lib-IsSha256

-- An empty cache has no secure entry.
empty-IsTrusting : IsTrusting plain_lib root_anchors []
unfolding lookup
empty-IsTrusting = record { entries = λ zone e held. absurd (ground (arith, held)) }

zone_keys-IsSound_example :
    IsSound plain_lib root_anchors
      (ascii ".")
      (zone_keys 21 plain_lib root_anchors 0 (ascii ".") [])
zone_keys-IsSound_example =
    zone_keys-IsSound plain_lib root_anchors 21 0 (ascii ".") [] empty-IsTrusting

-- The walk finds the key of the root, and calls it secure.
root_is_secure :
    (zone_keys 21 plain_lib root_anchors 0 (ascii ".") []).1 ≡ ZoneResult.found (root_key ∷ []) true
unfolding zone_keys cached_zone lookup fetch_zone_keys check_keys keys_of is_nil str_eq
    verify_against_anchors find_anchored find_key is_digest_of lower verify_signed_any verify_signed
    verify_with rrs_of rr_type sigs_of
root_is_secure = refl

-- An address that nothing signs, beside a signature of a type that is not in the answer.
abbrev stray_answer : Msg
stray_answer = record {
  rcode = 0;
  question = [];
  answer = Rr.other_rr 1 (ascii "6.6.6.6") 60 ∷ Rr.rrsig_rr root_sig 60 ∷ [];
  ns = [];
}

validate-CoverNothing_example :
    validate plain_lib root_anchors 0 stray_answer [] ≡ ([], secure_answer)
unfolding is_nil all_sigs by_type rr_type is_sig
validate-CoverNothing_example =
    validate-CoverNothing plain_lib root_anchors 0 stray_answer [] refl (refl, tt)

-- The root's key with its signature.
abbrev root_answer : Msg
root_answer = record {
  rcode = 0;
  question = [];
  answer = Rr.dnskey_rr root_key 3600 ∷ Rr.rrsig_rr root_sig 3600 ∷ [];
  ns = [];
}

validate-IsVerified_example : IsVerified plain_lib root_anchors 0 root_answer.answer root_sig
unfolding validate check_sigs judge keys_at by_type is_sig all_sigs zone_keys cached_zone lookup
    fetch_zone_keys check_keys keys_of is_nil str_eq verify_against_anchors find_anchored find_key
    is_digest_of lower verify_signed_any verify_signed verify_with rrs_of rr_type sigs_of
validate-IsVerified_example =
    validate-IsVerified plain_lib root_anchors 0 root_answer [] root_sig empty-IsTrusting refl
      (inl refl) refl
