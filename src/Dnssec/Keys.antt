-- ===== src/Dnssec/Keys.antt =====
-- internal/dnssec/validate.go: keys, signatures and the digests that stand for keys. The records
-- and the cryptography are those of the DNS library.
use irongrid_dns.Prelude.{
  ℕ, Bool, false, not, ◌&&◌, ◌||◌, List, [], ◌∷◌, Option, none, some, ◌==◌, ltb, if◌then◌else◌, ◌*◌,
}
use irongrid_dns.Bytes.{GoString, str_eq}
use irongrid_dns.Text.{lower}
use irongrid_dns.Clock.{second, minute}

-- `dns.DNSKEY`
pub record Dnskey : Type 0 where
  pub algorithm : ℕ
  pub key_tag : ℕ
  pub public_key : GoString

-- `dns.DS`
pub record Ds : Type 0 where
  pub key_tag : ℕ
  pub algorithm : ℕ
  pub digest_type : ℕ
  pub digest : GoString

-- `dns.RRSIG`
pub record Rrsig : Type 0 where
  pub owner : GoString
  pub type_covered : ℕ
  pub algorithm : ℕ
  pub key_tag : ℕ
  pub signer_name : GoString
  pub signature : GoString

-- `dns.NSEC`
pub record Nsec : Type 0 where
  pub owner : GoString
  pub next_domain : GoString
  pub type_bitmap : List ℕ

-- `dns.NSEC3`
pub record Nsec3 : Type 0 where
  pub owner : GoString
  pub next_hash : GoString
  pub type_bitmap : List ℕ

-- A record, by its type; the number is its TTL.
pub data Rr : Type 0 where
  dnskey_rr : Dnskey → ℕ → Rr
  ds_rr : Ds → ℕ → Rr
  rrsig_rr : Rrsig → ℕ → Rr
  nsec_rr : Nsec → ℕ → Rr
  nsec3_rr : Nsec3 → ℕ → Rr
  other_rr : ℕ → GoString → ℕ → Rr

abbrev pub type_ds : ℕ
type_ds = 43

abbrev pub type_rrsig : ℕ
type_rrsig = 46

abbrev pub type_nsec : ℕ
type_nsec = 47

abbrev pub type_dnskey : ℕ
type_dnskey = 48

abbrev pub type_nsec3 : ℕ
type_nsec3 = 50

-- `rr.Header().Rrtype`
unfoldable pub rr_type : Rr → ℕ
rr_type (dnskey_rr _ _) = type_dnskey
rr_type (ds_rr _ _) = type_ds
rr_type (rrsig_rr _ _) = type_rrsig
rr_type (nsec_rr _ _) = type_nsec
rr_type (nsec3_rr _ _) = type_nsec3
rr_type (other_rr t _ _) = t

-- `dns.Msg`
pub record Msg : Type 0 where
  pub rcode : ℕ
  pub question : List (GoString × ℕ)
  pub answer : List Rr
  pub ns : List Rr

-- What the validator uses of the DNS library and of the network: `ToDS` (`none` for nil), `Verify`
-- without an error, `ValidityPeriod` at a time, `Match` and `Cover` of NSEC3, `Fqdn`,
-- `SplitDomainName`, and the answer of the upstream to a question (`none` for an error).
pub record DnsLib : Type 0 where
  pub to_ds : Dnskey → ℕ → Option Ds
  pub verify : Rrsig → Dnskey → List Rr → Bool
  pub in_period : Rrsig → ℕ → Bool
  pub match3 : Nsec3 → GoString → Bool
  pub cover3 : Nsec3 → GoString → Bool
  pub fqdn : GoString → GoString
  pub labels : GoString → List GoString
  pub query : GoString → ℕ → Option Msg

-- `splitAnswer`: the keys, the records of a type, and the signatures that cover a type.
unfoldable pub keys_of : List Rr → List Dnskey
keys_of [] = []
keys_of (dnskey_rr k _ ∷ rrs) = k ∷ keys_of rrs
keys_of (_ ∷ rrs) = keys_of rrs

unfoldable pub ds_of : List Rr → List Ds
ds_of [] = []
ds_of (ds_rr d _ ∷ rrs) = d ∷ ds_of rrs
ds_of (_ ∷ rrs) = ds_of rrs

unfoldable pub rrs_of : ℕ → List Rr → List Rr
rrs_of t [] = []
rrs_of t (rr ∷ rrs) = if rr_type rr == t then rr ∷ rrs_of t rrs else rrs_of t rrs

unfoldable pub sigs_of : ℕ → List Rr → List Rrsig
sigs_of t [] = []
sigs_of t (rrsig_rr s _ ∷ rrs) = if s.type_covered == t then s ∷ sigs_of t rrs else sigs_of t rrs
sigs_of t (_ ∷ rrs) = sigs_of t rrs

-- `verifySigned`
unfoldable pub verify_with : DnsLib → Rrsig → List Rr → List Dnskey → Bool
verify_with lib sig rrset [] = false
verify_with lib sig rrset (k ∷ ks) =
    if not (k.algorithm == sig.algorithm) || not (k.key_tag == sig.key_tag)
    then verify_with lib sig rrset ks
    else lib.verify sig k rrset || verify_with lib sig rrset ks

unfoldable pub verify_signed : DnsLib → ℕ → Rrsig → List Rr → List Dnskey → Bool
verify_signed lib now sig rrset keys =
    if not (lib.in_period sig now) then false else verify_with lib sig rrset keys

-- `verifySignedAny`
unfoldable pub verify_signed_any : DnsLib → ℕ → List Rrsig → List Rr → List Dnskey → Bool
verify_signed_any lib now [] rrset keys = false
verify_signed_any lib now (sig ∷ sigs) rrset keys =
    verify_signed lib now sig rrset keys || verify_signed_any lib now sigs rrset keys

-- The test of a key against a digest; `strings.EqualFold` on hexadecimal digits.
unfoldable pub is_digest_of : Option Ds → ℕ → ℕ → GoString → Bool
is_digest_of none tag algorithm digest = false
is_digest_of (some cand) tag algorithm digest =
    cand.key_tag == tag && cand.algorithm == algorithm && str_eq (lower cand.digest) (lower digest)

-- The inner loops of `matchDS` and `verifyAgainstAnchors`.
unfoldable pub find_key : DnsLib → ℕ → ℕ → ℕ → GoString → List Dnskey → Option Dnskey
find_key lib digest_type tag algorithm digest [] = none
find_key lib digest_type tag algorithm digest (k ∷ ks) =
    if is_digest_of (lib.to_ds k digest_type) tag algorithm digest
    then some k
    else find_key lib digest_type tag algorithm digest ks

-- `matchDS`
unfoldable pub match_ds : DnsLib → List Dnskey → List Ds → Option Dnskey
match_ds lib keys [] = none
match_ds lib keys (ds ∷ dss) =
    elim (find_key lib ds.digest_type ds.key_tag ds.algorithm ds.digest keys) [
      | some k ↦ some k
      | none ↦ match_ds lib keys dss
    ]

-- `minZoneKeyTTL` and `maxZoneKeyTTL`
abbrev pub min_zone_key_ttl : ℕ
min_zone_key_ttl = 5 * minute

abbrev pub max_zone_key_ttl : ℕ
max_zone_key_ttl = 24 * (60 * minute)

-- The loop of `zoneKeyTTL`, with the minimum so far.
unfoldable pub least_ttl : ℕ → List Rr → ℕ
least_ttl least [] = least
least_ttl least (dnskey_rr _ ttl ∷ rrs) =
    least_ttl (if least == 0 || ltb ttl least then ttl else least) rrs
least_ttl least (_ ∷ rrs) = least_ttl least rrs

-- `zoneKeyTTL`
unfoldable pub zone_key_ttl : List Rr → ℕ
zone_key_ttl rrs =
    let d = least_ttl 0 rrs * second in
    if ltb d min_zone_key_ttl
    then min_zone_key_ttl
    else if ltb max_zone_key_ttl d
    then max_zone_key_ttl
    else d
