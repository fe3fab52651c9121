-- ===== src/Dnssec/Bundled.antt =====
-- internal/dnssec/anchor.go: what the bundled anchor of the root is good for.
use irongrid_dns.Prelude.{
  ℕ, ◌≡◌, refl, sym, ap, ◌∙◌, ◌≢◌, inl, inr, Bool, false, ◌&&◌, List, [], ◌∷◌, none, some, ◌==◌,
  arith, length, Bool-cases, Option-cases,
}
use irongrid_dns.Bytes.{GoString, str_eq, str_eq_sound, ascii}
use irongrid_dns.Text.{lower}
use irongrid_dns.Dnssec.Keys.{DnsLib, Dnskey, Ds, Rr, Rrsig, find_key, is_digest_of}
use irongrid_dns.Dnssec.Anchors.{default_root_anchors, find_anchored, verify_against_anchors}

-- A digest of SHA-256 has 64 hexadecimal digits.
pub record IsSha256 (lib : DnsLib) : Type 0 where
  pub digits : (k : Dnskey) (ds : Ds) → lib.to_ds k 2 ≡ some ds → length ds.digest ≡ 64

length-lower : (s : GoString) → length (lower s) ≡ length s
unfolding lower
length-lower [] = refl
length-lower (c ∷ s) = omega (arith, length-lower s)

other_length : (a b : GoString) → length a ≢ length b → str_eq (lower a) (lower b) ≡ false
other_length a b ne = elim (Bool-cases (str_eq (lower a) (lower b))) [
  | inr other ↦ other
  | inl same ↦ absurd (
      ne
        (sym (length-lower a) ∙ ap length (str_eq_sound (lower a) (lower b) same) ∙ length-lower b))
]

other_digest :
    (lib : DnsLib) (tag algorithm : ℕ) (digest : GoString)
    → IsSha256 lib
    → 64 ≢ length digest
    → (k : Dnskey) → is_digest_of (lib.to_ds k 2) tag algorithm digest ≡ false
unfolding is_digest_of
other_digest lib tag algorithm digest sha ne k = elim (Option-cases (lib.to_ds k 2)) [
  | inl unknown ↦ rw (is_digest_of, unknown) refl
  | inr (cand, e) ↦
      rw
        (is_digest_of, e, other_length cand.digest digest (λ l. ne (sym (sha.digits k cand e) ∙ l)))
        (none_left (cand.key_tag == tag) (cand.algorithm == algorithm))
]
  where
    none_left : (a b : Bool) → (a && b && false) ≡ false
    none_left a b = ground arith

find_key-none :
    (lib : DnsLib) (tag algorithm : ℕ) (digest : GoString)
    → IsSha256 lib
    → 64 ≢ length digest
    → (keys : List Dnskey) → find_key lib 2 tag algorithm digest keys ≡ none
unfolding find_key
find_key-none lib tag algorithm digest sha ne [] = refl
find_key-none lib tag algorithm digest sha ne (k ∷ ks) =
    rw (other_digest lib tag algorithm digest sha ne k)
      (find_key-none lib tag algorithm digest sha ne ks)

-- No key set of the root is trusted through the bundled anchor, whatever signatures it has, where
-- the digests of SHA-256 have their 64 digits: the digest of the anchor has 63.
pub bundled_never :
    (lib : DnsLib) (now : ℕ) (keys : List Dnskey) (sigs : List Rrsig) (rrset : List Rr)
    → IsSha256 lib
    → verify_against_anchors lib now keys sigs rrset default_root_anchors ≡ false
unfolding verify_against_anchors find_anchored
bundled_never lib now keys sigs rrset sha =
    rw
      (
        verify_against_anchors,
        find_anchored,
        find_key-none lib 20326 8
            (ascii "E06D44B80B8F1D39A95C0B0D7C65D08458E880409BBC683457104237C7F8EC8") sha
            (λ e. ground (arith, e)) keys,
      )
      refl
