-- ===== src/Dnssec/Answers.antt =====
-- internal/dnssec/validate.go: what a secure answer has been checked for.
use irongrid_dns.Prelude.{
  ℕ, ◌+◌, ◌≡◌, refl, sym, ap, subst, ◌∙◌, ◌⊎◌, inl, inr, Bool, true, false, List, [], ◌∷◌, Option,
  none, some, arith, if◌then◌else◌, Bool-cases, Option-cases,
}
use irongrid_dns.Bytes.{GoString}
use irongrid_dns.Dnssec.Keys.{DnsLib, Dnskey, Rr, Rrsig, Msg, verify_signed}
use irongrid_dns.Dnssec.Anchors.{TrustAnchor}
use irongrid_dns.Dnssec.Zones.{ZoneCache, ZoneResult, is_nil, max_chain_depth}
use irongrid_dns.Dnssec.Trust.{Trusted, IsTrusting, IsSound, zone_keys-IsSound}
use irongrid_dns.Dnssec.Denial.{keys_at}
use irongrid_dns.Dnssec.Validate.{
  Validation, secure_answer, not_secure, not_checked, all_sigs, by_type, judge, check_sigs,
  validate,
}

-- A signature stands in a list.
abbrev pub SigIn : Rrsig → List Rrsig → Type 0
SigIn s [] = ⊥
SigIn s (x ∷ xs) = (x ≡ s) ⊎ SigIn s xs

-- Every signature covers a type of which the answer has no record.
abbrev pub CoverNothing : List Rr → List Rrsig → Type 0
CoverNothing answer [] = Unit
CoverNothing answer (sig ∷ sigs) =
    (is_nil (by_type sig.type_covered answer) ≡ true) × CoverNothing answer sigs

check_sigs-CoverNothing :
    (lib : DnsLib) (anchors : List TrustAnchor) (now : ℕ) (answer : List Rr) (sigs : List Rrsig)
    (c : ZoneCache)
    → CoverNothing answer sigs
    → check_sigs lib anchors now answer sigs c ≡ (c, secure_answer)
unfolding check_sigs
check_sigs-CoverNothing lib anchors now answer [] c h = refl
check_sigs-CoverNothing lib anchors now answer (sig ∷ sigs) c h =
    rw (check_sigs, h.0) (check_sigs-CoverNothing lib anchors now answer sigs c h.1)

-- An answer with signatures that all cover types of which it has no record is called secure,
-- whatever its records are, and no key is asked for.
pub validate-CoverNothing :
    (lib : DnsLib) (anchors : List TrustAnchor) (now : ℕ) (resp : Msg) (c : ZoneCache)
    → is_nil (all_sigs resp.answer) ≡ false
    → CoverNothing resp.answer (all_sigs resp.answer)
    → validate lib anchors now resp c ≡ (c, secure_answer)
unfolding validate
validate-CoverNothing lib anchors now resp c signed h =
    rw (validate, signed) (check_sigs-CoverNothing lib anchors now resp.answer _ c h)

-- Records that a signature covers, checked with trusted keys of its signer.
pub record IsVerified (lib : DnsLib) (anchors : List TrustAnchor) (now : ℕ) (answer : List Rr)
    (sig : Rrsig) : Type 0 where
  pub keys : List Dnskey
  pub trusted : Trusted lib anchors (lib.fqdn sig.signer_name) keys
  pub verified : verify_signed lib now sig (by_type sig.type_covered answer) keys ≡ true

module _ (lib : DnsLib) (anchors : List TrustAnchor) (now : ℕ) (answer : List Rr) where
  keys_at-IsSound :
      (zone : GoString) (c : ZoneCache)
      → IsTrusting lib anchors c
      → IsSound lib anchors (lib.fqdn zone) (keys_at lib anchors now zone c)
  unfolding keys_at
  keys_at-IsSound zone c i = zone_keys-IsSound lib anchors (max_chain_depth + 1) now zone c i

  judge-none :
      (sig : Rrsig) (rrset : List Rr) (r : ZoneResult)
      → judge lib now sig rrset r ≡ none
      → (keys : List Dnskey) × (r ≡ ZoneResult.found keys true)
        × (verify_signed lib now sig rrset keys ≡ true)
  unfolding judge
  judge-none sig rrset ZoneResult.failed e = ground (arith, e)
  judge-none sig rrset (ZoneResult.found keys false) e = ground (arith, e)
  judge-none sig rrset (ZoneResult.found keys true) e = (keys, refl, ground (arith, e))

  abbrev secure_of : Option Validation → Bool
  secure_of none = false
  secure_of (some v) = v.secure

  insecure :
      (a v : Validation)
      → a.secure ≡ false
      → ◌≡◌ {A = Option Validation} (some a) (some v)
      → v.secure ≡ false
  insecure a v h e = sym (ap secure_of e) ∙ h

  -- A verdict that ends the loop early is not secure.
  judge-some :
      (sig : Rrsig) (rrset : List Rr) (r : ZoneResult) (v : Validation)
      → judge lib now sig rrset r ≡ some v
      → v.secure ≡ false
  unfolding judge
  judge-some sig rrset ZoneResult.failed v e = insecure not_checked v refl e
  judge-some sig rrset (ZoneResult.found keys false) v e = insecure not_secure v refl e
  judge-some sig rrset (ZoneResult.found keys true) v e =
      elim (Bool-cases (verify_signed lib now sig rrset keys)) [
        | inl ok ↦ absurd (ground (arith, e, ok))
        | inr bad ↦ insecure not_secure v refl (
            subst (λ b. ◌≡◌ {A = Option Validation} (if b then none else some not_secure) (some v))
              bad e)
      ]

  module _ (s : Rrsig) (sigs : List Rrsig) (c : ZoneCache) where
    skip_sig :
        is_nil (by_type s.type_covered answer) ≡ true
        → check_sigs lib anchors now answer (s ∷ sigs) c ≡ check_sigs lib anchors now answer sigs c
    unfolding check_sigs
    skip_sig nothing = rw (check_sigs, nothing) refl

    next_sig :
        is_nil (by_type s.type_covered answer) ≡ false
        → judge lib now s
            (by_type s.type_covered answer)
            (keys_at lib anchors now s.signer_name c).1
          ≡ none
        → check_sigs lib anchors now answer (s ∷ sigs) c
          ≡ check_sigs lib anchors now answer sigs (keys_at lib anchors now s.signer_name c).0
    unfolding check_sigs
    next_sig something on = rw (check_sigs, something, on) refl

    last_sig :
        (v : Validation)
        → is_nil (by_type s.type_covered answer) ≡ false
        → judge lib now s
            (by_type s.type_covered answer)
            (keys_at lib anchors now s.signer_name c).1
          ≡ some v
        → check_sigs lib anchors now answer (s ∷ sigs) c
          ≡ ((keys_at lib anchors now s.signer_name c).0, v)
    unfolding check_sigs
    last_sig v something stop = rw (check_sigs, something, stop) refl

  -- The keys that the loop over the signatures has used for one that covers something.
  check_sigs-IsVerified :
      (sigs : List Rrsig) (c : ZoneCache) (sig : Rrsig)
      → IsTrusting lib anchors c
      → (check_sigs lib anchors now answer sigs c).1.secure ≡ true
      → SigIn sig sigs
      → is_nil (by_type sig.type_covered answer) ≡ false
      → IsVerified lib anchors now answer sig
  check_sigs-IsVerified [] c sig i secure n covers = absurd n
  check_sigs-IsVerified (s ∷ sigs) c sig i secure member covers =
      elim (Bool-cases (is_nil (by_type s.type_covered answer))) [
        | inl nothing ↦ elim member [
          | inl same ↦ absurd (
              ground (
                arith,
                covers,
                nothing,
                ap (λ (x : Rrsig). is_nil (by_type x.type_covered answer)) same,
              ))
          | inr later ↦
              check_sigs-IsVerified sigs c sig i
                (sym (ap (λ x. x.1.secure) (skip_sig s sigs c nothing)) ∙ secure) later covers
        ]
        | inr something ↦
            let r = keys_at lib anchors now s.signer_name c in
            let sound = keys_at-IsSound s.signer_name c i in
            let rrset = by_type s.type_covered answer in
            elim (Option-cases (judge lib now s rrset r.1)) [
              | inr (v, stop) ↦ absurd (
                  ground (
                    arith,
                    judge-some s rrset r.1 v stop,
                    ap (λ x. x.1.secure) (last_sig s sigs c v something stop),
                    secure,
                  ))
              | inl on ↦ elim member [
                | inr later ↦
                    check_sigs-IsVerified sigs r.0 sig sound.cache
                      (sym (ap (λ x. x.1.secure) (next_sig s sigs c something on)) ∙ secure) later
                      covers
                | inl same ↦
                    let (keys, found, ok) = judge-none s rrset r.1 on in
                    subst (IsVerified lib anchors now answer) same
                      (record { keys = keys; trusted = sound.keys keys found; verified = ok })
              ]
            ]
      ]

no_sig : (sigs : List Rrsig) (sig : Rrsig) → is_nil sigs ≡ true → ¬ SigIn sig sigs
unfolding is_nil
no_sig [] sig e n = n
no_sig (x ∷ xs) sig e n = ground (arith, e)

-- In an answer that is called secure, the records of a type that a signature covers have been
-- verified by keys of the signer that have a chain of trust to an anchor, where every entry of the
-- cache that is called secure is trusted.
pub validate-IsVerified :
    (lib : DnsLib) (anchors : List TrustAnchor) (now : ℕ) (resp : Msg) (c : ZoneCache) (sig : Rrsig)
    → IsTrusting lib anchors c
    → (validate lib anchors now resp c).1.secure ≡ true
    → SigIn sig (all_sigs resp.answer)
    → is_nil (by_type sig.type_covered resp.answer) ≡ false
    → IsVerified lib anchors now resp.answer sig
unfolding validate
validate-IsVerified lib anchors now resp c sig i secure member covers =
    elim (Bool-cases (is_nil (all_sigs resp.answer))) [
      | inl none_there ↦ absurd (no_sig (all_sigs resp.answer) sig none_there member)
      | inr some_there ↦
          check_sigs-IsVerified lib anchors now resp.answer (all_sigs resp.answer) c sig i
            (sym (ap (λ x. x.1.secure) (opened some_there)) ∙ secure) member covers
    ]
  where
    opened :
        is_nil (all_sigs resp.answer) ≡ false
        → validate lib anchors now resp c
          ≡ check_sigs lib anchors now resp.answer (all_sigs resp.answer) c
    opened e = rw (validate, e) refl
