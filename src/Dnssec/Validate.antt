-- ===== src/Dnssec/Validate.antt =====
-- internal/dnssec/validate.go: the validation of a response.
use irongrid_dns.Prelude.{
  ℕ, Bool, true, false, not, ◌&&◌, ◌||◌, List, [], ◌∷◌, Option, none, some, ◌==◌, if◌then◌else◌,
}
use irongrid_dns.Bytes.{GoString}
use irongrid_dns.Text.{lower}
use irongrid_dns.Dnssec.Keys.{
  DnsLib, Rr, Rrsig, Msg, type_nsec, type_nsec3, rr_type, sigs_of, verify_signed,
}
use irongrid_dns.Dnssec.Anchors.{TrustAnchor}
use irongrid_dns.Dnssec.Zones.{ZoneCache, ZoneResult, is_nil}
use irongrid_dns.Dnssec.Denial.{
  keys_at, nsecs_of, nsec3s_of, only_nsec, only_nsec3, verify_denials, prove_nsec, prove_nsec3,
}

-- The results of `Validate`; `error` stands for an `err` that is not nil.
pub record Validation : Type 0 where
  pub secure : Bool
  pub signed : Bool
  pub error : Bool

abbrev pub unsigned_answer : Validation
unsigned_answer = record { secure = false; signed = false; error = false }

abbrev pub not_secure : Validation
not_secure = record { secure = false; signed = true; error = false }

abbrev pub secure_answer : Validation
secure_answer = record { secure = true; signed = true; error = false }

abbrev pub not_checked : Validation
not_checked = record { secure = false; signed = true; error = true }

-- The signatures of the answer, and `byType`.
unfoldable pub all_sigs : List Rr → List Rrsig
all_sigs [] = []
all_sigs (Rr.rrsig_rr s _ ∷ rrs) = s ∷ all_sigs rrs
all_sigs (_ ∷ rrs) = all_sigs rrs

unfoldable pub is_sig : Rr → Bool
is_sig (Rr.rrsig_rr _ _) = true
is_sig _ = false

unfoldable pub by_type : ℕ → List Rr → List Rr
by_type t [] = []
by_type t (rr ∷ rrs) =
    if not (is_sig rr) && rr_type rr == t then rr ∷ by_type t rrs else by_type t rrs

-- What the keys of the signer say of a set of records: to go on, or how the validation ends.
unfoldable pub judge : DnsLib → ℕ → Rrsig → List Rr → ZoneResult → Option Validation
judge lib now sig rrset ZoneResult.failed = some not_checked
judge lib now sig rrset (ZoneResult.found keys false) = some not_secure
judge lib now sig rrset (ZoneResult.found keys true) =
    if verify_signed lib now sig rrset keys then none else some not_secure

-- The loop over the signatures.
unfoldable pub check_sigs :
    DnsLib → List TrustAnchor → ℕ → List Rr → List Rrsig → ZoneCache → ZoneCache × Validation
check_sigs lib anchors now answer [] c = (c, secure_answer)
check_sigs lib anchors now answer (sig ∷ sigs) c = elim (is_nil (by_type sig.type_covered answer)) [
  | true ↦ check_sigs lib anchors now answer sigs c
  | false ↦
      let (c', r) = keys_at lib anchors now sig.signer_name c in
      elim (judge lib now sig (by_type sig.type_covered answer) r) [
        | some v ↦ (c', v)
        | none ↦ check_sigs lib anchors now answer sigs c'
      ]
]

-- The proof that the records of the authority section give.
unfoldable pub prove_denial : DnsLib → Msg → GoString → ℕ → Bool
prove_denial lib resp qname qtype =
    if not (is_nil (nsec3s_of resp.ns))
    then prove_nsec3 lib resp.rcode qname qtype (nsec3s_of resp.ns)
    else prove_nsec lib resp.rcode qname qtype (nsecs_of resp.ns)

-- `validateDenial`, from the verification of the records on.
unfoldable pub verify_and_prove :
    DnsLib → List TrustAnchor → ℕ → Msg → GoString → ℕ → ZoneCache → ZoneCache × Validation
verify_and_prove lib anchors now resp qname qtype c =
    let (c', ok) =
      verify_denials lib anchors now (only_nsec resp.ns) (sigs_of type_nsec resp.ns) c in
    elim ok [
      | false ↦ (c', not_secure)
      | true ↦
          let (c'', ok3) =
            verify_denials lib anchors now (only_nsec3 resp.ns) (sigs_of type_nsec3 resp.ns) c' in
          (
            c'',
            record {
              secure = ok3 && prove_denial lib resp qname qtype;
              signed = true;
              error = false;
            },
          )
    ]

-- `validateDenial`
unfoldable pub validate_denial :
    DnsLib → List TrustAnchor → ℕ → Msg → ZoneCache → ZoneCache × Validation
validate_denial lib anchors now resp c = elim resp.question [
  | [] ↦ (c, unsigned_answer)
  | (name, qtype) ∷ _ ↦ elim (is_nil (nsecs_of resp.ns) && is_nil (nsec3s_of resp.ns)) [
    | true ↦ (c, unsigned_answer)
    | false ↦ verify_and_prove lib anchors now resp (lower (lib.fqdn name)) qtype c
  ]
]

-- `Validate`, on a response that is not nil.
unfoldable pub validate : DnsLib → List TrustAnchor → ℕ → Msg → ZoneCache → ZoneCache × Validation
validate lib anchors now resp c = elim (is_nil (all_sigs resp.answer)) [
  | false ↦ check_sigs lib anchors now resp.answer (all_sigs resp.answer) c
  | true ↦ elim (is_nil resp.answer && (resp.rcode == 3 || resp.rcode == 0)) [
    | true ↦ validate_denial lib anchors now resp c
    | false ↦ (c, unsigned_answer)
  ]
]
