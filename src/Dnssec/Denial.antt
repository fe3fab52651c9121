-- ===== src/Dnssec/Denial.antt =====
-- internal/dnssec/denial.go: proofs that a name or a type does not exist.
use irongrid_dns.Prelude.{
  ℕ, ◌+◌, Bool, true, false, not, ◌&&◌, ◌||◌, List, [], ◌∷◌, ◌++◌, ◌==◌, ltb, if◌then◌else◌,
}
use irongrid_dns.Bytes.{GoString, str_eq, ascii}
use irongrid_dns.Text.{lower, join}
use irongrid_dns.Dnssec.Keys.{DnsLib, Rr, Rrsig, Nsec, Nsec3, verify_signed}
use irongrid_dns.Dnssec.Anchors.{TrustAnchor}
use irongrid_dns.Dnssec.Zones.{ZoneCache, ZoneResult, max_chain_depth, zone_keys}

-- `bitmapHasType`
unfoldable pub bitmap_has_type : List ℕ → ℕ → Bool
bitmap_has_type [] t = false
bitmap_has_type (x ∷ xs) t = x == t || bitmap_has_type xs t

-- `strings.Compare(a, b) < 0`
unfoldable pub string_less : GoString → GoString → Bool
string_less [] [] = false
string_less [] (_ ∷ _) = true
string_less (_ ∷ _) [] = false
string_less (a ∷ s) (b ∷ t) = if a == b then string_less s t else ltb a b

-- The loop of `canonicalLess`, on the labels from the last one on.
unfoldable pub less_labels : List GoString → List GoString → Bool
less_labels [] [] = false
less_labels [] (_ ∷ _) = true
less_labels (_ ∷ _) [] = false
less_labels (a ∷ as') (b ∷ bs) =
    if str_eq (lower a) (lower b) then less_labels as' bs else string_less (lower a) (lower b)

unfoldable pub reverse_onto : List GoString → List GoString → List GoString
reverse_onto [] acc = acc
reverse_onto (l ∷ ls) acc = reverse_onto ls (l ∷ acc)

-- `canonicalLess`
unfoldable pub canonical_less : DnsLib → GoString → GoString → Bool
canonical_less lib a b =
    less_labels (reverse_onto (lib.labels (lib.fqdn a)) [])
      (reverse_onto (lib.labels (lib.fqdn b)) [])

-- `nsecCovers`
unfoldable pub nsec_covers : DnsLib → GoString → GoString → GoString → Bool
nsec_covers lib owner next name =
    if not (canonical_less lib owner next)
    then not (canonical_less lib name owner) || canonical_less lib name next
    else not (canonical_less lib name owner) && canonical_less lib name next

-- `nsecCoversAny`
unfoldable pub nsec_covers_any : DnsLib → List Nsec → GoString → Bool
nsec_covers_any lib [] name = false
nsec_covers_any lib (n ∷ ns) name =
    nsec_covers lib (lower (lib.fqdn n.owner)) (lower (lib.fqdn n.next_domain)) name
    || nsec_covers_any lib ns name

-- `strings.EqualFold` of an owner and a name.
unfoldable pub is_owner : GoString → GoString → Bool
is_owner owner name = str_eq (lower (lower owner)) (lower name)

-- `nsecOwnerExists`
unfoldable pub nsec_owner_exists : DnsLib → List Nsec → GoString → Bool
nsec_owner_exists lib [] name = false
nsec_owner_exists lib (n ∷ ns) name =
    is_owner (lib.fqdn n.owner) name || nsec_owner_exists lib ns name

-- The walk to the closest encloser, with what exists and what is covered.
unfoldable pub closest_encloser :
    DnsLib → (GoString → Bool) → (GoString → Bool) → List GoString → Bool
closest_encloser lib exists covers [] = false
closest_encloser lib exists covers (_ ∷ []) = false
closest_encloser lib exists covers (_ ∷ l ∷ ls) =
    let ancestor = lib.fqdn (join (l ∷ ls) 46) in
    if exists ancestor
    then covers (ascii "*." ++ ancestor)
    else closest_encloser lib exists covers (l ∷ ls)

-- `dns.TypeCNAME`
abbrev type_cname : ℕ
type_cname = 5

-- A bitmap with neither the type nor CNAME.
unfoldable pub lacks_type : List ℕ → ℕ → Bool
lacks_type bitmap t = not (bitmap_has_type bitmap t) && not (bitmap_has_type bitmap type_cname)

-- The proof that a name has no record of a type.
unfoldable pub nsec_nodata : DnsLib → GoString → ℕ → List Nsec → Bool
nsec_nodata lib qname qtype [] = false
nsec_nodata lib qname qtype (n ∷ ns) =
    if is_owner (lib.fqdn n.owner) qname
    then lacks_type n.type_bitmap qtype
    else nsec_nodata lib qname qtype ns

-- The proof that a name does not exist.
unfoldable pub nsec_nxdomain : DnsLib → GoString → List Nsec → Bool
nsec_nxdomain lib qname nsecs =
    if not (nsec_covers_any lib nsecs qname)
    then false
    else if nsec_owner_exists lib nsecs qname
    then true
    else closest_encloser lib (nsec_owner_exists lib nsecs) (nsec_covers_any lib nsecs)
        (lib.labels qname)

-- `proveNSEC`
unfoldable pub prove_nsec : DnsLib → ℕ → GoString → ℕ → List Nsec → Bool
prove_nsec lib rcode qname qtype nsecs =
    if rcode == 0
    then nsec_nodata lib qname qtype nsecs
    else if not (rcode == 3)
    then false
    else nsec_nxdomain lib qname nsecs

unfoldable pub nsec3_covers_any : DnsLib → List Nsec3 → GoString → Bool
nsec3_covers_any lib [] name = false
nsec3_covers_any lib (n ∷ ns) name = lib.cover3 n name || nsec3_covers_any lib ns name

unfoldable pub nsec3_match_any : DnsLib → List Nsec3 → GoString → Bool
nsec3_match_any lib [] name = false
nsec3_match_any lib (n ∷ ns) name = lib.match3 n name || nsec3_match_any lib ns name

unfoldable pub nsec3_nodata : DnsLib → GoString → ℕ → List Nsec3 → Bool
nsec3_nodata lib qname qtype [] = false
nsec3_nodata lib qname qtype (n ∷ ns) =
    if lib.match3 n qname then lacks_type n.type_bitmap qtype else nsec3_nodata lib qname qtype ns

-- `proveNSEC3`
unfoldable pub prove_nsec3 : DnsLib → ℕ → GoString → ℕ → List Nsec3 → Bool
prove_nsec3 lib rcode qname qtype nsec3s =
    if rcode == 0
    then nsec3_nodata lib qname qtype nsec3s
    else if not (rcode == 3)
    then false
    else if not (nsec3_covers_any lib nsec3s qname)
    then false
    else closest_encloser lib (nsec3_match_any lib nsec3s) (nsec3_covers_any lib nsec3s)
        (lib.labels qname)

-- The records of the authority section.
unfoldable pub nsecs_of : List Rr → List Nsec
nsecs_of [] = []
nsecs_of (Rr.nsec_rr n _ ∷ rrs) = n ∷ nsecs_of rrs
nsecs_of (_ ∷ rrs) = nsecs_of rrs

unfoldable pub nsec3s_of : List Rr → List Nsec3
nsec3s_of [] = []
nsec3s_of (Rr.nsec3_rr n _ ∷ rrs) = n ∷ nsec3s_of rrs
nsec3s_of (_ ∷ rrs) = nsec3s_of rrs

unfoldable pub only_nsec : List Rr → List Rr
only_nsec [] = []
only_nsec (Rr.nsec_rr n ttl ∷ rrs) = Rr.nsec_rr n ttl ∷ only_nsec rrs
only_nsec (_ ∷ rrs) = only_nsec rrs

unfoldable pub only_nsec3 : List Rr → List Rr
only_nsec3 [] = []
only_nsec3 (Rr.nsec3_rr n ttl ∷ rrs) = Rr.nsec3_rr n ttl ∷ only_nsec3 rrs
only_nsec3 (_ ∷ rrs) = only_nsec3 rrs

-- `rr.Header().Name`, of an NSEC or NSEC3 record.
unfoldable pub denial_owner : Rr → GoString
denial_owner (Rr.nsec_rr n _) = n.owner
denial_owner (Rr.nsec3_rr n _) = n.owner
denial_owner _ = []

-- Whether the keys of a signer, if they are secure, verify a record.
unfoldable pub verifies_rr : DnsLib → ℕ → Rrsig → Rr → ZoneResult → Bool
verifies_rr lib now sig rr ZoneResult.failed = false
verifies_rr lib now sig rr (ZoneResult.found keys false) = false
verifies_rr lib now sig rr (ZoneResult.found keys true) = verify_signed lib now sig (rr ∷ []) keys

-- `zoneKeys` at depth 0.
unfoldable pub keys_at :
    DnsLib → List TrustAnchor → ℕ → GoString → ZoneCache → ZoneCache × ZoneResult
keys_at lib anchors now zone c = zone_keys (max_chain_depth + 1) lib anchors now zone c

-- `verifyDenialRR`
unfoldable pub verify_denial_rr :
    DnsLib → List TrustAnchor → ℕ → Rr → List Rrsig → ZoneCache → ZoneCache × Bool
verify_denial_rr lib anchors now rr [] c = (c, false)
verify_denial_rr lib anchors now rr (sig ∷ sigs) c =
    elim (is_owner sig.owner (lower (denial_owner rr))) [
      | false ↦ verify_denial_rr lib anchors now rr sigs c
      | true ↦
          let (c', r) = keys_at lib anchors now sig.signer_name c in
          elim (verifies_rr lib now sig rr r) [
            | true ↦ (c', true)
            | false ↦ verify_denial_rr lib anchors now rr sigs c'
          ]
    ]

-- The loops of `validateDenial` over the records: whether all are verified.
unfoldable pub verify_denials :
    DnsLib → List TrustAnchor → ℕ → List Rr → List Rrsig → ZoneCache → ZoneCache × Bool
verify_denials lib anchors now [] sigs c = (c, true)
verify_denials lib anchors now (rr ∷ rrs) sigs c =
    let (c', ok) = verify_denial_rr lib anchors now rr sigs c in
    elim ok [ false ↦ (c', false) | true ↦ verify_denials lib anchors now rrs sigs c' ]
