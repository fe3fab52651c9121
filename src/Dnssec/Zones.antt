-- ===== src/Dnssec/Zones.antt =====
-- internal/dnssec/validate.go: the chain of trust. The clock is read once for a walk.
use irongrid_dns.Prelude.{
  ℕ, zero, suc, ◌+◌, Bool, true, false, not, List, [], ◌∷◌, Option, none, some, ◌==◌, leb, ltb,
  if◌then◌else◌, length, drop,
}
use irongrid_dns.Bytes.{GoString, str_eq, ascii}
use irongrid_dns.Text.{join}
use irongrid_dns.Shards.Table.{Table, lookup, insert}
use irongrid_dns.Dnssec.Keys.{
  DnsLib, Dnskey, Rr, type_ds, type_dnskey, keys_of, ds_of, rrs_of, sigs_of, verify_signed_any,
  match_ds, zone_key_ttl,
}
use irongrid_dns.Dnssec.Anchors.{TrustAnchor, verify_against_anchors}

-- `zoneCacheEntry`
pub record ZoneCacheEntry : Type 0 where
  pub keys : List Dnskey
  pub secure : Bool
  pub expires : ℕ

abbrev pub ZoneCache : Type 0
ZoneCache = Table ZoneCacheEntry

-- The results of `zoneKeys`, with `failed` for an error.
pub data ZoneResult : Type 0 where
  failed : ZoneResult
  found : List Dnskey → Bool → ZoneResult

-- `maxChainDepth`
abbrev pub max_chain_depth : ℕ
max_chain_depth = 20

-- `cached`
unfoldable pub cached_zone : ℕ → GoString → ZoneCache → Option ZoneCacheEntry
cached_zone now zone c = elim (lookup zone c) [
  | none ↦ none
  | some e ↦ if ltb e.expires now then none else some e
]

-- `storeZone`
unfoldable pub store_zone : ℕ → GoString → List Dnskey → Bool → ℕ → ZoneCache → ZoneCache
store_zone now zone keys secure ttl c =
    insert zone (record { keys = keys; secure = secure; expires = now + ttl }) c

-- `parentZone`
unfoldable pub parent_zone : DnsLib → GoString → GoString
parent_zone lib zone =
    let zone = lib.fqdn zone in
    let labels = lib.labels zone in
    if str_eq zone (ascii ".")
    then ascii "."
    else if leb (length labels) 1
    then ascii "."
    else lib.fqdn (join (drop 1 labels) 46)

unfoldable pub is_nil {ℓ} : {A : Type ℓ} → List A → Bool
is_nil [] = true
is_nil (_ ∷ _) = false

-- Whether the digests of the parent and its keys vouch for the keys of a zone: the end of
-- `fetchZoneKeys`, from the answer to the DS query on.
unfoldable pub ds_secure : DnsLib → ℕ → List Dnskey → List Dnskey → List Rr → List Rr → Bool
ds_secure lib now parent_keys keys key_answer ds_answer =
    if is_nil (ds_of ds_answer)
    then false
    else if not (
        verify_signed_any lib now (sigs_of type_ds ds_answer) (rrs_of type_ds ds_answer)
          parent_keys)
    then false
    else elim (match_ds lib keys (ds_of ds_answer)) [
      | none ↦ false
      | some k ↦
          verify_signed_any lib now (sigs_of type_dnskey key_answer) (rrs_of type_dnskey key_answer)
            (k ∷ [])
    ]

-- `fetchZoneKeys`, from the DS query on.
unfoldable pub check_ds :
    DnsLib → ℕ → GoString → List Dnskey → List Rr → ZoneCache → ZoneCache × ZoneResult
check_ds lib now zone parent_keys key_answer c = elim (lib.query zone type_ds) [
  | none ↦ (c, failed)
  | some m ↦
      if not (m.rcode == 0)
      then (c, failed)
      else let keys = keys_of key_answer in
        let secure = ds_secure lib now parent_keys keys key_answer m.answer in
        (store_zone now zone keys secure (zone_key_ttl key_answer) c, found keys secure)
]

-- `fetchZoneKeys`, after the parent's keys.
unfoldable pub after_parent :
    DnsLib → ℕ → GoString → List Rr → ZoneCache × ZoneResult → ZoneCache × ZoneResult
after_parent lib now zone key_answer (c, failed) = (c, failed)
after_parent lib now zone key_answer (c, found parent_keys true) =
    check_ds lib now zone parent_keys key_answer c
after_parent lib now zone key_answer (c, found parent_keys false) =
    let keys = keys_of key_answer in
    (store_zone now zone keys false (zone_key_ttl key_answer) c, found keys false)

-- `fetchZoneKeys`, from the keys of the zone on; `parent` is the walk to the parent.
unfoldable pub check_keys :
    DnsLib
    → List TrustAnchor
    → ℕ
    → (GoString → ZoneCache → ZoneCache × ZoneResult)
    → GoString
    → List Rr
    → ZoneCache
    → ZoneCache × ZoneResult
check_keys lib anchors now parent zone answer c =
    let keys = keys_of answer in
    let ttl = zone_key_ttl answer in
    if is_nil keys
    then (store_zone now zone [] false ttl c, found [] false)
    else elim (str_eq zone (ascii ".")) [
      | true ↦
          let secure =
            verify_against_anchors lib now keys (sigs_of type_dnskey answer)
              (rrs_of type_dnskey answer) anchors in
          (store_zone now zone keys secure ttl c, found keys secure)
      | false ↦ after_parent lib now zone answer (parent (parent_zone lib zone) c)
    ]

-- `fetchZoneKeys`, within the depth.
unfoldable pub fetch_zone_keys :
    DnsLib
    → List TrustAnchor
    → ℕ
    → (GoString → ZoneCache → ZoneCache × ZoneResult)
    → GoString
    → ZoneCache
    → ZoneCache × ZoneResult
fetch_zone_keys lib anchors now parent zone c = elim (lib.query zone type_dnskey) [
  | none ↦ (c, failed)
  | some m ↦
      if not (m.rcode == 0) then (c, failed) else check_keys lib anchors now parent zone m.answer c
]

-- `zoneKeys`; `left` is how often the chain may still be followed, `maxChainDepth + 1 - depth`.
unfoldable pub zone_keys :
    ℕ → DnsLib → List TrustAnchor → ℕ → GoString → ZoneCache → ZoneCache × ZoneResult
zone_keys zero lib anchors now zone c = elim (cached_zone now (lib.fqdn zone) c) [
  | some e ↦ (c, found e.keys e.secure)
  | none ↦ (c, failed)
]
zone_keys (suc left) lib anchors now zone c = elim (cached_zone now (lib.fqdn zone) c) [
  | some e ↦ (c, found e.keys e.secure)
  | none ↦
      fetch_zone_keys lib anchors now (λ p c. zone_keys left lib anchors now p c) (lib.fqdn zone) c
]
