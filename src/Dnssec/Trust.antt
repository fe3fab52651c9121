-- ===== src/Dnssec/Trust.antt =====
-- internal/dnssec/validate.go: keys that are called secure have a chain of trust.
use irongrid_dns.Prelude.{
  either_way, ℕ, zero, suc, ◌+◌, ◌≡◌, refl, ap, subst, ◌∙◌, inl, inr, Bool, true, false, not, List,
  [], ◌∷◌, Option, none, some, arith, ◌==◌, if◌then◌else◌, ltb, Bool-cases, Option-cases,
}
use irongrid_dns.Bytes.{GoString, str_eq, str_eq_sound, ascii}
use irongrid_dns.Shards.Table.{lookup, lookup-insert}
use irongrid_dns.Dnssec.Keys.{
  DnsLib, Dnskey, Rr, type_ds, type_dnskey, keys_of, ds_of, rrs_of, sigs_of, verify_signed_any,
  match_ds, zone_key_ttl,
}
use irongrid_dns.Dnssec.Anchors.{TrustAnchor, verify_against_anchors}
use irongrid_dns.Dnssec.Zones.{
  ZoneCacheEntry, ZoneCache, ZoneResult, cached_zone, store_zone, parent_zone, is_nil, ds_secure,
  check_ds, after_parent, check_keys, fetch_zone_keys, zone_keys,
}

module _ (lib : DnsLib) (anchors : List TrustAnchor) where
  -- The keys of the root are signed by one that an anchor names; the keys of another zone are
  -- signed by one that a digest names, and trusted keys of the parent have signed the digests.
  pub data Trusted : GoString → List Dnskey → Type 0 where
    by_anchor :
        (zone : GoString) (answer : List Rr) (now : ℕ)
        → zone ≡ ascii "."
        → verify_against_anchors lib now
            (keys_of answer)
            (sigs_of type_dnskey answer)
            (rrs_of type_dnskey answer)
            anchors
          ≡ true
        → Trusted zone (keys_of answer)
    by_parent :
        (zone : GoString) (parent_keys : List Dnskey) (answer digests : List Rr) (k : Dnskey)
        (now : ℕ)
        → Trusted (lib.fqdn (parent_zone lib zone)) parent_keys
        → verify_signed_any lib now (sigs_of type_ds digests) (rrs_of type_ds digests) parent_keys
          ≡ true
        → match_ds lib (keys_of answer) (ds_of digests) ≡ some k
        → verify_signed_any lib now
            (sigs_of type_dnskey answer)
            (rrs_of type_dnskey answer)
            (k ∷ [])
          ≡ true
        → Trusted zone (keys_of answer)

-- What `ds_secure` has checked.
ds_secure-cases :
    (lib : DnsLib) (now : ℕ) (pk keys : List Dnskey) (answer digests : List Rr)
    → ds_secure lib now pk keys answer digests ≡ true
    → (k : Dnskey) × (verify_signed_any lib now
          (sigs_of type_ds digests)
          (rrs_of type_ds digests)
          pk
        ≡ true)
      × (match_ds lib keys (ds_of digests) ≡ some k)
      × (verify_signed_any lib now (sigs_of type_dnskey answer) (rrs_of type_dnskey answer) (k ∷ [])
          ≡ true)
unfolding ds_secure
ds_secure-cases lib now pk keys answer digests e =
    elim (Option-cases (match_ds lib keys (ds_of digests))) [
      | inl no_key ↦ absurd (ground (arith, e, no_key))
      | inr (k, m) ↦ (k, ground (arith, e, m), m, ground (arith, e, m))
    ]

module _ (lib : DnsLib) (anchors : List TrustAnchor) where
  -- Every entry of the cache that is called secure is trusted.
  pub record IsTrusting (c : ZoneCache) : Type 0 where
    pub entries :
        (zone : GoString) (e : ZoneCacheEntry)
        → lookup zone c ≡ some e
        → e.secure ≡ true
        → Trusted lib anchors zone e.keys

  -- A result for a zone, with the cache after it.
  pub record IsSound (zone : GoString) (r : ZoneCache × ZoneResult) : Type 0 where
    pub cache : IsTrusting r.0
    pub keys : (ks : List Dnskey) → r.1 ≡ ZoneResult.found ks true → Trusted lib anchors zone ks

  store_zone-IsTrusting :
      (now : ℕ) (zone : GoString) (keys : List Dnskey) (secure : Bool) (ttl : ℕ) (c : ZoneCache)
      → (secure ≡ true → Trusted lib anchors zone keys)
      → IsTrusting c
      → IsTrusting (store_zone now zone keys secure ttl c)
  unfolding store_zone
  store_zone-IsTrusting now zone keys secure ttl c trust i = record {
    entries = λ z e held sec.
        let stored : ZoneCacheEntry = record {
          keys = keys;
          secure = secure;
          expires = now + ttl;
        } in
        elim (Bool-cases (str_eq zone z)) [
          | inr other ↦
              i.entries z e (ground (arith, held, lookup-insert zone z stored c, other)) sec
          | inl same ↦
              let is_e : stored ≡ e = ground (arith, held, lookup-insert zone z stored c, same) in
              subst (λ x. Trusted lib anchors x e.keys) (str_eq_sound zone z same)
                (subst (λ (x : ZoneCacheEntry). Trusted lib anchors zone x.keys) is_e
                  (trust (ap (λ (x : ZoneCacheEntry). x.secure) is_e ∙ sec)))
        ];
  }

  failed-IsSound :
      (zone : GoString) (c : ZoneCache) → IsTrusting c → IsSound zone (c, ZoneResult.failed)
  failed-IsSound zone c i = record { cache = i; keys = λ ks e. absurd (ground (arith, e)) }

  found-IsSound :
      (zone : GoString) (keys : List Dnskey) (secure : Bool) (c : ZoneCache)
      → (secure ≡ true → Trusted lib anchors zone keys)
      → IsTrusting c
      → IsSound zone (c, ZoneResult.found keys secure)
  found-IsSound zone keys secure c trust i = record {
    cache = i;
    keys = λ ks e. subst (Trusted lib anchors zone) (ground (arith, e)) (trust (ground (arith, e)));
  }

  stored-IsSound :
      (now : ℕ) (zone : GoString) (keys : List Dnskey) (secure : Bool) (ttl : ℕ) (c : ZoneCache)
      → (secure ≡ true → Trusted lib anchors zone keys)
      → IsTrusting c
      → IsSound zone (store_zone now zone keys secure ttl c, ZoneResult.found keys secure)
  stored-IsSound now zone keys secure ttl c trust i =
      found-IsSound zone keys secure _ trust
        (store_zone-IsTrusting now zone keys secure ttl c trust i)

  check_ds-IsSound :
      (now : ℕ) (zone : GoString) (pk : List Dnskey) (answer : List Rr) (c : ZoneCache)
      → Trusted lib anchors (lib.fqdn (parent_zone lib zone)) pk
      → IsTrusting c
      → IsSound zone (check_ds lib now zone pk answer c)
  unfolding check_ds
  check_ds-IsSound now zone pk answer c parent i = elim (Option-cases (lib.query zone type_ds)) [
    | inl no_answer ↦ rw (check_ds, no_answer) (failed-IsSound zone c i)
    | inr (m, e) ↦
        rw (check_ds, e)
          (either_way (IsSound zone) (not (m.rcode == 0)) _ _ (failed-IsSound zone c i) (
            stored-IsSound now zone (keys_of answer) _ (zone_key_ttl answer) c
              (λ sec.
                let (k, signed, matched, own) =
                  ds_secure-cases lib now pk (keys_of answer) answer m.answer sec in
                Trusted.by_parent zone pk answer m.answer k now parent signed matched own)
              i))
  ]

  after_parent-IsSound :
      (now : ℕ) (zone : GoString) (answer : List Rr) (r : ZoneCache × ZoneResult)
      → IsSound (lib.fqdn (parent_zone lib zone)) r
      → IsSound zone (after_parent lib now zone answer r)
  unfolding after_parent
  after_parent-IsSound now zone answer (c, ZoneResult.failed) s = failed-IsSound zone c s.cache
  after_parent-IsSound now zone answer (c, ZoneResult.found pk true) s =
      check_ds-IsSound now zone pk answer c (s.keys pk refl) s.cache
  after_parent-IsSound now zone answer (c, ZoneResult.found pk false) s =
      stored-IsSound now zone (keys_of answer) false (zone_key_ttl answer) c
        (λ e. absurd (ground (arith, e))) s.cache

  module _ (now : ℕ) (parent : GoString → ZoneCache → ZoneCache × ZoneResult)
      (sound : (p : GoString) (c : ZoneCache)
        → IsTrusting c
        → IsSound (lib.fqdn p) (parent p c)) where
    check_keys-IsSound :
        (zone : GoString) (answer : List Rr) (c : ZoneCache)
        → IsTrusting c
        → IsSound zone (check_keys lib anchors now parent zone answer c)
    unfolding check_keys
    check_keys-IsSound zone answer c i =
        either_way (IsSound zone) (is_nil (keys_of answer)) _ _
          (stored-IsSound now zone [] false (zone_key_ttl answer) c
            (λ e. absurd (ground (arith, e))) i)
          (elim (Bool-cases (str_eq zone (ascii "."))) [
            | inl root ↦ rw root (
                stored-IsSound now zone (keys_of answer) _ (zone_key_ttl answer) c
                  (Trusted.by_anchor zone answer now (str_eq_sound zone (ascii ".") root)) i)
            | inr below ↦
                rw below (after_parent-IsSound now zone answer _ (sound (parent_zone lib zone) c i))
          ])

    fetch_zone_keys-IsSound :
        (zone : GoString) (c : ZoneCache)
        → IsTrusting c
        → IsSound zone (fetch_zone_keys lib anchors now parent zone c)
    unfolding fetch_zone_keys
    fetch_zone_keys-IsSound zone c i = elim (Option-cases (lib.query zone type_dnskey)) [
      | inl no_answer ↦ rw (fetch_zone_keys, no_answer) (failed-IsSound zone c i)
      | inr (m, e) ↦
          rw (fetch_zone_keys, e)
            (either_way (IsSound zone) (not (m.rcode == 0)) _ _ (failed-IsSound zone c i)
              (check_keys-IsSound zone m.answer c i))
    ]

  cached_zone-IsSound :
      (now : ℕ) (zone : GoString) (c : ZoneCache) (e : ZoneCacheEntry)
      → cached_zone now zone c ≡ some e
      → IsTrusting c
      → IsSound zone (c, ZoneResult.found e.keys e.secure)
  unfolding cached_zone
  cached_zone-IsSound now zone c e hit i =
      found-IsSound zone e.keys e.secure c (i.entries zone e (held (lookup zone c) hit)) i
    where
      held :
          (o : Option ZoneCacheEntry)
          → (elim o as (λ _. Option ZoneCacheEntry) [
            | none ↦ none
            | some x ↦ if ltb x.expires now then none else some x
          ])
            ≡ some e
          → o ≡ some e
      held none h = ground (arith, h)
      held (some x) h = ground (arith, h)

  -- Where every entry of the cache that is called secure is trusted, that holds of the cache after a
  -- walk, and keys that the walk calls secure are trusted.
  pub zone_keys-IsSound :
      (left now : ℕ) (zone : GoString) (c : ZoneCache)
      → IsTrusting c
      → IsSound (lib.fqdn zone) (zone_keys left lib anchors now zone c)
  unfolding zone_keys
  zone_keys-IsSound zero now zone c i = elim (Option-cases (cached_zone now (lib.fqdn zone) c)) [
    | inr (e, hit) ↦ rw (zone_keys, hit) (cached_zone-IsSound now (lib.fqdn zone) c e hit i)
    | inl miss ↦ rw (zone_keys, miss) (failed-IsSound (lib.fqdn zone) c i)
  ]
  zone_keys-IsSound (suc left) now zone c i =
      elim (Option-cases (cached_zone now (lib.fqdn zone) c)) [
        | inr (e, hit) ↦ rw (zone_keys, hit) (cached_zone-IsSound now (lib.fqdn zone) c e hit i)
        | inl miss ↦
            rw (zone_keys, miss)
              (fetch_zone_keys-IsSound now (λ p c. zone_keys left lib anchors now p c)
                (zone_keys-IsSound left now) (lib.fqdn zone) c i)
      ]
