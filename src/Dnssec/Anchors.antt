-- ===== src/Dnssec/Anchors.antt =====
-- internal/dnssec/anchor.go: the trust anchors of the root.
use irongrid_dns.Prelude.{
  ℕ, ◌*◌, ◌⊎◌, inl, inr, Bool, true, false, List, [], ◌∷◌, ◌++◌, Option, none, some, if◌then◌else◌,
}
use irongrid_dns.Prelude.Int.{ℤ}
use irongrid_dns.Bytes.{GoString, is_empty, ascii}
use irongrid_dns.Text.{Unicode, trim_space, upper}
use irongrid_dns.Clock.{minute, positive_or}
use irongrid_dns.Dnssec.Keys.{DnsLib, Dnskey, Rr, Rrsig, find_key, verify_signed_any}

-- `TrustAnchor`
pub record TrustAnchor : Type 0 where
  pub zone : GoString
  pub key_tag : ℕ
  pub algorithm : ℕ
  pub digest_type : ℕ
  pub digest : GoString

-- `DefaultRootAnchors`
abbrev pub default_root_anchors : List TrustAnchor
default_root_anchors =
    record {
      zone = ascii ".";
      key_tag = 20326;
      algorithm = 8;
      digest_type = 2;
      digest = ascii "E06D44B80B8F1D39A95C0B0D7C65D08458E880409BBC683457104237C7F8EC8";
    }
    ∷ []

-- An entry `KeyDigest` of the file, as `xml.Unmarshal` gives it.
pub record KeyDigest : Type 0 where
  pub key_tag : ℕ
  pub algorithm : ℕ
  pub digest_type : ℕ
  pub digest : GoString

unfoldable pub anchor_of : Unicode → KeyDigest → TrustAnchor
anchor_of u kd = record {
  zone = ascii ".";
  key_tag = kd.key_tag;
  algorithm = kd.algorithm;
  digest_type = kd.digest_type;
  digest = upper (trim_space u kd.digest);
}

unfoldable pub anchors_of : Unicode → List KeyDigest → List TrustAnchor
anchors_of u [] = []
anchors_of u (kd ∷ kds) = anchor_of u kd ∷ anchors_of u kds

-- `ParseRootAnchorsXML`, with `xml.Unmarshal` as a parameter: the anchors, or the text of an error.
unfoldable pub parse_root_anchors :
    Unicode → (GoString → List KeyDigest ⊎ GoString) → GoString → List TrustAnchor ⊎ GoString
parse_root_anchors u unmarshal data_ = elim (unmarshal data_) [
  | inr err ↦ inr (ascii "dnssec: parse root-anchors.xml: " ++ err)
  | inl [] ↦ inr (ascii "dnssec: root-anchors.xml has no KeyDigest entries")
  | inl (kd ∷ kds) ↦ inl (anchors_of u (kd ∷ kds))
]

-- `source`
pub data Source : Type 0 where
  live : Source
  cached : Source
  bundled : Source

-- `AnchorManager`, with the file at `cachePath`.
pub record AnchorManager : Type 0 where
  pub url : GoString
  pub cache_path : GoString
  pub interval : ℕ
  pub anchors : List TrustAnchor
  pub source : Source
  pub last_fetch : Option ℕ
  pub last_error : GoString
  pub cache_file : Option GoString

abbrev pub root_anchors_url : GoString
root_anchors_url = ascii "https://data.iana.org/root-anchors/root-anchors.xml"

-- `DefaultAnchorRefreshInterval`
abbrev pub default_anchor_refresh : ℕ
default_anchor_refresh = 7 * (24 * (60 * minute))

-- `NewAnchorManager`
unfoldable pub new_anchor_manager : GoString → GoString → ℤ → Option GoString → AnchorManager
new_anchor_manager url cache_path interval file = record {
  url = if is_empty url then root_anchors_url else url;
  cache_path = cache_path;
  interval = positive_or default_anchor_refresh interval;
  anchors = default_root_anchors;
  source = bundled;
  last_fetch = none;
  last_error = [];
  cache_file = file;
}

-- What `load` returns.
pub record Loaded : Type 0 where
  pub anchors : List TrustAnchor
  pub source : Source
  pub last_err : GoString

-- The end of `load`: the cached copy, or the bundled anchors.
unfoldable pub fall_back :
    (GoString → List TrustAnchor ⊎ GoString) → AnchorManager → GoString → Loaded
fall_back parse m err =
    let last : Loaded = record {
      anchors = default_root_anchors;
      source = bundled;
      last_err = ascii "live: " ++ err ++ ascii "; cache: no usable copy";
    } in
    if is_empty m.cache_path then last else elim m.cache_file [
      | none ↦ last
      | some raw ↦ elim (parse raw) [
        | inr _ ↦ last
        | inl parsed ↦ record {
          anchors = parsed;
          source = cached;
          last_err = ascii "live: " ++ err;
        }
      ]
    ]

-- `load`, on a disk that takes the file: the fetch is a parameter, `inr` for its error.
unfoldable pub load :
    (GoString → List TrustAnchor ⊎ GoString)
    → GoString ⊎ GoString
    → AnchorManager
    → AnchorManager × Loaded
load parse fetched m = elim fetched [
  | inr err ↦ (m, fall_back parse m (ascii "fetch failed: " ++ err))
  | inl raw ↦ elim (parse raw) [
    | inr err ↦ (m, fall_back parse m (ascii "parse failed: " ++ err))
    | inl parsed ↦ (
      if is_empty m.cache_path then m else record m { cache_file = some raw },
      record { anchors = parsed; source = live; last_err = [] },
    )
  ]
]

unfoldable pub is_live : Source → Bool
is_live live = true
is_live cached = false
is_live bundled = false

-- `Refresh`
unfoldable pub refresh :
    (GoString → List TrustAnchor ⊎ GoString)
    → GoString ⊎ GoString
    → ℕ
    → AnchorManager
    → AnchorManager
refresh parse fetched now m =
    let (m', l) = load parse fetched m in
    record m' {
      anchors = l.anchors;
      source = l.source;
      last_error = l.last_err;
      last_fetch = if is_live l.source then some now else m'.last_fetch;
    }

-- The loops of `verifyAgainstAnchors`.
unfoldable pub find_anchored : DnsLib → List Dnskey → List TrustAnchor → Option Dnskey
find_anchored lib keys [] = none
find_anchored lib keys (a ∷ anchors) =
    elim (find_key lib a.digest_type a.key_tag a.algorithm a.digest keys) [
      | some k ↦ some k
      | none ↦ find_anchored lib keys anchors
    ]

-- `verifyAgainstAnchors`
unfoldable pub verify_against_anchors :
    DnsLib → ℕ → List Dnskey → List Rrsig → List Rr → List TrustAnchor → Bool
verify_against_anchors lib now keys sigs rrset anchors = elim (find_anchored lib keys anchors) [
  | none ↦ false
  | some k ↦ verify_signed_any lib now sigs rrset (k ∷ [])
]
