-- ===== src/Forward/Routes.antt =====
-- internal/dnsserver/handler.go: the route of a name.
use irongrid_dns.Prelude.{
  either_way, ◌≡◌, refl, inl, inr, Bool, true, false, ◌&&◌, ◌||◌, List, [], ◌∷◌, Option, none, some,
  arith, ltb, length, if◌then◌else◌, Bool-cases,
}
use irongrid_dns.Bytes.{GoString, is_empty, str_eq}
use irongrid_dns.Forward.Upstreams.{Upstream}

-- `UpstreamRoute`
pub record UpstreamRoute : Type 0 where
  pub domain : GoString
  pub upstreams : List Upstream

-- `strings.HasSuffix`
unfoldable pub has_suffix : GoString → GoString → Bool
has_suffix [] p = is_empty p
has_suffix (c ∷ s) p = str_eq (c ∷ s) p || has_suffix s p

-- `name == dom || strings.HasSuffix(name, "."+dom)`
unfoldable pub covers_name : GoString → UpstreamRoute → Bool
covers_name name r = str_eq name r.domain || has_suffix name (46 ∷ r.domain)

-- `len(dom) > bestLen`, where `bestLen` is -1 without a best route.
unfoldable pub longer : UpstreamRoute → Option UpstreamRoute → Bool
longer r none = true
longer r (some best) = ltb (length best.domain) (length r.domain)

unfoldable pub better : GoString → UpstreamRoute → Option UpstreamRoute → Option UpstreamRoute
better name r best = if covers_name name r && longer r best then some r else best

unfoldable pub match_from :
    GoString → List UpstreamRoute → Option UpstreamRoute → Option UpstreamRoute
match_from name [] best = best
match_from name (r ∷ rs) best = match_from name rs (better name r best)

-- `routeMatch`
unfoldable pub route_match : List UpstreamRoute → GoString → Option UpstreamRoute
route_match rs name = match_from name rs none

abbrev pub Covers : GoString → Option UpstreamRoute → Type 0
Covers name none = Unit
Covers name (some r) = covers_name name r ≡ true

-- No route that covers the name has a longer domain than the one that is chosen.
abbrev pub NoneLonger : GoString → Option UpstreamRoute → List UpstreamRoute → Type 0
NoneLonger name best [] = Unit
NoneLonger name best (r ∷ rs) =
    ((covers_name name r && longer r best) ≡ false) × NoneLonger name best rs

module _ (name : GoString) where
  better-longer :
      (q r : UpstreamRoute) (best : Option UpstreamRoute)
      → longer q best ≡ false
      → longer q (better name r best) ≡ false
  unfolding better longer
  better-longer q r none h = absurd (ground (arith, h))
  better-longer q r (some b) h =
      elim (Bool-cases (covers_name name r && ltb (length b.domain) (length r.domain))) [
        | inl on ↦ rw on (ground (arith, h, on))
        | inr off ↦ rw off h
      ]

  match_from-longer :
      (q : UpstreamRoute) (rs : List UpstreamRoute) (best : Option UpstreamRoute)
      → longer q best ≡ false
      → longer q (match_from name rs best) ≡ false
  unfolding match_from
  match_from-longer q [] best h = h
  match_from-longer q (r ∷ rs) best h =
      match_from-longer q rs (better name r best) (better-longer q r best h)

  better_self :
      (r : UpstreamRoute) (best : Option UpstreamRoute)
      → covers_name name r ≡ true
      → longer r (better name r best) ≡ false
  unfolding better longer
  better_self r best h = elim (Bool-cases (longer r best)) [
    | inl more ↦ rw (h, more) (itself r)
    | inr less ↦ rw (h, less) less
  ]
    where
      itself : (r : UpstreamRoute) → longer r (some r) ≡ false
      itself r = ground arith

  match_from-NoneLonger :
      (rs : List UpstreamRoute) (best : Option UpstreamRoute)
      → NoneLonger name (match_from name rs best) rs
  unfolding match_from
  match_from-NoneLonger [] best = tt
  match_from-NoneLonger (r ∷ rs) best = (
    elim (Bool-cases (covers_name name r)) [
      | inl on ↦ rw on (match_from-longer r rs (better name r best) (better_self r best on))
      | inr off ↦ rw off refl
    ],
    match_from-NoneLonger rs (better name r best),
  )

  better-Covers :
      (r : UpstreamRoute) (best : Option UpstreamRoute)
      → Covers name best
      → Covers name (better name r best)
  unfolding better
  better-Covers r best c = elim (Bool-cases (covers_name name r)) [
    | inl on ↦ rw on (either_way (Covers name) (longer r best) _ _ on c)
    | inr off ↦ rw off c
  ]

  match_from-Covers :
      (rs : List UpstreamRoute) (best : Option UpstreamRoute)
      → Covers name best
      → Covers name (match_from name rs best)
  unfolding match_from
  match_from-Covers [] best c = c
  match_from-Covers (r ∷ rs) best c =
      match_from-Covers rs (better name r best) (better-Covers r best c)

-- The route that is chosen for a name covers it, and no route that covers it has a longer domain;
-- where none is chosen, none covers it.
pub route_match-NoneLonger :
    (rs : List UpstreamRoute) (name : GoString)
    → Covers name (route_match rs name) × NoneLonger name (route_match rs name) rs
unfolding route_match
route_match-NoneLonger rs name =
    (match_from-Covers name rs none tt, match_from-NoneLonger name rs none)
