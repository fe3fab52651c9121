-- ===== src/Serve/Says.antt =====
-- internal/dnsserver/handler.go: what the parts of `serve` write.
use irongrid_dns.Prelude.{
  ◌≡◌, refl, Bool, true, false, List, [], ◌∷◌, ◌++◌, Option, none, some, arith,
}
use irongrid_dns.Serve.State.{Response, Handler, Stage, resume, chain}
use irongrid_dns.Serve.Kept.{Holds, AllKeep}

-- A stage that answers at most what a test allows, and one that answers so.
unfoldable pub says : (Response → Bool) → Option Response → Bool
says ok none = true
says ok (some x) = ok x

unfoldable pub answers : (Response → Bool) → Option Response → Bool
answers ok none = false
answers ok (some x) = ok x

module _ (ok : Response → Bool) where
  unfoldable pub Says : Handler × Option Response → Type 0
  Says p = says ok p.1 ≡ true

  unfoldable pub Answers : Handler × Option Response → Type 0
  Answers p = answers ok p.1 ≡ true

  pub quiet : (h : Handler) → Says (h, none)
  unfolding Says says
  quiet h = refl

  pub written : (h : Handler) (x : Response) → ok x ≡ true → Says (h, some x)
  unfolding Says says
  written h x p = p

  pub answered : (h : Handler) (x : Response) → ok x ≡ true → Answers (h, some x)
  unfolding Answers answers
  answered h x p = p

  abbrev pub AllSay : List Stage → Type 0
  AllSay [] = Unit
  AllSay (m ∷ ms) = ((h : Handler) → Says (m h)) × AllSay ms

  resume-Answers :
      (Open Done : Handler → Type 0) (p : Handler × Option Response) (next : Stage)
      → Holds Open Done p
      → Says p
      → ((h : Handler) → Open h → Answers (next h))
      → Answers (resume p next)
  unfolding Holds Says says Answers answers
  resume-Answers Open Done (h, none) next k a n = n h k
  resume-Answers Open Done (h, some x) next k a n = a

  none_answers : (h : Handler) → Answers (h, none) → ⊥
  unfolding Answers answers
  none_answers h a = ground (arith, a)

  -- Stages that answer at most what is allowed, before one that answers so.
  pub chain-Answers :
      (Open Done : Handler → Type 0) (ms : List Stage) (last : Stage) (rest : List Stage)
      → AllKeep Open Done ms
      → AllSay ms
      → ((h : Handler) → Open h → Answers (last h))
      → (h : Handler) → Open h
      → Answers (chain (ms ++ (last ∷ rest)) h)
  unfolding chain
  chain-Answers Open Done [] last rest k a n h p = first (last h) (n h p)
    where
      first : (x : Handler × Option Response) → Answers x → Answers (resume x (chain rest))
      first (h', none) q = absurd (none_answers h' q)
      first (h', some x) q = q
  chain-Answers Open Done (m ∷ ms) last rest (k, ks) (a, as') n h p =
      resume-Answers Open Done (m h) (chain (ms ++ (last ∷ rest))) (k h p) (a h)
        (chain-Answers Open Done ms last rest ks as' n)
