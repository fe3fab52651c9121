-- ===== src/Serve/KeptAnswers.antt =====
-- internal/dnsserver/handler.go: what `serve` and `finishResolve` keep of the handler.
use irongrid_dns.Prelude.{
  either_way, ℕ, Bool, List, [], ◌∷◌, ◌++◌, Option, none, some, inl, inr, ◌==◌,
}
use irongrid_dns.Bytes.{GoString}
use irongrid_dns.Banner.{Banner, canonical_domain}
use irongrid_dns.Filter.State.{Engine}
use irongrid_dns.Forward.Upstreams.{Upstream}
use irongrid_dns.Filter.Rewrite.{lookup_rules, build_answer}
use irongrid_dns.Filter.Decide.{Action, allow, block, decide_domain}
use irongrid_dns.Serve.State.{
  Query, Question, Response, Settings, Handler, ServeLib, Hit, log_entry,
}
use irongrid_dns.Serve.Guards.{guards, punish}
use irongrid_dns.Serve.Reverse.{reverse_name_ip}
use irongrid_dns.Serve.Answers.{
  answer_with, answer_any, answer_local, answer_proxy, answer_host, answer_ptr, own_answers,
  client_policy, block_name, note_missing, serve_hit, Next, after_filter, filter_and_cache,
  continue, answer, type_ptr, Plan, lookup_hit, count_query, serve_question, serve,
}
use irongrid_dns.Serve.Kept.{
  Closed, option_way, Holds, still, over, Keeps, AllKeep, chain-Keeps, append-AllKeep,
  guards-AllKeep,
}

module _ (Open Done : Handler → Type 0) where
  -- What holds after `serve`: the query is answered, or a resolution is to end it.
  unfoldable pub HoldsNext : Handler × Next → Type 0
  HoldsNext (h, inl x) = Done h
  HoldsNext (h, inr plan) = Open h

  pub ended : (h : Handler) (x : Response) → Done h → HoldsNext (h, inl x)
  unfolding HoldsNext
  ended h x p = p

  pub planned : (h : Handler) (plan : Plan) → Open h → HoldsNext (h, inr plan)
  unfolding HoldsNext
  planned h plan p = p

  pub continue-HoldsNext :
      (p : Handler × Option Response) (next : Handler → Handler × Next)
      → Holds Open Done p
      → ((h : Handler) → Open h → HoldsNext (next h))
      → HoldsNext (continue p next)
  unfolding Holds HoldsNext
  continue-HoldsNext (h, none) next k n = n h k
  continue-HoldsNext (h, some x) next k n = k

module _ (Open Done : Handler → Type 0) (c : Closed Open Done) where
  abbrev Kept : Handler × Option Response → Type 0
  Kept = Holds Open Done

  abbrev KeptNext : Handler × Next → Type 0
  KeptNext = HoldsNext Open Done

  answer_with-Keeps :
      (r : Query) (q : Question) (qname action reason : GoString) (x : Response)
      → Keeps Open Done (answer_with r q qname action reason x)
  unfolding answer_with log_entry
  answer_with-Keeps r q qname action reason x h p =
      over Open Done _ x (c.logged _ _ (c.allowed h p))

  answer_any-Keeps :
      (r : Query) (q : Question) (qname : GoString) → Keeps Open Done (answer_any r q qname)
  unfolding answer_any
  answer_any-Keeps r q qname h p =
      either_way Kept _ _ _ (answer_with-Keeps r q qname _ _ _ h p) (still Open Done h p)

  answer_local-Keeps :
      (lib : ServeLib) (s : Settings) (r : Query) (q : Question) (qname : GoString)
      → Keeps Open Done (answer_local lib s r q qname)
  unfolding answer_local
  answer_local-Keeps lib s r q qname h p =
      option_way Kept s.rewriter _ _ (still Open Done h p) (λ w.
        option_way Kept (lookup_rules lib.filter w q.name) _ _ (still Open Done h p) (λ rules.
          option_way Kept (build_answer lib.to4 lib.net.parse_ip q.qtype rules) _ _
            (answer_with-Keeps r q qname _ _ _ h p) (λ ans. answer_with-Keeps r q qname _ _ _ h p)))

  answer_proxy-Keeps :
      (lib : ServeLib) (r : Query) (q : Question) (qname : GoString)
      → Keeps Open Done (answer_proxy lib r q qname)
  unfolding answer_proxy
  answer_proxy-Keeps lib r q qname h p =
      option_way Kept (lib.proxy q) _ _ (still Open Done h p)
        (λ ip. answer_with-Keeps r q qname _ _ _ h p)

  answer_ptr-Keeps :
      (lib : ServeLib) (r : Query) (q : Question) (qname : GoString)
      → Keeps Open Done (answer_ptr lib r q qname)
  unfolding answer_ptr
  answer_ptr-Keeps lib r q qname h p =
      either_way Kept (q.qtype == type_ptr) _ _
        (option_way Kept (reverse_name_ip lib q.name) _ _ (still Open Done h p) (λ ip.
          option_way Kept (lib.lookup_ptr (lib.ip_text ip)) _ _ (still Open Done h p)
            (λ host. answer_with-Keeps r q qname _ _ _ h p)))
        (still Open Done h p)

  hosts_way :
      (ips : List GoString) (x : Handler × Option Response)
      (f : GoString → List GoString → Handler × Option Response)
      → Kept x
      → ((ip : GoString) (more : List GoString) → Kept (f ip more))
      → Kept (elim ips [ [] ↦ x | ip ∷ more ↦ f ip more ])
  hosts_way [] x f a b = a
  hosts_way (ip ∷ more) x f a b = b ip more

  answer_host-Keeps :
      (lib : ServeLib) (r : Query) (q : Question) (qname : GoString)
      → Keeps Open Done (answer_host lib r q qname)
  unfolding answer_host
  answer_host-Keeps lib r q qname h p =
      hosts_way (lib.lookup_host q.name) _ _ (still Open Done h p)
        (λ ip more. answer_with-Keeps r q qname _ _ _ h p)

  own_answers-AllKeep :
      (lib : ServeLib) (s : Settings) (r : Query) (q : Question) (qname : GoString)
      → AllKeep Open Done (own_answers lib s r q qname)
  own_answers-AllKeep lib s r q qname = (
    answer_any-Keeps r q qname,
    (
      answer_local-Keeps lib s r q qname,
      (
        answer_proxy-Keeps lib r q qname,
        (answer_host-Keeps lib r q qname, (answer_ptr-Keeps lib r q qname, tt)),
      ),
    ),
  )

  client_policy-keeps :
      (lib : ServeLib) (s : Settings) (r : Query) (h : Handler)
      → Open h
      → Open (client_policy lib s r h).0
  unfolding client_policy
  client_policy-keeps lib s r h p =
      option_way (λ (x : Handler × (Engine × List Upstream)). Open x.0) h.client_router _ _ p
        (λ cr. c.router h _ p)

  note_missing-keeps :
      (lib : ServeLib) (r : Query) (hit : Hit) (now : ℕ) (h : Handler)
      → Done h
      → Done (note_missing lib r hit now h)
  unfolding note_missing
  note_missing-keeps lib r hit now h p =
      option_way Done h.nx_guard h _ p (λ g. either_way Done _ _ _ (c.nx_done h _ p) p)

  serve_hit-keeps :
      (lib : ServeLib) (r : Query) (q : Question) (qname : GoString) (hit : Hit) (now : ℕ)
      (h : Handler)
      → Open h
      → Done (serve_hit lib r q qname hit now h).0
  unfolding serve_hit log_entry
  serve_hit-keeps lib r q qname hit now h p =
      c.logged _ _ (note_missing-keeps lib r hit now _ (c.cached h p))

  after_filter-keeps :
      (lib : ServeLib) (s : Settings) (r : Query) (q : Question) (qname : GoString) (now : ℕ)
      (engine : Engine) (us : List Upstream) (listed : Bool) (h : Handler)
      → Open h
      → KeptNext (after_filter lib s r q qname now engine us listed h)
  unfolding after_filter
  after_filter-keeps lib s r q qname now engine us listed h p =
      option_way KeptNext (lookup_hit lib s q) _ _ (planned Open Done h _ p) (λ hit.
        either_way KeptNext hit.is_stale _ _ (planned Open Done h _ p)
          (ended Open Done _ _ (serve_hit-keeps lib r q qname hit now h p)))

  action_way :
      (a : Action) (x y : Handler × Next)
      → KeptNext x
      → KeptNext y
      → KeptNext (elim a [ block ↦ x | allow ↦ y ])
  action_way block x y p q = p
  action_way allow x y p q = q

  filter_and_cache-keeps :
      (lib : ServeLib) (s : Settings) (r : Query) (q : Question) (qname : GoString) (now : ℕ)
      (h : Handler)
      → Open h
      → KeptNext (filter_and_cache lib s r q qname now h)
  unfolding filter_and_cache block_name log_entry
  filter_and_cache-keeps lib s r q qname now h p =
      let open' = client_policy-keeps lib s r h p in
      action_way (decide_domain lib.filter (client_policy lib s r h).1.0.rs q.name).action _ _
        (ended Open Done _ _ (c.logged _ _ (c.blocked _ open')))
        (after_filter-keeps lib s r q qname now _ _ _ _ open')

  answer-keeps :
      (lib : ServeLib) (s : Settings) (r : Query) (q : Question) (now : ℕ)
      → ((b : Banner) (h : Handler) → Open h → Open (punish lib s r now b h))
      → (h : Handler) → Open h
      → KeptNext (answer lib s r q now h)
  unfolding answer
  answer-keeps lib s r q now banned h p =
      let qname = canonical_domain lib.prefix.unicode q.name in
      continue-HoldsNext Open Done _ (filter_and_cache lib s r q qname now)
        (chain-Keeps Open Done (guards lib s r q now ++ own_answers lib s r q qname)
          (append-AllKeep Open Done (guards lib s r q now) (own_answers lib s r q qname)
            (guards-AllKeep Open Done c lib s r q now banned) (own_answers-AllKeep lib s r q qname))
          h p)
        (filter_and_cache-keeps lib s r q qname now)

  -- What a trap and all that a query changes keep, `serve` keeps, once the query is counted.
  pub serve-HoldsNext :
      (lib : ServeLib) (s : Settings) (r : Query) (now : ℕ)
      → ((b : Banner) (h : Handler) → Open h → Open (punish lib s r now b h))
      → (h : Handler) → Open (count_query h)
      → KeptNext (serve lib s r now h)
  unfolding serve serve_question
  serve-HoldsNext lib s r now banned h p = of_question r.question
    where
      of_question : (o : Option Question) → KeptNext (serve_question lib s r now o (count_query h))
      of_question none = ended Open Done _ _ (c.stop _ p)
      of_question (some q) = answer-keeps lib s r q now banned (count_query h) p
