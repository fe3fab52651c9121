-- ===== src/Clients/Open.antt =====
-- internal/dnsserver/acl.go: when the server is open to everyone.
use irongrid_dns.Prelude.{
  ◌≡◌, refl, sym, ◌∙◌, ◌⊎◌, inl, inr, true, false, List, [], ◌∷◌, Option, none, some, arith,
  Bool-cases, Option-cases,
}
use irongrid_dns.Bytes.{GoString, is_empty}
use irongrid_dns.Text.{Unicode, trim_space}
use irongrid_dns.Clients.Acl.{Net, NetLib, Acl, parse_entry, parse_nets, build_acl}

-- No entry has more than white space.
abbrev pub AllBlank : Unicode → List GoString → Type 0
AllBlank u [] = Unit
AllBlank u (raw ∷ raws) = (is_empty (trim_space u raw) ≡ true) × AllBlank u raws

module _ (lib : NetLib) (u : Unicode) (raw : GoString) (raws : List GoString) where
  skipped :
      is_empty (trim_space u raw) ≡ true → parse_nets lib u (raw ∷ raws) ≡ parse_nets lib u raws
  unfolding parse_nets
  skipped blank = rw (parse_nets, blank) refl

  -- An entry fails, or its network is in the result.
  not_lost : is_empty (trim_space u raw) ≡ false → ¬ (parse_nets lib u (raw ∷ raws) ≡ inl [])
  unfolding parse_nets
  not_lost given = elim (Option-cases (parse_entry lib (trim_space u raw))) [
    | inl bad ↦ rw (parse_nets, given, bad) (λ h. ground (arith, h))
    | inr (net, good) ↦ rw (parse_nets, given, good) (go net (parse_nets lib u raws))
  ]
    where
      go :
          (net : Net) (r : List Net ⊎ GoString)
          → ¬ (
              (elim r as (λ _. List Net ⊎ GoString) [
                | inr bad ↦ inr bad
                | inl nets ↦ inl (net ∷ nets)
              ])
              ≡ inl [])
      go net (inr bad) h = ground (arith, h)
      go net (inl nets) h = ground (arith, h)

parse_nets-AllBlank :
    (lib : NetLib) (u : Unicode) (specs : List GoString)
    → parse_nets lib u specs ≡ inl []
    → AllBlank u specs
parse_nets-AllBlank lib u [] e = tt
parse_nets-AllBlank lib u (raw ∷ raws) e = elim (Bool-cases (is_empty (trim_space u raw))) [
  | inl blank ↦ (blank, parse_nets-AllBlank lib u raws (sym (skipped lib u raw raws blank) ∙ e))
  | inr given ↦ absurd (not_lost lib u raw raws given e)
]

-- The access list is absent, which opens the server to everyone, only where no entry of the
-- configuration has more than white space.
build_acl-AllBlank :
    (lib : NetLib) (u : Unicode) (specs : List GoString)
    → build_acl lib u specs ≡ inl none
    → AllBlank u specs
unfolding build_acl
build_acl-AllBlank lib u specs e = parse_nets-AllBlank lib u specs (go (parse_nets lib u specs) e)
  where
    go :
        (r : List Net ⊎ GoString)
        → (elim r as (λ _. Option Acl ⊎ GoString) [
          | inr bad ↦ inr bad
          | inl [] ↦ inl none
          | inl (net ∷ nets) ↦ inl (some (record { nets = net ∷ nets }))
        ])
          ≡ inl none
        → r ≡ inl []
    go (inr bad) h = ground (arith, h)
    go (inl []) h = refl
    go (inl (net ∷ nets)) h = ground (arith, h)
