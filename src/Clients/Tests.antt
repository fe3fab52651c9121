-- ===== src/Clients/Tests.antt =====
-- Tests and worked examples of the access list and the router (internal/dnsserver).
use irongrid_dns.Prelude.{◌≡◌, refl, ◌≤◌, [], ◌∷◌, none, some, true, arith, length}
use irongrid_dns.Bytes.{ascii, str_eq}
use irongrid_dns.Text.{Unicode}
use irongrid_dns.Shards.Table.{lookup}
use irongrid_dns.Clients.Acl.{NetLib}
use irongrid_dns.Clients.Router.{
  ClientPolicy, ClientRouter, GroupCidrs, Pending, new_client_router, set_policies, resolve,
  begin_resolve, finish_resolve,
}
use irongrid_dns.Clients.Coherent.{Use, use_all, policy_of, resolve-use_all}
use irongrid_dns.Clients.Stale.{ask_all, stale_after_reload}

-- Every text is an address, and a network is the text of its one address.
abbrev plain_net : NetLib
plain_net = record {
  parse_ip = λ s. some s;
  is_ip4 = λ _. true;
  parse_cidr = λ s. some (λ ip. str_eq s ip);
  host_net = λ s ip. str_eq s ip;
}

abbrev kids : ClientPolicy
kids = record { group_id = ascii "k"; group_name = ascii "Kids" }

abbrev kids_group : GroupCidrs
kids_group = record { cidrs = ascii "1" ∷ []; asns = []; policy = some kids }

resolve-use_all_example :
    ((resolve plain_net (ascii "1") (
        use_all plain_net
          (Use.configure (kids_group ∷ []) none ∷ Use.ask (ascii "1") ∷ [])
          new_client_router)).1
      ≡ policy_of plain_net
          (use_all plain_net
            (Use.configure (kids_group ∷ []) none ∷ Use.ask (ascii "1") ∷ [])
            new_client_router).entries
          (ascii "1"))
    × (length
          (use_all plain_net
            (Use.configure (kids_group ∷ []) none ∷ Use.ask (ascii "1") ∷ [])
            new_client_router).cache
        ≤ 4097)
resolve-use_all_example =
    resolve-use_all plain_net (Use.configure (kids_group ∷ []) none ∷ Use.ask (ascii "1") ∷ [])
      (ascii "1")

-- A client asks while no group is configured.
abbrev asked : Pending
asked = record { client = ascii "1"; ip = ascii "1"; entries = new_client_router.entries }

abbrev reloaded : ClientRouter
reloaded =
    (finish_resolve asked (set_policies plain_net (kids_group ∷ []) none new_client_router)).0

-- Another client asks, and then the one of the race again.
stale_after_reload_example :
    (resolve plain_net (ascii "1") (ask_all plain_net (ascii "2" ∷ ascii "1" ∷ []) reloaded)).1
    ≡ policy_of plain_net new_client_router.entries (ascii "1")
unfolding begin_resolve lookup new_client_router
stale_after_reload_example =
    stale_after_reload plain_net (ascii "1") new_client_router asked (kids_group ∷ []) none
      (ascii "2" ∷ ascii "1" ∷ []) refl (omega arith)

abbrev narrow : Unicode
narrow = record { trim_wide = λ s. s; fields_wide = λ s. s ∷ []; lower_wide = λ s. s }
