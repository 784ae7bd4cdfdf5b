-- ===== src/Auth.antt =====
-- src/auth.c: what an authentication or its revocation does to the client list and the firewall.
pub mod Action
pub mod Refines
use wifi_cat.Base.{ℕ, ◌+◌, ◌%◌, ◌^◌, Option, none, some, if◌then◌else◌, ◌==◌, Run, ok, fault, ◌>>=◌}
use wifi_cat.Base.Text.{Text}
use wifi_cat.Shell.{Shell}
use wifi_cat.Conf.{Config}
use wifi_cat.ClientList.{
  Client, ClientList, Node, client_list_find, client_list_delete, update_client,
}
use wifi_cat.Iptables.{Marks}
use wifi_cat.Iptables.Access.{
  AuthAction, make_authenticated, make_deauthenticated, other_action, iptables_fw_access,
}

-- The state that the threads share, under the lock of the client list: the list, the commands run so
-- far, and the counter `authenticated_since_start`.
pub record State : Type 0 where
  pub clients : ClientList
  pub shell : Shell
  pub authenticated_since_start : ℕ

-- `client->fw_connection_state = mark`
abbrev pub with_state : ℕ → Client → Client
with_state mark c = record c { fw_connection_state = mark }

-- The three cases of the switch, for a client that is on the list.
unfoldable pub authenticate : Config → Marks → Node → State → State
authenticate config m n s =
    if n.client.fw_connection_state == m.authenticated then s else record s {
      clients = update_client n.addr (with_state m.authenticated) s.clients;
      shell =
          (iptables_fw_access config m make_authenticated (with_state m.authenticated n.client)
            s.shell).0;
      authenticated_since_start = (s.authenticated_since_start + 1) % 2 ^ 32;
    }

-- The rules are taken out where they were put in, and the client leaves the list. Also the body of the
-- two timeouts of `fw_refresh_client_list`.
unfoldable pub drop_client : Config → Marks → Node → State → Run State
drop_client config m n s = do
  clients ← client_list_delete n.addr s.clients
  ok (record s {
    clients = clients;
    shell =
        if n.client.fw_connection_state == m.authenticated
        then (iptables_fw_access config m make_deauthenticated n.client s.shell).0
        else s.shell;
  })

-- `auth_client_action`
unfoldable pub auth_client_action : Config → Marks → Text → Text → AuthAction → State → Run State
unfolding authenticate drop_client
auth_client_action config m ip mac action s = elim (client_list_find ip mac s.clients) [
  | none ↦ ok s
  | some n ↦ elim action [
    | make_authenticated ↦ ok (authenticate config m n s)
    | make_deauthenticated ↦ drop_client config m n s
    | other_action k ↦ ok s
  ]
]
