-- ===== src/Auth/Action.antt =====
-- src/auth.c, `auth_client_action`: what each action leaves of the client list, for every client.
use wifi_cat.Base.{
  ℕ, ◌≡◌, refl, inl, inr, Option, none, some, if◌then◌else◌, ◌==◌, ok, arith, Bool-cases,
  Option-cases,
}
use wifi_cat.Base.Text.{Text}
use wifi_cat.Shell.{Shell}
use wifi_cat.Conf.{Config}
use wifi_cat.ClientList.{Node, client_list_find, update_client}
use wifi_cat.ClientList.Nodes.{node_at}
use wifi_cat.ClientList.Invariant.{Inv, deleted, deleted-Inv, delete-node_at, update_client-Inv}
use wifi_cat.ClientList.Unique.{
  Unique, Unique-without, Unique-update_at, find_first-node_at, find_first-without,
  find_first-update_at,
}
use wifi_cat.Iptables.{Marks}
use wifi_cat.Iptables.Access.{
  AuthAction, make_authenticated, make_deauthenticated, other_action, iptables_fw_access,
}
use wifi_cat.Auth.{State, with_state, authenticate, drop_client, auth_client_action}

-- What the list promises in every state that the program reaches.
pub record Consistent (max : ℕ) (s : State) : Type 0 where
  pub inv : Inv max s.clients
  pub unique : Unique s.clients.first

-- What dropping the client of a node makes of the state.
unfoldable pub dropped : Config → Marks → Node → State → State
dropped config m n s = record s {
  clients = deleted n s.clients;
  shell =
      if n.client.fw_connection_state == m.authenticated
      then (iptables_fw_access config m make_deauthenticated n.client s.shell).0
      else s.shell;
}

pub drop_client-dropped :
    (max : ℕ) (config : Config) (m : Marks) (n : Node) (s : State)
    → Inv max s.clients
    → node_at n.addr s.clients.first ≡ some n
    → drop_client config m n s ≡ ok (dropped config m n s)
unfolding drop_client dropped
drop_client-dropped max config m n s v at =
    rw (delete-node_at max s.clients v n.addr n at, drop_client)

module _ (max : ℕ) (config : Config) (m : Marks) (s : State) (v : Consistent max s) where
  pub dropped-Consistent :
      (n : Node) → node_at n.addr s.clients.first ≡ some n → Consistent max (dropped config m n s)
  unfolding dropped deleted
  dropped-Consistent n at = record {
    inv = deleted-Inv max s.clients v.inv n.addr n at;
    unique = Unique-without n.addr s.clients.first v.unique;
  }

  authenticate-Consistent : (n : Node) → Consistent max (authenticate config m n s)
  unfolding authenticate update_client
  authenticate-Consistent n = elim (Bool-cases (n.client.fw_connection_state == m.authenticated)) [
    | inl t ↦ rw t v
    | inr f ↦ rw f (record {
      inv = update_client-Inv max s.clients n.addr (with_state m.authenticated) (λ c. refl) v.inv;
      unique =
          Unique-update_at n.addr (with_state m.authenticated) s.clients.first (λ c. (refl, refl))
            v.unique;
    })
  ]

-- What the search for the client gives after an action, from what it gave before.
unfoldable pub expected : Marks → AuthAction → Option Node → Option Node
expected m make_authenticated (some n) =
    some (record n { client = with_state m.authenticated n.client })
expected m make_deauthenticated found = none
expected m action found = found

-- The shell after an action: the rules of the client are put in or taken out exactly where it changes
-- between authenticated and not.
pub shell_after : Config → Marks → AuthAction → Option Node → Shell → Shell
shell_after config m make_authenticated (some n) w =
    if n.client.fw_connection_state == m.authenticated
    then w
    else (iptables_fw_access config m make_authenticated (with_state m.authenticated n.client) w).0
shell_after config m make_deauthenticated (some n) w =
    if n.client.fw_connection_state == m.authenticated
    then (iptables_fw_access config m make_deauthenticated n.client w).0
    else w
shell_after config m action found w = w

-- How an action ends.
pub record Acts (max : ℕ) (config : Config) (m : Marks) (ip mac : Text) (action : AuthAction)
    (s : State) : Type 0 where
  pub result : State
  pub returns : auth_client_action config m ip mac action s ≡ ok result
  pub consistent : Consistent max result
  pub found :
      client_list_find ip mac result.clients ≡ expected m action (client_list_find ip mac s.clients)
  pub shell : result.shell ≡ shell_after config m action (client_list_find ip mac s.clients) s.shell

module _ (max : ℕ) (config : Config) (m : Marks) (ip mac : Text) (s : State)
    (v : Consistent max s) where
  Acts-absent :
      (action : AuthAction)
      → client_list_find ip mac s.clients ≡ none
      → Acts max config m ip mac action s
  unfolding auth_client_action expected shell_after
  Acts-absent action e = record {
    result = s;
    returns = rw (e, auth_client_action);
    consistent = v;
    found = elim action [
      | make_authenticated ↦ ground arith
      | make_deauthenticated ↦ ground arith
      | other_action k ↦ ground arith
    ];
    shell = elim action [
      | make_authenticated ↦ ground arith
      | make_deauthenticated ↦ ground arith
      | other_action k ↦ ground arith
    ];
  }

  Acts-authenticated :
      (n : Node)
      → client_list_find ip mac s.clients ≡ some n
      → Acts max config m ip mac make_authenticated s
  unfolding auth_client_action expected shell_after authenticate update_client client_list_find
  Acts-authenticated n e = record {
    result = authenticate config m n s;
    returns = rw (e, auth_client_action);
    consistent = authenticate-Consistent max config m s v n;
    found = elim (Bool-cases (n.client.fw_connection_state == m.authenticated)) [
      | inl t ↦ ground arith
      | inr f ↦ ground (
        arith,
        find_first-update_at ip mac (with_state m.authenticated) s.clients.first n
            (λ c. (refl, refl)) v.inv.distinct e,
      )
    ];
    shell = ground arith;
  }

  Acts-deauthenticated :
      (n : Node)
      → client_list_find ip mac s.clients ≡ some n
      → Acts max config m ip mac make_deauthenticated s
  unfolding auth_client_action expected shell_after client_list_find dropped deleted
  Acts-deauthenticated n e =
      let at = find_first-node_at ip mac s.clients.first n v.inv.distinct e in
      record {
        result = dropped config m n s;
        returns = ground (arith, drop_client-dropped max config m n s v.inv at);
        consistent = dropped-Consistent max config m s v n at;
        found =
            ground (arith, find_first-without ip mac s.clients.first n v.unique v.inv.distinct e);
        shell = ground arith;
      }

  Acts-other :
      (k : ℕ) (n : Node)
      → client_list_find ip mac s.clients ≡ some n
      → Acts max config m ip mac (other_action k) s
  unfolding auth_client_action expected shell_after
  Acts-other k n e = record {
    result = s;
    returns = rw (e, auth_client_action);
    consistent = v;
    found = ground arith;
    shell = ground arith;
  }

  -- On a consistent list, every action ends without a fault in a consistent list. A client that is on
  -- the list is authenticated after the one action and gone after the other; an action on an unknown client or an
  -- unknown action changes nothing; the rules of the client are put in or taken out exactly where it
  -- changes between authenticated and not.
  pub auth_client_action-Acts : (action : AuthAction) → Acts max config m ip mac action s
  auth_client_action-Acts make_authenticated =
      elim (Option-cases (client_list_find ip mac s.clients)) [
        | inl e ↦ Acts-absent make_authenticated e
        | inr (n, e) ↦ Acts-authenticated n e
      ]
  auth_client_action-Acts make_deauthenticated =
      elim (Option-cases (client_list_find ip mac s.clients)) [
        | inl e ↦ Acts-absent make_deauthenticated e
        | inr (n, e) ↦ Acts-deauthenticated n e
      ]
  auth_client_action-Acts (other_action k) =
      elim (Option-cases (client_list_find ip mac s.clients)) [
        | inl e ↦ Acts-absent (other_action k) e
        | inr (n, e) ↦ Acts-other k n e
      ]
