-- ===== src/Ndsctl/Clients.antt =====
-- src/ndsctl_thread.c, `ndsctl_auth` and `ndsctl_deauth`: what they leave of the client list.
use wifi_cat.Base.{
  ℕ, ◌≡◌, ◌≢◌, refl, inl, inr, false, Option, none, some, Run, ok, arith, Option-cases,
}
use wifi_cat.Base.Int.{pos}
use wifi_cat.Base.Text.{Text}
use wifi_cat.ClientList.{
  Ptr, null, Node, ClientList, client_list_find, client_list_find_by_ip, client_list_find_by_mac,
}
use wifi_cat.ClientList.Nodes.{has_addr}
use wifi_cat.ClientList.Invariant.{Inv}
use wifi_cat.ClientList.Unique.{Unique, find_first-node_at}
use wifi_cat.ClientList.Register.{
  Outside, client_list_add_client, client_list_add_client-Sound, Sound, sound_none, sound_some,
}
use wifi_cat.Iptables.{Marks}
use wifi_cat.Iptables.Access.{make_authenticated, make_deauthenticated}
use wifi_cat.Auth.{State, with_state}
use wifi_cat.Auth.Action.{Consistent, expected, auth_client_action-Acts}
use wifi_cat.Ndsctl.{
  Daemon, Answer, answer_yes, answer_no, auth_node, ndsctl_auth, ndsctl_deauth, find_by_either,
}

-- How `ndsctl_deauth` ends: No where neither search finds the argument, and else the client is gone.
pub data Deauthed (max : ℕ) (arg : Text) (d : Daemon) : Run (Daemon × Answer) → Type 0 where
  not_found :
      client_list_find_by_ip arg d.state.clients ≡ none
      → client_list_find_by_mac arg d.state.clients ≡ none
      → Deauthed max arg d (ok (d, answer_no))
  deauthed :
      (n : Node) (s : State)
      → find_by_either arg d.state.clients ≡ some n
      → Consistent max s
      → client_list_find n.client.ip n.client.mac s.clients ≡ none
      → Deauthed max arg d (ok (record d { state = s }, answer_yes))

module _ (max : ℕ) (m : Marks) (arg : Text) (d : Daemon) (v : Consistent max d.state) where
  deauth-found :
      (n : Node)
      → find_by_either arg d.state.clients ≡ some n
      → Deauthed max arg d (ndsctl_deauth m arg d)
  unfolding ndsctl_deauth expected
  deauth-found n e =
      let acts =
        auth_client_action-Acts max d.config m n.client.ip n.client.mac d.state v
          make_deauthenticated in
      rw (ndsctl_deauth, e, acts.returns) (deauthed n acts.result e acts.consistent (acts.found))

  -- On a consistent client list, a request to deauthenticate ends without a fault in a consistent one. It answers No,
  -- and changes nothing, where no client has the argument as IP or as MAC; else it answers Yes, and the
  -- client that it found is off the list.
  pub ndsctl_deauth-Deauthed : Deauthed max arg d (ndsctl_deauth m arg d)
  unfolding ndsctl_deauth find_by_either
  ndsctl_deauth-Deauthed = elim (Option-cases (client_list_find_by_ip arg d.state.clients)) [
    | inr (n, e) ↦ deauth-found n (ground arith)
    | inl e ↦ elim (Option-cases (client_list_find_by_mac arg d.state.clients)) [
      | inr (n, e') ↦ deauth-found n (ground arith)
      | inl e' ↦ rw (ndsctl_deauth, find_by_either, e, e') (not_found e e')
    ]
  ]

-- How `ndsctl_auth` ends: No where the address gets no client, and else it has one that is authenticated.
pub data Authed (max : ℕ) (m : Marks) (ip : Text) (d : Daemon)
    : Run (Daemon × Answer) → Type 0 where
  no_client :
      (s : State) → Consistent max s → Authed max m ip d (ok (record d { state = s }, answer_no))
  authed :
      (n : Node) (s : State)
      → Consistent max s
      → n.client.ip ≡ ip
      → client_list_find n.client.ip n.client.mac s.clients ≡ some n
      → n.client.fw_connection_state ≡ m.authenticated
      → Authed max m ip d (ok (record d { state = s }, answer_yes))

module _ (max : ℕ) (m : Marks) (o : Outside) (ip : Text) (d : Daemon) where
  auth-added :
      (n : Node) (t : ClientList)
      → client_list_add_client d.config.maxclients o ip d.state.clients ≡ ok (some n.addr, t)
      → Inv max t
      → Unique t.first
      → n.client.ip ≡ ip
      → client_list_find n.client.ip n.client.mac t ≡ some n
      → Authed max m ip d (ndsctl_auth m o ip d)
  unfolding ndsctl_auth auth_node expected client_list_find
  auth-added n t added v u same found =
      let s : State = record d.state { clients = t } in
      let at = find_first-node_at n.client.ip n.client.mac t.first n v.distinct found in
      let w : Consistent max s = record { inv = v; unique = u } in
      let acts =
        auth_client_action-Acts max d.config m n.client.ip n.client.mac s w make_authenticated in
      let held = acts.found in
      rw (ndsctl_auth, added, at, auth_node, acts.returns)
        (authed (record n { client = with_state m.authenticated n.client }) acts.result
          acts.consistent same (ground (arith, held, found)) refl)

  -- On a consistent list, a request to authenticate ends without a fault in a consistent one, if malloc returns an
  -- address that is neither NULL nor in use. Where it answers Yes the address has a client, which is on the
  -- list, with that address, and authenticated.
  pub ndsctl_auth-Authed :
      d.config.maxclients ≡ pos max
      → Consistent max d.state
      → o.fresh ≢ null
      → has_addr o.fresh d.state.clients.first ≡ false
      → Authed max m ip d (ndsctl_auth m o ip d)
  unfolding ndsctl_auth
  ndsctl_auth-Authed e v ne unused =
      from (client_list_add_client-Sound max o ip d.state.clients v.inv v.unique ne unused)
        (rw e refl)
    where
      refused :
          (t : ClientList)
          → client_list_add_client d.config.maxclients o ip d.state.clients ≡ ok (none, t)
          → Inv max t
          → Unique t.first
          → Authed max m ip d (ndsctl_auth m o ip d)
      refused t added v' u' =
          rw (ndsctl_auth, added)
            (no_client (record d.state { clients = t }) (record { inv = v'; unique = u' }))

      from :
          {r : Run (Option Ptr × ClientList)}
          → Sound max ip r
          → client_list_add_client d.config.maxclients o ip d.state.clients ≡ r
          → Authed max m ip d (ndsctl_auth m o ip d)
      from (sound_none t v' u') added = refused t added v' u'
      from (sound_some n t v' u' same found) added = auth-added n t added v' u' same found
