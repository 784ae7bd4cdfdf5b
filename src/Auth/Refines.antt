-- ===== src/Auth/Refines.antt =====
-- src/auth.c, `auth_client_action`, against its abstract counterpart on the view of the client list.
use wifi_cat.Base.{
  ℕ, ◌≡◌, refl, ap, ◌∙◌, false, ◌&&◌, Option, none, some, ok, arith, Bool-cases, Option-cases, inl,
  inr,
}
use wifi_cat.Base.Text.{Text, text_eq, text_eq_iff, text_eq_comm}
use wifi_cat.Conf.{Config}
use wifi_cat.ClientList.{Node, client_list_find, update_client}
use wifi_cat.ClientList.Nodes.{node_at}
use wifi_cat.ClientList.Invariant.{deleted}
use wifi_cat.ClientList.Unique.{is_client, find_first-is_client, find_first-node_at}
use wifi_cat.ClientList.View.{
  mark_of, view, assign, find_first-update_at_other, find_first-without_other,
}
use wifi_cat.Iptables.{Marks}
use wifi_cat.Iptables.Access.{AuthAction, make_authenticated, make_deauthenticated, other_action}
use wifi_cat.Auth.{State, with_state, authenticate, auth_client_action}
use wifi_cat.Auth.Action.{
  Consistent, dropped, drop_client-dropped, expected, auth_client_action-Acts,
}

-- What an action does to the mark of a client.
unfoldable pub marked : Marks → AuthAction → Option ℕ → Option ℕ
marked m make_authenticated (some k) = some m.authenticated
marked m make_deauthenticated mark = none
marked m action mark = mark

mark_of-expected :
    (m : Marks) (action : AuthAction) (o : Option Node)
    → mark_of (expected m action o) ≡ marked m action (mark_of o)
unfolding expected marked
mark_of-expected m make_authenticated none = refl
mark_of-expected m make_authenticated (some n) = refl
mark_of-expected m make_deauthenticated o = refl
mark_of-expected m (other_action k) none = refl
mark_of-expected m (other_action k) (some n) = refl

module _ (max : ℕ) (config : Config) (m : Marks) (ip mac : Text) (s : State) (v : Consistent max s)
    (ip' mac' : Text) (other : (text_eq ip' ip && text_eq mac' mac) ≡ false) where
  other-client :
      (n : Node) → client_list_find ip mac s.clients ≡ some n → is_client ip' mac' n.client ≡ false
  unfolding client_list_find
  other-client n e =
      let same = find_first-is_client ip mac s.clients.first n e in
      let ip_n : n.client.ip ≡ ip = (text_eq_iff n.client.ip ip).0 (ground arith) in
      let mac_n : n.client.mac ≡ mac = (text_eq_iff n.client.mac mac).0 (ground arith) in
      ground (arith, ip_n, mac_n, text_eq_comm n.client.ip ip', text_eq_comm n.client.mac mac')

  authenticate-other :
      (n : Node)
      → client_list_find ip mac s.clients ≡ some n
      → client_list_find ip' mac' (authenticate config m n s).clients
        ≡ client_list_find ip' mac' s.clients
  unfolding client_list_find authenticate update_client
  authenticate-other n e =
      let at = find_first-node_at ip mac s.clients.first n v.inv.distinct e in
      let same =
        find_first-update_at_other ip' mac' (with_state m.authenticated) n.addr s.clients.first n
          (λ c. (refl, refl)) at (other-client n e) in
      ground (arith, same)

  dropped-other :
      (n : Node)
      → client_list_find ip mac s.clients ≡ some n
      → client_list_find ip' mac' (dropped config m n s).clients
        ≡ client_list_find ip' mac' s.clients
  unfolding client_list_find dropped deleted
  dropped-other n e =
      let at = find_first-node_at ip mac s.clients.first n v.inv.distinct e in
      find_first-without_other ip' mac' n.addr s.clients.first n v.inv.distinct at
        (other-client n e)

  action-other :
      (action : AuthAction) (after : State)
      → auth_client_action config m ip mac action s ≡ ok after
      → client_list_find ip' mac' after.clients ≡ client_list_find ip' mac' s.clients
  unfolding auth_client_action
  action-other action after e = elim (Option-cases (client_list_find ip mac s.clients)) [
    | inl absent ↦ let same : s ≡ after = ground arith in rw (← same) refl
    | inr (n, found) ↦ on_node n found action e
  ]
    where
      on_node :
          (n : Node)
          → client_list_find ip mac s.clients ≡ some n
          → (action : AuthAction) → auth_client_action config m ip mac action s ≡ ok after
          → client_list_find ip' mac' after.clients ≡ client_list_find ip' mac' s.clients
      on_node n found make_authenticated e =
          let same : authenticate config m n s ≡ after = ground arith in
          rw (← same) (authenticate-other n found)
      on_node n found make_deauthenticated e =
          let at : node_at n.addr s.clients.first ≡ some n =
            unfold client_list_find in
            find_first-node_at ip mac s.clients.first n v.inv.distinct found in
          let gone = drop_client-dropped max config m n s v.inv at in
          let same : dropped config m n s ≡ after = ground (arith, gone) in
          rw (← same) (dropped-other n found)
      on_node n found (other_action k) e = let same : s ≡ after = ground arith in rw (← same) refl

-- On a consistent list an action refines one assignment: whoever looks up a pair of addresses afterwards
-- sees the abstract effect of the action on the client that it was for, and every other client as it was.
pub auth_client_action-refines :
    (max : ℕ) (config : Config) (m : Marks) (ip mac : Text) (action : AuthAction) (s after : State)
    → Consistent max s
    → auth_client_action config m ip mac action s ≡ ok after
    → (ip' mac' : Text)
    → view after.clients ip' mac'
      ≡ assign ip mac (marked m action (view s.clients ip mac)) (view s.clients) ip' mac'
unfolding view assign
auth_client_action-refines max config m ip mac action s after v e ip' mac' =
    elim (Bool-cases (text_eq ip' ip && text_eq mac' mac)) [
      | inr other ↦
          rw other (ap mark_of (action-other max config m ip mac s v ip' mac' other action after e))
      | inl t ↦
          let same_ip : ip' ≡ ip = (text_eq_iff ip' ip).0 (ground arith) in
          let same_mac : mac' ≡ mac = (text_eq_iff mac' mac).0 (ground arith) in
          let acts = auth_client_action-Acts max config m ip mac s v action in
          let result : acts.result ≡ after = ground (arith, acts.returns) in
          rw (t, same_ip, same_mac, ← result)
            (ap mark_of acts.found ∙ mark_of-expected m action (client_list_find ip mac s.clients))
    ]
