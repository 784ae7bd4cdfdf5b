-- ===== src/Examples/Clients.antt =====
-- The theorems on the client list, the authentication and the refresh, at the example.
use wifi_cat.Base.{[], ◌≡◌, ◌≢◌, refl, true, some, ok, arith}
use wifi_cat.Base.Int.{pos}
use wifi_cat.Base.Text.{Text, codes, text_eq, is_space}
use wifi_cat.ClientList.{null, client_list_delete, client_list_find, find_first}
use wifi_cat.ClientList.Invariant.{Inv, Deletion, client_list_delete-Deletion}
use wifi_cat.ClientList.Register.{
  find_or_append, client_list_add_client-idempotent, client_list_add_client, Registered,
  client_list_add_client-Registered, Sound, client_list_add_client-Sound,
}
use wifi_cat.Iptables.Access.{make_deauthenticated}
use wifi_cat.Auth.Action.{Consistent, Acts, auth_client_action-Acts}
use wifi_cat.Firewall.Refresh.{Refreshes, fw_refresh_client_list-Refreshes}
use wifi_cat.Conf.Formats.{check_ip_format, ip_groups, is_yes}
use wifi_cat.Base.Scan.{
  u32, u64, signed_number, number, negated, value_of, set_of, run_of, nonempty, spaces, drop_spaces,
  word, byte, done, ◌>>=◌, skip_line,
}
use wifi_cat.Firewall.Arp.{arp_loop, arp_entry, arp_fields, trailing, two_words, arp_get}
use wifi_cat.Ndsctl.{ndsctl_auth, ndsctl_deauth}
use wifi_cat.Ndsctl.{dispatch}
use wifi_cat.Ndsctl.Read.{is_clean, read_request}
use wifi_cat.Ndsctl.Client.{CtlConfig, block_command, message_of, handle}
use wifi_cat.Ndsctl.Client.Sent.{dispatch-message_of}
use wifi_cat.Ndsctl.Clients.{Authed, Deauthed, ndsctl_auth-Authed, ndsctl_deauth-Deauthed}
use wifi_cat.Examples.{
  small_config, some_marks, an_ip, a_mac, one_client, one_state, one_daemon, some_outside,
}

abbrev one_client-Inv : Inv 2 one_client
one_client-Inv = record {
  counted = refl;
  sized = refl;
  taken = refl;
  distinct = (refl, tt);
  slots = ((λ e. omega (arith, e), refl), tt);
}

pub one_state-Consistent : Consistent 2 one_state
one_state-Consistent = record { inv = one_client-Inv; unique = (refl, tt) }

fresh_ne : some_outside.fresh ≢ null
fresh_ne e = omega (arith, e)

refresh_example : Refreshes 2 small_config some_marks (λ p. 5000) (λ ip. true) (λ k. 5000) one_state
refresh_example =
    fw_refresh_client_list-Refreshes 2 small_config some_marks (λ p. 5000) (λ ip. true) (λ k. 5000)
      one_state one_state-Consistent

action_example : Acts 2 small_config some_marks an_ip a_mac make_deauthenticated one_state
action_example =
    auth_client_action-Acts 2 small_config some_marks an_ip a_mac one_state one_state-Consistent
      make_deauthenticated

register_example :
    Registered 2 some_outside
      (codes "10.0.0.3")
      one_client
      (client_list_add_client (pos 2) some_outside (codes "10.0.0.3") one_client)
register_example =
    client_list_add_client-Registered 2 some_outside (codes "10.0.0.3") one_client one_client-Inv

keep_example : Sound 2 an_ip (client_list_add_client (pos 2) some_outside an_ip one_client)
keep_example =
    client_list_add_client-Sound 2 some_outside an_ip one_client one_client-Inv (refl, tt) fresh_ne
      refl

deletion_example : Deletion 2 100 one_client (client_list_delete 100 one_client)
deletion_example = client_list_delete-Deletion 2 one_client 100 one_client-Inv

authed_example :
    Authed 2 some_marks an_ip one_daemon (ndsctl_auth some_marks some_outside an_ip one_daemon)
authed_example =
    ndsctl_auth-Authed 2 some_marks some_outside an_ip one_daemon refl one_state-Consistent fresh_ne
      refl

deauthed_example : Deauthed 2 a_mac one_daemon (ndsctl_deauth some_marks a_mac one_daemon)
deauthed_example = ndsctl_deauth-Deauthed 2 some_marks a_mac one_daemon one_state-Consistent

known : client_list_add_client (pos 2) some_outside an_ip one_client ≡ ok (some 100, one_client)
unfolding client_list_add_client find_or_append client_list_find find_first check_ip_format
    ip_groups is_yes arp_get arp_loop arp_entry arp_fields trailing two_words u32 u64 signed_number
    number negated value_of set_of run_of nonempty spaces drop_spaces word byte done ◌>>=◌ skip_line
    is_space codes text_eq
known = refl

again_example :
    client_list_add_client (pos 2) (record some_outside { now = 9000; fresh = 0 }) an_ip one_client
    ≡ ok (some 100, one_client)
again_example =
    client_list_add_client-idempotent 2 some_outside (record some_outside { now = 9000; fresh = 0 })
      an_ip one_client one_client 100 one_client-Inv refl known

abbrev block_line : CtlConfig
block_line = record {
  socket = codes "/tmp/ndsctl.sock";
  command = block_command;
  param = some a_mac;
}

sent_block_example :
    (request : Text) × (read_request 1 (λ j. message_of block_command (some a_mac)) 0 []
      ≡ some (request, true))
    × (dispatch (λ t. pos 7) some_marks some_outside request one_daemon
        ≡ handle (λ t. pos 7) some_marks some_outside block_command a_mac one_daemon)
unfolding is_clean codes
sent_block_example =
    dispatch-message_of (λ t. pos 7) some_marks some_outside one_daemon block_line 0
      (λ j. message_of block_command (some a_mac)) 0 refl refl
