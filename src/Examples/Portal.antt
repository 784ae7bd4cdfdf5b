-- ===== src/Examples/Portal.antt =====
-- The theorems on the portal and on the daemon as a whole, at the example.
use wifi_cat.Base.{
  ℕ, ◌≡◌, refl, none, some, true, false, List, [], ◌∷◌, zero, suc, if◌then◌else◌, arith,
}
use wifi_cat.Base.Int.{pos, negsuc}
use wifi_cat.Base.Text.{Text, codes, text_eq}
use wifi_cat.Conf.{Config}
use wifi_cat.Center.{Network, Event, incoming, http_get_request, resolve_host}
use wifi_cat.Center.Bounds.{Fetched, http_get_request-Fetched, resolve_host_spins}
use wifi_cat.ClientList.View.{view, assign}
use wifi_cat.Iptables.Access.{make_deauthenticated}
use wifi_cat.Auth.Action.{Acts, auth_client_action-Acts}
use wifi_cat.Auth.Refines.{marked, auth_client_action-refines}
use wifi_cat.Http.{Web, Request, AuthTarget}
use wifi_cat.Http.Passwords.{check_userpass}
use wifi_cat.Http.Passwords.Laws.{Guarded, check_userpass-Guarded}
use wifi_cat.Conf.Init.{config_init}
use wifi_cat.Startup.{config_init-IsAccepted}
use wifi_cat.Remote.{Token, json_object, json_string, json_primitive, from_answer}
use wifi_cat.Remote.Sound.{Safely, IsAnswer, from_answer-Safely}
use wifi_cat.Examples.{small_config, some_marks, an_ip, a_mac, one_state, some_outside}
use wifi_cat.Examples.Clients.{one_state-Consistent}

abbrev an_answer : Text
an_answer = codes "HTTP/1.0 200 OK\r\n\r\n1"

abbrev answering : ℕ → Event
answering zero = incoming an_answer
answering (suc k) = incoming []

abbrev pub some_network : Network
some_network = record {
  lookup = λ k name. some (codes "10.9.9.9");
  connects = λ k. true;
  events = λ request. answering;
}

abbrev cut_off : Network
cut_off = record {
  lookup = λ k name. if text_eq name (codes "www.baidu.com") then some (codes "10.8.8.8") else none;
  connects = λ k. false;
  events = λ request. answering;
}

abbrev pub portal_config : Config
portal_config = record small_config {
  auth_server = some (codes "server");
  gw_address = some (codes "10.0.0.1");
  authdir = some (codes "auth");
  denydir = some (codes "deny");
  remote_auth_action = some (codes "yes");
  usernameauth = pos 1;
  username = some (codes "guest");
  passwordattempts = pos 3;
}

abbrev pub some_web : Web
some_web = record {
  url_encode = λ s. s;
  files = λ name. none;
  version = codes "1";
  uptime = 0;
  network = some_network;
  patience = 3;
  unset = negsuc 0;
  outside = some_outside;
}

abbrev pub a_request : Request
a_request = record {
  client_addr = an_ip;
  is_get = true;
  host = codes "example.org";
  path = codes "/";
  query = [];
  variable = λ name. none;
}

abbrev a_target : AuthTarget
a_target = record {
  ip = codes "10.0.0.1";
  port = pos 2050;
  authdir = [];
  denydir = [];
  authaction = [];
  denyaction = [];
  authtarget = [];
  token = some (codes "0123abcd");
  redir = some (codes "example.org/");
  voucher = none;
  username = some (codes "guest");
  password = none;
  info = none;
}

guarded_example :
    Guarded 2 portal_config a_target some_web a_request one_state
      (check_userpass some_web portal_config a_request a_target one_state)
guarded_example =
    check_userpass-Guarded 2 portal_config a_target some_web a_request one_state
      one_state-Consistent

fetched_example : Fetched 4095 (
    http_get_request some_network
      (codes "10.9.9.9")
      (codes "/verify/")
      (codes "?uid=0")
      (codes "1")
      4096)
fetched_example =
    http_get_request-Fetched some_network (codes "10.9.9.9") (codes "/verify/") (codes "?uid=0")
      (codes "1") 4096 (omega arith)

cut_off_example : resolve_host 100 cut_off (codes "server") ≡ none
unfolding codes text_eq
cut_off_example =
    resolve_host_spins 100 cut_off (codes "server") (codes "10.8.8.8") (λ j. refl) (λ j. refl)

abbrev revoked : Acts 2 small_config some_marks an_ip a_mac make_deauthenticated one_state
revoked =
    auth_client_action-Acts 2 small_config some_marks an_ip a_mac one_state one_state-Consistent
      make_deauthenticated

refines_example :
    view revoked.result.clients (codes "10.0.0.9") a_mac
    ≡ assign an_ip a_mac
        (marked some_marks make_deauthenticated (view one_state.clients an_ip a_mac))
        (view one_state.clients)
        (codes "10.0.0.9")
        a_mac
refines_example =
    auth_client_action-refines 2 small_config some_marks an_ip a_mac make_deauthenticated one_state
      revoked.result one_state-Consistent revoked.returns (codes "10.0.0.9") a_mac

-- The answer sets the limit of clients: the object, its key and its value.
abbrev limit_tokens : List Token
limit_tokens =
    record { kind = json_object; start = 0; end = 16; size = 1 }
    ∷ record { kind = json_string; start = 2; end = 12; size = 1 }
    ∷ record { kind = json_primitive; start = 14; end = 15; size = 0 }
    ∷ []

answer_example : Safely (IsAnswer (config_init small_config)) (
    from_answer
      (λ name. none)
      (λ s. pos 5)
      (λ json. some limit_tokens)
      (codes "HTTP/1.0 200 OK\r\n\r\n{\"maxClients\":5}")
      (config_init small_config))
answer_example =
    from_answer-Safely (λ name. none) (λ s. pos 5) (λ json. some limit_tokens)
      (codes "HTTP/1.0 200 OK\r\n\r\n{\"maxClients\":5}") (config_init small_config)
      (config_init small_config) (config_init-IsAccepted small_config, refl, refl)
