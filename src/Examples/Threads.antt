-- ===== src/Examples/Threads.antt =====
-- The theorems on the daemon as a whole, at two requests of one client: its first contact, and the one with a
-- token that the server accepts.
use wifi_cat.Base.{
  ℕ, ◌≡◌, ◌≢◌, refl, Option, none, some, Bool, true, false, List, [], ◌∷◌, ok, zero, suc,
  if◌then◌else◌, arith, ◌-◌, ◌*◌, ◌^◌, All,
}
use wifi_cat.Base.Int.{ℤ, pos}
use wifi_cat.Base.Text.{Text, codes, text_eq}
use wifi_cat.Conf.{Config}
use wifi_cat.Center.{Network, Event, incoming}
use wifi_cat.ClientList.{ClientList, client_list_init, Client, new_client}
use wifi_cat.Iptables.Counters.{iptables_fw_counters_update}
use wifi_cat.Auth.{State}
use wifi_cat.Http.{Web, Request, AuthTarget, Call, Served, served}
use wifi_cat.Http.Callbacks.{callback_auth, first_contact}
use wifi_cat.Ndsctl.{Daemon}
use wifi_cat.System.{Reach, start, later, Step, contact, set_state}
use wifi_cat.Firewall.{fw_refresh_client_list}
use wifi_cat.System.Timeouts.{IsTimely, refresh-IsTimely}
use wifi_cat.System.Invariant.{IsSane, Reach-IsSane}
use wifi_cat.Examples.{some_marks, an_ip, a_mac, willing, some_outside}
use wifi_cat.Examples.Portal.{some_web, portal_config, a_request}

abbrev no_clients : ClientList
no_clients = record { first = []; client_count = 0; client_arr = []; last_client_time = 0 }

abbrev empty_list : ClientList
empty_list = record { first = []; client_count = 0; client_arr = 0 ∷ 0 ∷ []; last_client_time = 0 }

abbrev started : Daemon
started = record {
  config = portal_config;
  state = record { clients = empty_list; shell = willing; authenticated_since_start = 0 };
}

started-Reach : Reach (λ t. pos 7) some_marks 2 started
unfolding client_list_init
started-Reach = start started no_clients refl refl

abbrev contacted : State
contacted = record started.state {
  clients = record {
    first =
        record { addr = 200; client = new_client an_ip a_mac (some (codes "00111234")) 2000 0 }
        ∷ [];
    client_count = 1;
    client_arr = 200 ∷ 0 ∷ [];
    last_client_time = 2000;
  };
}

contacted-Step : Step (λ t. pos 7) some_marks started (set_state contacted started)
unfolding first_contact wifi_cat.ClientList.Register.client_list_add_client
    wifi_cat.Conf.Formats.check_ip_format wifi_cat.Base.Scan.◌>>=◌ wifi_cat.Base.Scan.u32 codes
    wifi_cat.Base.Text.is_space wifi_cat.Base.Scan.done wifi_cat.Base.Scan.byte
    wifi_cat.Firewall.Arp.arp_get wifi_cat.Base.Scan.skip_line wifi_cat.Base.Scan.word text_eq
    wifi_cat.ClientList.client_list_find wifi_cat.ClientList.client_list_append
    wifi_cat.Http.make_authtarget wifi_cat.Http.Pages.serve_splash wifi_cat.Base.Int.to_int
    wifi_cat.Base.Scan.drop_spaces wifi_cat.Base.Scan.negated wifi_cat.Base.Scan.nonempty
    wifi_cat.Base.Scan.number wifi_cat.Base.Scan.run_of wifi_cat.Base.Scan.set_of
    wifi_cat.Base.Scan.signed_number wifi_cat.Base.Scan.spaces wifi_cat.Base.Scan.u64
    wifi_cat.Base.Scan.value_of wifi_cat.Base.Text.format wifi_cat.Base.Text.print_base
    wifi_cat.Base.Text.print_int wifi_cat.ClientList.Register.find_or_append
    wifi_cat.ClientList.Register.hex4 wifi_cat.ClientList.Register.make_auth_token
    wifi_cat.ClientList.find_first wifi_cat.ClientList.free_slot wifi_cat.ClientList.store_slot
    wifi_cat.Conf.Formats.ip_groups wifi_cat.Conf.Formats.is_yes wifi_cat.Conf.Words.is_end
    wifi_cat.Firewall.Arp.arp_entry wifi_cat.Firewall.Arp.arp_fields wifi_cat.Firewall.Arp.arp_loop
    wifi_cat.Firewall.Arp.trailing wifi_cat.Firewall.Arp.two_words
    wifi_cat.Http.Callbacks.add_client wifi_cat.Http.Callbacks.greet wifi_cat.Http.Pages.or_null
    wifi_cat.Http.Pages.redirect wifi_cat.Http.Pages.redirect_remote_auth wifi_cat.Http.action_url
    wifi_cat.Http.make_redir
contacted-Step =
    contact some_web a_request (record { nonnull = λ e. ground arith; unused = refl }) refl

met-Reach : Reach (λ t. pos 7) some_marks 2 (set_state contacted started)
met-Reach = later started-Reach contacted-Step

all_threads_example : IsSane 2 (set_state contacted started)
all_threads_example = Reach-IsSane (λ t. pos 7) some_marks 2 (set_state contacted started) met-Reach

-- The client as the counters of the example leave it.
abbrev counted_list : ClientList
counted_list = record contacted.clients {
  first =
      record {
        addr = 200;
        client = record (new_client an_ip a_mac (some (codes "00111234")) 2000 0) {
          counters = record {
            incoming = 0;
            outgoing = 500;
            incoming_history = 0;
            outgoing_history = 0;
            last_updated = 2100;
          };
        };
      }
      ∷ [];
}

counted_lem :
    iptables_fw_counters_update (λ ip. true) (λ k. 2100) willing contacted.clients
    ≡ some (counted_list, true)
unfolding iptables_fw_counters_update wifi_cat.Base.Scan.skip_line codes wifi_cat.Base.Scan.◌>>=◌
    wifi_cat.Base.Scan.word wifi_cat.Base.Text.is_space wifi_cat.Base.Scan.u64
    wifi_cat.Base.Scan.done text_eq wifi_cat.Iptables.Counters.on_outgoing
    wifi_cat.ClientList.client_list_find_by_ip wifi_cat.ClientList.update_client
    wifi_cat.ClientList.update_at wifi_cat.ClientList.find_first
    wifi_cat.Iptables.Counters.outgoing_of wifi_cat.Iptables.Counters.incoming_of
    wifi_cat.Iptables.Counters.on_incoming
counted_lem = refl

timed_out_example :
    (s : State) × ((fw_refresh_client_list portal_config some_marks
          (λ p. 2200)
          (λ ip. true)
          (λ k. 2100)
          contacted
        ≡ ok s)
      × All (λ n. IsTimely 60 10 360 2200 n) s.clients.first)
timed_out_example =
    refresh-IsTimely (λ t. pos 7) some_marks 2 (set_state contacted started) met-Reach (λ p. 2200)
      (λ ip. true) (λ k. 2100) counted_list counted_lem 60 10 360 refl refl refl (omega arith)
      (omega arith)

abbrev later_web : Web
later_web = record some_web { outside = record some_outside { fresh = 300 } }

abbrev token_request : Request
token_request = record a_request { variable = λ name. some (codes "x") }

state_of : Served (State × List Call) → State
state_of (served (s, calls)) = s
state_of other = contacted

calls_of : Served (State × List Call) → List Call
calls_of (served (s, calls)) = calls
calls_of other = []

abbrev let_in : Served (State × List Call)
let_in = callback_auth later_web portal_config some_marks token_request contacted
