-- ===== src/Examples.antt =====
-- A small system on which the theorems are applied: one client on a list with two slots, and a firewall
-- that accepts every command.
pub mod Clients
pub mod Lists
pub mod Commands
pub mod Files
pub mod Portal
pub mod Threads
use wifi_cat.Base.{ℕ, true, ◌*◌, ◌^◌, none, some, List, [], ◌∷◌}
use wifi_cat.Base.Int.{pos}
use wifi_cat.Base.Text.{Text, codes}
use wifi_cat.Shell.{Shell}
use wifi_cat.Conf.{Config}
use wifi_cat.ClientList.{Client, ClientList, Node}
use wifi_cat.ClientList.Register.{Outside}
use wifi_cat.Iptables.{Marks}
use wifi_cat.Auth.{State}
use wifi_cat.Ndsctl.{Daemon}

abbrev pub small_config : Config
small_config = record {
  configfile = [];
  ndsctl_sock = none;
  internal_sock = none;
  daemon = pos 0;
  debuglevel = pos 0;
  maxclients = pos 2;
  ext_interface = none;
  gw_name = none;
  gw_interface = none;
  gw_iprange = none;
  gw_address = none;
  gw_mac = none;
  gw_port = 0;
  remote_auth_action = none;
  enable_preauth = pos 0;
  bin_voucher = none;
  force_voucher = pos 0;
  webroot = none;
  splashpage = none;
  infoskelpage = none;
  imagesdir = none;
  pagesdir = none;
  redirect_url = none;
  authdir = none;
  denydir = none;
  passwordauth = pos 0;
  usernameauth = pos 0;
  username = none;
  password = none;
  passwordattempts = pos 0;
  clienttimeout = pos 10;
  clientforceout = pos 360;
  checkinterval = pos 60;
  authenticate_immediately = pos 0;
  set_mss = pos 0;
  mss_value = pos 0;
  traffic_control = pos 0;
  download_limit = pos 0;
  upload_limit = pos 0;
  download_imq = pos 0;
  upload_imq = pos 0;
  log_syslog = pos 0;
  syslog_facility = pos 0;
  decongest_httpd_threads = pos 0;
  httpd_thread_threshold = pos 0;
  httpd_thread_delay_ms = pos 0;
  macmechanism = pos 1;
  rulesets = [];
  trustedmaclist = [];
  blockedmaclist = [];
  allowedmaclist = [];
  fw_mark_authenticated = 0;
  fw_mark_blocked = 0;
  fw_mark_trusted = 0;
  auth_server = none;
  auth_port = 0;
  auth_path = none;
  config_path = none;
  net_traffic_path = none;
  auth_path_freeable = true;
  config_path_freeable = true;
  net_traffic_path_freeable = true;
  token_verify_path = none;
  free_ip_list = [];
  free_domain_list = [];
  uid = pos 0;
}

abbrev pub some_marks : Marks
some_marks = record {
  preauthenticated = 0;
  authenticated = 3 * 2 ^ 16;
  blocked = 2 ^ 16;
  trusted = 2 * 2 ^ 16;
  mask = 3 * 2 ^ 16;
  markop = codes "--or-mark";
  markmask = codes "/0x30000";
}

abbrev pub an_ip : Text
an_ip = codes "10.0.0.2"

abbrev pub a_mac : Text
a_mac = codes "00:11:22:33:44:55"

abbrev pub a_node : Node
a_node = record {
  addr = 100;
  client = record {
    ip = an_ip;
    mac = a_mac;
    token = some (codes "0123abcd");
    fw_connection_state = 3 * 2 ^ 16;
    added_time = 1000;
    counters = record {
      incoming = 0;
      outgoing = 0;
      incoming_history = 0;
      outgoing_history = 0;
      last_updated = 1000;
    };
    attempts = pos 0;
    download_limit = pos 0;
    upload_limit = pos 0;
    idx = 0;
  };
}

abbrev pub one_client : ClientList
one_client = record {
  first = a_node ∷ [];
  client_count = 1;
  client_arr = 100 ∷ 0 ∷ [];
  last_client_time = 1000;
}

-- Every command succeeds; a listing has its two header lines and one rule.
abbrev pub willing : Shell
willing = record {
  log = [];
  reply = λ log cmd. 0;
  output = λ log cmd. some (
      codes "Chain ndsOUT (1 references)"
      ∷ codes "    pkts      bytes target"
      ∷ codes "       5      500 MARK       all  --  *      *       10.0.0.2             0.0.0.0/0"
      ∷ []);
}

abbrev pub one_state : State
one_state = record { clients = one_client; shell = willing; authenticated_since_start = 1 }

abbrev pub one_daemon : Daemon
one_daemon = record { config = small_config; state = one_state }

abbrev pub some_outside : Outside
some_outside = record {
  arp_table = some (
      codes
        "IP address HW type Flags HW address Mask Device\n10.0.0.2 0x1 0x2 00:11:22:33:44:55 * br0\n");
  now = 2000;
  rand1 = 17;
  rand2 = 4660;
  fresh = 200;
}
