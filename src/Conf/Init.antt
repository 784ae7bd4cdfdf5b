-- ===== src/Conf/Init.antt =====
-- src/conf.c: the default configuration, and the check that ends the reading of it.
use wifi_cat.Base.{
  ℕ, zero, suc, ◌⊎◌, ◌≡◌, refl, Bool, true, false, Option, none, some, [], arith, if◌then◌else◌,
}
use wifi_cat.Base.Int.{ℤ, pos, negsuc}
use wifi_cat.Base.Text.{Text, codes, text_eq}
use wifi_cat.Conf.{Config}
use wifi_cat.Conf.Rulesets.{
  add_ruleset_with, get_empty_ruleset_policy, get_ruleset, add_ruleset, update_ruleset,
  find_ruleset, add_name, update_first,
}

-- `#define MAC_ALLOW 0` and `#define MAC_BLOCK 1`
abbrev pub mac_allow : ℤ
mac_allow = pos 0

abbrev pub mac_block : ℤ
mac_block = pos 1

-- The assignments of `config_init`. LOG_NOTICE is 5 and LOG_DAEMON 24.
unfoldable pub config_defaults : Config → Config
config_defaults config = record config {
  configfile = codes "/etc/wificat/wificat.conf";
  debuglevel = pos 5;
  ext_interface = none;
  maxclients = pos 20;
  gw_name = some (codes "wificat");
  gw_interface = none;
  gw_iprange = some (codes "0.0.0.0/0");
  gw_address = none;
  gw_port = 2050;
  remote_auth_action = some (codes "yes");
  webroot = some (codes "/etc/wificat/htdocs");
  splashpage = some (codes "wificat.html");
  infoskelpage = some (codes "infoskel.html");
  imagesdir = some (codes "images");
  pagesdir = some (codes "pages");
  authdir = some (codes "wificat_auth");
  denydir = some (codes "wificat_deny");
  redirect_url = none;
  clienttimeout = pos 10;
  clientforceout = pos 360;
  checkinterval = pos 60;
  daemon = negsuc 0;
  passwordauth = pos 0;
  usernameauth = pos 0;
  passwordattempts = pos 5;
  username = none;
  password = none;
  authenticate_immediately = pos 0;
  set_mss = pos 1;
  mss_value = pos 0;
  traffic_control = pos 0;
  upload_limit = pos 0;
  download_limit = pos 0;
  upload_imq = pos 1;
  download_imq = pos 0;
  syslog_facility = pos 24;
  log_syslog = pos 0;
  ndsctl_sock = some (codes "/tmp/ndsctl.sock");
  internal_sock = some (codes "/tmp/ndsctl.sock");
  decongest_httpd_threads = pos 0;
  httpd_thread_threshold = pos 3;
  httpd_thread_delay_ms = pos 200;
  rulesets = [];
  trustedmaclist = [];
  blockedmaclist = [];
  allowedmaclist = [];
  macmechanism = mac_block;
  fw_mark_authenticated = 0x400;
  fw_mark_trusted = 0x200;
  fw_mark_blocked = 0x100;
  auth_server = some (codes "manage.yiroy.com");
  auth_port = 80;
  auth_path = some (codes "/wificat/auth/");
  config_path = some (codes "/wificat/config/");
  net_traffic_path = some (codes "/wificat/nettraffic/");
  auth_path_freeable = false;
  config_path_freeable = false;
  net_traffic_path_freeable = false;
  token_verify_path = some (codes "/wificat/tokenverify/");
  uid = pos 0;
  free_ip_list = [];
  free_domain_list = [];
}

-- The five rulesets that `config_init` sets up, with their policies, in order.
unfoldable pub default_rulesets : Config → Config
default_rulesets config = add_ruleset_with (codes "preauthenticated-users") (codes "REJECT") (
    add_ruleset_with (codes "authenticated-users") (codes "RETURN") (
      add_ruleset_with (codes "users-to-router") (codes "REJECT") (
        add_ruleset_with (codes "trusted-users-to-router") (codes "ACCEPT")
          (add_ruleset_with (codes "trusted-users") (codes "ACCEPT") config))))

unfoldable pub config_init : Config → Config
unfolding config_defaults default_rulesets codes
config_init config = default_rulesets (config_defaults config)

-- `config_init_override`: a daemon unless the file or the command line said otherwise.
pub config_init_override : Config → Config
config_init_override config = elim config.daemon [
  | pos n ↦ config
  | negsuc zero ↦ record config { daemon = pos 1 }
  | negsuc (suc n) ↦ config
]

-- `config_notnull` raises the flag `missing_parms`.
unfoldable pub config_notnull : Option Text → Bool → Bool
config_notnull none missing_parms = true
config_notnull (some t) missing_parms = missing_parms

-- `config_validate`: `none` is the exit of the program.
unfoldable pub config_validate : Config → Option Config
unfolding config_notnull
config_validate config =
    let missing_parms =
      config_notnull config.auth_server (config_notnull config.gw_interface false) in
    if missing_parms then none else some config

-- `set_log_level`, `set_password` and `set_username`, with their return values.
unfoldable pub set_log_level : ℤ → Config → Config × ℕ
set_log_level level config = (record config { debuglevel = level }, 0)

unfoldable pub set_password : Option Text → Config → Config × ℕ
set_password none config = (config, 1)
set_password (some s) config = (record config { password = some s }, 0)

unfoldable pub set_username : Option Text → Config → Config × ℕ
set_username none config = (config, 1)
set_username (some s) config = (record config { username = some s }, 0)

-- The policies of the five rulesets.
pub record Defaults (config : Config) : Type 0 where
  pub trusted_users :
      get_empty_ruleset_policy (codes "trusted-users") config ≡ some (codes "ACCEPT")
  pub trusted_to_router :
      get_empty_ruleset_policy (codes "trusted-users-to-router") config ≡ some (codes "ACCEPT")
  pub to_router : get_empty_ruleset_policy (codes "users-to-router") config ≡ some (codes "REJECT")
  pub authenticated :
      get_empty_ruleset_policy (codes "authenticated-users") config ≡ some (codes "RETURN")
  pub preauthenticated :
      get_empty_ruleset_policy (codes "preauthenticated-users") config ≡ some (codes "REJECT")

-- Whatever the configuration was before, after `config_init` the five rulesets have the documented policy
-- each.
pub config_init-Defaults : (config : Config) → Defaults (config_init config)
unfolding config_init get_empty_ruleset_policy get_ruleset add_ruleset_with update_ruleset
    add_ruleset add_name find_ruleset update_first text_eq
config_init-Defaults config = record {
  trusted_users = refl;
  trusted_to_router = refl;
  to_router = refl;
  authenticated = refl;
  preauthenticated = refl;
}

pub config_validate_complete :
    (config : Config)
    → (config_validate config ≡ some config)
      ⊎ ((config_validate config ≡ none)
          × ((config.gw_interface ≡ none) ⊎ (config.auth_server ≡ none)))
unfolding config_validate
config_validate_complete config = ground arith
