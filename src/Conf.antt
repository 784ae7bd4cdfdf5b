-- ===== src/Conf.antt =====
-- src/conf.h: the firewall rules and the configuration. A `char *` that may be NULL is an `Option`,
-- an `int` a `ℤ`, an `unsigned int` a number below 2 ^ 32; linked lists are lists, head first.
pub mod Rulesets
pub mod Words
pub mod Opcodes
pub mod Rules
pub mod Formats
pub mod Init
pub mod Mac
pub mod FreeIp
pub mod File
use wifi_cat.Base.{ℕ, Bool, Option, List}
use wifi_cat.Base.Int.{ℤ}
use wifi_cat.Base.Text.{Text}

pub data FirewallTarget : Type 0 where
  target_drop target_reject target_accept target_log target_ulog : FirewallTarget

pub record FirewallRule : Type 0 where
  pub target : FirewallTarget
  pub protocol : Option Text
  pub port : Option Text
  pub mask : Option Text

pub record FirewallRuleset : Type 0 where
  pub name : Text
  pub emptyrulesetpolicy : Option Text
  pub rules : List FirewallRule

-- `s_config`. A path of the server is freeable where it is NULL or was allocated: it may be a literal too.
pub record Config : Type 0 where
  pub configfile : Text
  pub ndsctl_sock : Option Text
  pub internal_sock : Option Text
  pub daemon : ℤ
  pub debuglevel : ℤ
  pub maxclients : ℤ
  pub ext_interface : Option Text
  pub gw_name : Option Text
  pub gw_interface : Option Text
  pub gw_iprange : Option Text
  pub gw_address : Option Text
  pub gw_mac : Option Text
  pub gw_port : ℕ
  pub remote_auth_action : Option Text
  pub enable_preauth : ℤ
  pub bin_voucher : Option Text
  pub force_voucher : ℤ
  pub webroot : Option Text
  pub splashpage : Option Text
  pub infoskelpage : Option Text
  pub imagesdir : Option Text
  pub pagesdir : Option Text
  pub redirect_url : Option Text
  pub authdir : Option Text
  pub denydir : Option Text
  pub passwordauth : ℤ
  pub usernameauth : ℤ
  pub username : Option Text
  pub password : Option Text
  pub passwordattempts : ℤ
  pub clienttimeout : ℤ
  pub clientforceout : ℤ
  pub checkinterval : ℤ
  pub authenticate_immediately : ℤ
  pub set_mss : ℤ
  pub mss_value : ℤ
  pub traffic_control : ℤ
  pub download_limit : ℤ
  pub upload_limit : ℤ
  pub download_imq : ℤ
  pub upload_imq : ℤ
  pub log_syslog : ℤ
  pub syslog_facility : ℤ
  pub decongest_httpd_threads : ℤ
  pub httpd_thread_threshold : ℤ
  pub httpd_thread_delay_ms : ℤ
  pub macmechanism : ℤ
  pub rulesets : List FirewallRuleset
  pub trustedmaclist : List Text
  pub blockedmaclist : List Text
  pub allowedmaclist : List Text
  pub fw_mark_authenticated : ℕ
  pub fw_mark_blocked : ℕ
  pub fw_mark_trusted : ℕ
  pub auth_server : Option Text
  pub auth_port : ℕ
  pub auth_path : Option Text
  pub config_path : Option Text
  pub net_traffic_path : Option Text
  pub auth_path_freeable : Bool
  pub config_path_freeable : Bool
  pub net_traffic_path_freeable : Bool
  pub token_verify_path : Option Text
  pub free_ip_list : List Text
  pub free_domain_list : List Text
  pub uid : ℤ
