-- ===== src/Conf/File/Options.antt =====
-- src/conf.c, `config_read`: what each option does, and the parsers of their arguments.
pub mod Accepted
pub mod Keeps
use wifi_cat.Base.{
  ℕ, Bool, true, false, not, ◌&&◌, ◌||◌, Option, none, some, List, [], ◌∷◌, ◌==◌, if◌then◌else◌,
  Run, ok, fault,
}
use wifi_cat.Base.Int.{ℤ, pos, negsuc, to_word}
use wifi_cat.Base.Text.{Text, codes, is_blank, is_space, text_eq, text_case_eq}
use wifi_cat.Base.Scan.{i32, u32, x32}
use wifi_cat.Conf.{Config, FirewallRuleset}
use wifi_cat.Conf.Init.{mac_allow, mac_block, set_username, set_password}
use wifi_cat.Conf.Mac.{
  is_int, parse_trusted_mac_list, parse_blocked_mac_list, parse_allowed_mac_list,
}
use wifi_cat.Conf.Opcodes.{
  OpCode, o_daemon, o_max_clients, o_external_interface, o_gateway_name, o_gateway_interface,
  o_gateway_ip_range, o_gateway_address, o_gateway_port, o_remote_authenticator_action,
  o_enable_pre_auth, o_bin_voucher, o_force_voucher, o_empty_rule_set_policy, o_trusted_mac_list,
  o_blocked_mac_list, o_allowed_mac_list, o_mac_mechanism, o_web_root, o_splash_page, o_images_dir,
  o_pages_dir, o_redirect_url, o_ndsctl_socket, o_decongest_httpd_threads, o_httpd_thread_threshold,
  o_httpd_thread_delay_ms, o_client_idle_timeout, o_client_force_timeout,
  o_authenticate_immediately, o_password_authentication, o_username_authentication,
  o_password_attempts, o_username, o_password, o_set_mss, o_mss_value, o_traffic_control,
  o_download_limit, o_upload_limit, o_download_imq, o_upload_imq, o_fw_mark_authenticated,
  o_fw_mark_blocked, o_fw_mark_trusted, o_syslog_facility, o_auth_server, o_auth_port, o_auth_path,
  o_config_path, o_net_traffic_path, o_uid, o_bad_option,
}
use wifi_cat.Conf.Rulesets.{get_ruleset, update_ruleset}
use wifi_cat.Conf.Words.{break_at, drop_blanks, drop_leading, is_end}

-- What becomes of the program: it goes on, it calls exit(), or it reads bytes that the text does not hold.
pub data Outcome (A : Type 0) : Type 0 where
  goes_on : A → Outcome A
  exits faults : Outcome A

abbrev pub from_run : {A : Type 0} → Run A → Outcome A
from_run (ok a) = goes_on a
from_run fault = faults

-- `parse_boolean_value`
unfoldable pub parse_boolean_value : Text → ℤ
parse_boolean_value line =
    if text_case_eq line (codes "no")
      || text_case_eq line (codes "false")
      || text_eq line (codes "0")
    then pos 0
    else if text_case_eq line (codes "yes")
        || text_case_eq line (codes "true")
        || text_eq line (codes "1")
    then pos 1
    else negsuc 0

-- `if (sscanf(p1, "%d", &field) < 1) exit(-1);`, and the same with `%u`.
pub number : (ℤ → Config) → Text → Outcome Config
number store arg = elim (i32 arg).0 [ none ↦ exits | some n ↦ goes_on (store n) ]

pub word : (ℕ → Config) → Text → Outcome Config
word store arg = elim (u32 arg).0 [ none ↦ exits | some n ↦ goes_on (store n) ]

-- A truth value, where any other argument ends the program, and where it is passed over.
pub flag : (ℤ → Config) → Text → Outcome Config
flag store arg =
    let value = parse_boolean_value arg in
    if is_int value (negsuc 0) then exits else goes_on (store value)

pub soft_flag : (ℤ → Config) → Text → Config → Outcome Config
soft_flag store arg config =
    let value = parse_boolean_value arg in
    goes_on (if is_int value (negsuc 0) then config else store value)

-- `sscanf(p1, "%d", &config.uid) < 0`: an error only where there is nothing to read.
pub read_uid : Text → Config → Outcome Config
read_uid arg config = elim (i32 arg).0 [
  | some n ↦ goes_on (record config { uid = n })
  | none ↦ if is_end (drop_leading arg) then exits else goes_on config
]

-- A mark is stored, and must differ from 0 and from the two others as they are at that point.
pub unique_mark : ℕ → ℕ → (ℕ → Config) → Text → Outcome Config
unique_mark other another store arg = elim (x32 arg).0 [
  | none ↦ exits
  | some n ↦ if (n == 0) || (n == other) || (n == another) then exits else goes_on (store n)
]

pub mark_authenticated : Text → Config → Outcome Config
mark_authenticated arg config =
    unique_mark config.fw_mark_blocked config.fw_mark_trusted
      (λ n. record config { fw_mark_authenticated = n }) arg

pub mark_blocked : Text → Config → Outcome Config
mark_blocked arg config =
    unique_mark config.fw_mark_authenticated config.fw_mark_trusted
      (λ n. record config { fw_mark_blocked = n }) arg

pub mark_trusted : Text → Config → Outcome Config
mark_trusted arg config =
    unique_mark config.fw_mark_authenticated config.fw_mark_blocked
      (λ n. record config { fw_mark_trusted = n }) arg

-- The slashes at the end of a path are taken away.
drop_slashes : Text → Text
drop_slashes [] = []
drop_slashes (c ∷ s) =
    let rest = drop_slashes s in if (c == b'/') && is_end rest then [] else c ∷ rest

-- What iptables calls a policy.
pub policy_target : Text → Option Text
policy_target policy =
    if text_case_eq policy (codes "passthrough")
    then some (codes "RETURN")
    else if text_case_eq policy (codes "allow")
    then some (codes "ACCEPT")
    else if text_case_eq policy (codes "block")
    then some (codes "REJECT")
    else none

pub set_policy : Text → Text → Config → Outcome Config
set_policy name policy config = elim (policy_target policy) [
  | none ↦ exits
  | some target ↦
      goes_on (update_ruleset name (λ rs. record rs { emptyrulesetpolicy = some target }) config)
]

-- `parse_empty_ruleset_policy`. With nothing behind the name, the next word is looked for behind the end
-- of the text.
pub parse_empty_ruleset_policy : Text → Config → Outcome Config
parse_empty_ruleset_policy ptr config =
    let (name, rest) = break_at is_blank (drop_blanks ptr) in
    elim (get_ruleset name config) [
      | none ↦ exits
      | some rs ↦ elim rest [
        | [] ↦ faults
        | c ∷ s ↦ set_policy name (break_at is_blank (drop_blanks s)).0 config
      ]
    ]

-- The cases of the switch of `config_read` that read nothing more of the file; the case of
-- FirewallRuleSet, which does, is taken before by `apply_option`. Some options have no case: they are passed over.
pub set_option : OpCode → Text → Config → Outcome Config
unfolding drop_slashes
set_option o_daemon arg config =
    if is_int config.daemon (negsuc 0)
    then soft_flag (λ b. record config { daemon = b }) arg config
    else goes_on config
set_option o_max_clients arg config = number (λ n. record config { maxclients = n }) arg
set_option o_external_interface arg config = goes_on (record config { ext_interface = some arg })
set_option o_gateway_name arg config = goes_on (record config { gw_name = some arg })
set_option o_gateway_interface arg config = goes_on (record config { gw_interface = some arg })
set_option o_gateway_ip_range arg config = goes_on (record config { gw_iprange = some arg })
set_option o_gateway_address arg config = goes_on (record config { gw_address = some arg })
set_option o_gateway_port arg config = word (λ n. record config { gw_port = n }) arg
set_option o_remote_authenticator_action arg config =
    goes_on (record config { remote_auth_action = some arg })
set_option o_enable_pre_auth arg config =
    soft_flag (λ b. record config { enable_preauth = b }) arg config
set_option o_bin_voucher arg config = goes_on (record config { bin_voucher = some arg })
set_option o_force_voucher arg config =
    soft_flag (λ b. record config { force_voucher = b }) arg config
set_option o_empty_rule_set_policy arg config = parse_empty_ruleset_policy arg config
set_option o_trusted_mac_list arg config = from_run (parse_trusted_mac_list arg config)
set_option o_blocked_mac_list arg config = from_run (parse_blocked_mac_list arg config)
set_option o_allowed_mac_list arg config = from_run (parse_allowed_mac_list arg config)
set_option o_mac_mechanism arg config =
    if text_case_eq (codes "allow") arg
    then goes_on (record config { macmechanism = mac_allow })
    else if text_case_eq (codes "block") arg
    then goes_on (record config { macmechanism = mac_block })
    else exits
set_option o_web_root arg config = goes_on (record config { webroot = some (drop_slashes arg) })
set_option o_splash_page arg config = goes_on (record config { splashpage = some arg })
set_option o_images_dir arg config = goes_on (record config { imagesdir = some arg })
set_option o_pages_dir arg config = goes_on (record config { pagesdir = some arg })
set_option o_redirect_url arg config = goes_on (record config { redirect_url = some arg })
set_option o_ndsctl_socket arg config = goes_on (record config { ndsctl_sock = some arg })
set_option o_decongest_httpd_threads arg config =
    flag (λ b. record config { decongest_httpd_threads = b }) arg
set_option o_httpd_thread_threshold arg config =
    number (λ n. record config { httpd_thread_threshold = n }) arg
set_option o_httpd_thread_delay_ms arg config =
    number (λ n. record config { httpd_thread_delay_ms = n }) arg
set_option o_client_idle_timeout arg config = number (λ n. record config { clienttimeout = n }) arg
set_option o_client_force_timeout arg config =
    number (λ n. record config { clientforceout = n }) arg
set_option o_authenticate_immediately arg config =
    flag (λ b. record config { authenticate_immediately = b }) arg
set_option o_password_authentication arg config = flag (λ b. record config { passwordauth = b }) arg
set_option o_username_authentication arg config = flag (λ b. record config { usernameauth = b }) arg
set_option o_password_attempts arg config = number (λ n. record config { passwordattempts = n }) arg
set_option o_username arg config = goes_on (set_username (some arg) config).0
set_option o_password arg config = goes_on (set_password (some arg) config).0
set_option o_set_mss arg config = flag (λ b. record config { set_mss = b }) arg
set_option o_mss_value arg config = number (λ n. record config { mss_value = n }) arg
set_option o_traffic_control arg config = flag (λ b. record config { traffic_control = b }) arg
set_option o_download_limit arg config = number (λ n. record config { download_limit = n }) arg
set_option o_upload_limit arg config = number (λ n. record config { upload_limit = n }) arg
set_option o_download_imq arg config = number (λ n. record config { download_imq = n }) arg
set_option o_upload_imq arg config = number (λ n. record config { upload_imq = n }) arg
set_option o_fw_mark_authenticated arg config = mark_authenticated arg config
set_option o_fw_mark_blocked arg config = mark_blocked arg config
set_option o_fw_mark_trusted arg config = mark_trusted arg config
set_option o_syslog_facility arg config = number (λ n. record config { syslog_facility = n }) arg
set_option o_auth_server arg config = goes_on (record config { auth_server = some arg })
set_option o_auth_port arg config = number (λ n. record config { auth_port = to_word n }) arg
set_option o_auth_path arg config =
    goes_on (record config { auth_path = some arg; auth_path_freeable = true })
set_option o_config_path arg config =
    goes_on (record config { config_path = some arg; config_path_freeable = true })
set_option o_net_traffic_path arg config =
    goes_on (record config { net_traffic_path = some arg; net_traffic_path_freeable = true })
set_option o_uid arg config = read_uid arg config
set_option o_bad_option arg config = exits
set_option other arg config = goes_on config
