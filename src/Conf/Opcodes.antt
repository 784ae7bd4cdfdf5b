-- ===== src/Conf/Opcodes.antt =====
-- src/conf.c, the options of the configuration file and `config_parse_opcode`.
use wifi_cat.Base.{List, [], ◌∷◌, String, if◌then◌else◌}
use wifi_cat.Base.Text.{Text, codes, text_case_eq}

pub data OpCode : Type 0 where
  o_bad_option o_daemon o_debug_level o_max_clients : OpCode
  o_external_interface o_gateway_name o_gateway_interface o_gateway_ip_range : OpCode
  o_gateway_address o_gateway_port o_remote_authenticator_action o_enable_pre_auth : OpCode
  o_bin_voucher o_force_voucher o_password_authentication o_username_authentication : OpCode
  o_password_attempts o_username o_password o_httpd_max_conn : OpCode
  o_web_root o_splash_page o_images_dir o_pages_dir : OpCode
  o_redirect_url o_client_idle_timeout o_client_force_timeout o_check_interval : OpCode
  o_authenticate_immediately o_set_mss o_mss_value o_traffic_control : OpCode
  o_download_limit o_upload_limit o_download_imq o_upload_imq : OpCode
  o_ndsctl_socket o_decongest_httpd_threads o_httpd_thread_threshold o_httpd_thread_delay_ms :
      OpCode
  o_syslog_facility o_firewall_rule o_firewall_rule_set o_empty_rule_set_policy : OpCode
  o_mac_mechanism o_trusted_mac_list o_blocked_mac_list o_allowed_mac_list : OpCode
  o_fw_mark_authenticated o_fw_mark_trusted o_fw_mark_blocked o_auth_server : OpCode
  o_auth_port o_auth_path o_config_path o_net_traffic_path : OpCode
  o_token_verify_path o_free_ip_list o_free_domain_list o_uid : OpCode

-- The table of keywords, in order. A name that stands in it twice is found at its first place.
abbrev pub keywords : List (String × OpCode)
keywords =
    ("daemon", o_daemon)
    ∷ ("debuglevel", o_debug_level)
    ∷ ("maxclients", o_max_clients)
    ∷ ("externalinterface", o_external_interface)
    ∷ ("gatewayname", o_gateway_name)
    ∷ ("gatewayinterface", o_gateway_interface)
    ∷ ("gatewayiprange", o_gateway_ip_range)
    ∷ ("gatewayaddress", o_gateway_address)
    ∷ ("gatewayport", o_gateway_port)
    ∷ ("remoteauthenticatoraction", o_remote_authenticator_action)
    ∷ ("enablepreauth", o_enable_pre_auth)
    ∷ ("binvoucher", o_bin_voucher)
    ∷ ("forcevoucher", o_force_voucher)
    ∷ ("passwordauthentication", o_password_authentication)
    ∷ ("usernameauthentication", o_username_authentication)
    ∷ ("passwordattempts", o_password_attempts)
    ∷ ("username", o_username)
    ∷ ("password", o_password)
    ∷ ("webroot", o_web_root)
    ∷ ("splashpage", o_splash_page)
    ∷ ("imagesdir", o_images_dir)
    ∷ ("pagesdir", o_pages_dir)
    ∷ ("redirectURL", o_redirect_url)
    ∷ ("clientidletimeout", o_client_idle_timeout)
    ∷ ("clientforcetimeout", o_client_force_timeout)
    ∷ ("checkinterval", o_check_interval)
    ∷ ("authenticateimmediately", o_authenticate_immediately)
    ∷ ("setmss", o_set_mss)
    ∷ ("mssvalue", o_mss_value)
    ∷ ("trafficcontrol", o_traffic_control)
    ∷ ("downloadlimit", o_download_limit)
    ∷ ("uploadlimit", o_upload_limit)
    ∷ ("downloadimq", o_download_imq)
    ∷ ("uploadimq", o_upload_imq)
    ∷ ("syslogfacility", o_syslog_facility)
    ∷ ("syslogfacility", o_syslog_facility)
    ∷ ("ndsctlsocket", o_ndsctl_socket)
    ∷ ("decongesthttpdthreads", o_decongest_httpd_threads)
    ∷ ("httpdthreadthreshold", o_httpd_thread_threshold)
    ∷ ("httpdthreaddelayms", o_httpd_thread_delay_ms)
    ∷ ("firewallruleset", o_firewall_rule_set)
    ∷ ("firewallrule", o_firewall_rule)
    ∷ ("emptyrulesetpolicy", o_empty_rule_set_policy)
    ∷ ("trustedmaclist", o_trusted_mac_list)
    ∷ ("blockedmaclist", o_blocked_mac_list)
    ∷ ("allowedmaclist", o_allowed_mac_list)
    ∷ ("MACmechanism", o_mac_mechanism)
    ∷ ("FW_MARK_AUTHENTICATED", o_fw_mark_authenticated)
    ∷ ("FW_MARK_TRUSTED", o_fw_mark_trusted)
    ∷ ("FW_MARK_BLOCKED", o_fw_mark_blocked)
    ∷ ("authserver", o_auth_server)
    ∷ ("authport", o_auth_port)
    ∷ ("authpath", o_auth_path)
    ∷ ("configpath", o_config_path)
    ∷ ("nettrafficpath", o_net_traffic_path)
    ∷ ("tokenverifypath", o_token_verify_path)
    ∷ ("freeiplist", o_free_ip_list)
    ∷ ("freedomainlist", o_free_domain_list)
    ∷ ("uid", o_uid)
    ∷ []

find_keyword : Text → List (String × OpCode) → OpCode
find_keyword cp [] = o_bad_option
find_keyword cp ((name, opcode) ∷ table) =
    if text_case_eq cp (codes name) then opcode else find_keyword cp table

-- `config_parse_opcode`
unfoldable pub config_parse_opcode : Text → OpCode
unfolding find_keyword
config_parse_opcode cp = find_keyword cp keywords
