-- ===== src/Conf/File/Options/Keeps.antt =====
-- src/conf.c, `config_read`: what the options keep of a configuration.
use wifi_cat.Base.{
  ℕ, ◌≢◌, refl, sym, inl, inr, Option, none, some, [], ◌∷◌, ◌==◌, if◌then◌else◌, arith, Run,
  Bool-cases, if_both, ◌||◌,
}
use wifi_cat.Base.Int.{ℤ, negsuc}
use wifi_cat.Base.Text.{Text, codes, text_case_eq, is_blank}
use wifi_cat.Base.Scan.{i32, u32, x32}
use wifi_cat.Conf.{Config, FirewallRuleset}
use wifi_cat.Conf.Init.{set_username, set_password}
use wifi_cat.Conf.Mac.{
  MacList, trusted, blocked, allowed, with_list, is_int, split, list_of, parse_trusted_mac_list,
  parse_blocked_mac_list, parse_allowed_mac_list,
}
use wifi_cat.Conf.Mac.Relist.{Relisted, relisted, add_each-Relisted}
use wifi_cat.Conf.Opcodes.{
  OpCode, o_bad_option, o_daemon, o_max_clients, o_external_interface, o_gateway_name,
  o_gateway_interface, o_gateway_ip_range, o_gateway_address, o_gateway_port,
  o_remote_authenticator_action, o_enable_pre_auth, o_bin_voucher, o_force_voucher,
  o_password_authentication, o_username_authentication, o_password_attempts, o_username, o_password,
  o_web_root, o_splash_page, o_images_dir, o_pages_dir, o_redirect_url, o_client_idle_timeout,
  o_client_force_timeout, o_authenticate_immediately, o_set_mss, o_mss_value, o_traffic_control,
  o_download_limit, o_upload_limit, o_download_imq, o_upload_imq, o_ndsctl_socket,
  o_decongest_httpd_threads, o_httpd_thread_threshold, o_httpd_thread_delay_ms, o_syslog_facility,
  o_empty_rule_set_policy, o_mac_mechanism, o_trusted_mac_list, o_blocked_mac_list,
  o_allowed_mac_list, o_fw_mark_authenticated, o_fw_mark_trusted, o_fw_mark_blocked, o_auth_server,
  o_auth_port, o_auth_path, o_config_path, o_net_traffic_path, o_uid,
}
use wifi_cat.Conf.Rulesets.{get_ruleset, update_ruleset}
use wifi_cat.Conf.Words.{break_at, drop_blanks, drop_leading, is_end}
use wifi_cat.Conf.File.Options.{
  Outcome, goes_on, exits, faults, from_run, number, word, flag, soft_flag, read_uid, unique_mark,
  mark_authenticated, mark_blocked, mark_trusted, policy_target, set_policy,
  parse_empty_ruleset_policy, parse_boolean_value, set_option,
}
use wifi_cat.Conf.File.Options.Accepted.{
  IsAccepted, update_ruleset-IsAccepted, marks-IsAccepted, lists-IsAccepted,
}

-- What holds if the program goes on.
abbrev pub Holds : {A : Type 0} → (A → Type 0) → Outcome A → Type 0
Holds P (goes_on a) = P a
Holds P exits = Unit {0}
Holds P faults = Unit {0}

module _ (P : Config → Type 0) where
  Holds-number :
      (store : ℤ → Config) (arg : Text) → ((n : ℤ) → P (store n)) → Holds P (number store arg)
  unfolding number
  Holds-number store arg h = from (i32 arg).0
    where
      from : (o : Option ℤ) → Holds P (elim o [ none ↦ exits | some n ↦ goes_on (store n) ])
      from none = tt
      from (some n) = h n

  Holds-word :
      (store : ℕ → Config) (arg : Text) → ((n : ℕ) → P (store n)) → Holds P (word store arg)
  unfolding word
  Holds-word store arg h = from (u32 arg).0
    where
      from : (o : Option ℕ) → Holds P (elim o [ none ↦ exits | some n ↦ goes_on (store n) ])
      from none = tt
      from (some n) = h n

  Holds-flag :
      (store : ℤ → Config) (arg : Text) → ((b : ℤ) → P (store b)) → Holds P (flag store arg)
  unfolding flag
  Holds-flag store arg h = if_both (Holds P) (is_int (parse_boolean_value arg) (negsuc 0)) tt (h _)

  Holds-soft_flag :
      (store : ℤ → Config) (arg : Text) (config : Config)
      → P config
      → ((b : ℤ) → P (store b))
      → Holds P (soft_flag store arg config)
  unfolding soft_flag
  Holds-soft_flag store arg config p h =
      if_both P (is_int (parse_boolean_value arg) (negsuc 0)) p (h _)

  Holds-unique_mark :
      (other another : ℕ) (store : ℕ → Config) (arg : Text)
      → ((n : ℕ) → n ≢ 0 → n ≢ other → n ≢ another → P (store n))
      → Holds P (unique_mark other another store arg)
  unfolding unique_mark
  Holds-unique_mark other another store arg h = from (x32 arg).0
    where
      from :
          (o : Option ℕ)
          → Holds P (elim o [
            | none ↦ exits
            | some n ↦
                if (n == 0) || (n == other) || (n == another) then exits else goes_on (store n)
          ])
      from none = tt
      from (some n) = elim (Bool-cases ((n == 0) || (n == other) || (n == another))) [
        | inl t ↦ rw t tt
        | inr f ↦ rw f (h n (λ e. ground arith) (λ e. ground arith) (λ e. ground arith))
      ]

module _ (config : Config) (v : IsAccepted config) where
  from_run-IsAccepted :
      (l : MacList) {r : Run Config} → Relisted l config r → Holds IsAccepted (from_run r)
  unfolding with_list
  from_run-IsAccepted trusted (relisted list h) =
      lists-IsAccepted config v list config.blockedmaclist config.allowedmaclist h v.blocked_twice
        v.allowed_twice
  from_run-IsAccepted blocked (relisted list h) =
      lists-IsAccepted config v config.trustedmaclist list config.allowedmaclist v.trusted_twice h
        v.allowed_twice
  from_run-IsAccepted allowed (relisted list h) =
      lists-IsAccepted config v config.trustedmaclist config.blockedmaclist list v.trusted_twice
        v.blocked_twice h

  set_policy-IsAccepted : (name policy : Text) → Holds IsAccepted (set_policy name policy config)
  unfolding set_policy
  set_policy-IsAccepted name policy = from (policy_target policy)
    where
      from :
          (o : Option Text)
          → Holds IsAccepted (elim o [
            | none ↦ exits
            | some target ↦
                goes_on (
                  update_ruleset name (λ rs. record rs { emptyrulesetpolicy = some target }) config)
          ])
      from none = tt
      from (some target) = update_ruleset-IsAccepted config v name _ (λ r. refl) (λ r h. h)

  policy-IsAccepted : (ptr : Text) → Holds IsAccepted (parse_empty_ruleset_policy ptr config)
  unfolding parse_empty_ruleset_policy
  policy-IsAccepted ptr =
      let (name, rest) = break_at is_blank (drop_blanks ptr) in
      from name rest (get_ruleset name config)
    where
      from :
          (name rest : Text) (o : Option FirewallRuleset)
          → Holds IsAccepted (elim o [
            | none ↦ exits
            | some rs ↦ elim rest [
              | [] ↦ faults
              | c ∷ s ↦ set_policy name (break_at is_blank (drop_blanks s)).0 config
            ]
          ])
      from name rest none = tt
      from name [] (some rs) = tt
      from name (c ∷ s) (some rs) = set_policy-IsAccepted name (break_at is_blank (drop_blanks s)).0

  uid-IsAccepted : (arg : Text) → Holds IsAccepted (read_uid arg config)
  unfolding read_uid
  uid-IsAccepted arg = from (i32 arg).0
    where
      from :
          (o : Option ℤ)
          → Holds IsAccepted (elim o [
            | some n ↦ goes_on (record config { uid = n })
            | none ↦ if is_end (drop_leading arg) then exits else goes_on config
          ])
      from none = if_both (Holds IsAccepted) (is_end (drop_leading arg)) tt v
      from (some n) = v

  -- Every option keeps what is promised.
  pub set_option-IsAccepted : (o : OpCode) (arg : Text) → Holds IsAccepted (set_option o arg config)
  unfolding set_option mark_authenticated mark_blocked mark_trusted parse_trusted_mac_list
      parse_blocked_mac_list parse_allowed_mac_list list_of set_username set_password
  set_option-IsAccepted o_daemon arg =
      if_both (Holds IsAccepted) (is_int config.daemon (negsuc 0))
        (Holds-soft_flag IsAccepted _ arg config v (λ b. v)) v
  set_option-IsAccepted o_max_clients arg = Holds-number IsAccepted _ arg (λ n. v)
  set_option-IsAccepted o_external_interface arg = v
  set_option-IsAccepted o_gateway_name arg = v
  set_option-IsAccepted o_gateway_interface arg = v
  set_option-IsAccepted o_gateway_ip_range arg = v
  set_option-IsAccepted o_gateway_address arg = v
  set_option-IsAccepted o_gateway_port arg = Holds-word IsAccepted _ arg (λ n. v)
  set_option-IsAccepted o_remote_authenticator_action arg = v
  set_option-IsAccepted o_enable_pre_auth arg = Holds-soft_flag IsAccepted _ arg config v (λ b. v)
  set_option-IsAccepted o_bin_voucher arg = v
  set_option-IsAccepted o_force_voucher arg = Holds-soft_flag IsAccepted _ arg config v (λ b. v)
  set_option-IsAccepted o_empty_rule_set_policy arg = policy-IsAccepted arg
  set_option-IsAccepted o_trusted_mac_list arg =
      from_run-IsAccepted trusted (add_each-Relisted trusted (split arg) config v.trusted_twice)
  set_option-IsAccepted o_blocked_mac_list arg =
      from_run-IsAccepted blocked (add_each-Relisted blocked (split arg) config v.blocked_twice)
  set_option-IsAccepted o_allowed_mac_list arg =
      from_run-IsAccepted allowed (add_each-Relisted allowed (split arg) config v.allowed_twice)
  set_option-IsAccepted o_mac_mechanism arg =
      if_both (Holds IsAccepted) (text_case_eq (codes "allow") arg) v
        (if_both (Holds IsAccepted) (text_case_eq (codes "block") arg) v tt)
  set_option-IsAccepted o_web_root arg = v
  set_option-IsAccepted o_splash_page arg = v
  set_option-IsAccepted o_images_dir arg = v
  set_option-IsAccepted o_pages_dir arg = v
  set_option-IsAccepted o_redirect_url arg = v
  set_option-IsAccepted o_ndsctl_socket arg = v
  set_option-IsAccepted o_decongest_httpd_threads arg = Holds-flag IsAccepted _ arg (λ b. v)
  set_option-IsAccepted o_httpd_thread_threshold arg = Holds-number IsAccepted _ arg (λ n. v)
  set_option-IsAccepted o_httpd_thread_delay_ms arg = Holds-number IsAccepted _ arg (λ n. v)
  set_option-IsAccepted o_client_idle_timeout arg = Holds-number IsAccepted _ arg (λ n. v)
  set_option-IsAccepted o_client_force_timeout arg = Holds-number IsAccepted _ arg (λ n. v)
  set_option-IsAccepted o_authenticate_immediately arg = Holds-flag IsAccepted _ arg (λ b. v)
  set_option-IsAccepted o_password_authentication arg = Holds-flag IsAccepted _ arg (λ b. v)
  set_option-IsAccepted o_username_authentication arg = Holds-flag IsAccepted _ arg (λ b. v)
  set_option-IsAccepted o_password_attempts arg = Holds-number IsAccepted _ arg (λ n. v)
  set_option-IsAccepted o_username arg = v
  set_option-IsAccepted o_password arg = v
  set_option-IsAccepted o_set_mss arg = Holds-flag IsAccepted _ arg (λ b. v)
  set_option-IsAccepted o_mss_value arg = Holds-number IsAccepted _ arg (λ n. v)
  set_option-IsAccepted o_traffic_control arg = Holds-flag IsAccepted _ arg (λ b. v)
  set_option-IsAccepted o_download_limit arg = Holds-number IsAccepted _ arg (λ n. v)
  set_option-IsAccepted o_upload_limit arg = Holds-number IsAccepted _ arg (λ n. v)
  set_option-IsAccepted o_download_imq arg = Holds-number IsAccepted _ arg (λ n. v)
  set_option-IsAccepted o_upload_imq arg = Holds-number IsAccepted _ arg (λ n. v)
  set_option-IsAccepted o_fw_mark_authenticated arg =
      Holds-unique_mark IsAccepted _ _ _ arg (λ n n0 nb nt.
        marks-IsAccepted config v n _ _ nb nt v.blocked_trusted n0 v.blocked_marks v.trusted_marks)
  set_option-IsAccepted o_fw_mark_blocked arg =
      Holds-unique_mark IsAccepted _ _ _ arg (λ n n0 na nt.
        marks-IsAccepted config v _ n _ (λ e. na (sym e)) v.authenticated_trusted nt
          v.authenticated_marks n0 v.trusted_marks)
  set_option-IsAccepted o_fw_mark_trusted arg =
      Holds-unique_mark IsAccepted _ _ _ arg (λ n n0 na nb.
        marks-IsAccepted config v _ _ n v.authenticated_blocked (λ e. na (sym e)) (λ e. nb (sym e))
          v.authenticated_marks v.blocked_marks n0)
  set_option-IsAccepted o_syslog_facility arg = Holds-number IsAccepted _ arg (λ n. v)
  set_option-IsAccepted o_auth_server arg = v
  set_option-IsAccepted o_auth_port arg = Holds-number IsAccepted _ arg (λ n. v)
  set_option-IsAccepted o_auth_path arg = v
  set_option-IsAccepted o_config_path arg = v
  set_option-IsAccepted o_net_traffic_path arg = v
  set_option-IsAccepted o_uid arg = uid-IsAccepted arg
  set_option-IsAccepted o_bad_option arg = tt
  set_option-IsAccepted other arg = v
