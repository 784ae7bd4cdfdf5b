-- ===== src/Examples/Lists.antt =====
-- The theorems on the lists and the requests that change them, at the example.
use wifi_cat.Base.{Bool, ◌≡◌, refl, none, some, [], ◌∷◌, ok, arith}
use wifi_cat.Base.Int.{pos, negsuc}
use wifi_cat.Base.Text.{Text, codes, text_eq, text_case_eq, to_lower}
use wifi_cat.Conf.{Config}
use wifi_cat.Conf.Formats.{check_mac_format, mac_groups, is_match, mac_of}
use wifi_cat.Base.Scan.{set_of, run_of, nonempty, byte, ◌>>=◌, done}
use wifi_cat.Conf.Mac.{
  trusted, blocked, allowed, parse_trusted_mac_list, parse_blocked_mac_list, parse_allowed_mac_list,
}
use wifi_cat.Conf.Mac.Laws.{add_to-remove_from, remove_from-gone, Parsed, parse_mac_list-Parsed}
use wifi_cat.Conf.FreeIp.{FreeIps, add_to_free_domain_list, add_to_free_domain_list-FreeIps}
use wifi_cat.Conf.Mac.{
  add_to, remove_from, add_to_blocked_mac_list, is_int, is_listed, add_mac, list_of, with_list,
}
use wifi_cat.Ndsctl.Macs.{
  Undone, ndsctl_add-ndsctl_remove, Changed, ndsctl_add, ndsctl_remove, rule_in, rule_out,
  ndsctl_mac-Changed,
}
use wifi_cat.Ndsctl.{Daemon, answer_yes, ndsctl_block, change_and_rule}
use wifi_cat.Shell.{iptables_do_command, tries, execute}
use wifi_cat.Iptables.{iptables_block_mac, mark_mac}
use wifi_cat.Ndsctl.Read.{read_request, read_request-ends, read_request-spins}
use wifi_cat.Examples.{small_config, some_marks, a_mac, one_daemon, one_state, willing}

parsed_example :
    Parsed trusted
      (parse_trusted_mac_list (codes "00:11:22:33:44:55, 00:11:22:33:44:66") small_config)
    × (Parsed blocked
          (parse_blocked_mac_list (codes "00:11:22:33:44:55, 00:11:22:33:44:66") small_config)
        × Parsed allowed
            (parse_allowed_mac_list (codes "00:11:22:33:44:55, 00:11:22:33:44:66") small_config))
parsed_example =
    parse_mac_list-Parsed (codes "00:11:22:33:44:55, 00:11:22:33:44:66") small_config tt tt tt

domain_example :
    FreeIps
      (add_to_free_domain_list
        (λ d. some (codes "10.0.0.9" ∷ []))
        (codes "example.org")
        small_config).0.free_ip_list
domain_example =
    add_to_free_domain_list-FreeIps (λ d. some (codes "10.0.0.9" ∷ [])) (codes "example.org")
      small_config tt

changed_example :
    Changed
      (add_to blocked a_mac)
      (rule_in some_marks blocked a_mac)
      one_daemon
      (ndsctl_add some_marks blocked a_mac one_daemon)
    × Changed
        (remove_from blocked a_mac)
        (rule_out some_marks blocked a_mac)
        one_daemon
        (ndsctl_remove some_marks blocked a_mac one_daemon)
changed_example = ndsctl_mac-Changed some_marks blocked a_mac one_daemon

ends_example :
    (result : Text × Bool) × (read_request 4096 (λ k. codes "status\n") 0 [] ≡ some result)
unfolding codes
ends_example =
    read_request-ends 4096 (λ k. codes "status\n") 0 [] (λ j. omega arith) (omega arith)
      (omega arith)

spins_example : read_request 1000 (λ k. []) 0 (codes "status") ≡ none
unfolding codes
spins_example = read_request-spins 1000 (λ k. []) 0 (codes "status") (λ j. refl) (omega arith)

-- The configuration with one blocked address.
abbrev one_blocked : Config
one_blocked = record small_config { blockedmaclist = a_mac ∷ [] }

blocked_added : add_to blocked a_mac small_config ≡ ok (one_blocked, pos 0)
unfolding add_to add_to_blocked_mac_list check_mac_format mac_groups is_match mac_of is_int
    is_listed add_mac list_of with_list set_of run_of nonempty byte ◌>>=◌ done codes text_case_eq
    text_eq to_lower
blocked_added = refl

blocked_removed : remove_from blocked a_mac one_blocked ≡ ok (small_config, pos 0)
blocked_removed = add_to-remove_from blocked a_mac small_config one_blocked blocked_added

undo_example : remove_from blocked a_mac one_blocked ≡ ok (small_config, pos 0)
undo_example = add_to-remove_from blocked a_mac small_config one_blocked blocked_added

gone_example : remove_from blocked a_mac small_config ≡ ok (small_config, negsuc 0)
unfolding list_of is_listed
gone_example = remove_from-gone blocked a_mac one_blocked small_config (refl, tt) blocked_removed

-- The daemon after it has blocked the address.
abbrev blocking : Daemon
blocking = record {
  config = one_blocked;
  state = record one_state { shell = (rule_in some_marks blocked a_mac willing).0 };
}

block_answered : ndsctl_add some_marks blocked a_mac one_daemon ≡ ok (blocking, answer_yes)
unfolding ndsctl_add ndsctl_block change_and_rule rule_in iptables_block_mac mark_mac
    iptables_do_command tries execute
block_answered = rw blocked_added refl

unblock_example : Undone some_marks blocked a_mac one_daemon blocking
unblock_example =
    ndsctl_add-ndsctl_remove some_marks blocked a_mac one_daemon blocking block_answered
