-- ===== src/Examples/Files.antt =====
-- The theorems on the configuration file, at small files.
use wifi_cat.Base.{◌≡◌, refl, Option, none, some, [], ◌∷◌, ◌++◌, arith, inl}
use wifi_cat.Base.Int.{ℤ, pos}
use wifi_cat.Base.Text.{Text, codes}
use wifi_cat.Conf.{FirewallRuleset, target_accept}
use wifi_cat.Conf.Init.{config_init}
use wifi_cat.Conf.Rules.{parse_firewall_rule}
use wifi_cat.Conf.Rules.Safe.{Appended, parse_firewall_rule-Appended}
use wifi_cat.Conf.File.{config_read, apply_option}
use wifi_cat.Conf.File.Options.Keeps.{Holds}
use wifi_cat.Conf.File.Sound.{Ended, config_read-Ended, IsKept, apply_option-IsKept}
use wifi_cat.Conf.Opcodes.{o_firewall_rule_set}
use wifi_cat.Conf.Rules.{all_bytes}
use wifi_cat.Conf.Rules.RoundTrip.{print_rule, IsPrintable, parse_firewall_rule-print_rule}
use wifi_cat.Startup.{config_init-IsAccepted, start, Server}
use wifi_cat.Startup.Ready.{Started, start-Started}
use wifi_cat.Examples.Portal.{some_network}
use wifi_cat.Examples.{small_config}

abbrev a_file : Text
a_file =
    codes "# the network\nGatewayInterface br-lan\nFW_MARK_BLOCKED 0x10\n"
    ++ codes
        "FirewallRuleSet users-to-router {\n  FirewallRule allow tcp port 80 to 10.0.0.0/8\n}\n"

abbrev only_file : Text → Option Text
only_file name = some a_file

abbrev no_number : Text → ℤ
no_number s = pos 0

abbrev the_server : Server
the_server = record {
  gethostbyname = λ name. none;
  jsmn_parse = λ json. none;
  version = codes "1";
  networks = λ k. some_network;
  patience = 3;
  attempts = 2;
}

start_example :
    Started no_number the_server
      (start no_number ((b's', none) ∷ []) only_file the_server small_config)
start_example = start-Started no_number the_server ((b's', none) ∷ []) only_file small_config

abbrev empty_ruleset : FirewallRuleset
empty_ruleset = record { name = codes "users-to-router"; emptyrulesetpolicy = none; rules = [] }

rule_line_example :
    Appended empty_ruleset (parse_firewall_rule (codes "allow udp port 53") empty_ruleset)
rule_line_example = parse_firewall_rule-Appended (codes "allow udp port 53") empty_ruleset

some_rule-IsPrintable : IsPrintable (some (codes "tcp")) (some (codes "80")) (codes "10.0.0.0/8")
unfolding codes all_bytes
some_rule-IsPrintable = record {
  protocol_ok = inl refl;
  port_ok = (inl refl, (refl, (λ e. ground arith)));
  mask_bytes = refl;
  mask_nonempty = λ e. ground arith;
}

read_back_example :
    parse_firewall_rule
      (print_rule target_accept (some (codes "tcp")) (some (codes "80")) (codes "10.0.0.0/8"))
      empty_ruleset
    ≡ (
      record empty_ruleset {
        rules =
            empty_ruleset.rules
            ++ record {
              target = target_accept;
              protocol = some (codes "tcp");
              port = some (codes "80");
              mask = some (codes "10.0.0.0/8");
            }
              ∷ [];
      },
      pos 1,
    )
read_back_example =
    parse_firewall_rule-print_rule target_accept (some (codes "tcp")) (some (codes "80"))
      (codes "10.0.0.0/8") empty_ruleset some_rule-IsPrintable

option_example : Holds (IsKept 2) (
    apply_option o_firewall_rule_set
      (codes "users-to-router")
      (codes "FirewallRule allow udp port 53" ∷ codes "}" ∷ [])
      (config_init small_config))
option_example =
    apply_option-IsKept o_firewall_rule_set (codes "users-to-router")
      (codes "FirewallRule allow udp port 53" ∷ codes "}" ∷ []) (config_init small_config)
      (config_init-IsAccepted small_config)

whole_file_example : Ended (config_read (some a_file) (config_init small_config))
whole_file_example =
    config_read-Ended (some a_file) (config_init small_config) (config_init-IsAccepted small_config)
