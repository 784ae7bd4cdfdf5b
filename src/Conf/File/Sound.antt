-- ===== src/Conf/File/Sound.antt =====
-- src/conf.c, `config_read`: what reading a whole file comes to.
use wifi_cat.Base.{
  ℕ, zero, suc, ◌≤◌, ◌<◌, ◌≡◌, refl, Bool, true, false, Option, none, some, List, [], ◌∷◌, ◌++◌,
  length, All, arith, if_both,
}
use wifi_cat.Base.Int.{ℤ}
use wifi_cat.Base.Text.{Text, is_blank}
use wifi_cat.Conf.{Config, FirewallRule, FirewallRuleset}
use wifi_cat.Conf.Opcodes.{OpCode, config_parse_opcode}
use wifi_cat.Conf.Rules.{parse_firewall_rule}
use wifi_cat.Conf.Rules.Safe.{IsRule, Appended, refused, appended, parse_firewall_rule-Appended}
use wifi_cat.Conf.Rulesets.{get_ruleset, update_ruleset}
use wifi_cat.Conf.Words.{break_at, lines_of}
use wifi_cat.Conf.File.{
  Line, blank, closing, lone, pair, config_line, ruleset_line, is_firewall_rule, is_rule_set,
  ruleset_loop, parse_firewall_ruleset, apply_option, config_loop, config_read,
}
use wifi_cat.Conf.File.Options.{Outcome, goes_on, exits, faults, set_option}
use wifi_cat.Conf.File.Options.Accepted.{HasRules, IsAccepted, update_ruleset-IsAccepted}
use wifi_cat.Conf.File.Options.Keeps.{Holds, set_option-IsAccepted}

All-snoc :
    (rules : List FirewallRule) (r : FirewallRule)
    → All IsRule rules
    → IsRule r
    → All IsRule (rules ++ r ∷ [])
All-snoc [] r h k = (k, tt)
All-snoc (x ∷ rules) r h k = (h.0, All-snoc rules r h.1 k)

-- A line of a ruleset keeps the ruleset's name, and adds no rule that the parser has not checked.
name-Appended :
    {rs : FirewallRuleset} {p : FirewallRuleset × ℤ} → Appended rs p → p.0.name ≡ rs.name
name-Appended (refused e h) = refl
name-Appended (appended rule h) = refl

rules-Appended :
    {rs : FirewallRuleset} {p : FirewallRuleset × ℤ} → Appended rs p → HasRules rs → HasRules p.0
rules-Appended (refused e h) k = k
rules-Appended {rs} (appended rule h) k = All-snoc rs.rules rule k h

-- The configuration is accepted, and no more lines are left than there were.
abbrev pub IsKept : ℕ → Config × List Text → Type 0
IsKept n p = IsAccepted p.0 × (length p.1 ≤ n)

rule-IsAccepted :
    (name arg : Text) (config : Config)
    → IsAccepted config
    → IsAccepted (update_ruleset name (λ rs. (parse_firewall_rule arg rs).0) config)
rule-IsAccepted name arg config v =
    update_ruleset-IsAccepted config v name _
      (λ r. name-Appended (parse_firewall_rule-Appended arg r))
      (λ r. rules-Appended (parse_firewall_rule-Appended arg r))

ruleset_loop-IsKept :
    (name : Text) (lines : List Text) (config : Config) (n : ℕ)
    → IsAccepted config
    → length lines ≤ n
    → Holds (IsKept n) (ruleset_loop name lines config)
unfolding ruleset_loop
ruleset_loop-IsKept name [] config n v le = (v, le)
ruleset_loop-IsKept name (line ∷ lines) config n v le =
    from (ruleset_line line) (λ c w. ruleset_loop-IsKept name lines c n w (omega arith))
  where
    from :
        (l : Line)
        → ((c : Config) → IsAccepted c → Holds (IsKept n) (ruleset_loop name lines c))
        → Holds (IsKept n) (elim l [
          | blank ↦ ruleset_loop name lines config
          | closing ↦ goes_on (config, lines)
          | lone word ↦ exits
          | pair word arg ↦ elim (is_firewall_rule (config_parse_opcode word)) [
            | false ↦ exits
            | true ↦
                ruleset_loop name lines
                  (update_ruleset name (λ rs. (parse_firewall_rule arg rs).0) config)
          ]
        ])
    from blank rest = rest config v
    from closing rest = (v, omega arith)
    from (lone word) rest = tt
    from (pair word arg) rest =
        by_test (is_firewall_rule (config_parse_opcode word)) _
          (rest _ (rule-IsAccepted name arg config v))
      where
        by_test :
            (b : Bool) (r : Outcome (Config × List Text))
            → Holds (IsKept n) r
            → Holds (IsKept n) (elim b [ false ↦ exits | true ↦ r ])
        by_test false r h = tt
        by_test true r h = h

-- Whatever option a line of the file names, with whatever argument, and whatever lines follow, a ruleset
-- in braces included: if the program goes on, no more lines are left than there were, and if in the
-- configuration before the three marks differed from one another and from 0, the rulesets had
-- different names, a rule of them had a port only behind tcp or udp, of digits and colons, and a mask of
-- digits, dots and slashes, and no list of MAC addresses had an address twice, then so it is afterwards. The program
-- may exit instead, or read behind the end of the argument.
pub apply_option-IsKept :
    (o : OpCode) (arg : Text) (lines : List Text) (config : Config)
    → IsAccepted config
    → Holds (IsKept (length lines)) (apply_option o arg lines config)
unfolding apply_option parse_firewall_ruleset
apply_option-IsKept o arg lines config v =
    let name = (break_at is_blank arg).0 in
    if_both (Holds (IsKept (length lines))) (is_rule_set o)
      (loop (get_ruleset name config)
        (ruleset_loop-IsKept name lines config (length lines) v (omega arith)))
      (other (set_option o arg config) (set_option-IsAccepted config v o arg))
  where
    loop :
        (r : Option FirewallRuleset)
        → Holds (IsKept (length lines)) (ruleset_loop (break_at is_blank arg).0 lines config)
        → Holds (IsKept (length lines)) (elim r [
          | none ↦ exits
          | some rs ↦ ruleset_loop (break_at is_blank arg).0 lines config
        ])
    loop none h = tt
    loop (some rs) h = h

    other :
        (r : Outcome Config)
        → Holds IsAccepted r
        → Holds (IsKept (length lines)) (elim r [
          | goes_on config' ↦ goes_on (config', lines)
          | exits ↦ exits
          | faults ↦ faults
        ])
    other (goes_on c) h = (h, omega arith)
    other exits h = tt
    other faults h = tt

-- A run that ends, and with an accepted configuration if the program goes on.
pub data Ended : Option (Outcome Config) → Type 0 where
  ended : (o : Outcome Config) → Holds IsAccepted o → Ended (some o)

config_loop-Ended :
    (fuel : ℕ) (lines : List Text) (config : Config)
    → IsAccepted config
    → length lines < fuel
    → Ended (config_loop fuel lines config)
unfolding config_loop
config_loop-Ended zero lines config v lt = ground arith
config_loop-Ended (suc fuel) [] config v lt = ended (goes_on config) v
config_loop-Ended (suc fuel) (line ∷ lines) config v lt =
    from (config_line line) (λ rest c w le. config_loop-Ended fuel rest c w (omega arith))
  where
    from :
        (l : Line)
        → ((rest : List Text) (c : Config)
            → IsAccepted c
            → length rest ≤ length lines
            → Ended (config_loop fuel rest c))
        → Ended (elim l [
          | blank ↦ config_loop fuel lines config
          | closing ↦ some exits
          | lone word ↦ some exits
          | pair word arg ↦ elim (apply_option (config_parse_opcode word) arg lines config) [
            | exits ↦ some exits
            | faults ↦ some faults
            | goes_on (config', lines') ↦ config_loop fuel lines' config'
          ]
        ])
    from blank go = go lines config v (omega arith)
    from closing go = ended exits tt
    from (lone word) go = ended exits tt
    from (pair word arg) go =
        by_result (apply_option (config_parse_opcode word) arg lines config)
          (apply_option-IsKept (config_parse_opcode word) arg lines config v) go
      where
        by_result :
            (r : Outcome (Config × List Text))
            → Holds (IsKept (length lines)) r
            → ((rest : List Text) (c : Config)
                → IsAccepted c
                → length rest ≤ length lines
                → Ended (config_loop fuel rest c))
            → Ended (elim r [
              | exits ↦ some exits
              | faults ↦ some faults
              | goes_on (config', lines') ↦ config_loop fuel lines' config'
            ])
        by_result exits h go = ended exits tt
        by_result faults h go = ended faults tt
        by_result (goes_on (config', lines')) h go = go lines' config' h.0 h.1

-- Reading a file always comes to an end.
pub config_read-Ended :
    (file : Option Text) (config : Config) → IsAccepted config → Ended (config_read file config)
unfolding config_read
config_read-Ended none config v = ended exits tt
config_read-Ended (some s) config v =
    config_loop-Ended (suc (length (lines_of s))) (lines_of s) config v (omega arith)
