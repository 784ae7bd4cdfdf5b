-- ===== src/Conf/File.antt =====
-- src/conf.c, `config_read`: the configuration file, line by line.
pub mod Options
pub mod Sound
use wifi_cat.Base.{
  ℕ, zero, suc, Bool, true, false, Option, none, some, List, [], ◌∷◌, ◌==◌, if◌then◌else◌, length,
}
use wifi_cat.Base.Text.{Text, codes, is_blank, is_space, text_case_eq}
use wifi_cat.Conf.{Config}
use wifi_cat.Conf.Opcodes.{OpCode, o_firewall_rule, o_firewall_rule_set, config_parse_opcode}
use wifi_cat.Conf.Rules.{parse_firewall_rule}
use wifi_cat.Conf.Rulesets.{get_ruleset, update_ruleset}
use wifi_cat.Conf.Words.{break_at, drop_blanks, strip_whitespace, until_nul, lines_of}
use wifi_cat.Conf.File.Options.{Outcome, goes_on, exits, faults, set_option}

-- A line in its two parts. `lone` is a first word with nothing behind it.
pub data Line : Type 0 where
  blank closing : Line
  lone : Text → Line
  pair : Text → Text → Line

-- The first word, as far as the test, and what stands behind it.
split_line : (ℕ → Bool) → Text → Line
unfolding break_at drop_blanks
split_line test s =
    let (word, rest) = break_at test s in
    elim rest [ [] ↦ lone word | c ∷ arg ↦ pair word (drop_blanks arg) ]

-- A line of the file, and a line inside a ruleset, which may be the closing brace.
pub config_line : Text → Line
unfolding split_line strip_whitespace until_nul
config_line line = elim (strip_whitespace (until_nul line)) [
  | [] ↦ blank
  | c ∷ s ↦ split_line is_space (c ∷ s)
]

pub ruleset_line : Text → Line
unfolding split_line strip_whitespace until_nul
ruleset_line line = elim (strip_whitespace (until_nul line)) [
  | [] ↦ blank
  | c ∷ s ↦ if c == b'}' then closing else split_line is_blank (c ∷ s)
]

is_firewall_rule : OpCode → Bool
is_firewall_rule o_firewall_rule = true
is_firewall_rule other = false

is_rule_set : OpCode → Bool
is_rule_set o_firewall_rule_set = true
is_rule_set other = false

-- The loop of `parse_firewall_ruleset`; it gives back the lines that it has not read. The code of
-- `_parse_firewall_rule` is ignored.
pub ruleset_loop : Text → List Text → Config → Outcome (Config × List Text)
unfolding ruleset_line is_firewall_rule
ruleset_loop name [] config = goes_on (config, [])
ruleset_loop name (line ∷ lines) config = elim (ruleset_line line) [
  | blank ↦ ruleset_loop name lines config
  | closing ↦ goes_on (config, lines)
  | lone word ↦ exits
  | pair word arg ↦ elim (is_firewall_rule (config_parse_opcode word)) [
    | false ↦ exits
    | true ↦
        ruleset_loop name lines (update_ruleset name (λ rs. (parse_firewall_rule arg rs).0) config)
  ]
]

-- `parse_firewall_ruleset`: the name ends at the first blank.
pub parse_firewall_ruleset : Text → List Text → Config → Outcome (Config × List Text)
unfolding ruleset_loop break_at
parse_firewall_ruleset rulesetname lines config =
    let name = (break_at is_blank rulesetname).0 in
    elim (get_ruleset name config) [ none ↦ exits | some rs ↦ ruleset_loop name lines config ]

-- The switch of `config_read`: a ruleset is read up to its end, all else needs nothing more of the file.
pub apply_option : OpCode → Text → List Text → Config → Outcome (Config × List Text)
unfolding parse_firewall_ruleset is_rule_set
apply_option opcode arg lines config =
    if is_rule_set opcode
    then parse_firewall_ruleset arg lines config
    else elim (set_option opcode arg config) [
      | goes_on config' ↦ goes_on (config', lines)
      | exits ↦ exits
      | faults ↦ faults
    ]

-- The loop of `config_read` on fuel: `none` means that it ran out.
pub config_loop : ℕ → List Text → Config → Option (Outcome Config)
unfolding config_line apply_option
config_loop zero lines config = none
config_loop (suc fuel) [] config = some (goes_on config)
config_loop (suc fuel) (line ∷ lines) config = elim (config_line line) [
  | blank ↦ config_loop fuel lines config
  | closing ↦ some exits
  | lone word ↦ some exits
  | pair word arg ↦ elim (apply_option (config_parse_opcode word) arg lines config) [
    | exits ↦ some exits
    | faults ↦ some faults
    | goes_on (config', lines') ↦ config_loop fuel lines' config'
  ]
]

-- `config_read`, from what the file holds, if it can be opened. The fuel is one more than the lines.
unfoldable pub config_read : Option Text → Config → Option (Outcome Config)
unfolding config_loop lines_of
config_read file config = elim file [
  | none ↦ some exits
  | some s ↦ config_loop (suc (length (lines_of s))) (lines_of s) config
]
