-- ===== src/Iptables/Teardown.antt =====
-- src/fw_iptables.c, `iptables_fw_destroy`: the rules that mention the gateway's chains are deleted one by
-- one, then the chains are flushed and deleted.
pub mod Ends
use mathlib.Core.Option
use wifi_cat.Base.{
  drop, length, filterb, ◌<◌, ◌≢◌, ℕ, zero, suc, ◌≡◌, refl, Bool, true, false, ◌||◌, Option, none,
  some, List, [], ◌∷◌, ◌++◌, String, arith, if◌then◌else◌, ◌==◌, take,
}
use wifi_cat.Base.Text.{Text, Piece, lit, str, dec, hex, format, codes, has_prefix, is_digit}
use wifi_cat.Shell.{Shell, Script, ◌|=◌, nothing, ◌then_do◌, iptables_do_command}
use wifi_cat.Conf.{Config}
use wifi_cat.Tc.{tc_destroy_tc}
use wifi_cat.Iptables.{failed}
use wifi_cat.Iptables.Access.{is_true}

-- `strstr(line, mention)`
unfoldable pub mentions : Text → Text → Bool
mentions mention [] = has_prefix [] mention
mentions mention (c ∷ s) = has_prefix (c ∷ s) mention || mentions mention s

-- `sscanf(line, "%9[0-9]", rulenum)`: up to `n` digits.
unfoldable pub scan_digits : ℕ → Text → Text
scan_digits zero s = []
scan_digits (suc n) [] = []
scan_digits (suc n) (c ∷ s) = if is_digit c then c ∷ scan_digits n s else []

-- The loop over the listing: the number of the first rule that mentions the chain and has one.
unfoldable pub find_mention : Text → List Text → Option Text
unfolding mentions scan_digits
find_mention mention [] = none
find_mention mention (line ∷ lines) =
    if mentions mention line
    then elim (scan_digits 9 line) [ [] ↦ find_mention mention lines | c ∷ s ↦ some (c ∷ s) ]
    else find_mention mention lines

-- The listing of a chain without its two header lines.
unfoldable pub listing : Text → Text → Shell → Option (List Text)
listing table chain w = Option.map (drop 2) (
    w.output w.log (
      format (
        lit "iptables -t "
        ∷ str table
        ∷ lit " -L "
        ∷ str chain
        ∷ lit " -n --line-numbers -v"
        ∷ [])))

unfoldable pub delete_rule : Text → Text → Text → Script
delete_rule table chain rulenum =
    iptables_do_command
      (lit "-t " ∷ str table ∷ lit " -D " ∷ str chain ∷ lit " " ∷ str rulenum ∷ [])

-- `iptables_fw_destroy_mention`, on fuel: after each deletion it starts again, since the numbers have
-- changed. `none` means that the fuel ran out.
pub iptables_fw_destroy_mention : ℕ → Text → Text → Text → Shell → Option (Shell × ℕ)
unfolding find_mention listing delete_rule
iptables_fw_destroy_mention zero table chain mention w = none
iptables_fw_destroy_mention (suc fuel) table chain mention w = elim (listing table chain w) [
  | none ↦ some (w, failed)
  | some lines ↦ elim (find_mention mention lines) [
    | none ↦ some (w, failed)
    | some rulenum ↦
        elim (iptables_fw_destroy_mention fuel table chain mention
          (delete_rule table chain rulenum w).0) [ none ↦ none | some (w', r) ↦ some (w', 0) ]
  ]
]

destroy_each : ℕ → List (String × String × String) → Shell → Option Shell
unfolding iptables_fw_destroy_mention
destroy_each fuel [] w = some w
destroy_each fuel ((table, chain, mention) ∷ rest) w =
    elim (iptables_fw_destroy_mention fuel (codes table) (codes chain) (codes mention) w) [
      | none ↦ none
      | some (w', r) ↦ destroy_each fuel rest w'
    ]

-- `-F` on each chain of a table, then `-X` on each.
on_chains : String → String → List String → Script
on_chains table flag [] = nothing
on_chains table flag (c ∷ cs) =
    iptables_do_command (lit "-t " ∷ lit table ∷ lit " " ∷ lit flag ∷ lit " " ∷ lit c ∷ [])
    |= on_chains table flag cs

abbrev mangle_chains : List String
mangle_chains = "ndsTRU" ∷ "ndsBLK" ∷ "ndsALW" ∷ "ndsOUT" ∷ "ndsINC" ∷ []

abbrev nat_chains : List String
nat_chains = "ndsOUT" ∷ []

abbrev filter_chains : List String
filter_chains = "ndsRTR" ∷ "ndsNET" ∷ "ndsAUT" ∷ "ndsTRU" ∷ "ndsTRT" ∷ []

abbrev mangle_mentions : List (String × String × String)
mangle_mentions =
    ("mangle", "PREROUTING", "ndsTRU")
    ∷ ("mangle", "PREROUTING", "ndsBLK")
    ∷ ("mangle", "PREROUTING", "ndsALW")
    ∷ ("mangle", "PREROUTING", "ndsOUT")
    ∷ ("mangle", "POSTROUTING", "ndsINC")
    ∷ []

-- The two sweeps over a table: the jumps to its chains, then the chains.
destroy_table : ℕ → List (String × String × String) → String → List String → Shell → Option Shell
unfolding destroy_each on_chains
destroy_table fuel jumps table chains w = elim (destroy_each fuel jumps w) [
  | none ↦ none
  | some w' ↦ some ((on_chains table "-F" chains |= on_chains table "-X" chains) w').0
]

-- `iptables_fw_destroy`. It returns 0 whatever happens.
pub iptables_fw_destroy : ℕ → Config → Shell → Option Shell
unfolding destroy_table
iptables_fw_destroy fuel config w =
    let w0 = if is_true config.traffic_control then (tc_destroy_tc config w).0 else w in
    elim (destroy_table fuel mangle_mentions "mangle" mangle_chains w0) [
      | none ↦ none
      | some w1 ↦
          elim (destroy_table fuel (("nat", "PREROUTING", "ndsOUT") ∷ []) "nat" nat_chains w1) [
            | none ↦ none
            | some w2 ↦
                destroy_table fuel
                  (("filter", "INPUT", "ndsRTR") ∷ ("filter", "FORWARD", "ndsNET") ∷ []) "filter"
                  filter_chains w2
          ]
    ]
