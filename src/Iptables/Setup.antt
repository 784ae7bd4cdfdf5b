-- ===== src/Iptables/Setup.antt =====
-- src/fw_iptables.c, `iptables_fw_init`: the chains and rules of the gateway, in the order of the source.
pub mod Success
use wifi_cat.Conf.Mac.{is_int}
use wifi_cat.Base.{not, ◌&&◌, ℕ, Option, none, some, [], ◌∷◌, String, if◌then◌else◌}
use wifi_cat.Base.Int.{to_int, pos, ltb_ℤ}
use wifi_cat.Base.Text.{Text, Piece, lit, str, dec, hex, codes}
use wifi_cat.Shell.{Shell, Script, ◌|=◌, nothing, iptables_do_command}
use wifi_cat.Conf.{Config}
use wifi_cat.Conf.Init.{mac_allow, mac_block}
use wifi_cat.Conf.Rulesets.{is_empty_ruleset, get_empty_ruleset_policy}
use wifi_cat.Tc.{tc_init_tc}
use wifi_cat.Iptables.{
  Marks, failed, iptables_init_marks, iptables_check_mark_masking, each, iptables_append_ruleset,
  iptables_block_mac, iptables_allow_mac, iptables_trust_mac,
}
use wifi_cat.Iptables.Access.{is_true}

-- The copies that the function takes of the interface, the address and the range.
pub record Gateway : Type 0 where
  pub interface : Text
  pub address : Text
  pub iprange : Text

-- `safe_strdup` ends the program on NULL.
unfoldable pub gateway_of : Config → Option Gateway
gateway_of config = elim config.gw_interface [
  | none ↦ none
  | some i ↦ elim config.gw_address [
    | none ↦ none
    | some a ↦ elim config.gw_iprange [
      | none ↦ none
      | some r ↦ some (record { interface = i; address = a; iprange = r })
    ]
  ]
]

-- The marks of the configuration, before they are checked.
unfoldable pub marks_of : Config → Marks → Marks
marks_of config m = record m {
  blocked = config.fw_mark_blocked;
  trusted = config.fw_mark_trusted;
  authenticated = config.fw_mark_authenticated;
}

-- A `char *` printed by `%s`.
print_policy : Option Text → Piece
print_policy none = lit "(null)"
print_policy (some t) = str t

-- The packets of the gateway's interface and range jump to a chain.
unfoldable pub jump : String → String → Gateway → Script
jump start target g = iptables_do_command (
    lit start
    ∷ lit " -i "
    ∷ str g.interface
    ∷ lit " -s "
    ∷ str g.iprange
    ∷ lit " -j "
    ∷ lit target
    ∷ [])

-- The packets with a mark meet a target.
unfoldable pub on_mark : String → ℕ → Marks → Piece → Script
on_mark start mark m target =
    iptables_do_command
      (lit start ∷ lit " -m mark --mark 0x" ∷ hex mark ∷ str m.markmask ∷ lit " -j " ∷ target ∷ [])

-- The rules for blocked MACs. An unknown mechanism sets the status to -1, which no further `|=` changes.
unfoldable pub mac_rules : Config → Marks → Script
mac_rules config m =
    if is_int mac_block config.macmechanism
    then each (iptables_block_mac m) config.blockedmaclist
    else if is_int mac_allow config.macmechanism
    then (iptables_do_command
          (lit "-t mangle -A ndsBLK -j MARK " ∷ str m.markop ∷ lit " 0x" ∷ hex m.blocked ∷ [])
        |= each iptables_allow_mac config.allowedmaclist)
    else (λ w. (w, failed))

unfoldable pub mangle_rules : Config → Marks → Gateway → Script
unfolding jump mac_rules
mangle_rules config m g =
    nothing
    |= iptables_do_command (lit "-t mangle -N ndsTRU" ∷ [])
    |= iptables_do_command (lit "-t mangle -N ndsBLK" ∷ [])
    |= iptables_do_command (lit "-t mangle -N ndsINC" ∷ [])
    |= iptables_do_command (lit "-t mangle -N ndsOUT" ∷ [])
    |= jump "-t mangle -I PREROUTING 1" "ndsOUT" g
    |= jump "-t mangle -I PREROUTING 2" "ndsBLK" g
    |= jump "-t mangle -I PREROUTING 3" "ndsTRU" g
    |= iptables_do_command (
        lit "-t mangle -I POSTROUTING 1 -o "
        ∷ str g.interface
        ∷ lit " -d "
        ∷ str g.iprange
        ∷ lit " -j ndsINC"
        ∷ [])
    |= each (iptables_trust_mac m) config.trustedmaclist
    |= mac_rules config m
    |= (if is_true config.traffic_control then tc_init_tc config else nothing)

unfoldable pub nat_rules : Config → Marks → Gateway → Script
unfolding jump on_mark
nat_rules config m g =
    nothing
    |= iptables_do_command (lit "-t nat -N ndsOUT" ∷ [])
    |= jump "-t nat -I PREROUTING" "ndsOUT" g
    |= on_mark "-t nat -A ndsOUT" m.trusted m (lit "ACCEPT")
    |= on_mark "-t nat -A ndsOUT" m.authenticated m (lit "ACCEPT")
    |= iptables_append_ruleset config (codes "nat") (codes "preauthenticated-users")
        (codes "ndsOUT")
    |= iptables_do_command (
        lit "-t nat -A ndsOUT -p tcp --dport 80 -j DNAT --to-destination "
        ∷ str g.address
        ∷ lit ":"
        ∷ dec (to_int config.gw_port)
        ∷ [])
    |= iptables_do_command (lit "-t nat -A ndsOUT -j ACCEPT" ∷ [])

-- A chain that accepts what belongs to known connections, then what a ruleset says, and rejects the
-- rest.
unfoldable pub ruleset_chain : Config → String → String → Script
ruleset_chain config name chain =
    nothing
    |= iptables_do_command (
        lit "-t filter -A "
        ∷ lit chain
        ∷ lit " -m state --state RELATED,ESTABLISHED -j ACCEPT"
        ∷ [])
    |= iptables_append_ruleset config (codes "filter") (codes name) (codes chain)
    |= iptables_do_command (
        lit "-t filter -A " ∷ lit chain ∷ lit " -j REJECT --reject-with icmp-port-unreachable" ∷ [])

-- Packets with a mark: the policy of an empty ruleset, or a chain of their own.
unfoldable pub marked_users : Config → Marks → String → ℕ → String → String → Script
unfolding on_mark ruleset_chain print_policy
marked_users config m start mark name chain =
    if is_empty_ruleset (codes name) config
    then on_mark start mark m (print_policy (get_empty_ruleset_policy (codes name) config))
    else (on_mark start mark m (lit chain) |= ruleset_chain config name chain)

unfoldable pub input_rules : Config → Marks → Gateway → Script
unfolding jump on_mark marked_users print_policy
input_rules config m g =
    nothing
    |= jump "-t filter -I INPUT" "ndsRTR" g
    |= on_mark "-t filter -A ndsRTR" m.blocked m (lit "DROP")
    |= iptables_do_command (lit "-t filter -A ndsRTR -m state --state INVALID -j DROP" ∷ [])
    |= iptables_do_command
        (lit "-t filter -A ndsRTR -m state --state RELATED,ESTABLISHED -j ACCEPT" ∷ [])
    |= iptables_do_command
        (lit "-t filter -A ndsRTR -p tcp --tcp-flags SYN SYN \\! --tcp-option 2 -j  DROP" ∷ [])
    |= iptables_do_command (
        lit "-t filter -A ndsRTR -p tcp --dport "
        ∷ dec (to_int config.gw_port)
        ∷ lit " -j ACCEPT"
        ∷ [])
    |= marked_users config m "-t filter -A ndsRTR" m.trusted "trusted-users-to-router" "ndsTRT"
    |= (if is_empty_ruleset (codes "users-to-router") config
        then iptables_do_command (
            lit "-t filter -A ndsRTR -j "
            ∷ print_policy (get_empty_ruleset_policy (codes "users-to-router") config)
            ∷ [])
        else (iptables_append_ruleset config (codes "filter") (codes "users-to-router")
              (codes "ndsRTR")
            |= iptables_do_command
                (lit "-t filter -A ndsRTR -j REJECT --reject-with icmp-port-unreachable" ∷ [])))

-- The maximum segment size, fixed or clamped.
unfoldable pub mss_rules : Config → Script
mss_rules config =
    if is_true config.set_mss
    then (if ltb_ℤ (pos 0) config.mss_value
        then iptables_do_command (
            lit "-t filter -A ndsNET -p tcp --tcp-flags SYN,RST SYN -j TCPMSS --set-mss "
            ∷ dec config.mss_value
            ∷ [])
        else iptables_do_command (
            lit "-t filter -A ndsNET -p tcp --tcp-flags SYN,RST SYN -j TCPMSS --clamp-mss-to-pmtu"
            ∷ []))
    else nothing

unfoldable pub forward_rules : Config → Marks → Gateway → Script
unfolding jump on_mark marked_users mss_rules print_policy
forward_rules config m g =
    nothing
    |= jump "-t filter -I FORWARD" "ndsNET" g
    |= on_mark "-t filter -A ndsNET" m.blocked m (lit "DROP")
    |= iptables_do_command (lit "-t filter -A ndsNET -m state --state INVALID -j DROP" ∷ [])
    |= mss_rules config
    |= marked_users config m "-t filter -A ndsNET" m.trusted "trusted-users" "ndsTRU"
    |= marked_users config m "-t filter -A ndsNET" m.authenticated "authenticated-users" "ndsAUT"
    |= (if is_empty_ruleset (codes "preauthenticated-users") config
        then iptables_do_command (
            lit "-t filter -A ndsNET -j "
            ∷ print_policy (get_empty_ruleset_policy (codes "preauthenticated-users") config)
            ∷ lit " "
            ∷ [])
        else iptables_append_ruleset config (codes "filter") (codes "preauthenticated-users")
            (codes "ndsNET"))
    |= iptables_do_command
        (lit "-t filter -A ndsNET -j REJECT --reject-with icmp-port-unreachable" ∷ [])

unfoldable pub filter_rules : Config → Marks → Gateway → Script
unfolding input_rules forward_rules
filter_rules config m g =
    nothing
    |= iptables_do_command (lit "-t filter -N ndsNET" ∷ [])
    |= iptables_do_command (lit "-t filter -N ndsRTR" ∷ [])
    |= iptables_do_command (lit "-t filter -N ndsAUT" ∷ [])
    |= iptables_do_command (lit "-t filter -N ndsTRU" ∷ [])
    |= iptables_do_command (lit "-t filter -N ndsTRT" ∷ [])
    |= input_rules config m g
    |= forward_rules config m g

-- `iptables_fw_init`: the marks that it leaves, and the status. `none` is the exit of the program for
-- want of an interface, an address or a range.
unfoldable pub iptables_fw_init : Config → Marks → Shell → Option (Marks × Shell × ℕ)
unfolding gateway_of marks_of mangle_rules nat_rules filter_rules
iptables_fw_init config m w = elim (gateway_of config) [
  | none ↦ none
  | some g ↦
      let (m1, rc) = iptables_init_marks (marks_of config m) in
      let (m2, w1) = iptables_check_mark_masking m1 w in
      let (w2, r) =
        ((λ v. (v, rc))
            |= mangle_rules config m2 g
            |= nat_rules config m2 g
            |= filter_rules config m2 g)
          w1 in
      some (m2, w2, r)
]
