-- ===== src/Iptables.antt =====
-- src/fw_iptables.c: the packet marks, the rules as command lines, and the commands on single MACs.
pub mod Access
pub mod Setup
pub mod Teardown
pub mod Counters
use Prim.Native.Nat.{bit_or}
use wifi_cat.Base.{
  ℕ, ◌+◌, ◌-◌, ◌^◌, ◌≡◌, ◌≢◌, refl, Bool, true, false, ◌||◌, Option, none, some, List, [], ◌∷◌,
  ◌++◌, String, arith, if◌then◌else◌, ◌==◌, take, ◌⊎◌, inl, inr, ◌↔◌,
}
use wifi_cat.Base.Text.{Text, Piece, lit, str, dec, hex, format, codes}
use wifi_cat.Shell.{Shell, Script, ◌|=◌, nothing, ◌then_do◌, iptables_do_command}
use wifi_cat.Conf.{
  Config, FirewallRule, FirewallTarget, target_drop, target_reject, target_accept, target_log,
  target_ulog,
}
use wifi_cat.Conf.Rulesets.{get_ruleset_list}

-- The global marks of firewall.c, and the two settings that depend on the kernel.
pub record Marks : Type 0 where
  pub preauthenticated : ℕ
  pub authenticated : ℕ
  pub blocked : ℕ
  pub trusted : ℕ
  pub mask : ℕ
  pub markop : Text
  pub markmask : Text

-- The status -1.
abbrev pub failed : ℕ
failed = 2 ^ 32 - 1

-- `_iptables_init_marks`
unfoldable pub iptables_init_marks : Marks → Marks × ℕ
iptables_init_marks m =
    if m.blocked == m.trusted || (m.trusted == m.authenticated || m.authenticated == m.blocked)
    then (m, failed)
    else if m.blocked == 0 || (m.trusted == 0 || m.authenticated == 0)
    then (m, failed)
    else (
      record m { preauthenticated = 0; mask = bit_or (bit_or m.blocked m.trusted) m.authenticated },
      0,
    )

-- `_iptables_check_mark_masking`: tries a rule of each kind, and takes it back where it was accepted.
unfoldable pub iptables_check_mark_masking : Marks → Shell → Marks × Shell
iptables_check_mark_masking m w =
    let (w1, or_mark) =
      iptables_do_command
        (lit "-t mangle -I PREROUTING 1 -j MARK --or-mark 0x" ∷ hex m.blocked ∷ []) w in
    let (w2, op) : Shell × Text =
      if or_mark == 0
      then ((iptables_do_command (lit "-t mangle -D PREROUTING 1" ∷ []) w1).0, codes "--or-mark")
      else (w1, codes "--set-mark") in
    let (w3, masking) =
      iptables_do_command
        (lit "-t filter -I FORWARD 1 -m mark --mark 0x"
          ∷ hex m.blocked
          ∷ lit "/0x"
          ∷ hex m.mask
          ∷ lit " -j REJECT"
          ∷ [])
        w2 in
    let (w4, mask) : Shell × Text =
      if masking == 0
      then (
        (iptables_do_command (lit "-t filter -D FORWARD 1" ∷ []) w3).0,
        format (lit "/0x" ∷ hex m.mask ∷ []),
      )
      else (w3, codes "") in
    (record m { markop = op; markmask = mask }, w4)

mode_of : FirewallTarget → String
mode_of target_drop = "DROP"
mode_of target_reject = "REJECT"
mode_of target_accept = "ACCEPT"
mode_of target_log = "LOG"
mode_of target_ulog = "ULOG"

-- `snprintf` behind what the buffer of 4096 bytes holds already.
snprintf_after : Text → List Piece → Text
snprintf_after command args = take 4095 (command ++ format args)

snprintf_option : Text → String → Option Text → Text
unfolding snprintf_after
snprintf_option command flag none = command
snprintf_option command flag (some t) =
    snprintf_after command (lit flag ∷ lit " " ∷ str t ∷ lit " " ∷ [])

-- `_iptables_compile`
pub iptables_compile : Text → Text → FirewallRule → Text
unfolding mode_of snprintf_option snprintf_after
iptables_compile table chain rule =
    let start = snprintf_after [] (lit "-t " ∷ str table ∷ lit " -A " ∷ str chain ∷ lit " " ∷ []) in
    let command = snprintf_option start "-d" rule.mask in
    let command = snprintf_option command "-p" rule.protocol in
    let command = snprintf_option command "--dport" rule.port in
    snprintf_after command (lit "-j " ∷ lit (mode_of rule.target) ∷ [])

-- `for (p = list; p != NULL; p = p->next) rc |= f(p);`
unfoldable pub each {ℓ} : {A : Type ℓ} → (A → Script) → List A → Script
each f [] = nothing
each f (x ∷ xs) = f x |= each f xs

-- `_iptables_append_ruleset`. The compiled rule is itself the format string of the command: a `%` in
-- it, which only the protocol word of a rule can bring, is outside the model.
unfoldable pub iptables_append_ruleset : Config → Text → Text → Text → Script
unfolding each
iptables_append_ruleset config table name chain =
    each (λ rule. iptables_do_command (str (iptables_compile table chain rule) ∷ []))
      (get_ruleset_list name config)

-- The commands on the chains for blocked and trusted MACs.
unfoldable pub mark_mac : String → Text → Text → ℕ → Script
mark_mac start mac markop mark = iptables_do_command (
    lit start
    ∷ lit " -m mac --mac-source "
    ∷ str mac
    ∷ lit " -j MARK "
    ∷ str markop
    ∷ lit " 0x"
    ∷ hex mark
    ∷ [])

unfoldable pub return_mac : String → Text → Script
return_mac start mac =
    iptables_do_command (lit start ∷ lit " -m mac --mac-source " ∷ str mac ∷ lit " -j RETURN" ∷ [])

unfoldable pub iptables_block_mac : Marks → Text → Script
unfolding mark_mac
iptables_block_mac m mac = mark_mac "-t mangle -A ndsBLK" mac m.markop m.blocked

unfoldable pub iptables_unblock_mac : Marks → Text → Script
unfolding mark_mac
iptables_unblock_mac m mac = mark_mac "-t mangle -D ndsBLK" mac m.markop m.blocked

unfoldable pub iptables_allow_mac : Text → Script
unfolding return_mac
iptables_allow_mac mac = return_mac "-t mangle -I ndsBLK" mac

unfoldable pub iptables_unallow_mac : Text → Script
unfolding return_mac
iptables_unallow_mac mac = return_mac "-t mangle -D ndsBLK" mac

unfoldable pub iptables_trust_mac : Marks → Text → Script
unfolding mark_mac
iptables_trust_mac m mac = mark_mac "-t mangle -A ndsTRU" mac m.markop m.trusted

unfoldable pub iptables_untrust_mac : Marks → Text → Script
unfolding mark_mac
iptables_untrust_mac m mac = mark_mac "-t mangle -D ndsTRU" mac m.markop m.trusted

-- The marks are told apart from one another and from unmarked packets.
pub record AreDistinct (m : Marks) : Type 0 where
  pub blocked_trusted : m.blocked ≢ m.trusted
  pub trusted_authenticated : m.trusted ≢ m.authenticated
  pub authenticated_blocked : m.authenticated ≢ m.blocked
  pub blocked_marks : m.blocked ≢ 0
  pub trusted_marks : m.trusted ≢ 0
  pub authenticated_marks : m.authenticated ≢ 0

-- The marks are accepted exactly if no two of the three are equal and none is 0.
pub init_marks-AreDistinct : (m : Marks) → ((iptables_init_marks m).1 ≡ 0) ↔ AreDistinct m
unfolding iptables_init_marks
init_marks-AreDistinct m = (
  λ e. record {
    blocked_trusted = λ q. ground arith;
    trusted_authenticated = λ q. ground arith;
    authenticated_blocked = λ q. ground arith;
    blocked_marks = λ q. ground arith;
    trusted_marks = λ q. ground arith;
    authenticated_marks = λ q. ground arith;
  },
  λ d. ground arith,
)
