-- ===== src/Conf/Rules.antt =====
-- src/conf.c, `_parse_firewall_rule`: one rule of a ruleset, from its words.
pub mod Safe
pub mod Plain
pub mod RoundTrip
use wifi_cat.Base.{
  ℕ, Bool, true, false, not, ◌&&◌, ◌||◌, Option, none, some, List, [], ◌∷◌, ◌++◌, ◌==◌, map,
  if◌then◌else◌,
}
use wifi_cat.Base.Int.{ℤ, pos, negsuc}
use wifi_cat.Base.Text.{Text, codes, has_prefix, is_digit, text_eq, text_case_eq, to_lower}
use wifi_cat.Conf.{
  FirewallTarget, target_drop, target_reject, target_accept, target_log, target_ulog, FirewallRule,
  FirewallRuleset,
}
use wifi_cat.Conf.Words.{next_word}

-- The value of a step of the parser, or the code with which the function returns.
pub data Checked (A : Type 0) : Type 0 where
  pass : A → Checked A
  fail : ℤ → Checked A

infixl 5 ◌>>=◌
abbrev pub ◌>>=◌ : {A B : Type 0} → Checked A → (A → Checked B) → Checked B
pass a >>= f = f a
fail e >>= f = fail e

pub target_of : Text → Option FirewallTarget
target_of token =
    if text_case_eq token (codes "block")
    then some target_reject
    else if text_case_eq token (codes "drop")
    then some target_drop
    else if text_case_eq token (codes "allow")
    then some target_accept
    else if text_case_eq token (codes "log")
    then some target_log
    else if text_case_eq token (codes "ulog")
    then some target_ulog
    else none

pub starts_protocol : Text → Bool
starts_protocol s =
    has_prefix s (codes "tcp")
    || has_prefix s (codes "udp")
    || has_prefix s (codes "all")
    || has_prefix s (codes "icmp")

pub has_ports : Option Text → Bool
has_ports none = false
has_ports (some protocol) = has_prefix protocol (codes "tcp") || has_prefix protocol (codes "udp")

unfoldable pub all_bytes : (ℕ → Bool) → Text → Bool
all_bytes test [] = true
all_bytes test (c ∷ s) = test c && all_bytes test s

abbrev pub is_port_byte : ℕ → Bool
is_port_byte c = is_digit c || (c == b':')

abbrev pub is_mask_byte : ℕ → Bool
is_mask_byte c = is_digit c || (c == b'.') || (c == b'/')

-- The optional protocol, from `leftover` and `finished`.
pub take_protocol : Text → Bool → Option Text × Text × Bool
take_protocol s finished =
    let (word, rest, end) = next_word s in
    if starts_protocol s then (some word, rest, finished || end) else (none, s, finished)

-- The optional port or port range.
pub take_port : Option Text → Text → Bool → Checked (Option Text × Text × Bool)
take_port protocol s finished =
    let (keyword, s1, end1) = next_word s in
    let (port, s2, end2) = next_word s1 in
    if has_prefix s (codes "port")
    then (if not (has_ports protocol)
        then fail (negsuc 2)
        else if all_bytes is_port_byte port
        then pass (some port, s2, finished || end1 || end2)
        else fail (negsuc 2))
    else pass (none, s, finished)

-- The optional address with its mask, behind the word `to`.
pub take_mask : Text → Bool → Checked (Option Text)
take_mask s finished =
    let (keyword, s1, end1) = next_word s in
    let (mask, s2, end2) = next_word s1 in
    if finished
    then pass none
    else if not (text_eq keyword (codes "to")) || end1
    then fail (negsuc 3)
    else if all_bytes is_mask_byte mask
    then pass (some mask)
    else fail (negsuc 4)

pub mask_or_all : Option Text → Text
mask_or_all none = codes "0.0.0.0/0"
mask_or_all (some mask) = mask

-- Behind the token.
pub rest_of_rule : FirewallTarget → Text → Bool → Checked FirewallRule
rest_of_rule target s finished = do
  let (protocol, s1, finished1) = take_protocol s finished
  (port, s2, finished2) ← take_port protocol s1 finished1
  mask ← take_mask s2 finished2
  pass
      (record { target = target; protocol = protocol; port = port; mask = some (mask_or_all mask) })

-- The rule that a text stands for.
pub read_rule : Text → Checked FirewallRule
read_rule leftover =
    let (token, s, finished) = next_word (map to_lower leftover) in
    elim (target_of token) [ none ↦ fail (negsuc 0) | some target ↦ rest_of_rule target s finished ]

-- `_parse_firewall_rule`: a rule goes to the end of the ruleset.
unfoldable pub parse_firewall_rule : Text → FirewallRuleset → FirewallRuleset × ℤ
parse_firewall_rule leftover rs = elim (read_rule leftover) [
  | fail e ↦ (rs, e)
  | pass rule ↦ (record rs { rules = rs.rules ++ rule ∷ [] }, pos 1)
]
