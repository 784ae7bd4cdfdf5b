-- ===== src/Conf/Rules/Safe.antt =====
-- src/conf.c, `_parse_firewall_rule`: what the fields of a rule hold when it is taken up.
use wifi_cat.Base.{
  ◌≡◌, refl, Bool, true, false, not, Bool-cases, inl, inr, Option, none, some, [], ◌∷◌, ◌++◌, arith,
  map,
}
use wifi_cat.Base.Int.{ℤ, pos, negsuc, ltb_ℤ}
use wifi_cat.Base.Text.{Text, codes, to_lower, has_prefix, is_blank}
use wifi_cat.Conf.{FirewallTarget, FirewallRule, FirewallRuleset}
use wifi_cat.Conf.Words.{next_word, break_at}
use wifi_cat.Conf.Rules.{
  Checked, pass, fail, ◌>>=◌, target_of, all_bytes, is_port_byte, is_mask_byte, has_ports,
  starts_protocol, take_protocol, take_port, take_mask, mask_or_all, rest_of_rule, read_rule,
  parse_firewall_rule,
}

-- The port is of digits and colons, and stands only behind tcp or udp.
abbrev pub IsPort : Option Text → Option Text → Type 0
IsPort protocol none = Unit {0}
IsPort protocol (some port) = (has_ports protocol ≡ true) × (all_bytes is_port_byte port ≡ true)

-- There is a mask, of digits, dots and slashes.
abbrev pub IsMask : Option Text → Type 0
IsMask none = ⊥
IsMask (some mask) = all_bytes is_mask_byte mask ≡ true

-- The protocol starts with tcp, udp, icmp or all. What follows is not looked at.
abbrev pub IsProtocol : Option Text → Type 0
IsProtocol none = Unit {0}
IsProtocol (some protocol) = starts_protocol protocol ≡ true

-- What the parser has checked of a rule.
pub record IsRule (rule : FirewallRule) : Type 0 where
  pub protocol : IsProtocol rule.protocol
  pub port : IsPort rule.protocol rule.port
  pub mask : IsMask rule.mask

-- What a step of the parser gives, if it gives something.
abbrev Gives : {A : Type 0} → (A → Type 0) → Checked A → Type 0
Gives P (pass a) = P a
Gives P (fail e) = ltb_ℤ e (pos 0) ≡ true

Gives-bind :
    {A B : Type 0} (P : A → Type 0) (Q : B → Type 0) (c : Checked A) (f : A → Checked B)
    → Gives P c
    → ((a : A) → P a → Gives Q (f a))
    → Gives Q (c >>= f)
Gives-bind P Q (pass a) f h k = k a h
Gives-bind P Q (fail e) f h k = h

-- A word without a blank that a text starts with, the first word of the text starts with.
has_prefix-break_at :
    (s w : Text)
    → all_bytes (λ c. not (is_blank c)) w ≡ true
    → has_prefix s w ≡ true
    → has_prefix (break_at is_blank s).0 w ≡ true
unfolding has_prefix all_bytes break_at
has_prefix-break_at s [] plain h = refl
has_prefix-break_at [] (d ∷ w) plain h = cc
has_prefix-break_at (c ∷ s) (d ∷ w) plain h =
    let same : c ≡ d = ground arith in
    let rest = has_prefix-break_at s w (ground arith) (ground arith) in
    let word : is_blank c ≡ false = rw same (ground arith) in rw word (ground (arith, same, rest))

starts_protocol-next_word :
    (s : Text) → starts_protocol s ≡ true → starts_protocol (next_word s).0 ≡ true
unfolding starts_protocol next_word all_bytes codes is_blank
starts_protocol-next_word s h =
    let keep = λ (w : Text) (plain : all_bytes (λ c. not (is_blank c)) w ≡ true).
      has_prefix-break_at s w plain in
    let tcp = keep (codes "tcp") refl in
    let udp = keep (codes "udp") refl in
    let all = keep (codes "all") refl in
    let icmp = keep (codes "icmp") refl in ground (arith, tcp, udp, all, icmp, h)

take_protocol-IsProtocol : (s : Text) (finished : Bool) → IsProtocol (take_protocol s finished).0
unfolding take_protocol
take_protocol-IsProtocol s finished = elim (Bool-cases (starts_protocol s)) [
  | inl t ↦ rw t (starts_protocol-next_word s t)
  | inr f ↦ rw f tt
]

take_port-IsPort :
    (protocol : Option Text) (s : Text) (finished : Bool)
    → Gives (λ (r : Option Text × Text × Bool). IsPort protocol r.0) (take_port protocol s finished)
unfolding take_port
take_port-IsPort protocol s finished = ground arith

take_mask-IsMask :
    (s : Text) (finished : Bool)
    → Gives (λ mask. IsMask (some (mask_or_all mask))) (take_mask s finished)
unfolding take_mask mask_or_all all_bytes codes
take_mask-IsMask s finished = ground arith

rest_of_rule-IsRule :
    (target : FirewallTarget) (s : Text) (finished : Bool)
    → Gives IsRule (rest_of_rule target s finished)
unfolding rest_of_rule
rest_of_rule-IsRule target s finished =
    let (protocol, s1, finished1) = take_protocol s finished in
    Gives-bind _ IsRule (take_port protocol s1 finished1) _ (take_port-IsPort protocol s1 finished1)
      λ (port, s2, finished2) h.
        Gives-bind _ IsRule (take_mask s2 finished2) _ (take_mask-IsMask s2 finished2)
          λ mask k. record { protocol = take_protocol-IsProtocol s finished; port = h; mask = k }

read_rule-IsRule : (leftover : Text) → Gives IsRule (read_rule leftover)
unfolding read_rule
read_rule-IsRule leftover =
    let (token, s, finished) = next_word (map to_lower leftover) in
    from (target_of token) s finished
  where
    from :
        (o : Option FirewallTarget) (s : Text) (finished : Bool)
        → Gives IsRule
            (elim o [ none ↦ fail (negsuc 0) | some target ↦ rest_of_rule target s finished ])
    from none s finished = refl
    from (some target) s finished = rest_of_rule-IsRule target s finished

-- How a line of a ruleset ends: with a negative code and the ruleset as it was, or with one rule more.
pub data Appended (rs : FirewallRuleset) : FirewallRuleset × ℤ → Type 0 where
  refused : (e : ℤ) → ltb_ℤ e (pos 0) ≡ true → Appended rs (rs, e)
  appended :
      (rule : FirewallRule)
      → IsRule rule
      → Appended rs (record rs { rules = rs.rules ++ rule ∷ [] }, pos 1)

-- Whatever the line holds, either the code is negative and the ruleset stays as it was, or the code is 1
-- and one rule is added at its end: one whose protocol, if it has one, starts with tcp, udp, icmp or all,
-- whose port, if it has one, is of digits and colons and stands behind a protocol that starts with tcp or
-- udp, and whose mask is of digits, dots and slashes. What stands behind the start of the protocol can be anything.
pub parse_firewall_rule-Appended :
    (leftover : Text) (rs : FirewallRuleset) → Appended rs (parse_firewall_rule leftover rs)
unfolding parse_firewall_rule
parse_firewall_rule-Appended leftover rs = from (read_rule leftover) (read_rule-IsRule leftover)
  where
    from :
        (c : Checked FirewallRule)
        → Gives IsRule c
        → Appended rs (elim c [
          | fail e ↦ (rs, e)
          | pass rule ↦ (record rs { rules = rs.rules ++ rule ∷ [] }, pos 1)
        ])
    from (fail e) h = refused e h
    from (pass rule) h = appended rule h
