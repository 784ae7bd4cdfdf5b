-- ===== src/Conf/Rules/RoundTrip.antt =====
-- src/conf.c, `_parse_firewall_rule`, against a printer of rules.
use wifi_cat.Base.{
  ◌≡◌, ◌≢◌, refl, ◌⊎◌, inl, inr, true, false, Option, none, some, List, [], ◌∷◌, ◌++◌, arith, All,
  map,
}
use wifi_cat.Base.Int.{pos}
use wifi_cat.Base.Text.{
  Text, codes, has_prefix, is_blank, to_lower, text_eq, text_eq_iff, text_case_eq,
}
use wifi_cat.Conf.{
  FirewallTarget, target_drop, target_reject, target_accept, target_log, target_ulog, FirewallRule,
  FirewallRuleset,
}
use wifi_cat.Conf.Words.{next_word}
use wifi_cat.Conf.Rules.Plain.{
  is_plain, IsWord, join, next_word-last, next_word-more, lower_join, IsWord-all_bytes,
  port_byte_plain, mask_byte_plain, IsNonempty,
}
use wifi_cat.Conf.Rules.{
  pass, target_of, all_bytes, is_port_byte, is_mask_byte, has_ports, starts_protocol, take_protocol,
  take_port, take_mask, mask_or_all, rest_of_rule, read_rule, parse_firewall_rule,
}

target_word : FirewallTarget → Text
target_word target_reject = codes "block"
target_word target_drop = codes "drop"
target_word target_accept = codes "allow"
target_word target_log = codes "log"
target_word target_ulog = codes "ulog"

port_words : Option Text → List Text → List Text
port_words none ws = ws
port_words (some port) ws = codes "port" ∷ port ∷ ws

protocol_words : Option Text → List Text → List Text
protocol_words none ws = ws
protocol_words (some protocol) ws = protocol ∷ ws

-- A rule of the configuration file, such as `allow tcp port 80 to 10.0.0.0/8`.
pub print_rule : FirewallTarget → Option Text → Option Text → Text → Text
unfolding join target_word port_words protocol_words
print_rule target protocol port mask =
    join (target_word target ∷ protocol_words protocol (port_words port (codes "to" ∷ mask ∷ [])))

abbrev pub IsProtocol : Option Text → Type 0
IsProtocol none = Unit {0}
IsProtocol (some protocol) =
    (protocol ≡ codes "tcp")
    ⊎ ((protocol ≡ codes "udp") ⊎ ((protocol ≡ codes "all") ⊎ (protocol ≡ codes "icmp")))

abbrev pub IsPortWord : Option Text → Option Text → Type 0
IsPortWord protocol none = Unit {0}
IsPortWord protocol (some port) =
    ((protocol ≡ some (codes "tcp")) ⊎ (protocol ≡ some (codes "udp")))
    × ((all_bytes is_port_byte port ≡ true) × IsNonempty port)

-- What the syntax of a rule allows.
pub record IsPrintable (protocol port : Option Text) (mask : Text) : Type 0 where
  pub protocol_ok : IsProtocol protocol
  pub port_ok : IsPortWord protocol port
  pub mask_bytes : all_bytes is_mask_byte mask ≡ true
  pub mask_nonempty : IsNonempty mask

to_IsWord : IsWord (codes "to")
unfolding codes all_bytes is_plain to_lower is_blank
to_IsWord = refl

port_IsWord : IsWord (codes "port")
unfolding codes all_bytes is_plain to_lower is_blank
port_IsWord = refl

target_IsWord : (target : FirewallTarget) → IsWord (target_word target)
unfolding target_word codes all_bytes is_plain to_lower is_blank
target_IsWord target_reject = refl
target_IsWord target_drop = refl
target_IsWord target_accept = refl
target_IsWord target_log = refl
target_IsWord target_ulog = refl

target_of-target_word : (target : FirewallTarget) → target_of (target_word target) ≡ some target
unfolding target_of target_word codes text_case_eq text_eq to_lower
target_of-target_word target_reject = refl
target_of-target_word target_drop = refl
target_of-target_word target_accept = refl
target_of-target_word target_log = refl
target_of-target_word target_ulog = refl

protocol_IsWord : (protocol : Text) → IsProtocol (some protocol) → IsWord protocol
unfolding codes all_bytes is_plain to_lower is_blank
protocol_IsWord protocol (inl e) = rw e refl
protocol_IsWord protocol (inr (inl e)) = rw e refl
protocol_IsWord protocol (inr (inr (inl e))) = rw e refl
protocol_IsWord protocol (inr (inr (inr e))) = rw e refl

-- The steps of the parser on such words.
take_mask-to :
    (mask : Text)
    → IsWord mask
    → all_bytes is_mask_byte mask ≡ true
    → take_mask (join (codes "to" ∷ mask ∷ [])) false ≡ pass (some mask)
unfolding take_mask
take_mask-to mask w h =
    let kept : text_eq (codes "to") (codes "to") ≡ true =
      (text_eq_iff (codes "to") (codes "to")).1 refl in
    rw (next_word-more (codes "to") mask [] to_IsWord w, next_word-last mask w, kept, h)

take_port-none :
    (protocol : Option Text) (mask : Text)
    → take_port protocol (join (codes "to" ∷ mask ∷ [])) false
      ≡ pass (none, join (codes "to" ∷ mask ∷ []), false)
unfolding take_port join codes has_prefix
take_port-none protocol mask = refl

take_port-some :
    (protocol : Option Text) (port mask : Text)
    → has_ports protocol ≡ true
    → IsWord port
    → all_bytes is_port_byte port ≡ true
    → take_port protocol (join (codes "port" ∷ port ∷ codes "to" ∷ mask ∷ [])) false
      ≡ pass (some port, join (codes "to" ∷ mask ∷ []), false)
unfolding take_port
take_port-some protocol port mask ports w h =
    let starts : has_prefix (join (codes "port" ∷ port ∷ codes "to" ∷ mask ∷ [])) (codes "port")
        ≡ true =
      unfold join codes has_prefix in refl in
    rw (
      next_word-more (codes "port") port (codes "to" ∷ mask ∷ []) port_IsWord w,
      next_word-more port (codes "to") (mask ∷ []) w to_IsWord,
      starts,
      ports,
      h,
    )

take_protocol-some :
    (protocol v : Text) (ws : List Text)
    → IsProtocol (some protocol)
    → IsWord v
    → take_protocol (join (protocol ∷ v ∷ ws)) false ≡ (some protocol, join (v ∷ ws), false)
unfolding take_protocol
take_protocol-some protocol v ws p w =
    rw (next_word-more protocol v ws (protocol_IsWord protocol p) w, starts p)
  where
    starts : IsProtocol (some protocol) → starts_protocol (join (protocol ∷ v ∷ ws)) ≡ true
    starts (inl e) = rw e (unfold starts_protocol join codes has_prefix in refl)
    starts (inr (inl e)) = rw e (unfold starts_protocol join codes has_prefix in refl)
    starts (inr (inr (inl e))) = rw e (unfold starts_protocol join codes has_prefix in refl)
    starts (inr (inr (inr e))) = rw e (unfold starts_protocol join codes has_prefix in refl)

take_protocol-none :
    (mask : Text)
    → take_protocol (join (codes "to" ∷ mask ∷ [])) false
      ≡ (none, join (codes "to" ∷ mask ∷ []), false)
unfolding take_protocol starts_protocol join codes has_prefix
take_protocol-none mask = refl

rest_of_rule-steps :
    (target : FirewallTarget) (s s1 s2 : Text) (protocol port : Option Text) (mask : Text)
    → take_protocol s false ≡ (protocol, s1, false)
    → take_port protocol s1 false ≡ pass (port, s2, false)
    → take_mask s2 false ≡ pass (some mask)
    → rest_of_rule target s false
      ≡ pass (record { target = target; protocol = protocol; port = port; mask = some mask })
unfolding rest_of_rule mask_or_all
rest_of_rule-steps target s s1 s2 protocol port mask e1 e2 e3 = rw (e1, e2, e3)

module _ (target : FirewallTarget) (mask : Text) (w : IsWord mask)
    (bytes : all_bytes is_mask_byte mask ≡ true) where
  rest_of_rule-words :
      (protocol port : Option Text)
      → IsProtocol protocol
      → IsPortWord protocol port
      → rest_of_rule target
          (join (protocol_words protocol (port_words port (codes "to" ∷ mask ∷ []))))
          false
        ≡ pass (record { target = target; protocol = protocol; port = port; mask = some mask })
  unfolding protocol_words port_words
  rest_of_rule-words none none p q =
      rest_of_rule-steps target _ _ _ none none mask (take_protocol-none mask)
        (take_port-none none mask) (take_mask-to mask w bytes)
  rest_of_rule-words none (some port) p (inl e, q) = absurd (cc)
  rest_of_rule-words none (some port) p (inr e, q) = absurd (cc)
  rest_of_rule-words (some protocol) none p q =
      rest_of_rule-steps target _ _ _ (some protocol) none mask
        (take_protocol-some protocol (codes "to") (mask ∷ []) p to_IsWord)
        (take_port-none (some protocol) mask) (take_mask-to mask w bytes)
  rest_of_rule-words (some protocol) (some port) p (ports, q) =
      let port_w = IsWord-all_bytes is_port_byte port port_byte_plain q.0 q.1 in
      rest_of_rule-steps target _ _ _ (some protocol) (some port) mask
        (take_protocol-some protocol (codes "port") (port ∷ codes "to" ∷ mask ∷ []) p port_IsWord)
        (take_port-some (some protocol) port mask (with_ports ports) port_w q.0)
        (take_mask-to mask w bytes)
    where
      with_ports :
          (some protocol ≡ some (codes "tcp")) ⊎ (some protocol ≡ some (codes "udp"))
          → has_ports (some protocol) ≡ true
      with_ports (inl e) = rw e (unfold has_ports codes has_prefix in refl)
      with_ports (inr e) = rw e (unfold has_ports codes has_prefix in refl)

All-words :
    (protocol port : Option Text) (mask : Text)
    → IsPrintable protocol port mask
    → IsWord mask
    → All IsWord (protocol_words protocol (port_words port (codes "to" ∷ mask ∷ [])))
unfolding protocol_words port_words
All-words none none mask h w = (to_IsWord, (w, tt))
All-words none (some port) mask h w = (
  port_IsWord,
  (
    IsWord-all_bytes is_port_byte port port_byte_plain h.port_ok.1.0 h.port_ok.1.1,
    (to_IsWord, (w, tt)),
  ),
)
All-words (some protocol) none mask h w =
    (protocol_IsWord protocol h.protocol_ok, (to_IsWord, (w, tt)))
All-words (some protocol) (some port) mask h w = (
  protocol_IsWord protocol h.protocol_ok,
  (
    port_IsWord,
    (
      IsWord-all_bytes is_port_byte port port_byte_plain h.port_ok.1.0 h.port_ok.1.1,
      (to_IsWord, (w, tt)),
    ),
  ),
)

first_word :
    (target : FirewallTarget) (ws : List Text)
    → All IsWord ws
    → ws ≢ []
    → next_word (join (target_word target ∷ ws)) ≡ (target_word target, join ws, false)
first_word target [] h ne = absurd (ne refl)
first_word target (v ∷ ws) h ne =
    next_word-more (target_word target) v ws (target_IsWord target) h.0

words_ne :
    (protocol port : Option Text) (mask : Text)
    → protocol_words protocol (port_words port (codes "to" ∷ mask ∷ [])) ≢ []
unfolding protocol_words port_words
words_ne none none mask e = cc
words_ne none (some port) mask e = cc
words_ne (some protocol) port mask e = cc

read_rule-steps :
    (leftover lower token s : Text) (target : FirewallTarget) (rule : FirewallRule)
    → map to_lower leftover ≡ lower
    → next_word lower ≡ (token, s, false)
    → target_of token ≡ some target
    → rest_of_rule target s false ≡ pass rule
    → read_rule leftover ≡ pass rule
unfolding read_rule
read_rule-steps leftover lower token s target rule e1 e2 e3 e4 = ground (arith, e1, e2, e3, e4)

parse_firewall_rule-pass :
    (leftover : Text) (rs : FirewallRuleset) (rule : FirewallRule)
    → read_rule leftover ≡ pass rule
    → parse_firewall_rule leftover rs ≡ (record rs { rules = rs.rules ++ rule ∷ [] }, pos 1)
unfolding parse_firewall_rule
parse_firewall_rule-pass leftover rs rule e = rw (e, parse_firewall_rule)

-- A rule with a mask, and with a port only behind tcp or udp, is read back from its text as it was,
-- and goes to the end of the ruleset.
pub parse_firewall_rule-print_rule :
    (target : FirewallTarget) (protocol port : Option Text) (mask : Text) (rs : FirewallRuleset)
    → IsPrintable protocol port mask
    → parse_firewall_rule (print_rule target protocol port mask) rs ≡ (
      record rs {
        rules =
            rs.rules
            ++ record { target = target; protocol = protocol; port = port; mask = some mask } ∷ [];
      },
      pos 1,
    )
unfolding print_rule
parse_firewall_rule-print_rule target protocol port mask rs h =
    let w = IsWord-all_bytes is_mask_byte mask mask_byte_plain h.mask_bytes h.mask_nonempty in
    let ws : List Text = protocol_words protocol (port_words port (codes "to" ∷ mask ∷ [])) in
    let all = All-words protocol port mask h w in
    parse_firewall_rule-pass _ rs _ (
      read_rule-steps _ _ _ _ target _
        (lower_join (target_word target ∷ ws) (target_IsWord target, all))
        (first_word target ws all (words_ne protocol port mask)) (target_of-target_word target)
        (rest_of_rule-words target mask w h.mask_bytes protocol port h.protocol_ok h.port_ok))
