-- ===== src/Ndsctl/Macs.antt =====
-- src/ndsctl_thread.c, the six requests on the lists of MAC addresses: the list and the firewall rule.
use wifi_cat.Base.{
  List, [], ◌∷◌, ◌∙◌, zero, suc, ◌≡◌, ◌≢◌, refl, ap, inl, inr, ◌==◌, Run, ok, arith, Bool-cases,
}
use wifi_cat.Base.Int.{ℤ, pos, negsuc}
use wifi_cat.Base.Text.{Text, Piece, lit, str, hex, codes, format}
use wifi_cat.Shell.{Script, iptables_do_command}
use wifi_cat.Conf.{Config}
use wifi_cat.Conf.Mac.{MacList, trusted, blocked, allowed, add_to, remove_from}
use wifi_cat.Conf.Mac.Laws.{
  Added, add_refused, add_present, add_new, add_to-Added, Removed, remove_refused, remove_absent,
  remove_found, remove_from-Removed, add_to-remove_from,
}
use wifi_cat.Iptables.{
  Marks, mark_mac, return_mac, iptables_block_mac, iptables_unblock_mac, iptables_allow_mac,
  iptables_unallow_mac, iptables_trust_mac, iptables_untrust_mac,
}
use wifi_cat.Ndsctl.{
  Daemon, Answer, answer_yes, answer_no, change_and_rule, ndsctl_block, ndsctl_unblock,
  ndsctl_allow, ndsctl_unallow, ndsctl_trust, ndsctl_untrust,
}

-- The requests by name of the list, and the rule that each puts in or takes out.
unfoldable pub ndsctl_add : Marks → MacList → Text → Daemon → Run (Daemon × Answer)
ndsctl_add m trusted = ndsctl_trust m
ndsctl_add m blocked = ndsctl_block m
ndsctl_add m allowed = ndsctl_allow

unfoldable pub ndsctl_remove : Marks → MacList → Text → Daemon → Run (Daemon × Answer)
ndsctl_remove m trusted = ndsctl_untrust m
ndsctl_remove m blocked = ndsctl_unblock m
ndsctl_remove m allowed = ndsctl_unallow

unfoldable pub rule_in : Marks → MacList → Text → Script
rule_in m trusted = iptables_trust_mac m
rule_in m blocked = iptables_block_mac m
rule_in m allowed = iptables_allow_mac

pub rule_out : Marks → MacList → Text → Script
rule_out m trusted = iptables_untrust_mac m
rule_out m blocked = iptables_unblock_mac m
rule_out m allowed = iptables_unallow_mac

ndsctl_add-change :
    (m : Marks) (l : MacList) (arg : Text) (d : Daemon)
    → ndsctl_add m l arg d ≡ change_and_rule (add_to l) (rule_in m l) arg d
unfolding ndsctl_add rule_in ndsctl_block ndsctl_allow ndsctl_trust
ndsctl_add-change m trusted arg d = refl
ndsctl_add-change m blocked arg d = refl
ndsctl_add-change m allowed arg d = refl

ndsctl_remove-change :
    (m : Marks) (l : MacList) (arg : Text) (d : Daemon)
    → ndsctl_remove m l arg d ≡ change_and_rule (remove_from l) (rule_out m l) arg d
unfolding ndsctl_remove rule_out ndsctl_unblock ndsctl_unallow ndsctl_untrust
ndsctl_remove-change m trusted arg d = refl
ndsctl_remove-change m blocked arg d = refl
ndsctl_remove-change m allowed arg d = refl

-- How such a request ends: done, changed in the configuration only since the rule failed, or refused without a trace.
pub data Changed (change : Config → Run (Config × ℤ)) (rule : Script) (d : Daemon)
    : Run (Daemon × Answer) → Type 0 where
  changed :
      (config : Config)
      → change d.config ≡ ok (config, pos 0)
      → (rule d.state.shell).1 ≡ 0
      → Changed change rule d (
          ok (
            record { config = config; state = record d.state { shell = (rule d.state.shell).0 } },
            answer_yes,
          ))
  half_changed :
      (config : Config)
      → change d.config ≡ ok (config, pos 0)
      → (rule d.state.shell).1 ≢ 0
      → Changed change rule d (
          ok (
            record { config = config; state = record d.state { shell = (rule d.state.shell).0 } },
            answer_no,
          ))
  unchanged :
      (rc : ℤ)
      → change d.config ≡ ok (d.config, rc)
      → rc ≢ pos 0
      → Changed change rule d (ok (d, answer_no))

module _ (change : Text → Config → Run (Config × ℤ)) (rule : Text → Script) (arg : Text)
    (d : Daemon) where
  change-succeeds :
      (config : Config)
      → change arg d.config ≡ ok (config, pos 0)
      → Changed (change arg) (rule arg) d (change_and_rule change rule arg d)
  unfolding change_and_rule
  change-succeeds config e = elim (Bool-cases ((rule arg d.state.shell).1 == 0)) [
    | inl t ↦ rw (change_and_rule, e, t) (changed config e (ground arith))
    | inr f ↦ rw (change_and_rule, e, f) (half_changed config e (λ z. ground arith))
  ]

  change-fails :
      (rc : ℤ)
      → change arg d.config ≡ ok (d.config, rc)
      → rc ≢ pos 0
      → Changed (change arg) (rule arg) d (change_and_rule change rule arg d)
  unfolding change_and_rule
  change-fails (pos zero) e ne = absurd (ne refl)
  change-fails (pos (suc n)) e ne = rw (change_and_rule, e) (unchanged (pos (suc n)) e ne)
  change-fails (negsuc n) e ne = rw (change_and_rule, e) (unchanged (negsuc n) e ne)

add-Changed :
    (l : MacList) (rule : Text → Script) (arg : Text) (d : Daemon)
    → Changed (add_to l arg) (rule arg) d (change_and_rule (add_to l) rule arg d)
add-Changed l rule arg d = from (add_to-Added l arg d.config) refl
  where
    from :
        {r : Run (Config × ℤ)}
        → Added l arg d.config r
        → add_to l arg d.config ≡ r
        → Changed (add_to l arg) (rule arg) d (change_and_rule (add_to l) rule arg d)
    from (add_refused out) e = change-fails (add_to l) rule arg d (negsuc 0) e (λ z. cc)
    from (add_present mac usable scanned present) e =
        change-fails (add_to l) rule arg d (pos 1) e (λ z. cc)
    from (add_new mac usable scanned absent) e = change-succeeds (add_to l) rule arg d _ e

remove-Changed :
    (l : MacList) (rule : Text → Script) (arg : Text) (d : Daemon)
    → Changed (remove_from l arg) (rule arg) d (change_and_rule (remove_from l) rule arg d)
remove-Changed l rule arg d = from (remove_from-Removed l arg d.config) refl
  where
    from :
        {r : Run (Config × ℤ)}
        → Removed l arg d.config r
        → remove_from l arg d.config ≡ r
        → Changed (remove_from l arg) (rule arg) d (change_and_rule (remove_from l) rule arg d)
    from (remove_refused out) e = change-fails (remove_from l) rule arg d (negsuc 0) e (λ z. cc)
    from (remove_absent mac usable scanned absent) e =
        change-fails (remove_from l) rule arg d (negsuc 0) e (λ z. cc)
    from (remove_found mac usable scanned present) e =
        change-succeeds (remove_from l) rule arg d _ e

-- Each of the six requests ends without a fault. The answer is Yes where the list has changed and the rule has succeeded. It
-- is No where the list refuses the change, and then nothing is touched; and also where the rule fails, and then the list stays
-- changed.
pub ndsctl_mac-Changed :
    (m : Marks) (l : MacList) (arg : Text) (d : Daemon)
    → Changed (add_to l arg) (rule_in m l arg) d (ndsctl_add m l arg d)
      × Changed (remove_from l arg) (rule_out m l arg) d (ndsctl_remove m l arg d)
ndsctl_mac-Changed m l arg d = (
  rw (ndsctl_add-change m l arg d) (add-Changed l (rule_in m l) arg d),
  rw (ndsctl_remove-change m l arg d) (remove-Changed l (rule_out m l) arg d),
)

-- The arguments of iptables for the rule of a MAC address on a list, behind the flag that puts it in or
-- takes it out, written out.
pub mac_chain : MacList → Text
mac_chain trusted = codes "ndsTRU"
mac_chain other = codes "ndsBLK"

pub mac_target : Marks → MacList → List Piece
mac_target m trusted = lit "MARK " ∷ str m.markop ∷ lit " 0x" ∷ hex m.trusted ∷ []
mac_target m blocked = lit "MARK " ∷ str m.markop ∷ lit " 0x" ∷ hex m.blocked ∷ []
mac_target m allowed = lit "RETURN" ∷ []

pub mac_rule : Text → Marks → MacList → Text → List Piece
mac_rule flag m l mac =
    lit "-t mangle "
    ∷ str flag
    ∷ lit " "
    ∷ str (mac_chain l)
    ∷ lit " -m mac --mac-source "
    ∷ str mac
    ∷ lit " -j "
    ∷ mac_target m l

-- A rule goes to the end of its chain, and to the front where addresses are allowed.
pub flag_in : MacList → Text
flag_in allowed = codes "-I"
flag_in other = codes "-A"

rule_in-mac_rule :
    (m : Marks) (l : MacList) (arg : Text)
    → rule_in m l arg ≡ iptables_do_command (mac_rule (flag_in l) m l arg)
unfolding rule_in mac_rule flag_in mac_chain mac_target iptables_do_command format codes
    iptables_trust_mac iptables_block_mac iptables_allow_mac mark_mac return_mac
rule_in-mac_rule m trusted arg = refl
rule_in-mac_rule m blocked arg = refl
rule_in-mac_rule m allowed arg = refl

rule_out-mac_rule :
    (m : Marks) (l : MacList) (arg : Text)
    → rule_out m l arg ≡ iptables_do_command (mac_rule (codes "-D") m l arg)
unfolding rule_out mac_rule mac_chain mac_target iptables_do_command format codes
    iptables_untrust_mac iptables_unblock_mac iptables_unallow_mac mark_mac return_mac
rule_out-mac_rule m trusted arg = refl
rule_out-mac_rule m blocked arg = refl
rule_out-mac_rule m allowed arg = refl

-- What is left after a request that was answered Yes and its opposite.
pub record Undone (m : Marks) (l : MacList) (arg : Text) (d d' : Daemon) : Type 0 where
  pub result : Daemon
  pub answer : Answer
  pub returns : ndsctl_remove m l arg d' ≡ ok (result, answer)
  pub config : result.config ≡ d.config
  pub clients : result.state.clients ≡ d.state.clients
  pub shell :
      result.state.shell
      ≡ (iptables_do_command
          (mac_rule (codes "-D") m l arg)
          (iptables_do_command (mac_rule (flag_in l) m l arg) d.state.shell).0).0

module _ (m : Marks) (l : MacList) (arg : Text) (d d' : Daemon) where
  undo :
      (config : Config)
      → add_to l arg d.config ≡ ok (config, pos 0)
      → d' ≡ record {
        config = config;
        state = record d.state { shell = (rule_in m l arg d.state.shell).0 };
      }
      → Undone m l arg d d'
  undo config e same =
      from (rw (ndsctl_remove-change m l arg d') (remove-Changed l (rule_out m l) arg d')) refl
    where
      back : remove_from l arg d'.config ≡ ok (d.config, pos 0)
      back = rw same (add_to-remove_from l arg d.config config e)

      restored : (c : Config) → remove_from l arg d'.config ≡ ok (c, pos 0) → c ≡ d.config
      restored c removed = let b = back in cc

      failed : (rc : ℤ) → remove_from l arg d'.config ≡ ok (d'.config, rc) → rc ≡ pos 0
      failed rc removed = let b = back in cc

      both :
          (rule_out m l arg d'.state.shell).0
          ≡ (iptables_do_command
              (mac_rule (codes "-D") m l arg)
              (iptables_do_command (mac_rule (flag_in l) m l arg) d.state.shell).0).0
      both =
          ap (λ (x : Daemon). (rule_out m l arg x.state.shell).0) same
          ∙ ap (λ (script : Script). (script (rule_in m l arg d.state.shell).0).0)
              (rule_out-mac_rule m l arg)
          ∙ ap
              (λ (script : Script).
                (iptables_do_command (mac_rule (codes "-D") m l arg) (script d.state.shell).0).0)
              (rule_in-mac_rule m l arg)

      from :
          {r : Run (Daemon × Answer)}
          → Changed (remove_from l arg) (rule_out m l arg) d' r
          → ndsctl_remove m l arg d' ≡ r
          → Undone m l arg d d'
      from (changed c removed worked) returns = record {
        result = _;
        answer = answer_yes;
        returns = returns;
        config = restored c removed;
        clients = ap (λ (x : Daemon). x.state.clients) same;
        shell = both;
      }
      from (half_changed c removed refused) returns = record {
        result = _;
        answer = answer_no;
        returns = returns;
        config = restored c removed;
        clients = ap (λ (x : Daemon). x.state.clients) same;
        shell = both;
      }
      from (unchanged rc removed ne) returns = absurd (ne (failed rc removed))

  -- A request that adds an address and was answered Yes, and the one that then removes the same address,
  -- leave the configuration and the clients as they were, and run the command that puts the rule of the
  -- address in (`-A`, or `-I` on the list of the allowed) and then the one that takes the same rule out
  -- (`-D`), each as often as iptables_do_command tries it, and nothing else.
  pub ndsctl_add-ndsctl_remove : ndsctl_add m l arg d ≡ ok (d', answer_yes) → Undone m l arg d d'
  ndsctl_add-ndsctl_remove e = from (ndsctl_mac-Changed m l arg d).0 e
    where
      from :
          {r : Run (Daemon × Answer)}
          → Changed (add_to l arg) (rule_in m l arg) d r
          → r ≡ ok (d', answer_yes)
          → Undone m l arg d d'
      from (changed config added worked) e = undo config added cc
      from (half_changed config added failed) e = cc
      from (unchanged rc added ne) e = cc
