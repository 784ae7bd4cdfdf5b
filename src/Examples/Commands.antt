-- ===== src/Examples/Commands.antt =====
-- The theorems on the commands and the counters, at the example.
use Prim.Native.Nat.{max}
use wifi_cat.Base.{
  ℕ, ◌^◌, ◌*◌, ◌≤◌, length, replicate, length-append, length-replicate, ap, ◌∙◌, ◌/◌, ◌<◌, ◌≡◌, ◌↔◌,
  refl, Option, none, some, List, [], ◌∷◌, ◌++◌, arith, ltb, if◌then◌else◌,
}
use wifi_cat.Base.Int.{pos, mul_int}
use wifi_cat.Base.Text.{Text, codes, format, Piece, lit, str, has_prefix}
use wifi_cat.Shell.{Shell, Tried, iptables_do_command, iptables_do_command-Tried}
use wifi_cat.Tc.{burst_of, burst_bounds}
use wifi_cat.Iptables.{iptables_init_marks, AreDistinct, init_marks-AreDistinct}
use wifi_cat.Iptables.Counters.{outgoing_of}
use wifi_cat.Iptables.Counters.Laws.{sent, received, outgoing_of_lem}
use wifi_cat.Conf.{Config}
use wifi_cat.Conf.Mac.{is_int}
use wifi_cat.Conf.Rulesets.{
  get_ruleset_list, is_empty_ruleset, get_empty_ruleset_policy, get_ruleset, find_ruleset, is_nil,
}
use wifi_cat.Shell.{◌|=◌, tries, execute}
use wifi_cat.Shell.Trace.{after}
use wifi_cat.Iptables.{Marks, iptables_check_mark_masking, iptables_append_ruleset, each}
use wifi_cat.Iptables.Access.{make_authenticated, make_deauthenticated, iptables_fw_access}
use wifi_cat.Iptables.Access.Trace.{client_rules, iptables_fw_access-client_rules}
use wifi_cat.Iptables.Setup.{
  gateway_of, marks_of, jump, on_mark, mac_rules, mangle_rules, nat_rules, ruleset_chain,
  marked_users, input_rules, mss_rules, forward_rules, filter_rules, iptables_fw_init,
}
use wifi_cat.Iptables.Setup.Success.{IsKnown, iptables_fw_init_success}
use wifi_cat.Iptables.Teardown.{
  listing, delete_rule, mentions, scan_digits, find_mention, iptables_fw_destroy_mention,
}
use wifi_cat.Iptables.Teardown.Ends.{
  EndsCleared, destroy_mention-EndsCleared, destroy_mention_refused, Deletes, delete_rule-output,
  count_listed, count_mentions,
}
use wifi_cat.Examples.{small_config, some_marks, a_node, willing}

retry_example :
    Tried 5
      (codes "iptables " ++ format (lit "-L" ∷ []))
      willing
      (iptables_do_command (lit "-L" ∷ []) willing)
retry_example = iptables_do_command-Tried (lit "-L" ∷ []) willing

burst_example :
    (burst_of (pos 1024) ≡ pos (max 1540 (1024 * 1000 / 800)))
    × (mul_int (burst_of (pos 1024)) (pos 10) ≡ pos (max 1540 (1024 * 1000 / 800) * 10))
burst_example = burst_bounds 1024 (omega arith)

marks_example : ((iptables_init_marks some_marks).1 ≡ 0) ↔ AreDistinct some_marks
marks_example = init_marks-AreDistinct some_marks

outgoing_example :
    (sent (outgoing_of 2000 500 a_node.client.counters) ≡ max (sent a_node.client.counters) 500)
    × ((outgoing_of 2000 500 a_node.client.counters).last_updated ≡ (
        if ltb (sent a_node.client.counters) 500
        then 2000
        else a_node.client.counters.last_updated))
    × (received (outgoing_of 2000 500 a_node.client.counters) ≡ received a_node.client.counters)
outgoing_example = outgoing_of_lem 2000 500 a_node.client.counters (omega arith) (omega arith)

-- A chain with one rule that mentions ndsOUT, until a first command has been run.
abbrev obeying : List Text → Text → Option (List Text)
obeying [] cmd = some (codes "Chain" ∷ codes "num" ∷ codes "1 ndsOUT" ∷ [])
obeying (c ∷ log) cmd = some (codes "Chain" ∷ codes "num" ∷ [])

abbrev chain_before : Shell
chain_before = record willing { output = obeying }

obeying-later :
    (log : List Text) (cmd : Text)
    → 1 ≤ length log
    → obeying log cmd ≡ some (codes "Chain" ∷ codes "num" ∷ [])
obeying-later [] cmd h = absurd (omega arith)
obeying-later (c ∷ log) cmd h = refl

later-listing :
    (w : Shell)
    → w.output ≡ obeying
    → 1 ≤ length w.log
    → listing (codes "nat") (codes "PREROUTING") w ≡ some []
unfolding listing
later-listing w e h = rw (e, obeying-later w.log _ h) refl

delete_rule-logs :
    (rulenum : Text) (w : Shell)
    → 1 ≤ length (delete_rule (codes "nat") (codes "PREROUTING") rulenum w).0.log
unfolding delete_rule
delete_rule-logs rulenum w =
    let args : List Piece =
      lit "-t "
      ∷ str (codes "nat")
      ∷ lit " -D "
      ∷ str (codes "PREROUTING")
      ∷ lit " "
      ∷ str rulenum
      ∷ [] in
    let t = iptables_do_command-Tried args w in
    let cmd : Text = codes "iptables " ++ format args in
    omega (
      arith,
      ap (λ (v : Shell). length v.log) t.only_logs,
      length-append (replicate t.times cmd) w.log,
      length-replicate t.times cmd,
      t.least,
    )

first-listing :
    (w : Shell)
    → w.output ≡ obeying
    → w.log ≡ []
    → listing (codes "nat") (codes "PREROUTING") w ≡ some (codes "1 ndsOUT" ∷ [])
unfolding listing
first-listing w e empty = rw (e, empty) refl

one_mention : count_mentions (codes "ndsOUT") (codes "1 ndsOUT" ∷ []) ≡ 1
unfolding mentions has_prefix codes
one_mention = refl

obeying-Deletes : Deletes (codes "nat") (codes "PREROUTING") (codes "ndsOUT") obeying
unfolding find_mention
obeying-Deletes w lines rulenum e listed found = from w.log refl
  where
    after :
        listing
          (codes "nat")
          (codes "PREROUTING")
          (delete_rule (codes "nat") (codes "PREROUTING") rulenum w).0
        ≡ some []
    after =
        later-listing _ (delete_rule-output (codes "nat") (codes "PREROUTING") rulenum w ∙ e)
          (delete_rule-logs rulenum w)

    from :
        (log : List Text)
        → w.log ≡ log
        → count_listed (codes "ndsOUT") (
            listing
              (codes "nat")
              (codes "PREROUTING")
              (delete_rule (codes "nat") (codes "PREROUTING") rulenum w).0)
          < count_mentions (codes "ndsOUT") lines
    from [] empty =
        let listed' = first-listing w e empty in
        let same : lines ≡ codes "1 ndsOUT" ∷ [] = cc in rw (after, same, one_mention) (omega arith)
    from (c ∷ log) later =
        let listed' = later-listing w e (rw later (omega arith)) in
        let same : lines ≡ [] = cc in absurd (cc (ap (find_mention (codes "ndsOUT")) same))

cleared_example :
    EndsCleared (codes "nat") (codes "PREROUTING") (codes "ndsOUT") (
      iptables_fw_destroy_mention 2
        (codes "nat")
        (codes "PREROUTING")
        (codes "ndsOUT")
        chain_before)
cleared_example =
    destroy_mention-EndsCleared 2 (codes "nat") (codes "PREROUTING") (codes "ndsOUT") chain_before
      obeying-Deletes (rw (first-listing chain_before refl refl, one_mention) (omega arith))

-- The same chain, where no deletion has an effect.
abbrev chain_stuck : Shell
chain_stuck = record willing {
  reply = λ log cmd. 1;
  output = λ log cmd. some (codes "Chain" ∷ codes "num" ∷ codes "1 ndsOUT" ∷ []);
}

found_one : find_mention (codes "ndsOUT") (codes "1 ndsOUT" ∷ []) ≡ some (codes "1")
unfolding find_mention mentions scan_digits has_prefix codes
found_one = refl

stuck_example :
    iptables_fw_destroy_mention 1000 (codes "nat") (codes "PREROUTING") (codes "ndsOUT") chain_stuck
    ≡ none
stuck_example =
    destroy_mention_refused 1000 (codes "nat") (codes "PREROUTING") (codes "ndsOUT") (codes "1")
      chain_stuck (codes "1 ndsOUT" ∷ []) (λ log cmd. refl) found_one

abbrev ready_config : Config
ready_config = record small_config {
  gw_interface = some (codes "br0");
  gw_address = some (codes "10.0.0.1");
  gw_iprange = some (codes "10.0.0.0/24");
  fw_mark_authenticated = 3 * 2 ^ 16;
  fw_mark_blocked = 2 ^ 16;
  fw_mark_trusted = 2 * 2 ^ 16;
}

abbrev set_up : Option (Marks × Shell × ℕ)
set_up = iptables_fw_init ready_config some_marks willing

abbrev marks_set_up : Marks
marks_set_up = elim set_up [ none ↦ some_marks | some (m, w, r) ↦ m ]

abbrev shell_set_up : Shell
shell_set_up = elim set_up [ none ↦ willing | some (m, w, r) ↦ w ]

set_up_succeeds : set_up ≡ some (marks_set_up, shell_set_up, 0)
unfolding gateway_of marks_of jump on_mark mac_rules mangle_rules nat_rules ruleset_chain
    marked_users input_rules mss_rules forward_rules filter_rules iptables_fw_init
    iptables_init_marks iptables_check_mark_masking iptables_append_ruleset each get_ruleset_list
    is_empty_ruleset get_empty_ruleset_policy get_ruleset find_ruleset is_nil ◌|=◌
    iptables_do_command tries execute is_int
set_up_succeeds = refl

set_up_example : AreDistinct (marks_of ready_config some_marks) × IsKnown ready_config
set_up_example =
    iptables_fw_init_success ready_config some_marks marks_set_up willing shell_set_up
      set_up_succeeds

access_example :
    ((iptables_fw_access small_config some_marks make_authenticated a_node.client willing).0
      ≡ after (client_rules (codes "-A") some_marks a_node.client) willing)
    × ((iptables_fw_access small_config some_marks make_deauthenticated a_node.client willing).0
        ≡ after (client_rules (codes "-D") some_marks a_node.client) willing)
access_example =
    iptables_fw_access-client_rules some_marks a_node.client small_config willing refl
      (λ log cmd e. cc)
