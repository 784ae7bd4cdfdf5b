-- ===== src/Iptables/Teardown/Ends.antt =====
-- Whether `iptables_fw_destroy_mention` comes to an end.
use mathlib.Core.Option
use wifi_cat.Base.{
  drop, length, filterb, ◌<◌, ℕ, zero, suc, ◌≡◌, refl, Option, none, some, List, arith,
}
use wifi_cat.Base.Text.{Text}
use wifi_cat.Shell.{Shell, iptables_do_command}
use wifi_cat.Base.{Option-cases, inl, inr, ap}
use wifi_cat.Shell.{tries-Tried}
use wifi_cat.Iptables.Teardown.{
  mentions, find_mention, listing, delete_rule, iptables_fw_destroy_mention,
}

-- How many of the listed rules mention the chain.
abbrev pub count_mentions : Text → List Text → ℕ
count_mentions mention lines = length (filterb (mentions mention) lines)

abbrev pub count_listed : Text → Option (List Text) → ℕ
count_listed mention none = 0
count_listed mention (some lines) = count_mentions mention lines

-- What iptables documents of `-D`: it takes the rule out of the chain, so that the next listing has fewer
-- rules that mention the target.
abbrev pub Deletes : Text → Text → Text → (List Text → Text → Option (List Text)) → Type 0
Deletes table chain mention output =
    (w : Shell) (lines : List Text) (rulenum : Text)
    → w.output ≡ output
    → listing table chain w ≡ some lines
    → find_mention mention lines ≡ some rulenum
    → count_listed mention (listing table chain (delete_rule table chain rulenum w).0)
      < count_mentions mention lines

pub delete_rule-output :
    (table chain rulenum : Text) (w : Shell)
    → (delete_rule table chain rulenum w).0.output ≡ w.output
unfolding delete_rule iptables_do_command
delete_rule-output table chain rulenum w =
    ap (λ (v : Shell). v.output) (tries-Tried 4 _ 0 w).only_logs

-- Nothing is left to delete: the chain cannot be listed, or no rule of it with a number mentions the
-- target.
abbrev pub Cleared : Text → Option (List Text) → Type 0
Cleared mention none = Unit {0}
Cleared mention (some lines) = find_mention mention lines ≡ none

abbrev pub EndsCleared : Text → Text → Text → Option (Shell × ℕ) → Type 0
EndsCleared table chain mention none = ⊥
EndsCleared table chain mention (some (w, r)) = Cleared mention (listing table chain w)

EndsCleared-found :
    (table chain mention : Text) (o : Option (Shell × ℕ))
    → EndsCleared table chain mention o
    → EndsCleared table chain mention (elim o [ none ↦ none | some (w', r) ↦ some (w', 0) ])
EndsCleared-found table chain mention none h = h
EndsCleared-found table chain mention (some (w', r)) h = h

-- Where each deletion takes a rule out of the listing, as many rounds as there are rules that mention the
-- target, and one more, clear the chain of them.
pub destroy_mention-EndsCleared :
    (fuel : ℕ) (table chain mention : Text) (w : Shell)
    → Deletes table chain mention w.output
    → count_listed mention (listing table chain w) < fuel
    → EndsCleared table chain mention (iptables_fw_destroy_mention fuel table chain mention w)
unfolding iptables_fw_destroy_mention
destroy_mention-EndsCleared zero table chain mention w works enough = absurd (omega arith)
destroy_mention-EndsCleared (suc fuel) table chain mention w works enough =
    elim (Option-cases (listing table chain w)) [
      | inl e ↦ rw (e, iptables_fw_destroy_mention) (rw e tt)
      | inr (lines, e) ↦ elim (Option-cases (find_mention mention lines)) [
        | inl f ↦ rw (e, f, iptables_fw_destroy_mention) (rw e f)
        | inr (rulenum, f) ↦
            rw (e, f, iptables_fw_destroy_mention)
              (EndsCleared-found table chain mention
                (iptables_fw_destroy_mention fuel table chain mention
                  (delete_rule table chain rulenum w).0)
                (destroy_mention-EndsCleared fuel table chain mention
                  (delete_rule table chain rulenum w).0
                  (rw (delete_rule-output table chain rulenum w) works)
                  (omega (arith, works w lines rulenum refl e f, ap (count_listed mention) e))))
      ]
    ]

-- Where the deletion is refused and the listing stays as it is, no number of rounds is enough: the
-- function calls itself for ever.
pub destroy_mention_refused :
    (fuel : ℕ) (table chain mention rulenum : Text) (w : Shell) (lines : List Text)
    → ((log : List Text) (cmd : Text) → Option.map (drop 2) (w.output log cmd) ≡ some lines)
    → find_mention mention lines ≡ some rulenum
    → iptables_fw_destroy_mention fuel table chain mention w ≡ none
unfolding iptables_fw_destroy_mention
destroy_mention_refused zero table chain mention rulenum w lines stays found = refl
destroy_mention_refused (suc fuel) table chain mention rulenum w lines stays found =
    let at : listing table chain w ≡ some lines = unfold listing in (stays w.log _) in
    let still =
      destroy_mention_refused fuel table chain mention rulenum (delete_rule table chain rulenum w).0
        lines (rw (delete_rule-output table chain rulenum w) stays) found in
    rw (at, found, still, iptables_fw_destroy_mention)
