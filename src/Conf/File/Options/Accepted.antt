-- ===== src/Conf/File/Options/Accepted.antt =====
-- src/conf.c: what the firewall relies on in a configuration, and how its parts are changed.
use wifi_cat.Base.{ℕ, ◌≡◌, ◌≢◌, refl, ◌∙◌, inl, inr, List, [], ◌∷◌, All, arith, Bool-cases}
use wifi_cat.Base.Text.{Text, text_eq}
use wifi_cat.Conf.{Config, FirewallRuleset}
use wifi_cat.Conf.Mac.Laws.{NoTwice}
use wifi_cat.Conf.Rules.Safe.{IsRule}
use wifi_cat.Conf.Rulesets.{update_ruleset, update_first, has_name, DistinctNames}

-- The rules of a ruleset are as the parser checks them.
abbrev pub HasRules : FirewallRuleset → Type 0
HasRules rs = All IsRule rs.rules

-- What is asked of the parts of a configuration on which the firewall and the lists rely.
pub record Accepted (authenticated blocked trusted : ℕ) (rulesets : List FirewallRuleset)
    (trusted_macs blocked_macs allowed_macs : List Text) : Type 0 where
  pub authenticated_blocked : authenticated ≢ blocked
  pub authenticated_trusted : authenticated ≢ trusted
  pub blocked_trusted : blocked ≢ trusted
  pub authenticated_marks : authenticated ≢ 0
  pub blocked_marks : blocked ≢ 0
  pub trusted_marks : trusted ≢ 0
  pub names : DistinctNames rulesets
  pub rules : All HasRules rulesets
  pub trusted_twice : NoTwice trusted_macs
  pub blocked_twice : NoTwice blocked_macs
  pub allowed_twice : NoTwice allowed_macs

abbrev pub IsAccepted : Config → Type 0
IsAccepted c =
    Accepted c.fw_mark_authenticated c.fw_mark_blocked c.fw_mark_trusted c.rulesets c.trustedmaclist
      c.blockedmaclist c.allowedmaclist

has_name-update_first :
    (q name : Text) (f : FirewallRuleset → FirewallRuleset) (rs : List FirewallRuleset)
    → ((r : FirewallRuleset) → (f r).name ≡ r.name)
    → has_name q (update_first name f rs) ≡ has_name q rs
unfolding update_first
has_name-update_first q name f [] keep = refl
has_name-update_first q name f (r ∷ rs) keep =
    ground (arith, keep r, has_name-update_first q name f rs keep)

pub DistinctNames-update_first :
    (name : Text) (f : FirewallRuleset → FirewallRuleset) (rs : List FirewallRuleset)
    → ((r : FirewallRuleset) → (f r).name ≡ r.name)
    → DistinctNames rs
    → DistinctNames (update_first name f rs)
unfolding update_first
DistinctNames-update_first name f [] keep h = tt
DistinctNames-update_first name f (r ∷ rs) keep h = elim (Bool-cases (text_eq r.name name)) [
  | inl t ↦ rw (t, keep r) h
  | inr other ↦ rw other (
    has_name-update_first r.name name f rs keep ∙ h.0,
    DistinctNames-update_first name f rs keep h.1,
  )
]

All-update_first :
    (name : Text) (f : FirewallRuleset → FirewallRuleset) (rs : List FirewallRuleset)
    → ((r : FirewallRuleset) → HasRules r → HasRules (f r))
    → All HasRules rs
    → All HasRules (update_first name f rs)
unfolding update_first
All-update_first name f [] keep h = tt
All-update_first name f (r ∷ rs) keep h = elim (Bool-cases (text_eq r.name name)) [
  | inl t ↦ rw t (keep r h.0, h.1)
  | inr other ↦ rw other (h.0, All-update_first name f rs keep h.1)
]

module _ (config : Config) (v : IsAccepted config) where
  pub update_ruleset-IsAccepted :
      (name : Text) (f : FirewallRuleset → FirewallRuleset)
      → ((r : FirewallRuleset) → (f r).name ≡ r.name)
      → ((r : FirewallRuleset) → HasRules r → HasRules (f r))
      → IsAccepted (update_ruleset name f config)
  unfolding update_ruleset
  update_ruleset-IsAccepted name f keep rules = record {
    authenticated_blocked = v.authenticated_blocked;
    authenticated_trusted = v.authenticated_trusted;
    blocked_trusted = v.blocked_trusted;
    authenticated_marks = v.authenticated_marks;
    blocked_marks = v.blocked_marks;
    trusted_marks = v.trusted_marks;
    names = DistinctNames-update_first name f config.rulesets keep v.names;
    rules = All-update_first name f config.rulesets rules v.rules;
    trusted_twice = v.trusted_twice;
    blocked_twice = v.blocked_twice;
    allowed_twice = v.allowed_twice;
  }

  pub marks-IsAccepted :
      (a b t : ℕ)
      → a ≢ b
      → a ≢ t
      → b ≢ t
      → a ≢ 0
      → b ≢ 0
      → t ≢ 0
      → Accepted a b t config.rulesets config.trustedmaclist config.blockedmaclist
          config.allowedmaclist
  marks-IsAccepted a b t ab at bt a0 b0 t0 = record {
    authenticated_blocked = ab;
    authenticated_trusted = at;
    blocked_trusted = bt;
    authenticated_marks = a0;
    blocked_marks = b0;
    trusted_marks = t0;
    names = v.names;
    rules = v.rules;
    trusted_twice = v.trusted_twice;
    blocked_twice = v.blocked_twice;
    allowed_twice = v.allowed_twice;
  }

  pub lists-IsAccepted :
      (t b a : List Text)
      → NoTwice t
      → NoTwice b
      → NoTwice a
      → Accepted config.fw_mark_authenticated config.fw_mark_blocked config.fw_mark_trusted
          config.rulesets t b a
  lists-IsAccepted t b a ht hb ha = record {
    authenticated_blocked = v.authenticated_blocked;
    authenticated_trusted = v.authenticated_trusted;
    blocked_trusted = v.blocked_trusted;
    authenticated_marks = v.authenticated_marks;
    blocked_marks = v.blocked_marks;
    trusted_marks = v.trusted_marks;
    names = v.names;
    rules = v.rules;
    trusted_twice = ht;
    blocked_twice = hb;
    allowed_twice = ha;
  }
