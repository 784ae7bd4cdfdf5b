-- ===== src/Conf/Rulesets.antt =====
-- src/conf.c: the firewall rulesets by name.
use wifi_cat.Base.{
  ◌≡◌, ◌≢◌, refl, Bool, true, false, Option, none, some, List, [], ◌∷◌, map, arith, if◌then◌else◌,
  Option-cases, inl, inr, ◌||◌,
}
use wifi_cat.Base.Text.{Text, text_eq, text_eq_iff, text_eq_refl, codes}
use wifi_cat.Conf.{FirewallRule, FirewallRuleset, Config, target_accept}

-- The walk of `get_ruleset`.
unfoldable pub find_ruleset : Text → List FirewallRuleset → Option FirewallRuleset
find_ruleset name [] = none
find_ruleset name (r ∷ rs) = if text_eq r.name name then some r else find_ruleset name rs

unfoldable pub get_ruleset : Text → Config → Option FirewallRuleset
unfolding find_ruleset
get_ruleset name config = find_ruleset name config.rulesets

unfoldable pub get_ruleset_list : Text → Config → List FirewallRule
get_ruleset_list name config = elim (get_ruleset name config) [ none ↦ [] | some r ↦ r.rules ]

unfoldable pub is_nil : List FirewallRule → Bool
is_nil [] = true
is_nil (r ∷ rs) = false

unfoldable pub is_empty_ruleset : Text → Config → Bool
unfolding is_nil
is_empty_ruleset name config = is_nil (get_ruleset_list name config)

unfoldable pub get_empty_ruleset_policy : Text → Config → Option Text
get_empty_ruleset_policy name config = elim (get_ruleset name config) [
  | none ↦ none
  | some r ↦ r.emptyrulesetpolicy
]

-- `add_ruleset`: a new ruleset goes to the head, unless its name is taken.
unfoldable pub add_name : Text → List FirewallRuleset → List FirewallRuleset
unfolding find_ruleset
add_name name rs = elim (find_ruleset name rs) [
  | some r ↦ rs
  | none ↦ record { name = name; emptyrulesetpolicy = none; rules = [] } ∷ rs
]

unfoldable pub add_ruleset : Text → Config → Config
unfolding add_name
add_ruleset name config = record config { rulesets = add_name name config.rulesets }

-- A write through the pointer that `get_ruleset` returned: to the first ruleset of the name.
unfoldable pub update_first :
    Text → (FirewallRuleset → FirewallRuleset) → List FirewallRuleset → List FirewallRuleset
update_first name f [] = []
update_first name f (r ∷ rs) = if text_eq r.name name then f r ∷ rs else r ∷ update_first name f rs

unfoldable pub update_ruleset : Text → (FirewallRuleset → FirewallRuleset) → Config → Config
unfolding update_first
update_ruleset name f config = record config { rulesets = update_first name f config.rulesets }

-- `rs = add_ruleset(name); rs->emptyrulesetpolicy = safe_strdup(policy);`
unfoldable pub add_ruleset_with : Text → Text → Config → Config
add_ruleset_with name policy config =
    update_ruleset name (λ r. record r { emptyrulesetpolicy = some policy })
      (add_ruleset name config)

-- The rules of `free_ip_init`: each free address is accepted for tcp, the last one added first.
pub accept_tcp : Text → FirewallRule
accept_tcp ip = record {
  target = target_accept;
  protocol = some (codes "tcp");
  port = none;
  mask = some ip;
}

unfoldable pub prepend_each : List Text → List FirewallRule → List FirewallRule
prepend_each [] rules = rules
prepend_each (ip ∷ ips) rules = prepend_each ips (accept_tcp ip ∷ rules)

-- `free_ip_init`. `none` is the exit of the program where the ruleset is not there.
unfoldable pub free_ip_init : Config → Option Config
unfolding prepend_each accept_tcp
free_ip_init config = elim (get_ruleset (codes "preauthenticated-users") config) [
  | none ↦ none
  | some r ↦ some (
      update_ruleset (codes "preauthenticated-users")
        (λ r. record r { rules = prepend_each config.free_ip_list r.rules }) config)
]

abbrev pub names : Config → List Text
names config = map (λ r. r.name) config.rulesets

abbrev pub has_name : Text → List FirewallRuleset → Bool
has_name name [] = false
has_name name (r ∷ rs) = text_eq r.name name || has_name name rs

-- No two rulesets share a name.
abbrev pub DistinctNames : List FirewallRuleset → Type 0
DistinctNames [] = Unit {0}
DistinctNames (r ∷ rs) = (has_name r.name rs ≡ false) × DistinctNames rs

find_ruleset-has_name :
    (name : Text) (rs : List FirewallRuleset)
    → find_ruleset name rs ≡ none
    → has_name name rs ≡ false
unfolding find_ruleset
find_ruleset-has_name name [] e = refl
find_ruleset-has_name name (r ∷ rs) e = ground (arith, find_ruleset-has_name name rs)

add_name-DistinctNames :
    (name : Text) (rs : List FirewallRuleset) → DistinctNames rs → DistinctNames (add_name name rs)
unfolding add_name
add_name-DistinctNames name rs d = ground (arith, find_ruleset-has_name name rs)

-- Adding a ruleset keeps the names distinct.
pub add_ruleset-DistinctNames :
    (name : Text) (config : Config)
    → DistinctNames config.rulesets
    → DistinctNames (add_ruleset name config).rulesets
unfolding add_ruleset
add_ruleset-DistinctNames name config d = add_name-DistinctNames name config.rulesets d

find_update :
    (name : Text) (f : FirewallRuleset → FirewallRuleset) (rs : List FirewallRuleset)
    (r : FirewallRuleset)
    → ((s : FirewallRuleset) → (f s).name ≡ s.name)
    → find_ruleset name rs ≡ some r
    → find_ruleset name (update_first name f rs) ≡ some (f r)
unfolding find_ruleset update_first
find_update name f [] r keep e = cc
find_update name f (s ∷ rs) r keep e = ground (arith, keep s, find_update name f rs r keep)

find_update_other :
    (name other : Text) (f : FirewallRuleset → FirewallRuleset) (rs : List FirewallRuleset)
    → ((s : FirewallRuleset) → (f s).name ≡ s.name)
    → name ≢ other
    → find_ruleset other (update_first name f rs) ≡ find_ruleset other rs
unfolding find_ruleset update_first
find_update_other name other f [] keep ne = refl
find_update_other name other f (s ∷ rs) keep ne = ground (
  arith,
  keep s,
  find_update_other name other f rs keep ne,
  text_eq_iff s.name name,
  text_eq_iff s.name other,
)

policy_of : Option FirewallRuleset → Option Text
policy_of none = none
policy_of (some r) = r.emptyrulesetpolicy

abbrev set_policy : Text → FirewallRuleset → FirewallRuleset
set_policy policy r = record r { emptyrulesetpolicy = some policy }

add_then_policy :
    (name policy : Text) (rs : List FirewallRuleset)
    → policy_of (find_ruleset name (update_first name (set_policy policy) (add_name name rs)))
      ≡ some policy
unfolding add_name policy_of update_first
add_then_policy name policy rs = elim (Option-cases (find_ruleset name rs)) [
  | inl new ↦ ground (arith, text_eq_refl name)
  | inr (r, old) ↦ ground (arith, find_update name (set_policy policy) rs r (λ s. refl) old)
]

add_then_other :
    (name other policy : Text) (rs : List FirewallRuleset)
    → name ≢ other
    → find_ruleset other (update_first name (set_policy policy) (add_name name rs))
      ≡ find_ruleset other rs
unfolding add_name update_first find_ruleset
add_then_other name other policy rs ne = ground (
  arith,
  text_eq_refl name,
  text_eq_iff name other,
  find_update_other name other (set_policy policy) rs (λ s. refl) ne,
)

-- After the two lines of `config_init` for a ruleset its policy can be read back, and no ruleset of
-- another name has changed.
pub add_ruleset_with_lem :
    (name other policy : Text) (config : Config)
    → name ≢ other
    → (get_empty_ruleset_policy name (add_ruleset_with name policy config) ≡ some policy)
      × (get_ruleset other (add_ruleset_with name policy config) ≡ get_ruleset other config)
unfolding add_ruleset_with update_ruleset add_ruleset get_ruleset get_empty_ruleset_policy policy_of
add_ruleset_with_lem name other policy config ne = (
  ground (arith, add_then_policy name policy config.rulesets),
  add_then_other name other policy config.rulesets ne,
)
