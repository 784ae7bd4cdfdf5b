-- ===== src/Startup/Ready.antt =====
-- main of src/gateway.c: the configuration with which the main loop starts.
use wifi_cat.Base.{
  take, ℕ, zero, suc, ◌≡◌, ◌∙◌, refl, sym, ◌⊎◌, inl, inr, true, Option, none, some, List, [], ◌∷◌,
  All, if_both, Bool-cases, arith,
}
use wifi_cat.Base.Int.{ℤ, pos, ltb_ℤ}
use wifi_cat.Base.Text.{Text, codes, text_eq, text_eq_refl, format, lit, dec}
use wifi_cat.Conf.{Config, FirewallRule, FirewallRuleset}
use wifi_cat.Conf.FreeIp.{on_list}
use wifi_cat.Conf.Mac.Laws.{NoTwice}
use wifi_cat.Conf.Rules.Safe.{IsRule}
use wifi_cat.Conf.Rulesets.{
  DistinctNames, free_ip_init, accept_tcp, prepend_each, get_ruleset, update_ruleset, update_first,
}
use wifi_cat.Conf.File.Options.{Outcome, goes_on, exits, faults}
use wifi_cat.Conf.File.Options.Accepted.{HasRules, DistinctNames-update_first}
use wifi_cat.Http.{Served, served, exited, faulted, hung, ◌>>=◌, of_loop, nonnull}
use wifi_cat.Http.Callbacks.Keeps.{Yields, Yields-bind, IsAny, Yields-IsAny}
use wifi_cat.Iptables.{Marks, iptables_init_marks, init_marks-AreDistinct}
use wifi_cat.Iptables.Setup.{marks_of}
use wifi_cat.Remote.{config_from_server, on_address, on_reply}
use wifi_cat.Center.{resolve_host, http_get_request}
use wifi_cat.Http.Pages.{or_null}
use wifi_cat.Remote.Sound.{Safely, safely, faulty, IsAnswer, IsFrom, from_answer-Safely}
use wifi_cat.Startup.{
  Server, ask_again, with_server, start, read_settings-Settled, Settled, settled, IsValid,
}

-- A rule that the parser of the file has checked, or the rule that lets tcp to a free address through.
abbrev pub IsKnown : List Text → FirewallRule → Type 0
IsKnown ips r = IsRule r ⊎ ((ip : Text) × (r ≡ accept_tcp ip) × (on_list ip ips ≡ true))

abbrev pub HasKnown : List Text → FirewallRuleset → Type 0
HasKnown ips rs = All (IsKnown ips) rs.rules

-- What the daemon can rely on when the main loop starts.
pub record IsReady (config : Config) : Type 0 where
  pub interface : (t : Text) × (config.gw_interface ≡ some t)
  pub server : (t : Text) × (config.auth_server ≡ some t)
  pub marks : (m : Marks) → (iptables_init_marks (marks_of config m)).1 ≡ 0
  pub names : DistinctNames config.rulesets
  pub rules : All (HasKnown config.free_ip_list) config.rulesets
  pub trusted_twice : NoTwice config.trustedmaclist
  pub blocked_twice : NoTwice config.blockedmaclist
  pub allowed_twice : NoTwice config.allowedmaclist

-- How the start ends: with an exit, with a fault, without an end where the attempts to reach the server do not
-- end, or with a configuration that is ready.
pub data Started (atoi : Text → ℤ) (server : Server) : Served Config → Type 0 where
  stopped : Started atoi server exited
  broken : Started atoi server faulted
  waiting :
      (config : Config)
      → IsValid config
      → ask_again atoi server server.attempts 0 config ≡ hung
      → Started atoi server hung
  running : (config : Config) → IsReady config → Started atoi server (served config)

All-checked :
    (ips : List Text) (rules : List FirewallRule) → All IsRule rules → All (IsKnown ips) rules
All-checked ips [] h = tt
All-checked ips (r ∷ rules) h = (inl h.0, All-checked ips rules h.1)

prepend_each-IsKnown :
    (all ips : List Text) (rules : List FirewallRule)
    → ((ip : Text) → on_list ip ips ≡ true → on_list ip all ≡ true)
    → All (IsKnown all) rules
    → All (IsKnown all) (prepend_each ips rules)
unfolding prepend_each on_list
prepend_each-IsKnown all [] rules sub h = h
prepend_each-IsKnown all (ip ∷ ips) rules sub h =
    prepend_each-IsKnown all ips (accept_tcp ip ∷ rules) (λ q on. sub q (ground (arith, on)))
      (inr (ip, refl, sub ip (ground (arith, text_eq_refl ip))), h)

All-update_first :
    (P Q : FirewallRuleset → Type 0) (name : Text) (f : FirewallRuleset → FirewallRuleset)
    (rs : List FirewallRuleset)
    → ((r : FirewallRuleset) → P r → Q r)
    → ((r : FirewallRuleset) → P r → Q (f r))
    → All P rs
    → All Q (update_first name f rs)
unfolding update_first
All-update_first P Q name f [] keep set h = tt
All-update_first P Q name f (r ∷ rs) keep set h = elim (Bool-cases (text_eq r.name name)) [
  | inl t ↦ rw t (set r h.0, others rs h.1)
  | inr other ↦ rw other (keep r h.0, All-update_first P Q name f rs keep set h.1)
]
  where
    others : (rs : List FirewallRuleset) → All P rs → All Q rs
    others [] h = tt
    others (r ∷ rs) h = (keep r h.0, others rs h.1)

free_ip_init-Started :
    (atoi : Text → ℤ) (server : Server) (base config : Config)
    → IsValid base
    → IsFrom base config
    → Started atoi server
        (elim (free_ip_init config) [ none ↦ exited | some config'' ↦ served config'' ])
unfolding free_ip_init update_ruleset marks_of
free_ip_init-Started atoi server base config b (v, interface, server_same) =
    from (get_ruleset (codes "preauthenticated-users") config)
  where
    free : FirewallRuleset → FirewallRuleset
    free r = record r { rules = prepend_each config.free_ip_list r.rules }

    from :
        (o : Option FirewallRuleset)
        → Started atoi server
            (elim (elim o as (λ x. Option Config) [
              | none ↦ none
              | some r ↦ some (update_ruleset (codes "preauthenticated-users") free config)
            ]) [ none ↦ exited | some config'' ↦ served config'' ])
    from none = stopped
    from (some r) = running _ (record {
      interface = (b.interface.0, interface ∙ b.interface.1);
      server = (b.server.0, server_same ∙ b.server.1);
      marks = λ m. (init_marks-AreDistinct (marks_of config m)).1 (record {
        blocked_trusted = v.blocked_trusted;
        trusted_authenticated = λ e. v.authenticated_trusted (sym e);
        authenticated_blocked = v.authenticated_blocked;
        blocked_marks = v.blocked_marks;
        trusted_marks = v.trusted_marks;
        authenticated_marks = v.authenticated_marks;
      });
      names =
          DistinctNames-update_first (codes "preauthenticated-users") free config.rulesets
            (λ r. refl) v.names;
      rules =
          All-update_first HasRules (HasKnown config.free_ip_list) (codes "preauthenticated-users")
            free config.rulesets (λ r h. All-checked config.free_ip_list r.rules h)
            (λ r h.
              prepend_each-IsKnown config.free_ip_list config.free_ip_list r.rules (λ ip on. on)
                (All-checked config.free_ip_list r.rules h))
            v.rules;
      trusted_twice = v.trusted_twice;
      blocked_twice = v.blocked_twice;
      allowed_twice = v.allowed_twice;
    })

module _ (atoi : Text → ℤ) (server : Server) where
  Yields-Safely :
      (base : Config) {q : Served (Config × ℤ)}
      → Safely (IsAnswer base) q
      → Yields (IsAnswer base) q
  Yields-Safely base (safely a p) = p
  Yields-Safely base faulty = tt

  on_reply-IsAnswer :
      (base config : Config) (answer : Option Text)
      → IsFrom base config
      → Yields (IsAnswer base) (on_reply server.gethostbyname atoi server.jsmn_parse config answer)
  unfolding on_reply
  on_reply-IsAnswer base config none v = v
  on_reply-IsAnswer base config (some buf) v =
      Yields-Safely base
        (from_answer-Safely server.gethostbyname atoi server.jsmn_parse buf base config v)

  on_address-IsAnswer :
      (k : ℕ) (base config : Config) (found : Option Text)
      → IsFrom base config
      → Yields (IsAnswer base) (
          on_address server.gethostbyname atoi server.jsmn_parse
            (server.networks k)
            server.version
            config
            found)
  unfolding on_address
  on_address-IsAnswer k base config none v = v
  on_address-IsAnswer k base config (some ip) v =
      Yields-bind IsAny (IsAnswer base)
        (of_loop (
          http_get_request (server.networks k) (take 15 ip)
            (format (or_null config.config_path ∷ []))
            (take 31 (format (lit "?uid=" ∷ dec config.uid ∷ []))) server.version 8192))
        _ (Yields-IsAny _) (λ answer any. on_reply-IsAnswer base config answer v)

  config_from_server-IsAnswer :
      (k : ℕ) (base config : Config)
      → IsFrom base config
      → Yields (IsAnswer base) (
          config_from_server server.gethostbyname atoi server.jsmn_parse
            (server.networks k)
            server.patience
            server.version
            config)
  unfolding config_from_server
  config_from_server-IsAnswer k base config v =
      Yields-bind IsAny (IsAnswer base) (nonnull config.auth_server) _ (Yields-IsAny _) λ host any.
        Yields-bind IsAny (IsAnswer base)
          (of_loop (resolve_host server.patience (server.networks k) host)) _ (Yields-IsAny _)
          (λ found any'. on_address-IsAnswer k base config found v)

  ask_again-IsFrom :
      (fuel k : ℕ) (base config : Config)
      → IsFrom base config
      → Yields (IsFrom base) (ask_again atoi server fuel k config)
  unfolding ask_again
  ask_again-IsFrom zero k base config v = tt
  ask_again-IsFrom (suc fuel) k base config v =
      Yields-bind (IsAnswer base) (IsFrom base) _ _ (config_from_server-IsAnswer k base config v)
        λ p w.
          if_both (Yields (IsFrom base)) (ltb_ℤ p.1 (pos 0))
            (ask_again-IsFrom fuel (suc k) base p.0 w) w

  with_server-Started :
      (config : Config) → IsValid config → Started atoi server (with_server atoi server config)
  unfolding with_server
  with_server-Started config v =
      from (ask_again atoi server server.attempts 0 config) refl
        (ask_again-IsFrom server.attempts 0 config config (v.accepted, refl, refl))
    where
      from :
          (q : Served Config)
          → ask_again atoi server server.attempts 0 config ≡ q
          → Yields (IsFrom config) q
          → Started atoi server (
              q >>= λ config'. elim (free_ip_init config') [
                | none ↦ exited
                | some config'' ↦ served config''
              ])
      from (served c) e w = free_ip_init-Started atoi server config c v w
      from exited e w = stopped
      from faulted e w = broken
      from hung e w = waiting config v e

  -- Whatever the command line, the files and the server give, the program comes to the main loop, exits or
  -- faults, or it asks the server again and again; nothing else keeps it from coming to an end. Where the main loop
  -- starts, the interface and the server are known, the three marks pass the check that the firewall makes, no two rulesets share a name, no list of MAC
  -- addresses has an address twice, and every rule was checked by the parser of the file, which asks for a
  -- protocol that starts with a known name, a port of digits and colons only behind tcp or udp and a
  -- mask of digits, dots and slashes, or is the one that lets tcp to an address of the list of free addresses through.
  pub start-Started :
      (options : List (ℕ × Option Text)) (files : Text → Option Text) (config : Config)
      → Started atoi server (start atoi options files server config)
  unfolding start
  start-Started options files config = from (read_settings-Settled atoi options files config)
    where
      from :
          {r : Option (Outcome Config)}
          → Settled r
          → Started atoi server (elim r [
            | none ↦ hung
            | some exits ↦ exited
            | some faults ↦ faulted
            | some (goes_on config') ↦ with_server atoi server config'
          ])
      from (settled (goes_on c) v) = with_server-Started c v
      from (settled exits v) = stopped
      from (settled faults v) = broken
