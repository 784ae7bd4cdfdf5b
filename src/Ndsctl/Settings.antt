-- ===== src/Ndsctl/Settings.antt =====
-- src/ndsctl_thread.c, the dispatch of a request: the number of clients allowed is not among the settings
-- that a request can change.
use wifi_cat.Base.{
  ℕ, zero, suc, ◌≡◌, Bool, true, false, not, Option, none, some, List, ◌∷◌, if◌then◌else◌, if_both,
  Run, ok, fault, ◌>>=◌, ◌==◌,
}
use wifi_cat.Base.Int.{ℤ, pos, negsuc}
use wifi_cat.Base.Text.{Text, codes, has_prefix}
use wifi_cat.Shell.{Script}
use wifi_cat.Conf.{Config}
use wifi_cat.Conf.Formats.{check_mac_format, mac_of}
use wifi_cat.Conf.Init.{mac_allow, mac_block, set_log_level, set_password, set_username}
use wifi_cat.Conf.Mac.{
  MacList, trusted, blocked, allowed, with_list, list_of, is_int, is_listed, remove_mac, add_mac,
  take_mac, add_to, remove_from, add_to_trusted_mac_list, add_to_blocked_mac_list,
  add_to_allowed_mac_list, remove_from_trusted_mac_list, remove_from_blocked_mac_list,
  remove_from_allowed_mac_list,
}
use wifi_cat.ClientList.{Ptr, Node, ClientList}
use wifi_cat.ClientList.Nodes.{node_at}
use wifi_cat.ClientList.Register.{Outside, client_list_add_client}
use wifi_cat.Iptables.{
  Marks, iptables_block_mac, iptables_unblock_mac, iptables_allow_mac, iptables_unallow_mac,
  iptables_trust_mac, iptables_untrust_mac,
}
use wifi_cat.Iptables.Access.{make_authenticated, make_deauthenticated}
use wifi_cat.Auth.{State, auth_client_action}
use wifi_cat.Ndsctl.{
  Daemon, Answer, auth_node, ndsctl_auth, ndsctl_deauth, find_by_either, change_and_rule,
  ndsctl_block, ndsctl_unblock, ndsctl_allow, ndsctl_unallow, ndsctl_trust, ndsctl_untrust,
  ndsctl_loglevel, ndsctl_password, ndsctl_username, dispatch, argument, answer_no, answer_yes,
  yes_if,
}

-- What holds of the result if there is one.
abbrev pub Post : {A : Type 0} → (A → Type 0) → Run A → Type 0
Post P (ok a) = P a
Post P fault = Unit {0}

Post-bind :
    {A B : Type 0} (P : A → Type 0) (Q : B → Type 0) (r : Run A) (f : A → Run B)
    → Post P r
    → ((a : A) → P a → Post Q (f a))
    → Post Q (r >>= f)
Post-bind P Q (ok a) f h k = k a h
Post-bind P Q fault f h k = tt

abbrev IsAny : Text → Type 0
IsAny a = Unit {0}

Post-IsAny : (r : Run Text) → Post IsAny r
Post-IsAny (ok a) = tt
Post-IsAny fault = tt

module _ (n : ℤ) where
  abbrev pub IsSame : Config → Type 0
  IsSame c = c.maxclients ≡ n

  abbrev HasSame : Config × ℤ → Type 0
  HasSame p = IsSame p.0

  IsSame-with_list :
      (l : MacList) (macs : List Text) (c : Config) → IsSame c → IsSame (with_list l macs c)
  unfolding with_list
  IsSame-with_list trusted macs c h = h
  IsSame-with_list blocked macs c h = h
  IsSame-with_list allowed macs c h = h

  module _ (c : Config) (h : IsSame c) where
    add_mac-HasSame : (l : MacList) (s : Text) → Post HasSame (add_mac l s c)
    unfolding add_mac
    add_mac-HasSame l s = from (mac_of s)
      where
        from :
            (o : Option Text)
            → Post HasSame (elim o [
              | none ↦ fault
              | some mac ↦
                  if is_listed mac (list_of l c)
                  then ok (c, pos 1)
                  else ok (with_list l (mac ∷ list_of l c) c, pos 0)
            ])
        from none = tt
        from (some mac) =
            if_both (Post HasSame) (is_listed mac (list_of l c)) h (IsSame-with_list l _ c h)

    take_mac-HasSame : (l : MacList) (s : Text) → Post HasSame (take_mac l s c)
    unfolding take_mac
    take_mac-HasSame l s = from (mac_of s)
      where
        from :
            (o : Option Text)
            → Post HasSame (elim o [
              | none ↦ fault
              | some mac ↦
                  if is_listed mac (list_of l c)
                  then ok (with_list l (remove_mac mac (list_of l c)) c, pos 0)
                  else ok (c, negsuc 0)
            ])
        from none = tt
        from (some mac) =
            if_both (Post HasSame) (is_listed mac (list_of l c)) (IsSame-with_list l _ c h) h

    -- The two tests in front of an operation on a list.
    guarded-HasSame :
        (r : Run (Config × ℤ)) (b : Bool)
        → Post HasSame r
        → Post HasSame (if b then ok (c, negsuc 0) else r)
    guarded-HasSame r true k = h
    guarded-HasSame r false k = k

    add_to-HasSame : (l : MacList) (s : Text) → Post HasSame (add_to l s c)
    unfolding add_to add_to_trusted_mac_list add_to_blocked_mac_list add_to_allowed_mac_list
    add_to-HasSame trusted s =
        guarded-HasSame _ (not (check_mac_format s)) (add_mac-HasSame trusted s)
    add_to-HasSame blocked s =
        guarded-HasSame _ (not (check_mac_format s))
          (guarded-HasSame _ (not (is_int mac_block c.macmechanism)) (add_mac-HasSame blocked s))
    add_to-HasSame allowed s =
        guarded-HasSame _ (not (check_mac_format s))
          (guarded-HasSame _ (not (is_int mac_allow c.macmechanism)) (add_mac-HasSame allowed s))

    remove_from-HasSame : (l : MacList) (s : Text) → Post HasSame (remove_from l s c)
    unfolding remove_from remove_from_trusted_mac_list remove_from_blocked_mac_list
        remove_from_allowed_mac_list
    remove_from-HasSame trusted s =
        guarded-HasSame _ (not (check_mac_format s)) (take_mac-HasSame trusted s)
    remove_from-HasSame blocked s =
        guarded-HasSame _ (not (check_mac_format s))
          (guarded-HasSame _ (not (is_int mac_block c.macmechanism)) (take_mac-HasSame blocked s))
    remove_from-HasSame allowed s =
        guarded-HasSame _ (not (check_mac_format s))
          (guarded-HasSame _ (not (is_int mac_allow c.macmechanism)) (take_mac-HasSame allowed s))

  abbrev pub HasSameDaemon : Daemon × Answer → Type 0
  HasSameDaemon p = IsSame p.0.config

  module _ (d : Daemon) (h : IsSame d.config) where
    change_and_rule-HasSame :
        (change : Text → Config → Run (Config × ℤ)) (rule : Text → Script) (arg : Text)
        → Post HasSame (change arg d.config)
        → Post HasSameDaemon (change_and_rule change rule arg d)
    unfolding change_and_rule
    change_and_rule-HasSame change rule arg k =
        Post-bind HasSame HasSameDaemon (change arg d.config) _ k λ p same. from p.0 p.1 same
      where
        from :
            (config : Config) (rc : ℤ)
            → IsSame config
            → Post HasSameDaemon (
                let (shell, status) = rule arg d.state.shell in
                elim rc [
                  | pos zero ↦ ok (
                    record { config = config; state = record d.state { shell = shell } },
                    yes_if (status == 0),
                  )
                  | pos (suc n) ↦ ok (record d { config = config }, answer_no)
                  | negsuc n ↦ ok (record d { config = config }, answer_no)
                ])
        from config (pos zero) same = same
        from config (pos (suc n)) same = same
        from config (negsuc n) same = same

    state-HasSame :
        (r : Run State) (a : Answer)
        → Post HasSameDaemon (r >>= λ after. ok (record d { state = after }, a))
    state-HasSame (ok after) a = h
    state-HasSame fault a = tt

  auth_node-HasSame :
      (m : Marks) (d : Daemon) (o : Option Node)
      → IsSame d.config
      → Post HasSameDaemon (auth_node m d o)
  unfolding auth_node
  auth_node-HasSame m d none h = tt
  auth_node-HasSame m d (some n) h =
      state-HasSame d h
        (auth_client_action d.config m n.client.ip n.client.mac make_authenticated d.state) _

  module _ (d : Daemon) (h : IsSame d.config) where
    ndsctl_auth-HasSame :
        (m : Marks) (o : Outside) (arg : Text) → Post HasSameDaemon (ndsctl_auth m o arg d)
    unfolding ndsctl_auth
    ndsctl_auth-HasSame m o arg =
        from (client_list_add_client d.config.maxclients o arg d.state.clients)
      where
        from :
            (r : Run (Option Ptr × ClientList))
            → Post HasSameDaemon (
                r >>= λ (p, clients).
                let added : Daemon = record d { state = record d.state { clients = clients } } in
                elim p [
                  | none ↦ ok (added, answer_no)
                  | some addr ↦ auth_node m added (node_at addr clients.first)
                ])
        from fault = tt
        from (ok (none, clients)) = h
        from (ok (some addr, clients)) =
            auth_node-HasSame m (record d { state = record d.state { clients = clients } })
              (node_at addr clients.first) h

    ndsctl_deauth-HasSame : (m : Marks) (arg : Text) → Post HasSameDaemon (ndsctl_deauth m arg d)
    unfolding ndsctl_deauth
    ndsctl_deauth-HasSame m arg = from (find_by_either arg d.state.clients)
      where
        from :
            (o : Option Node)
            → Post HasSameDaemon (elim o [
              | none ↦ ok (d, answer_no)
              | some n ↦ do
                after ←
                    auth_client_action d.config m n.client.ip n.client.mac make_deauthenticated
                      d.state
                ok (record d { state = after }, answer_yes)
            ])
        from none = h
        from (some n) =
            state-HasSame d h
              (auth_client_action d.config m n.client.ip n.client.mac make_deauthenticated d.state)
              _

    -- No request changes the number of clients that are allowed.
    pub dispatch-HasSame :
        (atoi : Text → ℤ) (m : Marks) (o : Outside) (request : Text)
        → Post HasSameDaemon (dispatch atoi m o request d)
    unfolding dispatch ndsctl_block ndsctl_unblock ndsctl_allow ndsctl_unallow ndsctl_trust
        ndsctl_untrust ndsctl_loglevel ndsctl_password ndsctl_username set_log_level set_password
        set_username add_to remove_from
    dispatch-HasSame atoi m o request =
        let is : Text → Bool = λ w. has_prefix request w in
        let R = Post HasSameDaemon in
        let arg : (k : ℕ) (handler : Text → Run (Daemon × Answer))
            → ((a : Text) → R (handler a))
            → R (argument k request >>= handler) =
          λ k handler k'.
            Post-bind IsAny HasSameDaemon (argument k request) handler (Post-IsAny _)
              (λ a any. k' a) in
        let added : (l : MacList) (rule : Text → Script) (a : Text)
            → R (change_and_rule (add_to l) rule a d) =
          λ l rule a.
            change_and_rule-HasSame d h (add_to l) rule a (add_to-HasSame d.config h l a) in
        let removed : (l : MacList) (rule : Text → Script) (a : Text)
            → R (change_and_rule (remove_from l) rule a d) =
          λ l rule a.
            change_and_rule-HasSame d h (remove_from l) rule a
              (remove_from-HasSame d.config h l a) in
        if_both R (is (codes "status")) h (
          if_both R (is (codes "clients")) h (
            if_both R (is (codes "stop")) h (
              if_both R (is (codes "block")) (arg 6 _ (added blocked (iptables_block_mac m))) (
                if_both R (is (codes "unblock"))
                  (arg 8 _ (removed blocked (iptables_unblock_mac m)))
                  (if_both R (is (codes "allow")) (arg 6 _ (added allowed iptables_allow_mac)) (
                    if_both R (is (codes "unallow"))
                      (arg 8 _ (removed allowed iptables_unallow_mac))
                      (if_both R (is (codes "trust"))
                        (arg 6 _ (added trusted (iptables_trust_mac m)))
                        (if_both R (is (codes "untrust"))
                          (arg 8 _ (removed trusted (iptables_untrust_mac m)))
                          (if_both R (is (codes "auth")) (arg 5 _ (ndsctl_auth-HasSame m o)) (
                            if_both R (is (codes "deauth")) (arg 7 _ (ndsctl_deauth-HasSame m)) (
                              if_both R (is (codes "loglevel")) (arg 9 _ (λ a. h)) (
                                if_both R (is (codes "password")) (arg 9 _ (λ a. h)) (
                                  if_both R (is (codes "username")) (arg 9 _ (λ a. h))
                                    h)))))))))))))
