-- ===== src/Ndsctl/Dispatch.antt =====
-- src/ndsctl_thread.c, the dispatch of a request, and the client list after it.
use wifi_cat.Base.{
  Bool, ℕ, ◌≤◌, ◌≡◌, ◌≢◌, false, if_both, Run, ok, fault, ◌>>=◌, drop, length, ltb, inl, inr,
  Bool-cases, arith,
}
use wifi_cat.Base.Int.{ℤ, pos}
use wifi_cat.Base.Text.{Text, codes, has_prefix}
use wifi_cat.Shell.{Script}
use wifi_cat.Conf.{Config}
use wifi_cat.Conf.Mac.{MacList, trusted, blocked, allowed}
use wifi_cat.ClientList.{null}
use wifi_cat.ClientList.Nodes.{has_addr}
use wifi_cat.ClientList.Register.{Outside}
use wifi_cat.Iptables.{Marks}
use wifi_cat.Auth.Action.{Consistent}
use wifi_cat.Ndsctl.{
  Daemon, Answer, ndsctl_loglevel, ndsctl_password, ndsctl_username, dispatch, argument, has_nul,
  max_buf,
}
use wifi_cat.Ndsctl.Clients.{
  Authed, no_client, authed, ndsctl_auth-Authed, Deauthed, not_found, deauthed,
  ndsctl_deauth-Deauthed,
}
use wifi_cat.Ndsctl.Macs.{
  Changed, changed, half_changed, unchanged, ndsctl_add, ndsctl_remove, ndsctl_mac-Changed,
}

-- A request that ends in a consistent state.
pub data Ends (max : ℕ) : Run (Daemon × Answer) → Type 0 where
  ends : (d : Daemon) (a : Answer) → Consistent max d.state → Ends max (ok (d, a))

-- A request that is dealt with, or one that fills the buffer and whose argument, `k` bytes from its start,
-- has no end in it.
pub data Handled (max : ℕ) (request : Text) : Run (Daemon × Answer) → Type 0 where
  handled : {r : Run (Daemon × Answer)} → Ends max r → Handled max request r
  endless :
      (k : ℕ)
      → max_buf ≤ length request
      → has_nul (drop k request) ≡ false
      → Handled max request fault

module _ (max : ℕ) (m : Marks) (d : Daemon) (v : Consistent max d.state) where
  Ends-Authed : (ip : Text) {r : Run (Daemon × Answer)} → Authed max m ip d r → Ends max r
  Ends-Authed ip (no_client s w) = ends _ _ w
  Ends-Authed ip (authed n s w same found marked) = ends _ _ w

  Ends-Deauthed : (arg : Text) {r : Run (Daemon × Answer)} → Deauthed max arg d r → Ends max r
  Ends-Deauthed arg (not_found e e') = ends _ _ v
  Ends-Deauthed arg (deauthed n s e w gone) = ends _ _ w

  Ends-Changed :
      {change : Config → Run (Config × ℤ)} {rule : Script} {r : Run (Daemon × Answer)}
      → Changed change rule d r
      → Ends max r
  Ends-Changed (changed config e worked) = ends _ _ (record { inv = v.inv; unique = v.unique })
  Ends-Changed (half_changed config e failed) = ends _ _ (record { inv = v.inv; unique = v.unique })
  Ends-Changed (unchanged rc e ne) = ends _ _ v

  Ends-ndsctl_add : (l : MacList) (arg : Text) → Ends max (ndsctl_add m l arg d)
  Ends-ndsctl_add l arg = Ends-Changed (ndsctl_mac-Changed m l arg d).0

  Ends-ndsctl_remove : (l : MacList) (arg : Text) → Ends max (ndsctl_remove m l arg d)
  Ends-ndsctl_remove l arg = Ends-Changed (ndsctl_mac-Changed m l arg d).1

  -- A handler that is given its argument.
  with_argument :
      (k : ℕ) (request : Text) (handler : Text → Run (Daemon × Answer))
      → ((arg : Text) → Ends max (handler arg))
      → Handled max request (argument k request >>= handler)
  unfolding argument
  with_argument k request handler h = elim (Bool-cases (has_nul (drop k request))) [
    | inl t ↦ rw t (handled (h _))
    | inr f ↦ elim (Bool-cases (ltb (length request) max_buf)) [
      | inl short ↦ rw (f, short) (handled (h _))
      | inr full ↦ rw (f, full) (endless k (ground arith) f)
    ]
  ]

  pub dispatch-Handled :
      (atoi : Text → ℤ) (o : Outside) (request : Text)
      → d.config.maxclients ≡ pos max
      → o.fresh ≢ null
      → has_addr o.fresh d.state.clients.first ≡ false
      → Handled max request (dispatch atoi m o request d)
  unfolding dispatch ndsctl_add ndsctl_remove ndsctl_loglevel ndsctl_password ndsctl_username
  dispatch-Handled atoi o request e ne unused =
      let R = Handled max request in
      let is : Text → Bool = λ w. has_prefix request w in
      let done : (d : Daemon) (a : Answer) → Consistent max d.state → R (ok (d, a)) =
        λ d a w. handled (ends d a w) in
      let arg : (k : ℕ) (handler : Text → Run (Daemon × Answer))
          → ((arg : Text) → Ends max (handler arg))
          → R (argument k request >>= handler) =
        λ k handler h. with_argument k request handler h in
      if_both R (is (codes "status")) (done _ _ v) (
        if_both R (is (codes "clients")) (done _ _ v) (
          if_both R (is (codes "stop")) (done _ _ v) (
            if_both R (is (codes "block")) (arg 6 _ (Ends-ndsctl_add blocked)) (
              if_both R (is (codes "unblock")) (arg 8 _ (Ends-ndsctl_remove blocked)) (
                if_both R (is (codes "allow")) (arg 6 _ (Ends-ndsctl_add allowed)) (
                  if_both R (is (codes "unallow")) (arg 8 _ (Ends-ndsctl_remove allowed)) (
                    if_both R (is (codes "trust")) (arg 6 _ (Ends-ndsctl_add trusted)) (
                      if_both R (is (codes "untrust")) (arg 8 _ (Ends-ndsctl_remove trusted)) (
                        if_both R (is (codes "auth"))
                          (arg 5 _
                            (λ a. Ends-Authed a (ndsctl_auth-Authed max m o a d e v ne unused)))
                          (if_both R (is (codes "deauth"))
                            (arg 7 _ (λ a. Ends-Deauthed a (ndsctl_deauth-Deauthed max m a d v)))
                            (if_both R (is (codes "loglevel")) (arg 9 _ (λ a. ends _ _ v)) (
                              if_both R (is (codes "password")) (arg 9 _ (λ a. ends _ _ v)) (
                                if_both R (is (codes "username")) (arg 9 _ (λ a. ends _ _ v))
                                  (done _ _ v))))))))))))))
