-- ===== src/System/Timeouts.antt =====
-- src/firewall.c, `fw_refresh_client_list`, in a daemon that runs: no client outstays its time.
use wifi_cat.Base.{
  ℕ, ◌+◌, ◌*◌, ◌^◌, ◌<◌, ◌≡◌, sym, ◌∙◌, Bool, true, Option, some, List, [], ◌∷◌, All, filterb, ok,
  arith, subst, Bool-cases, inl, inr,
}
use wifi_cat.Base.Int.{ℤ, pos, mul_int, to_int, to_word, ◌*ℤ◌, ◌+ℤ◌}
use wifi_cat.Base.Text.{Text}
use wifi_cat.Conf.{Config}
use wifi_cat.ClientList.{Ptr, Node, ClientList}
use wifi_cat.Iptables.{Marks}
use wifi_cat.Iptables.Counters.{iptables_fw_counters_update}
use wifi_cat.Auth.{State}
use wifi_cat.Firewall.{is_idle, is_overdue, fw_refresh_client_list}
use wifi_cat.Firewall.Refresh.{stays, fw_refresh_client_list-Refreshes}
use wifi_cat.Ndsctl.{Daemon}
use wifi_cat.System.{Reach}
use wifi_cat.System.Invariant.{Reach-IsSane}

mul_int-pos : (a b : ℕ) → a * b < 2 ^ 31 → mul_int (pos a) (pos b) ≡ pos (a * b)
unfolding mul_int to_int to_word ◌*ℤ◌
mul_int-pos a b lt = ground arith

-- A client that is neither idle nor overdue, in seconds.
abbrev pub IsTimely : ℕ → ℕ → ℕ → ℕ → Node → Type 0
IsTimely interval idle forced now n =
    (now < n.client.counters.last_updated + interval * idle)
    × (now < n.client.added_time + interval * forced)

module _ (config : Config) (now : Ptr → ℕ) (interval idle forced : ℕ)
    (every : config.checkinterval ≡ pos interval) (timeout : config.clienttimeout ≡ pos idle)
    (forceout : config.clientforceout ≡ pos forced) (small : interval * idle < 2 ^ 31)
    (small' : interval * forced < 2 ^ 31) where
  stays-IsTimely :
      (n : Node) → stays config now n ≡ true → IsTimely interval idle forced (now n.addr) n
  unfolding is_idle is_overdue ◌+ℤ◌
  stays-IsTimely n h =
      let first : mul_int config.checkinterval config.clienttimeout ≡ pos (interval * idle) =
        rw (every, timeout) (mul_int-pos interval idle small) in
      let second : mul_int config.checkinterval config.clientforceout ≡ pos (interval * forced) =
        rw (every, forceout) (mul_int-pos interval forced small') in
      (ground (arith, first), ground (arith, second))

  All-IsTimely :
      (ns : List Node)
      → All (λ n. IsTimely interval idle forced (now n.addr) n) (filterb (stays config now) ns)
  All-IsTimely [] = tt
  All-IsTimely (n ∷ ns) = elim (Bool-cases (stays config now n)) [
    | inl t ↦ rw t (stays-IsTimely n t, All-IsTimely ns)
    | inr f ↦ rw f (All-IsTimely ns)
  ]

-- In every state that the daemon reaches, a refresh that can read the counters comes to an end, and no
-- client is left that has been idle for clienttimeout intervals or on the list for clientforceout
-- intervals: it is gone by the first refresh after its time. The products of the options fit an int.
pub refresh-IsTimely :
    (atoi : Text → ℤ) (m : Marks) (max : ℕ) (d : Daemon)
    → Reach atoi m max d
    → (now : Ptr → ℕ) (inet_aton : Text → Bool) (clock : ℕ → ℕ) (counted : ClientList)
    → iptables_fw_counters_update inet_aton clock d.state.shell d.state.clients
      ≡ some (counted, true)
    → (interval idle forced : ℕ) → d.config.checkinterval ≡ pos interval
    → d.config.clienttimeout ≡ pos idle
    → d.config.clientforceout ≡ pos forced
    → interval * idle < 2 ^ 31
    → interval * forced < 2 ^ 31
    → (s : State) × ((fw_refresh_client_list d.config m now inet_aton clock d.state ≡ ok s)
        × All (λ n. IsTimely interval idle forced (now n.addr) n) s.clients.first)
refresh-IsTimely atoi m max d r now inet_aton clock counted read interval idle forced every timeout
      forceout small small' =
    let sane = Reach-IsSane atoi m max d r in
    let done =
      fw_refresh_client_list-Refreshes max d.config m now inet_aton clock d.state sane.consistent in
    let same : ◌≡◌ {A = Option (ClientList × Bool)} (some (done.counted, done.is_read))
        (some (counted, true)) =
      sym done.counters ∙ read in
    let was_read : done.is_read ≡ true = cc in
    let left : done.result.clients.first ≡ filterb (stays d.config now) done.counted.first =
      ground (arith, done.clients) in
    (
      done.result,
      (
        done.returns,
        subst (All (λ n. IsTimely interval idle forced (now n.addr) n)) (sym left) (
            All-IsTimely d.config now interval idle forced every timeout forceout small small'
              done.counted.first),
      ),
    )
