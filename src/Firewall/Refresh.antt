-- ===== src/Firewall/Refresh.antt =====
-- src/firewall.c, `fw_refresh_client_list`: the walk, which frees nodes while it goes along the list,
-- against a sweep without pointers.
use wifi_cat.Base.{
  ℕ, zero, suc, ◌<◌, ◌≡◌, ◌≢◌, refl, sym, ◌∙◌, inl, inr, Bool, true, false, not, ◌&&◌, ◌||◌, Option,
  none, some, List, [], ◌∷◌, ◌++◌, length, filterb, if◌then◌else◌, ◌==◌, ok, arith, Bool-cases, All,
}
use mathlib.Core.List.{append_assoc}
use wifi_cat.Shell.{Shell}
use wifi_cat.Conf.{Config}
use wifi_cat.ClientList.{Ptr, null, ClientList, Node}
use wifi_cat.ClientList.Nodes.{has_addr, Distinct, node_at, without, without-absent}
use wifi_cat.ClientList.Slots.{InSlot}
use wifi_cat.ClientList.Invariant.{Inv, deleted, deleted-Inv}
use wifi_cat.ClientList.Unique.{Unique, client_list_find-split, Unique-without}
use wifi_cat.Iptables.{Marks}
use wifi_cat.Iptables.Access.{make_deauthenticated, iptables_fw_access}
use wifi_cat.Auth.{State}
use wifi_cat.Auth.Action.{Consistent, dropped, drop_client-dropped}
use wifi_cat.Iptables.Counters.{iptables_fw_counters_update}
use wifi_cat.Iptables.Counters.Laws.{GivesRead, counters_update-Inv}
use wifi_cat.Base.Text.{Text}
use wifi_cat.Firewall.{
  is_idle, is_overdue, visit, head_addr, deref, refresh_loop, fw_refresh_client_list,
}

-- The clients that the walk leaves on the list.
abbrev pub stays : Config → (Ptr → ℕ) → Node → Bool
stays config now n =
    not (is_idle config (now n.addr) n.client || is_overdue config (now n.addr) n.client)

-- The walk without pointers: each node in order.
pub sweep : Config → Marks → (Ptr → ℕ) → List Node → State → State
unfolding dropped
sweep config m now [] s = s
sweep config m now (n ∷ ns) s =
    sweep config m now ns (if stays config now n then s else dropped config m n s)

has_addr-split :
    (p : Ptr) (kept : List Node) (n : Node) (ns : List Node)
    → has_addr p (kept ++ n ∷ ns) ≡ false
    → p ≢ n.addr
has_addr-split p [] n ns h = λ e. ground arith
has_addr-split p (k ∷ kept) n ns h = has_addr-split p kept n ns (ground arith)

module _ (n : Node) (ns : List Node) where
  node_at-split :
      (kept : List Node) → Distinct (kept ++ n ∷ ns) → node_at n.addr (kept ++ n ∷ ns) ≡ some n
  node_at-split [] d = ground arith
  node_at-split (k ∷ kept) d =
      ground (arith, has_addr-split k.addr kept n ns d.0, node_at-split kept d.1)

  without-split :
      (kept : List Node) → Distinct (kept ++ n ∷ ns) → without n.addr (kept ++ n ∷ ns) ≡ kept ++ ns
  without-split [] d = ground (arith, without-absent n.addr ns)
  without-split (k ∷ kept) d =
      ground (arith, has_addr-split k.addr kept n ns d.0, without-split kept d.1)

  deref-split :
      (kept : List Node)
      → Distinct (kept ++ n ∷ ns)
      → deref n.addr (kept ++ n ∷ ns) ≡ ok (n, head_addr ns)
  unfolding deref
  deref-split [] d = ground arith
  deref-split (k ∷ kept) d =
      ground (arith, has_addr-split k.addr kept n ns d.0, deref-split kept d.1)

  All-split {κ} : (P : Node → Type κ) (kept : List Node) → All P (kept ++ n ∷ ns) → P n
  All-split P [] h = h.0
  All-split P (k ∷ kept) h = All-split P kept h.1

-- What one round of the loop does at a node of the list.
module _ (config : Config) (m : Marks) (now : Ptr → ℕ) (max : ℕ) (s : State)
    (v : Inv max s.clients) where
  visit-split :
      (kept : List Node) (n : Node) (ns : List Node)
      → s.clients.first ≡ kept ++ n ∷ ns
      → Unique (kept ++ n ∷ ns)
      → Distinct (kept ++ n ∷ ns)
      → visit config m (now n.addr) n s
        ≡ ok (if stays config now n then s else dropped config m n s)
  unfolding visit
  visit-split kept n ns e u d =
      let at : node_at n.addr s.clients.first ≡ some n = rw e (node_at-split n ns kept d) in
      ground (
        arith,
        client_list_find-split s.clients kept n ns e u,
        drop_client-dropped max config m n s v at,
      )

  round-split :
      (fuel : ℕ) (kept : List Node) (n : Node) (ns : List Node)
      → s.clients.first ≡ kept ++ n ∷ ns
      → Unique (kept ++ n ∷ ns)
      → Distinct (kept ++ n ∷ ns)
      → refresh_loop config m now (suc fuel) n.addr s
        ≡ refresh_loop config m now fuel
            (head_addr ns)
            (if stays config now n then s else dropped config m n s)
  unfolding refresh_loop
  round-split fuel kept n ns e u d =
      let held : n.addr ≢ null =
        (All-split n ns (InSlot s.clients.client_arr) kept (rw e at v.slots)).0 in
      let at : deref n.addr s.clients.first ≡ ok (n, head_addr ns) =
        rw e (deref-split n ns kept d) in
      ground (arith, at, visit-split kept n ns e u d)

  dropped-first :
      (kept : List Node) (n : Node) (ns : List Node)
      → s.clients.first ≡ kept ++ n ∷ ns
      → Distinct (kept ++ n ∷ ns)
      → (dropped config m n s).clients.first ≡ kept ++ ns
  unfolding dropped deleted
  dropped-first kept n ns e d = rw e (without-split n ns kept d)

  dropped-Inv :
      (kept : List Node) (n : Node) (ns : List Node)
      → s.clients.first ≡ kept ++ n ∷ ns
      → Distinct (kept ++ n ∷ ns)
      → Inv max (dropped config m n s).clients
  unfolding dropped
  dropped-Inv kept n ns e d =
      deleted-Inv max s.clients v n.addr n (rw e (node_at-split n ns kept d))

  dropped-Unique : (n : Node) → Unique s.clients.first → Unique (dropped config m n s).clients.first
  unfolding dropped deleted
  dropped-Unique n u = Unique-without n.addr s.clients.first u

module _ (config : Config) (m : Marks) (now : Ptr → ℕ) where
  abbrev Swept : ℕ → ℕ → List Node → List Node → State → Type 0
  Swept max fuel kept todo s =
      (refresh_loop config m now fuel (head_addr todo) s ≡ ok (sweep config m now todo s))
      × (((sweep config m now todo s).clients.first ≡ kept ++ filterb (stays config now) todo)
          × Consistent max (sweep config m now todo s))

  sweep-cons :
      (n : Node) (ns : List Node) (s : State)
      → sweep config m now (n ∷ ns) s
        ≡ sweep config m now ns (if stays config now n then s else dropped config m n s)
  unfolding sweep
  sweep-cons n ns s = refl

  -- `kept` is what the walk has passed, the second list what is ahead.
  refresh_loop-sweep :
      (max fuel : ℕ) (kept todo : List Node) (s : State)
      → Inv max s.clients
      → Unique s.clients.first
      → s.clients.first ≡ kept ++ todo
      → length todo < fuel
      → Swept max fuel kept todo s
  unfolding head_addr
  refresh_loop-sweep max zero kept todo s v u e enough = absurd (omega arith)
  refresh_loop-sweep max (suc fuel) kept [] s v u e enough =
      unfold refresh_loop head_addr sweep in (refl, (e, record { inv = v; unique = u }))
  refresh_loop-sweep max (suc fuel) kept (n ∷ todo) s v u e enough =
      let d = rw e at v.distinct in
      let u' = rw e at u in
      let one = round-split config m now max s v fuel kept n todo e u' d in
      elim (Bool-cases (stays config now n)) [
        | inl keep ↦
            let rec =
              refresh_loop-sweep max fuel (kept ++ n ∷ []) todo s v u
                (e ∙ sym (append_assoc kept (n ∷ []) todo)) (omega arith) in
            ground (
              arith,
              one,
              rec.0,
              rec.1.0,
              rec.1.1,
              sweep-cons n todo s,
              append_assoc kept (n ∷ []) (filterb (stays config now) todo),
            )
        | inr drop ↦
            let rec =
              refresh_loop-sweep max fuel kept todo (dropped config m n s)
                (dropped-Inv config m now max s v kept n todo e d)
                (dropped-Unique config m now max s v n u)
                (dropped-first config m now max s v kept n todo e d) (omega arith) in
            ground (arith, one, rec.0, rec.1.0, rec.1.1, sweep-cons n todo s)
      ]

  -- The commands of the walk: those of each authenticated client that has to go, in the order of the list.
  pub revoke_all : List Node → Shell → Shell
  revoke_all [] w = w
  revoke_all (n ∷ ns) w =
      revoke_all ns (iptables_fw_access config m make_deauthenticated n.client w).0

  pub is_revoked : Node → Bool
  is_revoked n = not (stays config now n) && (n.client.fw_connection_state == m.authenticated)

  sweep-shell :
      (ns : List Node) (s : State)
      → (sweep config m now ns s).shell ≡ revoke_all (filterb is_revoked ns) s.shell
  unfolding sweep revoke_all is_revoked dropped
  sweep-shell [] s = refl
  sweep-shell (n ∷ ns) s = ground (arith, sweep-shell ns s, sweep-shell ns (dropped config m n s))

-- How a refresh ends.
pub record Refreshes (max : ℕ) (config : Config) (m : Marks) (now : Ptr → ℕ)
    (inet_aton : Text → Bool) (clock : ℕ → ℕ) (s : State) : Type 0 where
  pub counted : ClientList
  pub is_read : Bool
  pub result : State
  pub counters :
      iptables_fw_counters_update inet_aton clock s.shell s.clients ≡ some (counted, is_read)
  pub returns : fw_refresh_client_list config m now inet_aton clock s ≡ ok result
  pub consistent : Consistent max result
  pub clients :
      result.clients.first
      ≡ (if is_read then filterb (stays config now) counted.first else counted.first)
  pub shell : result.shell ≡ (
      if is_read
      then revoke_all config m now (filterb (is_revoked config m now) counted.first) s.shell
      else s.shell)

-- On a consistent list, reading the counters comes to an end, and so does the walk over the list, without ever following a freed
-- node. Where the counters cannot be read, no client is dropped. Else exactly the clients that are neither
-- idle nor overdue by the fresh counters are left, in their order, and the firewall rules of each dropped
-- client that was authenticated are taken out, in the order of the list, and no other command is run. The
-- list is consistent again.
pub fw_refresh_client_list-Refreshes :
    (max : ℕ) (config : Config) (m : Marks) (now : Ptr → ℕ) (inet_aton : Text → Bool)
    (clock : ℕ → ℕ) (s : State)
    → Consistent max s
    → Refreshes max config m now inet_aton clock s
unfolding fw_refresh_client_list
fw_refresh_client_list-Refreshes max config m now inet_aton clock s v =
    ended (iptables_fw_counters_update inet_aton clock s.shell s.clients) refl
      (counters_update-Inv inet_aton clock s.shell max s.clients v.inv v.unique)
  where
    ended :
        (o : Option (ClientList × Bool))
        → iptables_fw_counters_update inet_aton clock s.shell s.clients ≡ o
        → GivesRead inet_aton (λ t. Inv max t × Unique t.first) o
        → Refreshes max config m now inet_aton clock s
    ended none e h = absurd h
    ended (some (cs, false)) e h = record {
      counted = cs;
      is_read = false;
      result = record s { clients = cs };
      counters = e;
      returns = rw (e, fw_refresh_client_list);
      consistent = record { inv = h.0; unique = h.1 };
      clients = refl;
      shell = refl;
    }
    ended (some (cs, true)) e h =
        let s' : State = record s { clients = cs } in
        let walk =
          refresh_loop-sweep config m now max (suc (length cs.first)) [] cs.first s' h.0 h.1 refl
            (omega arith) in
        record {
          counted = cs;
          is_read = true;
          result = sweep config m now cs.first s';
          counters = e;
          returns = rw (e, fw_refresh_client_list) walk.0;
          consistent = walk.1.1;
          clients = walk.1.0;
          shell = sweep-shell config m now cs.first s';
        }
