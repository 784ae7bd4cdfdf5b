-- ===== src/Firewall.antt =====
-- src/firewall.c, `fw_refresh_client_list`: the walk that drops idle clients and those that have been
-- connected for too long.
pub mod Arp
pub mod Refresh
pub mod StateNames
use wifi_cat.Base.{
  ℕ, zero, suc, Bool, true, false, ◌||◌, Option, none, some, List, [], ◌∷◌, if◌then◌else◌, ◌==◌,
  Run, ok, fault, ◌>>=◌, String,
}
use wifi_cat.Base.Int.{ℤ, pos, ◌+ℤ◌, mul_int, leb_ℤ}
use wifi_cat.Shell.{Shell}
use wifi_cat.Conf.{Config}
use wifi_cat.ClientList.{Ptr, null, Client, ClientList, Node, client_list_find}
use wifi_cat.Iptables.{Marks}
use wifi_cat.Base.{length}
use wifi_cat.Base.Text.{Text}
use wifi_cat.Iptables.Counters.{iptables_fw_counters_update}
use wifi_cat.Auth.{State, drop_client}

-- `last_updated + (config->checkinterval * config->clienttimeout) <= now`, and the same for the time since
-- the client was added. The product is an `int`, the sum and the clock are 64 bits wide.
unfoldable pub is_idle : Config → ℕ → Client → Bool
is_idle config now c =
    leb_ℤ (pos c.counters.last_updated +ℤ mul_int config.checkinterval config.clienttimeout)
      (pos now)

unfoldable pub is_overdue : Config → ℕ → Client → Bool
is_overdue config now c =
    leb_ℤ (pos c.added_time +ℤ mul_int config.checkinterval config.clientforceout) (pos now)

-- The body of the loop for the node that `client_list_find` gives back; `now` is what time() returns.
pub visit : Config → Marks → ℕ → Node → State → Run State
visit config m now n s = elim (client_list_find n.client.ip n.client.mac s.clients) [
  | none ↦ ok s
  | some cp1 ↦
      if is_idle config now cp1.client
      then drop_client config m cp1 s
      else if is_overdue config now cp1.client
      then drop_client config m cp1 s
      else ok s
]

pub head_addr : List Node → Ptr
head_addr [] = null
head_addr (n ∷ ns) = n.addr

-- The node at an address and its `next`. An address that is not on the list is a read after free.
pub deref : Ptr → List Node → Run (Node × Ptr)
unfolding head_addr
deref p [] = fault
deref p (n ∷ ns) = if n.addr == p then ok (n, head_addr ns) else deref p ns

-- `for (cp1 = cp2 = first; NULL != cp1; cp1 = cp2) { cp2 = cp1->next; ... }` on fuel; running out of it
-- is reported as a fault too. `now p` is the time read while the node at `p` is visited.
pub refresh_loop : Config → Marks → (Ptr → ℕ) → ℕ → Ptr → State → Run State
unfolding deref visit
refresh_loop config m now zero p s = fault
refresh_loop config m now (suc fuel) p s =
    let rest = (do
      (n, cp2) ← deref p s.clients.first
      s' ← visit config m (now p) n s
      refresh_loop config m now fuel cp2 s') in
    if p == null then ok s else rest

-- `fw_refresh_client_list`. The listings are read by `popen`; the walk does not start where one of them
-- cannot be. Its fuel is one more than the nodes.
pub fw_refresh_client_list :
    Config → Marks → (Ptr → ℕ) → (Text → Bool) → (ℕ → ℕ) → State → Run State
unfolding refresh_loop head_addr
fw_refresh_client_list config m now inet_aton clock s =
    elim (iptables_fw_counters_update inet_aton clock s.shell s.clients) [
      | none ↦ fault
      | some (cs, false) ↦ ok (record s { clients = cs })
      | some (cs, true) ↦
          refresh_loop config m now (suc (length cs.first)) (head_addr cs.first)
            (record s { clients = cs })
    ]
