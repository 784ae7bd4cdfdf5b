-- ===== src/System/Views.antt =====
-- The marks that the client list shows, after an address is registered and after a refresh.
use wifi_cat.Base.{
  ℕ, ◌≡◌, ◌≢◌, refl, sym, ◌∙◌, Bool, true, false, Option, none, some, filterb, if◌then◌else◌, Run,
  ok, arith, subst,
}
use wifi_cat.Base.Text.{Text}
use wifi_cat.Conf.{Config}
use wifi_cat.ClientList.{
  Ptr, Node, ClientList, client_list_find, update_client, client_list_find_by_ip,
}
use wifi_cat.ClientList.Invariant.{Inv, appended}
use wifi_cat.ClientList.Unique.{Unique}
use wifi_cat.ClientList.Register.{
  Outside, make_auth_token, Registered, malformed, unresolved, present, full, new,
}
use wifi_cat.ClientList.View.{view, mark_of, mark_of-update_at, mark_of-append, mark_of-filterb}
use wifi_cat.Firewall.{fw_refresh_client_list}
use wifi_cat.Firewall.Refresh.{stays, fw_refresh_client_list-Refreshes}
use wifi_cat.Iptables.{Marks}
use wifi_cat.Iptables.Counters.{update_by_ip, with_counters}
use wifi_cat.Iptables.Counters.Laws.{GivesRead, counters_update-GivesRead, counters_update-Inv}
use wifi_cat.ClientList.{Counters}
use wifi_cat.Auth.{State}
use wifi_cat.Auth.Action.{Consistent}

-- Every mark but 0 that the second list shows, the first one shows too.
abbrev pub IsGrown : ClientList → ClientList → Type 0
IsGrown s t = (ip mac : Text) (k : ℕ) → k ≢ 0 → view t ip mac ≡ some k → view s ip mac ≡ some k

pub IsGrown-Registered :
    (max : ℕ) (o : Outside) (ip : Text) (s : ClientList) (p : Option Ptr) (t : ClientList)
    {q : Run (Option Ptr × ClientList)}
    → Registered max o ip s q
    → q ≡ ok (p, t)
    → IsGrown s t
unfolding view client_list_find appended
IsGrown-Registered max o ip s p t (malformed f) e ip' mac' k ne seen =
    let same : s ≡ t = cc in rw same seen
IsGrown-Registered max o ip s p t (unresolved f a) e ip' mac' k ne seen =
    let same : s ≡ t = cc in rw same seen
IsGrown-Registered max o ip s p t (present mac n f a found) e ip' mac' k ne seen =
    let same : s ≡ t = cc in rw same seen
IsGrown-Registered max o ip s p t (full mac f a out le) e ip' mac' k ne seen =
    let same : s ≡ t = cc in rw same seen
IsGrown-Registered max o ip s p t (new mac f a out lt) e ip' mac' k ne seen =
    let made : appended o.fresh o.now ip mac (some (make_auth_token o.rand1 o.rand2)) s ≡ t = cc in
    mark_of-append ip' mac' s.first _ k (λ z. ne (sym z))
      (subst (λ c. mark_of (client_list_find ip' mac' c) ≡ some k) (sym made) seen)

-- Reading the counters shows in no mark.
abbrev SameView : ClientList → ClientList → Type 0
SameView s t = (ip mac : Text) → view t ip mac ≡ view s ip mac

update_by_ip-SameView :
    (s : ClientList) (ip : Text) (f : Counters → Counters) (t : ClientList)
    → SameView s t
    → SameView s (update_by_ip ip f t)
unfolding update_by_ip
update_by_ip-SameView s ip f t h ip' mac' = from (client_list_find_by_ip ip t)
  where
    from :
        (o : Option Node)
        → view (elim o [ none ↦ t | some n ↦ update_client n.addr (with_counters f) t ]) ip' mac'
          ≡ view s ip' mac'
    from none = h ip' mac'
    from (some n) =
        let same : view (update_client n.addr (with_counters f) t) ip' mac' ≡ view t ip' mac' =
          unfold view client_list_find update_client with_counters in
          mark_of-update_at ip' mac' n.addr (with_counters f) t.first (λ c. (refl, (refl, refl))) in
        same ∙ h ip' mac'

-- Nor is a mark seen after a refresh that was not seen before.
pub refresh-IsGrown :
    (max : ℕ) (config : Config) (m : Marks) (now : Ptr → ℕ) (inet_aton : Text → Bool)
    (clock : ℕ → ℕ) (s t : State)
    → Consistent max s
    → fw_refresh_client_list config m now inet_aton clock s ≡ ok t
    → IsGrown s.clients t.clients
refresh-IsGrown max config m now inet_aton clock s t v e ip mac k ne seen =
    let done = fw_refresh_client_list-Refreshes max config m now inet_aton clock s v in
    let same : ◌≡◌ {A = Run State} (ok done.result) (ok t) = sym done.returns ∙ e in
    let result : done.result ≡ t = cc in
    let kept : GivesRead inet_aton (λ c. Inv max c × Unique c.first)
        (some (done.counted, done.is_read)) =
      subst (GivesRead inet_aton (λ c. Inv max c × Unique c.first)) done.counters
        (counters_update-Inv inet_aton clock s.shell max s.clients v.inv v.unique) in
    let as_before : GivesRead inet_aton (SameView s.clients) (some (done.counted, done.is_read)) =
      subst (GivesRead inet_aton (SameView s.clients)) done.counters (
        counters_update-GivesRead inet_aton (SameView s.clients) clock s.shell s.clients
          (update_by_ip-SameView s.clients) (λ ip mac. refl)) in
    sym (as_before ip mac)
    ∙ swept done.counted done.is_read kept.1 done.result done.clients (rw result seen)
  where
    swept :
        (counted : ClientList) (is_read : Bool)
        → Unique counted.first
        → (r : State)
        → r.clients.first
          ≡ (if is_read then filterb (stays config now) counted.first else counted.first)
        → view r.clients ip mac ≡ some k
        → view counted ip mac ≡ some k
    swept counted false u r clients seen =
        unfold view client_list_find in ground (arith, clients, seen)
    swept counted true u r clients seen =
        unfold view client_list_find in
        mark_of-filterb ip mac (stays config now) counted.first k u (ground (arith, clients, seen))
