-- ===== src/System/Invariant.antt =====
-- The daemon as a whole: what holds in every state that it reaches.
use wifi_cat.Base.{ℕ, ◌≡◌, ◌∙◌, sym, some, List, [], Run, ok, subst, replicate}
use wifi_cat.Base.Int.{ℤ, pos}
use wifi_cat.Base.Text.{Text}
use wifi_cat.ClientList.{null, ClientList, client_list_init}
use wifi_cat.ClientList.Unique.{Unique}
use wifi_cat.ClientList.Invariant.{Inv, client_list_init-Inv}
use wifi_cat.Iptables.{Marks}
use wifi_cat.Auth.{State}
use wifi_cat.Auth.Action.{Consistent}
use wifi_cat.Firewall.Refresh.{fw_refresh_client_list-Refreshes}
use wifi_cat.Http.{Served, served, Call}
use wifi_cat.Http.Callbacks.Keeps.{
  Yields, IsKept, callback_deny-IsKept, callback_auth-IsKept, first_contact-IsKept,
}
use wifi_cat.Ndsctl.{Daemon, Answer}
use wifi_cat.Ndsctl.Dispatch.{ends, Handled, handled, endless, dispatch-Handled}
use wifi_cat.Ndsctl.Settings.{Post, HasSameDaemon, dispatch-HasSame}
use wifi_cat.System.{Step, contact, auth, deny, control, refresh, Reach, start, later}

-- The table and the list are in step, no two clients have the same pair of addresses, and the limit is the
-- one that the table was made for.
pub record IsSane (max : ℕ) (d : Daemon) : Type 0 where
  pub consistent : Consistent max d.state
  pub limit : d.config.maxclients ≡ pos max

kept :
    (max : ℕ) {q : Served (State × List Call)} {s : State} {calls : List Call}
    → Yields (IsKept max) q
    → q ≡ served (s, calls)
    → Consistent max s
kept max h e = subst (Yields (IsKept max)) e h

Handled-Consistent :
    (max : ℕ) (request : Text) {q : Run (Daemon × Answer)} {d : Daemon} {a : Answer}
    → Handled max request q
    → q ≡ ok (d, a)
    → Consistent max d.state
Handled-Consistent max request (endless k full none_there) e = cc
Handled-Consistent max request (handled (ends d' a' v)) e = subst (λ q. Held q) e v
  where
    Held : Run (Daemon × Answer) → Type 0
    Held (ok (d, a)) = Consistent max d.state
    Held other = Unit {0}

Step-IsSane :
    {atoi : Text → ℤ} {m : Marks} (max : ℕ) {d d' : Daemon}
    → IsSane max d
    → Step atoi m d d'
    → IsSane max d'
Step-IsSane {m} max {d} v (contact web r fresh e) = record {
  consistent =
      kept max
        (first_contact-IsKept max web d.config m r d.state v.limit v.consistent fresh.nonnull
          fresh.unused)
        e;
  limit = v.limit;
}
Step-IsSane {m} max {d} v (auth web r fresh e) = record {
  consistent =
      kept max
        (callback_auth-IsKept max web d.config m r d.state v.limit v.consistent fresh.nonnull
          fresh.unused)
        e;
  limit = v.limit;
}
Step-IsSane {m} max {d} v (deny web r e) = record {
  consistent = kept max (callback_deny-IsKept max web d.config m r d.state v.consistent) e;
  limit = v.limit;
}
Step-IsSane {atoi} {m} max {d} v (control o request fresh e) = record {
  consistent =
      Handled-Consistent max request
        (dispatch-Handled max m d v.consistent atoi o request v.limit fresh.nonnull fresh.unused) e;
  limit =
      subst (Post (HasSameDaemon (pos max))) e
        (dispatch-HasSame (pos max) d v.limit atoi m o request);
}
Step-IsSane {m} max {d} v (refresh now inet_aton clock e) = record {
  consistent =
      let done =
        fw_refresh_client_list-Refreshes max d.config m now inet_aton clock d.state v.consistent in
      let same : ok done.result ≡ ok _ = sym done.returns ∙ e in
      subst (Post (Consistent max)) same done.consistent;
  limit = v.limit;
}

init-Consistent :
    (max : ℕ) (before : ClientList) (s : State)
    → client_list_init (pos max) before ≡ some s.clients
    → Consistent max s
unfolding client_list_init
init-Consistent max before s e =
    let (t, made, v) = client_list_init-Inv max before in
    let first : ClientList = record before {
      first = [];
      client_count = 0;
      client_arr = replicate max null;
    } in
    let same : t ≡ s.clients = cc in
    let empty : first ≡ s.clients = cc in
    record { inv = subst (Inv max) same v; unique = subst (λ c. Unique c.first) empty tt }

-- Whatever the threads do, in whatever order, the list of the clients stays well formed: its count, its table and its
-- nodes agree, there are no more clients than are allowed, and no two have the same pair of addresses.
pub Reach-IsSane :
    (atoi : Text → ℤ) (m : Marks) (max : ℕ) (d : Daemon) → Reach atoi m max d → IsSane max d
Reach-IsSane atoi m max d (start _ before limit e) = record {
  consistent = init-Consistent max before d.state e;
  limit = limit;
}
Reach-IsSane atoi m max d (later r step) = Step-IsSane max (Reach-IsSane atoi m max _ r) step
