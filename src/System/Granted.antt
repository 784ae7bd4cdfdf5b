-- ===== src/System/Granted.antt =====
-- The daemon as a whole: who lets a client through the firewall.
use wifi_cat.Base.{ℕ, ◌≡◌, ◌≢◌, ◌⊎◌, false, Option, some, List, ok}
use wifi_cat.Base.Int.{ℤ, pos}
use wifi_cat.Base.Text.{Text, codes}
use wifi_cat.Conf.{Config}
use wifi_cat.ClientList.{Ptr, null, ClientList}
use wifi_cat.ClientList.Nodes.{has_addr}
use wifi_cat.ClientList.Register.{Outside}
use wifi_cat.ClientList.View.{view}
use wifi_cat.Firewall.Arp.{arp_get}
use wifi_cat.Iptables.{Marks}
use wifi_cat.Auth.{State}
use wifi_cat.Http.{served, Request, Call, Web, AuthTarget}
use wifi_cat.Http.Callbacks.{callback_auth}
use wifi_cat.Http.Callbacks.Laws.{Vouched}
use wifi_cat.Http.{or_empty}
use wifi_cat.Ndsctl.{Daemon, Answer, dispatch}
use wifi_cat.System.{IsFresh, Step, auth, control}
use wifi_cat.Auth.Action.{Consistent}

-- The sender of a request has been vouched for: its address is that of the request, and the token is the
-- one of the request.
pub record Verified (web : Web) (config : Config) (r : Request) (ip mac : Text) : Type 0 where
  pub sender : r.client_addr ≡ ip
  pub known : arp_get web.outside.arp_table ip ≡ some (some mac)
  pub vouched : Vouched web config (or_empty (r.variable (codes "tok"))) mac

abbrev HasToken : Request → AuthTarget → Type 0
HasToken r target = target.token ≡ some (or_empty (r.variable (codes "tok")))

module _ (max : ℕ) (web : Web) (config : Config) (m : Marks) (r : Request) (s : State)
    (Why : Text → Text → Type 0) where
  -- A client that is authenticated was so before, or there is a reason.
  abbrev IsTraced : State → Type 0
  IsTraced t =
      (ip mac : Text)
      → view t.clients ip mac ≡ some m.authenticated
      → (view s.clients ip mac ≡ some m.authenticated) ⊎ Why ip mac

  abbrev Traces : State × List Call → Type 0
  Traces p = IsTraced p.0

  abbrev IsAdded : Option Ptr × State → Type 0
  IsAdded p = Consistent max p.1 × IsTraced p.1

-- Nothing is authenticated by a step that gives no reason.
abbrev Never : Text → Text → Type 0
Never ip mac = ⊥

module _ (max : ℕ) (web : Web) (config : Config) (m : Marks) (r : Request) (s : State)
    (v : Consistent max s) where
  module _ (limit : config.maxclients ≡ pos max) (nonzero : m.authenticated ≢ 0)
      (nonnull : web.outside.fresh ≢ null)
      (unused : has_addr web.outside.fresh s.clients.first ≡ false) where
    abbrev Sender : Text → Text → Type 0
    Sender = Verified web config r

-- Why a client is authenticated after a step: it was so before, or the step is the request of this
-- client to be authenticated and its token was vouched for, or the step is a request of ndsctl.
pub data Cause (atoi : Text → ℤ) (m : Marks) (d : Daemon) (ip mac : Text)
    : (d' : Daemon) → Step atoi m d d' → Type 0 where
  already :
      {d' : Daemon} (step : Step atoi m d d')
      → view d.state.clients ip mac ≡ some m.authenticated
      → Cause atoi m d ip mac d' step
  by_server :
      (web : Web) (r : Request) {s : State} {calls : List Call} (fresh : IsFresh web.outside d)
      (e : callback_auth web d.config m r d.state ≡ served (s, calls))
      → Verified web d.config r ip mac
      → Cause atoi m d ip mac _ (auth web r fresh e)
  by_request :
      (o : Outside) (request : Text) {d' : Daemon} {a : Answer} (fresh : IsFresh o d)
      (e : dispatch atoi m o request d ≡ ok (d', a))
      → Cause atoi m d ip mac _ (control o request fresh e)
