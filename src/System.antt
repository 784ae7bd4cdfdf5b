-- ===== src/System.antt =====
-- The daemon as a whole: the threads of src/gateway.c, src/httpd_thread.c, src/ndsctl_thread.c and the timer
-- of src/auth.c work on one client list, each under its lock, in any order.
pub mod Invariant
pub mod Timeouts
pub mod Views
pub mod Granted
use wifi_cat.Base.{ℕ, ◌≡◌, ◌≢◌, Bool, false, Option, some, List, Run, ok}
use wifi_cat.Base.Int.{ℤ, pos}
use wifi_cat.Base.Text.{Text}
use wifi_cat.Conf.{Config}
use wifi_cat.ClientList.{Ptr, null, ClientList, client_list_init}
use wifi_cat.ClientList.Nodes.{has_addr}
use wifi_cat.ClientList.Register.{Outside}
use wifi_cat.Iptables.{Marks}
use wifi_cat.Auth.{State}
use wifi_cat.Firewall.{fw_refresh_client_list}
use wifi_cat.Http.{Served, served, Call, Request, Web}
use wifi_cat.Http.Callbacks.{first_contact, callback_auth, callback_deny}
use wifi_cat.Ndsctl.{Daemon, Answer, dispatch}

-- malloc gives an address that is neither NULL nor in use.
pub record IsFresh (o : Outside) (d : Daemon) : Type 0 where
  pub nonnull : o.fresh ≢ null
  pub unused : has_addr o.fresh d.state.clients.first ≡ false

abbrev pub set_state : State → Daemon → Daemon
set_state s d = record d { state = s }

-- A step of one of the threads that returns.
pub data Step (atoi : Text → ℤ) (m : Marks) (d : Daemon) : Daemon → Type 0 where
  contact :
      (web : Web) (r : Request) {s : State} {calls : List Call}
      → IsFresh web.outside d
      → first_contact web d.config r d.state ≡ served (s, calls)
      → Step atoi m d (set_state s d)
  auth :
      (web : Web) (r : Request) {s : State} {calls : List Call}
      → IsFresh web.outside d
      → callback_auth web d.config m r d.state ≡ served (s, calls)
      → Step atoi m d (set_state s d)
  deny :
      (web : Web) (r : Request) {s : State} {calls : List Call}
      → callback_deny web d.config m r d.state ≡ served (s, calls)
      → Step atoi m d (set_state s d)
  control :
      (o : Outside) (request : Text) {d' : Daemon} {a : Answer}
      → IsFresh o d
      → dispatch atoi m o request d ≡ ok (d', a)
      → Step atoi m d d'
  refresh :
      (now : Ptr → ℕ) (inet_aton : Text → Bool) (clock : ℕ → ℕ) {s : State}
      → fw_refresh_client_list d.config m now inet_aton clock d.state ≡ ok s
      → Step atoi m d (set_state s d)

-- What the daemon reaches from the list that `client_list_init` makes.
pub data Reach (atoi : Text → ℤ) (m : Marks) (max : ℕ) : Daemon → Type 0 where
  start :
      (d : Daemon) (before : ClientList)
      → d.config.maxclients ≡ pos max
      → client_list_init (pos max) before ≡ some d.state.clients
      → Reach atoi m max d
  later : {d d' : Daemon} → Reach atoi m max d → Step atoi m d d' → Reach atoi m max d'
