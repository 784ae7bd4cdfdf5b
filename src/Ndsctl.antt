-- ===== src/Ndsctl.antt =====
-- src/ndsctl_thread.c: the requests that ndsctl sends to the daemon over its socket, how they are read,
-- and what each does to the configuration, the client list and the firewall.
pub mod Read
pub mod Client
pub mod Macs
pub mod Clients
pub mod Settings
pub mod Dispatch
use wifi_cat.Base.{
  ℕ, zero, suc, ◌+◌, Bool, true, false, not, ◌&&◌, Option, none, some, List, [], ◌∷◌, ◌++◌, drop,
  if◌then◌else◌, ◌==◌, Run, ok, fault, ◌>>=◌, map, ltb, length, ◌||◌,
}
use wifi_cat.Base.Int.{ℤ, pos, negsuc}
use wifi_cat.Base.Text.{Text, codes, has_prefix}
use wifi_cat.Shell.{Shell, Script}
use wifi_cat.Conf.Words.{until_nul}
use wifi_cat.Conf.{Config}
use wifi_cat.Conf.Init.{set_log_level, set_password, set_username}
use wifi_cat.Conf.Mac.{MacList, trusted, blocked, allowed, add_to, remove_from}
use wifi_cat.ClientList.{Ptr, Node, ClientList, client_list_find_by_ip, client_list_find_by_mac}
use wifi_cat.ClientList.Nodes.{node_at}
use wifi_cat.ClientList.Register.{Outside, client_list_add_client}
use wifi_cat.Iptables.{
  Marks, iptables_block_mac, iptables_unblock_mac, iptables_allow_mac, iptables_unallow_mac,
  iptables_trust_mac, iptables_untrust_mac,
}
use wifi_cat.Iptables.Access.{AuthAction, make_authenticated, make_deauthenticated}
use wifi_cat.Auth.{State, auth_client_action}

pub record Daemon : Type 0 where
  pub config : Config
  pub state : State

-- What is written to the socket: `Yes`, `No`, or one of the two reports of src/util.c. `stopped` is the
-- signal that the program sends to itself.
pub data Answer : Type 0 where
  answer_yes answer_no status_text clients_text stopped unanswered : Answer

abbrev pub yes_if : Bool → Answer
yes_if b = if b then answer_yes else answer_no

-- `client->ip` and `client->mac` are read, and the client is authenticated.
auth_node : Marks → Daemon → Option Node → Run (Daemon × Answer)
auth_node m d none = fault
auth_node m d (some n) = do
  after ← auth_client_action d.config m n.client.ip n.client.mac make_authenticated d.state
  ok (record d { state = after }, answer_yes)

-- `ndsctl_auth`
pub ndsctl_auth : Marks → Outside → Text → Daemon → Run (Daemon × Answer)
unfolding auth_node
ndsctl_auth m o arg d = do
  (p, clients) ← client_list_add_client d.config.maxclients o arg d.state.clients
  let added : Daemon = record d { state = record d.state { clients = clients } } in
      elim p [
        | none ↦ ok (added, answer_no)
        | some addr ↦ auth_node m added (node_at addr clients.first)
      ]

-- The argument can be the IP or the MAC of a client.
pub find_by_either : Text → ClientList → Option Node
find_by_either arg s = elim (client_list_find_by_ip arg s) [
  | some n ↦ some n
  | none ↦ client_list_find_by_mac arg s
]

-- `ndsctl_deauth`
pub ndsctl_deauth : Marks → Text → Daemon → Run (Daemon × Answer)
unfolding find_by_either
ndsctl_deauth m arg d = elim (find_by_either arg d.state.clients) [
  | none ↦ ok (d, answer_no)
  | some n ↦ do
    after ← auth_client_action d.config m n.client.ip n.client.mac make_deauthenticated d.state
    ok (record d { state = after }, answer_yes)
]

-- `if (!change(arg) && !rule(arg)) write(fd, "Yes", 3); else write(fd, "No", 2);`
unfoldable pub change_and_rule :
    (Text → Config → Run (Config × ℤ)) → (Text → Script) → Text → Daemon → Run (Daemon × Answer)
change_and_rule change rule arg d = do
  (config, rc) ← change arg d.config
  let (shell, status) = rule arg d.state.shell in
      elim rc [
        | pos zero ↦ ok (
          record { config = config; state = record d.state { shell = shell } },
          yes_if (status == 0),
        )
        | pos (suc n) ↦ ok (record d { config = config }, answer_no)
        | negsuc n ↦ ok (record d { config = config }, answer_no)
      ]

unfoldable pub ndsctl_block : Marks → Text → Daemon → Run (Daemon × Answer)
unfolding change_and_rule
ndsctl_block m = change_and_rule (add_to blocked) (iptables_block_mac m)

pub ndsctl_unblock : Marks → Text → Daemon → Run (Daemon × Answer)
unfolding change_and_rule
ndsctl_unblock m = change_and_rule (remove_from blocked) (iptables_unblock_mac m)

pub ndsctl_allow : Text → Daemon → Run (Daemon × Answer)
unfolding change_and_rule
ndsctl_allow = change_and_rule (add_to allowed) iptables_allow_mac

pub ndsctl_unallow : Text → Daemon → Run (Daemon × Answer)
unfolding change_and_rule
ndsctl_unallow = change_and_rule (remove_from allowed) iptables_unallow_mac

pub ndsctl_trust : Marks → Text → Daemon → Run (Daemon × Answer)
unfolding change_and_rule
ndsctl_trust m = change_and_rule (add_to trusted) (iptables_trust_mac m)

pub ndsctl_untrust : Marks → Text → Daemon → Run (Daemon × Answer)
unfolding change_and_rule
ndsctl_untrust m = change_and_rule (remove_from trusted) (iptables_untrust_mac m)

-- `ndsctl_loglevel`, `ndsctl_password` and `ndsctl_username`: the argument is never NULL.
pub ndsctl_loglevel : (Text → ℤ) → Text → Daemon → Daemon × Answer
ndsctl_loglevel atoi arg d =
    let (config, rc) = set_log_level (atoi arg) d.config in
    (record d { config = config }, yes_if (rc == 0))

pub ndsctl_password : Text → Daemon → Daemon × Answer
ndsctl_password arg d =
    let (config, rc) = set_password (some arg) d.config in
    (record d { config = config }, yes_if (rc == 0))

pub ndsctl_username : Text → Daemon → Daemon × Answer
ndsctl_username arg d =
    let (config, rc) = set_username (some arg) d.config in
    (record d { config = config }, yes_if (rc == 0))

-- The size of the buffer that a request is read into, MAX_BUF.
abbrev pub max_buf : ℕ
max_buf = 4096

unfoldable pub has_nul : Text → Bool
has_nul [] = false
has_nul (c ∷ s) = (c == 0) || has_nul s

-- The argument of a handler, `request + k`, as a string. The buffer was cleared: what the request does not
-- fill is NUL. A request that fills it may have no NUL behind the argument, which is then read behind the buffer.
unfoldable pub argument : ℕ → Text → Run Text
unfolding has_nul
argument k request =
    if has_nul (drop k request) || ltb (length request) max_buf
    then ok (until_nul (drop k request))
    else fault

-- The tests of `thread_ndsctl_handler`, in order. `strncmp` looks at as many bytes as the word has.
pub dispatch : (Text → ℤ) → Marks → Outside → Text → Daemon → Run (Daemon × Answer)
unfolding ndsctl_auth ndsctl_deauth ndsctl_block ndsctl_unblock ndsctl_allow ndsctl_unallow
    ndsctl_trust ndsctl_untrust ndsctl_loglevel ndsctl_password ndsctl_username argument
dispatch atoi m o request d =
    if has_prefix request (codes "status")
    then ok (d, status_text)
    else if has_prefix request (codes "clients")
    then ok (d, clients_text)
    else if has_prefix request (codes "stop")
    then ok (d, stopped)
    else if has_prefix request (codes "block")
    then (argument 6 request >>= λ arg. ndsctl_block m arg d)
    else if has_prefix request (codes "unblock")
    then (argument 8 request >>= λ arg. ndsctl_unblock m arg d)
    else if has_prefix request (codes "allow")
    then (argument 6 request >>= λ arg. ndsctl_allow arg d)
    else if has_prefix request (codes "unallow")
    then (argument 8 request >>= λ arg. ndsctl_unallow arg d)
    else if has_prefix request (codes "trust")
    then (argument 6 request >>= λ arg. ndsctl_trust m arg d)
    else if has_prefix request (codes "untrust")
    then (argument 8 request >>= λ arg. ndsctl_untrust m arg d)
    else if has_prefix request (codes "auth")
    then (argument 5 request >>= λ arg. ndsctl_auth m o arg d)
    else if has_prefix request (codes "deauth")
    then (argument 7 request >>= λ arg. ndsctl_deauth m arg d)
    else if has_prefix request (codes "loglevel")
    then (argument 9 request >>= λ arg. ok (ndsctl_loglevel atoi arg d))
    else if has_prefix request (codes "password")
    then (argument 9 request >>= λ arg. ok (ndsctl_password arg d))
    else if has_prefix request (codes "username")
    then (argument 9 request >>= λ arg. ok (ndsctl_username arg d))
    else ok (d, unanswered)
