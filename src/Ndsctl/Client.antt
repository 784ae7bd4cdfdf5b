-- ===== src/Ndsctl/Client.antt =====
-- src/ndsctl.c: the program that sends a request to the daemon.
pub mod Sent
use wifi_cat.Base.{
  ℕ, zero, suc, ◌+◌, ◌-◌, ◌*◌, ◌≤◌, ◌≡◌, refl, ap, Bool, true, false, not, ◌&&◌, ◌||◌, Option, none,
  some, List, [], ◌∷◌, ◌++◌, take, drop, length, length-append, ◌==◌, if◌then◌else◌, arith, Run, ok,
  ◌∙◌, leb, Bool-cases, inl, inr,
}
use wifi_cat.Base.Int.{ℤ}
use wifi_cat.Base.Text.{Text, codes, text_eq, has_prefix}
use wifi_cat.Conf.Words.{until_nul}
use wifi_cat.Iptables.{Marks}
use wifi_cat.ClientList.Register.{Outside}
use wifi_cat.Ndsctl.{
  Daemon, Answer, status_text, clients_text, stopped, dispatch, ndsctl_block, ndsctl_unblock,
  ndsctl_allow, ndsctl_unallow, ndsctl_trust, ndsctl_untrust, ndsctl_auth, ndsctl_deauth,
  ndsctl_loglevel, ndsctl_password, ndsctl_username,
}
use wifi_cat.Ndsctl.Read.{is_clean, terminator, nuls, take-all, read_request, read_request-whole}

-- The values of `command`.
pub data Command : Type 0 where
  status_command clients_command stop_command block_command unblock_command allow_command
        unallow_command trust_command untrust_command auth_command deauth_command loglevel_command
        password_command username_command :
      Command

-- `s_config` of src/ndsctl.h.
pub record CtlConfig : Type 0 where
  pub socket : Text
  pub command : Command
  pub param : Option Text

-- The options, as `getopt` gives them; `none` is an exit.
pub socket_of : List (ℕ × Option Text) → Text → Option Text
socket_of [] socket = some socket
socket_of ((c, none) ∷ options) socket = if c == b's' then socket_of options socket else none
socket_of ((c, some optarg) ∷ options) socket = if c == b's' then socket_of options optarg else none

-- A command with a parameter, which must be there.
needs_param : Text → Command → List Text → Option CtlConfig
needs_param socket command [] = none
needs_param socket command (p ∷ args) =
    some (record { socket = socket; command = command; param = some p })

alone : Text → Command → Option CtlConfig
alone socket command = some (record { socket = socket; command = command; param = none })

pub command_line : Text → List Text → Option CtlConfig
unfolding needs_param alone
command_line socket [] = none
command_line socket (word ∷ args) =
    if text_eq word (codes "status")
    then alone socket status_command
    else if text_eq word (codes "clients")
    then alone socket clients_command
    else if text_eq word (codes "stop")
    then alone socket stop_command
    else if text_eq word (codes "block")
    then needs_param socket block_command args
    else if text_eq word (codes "unblock")
    then needs_param socket unblock_command args
    else if text_eq word (codes "allow")
    then needs_param socket allow_command args
    else if text_eq word (codes "unallow")
    then needs_param socket unallow_command args
    else if text_eq word (codes "trust")
    then needs_param socket trust_command args
    else if text_eq word (codes "untrust")
    then needs_param socket untrust_command args
    else if text_eq word (codes "auth")
    then needs_param socket auth_command args
    else if text_eq word (codes "deauth")
    then needs_param socket deauth_command args
    else if text_eq word (codes "loglevel")
    then needs_param socket loglevel_command args
    else if text_eq word (codes "password")
    then needs_param socket password_command args
    else if text_eq word (codes "username")
    then needs_param socket username_command args
    else none

-- `init_config`, then `parse_commandline`.
pub parse_commandline : List (ℕ × Option Text) → List Text → Option CtlConfig
unfolding socket_of command_line
parse_commandline options args = elim (socket_of options (codes "/tmp/ndsctl.sock")) [
  | none ↦ none
  | some socket ↦ command_line socket args
]

-- The word that is sent for a command.
pub word_of : Command → Text
word_of status_command = codes "status"
word_of clients_command = codes "clients"
word_of stop_command = codes "stop"
word_of block_command = codes "block"
word_of unblock_command = codes "unblock"
word_of allow_command = codes "allow"
word_of unallow_command = codes "unallow"
word_of trust_command = codes "trust"
word_of untrust_command = codes "untrust"
word_of auth_command = codes "auth"
word_of deauth_command = codes "deauth"
word_of loglevel_command = codes "loglevel"
word_of password_command = codes "password"
word_of username_command = codes "username"

-- What ndsctl_print and ndsctl_action send.
pub message_of : Command → Option Text → Text
unfolding word_of
message_of command none = take 27 (word_of command) ++ terminator
message_of command (some p) = take 123 (word_of command ++ (b' ' ∷ p)) ++ terminator

-- The handler of the daemon that a command is meant for, and its argument.
pub handle : (Text → ℤ) → Marks → Outside → Command → Text → Daemon → Run (Daemon × Answer)
handle atoi m o status_command p d = ok (d, status_text)
handle atoi m o clients_command p d = ok (d, clients_text)
handle atoi m o stop_command p d = ok (d, stopped)
handle atoi m o block_command p d = ndsctl_block m p d
handle atoi m o unblock_command p d = ndsctl_unblock m p d
handle atoi m o allow_command p d = ndsctl_allow p d
handle atoi m o unallow_command p d = ndsctl_unallow p d
handle atoi m o trust_command p d = ndsctl_trust m p d
handle atoi m o untrust_command p d = ndsctl_untrust m p d
handle atoi m o auth_command p d = ndsctl_auth m o p d
handle atoi m o deauth_command p d = ndsctl_deauth m p d
handle atoi m o loglevel_command p d = ok (ndsctl_loglevel atoi p d)
handle atoi m o password_command p d = ok (ndsctl_password p d)
handle atoi m o username_command p d = ok (ndsctl_username p d)
