-- ===== src/Firewall/StateNames.antt =====
-- src/firewall.c, `fw_connection_state_as_string`: the names of the connection states.
use wifi_cat.Base.{ℕ, ◌≡◌, ◌==◌, ◌||◌, Bool, Option, none, some, if◌then◌else◌, arith}
use wifi_cat.Base.Text.{Text, text_eq, codes}
use wifi_cat.Iptables.{Marks}

-- `fw_connection_state_as_string`
pub fw_connection_state_as_string : Marks → ℕ → Text
fw_connection_state_as_string m mark =
    if mark == m.preauthenticated
    then codes "Preauthenticated"
    else if mark == m.authenticated
    then codes "Authenticated"
    else if mark == m.trusted
    then codes "Trusted"
    else if mark == m.blocked
    then codes "Blocked"
    else codes "ERROR: unrecognized mark"

-- The mark that a name stands for.
pub mark_of : Marks → Text → Option ℕ
mark_of m name =
    if text_eq name (codes "Preauthenticated")
    then some m.preauthenticated
    else if text_eq name (codes "Authenticated")
    then some m.authenticated
    else if text_eq name (codes "Trusted")
    then some m.trusted
    else if text_eq name (codes "Blocked")
    then some m.blocked
    else none

pub is_known : Marks → ℕ → Bool
is_known m mark =
    mark == m.preauthenticated
    || (mark == m.authenticated || (mark == m.trusted || mark == m.blocked))

-- The name tells the mark, if the mark is one of the four, and that it is none of them otherwise.
pub mark_of-fw_connection_state_as_string :
    (m : Marks) (mark : ℕ)
    → mark_of m (fw_connection_state_as_string m mark)
      ≡ (if is_known m mark then some mark else none)
unfolding mark_of fw_connection_state_as_string is_known text_eq codes
mark_of-fw_connection_state_as_string m mark = ground arith
