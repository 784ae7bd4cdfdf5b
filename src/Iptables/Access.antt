-- ===== src/Iptables/Access.antt =====
-- src/fw_iptables.c, `iptables_fw_access`, and src/auth.h: the rules that mark one client's packets.
pub mod Trace
use wifi_cat.Base.{ℕ, ◌+◌, Bool, ◌&&◌, [], ◌∷◌, if◌then◌else◌, ◌==◌, not}
use wifi_cat.Base.Int.{ℤ, pos, ltb_ℤ, pos_part, neg_part}
use wifi_cat.Base.Text.{lit, str, hex}
use wifi_cat.Shell.{Script, ◌|=◌, nothing, iptables_do_command}
use wifi_cat.Conf.{Config}
use wifi_cat.ClientList.{Client}
use wifi_cat.Tc.{tc_attach_client, tc_detach_client, imq_name}
use wifi_cat.Iptables.{Marks, failed}

pub data AuthAction : Type 0 where
  make_deauthenticated make_authenticated : AuthAction
  other_action : ℕ → AuthAction

-- An `int` used as a truth value.
abbrev pub is_true : ℤ → Bool
is_true n = not (pos_part n + neg_part n == 0)

-- The client's own limits count only if both are set.
access_limits : Config → Client → ℤ × ℤ
access_limits config c =
    if ltb_ℤ (pos 0) c.download_limit && ltb_ℤ (pos 0) c.upload_limit
    then (c.download_limit, c.upload_limit)
    else (config.download_limit, config.upload_limit)

-- The three rules of a client, put in.
authenticate_rules : Marks → Client → Script
authenticate_rules m c =
    nothing
    |= iptables_do_command (
        lit "-t mangle -A ndsOUT -s "
        ∷ str c.ip
        ∷ lit " -m mac --mac-source "
        ∷ str c.mac
        ∷ lit " -j MARK "
        ∷ str m.markop
        ∷ lit " 0x"
        ∷ hex (c.idx + 10)
        ∷ hex m.authenticated
        ∷ [])
    |= iptables_do_command (
        lit "-t mangle -A ndsINC -d "
        ∷ str c.ip
        ∷ lit " -j MARK "
        ∷ str m.markop
        ∷ lit " 0x"
        ∷ hex (c.idx + 10)
        ∷ hex m.authenticated
        ∷ [])
    |= iptables_do_command (lit "-t mangle -A ndsINC -d " ∷ str c.ip ∷ lit " -j ACCEPT" ∷ [])

-- And taken out.
deauthenticate_rules : Marks → Client → Script
deauthenticate_rules m c =
    nothing
    |= iptables_do_command (
        lit "-t mangle -D ndsOUT -s "
        ∷ str c.ip
        ∷ lit " -m mac --mac-source "
        ∷ str c.mac
        ∷ lit " -j MARK "
        ∷ str m.markop
        ∷ lit " 0x"
        ∷ hex (c.idx + 10)
        ∷ hex m.authenticated
        ∷ [])
    |= iptables_do_command (
        lit "-t mangle -D ndsINC -d "
        ∷ str c.ip
        ∷ lit " -j MARK "
        ∷ str m.markop
        ∷ lit " 0x"
        ∷ hex (c.idx + 10)
        ∷ hex m.authenticated
        ∷ [])
    |= iptables_do_command (lit "-t mangle -D ndsINC -d " ∷ str c.ip ∷ lit " -j ACCEPT" ∷ [])

pub iptables_fw_access : Config → Marks → AuthAction → Client → Script
unfolding access_limits authenticate_rules deauthenticate_rules
iptables_fw_access config m make_authenticated c =
    let limits = access_limits config c in
    let down = imq_name config.download_imq in
    let up = imq_name config.upload_imq in
    authenticate_rules m c
    |= (if is_true config.traffic_control
        then tc_attach_client down limits.0 up limits.1 c.idx m.authenticated
        else nothing)
iptables_fw_access config m make_deauthenticated c =
    let down = imq_name config.download_imq in
    let up = imq_name config.upload_imq in
    deauthenticate_rules m c
    |= (if is_true config.traffic_control then tc_detach_client down up c.idx else nothing)
iptables_fw_access config m (other_action n) c = λ w. (w, failed)
