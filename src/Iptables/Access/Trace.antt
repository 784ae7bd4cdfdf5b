-- ===== src/Iptables/Access/Trace.antt =====
-- src/fw_iptables.c, `iptables_fw_access`: the commands that it runs for a client, without traffic control.
use wifi_cat.Base.{◌+◌, ◌≡◌, List, [], ◌∷◌}
use wifi_cat.Base.Int.{pos}
use wifi_cat.Base.Text.{Text, Piece, lit, str, hex, format, codes}
use wifi_cat.Shell.{Shell, ◌|=◌}
use wifi_cat.Shell.Trace.{NeverBusy, after, Runs, Runs-nothing, Runs-iptables, Runs-|=}
use wifi_cat.Conf.{Config}
use wifi_cat.ClientList.{Client}
use wifi_cat.Iptables.{Marks}
use wifi_cat.Iptables.Access.{
  make_authenticated, make_deauthenticated, authenticate_rules, deauthenticate_rules,
  iptables_fw_access,
}

-- The mark of a client: its slot, from 10 on, before the digits of the authenticated mark.
abbrev client_mark : Marks → Client → List Piece
client_mark m c = lit " 0x" ∷ hex (c.idx + 10) ∷ hex m.authenticated ∷ []

-- The three commands for a client, with the flag that puts a rule in or takes it out: mark what it sends,
-- mark what it is sent, and let that through.
pub client_rules : Text → Marks → Client → List Text
client_rules flag m c =
    format (
      lit "iptables -t mangle "
      ∷ str flag
      ∷ lit " ndsOUT -s "
      ∷ str c.ip
      ∷ lit " -m mac --mac-source "
      ∷ str c.mac
      ∷ lit " -j MARK "
      ∷ str m.markop
      ∷ client_mark m c)
    ∷ format (
        lit "iptables -t mangle "
        ∷ str flag
        ∷ lit " ndsINC -d "
        ∷ str c.ip
        ∷ lit " -j MARK "
        ∷ str m.markop
        ∷ client_mark m c)
    ∷ format (
        lit "iptables -t mangle " ∷ str flag ∷ lit " ndsINC -d " ∷ str c.ip ∷ lit " -j ACCEPT" ∷ [])
    ∷ []

module _ (m : Marks) (c : Client) where
  Runs-authenticate_rules : Runs (authenticate_rules m c) (client_rules (codes "-A") m c)
  unfolding authenticate_rules client_rules format codes
  Runs-authenticate_rules =
      Runs-|= (Runs-|= (Runs-|= Runs-nothing (Runs-iptables _)) (Runs-iptables _)) (Runs-iptables _)

  Runs-deauthenticate_rules : Runs (deauthenticate_rules m c) (client_rules (codes "-D") m c)
  unfolding deauthenticate_rules client_rules format codes
  Runs-deauthenticate_rules =
      Runs-|= (Runs-|= (Runs-|= Runs-nothing (Runs-iptables _)) (Runs-iptables _)) (Runs-iptables _)

  -- Without traffic control, and where no command meets the status that is retried, whatever the other
  -- replies, authenticating a client runs exactly its three commands with `-A`, in order, and
  -- deauthenticating it runs the same three with `-D`.
  pub iptables_fw_access-client_rules :
      (config : Config) (w : Shell)
      → config.traffic_control ≡ pos 0
      → NeverBusy w
      → ((iptables_fw_access config m make_authenticated c w).0
          ≡ after (client_rules (codes "-A") m c) w)
        × ((iptables_fw_access config m make_deauthenticated c w).0
            ≡ after (client_rules (codes "-D") m c) w)
  unfolding iptables_fw_access ◌|=◌
  iptables_fw_access-client_rules config w off free =
      rw off (Runs-authenticate_rules.runs w free, Runs-deauthenticate_rules.runs w free)
