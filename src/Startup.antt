-- ===== src/Startup.antt =====
-- src/commandline.c and main of src/gateway.c: from the command line, the configuration file and the answer of
-- the server to the configuration with which the main loop starts.
pub mod Ready
use wifi_cat.Base.{
  ℕ, zero, suc, ◌≡◌, refl, sym, false, Option, none, some, List, [], ◌∷◌, ltb, length, arith, ◌==◌,
  if◌then◌else◌, if_both, ◌||◌,
}
use wifi_cat.Base.Int.{ℤ, pos, ltb_ℤ}
use wifi_cat.Base.Text.{Text, codes, text_eq}
use wifi_cat.Conf.{Config}
use wifi_cat.Conf.Init.{
  config_init, config_defaults, default_rulesets, config_validate, config_notnull, set_log_level,
}
use wifi_cat.Center.{Network}
use wifi_cat.Http.{Served, served, exited, faulted, hung, ◌>>=◌}
use wifi_cat.Remote.{Token, config_from_server}
use wifi_cat.Conf.Rulesets.{
  free_ip_init, add_ruleset_with, update_ruleset, add_ruleset, add_name, find_ruleset, update_first,
}
use wifi_cat.Conf.File.{config_read}
use wifi_cat.Conf.File.Options.{Outcome, goes_on, exits, faults}
use wifi_cat.Conf.File.Options.Accepted.{IsAccepted}
use wifi_cat.Conf.File.Options.Keeps.{Holds}
use wifi_cat.Conf.File.Sound.{Ended, ended, config_read-Ended}

-- One option, as `getopt` gives it: its letter and `optarg`. A file name that fills the 255 bytes of
-- `configfile` is left without its end, and is printed and opened next.
unfoldable pub apply_switch : (Text → ℤ) → ℕ × Option Text → Config → Outcome Config
apply_switch atoi (c, none) config =
    if c == b'f'
    then goes_on (record config { daemon = pos 0 })
    else if c == b's'
    then goes_on (record config { log_syslog = pos 1 })
    else if (c == b'c') || (c == b'w') || (c == b'd')
    then goes_on config
    else exits
apply_switch atoi (c, some optarg) config =
    if c == b'f'
    then goes_on (record config { daemon = pos 0 })
    else if c == b's'
    then goes_on (record config { log_syslog = pos 1 })
    else if c == b'c'
    then if ltb (length optarg) 255 then goes_on (record config { configfile = optarg }) else faults
    else if c == b'w'
    then goes_on (record config { ndsctl_sock = some optarg })
    else if c == b'd'
    then goes_on (set_log_level (atoi optarg) config).0
    else exits

-- `parse_commandline`, from what `getopt` gives call by call until it gives -1.
pub parse_commandline : (Text → ℤ) → List (ℕ × Option Text) → Config → Outcome Config
unfolding apply_switch
parse_commandline atoi [] config = goes_on config
parse_commandline atoi (o ∷ options) config = elim (apply_switch atoi o config) [
  | goes_on config' ↦ parse_commandline atoi options config'
  | exits ↦ exits
  | faults ↦ faults
]

-- `config_validate` after the file has been read: the program exits if a parameter is missing.
validated : Outcome Config → Outcome Config
validated (goes_on config) = elim (config_validate config) [ none ↦ exits | some c ↦ goes_on c ]
validated exits = exits
validated faults = faults

-- The file that the configuration names is read and validated. `none` means that the fuel ran out.
read_and_validate : (Text → Option Text) → Config → Option (Outcome Config)
unfolding validated
read_and_validate files config = elim (config_read (files config.configfile) config) [
  | none ↦ none
  | some o ↦ some (validated o)
]

-- `main` up to `config_validate`, from the options and what the files hold, by name.
pub read_settings :
    (Text → ℤ) → List (ℕ × Option Text) → (Text → Option Text) → Config → Option (Outcome Config)
unfolding parse_commandline read_and_validate
read_settings atoi options files config =
    elim (parse_commandline atoi options (config_init config)) [
      | goes_on config' ↦ read_and_validate files config'
      | exits ↦ some exits
      | faults ↦ some faults
    ]

-- What is found outside while the server is asked: the name service, jsmn, VERSION, the network of each attempt, and how
-- many lookups and attempts are waited for.
pub record Server : Type 0 where
  pub gethostbyname : Text → Option (List Text)
  pub jsmn_parse : Text → Option (List Token)
  pub version : Text
  pub networks : ℕ → Network
  pub patience : ℕ
  pub attempts : ℕ

-- `while(config_from_server()<0)`, on the number of attempts that are left, with that of the attempt.
pub ask_again : (Text → ℤ) → Server → ℕ → ℕ → Config → Served Config
ask_again atoi server zero k config = hung
ask_again atoi server (suc fuel) k config = do
  (config', rc) ←
      config_from_server server.gethostbyname atoi server.jsmn_parse (server.networks k)
        server.patience server.version config
  let rest = ask_again atoi server fuel (suc k) config' in
      if ltb_ℤ rc (pos 0) then rest else served config'

-- `main` from there to the start of the main loop. `client_list_init` and the signals change nothing of the
-- configuration.
pub with_server : (Text → ℤ) → Server → Config → Served Config
unfolding ask_again
with_server atoi server config = do
  config' ← ask_again atoi server server.attempts 0 config
  elim (free_ip_init config') [ none ↦ exited | some config'' ↦ served config'' ]

pub start :
    (Text → ℤ) → List (ℕ × Option Text) → (Text → Option Text) → Server → Config → Served Config
unfolding read_settings with_server
start atoi options files server config = elim (read_settings atoi options files config) [
  | none ↦ hung
  | some exits ↦ exited
  | some faults ↦ faulted
  | some (goes_on config') ↦ with_server atoi server config'
]

pub config_init-IsAccepted : (config : Config) → IsAccepted (config_init config)
unfolding config_init config_defaults default_rulesets add_ruleset_with update_ruleset add_ruleset
    add_name find_ruleset update_first text_eq codes
config_init-IsAccepted config = record {
  authenticated_blocked = λ e. ground arith;
  authenticated_trusted = λ e. ground arith;
  blocked_trusted = λ e. ground arith;
  authenticated_marks = λ e. ground arith;
  blocked_marks = λ e. ground arith;
  trusted_marks = λ e. ground arith;
  names = (refl, (refl, (refl, (refl, (refl, tt)))));
  rules = (tt, (tt, (tt, (tt, (tt, tt)))));
  trusted_twice = tt;
  blocked_twice = tt;
  allowed_twice = tt;
}

apply_switch-IsAccepted :
    (atoi : Text → ℤ) (o : ℕ × Option Text) (config : Config)
    → IsAccepted config
    → Holds IsAccepted (apply_switch atoi o config)
unfolding apply_switch set_log_level
apply_switch-IsAccepted atoi (c, none) config v = if_both (Holds IsAccepted) (c == b'f') v (
    if_both (Holds IsAccepted) (c == b's') v
      (if_both (Holds IsAccepted) ((c == b'c') || (c == b'w') || (c == b'd')) v tt))
apply_switch-IsAccepted atoi (c, some s) config v = if_both (Holds IsAccepted) (c == b'f') v (
    if_both (Holds IsAccepted) (c == b's') v (
      if_both (Holds IsAccepted) (c == b'c') (if_both (Holds IsAccepted) (ltb (length s) 255) v tt)
        (if_both (Holds IsAccepted) (c == b'w') v (if_both (Holds IsAccepted) (c == b'd') v tt))))

parse_commandline-IsAccepted :
    (atoi : Text → ℤ) (options : List (ℕ × Option Text)) (config : Config)
    → IsAccepted config
    → Holds IsAccepted (parse_commandline atoi options config)
unfolding parse_commandline
parse_commandline-IsAccepted atoi [] config v = v
parse_commandline-IsAccepted atoi (o ∷ options) config v =
    from (apply_switch atoi o config) (apply_switch-IsAccepted atoi o config v)
      (λ c w. parse_commandline-IsAccepted atoi options c w)
  where
    from :
        (r : Outcome Config)
        → Holds IsAccepted r
        → ((c : Config) → IsAccepted c → Holds IsAccepted (parse_commandline atoi options c))
        → Holds IsAccepted (elim r [
          | goes_on config' ↦ parse_commandline atoi options config'
          | exits ↦ exits
          | faults ↦ faults
        ])
    from (goes_on c) h rest = rest c h
    from exits h rest = tt
    from faults h rest = tt

-- What is known of a configuration that was validated.
pub record IsValid (config : Config) : Type 0 where
  pub accepted : IsAccepted config
  pub interface : (t : Text) × (config.gw_interface ≡ some t)
  pub server : (t : Text) × (config.auth_server ≡ some t)

-- How the reading of the settings ends.
pub data Settled : Option (Outcome Config) → Type 0 where
  settled : (o : Outcome Config) → Holds IsValid o → Settled (some o)

validated-IsValid : (o : Outcome Config) → Holds IsAccepted o → Holds IsValid (validated o)
unfolding validated config_validate config_notnull
validated-IsValid exits h = tt
validated-IsValid faults h = tt
validated-IsValid (goes_on config) v = from config.gw_interface config.auth_server refl refl
  where
    from :
        (interface server : Option Text)
        → config.gw_interface ≡ interface
        → config.auth_server ≡ server
        → Holds IsValid
            (elim (if config_notnull server (config_notnull interface false)
              then none
              else some config) [ none ↦ exits | some c ↦ goes_on c ])
    from none none there known = tt
    from none (some a) there known = tt
    from (some i) none there known = tt
    from (some i) (some a) there known = record {
      accepted = v;
      interface = (i, there);
      server = (a, known);
    }

read_and_validate-Settled :
    (files : Text → Option Text) (config : Config)
    → IsAccepted config
    → Settled (read_and_validate files config)
unfolding read_and_validate
read_and_validate-Settled files config v =
    from (config_read-Ended (files config.configfile) config v)
  where
    from :
        {r : Option (Outcome Config)}
        → Ended r
        → Settled (elim r [ none ↦ none | some o ↦ some (validated o) ])
    from (ended o h) = settled (validated o) (validated-IsValid o h)

-- What is read from the command line and the file comes to an end.
pub read_settings-Settled :
    (atoi : Text → ℤ) (options : List (ℕ × Option Text)) (files : Text → Option Text)
    (config : Config)
    → Settled (read_settings atoi options files config)
unfolding read_settings
read_settings-Settled atoi options files config =
    from (parse_commandline atoi options (config_init config)) (
      parse_commandline-IsAccepted atoi options (config_init config)
        (config_init-IsAccepted config))
  where
    from :
        (o : Outcome Config)
        → Holds IsAccepted o
        → Settled (elim o [
          | goes_on config' ↦ read_and_validate files config'
          | exits ↦ some exits
          | faults ↦ some faults
        ])
    from (goes_on c) v = read_and_validate-Settled files c v
    from exits v = settled exits tt
    from faults v = settled faults tt
