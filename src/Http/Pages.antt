-- ===== src/Http/Pages.antt =====
-- src/http.c and util.c: the pages that the portal serves.
use wifi_cat.Base.{ℕ, ◌%◌, ◌/◌, ◌-◌, ◌*◌, ◌^◌, Option, none, some, List, [], ◌∷◌, ◌++◌, map}
use wifi_cat.Base.Int.{pos, to_int}
use wifi_cat.Base.Text.{Text, Piece, format, lit, str, dec, codes}
use wifi_cat.Conf.{Config}
use wifi_cat.Conf.Words.{lines_of, until_nul}
use wifi_cat.ClientList.{Client, ClientList}
use wifi_cat.Http.{
  Served, served, ◌>>=◌, nonnull, Call, set_response, add_header, output, add_variable, Web,
  AuthTarget,
}

-- A `char *` that may be NULL, printed by `%s`.
unfoldable pub or_null : Option Text → Piece
or_null none = lit "(null)"
or_null (some s) = str s

-- A file is handed on line by line.
pipe : Option Text → List Call
pipe none = []
pipe (some s) = map (λ line. output (until_nul line)) (lines_of s)

-- `imagesdir` and `pagesdir`, as absolute paths.
directories : Config → List Call
unfolding or_null
directories config =
    add_variable (codes "imagesdir") (some (format (lit "/" ∷ or_null config.imagesdir ∷ [])))
    ∷ add_variable (codes "pagesdir") (some (format (lit "/" ∷ or_null config.pagesdir ∷ [])))
    ∷ []

page_of : Config → Option Text → Text
page_of config page = format (or_null config.webroot ∷ lit "/" ∷ or_null page ∷ [])

-- `http_nodogsplash_serve_info`
pub serve_info : Web → Config → Text → Text → List Call
unfolding pipe directories page_of
serve_info web config title content =
    (add_variable (codes "gatewayname") config.gw_name
      ∷ add_variable (codes "version") (some web.version)
      ∷ add_variable (codes "title") (some title)
      ∷ add_variable (codes "content") (some content)
      ∷ directories config)
    ++ pipe (web.files (page_of config config.infoskelpage))

-- `http_callback_about`
pub callback_about : Web → Config → List Call
unfolding serve_info
callback_about web config =
    serve_info web config (codes "Nodogsplash Info")
      (format (lit "This is Nodogsplash version <b>" ∷ str web.version ∷ lit "</b>" ∷ []))

-- `http_nodogsplash_405`
pub not_allowed : List Call
not_allowed =
    set_response (codes "405 Method Not Allowed") ∷ output (codes "405 Method Not Allowed") ∷ []

-- `http_nodogsplash_redirect`
unfoldable pub redirect : Text → List Call
redirect url =
    set_response (codes "302 Found\n")
    ∷ add_header (format (lit "Location: http://" ∷ str url ∷ []))
    ∷ output (
        format (
          lit "<html><head></head><body><a href='"
          ∷ str url
          ∷ lit "'>Click here to continue to<br>"
          ∷ str url
          ∷ lit "</a></body></html>"
          ∷ []))
    ∷ []

-- `http_nodogsplash_redirect_remote_auth`
unfoldable pub redirect_remote_auth : Web → Config → AuthTarget → Client → Served (List Call)
unfolding or_null redirect
redirect_remote_auth web config target client = do
  redir ← nonnull target.redir
  token ← nonnull target.token
  served (
      redirect (
        format (
          or_null config.auth_server
          ∷ lit ":"
          ∷ dec (to_int config.auth_port)
          ∷ or_null config.auth_path
          ∷ lit "?uid="
          ∷ dec config.uid
          ∷ lit "&authaction="
          ∷ str (web.url_encode target.authaction)
          ∷ lit "&redir="
          ∷ str (web.url_encode redir)
          ∷ lit "&tok="
          ∷ str (web.url_encode token)
          ∷ lit "&mac="
          ∷ str (web.url_encode client.mac)
          ∷ [])))

-- `format_time`. `days` is an unsigned int, and so is its product with the seconds of a day.
pub record Clock : Type 0 where
  pub days : ℕ
  pub hours : ℕ
  pub minutes : ℕ
  pub seconds : ℕ

pub clock_of : ℕ → Clock
clock_of secs =
    let days = (secs / 86400) % 2 ^ 32 in
    let in_day = secs - (days * 86400) % 2 ^ 32 in
    let hours = (in_day / 3600) % 2 ^ 32 in
    let in_hour = in_day - (hours * 3600) % 2 ^ 32 in
    let minutes = (in_hour / 60) % 2 ^ 32 in
    record {
      days = days;
      hours = hours;
      minutes = minutes;
      seconds = (in_hour - (minutes * 60) % 2 ^ 32) % 2 ^ 32;
    }

pub format_time : ℕ → Text
unfolding clock_of
format_time secs =
    let t = clock_of secs in
    format (
      dec (pos t.days)
      ∷ lit "d "
      ∷ dec (pos t.hours)
      ∷ lit "h "
      ∷ dec (pos t.minutes)
      ∷ lit "m "
      ∷ dec (pos t.seconds)
      ∷ lit "s"
      ∷ [])

-- The variables of the splash page.
splash_variables : Web → Config → AuthTarget → Client → ClientList → Option Text → List Call
unfolding directories format_time
splash_variables web config target client clients error_msg =
    (add_variable (codes "error_msg") (elim error_msg [ none ↦ some [] | some msg ↦ some msg ])
      ∷ add_variable (codes "gatewayname") config.gw_name
      ∷ add_variable (codes "tok") target.token
      ∷ add_variable (codes "redir") target.redir
      ∷ add_variable (codes "authaction") (some target.authaction)
      ∷ add_variable (codes "denyaction") (some target.denyaction)
      ∷ add_variable (codes "authtarget") (some target.authtarget)
      ∷ add_variable (codes "clientip") (some client.ip)
      ∷ add_variable (codes "clientmac") (some client.mac)
      ∷ add_variable (codes "gatewaymac") config.gw_mac
      ∷ add_variable (codes "nclients") (some (format (dec (to_int clients.client_count) ∷ [])))
      ∷ add_variable (codes "maxclients") (some (format (dec config.maxclients ∷ [])))
      ∷ add_variable (codes "uptime") (some (format_time web.uptime))
      ∷ directories config)

-- `http_nodogsplash_serve_splash`
unfoldable pub serve_splash :
    Web → Config → AuthTarget → Client → ClientList → Option Text → Served (List Call)
unfolding splash_variables redirect_remote_auth serve_info page_of pipe
serve_splash web config target client clients error_msg = elim config.remote_auth_action [
  | some action ↦ redirect_remote_auth web config target client
  | none ↦
      let page = web.files (page_of config config.splashpage) in
      served (
        splash_variables web config target client clients error_msg ++ elim page [
          | none ↦
              serve_info web config (codes "Nodogsplash Error") (codes "Failed to open splash page")
          | some s ↦ pipe (some s)
        ])
]
