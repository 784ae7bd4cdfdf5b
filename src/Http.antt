-- ===== src/Http.antt =====
-- src/http.c and http.h: what a request to the portal's web server carries, what the callbacks hand to the
-- web server, and how they end.
pub mod Pages
pub mod Callbacks
pub mod Passwords
use wifi_cat.Base.{
  ℕ, ◌%◌, ◌/◌, ◌-◌, ◌*◌, ◌^◌, Bool, Option, none, some, List, [], ◌∷◌, ◌++◌, Run, ok, fault,
}
use wifi_cat.Base.Int.{ℤ, pos, to_int}
use wifi_cat.Base.Text.{Text, format, lit, str, dec, codes}
use wifi_cat.Conf.{Config}
use wifi_cat.Conf.File.Options.{Outcome, goes_on, exits, faults}
use wifi_cat.Center.{Network}
use wifi_cat.ClientList.Register.{Outside}

-- How a callback ends: it returns, it calls exit(), it reads what is not there, or it never returns.
pub data Served (A : Type 0) : Type 0 where
  served : A → Served A
  exited faulted hung : Served A

infixl 5 ◌>>=◌
abbrev pub ◌>>=◌ : {A B : Type 0} → Served A → (A → Served B) → Served B
served a >>= f = f a
exited >>= f = exited
faulted >>= f = faulted
hung >>= f = hung

-- A result of the client list, and one of a loop on fuel.
abbrev pub of_run : {A : Type 0} → Run A → Served A
of_run (ok a) = served a
of_run fault = faulted

abbrev pub of_loop : {A : Type 0} → Option A → Served A
of_loop none = hung
of_loop (some a) = served a

-- `safe_strdup` exits on NULL; reading a string through NULL is a fault.
abbrev pub strdup : Option Text → Served Text
strdup none = exited
strdup (some s) = served s

abbrev pub nonnull : Option Text → Served Text
nonnull none = faulted
nonnull (some s) = served s

-- The parts of a request that the callbacks read. A variable is looked up by its name.
pub record Request : Type 0 where
  pub client_addr : Text
  pub is_get : Bool
  pub host : Text
  pub path : Text
  pub query : Text
  pub variable : Text → Option Text

-- The calls that a callback makes of the web server for a request, in order.
pub data Call : Type 0 where
  set_response add_header output : Text → Call
  add_variable : Text → Option Text → Call

-- What the callbacks find outside: the encoding of URLs of the web server, what the files hold, VERSION,
-- the seconds since the start, the network, how many lookups of a name are waited for, and what the caller of a
-- function that returns no value takes for its value.
pub record Web : Type 0 where
  pub url_encode : Text → Text
  pub files : Text → Option Text
  pub version : Text
  pub uptime : ℕ
  pub network : Network
  pub patience : ℕ
  pub unset : ℤ
  pub outside : Outside

-- `t_auth_target`. A field that is set by `http_nodogsplash_make_authtarget` is a text.
pub record AuthTarget : Type 0 where
  pub ip : Text
  pub port : ℤ
  pub authdir : Text
  pub denydir : Text
  pub authaction : Text
  pub denyaction : Text
  pub authtarget : Text
  pub token : Option Text
  pub redir : Option Text
  pub voucher : Option Text
  pub username : Option Text
  pub password : Option Text
  pub info : Option Text

-- `http://%s:%d/%s/`
unfoldable pub action_url : Text → ℤ → Text → Text
action_url ip port dir =
    format (lit "http://" ∷ str ip ∷ lit ":" ∷ dec port ∷ lit "/" ∷ str dir ∷ lit "/" ∷ [])

-- `http_nodogsplash_make_authtarget`
unfoldable pub make_authtarget : Web → Config → Text → Text → Served AuthTarget
unfolding action_url
make_authtarget web config token redir = do
  ip ← strdup config.gw_address
  authdir ← strdup config.authdir
  denydir ← strdup config.denydir
  let port = to_int config.gw_port in
      let authaction = action_url ip port authdir in
      served (record {
        ip = ip;
        port = port;
        authdir = authdir;
        denydir = denydir;
        authaction = authaction;
        denyaction = action_url ip port denydir;
        authtarget = format (
            str authaction
            ∷ lit "?redir="
            ∷ str (web.url_encode redir)
            ∷ lit "&tok="
            ∷ str (web.url_encode token)
            ∷ []);
        token = some token;
        redir = some redir;
        voucher = none;
        username = none;
        password = none;
        info = none;
      })

-- `var && var->value ? var->value : ""`
unfoldable pub or_empty : Option Text → Text
or_empty none = []
or_empty (some s) = s

-- `http_nodogsplash_decode_authtarget`
unfoldable pub decode_authtarget : Web → Config → Request → Served AuthTarget
unfolding or_empty
decode_authtarget web config r = do
  target ←
      make_authtarget web config (or_empty (r.variable (codes "tok")))
        (or_empty (r.variable (codes "redir")))
  served (record target {
    username = r.variable (codes "nodoguser");
    password = r.variable (codes "nodogpass");
    info = r.variable (codes "info");
    voucher = r.variable (codes "voucher");
  })

-- `http_nodogsplash_make_redir`
unfoldable pub make_redir : Config → Text → Text
make_redir config origurl = elim config.redirect_url [ none ↦ origurl | some url ↦ url ]
