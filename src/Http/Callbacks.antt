-- ===== src/Http/Callbacks.antt =====
-- src/http.c: the callbacks that the web server calls for a request, and the check of a token by the
-- authentication server.
pub mod Laws
pub mod Keeps
use wifi_cat.Base.{
  ℕ, Bool, true, false, not, Option, none, some, List, [], ◌∷◌, ◌++◌, ◌==◌, if◌then◌else◌, take,
  drop, Run, ok, fault,
}
use wifi_cat.Base.Int.{ℤ, pos, negsuc, leb_ℤ}
use wifi_cat.Base.Text.{Text, Piece, codes, format, lit, str, dec, text_eq, has_prefix}
use wifi_cat.Conf.{Config}
use wifi_cat.Conf.Words.{until_nul, is_end}
use wifi_cat.Center.{resolve_host, http_get_request}
use wifi_cat.ClientList.{Ptr, Node, ClientList, client_list_find}
use wifi_cat.ClientList.Nodes.{node_at}
use wifi_cat.ClientList.Register.{client_list_add_client}
use wifi_cat.Firewall.Arp.{arp_get}
use wifi_cat.Iptables.{Marks}
use wifi_cat.Iptables.Access.{AuthAction, make_authenticated, make_deauthenticated, other_action}
use wifi_cat.Auth.{State, auth_client_action}
use wifi_cat.Http.{
  Served, served, exited, faulted, hung, ◌>>=◌, of_run, of_loop, strdup, nonnull, Request, Call,
  Web, AuthTarget, make_authtarget, decode_authtarget, make_redir,
}
use wifi_cat.Http.Pages.{or_null, serve_info, serve_splash, redirect, not_allowed}

-- `strstr(buf, "\r\n\r\n")`, and what stands behind.
unfoldable pub body_of : Text → Option Text
body_of [] = none
body_of (c ∷ s) =
    let rest = body_of s in
    if has_prefix (c ∷ s) (13 ∷ 10 ∷ 13 ∷ 10 ∷ []) then some (drop 3 s) else rest

-- The verdict of the answer. Without an empty line in it, the function returns no value: the caller
-- compares what happens to stand in its place.
unfoldable pub verdict : ℤ → Text → ℤ
unfolding body_of
verdict unset buf = elim (body_of (until_nul buf)) [
  | none ↦ unset
  | some result ↦ if text_eq result (codes "1") then pos 1 else pos 0
]

-- The query has 127 bytes at most.
unfoldable pub verify_query : Config → Text → Text → Text
verify_query config token mac =
    take 127 (
      format
        (lit "?uid=" ∷ dec config.uid ∷ lit "&token=" ∷ str token ∷ lit "&mac=" ∷ str mac ∷ []))

-- The answer of the server to the question about a token, if there is one.
unfoldable pub ask_server : Web → Config → Text → Text → Served (Option Text)
unfolding verify_query
ask_server web config request_token mac = do
  host ← nonnull config.auth_server
  found ← of_loop (resolve_host web.patience web.network host)
  elim found [
    | none ↦ served none
    | some ip ↦ of_loop (
        http_get_request web.network (take 15 ip) (format (or_null config.token_verify_path ∷ []))
          (verify_query config request_token mac) web.version 4096)
  ]

unfoldable pub judge : ℤ → Option Text → ℤ
unfolding verdict
judge unset none = negsuc 0
judge unset (some buf) = verdict unset buf

-- `token_verify`
unfoldable pub token_verify : Web → Config → Text → Text → Served ℤ
unfolding ask_server judge
token_verify web config request_token mac = do
  answer ← ask_server web config request_token mac
  served (judge web.unset answer)

-- The switch over the action.
unfoldable pub take_action :
    Web → Config → Marks → Text → Text → Text → AuthAction → State → Served (State × List Call)
take_action web config m ip mac redir make_authenticated s = do
  after ← of_run (auth_client_action config m ip mac make_authenticated s)
  served (after, redirect redir)
take_action web config m ip mac redir make_deauthenticated s = do
  after ← of_run (auth_client_action config m ip mac make_deauthenticated s)
  served (after, serve_info web config (codes "Nodogsplash Deny") (codes "Authentication revoked."))
take_action web config m ip mac redir (other_action k) s = served (s, [])

-- `if (token_verify(requesttoken, mac) <= 0)`
abbrev pub on_verdict : {A : Type 0} → ℤ → A → A → A
on_verdict rc refused granted = if leb_ℤ rc (pos 0) then refused else granted

-- The client that the search has found, if it has a token: the action is taken if the server agrees.
unfoldable pub on_client :
    Web
    → Config
    → Marks
    → Text
    → Text
    → Text
    → Text
    → AuthAction
    → State
    → Option Node
    → Served (State × List Call)
unfolding take_action
on_client web config m ip mac token redir action s none =
    served (
      s,
      serve_info web config (codes "Nodogsplash Error") (codes "You are not on the client list."),
    )
on_client web config m ip mac token redir action s (some n) = elim n.client.token [
  | none ↦ served (s, [])
  | some clienttoken ↦ do
    rc ← token_verify web config token mac
    on_verdict rc
        (served
          (s, serve_info web config (codes "Nodogsplash Error") (codes "Tokens do not match.")))
        (take_action web config m ip mac redir action s)
]

-- `http_nodogsplash_callback_action`
unfoldable pub callback_action :
    Web → Config → Marks → Request → AuthTarget → AuthAction → State → Served (State × List Call)
unfolding on_client
callback_action web config m r target action s = elim target.token [
  | none ↦ served (s, [])
  | some token ↦ elim target.redir [
    | none ↦ served (s, [])
    | some redir ↦ do
      found ← of_loop (arp_get web.outside.arp_table r.client_addr)
      elim found [
        | none ↦ served (s, [])
        | some mac ↦
            on_client web config m r.client_addr mac token redir action s
              (client_list_find r.client_addr mac s.clients)
      ]
  ]
]

-- `http_nodogsplash_callback_deny`
unfoldable pub callback_deny : Web → Config → Marks → Request → State → Served (State × List Call)
unfolding callback_action
callback_deny web config m r s = do
  target ← decode_authtarget web config r
  callback_action web config m r target make_deauthenticated s

-- `http_nodogsplash_add_client`
unfoldable pub add_client : Web → Config → Request → State → Served (Option Ptr × State)
add_client web config r s = do
  (p, clients) ←
      of_run (client_list_add_client config.maxclients web.outside r.client_addr s.clients)
  served (p, record s { clients = clients })

-- `http_nodogsplash_callback_auth`
unfoldable pub callback_auth : Web → Config → Marks → Request → State → Served (State × List Call)
unfolding callback_action add_client
callback_auth web config m r s = do
  (p, added) ← add_client web config r s
  elim p [
    | none ↦ served (added, [])
    | some addr ↦ do
      target ← decode_authtarget web config r
      callback_action web config m r target make_authenticated added
  ]

-- The client is sent to the authentication server or shown the splash page.
unfoldable pub greet : Web → Config → Request → State → Option Node → Served (State × List Call)
greet web config r s none = faulted
greet web config r s (some n) = do
  token ← strdup n.client.token
  let question = if is_end r.query then lit "" else lit "?" in
      let origurl = format (str r.host ∷ str r.path ∷ question ∷ str r.query ∷ []) in
      do
        target ← make_authtarget web config token (make_redir config origurl)
        calls ← serve_splash web config target n.client s.clients none
        served (s, calls)

-- `http_nodogsplash_first_contact`, to which the index and the 404 callback come down.
unfoldable pub first_contact : Web → Config → Request → State → Served (State × List Call)
unfolding add_client greet
first_contact web config r s = if not r.is_get then served (s, not_allowed) else do
  (p, added) ← add_client web config r s
  elim p [
    | none ↦ served (added, [])
    | some addr ↦ greet web config r added (node_at addr added.clients.first)
  ]
