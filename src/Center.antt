-- ===== src/Center.antt =====
-- src/centerserver.c: the name of the authentication server is resolved, the server is connected to, and
-- sent a GET request over HTTP.
pub mod Bounds
use wifi_cat.Base.{
  ℕ, zero, suc, ◌+◌, ◌-◌, Bool, true, false, Option, none, some, List, [], ◌∷◌, ◌++◌, length, take,
  if◌then◌else◌,
}
use wifi_cat.Base.Text.{Text, codes, format, Piece, lit, str}
use wifi_cat.Conf.Words.{until_nul}

-- What a round of `select` and `read` gives. The bytes that are there may be more than fit.
pub data Event : Type 0 where
  incoming : Text → Event
  read_fails times_out select_fails : Event

-- The network: how the k-th lookup of a name ends, whether the k-th attempt to connect does, and what
-- comes back for a request, round by round.
pub record Network : Type 0 where
  pub lookup : ℕ → Text → Option Text
  pub connects : ℕ → Bool
  pub events : Text → ℕ → Event

-- The loop over `popular_servers` from the k-th lookup on: whether one is found, and the next lookup.
unfoldable pub any_popular : (ℕ → Text → Option Text) → ℕ → List Text → Bool × ℕ
any_popular lookup k [] = (false, k)
any_popular lookup k (server ∷ servers) = elim (lookup k server) [
  | some ip ↦ (true, suc k)
  | none ↦ any_popular lookup (suc k) servers
]

abbrev pub popular_servers : List Text
popular_servers = codes "www.baidu.com" ∷ codes "www.qq.com" ∷ []

-- `_resolve_host` on fuel: `none` means that it ran out. -1 is `some none`.
unfoldable pub resolve_from : ℕ → (ℕ → Text → Option Text) → ℕ → Text → Option (Option Text)
unfolding any_popular
resolve_from zero lookup k hostname = none
resolve_from (suc fuel) lookup k hostname =
    let (found, next) = any_popular lookup (suc k) popular_servers in
    let again = resolve_from fuel lookup next hostname in
    elim (lookup k hostname) [
      | some ip ↦ some (some (take 16 ip))
      | none ↦ if found then again else some none
    ]

-- `resolve_host`
unfoldable pub resolve_host : ℕ → Network → Text → Option (Option Text)
unfolding resolve_from
resolve_host fuel net hostname = resolve_from fuel net.lookup 0 hostname

-- `connect_auth_server`: whether one of the attempts that are left connects.
unfoldable pub attempts : ℕ → (ℕ → Bool) → ℕ → Bool
attempts zero connects k = false
attempts (suc rounds) connects k = if connects k then true else attempts rounds connects (suc k)

unfoldable pub connect_auth_server : Network → Bool
unfolding attempts
connect_auth_server net = attempts 5 net.connects 0

-- The request, in a buffer of `buf_len` bytes of which the last two are not written.
unfoldable pub request_of : Text → Text → Text → Text → ℕ → Text
request_of ip path query version buf_len = take (buf_len - 2) (
    format (
      lit "GET "
      ∷ str path
      ∷ str query
      ∷ lit " HTTP/1.0\r\nUser-Agent: WiFiCat "
      ∷ str version
      ∷ lit "\r\nHost: "
      ∷ str ip
      ∷ lit "\r\n\r\n"
      ∷ []))

unfoldable pub extend : Text → Option (Option Text) → Option (Option Text)
extend got (some (some more)) = some (some (got ++ more))
extend got (some none) = some none
extend got none = none

-- The loop that reads the answer, with room for `room` bytes. A read of nothing ends it, which a read
-- into a full buffer always is.
unfoldable pub read_response : ℕ → (ℕ → Event) → ℕ → ℕ → Option (Option Text)
unfolding extend
read_response zero events k room = none
read_response (suc fuel) events k room = elim (events k) [
  | read_fails ↦ some none
  | times_out ↦ some none
  | select_fails ↦ some none
  | incoming bytes ↦
      let got = take room bytes in
      let rest = read_response fuel events (suc k) (room - length got) in
      elim got [ [] ↦ some (some []) | c ∷ s ↦ extend (c ∷ s) rest ]
]

-- `http_get_request`. Each round but the last takes at least one byte of the buffer, so it has as many
-- rounds as there are bytes. What is read of the buffer afterwards is a C string.
unfoldable pub http_get_request : Network → Text → Text → Text → Text → ℕ → Option (Option Text)
unfolding read_response
http_get_request net ip path query version buf_len =
    if connect_auth_server net
    then read_response (suc buf_len) (net.events (request_of ip path query version buf_len)) 0
        (buf_len - 1)
    else some none
