-- ===== src/Http/Passwords.antt =====
-- src/http.c: the check of user name and password, the limits of a voucher, and the test of its letters.
pub mod Laws
use wifi_cat.Base.{
  ℕ, Bool, true, false, not, ◌&&◌, ◌||◌, Option, none, some, List, [], ◌∷◌, if◌then◌else◌, ◌==◌,
  leb,
}
use wifi_cat.Base.Int.{ℤ, pos, negsuc, ltb_ℤ, add_int}
use wifi_cat.Base.Text.{Text, text_eq, is_digit}
use wifi_cat.Base.Scan.{i32}
use wifi_cat.Conf.{Config}
use wifi_cat.Conf.Mac.{is_int}
use wifi_cat.ClientList.{Client, Node, client_list_find, update_client}
use wifi_cat.Firewall.Arp.{arp_get}
use wifi_cat.Auth.{State}
use wifi_cat.Http.{Served, served, faulted, ◌>>=◌, of_loop, Request, Web, AuthTarget}

-- `!flag || given && !strcmp(expected, given)`
unfoldable pub agrees : ℤ → Option Text → Option Text → Served Bool
agrees wanted expected given = if is_int wanted (pos 0) then served true else elim given [
  | none ↦ served false
  | some g ↦ elim expected [ none ↦ faulted | some e ↦ served (text_eq e g) ]
]

abbrev pub with_attempts : ℤ → Client → Client
with_attempts k c = record c { attempts = k }

-- The attempt is counted before anything is compared.
unfoldable pub attempt : Config → AuthTarget → State → Option Node → Served (State × ℕ)
unfolding agrees
attempt config target s none = served (s, 0)
attempt config target s (some n) =
    let attempts = add_int n.client.attempts (pos 1) in
    let counted : State = record s {
      clients = update_client n.addr (with_attempts attempts) s.clients;
    } in
    if ltb_ℤ config.passwordattempts attempts then served (counted, 0) else do
      name ← agrees config.usernameauth config.username target.username
      if not name then served (counted, 0) else do
        word ← agrees config.passwordauth config.password target.password
        served (counted, if word then 1 else 0)

-- `http_nodogsplash_check_userpass`
unfoldable pub check_userpass : Web → Config → Request → AuthTarget → State → Served (State × ℕ)
unfolding attempt
check_userpass web config r target s =
    if is_int config.passwordauth (pos 0) && is_int config.usernameauth (pos 0)
    then served (s, 1)
    else do
      found ← of_loop (arp_get web.outside.arp_table r.client_addr)
      elim found [
        | none ↦ served (s, 0)
        | some mac ↦ attempt config target s (client_list_find r.client_addr mac s.clients)
      ]

abbrev or_zero : Option ℤ → ℤ
or_zero none = pos 0
or_zero (some n) = n

-- `data_extract_bw`: the seconds, and the client with the limits. The numbers after the first that cannot be
-- read keep the value 0.
pub data_extract_bw : Text → Client → Client × ℤ
data_extract_bw buff client =
    let (first, s1) = i32 buff in
    let (second, s2) = i32 s1 in
    let third : Option ℤ = elim second [ none ↦ none | some n ↦ (i32 s2).0 ] in
    let failed : Client × ℤ =
      (record client { download_limit = pos 0; upload_limit = pos 0 }, pos 0) in
    elim first [
      | none ↦ failed
      | some seconds ↦
          let upload = or_zero second in
          let download = or_zero third in
          if ltb_ℤ seconds (pos 1) || ltb_ℤ upload (pos 0) || ltb_ℤ download (pos 0)
          then failed
          else (record client { download_limit = download; upload_limit = upload }, seconds)
    ]

-- `http_isAlphaNum`
pub is_alpha_num : Text → Bool
is_alpha_num [] = true
is_alpha_num (c ∷ s) =
    (is_digit c || (leb b'a' c && leb c b'z') || (leb b'A' c && leb c b'Z')) && is_alpha_num s
