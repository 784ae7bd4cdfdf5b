-- ===== src/Remote.antt =====
-- src/conf.c, `config_from_server`: the settings that the authentication server gives, as JSON. The
-- tokens are those of the tokenizer jsmn, which is an argument.
pub mod Sound
use wifi_cat.Base.{
  ℕ, zero, suc, ◌+◌, ◌-◌, Bool, true, false, not, ◌&&◌, Option, none, some, List, [], ◌∷◌, length,
  take, drop, ltb, ◌==◌, if◌then◌else◌, Run, ok, fault,
}
use wifi_cat.Base.Int.{ℤ, pos, negsuc}
use wifi_cat.Base.Text.{Text, codes, format, lit, dec, text_eq}
use wifi_cat.Conf.{Config}
use wifi_cat.Conf.Words.{until_nul}
use wifi_cat.Conf.Mac.{MacList, trusted, blocked, add_to}
use wifi_cat.Conf.FreeIp.{add_to_free_ip_list, add_to_free_domain_list}
use wifi_cat.Center.{Network, resolve_host, http_get_request}
use wifi_cat.Http.{Served, served, exited, faulted, hung, ◌>>=◌, of_run, of_loop, nonnull}
use wifi_cat.Http.Pages.{or_null}
use wifi_cat.Http.Callbacks.{body_of}

pub data JsonType : Type 0 where
  json_primitive json_object json_array json_string : JsonType

-- A token: where it starts and ends in the text, and how many items it has.
pub record Token : Type 0 where
  pub kind : JsonType
  pub start : ℕ
  pub end : ℕ
  pub size : ℕ

abbrev pub is_string : JsonType → Bool
is_string json_string = true
is_string other = false

abbrev pub is_array : JsonType → Bool
is_array json_array = true
is_array other = false

abbrev pub is_object : JsonType → Bool
is_object json_object = true
is_object other = false

-- `strncpy(..., json + t.start, t.end - t.start)`: a negative length is a copy without end.
pub slice : Text → Token → Served Text
slice json t =
    if ltb t.end t.start then faulted else served (take (t.end - t.start) (drop t.start json))

-- `!jsoneq(json, &t, key)`
pub json_eq : Text → Token → Text → Bool
json_eq json t key =
    is_string t.kind
    && (t.start + length key == t.end)
    && text_eq (take (length key) (drop t.start json)) key

-- `tmp`, of which the first `cleared` bytes have been cleared. A text that fills them is left without its
-- end, or written behind the buffer.
pub buffered : ℕ → Text → Token → Served Text
unfolding slice
buffered cleared json t = do s ← slice json t; if ltb (length s) cleared then served s else faulted

-- What a key sets. A text takes the place of the old one, which is freed; a path may still be the literal that
-- `config_init` stores, and to free that is a fault.
pub data Setting : Type 0 where
  text_setting : (Text → Config → Config) → Setting
  freeing_setting : (Config → Bool) → (Text → Config → Config) → Setting
  number_setting : (ℤ → Config → Config) → Setting
  list_setting : ℕ → (Text → Config → Served Config) → Setting
  no_setting : Setting

-- The results of the additions are ignored.
pub add_mac_to : MacList → Text → Config → Served Config
add_mac_to l s config = do (config', rc) ← of_run (add_to l s config); served config'

-- The chain of comparisons.
pub setting_of : (Text → Option (List Text)) → Text → Token → Setting
unfolding json_eq add_mac_to
setting_of gethostbyname json t =
    if json_eq json t (codes "authPath")
    then freeing_setting (λ c. c.auth_path_freeable)
        (λ s c. record c { auth_path = some s; auth_path_freeable = true })
    else if json_eq json t (codes "configPath")
    then freeing_setting (λ c. c.config_path_freeable)
        (λ s c. record c { config_path = some s; config_path_freeable = true })
    else if json_eq json t (codes "netTrafficPath")
    then freeing_setting (λ c. c.net_traffic_path_freeable)
        (λ s c. record c { net_traffic_path = some s; net_traffic_path_freeable = true })
    else if json_eq json t (codes "gatewayName")
    then text_setting (λ s c. record c { gw_name = some s })
    else if json_eq json t (codes "redirectURL")
    then text_setting (λ s c. record c { redirect_url = some s })
    else if json_eq json t (codes "maxClients")
    then number_setting (λ n c. record c { maxclients = n })
    else if json_eq json t (codes "clientIdleTimeout")
    then number_setting (λ n c. record c { clienttimeout = n })
    else if json_eq json t (codes "clientForceTimeout")
    then number_setting (λ n c. record c { clientforceout = n })
    else if json_eq json t (codes "trafficControl")
    then number_setting (λ n c. record c { traffic_control = n })
    else if json_eq json t (codes "downloadLimit")
    then number_setting (λ n c. record c { download_limit = n })
    else if json_eq json t (codes "uploadLimit")
    then number_setting (λ n c. record c { upload_limit = n })
    else if json_eq json t (codes "freeIPList")
    then list_setting 32 (λ s c. served (add_to_free_ip_list s c).0)
    else if json_eq json t (codes "freeDomainList")
    then list_setting 128 (λ s c. served (add_to_free_domain_list gethostbyname s c).0)
    else if json_eq json t (codes "blockedMACList")
    then list_setting 32 (add_mac_to blocked)
    else if json_eq json t (codes "trustedMACList")
    then list_setting 32 (add_mac_to trusted)
    else no_setting

-- The loop over the items of a list: `n` are left. A read behind the tokens is a fault.
pub each_item : ℕ → (Text → Config → Served Config) → Text → ℕ → List Token → Config → Served Config
unfolding buffered
each_item cleared add json zero ts config = served config
each_item cleared add json (suc n) [] config = faulted
each_item cleared add json (suc n) (t ∷ ts) config = do
  s ← buffered cleared json t
  config' ← add s config
  each_item cleared add json n ts config'

-- What one key does with the token behind it and those that follow: the configuration, and the tokens
-- that are left; or `none`, where the function returns -4.
pub apply_setting :
    (Text → ℤ) → Text → Setting → List Token → Config → Served (Config × Option (List Token))
unfolding each_item
apply_setting atoi json no_setting ts config = served (config, none)
apply_setting atoi json _ [] config = faulted
apply_setting atoi json (text_setting set) (v ∷ ts) config = do
  s ← slice json v
  served (set s config, some ts)
apply_setting atoi json (freeing_setting can_free set) (v ∷ ts) config =
    if not (can_free config) then faulted else do s ← slice json v; served (set s config, some ts)
apply_setting atoi json (number_setting set) (v ∷ ts) config = do
  s ← buffered 32 json v
  served (set (atoi s) config, some ts)
apply_setting atoi json (list_setting cleared add) (v ∷ ts) config =
    if not (is_array v.kind) then served (config, none) else do
      config' ← each_item cleared add json v.size ts config
      served (config', some (drop v.size ts))

-- The loop over the keys, on fuel.
pub keys_loop :
    (Text → Option (List Text)) → (Text → ℤ) → Text → ℕ → List Token → Config → Served (Config × ℤ)
unfolding setting_of apply_setting
keys_loop gethostbyname atoi json zero ts config = hung
keys_loop gethostbyname atoi json (suc fuel) [] config = served (config, pos 1)
keys_loop gethostbyname atoi json (suc fuel) (t ∷ ts) config = do
  (config', rest) ← apply_setting atoi json (setting_of gethostbyname json t) ts config
  elim rest [
    | none ↦ served (config', negsuc 3)
    | some ts' ↦ keys_loop gethostbyname atoi json fuel ts' config'
  ]

-- The tokens of the answer; the first is the object itself. There are as many rounds as tokens.
pub from_tokens :
    (Text → Option (List Text))
    → (Text → ℤ)
    → Text
    → Option (List Token)
    → Config
    → Served (Config × ℤ)
unfolding keys_loop
from_tokens gethostbyname atoi json none config = served (config, negsuc 3)
from_tokens gethostbyname atoi json (some []) config = served (config, negsuc 3)
from_tokens gethostbyname atoi json (some (t ∷ ts)) config =
    if is_object t.kind
    then keys_loop gethostbyname atoi json (suc (length ts)) ts config
    else served (config, negsuc 3)

-- The body of an answer, if it has one.
unfoldable pub from_answer :
    (Text → Option (List Text))
    → (Text → ℤ)
    → (Text → Option (List Token))
    → Text
    → Config
    → Served (Config × ℤ)
unfolding from_tokens
from_answer gethostbyname atoi jsmn_parse buf config = elim (body_of (until_nul buf)) [
  | none ↦ served (config, negsuc 2)
  | some json ↦ from_tokens gethostbyname atoi json (jsmn_parse json) config
]

-- With the answer of the server, if there is one; and before, with its address.
unfoldable pub on_reply :
    (Text → Option (List Text))
    → (Text → ℤ)
    → (Text → Option (List Token))
    → Config
    → Option Text
    → Served (Config × ℤ)
unfolding from_answer
on_reply gethostbyname atoi jsmn_parse config none = served (config, negsuc 1)
on_reply gethostbyname atoi jsmn_parse config (some buf) =
    from_answer gethostbyname atoi jsmn_parse buf config

-- The query has 31 bytes at most.
unfoldable pub on_address :
    (Text → Option (List Text))
    → (Text → ℤ)
    → (Text → Option (List Token))
    → Network
    → Text
    → Config
    → Option Text
    → Served (Config × ℤ)
unfolding on_reply
on_address gethostbyname atoi jsmn_parse net version config none = served (config, negsuc 0)
on_address gethostbyname atoi jsmn_parse net version config (some ip) = do
  answer ← of_loop (
      http_get_request net (take 15 ip) (format (or_null config.config_path ∷ []))
        (take 31 (format (lit "?uid=" ∷ dec config.uid ∷ []))) version 8192)
  on_reply gethostbyname atoi jsmn_parse config answer

-- `config_from_server`; `patience` lookups of the server's name are waited for.
unfoldable pub config_from_server :
    (Text → Option (List Text))
    → (Text → ℤ)
    → (Text → Option (List Token))
    → Network
    → ℕ
    → Text
    → Config
    → Served (Config × ℤ)
unfolding on_address
config_from_server gethostbyname atoi jsmn_parse net patience version config = do
  host ← nonnull config.auth_server
  found ← of_loop (resolve_host patience net host)
  on_address gethostbyname atoi jsmn_parse net version config found
