-- ===== src/Conf/Mac.antt =====
-- src/conf.c, the lists of trusted, blocked and allowed MAC addresses: the check of an address, adding
-- and removing one, and reading a list of them from a line.
pub mod Laws
pub mod Relist
use wifi_cat.Base.{
  ℕ, zero, suc, ◌+◌, ◌-◌, Bool, true, false, not, ◌&&◌, ◌||◌, Option, none, some, List, [], ◌∷◌,
  ◌==◌, if◌then◌else◌, Run, ok, fault, ◌>>=◌,
}
use wifi_cat.Base.Int.{ℤ, pos, negsuc}
use wifi_cat.Base.Text.{Text, text_case_eq}
use wifi_cat.Conf.{Config}
use wifi_cat.Conf.Formats.{check_mac_format, mac_of}
use wifi_cat.Conf.Init.{mac_allow, mac_block}

unfoldable pub is_int : ℤ → ℤ → Bool
is_int (pos m) (pos n) = m == n
is_int (pos m) (negsuc n) = false
is_int (negsuc m) (pos n) = false
is_int (negsuc m) (negsuc n) = m == n

unfoldable pub is_listed : Text → List Text → Bool
is_listed mac [] = false
is_listed mac (p ∷ list) = text_case_eq p mac || is_listed mac list

unfoldable pub remove_mac : Text → List Text → List Text
remove_mac mac [] = []
remove_mac mac (p ∷ list) = if text_case_eq p mac then list else p ∷ remove_mac mac list

pub data MacList : Type 0 where
  trusted blocked allowed : MacList

unfoldable pub list_of : MacList → Config → List Text
list_of trusted config = config.trustedmaclist
list_of blocked config = config.blockedmaclist
list_of allowed config = config.allowedmaclist

unfoldable pub with_list : MacList → List Text → Config → Config
with_list trusted list config = record config { trustedmaclist = list }
with_list blocked list config = record config { blockedmaclist = list }
with_list allowed list config = record config { allowedmaclist = list }

-- The common part of the three functions that add: 1 where the address is on the list, in whatever
-- case, 0 where it has been put in front.
unfoldable pub add_mac : MacList → Text → Config → Run (Config × ℤ)
unfolding is_listed list_of with_list
add_mac l possiblemac config = elim (mac_of possiblemac) [
  | none ↦ fault
  | some mac ↦
      if is_listed mac (list_of l config)
      then ok (config, pos 1)
      else ok (with_list l (mac ∷ list_of l config) config, pos 0)
]

-- And of the three that remove: the first entry that matches.
unfoldable pub take_mac : MacList → Text → Config → Run (Config × ℤ)
unfolding is_listed remove_mac list_of with_list
take_mac l possiblemac config = elim (mac_of possiblemac) [
  | none ↦ fault
  | some mac ↦
      if is_listed mac (list_of l config)
      then ok (with_list l (remove_mac mac (list_of l config)) config, pos 0)
      else ok (config, negsuc 0)
]

abbrev refused : Config → Run (Config × ℤ)
refused config = ok (config, negsuc 0)

unfoldable pub add_to_trusted_mac_list : Text → Config → Run (Config × ℤ)
unfolding add_mac
add_to_trusted_mac_list s config =
    if not (check_mac_format s) then refused config else add_mac trusted s config

unfoldable pub add_to_blocked_mac_list : Text → Config → Run (Config × ℤ)
unfolding add_mac is_int
add_to_blocked_mac_list s config =
    if not (check_mac_format s)
    then refused config
    else if not (is_int mac_block config.macmechanism)
    then refused config
    else add_mac blocked s config

unfoldable pub add_to_allowed_mac_list : Text → Config → Run (Config × ℤ)
unfolding add_mac is_int
add_to_allowed_mac_list s config =
    if not (check_mac_format s)
    then refused config
    else if not (is_int mac_allow config.macmechanism)
    then refused config
    else add_mac allowed s config

unfoldable pub remove_from_trusted_mac_list : Text → Config → Run (Config × ℤ)
unfolding take_mac
remove_from_trusted_mac_list s config =
    if not (check_mac_format s) then refused config else take_mac trusted s config

unfoldable pub remove_from_blocked_mac_list : Text → Config → Run (Config × ℤ)
unfolding take_mac is_int
remove_from_blocked_mac_list s config =
    if not (check_mac_format s)
    then refused config
    else if not (is_int mac_block config.macmechanism)
    then refused config
    else take_mac blocked s config

unfoldable pub remove_from_allowed_mac_list : Text → Config → Run (Config × ℤ)
unfolding take_mac is_int
remove_from_allowed_mac_list s config =
    if not (check_mac_format s)
    then refused config
    else if not (is_int mac_allow config.macmechanism)
    then refused config
    else take_mac allowed s config

-- The three by name of the list.
unfoldable pub add_to : MacList → Text → Config → Run (Config × ℤ)
add_to trusted = add_to_trusted_mac_list
add_to blocked = add_to_blocked_mac_list
add_to allowed = add_to_allowed_mac_list

unfoldable pub remove_from : MacList → Text → Config → Run (Config × ℤ)
remove_from trusted = remove_from_trusted_mac_list
remove_from blocked = remove_from_blocked_mac_list
remove_from allowed = remove_from_allowed_mac_list

is_separator : ℕ → Bool
is_separator c = (c == b',') || (c == 32) || (c == 9)

grow : ℕ → List Text → List Text
grow c [] = (c ∷ []) ∷ []
grow c (t ∷ ts) = (c ∷ t) ∷ ts

-- The texts that `strsep(&ptr, ", \t")` gives, one after the other; some may be empty.
pub split : Text → List Text
unfolding is_separator grow
split [] = [] ∷ []
split (c ∷ s) = if is_separator c then [] ∷ split s else grow c (split s)

-- The loop of the three functions that read a list; the results of the additions are ignored.
pub add_each : MacList → List Text → Config → Run Config
unfolding add_to
add_each l [] config = ok config
add_each l ([] ∷ ts) config = add_each l ts config
add_each l ((c ∷ t) ∷ ts) config = do (config', rc) ← add_to l (c ∷ t) config; add_each l ts config'

unfoldable pub parse_trusted_mac_list : Text → Config → Run Config
unfolding add_each split
parse_trusted_mac_list ptr = add_each trusted (split ptr)

unfoldable pub parse_blocked_mac_list : Text → Config → Run Config
unfolding add_each split
parse_blocked_mac_list ptr = add_each blocked (split ptr)

unfoldable pub parse_allowed_mac_list : Text → Config → Run Config
unfolding add_each split
parse_allowed_mac_list ptr = add_each allowed (split ptr)
