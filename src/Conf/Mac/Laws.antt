-- ===== src/Conf/Mac/Laws.antt =====
-- src/conf.c, the lists of MAC addresses as sets that ignore case.
use wifi_cat.Base.{
  ◌≡◌, refl, inl, inr, Bool, true, false, ◌&&◌, some, List, [], ◌∷◌, if◌then◌else◌, Run, ok, ◌>>=◌,
  arith, Bool-cases,
}
use wifi_cat.Base.Int.{ℤ, pos, negsuc}
use wifi_cat.Base.Text.{Text, text_case_eq, text_case_eq_iff}
use wifi_cat.Conf.{Config}
use wifi_cat.Conf.Formats.{check_mac_format, mac_of, check_mac_format-mac_of}
use wifi_cat.Conf.Init.{mac_allow, mac_block}
use wifi_cat.Conf.Mac.{
  is_int, is_listed, remove_mac, MacList, trusted, blocked, allowed, list_of, with_list, add_mac,
  take_mac, add_to, remove_from, add_to_trusted_mac_list, add_to_blocked_mac_list,
  add_to_allowed_mac_list, remove_from_trusted_mac_list, remove_from_blocked_mac_list,
  remove_from_allowed_mac_list, add_each, split, parse_trusted_mac_list, parse_blocked_mac_list,
  parse_allowed_mac_list,
}

-- The address is well formed, and the list is in use.
pub is_usable : MacList → Text → Config → Bool
is_usable trusted s config = check_mac_format s
is_usable blocked s config = check_mac_format s && is_int mac_block config.macmechanism
is_usable allowed s config = check_mac_format s && is_int mac_allow config.macmechanism

-- No address is on the list twice, in whatever case.
abbrev pub NoTwice : List Text → Type 0
NoTwice [] = Unit {0}
NoTwice (p ∷ list) = (is_listed p list ≡ false) × NoTwice list

text_case_eq_refl : (s : Text) → text_case_eq s s ≡ true
text_case_eq_refl s = (text_case_eq_iff s s).1 refl

same_case : (p q mac : Text) → text_case_eq p mac ≡ true → text_case_eq q mac ≡ text_case_eq q p
unfolding text_case_eq
same_case p q mac e = rw ((text_case_eq_iff p mac).0 e) refl

is_listed-same :
    (p mac : Text) (list : List Text)
    → text_case_eq p mac ≡ true
    → is_listed mac list ≡ is_listed p list
unfolding is_listed
is_listed-same p mac [] e = refl
is_listed-same p mac (q ∷ list) e = ground (arith, is_listed-same p mac list, same_case p q mac e)

is_listed-remove :
    (mac q : Text) (list : List Text)
    → is_listed q list ≡ false
    → is_listed q (remove_mac mac list) ≡ false
unfolding is_listed remove_mac
is_listed-remove mac q [] h = refl
is_listed-remove mac q (p ∷ list) h = ground (arith, is_listed-remove mac q list)

NoTwice-remove : (mac : Text) (list : List Text) → NoTwice list → NoTwice (remove_mac mac list)
unfolding remove_mac
NoTwice-remove mac [] h = tt
NoTwice-remove mac (p ∷ list) h =
    ground (arith, NoTwice-remove mac list, is_listed-remove mac p list)

remove-gone :
    (mac : Text) (list : List Text) → NoTwice list → is_listed mac (remove_mac mac list) ≡ false
unfolding is_listed remove_mac
remove-gone mac [] h = refl
remove-gone mac (p ∷ list) h = elim (Bool-cases (text_case_eq p mac)) [
  | inl t ↦ ground (arith, is_listed-same p mac list t)
  | inr f ↦ ground (arith, remove-gone mac list)
]

add_to-add_mac :
    (l : MacList) (s : Text) (config : Config)
    → add_to l s config
      ≡ (if is_usable l s config then add_mac l s config else ok (config, negsuc 0))
unfolding add_to add_to_trusted_mac_list add_to_blocked_mac_list add_to_allowed_mac_list is_usable
add_to-add_mac trusted s config = ground arith
add_to-add_mac blocked s config = ground arith
add_to-add_mac allowed s config = ground arith

remove_from-take_mac :
    (l : MacList) (s : Text) (config : Config)
    → remove_from l s config
      ≡ (if is_usable l s config then take_mac l s config else ok (config, negsuc 0))
unfolding remove_from remove_from_trusted_mac_list remove_from_blocked_mac_list
    remove_from_allowed_mac_list is_usable
remove_from-take_mac trusted s config = ground arith
remove_from-take_mac blocked s config = ground arith
remove_from-take_mac allowed s config = ground arith

is_usable-mac_of :
    (l : MacList) (s : Text) (config : Config)
    → is_usable l s config ≡ true
    → (mac : Text) × (mac_of s ≡ some mac)
unfolding is_usable
is_usable-mac_of trusted s config e = check_mac_format-mac_of s e
is_usable-mac_of blocked s config e = check_mac_format-mac_of s (ground arith)
is_usable-mac_of allowed s config e = check_mac_format-mac_of s (ground arith)

list_of-with_list :
    (l : MacList) (list : List Text) (config : Config) → list_of l (with_list l list config) ≡ list
unfolding list_of with_list
list_of-with_list trusted list config = refl
list_of-with_list blocked list config = refl
list_of-with_list allowed list config = refl

with_list-list_of :
    (l : MacList) (list : List Text) (config : Config)
    → with_list l (list_of l config) (with_list l list config) ≡ config
unfolding list_of with_list
with_list-list_of trusted list config = refl
with_list-list_of blocked list config = refl
with_list-list_of allowed list config = refl

is_usable-with_list :
    (l : MacList) (s : Text) (list : List Text) (config : Config)
    → is_usable l s (with_list l list config) ≡ is_usable l s config
unfolding is_usable with_list
is_usable-with_list trusted s list config = refl
is_usable-with_list blocked s list config = refl
is_usable-with_list allowed s list config = refl

-- How an addition ends: refused, found there already, or put in front.
pub data Added (l : MacList) (s : Text) (config : Config) : Run (Config × ℤ) → Type 0 where
  add_refused : is_usable l s config ≡ false → Added l s config (ok (config, negsuc 0))
  add_present :
      (mac : Text)
      → is_usable l s config ≡ true
      → mac_of s ≡ some mac
      → is_listed mac (list_of l config) ≡ true
      → Added l s config (ok (config, pos 1))
  add_new :
      (mac : Text)
      → is_usable l s config ≡ true
      → mac_of s ≡ some mac
      → is_listed mac (list_of l config) ≡ false
      → Added l s config (ok (with_list l (mac ∷ list_of l config) config, pos 0))

pub add_to-Added : (l : MacList) (s : Text) (config : Config) → Added l s config (add_to l s config)
unfolding add_mac
add_to-Added l s config = elim (Bool-cases (is_usable l s config)) [
  | inr out ↦ rw (add_to-add_mac l s config, out) (add_refused out)
  | inl usable ↦
      let (mac, scanned) = is_usable-mac_of l s config usable in
      elim (Bool-cases (is_listed mac (list_of l config))) [
        | inl present ↦
            rw (add_to-add_mac l s config, usable, add_mac, scanned, present)
              (add_present mac usable scanned present)
        | inr absent ↦
            rw (add_to-add_mac l s config, usable, add_mac, scanned, absent)
              (add_new mac usable scanned absent)
      ]
]

-- How a removal ends: refused, not found, or taken out.
pub data Removed (l : MacList) (s : Text) (config : Config) : Run (Config × ℤ) → Type 0 where
  remove_refused : is_usable l s config ≡ false → Removed l s config (ok (config, negsuc 0))
  remove_absent :
      (mac : Text)
      → is_usable l s config ≡ true
      → mac_of s ≡ some mac
      → is_listed mac (list_of l config) ≡ false
      → Removed l s config (ok (config, negsuc 0))
  remove_found :
      (mac : Text)
      → is_usable l s config ≡ true
      → mac_of s ≡ some mac
      → is_listed mac (list_of l config) ≡ true
      → Removed l s config (ok (with_list l (remove_mac mac (list_of l config)) config, pos 0))

pub remove_from-Removed :
    (l : MacList) (s : Text) (config : Config) → Removed l s config (remove_from l s config)
unfolding take_mac
remove_from-Removed l s config = elim (Bool-cases (is_usable l s config)) [
  | inr out ↦ rw (remove_from-take_mac l s config, out) (remove_refused out)
  | inl usable ↦
      let (mac, scanned) = is_usable-mac_of l s config usable in
      elim (Bool-cases (is_listed mac (list_of l config))) [
        | inl present ↦
            rw (remove_from-take_mac l s config, usable, take_mac, scanned, present)
              (remove_found mac usable scanned present)
        | inr absent ↦
            rw (remove_from-take_mac l s config, usable, take_mac, scanned, absent)
              (remove_absent mac usable scanned absent)
      ]
]

-- What holds of a result that keeps the addresses of a list apart.
pub data Keeps (l : MacList) : Run (Config × ℤ) → Type 0 where
  keeps : (config : Config) (rc : ℤ) → NoTwice (list_of l config) → Keeps l (ok (config, rc))

pub add_to-Keeps :
    (l : MacList) (s : Text) (config : Config)
    → NoTwice (list_of l config)
    → Keeps l (add_to l s config)
add_to-Keeps l s config h = from (add_to-Added l s config)
  where
    from : {r : Run (Config × ℤ)} → Added l s config r → Keeps l r
    from (add_refused out) = keeps config _ h
    from (add_present mac usable scanned present) = keeps config _ h
    from (add_new mac usable scanned absent) =
        keeps _ _ (rw (list_of-with_list l (mac ∷ list_of l config) config) (absent, h))

pub remove_from-Keeps :
    (l : MacList) (s : Text) (config : Config)
    → NoTwice (list_of l config)
    → Keeps l (remove_from l s config)
remove_from-Keeps l s config h = from (remove_from-Removed l s config)
  where
    from : {r : Run (Config × ℤ)} → Removed l s config r → Keeps l r
    from (remove_refused out) = keeps config _ h
    from (remove_absent mac usable scanned absent) = keeps config _ h
    from (remove_found mac usable scanned present) = keeps _ _ (
        rw (list_of-with_list l (remove_mac mac (list_of l config)) config)
          (NoTwice-remove mac (list_of l config) h))

take_mac-with_list :
    (l : MacList) (s mac : Text) (config : Config)
    → mac_of s ≡ some mac
    → take_mac l s (with_list l (mac ∷ list_of l config) config) ≡ ok (config, pos 0)
unfolding take_mac is_listed remove_mac
take_mac-with_list l s mac config e = ground (
  arith,
  e,
  list_of-with_list l (mac ∷ list_of l config) config,
  text_case_eq_refl mac,
  with_list-list_of l (mac ∷ list_of l config) config,
)

-- An address that has been added anew is removed by the removal, and the configuration is then as it was.
pub add_to-remove_from :
    (l : MacList) (s : Text) (config config' : Config)
    → add_to l s config ≡ ok (config', pos 0)
    → remove_from l s config' ≡ ok (config, pos 0)
add_to-remove_from l s config config' e = from (add_to-Added l s config) e
  where
    from :
        {r : Run (Config × ℤ)}
        → Added l s config r
        → r ≡ ok (config', pos 0)
        → remove_from l s config' ≡ ok (config, pos 0)
    from (add_refused out) e = cc
    from (add_present mac usable scanned present) e = cc
    from (add_new mac usable scanned absent) e =
        let new = with_list l (mac ∷ list_of l config) config in
        let same : new ≡ config' = cc in
        rw
          (
            ← same,
            remove_from-take_mac l s new,
            is_usable-with_list l s (mac ∷ list_of l config) config,
            usable,
          )
          (take_mac-with_list l s mac config scanned)

-- After a removal that reports success, another one of the same address finds nothing, if no address was on the
-- list twice.
pub remove_from-gone :
    (l : MacList) (s : Text) (config config' : Config)
    → NoTwice (list_of l config)
    → remove_from l s config ≡ ok (config', pos 0)
    → remove_from l s config' ≡ ok (config', negsuc 0)
remove_from-gone l s config config' h e = from (remove_from-Removed l s config) e
  where
    from :
        {r : Run (Config × ℤ)}
        → Removed l s config r
        → r ≡ ok (config', pos 0)
        → remove_from l s config' ≡ ok (config', negsuc 0)
    from (remove_refused out) e = cc
    from (remove_absent mac usable scanned absent) e = cc
    from (remove_found mac usable scanned present) e =
        let list = remove_mac mac (list_of l config) in
        let same : with_list l list config ≡ config' = cc in
        rw
          (
            ← same,
            remove_from-take_mac l s (with_list l list config),
            is_usable-with_list l s list config,
            usable,
          )
          (unfold take_mac in
            ground (
              arith,
              scanned,
              list_of-with_list l list config,
              remove-gone mac (list_of l config) h,
            ))

-- What a list of addresses leaves on a MAC list.
pub data Parsed (l : MacList) : Run Config → Type 0 where
  parsed : (config : Config) → NoTwice (list_of l config) → Parsed l (ok config)

-- Reading a list of addresses always ends without a fault, and leaves no address twice.
pub add_each-Parsed :
    (l : MacList) (ts : List Text) (config : Config)
    → NoTwice (list_of l config)
    → Parsed l (add_each l ts config)
unfolding add_each
add_each-Parsed l [] config h = parsed config h
add_each-Parsed l ([] ∷ ts) config h = add_each-Parsed l ts config h
add_each-Parsed l ((c ∷ t) ∷ ts) config h =
    from (λ config'. add_each-Parsed l ts config') (add_to-Keeps l (c ∷ t) config h)
  where
    from :
        ((config' : Config) → NoTwice (list_of l config') → Parsed l (add_each l ts config'))
        → {r : Run (Config × ℤ)} → Keeps l r
        → Parsed l (r >>= λ (config', rc). add_each l ts config')
    from rest (keeps config' rc h') = rest config' h'

-- Each of the three functions that read a list of addresses ends without a fault on every text, and
-- leaves no address twice on its list if there was none before.
pub parse_mac_list-Parsed :
    (ptr : Text) (config : Config)
    → NoTwice config.trustedmaclist
    → NoTwice config.blockedmaclist
    → NoTwice config.allowedmaclist
    → Parsed trusted (parse_trusted_mac_list ptr config)
      × (Parsed blocked (parse_blocked_mac_list ptr config)
          × Parsed allowed (parse_allowed_mac_list ptr config))
unfolding parse_trusted_mac_list parse_blocked_mac_list parse_allowed_mac_list list_of
parse_mac_list-Parsed ptr config t b a = (
  add_each-Parsed trusted (split ptr) config t,
  (add_each-Parsed blocked (split ptr) config b, add_each-Parsed allowed (split ptr) config a),
)
