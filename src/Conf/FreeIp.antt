-- ===== src/Conf/FreeIp.antt =====
-- src/conf.c, `add_to_free_ip_list` and `add_to_free_domain_list`: the addresses that every client may reach.
use wifi_cat.Base.{
  ℕ, zero, suc, ◌≡◌, ◌≤◌, Bool, false, not, ◌||◌, List, [], ◌∷◌, Option, none, some, if◌then◌else◌,
  length, take, arith,
}
use wifi_cat.Base.Int.{ℤ, pos, negsuc}
use wifi_cat.Base.Text.{Text, text_eq}
use wifi_cat.Conf.{Config}
use wifi_cat.Conf.Formats.{check_ip_format}

unfoldable pub on_list : Text → List Text → Bool
on_list ip [] = false
on_list ip (p ∷ list) = text_eq p ip || on_list ip list

-- `add_to_free_ip_list`: at most 15 bytes of the text are kept.
unfoldable pub add_to_free_ip_list : Text → Config → Config × ℤ
unfolding on_list
add_to_free_ip_list possibleip config =
    let ip = take 15 possibleip in
    if not (check_ip_format possibleip)
    then (config, negsuc 0)
    else if on_list ip config.free_ip_list
    then (config, pos 1)
    else (record config { free_ip_list = ip ∷ config.free_ip_list }, pos 0)

-- The addresses that the resolver has for the domain, as texts; `i` have been done.
unfoldable pub add_resolved : List Text → ℕ → Config → Config × ℕ
unfolding add_to_free_ip_list
add_resolved [] i config = (config, i)
add_resolved (a ∷ addrs) i config = add_resolved addrs (suc i) (add_to_free_ip_list a config).0

-- `gethostbyname` is outside: what it resolves a domain to, if anything.
unfoldable pub add_to_free_domain_list : (Text → Option (List Text)) → Text → Config → Config × ℕ
unfolding add_resolved
add_to_free_domain_list gethostbyname domain config = elim (gethostbyname domain) [
  | none ↦ (config, 0)
  | some addrs ↦ add_resolved addrs 0 config
]

-- No text twice, and none longer than 15 bytes.
abbrev pub FreeIps : List Text → Type 0
FreeIps [] = Unit {0}
FreeIps (ip ∷ list) = ((length ip ≤ 15) × (on_list ip list ≡ false)) × FreeIps list

length-take_le : (n : ℕ) (s : Text) → length (take n s) ≤ n
length-take_le zero s = omega arith
length-take_le (suc n) [] = omega arith
length-take_le (suc n) (c ∷ s) = omega (arith, length-take_le n s)

pub add_to_free_ip_list-FreeIps :
    (s : Text) (config : Config)
    → FreeIps config.free_ip_list
    → FreeIps (add_to_free_ip_list s config).0.free_ip_list
unfolding add_to_free_ip_list
add_to_free_ip_list-FreeIps s config h = ground (arith, length-take_le 15 s)

add_resolved-FreeIps :
    (addrs : List Text) (i : ℕ) (config : Config)
    → FreeIps config.free_ip_list
    → FreeIps (add_resolved addrs i config).0.free_ip_list
unfolding add_resolved
add_resolved-FreeIps [] i config h = h
add_resolved-FreeIps (a ∷ addrs) i config h =
    add_resolved-FreeIps addrs (suc i) (add_to_free_ip_list a config).0
      (add_to_free_ip_list-FreeIps a config h)

-- Whatever a domain resolves to, the list of free addresses keeps its shape: no text twice, and each fits the 16
-- bytes that are allocated for it.
pub add_to_free_domain_list-FreeIps :
    (gethostbyname : Text → Option (List Text)) (domain : Text) (config : Config)
    → FreeIps config.free_ip_list
    → FreeIps (add_to_free_domain_list gethostbyname domain config).0.free_ip_list
unfolding add_to_free_domain_list
add_to_free_domain_list-FreeIps gethostbyname domain config h = from (gethostbyname domain)
  where
    from :
        (o : Option (List Text))
        → let r : Config × ℕ = elim o [
          | none ↦ (config, 0)
          | some addrs ↦ add_resolved addrs 0 config
        ] in
          FreeIps r.0.free_ip_list
    from none = h
    from (some addrs) = add_resolved-FreeIps addrs 0 config h
