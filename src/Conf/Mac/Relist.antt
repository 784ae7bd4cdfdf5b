-- ===== src/Conf/Mac/Relist.antt =====
-- src/conf.c, reading a list of MAC addresses: what it changes of the configuration.
use wifi_cat.Base.{◌≡◌, refl, subst, List, [], ◌∷◌, Run, ok, ◌>>=◌}
use wifi_cat.Base.Int.{ℤ}
use wifi_cat.Base.Text.{Text}
use wifi_cat.Conf.{Config}
use wifi_cat.Conf.Mac.{MacList, trusted, blocked, allowed, list_of, with_list, add_each}
use wifi_cat.Conf.Mac.Laws.{NoTwice, Added, add_refused, add_present, add_new, add_to-Added}

-- A result that is the configuration with another list, on which no address stands twice.
pub data Relisted (l : MacList) (config : Config) : Run Config → Type 0 where
  relisted : (list : List Text) → NoTwice list → Relisted l config (ok (with_list l list config))

list_of-with_list :
    (l : MacList) (list : List Text) (config : Config) → list_of l (with_list l list config) ≡ list
unfolding list_of with_list
list_of-with_list trusted list config = refl
list_of-with_list blocked list config = refl
list_of-with_list allowed list config = refl

with_list-with_list :
    (l : MacList) (list list' : List Text) (config : Config)
    → with_list l list' (with_list l list config) ≡ with_list l list' config
unfolding with_list
with_list-with_list trusted list list' config = refl
with_list-with_list blocked list list' config = refl
with_list-with_list allowed list list' config = refl

with_list_self : (l : MacList) (config : Config) → with_list l (list_of l config) config ≡ config
unfolding list_of with_list
with_list_self trusted config = refl
with_list_self blocked config = refl
with_list_self allowed config = refl

Relisted-again :
    (l : MacList) (list : List Text) (config : Config) (r : Run Config)
    → Relisted l (with_list l list config) r
    → Relisted l config r
Relisted-again l list config r (relisted list' h) =
    rw (with_list-with_list l list list' config) (relisted list' h)

unlisted :
    (l : MacList) (config : Config) → NoTwice (list_of l config) → Relisted l config (ok config)
unlisted l config h =
    subst (λ c. Relisted l config (ok c)) (with_list_self l config) (relisted (list_of l config) h)

pub add_each-Relisted :
    (l : MacList) (ts : List Text) (config : Config)
    → NoTwice (list_of l config)
    → Relisted l config (add_each l ts config)
unfolding add_each
add_each-Relisted l [] config h = unlisted l config h
add_each-Relisted l ([] ∷ ts) config h = add_each-Relisted l ts config h
add_each-Relisted l ((c ∷ t) ∷ ts) config h =
    from (λ config'. add_each-Relisted l ts config') (add_to-Added l (c ∷ t) config)
  where
    from :
        ((config' : Config)
          → NoTwice (list_of l config')
          → Relisted l config' (add_each l ts config'))
        → {r : Run (Config × ℤ)} → Added l (c ∷ t) config r
        → Relisted l config (r >>= λ (config', rc). add_each l ts config')
    from rest (add_refused out) = rest config h
    from rest (add_present mac usable scanned present) = rest config h
    from rest (add_new mac usable scanned absent) =
        let list : List Text = mac ∷ list_of l config in
        Relisted-again l list config _
          (rest (with_list l list config) (rw (list_of-with_list l list config) (absent, h)))
