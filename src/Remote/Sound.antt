-- ===== src/Remote/Sound.antt =====
-- src/conf.c, `config_from_server`: what an answer of the server can do to the configuration.
use wifi_cat.Base.{
  ℕ, zero, suc, ◌≤◌, ◌<◌, ◌≡◌, Bool, not, Option, none, some, List, [], ◌∷◌, length, drop, if_both,
  arith, Run,
}
use wifi_cat.Base.Int.{ℤ, negsuc}
use wifi_cat.Base.Text.{Text, codes}
use wifi_cat.Conf.{Config}
use wifi_cat.Conf.Words.{until_nul}
use wifi_cat.Conf.Mac.{MacList, trusted, blocked, allowed, with_list, list_of}
use wifi_cat.Conf.Mac.Laws.{NoTwice, Added, add_refused, add_present, add_new, add_to-Added}
use wifi_cat.Conf.FreeIp.{add_to_free_ip_list, add_resolved, add_to_free_domain_list, on_list}
use wifi_cat.Conf.Formats.{check_ip_format}
use wifi_cat.Conf.File.Options.Accepted.{IsAccepted, lists-IsAccepted}
use wifi_cat.Http.{Served, served, faulted, ◌>>=◌, of_run}
use wifi_cat.Http.Callbacks.{body_of}
use wifi_cat.Remote.{
  Token, is_array, is_object, slice, json_eq, buffered, Setting, text_setting, freeing_setting,
  number_setting, list_setting, no_setting, add_mac_to, setting_of, each_item, apply_setting,
  keys_loop, from_tokens, from_answer,
}

-- A result that is a value with a property, or a fault: it neither exits nor hangs.
pub data Safely {A : Type 0} (P : A → Type 0) : Served A → Type 0 where
  safely : (a : A) → P a → Safely P (served a)
  faulty : Safely P faulted

Safely-bind :
    {A B : Type 0} (P : A → Type 0) (Q : B → Type 0) (r : Served A) (f : A → Served B)
    → Safely P r
    → ((a : A) → P a → Safely Q (f a))
    → Safely Q (r >>= f)
Safely-bind P Q _ f (safely a p) k = k a p
Safely-bind P Q _ f faulty k = faulty

abbrev IsAny : {A : Type 0} → A → Type 0
IsAny a = Unit {0}

slice-Safely : (json : Text) (t : Token) → Safely IsAny (slice json t)
unfolding slice
slice-Safely json t = if_both (Safely IsAny) _ faulty (safely _ tt)

buffered-Safely : (cleared : ℕ) (json : Text) (t : Token) → Safely IsAny (buffered cleared json t)
unfolding buffered
buffered-Safely cleared json t =
    Safely-bind IsAny IsAny (slice json t) _ (slice-Safely json t)
      (λ s any. if_both (Safely IsAny) _ (safely s tt) faulty)

with_list-IsAccepted :
    (l : MacList) (macs : List Text) (c : Config)
    → IsAccepted c
    → NoTwice macs
    → IsAccepted (with_list l macs c)
unfolding with_list
with_list-IsAccepted trusted macs c v h =
    lists-IsAccepted c v macs c.blockedmaclist c.allowedmaclist h v.blocked_twice v.allowed_twice
with_list-IsAccepted blocked macs c v h =
    lists-IsAccepted c v c.trustedmaclist macs c.allowedmaclist v.trusted_twice h v.allowed_twice
with_list-IsAccepted allowed macs c v h =
    lists-IsAccepted c v c.trustedmaclist c.blockedmaclist macs v.trusted_twice v.blocked_twice h

IsAccepted-NoTwice : (l : MacList) (c : Config) → IsAccepted c → NoTwice (list_of l c)
unfolding list_of
IsAccepted-NoTwice trusted c v = v.trusted_twice
IsAccepted-NoTwice blocked c v = v.blocked_twice
IsAccepted-NoTwice allowed c v = v.allowed_twice

length-drop_le : (n : ℕ) (ts : List Token) → length (drop n ts) ≤ length ts
length-drop_le zero ts = omega arith
length-drop_le (suc n) [] = omega arith
length-drop_le (suc n) (t ∷ ts) = omega (arith, length-drop_le n ts)

module _ (base : Config) where
  -- An accepted configuration, with the interface and the server of the one at the start.
  abbrev pub IsFrom : Config → Type 0
  IsFrom c =
      IsAccepted c × (c.gw_interface ≡ base.gw_interface) × (c.auth_server ≡ base.auth_server)

  -- A setting that leaves what the firewall relies on alone.
  pub data IsSafe : Setting → Type 0 where
    safe_text :
        (set : Text → Config → Config)
        → ((s : Text) (c : Config) → IsFrom c → IsFrom (set s c))
        → IsSafe (text_setting set)
    safe_freeing :
        (can_free : Config → Bool) (set : Text → Config → Config)
        → ((s : Text) (c : Config) → IsFrom c → IsFrom (set s c))
        → IsSafe (freeing_setting can_free set)
    safe_number :
        (set : ℤ → Config → Config)
        → ((n : ℤ) (c : Config) → IsFrom c → IsFrom (set n c))
        → IsSafe (number_setting set)
    safe_list :
        (cleared : ℕ) (add : Text → Config → Served Config)
        → ((s : Text) (c : Config) → IsFrom c → Safely IsFrom (add s c))
        → IsSafe (list_setting cleared add)
    safe_none : IsSafe no_setting

  with_list-IsFrom :
      (l : MacList) (macs : List Text) (c : Config)
      → IsFrom c
      → NoTwice macs
      → IsFrom (with_list l macs c)
  unfolding with_list
  with_list-IsFrom trusted macs c v h = (with_list-IsAccepted trusted macs c v.0 h, v.1, v.2)
  with_list-IsFrom blocked macs c v h = (with_list-IsAccepted blocked macs c v.0 h, v.1, v.2)
  with_list-IsFrom allowed macs c v h = (with_list-IsAccepted allowed macs c v.0 h, v.1, v.2)

  add_mac_to-Safely :
      (l : MacList) (s : Text) (c : Config) → IsFrom c → Safely IsFrom (add_mac_to l s c)
  unfolding add_mac_to
  add_mac_to-Safely l s c v = from (add_to-Added l s c)
    where
      from :
          {r : Run (Config × ℤ)}
          → Added l s c r
          → Safely IsFrom (of_run r >>= λ (config', rc). served config')
      from (add_refused out) = safely c v
      from (add_present mac usable scanned present) = safely c v
      from (add_new mac usable scanned absent) =
          safely _ (with_list-IsFrom l _ c v (absent, IsAccepted-NoTwice l c v.0))

  add_to_free_ip_list-IsFrom :
      (s : Text) (c : Config) → IsFrom c → IsFrom (add_to_free_ip_list s c).0
  unfolding add_to_free_ip_list
  add_to_free_ip_list-IsFrom s c v =
      if_both Holds (not (check_ip_format s)) v (if_both Holds (on_list _ c.free_ip_list) v v)
    where
      Holds : Config × ℤ → Type 0
      Holds p = IsFrom p.0

  add_resolved-IsFrom :
      (addrs : List Text) (i : ℕ) (c : Config) → IsFrom c → IsFrom (add_resolved addrs i c).0
  unfolding add_resolved
  add_resolved-IsFrom [] i c v = v
  add_resolved-IsFrom (a ∷ addrs) i c v =
      add_resolved-IsFrom addrs (suc i) (add_to_free_ip_list a c).0
        (add_to_free_ip_list-IsFrom a c v)

  add_to_free_domain_list-IsFrom :
      (gethostbyname : Text → Option (List Text)) (s : Text) (c : Config)
      → IsFrom c
      → IsFrom (add_to_free_domain_list gethostbyname s c).0
  unfolding add_to_free_domain_list
  add_to_free_domain_list-IsFrom gethostbyname s c v = from (gethostbyname s)
    where
      from :
          (o : Option (List Text))
          → IsFrom
              (elim o as (λ x. Config × ℕ) [
                | none ↦ (c, 0)
                | some addrs ↦ add_resolved addrs 0 c
              ]).0
      from none = v
      from (some addrs) = add_resolved-IsFrom addrs 0 c v

  setting_of-IsSafe :
      (gethostbyname : Text → Option (List Text)) (json : Text) (t : Token)
      → IsSafe (setting_of gethostbyname json t)
  unfolding setting_of
  setting_of-IsSafe gethostbyname json t =
      let is : Text → Bool = λ key. json_eq json t key in
      if_both IsSafe (is (codes "authPath")) (safe_freeing _ _ (λ s c v. v)) (
        if_both IsSafe (is (codes "configPath")) (safe_freeing _ _ (λ s c v. v)) (
          if_both IsSafe (is (codes "netTrafficPath")) (safe_freeing _ _ (λ s c v. v)) (
            if_both IsSafe (is (codes "gatewayName")) (safe_text _ (λ s c v. v)) (
              if_both IsSafe (is (codes "redirectURL")) (safe_text _ (λ s c v. v)) (
                if_both IsSafe (is (codes "maxClients")) (safe_number _ (λ n c v. v)) (
                  if_both IsSafe (is (codes "clientIdleTimeout")) (safe_number _ (λ n c v. v)) (
                    if_both IsSafe (is (codes "clientForceTimeout")) (safe_number _ (λ n c v. v)) (
                      if_both IsSafe (is (codes "trafficControl")) (safe_number _ (λ n c v. v)) (
                        if_both IsSafe (is (codes "downloadLimit")) (safe_number _ (λ n c v. v)) (
                          if_both IsSafe (is (codes "uploadLimit")) (safe_number _ (λ n c v. v)) (
                            if_both IsSafe (is (codes "freeIPList"))
                              (safe_list 32 _
                                (λ s c v. safely _ (add_to_free_ip_list-IsFrom s c v)))
                              (if_both IsSafe (is (codes "freeDomainList"))
                                (safe_list 128 _ (λ s c v.
                                  safely _ (add_to_free_domain_list-IsFrom gethostbyname s c v)))
                                (if_both IsSafe (is (codes "blockedMACList"))
                                  (safe_list 32 _ (add_mac_to-Safely blocked))
                                  (if_both IsSafe (is (codes "trustedMACList"))
                                    (safe_list 32 _ (add_mac_to-Safely trusted))
                                    safe_none))))))))))))))

  each_item-Safely :
      (cleared : ℕ) (add : Text → Config → Served Config) (json : Text) (n : ℕ) (ts : List Token)
      (c : Config)
      → ((s : Text) (c : Config) → IsFrom c → Safely IsFrom (add s c))
      → IsFrom c
      → Safely IsFrom (each_item cleared add json n ts c)
  unfolding each_item
  each_item-Safely cleared add json zero ts c safe v = safely c v
  each_item-Safely cleared add json (suc n) [] c safe v = faulty
  each_item-Safely cleared add json (suc n) (t ∷ ts) c safe v =
      Safely-bind IsAny IsFrom (buffered cleared json t) _ (buffered-Safely cleared json t) λ s any.
        Safely-bind IsFrom IsFrom (add s c) _ (safe s c v)
          (λ c' w. each_item-Safely cleared add json n ts c' safe w)

  -- The tokens that are left are no more than there were.
  abbrev IsShorter : ℕ → Option (List Token) → Type 0
  IsShorter n none = Unit {0}
  IsShorter n (some ts) = length ts ≤ n

  abbrev IsGood : ℕ → Config × Option (List Token) → Type 0
  IsGood n p = IsFrom p.0 × IsShorter n p.1

  apply_setting-Safely :
      (atoi : Text → ℤ) (json : Text) (setting : Setting) (ts : List Token) (c : Config)
      → IsSafe setting
      → IsFrom c
      → Safely (IsGood (length ts)) (apply_setting atoi json setting ts c)
  unfolding apply_setting
  apply_setting-Safely atoi json _ ts c safe_none v = safely _ (v, tt)
  apply_setting-Safely atoi json _ [] c (safe_text set safe) v = faulty
  apply_setting-Safely atoi json _ [] c (safe_freeing can_free set safe) v = faulty
  apply_setting-Safely atoi json _ [] c (safe_number set safe) v = faulty
  apply_setting-Safely atoi json _ [] c (safe_list cleared add safe) v = faulty
  apply_setting-Safely atoi json _ (t ∷ ts) c (safe_text set safe) v =
      Safely-bind IsAny (IsGood (length (t ∷ ts))) (slice json t) _ (slice-Safely json t)
        (λ s any. safely _ (safe s c v, omega arith))
  apply_setting-Safely atoi json _ (t ∷ ts) c (safe_freeing can_free set safe) v =
      if_both (Safely (IsGood (length (t ∷ ts)))) (not (can_free c)) faulty (
        Safely-bind IsAny (IsGood (length (t ∷ ts))) (slice json t) _ (slice-Safely json t)
          (λ s any. safely _ (safe s c v, omega arith)))
  apply_setting-Safely atoi json _ (t ∷ ts) c (safe_number set safe) v =
      Safely-bind IsAny (IsGood (length (t ∷ ts))) (buffered 32 json t) _
        (buffered-Safely 32 json t) (λ s any. safely _ (safe (atoi s) c v, omega arith))
  apply_setting-Safely atoi json _ (t ∷ ts) c (safe_list cleared add safe) v =
      if_both (Safely (IsGood (length (t ∷ ts)))) (not (is_array t.kind)) (safely _ (v, tt)) (
        Safely-bind IsFrom (IsGood (length (t ∷ ts))) (each_item cleared add json t.size ts c) _
          (each_item-Safely cleared add json t.size ts c safe v)
          (λ c' w. safely _ (w, omega (arith, length-drop_le t.size ts))))

  -- The configuration with the code that is returned.
  abbrev pub IsAnswer : Config × ℤ → Type 0
  IsAnswer p = IsFrom p.0

  keys_loop-Safely :
      (gethostbyname : Text → Option (List Text)) (atoi : Text → ℤ) (json : Text) (fuel : ℕ)
      (ts : List Token) (c : Config)
      → IsFrom c
      → length ts < fuel
      → Safely IsAnswer (keys_loop gethostbyname atoi json fuel ts c)
  unfolding keys_loop
  keys_loop-Safely gethostbyname atoi json zero ts c v lt = absurd (omega arith)
  keys_loop-Safely gethostbyname atoi json (suc fuel) [] c v lt = safely _ v
  keys_loop-Safely gethostbyname atoi json (suc fuel) (t ∷ ts) c v lt =
      Safely-bind (IsGood (length ts)) IsAnswer
        (apply_setting atoi json (setting_of gethostbyname json t) ts c) _
        (apply_setting-Safely atoi json _ ts c (setting_of-IsSafe gethostbyname json t) v)
        λ p good.
          from p.0 p.1 good.0 good.1
            (λ rest c' w le. keys_loop-Safely gethostbyname atoi json fuel rest c' w (omega arith))
    where
      from :
          (c' : Config) (o : Option (List Token))
          → IsFrom c'
          → IsShorter (length ts) o
          → ((rest : List Token) (c' : Config)
              → IsFrom c'
              → length rest ≤ length ts
              → Safely IsAnswer (keys_loop gethostbyname atoi json fuel rest c'))
          → Safely IsAnswer (elim o [
            | none ↦ served (c', negsuc 3)
            | some ts' ↦ keys_loop gethostbyname atoi json fuel ts' c'
          ])
      from c' none w le go = safely _ w
      from c' (some ts') w le go = go ts' c' w le

  from_tokens-Safely :
      (gethostbyname : Text → Option (List Text)) (atoi : Text → ℤ) (json : Text)
      (o : Option (List Token)) (c : Config)
      → IsFrom c
      → Safely IsAnswer (from_tokens gethostbyname atoi json o c)
  unfolding from_tokens
  from_tokens-Safely gethostbyname atoi json none c v = safely _ v
  from_tokens-Safely gethostbyname atoi json (some []) c v = safely _ v
  from_tokens-Safely gethostbyname atoi json (some (t ∷ ts)) c v =
      if_both (Safely IsAnswer) (is_object t.kind)
        (keys_loop-Safely gethostbyname atoi json (suc (length ts)) ts c v (omega arith))
        (safely _ v)

-- Whatever the server answers and whatever tokens it is cut into, the loop over them ends. It may read,
-- write or free what it must not; where it does not, the marks are still apart, the rulesets are distinct and
-- safe, no list of MAC addresses has an address twice, and the interface and the server are the ones they were,
-- whatever code is returned, if all this was so before.
pub from_answer-Safely :
    (gethostbyname : Text → Option (List Text)) (atoi : Text → ℤ)
    (jsmn_parse : Text → Option (List Token)) (buf : Text) (base c : Config)
    → IsFrom base c
    → Safely (IsAnswer base) (from_answer gethostbyname atoi jsmn_parse buf c)
unfolding from_answer
from_answer-Safely gethostbyname atoi jsmn_parse buf base c v = from (body_of (until_nul buf))
  where
    from :
        (o : Option Text)
        → Safely (IsAnswer base) (elim o [
          | none ↦ served (c, negsuc 2)
          | some json ↦ from_tokens gethostbyname atoi json (jsmn_parse json) c
        ])
    from none = safely _ v
    from (some json) = from_tokens-Safely base gethostbyname atoi json (jsmn_parse json) c v
