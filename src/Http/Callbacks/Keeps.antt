-- ===== src/Http/Callbacks/Keeps.antt =====
-- src/http.c: what the callbacks leave of the client list.
use wifi_cat.Base.{ℕ, ◌≡◌, ◌≢◌, false, not, Option, none, some, List, [], if_both, Run}
use wifi_cat.Base.Int.{pos}
use wifi_cat.Conf.{Config}
use wifi_cat.ClientList.{Ptr, null, Node, ClientList}
use wifi_cat.ClientList.Nodes.{has_addr, node_at}
use wifi_cat.ClientList.Register.{Sound, sound_none, sound_some, client_list_add_client-Sound}
use wifi_cat.Iptables.{Marks}
use wifi_cat.Iptables.Access.{AuthAction, make_authenticated, make_deauthenticated}
use wifi_cat.Auth.{State}
use wifi_cat.Auth.Action.{Consistent}
use wifi_cat.Http.{
  Served, served, exited, faulted, hung, ◌>>=◌, of_run, strdup, Request, Call, Web, AuthTarget,
  make_authtarget, decode_authtarget,
}
use wifi_cat.Http.Pages.{serve_splash}
use wifi_cat.Http.Callbacks.{
  callback_action, callback_auth, callback_deny, add_client, greet, first_contact,
}
use wifi_cat.Http.Callbacks.Laws.{
  Decided, untouched, granted, no_exit, no_value, no_return, callback_action-Decided,
}

-- What holds of the result of a callback that returns.
abbrev pub Yields : {A : Type 0} → (A → Type 0) → Served A → Type 0
Yields P (served a) = P a
Yields P exited = Unit {0}
Yields P faulted = Unit {0}
Yields P hung = Unit {0}

pub Yields-bind :
    {A B : Type 0} (P : A → Type 0) (Q : B → Type 0) (r : Served A) (f : A → Served B)
    → Yields P r
    → ((a : A) → P a → Yields Q (f a))
    → Yields Q (r >>= f)
Yields-bind P Q (served a) f h k = k a h
Yields-bind P Q exited f h k = tt
Yields-bind P Q faulted f h k = tt
Yields-bind P Q hung f h k = tt

-- A result of which nothing is said.
abbrev pub IsAny : {A : Type 0} → A → Type 0
IsAny a = Unit {0}

pub Yields-IsAny : {A : Type 0} (r : Served A) → Yields IsAny r
Yields-IsAny (served a) = tt
Yields-IsAny exited = tt
Yields-IsAny faulted = tt
Yields-IsAny hung = tt

module _ (max : ℕ) where
  abbrev pub IsKept : State × List Call → Type 0
  IsKept p = Consistent max p.0

  module _ (web : Web) (config : Config) (m : Marks) (r : Request) where
    Yields-Decided :
        (target : AuthTarget) (action : AuthAction) (s : State) (q : Served (State × List Call))
        → Consistent max s
        → Decided max web config m r target action s q
        → Yields IsKept q
    Yields-Decided target action s _ v (untouched calls why) = v
    Yields-Decided target action s _ v (granted token mac n after calls t a f q e w found) = w
    Yields-Decided target action s _ v (no_exit token mac e) = tt
    Yields-Decided target action s _ v (no_value token mac e) = tt
    Yields-Decided target action s _ v (no_return token mac e) = tt

    decoded-IsKept :
        (action : AuthAction) (s : State)
        → Consistent max s
        → Yields IsKept (
            decode_authtarget web config r >>= λ target.
            callback_action web config m r target action s)
    decoded-IsKept action s v =
        Yields-bind IsAny IsKept (decode_authtarget web config r) _ (Yields-IsAny _) λ target any.
          Yields-Decided target action s _ v
            (callback_action-Decided max web config m r target s v action)

    pub callback_deny-IsKept :
        (s : State) → Consistent max s → Yields IsKept (callback_deny web config m r s)
    unfolding callback_deny
    callback_deny-IsKept s v = decoded-IsKept make_deauthenticated s v

    abbrev IsAdded : Option Ptr × State → Type 0
    IsAdded p = Consistent max p.1

    module _ (s : State) (limit : config.maxclients ≡ pos max) (v : Consistent max s)
        (nonnull : web.outside.fresh ≢ null)
        (unused : has_addr web.outside.fresh s.clients.first ≡ false) where
      add_client-IsAdded : Yields IsAdded (add_client web config r s)
      unfolding add_client
      add_client-IsAdded = rw limit (
          from (
            client_list_add_client-Sound max web.outside r.client_addr s.clients v.inv v.unique
              nonnull unused))
        where
          from :
              {q : Run (Option Ptr × ClientList)}
              → Sound max r.client_addr q
              → Yields IsAdded
                  (of_run q >>= λ (p, clients). served (p, record s { clients = clients }))
          from (sound_none t w u) = record { inv = w; unique = u }
          from (sound_some n t w u same found) = record { inv = w; unique = u }

      pub callback_auth-IsKept : Yields IsKept (callback_auth web config m r s)
      unfolding callback_auth
      callback_auth-IsKept =
          Yields-bind IsAdded IsKept (add_client web config r s) _ add_client-IsAdded
            λ p w. by_client p.0 p.1 w
        where
          by_client :
              (p : Option Ptr) (added : State)
              → Consistent max added
              → Yields IsKept (elim p [
                | none ↦ served (added, [])
                | some addr ↦ decode_authtarget web config r >>= λ target.
                    callback_action web config m r target make_authenticated added
              ])
          by_client none added w = w
          by_client (some addr) added w = decoded-IsKept make_authenticated added w

      greet-IsKept :
          (t : State) (o : Option Node) → Consistent max t → Yields IsKept (greet web config r t o)
      unfolding greet
      greet-IsKept t none w = tt
      greet-IsKept t (some n) w =
          Yields-bind IsAny IsKept (strdup n.client.token) _ (Yields-IsAny _) λ token any.
            Yields-bind IsAny IsKept (make_authtarget web config token _) _ (Yields-IsAny _)
              λ target any'.
                Yields-bind IsAny IsKept (serve_splash web config target n.client t.clients none) _
                  (Yields-IsAny _) (λ calls any''. w)

      pub first_contact-IsKept : Yields IsKept (first_contact web config r s)
      unfolding first_contact
      first_contact-IsKept = if_both (Yields IsKept) (not r.is_get) v (
          Yields-bind IsAdded IsKept (add_client web config r s) _ add_client-IsAdded
            λ p w. by_client p.0 p.1 w)
        where
          by_client :
              (p : Option Ptr) (added : State)
              → Consistent max added
              → Yields IsKept (elim p [
                | none ↦ served (added, [])
                | some addr ↦ greet web config r added (node_at addr added.clients.first)
              ])
          by_client none added w = w
          by_client (some addr) added w = greet-IsKept added _ w
