-- ===== src/Http/Callbacks/Laws.antt =====
-- src/http.c, `token_verify` and `http_nodogsplash_callback_action`: what a callback may do to the portal.
use wifi_cat.Base.{
  ℕ, ◌≡◌, refl, ap, ◌∙◌, true, false, if◌then◌else◌, arith, Option, none, some, List, [], ok, inl,
  inr, Bool-cases,
}
use wifi_cat.Base.Int.{ℤ, pos, negsuc, leb_ℤ}
use wifi_cat.Base.Text.{Text, codes, text_eq, text_eq_iff}
use wifi_cat.Conf.{Config}
use wifi_cat.ClientList.{Node, client_list_find}
use wifi_cat.Firewall.Arp.{arp_get, arp_get-ends}
use wifi_cat.Iptables.{Marks}
use wifi_cat.Iptables.Access.{AuthAction, make_authenticated, make_deauthenticated, other_action}
use wifi_cat.Auth.{State, auth_client_action}
use wifi_cat.Auth.Action.{Consistent, expected, auth_client_action-Acts}
use wifi_cat.Http.{
  Served, served, exited, faulted, hung, ◌>>=◌, of_loop, Request, Call, Web, AuthTarget,
}
use wifi_cat.Http.Pages.{serve_info}
use wifi_cat.Conf.Words.{until_nul}
use wifi_cat.Http.Callbacks.{
  body_of, verdict, judge, ask_server, token_verify, on_verdict, take_action, on_client,
  callback_action,
}

-- Why the check of a token gives a value above 0: the server has answered with `1` behind an empty line,
-- or it has answered without an empty line and what the caller takes for the missing value is above 0.
pub data Vouched (web : Web) (config : Config) (token mac : Text) : Type 0 where
  answered :
      (buf : Text)
      → ask_server web config token mac ≡ served (some buf)
      → body_of (until_nul buf) ≡ some (codes "1")
      → Vouched web config token mac
  garbled :
      (buf : Text)
      → ask_server web config token mac ≡ served (some buf)
      → body_of (until_nul buf) ≡ none
      → leb_ℤ web.unset (pos 0) ≡ false
      → Vouched web config token mac

-- Why the handler of an action leaves everything as it was.
pub data Refusal (web : Web) (config : Config) (r : Request) (target : AuthTarget)
    (action : AuthAction) (s : State) : Type 0 where
  without_token : target.token ≡ none → Refusal web config r target action s
  without_redir : target.redir ≡ none → Refusal web config r target action s
  without_mac :
      arp_get web.outside.arp_table r.client_addr ≡ some none → Refusal web config r target action s
  not_listed :
      (mac : Text)
      → arp_get web.outside.arp_table r.client_addr ≡ some (some mac)
      → client_list_find r.client_addr mac s.clients ≡ none
      → Refusal web config r target action s
  no_client_token :
      (mac : Text) (n : Node)
      → client_list_find r.client_addr mac s.clients ≡ some n
      → n.client.token ≡ none
      → Refusal web config r target action s
  turned_down :
      (token mac : Text) (rc : ℤ)
      → target.token ≡ some token
      → token_verify web config token mac ≡ served rc
      → leb_ℤ rc (pos 0) ≡ true
      → Refusal web config r target action s
  no_action : (k : ℕ) → action ≡ other_action k → Refusal web config r target action s

-- How the handler of an action ends: with the state as it was, for one of the reasons above; with the
-- action taken, for a client on the list whose token has been vouched for; or as the check of the token
-- does where that does not return.
pub data Decided (max : ℕ) (web : Web) (config : Config) (m : Marks) (r : Request)
    (target : AuthTarget) (action : AuthAction) (s : State)
    : Served (State × List Call) → Type 0 where
  untouched :
      (calls : List Call)
      → Refusal web config r target action s
      → Decided max web config m r target action s (served (s, calls))
  granted :
      (token mac : Text) (n : Node) (after : State) (calls : List Call)
      → target.token ≡ some token
      → arp_get web.outside.arp_table r.client_addr ≡ some (some mac)
      → client_list_find r.client_addr mac s.clients ≡ some n
      → Vouched web config token mac
      → auth_client_action config m r.client_addr mac action s ≡ ok after
      → Consistent max after
      → client_list_find r.client_addr mac after.clients ≡ expected m action (some n)
      → Decided max web config m r target action s (served (after, calls))
  no_exit :
      (token mac : Text)
      → token_verify web config token mac ≡ exited
      → Decided max web config m r target action s exited
  no_value :
      (token mac : Text)
      → token_verify web config token mac ≡ faulted
      → Decided max web config m r target action s faulted
  no_return :
      (token mac : Text)
      → token_verify web config token mac ≡ hung
      → Decided max web config m r target action s hung

verdict-none : (unset : ℤ) (buf : Text) → body_of (until_nul buf) ≡ none → verdict unset buf ≡ unset
unfolding verdict
verdict-none unset buf b = rw (verdict, b) refl

verdict-some :
    (unset : ℤ) (buf result : Text)
    → body_of (until_nul buf) ≡ some result
    → verdict unset buf ≡ (if text_eq result (codes "1") then pos 1 else pos 0)
unfolding verdict
verdict-some unset buf result b = rw (verdict, b) refl

-- A value above 0 has one of the two reasons.
judged-Vouched :
    (web : Web) (config : Config) (token mac : Text) (q : Served (Option Text)) (rc : ℤ)
    → ask_server web config token mac ≡ q
    → (q >>= λ answer. served (judge web.unset answer)) ≡ served rc
    → leb_ℤ rc (pos 0) ≡ false
    → Vouched web config token mac
unfolding judge
judged-Vouched web config token mac exited rc a v g = cc
judged-Vouched web config token mac faulted rc a v g = cc
judged-Vouched web config token mac hung rc a v g = cc
judged-Vouched web config token mac (served none) rc a v g =
    let same : rc ≡ negsuc 0 = cc in absurd (ground (arith, same))
judged-Vouched web config token mac (served (some buf)) rc a v g =
    let same : verdict web.unset buf ≡ rc = cc in by_body (body_of (until_nul buf)) refl same
  where
    by_body :
        (o : Option Text)
        → body_of (until_nul buf) ≡ o
        → verdict web.unset buf ≡ rc
        → Vouched web config token mac
    by_body none b same =
        let e = verdict-none web.unset buf b in
        let same' : web.unset ≡ rc = cc in garbled buf a b (rw same' g)
    by_body (some result) b same =
        let e = verdict-some web.unset buf result b in
        elim (Bool-cases (text_eq result (codes "1"))) [
          | inl t ↦ answered buf a (b ∙ ap some ((text_eq_iff result (codes "1")).0 t))
          | inr other ↦ absurd (ground (arith, e, same, other, g))
        ]

token_verify-Vouched :
    (web : Web) (config : Config) (token mac : Text) (rc : ℤ)
    → token_verify web config token mac ≡ served rc
    → leb_ℤ rc (pos 0) ≡ false
    → Vouched web config token mac
unfolding token_verify
token_verify-Vouched web config token mac rc e g =
    judged-Vouched web config token mac (ask_server web config token mac) rc refl e g

module _ (max : ℕ) (web : Web) (config : Config) (m : Marks) (r : Request) (target : AuthTarget)
    (s : State) (v : Consistent max s) where
  take_action-Decided :
      (token mac redir : Text) (n : Node) (rc : ℤ) (action : AuthAction)
      → target.token ≡ some token
      → arp_get web.outside.arp_table r.client_addr ≡ some (some mac)
      → client_list_find r.client_addr mac s.clients ≡ some n
      → token_verify web config token mac ≡ served rc
      → leb_ℤ rc (pos 0) ≡ false
      → Decided max web config m r target action s
          (take_action web config m r.client_addr mac redir action s)
  unfolding take_action
  take_action-Decided token mac redir n rc (other_action k) t a f q g =
      untouched [] (no_action k refl)
  take_action-Decided token mac redir n rc make_authenticated t a f q g =
      let acts = auth_client_action-Acts max config m r.client_addr mac s v make_authenticated in
      rw (acts.returns) (
        granted token mac n acts.result _ t a f (token_verify-Vouched web config token mac rc q g)
          acts.returns acts.consistent (acts.found ∙ ap (expected m make_authenticated) f))
  take_action-Decided token mac redir n rc make_deauthenticated t a f q g =
      let acts = auth_client_action-Acts max config m r.client_addr mac s v make_deauthenticated in
      rw (acts.returns) (
        granted token mac n acts.result _ t a f (token_verify-Vouched web config token mac rc q g)
          acts.returns acts.consistent (acts.found ∙ ap (expected m make_deauthenticated) f))

  on_verdict-Decided :
      (token mac redir : Text) (n : Node) (action : AuthAction)
      → target.token ≡ some token
      → arp_get web.outside.arp_table r.client_addr ≡ some (some mac)
      → client_list_find r.client_addr mac s.clients ≡ some n
      → (calls : List Call) (q : Served ℤ) → token_verify web config token mac ≡ q
      → Decided max web config m r target action s (
          q >>= λ rc.
          on_verdict rc
            (served (s, calls))
            (take_action web config m r.client_addr mac redir action s))
  on_verdict-Decided token mac redir n action t a f calls exited e = no_exit token mac e
  on_verdict-Decided token mac redir n action t a f calls faulted e = no_value token mac e
  on_verdict-Decided token mac redir n action t a f calls hung e = no_return token mac e
  on_verdict-Decided token mac redir n action t a f calls (served rc) e =
      elim (Bool-cases (leb_ℤ rc (pos 0))) [
        | inl refused ↦ rw refused (untouched calls (turned_down token mac rc t e refused))
        | inr given ↦ rw given (take_action-Decided token mac redir n rc action t a f e given)
      ]

  on_client-Decided :
      (token mac redir : Text) (action : AuthAction)
      → target.token ≡ some token
      → arp_get web.outside.arp_table r.client_addr ≡ some (some mac)
      → Decided max web config m r target action s (
          on_client web config m r.client_addr mac token redir action s
            (client_list_find r.client_addr mac s.clients))
  unfolding on_client
  on_client-Decided token mac redir action t a =
      from (client_list_find r.client_addr mac s.clients) refl
    where
      by_token :
          (n : Node) (o : Option Text)
          → client_list_find r.client_addr mac s.clients ≡ some n
          → n.client.token ≡ o
          → Decided max web config m r target action s (elim o [
            | none ↦ served (s, [])
            | some clienttoken ↦ token_verify web config token mac >>= λ rc.
                on_verdict rc
                  (served (
                    s,
                    serve_info web config
                        (codes "Nodogsplash Error")
                        (codes "Tokens do not match."),
                  ))
                  (take_action web config m r.client_addr mac redir action s)
          ])
      by_token n none f e = untouched [] (no_client_token mac n f e)
      by_token n (some clienttoken) f e =
          on_verdict-Decided token mac redir n action t a f _ (token_verify web config token mac)
            refl

      from :
          (o : Option Node)
          → client_list_find r.client_addr mac s.clients ≡ o
          → Decided max web config m r target action s
              (on_client web config m r.client_addr mac token redir action s o)
      from none f = untouched _ (not_listed mac a f)
      from (some n) f = by_token n n.client.token f refl

  pub callback_action-Decided :
      (action : AuthAction)
      → Decided max web config m r target action s (callback_action web config m r target action s)
  unfolding callback_action
  callback_action-Decided action = by_token target.token refl
    where
      by_reply :
          (token redir : Text) (reply : Option Text)
          → target.token ≡ some token
          → arp_get web.outside.arp_table r.client_addr ≡ some reply
          → Decided max web config m r target action s (elim reply [
            | none ↦ served (s, [])
            | some mac ↦
                on_client web config m r.client_addr mac token redir action s
                  (client_list_find r.client_addr mac s.clients)
          ])
      by_reply token redir none t a = untouched [] (without_mac a)
      by_reply token redir (some mac) t a = on_client-Decided token mac redir action t a

      by_redir :
          (token : Text) (o : Option Text)
          → target.token ≡ some token
          → target.redir ≡ o
          → Decided max web config m r target action s (elim o [
            | none ↦ served (s, [])
            | some redir ↦ of_loop (arp_get web.outside.arp_table r.client_addr) >>= λ found.
                elim found [
                  | none ↦ served (s, [])
                  | some mac ↦
                      on_client web config m r.client_addr mac token redir action s
                        (client_list_find r.client_addr mac s.clients)
                ]
          ])
      by_redir token none t e = untouched [] (without_redir e)
      by_redir token (some redir) t e =
          let (reply, a) = arp_get-ends web.outside.arp_table r.client_addr in
          rw a (by_reply token redir reply t a)

      by_token :
          (o : Option Text)
          → target.token ≡ o
          → Decided max web config m r target action s (elim o [
            | none ↦ served (s, [])
            | some token ↦ elim target.redir [
              | none ↦ served (s, [])
              | some redir ↦ of_loop (arp_get web.outside.arp_table r.client_addr) >>= λ found.
                  elim found [
                    | none ↦ served (s, [])
                    | some mac ↦
                        on_client web config m r.client_addr mac token redir action s
                          (client_list_find r.client_addr mac s.clients)
                  ]
            ]
          ])
      by_token none t = untouched [] (without_token t)
      by_token (some token) t = by_redir token target.redir t refl
