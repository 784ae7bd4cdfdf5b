-- ===== src/Http/Passwords/Laws.antt =====
-- src/http.c, `http_nodogsplash_check_userpass` and `data_extract_bw`: what is let through.
use wifi_cat.Base.{
  ℕ, ◌≡◌, refl, ◌⊎◌, inl, inr, Bool, true, false, not, ◌&&◌, Option, none, some, if◌then◌else◌,
  Bool-cases,
}
use wifi_cat.Base.Int.{ℤ, pos, ltb_ℤ, add_int}
use wifi_cat.Base.Text.{Text, text_eq}
use wifi_cat.Conf.{Config}
use wifi_cat.Conf.Mac.{is_int}
use wifi_cat.ClientList.{Node, client_list_find, update_client}
use wifi_cat.ClientList.Invariant.{update_client-Inv}
use wifi_cat.ClientList.Unique.{Unique-update_at}
use wifi_cat.Firewall.Arp.{arp_get, arp_get-ends}
use wifi_cat.Auth.{State}
use wifi_cat.Auth.Action.{Consistent}
use wifi_cat.Http.{Served, served, faulted, ◌>>=◌, Request, Web, AuthTarget}
use wifi_cat.Http.Passwords.{agrees, with_attempts, attempt, check_userpass}

-- The state in which one attempt more of a client is counted.
abbrev pub counted_of : Node → State → State
counted_of n s = record s {
  clients = update_client n.addr (with_attempts (add_int n.client.attempts (pos 1))) s.clients;
}

-- The two texts that are asked for are those of the configuration.
pub record Agrees (config : Config) (target : AuthTarget) : Type 0 where
  pub name : agrees config.usernameauth config.username target.username ≡ served true
  pub word : agrees config.passwordauth config.password target.password ≡ served true

-- The sender of the request is the client of a node.
abbrev pub IsFound : Web → Request → State → Node → Type 0
IsFound web r s n =
    (mac : Text) × ((arp_get web.outside.arp_table r.client_addr ≡ some (some mac))
      × (client_list_find r.client_addr mac s.clients ≡ some n))

-- Why a client of the list is refused: it has no attempts left, or a text is not the one that is asked for.
pub data Mismatch (config : Config) (target : AuthTarget) (n : Node) : Type 0 where
  too_many :
      ltb_ℤ config.passwordattempts (add_int n.client.attempts (pos 1)) ≡ true
      → Mismatch config target n
  wrong_name :
      agrees config.usernameauth config.username target.username ≡ served false
      → Mismatch config target n
  wrong_word :
      agrees config.passwordauth config.password target.password ≡ served false
      → Mismatch config target n

-- How the check ends: open to everyone; refused for a sender that the ARP table or the client list does
-- not have; or refused, passed or broken off for a client of the list, with one attempt more counted. It is
-- broken off only where the configuration asks for a text that it does not have.
pub data Guarded (max : ℕ) (config : Config) (target : AuthTarget) (web : Web) (r : Request)
    (s : State) : Served (State × ℕ) → Type 0 where
  unguarded :
      (is_int config.passwordauth (pos 0) && is_int config.usernameauth (pos 0)) ≡ true
      → Guarded max config target web r s (served (s, 1))
  without_mac :
      arp_get web.outside.arp_table r.client_addr ≡ some none
      → Guarded max config target web r s (served (s, 0))
  not_listed :
      (mac : Text)
      → arp_get web.outside.arp_table r.client_addr ≡ some (some mac)
      → client_list_find r.client_addr mac s.clients ≡ none
      → Guarded max config target web r s (served (s, 0))
  refused :
      (n : Node)
      → IsFound web r s n
      → Consistent max (counted_of n s)
      → Mismatch config target n
      → Guarded max config target web r s (served (counted_of n s, 0))
  passed :
      (n : Node)
      → IsFound web r s n
      → Consistent max (counted_of n s)
      → ltb_ℤ config.passwordattempts (add_int n.client.attempts (pos 1)) ≡ false
      → Agrees config target
      → Guarded max config target web r s (served (counted_of n s, 1))
  unset :
      (config.username ≡ none) ⊎ (config.password ≡ none)
      → Guarded max config target web r s faulted

-- `agrees` ends without a verdict only where the configuration has no text.
data Verdict (expected : Option Text) : Served Bool → Type 0 where
  says : (b : Bool) → Verdict expected (served b)
  lacks : expected ≡ none → Verdict expected faulted

agrees-Verdict :
    (wanted : ℤ) (expected given : Option Text) → Verdict expected (agrees wanted expected given)
unfolding agrees
agrees-Verdict wanted expected given = elim (Bool-cases (is_int wanted (pos 0))) [
  | inl t ↦ rw t (says true)
  | inr f ↦ rw f (from expected given)
]
  where
    from :
        (expected given : Option Text)
        → Verdict expected (elim given [
          | none ↦ served false
          | some g ↦ elim expected [ none ↦ faulted | some e ↦ served (text_eq e g) ]
        ])
    from expected none = says false
    from none (some g) = lacks refl
    from (some e) (some g) = says (text_eq e g)

module _ (max : ℕ) (config : Config) (target : AuthTarget) (web : Web) (r : Request) (s : State)
    (v : Consistent max s) where
  counted-Consistent : (n : Node) → Consistent max (counted_of n s)
  unfolding update_client
  counted-Consistent n = record {
    inv = update_client-Inv max s.clients n.addr (with_attempts _) (λ c. refl) v.inv;
    unique = Unique-update_at n.addr (with_attempts _) s.clients.first (λ c. (refl, refl)) v.unique;
  }

  compared :
      (n : Node)
      → IsFound web r s n
      → ltb_ℤ config.passwordattempts (add_int n.client.attempts (pos 1)) ≡ false
      → (q q' : Served Bool) → agrees config.usernameauth config.username target.username ≡ q
      → agrees config.passwordauth config.password target.password ≡ q'
      → Verdict config.username q
      → Verdict config.password q'
      → Guarded max config target web r s (
          q >>= λ name.
          if not name
          then served (counted_of n s, 0)
          else (q' >>= λ word. served (counted_of n s, if word then 1 else 0)))
  compared n at few q q' e e' (lacks none_there) w' = unset (inl none_there)
  compared n at few q q' e e' (says false) w' = refused n at (counted-Consistent n) (wrong_name e)
  compared n at few q q' e e' (says true) (lacks none_there) = unset (inr none_there)
  compared n at few q q' e e' (says true) (says false) =
      refused n at (counted-Consistent n) (wrong_word e')
  compared n at few q q' e e' (says true) (says true) =
      passed n at (counted-Consistent n) few (record { name = e; word = e' })

  attempt-Guarded :
      (mac : Text) (o : Option Node)
      → arp_get web.outside.arp_table r.client_addr ≡ some (some mac)
      → client_list_find r.client_addr mac s.clients ≡ o
      → Guarded max config target web r s (attempt config target s o)
  unfolding attempt
  attempt-Guarded mac none a f = not_listed mac a f
  attempt-Guarded mac (some n) a f =
      let at : IsFound web r s n = (mac, (a, f)) in
      elim (Bool-cases (ltb_ℤ config.passwordattempts (add_int n.client.attempts (pos 1)))) [
        | inl many ↦ rw many (refused n at (counted-Consistent n) (too_many many))
        | inr few ↦ rw few (
            compared n at few _ _ refl refl
              (agrees-Verdict config.usernameauth config.username target.username)
              (agrees-Verdict config.passwordauth config.password target.password))
      ]

  -- The check ends in one of six ways, and leaves the list consistent: it passes everyone and counts nothing where neither
  -- a name nor a password is asked for; it refuses, and counts nothing, a sender without a hardware
  -- address in the ARP table or that is not on the list; for a client of the list it counts one
  -- attempt more and refuses it, where there are more attempts than are allowed or a text is not the
  -- configured one, or passes it, where neither is so; or it reads a text that the configuration lacks.
  pub check_userpass-Guarded :
      Guarded max config target web r s (check_userpass web config r target s)
  unfolding check_userpass
  check_userpass-Guarded =
      elim (Bool-cases (is_int config.passwordauth (pos 0) && is_int config.usernameauth (pos 0))) [
        | inl open_to_all ↦ rw open_to_all (unguarded open_to_all)
        | inr guarded ↦
            let (reply, a) = arp_get-ends web.outside.arp_table r.client_addr in
            rw (guarded, a) (by_reply reply a)
      ]
    where
      by_reply :
          (reply : Option Text)
          → arp_get web.outside.arp_table r.client_addr ≡ some reply
          → Guarded max config target web r s (elim reply [
            | none ↦ served (s, 0)
            | some mac ↦ attempt config target s (client_list_find r.client_addr mac s.clients)
          ])
      by_reply none a = without_mac a
      by_reply (some mac) a =
          attempt-Guarded mac (client_list_find r.client_addr mac s.clients) a refl
