-- ===== src/ClientList/Register.antt =====
-- src/client_list.c, `client_list_add_client`: the way into the list, for an address that asks.
use wifi_cat.Base.{
  ℕ, ◌-◌, ◌%◌, ◌^◌, ◌≤◌, ◌<◌, ◌≡◌, ◌≢◌, ap, ◌∙◌, inl, inr, true, false, not, Option, none, some,
  List, [], ◌∷◌, ◌++◌, length, replicate, if◌then◌else◌, Run, ok, fault, arith, Bool-cases,
  Option-cases, leb, leb→le,
}
use wifi_cat.Base.Int.{ℤ, pos}
use wifi_cat.Base.Text.{Text, print_base, text_eq_refl, text_eq_iff}
use wifi_cat.Conf.Formats.{check_ip_format}
use wifi_cat.Firewall.Arp.{arp_get, arp_get-ends}
use wifi_cat.ClientList.{
  Ptr, null, Node, ClientList, client_list_find, find_first, client_list_append,
}
use wifi_cat.ClientList.Nodes.{has_addr}
use wifi_cat.ClientList.Invariant.{Inv, appended, appended-Inv, append-full, append-room}
use wifi_cat.ClientList.Unique.{
  is_client, Unique, Unique-append, find_first-has_client, find_first-is_client,
}

-- `%04hx`
unfoldable pub hex4 : ℕ → Text
hex4 r = let t = print_base 16 (r % 2 ^ 16) in replicate (4 - length t) b'0' ++ t

-- `_client_list_make_auth_token`, from the two random numbers that it draws.
unfoldable pub make_auth_token : ℕ → ℕ → Text
unfolding hex4
make_auth_token r1 r2 = hex4 r1 ++ hex4 r2

-- What the outside gives a call of `client_list_add_client`: the kernel's ARP table, the clock, the
-- random numbers and the address that malloc returns.
pub record Outside : Type 0 where
  pub arp_table : Option Text
  pub now : ℕ
  pub rand1 : ℕ
  pub rand2 : ℕ
  pub fresh : Ptr

-- The client is looked up by both addresses, and put on the list if it is not there.
unfoldable pub find_or_append :
    ℤ → Outside → Text → Text → ClientList → Run (Option Ptr × ClientList)
unfolding make_auth_token
find_or_append maxclients o ip mac s = elim (client_list_find ip mac s) [
  | none ↦
      client_list_append maxclients o.fresh o.now ip mac (some (make_auth_token o.rand1 o.rand2)) s
  | some n ↦ ok (some n.addr, s)
]

unfoldable pub client_list_add_client :
    ℤ → Outside → Text → ClientList → Run (Option Ptr × ClientList)
unfolding find_or_append
client_list_add_client maxclients o ip s =
    if not (check_ip_format ip) then ok (none, s) else elim (arp_get o.arp_table ip) [
      | none ↦ fault
      | some none ↦ ok (none, s)
      | some (some mac) ↦ find_or_append maxclients o ip mac s
    ]

-- How a call ends, for the hardware address that the ARP table has.
pub data Registered (max : ℕ) (o : Outside) (ip : Text) (s : ClientList)
    : Run (Option Ptr × ClientList) → Type 0 where
  malformed : check_ip_format ip ≡ false → Registered max o ip s (ok (none, s))
  unresolved :
      check_ip_format ip ≡ true
      → arp_get o.arp_table ip ≡ some none
      → Registered max o ip s (ok (none, s))
  present :
      (mac : Text) (n : Node)
      → check_ip_format ip ≡ true
      → arp_get o.arp_table ip ≡ some (some mac)
      → client_list_find ip mac s ≡ some n
      → Registered max o ip s (ok (some n.addr, s))
  full :
      (mac : Text)
      → check_ip_format ip ≡ true
      → arp_get o.arp_table ip ≡ some (some mac)
      → client_list_find ip mac s ≡ none
      → max ≤ s.client_count
      → Registered max o ip s (ok (none, s))
  new :
      (mac : Text)
      → check_ip_format ip ≡ true
      → arp_get o.arp_table ip ≡ some (some mac)
      → client_list_find ip mac s ≡ none
      → s.client_count < max
      → Registered max o ip s (
          ok (
            some o.fresh,
            appended o.fresh o.now ip mac (some (make_auth_token o.rand1 o.rand2)) s,
          ))

-- The call when address and table are in order.
add_client-resolved :
    (max : ℤ) (o : Outside) (ip mac : Text) (s : ClientList)
    → check_ip_format ip ≡ true
    → arp_get o.arp_table ip ≡ some (some mac)
    → client_list_add_client max o ip s ≡ find_or_append max o ip mac s
unfolding client_list_add_client
add_client-resolved max o ip mac s format table = ground arith

find_or_append-present :
    (max : ℤ) (o : Outside) (ip mac : Text) (s : ClientList) (n : Node)
    → client_list_find ip mac s ≡ some n
    → find_or_append max o ip mac s ≡ ok (some n.addr, s)
unfolding find_or_append
find_or_append-present max o ip mac s n e = ground arith

module _ (max : ℕ) (o : Outside) (ip : Text) (s : ClientList) (v : Inv max s) where
  find_or_append-Registered :
      (mac : Text)
      → check_ip_format ip ≡ true
      → arp_get o.arp_table ip ≡ some (some mac)
      → Registered max o ip s (find_or_append (pos max) o ip mac s)
  unfolding find_or_append
  find_or_append-Registered mac format table =
      let token = some (make_auth_token o.rand1 o.rand2) in
      elim (Option-cases (client_list_find ip mac s)) [
        | inr (n, e) ↦
            rw (find_or_append-present (pos max) o ip mac s n e) (present mac n format table e)
        | inl e ↦ elim (Bool-cases (leb max s.client_count)) [
          | inl t ↦
              let le : max ≤ s.client_count = leb→le max s.client_count t in
              rw (find_or_append, e, append-full max s v o.fresh o.now ip mac token le)
                (full mac format table e le)
          | inr f ↦
              let lt : s.client_count < max = ground arith in
              rw (find_or_append, e, append-room max s v o.fresh o.now ip mac token lt)
                (new mac format table e lt)
        ]
      ]

  -- On a list that satisfies the invariant, registering an address ends without a fault in one of five
  -- ways: refused as malformed, unknown to the ARP table, found on the list, refused because the list is full, or appended with a
  -- new token.
  pub client_list_add_client-Registered :
      Registered max o ip s (client_list_add_client (pos max) o ip s)
  unfolding client_list_add_client
  client_list_add_client-Registered = elim (Bool-cases (check_ip_format ip)) [
    | inr f ↦ rw (client_list_add_client, f) (malformed f)
    | inl t ↦ resolved t (arp_get-ends o.arp_table ip)
  ]
    where
      resolved :
          check_ip_format ip ≡ true
          → (reply : Option Text) × (arp_get o.arp_table ip ≡ some reply)
          → Registered max o ip s (client_list_add_client (pos max) o ip s)
      resolved t (none, e) = rw (client_list_add_client, t, e) (unresolved t e)
      resolved t (some mac, e) =
          rw (add_client-resolved (pos max) o ip mac s t e) (find_or_append-Registered mac t e)

find_first-append :
    (ip mac : Text) (ns : List Node) (n : Node)
    → find_first (is_client ip mac) ns ≡ none
    → is_client ip mac n.client ≡ true
    → find_first (is_client ip mac) (ns ++ n ∷ []) ≡ some n
unfolding find_first
find_first-append ip mac [] n out e = ground arith
find_first-append ip mac (m ∷ ns) n out e = ground (arith, find_first-append ip mac ns n)

-- A result with a well-formed list, in which no two clients have the same pair of addresses; the
-- client that is given back is on the list, under the address asked for.
pub data Sound (max : ℕ) (ip : Text) : Run (Option Ptr × ClientList) → Type 0 where
  sound_none : (t : ClientList) → Inv max t → Unique t.first → Sound max ip (ok (none, t))
  sound_some :
      (n : Node) (t : ClientList)
      → Inv max t
      → Unique t.first
      → n.client.ip ≡ ip
      → client_list_find n.client.ip n.client.mac t ≡ some n
      → Sound max ip (ok (some n.addr, t))

Sound-found :
    (max : ℕ) (ip mac : Text) (n : Node) (t : ClientList)
    → Inv max t
    → Unique t.first
    → client_list_find ip mac t ≡ some n
    → Sound max ip (ok (some n.addr, t))
unfolding client_list_find
Sound-found max ip mac n t v u e =
    let same = find_first-is_client ip mac t.first n e in
    let ip_n : n.client.ip ≡ ip = (text_eq_iff n.client.ip ip).0 (ground arith) in
    let mac_n : n.client.mac ≡ mac = (text_eq_iff n.client.mac mac).0 (ground arith) in
    sound_some n t v u ip_n (
      ap (λ i. client_list_find i n.client.mac t) ip_n
      ∙ (ap (λ a. client_list_find ip a t) mac_n ∙ e))

-- Registering an address keeps the list well formed and its clients apart, if malloc returns an address
-- that is neither NULL nor in use; and a client that is given back is on the list, with the address
-- that was asked for.
pub client_list_add_client-Sound :
    (max : ℕ) (o : Outside) (ip : Text) (s : ClientList)
    → Inv max s
    → Unique s.first
    → o.fresh ≢ null
    → has_addr o.fresh s.first ≡ false
    → Sound max ip (client_list_add_client (pos max) o ip s)
unfolding client_list_find appended
client_list_add_client-Sound max o ip s v u ne unused =
    from (client_list_add_client-Registered max o ip s v)
  where
    from : {r : Run (Option Ptr × ClientList)} → Registered max o ip s r → Sound max ip r
    from (malformed f) = sound_none s v u
    from (unresolved t e) = sound_none s v u
    from (present mac n t e found) = Sound-found max ip mac n s v u found
    from (full mac t e out le) = sound_none s v u
    from (new mac t e out lt) =
        let token = some (make_auth_token o.rand1 o.rand2) in
        Sound-found max ip mac _ _ (appended-Inv max s v o.fresh o.now ip mac token lt ne unused)
          (Unique-append s.first _ (find_first-has_client ip mac s.first out) u)
          (find_first-append ip mac s.first _ out
            (ground (arith, text_eq_refl ip, text_eq_refl mac)))

-- An address that got a client gets the same client again, whatever the clock, the random numbers and
-- malloc give the second call, as long as the ARP table says the same; and the list stays as it is.
pub client_list_add_client-idempotent :
    (max : ℕ) (o o' : Outside) (ip : Text) (s t : ClientList) (p : Ptr)
    → Inv max s
    → o'.arp_table ≡ o.arp_table
    → client_list_add_client (pos max) o ip s ≡ ok (some p, t)
    → client_list_add_client (pos max) o' ip t ≡ ok (some p, t)
unfolding client_list_find appended
client_list_add_client-idempotent max o o' ip s t p v same e =
    from (client_list_add_client-Registered max o ip s v) e
  where
    again :
        (mac : Text) (n : Node) (t : ClientList)
        → check_ip_format ip ≡ true
        → arp_get o.arp_table ip ≡ some (some mac)
        → client_list_find ip mac t ≡ some n
        → client_list_add_client (pos max) o' ip t ≡ ok (some n.addr, t)
    again mac n t format table found =
        let table' : arp_get o'.arp_table ip ≡ some (some mac) = rw same table in
        add_client-resolved (pos max) o' ip mac t format table'
        ∙ find_or_append-present (pos max) o' ip mac t n found

    from :
        {r : Run (Option Ptr × ClientList)}
        → Registered max o ip s r
        → r ≡ ok (some p, t)
        → client_list_add_client (pos max) o' ip t ≡ ok (some p, t)
    from (malformed f) e = cc
    from (unresolved f a) e = cc
    from (full mac f a out le) e = cc
    from (present mac n f a found) e =
        let at : n.addr ≡ p = cc in
        let list : s ≡ t = cc in rw (← at, ← list) (again mac n s f a found)
    from (new mac f a out lt) e =
        let token = some (make_auth_token o.rand1 o.rand2) in
        let at : o.fresh ≡ p = cc in
        let list : appended o.fresh o.now ip mac token s ≡ t = cc in
        rw (← at, ← list)
          (again mac _ (appended o.fresh o.now ip mac token s) f a (
            find_first-append ip mac s.first _ out
              (ground (arith, text_eq_refl ip, text_eq_refl mac))))
