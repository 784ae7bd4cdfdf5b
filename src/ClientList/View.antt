-- ===== src/ClientList/View.antt =====
-- src/client_list.c, seen from outside: which pair of addresses has a client, and in what state. The order
-- of the list, the addresses of the nodes and the table of slots are forgotten.
use wifi_cat.Base.{
  ℕ, ◌≡◌, ◌≢◌, ◌++◌, Option-cases, refl, Bool, false, filterb, ◌&&◌, Option, none, some, List, [],
  ◌∷◌, ◌==◌, if◌then◌else◌, arith, Bool-cases, inl, inr,
}
use wifi_cat.Base.Text.{Text, text_eq}
use wifi_cat.ClientList.{Ptr, Client, Node, ClientList, find_first, client_list_find, update_at}
use wifi_cat.ClientList.Nodes.{without, without-absent, Distinct, node_at}
use wifi_cat.ClientList.Unique.{is_client, Unique, find_first-absent}

-- The abstract client list: the mark of each pair of addresses that has a client.
abbrev pub View : Type 0
View = Text → Text → Option ℕ

abbrev pub mark_of : Option Node → Option ℕ
mark_of none = none
mark_of (some n) = some n.client.fw_connection_state

unfoldable pub view : ClientList → View
view s ip mac = mark_of (client_list_find ip mac s)

-- The view after a change at one pair of addresses.
unfoldable pub assign : Text → Text → Option ℕ → View → View
assign ip mac mark v = λ ip' mac'. if text_eq ip' ip && text_eq mac' mac then mark else v ip' mac'

-- A search for another client does not see a write to a client, nor that it is taken off the list.
pub find_first-update_at_other :
    (ip mac : Text) (f : Client → Client) (p : Ptr) (ns : List Node) (n : Node)
    → ((c : Client) → ((f c).ip ≡ c.ip) × ((f c).mac ≡ c.mac))
    → node_at p ns ≡ some n
    → is_client ip mac n.client ≡ false
    → find_first (is_client ip mac) (update_at p f ns) ≡ find_first (is_client ip mac) ns
unfolding find_first update_at
find_first-update_at_other ip mac f p [] n keep at other = refl
find_first-update_at_other ip mac f p (m ∷ ns) n keep at other = elim (Bool-cases (m.addr == p)) [
  | inl t ↦ ground (arith, keep m.client)
  | inr e ↦ ground (arith, find_first-update_at_other ip mac f p ns n keep)
]

pub find_first-without_other :
    (ip mac : Text) (p : Ptr) (ns : List Node) (n : Node)
    → Distinct ns
    → node_at p ns ≡ some n
    → is_client ip mac n.client ≡ false
    → find_first (is_client ip mac) (without p ns) ≡ find_first (is_client ip mac) ns
unfolding find_first
find_first-without_other ip mac p [] n d at other = refl
find_first-without_other ip mac p (m ∷ ns) n d at other = elim (Bool-cases (m.addr == p)) [
  | inl t ↦ ground (arith, without-absent p ns)
  | inr e ↦ ground (arith, find_first-without_other ip mac p ns n d.1)
]

-- A write that leaves the addresses and the mark of a client alone leaves the view alone.
pub mark_of-update_at :
    (ip mac : Text) (p : Ptr) (f : Client → Client) (ns : List Node)
    → ((c : Client)
        → ((f c).ip ≡ c.ip)
          × (((f c).mac ≡ c.mac) × ((f c).fw_connection_state ≡ c.fw_connection_state)))
    → mark_of (find_first (is_client ip mac) (update_at p f ns))
      ≡ mark_of (find_first (is_client ip mac) ns)
unfolding find_first update_at
mark_of-update_at ip mac p f [] keep = refl
mark_of-update_at ip mac p f (m ∷ ns) keep =
    ground (arith, keep m.client, mark_of-update_at ip mac p f ns keep)

-- A node behind all others changes the view only by its own mark.
pub mark_of-append :
    (ip mac : Text) (ns : List Node) (n : Node) (k : ℕ)
    → n.client.fw_connection_state ≢ k
    → mark_of (find_first (is_client ip mac) (ns ++ n ∷ [])) ≡ some k
    → mark_of (find_first (is_client ip mac) ns) ≡ some k
unfolding find_first
mark_of-append ip mac [] n k ne e = absurd (ground arith)
mark_of-append ip mac (m ∷ ns) n k ne e = ground (arith, mark_of-append ip mac ns n k ne)

-- Where no two clients share a pair of addresses, a client that is found after some nodes have gone was found
-- before.
pub find_first-filterb :
    (ip mac : Text) (test : Node → Bool) (ns : List Node) (n : Node)
    → Unique ns
    → find_first (is_client ip mac) (filterb test ns) ≡ some n
    → find_first (is_client ip mac) ns ≡ some n
unfolding find_first
find_first-filterb ip mac test [] n u e = cc
find_first-filterb ip mac test (m ∷ ns) n u e = elim (Bool-cases (is_client ip mac m.client)) [
  | inr f ↦ ground (arith, find_first-filterb ip mac test ns n u.1)
  | inl t ↦ elim (Bool-cases (test m)) [
    | inl kept ↦ ground arith
    | inr gone ↦
        let found = find_first-filterb ip mac test ns n u.1 (ground arith) in
        absurd (ground (arith, find_first-absent ip mac m.client ns t u.0))
  ]
]

pub mark_of-filterb :
    (ip mac : Text) (test : Node → Bool) (ns : List Node) (k : ℕ)
    → Unique ns
    → mark_of (find_first (is_client ip mac) (filterb test ns)) ≡ some k
    → mark_of (find_first (is_client ip mac) ns) ≡ some k
mark_of-filterb ip mac test ns k u e =
    elim (Option-cases (find_first (is_client ip mac) (filterb test ns))) [
      | inl out ↦ absurd (ground arith)
      | inr (n, found) ↦ ground (arith, find_first-filterb ip mac test ns n u found)
    ]
