-- ===== src/ClientList/Unique.antt =====
-- src/client_list.c, the search by the pair of IP and MAC, and what the operations of the list do to it.
use wifi_cat.Base.{
  ◌≡◌, refl, ◌∙◌, Bool, true, false, ◌&&◌, ◌||◌, none, some, List, [], ◌∷◌, ◌++◌, ◌==◌, arith,
  Bool-cases, inl, inr,
}
use wifi_cat.Base.Text.{Text, text_eq, text_eq_refl, text_eq_comm, text_eq_iff}
use wifi_cat.ClientList.{Ptr, Client, Node, ClientList, find_first, client_list_find, update_at}
use wifi_cat.ClientList.Nodes.{without, without-absent, Distinct, node_at, node_at-absent}

abbrev pub is_client : Text → Text → Client → Bool
is_client ip mac c = text_eq c.ip ip && text_eq c.mac mac

abbrev pub has_client : Text → Text → List Node → Bool
has_client ip mac [] = false
has_client ip mac (n ∷ ns) = is_client ip mac n.client || has_client ip mac ns

abbrev pub Unique : List Node → Type 0
Unique [] = Unit {0}
Unique (n ∷ ns) = (has_client n.client.ip n.client.mac ns ≡ false) × Unique ns

is_client_comm : (m n : Client) → is_client m.ip m.mac n ≡ is_client n.ip n.mac m
is_client_comm m n = ground (arith, text_eq_comm m.ip n.ip, text_eq_comm m.mac n.mac)

pub find_first-split :
    (kept : List Node) (n : Node) (ns : List Node)
    → Unique (kept ++ n ∷ ns)
    → find_first (is_client n.client.ip n.client.mac) (kept ++ n ∷ ns) ≡ some n
unfolding find_first
find_first-split [] n ns u = ground (arith, text_eq_refl n.client.ip, text_eq_refl n.client.mac)
find_first-split (k ∷ kept) n ns u =
    let apart = has_client-split kept n ns k u.0 in
    ground (arith, is_client_comm k.client n.client, find_first-split kept n ns u.1)
  where
    has_client-split :
        (kept : List Node) (n : Node) (ns : List Node) (k : Node)
        → has_client k.client.ip k.client.mac (kept ++ n ∷ ns) ≡ false
        → is_client k.client.ip k.client.mac n.client ≡ false
    has_client-split [] n ns k h = ground arith
    has_client-split (m ∷ kept) n ns k h = has_client-split kept n ns k (ground arith)

pub find_first-has_client :
    (ip mac : Text) (ns : List Node)
    → find_first (is_client ip mac) ns ≡ none
    → has_client ip mac ns ≡ false
unfolding find_first
find_first-has_client ip mac [] e = refl
find_first-has_client ip mac (n ∷ ns) e = ground (arith, find_first-has_client ip mac ns)

pub find_first-is_client :
    (ip mac : Text) (ns : List Node) (n : Node)
    → find_first (is_client ip mac) ns ≡ some n
    → is_client ip mac n.client ≡ true
unfolding find_first
find_first-is_client ip mac [] n e = cc
find_first-is_client ip mac (m ∷ ns) n e = ground (arith, find_first-is_client ip mac ns n)

has_client-append :
    (ip mac : Text) (ns : List Node) (n : Node)
    → has_client ip mac (ns ++ n ∷ []) ≡ (has_client ip mac ns || is_client ip mac n.client)
has_client-append ip mac [] n = ground arith
has_client-append ip mac (m ∷ ns) n = ground (arith, has_client-append ip mac ns n)

pub Unique-append :
    (ns : List Node) (n : Node)
    → has_client n.client.ip n.client.mac ns ≡ false
    → Unique ns
    → Unique (ns ++ n ∷ [])
Unique-append [] n out u = (refl, tt)
Unique-append (m ∷ ns) n out u = (
  ground (arith, has_client-append m.client.ip m.client.mac ns n, is_client_comm m.client n.client),
  Unique-append ns n (ground arith) u.1,
)

has_client-without :
    (p : Ptr) (ip mac : Text) (ns : List Node)
    → has_client ip mac ns ≡ false
    → has_client ip mac (without p ns) ≡ false
has_client-without p ip mac [] h = refl
has_client-without p ip mac (m ∷ ns) h = ground (arith, has_client-without p ip mac ns)

pub Unique-without : (p : Ptr) (ns : List Node) → Unique ns → Unique (without p ns)
Unique-without p [] u = tt
Unique-without p (m ∷ ns) u =
    ground (arith, Unique-without p ns, has_client-without p m.client.ip m.client.mac ns)

has_client-update_at :
    (p : Ptr) (f : Client → Client) (ip mac : Text) (ns : List Node)
    → ((c : Client) → ((f c).ip ≡ c.ip) × ((f c).mac ≡ c.mac))
    → has_client ip mac (update_at p f ns) ≡ has_client ip mac ns
unfolding update_at
has_client-update_at p f ip mac [] keep = refl
has_client-update_at p f ip mac (m ∷ ns) keep =
    ground (arith, keep m.client, has_client-update_at p f ip mac ns keep)

pub Unique-update_at :
    (p : Ptr) (f : Client → Client) (ns : List Node)
    → ((c : Client) → ((f c).ip ≡ c.ip) × ((f c).mac ≡ c.mac))
    → Unique ns
    → Unique (update_at p f ns)
unfolding update_at
Unique-update_at p f [] keep u = tt
Unique-update_at p f (m ∷ ns) keep u = elim (Bool-cases (m.addr == p)) [
  | inl t ↦ rw (t, (keep m.client).0, (keep m.client).1) u
  | inr e ↦ rw e (
    has_client-update_at p f m.client.ip m.client.mac ns keep ∙ u.0,
    Unique-update_at p f ns keep u.1,
  )
]

-- The search by IP and MAC finds the one node that has both.
pub client_list_find-split :
    (s : ClientList) (kept : List Node) (n : Node) (ns : List Node)
    → s.first ≡ kept ++ n ∷ ns
    → Unique (kept ++ n ∷ ns)
    → client_list_find n.client.ip n.client.mac s ≡ some n
unfolding client_list_find
client_list_find-split s kept n ns e u = rw e (find_first-split kept n ns u)

same_client :
    (ip mac : Text) (n m : Client)
    → is_client ip mac n ≡ true
    → is_client ip mac m ≡ true
    → is_client n.ip n.mac m ≡ true
same_client ip mac n m en em =
    let ip_n = (text_eq_iff n.ip ip).0 (ground arith) in
    let mac_n = (text_eq_iff n.mac mac).0 (ground arith) in rw (ip_n, mac_n) em

pub find_first-absent :
    (ip mac : Text) (n : Client) (ns : List Node)
    → is_client ip mac n ≡ true
    → has_client n.ip n.mac ns ≡ false
    → find_first (is_client ip mac) ns ≡ none
unfolding find_first
find_first-absent ip mac n [] en out = refl
find_first-absent ip mac n (m ∷ ns) en out =
    ground (arith, same_client ip mac n m.client en, find_first-absent ip mac n ns en)

-- What a search finds is on the list, at its own address.
pub find_first-node_at :
    (ip mac : Text) (ns : List Node) (n : Node)
    → Distinct ns
    → find_first (is_client ip mac) ns ≡ some n
    → node_at n.addr ns ≡ some n
unfolding find_first
find_first-node_at ip mac [] n d e = cc
find_first-node_at ip mac (m ∷ ns) n d e = elim (Bool-cases (is_client ip mac m.client)) [
  | inl t ↦ ground arith
  | inr f ↦
      let rec = find_first-node_at ip mac ns n d.1 (ground arith) in
      ground (arith, node_at-absent n.addr ns, rec, d.0)
]

-- Once the client that a search finds is off the list, the search finds nothing.
pub find_first-without :
    (ip mac : Text) (ns : List Node) (n : Node)
    → Unique ns
    → Distinct ns
    → find_first (is_client ip mac) ns ≡ some n
    → find_first (is_client ip mac) (without n.addr ns) ≡ none
unfolding find_first
find_first-without ip mac [] n u d e = cc
find_first-without ip mac (m ∷ ns) n u d e = elim (Bool-cases (is_client ip mac m.client)) [
  | inl t ↦ ground (arith, without-absent m.addr ns, find_first-absent ip mac m.client ns t)
  | inr f ↦
      let e' : find_first (is_client ip mac) ns ≡ some n = ground arith in
      ground (
        arith,
        find_first-without ip mac ns n u.1 d.1 e',
        node_at-absent n.addr ns,
        find_first-node_at ip mac ns n d.1 e',
        d.0,
      )
]

-- A write to the client that a search finds is what the search then finds.
pub find_first-update_at :
    (ip mac : Text) (f : Client → Client) (ns : List Node) (n : Node)
    → ((c : Client) → ((f c).ip ≡ c.ip) × ((f c).mac ≡ c.mac))
    → Distinct ns
    → find_first (is_client ip mac) ns ≡ some n
    → find_first (is_client ip mac) (update_at n.addr f ns)
      ≡ some (record n { client = f n.client })
unfolding find_first update_at
find_first-update_at ip mac f [] n keep d e = cc
find_first-update_at ip mac f (m ∷ ns) n keep d e = elim (Bool-cases (is_client ip mac m.client)) [
  | inl t ↦ ground (arith, keep m.client)
  | inr other ↦
      let e' : find_first (is_client ip mac) ns ≡ some n = ground arith in
      ground (
        arith,
        find_first-update_at ip mac f ns n keep d.1 e',
        node_at-absent n.addr ns,
        find_first-node_at ip mac ns n d.1 e',
        d.0,
      )
]
