-- ===== src/ClientList.antt =====
-- src/client_list.c and client_list.h: the clients that have hit the server, as the list that starts at
-- `firstclient`, in order, each node with the address that malloc gave it, and the table `client_arr`
-- of those addresses by slot. A pointer is an address; NULL is 0.
pub mod Slots
pub mod Nodes
pub mod Invariant
pub mod Unique
pub mod Register
pub mod View
use wifi_cat.Base.{
  ℕ, zero, suc, ◌+◌, ◌-◌, ◌%◌, ◌^◌, ◌≡◌, ◌≢◌, Bool, true, false, ◌&&◌, Option, none, some, List, [],
  ◌∷◌, ◌++◌, length, get_elem?, set, replicate, ltb, leb, ◌==◌, if◌then◌else◌, Run, ok, fault,
  ◌>>=◌, map,
}
use wifi_cat.Base.Text.{Text, text_eq, Piece, hex, format, codes}
use wifi_cat.Base.Int.{ℤ, pos, negsuc, pos_part, leb_ℤ, ltb_ℤ}

abbrev pub Ptr : Type 0
Ptr = ℕ

abbrev pub null : Ptr
null = 0

-- Byte counters are `unsigned long long`; `last_updated` is in seconds.
pub record Counters : Type 0 where
  pub incoming : ℕ
  pub outgoing : ℕ
  pub incoming_history : ℕ
  pub outgoing_history : ℕ
  pub last_updated : ℕ

pub record Client : Type 0 where
  pub ip : Text
  pub mac : Text
  pub token : Option Text
  pub fw_connection_state : ℕ
  pub added_time : ℕ
  pub counters : Counters
  pub attempts : ℤ
  pub download_limit : ℤ
  pub upload_limit : ℤ
  pub idx : ℕ

pub record Node : Type 0 where
  pub addr : Ptr
  pub client : Client

pub record ClientList : Type 0 where
  pub first : List Node
  pub client_count : ℕ
  pub client_arr : List Ptr
  pub last_client_time : ℕ

-- `client_list_init`. With a negative `maxclients` the size given to `safe_malloc` wraps round to more
-- than half the address space, no memory is returned and the program exits.
unfoldable pub client_list_init : ℤ → ClientList → Option ClientList
client_list_init (negsuc n) s = none
client_list_init (pos n) s =
    some (record s { first = []; client_count = 0; client_arr = replicate n null })

-- `for (i = 0; i < maxclients; i++) { if (client_arr[i]) continue; break; }` from slot `i` on, which
-- is the head of the second list; `rounds` are left. A read behind the table is a fault.
unfoldable pub free_slot : ℕ → ℕ → List Ptr → Run ℕ
free_slot zero i slots = ok i
free_slot (suc rounds) i [] = fault
free_slot (suc rounds) i (p ∷ slots) = if p == null then ok i else free_slot rounds (suc i) slots

-- `client_arr[i] = p`
unfoldable pub store_slot : List Ptr → ℕ → Ptr → Run (List Ptr)
store_slot slots i p = if ltb i (length slots) then ok (set slots i p) else fault

abbrev pub new_client : Text → Text → Option Text → ℕ → ℕ → Client
new_client ip mac token now i = record {
  ip = ip;
  mac = mac;
  token = token;
  fw_connection_state = 0;
  added_time = now;
  counters = record {
    incoming = 0;
    outgoing = 0;
    incoming_history = 0;
    outgoing_history = 0;
    last_updated = now;
  };
  attempts = pos 0;
  download_limit = pos 0;
  upload_limit = pos 0;
  idx = i;
}

-- `_client_list_append`. `fresh` is the address that malloc returns, `now` what time() does. The
-- preauthenticated mark is 0 throughout the program.
unfoldable pub client_list_append :
    ℤ → Ptr → ℕ → Text → Text → Option Text → ClientList → Run (Option Ptr × ClientList)
unfolding free_slot store_slot
client_list_append maxclients fresh now ip mac token s =
    if leb_ℤ maxclients (pos s.client_count) then ok (none, s) else do
      i ← free_slot (pos_part maxclients) 0 s.client_arr
      arr ← store_slot s.client_arr i fresh
      ok (
        some fresh,
        record s {
          first = s.first ++ record { addr = fresh; client = new_client ip mac token now i } ∷ [];
          client_count = suc s.client_count;
          client_arr = arr;
          last_client_time = now;
        },
      )

-- The loops of the four searches stop at the first match.
unfoldable pub find_first : (Client → Bool) → List Node → Option Node
find_first test [] = none
find_first test (n ∷ ns) = if test n.client then some n else find_first test ns

unfoldable pub client_list_find : Text → Text → ClientList → Option Node
unfolding find_first
client_list_find ip mac s = find_first (λ c. text_eq c.ip ip && text_eq c.mac mac) s.first

unfoldable pub client_list_find_by_ip : Text → ClientList → Option Node
unfolding find_first
client_list_find_by_ip ip s = find_first (λ c. text_eq c.ip ip) s.first

unfoldable pub client_list_find_by_mac : Text → ClientList → Option Node
unfolding find_first
client_list_find_by_mac mac s = find_first (λ c. text_eq c.mac mac) s.first

-- A node without a token is a read through NULL.
pub find_token : Text → List Node → Run (Option Node)
find_token token [] = ok none
find_token token (n ∷ ns) = elim n.client.token [
  | none ↦ fault
  | some t ↦ if text_eq t token then ok (some n) else find_token token ns
]

pub client_list_find_by_token : Text → ClientList → Run (Option Node)
unfolding find_token
client_list_find_by_token token s = find_token token s.first

-- `client_arr[client->idx]`
pub read_slot : List Ptr → ℕ → Run Ptr
read_slot slots i = elim (get_elem? slots i) [ none ↦ fault | some p ↦ ok p ]

-- `_client_list_free_node`: the slot is given back if it is still the node's.
pub free_node : Node → List Ptr → Run (List Ptr)
unfolding read_slot
free_node n slots = do
  p ← read_slot slots n.client.idx
  ok (if p == n.addr then set slots n.client.idx null else slots)

-- The node at `p` and the list without it.
pub unlink : Ptr → List Node → Option (Node × List Node)
unlink p [] = none
unlink p (n ∷ ns) =
    if n.addr == p
    then some (n, ns)
    else elim (unlink p ns) [ none ↦ none | some (m, rest) ↦ some (m, n ∷ rest) ]

-- `client_list_delete`: the node is unlinked and freed, its slot cleared, the count lowered. A pointer
-- that is not on the list changes nothing. A count that would fall below 0 is outside the model.
pub client_list_delete : Ptr → ClientList → Run ClientList
unfolding unlink free_node
client_list_delete p s = elim (unlink p s.first) [
  | none ↦ ok s
  | some (n, rest) ↦ do
    arr ← free_node n s.client_arr
    if s.client_count == 0
        then fault
        else ok (record s { first = rest; client_arr = arr; client_count = s.client_count - 1 })
]

-- A write through the pointer `p` to a node of the list.
unfoldable pub update_at : Ptr → (Client → Client) → List Node → List Node
update_at p f [] = []
update_at p f (n ∷ ns) =
    if n.addr == p then record n { client = f n.client } ∷ ns else n ∷ update_at p f ns

unfoldable pub update_client : Ptr → (Client → Client) → ClientList → ClientList
unfolding update_at
update_client p f s = record s { first = update_at p f s.first }
