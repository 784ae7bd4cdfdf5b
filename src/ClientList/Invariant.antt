-- ===== src/ClientList/Invariant.antt =====
-- src/client_list.c: the invariant that ties the table `client_arr` to the nodes of the list, and what the
-- operations of the list do to it.
use wifi_cat.Base.{
  ℕ, suc, ◌-◌, ◌≤◌, ◌<◌, ◌≡◌, ◌≢◌, refl, sym, ap, ◌∙◌, inl, inr, true, false, Option, none, some,
  List, [], ◌∷◌, ◌++◌, length, set, replicate, ◌==◌, Run, ok, arith, All, length-set, length-append,
  length-replicate, get_elem?-set_self, lt-length_of_get, Bool-cases, Option-cases,
}
use wifi_cat.Base.Text.{Text}
use wifi_cat.Base.Int.{pos}
use wifi_cat.ClientList.{
  Ptr, null, Client, Node, ClientList, client_list_init, new_client, client_list_append,
  client_list_delete, update_at, update_client,
}
use wifi_cat.ClientList.Nodes.{
  has_addr, Distinct, Distinct-append, All-append, node_at, without, node_at-addr, has_addr-node_at,
  node_at-absent, has_addr-without, Distinct-without, All-without, All-node_at, length-without,
  unlink-absent, unlink-without,
}
use wifi_cat.ClientList.Slots.{
  used, InSlot, first_free, first_free-IsFree, free_slot-first_free, used-replicate, used-set_taken,
  used-set-null, slots-set_taken, slots-set-null,
}

pub record Inv (max : ℕ) (s : ClientList) : Type 0 where
  pub counted : s.client_count ≡ length s.first
  pub sized : length s.client_arr ≡ max
  pub taken : used s.client_arr ≡ length s.first
  pub distinct : Distinct s.first
  pub slots : All (InSlot s.client_arr) s.first

-- The initialised list is empty and well formed, with as many slots as clients are allowed.
pub client_list_init-Inv :
    (n : ℕ) (s : ClientList) → (t : ClientList) × (client_list_init (pos n) s ≡ some t) × Inv n t
unfolding client_list_init
client_list_init-Inv n s = (
  record s { first = []; client_count = 0; client_arr = replicate n null },
  refl,
  record {
    counted = refl;
    sized = length-replicate n null;
    taken = used-replicate n;
    distinct = tt;
    slots = tt;
  },
)

abbrev new_node : Ptr → ℕ → Text → Text → Option Text → ClientList → Node
new_node fresh now ip mac token s = record {
  addr = fresh;
  client = new_client ip mac token now (first_free s.client_arr);
}

-- What `client_list_append` makes of a list with room.
unfoldable pub appended : Ptr → ℕ → Text → Text → Option Text → ClientList → ClientList
appended fresh now ip mac token s = record s {
  first = s.first ++ new_node fresh now ip mac token s ∷ [];
  client_count = suc s.client_count;
  client_arr = set s.client_arr (first_free s.client_arr) fresh;
  last_client_time = now;
}

module _ (max : ℕ) (s : ClientList) (v : Inv max s) where
  has_room : s.client_count < max → used s.client_arr < length s.client_arr
  has_room room = omega (arith, v.counted, v.sized, v.taken)

  pub append-full :
      (fresh : Ptr) (now : ℕ) (ip mac : Text) (token : Option Text)
      → max ≤ s.client_count
      → client_list_append (pos max) fresh now ip mac token s ≡ ok (none, s)
  unfolding client_list_append
  append-full fresh now ip mac token full = ground arith

  pub append-room :
      (fresh : Ptr) (now : ℕ) (ip mac : Text) (token : Option Text)
      → s.client_count < max
      → client_list_append (pos max) fresh now ip mac token s
        ≡ ok (some fresh, appended fresh now ip mac token s)
  unfolding client_list_append appended
  append-room fresh now ip mac token room =
      let free = first_free-IsFree s.client_arr (has_room room) in
      let found = free_slot-first_free max 0 s.client_arr (sym v.sized) (has_room room) in
      ground (arith, found, lt-length_of_get s.client_arr (first_free s.client_arr) free)

  pub appended-Inv :
      (fresh : Ptr) (now : ℕ) (ip mac : Text) (token : Option Text)
      → s.client_count < max
      → fresh ≢ null
      → has_addr fresh s.first ≡ false
      → Inv max (appended fresh now ip mac token s)
  unfolding appended
  appended-Inv fresh now ip mac token room ne unused =
      let n = new_node fresh now ip mac token s in
      let i = first_free s.client_arr in
      let free = first_free-IsFree s.client_arr (has_room room) in
      let longer = length-append s.first (n ∷ []) in
      record {
        counted = omega (arith, longer, v.counted);
        sized = length-set s.client_arr i fresh ∙ v.sized;
        taken = omega (arith, longer, v.taken, used-set_taken s.client_arr i fresh ne free);
        distinct = Distinct-append s.first n unused v.distinct;
        slots =
            All-append (InSlot (set s.client_arr i fresh)) s.first n
              (slots-set_taken s.client_arr i fresh s.first free v.slots)
              (ne, get_elem?-set_self s.client_arr i fresh (lt-length_of_get s.client_arr i free));
      }

-- What `client_list_delete` makes of a list with the node `n` at `p`.
unfoldable pub deleted : Node → ClientList → ClientList
deleted n s = record s {
  first = without n.addr s.first;
  client_arr = set s.client_arr n.client.idx null;
  client_count = s.client_count - 1;
}

absent-node_at : (p : Ptr) (ns : List Node) → node_at p ns ≡ none → has_addr p ns ≡ false
absent-node_at p [] e = refl
absent-node_at p (n ∷ ns) e = ground (arith, absent-node_at p ns)

module _ (max : ℕ) (s : ClientList) (v : Inv max s) (p : Ptr) where
  pub delete-absent : has_addr p s.first ≡ false → client_list_delete p s ≡ ok s
  unfolding client_list_delete
  delete-absent out =
      rw (unlink-absent p s.first (node_at-absent p s.first out), client_list_delete)

  pub delete-node_at :
      (n : Node) → node_at p s.first ≡ some n → client_list_delete p s ≡ ok (deleted n s)
  unfolding client_list_delete deleted
  delete-node_at n e =
      let held = All-node_at p (InSlot s.client_arr) s.first n v.slots e in
      ground (
        arith,
        unlink-without p s.first n v.distinct e,
        node_at-addr p s.first n e,
        length-without p s.first n v.distinct e,
        v.counted,
        held.1,
      )

  pub deleted-Inv : (n : Node) → node_at p s.first ≡ some n → Inv max (deleted n s)
  unfolding deleted
  deleted-Inv n e =
      let at = node_at-addr p s.first n e in
      let held = All-node_at p (InSlot s.client_arr) s.first n v.slots e in
      let gone : has_addr n.addr (without n.addr s.first) ≡ false =
        ground (arith, has_addr-without n.addr n.addr s.first) in
      let e' : node_at n.addr s.first ≡ some n = ground (arith) in
      let shorter = length-without n.addr s.first n v.distinct e' in
      record {
        counted = omega (arith, shorter, v.counted);
        sized = length-set s.client_arr n.client.idx null ∙ v.sized;
        taken =
            omega (
              arith,
              shorter,
              v.taken,
              used-set-null s.client_arr n.client.idx n.addr held.0 held.1,
            );
        distinct = Distinct-without n.addr s.first v.distinct;
        slots =
            slots-set-null s.client_arr n.client.idx n.addr (without n.addr s.first) held.1 gone
              (All-without n.addr (InSlot s.client_arr) s.first v.slots);
      }

-- How a deletion ends: nothing at that address, or the node is gone and nothing else.
pub data Deletion (max : ℕ) (p : Ptr) (s : ClientList) : Run ClientList → Type 0 where
  nothing_there : has_addr p s.first ≡ false → Deletion max p s (ok s)
  deletion :
      (t : ClientList)
      → has_addr p s.first ≡ true
      → Inv max t
      → t.first ≡ without p s.first
      → suc t.client_count ≡ s.client_count
      → Deletion max p s (ok t)

-- On a well-formed list, deleting an address ends without a fault. Where no node has the address nothing
-- changes; else the list is the old one without that node, one shorter, and well formed again.
pub client_list_delete-Deletion :
    (max : ℕ) (s : ClientList) (p : Ptr) → Inv max s → Deletion max p s (client_list_delete p s)
unfolding deleted
client_list_delete-Deletion max s p v = elim (Option-cases (node_at p s.first)) [
  | inl e ↦
      let out : has_addr p s.first ≡ false = absent-node_at p s.first e in
      rw (delete-absent max s v p out) (nothing_there out)
  | inr (n, e) ↦
      let at = node_at-addr p s.first n e in
      rw (delete-node_at max s v p n e) (
        deletion (deleted n s) (has_addr-node_at p s.first n e) (deleted-Inv max s v p n e)
          (ap (λ a. without a s.first) at)
          (omega (arith, length-without p s.first n v.distinct e, v.counted)))
]

length-update_at :
    (p : Ptr) (f : Client → Client) (ns : List Node) → length (update_at p f ns) ≡ length ns
unfolding update_at
length-update_at p f [] = refl
length-update_at p f (m ∷ ns) = ground (arith, length-update_at p f ns)

has_addr-update_at :
    (q p : Ptr) (f : Client → Client) (ns : List Node)
    → has_addr q (update_at p f ns) ≡ has_addr q ns
unfolding update_at
has_addr-update_at q p f [] = refl
has_addr-update_at q p f (m ∷ ns) = ground (arith, has_addr-update_at q p f ns)

Distinct-update_at :
    (p : Ptr) (f : Client → Client) (ns : List Node) → Distinct ns → Distinct (update_at p f ns)
unfolding update_at
Distinct-update_at p f [] d = tt
Distinct-update_at p f (m ∷ ns) d =
    ground (arith, has_addr-update_at m.addr p f ns, Distinct-update_at p f ns)

slots-update_at :
    (slots : List Ptr) (p : Ptr) (f : Client → Client) (ns : List Node)
    → ((c : Client) → (f c).idx ≡ c.idx)
    → All (InSlot slots) ns
    → All (InSlot slots) (update_at p f ns)
unfolding update_at
slots-update_at slots p f [] keep h = tt
slots-update_at slots p f (m ∷ ns) keep h = elim (Bool-cases (m.addr == p)) [
  | inl t ↦ rw (t, keep m.client) h
  | inr e ↦ rw e (h.0, slots-update_at slots p f ns keep h.1)
]

-- A write to a client that leaves its slot number alone.
pub update_client-Inv :
    (max : ℕ) (s : ClientList) (p : Ptr) (f : Client → Client)
    → ((c : Client) → (f c).idx ≡ c.idx)
    → Inv max s
    → Inv max (update_client p f s)
unfolding update_client
update_client-Inv max s p f keep v = record {
  counted = v.counted ∙ sym (length-update_at p f s.first);
  sized = v.sized;
  taken = v.taken ∙ sym (length-update_at p f s.first);
  distinct = Distinct-update_at p f s.first v.distinct;
  slots = slots-update_at s.client_arr p f s.first keep v.slots;
}
