-- ===== src/ClientList/Slots.antt =====
-- The table `client_arr` against the nodes of the list: free and taken slots, and the loop that looks for one.
use wifi_cat.Base.{
  ℕ, zero, suc, ◌+◌, ◌<◌, ◌≡◌, ◌≢◌, refl, ap, ◌∙◌, false, some, List, [], ◌∷◌, length, get_elem?,
  set, replicate, ◌==◌, if◌then◌else◌, ok, arith, All, get_elem?-set_ne,
}
use wifi_cat.ClientList.{Ptr, null, Node, free_slot}
use wifi_cat.ClientList.Nodes.{has_addr}

-- How many slots are taken.
abbrev pub used : List Ptr → ℕ
used [] = 0
used (p ∷ ps) = if p == null then used ps else suc (used ps)

-- The node's slot holds the node.
abbrev pub InSlot : List Ptr → Node → Type 0
InSlot slots n = (n.addr ≢ null) × (get_elem? slots n.client.idx ≡ some n.addr)

pub used-replicate : (n : ℕ) → used (replicate n null) ≡ 0
used-replicate zero = refl
used-replicate (suc n) = used-replicate n

-- The least slot that is free, or the size of the table.
abbrev pub first_free : List Ptr → ℕ
first_free [] = 0
first_free (p ∷ ps) = if p == null then 0 else suc (first_free ps)

pub first_free-IsFree :
    (slots : List Ptr) → used slots < length slots → get_elem? slots (first_free slots) ≡ some null
first_free-IsFree [] h = absurd (omega arith)
first_free-IsFree (p ∷ slots) h = ground (arith, first_free-IsFree slots)

-- The scan finds it wherever fewer slots are taken than there are, and reads no other.
pub free_slot-first_free :
    (rounds i : ℕ) (slots : List Ptr)
    → rounds ≡ length slots
    → used slots < length slots
    → free_slot rounds i slots ≡ ok (i + first_free slots)
unfolding free_slot
free_slot-first_free zero i slots e h = absurd (omega arith)
free_slot-first_free (suc rounds) i [] e h = absurd (omega arith)
free_slot-first_free (suc rounds) i (p ∷ slots) e h =
    ground (arith, free_slot-first_free rounds (suc i) slots)

pub used-set_taken :
    (slots : List Ptr) (i : ℕ) (p : Ptr)
    → p ≢ null
    → get_elem? slots i ≡ some null
    → used (set slots i p) ≡ suc (used slots)
used-set_taken [] i p ne h = cc
used-set_taken (q ∷ slots) zero p ne h = ground arith
used-set_taken (q ∷ slots) (suc i) p ne h = ground (arith, used-set_taken slots i p ne h)

pub used-set-null :
    (slots : List Ptr) (i : ℕ) (p : Ptr)
    → p ≢ null
    → get_elem? slots i ≡ some p
    → suc (used (set slots i null)) ≡ used slots
used-set-null [] i p ne h = cc
used-set-null (q ∷ slots) zero p ne h = ground arith
used-set-null (q ∷ slots) (suc i) p ne h = ground (arith, used-set-null slots i p ne h)

-- Nodes whose slot is not the one written keep it.
pub slots-set_taken :
    (slots : List Ptr) (i : ℕ) (p : Ptr) (ns : List Node)
    → get_elem? slots i ≡ some null
    → All (InSlot slots) ns
    → All (InSlot (set slots i p)) ns
slots-set_taken slots i p [] free h = tt
slots-set_taken slots i p (n ∷ ns) free h = (
  (h.0.0, get_elem?-set_ne slots i n.client.idx p (λ e. clash e) ∙ h.0.1),
  slots-set_taken slots i p ns free h.1,
)
  where
    clash : i ≡ n.client.idx → ⊥
    clash e = h.0.0 (ground (arith, ap (get_elem? slots) e))

pub slots-set-null :
    (slots : List Ptr) (i : ℕ) (p : Ptr) (ns : List Node)
    → get_elem? slots i ≡ some p
    → has_addr p ns ≡ false
    → All (InSlot slots) ns
    → All (InSlot (set slots i null)) ns
slots-set-null slots i p [] held out h = tt
slots-set-null slots i p (n ∷ ns) held out h = (
  (h.0.0, get_elem?-set_ne slots i n.client.idx null (λ e. clash e) ∙ h.0.1),
  slots-set-null slots i p ns held (ground arith) h.1,
)
  where
    clash : i ≡ n.client.idx → ⊥
    clash e = ground (arith, ap (get_elem? slots) e)
