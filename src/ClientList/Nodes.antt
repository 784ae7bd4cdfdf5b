-- ===== src/ClientList/Nodes.antt =====
-- The nodes of the list by address: which are there, and the list less one of them.
use wifi_cat.Base.{
  filterb, not, suc, ◌≡◌, refl, subst, inl, inr, Bool, true, false, ◌&&◌, ◌||◌, Option, none, some,
  List, [], ◌∷◌, ◌++◌, length, ◌==◌, if◌then◌else◌, arith, All, Bool-cases,
}
use wifi_cat.ClientList.{Ptr, Node, unlink}

abbrev pub has_addr : Ptr → List Node → Bool
has_addr p [] = false
has_addr p (n ∷ ns) = (n.addr == p) || has_addr p ns

abbrev pub Distinct : List Node → Type 0
Distinct [] = Unit {0}
Distinct (n ∷ ns) = (has_addr n.addr ns ≡ false) × Distinct ns

abbrev pub node_at : Ptr → List Node → Option Node
node_at p [] = none
node_at p (n ∷ ns) = if n.addr == p then some n else node_at p ns

abbrev pub without : Ptr → List Node → List Node
without p = filterb (λ n. not (n.addr == p))

pub has_addr-append :
    (p : Ptr) (ns : List Node) (n : Node)
    → has_addr p (ns ++ n ∷ []) ≡ (has_addr p ns || (n.addr == p))
has_addr-append p [] n = ground arith
has_addr-append p (m ∷ ns) n = ground (arith, has_addr-append p ns n)

pub Distinct-append :
    (ns : List Node) (n : Node) → has_addr n.addr ns ≡ false → Distinct ns → Distinct (ns ++ n ∷ [])
Distinct-append [] n out d = (refl, tt)
Distinct-append (m ∷ ns) n out d =
    (ground (arith, has_addr-append m.addr ns n), Distinct-append ns n (ground arith) d.1)

pub All-append {ℓ κ} :
    {A : Type ℓ} (P : A → Type κ) (xs : List A) (a : A) → All P xs → P a → All P (xs ++ a ∷ [])
All-append P [] a h p = (p, tt)
All-append P (x ∷ xs) a h p = (h.0, All-append P xs a h.1 p)

module _ (p : Ptr) where
  pub node_at-addr : (ns : List Node) (n : Node) → node_at p ns ≡ some n → n.addr ≡ p
  node_at-addr [] n e = cc
  node_at-addr (m ∷ ns) n e = ground (arith, node_at-addr ns n)

  pub has_addr-node_at : (ns : List Node) (n : Node) → node_at p ns ≡ some n → has_addr p ns ≡ true
  has_addr-node_at [] n e = cc
  has_addr-node_at (m ∷ ns) n e = ground (arith, has_addr-node_at ns n)

  pub node_at-absent : (ns : List Node) → has_addr p ns ≡ false → node_at p ns ≡ none
  node_at-absent [] e = refl
  node_at-absent (m ∷ ns) e = ground (arith, node_at-absent ns)

  pub without-absent : (ns : List Node) → has_addr p ns ≡ false → without p ns ≡ ns
  without-absent [] e = refl
  without-absent (m ∷ ns) e = ground (arith, without-absent ns)

  pub has_addr-without :
      (q : Ptr) (ns : List Node) → has_addr q (without p ns) ≡ (has_addr q ns && not (q == p))
  has_addr-without q [] = refl
  has_addr-without q (m ∷ ns) = ground (arith, has_addr-without q ns)

  pub Distinct-without : (ns : List Node) → Distinct ns → Distinct (without p ns)
  Distinct-without [] d = tt
  Distinct-without (m ∷ ns) d = ground (arith, Distinct-without ns d.1, has_addr-without m.addr ns)

  pub All-without {κ} : (P : Node → Type κ) (ns : List Node) → All P ns → All P (without p ns)
  All-without P [] h = tt
  All-without P (m ∷ ns) h = elim (Bool-cases (m.addr == p)) [
    | inl t ↦ rw t (All-without P ns h.1)
    | inr f ↦ rw f (h.0, All-without P ns h.1)
  ]

  pub All-node_at {κ} :
      (P : Node → Type κ) (ns : List Node) (n : Node) → All P ns → node_at p ns ≡ some n → P n
  All-node_at P [] n h e = cc
  All-node_at P (m ∷ ns) n h e = elim (Bool-cases (m.addr == p)) [
    | inl t ↦ let same : m ≡ n = ground arith in subst P same h.0
    | inr f ↦ All-node_at P ns n h.1 (ground arith)
  ]

  pub length-without :
      (ns : List Node) (n : Node)
      → Distinct ns
      → node_at p ns ≡ some n
      → length ns ≡ suc (length (without p ns))
  length-without [] n d e = cc
  length-without (m ∷ ns) n d e = ground (arith, length-without ns n d.1, without-absent ns)

  pub unlink-absent : (ns : List Node) → node_at p ns ≡ none → unlink p ns ≡ none
  unfolding unlink
  unlink-absent [] e = refl
  unlink-absent (m ∷ ns) e = ground (arith, unlink-absent ns)

  -- The walk along the list takes out the node at `p` and no other.
  pub unlink-without :
      (ns : List Node) (n : Node)
      → Distinct ns
      → node_at p ns ≡ some n
      → unlink p ns ≡ some (n, without p ns)
  unfolding unlink
  unlink-without [] n d e = cc
  unlink-without (m ∷ ns) n d e = ground (arith, unlink-without ns n d.1, without-absent ns)
