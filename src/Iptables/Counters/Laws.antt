-- ===== src/Iptables/Counters/Laws.antt =====
-- src/fw_iptables.c, `iptables_fw_counters_update`: what it does to the counters and to the client list.
use Prim.Native.Nat.{max}
use wifi_cat.Base.{
  ℕ, zero, suc, ◌+◌, ◌-◌, ◌%◌, ◌^◌, ◌≤◌, ◌<◌, ◌≡◌, refl, Bool, true, false, Option, none, some,
  List, [], ◌∷◌, ◌++◌, length, ltb, if◌then◌else◌, arith, if_both,
}
use wifi_cat.Base.Text.{Text, text_eq, codes}
use wifi_cat.Base.Scan.{
  skip_line, IsShrinking, IsShrinking-bind, IsShrinking-done, IsShrinking-spaces,
  IsShrinking-set_of, IsShrinking-word, IsShrinking-u64, skip_line-lt,
}
use wifi_cat.Shell.{Shell}
use wifi_cat.ClientList.{ClientList, Counters, Node, client_list_find_by_ip, update_client}
use wifi_cat.ClientList.Invariant.{Inv, update_client-Inv}
use wifi_cat.ClientList.Unique.{Unique, Unique-update_at}
use wifi_cat.Iptables.Counters.{
  Reading, is_dotted, words, reading, on_reading, counters_loop, read_chain, outgoing_of,
  incoming_of, with_counters, update_by_ip, on_outgoing, on_incoming, stream,
  iptables_fw_counters_update,
}

IsShrinking-words : (n : ℕ) → IsShrinking (words n)
unfolding words
IsShrinking-words zero = IsShrinking-done tt
IsShrinking-words (suc n) = IsShrinking-bind _ _ IsShrinking-word (λ t. IsShrinking-words n)

IsShrinking-reading : (n : ℕ) → IsShrinking (reading n)
unfolding reading
IsShrinking-reading n = IsShrinking-bind _ _ IsShrinking-word λ packets.
    IsShrinking-bind _ _ IsShrinking-u64 λ bytes. IsShrinking-bind _ _ IsShrinking-word λ target.
      IsShrinking-bind _ _ (IsShrinking-words n) λ fields.
        IsShrinking-bind _ _ IsShrinking-spaces
          λ gap. IsShrinking-bind _ _ (IsShrinking-set_of 15 is_dotted) λ ip. IsShrinking-done _

pub skip_line-shorter : (n : ℕ) (s : Text) → length s ≤ suc n → length (skip_line s) < suc n
skip_line-shorter n [] h = unfold skip_line in (omega arith)
skip_line-shorter n (c ∷ s) h = omega (arith, skip_line-lt c s)

-- The traffic since the history was taken over.
abbrev pub sent : Counters → ℕ
sent c = (c.outgoing + 2 ^ 64 - c.outgoing_history) % 2 ^ 64

abbrev pub received : Counters → ℕ
received c = (c.incoming + 2 ^ 64 - c.incoming_history) % 2 ^ 64

-- A reading of the outgoing counter raises the traffic sent to what the firewall has counted and never
-- lowers it; the time of the client's last activity becomes the time of the reading if it has sent more, and stays else. The
-- traffic received stays.
pub outgoing_of_lem :
    (now bytes : ℕ) (c : Counters)
    → bytes < 2 ^ 64
    → c.outgoing_history < 2 ^ 64
    → (sent (outgoing_of now bytes c) ≡ max (sent c) bytes)
      × ((outgoing_of now bytes c).last_updated
          ≡ (if ltb (sent c) bytes then now else c.last_updated))
      × (received (outgoing_of now bytes c) ≡ received c)
unfolding outgoing_of
outgoing_of_lem now bytes c small fits = ground arith

-- A reading of the incoming counter raises the traffic received to what the firewall has counted and never
-- lowers it; the traffic sent and the time of the last activity stay.
pub incoming_of_lem :
    (bytes : ℕ) (c : Counters)
    → bytes < 2 ^ 64
    → c.incoming_history < 2 ^ 64
    → (received (incoming_of bytes c) ≡ max (received c) bytes)
      × ((incoming_of bytes c).last_updated ≡ c.last_updated)
      × (sent (incoming_of bytes c) ≡ sent c)
unfolding incoming_of
incoming_of_lem bytes c small fits = ground arith

abbrev Gives : (ClientList → Type 0) → Option ClientList → Type 0
Gives P none = ⊥
Gives P (some s) = P s

module _ (inet_aton : Text → Bool) (P : ClientList → Type 0) where
  counters_loop-Gives :
      (n : ℕ) (target : Text) (update : ℕ → Reading → ClientList → ClientList)
      → ((k : ℕ) (r : Reading) (s : ClientList) → P s → P (update k r s))
      → (fuel k : ℕ) (rest : Text) (s : ClientList) → length rest < fuel
      → P s
      → Gives P (counters_loop inet_aton n target update fuel k rest s)
  unfolding counters_loop
  counters_loop-Gives n target update keep zero k rest s enough p = absurd (omega arith)
  counters_loop-Gives n target update keep (suc fuel) k [] s enough p = p
  counters_loop-Gives n target update keep (suc fuel) k (c ∷ rest) s enough p =
      counters_loop-Gives n target update keep fuel (suc k) _ _
        (omega (
          arith,
          skip_line-shorter (length rest) (reading n (c ∷ rest)).1
              (IsShrinking-reading n (c ∷ rest)),
        ))
        (after_line (reading n (c ∷ rest)).0)
    where
      after_line : (o : Option Reading) → P (on_reading inet_aton target (update k) o s)
      after_line none = p
      after_line (some r) =
          if_both P (text_eq r.target target) (if_both P (inet_aton r.ip) (keep k r s p) p) p

  abbrev pub GivesRead : Option (ClientList × Bool) → Type 0
  GivesRead none = ⊥
  GivesRead (some (s, b)) = P s

  read_chain-GivesRead :
      (chain : Text) (n : ℕ) (target : Text) (update : ℕ → Reading → ClientList → ClientList)
      (w : Shell) (s : ClientList)
      → ((k : ℕ) (r : Reading) (s : ClientList) → P s → P (update k r s))
      → P s
      → GivesRead (read_chain inet_aton chain n target update w s)
  unfolding read_chain
  read_chain-GivesRead chain n target update w s keep p =
      opened (w.output w.log (codes "iptables -v -n -x -t mangle -L " ++ chain))
    where
      looped :
          (o : Option ClientList)
          → Gives P o
          → GivesRead (elim o [ none ↦ none | some s' ↦ some (s', true) ])
      looped none h = h
      looped (some s') h = h

      opened :
          (o : Option (List Text))
          → GivesRead (elim o [
            | none ↦ some (s, false)
            | some lines ↦
                let rest = skip_line (skip_line (stream lines)) in
                elim (counters_loop inet_aton n target update (suc (length rest)) 0 rest s) [
                  | none ↦ none
                  | some s' ↦ some (s', true)
                ]
          ])
      opened none = p
      opened (some lines) =
          let rest = skip_line (skip_line (stream lines)) in
          looped _
            (counters_loop-Gives n target update keep (suc (length rest)) 0 rest s (omega arith) p)

  -- Whatever every single update keeps, the whole function keeps, and it always comes to its end.
  pub counters_update-GivesRead :
      (clock : ℕ → ℕ) (w : Shell) (s : ClientList)
      → ((ip : Text) (f : Counters → Counters) (s : ClientList) → P s → P (update_by_ip ip f s))
      → P s
      → GivesRead (iptables_fw_counters_update inet_aton clock w s)
  unfolding iptables_fw_counters_update on_outgoing on_incoming
  counters_update-GivesRead clock w s keep p = second _ (
      read_chain-GivesRead (codes "ndsOUT") 4 (codes "MARK") (on_outgoing clock) w s
        (λ k r t q. keep r.ip (outgoing_of (clock k) r.bytes) t q) p)
    where
      second :
          (o : Option (ClientList × Bool))
          → GivesRead o
          → GivesRead (elim o [
            | none ↦ none
            | some (s1, false) ↦ some (s1, false)
            | some (s1, true) ↦
                read_chain inet_aton (codes "ndsINC") 5 (codes "ACCEPT") on_incoming w s1
          ])
      second none h = h
      second (some (s1, false)) h = h
      second (some (s1, true)) h =
          read_chain-GivesRead (codes "ndsINC") 5 (codes "ACCEPT") on_incoming w s1
            (λ k r t q. keep r.ip (incoming_of r.bytes) t q) h

-- The update of a client's counters keeps both invariants of the list.
update_by_ip-Inv :
    (max : ℕ) (ip : Text) (f : Counters → Counters) (s : ClientList)
    → Inv max s × Unique s.first
    → Inv max (update_by_ip ip f s) × Unique (update_by_ip ip f s).first
unfolding update_by_ip
update_by_ip-Inv max ip f s h = found (client_list_find_by_ip ip s)
  where
    found :
        (o : Option Node)
        → let s' : ClientList = elim o [
          | none ↦ s
          | some n ↦ update_client n.addr (with_counters f) s
        ] in
          Inv max s' × Unique s'.first
    found none = h
    found (some n) = (
      update_client-Inv max s n.addr (with_counters f) (unfold with_counters in (λ c. refl)) h.0,
      unfold update_client with_counters in
          Unique-update_at n.addr (with_counters f) s.first (λ c. (refl, refl)) h.1,
    )

-- Reading the counters comes to an end on every listing, and keeps the invariants of the client list.
pub counters_update-Inv :
    (inet_aton : Text → Bool) (clock : ℕ → ℕ) (w : Shell) (max : ℕ) (s : ClientList)
    → Inv max s
    → Unique s.first
    → GivesRead inet_aton
        (λ t. Inv max t × Unique t.first)
        (iptables_fw_counters_update inet_aton clock w s)
counters_update-Inv inet_aton clock w max s v u =
    counters_update-GivesRead inet_aton (λ t. Inv max t × Unique t.first) clock w s
      (update_by_ip-Inv max) (v, u)
