-- ===== src/Iptables/Counters.antt =====
-- src/fw_iptables.c, `iptables_fw_counters_update`: the byte counters of the two counting chains, read
-- from the listing of iptables.
pub mod Laws
pub mod Totals
use wifi_cat.Base.{
  ℕ, zero, suc, ◌+◌, ◌-◌, ◌%◌, ◌^◌, ◌≤◌, ◌<◌, ◌≡◌, refl, ap, ◌∙◌, Bool, true, false, ◌&&◌, ◌||◌,
  ◌==◌, Option, none, some, List, [], ◌∷◌, ◌++◌, length, ltb, if◌then◌else◌, arith, String,
  Bool-cases, Option-cases, ◌⊎◌, inl, inr,
}
use wifi_cat.Base.Text.{Text, text_eq, codes, is_digit}
use wifi_cat.Base.Scan.{
  Scan, ◌>>=◌, ◌>>◌, done, spaces, set_of, word, u64, skip_line, IsShrinking, IsShrinking-bind,
  IsShrinking-done, IsShrinking-spaces, IsShrinking-set_of, IsShrinking-word, IsShrinking-u64,
  skip_line-lt,
}
use wifi_cat.Shell.{Shell}
use wifi_cat.ClientList.{Client, ClientList, Counters, Node, client_list_find_by_ip, update_client}

-- What the formats pick out of a line: the bytes, the target and the address.
pub record Reading : Type 0 where
  pub bytes : ℕ
  pub target : Text
  pub ip : Text

-- `[0-9.]`
pub is_dotted : ℕ → Bool
is_dotted c = is_digit c || (c == b'.')

-- `%*s %llu %s`, then `%*s` so often, then ` %15[0-9.]`.
unfoldable pub words : ℕ → Scan (Unit {0})
words zero = done tt
words (suc n) = word >> words n

unfoldable pub reading : ℕ → Scan Reading
unfolding words is_dotted
reading n = do
  packets ← word
  bytes ← u64
  target ← word
  fields ← words n
  gap ← spaces
  ip ← set_of 15 is_dotted
  done (record { bytes = bytes; target = target; ip = ip })

-- `inet_aton` belongs to the resolver of the C library.
module _ (inet_aton : Text → Bool) where
  -- What is done with a line: the chain's target is looked for, then the address, then the client.
  unfoldable pub on_reading :
      Text → (Reading → ClientList → ClientList) → Option Reading → ClientList → ClientList
  on_reading target update none s = s
  on_reading target update (some r) s =
      if text_eq r.target target then (if inet_aton r.ip then update r s else s) else s

  -- `while (!feof(output)) { ... }` on fuel, with the number of the line.
  unfoldable pub counters_loop :
      ℕ
      → Text
      → (ℕ → Reading → ClientList → ClientList)
      → ℕ
      → ℕ
      → Text
      → ClientList
      → Option ClientList
  unfolding on_reading reading
  counters_loop n target update zero k rest s = none
  counters_loop n target update (suc fuel) k [] s = some s
  counters_loop n target update (suc fuel) k (c ∷ rest) s =
      let (r, left) = reading n (c ∷ rest) in
      counters_loop n target update fuel (suc k) (skip_line left) (on_reading target (update k) r s)

-- The two updates of a client's counters; the counters are 64 bits wide.
unfoldable pub outgoing_of : ℕ → ℕ → Counters → Counters
outgoing_of now bytes c =
    if ltb ((c.outgoing + 2 ^ 64 - c.outgoing_history) % 2 ^ 64) bytes
    then record c { outgoing = (c.outgoing_history + bytes) % 2 ^ 64; last_updated = now }
    else c

unfoldable pub incoming_of : ℕ → Counters → Counters
incoming_of bytes c =
    if ltb ((c.incoming + 2 ^ 64 - c.incoming_history) % 2 ^ 64) bytes
    then record c { incoming = (c.incoming_history + bytes) % 2 ^ 64 }
    else c

unfoldable pub with_counters : (Counters → Counters) → Client → Client
with_counters f c = record c { counters = f c.counters }

unfoldable pub update_by_ip : Text → (Counters → Counters) → ClientList → ClientList
unfolding with_counters
update_by_ip ip f s = elim (client_list_find_by_ip ip s) [
  | none ↦ s
  | some n ↦ update_client n.addr (with_counters f) s
]

unfoldable pub on_outgoing : (ℕ → ℕ) → ℕ → Reading → ClientList → ClientList
unfolding update_by_ip outgoing_of
on_outgoing clock k r = update_by_ip r.ip (outgoing_of (clock k) r.bytes)

unfoldable pub on_incoming : ℕ → Reading → ClientList → ClientList
unfolding update_by_ip incoming_of
on_incoming k r = update_by_ip r.ip (incoming_of r.bytes)

-- The bytes of a listing.
unfoldable pub stream : List Text → Text
stream [] = []
stream (l ∷ ls) = l ++ (10 ∷ stream ls)

-- One half of the function: list a chain, skip the two header lines, read the rest. `none` means that
-- the fuel, one more than the bytes that are left, ran out.
unfoldable pub read_chain :
    (Text → Bool)
    → Text
    → ℕ
    → Text
    → (ℕ → Reading → ClientList → ClientList)
    → Shell
    → ClientList
    → Option (ClientList × Bool)
unfolding counters_loop stream
read_chain inet_aton chain n target update w s =
    elim (w.output w.log (codes "iptables -v -n -x -t mangle -L " ++ chain)) [
      | none ↦ some (s, false)
      | some lines ↦
          let rest = skip_line (skip_line (stream lines)) in
          elim (counters_loop inet_aton n target update (suc (length rest)) 0 rest s) [
            | none ↦ none
            | some s' ↦ some (s', true)
          ]
    ]

-- `iptables_fw_counters_update`: the list afterwards, and whether it returned 0.
unfoldable pub iptables_fw_counters_update :
    (Text → Bool) → (ℕ → ℕ) → Shell → ClientList → Option (ClientList × Bool)
unfolding read_chain
iptables_fw_counters_update inet_aton clock w s =
    elim (read_chain inet_aton (codes "ndsOUT") 4 (codes "MARK") (on_outgoing clock) w s) [
      | none ↦ none
      | some (s1, false) ↦ some (s1, false)
      | some (s1, true) ↦ read_chain inet_aton (codes "ndsINC") 5 (codes "ACCEPT") on_incoming w s1
    ]
