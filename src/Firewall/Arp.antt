-- ===== src/Firewall/Arp.antt =====
-- src/firewall.c, `arp_get`: the hardware address that the kernel's table has for an IP address.
use wifi_cat.Base.{
  ℕ, zero, suc, ◌<◌, ◌≡◌, refl, Bool, ◌||◌, Option, none, some, ◌==◌, if◌then◌else◌, length, arith,
  Option-cases, inl, inr, Bool-cases,
}
use wifi_cat.Base.Text.{Text, text_eq, is_digit}
use wifi_cat.Base.Scan.{
  Scan, spaces, set_of, set_of-lt, word, done, skip_line, ◌>>=◌, IsShrinking, IsShrinking-bind,
  IsShrinking-done, IsShrinking-spaces, IsShrinking-set_of, IsShrinking-word,
}
use wifi_cat.Conf.Formats.{is_mac_byte}

abbrev is_ip_byte : ℕ → Bool
is_ip_byte c = is_digit c || (c == b'.')

-- The last two words of the format. A failure there does not change the count of what has been read.
unfoldable pub two_words : Scan (Unit {0})
two_words = do a ← spaces; addr_mask ← word; b ← spaces; device ← word; done tt

unfoldable pub trailing : Scan (Unit {0})
unfolding two_words
trailing s = (some tt, (two_words s).1)

-- ` %15[0-9.] %*s %*s %17[A-Fa-f0-9:] %*s %*s`
unfoldable pub arp_fields : Text → Scan (Text × Text)
unfolding trailing
arp_fields ip = do
  a ← spaces
  hw_type ← word
  b ← spaces
  flags ← word
  c ← spaces
  mac ← set_of 17 is_mac_byte
  d ← trailing
  done (ip, mac)

unfoldable pub arp_entry : Scan (Text × Text)
unfolding arp_fields
arp_entry = do a ← spaces; ip ← set_of 15 is_ip_byte; arp_fields ip

-- The loop, on fuel: `none` means that it ran out. At the end of the file no entry is read, so the test
-- of `feof` adds nothing.
unfoldable pub arp_loop : ℕ → Text → Text → Option (Option Text)
unfolding arp_entry
arp_loop zero req s = none
arp_loop (suc fuel) req s =
    let rest = arp_loop fuel req (arp_entry s).1 in
    elim (arp_entry s).0 [
      | none ↦ some none
      | some (ip, mac) ↦ if text_eq ip req then some (some mac) else rest
    ]

-- `arp_get`, from what /proc/net/arp holds, if it can be opened. Each round reads at least one byte.
unfoldable pub arp_get : Option Text → Text → Option (Option Text)
unfolding arp_loop
arp_get table req = elim table [
  | none ↦ some none
  | some file ↦ arp_loop (suc (length (skip_line file))) req (skip_line file)
]

IsShrinking-trailing : IsShrinking trailing
unfolding trailing two_words
IsShrinking-trailing = IsShrinking-bind _ _ IsShrinking-spaces (λ a.
    IsShrinking-bind _ _ IsShrinking-word (λ w.
      IsShrinking-bind _ _ IsShrinking-spaces
        (λ b. IsShrinking-bind _ _ IsShrinking-word (λ v. IsShrinking-done tt))))

IsShrinking-arp_fields : (ip : Text) → IsShrinking (arp_fields ip)
unfolding arp_fields
IsShrinking-arp_fields ip = IsShrinking-bind _ _ IsShrinking-spaces (λ a.
    IsShrinking-bind _ _ IsShrinking-word (λ w. IsShrinking-bind _ _ IsShrinking-spaces (λ b.
      IsShrinking-bind _ _ IsShrinking-word (λ f. IsShrinking-bind _ _ IsShrinking-spaces (λ c.
        IsShrinking-bind _ _ (IsShrinking-set_of 17 is_mac_byte)
          (λ mac. IsShrinking-bind _ _ IsShrinking-trailing (λ d. IsShrinking-done (ip, mac))))))))

arp_entry-lt :
    (s : Text) (entry : Text × Text)
    → (arp_entry s).0 ≡ some entry
    → length (arp_entry s).1 < length s
unfolding arp_entry ◌>>=◌
arp_entry-lt s entry e =
    let after = (spaces s).1 in
    elim (Option-cases (set_of 15 is_ip_byte after).0) [
      | inl out ↦ absurd (ground arith)
      | inr (ip, found) ↦
          let fewer = set_of-lt 15 is_ip_byte after ip found in
          let more = IsShrinking-arp_fields ip (set_of 15 is_ip_byte after).1 in
          ground (arith, IsShrinking-spaces s, fewer, more)
    ]

arp_loop-ends :
    (fuel : ℕ) (req s : Text)
    → length s < fuel
    → (reply : Option Text) × (arp_loop fuel req s ≡ some reply)
unfolding arp_loop
arp_loop-ends zero req s enough = absurd (omega arith)
arp_loop-ends (suc fuel) req s enough = elim (Option-cases (arp_entry s).0) [
  | inl out ↦ (none, ground arith)
  | inr ((ip, mac), read) ↦
      let (reply, ends) =
        arp_loop-ends fuel req (arp_entry s).1 (omega (arith, arp_entry-lt s (ip, mac) read)) in
      elim (Bool-cases (text_eq ip req)) [
        | inl same ↦ (some mac, ground arith)
        | inr other ↦ (reply, ground arith)
      ]
]

-- Whatever the table holds, the search in it comes to an end.
pub arp_get-ends :
    (table : Option Text) (req : Text) → (reply : Option Text) × (arp_get table req ≡ some reply)
unfolding arp_get
arp_get-ends none req = (none, refl)
arp_get-ends (some file) req =
    arp_loop-ends (suc (length (skip_line file))) req (skip_line file) (omega arith)
