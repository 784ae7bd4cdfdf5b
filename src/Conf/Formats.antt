-- ===== src/Conf/Formats.antt =====
-- src/conf.c, `check_ip_format` and `check_mac_format`, and what the callers scan from a checked text.
use wifi_cat.Base.{
  ℕ, Bool, true, false, ◌&&◌, ◌||◌, Option, none, some, ◌==◌, ltb, ◌≡◌, arith, Option-cases, inl,
  inr,
}
use wifi_cat.Base.Text.{Text, is_hex}
use wifi_cat.Base.Scan.{Scan, set_of, set_of-some, byte, done, u32, ◌>>=◌}

abbrev pub is_mac_byte : ℕ → Bool
is_mac_byte c = is_hex c || (c == b':')

-- `sscanf(possiblemac, "%2[A-Fa-f0-9]:...", ...) == 6`. What follows the sixth group is not looked at.
unfoldable pub mac_groups : Scan (Unit {0})
mac_groups =
    let group = set_of 2 is_hex in
    do
      g1 ← group
      c1 ← byte b':'
      g2 ← group
      c2 ← byte b':'
      g3 ← group
      c3 ← byte b':'
      g4 ← group
      c4 ← byte b':'
      g5 ← group
      c5 ← byte b':'
      g6 ← group
      done tt

unfoldable pub is_match {ℓ} : {A : Type ℓ} → Option A → Bool
is_match none = false
is_match (some a) = true

unfoldable pub check_mac_format : Text → Bool
unfolding mac_groups is_match
check_mac_format s = is_match (mac_groups s).0

-- `sscanf(possiblemac, "%17[A-Fa-f0-9:]", mac)`; without a match `mac` is not written.
unfoldable pub mac_of : Text → Option Text
mac_of s = (set_of 17 is_mac_byte s).0

-- `sscanf(possibleip, "%u.%u.%u.%u", ...) == 4`, and each below 256.
unfoldable pub ip_groups : Scan Bool
ip_groups = do
  a1 ← u32
  d1 ← byte b'.'
  a2 ← u32
  d2 ← byte b'.'
  a3 ← u32
  d3 ← byte b'.'
  a4 ← u32
  done (ltb a1 256 && ltb a2 256 && ltb a3 256 && ltb a4 256)

unfoldable pub is_yes : Option Bool → Bool
is_yes none = false
is_yes (some b) = b

unfoldable pub check_ip_format : Text → Bool
unfolding ip_groups is_yes
check_ip_format s = is_yes (ip_groups s).0

-- What `check_mac_format` accepts, the callers can scan.
pub check_mac_format-mac_of :
    (s : Text) → check_mac_format s ≡ true → (mac : Text) × (mac_of s ≡ some mac)
unfolding check_mac_format mac_groups mac_of ◌>>=◌ is_match
check_mac_format-mac_of s e = elim (Option-cases (set_of 2 is_hex s).0) [
  | inl no_group ↦ absurd (ground arith)
  | inr (g, found) ↦ set_of-some 1 16 is_hex is_mac_byte (λ c h. ground arith) s g found
]
