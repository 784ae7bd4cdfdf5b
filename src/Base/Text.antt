-- ===== src/Base/Text.antt =====
-- Texts as lists of bytes without the closing NUL, and the string.h and ctype.h functions that the
-- program calls on them.
use Prim.Native.Nat.{ℕ, zero, suc, ◌+◌, ◌-◌, ◌/◌, ◌%◌}
use Prim.Native.Char.{code}
use Prim.Native.String.{String}
use mathlib.Core.Path.{◌≡◌, refl}
use mathlib.Core.Logic.{◌↔◌}
use mathlib.Core.Bool.{Bool, true, false, ◌&&◌, ◌||◌}
use mathlib.Core.List.{List, [], ◌∷◌, ◌++◌, map}
use native.Mathlib.Omega.{arith}
use wifi_cat.Base.Tests.{leb, ◌==◌, if◌then◌else◌}
use wifi_cat.Base.Int.{ℤ, pos, negsuc}

abbrev pub Text : Type 0
Text = List ℕ

-- The bytes of an ASCII literal.
unfoldable pub codes : String → Text
codes String.[] = []
codes (String.◌∷◌ c s) = code c ∷ codes s

-- `!strcmp(s, t)`
unfoldable pub text_eq : Text → Text → Bool
text_eq [] [] = true
text_eq [] (d ∷ t) = false
text_eq (c ∷ s) [] = false
text_eq (c ∷ s) (d ∷ t) = (c == d) && text_eq s t

pub text_eq_iff : (s t : Text) → (text_eq s t ≡ true) ↔ (s ≡ t)
unfolding text_eq
text_eq_iff [] [] = (λ h. refl, λ h. refl)
text_eq_iff [] (d ∷ t) = (λ h. cc, λ h. cc)
text_eq_iff (c ∷ s) [] = (λ h. cc, λ h. cc)
text_eq_iff (c ∷ s) (d ∷ t) =
    (λ h. ground (arith, text_eq_iff s t), λ h. ground (arith, text_eq_iff s t))

pub text_eq_refl : (s : Text) → text_eq s s ≡ true
text_eq_refl s = (text_eq_iff s s).1 refl

pub text_eq_comm : (s t : Text) → text_eq s t ≡ text_eq t s
unfolding text_eq
text_eq_comm [] [] = refl
text_eq_comm [] (d ∷ t) = refl
text_eq_comm (c ∷ s) [] = refl
text_eq_comm (c ∷ s) (d ∷ t) = ground (arith, text_eq_comm s t)

-- `!strncmp(s, t, strlen(t))`: `s` begins with `t`.
unfoldable pub has_prefix : Text → Text → Bool
has_prefix s [] = true
has_prefix [] (d ∷ t) = false
has_prefix (c ∷ s) (d ∷ t) = (c == d) && has_prefix s t

abbrev pub is_digit : ℕ → Bool
is_digit c = leb b'0' c && leb c b'9'

-- `[A-Fa-f0-9]`
abbrev pub is_hex : ℕ → Bool
is_hex c = is_digit c || (leb b'A' c && leb c b'F') || (leb b'a' c && leb c b'f')

unfoldable pub to_lower : ℕ → ℕ
to_lower c = if leb b'A' c && leb c b'Z' then c + 32 else c

unfoldable pub is_blank : ℕ → Bool
is_blank c = (c == 32) || (c == 9)

unfoldable pub is_space : ℕ → Bool
is_space c = (c == 32) || (leb 9 c && leb c 13)

-- `!strcasecmp(s, t)`
unfoldable pub text_case_eq : Text → Text → Bool
unfolding text_eq to_lower
text_case_eq s t = text_eq (map to_lower s) (map to_lower t)

pub text_case_eq_iff : (s t : Text) → (text_case_eq s t ≡ true) ↔ (map to_lower s ≡ map to_lower t)
unfolding text_case_eq
text_case_eq_iff s t = text_eq_iff (map to_lower s) (map to_lower t)

-- The digits of a number, least significant first, on fuel.
digits_rev : ℕ → ℕ → ℕ → Text
digits_rev zero base n = []
digits_rev (suc fuel) base n =
    let digit = if leb (n % base) 9 then b'0' + n % base else b'a' + n % base - 10 in
    let more = digits_rev fuel base (n / base) in if n / base == 0 then digit ∷ [] else digit ∷ more

rev_onto : Text → Text → Text
rev_onto [] acc = acc
rev_onto (c ∷ s) acc = rev_onto s (c ∷ acc)

-- `%u` and `%x`. A number has at most as many digits as its value plus one; 64 of them are enough
-- for every machine word.
unfoldable pub print_base : ℕ → ℕ → Text
unfolding digits_rev rev_onto
print_base base n = rev_onto (digits_rev 64 base n) []

-- `%d`
unfoldable pub print_int : ℤ → Text
unfolding print_base
print_int (pos n) = print_base 10 n
print_int (negsuc n) = b'-' ∷ print_base 10 (suc n)

-- The arguments of a formatting call, in order.
pub data Piece : Type 0 where
  lit : String → Piece
  str : Text → Piece
  dec : ℤ → Piece
  hex : ℕ → Piece

piece : Piece → Text
piece (lit s) = codes s
piece (str t) = t
piece (dec n) = print_int n
piece (hex n) = print_base 16 n

-- `safe_asprintf` (the allocation is taken to succeed: the program exits where it does not).
unfoldable pub format : List Piece → Text
unfolding codes piece print_int print_base
format [] = []
format (p ∷ ps) = piece p ++ format ps
