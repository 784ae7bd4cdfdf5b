-- ===== src/Base/Scan.antt =====
-- The parts of scanf formats that the program uses. A scan takes what is left to read and gives the
-- value, if there is a match, and what is then left.
use Prim.Native.Nat.{ℕ, zero, suc, ◌+◌, ◌-◌, ◌*◌, ◌%◌, ◌^◌, ◌≤◌, ◌<◌, min}
use mathlib.Core.Path.{◌≡◌, refl}
use mathlib.Core.Logic.{inl, inr}
use mathlib.Core.Bool.{Bool, true, false, not, ◌&&◌, ◌||◌}
use mathlib.Core.Option.{Option, none, some}
use mathlib.Core.List.{[], ◌∷◌}
use native.Mathlib.Omega.{arith}
use wifi_cat.Base.Tests.{leb, ◌==◌, if◌then◌else◌, Bool-cases}
use wifi_cat.Base.Lists.{length}
use wifi_cat.Base.Int.{ℤ, to_int}
use wifi_cat.Base.Text.{Text, is_digit, is_hex, is_space}

abbrev pub Scan : Type 0 → Type 0
Scan A = Text → Option A × Text

infixl 5 ◌>>=◌ ◌>>◌
unfoldable pub ◌>>=◌ : {A B : Type 0} → Scan A → (A → Scan B) → Scan B
(m >>= f) s = elim (m s).0 [ none ↦ (none, (m s).1) | some a ↦ f a (m s).1 ]

abbrev pub ◌>>◌ : {A B : Type 0} → Scan A → Scan B → Scan B
m >> k = m >>= λ _. k

unfoldable pub done : {A : Type 0} → A → Scan A
done a s = (some a, s)

-- A blank in a format.
unfoldable pub drop_spaces : Text → Text
drop_spaces [] = []
drop_spaces (c ∷ s) = if is_space c then drop_spaces s else c ∷ s

unfoldable pub spaces : Scan (Unit {0})
unfolding drop_spaces
spaces s = (some tt, drop_spaces s)

-- The longest run of at most `n` bytes that pass the test, and the rest.
unfoldable pub run_of : ℕ → (ℕ → Bool) → Text → Text × Text
run_of zero test s = ([], s)
run_of (suc n) test [] = ([], [])
run_of (suc n) test (c ∷ s) =
    let (t, rest) = run_of n test s in if test c then (c ∷ t, rest) else ([], c ∷ s)

unfoldable pub nonempty : Text × Text → Option Text × Text
nonempty ([], rest) = (none, rest)
nonempty (c ∷ t, rest) = (some (c ∷ t), rest)

-- `%n[...]`: no match where not one byte passes.
unfoldable pub set_of : ℕ → (ℕ → Bool) → Scan Text
unfolding run_of nonempty
set_of n test s = nonempty (run_of n test s)

-- A text that starts with a match of one set starts with a match of a wider one.
pub set_of-some :
    (n k : ℕ) (test wider : ℕ → Bool)
    → ((c : ℕ) → test c ≡ true → wider c ≡ true)
    → (s t : Text) → (set_of (suc n) test s).0 ≡ some t
    → (u : Text) × ((set_of (suc k) wider s).0 ≡ some u)
unfolding set_of run_of nonempty
set_of-some n k test wider h [] t e = cc
set_of-some n k test wider h (c ∷ s) t e = elim (Bool-cases (test c)) [
  | inl passes ↦ (c ∷ (run_of k wider s).0, rw (h c passes) refl)
  | inr other ↦ absurd (ground arith)
]

-- `%s`: a word. No word is longer than the text.
unfoldable pub word : Scan Text
unfolding spaces set_of
word s = set_of (length (drop_spaces s)) (λ c. not (is_space c)) (drop_spaces s)

-- A byte of the format that must stand there.
unfoldable pub byte : ℕ → Scan (Unit {0})
byte c [] = (none, [])
byte c (d ∷ s) = if d == c then (some tt, s) else (none, d ∷ s)

unfoldable pub value_of : ℕ → Text → ℕ
value_of acc [] = acc
value_of acc (c ∷ s) = value_of (acc * 10 + (c - b'0')) s

-- The digits of a number as `strtoull` reads them: values that do not fit give the greatest word.
unfoldable pub number : Scan ℕ
unfolding set_of value_of
number = do
  digits ← (λ s. set_of (length s) is_digit s)
  done (min (2 ^ 64 - 1) (value_of 0 digits))

-- A minus sign negates modulo 2 ^ 64, unless the value did not fit.
unfoldable pub negated : Scan ℕ
unfolding number
negated = do n ← number; done (if n == 2 ^ 64 - 1 then n else (2 ^ 64 - n) % 2 ^ 64)

unfoldable pub signed_number : Scan ℕ
unfolding number negated
signed_number [] = (none, [])
signed_number (c ∷ s) =
    if c == b'+' then number s else if c == b'-' then negated s else number (c ∷ s)

-- `%llu`
unfoldable pub u64 : Scan ℕ
unfolding spaces signed_number
u64 = spaces >> signed_number

-- `%u`: the low 32 bits of it.
unfoldable pub u32 : Scan ℕ
unfolding u64
u32 = do n ← u64; done (n % 2 ^ 32)

-- `%d`: `strtol` stops at the limits of a 64-bit number, the low 32 bits are stored.
int_of : Bool → ℕ → ℤ
int_of minus n = to_int (if minus then 2 ^ 64 - min (2 ^ 63) n else min (2 ^ 63 - 1) n)

int_digits : Bool → Scan ℤ
unfolding set_of value_of int_of
int_digits minus = do
  digits ← (λ s. set_of (length s) is_digit s)
  done (int_of minus (value_of 0 digits))

signed_int : Scan ℤ
unfolding int_digits
signed_int [] = (none, [])
signed_int (c ∷ s) =
    if c == b'+'
    then int_digits false s
    else if c == b'-'
    then int_digits true s
    else int_digits false (c ∷ s)

unfoldable pub i32 : Scan ℤ
unfolding spaces signed_int
i32 = spaces >> signed_int

hex_digit : ℕ → ℕ
hex_digit c = if leb c b'9' then c - b'0' else if leb c b'F' then c - b'A' + 10 else c - b'a' + 10

hex_value : ℕ → Text → ℕ
unfolding hex_digit
hex_value acc [] = acc
hex_value acc (c ∷ s) = hex_value (acc * 16 + hex_digit c) s

-- A `0x` in front may be left out; with nothing behind it the value is 0.
hex_digits : Scan ℕ
unfolding set_of hex_value
hex_digits = do digits ← (λ s. set_of (length s) is_hex s); done (hex_value 0 digits)

behind_prefix : Text → Text
behind_prefix [] = []
behind_prefix (c ∷ []) = c ∷ []
behind_prefix (c ∷ d ∷ s) =
    if (c == b'0') && ((d == b'x') || (d == b'X')) then b'0' ∷ s else c ∷ d ∷ s

hex_number : Bool → Scan ℕ
unfolding hex_digits behind_prefix
hex_number minus s =
    (do
      n ← hex_digits
      let value = min (2 ^ 64 - 1) n
      done (
          if minus && not (value == 2 ^ 64 - 1) then (2 ^ 64 - value) % 2 ^ 32 else value % 2 ^ 32))
      (behind_prefix s)

signed_hex : Scan ℕ
unfolding hex_number
signed_hex [] = (none, [])
signed_hex (c ∷ s) =
    if c == b'+'
    then hex_number false s
    else if c == b'-'
    then hex_number true s
    else hex_number false (c ∷ s)

-- `%x`: the low 32 bits of what `strtoul` gives.
unfoldable pub x32 : Scan ℕ
unfolding spaces signed_hex
x32 = spaces >> signed_hex

-- What is left after the rest of a line.
unfoldable pub skip_line : Text → Text
skip_line [] = []
skip_line (c ∷ s) = if c == 10 then s else skip_line s

-- No scan gives back more than it was given.
abbrev pub IsShrinking : {A : Type 0} → Scan A → Type 0
IsShrinking m = (s : Text) → length (m s).1 ≤ length s

pub IsShrinking-bind :
    {A B : Type 0} (m : Scan A) (f : A → Scan B)
    → IsShrinking m
    → ((a : A) → IsShrinking (f a))
    → IsShrinking (m >>= f)
unfolding ◌>>=◌
IsShrinking-bind {A} {B} m f hm hf s = go (m s).0 (m s).1 (hm s)
  where
    go :
        (o : Option A) (rest : Text)
        → length rest ≤ length s
        → length
            (let r : Option B × Text = elim o [ none ↦ (none, rest) | some a ↦ f a rest ] in r.1)
          ≤ length s
    go none rest h = h
    go (some a) rest h = omega (arith, hf a rest, h)

pub IsShrinking-done : {A : Type 0} (a : A) → IsShrinking (done a)
unfolding done
IsShrinking-done a s = omega arith

drop_spaces-le : (s : Text) → length (drop_spaces s) ≤ length s
unfolding drop_spaces
drop_spaces-le [] = omega arith
drop_spaces-le (c ∷ s) = ground (arith, drop_spaces-le s)

pub IsShrinking-spaces : IsShrinking spaces
unfolding spaces
IsShrinking-spaces s = drop_spaces-le s

run_of-le : (n : ℕ) (test : ℕ → Bool) (s : Text) → length (run_of n test s).1 ≤ length s
unfolding run_of
run_of-le zero test s = omega arith
run_of-le (suc n) test [] = omega arith
run_of-le (suc n) test (c ∷ s) = ground (arith, run_of-le n test s)

nonempty-snd : (p : Text × Text) → (nonempty p).1 ≡ p.1
unfolding nonempty
nonempty-snd ([], rest) = refl
nonempty-snd (c ∷ t, rest) = refl

pub IsShrinking-set_of : (n : ℕ) (test : ℕ → Bool) → IsShrinking (set_of n test)
unfolding set_of
IsShrinking-set_of n test s = rw (nonempty-snd (run_of n test s)) (run_of-le n test s)

pub IsShrinking-word : IsShrinking word
unfolding word
IsShrinking-word s = omega (
  arith,
  IsShrinking-set_of (length (drop_spaces s)) (λ c. not (is_space c)) (drop_spaces s),
  drop_spaces-le s,
)

IsShrinking-number : IsShrinking number
unfolding number
IsShrinking-number =
    IsShrinking-bind _ _ (λ s. IsShrinking-set_of (length s) is_digit s) (λ d. IsShrinking-done _)

IsShrinking-negated : IsShrinking negated
unfolding negated
IsShrinking-negated = IsShrinking-bind _ _ IsShrinking-number (λ n. IsShrinking-done _)

IsShrinking-signed_number : IsShrinking signed_number
unfolding signed_number
IsShrinking-signed_number [] = omega arith
IsShrinking-signed_number (c ∷ s) =
    ground (arith, IsShrinking-number s, IsShrinking-negated s, IsShrinking-number (c ∷ s))

pub IsShrinking-u64 : IsShrinking u64
unfolding u64
IsShrinking-u64 = IsShrinking-bind _ _ IsShrinking-spaces (λ t. IsShrinking-signed_number)

IsShrinking-int_digits : (minus : Bool) → IsShrinking (int_digits minus)
unfolding int_digits
IsShrinking-int_digits minus =
    IsShrinking-bind _ _ (λ s. IsShrinking-set_of (length s) is_digit s) (λ d. IsShrinking-done _)

IsShrinking-signed_int : IsShrinking signed_int
unfolding signed_int
IsShrinking-signed_int [] = omega arith
IsShrinking-signed_int (c ∷ s) = ground (
  arith,
  IsShrinking-int_digits false s,
  IsShrinking-int_digits true s,
  IsShrinking-int_digits false (c ∷ s),
)

pub IsShrinking-i32 : IsShrinking i32
unfolding i32
IsShrinking-i32 = IsShrinking-bind _ _ IsShrinking-spaces (λ t. IsShrinking-signed_int)

pub skip_line-lt : (c : ℕ) (s : Text) → length (skip_line (c ∷ s)) < length (c ∷ s)
unfolding skip_line
skip_line-lt c [] = ground arith
skip_line-lt c (d ∷ s) = ground (arith, skip_line-lt d s)

pub skip_line-le : (s : Text) → length (skip_line s) ≤ length s
unfolding skip_line
skip_line-le [] = omega arith
skip_line-le (c ∷ s) = ground (arith, skip_line-le s)

-- A match of a set takes at least one byte.
pub set_of-lt :
    (n : ℕ) (test : ℕ → Bool) (s t : Text)
    → (set_of n test s).0 ≡ some t
    → length (set_of n test s).1 < length s
unfolding set_of run_of nonempty
set_of-lt zero test s t e = cc
set_of-lt (suc n) test [] t e = cc
set_of-lt (suc n) test (c ∷ s) t e = ground (arith, run_of-le n test s)
