-- ===== src/Shell.antt =====
-- src/util.c, `execute`, seen from its callers: every shell command that the program ran, newest first,
-- and what the child's exit gave back. The fork, the shell and the program it starts are outside: their
-- answer is any function of the commands run so far and of the new one. So is what `popen` reads, as the
-- lines of a listing, or nothing where it fails. `quiet` only closes the child's error output.
pub mod Trace
use Prim.Native.Nat.{bit_or}
use wifi_cat.Base.{
  Option, ℕ, zero, suc, ◌==◌, ◌+◌, ◌≤◌, ◌≡◌, refl, Bool, true, false, List, [], ◌∷◌, ◌++◌, arith,
  if◌then◌else◌, replicate, length, Bool-cases, ◌⊎◌, inl, inr, ◌≢◌, ap, ◌∙◌, sym,
}
use wifi_cat.Base.Bits.{bit_or-eq-zero}
use wifi_cat.Base.Text.{Text, Piece, format, codes}

pub record Shell : Type 0 where
  pub log : List Text
  pub reply : List Text → Text → ℕ
  pub output : List Text → Text → Option (List Text)

-- Code that runs commands and ends in a status word (32 bits).
abbrev pub Script : Type 0
Script = Shell → Shell × ℕ

unfoldable pub execute : Text → Script
execute cmd w = (record w { log = cmd ∷ w.log }, w.reply w.log cmd)

-- `rc |= first; rc |= second;`
infixl 20 ◌|=◌
unfoldable pub ◌|=◌ : Script → Script → Script
(a |= b) w = let (w', r) = a w in let (w'', r') = b w' in (w'', bit_or r r')

-- `rc = 0;`
abbrev pub nothing : Script
nothing w = (w, 0)

-- `first;` for its effect, then the rest.
infixl 20 ◌then_do◌
unfoldable pub ◌then_do◌ : Script → Script → Script
(a then_do b) w = b (a w).0

-- The retry loop of `iptables_do_command`: status 4 is a resource problem that may pass.
unfoldable pub tries : ℕ → Text → ℕ → Script
unfolding execute
tries zero cmd rc w = (w, rc)
tries (suc n) cmd rc w =
    let (w', r) = execute cmd w in elim (r == 4) [ true ↦ tries n cmd r w' | false ↦ (w', r) ]

-- `iptables_do_command`, from the formatted arguments on.
unfoldable pub iptables_do_command : List Piece → Script
unfolding tries format
iptables_do_command args = tries 5 (codes "iptables " ++ format args) 0

-- `tc_do_command`.
unfoldable pub tc_do_command : List Piece → Script
unfolding execute format
tc_do_command args = execute (codes "tc " ++ format args)

-- How often the command has been run, and what that says of the status.
pub record Tried (n : ℕ) (cmd : Text) (w : Shell) (out : Shell × ℕ) : Type 0 where
  pub times : ℕ
  pub least : 1 ≤ times
  pub most : times ≤ n
  pub only_logs : out.0 ≡ record w { log = replicate times cmd ++ w.log }
  pub given_up : (times ≡ n) ⊎ (out.1 ≢ 4)

replicate-cons {ℓ} :
    {A : Type ℓ} (n : ℕ) (a : A) (xs : List A) → replicate n a ++ a ∷ xs ≡ a ∷ (replicate n a ++ xs)
replicate-cons zero a xs = refl
replicate-cons (suc n) a xs = ap (◌∷◌ a) (replicate-cons n a xs)

abbrev logged : Text → Shell → Shell
logged cmd w = record w { log = cmd ∷ w.log }

Tried-one :
    (n : ℕ) (cmd : Text) (w : Shell) (r : ℕ)
    → ((1 ≡ suc n) ⊎ (r ≢ 4))
    → Tried (suc n) cmd w (logged cmd w, r)
Tried-one n cmd w r last = record {
  times = 1;
  least = omega arith;
  most = omega arith;
  only_logs = refl;
  given_up = last;
}

Tried-more :
    (n : ℕ) (cmd : Text) (w : Shell) (out : Shell × ℕ)
    → Tried n cmd (logged cmd w) out
    → Tried (suc n) cmd w out
Tried-more n cmd w out t = record {
  times = suc t.times;
  least = omega arith;
  most = omega (arith, t.most);
  only_logs =
      t.only_logs ∙ ap (λ (l : List Text). record w { log = l }) (replicate-cons t.times cmd w.log);
  given_up = elim t.given_up [ inl e ↦ inl (omega (arith, e)) | inr ne ↦ inr ne ];
}

pub tries-Tried :
    (n : ℕ) (cmd : Text) (rc : ℕ) (w : Shell) → Tried (suc n) cmd w (tries (suc n) cmd rc w)
unfolding tries
tries-Tried zero cmd rc w = elim (Bool-cases (w.reply w.log cmd == 4)) [
  | inl busy ↦ rw (busy, tries) (Tried-one 0 cmd w (w.reply w.log cmd) (inl refl))
  | inr other ↦ rw (other, tries) (Tried-one 0 cmd w (w.reply w.log cmd) (inl refl))
]
tries-Tried (suc n) cmd rc w = elim (Bool-cases (w.reply w.log cmd == 4)) [
  | inl busy ↦
      rw (busy, tries)
        (Tried-more (suc n) cmd w _ (tries-Tried n cmd (w.reply w.log cmd) (logged cmd w)))
  | inr other ↦
      rw (other, tries) (Tried-one (suc n) cmd w (w.reply w.log cmd) (inr (λ e. ground arith)))
]

-- `iptables_do_command` runs its command at least once and at most five times, and nothing else; and it stops with the status
-- of a resource problem, 4, only after the fifth time.
pub iptables_do_command-Tried :
    (args : List Piece) (w : Shell)
    → Tried 5 (codes "iptables " ++ format args) w (iptables_do_command args w)
unfolding iptables_do_command
iptables_do_command-Tried args w = tries-Tried 4 (codes "iptables " ++ format args) 0 w

-- The status is the last reply: wherever no reply is 4, the command runs once.
pub tries_once :
    (n : ℕ) (cmd : Text) (rc : ℕ) (w : Shell)
    → w.reply w.log cmd ≢ 4
    → tries (suc n) cmd rc w ≡ execute cmd w
unfolding tries
tries_once n cmd rc w ne = ground arith

-- A sequence of `|=` ends in 0 exactly if each part does.
pub |=-eq-zero :
    (a b : Script) (w : Shell) → ((a |= b) w).1 ≡ 0 → ((a w).1 ≡ 0) × ((b (a w).0).1 ≡ 0)
unfolding ◌|=◌
|=-eq-zero a b w e = (bit_or-eq-zero (a w).1 (b (a w).0).1).0 e
