-- ===== src/Shell/Trace.antt =====
-- The commands that a script runs, in order, on a system where no command meets the resource problem
-- that `iptables_do_command` retries.
use wifi_cat.Base.{ℕ, ◌≡◌, ◌≢◌, refl, ap, ◌∙◌, sym, List, [], ◌∷◌, ◌++◌}
use wifi_cat.Base.Text.{Text, Piece, format, codes}
use wifi_cat.Shell.{
  Shell, Script, execute, ◌|=◌, ◌then_do◌, nothing, tries_once, iptables_do_command, tc_do_command,
}

abbrev pub NeverBusy : Shell → Type 0
NeverBusy w = (log : List Text) (cmd : Text) → w.reply log cmd ≢ 4

-- The log after the commands `cmds`.
abbrev pub push_all : List Text → List Text → List Text
push_all [] log = log
push_all (c ∷ cs) log = push_all cs (c ∷ log)

push_all-append : (xs ys log : List Text) → push_all (xs ++ ys) log ≡ push_all ys (push_all xs log)
push_all-append [] ys log = refl
push_all-append (x ∷ xs) ys log = push_all-append xs ys (x ∷ log)

abbrev pub after : List Text → Shell → Shell
after cmds w = record w { log = push_all cmds w.log }

-- The script runs `cmds`, whatever the replies, and nothing else.
pub record Runs (s : Script) (cmds : List Text) : Type 0 where
  pub runs : (w : Shell) → NeverBusy w → (s w).0 ≡ after cmds w

pub Runs-nothing : Runs nothing []
Runs-nothing = record { runs = λ w free. refl }

pub Runs-execute : (cmd : Text) → Runs (execute cmd) (cmd ∷ [])
unfolding execute
Runs-execute cmd = record { runs = λ w free. refl }

pub Runs-iptables :
    (args : List Piece) → Runs (iptables_do_command args) ((codes "iptables " ++ format args) ∷ [])
unfolding iptables_do_command
Runs-iptables args = record {
  runs = λ w free.
      ap (λ (o : Shell × ℕ). o.0)
        (tries_once 4 (codes "iptables " ++ format args) 0 w (free w.log _))
      ∙ (Runs-execute (codes "iptables " ++ format args)).runs w free;
}

pub Runs-tc : (args : List Piece) → Runs (tc_do_command args) ((codes "tc " ++ format args) ∷ [])
unfolding tc_do_command
Runs-tc args = Runs-execute (codes "tc " ++ format args)

pub Runs-|= : {a b : Script} {xs ys : List Text} → Runs a xs → Runs b ys → Runs (a |= b) (xs ++ ys)
unfolding ◌|=◌
Runs-|= {a} {b} {xs} {ys} ra rb = record {
  runs = λ w free.
      ap (λ (v : Shell). (b v).0) (ra.runs w free)
      ∙ rb.runs (after xs w) free
      ∙ ap (λ (l : List Text). record w { log = l }) (sym (push_all-append xs ys w.log));
}

pub Runs-then_do :
    {a b : Script} {xs ys : List Text} → Runs a xs → Runs b ys → Runs (a then_do b) (xs ++ ys)
unfolding ◌then_do◌
Runs-then_do {a} {b} {xs} {ys} ra rb = record {
  runs = λ w free.
      ap (λ (v : Shell). (b v).0) (ra.runs w free)
      ∙ rb.runs (after xs w) free
      ∙ ap (λ (l : List Text). record w { log = l }) (sym (push_all-append xs ys w.log));
}

pub Runs-eq : {s : Script} {xs ys : List Text} → Runs s xs → xs ≡ ys → Runs s ys
Runs-eq r e = rw (← e) r
