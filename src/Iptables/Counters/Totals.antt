-- ===== src/Iptables/Counters/Totals.antt =====
-- src/fw_iptables.c, `iptables_fw_total_upload` and `iptables_fw_total_download`: the bytes of the whole
-- traffic, read from the listing of the mangle table.
use wifi_cat.Base.{
  ℕ, zero, suc, ◌<◌, ◌≡◌, refl, Option, none, some, List, [], ◌∷◌, length, if◌then◌else◌, arith,
}
use wifi_cat.Base.Text.{Text, text_eq, codes}
use wifi_cat.Base.Scan.{
  Scan, ◌>>=◌, done, spaces, word, u64, i32, skip_line, IsShrinking, IsShrinking-bind,
  IsShrinking-done, IsShrinking-spaces, IsShrinking-word, IsShrinking-u64, IsShrinking-i32,
}
use wifi_cat.Shell.{Shell}
use wifi_cat.Iptables.Counters.{stream}
use wifi_cat.Iptables.Counters.Laws.{skip_line-shorter}

-- `%*d %llu %s `
upload_line : Scan (ℕ × Text)
upload_line = do packets ← i32; counter ← u64; target ← word; gap ← spaces; done (counter, target)

-- `%*s %llu %s `
download_line : Scan (ℕ × Text)
download_line = do
  packets ← word
  counter ← u64
  target ← word
  gap ← spaces
  done (counter, target)

-- The counter of a line, where both fields are read and the target is the one looked for.
counter_of : Text → Option (ℕ × Text) → Option ℕ
counter_of chain none = none
counter_of chain (some (counter, target)) = if text_eq target chain then some counter else none

-- `while (!(feof(output))) { ... }` on fuel: the first counter, or 0 at the end of the listing.
total_loop : Scan (ℕ × Text) → Text → ℕ → Text → Option ℕ
unfolding counter_of
total_loop line chain zero rest = none
total_loop line chain (suc fuel) [] = some 0
total_loop line chain (suc fuel) (c ∷ rest) =
    let (r, left) = line (c ∷ rest) in
    let others = total_loop line chain fuel (skip_line left) in
    elim (counter_of chain r) [ none ↦ others | some counter ↦ some counter ]

-- The two header lines are skipped; the fuel is one more than the bytes that are left.
total_from : Scan (ℕ × Text) → Text → Option (List Text) → Option ℕ
unfolding total_loop
total_from line chain none = some 0
total_from line chain (some lines) =
    let rest = skip_line (skip_line (stream lines)) in
    total_loop line chain (suc (length rest)) rest

pub iptables_fw_total_upload : Shell → Option ℕ
unfolding total_from upload_line
iptables_fw_total_upload w =
    total_from upload_line (codes "ndsOUT")
      (w.output w.log (codes "iptables -v -n -x -t mangle -L PREROUTING"))

pub iptables_fw_total_download : Shell → Option ℕ
unfolding total_from download_line
iptables_fw_total_download w =
    total_from download_line (codes "ndsINC")
      (w.output w.log (codes "iptables -v -n -x -t mangle -L POSTROUTING"))

IsShrinking-upload_line : IsShrinking upload_line
unfolding upload_line
IsShrinking-upload_line = IsShrinking-bind _ _ IsShrinking-i32 λ packets.
    IsShrinking-bind _ _ IsShrinking-u64 λ counter.
      IsShrinking-bind _ _ IsShrinking-word
        λ target. IsShrinking-bind _ _ IsShrinking-spaces λ gap. IsShrinking-done _

IsShrinking-download_line : IsShrinking download_line
unfolding download_line
IsShrinking-download_line = IsShrinking-bind _ _ IsShrinking-word λ packets.
    IsShrinking-bind _ _ IsShrinking-u64 λ counter.
      IsShrinking-bind _ _ IsShrinking-word
        λ target. IsShrinking-bind _ _ IsShrinking-spaces λ gap. IsShrinking-done _

total_loop-ends :
    (line : Scan (ℕ × Text)) (chain : Text)
    → IsShrinking line
    → (fuel : ℕ) (rest : Text) → length rest < fuel
    → (n : ℕ) × (total_loop line chain fuel rest ≡ some n)
unfolding total_loop
total_loop-ends line chain shrinks zero rest enough = absurd (omega arith)
total_loop-ends line chain shrinks (suc fuel) [] enough = (0, refl)
total_loop-ends line chain shrinks (suc fuel) (c ∷ rest) enough =
    found (counter_of chain (line (c ∷ rest)).0) (
      total_loop-ends line chain shrinks fuel (skip_line (line (c ∷ rest)).1)
        (omega (arith, skip_line-shorter (length rest) (line (c ∷ rest)).1 (shrinks (c ∷ rest)))))
  where
    found :
        (o : Option ℕ) {others : Option ℕ}
        → (n : ℕ) × (others ≡ some n)
        → (n : ℕ) × (elim o [ none ↦ others | some counter ↦ some counter ] ≡ some n)
    found (some counter) later = (counter, refl)
    found none later = later

total_from-ends :
    (line : Scan (ℕ × Text)) (chain : Text)
    → IsShrinking line
    → (o : Option (List Text)) → (n : ℕ) × (total_from line chain o ≡ some n)
unfolding total_from
total_from-ends line chain shrinks none = (0, refl)
total_from-ends line chain shrinks (some lines) =
    let rest = skip_line (skip_line (stream lines)) in
    total_loop-ends line chain shrinks (suc (length rest)) rest (omega arith)

-- Both totals are found, whatever the listings hold.
pub totals-end :
    (w : Shell)
    → ((n : ℕ) × (iptables_fw_total_upload w ≡ some n))
      × ((n : ℕ) × (iptables_fw_total_download w ≡ some n))
unfolding iptables_fw_total_upload iptables_fw_total_download
totals-end w = (
  total_from-ends upload_line (codes "ndsOUT") IsShrinking-upload_line
      (w.output w.log (codes "iptables -v -n -x -t mangle -L PREROUTING")),
  total_from-ends download_line (codes "ndsINC") IsShrinking-download_line
      (w.output w.log (codes "iptables -v -n -x -t mangle -L POSTROUTING")),
)
