-- ===== src/Conf/Words.antt =====
-- src/conf.c, the texts of the configuration file: its lines, `_strip_whitespace`, and the words of a line
-- as TO_NEXT_WORD and the loops like it find them.
use wifi_cat.Base.{ℕ, ◌-◌, Bool, true, false, not, ◌&&◌, ◌||◌, List, [], ◌∷◌, ◌==◌, if◌then◌else◌}
use wifi_cat.Base.Text.{Text, is_blank, is_space}

unfoldable pub is_end : Text → Bool
is_end [] = true
is_end (c ∷ s) = false

-- The bytes up to the first that passes the test, and the rest from there on.
unfoldable pub break_at : (ℕ → Bool) → Text → Text × Text
break_at test [] = ([], [])
break_at test (c ∷ s) =
    let (word, rest) = break_at test s in if test c then ([], c ∷ s) else (c ∷ word, rest)

-- `while (isblank(*s)) s++;`
unfoldable pub drop_blanks : Text → Text
drop_blanks [] = []
drop_blanks (c ∷ s) = if is_blank c then drop_blanks s else c ∷ s

-- `while (isspace(p1[0])) p1++;`
unfoldable pub drop_leading : Text → Text
drop_leading [] = []
drop_leading (c ∷ s) = if is_space c then drop_leading s else c ∷ s

-- TO_NEXT_WORD: the word, where the next one starts, and whether the end of the string was met.
unfoldable pub next_word : Text → Text × Text × Bool
unfolding break_at drop_blanks is_end
next_word s = let (word, rest) = break_at is_blank s in (word, drop_blanks rest, is_end rest)

-- The text up to a `#` that no backslash escapes; `before` is the byte in front.
unfoldable pub strip_comment : ℕ → Text → Text
strip_comment before [] = []
strip_comment before (c ∷ s) =
    if (c == b'#') && not (before == 92) then [] else c ∷ strip_comment c s

unfoldable pub drop_trailing : Text → Text
unfolding is_end
drop_trailing [] = []
drop_trailing (c ∷ s) =
    let rest = drop_trailing s in if is_space c && is_end rest then [] else c ∷ rest

-- `_strip_whitespace`. No byte stands in front of the line.
unfoldable pub strip_whitespace : Text → Text
unfolding strip_comment drop_leading drop_trailing
strip_whitespace line = drop_trailing (drop_leading (strip_comment 0 line))

-- A C string ends at the first NUL.
unfoldable pub until_nul : Text → Text
until_nul [] = []
until_nul (c ∷ s) = if c == 0 then [] else c ∷ until_nul s

onto_first : ℕ → List Text → List Text
onto_first c [] = (c ∷ []) ∷ []
onto_first c (t ∷ ts) = (c ∷ t) ∷ ts

-- What the calls of `fgets(line, MAX_BUF, fd)` give, one after the other: the text up to and with the end
-- of the line, but no more than 4095 bytes. `room` is left for the line that has been begun.
unfoldable pub lines_from : ℕ → Text → List Text
unfolding onto_first
lines_from room [] = []
lines_from room (c ∷ s) =
    let ends = (c == 10) || (room == 1) in
    let rest = lines_from (if ends then 4095 else room - 1) s in
    if ends then (c ∷ []) ∷ rest else onto_first c rest

unfoldable pub lines_of : Text → List Text
unfolding lines_from
lines_of file = lines_from 4095 file
