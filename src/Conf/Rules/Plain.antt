-- ===== src/Conf/Rules/Plain.antt =====
-- src/conf.c, TO_NEXT_WORD, on words that hold no blank and no letter that lower case would change.
use wifi_cat.Base.{
  ℕ, ◌≡◌, ◌≢◌, refl, ◌∙◌, Bool, true, false, not, ◌&&◌, List, [], ◌∷◌, ◌++◌, arith, All, map, ◌==◌,
}
use mathlib.Core.List.{map-append}
use wifi_cat.Base.Text.{Text, is_blank, to_lower}
use wifi_cat.Conf.Words.{next_word, break_at, drop_blanks, is_end}
use wifi_cat.Conf.Rules.{all_bytes, is_port_byte, is_mask_byte}

-- A word of a rule: not empty, without blanks, and without letters that lower case would change.
unfoldable pub is_plain : ℕ → Bool
is_plain c = not (is_blank c) && (to_lower c == c)

abbrev pub IsWord : Text → Type 0
IsWord [] = ⊥
IsWord (c ∷ s) = all_bytes is_plain (c ∷ s) ≡ true

-- Words with one blank between them.
unfoldable pub join : List Text → Text
join [] = []
join (w ∷ []) = w
join (w ∷ v ∷ ws) = w ++ (32 ∷ join (v ∷ ws))

pub break_at-end : (w : Text) → all_bytes is_plain w ≡ true → break_at is_blank w ≡ (w, [])
unfolding break_at all_bytes is_plain
break_at-end [] h = refl
break_at-end (c ∷ w) h = ground (arith, break_at-end w)

pub break_at-blank :
    (w s : Text) → all_bytes is_plain w ≡ true → break_at is_blank (w ++ (32 ∷ s)) ≡ (w, 32 ∷ s)
unfolding break_at all_bytes is_plain
break_at-blank [] s h = unfold is_blank in refl
break_at-blank (c ∷ w) s h = ground (arith, break_at-blank w s)

pub drop_blanks-word :
    (v : Text) (ws : List Text) → IsWord v → drop_blanks (32 ∷ join (v ∷ ws)) ≡ join (v ∷ ws)
unfolding drop_blanks join is_blank all_bytes is_plain
drop_blanks-word [] ws h = absurd h
drop_blanks-word (c ∷ v) [] h = ground arith
drop_blanks-word (c ∷ v) (w ∷ ws) h = ground arith

pub IsWord-plain : (w : Text) → IsWord w → all_bytes is_plain w ≡ true
IsWord-plain [] h = absurd h
IsWord-plain (c ∷ w) h = h

-- The two cases in which TO_NEXT_WORD is used on such words.
pub next_word-last : (w : Text) → IsWord w → next_word (join (w ∷ [])) ≡ (w, [], true)
unfolding next_word join drop_blanks is_end
next_word-last w h = rw (break_at-end w (IsWord-plain w h))

pub next_word-more :
    (w v : Text) (ws : List Text)
    → IsWord w
    → IsWord v
    → next_word (join (w ∷ v ∷ ws)) ≡ (w, join (v ∷ ws), false)
unfolding next_word join is_end
next_word-more w v ws h k =
    rw (break_at-blank w (join (v ∷ ws)) (IsWord-plain w h), drop_blanks-word v ws k)

pub lower_plain : (w : Text) → all_bytes is_plain w ≡ true → map to_lower w ≡ w
unfolding all_bytes is_plain
lower_plain [] h = refl
lower_plain (c ∷ w) h = ground (arith, lower_plain w)

pub lower_join : (ws : List Text) → All IsWord ws → map to_lower (join ws) ≡ join ws
unfolding join
lower_join [] h = refl
lower_join (w ∷ []) h = lower_plain w (IsWord-plain w h.0)
lower_join (w ∷ v ∷ ws) h =
    let first = lower_plain w (IsWord-plain w h.0) in
    let rest = lower_join (v ∷ ws) h.1 in
    map-append to_lower w (32 ∷ join (v ∷ ws)) ∙ rw (first, rest) (unfold to_lower in refl)

abbrev pub IsNonempty : Text → Type 0
IsNonempty s = s ≢ []

pub all_bytes-plain :
    (test : ℕ → Bool) (s : Text)
    → ((c : ℕ) → test c ≡ true → is_plain c ≡ true)
    → all_bytes test s ≡ true
    → all_bytes is_plain s ≡ true
unfolding all_bytes
all_bytes-plain test [] h k = refl
all_bytes-plain test (c ∷ s) h k = ground (arith, h c, all_bytes-plain test s h)

pub IsWord-all_bytes :
    (test : ℕ → Bool) (s : Text)
    → ((c : ℕ) → test c ≡ true → is_plain c ≡ true)
    → all_bytes test s ≡ true
    → IsNonempty s
    → IsWord s
IsWord-all_bytes test [] h k ne = absurd (ne refl)
IsWord-all_bytes test (c ∷ s) h k ne = all_bytes-plain test (c ∷ s) h k

pub port_byte_plain : (c : ℕ) → is_port_byte c ≡ true → is_plain c ≡ true
unfolding is_plain to_lower is_blank
port_byte_plain c h = ground arith

pub mask_byte_plain : (c : ℕ) → is_mask_byte c ≡ true → is_plain c ≡ true
unfolding is_plain to_lower is_blank
mask_byte_plain c h = ground arith
