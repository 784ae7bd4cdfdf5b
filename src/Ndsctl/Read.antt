-- ===== src/Ndsctl/Read.antt =====
-- src/ndsctl_thread.c, the loop of `thread_ndsctl_handler` that reads a request.
use wifi_cat.Base.{
  ℕ, zero, suc, ◌+◌, ◌-◌, ◌≤◌, ◌<◌, ◌≡◌, refl, ap, Bool, true, false, not, ◌&&◌, ◌||◌, Option, none,
  some, [], ◌∷◌, ◌++◌, take, map, length, length-append, leb, ◌==◌, if◌then◌else◌, arith,
  Bool-cases, inl, inr,
}
use wifi_cat.Base.Text.{Text}
use wifi_cat.Ndsctl.{max_buf}

is_end : ℕ → Bool
is_end c = (c == 13) || (c == 10)

has_end : Text → Bool
unfolding is_end
has_end [] = false
has_end (c ∷ s) = is_end c || has_end s

-- `request[i] = '\0'`
cut : ℕ → ℕ
unfolding is_end
cut c = if is_end c then 0 else c

-- The loop on fuel, `none` where it runs out: `reads k` is what the k-th call of read() could return, of
-- which it takes as much as has room. A call that fails is outside. The result is the request, and
-- whether its end has been seen.
pub read_request : ℕ → (ℕ → Text) → ℕ → Text → Option (Text × Bool)
unfolding has_end cut
read_request zero reads k request = none
read_request (suc fuel) reads k request =
    let chunk = take (max_buf - length request) (reads k) in
    let request' = request ++ map cut chunk in
    let rest = read_request fuel reads (suc k) request' in
    if has_end chunk
    then some (request', true)
    else if leb (max_buf - 1) (length request')
    then some (request', false)
    else rest

length-map-cut : (s : Text) → length (map cut s) ≡ length s
length-map-cut [] = refl
length-map-cut (c ∷ s) = omega (arith, length-map-cut s)

take-grows : (n : ℕ) (s : Text) → 1 ≤ n → 1 ≤ length s → 1 ≤ length (take n s)
take-grows zero s h k = absurd (omega arith)
take-grows (suc n) [] h k = absurd (omega arith)
take-grows (suc n) (c ∷ s) h k = omega arith

take_none : (n : ℕ) → take {A = ℕ} n [] ≡ []
take_none zero = refl
take_none (suc n) = refl

append_none : (s : Text) → s ++ [] ≡ s
append_none [] = refl
append_none (c ∷ s) = ap (◌∷◌ c) (append_none s)

-- As long as every read gives at least one byte, the loop ends, with as much fuel as the buffer has room for bytes.
pub read_request-ends :
    (fuel : ℕ) (reads : ℕ → Text) (k : ℕ) (request : Text)
    → ((j : ℕ) → 1 ≤ length (reads j))
    → length request < max_buf - 1
    → max_buf - 1 ≤ fuel + length request
    → (result : Text × Bool) × (read_request fuel reads k request ≡ some result)
unfolding read_request
read_request-ends zero reads k request sends room enough = absurd (omega arith)
read_request-ends (suc fuel) reads k request sends room enough =
    let chunk = take (max_buf - length request) (reads k) in
    let request' = request ++ map cut chunk in
    let grows = take-grows (max_buf - length request) (reads k) (omega arith) (sends k) in
    let longer = length-append request (map cut chunk) in
    let kept = length-map-cut chunk in
    elim (Bool-cases (has_end chunk)) [
      | inl t ↦ ((request', true), ground arith)
      | inr f ↦ elim (Bool-cases (leb (max_buf - 1) (length request'))) [
        | inl long ↦ ((request', false), ground arith)
        | inr short ↦
            let less : length request' < max_buf - 1 = ground arith in
            let rec =
              read_request-ends fuel reads (suc k) request' sends less
                (omega (arith, grows, longer, kept)) in
            (rec.0, ground (arith, rec.1))
      ]
    ]

-- Once the other side has closed the connection, every read gives nothing: if it does so before the end
-- of a line and before the buffer is full, the loop goes round for ever, whatever the fuel.
pub read_request-spins :
    (fuel : ℕ) (reads : ℕ → Text) (k : ℕ) (request : Text)
    → ((j : ℕ) → reads j ≡ [])
    → length request < max_buf - 1
    → read_request fuel reads k request ≡ none
unfolding read_request has_end
read_request-spins zero reads k request closed room = refl
read_request-spins (suc fuel) reads k request closed room =
    rw (closed k, take_none (max_buf - length request), append_none request)
      (ground (arith, read_request-spins fuel reads (suc k) request closed room))

-- No byte of the text ends a line or a text.
unfoldable pub is_clean : Text → Bool
is_clean [] = true
is_clean (c ∷ s) = not (c == 13 || (c == 10 || c == 0)) && is_clean s

abbrev pub terminator : Text
terminator = 13 ∷ 10 ∷ 13 ∷ 10 ∷ []

abbrev pub nuls : Text
nuls = 0 ∷ 0 ∷ 0 ∷ 0 ∷ []

pub take-all : (n : ℕ) (s : Text) → length s ≤ n → take n s ≡ s
take-all zero [] h = refl
take-all zero (c ∷ s) h = absurd (omega arith)
take-all (suc n) [] h = refl
take-all (suc n) (c ∷ s) h = ap (◌∷◌ c) (take-all n s (omega arith))

map-cut : (t : Text) → is_clean t ≡ true → map cut (t ++ terminator) ≡ t ++ nuls
unfolding is_clean cut is_end
map-cut [] h = refl
map-cut (c ∷ t) h =
    let rec : (is_clean t ≡ true) → map cut (t ++ terminator) ≡ t ++ nuls = map-cut t in
    ground (arith, rec)

has_end-terminator : (t : Text) → has_end (t ++ terminator) ≡ true
unfolding has_end is_end
has_end-terminator [] = refl
has_end-terminator (c ∷ t) = ground (arith, has_end-terminator t)

-- A request that arrives in one piece and fits the buffer is read as it was sent, its end turned into NULs.
pub read_request-whole :
    (fuel : ℕ) (reads : ℕ → Text) (k : ℕ) (t : Text)
    → is_clean t ≡ true
    → length (t ++ terminator) ≤ max_buf
    → reads k ≡ t ++ terminator
    → read_request (suc fuel) reads k [] ≡ some (t ++ nuls, true)
unfolding read_request
read_request-whole fuel reads k t clean fits e =
    rw (e, take-all max_buf (t ++ terminator) fits, has_end-terminator t, map-cut t clean) refl
