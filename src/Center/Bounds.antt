-- ===== src/Center/Bounds.antt =====
-- src/centerserver.c: when the loops end, and how much of the buffer they write.
use wifi_cat.Base.{
  ℕ, zero, suc, ◌-◌, ◌≤◌, ◌<◌, ◌≡◌, refl, Option, none, some, [], ◌∷◌, ◌++◌, length, take, arith,
  length-append, if_both,
}
use wifi_cat.Base.Text.{Text, codes}
use wifi_cat.Center.{
  Event, incoming, read_fails, times_out, select_fails, Network, any_popular, resolve_from,
  resolve_host, connect_auth_server, request_of, extend, read_response, http_get_request,
}

length-take_le : (n : ℕ) (s : Text) → length (take n s) ≤ n
length-take_le zero s = omega arith
length-take_le (suc n) [] = omega arith
length-take_le (suc n) (c ∷ s) = omega (arith, length-take_le n s)

-- How a request ends: without an answer, or with one that leaves room for the closing NUL.
pub data Fetched (room : ℕ) : Option (Option Text) → Type 0 where
  unanswered : Fetched room (some none)
  fetched : (s : Text) → length s ≤ room → Fetched room (some (some s))

Fetched-extend :
    (room : ℕ) (got : Text) (r : Option (Option Text))
    → length got ≤ room
    → Fetched (room - length got) r
    → Fetched room (extend got r)
unfolding extend
Fetched-extend room got _ le unanswered = unanswered
Fetched-extend room got _ le (fetched s h) = fetched (got ++ s) (omega (arith, length-append got s))

read_response-Fetched :
    (fuel : ℕ) (events : ℕ → Event) (k room : ℕ)
    → room < fuel
    → Fetched room (read_response fuel events k room)
unfolding read_response
read_response-Fetched zero events k room lt = absurd (omega arith)
read_response-Fetched (suc fuel) events k room lt =
    from (events k) (λ n h. read_response-Fetched fuel events (suc k) (room - n) (omega arith))
  where
    by_bytes :
        (got : Text)
        → length got ≤ room
        → ((n : ℕ)
            → (0 < n) × (n ≤ room)
            → Fetched (room - n) (read_response fuel events (suc k) (room - n)))
        → Fetched room (
            let rest = read_response fuel events (suc k) (room - length got) in
            elim got [ [] ↦ some (some []) | c ∷ s ↦ extend (c ∷ s) rest ])
    by_bytes [] le rest = fetched [] (omega arith)
    by_bytes (c ∷ s) le rest =
        Fetched-extend room (c ∷ s) _ le (rest (length (c ∷ s)) (ground arith, le))

    from :
        (e : Event)
        → ((n : ℕ)
            → (0 < n) × (n ≤ room)
            → Fetched (room - n) (read_response fuel events (suc k) (room - n)))
        → Fetched room (elim e [
          | read_fails ↦ some none
          | times_out ↦ some none
          | select_fails ↦ some none
          | incoming bytes ↦
              let got = take room bytes in
              let rest = read_response fuel events (suc k) (room - length got) in
              elim got [ [] ↦ some (some []) | c ∷ s ↦ extend (c ∷ s) rest ]
        ])
    from read_fails rest = unanswered
    from times_out rest = unanswered
    from select_fails rest = unanswered
    from (incoming bytes) rest = by_bytes (take room bytes) (length-take_le room bytes) rest

-- A request to the server comes to an end whatever the network does, and where it has an answer, the
-- answer and its closing NUL fit the buffer.
pub http_get_request-Fetched :
    (net : Network) (ip path query version : Text) (buf_len : ℕ)
    → 0 < buf_len
    → Fetched (buf_len - 1) (http_get_request net ip path query version buf_len)
unfolding http_get_request
http_get_request-Fetched net ip path query version buf_len lt =
    if_both (Fetched (buf_len - 1)) (connect_auth_server net)
      (read_response-Fetched (suc buf_len) (net.events (request_of ip path query version buf_len)) 0
        (buf_len - 1) (omega arith))
      unanswered

resolve_from_spins :
    (fuel : ℕ) (lookup : ℕ → Text → Option Text) (k : ℕ) (hostname ip : Text)
    → ((j : ℕ) → lookup j hostname ≡ none)
    → ((j : ℕ) → lookup j (codes "www.baidu.com") ≡ some ip)
    → resolve_from fuel lookup k hostname ≡ none
unfolding resolve_from any_popular
resolve_from_spins zero lookup k hostname ip unknown popular = refl
resolve_from_spins (suc fuel) lookup k hostname ip unknown popular = ground (
  arith,
  unknown k,
  popular (suc k),
  resolve_from_spins fuel lookup (suc (suc k)) hostname ip unknown popular,
)

-- Where the name of the server cannot be resolved but that of the first popular server can, the
-- lookup calls itself for ever.
pub resolve_host_spins :
    (fuel : ℕ) (net : Network) (hostname ip : Text)
    → ((j : ℕ) → net.lookup j hostname ≡ none)
    → ((j : ℕ) → net.lookup j (codes "www.baidu.com") ≡ some ip)
    → resolve_host fuel net hostname ≡ none
unfolding resolve_host
resolve_host_spins fuel net hostname ip unknown popular =
    resolve_from_spins fuel net.lookup 0 hostname ip unknown popular
