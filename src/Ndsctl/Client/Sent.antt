-- ===== src/Ndsctl/Client/Sent.antt =====
-- src/ndsctl.c and src/ndsctl_thread.c: what becomes of the requests of ndsctl in the daemon.
use wifi_cat.Base.{
  drop, ◌>>=◌, ℕ, suc, ◌≤◌, ◌≡◌, refl, ap, Bool, true, ◌&&◌, Option, none, some, [], ◌∷◌, ◌++◌,
  take, length, length-append, arith, ok, ◌∙◌, leb,
}
use wifi_cat.Base.Int.{ℤ}
use wifi_cat.Base.Text.{Text, codes, has_prefix}
use wifi_cat.Conf.Words.{until_nul}
use wifi_cat.Iptables.{Marks}
use wifi_cat.ClientList.Register.{Outside}
use wifi_cat.Ndsctl.{
  argument, has_nul, Daemon, dispatch, ndsctl_block, ndsctl_unblock, ndsctl_allow, ndsctl_unallow,
  ndsctl_trust, ndsctl_untrust, ndsctl_auth, ndsctl_deauth, ndsctl_loglevel, ndsctl_password,
  ndsctl_username,
}
use wifi_cat.Ndsctl.Read.{is_clean, terminator, nuls, take-all, read_request, read_request-whole}
use wifi_cat.Ndsctl.Client.{
  Command, status_command, clients_command, stop_command, block_command, unblock_command,
  allow_command, unallow_command, trust_command, untrust_command, auth_command, deauth_command,
  loglevel_command, password_command, username_command, CtlConfig, word_of, message_of, handle,
}

until_nul-nuls : (p : Text) → is_clean p ≡ true → until_nul (p ++ nuls) ≡ p
unfolding until_nul is_clean
until_nul-nuls [] h = refl
until_nul-nuls (c ∷ p) h =
    let rec : (is_clean p ≡ true) → until_nul (p ++ nuls) ≡ p = until_nul-nuls p in
    ground (arith, rec)

has_nul-nuls : (p : Text) → has_nul (p ++ nuls) ≡ true
unfolding has_nul
has_nul-nuls [] = refl
has_nul-nuls (c ∷ p) = ground (arith, has_nul-nuls p)

-- The argument of a request that ends in NULs.
argument-nuls :
    (k : ℕ) (request p : Text)
    → drop k request ≡ p ++ nuls
    → is_clean p ≡ true
    → argument k request ≡ ok p
unfolding argument
argument-nuls k request p e clean = rw (e, has_nul-nuls p, until_nul-nuls p clean) refl

dispatch-word_of :
    (atoi : Text → ℤ) (m : Marks) (o : Outside) (command : Command) (p : Text) (d : Daemon)
    → is_clean p ≡ true
    → dispatch atoi m o ((word_of command ++ (b' ' ∷ p)) ++ nuls) d ≡ handle atoi m o command p d
unfolding dispatch word_of handle has_prefix codes
dispatch-word_of atoi m o status_command p d clean = refl
dispatch-word_of atoi m o clients_command p d clean = refl
dispatch-word_of atoi m o stop_command p d clean = refl
dispatch-word_of atoi m o block_command p d clean =
    ap (λ r. r >>= λ t. ndsctl_block m t d)
      (argument-nuls 6 ((word_of block_command ++ (b' ' ∷ p)) ++ nuls) p refl clean)
dispatch-word_of atoi m o unblock_command p d clean =
    ap (λ r. r >>= λ t. ndsctl_unblock m t d)
      (argument-nuls 8 ((word_of unblock_command ++ (b' ' ∷ p)) ++ nuls) p refl clean)
dispatch-word_of atoi m o allow_command p d clean =
    ap (λ r. r >>= λ t. ndsctl_allow t d)
      (argument-nuls 6 ((word_of allow_command ++ (b' ' ∷ p)) ++ nuls) p refl clean)
dispatch-word_of atoi m o unallow_command p d clean =
    ap (λ r. r >>= λ t. ndsctl_unallow t d)
      (argument-nuls 8 ((word_of unallow_command ++ (b' ' ∷ p)) ++ nuls) p refl clean)
dispatch-word_of atoi m o trust_command p d clean =
    ap (λ r. r >>= λ t. ndsctl_trust m t d)
      (argument-nuls 6 ((word_of trust_command ++ (b' ' ∷ p)) ++ nuls) p refl clean)
dispatch-word_of atoi m o untrust_command p d clean =
    ap (λ r. r >>= λ t. ndsctl_untrust m t d)
      (argument-nuls 8 ((word_of untrust_command ++ (b' ' ∷ p)) ++ nuls) p refl clean)
dispatch-word_of atoi m o auth_command p d clean =
    ap (λ r. r >>= λ t. ndsctl_auth m o t d)
      (argument-nuls 5 ((word_of auth_command ++ (b' ' ∷ p)) ++ nuls) p refl clean)
dispatch-word_of atoi m o deauth_command p d clean =
    ap (λ r. r >>= λ t. ndsctl_deauth m t d)
      (argument-nuls 7 ((word_of deauth_command ++ (b' ' ∷ p)) ++ nuls) p refl clean)
dispatch-word_of atoi m o loglevel_command p d clean =
    ap (λ r. r >>= λ t. ok (ndsctl_loglevel atoi t d))
      (argument-nuls 9 ((word_of loglevel_command ++ (b' ' ∷ p)) ++ nuls) p refl clean)
dispatch-word_of atoi m o password_command p d clean =
    ap (λ r. r >>= λ t. ok (ndsctl_password t d))
      (argument-nuls 9 ((word_of password_command ++ (b' ' ∷ p)) ++ nuls) p refl clean)
dispatch-word_of atoi m o username_command p d clean =
    ap (λ r. r >>= λ t. ok (ndsctl_username t d))
      (argument-nuls 9 ((word_of username_command ++ (b' ' ∷ p)) ++ nuls) p refl clean)

-- A command without a parameter.
dispatch-word_of-alone :
    (atoi : Text → ℤ) (m : Marks) (o : Outside) (command : Command) (d : Daemon)
    → dispatch atoi m o (word_of command ++ nuls) d ≡ handle atoi m o command [] d
unfolding dispatch word_of handle has_prefix codes until_nul argument has_nul
dispatch-word_of-alone atoi m o status_command d = refl
dispatch-word_of-alone atoi m o clients_command d = refl
dispatch-word_of-alone atoi m o stop_command d = refl
dispatch-word_of-alone atoi m o block_command d = refl
dispatch-word_of-alone atoi m o unblock_command d = refl
dispatch-word_of-alone atoi m o allow_command d = refl
dispatch-word_of-alone atoi m o unallow_command d = refl
dispatch-word_of-alone atoi m o trust_command d = refl
dispatch-word_of-alone atoi m o untrust_command d = refl
dispatch-word_of-alone atoi m o auth_command d = refl
dispatch-word_of-alone atoi m o deauth_command d = refl
dispatch-word_of-alone atoi m o loglevel_command d = refl
dispatch-word_of-alone atoi m o password_command d = refl
dispatch-word_of-alone atoi m o username_command d = refl

word_of-le : (command : Command) → length (word_of command) ≤ 8
unfolding word_of codes
word_of-le status_command = omega arith
word_of-le clients_command = omega arith
word_of-le stop_command = omega arith
word_of-le block_command = omega arith
word_of-le unblock_command = omega arith
word_of-le allow_command = omega arith
word_of-le unallow_command = omega arith
word_of-le trust_command = omega arith
word_of-le untrust_command = omega arith
word_of-le auth_command = omega arith
word_of-le deauth_command = omega arith
word_of-le loglevel_command = omega arith
word_of-le password_command = omega arith
word_of-le username_command = omega arith

-- The words have none of the bytes that end a request.
is_clean-word_of : (command : Command) (t : Text) → is_clean (word_of command ++ t) ≡ is_clean t
unfolding word_of codes is_clean
is_clean-word_of status_command t = refl
is_clean-word_of clients_command t = refl
is_clean-word_of stop_command t = refl
is_clean-word_of block_command t = refl
is_clean-word_of unblock_command t = refl
is_clean-word_of allow_command t = refl
is_clean-word_of unallow_command t = refl
is_clean-word_of trust_command t = refl
is_clean-word_of untrust_command t = refl
is_clean-word_of auth_command t = refl
is_clean-word_of deauth_command t = refl
is_clean-word_of loglevel_command t = refl
is_clean-word_of password_command t = refl
is_clean-word_of username_command t = refl

word_of-is_clean : (command : Command) → is_clean (word_of command) ≡ true
unfolding word_of codes is_clean
word_of-is_clean status_command = refl
word_of-is_clean clients_command = refl
word_of-is_clean stop_command = refl
word_of-is_clean block_command = refl
word_of-is_clean unblock_command = refl
word_of-is_clean allow_command = refl
word_of-is_clean unallow_command = refl
word_of-is_clean trust_command = refl
word_of-is_clean untrust_command = refl
word_of-is_clean auth_command = refl
word_of-is_clean deauth_command = refl
word_of-is_clean loglevel_command = refl
word_of-is_clean password_command = refl
word_of-is_clean username_command = refl

-- The argument of the handler.
abbrev pub given : Option Text → Text
given none = []
given (some p) = p

-- What fits the 128 bytes of `request` and holds none of the bytes that end it.
abbrev pub is_sendable : Option Text → Bool
is_sendable none = true
is_sendable (some p) = is_clean p && leb (length p) 114

take-word_of :
    (command : Command) (p : Text)
    → length p ≤ 114
    → take 123 (word_of command ++ (b' ' ∷ p)) ≡ word_of command ++ (b' ' ∷ p)
take-word_of command p h =
    take-all 123 (word_of command ++ (b' ' ∷ p))
      (omega (arith, word_of-le command, length-append (word_of command) (b' ' ∷ p)))

module _ (atoi : Text → ℤ) (m : Marks) (o : Outside) (d : Daemon) where
  -- A text that was sent is read whole and handled.
  arrives :
      (fuel : ℕ) (reads : ℕ → Text) (k : ℕ) (command : Command) (t p : Text)
      → is_clean t ≡ true
      → length t ≤ 123
      → reads k ≡ t ++ terminator
      → dispatch atoi m o (t ++ nuls) d ≡ handle atoi m o command p d
      → (request : Text) × (read_request (suc fuel) reads k [] ≡ some (request, true))
        × (dispatch atoi m o request d ≡ handle atoi m o command p d)
  arrives fuel reads k command t p clean short e handled = (
    t ++ nuls,
    read_request-whole fuel reads k t clean (omega (arith, length-append t terminator)) e,
    handled,
  )

  -- A request of ndsctl that reaches the daemon in one piece is read whole, whatever the
  -- command, and dispatched to the handler of that command with the parameter that was given, if the parameter has
  -- at most 114 bytes and none that ends a line or a text.
  pub dispatch-message_of :
      (r : CtlConfig) (fuel : ℕ) (reads : ℕ → Text) (k : ℕ)
      → is_sendable r.param ≡ true
      → reads k ≡ message_of r.command r.param
      → (request : Text) × (read_request (suc fuel) reads k [] ≡ some (request, true))
        × (dispatch atoi m o request d ≡ handle atoi m o r.command (given r.param) d)
  unfolding message_of is_clean
  dispatch-message_of r fuel reads k h e = sent r.param h e
    where
      sent :
          (param : Option Text)
          → is_sendable param ≡ true
          → reads k ≡ message_of r.command param
          → (request : Text) × (read_request (suc fuel) reads k [] ≡ some (request, true))
            × (dispatch atoi m o request d ≡ handle atoi m o r.command (given param) d)
      sent none h e =
          arrives fuel reads k r.command (word_of r.command) [] (word_of-is_clean r.command)
            (omega (arith, word_of-le r.command))
            (e
              ∙ ap (λ t. t ++ terminator)
                  (take-all 27 (word_of r.command) (omega (arith, word_of-le r.command))))
            (dispatch-word_of-alone atoi m o r.command d)
      sent (some p) h e =
          let clean : is_clean p ≡ true = ground arith in
          let short : length p ≤ 114 = ground arith in
          let whole = word_of r.command ++ (b' ' ∷ p) in
          arrives fuel reads k r.command whole p (is_clean-word_of r.command (b' ' ∷ p) ∙ clean)
            (omega (arith, word_of-le r.command, length-append (word_of r.command) (b' ' ∷ p)))
            (e ∙ ap (λ t. t ++ terminator) (take-word_of r.command p short))
            (dispatch-word_of atoi m o r.command p d clean)
