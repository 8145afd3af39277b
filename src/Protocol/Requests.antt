-- ===== src/Protocol/Requests.antt =====
-- The requests that the client sends are the ones that the server reads.
use open_source_project.Prelude.{
  zero, suc, ◌+◌, ◌≤◌, ◌<◌, ◌≡◌, ◌≢◌, ◌↔◌, refl, true, none, some, [], ◌∷◌, ◌++◌, arith, ltb,
  length, length-append, is_space, IsWord, words-append_blank, words_last, All-append, Bytes, codes,
  starts_with, cstr, NoNul, cstr_of_NoNul,
}
use open_source_project.Prelude.Int.{ℤ, pos, negsuc}
use open_source_project.Prelude.Decimal.{atoi, print_int, IsInt, atoi-print_int, length-print_int}
use open_source_project.ChatClient.{login_info, register_info, join_command, sprintf}
use open_source_project.ChatServer.{Client}
use open_source_project.ChatServer.Auth.Accounts.{IsField}
use open_source_project.ChatServer.Session.{scan_request, pick_request, on_read, got, stay, moved}

-- What a user may type as a name or password: a word of fewer than 20 bytes with no NUL.
abbrev pub IsEntry : Bytes → Type 0
IsEntry w = IsField w × NoNul w

-- The server's words of `mode`, blank, `id`, blank, `pw`.
scan_request_lem :
    (mode id pw : Bytes)
    → IsWord is_space mode
    → NoNul mode
    → length mode < 10
    → IsEntry id
    → IsEntry pw
    → scan_request (mode ++ (32 ∷ (id ++ (32 ∷ pw)))) ≡ some (mode, id, pw)
unfolding scan_request pick_request
scan_request_lem mode id pw wm nm lm ((wi, li), ni) ((wp, lp), np) =
    let clean =
      All-append (λ c. c ≢ 0) mode (32 ∷ (id ++ (32 ∷ pw))) nm
        (omega arith, All-append (λ c. c ≢ 0) id (32 ∷ pw) ni (omega arith, np)) in
    rw
      (
        cstr_of_NoNul (mode ++ (32 ∷ (id ++ (32 ∷ pw)))) clean,
        words-append_blank is_space mode (id ++ (32 ∷ pw)) 32 wm refl,
        words-append_blank is_space id pw 32 wi refl,
        words_last is_space pw wp,
      )
      (ground arith)

-- For entries of fewer than 20 bytes a login request fits its buffer, and the server reads the mode,
-- the name and the password that the client put in.
pub scan_request-login_info :
    (id pw : Bytes)
    → IsEntry id
    → IsEntry pw
    → (req : Bytes) × (login_info id pw ≡ some req)
      × (scan_request req ≡ some (codes "LOGIN", id, pw))
unfolding login_info
scan_request-login_info id pw hi hp = (
  codes "LOGIN " ++ (id ++ (32 ∷ pw)),
  ground (arith, length-append {0} id (32 ∷ pw)),
  scan_request_lem (codes "LOGIN") id pw ((cc), ground arith) (omega arith) (omega arith) hi hp,
)

-- The same for a registration.
pub scan_request-register_info :
    (id pw : Bytes)
    → IsEntry id
    → IsEntry pw
    → (req : Bytes) × (register_info id pw ≡ some req)
      × (scan_request req ≡ some (codes "REGISTER", id, pw))
unfolding register_info
scan_request-register_info id pw hi hp = (
  codes "REGISTER " ++ (id ++ (32 ∷ pw)),
  ground (arith, length-append {0} id (32 ∷ pw)),
  scan_request_lem (codes "REGISTER") id pw ((cc), ground arith) (omega arith) (omega arith) hi hp,
)

-- The client checks no length: the login request overflows `login_info[50]` exactly when the name and
-- the password have 43 bytes or more together, the registration `req[50]` exactly from 40 on.
pub request_overflows :
    (id pw : Bytes)
    → ((login_info id pw ≡ none) ↔ (43 ≤ length id + length pw))
      × ((register_info id pw ≡ none) ↔ (40 ≤ length id + length pw))
unfolding login_info register_info
request_overflows id pw = ground (arith, length-append {0} id (32 ∷ pw))

join_text : (room : ℤ) → join_command room ≡ sprintf 50 (codes "/join " ++ print_int room)
unfolding join_command print_int
join_text (pos zero) = refl
join_text (pos (suc n)) = refl
join_text (negsuc n) = refl

read_join :
    (c : Client) (stale t : Bytes) (room : ℤ)
    → length t ≤ 11
    → atoi (t ++ (0 ∷ stale)) ≡ some room
    → on_read c stale (got (codes "/join " ++ t))
      ≡ some (stay (record c { room = room }) (moved room ∷ []))
unfolding on_read cstr starts_with
read_join c stale t room short e =
    let short' : ltb (length (codes "/join " ++ t)) 1024 ≡ true = ground arith in rw (short', e)

-- A click on a room's button moves the sender to exactly that room on the server, whatever the server's
-- buffer held before, for every room number that is an `int`.
pub on_read-join_command :
    (room : ℤ) (c : Client) (stale : Bytes)
    → IsInt room
    → (cmd : Bytes) × (join_command room ≡ some cmd)
      × (on_read c stale (got cmd) ≡ some (stay (record c { room = room }) (moved room ∷ [])))
on_read-join_command room c stale h =
    let short = length-print_int room h in
    (
      codes "/join " ++ print_int room,
      rw (join_text room) (ground arith),
      read_join c stale (print_int room) room short (atoi-print_int room (0 ∷ stale) h refl),
    )
