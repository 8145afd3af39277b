-- ===== src/Protocol/SignUp.antt =====
-- From a sign-up to a later login, on both sides.
use open_source_project.Prelude.{
  ◌≡◌, inl, inr, refl, ◌∙◌, Bool, true, false, Option, none, some, List, [], ◌∷◌, ◌++◌, arith,
  Option-cases, All, All-append, Bytes, codes, str_eq, str_eq_refl, starts_with, cstr,
}
use open_source_project.ChatServer.{Client, Server}
use open_source_project.ChatServer.Registry.Live.{Holds}
use open_source_project.ChatServer.Auth.Accounts.{
  Account, IsAccount, render, password, accounts_after,
}
use open_source_project.ChatServer.Session.{
  got, Reply, reply_text, Opened, open_session, ok, id_taken,
}
use open_source_project.ChatServer.Session.Opening.{taken, open_session_register}
use open_source_project.ChatClient.{
  Effect, alert, info, sent, hang_up, close_dialog, register_info, login_info, on_signup_confirm,
  on_login_clicked,
}
use open_source_project.Protocol.Requests.{IsEntry, scan_request-register_info}
use open_source_project.Protocol.Login.{client_side, nonempty, login_agrees}

-- The accounts after a registration, which keeps an account that has the name.
abbrev pub signed_up : List Account → Bytes → Bytes → List Account
signed_up as' id pw =
    accounts_after (password as' id) as' (codes "REGISTER") (record { id = id; pw = pw })

-- The password of the name after it.
abbrev pub kept : Option Bytes → Bytes → Bytes
kept none pw = pw
kept (some w) pw = w

-- What the client does behind its request.
abbrev pub signup_side : Option Bytes → Bytes → List Effect
signup_side none req = sent req ∷ hang_up ∷ info ∷ close_dialog ∷ []
signup_side (some w) req = sent req ∷ hang_up ∷ alert (codes "회원가입 실패 (ID 중복 등)") ∷ []

abbrev signup_reply : Option Bytes → Reply
signup_reply none = ok
signup_reply (some w) = id_taken

password_found :
    (as' others : List Account) (id : Bytes) {w : Bytes}
    → password as' id ≡ some w
    → password (as' ++ others) id ≡ some w
password_found [] others id e = cc
password_found (a ∷ as') others id {w} e = ground (arith, password_found as' others id {w = w})

password_new :
    (as' others : List Account) (id pw : Bytes)
    → password as' id ≡ none
    → password ((as' ++ (record { id = id; pw = pw } ∷ [])) ++ others) id ≡ some pw
password_new [] others id pw e = rw (str_eq_refl id)
password_new (a ∷ as') others id pw e = ground (arith, password_new as' others id pw)

module _ (as' : List Account) (id pw : Bytes) (h : All IsAccount as') where
  password-signed_up :
      (others : List Account)
      → password (signed_up as' id pw ++ others) id ≡ some (kept (password as' id) pw)
  unfolding str_eq
  password-signed_up others = elim (Option-cases (password as' id)) [
    | inl e ↦ rw e (password_new as' others id pw e)
    | inr (w, e) ↦ rw e (password_found as' others id e)
  ]

  signed_up-IsAccount : IsEntry id → IsEntry pw → All IsAccount (signed_up as' id pw)
  unfolding str_eq
  signed_up-IsAccount hi hp = elim (Option-cases (password as' id)) [
    | inl e ↦
        rw e (All-append IsAccount as' (record { id = id; pw = pw } ∷ []) h ((hi.0, hp.0), tt))
    | inr (w, e) ↦ rw e h
  ]

on_signup_confirm_lem :
    (id pw req more : Bytes) (found : Option Bytes)
    → IsEntry id
    → IsEntry pw
    → register_info id pw ≡ some req
    → on_signup_confirm id pw true (got (reply_text (signup_reply found) ++ more))
      ≡ some (signup_side found req)
unfolding on_signup_confirm reply_text cstr starts_with
on_signup_confirm_lem id pw req more none hi hp fits =
    rw (nonempty id hi.0.0.0, nonempty pw hp.0.0.0, fits)
on_signup_confirm_lem id pw req more (some w) hi hp fits =
    rw (nonempty id hi.0.0.0, nonempty pw hp.0.0.0, fits)

-- The server answers the request of the sign-up by one reply and with the new file, and the client shows
-- whether the name was free.
abbrev pub SignsUp : Server → List Account → Client → Bytes → Bytes → Bytes → Bytes → Type 0
SignsUp s as' c id pw garbage more =
    (req : Bytes) × (o : Opened) × (register_info id pw ≡ some req)
    × (open_session s (some (render as')) c garbage (got req) ≡ some o)
    × (o.users ≡ some (render (signed_up as' id pw)))
    × ((r : Reply) × (o.replies ≡ r ∷ [])
        × (on_signup_confirm id pw true (got (reply_text r ++ more))
            ≡ some (signup_side (password as' id) req)))

-- The server's thread goes on to its loop, and the client opens the chat, exactly if `inside`.
abbrev pub LogsIn : Server → List Account → Client → Bytes → Bytes → Bytes → Bytes → Bool → Type 0
LogsIn s as' c id pw garbage more inside =
    (req : Bytes) × (o : Opened) × (login_info id pw ≡ some req)
    × (open_session s (some (render as')) c garbage (got req) ≡ some o)
    × (o.chatting ≡ inside)
    × ((r : Reply) × (rest : List Reply) × (o.replies ≡ r ∷ rest)
        × (on_login_clicked id pw true (got (reply_text r ++ more))
            ≡ some (client_side inside id req r more)))

sign_up :
    (s : Server) (as' : List Account) (c : Client) (id pw garbage more : Bytes)
    → All IsAccount as'
    → IsEntry id
    → IsEntry pw
    → SignsUp s as' c id pw garbage more
sign_up s as' c id pw garbage more h hi hp =
    let (req, fits, read) = scan_request-register_info id pw hi hp in
    let (o, opened, users, replies, _) = open_session_register s as' c id pw garbage req h read in
    (
      req,
      o,
      fits,
      opened,
      users,
      (
        signup_reply (password as' id),
        replies ∙ one_reply (password as' id),
        on_signup_confirm_lem id pw req more (password as' id) hi hp fits,
      ),
    )
  where
    one_reply :
        (found : Option Bytes)
        → (elim found [ none ↦ ok | some w ↦ id_taken ]) ∷ [] ≡ signup_reply found ∷ []
    one_reply none = refl
    one_reply (some w) = refl

log_in :
    (s : Server) (cs : List Client) (as' : List Account) (c : Client) (id pw w garbage more : Bytes)
    → Holds s cs
    → All IsAccount as'
    → IsEntry id
    → IsEntry pw
    → taken c.sock id cs ≡ false
    → password as' id ≡ some w
    → LogsIn s as' c id pw garbage more (str_eq w pw)
log_in s cs as' c id pw w garbage more v h hi hp free found =
    let (req, o, fits, opened, inside, (r, rest, replies, shown)) =
      login_agrees s cs as' c id pw garbage more v h hi hp in
    let inside' : o.chatting ≡ str_eq w pw = rw (free, found) at inside in
    (req, o, fits, opened, inside', (r, rest, replies, rw inside' at shown))

-- A user signs up with a name and a password, words of fewer than 20 bytes, and logs in later, when others
-- may have signed up and nobody else has the name. The server stores the account and the client says so,
-- unless the name has an account, which is then kept and the client shows the failure. Either way the
-- login lets the user in, on both sides, exactly with the password of the account: the new one, or the
-- one that the name had before.
pub sign_up_then_log_in :
    (s s' : Server) (cs : List Client) (as' others : List Account) (c c' : Client)
    (id pw pw' garbage garbage' more more' : Bytes)
    → Holds s' cs
    → All IsAccount as'
    → All IsAccount others
    → IsEntry id
    → IsEntry pw
    → IsEntry pw'
    → taken c'.sock id cs ≡ false
    → SignsUp s as' c id pw garbage more
      × LogsIn s'
          (signed_up as' id pw ++ others)
          c'
          id
          pw'
          garbage'
          more'
          (str_eq (kept (password as' id) pw) pw')
sign_up_then_log_in s s' cs as' others c c' id pw pw' garbage garbage' more more' v h ho hi hp hp'
      free =
    (
      sign_up s as' c id pw garbage more h hi hp,
      log_in s' cs (signed_up as' id pw ++ others) c' id pw' (kept (password as' id) pw) garbage'
          more' v
          (All-append IsAccount (signed_up as' id pw) others (signed_up-IsAccount as' id pw h hi hp)
            ho)
          hi hp' free (password-signed_up as' id pw h others),
    )
