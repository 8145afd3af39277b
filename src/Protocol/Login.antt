-- ===== src/Protocol/Login.antt =====
-- A login from the click on the button to the decision on both sides.
use open_source_project.Prelude.{
  ℕ, zero, suc, ◌≤◌, ◌≡◌, ◌≢◌, inl, inr, refl, ap, Bool, true, false, Option, none, some, List, [],
  ◌∷◌, ◌++◌, arith, ltb, ◌==◌, Bool-cases, length, take, All, Bytes, codes, str_eq, starts_with,
  cstr,
}
use open_source_project.ChatServer.{Client, Server}
use open_source_project.ChatServer.Registry.Live.{Holds}
use open_source_project.ChatServer.Auth.Accounts.{Account, IsAccount, render, password}
use open_source_project.ChatServer.Session.{
  got, Reply, reply_text, Opened, open_session, ok, already_in, no_such_id, wrong_password, welcome,
}
use open_source_project.ChatServer.Session.Opening.{taken, login_outcome, open_session_login}
use open_source_project.ChatClient.{
  Effect, alert, sent, hang_up, open_chat, login_info, on_login_clicked,
}
use open_source_project.Protocol.Requests.{IsEntry, scan_request-login_info}

take_all {ℓ} : {A : Type ℓ} (n : ℕ) (xs : List A) → length xs ≤ n → take n xs ≡ xs
take_all zero [] h = refl
take_all zero (x ∷ xs) h = absurd (omega arith)
take_all (suc n) [] h = refl
take_all (suc n) (x ∷ xs) h = ap (λ t. x ∷ t) (take_all n xs (omega arith))

-- What the client does behind its request, by whether the server lets it in.
abbrev pub client_side : Bool → Bytes → Bytes → Reply → Bytes → List Effect × Option Bytes
client_side true id req r more = (sent req ∷ open_chat ∷ [], some id)
client_side false id req r more =
    (sent req ∷ hang_up ∷ alert (cstr (reply_text r ++ more)) ∷ [], none)

-- Does the server let the client in?
abbrev pub lets_in : Bool → Option Bytes → Bytes → Bool
lets_in true found pw = false
lets_in false none pw = false
lets_in false (some w) pw = str_eq w pw

abbrev Agrees : Bool → Bytes → Bytes → Opened → Bytes → Bytes → Type 0
Agrees inside id pw o req more =
    (o.chatting ≡ inside)
    × ((r : Reply) × (rest : List Reply) × (o.replies ≡ r ∷ rest)
        × (on_login_clicked id pw true (got (reply_text r ++ more))
            ≡ some (client_side inside id req r more)))

pub nonempty : (w : Bytes) → w ≢ [] → (length w == 0) ≡ false
nonempty [] h = absurd (h refl)
nonempty (c ∷ w) h = ground arith

ltb_nonempty : (w : Bytes) → w ≢ [] → ltb 0 (length w) ≡ true
ltb_nonempty [] h = absurd (h refl)
ltb_nonempty (c ∷ w) h = ground arith

module _ (id pw req more : Bytes) (hi : IsEntry id) (hp : IsEntry pw)
    (fits : login_info id pw ≡ some req) where
  let_in :
      on_login_clicked id pw true (got (reply_text ok ++ more))
      ≡ some (client_side true id req ok more)
  unfolding on_login_clicked reply_text cstr starts_with
  let_in =
      rw (nonempty id hi.0.0.0, nonempty pw hp.0.0.0, fits, take_all 19 id (omega (arith, hi.0.1)))

  refused :
      (r : Reply) (b : ℕ) (bs : Bytes)
      → reply_text r ++ more ≡ b ∷ bs
      → starts_with (cstr (b ∷ bs)) (codes "OK") ≡ false
      → on_login_clicked id pw true (got (reply_text r ++ more))
        ≡ some (client_side false id req r more)
  unfolding on_login_clicked
  refused r b bs e f = rw (e, nonempty id hi.0.0.0, nonempty pw hp.0.0.0, fits, f)

  agree :
      (t : Bool) (found : Option Bytes) (name : Bytes) (users : Option Bytes)
      → Agrees (lets_in t found pw) id pw (login_outcome t found id pw name users) req more
  unfolding reply_text cstr starts_with
  agree true found name users = (refl, (already_in, [], refl, refused already_in _ _ refl refl))
  agree false none name users = (refl, (no_such_id, [], refl, refused no_such_id _ _ refl refl))
  agree false (some w) name users = elim (Bool-cases (str_eq w pw)) [
    | inl same ↦ rw same (ltb_nonempty id hi.0.0.0, (ok, welcome id ∷ [], refl, let_in))
    | inr other ↦ rw other (refl, (wrong_password, [], refl, refused wrong_password _ _ refl refl))
  ]

-- The client opens the chat window exactly if the server's thread goes on to its loop, and then under
-- the name that the server took; else it hangs up and shows the server's message. `more` is whatever
-- the same `read` gives behind the first reply.
pub login_agrees :
    (s : Server) (cs : List Client) (as' : List Account) (c : Client) (id pw garbage more : Bytes)
    → Holds s cs
    → All IsAccount as'
    → IsEntry id
    → IsEntry pw
    → (req : Bytes) × (o : Opened) × (login_info id pw ≡ some req)
      × (open_session s (some (render as')) c garbage (got req) ≡ some o)
      × (o.chatting ≡ lets_in (taken c.sock id cs) (password as' id) pw)
      × ((r : Reply) × (rest : List Reply) × (o.replies ≡ r ∷ rest)
          × (on_login_clicked id pw true (got (reply_text r ++ more))
              ≡ some (client_side o.chatting id req r more)))
login_agrees s cs as' c id pw garbage more v h hi hp =
    let (req, fits, read) = scan_request-login_info id pw hi hp in
    let t = taken c.sock id cs in
    let (chatting, (r, rest, replies, shown)) =
      agree id pw req more hi hp fits t (password as' id) c.name (some (render as')) in
    (
      req,
      login_outcome t (password as' id) id pw c.name (some (render as')),
      fits,
      open_session_login s cs as' c id pw garbage req v h read,
      chatting,
      (r, rest, replies, rw chatting shown),
    )
