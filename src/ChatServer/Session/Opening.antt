-- ===== src/ChatServer/Session/Opening.antt =====
-- project2/gui_server.c, `handle_clnt` up to its loop, for requests of the right form.
use open_source_project.Prelude.{
  ℕ, ◌+◌, ◌≡◌, inl, inr, refl, Bool, true, false, ◌&&◌, not, Option, none, some, List, [], ◌∷◌,
  ◌++◌, arith, ltb, ◌==◌, if◌then◌else◌, Bool-cases, Option-cases, length, All, Bytes, codes,
  str_eq,
}
use open_source_project.ChatServer.{Client, Server}
use open_source_project.ChatServer.Registry.Live.{LiveFrom, Holds}
use open_source_project.ChatServer.Auth.Accounts.{
  Account, IsAccount, render, password, accounts_after, process_auth_lem,
}
use open_source_project.ChatServer.Session.{
  got, ok, welcome, already_in, id_taken, no_such_id, wrong_password, scan_request, name_in_use,
  Opened, enter, refuse, open_session,
}

-- Another client than the one with the socket has the name.
abbrev pub taken : ℕ → Bytes → List Client → Bool
taken fd id [] = false
taken fd id (c ∷ cs) = if not (c.sock == fd) && str_eq c.name id then true else taken fd id cs

pub name_in_use_lem :
    (s : Server) (fd : ℕ) (id : Bytes) (cs : List Client) (i : ℕ)
    → LiveFrom s.heap s.clnt_list i cs
    → name_in_use s fd id (length cs) i ≡ some (taken fd id cs)
unfolding name_in_use
name_in_use_lem s fd id [] i l = refl
name_in_use_lem s fd id (c ∷ cs) i (l, ls) =
    rw (l, name_in_use_lem s fd id cs (i + 1) ls) (ground arith)

-- What a login promises.
abbrev pub login_outcome : Bool → Option Bytes → Bytes → Bytes → Bytes → Option Bytes → Opened
login_outcome true found id pw name users = refuse already_in name users
login_outcome false none id pw name users = refuse no_such_id name users
login_outcome false (some w) id pw name users =
    if str_eq w pw then enter (ok ∷ welcome id ∷ []) id users else refuse wrong_password name users

-- A login is refused while another registered client has the name, then for an unknown name, then for a
-- wrong password; else the client takes the name and goes on to the loop. The user file stays as it is.
pub open_session_login :
    (s : Server) (cs : List Client) (as' : List Account) (c : Client) (id pw garbage text : Bytes)
    → Holds s cs
    → All IsAccount as'
    → scan_request text ≡ some (codes "LOGIN", id, pw)
    → open_session s (some (render as')) c garbage (got text)
      ≡ some (login_outcome (taken c.sock id cs) (password as' id) id pw c.name (some (render as')))
unfolding open_session str_eq
open_session_login s cs as' c id pw garbage text v h e =
    let free : name_in_use s c.sock id s.clnt_cnt 0 ≡ some (taken c.sock id cs) =
      rw (v.count) at (name_in_use_lem s c.sock id cs 0 v.live) in
    elim (Bool-cases (taken c.sock id cs)) [
      | inl yes' ↦ rw (e, free, yes')
      | inr no' ↦ elim (Option-cases (password as' id)) [
        | inl missing ↦
            rw (e, free, no', process_auth_lem as' (codes "LOGIN") id pw garbage h, missing)
        | inr (w, found) ↦
            rw (e, free, no', process_auth_lem as' (codes "LOGIN") id pw garbage h, found)
              (ground arith)
      ]
    ]

-- A registration adds the account unless the name is taken. The code then tests the client's name,
-- which nothing has written: the thread goes on to the loop exactly if the memory that `malloc` gave
-- for it happens to start with a byte other than NUL.
pub open_session_register :
    (s : Server) (as' : List Account) (c : Client) (id pw garbage text : Bytes)
    → All IsAccount as'
    → scan_request text ≡ some (codes "REGISTER", id, pw)
    → (o : Opened) × (open_session s (some (render as')) c garbage (got text) ≡ some o)
      × (o.users
          ≡ some (
              render (
                accounts_after
                  (password as' id)
                  as'
                  (codes "REGISTER")
                  (record { id = id; pw = pw }))))
      × (o.replies ≡ (elim (password as' id) [ none ↦ ok | some w ↦ id_taken ]) ∷ [])
      × (o.chatting ≡ (elim (password as' id) [ none ↦ ltb 0 (length c.name) | some w ↦ false ]))
unfolding open_session str_eq
open_session_register s as' c id pw garbage text h e = elim (Option-cases (password as' id)) [
  | inl missing ↦ (
    enter (ok ∷ []) c.name (some (render (as' ++ (record { id = id; pw = pw } ∷ [])))),
    rw (e, process_auth_lem as' (codes "REGISTER") id pw garbage h, missing),
    rw missing,
    rw missing,
    rw missing,
  )
  | inr (w, found) ↦ (
    refuse id_taken c.name (some (render as')),
    rw (e, process_auth_lem as' (codes "REGISTER") id pw garbage h, found),
    rw found,
    rw found,
    rw found,
  )
]
