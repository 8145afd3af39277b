-- ===== src/ChatServer/Session.antt =====
-- project2/gui_server.c, `handle_clnt`: what one thread does with what it reads from its client. The
-- shared data is read at two moments, under the lock each time, so both values are arguments: `s` is
-- the array of clients at the search for the name, and `users` the file at `process_auth`.
pub mod Opening
use open_source_project.Prelude.{
  ℕ, zero, suc, ◌+◌, ◌-◌, ◌*◌, ◌/◌, ◌%◌, ◌^◌, ◌≤◌, ◌<◌, ◌≡◌, ◌≢◌, ◌↔◌, ◌⊎◌, inl, inr, refl, sym, ap,
  ◌∙◌, Bool, true, false, ◌&&◌, ◌||◌, not, Option, none, some, List, [], ◌∷◌, ◌++◌, map,
  append_assoc, append-nil, arith, dec_lt, ℕ_discrete, ltb, leb, ◌==◌, ==_iff, if◌then◌else◌,
  Bool-cases, Option-cases, length, get_elem?, get_or, set, take, drop, replicate, length-append,
  length-set, get_or-set_self, get_or-set_ne, get_elem?-set_self, get_elem?-set_ne, keep, words,
  words_from, is_space, IsWord, words-append_blank, words_last, All, All-append, Bytes, codes,
  str_eq, str_eq_iff, str_eq_sound, str_eq_refl, starts_with, cstr, NoNul, cstr-append_nul,
  cstr_of_NoNul,
}
use open_source_project.Prelude.Int.{ℤ, pos, negsuc}
use open_source_project.Prelude.Decimal.{atoi, print_int}
use open_source_project.ChatServer.{Client, Heap, Server, buf_size}
use open_source_project.ChatServer.Registry.{client_at, ◌>>=◌}
use open_source_project.ChatServer.Auth.{fits_20, process_auth}

-- `read`: the bytes, 0, or -1.
pub data Read : Type 0 where
  got : Bytes → Read
  closed : Read
  failed : Read

-- What the thread writes to its own client.
pub data Reply : Type 0 where
  ok : Reply
  welcome : Bytes → Reply
  already_in : Reply
  id_taken : Reply
  no_such_id : Reply
  wrong_password : Reply
  moved : ℤ → Reply

-- The bytes that are written.
unfoldable pub reply_text : Reply → Bytes
reply_text ok = codes "OK"
reply_text (welcome id) = codes ">>> 서버: 환영합니다 " ++ (id ++ codes "님! (로비 입장)\n")
reply_text already_in = codes "실패: 이미 접속중인 아이디입니다."
reply_text id_taken = codes "실패: 이미 존재하는 아이디입니다."
reply_text no_such_id = codes "실패: 존재하지 않는 아이디입니다."
reply_text wrong_password = codes "실패: 비밀번호가 틀렸습니다."
reply_text (moved room) = codes ">>> 서버: " ++ (print_int room ++ codes "번 방으로 이동했습니다.\n")

-- `sscanf(auth_buf, "%s %s %s", mode, id, pw)` into 10, 20 and 20 bytes: a word that is missing leaves
-- its array uninitialised, and one that is too long overflows it.
unfoldable pub pick_request : List Bytes → Option (Bytes × Bytes × Bytes)
pick_request [] = none
pick_request (mode ∷ []) = none
pick_request (mode ∷ id ∷ []) = none
pick_request (mode ∷ id ∷ pw ∷ more) =
    if ltb (length mode) 10 && (fits_20 id && fits_20 pw) then some (mode, id, pw) else none

unfoldable pub scan_request : Bytes → Option (Bytes × Bytes × Bytes)
scan_request text = pick_request (words is_space (cstr text))

-- The search for another client with the name, from index `i` with `n` rounds left.
unfoldable pub name_in_use : Server → ℕ → Bytes → ℕ → ℕ → Option Bool
name_in_use s fd id zero i = some false
name_in_use s fd id (suc n) i =
    let rest = name_in_use s fd id n (i + 1) in
    client_at s.heap s.clnt_list i >>= λ c.
    if not (c.sock == fd) && str_eq c.name id then some true else rest

-- The first part of `handle_clnt`: the replies, the client's name and the user file after it, and
-- whether the thread goes on to the loop (or to DISCONNECT).
pub record Opened : Type 0 where
  pub replies : List Reply
  pub name : Bytes
  pub users : Option Bytes
  pub chatting : Bool

-- `if (strlen(clnt->name) == 0) goto DISCONNECT;`
abbrev pub enter : List Reply → Bytes → Option Bytes → Opened
enter replies name users = record {
  replies = replies;
  name = name;
  users = users;
  chatting = ltb 0 (length name);
}

abbrev pub refuse : Reply → Bytes → Option Bytes → Opened
refuse reply name users = record {
  replies = reply ∷ [];
  name = name;
  users = users;
  chatting = false;
}

-- Behind `process_auth`, which returned `result`.
abbrev pub authenticated : ℤ → Bytes → Bytes → Bytes → Option Bytes → Opened
authenticated (pos zero) mode id name users =
    if str_eq mode (codes "LOGIN")
    then enter (ok ∷ welcome id ∷ []) id users
    else enter (ok ∷ []) name users
authenticated (pos (suc n)) mode id name users =
    if str_eq mode (codes "REGISTER")
    then refuse id_taken name users
    else refuse wrong_password name users
authenticated (negsuc n) mode id name users =
    if str_eq mode (codes "REGISTER")
    then refuse id_taken name users
    else if n == 1
    then refuse no_such_id name users
    else refuse wrong_password name users

unfoldable pub open_session : Server → Option Bytes → Client → Bytes → Read → Option Opened
open_session s users c garbage closed = some (enter [] c.name users)
open_session s users c garbage failed = some (enter [] c.name users)
open_session s users c garbage (got text) = scan_request text >>= λ (mode, id, pw).
    (if str_eq mode (codes "LOGIN") then name_in_use s c.sock id s.clnt_cnt 0 else some false)
    >>= λ already.
        if already
        then some (refuse already_in c.name users)
        else (process_auth users mode id pw garbage >>= λ (result, file).
            some (authenticated result mode id c.name (some file)))

-- One round of the loop: the thread ends it, changes its own client, or calls `send_msg`.
pub data Action : Type 0 where
  leave : Action
  stay : Client → List Reply → Action
  send : Bytes → ℕ → Action

-- `msg[str_len] = 0` lies outside `msg` if the read filled it or failed. `stale` is what stands in
-- `msg` behind that NUL.
unfoldable pub on_read : Client → Bytes → Read → Option Action
on_read c stale closed = some leave
on_read c stale failed = none
on_read c stale (got []) = some leave
on_read c stale (got (b ∷ bs)) =
    let msg = (b ∷ bs) ++ (0 ∷ stale) in
    if ltb (length (b ∷ bs)) buf_size
    then (if b == b'/'
        then (if starts_with (cstr msg) (codes "/join")
            then (atoi (drop 6 msg) >>= λ room.
                some (stay (record c { room = room }) (moved room ∷ [])))
            else some (stay c []))
        else some (send msg (length (b ∷ bs))))
    else none
