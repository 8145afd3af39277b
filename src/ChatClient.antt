-- ===== src/ChatClient.antt =====
-- project2/gui_client.c: the requests that the client sends, and what it does with the answers. GTK and
-- the socket calls are not modelled: their results are arguments, and what the handlers do to the
-- windows and the socket is a list of effects. `none` is a buffer overflow, or the use of an array that
-- nothing wrote.
pub mod Windows
use open_source_project.Prelude.{
  ℕ, zero, Bool, ◌||◌, not, Option, none, some, List, [], ◌∷◌, ◌++◌, ltb, ◌==◌, if◌then◌else◌,
  length, take, drop, words, is_space, Bytes, codes, starts_with, cstr,
}
use open_source_project.Prelude.Int.{ℤ, pos}
use open_source_project.Prelude.Decimal.{print_int}
use open_source_project.ChatServer.Session.{Read, got, closed, failed}
use open_source_project.ChatServer.Registry.{◌>>=◌}

pub data Effect : Type 0 where
  alert : Bytes → Effect
  info : Effect
  sent : Bytes → Effect
  hang_up : Effect
  close_dialog : Effect
  open_chat : Effect
  empty_entry : Effect
  show_room : ℤ → Effect
  save_file : Bytes → Effect
  update : Bytes → Effect

-- `sprintf` into an array of `n` bytes.
abbrev pub sprintf : ℕ → Bytes → Option Bytes
sprintf n text = if ltb (length text) n then some text else none

-- `sprintf(login_info, "LOGIN %s %s", id_text, pw_text)`
unfoldable pub login_info : Bytes → Bytes → Option Bytes
login_info id pw = sprintf 50 (codes "LOGIN " ++ (id ++ (32 ∷ pw)))

-- `sprintf(req, "REGISTER %s %s", new_id, new_pw)`
unfoldable pub register_info : Bytes → Bytes → Option Bytes
register_info id pw = sprintf 50 (codes "REGISTER " ++ (id ++ (32 ∷ pw)))

-- What `read` puts into `res[100]`: at most 99 bytes.
abbrev pub answer_text : Read → Option Bytes
answer_text closed = none
answer_text failed = none
answer_text (got []) = none
answer_text (got (b ∷ bs)) = some (cstr (b ∷ bs))

-- `on_login_clicked`. `connected` is whether `connect_to_server` gave a socket, and `r` what `read`
-- gave. The result is the effects, with the new `name` where the login succeeds: `strncpy` copies at
-- most 19 bytes of the name.
unfoldable pub on_login_clicked : Bytes → Bytes → Bool → Read → Option (List Effect × Option Bytes)
on_login_clicked id pw connected r =
    if length id == 0 || length pw == 0
    then some (alert (codes "아이디와 비밀번호를 입력해주세요.") ∷ [], none)
    else if not connected
    then some (alert (codes "서버 연결 실패! 서버가 켜져 있는지 확인하세요.") ∷ [], none)
    else (login_info id pw >>= λ req. elim (answer_text r) [
      | none ↦ some (sent req ∷ hang_up ∷ alert (codes "서버 응답 없음.") ∷ [], none)
      | some res ↦
          if starts_with res (codes "OK")
          then some (sent req ∷ open_chat ∷ [], some (take 19 id))
          else some (sent req ∷ hang_up ∷ alert res ∷ [], none)
    ])

-- `on_signup_confirm`
unfoldable pub on_signup_confirm : Bytes → Bytes → Bool → Read → Option (List Effect)
on_signup_confirm id pw connected r =
    if length id == 0 || length pw == 0
    then some (alert (codes "아이디와 비밀번호를 모두 입력해주세요.") ∷ [])
    else if not connected
    then some (alert (codes "서버 연결 실패!") ∷ [])
    else (register_info id pw >>= λ req. elim (answer_text r) [
      | none ↦ some (sent req ∷ hang_up ∷ alert (codes "회원가입 실패 (ID 중복 등)") ∷ [])
      | some res ↦
          if starts_with res (codes "OK")
          then some (sent req ∷ hang_up ∷ info ∷ close_dialog ∷ [])
          else some (sent req ∷ hang_up ∷ alert (codes "회원가입 실패 (ID 중복 등)") ∷ [])
    ])

-- `sprintf(cmd, "/join 0")` or `sprintf(cmd, "/join %d", room_num)`
unfoldable pub join_command : ℤ → Option Bytes
join_command (pos zero) = sprintf 50 (codes "/join 0")
join_command room = sprintf 50 (codes "/join " ++ print_int room)

-- `on_room_clicked`
unfoldable pub on_room_clicked : ℤ → Option (List Effect)
on_room_clicked room = join_command room >>= λ cmd. some (sent cmd ∷ show_room room ∷ [])

-- `on_send_clicked`
unfoldable pub on_send_clicked : Bytes → List Effect
on_send_clicked msg = if length msg == 0 then [] else sent msg ∷ empty_entry ∷ []

-- `on_file_clicked` behind the dialog: only the name of the file is sent.
unfoldable pub on_file_clicked : Bool → Bytes → Option (List Effect)
on_file_clicked accepted base_name =
    if accepted
    then (sprintf 1024 (codes "[FILE] " ++ base_name) >>= λ header.
        sprintf 1024 (codes ">>> 파일 전송 중: " ++ base_name) >>= λ text.
        some (sent header ∷ update text ∷ []))
    else some []

-- `sscanf(msg, "[FILE] %s", filename)` into `filename[100]`, for a text that starts with [FILE]: the
-- first word behind it.
unfoldable pub file_name : Bytes → Option Bytes
file_name msg = elim (words is_space (drop 6 msg)) [ [] ↦ none | w ∷ ws ↦ sprintf 100 w ]

-- One round of `recv_msg` for the text `msg`; `opened` is whether `fopen` gave a file. The file is
-- opened for writing and closed.
unfoldable pub on_message : Bytes → Bool → Option (List Effect)
on_message msg opened =
    if starts_with msg (codes "[FILE]")
    then (file_name msg >>= λ name.
        let save_name = codes "recv_" ++ name in
        if opened
        then some (save_file save_name ∷ update (codes ">>> 파일 저장됨: " ++ save_name) ∷ [])
        else some [])
    else some (update msg ∷ [])

-- `update_ui`: the text of the chat window after an update.
unfoldable pub update_ui : Bytes → Bytes → Bytes
update_ui buffer str = buffer ++ (str ++ (10 ∷ []))
