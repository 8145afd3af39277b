-- ===== src/ChatClient/Windows.antt =====
-- project2/gui_client.c: what `main`, `on_signup_btn_clicked` and `create_chat_interface` put into the
-- windows, which handler each button has, and the loop of recv_msg. A window is the list of its parts
-- in the order in which they are packed.
use open_source_project.Prelude.{
  ℕ, zero, suc, ◌+◌, Bool, true, false, Option, none, some, List, [], ◌∷◌, ◌++◌, if◌then◌else◌,
  length, ltb, Bytes, codes, str_eq,
}
use open_source_project.Prelude.Int.{ℤ, pos}
use open_source_project.Prelude.Decimal.{print_nat, atoi}
use open_source_project.ChatServer.Registry.{◌>>=◌}
use open_source_project.ChatServer.Session.{Read}
use open_source_project.ChatClient.{
  Effect, sprintf, answer_text, on_message, on_room_clicked, on_send_clicked, on_file_clicked,
  on_signup_confirm, on_login_clicked,
}

-- The handler of a signal with its last argument.
pub data Handler : Type 0 where
  room_clicked : ℤ → Handler
  send_clicked : Handler
  file_clicked : Handler
  login_clicked : Handler
  signup_btn_clicked : Handler
  signup_confirm : Handler
  main_quit : Handler

-- A label; a button with its label; a field with its placeholder, whether it shows what is typed, and
-- what Enter does in it; the text of the chat.
pub data Widget : Type 0 where
  label : Bytes → Widget
  button : Bytes → Handler → Widget
  field : Bytes → Bool → Option Handler → Widget
  text_view : Widget

pub record Window : Type 0 where
  pub title : Bytes
  pub destroy : Option Handler
  pub parts : List Widget

-- The window of `main`.
abbrev pub login_window : Window
login_window = record {
  title = codes "로그인";
  destroy = some main_quit;
  parts =
      label (codes "아이디와 비밀번호를 입력하세요")
      ∷ field (codes "아이디") true none
      ∷ field (codes "비밀번호") false none
      ∷ button (codes "로그인") login_clicked
      ∷ button (codes "회원가입") signup_btn_clicked
      ∷ [];
}

-- The dialog of `on_signup_btn_clicked`.
abbrev pub signup_dialog : Window
signup_dialog = record {
  title = codes "회원가입";
  destroy = none;
  parts =
      field (codes "새 아이디") true none
      ∷ field (codes "새 비밀번호") false none
      ∷ button (codes "계정 생성") signup_confirm
      ∷ [];
}

-- `sprintf(buf, "%d번 방", i)`
abbrev pub room_title : ℕ → Bytes
room_title i = print_nat i ++ codes "번 방"

-- `for (i = ...; i <= 10; i++)` with `n` rounds.
unfoldable pub room_buttons : ℕ → ℕ → Option (List Widget)
room_buttons zero i = some []
room_buttons (suc n) i = sprintf 20 (room_title i) >>= λ buf.
    room_buttons n (i + 1) >>= λ more. some (button buf (room_clicked (pos i)) ∷ more)

-- `create_chat_interface` for the user's name.
unfoldable pub create_chat_interface : Bytes → Option Window
unfolding room_buttons
create_chat_interface name = sprintf 50 (codes "오픈소스 메신저 - " ++ name) >>= λ t.
    room_buttons 10 1 >>= λ rooms. some (record {
      title = t;
      destroy = some main_quit;
      parts =
          label (codes "채널 목록")
          ∷ button (codes "로비") (room_clicked (pos 0))
          ∷ (rooms
              ++ (label (codes "현재: 로비")
                  ∷ text_view
                  ∷ field (codes "메시지 입력...") true (some send_clicked)
                  ∷ button (codes "전송") send_clicked
                  ∷ button (codes "파일") file_clicked
                  ∷ []));
    })

-- The start of `main`: the usage line, or the address for `ip[20]`, the port and the first window.
pub data Started : Type 0 where
  usage : Started
  started : Bytes → ℤ → Window → Started

unfoldable pub main : List Bytes → Option Started
main [] = some usage
main (a ∷ as') = elim as' [
  | [] ↦ some usage
  | b ∷ bs ↦ elim bs [
    | x ∷ xs ↦ some usage
    | [] ↦
        if ltb (length a) 20 then (atoi b >>= λ port. some (started a port login_window)) else none
  ]
]

-- What the user has put into the fields, what the file dialog gives, and what the socket calls of a
-- login or a registration give.
pub record Input : Type 0 where
  pub typed : Bytes
  pub id : Bytes
  pub pw : Bytes
  pub accepted : Bool
  pub base_name : Bytes
  pub connected : Bool
  pub answer : Read

-- What a handler does; the second part is the new `name` of a login. The dialog and the end of the
-- program are no effects on the chat.
unfoldable pub handle : Handler → Input → Option (List Effect × Option Bytes)
handle (room_clicked n) i = on_room_clicked n >>= λ es. some (es, none)
handle send_clicked i = some (on_send_clicked i.typed, none)
handle file_clicked i = on_file_clicked i.accepted i.base_name >>= λ es. some (es, none)
handle login_clicked i = on_login_clicked i.id i.pw i.connected i.answer
handle signup_btn_clicked i = some ([], none)
handle signup_confirm i = on_signup_confirm i.id i.pw i.connected i.answer >>= λ es. some (es, none)
handle main_quit i = some ([], none)

-- The handler of the first button with a label.
unfoldable pub find_button : List Widget → Bytes → Option Handler
find_button [] text = none
find_button (button t h ∷ ws) text = if str_eq t text then some h else find_button ws text
find_button (label t ∷ ws) text = find_button ws text
find_button (field t shown h ∷ ws) text = find_button ws text
find_button (text_view ∷ ws) text = find_button ws text

-- A click on that button.
unfoldable pub press : Window → Bytes → Input → Option (List Effect × Option Bytes)
unfolding find_button handle
press w text i = find_button w.parts text >>= λ h. handle h i

-- `recv_msg`: the effects of a list of reads with what `fopen` gives for each, until a read that ends it.
unfoldable pub recv_msg : List (Read × Bool) → Option (List Effect)
unfolding on_message
recv_msg [] = some []
recv_msg ((r, opened) ∷ rs) = elim (answer_text r) [
  | none ↦ some []
  | some msg ↦ on_message msg opened >>= λ es. recv_msg rs >>= λ more. some (es ++ more)
]
