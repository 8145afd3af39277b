-- ===== src/Protocol/Rooms.antt =====
-- The room buttons of the client's window and the server.
use open_source_project.Prelude.{
  ℕ, zero, suc, ◌≤◌, ◌<◌, ◌≡◌, refl, true, none, some, List, [], ◌∷◌, ◌++◌, arith, ltb, length,
  Bytes, codes, str_eq,
}
use open_source_project.Prelude.Int.{pos}
use open_source_project.Prelude.Decimal.{print_nat}
use open_source_project.ChatServer.{Client}
use open_source_project.ChatServer.Session.{on_read, got, stay, moved}
use open_source_project.ChatClient.{sent, show_room, on_room_clicked}
use open_source_project.ChatClient.Windows.{
  room_clicked, send_clicked, file_clicked, main_quit, Widget, label, button, field, text_view,
  Window, Input, room_title, room_buttons, create_chat_interface, find_button, handle, press,
}
use open_source_project.Protocol.Requests.{on_read-join_command}

-- What is written on the button of a room; 0 is the lobby.
abbrev pub button_title : ℕ → Bytes
button_title zero = codes "로비"
button_title (suc n) = room_title (suc n)

abbrev room_button : ℕ → Widget
room_button i = button (room_title i) (room_clicked (pos i))

abbrev rooms : List Widget
rooms =
    room_button 1
    ∷ room_button 2
    ∷ room_button 3
    ∷ room_button 4
    ∷ room_button 5
    ∷ room_button 6
    ∷ room_button 7
    ∷ room_button 8
    ∷ room_button 9
    ∷ room_button 10
    ∷ []

room_buttons_lem : room_buttons 10 1 ≡ some rooms
unfolding room_buttons print_nat
room_buttons_lem = refl

abbrev chat_parts : List Widget
chat_parts =
    label (codes "채널 목록")
    ∷ button (codes "로비") (room_clicked (pos 0))
    ∷ (rooms
        ++ (label (codes "현재: 로비")
            ∷ text_view
            ∷ field (codes "메시지 입력...") true (some send_clicked)
            ∷ button (codes "전송") send_clicked
            ∷ button (codes "파일") file_clicked
            ∷ []))

find_room : (n : ℕ) → n ≤ 10 → find_button chat_parts (button_title n) ≡ some (room_clicked (pos n))
unfolding find_button print_nat str_eq
find_room zero le = refl
find_room (suc zero) le = refl
find_room (suc (suc zero)) le = refl
find_room (suc (suc (suc zero))) le = refl
find_room (suc (suc (suc (suc zero)))) le = refl
find_room (suc (suc (suc (suc (suc zero))))) le = refl
find_room (suc (suc (suc (suc (suc (suc zero)))))) le = refl
find_room (suc (suc (suc (suc (suc (suc (suc zero))))))) le = refl
find_room (suc (suc (suc (suc (suc (suc (suc (suc zero)))))))) le = refl
find_room (suc (suc (suc (suc (suc (suc (suc (suc (suc zero))))))))) le = refl
find_room (suc (suc (suc (suc (suc (suc (suc (suc (suc (suc zero)))))))))) le = refl
find_room (suc (suc (suc (suc (suc (suc (suc (suc (suc (suc (suc n))))))))))) le =
    absurd (omega arith)

create_chat_interface_lem :
    (name : Bytes)
    → length name < 20
    → create_chat_interface name
      ≡ some (record {
        title = codes "오픈소스 메신저 - " ++ name;
        destroy = some main_quit;
        parts = chat_parts;
      })
unfolding create_chat_interface
create_chat_interface_lem name short =
    let fits : ltb (length (codes "오픈소스 메신저 - " ++ name)) 50 ≡ true = ground arith in
    rw (fits, room_buttons_lem) refl

-- For a name of fewer than 20 bytes the chat window opens, and for each room from 0 to 10 it has a
-- button; a click on the button sends one request and shows the room, and the server, whatever its
-- buffer held, answers this request by moving the client to that room.
pub room_entered :
    (n : ℕ) (name : Bytes) (i : Input) (c : Client) (stale : Bytes)
    → n ≤ 10
    → length name < 20
    → (w : Window) × (cmd : Bytes) × (create_chat_interface name ≡ some w)
      × (press w (button_title n) i ≡ some (sent cmd ∷ show_room (pos n) ∷ [], none))
      × (on_read c stale (got cmd) ≡ some (stay (record c { room = pos n }) (moved (pos n) ∷ [])))
unfolding press handle on_room_clicked
room_entered n name i c stale le short =
    let (cmd, e, read) = on_read-join_command (pos n) c stale (omega arith) in
    (_, cmd, create_chat_interface_lem name short, rw (find_room n le, e) refl, read)
