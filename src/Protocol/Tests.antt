-- ===== src/Protocol/Tests.antt =====
-- The theorems about client and server together, at small inputs.
use open_source_project.Prelude.{
  ◌≡◌, refl, true, false, none, some, List, [], ◌∷◌, ◌++◌, arith, ◌==◌, if◌then◌else◌, replicate,
  All, Bytes, codes, str_eq, starts_with,
}
use open_source_project.Prelude.Int.{pos}
use open_source_project.ChatServer.{Client, Server}
use open_source_project.ChatServer.Registry.Live.{Holds}
use open_source_project.ChatServer.Auth.Accounts.{Account, IsAccount, render, password}
use open_source_project.ChatServer.Session.{
  got, Reply, reply_text, Opened, open_session, on_read, stay, moved,
}
use open_source_project.ChatClient.{login_info, on_login_clicked}
use open_source_project.Protocol.Requests.{IsEntry}
use open_source_project.ChatClient.{sent}
use open_source_project.Prelude.Decimal.{print_nat, print_int}
use open_source_project.ChatClient.{show_room}
use open_source_project.ChatClient.Windows.{Input, Window, create_chat_interface, press}
use open_source_project.Protocol.Rooms.{room_entered}
use open_source_project.Prelude.{inl, inr}
use open_source_project.ChatServer.Broadcast.{Delivery}
use open_source_project.ChatClient.{Effect}
use open_source_project.ChatClient.Windows.{recv_msg}
use open_source_project.Protocol.Conversation.{Said, IsSaid, sent_to, window}
use open_source_project.Protocol.Conversation.Shown.{reads}
use open_source_project.Protocol.Chat.{IsText}
use open_source_project.Protocol.SignUp.{SignsUp, LogsIn, signed_up, sign_up_then_log_in}
use open_source_project.Prelude.{map, words_from}
use open_source_project.ChatClient.{on_file_clicked, save_file, update}
use open_source_project.Protocol.Conversation.{serve, request}
use open_source_project.Protocol.Files.{IsFileName, file_announced}
use open_source_project.Protocol.Moving.{Event, says, enters, AreEvents, happen_all}
use open_source_project.Protocol.Moving.Seen.{events_shown}
use open_source_project.Protocol.Login.{lets_in, client_side, login_agrees}

abbrev newcomer : Client
newcomer = record { sock = 4; name = []; room = pos 0 }

-- A server whose one client is the newcomer.
abbrev fresh : Server
fresh = record {
  heap = λ p. if p == 10 then some newcomer else none;
  clnt_list = 10 ∷ replicate 255 0;
  clnt_cnt = 1;
}

fresh-Holds : Holds fresh (newcomer ∷ [])
fresh-Holds = record {
  array = refl;
  fits = omega arith;
  count = refl;
  live = (refl, tt);
  apart = (tt, tt);
}

abbrev accounts : List Account
accounts = record { id = codes "bob"; pw = codes "b1" } ∷ []

accounts-IsAccount : All IsAccount accounts
accounts-IsAccount = ground arith

bob-IsEntry : IsEntry (codes "bob")
bob-IsEntry = ground arith

b1-IsEntry : IsEntry (codes "b1")
b1-IsEntry = ground arith

login_agrees_example :
    (req : Bytes) × (o : Opened) × (login_info (codes "bob") (codes "b1") ≡ some req)
    × (open_session fresh (some (render accounts)) newcomer [] (got req) ≡ some o)
    × (o.chatting ≡ lets_in false (password accounts (codes "bob")) (codes "b1"))
    × ((r : Reply) × (rest : List Reply) × (o.replies ≡ r ∷ rest)
        × (on_login_clicked (codes "bob") (codes "b1") true (got (reply_text r ++ []))
            ≡ some (client_side o.chatting (codes "bob") req r [])))
unfolding str_eq
login_agrees_example =
    login_agrees fresh (newcomer ∷ []) accounts newcomer (codes "bob") (codes "b1") [] []
      fresh-Holds accounts-IsAccount bob-IsEntry b1-IsEntry

abbrev cat_account : Account
cat_account = record { id = codes "cat"; pw = codes "c1" }

cat_account-IsAccount : IsAccount cat_account
cat_account-IsAccount = ground arith

sign_up_then_log_in_example :
    SignsUp fresh [] newcomer (codes "bob") (codes "b1") [] []
    × LogsIn fresh
        (signed_up [] (codes "bob") (codes "b1") ++ (cat_account ∷ []))
        newcomer
        (codes "bob")
        (codes "b1")
        []
        []
        true
unfolding str_eq
sign_up_then_log_in_example =
    sign_up_then_log_in fresh fresh (newcomer ∷ []) [] (cat_account ∷ []) newcomer newcomer
      (codes "bob") (codes "b1") (codes "b1") [] [] [] [] fresh-Holds tt (cat_account-IsAccount, tt)
      bob-IsEntry b1-IsEntry b1-IsEntry refl

-- A server whose one client is Bob.
abbrev bob : Client
bob = record { sock = 4; name = codes "bob"; room = pos 0 }

abbrev with_bob : Server
with_bob = record fresh { heap = λ p. if p == 10 then some bob else none }

with_bob-Holds : Holds with_bob (bob ∷ [])
with_bob-Holds = record {
  array = refl;
  fits = omega arith;
  count = refl;
  live = (refl, tt);
  apart = (tt, tt);
}

hi-IsText : IsText (codes "hi")
unfolding starts_with
hi-IsText = record {
  some_byte = omega arith;
  fits = omega arith;
  no_nul = omega arith;
  no_command = refl;
  no_file = refl;
}

abbrev no_input : Input
no_input = record {
  typed = [];
  id = [];
  pw = [];
  accepted = false;
  base_name = [];
  connected = false;
  answer = got [];
}

room_entered_example :
    (w : Window) × (cmd : Bytes) × (create_chat_interface (codes "bob") ≡ some w)
    × (press w (codes "7번 방") no_input ≡ some (sent cmd ∷ show_room (pos 7) ∷ [], none))
    × (on_read bob (codes "99") (got cmd)
        ≡ some (stay (record bob { room = pos 7 }) (moved (pos 7) ∷ [])))
unfolding print_nat
room_entered_example =
    room_entered 7 (codes "bob") no_input bob (codes "99") (omega arith) (omega arith)

-- Ann is in the same room, and Bob in the entry before her.
abbrev ann : Client
ann = record { sock = 5; name = codes "ann"; room = pos 0 }

abbrev two_clients : Server
two_clients = record {
  heap = λ p. if p == 10 then some bob else if p == 11 then some ann else none;
  clnt_list = 10 ∷ 11 ∷ replicate 254 0;
  clnt_cnt = 2;
}

two_clients-Holds : Holds two_clients (bob ∷ ann ∷ [])
two_clients-Holds = record {
  array = refl;
  fits = omega arith;
  count = refl;
  live = (refl, (refl, tt));
  apart = ((omega arith, tt), (tt, tt));
}

abbrev bob_says : Said
bob_says = record { sender = bob; text = codes "hi"; stale = [] }

abbrev ann_says : Said
ann_says = record { sender = ann; text = codes "hi"; stale = codes "99" }

bob-IsSaid : IsSaid bob_says
unfolding starts_with
bob-IsSaid = record {
  is_text = hi-IsText;
  short = omega arith;
  clean = omega arith;
  no_file = refl;
  whole = omega arith;
}

ann-IsSaid : IsSaid ann_says
unfolding starts_with
ann-IsSaid = record {
  is_text = hi-IsText;
  short = omega arith;
  clean = omega arith;
  no_file = refl;
  whole = omega arith;
}

notes-IsFileName : IsFileName (codes "a b.txt") (codes "a") (codes "b.txt" ∷ [])
unfolding words_from
notes-IsFileName = record {
  first = refl;
  short = omega arith;
  fits = omega arith;
  no_nul = omega arith;
}

file_announced_example :
    (es : List Effect) × (out : List Delivery) × (on_file_clicked true (codes "a b.txt") ≡ some es)
    × (es ≡ sent (codes "[FILE] a b.txt") ∷ update (codes ">>> 파일 전송 중: a b.txt") ∷ [])
    × (serve two_clients (record bob_says { text = codes "a b.txt" }) (request es) ≡ some out)
    × (recv_msg (map (λ m. (got m, true)) (sent_to 5 out))
        ≡ some (save_file (codes "recv_a") ∷ update (codes ">>> 파일 저장됨: recv_a") ∷ []))
file_announced_example =
    file_announced (codes "a b.txt") (codes "a") (codes "b.txt" ∷ []) notes-IsFileName two_clients
      (bob ∷ ann ∷ []) bob ann [] true two_clients-Holds (inr (inl refl)) (omega arith)

-- Ann leaves the lobby between two texts of Bob.
abbrev lobby : List Event
lobby =
    record { who = 0; stale = []; act = says (codes "hi") }
    ∷ record { who = 1; stale = codes "99"; act = enters (pos 3) }
    ∷ record { who = 0; stale = []; act = says (codes "hi") }
    ∷ []

lobby-AreEvents : AreEvents (bob ∷ ann ∷ []) lobby
lobby-AreEvents =
    ((bob, refl, bob-IsSaid), ((ann, refl, omega arith), ((bob, refl, bob-IsSaid), tt)))

events_shown_example :
    (out : List Delivery) × (effs : List Effect) × (happen_all two_clients lobby ≡ some out)
    × (recv_msg (reads (sent_to 5 out)) ≡ some effs)
    × (window effs [] ≡ codes "[bob] hi\n>>> 서버: 3번 방으로 이동했습니다.\n\n")
unfolding reply_text print_nat print_int
events_shown_example =
    events_shown two_clients (bob ∷ ann ∷ []) 1 ann lobby two_clients-Holds refl lobby-AreEvents
