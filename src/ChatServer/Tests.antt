-- ===== src/ChatServer/Tests.antt =====
-- Runs of the chat server on small inputs, and its theorems at them.
use open_source_project.Prelude.{
  ℕ, ◌≡◌, ◌≢◌, ◌↔◌, ◌++◌, refl, true, false, Option, none, some, List, [], ◌∷◌, arith, take,
  replicate, words_from, All, codes, str_eq, starts_with, cstr,
}
use open_source_project.Prelude.Int.{pos, negsuc}
use open_source_project.ChatServer.{Client, Heap, Server, store}
use open_source_project.ChatServer.Registry.{find_sock, shift, disconnect}
use open_source_project.ChatServer.Registry.Live.{Holds}
use open_source_project.ChatServer.Broadcast.{
  send_msg, send_from, payload, final_msg, hears, listens, send_msg-text,
}
use open_source_project.ChatServer.Departure.{send_msg-disconnect_earlier}
use open_source_project.ChatServer.Auth.{process_auth}
use open_source_project.ChatServer.Auth.Accounts.{Account, IsAccount, render, process_auth_lem}
use open_source_project.ChatServer.Session.{
  got, scan_request, pick_request, Opened, open_session, id_taken,
}
use open_source_project.ChatServer.Session.Opening.{open_session_register}

abbrev alice : Client
alice = record { sock = 4; name = codes "alice"; room = pos 0 }

abbrev bob : Client
bob = record { sock = 5; name = codes "bob"; room = pos 1 }

abbrev carol : Client
carol = record { sock = 6; name = codes "carol"; room = pos 0 }

abbrev heap : Heap
heap = store (store (store (λ p. none) 10 (some alice)) 20 (some bob)) 30 (some carol)

abbrev three : Server
three = record { heap = heap; clnt_list = 10 ∷ 20 ∷ 30 ∷ replicate 253 0; clnt_cnt = 3 }

abbrev everyone : List Client
everyone = alice ∷ bob ∷ carol ∷ []

three-Holds : Holds three everyone
three-Holds = record {
  array = refl;
  fits = omega arith;
  count = refl;
  live = (refl, (refl, (refl, tt)));
  apart = ((omega arith, (omega arith, tt)), ((omega arith, tt), (tt, tt)));
}

-- Alice leaves: Bob is gone from the array, and Alice's entry stays.
abbrev after_alice : Option Server → Option (List ℕ)
after_alice none = none
after_alice (some t) = some (take t.clnt_cnt t.clnt_list)

alice_leaves : after_alice (disconnect three 10) ≡ some (10 ∷ 30 ∷ [])
unfolding disconnect find_sock shift
alice_leaves = refl

carol_leaves : after_alice (disconnect three 30) ≡ some (10 ∷ 20 ∷ [])
unfolding disconnect find_sock shift
carol_leaves = refl

to_the_lobby :
    send_msg three alice (codes "hi") 2
    ≡ some ((4, codes "[alice] hi") ∷ (6, codes "[alice] hi") ∷ [])
unfolding send_msg send_from hears payload final_msg cstr starts_with
to_the_lobby = refl

send_msg-text_example :
    (send_msg three alice (codes "hi" ++ (0 ∷ [])) 2
      ≡ some ((4, codes "[alice] hi") ∷ (6, codes "[alice] hi") ∷ []))
    × ((c : Client) → (listens alice c ≡ true) ↔ ((c.name ≢ []) × (c.room ≡ pos 0)))
unfolding starts_with
send_msg-text_example =
    send_msg-text three everyone alice (codes "hi") [] three-Holds (omega arith) (ground arith)
      (omega arith)

send_msg-disconnect_earlier_example :
    (t : Server) × (disconnect three 10 ≡ some t) × (send_msg t carol (codes "hi") 2 ≡ none)
unfolding cstr
send_msg-disconnect_earlier_example =
    send_msg-disconnect_earlier three 10 alice [] bob (carol ∷ []) carol (codes "hi") 2 three-Holds
      (omega arith) refl refl (omega arith) (omega arith)

abbrev pub accounts : List Account
accounts = record { id = codes "bob"; pw = codes "b1" } ∷ []

pub accounts-IsAccount : All IsAccount accounts
accounts-IsAccount = ground arith

process_auth_lem_example :
    process_auth (some (render accounts)) (codes "LOGIN") (codes "bob") (codes "b2") []
    ≡ some (negsuc 0, render accounts)
unfolding str_eq
process_auth_lem_example =
    process_auth_lem accounts (codes "LOGIN") (codes "bob") (codes "b2") [] accounts-IsAccount

pub request_text :
    scan_request (codes "LOGIN bob b1") ≡ some (codes "LOGIN", codes "bob", codes "b1")
unfolding scan_request pick_request words_from cstr
request_text = refl

register_text :
    scan_request (codes "REGISTER bob b1") ≡ some (codes "REGISTER", codes "bob", codes "b1")
unfolding scan_request pick_request words_from cstr
register_text = refl

-- Bob is registered already, from another socket.
open_session_register_example :
    (o : Opened) × (open_session three
        (some (render accounts))
        alice
        []
        (got (codes "REGISTER bob b1"))
      ≡ some o)
    × (o.users ≡ some (render accounts))
    × (o.replies ≡ id_taken ∷ [])
    × (o.chatting ≡ false)
unfolding str_eq
open_session_register_example =
    open_session_register three accounts alice (codes "bob") (codes "b1") []
      (codes "REGISTER bob b1") accounts-IsAccount register_text
