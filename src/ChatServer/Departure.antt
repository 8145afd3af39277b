-- ===== src/ChatServer/Departure.antt =====
-- project2/gui_server.c: a client that leaves, and the next message.
use open_source_project.Prelude.{
  ℕ, ◌≤◌, ◌<◌, ◌≡◌, none, some, List, [], ◌∷◌, ◌++◌, map, arith, length, get_elem?, keep, Bytes,
  cstr,
}
use open_source_project.ChatServer.{Client, Server, max_clnt, buf_size}
use open_source_project.ChatServer.Registry.{disconnect}
use open_source_project.ChatServer.Registry.Live.{Holds}
use open_source_project.ChatServer.Registry.Leave.{disconnect_last, disconnect_earlier}
use open_source_project.ChatServer.Broadcast.{
  send_msg, listens, spoken, send_msg_lem, send_msg_dangling,
}

-- Once a client that is not the last one in the array has left, every message that any client sends
-- reads freed memory, if the array has room, the sender's name fewer than 20 bytes and the text at most
-- BUF_SIZE.
pub send_msg-disconnect_earlier :
    (s : Server) (p : ℕ) (c : Client) (before : List Client) (next : Client) (rest : List Client)
    (sender : Client) (msg : Bytes) (len : ℕ)
    → Holds s (before ++ (c ∷ next ∷ rest))
    → s.clnt_cnt < max_clnt
    → get_elem? s.clnt_list (length before) ≡ some p
    → s.heap p ≡ some c
    → length sender.name < 20
    → length (cstr msg) ≤ buf_size
    → (t : Server) × (disconnect s p ≡ some t) × (send_msg t sender msg len ≡ none)
send_msg-disconnect_earlier s p c before next rest sender msg len v room slot owner short fits =
    let (t, runs, count, live, dangles, _) =
      disconnect_earlier s p c before next rest v room slot owner in
    (t, runs, send_msg_dangling t sender msg len before live dangles (omega arith) short fits)

-- Once the last client in the array has left, a message goes to exactly the listeners among the others.
pub send_msg-disconnect_last :
    (s : Server) (p : ℕ) (c : Client) (before : List Client) (sender : Client) (msg : Bytes)
    (len : ℕ)
    → Holds s (before ++ (c ∷ []))
    → get_elem? s.clnt_list (length before) ≡ some p
    → s.heap p ≡ some c
    → length sender.name < 20
    → length (cstr msg) ≤ buf_size
    → (t : Server) × (disconnect s p ≡ some t)
      × (send_msg t sender msg len
          ≡ some (map (λ d. (d.sock, spoken sender msg len)) (keep (listens sender) before)))
send_msg-disconnect_last s p c before sender msg len v slot owner short fits =
    let (t, runs, v', _) = disconnect_last s p c before v slot owner in
    (t, runs, send_msg_lem t before sender msg len v' short fits)
