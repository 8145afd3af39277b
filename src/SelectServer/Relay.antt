-- ===== src/SelectServer/Relay.antt =====
-- lab3/6/chat_client.c and chat_server.c: a line on its way from one client's keyboard to the others.
use open_source_project.Prelude.{
  ◌-◌, ◌<◌, ◌≡◌, ◌≢◌, true, false, List, [], ◌∷◌, ◌++◌, length, Bytes, codes, NoNul, All,
}
use open_source_project.SelectServer.{buf_size}
use open_source_project.SelectServer.Peer.{Session, is_quit}

-- A line that `fgets` reads whole and that does not end the client.
abbrev pub IsLine : Bytes → Type 0
IsLine l =
    All (λ c. c ≢ 10) l × NoNul l × (length l < buf_size - 1) × (is_quit (l ++ (10 ∷ [])) ≡ false)

-- The parts in which a socket gives a text.
abbrev pub joined : List Bytes → Bytes
joined [] = []
joined (b ∷ bs) = b ++ joined bs

-- Each `read` gives a byte at least, and as many as it was asked for at most.
abbrev pub IsPart : Bytes → Type 0
IsPart b = (0 < length b) × (length b < buf_size)

-- What a client shows that reads a text in parts from its first round on.
abbrev pub shown : Bytes → Session
shown text = record {
  printed = codes "서버에 연결되었습니다.\n" ++ text;
  sent = [];
  stdin = [];
  goes_on = true;
}
