-- ===== src/Protocol/Moving.antt =====
-- A conversation in which the clients change their rooms: what they do is a list of events, and each event
-- is a whole round of the loop of `handle_clnt` for its client. A client is known by its place in the
-- array, which does not change meanwhile, and each request is read by one `read`.
pub mod Rounds
pub mod Seen
use open_source_project.Prelude.{
  ℕ, ◌≡◌, Bool, Option, none, some, List, [], ◌∷◌, ◌++◌, map, ◌==◌, if◌then◌else◌, get_elem?, set,
  Bytes,
}
use open_source_project.Prelude.Int.{ℤ}
use open_source_project.Prelude.Decimal.{IsInt}
use open_source_project.ChatServer.{Client, Server, store}
use open_source_project.ChatServer.Registry.{◌>>=◌}
use open_source_project.ChatServer.Broadcast.{Delivery, listens, send_msg}
use open_source_project.ChatServer.Session.{
  got, Action, leave, stay, send, Reply, moved, reply_text, on_read,
}
use open_source_project.ChatClient.{Effect, on_send_clicked, on_room_clicked}
use open_source_project.Protocol.Chat.{line_of}
use open_source_project.Protocol.Conversation.{Said, IsSaid, request}

-- What a user does in the chat window.
pub data Act : Type 0 where
  says : Bytes → Act
  enters : ℤ → Act

-- With the place of the client, and what the server's buffer held before.
pub record Event : Type 0 where
  pub who : ℕ
  pub stale : Bytes
  pub act : Act

unfoldable pub effects : Act → Option (List Effect)
effects (says text) = some (on_send_clicked text)
effects (enters room) = on_room_clicked room

-- What the thread of the client `c`, at the address `p`, does with what `on_read` decides.
unfoldable pub after_read : Server → ℕ → Client → Action → Option (Server × List Delivery)
after_read s p c leave = some (s, [])
after_read s p c (stay c' rs) =
    some (record s { heap = store s.heap p (some c') }, map (λ r. (c.sock, reply_text r)) rs)
after_read s p c (send msg len) = send_msg s c msg len >>= λ ds. some (s, ds)

-- A round of its loop for a request: the shared data behind it, and what it writes.
unfoldable pub round : Server → ℕ → Bytes → Bytes → Option (Server × List Delivery)
unfolding after_read
round s i stale req = get_elem? s.clnt_list i >>= λ p.
    s.heap p >>= λ c. on_read c stale (got req) >>= λ a. after_read s p c a

-- The same for what the client's handler writes, if it writes anything.
unfoldable pub answered : Server → ℕ → Bytes → Option Bytes → Option (Server × List Delivery)
unfolding round
answered s i stale none = some (s, [])
answered s i stale (some req) = round s i stale req

unfoldable pub happen : Server → Event → Option (Server × List Delivery)
unfolding effects answered
happen s e = effects e.act >>= λ es. answered s e.who e.stale (request es)

unfoldable pub happen_all : Server → List Event → Option (List Delivery)
unfolding happen
happen_all s [] = some []
happen_all s (e ∷ es) = happen s e >>= λ (t, ds). happen_all t es >>= λ more. some (ds ++ more)

-- The clients behind an event.
abbrev pub enter_room : Option Client → List Client → ℕ → ℤ → List Client
enter_room none cs i room = cs
enter_room (some c) cs i room = set cs i (record c { room = room })

abbrev pub behind : List Client → ℕ → Act → List Client
behind cs i (says text) = cs
behind cs i (enters room) = enter_room (get_elem? cs i) cs i room

-- What the client at place `j` should see of an event: a text, if it is in the room of the one who says it,
-- or that it has moved itself.
abbrev pub hears_text : Option Client → Option Client → Bytes → List Bytes
hears_text (some c) (some d) text = if listens c d then line_of c text ∷ [] else []
hears_text _ _ text = []

abbrev pub sees : List Client → ℕ → ℕ → Act → List Bytes
sees cs j i (says text) = hears_text (get_elem? cs i) (get_elem? cs j) text
sees cs j i (enters room) = if i == j then reply_text (moved room) ∷ [] else []

abbrev pub sees_all : List Client → ℕ → List Event → List Bytes
sees_all cs j [] = []
sees_all cs j (e ∷ es) = sees cs j e.who e.act ++ sees_all (behind cs e.who e.act) j es

-- A client that is there says a text which fits the buffers, or enters a room whose number is an `int`.
abbrev pub IsAct : Client → Bytes → Act → Type 0
IsAct c stale (says text) = IsSaid (record { sender = c; text = text; stale = stale })
IsAct c stale (enters room) = IsInt room

abbrev pub AreEvents : List Client → List Event → Type 0
AreEvents cs [] = Unit
AreEvents cs (e ∷ es) =
    ((c : Client) × (get_elem? cs e.who ≡ some c) × IsAct c e.stale e.act)
    × AreEvents (behind cs e.who e.act) es
