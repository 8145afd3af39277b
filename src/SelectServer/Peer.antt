-- ===== src/SelectServer/Peer.antt =====
-- lab3/6/chat_client.c: the client of the server around `select`. What `select` and `read` give in a
-- round is an argument, and the standard input is a text.
use open_source_project.Prelude.{
  ◌-◌, Bool, true, false, ◌||◌, Option, some, none, List, [], ◌∷◌, ◌++◌, ltb, if◌then◌else◌, length,
  Bytes, codes, str_eq, cstr,
}
use open_source_project.Prelude.Strings.{fgets}
use open_source_project.ChatServer.Registry.{◌>>=◌}
use open_source_project.SelectServer.{buf_size}

-- The socket in a round: not ready, a `read` that failed, or the bytes of a `read`, which are none at the
-- end of the connection.
pub data FromServer : Type 0 where
  quiet : FromServer
  failed : FromServer
  bytes : Bytes → FromServer

-- What rounds printed and wrote to the socket, what is left of the standard input, and whether the loop
-- goes on.
pub record Session : Type 0 where
  pub printed : Bytes
  pub sent : Bytes
  pub stdin : Bytes
  pub goes_on : Bool

-- `"\033[1A\033[2K"` and `"[Me] > %s"`
abbrev pub own_line : Bytes → Bytes
own_line text = 27 ∷ (codes "[1A" ++ (27 ∷ (codes "[2K" ++ (codes "[Me] > " ++ text))))

abbrev pub is_quit : Bytes → Bool
is_quit text = str_eq text (codes "q\n") || str_eq text (codes "Q\n")

-- The second `if`, behind what the round has printed. At the end of the input `fgets` gives NULL, and the
-- loop goes on.
unfoldable pub from_keyboard : Bool → Bytes → Bytes → Session
unfolding fgets cstr
from_keyboard false printed stdin = record {
  printed = printed;
  sent = [];
  stdin = stdin;
  goes_on = true;
}
from_keyboard true printed [] = record { printed = printed; sent = []; stdin = []; goes_on = true }
from_keyboard true printed (c ∷ stdin) =
    let (line, rest) = fgets (buf_size - 1) (c ∷ stdin) in
    if is_quit (cstr line)
    then record { printed = printed; sent = []; stdin = rest; goes_on = false }
    else record {
      printed = printed ++ own_line (cstr line);
      sent = cstr line;
      stdin = rest;
      goes_on = true;
    }

-- The body of the loop. `buf[str_len] = 0` is out of bounds if `read` fails, and would be if it filled
-- the buffer, of which it gets one byte less.
unfoldable pub client_round : FromServer → Bool → Bytes → Option Session
unfolding from_keyboard cstr
client_round quiet key stdin = some (from_keyboard key [] stdin)
client_round failed key stdin = none
client_round (bytes []) key stdin =
    some (record { printed = []; sent = []; stdin = stdin; goes_on = false })
client_round (bytes (c ∷ b)) key stdin =
    if ltb (length (c ∷ b)) buf_size then some (from_keyboard key (cstr (c ∷ b)) stdin) else none

-- The session of a round and then of the later ones.
abbrev pub after : Session → Option Session → Option Session
after r more =
    if r.goes_on
    then (more >>= λ r'.
        some (record r' { printed = r.printed ++ r'.printed; sent = r.sent ++ r'.sent }))
    else some r

-- The loop, over what the rounds are given.
unfoldable pub client_loop : List (FromServer × Bool) → Bytes → Option Session
unfolding client_round
client_loop [] stdin = some (record { printed = []; sent = []; stdin = stdin; goes_on = true })
client_loop (k ∷ ks) stdin = client_round k.0 k.1 stdin >>= λ r. after r (client_loop ks r.stdin)

-- `main` behind its argument test; without a connection it ends with `exit(1)`.
unfoldable pub chat_client : Bool → List (FromServer × Bool) → Bytes → Option Session
unfolding client_loop
chat_client false ks stdin =
    some (record { printed = []; sent = []; stdin = stdin; goes_on = false })
chat_client true ks stdin =
    client_loop ks stdin >>= λ r. some (record r { printed = codes "서버에 연결되었습니다.\n" ++ r.printed })
