-- ===== src/Echo.antt =====
-- lab3/5: the echo servers and clients over TCP and UDP. What the socket calls give is an argument; a
-- buffer has 100 bytes.
mod Tests
pub mod RoundTrip
use open_source_project.Prelude.{
  ℕ, zero, suc, ◌+◌, ◌-◌, ◌*◌, ◌/◌, ◌%◌, ◌^◌, ◌≤◌, ◌<◌, ◌≡◌, ◌≢◌, ◌↔◌, ◌⊎◌, inl, inr, refl, sym, ap,
  ◌∙◌, Bool, true, false, ◌&&◌, ◌||◌, not, Option, none, some, List, [], ◌∷◌, ◌++◌, map,
  append_assoc, append-nil, arith, dec_lt, ℕ_discrete, ltb, leb, ◌==◌, ==_iff, if◌then◌else◌,
  Bool-cases, Option-cases, length, get_elem?, get_or, set, take, drop, replicate, length-append,
  length-set, get_or-set_self, get_or-set_ne, get_elem?-set_self, get_elem?-set_ne, keep, words,
  words_from, is_space, IsWord, words-append_blank, words_last, All, All-append, Bytes, codes,
  str_eq, str_eq_iff, str_eq_sound, str_eq_refl, starts_with, cstr, NoNul, cstr-append_nul,
  cstr_of_NoNul,
}
use open_source_project.ChatServer.Registry.{◌>>=◌}

-- `MAXBUF` and `MAXDATASIZE`
abbrev pub buffer_size : ℕ
buffer_size = 100

-- The buffer after `memset` and a call that stored `got` at its front.
abbrev pub received : Bytes → Bytes
received got = got ++ replicate (buffer_size - length got) 0

-- The text up to the first NUL of an array; with no NUL in it `strlen` and %s read past the array.
unfoldable pub text_of : Bytes → Option Bytes
text_of [] = none
text_of (c ∷ buf) =
    let rest = text_of buf in if c == 0 then some [] else (rest >>= λ t. some (c ∷ t))

-- One round of a server: the connection was not accepted, the server ends with `exit(0)`, or it has
-- sent a text back.
pub data Round : Type 0 where
  refused : Round
  exits : Round
  sent : Bytes → Round

-- `send` and `sendto`: -1 or not.
unfoldable pub send_back : (Bytes → Bool) → Bytes → Option Round
unfolding text_of
send_back send got =
    text_of (received got) >>= λ text. some (if send text then sent text else exits)

-- What the calls of a round give: `accept`, the bytes of `recv`, and whether `send` succeeds.
pub record Tcp : Type 0 where
  pub accepted : Bool
  pub got : Option Bytes
  pub send : Bytes → Bool

-- The same for `recvfrom` and `sendto`.
pub record Udp : Type 0 where
  pub got : Option Bytes
  pub send : Bytes → Bool

-- The body of the loop of tcp_server.c.
unfoldable pub tcp_round : Tcp → Option Round
unfolding send_back
tcp_round k =
    if k.accepted
    then elim k.got [ none ↦ some exits | some b ↦ send_back k.send b ]
    else some refused

-- The body of the loop of udp_server.c.
unfoldable pub udp_round : Udp → Option Round
unfolding send_back
udp_round k = elim k.got [ none ↦ some exits | some b ↦ send_back k.send b ]

-- A server's run over the calls of its rounds: the texts it sent, and whether it still runs.
pub record Served : Type 0 where
  pub replies : List Bytes
  pub running : Bool

-- Behind a round.
abbrev pub after_round : Round → Option Served → Option Served
after_round refused more = more
after_round exits more = some (record { replies = []; running = false })
after_round (sent t) more = more >>= λ r. some (record r { replies = t ∷ r.replies })

unfoldable pub serve {ℓ} : {A : Type ℓ} → (A → Option Round) → List A → Option Served
serve round [] = some (record { replies = []; running = true })
serve round (k ∷ ks) = round k >>= λ r. after_round r (serve round ks)

-- `main`: with a failed call before the loop the program ends with `exit(1)`.
unfoldable pub tcp_server : Bool → Bool → Bool → List Tcp → Option Served
unfolding serve tcp_round
tcp_server socket bind listen ks =
    if socket && (bind && listen)
    then serve tcp_round ks
    else some (record { replies = []; running = false })

unfoldable pub udp_server : Bool → Bool → List Udp → Option Served
unfolding serve udp_round
udp_server socket bind ks =
    if socket && bind then serve udp_round ks else some (record { replies = []; running = false })

-- A client ends with `exit(1)`, or prints what it received.
pub data Client : Type 0 where
  failed : Client
  printed : Bytes → Client

-- `strcpy(buf, argv[2])`, which overflows at 100 bytes.
unfoldable pub copy_in : Bytes → Option Bytes
copy_in text = if ltb (length text) buffer_size then some text else none

-- From `send` to `printf`: `send` gives the number of bytes that it took, none for -1.
unfoldable pub exchange : Bytes → (Bytes → Option ℕ) → Option Bytes → Option Client
unfolding copy_in text_of
exchange text send reply = copy_in text >>= λ buf. elim (send buf) [
  | none ↦ some failed
  | some n ↦
      if n == length buf
      then (elim reply [
        | none ↦ some failed
        | some b ↦ text_of (received b) >>= λ t. some (printed t)
      ])
      else some failed
]

-- `args` are the arguments behind the program's name.
unfoldable pub tcp_client :
    List Bytes → Bool → Bool → (Bytes → Option ℕ) → Option Bytes → Option Client
unfolding exchange
tcp_client (ip ∷ text ∷ []) socket connect send reply =
    if socket && connect then exchange text send reply else some failed
tcp_client args socket connect send reply = some failed

unfoldable pub udp_client : List Bytes → Bool → (Bytes → Option ℕ) → Option Bytes → Option Client
unfolding exchange
udp_client (ip ∷ text ∷ []) socket send reply =
    if socket then exchange text send reply else some failed
udp_client args socket send reply = some failed
