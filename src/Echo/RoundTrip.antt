-- ===== src/Echo/RoundTrip.antt =====
-- lab3/5: what the echo clients print and the echo servers send.
use open_source_project.Prelude.{
  ℕ, suc, ◌-◌, ◌<◌, ◌≡◌, inl, inr, refl, true, false, Option, none, some, List, [], ◌∷◌, ◌++◌, map,
  arith, ltb, ◌==◌, if◌then◌else◌, Bool-cases, length, replicate, All, Bytes, NoNul,
}
use open_source_project.Echo.{
  buffer_size, received, text_of, Round, sent, send_back, Tcp, Udp, tcp_round, udp_round, serve,
  tcp_server, udp_server, printed, copy_in, exchange, tcp_client, udp_client,
}

text_of-append : (s t : Bytes) → NoNul s → text_of (s ++ (0 ∷ t)) ≡ some s
unfolding text_of
text_of-append [] t h = refl
text_of-append (c ∷ s) t (ne, h) =
    let z : (c == 0) ≡ false = ground arith in rw (z, text_of-append s t h)

-- A short text is in the buffer with a NUL behind it.
text_of-received : (s : Bytes) → NoNul s → length s < buffer_size → text_of (received s) ≡ some s
text_of-received s h lt =
    let e : buffer_size - length s ≡ suc (buffer_size - length s - 1) = omega arith in
    rw e (text_of-append s (replicate (buffer_size - length s - 1) 0) h)

-- A server on a network that takes what it sends.
abbrev pub heard_tcp : Bytes → Tcp
heard_tcp m = record { accepted = true; got = some m; send = λ t. true }

abbrev pub heard_udp : Bytes → Udp
heard_udp m = record { got = some m; send = λ t. true }

-- A text without NUL that leaves room for one.
abbrev pub Fits : Bytes → Type 0
Fits m = NoNul m × (length m < buffer_size)

send_back_lem : (m : Bytes) → Fits m → send_back (λ t. true) m ≡ some (sent m)
unfolding send_back
send_back_lem m (h, lt) = rw (text_of-received m h lt)

serve-map :
    {A : Type 0} (heard : Bytes → A) (round : A → Option Round)
    → ((m : Bytes) → Fits m → round (heard m) ≡ some (sent m))
    → (ms : List Bytes) → All Fits ms
    → serve round (map heard ms) ≡ some (record { replies = ms; running = true })
unfolding serve
serve-map heard round one [] h = refl
serve-map heard round one (m ∷ ms) (hm, h) = rw (one m hm, serve-map heard round one ms h)

-- Both servers send every message of less than 100 bytes back, in order, and go on.
pub servers_lem :
    (ms : List Bytes)
    → All Fits ms
    → (tcp_server true true true (map heard_tcp ms)
        ≡ some (record { replies = ms; running = true }))
      × (udp_server true true (map heard_udp ms) ≡ some (record { replies = ms; running = true }))
unfolding tcp_server udp_server
servers_lem ms h =
    (serve-map heard_tcp tcp_round tcp_one ms h, serve-map heard_udp udp_round udp_one ms h)
  where
    tcp_one : (m : Bytes) → Fits m → tcp_round (heard_tcp m) ≡ some (sent m)
    tcp_one m hm = send_back_lem m hm

    udp_one : (m : Bytes) → Fits m → udp_round (heard_udp m) ≡ some (sent m)
    udp_one m hm = send_back_lem m hm

-- What a server's round leaves for the client to receive.
abbrev pub reply_of : Option Round → Option Bytes
reply_of (some (sent t)) = some t
reply_of _ = none

-- A send that takes the whole text.
abbrev pub takes_all : Bytes → Option ℕ
takes_all t = some (length t)

exchange-reply_of :
    (text : Bytes) (r : Option Round)
    → NoNul text
    → (Fits text → r ≡ some (sent text))
    → exchange text takes_all (reply_of r)
      ≡ (if ltb (length text) buffer_size then some (printed text) else none)
unfolding exchange copy_in
exchange-reply_of text r h e = elim (Bool-cases (ltb (length text) buffer_size)) [
  | inr long ↦ rw long refl
  | inl short ↦
      (let lt : length text < buffer_size = ground arith in
        let all : (length text == length text) ≡ true = ground arith in
        rw (e (h, lt), short, all, text_of-received text h lt) refl)
]

-- A client that sends a text of a byte at least to its server prints that text, over TCP and over UDP,
-- if it has less than 100 bytes; a longer one overflows the client's buffer.
pub echo_lem :
    (ip text : Bytes)
    → NoNul text
    → 0 < length text
    → (tcp_client (ip ∷ text ∷ []) true true takes_all (reply_of (tcp_round (heard_tcp text)))
        ≡ (if ltb (length text) buffer_size then some (printed text) else none))
      × (udp_client (ip ∷ text ∷ []) true takes_all (reply_of (udp_round (heard_udp text)))
          ≡ (if ltb (length text) buffer_size then some (printed text) else none))
unfolding tcp_client udp_client tcp_round udp_round
echo_lem ip text h some_byte = (
  exchange-reply_of text (tcp_round (heard_tcp text)) h (send_back_lem text),
  exchange-reply_of text (udp_round (heard_udp text)) h (send_back_lem text),
)
