-- ===== src/Protocol/Conversation.antt =====
-- A conversation: the texts of several users on their way through the server into a window. While it
-- lasts the clients keep their rooms, and each client reads a line of the server with one `read`.
pub mod Shown
use mathlib.Core.Path.{subst}
use open_source_project.Prelude.{
  ℕ, zero, suc, ◌+◌, ◌≤◌, ◌<◌, ◌≡◌, ◌≢◌, ◌⊎◌, inl, inr, refl, sym, ap, ◌∙◌, Bool, true, false,
  Option, none, some, List, [], ◌∷◌, ◌++◌, map, append_assoc, append-nil, arith, ltb, ◌==◌,
  if◌then◌else◌, Bool-cases, length, length-append, keep, All, All-append, Bytes, codes,
  starts_with, cstr, NoNul, cstr_of_NoNul, cstr-append_nul,
}
use open_source_project.ChatServer.{Client, Server, buf_size}
use open_source_project.ChatServer.Registry.{◌>>=◌}
use open_source_project.ChatServer.Registry.Live.{Holds, Apart, Absent}
use open_source_project.ChatServer.Broadcast.{Delivery, listens, send_msg, spoken, send_msg_lem}
use open_source_project.ChatServer.Session.{Read, got, Action, leave, stay, send, on_read}
use open_source_project.ChatClient.{
  Effect, sent, update, on_send_clicked, on_message, update_ui, answer_text,
}
use open_source_project.ChatClient.Windows.{recv_msg}
use open_source_project.Commands.Text.Lines.{unlines}
use open_source_project.Protocol.Chat.{
  IsText, line_of, is_file_name, on_read-text, spoken-text, on_message-line,
}

-- What somebody says, with what the server's buffer held before.
pub record Said : Type 0 where
  pub sender : Client
  pub text : Bytes
  pub stale : Bytes

abbrev pub line : Said → Bytes
line m = line_of m.sender m.text

-- A text that fits with the sender's name into one `read` of the other clients, from a user whose name
-- is not taken for the mark of a file.
pub record IsSaid (m : Said) : Type 0 where
  pub is_text : IsText m.text
  pub short : length m.sender.name < 20
  pub clean : NoNul m.sender.name
  pub no_file : is_file_name m.sender ≡ false
  pub whole : length (line m) < buf_size

-- What the client's handler writes to its socket.
abbrev pub request : List Effect → Option Bytes
request [] = none
request (sent t ∷ es) = some t
request (e ∷ es) = request es

-- What the server writes for it.
unfoldable pub serve : Server → Said → Option Bytes → Option (List Delivery)
serve s m none = some []
serve s m (some t) = on_read m.sender m.stale (got t) >>= λ a. elim a [
  | leave ↦ some []
  | stay c rs ↦ some []
  | send msg len ↦ send_msg s m.sender msg len
]

-- The same for a text that is typed.
unfoldable pub relay : Server → Said → Option (List Delivery)
unfolding serve
relay s m = serve s m (request (on_send_clicked m.text))

unfoldable pub relay_all : Server → List Said → Option (List Delivery)
unfolding relay
relay_all s [] = some []
relay_all s (m ∷ ms) = relay s m >>= λ ds. relay_all s ms >>= λ more. some (ds ++ more)

-- What comes out of a socket.
abbrev pub sent_to : ℕ → List Delivery → List Bytes
sent_to fd [] = []
sent_to fd ((s, b) ∷ ds) = if s == fd then b ∷ sent_to fd ds else sent_to fd ds

-- The text of the window behind the effects of the client.
abbrev pub window : List Effect → Bytes → Bytes
window [] w = w
window (update b ∷ es) w = window es (update_ui w b)
window (e ∷ es) w = window es w

abbrev pub IsIn : Client → List Client → Type 0
IsIn d [] = ⊥
IsIn d (c ∷ cs) = (c ≡ d) ⊎ IsIn d cs

pub request-on_send_clicked : (t : Bytes) → 0 < length t → request (on_send_clicked t) ≡ some t
unfolding on_send_clicked
request-on_send_clicked t lt = let z : (length t == 0) ≡ false = ground arith in rw z refl

pub serve_lem :
    (s : Server) (cs : List Client) (m : Said)
    → Holds s cs
    → IsSaid m
    → serve s m (some m.text) ≡ some (map (λ c. (c.sock, line m)) (keep (listens m.sender) cs))
unfolding serve
serve_lem s cs m holds v = rw (on_read-text m.sender m.stale m.text v.is_text) (
    rw (spoken-text m.sender m.stale m.text v.is_text) at (
      send_msg_lem s cs m.sender (m.text ++ (0 ∷ m.stale)) (length m.text) holds v.short
        (rw (cstr-append_nul m.text m.stale v.is_text.no_nul) (omega (arith, v.is_text.fits)))))

pub relay_lem :
    (s : Server) (cs : List Client) (m : Said)
    → Holds s cs
    → IsSaid m
    → relay s m ≡ some (map (λ c. (c.sock, line m)) (keep (listens m.sender) cs))
unfolding relay
relay_lem s cs m holds v =
    ap (serve s m) (request-on_send_clicked m.text v.is_text.some_byte) ∙ serve_lem s cs m holds v

pub sent_to-append :
    (fd : ℕ) (a b : List Delivery) → sent_to fd (a ++ b) ≡ sent_to fd a ++ sent_to fd b
sent_to-append fd [] b = refl
sent_to-append fd ((s, x) ∷ a) b = ground (arith, sent_to-append fd a b)

sent_to-Absent :
    (fd : ℕ) (l : Bytes) (p : Client → Bool) (cs : List Client)
    → Absent fd cs
    → sent_to fd (map (λ c. (c.sock, l)) (keep p cs)) ≡ []
sent_to-Absent fd l p [] h = refl
sent_to-Absent fd l p (c ∷ cs) (ne, h) =
    let z : (c.sock == fd) ≡ false = ground arith in
    elim (Bool-cases (p c)) [
      | inl e ↦ rw (e, z) (sent_to-Absent fd l p cs h)
      | inr e ↦ rw e (sent_to-Absent fd l p cs h)
    ]

IsIn-Absent : (fd : ℕ) (d : Client) (cs : List Client) → Absent fd cs → IsIn d cs → d.sock ≢ fd
IsIn-Absent fd d [] away h = absurd h
IsIn-Absent fd d (c ∷ cs) (ne, away) (inl e) = λ f. ne (ap (λ x. x.sock) e ∙ f)
IsIn-Absent fd d (c ∷ cs) (ne, away) (inr h) = IsIn-Absent fd d cs away h

sent_to_first :
    (l : Bytes) (p : Client → Bool) (cs : List Client) (c : Client)
    → Absent c.sock cs
    → sent_to c.sock (map (λ x. (x.sock, l)) (keep p (c ∷ cs))) ≡ (if p c then l ∷ [] else [])
sent_to_first l p cs c away =
    let z : (c.sock == c.sock) ≡ true = ground arith in
    let none_else = sent_to-Absent c.sock l p cs away in
    elim (Bool-cases (p c)) [ inl e ↦ rw (e, z, none_else) refl | inr e ↦ rw (e, none_else) refl ]

pub sent_to-IsIn :
    (l : Bytes) (p : Client → Bool) (cs : List Client) (d : Client)
    → Apart cs
    → IsIn d cs
    → sent_to d.sock (map (λ c. (c.sock, l)) (keep p cs)) ≡ (if p d then l ∷ [] else [])
sent_to-IsIn l p [] d apart h = absurd h
sent_to-IsIn l p (c ∷ cs) d (away, apart) (inl e) =
    subst
      (λ x.
        sent_to x.sock (map (λ y. (y.sock, l)) (keep p (c ∷ cs))) ≡ (if p x then l ∷ [] else []))
      e (sent_to_first l p cs c away)
sent_to-IsIn l p (c ∷ cs) d (away, apart) (inr h) =
    let ne = IsIn-Absent c.sock d cs away h in
    let z : (c.sock == d.sock) ≡ false = ground arith in
    elim (Bool-cases (p c)) [
      | inl e ↦ rw (e, z) (sent_to-IsIn l p cs d apart h)
      | inr e ↦ rw e (sent_to-IsIn l p cs d apart h)
    ]

-- The lines that a client is sent in a conversation.
abbrev pub heard : Client → List Said → List Bytes
heard d ms = map line (keep (λ m. listens m.sender d) ms)

heard_next :
    (d : Client) (m : Said) (ms : List Said)
    → (if listens m.sender d then line m ∷ [] else []) ++ heard d ms ≡ heard d (m ∷ ms)
heard_next d m ms = elim (Bool-cases (listens m.sender d)) [ inl e ↦ rw e refl | inr e ↦ rw e refl ]

pub sent_to-relay_all :
    (s : Server) (cs : List Client) (d : Client) (ms : List Said)
    → Holds s cs
    → IsIn d cs
    → All IsSaid ms
    → (out : List Delivery) × (relay_all s ms ≡ some out) × (sent_to d.sock out ≡ heard d ms)
unfolding relay_all
sent_to-relay_all s cs d [] holds h v = ([], refl, refl)
sent_to-relay_all s cs d (m ∷ ms) holds h (vm, v) =
    let (out, e, f) = sent_to-relay_all s cs d ms holds h v in
    let now = map (λ c. (c.sock, line m)) (keep (listens m.sender) cs) in
    (
      now ++ out,
      rw (relay_lem s cs m holds vm, e) refl,
      sent_to-append d.sock now out
          ∙ rw (sent_to-IsIn (line m) (listens m.sender) cs d holds.apart h, f) (heard_next d m ms),
    )
