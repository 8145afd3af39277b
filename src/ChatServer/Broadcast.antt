-- ===== src/ChatServer/Broadcast.antt =====
-- project2/gui_server.c, `send_msg`: who receives a message, and which bytes.
use open_source_project.Prelude.{
  ℕ, zero, suc, ◌+◌, ◌≤◌, ◌<◌, ◌≡◌, ◌≢◌, ◌↔◌, inl, inr, refl, ap, ◌∙◌, Bool, true, false,
  Bool-cases, NoNul, cstr-append_nul, ◌&&◌, Option, none, some, List, [], ◌∷◌, ◌++◌, map, arith,
  ltb, if◌then◌else◌, length, take, length-append, keep, Bytes, codes, starts_with, cstr,
}
use open_source_project.Prelude.Int.{int_eq, int_eq_iff}
use open_source_project.ChatServer.{Client, Server, buf_size}
use open_source_project.ChatServer.Registry.{client_at, ◌>>=◌}
use open_source_project.ChatServer.Registry.Live.{LiveFrom, Holds}

-- One call of `write`: the socket and the bytes.
abbrev pub Delivery : Type 0
Delivery = ℕ × Bytes

-- `sprintf(final_msg, "[%s] %s", sender->name, msg)` into BUF_SIZE + 30 bytes with the NUL.
unfoldable pub final_msg : Bytes → Bytes → Option Bytes
final_msg name text =
    let m = codes "[" ++ (name ++ (codes "] " ++ text)) in
    if ltb (length m) (buf_size + 30) then some m else none

-- The test of the loop.
unfoldable pub hears : Client → Client → Bool
hears sender c = ltb 0 (length c.name) && int_eq c.room sender.room

-- What one client is sent: `msg` is the buffer, and `len` the count of bytes read into it.
unfoldable pub payload : Client → Bytes → ℕ → Option Bytes
payload sender msg len =
    if starts_with (cstr msg) (codes "[FILE]")
    then some (take len msg)
    else final_msg sender.name (cstr msg)

-- The loop from index `i`, with `n` rounds left.
unfoldable pub send_from : Server → Client → Bytes → ℕ → ℕ → ℕ → Option (List Delivery)
unfolding hears
send_from s sender msg len zero i = some []
send_from s sender msg len (suc n) i =
    let rest = send_from s sender msg len n (i + 1) in
    client_at s.heap s.clnt_list i >>= λ c.
    if hears sender c
    then (payload sender msg len >>= λ m. rest >>= λ ds. some ((c.sock, m) ∷ ds))
    else rest

unfoldable pub send_msg : Server → Client → Bytes → ℕ → Option (List Delivery)
send_msg s sender msg len = send_from s sender msg len s.clnt_cnt 0

-- Who should hear the sender: a client that has a name and is in the sender's room.
abbrev pub has_name : Bytes → Bool
has_name [] = false
has_name (b ∷ bs) = true

abbrev pub listens : Client → Client → Bool
listens sender c = has_name c.name && int_eq c.room sender.room

listens_iff :
    (sender c : Client) → (listens sender c ≡ true) ↔ ((c.name ≢ []) × (c.room ≡ sender.room))
listens_iff sender c = at_name c.name
  where
    at_name :
        (name : Bytes)
        → ((has_name name && int_eq c.room sender.room) ≡ true)
          ↔ ((name ≢ []) × (c.room ≡ sender.room))
    at_name [] = (λ h. cc, λ h. absurd (h.0 refl))
    at_name (b ∷ bs) =
        (λ h. (cc, (int_eq_iff c.room sender.room).0 h), λ h. (int_eq_iff c.room sender.room).1 h.1)

hears_lem : (sender c : Client) → hears sender c ≡ listens sender c
unfolding hears
hears_lem sender c = at_name c.name
  where
    at_name :
        (name : Bytes)
        → ltb 0 (length name) && int_eq c.room sender.room
          ≡ (has_name name && int_eq c.room sender.room)
    at_name [] = refl
    at_name (b ∷ bs) = ground arith

-- What listeners get, as a text.
abbrev pub spoken : Client → Bytes → ℕ → Bytes
spoken sender msg len =
    if starts_with (cstr msg) (codes "[FILE]")
    then take len msg
    else codes "[" ++ (sender.name ++ (codes "] " ++ cstr msg))

payload_fits :
    (sender : Client) (msg : Bytes) (len : ℕ)
    → length sender.name < 20
    → length (cstr msg) ≤ buf_size
    → payload sender msg len ≡ some (spoken sender msg len)
unfolding payload final_msg
payload_fits sender msg len short fits =
    ground (arith, length-append {0} (sender.name) (codes "] " ++ cstr msg))

send_from_lem :
    (s : Server) (sender : Client) (msg m : Bytes) (len : ℕ) (cs : List Client) (i : ℕ)
    → payload sender msg len ≡ some m
    → LiveFrom s.heap s.clnt_list i cs
    → send_from s sender msg len (length cs) i
      ≡ some (map (λ c. (c.sock, m)) (keep (listens sender) cs))
unfolding send_from
send_from_lem s sender msg m len [] i e l = refl
send_from_lem s sender msg m len (c ∷ cs) i e (l, ls) =
    rw (l, e, send_from_lem s sender msg m len cs (i + 1) e ls, hears_lem sender c) (ground arith)

-- The same for any buffer.
pub send_msg_lem :
    (s : Server) (cs : List Client) (sender : Client) (msg : Bytes) (len : ℕ)
    → Holds s cs
    → length sender.name < 20
    → length (cstr msg) ≤ buf_size
    → send_msg s sender msg len
      ≡ some (map (λ c. (c.sock, spoken sender msg len)) (keep (listens sender) cs))
unfolding send_msg
send_msg_lem s cs sender msg len v short fits = simp (← v.count) (
    send_from_lem s sender msg (spoken sender msg len) len cs 0
      (payload_fits sender msg len short fits) v.live)

pub take_prefix {ℓ} : {A : Type ℓ} (xs ys : List A) → take (length xs) (xs ++ ys) ≡ xs
take_prefix [] ys = refl
take_prefix (x ∷ xs) ys = ap (λ t. x ∷ t) (take_prefix xs ys)

-- What others get of a text: an announcement as it is, and else the text behind the sender's name.
abbrev pub as_heard : Bool → Bytes → Bytes → Bytes
as_heard true name text = text
as_heard false name text = codes "[" ++ (name ++ (codes "] " ++ text))

-- A text that was read, with no NUL and at most BUF_SIZE bytes, of a sender whose name has fewer than 20
-- bytes, goes once to each registered client that has a name and is in the sender's room, the sender
-- included, in the order of the array, and to no other: a text that begins with [FILE] as it is, any
-- other one behind the sender's name in brackets. No buffer overflows.
pub send_msg-text :
    (s : Server) (cs : List Client) (sender : Client) (text stale : Bytes)
    → Holds s cs
    → length sender.name < 20
    → NoNul text
    → length text ≤ buf_size
    → (send_msg s sender (text ++ (0 ∷ stale)) (length text)
        ≡ some (
            map
              (λ c. (c.sock, as_heard (starts_with text (codes "[FILE]")) sender.name text))
              (keep (listens sender) cs)))
      × ((c : Client) → (listens sender c ≡ true) ↔ ((c.name ≢ []) × (c.room ≡ sender.room)))
send_msg-text s cs sender text stale v short clean fits =
    let e = cstr-append_nul text stale clean in
    (
      send_msg_lem s cs sender (text ++ (0 ∷ stale)) (length text) v short (rw e fits)
          ∙ ap (λ t. some (map (λ c. (c.sock, t)) (keep (listens sender) cs))) heard,
      listens_iff sender,
    )
  where
    heard :
        spoken sender (text ++ (0 ∷ stale)) (length text)
        ≡ as_heard (starts_with text (codes "[FILE]")) sender.name text
    heard =
        rw (cstr-append_nul text stale clean)
          (elim (Bool-cases (starts_with text (codes "[FILE]"))) [
            | inl y ↦ rw y (take_prefix text (0 ∷ stale))
            | inr n ↦ rw n refl
          ])

dangling_from :
    (s : Server) (sender : Client) (msg m : Bytes) (len : ℕ) (before : List Client) (n i : ℕ)
    → payload sender msg len ≡ some m
    → LiveFrom s.heap s.clnt_list i before
    → client_at s.heap s.clnt_list (i + length before) ≡ none
    → length before < n
    → send_from s sender msg len n i ≡ none
unfolding send_from
dangling_from s sender msg m len before zero i e l d lt = absurd (omega arith)
dangling_from s sender msg m len [] (suc n) i e l d lt =
    let z : i + 0 ≡ i = omega arith in let d' = rw z at d in rw d'
dangling_from s sender msg m len (c ∷ cs) (suc n) i e (l, ls) d lt =
    let z : i + suc (length cs) ≡ i + 1 + length cs = omega arith in
    rw (l, e, dangling_from s sender msg m len cs n (i + 1) e ls (rw z at d) (omega arith))
      (ground arith)

-- While an entry in use points to freed memory, every message reads it: the behaviour is undefined.
pub send_msg_dangling :
    (s : Server) (sender : Client) (msg : Bytes) (len : ℕ) (before : List Client)
    → LiveFrom s.heap s.clnt_list 0 before
    → client_at s.heap s.clnt_list (length before) ≡ none
    → length before < s.clnt_cnt
    → length sender.name < 20
    → length (cstr msg) ≤ buf_size
    → send_msg s sender msg len ≡ none
unfolding send_msg
send_msg_dangling s sender msg len before l d lt short fits =
    let z : 0 + length before ≡ length before = omega arith in
    dangling_from s sender msg (spoken sender msg len) len before s.clnt_cnt 0
      (payload_fits sender msg len short fits) l (rw z d) lt
