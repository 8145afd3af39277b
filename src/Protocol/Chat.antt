-- ===== src/Protocol/Chat.antt =====
-- A text on its way from one client's entry through the server to the windows of the others.
use open_source_project.Prelude.{
  ℕ, ◌<◌, ◌≡◌, refl, ◌∙◌, true, false, Bool, some, List, [], ◌∷◌, ◌++◌, map, arith, ltb, ◌==◌,
  length, keep, words, words_from, is_space, Bytes, codes, starts_with, NoNul, cstr-append_nul,
}
use open_source_project.ChatServer.{Client, Server, buf_size}
use open_source_project.ChatServer.Registry.Live.{Holds}
use open_source_project.ChatServer.Broadcast.{listens, send_msg, spoken, send_msg_lem}
use open_source_project.ChatServer.Session.{got, send, on_read}
use open_source_project.ChatClient.{
  sent, empty_entry, update, save_file, on_send_clicked, on_message, update_ui, file_name,
}

-- What a text of `c` looks like to the others.
abbrev pub line_of : Client → Bytes → Bytes
line_of c text = codes "[" ++ (c.name ++ (codes "] " ++ text))

-- A text that the server passes on as a text: not empty, read whole by one `read`, and neither a command
-- nor a file.
pub record IsText (text : Bytes) : Type 0 where
  pub some_byte : 0 < length text
  pub fits : length text < buf_size
  pub no_nul : NoNul text
  pub no_command : starts_with text (codes "/") ≡ false
  pub no_file : starts_with text (codes "[FILE]") ≡ false

pub on_read-text :
    (c : Client) (stale text : Bytes)
    → IsText text
    → on_read c stale (got text) ≡ some (send (text ++ (0 ∷ stale)) (length text))
unfolding on_read starts_with
on_read-text c stale [] v = absurd (omega (arith, v.some_byte))
on_read-text c stale (b ∷ bs) v =
    let fits : ltb (length (b ∷ bs)) buf_size ≡ true = ground (arith, v.fits) in
    let slash : (b == b'/') ≡ false = ground (arith, v.no_command) in rw (fits, slash) refl

pub spoken-text :
    (c : Client) (stale text : Bytes)
    → IsText text
    → spoken c (text ++ (0 ∷ stale)) (length text) ≡ line_of c text
spoken-text c stale text v = rw (cstr-append_nul text stale v.no_nul, v.no_file) refl

-- Whether a line begins with [FILE] is decided by the name of its sender.
file_prefix :
    (name rest : Bytes)
    → starts_with (name ++ (b']' ∷ rest)) (codes "FILE]")
      ≡ starts_with (name ++ (b']' ∷ [])) (codes "FILE]")
unfolding starts_with
file_prefix [] rest = refl
file_prefix (a ∷ []) rest = refl
file_prefix (a ∷ b ∷ []) rest = refl
file_prefix (a ∷ b ∷ c ∷ []) rest = refl
file_prefix (a ∷ b ∷ c ∷ d ∷ []) rest = refl
file_prefix (a ∷ b ∷ c ∷ d ∷ e ∷ name) rest = refl

-- The client takes each line of this user for the announcement of a file.
abbrev pub is_file_name : Client → Bool
is_file_name c = starts_with (c.name ++ (b']' ∷ [])) (codes "FILE]")

pub on_message-line :
    (c : Client) (text : Bytes) (opened : Bool)
    → is_file_name c ≡ false
    → on_message (line_of c text) opened ≡ some (update (line_of c text) ∷ [])
unfolding on_message starts_with
on_message-line c text opened e = let e' = file_prefix c.name (32 ∷ text) ∙ e in rw e' refl

module _ (s : Server) (cs : List Client) (c : Client) (stale text : Bytes) (holds : Holds s cs)
    (short : length c.name < 20) (is_text : IsText text) where
  -- A text that a client sends goes, behind the sender's name, to exactly the named clients in the
  -- sender's room, once each and in the order of the array, the sender included; and a client that reads
  -- it whole appends it to its window, if the sender's name is not FILE and does not begin with FILE].
  pub text_shown :
      (opened : Bool) (window : Bytes)
      → is_file_name c ≡ false
      → (msg : Bytes) × (len : ℕ) × (on_send_clicked text ≡ sent text ∷ empty_entry ∷ [])
        × (on_read c stale (got text) ≡ some (send msg len))
        × (send_msg s c msg len ≡ some (map (λ d. (d.sock, line_of c text)) (keep (listens c) cs)))
        × (on_message (line_of c text) opened ≡ some (update (line_of c text) ∷ []))
        × (update_ui window (line_of c text) ≡ window ++ (line_of c text ++ (10 ∷ [])))
  unfolding on_send_clicked update_ui
  text_shown opened window e = (
    text ++ (0 ∷ stale),
    length text,
    (let z : (length text == 0) ≡ false = ground (arith, is_text.some_byte) in rw z refl),
    on_read-text c stale text is_text,
    rw (spoken-text c stale text is_text) at (
        send_msg_lem s cs c (text ++ (0 ∷ stale)) (length text) holds short
          (rw (cstr-append_nul text stale is_text.no_nul) (omega (arith, is_text.fits)))),
    on_message-line c text opened e,
    refl,
  )

pub file_name_lem :
    (text w : Bytes) (ws : List Bytes)
    → words is_space text ≡ w ∷ ws
    → length w < 100
    → file_name (codes "[FILE] " ++ text) ≡ some w
unfolding words_from file_name
file_name_lem text w ws first lt =
    let z : ltb (length w) 100 ≡ true = ground arith in
    let skips : words is_space (32 ∷ text) ≡ w ∷ ws = first in rw (skips, file_name) (rw z refl)

-- A user whose name is FILE: each client that reads what this user says takes its first word for the name
-- of a file, empties the file of that name behind recv_, and shows nothing of the text.
pub file_user_lem :
    (c : Client) (text w : Bytes) (ws : List Bytes)
    → c.name ≡ codes "FILE"
    → words is_space text ≡ w ∷ ws
    → length w < 100
    → on_message (line_of c text) true
      ≡ some (
          save_file (codes "recv_" ++ w)
          ∷ update (codes ">>> 파일 저장됨: " ++ (codes "recv_" ++ w))
          ∷ [])
unfolding on_message starts_with
file_user_lem c text w ws e first lt = rw e (rw (file_name_lem text w ws first lt) refl)
