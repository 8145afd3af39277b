-- ===== src/Protocol/Files.antt =====
-- A file that a user picks, from the dialog to the clients of the others.
use open_source_project.Prelude.{
  ◌≤◌, ◌<◌, ◌≡◌, refl, ap, ◌∙◌, Bool, true, false, some, List, [], ◌∷◌, ◌++◌, map, arith, ltb,
  if◌then◌else◌, length, keep, words, is_space, All-append, append-nil, ◌≢◌, Bytes, codes,
  starts_with, NoNul, cstr-append_nul, cstr_of_NoNul,
}
use open_source_project.ChatServer.{Client, Server, buf_size}
use open_source_project.ChatServer.Registry.Live.{Holds}
use open_source_project.ChatServer.Broadcast.{Delivery, listens, spoken, send_msg_lem, take_prefix}
use open_source_project.ChatServer.Session.{got, send, on_read}
use open_source_project.ChatClient.{Effect, sent, update, save_file, on_file_clicked, on_message}
use open_source_project.ChatClient.Windows.{recv_msg}
use open_source_project.Protocol.Chat.{file_name_lem}
use open_source_project.Protocol.Conversation.{request, serve, sent_to, IsIn, sent_to-IsIn}

-- What is sent for a file.
abbrev pub announcement : Bytes → Bytes
announcement name = codes "[FILE] " ++ name

-- A name of a file that fits the buffers, with its first word.
pub record IsFileName (name w : Bytes) (ws : List Bytes) : Type 0 where
  pub first : words is_space name ≡ w ∷ ws
  pub short : length w < 100
  pub fits : length name ≤ 1000
  pub no_nul : NoNul name

-- What a client does that reads the announcement.
abbrev pub receiver_side : Bool → Bytes → List Effect
receiver_side true w =
    save_file (codes "recv_" ++ w) ∷ update (codes ">>> 파일 저장됨: " ++ (codes "recv_" ++ w)) ∷ []
receiver_side false w = []

module _ (name w : Bytes) (ws : List Bytes) (v : IsFileName name w ws) where
  announcement-NoNul : NoNul (announcement name)
  announcement-NoNul = All-append (λ c. c ≢ 0) (codes "[FILE] ") name (omega arith) v.no_nul

  on_file_clicked_lem :
      on_file_clicked true name
      ≡ some (sent (announcement name) ∷ update (codes ">>> 파일 전송 중: " ++ name) ∷ [])
  unfolding on_file_clicked
  on_file_clicked_lem = ground (arith, v.fits)

  on_read-announcement :
      (c : Client) (stale : Bytes)
      → on_read c stale (got (announcement name))
        ≡ some (send (announcement name ++ (0 ∷ stale)) (length (announcement name)))
  unfolding on_read
  on_read-announcement c stale =
      let lt : ltb (length (announcement name)) buf_size ≡ true = ground (arith, v.fits) in
      rw lt refl

  spoken-announcement :
      (c : Client) (stale : Bytes)
      → spoken c (announcement name ++ (0 ∷ stale)) (length (announcement name)) ≡ announcement name
  unfolding starts_with
  spoken-announcement c stale =
      rw (cstr-append_nul (announcement name) stale announcement-NoNul)
        (take_prefix (announcement name) (0 ∷ stale))

  on_message-announcement :
      (opened : Bool) → on_message (announcement name) opened ≡ some (receiver_side opened w)
  unfolding on_message starts_with
  on_message-announcement true = rw (file_name_lem name w ws v.first v.short) refl
  on_message-announcement false = rw (file_name_lem name w ws v.first v.short) refl

  serve-announcement :
      (s : Server) (cs : List Client) (c : Client) (stale : Bytes)
      → Holds s cs
      → length c.name < 20
      → serve s (record { sender = c; text = name; stale = stale }) (some (announcement name))
        ≡ some (map (λ d. (d.sock, announcement name)) (keep (listens c) cs))
  unfolding serve
  serve-announcement s cs c stale holds short = rw (on_read-announcement c stale) (
      rw (spoken-announcement c stale) at (
        send_msg_lem s cs c (announcement name ++ (0 ∷ stale)) (length (announcement name)) holds
          short
          (rw (cstr-append_nul (announcement name) stale announcement-NoNul)
            (omega (arith, v.fits)))))

  recv_msg-announcement :
      (b opened : Bool)
      → recv_msg (map (λ m. (got m, opened)) (if b then announcement name ∷ [] else []))
        ≡ some (if b then receiver_side opened w else [])
  unfolding recv_msg
  recv_msg-announcement false opened = refl
  recv_msg-announcement true opened =
      rw
        (
          cstr_of_NoNul (announcement name) announcement-NoNul,
          on_message-announcement opened,
          append-nil (receiver_side opened w),
        )
        refl

  -- A user picks a file whose name fits the buffers. What is sent is its name; the server passes the
  -- bytes on as they are, and a client that reads them at once empties the file that has the first word
  -- of the name behind recv_, and shows this, if it can open that file. This happens at each named client
  -- in the room of the sender, the sender's own client included, and at no other.
  pub file_announced :
      (s : Server) (cs : List Client) (c d : Client) (stale : Bytes) (opened : Bool)
      → Holds s cs
      → IsIn d cs
      → length c.name < 20
      → (es : List Effect) × (out : List Delivery) × (on_file_clicked true name ≡ some es)
        × (es ≡ sent (announcement name) ∷ update (codes ">>> 파일 전송 중: " ++ name) ∷ [])
        × (serve s (record { sender = c; text = name; stale = stale }) (request es) ≡ some out)
        × (recv_msg (map (λ m. (got m, opened)) (sent_to d.sock out))
            ≡ some (if listens c d then receiver_side opened w else []))
  file_announced s cs c d stale opened holds h short = (
    sent (announcement name) ∷ update (codes ">>> 파일 전송 중: " ++ name) ∷ [],
    map (λ x. (x.sock, announcement name)) (keep (listens c) cs),
    on_file_clicked_lem,
    refl,
    serve-announcement s cs c stale holds short,
    ap (λ bs. recv_msg (map (λ m. (got m, opened)) bs))
          (sent_to-IsIn (announcement name) (listens c) cs d holds.apart h)
        ∙ recv_msg-announcement (listens c d) opened,
  )
