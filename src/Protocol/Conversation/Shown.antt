-- ===== src/Protocol/Conversation/Shown.antt =====
-- A conversation: what the clients show of what the server writes to them.
use open_source_project.Prelude.{
  ◌≡◌, ◌≢◌, inl, inr, refl, sym, ap, ◌∙◌, Bool, true, some, List, [], ◌∷◌, ◌++◌, map, append_assoc,
  append-nil, arith, Bool-cases, keep, All, All-append, Bytes, codes, NoNul, cstr_of_NoNul,
}
use open_source_project.ChatServer.{Client, Server}
use open_source_project.ChatServer.Registry.Live.{Holds}
use open_source_project.ChatServer.Broadcast.{Delivery, listens}
use open_source_project.ChatServer.Session.{Read, got}
use open_source_project.ChatClient.{Effect, update, on_message, update_ui, answer_text}
use open_source_project.ChatClient.Windows.{recv_msg}
use open_source_project.Commands.Text.Lines.{unlines}
use open_source_project.Protocol.Chat.{on_message-line}
use open_source_project.Protocol.Conversation.{
  Said, line, IsSaid, relay_all, sent_to, window, IsIn, heard, sent_to-relay_all,
}

-- A line that the client shows as it is.
pub record IsShown (b : Bytes) : Type 0 where
  pub read_whole : answer_text (got b) ≡ some b
  pub no_file : (opened : Bool) → on_message b opened ≡ some (update b ∷ [])

abbrev pub reads : List Bytes → List (Read × Bool)
reads = map (λ b. (got b, true))

pub recv_msg-reads : (bs : List Bytes) → All IsShown bs → recv_msg (reads bs) ≡ some (map update bs)
unfolding recv_msg
recv_msg-reads [] h = refl
recv_msg-reads (b ∷ bs) (hb, h) =
    rw (hb.read_whole, hb.no_file true, recv_msg-reads bs h, recv_msg) refl

pub window-update : (bs : List Bytes) (w : Bytes) → window (map update bs) w ≡ w ++ unlines bs
unfolding update_ui
window-update [] w = sym (append-nil w)
window-update (b ∷ bs) w =
    window-update bs (w ++ (b ++ (10 ∷ [])))
    ∙ append_assoc w (b ++ (10 ∷ [])) (unlines bs)
    ∙ ap (λ t. w ++ t) (append_assoc b (10 ∷ []) (unlines bs))

pub line-IsShown : (m : Said) → IsSaid m → IsShown (line m)
line-IsShown m v =
    let clean : NoNul (line m) = (
      omega arith,
      All-append (λ c. c ≢ 0) m.sender.name (codes "] " ++ m.text) v.clean
          (omega arith, (omega arith, v.is_text.no_nul)),
    ) in
    record {
      read_whole = ap some (cstr_of_NoNul (line m) clean);
      no_file = λ opened. on_message-line m.sender m.text opened v.no_file;
    }

heard-IsShown : (d : Client) (ms : List Said) → All IsSaid ms → All IsShown (heard d ms)
heard-IsShown d [] v = tt
heard-IsShown d (m ∷ ms) (vm, v) = elim (Bool-cases (listens m.sender d)) [
  | inl e ↦ rw e (line-IsShown m vm, heard-IsShown d ms v)
  | inr e ↦ rw e (heard-IsShown d ms v)
]

-- Several users type texts one after the other. The server writes to each client, and the client appends
-- to its window exactly the lines of the users in its room, each behind its sender's name, in the order
-- in which they were said, if the client has a name and reads the lines one by one: all clients in one
-- room see the same conversation.
pub conversation_shown :
    (s : Server) (cs : List Client) (d : Client) (ms : List Said)
    → Holds s cs
    → IsIn d cs
    → All IsSaid ms
    → (out : List Delivery) × (es : List Effect) × (relay_all s ms ≡ some out)
      × (recv_msg (reads (sent_to d.sock out)) ≡ some es)
      × (window es [] ≡ unlines (map line (keep (λ m. listens m.sender d) ms)))
conversation_shown s cs d ms holds h v =
    let (out, e, f) = sent_to-relay_all s cs d ms holds h v in
    (
      out,
      map update (heard d ms),
      e,
      ap (λ bs. recv_msg (reads bs)) f ∙ recv_msg-reads (heard d ms) (heard-IsShown d ms v),
      window-update (heard d ms) [],
    )
