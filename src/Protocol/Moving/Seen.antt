-- ===== src/Protocol/Moving/Seen.antt =====
-- A conversation in which the clients change their rooms: what each of them sees.
use open_source_project.Prelude.{
  ℕ, ◌≡◌, ◌≢◌, inl, inr, refl, sym, ap, ◌∙◌, Option, none, some, List, [], ◌∷◌, ◌++◌, map, arith,
  ◌==◌, Bool-cases, get_elem?, All, All-append, codes, NoNul, cstr_of_NoNul, starts_with, cstr,
}
use open_source_project.Prelude.Int.{ℤ}
use open_source_project.Prelude.Decimal.{print_int, print_int-All}
use open_source_project.ChatServer.{Client, Server}
use open_source_project.ChatServer.Registry.Live.{Holds}
use open_source_project.ChatServer.Broadcast.{Delivery, listens}
use open_source_project.ChatServer.Session.{moved, reply_text}
use open_source_project.ChatClient.{Effect, update, on_message}
use open_source_project.ChatClient.Windows.{recv_msg}
use open_source_project.Commands.Text.Lines.{unlines}
use open_source_project.Protocol.Conversation.{sent_to, window, sent_to-append}
use open_source_project.Protocol.Conversation.Shown.{
  IsShown, reads, recv_msg-reads, window-update, line-IsShown,
}
use open_source_project.Protocol.Moving.{
  Act, says, enters, Event, happen_all, behind, hears_text, sees, sees_all, IsAct, AreEvents,
}
use open_source_project.Protocol.Moving.Rounds.{behind-get, event_seen}

-- The line of a move is shown as it is.
moved-IsShown : (room : ℤ) → IsShown (reply_text (moved room))
unfolding reply_text on_message starts_with cstr
moved-IsShown room = record {
  read_whole = ap some (cstr_of_NoNul (reply_text (moved room)) clean);
  no_file = λ opened. refl;
}
  where
    clean : NoNul (reply_text (moved room))
    clean =
        All-append (λ c. c ≢ 0) (codes ">>> 서버: ") (print_int room ++ codes "번 방으로 이동했습니다.\n")
          (omega arith)
          (All-append (λ c. c ≢ 0) (print_int room) (codes "번 방으로 이동했습니다.\n")
            (print_int-All (λ c. c ≢ 0) (λ d h. omega arith) room (omega arith)) (omega arith))

events_seen :
    (s : Server) (cs : List Client) (j : ℕ) (d : Client) (es : List Event)
    → Holds s cs
    → get_elem? cs j ≡ some d
    → AreEvents cs es
    → (out : List Delivery) × (happen_all s es ≡ some out) × (sent_to d.sock out ≡ sees_all cs j es)
unfolding happen_all
events_seen s cs j d [] holds there v = ([], refl, refl)
events_seen s cs j d (e ∷ es) holds there ((c, here, act), v) =
    let (t, ds, done, holds', seen) = event_seen s cs e c holds here act in
    let (d', there', sock) = behind-get cs e.who j e.act there in
    let (out, rest, later) = events_seen t (behind cs e.who e.act) j d' es holds' there' v in
    (
      ds ++ out,
      rw (done, rest) refl,
      sent_to-append d.sock ds out
          ∙ ap (λ l. l ++ sent_to d.sock out) (seen j d there)
          ∙ ap (λ l. sees cs j e.who e.act ++ l) (ap (λ fd. sent_to fd out) (sym sock) ∙ later),
    )

sees-IsShown :
    (cs : List Client) (j : ℕ) (e : Event) (c : Client)
    → get_elem? cs e.who ≡ some c
    → IsAct c e.stale e.act
    → All IsShown (sees cs j e.who e.act)
sees-IsShown cs j e c here v = go e.act v
  where
    go : (a : Act) → IsAct c e.stale a → All IsShown (sees cs j e.who a)
    go (says text) v = rw here (heard (get_elem? cs j))
      where
        heard : (d : Option Client) → All IsShown (hears_text (some c) d text)
        heard none = tt
        heard (some d) = elim (Bool-cases (listens c d)) [
          | inl y ↦ rw y (line-IsShown (record { sender = c; text = text; stale = e.stale }) v, tt)
          | inr n ↦ rw n tt
        ]
    go (enters room) v = elim (Bool-cases (e.who == j)) [
      | inl y ↦ rw y (moved-IsShown room, tt)
      | inr n ↦ rw n tt
    ]

sees_all-IsShown :
    (cs : List Client) (j : ℕ) (es : List Event) → AreEvents cs es → All IsShown (sees_all cs j es)
sees_all-IsShown cs j [] v = tt
sees_all-IsShown cs j (e ∷ es) ((c, here, act), v) =
    All-append IsShown (sees cs j e.who e.act) (sees_all (behind cs e.who e.act) j es)
      (sees-IsShown cs j e c here act) (sees_all-IsShown (behind cs e.who e.act) j es v)

-- Users say texts, which fit the buffers and are neither commands nor look like files, and enter rooms, one
-- after the other. The server does not fail, and the window of each client, if it reads the server's lines
-- one by one, holds exactly: each text of somebody who was in its room at that time, behind the name of
-- who said it, if the client has a name itself, and a line for each of its own moves, all in the order in
-- which it happened.
pub events_shown :
    (s : Server) (cs : List Client) (j : ℕ) (d : Client) (es : List Event)
    → Holds s cs
    → get_elem? cs j ≡ some d
    → AreEvents cs es
    → (out : List Delivery) × (effs : List Effect) × (happen_all s es ≡ some out)
      × (recv_msg (reads (sent_to d.sock out)) ≡ some effs)
      × (window effs [] ≡ unlines (sees_all cs j es))
events_shown s cs j d es holds there v =
    let (out, done, seen) = events_seen s cs j d es holds there v in
    (
      out,
      map update (sees_all cs j es),
      done,
      ap (λ bs. recv_msg (reads bs)) seen
          ∙ recv_msg-reads (sees_all cs j es) (sees_all-IsShown cs j es v),
      window-update (sees_all cs j es) [],
    )
