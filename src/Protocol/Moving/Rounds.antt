-- ===== src/Protocol/Moving/Rounds.antt =====
-- A conversation in which the clients change their rooms: what one event sends, and to whom.
use open_source_project.Prelude.{
  ℕ, zero, suc, ◌≡◌, ◌≢◌, inl, inr, refl, sym, ap, ◌∙◌, true, false, some, List, [], ◌∷◌, ◌++◌, map,
  arith, ◌==◌, if◌then◌else◌, Bool-cases, Option-cases, length, keep, get_elem?, set, Bytes,
  cstr-append_nul,
}
use open_source_project.Prelude.Int.{ℤ}
use open_source_project.Prelude.Decimal.{IsInt}
use open_source_project.ChatServer.{Client, Server, store}
use open_source_project.ChatServer.Registry.Live.{Holds, Apart}
use open_source_project.ChatServer.Registry.Entries.{
  same_client, Absent-get, set-Holds, Holds-entry,
}
use open_source_project.ChatServer.Broadcast.{Delivery, listens, send_msg, send_msg_lem}
use open_source_project.ChatServer.Session.{moved, reply_text}
use open_source_project.ChatClient.{on_room_clicked}
use open_source_project.Protocol.Requests.{on_read-join_command}
use open_source_project.Protocol.Chat.{line_of, on_read-text, spoken-text}
use open_source_project.Protocol.Conversation.{
  IsSaid, sent_to, IsIn, sent_to-IsIn, request-on_send_clicked,
}
use open_source_project.Protocol.Moving.{
  Act, says, enters, Event, effects, after_read, round, answered, happen, behind, sees, IsAct,
}

IsIn-get : (cs : List Client) (j : ℕ) {d : Client} → get_elem? cs j ≡ some d → IsIn d cs
IsIn-get [] j e = absurd (cc)
IsIn-get (c ∷ cs) zero e = inl (same_client e)
IsIn-get (c ∷ cs) (suc j) e = inr (IsIn-get cs j e)

-- Two places with one socket are the same place.
same_place :
    (cs : List Client) (i j : ℕ) {c d : Client}
    → Apart cs
    → get_elem? cs i ≡ some c
    → get_elem? cs j ≡ some d
    → c.sock ≡ d.sock
    → i ≡ j
same_place [] i j a e f q = absurd (cc)
same_place (x ∷ cs) zero zero a e f q = refl
same_place (x ∷ cs) zero (suc j) (a, as') e f q =
    absurd (Absent-get x.sock j cs a f (sym q ∙ ap (λ y. y.sock) (sym (same_client e))))
same_place (x ∷ cs) (suc i) zero (a, as') e f q =
    absurd (Absent-get x.sock i cs a e (q ∙ ap (λ y. y.sock) (sym (same_client f))))
same_place (x ∷ cs) (suc i) (suc j) (a, as') e f q = ap suc (same_place cs i j as' e f q)

module _ (s : Server) (cs : List Client) (i : ℕ) (c : Client) (stale : Bytes) (holds : Holds s cs)
    (here : get_elem? cs i ≡ some c) where
  says_happens :
      (text : Bytes)
      → IsSaid (record { sender = c; text = text; stale = stale })
      → happen s (record { who = i; stale = stale; act = says text })
        ≡ some (s, map (λ x. (x.sock, line_of c text)) (keep (listens c) cs))
  unfolding happen effects answered round after_read
  says_happens text v =
      let (p, slot, there) = Holds-entry s cs i holds here in
      let sends : send_msg s c (text ++ (0 ∷ stale)) (length text)
          ≡ some (map (λ x. (x.sock, line_of c text)) (keep (listens c) cs)) =
        rw (spoken-text c stale text v.is_text) at (
          send_msg_lem s cs c (text ++ (0 ∷ stale)) (length text) holds v.short
            (rw (cstr-append_nul text stale v.is_text.no_nul) (omega (arith, v.is_text.fits)))) in
      ap (answered s i stale) (request-on_send_clicked text v.is_text.some_byte)
      ∙ rw (slot, there, on_read-text c stale text v.is_text, sends) refl

  enters_happens :
      (room : ℤ)
      → IsInt room
      → (t : Server) × Holds t (set cs i (record c { room = room }))
        × (happen s (record { who = i; stale = stale; act = enters room })
            ≡ some (t, (c.sock, reply_text (moved room)) ∷ []))
  unfolding happen effects answered round after_read on_room_clicked
  enters_happens room v =
      let (p, slot, there) = Holds-entry s cs i holds here in
      let (cmd, made, read) = on_read-join_command room c stale v in
      (
        record s { heap = store s.heap p (some (record c { room = room })) },
        set-Holds s p i c (record c { room = room }) cs there slot here refl holds,
        rw (made, slot, there, read) refl,
      )

-- A client keeps its socket behind an event.
pub behind-get :
    (cs : List Client) (i j : ℕ) (a : Act) {d : Client}
    → get_elem? cs j ≡ some d
    → (d' : Client) × (get_elem? (behind cs i a) j ≡ some d') × (d'.sock ≡ d.sock)
behind-get cs i j (says text) {d} e = (d, e, refl)
behind-get cs i j (enters room) {d} e = elim (Option-cases (get_elem? cs i)) [
  | inl n ↦ (d, rw n e, refl)
  | inr (c, n) ↦ rw n (set_get cs i j c d n e)
]
  where
    set_get :
        (cs : List Client) (i j : ℕ) (c d : Client)
        → get_elem? cs i ≡ some c
        → get_elem? cs j ≡ some d
        → (d' : Client) × (get_elem? (set cs i (record c { room = room })) j ≡ some d')
          × (d'.sock ≡ d.sock)
    set_get [] i j c d e f = absurd (cc)
    set_get (x ∷ cs) zero zero c d e f =
        (record c { room = room }, refl, ap (λ y. y.sock) (same_client (sym e ∙ f)))
    set_get (x ∷ cs) zero (suc j) c d e f = (d, f, refl)
    set_get (x ∷ cs) (suc i) zero c d e f = (d, f, refl)
    set_get (x ∷ cs) (suc i) (suc j) c d e f = set_get cs i j c d e f

one_sock :
    (cs : List Client) (i j : ℕ) (c d : Client) (l : Bytes)
    → Apart cs
    → get_elem? cs i ≡ some c
    → get_elem? cs j ≡ some d
    → sent_to d.sock ((c.sock, l) ∷ []) ≡ (if i == j then l ∷ [] else [])
one_sock cs i j c d l a e f = elim (Bool-cases (c.sock == d.sock)) [
  | inl same ↦
      (let p : i ≡ j = same_place cs i j a e f (ground arith) in
        let q : (i == j) ≡ true = ground arith in rw (same, q) refl)
  | inr other ↦
      (let apart : i ≢ j = λ p. different p other in
        let q : (i == j) ≡ false = ground arith in rw (other, q) refl)
]
  where
    different : i ≡ j → (c.sock == d.sock) ≡ false → ⊥
    different p other =
        let q : c.sock ≡ d.sock =
          ap (λ y. y.sock) (same_client (sym e ∙ ap (get_elem? cs) p ∙ f)) in
        ground arith

-- An event: what each client is sent, and that the array stays valid.
pub event_seen :
    (s : Server) (cs : List Client) (e : Event) (c : Client)
    → Holds s cs
    → get_elem? cs e.who ≡ some c
    → IsAct c e.stale e.act
    → (t : Server) × (ds : List Delivery) × (happen s e ≡ some (t, ds))
      × Holds t (behind cs e.who e.act)
      × ((j : ℕ) (d : Client) → get_elem? cs j ≡ some d → sent_to d.sock ds ≡ sees cs j e.who e.act)
event_seen s cs e c holds here v = go e.act v
  where
    go :
        (a : Act)
        → IsAct c e.stale a
        → (t : Server) × (ds : List Delivery) × (happen s
              (record { who = e.who; stale = e.stale; act = a })
            ≡ some (t, ds))
          × Holds t (behind cs e.who a)
          × ((j : ℕ) (d : Client) → get_elem? cs j ≡ some d → sent_to d.sock ds ≡ sees cs j e.who a)
    go (says text) v = (
      s,
      map (λ x. (x.sock, line_of c text)) (keep (listens c) cs),
      says_happens s cs e.who c e.stale holds here text v,
      holds,
      λ j d there.
          sent_to-IsIn (line_of c text) (listens c) cs d holds.apart (IsIn-get cs j there)
          ∙ rw (here, there) refl,
    )
    go (enters room) v =
        let (t, holds', done) = enters_happens s cs e.who c e.stale holds here room v in
        (
          t,
          (c.sock, reply_text (moved room)) ∷ [],
          done,
          rw here holds',
          λ j d there. one_sock cs e.who j c d (reply_text (moved room)) holds.apart here there,
        )
