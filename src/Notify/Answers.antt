-- ===== src/Notify/Answers.antt =====
-- lab2/notify_server.c and notify_client.c: what the client gets, and how the server ends.
use open_source_project.Prelude.{
  ℕ, zero, suc, ◌+◌, ◌≡◌, ◌↔◌, ◌⊎◌, inl, inr, refl, if◌then◌else◌, Bool-cases, none, some, List, [],
  ◌∷◌, ◌++◌, arith, ltb, length, length-append, All, Bytes, codes,
}
use open_source_project.Prelude.Int.{ℤ, pos, negsuc}
use open_source_project.Notify.{
  reply_text, method_send_notification, process_loop, exit_status, notify_server, message_of,
  print_reply, notify_client,
}

-- What the server says to a message.
abbrev pub thanks : Bytes → Bytes
thanks message = codes "알림 '" ++ (message ++ codes "'가 성공적으로 처리되었습니다.")

length-thanks : (message : Bytes) → length (thanks message) ≡ length message + 51
length-thanks message = omega (arith, length-append {0} message (codes "'가 성공적으로 처리되었습니다."))

reply_text_lem :
    (message : Bytes)
    → reply_text message ≡ (if ltb (length message) 49 then some (thanks message) else none)
unfolding reply_text
reply_text_lem message = let n = length-thanks message in ground arith

-- The client and the server together: a message of fewer than 49 bytes is answered with a text that has
-- the message in it, which the client prints before it ends with success; and exactly the messages from
-- 49 bytes on overflow the server's `reply[100]`.
pub client_is_answered :
    (args : List Bytes) (c r g : ℕ)
    → notify_client args (pos c) (method_send_notification (pos r)) (pos g) ≡ (
        if ltb (length (message_of args)) 49
        then some (record { shown = some (thanks (message_of args)); status = 0 })
        else none)
unfolding notify_client method_send_notification print_reply exit_status
client_is_answered args c r g =
    rw (reply_text_lem (message_of args)) (elim (Bool-cases (ltb (length (message_of args)) 49)) [
      | inl e ↦ rw e refl
      | inr e ↦ rw e refl
    ])

-- A call does not fail.
abbrev pub Fine : ℤ → Type 0
Fine (pos n) = Unit
Fine (negsuc n) = ⊥

abbrev pub FineRound : ℤ × ℤ → Type 0
FineRound (pos zero, w) = Fine w
FineRound (pos (suc n), w) = Unit
FineRound (negsuc n, w) = ⊥

process_loop_lem :
    (rounds : List (ℤ × ℤ))
    → ((n : ℕ) × (process_loop rounds ≡ some (negsuc n)) × (All FineRound rounds → ⊥))
      ⊎ (process_loop rounds ≡ none) × All FineRound rounds
unfolding process_loop
process_loop_lem [] = inr (refl, tt)
process_loop_lem ((negsuc n, w) ∷ rs) = inl (n, refl, λ f. f.0)
process_loop_lem ((pos (suc n), w) ∷ rs) = elim (process_loop_lem rs) [
  | inl (m, e, no_fine) ↦ inl (m, e, λ f. no_fine f.1)
  | inr (e, fine) ↦ inr (e, (tt, fine))
]
process_loop_lem ((pos zero, negsuc n) ∷ rs) = inl (n, refl, λ f. f.0)
process_loop_lem ((pos zero, pos w) ∷ rs) = elim (process_loop_lem rs) [
  | inl (m, e, no_fine) ↦ inl (m, e, λ f. no_fine f.1)
  | inr (e, fine) ↦ inr (e, (tt, fine))
]

-- The server goes on as long as no call of sd-bus fails that it makes, ends at the first one that does,
-- and never ends with success.
pub server_ends_with_failure :
    (connected added named : ℤ) (rounds : List (ℤ × ℤ))
    → ((notify_server connected added named rounds ≡ none)
        ↔ (Fine connected × (Fine added × (Fine named × All FineRound rounds))))
      × ((notify_server connected added named rounds ≡ none)
          ⊎ (notify_server connected added named rounds ≡ some 1))
unfolding notify_server exit_status
server_ends_with_failure (negsuc n) added named rounds =
    ((λ e. absurd (cc), λ f. absurd f.0), inr refl)
server_ends_with_failure (pos c) (negsuc n) named rounds =
    ((λ e. absurd (cc), λ f. absurd f.1.0), inr refl)
server_ends_with_failure (pos c) (pos a) (negsuc n) rounds =
    ((λ e. absurd (cc), λ f. absurd f.1.1.0), inr refl)
server_ends_with_failure (pos c) (pos a) (pos m) rounds = elim (process_loop_lem rounds) [
  | inl (n, e, no_fine) ↦ rw e ((λ e'. absurd (cc), λ f. absurd (no_fine f.1.1.1)), inr refl)
  | inr (e, fine) ↦ rw e ((λ e'. (tt, (tt, (tt, fine))), λ f. refl), inl refl)
]
