-- ===== src/MessageQueue/Delivery.antt =====
-- lab2/messagequeue.c: what one user types is what the other one sees.
use open_source_project.Prelude.{
  ℕ, zero, suc, ◌-◌, ◌≤◌, ◌<◌, ◌≡◌, ◌≢◌, inl, inr, refl, ap, ◌∙◌, true, false, some, List, [], ◌∷◌,
  ◌++◌, map, arith, ltb, ◌==◌, Bool-cases, length, length-append, All, All-append, Bytes, codes,
  cstr, NoNul, cstr_of_NoNul,
}
use open_source_project.Prelude.Int.{ℤ, pos, negsuc}
use open_source_project.Prelude.Decimal.{atoi}
use open_source_project.Prelude.Strings.{fgets, fgets_line}
use open_source_project.Commands.Text.Lines.{unlines}
use open_source_project.TypingTest.{before_newline}
use open_source_project.TypingTest.Errors.{before_newline-append}
use open_source_project.MessageQueue.{
  msg_size, is_one, Names, queue_names, send_loop, messages, receive, receive_loop,
}

-- A message, with room for its NUL.
abbrev pub Fits : Bytes → Type 0
Fits m = NoNul m × (length m < msg_size)

length-fgets : (n : ℕ) (s : Bytes) → length (fgets n s).0 ≤ n
unfolding fgets
length-fgets zero s = omega arith
length-fgets (suc n) [] = omega arith
length-fgets (suc n) (c ∷ s) = ground (arith, length-fgets n s)

cstr_shorter : (s : Bytes) → (length (cstr s) ≤ length s) × NoNul (cstr s)
unfolding cstr
cstr_shorter [] = (omega arith, tt)
cstr_shorter (c ∷ s) = elim (Bool-cases (c == 0)) [
  | inl e ↦ rw e (omega arith, tt)
  | inr e ↦ rw e (omega (arith, (cstr_shorter s).0), ((λ z. ground arith), (cstr_shorter s).1))
]

before_newline_shorter :
    (s : Bytes) → NoNul s → (length (before_newline s) ≤ length s) × NoNul (before_newline s)
unfolding before_newline
before_newline_shorter [] h = (omega arith, tt)
before_newline_shorter (c ∷ s) (hc, h) = elim (Bool-cases (c == 10)) [
  | inl e ↦ rw e (omega arith, tt)
  | inr e ↦
      rw e (omega (arith, (before_newline_shorter s h).0), (hc, (before_newline_shorter s h).1))
]

send_loop-Fits : (f : ℕ) (stdin : Bytes) → All Fits (send_loop f stdin)
unfolding send_loop
send_loop-Fits zero stdin = tt
send_loop-Fits (suc f) [] = tt
send_loop-Fits (suc f) (c ∷ stdin) =
    let line = (fgets (msg_size - 1) (c ∷ stdin)).0 in
    let cut = cstr_shorter line in
    let text = before_newline_shorter (cstr line) cut.1 in
    (
      (text.1, omega (arith, length-fgets (msg_size - 1) (c ∷ stdin), cut.0, text.0)),
      send_loop-Fits f (fgets (msg_size - 1) (c ∷ stdin)).1,
    )

-- What the other user sees of a message.
abbrev pub shown : Bytes → Bytes
shown [] = []
shown (c ∷ m) = codes "\r[상대방]: " ++ ((c ∷ m) ++ codes "\n나: ")

abbrev pub all_shown : List Bytes → Bytes
all_shown [] = []
all_shown (m ∷ ms) = shown m ++ all_shown ms

receive_lem : (m : Bytes) → Fits m → receive m ≡ some (shown m)
unfolding receive
receive_lem [] h = refl
receive_lem (c ∷ m) (h, lt) =
    let e : ltb (length (c ∷ m)) msg_size ≡ true = ground arith in
    rw (e, cstr_of_NoNul (c ∷ m) h) refl

receive_loop-map :
    (ms : List Bytes) → All Fits ms → receive_loop (map some ms) ≡ some (all_shown ms)
unfolding receive_loop
receive_loop-map [] h = refl
receive_loop-map (m ∷ ms) (hm, h) = rw (receive_lem m hm, receive_loop-map ms h)

-- Whatever a user types, every message that is sent leaves room for the NUL that the other one's program
-- puts behind it, and if the queue loses nothing, that program prints all messages that are not empty, in
-- order.
pub receive_loop-messages :
    (stdin : Bytes)
    → All Fits (messages stdin)
      × (receive_loop (map some (messages stdin)) ≡ some (all_shown (messages stdin)))
unfolding messages
receive_loop-messages stdin =
    let fit = send_loop-Fits (length stdin) stdin in
    (fit, receive_loop-map (send_loop (length stdin) stdin) fit)

-- A line that the buffer holds with its newline.
abbrev pub IsChatLine : Bytes → Type 0
IsChatLine l = All (λ c. c ≢ 10) l × NoNul l × (length l < msg_size - 1)

send_round :
    (f : ℕ) (s line rest : Bytes)
    → 0 < length s
    → fgets (msg_size - 1) s ≡ (line, rest)
    → send_loop (suc f) s ≡ before_newline (cstr line) ∷ send_loop f rest
unfolding send_loop
send_round f [] line rest lt e = absurd (omega arith)
send_round f (c ∷ s) line rest lt e = rw e refl

send_loop-unlines :
    (f : ℕ) (ls : List Bytes)
    → All IsChatLine ls
    → length (unlines ls) ≤ f
    → send_loop f (unlines ls) ≡ ls
unfolding send_loop
send_loop-unlines zero [] h le = refl
send_loop-unlines (suc f) [] h le = refl
send_loop-unlines zero (l ∷ ls) h le = absurd (omega (arith, length-append l (10 ∷ unlines ls)))
send_loop-unlines (suc f) (l ∷ ls) ((line, clean, short), h) le =
    let long = length-append l (10 ∷ unlines ls) in
    let ended : cstr (l ++ (10 ∷ [])) ≡ l ++ (10 ∷ []) =
      cstr_of_NoNul (l ++ (10 ∷ []))
        (All-append (λ c. c ≢ 0) l (10 ∷ []) clean ((λ e. omega arith), tt)) in
    send_round f (l ++ (10 ∷ unlines ls)) (l ++ (10 ∷ [])) (unlines ls) (omega (arith, long))
      (fgets_line (msg_size - 1) l (unlines ls) line short)
    ∙ rw (ap before_newline ended ∙ before_newline-append l [] line)
        (ap (λ ms. l ∷ ms) (send_loop-unlines f ls h (omega (arith, long))))

-- The messages are the lines that were typed, if each of them and its newline fit into 8191 bytes; and if
-- the queue loses nothing, the other one's program prints these lines.
pub messages-unlines :
    (ls : List Bytes)
    → All IsChatLine ls
    → (messages (unlines ls) ≡ ls)
      × (receive_loop (map some (messages (unlines ls))) ≡ some (all_shown ls))
unfolding messages
messages-unlines ls h =
    let e = send_loop-unlines (length (unlines ls)) ls h (omega arith) in
    (e, (receive_loop-messages (unlines ls)).1 ∙ ap (λ ms. some (all_shown ms)) e)

other_user : (n : ℤ) → n ≢ pos 1 → is_one n ≡ false
other_user (pos n) ne = ground arith
other_user (negsuc n) ne = refl

-- Two users of whom one gives the number 1 have each other's queues.
pub queue_names_cross :
    (x y : Bytes) (n : ℤ)
    → atoi x ≡ some (pos 1)
    → atoi y ≡ some n
    → n ≢ pos 1
    → (a : Names) × (b : Names) × (queue_names x ≡ some a)
      × (queue_names y ≡ some b)
      × (a.mine ≡ b.peer)
      × (b.mine ≡ a.peer)
      × (a.mine ≢ b.mine)
unfolding queue_names
queue_names_cross x y n e f ne = (
  record { mine = codes "/chat_q1"; peer = codes "/chat_q2" },
  record { mine = codes "/chat_q2"; peer = codes "/chat_q1" },
  rw e refl,
  rw (f, other_user n ne) refl,
  refl,
  refl,
  λ q. ground arith,
)
