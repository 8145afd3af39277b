-- ===== src/MessageQueue.antt =====
-- lab2/messagequeue.c: two users who chat over two message queues. What the queue calls give is an
-- argument.
mod Tests
pub mod Delivery
use open_source_project.Prelude.{
  ℕ, zero, suc, ◌+◌, ◌-◌, ◌*◌, ◌/◌, ◌%◌, ◌^◌, ◌≤◌, ◌<◌, ◌≡◌, ◌≢◌, ◌↔◌, ◌⊎◌, inl, inr, refl, sym, ap,
  ◌∙◌, Bool, true, false, ◌&&◌, ◌||◌, not, Option, none, some, List, [], ◌∷◌, ◌++◌, map,
  append_assoc, append-nil, arith, dec_lt, ℕ_discrete, ltb, leb, ◌==◌, ==_iff, if◌then◌else◌,
  Bool-cases, Option-cases, length, get_elem?, get_or, set, take, drop, replicate, length-append,
  length-set, get_or-set_self, get_or-set_ne, get_elem?-set_self, get_elem?-set_ne, keep, words,
  words_from, is_space, IsWord, words-append_blank, words_last, All, All-append, Bytes, codes,
  str_eq, str_eq_iff, str_eq_sound, str_eq_refl, starts_with, cstr, NoNul, cstr-append_nul,
  cstr_of_NoNul,
}
use open_source_project.Prelude.Int.{ℤ, pos}
use open_source_project.Prelude.Decimal.{atoi}
use open_source_project.Prelude.Strings.{fgets}
use open_source_project.TypingTest.{before_newline}
use open_source_project.ChatServer.Registry.{◌>>=◌}

-- `MSG_SIZE`
abbrev pub msg_size : ℕ
msg_size = 8192

abbrev pub is_one : ℤ → Bool
is_one (pos n) = n == 1
is_one _ = false

-- The queue that a user reads, and the one that the other user reads.
pub record Names : Type 0 where
  pub mine : Bytes
  pub peer : Bytes

unfoldable pub queue_names : Bytes → Option Names
queue_names arg = atoi arg >>= λ n. some (
    if is_one n
    then record { mine = codes "/chat_q1"; peer = codes "/chat_q2" }
    else record { mine = codes "/chat_q2"; peer = codes "/chat_q1" })

-- The program ends with `exit(1)`, or chats once the other user's queue is there.
pub data Start : Type 0 where
  usage : Start
  no_queue : Start
  chatting : Names → Start

-- `opens` tells whether `mq_open` makes the user's own queue.
unfoldable pub start : List Bytes → (Bytes → Bool) → Option Start
unfolding queue_names
start (arg ∷ []) opens =
    queue_names arg >>= λ n. some (if opens n.mine then chatting n else no_queue)
start args opens = some usage

-- The parent's loop: the messages that it passes to `mq_send`, for `f` rounds at most.
unfoldable pub send_loop : ℕ → Bytes → List Bytes
send_loop zero stdin = []
send_loop (suc f) [] = []
send_loop (suc f) (c ∷ stdin) =
    let (line, rest) = fgets (msg_size - 1) (c ∷ stdin) in
    before_newline (cstr line) ∷ send_loop f rest

-- Each round reads a byte at least.
unfoldable pub messages : Bytes → List Bytes
unfolding send_loop
messages stdin = send_loop (length stdin) stdin

-- The child's round after `mq_receive`: what it prints. `buf[n] = 0` is out of bounds if the message
-- fills the buffer.
unfoldable pub receive : Bytes → Option Bytes
receive [] = some []
receive (c ∷ m) =
    if ltb (length (c ∷ m)) msg_size
    then some (codes "\r[상대방]: " ++ (cstr (c ∷ m) ++ codes "\n나: "))
    else none

-- The child's loop over the messages that arrive; none stands for a failed `mq_receive`, at which the
-- child ends.
unfoldable pub receive_loop : List (Option Bytes) → Option Bytes
unfolding receive
receive_loop [] = some []
receive_loop (none ∷ ms) = some []
receive_loop (some m ∷ ms) = receive m >>= λ t. receive_loop ms >>= λ more. some (t ++ more)

-- What `cleanup` and the parent behind its loop do.
pub data Action : Type 0 where
  mq_close : Bytes → Action
  mq_unlink : Bytes → Action
  kill : ℤ → Action
  chat_ended : Action

unfoldable pub cleanup : Names → List Action
cleanup n = mq_close n.mine ∷ mq_close n.peer ∷ mq_unlink n.mine ∷ chat_ended ∷ []

-- `kill(pid, SIGINT); cleanup(0);` for what `fork` gave. The signal makes the child run `cleanup` too.
unfoldable pub end_chat : ℤ → Names → List Action
unfolding cleanup
end_chat pid n = kill pid ∷ cleanup n
