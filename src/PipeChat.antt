-- ===== src/PipeChat.antt =====
-- lab2/pipe.c: two processes that chat over two pipes. What `select` and `read` give is chosen freely,
-- as far as a pipe allows it; a `write` takes all its bytes.
mod Tests
pub mod Delivery
use open_source_project.Prelude.{
  ℕ, zero, suc, ◌+◌, ◌-◌, ◌*◌, ◌/◌, ◌%◌, ◌^◌, ◌≤◌, ◌<◌, ◌≡◌, ◌≢◌, ◌↔◌, ◌⊎◌, inl, inr, refl, sym, ap,
  ◌∙◌, Bool, true, false, ◌&&◌, ◌||◌, not, Option, none, some, List, [], ◌∷◌, ◌++◌, map,
  append_assoc, append-nil, arith, dec_lt, ℕ_discrete, ltb, leb, ◌==◌, ==_iff, if◌then◌else◌,
  Bool-cases, Option-cases, length, get_elem?, get_or, set, take, drop, replicate, length-append,
  length-set, get_or-set_self, get_or-set_ne, get_elem?-set_self, get_elem?-set_ne, keep, words,
  words_from, is_space, IsWord, words-append_blank, words_last, All, All-append, Bytes, codes,
  str_eq, str_eq_iff, str_eq_sound, str_eq_refl, starts_with, cstr, NoNul, cstr-append_nul,
  cstr_of_NoNul,
}
use open_source_project.ChatServer.Registry.{◌>>=◌}

-- `MSGSIZE`
abbrev pub msg_size : ℕ
msg_size = 1024

-- What a `read` gives: bytes, and then at least one, or 0 at the end, or -1.
pub data Read : Type 0 where
  got : Bytes → Read
  ended : Read
  failed : Read

-- What a round of the loop wrote to its pipe and printed, and whether the loop goes on.
pub record Round : Type 0 where
  pub written : Bytes
  pub printed : Bytes
  pub goes_on : Bool

-- The second `if`: the pipe. `buf[nread] = 0` is out of bounds where `read` fills the buffer.
unfoldable pub read_pipe : Bytes → Bytes → Option Read → Option Round
read_pipe name written none = some (record { written = written; printed = []; goes_on = true })
read_pipe name written (some ended) =
    some (record { written = written; printed = codes "연결이 종료 되었습니다.\n"; goes_on = false })
read_pipe name written (some failed) =
    some (record { written = written; printed = codes "연결이 종료 되었습니다.\n"; goes_on = false })
read_pipe name written (some (got b)) =
    if ltb (length b) msg_size
    then some (record {
      written = written;
      printed = codes "[" ++ (name ++ (codes "]: " ++ cstr b));
      goes_on = true;
    })
    else none

-- The body of the loop of `chat_loop`: the standard input, if it is ready, and then the pipe. At the end
-- of the input the loop is left before the pipe is read.
unfoldable pub chat_round : Bytes → Option Read → Option Read → Option Round
unfolding read_pipe
chat_round name none from_pipe = read_pipe name [] from_pipe
chat_round name (some ended) from_pipe =
    some (record { written = []; printed = []; goes_on = false })
chat_round name (some failed) from_pipe =
    some (record { written = []; printed = []; goes_on = false })
chat_round name (some (got b)) from_pipe =
    if ltb (length b) msg_size then read_pipe name b from_pipe else none

-- One pipe, with the process that writes to it and the one that reads from it: what the writer's standard
-- input gave, what lies in the pipe, the reads from it, what the reader's loop has printed, and whether the
-- writer is in its loop, behind which it closes the pipe.
pub record Direction : Type 0 where
  pub typed : Bytes
  pub pipe : Bytes
  pub reads : List Read
  pub screen : Bytes
  pub open' : Bool

-- What a round finds at the standard input, with the bytes that were typed. Where the input has ended or
-- fails, the round does not come to the pipe.
pub data Input : Option Read → Option Read → Bytes → Type 0 where
  no_input : {j : Option Read} → Input none j []
  line : {j : Option Read} (b : Bytes) → 0 < length b → Input (some (got b)) j b
  at_eof : Input (some ended) none []
  input_fails : Input (some failed) none []

-- What a `read` of a pipe can give, with what is left in it.
pub data Gives (d : Direction) : Option Read → Bytes → Type 0 where
  quiet : Gives d none d.pipe
  bytes : (b rest : Bytes) → d.pipe ≡ b ++ rest → 0 < length b → Gives d (some (got b)) rest
  at_end : d.pipe ≡ [] → d.open' ≡ false → Gives d (some ended) d.pipe
  fails : Gives d (some failed) d.pipe

abbrev pub read_of : Option Read → List Read
read_of none = []
read_of (some x) = x ∷ []

-- The writer's pipe after a round.
abbrev pub after_write : Direction → Bytes → Round → Direction
after_write d input r = record d {
  typed = d.typed ++ input;
  pipe = d.pipe ++ r.written;
  open' = r.goes_on;
}

-- The reader's pipe after a round.
abbrev pub after_read : Direction → Option Read → Bytes → Round → Direction
after_read d j rest r = record d {
  pipe = rest;
  reads = d.reads ++ read_of j;
  screen = d.screen ++ r.printed;
}

-- `p1` from the parent to the child, and `p2`.
pub record State : Type 0 where
  pub p1 : Direction
  pub p2 : Direction

abbrev pub empty : Direction
empty = record { typed = []; pipe = []; reads = []; screen = []; open' = true }

-- A round of the parent or of the child, while it is in its loop.
pub data Step (s : State) : State → Type 0 where
  parent_round :
      (i j : Option Read) (input rest : Bytes) (r : Round)
      → s.p1.open' ≡ true
      → Input i j input
      → Gives s.p2 j rest
      → chat_round (codes "Parent") i j ≡ some r
      → Step s (record { p1 = after_write s.p1 input r; p2 = after_read s.p2 j rest r })
  child_round :
      (i j : Option Read) (input rest : Bytes) (r : Round)
      → s.p2.open' ≡ true
      → Input i j input
      → Gives s.p1 j rest
      → chat_round (codes "Child") i j ≡ some r
      → Step s (record { p1 = after_read s.p1 j rest r; p2 = after_write s.p2 input r })

pub data Reach : State → Type 0 where
  start : Reach (record { p1 = empty; p2 = empty })
  later : {s t : State} → Reach s → Step s t → Reach t
