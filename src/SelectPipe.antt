-- ===== src/SelectPipe.antt =====
-- lab2/selectpipe.c: three children that write into a pipe each, and a parent that reads them by select.
-- Each write sends 16 bytes of a shorter literal; the bytes behind the literal's NUL are a parameter. A
-- pipe is the list of the writes that are not read: each write has 16 bytes, and so has each read.
mod Tests
pub mod Messages
use open_source_project.Prelude.{
  ℕ, zero, suc, ◌≡◌, ◌≢◌, Bool, true, false, Option, none, some, List, [], ◌∷◌, ◌++◌, if◌then◌else◌,
  take, replicate, All, Bytes, codes, cstr,
}

-- `MSGSIZE`
abbrev pub msg_size : ℕ
msg_size = 16

abbrev pub hello_msg : Bytes
hello_msg = codes "Hello, parent!"

abbrev pub bye_msg : Bytes
bye_msg = codes "Bye, parent!"

-- The bytes of `write(p[1], msg, MSGSIZE)`.
unfoldable pub written : Bytes → Bytes → Bytes
written behind msg = take msg_size (msg ++ (0 ∷ behind))

-- What `child` writes: the loop, and the last message.
unfoldable pub child : Bytes → List Bytes
unfolding written
child behind = replicate 3 (written behind hello_msg) ++ (written behind bye_msg ∷ [])

pub data Life : Type 0 where
  running : Life
  zombie : Life
  waited_for : Life

-- A child with what it has still to write, its pipe, and the messages that the parent printed for it.
pub record Line : Type 0 where
  pub todo : List Bytes
  pub pipe : List Bytes
  pub shown : List Bytes
  pub life : Life

abbrev pub start_line : Bytes → Line
start_line behind = record { todo = child behind; pipe = []; shown = []; life = running }

-- `if (read(pp[i][0], buf, MSGSIZE) > 0) printf(...)`: at an empty pipe `read` gives 0.
unfoldable pub read_line : Line → Line
read_line l = elim l.pipe [
  | [] ↦ l
  | m ∷ ms ↦ record l { pipe = ms; shown = l.shown ++ (cstr m ∷ []) }
]

-- The loop over the pipes that are ready.
unfoldable pub read_ready : List Bool → List Line → List Line
unfolding read_line
read_ready [] ls = ls
read_ready (r ∷ rs) [] = []
read_ready (r ∷ rs) (l ∷ ls) = (if r then read_line l else l) ∷ read_ready rs ls

-- In front of `select`, in front of `waitpid`, or behind the loop.
pub data Parent : Type 0 where
  selecting : Parent
  waiting : Parent
  returned : Parent

pub record State : Type 0 where
  pub parent : Parent
  pub lines : List Line

-- What a child does: it writes, and it ends.
pub data Act : Line → Line → Type 0 where
  writes :
      (m : Bytes) (ms pipe shown : List Bytes)
      → Act
          (record { todo = m ∷ ms; pipe = pipe; shown = shown; life = running })
          (record { todo = ms; pipe = pipe ++ (m ∷ []); shown = shown; life = running })
  exits :
      (pipe shown : List Bytes)
      → Act
          (record { todo = []; pipe = pipe; shown = shown; life = running })
          (record { todo = []; pipe = pipe; shown = shown; life = zombie })

-- `select` succeeds; an empty pipe in the set is one at its end. `waitpid(-1, NULL, WNOHANG)` takes a
-- child that has ended, gives 0 while there are only children that run, and fails without children.
pub data Step : State → State → Type 0 where
  acts :
      (p : Parent) (before after : List Line) (a b : Line)
      → Act a b
      → Step
          (record { parent = p; lines = before ++ (a ∷ after) })
          (record { parent = p; lines = before ++ (b ∷ after) })
  reads :
      (ready : List Bool) (ls : List Line)
      → Step
          (record { parent = selecting; lines = ls })
          (record { parent = waiting; lines = read_ready ready ls })
  waits :
      (before after : List Line) (l : Line)
      → Step
          (record { parent = waiting; lines = before ++ (record l { life = zombie } ∷ after) })
          (record {
            parent = selecting;
            lines = before ++ (record l { life = waited_for } ∷ after);
          })
  none_ended :
      (before after : List Line) (l : Line)
      → All (λ x. x.life ≢ zombie) (before ++ (record l { life = running } ∷ after))
      → Step
          (record { parent = waiting; lines = before ++ (record l { life = running } ∷ after) })
          (record { parent = selecting; lines = before ++ (record l { life = running } ∷ after) })
  no_child :
      (ls : List Line)
      → All (λ x. x.life ≡ waited_for) ls
      → Step (record { parent = waiting; lines = ls }) (record { parent = returned; lines = ls })

abbrev pub start_state : Bytes → State
start_state behind = record { parent = selecting; lines = replicate 3 (start_line behind) }

pub data Steps : State → State → Type 0 where
  here : {s : State} → Steps s s
  more : {s t u : State} → Steps s t → Step t u → Steps s u
