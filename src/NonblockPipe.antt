-- ===== src/NonblockPipe.antt =====
-- lab2/nonblockpipe.c: two processes that talk over two pipes whose reads do not wait. Each write sends 16
-- bytes of a shorter literal; the bytes behind the literal's NUL are a parameter. A pipe is the list of the
-- writes that are not read: each write has 16 bytes, and so has each read.
mod Tests
pub mod Messages
use open_source_project.Prelude.{
  ℕ, zero, suc, ◌≡◌, Bool, true, false, List, [], ◌∷◌, ◌++◌, if◌then◌else◌, take, Bytes, codes,
  cstr,
}
use open_source_project.SelectPipe.{msg_size}

-- A line that a process prints.
pub data Printed : Type 0 where
  pipe_empty : Printed
  msg : Bytes → Printed

-- A process in front of its `read`, or of its `write`; what it printed; and how often its writes were
-- taken by the pipe.
pub record Process : Type 0 where
  pub writing : Bool
  pub printed : List Printed
  pub sent : ℕ

-- The bytes of `write(write_pipe, message, MSGSIZE)`.
unfoldable pub sent_bytes : Bytes → Bytes → Bytes
sent_bytes behind message = take msg_size (message ++ (0 ∷ behind))

-- The switch: what the process prints, and what is left in the pipe.
unfoldable pub read_pipe : List Bytes → Process → Process × List Bytes
read_pipe [] p = (record p { writing = true; printed = p.printed ++ (pipe_empty ∷ []) }, [])
read_pipe (b ∷ bs) p = (record p { writing = true; printed = p.printed ++ (msg (cstr b) ∷ []) }, bs)

-- The write; it fails where the pipe is full, which nobody looks at.
unfoldable pub write_pipe : Bool → Bytes → List Bytes → Process → Process × List Bytes
write_pipe room b bs p =
    if room
    then (record p { writing = false; sent = suc p.sent }, bs ++ (b ∷ []))
    else (record p { writing = false }, bs)

abbrev pub parent_msg : Bytes
parent_msg = codes "Hello, child!"

abbrev pub child_msg : Bytes
child_msg = codes "Hello, parent!"

pub record State : Type 0 where
  pub parent : Process
  pub child : Process
  pub to_child : List Bytes
  pub to_parent : List Bytes

-- Neither process ends, so that no `read` finds the other end closed.
module _ (behind : Bytes) where
  pub data Step : State → State → Type 0 where
    parent_reads :
        (s : State)
        → s.parent.writing ≡ false
        → Step s (record s {
          parent = (read_pipe s.to_parent s.parent).0;
          to_parent = (read_pipe s.to_parent s.parent).1;
        })
    child_reads :
        (s : State)
        → s.child.writing ≡ false
        → Step s (record s {
          child = (read_pipe s.to_child s.child).0;
          to_child = (read_pipe s.to_child s.child).1;
        })
    parent_writes :
        (room : Bool) (s : State)
        → s.parent.writing ≡ true
        → Step s (record s {
          parent = (write_pipe room (sent_bytes behind parent_msg) s.to_child s.parent).0;
          to_child = (write_pipe room (sent_bytes behind parent_msg) s.to_child s.parent).1;
        })
    child_writes :
        (room : Bool) (s : State)
        → s.child.writing ≡ true
        → Step s (record s {
          child = (write_pipe room (sent_bytes behind child_msg) s.to_parent s.child).0;
          to_parent = (write_pipe room (sent_bytes behind child_msg) s.to_parent s.child).1;
        })

abbrev pub new_process : Process
new_process = record { writing = false; printed = []; sent = 0 }

abbrev pub start_state : State
start_state = record { parent = new_process; child = new_process; to_child = []; to_parent = [] }

pub data Reach (behind : Bytes) : State → Type 0 where
  begin : Reach behind start_state
  later : {s t : State} → Reach behind s → Step behind s t → Reach behind t
