-- ===== src/WebServer/Children.antt =====
-- lab3/7/cgiserver.c: the loop of `main` with the processes that it starts, and `read_childproc`. What
-- `accept` and `fork` give, when a process ends and when the signal SIGCHLD is handled is left open.
pub mod Zombies
use open_source_project.Prelude.{ℕ, zero, suc, ◌+◌, ◌-◌, Bool, true, false, if◌then◌else◌}

-- In `accept`; behind it, before `fork`; behind `fork`, before `close`.
pub data Pc : Type 0 where
  accepting : Pc
  forking : Pc
  closing : Pc

-- The sockets of clients that the server itself holds, its children that run and those that have ended
-- and that it has not waited for, and whether a SIGCHLD is pending. The signal is not counted: one that
-- comes while one is pending is merged with it.
pub record State : Type 0 where
  pub pc : Pc
  pub sockets : ℕ
  pub running : ℕ
  pub zombies : ℕ
  pub pending : Bool

-- `if (clnt_sock == -1) continue;`
unfoldable pub after_accept : Bool → State → State
after_accept ok s = if ok then record s { pc = forking; sockets = s.sockets + 1 } else s

-- A process number of 0 is the child's, and -1 takes the branch of the parent.
unfoldable pub after_fork : Bool → State → State
after_fork ok s = record s { pc = closing; running = if ok then s.running + 1 else s.running }

unfoldable pub after_close : State → State
after_close s = record s { pc = accepting; sockets = s.sockets - 1 }

-- `waitpid(-1, &status, WNOHANG)` takes one child that has ended, if there is one.
unfoldable pub read_childproc : State → State
read_childproc s = record s { pending = false; zombies = s.zombies - 1 }

-- A child has ended (none is stopped by a signal); the number counts the signals that are merged.
unfoldable pub child_ends : ℕ → State → State
child_ends n s = record s { running = n; zombies = s.zombies + 1; pending = true }

abbrev pub merged : State → ℕ
merged s = if s.pending then 1 else 0

pub data Step : ℕ → State → State → Type 0 where
  accepted :
      (ok : Bool) (s : State)
      → Step 0 (record s { pc = accepting }) (after_accept ok (record s { pc = accepting }))
  forked :
      (ok : Bool) (s : State)
      → Step 0 (record s { pc = forking }) (after_fork ok (record s { pc = forking }))
  closed :
      (s : State) → Step 0 (record s { pc = closing }) (after_close (record s { pc = closing }))
  ended : (n : ℕ) (s : State) → Step (merged s) (record s { running = suc n }) (child_ends n s)
  handled : (s : State) → Step 0 (record s { pending = true }) (read_childproc s)

-- The server in front of its loop.
abbrev pub start_state : State
start_state = record { pc = accepting; sockets = 0; running = 0; zombies = 0; pending = false }

-- What the server comes to, with the number of signals that were merged on the way.
pub data Reach : ℕ → State → Type 0 where
  begin : Reach 0 start_state
  later : {m n : ℕ} {s t : State} → Reach m s → Step n s t → Reach (m + n) t
