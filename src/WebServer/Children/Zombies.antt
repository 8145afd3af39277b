-- ===== src/WebServer/Children/Zombies.antt =====
-- lab3/7/cgiserver.c: which children and sockets the server keeps.
use open_source_project.Prelude.{ℕ, ◌+◌, ◌≡◌, refl, true, false, arith}
use open_source_project.WebServer.Children.{
  Pc, accepting, forking, closing, State, after_accept, after_fork, after_close, read_childproc,
  child_ends, merged, Step, accepted, forked, closed, ended, handled, Reach, begin, later,
}

-- The socket of the client whose connection the server has just accepted.
abbrev pub held : Pc → ℕ
held accepting = 0
held forking = 1
held closing = 1

abbrev pub Kept : ℕ → State → Type 0
Kept m s = (s.zombies ≡ m + merged s) × (s.sockets ≡ held s.pc)

Step-Kept : {n : ℕ} {s t : State} (m : ℕ) → Step n s t → Kept m s → Kept (m + n) t
unfolding after_accept after_fork after_close read_childproc child_ends
Step-Kept m (accepted true s) (z, k) = (omega arith, omega arith)
Step-Kept m (accepted false s) (z, k) = (omega arith, omega arith)
Step-Kept m (forked ok s) (z, k) = (omega arith, omega arith)
Step-Kept m (closed s) (z, k) = (omega arith, omega arith)
Step-Kept m (ended n s) (z, k) = (omega arith, omega arith)
Step-Kept m (handled s) (z, k) = (omega arith, omega arith)

-- The handler takes one child for each signal that it gets: the children that have ended and still stay
-- are exactly the ones whose signal was merged with another one, with one more while a signal is pending.
-- The server holds no client's socket but the one that it has just accepted, whatever `accept` and
-- `fork` gave.
pub zombies_are_merged : {m : ℕ} {s : State} → Reach m s → Kept m s
zombies_are_merged begin = (refl, refl)
zombies_are_merged (later {m} {n} {s} {t} r st) = Step-Kept m st (zombies_are_merged r)
