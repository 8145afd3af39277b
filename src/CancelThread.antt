-- ===== src/CancelThread.antt =====
-- lab3/2/cancelthread.c: a thread that lets itself be cancelled in every fifth round. Each line of the
-- loop of `cancel_thread` is a step; `main` asks for the cancellation between any two of them.
mod Tests
pub mod Rounds
use open_source_project.Prelude.{
  ℕ, zero, suc, ◌+◌, ◌%◌, Bool, true, false, ◌&&◌, ◌==◌, if◌then◌else◌,
}
use open_source_project.Prelude.Int.{ℤ, pos}

-- In front of a line of the loop, or cancelled.
pub data Pc : Type 0 where
  disabling : Pc
  printing : Pc
  sleeping : Pc
  restoring : Pc
  testing : Pc
  cancelled : Pc

-- `enabled` is the thread's cancel state, `saved` the variable `state`, `printed` the lines it printed.
pub record Thread : Type 0 where
  pub pc : Pc
  pub i : ℕ
  pub enabled : Bool
  pub saved : Bool
  pub printed : ℕ

-- A call that is a cancellation point: a thread that is enabled acts on a request, and goes on otherwise.
unfoldable pub point : Bool → Thread → Thread → Thread
point requested t next = if t.enabled && requested then record t { pc = cancelled } else next

-- One line. `printf` and `sleep` are cancellation points too.
unfoldable pub line : Bool → Thread → Pc → Thread
unfolding point
line requested t disabling = record t { pc = printing; saved = t.enabled; enabled = false }
line requested t printing = point requested t (record t { pc = sleeping; printed = t.printed + 1 })
line requested t sleeping = point requested t (record t { pc = restoring })
line requested t restoring = record t { pc = testing; saved = t.enabled; enabled = t.saved }
line requested t testing =
    let next = record t { pc = disabling; i = t.i + 1 } in
    if t.i % 5 == 0 then point requested t next else next
line requested t cancelled = t

-- The line that is next.
abbrev pub run : Bool → Thread → Thread
run requested t = line requested t t.pc

-- A new thread is enabled.
abbrev pub start_thread : Thread
start_thread = record { pc = disabling; i = 0; enabled = true; saved = true; printed = 0 }

-- A thread with lines before the request, and with lines behind it.
unfoldable pub run_lines : ℕ → Bool → Thread → Thread
unfolding line
run_lines zero requested t = t
run_lines (suc n) requested t = run_lines n requested (run requested t)

-- The exit status of `main` for what the three calls give, and for the result of the thread.
unfoldable pub main : Bool → ℕ → ℕ → ℕ → ℤ → ℤ
main has_time created cancel joined result =
    if has_time && (created == 0 && (cancel == 0 && joined == 0)) then result else pos 1
