-- ===== src/PingPong.antt =====
-- lab2/ch8/sendsignal.c: a parent and a child that wake each other by SIGUSR1, from the moment on at which
-- both have set their handlers. A signal that was sent is pending until the handler runs, and one that is
-- sent meanwhile is merged with it; a `sleep` may end at any time.
mod Tests
pub mod Turns
use open_source_project.Prelude.{ℕ, ◌+◌, ◌≡◌, ◌≢◌, Bool, true, false, if◌then◌else◌}

-- Where a process stands in its loop: in `sleep`, before `kill`, before `pause`, in `pause`.
pub data Pc : Type 0 where
  asleep : Pc
  at_kill : Pc
  at_pause : Pc
  paused : Pc

-- `calls` is the counter `i` of the process, and `merged` the number of signals that were sent to it while
-- one was pending, which its handler never sees.
pub record Process : Type 0 where
  pub pc : Pc
  pub pending : Bool
  pub calls : ℕ
  pub merged : ℕ

-- What `kill` does to the process that it names.
abbrev pub received : Process → Process
received b = record b { pending = true; merged = if b.pending then b.merged + 1 else b.merged }

-- A step of the process `a`, with the other one `b`. A signal that arrives in `pause` ends it; one that
-- arrives before it is handled there, and `pause` waits for the next one.
pub data Move (a b : Process) : Process → Process → Type 0 where
  wakes_up : a.pc ≡ asleep → Move a b (record a { pc = at_kill }) b
  sends : a.pc ≡ at_kill → Move a b (record a { pc = at_pause }) (received b)
  pauses : a.pc ≡ at_pause → Move a b (record a { pc = paused }) b
  handles :
      a.pending ≡ true
      → a.pc ≡ paused
      → Move a b (record a { pc = asleep; pending = false; calls = a.calls + 1 }) b
  handles_early :
      a.pending ≡ true
      → a.pc ≢ paused
      → Move a b (record a { pending = false; calls = a.calls + 1 }) b

pub record State : Type 0 where
  pub child : Process
  pub parent : Process

abbrev pub start_state : State
start_state = record {
  child = record { pc = asleep; pending = false; calls = 0; merged = 0 };
  parent = record { pc = at_pause; pending = false; calls = 0; merged = 0 };
}

pub data Step (s : State) : State → Type 0 where
  child_moves :
      {a b : Process} → Move s.child s.parent a b → Step s (record { child = a; parent = b })
  parent_moves :
      {a b : Process} → Move s.parent s.child a b → Step s (record { child = b; parent = a })

pub data Reach : State → Type 0 where
  start : Reach start_state
  later : {s t : State} → Reach s → Step s t → Reach t
