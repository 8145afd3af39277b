-- ===== src/Shell/Processes.antt =====
-- project1/myshell.c, `main`: the processes that a line starts, and how the shell waits for them. The
-- system starts, ends and reports processes at any time; what they run is left out.
mod Tests
pub mod Waits
pub mod Returns
use open_source_project.Prelude.{
  ℕ, zero, suc, ◌+◌, ◌≡◌, ◌≢◌, Bool, true, false, Option, none, some, List, [], ◌∷◌, ◌++◌,
  if◌then◌else◌, All,
}
use open_source_project.Shell.Line.{Decision, nothing, quit, pipeline, builtin, external}

-- Where the shell is: in `readline`, in `waitpid` for a process, in `wait(NULL)` with some more calls of
-- it to come (counted with this one), or behind the loop.
pub data Mode : Type 0 where
  prompt : Mode
  wait_for : ℕ → Mode
  wait_any : ℕ → Mode
  left : Mode

-- A child that the shell has not waited for yet. One that does not run any more is a zombie.
pub record Child : Type 0 where
  pub pid : ℕ
  pub running : Bool

pub record System : Type 0 where
  pub mode : Mode
  pub children : List Child

-- What `pipe` and the calls of `fork` give.
pub record Forks : Type 0 where
  pub pipe_ok : Bool
  pub first : Option ℕ
  pub second : Option ℕ

abbrev pub runs : ℕ → Child
runs p = record { pid = p; running = true }

abbrev pub zombie : ℕ → Child
zombie p = record { pid = p; running = false }

abbrev pub forked : Option ℕ → List Child → List Child
forked none cs = cs
forked (some p) cs = runs p ∷ cs

-- What a round of the loop starts, for the decision about its line.
unfoldable pub start : Forks → Decision → System → System
start f nothing s = s
start f quit s = record s { mode = left }
start f (builtin b args) s = s
start f (pipeline l r) s =
    if f.pipe_ok
    then record { mode = wait_any 2; children = forked f.second (forked f.first s.children) }
    else s
start f (external is_bg r) s = elim f.first [
  | none ↦ s
  | some p ↦ record { mode = if is_bg then s.mode else wait_for p; children = runs p ∷ s.children }
]

-- The processes that a round starts and does not wait for: those in the background.
abbrev pub in_background : Forks → Decision → ℕ
in_background f (external is_bg r) = elim f.first [ none ↦ 0 | some p ↦ if is_bg then 1 else 0 ]
in_background f d = 0

-- The next call of `wait(NULL)`.
unfoldable pub after_wait : ℕ → Mode
after_wait zero = prompt
after_wait (suc n) = wait_any (suc n)

-- `fork` gives process numbers that no child has.
abbrev pub AreNew : Forks → List Child → Type 0
AreNew f cs =
    All (λ c. f.first ≢ some c.pid) cs × All (λ c. f.second ≢ some c.pid) (forked f.first cs)

-- A step of the shell or of a child. The number counts the children that the step leaves without a
-- call that waits for them. SIGINT and SIGQUIT have a handler, without SA_RESTART: a call that waits
-- returns.
pub data Step : ℕ → System → System → Type 0 where
  round :
      (f : Forks) (d : Decision) (cs : List Child)
      → AreNew f cs
      → Step
          (in_background f d)
          (record { mode = prompt; children = cs })
          (start f d (record { mode = prompt; children = cs }))
  ends :
      (m : Mode) (before after : List Child) (p : ℕ)
      → Step 0
          (record { mode = m; children = before ++ (runs p ∷ after) })
          (record { mode = m; children = before ++ (zombie p ∷ after) })
  waited :
      (before after : List Child) (p : ℕ)
      → Step 0
          (record { mode = wait_for p; children = before ++ (zombie p ∷ after) })
          (record { mode = prompt; children = before ++ after })
  waited_any :
      (n p : ℕ) (before after : List Child)
      → Step 0
          (record { mode = wait_any (suc n); children = before ++ (zombie p ∷ after) })
          (record { mode = after_wait n; children = before ++ after })
  no_child :
      (n : ℕ)
      → Step 0
          (record { mode = wait_any (suc n); children = [] })
          (record { mode = after_wait n; children = [] })
  interrupted :
      (p : ℕ) (cs : List Child)
      → Step 1
          (record { mode = wait_for p; children = cs })
          (record { mode = prompt; children = cs })
  interrupted_any :
      (n : ℕ) (cs : List Child)
      → Step 1
          (record { mode = wait_any (suc n); children = cs })
          (record { mode = after_wait n; children = cs })

-- A run, with the number of children that it leaves.
pub data Steps : ℕ → System → System → Type 0 where
  no_step : {s : System} → Steps 0 s s
  first_step : {m n : ℕ} {s t u : System} → Step m s t → Steps n t u → Steps (m + n) s u

-- The shell before its first line.
abbrev pub start_system : System
start_system = record { mode = prompt; children = [] }
