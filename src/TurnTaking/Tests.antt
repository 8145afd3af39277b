-- ===== src/TurnTaking/Tests.antt =====
-- The two threads, for some steps.
use open_source_project.Prelude.{◌<◌, ◌≡◌, refl, [], ◌∷◌, arith}
use open_source_project.TurnTaking.{
  child, State, start_state, Step, child_moves, locks, goes_on, prints, Reach, start, later,
}
use open_source_project.TurnTaking.Progress.{run_from, greetings, greets_again}
use open_source_project.Prelude.Runs.{Run}

greeting : (s : State) × Reach s × (s.mem.greeted ≡ child ∷ [])
greeting = (
  _,
  later (later (later start (child_moves (locks refl))) (child_moves (goes_on refl)))
      (child_moves prints),
  refl,
)

long_run : (t : State) × Run Step start_state 29 t
long_run = run_from 29 start_state start

greets_again_example :
    (greetings start_state < greetings long_run.0) × ((u : State) × Step long_run.0 u)
greets_again_example = greets_again 29 start long_run.1 (omega arith)
