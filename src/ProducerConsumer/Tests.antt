-- ===== src/ProducerConsumer/Tests.antt =====
-- One producer and one consumer, for some steps.
use open_source_project.Prelude.{◌<◌, ◌≡◌, refl, [], ◌∷◌, arith}
use open_source_project.Prelude.Runs.{Run}
use open_source_project.BoundedBuffer.{bb}
use open_source_project.ProducerConsumer.{
  State, Step, moves, makes, p_locks, p_goes_on, stores, c_locks, c_waits, Reach, start, later,
}
use open_source_project.ProducerConsumer.Progress.{run_from, moved, moves_again}

-- The consumer waits, and the producer has stored an item.
stored : (s : State) × Reach s × (s.mem.inserted ≡ 7 ∷ [])
unfolding bb
stored = (
  _,
  later
      (later
        (later
          (later (later (later start (moves (c_locks refl))) (moves (c_waits refl)))
            (moves (makes 7)))
          (moves (p_locks refl)))
        (moves (p_goes_on refl)))
      (moves stores),
  refl,
)

long_run : (t : State) × Run Step stored.0 15 t
long_run = run_from 15 stored.0 stored.1

moves_again_example :
    (moved stored.0.mem < moved long_run.0.mem) × ((u : State) × Step long_run.0 u)
moves_again_example = moves_again 15 stored.1 long_run.1 (omega arith)
