-- ===== src/Shell/Processes/Tests.antt =====
-- The processes of project1/myshell.c in short runs.
use open_source_project.Prelude.{◌+◌, ◌≤◌, ◌≡◌, false, none, some, [], ◌∷◌, length, codes}
use open_source_project.Shell.Line.{Simple, pipeline, external}
use open_source_project.Shell.Processes.{
  prompt, System, Forks, runs, start, round, interrupted, Steps, no_step, first_step, start_system,
}
use open_source_project.Shell.Processes.Waits.{owed, children_bound, two_forks, early_prompt}

abbrev sleeping : Simple
sleeping = record { infile = none; outfile = none; args = codes "sleep" ∷ codes "9" ∷ [] }

abbrev one_fork : Forks
one_fork = record { pipe_ok = false; first = some 7; second = none }

interrupted_sleep : Steps 1 start_system (record { mode = prompt; children = runs 7 ∷ [] })
unfolding start
interrupted_sleep =
    first_step (round one_fork (external false sleeping) [] (tt, ((cc), tt)))
      (first_step (interrupted 7 (runs 7 ∷ [])) no_step)

children_bound_example : length (runs 7 ∷ []) ≤ 1 + owed prompt
children_bound_example = children_bound interrupted_sleep

early_prompt_example :
    (t : System) × (start
        (two_forks 8 9)
        (pipeline (codes "ls" ∷ []) (codes "wc" ∷ []))
        (record { mode = prompt; children = runs 7 ∷ [] })
      ≡ t)
    × Steps 0 (record { mode = prompt; children = runs 7 ∷ [] }) t
    × Steps 0 t (record { mode = prompt; children = runs 9 ∷ [] })
early_prompt_example =
    early_prompt (codes "ls" ∷ []) (codes "wc" ∷ []) 7 8 9 [] (((cc), tt), ((cc), ((cc), tt)))
