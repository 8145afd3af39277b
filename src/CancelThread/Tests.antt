-- ===== src/CancelThread/Tests.antt =====
-- The thread of lab3/2/cancelthread.c in short runs.
use open_source_project.Prelude.{◌%◌, ◌≡◌, refl, arith, false, true}
use open_source_project.CancelThread.{Thread, cancelled, start_thread, run_lines, line}
use open_source_project.CancelThread.Rounds.{ends_in_a_fifth_round}

-- A request in the second round is served in the sixth one.
sixth_round : (run_lines 25 true (run_lines 7 false start_thread)).printed ≡ 6
unfolding run_lines line
sixth_round = refl

ends_in_a_fifth_round_example :
    (let t : Thread = run_lines 25 true (run_lines 7 false start_thread) in
      (t.pc ≡ cancelled) × (t.printed % 5 ≡ 1))
ends_in_a_fifth_round_example = ends_in_a_fifth_round 7 25 (omega arith)
